-- ===== src/Spsc/Machine/Invariant.antt =====
-- What holds of the ring between any two memory accesses.
use high_frequency_trading_e.Prelude.{
  ℕ, ◌+◌, ◌-◌, ◌%◌, ◌≤◌, ◌<◌, ◌≡◌, ap, sym, ◌∙◌, true, false, List, some, arith, length, get_elem?,
}
use native.Mathlib.Decide.{dec_lt}
use high_frequency_trading_e.Prelude.Mask.{two_pow_pos}
use high_frequency_trading_e.Spsc.{slot, mod64, sub64, capacity, shows_room, shows_empty}
use high_frequency_trading_e.Spsc.Positions.{sub64_counts, counts_eq, capacity_small, slot_lem}
use high_frequency_trading_e.Spsc.Machine.{Machine, Pushing, Popping}

module _ {A : Type 0} where
  -- A producer that is about to write has room; the slot that it publishes holds its value. `n` values
  -- are published, and `seen` are known to be taken.
  abbrev pub ProducerHas : ℕ → List A → ℕ → ℕ → Pushing A → Type 0
  ProducerHas cap buf n seen Pushing.idle = Unit {0}
  ProducerHas cap buf n seen (Pushing.started v) = Unit {0}
  ProducerHas cap buf n seen (Pushing.reloading v) = Unit {0}
  ProducerHas cap buf n seen (Pushing.checking v) = Unit {0}
  ProducerHas cap buf n seen (Pushing.writing v) = n < seen + cap
  ProducerHas cap buf n seen (Pushing.publishing v) =
      (n < seen + cap) × (get_elem? buf (n % cap) ≡ some v)

  -- A consumer that is about to read has a value to read; what it read is the oldest value. `n`
  -- values are taken, and `seen` are known to be published.
  abbrev pub ConsumerHas : List A → ℕ → ℕ → Popping A → Type 0
  ConsumerHas pushed n seen Popping.idle = Unit {0}
  ConsumerHas pushed n seen Popping.started = Unit {0}
  ConsumerHas pushed n seen Popping.reloading = Unit {0}
  ConsumerHas pushed n seen Popping.checking = Unit {0}
  ConsumerHas pushed n seen Popping.reading = n < seen
  ConsumerHas pushed n seen (Popping.publishing x) = (n < seen) × (get_elem? pushed n ≡ some x)

  pub record Inv (m : Machine A) : Type 0 where
    pub small : m.q.bits ≤ 63
    pub filled : length m.q.buf ≡ capacity m.q
    pub at_pushed : m.q.producer_pos ≡ length m.pushed % mod64
    pub at_popped : m.q.consumer_pos ≡ length m.popped % mod64
    pub cached_popped : m.q.cached_consumer_pos ≡ m.seen_popped % mod64
    pub cached_pushed : m.q.cached_producer_pos ≡ m.seen_pushed % mod64
    pub popped_seen : m.seen_popped ≤ length m.popped
    pub some_left : length m.popped ≤ m.seen_pushed
    pub pushed_seen : m.seen_pushed ≤ length m.pushed
    pub bounded : length m.pushed ≤ m.seen_popped + capacity m.q
    -- what was taken is what was published
    pub fifo : (i : ℕ) → i < length m.popped → get_elem? m.popped i ≡ get_elem? m.pushed i
    -- and what was not taken lies in its slot
    pub held :
        (i : ℕ)
        → length m.popped ≤ i
        → i < length m.pushed
        → get_elem? m.q.buf (i % capacity m.q) ≡ get_elem? m.pushed i
    pub producer : ProducerHas (capacity m.q) m.q.buf (length m.pushed) m.seen_popped m.prod
    pub consumer : ConsumerHas m.pushed (length m.popped) m.seen_pushed m.cons

  module _ {m : Machine A} (v : Inv m) where
    capacity_below : capacity m.q < mod64
    capacity_below = omega (arith, capacity_small m.q.bits v.small)

    pub capacity_pos : 0 < capacity m.q
    capacity_pos = two_pow_pos m.q.bits

    pub shows_room-count :
        sub64 m.q.producer_pos m.q.cached_consumer_pos ≡ length m.pushed - m.seen_popped
    shows_room-count =
        rw (v.at_pushed, v.cached_popped)
          (sub64_counts (length m.pushed) m.seen_popped
            (omega (arith, v.popped_seen, v.some_left, v.pushed_seen))
            (omega (arith, v.bounded, capacity_below)))

    pub room_left : shows_room m.q ≡ true → length m.pushed < m.seen_popped + capacity m.q
    room_left e = ground (arith, shows_room-count, capacity_pos)

    pub full_count : shows_room m.q ≡ false → length m.pushed ≡ m.seen_popped + capacity m.q
    full_count e = ground (arith, shows_room-count, v.bounded)

    pub empty_count : shows_empty m.q ≡ true → m.seen_pushed ≡ length m.popped
    empty_count e =
        counts_eq m.seen_pushed (length m.popped) v.some_left
          (omega (arith, v.pushed_seen, v.bounded, v.popped_seen, capacity_below))
          (ground (arith, v.at_popped, v.cached_pushed))

    pub some_waiting : shows_empty m.q ≡ false → length m.popped < m.seen_pushed
    some_waiting e = elim (dec_lt (length m.popped) m.seen_pushed) [
      | yes below ↦ below
      | no level ↦ absurd (differ (omega (arith, v.some_left)))
    ]
      where
        differ : m.seen_pushed ≡ length m.popped → ⊥
        differ same =
            let r : m.q.consumer_pos ≡ m.q.cached_producer_pos =
              v.at_popped ∙ ap (λ n. n % mod64) (sym same) ∙ sym v.cached_pushed in
            ground (arith, e)

    pub producer_slot : slot m.q m.q.producer_pos ≡ length m.pushed % capacity m.q
    producer_slot =
        ap (slot m.q) v.at_pushed ∙ slot_lem m.q (length m.pushed) (omega (arith, v.small))

    pub consumer_slot : slot m.q m.q.consumer_pos ≡ length m.popped % capacity m.q
    consumer_slot =
        ap (slot m.q) v.at_popped ∙ slot_lem m.q (length m.popped) (omega (arith, v.small))
