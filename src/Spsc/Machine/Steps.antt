-- ===== src/Spsc/Machine/Steps.antt =====
-- Each kind of step keeps the invariant.
use high_frequency_trading_e.Prelude.{
  ℕ, ◌+◌, ◌^◌, ◌%◌, ◌≤◌, ◌<◌, ◌≡◌, refl, ap, sym, ◌∙◌, subst, [], ◌∷◌, ◌++◌, some, arith, length,
  get_elem?, set, length-set, length-append, length-replicate, get_elem?-append_left,
  get_elem?-append_end, get_elem?-set_self, get_elem?-set_ne,
}
use native.Mathlib.Decide.{dec_lt}
use native.Mathlib.Nat.{mod-lt}
use high_frequency_trading_e.Spsc.{new, slot, mod64, capacity, write_slot}
use high_frequency_trading_e.Spsc.Positions.{mod_ne}
use high_frequency_trading_e.Spsc.Machine.{
  Machine, Pushing, Popping, Step, Reach, start, load_consumer, load_producer, written, published,
  taken,
}
use high_frequency_trading_e.Spsc.Machine.Invariant.{
  Inv, ProducerHas, ConsumerHas, room_left, some_waiting, producer_slot, consumer_slot,
  capacity_pos,
}

module _ {A : Type 0} {m : Machine A} (v : Inv m) where
  move_producer :
      (p : Pushing A)
      → ProducerHas (capacity m.q) m.q.buf (length m.pushed) m.seen_popped p
      → Inv (record m { prod = p })
  move_producer p h = record {
    small = v.small;
    filled = v.filled;
    at_pushed = v.at_pushed;
    at_popped = v.at_popped;
    cached_popped = v.cached_popped;
    cached_pushed = v.cached_pushed;
    popped_seen = v.popped_seen;
    some_left = v.some_left;
    pushed_seen = v.pushed_seen;
    bounded = v.bounded;
    fifo = v.fifo;
    held = v.held;
    producer = h;
    consumer = v.consumer;
  }

  move_consumer :
      (c : Popping A)
      → ConsumerHas m.pushed (length m.popped) m.seen_pushed c
      → Inv (record m { cons = c })
  move_consumer c h = record {
    small = v.small;
    filled = v.filled;
    at_pushed = v.at_pushed;
    at_popped = v.at_popped;
    cached_popped = v.cached_popped;
    cached_pushed = v.cached_pushed;
    popped_seen = v.popped_seen;
    some_left = v.some_left;
    pushed_seen = v.pushed_seen;
    bounded = v.bounded;
    fifo = v.fifo;
    held = v.held;
    producer = v.producer;
    consumer = h;
  }

  load_consumer-Inv :
      (x : A) (n : ℕ) → m.seen_popped ≤ n → n ≤ length m.popped → Inv (load_consumer m x n)
  load_consumer-Inv x n low high = record {
    small = v.small;
    filled = v.filled;
    at_pushed = v.at_pushed;
    at_popped = v.at_popped;
    cached_popped = refl;
    cached_pushed = v.cached_pushed;
    popped_seen = high;
    some_left = v.some_left;
    pushed_seen = v.pushed_seen;
    bounded = omega (arith, v.bounded);
    fifo = v.fifo;
    held = v.held;
    producer = tt;
    consumer = v.consumer;
  }

  load_producer-Inv : (n : ℕ) → m.seen_pushed ≤ n → n ≤ length m.pushed → Inv (load_producer m n)
  load_producer-Inv n low high = record {
    small = v.small;
    filled = v.filled;
    at_pushed = v.at_pushed;
    at_popped = v.at_popped;
    cached_popped = v.cached_popped;
    cached_pushed = refl;
    popped_seen = v.popped_seen;
    some_left = omega (arith, v.some_left);
    pushed_seen = high;
    bounded = v.bounded;
    fifo = v.fifo;
    held = v.held;
    producer = v.producer;
    consumer = tt;
  }

  -- A write goes to a slot that holds no value which waits to be taken.
  written-Inv : (x : A) → length m.pushed < m.seen_popped + capacity m.q → Inv (written m x)
  written-Inv x room = record {
    small = v.small;
    filled = length-set m.q.buf (slot m.q m.q.producer_pos) x ∙ v.filled;
    at_pushed = v.at_pushed;
    at_popped = v.at_popped;
    cached_popped = v.cached_popped;
    cached_pushed = v.cached_pushed;
    popped_seen = v.popped_seen;
    some_left = v.some_left;
    pushed_seen = v.pushed_seen;
    bounded = v.bounded;
    fifo = v.fifo;
    held = untouched;
    producer = (room, stored);
    consumer = v.consumer;
  }
    where
      target : slot m.q m.q.producer_pos ≡ length m.pushed % capacity m.q
      target = producer_slot v

      within : length m.pushed % capacity m.q < length m.q.buf
      within = omega (arith, v.filled, mod-lt (length m.pushed) (capacity_pos v))

      stored : get_elem? (write_slot m.q x).buf (length m.pushed % capacity m.q) ≡ some x
      stored =
          ap (λ i. get_elem? (set m.q.buf i x) (length m.pushed % capacity m.q)) target
          ∙ get_elem?-set_self m.q.buf (length m.pushed % capacity m.q) x within

      untouched :
          (i : ℕ)
          → length m.popped ≤ i
          → i < length m.pushed
          → get_elem? (write_slot m.q x).buf (i % capacity m.q) ≡ get_elem? m.pushed i
      untouched i low high =
          ap (λ j. get_elem? (set m.q.buf j x) (i % capacity m.q)) target
          ∙ get_elem?-set_ne m.q.buf (length m.pushed % capacity m.q) (i % capacity m.q) x (λ e.
            mod_ne i (length m.pushed) (capacity m.q) high (omega (arith, room, v.popped_seen))
              (sym e))
          ∙ v.held i low high

  published-Inv :
      (x : A)
      → (length m.pushed < m.seen_popped + capacity m.q)
      → get_elem? m.q.buf (length m.pushed % capacity m.q) ≡ some x
      → Inv (published m x)
  published-Inv x room stored = record {
    small = v.small;
    filled = v.filled;
    at_pushed = next;
    at_popped = v.at_popped;
    cached_popped = v.cached_popped;
    cached_pushed = v.cached_pushed;
    popped_seen = v.popped_seen;
    some_left = v.some_left;
    pushed_seen = omega (arith, longer, v.pushed_seen);
    bounded = omega (arith, longer, room);
    fifo = same;
    held = all_held;
    producer = tt;
    consumer = keep m.cons v.consumer;
  }
    where
      longer : length (m.pushed ++ x ∷ []) ≡ length m.pushed + 1
      longer = length-append m.pushed (x ∷ [])

      next : (m.q.producer_pos + 1) % mod64 ≡ length (m.pushed ++ x ∷ []) % mod64
      next = omega (arith, longer, v.at_pushed)

      same : (i : ℕ) → i < length m.popped → get_elem? m.popped i ≡ get_elem? (m.pushed ++ x ∷ []) i
      same i lt =
          v.fifo i lt
          ∙ sym (
              get_elem?-append_left m.pushed (x ∷ []) i (omega (arith, v.some_left, v.pushed_seen)))

      all_held :
          (i : ℕ)
          → length m.popped ≤ i
          → i < length (m.pushed ++ x ∷ [])
          → get_elem? m.q.buf (i % capacity m.q) ≡ get_elem? (m.pushed ++ x ∷ []) i
      all_held i low high = elim (dec_lt i (length m.pushed)) [
        | yes old ↦ v.held i low old ∙ sym (get_elem?-append_left m.pushed (x ∷ []) i old)
        | no last ↦
            let e : i ≡ length m.pushed = omega (arith, longer) in
            rw e (stored ∙ sym (get_elem?-append_end m.pushed x))
      ]

      keep :
          (c : Popping A)
          → ConsumerHas m.pushed (length m.popped) m.seen_pushed c
          → ConsumerHas (m.pushed ++ x ∷ []) (length m.popped) m.seen_pushed c
      keep Popping.idle k = tt
      keep Popping.started k = tt
      keep Popping.reloading k = tt
      keep Popping.checking k = tt
      keep Popping.reading k = k
      keep (Popping.publishing y) k = (
        k.0,
        get_elem?-append_left m.pushed (x ∷ []) (length m.popped)
              (omega (arith, k.0, v.pushed_seen))
            ∙ k.1,
      )

  taken-Inv :
      (x : A)
      → length m.popped < m.seen_pushed
      → get_elem? m.pushed (length m.popped) ≡ some x
      → Inv (taken m x)
  taken-Inv x waiting oldest = record {
    small = v.small;
    filled = v.filled;
    at_pushed = v.at_pushed;
    at_popped = next;
    cached_popped = v.cached_popped;
    cached_pushed = v.cached_pushed;
    popped_seen = omega (arith, longer, v.popped_seen);
    some_left = omega (arith, longer, waiting);
    pushed_seen = v.pushed_seen;
    bounded = v.bounded;
    fifo = same;
    held = λ i low high. v.held i (omega (arith, longer, low)) high;
    producer = v.producer;
    consumer = tt;
  }
    where
      longer : length (m.popped ++ x ∷ []) ≡ length m.popped + 1
      longer = length-append m.popped (x ∷ [])

      next : (m.q.consumer_pos + 1) % mod64 ≡ length (m.popped ++ x ∷ []) % mod64
      next = omega (arith, longer, v.at_popped)

      same :
          (i : ℕ)
          → i < length (m.popped ++ x ∷ [])
          → get_elem? (m.popped ++ x ∷ []) i ≡ get_elem? m.pushed i
      same i lt = elim (dec_lt i (length m.popped)) [
        | yes old ↦ get_elem?-append_left m.popped (x ∷ []) i old ∙ v.fifo i old
        | no last ↦
            let e : i ≡ length m.popped = omega (arith, longer) in
            rw e (get_elem?-append_end m.popped x ∙ sym oldest)
      ]

  -- What the consumer finds in its slot is the oldest value that is published and not taken.
  pub oldest_in_slot :
      length m.popped < m.seen_pushed
      → get_elem? m.q.buf (slot m.q m.q.consumer_pos) ≡ get_elem? m.pushed (length m.popped)
  oldest_in_slot waiting =
      ap (get_elem? m.q.buf) (consumer_slot v)
      ∙ v.held (length m.popped) (omega arith) (omega (arith, waiting, v.pushed_seen))

  -- Where each side stands when it is known.
  pub producer_has :
      {p : Pushing A}
      → m.prod ≡ p
      → ProducerHas (capacity m.q) m.q.buf (length m.pushed) m.seen_popped p
  producer_has e =
      subst (ProducerHas (capacity m.q) m.q.buf (length m.pushed) m.seen_popped) e v.producer

  pub consumer_has :
      {c : Popping A} → m.cons ≡ c → ConsumerHas m.pushed (length m.popped) m.seen_pushed c
  consumer_has e = subst (ConsumerHas m.pushed (length m.popped) m.seen_pushed) e v.consumer

pub Step-Inv : {A : Type 0} {m n : Machine A} → Step m n → Inv m → Inv n
Step-Inv (Step.begin_push x at) v = move_producer v (Pushing.started x) tt
Step-Inv (Step.cache_room x at room) v = move_producer v (Pushing.writing x) (room_left v room)
Step-Inv (Step.cache_full x at room) v = move_producer v (Pushing.reloading x) tt
Step-Inv (Step.reload_push x n at low high) v = load_consumer-Inv v x n low high
Step-Inv (Step.found_room x at room) v = move_producer v (Pushing.writing x) (room_left v room)
Step-Inv (Step.full x at room) v = move_producer v Pushing.idle tt
Step-Inv (Step.write x at) v = written-Inv v x (producer_has v at)
Step-Inv (Step.publish x at) v = published-Inv v x (producer_has v at).0 (producer_has v at).1
Step-Inv (Step.begin_pop at) v = move_consumer v Popping.started tt
Step-Inv (Step.cache_some at some_here) v =
    move_consumer v Popping.reading (some_waiting v some_here)
Step-Inv (Step.cache_empty at none_here) v = move_consumer v Popping.reloading tt
Step-Inv (Step.reload_pop n at low high) v = load_producer-Inv v n low high
Step-Inv (Step.found_some at some_here) v =
    move_consumer v Popping.reading (some_waiting v some_here)
Step-Inv (Step.empty at none_here) v = move_consumer v Popping.idle tt
Step-Inv (Step.read x at found) v =
    move_consumer v (Popping.publishing x)
      (consumer_has v at, sym (oldest_in_slot v (consumer_has v at)) ∙ found)
Step-Inv (Step.release x at) v = taken-Inv v x (consumer_has v at).0 (consumer_has v at).1

start-Inv : {A : Type 0} (bits : ℕ) (init : A) → bits ≤ 63 → Inv (start bits init)
unfolding new
start-Inv bits init small = record {
  small = small;
  filled = length-replicate (2 ^ bits) init;
  at_pushed = refl;
  at_popped = refl;
  cached_popped = refl;
  cached_pushed = refl;
  popped_seen = omega arith;
  some_left = omega arith;
  pushed_seen = omega arith;
  bounded = omega arith;
  fifo = λ i lt. refl;
  held = λ i low high. absurd (omega arith);
  producer = tt;
  consumer = tt;
}

pub Run-Inv : {A : Type 0} {m n : Machine A} → Inv m → Reach m n → Inv n
Run-Inv v Reach.here = v
Run-Inv v (Reach.later r s) = Step-Inv s (Run-Inv v r)

pub Reach-Inv :
    {A : Type 0} (bits : ℕ) (init : A) {m : Machine A}
    → bits ≤ 63
    → Reach (start bits init) m
    → Inv m
Reach-Inv bits init small r = Run-Inv (start-Inv bits init small) r
