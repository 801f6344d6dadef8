-- ===== src/Spsc/Machine/Order.antt =====
-- What the two threads see of one another, in any interleaving.
use high_frequency_trading_e.Prelude.{
  ℕ, ◌+◌, ◌≤◌, ◌≡◌, ◌≢◌, sym, ◌∙◌, true, false, ◌++◌, some, arith, length, drop, get_elem?,
  get_elem?_within, prefix_of_agree,
}
use high_frequency_trading_e.Spsc.{slot, capacity, shows_room, shows_empty}
use high_frequency_trading_e.Spsc.Positions.{mod_ne}
use high_frequency_trading_e.Spsc.Machine.{Machine, Pushing, Popping, Reach, start}
use high_frequency_trading_e.Spsc.Machine.Invariant.{
  full_count, empty_count, producer_slot, consumer_slot,
}
use high_frequency_trading_e.Spsc.Machine.Steps.{
  Reach-Inv, producer_has, consumer_has, oldest_in_slot,
}

-- In every reachable state the values taken are the first of the values published, in their order,
-- and at most a capacity of published values waits to be taken. The capacity is at most 2 ^ 63;
-- the positions may wrap at 2 ^ 64 any number of times.
pub fifo_lem :
    {A : Type 0} (bits : ℕ) (init : A) {m : Machine A}
    → bits ≤ 63
    → Reach (start bits init) m
    → (m.pushed ≡ m.popped ++ drop (length m.popped) m.pushed)
      × (length m.pushed ≤ length m.popped + capacity m.q)
fifo_lem bits init {m} small r =
    let v = Reach-Inv bits init small r in
    (
      prefix_of_agree m.popped m.pushed (omega (arith, v.some_left, v.pushed_seen)) v.fifo,
      omega (arith, v.bounded, v.popped_seen),
    )

-- In every reachable state in which the producer is about to write a slot and the consumer is about
-- to read one, these are two slots. The capacity is at most 2 ^ 63.
pub slots_apart :
    {A : Type 0} (bits : ℕ) (init : A) {m : Machine A} (x : A)
    → bits ≤ 63
    → Reach (start bits init) m
    → m.prod ≡ Pushing.writing x
    → m.cons ≡ Popping.reading
    → slot m.q m.q.producer_pos ≢ slot m.q m.q.consumer_pos
slots_apart bits init {m} x small r at_write at_read e =
    let v = Reach-Inv bits init small r in
    mod_ne (length m.popped) (length m.pushed) (capacity m.q)
      (omega (arith, consumer_has v at_read, v.pushed_seen))
      (omega (arith, producer_has v at_write, v.popped_seen))
      (sym (consumer_slot v) ∙ sym e ∙ producer_slot v)

-- In every reachable state a consumer that has found the ring not empty can read its slot, and finds there the oldest value
-- that is published and not taken.
pub read_lem :
    {A : Type 0} (bits : ℕ) (init : A) {m : Machine A}
    → bits ≤ 63
    → Reach (start bits init) m
    → m.cons ≡ Popping.reading
    → (x : A) × (get_elem? m.q.buf (slot m.q m.q.consumer_pos) ≡ some x)
      × (get_elem? m.pushed (length m.popped) ≡ some x)
read_lem bits init {m} small r at_read =
    let v = Reach-Inv bits init small r in
    let waiting = consumer_has v at_read in
    let (x, e) =
      get_elem?_within m.pushed (length m.popped) (omega (arith, waiting, v.pushed_seen)) in
    (x, oldest_in_slot v waiting ∙ e, e)

-- In every reachable state a `push` that is about to answer "full" has seen a full ring: all that
-- is published is a capacity more than what was taken when it loaded the consumer's position. The
-- capacity is at most 2 ^ 63.
pub full_lem :
    {A : Type 0} (bits : ℕ) (init : A) {m : Machine A} (x : A)
    → bits ≤ 63
    → Reach (start bits init) m
    → m.prod ≡ Pushing.checking x
    → shows_room m.q ≡ false
    → length m.pushed ≡ m.seen_popped + capacity m.q
full_lem bits init x small r at_check e = full_count (Reach-Inv bits init small r) e

-- In every reachable state a `pop` that is about to answer "empty" has taken all that was published
-- when it loaded the producer's position. The capacity is at most 2 ^ 63.
pub empty_lem :
    {A : Type 0} (bits : ℕ) (init : A) {m : Machine A}
    → bits ≤ 63
    → Reach (start bits init) m
    → m.cons ≡ Popping.checking
    → shows_empty m.q ≡ true
    → m.seen_pushed ≡ length m.popped
empty_lem bits init small r at_check e = empty_count (Reach-Inv bits init small r) e
