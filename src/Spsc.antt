-- ===== src/Spsc.antt =====
-- include/hft/spsc_queue.hpp: the single-producer single-consumer ring. The capacity is 2 ^ `bits`;
-- positions are `std::size_t`, kept modulo 2 ^ 64. Here `push` and `pop` run alone; `Machine` runs
-- them against each other, one memory access at a time.
pub mod Positions
pub mod Machine
use Prim.Native.Nat.{bit_and}
use high_frequency_trading_e.Prelude.{
  ℕ, ◌+◌, ◌-◌, ◌^◌, ◌%◌, Bool, true, false, List, Option, none, some, ltb, ◌==◌, if◌then◌else◌,
  get_elem?, set, replicate,
}

pub record SpscQueue {ℓ} (A : Type ℓ) : Type ℓ where
  pub bits : ℕ
  pub producer_pos : ℕ
  pub cached_consumer_pos : ℕ
  pub consumer_pos : ℕ
  pub cached_producer_pos : ℕ
  pub buf : List A

abbrev pub mod64 : ℕ
mod64 = 2 ^ 64

-- `a - b` of two `std::size_t`
abbrev pub sub64 : ℕ → ℕ → ℕ
sub64 a b = (a + mod64 - b) % mod64

module _ {ℓ} {A : Type ℓ} where
  abbrev pub capacity : SpscQueue A → ℕ
  capacity q = 2 ^ q.bits

  -- `pos & kMask`
  unfoldable pub slot : SpscQueue A → ℕ → ℕ
  slot q pos = bit_and pos (2 ^ q.bits - 1)

  -- `SpscQueue() = default`; `init` is the default-constructed payload.
  unfoldable pub new : ℕ → A → SpscQueue A
  new bits init = record {
    bits = bits;
    producer_pos = 0;
    cached_consumer_pos = 0;
    consumer_pos = 0;
    cached_producer_pos = 0;
    buf = replicate (2 ^ bits) init;
  }

  -- `prod - cached_consumer_pos_ >= Capacity` is false: the cache shows room.
  abbrev pub shows_room : SpscQueue A → Bool
  shows_room q = ltb (sub64 q.producer_pos q.cached_consumer_pos) (capacity q)

  -- `cons == cached_producer_pos_`
  abbrev pub shows_empty : SpscQueue A → Bool
  shows_empty q = q.consumer_pos == q.cached_producer_pos

  abbrev pub reload_consumer : SpscQueue A → SpscQueue A
  reload_consumer q = record q { cached_consumer_pos = q.consumer_pos }

  abbrev pub reload_producer : SpscQueue A → SpscQueue A
  reload_producer q = record q { cached_producer_pos = q.producer_pos }

  -- the slot write and the release store that publishes it
  abbrev pub write_slot : SpscQueue A → A → SpscQueue A
  write_slot q value = record q { buf = set q.buf (slot q q.producer_pos) value }

  abbrev pub publish_push : SpscQueue A → SpscQueue A
  publish_push q = record q { producer_pos = (q.producer_pos + 1) % mod64 }

  abbrev pub publish_pop : SpscQueue A → SpscQueue A
  publish_pop q = record q { consumer_pos = (q.consumer_pos + 1) % mod64 }

  -- `emplace_from`
  unfoldable pub push : SpscQueue A → A → SpscQueue A × Bool
  push q value =
      if shows_room q
      then (publish_push (write_slot q value), true)
      else if shows_room (reload_consumer q)
      then (publish_push (write_slot (reload_consumer q) value), true)
      else (reload_consumer q, false)

  -- `pop`: the option is what goes through `out`.
  abbrev take_slot : SpscQueue A → SpscQueue A × Option A
  take_slot q = (publish_pop q, get_elem? q.buf (slot q q.consumer_pos))

  unfoldable pub pop : SpscQueue A → SpscQueue A × Option A
  pop q =
      if shows_empty q
      then (if shows_empty (reload_producer q)
          then (reload_producer q, none)
          else take_slot (reload_producer q))
      else take_slot q

  unfoldable pub size_approx : SpscQueue A → ℕ
  size_approx q = sub64 q.producer_pos q.consumer_pos

  unfoldable pub empty_approx : SpscQueue A → Bool
  unfolding size_approx
  empty_approx q = size_approx q == 0
