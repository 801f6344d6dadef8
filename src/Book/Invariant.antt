-- ===== src/Book/Invariant.antt =====
-- The invariant of `BookView`: the arrays have their length, no level exceeds its field, and the
-- cached indices name the best levels.
use high_frequency_trading_e.Prelude.{
  ℕ, ◌-◌, ◌+◌, ◌≤◌, ◌<◌, ◌≡◌, ◌≢◌, refl, inl, inr, Bool, true, false, List, arith, ltb, ltb→lt,
  zero, suc, ◌==◌, if◌then◌else◌, Bool-cases, length, get_or, set, get_or-set, length-set,
  length-replicate, get_or-replicate, replicate,
}
use high_frequency_trading_e.Prelude.Int.{ℤ, pos, negsuc, ltb_ℤ}
use high_frequency_trading_e.Wire.{MsgType, ItchMessage, to_msg_type, is_buy}
use high_frequency_trading_e.Book.{
  BookView, new, max_level_size, saturating_add, reduced, on_size_increased, on_level_emptied,
  side_levels, set_level, add_size, reduce_size, delete_level, apply_at, apply_index, apply,
  to_index, drop_message, eq_ℤ, walk_down, walk_up,
}
use high_frequency_trading_e.Book.Top.{
  IsBestBid, IsBestAsk, raise-IsBestBid, raise-IsBestAsk, keep-IsBestBid, keep-IsBestAsk,
  clear-IsBestBid, clear-IsBestAsk,
}

abbrev pub Fits : List ℕ → Type 0
Fits arr = (j : ℕ) → get_or arr j 0 ≤ max_level_size

pub record IsValid (b : BookView) : Type 0 where
  pub bid_length : length b.bid ≡ b.ticks
  pub ask_length : length b.ask ≡ b.ticks
  pub bid_fits : Fits b.bid
  pub ask_fits : Fits b.ask
  pub best_bid : IsBestBid b.bid b.best_bid_idx
  pub best_ask : IsBestAsk b.ask b.ticks b.best_ask_idx

pub new-IsValid : (ticks : ℕ) (base tick : ℤ) → IsValid (new ticks base tick)
unfolding new
new-IsValid ticks base tick = record {
  bid_length = length-replicate ticks 0;
  ask_length = length-replicate ticks 0;
  bid_fits = λ j. fits j;
  ask_fits = λ j. fits j;
  best_bid = (refl, λ j. get_or-replicate ticks j 0);
  best_ask = (omega arith, (λ h. absurd (omega arith)), λ j h. get_or-replicate ticks j 0);
}
  where
    fits : Fits (replicate ticks 0)
    fits j = rw (get_or-replicate {A = ℕ} ticks j 0) (omega arith)

Fits-set :
    (arr : List ℕ) (idx v : ℕ)
    → idx < length arr
    → v ≤ max_level_size
    → Fits arr
    → Fits (set arr idx v)
Fits-set arr idx v inside small fits j = ground (arith, get_or-set arr idx j v 0 inside, fits j)

pub saturating_add_bounds :
    (level size : ℕ)
    → size ≢ 0
    → size ≤ max_level_size
    → (saturating_add level size ≢ 0) × (saturating_add level size ≤ max_level_size)
unfolding saturating_add
saturating_add_bounds level size h fits = ground arith

pub reduced_lem : (level size : ℕ) → reduced level size ≡ level - size
unfolding reduced
reduced_lem level size = ground arith

module _ {b : BookView} (v : IsValid b) (idx : ℕ) (within : idx < b.ticks) where
  inside_bid : idx < length b.bid
  inside_bid = omega (arith, v.bid_length)

  inside_ask : idx < length b.ask
  inside_ask = omega (arith, v.ask_length)

  -- What a changed level leaves to prove: the best index of its side.
  set_bid-IsValid :
      (x : ℕ) (best : ℤ)
      → x ≤ max_level_size
      → IsBestBid (set b.bid idx x) best
      → IsValid (record b { bid = set b.bid idx x; best_bid_idx = best })
  set_bid-IsValid x best small top = record {
    bid_length = omega (arith, length-set b.bid idx x, v.bid_length);
    ask_length = v.ask_length;
    bid_fits = Fits-set b.bid idx x inside_bid small v.bid_fits;
    ask_fits = v.ask_fits;
    best_bid = top;
    best_ask = v.best_ask;
  }

  set_ask-IsValid :
      (x : ℕ) (best : ℤ)
      → x ≤ max_level_size
      → IsBestAsk (set b.ask idx x) b.ticks best
      → IsValid (record b { ask = set b.ask idx x; best_ask_idx = best })
  set_ask-IsValid x best small top = record {
    bid_length = v.bid_length;
    ask_length = omega (arith, length-set b.ask idx x, v.ask_length);
    bid_fits = v.bid_fits;
    ask_fits = Fits-set b.ask idx x inside_ask small v.ask_fits;
    best_bid = v.best_bid;
    best_ask = top;
  }

-- What the two touch updates make of a book, in one record.
raised_bid :
    (b : BookView) (idx x : ℕ)
    → on_size_increased (set_level b true idx x) true idx ≡ record b {
      bid = set b.bid idx x;
      best_bid_idx = if ltb_ℤ b.best_bid_idx (pos idx) then pos idx else b.best_bid_idx;
    }
unfolding on_size_increased
raised_bid b idx x = ground arith

raised_ask :
    (b : BookView) (idx x : ℕ)
    → on_size_increased (set_level b false idx x) false idx ≡ record b {
      ask = set b.ask idx x;
      best_ask_idx = if ltb_ℤ (pos idx) b.best_ask_idx then pos idx else b.best_ask_idx;
    }
unfolding on_size_increased
raised_ask b idx x = ground arith

cleared_bid :
    (b : BookView) (idx : ℕ)
    → on_level_emptied (set_level b true idx 0) true idx ≡ record b {
      bid = set b.bid idx 0;
      best_bid_idx =
          if eq_ℤ (pos idx) b.best_bid_idx then walk_down (set b.bid idx 0) idx else b.best_bid_idx;
    }
unfolding on_level_emptied
cleared_bid b idx = ground arith

cleared_ask :
    (b : BookView) (idx : ℕ)
    → on_level_emptied (set_level b false idx 0) false idx ≡ record b {
      ask = set b.ask idx 0;
      best_ask_idx =
          if eq_ℤ (pos idx) b.best_ask_idx
          then pos (walk_up (set b.ask idx 0) (b.ticks - (idx + 1)) (idx + 1))
          else b.best_ask_idx;
    }
unfolding on_level_emptied
cleared_ask b idx = ground arith

module _ {b : BookView} (v : IsValid b) (idx : ℕ) (within : idx < b.ticks) where
  add_size-IsValid :
      (is_bid : Bool) (size : ℕ) → size ≤ max_level_size → IsValid (add_size b is_bid idx size)
  unfolding add_size
  add_size-IsValid is_bid size small = elim (Bool-cases (size == 0)) [
    | inl zero_size ↦ rw zero_size v
    | inr sized ↦ rw sized (nonzero is_bid (ground arith))
  ]
    where
      level : Bool → ℕ
      level side = saturating_add (get_or (side_levels b side) idx 0) size

      nonzero :
          (side : Bool)
          → size ≢ 0
          → IsValid (on_size_increased (set_level b side idx (level side)) side idx)
      nonzero true ne =
          let bounds = saturating_add_bounds (get_or b.bid idx 0) size ne small in
          rw (raised_bid b idx (level true)) (
            set_bid-IsValid v idx within _ _ bounds.1 (
              raise-IsBestBid b.bid idx (level true) (inside_bid v idx within) b.best_bid_idx
                bounds.0 v.best_bid))
      nonzero false ne =
          let bounds = saturating_add_bounds (get_or b.ask idx 0) size ne small in
          rw (raised_ask b idx (level false)) (
            set_ask-IsValid v idx within _ _ bounds.1 (
              raise-IsBestAsk b.ask idx (level false) (inside_ask v idx within) b.ticks
                b.best_ask_idx bounds.0 within v.best_ask))

  delete_level-IsValid : (is_bid : Bool) → IsValid (delete_level b is_bid idx)
  unfolding delete_level
  delete_level-IsValid true = rw (cleared_bid b idx) (
      set_bid-IsValid v idx within 0 _ (omega arith)
        (clear-IsBestBid b.bid idx (inside_bid v idx within) b.best_bid_idx v.best_bid))
  delete_level-IsValid false = rw (cleared_ask b idx) (
      set_ask-IsValid v idx within 0 _ (omega arith) (
        clear-IsBestAsk b.ask idx (inside_ask v idx within) b.ticks b.best_ask_idx within
          v.best_ask))

  shrink-IsValid :
      (is_bid : Bool) (left : ℕ)
      → left ≢ 0
      → left ≤ get_or (side_levels b is_bid) idx 0
      → IsValid (set_level b is_bid idx left)
  shrink-IsValid true left ne le =
      set_bid-IsValid v idx within left b.best_bid_idx (omega (arith, v.bid_fits idx)) (
        keep-IsBestBid b.bid idx left (inside_bid v idx within) b.best_bid_idx ne (omega arith)
          v.best_bid)
  shrink-IsValid false left ne le =
      set_ask-IsValid v idx within left b.best_ask_idx (omega (arith, v.ask_fits idx)) (
        keep-IsBestAsk b.ask idx left (inside_ask v idx within) b.ticks b.best_ask_idx ne
          (omega arith) v.best_ask)

  reduce_size-IsValid : (is_bid : Bool) (size : ℕ) → IsValid (reduce_size b is_bid idx size)
  unfolding reduce_size delete_level
  reduce_size-IsValid is_bid size =
      go (reduced (get_or (side_levels b is_bid) idx 0) size)
        (omega (arith, reduced_lem (get_or (side_levels b is_bid) idx 0) size))
    where
      go :
          (left : ℕ)
          → left ≤ get_or (side_levels b is_bid) idx 0
          → let b' = set_level b is_bid idx left in
            IsValid (if left == 0 then on_level_emptied b' is_bid idx else b')
      go zero le = delete_level-IsValid is_bid
      go (suc left) le =
          let nonzero : (suc left == 0) ≡ false = ground arith in
          rw nonzero (shrink-IsValid is_bid (suc left) (omega arith) le)

  apply_at-IsValid :
      (t : MsgType) (is_bid : Bool) (size : ℕ)
      → size ≤ max_level_size
      → IsValid (apply_at b t is_bid idx size)
  unfolding apply_at
  apply_at-IsValid MsgType.add is_bid size small = add_size-IsValid is_bid size small
  apply_at-IsValid MsgType.execute is_bid size small = reduce_size-IsValid is_bid size
  apply_at-IsValid MsgType.cancel is_bid size small = reduce_size-IsValid is_bid size
  apply_at-IsValid MsgType.delete is_bid size small = delete_level-IsValid is_bid
  apply_at-IsValid MsgType.trade is_bid size small = v
  apply_at-IsValid MsgType.unknown is_bid size small = v

drop_message-IsValid : {b : BookView} → IsValid b → IsValid (drop_message b)
drop_message-IsValid v = record {
  bid_length = v.bid_length;
  ask_length = v.ask_length;
  bid_fits = v.bid_fits;
  ask_fits = v.ask_fits;
  best_bid = v.best_bid;
  best_ask = v.best_ask;
}

apply_index-IsValid :
    {b : BookView} (m : ItchMessage) (i : ℤ)
    → IsValid b
    → m.size ≤ max_level_size
    → IsValid (apply_index b m i)
unfolding apply_index
apply_index-IsValid m (negsuc k) v small = drop_message-IsValid v
apply_index-IsValid {b} m (pos idx) v small = elim (Bool-cases (ltb idx b.ticks)) [
  | inl within ↦ rw within (
      apply_at-IsValid v idx (ltb→lt _ _ within) (to_msg_type m.type_byte) (is_buy m.side) m.size
        small)
  | inr outside ↦ rw outside (drop_message-IsValid v)
]

-- Every message of any type, side, price and size keeps the book valid.
pub apply-IsValid :
    {b : BookView} (m : ItchMessage) → IsValid b → m.size ≤ max_level_size → IsValid (apply b m)
unfolding apply
apply-IsValid {b} m v small = apply_index-IsValid m (to_index b m.price) v small
