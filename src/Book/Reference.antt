-- ===== src/Book/Reference.antt =====
-- The reference that the flat arrays stand for (the `std::map` book of tests/test_book.cpp): a map
-- from side and level index to a size. `BookView` implements it, on every message.
use high_frequency_trading_e.Prelude.{
  ℕ, ◌+◌, ◌-◌, ◌≤◌, ◌<◌, ◌≡◌, refl, ◌∙◌, ap, sym, inl, inr, Bool, true, false, Option, none, some,
  arith, ltb, ltb→lt, ◌==◌, if◌then◌else◌, Bool-cases, length, get_or, get_or-set, min,
}
use high_frequency_trading_e.Prelude.Int.{ℤ, pos, negsuc}
use high_frequency_trading_e.Wire.{MsgType, ItchMessage, to_msg_type, is_buy}
use high_frequency_trading_e.Book.{
  BookView, max_level_size, saturating_add, reduced, on_size_increased, on_level_emptied,
  side_levels, set_level, add_size, reduce_size, delete_level, apply_at, apply_index, apply,
  to_index, drop_message,
}
use high_frequency_trading_e.Book.Invariant.{IsValid, reduced_lem}

abbrev pub Ladder : Type 0
Ladder = Bool → ℕ → ℕ

abbrev pub same_side : Bool → Bool → Bool
same_side true s = s
same_side false true = false
same_side false false = true

abbrev pub update : Ladder → Bool → ℕ → ℕ → Ladder
update l s i v s' j = if same_side s s' then (if i == j then v else l s' j) else l s' j

-- One message on the reference, at its level.
abbrev pub ladder_at : Ladder → MsgType → Bool → ℕ → ℕ → Ladder
ladder_at l MsgType.add s i size = update l s i (min max_level_size (l s i + size))
ladder_at l MsgType.execute s i size = update l s i (l s i - size)
ladder_at l MsgType.cancel s i size = update l s i (l s i - size)
ladder_at l MsgType.delete s i size = update l s i 0
ladder_at l MsgType.trade s i size = l
ladder_at l MsgType.unknown s i size = l

-- The level that a price falls on, if it is in the window.
abbrev pub window : ℕ → ℤ → Option ℕ
window ticks (pos i) = if ltb i ticks then some i else none
window ticks (negsuc _) = none

abbrev pub ladder_apply : Ladder → Option ℕ → ItchMessage → Ladder
ladder_apply l none m = l
ladder_apply l (some i) m = ladder_at l (to_msg_type m.type_byte) (is_buy m.side) i m.size

-- What a book's arrays hold.
abbrev pub levels : BookView → Ladder
levels b s j = get_or (side_levels b s) j 0

levels-on_size_increased :
    (b : BookView) (s : Bool) (i : ℕ) (s' : Bool) (j : ℕ)
    → levels (on_size_increased b s i) s' j ≡ levels b s' j
unfolding on_size_increased
levels-on_size_increased b true i s' j = ground arith
levels-on_size_increased b false i s' j = ground arith

levels-on_level_emptied :
    (b : BookView) (s : Bool) (i : ℕ) (s' : Bool) (j : ℕ)
    → levels (on_level_emptied b s i) s' j ≡ levels b s' j
unfolding on_level_emptied
levels-on_level_emptied b true i s' j = ground arith
levels-on_level_emptied b false i s' j = ground arith

levels-set_level :
    (b : BookView) (s : Bool) (i v : ℕ) (s' : Bool) (j : ℕ)
    → i < length (side_levels b s)
    → levels (set_level b s i v) s' j ≡ update (levels b) s i v s' j
levels-set_level b true i v true j h = get_or-set b.bid i j v 0 h
levels-set_level b true i v false j h = refl
levels-set_level b false i v true j h = refl
levels-set_level b false i v false j h = get_or-set b.ask i j v 0 h

saturating_add_lem :
    (level size : ℕ)
    → level ≤ max_level_size
    → size ≤ max_level_size
    → saturating_add level size ≡ min max_level_size (level + size)
unfolding saturating_add
saturating_add_lem level size h k = ground arith

-- Writing what is there already changes nothing.
update_same :
    (l : Ladder) (s : Bool) (i v : ℕ) (s' : Bool) (j : ℕ) → v ≡ l s i → update l s i v s' j ≡ l s' j
update_same l true i v true j e = ground arith
update_same l true i v false j e = refl
update_same l false i v true j e = refl
update_same l false i v false j e = ground arith

module _ {b : BookView} (v : IsValid b) (s : Bool) (i : ℕ) (within : i < b.ticks) where
  inside : (s' : Bool) → i < length (side_levels b s')
  inside true = omega (arith, v.bid_length)
  inside false = omega (arith, v.ask_length)

  fits : (s' : Bool) → levels b s' i ≤ max_level_size
  fits true = v.bid_fits i
  fits false = v.ask_fits i

  add_size_refines :
      (size : ℕ) (s' : Bool) (j : ℕ)
      → size ≤ max_level_size
      → levels (add_size b s i size) s' j ≡ ladder_at (levels b) MsgType.add s i size s' j
  unfolding add_size
  add_size_refines size s' j small = elim (Bool-cases (size == 0)) [
    | inl zero_size ↦ rw zero_size (sym (update_same (levels b) s i _ s' j (nothing zero_size)))
    | inr sized ↦ rw sized (
        levels-on_size_increased (set_level b s i _) s i s' j
        ∙ levels-set_level b s i _ s' j (inside s)
        ∙ ap (λ x. update (levels b) s i x s' j) (saturating_add_lem _ _ (fits s) small))
  ]
    where
      nothing : (size == 0) ≡ true → min max_level_size (levels b s i + size) ≡ levels b s i
      nothing z = let e : size ≡ 0 = ground arith in omega (arith, fits s)

  delete_level_refines :
      (s' : Bool) (j : ℕ) → levels (delete_level b s i) s' j ≡ update (levels b) s i 0 s' j
  unfolding delete_level
  delete_level_refines s' j =
      levels-on_level_emptied (set_level b s i 0) s i s' j
      ∙ levels-set_level b s i 0 s' j (inside s)

  reduce_size_refines :
      (size : ℕ) (s' : Bool) (j : ℕ)
      → levels (reduce_size b s i size) s' j ≡ update (levels b) s i (levels b s i - size) s' j
  unfolding reduce_size
  reduce_size_refines size s' j =
      rw (← reduced_lem (levels b s i) size) (go (reduced (levels b s i) size))
    where
      go :
          (left : ℕ)
          → levels
              (if left == 0
                then on_level_emptied (set_level b s i left) s i
                else set_level b s i left)
              s'
              j
            ≡ update (levels b) s i left s' j
      go left = elim (Bool-cases (left == 0)) [
        | inl empty ↦ rw empty (
            levels-on_level_emptied (set_level b s i left) s i s' j
            ∙ levels-set_level b s i left s' j (inside s))
        | inr held ↦ rw held (levels-set_level b s i left s' j (inside s))
      ]

  apply_at_refines :
      (t : MsgType) (size : ℕ) (s' : Bool) (j : ℕ)
      → size ≤ max_level_size
      → levels (apply_at b t s i size) s' j ≡ ladder_at (levels b) t s i size s' j
  unfolding apply_at
  apply_at_refines MsgType.add size s' j small = add_size_refines size s' j small
  apply_at_refines MsgType.execute size s' j small = reduce_size_refines size s' j
  apply_at_refines MsgType.cancel size s' j small = reduce_size_refines size s' j
  apply_at_refines MsgType.delete size s' j small = delete_level_refines s' j
  apply_at_refines MsgType.trade size s' j small = refl
  apply_at_refines MsgType.unknown size s' j small = refl

apply_index_refines :
    {b : BookView} (m : ItchMessage) (idx : ℤ) (s : Bool) (j : ℕ)
    → IsValid b
    → m.size ≤ max_level_size
    → levels (apply_index b m idx) s j ≡ ladder_apply (levels b) (window b.ticks idx) m s j
unfolding apply_index
apply_index_refines m (negsuc k) true j v small = refl
apply_index_refines m (negsuc k) false j v small = refl
apply_index_refines {b} m (pos i) s j v small = elim (Bool-cases (ltb i b.ticks)) [
  | inl within ↦ rw within (
      apply_at_refines v (is_buy m.side) i (ltb→lt _ _ within) (to_msg_type m.type_byte) m.size s j
        small)
  | inr outside ↦ rw outside (kept s)
]
  where
    kept : (s' : Bool) → levels (drop_message b) s' j ≡ levels b s' j
    kept true = refl
    kept false = refl

-- A message changes each level of the book as it changes the reference, and no other level.
pub apply_refines :
    {b : BookView} (m : ItchMessage) (s : Bool) (j : ℕ)
    → IsValid b
    → m.size ≤ max_level_size
    → levels (apply b m) s j ≡ ladder_apply (levels b) (window b.ticks (to_index b m.price)) m s j
unfolding apply
apply_refines {b} m s j v small = apply_index_refines m (to_index b m.price) s j v small
