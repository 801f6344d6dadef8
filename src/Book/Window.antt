-- ===== src/Book/Window.antt =====
-- Prices and level indices: which prices of `apply` fall on which level.
use high_frequency_trading_e.Prelude.{
  ℕ, suc, ◌+◌, ◌-◌, ◌*◌, ◌/◌, ◌%◌, ◌^◌, ◌≤◌, ◌<◌, ◌≡◌, refl, ◌∙◌, ap, arith,
}
use high_frequency_trading_e.Prelude.Int.{
  ℤ, pos, negsuc, ◌+ℤ◌, ◌-ℤ◌, ◌*ℤ◌, div_trunc, to_int32, int_laws, to_int32_small,
}
use high_frequency_trading_e.Wire.{ItchMessage}
use high_frequency_trading_e.Book.{BookView, to_index, price_at, apply, apply_index, drop_message}

-- The quotient of a sum of whole ticks and a part of one.
div_ticks : (i t r : ℕ) → r < t → (i * t + r) / t ≡ i
div_ticks i t r h = grind arith

mul_pos : (i t : ℕ) → pos i *ℤ pos t ≡ pos (i * t)
unfolding ◌*ℤ◌
mul_pos i t = ground arith

div_trunc_pos : (n t : ℕ) → div_trunc (pos n) (pos t) ≡ pos (n / t)
unfolding div_trunc
div_trunc_pos n t = ground arith

div_trunc_part : (k t : ℕ) → suc k < t → div_trunc (negsuc k) (pos t) ≡ pos 0
unfolding div_trunc
div_trunc_part k t h = ground (arith, div_small)
  where
    div_small : suc k / t ≡ 0
    div_small = grind arith

module _ (b : BookView) (t : ℕ) (tick : b.tick ≡ pos t) where
  -- A price in the window: `r` above the price of level `i`, less than a tick.
  to_index-above : (i r : ℕ) → r < t → i < 2 ^ 31 → to_index b (b.base +ℤ pos (i * t + r)) ≡ pos i
  unfolding to_index
  to_index-above i r h small =
      rw (tick, cancel, div_trunc_pos, div_ticks i t r h) (to_int32_small i small)
    where
      cancel : b.base +ℤ pos (i * t + r) -ℤ b.base ≡ pos (i * t + r)
      cancel = omega int_laws

  price_at_lem : (i : ℕ) → price_at b (pos i) ≡ b.base +ℤ pos (i * t)
  unfolding price_at
  price_at_lem i = ap (λ z. b.base +ℤ z) (ap (λ z. pos i *ℤ z) tick ∙ mul_pos i t)

  -- `to_index` undoes `price_at` at every level of a window of at most 2 ^ 31 ticks.
  pub to_index-price_at : (i : ℕ) → 0 < t → i < 2 ^ 31 → to_index b (price_at b (pos i)) ≡ pos i
  to_index-price_at i h small = rw (price_at_lem i, whole) (to_index-above i 0 h small)
    where
      whole : i * t ≡ i * t + 0
      whole = omega arith

  -- A whole tick or more below the window the index is negative.
  to_index-below :
      (k : ℕ)
      → t ≤ suc k
      → 0 < t
      → suc k / t ≤ 2 ^ 31
      → (j : ℕ) × (to_index b (b.base +ℤ negsuc k) ≡ negsuc j)
  unfolding to_index div_trunc to_int32
  to_index-below k h ht small = (suc k / t - 1, rw (tick, cancel) (ground (arith, some_ticks)))
    where
      cancel : b.base +ℤ negsuc k -ℤ b.base ≡ negsuc k
      cancel = omega int_laws

      some_ticks : 1 ≤ suc k / t
      some_ticks = grind arith

  -- Less than a tick below the window the division rounds to level 0.
  to_index-fold : (k : ℕ) → suc k < t → to_index b (b.base +ℤ negsuc k) ≡ pos 0
  unfolding to_index
  to_index-fold k h = rw (tick, cancel, div_trunc_part k t h) (to_int32_small 0 (omega arith))
    where
      cancel : b.base +ℤ negsuc k -ℤ b.base ≡ negsuc k
      cancel = omega int_laws

  -- The narrowing to `int` drops the high bits of a level index.
  to_index-alias :
      (i r hi : ℕ)
      → r < t
      → i < 2 ^ 31
      → to_index b (b.base +ℤ pos ((i + hi * 2 ^ 32) * t + r)) ≡ pos i
  unfolding to_index
  to_index-alias i r hi h small =
      rw (tick, cancel, div_trunc_pos, div_ticks (i + hi * 2 ^ 32) t r h) narrow
    where
      cancel : b.base +ℤ pos ((i + hi * 2 ^ 32) * t + r) -ℤ b.base ≡ pos ((i + hi * 2 ^ 32) * t + r)
      cancel = omega int_laws

      narrow : to_int32 (pos (i + hi * 2 ^ 32)) ≡ pos i
      narrow = unfold to_int32 in ground arith

-- The prices that the window leaves out, as far as an `int` counts ticks.
pub data Outside (b : BookView) (t : ℕ) (price : ℤ) : Type 0 where
  above : (n : ℕ) → price ≡ b.base +ℤ pos n → b.ticks ≤ n / t → n / t < 2 ^ 31 → Outside b t price
  below : (k : ℕ) → price ≡ b.base +ℤ negsuc k → t ≤ suc k → suc k / t ≤ 2 ^ 31 → Outside b t price

to_index_whole :
    (b : BookView) (t n : ℕ)
    → b.tick ≡ pos t
    → 0 < t
    → n / t < 2 ^ 31
    → to_index b (b.base +ℤ pos n) ≡ pos (n / t)
to_index_whole b t n tick ht small =
    ap (λ k. to_index b (b.base +ℤ pos k)) (grind arith)
    ∙ to_index-above b t tick (n / t) (n % t) (omega arith) small

-- With a tick that is positive, a price of no level of the window is counted and changes nothing
-- else, if it lies within 2 ^ 31 ticks of the base and, when it is below the base, is a whole tick
-- or more below it.
pub apply-Outside :
    (b : BookView) (t : ℕ) (m : ItchMessage)
    → b.tick ≡ pos t
    → 0 < t
    → Outside b t m.price
    → apply b m ≡ drop_message b
unfolding apply apply_index
apply-Outside b t m tick ht (above n price out small) =
    rw (price, to_index_whole b t n tick ht small) (ground arith)
apply-Outside b t m tick ht (below k price out small) =
    let (j, e) = to_index-below b t tick k out ht small in rw (price, e) refl

-- A price below the base by less than one tick is not dropped: the message acts on level 0.
pub apply-fold :
    (b : BookView) (t k : ℕ) (m : ItchMessage)
    → b.tick ≡ pos t
    → suc k < t
    → m.price ≡ b.base +ℤ negsuc k
    → apply b m ≡ apply_index b m (pos 0)
unfolding apply
apply-fold b t k m tick h price =
    ap (apply_index b m) (ap (to_index b) price ∙ to_index-fold b t tick k h)

-- A price above a level by 2 ^ 32 ticks, or a multiple of that, and less than a tick more acts on
-- that level, which is below 2 ^ 31.
pub apply-alias :
    (b : BookView) (t i r hi : ℕ) (m : ItchMessage)
    → b.tick ≡ pos t
    → r < t
    → i < 2 ^ 31
    → m.price ≡ b.base +ℤ pos ((i + hi * 2 ^ 32) * t + r)
    → apply b m ≡ apply_index b m (pos i)
unfolding apply
apply-alias b t i r hi m tick h small price =
    ap (apply_index b m) (ap (to_index b) price ∙ to_index-alias b t tick i r hi h small)
