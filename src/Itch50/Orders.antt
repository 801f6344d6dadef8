-- ===== src/Itch50/Orders.antt =====
-- The live-order table of the ITCH decoder: the laws of its map operations, and the shares that rest
-- at each side and price.
use high_frequency_trading_e.Prelude.{
  ℕ, ◌+◌, ◌≤◌, ◌≡◌, refl, inl, inr, Bool, true, false, ◌&&◌, [], ◌∷◌, none, some, arith, Bool-cases,
  ◌==◌, if◌then◌else◌,
}
use high_frequency_trading_e.Prelude.Int.{ℤ}
use high_frequency_trading_e.Wire.{Side}
use high_frequency_trading_e.Book.{eq_ℤ}
use high_frequency_trading_e.Itch50.{Order, Orders, find, assign, erase}

-- A key has at most one entry: `count` entries of a key.
unfoldable pub count : ℕ → Orders → ℕ
count k [] = 0
count k ((r, o) ∷ os) = (if r == k then 1 else 0) + count k os

abbrev pub Distinct : Orders → Type 0
Distinct os = (k : ℕ) → count k os ≤ 1

pub find-eq-none : (k : ℕ) (os : Orders) → count k os ≡ 0 → find k os ≡ none
unfolding find count
find-eq-none k [] h = refl
find-eq-none k ((r, o) ∷ os) h = ground (arith, find-eq-none k os)

pub count-eq-zero : (k : ℕ) (os : Orders) → find k os ≡ none → count k os ≡ 0
unfolding find count
count-eq-zero k [] h = refl
count-eq-zero k ((r, o) ∷ os) h = ground (arith, count-eq-zero k os)

pub find-assign :
    (k q : ℕ) (o : Order) (os : Orders)
    → find q (assign k o os) ≡ (if k == q then some o else find q os)
unfolding find assign
find-assign k q o [] = refl
find-assign k q o ((r, old) ∷ os) = ground (arith, find-assign k q o os)

pub find-erase :
    (k q : ℕ) (os : Orders)
    → count k os ≤ 1
    → find q (erase k os) ≡ (if k == q then none else find q os)
unfolding find erase count
find-erase k q [] h = ground arith
find-erase k q ((r, o) ∷ os) h = ground (arith, find-erase k q os, find-eq-none k os)

pub count-assign :
    (k q : ℕ) (o : Order) (os : Orders)
    → count k os ≤ 1
    → count q (assign k o os) ≡ (if k == q then 1 else count q os)
unfolding count assign
count-assign k q o [] h = ground arith
count-assign k q o ((r, old) ∷ os) h = ground (arith, count-assign k q o os)

pub count-erase-le : (k q : ℕ) (os : Orders) → count q (erase k os) ≤ count q os
unfolding count erase
count-erase-le k q [] = omega arith
count-erase-le k q ((r, o) ∷ os) = ground (arith, count-erase-le k q os)

pub assign-Distinct : (k : ℕ) (o : Order) (os : Orders) → Distinct os → Distinct (assign k o os)
assign-Distinct k o os d q = ground (arith, count-assign k q o os (d k), d q)

pub erase-Distinct : (k : ℕ) (os : Orders) → Distinct os → Distinct (erase k os)
erase-Distinct k os d q = omega (arith, count-erase-le k q os, d q)

-- Shares at a side and price.
abbrev pub same_side : Side → Side → Bool
same_side Side.none Side.none = true
same_side Side.buy Side.buy = true
same_side Side.sell Side.sell = true
same_side _ _ = false

abbrev pub share : Side → ℤ → Side → ℤ → ℕ → ℕ
share s p s' p' n = if same_side s s' && eq_ℤ p p' then n else 0

unfoldable pub resting : Side → ℤ → Orders → ℕ
resting s p [] = 0
resting s p ((r, o) ∷ os) = share s p o.side o.price o.shares + resting s p os

module _ (s : Side) (p : ℤ) where
  -- A new entry adds its shares, an erased one takes them away, a changed one is exchanged.
  pub resting-assign_new :
      (k : ℕ) (o : Order) (os : Orders)
      → find k os ≡ none
      → resting s p (assign k o os) ≡ resting s p os + share s p o.side o.price o.shares
  unfolding resting find assign
  resting-assign_new k o [] h = omega arith
  resting-assign_new k o ((r, old) ∷ os) h = elim (Bool-cases (r == k)) [
    | inl hit ↦ absurd (ground arith)
    | inr miss ↦ rw miss (omega (arith, resting-assign_new k o os (ground arith)))
  ]

  pub resting-erase :
      (k : ℕ) (o : Order) (os : Orders)
      → find k os ≡ some o
      → resting s p os ≡ resting s p (erase k os) + share s p o.side o.price o.shares
  unfolding resting find erase
  resting-erase k o [] h = cc
  resting-erase k o ((r, old) ∷ os) h = elim (Bool-cases (r == k)) [
    | inl hit ↦ rw hit (ground arith)
    | inr miss ↦ rw miss (omega (arith, resting-erase k o os (ground arith)))
  ]

  pub resting-assign_old :
      (k : ℕ) (o old : Order) (os : Orders)
      → find k os ≡ some old
      → resting s p (assign k o os) + share s p old.side old.price old.shares
        ≡ resting s p os + share s p o.side o.price o.shares
  unfolding resting find assign
  resting-assign_old k o old [] h = cc
  resting-assign_old k o old ((r, prev) ∷ os) h = elim (Bool-cases (r == k)) [
    | inl hit ↦ rw hit (ground arith)
    | inr miss ↦ rw miss (omega (arith, resting-assign_old k o old os (ground arith)))
  ]
