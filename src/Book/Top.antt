-- ===== src/Book/Top.antt =====
-- The cached best index of one side of the book: what it means, and that each change of a level
-- keeps it right.
use high_frequency_trading_e.Prelude.{
  ℕ, zero, suc, ◌+◌, ◌-◌, ◌≤◌, ◌<◌, ◌≡◌, ◌≢◌, refl, inl, inr, true, false, List, arith, ◌==◌,
  if◌then◌else◌, Bool-cases, length, get_or, set, get_or-set,
}
use high_frequency_trading_e.Prelude.Int.{ℤ, pos, negsuc, ltb_ℤ}
use high_frequency_trading_e.Book.{walk_down, walk_up, eq_ℤ}

-- The highest level that holds something, or -1 when none does.
abbrev pub IsBestBid : List ℕ → ℤ → Type 0
IsBestBid arr (pos i) = (get_or arr i 0 ≢ 0) × ((j : ℕ) → i < j → get_or arr j 0 ≡ 0)
IsBestBid arr (negsuc k) = (k ≡ 0) × ((j : ℕ) → get_or arr j 0 ≡ 0)

-- The lowest level that holds something, or the number of levels when none does.
abbrev pub IsBestAsk : List ℕ → ℕ → ℤ → Type 0
IsBestAsk arr n (pos i) =
    (i ≤ n) × (i < n → get_or arr i 0 ≢ 0) × ((j : ℕ) → j < i → get_or arr j 0 ≡ 0)
IsBestAsk arr n (negsuc k) = ⊥

-- The downward walk stops at the best level below its start.
pub walk_down_lem :
    (arr : List ℕ) (i : ℕ)
    → ((j : ℕ) → i ≤ j → get_or arr j 0 ≡ 0)
    → IsBestBid arr (walk_down arr i)
unfolding walk_down
walk_down_lem arr zero above = (refl, λ j. above j (omega arith))
walk_down_lem arr (suc i) above = elim (Bool-cases (get_or arr i 0 == 0)) [
  | inl empty ↦ rw empty (walk_down_lem arr i (below empty))
  | inr held ↦ rw held (ground arith, above)
]
  where
    below : (get_or arr i 0 == 0) ≡ true → (j : ℕ) → i ≤ j → get_or arr j 0 ≡ 0
    below empty j h = ground (arith, above j)

-- The upward walk stops at the best level from its start on.
pub walk_up_lem :
    (arr : List ℕ) (left j n : ℕ)
    → j + left ≡ n
    → ((k : ℕ) → k < j → get_or arr k 0 ≡ 0)
    → IsBestAsk arr n (pos (walk_up arr left j))
unfolding walk_up
walk_up_lem arr zero j n e under = (omega arith, λ h. absurd (omega arith), under)
walk_up_lem arr (suc left) j n e under = elim (Bool-cases (get_or arr j 0 == 0)) [
  | inl empty ↦ rw empty (walk_up_lem arr left (j + 1) n (omega arith) (upto empty))
  | inr held ↦ rw held (omega arith, λ h. ground arith, under)
]
  where
    upto : (get_or arr j 0 == 0) ≡ true → (k : ℕ) → k < j + 1 → get_or arr k 0 ≡ 0
    upto empty k h = ground (arith, under k)

module _ (arr : List ℕ) (idx v : ℕ) (inside : idx < length arr) where
  -- A level that gains size.
  pub raise-IsBestBid :
      (best : ℤ)
      → v ≢ 0
      → IsBestBid arr best
      → IsBestBid (set arr idx v) (if ltb_ℤ best (pos idx) then pos idx else best)
  raise-IsBestBid (negsuc k) some_left top =
      let higher : ltb_ℤ (negsuc k) (pos idx) ≡ true = ground arith in
      rw higher (
        ground (arith, get_or-set arr idx idx v 0 inside),
        λ j h. ground (arith, get_or-set arr idx j v 0 inside, top.1 j),
      )
  raise-IsBestBid (pos i) some_left top = elim (Bool-cases (ltb_ℤ (pos i) (pos idx))) [
    | inl higher ↦ rw higher (
      ground (arith, get_or-set arr idx idx v 0 inside),
      λ j h. ground (arith, get_or-set arr idx j v 0 inside, top.1 j),
    )
    | inr lower ↦ rw lower (
      ground (arith, get_or-set arr idx i v 0 inside),
      λ j h. ground (arith, get_or-set arr idx j v 0 inside, top.1 j),
    )
  ]

  pub raise-IsBestAsk :
      (n : ℕ) (best : ℤ)
      → v ≢ 0
      → idx < n
      → IsBestAsk arr n best
      → IsBestAsk (set arr idx v) n (if ltb_ℤ (pos idx) best then pos idx else best)
  raise-IsBestAsk n (negsuc k) some_left within top = absurd top
  raise-IsBestAsk n (pos i) some_left within top = elim (Bool-cases (ltb_ℤ (pos idx) (pos i))) [
    | inl lower ↦ rw lower (
      omega arith,
      (λ h. ground (arith, get_or-set arr idx idx v 0 inside)),
      λ j h. ground (arith, get_or-set arr idx j v 0 inside, top.2 j),
    )
    | inr higher ↦ rw higher (
      omega arith,
      (λ h. ground (arith, get_or-set arr idx i v 0 inside, top.1 h)),
      λ j h. ground (arith, get_or-set arr idx j v 0 inside, top.2 j),
    )
  ]

  -- A level that keeps some of its size.
  pub keep-IsBestBid :
      (best : ℤ)
      → v ≢ 0
      → get_or arr idx 0 ≢ 0
      → IsBestBid arr best
      → IsBestBid (set arr idx v) best
  keep-IsBestBid (negsuc k) some_left held top = absurd (held (top.1 idx))
  keep-IsBestBid (pos i) some_left held top = (
    ground (arith, get_or-set arr idx i v 0 inside),
    λ j h. ground (arith, get_or-set arr idx j v 0 inside, top.1 j h),
  )

  pub keep-IsBestAsk :
      (n : ℕ) (best : ℤ)
      → v ≢ 0
      → get_or arr idx 0 ≢ 0
      → IsBestAsk arr n best
      → IsBestAsk (set arr idx v) n best
  keep-IsBestAsk n (negsuc k) some_left held top = absurd top
  keep-IsBestAsk n (pos i) some_left held top = (
    top.0,
    (λ h. ground (arith, get_or-set arr idx i v 0 inside, top.1 h)),
    λ j h. ground (arith, get_or-set arr idx j v 0 inside, top.2 j h),
  )

module _ (arr : List ℕ) (idx : ℕ) (inside : idx < length arr) where
  -- A level that is emptied.
  pub clear-IsBestBid :
      (best : ℤ)
      → IsBestBid arr best
      → IsBestBid
          (set arr idx 0)
          (if eq_ℤ (pos idx) best then walk_down (set arr idx 0) idx else best)
  clear-IsBestBid (negsuc k) top =
      let other : eq_ℤ (pos idx) (negsuc k) ≡ false = ground arith in
      rw other (top.0, λ j. ground (arith, get_or-set arr idx j 0 0 inside, top.1 j))
  clear-IsBestBid (pos i) top = elim (Bool-cases (eq_ℤ (pos idx) (pos i))) [
    | inl same ↦ rw same (
        walk_down_lem (set arr idx 0) idx
          λ j h. ground (arith, get_or-set arr idx j 0 0 inside, top.1 j))
    | inr other ↦ rw other (
      ground (arith, get_or-set arr idx i 0 0 inside),
      λ j h. ground (arith, get_or-set arr idx j 0 0 inside, top.1 j h),
    )
  ]

  pub clear-IsBestAsk :
      (n : ℕ) (best : ℤ)
      → idx < n
      → IsBestAsk arr n best
      → IsBestAsk (set arr idx 0) n (
          if eq_ℤ (pos idx) best
          then pos (walk_up (set arr idx 0) (n - (idx + 1)) (idx + 1))
          else best)
  clear-IsBestAsk n (negsuc k) within top = absurd top
  clear-IsBestAsk n (pos i) within top = elim (Bool-cases (eq_ℤ (pos idx) (pos i))) [
    | inl same ↦ rw same (
        walk_up_lem (set arr idx 0) (n - (idx + 1)) (idx + 1) n (omega arith)
          λ j h. ground (arith, get_or-set arr idx j 0 0 inside, top.2 j))
    | inr other ↦ rw other (
      top.0,
      (λ h. ground (arith, get_or-set arr idx i 0 0 inside, top.1 h)),
      λ j h. ground (arith, get_or-set arr idx j 0 0 inside, top.2 j h),
    )
  ]
