-- ===== src/Histogram/Counts.antt =====
-- What the array and the totals hold after any values were recorded.
use high_frequency_trading_e.Prelude.{
  ℕ, suc, ◌+◌, ◌-◌, ◌%◌, ◌≤◌, ◌<◌, ◌≡◌, refl, sym, ap, subst, ◌∙◌, inl, inr, Bool, List, [], ◌∷◌,
  arith, ltb, ◌==◌, if◌then◌else◌, Bool-cases, ==_iff, length, get_or, set, length-set, get_or-set,
  length-replicate, get_or-replicate,
}
use high_frequency_trading_e.Histogram.{
  mod64, Histogram, new, clamp, record_at, record_value, counts_index, counts_len,
}
use high_frequency_trading_e.Histogram.Edges.{counts_index-lt}

-- How many of the values pass a test.
unfoldable pub count_if : (ℕ → Bool) → List ℕ → ℕ
count_if test [] = 0
count_if test (v ∷ vs) = (if test v then 1 else 0) + count_if test vs

-- The values as they are recorded: those above `highest` count as `highest`.
unfoldable pub clamp_all : ℕ → List ℕ → List ℕ
clamp_all highest [] = []
clamp_all highest (v ∷ vs) = clamp highest v ∷ clamp_all highest vs

unfoldable pub sum : List ℕ → ℕ
sum [] = 0
sum (v ∷ vs) = v + sum vs

unfoldable pub largest : List ℕ → ℕ
largest [] = 0
largest (v ∷ vs) = if ltb (largest vs) v then v else largest vs

unfoldable pub smallest : List ℕ → ℕ
smallest [] = mod64 - 1
smallest (v ∷ vs) = if ltb v (smallest vs) then v else smallest vs

-- `record` of each value, the last of the list first.
unfoldable pub record_all : Histogram → List ℕ → Histogram
record_all h [] = h
record_all h (v ∷ vs) = record_value (record_all h vs) v

abbrev pub in_bucket : ℕ → ℕ → ℕ → Bool
in_bucket precision i v = counts_index precision v == i

-- The histogram of the values `vs`, clamped.
pub record Holds (p highest : ℕ) (h : Histogram) (vs : List ℕ) : Type 0 where
  pub same_precision : h.precision ≡ p
  pub same_highest : h.highest ≡ highest
  pub sized : length h.counts ≡ counts_len p highest
  pub cells : (i : ℕ) → get_or h.counts i 0 ≡ count_if (in_bucket p i) vs
  pub total : h.total_count ≡ length vs
  pub sum_lem : h.sum_ns ≡ sum vs % mod64
  pub max_lem : h.max_ns ≡ largest vs
  pub min_lem : h.min_ns ≡ smallest vs

pub count_if-le-length : (test : ℕ → Bool) (vs : List ℕ) → count_if test vs ≤ length vs
unfolding count_if
count_if-le-length test [] = omega arith
count_if-le-length test (v ∷ vs) = ground (arith, count_if-le-length test vs)

new-Holds : (p highest : ℕ) → Holds p highest (new highest p) []
unfolding new count_if sum largest smallest
new-Holds p highest = record {
  same_precision = refl;
  same_highest = refl;
  sized = length-replicate (counts_len p highest) 0;
  cells = λ i. get_or-replicate (counts_len p highest) i 0;
  total = refl;
  sum_lem = refl;
  max_lem = refl;
  min_lem = refl;
}

pub length-clamp_all : (highest : ℕ) (vs : List ℕ) → length (clamp_all highest vs) ≡ length vs
unfolding clamp_all
length-clamp_all highest [] = refl
length-clamp_all highest (v ∷ vs) = ap suc (length-clamp_all highest vs)

pub clamp-le : (highest v : ℕ) → clamp highest v ≤ highest
clamp-le highest v = ground arith

record_at-Holds :
    {p highest : ℕ} {h : Histogram} {vs : List ℕ} (v : ℕ)
    → p ≤ 16
    → highest < mod64
    → v ≤ highest
    → length vs + 1 < mod64
    → Holds p highest h vs
    → Holds p highest (record_at h v 1) (v ∷ vs)
unfolding record_at count_if sum largest smallest
record_at-Holds {p} {highest} {h} {vs} v small fits le room k =
    let within : counts_index p v < length h.counts =
      omega (arith, k.sized, counts_index-lt p highest v small fits le) in
    record {
      same_precision = k.same_precision;
      same_highest = k.same_highest;
      sized = length-set h.counts _ _ ∙ k.sized;
      cells = λ i.
          ap (λ (j : ℕ). get_or (set h.counts j ((get_or h.counts j 0 + 1) % mod64)) i 0)
            (ap (λ (x : ℕ). counts_index x v) k.same_precision)
          ∙ get_or-set h.counts (counts_index p v) i _ 0 within
          ∙ cell i;
      total = omega (arith, k.total, room);
      sum_lem = omega (arith, k.sum_lem);
      max_lem = ground (arith, k.max_lem);
      min_lem = ground (arith, k.min_lem);
    }
  where
    cell :
        (i : ℕ)
        → (if counts_index p v == i
            then (get_or h.counts (counts_index p v) 0 + 1) % mod64
            else get_or h.counts i 0)
          ≡ (if counts_index p v == i then 1 else 0) + count_if (in_bucket p i) vs
    cell i = elim (Bool-cases (counts_index p v == i)) [
      | inl hit ↦
          let e : counts_index p v ≡ i = (==_iff _ _).0 hit in
          rw hit (
            ap (λ (j : ℕ). (get_or h.counts j 0 + 1) % mod64) e
            ∙ omega (arith, k.cells i, room, count_if-le-length (in_bucket p i) vs))
      | inr miss ↦ rw miss (omega (arith, k.cells i))
    ]

-- A histogram that is built empty and records the values `vs` keeps `vs` exactly: each cell counts the
-- clamped values of its bucket, the total is their number, the maximum and the minimum are theirs,
-- and the sum is theirs modulo 2 ^ 64. It asks that `highest` and the
-- number of values are below 2 ^ 64 and the precision is at most 16.
pub record_all-Holds :
    (p highest : ℕ) (vs : List ℕ)
    → p ≤ 16
    → highest < mod64
    → length vs < mod64
    → Holds p highest (record_all (new highest p) vs) (clamp_all highest vs)
unfolding record_all clamp_all record_value
record_all-Holds p highest [] small fits room = new-Holds p highest
record_all-Holds p highest (v ∷ vs) small fits room =
    let k = record_all-Holds p highest vs small fits (omega arith) in
    subst
      (λ x.
        Holds p highest (record_at (record_all (new highest p) vs) (clamp x v) 1)
          (clamp highest v ∷ clamp_all highest vs))
      (sym k.same_highest)
      (record_at-Holds (clamp highest v) small fits (clamp-le highest v)
        (omega (arith, room, length-clamp_all highest vs)) k)
