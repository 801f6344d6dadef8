-- ===== src/Histogram/Percentile.antt =====
-- `percentile` against the values that were recorded.
use native.Mathlib.Decide.{dec_le}
use mathlib.Core.List.{Memᴰ}
use high_frequency_trading_e.Prelude.{
  ℕ, suc, ◌+◌, ◌%◌, ◌≤◌, ◌<◌, ◌≡◌, refl, sym, ap, subst, ◌∙◌, inl, inr, Bool, true, false, List, [],
  ◌∷◌, arith, ltb, leb, ◌==◌, if◌then◌else◌, Bool-cases, ==_iff, length, get_or, ltb→lt, lt→ltb,
  leb→le,
}
use high_frequency_trading_e.Histogram.{
  mod64, new, clamp, counts_index, percentile, percentile_from, highest_equivalent_value,
}
use high_frequency_trading_e.Histogram.Edges.{counts_index-lt}
use high_frequency_trading_e.Histogram.Error.{edge_lem, counts_index_mono}
use high_frequency_trading_e.Histogram.Counts.{
  count_if, clamp_all, record_all, in_bucket, record_all-Holds, count_if-le-length,
  length-clamp_all, clamp-le,
}

abbrev pub below_bucket : ℕ → ℕ → ℕ → Bool
below_bucket p i v = ltb (counts_index p v) i

count_if_step :
    (p i : ℕ) (vs : List ℕ)
    → count_if (below_bucket p (i + 1)) vs
      ≡ count_if (below_bucket p i) vs + count_if (in_bucket p i) vs
unfolding count_if
count_if_step p i [] = refl
count_if_step p i (v ∷ vs) = ground (arith, count_if_step p i vs)

count_if_none : (p : ℕ) (vs : List ℕ) → count_if (below_bucket p 0) vs ≡ 0
unfolding count_if
count_if_none p [] = refl
count_if_none p (v ∷ vs) = ground (arith, count_if_none p vs)

-- A test that is weaker on what may be recorded counts more values.
count_if_mono :
    (test weaker : ℕ → Bool) (highest : ℕ)
    → ((v : ℕ) → v ≤ highest → test v ≡ true → weaker v ≡ true)
    → (vs : List ℕ) → count_if test (clamp_all highest vs) ≤ count_if weaker (clamp_all highest vs)
unfolding count_if clamp_all
count_if_mono test weaker highest implies [] = omega arith
count_if_mono test weaker highest implies (v ∷ vs) =
    let rest = count_if_mono test weaker highest implies vs in
    elim (Bool-cases (test (clamp highest v))) [
      | inl t ↦ rw (t, implies (clamp highest v) (clamp-le highest v) t) (omega arith)
      | inr f ↦ rw f (ground (arith, rest))
    ]

count_if_all : (highest : ℕ) (vs : List ℕ) → count_if (λ v. true) (clamp_all highest vs) ≡ length vs
unfolding count_if clamp_all
count_if_all highest [] = refl
count_if_all highest (v ∷ vs) = omega (arith, count_if_all highest vs)

-- A bucket with a count has a value.
bucket_value :
    (p highest i : ℕ) (vs : List ℕ)
    → 1 ≤ count_if (in_bucket p i) (clamp_all highest vs)
    → (w : ℕ) × Memᴰ w (clamp_all highest vs) × (w ≤ highest) × (counts_index p w ≡ i)
unfolding count_if clamp_all
bucket_value p highest i [] some_value = absurd (omega arith)
bucket_value p highest i (v ∷ vs) some_value =
    elim (Bool-cases (counts_index p (clamp highest v) == i)) [
      | inl hit ↦ (clamp highest v, Memᴰ.head refl, clamp-le highest v, (==_iff _ _).0 hit)
      | inr miss ↦
          let other : 1 ≤ 0 + count_if (in_bucket p i) (clamp_all highest vs) =
            subst
              (λ (b : Bool).
                1 ≤ (if b then 1 else 0) + count_if (in_bucket p i) (clamp_all highest vs))
              miss some_value in
          let rest = bucket_value p highest i vs (omega (arith, other)) in
          (rest.0, Memᴰ.tail rest.1, rest.2, rest.3)
    ]

-- Where the loop stops: the first bucket that the counts up to reach the wanted rank in.
record Stops (p want result : ℕ) (vs : List ℕ) : Type 0 where
  at : ℕ
  edge : result ≡ highest_equivalent_value p at
  not_before : count_if (below_bucket p at) vs < want
  reached : want ≤ count_if (below_bucket p (at + 1)) vs

percentile_from-Stops :
    (p : ℕ) (vs cs : List ℕ) (i cumulative want past : ℕ)
    → length vs < mod64
    → ((j : ℕ) → get_or cs j 0 ≡ count_if (in_bucket p (i + j)) vs)
    → cumulative ≡ count_if (below_bucket p i) vs
    → cumulative < want
    → want ≤ count_if (below_bucket p (i + length cs)) vs
    → Stops p want (percentile_from p cs i cumulative want past) vs
unfolding percentile_from
percentile_from-Stops p vs [] i cumulative want past room cells so_far low high =
    let last : i + 0 ≡ i = omega arith in
    absurd (omega (arith, high, low, so_far, ap (λ (x : ℕ). count_if (below_bucket p x) vs) last))
percentile_from-Stops p vs (c ∷ cs) i cumulative want past room cells so_far low high =
    let first : c ≡ count_if (in_bucket p i) vs =
      cells 0 ∙ ap (λ (x : ℕ). count_if (in_bucket p x) vs) (omega arith) in
    let next : (cumulative + c) % mod64 ≡ count_if (below_bucket p (i + 1)) vs = omega (
      arith,
      first,
      so_far,
      room,
      count_if_step p i vs,
      count_if-le-length (below_bucket p (i + 1)) vs,
    ) in
    elim (Bool-cases (leb want ((cumulative + c) % mod64))) [
      | inl stop ↦ rw stop (record {
        at = i;
        edge = refl;
        not_before = omega (arith, low, so_far);
        reached = subst (λ x. want ≤ x) next (leb→le _ _ stop);
      })
      | inr on ↦ rw on (
          percentile_from-Stops p vs cs (i + 1) ((cumulative + c) % mod64) want past room
            (λ j. cells (suc j) ∙ ap (λ (x : ℕ). count_if (in_bucket p x) vs) (omega arith)) next
            (ground arith)
            (subst (λ (x : ℕ). want ≤ count_if (below_bucket p x) vs) (omega arith) high))
    ]

-- `result` is the upper edge of the bucket of a recorded value `value`, fewer than `want` of the
-- recorded values are in the buckets below it, and at least `want` are `result` or less.
pub record IsRank (p highest want result : ℕ) (vs : List ℕ) : Type 0 where
  pub value : ℕ
  pub recorded : Memᴰ value (clamp_all highest vs)
  pub edge : result ≡ highest_equivalent_value p (counts_index p value)
  pub fewer : count_if (below_bucket p (counts_index p value)) (clamp_all highest vs) < want
  pub enough : want ≤ count_if (λ v. leb v result) (clamp_all highest vs)

Stops-IsRank :
    (p highest want result : ℕ) (vs : List ℕ)
    → p ≤ 16
    → highest < mod64
    → Stops p want result (clamp_all highest vs)
    → IsRank p highest want result vs
Stops-IsRank p highest want result vs small fits k =
    let (w, r, le, e) =
      bucket_value p highest k.at vs
        (omega (arith, k.not_before, k.reached, count_if_step p k.at (clamp_all highest vs))) in
    let edge : result ≡ highest_equivalent_value p (counts_index p w) =
      k.edge ∙ ap (highest_equivalent_value p) (sym e) in
    record {
      value = w;
      recorded = r;
      edge = edge;
      fewer =
          subst (λ x. count_if (below_bucket p x) (clamp_all highest vs) < want) (sym e)
            k.not_before;
      enough = omega (
        arith,
        k.reached,
        count_if_mono (below_bucket p (k.at + 1)) (λ v. leb v result) highest
            (λ v le' t. up_to v le' w le e edge (ltb→lt _ _ t)) vs,
      );
    }
  where
    up_to :
        (v : ℕ)
        → v ≤ highest
        → (w : ℕ) → w ≤ highest
        → counts_index p w ≡ k.at
        → result ≡ highest_equivalent_value p (counts_index p w)
        → counts_index p v < k.at + 1
        → leb v result ≡ true
    up_to v le w le' e edge lt =
        let v_edge = (edge_lem p v small (omega arith)).0 in
        elim (dec_le v w) [
          | yes up ↦
              let w_edge = (edge_lem p w small (omega arith)).0 in
              let h : v ≤ result = omega (arith, w_edge, edge) in ground arith
          | no down ↦
              let same : counts_index p v ≡ counts_index p w =
                omega (arith, lt, e, counts_index_mono p w v small (omega arith) (omega arith)) in
              let h : v ≤ result =
                omega (arith, edge, v_edge, ap (highest_equivalent_value p) same) in
              ground arith
        ]

-- After recording the values `vs`, at least one and fewer than 2 ^ 64, `percentile` at a rank of at most
-- their number gives the upper edge of the bucket of a recorded value: fewer values than the rank are
-- in lower buckets, and at least as many are the result or less. Rank 0 counts as 1. The precision
-- is at most 16 and `highest` below 2 ^ 64.
pub percentile_lem :
    (p highest target : ℕ) (vs : List ℕ)
    → p ≤ 16
    → highest < mod64
    → length vs < mod64
    → 1 ≤ length vs
    → target ≤ length vs
    → IsRank p highest
        (if target == 0 then 1 else target)
        (percentile (record_all (new highest p) vs) target)
        vs
unfolding percentile
percentile_lem p highest target vs small fits room some_value le =
    let h = record_all (new highest p) vs in
    let k = record_all-Holds p highest vs small fits room in
    let all = clamp_all highest vs in
    let want = if target == 0 then 1 else target in
    let some_total : (h.total_count == 0) ≡ false =
      let e : h.total_count ≡ length vs = k.total ∙ length-clamp_all highest vs in ground arith in
    let within : length vs ≤ count_if (below_bucket p (0 + length h.counts)) all =
      let every =
        count_if_mono (λ v. true) (below_bucket p (0 + length h.counts)) highest
          (λ v le' t.
            lt→ltb _ _ (omega (arith, k.sized, counts_index-lt p highest v small fits le')))
          vs in
      omega (arith, every, count_if_all highest vs) in
    rw some_total (
      Stops-IsRank p highest want (percentile_from h.precision h.counts 0 0 want h.max_ns) vs small
        fits
        (subst (λ x. Stops p want (percentile_from x h.counts 0 0 want h.max_ns) all)
          (sym k.same_precision)
          (percentile_from-Stops p all h.counts 0 0 want h.max_ns
            (omega (arith, length-clamp_all highest vs))
            (λ j. k.cells j ∙ ap (λ (x : ℕ). count_if (in_bucket p x) all) (omega arith))
            (sym (count_if_none p all)) (ground arith) (ground (arith, within)))))
