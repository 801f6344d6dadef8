-- ===== src/Histogram/Edges.antt =====
-- The index of a value is within the array, and the edge of its bucket is close above the value.
use native.Mathlib.Decide.{dec_le}
use native.Mathlib.Nat.{
  pow-suc, div-add-mod, mod-lt, pow-le-pow_right, div-lt_iff_lt-mul, le-div_iff_mul-le,
}
use high_frequency_trading_e.Prelude.{
  ℕ, zero, suc, ◌+◌, ◌-◌, ◌*◌, ◌/◌, ◌%◌, ◌^◌, ◌≤◌, ◌<◌, ◌≡◌, refl, sym, ap, subst, ◌∙◌, inl, inr,
  ◌⊎◌, arith, ltb, leb, Bool-cases, ltb→lt,
}
use high_frequency_trading_e.Prelude.Mask.{two_pow_pos}
use high_frequency_trading_e.Prelude.Bits.{pow_add}
use high_frequency_trading_e.Histogram.{
  mod64, bucket_index, sub_bucket_index, counts_index, buckets_from, buckets_needed, counts_len,
}
use high_frequency_trading_e.Histogram.Index.{Placed, linear, above, bucket_index-Placed}

-- An index as a bucket `b` of width `c` and a sub-bucket `s`; `h` is the half count.
pub record Cell (h c value b s : ℕ) : Type 0 where
  pub below : s < 2 * h
  pub upper_half : (b ≡ 0) ⊎ (h ≤ s)
  pub from : s * c ≤ value
  pub to : value < s * c + c
  pub wide : (c ≡ 1) ⊎ (h * c ≤ value)

above-Cell :
    (h c value b : ℕ) → 0 < c → h * c ≤ value → value < 2 * h * c → Cell h c value b (value / c)
above-Cell h c value b pos low high = record {
  below = (div-lt_iff_lt-mul pos).1 high;
  upper_half = inr ((le-div_iff_mul-le pos).1 low);
  from = omega (arith, div-add-mod value c);
  to = omega (arith, div-add-mod value c, mod-lt value pos);
  wide = inr low;
}

Placed-Cell : (p value b : ℕ) → Placed p value b → Cell (2 ^ p) (2 ^ b) value b (value / 2 ^ b)
Placed-Cell p value b (linear e small) = rw e (record {
  below = omega (arith, small, pow-suc 2 p);
  upper_half = inl refl;
  from = omega arith;
  to = omega arith;
  wide = inl refl;
})
Placed-Cell p value b (above low high) =
    above-Cell (2 ^ p) (2 ^ b) value b (two_pow_pos b) (omega (arith, low, pow_add p b))
      (grind (arith, high, pow-suc 2 (p + b), pow_add p b))

index_sum : (b h s : ℕ) → s < 2 ^ 32 → (b + 1) * h + s % 2 ^ 32 - h ≡ b * h + s
index_sum b h s small = let e : (b + 1) * h ≡ b * h + h = grind arith in omega (arith, small)

-- A value falls on its bucket's half counts, and its sub-bucket.
pub counts_index_lem :
    (p value : ℕ)
    → p ≤ 16
    → value < mod64
    → let b = bucket_index p value in
      Cell (2 ^ p) (2 ^ b) value b (value / 2 ^ b)
      × (counts_index p value ≡ b * 2 ^ p + value / 2 ^ b)
unfolding counts_index sub_bucket_index
counts_index_lem p value small fits =
    let c =
      Placed-Cell p value (bucket_index p value) (bucket_index-Placed p value (omega arith) fits) in
    (
      c,
      index_sum (bucket_index p value) (2 ^ p) (value / 2 ^ bucket_index p value)
          (omega (arith, c.below, pow-le-pow_right {n = 2} (omega arith) small)),
    )

buckets_from_lem :
    (fuel p value needed : ℕ)
    → value < mod64
    → 64 ≤ fuel + (p + needed)
    → value < 2 ^ (p + buckets_from fuel value (2 ^ (p + needed)) needed)
unfolding buckets_from
buckets_from_lem zero p value needed fits enough =
    omega
      (arith, fits, pow-le-pow_right {n = 2} (omega arith) {i = 64} {j = p + needed} (omega arith))
buckets_from_lem (suc fuel) p value needed fits enough =
    let power : 2 ^ (p + (needed + 1)) ≡ 2 ^ (p + needed) * 2 =
      ap (λ (n : ℕ). 2 ^ n) (omega arith) ∙ pow-suc 2 (p + needed) in
    let rest = buckets_from_lem fuel p value (needed + 1) fits (omega arith) in
    elim (Bool-cases (leb (2 ^ (p + needed)) value)) [
      | inr past ↦ rw past (ground arith)
      | inl more ↦ rw more (elim (Bool-cases (ltb ((mod64 - 1) / 2) (2 ^ (p + needed)))) [
        | inl last ↦ rw last (
            let big : (mod64 - 1) / 2 < 2 ^ (p + needed) = ltb→lt _ _ last in
            omega (arith, power, fits, big))
        | inr on ↦
            rw on (subst (λ x. value < 2 ^ (p + buckets_from fuel value x (needed + 1))) power rest)
      ])
    ]

buckets_from_pos :
    (fuel value smallest needed : ℕ) → needed ≤ buckets_from fuel value smallest needed
unfolding buckets_from
buckets_from_pos zero value smallest needed = omega arith
buckets_from_pos (suc fuel) value smallest needed =
    ground (arith, buckets_from_pos fuel value (smallest * 2) (needed + 1))

index_below : (b n h s : ℕ) → b + 1 ≤ n → s < 2 * h → b * h + s < (n + 1) * h
index_below b n h s le small =
    let e : (b + 2) * h ≤ (n + 1) * h = grind arith in
    let e' : (b + 2) * h ≡ b * h + 2 * h = grind arith in omega (arith, small, e, e')

-- A bucket that holds a value below a power of two lies below that power.
pub bucket_below :
    (p b n s value : ℕ) → Cell (2 ^ p) (2 ^ b) value b s → value < 2 ^ (p + n) → 1 ≤ n → b + 1 ≤ n
bucket_below p b n s value c small some_bucket = finish c.upper_half
  where
    product : 2 ^ p ≤ s → 2 ^ p * 2 ^ b ≤ s * 2 ^ b
    product h = grind arith

    finish : (b ≡ 0) ⊎ (2 ^ p ≤ s) → b + 1 ≤ n
    finish (inl e) = omega arith
    finish (inr h) = elim (dec_le (b + 1) n) [
      | yes le ↦ le
      | no gt ↦ absurd (
          omega (
            arith,
            small,
            c.from,
            product h,
            pow_add p b,
            pow-le-pow_right {n = 2} (omega arith) {i = p + n} {j = p + b} (omega arith),
          ))
    ]

-- With a precision of at most 16 and `highest` below 2 ^ 64, the index of each value up to `highest`
-- is within the array of counts.
pub counts_index-lt :
    (p highest value : ℕ)
    → p ≤ 16
    → highest < mod64
    → value ≤ highest
    → counts_index p value < counts_len p highest
unfolding counts_len buckets_needed
counts_index-lt p highest value small fits le =
    let (c, e) = counts_index_lem p value small (omega arith) in
    let start : 2 ^ suc p ≡ 2 ^ (p + 1) = ap (λ (n : ℕ). 2 ^ n) (omega arith) in
    let top : highest < 2 ^ (p + buckets_from 64 highest (2 ^ suc p) 1) =
      subst (λ x. highest < 2 ^ (p + buckets_from 64 highest x 1)) (sym start)
        (buckets_from_lem 64 p highest 1 fits (omega arith)) in
    let b = bucket_index p value in
    let n = buckets_from 64 highest (2 ^ suc p) 1 in
    let below : b + 1 ≤ n =
      bucket_below p b n (value / 2 ^ b) value c (omega arith)
        (buckets_from_pos 64 highest (2 ^ suc p) 1) in
    rw e (index_below b n (2 ^ p) (value / 2 ^ b) below c.below)
