-- ===== src/Histogram/Error.antt =====
-- The upper edge of the bucket of a value is close above it.
use Prim.Native.Nat.{bit_and}
use native.Mathlib.Decide.{dec_lt, dec_le}
use native.Mathlib.Nat.{
  mod-eq_of_lt, div-eq_of_lt, div-eq_of_lt-le, mul-add-mod_self_left, pow-suc, pow-le-pow_right,
}
use high_frequency_trading_e.Prelude.{
  ℕ, suc, ◌+◌, ◌-◌, ◌*◌, ◌/◌, ◌%◌, ◌^◌, ◌≤◌, ◌<◌, ◌≡◌, ap, subst, ◌∙◌, inl, inr, ◌⊎◌, false, arith,
  ◌==◌,
}
use high_frequency_trading_e.Prelude.Mask.{two_pow_pos, bit_and_mask}
use high_frequency_trading_e.Prelude.Bits.{pow_add}
use high_frequency_trading_e.Histogram.{mod64, bucket_index, counts_index, highest_equivalent_value}
use high_frequency_trading_e.Histogram.Edges.{Cell, counts_index_lem, bucket_below}

-- The quotient and the remainder of an index by the half count, in the upper half of a bucket.
index-div : (b h s : ℕ) → 0 < h → h ≤ s → s < 2 * h → (b * h + s) / h ≡ b + 1
index-div b h s pos low high =
    let e : (b + 1) * h ≡ b * h + h = grind arith in
    let e' : (b + 1 + 1) * h ≡ b * h + 2 * h = grind arith in
    div-eq_of_lt-le h (omega (arith, e, low)) (omega (arith, e', high))

index-mod : (b h s : ℕ) → 0 < h → h ≤ s → s < 2 * h → (b * h + s) % h ≡ s - h
index-mod b h s pos low high =
    let e : b * h + s ≡ h * (b + 1) + (s - h) = grind arith in
    ap (λ x. x % h) e ∙ mul-add-mod_self_left h (b + 1) (s - h) ∙ mod-eq_of_lt (omega (arith, high))

-- The edge of sub-bucket `s` of bucket `b`.
pub highest_equivalent_lem :
    (p b s : ℕ)
    → s < 2 * 2 ^ p
    → (b ≡ 0) ⊎ (2 ^ p ≤ s)
    → s * 2 ^ b + 2 ^ b ≤ mod64
    → highest_equivalent_value p (b * 2 ^ p + s) ≡ s * 2 ^ b + 2 ^ b - 1
unfolding highest_equivalent_value
highest_equivalent_lem p b s below half fits = elim (dec_le (2 ^ p) s) [
  | yes upper ↦
      let top = index-div b (2 ^ p) s (two_pow_pos p) upper below in
      let low : bit_and (b * 2 ^ p + s) (2 ^ p - 1) + 2 ^ p ≡ s = omega (
        arith,
        bit_and_mask (b * 2 ^ p + s) p,
        index-mod b (2 ^ p) s (two_pow_pos p) upper below,
      ) in
      let minus : b + 1 - 1 ≡ b = omega arith in
      let not_first : (b + 1 == 0) ≡ false = ground arith in
      rw (top, minus, not_first, low) (mod-eq_of_lt (omega (arith, two_pow_pos b, fits)))
  | no lower ↦
      let first : b ≡ 0 = at_first half lower in
      rw first (
        let index : 0 * 2 ^ p + s ≡ s = omega arith in
        let top : s / 2 ^ p ≡ 0 = div-eq_of_lt (omega arith) in
        let fits' : s * 2 ^ 0 + 2 ^ 0 ≤ mod64 = subst (λ x. s * 2 ^ x + 2 ^ x ≤ mod64) first fits in
        rw (index, top) (mod-eq_of_lt (omega (arith, fits'))))
]
  where
    at_first : (b ≡ 0) ⊎ (2 ^ p ≤ s) → ¬ (2 ^ p ≤ s) → b ≡ 0
    at_first (inl e) low = e
    at_first (inr h) low = absurd (low h)

mul_mono : (c x y : ℕ) → x ≤ y → x * c ≤ y * c
mul_mono c x y h = grind arith

multiples : (c x y : ℕ) → x * c < y * c → x * c + c ≤ y * c
multiples c x y h = elim (dec_lt x y) [
  | yes lt ↦
      let e : (x + 1) * c ≡ x * c + c = grind arith in
      omega (arith, e, mul_mono c (x + 1) y (omega arith))
  | no ge ↦ absurd (omega (arith, h, mul_mono c y x (omega arith)))
]

-- A bucket that begins below a power of two ends there at the latest.
bucket_ends : (n b s : ℕ) → b ≤ n → s * 2 ^ b < 2 ^ n → s * 2 ^ b + 2 ^ b ≤ 2 ^ n
bucket_ends n b s le below =
    let split : 2 ^ n ≡ 2 ^ (n - b) * 2 ^ b =
      ap (λ (k : ℕ). 2 ^ k) (omega arith) ∙ pow_add (n - b) b in
    rw split (multiples (2 ^ b) s (2 ^ (n - b)) (rw (← split) below))

-- With a precision of at most 16, the upper edge of the bucket of a 64-bit value is at least the
-- value, and exceeds it by at most a 2 ^ precision-th part of it.
pub edge_lem :
    (p value : ℕ)
    → p ≤ 16
    → value < mod64
    → let edge = highest_equivalent_value p (counts_index p value) in
      (value ≤ edge) × ((edge - value) * 2 ^ p ≤ value)
edge_lem p value small fits =
    let (c, e) = counts_index_lem p value small fits in
    let b = bucket_index p value in
    let s = value / 2 ^ b in
    let whole : p + (64 - p) ≡ 64 = omega arith in
    let power : 2 ^ (p + (64 - p)) ≡ mod64 = ap (λ (k : ℕ). 2 ^ k) whole in
    let b_small : b + 1 ≤ 64 - p =
      bucket_below p b (64 - p) s value c (omega (arith, fits, power)) (omega arith) in
    let ends : s * 2 ^ b + 2 ^ b ≤ mod64 =
      bucket_ends 64 b s (omega arith) (omega (arith, c.from, fits)) in
    let edge = highest_equivalent_lem p b s c.below c.upper_half ends in
    rw (e, edge) (omega (arith, c.to), close (2 ^ p) (2 ^ b) value s c.from c.wide (two_pow_pos b))
  where
    close : (h c v s : ℕ) → s * c ≤ v → (c ≡ 1) ⊎ (h * c ≤ v) → 1 ≤ c → (s * c + c - 1 - v) * h ≤ v
    close h c v s low (inl e) pos =
        let none_over : s * c + c - 1 - v ≡ 0 = omega arith in rw none_over (omega arith)
    close h c v s low (inr wide) pos =
        omega (arith, wide, mul_mono h (s * c + c - 1 - v) c (omega arith))

power_lem : (p b : ℕ) → 2 ^ p * 2 * 2 ^ b ≡ 2 ^ (p + suc b)
power_lem p b = grind (arith, pow_add p (suc b), pow-suc 2 b)

exponents : (p b n : ℕ) → 2 ^ (p + b) < 2 ^ (p + n) → b < n
exponents p b n h = elim (dec_lt b n) [
  | yes lt ↦ lt
  | no ge ↦ absurd (
      omega
        (arith, h, pow-le-pow_right {n = 2} (omega arith) {i = p + n} {j = p + b} (omega arith)))
]

cells_mono :
    (p v w b b' s s' : ℕ)
    → Cell (2 ^ p) (2 ^ b) v b s
    → Cell (2 ^ p) (2 ^ b') w b' s'
    → v ≤ w
    → b * 2 ^ p + s ≤ b' * 2 ^ p + s'
cells_mono p v w b b' s s' c c' le = elim (dec_lt b b') [
  | yes up ↦ higher c'.upper_half up
  | no level ↦ same (omega (arith, no_lower c.upper_half))
]
  where
    higher : (b' ≡ 0) ⊎ (2 ^ p ≤ s') → b < b' → b * 2 ^ p + s ≤ b' * 2 ^ p + s'
    higher (inl e) up = absurd (omega arith)
    higher (inr h) up =
        let e : (b + 1) * 2 ^ p ≡ b * 2 ^ p + 2 ^ p = grind arith in
        omega (arith, h, c.below, e, mul_mono (2 ^ p) (b + 1) b' (omega arith))

    no_lower : (b ≡ 0) ⊎ (2 ^ p ≤ s) → b ≤ b'
    no_lower (inl e) = omega arith
    no_lower (inr h) =
        let top : (s' + 1) * 2 ^ b' ≡ s' * 2 ^ b' + 2 ^ b' = grind arith in
        let power : 2 ^ p * 2 * 2 ^ b' ≡ 2 ^ (p + suc b') = power_lem p b' in
        let below : 2 ^ (p + b) < 2 ^ (p + suc b') = omega (
          arith,
          pow_add p b,
          mul_mono (2 ^ b) (2 ^ p) s h,
          c.from,
          c'.to,
          top,
          mul_mono (2 ^ b') (s' + 1) (2 ^ p * 2) (omega (arith, c'.below)),
          power,
        ) in
        let lt : b < suc b' = exponents p b (suc b') below in omega arith

    same : b' ≡ b → b * 2 ^ p + s ≤ b' * 2 ^ p + s'
    same e =
        let next : (s' + 1) * 2 ^ b ≡ s' * 2 ^ b + 2 ^ b = grind arith in
        let to : w < s' * 2 ^ b + 2 ^ b = subst (λ x. w < s' * 2 ^ x + 2 ^ x) e c'.to in
        let base : b' * 2 ^ p ≡ b * 2 ^ p = ap (λ (x : ℕ). x * 2 ^ p) e in
        elim (dec_le s s') [
          | yes up ↦ omega (arith, base)
          | no down ↦
              absurd (omega (arith, to, next, c.from, mul_mono (2 ^ b) (s' + 1) s (omega arith)))
        ]

-- Larger values have no smaller index.
pub counts_index_mono :
    (p v w : ℕ) → p ≤ 16 → w < mod64 → v ≤ w → counts_index p v ≤ counts_index p w
counts_index_mono p v w small fits le =
    let (c, e) = counts_index_lem p v small (omega arith) in
    let (c', e') = counts_index_lem p w small fits in
    rw (e, e')
      (cells_mono p v w (bucket_index p v) (bucket_index p w) (v / 2 ^ bucket_index p v)
        (w / 2 ^ bucket_index p w) c c' le)
