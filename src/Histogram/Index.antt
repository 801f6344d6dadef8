-- ===== src/Histogram/Index.antt =====
-- Which bucket a value falls in.
use Prim.Native.Nat.{bit_or}
use native.Mathlib.Decide.{dec_lt, dec_le}
use native.Mathlib.Nat.{pow-suc, div-add-mod, mod-lt, pow-le-pow_right}
use high_frequency_trading_e.Prelude.{
  ℕ, zero, suc, ◌+◌, ◌-◌, ◌*◌, ◌/◌, ◌^◌, ◌≤◌, ◌<◌, ◌≡◌, ap, ◌∙◌, arith,
}
use high_frequency_trading_e.Prelude.Mask.{two_pow_pos}
use high_frequency_trading_e.Prelude.Bits.{bit_or_mask, pow_add, bit_length_lem}
use high_frequency_trading_e.Histogram.{mod64, bucket_index, sub_bucket_mask}

-- Where a value stands: in the first, linear bucket, or in the bucket `b` above it.
pub data Placed (precision value b : ℕ) : Type 0 where
  linear : b ≡ 0 → value < 2 ^ suc precision → Placed precision value b
  above : 2 ^ (precision + b) ≤ value → value < 2 ^ suc (precision + b) → Placed precision value b

-- The power of two below a number that is not 0.
floor_log :
    (fuel n : ℕ) → 0 < n → n < 2 ^ fuel → (b : ℕ) × (b < fuel) × (2 ^ b ≤ n) × (n < 2 ^ suc b)
floor_log zero n low high = absurd (omega (arith, high))
floor_log (suc fuel) n low high = elim (dec_lt n (2 ^ fuel)) [
  | yes small ↦ let (b, h, l, u) = floor_log fuel n low small in (b, omega arith, l, u)
  | no big ↦ (fuel, omega arith, omega arith, high)
]

or_low : (p value : ℕ) → value < 2 ^ suc p → bit_or value (sub_bucket_mask p) ≡ 2 ^ suc p - 1
or_low p value small = bit_or_mask value (suc p) ∙ grind (arith, two_pow_pos (suc p))

mul_step : (m a k : ℕ) → a < k → m * a + m ≤ m * k
mul_step m a k h = grind arith

-- The exponents are in the order of the powers around a value.
below_log : (p b value : ℕ) → 2 ^ suc p ≤ value → value < 2 ^ suc b → p ≤ b
below_log p b value low high = elim (dec_le p b) [
  | yes le ↦ le
  | no gt ↦ absurd (
      omega (
        arith,
        low,
        high,
        pow-le-pow_right {n = 2} (omega arith) {i = suc b} {j = suc p} (omega arith),
      ))
]

-- Setting the low bits stays below the next power of two.
or_high-step :
    (value m k : ℕ)
    → 1 ≤ m
    → value < m * k
    → (value ≤ value / m * m + (m - 1)) × (value / m * m + (m - 1) < m * k)
or_high-step value m k h below = (omega (arith, div-add-mod value m, mod-lt value h), fits)
  where
    quotient : value / m < k
    quotient = grind arith

    fits : value / m * m + (m - 1) < m * k
    fits = grind (arith, mul_step m (value / m) k quotient)

or_high :
    (p b value : ℕ)
    → p ≤ b
    → 2 ^ b ≤ value
    → value < 2 ^ suc b
    → (2 ^ b ≤ bit_or value (sub_bucket_mask p)) × (bit_or value (sub_bucket_mask p) < 2 ^ suc b)
or_high p b value le low high =
    let split : 2 ^ suc b ≡ 2 ^ suc p * 2 ^ (b - p) =
      ap (λ (n : ℕ). 2 ^ n) (omega arith) ∙ pow_add (suc p) (b - p) in
    let (above_value, below) =
      or_high-step value (2 ^ suc p) (2 ^ (b - p)) (two_pow_pos (suc p))
        (omega (arith, high, split)) in
    rw (bit_or_mask value (suc p)) (omega (arith, low, above_value), omega (arith, below, split))

bucket_index-or :
    (p b value : ℕ)
    → p ≤ b
    → b < 64
    → 2 ^ b ≤ bit_or value (sub_bucket_mask p)
    → bit_or value (sub_bucket_mask p) < 2 ^ suc b
    → bucket_index p value ≡ b - p
unfolding bucket_index
bucket_index-or p b value le small low high =
    omega (arith, bit_length_lem 64 b (bit_or value (sub_bucket_mask p)) small low high)

-- Every 64-bit value is placed.
pub bucket_index-Placed :
    (p value : ℕ) → p < 64 → value < mod64 → Placed p value (bucket_index p value)
bucket_index-Placed p value small fits = elim (dec_lt value (2 ^ suc p)) [
  | yes low ↦
      let full = or_low p value low in
      linear
        (bucket_index-or p p value (omega arith) small
            (omega (arith, full, pow-suc 2 p, two_pow_pos p))
            (omega (arith, full, two_pow_pos (suc p)))
          ∙ omega arith)
        low
  | no high ↦
      let (b, b_small, l, u) = floor_log 64 value (omega (arith, two_pow_pos (suc p))) fits in
      let le : p ≤ b = below_log p b value (omega arith) u in
      let (l', u') = or_high p b value le l u in
      let e = bucket_index-or p b value le b_small l' u' in
      let back : p + (b - p) ≡ b = omega arith in rw e (above (rw back l) (rw back u))
]
