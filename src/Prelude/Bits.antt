-- ===== src/Prelude/Bits.antt =====
-- Bit lengths, and `x | (2 ^ k - 1)`, which sets the low bits, at every width.
use Prim.Native.Nat.{
  ℕ, zero, suc, ◌+◌, ◌-◌, ◌*◌, ◌/◌, ◌%◌, ◌^◌, ◌≤◌, ◌<◌, max, digits, bit_or, bit_or-bitwise,
}
use mathlib.Core.Bool.{false}
use mathlib.Core.Path.{◌≡◌, refl, ap, ◌∙◌}
use native.Mathlib.Omega.{arith}
use native.Mathlib.Nat.{pow-suc, div-div-eq-div-mul, zero-div}
use high_frequency_trading_e.Prelude.Tests.{◌==◌, if◌then◌else◌}
use high_frequency_trading_e.Prelude.Mask.{two_pow_pos}

or_step : (q m r : ℕ) → 1 ≤ m → r < 2 → (q * m + (m - 1)) * 2 + max r 1 ≡ q * (2 * m) + (2 * m - 1)
or_step q m r h small = grind arith

or_digits :
    (n k a : ℕ) → a ≤ n → digits (λ b. b) max n a (2 ^ k - 1) ≡ a / 2 ^ k * 2 ^ k + (2 ^ k - 1)
or_digits zero k a h = let e : a ≡ 0 = omega arith in rw (e, zero-div (2 ^ k)) (omega arith)
or_digits (suc n) k zero h = rw (zero-div (2 ^ k)) (omega arith)
or_digits (suc n) zero (suc a) h =
    let rest : digits (λ b. b) max n (suc a / 2) (2 ^ 0 - 1)
        ≡ (suc a / 2) / 2 ^ 0 * 2 ^ 0 + (2 ^ 0 - 1) =
      or_digits n zero (suc a / 2) (omega arith) in
    omega arith
or_digits (suc n) (suc k) (suc a) h =
    let half : (2 ^ suc k - 1) / 2 ≡ 2 ^ k - 1 = omega (arith, pow-suc 2 k, two_pow_pos k) in
    let odd : (2 ^ suc k - 1) % 2 ≡ 1 = omega (arith, pow-suc 2 k, two_pow_pos k) in
    let rest : digits (λ b. b) max n (suc a / 2) (2 ^ k - 1)
        ≡ (suc a / 2) / 2 ^ k * 2 ^ k + (2 ^ k - 1) =
      or_digits n k (suc a / 2) (omega arith) in
    let quotient : suc a / 2 / 2 ^ k ≡ suc a / (2 * 2 ^ k) = div-div-eq-div-mul (suc a) 2 (2 ^ k) in
    let power : 2 ^ suc k ≡ 2 * 2 ^ k = omega (arith, pow-suc 2 k) in
    rw (half, odd, rest, quotient)
      (rw power (or_step (suc a / (2 * 2 ^ k)) (2 ^ k) (suc a % 2) (two_pow_pos k) (omega arith)))

pub bit_or_mask : (a k : ℕ) → bit_or a (2 ^ k - 1) ≡ a / 2 ^ k * 2 ^ k + (2 ^ k - 1)
bit_or_mask a k = bit_or-bitwise a (2 ^ k - 1) ∙ or_digits a k a (omega arith)

pub pow_add : (a b : ℕ) → 2 ^ (a + b) ≡ 2 ^ a * 2 ^ b
pow_add a zero = let e : a + 0 ≡ a = omega arith in rw e (omega arith)
pow_add a (suc b) =
    let e : a + suc b ≡ suc (a + b) = omega arith in
    rw e (grind (arith, pow-suc 2 (a + b), pow-suc 2 b, pow_add a b))

-- The number of binary digits; the first argument is fuel.
unfoldable pub bit_length : ℕ → ℕ → ℕ
bit_length zero n = 0
bit_length (suc fuel) n = if n == 0 then 0 else suc (bit_length fuel (n / 2))

bit_length_zero : (fuel : ℕ) → bit_length fuel 0 ≡ 0
unfolding bit_length
bit_length_zero zero = refl
bit_length_zero (suc fuel) = refl

pub bit_length_lem :
    (fuel b n : ℕ) → b < fuel → 2 ^ b ≤ n → n < 2 ^ suc b → bit_length fuel n ≡ suc b
unfolding bit_length
bit_length_lem zero b n h low high = absurd (omega arith)
bit_length_lem (suc fuel) zero n h low high =
    let one : n ≡ 1 = omega (arith, low, high) in rw one (ap suc (bit_length_zero fuel))
bit_length_lem (suc fuel) (suc b) n h low high =
    let low' : 2 ^ b ≤ n / 2 = omega (arith, pow-suc 2 b, low) in
    let high' : n / 2 < 2 ^ suc b = omega (arith, pow-suc 2 (suc b), high) in
    let some_bits : (n == 0) ≡ false = ground (arith, two_pow_pos b, low') in
    rw some_bits (ap suc (bit_length_lem fuel b (n / 2) (omega arith) low' high'))
