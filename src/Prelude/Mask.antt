-- ===== src/Prelude/Mask.antt =====
-- `x & (2 ^ k - 1)`: a mask of the low bits is the remainder, at every width.
use Prim.Native.Nat.{
  ℕ, zero, suc, ◌+◌, ◌-◌, ◌*◌, ◌/◌, ◌%◌, ◌^◌, ◌≤◌, ◌<◌, min, digits, bit_and, bit_and-bitwise,
}
use mathlib.Core.Path.{◌≡◌, refl, sym, ap, ◌∙◌}
use native.Mathlib.Omega.{arith}
use native.Mathlib.Nat.{pow-suc, div-add-mod, mod-lt, mul-add-mod_self_left, mod-eq_of_lt, zero-mod}

pub two_pow_pos : (k : ℕ) → 1 ≤ 2 ^ k
two_pow_pos zero = omega arith
two_pow_pos (suc k) = omega (arith, pow-suc 2 k, two_pow_pos k)

-- A remainder by `2 * m` in terms of the half.
halve_mod : (a m : ℕ) → 1 ≤ m → (a / 2) % m * 2 + a % 2 ≡ a % (m * 2)
halve_mod a m h = sym (
    ap (λ x. x % (m * 2)) whole
    ∙ mul-add-mod_self_left (m * 2) (a / 2 / m) (a / 2 % m * 2 + a % 2)
    ∙ mod-eq_of_lt small)
  where
    whole : a ≡ m * 2 * (a / 2 / m) + (a / 2 % m * 2 + a % 2)
    whole = omega (arith, div-add-mod (a / 2) m)

    small : a / 2 % m * 2 + a % 2 < m * 2
    small = omega (arith, mod-lt (a / 2) {m = m} h)

mask_digits : (n k a : ℕ) → a ≤ n → digits (λ b. zero) min n a (2 ^ k - 1) ≡ a % 2 ^ k
mask_digits zero k a h = let e : a ≡ 0 = omega arith in rw (e, zero-mod (2 ^ k)) refl
mask_digits (suc n) k zero h = sym (zero-mod (2 ^ k))
mask_digits (suc n) zero (suc a) h =
    let rest : digits (λ b. zero) min n (suc a / 2) (2 ^ 0 - 1) ≡ (suc a / 2) % 2 ^ 0 =
      mask_digits n zero (suc a / 2) (omega arith) in
    omega arith
mask_digits (suc n) (suc k) (suc a) h =
    let half : (2 ^ suc k - 1) / 2 ≡ 2 ^ k - 1 = omega (arith, pow-suc 2 k, two_pow_pos k) in
    let odd : (2 ^ suc k - 1) % 2 ≡ 1 = omega (arith, pow-suc 2 k, two_pow_pos k) in
    let rest : digits (λ b. zero) min n (suc a / 2) (2 ^ k - 1) ≡ (suc a / 2) % 2 ^ k =
      mask_digits n k (suc a / 2) (omega arith) in
    let power : 2 ^ suc k ≡ 2 ^ k * 2 = pow-suc 2 k in
    rw (half, odd, rest) (rw power (omega (arith, halve_mod (suc a) (2 ^ k) (two_pow_pos k))))

pub bit_and_mask : (a k : ℕ) → bit_and a (2 ^ k - 1) ≡ a % 2 ^ k
bit_and_mask a k = bit_and-bitwise a (2 ^ k - 1) ∙ mask_digits a k a (omega arith)
