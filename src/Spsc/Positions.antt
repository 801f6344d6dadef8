-- ===== src/Spsc/Positions.antt =====
-- Positions on the ring: which slots they name, and that counting modulo 2 ^ 64 loses nothing.
use native.Mathlib.Nat.{
  mod-mod_of_dvd, pow-suc, div-add-mod, le_of_dvd, dvd_refl, dvd-mul_right_of_dvd,
}
use native.Mathlib.Decide.{dec_le}
use Prim.Native.Nat.{◌∣◌}
use high_frequency_trading_e.Prelude.{
  ℕ, zero, suc, ◌+◌, ◌-◌, ◌*◌, ◌/◌, ◌^◌, ◌%◌, ◌≤◌, ◌<◌, ◌≡◌, ◌≢◌, ◌∙◌, arith,
}
use high_frequency_trading_e.Prelude.Mask.{bit_and_mask}
use high_frequency_trading_e.Spsc.{SpscQueue, slot, mod64, sub64}

two_pow-dvd : (k n : ℕ) → k ≤ n → 2 ^ k ∣ 2 ^ n
two_pow-dvd k zero h = let e : k ≡ 0 = omega arith in rw e (dvd_refl (2 ^ 0))
two_pow-dvd k (suc n) h = elim (dec_le k n) [
  | yes below ↦ rw (pow-suc 2 n) (dvd-mul_right_of_dvd (2 ^ k) (two_pow-dvd k n below) 2)
  | no above ↦ let e : k ≡ suc n = omega arith in rw e (dvd_refl (2 ^ suc n))
]

pub slot_of_count : (k n : ℕ) → k ≤ 64 → (n % mod64) % 2 ^ k ≡ n % 2 ^ k
slot_of_count k n h = mod-mod_of_dvd (2 ^ k) n (two_pow-dvd k 64 h)

mul_mono : (c a b : ℕ) → a ≤ b → c * a ≤ c * b
mul_mono c a b h = grind arith

-- Two positions less than a turn apart have different slots.
pub mod_ne : (i j c : ℕ) → i < j → j < i + c → i % c ≢ j % c
mod_ne i j c lt near e = elim (dec_le (j / c) (i / c)) [
  | yes back ↦ omega (arith, div-add-mod i c, div-add-mod j c, mul_mono c (j / c) (i / c) back)
  | no on ↦
      omega (arith, div-add-mod i c, div-add-mod j c, mul_mono c (i / c + 1) (j / c) (omega arith))
]

-- The wrapped difference of two wrapped counts is their difference.
pub sub64_counts : (a b : ℕ) → b ≤ a → a - b < mod64 → sub64 (a % mod64) (b % mod64) ≡ a - b
sub64_counts a b h near = omega arith

-- Two counts less than 2 ^ 64 apart that agree modulo 2 ^ 64 are equal.
pub counts_eq : (a b : ℕ) → b ≤ a → a - b < mod64 → a % mod64 ≡ b % mod64 → a ≡ b
counts_eq a b h near e = omega arith

pub capacity_small : (k : ℕ) → k ≤ 63 → 2 ^ k ≤ 2 ^ 63
capacity_small k h = le_of_dvd (omega arith) (two_pow-dvd k 63 h)

pub slot_lem :
    {A : Type 0} (q : SpscQueue A) (n : ℕ) → q.bits ≤ 64 → slot q (n % mod64) ≡ n % 2 ^ q.bits
unfolding slot
slot_lem q n h = bit_and_mask (n % mod64) q.bits ∙ slot_of_count q.bits n h
