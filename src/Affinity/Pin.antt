-- ===== src/Affinity/Pin.antt =====
-- When a thread is pinned, and what its name becomes.
use high_frequency_trading_e.Prelude.{
  ℕ, zero, suc, ◌≤◌, ◌≡◌, refl, ap, ◌↔◌, inl, inr, true, not, List, [], ◌∷◌, ◌++◌, arith, ltb,
  Bool-cases, length, take, length-take, length-append,
}
use high_frequency_trading_e.Prelude.Int.{ℤ, ◌≤ℤ◌, ◌<ℤ◌, pos, negsuc}
use high_frequency_trading_e.Affinity.{pin_current_thread, thread_name, pin_and_name_thread, is_ok}

take_all : (xs : List ℕ) (n : ℕ) → length xs ≤ n → take (length xs) xs ≡ take n xs
take_all [] zero h = refl
take_all [] (suc n) h = refl
take_all (x ∷ xs) zero h = absurd (omega (arith, h))
take_all (x ∷ xs) (suc n) h = ap (◌∷◌ x) (take_all xs n (omega (arith, h)))

thread_name_lem : (name : List ℕ) → thread_name name ≡ take 15 name ++ 0 ∷ []
unfolding thread_name
thread_name_lem name = elim (Bool-cases (ltb (length name) 15)) [
  | inl short ↦ rw short (ap (λ l. l ++ 0 ∷ []) (take_all name 15 (ground arith)))
  | inr long ↦ rw long refl
]

pinned_lem :
    (set_size : ℕ) (rc core : ℤ)
    → let r = pin_current_thread set_size rc core in
      (is_ok r ≡ true) ↔ ((pos 0 ≤ℤ core) × (core <ℤ pos set_size) × (rc ≡ pos 0))
unfolding pin_current_thread
pinned_lem set_size (pos zero) (pos n) = (λ h. ground arith, λ h. ground arith)
pinned_lem set_size (pos (suc r)) (pos n) = (λ h. ground arith, λ h. ground arith)
pinned_lem set_size (negsuc r) (pos n) = (λ h. ground arith, λ h. ground arith)
pinned_lem set_size (pos zero) (negsuc n) = (λ h. ground arith, λ h. ground arith)
pinned_lem set_size (pos (suc r)) (negsuc n) = (λ h. ground arith, λ h. ground arith)
pinned_lem set_size (negsuc r) (negsuc n) = (λ h. ground arith, λ h. ground arith)

-- A thread is pinned exactly if its core is in the range of the set and the platform returns 0; it
-- warns exactly if it is not pinned. The name that it sets is the whole name or its first 15 bytes,
-- and a terminating 0: 16 bytes at most.
pub pin_and_name_thread_lem :
    (set_size : ℕ) (rc core : ℤ) (name : List ℕ)
    → let s = pin_and_name_thread set_size rc core name in
      ((is_ok s.result ≡ true) ↔ ((pos 0 ≤ℤ core) × (core <ℤ pos set_size) × (rc ≡ pos 0)))
      × (s.warned ≡ not (is_ok s.result))
      × (s.name ≡ take 15 name ++ 0 ∷ [])
      × (length s.name ≤ 16)
unfolding pin_and_name_thread pin_current_thread
pin_and_name_thread_lem set_size rc core name = (
  pinned_lem set_size rc core,
  ground arith,
  thread_name_lem name,
  omega (
    arith,
    ap length (thread_name_lem name),
    length-append (take 15 name) (0 ∷ []),
    length-take 15 name,
  ),
)
