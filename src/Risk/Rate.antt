-- ===== src/Risk/Rate.antt =====
-- The rate limiter over whole histories.
use high_frequency_trading_e.Prelude.{
  ℕ, zero, suc, ◌+◌, ◌-◌, ◌*◌, ◌≤◌, ◌<◌, ◌≡◌, ◌↔◌, ◌⊎◌, inl, inr, refl, Bool, true, false, List, [],
  ◌∷◌, arith, ltb, ◌==◌, Bool-cases, max, min, replicate,
}
use high_frequency_trading_e.Wire.{OrderRequest}
use high_frequency_trading_e.Risk.{
  RiskGate, RiskResult, mod64, check_rate, check, is_accept, projected, earliest,
}
use high_frequency_trading_e.Risk.Decision.{Attempt, oversize, off_band, check_rate-accept_iff}

abbrev pub one_if : Bool → ℕ
one_if true = 1
one_if false = 0

-- How many of the attempts pass.
unfoldable pub passed : RiskGate → List Attempt → ℕ
passed g [] = 0
passed g (a ∷ as') =
    one_if (is_accept (check g a.kill a.now a.order).1)
    + passed (check g a.kill a.now a.order).0 as'

abbrev pub Between : ℕ → ℕ → List Attempt → Type 0
Between t0 t1 [] = Unit {0}
Between t0 t1 (a ∷ as') = (t0 ≤ a.now) × (a.now ≤ t1) × Between t0 t1 as'

-- What a call does to the limiter's state.
pub record Limiter (g : RiskGate) (now : ℕ) (r : RiskGate × RiskResult) : Type 0 where
  pub interval : r.0.cycles_per_token ≡ g.cycles_per_token
  pub tolerance : r.0.tau ≡ g.tau
  pub arrival :
      ((is_accept r.1 ≡ false) × (r.0.tat ≡ g.tat))
      ⊎ ((is_accept r.1 ≡ true)
          × (g.tat ≤ now + g.tau)
          × (r.0.tat ≡ max now g.tat + g.cycles_per_token))

check_rate-Limiter :
    (g : RiskGate) (now : ℕ)
    → 0 < g.cycles_per_token
    → now + g.tau + g.cycles_per_token < mod64
    → Limiter g now (check_rate g now)
unfolding check_rate
check_rate-Limiter g now h fits = ground arith

check-Limiter :
    (g : RiskGate) (kill : Bool) (now : ℕ) (o : OrderRequest)
    → 0 < g.cycles_per_token
    → now + g.tau + g.cycles_per_token < mod64
    → Limiter g now (check g kill now o)
unfolding check
check-Limiter g kill now o h fits = ground (arith, check_rate-Limiter g now h fits)

-- Each pass moves the theoretical arrival time on by an interval, and none takes it past the end.
passed_within :
    (g : RiskGate) (as' : List Attempt) (t tau t0 t1 : ℕ)
    → g.cycles_per_token ≡ t
    → g.tau ≡ tau
    → 0 < t
    → t0 ≤ t1
    → t1 + tau + t < mod64
    → Between t0 t1 as'
    → (passed g as' * t + max g.tat t0 ≤ t1 + tau + t) ⊎ (passed g as' ≡ 0)
unfolding passed
passed_within g [] t tau t0 t1 et eu h order fits b = inr refl
passed_within g (a ∷ as') t tau t0 t1 et eu h order fits b =
    step (check g a.kill a.now a.order)
      (check-Limiter g a.kill a.now a.order (omega arith) (omega arith))
      (λ x y. passed_within (check g a.kill a.now a.order).0 as' t tau t0 t1 x y h order fits b.2)
  where
    step :
        (r : RiskGate × RiskResult)
        → Limiter g a.now r
        → (r.0.cycles_per_token ≡ t
            → r.0.tau ≡ tau
            → (passed r.0 as' * t + max r.0.tat t0 ≤ t1 + tau + t) ⊎ (passed r.0 as' ≡ 0))
        → ((one_if (is_accept r.1) + passed r.0 as') * t + max g.tat t0 ≤ t1 + tau + t)
          ⊎ (one_if (is_accept r.1) + passed r.0 as' ≡ 0)
    step r l ih = finish l.arrival (ih (omega (arith, l.interval)) (omega (arith, l.tolerance)))
      where
        finish :
            ((is_accept r.1 ≡ false) × (r.0.tat ≡ g.tat))
              ⊎ ((is_accept r.1 ≡ true)
                  × (g.tat ≤ a.now + g.tau)
                  × (r.0.tat ≡ max a.now g.tat + g.cycles_per_token))
            → (passed r.0 as' * t + max r.0.tat t0 ≤ t1 + tau + t) ⊎ (passed r.0 as' ≡ 0)
            → ((one_if (is_accept r.1) + passed r.0 as') * t + max g.tat t0 ≤ t1 + tau + t)
              ⊎ (one_if (is_accept r.1) + passed r.0 as' ≡ 0)
        finish (inl (no_pass, same)) (inl within) = inl (rw no_pass (omega arith))
        finish (inl (no_pass, same)) (inr none_passed) =
            inr (rw (no_pass, none_passed) (omega arith))
        finish (inr (pass, before, after)) (inl within) = inl (rw pass (omega arith))
        finish (inr (pass, before, after)) (inr none_passed) =
            inl (rw (pass, none_passed) (omega arith))

-- With a rate set, among attempts made within any stretch of time, whatever their orders and in
-- whatever sequence, the number that pass is at most the stretch plus the tolerance over the
-- interval, plus one, as long as the clock, the tolerance and the interval are together below 2 ^
-- 64.
pub rate_bound :
    (g : RiskGate) (as' : List Attempt) (t0 t1 : ℕ)
    → 0 < g.cycles_per_token
    → t0 ≤ t1
    → t1 + g.tau + g.cycles_per_token < mod64
    → Between t0 t1 as'
    → passed g as' * g.cycles_per_token ≤ (t1 - t0) + g.tau + g.cycles_per_token
rate_bound g as' t0 t1 h order fits b =
    bound (passed_within g as' g.cycles_per_token g.tau t0 t1 refl refl h order fits b)
  where
    bound :
        (passed g as' * g.cycles_per_token + max g.tat t0 ≤ t1 + g.tau + g.cycles_per_token)
          ⊎ (passed g as' ≡ 0)
        → passed g as' * g.cycles_per_token ≤ (t1 - t0) + g.tau + g.cycles_per_token
    bound (inl within) = omega arith
    bound (inr none_passed) = rw none_passed (omega arith)

-- The same order, tried `n` times at one instant.
abbrev pub burst_of : ℕ → ℕ → OrderRequest → List Attempt
burst_of n now o = replicate n (record { kill = false; now = now; order = o })

-- An order of a size and side that the first checks let through.
abbrev pub Sound : RiskGate → OrderRequest → Type 0
Sound g o = (oversize g o ≡ false) × (off_band g o ≡ false)

check-Sound :
    (g : RiskGate) (now : ℕ) (o : OrderRequest) → Sound g o → check g false now o ≡ check_rate g now
unfolding check
check-Sound g now o (fine, within) = rw (fine, within) refl

check_rate-Sound :
    (g : RiskGate) (now : ℕ) (o : OrderRequest) → Sound g o → Sound (check_rate g now).0 o
unfolding check_rate projected
check_rate-Sound g now o s = elim (Bool-cases (g.cycles_per_token == 0)) [
  | inl unlimited ↦ rw unlimited s
  | inr limited ↦
      rw limited
        (elim (Bool-cases (ltb now (earliest g))) [ inl early ↦ rw early s | inr due ↦ rw due s ])
]

multiples : (k b t : ℕ) → 0 < t → (k * t ≤ b * t) ↔ (k ≤ b)
multiples k b t h = grind arith

burst_from :
    (n k b t now : ℕ) (g : RiskGate) (o : OrderRequest)
    → 0 < t
    → g.cycles_per_token ≡ t
    → g.tau ≡ b * t
    → max now g.tat ≡ now + k * t
    → now + b * t + t < mod64
    → Sound g o
    → passed g (burst_of n now o) ≡ min n (b + 1 - k)
unfolding passed
burst_from zero k b t now g o h et eu ea fits s = omega arith
burst_from (suc n) k b t now g o h et eu ea fits s = rw (check-Sound g now o s) (
    step (check_rate g now) (check_rate-Limiter g now (omega arith) (omega arith))
      (check_rate-accept_iff g now) (check_rate-Sound g now o s)
      (λ k' g' e₁ e₂ e₃ s'. burst_from n k' b t now g' o h e₁ e₂ e₃ fits s'))
  where
    step :
        (r : RiskGate × RiskResult)
        → Limiter g now r
        → ((is_accept r.1 ≡ true) ↔ (g.cycles_per_token ≡ 0) ⊎ (g.tat ≤ now + g.tau))
        → Sound r.0 o
        → ((k' : ℕ) (g' : RiskGate)
            → g'.cycles_per_token ≡ t
            → g'.tau ≡ b * t
            → max now g'.tat ≡ now + k' * t
            → Sound g' o
            → passed g' (burst_of n now o) ≡ min n (b + 1 - k'))
        → one_if (is_accept r.1) + passed r.0 (burst_of n now o) ≡ min (suc n) (b + 1 - k)
    step r l iff s' ih = finish l.arrival
      where
        finish :
            ((is_accept r.1 ≡ false) × (r.0.tat ≡ g.tat))
              ⊎ ((is_accept r.1 ≡ true)
                  × (g.tat ≤ now + g.tau)
                  × (r.0.tat ≡ max now g.tat + g.cycles_per_token))
            → one_if (is_accept r.1) + passed r.0 (burst_of n now o) ≡ min (suc n) (b + 1 - k)
        finish (inl (no_pass, same)) =
            let rest : passed r.0 (burst_of n now o) ≡ min n (b + 1 - k) =
              ih k r.0 (omega (arith, l.interval)) (omega (arith, l.tolerance)) (omega arith) s' in
            let spent : ¬ (k ≤ b) =
              λ le. cc (iff.1 (inr (omega (arith, (multiples k b t h).1 le)))) in
            rw (no_pass, rest) (omega arith)
        finish (inr (pass, before, after)) =
            let rest : passed r.0 (burst_of n now o) ≡ min n (b + 1 - suc k) =
              ih (suc k) r.0 (omega (arith, l.interval)) (omega (arith, l.tolerance)) (omega arith)
                s' in
            let left : k ≤ b = (multiples k b t h).0 (omega arith) in rw (pass, rest) (omega arith)

-- A gate at rest, whose tolerance is `b` intervals of at least a cycle, passes exactly the first `b
-- + 1` of any number of tries at one instant of an order that keeps the other limits, as long as
-- the clock and the tolerance are far from 2 ^ 64.
pub burst_exact :
    (g : RiskGate) (o : OrderRequest) (n b now : ℕ)
    → 0 < g.cycles_per_token
    → g.tau ≡ b * g.cycles_per_token
    → g.tat ≤ now
    → now + g.tau + g.cycles_per_token < mod64
    → Sound g o
    → passed g (burst_of n now o) ≡ min n (b + 1)
burst_exact g o n b now h eu rest fits s =
    omega
      (arith, burst_from n 0 b g.cycles_per_token now g o h refl eu (omega arith) (omega arith) s)
