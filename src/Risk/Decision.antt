-- ===== src/Risk/Decision.antt =====
-- What `check` lets through, and what each call leaves behind.
use high_frequency_trading_e.Prelude.{
  ℕ, ◌+◌, ◌≤◌, ◌<◌, ◌≡◌, ◌↔◌, ◌⊎◌, Bool, true, false, ◌||◌, List, [], ◌∷◌, arith, refl, inl, inr,
  Bool-cases, ltb, ◌==◌, length,
}
use high_frequency_trading_e.Prelude.Int.{pos, ◌≤ℤ◌, ltb_ℤ, ◌-ℤ◌}
use high_frequency_trading_e.Wire.{OrderRequest}
use high_frequency_trading_e.Risk.{RiskGate, mod64, projected, check_rate, check, is_accept}

-- The four limits of an order at a reading of the clock.
pub record Admissible (g : RiskGate) (kill : Bool) (now : ℕ) (o : OrderRequest) : Type 0 where
  pub alive : kill ≡ false
  pub sized : (0 < o.size) × (o.size ≤ g.max_order_size)
  pub banded : (pos 0 -ℤ g.max_position ≤ℤ projected g o) × (projected g o ≤ℤ g.max_position)
  pub paced : (g.cycles_per_token ≡ 0) ⊎ (g.tat ≤ now + g.tau)

abbrev pub Paced : RiskGate → ℕ → Type 0
Paced g now = (g.cycles_per_token ≡ 0) ⊎ (g.tat ≤ now + g.tau)

pub check_rate-accept_iff :
    (g : RiskGate) (now : ℕ) → (is_accept (check_rate g now).1 ≡ true) ↔ Paced g now
unfolding check_rate
check_rate-accept_iff g now = ground arith

abbrev pub oversize : RiskGate → OrderRequest → Bool
oversize g o = o.size == 0 || ltb g.max_order_size o.size

abbrev pub off_band : RiskGate → OrderRequest → Bool
off_band g o =
    ltb_ℤ g.max_position (projected g o) || ltb_ℤ (projected g o) (pos 0 -ℤ g.max_position)

oversize_iff :
    (g : RiskGate) (o : OrderRequest)
    → (oversize g o ≡ false) ↔ ((0 < o.size) × (o.size ≤ g.max_order_size))
oversize_iff g o = ground arith

off_band_iff :
    (g : RiskGate) (o : OrderRequest)
    → (off_band g o ≡ false)
      ↔ ((pos 0 -ℤ g.max_position ≤ℤ projected g o) × (projected g o ≤ℤ g.max_position))
off_band_iff g o = ground arith

-- The four tests as one conjunction.
check-accept_tests :
    (g : RiskGate) (kill : Bool) (now : ℕ) (o : OrderRequest)
    → (is_accept (check g kill now o).1 ≡ true) ↔ (
        (kill ≡ false)
        × (oversize g o ≡ false)
        × (off_band g o ≡ false)
        × (is_accept (check_rate g now).1 ≡ true))
unfolding check
check-accept_tests g true now o = (λ e. cc, λ t. cc (t.0))
check-accept_tests g false now o = elim (Bool-cases (oversize g o)) [
  | inl big ↦ rw big (λ e. cc, λ t. cc (t.1))
  | inr fine ↦ rw fine (elim (Bool-cases (off_band g o)) [
    | inl off ↦ rw off (λ e. cc, λ t. cc (t.2))
    | inr within ↦ rw within (λ e. (refl, refl, refl, e), λ t. t.3)
  ])
]

-- An order is accepted exactly when the kill switch is off, its size is not zero and within the cap,
-- the projected position stays within the band, and, if a rate is set, the theoretical arrival time
-- is at most the burst tolerance ahead of the clock.
pub check-accept_iff :
    (g : RiskGate) (kill : Bool) (now : ℕ) (o : OrderRequest)
    → (is_accept (check g kill now o).1 ≡ true) ↔ Admissible g kill now o
check-accept_iff g kill now o = (
  λ e.
      let t = (check-accept_tests g kill now o).0 e in
      record {
        alive = t.0;
        sized = (oversize_iff g o).0 t.1;
        banded = (off_band_iff g o).0 t.2;
        paced = (check_rate-accept_iff g now).0 t.3;
      },
  λ a. (check-accept_tests g kill now o).1 (
    a.alive,
    (oversize_iff g o).1 a.sized,
    (off_band_iff g o).1 a.banded,
    (check_rate-accept_iff g now).1 a.paced,
  ),
)

-- An attempt: the kill switch and the clock as `check` reads them, and the order.
pub record Attempt : Type 0 where
  pub kill : Bool
  pub now : ℕ
  pub order : OrderRequest

unfoldable pub run : RiskGate → List Attempt → RiskGate
run g [] = g
run g (a ∷ as') = run (check g a.kill a.now a.order).0 as'

abbrev pub total : RiskGate → ℕ
total g = g.accepted + g.rej_kill + g.rej_size + g.rej_pos + g.rej_rate

check-total :
    (g : RiskGate) (kill : Bool) (now : ℕ) (o : OrderRequest)
    → total g + 1 < mod64
    → total (check g kill now o).0 ≡ total g + 1
unfolding check check_rate
check-total g kill now o h = ground arith

-- Every attempt is counted once: the five counters of a gate add up to the attempts made, on any
-- history whose count fits 64 bits.
pub total-run :
    (g : RiskGate) (as' : List Attempt)
    → total g + length as' < mod64
    → total (run g as') ≡ total g + length as'
unfolding run
total-run g [] h = omega arith
total-run g (a ∷ as') h =
    let e : total (check g a.kill a.now a.order).0 ≡ total g + 1 =
      check-total g a.kill a.now a.order (omega arith) in
    let rest : total (run g (a ∷ as')) ≡ total (check g a.kill a.now a.order).0 + length as' =
      total-run (check g a.kill a.now a.order).0 as' (omega arith) in
    omega arith
