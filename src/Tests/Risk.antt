-- ===== src/Tests/Risk.antt =====
-- Instances of the risk gate's theorems.
use high_frequency_trading_e.Prelude.{
  ℕ, ◌+◌, ◌-◌, ◌*◌, ◌≤◌, ◌≡◌, ◌↔◌, refl, true, false, List, [], ◌∷◌, none, arith, min,
}
use high_frequency_trading_e.Prelude.Int.{pos, ◌+ℤ◌, ◌-ℤ◌}
use high_frequency_trading_e.Wire.{OrderRequest}
use high_frequency_trading_e.Risk.{
  RiskGate, RiskLimits, new, check, check_rate, is_accept, on_fill, projected,
}
use high_frequency_trading_e.Risk.Decision.{Admissible, check-accept_iff, Attempt}
use high_frequency_trading_e.Risk.Rate.{passed, rate_bound, burst_exact, burst_of, Sound}
use high_frequency_trading_e.Risk.Exposure.{Reach, Step, start, InBand, position-InBand, whole_fill}

abbrev buy : ℕ → OrderRequest
buy size = record {
  order_id = 1;
  md_timestamp = 5;
  price = pos 1_010;
  symbol = 7;
  size = size;
  side = b'B';
  action = b'N';
  flags = 0;
  pad = 0;
}

-- At most 100 net and 60 an order; 10 cycles between orders, with a burst of 2.
abbrev limits : RiskLimits
limits = record { max_position = pos 100; max_order_size = 60; interval = 10; burst = 2 }

abbrev gate : RiskGate
gate = new limits

-- The same without a rate.
abbrev open_gate : RiskGate
open_gate = new (record limits { interval = 0 })

check-accept_iff_example :
    (is_accept (check gate false 1_000 (buy 60)).1 ≡ true) ↔ Admissible gate false 1_000 (buy 60)
check-accept_iff_example = check-accept_iff gate false 1_000 (buy 60)

abbrev attempts : List Attempt
attempts =
    record { kill = false; now = 1_000; order = buy 60 }
    ∷ record { kill = false; now = 1_001; order = buy 61 }
    ∷ record { kill = false; now = 1_002; order = buy 40 }
    ∷ record { kill = true; now = 1_004; order = buy 1 }
    ∷ []

rate_bound_example :
    passed gate attempts * gate.cycles_per_token
    ≤ (1_004 - 1_000) + gate.tau + gate.cycles_per_token
unfolding new
rate_bound_example =
    rate_bound gate attempts 1_000 1_004 (omega arith) (omega arith) (omega arith) (
      omega arith,
      omega arith,
      (omega arith, omega arith, (omega arith, omega arith, (omega arith, omega arith, tt))),
    )

buy-Sound : Sound gate (buy 60)
unfolding new projected ◌+ℤ◌ ◌-ℤ◌
buy-Sound = (refl, refl)

burst_exact_example : passed gate (burst_of 5 1_000 (buy 60)) ≡ min 5 (2 + 1)
unfolding new
burst_exact_example =
    burst_exact gate (buy 60) 5 2 1_000 (omega arith) refl (omega arith) (omega arith) buy-Sound

bought : Reach (start limits) (record {
  gate = on_fill (check gate false 1_000 (buy 60)).0 (whole_fill (buy 60));
  out = none;
})
unfolding check new projected ◌+ℤ◌ ◌-ℤ◌ check_rate
bought =
    Reach.later (Reach.later Reach.here (Step.attempt false 1_000 (buy 60) refl))
      (Step.fill (buy 60) (whole_fill (buy 60)) refl refl (omega arith))

position-InBand_example :
    InBand (pos 100) (on_fill (check gate false 1_000 (buy 60)).0 (whole_fill (buy 60))).position
position-InBand_example = position-InBand limits (omega arith) bought
