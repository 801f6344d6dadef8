-- ===== src/Risk/Exposure.antt =====
-- The position limit over the life of the orders that the gate lets through.
use high_frequency_trading_e.Prelude.{
  ℕ, ◌≤◌, ◌≡◌, refl, ◌∙◌, subst, Bool, true, Option, none, some, arith,
}
use high_frequency_trading_e.Prelude.Int.{ℤ, pos, ◌≤ℤ◌, ◌+ℤ◌, ◌-ℤ◌, -ℤ_parts}
use high_frequency_trading_e.Wire.{OrderRequest, ExecReport}
use high_frequency_trading_e.Risk.{
  RiskGate, RiskLimits, RiskResult, new, check, check_rate, is_accept, on_fill, projected,
}
use high_frequency_trading_e.Risk.Decision.{Admissible, check-accept_iff}

-- A gate and the order it let through that is not settled.
pub record Exposed : Type 0 where
  pub gate : RiskGate
  pub out : Option OrderRequest

abbrev pub kept : RiskResult → OrderRequest → Option OrderRequest
kept RiskResult.accept o = some o
kept RiskResult.kill_switch o = none
kept RiskResult.order_size_limit o = none
kept RiskResult.position_limit o = none
kept RiskResult.rate_limit o = none

-- With nothing out an order may be checked; what is out may be filled, in part or in whole, on its
-- own side, or be given up.
pub data Step (x : Exposed) : Exposed → Type 0 where
  attempt :
      (kill : Bool) (now : ℕ) (o : OrderRequest)
      → x.out ≡ none
      → Step x
          (record { gate = (check x.gate kill now o).0; out = kept (check x.gate kill now o).1 o })
  fill :
      (o : OrderRequest) (r : ExecReport)
      → x.out ≡ some o
      → r.side ≡ o.side
      → r.fill_size ≤ o.size
      → Step x (record { gate = on_fill x.gate r; out = none })
  give_up : Step x (record { gate = x.gate; out = none })

pub data Reach (start : Exposed) : Exposed → Type 0 where
  here : Reach start start
  later : {x y : Exposed} → Reach start x → Step x y → Reach start y

abbrev pub InBand : ℤ → ℤ → Type 0
InBand limit p = (pos 0 -ℤ limit ≤ℤ p) × (p ≤ℤ limit)

abbrev OutFits : RiskGate → Option OrderRequest → Type 0
OutFits g none = Unit {0}
OutFits g (some o) = InBand g.max_position (projected g o)

record Inv (limit : ℤ) (x : Exposed) : Type 0 where
  same : x.gate.max_position ≡ limit
  band : InBand limit x.gate.position
  room : OutFits x.gate x.out

-- `check` moves neither the position nor the limit.
check-frame :
    (g : RiskGate) (kill : Bool) (now : ℕ) (o : OrderRequest)
    → let g' = (check g kill now o).0 in
      (g'.position ≡ g.position) × (g'.max_position ≡ g.max_position)
unfolding check check_rate
check-frame g kill now o = ground arith

fill-InBand :
    (limit : ℤ) (g : RiskGate) (o : OrderRequest) (r : ExecReport)
    → r.side ≡ o.side
    → r.fill_size ≤ o.size
    → InBand limit g.position
    → InBand limit (projected g o)
    → InBand limit (on_fill g r).position
unfolding on_fill projected ◌+ℤ◌ ◌-ℤ◌
fill-InBand limit g o r side size now then' = ground arith

projected_of_position :
    (g g' : RiskGate) (o : OrderRequest) → g'.position ≡ g.position → projected g' o ≡ projected g o
unfolding projected
projected_of_position g g' o e = rw e

kept-OutFits :
    (g : RiskGate) (kill : Bool) (now : ℕ) (o : OrderRequest) (r : RiskGate × RiskResult)
    → r.0.position ≡ g.position
    → r.0.max_position ≡ g.max_position
    → (is_accept r.1 ≡ true → Admissible g kill now o)
    → OutFits r.0 (kept r.1 o)
kept-OutFits g kill now o (g', RiskResult.accept) ep em adm =
    let a = adm refl in simp (em, projected_of_position g g' o ep) a.banded
kept-OutFits g kill now o (g', RiskResult.kill_switch) ep em adm = tt
kept-OutFits g kill now o (g', RiskResult.order_size_limit) ep em adm = tt
kept-OutFits g kill now o (g', RiskResult.position_limit) ep em adm = tt
kept-OutFits g kill now o (g', RiskResult.rate_limit) ep em adm = tt

Step-Inv : (limit : ℤ) {x y : Exposed} → Step x y → Inv limit x → Inv limit y
Step-Inv limit {x} (attempt kill now o idle) v =
    let f = check-frame x.gate kill now o in
    record {
      same = f.1 ∙ v.same;
      band = rw (f.0) v.band;
      room =
          kept-OutFits x.gate kill now o (check x.gate kill now o) f.0 f.1
            (check-accept_iff x.gate kill now o).0;
    }
Step-Inv limit {x} (fill o r out side size) v = record {
  same = same_limit;
  band =
      fill-InBand limit x.gate o r side size v.band
        (subst (λ l. InBand l (projected x.gate o)) v.same (subst (OutFits x.gate) out v.room));
  room = tt;
}
  where
    same_limit : (on_fill x.gate r).max_position ≡ limit
    same_limit = unfold on_fill in v.same
Step-Inv limit give_up v = record { same = v.same; band = v.band; room = tt }

abbrev pub start : RiskLimits → Exposed
start lim = record { gate = new lim; out = none }

Reach-Inv :
    (lim : RiskLimits) {x : Exposed}
    → pos 0 ≤ℤ lim.max_position
    → Reach (start lim) x
    → Inv lim.max_position x
unfolding new
Reach-Inv lim h here = record { same = refl; band = start_band; room = tt }
  where
    start_band : InBand lim.max_position (pos 0)
    start_band = omega (arith, -ℤ_parts)
Reach-Inv lim h (later r s) = Step-Inv lim.max_position s (Reach-Inv lim h r)

-- With a limit that is not negative, from position 0, and while no order is checked with another one
-- out, the position never leaves the band, whatever is accepted, denied, filled in part or in whole on
-- its own side, or given up.
pub position-InBand :
    (lim : RiskLimits) {x : Exposed}
    → pos 0 ≤ℤ lim.max_position
    → Reach (start lim) x
    → InBand lim.max_position x.gate.position
position-InBand lim h r = let v = Reach-Inv lim h r in v.band

-- The report of a fill for the whole order.
abbrev pub whole_fill : OrderRequest → ExecReport
whole_fill o = record {
  order_id = o.order_id;
  md_timestamp = o.md_timestamp;
  fill_price = o.price;
  symbol = o.symbol;
  fill_size = o.size;
  side = o.side;
  status = b'F';
  flags = 0;
  pad = 0;
}
