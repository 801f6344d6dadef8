-- ===== src/Risk.antt =====
-- include/hft/risk_gate.hpp: the pre-trade risk gate. The kill switch is read on each call, and the
-- cycle counter at most once: both readings are arguments of `check`. The constructor's quotient
-- `hz / max_orders_per_sec` is floating point: its truncation, the emission interval in cycles, is
-- an argument of `new`, 0 when the rate is unlimited.
pub mod Decision
pub mod Rate
pub mod Exposure
use high_frequency_trading_e.Prelude.{
  ℕ, ◌+◌, ◌-◌, ◌*◌, ◌^◌, ◌%◌, Bool, true, false, ◌&&◌, ◌||◌, not, ltb, ◌==◌, if◌then◌else◌,
}
use high_frequency_trading_e.Prelude.Int.{ℤ, pos, ◌+ℤ◌, ◌-ℤ◌, ltb_ℤ}
use high_frequency_trading_e.Wire.{OrderRequest, ExecReport, is_buy}

pub data RiskResult : Type 0 where
  accept kill_switch order_size_limit position_limit rate_limit : RiskResult

pub record RiskLimits : Type 0 where
  pub max_position : ℤ
  pub max_order_size : ℕ
  pub interval : ℕ
  pub burst : ℕ

pub record RiskGate : Type 0 where
  pub position : ℤ
  pub max_position : ℤ
  pub max_order_size : ℕ
  pub cycles_per_token : ℕ
  pub tau : ℕ
  pub tat : ℕ
  pub accepted : ℕ
  pub rej_kill : ℕ
  pub rej_size : ℕ
  pub rej_pos : ℕ
  pub rej_rate : ℕ

abbrev pub mod64 : ℕ
mod64 = 2 ^ 64

abbrev pub inc64 : ℕ → ℕ
inc64 n = (n + 1) % mod64

unfoldable pub new : RiskLimits → RiskGate
new lim = record {
  position = pos 0;
  max_position = lim.max_position;
  max_order_size = lim.max_order_size;
  cycles_per_token = lim.interval;
  tau = (lim.interval * (if lim.burst == 0 then 1 else lim.burst)) % mod64;
  tat = 0;
  accepted = 0;
  rej_kill = 0;
  rej_size = 0;
  rej_pos = 0;
  rej_rate = 0;
}

-- `signed_sz` and `projected`
unfoldable pub projected : RiskGate → OrderRequest → ℤ
projected g o = g.position +ℤ (if is_buy o.side then pos o.size else pos 0 -ℤ pos o.size)

abbrev pub earliest : RiskGate → ℕ
earliest g = if ltb g.tau g.tat then g.tat - g.tau else 0

abbrev pub next_tat : RiskGate → ℕ → ℕ
next_tat g now = ((if ltb g.tat now then now else g.tat) + g.cycles_per_token) % mod64

abbrev pub accepting : RiskGate → RiskGate × RiskResult
accepting g = (record g { accepted = inc64 g.accepted }, RiskResult.accept)

-- check 4
unfoldable pub check_rate : RiskGate → ℕ → RiskGate × RiskResult
check_rate g now =
    if g.cycles_per_token == 0
    then accepting g
    else if ltb now (earliest g)
    then (record g { rej_rate = inc64 g.rej_rate }, RiskResult.rate_limit)
    else accepting (record g { tat = next_tat g now })

unfoldable pub check : RiskGate → Bool → ℕ → OrderRequest → RiskGate × RiskResult
check g kill now o =
    if kill
    then (record g { rej_kill = inc64 g.rej_kill }, RiskResult.kill_switch)
    else if o.size == 0 || ltb g.max_order_size o.size
    then (record g { rej_size = inc64 g.rej_size }, RiskResult.order_size_limit)
    else if ltb_ℤ g.max_position (projected g o) || ltb_ℤ (projected g o) (pos 0 -ℤ g.max_position)
    then (record g { rej_pos = inc64 g.rej_pos }, RiskResult.position_limit)
    else check_rate g now

abbrev pub is_accept : RiskResult → Bool
is_accept RiskResult.accept = true
is_accept RiskResult.kill_switch = false
is_accept RiskResult.order_size_limit = false
is_accept RiskResult.position_limit = false
is_accept RiskResult.rate_limit = false

unfoldable pub allow : RiskGate → Bool → ℕ → OrderRequest → RiskGate × Bool
allow g kill now o = let (g', r) = check g kill now o in (g', is_accept r)

unfoldable pub on_fill : RiskGate → ExecReport → RiskGate
on_fill g r = record g {
  position = if is_buy r.side then g.position +ℤ pos r.fill_size else g.position -ℤ pos r.fill_size;
}

unfoldable pub set_position : RiskGate → ℤ → RiskGate
set_position g p = record g { position = p }
