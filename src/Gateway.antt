-- ===== src/Gateway.antt =====
-- include/hft/order_gateway.hpp: the gateway between the strategy and the exchange. What the socket
-- has received and the readings of the clock are arguments, what goes to the wire and to the
-- strategy is returned. The latency histograms are left out. The table has 2 ^ `bits` slots.
pub mod Table
use Prim.Native.Nat.{bit_and}
use high_frequency_trading_e.Prelude.{
  ℕ, zero, suc, ◌+◌, ◌-◌, ◌^◌, ◌%◌, Bool, true, false, ◌&&◌, List, [], ◌∷◌, ◌++◌, Option, none,
  some, ◌==◌, if◌then◌else◌, get_or, set, replicate,
}
use high_frequency_trading_e.Wire.{OrderRequest, ExecReport}
use high_frequency_trading_e.Risk.{RiskGate, RiskLimits, RiskResult, check, is_accept}
use high_frequency_trading_e.Risk

pub record InFlight : Type 0 where
  pub order_id : ℕ
  pub send_tsc : ℕ
  pub md_tsc : ℕ
  pub active : Bool

-- `InFlight{}`
abbrev pub no_order : InFlight
no_order = record { order_id = 0; send_tsc = 0; md_tsc = 0; active = false }

pub record OrderGateway : Type 0 where
  pub bits : ℕ
  pub risk : RiskGate
  pub inflight : List InFlight
  pub sent : ℕ
  pub risk_rejected : ℕ
  pub fills_matched : ℕ
  pub fills_unmatched : ℕ

unfoldable pub new : ℕ → RiskLimits → OrderGateway
new bits limits = record {
  bits = bits;
  risk = Risk.new limits;
  inflight = replicate (2 ^ bits) no_order;
  sent = 0;
  risk_rejected = 0;
  fills_matched = 0;
  fills_unmatched = 0;
}

abbrev pub inc64 : ℕ → ℕ
inc64 n = (n + 1) % 2 ^ 64

-- `order_id & kMask`
unfoldable pub slot : OrderGateway → ℕ → ℕ
slot g order_id = bit_and order_id (2 ^ g.bits - 1)

abbrev pub matches : InFlight → ExecReport → Bool
matches s rep = s.active && (s.order_id == rep.order_id)

-- `handle_fill`; the list is what is pushed to the strategy.
unfoldable pub handle_fill : OrderGateway → ExecReport → OrderGateway × List ExecReport
handle_fill g rep =
    let s = get_or g.inflight (slot g rep.order_id) no_order in
    if matches s rep
    then (
      record g {
        inflight = set g.inflight (slot g rep.order_id) (record s { active = false });
        fills_matched = inc64 g.fills_matched;
        risk = Risk.on_fill g.risk rep;
      },
      rep ∷ [],
    )
    else (record g { fills_unmatched = inc64 g.fills_unmatched }, [])

-- `drain_fills`: the first argument is the rounds left of 32. A datagram of another size than a
-- report is `none`, and ends the loop as an empty socket does.
unfoldable pub drain_fills :
    ℕ → OrderGateway → List (Option ExecReport) → OrderGateway × List ExecReport
drain_fills zero g reps = (g, [])
drain_fills (suc rounds) g [] = (g, [])
drain_fills (suc rounds) g (none ∷ reps) = (g, [])
drain_fills (suc rounds) g (some rep ∷ reps) =
    let first = handle_fill g rep in
    let rest = drain_fills rounds first.0 reps in (rest.0, first.1 ++ rest.1)

-- `poll_once` with an order popped; the option is what goes to the wire.
unfoldable pub send :
    OrderGateway → Bool → ℕ → ℕ → OrderRequest → OrderGateway × Option OrderRequest
send g kill t0 send_t o =
    let r = check g.risk kill t0 o in
    if is_accept r.1
    then (
      record g {
        risk = r.0;
        inflight = set g.inflight (slot g o.order_id) (record {
          order_id = o.order_id;
          send_tsc = send_t;
          md_tsc = o.md_timestamp;
          active = true;
        });
        sent = inc64 g.sent;
      },
      some o,
    )
    else (record g { risk = r.0; risk_rejected = inc64 g.risk_rejected }, none)
