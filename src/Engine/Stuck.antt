-- ===== src/Engine/Stuck.antt =====
-- What becomes of an order that the gateway denies.
use high_frequency_trading_e.Prelude.{
  ℕ, ◌≡◌, refl, ap, ◌∙◌, Bool, true, false, ◌&&◌, ◌==◌, [], ◌++◌, append-nil, none, get_or, arith,
}
use high_frequency_trading_e.Wire.{OrderRequest, ExecReport, MdEvent}
use high_frequency_trading_e.Strategy.{ImbalanceStrategy, on_md, decide, seen}
use high_frequency_trading_e.Risk.{check, is_accept}
use high_frequency_trading_e.Gateway.{OrderGateway, no_order, slot, handle_fill}
use high_frequency_trading_e.Gateway.Table.{handle_fill-miss, missed, entry, send-deny}
use high_frequency_trading_e.Engine.{Engine, Step, Reach, to_list, on_event, on_datagram, on_order}

-- No slot of the table waits for a report.
abbrev pub NoneActive : OrderGateway → Type 0
NoneActive g = (i : ℕ) → (get_or g.inflight i no_order).active ≡ false

-- The strategy waits for a report, and nothing on the way to it or from it can bring one.
pub record Stuck (e : Engine) : Type 0 where
  pub waiting : e.strat.in_flight ≡ true
  pub no_orders : e.order_q ≡ []
  pub no_fills : e.fill_q ≡ []
  pub none_active : NoneActive e.gw

pub on_md-waiting :
    (s : ImbalanceStrategy) (ev : MdEvent) → s.in_flight ≡ true → on_md s ev ≡ (seen s ev, none)
unfolding on_md decide
on_md-waiting s ev h = ground arith

on_datagram-idle :
    (g : OrderGateway) (rep : ExecReport) → NoneActive g → handle_fill g rep ≡ (missed g, [])
on_datagram-idle g rep idle =
    handle_fill-miss g rep (
      ap (λ b. b && ((entry g rep.order_id).order_id == rep.order_id)) (idle (slot g rep.order_id)))

-- What a step from a stuck state leaves.
record Kept (e e' : Engine) : Type 0 where
  stuck : Stuck e'
  wire : e'.wire ≡ e.wire
  sent : e'.strat.orders_sent ≡ e.strat.orders_sent
  position : e'.strat.position ≡ e.strat.position

event-Kept : (e : Engine) (ev : MdEvent) → Stuck e → Kept e (on_event e ev)
event-Kept e ev s =
    let same = on_md-waiting e.strat ev s.waiting in
    record {
      stuck = record {
        waiting = ap (λ r. r.0.in_flight) same ∙ s.waiting;
        no_orders = ap (λ r. e.order_q ++ to_list r.1) same ∙ append-nil e.order_q ∙ s.no_orders;
        no_fills = s.no_fills;
        none_active = s.none_active;
      };
      wire = refl;
      sent = ap (λ r. r.0.orders_sent) same;
      position = ap (λ r. r.0.position) same;
    }

datagram-Kept : (e : Engine) (rep : ExecReport) → Stuck e → Kept e (on_datagram e rep)
datagram-Kept e rep s =
    let same = on_datagram-idle e.gw rep s.none_active in
    record {
      stuck = record {
        waiting = s.waiting;
        no_orders = s.no_orders;
        no_fills = ap (λ r. e.fill_q ++ r.1) same ∙ append-nil e.fill_q ∙ s.no_fills;
        none_active = λ i. ap (λ r. (get_or r.0.inflight i no_order).active) same ∙ s.none_active i;
      };
      wire = refl;
      sent = refl;
      position = refl;
    }

Step-Kept : {e e' : Engine} → Step e e' → Stuck e → Kept e e'
Step-Kept {e} (Step.event ev) s = event-Kept e ev s
Step-Kept (Step.report rep rest h) s = let none_left = s.no_fills in absurd (cc)
Step-Kept {e} (Step.datagram rep) s = datagram-Kept e rep s
Step-Kept (Step.order kill t0 send_t o rest h) s = let none_left = s.no_orders in absurd (cc)

Reach-Kept : {e e' : Engine} → Reach e e' → Stuck e → Kept e e'
Reach-Kept Reach.here s = record { stuck = s; wire = refl; sent = refl; position = refl }
Reach-Kept (Reach.later r t) s =
    let k = Reach-Kept r s in
    let k' = Step-Kept t k.stuck in
    record {
      stuck = k'.stuck;
      wire = k'.wire ∙ k.wire;
      sent = k'.sent ∙ k.sent;
      position = k'.position ∙ k.position;
    }

-- When the gateway denies the only order on its way, with no other order out and no fill on its way
-- back, the strategy never sends an order again: whatever market data and whatever reports arrive in
-- whatever sequence after that, nothing more goes to the wire, the strategy's count of orders and its
-- position stay, and it goes on waiting.
pub denied_forever :
    (e : Engine) (kill : Bool) (t0 send_t : ℕ) (o : OrderRequest) {e' : Engine}
    → e.strat.in_flight ≡ true
    → e.fill_q ≡ []
    → NoneActive e.gw
    → is_accept (check e.gw.risk kill t0 o).1 ≡ false
    → Reach (on_order e kill t0 send_t o []) e'
    → (e'.wire ≡ e.wire)
      × (e'.strat.orders_sent ≡ e.strat.orders_sent)
      × (e'.strat.position ≡ e.strat.position)
      × (e'.strat.in_flight ≡ true)
denied_forever e kill t0 send_t o {e'} waiting no_fills idle denied r =
    let same = send-deny e.gw kill t0 send_t o denied in
    let k = Reach-Kept r (record {
      waiting = waiting;
      no_orders = refl;
      no_fills = no_fills;
      none_active = λ i. ap (λ x. (get_or x.0.inflight i no_order).active) same ∙ idle i;
    }) in
    (
      k.wire ∙ ap (λ x. e.wire ++ to_list x.1) same ∙ append-nil e.wire,
      k.sent,
      k.position,
      k.stuck.waiting,
    )
