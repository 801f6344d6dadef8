-- ===== src/Engine/Released.antt =====
-- What becomes of an order that the gateway accepts: the simulated exchange of
-- include/hft/sim_exchange.hpp fills it, and the strategy is free again.
use high_frequency_trading_e.Prelude.{
  ℕ, ◌≡◌, refl, ap, ap₂, ◌∙◌, Bool, true, false, List, [], ◌∷◌, ◌++◌, append-nil, Option, none,
  some,
}
use high_frequency_trading_e.Wire.{OrderRequest, ExecReport, MdEvent}
use high_frequency_trading_e.Strategy.{ImbalanceStrategy, on_fill}
use high_frequency_trading_e.Risk.{check, is_accept}
use high_frequency_trading_e.Gateway.{drain_fills, handle_fill}
use high_frequency_trading_e.Gateway.Table.{Sized, send-handle_fill}
use high_frequency_trading_e.Exchange.{SimExchange, report_of, serve, answer, service_orders}
use high_frequency_trading_e.Engine.{Engine, to_list, on_event, on_report}
use high_frequency_trading_e.Engine.Polls.{
  Poll, take_fills, take_reports, gateway_poll, strategy_poll,
}
use high_frequency_trading_e.Engine.Waits.{AllQuiet, awaiting, awaiting-Waits, gateway_poll-idle}

-- The fill that waits alone is taken by the strategy's next poll, before the event of that poll.
one_fill :
    (e : Engine) (rep : ExecReport)
    → e.fill_q ≡ rep ∷ []
    → (strategy_poll e none).0 ≡ on_report e rep []
unfolding strategy_poll take_fills
one_fill e rep h = ap (take_fills 16 e) h

strategy_poll-event :
    (e : Engine) (ev : MdEvent)
    → (strategy_poll e (some ev)).0 ≡ on_event (strategy_poll e none).0 ev
unfolding strategy_poll
strategy_poll-event e ev = refl

on_fill-free : (s : ImbalanceStrategy) (rep : ExecReport) → (on_fill s rep).in_flight ≡ false
unfolding on_fill
on_fill-free s rep = refl

report_arrives :
    (e : Engine) (rep : ExecReport) (kill : Bool) (t0 send_t : ℕ)
    → e.order_q ≡ []
    → e.fill_q ≡ []
    → (gateway_poll e (some rep ∷ []) kill t0 send_t).0
      ≡ (record e { gw = (handle_fill e.gw rep).0; fill_q = (handle_fill e.gw rep).1 })
unfolding take_reports drain_fills
report_arrives e rep kill t0 send_t none_out no_fills =
    gateway_poll-idle e (some rep ∷ []) kill t0 send_t none_out ∙ (λ i. record e {
      gw = (handle_fill e.gw rep).0;
      fill_q = (ap₂ (λ l k. l ++ k) no_fills (append-nil (handle_fill e.gw rep).1)) i;
    })

-- The strategy waits, with one order on its way and no fill waiting, and the gate accepts the order
-- when the gateway first polls. Before that poll the strategy polls as often as it likes; after it
-- both poll as they like; none of these polls of the gateway finds a datagram. Then the order is on
-- the wire once, the strategy has sent no other and still waits, and its position has stayed. An
-- exchange that finds the order alone in its socket answers with one report. When the gateway then
-- polls and finds this report alone, it puts it in the queue of the fills; and when the strategy polls
-- next, it takes the report from there and releases the latch, before it handles its event if it has
-- one. The table of the gateway has its full size.
pub accepted_released :
    (e : Engine) (x : SimExchange) (o : OrderRequest) (before : List (Option MdEvent)) (kill : Bool)
    (t0 send_t : ℕ) (between : List Poll) (kill' : Bool) (t0' send_t' : ℕ)
    → e.strat.in_flight ≡ true
    → e.order_q ≡ o ∷ []
    → e.fill_q ≡ []
    → Sized e.gw
    → is_accept (check e.gw.risk kill t0 o).1 ≡ true
    → AllQuiet between
    → let e1 = awaiting e before kill t0 send_t between in
      let rep = report_of o in
      let e2 = (gateway_poll e1 (some rep ∷ []) kill' t0' send_t').0 in
      let e3 = (strategy_poll e2 none).0 in
      (e1.wire ≡ e.wire ++ o ∷ [])
      × (e1.strat.in_flight ≡ true)
      × (e1.strat.orders_sent ≡ e.strat.orders_sent)
      × (e1.strat.position ≡ e.strat.position)
      × ((service_orders (record x { order_rx = some o ∷ [] })).fill_tx ≡ x.fill_tx ++ rep ∷ [])
      × (e2.fill_q ≡ rep ∷ [])
      × (e3.strat ≡ on_fill e1.strat rep)
      × (e3.strat.in_flight ≡ false)
      × (e3.order_q ≡ [])
      × (e3.fill_q ≡ [])
      × (e3.wire ≡ e.wire ++ o ∷ [])
      × ((ev : MdEvent) → (strategy_poll e2 (some ev)).0 ≡ on_event e3 ev)
unfolding service_orders serve answer report_of
accepted_released e x o before kill t0 send_t between kill' t0' send_t' busy one_order no_fills
      sized ok quiet =
    let rep = report_of o in
    let e1 = awaiting e before kill t0 send_t between in
    let e2 = (gateway_poll e1 (some rep ∷ []) kill' t0' send_t').0 in
    let w = awaiting-Waits e before kill t0 send_t between o busy one_order no_fills quiet in
    let (goes_out, passed_on, _, _, _) =
      send-handle_fill e.gw kill t0 send_t o rep rep sized ok refl refl in
    let on_wire : e1.wire ≡ e.wire ++ o ∷ [] = w.sent ∙ ap (λ r. e.wire ++ to_list r) goes_out in
    let came = report_arrives e1 rep kill' t0' send_t' w.orders w.no_fills in
    let waits : e2.fill_q ≡ rep ∷ [] =
      ap (λ y. y.fill_q) came ∙ ap (λ g. (handle_fill g rep).1) w.gateway ∙ passed_on in
    let taken = one_fill e2 rep waits in
    (
      on_wire,
      w.waiting,
      w.orders_sent,
      w.position,
      refl,
      waits,
      ap (λ y. y.strat) taken ∙ ap (λ y. on_fill y.strat rep) came,
      ap (λ y. y.strat.in_flight) taken ∙ on_fill-free e2.strat rep,
      ap (λ y. y.order_q) taken ∙ ap (λ y. y.order_q) came ∙ w.orders,
      ap (λ y. y.fill_q) taken,
      ap (λ y. y.wire) taken ∙ ap (λ y. y.wire) came ∙ on_wire,
      strategy_poll-event e2,
    )
