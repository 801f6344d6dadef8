-- ===== src/Engine/Waits.antt =====
-- The polls of the two threads between an order of the strategy and the report that answers it:
-- `poll_once` of include/hft/strategy.hpp and of include/hft/order_gateway.hpp.
use high_frequency_trading_e.Prelude.{
  ℕ, ◌≡◌, refl, sym, ap, ap₂, subst, ◌∙◌, Bool, true, List, [], ◌∷◌, ◌++◌, append-nil, Option, none,
  some,
}
use high_frequency_trading_e.Wire.{OrderRequest, ExecReport, MdEvent}
use high_frequency_trading_e.Gateway.{OrderGateway, drain_fills, send}
use high_frequency_trading_e.Engine.{Engine, to_list, on_event}
use high_frequency_trading_e.Engine.Stuck.{on_md-waiting}
use high_frequency_trading_e.Engine.Polls.{
  Poll, poll_all, take_fills, take_reports, send_first, gateway_poll, strategy_poll,
}

-- Polls of the strategy alone.
unfoldable pub watching : List (Option MdEvent) → List Poll
watching [] = []
watching (ev ∷ evs) = Poll.strategy ev ∷ watching evs

-- No poll of the gateway finds a datagram.
unfoldable pub AllQuiet : List Poll → Type 0
AllQuiet [] = Unit {0}
AllQuiet (Poll.strategy ev ∷ ps) = AllQuiet ps
AllQuiet (Poll.gateway reps kill t0 send_t ∷ ps) = (reps ≡ []) × AllQuiet ps

-- The strategy of `e` waits as that of `e0` does, with the orders `os` on their way, and no fill.
pub record Waits (e0 : Engine) (os : List OrderRequest) (g : OrderGateway)
    (wire : List OrderRequest) (e : Engine) : Type 0 where
  pub waiting : e.strat.in_flight ≡ true
  pub orders : e.order_q ≡ os
  pub no_fills : e.fill_q ≡ []
  pub gateway : e.gw ≡ g
  pub sent : e.wire ≡ wire
  pub orders_sent : e.strat.orders_sent ≡ e0.strat.orders_sent
  pub position : e.strat.position ≡ e0.strat.position

take_fills-none : (e : Engine) → e.fill_q ≡ [] → take_fills 16 e e.fill_q ≡ e
unfolding take_fills
take_fills-none e h = ap (take_fills 16 e) h ∙ (λ i. record e { fill_q = sym h i })

module _ {e0 : Engine} {os : List OrderRequest} {g : OrderGateway} {wire : List OrderRequest} where
  on_event-Waits :
      (e : Engine) (ev : MdEvent) → Waits e0 os g wire e → Waits e0 os g wire (on_event e ev)
  on_event-Waits e ev w =
      let same = on_md-waiting e.strat ev w.waiting in
      record {
        waiting = ap (λ r. r.0.in_flight) same ∙ w.waiting;
        orders = ap (λ r. e.order_q ++ to_list r.1) same ∙ append-nil e.order_q ∙ w.orders;
        no_fills = w.no_fills;
        gateway = w.gateway;
        sent = w.sent;
        orders_sent = ap (λ r. r.0.orders_sent) same ∙ w.orders_sent;
        position = ap (λ r. r.0.position) same ∙ w.position;
      }

  strategy_poll-Waits :
      (e : Engine) (ev : Option MdEvent)
      → Waits e0 os g wire e
      → Waits e0 os g wire (strategy_poll e ev).0
  unfolding strategy_poll
  strategy_poll-Waits e none w = subst (Waits e0 os g wire) (sym (take_fills-none e w.no_fills)) w
  strategy_poll-Waits e (some ev) w =
      on_event-Waits _ ev (subst (Waits e0 os g wire) (sym (take_fills-none e w.no_fills)) w)

  watching-Waits :
      (evs : List (Option MdEvent)) (e : Engine)
      → Waits e0 os g wire e
      → Waits e0 os g wire (poll_all e (watching evs))
  unfolding poll_all watching
  watching-Waits [] e w = w
  watching-Waits (ev ∷ evs) e w = watching-Waits evs _ (strategy_poll-Waits e ev w)

pub gateway_poll-idle :
    (e : Engine) (reps : List (Option ExecReport)) (kill : Bool) (t0 send_t : ℕ)
    → e.order_q ≡ []
    → (gateway_poll e reps kill t0 send_t).0 ≡ take_reports e reps
unfolding gateway_poll take_reports
gateway_poll-idle e reps kill t0 send_t h =
    ap (λ q. (send_first (take_reports e reps) kill t0 send_t q).0) h

module _ {e0 : Engine} {g : OrderGateway} {wire : List OrderRequest} where
  take_reports-Waits : (e : Engine) → Waits e0 [] g wire e → Waits e0 [] g wire (take_reports e [])
  unfolding take_reports drain_fills
  take_reports-Waits e w = record {
    waiting = w.waiting;
    orders = w.orders;
    no_fills = append-nil e.fill_q ∙ w.no_fills;
    gateway = w.gateway;
    sent = w.sent;
    orders_sent = w.orders_sent;
    position = w.position;
  }

  quiet-Waits :
      (ps : List Poll) (e : Engine)
      → AllQuiet ps
      → Waits e0 [] g wire e
      → Waits e0 [] g wire (poll_all e ps)
  unfolding poll_all AllQuiet
  quiet-Waits [] e quiet w = w
  quiet-Waits (Poll.strategy ev ∷ ps) e quiet w =
      quiet-Waits ps _ quiet (strategy_poll-Waits e ev w)
  quiet-Waits (Poll.gateway reps kill t0 send_t ∷ ps) e (none_in, quiet) w =
      quiet-Waits ps _ quiet (
        subst (Waits e0 [] g wire)
          (sym (gateway_poll-idle e reps kill t0 send_t w.orders ∙ ap (take_reports e) none_in))
          (take_reports-Waits e w))

-- The poll in which the gateway takes the order.
send-Waits :
    (e0 e : Engine) (kill : Bool) (t0 send_t : ℕ) (o : OrderRequest)
    → Waits e0 (o ∷ []) e0.gw e0.wire e
    → let out = send e0.gw kill t0 send_t o in
      Waits e0 [] out.0 (e0.wire ++ to_list out.1) (gateway_poll e [] kill t0 send_t).0
unfolding gateway_poll take_reports drain_fills
send-Waits e0 e kill t0 send_t o w =
    subst (Waits e0 [] out.0 (e0.wire ++ to_list out.1))
      (sym (ap (λ q. (send_first (take_reports e []) kill t0 send_t q).0) w.orders))
      (record {
        waiting = w.waiting;
        orders = refl;
        no_fills = append-nil e.fill_q ∙ w.no_fills;
        gateway = ap (λ g. (send g kill t0 send_t o).0) w.gateway;
        sent = ap₂ (λ l g. l ++ to_list (send g kill t0 send_t o).1) w.sent w.gateway;
        orders_sent = w.orders_sent;
        position = w.position;
      })
  where
    out : OrderGateway × Option OrderRequest
    out = send e0.gw kill t0 send_t o

-- The strategy polls, the gateway polls without a datagram, and both poll until the report comes.
abbrev pub awaiting : Engine → List (Option MdEvent) → Bool → ℕ → ℕ → List Poll → Engine
awaiting e before kill t0 send_t between =
    poll_all (gateway_poll (poll_all e (watching before)) [] kill t0 send_t).0 between

pub awaiting-Waits :
    (e : Engine) (before : List (Option MdEvent)) (kill : Bool) (t0 send_t : ℕ)
    (between : List Poll) (o : OrderRequest)
    → e.strat.in_flight ≡ true
    → e.order_q ≡ o ∷ []
    → e.fill_q ≡ []
    → AllQuiet between
    → let out = send e.gw kill t0 send_t o in
      Waits e [] out.0 (e.wire ++ to_list out.1) (awaiting e before kill t0 send_t between)
awaiting-Waits e before kill t0 send_t between o busy one_order no_fills quiet =
    quiet-Waits between _ quiet (
      send-Waits e _ kill t0 send_t o (
        watching-Waits before e (record {
          waiting = busy;
          orders = one_order;
          no_fills = no_fills;
          gateway = refl;
          sent = refl;
          orders_sent = refl;
          position = refl;
        })))
