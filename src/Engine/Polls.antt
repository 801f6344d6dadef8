-- ===== src/Engine/Polls.antt =====
-- The polls of the two threads, `poll_once` of include/hft/strategy.hpp and of
-- include/hft/order_gateway.hpp, as steps of the engine. The counters and the histogram of the runner
-- are left out.
use high_frequency_trading_e.Prelude.{
  ℕ, zero, suc, ◌≡◌, refl, sym, subst, Bool, true, false, List, [], ◌∷◌, ◌++◌, append-nil,
  append_assoc, Option, none, some,
}
use high_frequency_trading_e.Wire.{ExecReport, MdEvent, OrderRequest}
use high_frequency_trading_e.Gateway.{drain_fills, handle_fill}
use high_frequency_trading_e.Engine.{
  Engine, Step, Reach, on_event, on_report, on_datagram, on_order,
}

-- The fills that the strategy takes first, from those in its queue; the number is the rounds left.
unfoldable pub take_fills : ℕ → Engine → List ExecReport → Engine
take_fills zero e waiting = record e { fill_q = waiting }
take_fills (suc n) e [] = record e { fill_q = [] }
take_fills (suc n) e (rep ∷ waiting) = take_fills n (on_report e rep waiting) waiting

-- `StrategyRunner::poll_once`, with the event that its queue holds, if any.
unfoldable pub strategy_poll : Engine → Option MdEvent → Engine × Bool
strategy_poll e none = (take_fills 16 e e.fill_q, false)
strategy_poll e (some ev) = (on_event (take_fills 16 e e.fill_q) ev, true)

-- The reports that the gateway takes first.
unfoldable pub take_reports : Engine → List (Option ExecReport) → Engine
take_reports e reps =
    let drained = drain_fills 32 e.gw reps in
    record e { gw = drained.0; fill_q = e.fill_q ++ drained.1 }

abbrev pub send_first : Engine → Bool → ℕ → ℕ → List OrderRequest → Engine × Bool
send_first e kill t0 send_t [] = (e, false)
send_first e kill t0 send_t (o ∷ waiting) = (on_order e kill t0 send_t o waiting, true)

-- `OrderGateway::poll_once`, with what its socket has received and the readings it makes.
unfoldable pub gateway_poll : Engine → List (Option ExecReport) → Bool → ℕ → ℕ → Engine × Bool
gateway_poll e reps kill t0 send_t =
    let e1 = take_reports e reps in send_first e1 kill t0 send_t e1.order_q

-- A poll of either thread.
pub data Poll : Type 0 where
  strategy : Option MdEvent → Poll
  gateway : List (Option ExecReport) → Bool → ℕ → ℕ → Poll

abbrev pub poll : Engine → Poll → Engine
poll e (Poll.strategy ev) = (strategy_poll e ev).0
poll e (Poll.gateway reps kill t0 send_t) = (gateway_poll e reps kill t0 send_t).0

unfoldable pub poll_all : Engine → List Poll → Engine
poll_all e [] = e
poll_all e (p ∷ ps) = poll_all (poll e p) ps

pub join : {x y z : Engine} → Reach x y → Reach y z → Reach x z
join r Reach.here = r
join r (Reach.later s t) = Reach.later (join r s) t

take_fills-Reach :
    (n : ℕ) (e : Engine) (waiting : List ExecReport)
    → e.fill_q ≡ waiting
    → Reach e (take_fills n e waiting)
unfolding take_fills
take_fills-Reach zero e waiting h = subst (λ q. Reach e (record e { fill_q = q })) h Reach.here
take_fills-Reach (suc n) e [] h = subst (λ q. Reach e (record e { fill_q = q })) h Reach.here
take_fills-Reach (suc n) e (rep ∷ waiting) h =
    join (Reach.later Reach.here (Step.report rep waiting h))
      (take_fills-Reach n (on_report e rep waiting) waiting refl)

-- The reports taken one after another, behind those that wait.
drain-Reach :
    (n : ℕ) (e : Engine) (reps : List (Option ExecReport))
    → Reach e (record e {
      gw = (drain_fills n e.gw reps).0;
      fill_q = e.fill_q ++ (drain_fills n e.gw reps).1;
    })
unfolding drain_fills
drain-Reach zero e reps =
    subst (λ q. Reach e (record e { fill_q = q })) (sym (append-nil e.fill_q)) Reach.here
drain-Reach (suc n) e [] =
    subst (λ q. Reach e (record e { fill_q = q })) (sym (append-nil e.fill_q)) Reach.here
drain-Reach (suc n) e (none ∷ reps) =
    subst (λ q. Reach e (record e { fill_q = q })) (sym (append-nil e.fill_q)) Reach.here
drain-Reach (suc n) e (some rep ∷ reps) =
    let e1 = on_datagram e rep in
    let rest = drain_fills n e1.gw reps in
    subst (λ q. Reach e (record e { gw = rest.0; fill_q = q }))
      (append_assoc e.fill_q (handle_fill e.gw rep).1 rest.1)
      (join (Reach.later Reach.here (Step.datagram rep)) (drain-Reach n e1 reps))

strategy_poll-Reach : (e : Engine) (ev : Option MdEvent) → Reach e (strategy_poll e ev).0
unfolding strategy_poll
strategy_poll-Reach e none = take_fills-Reach 16 e e.fill_q refl
strategy_poll-Reach e (some ev) = Reach.later (take_fills-Reach 16 e e.fill_q refl) (Step.event ev)

send_first-Reach :
    (e : Engine) (kill : Bool) (t0 send_t : ℕ) (waiting : List OrderRequest)
    → e.order_q ≡ waiting
    → Reach e (send_first e kill t0 send_t waiting).0
send_first-Reach e kill t0 send_t [] h = Reach.here
send_first-Reach e kill t0 send_t (o ∷ waiting) h =
    Reach.later Reach.here (Step.order kill t0 send_t o waiting h)

gateway_poll-Reach :
    (e : Engine) (reps : List (Option ExecReport)) (kill : Bool) (t0 send_t : ℕ)
    → Reach e (gateway_poll e reps kill t0 send_t).0
unfolding gateway_poll take_reports
gateway_poll-Reach e reps kill t0 send_t =
    join (drain-Reach 32 e reps) (send_first-Reach _ kill t0 send_t e.order_q refl)

poll-Reach : (e : Engine) (p : Poll) → Reach e (poll e p)
poll-Reach e (Poll.strategy ev) = strategy_poll-Reach e ev
poll-Reach e (Poll.gateway reps kill t0 send_t) = gateway_poll-Reach e reps kill t0 send_t

-- Whatever polls the two threads make, in whatever order, their bounded rounds of fills and of
-- reports are steps of the engine: what is reached by polls is reached by steps.
pub poll_all-Reach : (e : Engine) (ps : List Poll) → Reach e (poll_all e ps)
unfolding poll_all
poll_all-Reach e [] = Reach.here
poll_all-Reach e (p ∷ ps) = join (poll-Reach e p) (poll_all-Reach (poll e p) ps)
