-- ===== src/Tests/Engine.antt =====
-- Instances of the theorems on the gateway and the engine: a gateway of four slots.
use high_frequency_trading_e.Prelude.{
  List, none, ◌≡◌, ◌++◌, refl, ap, true, false, [], ◌∷◌, some, get_or-replicate, length-replicate,
}
use high_frequency_trading_e.Prelude.Int.{pos, ◌+ℤ◌, ◌-ℤ◌}
use high_frequency_trading_e.Wire.{OrderRequest, ExecReport, MdEvent}
use high_frequency_trading_e.Risk.{RiskLimits, RiskResult, check, check_rate, is_accept, projected}
use high_frequency_trading_e.Risk
use high_frequency_trading_e.Strategy.{ImbalanceStrategy}
use high_frequency_trading_e.Strategy
use high_frequency_trading_e.Gateway.{OrderGateway, no_order, send, handle_fill}
use high_frequency_trading_e.Gateway
use high_frequency_trading_e.Gateway.Table.{Sized, missed, send-handle_fill}
use high_frequency_trading_e.Engine.{Engine, Step, Reach, on_event, on_order, on_datagram}
use high_frequency_trading_e.Exchange.{SimExchange, report_of, service_orders}
use high_frequency_trading_e.Exchange
use high_frequency_trading_e.Engine.Polls.{
  Poll, poll_all, gateway_poll, strategy_poll, poll_all-Reach,
}
use high_frequency_trading_e.Engine.Waits.{AllQuiet, awaiting}
use high_frequency_trading_e.Engine.Released.{accepted_released}
use high_frequency_trading_e.Engine.Stuck.{NoneActive, denied_forever}

abbrev order : OrderRequest
order = record {
  order_id = 1;
  md_timestamp = 5;
  price = pos 1_010;
  symbol = 7;
  size = 60;
  side = b'B';
  action = b'N';
  flags = 0;
  pad = 0;
}

abbrev fill : ExecReport
fill = record {
  order_id = 1;
  md_timestamp = 5;
  fill_price = pos 1_010;
  symbol = 7;
  fill_size = 60;
  side = b'B';
  status = b'F';
  flags = 0;
  pad = 0;
}

abbrev gateway : OrderGateway
gateway =
    Gateway.new 2 (record { max_position = pos 100; max_order_size = 60; interval = 10; burst = 2 })

gateway-Sized : Sized gateway
unfolding Gateway.new
gateway-Sized = length-replicate 4 no_order

order-accepted : is_accept (check gateway.risk false 1_000 order).1 ≡ true
unfolding Gateway.new Risk.new check check_rate projected ◌+ℤ◌ ◌-ℤ◌
order-accepted = refl

send-handle_fill_example :
    let out = send gateway false 1_000 1_001 order in
    let first = handle_fill out.0 fill in
    let second = handle_fill first.0 fill in
    (out.1 ≡ some order)
    × (first.1 ≡ fill ∷ [])
    × (first.0.risk ≡ Risk.on_fill (check gateway.risk false 1_000 order).0 fill)
    × (second.0 ≡ missed first.0)
    × (second.1 ≡ [])
send-handle_fill_example =
    send-handle_fill gateway false 1_000 1_001 order fill fill gateway-Sized order-accepted refl
      refl

gateway-idle : NoneActive gateway
unfolding Gateway.new
gateway-idle i = ap (λ s. s.active) (get_or-replicate 4 i no_order)

-- The strategy waits for the answer to `order`, which is on its way.
abbrev engine : Engine
engine = record {
  strat =
      record (Strategy.new 8 (record {
        base_price = pos 1_000;
        tick = pos 10;
        threshold_num = pos 8_192;
        order_size = 60;
      })) { in_flight = true };
  gw = gateway;
  order_q = order ∷ [];
  fill_q = [];
  wire = [];
}

-- The kill switch is on.
order-denied : is_accept (check gateway.risk true 1_000 order).1 ≡ false
unfolding check
order-denied = refl

abbrev after_denial : Engine
after_denial = on_order engine true 1_000 1_001 order []

denied_forever_example :
    let e = on_datagram after_denial fill in
    (e.wire ≡ engine.wire)
    × (e.strat.orders_sent ≡ engine.strat.orders_sent)
    × (e.strat.position ≡ engine.strat.position)
    × (e.strat.in_flight ≡ true)
denied_forever_example =
    denied_forever engine true 1_000 1_001 order refl refl gateway-idle order-denied
      (Reach.later Reach.here (Step.datagram fill))

abbrev exchange : SimExchange
exchange =
    Exchange.new
      (record { symbol = 7; batch = pos 8; seed = 42; base_price = pos 1_000; tick = pos 10 }) 0

abbrev ask : MdEvent
ask = record {
  msg = record {
    timestamp = 1;
    price = pos 1_020;
    symbol = 7;
    size = 30;
    seq = 1;
    type_byte = b'A';
    side = b'S';
    flags = 0;
  };
  arrival_tsc = 9;
}

-- The strategy sees an event first; each thread polls once more before the report.
accepted_released_example :
    let between = Poll.gateway [] true 1_002 1_003 ∷ Poll.strategy none ∷ [] in
    let e1 = awaiting engine (some ask ∷ []) false 1_000 1_001 between in
    let rep = report_of order in
    let e2 = (gateway_poll e1 (some rep ∷ []) false 1_010 1_011).0 in
    let e3 = (strategy_poll e2 none).0 in
    (e1.wire ≡ engine.wire ++ order ∷ [])
    × (e1.strat.in_flight ≡ true)
    × (e1.strat.orders_sent ≡ engine.strat.orders_sent)
    × (e1.strat.position ≡ engine.strat.position)
    × ((service_orders (record exchange { order_rx = some order ∷ [] })).fill_tx
        ≡ exchange.fill_tx ++ rep ∷ [])
    × (e2.fill_q ≡ rep ∷ [])
    × (e3.strat ≡ Strategy.on_fill e1.strat rep)
    × (e3.strat.in_flight ≡ false)
    × (e3.order_q ≡ [])
    × (e3.fill_q ≡ [])
    × (e3.wire ≡ engine.wire ++ order ∷ [])
    × ((ev : MdEvent) → (strategy_poll e2 (some ev)).0 ≡ on_event e3 ev)
unfolding AllQuiet
accepted_released_example =
    accepted_released engine exchange order (some ask ∷ []) false 1_000 1_001
      (Poll.gateway [] true 1_002 1_003 ∷ Poll.strategy none ∷ []) false 1_010 1_011 refl refl refl
      gateway-Sized order-accepted (refl, tt)

-- The strategy finds nothing, and the gateway takes a report that no order waits for and sends the
-- order.
abbrev polls : List Poll
polls = Poll.strategy none ∷ Poll.gateway (some fill ∷ []) false 1_000 1_001 ∷ []

poll_all-Reach_example : Reach engine (poll_all engine polls)
poll_all-Reach_example = poll_all-Reach engine polls
