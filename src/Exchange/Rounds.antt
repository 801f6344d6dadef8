-- ===== src/Exchange/Rounds.antt =====
-- The rounds of the loop of `run` keep the feed in order.
use high_frequency_trading_e.Prelude.{
  ℕ, zero, suc, ◌^◌, ◌<◌, ◌≡◌, inl, inr, List, [], ◌∷◌, Option, none, some, arith, ◌==◌, Bool-cases,
}
use high_frequency_trading_e.Prelude.Int.{int_laws}
use high_frequency_trading_e.Wire.{ItchMessage, OrderRequest, ExecReport}
use high_frequency_trading_e.Exchange.{
  Config, SimExchange, Round, walk, step, answer, serve, service_orders, one_round, rounds, next,
  range,
}
use high_frequency_trading_e.Exchange.Quotes.{Shown, ConfigFits, reflect-Near}
use high_frequency_trading_e.Exchange.Feed.{Market}
use high_frequency_trading_e.Exchange.Refresh.{
  Spread, Open, opened, refresh_bid-Open, refresh_ask-Open,
}

walk-Open : {c : Config} {s : SimExchange} → ConfigFits c → Open c s → Open c (walk s).0
unfolding walk
walk-Open {c} {s} fits (log, k) =
    let w = k.walked in
    opened {log = log} (record {
      ready = record { framed = k.ready.framed; room = k.ready.room };
      walked = record {
        same_sym = w.same_sym;
        same_tick = w.same_tick;
        low = w.low;
        high = w.high;
        near = rw (w.low, w.high) (reflect-Near c _ fits.tick);
        near_bid = w.near_bid;
        near_ask = w.near_ask;
        bid_size = w.bid_size;
        ask_size = w.ask_size;
      };
      next_seq = k.next_seq;
      logged = k.logged;
    })

walk-Spread : {c : Config} (s : SimExchange) → ConfigFits c → s.tick ≡ c.tick → Spread c (walk s).2
unfolding walk
walk-Spread {c} s fits same =
    let cross = range (range (next s.rng).0 0 2).0 0 255 in
    let whole = fits.tick in
    elim (Bool-cases (cross.1 == 0)) [
      | inl crossed ↦ rw (crossed, same) (record { up = omega int_laws; down = omega int_laws })
      | inr usual ↦ rw (usual, same) (record { up = omega arith; down = omega arith })
    ]

step-Open :
    {c : Config} {s : SimExchange} (t0 t1 : ℕ)
    → ConfigFits c
    → t0 < 2 ^ 64
    → t1 < 2 ^ 64
    → Open c s
    → Open c (step s t0 t1)
unfolding step
step-Open {c} {s} t0 t1 fits h0 h1 o =
    let one = walk-Spread s fits o.1.walked.same_tick in
    let moved = walk-Open fits o in
    elim (Bool-cases (walk s).1) [
      | inl bid ↦ rw bid (refresh_bid-Open (walk s).2 t0 t1 fits one h0 h1 moved)
      | inr ask ↦ rw ask (refresh_ask-Open (walk s).2 t0 t1 fits one h0 h1 moved)
    ]

-- Orders have no effect on the feed.
orders-Market :
    {c : Config} {s : SimExchange} {log : List ItchMessage} {q : Shown} {fill_tx : List ExecReport}
    {order_rx : List (Option OrderRequest)} {order_count fill_count : ℕ}
    → Market c s log q
    → Market c
        (record s {
          fill_tx = fill_tx;
          order_rx = order_rx;
          order_count = order_count;
          fill_count = fill_count;
        })
        log
        q
orders-Market k = record {
  ready = record { framed = k.ready.framed; room = k.ready.room };
  walked = k.walked;
  next_seq = k.next_seq;
  logged = k.logged;
}

serve-Open :
    {c : Config} (n : ℕ) (s : SimExchange) (waiting : List (Option OrderRequest))
    → Open c s
    → Open c (serve n s waiting)
unfolding serve answer
serve-Open zero s waiting (log, k) = opened {log = log} (orders-Market k)
serve-Open (suc n) s [] (log, k) = opened {log = log} (orders-Market k)
serve-Open (suc n) s (none ∷ waiting) (log, k) = opened {log = log} (orders-Market k)
serve-Open (suc n) s (some o ∷ waiting) (log, k) =
    serve-Open n (answer s o) waiting (opened {log = log} (orders-Market k))

-- The readings of the clock are 64-bit numbers.
abbrev pub Timed : List Round → Type 0
Timed [] = Unit {0}
Timed (r ∷ rs) = (r.t0 < 2 ^ 64) × (r.t1 < 2 ^ 64) × Timed rs

one_round-Open :
    {c : Config} {s : SimExchange} (r : Round)
    → ConfigFits c
    → r.t0 < 2 ^ 64
    → r.t1 < 2 ^ 64
    → Open c s
    → Open c (one_round s r)
unfolding one_round service_orders
one_round-Open {c} {s} r fits h0 h1 o =
    let (log, k) = step-Open r.t0 r.t1 fits h0 h1 o in
    serve-Open 32 _ _ (opened {log = log} (orders-Market k))

pub rounds-Open :
    {c : Config} (s : SimExchange) (rs : List Round)
    → ConfigFits c
    → Timed rs
    → Open c s
    → Open c (rounds s rs)
unfolding rounds
rounds-Open s [] fits timed o = o
rounds-Open s (r ∷ rs) fits timed o =
    rounds-Open (one_round s r) rs fits timed.2 (one_round-Open r fits timed.0 timed.1 o)
