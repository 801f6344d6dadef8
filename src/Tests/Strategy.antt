-- ===== src/Tests/Strategy.antt =====
-- Instances of the strategy's theorems.
use high_frequency_trading_e.Prelude.{ℕ, ◌≡◌, ◌⊎◌, refl, some}
use high_frequency_trading_e.Prelude.Int.{ℤ, pos}
use high_frequency_trading_e.Prelude.Int
use high_frequency_trading_e.Wire.{MdEvent}
use high_frequency_trading_e.Book
use high_frequency_trading_e.Strategy
use high_frequency_trading_e.Strategy.{ImbalanceStrategy, StrategyParams, new, seen, on_md}
use high_frequency_trading_e.Strategy.Decision.{Decided, on_md-Decided}
use high_frequency_trading_e.Strategy.Position.{
  Session, Reach, Step, start, neg, is_some, after_md, position_bounded,
}

-- A threshold of one half, and orders of 40.
abbrev params : StrategyParams
params = record {
  base_price = pos 1_000;
  tick = pos 10;
  threshold_num = pos 8_192;
  order_size = 40;
}

abbrev quote : ℕ → ℤ → ℕ → MdEvent
quote side price size = record {
  msg = record {
    timestamp = 1;
    price = price;
    symbol = 7;
    size = size;
    seq = 1;
    type_byte = b'A';
    side = side;
    flags = 0;
  };
  arrival_tsc = 9;
}

abbrev bid_quoted : Session
bid_quoted = after_md (start 8 params) (quote b'B' (pos 1_030) 90)

abbrev ask_quoted : Session
ask_quoted = after_md bid_quoted (quote b'S' (pos 1_040) 20)

quoted : Reach (start 8 params) ask_quoted
quoted =
    Reach.later (Reach.later Reach.here (Step.md (quote b'B' (pos 1_030) 90)))
      (Step.md (quote b'S' (pos 1_040) 20))

-- A bid is quoted.
abbrev one_sided : ImbalanceStrategy
one_sided = record bid_quoted.strat { thr_num = pos 8_192 }

-- The ask arrives: the strategy buys.
on_md-Decided_example :
    let ev = quote b'S' (pos 1_040) 20 in Decided (seen one_sided ev) ev 8_192 (on_md one_sided ev)
on_md-Decided_example = on_md-Decided one_sided (quote b'S' (pos 1_040) 20) 8_192 refl

-- It does: the order is at the best bid.
buys_at_bid :
    (on_md one_sided (quote b'S' (pos 1_040) 20)).1
    ≡ some (record {
      order_id = 1;
      md_timestamp = 9;
      price = pos 1_030;
      symbol = 7;
      size = 40;
      side = b'B';
      action = b'N';
      flags = 0;
      pad = 0;
    })
unfolding new on_md Strategy.decide Strategy.want_buy Strategy.buy_signal Strategy.build_order
    Book.new Book.two_sided Book.apply Book.apply_index Book.to_index Book.apply_at Book.add_size
    Book.on_size_increased Book.saturating_add Book.best_bid_size Book.best_ask_size
    Book.best_bid_price Book.best_ask_price Book.price_at Book.has_bid Book.has_ask Int.to_int32
    Int.div_trunc Int.◌-ℤ◌ Int.◌+ℤ◌ Int.◌*ℤ◌
buys_at_bid = refl

position_bounded_example :
    ((ask_quoted.strat.position ≡ pos 0)
      ⊎ (ask_quoted.strat.position ≡ pos 40)
      ⊎ (ask_quoted.strat.position ≡ neg 40))
    × (ask_quoted.strat.in_flight ≡ is_some ask_quoted.out)
position_bounded_example = position_bounded 8_192 8 params refl quoted
