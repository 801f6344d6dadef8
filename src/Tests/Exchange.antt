-- ===== src/Tests/Exchange.antt =====
-- Instances of the theorems on the simulated exchange: three messages a datagram.
use high_frequency_trading_e.Prelude.{◌*◌, ◌≡◌, refl, List, [], ◌∷◌, none, some, arith}
use high_frequency_trading_e.Prelude.Int.{pos}
use high_frequency_trading_e.Wire.{OrderRequest}
use high_frequency_trading_e.Wire.Codec.{msg_size}
use high_frequency_trading_e.Exchange.{Config, SimExchange, Round, new, run}
use high_frequency_trading_e.Exchange.Frames.{receive, AllWithin}
use high_frequency_trading_e.Exchange.Quotes.{ConfigFits}
use high_frequency_trading_e.Exchange.Feed.{Logged, shown}
use high_frequency_trading_e.Exchange.Rounds.{Timed}
use high_frequency_trading_e.Exchange.Run.{run_feed}
use high_frequency_trading_e.Exchange.Orders.{first_orders, Counting}

abbrev config : Config
config = record { symbol = 7; batch = pos 3; seed = 42; base_price = pos 1_000_000; tick = pos 100 }

config-Fits : ConfigFits config
config-Fits = record { symbol = omega arith; tick = refl; high = omega arith; low = omega arith }

abbrev buy_order : OrderRequest
buy_order = record {
  order_id = 1;
  md_timestamp = 5;
  price = pos 1_010;
  symbol = 7;
  size = 60;
  side = b'B';
  action = b'N';
  flags = 0;
  pad = 0;
}

abbrev session : List Round
session =
    record { t0 = 30; t1 = 31; arrived = [] }
    ∷ record { t0 = 40; t1 = 41; arrived = some buy_order ∷ [] }
    ∷ []

session-Timed : Timed session
session-Timed = (omega arith, omega arith, (omega arith, omega arith, tt))

run_feed_example :
    let s = run (new config 0) 10 20 21 session in
    Logged config (receive s.feed_tx) (shown s) × AllWithin (40 * msg_size) s.feed_tx
run_feed_example =
    run_feed config 0 10 20 21 session config-Fits (omega arith) (omega arith) session-Timed

-- An order, a datagram of another size, and a second order.
abbrev waiting_orders : SimExchange
waiting_orders = record (new config 0) { order_rx = some buy_order ∷ none ∷ some buy_order ∷ [] }

waiting_orders-Counting : Counting waiting_orders
unfolding new
waiting_orders-Counting = record { orders = omega arith; fills = omega arith }

one_answered : first_orders 32 waiting_orders.order_rx ≡ buy_order ∷ []
unfolding first_orders
one_answered = refl
