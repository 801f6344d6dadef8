-- ===== src/Tests/Feed.antt =====
-- An instance of the theorem on the feed handler: a datagram of two messages, and a ring of four.
use high_frequency_trading_e.Prelude.{ℕ, take, ◌++◌, ◌<◌, ◌^◌, List, [], ◌∷◌, arith}
use high_frequency_trading_e.Prelude.Int.{pos}
use high_frequency_trading_e.Wire.{ItchMessage, MsgType, Side, msg_type_byte, side_byte}
use high_frequency_trading_e.Wire.Codec.{Fits, encode_all, AllFit}
use high_frequency_trading_e.Histogram
use high_frequency_trading_e.Spsc
use high_frequency_trading_e.Feed.{FeedHandler, poll_once}
use high_frequency_trading_e.Feed.Ring.{Ring, ring_queue}
use high_frequency_trading_e.Feed.Delivery.{Delivered, poll_once-Delivered}

abbrev handler : FeedHandler
handler = record { latency = Histogram.new 1_000 5; received = 3; pushed = 2; dropped = 1 }

abbrev quote : ItchMessage
quote = record {
  timestamp = 9;
  price = pos 1_010;
  symbol = 7;
  size = 300;
  seq = 4;
  type_byte = msg_type_byte MsgType.add;
  side = side_byte Side.buy;
  flags = 0;
}

abbrev quotes : List ItchMessage
quotes = quote ∷ record quote { seq = 5 } ∷ []

abbrev ring : Ring
ring = record { queue = Spsc.new 2 (record { msg = quote; arrival_tsc = 0 }); log = [] }

quote-Fits : (n : ℕ) → n < 2 ^ 32 → Fits (record quote { seq = n })
quote-Fits n h = record {
  timestamp = omega arith;
  price = omega arith;
  symbol = omega arith;
  size = omega arith;
  seq = h;
  type_byte = omega arith;
  side = omega arith;
  flags = omega arith;
}

quotes-Fit : AllFit quotes
quotes-Fit = (quote-Fits 4 (omega arith), (quote-Fits 5 (omega arith), tt))

poll_once-Delivered_example :
    Delivered ring_queue handler ring 50
      (take 64 quotes)
      (poll_once ring_queue handler ring (encode_all quotes ++ 1 ∷ []) 50 (12 ∷ 14 ∷ []))
poll_once-Delivered_example =
    poll_once-Delivered ring_queue handler ring 50 quotes (1 ∷ []) (12 ∷ 14 ∷ []) quotes-Fit
      (omega arith) (omega arith) (omega arith) (omega arith)
