-- ===== src/Exchange.antt =====
-- include/hft/sim_exchange.hpp: the simulated exchange. A reading of the clock is an argument of what
-- stamps it, after the wait for `next_send` that has no other effect. A socket is what it has sent,
-- oldest first, or what waits in it; the endpoints it sends to are left out. The cycles between
-- two messages, a floating-point result, are an argument of the constructor.
pub mod Frames
pub mod Ready
pub mod Quotes
pub mod Feed
pub mod Refresh
pub mod Rounds
pub mod Run
pub mod Orders
use Prim.Native.Nat.{bit_and, bit_xor}
use high_frequency_trading_e.Prelude.{
  ℕ, zero, suc, ◌+◌, ◌-◌, ◌*◌, ◌/◌, ◌%◌, ◌^◌, Bool, true, false, List, [], ◌∷◌, ◌++◌, Option, none,
  some, leb, ltb, ◌==◌, if◌then◌else◌, length, take, drop, replicate,
}
use high_frequency_trading_e.Prelude.Int.{ℤ, pos, ◌+ℤ◌, ◌-ℤ◌, ◌*ℤ◌, ltb_ℤ}
use high_frequency_trading_e.Wire.{
  MsgType, msg_type_byte, Side, side_byte, ItchMessage, OrderRequest, ExecReport, ExecStatus,
  exec_status_byte,
}
use high_frequency_trading_e.Wire.Codec.{encode_message, msg_size}

pub record Rng : Type 0 where
  pub s0 : ℕ
  pub s1 : ℕ

unfoldable pub seeded : ℕ → Rng
seeded seed = record {
  s0 = bit_xor seed 0x9E3779B97F4A7C15;
  s1 = (seed * 0xD1B54A32D192ED03 + 1) % 2 ^ 64;
}

-- `x ^= x << 23`
abbrev pub shifted : ℕ → ℕ
shifted x = bit_xor x (x * 2 ^ 23 % 2 ^ 64)

unfoldable pub next : Rng → Rng × ℕ
next r =
    let x = shifted r.s0 in
    let s1 = bit_xor (bit_xor (bit_xor x r.s1) (x / 2 ^ 17)) (r.s1 / 2 ^ 26) in
    (record { s0 = r.s1; s1 = s1 }, (s1 + r.s1) % 2 ^ 64)

-- The width `hi - lo + 1` is a 32-bit number.
unfoldable pub range : Rng → ℕ → ℕ → Rng × ℕ
range r lo hi =
    let n = next r in (n.0, (lo + n.1 % ((hi + 2 ^ 32 - lo + 1) % 2 ^ 32) % 2 ^ 32) % 2 ^ 32)

pub record Config : Type 0 where
  pub symbol : ℕ
  pub batch : ℤ
  pub seed : ℕ
  pub base_price : ℤ
  pub tick : ℤ

pub record SimExchange : Type 0 where
  pub feed_tx : List (List ℕ)
  pub fill_tx : List ExecReport
  pub order_rx : List (Option OrderRequest)
  pub sym : ℕ
  pub batch : ℤ
  pub tick : ℤ
  pub rng : Rng
  pub mid : ℤ
  pub best_bid : ℤ
  pub best_ask : ℤ
  pub mid_lo : ℤ
  pub mid_hi : ℤ
  pub bid_sz : ℕ
  pub ask_sz : ℕ
  pub seq : ℕ
  pub cycles_per_msg : ℕ
  pub next_send : ℕ
  pub dgram : List ℕ
  pub dgram_msgs : ℕ
  pub feed_count : ℕ
  pub order_count : ℕ
  pub fill_count : ℕ

unfoldable pub clamp_batch : ℤ → ℤ
clamp_batch b = if ltb_ℤ b (pos 1) then pos 1 else if ltb_ℤ (pos 40) b then pos 40 else b

unfoldable pub new : Config → ℕ → SimExchange
new c cycles_per_msg = record {
  feed_tx = [];
  fill_tx = [];
  order_rx = [];
  sym = c.symbol;
  batch = clamp_batch c.batch;
  tick = c.tick;
  rng = seeded c.seed;
  mid = c.base_price;
  best_bid = c.base_price -ℤ c.tick;
  best_ask = c.base_price +ℤ c.tick;
  mid_lo = c.base_price -ℤ pos 1_500 *ℤ c.tick;
  mid_hi = c.base_price +ℤ pos 1_500 *ℤ c.tick;
  bid_sz = 500;
  ask_sz = 500;
  seq = 0;
  cycles_per_msg = cycles_per_msg;
  next_send = 0;
  dgram = replicate (40 * msg_size) 0;
  dgram_msgs = 0;
  feed_count = 0;
  order_count = 0;
  fill_count = 0;
}

unfoldable pub flush : SimExchange → SimExchange
flush s =
    if ltb 0 s.dgram_msgs
    then record s {
      feed_tx = s.feed_tx ++ take (s.dgram_msgs * msg_size) s.dgram ∷ [];
      dgram_msgs = 0;
    }
    else s

-- the message that `emit` builds; `now` is its `tsc_now()`
unfoldable pub message : SimExchange → ℕ → MsgType → Side → ℤ → ℕ → ItchMessage
message s now type side px size = record {
  timestamp = now;
  price = px;
  symbol = s.sym;
  size = size;
  seq = s.seq;
  type_byte = msg_type_byte type;
  side = side_byte side;
  flags = 0;
}

-- `memcpy` of `bytes` into a buffer at an offset
unfoldable pub write_at : List ℕ → ℕ → List ℕ → List ℕ
write_at buffer offset bytes = take offset buffer ++ bytes ++ drop (offset + length bytes) buffer

-- `emit` up to its last test
unfoldable pub append : SimExchange → ItchMessage → SimExchange
append s m = record s {
  next_send =
      if s.cycles_per_msg == 0 then s.next_send else (s.next_send + s.cycles_per_msg) % 2 ^ 64;
  seq = (s.seq + 1) % 2 ^ 32;
  dgram = write_at s.dgram (s.dgram_msgs * msg_size) (encode_message m);
  dgram_msgs = s.dgram_msgs + 1;
  feed_count = (s.feed_count + 1) % 2 ^ 64;
}

-- the test `dgram_msgs_ >= batch_`
abbrev pub is_full : SimExchange → Bool
is_full s = if ltb_ℤ (pos s.dgram_msgs) s.batch then false else true

unfoldable pub emit : SimExchange → ℕ → MsgType → Side → ℤ → ℕ → SimExchange
emit s now type side px size =
    let s' = append s (message s now type side px size) in if is_full s' then flush s' else s'

-- the two arms of the size of a level
unfoldable pub next_size : Rng → Rng × ℕ
next_size r = let d = range r 0 15 in if d.1 == 0 then range d.0 2_000 5_000 else range d.0 100 800

unfoldable pub requote_bid : SimExchange → ℤ → SimExchange
requote_bid s spread =
    let d = next_size s.rng in record s { best_bid = s.mid -ℤ spread; rng = d.0; bid_sz = d.1 }

unfoldable pub requote_ask : SimExchange → ℤ → SimExchange
requote_ask s spread =
    let d = next_size s.rng in record s { best_ask = s.mid +ℤ spread; rng = d.0; ask_sz = d.1 }

unfoldable pub refresh_bid : SimExchange → ℤ → ℕ → ℕ → SimExchange
refresh_bid s spread t0 t1 =
    let s1 = requote_bid (emit s t0 MsgType.delete Side.buy s.best_bid s.bid_sz) spread in
    emit s1 t1 MsgType.add Side.buy s1.best_bid s1.bid_sz

unfoldable pub refresh_ask : SimExchange → ℤ → ℕ → ℕ → SimExchange
refresh_ask s spread t0 t1 =
    let s1 = requote_ask (emit s t0 MsgType.delete Side.sell s.best_ask s.ask_sz) spread in
    emit s1 t1 MsgType.add Side.sell s1.best_ask s1.ask_sz

-- the two `if`s that keep the mid in its band
unfoldable pub reflect : ℤ → ℤ → ℤ → ℤ
reflect lo hi mid = let low = if ltb_ℤ mid lo then lo else mid in if ltb_ℤ hi low then hi else low

-- The draws of `step` and the move of the mid: the side to refresh, and the spread.
unfoldable pub walk : SimExchange → SimExchange × Bool × ℤ
walk s =
    let side = next s.rng in
    let move = range side.0 0 2 in
    let cross = range move.0 0 255 in
    (
      record s {
        rng = cross.0;
        mid = reflect s.mid_lo s.mid_hi (s.mid +ℤ (pos move.1 -ℤ pos 1) *ℤ s.tick);
      },
      (if bit_and side.1 1 == 0 then false else true),
      if cross.1 == 0 then pos 0 -ℤ s.tick else s.tick,
    )

unfoldable pub step : SimExchange → ℕ → ℕ → SimExchange
step s t0 t1 =
    let (s1, do_bid, spread) = walk s in
    if do_bid then refresh_bid s1 spread t0 t1 else refresh_ask s1 spread t0 t1

-- the report that answers an order
unfoldable pub report_of : OrderRequest → ExecReport
report_of o = record {
  order_id = o.order_id;
  md_timestamp = o.md_timestamp;
  fill_price = o.price;
  symbol = o.symbol;
  fill_size = o.size;
  side = o.side;
  status = exec_status_byte ExecStatus.filled;
  flags = 0;
  pad = 0;
}

unfoldable pub answer : SimExchange → OrderRequest → SimExchange
answer s o = record s {
  order_count = (s.order_count + 1) % 2 ^ 64;
  fill_tx = s.fill_tx ++ report_of o ∷ [];
  fill_count = (s.fill_count + 1) % 2 ^ 64;
}

-- The loop of `service_orders` over what waits in the order socket: the first argument is the rounds
-- left of 32. A datagram of another size than an order is `none`; it is taken and ends the loop.
unfoldable pub serve : ℕ → SimExchange → List (Option OrderRequest) → SimExchange
serve zero s waiting = record s { order_rx = waiting }
serve (suc rounds) s [] = record s { order_rx = [] }
serve (suc rounds) s (none ∷ waiting) = record s { order_rx = waiting }
serve (suc rounds) s (some o ∷ waiting) = serve rounds (answer s o) waiting

unfoldable pub service_orders : SimExchange → SimExchange
service_orders s = serve 32 s s.order_rx

-- One round of the loop of `run`: the stamps of its two messages, and what reaches the order socket
-- before its orders are served.
pub record Round : Type 0 where
  pub t0 : ℕ
  pub t1 : ℕ
  pub arrived : List (Option OrderRequest)

unfoldable pub one_round : SimExchange → Round → SimExchange
one_round s r =
    let s1 = step s r.t0 r.t1 in service_orders (record s1 { order_rx = s1.order_rx ++ r.arrived })

unfoldable pub rounds : SimExchange → List Round → SimExchange
rounds s [] = s
rounds s (r ∷ rs) = rounds (one_round s r) rs

-- `run` before its loop
unfoldable pub opening : SimExchange → ℕ → ℕ → ℕ → SimExchange
opening s now t0 t1 =
    let s1 = record s { next_send = now } in
    let s2 = emit s1 t0 MsgType.add Side.buy s1.best_bid s1.bid_sz in
    flush (emit s2 t1 MsgType.add Side.sell s2.best_ask s2.ask_sz)

-- `run`: the loop ends when the flag is cleared, after some list of rounds.
unfoldable pub run : SimExchange → ℕ → ℕ → ℕ → List Round → SimExchange
run s now t0 t1 rs = flush (rounds (opening s now t0 t1) rs)
