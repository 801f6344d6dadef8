-- ===== src/Exchange/Run.antt =====
-- The feed of a whole run, as a receiver reads it.
use high_frequency_trading_e.Prelude.{
  ℕ, ◌*◌, ◌%◌, ◌^◌, ◌≤◌, ◌<◌, ◌≡◌, refl, sym, ap, ◌∙◌, subst, List, [], arith, length, replicate,
  length-replicate,
}
use high_frequency_trading_e.Prelude.Int.{ℤ, pos_part, neg_part, int_laws}
use high_frequency_trading_e.Wire.{ItchMessage, MsgType, Side}
use high_frequency_trading_e.Wire.Codec.{msg_size}
use high_frequency_trading_e.Exchange.{
  Config, SimExchange, Round, new, clamp_batch, emit, flush, rounds, opening, run,
}
use high_frequency_trading_e.Exchange.Frames.{receive, AllWithin, flush-Framed}
use high_frequency_trading_e.Exchange.Ready.{flush-Ready, flush_fields, all_arrived, within_buffer}
use high_frequency_trading_e.Exchange.Quotes.{follow_all, ConfigFits}
use high_frequency_trading_e.Exchange.Feed.{
  WalkOf, Logged, Market, shown, nothing_shown, emit-Market, shown-emit,
}
use high_frequency_trading_e.Exchange.Refresh.{Open, opened, add_bid, add_ask}
use high_frequency_trading_e.Exchange.Rounds.{Timed, rounds-Open}

-- A flushed exchange: the datagrams that were sent hold every message, in order.
record Flushed (c : Config) (s : SimExchange) : Type 0 where
  log : List ItchMessage
  market : Market c s log (shown s)
  arrived : receive s.feed_tx ≡ log

flush-Flushed : {c : Config} {s : SimExchange} → Open c s → Flushed c (flush s)
flush-Flushed {c} {s} (log, k) =
    let (framed, none_left) = flush-Framed s k.ready.framed in
    let same = sym (flush_fields s) in
    record {
      log = log;
      market = record {
        ready = flush-Ready s k.ready.framed (omega (arith, k.ready.room));
        walked = subst (WalkOf c) same k.walked;
        next_seq = subst (λ x. x.seq ≡ length log % 2 ^ 32) same k.next_seq;
        logged = subst (λ x. Logged c log (shown x)) same k.logged;
      };
      arrived = all_arrived (flush s) framed none_left;
    }

clamp_batch_lem :
    (b : ℤ)
    → (1 ≤ pos_part (clamp_batch b))
      × (pos_part (clamp_batch b) ≤ 40)
      × (neg_part (clamp_batch b) ≡ 0)
unfolding clamp_batch
clamp_batch_lem b = (ground arith, ground arith, ground arith)

new-Market :
    (c : Config) (cycles now : ℕ)
    → ConfigFits c
    → Market c (record (new c cycles) { next_send = now }) [] nothing_shown
unfolding new follow_all receive
new-Market c cycles now fits =
    let (some_batch, small, whole_batch) = clamp_batch_lem c.batch in
    let whole = fits.tick in
    record {
      ready = record {
        framed = record {
          delivered = [];
          pending = [];
          rest = replicate (40 * msg_size) 0;
          whole = refl;
          arrived = refl;
          within = tt;
          buffered = refl;
          sized = length-replicate {A = ℕ} (40 * msg_size) 0;
          counted = refl;
          fit = tt;
          bounded = omega arith;
          positive = whole_batch;
          small = small;
        };
        room = omega (arith, some_batch);
      };
      walked = record {
        same_sym = refl;
        same_tick = refl;
        low = refl;
        high = refl;
        near = record { above = omega arith; below = omega arith };
        near_bid = record { above = omega int_laws; below = omega int_laws };
        near_ask = record { above = omega int_laws; below = omega int_laws };
        bid_size = (omega arith, omega arith);
        ask_size = (omega arith, omega arith);
      };
      next_seq = refl;
      logged = record { numbered = tt; followed = refl; priced = tt };
    }

opening-Open :
    (c : Config) (cycles now t0 t1 : ℕ)
    → ConfigFits c
    → t0 < 2 ^ 64
    → t1 < 2 ^ 64
    → Open c (opening (new c cycles) now t0 t1)
unfolding opening
opening-Open c cycles now t0 t1 fits h0 h1 =
    let s1 = record (new c cycles) { next_send = now } in
    let k1 = new-Market c cycles now fits in
    let s2 = emit s1 t0 MsgType.add Side.buy s1.best_bid s1.bid_sz in
    let k2 =
      emit-Market t0 MsgType.add Side.buy s1.best_bid s1.bid_sz fits h0 k1 k1.walked.near_bid
        k1.walked.bid_size (add_bid s1 t0 nothing_shown s1.best_bid s1.bid_sz) in
    let s3 = emit s2 t1 MsgType.add Side.sell s2.best_ask s2.ask_sz in
    let k3 =
      emit-Market t1 MsgType.add Side.sell s2.best_ask s2.ask_sz fits h1 k2 k2.walked.near_ask
        k2.walked.ask_size
        (add_ask s2 t1 (record nothing_shown { bid = (shown s1).bid }) s2.best_ask s2.ask_sz) in
    let same_bid =
      ap (λ x. record (shown s2) { bid = x.bid })
        (sym (shown-emit s1 t0 MsgType.add Side.buy s1.best_bid s1.bid_sz)) in
    let same = same_bid ∙ sym (shown-emit s2 t1 MsgType.add Side.sell s2.best_ask s2.ask_sz) in
    let k = flush-Flushed (opened (subst (Market c s3 _) same k3)) in opened k.market

-- From a configuration within its types, and with 64-bit readings of the clock, a whole run sends
-- datagrams of at most 40 messages. A receiver reads from them, without loss and in order, messages
-- that are numbered from 0, whose prices are at most 1501 ticks from the base price and whose sizes
-- are from 100 to 5000. They add to an empty side of the book or delete the very level that is
-- there, and leave one level a side: the quotes of the exchange.
pub run_feed :
    (c : Config) (cycles now t0 t1 : ℕ) (rs : List Round)
    → ConfigFits c
    → t0 < 2 ^ 64
    → t1 < 2 ^ 64
    → Timed rs
    → let s = run (new c cycles) now t0 t1 rs in
      Logged c (receive s.feed_tx) (shown s) × AllWithin (40 * msg_size) s.feed_tx
unfolding run
run_feed c cycles now t0 t1 rs fits h0 h1 timed =
    let last = rounds (opening (new c cycles) now t0 t1) rs in
    let k = flush-Flushed {c = c} {s = last} (
      rounds-Open (opening (new c cycles) now t0 t1) rs fits timed
        (opening-Open c cycles now t0 t1 fits h0 h1)) in
    (
      subst (λ l. Logged c l (shown (flush last))) (sym k.arrived) k.market.logged,
      within_buffer (flush last) k.market.ready.framed,
    )
