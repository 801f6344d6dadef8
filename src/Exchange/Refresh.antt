-- ===== src/Exchange/Refresh.antt =====
-- A refresh of either side deletes the level that is shown and adds the new one.
use high_frequency_trading_e.Prelude.{
  ℕ, ◌+◌, ◌^◌, ◌≤◌, ◌<◌, ◌≡◌, refl, sym, subst, true, List, [], ◌∷◌, ◌++◌, none, some, ==_iff,
}
use high_frequency_trading_e.Prelude.Int.{ℤ, pos_part, neg_part, int_laws}
use high_frequency_trading_e.Wire.{ItchMessage, MsgType, Side}
use high_frequency_trading_e.Exchange.{
  Config, SimExchange, message, emit, requote_bid, requote_ask, refresh_bid, refresh_ask,
}
use high_frequency_trading_e.Exchange.Quotes.{
  Shown, follow, follow_side, ConfigFits, next_size-le, eq_ℤ,
}
use high_frequency_trading_e.Exchange.Feed.{Market, shown, emit-Market, shown-emit}

same_price : (a : ℤ) → eq_ℤ a a ≡ true
same_price a = (==_iff _ _).1 refl

-- The messages fit what is shown.
module _ (s : SimExchange) (now : ℕ) where
  delete_bid :
      follow (shown s) (message s now MsgType.delete Side.buy s.best_bid s.bid_sz)
      ≡ some (record (shown s) { bid = none })
  unfolding follow follow_side message
  delete_bid = rw (same_price s.best_bid, (==_iff s.bid_sz s.bid_sz).1 refl) refl

  delete_ask :
      follow (shown s) (message s now MsgType.delete Side.sell s.best_ask s.ask_sz)
      ≡ some (record (shown s) { ask = none })
  unfolding follow follow_side message
  delete_ask = rw (same_price s.best_ask, (==_iff s.ask_sz s.ask_sz).1 refl) refl

  pub add_bid :
      (q : Shown) (px : ℤ) (size : ℕ)
      → follow (record q { bid = none }) (message s now MsgType.add Side.buy px size)
        ≡ some (record q { bid = some (px, size) })
  unfolding follow follow_side message
  add_bid q px size = refl

  pub add_ask :
      (q : Shown) (px : ℤ) (size : ℕ)
      → follow (record q { ask = none }) (message s now MsgType.add Side.sell px size)
        ≡ some (record q { ask = some (px, size) })
  unfolding follow follow_side message
  add_ask q px size = refl

-- A spread of one tick, either way.
pub record Spread (c : Config) (z : ℤ) : Type 0 where
  pub up : pos_part z ≤ neg_part z + pos_part c.tick
  pub down : neg_part z ≤ pos_part z + pos_part c.tick

module _ {c : Config} {s : SimExchange} {log : List ItchMessage} (spread : ℤ)
    (one : Spread c spread) where
  requote_bid-Market :
      Market c s log (record (shown s) { bid = none })
      → Market c (requote_bid s spread) log (record (shown (requote_bid s spread)) { bid = none })
  unfolding requote_bid
  requote_bid-Market k = record {
    ready = record { framed = k.ready.framed; room = k.ready.room };
    walked =
        let w = k.walked in
        record {
          same_sym = w.same_sym;
          same_tick = w.same_tick;
          low = w.low;
          high = w.high;
          near = w.near;
          near_bid = record {
            above = omega (int_laws, one.up, w.near.above);
            below = omega (int_laws, one.down, w.near.below);
          };
          bid_size = next_size-le s.rng;
          near_ask = w.near_ask;
          ask_size = w.ask_size;
        };
    next_seq = k.next_seq;
    logged = k.logged;
  }

  requote_ask-Market :
      Market c s log (record (shown s) { ask = none })
      → Market c (requote_ask s spread) log (record (shown (requote_ask s spread)) { ask = none })
  unfolding requote_ask
  requote_ask-Market k = record {
    ready = record { framed = k.ready.framed; room = k.ready.room };
    walked =
        let w = k.walked in
        record {
          same_sym = w.same_sym;
          same_tick = w.same_tick;
          low = w.low;
          high = w.high;
          near = w.near;
          near_ask = record {
            above = omega (int_laws, one.down, w.near.above);
            below = omega (int_laws, one.up, w.near.below);
          };
          ask_size = next_size-le s.rng;
          near_bid = w.near_bid;
          bid_size = w.bid_size;
        };
    next_seq = k.next_seq;
    logged = k.logged;
  }

-- Some log that shows the quotes.
abbrev pub Open : Config → SimExchange → Type 0
Open c s = (log : List ItchMessage) × Market c s log (shown s)

pub opened :
    {c : Config} {s : SimExchange} {log : List ItchMessage} → Market c s log (shown s) → Open c s
opened {log} k = (log, k)

-- `emit` with the quotes that it leaves alone.

delete_bid-Market :
    {c : Config} {s : SimExchange} {log : List ItchMessage} (now : ℕ)
    → ConfigFits c
    → now < 2 ^ 64
    → Market c s log (shown s)
    → let s' = emit s now MsgType.delete Side.buy s.best_bid s.bid_sz in
      Market c s'
        (log ++ message s now MsgType.delete Side.buy s.best_bid s.bid_sz ∷ [])
        (record (shown s') { bid = none })
delete_bid-Market {c} {s} {log} now fits time k =
    subst
      (λ x.
        Market c (emit s now MsgType.delete Side.buy s.best_bid s.bid_sz)
          (log ++ message s now MsgType.delete Side.buy s.best_bid s.bid_sz ∷ [])
          (record x { bid = none }))
      (sym (shown-emit s now MsgType.delete Side.buy s.best_bid s.bid_sz))
      (emit-Market now MsgType.delete Side.buy s.best_bid s.bid_sz fits time k k.walked.near_bid
        k.walked.bid_size (delete_bid s now))

add_bid-Market :
    {c : Config} {s : SimExchange} {log : List ItchMessage} (now : ℕ)
    → ConfigFits c
    → now < 2 ^ 64
    → Market c s log (record (shown s) { bid = none })
    → let s' = emit s now MsgType.add Side.buy s.best_bid s.bid_sz in
      Market c s' (log ++ message s now MsgType.add Side.buy s.best_bid s.bid_sz ∷ []) (shown s')
add_bid-Market {c} {s} {log} now fits time k =
    subst
      (Market c (emit s now MsgType.add Side.buy s.best_bid s.bid_sz)
        (log ++ message s now MsgType.add Side.buy s.best_bid s.bid_sz ∷ []))
      (sym (shown-emit s now MsgType.add Side.buy s.best_bid s.bid_sz))
      (emit-Market now MsgType.add Side.buy s.best_bid s.bid_sz fits time k k.walked.near_bid
        k.walked.bid_size (add_bid s now (shown s) s.best_bid s.bid_sz))

pub refresh_bid-Open :
    {c : Config} {s : SimExchange} (spread : ℤ) (t0 t1 : ℕ)
    → ConfigFits c
    → Spread c spread
    → t0 < 2 ^ 64
    → t1 < 2 ^ 64
    → Open c s
    → Open c (refresh_bid s spread t0 t1)
unfolding refresh_bid
refresh_bid-Open spread t0 t1 fits one h0 h1 (log, k) =
    opened
      (add_bid-Market t1 fits h1 (requote_bid-Market spread one (delete_bid-Market t0 fits h0 k)))

delete_ask-Market :
    {c : Config} {s : SimExchange} {log : List ItchMessage} (now : ℕ)
    → ConfigFits c
    → now < 2 ^ 64
    → Market c s log (shown s)
    → let s' = emit s now MsgType.delete Side.sell s.best_ask s.ask_sz in
      Market c s'
        (log ++ message s now MsgType.delete Side.sell s.best_ask s.ask_sz ∷ [])
        (record (shown s') { ask = none })
delete_ask-Market {c} {s} {log} now fits time k =
    subst
      (λ x.
        Market c (emit s now MsgType.delete Side.sell s.best_ask s.ask_sz)
          (log ++ message s now MsgType.delete Side.sell s.best_ask s.ask_sz ∷ [])
          (record x { ask = none }))
      (sym (shown-emit s now MsgType.delete Side.sell s.best_ask s.ask_sz))
      (emit-Market now MsgType.delete Side.sell s.best_ask s.ask_sz fits time k k.walked.near_ask
        k.walked.ask_size (delete_ask s now))

add_ask-Market :
    {c : Config} {s : SimExchange} {log : List ItchMessage} (now : ℕ)
    → ConfigFits c
    → now < 2 ^ 64
    → Market c s log (record (shown s) { ask = none })
    → let s' = emit s now MsgType.add Side.sell s.best_ask s.ask_sz in
      Market c s' (log ++ message s now MsgType.add Side.sell s.best_ask s.ask_sz ∷ []) (shown s')
add_ask-Market {c} {s} {log} now fits time k =
    subst
      (Market c (emit s now MsgType.add Side.sell s.best_ask s.ask_sz)
        (log ++ message s now MsgType.add Side.sell s.best_ask s.ask_sz ∷ []))
      (sym (shown-emit s now MsgType.add Side.sell s.best_ask s.ask_sz))
      (emit-Market now MsgType.add Side.sell s.best_ask s.ask_sz fits time k k.walked.near_ask
        k.walked.ask_size (add_ask s now (shown s) s.best_ask s.ask_sz))

pub refresh_ask-Open :
    {c : Config} {s : SimExchange} (spread : ℤ) (t0 t1 : ℕ)
    → ConfigFits c
    → Spread c spread
    → t0 < 2 ^ 64
    → t1 < 2 ^ 64
    → Open c s
    → Open c (refresh_ask s spread t0 t1)
unfolding refresh_ask
refresh_ask-Open spread t0 t1 fits one h0 h1 (log, k) =
    opened
      (add_ask-Market t1 fits h1 (requote_ask-Market spread one (delete_ask-Market t0 fits h0 k)))
