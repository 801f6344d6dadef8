-- ===== src/Exchange/Feed.antt =====
-- What holds between two messages of the feed, and that `emit` keeps it.
use high_frequency_trading_e.Prelude.{
  ℕ, ◌%◌, ◌^◌, ◌≤◌, ◌<◌, ◌≡◌, sym, ap, ◌∙◌, subst, List, [], ◌∷◌, ◌++◌, none, some, arith, length,
  length-append,
}
use high_frequency_trading_e.Prelude.Int.{ℤ, pos, ◌+ℤ◌, ◌-ℤ◌, ◌*ℤ◌}
use high_frequency_trading_e.Wire.{ItchMessage, MsgType, Side, msg_type_byte, side_byte}
use high_frequency_trading_e.Exchange.{Config, SimExchange, message, append, emit}
use high_frequency_trading_e.Exchange.Ready.{Ready, emit-Ready, emit_fields}
use high_frequency_trading_e.Exchange.Quotes.{
  Shown, follow, follow_all, follow_all-append, Numbered, Numbered-append, Near, ConfigFits,
  Near-InInt64,
}

-- The sizes that the exchange quotes.
abbrev pub Quoted : ℕ → Type 0
Quoted size = (100 ≤ size) × (size ≤ 5_000)

abbrev pub AllPriced : Config → List ItchMessage → Type 0
AllPriced c [] = Unit {0}
AllPriced c (m ∷ ms) = (Near c 1_501 m.price × Quoted m.size) × AllPriced c ms

AllPriced-append :
    (c : Config) (ms : List ItchMessage) (m : ItchMessage)
    → AllPriced c ms
    → Near c 1_501 m.price
    → Quoted m.size
    → AllPriced c (ms ++ m ∷ [])
AllPriced-append c [] m all n q = ((n, q), tt)
AllPriced-append c (x ∷ ms) m all n q = (all.0, AllPriced-append c ms m all.1 n q)

pub record Walk (c : Config) (sym : ℕ) (tick mid lo hi bid ask : ℤ) (bid_sz ask_sz : ℕ)
    : Type 0 where
  pub same_sym : sym ≡ c.symbol
  pub same_tick : tick ≡ c.tick
  pub low : lo ≡ c.base_price -ℤ pos 1_500 *ℤ c.tick
  pub high : hi ≡ c.base_price +ℤ pos 1_500 *ℤ c.tick
  pub near : Near c 1_500 mid
  pub near_bid : Near c 1_501 bid
  pub near_ask : Near c 1_501 ask
  pub bid_size : Quoted bid_sz
  pub ask_size : Quoted ask_sz

abbrev pub WalkOf : Config → SimExchange → Type 0
WalkOf c s = Walk c s.sym s.tick s.mid s.mid_lo s.mid_hi s.best_bid s.best_ask s.bid_sz s.ask_sz

abbrev pub nothing_shown : Shown
nothing_shown = record { bid = none; ask = none }

-- The quotes of the exchange, as levels.
abbrev pub shown : SimExchange → Shown
shown s = record { bid = some (s.best_bid, s.bid_sz); ask = some (s.best_ask, s.ask_sz) }

-- `log` is what was emitted: numbered, priced in the band, and it shows `q`.
pub record Logged (c : Config) (log : List ItchMessage) (q : Shown) : Type 0 where
  pub numbered : Numbered 0 log
  pub followed : follow_all (some nothing_shown) log ≡ some q
  pub priced : AllPriced c log

pub record Market (c : Config) (s : SimExchange) (log : List ItchMessage) (q : Shown) : Type 0 where
  pub ready : Ready s log
  pub walked : WalkOf c s
  pub next_seq : s.seq ≡ length log % 2 ^ 32
  pub logged : Logged c log q

type_byte_small : (t : MsgType) → msg_type_byte t < 2 ^ 8
type_byte_small MsgType.unknown = omega arith
type_byte_small MsgType.add = omega arith
type_byte_small MsgType.execute = omega arith
type_byte_small MsgType.cancel = omega arith
type_byte_small MsgType.delete = omega arith
type_byte_small MsgType.trade = omega arith

side_byte_small : (s : Side) → side_byte s < 2 ^ 8
side_byte_small Side.none = omega arith
side_byte_small Side.buy = omega arith
side_byte_small Side.sell = omega arith

pub emit-Market :
    {c : Config} {s : SimExchange} {log : List ItchMessage} {q q' : Shown} (now : ℕ)
    (type : MsgType) (side : Side) (px : ℤ) (size : ℕ)
    → ConfigFits c
    → now < 2 ^ 64
    → Market c s log q
    → Near c 1_501 px
    → Quoted size
    → follow q (message s now type side px size) ≡ some q'
    → Market c (emit s now type side px size) (log ++ message s now type side px size ∷ []) q'
unfolding message append
emit-Market {c} {s} {log} {q} {q'} now type side px size fits time k near quoted shows =
    let m = message s now type side px size in
    let same = sym (emit_fields s now type side px size) in
    let w = k.walked in
    record {
      ready = emit-Ready s now type side px size k.ready (record {
        timestamp = time;
        price = Near-InInt64 px fits near;
        symbol = omega (arith, fits.symbol, w.same_sym);
        size = omega (arith, quoted.1);
        seq = omega (arith, k.next_seq);
        type_byte = type_byte_small type;
        side = side_byte_small side;
        flags = omega arith;
      });
      walked = subst (WalkOf c) same w;
      next_seq =
          subst (λ x. x.seq ≡ length (log ++ m ∷ []) % 2 ^ 32) same
            (omega (arith, k.next_seq, length-append log (m ∷ [])));
      logged = record {
        numbered = Numbered-append 0 log m k.logged.numbered (omega (arith, k.next_seq));
        followed = follow_all-append (some nothing_shown) log m q k.logged.followed ∙ shows;
        priced = AllPriced-append c log m k.logged.priced near quoted;
      };
    }

pub shown-emit :
    (s : SimExchange) (now : ℕ) (type : MsgType) (side : Side) (px : ℤ) (size : ℕ)
    → shown (emit s now type side px size) ≡ shown s
unfolding append
shown-emit s now type side px size = ap shown (emit_fields s now type side px size)
