-- ===== src/Strategy/Position.antt =====
-- The life of an order as the strategy sees it: market data and fills in any order, each fill for
-- the whole of the order that is out.
use high_frequency_trading_e.Prelude.{
  ℕ, ◌≡◌, refl, ◌⊎◌, inl, inr, Bool, true, false, Option, none, some, arith, if◌then◌else◌, subst,
}
use high_frequency_trading_e.Prelude.Int.{ℤ, pos, ◌≤ℤ◌, ◌+ℤ◌, ◌-ℤ◌}
use high_frequency_trading_e.Wire.{MdEvent, OrderRequest, ExecReport, is_buy}
use high_frequency_trading_e.Strategy.{ImbalanceStrategy, StrategyParams, new, seen, on_md, on_fill}
use high_frequency_trading_e.Strategy.Decision.{
  Decided, buys, sells, holds, placed, bought, sold, on_md-Decided,
}

-- A strategy and its order that has not been answered.
pub record Session : Type 0 where
  pub strat : ImbalanceStrategy
  pub out : Option OrderRequest

abbrev pub or_else : Option OrderRequest → Option OrderRequest → Option OrderRequest
or_else none old = old
or_else (some o) old = some o

abbrev pub after_md : Session → MdEvent → Session
after_md x ev = record { strat = (on_md x.strat ev).0; out = or_else (on_md x.strat ev).1 x.out }

pub data Step (x : Session) : Session → Type 0 where
  md : (ev : MdEvent) → Step x (after_md x ev)
  fill :
      (o : OrderRequest) (r : ExecReport)
      → x.out ≡ some o
      → r.side ≡ o.side
      → r.fill_size ≡ o.size
      → Step x (record { strat = on_fill x.strat r; out = none })

pub data Reach (start : Session) : Session → Type 0 where
  here : Reach start start
  later : {x y : Session} → Reach start x → Step x y → Reach start y

abbrev pub neg : ℕ → ℤ
neg q = pos 0 -ℤ pos q

-- What the order that is out leaves room for.
abbrev pub Room : ℕ → ℤ → Option OrderRequest → Type 0
Room q p none = (p ≡ pos 0) ⊎ (p ≡ pos q) ⊎ (p ≡ neg q)
Room q p (some o) =
    (o.size ≡ q)
    × (((o.side ≡ b'B') × ((p ≡ pos 0) ⊎ (p ≡ neg q)))
        ⊎ ((o.side ≡ b'S') × ((p ≡ pos 0) ⊎ (p ≡ pos q))))

abbrev pub is_some : Option OrderRequest → Bool
is_some none = false
is_some (some o) = true

pub record Inv (t q : ℕ) (x : Session) : Type 0 where
  pub threshold : x.strat.thr_num ≡ pos t
  pub size : x.strat.order_size ≡ q
  pub latch : x.strat.in_flight ≡ is_some x.out
  pub room : Room q x.strat.position x.out

buy-Room : (q : ℕ) (p : ℤ) → p ≤ℤ pos 0 → Room q p none → (p ≡ pos 0) ⊎ (p ≡ neg q)
unfolding ◌-ℤ◌
buy-Room q p h (inl e) = inl e
buy-Room q p h (inr (inl e)) = inl (ground arith)
buy-Room q p h (inr (inr e)) = inr e

sell-Room : (q : ℕ) (p : ℤ) → pos 0 ≤ℤ p → Room q p none → (p ≡ pos 0) ⊎ (p ≡ pos q)
unfolding ◌-ℤ◌
sell-Room q p h (inl e) = inl e
sell-Room q p h (inr (inl e)) = inr e
sell-Room q p h (inr (inr e)) = inl (ground arith)

idle-Room :
    (q : ℕ) (p : ℤ) (out : Option OrderRequest) (flag : Bool)
    → flag ≡ is_some out
    → flag ≡ false
    → Room q p out
    → Room q p none
idle-Room q p none flag e idle r = r
idle-Room q p (some o) flag e idle r = cc

module _ (t q : ℕ) (x : Session) (ev : MdEvent) (v : Inv t q x) where
  idle : x.strat.in_flight ≡ false → Room q x.strat.position none
  idle = λ free. idle-Room q x.strat.position x.out x.strat.in_flight v.latch free v.room

  sent-Inv :
      (o : OrderRequest)
      → Room q x.strat.position (some o)
      → Inv t q (record { strat = placed (seen x.strat ev); out = some o })
  sent-Inv o r = record { threshold = v.threshold; size = v.size; latch = refl; room = r }

  md-Inv :
      (r : ImbalanceStrategy × Option OrderRequest)
      → Decided (seen x.strat ev) ev t r
      → Inv t q (record { strat = r.0; out = or_else r.1 x.out })
  md-Inv r (buys b e) = rw e (
      sent-Inv (bought (seen x.strat ev) ev)
        (v.size, inl (refl, buy-Room q x.strat.position b.room (idle b.idle))))
  md-Inv r (sells k e) = rw e (
      sent-Inv (sold (seen x.strat ev) ev)
        (v.size, inr (refl, sell-Room q x.strat.position k.room (idle k.idle))))
  md-Inv r (holds _ _ e) =
      rw e (record { threshold = v.threshold; size = v.size; latch = v.latch; room = v.room })

-- The position after a fill for the whole order.
abbrev filled : ℤ → ExecReport → ℤ
filled p r = if is_buy r.side then p +ℤ pos r.fill_size else p -ℤ pos r.fill_size

filled-Room :
    (q : ℕ) (p : ℤ) (o : OrderRequest) (r : ExecReport)
    → r.side ≡ o.side
    → r.fill_size ≡ o.size
    → Room q p (some o)
    → Room q (filled p r) none
unfolding ◌+ℤ◌ ◌-ℤ◌
filled-Room q p o r side size (sz, inl (buy, inl e)) = inr (inl (ground arith))
filled-Room q p o r side size (sz, inl (buy, inr e)) = inl (ground arith)
filled-Room q p o r side size (sz, inr (sell, inl e)) = inr (inr (ground arith))
filled-Room q p o r side size (sz, inr (sell, inr e)) = inl (ground arith)

Step-Inv : (t q : ℕ) {x y : Session} → Step x y → Inv t q x → Inv t q y
unfolding on_fill
Step-Inv t q {x} (md ev) v =
    md-Inv t q x ev v (on_md x.strat ev) (on_md-Decided x.strat ev t v.threshold)
Step-Inv t q {x} (fill o r out side size) v = record {
  threshold = v.threshold;
  size = v.size;
  latch = refl;
  room = filled-Room q x.strat.position o r side size (subst (Room q x.strat.position) out v.room);
}

abbrev pub start : ℕ → StrategyParams → Session
start ticks p = record { strat = new ticks p; out = none }

Reach-Inv :
    (t ticks : ℕ) (p : StrategyParams) {x : Session}
    → p.threshold_num ≡ pos t
    → Reach (start ticks p) x
    → Inv t p.order_size x
unfolding new
Reach-Inv t ticks p thr here = record {
  threshold = thr;
  size = refl;
  latch = refl;
  room = inl refl;
}
Reach-Inv t ticks p thr (later r s) = Step-Inv t p.order_size s (Reach-Inv t ticks p thr r)

Room-bounded : (q : ℕ) (pn : ℤ) (out : Option OrderRequest) → Room q pn out → Room q pn none
Room-bounded q pn none r = r
Room-bounded q pn (some o) (sz, inl (side, inl e)) = inl e
Room-bounded q pn (some o) (sz, inl (side, inr e)) = inr (inr e)
Room-bounded q pn (some o) (sz, inr (side, inl e)) = inl e
Room-bounded q pn (some o) (sz, inr (side, inr e)) = inr (inl e)

-- From a new strategy with a threshold that is not negative, however market data and whole fills
-- interleave, the position is 0, plus or minus one order size, and the latch is set exactly while
-- an order is out.
pub position_bounded :
    (t ticks : ℕ) (p : StrategyParams) {x : Session}
    → p.threshold_num ≡ pos t
    → Reach (start ticks p) x
    → ((x.strat.position ≡ pos 0)
        ⊎ (x.strat.position ≡ pos p.order_size)
        ⊎ (x.strat.position ≡ neg p.order_size))
      × (x.strat.in_flight ≡ is_some x.out)
position_bounded t ticks p {x} thr r =
    let v = Reach-Inv t ticks p thr r in
    (Room-bounded p.order_size x.strat.position x.out v.room, v.latch)
