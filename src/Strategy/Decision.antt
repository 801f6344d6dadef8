-- ===== src/Strategy/Decision.antt =====
-- When `on_md` emits an order, and which.
use high_frequency_trading_e.Prelude.{
  ℕ, ◌+◌, ◌*◌, ◌<◌, ◌≡◌, ◌↔◌, refl, ap, ◌∙◌, true, false, Option, none, some, arith, Bool-cases,
  inl, inr,
}
use high_frequency_trading_e.Prelude.Int.{pos, ◌≤ℤ◌}
use high_frequency_trading_e.Wire.{MdEvent, OrderRequest}
use high_frequency_trading_e.Book.{
  two_sided, best_bid_size, best_ask_size, best_bid_price, best_ask_price,
}
use high_frequency_trading_e.Strategy.{
  ImbalanceStrategy, thr_den, want_buy, want_sell, build_order, decide, seen, on_md, inc64,
}
use high_frequency_trading_e.Strategy.Signal.{signals_lem}

-- Nothing in flight, a two-sided book whose imbalance is above the threshold `t`, and no long
-- position.
pub record Buys (s : ImbalanceStrategy) (t : ℕ) : Type 0 where
  pub idle : s.in_flight ≡ false
  pub sided : two_sided s.book ≡ true
  pub signal :
      t * (best_bid_size s.book + best_ask_size s.book) + best_ask_size s.book * thr_den
      < best_bid_size s.book * thr_den
  pub room : s.position ≤ℤ pos 0

-- The mirror image.
pub record Sells (s : ImbalanceStrategy) (t : ℕ) : Type 0 where
  pub idle : s.in_flight ≡ false
  pub sided : two_sided s.book ≡ true
  pub signal :
      t * (best_bid_size s.book + best_ask_size s.book) + best_bid_size s.book * thr_den
      < best_ask_size s.book * thr_den
  pub room : pos 0 ≤ℤ s.position

-- What a buy on the event `ev` sends: a new order at the best bid. The byte 66 is `B`, 78 is `N`.
abbrev pub bought : ImbalanceStrategy → MdEvent → OrderRequest
bought s ev = record {
  order_id = inc64 s.last_order_id;
  md_timestamp = ev.arrival_tsc;
  price = best_bid_price s.book;
  symbol = ev.msg.symbol;
  size = s.order_size;
  side = 66;
  action = 78;
  flags = 0;
  pad = 0;
}

-- What a sell sends: a new order at the best ask. The byte 83 is `S`.
abbrev pub sold : ImbalanceStrategy → MdEvent → OrderRequest
sold s ev = record {
  order_id = inc64 s.last_order_id;
  md_timestamp = ev.arrival_tsc;
  price = best_ask_price s.book;
  symbol = ev.msg.symbol;
  size = s.order_size;
  side = 83;
  action = 78;
  flags = 0;
  pad = 0;
}

not_both : (s : ImbalanceStrategy) (t : ℕ) → Buys s t → Sells s t → ⊥
not_both s t b k = omega (arith, b.signal, k.signal)

abbrev pub placed : ImbalanceStrategy → ImbalanceStrategy
placed s = record s {
  last_order_id = inc64 s.last_order_id;
  in_flight = true;
  orders_sent = inc64 s.orders_sent;
}

module _ (s : ImbalanceStrategy) (ev : MdEvent) (t : ℕ) (thr : s.thr_num ≡ pos t) where
  want_buy_lem : (want_buy s ≡ true) ↔ (
      (t * (best_bid_size s.book + best_ask_size s.book) + best_ask_size s.book * thr_den
        < best_bid_size s.book * thr_den)
      × (s.position ≤ℤ pos 0))
  unfolding want_buy
  want_buy_lem = ground (arith, signals_lem t (best_bid_size s.book) (best_ask_size s.book))

  want_sell_lem : (want_sell s ≡ true) ↔ (
      (t * (best_bid_size s.book + best_ask_size s.book) + best_bid_size s.book * thr_den
        < best_ask_size s.book * thr_den)
      × (pos 0 ≤ℤ s.position))
  unfolding want_sell
  want_sell_lem = ground (arith, signals_lem t (best_bid_size s.book) (best_ask_size s.book))

  build_order-bought : build_order s ev true ≡ bought s ev
  unfolding build_order
  build_order-bought = refl

  build_order-sold : build_order s ev false ≡ sold s ev
  unfolding build_order
  build_order-sold = refl

  Buys-decide : Buys s t → decide s ev ≡ (placed s, some (bought s ev))
  unfolding decide
  Buys-decide b =
      ground (arith, want_buy_lem.1 (b.signal, b.room))
      ∙ ap (λ o. (placed s, some o)) build_order-bought

  Sells-decide : Sells s t → decide s ev ≡ (placed s, some (sold s ev))
  unfolding decide
  Sells-decide k =
      ground (arith, want_sell_lem.1 (k.signal, k.room), want_buy_lem.0, not_both s t)
      ∙ ap (λ o. (placed s, some o)) build_order-sold

  holds-decide : ¬ Buys s t → ¬ Sells s t → decide s ev ≡ (s, none)
  unfolding decide
  holds-decide nb ns = ground (arith, want_buy_lem.0, want_sell_lem.0, nb, ns)

-- The three outcomes of `on_md`; the conditions exclude one another.
pub data Decided (s : ImbalanceStrategy) (ev : MdEvent) (t : ℕ)
    (r : ImbalanceStrategy × Option OrderRequest) : Type 0 where
  buys : Buys s t → r ≡ (placed s, some (bought s ev)) → Decided s ev t r
  sells : Sells s t → r ≡ (placed s, some (sold s ev)) → Decided s ev t r
  holds : ¬ Buys s t → ¬ Sells s t → r ≡ (s, none) → Decided s ev t r

module _ (s : ImbalanceStrategy) (ev : MdEvent) (t : ℕ) (thr : s.thr_num ≡ pos t) where
  holding : ¬ Buys s t → ¬ Sells s t → Decided s ev t (decide s ev)
  holding nb ns = holds nb ns (holds-decide s ev t thr nb ns)

  decide_free : s.in_flight ≡ false → two_sided s.book ≡ true → Decided s ev t (decide s ev)
  decide_free idle sided = elim (Bool-cases (want_buy s)) [
    | inl wanted ↦ buying ((want_buy_lem s ev t thr).0 wanted)
    | inr unwanted ↦ elim (Bool-cases (want_sell s)) [
      | inl wanted ↦ selling ((want_sell_lem s ev t thr).0 wanted)
      | inr neither ↦
          holding (λ b. cc ((want_buy_lem s ev t thr).1 (b.signal, b.room)))
            (λ k. cc ((want_sell_lem s ev t thr).1 (k.signal, k.room)))
    ]
  ]
    where
      buying :
          (t * (best_bid_size s.book + best_ask_size s.book) + best_ask_size s.book * thr_den
              < best_bid_size s.book * thr_den)
            × (s.position ≤ℤ pos 0)
          → Decided s ev t (decide s ev)
      buying w =
          let b : Buys s t = record { idle = idle; sided = sided; signal = w.0; room = w.1 } in
          buys b (Buys-decide s ev t thr b)

      selling :
          (t * (best_bid_size s.book + best_ask_size s.book) + best_bid_size s.book * thr_den
              < best_ask_size s.book * thr_den)
            × (pos 0 ≤ℤ s.position)
          → Decided s ev t (decide s ev)
      selling w =
          let k : Sells s t = record { idle = idle; sided = sided; signal = w.0; room = w.1 } in
          sells k (Sells-decide s ev t thr k)

  decide-Decided : Decided s ev t (decide s ev)
  decide-Decided = elim (Bool-cases s.in_flight) [
    | inl busy ↦ holding (λ b. cc b.idle) (λ k. cc k.idle)
    | inr idle ↦ elim (Bool-cases (two_sided s.book)) [
      | inl sided ↦ decide_free idle sided
      | inr lacking ↦ holding (λ b. cc b.sided) (λ k. cc k.sided)
    ]
  ]

-- With a threshold that is not negative, on every event `on_md` applies the message and counts it.
-- Then it buys exactly when nothing is in flight, the book is two-sided, its imbalance is above the
-- threshold and the position is not long: the order has the best bid as its price, the buy side, the
-- size of the strategy, the symbol and the time stamp of the event and the next identifier. It sells
-- on the mirror condition, with the best ask as the price. Either order sets the latch and is
-- counted. Otherwise `on_md` emits nothing and changes nothing more.
pub on_md-Decided :
    (s : ImbalanceStrategy) (ev : MdEvent) (t : ℕ)
    → s.thr_num ≡ pos t
    → Decided (seen s ev) ev t (on_md s ev)
unfolding on_md
on_md-Decided s ev t thr = decide-Decided (seen s ev) ev t thr
