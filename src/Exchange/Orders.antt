-- ===== src/Exchange/Orders.antt =====
-- The service of orders: which of the waiting datagrams are answered, and how.
use high_frequency_trading_e.Prelude.{
  ℕ, zero, suc, ◌+◌, ◌%◌, ◌^◌, ◌<◌, ◌≡◌, ◌∙◌, sym, List, [], ◌∷◌, ◌++◌, append-nil, append_assoc,
  Option, none, some, arith, length,
}
use high_frequency_trading_e.Wire.{OrderRequest, ExecReport}
use high_frequency_trading_e.Exchange.{SimExchange, report_of, answer, serve, service_orders}

-- The orders that come before anything else, at most `n` of them.
unfoldable pub first_orders : ℕ → List (Option OrderRequest) → List OrderRequest
first_orders zero q = []
first_orders (suc n) [] = []
first_orders (suc n) (none ∷ q) = []
first_orders (suc n) (some o ∷ q) = o ∷ first_orders n q

-- What is left: a datagram of another size ends the service and is lost.
unfoldable pub still_waiting : ℕ → List (Option OrderRequest) → List (Option OrderRequest)
still_waiting zero q = q
still_waiting (suc n) [] = []
still_waiting (suc n) (none ∷ q) = q
still_waiting (suc n) (some o ∷ q) = still_waiting n q

unfoldable pub reports : List OrderRequest → List ExecReport
reports [] = []
reports (o ∷ os) = report_of o ∷ reports os

-- Serving the orders `os` leaves `q` waiting.
unfoldable pub served : SimExchange → List OrderRequest → List (Option OrderRequest) → SimExchange
served s os q = record s {
  fill_tx = s.fill_tx ++ reports os;
  order_rx = q;
  order_count = (s.order_count + length os) % 2 ^ 64;
  fill_count = (s.fill_count + length os) % 2 ^ 64;
}

-- The counters are 64-bit numbers.
pub record Counting (s : SimExchange) : Type 0 where
  pub orders : s.order_count < 2 ^ 64
  pub fills : s.fill_count < 2 ^ 64

served-nil :
    (s : SimExchange) (q : List (Option OrderRequest))
    → Counting s
    → record s { order_rx = q } ≡ served s [] q
unfolding served reports
served-nil s q k =
    let orders : s.order_count ≡ (s.order_count + 0) % 2 ^ 64 = let h = k.orders in omega arith in
    let fills : s.fill_count ≡ (s.fill_count + 0) % 2 ^ 64 = let h = k.fills in omega arith in
    λ i. record s {
      fill_tx = sym (append-nil s.fill_tx) i;
      order_rx = q;
      order_count = orders i;
      fill_count = fills i;
    }

served-cons :
    (s : SimExchange) (o : OrderRequest) (os : List OrderRequest) (q : List (Option OrderRequest))
    → served (answer s o) os q ≡ served s (o ∷ os) q
unfolding served reports answer
served-cons s o os q =
    let orders : ((s.order_count + 1) % 2 ^ 64 + length os) % 2 ^ 64
        ≡ (s.order_count + suc (length os)) % 2 ^ 64 =
      omega arith in
    let fills : ((s.fill_count + 1) % 2 ^ 64 + length os) % 2 ^ 64
        ≡ (s.fill_count + suc (length os)) % 2 ^ 64 =
      omega arith in
    λ i. record s {
      fill_tx = append_assoc s.fill_tx (report_of o ∷ []) (reports os) i;
      order_rx = q;
      order_count = orders i;
      fill_count = fills i;
    }

answer-Counting : (s : SimExchange) (o : OrderRequest) → Counting (answer s o)
unfolding answer
answer-Counting s o = record { orders = omega arith; fills = omega arith }

serve_lem :
    (n : ℕ) (s : SimExchange) (q : List (Option OrderRequest))
    → Counting s
    → serve n s q ≡ served s (first_orders n q) (still_waiting n q)
unfolding serve first_orders still_waiting
serve_lem zero s q k = served-nil s q k
serve_lem (suc n) s [] k = served-nil s [] k
serve_lem (suc n) s (none ∷ q) k = served-nil s q k
serve_lem (suc n) s (some o ∷ q) k =
    serve_lem n (answer s o) q (answer-Counting s o)
    ∙ served-cons s o (first_orders n q) (still_waiting n q)

-- `service_orders` answers the orders that wait before anything else, at most 32 of them, in their
-- order, each with one report of a whole fill that echoes its fields; nothing else of the exchange
-- changes but the two counters, which count them modulo 2 ^ 64.
pub service_orders_lem :
    (s : SimExchange)
    → Counting s
    → service_orders s ≡ served s (first_orders 32 s.order_rx) (still_waiting 32 s.order_rx)
unfolding service_orders
service_orders_lem s k = serve_lem 32 s s.order_rx k
