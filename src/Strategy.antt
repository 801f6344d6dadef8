-- ===== src/Strategy.antt =====
-- include/hft/strategy.hpp: the book-imbalance strategy. A method returns the new state; `on_md`
-- also returns the order that it hands to `emit`, which it calls at most once.
-- The constructor's `llround(threshold * 16384)` is floating point: its result, the fixed-point
-- threshold, is an argument here.
pub mod Signal
pub mod Decision
pub mod Position
use high_frequency_trading_e.Prelude.{
  ℕ, ◌+◌, ◌^◌, ◌%◌, Bool, true, false, ◌&&◌, ◌||◌, not, Option, none, some, if◌then◌else◌,
}
use high_frequency_trading_e.Prelude.Int.{ℤ, pos, negsuc, ◌+ℤ◌, ◌-ℤ◌, ◌*ℤ◌, ltb_ℤ, leb_ℤ}
use high_frequency_trading_e.Wire.{
  Side, side_byte, is_buy, OrderAction, order_action_byte, OrderRequest, ExecReport, MdEvent,
}
use high_frequency_trading_e.Book.{
  BookView, apply, two_sided, best_bid_size, best_ask_size, best_bid_price, best_ask_price,
}
use high_frequency_trading_e.Book

pub record StrategyParams : Type 0 where
  pub base_price : ℤ
  pub tick : ℤ
  pub threshold_num : ℤ
  pub order_size : ℕ

pub record ImbalanceStrategy : Type 0 where
  pub book : BookView
  pub position : ℤ
  pub last_order_id : ℕ
  pub orders_sent : ℕ
  pub fills_seen : ℕ
  pub md_seen : ℕ
  pub order_size : ℕ
  pub thr_num : ℤ
  pub in_flight : Bool

-- `kThrDen`
abbrev pub thr_den : ℕ
thr_den = 2 ^ 14

-- `++n` of a `std::uint64_t`
abbrev pub inc64 : ℕ → ℕ
inc64 n = (n + 1) % 2 ^ 64

unfoldable pub new : ℕ → StrategyParams → ImbalanceStrategy
new ticks p = record {
  book = Book.new ticks p.base_price p.tick;
  position = pos 0;
  last_order_id = 0;
  orders_sent = 0;
  fills_seen = 0;
  md_seen = 0;
  order_size = p.order_size;
  thr_num = p.threshold_num;
  in_flight = false;
}

-- `lhs > rhs`, the buy signal, and `-lhs > rhs`, the sell signal, from the two best sizes
unfoldable pub buy_signal : ℤ → ℕ → ℕ → Bool
buy_signal thr_num bid ask =
    ltb_ℤ (thr_num *ℤ (pos bid +ℤ pos ask)) ((pos bid -ℤ pos ask) *ℤ pos thr_den)

unfoldable pub sell_signal : ℤ → ℕ → ℕ → Bool
sell_signal thr_num bid ask =
    ltb_ℤ (thr_num *ℤ (pos bid +ℤ pos ask)) (pos 0 -ℤ (pos bid -ℤ pos ask) *ℤ pos thr_den)

unfoldable pub want_buy : ImbalanceStrategy → Bool
want_buy s =
    buy_signal s.thr_num (best_bid_size s.book) (best_ask_size s.book) && leb_ℤ s.position (pos 0)

unfoldable pub want_sell : ImbalanceStrategy → Bool
want_sell s =
    sell_signal s.thr_num (best_bid_size s.book) (best_ask_size s.book) && leb_ℤ (pos 0) s.position

-- the order built on the rare path; `OrderRequest o{}` leaves flags and padding zero
unfoldable pub build_order : ImbalanceStrategy → MdEvent → Bool → OrderRequest
build_order s ev is_buy = record {
  order_id = inc64 s.last_order_id;
  md_timestamp = ev.arrival_tsc;
  price = if is_buy then best_bid_price s.book else best_ask_price s.book;
  symbol = ev.msg.symbol;
  size = s.order_size;
  side = side_byte (if is_buy then Side.buy else Side.sell);
  action = order_action_byte OrderAction.new;
  flags = 0;
  pad = 0;
}

-- `on_md` once the message is counted and applied
unfoldable pub decide : ImbalanceStrategy → MdEvent → ImbalanceStrategy × Option OrderRequest
decide s ev =
    if not (two_sided s.book)
    then (s, none)
    else if s.in_flight || not (want_buy s || want_sell s)
    then (s, none)
    else (
      record s {
        last_order_id = inc64 s.last_order_id;
        in_flight = true;
        orders_sent = inc64 s.orders_sent;
      },
      some (build_order s ev (want_buy s)),
    )

abbrev pub seen : ImbalanceStrategy → MdEvent → ImbalanceStrategy
seen s ev = record s { md_seen = inc64 s.md_seen; book = apply s.book ev.msg }

unfoldable pub on_md : ImbalanceStrategy → MdEvent → ImbalanceStrategy × Option OrderRequest
on_md s ev = decide (seen s ev) ev

unfoldable pub on_fill : ImbalanceStrategy → ExecReport → ImbalanceStrategy
on_fill s r = record s {
  position = if is_buy r.side then s.position +ℤ pos r.fill_size else s.position -ℤ pos r.fill_size;
  in_flight = false;
  fills_seen = inc64 s.fills_seen;
}
