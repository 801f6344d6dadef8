-- ===== src/Tests/Book.antt =====
-- Instances of the book's theorems: a book of eight ticks of 10 from price 1000.
use high_frequency_trading_e.Prelude.{ℕ, ◌+◌, ◌*◌, ◌^◌, ◌≡◌, refl, List, [], ◌∷◌, arith}
use high_frequency_trading_e.Prelude.Int.{ℤ, pos, negsuc, ◌+ℤ◌, ◌-ℤ◌, to_int32, div_trunc}
use high_frequency_trading_e.Wire.{ItchMessage}
use high_frequency_trading_e.Book.{
  BookView, new, to_index, price_at, apply, apply_index, drop_message, apply_at, add_size,
  on_size_increased, reduce_size, reduced, saturating_add, on_level_emptied, walk_down,
}
use high_frequency_trading_e.Book.Invariant.{IsValid}
use high_frequency_trading_e.Book.Reference.{levels}
use high_frequency_trading_e.Book.Window.{
  Outside, above, to_index-price_at, apply-Outside, apply-fold, apply-alias,
}
use high_frequency_trading_e.Book.History.{
  run, run-IsValid, run_refines, ladder_run, slot, empty_ladder, SizesFit, touch_lem, BidTouch,
  AskTouch,
}

abbrev message : ℕ → ℕ → ℤ → ℕ → ItchMessage
message type_byte side price size = record {
  timestamp = 1;
  price = price;
  symbol = 7;
  size = size;
  seq = 1;
  type_byte = type_byte;
  side = side;
  flags = 0;
}

abbrev empty_book : BookView
empty_book = new 8 (pos 1_000) (pos 10)

-- Two bids, an ask, an execution that empties the best bid, and one out of the window.
abbrev feed : List ItchMessage
feed =
    message b'A' b'B' (pos 1_010) 100
    ∷ message b'A' b'B' (pos 1_030) 50
    ∷ message b'A' b'S' (pos 1_050) 70
    ∷ message b'E' b'B' (pos 1_030) 60
    ∷ message b'A' b'S' (pos 5_000) 10
    ∷ []

abbrev feed-SizesFit : SizesFit feed
feed-SizesFit = (omega arith, (omega arith, (omega arith, (omega arith, (omega arith, tt)))))

feed_book : (run empty_book feed).best_bid_idx ≡ pos 1
unfolding run apply to_index new apply_index to_int32 div_trunc ◌-ℤ◌ apply_at add_size
    on_size_increased reduce_size reduced saturating_add on_level_emptied walk_down
feed_book = refl

run_refines_example :
    levels (run empty_book feed) ≡ ladder_run (slot 8 (pos 1_000) (pos 10)) empty_ladder feed
run_refines_example = run_refines 8 (pos 1_000) (pos 10) feed feed-SizesFit

run-IsValid_example : IsValid (run empty_book feed)
run-IsValid_example = run-IsValid 8 (pos 1_000) (pos 10) feed feed-SizesFit

feed-IsValid : IsValid (run empty_book feed)
feed-IsValid = run-IsValid 8 (pos 1_000) (pos 10) feed feed-SizesFit

touch_lem_example : BidTouch (run empty_book feed) × AskTouch (run empty_book feed)
touch_lem_example = touch_lem (run empty_book feed) feed-IsValid

empty_book-tick : empty_book.tick ≡ pos 10
unfolding new
empty_book-tick = refl

to_index-price_at_example : to_index empty_book (price_at empty_book (pos 3)) ≡ pos 3
to_index-price_at_example =
    to_index-price_at empty_book 10 empty_book-tick 3 (omega arith) (omega arith)

abbrev far_ask : ItchMessage
far_ask = message b'A' b'S' (pos 5_000) 10

far_ask-Outside : Outside empty_book 10 far_ask.price
unfolding new ◌+ℤ◌
far_ask-Outside = above 4_000 refl (omega arith) (omega arith)

apply-Outside_example : apply empty_book far_ask ≡ drop_message empty_book
apply-Outside_example =
    apply-Outside empty_book 10 far_ask empty_book-tick (omega arith) far_ask-Outside

-- 5 below the base, half a tick
abbrev low_bid : ItchMessage
low_bid = message b'A' b'B' (pos 995) 10

low_bid-price : low_bid.price ≡ empty_book.base +ℤ negsuc 4
unfolding new ◌+ℤ◌
low_bid-price = refl

apply-fold_example : apply empty_book low_bid ≡ apply_index empty_book low_bid (pos 0)
apply-fold_example = apply-fold empty_book 10 4 low_bid empty_book-tick (omega arith) low_bid-price

-- 2 ^ 32 ticks above level 2
abbrev high_bid : ItchMessage
high_bid = message b'A' b'B' (pos 42_949_673_980) 10

high_bid-price : high_bid.price ≡ empty_book.base +ℤ pos ((2 + 1 * 2 ^ 32) * 10 + 0)
unfolding new ◌+ℤ◌
high_bid-price = refl

apply-alias_example : apply empty_book high_bid ≡ apply_index empty_book high_bid (pos 2)
apply-alias_example =
    apply-alias empty_book 10 2 0 1 high_bid empty_book-tick (omega arith) (omega arith)
      high_bid-price
