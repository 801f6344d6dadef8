-- ===== src/Tests/Itch50.antt =====
-- Instances of the decoder's theorems: an 'A' message, and bodies that are cut short.
use high_frequency_trading_e.Prelude.{
  ℕ, ◌+◌, ◌≤◌, ◌<◌, ◌≡◌, ◌↔◌, true, inr, refl, List, [], ◌∷◌, none, some, arith, take, ◌++◌,
}
use high_frequency_trading_e.Prelude.Int.{pos}
use high_frequency_trading_e.Wire.{Side, MsgType}
use high_frequency_trading_e.Book.{max_level_size}
use high_frequency_trading_e.Itch50.{
  Decoder, Order, Effect, fresh, no_delta, apply, on_add, find, assign, read_header, read_be,
  apply_header, expected_length, decode, decode_add, to_engine_price,
}
use high_frequency_trading_e.Itch50.Ledger.{
  Msg, handle, handle-Balanced, replace_unknown, Balanced, Tidy,
}
use high_frequency_trading_e.Itch50.Orders.{resting, Distinct, assign-Distinct}
use high_frequency_trading_e.Itch50.Parse.{apply-none_iff, apply-Applied, Applied}
use high_frequency_trading_e.Itch50.Framing.{
  next, cut, bodies, frame, frames, read_all, read_all-frames,
}
use high_frequency_trading_e.Replay.{Replay, replay}
use high_frequency_trading_e.Replay.Coherence.{LongEnough, Coherent, replay-Coherent}
use high_frequency_trading_e.Itch50.Invariant.{Inv, fresh-Inv, Bytes, apply-Inv}

-- Reference 1, buy, 100 shares at 250 ten-thousandths.
abbrev add_body : List ℕ
add_body =
    b'A' ∷ 0 ∷ 9 ∷ 0 ∷ 0 ∷ 0 ∷ 0 ∷ 0 ∷ 0 ∷ 0 ∷ 7 ∷ 0 ∷ 0 ∷ 0 ∷ 0 ∷ 0 ∷ 0 ∷ 0 ∷ 1 ∷ b'B' ∷ 0 ∷ 0 ∷ 0
    ∷ 100 ∷ 0 ∷ 0 ∷ 0 ∷ 0 ∷ 0 ∷ 0 ∷ 0 ∷ 0 ∷ 0 ∷ 0 ∷ 0 ∷ 250 ∷ []

abbrev order : Order
order = record { price = pos 250; shares = 100; side = Side.buy }

-- The decoder and the delta that the message leaves.
abbrev decoder : Decoder
decoder = record {
  orders = (1, order) ∷ [];
  pending = no_delta;
  stats = record { decoded = 1; ignored = 0; malformed = 0; unknown_order = 0; live_orders = 1 };
}

abbrev after_add : Effect
after_add = (
  decoder,
  record {
    valid = true;
    kind = MsgType.add;
    side = Side.buy;
    price = pos 250;
    size = 100;
    timestamp_ns = 7;
    stock_locate = 9;
  },
)

add_body-applied : apply fresh add_body ≡ some after_add
unfolding apply read_header read_be apply_header expected_length decode decode_add on_add assign
    to_engine_price
add_body-applied = refl

add_body-Bytes : Bytes add_body
add_body-Bytes = ground arith

apply-Applied_example : Applied fresh add_body after_add
apply-Applied_example = apply-Applied fresh add_body after_add add_body-applied

apply-Inv_example : Inv decoder × (100 ≤ max_level_size)
apply-Inv_example = apply-Inv fresh add_body after_add add_body-Bytes fresh-Inv add_body-applied

apply-none_iff_example : (apply fresh (b'A' ∷ 0 ∷ []) ≡ none) ↔ ((0 < 2) × (2 < 11))
apply-none_iff_example = apply-none_iff fresh (b'A' ∷ 0 ∷ [])

decoder-Distinct : Distinct decoder.orders
unfolding assign
decoder-Distinct = assign-Distinct 1 order [] fresh-Inv.once

decoder-Tidy : Tidy decoder.orders (Msg.replace 1 2 (pos 260) 80)
unfolding find
decoder-Tidy = ((order, refl), inr refl)

-- Order 1 is replaced by order 2, of 80 shares at 260: level 250 loses its 100 shares.
handle-Balanced_example :
    Balanced Side.buy
      (pos 250)
      decoder.orders
      (handle decoder no_delta (Msg.replace 1 2 (pos 260) 80))
handle-Balanced_example =
    handle-Balanced Side.buy (pos 250) decoder no_delta (Msg.replace 1 2 (pos 260) 80) refl refl
      decoder-Distinct decoder-Tidy

-- A file of one message, and a second one cut short.
abbrev day_file : List ℕ
day_file = frames (add_body ∷ []) ++ take 20 (frame add_body)

read_all-frames_example : read_all day_file ≡ add_body ∷ []
read_all-frames_example =
    read_all-frames (add_body ∷ []) add_body 20 ((omega arith, omega arith), tt) (omega arith)

day_file-LongEnough : LongEnough (read_all day_file)
unfolding read_all next cut read_be bodies
day_file-LongEnough = (omega arith, add_body-Bytes, tt)

replay-Coherent_example : (r : Replay) × (replay day_file ≡ some r) × Coherent r
replay-Coherent_example = replay-Coherent day_file day_file-LongEnough

replace_unknown_example :
    let e = handle decoder no_delta (Msg.replace 8 9 (pos 260) 80) in
    (e.1 ≡ no_delta)
    × (e.0.pending ≡ decoder.pending)
    × (resting Side.buy (pos 260) e.0.orders ≡ resting Side.buy (pos 260) decoder.orders + 80)
unfolding find
replace_unknown_example = replace_unknown decoder no_delta 8 9 (pos 260) 80 refl refl
