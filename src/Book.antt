-- ===== src/Book.antt =====
-- include/hft/book_view.hpp: the order book as two flat arrays of level sizes.
-- `ticks` is the template argument `NumTicks`. The two arrays are lists of that length, a cached
-- best index is the source's `int` (a bid of -1 and an ask of `ticks` mean "no level").
pub mod Top
pub mod Invariant
pub mod Reference
pub mod Window
pub mod History
use high_frequency_trading_e.Prelude.{
  ℕ, zero, suc, ◌+◌, ◌-◌, ◌^◌, ◌%◌, Bool, true, false, ◌&&◌, List, ltb, leb, ◌==◌, if◌then◌else◌,
  get_or, set, replicate,
}
use high_frequency_trading_e.Prelude.Int.{
  ℤ, pos, negsuc, ◌+ℤ◌, ◌-ℤ◌, ◌*ℤ◌, ltb_ℤ, leb_ℤ, div_trunc, to_int32,
}
use high_frequency_trading_e.Wire.{MsgType, Side, ItchMessage, to_msg_type, is_buy}

pub record BookView : Type 0 where
  pub ticks : ℕ
  pub bid : List ℕ
  pub ask : List ℕ
  pub best_bid_idx : ℤ
  pub best_ask_idx : ℤ
  pub base : ℤ
  pub tick : ℤ
  pub out_of_range : ℕ

abbrev pub max_level_size : ℕ
max_level_size = 2 ^ 32 - 1

-- The constructor: both sides empty.
unfoldable pub new : ℕ → ℤ → ℤ → BookView
new ticks base tick = record {
  ticks = ticks;
  bid = replicate ticks 0;
  ask = replicate ticks 0;
  best_bid_idx = negsuc 0;
  best_ask_idx = pos ticks;
  base = base;
  tick = tick;
  out_of_range = 0;
}

-- `static_cast<int>((price - base_) / tick_)`
unfoldable pub to_index : BookView → ℤ → ℤ
to_index b price = to_int32 (div_trunc (price -ℤ b.base) b.tick)

unfoldable pub price_at : BookView → ℤ → ℤ
price_at b idx = b.base +ℤ idx *ℤ b.tick

-- `on_size_increased`: a better level becomes the best of its side.
unfoldable pub on_size_increased : BookView → Bool → ℕ → BookView
on_size_increased b true idx =
    if ltb_ℤ b.best_bid_idx (pos idx) then record b { best_bid_idx = pos idx } else b
on_size_increased b false idx =
    if ltb_ℤ (pos idx) b.best_ask_idx then record b { best_ask_idx = pos idx } else b

-- `while (j >= 0 && bid_[j] == 0) --j`, begun at `j = i - 1`
unfoldable pub walk_down : List ℕ → ℕ → ℤ
walk_down arr zero = negsuc 0
walk_down arr (suc j) = let rest = walk_down arr j in if get_or arr j 0 == 0 then rest else pos j

-- `while (j < NumTicks && ask_[j] == 0) ++j`; the first argument is `NumTicks - j`
unfoldable pub walk_up : List ℕ → ℕ → ℕ → ℕ
walk_up arr zero j = j
walk_up arr (suc left) j =
    let rest = walk_up arr left (j + 1) in if get_or arr j 0 == 0 then rest else j

abbrev pub eq_ℤ : ℤ → ℤ → Bool
eq_ℤ a b = leb_ℤ a b && leb_ℤ b a

-- `on_level_emptied`: only the best level moves the touch.
unfoldable pub on_level_emptied : BookView → Bool → ℕ → BookView
on_level_emptied b true idx =
    if eq_ℤ (pos idx) b.best_bid_idx then record b { best_bid_idx = walk_down b.bid idx } else b
on_level_emptied b false idx =
    if eq_ℤ (pos idx) b.best_ask_idx
    then record b { best_ask_idx = pos (walk_up b.ask (b.ticks - (idx + 1)) (idx + 1)) }
    else b

-- `arr`, the side that a message works on
abbrev pub side_levels : BookView → Bool → List ℕ
side_levels b true = b.bid
side_levels b false = b.ask

abbrev pub set_level : BookView → Bool → ℕ → ℕ → BookView
set_level b true idx v = record b { bid = set b.bid idx v }
set_level b false idx v = record b { ask = set b.ask idx v }

-- `kAdd`: saturating, since sizes are `uint32_t`; so `max_level_size - size` does not wrap.
unfoldable pub saturating_add : ℕ → ℕ → ℕ
saturating_add level size =
    if ltb (max_level_size - size) level then max_level_size else level + size

-- `kExecute` and `kCancel`
unfoldable pub reduced : ℕ → ℕ → ℕ
reduced level size = if leb level size then 0 else level - size

unfoldable pub add_size : BookView → Bool → ℕ → ℕ → BookView
add_size b is_bid idx size =
    if size == 0
    then b
    else on_size_increased
        (set_level b is_bid idx (saturating_add (get_or (side_levels b is_bid) idx 0) size)) is_bid
        idx

unfoldable pub reduce_size : BookView → Bool → ℕ → ℕ → BookView
reduce_size b is_bid idx size =
    let left = reduced (get_or (side_levels b is_bid) idx 0) size in
    let b' = set_level b is_bid idx left in if left == 0 then on_level_emptied b' is_bid idx else b'

unfoldable pub delete_level : BookView → Bool → ℕ → BookView
delete_level b is_bid idx = on_level_emptied (set_level b is_bid idx 0) is_bid idx

-- the `switch` of `apply`, at an index within the window
unfoldable pub apply_at : BookView → MsgType → Bool → ℕ → ℕ → BookView
apply_at b MsgType.add is_bid idx size = add_size b is_bid idx size
apply_at b MsgType.execute is_bid idx size = reduce_size b is_bid idx size
apply_at b MsgType.cancel is_bid idx size = reduce_size b is_bid idx size
apply_at b MsgType.delete is_bid idx size = delete_level b is_bid idx
apply_at b MsgType.trade is_bid idx size = b
apply_at b MsgType.unknown is_bid idx size = b

abbrev pub drop_message : BookView → BookView
drop_message b = record b { out_of_range = (b.out_of_range + 1) % 2 ^ 64 }

-- `apply` after `to_index`: the guard `idx < 0 || idx >= NumTicks`
unfoldable pub apply_index : BookView → ItchMessage → ℤ → BookView
apply_index b m (negsuc _) = drop_message b
apply_index b m (pos idx) =
    if ltb idx b.ticks
    then apply_at b (to_msg_type m.type_byte) (is_buy m.side) idx m.size
    else drop_message b

unfoldable pub apply : BookView → ItchMessage → BookView
apply b m = apply_index b m (to_index b m.price)

unfoldable pub has_bid : BookView → Bool
has_bid b = leb_ℤ (pos 0) b.best_bid_idx

unfoldable pub has_ask : BookView → Bool
has_ask b = ltb_ℤ b.best_ask_idx (pos b.ticks)

unfoldable pub two_sided : BookView → Bool
unfolding has_bid has_ask
two_sided b = has_bid b && has_ask b

unfoldable pub best_bid_price : BookView → ℤ
best_bid_price b = price_at b b.best_bid_idx

unfoldable pub best_ask_price : BookView → ℤ
best_ask_price b = price_at b b.best_ask_idx

-- an array read behind a test that its `int` index is in range
abbrev pub level_at : List ℕ → ℤ → ℕ
level_at arr (pos i) = get_or arr i 0
level_at arr (negsuc _) = 0

unfoldable pub best_bid_size : BookView → ℕ
unfolding has_bid
best_bid_size b = if has_bid b then level_at b.bid b.best_bid_idx else 0

unfoldable pub best_ask_size : BookView → ℕ
unfolding has_ask
best_ask_size b = if has_ask b then level_at b.ask b.best_ask_idx else 0

abbrev pub size_at_index : BookView → Bool → ℤ → ℕ
size_at_index b is_bid (negsuc _) = 0
size_at_index b is_bid (pos idx) =
    if ltb idx b.ticks then get_or (side_levels b is_bid) idx 0 else 0

abbrev pub side_is_buy : Side → Bool
side_is_buy Side.none = false
side_is_buy Side.buy = true
side_is_buy Side.sell = false

unfoldable pub size_at : BookView → Side → ℤ → ℕ
size_at b side price = size_at_index b (side_is_buy side) (to_index b price)
