-- ===== src/Itch50.antt =====
-- include/hft/itch50.hpp: the TotalView-ITCH 5.0 decoder. A message body is the list of its bytes.
-- Every field is read byte by byte, and a read past the end of the body is `none`: the source reads
-- through a raw pointer there. `std::unordered_map` is an association list with one entry a key.
pub mod Orders
pub mod Ledger
pub mod Parse
pub mod Invariant
pub mod Framing
use high_frequency_trading_e.Prelude.{
  ℕ, zero, suc, ◌+◌, ◌-◌, ◌*◌, ◌/◌, ◌%◌, ◌^◌, Bool, true, false, ◌||◌, List, [], ◌∷◌, Option, none,
  some, leb, ◌==◌, if◌then◌else◌, length, get_elem?,
}
use high_frequency_trading_e.Prelude.Int.{ℤ, pos}
use high_frequency_trading_e.Wire.{MsgType, Side, price_scale}

infixl 5 ◌>>=◌
abbrev pub ◌>>=◌ {ℓ κ} : {A : Type ℓ} {B : Type κ} → Option A → (A → Option B) → Option B
none >>= f = none
some a >>= f = f a

-- `v = (v << 8) | p[i]` for `n` bytes from offset `i` on; a byte is below 256.
unfoldable pub read_be : ℕ → List ℕ → ℕ → ℕ → Option ℕ
read_be zero p i v = some v
read_be (suc n) p i v = do b ← get_elem? p i; read_be n p (i + 1) (v * 256 + b)

-- `be16`, `be32`, `be48` and `be64` of the body at an offset
abbrev pub be16 : List ℕ → ℕ → Option ℕ
be16 p i = read_be 2 p i 0

abbrev pub be32 : List ℕ → ℕ → Option ℕ
be32 p i = read_be 4 p i 0

abbrev pub be48 : List ℕ → ℕ → Option ℕ
be48 p i = read_be 6 p i 0

abbrev pub be64 : List ℕ → ℕ → Option ℕ
be64 p i = read_be 8 p i 0

pub record Header : Type 0 where
  pub kind : ℕ
  pub stock_locate : ℕ
  pub tracking_number : ℕ
  pub timestamp_ns : ℕ

unfoldable pub read_header : List ℕ → Option Header
read_header m = do
  kind ← get_elem? m 0
  locate ← be16 m 1
  tracking ← be16 m 3
  stamp ← be48 m 5
  some (record {
    kind = kind;
    stock_locate = locate;
    tracking_number = tracking;
    timestamp_ns = stamp;
  })

-- Body length of a decoded type; 0 for all others.
unfoldable pub expected_length : ℕ → ℕ
expected_length t =
    if t == b'S'
    then 12
    else if t == b'R'
    then 39
    else if t == b'H'
    then 25
    else if t == b'Y'
    then 20
    else if t == b'L'
    then 26
    else if t == b'A'
    then 36
    else if t == b'F'
    then 40
    else if t == b'E'
    then 31
    else if t == b'C'
    then 36
    else if t == b'X'
    then 23
    else if t == b'D'
    then 19
    else if t == b'U'
    then 35
    else if t == b'P'
    then 44
    else 0

pub record LevelDelta : Type 0 where
  pub valid : Bool
  pub kind : MsgType
  pub side : Side
  pub price : ℤ
  pub size : ℕ
  pub timestamp_ns : ℕ
  pub stock_locate : ℕ

-- `LevelDelta{}`
abbrev pub no_delta : LevelDelta
no_delta = record {
  valid = false;
  kind = MsgType.unknown;
  side = Side.buy;
  price = pos 0;
  size = 0;
  timestamp_ns = 0;
  stock_locate = 0;
}

pub record Order : Type 0 where
  pub price : ℤ
  pub shares : ℕ
  pub side : Side

abbrev pub Orders : Type 0
Orders = List (ℕ × Order)

-- `orders_.find(ref)`
unfoldable pub find : ℕ → Orders → Option Order
find ref [] = none
find ref ((r, o) ∷ os) = if r == ref then some o else find ref os

-- `orders_[ref] = o`
unfoldable pub assign : ℕ → Order → Orders → Orders
assign ref o [] = (ref, o) ∷ []
assign ref o ((r, old) ∷ os) = if r == ref then (ref, o) ∷ os else (r, old) ∷ assign ref o os

-- `orders_.erase(it)`, the iterator given by its key
unfoldable pub erase : ℕ → Orders → Orders
erase ref [] = []
erase ref ((r, o) ∷ os) = if r == ref then os else (r, o) ∷ erase ref os

pub record Stats : Type 0 where
  pub decoded : ℕ
  pub ignored : ℕ
  pub malformed : ℕ
  pub unknown_order : ℕ
  pub live_orders : ℕ

pub record Decoder : Type 0 where
  pub orders : Orders
  pub pending : LevelDelta
  pub stats : Stats

abbrev pub fresh : Decoder
fresh = record {
  orders = [];
  pending = no_delta;
  stats = record { decoded = 0; ignored = 0; malformed = 0; unknown_order = 0; live_orders = 0 };
}

abbrev inc64 : ℕ → ℕ
inc64 n = (n + 1) % 2 ^ 64

abbrev pub count_malformed : Decoder → Decoder
count_malformed d = record d { stats = record (d.stats) { malformed = inc64 d.stats.malformed } }

abbrev pub count_ignored : Decoder → Decoder
count_ignored d = record d { stats = record (d.stats) { ignored = inc64 d.stats.ignored } }

abbrev pub count_decoded : Decoder → Decoder
count_decoded d = record d { stats = record (d.stats) { decoded = inc64 d.stats.decoded } }

abbrev pub count_unknown : Decoder → Decoder
count_unknown d = record d {
  stats = record (d.stats) { unknown_order = inc64 d.stats.unknown_order };
}

-- ITCH prices have four implied decimals, the engine's have `kPriceScale` to a unit.
unfoldable pub to_engine_price : ℕ → ℤ
to_engine_price p = pos (p * price_scale / 10_000)

-- The effect of one message: the new state and the delta for the caller.
abbrev pub Effect : Type 0
Effect = Decoder × LevelDelta

abbrev pub delta_of : LevelDelta → MsgType → Order → ℕ → LevelDelta
delta_of out kind o size = record out {
  valid = true;
  kind = kind;
  side = o.side;
  price = o.price;
  size = size;
}

-- case 'A', 'F'
unfoldable pub on_add : Decoder → LevelDelta → ℕ → Order → Effect
on_add d out ref o =
    (record d { orders = assign ref o d.orders }, delta_of out MsgType.add o o.shares)

-- `reduce`, at what `find` gave
unfoldable pub reduce_found : Decoder → LevelDelta → ℕ → ℕ → MsgType → Option Order → Effect
reduce_found d out ref shares kind none = (count_unknown d, out)
reduce_found d out ref shares kind (some o) =
    let taken = if leb o.shares shares then o.shares else shares in
    let left = record o { shares = o.shares - taken } in
    (
      record d {
        orders = if left.shares == 0 then erase ref d.orders else assign ref left d.orders;
      },
      delta_of out kind o taken,
    )

unfoldable pub reduce : Decoder → LevelDelta → ℕ → ℕ → MsgType → Effect
unfolding reduce_found
reduce d out ref shares kind = reduce_found d out ref shares kind (find ref d.orders)

-- case 'D'
unfoldable pub delete_found : Decoder → LevelDelta → ℕ → Option Order → Effect
delete_found d out ref none = (count_unknown d, out)
delete_found d out ref (some o) =
    (record d { orders = erase ref d.orders }, delta_of out MsgType.cancel o o.shares)

unfoldable pub on_delete : Decoder → LevelDelta → ℕ → Effect
unfolding delete_found
on_delete d out ref = delete_found d out ref (find ref d.orders)

-- case 'U': the removal is the result, the addition waits in `pending_`
unfoldable pub replace_found : Decoder → LevelDelta → ℕ → ℕ → ℤ → ℕ → Option Order → Effect
replace_found d out orig new_ref price shares none = (
  record (count_unknown d) {
    orders = assign new_ref (record { price = price; shares = shares; side = Side.buy }) d.orders;
  },
  out,
)
replace_found d out orig new_ref price shares (some old) =
    let o : Order = record { price = price; shares = shares; side = old.side } in
    (
      record d {
        orders = assign new_ref o (erase orig d.orders);
        pending = delta_of out MsgType.add o shares;
      },
      delta_of out MsgType.cancel old old.shares,
    )

unfoldable pub on_replace : Decoder → LevelDelta → ℕ → ℕ → ℤ → ℕ → Effect
unfolding replace_found
on_replace d out orig new_ref price shares =
    replace_found d out orig new_ref price shares (find orig d.orders)

abbrev pub side_of : ℕ → Side
side_of b = if b == b'B' then Side.buy else Side.sell

unfoldable pub decode_add : Decoder → List ℕ → LevelDelta → Option Effect
decode_add d body out = do
  ref ← be64 body 11
  side ← get_elem? body 19
  shares ← be32 body 20
  price ← be32 body 32
  some (
      on_add d out ref
        (record { price = to_engine_price price; shares = shares; side = side_of side }))

unfoldable pub decode_reduce : Decoder → List ℕ → LevelDelta → MsgType → Option Effect
decode_reduce d body out kind = do
  ref ← be64 body 11
  shares ← be32 body 19
  some (reduce d out ref shares kind)

unfoldable pub decode_delete : Decoder → List ℕ → LevelDelta → Option Effect
decode_delete d body out = do ref ← be64 body 11; some (on_delete d out ref)

unfoldable pub decode_replace : Decoder → List ℕ → LevelDelta → Option Effect
decode_replace d body out = do
  orig ← be64 body 11
  new_ref ← be64 body 19
  shares ← be32 body 27
  price ← be32 body 31
  some (on_replace d out orig new_ref (to_engine_price price) shares)

-- the `switch` on the type of a message that has its length
unfoldable pub decode : Decoder → List ℕ → LevelDelta → ℕ → Option Effect
unfolding decode_add decode_reduce decode_delete decode_replace
decode d body out t =
    if t == b'A' || t == b'F'
    then decode_add d body out
    else if t == b'E' || t == b'C'
    then decode_reduce d body out MsgType.execute
    else if t == b'X'
    then decode_reduce d body out MsgType.cancel
    else if t == b'D'
    then decode_delete d body out
    else if t == b'U'
    then decode_replace d body out
    else some (d, out)

-- `stats_.live_orders = orders_.size()`
abbrev pub count_live : Effect → Effect
count_live (d, out) = (record d { stats = record (d.stats) { live_orders = length d.orders } }, out)

unfoldable pub apply_header : Decoder → List ℕ → Header → Option Effect
apply_header d body h =
    if expected_length h.kind == 0
    then some (count_ignored d, no_delta)
    else if length body == expected_length h.kind
    then (do
      e ←
          decode (count_decoded d) body
            (record no_delta { timestamp_ns = h.timestamp_ns; stock_locate = h.stock_locate })
            h.kind
      some (count_live e))
    else some (count_malformed d, no_delta)

-- `Decoder::apply(body, len)`; `none` is a read past the end of the body.
unfoldable pub apply : Decoder → List ℕ → Option Effect
apply d [] = some (count_malformed d, no_delta)
apply d (b ∷ bs) = do h ← read_header (b ∷ bs); apply_header d (b ∷ bs) h

unfoldable pub take_pending : Decoder → Effect
take_pending d = (record d { pending = no_delta }, d.pending)
