-- ===== src/Replay.antt =====
-- tools/itch50_replay.cpp: the loop that feeds a day file through the decoder into one book and
-- checks the book after each delta. The test that `imbalance()` lies in [-1, 1] is floating point and
-- left out; the file and the report are input and output.
pub mod Coherence
use high_frequency_trading_e.Prelude.{
  ℕ, zero, suc, ◌+◌, ◌^◌, ◌%◌, ◌/◌, Bool, true, false, ◌&&◌, List, [], ◌∷◌, Option, none, some, ltb,
  ◌==◌, if◌then◌else◌, get_or, get_elem?, set, replicate,
}
use high_frequency_trading_e.Prelude.Int.{ℤ, pos}
use high_frequency_trading_e.Wire.{ItchMessage, msg_type_byte, side_byte, price_scale}
use high_frequency_trading_e.Book.{BookView, has_bid, has_ask, best_bid_size, best_ask_size}
use high_frequency_trading_e.Book
use high_frequency_trading_e.Itch50.{◌>>=◌, Decoder, LevelDelta, Effect, fresh, take_pending}
use high_frequency_trading_e.Itch50
use high_frequency_trading_e.Itch50.Framing.{read_all}

-- The variables of `main`; `by_type` counts the first bytes of the messages.
pub record Replay : Type 0 where
  pub decoder : Decoder
  pub book : BookView
  pub by_type : List ℕ
  pub messages : ℕ
  pub deltas : ℕ
  pub invariant_failures : ℕ

-- `kTicks`
abbrev pub ticks : ℕ
ticks = 65_536

abbrev pub tick_size : ℕ
tick_size = price_scale / 100

abbrev pub start : Replay
start = record {
  decoder = fresh;
  book = Book.new ticks (pos 0) (pos tick_size);
  by_type = replicate 128 0;
  messages = 0;
  deltas = 0;
  invariant_failures = 0;
}

abbrev inc64 : ℕ → ℕ
inc64 n = (n + 1) % 2 ^ 64

-- `ItchMessage m{}` with the fields of a delta
abbrev pub message_of : LevelDelta → ItchMessage
message_of d = record {
  timestamp = d.timestamp_ns;
  price = d.price;
  symbol = 0;
  size = d.size;
  seq = 0;
  type_byte = msg_type_byte d.kind;
  side = side_byte d.side;
  flags = 0;
}

-- The two tests of the top of book, each of which counts a failure.
unfoldable pub count_failures : BookView → ℕ → ℕ
count_failures b n =
    let n' = if has_bid b && (best_bid_size b == 0) then inc64 n else n in
    if has_ask b && (best_ask_size b == 0) then inc64 n' else n'

-- the body of the inner loop
unfoldable pub apply_delta : Replay → LevelDelta → Replay
apply_delta r d =
    let book' = Book.apply r.book (message_of d) in
    record r {
      book = book';
      deltas = inc64 r.deltas;
      invariant_failures = count_failures book' r.invariant_failures;
    }

-- `for (d = ...; d.valid; d = decoder.take_pending())`, on fuel
unfoldable pub drain : ℕ → Replay → LevelDelta → Replay
drain zero r d = r
drain (suc fuel) r d =
    let r' = apply_delta r d in
    let rest =
      drain fuel (record r' { decoder = (take_pending r'.decoder).0 })
        (take_pending r'.decoder).1 in
    if d.valid then rest else r

unfoldable pub count_message : Replay → ℕ → Replay
count_message r kind = record r {
  messages = inc64 r.messages;
  by_type =
      if ltb kind 128 then set r.by_type kind (inc64 (get_or r.by_type kind 0)) else r.by_type;
}

-- the body of the outer loop: one message, with at most two deltas
unfoldable pub step : Replay → List ℕ → Option Replay
step r body = do
  kind ← get_elem? body 0
  e ← Itch50.apply (count_message r kind).decoder body
  some (drain 3 (record (count_message r kind) { decoder = e.0 }) e.1)

unfoldable pub run : Replay → List (List ℕ) → Option Replay
run r [] = some r
run r (body ∷ rest) = do r' ← step r body; run r' rest

-- `main`, from the bytes of the file to the totals
unfoldable pub replay : List ℕ → Option Replay
replay bytes = run start (read_all bytes)
