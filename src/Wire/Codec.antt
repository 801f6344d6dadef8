-- ===== src/Wire/Codec.antt =====
-- include/hft/itch_parser.hpp: an ItchMessage as the 32 bytes that `memcpy` moves, and the reader of a
-- datagram of such frames. The bytes of a field are in the order of a little-endian host, at the
-- offsets that itch_message.hpp asserts.
use native.Mathlib.Nat.{pow-suc}
use high_frequency_trading_e.Prelude.{
  ℕ, zero, suc, ◌+◌, ◌-◌, ◌*◌, ◌/◌, ◌%◌, ◌^◌, ◌≤◌, ◌<◌, ◌≡◌, refl, ap, ap₂, sym, ◌∙◌, true, List,
  [], ◌∷◌, ◌++◌, append_assoc, arith, leb, ltb, if◌then◌else◌, length, take, drop, take-all,
  take-append,
}
use high_frequency_trading_e.Prelude.Int.{ℤ, pos, negsuc}
use high_frequency_trading_e.Wire.{ItchMessage}

-- `n` bytes, the low one first
unfoldable pub write_le : ℕ → ℕ → List ℕ
write_le zero v = []
write_le (suc n) v = (v % 256) ∷ write_le n (v / 256)

unfoldable pub read_le : List ℕ → ℕ
read_le [] = 0
read_le (b ∷ bs) = b + 256 * read_le bs

-- The 64 bits of an `int64_t`.
unfoldable pub to_bits : ℤ → ℕ
to_bits (pos n) = n
to_bits (negsuc k) = 2 ^ 64 - 1 - k

unfoldable pub of_bits : ℕ → ℤ
of_bits v = if ltb v (2 ^ 63) then pos v else negsuc (2 ^ 64 - 1 - v)

unfoldable pub encode_message : ItchMessage → List ℕ
encode_message m =
    write_le 8 m.timestamp
    ++ write_le 8 (to_bits m.price)
    ++ write_le 4 m.symbol
    ++ write_le 4 m.size
    ++ write_le 4 m.seq
    ++ write_le 1 m.type_byte
    ++ write_le 1 m.side
    ++ write_le 2 m.flags

-- the field of `n` bytes at an offset
abbrev pub field : List ℕ → ℕ → ℕ → ℕ
field bytes offset n = read_le (take n (drop offset bytes))

unfoldable pub parse_message : List ℕ → ItchMessage
parse_message bytes = record {
  timestamp = field bytes 0 8;
  price = of_bits (field bytes 8 8);
  symbol = field bytes 16 4;
  size = field bytes 20 4;
  seq = field bytes 24 4;
  type_byte = field bytes 28 1;
  side = field bytes 29 1;
  flags = field bytes 30 2;
}

abbrev pub msg_size : ℕ
msg_size = 32

-- The messages that `while (reader.has_next()) reader.next()` gives, on fuel.
unfoldable pub read_frames : ℕ → List ℕ → List ItchMessage
read_frames zero bytes = []
read_frames (suc fuel) bytes =
    let rest = read_frames fuel (drop msg_size bytes) in
    if leb msg_size (length bytes) then parse_message bytes ∷ rest else []

-- Each frame takes bytes, so a frame a byte is fuel enough.
unfoldable pub read_datagram : List ℕ → List ItchMessage
unfolding read_frames
read_datagram bytes = read_frames (length bytes) bytes

-- The range of an `int64_t`.
abbrev pub InInt64 : ℤ → Type 0
InInt64 (pos n) = n < 2 ^ 63
InInt64 (negsuc k) = k < 2 ^ 63

-- The fields are within their types.
pub record Fits (m : ItchMessage) : Type 0 where
  pub timestamp : m.timestamp < 2 ^ 64
  pub price : InInt64 m.price
  pub symbol : m.symbol < 2 ^ 32
  pub size : m.size < 2 ^ 32
  pub seq : m.seq < 2 ^ 32
  pub type_byte : m.type_byte < 2 ^ 8
  pub side : m.side < 2 ^ 8
  pub flags : m.flags < 2 ^ 16

read_le-write_le : (n v : ℕ) → v < 256 ^ n → read_le (write_le n v) ≡ v
unfolding read_le write_le
read_le-write_le zero v h = omega (arith, h)
read_le-write_le (suc n) v h =
    omega (arith, read_le-write_le n (v / 256) (omega (arith, pow-suc 256 n, h)))

of_bits-to_bits : (z : ℤ) → InInt64 z → (to_bits z < 2 ^ 64) × (of_bits (to_bits z) ≡ z)
unfolding of_bits to_bits
of_bits-to_bits (pos n) h = (omega (arith, h), ground (arith, h))
of_bits-to_bits (negsuc k) h = (omega (arith, h), ground (arith, h))

-- What a message reads from its own bytes, before the values are put together.
parse_encode_fields :
    (m : ItchMessage) (rest : List ℕ)
    → parse_message (encode_message m ++ rest) ≡ (record {
      timestamp = read_le (write_le 8 m.timestamp);
      price = of_bits (read_le (write_le 8 (to_bits m.price)));
      symbol = read_le (write_le 4 m.symbol);
      size = read_le (write_le 4 m.size);
      seq = read_le (write_le 4 m.seq);
      type_byte = read_le (write_le 1 m.type_byte);
      side = read_le (write_le 1 m.side);
      flags = read_le (write_le 2 m.flags);
    })
unfolding parse_message encode_message write_le
parse_encode_fields m rest = refl

parse_encode :
    (m : ItchMessage) (rest : List ℕ) → Fits m → parse_message (encode_message m ++ rest) ≡ m
parse_encode m rest f =
    let (small, price) = of_bits-to_bits m.price f.price in
    parse_encode_fields m rest
    ∙ rw
        (
          read_le-write_le 8 m.timestamp (omega (arith, f.timestamp)),
          read_le-write_le 8 (to_bits m.price) (omega (arith, small)),
          read_le-write_le 4 m.symbol (omega (arith, f.symbol)),
          read_le-write_le 4 m.size (omega (arith, f.size)),
          read_le-write_le 4 m.seq (omega (arith, f.seq)),
          read_le-write_le 1 m.type_byte (omega (arith, f.type_byte)),
          read_le-write_le 1 m.side (omega (arith, f.side)),
          read_le-write_le 2 m.flags (omega (arith, f.flags)),
          price,
        )
        refl

-- A datagram of the frames of some messages.
abbrev pub encode_all : List ItchMessage → List ℕ
encode_all [] = []
encode_all (m ∷ ms) = encode_message m ++ encode_all ms

abbrev pub AllFit : List ItchMessage → Type 0
AllFit [] = Unit {0}
AllFit (m ∷ ms) = Fits m × AllFit ms

pub length-frame :
    (m : ItchMessage) (rest : List ℕ) → length (encode_message m ++ rest) ≡ msg_size + length rest
unfolding encode_message write_le
length-frame m rest = omega arith

drop-frame : (m : ItchMessage) (rest : List ℕ) → drop msg_size (encode_message m ++ rest) ≡ rest
unfolding encode_message write_le
drop-frame m rest = refl

take-frame :
    (n : ℕ) (m : ItchMessage) (rest : List ℕ)
    → take (msg_size + n) (encode_message m ++ rest) ≡ encode_message m ++ take n rest
unfolding encode_message write_le
take-frame n m rest = take-append (encode_message m) rest n

read_frames-frame :
    (fuel : ℕ) (m : ItchMessage) (rest : List ℕ)
    → Fits m
    → read_frames (suc fuel) (encode_message m ++ rest) ≡ m ∷ read_frames fuel rest
unfolding read_frames
read_frames-frame fuel m rest f =
    let enough : leb msg_size (length (encode_message m ++ rest)) ≡ true =
      ground (arith, length-frame m rest) in
    rw enough (ap₂ (λ x l. x ∷ read_frames fuel l) (parse_encode m rest f) (drop-frame m rest))

read_frames-encode_all :
    (fuel : ℕ) (ms : List ItchMessage) (tail : List ℕ)
    → AllFit ms
    → length tail < msg_size
    → length (encode_all ms ++ tail) ≤ fuel
    → read_frames fuel (encode_all ms ++ tail) ≡ ms
unfolding read_frames
read_frames-encode_all zero [] tail fit short h = refl
read_frames-encode_all (suc fuel) [] tail fit short h = ground (arith, short)
read_frames-encode_all zero (m ∷ ms) tail fit short h = absurd (
    omega (
      arith,
      h,
      ap length (append_assoc (encode_message m) (encode_all ms) tail),
      length-frame m (encode_all ms ++ tail),
    ))
read_frames-encode_all (suc fuel) (m ∷ ms) tail fit short h =
    let joined = append_assoc (encode_message m) (encode_all ms) tail in
    ap (read_frames (suc fuel)) joined
    ∙ read_frames-frame fuel m (encode_all ms ++ tail) fit.0
    ∙ ap (◌∷◌ m) (
        read_frames-encode_all fuel ms tail fit.1 short
          (omega (arith, h, ap length joined, length-frame m (encode_all ms ++ tail))))

-- The reader of a datagram gets back the messages that were encoded into it, and leaves out a last
-- frame that is not whole, if each field of the messages is within its type.
pub read_datagram-encode_all :
    (ms : List ItchMessage) (tail : List ℕ)
    → AllFit ms
    → length tail < msg_size
    → read_datagram (encode_all ms ++ tail) ≡ ms
unfolding read_datagram
read_datagram-encode_all ms tail fit short =
    read_frames-encode_all (length (encode_all ms ++ tail)) ms tail fit short (omega arith)

-- Whole frames from the front of a datagram are the frames of its first messages.
pub take-encode_all :
    (n : ℕ) (ms : List ItchMessage) (tail : List ℕ)
    → length tail < msg_size
    → (tail' : List ℕ) × (length tail' < msg_size)
      × (take (n * msg_size) (encode_all ms ++ tail) ≡ encode_all (take n ms) ++ tail')
take-encode_all zero ms tail short = ([], omega arith, refl)
take-encode_all (suc n) [] tail short =
    (tail, short, take-all (suc n * msg_size) tail (omega (arith, short)))
take-encode_all (suc n) (m ∷ ms) tail short =
    let (tail', short', e) = take-encode_all n ms tail short in
    let bytes : suc n * msg_size ≡ msg_size + n * msg_size = omega arith in
    (
      tail',
      short',
      ap₂ take bytes (append_assoc (encode_message m) (encode_all ms) tail)
          ∙ take-frame (n * msg_size) m (encode_all ms ++ tail)
          ∙ ap (λ l. encode_message m ++ l) e
          ∙ sym (append_assoc (encode_message m) (encode_all (take n ms)) tail'),
    )

pub AllFit-take : (n : ℕ) (ms : List ItchMessage) → AllFit ms → AllFit (take n ms)
AllFit-take zero ms fit = tt
AllFit-take (suc n) [] fit = tt
AllFit-take (suc n) (m ∷ ms) fit = (fit.0, AllFit-take n ms fit.1)
