-- ===== src/Tests/Wire.antt =====
-- An instance of the datagram round trip: a message with a negative price, and two stray bytes.
use high_frequency_trading_e.Prelude.{◌≡◌, [], ◌∷◌, ◌++◌, arith}
use high_frequency_trading_e.Prelude.Int.{negsuc}
use high_frequency_trading_e.Wire.{ItchMessage}
use high_frequency_trading_e.Wire.Codec.{Fits, encode_all, read_datagram, read_datagram-encode_all}

abbrev message : ItchMessage
message = record {
  timestamp = 123_456_789_012;
  price = negsuc 1_499;
  symbol = 7;
  size = 300;
  seq = 65_536;
  type_byte = b'A';
  side = b'B';
  flags = 0;
}

message-Fits : Fits message
message-Fits = record {
  timestamp = omega arith;
  price = omega arith;
  symbol = omega arith;
  size = omega arith;
  seq = omega arith;
  type_byte = omega arith;
  side = omega arith;
  flags = omega arith;
}

read_datagram-encode_all_example :
    read_datagram (encode_all (message ∷ message ∷ []) ++ 1 ∷ 2 ∷ []) ≡ message ∷ message ∷ []
read_datagram-encode_all_example =
    read_datagram-encode_all (message ∷ message ∷ []) (1 ∷ 2 ∷ [])
      (message-Fits, (message-Fits, tt)) (omega arith)
