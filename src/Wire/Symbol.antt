-- ===== src/Wire/Symbol.antt =====
-- include/hft/itch_message.hpp: a ticker of at most four characters as a 32-bit number, in the order
-- of a little-endian host.
use high_frequency_trading_e.Prelude.{
  ℕ, zero, suc, ◌+◌, ◌*◌, ◌/◌, ◌%◌, ◌<◌, ◌≡◌, refl, ap, ap₂, ◌∙◌, List, [], ◌∷◌, ◌++◌, arith,
}
use high_frequency_trading_e.Wire.Codec.{read_le, write_le}

-- The first `n` characters, with zeros behind a shorter text.
unfoldable pub padded : ℕ → List ℕ → List ℕ
padded zero t = []
padded (suc n) [] = 0 ∷ padded n []
padded (suc n) (c ∷ cs) = c ∷ padded n cs

unfoldable pub pack_symbol : List ℕ → ℕ
pack_symbol t = read_le (padded 4 t)

-- Its five characters, the terminating 0 included.
unfoldable pub unpack_symbol : ℕ → List ℕ
unpack_symbol v = write_le 4 v ++ 0 ∷ []

abbrev pub Bytes : List ℕ → Type 0
Bytes [] = Unit {0}
Bytes (b ∷ bs) = (b < 256) × Bytes bs

padded-Bytes : (n : ℕ) (t : List ℕ) → Bytes t → Bytes (padded n t)
unfolding padded
padded-Bytes zero t h = tt
padded-Bytes (suc n) [] h = (omega arith, padded-Bytes n [] tt)
padded-Bytes (suc n) (c ∷ cs) h = (h.0, padded-Bytes n cs h.1)

write_le-padded :
    (n : ℕ) (t : List ℕ) → Bytes (padded n t) → write_le n (read_le (padded n t)) ≡ padded n t
unfolding write_le read_le padded
write_le-padded zero t h = refl
write_le-padded (suc n) [] h =
    let rest = write_le-padded n [] h.1 in
    let low : (0 + 256 * read_le (padded n [])) % 256 ≡ 0 = omega arith in
    let high : (0 + 256 * read_le (padded n [])) / 256 ≡ read_le (padded n []) = omega arith in
    ap₂ ◌∷◌ low (ap (write_le n) high ∙ rest)
write_le-padded (suc n) (c ∷ cs) h =
    let small = h.0 in
    let rest = write_le-padded n cs h.1 in
    let low : (c + 256 * read_le (padded n cs)) % 256 ≡ c = omega (arith, small) in
    let high : (c + 256 * read_le (padded n cs)) / 256 ≡ read_le (padded n cs) =
      omega (arith, small) in
    ap₂ ◌∷◌ low (ap (write_le n) high ∙ rest)

-- Unpacking a packed ticker gives its first four characters, filled up with zeros, and a 0.
pub unpack_symbol-pack_symbol :
    (t : List ℕ) → Bytes t → unpack_symbol (pack_symbol t) ≡ padded 4 t ++ 0 ∷ []
unfolding unpack_symbol pack_symbol
unpack_symbol-pack_symbol t h = ap (λ l. l ++ 0 ∷ []) (write_le-padded 4 t (padded-Bytes 4 t h))
