-- ===== src/Tests/Config.antt =====
-- Instances of the theorems on the JSON reader: numbers in tally, `n` as n + 1 times the digit 1.
use high_frequency_trading_e.Prelude.{
  ℕ, zero, suc, ◌-◌, ◌≤◌, ◌≡◌, ◌≢◌, refl, ap, true, List, [], ◌∷◌, Option, some, arith, length,
  replicate, length-replicate,
}
use high_frequency_trading_e.Prelude.Text.{codes}
use high_frequency_trading_e.Config.{
  parse_value, parse_start, parse_string, string_from, skip_ws, start_of, at_end, JsonValue, null,
  boolean, number, string, array, object, nil, item, empty, member, parse_document, ok, lookup,
  eq_text,
}
use high_frequency_trading_e.Config.Fuel.{Ended, parse_document_ends}
use high_frequency_trading_e.Config.Print.{print, Printable, ShowsNumbers, all_number_chars}
use high_frequency_trading_e.Config.Lookup.{find, find_keys, keys, normal_of, find-parse}

abbrev show : ℕ → List ℕ
show n = b'1' ∷ replicate n b'1'

abbrev stod : List ℕ → Option ℕ
stod s = some (length s - 1)

tally : (n : ℕ) → all_number_chars (replicate n b'1') ≡ true
unfolding all_number_chars
tally zero = refl
tally (suc n) = tally n

minus_one : (n : ℕ) → length (show n) - 1 ≡ n
minus_one n = omega (arith, length-replicate {A = ℕ} n b'1')

show-Shows : ShowsNumbers stod show
unfolding all_number_chars
show-Shows = record {
  chars = λ n. tally n;
  some_char = λ n. omega arith;
  reads_back = λ n. ap some (minus_one n);
}

-- {"r":{"b":1111,"h":["a",null]},"r":true}
abbrev settings : JsonValue ℕ
settings = object (
    member (codes "r")
      (object (
        member (codes "b") (number 3)
          (member (codes "h") (array (item (string (codes "a")) (item null nil))) empty)))
      (member (codes "r") (boolean true) empty))

letter : (c : ℕ) → 1 ≤ c → (c ≢ 0) × Unit {0}
letter c h = (λ e. absurd (omega (arith, e, h)), tt)

settings-Printable : Printable settings
unfolding Printable
settings-Printable = (
  letter b'r' (omega arith),
  (
    letter b'b' (omega arith),
    tt,
    (letter b'h' (omega arith), (letter b'a' (omega arith), (tt, tt)), tt),
  ),
  (letter b'r' (omega arith), tt, tt),
)

parse_document_ends_example : Ended stod (parse_document stod (codes "{\"a\": [1, 1"))
parse_document_ends_example = parse_document_ends stod (codes "{\"a\": [1, 1")

find-parse_example :
    (root : JsonValue ℕ) × (parse_document stod (print show settings []) ≡ ok root [])
    × (find root (codes "r.b") ≡ normal_of (find settings (codes "r.b")))
find-parse_example = find-parse stod show settings (codes "r.b") show-Shows settings-Printable

burst_found : find settings (codes "r.b") ≡ some (number 3)
unfolding find keys find_keys lookup eq_text
burst_found = refl

-- The backslash of an escape that the reader does not know is dropped.
unicode_escape : parse_document stod (codes "\"\\u0041\"") ≡ ok (string (codes "u0041")) []
unfolding parse_document parse_value parse_start parse_string string_from skip_ws start_of at_end
unicode_escape = refl
