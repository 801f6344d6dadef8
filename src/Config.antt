-- ===== src/Config.antt =====
-- include/hft/config.hpp: the JSON reader. A text is its bytes; the place in it is what is left to
-- read. A number is what `std::stod` gives for its characters, or the exception it throws: the type
-- of numbers and the function are parameters. A `std::map` is the list of its members, in the order
-- of their insertion.
pub mod Lookup
pub mod Print
pub mod Fine
pub mod Fuel
pub mod Tokens
pub mod RoundTrip
use high_frequency_trading_e.Prelude.{
  ℕ, zero, suc, ◌+◌, ◌-◌, ◌*◌, Bool, true, false, ◌&&◌, ◌||◌, not, List, [], ◌∷◌, ◌++◌, Option,
  none, some, ltb, leb, ◌==◌, if◌then◌else◌, length, take, drop,
}

-- What `fail` is called with. `bad_float` is an exception of `std::stod`, and `no_fuel` is not the
-- source's: the readers below it are given enough.
pub data ParseError : Type 0 where
  trailing key_expected colon_expected object_end array_end : ParseError
  quote_expected unterminated bad_literal bad_number bad_float no_fuel : ParseError

-- A value that was read, and what is left.
pub data Result {ℓ} (A : Type ℓ) : Type ℓ where
  ok : A → List ℕ → Result A
  err : ParseError → Result A

infixl 5 ◌>>=◌
abbrev pub ◌>>=◌ {ℓ κ} : {A : Type ℓ} {B : Type κ} → Result A → (A → List ℕ → Result B) → Result B
ok a rest >>= f = f a rest
err e >>= f = err e

mutual
  pub data JsonValue (N : Type 0) : Type 0 where
    null : JsonValue N
    boolean : Bool → JsonValue N
    number : N → JsonValue N
    string : List ℕ → JsonValue N
    array : Items N → JsonValue N
    object : Members N → JsonValue N

  pub data Items (N : Type 0) : Type 0 where
    nil : Items N
    item : JsonValue N → Items N → Items N

  pub data Members (N : Type 0) : Type 0 where
    empty : Members N
    member : List ℕ → JsonValue N → Members N → Members N

-- `peek` and the character of `get`: 0 at the end.
abbrev pub peek : List ℕ → ℕ
peek [] = 0
peek (c ∷ cs) = c

abbrev pub tail : List ℕ → List ℕ
tail [] = []
tail (c ∷ cs) = cs

abbrev pub is_space : ℕ → Bool
is_space c = c == b' ' || c == b'\t' || c == b'\n' || c == b'\r'

unfoldable pub skip_ws : List ℕ → List ℕ
skip_ws [] = []
skip_ws (c ∷ cs) = let rest = skip_ws cs in if is_space c then rest else c ∷ cs

-- the character that an escape stands for
abbrev pub unescape : ℕ → ℕ
unescape e =
    if e == b'n'
    then b'\n'
    else if e == b't'
    then b'\t'
    else if e == b'r'
    then b'\r'
    else if e == b'b'
    then 8
    else if e == b'f'
    then 12
    else e

abbrev pub push : ℕ → Result (List ℕ) → Result (List ℕ)
push c (ok s rest) = ok (c ∷ s) rest
push c (err e) = err e

-- The loop of `parse_string`; the flag is set after a backslash. A character 0 ends the text.
unfoldable pub string_from : Bool → List ℕ → Result (List ℕ)
string_from escaped [] = err ParseError.unterminated
string_from escaped (c ∷ cs) =
    let rest = string_from (not escaped && (c == b'\\')) cs in
    if escaped
    then push (unescape c) rest
    else if c == 0
    then err ParseError.unterminated
    else if c == b'"'
    then ok [] cs
    else if c == b'\\'
    then rest
    else push c rest

unfoldable pub parse_string : List ℕ → Result (List ℕ)
parse_string t =
    if peek t == b'"' then string_from false (tail t) else err ParseError.quote_expected

-- `s_.compare(i_, n, word) == 0`
unfoldable pub starts_with : List ℕ → List ℕ → Bool
starts_with [] t = true
starts_with (w ∷ ws) [] = false
starts_with (w ∷ ws) (c ∷ cs) = (c == w) && starts_with ws cs

abbrev pub true_word : List ℕ
true_word = b't' ∷ b'r' ∷ b'u' ∷ b'e' ∷ []

abbrev pub false_word : List ℕ
false_word = b'f' ∷ b'a' ∷ b'l' ∷ b's' ∷ b'e' ∷ []

abbrev pub null_word : List ℕ
null_word = b'n' ∷ b'u' ∷ b'l' ∷ b'l' ∷ []

abbrev pub is_number_char : ℕ → Bool
is_number_char c =
    (leb b'0' c && leb c b'9') || c == b'.' || c == b'e' || c == b'E' || c == b'+' || c == b'-'

-- The characters that the loop of `parse_number` takes, and the rest.
unfoldable pub number_chars : List ℕ → List ℕ
number_chars [] = []
number_chars (c ∷ cs) = let rest = number_chars cs in if is_number_char c then c ∷ rest else []

-- What the first character of a value selects.
pub data Start : Type 0 where
  object array string literal null number : Start

unfoldable pub start_of : ℕ → Start
start_of c =
    if c == b'{'
    then Start.object
    else if c == b'['
    then Start.array
    else if c == b'"'
    then Start.string
    else if c == b't' || c == b'f'
    then Start.literal
    else if c == b'n'
    then Start.null
    else Start.number

-- What the character after an element selects.
pub data After : Type 0 where
  comma close other : After

unfoldable pub after : ℕ → ℕ → After
after closing c =
    if c == b',' then After.comma else if c == closing then After.close else After.other

-- `std::string`'s `==`
unfoldable pub eq_text : List ℕ → List ℕ → Bool
eq_text [] [] = true
eq_text [] (y ∷ ys) = false
eq_text (x ∷ xs) [] = false
eq_text (x ∷ xs) (y ∷ ys) = (x == y) && eq_text xs ys

module _ {N : Type 0} where
  -- `Object::find`
  unfoldable pub lookup : Members N → List ℕ → Option (JsonValue N)
  lookup empty key = none
  lookup (member k v ms) key = let rest = lookup ms key in if eq_text k key then some v else rest

  -- `obj.emplace(key, value)` changes nothing if the key is there.
  unfoldable pub emplace : Members N → List ℕ → JsonValue N → Members N
  emplace empty key value = member key value empty
  emplace (member k v ms) key value =
      let rest = emplace ms key value in if eq_text k key then member k v ms else member k v rest

  abbrev pub of_option : Option N → List ℕ → Result (JsonValue N)
  of_option none rest = err ParseError.bad_float
  of_option (some x) rest = ok (JsonValue.number x) rest

abbrev pub is_sign : ℕ → Bool
is_sign c = c == b'-' || c == b'+'

-- The characters of a sign, if there is one.
abbrev pub sign_chars : List ℕ → List ℕ
sign_chars [] = []
sign_chars (c ∷ cs) = if is_sign c then c ∷ [] else []

module _ {N : Type 0} (stod : List ℕ → Option N) where
  unfoldable pub parse_number : List ℕ → Result (JsonValue N)
  parse_number t =
      let unsigned = drop (length (sign_chars t)) t in
      let cs = number_chars unsigned in
      if length cs == 0
      then err ParseError.bad_number
      else of_option (stod (sign_chars t ++ cs)) (drop (length cs) unsigned)

  unfoldable pub parse_bool : List ℕ → Result (JsonValue N)
  parse_bool t =
      if starts_with true_word t
      then ok (boolean true) (drop 4 t)
      else if starts_with false_word t
      then ok (boolean false) (drop 5 t)
      else err ParseError.bad_literal

  unfoldable pub parse_null : List ℕ → Result (JsonValue N)
  parse_null t =
      if starts_with null_word t then ok JsonValue.null (drop 4 t) else err ParseError.bad_literal

  -- `parse_object`, whose loop is `members`
  unfoldable pub parse_object :
      (Members N → List ℕ → Result (Members N)) → List ℕ → Result (JsonValue N)
  parse_object members t =
      if peek (skip_ws (tail t)) == b'}'
      then ok (JsonValue.object empty) (tail (skip_ws (tail t)))
      else members empty (skip_ws (tail t)) >>= λ ms rest. ok (JsonValue.object ms) rest

  -- `parse_array`, whose loop is `items`
  unfoldable pub parse_array : (List ℕ → Result (Items N)) → List ℕ → Result (JsonValue N)
  parse_array items t =
      if peek (skip_ws (tail t)) == b']'
      then ok (JsonValue.array nil) (tail (skip_ws (tail t)))
      else items (skip_ws (tail t)) >>= λ xs rest. ok (JsonValue.array xs) rest

  -- the switch of `parse_value`
  unfoldable pub parse_start :
      Start
      → (List ℕ → Result (Items N))
      → (Members N → List ℕ → Result (Members N))
      → List ℕ
      → Result (JsonValue N)
  parse_start Start.object items members t = parse_object members t
  parse_start Start.array items members t = parse_array items t
  parse_start Start.string items members t =
      parse_string t >>= λ s rest. ok (JsonValue.string s) rest
  parse_start Start.literal items members t = parse_bool t
  parse_start Start.null items members t = parse_null t
  parse_start Start.number items members t = parse_number t

  -- The end of a round of the loop of `parse_array`: `t` is behind the character that decides.
  unfoldable pub next_item :
      After → (List ℕ → Result (Items N)) → JsonValue N → List ℕ → Result (Items N)
  next_item After.comma items v t = items t >>= λ xs rest. ok (item v xs) rest
  next_item After.close items v t = ok (item v nil) t
  next_item After.other items v t = err ParseError.array_end

  -- The colon and the value of a member.
  unfoldable pub after_key :
      (List ℕ → Result (JsonValue N)) → List ℕ → List ℕ → Result (List ℕ × JsonValue N)
  after_key value key t =
      if peek t == b':'
      then (value (tail t) >>= λ v rest. ok (key, v) rest)
      else err ParseError.colon_expected

  -- A round of the loop of `parse_object` up to its value: the key, the colon and the value.
  unfoldable pub key_value :
      (List ℕ → Result (JsonValue N)) → List ℕ → Result (List ℕ × JsonValue N)
  key_value value t =
      if peek t == b'"'
      then (parse_string t >>= λ key rest. after_key value key (skip_ws rest))
      else err ParseError.key_expected

  -- The end of that round.
  unfoldable pub next_member :
      After → (Members N → List ℕ → Result (Members N)) → Members N → List ℕ → Result (Members N)
  next_member After.comma members obj t = members obj t
  next_member After.close members obj t = ok obj t
  next_member After.other members obj t = err ParseError.object_end

  -- `parse_value` and the loops of `parse_array` and `parse_object`, on fuel
  unfoldable mutual
    pub parse_value : ℕ → List ℕ → Result (JsonValue N)
    parse_value zero t = err ParseError.no_fuel
    parse_value (suc n) t =
        parse_start (start_of (peek (skip_ws t))) (parse_items n) (parse_members n) (skip_ws t)

    pub parse_items : ℕ → List ℕ → Result (Items N)
    parse_items zero t = err ParseError.no_fuel
    parse_items (suc n) t = parse_value n t >>= λ v rest.
        next_item (after b']' (peek (skip_ws rest))) (parse_items n) v (tail (skip_ws rest))

    pub parse_members : ℕ → Members N → List ℕ → Result (Members N)
    parse_members zero obj t = err ParseError.no_fuel
    parse_members (suc n) obj t = key_value (parse_value n) (skip_ws t) >>= λ kv rest.
        next_member (after b'}' (peek (skip_ws rest))) (parse_members n) (emplace obj kv.0 kv.1)
          (tail (skip_ws rest))

  -- the end of the text behind a value
  unfoldable pub at_end : JsonValue N → List ℕ → Result (JsonValue N)
  at_end v t = if length t == 0 then ok v t else err ParseError.trailing

  -- Two rounds of the readers for each character are enough.
  unfoldable pub parse_document : List ℕ → Result (JsonValue N)
  parse_document text =
      parse_value (2 * length text + 1) (skip_ws text) >>= λ v rest. at_end v (skip_ws rest)
