-- ===== src/Config/Print.antt =====
-- A writer of compact JSON, in front of a text that follows it, and the value that a reader makes of
-- what it wrote: of several members of an object with one key, the first.
use high_frequency_trading_e.Prelude.{
  ℕ, ◌≤◌, ◌≡◌, ◌≢◌, Bool, true, false, ◌&&◌, List, [], ◌∷◌, ◌++◌, Option, some, ◌==◌, if◌then◌else◌,
  length, drop,
}
use high_frequency_trading_e.Config.{
  JsonValue, Items, Members, nil, item, empty, member, emplace, is_number_char, sign_chars,
  true_word, false_word, null_word,
}

unfoldable pub print_chars : List ℕ → List ℕ → List ℕ
print_chars [] rest = rest
print_chars (c ∷ cs) rest =
    let after = print_chars cs rest in
    if c == b'"' then b'\\' ∷ c ∷ after else if c == b'\\' then b'\\' ∷ c ∷ after else c ∷ after

abbrev pub print_string : List ℕ → List ℕ → List ℕ
print_string s rest = b'"' ∷ print_chars s (b'"' ∷ rest)

abbrev pub print_bool : Bool → List ℕ → List ℕ
print_bool true rest = true_word ++ rest
print_bool false rest = false_word ++ rest

module _ {N : Type 0} (show : N → List ℕ) where
  unfoldable mutual
    pub print : JsonValue N → List ℕ → List ℕ
    print JsonValue.null rest = null_word ++ rest
    print (JsonValue.boolean b) rest = print_bool b rest
    print (JsonValue.number x) rest = show x ++ rest
    print (JsonValue.string s) rest = print_string s rest
    print (JsonValue.array nil) rest = b'[' ∷ b']' ∷ rest
    print (JsonValue.array (item v xs)) rest = b'[' ∷ print v (print_items xs rest)
    print (JsonValue.object empty) rest = b'{' ∷ b'}' ∷ rest
    print (JsonValue.object (member k v ms)) rest =
        b'{' ∷ print_string k (b':' ∷ print v (print_members ms rest))

    -- the items that follow another
    pub print_items : Items N → List ℕ → List ℕ
    print_items nil rest = b']' ∷ rest
    print_items (item v xs) rest = b',' ∷ print v (print_items xs rest)

    -- the members that follow another
    pub print_members : Members N → List ℕ → List ℕ
    print_members empty rest = b'}' ∷ rest
    print_members (member k v ms) rest =
        b',' ∷ print_string k (b':' ∷ print v (print_members ms rest))

-- No character 0, which the reader takes for the end of the text.
abbrev pub NoZero : List ℕ → Type 0
NoZero [] = Unit {0}
NoZero (c ∷ cs) = (c ≢ 0) × NoZero cs

module _ {N : Type 0} where
  unfoldable mutual
    pub normal : JsonValue N → JsonValue N
    normal JsonValue.null = JsonValue.null
    normal (JsonValue.boolean b) = JsonValue.boolean b
    normal (JsonValue.number x) = JsonValue.number x
    normal (JsonValue.string s) = JsonValue.string s
    normal (JsonValue.array xs) = JsonValue.array (normal_items xs)
    normal (JsonValue.object ms) = JsonValue.object (normal_members empty ms)

    pub normal_items : Items N → Items N
    normal_items nil = nil
    normal_items (item v xs) = item (normal v) (normal_items xs)

    pub normal_members : Members N → Members N → Members N
    normal_members obj empty = obj
    normal_members obj (member k v ms) = normal_members (emplace obj k (normal v)) ms

  unfoldable mutual
    pub Printable : JsonValue N → Type 0
    Printable JsonValue.null = Unit {0}
    Printable (JsonValue.boolean b) = Unit {0}
    Printable (JsonValue.number x) = Unit {0}
    Printable (JsonValue.string s) = NoZero s
    Printable (JsonValue.array xs) = ItemsPrintable xs
    Printable (JsonValue.object ms) = MembersPrintable ms

    pub ItemsPrintable : Items N → Type 0
    ItemsPrintable nil = Unit {0}
    ItemsPrintable (item v xs) = Printable v × ItemsPrintable xs

    pub MembersPrintable : Members N → Type 0
    MembersPrintable empty = Unit {0}
    MembersPrintable (member k v ms) = NoZero k × Printable v × MembersPrintable ms

unfoldable pub all_number_chars : List ℕ → Bool
all_number_chars [] = true
all_number_chars (c ∷ cs) = is_number_char c && all_number_chars cs

-- `show` writes a number as characters that a number is read from, at least one behind its sign, and
-- `std::stod` reads them back.
pub record ShowsNumbers {N : Type 0} (stod : List ℕ → Option N) (show : N → List ℕ) : Type 0 where
  pub chars : (x : N) → all_number_chars (show x) ≡ true
  pub some_char : (x : N) → 1 ≤ length (drop (length (sign_chars (show x))) (show x))
  pub reads_back : (x : N) → stod (show x) ≡ some x
