-- ===== src/Config/RoundTrip.antt =====
-- The reader gives back what the writer of Config/Print wrote.
use high_frequency_trading_e.Prelude.{
  ℕ, zero, suc, ◌+◌, ◌*◌, ◌≤◌, ◌≡◌, refl, ap, ◌∙◌, true, false, List, [], ◌∷◌, ◌++◌, Option, arith,
  ◌==◌, length, drop, length-append,
}
use high_frequency_trading_e.Config.{
  Result, ok, ◌>>=◌, JsonValue, Items, Members, item, nil, empty, member, peek, tail, skip_ws,
  is_number_char, parse_string, parse_bool, parse_null, parse_value, parse_items, parse_members,
  parse_document, at_end, start_of, Start, after, emplace, parse_object, parse_array, parse_start,
  next_item, after_key, key_value, next_member, starts_with, sign_chars,
}
use high_frequency_trading_e.Config.Print.{
  print_chars, print_string, print, print_items, print_members, NoZero, normal, normal_items,
  normal_members, Printable, ItemsPrintable, MembersPrintable, all_number_chars, ShowsNumbers,
}
use high_frequency_trading_e.Config.Tokens.{
  string_from-print_chars, parse_number-show, number_char_lem, both,
}

-- A text that begins with no blank and with no closing bracket.
record Opens (t : List ℕ) : Type 0 where
  not_blank : skip_ws t ≡ t
  not_close : (peek t == b']') ≡ false

chars-le : (s rest : List ℕ) → length rest ≤ length (print_chars s rest)
unfolding print_chars
chars-le [] rest = omega arith
chars-le (c ∷ cs) rest = ground (arith, chars-le cs rest)

module _ {N : Type 0} (stod : List ℕ → Option N) (show : N → List ℕ) where
  mutual
    unfolding print

    print-le : (v : JsonValue N) (rest : List ℕ) → length rest ≤ length (print show v rest)
    print-le JsonValue.null rest = omega arith
    print-le (JsonValue.boolean true) rest = omega arith
    print-le (JsonValue.boolean false) rest = omega arith
    print-le (JsonValue.number x) rest = omega (arith, length-append (show x) rest)
    print-le (JsonValue.string s) rest = omega (arith, chars-le s (b'"' ∷ rest))
    print-le (JsonValue.array nil) rest = omega arith
    print-le (JsonValue.array (item v xs)) rest =
        omega (arith, print-le v (print_items show xs rest), print_items-le xs rest)
    print-le (JsonValue.object empty) rest = omega arith
    print-le (JsonValue.object (member k v ms)) rest = omega (
      arith,
      chars-le k (b'"' ∷ b':' ∷ print show v (print_members show ms rest)),
      print-le v (print_members show ms rest),
      print_members-le ms rest,
    )

    print_items-le :
        (xs : Items N) (rest : List ℕ) → length rest ≤ length (print_items show xs rest)
    print_items-le nil rest = omega arith
    print_items-le (item v xs) rest =
        omega (arith, print-le v (print_items show xs rest), print_items-le xs rest)

    print_members-le :
        (ms : Members N) (rest : List ℕ) → length rest ≤ length (print_members show ms rest)
    print_members-le empty rest = omega arith
    print_members-le (member k v ms) rest = omega (
      arith,
      chars-le k (b'"' ∷ b':' ∷ print show v (print_members show ms rest)),
      print-le v (print_members show ms rest),
      print_members-le ms rest,
    )

  items-stop :
      (xs : Items N) (rest : List ℕ) → is_number_char (peek (print_items show xs rest)) ≡ false
  unfolding print
  items-stop nil rest = refl
  items-stop (item v xs) rest = refl

  members-stop :
      (ms : Members N) (rest : List ℕ) → is_number_char (peek (print_members show ms rest)) ≡ false
  unfolding print
  members-stop empty rest = refl
  members-stop (member k v ms) rest = refl

  number-Opens :
      (u rest : List ℕ)
      → all_number_chars u ≡ true
      → 1 ≤ length (drop (length (sign_chars u)) u)
      → Opens (u ++ rest) × (start_of (peek (u ++ rest)) ≡ Start.number)
  unfolding all_number_chars skip_ws
  number-Opens [] rest all some_char = absurd (omega (arith, some_char))
  number-Opens (c ∷ cs) rest all some_char =
      let (space, close, starts) =
        number_char_lem c (both (is_number_char c) (all_number_chars cs) all).0 in
      (record { not_blank = rw space refl; not_close = close }, starts)

  print-Opens :
      ShowsNumbers stod show → (v : JsonValue N) (rest : List ℕ) → Opens (print show v rest)
  unfolding print skip_ws
  print-Opens shows JsonValue.null rest = record { not_blank = refl; not_close = refl }
  print-Opens shows (JsonValue.boolean true) rest = record { not_blank = refl; not_close = refl }
  print-Opens shows (JsonValue.boolean false) rest = record { not_blank = refl; not_close = refl }
  print-Opens shows (JsonValue.number x) rest =
      (number-Opens (show x) rest (shows.chars x) (shows.some_char x)).0
  print-Opens shows (JsonValue.string s) rest = record { not_blank = refl; not_close = refl }
  print-Opens shows (JsonValue.array nil) rest = record { not_blank = refl; not_close = refl }
  print-Opens shows (JsonValue.array (item v xs)) rest = record {
    not_blank = refl;
    not_close = refl;
  }
  print-Opens shows (JsonValue.object empty) rest = record { not_blank = refl; not_close = refl }
  print-Opens shows (JsonValue.object (member k v ms)) rest = record {
    not_blank = refl;
    not_close = refl;
  }

  key-le :
      (k : List ℕ) (v : JsonValue N) (ms : Members N) (rest : List ℕ)
      → length (print show v (print_members show ms rest)) + 2
        ≤ length (print_string k (b':' ∷ print show v (print_members show ms rest)))
  key-le k v ms rest =
      omega (arith, chars-le k (b'"' ∷ b':' ∷ print show v (print_members show ms rest)))

  -- The end of a round of the loop of `parse_object`, with its key and value read.
  abbrev round_end : ℕ → Members N → (List ℕ × JsonValue N) → List ℕ → Result (Members N)
  round_end n obj kv rest =
      next_member stod (after b'}' (peek (skip_ws rest))) (parse_members stod n)
        (emplace obj kv.0 kv.1) (tail (skip_ws rest))

  abbrev keyed : List ℕ → JsonValue N → List ℕ → Result (List ℕ × JsonValue N)
  keyed k v rest = ok (k, v) rest

  member_step :
      (n : ℕ) (obj : Members N) (k : List ℕ) (v : JsonValue N) (next : List ℕ)
      → NoZero k
      → parse_value stod n (print show v next) ≡ ok (normal v) next
      → parse_members stod (suc n) obj (print_string k (b':' ∷ print show v next))
        ≡ round_end n obj (k, normal v) next
  unfolding parse_value key_value after_key parse_string skip_ws
  member_step n obj k v next fit back =
      ap
        (λ r.
          (r >>= λ key rest. after_key stod (parse_value stod n) key (skip_ws rest))
          >>= round_end n obj)
        (string_from-print_chars k (b':' ∷ print show v next) fit)
      ∙ ap (λ r. (r >>= keyed k) >>= round_end n obj) back

  mutual
    unfolding print parse_value normal Printable parse_start parse_object parse_array parse_bool
        parse_null parse_string skip_ws start_of starts_with next_item next_member key_value
        after_key after

    parse_value-print :
        ShowsNumbers stod show
        → (n : ℕ) (v : JsonValue N) (rest : List ℕ) → Printable v
        → is_number_char (peek rest) ≡ false
        → 2 * length (print show v rest) + 1 ≤ n
        → parse_value stod n (print show v rest) ≡ ok (normal v) rest
    parse_value-print shows zero v rest fit stop enough = absurd (omega (arith, enough))
    parse_value-print shows (suc n) JsonValue.null rest fit stop enough = refl
    parse_value-print shows (suc n) (JsonValue.boolean true) rest fit stop enough = refl
    parse_value-print shows (suc n) (JsonValue.boolean false) rest fit stop enough = refl
    parse_value-print shows (suc n) (JsonValue.number x) rest fit stop enough =
        let (opens, starts) = number-Opens (show x) rest (shows.chars x) (shows.some_char x) in
        let same = opens.not_blank in
        rw (same, starts)
          (parse_number-show stod x (show x) rest (shows.chars x) (shows.some_char x)
            (shows.reads_back x) stop)
    parse_value-print shows (suc n) (JsonValue.string s) rest fit stop enough =
        ap (λ r. r >>= λ s rest. ok (JsonValue.string s) rest) (string_from-print_chars s rest fit)
    parse_value-print shows (suc n) (JsonValue.array nil) rest fit stop enough = refl
    parse_value-print shows (suc n) (JsonValue.array (item v xs)) rest fit stop enough =
        let opens = print-Opens shows v (print_items show xs rest) in
        let same = opens.not_blank in
        let more = opens.not_close in
        rw (same, more)
          (ap (λ r. r >>= λ xs rest. ok (JsonValue.array xs) rest)
            (parse_items-print shows n v xs rest fit (omega (arith, enough))))
    parse_value-print shows (suc n) (JsonValue.object empty) rest fit stop enough = refl
    parse_value-print shows (suc n) (JsonValue.object (member k v ms)) rest fit stop enough =
        ap (λ r. r >>= λ ms rest. ok (JsonValue.object ms) rest)
          (parse_members-print shows n empty k v ms rest fit (omega (arith, enough)))

    parse_items-print :
        ShowsNumbers stod show
        → (n : ℕ) (v : JsonValue N) (xs : Items N) (rest : List ℕ) → Printable v × ItemsPrintable xs
        → 2 * length (print show v (print_items show xs rest)) + 2 ≤ n
        → parse_items stod n (print show v (print_items show xs rest))
          ≡ ok (item (normal v) (normal_items xs)) rest
    parse_items-print shows zero v xs rest fit enough = absurd (omega (arith, enough))
    parse_items-print shows (suc n) v nil rest fit enough =
        ap
          (λ r. r >>= λ v rest.
            next_item stod (after b']' (peek (skip_ws rest))) (parse_items stod n) v
              (tail (skip_ws rest)))
          (parse_value-print shows n v (print_items show nil rest) fit.0 refl
            (omega (arith, enough)))
    parse_items-print shows (suc n) v (item v' xs) rest fit enough =
        ap
          (λ r. r >>= λ v rest.
            next_item stod (after b']' (peek (skip_ws rest))) (parse_items stod n) v
              (tail (skip_ws rest)))
          (parse_value-print shows n v (print_items show (item v' xs) rest) fit.0 refl
            (omega (arith, enough)))
        ∙ ap (λ r. r >>= λ xs rest. ok (item (normal v) xs) rest)
            (parse_items-print shows n v' xs rest fit.1
              (omega (arith, enough, print-le v (print_items show (item v' xs) rest))))

    parse_members-print :
        ShowsNumbers stod show
        → (n : ℕ) (obj : Members N) (k : List ℕ) (v : JsonValue N) (ms : Members N) (rest : List ℕ)
        → NoZero k × Printable v × MembersPrintable ms
        → 2 * length (print_string k (b':' ∷ print show v (print_members show ms rest))) + 2 ≤ n
        → parse_members stod n obj
            (print_string k (b':' ∷ print show v (print_members show ms rest)))
          ≡ ok (normal_members (emplace obj k (normal v)) ms) rest
    parse_members-print shows zero obj k v ms rest fit enough = absurd (omega (arith, enough))
    parse_members-print shows (suc n) obj k v empty rest fit enough =
        member_step n obj k v (print_members show empty rest) fit.0 (
          parse_value-print shows n v (print_members show empty rest) fit.1 refl
            (omega (arith, enough, key-le k v empty rest)))
    parse_members-print shows (suc n) obj k v (member k' v' ms) rest fit enough =
        member_step n obj k v (print_members show (member k' v' ms) rest) fit.0 (
          parse_value-print shows n v (print_members show (member k' v' ms) rest) fit.1 refl
            (omega (arith, enough, key-le k v (member k' v' ms) rest)))
        ∙ parse_members-print shows n (emplace obj k (normal v)) k' v' ms rest fit.2 (
            omega (
              arith,
              enough,
              key-le k v (member k' v' ms) rest,
              print-le v (print_members show (member k' v' ms) rest),
            ))

-- If `show` and `std::stod` fit each other, the reader gives back every value that has no character 0
-- in its strings from its compact text, whatever the nesting; of the members of an object that have
-- one key it keeps the first.
pub parse_document-print :
    {N : Type 0} (stod : List ℕ → Option N) (show : N → List ℕ) (v : JsonValue N)
    → ShowsNumbers stod show
    → Printable v
    → parse_document stod (print show v []) ≡ ok (normal v) []
unfolding parse_document at_end skip_ws
parse_document-print stod show v shows fit =
    let same = (print-Opens stod show shows v []).not_blank in
    rw same (
      ap (λ r. r >>= λ v rest. at_end stod v (skip_ws rest))
        (parse_value-print stod show shows (2 * length (print show v []) + 1) v [] fit refl
          (omega arith)))
