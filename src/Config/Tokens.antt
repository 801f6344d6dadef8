-- ===== src/Config/Tokens.antt =====
-- Strings and numbers read back from what the writer of Config/Print wrote.
use high_frequency_trading_e.Prelude.{
  ℕ, ◌≤◌, ◌≡◌, refl, ap, subst, inl, inr, Bool, true, false, ◌&&◌, List, [], ◌∷◌, ◌++◌, Option,
  some, arith, ◌==◌, Bool-cases, ==_iff, length, drop, drop-length-append,
}
use high_frequency_trading_e.Config.{
  ok, JsonValue, peek, is_space, is_number_char, is_sign, push, string_from, parse_number, start_of,
  Start, number_chars, sign_chars,
}
use high_frequency_trading_e.Config.Print.{print_chars, NoZero, all_number_chars}

pub string_from-print_chars :
    (s rest : List ℕ) → NoZero s → string_from false (print_chars s (b'"' ∷ rest)) ≡ ok s rest
unfolding string_from print_chars
string_from-print_chars [] rest fit = refl
string_from-print_chars (c ∷ cs) rest fit =
    let back = string_from-print_chars cs rest fit.1 in
    elim (Bool-cases (c == b'"')) [
      | inl quote ↦ let e : c ≡ b'"' = (==_iff _ _).0 quote in rw e (ap (push b'"') back)
      | inr plain ↦ elim (Bool-cases (c == b'\\')) [
        | inl escape ↦ let e : c ≡ b'\\' = (==_iff _ _).0 escape in rw e (ap (push b'\\') back)
        | inr usual ↦
            let not_end : (c == 0) ≡ false = let char = fit.0 in ground arith in
            rw (plain, usual, not_end, plain, usual) (ap (push c) back)
      ]
    ]

pub both : (a b : Bool) → (a && b) ≡ true → (a ≡ true) × (b ≡ true)
both true true h = (refl, refl)
both true false h = (refl, h)
both false b h = absurd (cc)

number_chars-append :
    (u rest : List ℕ)
    → all_number_chars u ≡ true
    → is_number_char (peek rest) ≡ false
    → number_chars (u ++ rest) ≡ u
unfolding number_chars all_number_chars
number_chars-append [] [] all stop = refl
number_chars-append [] (c ∷ cs) all stop = rw stop refl
number_chars-append (c ∷ u) rest all stop =
    let (first, others) = both (is_number_char c) (all_number_chars u) all in
    rw first (ap (◌∷◌ c) (number_chars-append u rest others stop))

-- A number character is not blank, closes nothing and starts a number.
pub number_char_lem :
    (c : ℕ)
    → is_number_char c ≡ true
    → (is_space c ≡ false) × ((c == b']') ≡ false) × (start_of c ≡ Start.number)
unfolding start_of
number_char_lem c h =
    let brace : (c == b'{') ≡ false = ground arith in
    let bracket : (c == b'[') ≡ false = ground arith in
    let quote : (c == b'"') ≡ false = ground arith in
    let not_true : (c == b't') ≡ false = ground arith in
    let not_false : (c == b'f') ≡ false = ground arith in
    let not_null : (c == b'n') ≡ false = ground arith in
    (ground arith, ground arith, rw (brace, bracket, quote, not_true, not_false, not_null) refl)

module _ {N : Type 0} (stod : List ℕ → Option N) where
  -- A number behind a sign or none.
  read_number :
      (t sign u rest : List ℕ) (x : N)
      → sign_chars t ≡ sign
      → drop (length sign) t ≡ u ++ rest
      → all_number_chars u ≡ true
      → 1 ≤ length u
      → is_number_char (peek rest) ≡ false
      → stod (sign ++ u) ≡ some x
      → parse_number stod t ≡ ok (JsonValue.number x) rest
  unfolding parse_number
  read_number t sign u rest x signs behind all some_char stop reads =
      let some_there : (length u == 0) ≡ false = ground arith in
      let e : number_chars (u ++ rest) ≡ u = number_chars-append u rest all stop in
      rw (signs, behind, e, some_there, reads, drop-length-append u rest) refl

  pub parse_number-show :
      (x : N) (u rest : List ℕ)
      → all_number_chars u ≡ true
      → 1 ≤ length (drop (length (sign_chars u)) u)
      → stod u ≡ some x
      → is_number_char (peek rest) ≡ false
      → parse_number stod (u ++ rest) ≡ ok (JsonValue.number x) rest
  unfolding all_number_chars
  parse_number-show x [] rest all some_char reads stop = absurd (omega (arith, some_char))
  parse_number-show x (c ∷ cs) rest all some_char reads stop = elim (Bool-cases (is_sign c)) [
    | inl sign ↦
        let signs : sign_chars (c ∷ (cs ++ rest)) ≡ c ∷ [] = rw sign refl in
        let e : sign_chars (c ∷ cs) ≡ c ∷ [] = rw sign refl in
        read_number (c ∷ (cs ++ rest)) (c ∷ []) cs rest x signs refl
          (both (is_number_char c) (all_number_chars cs) all).1
          (subst (λ l. 1 ≤ length (drop (length l) (c ∷ cs))) e some_char) stop reads
    | inr unsigned ↦
        let signs : sign_chars (c ∷ (cs ++ rest)) ≡ [] = rw unsigned refl in
        read_number (c ∷ (cs ++ rest)) [] (c ∷ cs) rest x signs refl all (omega arith) stop reads
  ]
