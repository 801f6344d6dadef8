-- ===== src/Config/Fine.antt =====
-- The readers without recursion on values: what they leave is no longer than what they read.
use high_frequency_trading_e.Prelude.{
  ℕ, suc, ◌-◌, ◌≤◌, ◌≡◌, refl, inl, inr, Bool, true, false, List, [], ◌∷◌, ◌++◌, Option, none, some,
  arith, ◌==◌, Bool-cases, length, drop, length-drop,
}
use high_frequency_trading_e.Config.{
  ParseError, Result, ok, err, ◌>>=◌, peek, tail, skip_ws, push, string_from, parse_string,
  parse_number, parse_bool, parse_null, of_option, starts_with, true_word, false_word, null_word,
  number_chars, sign_chars, unescape,
}

-- Whether an error is one of the source's.
abbrev pub is_source_error : ParseError → Bool
is_source_error ParseError.no_fuel = false
is_source_error _ = true

-- What is left is no longer than `l`, and an error is one of the source's.
abbrev pub Fine {ℓ} : {A : Type ℓ} → ℕ → Result A → Type 0
Fine l (ok a rest) = length rest ≤ l
Fine l (err e) = is_source_error e ≡ true

pub Fine-bind {ℓ κ} :
    {A : Type ℓ} {B : Type κ} (l l' : ℕ) (r : Result A) (f : A → List ℕ → Result B)
    → Fine l r
    → ((a : A) (rest : List ℕ) → length rest ≤ l → Fine l' (f a rest))
    → Fine l' (r >>= f)
Fine-bind l l' (ok a rest) f h next = next a rest h
Fine-bind l l' (err e) f h next = h

pub skip_ws-le : (t : List ℕ) → length (skip_ws t) ≤ length t
unfolding skip_ws
skip_ws-le [] = omega arith
skip_ws-le (c ∷ cs) = ground (arith, skip_ws-le cs)

pub tail-le : (t : List ℕ) → length (tail t) ≤ length t - 1
tail-le [] = omega arith
tail-le (c ∷ cs) = omega arith

pub push-Fine : (c l : ℕ) (r : Result (List ℕ)) → Fine l r → Fine l (push c r)
push-Fine c l (ok s rest) h = h
push-Fine c l (err e) h = h

pub Fine-le {ℓ} : {A : Type ℓ} (l l' : ℕ) (r : Result A) → l ≤ l' → Fine l r → Fine l' r
Fine-le l l' (ok a rest) le h = omega (arith, le, h)
Fine-le l l' (err e) le h = h

pub string_from-Fine : (escaped : Bool) (t : List ℕ) → Fine (length t) (string_from escaped t)
unfolding string_from
string_from-Fine escaped [] = refl
string_from-Fine true (c ∷ cs) = push-Fine (unescape c) (suc (length cs)) (string_from false cs) (
    Fine-le (length cs) (suc (length cs)) (string_from false cs) (omega arith)
      (string_from-Fine false cs))
string_from-Fine false (c ∷ cs) = elim (Bool-cases (c == 0)) [
  | inl zero_char ↦ rw zero_char refl
  | inr char ↦ elim (Bool-cases (c == b'"')) [
    | inl quote ↦ rw (char, quote) (omega arith)
    | inr inside ↦ elim (Bool-cases (c == b'\\')) [
      | inl escape ↦
          rw (char, inside, escape)
            (Fine-le (length cs) (suc (length cs)) (string_from true cs) (omega arith)
              (string_from-Fine true cs))
      | inr plain ↦
          rw (char, inside, plain)
            (push-Fine c (suc (length cs)) (string_from false cs) (
              Fine-le (length cs) (suc (length cs)) (string_from false cs) (omega arith)
                (string_from-Fine false cs)))
    ]
  ]
]

pub parse_string-Fine : (t : List ℕ) → Fine (length t) (parse_string t)
unfolding parse_string
parse_string-Fine t = elim (Bool-cases (peek t == b'"')) [
  | inr none_there ↦ rw none_there refl
  | inl quote ↦ rw quote (
      Fine-le (length (tail t)) (length t) (string_from false (tail t)) (omega (arith, tail-le t))
        (string_from-Fine false (tail t)))
]

pub drop-le : (n : ℕ) (t : List ℕ) → length (drop n t) ≤ length t
drop-le n t = omega (arith, length-drop n t)

module _ {N : Type 0} (stod : List ℕ → Option N) where
  pub parse_bool-Fine : (t : List ℕ) → Fine (length t) (parse_bool stod t)
  unfolding parse_bool
  parse_bool-Fine t = elim (Bool-cases (starts_with true_word t)) [
    | inl yes_it_is ↦ rw yes_it_is (drop-le 4 t)
    | inr not_true ↦ elim (Bool-cases (starts_with false_word t)) [
      | inl yes_it_is ↦ rw (not_true, yes_it_is) (drop-le 5 t)
      | inr neither ↦ rw (not_true, neither) refl
    ]
  ]

  pub parse_null-Fine : (t : List ℕ) → Fine (length t) (parse_null stod t)
  unfolding parse_null
  parse_null-Fine t = elim (Bool-cases (starts_with null_word t)) [
    | inl yes_it_is ↦ rw yes_it_is (drop-le 4 t)
    | inr neither ↦ rw neither refl
  ]

  pub of_option-Fine :
      (l : ℕ) (o : Option N) (rest : List ℕ) → length rest ≤ l → Fine l (of_option o rest)
  of_option-Fine l none rest h = refl
  of_option-Fine l (some x) rest h = h

  pub parse_number-Fine : (t : List ℕ) → Fine (length t) (parse_number stod t)
  unfolding parse_number
  parse_number-Fine t =
      let unsigned = drop (length (sign_chars t)) t in
      let cs = number_chars unsigned in
      elim (Bool-cases (length cs == 0)) [
        | inl nothing ↦ rw nothing refl
        | inr some_chars ↦ rw some_chars (
            of_option-Fine (length t) (stod (sign_chars t ++ cs)) (drop (length cs) unsigned)
              (omega (arith, drop-le (length cs) unsigned, drop-le (length (sign_chars t)) t)))
      ]
