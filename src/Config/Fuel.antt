-- ===== src/Config/Fuel.antt =====
-- The readers end on every text: two rounds for each character are enough.
use high_frequency_trading_e.Prelude.{
  ℕ, zero, suc, ◌+◌, ◌-◌, ◌*◌, ◌≤◌, ◌<◌, ◌≡◌, ◌≢◌, refl, sym, ◌∙◌, subst, ◌⊎◌, inl, inr, true, List,
  [], ◌∷◌, Option, arith, ◌==◌, if◌then◌else◌, Bool-cases, length,
}
use high_frequency_trading_e.Config.{
  ParseError, Result, ok, err, ◌>>=◌, JsonValue, Items, Members, empty, peek, tail, skip_ws,
  parse_string, parse_value, parse_items, parse_members, parse_document, at_end, start_of, Start,
  after, After, emplace, parse_object, parse_array, parse_start, next_item, after_key, key_value,
  next_member,
}
use high_frequency_trading_e.Config.Fine.{
  is_source_error, Fine, Fine-bind, skip_ws-le, tail-le, Fine-le, parse_string-Fine,
  parse_bool-Fine, parse_null-Fine, parse_number-Fine,
}

start_nonempty : (w : List ℕ) → start_of (peek w) ≢ Start.number → 1 ≤ length w
unfolding start_of
start_nonempty [] h = absurd (h refl)
start_nonempty (c ∷ cs) h = omega arith

comma_nonempty : (closing : ℕ) (w : List ℕ) → after closing (peek w) ≡ After.comma → 1 ≤ length w
unfolding after
comma_nonempty closing [] h = elim (Bool-cases (0 == closing)) [
  | inl e ↦
      absurd
        (close_not_comma (subst (λ b. (if b then After.close else After.other) ≡ After.comma) e h))
  | inr e ↦
      absurd
        (other_not_comma (subst (λ b. (if b then After.close else After.other) ≡ After.comma) e h))
]
  where
    close_not_comma : After.close ≢ After.comma
    close_not_comma e = cc

    other_not_comma : After.other ≢ After.comma
    other_not_comma e = cc
comma_nonempty closing (c ∷ cs) h = omega arith

-- A character read: what follows the next one that is not blank.
next-le : (t : List ℕ) → length (tail (skip_ws t)) ≤ length t - 1
next-le t = omega (arith, tail-le (skip_ws t), skip_ws-le t)

inner-le : (w : List ℕ) → 1 ≤ length w → length (skip_ws (tail w)) + 1 ≤ length w
inner-le w h = omega (arith, skip_ws-le (tail w), tail-le w, h)

module _ {N : Type 0} (stod : List ℕ → Option N) where
  -- Readers that end on the texts shorter than `l`.
  abbrev ItemsFine : ℕ → (List ℕ → Result (Items N)) → Type 0
  ItemsFine l items = (t : List ℕ) → length t < l → Fine (length t) (items t)

  abbrev MembersFine : ℕ → (Members N → List ℕ → Result (Members N)) → Type 0
  MembersFine l members =
      (obj : Members N) (t : List ℕ) → length t < l → Fine (length t) (members obj t)

  object-Fine :
      (members : Members N → List ℕ → Result (Members N)) (w : List ℕ)
      → 1 ≤ length w
      → MembersFine (length w) members
      → Fine (length w) (parse_object stod members w)
  unfolding parse_object
  object-Fine members w some_char fine = elim (Bool-cases (peek (skip_ws (tail w)) == b'}')) [
    | inl closed ↦ rw closed (omega (arith, inner-le w some_char, tail-le (skip_ws (tail w))))
    | inr more ↦ rw more (
        Fine-bind (length (skip_ws (tail w))) (length w) (members empty (skip_ws (tail w))) _
          (fine empty (skip_ws (tail w)) (omega (arith, inner-le w some_char)))
          (λ ms rest h. omega (arith, h, inner-le w some_char)))
  ]

  array-Fine :
      (items : List ℕ → Result (Items N)) (w : List ℕ)
      → 1 ≤ length w
      → ItemsFine (length w) items
      → Fine (length w) (parse_array stod items w)
  unfolding parse_array
  array-Fine items w some_char fine = elim (Bool-cases (peek (skip_ws (tail w)) == b']')) [
    | inl closed ↦ rw closed (omega (arith, inner-le w some_char, tail-le (skip_ws (tail w))))
    | inr more ↦ rw more (
        Fine-bind (length (skip_ws (tail w))) (length w) (items (skip_ws (tail w))) _
          (fine (skip_ws (tail w)) (omega (arith, inner-le w some_char)))
          (λ xs rest h. omega (arith, h, inner-le w some_char)))
  ]

  start-Fine :
      (s : Start) (items : List ℕ → Result (Items N))
      (members : Members N → List ℕ → Result (Members N)) (w : List ℕ)
      → start_of (peek w) ≡ s
      → ItemsFine (length w) items
      → MembersFine (length w) members
      → Fine (length w) (parse_start stod s items members w)
  unfolding parse_start
  start-Fine Start.object items members w e fi fm =
      object-Fine members w
        (start_nonempty w (λ e'. let x : Start.object ≡ Start.number = sym e ∙ e' in cc)) fm
  start-Fine Start.array items members w e fi fm =
      array-Fine items w
        (start_nonempty w (λ e'. let x : Start.array ≡ Start.number = sym e ∙ e' in cc)) fi
  start-Fine Start.string items members w e fi fm =
      Fine-bind (length w) (length w) (parse_string w) _ (parse_string-Fine w) (λ s rest h. h)
  start-Fine Start.literal items members w e fi fm = parse_bool-Fine stod w
  start-Fine Start.null items members w e fi fm = parse_null-Fine stod w
  start-Fine Start.number items members w e fi fm = parse_number-Fine stod w

  next_item-Fine :
      (s : After) (items : List ℕ → Result (Items N)) (v : JsonValue N) (w : List ℕ)
      → after b']' (peek w) ≡ s
      → ItemsFine (length w) items
      → Fine (length w) (next_item stod s items v (tail w))
  unfolding next_item
  next_item-Fine After.comma items v w e fine =
      let some_char = comma_nonempty b']' w e in
      Fine-bind (length (tail w)) (length w) (items (tail w)) _
        (fine (tail w) (omega (arith, some_char, tail-le w)))
        (λ xs rest h. omega (arith, h, tail-le w))
  next_item-Fine After.close items v w e fine = omega (arith, tail-le w)
  next_item-Fine After.other items v w e fine = refl

  next_member-Fine :
      (s : After) (members : Members N → List ℕ → Result (Members N)) (obj : Members N) (w : List ℕ)
      → after b'}' (peek w) ≡ s
      → MembersFine (length w) members
      → Fine (length w) (next_member stod s members obj (tail w))
  unfolding next_member
  next_member-Fine After.comma members obj w e fine =
      let some_char = comma_nonempty b'}' w e in
      Fine-le (length (tail w)) (length w) (members obj (tail w)) (omega (arith, tail-le w))
        (fine obj (tail w) (omega (arith, some_char, tail-le w)))
  next_member-Fine After.close members obj w e fine = omega (arith, tail-le w)
  next_member-Fine After.other members obj w e fine = refl

  after_key-Fine :
      (value : List ℕ → Result (JsonValue N)) (key w : List ℕ)
      → ((t : List ℕ) → length t ≤ length w → Fine (length t) (value t))
      → Fine (length w) (after_key stod value key w)
  unfolding after_key
  after_key-Fine value key w fine = elim (Bool-cases (peek w == b':')) [
    | inr none_there ↦ rw none_there refl
    | inl there ↦ rw there (
        Fine-bind (length (tail w)) (length w) (value (tail w)) _
          (fine (tail w) (omega (arith, tail-le w))) (λ v rest h. omega (arith, h, tail-le w)))
  ]

  key_value-Fine :
      (value : List ℕ → Result (JsonValue N)) (w : List ℕ)
      → ((t : List ℕ) → length t ≤ length w → Fine (length t) (value t))
      → Fine (length w) (key_value stod value w)
  unfolding key_value
  key_value-Fine value w fine = elim (Bool-cases (peek w == b'"')) [
    | inr no_key ↦ rw no_key refl
    | inl key ↦ rw key (
        Fine-bind (length w) (length w) (parse_string w) _ (parse_string-Fine w) (λ k rest h.
          Fine-le (length (skip_ws rest)) (length w) (after_key stod value k (skip_ws rest))
            (omega (arith, h, skip_ws-le rest))
            (after_key-Fine value k (skip_ws rest)
              (λ t le. fine t (omega (arith, le, h, skip_ws-le rest))))))
  ]

  mutual
    unfolding parse_value

    value-Fine :
        (n : ℕ) (t : List ℕ) → 2 * length t + 1 ≤ n → Fine (length t) (parse_value stod n t)
    value-Fine zero t enough = absurd (omega (arith, enough))
    value-Fine (suc n) t enough =
        Fine-le (length (skip_ws t)) (length t)
          (parse_start stod (start_of (peek (skip_ws t))) (parse_items stod n)
            (parse_members stod n) (skip_ws t))
          (skip_ws-le t)
          (start-Fine (start_of (peek (skip_ws t))) (parse_items stod n) (parse_members stod n)
            (skip_ws t) refl (λ t' lt. items-Fine n t' (omega (arith, lt, enough, skip_ws-le t)))
            (λ obj t' lt. members-Fine n obj t' (omega (arith, lt, enough, skip_ws-le t))))

    items-Fine :
        (n : ℕ) (t : List ℕ) → 2 * length t + 2 ≤ n → Fine (length t) (parse_items stod n t)
    items-Fine zero t enough = absurd (omega (arith, enough))
    items-Fine (suc n) t enough =
        Fine-bind (length t) (length t) (parse_value stod n t) _
          (value-Fine n t (omega (arith, enough)))
          (λ v rest h.
            Fine-le (length (skip_ws rest)) (length t) _ (omega (arith, h, skip_ws-le rest)) (
              next_item-Fine (after b']' (peek (skip_ws rest))) (parse_items stod n) v
                (skip_ws rest) refl
                (λ t' lt. items-Fine n t' (omega (arith, lt, h, enough, skip_ws-le rest)))))

    members-Fine :
        (n : ℕ) (obj : Members N) (t : List ℕ)
        → 2 * length t + 2 ≤ n
        → Fine (length t) (parse_members stod n obj t)
    members-Fine zero obj t enough = absurd (omega (arith, enough))
    members-Fine (suc n) obj t enough =
        Fine-bind (length t) (length t) (key_value stod (parse_value stod n) (skip_ws t)) _
          (Fine-le (length (skip_ws t)) (length t) (key_value stod (parse_value stod n) (skip_ws t))
            (skip_ws-le t)
            (key_value-Fine (parse_value stod n) (skip_ws t)
              (λ t' le. value-Fine n t' (omega (arith, le, enough, skip_ws-le t)))))
          (λ kv rest h.
            Fine-le (length (skip_ws rest)) (length t) _ (omega (arith, h, skip_ws-le rest)) (
              next_member-Fine (after b'}' (peek (skip_ws rest))) (parse_members stod n)
                (emplace obj kv.0 kv.1) (skip_ws rest) refl
                (λ obj' t' lt.
                  members-Fine n obj' t' (omega (arith, lt, h, enough, skip_ws-le rest)))))

  at_end_cases :
      (v : JsonValue N) (t : List ℕ)
      → (at_end stod v t ≡ ok v []) ⊎ (at_end stod v t ≡ err ParseError.trailing)
  unfolding at_end
  at_end_cases v [] = inl refl
  at_end_cases v (c ∷ cs) = inr (ground arith)

  -- A document ends in a value with nothing left over, or in one of the source's errors.
  abbrev pub Ended : Result (JsonValue N) → Type 0
  Ended r =
      ((v : JsonValue N) × (r ≡ ok v []))
      ⊎ ((e : ParseError) × (r ≡ err e) × (is_source_error e ≡ true))

  bind-Ended :
      (l : ℕ) (r : Result (JsonValue N))
      → Fine l r
      → Ended (r >>= λ v rest. at_end stod v (skip_ws rest))
  bind-Ended l (err e) fine = inr (e, refl, fine)
  bind-Ended l (ok v rest) fine = elim (at_end_cases v (skip_ws rest)) [
    | inl whole ↦ inl (v, whole)
    | inr more ↦ inr (ParseError.trailing, more, refl)
  ]

-- Reading any text as a document ends: it gives a value with nothing left over, or one of the
-- errors that the source throws, whatever `std::stod` does.
pub parse_document_ends :
    {N : Type 0} (stod : List ℕ → Option N) (text : List ℕ) → Ended stod (parse_document stod text)
unfolding parse_document
parse_document_ends stod text =
    bind-Ended stod (length (skip_ws text)) (parse_value stod (2 * length text + 1) (skip_ws text))
      (value-Fine stod (2 * length text + 1) (skip_ws text) (omega (arith, skip_ws-le text)))
