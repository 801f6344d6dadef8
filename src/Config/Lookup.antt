-- ===== src/Config/Lookup.antt =====
-- The dotted paths of include/hft/config.hpp, and what a lookup finds in a value that was read.
use high_frequency_trading_e.Prelude.{
  ℕ, ◌≡◌, refl, sym, ap, ap₂, ◌∙◌, ◌⊎◌, inl, inr, Bool, true, false, List, [], ◌∷◌, Option, none,
  some, ◌==◌, if◌then◌else◌, Bool-cases, ==_iff,
}
use high_frequency_trading_e.Prelude.Int.{ℤ}
use high_frequency_trading_e.Config.{
  JsonValue, Members, empty, member, eq_text, lookup, emplace, parse_document, ok,
}
use high_frequency_trading_e.Config.Print.{print, normal, normal_members, Printable, ShowsNumbers}
use high_frequency_trading_e.Config.Tokens.{both}
use high_frequency_trading_e.Config.RoundTrip.{parse_document-print}

abbrev put_first : ℕ → List (List ℕ) → List (List ℕ)
put_first c [] = (c ∷ []) ∷ []
put_first c (k ∷ ks) = (c ∷ k) ∷ ks

-- The keys between the dots of a path, an empty one included.
unfoldable pub keys : List ℕ → List (List ℕ)
keys [] = [] ∷ []
keys (c ∷ cs) = let rest = keys cs in if c == b'.' then [] ∷ rest else put_first c rest

module _ {N : Type 0} where
  -- The member of an object; anything else has none.
  abbrev pub child : Option (JsonValue N) → List ℕ → Option (JsonValue N)
  child none key = none
  child (some (JsonValue.object ms)) key = lookup ms key
  child (some _) key = none

  -- The loop of `find`, a key at a time; `none` is the null pointer.
  unfoldable pub find_keys : Option (JsonValue N) → List (List ℕ) → Option (JsonValue N)
  find_keys cur [] = cur
  find_keys cur (k ∷ ks) = find_keys (child cur k) ks

  unfoldable pub find : JsonValue N → List ℕ → Option (JsonValue N)
  find root dotted = find_keys (some root) (keys dotted)

  abbrev pub long_of : (N → ℤ) → Option (JsonValue N) → ℤ → ℤ
  long_of to_long (some (JsonValue.number x)) def = to_long x
  long_of to_long _ def = def

  -- `to_long` is `static_cast<long>` of a double.
  unfoldable pub get_int : (N → ℤ) → JsonValue N → List ℕ → ℤ → ℤ
  get_int to_long root path def = long_of to_long (find root path) def

  abbrev pub double_of : Option (JsonValue N) → N → N
  double_of (some (JsonValue.number x)) def = x
  double_of _ def = def

  unfoldable pub get_double : JsonValue N → List ℕ → N → N
  get_double root path def = double_of (find root path) def

  abbrev pub bool_of : Option (JsonValue N) → Bool → Bool
  bool_of (some (JsonValue.boolean b)) def = b
  bool_of _ def = def

  unfoldable pub get_bool : JsonValue N → List ℕ → Bool → Bool
  get_bool root path def = bool_of (find root path) def

  abbrev pub text_of : Option (JsonValue N) → List ℕ → List ℕ
  text_of (some (JsonValue.string s)) def = s
  text_of _ def = def

  unfoldable pub get_string : JsonValue N → List ℕ → List ℕ → List ℕ
  get_string root path def = text_of (find root path) def

eq_text→≡ : (xs ys : List ℕ) → eq_text xs ys ≡ true → xs ≡ ys
unfolding eq_text
eq_text→≡ [] [] h = refl
eq_text→≡ [] (y ∷ ys) h = absurd (cc)
eq_text→≡ (x ∷ xs) [] h = absurd (cc)
eq_text→≡ (x ∷ xs) (y ∷ ys) h =
    let (first, others) = both (x == y) (eq_text xs ys) h in
    ap₂ ◌∷◌ ((==_iff x y).0 first) (eq_text→≡ xs ys others)

-- The first of two, if it is there.
abbrev first_of {ℓ} : {A : Type ℓ} → Option A → Option A → Option A
first_of (some a) o = some a
first_of none o = o

module _ {N : Type 0} where
  lookup-emplace :
      (obj : Members N) (k : List ℕ) (v : JsonValue N) (key : List ℕ)
      → lookup (emplace obj k v) key
        ≡ first_of (lookup obj key) (if eq_text k key then some v else none)
  unfolding lookup emplace
  lookup-emplace empty k v key = refl
  lookup-emplace (member k0 v0 ms) k v key = elim (Bool-cases (eq_text k0 k)) [
    | inl there ↦ rw there (elim (Bool-cases (eq_text k0 key)) [
      | inl hit ↦ rw hit refl
      | inr miss ↦
          let other : eq_text k key ≡ false =
            ap (λ x. eq_text x key) (sym (eq_text→≡ k0 k there)) ∙ miss in
          rw (miss, other) (sym (first_of_none (lookup ms key)))
    ])
    | inr absent ↦ rw absent (elim (Bool-cases (eq_text k0 key)) [
      | inl hit ↦ rw hit refl
      | inr miss ↦ rw miss (lookup-emplace ms k v key)
    ])
  ]
    where
      first_of_none : (o : Option (JsonValue N)) → first_of o none ≡ o
      first_of_none none = refl
      first_of_none (some x) = refl

  abbrev pub normal_of : Option (JsonValue N) → Option (JsonValue N)
  normal_of none = none
  normal_of (some v) = some (normal v)

  first_of_assoc :
      (a b c : Option (JsonValue N)) → first_of (first_of a b) c ≡ first_of a (first_of b c)
  first_of_assoc none b c = refl
  first_of_assoc (some x) b c = refl

  lookup-normal_members :
      (obj ms : Members N) (key : List ℕ)
      → lookup (normal_members obj ms) key ≡ first_of (lookup obj key) (normal_of (lookup ms key))
  unfolding lookup normal
  lookup-normal_members obj empty key = sym (first_of_none (lookup obj key))
    where
      first_of_none : (o : Option (JsonValue N)) → first_of o none ≡ o
      first_of_none none = refl
      first_of_none (some x) = refl
  lookup-normal_members obj (member k v ms) key =
      lookup-normal_members (emplace obj k (normal v)) ms key
      ∙ ap (λ o. first_of o (normal_of (lookup ms key))) (lookup-emplace obj k (normal v) key)
      ∙ first_of_assoc (lookup obj key) (if eq_text k key then some (normal v) else none)
          (normal_of (lookup ms key))
      ∙ ap (first_of (lookup obj key)) (split (Bool-cases (eq_text k key)))
    where
      split :
          (eq_text k key ≡ true) ⊎ (eq_text k key ≡ false)
          → first_of (if eq_text k key then some (normal v) else none) (normal_of (lookup ms key))
            ≡ normal_of (if eq_text k key then some v else lookup ms key)
      split (inl hit) = rw hit refl
      split (inr miss) = rw miss refl

  child-normal_of :
      (o : Option (JsonValue N)) (key : List ℕ) → child (normal_of o) key ≡ normal_of (child o key)
  unfolding normal lookup
  child-normal_of none key = refl
  child-normal_of (some JsonValue.null) key = refl
  child-normal_of (some (JsonValue.boolean b)) key = refl
  child-normal_of (some (JsonValue.number x)) key = refl
  child-normal_of (some (JsonValue.string s)) key = refl
  child-normal_of (some (JsonValue.array xs)) key = refl
  child-normal_of (some (JsonValue.object ms)) key = lookup-normal_members empty ms key

  find_keys-normal_of :
      (o : Option (JsonValue N)) (ks : List (List ℕ))
      → find_keys (normal_of o) ks ≡ normal_of (find_keys o ks)
  unfolding find_keys
  find_keys-normal_of o [] = refl
  find_keys-normal_of o (k ∷ ks) =
      ap (λ c. find_keys c ks) (child-normal_of o k) ∙ find_keys-normal_of (child o k) ks

-- In a value that was read from the compact text of `v`, a dotted path leads to what it leads to in
-- `v`, by the first member of each key, or to nothing where it leads to nothing in `v`. `show` and
-- `std::stod` fit each other, and no string of `v` has a character 0.
pub find-parse :
    {N : Type 0} (stod : List ℕ → Option N) (show : N → List ℕ) (v : JsonValue N) (path : List ℕ)
    → ShowsNumbers stod show
    → Printable v
    → (root : JsonValue N) × (parse_document stod (print show v []) ≡ ok root [])
      × (find root path ≡ normal_of (find v path))
unfolding find
find-parse stod show v path shows fit =
    (normal v, parse_document-print stod show v shows fit, find_keys-normal_of (some v) (keys path))
