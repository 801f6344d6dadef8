-- ===== src/Itch50/Parse.antt =====
-- The field layer of the decoder: which bytes of a body are read, and the message that they spell.
use native.Mathlib.Decide.{dec_lt}
use high_frequency_trading_e.Prelude.{
  ℕ, zero, suc, ◌+◌, ◌*◌, ◌≤◌, ◌<◌, ◌≡◌, ◌≢◌, ◌↔◌, refl, inl, inr, true, false, ◌||◌, List, [], ◌∷◌,
  Option, none, some, arith, ◌==◌, if◌then◌else◌, Bool-cases, Option-cases, subst, ==_iff, length,
  get_elem?, get_elem?_within, get_elem?_past,
}
use high_frequency_trading_e.Itch50.{
  ◌>>=◌, Decoder, LevelDelta, Effect, Header, read_be, be32, be48, be64, read_header,
  expected_length, to_engine_price, side_of, decode, apply_header, apply, no_delta, count_ignored,
  count_malformed, count_decoded, count_live,
}
use high_frequency_trading_e.Itch50.Ledger.{Msg, handle}

-- A read of `n` bytes at `i` succeeds when they lie in the body, and only then.
pub read_be-within :
    (n : ℕ) (p : List ℕ) (i v : ℕ) → i + n ≤ length p → (x : ℕ) × (read_be n p i v ≡ some x)
unfolding read_be
read_be-within zero p i v h = (v, refl)
read_be-within (suc n) p i v h =
    let (b, e) = get_elem?_within p i (omega arith) in
    let (x, e') = read_be-within n p (i + 1) (v * 256 + b) (omega arith) in (x, rw e e')

pub read_be-past :
    (n : ℕ) (p : List ℕ) (i v : ℕ) → length p < i + suc n → read_be (suc n) p i v ≡ none
unfolding read_be
read_be-past zero p i v h = rw (get_elem?_past p i (omega arith)) refl
read_be-past (suc n) p i v h = elim (Option-cases (get_elem? p i)) [
  | inl out ↦ rw out refl
  | inr (b, e) ↦ rw e (read_be-past n p (i + 1) (v * 256 + b) (omega arith))
]

-- The message that a body of type `t` spells; `none` is a read past its end.
unfoldable pub parse : List ℕ → ℕ → Option Msg
parse body t =
    if t == b'A' || t == b'F'
    then (do
      ref ← be64 body 11
      side ← get_elem? body 19
      shares ← be32 body 20
      price ← be32 body 32
      some (
          Msg.add ref
            (record { price = to_engine_price price; shares = shares; side = side_of side })))
    else if t == b'E' || t == b'C'
    then (do ref ← be64 body 11; shares ← be32 body 19; some (Msg.execute ref shares))
    else if t == b'X'
    then (do ref ← be64 body 11; shares ← be32 body 19; some (Msg.cancel ref shares))
    else if t == b'D'
    then (do ref ← be64 body 11; some (Msg.delete ref))
    else if t == b'U'
    then (do
      orig ← be64 body 11
      new_ref ← be64 body 19
      shares ← be32 body 27
      price ← be32 body 31
      some (Msg.replace orig new_ref (to_engine_price price) shares))
    else some Msg.other

-- `decode` reads the fields that `parse` reads and acts on them as `handle` does.
pub decode_lem :
    (d : Decoder) (body : List ℕ) (out : LevelDelta) (t : ℕ)
    → decode d body out t ≡ (parse body t >>= λ m. some (handle d out m))
unfolding decode parse handle
decode_lem d body out t = ground arith

module _ (body : List ℕ) where
  header_within : 11 ≤ length body → (h : Header) × (read_header body ≡ some h)
  unfolding read_header
  header_within long =
      let (k, ek) = get_elem?_within body 0 (omega arith) in
      let (l, el) = read_be-within 2 body 1 0 (omega arith) in
      let (t, et) = read_be-within 2 body 3 0 (omega arith) in
      let (s, es) = read_be-within 6 body 5 0 (omega arith) in
      (
        record { kind = k; stock_locate = l; tracking_number = t; timestamp_ns = s },
        rw (ek, el, et, es) refl,
      )

  header_past : length body < 11 → read_header body ≡ none
  unfolding read_header
  header_past short =
      let gone : be48 body 5 ≡ none = read_be-past 5 body 5 0 (omega arith) in ground arith

  -- The reads of each kind lie below the last byte that the kind reads.
  add_within :
      36 ≤ length body
      → (m : Msg) × ((do
        ref ← be64 body 11
        side ← get_elem? body 19
        shares ← be32 body 20
        price ← be32 body 32
        some (
            Msg.add ref
              (record { price = to_engine_price price; shares = shares; side = side_of side })))
          ≡ some m)
  add_within long =
      let (ref, e₁) = read_be-within 8 body 11 0 (omega arith) in
      let (side, e₂) = get_elem?_within body 19 (omega arith) in
      let (shares, e₃) = read_be-within 4 body 20 0 (omega arith) in
      let (price, e₄) = read_be-within 4 body 32 0 (omega arith) in
      (
        Msg.add ref
            (record { price = to_engine_price price; shares = shares; side = side_of side }),
        rw (e₁, e₂, e₃, e₄) refl,
      )

  reduce_within :
      (f : ℕ → ℕ → Msg)
      → 23 ≤ length body
      → (m : Msg) × ((do ref ← be64 body 11; shares ← be32 body 19; some (f ref shares)) ≡ some m)
  reduce_within f long =
      let (ref, e₁) = read_be-within 8 body 11 0 (omega arith) in
      let (shares, e₂) = read_be-within 4 body 19 0 (omega arith) in
      (f ref shares, rw (e₁, e₂) refl)

  delete_within :
      19 ≤ length body → (m : Msg) × ((do ref ← be64 body 11; some (Msg.delete ref)) ≡ some m)
  delete_within long =
      let (ref, e₁) = read_be-within 8 body 11 0 (omega arith) in (Msg.delete ref, rw e₁ refl)

  replace_within :
      35 ≤ length body
      → (m : Msg) × ((do
        orig ← be64 body 11
        new_ref ← be64 body 19
        shares ← be32 body 27
        price ← be32 body 31
        some (Msg.replace orig new_ref (to_engine_price price) shares))
          ≡ some m)
  replace_within long =
      let (orig, e₁) = read_be-within 8 body 11 0 (omega arith) in
      let (new_ref, e₂) = read_be-within 8 body 19 0 (omega arith) in
      let (shares, e₃) = read_be-within 4 body 27 0 (omega arith) in
      let (price, e₄) = read_be-within 4 body 31 0 (omega arith) in
      (Msg.replace orig new_ref (to_engine_price price) shares, rw (e₁, e₂, e₃, e₄) refl)

  -- A body of the length that its type wants holds all that its type reads.
  parse_within : (t : ℕ) → length body ≡ expected_length t → (m : Msg) × (parse body t ≡ some m)
  unfolding parse expected_length
  parse_within t len = elim (Bool-cases (t == b'A' || t == b'F')) [
    | inl k ↦ rw k (add_within (ground arith))
    | inr k₁ ↦ rw k₁ (elim (Bool-cases (t == b'E' || t == b'C')) [
      | inl k ↦ rw k (reduce_within Msg.execute (ground arith))
      | inr k₂ ↦ rw k₂ (elim (Bool-cases (t == b'X')) [
        | inl k ↦ rw k (reduce_within Msg.cancel (ground arith))
        | inr k₃ ↦ rw k₃ (elim (Bool-cases (t == b'D')) [
          | inl k ↦ rw k (delete_within (ground arith))
          | inr k₄ ↦ rw k₄ (elim (Bool-cases (t == b'U')) [
            | inl k ↦ rw k (replace_within (ground arith))
            | inr k₅ ↦ rw k₅ (Msg.other, refl)
          ])
        ])
      ])
    ])
  ]

abbrev pub stamped : Header → LevelDelta
stamped h = record no_delta { timestamp_ns = h.timestamp_ns; stock_locate = h.stock_locate }

-- What `apply` does with a body: it is counted and ignored, it is counted as malformed, or it has
-- the length of its type and its message is handled.
pub data Applied (d : Decoder) (body : List ℕ) (e : Effect) : Type 0 where
  ignored :
      (h : Header)
      → read_header body ≡ some h
      → expected_length h.kind ≡ 0
      → e ≡ (count_ignored d, no_delta)
      → Applied d body e
  malformed :
      (h : Header)
      → read_header body ≡ some h
      → expected_length h.kind ≢ 0
      → length body ≢ expected_length h.kind
      → e ≡ (count_malformed d, no_delta)
      → Applied d body e
  empty : body ≡ [] → e ≡ (count_malformed d, no_delta) → Applied d body e
  handled :
      (h : Header) (m : Msg)
      → read_header body ≡ some h
      → expected_length h.kind ≢ 0
      → length body ≡ expected_length h.kind
      → parse body h.kind ≡ some m
      → e ≡ count_live (handle (count_decoded d) (stamped h) m)
      → Applied d body e

module _ (d : Decoder) (body : List ℕ) where
  apply_header-Applied :
      (h : Header)
      → read_header body ≡ some h
      → (e : Effect) × (apply_header d body h ≡ some e) × Applied d body e
  unfolding apply_header
  apply_header-Applied h eh = elim (Bool-cases (expected_length h.kind == 0)) [
    | inl other ↦ (_, rw other refl, ignored h eh ((==_iff _ _).0 other) refl)
    | inr known ↦ elim (Bool-cases (length body == expected_length h.kind)) [
      | inl len ↦ whole (ground arith) ((==_iff _ _).0 len) known len
      | inr len ↦ (_, rw (known, len) refl, malformed h eh (ground arith) (ground arith) refl)
    ]
  ]
    where
      whole :
          expected_length h.kind ≢ 0
          → length body ≡ expected_length h.kind
          → (expected_length h.kind == 0) ≡ false
          → (length body == expected_length h.kind) ≡ true
          → (e : Effect) × (apply_header d body h ≡ some e) × Applied d body e
      whole ne len known fits =
          let (m, em) = parse_within body h.kind len in
          (
            _,
            rw (known, fits, decode_lem (count_decoded d) body (stamped h) h.kind, em) refl,
            handled h m eh ne len em refl,
          )

-- `apply` reads past the end of a body exactly when the body is shorter than the 11 bytes of the
-- header without being empty. On every other body it returns.
pub apply-none_iff :
    (d : Decoder) (body : List ℕ) → (apply d body ≡ none) ↔ ((0 < length body) × (length body < 11))
unfolding apply
apply-none_iff d [] = (λ e. cc, λ h. absurd (omega arith))
apply-none_iff d (b ∷ bs) = (
  λ e. (
    omega arith,
    elim (dec_lt (length (b ∷ bs)) 11) [
      | yes short ↦ short
      | no long ↦ absurd (returns (omega arith) e)
    ],
  ),
  λ h. rw (header_past (b ∷ bs) h.1) refl,
)
  where
    returns : 11 ≤ length (b ∷ bs) → (read_header (b ∷ bs) >>= apply_header d (b ∷ bs)) ≡ none → ⊥
    returns long gone =
        let (h, eh) = header_within (b ∷ bs) long in
        let (e, ee, _) = apply_header-Applied d (b ∷ bs) h eh in cc

-- When `apply` returns, the body was of an unknown type and counted as ignored, or was empty or not
-- of the length of its type and counted as malformed, both without a delta, or it was of the length
-- of its type, and the message that it spells was counted as decoded and handled.
pub apply-Applied :
    (d : Decoder) (body : List ℕ) (e : Effect) → apply d body ≡ some e → Applied d body e
unfolding apply
apply-Applied d [] e h = empty refl (ground arith)
apply-Applied d (b ∷ bs) e h = elim (Option-cases (read_header (b ∷ bs))) [
  | inl gone ↦ absurd (lost gone)
  | inr (hd, eh) ↦ found hd eh (apply_header-Applied d (b ∷ bs) hd eh)
]
  where
    lost : read_header (b ∷ bs) ≡ none → ⊥
    lost gone = ground arith

    found :
        (hd : Header)
        → read_header (b ∷ bs) ≡ some hd
        → (e' : Effect) × (apply_header d (b ∷ bs) hd ≡ some e') × Applied d (b ∷ bs) e'
        → Applied d (b ∷ bs) e
    found hd eh (e', ee, ap') = let same : e' ≡ e = cc in subst (Applied d (b ∷ bs)) same ap'
