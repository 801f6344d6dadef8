-- ===== src/Itch50/Invariant.antt =====
-- The invariant of the decoder between two messages, and that every message keeps it.
use native.Mathlib.Nat.{pow-suc}
use high_frequency_trading_e.Prelude.{
  ℕ, zero, suc, ◌+◌, ◌-◌, ◌*◌, ◌^◌, ◌≤◌, ◌<◌, ◌≡◌, refl, subst, inl, inr, ◌||◌, List, [], ◌∷◌,
  Option, none, some, arith, leb, ◌==◌, if◌then◌else◌, Bool-cases, if_both, Option-cases, length,
  get_elem?,
}
use high_frequency_trading_e.Prelude.Int.{ℤ}
use high_frequency_trading_e.Wire.{MsgType}
use high_frequency_trading_e.Book.{max_level_size}
use high_frequency_trading_e.Itch50.{
  ◌>>=◌, Order, Orders, Decoder, LevelDelta, Effect, fresh, find, assign, erase, on_add, reduce,
  reduce_found, on_delete, delete_found, on_replace, replace_found, count_live, count_decoded,
  apply, read_be, be32, be64, take_pending,
}
use high_frequency_trading_e.Itch50.Orders.{Distinct, assign-Distinct, erase-Distinct, count}
use high_frequency_trading_e.Itch50.Ledger.{Msg, handle}
use high_frequency_trading_e.Itch50.Parse.{
  Applied, ignored, malformed, empty, handled, apply-Applied, parse, stamped,
}

-- Every size fits a `uint32_t`.
abbrev pub SharesFit : Orders → Type 0
SharesFit [] = Unit {0}
SharesFit ((r, o) ∷ os) = (o.shares ≤ max_level_size) × SharesFit os

pub record Inv (d : Decoder) : Type 0 where
  pub once : Distinct d.orders
  pub live : d.stats.live_orders ≡ length d.orders
  pub fit : SharesFit d.orders
  pub pending_fits : d.pending.size ≤ max_level_size

pub fresh-Inv : Inv fresh
unfolding count
fresh-Inv = record { once = λ k. omega arith; live = refl; fit = tt; pending_fits = omega arith }

SharesFit-assign :
    (k : ℕ) (o : Order) (os : Orders)
    → o.shares ≤ max_level_size
    → SharesFit os
    → SharesFit (assign k o os)
unfolding assign
SharesFit-assign k o [] h f = (h, tt)
SharesFit-assign k o ((r, old) ∷ os) h f = elim (Bool-cases (r == k)) [
  | inl hit ↦ rw hit (h, f.1)
  | inr miss ↦ rw miss (f.0, SharesFit-assign k o os h f.1)
]

SharesFit-erase : (k : ℕ) (os : Orders) → SharesFit os → SharesFit (erase k os)
unfolding erase
SharesFit-erase k [] f = tt
SharesFit-erase k ((r, old) ∷ os) f = elim (Bool-cases (r == k)) [
  | inl hit ↦ rw hit f.1
  | inr miss ↦ rw miss (f.0, SharesFit-erase k os f.1)
]

SharesFit-find :
    (k : ℕ) (o : Order) (os : Orders)
    → SharesFit os
    → find k os ≡ some o
    → o.shares ≤ max_level_size
unfolding find
SharesFit-find k o [] f h = cc
SharesFit-find k o ((r, old) ∷ os) f h = ground (arith, SharesFit-find k o os f.1)

-- What a message leaves of the table, and the sizes of its deltas.
pub record Kept (e : Effect) : Type 0 where
  pub once : Distinct e.0.orders
  pub fit : SharesFit e.0.orders
  pub out_fits : e.1.size ≤ max_level_size
  pub pending_fits : e.0.pending.size ≤ max_level_size

abbrev pub MsgFits : Msg → Type 0
MsgFits (Msg.add ref o) = o.shares ≤ max_level_size
MsgFits (Msg.execute ref shares) = Unit {0}
MsgFits (Msg.cancel ref shares) = Unit {0}
MsgFits (Msg.delete ref) = Unit {0}
MsgFits (Msg.replace orig new_ref price shares) = shares ≤ max_level_size
MsgFits Msg.other = Unit {0}

module _ (d : Decoder) (out : LevelDelta) (v : Inv d) (small : out.size ≤ max_level_size) where
  reduce-Kept : (ref shares : ℕ) (kind : MsgType) → Kept (reduce d out ref shares kind)
  unfolding reduce
  reduce-Kept ref shares kind = elim (Option-cases (find ref d.orders)) [
    | inl gone ↦
        rw (gone, reduce_found)
          (record { once = v.once; fit = v.fit; out_fits = small; pending_fits = v.pending_fits })
    | inr (o, e) ↦ rw (e, reduce_found) (found o (SharesFit-find ref o d.orders v.fit e))
  ]
    where
      found :
          (o : Order)
          → o.shares ≤ max_level_size
          → Kept (reduce_found d out ref shares kind (some o))
      found o h = record {
        once =
            if_both Distinct (o.shares - taken o == 0) (erase-Distinct ref d.orders v.once)
              (assign-Distinct ref (rest o) d.orders v.once);
        fit =
            if_both SharesFit (o.shares - taken o == 0) (SharesFit-erase ref d.orders v.fit)
              (SharesFit-assign ref (rest o) d.orders (omega arith) v.fit);
        out_fits = ground arith;
        pending_fits = v.pending_fits;
      }
        where
          taken : Order → ℕ
          taken o = if leb o.shares shares then o.shares else shares

          rest : Order → Order
          rest o = record o { shares = o.shares - taken o }

  delete-Kept : (ref : ℕ) → Kept (on_delete d out ref)
  unfolding on_delete
  delete-Kept ref = elim (Option-cases (find ref d.orders)) [
    | inl gone ↦
        rw (gone, delete_found)
          (record { once = v.once; fit = v.fit; out_fits = small; pending_fits = v.pending_fits })
    | inr (o, e) ↦
        rw (e, delete_found)
          (record {
            once = erase-Distinct ref d.orders v.once;
            fit = SharesFit-erase ref d.orders v.fit;
            out_fits = SharesFit-find ref o d.orders v.fit e;
            pending_fits = v.pending_fits;
          })
  ]

  replace-Kept :
      (orig new_ref : ℕ) (price : ℤ) (shares : ℕ)
      → shares ≤ max_level_size
      → Kept (on_replace d out orig new_ref price shares)
  unfolding on_replace
  replace-Kept orig new_ref price shares h = elim (Option-cases (find orig d.orders)) [
    | inl gone ↦
        rw (gone, replace_found)
          (record {
            once = assign-Distinct new_ref _ d.orders v.once;
            fit = SharesFit-assign new_ref _ d.orders h v.fit;
            out_fits = small;
            pending_fits = v.pending_fits;
          })
    | inr (o, e) ↦
        rw (e, replace_found)
          (record {
            once =
                assign-Distinct new_ref _ (erase orig d.orders)
                  (erase-Distinct orig d.orders v.once);
            fit =
                SharesFit-assign new_ref _ (erase orig d.orders) h
                  (SharesFit-erase orig d.orders v.fit);
            out_fits = SharesFit-find orig o d.orders v.fit e;
            pending_fits = h;
          })
  ]

  handle-Kept : (m : Msg) → MsgFits m → Kept (handle d out m)
  unfolding handle on_add
  handle-Kept (Msg.add ref o) h = record {
    once = assign-Distinct ref o d.orders v.once;
    fit = SharesFit-assign ref o d.orders h v.fit;
    out_fits = h;
    pending_fits = v.pending_fits;
  }
  handle-Kept (Msg.execute ref shares) h = reduce-Kept ref shares MsgType.execute
  handle-Kept (Msg.cancel ref shares) h = reduce-Kept ref shares MsgType.cancel
  handle-Kept (Msg.delete ref) h = delete-Kept ref
  handle-Kept (Msg.replace orig new_ref price shares) h = replace-Kept orig new_ref price shares h
  handle-Kept Msg.other h = record {
    once = v.once;
    fit = v.fit;
    out_fits = small;
    pending_fits = v.pending_fits;
  }

-- Bytes are below 256.
abbrev pub Bytes : List ℕ → Type 0
Bytes [] = Unit {0}
Bytes (b ∷ bs) = (b < 256) × Bytes bs

Bytes-get : (bs : List ℕ) (i b : ℕ) → Bytes bs → get_elem? bs i ≡ some b → b < 256
Bytes-get [] i b h e = cc
Bytes-get (x ∷ bs) zero b h e = ground arith
Bytes-get (x ∷ bs) (suc i) b h e = Bytes-get bs i b h.1 e

read_be-lt :
    (n : ℕ) (p : List ℕ) (i v bound x : ℕ)
    → Bytes p
    → v < bound
    → read_be n p i v ≡ some x
    → x < bound * 256 ^ n
unfolding read_be
read_be-lt zero p i v bound x bs h e = ground arith
read_be-lt (suc n) p i v bound x bs h e = elim (Option-cases (get_elem? p i)) [
  | inl gone ↦ absurd (ground arith)
  | inr (b, eb) ↦
      let small : b < 256 = Bytes-get p i b bs eb in
      let rest : x < bound * 256 * 256 ^ n =
        read_be-lt n p (i + 1) (v * 256 + b) (bound * 256) x bs (omega arith) (rw eb at e) in
      let power : 256 ^ suc n ≡ 256 ^ n * 256 = pow-suc 256 n in rw power (omega arith)
]

be32-fits : (p : List ℕ) (i x : ℕ) → Bytes p → be32 p i ≡ some x → x ≤ max_level_size
be32-fits p i x bs e = omega (arith, read_be-lt 4 p i 0 1 x bs (omega arith) e)

abbrev Fitting : Option Msg → Type 0
Fitting none = Unit {0}
Fitting (some m) = MsgFits m

Fitting-bind :
    {A : Type 0} (o : Option A) (f : A → Option Msg)
    → ((a : A) → o ≡ some a → Fitting (f a))
    → Fitting (o >>= f)
Fitting-bind none f h = tt
Fitting-bind (some a) f h = h a refl

parse-Fitting : (body : List ℕ) (t : ℕ) → Bytes body → Fitting (parse body t)
unfolding parse
parse-Fitting body t bs =
    if_both Fitting (t == b'A' || t == b'F')
      (Fitting-bind (be64 body 11) _ λ ref _. Fitting-bind (get_elem? body 19) _ λ side _.
        Fitting-bind (be32 body 20) _
          λ shares e. Fitting-bind (be32 body 32) _ λ price _. be32-fits body 20 shares bs e)
      (if_both Fitting (t == b'E' || t == b'C')
        (Fitting-bind (be64 body 11) _ λ ref _. Fitting-bind (be32 body 19) _ λ shares _. tt)
        (if_both Fitting (t == b'X')
          (Fitting-bind (be64 body 11) _ λ ref _. Fitting-bind (be32 body 19) _ λ shares _. tt)
          (if_both Fitting (t == b'D') (Fitting-bind (be64 body 11) _ λ ref _. tt) (
            if_both Fitting (t == b'U')
              (Fitting-bind (be64 body 11) _ λ orig _. Fitting-bind (be64 body 19) _ λ new_ref _.
                Fitting-bind (be32 body 27) _ λ shares e.
                  Fitting-bind (be32 body 31) _ λ price _. be32-fits body 27 shares bs e)
              tt))))

Kept-Inv : (e : Effect) → Kept e → Inv (count_live e).0
Kept-Inv e k = record { once = k.once; live = refl; fit = k.fit; pending_fits = k.pending_fits }

Applied-Inv :
    (d : Decoder) (body : List ℕ) (e : Effect)
    → Bytes body
    → Inv d
    → Applied d body e
    → Inv e.0 × (e.1.size ≤ max_level_size)
Applied-Inv d body e bs v (ignored h eh un e') = rw e' (
  record { once = v.once; live = v.live; fit = v.fit; pending_fits = v.pending_fits },
  omega arith,
)
Applied-Inv d body e bs v (malformed h eh un len e') = rw e' (
  record { once = v.once; live = v.live; fit = v.fit; pending_fits = v.pending_fits },
  omega arith,
)
Applied-Inv d body e bs v (empty nil e') = rw e' (
  record { once = v.once; live = v.live; fit = v.fit; pending_fits = v.pending_fits },
  omega arith,
)
Applied-Inv d body e bs v (handled h m eh un len em e') =
    let counted : Inv (count_decoded d) = record {
      once = v.once;
      live = v.live;
      fit = v.fit;
      pending_fits = v.pending_fits;
    } in
    let k =
      handle-Kept (count_decoded d) (stamped h) counted (omega arith) m
        (subst Fitting em (parse-Fitting body h.kind bs)) in
    rw e' (Kept-Inv _ k, k.out_fits)

-- Every body of bytes that `apply` reads within its bounds, of any type and with any content, keeps
-- the order table free of double references, the counter `live_orders` equal to its size and all
-- sizes within 32 bits, if they were so before.
pub apply-Inv :
    (d : Decoder) (body : List ℕ) (e : Effect)
    → Bytes body
    → Inv d
    → apply d body ≡ some e
    → Inv e.0 × (e.1.size ≤ max_level_size)
apply-Inv d body e bs v h = Applied-Inv d body e bs v (apply-Applied d body e h)

pub take_pending-Inv :
    (d : Decoder) → Inv d → Inv (take_pending d).0 × ((take_pending d).1.size ≤ max_level_size)
unfolding take_pending
take_pending-Inv d v = (
  record { once = v.once; live = v.live; fit = v.fit; pending_fits = omega arith },
  v.pending_fits,
)
