-- ===== src/Itch50/Ledger.antt =====
-- The decoder turns order messages into level deltas. Here they are weighed against the orders that
-- it keeps: at every side and price the deltas emitted account for the change in resting shares.
use high_frequency_trading_e.Prelude.{
  ℕ, ◌+◌, ◌-◌, ◌≤◌, ◌≡◌, ◌⊎◌, refl, ap, inl, inr, Bool, true, false, ◌&&◌, none, some, arith, leb,
  ◌==◌, if◌then◌else◌, Option-cases, Bool-cases,
}
use high_frequency_trading_e.Prelude.Int.{ℤ}
use high_frequency_trading_e.Wire.{MsgType, Side}
use high_frequency_trading_e.Itch50.{
  Order, Orders, Decoder, LevelDelta, Effect, find, assign, erase, on_add, reduce, reduce_found,
  on_delete, delete_found, on_replace, replace_found,
}
use high_frequency_trading_e.Itch50.Orders.{
  Distinct, resting, share, resting-assign_new, resting-assign_old, resting-erase, find-erase,
}

-- A decoded message that can change the table; the administrative ones and trades are `other`.
pub data Msg : Type 0 where
  add : ℕ → Order → Msg
  execute cancel : ℕ → ℕ → Msg
  delete : ℕ → Msg
  replace : ℕ → ℕ → ℤ → ℕ → Msg
  other : Msg

unfoldable pub handle : Decoder → LevelDelta → Msg → Effect
handle d out (Msg.add ref o) = on_add d out ref o
handle d out (Msg.execute ref shares) = reduce d out ref shares MsgType.execute
handle d out (Msg.cancel ref shares) = reduce d out ref shares MsgType.cancel
handle d out (Msg.delete ref) = on_delete d out ref
handle d out (Msg.replace orig new_ref price shares) = on_replace d out orig new_ref price shares
handle d out Msg.other = (d, out)

-- What a delta puts on a level, and what it takes off.
abbrev pub puts : MsgType → Bool
puts MsgType.add = true
puts _ = false

abbrev pub takes : MsgType → Bool
takes MsgType.execute = true
takes MsgType.cancel = true
takes _ = false

abbrev pub added : Side → ℤ → LevelDelta → ℕ
added s p d = if d.valid && puts d.kind then share s p d.side d.price d.size else 0

abbrev pub removed : Side → ℤ → LevelDelta → ℕ
removed s p d = if d.valid && takes d.kind then share s p d.side d.price d.size else 0

-- A new order has a reference that is not live; a replacement names a live order, and takes over its
-- reference or a fresh one.
abbrev pub Tidy : Orders → Msg → Type 0
Tidy os (Msg.add ref o) = find ref os ≡ none
Tidy os (Msg.execute ref shares) = Unit {0}
Tidy os (Msg.cancel ref shares) = Unit {0}
Tidy os (Msg.delete ref) = Unit {0}
Tidy os (Msg.replace orig new_ref price shares) =
    ((old : Order) × (find orig os ≡ some old)) × ((orig ≡ new_ref) ⊎ (find new_ref os ≡ none))
Tidy os Msg.other = Unit {0}

-- What rests after, with what the two deltas took off, is what rested before, with what they put on.
abbrev pub Balanced : Side → ℤ → Orders → Effect → Type 0
Balanced s p before e =
    resting s p e.0.orders + removed s p e.1 + removed s p e.0.pending
    ≡ resting s p before + added s p e.1 + added s p e.0.pending

-- The shares of one level split as the shares of an order do.
share_split :
    (s : Side) (p : ℤ) (s' : Side) (p' : ℤ) (n k : ℕ)
    → k ≤ n
    → share s p s' p' n ≡ share s p s' p' (n - k) + share s p s' p' k
share_split s p s' p' n k h = ground arith

module _ (s : Side) (p : ℤ) (d : Decoder) (out : LevelDelta) where
  module _ (quiet : out.valid ≡ false) (settled : d.pending.valid ≡ false) where
    add-Balanced :
        (ref : ℕ) (o : Order)
        → find ref d.orders ≡ none
        → Balanced s p d.orders (on_add d out ref o)
    unfolding on_add
    add-Balanced ref o h = rw settled (omega (arith, resting-assign_new s p ref o d.orders h))

    delete-Balanced : (ref : ℕ) → Balanced s p d.orders (on_delete d out ref)
    unfolding on_delete
    delete-Balanced ref = elim (Option-cases (find ref d.orders)) [
      | inl gone ↦ rw (gone, delete_found) (rw (settled, quiet) refl)
      | inr (o, e) ↦
          rw (e, delete_found) (rw settled (omega (arith, resting-erase s p ref o d.orders e)))
    ]

    -- `left` of an order's shares stay, `taken` go.
    leaving_balanced :
        (ref : ℕ) (o : Order) (taken : ℕ)
        → find ref d.orders ≡ some o
        → taken ≤ o.shares
        → let left = record o { shares = o.shares - taken } in
          resting s p (if left.shares == 0 then erase ref d.orders else assign ref left d.orders)
            + share s p o.side o.price taken
          ≡ resting s p d.orders
    leaving_balanced ref o taken e le = elim (Bool-cases (o.shares - taken == 0)) [
      | inl all ↦ rw all (omega (arith, resting-erase s p ref o d.orders e, whole all))
      | inr some_left ↦ rw some_left (
          omega (
            arith,
            resting-assign_old s p ref (record o { shares = o.shares - taken }) o d.orders e,
            share_split s p o.side o.price o.shares taken le,
          ))
    ]
      where
        whole :
            (o.shares - taken == 0) ≡ true
            → share s p o.side o.price taken ≡ share s p o.side o.price o.shares
        whole all = ap (share s p o.side o.price) (ground arith)

    reduce-Balanced :
        (ref shares : ℕ) (kind : MsgType)
        → puts kind ≡ false
        → takes kind ≡ true
        → Balanced s p d.orders (reduce d out ref shares kind)
    unfolding reduce
    reduce-Balanced ref shares kind np tk = elim (Option-cases (find ref d.orders)) [
      | inl gone ↦ rw (gone, reduce_found) (rw (settled, quiet) refl)
      | inr (o, e) ↦
          rw (e, reduce_found)
            (rw (settled, np, tk)
              (omega (
                arith,
                leaving_balanced ref o (if leb o.shares shares then o.shares else shares) e
                    (taken_le o),
              )))
    ]
      where
        taken_le : (o : Order) → (if leb o.shares shares then o.shares else shares) ≤ o.shares
        taken_le o = ground arith

    replace-Balanced :
        (orig new_ref : ℕ) (price : ℤ) (shares : ℕ)
        → Distinct d.orders
        → Tidy d.orders (Msg.replace orig new_ref price shares)
        → Balanced s p d.orders (on_replace d out orig new_ref price shares)
    unfolding on_replace
    replace-Balanced orig new_ref price shares once ((old, e), reuse) =
        rw (e, replace_found)
          (omega (
            arith,
            resting-erase s p orig old d.orders e,
            resting-assign_new s p new_ref
                (record { price = price; shares = shares; side = old.side }) (erase orig d.orders)
                (free reuse),
          ))
      where
        free :
            (orig ≡ new_ref) ⊎ (find new_ref d.orders ≡ none)
            → find new_ref (erase orig d.orders) ≡ none
        free (inl same) = ground (arith, find-erase orig new_ref d.orders (once orig))
        free (inr none_live) = ground (arith, find-erase orig new_ref d.orders (once orig))

  -- From a table without double references, with no delta returned or pending yet, each message
  -- changes the resting shares of every side and price by exactly what its deltas, the returned one
  -- and the pending one, put there and take away. The condition is `Tidy`: the reference of an add is
  -- not live, and a replacement names a live order and takes over its reference or one that is not
  -- live. There is no condition on the other messages.
  pub handle-Balanced :
      (m : Msg)
      → out.valid ≡ false
      → d.pending.valid ≡ false
      → Distinct d.orders
      → Tidy d.orders m
      → Balanced s p d.orders (handle d out m)
  unfolding handle
  handle-Balanced (Msg.add ref o) quiet settled once tidy = add-Balanced quiet settled ref o tidy
  handle-Balanced (Msg.execute ref shares) quiet settled once tidy =
      reduce-Balanced quiet settled ref shares MsgType.execute refl refl
  handle-Balanced (Msg.cancel ref shares) quiet settled once tidy =
      reduce-Balanced quiet settled ref shares MsgType.cancel refl refl
  handle-Balanced (Msg.delete ref) quiet settled once tidy = delete-Balanced quiet settled ref
  handle-Balanced (Msg.replace orig new_ref price shares) quiet settled once tidy =
      replace-Balanced quiet settled orig new_ref price shares once tidy
  handle-Balanced Msg.other quiet settled once tidy = rw (settled, quiet) refl

share_self : (p : ℤ) (n : ℕ) → share Side.buy p Side.buy p n ≡ n
share_self p n = ground arith

-- A replacement of an order that is not in the table puts its shares on the buy side of its price
-- without any delta for them, whatever the side of the order was, if the new reference is not in the
-- table either.
pub replace_unknown :
    (d : Decoder) (out : LevelDelta) (orig new_ref : ℕ) (price : ℤ) (shares : ℕ)
    → find orig d.orders ≡ none
    → find new_ref d.orders ≡ none
    → let e = handle d out (Msg.replace orig new_ref price shares) in
      (e.1 ≡ out)
      × (e.0.pending ≡ d.pending)
      × (resting Side.buy price e.0.orders ≡ resting Side.buy price d.orders + shares)
unfolding handle on_replace
replace_unknown d out orig new_ref price shares gone free =
    rw (gone, replace_found)
      (
        refl,
        refl,
        omega (
          arith,
          resting-assign_new Side.buy price new_ref
              (record { price = price; shares = shares; side = Side.buy }) d.orders free,
          share_self price shares,
        ),
      )
