-- ===== src/Exchange/Quotes.antt =====
-- What the feed says to a receiver that keeps one level a side, and the band of its prices.
use native.Mathlib.Nat.{mod-lt}
use high_frequency_trading_e.Prelude.{
  ℕ, ◌+◌, ◌-◌, ◌*◌, ◌%◌, ◌^◌, ◌≤◌, ◌<◌, ◌≡◌, refl, ap, ◌∙◌, Bool, ◌&&◌, List, [], ◌∷◌, ◌++◌, Option,
  none, some, arith, ◌==◌, if◌then◌else◌, length,
}
use high_frequency_trading_e.Prelude.Int.{
  ℤ, pos, negsuc, pos_part, neg_part, ◌+ℤ◌, ◌-ℤ◌, ◌*ℤ◌, int_laws,
}
use high_frequency_trading_e.Wire.{ItchMessage, is_buy}
use high_frequency_trading_e.Wire.Codec.{InInt64}
use high_frequency_trading_e.Exchange.{Config, Rng, next, range, next_size, reflect}

-- The level of each side that the feed has shown, with its price and size.
pub record Shown : Type 0 where
  pub bid : Option (ℤ × ℕ)
  pub ask : Option (ℤ × ℕ)

abbrev pub eq_ℤ : ℤ → ℤ → Bool
eq_ℤ a b = (pos_part a + neg_part b) == (pos_part b + neg_part a)

-- An add where the side is empty, or a delete of the very level that is there.
unfoldable pub follow_side : Option (ℤ × ℕ) → ItchMessage → Option (Option (ℤ × ℕ))
follow_side none m = if m.type_byte == b'A' then some (some (m.price, m.size)) else none
follow_side (some l) m =
    if m.type_byte == b'D' && eq_ℤ m.price l.0 && (m.size == l.1) then some none else none

abbrev pub with_bid : Shown → Option (Option (ℤ × ℕ)) → Option Shown
with_bid q none = none
with_bid q (some l) = some (record q { bid = l })

abbrev pub with_ask : Shown → Option (Option (ℤ × ℕ)) → Option Shown
with_ask q none = none
with_ask q (some l) = some (record q { ask = l })

-- One message after what was shown; none if the message does not fit it.
unfoldable pub follow : Shown → ItchMessage → Option Shown
follow q m =
    if is_buy m.side then with_bid q (follow_side q.bid m) else with_ask q (follow_side q.ask m)

unfoldable pub follow_all : Option Shown → List ItchMessage → Option Shown
follow_all none ms = none
follow_all (some q) [] = some q
follow_all (some q) (m ∷ ms) = follow_all (follow q m) ms

follow_all-nil : (o : Option Shown) → follow_all o [] ≡ o
unfolding follow_all
follow_all-nil none = refl
follow_all-nil (some q) = refl

pub follow_all-append :
    (o : Option Shown) (ms : List ItchMessage) (m : ItchMessage) (q : Shown)
    → follow_all o ms ≡ some q
    → follow_all o (ms ++ m ∷ []) ≡ follow q m
unfolding follow_all
follow_all-append none ms m q e = absurd (cc)
follow_all-append (some x) [] m q e = follow_all-nil (follow x m) ∙ ap (λ y. follow y m) (unsome e)
  where
    unsome : follow_all (some x) [] ≡ some q → x ≡ q
    unsome h = cc
follow_all-append (some x) (y ∷ ms) m q e = follow_all-append (follow x y) ms m q e

-- Sequence numbers count up from `n`, modulo 2 ^ 32.
abbrev pub Numbered : ℕ → List ItchMessage → Type 0
Numbered n [] = Unit {0}
Numbered n (m ∷ ms) = (m.seq ≡ n % 2 ^ 32) × Numbered (n + 1) ms

pub Numbered-append :
    (n : ℕ) (ms : List ItchMessage) (m : ItchMessage)
    → Numbered n ms
    → m.seq ≡ (n + length ms) % 2 ^ 32
    → Numbered n (ms ++ m ∷ [])
Numbered-append n [] m all e = (omega (arith, e), tt)
Numbered-append n (x ∷ ms) m all e = (all.0, Numbered-append (n + 1) ms m all.1 (omega (arith, e)))

-- A price at most `n` ticks from the base price.
pub record Near (c : Config) (n : ℕ) (z : ℤ) : Type 0 where
  pub above :
      pos_part c.base_price + neg_part z ≤ pos_part z + neg_part c.base_price + n * pos_part c.tick
  pub below :
      pos_part z + neg_part c.base_price ≤ pos_part c.base_price + neg_part z + n * pos_part c.tick

-- A configuration whose prices and symbol are within their types.
pub record ConfigFits (c : Config) : Type 0 where
  pub symbol : c.symbol < 2 ^ 32
  pub tick : neg_part c.tick ≡ 0
  pub high : pos_part c.base_price + 1_501 * pos_part c.tick < 2 ^ 63
  pub low : neg_part c.base_price + 1_501 * pos_part c.tick < 2 ^ 63

pub Near-InInt64 : {c : Config} (z : ℤ) → ConfigFits c → Near c 1_501 z → InInt64 z
Near-InInt64 (pos n) f near = omega (arith, f.high, near.below)
Near-InInt64 (negsuc n) f near = omega (arith, f.low, near.above)

pub times_1500 : (z : ℤ) → neg_part z ≡ 0 → pos 1_500 *ℤ z ≡ pos (1_500 * pos_part z)
unfolding ◌*ℤ◌
times_1500 (pos n) h = ground arith
times_1500 (negsuc n) h = absurd (omega (arith, h))

reflect_within :
    (lo hi mid : ℤ)
    → pos_part lo + neg_part hi ≤ pos_part hi + neg_part lo
    → let z = reflect lo hi mid in
      (pos_part lo + neg_part z ≤ pos_part z + neg_part lo)
      × (pos_part z + neg_part hi ≤ pos_part hi + neg_part z)
unfolding reflect
reflect_within lo hi mid h = (ground arith, ground arith)

pub reflect-Near :
    (c : Config) (mid : ℤ)
    → neg_part c.tick ≡ 0
    → Near c 1_500
        (reflect (c.base_price -ℤ pos 1_500 *ℤ c.tick) (c.base_price +ℤ pos 1_500 *ℤ c.tick) mid)
reflect-Near c mid whole =
    let band = times_1500 c.tick whole in
    rw band (
      let lo = c.base_price -ℤ pos (1_500 * pos_part c.tick) in
      let hi = c.base_price +ℤ pos (1_500 * pos_part c.tick) in
      let w = reflect_within lo hi mid (omega int_laws) in
      record { above = omega (int_laws, w.0); below = omega (int_laws, w.1) })

pub range-le :
    (r : Rng) (lo hi : ℕ)
    → lo ≤ hi
    → hi < 2 ^ 31
    → (lo ≤ (range r lo hi).1) × ((range r lo hi).1 ≤ hi)
unfolding range
range-le r lo hi le small =
    let n = (next r).1 in
    let e : (hi + 2 ^ 32 - lo + 1) % 2 ^ 32 ≡ hi - lo + 1 = omega arith in
    let wide : 0 < hi - lo + 1 = omega arith in
    rw e (omega (arith, mod-lt n wide), omega (arith, mod-lt n wide))

pub next_size-le : (r : Rng) → (100 ≤ (next_size r).1) × ((next_size r).1 ≤ 5_000)
unfolding next_size
next_size-le r =
    let d = range r 0 15 in
    let big = range-le d.0 2_000 5_000 (omega arith) (omega arith) in
    let usual = range-le d.0 100 800 (omega arith) (omega arith) in
    (ground (arith, big.0, usual.0), ground (arith, big.1, usual.1))
