-- ===== src/Itch50/Framing.antt =====
-- include/hft/itch50.hpp, `BinaryFileReader`: a day file is a sequence of bodies, each behind its
-- length in two bytes. The reader's state is the bytes from `cur_` to `end_`.
use high_frequency_trading_e.Prelude.{
  ℕ, zero, suc, ◌+◌, ◌*◌, ◌/◌, ◌%◌, ◌≤◌, ◌<◌, ◌≡◌, refl, ap, ◌∙◌, ◌||◌, List, [], ◌∷◌, ◌++◌,
  append_assoc, Option, none, some, arith, ltb, ◌==◌, if◌then◌else◌, length, length-append, sym,
  take, drop, take-length-append, length-take, length-drop, ◌^◌, drop-length-append,
}
use high_frequency_trading_e.Itch50.{◌>>=◌, be16, read_be}

-- the tests on the length `n`, and the body cut off
unfoldable pub cut : ℕ → List ℕ → Option (List ℕ × List ℕ)
cut n after = if n == 0 || ltb (length after) n then none else some (take n after, drop n after)

unfoldable pub next : List ℕ → Option (List ℕ × List ℕ)
next bytes = if ltb (length bytes) 2 then none else (do n ← be16 bytes 0; cut n (drop 2 bytes))

-- The bodies that `while (reader.next(...))` sees, from the result of a call of `next` on. The first
-- argument is fuel.
unfoldable pub bodies : ℕ → Option (List ℕ × List ℕ) → List (List ℕ)
bodies zero r = []
bodies (suc fuel) none = []
bodies (suc fuel) (some (body, rest)) = body ∷ bodies fuel (next rest)

-- A body costs its length and two bytes, so a body a byte is fuel enough.
unfoldable pub read_all : List ℕ → List (List ℕ)
unfolding bodies
read_all bytes = bodies (length bytes) (next bytes)

-- The format: the length in two bytes, the high one first, and the body.
abbrev pub frame : List ℕ → List ℕ
frame body = (length body / 256) ∷ (length body % 256) ∷ body

abbrev pub frames : List (List ℕ) → List ℕ
frames [] = []
frames (body ∷ rest) = frame body ++ frames rest

-- A body that the two bytes can announce.
abbrev pub Framable : List (List ℕ) → Type 0
Framable [] = Unit {0}
Framable (body ∷ rest) = ((0 < length body) × (length body < 2 ^ 16)) × Framable rest

-- What `next` takes is a body that is not empty, and the rest of the bytes.
next-shorter :
    (bytes body rest : List ℕ) → next bytes ≡ some (body, rest) → length rest < length bytes
unfolding next cut read_be
next-shorter [] body rest e = absurd (ground arith)
next-shorter (a ∷ []) body rest e = absurd (ground arith)
next-shorter (a ∷ b ∷ bytes) body rest e = ground (arith, length-drop (a * 256 + b) bytes)

bodies-none : (fuel : ℕ) → bodies fuel none ≡ []
unfolding bodies
bodies-none zero = refl
bodies-none (suc fuel) = refl

-- The loop over a file ends by itself: from what `next` gives on the rest of the file, any two
-- amounts of fuel that are at least its bytes give the same bodies.
pub fuel_lem :
    (f g : ℕ) (bytes : List ℕ) (r : Option (List ℕ × List ℕ))
    → next bytes ≡ r
    → length bytes ≤ f
    → length bytes ≤ g
    → bodies f r ≡ bodies g r
unfolding bodies
fuel_lem f g bytes none e hf hg = bodies-none f ∙ sym (bodies-none g)
fuel_lem zero g bytes (some (body, rest)) e hf hg =
    absurd (omega (arith, next-shorter bytes body rest e))
fuel_lem (suc f) zero bytes (some (body, rest)) e hf hg =
    absurd (omega (arith, next-shorter bytes body rest e))
fuel_lem (suc f) (suc g) bytes (some (body, rest)) e hf hg =
    let shorter = next-shorter bytes body rest e in
    ap (◌∷◌ body)
      (fuel_lem f g rest (next rest) refl (omega (arith, shorter)) (omega (arith, shorter)))

next-frame :
    (body rest : List ℕ)
    → 0 < length body
    → length body < 2 ^ 16
    → next (frame body ++ rest) ≡ some (body, rest)
unfolding next cut read_be
next-frame body rest low high =
    let len : (0 * 256 + length body / 256) * 256 + length body % 256 ≡ length body = omega arith in
    rw len (
      ground (
        arith,
        length-append body rest,
        take-length-append body rest,
        drop-length-append body rest,
      ))

next-truncated : (body : List ℕ) (k : ℕ) → k < 2 + length body → next (take k (frame body)) ≡ none
unfolding next cut read_be
next-truncated body zero h = refl
next-truncated body (suc zero) h = refl
next-truncated body (suc (suc k)) h =
    let len : (0 * 256 + length body / 256) * 256 + length body % 256 ≡ length body = omega arith in
    rw len (ground (arith, length-take k body))

-- The reader gets back the bodies of a file that was written in the format, if each has from 1 to
-- 65535 bytes, and stops at the end, or at a last frame that is cut short anywhere.
pub read_all-frames :
    (bs : List (List ℕ)) (last : List ℕ) (k : ℕ)
    → Framable bs
    → k < 2 + length last
    → read_all (frames bs ++ take k (frame last)) ≡ bs
unfolding read_all bodies
read_all-frames [] last k fit h =
    rw (next-truncated last k h) (bodies-none (length (take k (frame last))))
read_all-frames (b ∷ bs) last k fit h =
    let tail = frames bs ++ take k (frame last) in
    let joined : frames (b ∷ bs) ++ take k (frame last) ≡ frame b ++ tail =
      append_assoc (frame b) (frames bs) (take k (frame last)) in
    let first : next (frame b ++ tail) ≡ some (b, tail) = next-frame b tail fit.0.0 fit.0.1 in
    ap read_all joined
    ∙ ap (bodies (length (frame b ++ tail))) first
    ∙ ap (◌∷◌ b) (
        fuel_lem (suc (length (b ++ tail))) (length tail) tail (next tail) refl
          (omega (arith, length-append b tail)) (omega arith)
        ∙ read_all-frames bs last k fit.1 h)
