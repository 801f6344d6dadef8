-- ===== src/Replay/Coherence.antt =====
-- The replay keeps the book coherent on every file.
use high_frequency_trading_e.Prelude.{
  ℕ, zero, suc, ◌≤◌, ◌≡◌, refl, ap, ◌∙◌, inl, inr, false, ◌&&◌, List, [], ◌∷◌, some, arith, ◌==◌,
  Bool-cases, Option-cases, length, get_elem?_within,
}
use high_frequency_trading_e.Book.{
  BookView, max_level_size, has_bid, has_ask, best_bid_size, best_ask_size,
}
use high_frequency_trading_e.Book.Invariant.{apply-IsValid, new-IsValid}
use high_frequency_trading_e.Book.Invariant as BookInvariant
use high_frequency_trading_e.Book.History.{touch_lem, BidTouch, AskTouch}
use high_frequency_trading_e.Itch50.{◌>>=◌, LevelDelta, Effect, take_pending}
use high_frequency_trading_e.Itch50
use high_frequency_trading_e.Itch50.Parse.{apply-none_iff}
use high_frequency_trading_e.Itch50.Invariant.{Inv, Bytes, fresh-Inv, apply-Inv, take_pending-Inv}
use high_frequency_trading_e.Itch50.Framing.{read_all}
use high_frequency_trading_e.Replay.{
  Replay, message_of, count_failures, apply_delta, drain, count_message, step, run, replay, ticks,
}

pub record Coherent (r : Replay) : Type 0 where
  pub valid : BookInvariant.IsValid r.book
  pub decoder : Inv r.decoder
  pub sound : r.invariant_failures ≡ 0

no_failure : (b : BookView) → BookInvariant.IsValid b → count_failures b 0 ≡ 0
unfolding count_failures
no_failure b v = rw (bid_fine (touch_lem b v).0, ask_fine (touch_lem b v).1) refl
  where
    bid_fine : BidTouch b → (has_bid b && (best_bid_size b == 0)) ≡ false
    bid_fine (BidTouch.no_bid e f g) = rw e refl
    bid_fine (BidTouch.bid_at i e f ne w g) = ground (arith, e, f, ne)

    ask_fine : AskTouch b → (has_ask b && (best_ask_size b == 0)) ≡ false
    ask_fine (AskTouch.no_ask e f g) = rw e refl
    ask_fine (AskTouch.ask_at i e f ne w g) = ground (arith, e, f, ne)

apply_delta-Coherent :
    {r : Replay} (d : LevelDelta)
    → d.size ≤ max_level_size
    → Coherent r
    → Coherent (apply_delta r d)
unfolding apply_delta
apply_delta-Coherent {r} d small c =
    let v = apply-IsValid (message_of d) c.valid small in
    record {
      valid = v;
      decoder = c.decoder;
      sound = ap (count_failures _) c.sound ∙ no_failure _ v;
    }

drain-Coherent :
    (fuel : ℕ) {r : Replay} (d : LevelDelta)
    → d.size ≤ max_level_size
    → Coherent r
    → Coherent (drain fuel r d)
unfolding drain apply_delta
drain-Coherent zero d small c = c
drain-Coherent (suc fuel) {r} d small c = elim (Bool-cases d.valid) [
  | inr over ↦ rw over c
  | inl more ↦ rw more (
      let c' = apply_delta-Coherent d small c in
      let (v, next_small) = take_pending-Inv (apply_delta r d).decoder c'.decoder in
      drain-Coherent fuel (take_pending (apply_delta r d).decoder).1 next_small
        (record { valid = c'.valid; decoder = v; sound = c'.sound }))
]

-- The inner loop never goes beyond two deltas: more rounds of fuel than two change nothing.
pub drain_lem : (n : ℕ) (r : Replay) (d : LevelDelta) → drain (suc (suc n)) r d ≡ drain 2 r d
unfolding drain apply_delta take_pending
drain_lem zero r d = refl
drain_lem (suc n) r d = ground arith

-- A body that the decoder reads within its bounds.
abbrev pub LongEnough : List (List ℕ) → Type 0
LongEnough [] = Unit {0}
LongEnough (body ∷ rest) = (11 ≤ length body) × Bytes body × LongEnough rest

step-Coherent :
    {r : Replay} (body : List ℕ)
    → 11 ≤ length body
    → Bytes body
    → Coherent r
    → (r' : Replay) × (step r body ≡ some r') × Coherent r'
unfolding step count_message
step-Coherent {r} body long bs c =
    let (kind, ek) = get_elem?_within body 0 (omega arith) in
    elim (Option-cases (Itch50.apply r.decoder body)) [
      | inl gone ↦ absurd (omega (arith, ((apply-none_iff r.decoder body).0 gone).1))
      | inr (e, ee) ↦
          let (v, small) = apply-Inv r.decoder body e bs c.decoder ee in
          (
            drain 3 (record (count_message r kind) { decoder = e.0 }) e.1,
            rw (ek, ee) refl,
            drain-Coherent 3 e.1 small (record { valid = c.valid; decoder = v; sound = c.sound }),
          )
    ]

run-Coherent :
    (bodies : List (List ℕ)) {r : Replay}
    → LongEnough bodies
    → Coherent r
    → (r' : Replay) × (run r bodies ≡ some r') × Coherent r'
unfolding run
run-Coherent [] {r} fit c = (r, refl, c)
run-Coherent (body ∷ rest) fit c =
    let (r', e, c') = step-Coherent body fit.0 fit.1 c in
    let (r'', e', c'') = run-Coherent rest fit.2 c' in (r'', rw (e, e') refl, c'')

-- On every file whose frames have at least the 11 bytes of a header the replay comes to its end, and
-- reports no invariant failure of the top of book. The book and the decoder are then valid.
pub replay-Coherent :
    (bytes : List ℕ)
    → LongEnough (read_all bytes)
    → (r : Replay) × (replay bytes ≡ some r) × Coherent r
unfolding replay
replay-Coherent bytes fit =
    run-Coherent (read_all bytes) fit
      (record { valid = new-IsValid ticks _ _; decoder = fresh-Inv; sound = refl })
