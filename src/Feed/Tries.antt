-- ===== src/Feed/Tries.antt =====
-- The tries of `push_with_backpressure` in include/hft/feed_handler.hpp, one by one.
use high_frequency_trading_e.Prelude.{
  ℕ, zero, suc, ◌<◌, ◌≡◌, refl, ◌∙◌, inl, inr, Bool, true, false, arith, Bool-cases,
}
use high_frequency_trading_e.Wire.{MdEvent}
use high_frequency_trading_e.Feed.{OutQueue, push_spinning}

module _ (out : OutQueue) where
  -- The queue `q` refuses the event so many times in a row, and is `q'` then; the consumer goes on
  -- before each try.
  pub data Refused (ev : MdEvent) : ℕ → out.Queue → out.Queue → Type 0 where
    untried : {q : out.Queue} → Refused ev 0 q q
    again :
        {n : ℕ} {q q' : out.Queue}
        → (out.push (out.consume q) ev).1 ≡ false
        → Refused ev n (out.push (out.consume q) ev).0 q'
        → Refused ev (suc n) q q'

  -- The outcome of at most `tries` tries: the first ones are refused and one is taken, or all are
  -- refused.
  pub data Outcome (tries : ℕ) (ev : MdEvent) (q : out.Queue) : out.Queue → Bool → Type 0 where
    taken :
        (n : ℕ) (before : out.Queue)
        → n < tries
        → Refused ev n q before
        → (out.push (out.consume before) ev).1 ≡ true
        → Outcome tries ev q (out.push (out.consume before) ev).0 true
    given_up : {q' : out.Queue} → Refused ev tries q q' → Outcome tries ev q q' false

  pub Refused-accepted :
      {ev : MdEvent} {n : ℕ} {q q' : out.Queue}
      → Refused ev n q q'
      → out.accepted q' ≡ out.accepted q
  Refused-accepted Refused.untried = refl
  Refused-accepted {ev} {q = q} (Refused.again full more) =
      Refused-accepted more ∙ out.refused (out.consume q) ev full ∙ out.consumed q

  after_refusal :
      {tries : ℕ} {ev : MdEvent} {q q' : out.Queue} {b : Bool}
      → (out.push (out.consume q) ev).1 ≡ false
      → Outcome tries ev (out.push (out.consume q) ev).0 q' b
      → Outcome (suc tries) ev q q' b
  after_refusal full (Outcome.taken n before few refused ok) =
      Outcome.taken (suc n) before (omega (arith, few)) (Refused.again full refused) ok
  after_refusal full (Outcome.given_up refused) = Outcome.given_up (Refused.again full refused)

  pub push_spinning-Outcome :
      (spins : ℕ) (q : out.Queue) (ev : MdEvent)
      → let r = push_spinning out spins q ev in Outcome spins ev q r.0 r.1
  unfolding push_spinning
  push_spinning-Outcome zero q ev = Outcome.given_up Refused.untried
  push_spinning-Outcome (suc spins) q ev = elim (Bool-cases (out.push (out.consume q) ev).1) [
    | inl ok ↦ rw ok (Outcome.taken 0 q (omega arith) Refused.untried ok)
    | inr full ↦
        rw full
          (after_refusal full (push_spinning-Outcome spins (out.push (out.consume q) ev).0 ev))
  ]
