-- ===== src/Wait/Yields.antt =====
-- How often a stage gives its core back.
use native.Mathlib.Decide.{dec_lt}
use high_frequency_trading_e.Prelude.{
  ℕ, ◌+◌, ◌/◌, ◌%◌, ◌<◌, ◌≡◌, refl, ap, ◌∙◌, inl, inr, Bool, true, false, List, [], ◌∷◌, arith,
  if◌then◌else◌, Bool-cases, not, ◌&&◌, ◌==◌,
}
use high_frequency_trading_e.Affinity.{Started, is_ok}
use high_frequency_trading_e.Wait.{WaitPolicy, WaitStrategy, Pause, new, idle, reset, loop, run}

unfoldable pub count_yields : List Pause → ℕ
count_yields [] = 0
count_yields (Pause.relax ∷ ps) = count_yields ps
count_yields (Pause.give_way ∷ ps) = 1 + count_yields ps

-- An idle spell of `n` polls gives way `n / 64` times; a spell ends with a poll that finds work, and
-- `spell` polls of the first one are over.
unfoldable pub yields_of_spells : ℕ → List Bool → ℕ
yields_of_spells spell [] = spell / 64
yields_of_spells spell (true ∷ polls) = spell / 64 + yields_of_spells 0 polls
yields_of_spells spell (false ∷ polls) = yields_of_spells (spell + 1) polls

-- The pauses of the idle polls, `spell` of the first spell being over: a stage that `backs_off` gives
-- way on each 64th poll of a spell, and every other pause is a relax.
unfoldable pub pauses_of_spells : Bool → ℕ → List Bool → List Pause
pauses_of_spells backs_off spell [] = []
pauses_of_spells backs_off spell (true ∷ polls) = pauses_of_spells backs_off 0 polls
pauses_of_spells backs_off spell (false ∷ polls) =
    (if backs_off && ((spell + 1) % 64 == 0) then Pause.give_way else Pause.relax)
    ∷ pauses_of_spells backs_off (spell + 1) polls

unfoldable pub spins_always : WaitPolicy → Bool → Bool
spins_always WaitPolicy.spin pinned = true
spins_always WaitPolicy.adaptive pinned = pinned
spins_always WaitPolicy.yield pinned = false

after_relax :
    (w w' : WaitStrategy) (polls : List Bool)
    → idle w ≡ (w', Pause.relax)
    → count_yields (loop w (false ∷ polls)) ≡ count_yields (loop w' polls)
unfolding count_yields loop
after_relax w w' polls e = ap (λ r. count_yields (r.1 ∷ loop r.0 polls)) e

after_yield :
    (w w' : WaitStrategy) (polls : List Bool)
    → idle w ≡ (w', Pause.give_way)
    → count_yields (loop w (false ∷ polls)) ≡ 1 + count_yields (loop w' polls)
unfolding count_yields loop
after_yield w w' polls e = ap (λ r. count_yields (r.1 ∷ loop r.0 polls)) e

module _ (w : WaitStrategy) where
  idle_spin : w.spin_only ≡ true → idle w ≡ (w, Pause.relax)
  unfolding idle
  idle_spin h = ground arith

  idle_relax :
      w.spin_only ≡ false
      → w.spins + 1 < 64
      → idle w ≡ (record w { spins = w.spins + 1 }, Pause.relax)
  unfolding idle
  idle_relax h few = ground arith

  idle_yield :
      w.spin_only ≡ false → w.spins + 1 ≡ 64 → idle w ≡ (record w { spins = 0 }, Pause.give_way)
  unfolding idle
  idle_yield h full = ground arith

spinning :
    (w : WaitStrategy) (polls : List Bool) → w.spin_only ≡ true → count_yields (loop w polls) ≡ 0
unfolding count_yields loop reset
spinning w [] h = refl
spinning w (true ∷ polls) h = spinning (reset w) polls h
spinning w (false ∷ polls) h = after_relax w w polls (idle_spin w h) ∙ spinning w polls h

yielding :
    (w : WaitStrategy) (polls : List Bool) (spell : ℕ)
    → w.spin_only ≡ false
    → w.spins ≡ spell % 64
    → count_yields (loop w polls) + spell / 64 ≡ yields_of_spells spell polls
unfolding count_yields loop reset yields_of_spells
yielding w [] spell h e = omega arith
yielding w (true ∷ polls) spell h e = omega (arith, yielding (reset w) polls 0 h refl)
yielding w (false ∷ polls) spell h e = elim (dec_lt (w.spins + 1) 64) [
  | yes few ↦
      let w' = record w { spins = w.spins + 1 } in
      omega (
        arith,
        after_relax w w' polls (idle_relax w h few),
        yielding w' polls (spell + 1) h (omega (arith, e, few)),
        e,
        few,
      )
  | no full ↦
      let w' = record w { spins = 0 } in
      let last : w.spins + 1 ≡ 64 = omega (arith, e, full) in
      omega (
        arith,
        after_yield w w' polls (idle_yield w h last),
        yielding w' polls (spell + 1) h (omega (arith, e, last)),
        e,
        last,
      )
]

spinning_pauses :
    (w : WaitStrategy) (polls : List Bool) (spell : ℕ)
    → w.spin_only ≡ true
    → loop w polls ≡ pauses_of_spells false spell polls
unfolding loop reset pauses_of_spells
spinning_pauses w [] spell h = refl
spinning_pauses w (true ∷ polls) spell h = spinning_pauses (reset w) polls 0 h
spinning_pauses w (false ∷ polls) spell h =
    ap (λ r. r.1 ∷ loop r.0 polls) (idle_spin w h)
    ∙ ap (◌∷◌ Pause.relax) (spinning_pauses w polls (spell + 1) h)

yielding_pauses :
    (w : WaitStrategy) (polls : List Bool) (spell : ℕ)
    → w.spin_only ≡ false
    → w.spins ≡ spell % 64
    → loop w polls ≡ pauses_of_spells true spell polls
unfolding loop reset pauses_of_spells
yielding_pauses w [] spell h e = refl
yielding_pauses w (true ∷ polls) spell h e = yielding_pauses (reset w) polls 0 h refl
yielding_pauses w (false ∷ polls) spell h e = elim (dec_lt (w.spins + 1) 64) [
  | yes few ↦
      let w' = record w { spins = w.spins + 1 } in
      let between : ((spell + 1) % 64 == 0) ≡ false = ground (arith, e, few) in
      rw between (
        ap (λ r. r.1 ∷ loop r.0 polls) (idle_relax w h few)
        ∙ ap (◌∷◌ Pause.relax) (yielding_pauses w' polls (spell + 1) h (omega (arith, e, few))))
  | no full ↦
      let w' = record w { spins = 0 } in
      let last : w.spins + 1 ≡ 64 = omega (arith, e, full) in
      let at_64 : ((spell + 1) % 64 == 0) ≡ true = ground (arith, e, last) in
      rw at_64 (
        ap (λ r. r.1 ∷ loop r.0 polls) (idle_yield w h last)
        ∙ ap (◌∷◌ Pause.give_way) (yielding_pauses w' polls (spell + 1) h (omega (arith, e, last))))
]

-- Whatever its polls find, a stage that spins, by its policy or because it is pinned, relaxes after
-- each idle poll and never gives its core back. Any other stage relaxes after the first 63 polls of an
-- idle spell, gives its core back after the 64th, and so on in turns of 64 until a poll finds work: it
-- gives its core back `n / 64` times in a spell of `n` polls.
pub run_lem :
    (policy : WaitPolicy) (started : Started) (polls : List Bool)
    → let spins = spins_always policy (is_ok started.result) in
      (run policy started polls ≡ pauses_of_spells (not spins) 0 polls)
      × (count_yields (run policy started polls) ≡ (if spins then 0 else yields_of_spells 0 polls))
unfolding run new spins_always
run_lem WaitPolicy.spin started polls = (spinning_pauses _ polls 0 refl, spinning _ polls refl)
run_lem WaitPolicy.yield started polls =
    (yielding_pauses _ polls 0 refl refl, omega (arith, yielding _ polls 0 refl refl))
run_lem WaitPolicy.adaptive started polls = elim (Bool-cases (is_ok started.result)) [
  | inl ok ↦ rw ok (spinning_pauses _ polls 0 refl, spinning _ polls refl)
  | inr unpinned ↦
      rw unpinned (yielding_pauses _ polls 0 refl refl, omega (arith, yielding _ polls 0 refl refl))
]
