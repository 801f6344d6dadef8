-- ===== src/Tests/Wait.antt =====
-- Instances of the theorems on pinning and waiting.
use high_frequency_trading_e.Prelude.{
  ℕ, ◌≡◌, ◌≤◌, ◌↔◌, refl, Bool, true, false, not, List, [], ◌∷◌, ◌++◌, length, take, replicate,
  if◌then◌else◌,
}
use high_frequency_trading_e.Prelude.Int.{pos, negsuc, ◌≤ℤ◌, ◌<ℤ◌}
use high_frequency_trading_e.Affinity.{Started, pin_and_name_thread, pin_current_thread, is_ok}
use high_frequency_trading_e.Affinity.Pin.{pin_and_name_thread_lem}
use high_frequency_trading_e.Wait.{WaitPolicy, run}
use high_frequency_trading_e.Wait.Yields.{
  count_yields, yields_of_spells, pauses_of_spells, spins_always, run_lem,
}

-- A stage that asks for core 2 of 1024 and gets it.
abbrev stage_name : List ℕ
stage_name = b'h' ∷ b'f' ∷ b't' ∷ []

pin_and_name_thread_lem_example :
    let s = pin_and_name_thread 1_024 (pos 0) (pos 2) stage_name in
    ((is_ok s.result ≡ true) ↔ ((pos 0 ≤ℤ pos 2) × (pos 2 <ℤ pos 1_024) × (pos 0 ≡ pos 0)))
    × (s.warned ≡ not (is_ok s.result))
    × (s.name ≡ take 15 stage_name ++ 0 ∷ [])
    × (length s.name ≤ 16)
pin_and_name_thread_lem_example = pin_and_name_thread_lem 1_024 (pos 0) (pos 2) stage_name

-- Core -1, which the engine's configuration has for an unpinned thread.
abbrev unpinned : Started
unpinned = pin_and_name_thread 1_024 (pos 0) (negsuc 0) stage_name

unpinned_warned : unpinned.warned ≡ true
unfolding pin_and_name_thread pin_current_thread
unpinned_warned = refl

abbrev polls : List Bool
polls = replicate 130 false ++ true ∷ replicate 70 false

run_lem_example :
    let spins = spins_always WaitPolicy.adaptive (is_ok unpinned.result) in
    (run WaitPolicy.adaptive unpinned polls ≡ pauses_of_spells (not spins) 0 polls)
    × (count_yields (run WaitPolicy.adaptive unpinned polls)
        ≡ (if spins then 0 else yields_of_spells 0 polls))
run_lem_example = run_lem WaitPolicy.adaptive unpinned polls

three_yields : yields_of_spells 0 polls ≡ 3
unfolding yields_of_spells
three_yields = refl
