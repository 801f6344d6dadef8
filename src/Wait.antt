-- ===== src/Wait.antt =====
-- include/hft/wait_policy.hpp, and the loops of the stages that use it: `run` of
-- include/hft/feed_handler.hpp, include/hft/strategy.hpp and include/hft/order_gateway.hpp. Whether
-- each poll found work is an argument of the loop.
pub mod Yields
use high_frequency_trading_e.Prelude.{
  ℕ, suc, ◌+◌, ◌%◌, ◌^◌, Bool, true, false, ◌&&◌, ◌||◌, List, [], ◌∷◌, Option, none, some, ltb,
  if◌then◌else◌,
}
use high_frequency_trading_e.Affinity.{Started, is_ok}

pub data WaitPolicy : Type 0 where
  adaptive spin yield : WaitPolicy

abbrev pub spins_before_yield : ℕ
spins_before_yield = 64

pub record WaitStrategy : Type 0 where
  pub spin_only : Bool
  pub spins : ℕ

unfoldable pub new : WaitPolicy → Bool → WaitStrategy
new WaitPolicy.spin pinned = record { spin_only = true; spins = 0 }
new WaitPolicy.adaptive pinned = record { spin_only = pinned; spins = 0 }
new WaitPolicy.yield pinned = record { spin_only = false; spins = 0 }

-- What a poll that found no work ends in: `cpu_relax` or `std::this_thread::yield`.
pub data Pause : Type 0 where
  relax give_way : Pause

unfoldable pub idle : WaitStrategy → WaitStrategy × Pause
idle w =
    let counted = record w { spins = (w.spins + 1) % 2 ^ 32 } in
    if w.spin_only
    then (w, Pause.relax)
    else if ltb counted.spins spins_before_yield
    then (counted, Pause.relax)
    else (record w { spins = 0 }, Pause.give_way)

unfoldable pub reset : WaitStrategy → WaitStrategy
reset w = record w { spins = 0 }

-- The loop of `run` after the polls of a list, with the pauses it made.
unfoldable pub loop : WaitStrategy → List Bool → List Pause
loop w [] = []
loop w (true ∷ polls) = loop (reset w) polls
loop w (false ∷ polls) = (idle w).1 ∷ loop (idle w).0 polls

-- `run` on a thread that was pinned and named.
unfoldable pub run : WaitPolicy → Started → List Bool → List Pause
run policy started polls = loop (new policy (is_ok started.result)) polls
