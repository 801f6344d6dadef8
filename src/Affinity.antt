-- ===== src/Affinity.antt =====
-- include/hft/affinity.hpp, on Linux: what a thread asks of the platform, and what it makes of the
-- answers. The answer of a call of the platform is an argument, 0 being success.
pub mod Pin
use high_frequency_trading_e.Prelude.{
  ℕ, zero, suc, ◌+◌, ◌-◌, Bool, true, false, ◌&&◌, ◌||◌, not, List, [], ◌∷◌, ◌++◌, Option, none,
  some, ltb, leb, ◌==◌, if◌then◌else◌, length, take,
}
use high_frequency_trading_e.Prelude.Int.{ℤ, pos, negsuc, pos_part, ltb_ℤ}

pub data AffinityStatus : Type 0 where
  pinned unsupported_platform invalid_core failed : AffinityStatus

pub record AffinityResult : Type 0 where
  pub status : AffinityStatus
  pub error : ℤ

abbrev pub is_pinned : AffinityStatus → Bool
is_pinned AffinityStatus.pinned = true
is_pinned _ = false

abbrev pub is_ok : AffinityResult → Bool
is_ok r = is_pinned r.status

-- CPU_SETSIZE of the platform is `set_size`, `rc` what pthread_setaffinity_np returns. A number that
-- is not negative and fits an `int` is itself as an `unsigned`.
unfoldable pub pin_current_thread : ℕ → ℤ → ℤ → AffinityResult
pin_current_thread set_size rc core =
    if ltb_ℤ core (pos 0) || leb set_size (pos_part core)
    then record { status = AffinityStatus.invalid_core; error = pos 0 }
    else if ltb_ℤ rc (pos 0) || ltb_ℤ (pos 0) rc
    then record { status = AffinityStatus.failed; error = rc }
    else record { status = AffinityStatus.pinned; error = pos 0 }

abbrev pub max_thread_name_bytes : ℕ
max_thread_name_bytes = 16

-- The bytes that set_current_thread_name hands to the platform, the terminating 0 included.
unfoldable pub thread_name : List ℕ → List ℕ
thread_name name =
    let len = length name in
    let n = if ltb len (max_thread_name_bytes - 1) then len else max_thread_name_bytes - 1 in
    take n name ++ 0 ∷ []

-- What pin_and_name_thread does: the name it sets, whether it warns, and its result.
pub record Started : Type 0 where
  pub name : List ℕ
  pub warned : Bool
  pub result : AffinityResult

abbrev pub warns_at : AffinityStatus → Bool
warns_at AffinityStatus.failed = true
warns_at AffinityStatus.invalid_core = true
warns_at _ = false

unfoldable pub pin_and_name_thread : ℕ → ℤ → ℤ → List ℕ → Started
pin_and_name_thread set_size rc core name =
    let r = pin_current_thread set_size rc core in
    record { name = thread_name name; warned = warns_at r.status; result = r }
