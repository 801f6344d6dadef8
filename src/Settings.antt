-- ===== src/Settings.antt =====
-- apps/hft_main.cpp: the command line and the settings that a configuration file gives the engine.
-- `strtol`, the cast of a double to `long` and the two floating-point defaults are parameters.
pub mod Document
pub mod Simulator
use high_frequency_trading_e.Prelude.{
  ℕ, zero, suc, ◌-◌, ◌%◌, ◌^◌, Bool, List, [], ◌∷◌, Option, none, some, if◌then◌else◌,
}
use high_frequency_trading_e.Prelude.Int.{ℤ, pos, negsuc, to_int32, residue32}
use high_frequency_trading_e.Prelude.Text.{codes}
use high_frequency_trading_e.Config.{JsonValue, eq_text}
use high_frequency_trading_e.Config.Lookup.{get_int, get_double, get_string}

-- The loop of `arg_str` from some argument on: the value behind the first `key`.
unfoldable pub arg_from : List (List ℕ) → List ℕ → Option (List ℕ)
arg_from [] key = none
arg_from (a ∷ []) key = none
arg_from (a ∷ b ∷ rest) key =
    let later = arg_from (b ∷ rest) key in if eq_text a key then some b else later

-- The first of `argv` is the program's name.
unfoldable pub arg_str : List (List ℕ) → List ℕ → Option (List ℕ)
arg_str [] key = none
arg_str (program ∷ args) key = arg_from args key

abbrev pub number_or : (List ℕ → ℤ) → Option (List ℕ) → ℤ → ℤ
number_or strtol none def = def
number_or strtol (some s) def = strtol s

unfoldable pub arg_long : (List ℕ → ℤ) → List (List ℕ) → List ℕ → ℤ → ℤ
arg_long strtol argv key def = number_or strtol (arg_str argv key) def

-- `static_cast<std::uint16_t>`
unfoldable pub to_uint16 : ℤ → ℕ
to_uint16 (pos n) = n % 2 ^ 16
to_uint16 (negsuc n) = 2 ^ 16 - 1 - n % 2 ^ 16

-- The fields of EngineConfig that `main` reads from the file.
pub record Settings (N : Type 0) : Type 0 where
  pub feed_core : ℤ
  pub strategy_core : ℤ
  pub gateway_core : ℤ
  pub feed_port : ℕ
  pub order_host : List ℕ
  pub order_port : ℕ
  pub fill_port : ℕ
  pub threshold : N
  pub order_size : ℕ
  pub max_position : ℤ
  pub max_order_size : ℕ
  pub max_orders_per_sec : N
  pub burst : ℕ

module _ {N : Type 0} (to_long : N → ℤ) (default_threshold no_rate : N) where
  unfoldable pub load : JsonValue N → Settings N
  load c = record {
    feed_core = to_int32 (get_int to_long c (codes "cores.feed_handler") (negsuc 0));
    strategy_core = to_int32 (get_int to_long c (codes "cores.strategy") (negsuc 0));
    gateway_core = to_int32 (get_int to_long c (codes "cores.order_gateway") (negsuc 0));
    feed_port = to_uint16 (get_int to_long c (codes "network.feed_port") (pos 31_337));
    order_host = get_string c (codes "network.order_addr") (codes "127.0.0.1");
    order_port = to_uint16 (get_int to_long c (codes "network.order_port") (pos 31_338));
    fill_port = to_uint16 (get_int to_long c (codes "network.fill_port") (pos 31_339));
    threshold = get_double c (codes "strategy.imbalance_threshold") default_threshold;
    order_size = residue32 (get_int to_long c (codes "strategy.order_size") (pos 100));
    max_position = get_int to_long c (codes "risk.max_position") (pos 1_000);
    max_order_size = residue32 (get_int to_long c (codes "risk.max_order_size") (pos 500));
    max_orders_per_sec = get_double c (codes "risk.rate_limit_per_sec") no_rate;
    burst = residue32 (get_int to_long c (codes "risk.burst") (pos 100));
  }
