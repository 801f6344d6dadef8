-- ===== src/Settings/Simulator.antt =====
-- tools/exchange_sim.cpp: the simulated exchange that a command line asks for. The base price is
-- what the source's floating-point 100.0 comes to; the endpoints and the rate are left out.
use native.Mathlib.Nat.{pow-suc}
use high_frequency_trading_e.Prelude.{
  ℕ, zero, suc, ◌/◌, ◌^◌, ◌<◌, refl, List, [], ◌∷◌, Option, none, some, arith,
}
use high_frequency_trading_e.Prelude.Int.{ℤ, pos, ◌≤ℤ◌, ◌<ℤ◌}
use high_frequency_trading_e.Prelude.Text.{codes}
use high_frequency_trading_e.Wire.{price_scale}
use high_frequency_trading_e.Wire.Codec.{read_le}
use high_frequency_trading_e.Wire.Symbol.{pack_symbol, padded, Bytes}
use high_frequency_trading_e.Exchange.{Config}
use high_frequency_trading_e.Exchange.Quotes.{ConfigFits, Near}
use high_frequency_trading_e.Settings.{arg_str, arg_long}

abbrev pub text_or : Option (List ℕ) → List ℕ → List ℕ
text_or none def = def
text_or (some s) def = s

unfoldable pub sim_config : (List ℕ → ℤ) → List (List ℕ) → Config
sim_config strtol argv = record {
  symbol = pack_symbol (text_or (arg_str argv (codes "--symbol")) (codes "TST"));
  batch = arg_long strtol argv (codes "--batch") (pos 1);
  seed = 0x5EED;
  base_price = pos 1_000_000;
  tick = pos (price_scale / 100);
}

read_le-padded_small : (n : ℕ) (t : List ℕ) → Bytes t → read_le (padded n t) < 256 ^ n
unfolding read_le padded
read_le-padded_small zero t h = omega arith
read_le-padded_small (suc n) [] h = omega (arith, read_le-padded_small n [] tt, pow-suc 256 n)
read_le-padded_small (suc n) (c ∷ cs) h =
    omega (arith, h.0, read_le-padded_small n cs h.1, pow-suc 256 n)

-- The configuration of the tool is one that the theorems on the feed ask for.
pub sim_config-ConfigFits :
    (strtol : List ℕ → ℤ) (argv : List (List ℕ))
    → Bytes (text_or (arg_str argv (codes "--symbol")) (codes "TST"))
    → ConfigFits (sim_config strtol argv)
unfolding sim_config pack_symbol
sim_config-ConfigFits strtol argv h = record {
  symbol = read_le-padded_small 4 (text_or (arg_str argv (codes "--symbol")) (codes "TST")) h;
  tick = refl;
  high = omega arith;
  low = omega arith;
}

-- Its prices are in the window of the engine's book: 4096 ticks of 100 from 800000 on.
pub sim_price_in_window :
    (strtol : List ℕ → ℤ) (argv : List (List ℕ)) (z : ℤ)
    → Near (sim_config strtol argv) 1_501 z
    → (pos 800_000 ≤ℤ z) × (z <ℤ pos 1_209_600)
unfolding sim_config
sim_price_in_window strtol argv z near = (omega (arith, near.above), omega (arith, near.below))
