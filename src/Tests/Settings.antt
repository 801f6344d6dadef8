-- ===== src/Tests/Settings.antt =====
-- An instance of the theorem on the settings: whole numbers, written in tally.
use high_frequency_trading_e.Prelude.{
  ℕ, zero, suc, ◌-◌, ◌≤◌, ◌^◌, leb, ◌&&◌, ◌≡◌, refl, ap, true, List, [], ◌∷◌, Option, none, some,
  arith, length, drop, replicate, length-replicate, ◌==◌, if◌then◌else◌,
}
use high_frequency_trading_e.Prelude.Int.{ℤ, pos, negsuc, pos_part, neg_part, to_int32}
use high_frequency_trading_e.Prelude.Text.{codes}
use high_frequency_trading_e.Config.{JsonValue, parse_document, ok, sign_chars, eq_text}
use high_frequency_trading_e.Config.Print.{print, ShowsNumbers, all_number_chars}
use high_frequency_trading_e.Settings.{Settings, load, arg_str, arg_from}
use high_frequency_trading_e.Settings.Document.{document, SettingsFit, IsExact, load-parse}

abbrev show : ℤ → List ℕ
show (pos n) = b'1' ∷ replicate n b'1'
show (negsuc n) = b'-' ∷ b'1' ∷ replicate n b'1'

abbrev stod : List ℕ → Option ℤ
stod [] = none
stod (c ∷ cs) = if c == b'-' then some (negsuc (length cs - 1)) else some (pos (length cs))

tally : (n : ℕ) → all_number_chars (replicate n b'1') ≡ true
unfolding all_number_chars
tally zero = refl
tally (suc n) = tally n

tally_read : (n : ℕ) → length {A = ℕ} (replicate n b'1') ≡ n
tally_read n = length-replicate {A = ℕ} n b'1'

digit_more : (n : ℕ) → length {A = ℕ} (b'1' ∷ replicate n b'1') - 1 ≡ n
digit_more n = omega (arith, tally_read n)

shows_chars : (z : ℤ) → all_number_chars (show z) ≡ true
unfolding all_number_chars
shows_chars (pos n) = tally n
shows_chars (negsuc n) = tally n

shows_back : (z : ℤ) → stod (show z) ≡ some z
shows_back (pos n) = ap (λ k. some (pos k)) (tally_read n)
shows_back (negsuc n) = ap (λ k. some (negsuc k)) (digit_more n)

show-Shows : ShowsNumbers stod show
show-Shows = record { chars = shows_chars; some_char = some_digit; reads_back = shows_back }
  where
    some_digit : (z : ℤ) → 1 ≤ length (drop (length (sign_chars (show z))) (show z))
    some_digit (pos n) = omega arith
    some_digit (negsuc n) = omega arith

abbrev settings : Settings ℤ
settings = record {
  feed_core = pos 2;
  strategy_core = pos 3;
  gateway_core = negsuc 0;
  feed_port = 31_337;
  order_host = b'h' ∷ [];
  order_port = 31_338;
  fill_port = 31_339;
  threshold = pos 1;
  order_size = 100;
  max_position = pos 1_000;
  max_order_size = 500;
  max_orders_per_sec = pos 0;
  burst = 100;
}

settings-Fit : SettingsFit settings
unfolding to_int32
settings-Fit = record {
  feed_core = refl;
  strategy_core = refl;
  gateway_core = refl;
  feed_port = omega arith;
  order_port = omega arith;
  fill_port = omega arith;
  order_size = omega arith;
  max_position = (omega arith, omega arith);
  max_order_size = omega arith;
  burst = omega arith;
}

-- The cast loses what does not fit the 53 bits.
abbrev cast : ℤ → ℤ
cast z = if leb (pos_part z) (2 ^ 53) && leb (neg_part z) (2 ^ 53) then z else pos 0

cast-exact : (z : ℤ) → IsExact z → cast z ≡ z
cast-exact z e = ground (arith, e.0, e.1)

load-parse_example :
    (root : JsonValue ℤ) × (parse_document stod (print show (document (λ z. z) settings) [])
      ≡ ok root [])
    × (load cast (pos 1) (pos 0) root ≡ settings)
load-parse_example =
    load-parse stod show cast (λ z. z) (pos 1) (pos 0) settings show-Shows cast-exact settings-Fit
      (λ e. absurd (omega (arith, e)), tt)

config_path :
    arg_str (codes "hft" ∷ codes "--config" ∷ codes "c.json" ∷ []) (codes "--config")
    ≡ some (codes "c.json")
unfolding arg_str arg_from eq_text
config_path = refl
