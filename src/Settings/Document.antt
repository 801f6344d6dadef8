-- ===== src/Settings/Document.antt =====
-- A document that holds every setting, and what `main` reads from it.
use high_frequency_trading_e.Prelude.{
  ℕ, ◌^◌, ◌<◌, ◌≤◌, ◌≡◌, ◌≢◌, refl, sym, subst, ap, ◌∙◌, inl, inr, Bool, true, false, ◌==◌, ==_iff,
  Bool-cases, List, [], ◌∷◌, Option, arith, if◌then◌else◌,
}
use high_frequency_trading_e.Prelude.Int.{ℤ, pos, pos_part, neg_part, to_int32, residue32}
use high_frequency_trading_e.Prelude.Text.{codes}
use high_frequency_trading_e.Config.{
  JsonValue, number, string, object, empty, member, eq_text, lookup, emplace, parse_document, ok,
}
use high_frequency_trading_e.Config.Print.{print, normal, Printable, NoZero, ShowsNumbers}
use high_frequency_trading_e.Config.RoundTrip.{parse_document-print}
use high_frequency_trading_e.Config.Lookup.{get_int, get_double, get_string, find, find_keys, keys}
use high_frequency_trading_e.Settings.{Settings, load, to_uint16}

module _ {N : Type 0} (of_long : ℤ → N) (s : Settings N) where
  abbrev integer : ℤ → JsonValue N
  integer z = number (of_long z)

  unfoldable pub cores : JsonValue N
  cores = object (
      member (codes "feed_handler") (integer s.feed_core) (
        member (codes "strategy") (integer s.strategy_core)
          (member (codes "order_gateway") (integer s.gateway_core) empty)))

  unfoldable pub network : JsonValue N
  network = object (
      member (codes "feed_port") (integer (pos s.feed_port)) (
        member (codes "order_addr") (string s.order_host) (
          member (codes "order_port") (integer (pos s.order_port))
            (member (codes "fill_port") (integer (pos s.fill_port)) empty))))

  unfoldable pub strategy : JsonValue N
  strategy = object (
      member (codes "imbalance_threshold") (number s.threshold)
        (member (codes "order_size") (integer (pos s.order_size)) empty))

  unfoldable pub risk : JsonValue N
  risk = object (
      member (codes "max_position") (integer s.max_position) (
        member (codes "max_order_size") (integer (pos s.max_order_size)) (
          member (codes "rate_limit_per_sec") (number s.max_orders_per_sec)
            (member (codes "burst") (integer (pos s.burst)) empty))))

  unfoldable pub document : JsonValue N
  document = object (
      member (codes "cores") cores (
        member (codes "network") network
          (member (codes "strategy") strategy (member (codes "risk") risk empty))))

-- An integer that a double holds exactly, as its 53 bits of precision promise.
abbrev pub IsExact : ℤ → Type 0
IsExact z = (pos_part z ≤ 2 ^ 53) × (neg_part z ≤ 2 ^ 53)

-- The settings are within the types of their fields, and `max_position` is an integer that a double
-- holds: the file format has doubles only.
pub record SettingsFit {N : Type 0} (s : Settings N) : Type 0 where
  pub feed_core : to_int32 s.feed_core ≡ s.feed_core
  pub strategy_core : to_int32 s.strategy_core ≡ s.strategy_core
  pub gateway_core : to_int32 s.gateway_core ≡ s.gateway_core
  pub feed_port : s.feed_port < 2 ^ 16
  pub order_port : s.order_port < 2 ^ 16
  pub fill_port : s.fill_port < 2 ^ 16
  pub order_size : s.order_size < 2 ^ 32
  pub max_position : IsExact s.max_position
  pub max_order_size : s.max_order_size < 2 ^ 32
  pub burst : s.burst < 2 ^ 32

to_uint16_small : (n : ℕ) → n < 2 ^ 16 → to_uint16 (pos n) ≡ n
unfolding to_uint16
to_uint16_small n h = omega (arith, h)

residue32_small : (n : ℕ) → n < 2 ^ 32 → residue32 (pos n) ≡ n
residue32_small n h = omega (arith, h)

to_int32-IsExact : (z : ℤ) → IsExact (to_int32 z)
unfolding to_int32
to_int32-IsExact z = (ground arith, ground arith)

int32-IsExact : (z : ℤ) → to_int32 z ≡ z → IsExact z
int32-IsExact z e = subst IsExact e (to_int32-IsExact z)

small-IsExact : (n : ℕ) → n < 2 ^ 32 → IsExact (pos n)
small-IsExact n h = (omega (arith, h), omega arith)

-- The settings of such a document are read back.
load-document :
    {N : Type 0} (to_long : N → ℤ) (of_long : ℤ → N) (threshold no_rate : N) (s : Settings N)
    → ((z : ℤ) → IsExact z → to_long (of_long z) ≡ z)
    → SettingsFit s
    → load to_long threshold no_rate (document of_long s) ≡ s
unfolding load document cores network strategy risk get_int get_double get_string find find_keys
    keys lookup eq_text
load-document to_long of_long threshold no_rate s back fit = λ i. record {
  feed_core =
      (ap to_int32 (back s.feed_core (int32-IsExact s.feed_core fit.feed_core)) ∙ fit.feed_core) i;
  strategy_core =
      (ap to_int32 (back s.strategy_core (int32-IsExact s.strategy_core fit.strategy_core))
          ∙ fit.strategy_core)
        i;
  gateway_core =
      (ap to_int32 (back s.gateway_core (int32-IsExact s.gateway_core fit.gateway_core))
          ∙ fit.gateway_core)
        i;
  feed_port =
      (ap to_uint16
            (back (pos s.feed_port) (small-IsExact s.feed_port (omega (arith, fit.feed_port))))
          ∙ to_uint16_small s.feed_port fit.feed_port)
        i;
  order_host = s.order_host;
  order_port =
      (ap to_uint16
            (back (pos s.order_port) (small-IsExact s.order_port (omega (arith, fit.order_port))))
          ∙ to_uint16_small s.order_port fit.order_port)
        i;
  fill_port =
      (ap to_uint16
            (back (pos s.fill_port) (small-IsExact s.fill_port (omega (arith, fit.fill_port))))
          ∙ to_uint16_small s.fill_port fit.fill_port)
        i;
  threshold = s.threshold;
  order_size =
      (ap residue32 (back (pos s.order_size) (small-IsExact s.order_size fit.order_size))
          ∙ residue32_small s.order_size fit.order_size)
        i;
  max_position = back s.max_position fit.max_position i;
  max_order_size =
      (ap residue32
            (back (pos s.max_order_size) (small-IsExact s.max_order_size fit.max_order_size))
          ∙ residue32_small s.max_order_size fit.max_order_size)
        i;
  max_orders_per_sec = s.max_orders_per_sec;
  burst =
      (ap residue32 (back (pos s.burst) (small-IsExact s.burst fit.burst))
          ∙ residue32_small s.burst fit.burst)
        i;
}

abbrev zero_free : List ℕ → Bool
zero_free [] = true
zero_free (c ∷ cs) = if c == 0 then false else zero_free cs

no_zero : (t : List ℕ) → zero_free t ≡ true → NoZero t
no_zero [] h = tt
no_zero (c ∷ cs) h = elim (Bool-cases (c == 0)) [
  | inl e ↦ absurd (false_not_true (subst (λ b. (if b then false else zero_free cs) ≡ true) e h))
  | inr ne ↦ (
    λ e. absurd (false_not_true (sym ne ∙ (==_iff c 0).1 e)),
    no_zero cs (subst (λ b. (if b then false else zero_free cs) ≡ true) ne h),
  )
]
  where
    false_not_true : false ≢ true
    false_not_true e = cc

module _ {N : Type 0} (of_long : ℤ → N) (s : Settings N) where
  cores-Printable : Printable (cores of_long s)
  unfolding cores Printable
  cores-Printable = (
    no_zero (codes "feed_handler") refl,
    tt,
    (no_zero (codes "strategy") refl, tt, (no_zero (codes "order_gateway") refl, tt, tt)),
  )

  network-Printable : NoZero s.order_host → Printable (network of_long s)
  unfolding network Printable
  network-Printable host = (
    no_zero (codes "feed_port") refl,
    tt,
    (
      no_zero (codes "order_addr") refl,
      host,
      (no_zero (codes "order_port") refl, tt, (no_zero (codes "fill_port") refl, tt, tt)),
    ),
  )

  strategy-Printable : Printable (strategy of_long s)
  unfolding strategy Printable
  strategy-Printable =
      (no_zero (codes "imbalance_threshold") refl, tt, (no_zero (codes "order_size") refl, tt, tt))

  risk-Printable : Printable (risk of_long s)
  unfolding risk Printable
  risk-Printable = (
    no_zero (codes "max_position") refl,
    tt,
    (
      no_zero (codes "max_order_size") refl,
      tt,
      (no_zero (codes "rate_limit_per_sec") refl, tt, (no_zero (codes "burst") refl, tt, tt)),
    ),
  )

  document-Printable : NoZero s.order_host → Printable (document of_long s)
  unfolding document Printable
  document-Printable host = (
    no_zero (codes "cores") refl,
    cores-Printable,
    (
      no_zero (codes "network") refl,
      network-Printable host,
      (
        no_zero (codes "strategy") refl,
        strategy-Printable,
        (no_zero (codes "risk") refl, risk-Printable, tt),
      ),
    ),
  )

document-normal :
    {N : Type 0} (of_long : ℤ → N) (s : Settings N)
    → normal (document of_long s) ≡ document of_long s
unfolding document cores network strategy risk normal emplace eq_text
document-normal of_long s = refl

-- `main` gets back every setting from the text of a document that holds them under its keys, if
-- `show` and `std::stod` fit each other on the numbers (finite doubles), the cast of a double to
-- `long` gives back an integer of at most 2 ^ 53 in magnitude that became a double, the settings are
-- within their types, `max_position` is such an integer and the host has no character 0.
pub load-parse :
    {N : Type 0} (stod : List ℕ → Option N) (show : N → List ℕ) (to_long : N → ℤ) (of_long : ℤ → N)
    (threshold no_rate : N) (s : Settings N)
    → ShowsNumbers stod show
    → ((z : ℤ) → IsExact z → to_long (of_long z) ≡ z)
    → SettingsFit s
    → NoZero s.order_host
    → (root : JsonValue N) × (parse_document stod (print show (document of_long s) []) ≡ ok root [])
      × (load to_long threshold no_rate root ≡ s)
load-parse stod show to_long of_long threshold no_rate s shows back fit host = (
  normal (document of_long s),
  parse_document-print stod show (document of_long s) shows (document-Printable of_long s host),
  ap (load to_long threshold no_rate) (document-normal of_long s)
      ∙ load-document to_long of_long threshold no_rate s back fit,
)
