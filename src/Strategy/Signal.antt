-- ===== src/Strategy/Signal.antt =====
-- The integer cross-product test of the strategy against the ratio that it stands for.
use high_frequency_trading_e.Prelude.{ℕ, ◌+◌, ◌*◌, ◌<◌, ◌≡◌, ◌↔◌, true, arith}
use high_frequency_trading_e.Prelude.Int.{pos, ◌+ℤ◌, ◌-ℤ◌, ◌*ℤ◌}
use high_frequency_trading_e.Strategy.{thr_den, buy_signal, sell_signal}

-- For a threshold of `t` parts in 16384 the strategy buys exactly when
-- (bid - ask) / (bid + ask) > t / 16384, and sells exactly when the opposite ratio exceeds it, both
-- stated without division or subtraction.
pub signals_lem :
    (t bid ask : ℕ)
    → ((buy_signal (pos t) bid ask ≡ true) ↔ (t * (bid + ask) + ask * thr_den < bid * thr_den))
      × ((sell_signal (pos t) bid ask ≡ true) ↔ (t * (bid + ask) + bid * thr_den < ask * thr_den))
unfolding buy_signal sell_signal ◌+ℤ◌ ◌-ℤ◌ ◌*ℤ◌
signals_lem t bid ask = ground arith
