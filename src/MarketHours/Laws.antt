-- ===== src/MarketHours/Laws.antt =====
-- The week of crates/cerdic-tee-matcher/src/market_hours.rs as one interval of closed seconds.
use cerdic.Prelude.{ℕ, ◌+◌, ◌/◌, ◌%◌, ◌≡◌, not, ◌&&◌, leb, ltb, arith}
use cerdic.MarketHours.{fx_market_open_at}

-- The seconds since the last Monday 00:00 UTC.
abbrev pub second_of_week : ℕ → ℕ
second_of_week t = (t + 259200) % 604800

-- The market is closed from Friday 21:00 UTC, second 421200 of the week, to Sunday 21:00 UTC, second
-- 594000, and at no other time.
pub fx_market_open_at_lem :
    (t : ℕ)
    → fx_market_open_at t ≡ not (leb 421200 (second_of_week t) && ltb (second_of_week t) 594000)
unfolding fx_market_open_at
fx_market_open_at_lem t =
    let day : second_of_week t / 86400 ≡ (t / 86400 + 3) % 7 = omega arith in
    let part : second_of_week t % 86400 ≡ t % 86400 = omega arith in ground arith
