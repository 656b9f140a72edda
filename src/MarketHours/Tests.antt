-- ===== src/MarketHours/Tests.antt =====
-- Concrete runs of crates/cerdic-tee-matcher/src/market_hours.rs.
use cerdic.Prelude.{◌≡◌, not, ◌&&◌, leb, ltb}
use cerdic.MarketHours.{fx_market_open_at}
use cerdic.MarketHours.Laws.{second_of_week, fx_market_open_at_lem}

-- Saturday, 2024-01-06 00:00 UTC.
fx_market_open_at_lem_example :
    fx_market_open_at 1704499200
    ≡ not (leb 421200 (second_of_week 1704499200) && ltb (second_of_week 1704499200) 594000)
fx_market_open_at_lem_example = fx_market_open_at_lem 1704499200
