-- ===== src/MarketHours.antt =====
-- crates/cerdic-tee-matcher/src/market_hours.rs: when the FX week is open.
pub mod Laws
mod Tests
use cerdic.Prelude.{ℕ, ◌+◌, ◌*◌, ◌/◌, ◌%◌, Bool, true, false, leb, ltb, ◌==◌, if◌then◌else◌}

abbrev pub seconds_per_day : ℕ
seconds_per_day = 86400

abbrev pub epoch_weekday_offset : ℕ
epoch_weekday_offset = 3

abbrev pub fx_close_open_utc_seconds : ℕ
fx_close_open_utc_seconds = 75600

-- Monday is weekday 0.
unfoldable pub fx_market_open_at : ℕ → Bool
fx_market_open_at unix_seconds =
    let day = unix_seconds / seconds_per_day in
    let weekday = (day + epoch_weekday_offset) % 7 in
    let seconds_in_day = unix_seconds % seconds_per_day in
    if weekday == 5
    then false
    else if weekday == 4
    then ltb seconds_in_day fx_close_open_utc_seconds
    else if weekday == 6
    then leb fx_close_open_utc_seconds seconds_in_day
    else true
