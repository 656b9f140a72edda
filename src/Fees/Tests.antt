-- ===== src/Fees/Tests.antt =====
-- Concrete runs of crates/cerdic-tee-matcher/src/fees.rs.
use cerdic.Prelude.{◌*◌, ◌/◌, ◌≤◌, ◌≡◌, refl, arith}
use cerdic.Fees.{bps_denominator, tier_for_volume, taker_fee, maker_rebate}
use cerdic.Fees.Laws.{tier_for_volume-monotone, fees-monotone, taker_fee_bounds}

third_tier : tier_for_volume 20000000 ≡ (6, 4)
unfolding tier_for_volume
third_tier = refl

tier_for_volume-monotone_example :
    ((tier_for_volume 20000000).0 ≤ (tier_for_volume 5000).0)
    × ((tier_for_volume 5000).1 ≤ (tier_for_volume 20000000).1)
tier_for_volume-monotone_example = tier_for_volume-monotone 5000 20000000 (omega arith)

fees-monotone_example :
    (taker_fee 1000000 20000000 ≤ taker_fee 1000000 5000)
    × (maker_rebate 1000000 5000 ≤ maker_rebate 1000000 20000000)
fees-monotone_example = fees-monotone 1000000 5000 20000000 (omega arith) (omega arith)

taker_fee_bounds_example :
    (1000000 * 4 / bps_denominator ≤ taker_fee 1000000 5000)
    × (taker_fee 1000000 5000 * 1000 ≤ 1000000)
taker_fee_bounds_example = taker_fee_bounds 1000000 5000 (omega arith)
