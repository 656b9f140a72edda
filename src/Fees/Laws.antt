-- ===== src/Fees/Laws.antt =====
-- The tiers and the fees of crates/cerdic-tee-matcher/src/fees.rs.
use cerdic.Prelude.{ℕ, ◌*◌, ◌/◌, ◌^◌, ◌≤◌, ◌<◌, arith}
use cerdic.Fees.{bps_denominator, tier_for_volume, taker_fee, maker_rebate}

-- Every tier's rates: the taker pays 4 to 10 basis points, the maker gets 2 to 5.
pub tier_bounds :
    (v : ℕ)
    → (4 ≤ (tier_for_volume v).0)
      × ((tier_for_volume v).0 ≤ 10)
      × (2 ≤ (tier_for_volume v).1)
      × ((tier_for_volume v).1 ≤ 5)
unfolding tier_for_volume
tier_bounds v = ground arith

-- More prior volume never earns a worse tier: the taker's rate falls, the maker's rises, or each stays.
pub tier_for_volume-monotone :
    (v w : ℕ)
    → v ≤ w
    → ((tier_for_volume w).0 ≤ (tier_for_volume v).0)
      × ((tier_for_volume v).1 ≤ (tier_for_volume w).1)
unfolding tier_for_volume
tier_for_volume-monotone v w h = ground arith

-- While ten times the notional fits 128 bits, a trader with more prior volume pays no more, and earns
-- no less, on the same notional.
pub fees-monotone :
    (n v w : ℕ)
    → n * 10 < 2 ^ 128
    → v ≤ w
    → (taker_fee n w ≤ taker_fee n v) × (maker_rebate n v ≤ maker_rebate n w)
unfolding taker_fee maker_rebate tier_for_volume
fees-monotone n v w fits h = ground arith

-- While ten times the notional fits 128 bits, the taker's fee is between 4 and 10 basis points of it.
pub taker_fee_bounds :
    (n v : ℕ)
    → n * 10 < 2 ^ 128
    → (n * 4 / bps_denominator ≤ taker_fee n v) × (taker_fee n v * 1000 ≤ n)
unfolding taker_fee tier_for_volume
taker_fee_bounds n v fits = ground arith
