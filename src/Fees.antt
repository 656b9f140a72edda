-- ===== src/Fees.antt =====
-- crates/cerdic-tee-matcher/src/fees.rs: the fee tiers and the fees priced by them. The products wrap
-- at 128 bits, as they do in a release build.
pub mod Laws
mod Tests
use cerdic.Prelude.{ℕ, ◌*◌, ◌/◌, ◌%◌, ◌^◌, List, [], ◌∷◌, leb, if◌then◌else◌}

abbrev pub bps_denominator : ℕ
bps_denominator = 10000

-- The first entry of `FEE_TIERS`, and all of them.
abbrev pub first_tier : ℕ × ℕ × ℕ
first_tier = (0, 10, 2)

abbrev pub fee_tiers : List (ℕ × ℕ × ℕ)
fee_tiers = first_tier ∷ (1000000, 8, 3) ∷ (10000000, 6, 4) ∷ (100000000, 4, 5) ∷ []

-- The `for` over the tiers, with its `break`.
abbrev pub last_reached : List (ℕ × ℕ × ℕ) → ℕ → ℕ × ℕ × ℕ → ℕ × ℕ × ℕ
last_reached [] prior_volume current = current
last_reached (tier ∷ tiers) prior_volume current =
    let rest = last_reached tiers prior_volume tier in
    if leb tier.0 prior_volume then rest else current

unfoldable pub tier_for_volume : ℕ → ℕ × ℕ
tier_for_volume prior_volume =
    let current = last_reached fee_tiers prior_volume first_tier in (current.1, current.2)

unfoldable pub taker_fee : ℕ → ℕ → ℕ
taker_fee notional prior_volume =
    let taker_bps = (tier_for_volume prior_volume).0 in
    notional * taker_bps % 2 ^ 128 / bps_denominator

unfoldable pub maker_rebate : ℕ → ℕ → ℕ
maker_rebate notional prior_volume =
    let maker_bps = (tier_for_volume prior_volume).1 in
    notional * maker_bps % 2 ^ 128 / bps_denominator
