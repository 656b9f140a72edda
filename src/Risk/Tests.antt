-- ===== src/Risk/Tests.antt =====
-- Runs of the margins of crates/risk/src/lib.rs.
use cerdic.Prelude.{
  ℕ, ◌+◌, ◌-◌, ◌≤◌, ◌≡◌, ◌↔◌, ◌⊎◌, ◌==◌, if◌then◌else◌, refl, Bool, true, false, none, some, List,
  [], ◌∷◌, ◌++◌, All, min, arith, lookup, insert,
}
use cerdic.Prelude.Int.{pos, negsuc, ◌+ℤ◌, ◌-ℤ◌, ◌≤ℤ◌}
use cerdic.Risk.Types.{
  returned, failed, missing_mark_price, PositionState, Prices, AccountState, MarginResult, Scenario,
  PortfolioMarginParams, PortfolioMarginResult, to_u128,
}
use cerdic.Risk.Isolated.{
  requirement_from, position_term, current_margin_requirement, compute_margin, is_withdraw_safe,
}
use cerdic.Risk.Isolated.Laws.{
  margins_of, Priced, current_margin_requirement-margins_of, current_margin_requirement_missing,
  is_withdraw_safe-compute_margin,
}
use cerdic.Risk.Portfolio.{
  floor_zero, same, pair_term, scenario_margin, worst_loss_from, scenario_change, position_change,
  shifted_price, signed_exposure_usd, concentration_charge, group_notionals, group_charges,
  liquidity_charge, liquidity_from, correlation_adjustment, exposures_from, correlations_from,
  compute_portfolio_margin,
}
use cerdic.Risk.Portfolio.Scenarios.{LossUpTo, LossOf, AnyOf, scenario_margin-AnyOf}
use cerdic.Risk.Portfolio.Correlation.{pair_term_bounds}
use cerdic.Risk.Portfolio.Total.{compute_portfolio_margin-floor_zero}

-- Market 1 stands at 2000 and market 2 at 100, in units of 10^18; market 3 has no price.
abbrev prices : Prices
prices n =
    if n == 1
    then some 2000000000000000000000
    else if n == 2
    then some 100000000000000000000
    else none

-- Long 3 of market 1, short 5 of market 2.
abbrev positions : List PositionState
positions =
    record { market_id = 1; size = pos 3000000000000000000 }
    ∷ record { market_id = 2; size = negsuc 4999999999999999999 }
    ∷ []

abbrev unpriced : PositionState
unpriced = record { market_id = 3; size = pos 1 }

positions-Priced : All (Priced prices) positions
positions-Priced = (
  (λ ne. (2000000000000000000000, refl, omega arith)),
  ((λ ne. (100000000000000000000, refl, omega arith)), tt),
)

current_margin_requirement-margins_of_example :
    current_margin_requirement positions prices ≡ to_u128 (margins_of prices positions)
current_margin_requirement-margins_of_example =
    current_margin_requirement-margins_of positions prices positions-Priced (omega arith)

current_margin_requirement_missing_example :
    current_margin_requirement (positions ++ unpriced ∷ []) prices ≡ failed (missing_mark_price 3)
current_margin_requirement_missing_example =
    current_margin_requirement_missing positions [] unpriced prices positions-Priced (omega arith)
      (λ e. omega (arith, e)) refl

abbrev account : AccountState
account = record { positions = positions; effective_collateral = 300000000000000000000 }

-- 3 % of 6500
requirement_run : current_margin_requirement positions prices ≡ returned 195000000000000000000
unfolding current_margin_requirement requirement_from position_term
requirement_run = refl

is_withdraw_safe-compute_margin_example :
    (safe : Bool) × (after : MarginResult) × (is_withdraw_safe account prices 105000000000000000000
      ≡ returned safe)
    × (compute_margin
          (record account { effective_collateral = 300000000000000000000 - 105000000000000000000 })
          prices
        ≡ returned after)
    × ((safe ≡ true)
        ↔ ((105000000000000000000 ≤ 300000000000000000000) × (after.maintenance_breached ≡ false)))
is_withdraw_safe-compute_margin_example =
    is_withdraw_safe-compute_margin account prices 105000000000000000000 195000000000000000000
      requirement_run

-- Market 1 falls by a tenth, market 2 stays.
abbrev fall : Scenario
fall = record { price_shifts_bps = λ n. if n == 1 then some (negsuc 999) else none }

scenario_run : scenario_margin positions prices (fall ∷ []) ≡ returned 600000000000000000000
unfolding scenario_margin worst_loss_from scenario_change position_change shifted_price
    signed_exposure_usd ◌+ℤ◌ ◌-ℤ◌
scenario_run = refl

scenario_margin-AnyOf_example :
    All (LossUpTo prices positions (pos 600000000000000000000)) (fall ∷ [])
    × (◌≡◌ {A = ℕ} 600000000000000000000 0
        ⊎ AnyOf (LossOf prices positions (pos 600000000000000000000)) (fall ∷ []))
scenario_margin-AnyOf_example =
    scenario_margin-AnyOf positions prices (fall ∷ []) 600000000000000000000 scenario_run

pair_run : pair_term (pos 6000) (negsuc 499) (pos 5000) 10000 ≡ returned (negsuc 249)
unfolding pair_term ◌-ℤ◌
pair_run = refl

pair_term_bounds_example :
    (250 ≤ min 6000 500)
    × (same (same true false) true ≡ true → pos 0 ≤ℤ negsuc 249)
    × (same (same true false) true ≡ false → negsuc 249 ≤ℤ pos 0)
pair_term_bounds_example =
    pair_term_bounds (pos 6000) (negsuc 499) (pos 5000) 10000 (negsuc 249) pair_run (omega arith)
      (omega arith)

abbrev params : PortfolioMarginParams
params = record {
  scenarios = fall ∷ [];
  asset_groups = λ n. none;
  concentration_threshold_bps = 5000;
  concentration_kappa_bps = 100;
  liquidity_bps = λ n. if n == 1 then some 10 else none;
  correlations = record { market_a = 1; market_b = 2; rho_bps = pos 5000 } ∷ [];
  beta_bps = 10000;
}

abbrev margin : PortfolioMarginResult
margin = record {
  f_scenario = 600000000000000000000;
  f_concentration = 32500000000000000000;
  f_liquidity = 6000000000000000000;
  f_correlation = negsuc 249999999999999999999;
  total = 388500000000000000000;
}

margin_run : compute_portfolio_margin positions prices params ≡ returned margin
unfolding compute_portfolio_margin scenario_margin worst_loss_from scenario_change position_change
    shifted_price signed_exposure_usd ◌+ℤ◌ ◌-ℤ◌ concentration_charge group_notionals group_charges
    liquidity_charge liquidity_from correlation_adjustment exposures_from correlations_from
    pair_term lookup insert
margin_run = refl

compute_portfolio_margin-floor_zero_example :
    (scenario_margin positions prices params.scenarios ≡ returned margin.f_scenario)
    × (concentration_charge positions prices params.asset_groups 5000 100
        ≡ returned margin.f_concentration)
    × (liquidity_charge positions prices params.liquidity_bps ≡ returned margin.f_liquidity)
    × (correlation_adjustment positions prices params.correlations 10000
        ≡ returned margin.f_correlation)
    × (margin.total
        ≡ floor_zero (
            pos (margin.f_scenario + margin.f_concentration + margin.f_liquidity)
            +ℤ margin.f_correlation))
compute_portfolio_margin-floor_zero_example =
    compute_portfolio_margin-floor_zero positions prices params margin margin_run (omega arith)
      (omega arith) (omega arith) (omega arith)
