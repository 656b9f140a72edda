-- ===== src/Risk/Portfolio.antt =====
-- The portfolio margin of crates/risk/src/lib.rs: its four terms and their sum. Native 128-bit sums and
-- products wrap as in a release build.
pub mod Scenarios
pub mod Correlation
pub mod Total
use cerdic.Prelude.{
  ℕ, suc, ◌+◌, ◌-◌, ◌*◌, ◌/◌, ◌%◌, Bool, true, false, not, Option, none, some, List, [], ◌∷◌, min,
  Dict, lookup, insert, ltb, leb, ◌==◌, if◌then◌else◌,
}
use cerdic.Prelude.Int.{
  ℤ, pos, negsuc, unsigned_abs, ltb_ℤ, as_i128, wrap_i128, ◌+ℤ◌, ◌-ℤ◌, ◌*ℤ◌, i128_end,
}
use cerdic.Risk.Types.{
  Reply, returned, failed, panicked, ◌>>=◌, bps_denominator, scale, u128_end, PositionState, Prices,
  Scenario, CorrelationEntry, PortfolioMarginParams, PortfolioMarginResult, add_256, mul_256,
  to_u128, to_i128, checked_add_u128, in_i128, price_or_missing, or_zero,
}

unfoldable pub signed_exposure_usd : ℤ → ℕ → Reply ℤ
signed_exposure_usd size mark_price = do
  product ← mul_256 (unsigned_abs size) mark_price
  magnitude ← to_i128 (product / scale)
  returned (if ltb_ℤ size (pos 0) then pos 0 -ℤ magnitude else magnitude)

abbrev pub shift_of : Scenario → ℕ → ℤ
shift_of scenario market = elim (scenario.price_shifts_bps market) [
  | none ↦ pos 0
  | some shift ↦ shift
]

-- `shifted_price`, an `i128`
unfoldable pub shifted_price : ℕ → ℤ → Reply ℤ
shifted_price mark_price shift_bps = do
  product ← mul_256 mark_price (unsigned_abs shift_bps)
  delta ← to_i128 (product / bps_denominator)
  returned (
      if ltb_ℤ shift_bps (pos 0)
      then wrap_i128 (as_i128 mark_price -ℤ delta)
      else wrap_i128 (as_i128 mark_price +ℤ delta))

-- `max(0) as u128`
abbrev pub floor_zero : ℤ → ℕ
floor_zero (pos n) = n
floor_zero (negsuc n) = 0

-- The value that a position gains in a scenario.
unfoldable pub position_change : Prices → Scenario → PositionState → Reply ℤ
position_change prices scenario p = do
  mark_price ← price_or_missing p.market_id (prices p.market_id)
  shifted ← shifted_price mark_price (shift_of scenario p.market_id)
  after ← signed_exposure_usd p.size (floor_zero shifted)
  now ← signed_exposure_usd p.size mark_price
  in_i128 (after -ℤ now)

unfoldable pub scenario_change : Prices → Scenario → List PositionState → ℤ → Reply ℤ
scenario_change prices scenario [] change = returned change
scenario_change prices scenario (p ∷ ps) change =
    let skipped = scenario_change prices scenario ps change in
    let added = do
      gain ← position_change prices scenario p
      sum ← in_i128 (change +ℤ gain)
      scenario_change prices scenario ps sum
    in if unsigned_abs p.size == 0 then skipped else added

-- `saturating_neg`
abbrev pub saturating_neg : ℤ → ℤ
saturating_neg x =
    if ltb_ℤ (pos (i128_end - 1)) (pos 0 -ℤ x) then pos (i128_end - 1) else pos 0 -ℤ x

abbrev pub max_i128 : ℤ → ℤ → ℤ
max_i128 a b = if ltb_ℤ a b then b else a

unfoldable pub worst_loss_from : Prices → List PositionState → List Scenario → ℤ → Reply ℤ
worst_loss_from prices positions [] worst_loss = returned worst_loss
worst_loss_from prices positions (s ∷ ss) worst_loss = do
  change ← scenario_change prices s positions (pos 0)
  worst_loss_from prices positions ss (max_i128 worst_loss (saturating_neg change))

unfoldable pub scenario_margin : List PositionState → Prices → List Scenario → Reply ℕ
scenario_margin positions prices scenarios = do
  worst_loss ← worst_loss_from prices positions scenarios (pos 0)
  returned (floor_zero worst_loss)

-- The label "ungrouped".
abbrev pub ungrouped : ℕ
ungrouped = 0

abbrev pub group_of : (ℕ → Option ℕ) → ℕ → ℕ
group_of asset_groups market = elim (asset_groups market) [ none ↦ ungrouped | some group ↦ group ]

-- The gross notional of each group, and of all.
unfoldable pub group_notionals :
    Prices → (ℕ → Option ℕ) → List PositionState → Dict ℕ → ℕ → Reply (Dict ℕ × ℕ)
group_notionals prices asset_groups [] groups total = returned (groups, total)
group_notionals prices asset_groups (p ∷ ps) groups total =
    let skipped = group_notionals prices asset_groups ps groups total in
    let added = do
      mark_price ← price_or_missing p.market_id (prices p.market_id)
      product ← mul_256 (unsigned_abs p.size) mark_price
      notional ← to_u128 (product / scale)
      total' ← checked_add_u128 total notional
      let group = group_of asset_groups p.market_id
      let sum = (or_zero (lookup group groups) + notional) % u128_end
      group_notionals prices asset_groups ps (insert group sum groups) total'
    in if unsigned_abs p.size == 0 then skipped else added

-- The charges of the groups over the threshold.
unfoldable pub group_charges : ℕ → ℕ → Dict ℕ → ℕ → ℕ
group_charges threshold kappa_bps [] charge = charge
group_charges threshold kappa_bps ((group, notional) ∷ groups) charge =
    let excess = notional - threshold in
    let over =
      group_charges threshold kappa_bps groups
        ((charge + excess * kappa_bps % u128_end / bps_denominator) % u128_end) in
    let under = group_charges threshold kappa_bps groups charge in
    if ltb threshold notional then over else under

unfoldable pub concentration_charge : List PositionState → Prices → (ℕ → Option ℕ) → ℕ → ℕ → Reply ℕ
concentration_charge positions prices asset_groups threshold_bps kappa_bps = do
  (groups, total) ← group_notionals prices asset_groups positions [] 0
  let threshold = total * threshold_bps % u128_end / bps_denominator
  returned (if total == 0 then 0 else group_charges threshold kappa_bps groups 0)

unfoldable pub liquidity_from : Prices → (ℕ → Option ℕ) → List PositionState → ℕ → Reply ℕ
liquidity_from prices liquidity_bps [] charge = returned charge
liquidity_from prices liquidity_bps (p ∷ ps) charge =
    let skipped = liquidity_from prices liquidity_bps ps charge in
    let added = do
      mark_price ← price_or_missing p.market_id (prices p.market_id)
      product ← mul_256 (unsigned_abs p.size) mark_price
      weighted ← mul_256 (product / scale) (or_zero (liquidity_bps p.market_id))
      term ← to_u128 (weighted / bps_denominator)
      liquidity_from prices liquidity_bps ps ((charge + term) % u128_end)
    in if unsigned_abs p.size == 0 then skipped else added

unfoldable pub liquidity_charge : List PositionState → Prices → (ℕ → Option ℕ) → Reply ℕ
liquidity_charge positions prices liquidity_bps = liquidity_from prices liquidity_bps positions 0

-- The exposure of each market, the last position's where a market stands twice.
unfoldable pub exposures_from : Prices → List PositionState → Dict ℤ → Reply (Dict ℤ)
exposures_from prices [] exposures = returned exposures
exposures_from prices (p ∷ ps) exposures =
    let skipped = exposures_from prices ps exposures in
    let added = do
      mark_price ← price_or_missing p.market_id (prices p.market_id)
      exposure ← signed_exposure_usd p.size mark_price
      exposures_from prices ps (insert p.market_id exposure exposures)
    in if unsigned_abs p.size == 0 then skipped else added

abbrev pub nonnegative : ℤ → Bool
nonnegative x = not (ltb_ℤ x (pos 0))

abbrev pub same : Bool → Bool → Bool
same true b = b
same false b = not b

-- `sign * rho_sign * term` of a pair of exposures
unfoldable pub pair_term : ℤ → ℤ → ℤ → ℕ → Reply ℤ
pair_term e_a e_b rho_bps beta_bps = do
  weighted ← mul_256 (min (unsigned_abs e_a) (unsigned_abs e_b)) (unsigned_abs rho_bps)
  scaled ← mul_256 weighted beta_bps
  term ← to_i128 (scaled / (bps_denominator * bps_denominator))
  let charged = same (same (nonnegative e_a) (nonnegative e_b)) (nonnegative rho_bps)
  returned (if charged then term else pos 0 -ℤ term)

unfoldable pub correlations_from : Dict ℤ → ℕ → List CorrelationEntry → ℤ → Reply ℤ
correlations_from exposures beta_bps [] total = returned total
correlations_from exposures beta_bps (entry ∷ entries) total =
    elim (lookup entry.market_a exposures) [
      | none ↦ correlations_from exposures beta_bps entries total
      | some e_a ↦ elim (lookup entry.market_b exposures) [
        | none ↦ correlations_from exposures beta_bps entries total
        | some e_b ↦ do
          term ← pair_term e_a e_b entry.rho_bps beta_bps
          sum ← in_i128 (total +ℤ term)
          correlations_from exposures beta_bps entries sum
      ]
    ]

unfoldable pub correlation_adjustment :
    List PositionState → Prices → List CorrelationEntry → ℕ → Reply ℤ
correlation_adjustment positions prices correlations beta_bps = do
  exposures ← exposures_from prices positions []
  correlations_from exposures beta_bps correlations (pos 0)

-- `f_scenario as i128 + f_concentration as i128 + f_liquidity as i128 + f_correlation`
abbrev pub margin_sum : ℕ → ℕ → ℕ → ℤ → ℤ
margin_sum f_scenario f_concentration f_liquidity f_correlation =
    let s = wrap_i128 (as_i128 f_scenario +ℤ as_i128 f_concentration) in
    let l = wrap_i128 (s +ℤ as_i128 f_liquidity) in wrap_i128 (l +ℤ f_correlation)

unfoldable pub compute_portfolio_margin :
    List PositionState → Prices → PortfolioMarginParams → Reply PortfolioMarginResult
compute_portfolio_margin positions prices params = do
  f_scenario ← scenario_margin positions prices params.scenarios
  f_concentration ←
      concentration_charge positions prices params.asset_groups params.concentration_threshold_bps
        params.concentration_kappa_bps
  f_liquidity ← liquidity_charge positions prices params.liquidity_bps
  f_correlation ← correlation_adjustment positions prices params.correlations params.beta_bps
  returned (record {
    f_scenario = f_scenario;
    f_concentration = f_concentration;
    f_liquidity = f_liquidity;
    f_correlation = f_correlation;
    total = floor_zero (margin_sum f_scenario f_concentration f_liquidity f_correlation);
  })
