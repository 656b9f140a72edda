-- ===== src/Risk/Isolated.antt =====
-- The isolated margin of crates/risk/src/lib.rs and the two tests against the collateral.
pub mod Laws
use cerdic.Prelude.{
  ℕ, ◌+◌, ◌-◌, ◌*◌, ◌/◌, Bool, true, false, Option, none, some, List, [], ◌∷◌, ltb, leb, ◌==◌,
  if◌then◌else◌,
}
use cerdic.Prelude.Int.{ℤ, unsigned_abs}
use cerdic.Risk.Types.{
  Reply, returned, failed, panicked, ◌>>=◌, mmr_bps, bps_denominator, scale, PositionState, Prices,
  AccountState, MarginResult, add_256, mul_256, to_u128, price_or_missing,
}

-- What one position adds.
unfoldable pub position_term : ℕ → ℕ → Reply ℕ
position_term magnitude mark_price = do
  notional ← mul_256 magnitude mark_price
  weighted ← mul_256 notional mmr_bps
  returned (weighted / (scale * bps_denominator))

-- The `for` over the positions, with `requirement` so far.
unfoldable pub requirement_from : Prices → List PositionState → ℕ → Reply ℕ
requirement_from prices [] requirement = returned requirement
requirement_from prices (p ∷ ps) requirement =
    let skipped = requirement_from prices ps requirement in
    let added = do
      mark_price ← price_or_missing p.market_id (prices p.market_id)
      term ← position_term (unsigned_abs p.size) mark_price
      sum ← add_256 requirement term
      requirement_from prices ps sum
    in if unsigned_abs p.size == 0 then skipped else added

unfoldable pub current_margin_requirement : List PositionState → Prices → Reply ℕ
current_margin_requirement positions prices = do
  requirement ← requirement_from prices positions 0
  to_u128 requirement

unfoldable pub compute_margin : AccountState → Prices → Reply MarginResult
compute_margin account prices = do
  margin_requirement ← current_margin_requirement account.positions prices
  returned (record {
    margin_requirement = margin_requirement;
    effective_collateral = account.effective_collateral;
    maintenance_breached = ltb account.effective_collateral margin_requirement;
  })

unfoldable pub is_withdraw_safe : AccountState → Prices → ℕ → Reply Bool
is_withdraw_safe account prices withdraw_value_usd = do
  margin_requirement ← current_margin_requirement account.positions prices
  returned (
      if ltb account.effective_collateral withdraw_value_usd
      then false
      else leb margin_requirement (account.effective_collateral - withdraw_value_usd))
