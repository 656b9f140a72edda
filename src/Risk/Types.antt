-- ===== src/Risk/Types.antt =====
-- The data of crates/risk/src/lib.rs, and how its calls end. A market, a string in the source, is a
-- number, and so is a group's label; a hash map that is only read is a function.
use cerdic.Prelude.{ℕ, Bool, ◌+◌, ◌*◌, Option, none, some, List, ltb, if◌then◌else◌}
use cerdic.Prelude.Int.{ℤ, pos, i128_end, fits_i128}

pub data RiskError : Type 0 where
  missing_mark_price : ℕ → RiskError
  requirement_overflow : RiskError

-- `Result<A, RiskError>`, and the panic of an overflow of 256 bits.
pub data Reply (A : Type 0) : Type 0 where
  returned : A → Reply A
  failed : RiskError → Reply A
  panicked : Reply A

infixl 5 ◌>>=◌
abbrev pub ◌>>=◌ : {A B : Type 0} → Reply A → (A → Reply B) → Reply B
returned a >>= f = f a
failed e >>= f = failed e
panicked >>= f = panicked

abbrev pub mmr_bps : ℕ
mmr_bps = 300

abbrev pub bps_denominator : ℕ
bps_denominator = 10000

abbrev pub scale : ℕ
scale = 1000000000000000000

abbrev pub u128_end : ℕ
u128_end = 2 * i128_end

abbrev pub u256_end : ℕ
u256_end = u128_end * u128_end

pub record PositionState : Type 0 where
  pub market_id : ℕ
  pub size : ℤ

abbrev pub Prices : Type 0
Prices = ℕ → Option ℕ

pub record AccountState : Type 0 where
  pub positions : List PositionState
  pub effective_collateral : ℕ

pub record MarginResult : Type 0 where
  pub margin_requirement : ℕ
  pub effective_collateral : ℕ
  pub maintenance_breached : Bool

pub record Scenario : Type 0 where
  pub price_shifts_bps : ℕ → Option ℤ

pub record CorrelationEntry : Type 0 where
  pub market_a : ℕ
  pub market_b : ℕ
  pub rho_bps : ℤ

pub record PortfolioMarginParams : Type 0 where
  pub scenarios : List Scenario
  pub asset_groups : ℕ → Option ℕ
  pub concentration_threshold_bps : ℕ
  pub concentration_kappa_bps : ℕ
  pub liquidity_bps : ℕ → Option ℕ
  pub correlations : List CorrelationEntry
  pub beta_bps : ℕ

pub record PortfolioMarginResult : Type 0 where
  pub f_scenario : ℕ
  pub f_concentration : ℕ
  pub f_liquidity : ℕ
  pub f_correlation : ℤ
  pub total : ℕ

-- The operators of `U256`, which panic on overflow.
abbrev pub add_256 : ℕ → ℕ → Reply ℕ
add_256 a b = if ltb (a + b) u256_end then returned (a + b) else panicked

abbrev pub mul_256 : ℕ → ℕ → Reply ℕ
mul_256 a b = if ltb (a * b) u256_end then returned (a * b) else panicked

-- `u128::try_from` and `i128::try_from` of a `U256`
abbrev pub to_u128 : ℕ → Reply ℕ
to_u128 x = if ltb x u128_end then returned x else failed requirement_overflow

abbrev pub to_i128 : ℕ → Reply ℤ
to_i128 x = if ltb x i128_end then returned (pos x) else failed requirement_overflow

-- `checked_add` of a `u128`, and `checked_add` and `checked_sub` of an `i128`
abbrev pub checked_add_u128 : ℕ → ℕ → Reply ℕ
checked_add_u128 a b =
    if ltb (a + b) u128_end then returned (a + b) else failed requirement_overflow

abbrev pub in_i128 : ℤ → Reply ℤ
in_i128 x = if fits_i128 x then returned x else failed requirement_overflow

-- `ok_or_else(|| RiskError::MissingMarkPrice(…))`
abbrev pub price_or_missing : ℕ → Option ℕ → Reply ℕ
price_or_missing market none = failed (missing_mark_price market)
price_or_missing market (some price) = returned price

abbrev pub or_zero : Option ℕ → ℕ
or_zero none = 0
or_zero (some n) = n
