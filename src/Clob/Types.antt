-- ===== src/Clob/Types.antt =====
-- The data of crates/clob/src/lib.rs: orders, trades, match results and errors. Prices are unsigned
-- 256-bit numbers that the book only compares, sizes are signed 128-bit numbers.
use cerdic.Prelude.{
  ℕ, zero, suc, Bool, true, false, not, Option, none, some, List, ltb, ◌==◌, if◌then◌else◌,
}
pub use cerdic.Prelude.{Outcome, ok, panicked, out_of_fuel, ◌>>=◌}
use cerdic.Prelude.Int.{ℤ, pos, negsuc, unsigned_abs}
pub use cerdic.Prelude.Int.{i128_end, as_i128}
use cerdic.Common.{Side, long, short}

pub record Order : Type 0 where
  pub id : ℕ
  pub side : Side
  pub price : ℕ
  pub size : ℤ
  pub expiry_block : ℕ
  pub signature : List ℕ

abbrev pub quantity : Order → ℕ
quantity o = unsigned_abs o.size

-- `size != 0 && size.signum() == side.sign_multiplier()`
abbrev pub side_agrees_with_size : Side → ℤ → Bool
side_agrees_with_size long (pos n) = not (n == 0)
side_agrees_with_size long (negsuc n) = false
side_agrees_with_size short (pos n) = false
side_agrees_with_size short (negsuc n) = true

pub data ClobError : Type 0 where
  order_not_found : ℕ → ClobError
  zero_size zero_price : ClobError
  side_size_sign_mismatch : (id : ℕ) (side : Side) (size : ℤ) → ClobError

-- `Result<A, ClobError>`
pub data Answer (A : Type 0) : Type 0 where
  done : A → Answer A
  failed : ClobError → Answer A

-- `Order::validate`; `none` is `Ok(())`.
abbrev pub validate : Order → Option ClobError
validate o =
    if unsigned_abs o.size == 0
    then some zero_size
    else if o.price == 0
    then some zero_price
    else if side_agrees_with_size o.side o.size
    then none
    else some (side_size_sign_mismatch o.id o.side o.size)

-- `magnitude * side.sign_multiplier()`
abbrev pub signed : Side → ℕ → ℤ
signed long magnitude = pos magnitude
signed short zero = pos 0
signed short (suc n) = negsuc n

unfoldable pub set_quantity : Order → ℕ → Outcome Order
set_quantity o quantity =
    if ltb quantity i128_end then ok (record o { size = signed o.side quantity }) else panicked

pub record MatchedTrade : Type 0 where
  pub long_order_id : ℕ
  pub short_order_id : ℕ
  pub price : ℕ
  pub size : ℤ
  pub premium : ℕ

pub record MatchResult : Type 0 where
  pub trade : MatchedTrade
  pub maker_order_id : ℕ
  pub maker_remaining : ℤ
  pub taker_remaining : ℤ
