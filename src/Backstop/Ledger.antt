-- ===== src/Backstop/Ledger.antt =====
-- `PnlLedger` of crates/risk/src/backstop_maker.rs. Sums and products of `i128` saturate where the source
-- says so, and wrap elsewhere as in a release build.
pub mod Gain
pub mod Laws
use cerdic.Prelude.{ℕ, zero, suc, ◌-◌, ◌/◌, Bool, ltb, if◌then◌else◌}
use cerdic.Prelude.Int.{
  ℤ, pos, negsuc, sub_ℕ, unsigned_abs, ltb_ℤ, ◌+ℤ◌, ◌-ℤ◌, ◌*ℤ◌, i128_end, as_i128, wrap_i128,
}
use cerdic.Backstop.{TakerSide, buy, sell}

-- `SCALE`, 10 ^ 18
abbrev pub ledger_scale : ℕ
ledger_scale = 1000000000000000000

pub record PnlLedger : Type 0 where
  pub cumulative : ℤ
  pub inventory : ℤ

-- The nearest `i128`, which the saturating operations give.
unfoldable pub saturated : ℤ → ℤ
saturated x =
    if ltb_ℤ (pos (i128_end - 1)) x
    then pos (i128_end - 1)
    else if ltb_ℤ x (negsuc (i128_end - 1))
    then negsuc (i128_end - 1)
    else x

-- -n
abbrev pub minus : ℕ → ℤ
minus zero = pos 0
minus (suc n) = negsuc n

-- `/` of an `i128`, which rounds to 0.
unfoldable pub div_to_zero : ℤ → ℕ → ℤ
div_to_zero (pos n) k = pos (n / k)
div_to_zero (negsuc n) k = minus (suc n / k)

-- `signed_diff` and `inventory_delta`
abbrev pub maker_signed : TakerSide → ℤ → ℤ
maker_signed buy x = wrap_i128 (pos 0 -ℤ x)
maker_signed sell x = x

unfoldable pub trade_pnl : TakerSide → ℕ → ℕ → ℕ → ℤ
trade_pnl side fill_price mark_price size =
    let price_diff = wrap_i128 (as_i128 mark_price -ℤ as_i128 fill_price) in
    div_to_zero (saturated (maker_signed side price_diff *ℤ as_i128 size)) ledger_scale

unfoldable pub record_fill : PnlLedger → TakerSide → ℕ → ℕ → ℕ → PnlLedger
record_fill ledger side fill_price mark_price size = record {
  cumulative = saturated (ledger.cumulative +ℤ trade_pnl side fill_price mark_price size);
  inventory = saturated (
      ledger.inventory
      +ℤ (elim side [ buy ↦ wrap_i128 (pos 0 -ℤ as_i128 size) | sell ↦ as_i128 size ]));
}

unfoldable pub breakeven_subsidy_needed : PnlLedger → ℕ
breakeven_subsidy_needed ledger =
    if ltb_ℤ ledger.cumulative (pos 0) then unsigned_abs ledger.cumulative else 0
