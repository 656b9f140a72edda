-- ===== src/Book/Types.antt =====
-- The data of crates/cerdic-tee-matcher/src/book.rs: orders, levels, fills and results. Order ids,
-- ticks, quantities, owners and timestamps are natural numbers; sums of quantities keep their
-- 64-bit wrap-around.
use cerdic.Prelude.{ℕ, ◌+◌, ◌-◌, ◌%◌, Bool, false, Option, none, List, [], leb, ◌==◌}
pub use cerdic.Prelude.{Outcome, ok, panicked, out_of_fuel, ◌>>=◌}
use cerdic.Common.{Side}

-- `u32::MAX`, the index that stands for no node.
abbrev pub nil : ℕ
nil = 4294967295

abbrev pub u64_mod : ℕ
u64_mod = 18446744073709551616

-- `+=` and `-=` on `u64`
abbrev pub add_u64 : ℕ → ℕ → ℕ
add_u64 a b = (a + b) % u64_mod

abbrev pub sub_u64 : ℕ → ℕ → ℕ
sub_u64 a b = (a + u64_mod - b) % u64_mod

pub data TimeInForce : Type 0 where
  good_til_cancel : TimeInForce
  good_til_time : ℕ → TimeInForce
  immediate_or_cancel fill_or_kill : TimeInForce

pub record NewOrder : Type 0 where
  pub side : Side
  pub tick : ℕ
  pub qty : ℕ
  pub owner : ℕ
  pub tif : TimeInForce
  pub post_only : Bool

pub record OrderNode : Type 0 where
  pub tick : ℕ
  pub qty : ℕ
  pub side : Side
  pub owner : ℕ
  pub expiry : Option ℕ
  pub prev : ℕ
  pub next : ℕ

pub record Level : Type 0 where
  pub head : ℕ
  pub tail : ℕ
  pub qty : ℕ

-- `Level::EMPTY`
abbrev pub empty_level : Level
empty_level = record { head = nil; tail = nil; qty = 0 }

-- `Level::is_empty`
abbrev pub is_empty : Level → Bool
is_empty l = l.head == nil

-- `expiry.is_some_and(|e| now >= e)`
abbrev pub is_expired : Option ℕ → ℕ → Bool
is_expired expiry now = elim expiry [ none ↦ false | Option.some e ↦ leb e now ]

pub record PriceLevel : Type 0 where
  pub tick : ℕ
  pub qty : ℕ
  pub cumulative : ℕ

pub record BookSnapshot : Type 0 where
  pub best_bid : Option ℕ
  pub best_ask : Option ℕ
  pub bids : List PriceLevel
  pub asks : List PriceLevel

pub record Fill : Type 0 where
  pub maker_id : ℕ
  pub maker_owner : ℕ
  pub tick : ℕ
  pub qty : ℕ
  pub maker_filled : Bool
  pub maker_size_before : ℕ
  pub taker_size_before : ℕ

pub record SubmitResult : Type 0 where
  pub fills : List Fill
  pub resting_id : Option ℕ
  pub resting_qty : ℕ
  pub expired : List ℕ
  pub self_trade_cancelled : List ℕ
  pub post_only_rejected : Bool
  pub fill_or_kill_failed : Bool

-- `SubmitResult::default()`
abbrev pub default_result : SubmitResult
default_result = record {
  fills = [];
  resting_id = none;
  resting_qty = 0;
  expired = [];
  self_trade_cancelled = [];
  post_only_rejected = false;
  fill_or_kill_failed = false;
}
