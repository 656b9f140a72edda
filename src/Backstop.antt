-- ===== src/Backstop.antt =====
-- crates/risk/src/backstop_maker.rs: the quotes of the backstop maker and its last look. Its 256-bit
-- intermediates are products of two 128-bit numbers and sums of a history's prints, which fit, and are
-- natural numbers here. A division by zero, a panic in the source, is the outcome `panicked`.
pub mod Laws
pub mod Ledger
mod Tests
use cerdic.Prelude.{
  ℕ, zero, suc, ◌+◌, ◌-◌, ◌*◌, ◌/◌, ◌%◌, ◌^◌, min, Option, none, some, List, [], ◌∷◌, length, sum,
  ltb, ◌==◌, if◌then◌else◌,
}
use cerdic.Prelude.Int.{ℤ, unsigned_abs}

pub data BackstopMakerError : Type 0 where
  empty_history overflow : BackstopMakerError

pub data Answer (A : Type 0) : Type 0 where
  returned : A → Answer A
  failed : BackstopMakerError → Answer A
  panicked : Answer A

infixl 5 ◌>>=◌
abbrev pub ◌>>=◌ : {A B : Type 0} → Answer A → (A → Answer B) → Answer B
returned a >>= f = f a
failed e >>= f = failed e
panicked >>= f = panicked

pub data TakerSide : Type 0 where
  buy sell : TakerSide

pub data SpreadModel : Type 0 where
  flat : SpreadModel
  dynamic : (max_spread_bps widen_per_unit_utilization_bps inventory_reference : ℕ) → SpreadModel

pub record BackstopMakerConfig : Type 0 where
  pub spread_bps : ℕ
  pub spread_model : SpreadModel
  pub quote_twap_window : ℕ
  pub last_look_window : ℕ
  pub last_look_threshold_bps : ℕ
  pub notional_cap : ℕ

pub record Quote : Type 0 where
  pub bid : ℕ
  pub ask : ℕ

pub data FillDecision : Type 0 where
  accepted : (price size : ℕ) → FillDecision
  rejected_stale_price : FillDecision

abbrev pub bps_per_unit : ℕ
bps_per_unit = 10000

abbrev pub u128_end : ℕ
u128_end = 2 ^ 128

-- `u128::try_from`
abbrev pub narrow : ℕ → Answer ℕ
narrow x = if ltb x u128_end then returned x else failed overflow

-- `u128::abs_diff`
abbrev pub abs_diff : ℕ → ℕ → ℕ
abs_diff a b = (a - b) + (b - a)

unfoldable pub widened : ℕ → ℤ → ℕ → ℕ → ℕ → Answer ℕ
widened spread_bps inventory max_spread_bps widen inventory_reference =
    if inventory_reference == 0 then returned max_spread_bps else (do
      utilization ← narrow (unsigned_abs inventory * bps_per_unit / inventory_reference)
      extra ← narrow (widen * min utilization bps_per_unit / bps_per_unit)
      returned (min ((spread_bps + extra) % u128_end) max_spread_bps))

unfoldable pub effective_spread_bps : BackstopMakerConfig → ℤ → Answer ℕ
effective_spread_bps cfg inventory = elim cfg.spread_model [
  | flat ↦ returned cfg.spread_bps
  | dynamic max_spread_bps widen reference ↦
      widened cfg.spread_bps inventory max_spread_bps widen reference
]

unfoldable pub mean : List ℕ → Answer ℕ
mean [] = failed empty_history
mean (p ∷ ps) = narrow (sum (p ∷ ps) / length (p ∷ ps))

-- `&history[start..]`
abbrev pub history_from : ℕ → List ℕ → List ℕ
history_from zero history = history
history_from (suc n) [] = []
history_from (suc n) (p ∷ history) = history_from n history

unfoldable pub trailing_mean : List ℕ → ℕ → Answer ℕ
trailing_mean history window = mean (history_from (length history - window) history)

unfoldable pub fair_value : List ℕ → BackstopMakerConfig → Answer ℕ
fair_value history cfg = trailing_mean history cfg.quote_twap_window

-- The two saturating ends of a quote.
abbrev pub quote_around : ℕ → ℕ → Quote
quote_around center half_spread = record {
  bid = center - half_spread;
  ask = min (center + half_spread) (u128_end - 1);
}

unfoldable pub compute_quote : List ℕ → BackstopMakerConfig → ℤ → Answer Quote
compute_quote history cfg inventory = do
  center ← fair_value history cfg
  spread_bps ← effective_spread_bps cfg inventory
  half_spread ← narrow (center * spread_bps / bps_per_unit)
  returned (quote_around center half_spread)

-- `history.last()`
abbrev pub last_print : List ℕ → Answer ℕ
last_print [] = failed empty_history
last_print (p ∷ []) = returned p
last_print (p ∷ q ∷ history) = last_print (q ∷ history)

abbrev pub price_for : TakerSide → Quote → ℕ
price_for buy quote = quote.ask
price_for sell quote = quote.bid

-- `U256` division, which panics at 0.
abbrev pub deviation_of : ℕ → ℕ → Answer ℕ
deviation_of deviation reference =
    if reference == 0 then panicked else narrow (deviation * bps_per_unit / reference)

unfoldable pub evaluate_fill :
    List ℕ → BackstopMakerConfig → TakerSide → ℕ → ℤ → Answer FillDecision
evaluate_fill history cfg side requested_size inventory = do
  quote ← compute_quote history cfg inventory
  live_print ← last_print history
  reference ← trailing_mean history cfg.last_look_window
  deviation_bps ← deviation_of (abs_diff live_print reference) reference
  if ltb cfg.last_look_threshold_bps deviation_bps
      then returned rejected_stale_price
      else returned (accepted (price_for side quote) (min requested_size cfg.notional_cap))
