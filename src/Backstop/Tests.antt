-- ===== src/Backstop/Tests.antt =====
-- Concrete runs of crates/risk/src/backstop_maker.rs.
use cerdic.Prelude.{ℕ, ◌<◌, ◌≤◌, ◌≡◌, refl, List, [], ◌∷◌, arith}
use cerdic.Prelude.Int.{pos, negsuc, unsigned_abs, ◌+ℤ◌, i128_end}
use cerdic.Backstop.{
  returned, mean, fair_value, trailing_mean, BackstopMakerConfig, flat, Quote, compute_quote,
  effective_spread_bps, accepted, evaluate_fill, buy, sell,
}
use cerdic.Backstop.Laws.{Between, mean-Between, compute_quote-fair_value}
use cerdic.Backstop.Ledger.{PnlLedger, record_fill, breakeven_subsidy_needed}
use cerdic.Backstop.Ledger.Gain.{gain, delta}
use cerdic.Backstop.Ledger.Laws.{
  record_fill-gain, record_fill-record_fill, breakeven_subsidy_needed-record_fill,
}

abbrev prints : List ℕ
prints = 1000 ∷ 1010 ∷ []

abbrev config : BackstopMakerConfig
config = record {
  spread_bps = 10;
  spread_model = flat;
  quote_twap_window = 2;
  last_look_window = 2;
  last_look_threshold_bps = 100;
  notional_cap = 50;
}

abbrev quoted : Quote
quoted = record { bid = 1004; ask = 1006 }

quote_run : compute_quote prints config (pos 0) ≡ returned quoted
unfolding compute_quote fair_value trailing_mean mean effective_spread_bps
quote_run = refl

fill_run : evaluate_fill prints config buy 70 (pos 0) ≡ returned (accepted 1006 50)
unfolding evaluate_fill compute_quote fair_value trailing_mean mean effective_spread_bps
fill_run = refl

mean-Between_example : (m : ℕ) × (mean prints ≡ returned m) × Between 900 1100 m
mean-Between_example =
    mean-Between 900 1100 1000 (1010 ∷ [])
      ((omega arith, omega arith), ((omega arith, omega arith), tt)) (omega arith)

compute_quote-fair_value_example :
    (c : ℕ) × (fair_value prints config ≡ returned c) × (quoted.bid ≤ c) × (c ≤ quoted.ask)
compute_quote-fair_value_example = compute_quote-fair_value prints config (pos 0) quoted quote_run

-- A sale of 2 at 1000, marked at 990, in units of 10^18.
abbrev ledger : PnlLedger
ledger = record { cumulative = negsuc 29; inventory = pos 5 }

abbrev price : ℕ
price = 1000000000000000000000

abbrev marked : ℕ
marked = 990000000000000000000

gain_run : gain buy price marked 2 ≡ pos 20
gain_run = refl

cumulative_run : unsigned_abs (ledger.cumulative +ℤ gain buy price marked 2) < i128_end
unfolding ◌+ℤ◌
cumulative_run = omega arith

inventory_run : unsigned_abs (ledger.inventory +ℤ delta buy 2) < i128_end
unfolding ◌+ℤ◌
inventory_run = omega arith

record_fill-gain_example : record_fill ledger buy price marked 2 ≡ record {
  cumulative = ledger.cumulative +ℤ gain buy price marked 2;
  inventory = ledger.inventory +ℤ delta buy 2;
}
record_fill-gain_example =
    record_fill-gain ledger buy price marked 2 (omega arith) (omega arith) (omega arith)
      (omega arith) cumulative_run inventory_run

record_fill-record_fill_example :
    record_fill (record_fill ledger buy price marked 2) sell price marked 2 ≡ ledger
record_fill-record_fill_example =
    record_fill-record_fill ledger price marked 2 (omega arith) (omega arith) (omega arith)
      (omega arith) cumulative_run inventory_run (omega arith) (omega arith)

breakeven_subsidy_needed-record_fill_example :
    breakeven_subsidy_needed (record_fill ledger buy price marked 2)
    ≤ breakeven_subsidy_needed ledger
breakeven_subsidy_needed-record_fill_example =
    breakeven_subsidy_needed-record_fill ledger buy price marked 2 (omega arith) (omega arith)
      (omega arith) (omega arith) (omega arith) (omega arith)
