-- ===== src/Risk/Portfolio/Total.antt =====
-- The sum of the portfolio margin of crates/risk/src/lib.rs is the floor of the exact sum.
use cerdic.Prelude.{ℕ, ◌+◌, ◌%◌, ◌*◌, ◌<◌, ◌≡◌, sym, ap, ◌∙◌, List, arith}
use cerdic.Prelude.Int.{ℤ, pos, negsuc, unsigned_abs, as_i128, wrap_i128, i128_end, ◌+ℤ◌}
use cerdic.Risk.Types.{
  returned, PositionState, Prices, PortfolioMarginParams, PortfolioMarginResult,
}
use cerdic.Risk.Portfolio.{
  floor_zero, margin_sum, scenario_margin, concentration_charge, liquidity_charge,
  correlation_adjustment, compute_portfolio_margin,
}
use cerdic.Risk.Portfolio.Scenarios.{bind_returned, returned_injective}

-- 2 ^ 125
abbrev pub quarter : ℕ
quarter = 42535295865117307932921825928971026432

as_i128_small : (n : ℕ) → n < i128_end → as_i128 n ≡ pos n
as_i128_small n h = ground arith

wrap_small : (x : ℤ) → unsigned_abs x < i128_end → wrap_i128 x ≡ x
wrap_small (pos n) h = let e : n % (2 * i128_end) ≡ n = omega arith in rw e (as_i128_small n h)
wrap_small (negsuc n) h = let e : n % (2 * i128_end) ≡ n = omega arith in rw e (ground arith)

plus_pos : (a b : ℕ) → pos a +ℤ pos b ≡ pos (a + b)
unfolding ◌+ℤ◌
plus_pos a b = ground arith

plus_small :
    (a : ℕ) (x : ℤ)
    → a < 3 * quarter
    → unsigned_abs x < quarter
    → unsigned_abs (pos a +ℤ x) < i128_end
unfolding ◌+ℤ◌
plus_small a (pos n) h k = ground arith
plus_small a (negsuc n) h k = ground arith

margin_sum_small :
    (s c l : ℕ) (k : ℤ)
    → s < quarter
    → c < quarter
    → l < quarter
    → unsigned_abs k < quarter
    → margin_sum s c l k ≡ pos (s + c + l) +ℤ k
margin_sum_small s c l k hs hc hl hk =
    let first : wrap_i128 (as_i128 s +ℤ as_i128 c) ≡ pos (s + c) =
      ap wrap_i128 (
        ap (λ (x : ℤ). x +ℤ as_i128 c) (as_i128_small s (omega arith))
        ∙ ap (λ (x : ℤ). pos s +ℤ x) (as_i128_small c (omega arith))
        ∙ plus_pos s c)
      ∙ wrap_small (pos (s + c)) (omega arith) in
    let second : wrap_i128 (wrap_i128 (as_i128 s +ℤ as_i128 c) +ℤ as_i128 l) ≡ pos (s + c + l) =
      ap wrap_i128 (
        ap (λ (x : ℤ). x +ℤ as_i128 l) first
        ∙ ap (λ (x : ℤ). pos (s + c) +ℤ x) (as_i128_small l (omega arith))
        ∙ plus_pos (s + c) l)
      ∙ wrap_small (pos (s + c + l)) (omega arith) in
    ap (λ (x : ℤ). wrap_i128 (x +ℤ k)) second
    ∙ wrap_small (pos (s + c + l) +ℤ k) (plus_small (s + c + l) k (omega arith) hk)

-- A portfolio margin that is returned has the four terms that the four calls return, and, where each of
-- them is below 2^125 in magnitude, its total is their exact sum, or 0 where that is negative.
pub compute_portfolio_margin-floor_zero :
    (positions : List PositionState) (prices : Prices) (params : PortfolioMarginParams)
    (r : PortfolioMarginResult)
    → compute_portfolio_margin positions prices params ≡ returned r
    → r.f_scenario < quarter
    → r.f_concentration < quarter
    → r.f_liquidity < quarter
    → unsigned_abs r.f_correlation < quarter
    → (scenario_margin positions prices params.scenarios ≡ returned r.f_scenario)
      × (concentration_charge positions prices params.asset_groups
            params.concentration_threshold_bps params.concentration_kappa_bps
          ≡ returned r.f_concentration)
      × (liquidity_charge positions prices params.liquidity_bps ≡ returned r.f_liquidity)
      × (correlation_adjustment positions prices params.correlations params.beta_bps
          ≡ returned r.f_correlation)
      × (r.total
          ≡ floor_zero (pos (r.f_scenario + r.f_concentration + r.f_liquidity) +ℤ r.f_correlation))
unfolding compute_portfolio_margin
compute_portfolio_margin-floor_zero positions prices params r h hs hc hl hk =
    let s = bind_returned (scenario_margin positions prices params.scenarios) _ r h in
    let c =
      bind_returned
        (concentration_charge positions prices params.asset_groups
          params.concentration_threshold_bps params.concentration_kappa_bps)
        _ r s.2 in
    let l = bind_returned (liquidity_charge positions prices params.liquidity_bps) _ r c.2 in
    let k =
      bind_returned (correlation_adjustment positions prices params.correlations params.beta_bps) _
        r l.2 in
    let e = returned_injective k.2 in
    (
      s.1 ∙ ap (λ (x : PortfolioMarginResult). returned x.f_scenario) e,
      c.1 ∙ ap (λ (x : PortfolioMarginResult). returned x.f_concentration) e,
      l.1 ∙ ap (λ (x : PortfolioMarginResult). returned x.f_liquidity) e,
      k.1 ∙ ap (λ (x : PortfolioMarginResult). returned x.f_correlation) e,
      sym (ap (λ (x : PortfolioMarginResult). x.total) e)
          ∙ ap
              (λ (x : PortfolioMarginResult).
                floor_zero
                  (margin_sum x.f_scenario x.f_concentration x.f_liquidity x.f_correlation))
              e
          ∙ ap floor_zero (
              margin_sum_small r.f_scenario r.f_concentration r.f_liquidity r.f_correlation hs hc hl
                hk),
    )
