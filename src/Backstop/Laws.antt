-- ===== src/Backstop/Laws.antt =====
-- What the quotes and fills of crates/risk/src/backstop_maker.rs keep within.
use native.Mathlib.Nat.{le-div_iff_mul-le, div-mul-le_self, le_of_mul-le-mul_right}
use cerdic.Prelude.{
  ℕ, ◌+◌, ◌*◌, ◌/◌, ◌≤◌, ◌<◌, ◌≡◌, refl, ap, inl, inr, List, [], ◌∷◌, All, length, sum, ltb,
  Bool-cases, arith,
}
use cerdic.Prelude.Int.{ℤ}
use cerdic.Backstop.{
  Answer, returned, failed, panicked, ◌>>=◌, u128_end, narrow, mean, fair_value, trailing_mean,
  BackstopMakerConfig, Quote, quote_around, compute_quote, effective_spread_bps, bps_per_unit, buy,
  sell, TakerSide, abs_diff,
}

-- A print within bounds.
abbrev pub Between : ℕ → ℕ → ℕ → Type 0
Between lo hi p = (lo ≤ p) × (p ≤ hi)

sum-Between :
    (lo hi : ℕ) (ps : List ℕ)
    → All (Between lo hi) ps
    → (lo * length ps ≤ sum ps) × (sum ps ≤ hi * length ps)
sum-Between lo hi [] h = (omega arith, omega arith)
sum-Between lo hi (p ∷ ps) h =
    let (l, u) = sum-Between lo hi ps h.1 in (omega (arith, h.0.0), omega (arith, h.0.1))

narrow_lem : (x : ℕ) → x < u128_end → narrow x ≡ returned x
narrow_lem x h = ground arith

narrow_returned : (x y : ℕ) → narrow x ≡ returned y → (x ≡ y) × (y < u128_end)
narrow_returned x y e = elim (Bool-cases (ltb x u128_end)) [
  | inl h ↦ (ground arith, ground arith)
  | inr h ↦ absurd (ground arith)
]

-- The mean of a history with a print, all of them between two bounds that fit 128 bits, is returned
-- and is between the bounds.
pub mean-Between :
    (lo hi p : ℕ) (ps : List ℕ)
    → All (Between lo hi) (p ∷ ps)
    → hi < u128_end
    → (m : ℕ) × (mean (p ∷ ps) ≡ returned m) × Between lo hi m
unfolding mean
mean-Between lo hi p ps h fits =
    let n = length (p ∷ ps) in
    let (l, u) = sum-Between lo hi (p ∷ ps) h in
    let some_print : 0 < n = omega arith in
    let above : lo ≤ sum (p ∷ ps) / n = (le-div_iff_mul-le some_print).1 l in
    let whole : sum (p ∷ ps) / n * n ≤ hi * n =
      omega (arith, div-mul-le_self (sum (p ∷ ps)) n, u) in
    let below : sum (p ∷ ps) / n ≤ hi = le_of_mul-le-mul_right whole some_print in
    (sum (p ∷ ps) / n, narrow_lem _ (omega arith), (above, below))

bind_returned :
    {A B : Type 0} (r : Answer A) (f : A → Answer B) (y : B)
    → (r >>= f) ≡ returned y
    → (x : A) × (r ≡ returned x) × (f x ≡ returned y)
bind_returned (returned a) f y e = (a, refl, e)
bind_returned (failed x) f y e = cc
bind_returned panicked f y e = cc

mean_returned : (ps : List ℕ) (m : ℕ) → mean ps ≡ returned m → m < u128_end
unfolding mean
mean_returned [] m e = cc
mean_returned (p ∷ ps) m e = (narrow_returned _ m e).1

fair_value_returned :
    (history : List ℕ) (cfg : BackstopMakerConfig) (m : ℕ)
    → fair_value history cfg ≡ returned m
    → m < u128_end
unfolding fair_value trailing_mean
fair_value_returned history cfg m e = mean_returned _ m e

-- A quote that is returned stands around the fair value: its bid is not above it, its ask not below.
pub compute_quote-fair_value :
    (history : List ℕ) (cfg : BackstopMakerConfig) (inventory : ℤ) (quote : Quote)
    → compute_quote history cfg inventory ≡ returned quote
    → (c : ℕ) × (fair_value history cfg ≡ returned c) × (quote.bid ≤ c) × (c ≤ quote.ask)
unfolding compute_quote
compute_quote-fair_value history cfg inventory quote e =
    let (c, ec, e₁) = bind_returned (fair_value history cfg) _ quote e in
    let (s, es, e₂) = bind_returned (effective_spread_bps cfg inventory) _ quote e₁ in
    let (h, eh, e₃) = bind_returned (narrow (c * s / bps_per_unit)) _ quote e₂ in
    let fits = fair_value_returned history cfg c ec in
    let made : quote_around c h ≡ quote = ground arith in
    (
      c,
      ec,
      omega (arith, ap (λ (x : Quote). x.bid) made),
      omega (arith, ap (λ (x : Quote). x.ask) made),
    )

-- What a taker pays or gets against the fair value: a buyer no less, a seller no more.
abbrev pub AgainstTaker : TakerSide → ℕ → ℕ → Type 0
AgainstTaker buy fair price = fair ≤ price
AgainstTaker sell fair price = price ≤ fair

-- The live print is within the threshold of the reference: less than one basis point above it, which the
-- rounding forgives.
abbrev pub Near : ℕ → ℕ → ℕ → Type 0
Near live reference threshold = abs_diff live reference * bps_per_unit < (threshold + 1) * reference
