-- ===== src/Backstop/Ledger/Gain.antt =====
-- The profit of one fill of `PnlLedger`, crates/risk/src/backstop_maker.rs, as its casts and its saturating
-- product compute it and as it is meant.
use native.Mathlib.Nat.{zero-mul, mul-zero}
use cerdic.Prelude.{
  ℕ, zero, suc, ◌+◌, ◌-◌, ◌*◌, ◌/◌, ◌<◌, ◌≤◌, ◌≡◌, refl, sym, subst, ap, ◌∙◌, inl, inr, Bool-cases,
  arith, leb, if◌then◌else◌,
}
use cerdic.Prelude.Int.{
  ℤ, pos, negsuc, sub_ℕ, unsigned_abs, ◌-ℤ◌, ◌*ℤ◌, i128_end, as_i128, wrap_i128,
}
use cerdic.Backstop.{TakerSide, buy, sell, abs_diff}
use cerdic.Backstop.Ledger.{ledger_scale, saturated, minus, div_to_zero, maker_signed, trade_pnl}

-- What the maker gains, rounded to 0: it sold to a buyer, so it gains as the mark falls.
abbrev pub gain : TakerSide → ℕ → ℕ → ℕ → ℤ
gain buy fill mark size =
    if leb mark fill
    then pos ((fill - mark) * size / ledger_scale)
    else minus ((mark - fill) * size / ledger_scale)
gain sell fill mark size =
    if leb fill mark
    then pos ((mark - fill) * size / ledger_scale)
    else minus ((fill - mark) * size / ledger_scale)

abbrev pub delta : TakerSide → ℕ → ℤ
delta buy size = minus size
delta sell size = pos size

minus_abs : (n : ℕ) → unsigned_abs (minus n) ≡ n
minus_abs zero = refl
minus_abs (suc n) = refl

pub saturated_in : (x : ℤ) → unsigned_abs x < i128_end → saturated x ≡ x
unfolding saturated
saturated_in (pos n) h = ground arith
saturated_in (negsuc n) h = ground arith

mul_pos : (a b : ℕ) → pos a *ℤ pos b ≡ pos (a * b)
unfolding ◌*ℤ◌
mul_pos a b = ground (arith, zero-mul b, mul-zero a, zero-mul 0)

sub_ℕ-minus : (x y n : ℕ) → x ≡ 0 → y ≡ n → sub_ℕ x y ≡ minus n
sub_ℕ-minus x y zero e f = ground arith
sub_ℕ-minus x y (suc n) e f = ground arith

mul_minus : (a b : ℕ) → minus a *ℤ pos b ≡ minus (a * b)
unfolding ◌*ℤ◌
mul_minus zero b = mul_pos 0 b ∙ ap pos (zero-mul b) ∙ ap minus (sym (zero-mul b))
mul_minus (suc a) b =
    sub_ℕ-minus (0 * b + suc a * 0) (0 * 0 + suc a * b) (suc a * b)
      (omega (arith, zero-mul b, mul-zero (suc a))) (omega arith)

pub minus_of : (n : ℕ) → n < i128_end → wrap_i128 (pos 0 -ℤ pos n) ≡ minus n
unfolding ◌-ℤ◌
minus_of zero h = refl
minus_of (suc n) h = ground arith

minus-minus : (n : ℕ) → n < i128_end → wrap_i128 (pos 0 -ℤ minus n) ≡ pos n
unfolding ◌-ℤ◌
minus-minus zero h = refl
minus-minus (suc n) h = ground arith

div_minus : (n : ℕ) → div_to_zero (minus n) ledger_scale ≡ minus (n / ledger_scale)
unfolding div_to_zero
div_minus zero = refl
div_minus (suc n) = refl

price_diff_up :
    (f m : ℕ)
    → f < i128_end
    → m < i128_end
    → f ≤ m
    → wrap_i128 (as_i128 m -ℤ as_i128 f) ≡ pos (m - f)
unfolding ◌-ℤ◌
price_diff_up f m hf hm h = ground arith

price_diff_down :
    (f m : ℕ)
    → f < i128_end
    → m < i128_end
    → m ≤ f
    → wrap_i128 (as_i128 m -ℤ as_i128 f) ≡ minus (f - m)
unfolding ◌-ℤ◌
price_diff_down f m hf hm h = ground arith

pub as_i128_small : (n : ℕ) → n < i128_end → as_i128 n ≡ pos n
as_i128_small n h = ground arith

-- The rounded product of a price difference and a size.
pnl_pos :
    (d size : ℕ)
    → d * size < i128_end
    → size < i128_end
    → div_to_zero (saturated (pos d *ℤ as_i128 size)) ledger_scale ≡ pos (d * size / ledger_scale)
unfolding div_to_zero
pnl_pos d size h hs =
    ap (λ (x : ℤ). div_to_zero (saturated x) ledger_scale)
      (ap (λ (x : ℤ). pos d *ℤ x) (as_i128_small size hs) ∙ mul_pos d size)
    ∙ ap (λ (x : ℤ). div_to_zero x ledger_scale) (saturated_in (pos (d * size)) h)

pnl_minus :
    (d size : ℕ)
    → d * size < i128_end
    → size < i128_end
    → div_to_zero (saturated (minus d *ℤ as_i128 size)) ledger_scale
      ≡ minus (d * size / ledger_scale)
pnl_minus d size h hs =
    ap (λ (x : ℤ). div_to_zero (saturated x) ledger_scale)
      (ap (λ (x : ℤ). minus d *ℤ x) (as_i128_small size hs) ∙ mul_minus d size)
    ∙ ap (λ (x : ℤ). div_to_zero x ledger_scale)
        (saturated_in (minus (d * size))
          (subst (λ (k : ℕ). k < i128_end) (sym (minus_abs (d * size))) h))
    ∙ div_minus (d * size)

pnl_of :
    (x : ℤ) (side : TakerSide) (d f m size : ℕ)
    → wrap_i128 (as_i128 m -ℤ as_i128 f) ≡ x
    → maker_signed side x ≡ pos d
    → d * size < i128_end
    → size < i128_end
    → trade_pnl side f m size ≡ pos (d * size / ledger_scale)
unfolding trade_pnl
pnl_of x side d f m size e k h hs =
    ap (λ (y : ℤ). div_to_zero (saturated (maker_signed side y *ℤ as_i128 size)) ledger_scale) e
    ∙ ap (λ (y : ℤ). div_to_zero (saturated (y *ℤ as_i128 size)) ledger_scale) k
    ∙ pnl_pos d size h hs

loss_of :
    (x : ℤ) (side : TakerSide) (d f m size : ℕ)
    → wrap_i128 (as_i128 m -ℤ as_i128 f) ≡ x
    → maker_signed side x ≡ minus d
    → d * size < i128_end
    → size < i128_end
    → trade_pnl side f m size ≡ minus (d * size / ledger_scale)
unfolding trade_pnl
loss_of x side d f m size e k h hs =
    ap (λ (y : ℤ). div_to_zero (saturated (maker_signed side y *ℤ as_i128 size)) ledger_scale) e
    ∙ ap (λ (y : ℤ). div_to_zero (saturated (y *ℤ as_i128 size)) ledger_scale) k
    ∙ pnl_minus d size h hs

module _ (f m size : ℕ) (hf : f < i128_end) (hm : m < i128_end) (hs : size < i128_end)
    (h : abs_diff f m * size < i128_end) where
  up_fits : f ≤ m → (m - f) * size < i128_end
  up_fits le = subst (λ (d : ℕ). d * size < i128_end) (omega arith) h

  down_fits : m ≤ f → (f - m) * size < i128_end
  down_fits le = subst (λ (d : ℕ). d * size < i128_end) (omega arith) h

  pub trade_pnl-gain : (side : TakerSide) → trade_pnl side f m size ≡ gain side f m size
  trade_pnl-gain buy = elim (Bool-cases (leb m f)) [
    | inl e ↦
        let le : m ≤ f = ground arith in
        rw e (
          pnl_of (minus (f - m)) buy (f - m) f m size (price_diff_down f m hf hm le)
            (minus-minus (f - m) (omega arith)) (down_fits le) hs)
    | inr e ↦
        let le : f ≤ m = ground arith in
        rw e (
          loss_of (pos (m - f)) buy (m - f) f m size (price_diff_up f m hf hm le)
            (minus_of (m - f) (omega arith)) (up_fits le) hs)
  ]
  trade_pnl-gain sell = elim (Bool-cases (leb f m)) [
    | inl e ↦
        let le : f ≤ m = ground arith in
        rw e (
          pnl_of (pos (m - f)) sell (m - f) f m size (price_diff_up f m hf hm le) refl (up_fits le)
            hs)
    | inr e ↦
        let le : m ≤ f = ground arith in
        rw e (
          loss_of (minus (f - m)) sell (f - m) f m size (price_diff_down f m hf hm le) refl
            (down_fits le) hs)
  ]
