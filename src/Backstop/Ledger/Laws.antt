-- ===== src/Backstop/Ledger/Laws.antt =====
-- `PnlLedger` of crates/risk/src/backstop_maker.rs against exact profits and positions.
use native.Mathlib.Nat.{zero-mul}
use cerdic.Prelude.{
  ℕ, zero, suc, ◌-◌, ◌*◌, ◌/◌, ◌<◌, ◌≤◌, ◌≡◌, sym, subst, ap, ◌∙◌, inl, inr, true, Bool-cases,
  arith, leb,
}
use cerdic.Prelude.Int.{
  ℤ, pos, negsuc, unsigned_abs, ◌+ℤ◌, ◌-ℤ◌, ◌≤ℤ◌, i128_end, as_i128, wrap_i128,
}
use cerdic.Backstop.{TakerSide, buy, sell, abs_diff}
use cerdic.Backstop.Ledger.{
  ledger_scale, PnlLedger, saturated, minus, trade_pnl, record_fill, breakeven_subsidy_needed,
}
use cerdic.Backstop.Ledger.Gain.{gain, delta, saturated_in, minus_of, as_i128_small, trade_pnl-gain}

abs_delta :
    (side : TakerSide) (size : ℕ)
    → size < i128_end
    → elim side [ buy ↦ wrap_i128 (pos 0 -ℤ as_i128 size) | sell ↦ as_i128 size ] ≡ delta side size
abs_delta buy size h =
    ap (λ (x : ℤ). wrap_i128 (pos 0 -ℤ x)) (as_i128_small size h) ∙ minus_of size h
abs_delta sell size h = as_i128_small size h

same_ledger :
    (c c' i i' : ℤ)
    → c ≡ c'
    → i ≡ i'
    → ◌≡◌ {A = PnlLedger}
        (record { cumulative = c; inventory = i })
        (record { cumulative = c'; inventory = i' })
same_ledger c c' i i' e f = cc

-- With 128-bit prices, size and product in the positive `i128` range, and no saturation of the sums,
-- `record_fill` adds the maker's gain, rounded to 0, and takes the size off the position for a buyer and
-- adds it for a seller.
pub record_fill-gain :
    (ledger : PnlLedger) (side : TakerSide) (fill mark size : ℕ)
    → fill < i128_end
    → mark < i128_end
    → size < i128_end
    → abs_diff fill mark * size < i128_end
    → unsigned_abs (ledger.cumulative +ℤ gain side fill mark size) < i128_end
    → unsigned_abs (ledger.inventory +ℤ delta side size) < i128_end
    → record_fill ledger side fill mark size ≡ record {
      cumulative = ledger.cumulative +ℤ gain side fill mark size;
      inventory = ledger.inventory +ℤ delta side size;
    }
unfolding record_fill
record_fill-gain ledger side fill mark size hf hm hs h hc hi =
    let c : saturated (ledger.cumulative +ℤ trade_pnl side fill mark size)
        ≡ ledger.cumulative +ℤ gain side fill mark size =
      ap (λ (x : ℤ). saturated (ledger.cumulative +ℤ x))
        (trade_pnl-gain fill mark size hf hm hs h side)
      ∙ saturated_in (ledger.cumulative +ℤ gain side fill mark size) hc in
    let i : saturated (
          ledger.inventory
          +ℤ (elim side [ buy ↦ wrap_i128 (pos 0 -ℤ as_i128 size) | sell ↦ as_i128 size ]))
        ≡ ledger.inventory +ℤ delta side size =
      ap (λ (x : ℤ). saturated (ledger.inventory +ℤ x)) (abs_delta side size hs)
      ∙ saturated_in (ledger.inventory +ℤ delta side size) hi in
    same_ledger _ _ _ _ c i

plus_minus : (c : ℤ) (n : ℕ) → c +ℤ pos n +ℤ minus n ≡ c
unfolding ◌+ℤ◌
plus_minus c zero = ground arith
plus_minus c (suc n) = ground arith

minus_plus : (c : ℤ) (n : ℕ) → c +ℤ minus n +ℤ pos n ≡ c
unfolding ◌+ℤ◌
minus_plus c zero = ground arith
minus_plus c (suc n) = ground arith

no_gain : (d size : ℕ) → d ≡ 0 → d * size / ledger_scale ≡ 0
no_gain d size e =
    ap (λ (x : ℕ). x * size / ledger_scale) e ∙ ap (λ (x : ℕ). x / ledger_scale) (zero-mul size)

gain_cancel :
    (c : ℤ) (fill mark size : ℕ) → c +ℤ gain buy fill mark size +ℤ gain sell fill mark size ≡ c
gain_cancel c fill mark size = elim (Bool-cases (leb mark fill)) [
  | inl e ↦ elim (Bool-cases (leb fill mark)) [
    | inl e' ↦
        let up = no_gain (mark - fill) size (ground arith) in
        let down = no_gain (fill - mark) size (ground arith) in
        rw (e, e', up, down) (plus_minus c 0)
    | inr e' ↦ rw (e, e') (plus_minus c ((fill - mark) * size / ledger_scale))
  ]
  | inr e ↦
      let e' : leb fill mark ≡ true = ground arith in
      rw (e, e') (minus_plus c ((mark - fill) * size / ledger_scale))
]

-- Under the same conditions, a sale to a buyer and a purchase of the same size, price and mark leave the
-- ledger as it was.
pub record_fill-record_fill :
    (ledger : PnlLedger) (fill mark size : ℕ)
    → fill < i128_end
    → mark < i128_end
    → size < i128_end
    → abs_diff fill mark * size < i128_end
    → unsigned_abs (ledger.cumulative +ℤ gain buy fill mark size) < i128_end
    → unsigned_abs (ledger.inventory +ℤ delta buy size) < i128_end
    → unsigned_abs ledger.cumulative < i128_end
    → unsigned_abs ledger.inventory < i128_end
    → record_fill (record_fill ledger buy fill mark size) sell fill mark size ≡ ledger
record_fill-record_fill ledger fill mark size hf hm hs h hc hi hc₀ hi₀ =
    let after : PnlLedger = record {
      cumulative = ledger.cumulative +ℤ gain buy fill mark size;
      inventory = ledger.inventory +ℤ delta buy size;
    } in
    let c = gain_cancel ledger.cumulative fill mark size in
    let i = minus_plus ledger.inventory size in
    ap (λ (l : PnlLedger). record_fill l sell fill mark size)
      (record_fill-gain ledger buy fill mark size hf hm hs h hc hi)
    ∙ record_fill-gain after sell fill mark size hf hm hs h
        (subst (λ (x : ℤ). unsigned_abs x < i128_end) (sym c) hc₀)
        (subst (λ (x : ℤ). unsigned_abs x < i128_end) (sym i) hi₀)
    ∙ same_ledger _ _ _ _ c i

subsidy_le :
    (c g i i' : ℤ)
    → unsigned_abs c < i128_end
    → pos 0 ≤ℤ g
    → breakeven_subsidy_needed (record { cumulative = saturated (c +ℤ g); inventory = i })
      ≤ breakeven_subsidy_needed (record { cumulative = c; inventory = i' })
unfolding breakeven_subsidy_needed saturated ◌+ℤ◌
subsidy_le (pos a) (pos n) i i' h k = ground arith
subsidy_le (negsuc a) (pos n) i i' h k = ground arith
subsidy_le c (negsuc n) i i' h k = absurd (omega arith)

-- A fill that the mark then favours does not raise the subsidy, for 128-bit prices, size and product in
-- the positive `i128` range.
pub breakeven_subsidy_needed-record_fill :
    (ledger : PnlLedger) (side : TakerSide) (fill mark size : ℕ)
    → fill < i128_end
    → mark < i128_end
    → size < i128_end
    → abs_diff fill mark * size < i128_end
    → unsigned_abs ledger.cumulative < i128_end
    → pos 0 ≤ℤ gain side fill mark size
    → breakeven_subsidy_needed (record_fill ledger side fill mark size)
      ≤ breakeven_subsidy_needed ledger
unfolding record_fill
breakeven_subsidy_needed-record_fill ledger side fill mark size hf hm hs h hc favoured =
    subst
      (λ (x : ℤ).
        breakeven_subsidy_needed (record {
          cumulative = saturated (ledger.cumulative +ℤ x);
          inventory = (record_fill ledger side fill mark size).inventory;
        })
        ≤ breakeven_subsidy_needed ledger)
      (sym (trade_pnl-gain fill mark size hf hm hs h side))
      (subsidy_le ledger.cumulative (gain side fill mark size)
        (record_fill ledger side fill mark size).inventory ledger.inventory hc favoured)
