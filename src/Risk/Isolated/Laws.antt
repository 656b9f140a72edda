-- ===== src/Risk/Isolated/Laws.antt =====
-- The isolated margin of crates/risk/src/lib.rs against the sum that it stands for, and the two tests
-- against each other.
use native.Mathlib.Nat.{zero-mul}
use cerdic.Prelude.{
  append_nil, ℕ, ◌+◌, ◌-◌, ◌*◌, ◌/◌, ◌≤◌, ◌<◌, ◌≡◌, ◌≢◌, ◌↔◌, refl, sym, ap, ◌∙◌, inl, inr, Bool,
  true, false, Bool-cases, Option, none, some, List, [], ◌∷◌, ◌++◌, All, arith, ltb, leb, lt→ltb,
  ◌==◌, if◌then◌else◌, eq_of_test, ne_of_test,
}
use cerdic.Prelude.Int.{unsigned_abs}
use cerdic.Risk.Types.{
  returned, failed, ◌>>=◌, mmr_bps, bps_denominator, scale, u256_end, PositionState, Prices,
  AccountState, MarginResult, add_256, mul_256, to_u128, or_zero, missing_mark_price,
}
use cerdic.Risk.Isolated.{
  position_term, requirement_from, current_margin_requirement, compute_margin, is_withdraw_safe,
}

-- The maintenance margin of a position, and of all.
abbrev pub margin_of : Prices → PositionState → ℕ
margin_of prices p =
    unsigned_abs p.size * or_zero (prices p.market_id) * mmr_bps / (scale * bps_denominator)

abbrev pub margins_of : Prices → List PositionState → ℕ
margins_of prices [] = 0
margins_of prices (p ∷ ps) = margin_of prices p + margins_of prices ps

-- An open position has a price, and its product fits 256 bits.
abbrev pub Priced : Prices → PositionState → Type 0
Priced prices p =
    unsigned_abs p.size ≢ 0
    → (price : ℕ) × (prices p.market_id ≡ some price)
      × (unsigned_abs p.size * price * mmr_bps < u256_end)

mul_256-returned : (a b : ℕ) → a * b < u256_end → mul_256 a b ≡ returned (a * b)
mul_256-returned a b h = rw (lt→ltb (a * b) u256_end h) refl

add_256-returned : (a b : ℕ) → a + b < u256_end → add_256 a b ≡ returned (a + b)
add_256-returned a b h = rw (lt→ltb (a + b) u256_end h) refl

position_term-returned :
    (n price : ℕ)
    → n * price * mmr_bps < u256_end
    → position_term n price ≡ returned (n * price * mmr_bps / (scale * bps_denominator))
unfolding position_term
position_term-returned n price h =
    rw (mul_256-returned n price (omega arith), mul_256-returned (n * price) mmr_bps h) refl

zero_margin :
    (prices : Prices) (p : PositionState) → unsigned_abs p.size ≡ 0 → margin_of prices p ≡ 0
zero_margin prices p z =
    ap (λ (n : ℕ). n * or_zero (prices p.market_id) * mmr_bps / (scale * bps_denominator)) z
    ∙ ap (λ (n : ℕ). n * mmr_bps / (scale * bps_denominator))
        (zero-mul (or_zero (prices p.market_id)))

-- One step of the loop, for a position that is open.
requirement_from-open :
    (prices : Prices) (p : PositionState) (ps : List PositionState) (req price : ℕ)
    → (unsigned_abs p.size == 0) ≡ false
    → prices p.market_id ≡ some price
    → unsigned_abs p.size * price * mmr_bps < u256_end
    → req + unsigned_abs p.size * price * mmr_bps / (scale * bps_denominator) < u256_end
    → requirement_from prices (p ∷ ps) req
      ≡ requirement_from prices ps
          (req + unsigned_abs p.size * price * mmr_bps / (scale * bps_denominator))
unfolding requirement_from
requirement_from-open prices p ps req price z e fits sum =
    rw
      (
        z,
        e,
        position_term-returned (unsigned_abs p.size) price fits,
        add_256-returned req (unsigned_abs p.size * price * mmr_bps / (scale * bps_denominator))
            sum,
      )
      refl

requirement_from-closed :
    (prices : Prices) (p : PositionState) (ps : List PositionState) (req : ℕ)
    → (unsigned_abs p.size == 0) ≡ true
    → requirement_from prices (p ∷ ps) req ≡ requirement_from prices ps req
unfolding requirement_from
requirement_from-closed prices p ps req z = rw z refl

-- The loop passes over positions that have their prices.
requirement_from-append :
    (prices : Prices) (ps rest : List PositionState) (req : ℕ)
    → All (Priced prices) ps
    → req + margins_of prices ps < u256_end
    → requirement_from prices (ps ++ rest) req
      ≡ requirement_from prices rest (req + margins_of prices ps)
requirement_from-append prices [] rest req h small = ap (requirement_from prices rest) (omega arith)
requirement_from-append prices (p ∷ ps) rest req h small =
    elim (Bool-cases (unsigned_abs p.size == 0)) [
      | inl z ↦
          let none_of = zero_margin prices p (eq_of_test (unsigned_abs p.size) 0 z) in
          requirement_from-closed prices p (ps ++ rest) req z
          ∙ requirement_from-append prices ps rest req h.1 (omega arith)
          ∙ ap (requirement_from prices rest) (omega arith)
      | inr z ↦
          let priced = h.0 (ne_of_test (unsigned_abs p.size) 0 z) in
          let m : margin_of prices p
              ≡ unsigned_abs p.size * priced.0 * mmr_bps / (scale * bps_denominator) =
            ap
              (λ (o : Option ℕ).
                unsigned_abs p.size * or_zero o * mmr_bps / (scale * bps_denominator))
              priced.1 in
          requirement_from-open prices p (ps ++ rest) req priced.0 z priced.1 priced.2 (omega arith)
          ∙ requirement_from-append prices ps rest _ h.1 (omega arith)
          ∙ ap (requirement_from prices rest) (omega arith)
    ]

-- Where every open position has a price and its product, and the sum, fit 256 bits, the requirement is
-- the sum of the maintenance margins, or the overflow error where that does not fit 128 bits.
pub current_margin_requirement-margins_of :
    (ps : List PositionState) (prices : Prices)
    → All (Priced prices) ps
    → margins_of prices ps < u256_end
    → current_margin_requirement ps prices ≡ to_u128 (margins_of prices ps)
unfolding current_margin_requirement requirement_from
current_margin_requirement-margins_of ps prices h small =
    ap (λ y. y >>= to_u128)
      (ap (λ x. requirement_from prices x 0) (sym (append_nil ps))
        ∙ requirement_from-append prices ps [] 0 h (omega arith))
    ∙ ap to_u128 (omega arith)

-- An open position without a price makes the whole call fail with the first such market, where those
-- before it have their prices and fit.
pub current_margin_requirement_missing :
    (ps rest : List PositionState) (p : PositionState) (prices : Prices)
    → All (Priced prices) ps
    → margins_of prices ps < u256_end
    → unsigned_abs p.size ≢ 0
    → prices p.market_id ≡ none
    → current_margin_requirement (ps ++ p ∷ rest) prices ≡ failed (missing_mark_price p.market_id)
unfolding current_margin_requirement requirement_from
current_margin_requirement_missing ps rest p prices h small held missing =
    let z : (unsigned_abs p.size == 0) ≡ false = ground arith in
    ap (λ y. y >>= to_u128) (requirement_from-append prices ps (p ∷ rest) 0 h (omega arith))
    ∙ rw (z, missing) refl

safe_iff :
    (c w m : ℕ)
    → ((if ltb c w then false else leb m (c - w)) ≡ true) ↔ ((w ≤ c) × (ltb (c - w) m ≡ false))
safe_iff c w m = (λ h. ground arith, λ h. ground arith)

-- Where the requirement is returned, both tests are too, and a withdrawal is safe just where it is no
-- more than the collateral and the account that it leaves is not under its maintenance margin.
pub is_withdraw_safe-compute_margin :
    (account : AccountState) (prices : Prices) (withdraw requirement : ℕ)
    → current_margin_requirement account.positions prices ≡ returned requirement
    → (safe : Bool) × (after : MarginResult) × (is_withdraw_safe account prices withdraw
        ≡ returned safe)
      × (compute_margin
            (record account { effective_collateral = account.effective_collateral - withdraw })
            prices
          ≡ returned after)
      × ((safe ≡ true)
          ↔ ((withdraw ≤ account.effective_collateral) × (after.maintenance_breached ≡ false)))
unfolding is_withdraw_safe compute_margin
is_withdraw_safe-compute_margin account prices withdraw requirement e =
    let c = account.effective_collateral in
    (
      (if ltb c withdraw then false else leb requirement (c - withdraw)),
      record {
        margin_requirement = requirement;
        effective_collateral = c - withdraw;
        maintenance_breached = ltb (c - withdraw) requirement;
      },
      rw e refl,
      rw e refl,
      safe_iff c withdraw requirement,
    )
