-- ===== src/Risk/Portfolio/Correlation.antt =====
-- The terms of `correlation_adjustment` of crates/risk/src/lib.rs.
use native.Mathlib.Nat.{mul-le-mul, div-le_of_le-mul}
use cerdic.Prelude.{
  ℕ, ◌*◌, ◌/◌, ◌≤◌, ◌≡◌, sym, subst, ap, ◌∙◌, inl, inr, Bool, true, false, arith, min, ltb,
  Bool-cases, if◌then◌else◌,
}
use cerdic.Prelude.Int.{i128_end, ℤ, pos, unsigned_abs, ◌-ℤ◌, ◌≤ℤ◌}
use cerdic.Risk.Types.{
  returned, failed, panicked, bps_denominator, u256_end, requirement_overflow, mul_256, to_i128,
}
use cerdic.Risk.Portfolio.{nonnegative, same, pair_term}
use cerdic.Risk.Portfolio.Scenarios.{bind_returned, returned_injective}

mul_256_returned : (a b c : ℕ) → mul_256 a b ≡ returned c → c ≡ a * b
mul_256_returned a b c h = elim (Bool-cases (ltb (a * b) u256_end)) [
  | inl e ↦ sym (returned_injective (rw e at h))
  | inr e ↦ let k : panicked ≡ returned c = rw e at h in cc
]

to_i128_returned : (x : ℕ) (z : ℤ) → to_i128 x ≡ returned z → z ≡ pos x
to_i128_returned x z h = elim (Bool-cases (ltb x i128_end)) [
  | inl e ↦ sym (returned_injective (rw e at h))
  | inr e ↦ let k : failed requirement_overflow ≡ returned z = rw e at h in cc
]

scaled_le :
    (m r b : ℕ)
    → r ≤ bps_denominator
    → b ≤ bps_denominator
    → m * r * b / (bps_denominator * bps_denominator) ≤ m
scaled_le m r b hr hb =
    let first : m * r ≤ m * bps_denominator = mul-le-mul (omega arith) hr in
    let second : m * r * b ≤ m * bps_denominator * bps_denominator = mul-le-mul first hb in
    div-le_of_le-mul (bps_denominator * bps_denominator) (omega (arith, second))

sign_of :
    (c : Bool) (n m : ℕ)
    → n ≤ m
    → (unsigned_abs (if c then pos n else pos 0 -ℤ pos n) ≤ m)
      × (c ≡ true → pos 0 ≤ℤ (if c then pos n else pos 0 -ℤ pos n))
      × (c ≡ false → (if c then pos n else pos 0 -ℤ pos n) ≤ℤ pos 0)
unfolding ◌-ℤ◌
sign_of true n m h = (h, λ e. omega arith, λ e. cc)
sign_of false n m h = (ground arith, λ e. cc, λ e. ground arith)

-- The term of a pair that is returned, for a correlation and a scaling factor of at most 10000 basis
-- points, is in magnitude at most the smaller of the two exposures; it charges margin where the exposures'
-- directions agree and the correlation is not negative, or neither, and credits it otherwise.
pub pair_term_bounds :
    (e_a e_b rho_bps : ℤ) (beta_bps : ℕ) (term : ℤ)
    → pair_term e_a e_b rho_bps beta_bps ≡ returned term
    → unsigned_abs rho_bps ≤ bps_denominator
    → beta_bps ≤ bps_denominator
    → (unsigned_abs term ≤ min (unsigned_abs e_a) (unsigned_abs e_b))
      × (same (same (nonnegative e_a) (nonnegative e_b)) (nonnegative rho_bps) ≡ true
          → pos 0 ≤ℤ term)
      × (same (same (nonnegative e_a) (nonnegative e_b)) (nonnegative rho_bps) ≡ false
          → term ≤ℤ pos 0)
unfolding pair_term
pair_term_bounds e_a e_b rho_bps beta_bps term h hr hb =
    let m = min (unsigned_abs e_a) (unsigned_abs e_b) in
    let w = bind_returned (mul_256 m (unsigned_abs rho_bps)) _ term h in
    let s = bind_returned (mul_256 w.0 beta_bps) _ term w.2 in
    let t = bind_returned (to_i128 (s.0 / (bps_denominator * bps_denominator))) _ term s.2 in
    let e : s.0 ≡ m * unsigned_abs rho_bps * beta_bps =
      mul_256_returned w.0 beta_bps s.0 s.1
      ∙ ap (λ (x : ℕ). x * beta_bps) (mul_256_returned m (unsigned_abs rho_bps) w.0 w.1) in
    let small : s.0 / (bps_denominator * bps_denominator) ≤ m =
      subst (λ (x : ℕ). x / (bps_denominator * bps_denominator) ≤ m) (sym e)
        (scaled_le m (unsigned_abs rho_bps) beta_bps hr hb) in
    let charged = same (same (nonnegative e_a) (nonnegative e_b)) (nonnegative rho_bps) in
    let n = s.0 / (bps_denominator * bps_denominator) in
    let value : (if charged then pos n else pos 0 -ℤ pos n) ≡ term =
      ap (λ (x : ℤ). if charged then x else pos 0 -ℤ x) (sym (to_i128_returned n t.0 t.1))
      ∙ returned_injective t.2 in
    subst
      (λ (x : ℤ).
        (unsigned_abs x ≤ m) × (charged ≡ true → pos 0 ≤ℤ x) × (charged ≡ false → x ≤ℤ pos 0))
      value (sign_of charged n m small)
