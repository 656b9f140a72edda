-- ===== src/Common.antt =====
-- crates/common/src/types.rs: the side of a position or an order, and the collateral tiers.
use cerdic.Prelude.{ℕ, Bool, ltb, ◌≡◌, ◌≢◌, refl, ◌⊎◌, inl, inr, Bool-cases, ◌==◌, arith}
use cerdic.Prelude.Int.{ℤ, pos, negsuc}

pub data Side : Type 0 where
  long short : Side

-- `opposite_side` of crates/cerdic-tee-matcher/src/book.rs
abbrev pub opposite_side : Side → Side
opposite_side long = short
opposite_side short = long

unfoldable pub sign_multiplier : Side → ℤ
sign_multiplier long = pos 1
sign_multiplier short = negsuc 0

pub data CollateralTier : Type 0 where
  tier1 tier2 tier3 tier4 : CollateralTier

-- `self as u8`
unfoldable pub discriminant : CollateralTier → ℕ
discriminant tier1 = 1
discriminant tier2 = 2
discriminant tier3 = 3
discriminant tier4 = 4

unfoldable pub is_riskier_than : CollateralTier → CollateralTier → Bool
unfolding discriminant
is_riskier_than self other = ltb (discriminant other) (discriminant self)

-- Two pairs of a side and a price are the same one or not.
pub level_cases : (s s' : Side) (t t' : ℕ) → ((s ≡ s') × (t ≡ t')) ⊎ (s ≡ s' → t ≡ t' → ⊥)
level_cases long short t t' = inr (λ e f. cc)
level_cases short long t t' = inr (λ e f. cc)
level_cases long long t t' = elim (Bool-cases (t == t')) [
  | inl e ↦ inl (refl, ground arith)
  | inr e ↦ inr (λ p f. ground arith)
]
level_cases short short t t' = elim (Bool-cases (t == t')) [
  | inl e ↦ inl (refl, ground arith)
  | inr e ↦ inr (λ p f. ground arith)
]

pub side_cases : (s s' : Side) → (s ≡ s') ⊎ (s ≢ s')
side_cases long long = inl refl
side_cases long short = inr (λ e. cc)
side_cases short long = inr (λ e. cc)
side_cases short short = inl refl
