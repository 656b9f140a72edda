-- ===== src/Risk/Portfolio/Scenarios.antt =====
-- `scenario_margin` of crates/risk/src/lib.rs is the worst loss over the scenarios.
use cerdic.Prelude.{
  ℕ, ◌≡◌, refl, sym, subst, ap, ◌∙◌, inl, inr, ◌⊎◌, Bool-cases, List, [], ◌∷◌, All, arith,
}
use cerdic.Prelude.Int.{ℤ, pos, negsuc, ltb_ℤ, ◌≤ℤ◌}
use cerdic.Risk.Types.{Reply, returned, failed, panicked, ◌>>=◌, PositionState, Prices, Scenario}
use cerdic.Risk.Portfolio.{
  scenario_change, saturating_neg, max_i128, floor_zero, worst_loss_from, scenario_margin,
}

abbrev pub AnyOf : (Scenario → Type 0) → List Scenario → Type 0
AnyOf P [] = ⊥
AnyOf P (s ∷ ss) = P s ⊎ AnyOf P ss

pub Reply-cases :
    {A : Type 0} (r : Reply A) → ((a : A) × (r ≡ returned a)) ⊎ ((a : A) → (r ≡ returned a) → ⊥)
Reply-cases (returned a) = inl (a, refl)
Reply-cases (failed e) = inr (λ a h. cc)
Reply-cases panicked = inr (λ a h. cc)

pub returned_injective : {A : Type 0} {x y : A} → returned x ≡ returned y → x ≡ y
returned_injective e = cc

-- A bind that returns has a first part that returns.
pub bind_returned :
    {A B : Type 0} (r : Reply A) (f : A → Reply B) (b : B)
    → (r >>= f) ≡ returned b
    → (a : A) × (r ≡ returned a) × (f a ≡ returned b)
bind_returned (returned a) f b h = (a, refl, h)
bind_returned (failed e) f b h = cc
bind_returned panicked f b h = cc

module _ (prices : Prices) (positions : List PositionState) where
  -- The loss of a scenario is at most `w`, and is `w`.
  abbrev pub LossUpTo : ℤ → Scenario → Type 0
  LossUpTo w s =
      (change : ℤ) × (scenario_change prices s positions (pos 0) ≡ returned change)
      × (saturating_neg change ≤ℤ w)

  abbrev pub LossOf : ℤ → Scenario → Type 0
  LossOf w s =
      (change : ℤ) × (scenario_change prices s positions (pos 0) ≡ returned change)
      × (saturating_neg change ≡ w)

  max_left : (a b : ℤ) → a ≤ℤ max_i128 a b
  max_left a b = ground arith

  max_right : (a b : ℤ) → b ≤ℤ max_i128 a b
  max_right a b = ground arith

  max_of : (a b : ℤ) → (max_i128 a b ≡ a) ⊎ (max_i128 a b ≡ b)
  max_of a b = elim (Bool-cases (ltb_ℤ a b)) [ inl e ↦ inr (rw e refl) | inr e ↦ inl (rw e refl) ]

  le_trans : (a b c : ℤ) → a ≤ℤ b → b ≤ℤ c → a ≤ℤ c
  le_trans a b c h k = omega arith

  worst_loss_from-max :
      (ss : List Scenario) (start w : ℤ)
      → worst_loss_from prices positions ss start ≡ returned w
      → (start ≤ℤ w) × All (LossUpTo w) ss × ((w ≡ start) ⊎ AnyOf (LossOf w) ss)
  unfolding worst_loss_from
  worst_loss_from-max [] start w h =
      let e : start ≡ w = returned_injective h in
      (subst (λ (x : ℤ). start ≤ℤ x) e (omega arith), tt, inl (sym e))
  worst_loss_from-max (s ∷ ss) start w h =
      let r = bind_returned (scenario_change prices s positions (pos 0)) _ w h in
      let loss = saturating_neg r.0 in
      let rest = worst_loss_from-max ss (max_i128 start loss) w r.2 in
      (
        le_trans start (max_i128 start loss) w (max_left start loss) rest.0,
        ((r.0, r.1, le_trans loss (max_i128 start loss) w (max_right start loss) rest.0), rest.1),
        elim rest.2 [
          | inl e ↦ elim (max_of start loss) [
            | inl l ↦ inl (e ∙ l)
            | inr l ↦ inr (inl (r.0, r.1, sym (e ∙ l)))
          ]
          | inr m ↦ inr (inr m)
        ],
      )

pos_injective : {m n : ℕ} → pos m ≡ pos n → m ≡ n
pos_injective e = cc

floor_zero_of : (w : ℤ) → pos 0 ≤ℤ w → pos (floor_zero w) ≡ w
floor_zero_of (pos n) h = refl
floor_zero_of (negsuc n) h = absurd (omega arith)

-- A scenario margin that is returned is the worst loss: each scenario's change of value is returned too,
-- its loss is at most the margin, and the margin is 0 or the loss of one of them.
pub scenario_margin-AnyOf :
    (positions : List PositionState) (prices : Prices) (scenarios : List Scenario) (margin : ℕ)
    → scenario_margin positions prices scenarios ≡ returned margin
    → All (LossUpTo prices positions (pos margin)) scenarios
      × ((margin ≡ 0) ⊎ AnyOf (LossOf prices positions (pos margin)) scenarios)
unfolding scenario_margin
scenario_margin-AnyOf positions prices scenarios margin h =
    let r = bind_returned (worst_loss_from prices positions scenarios (pos 0)) _ margin h in
    let worst = worst_loss_from-max prices positions scenarios (pos 0) r.0 r.1 in
    let e : r.0 ≡ pos margin = sym (floor_zero_of r.0 worst.0) ∙ ap pos (returned_injective r.2) in
    (
      subst (λ (w : ℤ). All (LossUpTo prices positions w) scenarios) e worst.1,
      elim worst.2 [
        | inl z ↦ inl (pos_injective (sym e ∙ z))
        | inr m ↦ inr (subst (λ (w : ℤ). AnyOf (LossOf prices positions w) scenarios) e m)
      ],
    )
