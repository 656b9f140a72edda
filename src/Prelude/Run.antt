-- ===== src/Prelude/Run.antt =====
-- How a run of code that can panic ends: with a value, by a panic, or, for a loop, short of the fuel
-- that it was given.
pub data Outcome (A : Type 0) : Type 0 where
  ok : A → Outcome A
  panicked out_of_fuel : Outcome A

infixl 5 ◌>>=◌
abbrev pub ◌>>=◌ : {A B : Type 0} → Outcome A → (A → Outcome B) → Outcome B
ok a >>= f = f a
panicked >>= f = panicked
out_of_fuel >>= f = out_of_fuel
