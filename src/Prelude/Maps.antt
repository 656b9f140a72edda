-- ===== src/Prelude/Maps.antt =====
-- Maps with number keys as association lists: at most one entry of a key after `insert` and `erase`.
use Prim.Native.Nat.{ℕ}
use mathlib.Core.Logic.{◌≢◌}
use mathlib.Core.Path.{◌≡◌, refl}
use mathlib.Core.List.{List, [], ◌∷◌}
use mathlib.Core.Option.{Option, none, some}
use native.Mathlib.Omega.{arith}
use cerdic.Prelude.Tests.{◌==◌, if◌then◌else◌}

abbrev pub Dict {ℓ} : Type ℓ → Type ℓ
Dict V = List (ℕ × V)

module _ {ℓ} {V : Type ℓ} where
  unfoldable pub lookup : ℕ → Dict V → Option V
  lookup k [] = none
  lookup k ((j, w) ∷ d) = let rest = lookup k d in if k == j then some w else rest

  unfoldable pub insert : ℕ → V → Dict V → Dict V
  insert k v [] = (k, v) ∷ []
  insert k v ((j, w) ∷ d) = let rest = insert k v d in if k == j then (k, v) ∷ d else (j, w) ∷ rest

  unfoldable pub erase : ℕ → Dict V → Dict V
  erase k [] = []
  erase k ((j, w) ∷ d) = let rest = erase k d in if k == j then rest else (j, w) ∷ rest

  pub lookup-nil : (k : ℕ) → lookup k [] ≡ none
  unfolding lookup
  lookup-nil k = refl

  pub lookup-cons :
      (j k : ℕ) (v : V) (d : Dict V)
      → lookup j ((k, v) ∷ d) ≡ (if j == k then some v else lookup j d)
  unfolding lookup
  lookup-cons j k v d = ground arith

  pub lookup-cons_here : (k : ℕ) (v : V) (d : Dict V) → lookup k ((k, v) ∷ d) ≡ some v
  unfolding lookup
  lookup-cons_here k v d = ground arith

  pub lookup-cons_ne : (j k : ℕ) (v : V) (d : Dict V) → j ≢ k → lookup j ((k, v) ∷ d) ≡ lookup j d
  unfolding lookup
  lookup-cons_ne j k v d h = ground arith

  pub lookup-insert :
      (j k : ℕ) (v : V) (d : Dict V)
      → lookup j (insert k v d) ≡ (if j == k then some v else lookup j d)
  unfolding insert lookup
  lookup-insert j k v [] = lookup-cons j k v []
  lookup-insert j k v ((i, w) ∷ d) = ground (arith, lookup-insert j k v d)

  pub lookup-erase :
      (j k : ℕ) (d : Dict V) → lookup j (erase k d) ≡ (if j == k then none else lookup j d)
  unfolding erase lookup
  lookup-erase j k [] = ground arith
  lookup-erase j k ((i, w) ∷ d) = ground (arith, lookup-erase j k d)
