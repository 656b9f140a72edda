-- ===== src/Prelude/Lists.antt =====
-- Lists measured and indexed by native numbers, under the library's names.
use Prim.Native.Nat.{ℕ, zero, suc, ◌+◌, ◌-◌, ◌≤◌, ◌<◌}
use mathlib.Core.Path.{◌≡◌, refl, ap}
use mathlib.Core.List.{List, [], ◌∷◌, ◌++◌}
use mathlib.Core.Option.{Option, none, some}
use native.Mathlib.Omega.{arith}
use native.Mathlib.Nat.{sub-zero}
use cerdic.Prelude.Tests.{◌==◌, if◌then◌else◌}

abbrev pub sum : List ℕ → ℕ
sum [] = 0
sum (x ∷ xs) = x + sum xs

pub sum-append : (xs ys : List ℕ) → sum (xs ++ ys) ≡ sum xs + sum ys
sum-append [] ys = omega arith
sum-append (x ∷ xs) ys = omega (arith, sum-append xs ys)

abbrev pub All {ℓ κ} : {A : Type ℓ} → (A → Type κ) → List A → Type κ
All P [] = Unit
All P (x ∷ xs) = P x × All P xs

pub All-append {ℓ κ} :
    {A : Type ℓ} (P : A → Type κ) (xs ys : List A) → All P xs → All P ys → All P (xs ++ ys)
All-append P [] ys hx hy = hy
All-append P (x ∷ xs) ys hx hy = (hx.0, All-append P xs ys hx.1 hy)

module _ {ℓ} {A : Type ℓ} where
  abbrev pub length : List A → ℕ
  length [] = 0
  length (x ∷ xs) = suc (length xs)

  abbrev pub get_elem? : List A → ℕ → Option A
  get_elem? [] i = none
  get_elem? (x ∷ xs) zero = some x
  get_elem? (x ∷ xs) (suc i) = get_elem? xs i

  -- A write out of bounds changes nothing.
  abbrev pub set : List A → ℕ → A → List A
  set [] i v = []
  set (x ∷ xs) zero v = v ∷ xs
  set (x ∷ xs) (suc i) v = x ∷ set xs i v

  abbrev pub get_or : List A → ℕ → A → A
  get_or [] i d = d
  get_or (x ∷ xs) zero d = x
  get_or (x ∷ xs) (suc i) d = get_or xs i d

  abbrev pub take : ℕ → List A → List A
  take zero xs = []
  take (suc n) [] = []
  take (suc n) (x ∷ xs) = x ∷ take n xs

  abbrev pub replicate : ℕ → A → List A
  replicate zero a = []
  replicate (suc n) a = a ∷ replicate n a

  -- `Vec::push`
  abbrev pub push : List A → A → List A
  push [] a = a ∷ []
  push (x ∷ xs) a = x ∷ push xs a

  pub All-push {κ} : (P : A → Type κ) (xs : List A) (a : A) → All P xs → P a → All P (push xs a)
  All-push P [] a h p = (p, tt)
  All-push P (x ∷ xs) a h p = (h.0, All-push P xs a h.1 p)

  pub length-append : (xs ys : List A) → length (xs ++ ys) ≡ length xs + length ys
  length-append [] ys = omega arith
  length-append (x ∷ xs) ys = omega (arith, length-append xs ys)

module _ {ℓ} {A : Type ℓ} where
  -- `Vec::resize`
  unfoldable pub resize : List A → ℕ → A → List A
  resize xs n a = take n xs ++ replicate (n - length xs) a

  pub length-set : (xs : List A) (i : ℕ) (v : A) → length (set xs i v) ≡ length xs
  length-set [] i v = refl
  length-set (x ∷ xs) zero v = refl
  length-set (x ∷ xs) (suc i) v = ap suc (length-set xs i v)

  pub length-push : (xs : List A) (v : A) → length (push xs v) ≡ suc (length xs)
  length-push [] v = refl
  length-push (x ∷ xs) v = ap suc (length-push xs v)

  pub length-replicate : (n : ℕ) (a : A) → length (replicate n a) ≡ n
  length-replicate zero a = refl
  length-replicate (suc n) a = ap suc (length-replicate n a)

  pub get_elem?-set :
      (xs : List A) (i j : ℕ) (v : A)
      → i < length xs
      → get_elem? (set xs i v) j ≡ (if i == j then some v else get_elem? xs j)
  get_elem?-set [] i j v h = elim h [ ]
  get_elem?-set (x ∷ xs) zero zero v h = refl
  get_elem?-set (x ∷ xs) zero (suc j) v h = ground arith
  get_elem?-set (x ∷ xs) (suc i) zero v h = ground arith
  get_elem?-set (x ∷ xs) (suc i) (suc j) v h = ground (arith, get_elem?-set xs i j v)

  pub get_elem?-push :
      (xs : List A) (j : ℕ) (v : A)
      → get_elem? (push xs v) j ≡ (if j == length xs then some v else get_elem? xs j)
  get_elem?-push [] zero v = refl
  get_elem?-push [] (suc j) v = ground arith
  get_elem?-push (x ∷ xs) zero v = ground arith
  get_elem?-push (x ∷ xs) (suc j) v = ground (arith, get_elem?-push xs j v)

  pub lt-length_of_get : (xs : List A) (i : ℕ) (a : A) → get_elem? xs i ≡ some a → i < length xs
  lt-length_of_get [] i a e = cc
  lt-length_of_get (x ∷ xs) zero a e = omega arith
  lt-length_of_get (x ∷ xs) (suc i) a e = omega (arith, lt-length_of_get xs i a e)

  pub length-resize : (xs : List A) (n : ℕ) (a : A) → length (resize xs n a) ≡ n
  unfolding resize
  length-resize [] zero a = refl
  length-resize [] (suc n) a = rw sub-zero (length-replicate (suc n) a)
  length-resize (x ∷ xs) zero a = omega (arith, length-replicate (0 - suc (length xs)) a)
  length-resize (x ∷ xs) (suc n) a = ground (arith, length-resize xs n a)

  get_or-replicate : (n i : ℕ) (a : A) → get_or (replicate n a) i a ≡ a
  get_or-replicate zero i a = refl
  get_or-replicate (suc n) zero a = refl
  get_or-replicate (suc n) (suc i) a = get_or-replicate n i a

  -- Growing a vector keeps its entries, and adds the default.
  pub get_or-resize :
      (xs : List A) (n i : ℕ) (a : A) → length xs ≤ n → get_or (resize xs n a) i a ≡ get_or xs i a
  unfolding resize
  get_or-resize [] zero i a h = refl
  get_or-resize [] (suc n) i a h = rw sub-zero (get_or-replicate (suc n) i a)
  get_or-resize (x ∷ xs) zero i a h = absurd (omega arith)
  get_or-resize (x ∷ xs) (suc n) zero a h = refl
  get_or-resize (x ∷ xs) (suc n) (suc i) a h = rw sub-suc-suc (get_or-resize xs n i a (omega arith))
    where
      sub-suc-suc : suc n - suc (length xs) ≡ n - length xs
      sub-suc-suc = omega arith

  pub get_or-set :
      (xs : List A) (i j : ℕ) (v d : A)
      → i < length xs
      → get_or (set xs i v) j d ≡ (if i == j then v else get_or xs j d)
  get_or-set [] i j v d h = elim h [ ]
  get_or-set (x ∷ xs) zero zero v d h = refl
  get_or-set (x ∷ xs) zero (suc j) v d h = ground arith
  get_or-set (x ∷ xs) (suc i) zero v d h = ground arith
  get_or-set (x ∷ xs) (suc i) (suc j) v d h = ground (arith, get_or-set xs i j v d)

  pub get_or_past : (xs : List A) (i : ℕ) (d : A) → length xs ≤ i → get_or xs i d ≡ d
  get_or_past [] i d h = refl
  get_or_past (x ∷ xs) zero d h = absurd (omega arith)
  get_or_past (x ∷ xs) (suc i) d h = get_or_past xs i d (omega arith)

pub append_assoc {ℓ} : {A : Type ℓ} (xs ys zs : List A) → (xs ++ ys) ++ zs ≡ xs ++ (ys ++ zs)
append_assoc [] ys zs = refl
append_assoc (x ∷ xs) ys zs = ap (◌∷◌ x) (append_assoc xs ys zs)

pub append_nil {ℓ} : {A : Type ℓ} (xs : List A) → xs ++ [] ≡ xs
append_nil [] = refl
append_nil (x ∷ xs) = ap (◌∷◌ x) (append_nil xs)
