-- ===== src/Prelude/Slots.antt =====
-- Lists of slots: membership, lists without repetition, and the deletion of a slot.
use Prim.Native.Nat.{ℕ}
use mathlib.Core.Logic.{◌⊎◌, inl, inr, ◌≢◌}
use mathlib.Core.Path.{◌≡◌, refl, ap}
use mathlib.Core.List.{List, [], ◌∷◌, ◌++◌}
use native.Mathlib.Omega.{arith}
use cerdic.Prelude.Tests.{Bool-cases, ◌==◌, if◌then◌else◌}

-- Membership of a number, by recursion.
abbrev pub In : ℕ → List ℕ → Type 0
In i [] = ⊥
In i (x ∷ xs) = (i ≡ x) ⊎ In i xs

abbrev pub NotIn : ℕ → List ℕ → Type 0
NotIn i [] = Unit {0}
NotIn i (x ∷ xs) = (i ≢ x) × NotIn i xs

abbrev pub Distinct : List ℕ → Type 0
Distinct [] = Unit {0}
Distinct (x ∷ xs) = NotIn x xs × Distinct xs

pub NotIn-of_all : (i : ℕ) (xs : List ℕ) → ((j : ℕ) → In j xs → i ≢ j) → NotIn i xs
NotIn-of_all i [] h = tt
NotIn-of_all i (x ∷ xs) h = (h x (inl refl), NotIn-of_all i xs (λ j m. h j (inr m)))

pub ne_of_NotIn : (i j : ℕ) (xs : List ℕ) → NotIn i xs → In j xs → i ≢ j
ne_of_NotIn i j [] n m = absurd m
ne_of_NotIn i j (x ∷ xs) n (inl e) = λ q. n.0 (ground arith)
ne_of_NotIn i j (x ∷ xs) n (inr m) = ne_of_NotIn i j xs n.1 m

-- `xs` without its first `i`.
unfoldable pub delete : ℕ → List ℕ → List ℕ
delete i [] = []
delete i (x ∷ xs) = if i == x then xs else x ∷ delete i xs

pub delete_head : (i : ℕ) (xs : List ℕ) → delete i (i ∷ xs) ≡ xs
unfolding delete
delete_head i xs = ground arith

pub NotIn-delete : (j i : ℕ) (xs : List ℕ) → NotIn j xs → NotIn j (delete i xs)
unfolding delete
NotIn-delete j i [] n = tt
NotIn-delete j i (x ∷ xs) n = ground (arith, NotIn-delete j i xs n.1)

pub delete-Distinct : (i : ℕ) (xs : List ℕ) → Distinct xs → Distinct (delete i xs)
unfolding delete
delete-Distinct i [] d = tt
delete-Distinct i (x ∷ xs) d = ground (arith, delete-Distinct i xs d.1, NotIn-delete x i xs d.0)

pub NotIn-delete_self : (i : ℕ) (xs : List ℕ) → Distinct xs → NotIn i (delete i xs)
unfolding delete
NotIn-delete_self i [] d = tt
NotIn-delete_self i (x ∷ xs) d = ground (arith, NotIn-delete_self i xs d.1)

pub In-delete : (j i : ℕ) (xs : List ℕ) → In j xs → i ≢ j → In j (delete i xs)
unfolding delete
In-delete j i [] m h = absurd m
In-delete j i (x ∷ xs) (inl e) h = ground arith
In-delete j i (x ∷ xs) (inr m) h = ground (arith, In-delete j i xs m h)

pub In-append_left : (j : ℕ) (xs ys : List ℕ) → In j xs → In j (xs ++ ys)
In-append_left j [] ys m = absurd m
In-append_left j (x ∷ xs) ys (inl e) = inl e
In-append_left j (x ∷ xs) ys (inr m) = inr (In-append_left j xs ys m)

pub In-append_right : (j : ℕ) (xs ys : List ℕ) → In j ys → In j (xs ++ ys)
In-append_right j [] ys m = m
In-append_right j (x ∷ xs) ys m = inr (In-append_right j xs ys m)

pub In_tail : {A B : Type 0} (k q : ℕ) → (A → B) → (k ≡ q) ⊎ A → (k ≡ q) ⊎ B
In_tail k q f (inl e) = inl e
In_tail k q f (inr a) = inr (f a)

pub In-append : (j : ℕ) (xs ys : List ℕ) → In j (xs ++ ys) → In j xs ⊎ In j ys
In-append j [] ys m = inr m
In-append j (x ∷ xs) ys (inl e) = inl (inl e)
In-append j (x ∷ xs) ys (inr m) = elim (In-append j xs ys m) [ inl n ↦ inl (inr n) | inr n ↦ inr n ]

-- The parts of a list without repetition have no common entry.
pub Distinct-append_left : (xs ys : List ℕ) → Distinct (xs ++ ys) → Distinct xs
Distinct-append_left [] ys d = tt
Distinct-append_left (x ∷ xs) ys (n, d) = (
  NotIn-of_all x xs (λ j m. ne_of_NotIn x j (xs ++ ys) n (In-append_left j xs ys m)),
  Distinct-append_left xs ys d,
)

pub Distinct-append_right : (xs ys : List ℕ) → Distinct (xs ++ ys) → Distinct ys
Distinct-append_right [] ys d = d
Distinct-append_right (x ∷ xs) ys d = Distinct-append_right xs ys d.1

pub Distinct-apart : (xs ys : List ℕ) (i j : ℕ) → Distinct (xs ++ ys) → In i xs → In j ys → i ≢ j
Distinct-apart [] ys i j d m n = absurd m
Distinct-apart (x ∷ xs) ys i j d (inl e) n =
    let ne = ne_of_NotIn x j (xs ++ ys) d.0 (In-append_right j xs ys n) in λ q. ne (ground arith)
Distinct-apart (x ∷ xs) ys i j d (inr m) n = Distinct-apart xs ys i j d.1 m n

-- An entry splits a list without repetition, and `delete` takes it out.
pub In-split :
    (i : ℕ) (ids : List ℕ)
    → In i ids
    → Distinct ids
    → (xs : List ℕ) × (ys : List ℕ) × (ids ≡ xs ++ i ∷ ys) × (delete i ids ≡ xs ++ ys)
unfolding delete
In-split i [] m d = absurd m
In-split i (x ∷ xs) (inl e) d = ([], xs, ground arith, ground arith)
In-split i (x ∷ xs) (inr m) d =
    let (l, r, p, q) = In-split i xs m d.1 in
    let ne = ne_of_NotIn x i xs d.0 m in (x ∷ l, r, ap (◌∷◌ x) p, ground arith)

pub delete-NotIn : (i : ℕ) (xs : List ℕ) → NotIn i xs → delete i xs ≡ xs
unfolding delete
delete-NotIn i [] n = refl
delete-NotIn i (x ∷ xs) n = ground (arith, delete-NotIn i xs n.1)

In-cons_map : (j x : ℕ) (xs ys : List ℕ) → (In j xs → In j ys) → In j (x ∷ xs) → In j (x ∷ ys)
In-cons_map j x xs ys f (inl e) = inl e
In-cons_map j x xs ys f (inr m) = inr (f m)

pub In-delete-In : (j i : ℕ) (xs : List ℕ) → In j (delete i xs) → In j xs
unfolding delete
In-delete-In j i [] m = m
In-delete-In j i (x ∷ xs) m = elim (Bool-cases (i == x)) [
  | inl e ↦ inr (rw (e, delete) at m)
  | inr e ↦ In-cons_map j x (delete i xs) xs (In-delete-In j i xs) (rw (e, delete) at m)
]
