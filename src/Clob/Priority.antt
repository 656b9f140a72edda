-- ===== src/Clob/Priority.antt =====
-- Price-time priority as a reference for crates/clob/src/lib.rs: the resting orders in one list, best
-- price first and oldest first within a price, and the fills of a taker that meets them in turn.
use cerdic.Prelude.{
  ℕ, ◌+◌, ◌-◌, ◌<◌, ◌≡◌, refl, sym, ap, inl, inr, Bool-cases, List, [], ◌∷◌, ◌++◌, arith, min, push,
  ◌==◌, eq_of_test, if◌then◌else◌,
}
use cerdic.Prelude.Int.{ℤ, unsigned_abs}
use cerdic.Common.{Side}
use cerdic.Clob.Types.{Order, quantity, MatchResult, as_i128, i128_end}
use cerdic.Clob.Levels.{Queue, Levels}
use cerdic.Clob.Matching.{beyond}

-- A resting order with its price, and one fill: the maker, its price and the size.
abbrev pub Resting : Type 0
Resting = ℕ × Order

pub record Hit : Type 0 where
  pub maker : ℕ
  pub price : ℕ
  pub size : ℤ

abbrev pub tagged : ℕ → Queue → List Resting
tagged p [] = []
tagged p (o ∷ os) = (p, o) ∷ tagged p os

-- The orders that the taker's limit reaches, in priority.
abbrev pub in_reach : Side → ℕ → Levels → List Resting
in_reach taker limit [] = []
in_reach taker limit ((p, os) ∷ ls) =
    let rest = tagged p os ++ in_reach taker limit ls in if beyond taker limit p then [] else rest

-- The fills, and what the taker has left.
abbrev pub hits_in : List Resting → ℕ → List Hit
hits_in [] remaining = []
hits_in ((p, o) ∷ rs) remaining =
    let fill = min (quantity o) remaining in
    let rest =
      record { maker = o.id; price = p; size = as_i128 fill } ∷ hits_in rs (remaining - fill) in
    if remaining == 0 then [] else rest

abbrev pub left_in : List Resting → ℕ → ℕ
left_in [] remaining = remaining
left_in ((p, o) ∷ rs) remaining = left_in rs (remaining - min (quantity o) remaining)

-- The fills that the engine reports.
abbrev pub hit_of : MatchResult → Hit
hit_of r = record { maker = r.maker_order_id; price = r.trade.price; size = r.trade.size }

abbrev pub hits_of : List MatchResult → List Hit
hits_of [] = []
hits_of (r ∷ rs) = hit_of r ∷ hits_of rs

pub hits_of-push :
    (rs : List MatchResult) (r : MatchResult) → hits_of (push rs r) ≡ hits_of rs ++ hit_of r ∷ []
hits_of-push [] r = refl
hits_of-push (x ∷ rs) r = ap (◌∷◌ (hit_of x)) (hits_of-push rs r)

pub hits_in-zero : (rs : List Resting) → hits_in rs 0 ≡ []
hits_in-zero [] = refl
hits_in-zero (r ∷ rs) = refl

pub left_in-zero : (rs : List Resting) → left_in rs 0 ≡ 0
left_in-zero [] = refl
left_in-zero (r ∷ rs) = let e : 0 - min (quantity r.1) 0 ≡ 0 = omega arith in rw e (left_in-zero rs)

pub hits_in-append :
    (xs ys : List Resting) (n : ℕ)
    → hits_in (xs ++ ys) n ≡ hits_in xs n ++ hits_in ys (left_in xs n)
hits_in-append [] ys n = refl
hits_in-append ((p, o) ∷ xs) ys n = elim (Bool-cases (n == 0)) [
  | inl e ↦
      let z : n - min (quantity o) n ≡ 0 = omega (arith, eq_of_test n 0 e) in
      rw e (sym (rw (z, left_in-zero xs) (hits_in-zero ys)))
  | inr e ↦ rw e (
      ap (◌∷◌ (record { maker = o.id; price = p; size = as_i128 (min (quantity o) n) }))
        (hits_in-append xs ys (n - min (quantity o) n)))
]

pub left_in-append :
    (xs ys : List Resting) (n : ℕ) → left_in (xs ++ ys) n ≡ left_in ys (left_in xs n)
left_in-append [] ys n = refl
left_in-append ((p, o) ∷ xs) ys n = left_in-append xs ys (n - min (quantity o) n)

-- The sizes of the fills.
abbrev pub total : List Hit → ℕ
total [] = 0
total (h ∷ hs) = unsigned_abs h.size + total hs

-- No quantity is lost or made: the fills and what is left are what the taker had.
pub total-hits_in :
    (rs : List Resting) (n : ℕ) → n < i128_end → total (hits_in rs n) + left_in rs n ≡ n
total-hits_in [] n h = omega arith
total-hits_in ((p, o) ∷ rs) n h = elim (Bool-cases (n == 0)) [
  | inl e ↦
      let z : n - min (quantity o) n ≡ 0 = omega (arith, eq_of_test n 0 e) in
      rw (e, z) (omega (arith, left_in-zero rs, eq_of_test n 0 e))
  | inr e ↦
      let fits : unsigned_abs (as_i128 (min (quantity o) n)) ≡ min (quantity o) n = ground arith in
      rw e (omega (arith, fits, total-hits_in rs (n - min (quantity o) n) (omega arith)))
]
