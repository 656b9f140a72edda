-- ===== src/Book/Segment/Edit.antt =====
-- A change of an order's quantity, in the arena of crates/cerdic-tee-matcher/src/book.rs: the lists
-- stand, and the total of the order's queue is less by the change.
use cerdic.Prelude.{
  ℕ, ◌+◌, ◌-◌, ◌≤◌, ◌≡◌, refl, sym, subst, ap, ◌∙◌, inl, inr, Bool-cases, Option, some, List, [],
  ◌∷◌, arith, get_elem?, set, ◌==◌, if◌then◌else◌, In, Distinct, get_elem?-set, lt-length_of_get,
  ne_of_NotIn,
}
use cerdic.Common.{Side}
use cerdic.Book.Types.{OrderNode}
use cerdic.Book.Segment.{Arena, order_of, order_at, Segment, qty_of, total, total-cons, total-cong}

-- The order that is left of a node when `d` of it is filled.
abbrev pub lesser : OrderNode → ℕ → OrderNode
lesser n d = record n { qty = n.qty - d }

module _ (a : Arena) (i : ℕ) (n : OrderNode) (live : get_elem? a i ≡ some (some n)) (d : ℕ) where
  abbrev pub filled : Arena
  filled = set a i (some (lesser n d))

  pub get_elem?-filled :
      (j : ℕ) → get_elem? filled j ≡ (if i == j then some (some (lesser n d)) else get_elem? a j)
  get_elem?-filled j = get_elem?-set a i j (some (lesser n d)) (lt-length_of_get a i (some n) live)

  pub Segment-filled :
      (s : Side) (t p : ℕ) (ids : List ℕ) (q tail : ℕ)
      → Segment a s t p ids q tail
      → Segment filled s t p ids q tail
  Segment-filled s t p [] q tail e = e
  Segment-filled s t p (j ∷ js) q tail (m, at, es, et, ep, en, rest) = elim (Bool-cases (i == j)) [
    | inl h ↦
        let same : i ≡ j = ground arith in
        let at' = subst (λ (u : ℕ). get_elem? a u ≡ some (some m)) (sym same) at in
        let node : n ≡ m = ground arith in
        (
          lesser n d,
          get_elem?-filled j ∙ rw h refl,
          ap (λ (x : OrderNode). x.side) node ∙ es,
          ap (λ (x : OrderNode). x.tick) node ∙ et,
          ap (λ (x : OrderNode). x.prev) node ∙ ep,
          ap (λ (x : OrderNode). x.next) node ∙ en,
          Segment-filled s t j js q tail rest,
        )
    | inr h ↦ (m, get_elem?-filled j ∙ rw h at, es, et, ep, en, Segment-filled s t j js q tail rest)
  ]

  pub order_at-filled :
      (j : ℕ)
      → order_at filled j ≡ (if i == j then order_of (some (some (lesser n d))) else order_at a j)
  order_at-filled j = elim (Bool-cases (i == j)) [
    | inl h ↦ ap order_of (get_elem?-filled j) ∙ rw h refl
    | inr h ↦ ap order_of (get_elem?-filled j) ∙ rw h refl
  ]

  pub total-filled :
      (ids : List ℕ) → d ≤ n.qty → Distinct ids → In i ids → total filled ids + d ≡ total a ids
  total-filled [] le apart m = absurd m
  total-filled (x ∷ xs) le apart (inl e) =
      let rest =
        total-cong a filled xs
          (λ j m. ground (arith, order_at-filled j, ne_of_NotIn x j xs apart.0 m)) in
      let at : get_elem? a x ≡ some (some n) = rw (sym e) live in
      let now : order_at filled x ≡ order_of (some (some (lesser n d))) =
        ground (arith, order_at-filled x) in
      omega (
        arith,
        total-cons filled x xs,
        total-cons a x xs,
        rest,
        ap qty_of now,
        ap (λ (g : Option (Option OrderNode)). qty_of (order_of g)) at,
      )
  total-filled (x ∷ xs) le apart (inr m) =
      let ne = ne_of_NotIn x i xs apart.0 m in
      let same : order_at filled x ≡ order_at a x = ground (arith, order_at-filled x) in
      omega (
        arith,
        total-cons filled x xs,
        total-cons a x xs,
        ap qty_of same,
        total-filled xs le apart.1 m,
      )
