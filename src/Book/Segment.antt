-- ===== src/Book/Segment.antt =====
-- A doubly linked list in the arena of crates/cerdic-tee-matcher/src/book.rs as the list of its
-- slots, and the list under each write that the book makes.
pub mod Edit
use cerdic.Prelude.{
  ℕ, zero, suc, ◌+◌, ◌≤◌, ◌<◌, ◌≡◌, refl, ap, ◌∙◌, ◌≢◌, ◌⊎◌, inl, inr, Bool, true, false, Option,
  none, some, List, [], ◌∷◌, ◌++◌, arith, length, get_elem?, set, push, Bool-cases, ◌==◌,
  if◌then◌else◌, In, NotIn, Distinct, ne_of_NotIn, get_elem?-set, get_elem?-push, lt-length_of_get,
  delete,
}
use cerdic.Common.{Side}
use cerdic.Book.Types.{nil, OrderNode}

abbrev pub Arena : Type 0
Arena = List (Option OrderNode)

-- The first slot of a list, or what follows it.
abbrev pub first_or : ℕ → List ℕ → ℕ
first_or d [] = d
first_or d (i ∷ is) = i

-- The nodes of `ids` are live orders of one side and tick, linked in this order from `prev` on to
-- `after`; `tail` is the last of them.
abbrev pub Segment : Arena → Side → ℕ → ℕ → List ℕ → ℕ → ℕ → Type 0
Segment a s t prev [] after tail = tail ≡ prev
Segment a s t prev (i ∷ is) after tail =
    (n : OrderNode) × (get_elem? a i ≡ some (some n))
    × (n.side ≡ s)
    × (n.tick ≡ t)
    × (n.prev ≡ prev)
    × (n.next ≡ first_or after is)
    × Segment a s t i is after tail

-- An order as the book's clients see it: a node without its links.
pub record Order : Type 0 where
  pub tick : ℕ
  pub qty : ℕ
  pub side : Side
  pub owner : ℕ
  pub expiry : Option ℕ

abbrev pub order_of : Option (Option OrderNode) → Option Order
order_of none = none
order_of (some none) = none
order_of (some (some n)) =
    some (record { tick = n.tick; qty = n.qty; side = n.side; owner = n.owner; expiry = n.expiry })

-- The live order in a slot.
abbrev pub order_at : Arena → ℕ → Option Order
order_at a j = order_of (get_elem? a j)

abbrev pub qty_of : Option Order → ℕ
qty_of none = 0
qty_of (some o) = o.qty

pub total : Arena → List ℕ → ℕ
total a [] = 0
total a (i ∷ is) = qty_of (order_at a i) + total a is

pub total-nil : (a : Arena) → total a [] ≡ 0
unfolding total
total-nil a = refl

pub total-cons :
    (a : Arena) (i : ℕ) (is : List ℕ) → total a (i ∷ is) ≡ qty_of (order_at a i) + total a is
unfolding total
total-cons a i is = refl

pub total-append : (a : Arena) (xs ys : List ℕ) → total a (xs ++ ys) ≡ total a xs + total a ys
unfolding total
total-append a [] ys = omega arith
total-append a (x ∷ xs) ys = omega (arith, total-append a xs ys)

-- The total depends on the orders alone.
pub total-cong :
    (a a' : Arena) (ids : List ℕ)
    → ((j : ℕ) → In j ids → order_at a' j ≡ order_at a j)
    → total a' ids ≡ total a ids
unfolding total
total-cong a a' [] h = refl
total-cong a a' (i ∷ is) h =
    omega (arith, ap qty_of (h i (inl refl)), total-cong a a' is (λ j m. h j (inr m)))

first_or-append : (d : ℕ) (xs ys : List ℕ) → first_or d (xs ++ ys) ≡ first_or (first_or d ys) xs
first_or-append d [] ys = refl
first_or-append d (x ∷ xs) ys = refl

module _ (s : Side) (t : ℕ) where
  -- A write elsewhere changes nothing.
  pub Segment-frame :
      (a : Arena) (j : ℕ) (v : Option OrderNode) (p : ℕ) (ids : List ℕ) (q tail : ℕ)
      → j < length a
      → NotIn j ids
      → Segment a s t p ids q tail
      → Segment (set a j v) s t p ids q tail
  Segment-frame a j v p [] q tail h n e = e
  Segment-frame a j v p (i ∷ is) q tail h (ne, n) (node, live, es, et, ep, en, rest) = (
    node,
    ground (arith, get_elem?-set a j i v h),
    es,
    et,
    ep,
    en,
    Segment-frame a j v i is q tail h n rest,
  )

  -- A list depends on its own slots alone.
  pub Segment-cong :
      (a a' : Arena) (p : ℕ) (ids : List ℕ) (q tail : ℕ)
      → ((j : ℕ) → In j ids → get_elem? a' j ≡ get_elem? a j)
      → Segment a s t p ids q tail
      → Segment a' s t p ids q tail
  Segment-cong a a' p [] q tail h e = e
  Segment-cong a a' p (i ∷ is) q tail h (node, live, es, et, ep, en, rest) = (
    node,
    h i (inl refl) ∙ live,
    es,
    et,
    ep,
    en,
    Segment-cong a a' i is q tail (λ j m. h j (inr m)) rest,
  )

  pub Segment-push :
      (a : Arena) (v : Option OrderNode) (p : ℕ) (ids : List ℕ) (q tail : ℕ)
      → Segment a s t p ids q tail
      → Segment (push a v) s t p ids q tail
  Segment-push a v p [] q tail e = e
  Segment-push a v p (i ∷ is) q tail (node, live, es, et, ep, en, rest) = (
    node,
    ground (arith, get_elem?-push a i v, lt-length_of_get a i (some node) live),
    es,
    et,
    ep,
    en,
    Segment-push a v i is q tail rest,
  )

  pub Segment-split :
      (a : Arena) (p : ℕ) (xs ys : List ℕ) (q tail : ℕ)
      → Segment a s t p (xs ++ ys) q tail
      → (mid : ℕ) × Segment a s t p xs (first_or q ys) mid × Segment a s t mid ys q tail
  Segment-split a p [] ys q tail g = (p, refl, g)
  Segment-split a p (x ∷ xs) ys q tail (node, live, es, et, ep, en, rest) =
      let (mid, left, right) = Segment-split a x xs ys q tail rest in
      (mid, (node, live, es, et, ep, rw (← first_or-append q xs ys) en, left), right)

  pub Segment-join :
      (a : Arena) (p mid : ℕ) (xs ys : List ℕ) (q tail : ℕ)
      → Segment a s t p xs (first_or q ys) mid
      → Segment a s t mid ys q tail
      → Segment a s t p (xs ++ ys) q tail
  Segment-join a p mid [] ys q tail e g = rw (← e) g
  Segment-join a p mid (x ∷ xs) ys q tail (node, live, es, et, ep, en, rest) g = (
    node,
    live,
    es,
    et,
    ep,
    rw (first_or-append q xs ys) en,
    Segment-join a x mid xs ys q tail rest g,
  )

  pub Segment-tail-In :
      (a : Arena) (p x : ℕ) (xs : List ℕ) (q tail : ℕ)
      → Segment a s t p (x ∷ xs) q tail
      → In tail (x ∷ xs)
  Segment-tail-In a p x [] q tail (node, live, es, et, ep, en, rest) = inl rest
  Segment-tail-In a p x (y ∷ ys) q tail (node, live, es, et, ep, en, rest) =
      inr (Segment-tail-In a x y ys q tail rest)

  -- The last node of a list is live.
  pub Segment-tail_live :
      (a : Arena) (p x : ℕ) (xs : List ℕ) (q tail : ℕ)
      → Segment a s t p (x ∷ xs) q tail
      → (n : OrderNode) × (get_elem? a tail ≡ some (some n))
  Segment-tail_live a p x [] q tail (node, live, es, et, ep, en, rest) = (node, rw rest live)
  Segment-tail_live a p x (y ∷ ys) q tail (node, live, es, et, ep, en, rest) =
      Segment-tail_live a x y ys q tail rest

  -- Pointing the last node elsewhere.
  pub Segment-retarget_next :
      (a : Arena) (p x : ℕ) (xs : List ℕ) (q tail v : ℕ) (n : OrderNode)
      → Distinct (x ∷ xs)
      → get_elem? a tail ≡ some (some n)
      → Segment a s t p (x ∷ xs) q tail
      → Segment (set a tail (some (record n { next = v }))) s t p (x ∷ xs) v tail
  Segment-retarget_next a p x [] q tail v n d live (node, live', es, et, ep, en, rest) =
      let h = lt-length_of_get a tail (some n) live in
      let w = some (record n { next = v }) in
      let same : get_elem? a tail ≡ some (some node) = rw rest live' in
      (
        record n { next = v },
        ground (arith, get_elem?-set a tail x w h),
        ground arith,
        ground arith,
        ground arith,
        refl,
        rest,
      )
  Segment-retarget_next a p x (y ∷ ys) q tail v n d live (node, live', es, et, ep, en, rest) =
      let h = lt-length_of_get a tail (some n) live in
      let w = some (record n { next = v }) in
      let ne = ne_of_NotIn x tail (y ∷ ys) d.0 (Segment-tail-In a x y ys q tail rest) in
      (
        node,
        ground (arith, get_elem?-set a tail x w h),
        es,
        et,
        ep,
        en,
        Segment-retarget_next a x y ys q tail v n d.1 live rest,
      )

  -- Pointing the first node back elsewhere.
  pub Segment-retarget_prev :
      (a : Arena) (p x : ℕ) (xs : List ℕ) (q tail v : ℕ) (n : OrderNode)
      → NotIn x xs
      → get_elem? a x ≡ some (some n)
      → Segment a s t p (x ∷ xs) q tail
      → Segment (set a x (some (record n { prev = v }))) s t v (x ∷ xs) q tail
  Segment-retarget_prev a p x xs q tail v n d live (node, live', es, et, ep, en, rest) =
      let h = lt-length_of_get a x (some n) live in
      let w = some (record n { prev = v }) in
      (
        record n { prev = v },
        ground (arith, get_elem?-set a x x w h),
        ground arith,
        ground arith,
        refl,
        ground arith,
        Segment-frame a x w x xs q tail h d rest,
      )

  -- A slot that holds no node of this side and tick is not in the list.
  pub Segment-NotIn :
      (a : Arena) (j p : ℕ) (ids : List ℕ) (q tail : ℕ)
      → ((n : OrderNode) → get_elem? a j ≡ some (some n) → n.side ≡ s → n.tick ≡ t → ⊥)
      → Segment a s t p ids q tail
      → NotIn j ids
  Segment-NotIn a j p [] q tail other g = tt
  Segment-NotIn a j p (i ∷ is) q tail other (node, live, es, et, ep, en, rest) =
      ((λ e. other node (rw e live) es et), Segment-NotIn a j i is q tail other rest)

  pub Segment-live :
      (a : Arena) (j p : ℕ) (ids : List ℕ) (q tail : ℕ)
      → Segment a s t p ids q tail
      → In j ids
      → (n : OrderNode) × (get_elem? a j ≡ some (some n)) × (n.side ≡ s) × (n.tick ≡ t)
  Segment-live a j p [] q tail g m = absurd m
  Segment-live a j p (i ∷ is) q tail (node, live, es, et, ep, en, rest) (inl e) =
      (node, rw e live, es, et)
  Segment-live a j p (i ∷ is) q tail (node, live, es, et, ep, en, rest) (inr m) =
      Segment-live a j i is q tail rest m
