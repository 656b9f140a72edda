-- ===== src/Book/Removal/Lists.antt =====
-- The list of a level after one of its nodes has been unlinked.
use cerdic.Prelude.{
  ℕ, ◌≤◌, ◌<◌, ◌≡◌, refl, true, false, sym, subst, ap, ◌∙◌, ◌≢◌, inl, inr, none, some, List, [],
  ◌∷◌, ◌++◌, arith, length, get_elem?, set, ◌==◌, if◌then◌else◌, In, NotIn, Distinct, NotIn-of_all,
  Distinct-append_left, Distinct-append_right, Distinct-apart, In-append_left, In-append_right,
  ne_of_NotIn, length-set, lt-length_of_get,
}
use cerdic.Common.{Side}
use cerdic.Book.Types.{nil, OrderNode}
use cerdic.Book.Removal.{freed, past_next, past_prev, removed, length-past_next}
use cerdic.Book.Segment.{
  Arena, Segment, first_or, Segment-frame, Segment-split, Segment-join, Segment-tail-In,
  Segment-tail_live, Segment-retarget_next, Segment-retarget_prev,
}

module _ (s : Side) (t : ℕ) (a : Arena) (small : length a ≤ nil) where
  lt_nil : (i : ℕ) (n : OrderNode) → get_elem? a i ≡ some (some n) → i < nil
  lt_nil i n e = omega (arith, lt-length_of_get a i (some n) e)

  -- The left neighbour now points past the node.
  left_part :
      (mid : ℕ) (xs ys : List ℕ) (i tail : ℕ) (n : OrderNode)
      → Distinct xs
      → ((j : ℕ) → In j xs → NotIn j ys)
      → n.prev ≡ mid
      → n.next ≡ first_or nil ys
      → Segment a s t nil xs i mid
      → Segment a s t i ys nil tail
      → let a' = past_next a n in
        Segment a' s t nil xs (first_or nil ys) mid × Segment a' s t i ys nil tail
  left_part mid [] ys i tail n d apart ep en l r =
      let e : (n.prev == nil) ≡ true = ground arith in rw e (l, r)
  left_part mid (x ∷ xs) ys i tail n d apart ep en l r =
      let (m, live) = Segment-tail_live s t a nil x xs i mid l in
      let here = Segment-tail-In s t a nil x xs i mid l in
      let e : (n.prev == nil) ≡ false = ground (arith, lt_nil mid m live) in
      let h = lt-length_of_get a mid (some m) live in
      let w = some (record m { next = first_or nil ys }) in
      let q : past_next a n ≡ set a mid w = ground (arith, ap (get_elem? a) ep) in
      subst (λ a'. Segment a' s t nil (x ∷ xs) (first_or nil ys) mid × Segment a' s t i ys nil tail)
        (sym q)
        (
          Segment-retarget_next s t a nil x xs i mid (first_or nil ys) m d live l,
          Segment-frame s t a mid w i ys nil tail h (apart mid here) r,
        )

  -- The right neighbour now points back past the node.
  right_part :
      (mid : ℕ) (xs ys : List ℕ) (i tail : ℕ) (n : OrderNode)
      → Distinct ys
      → ((j : ℕ) → In j ys → NotIn j xs)
      → n.prev ≡ mid
      → n.next ≡ first_or nil ys
      → Segment a s t nil xs (first_or nil ys) mid
      → Segment a s t i ys nil tail
      → Segment (past_prev a n) s t nil (xs ++ ys) nil (if n.next == nil then n.prev else tail)
  right_part mid xs [] i tail n d apart ep en l r =
      let e : (n.next == nil) ≡ true = ground arith in
      rw e (Segment-join s t a nil mid xs [] nil n.prev l ep)
  right_part mid xs (y ∷ ys) i tail n d apart ep en l (node, live, es, et, ep', en', rest) =
      let e : (n.next == nil) ≡ false = ground (arith, lt_nil y node live) in
      let h = lt-length_of_get a y (some node) live in
      let r : Segment a s t i (y ∷ ys) nil tail = (node, live, es, et, ep', en', rest) in
      let w = some (record node { prev = mid }) in
      let q : past_prev a n ≡ set a y w = ground (arith, ap (get_elem? a) en) in
      subst (λ a'. Segment a' s t nil (xs ++ y ∷ ys) nil (if n.next == nil then n.prev else tail))
        (sym q)
        (rw e (
          Segment-join s t (set a y w) nil mid xs (y ∷ ys) nil tail
            (Segment-frame s t a y w nil xs y mid h (apart y (inl refl)) l)
            (Segment-retarget_prev s t a i y ys nil tail mid node d.0 live r)))

-- Unlinking the node between `xs` and `ys`.
pub Segment-removed :
    (s : Side) (t : ℕ) (a : Arena) (xs ys : List ℕ) (i tail : ℕ) (n : OrderNode)
    → length a ≤ nil
    → Distinct (xs ++ i ∷ ys)
    → get_elem? a i ≡ some (some n)
    → Segment a s t nil (xs ++ i ∷ ys) nil tail
    → Segment (removed a i n) s t nil (xs ++ ys) nil (if n.next == nil then n.prev else tail)
unfolding removed
Segment-removed s t a xs ys i tail n small d live g =
    let (mid, l, r) = Segment-split s t a nil xs (i ∷ ys) nil tail g in
    let h = lt-length_of_get a i (some n) live in
    let (node, live', es, et, ep, en, rest) = r in
    let q : node ≡ n = ground arith in
    let dr = Distinct-append_right xs (i ∷ ys) d in
    let not_left =
      NotIn-of_all i xs (λ j m e. Distinct-apart xs (i ∷ ys) j i d m (inl refl) (sym e)) in
    let l₁ = Segment-frame s t a i none nil xs i mid h not_left l in
    let r₁ = Segment-frame s t a i none i ys nil tail h dr.0 rest in
    let small₁ : length (freed a i) ≤ nil = omega (arith, length-set a i none) in
    let dl = Distinct-append_left xs (i ∷ ys) d in
    let across =
      λ (j k : ℕ) (m : In j xs) (m' : In k ys). Distinct-apart xs (i ∷ ys) j k d m (inr m') in
    let (l₂, r₂) =
      left_part s t (freed a i) small₁ mid xs ys i tail n dl
        (λ j m. NotIn-of_all j ys (λ k m'. across j k m m')) (ground arith) (ground arith) l₁ r₁ in
    right_part s t (past_next (freed a i) n) (omega (arith, small₁, length-past_next (freed a i) n))
      mid xs ys i tail n dr.1 (λ k m'. NotIn-of_all k xs (λ j m e. across j k m m' (sym e)))
      (ground arith) (ground arith) l₂ r₂

-- The neighbours of a node, where it has them, are other slots of its list.
pub record Near (ids : List ℕ) (i : ℕ) (n : OrderNode) : Type 0 where
  pub prev_in : n.prev ≢ nil → In n.prev ids
  pub next_in : n.next ≢ nil → In n.next ids
  pub prev_ne : n.prev ≢ nil → n.prev ≢ i
  pub next_ne : n.next ≢ nil → n.next ≢ i
  pub next_ne_prev : n.next ≢ nil → n.prev ≢ nil → n.next ≢ n.prev

pub neighbours :
    (s : Side) (t : ℕ) (a : Arena) (xs ys : List ℕ) (i tail : ℕ) (n : OrderNode)
    → Distinct (xs ++ i ∷ ys)
    → get_elem? a i ≡ some (some n)
    → Segment a s t nil (xs ++ i ∷ ys) nil tail
    → Near (xs ++ i ∷ ys) i n
neighbours s t a xs ys i tail n d live g =
    let (mid, l, r) = Segment-split s t a nil xs (i ∷ ys) nil tail g in
    let (node, live', es, et, ep, en, rest) = r in
    let q : node ≡ n = ground arith in
    let ep' : n.prev ≡ mid = ground arith in
    let en' : n.next ≡ first_or nil ys = ground arith in
    let left = λ (h : n.prev ≢ nil). prev_of xs mid ep' l h in
    let right = λ (h : n.next ≢ nil). next_of ys en' h in
    record {
      prev_in = λ h. In-append_left n.prev xs (i ∷ ys) (left h);
      next_in = λ h. In-append_right n.next xs (i ∷ ys) (inr (right h));
      prev_ne = λ h. Distinct-apart xs (i ∷ ys) n.prev i d (left h) (inl refl);
      next_ne =
          λ h e. ne_of_NotIn i n.next ys (Distinct-append_right xs (i ∷ ys) d).0 (right h) (sym e);
      next_ne_prev =
          λ h h' e. Distinct-apart xs (i ∷ ys) n.prev n.next d (left h') (inr (right h)) (sym e);
    }
  where
    prev_of :
        (xs : List ℕ) (mid : ℕ)
        → n.prev ≡ mid
        → Segment a s t nil xs i mid
        → n.prev ≢ nil
        → In n.prev xs
    prev_of [] mid e l h = absurd (h (e ∙ l))
    prev_of (x ∷ xs) mid e l h =
        subst (λ (j : ℕ). In j (x ∷ xs)) (sym e) (Segment-tail-In s t a nil x xs i mid l)

    next_of : (ys : List ℕ) → n.next ≡ first_or nil ys → n.next ≢ nil → In n.next ys
    next_of [] e h = absurd (h e)
    next_of (y ∷ ys) e h = inl e

-- The head of the list that is left.
pub head-removed :
    (s : Side) (t : ℕ) (a : Arena) (xs ys : List ℕ) (i tail : ℕ) (n : OrderNode)
    → length a ≤ nil
    → get_elem? a i ≡ some (some n)
    → Segment a s t nil (xs ++ i ∷ ys) nil tail
    → (if n.prev == nil then n.next else first_or nil (xs ++ i ∷ ys)) ≡ first_or nil (xs ++ ys)
head-removed s t a [] ys i tail n small live (node, live', es, et, ep, en, rest) =
    let q : node ≡ n = ground arith in ground arith
head-removed s t a (x ∷ xs) ys i tail n small live g =
    let (mid, l, r) = Segment-split s t a nil (x ∷ xs) (i ∷ ys) nil tail g in
    let (node, live', es, et, ep, en, rest) = r in
    let (m, alive) = Segment-tail_live s t a nil x xs i mid l in
    let h = lt-length_of_get a mid (some m) alive in let q : node ≡ n = ground arith in ground arith
