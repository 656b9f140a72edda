-- ===== src/Book/Removal.antt =====
-- What `unlink` of crates/cerdic-tee-matcher/src/book.rs does to the arena: the node's slot is freed
-- and its neighbours point past it. The list of its level loses it, and no order but it changes.
pub mod Lists
pub mod Count
use cerdic.Prelude.{
  ℕ, suc, ◌≤◌, ◌<◌, ◌≡◌, refl, ap, ◌∙◌, ◌≢◌, inl, inr, Bool-cases, Option, none, some, List, [],
  ◌∷◌, ◌++◌, arith, length, get_elem?, set, ◌==◌, if◌then◌else◌, In, NotIn, Distinct, NotIn-of_all,
  Distinct-append_left, Distinct-append_right, Distinct-apart, get_elem?-set, length-set,
  lt-length_of_get,
}
use cerdic.Common.{Side}
use cerdic.Book.Types.{nil, OrderNode}
use cerdic.Book.Segment.{
  Arena, Segment, first_or, order_at, Segment-frame, Segment-split, Segment-join, Segment-tail-In,
  Segment-tail_live, Segment-retarget_next, Segment-retarget_prev, Segment-cong, Segment-live,
}

-- The arena after `slot_mut(j).next = v` and `slot_mut(j).prev = v`.
abbrev pub point_next : Arena → ℕ → ℕ → Option (Option OrderNode) → Arena
point_next a j v none = a
point_next a j v (some none) = a
point_next a j v (some (some m)) = set a j (some (record m { next = v }))

abbrev pub point_prev : Arena → ℕ → ℕ → Option (Option OrderNode) → Arena
point_prev a j v none = a
point_prev a j v (some none) = a
point_prev a j v (some (some m)) = set a j (some (record m { prev = v }))

abbrev pub freed : Arena → ℕ → Arena
freed a i = set a i none

abbrev pub past_next : Arena → OrderNode → Arena
past_next a n = if n.prev == nil then a else point_next a n.prev n.next (get_elem? a n.prev)

abbrev pub past_prev : Arena → OrderNode → Arena
past_prev a n = if n.next == nil then a else point_prev a n.next n.prev (get_elem? a n.next)

unfoldable pub removed : Arena → ℕ → OrderNode → Arena
removed a i n = past_prev (past_next (freed a i) n) n

pub length-past_next : (a : Arena) (n : OrderNode) → length (past_next a n) ≡ length a
length-past_next a n = go (get_elem? a n.prev) refl
  where
    go :
        (g : Option (Option OrderNode)) → get_elem? a n.prev ≡ g → length (past_next a n) ≡ length a
    go none e = ground arith
    go (some none) e = ground arith
    go (some (some m)) e = ground (arith, length-set a n.prev (some (record m { next = n.next })))

length-past_prev : (a : Arena) (n : OrderNode) → length (past_prev a n) ≡ length a
length-past_prev a n = go (get_elem? a n.next) refl
  where
    go :
        (g : Option (Option OrderNode)) → get_elem? a n.next ≡ g → length (past_prev a n) ≡ length a
    go none e = ground arith
    go (some none) e = ground arith
    go (some (some m)) e = ground (arith, length-set a n.next (some (record m { prev = n.prev })))

pub length-removed : (a : Arena) (i : ℕ) (n : OrderNode) → length (removed a i n) ≡ length a
unfolding removed
length-removed a i n =
    length-past_prev (past_next (freed a i) n) n
    ∙ length-past_next (freed a i) n
    ∙ length-set a i none

pub get_elem?-past_next :
    (a : Arena) (n : OrderNode) (j : ℕ)
    → (n.prev ≢ nil → j ≢ n.prev)
    → get_elem? (past_next a n) j ≡ get_elem? a j
get_elem?-past_next a n j h = go (get_elem? a n.prev) refl
  where
    go :
        (g : Option (Option OrderNode))
        → get_elem? a n.prev ≡ g
        → get_elem? (past_next a n) j ≡ get_elem? a j
    go none e = ground arith
    go (some none) e = ground arith
    go (some (some m)) e = ground (
      arith,
      get_elem?-set a n.prev j (some (record m { next = n.next }))
          (lt-length_of_get a n.prev (some m) e),
    )

get_elem?-past_prev :
    (a : Arena) (n : OrderNode) (j : ℕ)
    → (n.next ≢ nil → j ≢ n.next)
    → get_elem? (past_prev a n) j ≡ get_elem? a j
get_elem?-past_prev a n j h = go (get_elem? a n.next) refl
  where
    go :
        (g : Option (Option OrderNode))
        → get_elem? a n.next ≡ g
        → get_elem? (past_prev a n) j ≡ get_elem? a j
    go none e = ground arith
    go (some none) e = ground arith
    go (some (some m)) e = ground (
      arith,
      get_elem?-set a n.next j (some (record m { prev = n.prev }))
          (lt-length_of_get a n.next (some m) e),
    )

-- Links are no part of an order.
order_at-past_next : (a : Arena) (n : OrderNode) (j : ℕ) → order_at (past_next a n) j ≡ order_at a j
order_at-past_next a n j = go (get_elem? a n.prev) refl
  where
    go :
        (g : Option (Option OrderNode))
        → get_elem? a n.prev ≡ g
        → order_at (past_next a n) j ≡ order_at a j
    go none e = ground arith
    go (some none) e = ground arith
    go (some (some m)) e = elim (Bool-cases (n.prev == j)) [
      | inl same ↦
          let q : n.prev ≡ j = ground arith in
          let f =
            get_elem?-set a n.prev j (some (record m { next = n.next }))
              (lt-length_of_get a n.prev (some m) e) in
          ground (arith, f, ap (get_elem? a) q)
      | inr other ↦
          let f =
            get_elem?-set a n.prev j (some (record m { next = n.next }))
              (lt-length_of_get a n.prev (some m) e) in
          ground (arith, f)
    ]

order_at-past_prev : (a : Arena) (n : OrderNode) (j : ℕ) → order_at (past_prev a n) j ≡ order_at a j
order_at-past_prev a n j = go (get_elem? a n.next) refl
  where
    go :
        (g : Option (Option OrderNode))
        → get_elem? a n.next ≡ g
        → order_at (past_prev a n) j ≡ order_at a j
    go none e = ground arith
    go (some none) e = ground arith
    go (some (some m)) e = elim (Bool-cases (n.next == j)) [
      | inl same ↦
          let q : n.next ≡ j = ground arith in
          let f =
            get_elem?-set a n.next j (some (record m { prev = n.prev }))
              (lt-length_of_get a n.next (some m) e) in
          ground (arith, f, ap (get_elem? a) q)
      | inr other ↦
          let f =
            get_elem?-set a n.next j (some (record m { prev = n.prev }))
              (lt-length_of_get a n.next (some m) e) in
          ground (arith, f)
    ]

-- The order in the slot goes, and no other changes.
pub order_at-removed :
    (a : Arena) (i : ℕ) (n : OrderNode) (j : ℕ)
    → i < length a
    → order_at (removed a i n) j ≡ (if i == j then none else order_at a j)
unfolding removed
order_at-removed a i n j h =
    order_at-past_prev (past_next (freed a i) n) n j
    ∙ order_at-past_next (freed a i) n j
    ∙ ground (arith, get_elem?-set a i j none h)

-- Slots other than the node's and its neighbours' keep their nodes.
pub get_elem?-removed :
    (a : Arena) (i : ℕ) (n : OrderNode) (j : ℕ)
    → i < length a
    → i ≢ j
    → (n.prev ≢ nil → j ≢ n.prev)
    → (n.next ≢ nil → j ≢ n.next)
    → get_elem? (removed a i n) j ≡ get_elem? a j
unfolding removed
get_elem?-removed a i n j h ne hp hn =
    get_elem?-past_prev (past_next (freed a i) n) n j hn
    ∙ get_elem?-past_next (freed a i) n j hp
    ∙ ground (arith, get_elem?-set a i j none h)
