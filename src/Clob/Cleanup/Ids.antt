-- ===== src/Clob/Cleanup/Ids.antt =====
-- The ids that `cleanup_expired` of crates/clob/src/lib.rs collects, and what their removal leaves of a
-- queue: the orders that are not expired.
use cerdic.Prelude.{
  ℕ, ◌≡◌, refl, sym, subst, ap, ◌∙◌, inl, inr, ◌⊎◌, true, false, Bool, Bool-cases, some, List, [],
  ◌∷◌, arith, In, NotIn, ne_of_NotIn, Distinct, delete-Distinct, lookup, lookup-nil, lookup-cons,
  ◌==◌, leb, if◌then◌else◌, eq_of_test, In_tail, In-append, In-append_left, In-append_right,
}
use cerdic.Common.{Side}
use cerdic.Clob.Levels.{Queue, Levels, ids, or_empty}
use cerdic.Clob.Levels.Laws.{Ordered, lookup-After}
use cerdic.Clob.Orders.{expired_in, expired_ids}
use cerdic.Clob.Removal.{without, ids-without}

-- The orders of a queue that are not expired.
abbrev pub unexpired : ℕ → Queue → Queue
unexpired block [] = []
unexpired block (o ∷ os) =
    let rest = unexpired block os in if leb o.expiry_block block then rest else o ∷ rest

abbrev pub without_all : List ℕ → Queue → Queue
without_all [] os = os
without_all (i ∷ is) os = without_all is (without i os)

abbrev pub member : ℕ → List ℕ → Bool
member i [] = false
member i (j ∷ js) = let rest = member i js in if i == j then true else rest

abbrev pub keep : List ℕ → Queue → Queue
keep is [] = []
keep is (o ∷ os) = let rest = keep is os in if member o.id is then rest else o ∷ rest

keep-nil : (os : Queue) → keep [] os ≡ os
keep-nil [] = refl
keep-nil (o ∷ os) = ap (◌∷◌ o) (keep-nil os)

keep-NotIn : (i : ℕ) (is : List ℕ) (os : Queue) → NotIn i (ids os) → keep (i ∷ is) os ≡ keep is os
keep-NotIn i is [] n = refl
keep-NotIn i is (o ∷ os) n =
    let other : (o.id == i) ≡ false = ground arith in
    elim (Bool-cases (member o.id is)) [
      | inl m ↦ rw (other, m) (keep-NotIn i is os n.1)
      | inr m ↦ rw (other, m) (ap (◌∷◌ o) (keep-NotIn i is os n.1))
    ]

keep-without :
    (i : ℕ) (is : List ℕ) (os : Queue)
    → Distinct (ids os)
    → keep is (without i os) ≡ keep (i ∷ is) os
keep-without i is [] d = refl
keep-without i is (o ∷ os) d = elim (Bool-cases (o.id == i)) [
  | inl e ↦
      let same : o.id ≡ i = eq_of_test o.id i e in
      rw e (sym (keep-NotIn i is os (subst (λ (k : ℕ). NotIn k (ids os)) same d.0)))
  | inr e ↦ elim (Bool-cases (member o.id is)) [
    | inl m ↦ rw (e, m) (keep-without i is os d.1)
    | inr m ↦ rw (e, m) (ap (◌∷◌ o) (keep-without i is os d.1))
  ]
]

pub without_all-keep :
    (is : List ℕ) (os : Queue) → Distinct (ids os) → without_all is os ≡ keep is os
without_all-keep [] os d = sym (keep-nil os)
without_all-keep (i ∷ is) os d =
    without_all-keep is (without i os)
      (subst Distinct (sym (ids-without i os)) (delete-Distinct i (ids os) d))
    ∙ keep-without i is os d

pub member-In : (i : ℕ) (is : List ℕ) → In i is → member i is ≡ true
member-In i [] m = absurd m
member-In i (j ∷ js) (inl e) = ground arith
member-In i (j ∷ js) (inr m) = ground (arith, member-In i js m)

pub In-member : (i : ℕ) (is : List ℕ) → member i is ≡ true → In i is
In-member i [] h = cc
In-member i (j ∷ js) h = elim (Bool-cases (i == j)) [
  | inl e ↦ inl (eq_of_test i j e)
  | inr e ↦ inr (In-member i js (rw e at h))
]

pub In-expired_in : (block i : ℕ) (os : Queue) → In i (expired_in block os) → In i (ids os)
unfolding expired_in
In-expired_in block i [] m = m
In-expired_in block i (o ∷ os) m = elim (Bool-cases (leb o.expiry_block block)) [
  | inl e ↦ In_tail i o.id (In-expired_in block i os) (rw e at m)
  | inr e ↦ inr (In-expired_in block i os (rw e at m))
]

-- The orders that go are the expired ones, where the ids of a queue that are collected are those of its
-- expired orders.
pub keep-unexpired :
    (block : ℕ) (is : List ℕ) (os : Queue)
    → Distinct (ids os)
    → ((i : ℕ) → In i (expired_in block os) → member i is ≡ true)
    → ((i : ℕ) → In i (ids os) → member i is ≡ true → In i (expired_in block os))
    → keep is os ≡ unexpired block os
unfolding expired_in
keep-unexpired block is [] d f g = refl
keep-unexpired block is (o ∷ os) d f g = elim (Bool-cases (leb o.expiry_block block)) [
  | inl e ↦
      let here : In o.id (expired_in block (o ∷ os)) = rw e (inl refl) in
      let tail =
        keep-unexpired block is os d.1 (λ i m. f i (rw e (inr m)))
          (λ i m h. other i m (rw e at g i (inr m) h)) in
      rw (e, f o.id here) tail
  | inr e ↦
      let gone : member o.id is ≡ false = elim (Bool-cases (member o.id is)) [
        | inl h ↦ absurd (
            ne_of_NotIn o.id o.id (ids os) d.0
              (In-expired_in block o.id os (rw e at g o.id (inl refl) h)) refl)
        | inr h ↦ h
      ] in
      let tail =
        keep-unexpired block is os d.1 (λ i m. f i (rw e m)) (λ i m h. rw e at g i (inr m) h) in
      rw (e, gone) (ap (◌∷◌ o) tail)
]
  where
    other :
        (i : ℕ)
        → In i (ids os)
        → (i ≡ o.id) ⊎ In i (expired_in block os)
        → In i (expired_in block os)
    other i m (inl same) = absurd (ne_of_NotIn o.id i (ids os) d.0 m (sym same))
    other i m (inr n) = n

-- The ids that a side gives are those of its queues.
pub expired_ids-level :
    (s : Side) (block i : ℕ) (ls : Levels)
    → Ordered s ls
    → In i (expired_ids block ls)
    → (p : ℕ) × In i (expired_in block (or_empty (lookup p ls)))
unfolding expired_ids expired_in
expired_ids-level s block i [] d m = absurd m
expired_ids-level s block i ((q, os) ∷ ls) d m =
    elim (In-append i (expired_in block os) (expired_ids block ls) m) [
      | inl n ↦ (
        q,
        subst (λ (x : Queue). In i (expired_in block x))
            (sym (ground (arith, lookup-cons q q os ls))) n,
      )
      | inr n ↦ later (expired_ids-level s block i ls d.2 n)
    ]
  where
    later :
        (p : ℕ) × In i (expired_in block (or_empty (lookup p ls)))
        → (p : ℕ) × In i (expired_in block (or_empty (lookup p ((q, os) ∷ ls))))
    later (p, n) = elim (Bool-cases (p == q)) [
      | inl e ↦
          let same : p ≡ q = eq_of_test p q e in
          let none_there : or_empty (lookup p ls) ≡ [] =
            ap or_empty (ap (λ (k : ℕ). lookup k ls) same ∙ lookup-After s q ls d.1) in
          absurd (subst (λ (x : Queue). In i (expired_in block x)) none_there n)
      | inr e ↦
          let as_before : lookup p ((q, os) ∷ ls) ≡ lookup p ls =
            lookup-cons p q os ls ∙ rw e refl in
          (p, subst (λ (x : Queue). In i (expired_in block x)) (sym (ap or_empty as_before)) n)
    ]

pub level-expired_ids :
    (block i p : ℕ) (ls : Levels)
    → In i (expired_in block (or_empty (lookup p ls)))
    → In i (expired_ids block ls)
unfolding expired_ids expired_in
level-expired_ids block i p [] m =
    absurd (subst (λ (x : Queue). In i (expired_in block x)) (ap or_empty (lookup-nil p)) m)
level-expired_ids block i p ((q, os) ∷ ls) m = elim (Bool-cases (p == q)) [
  | inl e ↦
      let found : lookup p ((q, os) ∷ ls) ≡ some os = lookup-cons p q os ls ∙ rw e refl in
      In-append_left i (expired_in block os) (expired_ids block ls)
        (subst (λ (x : Queue). In i (expired_in block x)) (ap or_empty found) m)
  | inr e ↦
      let as_before : lookup p ((q, os) ∷ ls) ≡ lookup p ls = lookup-cons p q os ls ∙ rw e refl in
      In-append_right i (expired_in block os) (expired_ids block ls) (
        level-expired_ids block i p ls
          (subst (λ (x : Queue). In i (expired_in block x)) (ap or_empty as_before) m))
]
