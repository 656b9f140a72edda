-- ===== src/Clob/Levels/Laws.antt =====
-- The maps of crates/clob/src/lib.rs keep their order: keys from the best price on, and no empty queue.
use cerdic.Prelude.{
  ℕ, ◌≡◌, ◌≢◌, refl, ap, subst, ◌∙◌, inl, inr, true, false, Bool-cases, none, some, List, [], ◌∷◌,
  arith, push, lookup, insert, erase, lookup-nil, lookup-cons, In, ◌⊎◌, ◌==◌, if◌then◌else◌,
}
use cerdic.Common.{Side, long, short}
use cerdic.Clob.Types.{Order}
use cerdic.Clob.Levels.{Queue, Levels, keys, before, push_level, or_empty}

-- Every key comes after `p`.
abbrev pub After : Side → ℕ → Levels → Type 0
After s p [] = Unit {0}
After s p ((q, os) ∷ ls) = (before s p q ≡ true) × After s p ls

abbrev pub Ordered : Side → Levels → Type 0
Ordered s [] = Unit {0}
Ordered s ((p, os) ∷ ls) = (os ≢ []) × After s p ls × Ordered s ls

before_trans :
    (s : Side) (p q r : ℕ) → before s p q ≡ true → before s q r ≡ true → before s p r ≡ true
before_trans long p q r a b = ground arith
before_trans short p q r a b = ground arith

before_total : (s : Side) (p q : ℕ) → (p == q) ≡ false → before s p q ≡ false → before s q p ≡ true
before_total long p q a b = ground arith
before_total short p q a b = ground arith

before_irrefl : (s : Side) (p q : ℕ) → before s p q ≡ true → (p == q) ≡ false
before_irrefl long p q a = ground arith
before_irrefl short p q a = ground arith

pub After-trans :
    (s : Side) (p q : ℕ) (ls : Levels) → before s p q ≡ true → After s q ls → After s p ls
After-trans s p q [] h a = tt
After-trans s p q ((r, os) ∷ ls) h a = (before_trans s p q r h a.0, After-trans s p q ls h a.1)

pub lookup-After : (s : Side) (p : ℕ) (ls : Levels) → After s p ls → lookup p ls ≡ none
lookup-After s p [] a = lookup-nil p
lookup-After s p ((q, os) ∷ ls) a =
    lookup-cons p q os ls ∙ rw (before_irrefl s p q a.0) (lookup-After s p ls a.1)

pub push-ne_nil : (os : Queue) (o : Order) → push os o ≢ []
push-ne_nil [] o e = cc
push-ne_nil (x ∷ os) o e = cc

After-push_level :
    (s : Side) (q p : ℕ) (o : Order) (ls : Levels)
    → before s q p ≡ true
    → After s q ls
    → After s q (push_level s p o ls)
unfolding push_level
After-push_level s q p o [] h a = (h, tt)
After-push_level s q p o ((r, os) ∷ ls) h a = elim (Bool-cases (p == r)) [
  | inl e ↦ rw e a
  | inr e ↦ elim (Bool-cases (before s p r)) [
    | inl f ↦ rw (e, f) (h, a)
    | inr f ↦ rw (e, f) (a.0, After-push_level s q p o ls h a.1)
  ]
]

after_key :
    (k p q : ℕ) (ks ks' : List ℕ)
    → (In k ks' → (k ≡ p) ⊎ In k ks)
    → (k ≡ q) ⊎ In k ks'
    → (k ≡ p) ⊎ ((k ≡ q) ⊎ In k ks)
after_key k p q ks ks' known (inl e) = inr (inl e)
after_key k p q ks ks' known (inr n) = elim (known n) [ inl e ↦ inl e | inr n' ↦ inr (inr n') ]

pub In-keys-push_level :
    (s : Side) (p : ℕ) (o : Order) (ls : Levels) (k : ℕ)
    → In k (keys (push_level s p o ls))
    → (k ≡ p) ⊎ In k (keys ls)
unfolding push_level
In-keys-push_level s p o [] k (inl e) = inl e
In-keys-push_level s p o [] k (inr m) = absurd m
In-keys-push_level s p o ((q, os) ∷ ls) k m = elim (Bool-cases (p == q)) [
  | inl e ↦ inr (rw e at m)
  | inr e ↦ elim (Bool-cases (before s p q)) [
    | inl f ↦ (rw (e, f) at m)
    | inr f ↦
        after_key k p q (keys ls) (keys (push_level s p o ls)) (In-keys-push_level s p o ls k)
          (rw (e, f) at m)
  ]
]

pub push_level-Ordered :
    (s : Side) (p : ℕ) (o : Order) (ls : Levels) → Ordered s ls → Ordered s (push_level s p o ls)
unfolding push_level
push_level-Ordered s p o [] d = (λ e. cc, tt, tt)
push_level-Ordered s p o ((q, os) ∷ ls) d = elim (Bool-cases (p == q)) [
  | inl e ↦ rw e (push-ne_nil os o, d.1, d.2)
  | inr e ↦ elim (Bool-cases (before s p q)) [
    | inl f ↦ rw (e, f) ((λ h. cc), (f, After-trans s p q ls f d.1), d)
    | inr f ↦
        rw (e, f)
          (
            d.0,
            After-push_level s q p o ls (before_total s p q e f) d.1,
            push_level-Ordered s p o ls d.2,
          )
  ]
]

pub lookup-push_level :
    (s : Side) (p : ℕ) (o : Order) (ls : Levels) (p' : ℕ)
    → Ordered s ls
    → lookup p' (push_level s p o ls)
      ≡ (if p' == p then some (push (or_empty (lookup p ls)) o) else lookup p' ls)
unfolding push_level
lookup-push_level s p o [] p' d = lookup-cons p' p (o ∷ []) [] ∙ rw (lookup-nil p) refl
lookup-push_level s p o ((q, os) ∷ ls) p' d = elim (Bool-cases (p == q)) [
  | inl e ↦
      let same : p ≡ q = ground arith in
      rw e (
        ground
          (arith, lookup-cons p' q (push os o) ls, lookup-cons p q os ls, lookup-cons p' q os ls))
  | inr e ↦ elim (Bool-cases (before s p q)) [
    | inl f ↦
        rw (e, f)
          (ground (
            arith,
            lookup-cons p' p (o ∷ []) ((q, os) ∷ ls),
            lookup-After s p ((q, os) ∷ ls) (f, After-trans s p q ls f d.1),
          ))
    | inr f ↦
        rw (e, f)
          (ground (
            arith,
            lookup-cons p' q os (push_level s p o ls),
            lookup-cons p' q os ls,
            lookup-cons p q os ls,
            lookup-push_level s p o ls p' d.2,
          ))
  ]
]

pub lookup-push_away :
    (s : Side) (p : ℕ) (o : Order) (ls : Levels) (p' : ℕ)
    → Ordered s ls
    → p ≢ p'
    → lookup p' (push_level s p o ls) ≡ lookup p' ls
lookup-push_away s p o ls p' d ne = ground (arith, lookup-push_level s p o ls p' d)

After-erase : (s : Side) (q p : ℕ) (ls : Levels) → After s q ls → After s q (erase p ls)
unfolding erase
After-erase s q p [] a = tt
After-erase s q p ((r, os) ∷ ls) a = elim (Bool-cases (p == r)) [
  | inl e ↦ rw e (After-erase s q p ls a.1)
  | inr e ↦ rw e (a.0, After-erase s q p ls a.1)
]

pub erase-Ordered : (s : Side) (p : ℕ) (ls : Levels) → Ordered s ls → Ordered s (erase p ls)
unfolding erase
erase-Ordered s p [] d = tt
erase-Ordered s p ((q, os) ∷ ls) d = elim (Bool-cases (p == q)) [
  | inl e ↦ rw e (erase-Ordered s p ls d.2)
  | inr e ↦ rw e (d.0, After-erase s q p ls d.1, erase-Ordered s p ls d.2)
]

After-insert :
    (s : Side) (q p : ℕ) (os : Queue) (ls : Levels)
    → lookup p ls ≢ none
    → After s q ls
    → After s q (insert p os ls)
unfolding insert
After-insert s q p os [] h a = absurd (h (lookup-nil p))
After-insert s q p os ((r, xs) ∷ ls) h a = elim (Bool-cases (p == r)) [
  | inl e ↦ let same : p ≡ r = ground arith in rw e (ap (before s q) same ∙ a.0, a.1)
  | inr e ↦ rw e (a.0, After-insert s q p os ls (λ n. h (lookup-cons p r xs ls ∙ rw e n)) a.1)
]

-- A write at a key that is there.
pub insert-Ordered :
    (s : Side) (p : ℕ) (os : Queue) (ls : Levels)
    → os ≢ []
    → lookup p ls ≢ none
    → Ordered s ls
    → Ordered s (insert p os ls)
unfolding insert
insert-Ordered s p os [] full h d = absurd (h (lookup-nil p))
insert-Ordered s p os ((q, xs) ∷ ls) full h d = elim (Bool-cases (p == q)) [
  | inl e ↦
      let same : q ≡ p = ground arith in rw e (full, subst (λ (x : ℕ). After s x ls) same d.1, d.2)
  | inr e ↦
      let there : lookup p ls ≢ none = λ n. h (lookup-cons p q xs ls ∙ rw e n) in
      rw e (d.0, After-insert s q p os ls there d.1, insert-Ordered s p os ls full there d.2)
]
