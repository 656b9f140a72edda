-- ===== src/Clob/Index.antt =====
-- The index of crates/clob/src/lib.rs and the queues agree: what each change of a queue asks of it.
use cerdic.Prelude.{
  ℕ, ◌<◌, ◌≡◌, ◌≢◌, sym, subst, subst₂, ap, ◌∙◌, inl, inr, true, none, some, [], ◌∷◌, All, All-push,
  push, arith, In, NotIn, Distinct, delete, ne_of_NotIn, NotIn-of_all, NotIn-delete_self, In-delete,
  In-delete-In, ◌⊎◌, delete-Distinct, Dict, lookup, insert, erase, lookup-insert, lookup-erase,
  Bool-cases, ◌==◌,
}
use cerdic.Common.{Side, level_cases}
use cerdic.Clob.Types.{Order, quantity, side_agrees_with_size, i128_end}
use cerdic.Clob.Levels.{Queue, ids}
use cerdic.Clob.State.{BookLocation}

abbrev pub at : Side → ℕ → BookLocation
at s p = record { side = s; price = p }

-- An order that may stand in the queue of a side and a price.
pub record Fits (s : Side) (p : ℕ) (o : Order) : Type 0 where
  pub on_side : o.side ≡ s
  pub at_price : o.price ≡ p
  pub signed_right : side_agrees_with_size s o.size ≡ true
  pub in_range : quantity o < i128_end

abbrev pub Queues : Type 0
Queues = Side → ℕ → Queue

-- Each order fits its queue, no id stands twice, and the index is the map from ids to queues.
pub record Agrees (ix : Dict BookLocation) (q : Queues) : Type 0 where
  pub fitting : (s : Side) (p : ℕ) → All (Fits s p) (q s p)
  pub distinct : (s : Side) (p : ℕ) → Distinct (ids (q s p))
  pub indexed : (s : Side) (p i : ℕ) → In i (ids (q s p)) → lookup i ix ≡ some (at s p)
  pub queued : (s : Side) (p i : ℕ) → lookup i ix ≡ some (at s p) → In i (ids (q s p))

-- `q'` is `q` but for one queue.
abbrev pub Elsewhere : Queues → Queues → Side → ℕ → Type 0
Elsewhere q q' s p = (s' : Side) (p' : ℕ) → (s ≡ s' → p ≡ p' → ⊥) → q' s' p' ≡ q s' p'

pub at_apart : (s s' : Side) (p p' : ℕ) → at s p ≡ at s' p' → (s ≡ s' → p ≡ p' → ⊥) → ⊥
at_apart s s' p p' e ne =
    ne (ap (λ (l : BookLocation). l.side) e) (ap (λ (l : BookLocation). l.price) e)

-- To show something of every queue, show it of the changed one and of the others.
by_queue :
    (q q' : Queues) (s : Side) (p : ℕ) (P : Side → ℕ → Queue → Type 0)
    → Elsewhere q q' s p
    → P s p (q' s p)
    → ((s' : Side) (p' : ℕ) → (s ≡ s' → p ≡ p' → ⊥) → P s' p' (q s' p'))
    → (s' : Side) (p' : ℕ) → P s' p' (q' s' p')
by_queue q q' s p P away here there s' p' = elim (level_cases s s' p p') [
  | inl (es, ep) ↦ subst₂ (λ (x : Side) (y : ℕ). P x y (q' x y)) es ep here
  | inr ne ↦ subst (P s' p') (sym (away s' p' ne)) (there s' p' ne)
]

In-ids-push :
    (j : ℕ) (os : Queue) (o : Order) → In j (ids (push os o)) → (In j (ids os)) ⊎ (j ≡ o.id)
In-ids-push j [] o (inl e) = inr e
In-ids-push j [] o (inr m) = absurd m
In-ids-push j (x ∷ os) o (inl e) = inl (inl e)
In-ids-push j (x ∷ os) o (inr m) = elim (In-ids-push j os o m) [
  | inl m' ↦ inl (inr m')
  | inr e ↦ inr e
]

In-ids-push_left : (j : ℕ) (os : Queue) (o : Order) → In j (ids os) → In j (ids (push os o))
In-ids-push_left j [] o m = absurd m
In-ids-push_left j (x ∷ os) o (inl e) = inl e
In-ids-push_left j (x ∷ os) o (inr m) = inr (In-ids-push_left j os o m)

pub In-ids-push_last : (j : ℕ) (os : Queue) (o : Order) → j ≡ o.id → In j (ids (push os o))
In-ids-push_last j [] o e = inl e
In-ids-push_last j (x ∷ os) o e = inr (In-ids-push_last j os o e)

ids-push-Distinct :
    (os : Queue) (o : Order) → Distinct (ids os) → NotIn o.id (ids os) → Distinct (ids (push os o))
ids-push-Distinct [] o d n = (tt, tt)
ids-push-Distinct (x ∷ os) o d n = (
  NotIn-of_all x.id (ids (push os o)) (λ j m e. elim (In-ids-push j os o m) [
    | inl m' ↦ ne_of_NotIn x.id j (ids os) d.0 m' e
    | inr e' ↦ n.0 (sym (e ∙ e'))
  ]),
  ids-push-Distinct os o d.1 n.1,
)

module _ (ix : Dict BookLocation) (q q' : Queues) (g : Agrees ix q) (s : Side) (p : ℕ)
    (away : Elsewhere q q' s p) where
  -- A change of an order's size.
  pub Agrees-edit : All (Fits s p) (q' s p) → ids (q' s p) ≡ ids (q s p) → Agrees ix q'
  Agrees-edit fits same = record {
    fitting = by_queue q q' s p (λ x y os. All (Fits x y) os) away fits (λ x y ne. g.fitting x y);
    distinct =
        by_queue q q' s p (λ x y os. Distinct (ids os)) away
          (subst Distinct (sym same) (g.distinct s p)) (λ x y ne. g.distinct x y);
    indexed =
        by_queue q q' s p (λ x y os. (i : ℕ) → In i (ids os) → lookup i ix ≡ some (at x y)) away
          (λ i m. g.indexed s p i (subst (In i) same m)) (λ x y ne. g.indexed x y);
    queued =
        by_queue q q' s p (λ x y os. (i : ℕ) → lookup i ix ≡ some (at x y) → In i (ids os)) away
          (λ i e. subst (In i) (sym same) (g.queued s p i e)) (λ x y ne. g.queued x y);
  }

  -- The removal of an order.
  pub Agrees-remove :
      (i : ℕ)
      → In i (ids (q s p))
      → All (Fits s p) (q' s p)
      → ids (q' s p) ≡ delete i (ids (q s p))
      → Agrees (erase i ix) q'
  Agrees-remove i m fits less = record {
    fitting = by_queue q q' s p (λ x y os. All (Fits x y) os) away fits (λ x y ne. g.fitting x y);
    distinct =
        by_queue q q' s p (λ x y os. Distinct (ids os)) away
          (subst Distinct (sym less) (delete-Distinct i (ids (q s p)) (g.distinct s p)))
          (λ x y ne. g.distinct x y);
    indexed =
        by_queue q q' s p
          (λ x y os. (j : ℕ) → In j (ids os) → lookup j (erase i ix) ≡ some (at x y)) away here
          there;
    queued =
        by_queue q q' s p
          (λ x y os. (j : ℕ) → lookup j (erase i ix) ≡ some (at x y) → In j (ids os)) away back
          (λ x y ne j e. g.queued x y j (ground (arith, lookup-erase j i ix)));
  }
    where
      here : (j : ℕ) → In j (ids (q' s p)) → lookup j (erase i ix) ≡ some (at s p)
      here j m' =
          let m'' = subst (In j) less m' in
          let ne =
            ne_of_NotIn i j (delete i (ids (q s p)))
              (NotIn-delete_self i (ids (q s p)) (g.distinct s p)) m'' in
          ground (arith, lookup-erase j i ix, g.indexed s p j (In-delete-In j i (ids (q s p)) m''))

      there :
          (x : Side) (y : ℕ)
          → (s ≡ x → p ≡ y → ⊥)
          → (j : ℕ) → In j (ids (q x y))
          → lookup j (erase i ix) ≡ some (at x y)
      there x y ne j m' = elim (Bool-cases (j == i)) [
        | inl e ↦
            let same : j ≡ i = ground arith in
            absurd (
              at_apart s x p y
                (ground
                  (arith, g.indexed s p i m, g.indexed x y j m', ap (λ (k : ℕ). lookup k ix) same))
                ne)
        | inr e ↦ ground (arith, lookup-erase j i ix, g.indexed x y j m')
      ]

      back : (j : ℕ) → lookup j (erase i ix) ≡ some (at s p) → In j (ids (q' s p))
      back j e =
          let ne : i ≢ j = λ h. ground (arith, lookup-erase j i ix) in
          subst (In j) (sym less)
            (In-delete j i (ids (q s p)) (g.queued s p j (ground (arith, lookup-erase j i ix))) ne)

  -- A new order at the back.
  pub Agrees-add :
      (o : Order)
      → lookup o.id ix ≡ none
      → Fits s p o
      → q' s p ≡ push (q s p) o
      → Agrees (insert o.id (at s p) ix) q'
  Agrees-add o fresh fits more = record {
    fitting =
        by_queue q q' s p (λ x y os. All (Fits x y) os) away
          (subst (All (Fits s p)) (sym more) (All-push (Fits s p) (q s p) o (g.fitting s p) fits))
          (λ x y ne. g.fitting x y);
    distinct =
        by_queue q q' s p (λ x y os. Distinct (ids os)) away
          (subst (λ (os : Queue). Distinct (ids os)) (sym more)
            (ids-push-Distinct (q s p) o (g.distinct s p) (not_in s p)))
          (λ x y ne. g.distinct x y);
    indexed =
        by_queue q q' s p
          (λ x y os. (j : ℕ) → In j (ids os) → lookup j (insert o.id (at s p) ix) ≡ some (at x y))
          away
          (λ j m. here j (In-ids-push j (q s p) o (subst (λ (os : Queue). In j (ids os)) more m)))
          (λ x y ne j m.
            let other = ne_of_NotIn o.id j (ids (q x y)) (not_in x y) m in
            ground (arith, lookup-insert j o.id (at s p) ix, g.indexed x y j m));
    queued =
        by_queue q q' s p
          (λ x y os. (j : ℕ) → lookup j (insert o.id (at s p) ix) ≡ some (at x y) → In j (ids os))
          away (λ j e. subst (λ (os : Queue). In j (ids os)) (sym more) (back j e)) there;
  }
    where
      not_in : (x : Side) (y : ℕ) → NotIn o.id (ids (q x y))
      not_in x y = NotIn-of_all o.id (ids (q x y)) (λ j m e.
          let known = g.indexed x y j m in let same = ap (λ (k : ℕ). lookup k ix) e in ground arith)

      here :
          (j : ℕ)
          → (In j (ids (q s p))) ⊎ (j ≡ o.id)
          → lookup j (insert o.id (at s p) ix) ≡ some (at s p)
      here j (inl m) = ground (arith, lookup-insert j o.id (at s p) ix, g.indexed s p j m)
      here j (inr e) = ground (arith, lookup-insert j o.id (at s p) ix)

      back :
          (j : ℕ) → lookup j (insert o.id (at s p) ix) ≡ some (at s p) → In j (ids (push (q s p) o))
      back j e = elim (Bool-cases (j == o.id)) [
        | inl h ↦ In-ids-push_last j (q s p) o (ground arith)
        | inr h ↦
            In-ids-push_left j (q s p) o
              (g.queued s p j (ground (arith, lookup-insert j o.id (at s p) ix)))
      ]

      there :
          (x : Side) (y : ℕ)
          → (s ≡ x → p ≡ y → ⊥)
          → (j : ℕ) → lookup j (insert o.id (at s p) ix) ≡ some (at x y)
          → In j (ids (q x y))
      there x y ne j e = elim (Bool-cases (j == o.id)) [
        | inl h ↦ absurd (at_apart s x p y (ground (arith, lookup-insert j o.id (at s p) ix)) ne)
        | inr h ↦ g.queued x y j (ground (arith, lookup-insert j o.id (at s p) ix))
      ]
