-- ===== src/Clob/Removal/Cancel.antt =====
-- What `cancel_order` of crates/clob/src/lib.rs promises, alone and after `process_order`.
use cerdic.Prelude.{
  ℕ, ◌<◌, ◌≡◌, ◌≢◌, refl, sym, subst, ap, ◌∙◌, inl, inr, ◌⊎◌, false, Bool-cases, none, some, List,
  [], ◌∷◌, arith, In, NotIn, NotIn-of_all, Dict, lookup, lookup-nil, lookup-cons, lookup-erase,
  insert, erase, ◌==◌, push, Option-cases, In_tail, some_injective,
}
use cerdic.Common.{Side, long, short}
use cerdic.Clob.Types.{
  Order, quantity, validate, i128_end, MatchResult, ok, Answer, done, failed, order_not_found,
}
use cerdic.Clob.Levels.{Queue, Levels, ids, keys}
use cerdic.Clob.State.{BookLocation, OrderBook, levels, queue_at, find_order, order}
use cerdic.Clob.Orders.{put_queue, process_order, cancel_order}
use cerdic.Clob.Index.{Agrees, Queues, Elsewhere, at, In-ids-push_last}
use cerdic.Clob.Invariant.{IsValid, Uncrossed}
use cerdic.Clob.Writes.{swept_book, swept_index, swept_queue}
use cerdic.Clob.Process.{left_of, remainder, process_order-Processed}
use cerdic.Clob.Process.Uncrossing.{swept_book-Uncrossed}
use cerdic.Clob.Removal.{
  there, removed_absent, without, without-push, taken_at, levels_after, removed_book, removed_queue,
  removed_away, removed_book-IsValid, cancels, looks_up,
}

In-keys-erase : (p k : ℕ) (ls : Levels) → In k (keys (erase p ls)) → In k (keys ls)
unfolding erase
In-keys-erase p k [] m = m
In-keys-erase p k ((q, os) ∷ ls) m = elim (Bool-cases (p == q)) [
  | inl e ↦ inr (In-keys-erase p k ls (rw e at m))
  | inr e ↦ In_tail k q (In-keys-erase p k ls) (rw e at m)
]

In-keys-insert :
    (p k : ℕ) (os : Queue) (ls : Levels)
    → lookup p ls ≢ none
    → In k (keys (insert p os ls))
    → In k (keys ls)
unfolding insert
In-keys-insert p k os [] h m = absurd (h (lookup-nil p))
In-keys-insert p k os ((q, xs) ∷ ls) h m = elim (Bool-cases (p == q)) [
  | inl e ↦
      let same : q ≡ p = ground arith in
      subst (λ (x : ℕ). (k ≡ x) ⊎ In k (keys ls)) (sym same) (rw e at m)
  | inr e ↦
      In_tail k q (In-keys-insert p k os ls (λ n. h (lookup-cons p q xs ls ∙ rw e n))) (rw e at m)
]

keys-put_queue :
    (p k : ℕ) (os : Queue) (ls : Levels)
    → lookup p ls ≢ none
    → In k (keys (put_queue p os ls))
    → In k (keys ls)
keys-put_queue p k [] ls h m = In-keys-erase p k ls m
keys-put_queue p k (o ∷ os) ls h m = In-keys-insert p k (o ∷ os) ls h m

find_order-push :
    (os : Queue) (o : Order) → NotIn o.id (ids os) → find_order o.id (push os o) ≡ some o
unfolding find_order
find_order-push [] o n = ground arith
find_order-push (x ∷ os) o n =
    let other : (x.id == o.id) ≡ false = ground arith in rw other (find_order-push os o n.1)

-- On a valid book, `cancel_order` of a live id gives the order that `order` finds, and leaves a valid
-- book without the id: its queue keeps the others in their order, and no other queue changes.
pub cancel_order-without :
    (b : OrderBook) (i : ℕ) (s : Side) (p : ℕ)
    → IsValid b
    → lookup i b.index ≡ some (at s p)
    → (removed : Order) × (b' : OrderBook) × (cancel_order b i ≡ ok (done removed, b'))
      × (order b i ≡ some removed)
      × IsValid b'
      × (lookup i b'.index ≡ none)
      × (queue_at b' s p ≡ without i (queue_at b s p))
      × Elsewhere (queue_at b) (queue_at b') s p
cancel_order-without b i s p v known = (
  (taken_at b v i s p known).removed,
  removed_book b v i s p known,
  cancels b v i s p known,
  looks_up b v i s p known,
  removed_book-IsValid b v i s p known,
  ap (lookup i) (swept_index b s (levels_after b v i s p known) (erase i b.index))
      ∙ ground (arith, lookup-erase i i b.index),
  swept_queue b s (levels_after b v i s p known) (erase i b.index) s p
      ∙ removed_queue b v i s p known,
  λ x q ne.
      swept_queue b s (levels_after b v i s p known) (erase i b.index) x q
      ∙ removed_away b v i s p known x q ne,
)

swept_side-Uncrossed :
    (b : OrderBook) (s : Side) (ls : Levels) (ix : Dict BookLocation)
    → Uncrossed b
    → ((p : ℕ) → In p (keys ls) → In p (keys (levels b s)))
    → Uncrossed (swept_book b s ls ix)
swept_side-Uncrossed b long ls ix = swept_book-Uncrossed b short ls ix
swept_side-Uncrossed b short ls ix = swept_book-Uncrossed b long ls ix

missing :
    (b : OrderBook) (i : ℕ)
    → lookup i b.index ≡ none
    → cancel_order b i ≡ ok (failed (order_not_found i), b)
unfolding cancel_order
missing b i e = rw (cancel_order, e) refl

-- On a valid book, `cancel_order` ends without a panic for every id: a live one is removed, and one that
-- is not live is answered with `OrderNotFound` and changes nothing. The book stays valid, and is not
-- crossed if it was not.
pub cancel_order-Uncrossed :
    (b : OrderBook) (i : ℕ)
    → IsValid b
    → (answer : Answer Order) × (b' : OrderBook) × (cancel_order b i ≡ ok (answer, b'))
      × IsValid b'
      × (Uncrossed b → Uncrossed b')
      × (lookup i b'.index ≡ none)
      × (lookup i b.index ≡ none → (answer ≡ failed (order_not_found i)) × (b' ≡ b))
cancel_order-Uncrossed b i v = elim (Option-cases (lookup i b.index)) [
  | inl e ↦ (failed (order_not_found i), b, missing b i e, v, λ u. u, e, λ h. (refl, refl))
  | inr (l, e) ↦ (
    done (taken_at b v i l.side l.price e).removed,
    removed_book b v i l.side l.price e,
    cancels b v i l.side l.price e,
    removed_book-IsValid b v i l.side l.price e,
    λ u.
        swept_side-Uncrossed b l.side (levels_after b v i l.side l.price e) (erase i b.index) u
          (λ p m. keys-put_queue l.price p _ (levels b l.side) (there b v i l.side l.price e) m),
    removed_absent b v i l.side l.price e,
    λ h. absurd (ground arith),
  )
]

pub NotIn-queue_at :
    (ix : Dict BookLocation) (q : Queues) (g : Agrees ix q) (i : ℕ)
    → lookup i ix ≡ none
    → (s : Side) (p : ℕ) → NotIn i (ids (q s p))
NotIn-queue_at ix q g i fresh s p = NotIn-of_all i (ids (q s p)) (λ j m e.
    let known = g.indexed s p j m in let same = ap (λ (k : ℕ). lookup k ix) e in ground arith)

-- On a valid book, an order that `process_order` leaves resting is the one that `cancel_order` of its id
-- gives back, and then the queue of its side and price is what it was before.
pub cancel_order-process_order :
    (b : OrderBook) (o : Order)
    → IsValid b
    → validate o ≡ none
    → quantity o < i128_end
    → lookup o.id b.index ≡ none
    → left_of b o ≢ 0
    → (results : List MatchResult) × (b₁ : OrderBook) × (b₂ : OrderBook) × (process_order b o
        ≡ ok (results, b₁))
      × (cancel_order b₁ o.id ≡ ok (done (remainder b o), b₂))
      × (queue_at b₂ o.side o.price ≡ queue_at b o.side o.price)
cancel_order-process_order b o v checked small fresh ne =
    let r = process_order-Processed b o v checked small fresh in
    let os = queue_at b o.side o.price in
    let apart = NotIn-queue_at b.index (queue_at b) v.agrees o.id fresh o.side o.price in
    let known = r.valid.agrees.indexed o.side o.price o.id (
      subst (λ (x : Queue). In o.id (ids x)) (sym (r.rests ne))
        (In-ids-push_last o.id os (remainder b o) refl)) in
    let back = without-push os (remainder b o) apart in
    let found = find_order-push os (remainder b o) apart in
    let finds = (taken_at r.book_after r.valid o.id o.side o.price known).finds in
    let c = cancel_order-without r.book_after o.id o.side o.price r.valid known in
    let looked_up = looks_up r.book_after r.valid o.id o.side o.price known in
    let same : c.0 ≡ remainder b o =
      some_injective
        (sym c.3 ∙ looked_up ∙ sym finds ∙ ap (find_order o.id) (r.rests ne) ∙ found) in
    (
      r.results,
      r.book_after,
      c.1,
      r.runs,
      c.2 ∙ ap (λ x. ok (done x, c.1)) same,
      c.6 ∙ ap (without o.id) (r.rests ne) ∙ back,
    )
