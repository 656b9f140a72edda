-- ===== src/Clob/Cleanup.antt =====
-- `cleanup_expired` of crates/clob/src/lib.rs on a valid book: the expired orders go, the others stay.
pub mod Ids
use cerdic.Prelude.{
  ℕ, ◌≡◌, ◌≢◌, refl, sym, subst, subst₂, ap, ◌∙◌, inl, inr, ◌⊎◌, true, false, none, some, List, [],
  ◌∷◌, ◌++◌, arith, In, In-append, In-append_left, In-append_right, NotIn, NotIn-of_all, erase,
  lookup, ◌==◌, if◌then◌else◌, Option-cases, some_injective,
}
use cerdic.Common.{Side, long, short, level_cases}
use cerdic.Clob.Types.{Order, Answer, Outcome, ok, panicked, out_of_fuel, ◌>>=◌}
use cerdic.Clob.Levels.{Queue, Levels, ids}
use cerdic.Clob.State.{BookLocation, OrderBook, levels, queue_at}
use cerdic.Clob.Orders.{cancel_order, cancel_all, expired_in, expired_ids, cleanup_expired}
use cerdic.Clob.Index.{at, at_apart}
use cerdic.Clob.Invariant.{IsValid, Uncrossed}
use cerdic.Clob.Removal.{without}
use cerdic.Clob.Removal.Cancel.{NotIn-queue_at, cancel_order-without, cancel_order-Uncrossed}
use cerdic.Clob.Cleanup.Ids.{
  unexpired, without_all, member, keep, without_all-keep, member-In, In-member, In-expired_in,
  keep-unexpired, expired_ids-level, level-expired_ids,
}

without-NotIn : (i : ℕ) (os : Queue) → NotIn i (ids os) → without i os ≡ os
without-NotIn i [] n = refl
without-NotIn i (o ∷ os) n =
    let other : (o.id == i) ≡ false = ground arith in rw other (ap (◌∷◌ o) (without-NotIn i os n.1))

-- An id stands in one queue at most.
same_level :
    (b : OrderBook) (v : IsValid b) (i : ℕ) (s x : Side) (p y : ℕ)
    → In i (ids (queue_at b s p))
    → In i (ids (queue_at b x y))
    → at s p ≡ at x y
same_level b v i s x p y m n = ground (arith, v.agrees.indexed s p i m, v.agrees.indexed x y i n)

-- A run that takes the ids `is` out of a book.
record Cleaned (b : OrderBook) (is : List ℕ) (run : Outcome OrderBook) : Type 0 where
  book_after : OrderBook
  runs : run ≡ ok book_after
  valid : IsValid book_after
  uncrossed : Uncrossed b → Uncrossed book_after
  queues : (s : Side) (p : ℕ) → queue_at book_after s p ≡ without_all is (queue_at b s p)

record Cancelled (b : OrderBook) (i : ℕ) : Type 0 where
  book_after : OrderBook
  runs :
      (k : OrderBook → Outcome OrderBook)
      → (cancel_order b i >>= (λ (answer, b'). k b')) ≡ k book_after
  valid : IsValid book_after
  uncrossed : Uncrossed b → Uncrossed book_after
  queues : (s : Side) (p : ℕ) → queue_at book_after s p ≡ without i (queue_at b s p)

book_of : {A B : Type 0} → B → Outcome (A × B) → B
book_of d (ok (a, b)) = b
book_of d panicked = d
book_of d out_of_fuel = d

book_injective :
    {A B : Type 0} (x y : A) (b c : B) → ◌≡◌ {A = Outcome (A × B)} (ok (x, b)) (ok (y, c)) → b ≡ c
unfolding book_of
book_injective x y b c e = ap (book_of b) e

-- After a cancel, in every queue.
after_cancel :
    (b b' : OrderBook) (answer : Answer Order) (i : ℕ)
    → IsValid b
    → cancel_order b i ≡ ok (answer, b')
    → (lookup i b.index ≡ none → b' ≡ b)
    → (s : Side) (p : ℕ) → queue_at b' s p ≡ without i (queue_at b s p)
after_cancel b b' answer i v run unchanged s p = elim (Option-cases (lookup i b.index)) [
  | inl e ↦
      ap (λ (x : OrderBook). queue_at x s p) (unchanged e)
      ∙ sym
          (without-NotIn i (queue_at b s p) (NotIn-queue_at b.index (queue_at b) v.agrees i e s p))
  | inr (l, e) ↦
      let c = cancel_order-without b i l.side l.price v e in
      let same : b' ≡ c.1 = book_injective answer (Answer.done c.0) b' c.1 (sym run ∙ c.2) in
      ap (λ (x : OrderBook). queue_at x s p) same ∙ elim (level_cases l.side s l.price p) [
        | inl (es, ep) ↦
            subst₂ (λ (x : Side) (y : ℕ). queue_at c.1 x y ≡ without i (queue_at b x y)) es ep c.6
        | inr ne ↦
            c.7 s p ne
            ∙ sym (
                without-NotIn i (queue_at b s p) (
                  NotIn-of_all i (ids (queue_at b s p)) (λ j m h.
                    at_apart l.side s l.price p
                      (some_injective
                        (sym e ∙ ap (λ (k : ℕ). lookup k b.index) h ∙ v.agrees.indexed s p j m))
                      ne)))
      ]
]

cancelled : (b : OrderBook) (i : ℕ) → IsValid b → Cancelled b i
cancelled b i v =
    let r = cancel_order-Uncrossed b i v in
    record {
      book_after = r.1;
      runs = λ k. ap (λ y. y >>= (λ (answer, b'). k b')) r.2;
      valid = r.3;
      uncrossed = r.4;
      queues = after_cancel b r.1 r.0 i v r.2 (λ h. (r.6 h).1);
    }

cancel_all-Cleaned : (is : List ℕ) (b : OrderBook) → IsValid b → Cleaned b is (cancel_all is b)
unfolding cancel_all
cancel_all-Cleaned [] b v = record {
  book_after = b;
  runs = refl;
  valid = v;
  uncrossed = λ u. u;
  queues = λ s p. refl;
}
cancel_all-Cleaned (i ∷ is) b v =
    let c = cancelled b i v in
    let r = cancel_all-Cleaned is c.book_after c.valid in
    record {
      book_after = r.book_after;
      runs = c.runs (cancel_all is) ∙ r.runs;
      valid = r.valid;
      uncrossed = λ u. r.uncrossed (c.uncrossed u);
      queues = λ s p. r.queues s p ∙ ap (without_all is) (c.queues s p);
    }

abbrev collected : OrderBook → ℕ → List ℕ
collected b block = expired_ids block b.asks ++ expired_ids block b.bids

-- What `cleanup_expired` collects of a queue: its expired orders.
collects :
    (b : OrderBook) (block : ℕ) (s : Side) (p i : ℕ)
    → In i (expired_in block (queue_at b s p))
    → member i (collected b block) ≡ true
collects b block long p i m = member-In i (collected b block) (
    In-append_right i (expired_ids block b.asks) (expired_ids block b.bids)
      (level-expired_ids block i p b.bids m))
collects b block short p i m = member-In i (collected b block) (
    In-append_left i (expired_ids block b.asks) (expired_ids block b.bids)
      (level-expired_ids block i p b.asks m))

of_side :
    (b : OrderBook) (v : IsValid b) (block i : ℕ) (s : Side) (p : ℕ) (x : Side)
    → In i (ids (queue_at b s p))
    → (y : ℕ) × In i (expired_in block (queue_at b x y))
    → In i (expired_in block (queue_at b s p))
of_side b v block i s p x m (y, n) =
    let same = same_level b v i s x p y m (In-expired_in block i (queue_at b x y) n) in
    subst (λ (l : BookLocation). In i (expired_in block (queue_at b l.side l.price))) (sym same) n

collected_expired :
    (b : OrderBook) (v : IsValid b) (block : ℕ) (s : Side) (p i : ℕ)
    → In i (ids (queue_at b s p))
    → member i (collected b block) ≡ true
    → In i (expired_in block (queue_at b s p))
collected_expired b v block s p i m h =
    elim (In-append i (expired_ids block b.asks) (expired_ids block b.bids)
      (In-member i (collected b block) h)) [
        | inl n ↦
            of_side b v block i s p short m
              (expired_ids-level short block i b.asks (v.ordered short) n)
        | inr n ↦
            of_side b v block i s p long m
              (expired_ids-level long block i b.bids (v.ordered long) n)
      ]

-- On a valid book, `cleanup_expired` ends without a panic, gives the ids of the expired orders, and leaves
-- a valid book, not crossed if it was not, in which every queue has its orders that are not expired, in
-- their order.
pub cleanup_expired-unexpired :
    (b : OrderBook) (block : ℕ)
    → IsValid b
    → (b' : OrderBook) × (cleanup_expired b block
        ≡ ok (expired_ids block b.asks ++ expired_ids block b.bids, b'))
      × IsValid b'
      × (Uncrossed b → Uncrossed b')
      × ((s : Side) (p : ℕ) → queue_at b' s p ≡ unexpired block (queue_at b s p))
unfolding cleanup_expired
cleanup_expired-unexpired b block v =
    let r = cancel_all-Cleaned (collected b block) b v in
    (
      r.book_after,
      ap (λ y. y >>= (λ b'. ok (collected b block, b'))) r.runs,
      r.valid,
      r.uncrossed,
      λ s p.
          r.queues s p
          ∙ without_all-keep (collected b block) (queue_at b s p) (v.agrees.distinct s p)
          ∙ keep-unexpired block (collected b block) (queue_at b s p) (v.agrees.distinct s p)
              (collects b block s p) (collected_expired b v block s p),
    )
