-- ===== src/Clob/Removal.antt =====
-- `take_order`, `remove_from_level` and `cancel_order` of crates/clob/src/lib.rs on a valid book.
pub mod Cancel
use cerdic.Prelude.{
  ℕ, ◌≡◌, ◌≢◌, refl, sym, subst, ap, ◌∙◌, inl, inr, ◌⊎◌, true, false, Bool-cases, Option, none,
  some, List, [], ◌∷◌, All, arith, In, NotIn, delete, Dict, lookup, lookup-nil, lookup-insert,
  lookup-erase, insert, erase, ◌==◌, if◌then◌else◌, push, Option-cases, eq_of_test, ne_of_test,
}
use cerdic.Common.{Side, long, short, opposite_side}
use cerdic.Clob.Types.{Order, Outcome, ok, ◌>>=◌, Answer, done, failed, order_not_found}
use cerdic.Clob.Levels.{Queue, Levels, ids, keys, or_empty}
use cerdic.Clob.Levels.Laws.{Ordered, erase-Ordered, insert-Ordered}
use cerdic.Clob.State.{BookLocation, OrderBook, levels, put_levels, queue_at, find_order, order}
use cerdic.Clob.Orders.{take_order, put_queue, remove_from_level, expect, cancel_order}
use cerdic.Clob.Index.{Fits, Agrees, Elsewhere, Agrees-remove, at}
use cerdic.Clob.Matching.Views.{view, view_here, view-Elsewhere}
use cerdic.Clob.Invariant.{IsValid, Agrees-cong, view_same}
use cerdic.Clob.Writes.{swept_book, swept_index, swept_levels, swept_queue, swept_book-IsValid}

-- A queue without an id.
abbrev pub without : ℕ → Queue → Queue
without i [] = []
without i (o ∷ os) = let rest = without i os in if o.id == i then os else o ∷ rest

pub without-push : (os : Queue) (o : Order) → NotIn o.id (ids os) → without o.id (push os o) ≡ os
without-push [] o n = ground arith
without-push (x ∷ os) o n =
    let other : (x.id == o.id) ≡ false = ground arith in
    rw other (ap (◌∷◌ x) (without-push os o n.1))

pub ids-without : (i : ℕ) (os : Queue) → ids (without i os) ≡ delete i (ids os)
unfolding delete
ids-without i [] = refl
ids-without i (o ∷ os) = ground (arith, ids-without i os)

without-All : (P : Order → Type 0) (i : ℕ) (os : Queue) → All P os → All P (without i os)
without-All P i [] h = tt
without-All P i (o ∷ os) h = elim (Bool-cases (o.id == i)) [
  | inl e ↦ rw e h.1
  | inr e ↦ rw e (h.0, without-All P i os h.1)
]

-- What `take_order` finds in a queue that has the id.
pub record Taken (P : Order → Type 0) (i : ℕ) (os : Queue) : Type 0 where
  pub removed : Order
  pub takes : take_order i os ≡ some (removed, without i os)
  pub finds : find_order i os ≡ some removed
  pub has_id : removed.id ≡ i
  pub keeps : P removed

pub take_order-Taken :
    (P : Order → Type 0) (i : ℕ) (os : Queue) → In i (ids os) → All P os → Taken P i os
unfolding take_order find_order
take_order-Taken P i [] m h = absurd m
take_order-Taken P i (o ∷ os) m h = elim (Bool-cases (o.id == i)) [
  | inl e ↦ record {
    removed = o;
    takes = rw e refl;
    finds = rw e refl;
    has_id = eq_of_test o.id i e;
    keeps = h.0;
  }
  | inr e ↦
      let r =
        take_order-Taken P i os
          (elim m [ inl same ↦ absurd (ne_of_test o.id i e (sym same)) | inr m' ↦ m' ]) h.1 in
      record {
        removed = r.removed;
        takes = rw (e, r.takes) refl;
        finds = rw e r.finds;
        has_id = r.has_id;
        keeps = r.keeps;
      }
]

-- A level that has an order is there.
pub level_there :
    (ls : Levels) (p i : ℕ)
    → In i (ids (or_empty (lookup p ls)))
    → lookup p ls ≡ some (or_empty (lookup p ls))
level_there ls p i m = elim (Option-cases (lookup p ls)) [
  | inl e ↦ absurd (rw e at m)
  | inr (os, e) ↦ rw e refl
]

-- What a level holds after `put_queue`, and the other levels.
pub lookup-put_queue :
    (p : ℕ) (os : Queue) (ls : Levels) (p' : ℕ)
    → or_empty (lookup p' (put_queue p os ls)) ≡ (if p' == p then os else or_empty (lookup p' ls))
lookup-put_queue p [] ls p' = ground (arith, lookup-erase p' p ls)
lookup-put_queue p (o ∷ os) ls p' = ground (arith, lookup-insert p' p (o ∷ os) ls)

pub put_queue-Ordered :
    (s : Side) (p : ℕ) (os : Queue) (ls : Levels)
    → lookup p ls ≢ none
    → Ordered s ls
    → Ordered s (put_queue p os ls)
put_queue-Ordered s p [] ls h d = erase-Ordered s p ls d
put_queue-Ordered s p (o ∷ os) ls h d = insert-Ordered s p (o ∷ os) ls (λ e. cc) h d

-- The calls on an order that is found.
remove_from_level-found :
    (b : OrderBook) (ix : Dict BookLocation) (s : Side) (p i : ℕ) (level others : Queue)
    (removed : Order)
    → lookup p (levels b s) ≡ some level
    → take_order i level ≡ some (removed, others)
    → remove_from_level (record b { index = ix }) (at s p) i
      ≡ some (removed, swept_book b s (put_queue p others (levels b s)) ix)
unfolding remove_from_level
remove_from_level-found b ix s p i level others removed e f =
    rw (remove_from_level, swept_levels b ix s, e, f) refl

cancel_order-found :
    (b b' : OrderBook) (i : ℕ) (location : BookLocation) (removed : Order)
    → lookup i b.index ≡ some location
    → remove_from_level (record b { index = erase i b.index }) location i ≡ some (removed, b')
    → cancel_order b i ≡ ok (done removed, b')
unfolding cancel_order
cancel_order-found b b' i location removed e f = rw (cancel_order, e, f) refl

order-found :
    (b : OrderBook) (s : Side) (p i : ℕ) (level : Queue) (found : Order)
    → lookup i b.index ≡ some (at s p)
    → lookup p (levels b s) ≡ some level
    → find_order i level ≡ some found
    → order b i ≡ some found
unfolding order
order-found b s p i level found e f g = rw (order, e, f) g

-- An order taken out of its queue, with its entry of the index.
module _ (b : OrderBook) (v : IsValid b) (i : ℕ) (s : Side) (p : ℕ)
    (known : lookup i b.index ≡ some (at s p)) where
  abbrev standing : In i (ids (or_empty (lookup p (levels b s))))
  standing =
      subst (λ (os : Queue). In i (ids os)) (sym (view_same b s s p) ∙ view_here b s (levels b s) p)
        (v.agrees.queued s p i known)

  abbrev pub taken_at : Taken (Fits s p) i (or_empty (lookup p (levels b s)))
  taken_at = take_order-Taken (Fits s p) i (or_empty (lookup p (levels b s))) standing (
      subst (All (Fits s p)) (sym (view_same b s s p) ∙ view_here b s (levels b s) p)
        (v.agrees.fitting s p))

  abbrev pub levels_after : Levels
  levels_after = put_queue p (without i (or_empty (lookup p (levels b s)))) (levels b s)

  pub removes :
      (ix : Dict BookLocation)
      → remove_from_level (record b { index = ix }) (at s p) i
        ≡ some (taken_at.removed, swept_book b s levels_after ix)
  removes ix =
      remove_from_level-found b ix s p i _ _ taken_at.removed
        (level_there (levels b s) p i standing) taken_at.takes

  pub removed_queue : view b s levels_after s p ≡ without i (queue_at b s p)
  removed_queue =
      view_here b s levels_after p
      ∙ ground
          (arith, lookup-put_queue p (without i (or_empty (lookup p (levels b s)))) (levels b s) p)
      ∙ ap (without i) (sym (view_here b s (levels b s) p) ∙ view_same b s s p)

  pub removed_away : Elsewhere (queue_at b) (view b s levels_after) s p
  removed_away x q ne =
      view-Elsewhere b s (levels b s) levels_after p
        (λ q' ne'. ground (
          arith,
          lookup-put_queue p (without i (or_empty (lookup p (levels b s)))) (levels b s) q',
        ))
        x q ne
      ∙ view_same b s x q

  pub removed-Agrees : Agrees (erase i b.index) (view b s levels_after)
  removed-Agrees =
      Agrees-remove b.index (queue_at b) (view b s levels_after) v.agrees s p removed_away i
        (v.agrees.queued s p i known)
        (subst (All (Fits s p)) (sym removed_queue)
          (without-All (Fits s p) i (queue_at b s p) (v.agrees.fitting s p)))
        (ap ids removed_queue ∙ ids-without i (queue_at b s p))

  pub there : lookup p (levels b s) ≢ none
  there e = ground (arith, level_there (levels b s) p i standing)

  levels_after-Ordered : Ordered s levels_after
  levels_after-Ordered =
      put_queue-Ordered s p (without i (or_empty (lookup p (levels b s)))) (levels b s) there
        (v.ordered s)

  abbrev pub removed_book : OrderBook
  removed_book = swept_book b s levels_after (erase i b.index)

  pub removed_book-IsValid : IsValid removed_book
  removed_book-IsValid =
      swept_book-IsValid b s levels_after (erase i b.index) v levels_after-Ordered removed-Agrees

  pub cancels : cancel_order b i ≡ ok (done taken_at.removed, removed_book)
  cancels =
      cancel_order-found b removed_book i (at s p) taken_at.removed known
        (removes (erase i b.index))

  pub looks_up : order b i ≡ some taken_at.removed
  looks_up =
      order-found b s p i _ taken_at.removed known (level_there (levels b s) p i standing)
        taken_at.finds

  pub removed_absent : lookup i removed_book.index ≡ none
  removed_absent =
      ap (lookup i) (swept_index b s levels_after (erase i b.index))
      ∙ ground (arith, lookup-erase i i b.index)
