-- ===== src/Clob/Modify.antt =====
-- `modify_order` of crates/clob/src/lib.rs on a valid book.
pub mod Move
pub mod Answers
pub mod Effects
use cerdic.Prelude.{
  ℕ, ◌<◌, ◌≡◌, ◌≢◌, refl, sym, subst, ap, ◌∙◌, inl, inr, ◌⊎◌, true, false, not, Bool-cases, Option,
  none, some, List, [], ◌∷◌, All, arith, In, Dict, lookup, lookup-insert, lookup-erase, insert,
  erase, ◌==◌, if◌then◌else◌, push, Option-cases, eq_of_test, ne_of_test,
}
use cerdic.Prelude.Int.{ℤ, unsigned_abs}
use cerdic.Common.{Side, long, short}
use cerdic.Clob.Types.{
  Order, quantity, i128_end, side_agrees_with_size, Outcome, ok, ◌>>=◌, ClobError, order_not_found,
  zero_size, zero_price, side_size_sign_mismatch,
}
use cerdic.Clob.Levels.{Queue, Levels, ids, or_empty, push_level}
use cerdic.Clob.Levels.Laws.{Ordered, insert-Ordered}
use cerdic.Clob.State.{BookLocation, OrderBook, levels, put_levels, queue_at, order}
use cerdic.Clob.Orders.{
  resize_order, remove_from_level, edit_in_place, move_order, modify_order, expect,
}
use cerdic.Clob.Index.{Fits, Queues, Agrees, Elsewhere, Agrees-edit, at}
use cerdic.Clob.Matching.Views.{view, view_here, view-Elsewhere}
use cerdic.Clob.Invariant.{IsValid, Agrees-cong, view_same, joined, joined-IsValid, queue_at-joined}
use cerdic.Clob.Writes.{swept_book, swept_index, swept_levels, swept_queue, swept_book-IsValid}
use cerdic.Clob.Removal.{
  without, taken_at, levels_after, level_there, removes, removed_book, removed_queue,
  removed_book-IsValid, removed_absent, looks_up,
}

-- A queue with another size for an id.
abbrev pub resized : ℕ → ℤ → Queue → Queue
resized i n [] = []
resized i n (o ∷ os) =
    let rest = resized i n os in if o.id == i then record o { size = n } ∷ os else o ∷ rest

resize_order-In :
    (i : ℕ) (n : ℤ) (os : Queue) → In i (ids os) → resize_order i n os ≡ some (resized i n os)
unfolding resize_order
resize_order-In i n [] m = absurd m
resize_order-In i n (o ∷ os) m = elim (Bool-cases (o.id == i)) [
  | inl e ↦ rw e refl
  | inr e ↦
      let m' : In i (ids os) = elim m [
        | inl same ↦ absurd (ne_of_test o.id i e (sym same))
        | inr m' ↦ m'
      ] in
      rw (e, resize_order-In i n os m') refl
]

ids-resized : (i : ℕ) (n : ℤ) (os : Queue) → ids (resized i n os) ≡ ids os
ids-resized i n [] = refl
ids-resized i n (o ∷ os) = elim (Bool-cases (o.id == i)) [
  | inl e ↦ rw e refl
  | inr e ↦ rw e (ap (◌∷◌ o.id) (ids-resized i n os))
]

resized-Fits :
    (s : Side) (p i : ℕ) (n : ℤ) (os : Queue)
    → side_agrees_with_size s n ≡ true
    → unsigned_abs n < i128_end
    → All (Fits s p) os
    → All (Fits s p) (resized i n os)
resized-Fits s p i n [] a l h = tt
resized-Fits s p i n (o ∷ os) a l h = elim (Bool-cases (o.id == i)) [
  | inl e ↦ rw e (
    record { on_side = h.0.on_side; at_price = h.0.at_price; signed_right = a; in_range = l },
    h.1,
  )
  | inr e ↦ rw e (h.0, resized-Fits s p i n os a l h.1)
]

resized-ne_nil : (i : ℕ) (n : ℤ) (os : Queue) → In i (ids os) → resized i n os ≢ []
resized-ne_nil i n [] m e = absurd m
resized-ne_nil i n (o ∷ os) m e = ground arith

edit_in_place-found :
    (b : OrderBook) (s : Side) (p i : ℕ) (n : ℤ) (level level' : Queue)
    → lookup p (levels b s) ≡ some level
    → resize_order i n level ≡ some level'
    → edit_in_place b (at s p) i n ≡ ok (put_levels b s (insert p level' (levels b s)))
unfolding edit_in_place
edit_in_place-found b s p i n level level' e f = rw (edit_in_place, e, f) refl

module _ (b : OrderBook) (v : IsValid b) (i : ℕ) (s : Side) (p : ℕ)
    (known : lookup i b.index ≡ some (at s p)) (n : ℤ) (right : side_agrees_with_size s n ≡ true)
    (small : unsigned_abs n < i128_end) where
  here : In i (ids (queue_at b s p))
  here = v.agrees.queued s p i known

  abbrev pub edited_levels : Levels
  edited_levels = insert p (resized i n (queue_at b s p)) (levels b s)

  abbrev pub edited : OrderBook
  edited = put_levels b s edited_levels

  pub edits : edit_in_place b (at s p) i n ≡ ok edited
  edits =
      edit_in_place-found b s p i n (queue_at b s p) (resized i n (queue_at b s p))
        (level_there (levels b s) p i here) (resize_order-In i n (queue_at b s p) here)

  pub queue_at-edited : queue_at edited s p ≡ resized i n (queue_at b s p)
  queue_at-edited =
      view_here b s edited_levels p
      ∙ ground (arith, lookup-insert p p (resized i n (queue_at b s p)) (levels b s))

  pub edited-Elsewhere : Elsewhere (queue_at b) (queue_at edited) s p
  edited-Elsewhere x q ne =
      view-Elsewhere b s (levels b s) edited_levels p
        (λ q' ne'. ground (arith, lookup-insert q' p (resized i n (queue_at b s p)) (levels b s))) x
        q ne
      ∙ view_same b s x q

  pub edited-IsValid : IsValid edited
  edited-IsValid =
      swept_book-IsValid b s edited_levels b.index v
        (insert-Ordered s p (resized i n (queue_at b s p)) (levels b s)
          (resized-ne_nil i n (queue_at b s p) here)
          (λ e. ground (arith, level_there (levels b s) p i here)) (v.ordered s))
        (Agrees-edit b.index (queue_at b) (queue_at edited) v.agrees s p edited-Elsewhere
          (subst (All (Fits s p)) (sym queue_at-edited)
            (resized-Fits s p i n (queue_at b s p) right small (v.agrees.fitting s p)))
          (ap ids queue_at-edited ∙ ids-resized i n (queue_at b s p)))
