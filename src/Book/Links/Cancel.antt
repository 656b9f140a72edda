-- ===== src/Book/Links/Cancel.antt =====
-- `OrderBook::cancel` of crates/cerdic-tee-matcher/src/book.rs on a valid book.
use cerdic.Prelude.{
  ℕ, ◌≡◌, refl, sym, ap, ◌∙◌, inl, inr, true, ◌&&◌, Bool-cases, Option-cases, Option, none, some,
  delete, get_elem?, arith, if◌then◌else◌, ◌==◌,
}
use cerdic.Book.Types.{OrderNode, is_empty, ok}
use cerdic.Book.Ladder.{Ladder, index_of}
use cerdic.Book.Ladder.Laws.{level_for}
use cerdic.Book.State.{OrderBook, best, ladder, slot, slot_of}
use cerdic.Book.Segment.{Arena, order_of, order_at}
use cerdic.Book.Invariant.{Queues, IsValid}
use cerdic.Book.Links.{advance_best_from, is_best, unlink, level_empty_at, cancel_live, cancel}
use cerdic.Book.Links.Runs.{unlinked}
use cerdic.Book.Links.Unlink.{index, unlink_ok, after_order}
use cerdic.Book.Links.Best.{best-gone, stays, moves, arena-unlinked, arena-advance_best_from}

level_empty_lem : (l : Ladder) (t : ℕ) → level_empty_at l t ≡ is_empty (level_for l t)
level_empty_lem l t = elim (Option-cases (index_of l t)) [
  | inl e ↦ rw (e, level_empty_at, level_for) refl
  | inr (k, e) ↦ rw (e, level_empty_at, level_for) refl
]

is_best_lem : (o : Option ℕ) (t : ℕ) → is_best o t ≡ true → o ≡ some t
is_best_lem none t e = ground arith
is_best_lem (some u) t e = ground arith

is_best_refl : (o : Option ℕ) (t : ℕ) → o ≡ some t → is_best o t ≡ true
is_best_refl o t e = rw e (ground arith)

-- The run of `cancel` on a live order, once its `unlink` has come back.
cancel_run :
    (b b' : OrderBook) (i : ℕ) (n : OrderNode)
    → get_elem? b.arena i ≡ some (some n)
    → unlink b i ≡ ok (n, b')
    → cancel b i
      ≡ ok (
        some (n.tick, n.qty),
        if level_empty_at (ladder b' n.side) n.tick && is_best (best b' n.side) n.tick
            then advance_best_from b' n.side n.tick
            else b',
      )
unfolding cancel cancel_live
cancel_run b b' i n live e =
    let found : slot b i ≡ ok n = ap slot_of live in
    rw (live, cancel) (rw (found, cancel_live) (rw e refl))

-- What a cancel has to leave behind: the answer, and a valid book without the order, with every
-- other order as it was.
abbrev pub Cancelled : OrderBook → Queues → ℕ → OrderNode → Type 0
Cancelled b q i n =
    (b' : OrderBook) × (cancel b i ≡ ok (some (n.tick, n.qty), b'))
    × IsValid b' (λ s t. delete i (q s t))
    × ((j : ℕ) → order_at b'.arena j ≡ (if i == j then none else order_at b.arena j))

module _ (b : OrderBook) (q : Queues) (v : IsValid b q) (i : ℕ) (n : OrderNode)
    (live : get_elem? b.arena i ≡ some (some n)) where
  abbrev gone : OrderBook
  gone = unlinked b i n n.side (index b q v.links i n live)

  run :
      cancel b i
      ≡ ok (
        some (n.tick, n.qty),
        if level_empty_at (ladder gone n.side) n.tick && is_best (best gone n.side) n.tick
            then advance_best_from gone n.side n.tick
            else gone,
      )
  run = cancel_run b gone i n live (unlink_ok b q v.links i n live)

  emptied_lem :
      level_empty_at (ladder gone n.side) n.tick ≡ is_empty (level_for (ladder gone n.side) n.tick)
  emptied_lem = level_empty_lem (ladder gone n.side) n.tick

  others_gone : (j : ℕ) → order_at gone.arena j ≡ (if i == j then none else order_at b.arena j)
  others_gone j =
      ap (λ (a : Arena). order_at a j) (arena-unlinked b i n n.side (index b q v.links i n live))
      ∙ after_order b q v.links i n live j

  -- On a valid book, `cancel` of a live order meets no panic: it answers the order's tick and
  -- quantity, and leaves a valid book whose queues are the same without the order, and in which every
  -- other order is as it was.
  pub cancel-IsValid : Cancelled b q i n
  cancel-IsValid = elim (Bool-cases (is_empty (level_for (ladder gone n.side) n.tick))) [
    | inl e ↦ elim (Bool-cases (is_best (best gone n.side) n.tick)) [
      | inl h ↦ (
        advance_best_from gone n.side n.tick,
        run ∙ rw (emptied_lem, e, h) refl,
        moves b q v i n live
            (sym (best-gone b q v i n live n.side) ∙ is_best_lem (best gone n.side) n.tick h) e,
        λ j.
            ap (λ (a : Arena). order_at a j) (arena-advance_best_from gone n.side n.tick)
            ∙ others_gone j,
      )
      | inr h ↦ (
        gone,
        run ∙ rw (emptied_lem, e, h) refl,
        stays b q v i n live (λ at.
            ground (
              arith,
              is_best_refl (best gone n.side) n.tick (best-gone b q v i n live n.side ∙ at),
            )),
        others_gone,
      )
    ]
    | inr e ↦ (gone, run ∙ rw (emptied_lem, e) refl, stays b q v i n live (λ at. e), others_gone)
  ]

-- A slot that has no order, or does not exist, is answered `None`, and the book stays as it was.
pub cancel_dead : (b : OrderBook) (i : ℕ) → order_at b.arena i ≡ none → cancel b i ≡ ok (none, b)
unfolding cancel
cancel_dead b i e = go (get_elem? b.arena i) refl e
  where
    go :
        (o : Option (Option OrderNode))
        → get_elem? b.arena i ≡ o
        → order_of o ≡ none
        → cancel b i ≡ ok (none, b)
    go none h d = rw (h, cancel) refl
    go (some none) h d = rw (h, cancel) refl
    go (some (some n)) h d = cc
