-- ===== src/Book/Depth/Cancel.antt =====
-- The depth views of crates/cerdic-tee-matcher/src/book.rs after `cancel`.
use cerdic.Prelude.{
  ℕ, ◌+◌, ◌%◌, ◌≡◌, sym, ap, ◌∙◌, none, some, List, ◌∷◌, arith, get_elem?, In, NotIn, Distinct,
  delete, delete-NotIn, NotIn-of_all, NotIn-delete_self, ne_of_NotIn, In-split, ◌==◌, if◌then◌else◌,
}
use cerdic.Common.{Side}
use cerdic.Book.Types.{u64_mod, OrderNode, ok}
use cerdic.Book.State.{OrderBook}
use cerdic.Book.Segment.{
  Arena, order_at, order_of, total, qty_of, total-append, total-cons, total-cong,
}
use cerdic.Book.Invariant.{Queues, IsValid}
use cerdic.Book.Links.{cancel}
use cerdic.Book.Links.Unlink.{foreign, queued}
use cerdic.Book.Links.Cancel.{cancel-IsValid}
use cerdic.Book.Depth.{depth_at}
use cerdic.Book.Depth.Laws.{depth_at-total}

-- The total of a queue that loses an order.
total-delete :
    (a a' : Arena) (i : ℕ) (ids : List ℕ)
    → ((j : ℕ) → order_at a' j ≡ (if i == j then none else order_at a j))
    → In i ids
    → Distinct ids
    → total a' (delete i ids) + qty_of (order_at a i) ≡ total a ids
total-delete a a' i ids gone m d =
    let split = In-split i ids m d in
    let kept : (j : ℕ) → In j (delete i ids) → order_at a' j ≡ order_at a j = λ j n.
      let ne = ne_of_NotIn i j (delete i ids) (NotIn-delete_self i ids d) n in
      ground (arith, gone j) in
    omega (
      arith,
      total-cong a a' (delete i ids) kept,
      ap (total a) split.2,
      ap (total a) split.3,
      total-append a split.0 (i ∷ split.1),
      total-append a split.0 split.1,
      total-cons a i split.1,
    )

add_mod : (x y z : ℕ) → x + y ≡ z → (x % u64_mod + y) % u64_mod ≡ z % u64_mod
add_mod x y z e = omega arith

-- On a valid book, `cancel` of a live order takes its quantity, modulo 2^64, off the depth of its side and
-- tick, and leaves the depth of every other side and tick as it was.
pub depth_at-cancel :
    (b : OrderBook) (q : Queues) (i : ℕ) (n : OrderNode)
    → IsValid b q
    → get_elem? b.arena i ≡ some (some n)
    → (b' : OrderBook) × (cancel b i ≡ ok (some (n.tick, n.qty), b'))
      × ((depth_at b' n.side n.tick + n.qty) % u64_mod ≡ depth_at b n.side n.tick)
      × ((s : Side) (t : ℕ) → (n.side ≡ s → n.tick ≡ t → ⊥) → depth_at b' s t ≡ depth_at b s t)
depth_at-cancel b q i n v live =
    let (b', run, valid, gone) = cancel-IsValid b q v i n live in
    let g = v.links in
    let here = queued b q g i n live in
    let q' : Queues = λ s t. delete i (q s t) in
    let lost : total b'.arena (delete i (q n.side n.tick)) + n.qty
        ≡ total b.arena (q n.side n.tick) =
      ap (λ x. total b'.arena (delete i (q n.side n.tick)) + qty_of (order_of x)) (sym live)
      ∙ total-delete b.arena b'.arena i (q n.side n.tick) gone here
          (g.levels n.side n.tick).distinct in
    (
      b',
      run,
      ap (λ (x : ℕ). (x + n.qty) % u64_mod) (depth_at-total b' q' n.side n.tick valid.links)
          ∙ add_mod _ n.qty _ lost
          ∙ sym (depth_at-total b q n.side n.tick g),
      λ s t ne.
          let away : NotIn i (q s t) =
            NotIn-of_all i (q s t) (λ j m e. foreign b q g i n live s t ne j i m here (sym e)) in
          let kept : (j : ℕ) → In j (q s t) → order_at b'.arena j ≡ order_at b.arena j =
            λ j m. let apart = ne_of_NotIn i j (q s t) away m in ground (arith, gone j) in
          depth_at-total b' q' s t valid.links
          ∙ ap (λ (x : List ℕ). total b'.arena x % u64_mod) (delete-NotIn i (q s t) away)
          ∙ ap (λ (x : ℕ). x % u64_mod) (total-cong b.arena b'.arena (q s t) kept)
          ∙ sym (depth_at-total b q s t g),
    )
