-- ===== src/Book/Links.antt =====
-- The linked lists of the levels in crates/cerdic-tee-matcher/src/book.rs: `push_back`, `unlink`,
-- the cached best prices, and `cancel`.
pub mod Runs
pub mod Steps
pub mod Unlink
pub mod Best
pub mod Cancel
pub mod Partial
use cerdic.Prelude.{
  ℕ, Bool, true, false, ◌&&◌, Option, none, some, ◌∷◌, get_elem?, set, ltb, ◌==◌, if◌then◌else◌,
}
use mathlib.Core.Option
use cerdic.Common.{Side, long, short}
use cerdic.Book.Types.{nil, add_u64, sub_u64, OrderNode, is_empty, Outcome, ok, ◌>>=◌}
use cerdic.Book.Ladder.{
  Ladder, ensure, mark_occupied, mark_empty, next_worse_level, index_of, level, put_level, tick_at,
}
use cerdic.Book.State.{
  OrderBook, best, set_best, ladder, put_ladder, put_level_at, slot, set_next, set_prev,
}

abbrev pub raises : Side → ℕ → Option ℕ → Bool
raises side tick none = true
raises long tick (some b) = ltb b tick
raises short tick (some a) = ltb tick a

abbrev pub raise_best : OrderBook → Side → ℕ → OrderBook
raise_best b side tick = if raises side tick (best b side) then set_best b side (some tick) else b

-- The list part of `push_back`, at the level's index in a ladder that has room.
unfoldable pub link_tail : OrderBook → Side → ℕ → ℕ → Outcome OrderBook
link_tail b side k idx =
    let l = ladder b side in
    let v = level l k in
    if v.tail == nil
    then ok
        (put_ladder b side (mark_occupied (put_level l k (record v { head = idx; tail = idx })) k))
    else do
      b₁ ← set_next b v.tail idx
      b₂ ← set_prev b₁ idx v.tail
      ok (put_level_at b₂ side k (record v { tail = idx }))

unfoldable pub push_back : OrderBook → Side → ℕ → ℕ → Outcome OrderBook
unfolding link_tail
push_back b side tick idx =
    let (l, k) = ensure (ladder b side) tick in
    do
      b₁ ← link_tail (put_ladder b side l) side k idx
      node ← slot b₁ idx
      let v = level (ladder b₁ side) k
      ok (raise_best (put_level_at b₁ side k (record v { qty = add_u64 v.qty node.qty })) side tick)

unfoldable pub advance_best_from : OrderBook → Side → ℕ → OrderBook
advance_best_from b side emptied_tick = elim (index_of (ladder b side) emptied_tick) [
  | none ↦ b
  | some start ↦
      set_best b side
        (Option.map (tick_at (ladder b side)) (next_worse_level (ladder b side) side start))
]

-- The two pointers round a node that leaves its level.
link_left : OrderBook → OrderNode → ℕ → Outcome OrderBook
link_left b node k =
    if node.prev == nil
    then ok
        (put_level_at b node.side k (record (level (ladder b node.side) k) { head = node.next }))
    else set_next b node.prev node.next

link_right : OrderBook → OrderNode → ℕ → Outcome OrderBook
link_right b node k =
    if node.next == nil
    then ok
        (put_level_at b node.side k (record (level (ladder b node.side) k) { tail = node.prev }))
    else set_prev b node.next node.prev

-- The end of `unlink`: the level's quantity, and its bit when it is empty.
unfoldable pub settle_level : OrderBook → OrderNode → ℕ → OrderBook
settle_level b node k =
    let l = ladder b node.side in
    let v = level l k in
    let l' = put_level l k (record v { qty = sub_u64 v.qty node.qty }) in
    put_ladder b node.side (if is_empty v then mark_empty l' k else l')

unfoldable pub unlink : OrderBook → ℕ → Outcome (OrderNode × OrderBook)
unfolding link_left link_right settle_level
unlink b idx = do
  node ← slot b idx
  let b₁ = record b { arena = set b.arena idx none; free = idx ∷ b.free }
  elim (index_of (ladder b₁ node.side) node.tick) [
    | none ↦ ok (node, b₁)
    | some k ↦ do
      b₂ ← link_left b₁ node k
      b₃ ← link_right b₂ node k
      ok (node, settle_level b₃ node k)
  ]

-- `self.best == Some(tick)`
abbrev pub is_best : Option ℕ → ℕ → Bool
is_best none tick = false
is_best (some t) tick = t == tick

abbrev pub level_empty_at : Ladder → ℕ → Bool
level_empty_at l tick = elim (index_of l tick) [ none ↦ true | some k ↦ is_empty (level l k) ]

unfoldable pub cancel_live : OrderBook → ℕ → Outcome (Option (ℕ × ℕ) × OrderBook)
cancel_live b id = do
  node ← slot b id
  (removed, b₁) ← unlink b id
  let emptied =
      level_empty_at (ladder b₁ node.side) node.tick && is_best (best b₁ node.side) node.tick
  ok (
    some (node.tick, removed.qty),
    (if emptied then advance_best_from b₁ node.side node.tick else b₁),
  )

unfoldable pub cancel : OrderBook → ℕ → Outcome (Option (ℕ × ℕ) × OrderBook)
cancel b id = elim (get_elem? b.arena id) [
  | none ↦ ok (none, b)
  | some none ↦ ok (none, b)
  | some (some node) ↦ cancel_live b id
]
