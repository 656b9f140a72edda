-- ===== src/Book/Submit.antt =====
-- `submit` of crates/cerdic-tee-matcher/src/book.rs, with the pruning of expired heads. Each loop
-- takes fuel: one or two more rounds than there are slots in the arena.
pub mod Prune
use cerdic.Prelude.{
  ℕ, zero, suc, Bool, true, false, not, ◌&&◌, Option, none, some, length, push, ltb, leb,
  if◌then◌else◌,
}
use cerdic.Common.{Side, long, short, opposite_side}
use cerdic.Book.Types.{
  nil, TimeInForce, good_til_cancel, good_til_time, immediate_or_cancel, fill_or_kill, NewOrder,
  OrderNode, is_expired, SubmitResult, default_result, Outcome, ok, out_of_fuel, ◌>>=◌,
}
use cerdic.Book.Ladder.{level}
use cerdic.Book.State.{OrderBook, best, ladder, slot, alloc}
use cerdic.Book.Links.{push_back, unlink}
use cerdic.Book.Available.{available_to_match}
use cerdic.Book.Matching.{level_index, advance_if_empty, Matching, match_loop}

-- The `loop` of `prune_expired_head`.
pub prune_expired_head :
    ℕ → OrderBook → Side → ℕ → SubmitResult → Outcome (OrderBook × SubmitResult)
prune_expired_head zero b side now r = out_of_fuel
prune_expired_head (suc f) b side now r = elim (best b side) [
  | none ↦ ok (b, r)
  | some level_tick ↦ do
    k ← level_index b side level_tick
    let head = (level (ladder b side) k).head
    node ← slot b head
    let rest = do
      (_, b₁) ← unlink b head
      prune_expired_head f (advance_if_empty b₁ side k level_tick) side now
          (record r { expired = push r.expired head })
    if is_expired node.expiry now then rest else ok (b, r)
]

-- `matches!(tif, ImmediateOrCancel | FillOrKill)`
abbrev pub never_rests : TimeInForce → Bool
never_rests good_til_cancel = false
never_rests (good_til_time t) = false
never_rests immediate_or_cancel = true
never_rests fill_or_kill = true

abbrev pub is_fill_or_kill : TimeInForce → Bool
is_fill_or_kill good_til_cancel = false
is_fill_or_kill (good_til_time t) = false
is_fill_or_kill immediate_or_cancel = false
is_fill_or_kill fill_or_kill = true

abbrev pub expiry_of : TimeInForce → Option ℕ
expiry_of good_til_cancel = none
expiry_of (good_til_time t) = some t
expiry_of immediate_or_cancel = none
expiry_of fill_or_kill = none

-- The end of `submit`: what is left rests, unless the order's terms forbid it.
rest_remainder : NewOrder → Matching → Outcome (OrderBook × SubmitResult)
rest_remainder order m =
    let node : OrderNode = record {
      tick = order.tick;
      qty = m.qty;
      side = order.side;
      owner = order.owner;
      expiry = expiry_of order.tif;
      prev = nil;
      next = nil;
    } in
    let rest = do
      (b, idx) ← alloc m.book node
      b₁ ← push_back b order.side order.tick idx
      let r = m.result
      ok (b₁, record r { resting_id = some idx; resting_qty = m.qty })
    in if ltb 0 m.qty && not (never_rests order.tif) then rest else ok (m.book, m.result)

-- The fill-or-kill guard, the matching loop and the end.
fill_and_rest : NewOrder → ℕ → OrderBook → SubmitResult → Outcome (OrderBook × SubmitResult)
fill_and_rest order now b r =
    let go = do
      m ←
          match_loop (suc (suc (length b.arena))) order now
            (record { book = b; qty = order.qty; result = r })
      rest_remainder order m
    in if is_fill_or_kill order.tif
      then available_to_match b order.side order.tick order.qty order.owner now >>= (λ available.
        if ltb available order.qty then ok (b, record r { fill_or_kill_failed = true }) else go)
      else go

-- `would_cross` of the post-only guard.
abbrev pub would_cross : Side → Option ℕ → ℕ → Bool
would_cross opposite none tick = false
would_cross long (some bid) tick = leb tick bid
would_cross short (some ask) tick = leb ask tick

after_pruning : NewOrder → ℕ → OrderBook × SubmitResult → Outcome (OrderBook × SubmitResult)
after_pruning order now (b, r) =
    if would_cross (opposite_side order.side) (best b (opposite_side order.side)) order.tick
    then ok (b, record r { post_only_rejected = true })
    else fill_and_rest order now b r

pub submit : NewOrder → ℕ → OrderBook → Outcome (OrderBook × SubmitResult)
submit order now b =
    let opposite = opposite_side order.side in
    if order.post_only
    then prune_expired_head (suc (length b.arena)) b opposite now default_result
      >>= after_pruning order now
    else fill_and_rest order now b default_result
