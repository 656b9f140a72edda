-- ===== src/Book/Matching.antt =====
-- The matching loop of `submit` in crates/cerdic-tee-matcher/src/book.rs: one round, and the loop on
-- fuel.
pub mod Rounds
pub mod Loop
use cerdic.Prelude.{
  ℕ, zero, suc, ◌-◌, Bool, true, false, Option, none, some, push, min, ◌==◌, if◌then◌else◌,
}
use cerdic.Common.{Side, opposite_side}
use cerdic.Book.Types.{
  sub_u64, NewOrder, OrderNode, is_empty, is_expired, Fill, SubmitResult, Outcome, ok, panicked,
  out_of_fuel, ◌>>=◌,
}
use cerdic.Book.Ladder.{index_of, level}
use cerdic.Book.State.{OrderBook, best, ladder, put_level_at, put_slot, slot}
use cerdic.Book.Links.{advance_best_from, unlink}
use cerdic.Book.Available.{crosses}

-- `expect` on the level that a cached best price names.
abbrev pub level_index : OrderBook → Side → ℕ → Outcome ℕ
level_index b side tick = elim (index_of (ladder b side) tick) [ none ↦ panicked | some k ↦ ok k ]

-- After a removal at a level: move on when it has emptied.
abbrev pub advance_if_empty : OrderBook → Side → ℕ → ℕ → OrderBook
advance_if_empty b side k tick =
    if is_empty (level (ladder b side) k) then advance_best_from b side tick else b

-- What the matching loop carries: the book, the taker's quantity and the result so far.
pub record Matching : Type 0 where
  pub book : OrderBook
  pub qty : ℕ
  pub result : SubmitResult

-- A head that is expired or the taker's own is taken out and reported.
pub drop_head : Matching → Side → ℕ → ℕ → ℕ → Bool → Outcome Matching
drop_head m opposite k level_tick head expired = do
  (_, b) ← unlink m.book head
  let r = m.result
  ok (record {
    book = advance_if_empty b opposite k level_tick;
    qty = m.qty;
    result =
        if expired
        then record r { expired = push r.expired head }
        else record r { self_trade_cancelled = push r.self_trade_cancelled head };
  })

-- What is left of the maker when `traded` of it has gone.
pub take_from_maker : OrderBook → Side → ℕ → ℕ → OrderNode → ℕ → Outcome OrderBook
take_from_maker b opposite k head node traded =
    let l = level (ladder b opposite) k in
    let partial =
      put_level_at (put_slot b head (some (record node { qty = node.qty - traded }))) opposite k
        (record l { qty = sub_u64 l.qty traded }) in
    let filled = do (_, b₁) ← unlink b head; ok b₁
    in if traded == node.qty then filled else ok partial

abbrev pub fill_of : ℕ → OrderNode → ℕ → ℕ → Fill
fill_of head node level_tick qty = record {
  maker_id = head;
  maker_owner = node.owner;
  tick = level_tick;
  qty = min qty node.qty;
  maker_filled = min qty node.qty == node.qty;
  maker_size_before = node.qty;
  taker_size_before = qty;
}

pub trade_with_head : Matching → Side → ℕ → ℕ → ℕ → OrderNode → Outcome Matching
trade_with_head m opposite k level_tick head node = do
  let traded = min m.qty node.qty
  b ← take_from_maker m.book opposite k head node traded
  let r = m.result
  ok (record {
    book = advance_if_empty b opposite k level_tick;
    qty = m.qty - traded;
    result = record r { fills = push r.fills (fill_of head node level_tick m.qty) };
  })

-- One round of the matching loop at the best opposite level; `none` is `break`.
pub match_level : NewOrder → ℕ → Matching → ℕ → Outcome (Option Matching)
match_level order now m level_tick =
    let opposite = opposite_side order.side in
    do
      k ← level_index m.book opposite level_tick
      let head = (level (ladder m.book opposite) k).head
      node ← slot m.book head
      let expired = is_expired node.expiry now
      m' ←
          if expired
          then drop_head m opposite k level_tick head true
          else if node.owner == order.owner
          then drop_head m opposite k level_tick head false
          else trade_with_head m opposite k level_tick head node
      ok (some m')

pub match_round : NewOrder → ℕ → Matching → Outcome (Option Matching)
match_round order now m =
    let opposite = opposite_side order.side in
    if m.qty == 0 then ok none else elim (best m.book opposite) [
      | none ↦ ok none
      | some level_tick ↦
          if crosses order.side order.tick level_tick
          then match_level order now m level_tick
          else ok none
    ]

pub match_loop : ℕ → NewOrder → ℕ → Matching → Outcome Matching
match_loop zero order now m = out_of_fuel
match_loop (suc f) order now m = do
  next ← match_round order now m
  elim next [ none ↦ ok m | some m' ↦ match_loop f order now m' ]
