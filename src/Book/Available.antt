-- ===== src/Book/Available.antt =====
-- `available_to_match` of crates/cerdic-tee-matcher/src/book.rs: the walk that answers a
-- fill-or-kill order. Each loop of the source takes fuel here: one more round than there are slots
-- in the arena, or levels in the ladder.
use cerdic.Prelude.{
  ℕ, zero, suc, ◌+◌, ◌-◌, Bool, true, false, not, ◌&&◌, Option, none, some, length, min, leb, ◌==◌,
  if◌then◌else◌,
}
use mathlib.Core.Option
use cerdic.Common.{Side, long, short, opposite_side}
use cerdic.Book.Types.{nil, u64_mod, is_expired, Outcome, ok, out_of_fuel, ◌>>=◌}
use cerdic.Book.Ladder.{next_worse_level, index_of, level, tick_at}
use cerdic.Book.State.{OrderBook, best, ladder, slot}

-- Does an order at `tick` on `side` cross a resting one at `level_tick`?
abbrev pub crosses : Side → ℕ → ℕ → Bool
crosses long tick level_tick = leb level_tick tick
crosses short tick level_tick = leb tick level_tick

-- The inner `while cur != NIL` of `available_to_match`: the total so far, and whether it sufficed.
walk_level : ℕ → OrderBook → ℕ → ℕ → ℕ → ℕ → ℕ → Outcome (ℕ × Bool)
walk_level zero b cur total needed owner now = out_of_fuel
walk_level (suc f) b cur total needed owner now =
    let walk = do
      node ← slot b cur
      let counts = not (is_expired node.expiry now) && not (node.owner == owner)
      let total' = if counts then min (total + node.qty) (u64_mod - 1) else total
      let rest = walk_level f b node.next total' needed owner now
      if counts && leb needed total' then ok (total', true) else rest
    in if cur == nil then ok (total, false) else walk

-- The outer `while let Some(lt)`.
walk_levels : ℕ → OrderBook → Side → ℕ → ℕ → ℕ → ℕ → Option ℕ → ℕ → Outcome ℕ
walk_levels zero b side tick needed owner now level_tick total = out_of_fuel
walk_levels (suc f) b side tick needed owner now none total = ok total
walk_levels (suc f) b side tick needed owner now (some lt) total =
    let opposite = opposite_side side in
    let walk : Outcome ℕ = elim (index_of (ladder b opposite) lt) [
      | none ↦ ok total
      | some k ↦ do
        (total', enough) ←
            walk_level (suc (length b.arena)) b (level (ladder b opposite) k).head total needed
              owner now
        let rest =
            walk_levels f b side tick needed owner now
              (Option.map (tick_at (ladder b opposite))
                (next_worse_level (ladder b opposite) opposite k))
              total'
        if enough then ok total' else rest
    ] in
    if crosses side tick lt then walk else ok total

unfoldable pub available_to_match : OrderBook → Side → ℕ → ℕ → ℕ → ℕ → Outcome ℕ
unfolding walk_level walk_levels
available_to_match b side tick needed owner now =
    walk_levels (suc (suc (length (ladder b (opposite_side side)).levels))) b side tick needed owner
      now (best b (opposite_side side)) 0
