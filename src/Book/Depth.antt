-- ===== src/Book/Depth.antt =====
-- The depth views of crates/cerdic-tee-matcher/src/book.rs.
pub mod Laws
pub mod Cancel
use cerdic.Prelude.{ℕ, zero, suc, Option, none, some, List, [], ◌∷◌}
use mathlib.Core.Option
use cerdic.Common.{Side, long, short}
use cerdic.Book.Types.{add_u64, PriceLevel, BookSnapshot}
use cerdic.Book.Ladder.{next_worse_level, index_of, level, tick_at}
use cerdic.Book.State.{OrderBook, best, ladder}

unfoldable pub depth_at : OrderBook → Side → ℕ → ℕ
depth_at b side tick = elim (index_of (ladder b side) tick) [
  | none ↦ 0
  | some k ↦ (level (ladder b side) k).qty
]

-- The `while out.len() < max_levels` of `depth`, with the levels that are still allowed.
depth_loop : OrderBook → Side → ℕ → Option ℕ → ℕ → List PriceLevel
depth_loop b side zero cursor cumulative = []
depth_loop b side (suc n) none cumulative = []
depth_loop b side (suc n) (some tick) cumulative = elim (index_of (ladder b side) tick) [
  | none ↦ []
  | some k ↦
      let qty = (level (ladder b side) k).qty in
      let total = add_u64 cumulative qty in
      record { tick = tick; qty = qty; cumulative = total }
      ∷ depth_loop b side n
          (Option.map (tick_at (ladder b side)) (next_worse_level (ladder b side) side k)) total
]

unfoldable pub depth : OrderBook → Side → ℕ → List PriceLevel
unfolding depth_loop
depth b side max_levels = depth_loop b side max_levels (best b side) 0

unfoldable pub snapshot : OrderBook → ℕ → BookSnapshot
unfolding depth
snapshot b max_levels = record {
  best_bid = b.best_bid;
  best_ask = b.best_ask;
  bids = depth b long max_levels;
  asks = depth b short max_levels;
}
