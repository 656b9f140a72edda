-- ===== src/Book/State.antt =====
-- `OrderBook` of crates/cerdic-tee-matcher/src/book.rs: its state and the arena of order nodes.
-- `free` is the vector of free slots, its last element first.
use cerdic.Prelude.{
  ℕ, ◌%◌, ◌^◌, Option, none, some, List, [], ◌∷◌, length, get_elem?, set, push, ltb, if◌then◌else◌,
}
use mathlib.Core.Option
use cerdic.Common.{Side, long, short}
use cerdic.Book.Types.{OrderNode, Level, Outcome, ok, panicked, ◌>>=◌}
use cerdic.Book.Ladder.{Ladder, new_ladder, put_level}

pub record OrderBook : Type 0 where
  pub bids : Ladder
  pub asks : Ladder
  pub arena : List (Option OrderNode)
  pub free : List ℕ
  pub best_bid : Option ℕ
  pub best_ask : Option ℕ

-- `OrderBook::new()`
abbrev pub new_book : OrderBook
new_book = record {
  bids = new_ladder;
  asks = new_ladder;
  arena = [];
  free = [];
  best_bid = none;
  best_ask = none;
}

-- `best_bid` for the long side, `best_ask` for the short one.
abbrev pub best : OrderBook → Side → Option ℕ
best b long = b.best_bid
best b short = b.best_ask

abbrev pub set_best : OrderBook → Side → Option ℕ → OrderBook
set_best b long t = record b { best_bid = t }
set_best b short t = record b { best_ask = t }

abbrev pub ladder : OrderBook → Side → Ladder
ladder b long = b.bids
ladder b short = b.asks

-- A write through `ladder_mut`.
abbrev pub put_ladder : OrderBook → Side → Ladder → OrderBook
put_ladder b long l = record b { bids = l }
put_ladder b short l = record b { asks = l }

-- The two writes of `level_mut(idx)` that follow `ladder_mut(side)`.
abbrev pub put_level_at : OrderBook → Side → ℕ → Level → OrderBook
put_level_at b side k v = put_ladder b side (put_level (ladder b side) k v)

unfoldable pub alloc : OrderBook → OrderNode → Outcome (OrderBook × ℕ)
alloc b node = elim b.free [
  | [] ↦ ok (record b { arena = push b.arena (some node) }, length b.arena % 2 ^ 32)
  | idx ∷ rest ↦
      if ltb idx (length b.arena)
      then ok (record b { free = rest; arena = set b.arena idx (some node) }, idx)
      else panicked
]

abbrev pub slot_of : Option (Option OrderNode) → Outcome OrderNode
slot_of none = panicked
slot_of (some none) = panicked
slot_of (some (some node)) = ok node

abbrev pub slot : OrderBook → ℕ → Outcome OrderNode
slot b idx = slot_of (get_elem? b.arena idx)

abbrev pub put_slot : OrderBook → ℕ → Option OrderNode → OrderBook
put_slot b idx node = record b { arena = set b.arena idx node }

-- `self.slot_mut(idx).next = v` and `self.slot_mut(idx).prev = v`
unfoldable pub set_next : OrderBook → ℕ → ℕ → Outcome OrderBook
set_next b idx v = do node ← slot b idx; ok (put_slot b idx (some (record node { next = v })))

unfoldable pub set_prev : OrderBook → ℕ → ℕ → Outcome OrderBook
set_prev b idx v = do node ← slot b idx; ok (put_slot b idx (some (record node { prev = v })))

unfoldable pub owner_of : OrderBook → ℕ → Option ℕ
owner_of b id = elim (get_elem? b.arena id) [
  | none ↦ none
  | some slot ↦ Option.map (λ node. node.owner) slot
]
