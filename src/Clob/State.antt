-- ===== src/Clob/State.antt =====
-- `OrderBook` of crates/clob/src/lib.rs: its state and the calls that read it.
use cerdic.Prelude.{
  ℕ, Bool, true, false, Option, none, some, List, [], ◌∷◌, length, Dict, lookup, ◌==◌,
  if◌then◌else◌,
}
use cerdic.Common.{Side, long, short}
use cerdic.Clob.Types.{Order}
use cerdic.Clob.Levels.{Queue, ids, Levels, first_key, or_empty}

pub record BookLocation : Type 0 where
  pub side : Side
  pub price : ℕ

pub record OrderBook : Type 0 where
  pub asks : Levels
  pub bids : Levels
  pub index : Dict BookLocation

-- `OrderBook::new()`
abbrev pub new_book : OrderBook
new_book = record { asks = []; bids = []; index = [] }

-- The map that `match location.side` selects, and a write to it.
abbrev pub levels : OrderBook → Side → Levels
levels b long = b.bids
levels b short = b.asks

abbrev pub put_levels : OrderBook → Side → Levels → OrderBook
put_levels b long ls = record b { bids = ls }
put_levels b short ls = record b { asks = ls }

abbrev pub len : OrderBook → ℕ
len b = length b.index

abbrev pub is_empty : OrderBook → Bool
is_empty b = length b.index == 0

abbrev pub best_bid : OrderBook → Option ℕ
best_bid b = first_key b.bids

abbrev pub best_ask : OrderBook → Option ℕ
best_ask b = first_key b.asks

abbrev pub is_some {ℓ} : {A : Type ℓ} → Option A → Bool
is_some none = false
is_some (some a) = true

abbrev pub contains : OrderBook → ℕ → Bool
contains b order_id = is_some (lookup order_id b.index)

-- `iter().find(|order| order.id == order_id)`
unfoldable pub find_order : ℕ → Queue → Option Order
find_order order_id [] = none
find_order order_id (o ∷ os) =
    let rest = find_order order_id os in if o.id == order_id then some o else rest

-- `OrderBook::order`
unfoldable pub order : OrderBook → ℕ → Option Order
order b order_id = elim (lookup order_id b.index) [
  | none ↦ none
  | some location ↦ elim (lookup location.price (levels b location.side)) [
    | none ↦ none
    | some level ↦ find_order order_id level
  ]
]

-- The queue at a price.
abbrev pub queue_at : OrderBook → Side → ℕ → Queue
queue_at b side price = or_empty (lookup price (levels b side))

abbrev pub order_ids_at : OrderBook → Side → ℕ → List ℕ
order_ids_at b side price = ids (queue_at b side price)
