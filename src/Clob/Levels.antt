-- ===== src/Clob/Levels.antt =====
-- The two sides of the book of crates/clob/src/lib.rs: maps from prices to queues, best price first.
-- A `BTreeMap` is its list of entries in the order of its keys, ascending for the asks and, by
-- `Reverse`, descending for the bids. `lookup`, `erase` and `insert` at a key that is there are those
-- of the association lists.
pub mod Laws
use cerdic.Prelude.{
  ℕ, Bool, List, [], ◌∷◌, Option, none, some, push, Dict, ltb, ◌==◌, if◌then◌else◌,
}
use cerdic.Common.{Side, long, short}
use cerdic.Clob.Types.{Order}

abbrev pub Queue : Type 0
Queue = List Order

-- The ids of a queue, front first.
abbrev pub ids : Queue → List ℕ
ids [] = []
ids (o ∷ os) = o.id ∷ ids os

abbrev pub Levels : Type 0
Levels = Dict Queue

abbrev pub keys : Levels → List ℕ
keys [] = []
keys ((p, os) ∷ ls) = p ∷ keys ls

-- The order of the keys of a side's map.
abbrev pub before : Side → ℕ → ℕ → Bool
before long p q = ltb q p
before short p q = ltb p q

-- `entry(price).or_default().push_back(order)`
unfoldable pub push_level : Side → ℕ → Order → Levels → Levels
push_level side p o [] = (p, o ∷ []) ∷ []
push_level side p o ((q, os) ∷ ls) =
    let rest = push_level side p o ls in
    if p == q
    then (q, push os o) ∷ ls
    else if before side p q
    then (p, o ∷ []) ∷ (q, os) ∷ ls
    else (q, os) ∷ rest

-- `keys().next()`
abbrev pub first_key : Levels → Option ℕ
first_key [] = none
first_key ((p, os) ∷ ls) = some p

-- The queue at a price; an empty one where the map has no level.
abbrev pub or_empty : Option Queue → Queue
or_empty none = []
or_empty (some os) = os
