-- ===== src/Book/Ladder.antt =====
-- `Ladder` of crates/cerdic-tee-matcher/src/book.rs: the dense array of price levels of one side.
-- A level index always comes from `ensure` or `index_of`; one out of range, at which the source
-- panics, reads the empty level here and writes nothing.
pub mod Laws
pub mod Worse
use cerdic.Prelude.{
  ℕ, zero, suc, ◌+◌, ◌-◌, ◌%◌, Option, none, some, List, [], ◌∷◌, ◌++◌, length, get_or, set,
  replicate, resize, ltb, leb, if◌then◌else◌,
}
use mathlib.Core.Option
use cerdic.Common.{Side, long, short}
use cerdic.Book.Types.{Level, empty_level, u64_mod}
use cerdic.Book.Occupancy.{Occupancy}
use cerdic.Book.Occupancy

pub record Ladder : Type 0 where
  pub base_tick : ℕ
  pub levels : List Level
  pub occupancy : Occupancy

-- `Ladder::new()`
abbrev pub new_ladder : Ladder
new_ladder = record { base_tick = 0; levels = []; occupancy = Occupancy.empty }

-- `ensure` below the base: the levels are prepended, and the tick is at index 0.
rebase : Ladder → ℕ → Ladder
rebase l tick =
    let shift = l.base_tick - tick in
    let grown = replicate shift empty_level ++ l.levels in
    record {
      base_tick = tick;
      levels = grown;
      occupancy = Occupancy.shift_up l.occupancy shift (length grown);
    }

-- `ensure` at or above the base.
extend : Ladder → ℕ → Ladder × ℕ
extend l tick =
    let idx = tick - l.base_tick in
    if leb (length l.levels) idx
    then (
      record l {
        levels = resize l.levels (idx + 1) empty_level;
        occupancy = Occupancy.ensure_len l.occupancy (idx + 1);
      },
      idx,
    )
    else (l, idx)

unfoldable pub ensure : Ladder → ℕ → Ladder × ℕ
unfolding rebase extend
ensure l tick = elim l.levels [
  | [] ↦ (
    record {
      base_tick = tick;
      levels = empty_level ∷ [];
      occupancy = Occupancy.ensure_len l.occupancy 1;
    },
    0,
  )
  | first ∷ others ↦ if ltb tick l.base_tick then (rebase l tick, 0) else extend l tick
]

abbrev pub mark_occupied : Ladder → ℕ → Ladder
mark_occupied l idx = record l { occupancy = Occupancy.set l.occupancy idx }

abbrev pub mark_empty : Ladder → ℕ → Ladder
mark_empty l idx = record l { occupancy = Occupancy.clear l.occupancy idx }

-- `checked_sub(1)`, for the bids, where worse is lower.
unfoldable pub next_worse_level : Ladder → Side → ℕ → Option ℕ
next_worse_level l long zero = none
next_worse_level l long (suc i) = Occupancy.prev_set_from l.occupancy i
next_worse_level l short i = Occupancy.next_set_from l.occupancy (i + 1)

unfoldable pub index_of : Ladder → ℕ → Option ℕ
index_of l tick =
    if ltb tick l.base_tick
    then none
    else if ltb (tick - l.base_tick) (length l.levels)
    then some (tick - l.base_tick)
    else none

abbrev pub level : Ladder → ℕ → Level
level l idx = get_or l.levels idx empty_level

-- A write through `level_mut`.
abbrev pub put_level : Ladder → ℕ → Level → Ladder
put_level l idx v = record l { levels = set l.levels idx v }

abbrev pub tick_at : Ladder → ℕ → ℕ
tick_at l idx = (l.base_tick + idx) % u64_mod
