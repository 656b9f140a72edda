-- ===== src/Book/Invariant.antt =====
-- The invariant of the order book of crates/cerdic-tee-matcher/src/book.rs. `q` gives, for each side
-- and tick, the slots of its orders, oldest first.
use cerdic.Prelude.{ℕ, ◌%◌, ◌≤◌, ◌<◌, ◌≡◌, none, some, List, [], arith, length, In, Distinct}
use cerdic.Common.{Side, long, short}
use cerdic.Book.Types.{nil, u64_mod, Level, empty_level}
use cerdic.Book.Ladder.Laws
use cerdic.Book.Ladder.Laws.{level_for}
use cerdic.Book.Ladder.Worse.{IsBest}
use cerdic.Book.State.{OrderBook, best, ladder, new_book}
use cerdic.Book.Segment.{Arena, Order, first_or, Segment, order_at, total, total-nil}

abbrev pub Queues : Type 0
Queues = Side → ℕ → List ℕ

-- A level stands for the queue `ids`: its list, without repetition, and its quantity modulo 2^64.
pub record Stands (a : Arena) (s : Side) (t : ℕ) (v : Level) (ids : List ℕ) : Type 0 where
  pub heads : v.head ≡ first_or nil ids
  pub linked : Segment a s t nil ids nil v.tail
  pub distinct : Distinct ids
  pub summed : v.qty ≡ total a ids % u64_mod

-- The arena, the ladders and the free slots agree with the queues.
pub record Linked (b : OrderBook) (q : Queues) : Type 0 where
  pub small : length b.arena ≤ nil
  pub ladders : (s : Side) → Laws.IsValid (ladder b s)
  pub levels : (s : Side) (t : ℕ) → Stands b.arena s t (level_for (ladder b s) t) (q s t)
  pub covered : (j : ℕ) (o : Order) → order_at b.arena j ≡ some o → In j (q o.side o.tick)
  pub sized :
      (j : ℕ) (o : Order) → order_at b.arena j ≡ some o → (o.qty < u64_mod) × (o.tick < u64_mod)
  pub unused : (j : ℕ) → In j b.free → (j < length b.arena) × (order_at b.arena j ≡ none)
  pub free_distinct : Distinct b.free

-- The whole invariant: the cached best prices are those of the ladders, too.
pub record IsValid (b : OrderBook) (q : Queues) : Type 0 where
  pub links : Linked b q
  pub bests : (s : Side) → IsBest s (ladder b s) (best b s)

new_ladders : (s : Side) → Laws.IsValid (ladder new_book s)
new_ladders long = Laws.new_ladder-IsValid
new_ladders short = Laws.new_ladder-IsValid

no_level : (s : Side) (t : ℕ) → level_for (ladder new_book s) t ≡ empty_level
no_level long t = Laws.level_for-new_ladder t
no_level short t = Laws.level_for-new_ladder t

-- The book that `new` makes is valid, with no order queued.
pub new_book-IsValid : IsValid new_book (λ s t. [])
new_book-IsValid = record {
  links = record {
    small = omega arith;
    ladders = new_ladders;
    levels = λ s t. record {
      heads = ground (arith, no_level s t);
      linked = ground (arith, no_level s t);
      distinct = tt;
      summed = none_queued s t;
    };
    covered = λ j o e. cc;
    sized = λ j o e. cc;
    unused = λ j m. absurd m;
    free_distinct = tt;
  };
  bests = none_best;
}
  where
    none_queued : (s : Side) (t : ℕ) → (level_for (ladder new_book s) t).qty ≡ total [] [] % u64_mod
    none_queued s t = ground (arith, no_level s t, total-nil [])

    none_best : (s : Side) → IsBest s (ladder new_book s) (best new_book s)
    none_best long = λ t. ground (arith, no_level long t)
    none_best short = λ t. ground (arith, no_level short t)
