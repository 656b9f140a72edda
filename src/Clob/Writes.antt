-- ===== src/Clob/Writes.antt =====
-- The book of crates/clob/src/lib.rs after one of its maps and its index are written.
use cerdic.Prelude.{ℕ, ◌≡◌, refl, sym, subst, Dict}
use cerdic.Common.{Side, long, short, opposite_side}
use cerdic.Clob.Levels.{Levels}
use cerdic.Clob.Levels.Laws.{Ordered}
use cerdic.Clob.State.{BookLocation, OrderBook, levels, put_levels, queue_at}
use cerdic.Clob.Matching.Views.{view}
use cerdic.Clob.Index.{Agrees}
use cerdic.Clob.Invariant.{IsValid, Agrees-cong, put_levels-Ordered}

-- The book with other levels on one side, and another index.
abbrev pub swept_book : OrderBook → Side → Levels → Dict BookLocation → OrderBook
swept_book b s ls ix = put_levels (record b { index = ix }) s ls

pub swept_queue :
    (b : OrderBook) (s : Side) (ls : Levels) (ix : Dict BookLocation) (x : Side) (p : ℕ)
    → queue_at (swept_book b s ls ix) x p ≡ view b s ls x p
swept_queue b long ls ix long p = refl
swept_queue b long ls ix short p = refl
swept_queue b short ls ix long p = refl
swept_queue b short ls ix short p = refl

pub swept_levels :
    (b : OrderBook) (ix : Dict BookLocation) (x : Side)
    → levels (record b { index = ix }) x ≡ levels b x
swept_levels b ix long = refl
swept_levels b ix short = refl

pub swept_index :
    (b : OrderBook) (s : Side) (ls : Levels) (ix : Dict BookLocation)
    → (swept_book b s ls ix).index ≡ ix
swept_index b long ls ix = refl
swept_index b short ls ix = refl

pub swept_own :
    (b : OrderBook) (t : Side) (ls : Levels) (ix : Dict BookLocation) (p : ℕ)
    → queue_at (swept_book b (opposite_side t) ls ix) t p ≡ queue_at b t p
swept_own b long ls ix p = refl
swept_own b short ls ix p = refl

pub swept_book-IsValid :
    (b : OrderBook) (s : Side) (ls : Levels) (ix : Dict BookLocation)
    → IsValid b
    → Ordered s ls
    → Agrees ix (view b s ls)
    → IsValid (swept_book b s ls ix)
swept_book-IsValid b s ls ix v d g = record {
  agrees =
      subst (λ (y : Dict BookLocation). Agrees y (queue_at (swept_book b s ls ix)))
        (sym (swept_index b s ls ix))
        (Agrees-cong ix (view b s ls) (queue_at (swept_book b s ls ix)) (swept_queue b s ls ix) g);
  ordered =
      put_levels-Ordered (record b { index = ix }) s ls
        (λ x. subst (Ordered x) (sym (swept_levels b ix x)) (v.ordered x)) d;
}
