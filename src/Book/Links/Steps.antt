-- ===== src/Book/Links/Steps.antt =====
-- The ladders and fields of a book under the writes of crates/cerdic-tee-matcher/src/book.rs.
use cerdic.Prelude.{
  ℕ, ◌+◌, ◌%◌, ◌<◌, ◌≡◌, refl, sym, ◌∙◌, ◌≢◌, inl, inr, false, Bool-cases, Option, some, List,
  arith, length, ◌==◌, if◌then◌else◌, get_or-set, length-set,
}
use cerdic.Common.{Side, long, short}
use cerdic.Book.Types.{u64_mod, sub_u64, OrderNode, empty_level, is_empty}
use cerdic.Book.Occupancy.{Occupancy, clear}
use cerdic.Book.Occupancy.Laws
use cerdic.Book.Ladder.{Ladder, index_of, level, put_level}
use cerdic.Book.Ladder.Laws as LadderLaws
use cerdic.Book.Ladder.Laws.{level_for, index_of-some, index_of_nonempty, level_for-put_level}
use cerdic.Book.State.{OrderBook, best, set_best, ladder, put_ladder}
use cerdic.Book.Segment.{Arena}
use cerdic.Book.Links.Runs.{without, ladder_without}

same_index :
    (m : Ladder) (o : Occupancy) (u : ℕ) → index_of (record m { occupancy = o }) u ≡ index_of m u
same_index m o u = LadderLaws.index_of-occupancy m o u

-- The bitmap is no part of a level.
same_levels :
    (m : Ladder) (o : Occupancy) (u : ℕ) → level_for (record m { occupancy = o }) u ≡ level_for m u
same_levels m o u =
    LadderLaws.level_for_lem (record m { occupancy = o }) u ∙ sym (LadderLaws.level_for_lem m u)

-- The ladder when the level at index `k` has lost a node.
module _ (l : Ladder) (v : LadderLaws.IsValid l) (t k : ℕ) (n : OrderNode)
    (at : index_of l t ≡ some k) (full : is_empty (level l k) ≡ false) where
  in_room : k < length l.levels
  in_room = (index_of-some l t k at).1

  pub ladder_without-IsValid : LadderLaws.IsValid (ladder_without l k n)
  ladder_without-IsValid =
      let w = without (level l k) n in
      elim (Bool-cases (is_empty w)) [
        | inl e ↦ rw e (record {
          bitmap = Laws.clear-IsValid l.occupancy k v.bitmap;
          fits = omega (arith, v.fits, length-set l.levels k w);
          tracks = λ j. ground (
            arith,
            Laws.is_set-clear l.occupancy k j v.bitmap,
            get_or-set l.levels k j w empty_level in_room,
            v.tracks j,
          );
        })
        | inr e ↦ rw e (record {
          bitmap = v.bitmap;
          fits = omega (arith, v.fits, length-set l.levels k w);
          tracks = λ j. ground (arith, get_or-set l.levels k j w empty_level in_room, v.tracks j);
        })
      ]

  pub level_for-ladder_without :
      (t' : ℕ)
      → level_for (ladder_without l k n) t'
        ≡ (if t == t' then without (level l k) n else level_for l t')
  level_for-ladder_without t' =
      let w = without (level l k) n in
      let put = level_for-put_level l t k w t' at in
      elim (Bool-cases (is_empty w)) [
        | inl e ↦ rw e (same_levels (put_level l k w) (clear l.occupancy k) t' ∙ put)
        | inr e ↦ rw e put
      ]

  pub index_of-ladder_without : (t' : ℕ) → index_of (ladder_without l k n) t' ≡ index_of l t'
  index_of-ladder_without t' =
      let w = without (level l k) n in
      let put = LadderLaws.index_of-put_level l k w t' in
      elim (Bool-cases (is_empty w)) [
        | inl e ↦ rw e (same_index (put_level l k w) (clear l.occupancy k) t' ∙ put)
        | inr e ↦ rw e put
      ]

pub best-put_ladder :
    (b : OrderBook) (s s' : Side) (l : Ladder) → best (put_ladder b s l) s' ≡ best b s'
best-put_ladder b long long l = refl
best-put_ladder b long short l = refl
best-put_ladder b short long l = refl
best-put_ladder b short short l = refl

pub best-set_best : (b : OrderBook) (s : Side) (t : Option ℕ) → best (set_best b s t) s ≡ t
best-set_best b long t = refl
best-set_best b short t = refl

pub best-set_best_ne :
    (b : OrderBook) (s s' : Side) (t : Option ℕ) → s ≢ s' → best (set_best b s t) s' ≡ best b s'
best-set_best_ne b long long t h = absurd (h refl)
best-set_best_ne b long short t h = refl
best-set_best_ne b short long t h = refl
best-set_best_ne b short short t h = absurd (h refl)

pub ladder-set_best :
    (b : OrderBook) (s s' : Side) (t : Option ℕ) → ladder (set_best b s t) s' ≡ ladder b s'
ladder-set_best b long long t = refl
ladder-set_best b long short t = refl
ladder-set_best b short long t = refl
ladder-set_best b short short t = refl

pub arena-set_best : (b : OrderBook) (s : Side) (t : Option ℕ) → (set_best b s t).arena ≡ b.arena
arena-set_best b long t = refl
arena-set_best b short t = refl

pub free-set_best : (b : OrderBook) (s : Side) (t : Option ℕ) → (set_best b s t).free ≡ b.free
free-set_best b long t = refl
free-set_best b short t = refl

pub ladder-fields :
    (b : OrderBook) (a : Arena) (f : List ℕ) (s : Side)
    → ladder (record b { arena = a; free = f }) s ≡ ladder b s
ladder-fields b a f long = refl
ladder-fields b a f short = refl

pub ladder-put_ladder : (b : OrderBook) (s : Side) (l : Ladder) → ladder (put_ladder b s l) s ≡ l
ladder-put_ladder b long l = refl
ladder-put_ladder b short l = refl

pub ladder-put_ladder_ne :
    (b : OrderBook) (s s' : Side) (l : Ladder) → s ≢ s' → ladder (put_ladder b s l) s' ≡ ladder b s'
ladder-put_ladder_ne b long long l h = absurd (h refl)
ladder-put_ladder_ne b long short l h = refl
ladder-put_ladder_ne b short long l h = refl
ladder-put_ladder_ne b short short l h = absurd (h refl)

pub arena-put_ladder : (b : OrderBook) (s : Side) (l : Ladder) → (put_ladder b s l).arena ≡ b.arena
arena-put_ladder b long l = refl
arena-put_ladder b short l = refl

pub free-put_ladder : (b : OrderBook) (s : Side) (l : Ladder) → (put_ladder b s l).free ≡ b.free
free-put_ladder b long l = refl
free-put_ladder b short l = refl

-- The quantity of a level that loses an order.
pub qty_left :
    (total_before rest x v : ℕ)
    → total_before ≡ x + rest
    → x < u64_mod
    → v ≡ total_before % u64_mod
    → sub_u64 v x ≡ rest % u64_mod
qty_left a r x v e h f = omega arith
