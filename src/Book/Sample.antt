-- ===== src/Book/Sample.antt =====
-- A book with one resting ask, for the concrete runs of crates/cerdic-tee-matcher/src/book.rs, and
-- the proof that it is valid.
use cerdic.Prelude.{
  ℕ, zero, suc, ◌-◌, ◌%◌, ◌<◌, ◌≡◌, refl, sym, subst, subst₂, ap, ◌∙◌, inl, inr, true, false, not,
  Bool-cases, none, some, [], ◌∷◌, In, get_or_past, arith, ◌==◌, if◌then◌else◌,
}
use cerdic.Common.{Side, long, short}
use cerdic.Book.Types.{nil, u64_mod, OrderNode, Level, empty_level, is_empty}
use cerdic.Book.Occupancy.{Occupancy, empty, ensure_len, set, is_set}
use cerdic.Book.Occupancy.Laws
use cerdic.Book.Occupancy.Laws.{
  empty-IsValid, ensure_len-IsValid, set-IsValid, is_set-set, is_set-ensure_len, is_set-none,
}
use cerdic.Book.Ladder.{Ladder, new_ladder, level}
use cerdic.Book.Ladder.Laws as LadderLaws
use cerdic.Book.Ladder.Laws.{level_for, level_for_lem, new_ladder-IsValid, level_for-new_ladder}
use cerdic.Book.Ladder.Worse.{IsBest}
use cerdic.Book.State.{OrderBook, best, ladder}
use cerdic.Book.Segment.{Arena, Order, order_at, total, total-cons, total-nil}
use cerdic.Book.Invariant.{Queues, Stands, IsValid}

abbrev pub resting : OrderNode
resting = record {
  tick = 100;
  qty = 5;
  side = short;
  owner = 1;
  expiry = some 40;
  prev = nil;
  next = nil;
}

abbrev pub resting_level : Level
resting_level = record { head = 0; tail = 0; qty = 5 }

abbrev pub sample_occupancy : Occupancy
sample_occupancy = set (ensure_len empty 1) 0

abbrev pub sample_asks : Ladder
sample_asks = record { base_tick = 100; levels = resting_level ∷ []; occupancy = sample_occupancy }

abbrev pub sample_book : OrderBook
sample_book = record {
  bids = new_ladder;
  asks = sample_asks;
  arena = some resting ∷ [];
  free = [];
  best_bid = none;
  best_ask = some 100;
}

abbrev pub sample_queues : Queues
sample_queues long t = []
sample_queues short t = if 100 == t then 0 ∷ [] else []

sample_bit : (k : ℕ) → is_set sample_occupancy k ≡ (if 0 == k then true else false)
sample_bit k =
    is_set-set (ensure_len empty 1) 0 k (ensure_len-IsValid empty 1 empty-IsValid)
    ∙ rw (is_set-ensure_len empty 1 k, is_set-none k) refl

pub sample_occupancy-IsValid : Laws.IsValid sample_occupancy
sample_occupancy-IsValid =
    set-IsValid (ensure_len empty 1) 0 (ensure_len-IsValid empty 1 empty-IsValid)

pub sample_asks-IsValid : LadderLaws.IsValid sample_asks
sample_asks-IsValid = record {
  bitmap = sample_occupancy-IsValid;
  fits = omega arith;
  tracks = tracked;
}
  where
    tracked : (k : ℕ) → is_set sample_occupancy k ≡ not (is_empty (level sample_asks k))
    tracked zero = sample_bit zero
    tracked (suc k) = ground (arith, sample_bit (suc k))

pub sample_level :
    (t : ℕ) → level_for sample_asks t ≡ (if 100 == t then resting_level else empty_level)
sample_level t =
    ground
      (arith, level_for_lem sample_asks t, get_or_past (resting_level ∷ []) (t - 100) empty_level)

-- Where no order rests.
Stands-empty : (a : Arena) (s : Side) (t : ℕ) (v : Level) → v ≡ empty_level → Stands a s t v []
Stands-empty a s t v e =
    subst (λ (x : Level). Stands a s t x []) (sym e)
      (record {
        heads = refl;
        linked = refl;
        distinct = tt;
        summed = ap (λ (x : ℕ). x % u64_mod) (sym (total-nil a));
      })

sample_total : total sample_book.arena (0 ∷ []) ≡ 5
sample_total = omega (arith, total-cons sample_book.arena 0 [], total-nil sample_book.arena)

sample-Stands :
    (s : Side) (t : ℕ)
    → Stands sample_book.arena s t (level_for (ladder sample_book s) t) (sample_queues s t)
sample-Stands long t = Stands-empty sample_book.arena long t _ (level_for-new_ladder t)
sample-Stands short t = elim (Bool-cases (100 == t)) [
  | inl e ↦
      let at : 100 ≡ t = ground arith in
      subst
        (λ (u : ℕ).
          Stands sample_book.arena short u (level_for sample_asks u) (sample_queues short u))
        at
        (subst (λ (v : Level). Stands sample_book.arena short 100 v (0 ∷ []))
          (sym (sample_level 100))
          (record {
            heads = refl;
            linked = (resting, refl, refl, refl, refl, refl, refl);
            distinct = (tt, tt);
            summed = ap (λ (x : ℕ). x % u64_mod) (sym sample_total);
          }))
  | inr e ↦ rw e (Stands-empty sample_book.arena short t _ (sample_level t ∙ rw e refl))
]

pub sample_book-IsValid : IsValid sample_book sample_queues
sample_book-IsValid = record {
  links = record {
    small = omega arith;
    ladders = ladders;
    levels = sample-Stands;
    covered = covered;
    sized = sized;
    unused = λ j m. absurd m;
    free_distinct = tt;
  };
  bests = bests;
}
  where
    ladders : (s : Side) → LadderLaws.IsValid (ladder sample_book s)
    ladders long = new_ladder-IsValid
    ladders short = sample_asks-IsValid

    covered :
        (j : ℕ) (o : Order)
        → order_at sample_book.arena j ≡ some o
        → In j (sample_queues o.side o.tick)
    covered zero o e =
        let es : short ≡ o.side = ground arith in
        let et : 100 ≡ o.tick = ground arith in
        subst₂ (λ (x : Side) (y : ℕ). In 0 (sample_queues x y)) es et (inl refl)
    covered (suc j) o e = cc

    sized :
        (j : ℕ) (o : Order)
        → order_at sample_book.arena j ≡ some o
        → (o.qty < u64_mod) × (o.tick < u64_mod)
    sized zero o e = (ground arith, ground arith)
    sized (suc j) o e = cc

    bests : (s : Side) → IsBest s (ladder sample_book s) (best sample_book s)
    bests long = λ t. ap is_empty (level_for-new_ladder t)
    bests short =
        (ap is_empty (sample_level 100), λ t h. ap is_empty (sample_level t) ∙ ground arith)
