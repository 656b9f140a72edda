-- ===== src/Book/Tests.antt =====
-- Concrete runs of crates/cerdic-tee-matcher/src/book.rs.
use cerdic.Prelude.{
  some, ◌+◌, ◌%◌, ℕ, ◌≡◌, refl, ap, ◌∙◌, arith, true, false, ◌&&◌, delete, leb, if◌then◌else◌, ◌==◌,
  ◌-◌,
}
use cerdic.Common.{Side, long, short}
use cerdic.Book.Types.{
  u64_mod, NewOrder, is_empty, good_til_cancel, default_result, Outcome, ok, SubmitResult, ◌>>=◌,
}
use cerdic.Book.Occupancy.{is_set, set, clear, shift_up, next_set_from, prev_set_from}
use cerdic.Book.Occupancy.Laws.{is_set-set, is_set-clear, is_set-shift_up}
use cerdic.Book.Occupancy.Words.{IsNext, IsPrev}
use cerdic.Book.Occupancy.Next.{next_set_from-IsNext}
use cerdic.Book.Occupancy.Prev.{prev_set_from-IsPrev}
use mathlib.Core.Option
use cerdic.Book.Ladder.{Ladder, ensure, tick_at, next_worse_level}
use cerdic.Book.Ladder.Worse.{IsBest, next_worse_level-IsBest}
use cerdic.Book.Ladder.Laws.{Ensured, ensure_lem}
use cerdic.Book.State.{OrderBook, new_book}
use cerdic.Book.Invariant.{Linked}
use cerdic.Book.Links.{unlink, cancel}
use cerdic.Book.Links.Unlink.{unlink-Linked}
use cerdic.Book.Links.Cancel.{Cancelled, cancel-IsValid}
use cerdic.Book.Depth.{depth_at}
use cerdic.Book.Depth.Cancel.{depth_at-cancel}
use cerdic.Book.Matching.{Matching, match_loop}
use cerdic.Book.Matching.Loop.{Ends, match_loop-Ends}
use cerdic.Book.Removal.Count.{live_orders-length}
use cerdic.Book.Submit.{prune_expired_head, submit}
use cerdic.Book.Submit.Prune.{Pruned, prune_expired_head-Pruned}
use cerdic.Book.Sample.{
  resting, sample_book, sample_queues, sample_book-IsValid, sample_asks, sample_level,
  sample_asks-IsValid, sample_occupancy, sample_occupancy-IsValid,
}

abbrev ask : ℕ → ℕ → ℕ → NewOrder
ask t q o = record {
  side = short;
  tick = t;
  qty = q;
  owner = o;
  tif = good_til_cancel;
  post_only = false;
}

abbrev bid : ℕ → ℕ → ℕ → NewOrder
bid t q o = record {
  side = long;
  tick = t;
  qty = q;
  owner = o;
  tif = good_til_cancel;
  post_only = false;
}

-- A buyer of 3 at 101 meets the resting ask of 5 at 100.
abbrev taker : Matching
taker = record { book = sample_book; qty = 3; result = default_result }

match_loop-Ends_example : Ends (bid 101 3 2) taker (match_loop 3 (bid 101 3 2) 0 taker)
match_loop-Ends_example =
    match_loop-Ends 3 (bid 101 3 2) 0 taker sample_queues sample_book-IsValid
      (omega (arith, live_orders-length sample_book.arena))

prune_expired_head-Pruned_example :
    Pruned sample_book short 50 (prune_expired_head 2 sample_book short 50 default_result)
prune_expired_head-Pruned_example =
    prune_expired_head-Pruned 2 sample_book sample_queues short 50 default_result
      sample_book-IsValid (omega (arith, live_orders-length sample_book.arena))

cancel-IsValid_example : Cancelled sample_book sample_queues 0 resting
cancel-IsValid_example = cancel-IsValid sample_book sample_queues sample_book-IsValid 0 resting refl

depth_at-cancel_example :
    (b' : OrderBook) × (cancel sample_book 0 ≡ ok (some (100, 5), b'))
    × ((depth_at b' short 100 + 5) % u64_mod ≡ depth_at sample_book short 100)
    × ((s : Side) (t : ℕ) → (short ≡ s → 100 ≡ t → ⊥) → depth_at b' s t ≡ depth_at sample_book s t)
depth_at-cancel_example =
    depth_at-cancel sample_book sample_queues 0 resting sample_book-IsValid refl

ensure_lem_example : Ensured sample_asks 97 (ensure sample_asks 97)
ensure_lem_example = ensure_lem sample_asks 97 sample_asks-IsValid (omega arith)

-- The asks with an empty level below them.
abbrev wider : Ladder × ℕ
wider = ensure sample_asks 99

wider_lem : Ensured sample_asks 99 wider
wider_lem = ensure_lem sample_asks 99 sample_asks-IsValid (omega arith)

next_worse_level-IsBest_example :
    IsBest short wider.0 (Option.map (tick_at wider.0) (next_worse_level wider.0 short wider.1))
next_worse_level-IsBest_example =
    next_worse_level-IsBest wider.0 wider_lem.0 short 99 wider.1 wider_lem.1
      (ap is_empty (wider_lem.2 99 ∙ sample_level 99))
      (λ t h. ap is_empty (wider_lem.2 t ∙ sample_level t) ∙ ground arith)

next_set_from-IsNext_example : IsNext (is_set sample_occupancy) 0 (next_set_from sample_occupancy 0)
next_set_from-IsNext_example = next_set_from-IsNext sample_occupancy sample_occupancy-IsValid 0

prev_set_from-IsPrev_example :
    IsPrev (is_set sample_occupancy) 40 (prev_set_from sample_occupancy 40)
prev_set_from-IsPrev_example = prev_set_from-IsPrev sample_occupancy sample_occupancy-IsValid 40

is_set-set_example :
    is_set (set sample_occupancy 70) 70 ≡ (if 70 == 70 then true else is_set sample_occupancy 70)
is_set-set_example = is_set-set sample_occupancy 70 70 sample_occupancy-IsValid

is_set-clear_example :
    is_set (clear sample_occupancy 0) 0 ≡ (if 0 == 0 then false else is_set sample_occupancy 0)
is_set-clear_example = is_set-clear sample_occupancy 0 0 sample_occupancy-IsValid

is_set-shift_up_example :
    is_set (shift_up sample_occupancy 65 66) 65 ≡ (leb 65 65 && is_set sample_occupancy (65 - 65))
is_set-shift_up_example = is_set-shift_up sample_occupancy 65 66 65

unlink-Linked_example :
    (b' : OrderBook) × (unlink sample_book 0 ≡ ok (resting, b'))
    × Linked b' (λ s t. delete 0 (sample_queues s t))
unlink-Linked_example =
    unlink-Linked sample_book sample_queues sample_book-IsValid.links 0 resting refl

run1 : Outcome (OrderBook × SubmitResult)
run1 = do
  (b1, _) ← submit (ask 105 3 1) 0 new_book
  (b2, _) ← submit (ask 100 2 1) 0 b1
  (b3, _) ← submit (ask 100 4 2) 0 b2
  submit (bid 105 8 3) 0 b3
