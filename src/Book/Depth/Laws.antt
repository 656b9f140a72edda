-- ===== src/Book/Depth/Laws.antt =====
-- The depth views of crates/cerdic-tee-matcher/src/book.rs on a valid book.
use cerdic.Prelude.{ℕ, ◌%◌, ◌≡◌, ◌∙◌, refl, inl, inr, Option-cases}
use cerdic.Common.{Side}
use cerdic.Book.Types.{u64_mod}
use cerdic.Book.Ladder.{index_of}
use cerdic.Book.Ladder.Laws.{level_for}
use cerdic.Book.State.{OrderBook, ladder}
use cerdic.Book.Segment.{total}
use cerdic.Book.Invariant.{Queues, Linked}
use cerdic.Book.Depth.{depth_at}

depth_at-level_for :
    (b : OrderBook) (s : Side) (t : ℕ) → depth_at b s t ≡ (level_for (ladder b s) t).qty
unfolding depth_at
depth_at-level_for b s t = elim (Option-cases (index_of (ladder b s) t)) [
  | inl e ↦ rw (e, depth_at, level_for) refl
  | inr (k, e) ↦ rw (e, depth_at, level_for) refl
]

-- On a linked book, `depth_at` is the sum of the quantities of the orders queued at its side and tick,
-- modulo 2^64; 0 where none is.
pub depth_at-total :
    (b : OrderBook) (q : Queues) (s : Side) (t : ℕ)
    → Linked b q
    → depth_at b s t ≡ total b.arena (q s t) % u64_mod
depth_at-total b q s t g = depth_at-level_for b s t ∙ (g.levels s t).summed
