-- ===== src/Book/Matching/Rounds.antt =====
-- What a round of the matching loop of crates/cerdic-tee-matcher/src/book.rs has to keep, and the runs
-- of its parts.
use cerdic.Prelude.{
  ℕ, ◌+◌, ◌-◌, ◌≤◌, ◌≡◌, ◌≢◌, refl, Bool, true, false, some, List, [], ◌∷◌, All, push, arith, min,
  ◌==◌, if◌then◌else◌,
}
use cerdic.Common.{Side, opposite_side}
use cerdic.Book.Types.{NewOrder, OrderNode, is_expired, Fill, ok, ◌>>=◌}
use cerdic.Book.Ladder.{index_of, level}
use cerdic.Book.State.{OrderBook, ladder, slot}
use cerdic.Book.Removal.Count.{live_orders}
use cerdic.Book.Invariant.{Queues, IsValid}
use cerdic.Book.Links.{unlink}
use cerdic.Book.Links.Partial.{part_filled}
use cerdic.Book.Available.{crosses}
use cerdic.Book.Matching.{
  level_index, advance_if_empty, Matching, drop_head, take_from_maker, fill_of, trade_with_head,
  match_level,
}

-- The quantity that the fills trade.
pub traded : List Fill → ℕ
traded [] = 0
traded (f ∷ fs) = f.qty + traded fs

pub traded-push : (fs : List Fill) (f : Fill) → traded (push fs f) ≡ traded fs + f.qty
unfolding traded
traded-push [] f = omega arith
traded-push (g ∷ fs) f = omega (arith, traded-push fs f)

-- A fill is at a price that the order crosses, with another owner, and within both sizes.
abbrev pub Fair : NewOrder → Fill → Type 0
Fair order f =
    (crosses order.side order.tick f.tick ≡ true)
    × (f.maker_owner ≢ order.owner)
    × (f.qty ≤ f.maker_size_before)
    × (f.qty ≤ f.taker_size_before)

-- The rounds that the loop can still make.
abbrev pub work : Matching → ℕ
work m = live_orders m.book.arena + (if m.qty == 0 then 0 else 1)

-- What a part of the loop has to keep, from `m` on to `m'`.
pub record Progress (order : NewOrder) (m m' : Matching) : Type 0 where
  pub queues : Queues
  pub valid : IsValid m'.book queues
  pub sums : traded m'.result.fills + m'.qty ≡ traded m.result.fills + m.qty
  pub fair : All (Fair order) m.result.fills → All (Fair order) m'.result.fills

-- The runs of the parts of a round, from those of the calls that they make.
abbrev pub dropped_match : Matching → ℕ → OrderBook → Bool → Matching
dropped_match m i b expired = record {
  book = b;
  qty = m.qty;
  result =
      if expired
      then record m.result { expired = push m.result.expired i }
      else record m.result { self_trade_cancelled = push m.result.self_trade_cancelled i };
}

pub drop_head_run :
    (m : Matching) (s : Side) (k t i : ℕ) (n : OrderNode) (b : OrderBook) (expired : Bool)
    → unlink m.book i ≡ ok (n, b)
    → drop_head m s k t i expired ≡ ok (dropped_match m i (advance_if_empty b s k t) expired)
unfolding drop_head
drop_head_run m s k t i n b expired out = rw (out, drop_head) refl

abbrev pub traded_book : Matching → ℕ → OrderNode → ℕ → OrderBook → Matching
traded_book m i n t b = record {
  book = b;
  qty = m.qty - min m.qty n.qty;
  result = record m.result { fills = push m.result.fills (fill_of i n t m.qty) };
}

pub fill_run :
    (m : Matching) (s : Side) (k t i : ℕ) (n : OrderNode) (b : OrderBook)
    → unlink m.book i ≡ ok (n, b)
    → (min m.qty n.qty == n.qty) ≡ true
    → trade_with_head m s k t i n ≡ ok (traded_book m i n t (advance_if_empty b s k t))
unfolding trade_with_head take_from_maker
fill_run m s k t i n b out h = rw (h, trade_with_head, take_from_maker) (rw out refl)

pub part_run :
    (m : Matching) (s : Side) (k t i : ℕ) (n : OrderNode)
    → (min m.qty n.qty == n.qty) ≡ false
    → trade_with_head m s k t i n
      ≡ ok (
          traded_book m i n t
            (advance_if_empty (part_filled m.book i n s k (min m.qty n.qty)) s k t))
unfolding trade_with_head take_from_maker
part_run m s k t i n h = rw (h, trade_with_head, take_from_maker) refl

pub match_level_run :
    (order : NewOrder) (now : ℕ) (m : Matching) (t k i : ℕ) (n : OrderNode)
    → index_of (ladder m.book (opposite_side order.side)) t ≡ some k
    → (level (ladder m.book (opposite_side order.side)) k).head ≡ i
    → slot m.book i ≡ ok n
    → match_level order now m t ≡ (
        (if is_expired n.expiry now
          then drop_head m (opposite_side order.side) k t i true
          else if n.owner == order.owner
          then drop_head m (opposite_side order.side) k t i false
          else trade_with_head m (opposite_side order.side) k t i n)
        >>= (λ m'. ok (some m')))
unfolding match_level
match_level_run order now m t k i n at hd found =
    rw (at, match_level, level_index) (rw hd (rw found refl))
