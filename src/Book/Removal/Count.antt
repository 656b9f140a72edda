-- ===== src/Book/Removal/Count.antt =====
-- The number of live orders in the arena of crates/cerdic-tee-matcher/src/book.rs: each removal takes
-- one, which bounds the rounds of the loops that take orders out.
use cerdic.Prelude.{
  ℕ, zero, suc, ◌≤◌, ◌≡◌, refl, ap, Option, none, some, [], ◌∷◌, arith, length, get_elem?, set,
}
use cerdic.Book.Types.{OrderNode}
use cerdic.Book.Segment.{Arena}
use cerdic.Book.Removal.{freed, past_next, past_prev, point_next, point_prev, removed}

pub live_orders : Arena → ℕ
live_orders [] = 0
live_orders (none ∷ a) = live_orders a
live_orders (some n ∷ a) = suc (live_orders a)

pub live_orders-length : (a : Arena) → live_orders a ≤ length a
unfolding live_orders
live_orders-length [] = omega arith
live_orders-length (none ∷ a) = omega (arith, live_orders-length a)
live_orders-length (some n ∷ a) = omega (arith, live_orders-length a)

live_orders-freed :
    (a : Arena) (i : ℕ) (n : OrderNode)
    → get_elem? a i ≡ some (some n)
    → suc (live_orders (freed a i)) ≡ live_orders a
unfolding live_orders
live_orders-freed [] i n e = cc
live_orders-freed (none ∷ a) zero n e = cc
live_orders-freed (some m ∷ a) zero n e = refl
live_orders-freed (none ∷ a) (suc i) n e = live_orders-freed a i n e
live_orders-freed (some m ∷ a) (suc i) n e = ap suc (live_orders-freed a i n e)

pub live_orders-set :
    (a : Arena) (i : ℕ) (n m : OrderNode)
    → get_elem? a i ≡ some (some n)
    → live_orders (set a i (some m)) ≡ live_orders a
unfolding live_orders
live_orders-set [] i n m e = refl
live_orders-set (none ∷ a) zero n m e = cc
live_orders-set (some x ∷ a) zero n m e = refl
live_orders-set (none ∷ a) (suc i) n m e = live_orders-set a i n m e
live_orders-set (some x ∷ a) (suc i) n m e = ap suc (live_orders-set a i n m e)

live_orders-point_next :
    (a : Arena) (j v : ℕ) (g : Option (Option OrderNode))
    → get_elem? a j ≡ g
    → live_orders (point_next a j v g) ≡ live_orders a
live_orders-point_next a j v none e = refl
live_orders-point_next a j v (some none) e = refl
live_orders-point_next a j v (some (some m)) e = live_orders-set a j m (record m { next = v }) e

live_orders-point_prev :
    (a : Arena) (j v : ℕ) (g : Option (Option OrderNode))
    → get_elem? a j ≡ g
    → live_orders (point_prev a j v g) ≡ live_orders a
live_orders-point_prev a j v none e = refl
live_orders-point_prev a j v (some none) e = refl
live_orders-point_prev a j v (some (some m)) e = live_orders-set a j m (record m { prev = v }) e

live_orders-past_next : (a : Arena) (n : OrderNode) → live_orders (past_next a n) ≡ live_orders a
live_orders-past_next a n =
    ground (arith, live_orders-point_next a n.prev n.next (get_elem? a n.prev) refl)

live_orders-past_prev : (a : Arena) (n : OrderNode) → live_orders (past_prev a n) ≡ live_orders a
live_orders-past_prev a n =
    ground (arith, live_orders-point_prev a n.next n.prev (get_elem? a n.next) refl)

pub live_orders-removed :
    (a : Arena) (i : ℕ) (n : OrderNode)
    → get_elem? a i ≡ some (some n)
    → suc (live_orders (removed a i n)) ≡ live_orders a
unfolding removed
live_orders-removed a i n e = omega (
  arith,
  live_orders-past_prev (past_next (freed a i) n) n,
  live_orders-past_next (freed a i) n,
  live_orders-freed a i n e,
)
