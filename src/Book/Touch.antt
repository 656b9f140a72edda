-- ===== src/Book/Touch.antt =====
-- The head of the best level of one side in crates/cerdic-tee-matcher/src/book.rs: it is there, and it
-- can be taken out, as the pruning and the matching loop do.
use cerdic.Prelude.{
  ℕ, suc, ◌≤◌, ◌≡◌, refl, sym, subst, subst₂, ap, ◌∙◌, inl, inr, false, Bool-cases, none, some,
  List, [], ◌∷◌, delete, get_elem?, arith, ◌-◌, ◌==◌, if◌then◌else◌,
}
use cerdic.Common.{Side}
use cerdic.Book.Types.{nil, OrderNode, Level, is_empty, ok}
use cerdic.Book.Ladder.{Ladder, index_of, level}
use cerdic.Book.Ladder.Laws.{level_for, index_of_nonempty}
use cerdic.Book.Ladder.Worse.{IsBest}
use cerdic.Book.State.{OrderBook, best, ladder}
use cerdic.Book.Segment.{Arena, Segment-live, order_at}
use cerdic.Book.Removal.Count.{live_orders, live_orders-removed}
use cerdic.Book.Invariant.{Queues, Stands, IsValid}
use cerdic.Book.Links.{unlink}
use cerdic.Book.Links.Runs.{unlinked}
use cerdic.Book.Links.Unlink.{index, indexed, unlink_ok, unlink_index, after_order}
use cerdic.Book.Links.Best.{stays, moves, arena-unlinked, arena-advance_best_from}
use cerdic.Book.Links.Partial.{
  part_filled, still_full, part_filled-IsValid, part_filled-live_orders,
}
use cerdic.Book.Matching.{advance_if_empty}

pub level_at_index : (l : Ladder) (t k : ℕ) → index_of l t ≡ some k → level_for l t ≡ level l k
level_at_index l t k e = rw (e, level_for) refl

-- The node that the head of the best level names.
pub record Touch (b : OrderBook) (s : Side) (t : ℕ) : Type 0 where
  pub at : ℕ
  pub head : ℕ
  pub node : OrderNode
  pub indexed : index_of (ladder b s) t ≡ some at
  pub head_lem : (level (ladder b s) at).head ≡ head
  pub live : get_elem? b.arena head ≡ some (some node)
  pub on_side : node.side ≡ s
  pub on_tick : node.tick ≡ t

pub touch :
    (b : OrderBook) (q : Queues) (s : Side) (t : ℕ) → IsValid b q → best b s ≡ some t → Touch b s t
touch b q s t v e = go (q s t) (v.links.levels s t)
  where
    full : is_empty (level_for (ladder b s) t) ≡ false
    full = (subst (IsBest s (ladder b s)) e (v.bests s)).0

    there : index_of (ladder b s) t ≡ some (t - (ladder b s).base_tick)
    there = index_of_nonempty (ladder b s) t full

    go : (ids : List ℕ) → Stands b.arena s t (level_for (ladder b s) t) ids → Touch b s t
    go [] st = absurd (ground (arith, full, st.heads))
    go (i ∷ is) st =
        let (n, live, es, et) =
          Segment-live s t b.arena i nil (i ∷ is) nil _ st.linked (inl refl) in
        record {
          at = t - (ladder b s).base_tick;
          head = i;
          node = n;
          indexed = there;
          head_lem =
              ap (λ (x : Level). x.head) (sym (level_at_index (ladder b s) t _ there)) ∙ st.heads;
          live = live;
          on_side = es;
          on_tick = et;
        }

-- Taking out the order at the touch of its side, and moving on when its level has emptied.
module _ (b : OrderBook) (q : Queues) (v : IsValid b q) (i : ℕ) (n : OrderNode)
    (live : get_elem? b.arena i ≡ some (some n)) where
  abbrev k : ℕ
  k = index b q v.links i n live

  abbrev gone : OrderBook
  gone = unlinked b i n n.side k

  pub drop_here-IsValid :
      best b n.side ≡ some n.tick
      → IsValid (advance_if_empty gone n.side k n.tick) (λ s t. delete i (q s t))
  drop_here-IsValid e = elim (Bool-cases (is_empty (level_for (ladder gone n.side) n.tick))) [
    | inl h ↦
        subst (λ (x : OrderBook). IsValid x (λ s t. delete i (q s t)))
          (sym (rw (sym here ∙ h) refl)) (moves b q v i n live e h)
    | inr h ↦
        subst (λ (x : OrderBook). IsValid x (λ s t. delete i (q s t)))
          (sym (rw (sym here ∙ h) refl)) (stays b q v i n live (λ at. h))
  ]
    where
      here :
          is_empty (level_for (ladder gone n.side) n.tick) ≡ is_empty (level (ladder gone n.side) k)
      here =
          ap is_empty
            (level_at_index (ladder gone n.side) n.tick k (unlink_index b q v.links i n live))

  arena_after : (advance_if_empty gone n.side k n.tick).arena ≡ gone.arena
  arena_after = elim (Bool-cases (is_empty (level (ladder gone n.side) k))) [
    | inl h ↦ rw h (arena-advance_best_from gone n.side n.tick)
    | inr h ↦ rw h refl
  ]

  pub drop_here-live_orders :
      suc (live_orders (advance_if_empty gone n.side k n.tick).arena) ≡ live_orders b.arena
  drop_here-live_orders =
      ap (λ (a : Arena). suc (live_orders a)) (arena_after ∙ arena-unlinked b i n n.side k)
      ∙ live_orders-removed b.arena i n live

  -- The same for a side, a tick and an index that are equal to the order's.
  abbrev next_book : Side → ℕ → ℕ → OrderBook
  next_book s t k' = advance_if_empty gone s k' t

  touch_index :
      (s : Side) (t k' : ℕ) → n.side ≡ s → n.tick ≡ t → index_of (ladder b s) t ≡ some k' → k ≡ k'
  touch_index s t k' es et e =
      let h = indexed b q v.links i n live in
      let h' =
        subst₂ (λ (x : Side) (y : ℕ). index_of (ladder b x) y ≡ some k') (sym es) (sym et) e in
      ground arith

  moved_to :
      (s : Side) (t k' : ℕ)
      → n.side ≡ s
      → n.tick ≡ t
      → index_of (ladder b s) t ≡ some k'
      → advance_if_empty gone n.side k n.tick ≡ next_book s t k'
  moved_to s t k' es et e =
      subst₂ (λ (x : Side) (y : ℕ). advance_if_empty gone n.side k n.tick ≡ next_book x y k') es et
        (ap (next_book n.side n.tick) (touch_index s t k' es et e))

  part_here :
      (t d : ℕ)
      → d ≤ n.qty
      → advance_if_empty (part_filled b i n n.side k d) n.side k t ≡ part_filled b i n n.side k d
  part_here t d le = rw (still_full b q v.links i n live d le) refl

  -- A partial fill of `d`: the level stays, so the best price does.
  part_here-IsValid :
      (t d : ℕ) → d ≤ n.qty → IsValid (advance_if_empty (part_filled b i n n.side k d) n.side k t) q
  part_here-IsValid t d le =
      subst (λ (x : OrderBook). IsValid x q) (sym (part_here t d le))
        (part_filled-IsValid b q v.links i n live d le v.bests)

  part_here-live_orders :
      (t d : ℕ)
      → d ≤ n.qty
      → live_orders (advance_if_empty (part_filled b i n n.side k d) n.side k t).arena
        ≡ live_orders b.arena
  part_here-live_orders t d le =
      ap (λ (x : OrderBook). live_orders x.arena) (part_here t d le)
      ∙ part_filled-live_orders b q v.links i n live d le

-- What taking out the order at the touch has to leave.
pub record Dropped (b : OrderBook) (q : Queues) (s : Side) (t : ℕ) (c : Touch b s t) : Type 0 where
  pub gone_book : OrderBook
  pub out : unlink b c.head ≡ ok (c.node, gone_book)
  pub valid : IsValid (advance_if_empty gone_book s c.at t) (λ s t. delete c.head (q s t))
  pub fewer : suc (live_orders (advance_if_empty gone_book s c.at t).arena) ≡ live_orders b.arena
  pub after :
      (j : ℕ)
      → order_at (advance_if_empty gone_book s c.at t).arena j
        ≡ (if c.head == j then none else order_at b.arena j)

pub drop :
    (b : OrderBook) (q : Queues) (s : Side) (t : ℕ)
    → IsValid b q
    → best b s ≡ some t
    → (c : Touch b s t) → Dropped b q s t c
drop b q s t v e c =
    let at_touch =
      subst₂ (λ (x : Side) (y : ℕ). best b x ≡ some y) (sym c.on_side) (sym c.on_tick) e in
    let moved = moved_to b q v c.head c.node c.live s t c.at c.on_side c.on_tick c.indexed in
    record {
      gone_book = unlinked b c.head c.node c.node.side (index b q v.links c.head c.node c.live);
      out = unlink_ok b q v.links c.head c.node c.live;
      valid =
          subst (λ (x : OrderBook). IsValid x (λ s t. delete c.head (q s t))) moved
            (drop_here-IsValid b q v c.head c.node c.live at_touch);
      fewer =
          subst (λ (x : OrderBook). suc (live_orders x.arena) ≡ live_orders b.arena) moved
            (drop_here-live_orders b q v c.head c.node c.live);
      after = λ j.
          subst
            (λ (x : OrderBook).
              order_at x.arena j ≡ (if c.head == j then none else order_at b.arena j))
            moved
            (ap (λ (a : Arena). order_at a j)
                (arena_after b q v c.head c.node c.live
                  ∙ arena-unlinked b c.head c.node c.node.side
                      (index b q v.links c.head c.node c.live))
              ∙ after_order b q v.links c.head c.node c.live j);
    }

-- A partial fill of the order at the touch leaves a valid book with the same queues.
pub lessen :
    (b : OrderBook) (q : Queues) (s : Side) (t d : ℕ)
    → IsValid b q
    → (c : Touch b s t) → d ≤ c.node.qty
    → IsValid (advance_if_empty (part_filled b c.head c.node s c.at d) s c.at t) q
      × (live_orders (advance_if_empty (part_filled b c.head c.node s c.at d) s c.at t).arena
          ≡ live_orders b.arena)
lessen b q s t d v c le =
    let same = touch_index b q v c.head c.node c.live s t c.at c.on_side c.on_tick c.indexed in
    subst₂
      (λ (x : Side) (y : ℕ).
        IsValid (advance_if_empty (part_filled b c.head c.node x y d) x y t) q
        × (live_orders (advance_if_empty (part_filled b c.head c.node x y d) x y t).arena
            ≡ live_orders b.arena))
      c.on_side same
      (
        part_here-IsValid b q v c.head c.node c.live t d le,
        part_here-live_orders b q v c.head c.node c.live t d le,
      )

-- There is one order at a touch.
pub touch_same :
    (b : OrderBook) (s : Side) (t t' k : ℕ) (n : OrderNode) (c : Touch b s t)
    → best b s ≡ some t
    → best b s ≡ some t'
    → index_of (ladder b s) t' ≡ some k
    → get_elem? b.arena (level (ladder b s) k).head ≡ some (some n)
    → c.node ≡ n
touch_same b s t t' k n c e e' at live =
    let et : t' ≡ t = ground arith in
    let at' = subst (λ (u : ℕ). index_of (ladder b s) u ≡ some k) et at in
    let ix = c.indexed in
    let ek : k ≡ c.at = ground arith in
    let named = ap (λ (u : ℕ). (level (ladder b s) u).head) ek ∙ c.head_lem in
    let live' = subst (λ (u : ℕ). get_elem? b.arena u ≡ some (some n)) named live in
    let alive = c.live in ground arith
