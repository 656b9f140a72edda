-- ===== src/Book/Links/Unlink.antt =====
-- `unlink` of crates/cerdic-tee-matcher/src/book.rs on a valid book.
use cerdic.Prelude.{
  ℕ, ◌-◌, ◌%◌, ◌<◌, ◌≡◌, refl, sym, subst, subst₂, ap, ◌∙◌, ◌≢◌, inl, inr, true, false, Bool-cases,
  none, some, List, [], ◌∷◌, ◌++◌, arith, length, get_elem?, ◌==◌, if◌then◌else◌, get_elem?-set, In,
  NotIn, Distinct, delete, delete-NotIn, NotIn-delete_self, ne_of_NotIn, In-split, In-delete,
  delete-Distinct, NotIn-of_all, lt-length_of_get,
}
use cerdic.Common.{Side, level_cases, side_cases}
use cerdic.Book.Types.{nil, u64_mod, sub_u64, OrderNode, Level, is_empty, ok}
use cerdic.Book.Ladder.{Ladder, index_of, level}
use cerdic.Book.Ladder.Laws as LadderLaws
use cerdic.Book.Ladder.Laws.{level_for, index_of-some, index_of_nonempty, level_for-put_level}
use cerdic.Book.State.{OrderBook, ladder}
use cerdic.Book.Segment.{
  Arena, Order, order_at, order_of, Segment, first_or, total, qty_of, total-append, total-cons,
  total-cong, Segment-cong, Segment-live,
}
use cerdic.Book.Removal.{
  freed, past_next, get_elem?-past_next, removed, length-removed, order_at-removed,
  get_elem?-removed,
}
use cerdic.Book.Removal.Lists.{Segment-removed, Near, neighbours, head-removed}
use cerdic.Book.Invariant.{Queues, Stands, Linked}
use cerdic.Book.Links.Runs.{Live, without, ladder_without, unlinked, unlink_run}
use cerdic.Book.Links.{unlink}
use cerdic.Book.Links.Steps.{
  qty_left, ladder_without-IsValid, level_for-ladder_without, index_of-ladder_without,
  ladder-put_ladder, ladder-fields, ladder-put_ladder_ne, arena-put_ladder, free-put_ladder,
}

module _ (b : OrderBook) (q : Queues) (g : Linked b q) (i : ℕ) (n : OrderNode)
    (live : get_elem? b.arena i ≡ some (some n)) where
  abbrev order : Order
  order = record { tick = n.tick; qty = n.qty; side = n.side; owner = n.owner; expiry = n.expiry }

  is_order : order_at b.arena i ≡ some order
  is_order = rw live refl

  pub queued : In i (q n.side n.tick)
  queued = g.covered i order is_order

  queue : Stands b.arena n.side n.tick (level_for (ladder b n.side) n.tick) (q n.side n.tick)
  queue = g.levels n.side n.tick

  -- The queue is not empty, so its level is there.
  pub full : is_empty (level_for (ladder b n.side) n.tick) ≡ false
  full = go (q n.side n.tick) queued queue
    where
      go :
          (ids : List ℕ)
          → In i ids
          → Stands b.arena n.side n.tick (level_for (ladder b n.side) n.tick) ids
          → is_empty (level_for (ladder b n.side) n.tick) ≡ false
      go [] m st = absurd m
      go (x ∷ xs) m st =
          let alive = st.linked.1 in
          ground (arith, st.heads, lt-length_of_get b.arena x (some st.linked.0) alive, g.small)

  pub index : ℕ
  index = n.tick - (ladder b n.side).base_tick

  pub indexed : index_of (ladder b n.side) n.tick ≡ some index
  unfolding index
  indexed = index_of_nonempty (ladder b n.side) n.tick full

  pub level_there : level_for (ladder b n.side) n.tick ≡ level (ladder b n.side) index
  level_there = rw (indexed, level_for) refl

  -- Around the order in its queue.
  split :
      (xs : List ℕ) × (ys : List ℕ) × (q n.side n.tick ≡ xs ++ i ∷ ys)
      × (delete i (q n.side n.tick) ≡ xs ++ ys)
  split = In-split i (q n.side n.tick) queued queue.distinct

  parted :
      Segment b.arena n.side n.tick nil
        (split.0 ++ i ∷ split.1)
        nil
        (level_for (ladder b n.side) n.tick).tail
  parted =
      subst
        (λ ids. Segment b.arena n.side n.tick nil ids nil (level_for (ladder b n.side) n.tick).tail)
        split.2 queue.linked

  apart : Distinct (split.0 ++ i ∷ split.1)
  apart = subst Distinct split.2 queue.distinct

  near : Near (q n.side n.tick) i n
  near =
      subst (λ ids. Near ids i n) (sym split.2)
        (neighbours n.side n.tick b.arena split.0 split.1 i _ n apart live parted)

  in_range : i < length b.arena
  in_range = lt-length_of_get b.arena i (some n) live

  -- The slots that `unlink` reads are live.
  alive-In :
      (j : ℕ)
      → In j (q n.side n.tick)
      → (m : OrderNode) × (get_elem? b.arena j ≡ some (some m))
        × (m.side ≡ n.side)
        × (m.tick ≡ n.tick)
  alive-In j m = Segment-live n.side n.tick b.arena j nil (q n.side n.tick) nil _ queue.linked m

  prev-Live : n.prev ≢ nil → Live (freed b.arena i) n.prev
  prev-Live h =
      let (m, e, _, _) = alive-In n.prev (near.prev_in h) in
      let ne = near.prev_ne h in (m, ground (arith, get_elem?-set b.arena i n.prev none in_range))

  next-Live : n.next ≢ nil → Live (past_next (freed b.arena i) n) n.next
  next-Live h =
      let (m, e, _, _) = alive-In n.next (near.next_in h) in
      let ne = near.next_ne h in
      (
        m,
        get_elem?-past_next (freed b.arena i) n n.next (near.next_ne_prev h)
            ∙ ground (arith, get_elem?-set b.arena i n.next none in_range),
      )

  pub unlink_ok : unlink b i ≡ ok (n, unlinked b i n n.side index)
  unlink_ok =
      unlink_run b i n n.side index refl live indexed
        (index_of-some (ladder b n.side) n.tick index indexed).1 prev-Live next-Live

  -- The level that it leaves.
  left_queue :
      Stands
        (removed b.arena i n)
        n.side
        n.tick
        (without (level_for (ladder b n.side) n.tick) n)
        (delete i (q n.side n.tick))
  left_queue =
      let v = level_for (ladder b n.side) n.tick in
      subst (Stands (removed b.arena i n) n.side n.tick (without v n)) (sym split.3) (record {
        heads =
            subst
              (λ (h : ℕ). (if n.prev == nil then n.next else h) ≡ first_or nil (split.0 ++ split.1))
              (sym (queue.heads ∙ ap (first_or nil) split.2))
              (head-removed n.side n.tick b.arena split.0 split.1 i _ n g.small live parted);
        linked =
            Segment-removed n.side n.tick b.arena split.0 split.1 i _ n g.small apart live parted;
        distinct = subst Distinct split.3 (delete-Distinct i (q n.side n.tick) queue.distinct);
        summed = sums;
      })
    where
      kept :
          (j : ℕ)
          → In j (split.0 ++ split.1)
          → order_at (removed b.arena i n) j ≡ order_at b.arena j
      kept j m =
          let ne =
            ne_of_NotIn i j (split.0 ++ split.1)
              (subst (NotIn i) split.3 (NotIn-delete_self i (q n.side n.tick) queue.distinct)) m in
          ground (arith, order_at-removed b.arena i n j in_range)

      sums :
          sub_u64 (level_for (ladder b n.side) n.tick).qty n.qty
          ≡ total (removed b.arena i n) (split.0 ++ split.1) % u64_mod
      sums =
          let all = ap (total b.arena) split.2 in
          rw (total-cong b.arena (removed b.arena i n) (split.0 ++ split.1) kept) (
            qty_left (total b.arena (q n.side n.tick)) (total b.arena (split.0 ++ split.1)) n.qty _
              (omega (
                arith,
                all,
                total-append b.arena split.0 (i ∷ split.1),
                total-append b.arena split.0 split.1,
                total-cons b.arena i split.1,
                ap qty_of is_order,
              ))
              (g.sized i order is_order).0 queue.summed)

  -- Queues of two levels have no common slot.
  pub foreign :
      (s : Side) (t : ℕ)
      → (n.side ≡ s → n.tick ≡ t → ⊥)
      → (j k : ℕ) → In j (q s t)
      → In k (q n.side n.tick)
      → j ≢ k
  foreign s t ne j k m m' e =
      let (x, ex, sx, tx) = Segment-live s t b.arena j nil (q s t) nil _ (g.levels s t).linked m in
      let (y, ey, sy, ty) = alive-In k m' in
      let ej : get_elem? b.arena j ≡ some (some y) = rw e ey in
      let same : x ≡ y = ground arith in
      ne (sym sy ∙ sym (ap (λ (o : OrderNode). o.side) same) ∙ sx)
        (sym ty ∙ sym (ap (λ (o : OrderNode). o.tick) same) ∙ tx)

  -- Another level.
  other_queue :
      (s : Side) (t : ℕ)
      → (n.side ≡ s → n.tick ≡ t → ⊥)
      → Stands (removed b.arena i n) s t (level_for (ladder b s) t) (delete i (q s t))
  other_queue s t ne =
      let st = g.levels s t in
      subst (Stands (removed b.arena i n) s t (level_for (ladder b s) t))
        (sym (
          delete-NotIn i (q s t)
            (NotIn-of_all i (q s t) (λ j m e. foreign s t ne j i m queued (sym e)))))
        (record {
          heads = st.heads;
          linked =
              Segment-cong s t b.arena (removed b.arena i n) nil (q s t) nil _ (λ j m. (same j m))
                st.linked;
          distinct = st.distinct;
          summed =
              st.summed
              ∙ ap (λ (x : ℕ). x % u64_mod)
                  (sym (
                    total-cong b.arena (removed b.arena i n) (q s t)
                      (λ j m. ap order_of (same j m))));
        })
    where
      same : (j : ℕ) → In j (q s t) → get_elem? (removed b.arena i n) j ≡ get_elem? b.arena j
      same j m =
          get_elem?-removed b.arena i n j in_range (λ e. foreign s t ne j i m queued (sym e))
            (λ h. foreign s t ne j n.prev m (near.prev_in h))
            (λ h. foreign s t ne j n.next m (near.next_in h))

  abbrev after : OrderBook
  after = unlinked b i n n.side index

  abbrev freed_book : OrderBook
  freed_book = record b { arena = removed b.arena i n; free = i ∷ b.free }

  abbrev lighter : Ladder
  lighter = ladder_without (ladder b n.side) index n

  lighter-IsValid : LadderLaws.IsValid lighter
  lighter-IsValid =
      ladder_without-IsValid (ladder b n.side) (g.ladders n.side) n.tick index n indexed
        (subst (λ (v : Level). is_empty v ≡ false) level_there full)

  here : (s : Side) → n.side ≡ s → ladder after s ≡ lighter
  here s e =
      subst (λ (x : Side). ladder after x ≡ lighter) e (ladder-put_ladder freed_book n.side lighter)

  elsewhere : (s : Side) → n.side ≢ s → ladder after s ≡ ladder b s
  elsewhere s ne =
      ladder-put_ladder_ne freed_book n.side s lighter ne
      ∙ ladder-fields b (removed b.arena i n) (i ∷ b.free) s

  after_ladder : (s : Side) → LadderLaws.IsValid (ladder after s)
  after_ladder s = elim (side_cases n.side s) [
    | inl e ↦ subst LadderLaws.IsValid (sym (here s e)) lighter-IsValid
    | inr ne ↦ subst LadderLaws.IsValid (sym (elsewhere s ne)) (g.ladders s)
  ]

  lighter_level :
      (t : ℕ)
      → level_for lighter t ≡ (
          if n.tick == t
          then without (level_for (ladder b n.side) n.tick) n
          else level_for (ladder b n.side) t)
  lighter_level t =
      level_for-ladder_without (ladder b n.side) (g.ladders n.side) n.tick index n indexed
        (subst (λ (v : Level). is_empty v ≡ false) level_there full) t
      ∙ ap (λ (v : Level). if n.tick == t then without v n else level_for (ladder b n.side) t)
          (sym level_there)

  -- The level that it leaves, and every other.
  pub unlink_level_here :
      level_for (ladder after n.side) n.tick ≡ without (level_for (ladder b n.side) n.tick) n
  unlink_level_here =
      let h : (n.tick == n.tick) ≡ true = ground arith in
      ap (λ (l : Ladder). level_for l n.tick) (here n.side refl) ∙ lighter_level n.tick ∙ rw h refl

  pub unlink_level_away :
      (s : Side) (t : ℕ)
      → (n.side ≡ s → n.tick ≡ t → ⊥)
      → level_for (ladder after s) t ≡ level_for (ladder b s) t
  unlink_level_away s t ne = elim (side_cases n.side s) [
    | inr other ↦ ap (λ (l : Ladder). level_for l t) (elsewhere s other)
    | inl same ↦
        let h : (n.tick == t) ≡ false = elim (Bool-cases (n.tick == t)) [
          | inl e ↦ absurd (ne same (ground arith))
          | inr e ↦ e
        ] in
        ap (λ (l : Ladder). level_for l t) (here s same)
        ∙ lighter_level t
        ∙ rw h (ap (λ (x : Side). level_for (ladder b x) t) same)
  ]

  pub unlink_index : index_of (ladder after n.side) n.tick ≡ some index
  unlink_index =
      ap (λ (l : Ladder). index_of l n.tick) (here n.side refl)
      ∙ index_of-ladder_without (ladder b n.side) (g.ladders n.side) n.tick index n indexed
          (subst (λ (v : Level). is_empty v ≡ false) level_there full) n.tick
      ∙ indexed

  after_level :
      (s : Side) (t : ℕ)
      → Stands (removed b.arena i n) s t (level_for (ladder after s) t) (delete i (q s t))
  after_level s t = elim (level_cases n.side s n.tick t) [
    | inl (es, et) ↦
        subst₂
          (λ (x : Side) (y : ℕ).
            Stands (removed b.arena i n) x y (level_for (ladder after x) y) (delete i (q x y)))
          es et
          (subst
            (λ (v : Level).
              Stands (removed b.arena i n) n.side n.tick v (delete i (q n.side n.tick)))
            (sym unlink_level_here) left_queue)
    | inr ne ↦
        subst (λ (v : Level). Stands (removed b.arena i n) s t v (delete i (q s t)))
          (sym (unlink_level_away s t ne)) (other_queue s t ne)
  ]

  pub after_order :
      (j : ℕ) → order_at (removed b.arena i n) j ≡ (if i == j then none else order_at b.arena j)
  after_order j = order_at-removed b.arena i n j in_range

  still_unused :
      (j : ℕ)
      → In j (i ∷ b.free)
      → (j < length (removed b.arena i n)) × (order_at (removed b.arena i n) j ≡ none)
  still_unused j (inl e) =
      (rw (e, length-removed b.arena i n) in_range, ground (arith, after_order j))
  still_unused j (inr m) =
      let (lt, dead) = g.unused j m in
      (rw (length-removed b.arena i n) lt, ground (arith, after_order j))

  -- One order fewer, and all the rest as it was.
  pub unlinked-Linked : Linked (unlinked b i n n.side index) (λ s t. delete i (q s t))
  unlinked-Linked =
      let a = arena-put_ladder freed_book n.side lighter in
      let f = free-put_ladder freed_book n.side lighter in
      record {
        small = omega (arith, g.small, length-removed b.arena i n, ap length a);
        ladders = after_ladder;
        levels = λ s t.
            subst (λ (x : Arena). Stands x s t (level_for (ladder after s) t) (delete i (q s t)))
              (sym a) (after_level s t);
        covered = λ j o e.
            let e' : order_at (removed b.arena i n) j ≡ some o =
              subst (λ (x : Arena). order_at x j ≡ some o) a e in
            let ne : i ≢ j = λ h. ground (arith, after_order j) in
            In-delete j i (q o.side o.tick) (g.covered j o (ground (arith, after_order j))) ne;
        sized = λ j o e.
            let e' : order_at (removed b.arena i n) j ≡ some o =
              subst (λ (x : Arena). order_at x j ≡ some o) a e in
            g.sized j o (ground (arith, after_order j));
        unused = λ j m.
            subst (λ (x : Arena). (j < length x) × (order_at x j ≡ none)) (sym a)
              (still_unused j (subst (In j) f m));
        free_distinct =
            subst Distinct (sym f)
              (NotIn-of_all i b.free (λ j m e. unused_ne j m e), g.free_distinct);
      }
    where
      unused_ne : (j : ℕ) → In j b.free → i ≡ j → ⊥
      unused_ne j m e = ground (arith, (g.unused j m).1, is_order, ap (order_at b.arena) e)

  -- On a linked book, `unlink` of a live order meets no panic, returns its node, and leaves a linked
  -- book with the same queues without the order.
  pub unlink-Linked :
      (b' : OrderBook) × (unlink b i ≡ ok (n, b')) × Linked b' (λ s t. delete i (q s t))
  unlink-Linked = (unlinked b i n n.side index, unlink_ok, unlinked-Linked)
