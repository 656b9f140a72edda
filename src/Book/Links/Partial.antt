-- ===== src/Book/Links/Partial.antt =====
-- A partial fill in crates/cerdic-tee-matcher/src/book.rs: the two writes that lessen an order and its
-- level.
use cerdic.Prelude.{
  ℕ, ◌+◌, ◌%◌, ◌≤◌, ◌<◌, ◌≡◌, ◌≢◌, refl, sym, subst, subst₂, ap, ◌∙◌, inl, inr, true, false,
  Bool-cases, Option, none, some, arith, length, get_elem?, ◌==◌, if◌then◌else◌, get_or-set,
  length-set, In, Distinct,
}
use cerdic.Common.{Side, long, short, level_cases, side_cases}
use cerdic.Book.Types.{u64_mod, sub_u64, OrderNode, Level, empty_level, is_empty}
use cerdic.Book.Ladder.{Ladder, level, put_level}
use cerdic.Book.Ladder.Laws as LadderLaws
use cerdic.Book.Ladder.Laws.{level_for, index_of-some, level_for-put_level}
use cerdic.Book.Ladder.Worse.{IsBest}
use cerdic.Book.State.{OrderBook, best, ladder, put_level_at, put_slot}
use cerdic.Book.Segment.{Arena, Order, order_of, order_at, Segment-cong, total, total-cong}
use cerdic.Book.Removal.Count.{live_orders, live_orders-set}
use cerdic.Book.Segment.Edit.{
  lesser, filled, get_elem?-filled, Segment-filled, order_at-filled, total-filled,
}
use cerdic.Book.Invariant.{Queues, Stands, Linked, IsValid}
use cerdic.Book.Links.Steps.{
  ladder-put_ladder, ladder-put_ladder_ne, arena-put_ladder, free-put_ladder,
}
use cerdic.Book.Links.Unlink.{index, indexed, full, queued, foreign, level_there}

-- A level's quantity after a fill of `d`.
abbrev pub lighter_by : Level → ℕ → Level
lighter_by v d = record v { qty = sub_u64 v.qty d }

-- The book after the writes of a partial fill.
abbrev pub part_filled : OrderBook → ℕ → OrderNode → Side → ℕ → ℕ → OrderBook
part_filled b i n s k d =
    put_level_at (put_slot b i (some (lesser n d))) s k (lighter_by (level (ladder b s) k) d)

put_slot-fields :
    (b : OrderBook) (i : ℕ) (g : Option OrderNode) (s : Side)
    → ladder (put_slot b i g) s ≡ ladder b s
put_slot-fields b i g long = refl
put_slot-fields b i g short = refl

best-part_filled :
    (b : OrderBook) (i : ℕ) (n : OrderNode) (s s' : Side) (k d : ℕ)
    → best (part_filled b i n s k d) s' ≡ best b s'
best-part_filled b i n long long k d = refl
best-part_filled b i n long short k d = refl
best-part_filled b i n short long k d = refl
best-part_filled b i n short short k d = refl

less_mod :
    (before after d v : ℕ)
    → after + d ≡ before
    → v ≡ before % u64_mod
    → d < u64_mod
    → sub_u64 v d ≡ after % u64_mod
less_mod before after d v e h l = omega arith

module _ (b : OrderBook) (q : Queues) (g : Linked b q) (i : ℕ) (n : OrderNode)
    (live : get_elem? b.arena i ≡ some (some n)) (d : ℕ) (le : d ≤ n.qty) where
  abbrev k : ℕ
  k = index b q g i n live

  abbrev own : Ladder
  own = put_level (ladder b n.side) k (lighter_by (level (ladder b n.side) k) d)

  abbrev after : OrderBook
  after = part_filled b i n n.side k d

  abbrev arena_now : Arena
  arena_now = filled b.arena i n live d

  here : ladder after n.side ≡ own
  here =
      ladder-put_ladder (put_slot b i (some (lesser n d))) n.side _
      ∙ ap (λ (l : Ladder). put_level l k (lighter_by (level (ladder b n.side) k) d))
          (put_slot-fields b i (some (lesser n d)) n.side)

  elsewhere : (s : Side) → n.side ≢ s → ladder after s ≡ ladder b s
  elsewhere s ne =
      ladder-put_ladder_ne (put_slot b i (some (lesser n d))) n.side s _ ne
      ∙ put_slot-fields b i (some (lesser n d)) s

  arena_lem : after.arena ≡ arena_now
  arena_lem = arena-put_ladder (put_slot b i (some (lesser n d))) n.side _

  free_lem : after.free ≡ b.free
  free_lem = free-put_ladder (put_slot b i (some (lesser n d))) n.side _

  own-IsValid : LadderLaws.IsValid own
  own-IsValid =
      let v = g.ladders n.side in
      let w = lighter_by (level (ladder b n.side) k) d in
      record {
        bitmap = v.bitmap;
        fits = omega (arith, v.fits, length-set (ladder b n.side).levels k w);
        tracks = λ j. ground (
          arith,
          get_or-set (ladder b n.side).levels k j w empty_level
              (index_of-some (ladder b n.side) n.tick k (indexed b q g i n live)).1,
          v.tracks j,
        );
      }

  after_ladder : (s : Side) → LadderLaws.IsValid (ladder after s)
  after_ladder s = elim (side_cases n.side s) [
    | inl e ↦
        subst (λ (x : Side). LadderLaws.IsValid (ladder after x)) e
          (subst LadderLaws.IsValid (sym here) own-IsValid)
    | inr ne ↦ subst LadderLaws.IsValid (sym (elsewhere s ne)) (g.ladders s)
  ]

  own_level :
      (t : ℕ)
      → level_for own t ≡ (
          if n.tick == t
          then lighter_by (level_for (ladder b n.side) n.tick) d
          else level_for (ladder b n.side) t)
  own_level t =
      level_for-put_level (ladder b n.side) n.tick k (lighter_by (level (ladder b n.side) k) d) t
        (indexed b q g i n live)
      ∙ ap (λ (v : Level). if n.tick == t then lighter_by v d else level_for (ladder b n.side) t)
          (sym (level_there b q g i n live))

  level_here :
      level_for (ladder after n.side) n.tick ≡ lighter_by (level_for (ladder b n.side) n.tick) d
  level_here =
      let h : (n.tick == n.tick) ≡ true = ground arith in
      ap (λ (l : Ladder). level_for l n.tick) here ∙ own_level n.tick ∙ rw h refl

  level_away :
      (s : Side) (t : ℕ)
      → (n.side ≡ s → n.tick ≡ t → ⊥)
      → level_for (ladder after s) t ≡ level_for (ladder b s) t
  level_away s t ne = elim (side_cases n.side s) [
    | inr other ↦ ap (λ (l : Ladder). level_for l t) (elsewhere s other)
    | inl same ↦
        let h : (n.tick == t) ≡ false = elim (Bool-cases (n.tick == t)) [
          | inl e ↦ absurd (ne same (ground arith))
          | inr e ↦ e
        ] in
        subst (λ (x : Side). level_for (ladder after x) t ≡ level_for (ladder b x) t) same
          (ap (λ (l : Ladder). level_for l t) here ∙ own_level t ∙ rw h refl)
  ]

  -- No level fills or empties.
  occupied :
      (s : Side) (t : ℕ)
      → is_empty (level_for (ladder after s) t) ≡ is_empty (level_for (ladder b s) t)
  occupied s t = elim (level_cases n.side s n.tick t) [
    | inl (es, et) ↦
        subst₂
          (λ (x : Side) (y : ℕ).
            is_empty (level_for (ladder after x) y) ≡ is_empty (level_for (ladder b x) y))
          es et (ap is_empty level_here)
    | inr ne ↦ ap is_empty (level_away s t ne)
  ]

  size : (n.qty < u64_mod) × (n.tick < u64_mod)
  size = g.sized i _ (ap order_of live)

  queue_here :
      Stands arena_now n.side n.tick
        (lighter_by (level_for (ladder b n.side) n.tick) d)
        (q n.side n.tick)
  queue_here =
      let st = g.levels n.side n.tick in
      let sums =
        total-filled b.arena i n live d (q n.side n.tick) le st.distinct (queued b q g i n live) in
      record {
        heads = st.heads;
        linked = Segment-filled b.arena i n live d n.side n.tick _ (q n.side n.tick) _ _ st.linked;
        distinct = st.distinct;
        summed =
            less_mod (total b.arena (q n.side n.tick)) (total arena_now (q n.side n.tick)) d _ sums
              st.summed (omega (arith, size.0));
      }

  queue_away :
      (s : Side) (t : ℕ)
      → (n.side ≡ s → n.tick ≡ t → ⊥)
      → Stands arena_now s t (level_for (ladder b s) t) (q s t)
  queue_away s t ne =
      let st = g.levels s t in
      record {
        heads = st.heads;
        linked = Segment-cong s t b.arena arena_now _ (q s t) _ _ same st.linked;
        distinct = st.distinct;
        summed =
            st.summed
            ∙ ap (λ (x : ℕ). x % u64_mod)
                (sym (total-cong b.arena arena_now (q s t) (λ j m. ap order_of (same j m))));
      }
    where
      same : (j : ℕ) → In j (q s t) → get_elem? arena_now j ≡ get_elem? b.arena j
      same j m =
          let apart = foreign b q g i n live s t ne j i m (queued b q g i n live) in
          ground (arith, get_elem?-filled b.arena i n live d j)

  after_level : (s : Side) (t : ℕ) → Stands arena_now s t (level_for (ladder after s) t) (q s t)
  after_level s t = elim (level_cases n.side s n.tick t) [
    | inl (es, et) ↦
        subst₂ (λ (x : Side) (y : ℕ). Stands arena_now x y (level_for (ladder after x) y) (q x y))
          es et
          (subst (λ (v : Level). Stands arena_now n.side n.tick v (q n.side n.tick))
            (sym level_here) queue_here)
    | inr ne ↦
        subst (λ (v : Level). Stands arena_now s t v (q s t)) (sym (level_away s t ne))
          (queue_away s t ne)
  ]

  order_now :
      (j : ℕ) (o : Order)
      → order_at arena_now j ≡ some o
      → (o' : Order) × (order_at b.arena j ≡ some o')
        × (o'.side ≡ o.side)
        × (o'.tick ≡ o.tick)
        × (o.qty ≤ o'.qty)
  order_now j o e = elim (Bool-cases (i == j)) [
    | inl h ↦
        let same : i ≡ j = ground arith in
        let at = ap (λ (u : ℕ). order_at b.arena u) (sym same) ∙ ap order_of live in
        let now : order_at arena_now j ≡ order_of (some (some (lesser n d))) =
          order_at-filled b.arena i n live d j ∙ rw h refl in
        (_, at, ground arith, ground arith, ground arith)
    | inr h ↦
        let now : order_at arena_now j ≡ order_at b.arena j =
          order_at-filled b.arena i n live d j ∙ rw h refl in
        (o, sym now ∙ e, refl, refl, omega arith)
  ]

  unused_now : (j : ℕ) → In j b.free → (j < length arena_now) × (order_at arena_now j ≡ none)
  unused_now j m =
      let (lt, dead) = g.unused j m in
      (
        omega (arith, lt, length-set b.arena i (some (lesser n d))),
        ground (arith, order_at-filled b.arena i n live d j, ap order_of live),
      )

  after-Linked : Linked after q
  after-Linked = record {
    small = omega (arith, g.small, length-set b.arena i (some (lesser n d)), ap length arena_lem);
    ladders = after_ladder;
    levels = λ s t.
        subst (λ (x : Arena). Stands x s t (level_for (ladder after s) t) (q s t)) (sym arena_lem)
          (after_level s t);
    covered = λ j o e.
        let (o', e', es, et, lt) =
          order_now j o (subst (λ (x : Arena). order_at x j ≡ some o) arena_lem e) in
        subst₂ (λ (x : Side) (y : ℕ). In j (q x y)) es et (g.covered j o' e');
    sized = λ j o e.
        let (o', e', es, et, lt) =
          order_now j o (subst (λ (x : Arena). order_at x j ≡ some o) arena_lem e) in
        let z = g.sized j o' e' in (omega (arith, z.0, lt), omega (arith, z.1, et));
    unused = λ j m.
        subst (λ (x : Arena). (j < length x) × (order_at x j ≡ none)) (sym arena_lem)
          (unused_now j (subst (In j) free_lem m));
    free_distinct = subst Distinct (sym free_lem) g.free_distinct;
  }

  stays-IsBest : (s : Side) (o : Option ℕ) → IsBest s (ladder b s) o → IsBest s (ladder after s) o
  stays-IsBest s none w = λ t. occupied s t ∙ w t
  stays-IsBest s (some t) (there, better) = (occupied s t ∙ there, λ u l. occupied s u ∙ better u l)

  -- The bests stand, since no level fills or empties.
  pub part_filled-IsValid : ((s : Side) → IsBest s (ladder b s) (best b s)) → IsValid after q
  part_filled-IsValid bests = record {
    links = after-Linked;
    bests = λ s.
        subst (IsBest s (ladder after s)) (sym (best-part_filled b i n n.side s k d))
          (stays-IsBest s (best b s) (bests s));
  }

  pub still_full : is_empty (level (ladder after n.side) k) ≡ false
  still_full =
      let own_at =
        get_or-set (ladder b n.side).levels k k (lighter_by (level (ladder b n.side) k) d)
          empty_level (index_of-some (ladder b n.side) n.tick k (indexed b q g i n live)).1 in
      let there = ap is_empty (level_there b q g i n live) in
      let occupied_before = full b q g i n live in
      ap (λ (l : Ladder). is_empty (level l k)) here ∙ ground arith

  pub part_filled-live_orders : live_orders after.arena ≡ live_orders b.arena
  part_filled-live_orders = ap live_orders arena_lem ∙ live_orders-set b.arena i n (lesser n d) live
