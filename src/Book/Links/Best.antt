-- ===== src/Book/Links/Best.antt =====
-- The cached best prices of crates/cerdic-tee-matcher/src/book.rs after a removal: a level that has
-- emptied at the touch is left for the next one that has orders.
use cerdic.Prelude.{
  ℕ, ◌<◌, ◌≡◌, refl, sym, subst, subst₂, ap, length, get_elem?, In, Distinct, delete, ◌∙◌, inl, inr,
  true, false, Option-cases, Option, none, some, arith,
}
use mathlib.Core.Option
use cerdic.Common.{Side, long, short, level_cases, side_cases}
use cerdic.Book.Types.{OrderNode, Level, is_empty}
use cerdic.Book.Ladder.{Ladder, index_of, tick_at, next_worse_level}
use cerdic.Book.Ladder.Laws.{level_for}
use cerdic.Book.Ladder.Worse.{IsBest, next_worse_level-IsBest}
use cerdic.Book.State.{OrderBook, best, set_best, ladder}
use cerdic.Book.Invariant.{Queues, Stands, Linked, IsValid}
use cerdic.Book.Links.{advance_best_from}
use cerdic.Book.Links.Runs.{unlinked}
use cerdic.Book.Links.Steps.{
  best-set_best, best-set_best_ne, ladder-set_best, arena-set_best, free-set_best,
}
use cerdic.Book.Links.Unlink.{index, full, unlinked-Linked, unlink_level_away, unlink_index}
use cerdic.Book.Ladder.Laws as LadderLaws
use cerdic.Book.Segment.{Arena, order_at}
use cerdic.Book.Removal.{removed}

-- The links are about the arena, the free slots and the ladders.
pub Linked-cong :
    (b b' : OrderBook) (q : Queues)
    → b'.arena ≡ b.arena
    → b'.free ≡ b.free
    → ((s : Side) → ladder b' s ≡ ladder b s)
    → Linked b q
    → Linked b' q
Linked-cong b b' q ea ef el g = record {
  small = rw ea g.small;
  ladders = λ s. subst LadderLaws.IsValid (sym (el s)) (g.ladders s);
  levels = λ s t.
      subst₂ (λ (a : Arena) (l : Ladder). Stands a s t (level_for l t) (q s t)) (sym ea)
        (sym (el s)) (g.levels s t);
  covered = λ j o e. g.covered j o (subst (λ (a : Arena). order_at a j ≡ some o) ea e);
  sized = λ j o e. g.sized j o (subst (λ (a : Arena). order_at a j ≡ some o) ea e);
  unused = λ j m.
      subst (λ (a : Arena). (j < length a) × (order_at a j ≡ none)) (sym ea)
        (g.unused j (subst (In j) ef m));
  free_distinct = subst Distinct (sym ef) g.free_distinct;
}

pub set_best-Linked :
    (b : OrderBook) (s : Side) (t : Option ℕ) (q : Queues) → Linked b q → Linked (set_best b s t) q
set_best-Linked b s t q =
    Linked-cong b (set_best b s t) q (arena-set_best b s t) (free-set_best b s t)
      (λ s'. ladder-set_best b s s' t)

pub advance_of_some :
    (b : OrderBook) (s : Side) (t k : ℕ)
    → index_of (ladder b s) t ≡ some k
    → advance_best_from b s t
      ≡ set_best b s (Option.map (tick_at (ladder b s)) (next_worse_level (ladder b s) s k))
unfolding advance_best_from
advance_of_some b s t k e = rw (e, advance_best_from) refl

best-unlinked :
    (b : OrderBook) (i : ℕ) (n : OrderNode) (s s' : Side) (k : ℕ)
    → best (unlinked b i n s k) s' ≡ best b s'
best-unlinked b i n long long k = refl
best-unlinked b i n long short k = refl
best-unlinked b i n short long k = refl
best-unlinked b i n short short k = refl

pub arena-unlinked :
    (b : OrderBook) (i : ℕ) (n : OrderNode) (s : Side) (k : ℕ)
    → (unlinked b i n s k).arena ≡ removed b.arena i n
arena-unlinked b i n long k = refl
arena-unlinked b i n short k = refl

pub arena-advance_best_from :
    (b : OrderBook) (s : Side) (t : ℕ) → (advance_best_from b s t).arena ≡ b.arena
unfolding advance_best_from
arena-advance_best_from b s t = elim (Option-cases (index_of (ladder b s) t)) [
  | inl e ↦ rw (e, advance_best_from) refl
  | inr (k, e) ↦
      ap (λ (x : OrderBook). x.arena) (advance_of_some b s t k e)
      ∙ arena-set_best b s (Option.map (tick_at (ladder b s)) (next_worse_level (ladder b s) s k))
]

module _ (b : OrderBook) (q : Queues) (v : IsValid b q) (i : ℕ) (n : OrderNode)
    (live : get_elem? b.arena i ≡ some (some n)) where
  abbrev k : ℕ
  k = index b q v.links i n live

  abbrev gone : OrderBook
  gone = unlinked b i n n.side k

  abbrev left : Queues
  left = λ s t. delete i (q s t)

  gone-Linked : Linked gone left
  gone-Linked = unlinked-Linked b q v.links i n live

  pub best-gone : (s : Side) → best gone s ≡ best b s
  best-gone s = best-unlinked b i n n.side s k

  -- The order's level has orders before it is taken out.
  gone_full : is_empty (level_for (ladder b n.side) n.tick) ≡ true → ⊥
  gone_full e = ground (arith, full b q v.links i n live)

  -- A level that is empty stays so, and only the order's level changes at all.
  still_empty :
      (s : Side) (t : ℕ)
      → is_empty (level_for (ladder b s) t) ≡ true
      → is_empty (level_for (ladder gone s) t) ≡ true
  still_empty s t e =
      subst (λ (x : Level). is_empty x ≡ true)
        (sym (
          unlink_level_away b q v.links i n live s t (λ es et. gone_full (
            subst₂ (λ (x : Side) (y : ℕ). is_empty (level_for (ladder b x) y) ≡ true) (sym es)
              (sym et) e))))
        e

  still_full :
      (s : Side) (t : ℕ)
      → (n.side ≡ s → n.tick ≡ t → ⊥)
      → is_empty (level_for (ladder b s) t) ≡ false
      → is_empty (level_for (ladder gone s) t) ≡ false
  still_full s t ne e =
      subst (λ (x : Level). is_empty x ≡ false)
        (sym (unlink_level_away b q v.links i n live s t ne)) e

  -- The best price stands unless its level was the order's and has emptied.
  stays-IsBest :
      (s : Side) (o : Option ℕ)
      → (n.side ≡ s → o ≡ some n.tick → is_empty (level_for (ladder gone s) n.tick) ≡ false)
      → IsBest s (ladder b s) o
      → IsBest s (ladder gone s) o
  stays-IsBest s none h w = λ t. still_empty s t (w t)
  stays-IsBest s (some t) h (there, better) = (
    elim (level_cases n.side s n.tick t) [
      | inl (es, et) ↦
          subst (λ (y : ℕ). is_empty (level_for (ladder gone s) y) ≡ false) et
            (h es (ap some (sym et)))
      | inr ne ↦ still_full s t ne there
    ],
    λ u l. still_empty s u (better u l),
  )

  pub stays :
      (best b n.side ≡ some n.tick → is_empty (level_for (ladder gone n.side) n.tick) ≡ false)
      → IsValid gone left
  stays h = record {
    links = gone-Linked;
    bests = λ s. subst (IsBest s (ladder gone s)) (sym (best-gone s)) (
        stays-IsBest s (best b s)
          (λ es e.
            subst (λ (x : Side). is_empty (level_for (ladder gone x) n.tick) ≡ false) es
              (h (subst (λ (x : Side). best b x ≡ some n.tick) (sym es) e)))
          (v.bests s));
  }

  abbrev next_best : Option ℕ
  next_best =
      Option.map (tick_at (ladder gone n.side)) (next_worse_level (ladder gone n.side) n.side k)

  pub advance_lem : advance_best_from gone n.side n.tick ≡ set_best gone n.side next_best
  advance_lem = advance_of_some gone n.side n.tick k (unlink_index b q v.links i n live)

  pub moves :
      best b n.side ≡ some n.tick
      → is_empty (level_for (ladder gone n.side) n.tick) ≡ true
      → IsValid (advance_best_from gone n.side n.tick) left
  moves e emptied =
      subst (λ (x : OrderBook). IsValid x left) (sym advance_lem)
        (record {
          links = set_best-Linked gone n.side next_best left gone-Linked;
          bests = λ s. elim (side_cases n.side s) [
            | inl es ↦
                subst
                  (λ (x : Side).
                    IsBest x (ladder (set_best gone n.side next_best) x)
                      (best (set_best gone n.side next_best) x))
                  es
                  (subst₂ (λ (l : Ladder) (o : Option ℕ). IsBest n.side l o)
                    (sym (ladder-set_best gone n.side n.side next_best))
                    (sym (best-set_best gone n.side next_best)) found)
            | inr ne ↦
                subst₂ (λ (l : Ladder) (o : Option ℕ). IsBest s l o)
                  (sym (ladder-set_best gone n.side s next_best))
                  (sym (best-set_best_ne gone n.side s next_best ne ∙ best-gone s))
                  (stays-IsBest s (best b s) (λ es. absurd (ne es)) (v.bests s))
          ];
        })
    where
      found : IsBest n.side (ladder gone n.side) next_best
      found =
          let w = subst (IsBest n.side (ladder b n.side)) e (v.bests n.side) in
          next_worse_level-IsBest (ladder gone n.side) (gone-Linked.ladders n.side) n.side n.tick k
            (unlink_index b q v.links i n live) emptied (λ t l. still_empty n.side t (w.1 t l))
