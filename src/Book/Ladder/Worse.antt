-- ===== src/Book/Ladder/Worse.antt =====
-- `next_worse_level` of crates/cerdic-tee-matcher/src/book.rs against the best tick of a ladder.
use cerdic.Prelude.{
  ℕ, zero, suc, ◌+◌, ◌-◌, ◌<◌, ◌≡◌, sym, subst, ap, inl, inr, true, false, Option, none, some,
  arith, length, ltb, leb, Bool-cases, get_or_past,
}
use mathlib.Core.Option
use cerdic.Common.{Side, long, short}
use cerdic.Book.Types.{empty_level, is_empty}
use cerdic.Book.Occupancy.{is_set, prev_set_from, next_set_from}
use cerdic.Book.Occupancy.Words.{IsNext, IsPrev}
use cerdic.Book.Occupancy.Next.{next_set_from-IsNext}
use cerdic.Book.Occupancy.Prev.{prev_set_from-IsPrev}
use cerdic.Book.Ladder.{Ladder, index_of, level, tick_at, next_worse_level}
use cerdic.Book.Ladder.Laws.{IsValid, level_for, level_for_lem, index_of-some}

-- `t` is a better price than `u` for a resting order of this side.
abbrev pub Better : Side → ℕ → ℕ → Type 0
Better long t u = u < t
Better short t u = t < u

-- The best tick of a side: no better one has orders; `none` when no tick has.
abbrev pub IsBest : Side → Ladder → Option ℕ → Type 0
IsBest s l none = (t : ℕ) → is_empty (level_for l t) ≡ true
IsBest s l (some b) =
    (is_empty (level_for l b) ≡ false) × ((t : ℕ) → Better s t b → is_empty (level_for l t) ≡ true)

module _ (l : Ladder) (v : IsValid l) where
  set_in_range : (k : ℕ) → is_set l.occupancy k ≡ true → k < length l.levels
  set_in_range k e = ground (arith, v.tracks k, get_or_past l.levels k empty_level)

  tick_at_set : (k : ℕ) → is_set l.occupancy k ≡ true → tick_at l k ≡ l.base_tick + k
  tick_at_set k e = let h = set_in_range k e in omega (arith, v.fits)

  set_nonempty :
      (k : ℕ) → is_set l.occupancy k ≡ true → is_empty (level_for l (l.base_tick + k)) ≡ false
  set_nonempty k e =
      let q : l.base_tick + k - l.base_tick ≡ k = omega arith in
      ground (arith, v.tracks k, level_for_lem l (l.base_tick + k), ap (level l) q)

  unset_empty :
      (t : ℕ) → is_set l.occupancy (t - l.base_tick) ≡ false → is_empty (level_for l t) ≡ true
  unset_empty t e = ground (arith, v.tracks (t - l.base_tick), level_for_lem l t)

  below_base_empty : (t : ℕ) → t < l.base_tick → is_empty (level_for l t) ≡ true
  below_base_empty t h = ground (arith, level_for_lem l t)

  -- The search downwards from `i` that the bids make.
  worse_below :
      (i : ℕ) (r : Option ℕ)
      → IsPrev (is_set l.occupancy) i r
      → ((t : ℕ) → l.base_tick + i < t → is_empty (level_for l t) ≡ true)
      → IsBest long l (Option.map (tick_at l) r)
  worse_below i none p above = λ t. elim (Bool-cases (leb t (l.base_tick + i))) [
    | inl e ↦ unset_empty t (p (t - l.base_tick) (ground arith))
    | inr e ↦ above t (ground arith)
  ]
  worse_below i (some k) (le, set, gap) above = rw (tick_at_set k set) (
    set_nonempty k set,
    λ t h. elim (Bool-cases (leb t (l.base_tick + i))) [
      | inl e ↦ unset_empty t (gap (t - l.base_tick) (ground arith) (ground arith))
      | inr e ↦ above t (ground arith)
    ],
  )

  -- The search upwards from `i` that the asks make.
  worse_above :
      (i : ℕ) (r : Option ℕ)
      → IsNext (is_set l.occupancy) i r
      → ((t : ℕ) → t < l.base_tick + i → is_empty (level_for l t) ≡ true)
      → IsBest short l (Option.map (tick_at l) r)
  worse_above i none p below = λ t. elim (Bool-cases (ltb t (l.base_tick + i))) [
    | inl e ↦ below t (ground arith)
    | inr e ↦ unset_empty t (p (t - l.base_tick) (ground arith))
  ]
  worse_above i (some k) (le, set, gap) below = rw (tick_at_set k set) (
    set_nonempty k set,
    λ t h. elim (Bool-cases (ltb t (l.base_tick + i))) [
      | inl e ↦ below t (ground arith)
      | inr e ↦ unset_empty t (gap (t - l.base_tick) (ground arith) (ground arith))
    ],
  )

  same_tick :
      (t tick : ℕ) → t ≡ tick → is_empty (level_for l tick) ≡ true → is_empty (level_for l t) ≡ true
  same_tick t tick e h = subst (λ (u : ℕ). is_empty (level_for l u) ≡ true) (sym e) h

  -- On a valid ladder, from the index of a tick whose level is empty, where every better tick is empty
  -- too, `next_worse_level` leads to the best tick that has orders, and `none` only if none has.
  pub next_worse_level-IsBest :
      (s : Side) (tick k : ℕ)
      → index_of l tick ≡ some k
      → is_empty (level_for l tick) ≡ true
      → ((t : ℕ) → Better s t tick → is_empty (level_for l t) ≡ true)
      → IsBest s l (Option.map (tick_at l) (next_worse_level l s k))
  unfolding next_worse_level
  next_worse_level-IsBest long tick zero e here better = λ t. elim (Bool-cases (ltb t tick)) [
    | inl low ↦ below_base_empty t (ground (arith, index_of-some l tick 0 e))
    | inr high ↦ elim (Bool-cases (ltb tick t)) [
      | inl up ↦ better t (ground arith)
      | inr here' ↦ same_tick t tick (ground arith) here
    ]
  ]
  next_worse_level-IsBest long tick (suc i) e here better =
      worse_below i (prev_set_from l.occupancy i) (prev_set_from-IsPrev l.occupancy v.bitmap i)
        λ t h. elim (Bool-cases (ltb tick t)) [
          | inl up ↦ better t (ground arith)
          | inr here' ↦ same_tick t tick (ground (arith, index_of-some l tick (suc i) e)) here
        ]
  next_worse_level-IsBest short tick k e here better =
      worse_above (k + 1) (next_set_from l.occupancy (k + 1))
        (next_set_from-IsNext l.occupancy v.bitmap (k + 1))
        λ t h. elim (Bool-cases (ltb t tick)) [
          | inl low ↦ better t (ground arith)
          | inr here' ↦ same_tick t tick (ground (arith, index_of-some l tick k e)) here
        ]
