-- ===== src/Book/Ladder/Laws.antt =====
-- The invariant of a ladder in crates/cerdic-tee-matcher/src/book.rs, and the level that stands for
-- each tick under the operations that change the array.
use cerdic.Prelude.{
  ℕ, zero, suc, ◌+◌, ◌-◌, ◌≤◌, ◌<◌, ◌≡◌, refl, sym, subst, ap, ◌∙◌, inl, inr, Bool, true, false,
  not, none, some, List, [], ◌∷◌, ◌++◌, arith, length, get_or, replicate, ltb, leb, ◌==◌,
  if◌then◌else◌, Bool-cases, get_or-set, get_or_past, get_or-resize, length-resize, length-set,
  length-append, length-replicate,
}
use cerdic.Book.Types.{Level, empty_level, is_empty, u64_mod}
use cerdic.Book.Occupancy.{Occupancy, is_set}
use cerdic.Book.Occupancy
use cerdic.Book.Occupancy.Laws
use cerdic.Book.Ladder.{Ladder, new_ladder, rebase, extend, ensure, index_of, level, put_level}

-- The level at a tick; the empty one where there is none.
abbrev pub level_for : Ladder → ℕ → Level
level_for l t = elim (index_of l t) [ none ↦ empty_level | some k ↦ level l k ]

-- The bitmap is valid, the ticks fit 64 bits, and a bit is set where a level has orders.
pub record IsValid (l : Ladder) : Type 0 where
  pub bitmap : Occupancy.Laws.IsValid l.occupancy
  pub fits : l.base_tick + length l.levels ≤ u64_mod
  pub tracks : (k : ℕ) → is_set l.occupancy k ≡ not (is_empty (level l k))

pub new_ladder-IsValid : IsValid new_ladder
new_ladder-IsValid = record {
  bitmap = Occupancy.Laws.empty-IsValid;
  fits = omega arith;
  tracks = λ k. Occupancy.Laws.is_set-none k;
}

-- The level at an offset from the base, read without the range test.
pub level_for_lem :
    (l : Ladder) (t : ℕ)
    → level_for l t ≡ (if ltb t l.base_tick then empty_level else level l (t - l.base_tick))
unfolding index_of
level_for_lem l t = ground (arith, get_or_past l.levels (t - l.base_tick) empty_level)

pub level_for-new_ladder : (t : ℕ) → level_for new_ladder t ≡ empty_level
level_for-new_ladder t = ground (arith, level_for_lem new_ladder t)

pub index_of-some :
    (l : Ladder) (t k : ℕ) → index_of l t ≡ some k → (l.base_tick + k ≡ t) × (k < length l.levels)
unfolding index_of
index_of-some l t k e = ground arith

pub index_of_nonempty :
    (l : Ladder) (t : ℕ) → is_empty (level_for l t) ≡ false → index_of l t ≡ some (t - l.base_tick)
unfolding index_of
index_of_nonempty l t e = ground arith

-- A write at the index of a tick changes the level of that tick and no other.
pub index_of-put_level :
    (l : Ladder) (k : ℕ) (v : Level) (t : ℕ) → index_of (put_level l k v) t ≡ index_of l t
unfolding index_of
index_of-put_level l k v t = ground (arith, length-set l.levels k v)

pub index_of-occupancy :
    (l : Ladder) (o : Occupancy) (t : ℕ) → index_of (record l { occupancy = o }) t ≡ index_of l t
unfolding index_of
index_of-occupancy l o t = refl

pub level_for-put_level :
    (l : Ladder) (t k : ℕ) (v : Level) (t' : ℕ)
    → index_of l t ≡ some k
    → level_for (put_level l k v) t' ≡ (if t == t' then v else level_for l t')
level_for-put_level l t k v t' e =
    let (at, lt) = index_of-some l t k e in
    ground (
      arith,
      level_for_lem (put_level l k v) t',
      level_for_lem l t',
      get_or-set l.levels k (t' - l.base_tick) v empty_level lt,
    )

rebase_base : (l : Ladder) (t : ℕ) → (rebase l t).base_tick ≡ t
unfolding rebase
rebase_base l t = refl

get_or-prepend :
    (n k : ℕ) (v : Level) (xs : List Level)
    → get_or (replicate n v ++ xs) k v ≡ (if ltb k n then v else get_or xs (k - n) v)
get_or-prepend zero k v xs =
    let q : k - 0 ≡ k = omega arith in ground (arith, ap (λ (m : ℕ). get_or xs m v) q)
get_or-prepend (suc n) zero v xs = ground arith
get_or-prepend (suc n) (suc k) v xs =
    let q : suc k - suc n ≡ k - n = omega arith in
    ground (arith, ap (λ (m : ℕ). get_or xs m v) q, get_or-prepend n k v xs)

module _ (l : Ladder) (tick : ℕ) (v : IsValid l) where
  level-rebase :
      (k : ℕ)
      → tick < l.base_tick
      → level (rebase l tick) k
        ≡ (if ltb k (l.base_tick - tick) then empty_level else level l (k - (l.base_tick - tick)))
  unfolding rebase
  level-rebase k h = get_or-prepend (l.base_tick - tick) k empty_level l.levels

  rebase-IsValid : tick < l.base_tick → IsValid (rebase l tick)
  unfolding rebase
  rebase-IsValid h =
      let shift = l.base_tick - tick in
      let grown = replicate shift empty_level ++ l.levels in
      let size : length grown ≡ shift + length l.levels = omega (
        arith,
        length-append (replicate shift empty_level) l.levels,
        length-replicate shift empty_level,
      ) in
      record {
        bitmap = Occupancy.Laws.shift_up-IsValid l.occupancy shift (length grown);
        fits = omega (arith, size, v.fits);
        tracks = λ k. ground (
          arith,
          Occupancy.Laws.is_set-shift_up l.occupancy shift (length grown) k,
          get_or-prepend shift k empty_level l.levels,
          v.tracks (k - shift),
        );
      }

  level_for-rebase : (t : ℕ) → tick < l.base_tick → level_for (rebase l tick) t ≡ level_for l t
  level_for-rebase t h = level_for_lem (rebase l tick) t ∙ shifted ∙ sym (level_for_lem l t)
    where
      base : (rebase l tick).base_tick ≡ tick
      base = rebase_base l tick

      shifted :
          (if ltb t (rebase l tick).base_tick
            then empty_level
            else level (rebase l tick) (t - (rebase l tick).base_tick))
          ≡ (if ltb t l.base_tick then empty_level else level l (t - l.base_tick))
      shifted =
          let q : t - tick - (l.base_tick - tick) ≡ t - l.base_tick = omega arith in
          rw base (ground (arith, level-rebase (t - tick) h, ap (λ (m : ℕ). level l m) q))

  extend-IsValid : l.base_tick ≤ tick → tick < u64_mod → IsValid (extend l tick).0
  unfolding extend
  extend-IsValid h b = elim (Bool-cases (leb (length l.levels) (tick - l.base_tick))) [
    | inl e ↦ rw e (record {
      bitmap = Occupancy.Laws.ensure_len-IsValid l.occupancy (tick - l.base_tick + 1) v.bitmap;
      fits = omega (arith, length-resize l.levels (tick - l.base_tick + 1) empty_level);
      tracks = λ k. ground (
        arith,
        Occupancy.Laws.is_set-ensure_len l.occupancy (tick - l.base_tick + 1) k,
        get_or-resize l.levels (tick - l.base_tick + 1) k empty_level,
        v.tracks k,
      );
    })
    | inr e ↦ rw e v
  ]

  level-extend : (k : ℕ) → level (extend l tick).0 k ≡ level l k
  unfolding extend
  level-extend k = ground (arith, get_or-resize l.levels (tick - l.base_tick + 1) k empty_level)

  extend_base : (extend l tick).0.base_tick ≡ l.base_tick
  unfolding extend
  extend_base = ground arith

  level_for-extend : (t : ℕ) → level_for (extend l tick).0 t ≡ level_for l t
  level_for-extend t =
      level_for_lem (extend l tick).0 t
      ∙ rw extend_base (rw (level-extend (t - l.base_tick)) refl)
      ∙ sym (level_for_lem l t)

  index_of-extend : l.base_tick ≤ tick → index_of (extend l tick).0 tick ≡ some (extend l tick).1
  unfolding index_of extend
  index_of-extend h = ground (arith, length-resize l.levels (tick - l.base_tick + 1) empty_level)

  index_of-rebase : tick < l.base_tick → index_of (rebase l tick) tick ≡ some 0
  unfolding index_of rebase
  index_of-rebase h = ground (
    arith,
    length-append (replicate (l.base_tick - tick) empty_level) l.levels,
    length-replicate (l.base_tick - tick) empty_level,
  )

-- The first level of a ladder that had none.
module _ (l : Ladder) (tick : ℕ) (v : IsValid l) (none_yet : l.levels ≡ []) where
  abbrev first_level : Ladder
  first_level = record {
    base_tick = tick;
    levels = empty_level ∷ [];
    occupancy = Occupancy.ensure_len l.occupancy 1;
  }

  first_level-get : (k : ℕ) → level first_level k ≡ empty_level
  first_level-get zero = refl
  first_level-get (suc k) = refl

  first_level-IsValid : tick < u64_mod → IsValid first_level
  first_level-IsValid b = record {
    bitmap = Occupancy.Laws.ensure_len-IsValid l.occupancy 1 v.bitmap;
    fits = omega arith;
    tracks = λ k.
        ground
          (arith, Occupancy.Laws.is_set-ensure_len l.occupancy 1 k, first_level-get k, v.tracks k);
  }

  level_for-first_level : (t : ℕ) → level_for first_level t ≡ level_for l t
  level_for-first_level t =
      ground (arith, level_for_lem first_level t, level_for_lem l t, first_level-get (t - tick))

  index_of-first_level : index_of first_level tick ≡ some 0
  unfolding index_of
  index_of-first_level = ground arith

-- What `ensure` promises of its ladder and index.
abbrev pub Ensured : Ladder → ℕ → Ladder × ℕ → Type 0
Ensured l tick (l', k) =
    IsValid l' × (index_of l' tick ≡ some k) × ((t : ℕ) → level_for l' t ≡ level_for l t)

ensure_first :
    (l : Ladder) (tick : ℕ)
    → l.levels ≡ []
    → ensure l tick ≡ (
      record {
        base_tick = tick;
        levels = empty_level ∷ [];
        occupancy = Occupancy.ensure_len l.occupancy 1;
      },
      0,
    )
unfolding ensure
ensure_first l tick e = ground arith

ensure_other :
    (l : Ladder) (tick : ℕ) (x : Level) (xs : List Level)
    → l.levels ≡ x ∷ xs
    → ensure l tick ≡ (if ltb tick l.base_tick then (rebase l tick, 0) else extend l tick)
unfolding ensure
ensure_other l tick x xs e = ground arith

-- On a valid ladder and a 64-bit tick, `ensure` returns a valid ladder, the tick's index in it, and
-- the level of every tick as it was.
pub ensure_lem :
    (l : Ladder) (tick : ℕ) → IsValid l → tick < u64_mod → Ensured l tick (ensure l tick)
ensure_lem l tick v b = go l.levels refl
  where
    other :
        (low : Bool)
        → ltb tick l.base_tick ≡ low
        → Ensured l tick (if low then (rebase l tick, 0) else extend l tick)
    other true e =
        let h : tick < l.base_tick = ground arith in
        (rebase-IsValid l tick v h, index_of-rebase l tick v h, λ t. level_for-rebase l tick v t h)
    other false e =
        let h : l.base_tick ≤ tick = ground arith in
        (extend-IsValid l tick v h b, index_of-extend l tick v h, level_for-extend l tick v)

    go : (ls : List Level) → l.levels ≡ ls → Ensured l tick (ensure l tick)
    go [] e = subst (Ensured l tick) (sym (ensure_first l tick e)) (
      first_level-IsValid l tick v e b,
      index_of-first_level l tick v e,
      level_for-first_level l tick v e,
    )
    go (x ∷ xs) e =
        subst (Ensured l tick) (sym (ensure_other l tick x xs e))
          (other (ltb tick l.base_tick) refl)
