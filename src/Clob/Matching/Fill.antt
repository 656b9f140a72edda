-- ===== src/Clob/Matching/Fill.antt =====
-- The inner loop of the sweeps of crates/clob/src/lib.rs, over the queue of one level.
use cerdic.Prelude.{
  append_assoc, append_nil, ℕ, zero, suc, ◌-◌, ◌<◌, ◌≡◌, ◌≢◌, ◌⊎◌, refl, sym, subst, ap, ◌∙◌, inl,
  inr, true, false, Bool-cases, List, [], ◌∷◌, ◌++◌, All, arith, min, ◌==◌, ltb, eq_of_test,
  ne_of_test, erase, lookup, lookup-erase, none, Dict, ltb→lt, In, delete, delete_head,
}
use cerdic.Prelude.Int.{unsigned_abs}
use cerdic.Common.{Side, long, short, level_cases}
use cerdic.Clob.Types.{
  Order, quantity, as_i128, set_quantity, signed, side_agrees_with_size, i128_end, Outcome, ok,
}
use cerdic.Clob.Levels.{Queue, ids}
use cerdic.Clob.Matching.{Sweep, filled, fill_level}
use cerdic.Clob.State.{BookLocation}
use cerdic.Clob.Index.{Queues, Fits, Agrees, Elsewhere, Agrees-edit, Agrees-remove}
use cerdic.Clob.Priority.{
  Hit, hits_of, hits_of-push, hits_in, hits_in-zero, left_in, left_in-zero, tagged,
}

-- `q` with another queue at one side and price.
pub update : Queues → Side → ℕ → Queue → Queues
update q s p os s' p' = elim (level_cases s s' p p') [ inl e ↦ os | inr ne ↦ q s' p' ]

pub update-here : (q : Queues) (s : Side) (p : ℕ) (os : Queue) → update q s p os s p ≡ os
unfolding update
update-here q s p os =
    elim (level_cases s s p p)
      as (λ c. (elim c as (λ x. Queue) [ inl e ↦ os | inr ne ↦ q s p ]) ≡ os) [
        | inl e ↦ refl
        | inr ne ↦ absurd (ne refl refl)
      ]

pub update-Elsewhere :
    (q : Queues) (s : Side) (p : ℕ) (os : Queue) → Elsewhere q (update q s p os) s p
unfolding update
update-Elsewhere q s p os s' p' ne =
    elim (level_cases s s' p p')
      as (λ c. (elim c as (λ x. Queue) [ inl e ↦ os | inr ne ↦ q s' p' ]) ≡ q s' p') [
        | inl (es, ep) ↦ absurd (ne es ep)
        | inr n ↦ refl
      ]

-- A maker that is not used up still fits its queue.
pub signed-Fits :
    (s : Side) (p : ℕ) (o : Order) (n : ℕ)
    → Fits s p o
    → n ≢ 0
    → n < i128_end
    → Fits s p (record o { size = signed o.side n })
signed-Fits s p o n f ne lt = record {
  on_side = f.on_side;
  at_price = f.at_price;
  signed_right =
      subst (λ (x : Side). side_agrees_with_size x (signed o.side n) ≡ true) f.on_side
        (agrees o.side n ne);
  in_range = subst (λ (k : ℕ). k < i128_end) (sym (size o.side n)) lt;
}
  where
    agrees : (x : Side) (k : ℕ) → k ≢ 0 → side_agrees_with_size x (signed x k) ≡ true
    agrees long k h = ground arith
    agrees short zero h = absurd (h refl)
    agrees short (suc k) h = refl

    size : (x : Side) (k : ℕ) → unsigned_abs (signed x k) ≡ k
    size long k = refl
    size short zero = refl
    size short (suc k) = refl

-- What the inner loop leaves, for the orders `queue` that stand at `p`, and the others of `q`.
pub record LevelFilled (q : Queues) (s : Side) (p : ℕ) (queue : Queue) (m : Sweep)
    (run : Outcome (Queue × Sweep)) : Type 0 where
  pub queue_left : Queue
  pub carried : Sweep
  pub runs : run ≡ ok (queue_left, carried)
  pub hits : hits_of carried.results ≡ hits_of m.results ++ hits_in (tagged p queue) m.remaining
  pub left : carried.remaining ≡ left_in (tagged p queue) m.remaining
  pub used : (queue_left ≡ []) ⊎ (carried.remaining ≡ 0)
  pub forgets : (i : ℕ) → lookup i m.index ≡ none → lookup i carried.index ≡ none
  pub agrees : (q' : Queues) → Elsewhere q q' s p → q' s p ≡ queue_left → Agrees carried.index q'

module _ (taker : Side) (taker_id : ℕ) (s : Side) (p : ℕ) where
  fill_stop :
      (q : Queues) (maker : Order) (queue : Queue) (m : Sweep)
      → Agrees m.index q
      → q s p ≡ maker ∷ queue
      → (m.remaining == 0) ≡ true
      → LevelFilled q s p (maker ∷ queue) m (fill_level taker taker_id p (maker ∷ queue) m)
  unfolding fill_level
  fill_stop q maker queue m g e z =
      let none_left = eq_of_test m.remaining 0 z in
      record {
        queue_left = maker ∷ queue;
        carried = m;
        runs = rw z refl;
        hits = sym (rw z (append_nil (hits_of m.results)));
        left = rw none_left (sym (left_in-zero (tagged p (maker ∷ queue))));
        used = inr none_left;
        forgets = λ i h. h;
        agrees = λ q' away here.
            Agrees-edit m.index q q' g s p away
              (subst (All (Fits s p)) (e ∙ sym here) (g.fitting s p)) (ap ids (here ∙ sym e));
      }

  abbrev hit : Order → Sweep → Hit
  hit maker m = record {
    maker = maker.id;
    price = p;
    size = as_i128 (min (quantity maker) m.remaining);
  }

  hits_filled :
      (maker : Order) (m : Sweep)
      → hits_of (filled taker taker_id p maker m).results ≡ hits_of m.results ++ hit maker m ∷ []
  hits_filled maker m = by_side taker
    where
      by_side :
          (t : Side)
          → hits_of (filled t taker_id p maker m).results ≡ hits_of m.results ++ hit maker m ∷ []
      by_side long = hits_of-push m.results _
      by_side short = hits_of-push m.results _

  fill_partial :
      (q : Queues) (maker : Order) (queue : Queue) (m : Sweep)
      → Agrees m.index q
      → q s p ≡ maker ∷ queue
      → (m.remaining == 0) ≡ false
      → (quantity maker - min (quantity maker) m.remaining == 0) ≡ false
      → LevelFilled q s p (maker ∷ queue) m (fill_level taker taker_id p (maker ∷ queue) m)
  unfolding fill_level set_quantity
  fill_partial q maker queue m g e z u =
      let n = quantity maker - min (quantity maker) m.remaining in
      let fits : All (Fits s p) (maker ∷ queue) = subst (All (Fits s p)) e (g.fitting s p) in
      let small = fits.0.in_range in
      let lt : ltb n i128_end ≡ true = ground arith in
      let none_left : m.remaining - min (quantity maker) m.remaining ≡ 0 =
        omega (arith, ne_of_test n 0 u) in
      record {
        queue_left = record maker { size = signed maker.side n } ∷ queue;
        carried = filled taker taker_id p maker m;
        runs = rw (z, u, lt) refl;
        hits = hits_filled maker m ∙ rw (z, none_left, hits_in-zero (tagged p queue)) refl;
        left =
            none_left
            ∙ sym (ap (left_in (tagged p queue)) none_left ∙ left_in-zero (tagged p queue));
        used = inr none_left;
        forgets = λ i h. h;
        agrees = λ q' away here.
            Agrees-edit m.index q q' g s p away
              (subst (All (Fits s p)) (sym here)
                (signed-Fits s p maker n fits.0 (ne_of_test n 0 u) (ltb→lt n i128_end lt), fits.1))
              (ap ids here ∙ sym (ap ids e));
      }

  -- The maker is used up and leaves; `r` is what the rest of the loop leaves.
  fill_used :
      (q : Queues) (maker : Order) (queue : Queue) (m : Sweep)
      → Agrees m.index q
      → q s p ≡ maker ∷ queue
      → (m.remaining == 0) ≡ false
      → (quantity maker - min (quantity maker) m.remaining == 0) ≡ true
      → (let m' = record (filled taker taker_id p maker m) { index = erase maker.id m.index } in
          LevelFilled (update q s p queue) s p queue m' (fill_level taker taker_id p queue m'))
      → LevelFilled q s p (maker ∷ queue) m (fill_level taker taker_id p (maker ∷ queue) m)
  unfolding fill_level
  fill_used q maker queue m g e z u r = record {
    queue_left = r.queue_left;
    carried = r.carried;
    runs = rw (z, u) r.runs;
    hits =
        r.hits
        ∙ ap
            (λ (hs : List Hit).
              hs ++ hits_in (tagged p queue) (m.remaining - min (quantity maker) m.remaining))
            (hits_filled maker m)
        ∙ append_assoc (hits_of m.results) (hit maker m ∷ []) _
        ∙ rw z refl;
    left = r.left;
    used = r.used;
    forgets = λ i h. r.forgets i (ground (arith, lookup-erase i maker.id m.index));
    agrees = λ q' away here.
        r.agrees q' (λ s' p' ne. away s' p' ne ∙ sym (update-Elsewhere q s p queue s' p' ne)) here;
  }

  used-Agrees :
      (q : Queues) (maker : Order) (queue : Queue) (ix : Dict BookLocation)
      → Agrees ix q
      → q s p ≡ maker ∷ queue
      → Agrees (erase maker.id ix) (update q s p queue)
  used-Agrees q maker queue ix g e =
      let fits : All (Fits s p) (maker ∷ queue) = subst (All (Fits s p)) e (g.fitting s p) in
      Agrees-remove ix q (update q s p queue) g s p (update-Elsewhere q s p queue) maker.id
        (subst (λ (os : Queue). In maker.id (ids os)) (sym e) (inl refl))
        (subst (All (Fits s p)) (sym (update-here q s p queue)) fits.1)
        (ap ids (update-here q s p queue)
          ∙ sym
              (ap (λ (os : Queue). delete maker.id (ids os)) e ∙ delete_head maker.id (ids queue)))

  -- The inner loop meets no panic, fills in the order of the queue, and keeps the index.
  pub fill_level-LevelFilled :
      (queue : Queue) (q : Queues) (m : Sweep)
      → Agrees m.index q
      → q s p ≡ queue
      → LevelFilled q s p queue m (fill_level taker taker_id p queue m)
  unfolding fill_level
  fill_level-LevelFilled [] q m g e = record {
    queue_left = [];
    carried = m;
    runs = refl;
    hits = sym (append_nil (hits_of m.results));
    left = refl;
    used = inl refl;
    forgets = λ i h. h;
    agrees = λ q' away here.
        Agrees-edit m.index q q' g s p away (subst (All (Fits s p)) (sym here) tt)
          (ap ids (here ∙ sym e));
  }
  fill_level-LevelFilled (maker ∷ queue) q m g e = elim (Bool-cases (m.remaining == 0)) [
    | inl z ↦ fill_stop q maker queue m g e z
    | inr z ↦ elim (Bool-cases (quantity maker - min (quantity maker) m.remaining == 0)) [
      | inl u ↦ fill_used q maker queue m g e z u (
          fill_level-LevelFilled queue (update q s p queue)
            (record (filled taker taker_id p maker m) { index = erase maker.id m.index })
            (used-Agrees q maker queue m.index g e) (update-here q s p queue))
      | inr u ↦ fill_partial q maker queue m g e z u
    ]
  ]
