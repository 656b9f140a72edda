-- ===== src/Clob/Matching/Sweeps.antt =====
-- The outer loop of the sweeps of crates/clob/src/lib.rs, over the levels of one side.
use cerdic.Prelude.{
  append_assoc, append_nil, ℕ, ◌≡◌, ◌≢◌, ◌⊎◌, refl, sym, subst, ap, ◌∙◌, inl, inr, true, false,
  Bool-cases, none, some, List, [], ◌∷◌, ◌++◌, arith, lookup, lookup-cons_here, lookup-cons_ne,
  ◌==◌, eq_of_test, In,
}
use cerdic.Common.{Side}
use cerdic.Clob.Types.{Order, Outcome, ok, ◌>>=◌}
use cerdic.Clob.Levels.{Queue, Levels, keys, first_key, or_empty}
use cerdic.Clob.Levels.Laws.{After, Ordered, lookup-After}
use cerdic.Clob.State.{OrderBook}
use cerdic.Clob.Matching.{Sweep, beyond, fill_level, sweep}
use cerdic.Clob.Matching.Fill.{LevelFilled, fill_level-LevelFilled}
use cerdic.Clob.Index.{Agrees, Elsewhere}
use cerdic.Clob.Priority.{
  Hit, hits_of, hits_in, hits_in-zero, hits_in-append, left_in, left_in-zero, left_in-append,
  in_reach, tagged,
}
use cerdic.Clob.Matching.Views.{view, view_here, view-Elsewhere}

-- What a sweep leaves of the levels `ls`.
pub record Swept (b : OrderBook) (taker s : Side) (limit : ℕ) (ls : Levels) (m : Sweep)
    (run : Outcome (Levels × Sweep)) : Type 0 where
  pub levels_left : Levels
  pub carried : Sweep
  pub runs : run ≡ ok (levels_left, carried)
  pub hits :
      hits_of carried.results ≡ hits_of m.results ++ hits_in (in_reach taker limit ls) m.remaining
  pub left : carried.remaining ≡ left_in (in_reach taker limit ls) m.remaining
  pub ordered : Ordered s levels_left
  pub agrees : Agrees carried.index (view b s levels_left)
  pub keys_in : (p : ℕ) → In p (keys levels_left) → In p (keys ls)
  pub forgets : (i : ℕ) → lookup i m.index ≡ none → lookup i carried.index ≡ none
  pub settled :
      (carried.remaining ≡ 0)
      ⊎ ((p : ℕ) → first_key levels_left ≡ some p → beyond taker limit p ≡ true)

Queue-cases : (os : Queue) → (os ≡ []) ⊎ ((x : Order) × (xs : Queue) × (os ≡ x ∷ xs))
Queue-cases [] = inl refl
Queue-cases (x ∷ xs) = inr (x, xs, refl)

module _ (b : OrderBook) (taker : Side) (taker_id : ℕ) (s : Side) (limit : ℕ) where
  sweep_spent :
      (ls : Levels) (m : Sweep)
      → Ordered s ls
      → Agrees m.index (view b s ls)
      → m.remaining ≡ 0
      → (run : Outcome (Levels × Sweep)) → run ≡ ok (ls, m)
      → Swept b taker s limit ls m run
  sweep_spent ls m d g z run e = record {
    levels_left = ls;
    carried = m;
    runs = e;
    hits = sym (
        ap (λ (n : ℕ). hits_of m.results ++ hits_in (in_reach taker limit ls) n) z
        ∙ ap (λ (hs : List Hit). hits_of m.results ++ hs) (hits_in-zero (in_reach taker limit ls))
        ∙ append_nil (hits_of m.results));
    left =
        z ∙ sym (ap (left_in (in_reach taker limit ls)) z ∙ left_in-zero (in_reach taker limit ls));
    ordered = d;
    agrees = g;
    keys_in = λ p k. k;
    forgets = λ i h. h;
    settled = inl z;
  }

  sweep_beyond :
      (p : ℕ) (queue : Queue) (ls : Levels) (m : Sweep)
      → Ordered s ((p, queue) ∷ ls)
      → Agrees m.index (view b s ((p, queue) ∷ ls))
      → beyond taker limit p ≡ true
      → (run : Outcome (Levels × Sweep)) → run ≡ ok ((p, queue) ∷ ls, m)
      → Swept b taker s limit ((p, queue) ∷ ls) m run
  sweep_beyond p queue ls m d g x run e = record {
    levels_left = (p, queue) ∷ ls;
    carried = m;
    runs = e;
    hits = rw x (sym (append_nil (hits_of m.results)));
    left = rw x refl;
    ordered = d;
    agrees = g;
    keys_in = λ p' k. k;
    forgets = λ i h. h;
    settled = inr (λ p' k.
        let same : p ≡ p' = ground arith in subst (λ (y : ℕ). beyond taker limit y ≡ true) same x);
  }

  head_queue : (p : ℕ) (queue : Queue) (ls : Levels) → view b s ((p, queue) ∷ ls) s p ≡ queue
  head_queue p queue ls =
      view_here b s ((p, queue) ∷ ls) p ∙ ap or_empty (lookup-cons_here p queue ls)

  other_head :
      (p : ℕ) (queue queue' : Queue) (ls : Levels)
      → Elsewhere (view b s ((p, queue) ∷ ls)) (view b s ((p, queue') ∷ ls)) s p
  other_head p queue queue' ls = view-Elsewhere b s ((p, queue) ∷ ls) ((p, queue') ∷ ls) p (λ p' ne.
      let ne' : p' ≢ p = λ e. ne (sym e) in
      ap or_empty (lookup-cons_ne p' p queue' ls ne' ∙ sym (lookup-cons_ne p' p queue ls ne')))

  no_head :
      (p : ℕ) (queue : Queue) (ls : Levels)
      → Elsewhere (view b s ((p, queue) ∷ ls)) (view b s ls) s p
  no_head p queue ls =
      view-Elsewhere b s ((p, queue) ∷ ls) ls p
        (λ p' ne. ap or_empty (sym (lookup-cons_ne p' p queue ls (λ e. ne (sym e)))))

  no_queue : (p : ℕ) (ls : Levels) → After s p ls → view b s ls s p ≡ []
  no_queue p ls a = view_here b s ls p ∙ ap or_empty (lookup-After s p ls a)

  -- The rest of the sweep, from what the first level leaves.
  abbrev onward : ℕ → Levels → Queue × Sweep → Outcome (Levels × Sweep)
  onward p ls (queue, m) = elim queue [
    | [] ↦ sweep taker taker_id limit ls m
    | o ∷ os ↦ ok ((p, o ∷ os) ∷ ls, m)
  ]

  sweep_run :
      (p : ℕ) (queue : Queue) (ls : Levels) (m : Sweep)
      → (m.remaining == 0) ≡ false
      → beyond taker limit p ≡ false
      → sweep taker taker_id limit ((p, queue) ∷ ls) m
        ≡ (fill_level taker taker_id p queue m >>= onward p ls)
  unfolding sweep
  sweep_run p queue ls m z x = rw (z, x) refl

  sweep_stop :
      (p : ℕ) (queue : Queue) (ls : Levels) (m : Sweep)
      → (m.remaining == 0) ≡ true
      → sweep taker taker_id limit ((p, queue) ∷ ls) m ≡ ok ((p, queue) ∷ ls, m)
  unfolding sweep
  sweep_stop p queue ls m z = rw z refl

  sweep_far :
      (p : ℕ) (queue : Queue) (ls : Levels) (m : Sweep)
      → (m.remaining == 0) ≡ false
      → beyond taker limit p ≡ true
      → sweep taker taker_id limit ((p, queue) ∷ ls) m ≡ ok ((p, queue) ∷ ls, m)
  unfolding sweep
  sweep_far p queue ls m z x = rw (z, x) refl

  -- The fills of a level, then those of what the rest leaves.
  hits_level :
      (p : ℕ) (queue : Queue) (ls : Levels) (m m' : Sweep)
      → beyond taker limit p ≡ false
      → hits_of m'.results ≡ hits_of m.results ++ hits_in (tagged p queue) m.remaining
      → m'.remaining ≡ left_in (tagged p queue) m.remaining
      → hits_of m'.results ++ hits_in (in_reach taker limit ls) m'.remaining
        ≡ hits_of m.results ++ hits_in (in_reach taker limit ((p, queue) ∷ ls)) m.remaining
  hits_level p queue ls m m' x e l =
      ap (λ (hs : List Hit). hs ++ hits_in (in_reach taker limit ls) m'.remaining) e
      ∙ ap
          (λ (n : ℕ).
            (hits_of m.results ++ hits_in (tagged p queue) m.remaining)
            ++ hits_in (in_reach taker limit ls) n)
          l
      ∙ append_assoc (hits_of m.results) (hits_in (tagged p queue) m.remaining) _
      ∙ ap (λ (hs : List Hit). hits_of m.results ++ hs)
          (sym (hits_in-append (tagged p queue) (in_reach taker limit ls) m.remaining))
      ∙ rw x refl

  left_level :
      (p : ℕ) (queue : Queue) (ls : Levels) (m m' : Sweep)
      → beyond taker limit p ≡ false
      → m'.remaining ≡ left_in (tagged p queue) m.remaining
      → left_in (in_reach taker limit ls) m'.remaining
        ≡ left_in (in_reach taker limit ((p, queue) ∷ ls)) m.remaining
  left_level p queue ls m m' x l =
      ap (left_in (in_reach taker limit ls)) l
      ∙ sym (left_in-append (tagged p queue) (in_reach taker limit ls) m.remaining)
      ∙ rw x refl

  abbrev Result : Levels → Sweep → Type 0
  Result ls m = Swept b taker s limit ls m (sweep taker taker_id limit ls m)

  -- The first level goes with all its orders; `w` is what the sweep of the others leaves.
  sweep_used :
      (p : ℕ) (queue : Queue) (ls : Levels) (m : Sweep)
      → (r : LevelFilled
          (view b s ((p, queue) ∷ ls))
          s
          p
          queue
          m
          (fill_level taker taker_id p queue m))
      → (m.remaining == 0) ≡ false
      → beyond taker limit p ≡ false
      → r.queue_left ≡ []
      → Result ls r.carried
      → Result ((p, queue) ∷ ls) m
  sweep_used p queue ls m r z x none_left w = record {
    levels_left = w.levels_left;
    carried = w.carried;
    runs =
        sweep_run p queue ls m z x
        ∙ ap (λ (o : Outcome (Queue × Sweep)). o >>= onward p ls) r.runs
        ∙ ap (λ (os : Queue). onward p ls (os, r.carried)) none_left
        ∙ w.runs;
    hits = w.hits ∙ hits_level p queue ls m r.carried x r.hits r.left;
    left = w.left ∙ left_level p queue ls m r.carried x r.left;
    ordered = w.ordered;
    agrees = w.agrees;
    keys_in = λ p' k. inr (w.keys_in p' k);
    forgets = λ i h. w.forgets i (r.forgets i h);
    settled = w.settled;
  }

  -- The first level keeps orders, so nothing is left of the taker.
  sweep_kept :
      (p : ℕ) (queue : Queue) (ls : Levels) (m : Sweep) (o : Order) (os : Queue)
      → Ordered s ((p, queue) ∷ ls)
      → (r : LevelFilled
          (view b s ((p, queue) ∷ ls))
          s
          p
          queue
          m
          (fill_level taker taker_id p queue m))
      → (m.remaining == 0) ≡ false
      → beyond taker limit p ≡ false
      → r.queue_left ≡ o ∷ os
      → r.carried.remaining ≡ 0
      → Result ((p, queue) ∷ ls) m
  sweep_kept p queue ls m o os d r z x kept spent = record {
    levels_left = (p, o ∷ os) ∷ ls;
    carried = r.carried;
    runs =
        sweep_run p queue ls m z x
        ∙ ap (λ (y : Outcome (Queue × Sweep)). y >>= onward p ls) r.runs
        ∙ ap (λ (y : Queue). onward p ls (y, r.carried)) kept;
    hits =
        sym (append_nil (hits_of r.carried.results))
        ∙ ap (λ (hs : List Hit). hits_of r.carried.results ++ hs)
            (sym (
              ap (hits_in (in_reach taker limit ls)) spent
              ∙ hits_in-zero (in_reach taker limit ls)))
        ∙ hits_level p queue ls m r.carried x r.hits r.left;
    left =
        spent
        ∙ sym
            (ap (left_in (in_reach taker limit ls)) spent ∙ left_in-zero (in_reach taker limit ls))
        ∙ left_level p queue ls m r.carried x r.left;
    ordered = ((λ e. cc), d.1, d.2);
    agrees =
        r.agrees (view b s ((p, o ∷ os) ∷ ls)) (other_head p queue (o ∷ os) ls)
          (head_queue p (o ∷ os) ls ∙ sym kept);
    keys_in = λ p' k. k;
    forgets = r.forgets;
    settled = inl spent;
  }

  -- The sweep meets no panic, fills in price-time priority, and keeps the levels and the index.
  pub sweep-Swept :
      (ls : Levels) (m : Sweep) → Ordered s ls → Agrees m.index (view b s ls) → Result ls m
  unfolding sweep
  sweep-Swept [] m d g = record {
    levels_left = [];
    carried = m;
    runs = refl;
    hits = sym (append_nil (hits_of m.results));
    left = refl;
    ordered = tt;
    agrees = g;
    keys_in = λ p k. k;
    forgets = λ i h. h;
    settled = inr (λ p e. cc);
  }
  sweep-Swept ((p, queue) ∷ ls) m d g = elim (Bool-cases (m.remaining == 0)) [
    | inl z ↦
        sweep_spent ((p, queue) ∷ ls) m d g (eq_of_test m.remaining 0 z) _
          (sweep_stop p queue ls m z)
    | inr z ↦ elim (Bool-cases (beyond taker limit p)) [
      | inl x ↦ sweep_beyond p queue ls m d g x _ (sweep_far p queue ls m z x)
      | inr x ↦
          let r =
            fill_level-LevelFilled taker taker_id s p queue (view b s ((p, queue) ∷ ls)) m g
              (head_queue p queue ls) in
          elim (Queue-cases r.queue_left) [
            | inl e ↦ sweep_used p queue ls m r z x e (
                sweep-Swept ls r.carried d.2
                  (r.agrees (view b s ls) (no_head p queue ls) (no_queue p ls d.1 ∙ sym e)))
            | inr (o, os, e) ↦
                sweep_kept p queue ls m o os d r z x e
                  (elim r.used [ inl n ↦ absurd (cc) | inr spent ↦ spent ])
          ]
    ]
  ]
