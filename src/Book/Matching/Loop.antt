-- ===== src/Book/Matching/Loop.antt =====
-- The rounds and the end of the matching loop of `submit` in crates/cerdic-tee-matcher/src/book.rs, on
-- a valid book.
use cerdic.Prelude.{
  ℕ, zero, suc, ◌+◌, ◌-◌, ◌≤◌, ◌<◌, ◌≡◌, ◌≢◌, ◌⊎◌, inl, inr, refl, sym, subst, ap, ◌∙◌, Bool, true,
  false, Bool-cases, Option-cases, none, some, All-push, push, arith, min, ◌==◌, if◌then◌else◌,
}
use cerdic.Common.{Side, opposite_side}
use cerdic.Book.Types.{NewOrder, is_expired, Outcome, ok, ◌>>=◌}
use cerdic.Book.State.{best, slot_of}
use cerdic.Book.Invariant.{Queues, IsValid}
use cerdic.Book.Links.Partial.{part_filled}
use cerdic.Book.Available.{crosses}
use cerdic.Book.Matching.{
  advance_if_empty, Matching, drop_head, fill_of, trade_with_head, match_level, match_round,
  match_loop,
}
use cerdic.Book.Matching.Rounds.{
  traded, traded-push, Fair, work, Progress, dropped_match, drop_head_run, traded_book, fill_run,
  part_run, match_level_run,
}
use cerdic.Book.Touch.{Touch, touch, Dropped, drop, lessen}

-- A run that ends with progress.
pub record Advances (order : NewOrder) (m : Matching) (run : Outcome Matching) : Type 0 where
  pub next : Matching
  pub runs : run ≡ ok next
  pub progress : Progress order m next
  pub less : work next < work m

module _ (order : NewOrder) (now : ℕ) (m : Matching) (q : Queues) (v : IsValid m.book q) (t : ℕ)
    (e : best m.book (opposite_side order.side) ≡ some t)
    (crossed : crosses order.side order.tick t ≡ true) (left : m.qty ≢ 0) where
  abbrev s : Side
  s = opposite_side order.side

  c : Touch m.book s t
  c = touch m.book q s t v e

  d : Dropped m.book q s t c
  d = drop m.book q s t v e c

  drop_lem : (expired : Bool) → Advances order m (drop_head m s c.at t c.head expired)
  drop_lem expired = record {
    next = dropped_match m c.head (advance_if_empty d.gone_book s c.at t) expired;
    runs = drop_head_run m s c.at t c.head c.node d.gone_book expired d.out;
    progress = record {
      queues = _;
      valid = d.valid;
      sums = ground arith;
      fair = λ h. ground arith;
    };
    less = omega (arith, d.fewer);
  }

  fairly : c.node.owner ≢ order.owner → Fair order (fill_of c.head c.node t m.qty)
  fairly ne = (crossed, ne, omega arith, omega arith)

  sums_lem :
      traded (push m.result.fills (fill_of c.head c.node t m.qty)) + (m.qty - min m.qty c.node.qty)
      ≡ traded m.result.fills + m.qty
  sums_lem = omega (arith, traded-push m.result.fills (fill_of c.head c.node t m.qty))

  trade_lem :
      c.node.owner ≢ order.owner → Advances order m (trade_with_head m s c.at t c.head c.node)
  trade_lem ne = elim (Bool-cases (min m.qty c.node.qty == c.node.qty)) [
    | inl h ↦ record {
      next = traded_book m c.head c.node t (advance_if_empty d.gone_book s c.at t);
      runs = fill_run m s c.at t c.head c.node d.gone_book d.out h;
      progress = record {
        queues = _;
        valid = d.valid;
        sums = sums_lem;
        fair = λ a. All-push (Fair order) m.result.fills _ a (fairly ne);
      };
      less = ground (arith, d.fewer);
    }
    | inr h ↦
        let le : min m.qty c.node.qty ≤ c.node.qty = omega arith in
        let (valid, same) = lessen m.book q s t (min m.qty c.node.qty) v c le in
        record {
          next = traded_book m c.head c.node t (
              advance_if_empty (part_filled m.book c.head c.node s c.at (min m.qty c.node.qty)) s
                c.at t);
          runs = part_run m s c.at t c.head c.node h;
          progress = record {
            queues = q;
            valid = valid;
            sums = sums_lem;
            fair = λ a. All-push (Fair order) m.result.fills _ a (fairly ne);
          };
          less = ground (arith, same);
        }
  ]

  abbrev chosen : Outcome Matching
  chosen =
      if is_expired c.node.expiry now
      then drop_head m s c.at t c.head true
      else if c.node.owner == order.owner
      then drop_head m s c.at t c.head false
      else trade_with_head m s c.at t c.head c.node

  chosen_lem : Advances order m chosen
  chosen_lem = elim (Bool-cases (is_expired c.node.expiry now)) [
    | inl x ↦ subst (Advances order m) (sym (rw x refl)) (drop_lem true)
    | inr x ↦ elim (Bool-cases (c.node.owner == order.owner)) [
      | inl o ↦ subst (Advances order m) (sym (rw (x, o) refl)) (drop_lem false)
      | inr o ↦ subst (Advances order m) (sym (rw (x, o) refl)) (trade_lem (λ h. ground arith))
    ]
  ]

  run : match_level order now m t ≡ ok (some chosen_lem.next)
  run =
      match_level_run order now m t c.at c.head c.node c.indexed c.head_lem (ap slot_of c.live)
      ∙ ap (λ (x : Outcome Matching). x >>= (λ m'. ok (some m'))) chosen_lem.runs

Progress-trans :
    (order : NewOrder) (m m' m'' : Matching)
    → Progress order m m'
    → Progress order m' m''
    → Progress order m m''
Progress-trans order m m' m'' p p' = record {
  queues = p'.queues;
  valid = p'.valid;
  sums = p'.sums ∙ p.sums;
  fair = λ a. p'.fair (p.fair a);
}

-- Nothing is left of the taker, or the best opposite price is no longer crossed.
abbrev pub Settled : NewOrder → Matching → Type 0
Settled order m =
    (m.qty ≡ 0)
    ⊎ ((t : ℕ)
        → best m.book (opposite_side order.side) ≡ some t
        → crosses order.side order.tick t ≡ false)

-- A run of the loop that ends, with progress, where nothing more can match.
pub record Ends (order : NewOrder) (m : Matching) (run : Outcome Matching) : Type 0 where
  pub final : Matching
  pub runs : run ≡ ok final
  pub progress : Progress order m final
  pub settled : Settled order final

loop_stop :
    (f : ℕ) (order : NewOrder) (now : ℕ) (m : Matching)
    → match_round order now m ≡ ok none
    → match_loop (suc f) order now m ≡ ok m
unfolding match_loop
loop_stop f order now m e = rw (e, match_loop) refl

loop_step :
    (f : ℕ) (order : NewOrder) (now : ℕ) (m m' : Matching)
    → match_round order now m ≡ ok (some m')
    → match_loop (suc f) order now m ≡ match_loop f order now m'
unfolding match_loop
loop_step f order now m m' e = rw (e, match_loop) refl

round_spent :
    (order : NewOrder) (now : ℕ) (m : Matching)
    → (m.qty == 0) ≡ true
    → match_round order now m ≡ ok none
unfolding match_round
round_spent order now m h = rw (h, match_round) refl

round_empty :
    (order : NewOrder) (now : ℕ) (m : Matching)
    → (m.qty == 0) ≡ false
    → best m.book (opposite_side order.side) ≡ none
    → match_round order now m ≡ ok none
unfolding match_round
round_empty order now m h e = rw (h, match_round) (rw e refl)

round_at :
    (order : NewOrder) (now : ℕ) (m : Matching) (t : ℕ)
    → (m.qty == 0) ≡ false
    → best m.book (opposite_side order.side) ≡ some t
    → match_round order now m
      ≡ (if crosses order.side order.tick t then match_level order now m t else ok none)
unfolding match_round
round_at order now m t h e = rw (h, match_round) (rw e refl)

Ends-here :
    (f : ℕ) (order : NewOrder) (now : ℕ) (m : Matching) (q : Queues)
    → IsValid m.book q
    → match_round order now m ≡ ok none
    → Settled order m
    → Ends order m (match_loop (suc f) order now m)
Ends-here f order now m q v e settled = record {
  final = m;
  runs = loop_stop f order now m e;
  progress = record { queues = q; valid = v; sums = refl; fair = λ a. a };
  settled = settled;
}

-- On a valid book, with more fuel than there are live orders and one, the matching loop ends without
-- a panic: it leaves a valid book, what it traded and what is left are what there was, each fill is
-- at a crossed price with another owner and within both sizes, and nothing more can match.
pub match_loop-Ends :
    (f : ℕ) (order : NewOrder) (now : ℕ) (m : Matching) (q : Queues)
    → IsValid m.book q
    → work m < f
    → Ends order m (match_loop f order now m)
match_loop-Ends zero order now m q v enough = absurd (omega arith)
match_loop-Ends (suc f) order now m q v enough = elim (Bool-cases (m.qty == 0)) [
  | inl h ↦ Ends-here f order now m q v (round_spent order now m h) (inl (ground arith))
  | inr h ↦ elim (Option-cases (best m.book (opposite_side order.side))) [
    | inl e ↦ Ends-here f order now m q v (round_empty order now m h e) (inr (λ t e'. cc))
    | inr (t, e) ↦ elim (Bool-cases (crosses order.side order.tick t)) [
      | inl x ↦
          let left : m.qty ≢ 0 = λ z. ground arith in
          let a = chosen_lem order now m q v t e x left in
          let r =
            match_loop-Ends f order now a.next a.progress.queues a.progress.valid
              (omega (arith, a.less)) in
          record {
            final = r.final;
            runs =
                loop_step f order now m a.next
                  (round_at order now m t h e ∙ rw x (run order now m q v t e x left))
                ∙ r.runs;
            progress = Progress-trans order m a.next r.final a.progress r.progress;
            settled = r.settled;
          }
      | inr x ↦ Ends-here f order now m q v (round_at order now m t h e ∙ rw x refl) (
          inr (λ t' e'.
            let same : t ≡ t' = ground arith in
            subst (λ (y : ℕ). crosses order.side order.tick y ≡ false) same x))
    ]
  ]
]
