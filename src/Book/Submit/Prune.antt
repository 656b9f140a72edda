-- ===== src/Book/Submit/Prune.antt =====
-- `prune_expired_head` of crates/cerdic-tee-matcher/src/book.rs on a valid book.
use cerdic.Prelude.{
  ℕ, zero, suc, ◌<◌, ◌≡◌, refl, subst, ap, ◌∙◌, ◌⊎◌, inl, inr, true, false, Bool-cases,
  Option-cases, none, some, get_elem?, push, arith, if◌then◌else◌, ◌==◌,
}
use cerdic.Common.{Side}
use cerdic.Book.Types.{OrderNode, is_expired, SubmitResult, Outcome, ok}
use cerdic.Book.Ladder.{index_of, level}
use cerdic.Book.State.{OrderBook, best, ladder, slot, slot_of}
use cerdic.Book.Segment.{Order, order_of, order_at}
use cerdic.Book.Removal.Count.{live_orders}
use cerdic.Book.Invariant.{Queues, IsValid}
use cerdic.Book.Links.{unlink}
use cerdic.Book.Matching.{level_index, advance_if_empty}
use cerdic.Book.Submit.{prune_expired_head}
use cerdic.Book.Touch.{Touch, touch, Dropped, drop, touch_same}

prune_stop :
    (f : ℕ) (b : OrderBook) (s : Side) (now : ℕ) (r : SubmitResult)
    → best b s ≡ none
    → prune_expired_head (suc f) b s now r ≡ ok (b, r)
unfolding prune_expired_head
prune_stop f b s now r e = rw (e, prune_expired_head) refl

prune_run :
    (f : ℕ) (b b₁ : OrderBook) (s : Side) (now : ℕ) (r : SubmitResult) (t k i : ℕ) (n : OrderNode)
    → best b s ≡ some t
    → index_of (ladder b s) t ≡ some k
    → (level (ladder b s) k).head ≡ i
    → slot b i ≡ ok n
    → unlink b i ≡ ok (n, b₁)
    → prune_expired_head (suc f) b s now r ≡ (
        if is_expired n.expiry now
        then prune_expired_head f
            (advance_if_empty b₁ s k t)
            s
            now
            (record r { expired = push r.expired i })
        else ok (b, r))
unfolding prune_expired_head
prune_run f b b₁ s now r t k i n e at hd found out =
    rw (e, prune_expired_head) (rw (at, level_index) (rw hd (rw found (rw out refl))))

-- The order at the touch of a side, if there is one, is not expired.
abbrev pub Fresh : OrderBook → Side → ℕ → Type 0
Fresh b s now =
    (t k : ℕ) (n : OrderNode)
    → best b s ≡ some t
    → index_of (ladder b s) t ≡ some k
    → get_elem? b.arena (level (ladder b s) k).head ≡ some (some n)
    → is_expired n.expiry now ≡ false

-- Each order of `b` is in `b'`, or was an expired one of the side.
abbrev pub Kept : OrderBook → OrderBook → Side → ℕ → Type 0
Kept b b' s now =
    (j : ℕ) (o : Order)
    → order_at b.arena j ≡ some o
    → (order_at b'.arena j ≡ some o) ⊎ ((o.side ≡ s) × (is_expired o.expiry now ≡ true))

-- A run that ends well, with what it leaves.
pub record Pruned (b : OrderBook) (s : Side) (now : ℕ) (run : Outcome (OrderBook × SubmitResult))
    : Type 0 where
  pub book : OrderBook
  pub result : SubmitResult
  pub queues : Queues
  pub runs : run ≡ ok (book, result)
  pub valid : IsValid book queues
  pub fresh : Fresh book s now
  pub kept : Kept b book s now

Kept-after :
    (b : OrderBook) (q : Queues) (s : Side) (t now : ℕ) (c : Touch b s t) (d : Dropped b q s t c)
    → is_expired c.node.expiry now ≡ true
    → Kept b (advance_if_empty d.gone_book s c.at t) s now
Kept-after b q s t now c d x j o e = elim (Bool-cases (c.head == j)) [
  | inl h ↦
      let same : c.head ≡ j = ground arith in
      let found = ap order_of c.live in
      let here = ap (order_at b.arena) same in inr (ground (arith, c.on_side), ground arith)
  | inr h ↦ inl (d.after j ∙ rw h e)
]

Kept-trans :
    (b b' b'' : OrderBook) (s : Side) (now : ℕ)
    → Kept b b' s now
    → Kept b' b'' s now
    → Kept b b'' s now
Kept-trans b b' b'' s now k k' j o e = elim (k j o e) [ inl e' ↦ k' j o e' | inr x ↦ inr x ]

-- On a valid book, with more fuel than there are live orders, `prune_expired_head` ends without a
-- panic: the book it leaves is valid, the order at the touch of the side is not expired, and every
-- order is still there but some expired ones of that side.
pub prune_expired_head-Pruned :
    (f : ℕ) (b : OrderBook) (q : Queues) (s : Side) (now : ℕ) (r : SubmitResult)
    → IsValid b q
    → live_orders b.arena < f
    → Pruned b s now (prune_expired_head f b s now r)
prune_expired_head-Pruned zero b q s now r v enough = absurd (omega arith)
prune_expired_head-Pruned (suc f) b q s now r v enough = elim (Option-cases (best b s)) [
  | inl e ↦ record {
    book = b;
    result = r;
    queues = q;
    runs = prune_stop f b s now r e;
    valid = v;
    fresh = λ t k n e'. cc;
    kept = λ j o e'. inl e';
  }
  | inr (t, e) ↦
      let c = touch b q s t v e in
      let d = drop b q s t v e c in
      let b' = advance_if_empty d.gone_book s c.at t in
      let found : slot b c.head ≡ ok c.node = ap slot_of c.live in
      let run =
        prune_run f b d.gone_book s now r t c.at c.head c.node e c.indexed c.head_lem found d.out in
      elim (Bool-cases (is_expired c.node.expiry now)) [
        | inl x ↦
            let p =
              prune_expired_head-Pruned f b' _ s now (record r { expired = push r.expired c.head })
                d.valid (omega (arith, d.fewer)) in
            record {
              book = p.book;
              result = p.result;
              queues = p.queues;
              runs = run ∙ rw x p.runs;
              valid = p.valid;
              fresh = p.fresh;
              kept = Kept-trans b b' p.book s now (Kept-after b q s t now c d x) p.kept;
            }
        | inr x ↦ record {
          book = b;
          result = r;
          queues = q;
          runs = run ∙ rw x refl;
          valid = v;
          fresh = λ t' k n e' at live.
              subst (λ (m : OrderNode). is_expired m.expiry now ≡ false)
                (touch_same b s t t' k n c e e' at live) x;
          kept = λ j o e'. inl e';
        }
      ]
]
