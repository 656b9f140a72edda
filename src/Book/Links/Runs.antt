-- ===== src/Book/Links/Runs.antt =====
-- `unlink` of crates/cerdic-tee-matcher/src/book.rs as one update, where the slots that it reads are
-- live.
use cerdic.Prelude.{
  ℕ, zero, suc, ◌<◌, ◌≡◌, refl, sym, subst, ap, ◌≢◌, inl, inr, Bool-cases, some, List, [], ◌∷◌,
  arith, length, get_elem?, get_or, set, ◌==◌, if◌then◌else◌, get_or-set, length-set,
}
use cerdic.Common.{Side, long, short}
use cerdic.Book.Types.{nil, sub_u64, OrderNode, Level, empty_level, is_empty, ok}
use cerdic.Book.Ladder.{Ladder, index_of, level, put_level, mark_empty}
use cerdic.Book.State.{OrderBook, ladder, put_ladder, put_level_at, put_slot, set_next, set_prev}
use cerdic.Book.Segment.{Arena}
use cerdic.Book.Removal.{past_next, past_prev, freed, removed}
use cerdic.Book.Links.{link_left, link_right, settle_level, unlink}

set-set : {A : Type 0} (xs : List A) (k : ℕ) (u v : A) → set (set xs k u) k v ≡ set xs k v
set-set [] k u v = refl
set-set (x ∷ xs) zero u v = refl
set-set (x ∷ xs) (suc k) u v = ap (◌∷◌ x) (set-set xs k u v)

abbrev pub Live : Arena → ℕ → Type 0
Live a i = (n : OrderNode) × (get_elem? a i ≡ some (some n))

set_get : {A : Type 0} (xs : List A) (k : ℕ) (d : A) → set xs k (get_or xs k d) ≡ xs
set_get [] k d = refl
set_get (x ∷ xs) zero d = refl
set_get (x ∷ xs) (suc k) d = ap (◌∷◌ x) (set_get xs k d)

-- A level written twice, and read where it was written.
put_level_twice :
    (b : OrderBook) (s : Side) (k : ℕ) (u v : Level)
    → put_level_at (put_level_at b s k u) s k v ≡ put_level_at b s k v
put_level_twice b long k u v = rw (set-set b.bids.levels k u v) refl
put_level_twice b short k u v = rw (set-set b.asks.levels k u v) refl

level_put :
    (b : OrderBook) (s : Side) (k : ℕ) (u : Level)
    → k < length (ladder b s).levels
    → level (ladder (put_level_at b s k u) s) k ≡ u
level_put b long k u h = ground (arith, get_or-set b.bids.levels k k u empty_level h)
level_put b short k u h = ground (arith, get_or-set b.asks.levels k k u empty_level h)

set_next_run :
    (b : OrderBook) (i v : ℕ) (m : OrderNode)
    → get_elem? b.arena i ≡ some (some m)
    → set_next b i v ≡ ok (put_slot b i (some (record m { next = v })))
unfolding set_next
set_next_run b i v m e = ground arith

set_prev_run :
    (b : OrderBook) (i v : ℕ) (m : OrderNode)
    → get_elem? b.arena i ≡ some (some m)
    → set_prev b i v ≡ ok (put_slot b i (some (record m { prev = v })))
unfolding set_prev
set_prev_run b i v m e = ground arith

abbrev pub headed : Level → OrderNode → Level
headed v n = record v { head = if n.prev == nil then n.next else v.head }

abbrev pub tailed : Level → OrderNode → Level
tailed v n = record v { tail = if n.next == nil then n.prev else v.tail }

link_left_run :
    (b : OrderBook) (s : Side) (n : OrderNode) (k : ℕ)
    → n.side ≡ s
    → k < length (ladder b s).levels
    → (n.prev ≢ nil → Live b.arena n.prev)
    → link_left b n k
      ≡ ok (
          put_level_at
            (record b { arena = past_next b.arena n })
            s
            k
            (headed (level (ladder b s) k) n))
unfolding link_left
link_left_run b long n k e h lp = elim (Bool-cases (n.prev == nil)) [
  | inl p ↦ rw (p, e) refl
  | inr p ↦
      let (m, live) = lp (ground arith) in
      rw (p, set_next_run b n.prev n.next m live, live, set_get b.bids.levels k empty_level) refl
]
link_left_run b short n k e h lp = elim (Bool-cases (n.prev == nil)) [
  | inl p ↦ rw (p, e) refl
  | inr p ↦
      let (m, live) = lp (ground arith) in
      rw (p, set_next_run b n.prev n.next m live, live, set_get b.asks.levels k empty_level) refl
]

link_right_run :
    (b : OrderBook) (s : Side) (n : OrderNode) (k : ℕ)
    → n.side ≡ s
    → k < length (ladder b s).levels
    → (n.next ≢ nil → Live b.arena n.next)
    → link_right b n k
      ≡ ok (
          put_level_at
            (record b { arena = past_prev b.arena n })
            s
            k
            (tailed (level (ladder b s) k) n))
unfolding link_right
link_right_run b long n k e h ln = elim (Bool-cases (n.next == nil)) [
  | inl p ↦ rw (p, e) refl
  | inr p ↦
      let (m, live) = ln (ground arith) in
      rw (p, set_prev_run b n.next n.prev m live, live, set_get b.bids.levels k empty_level) refl
]
link_right_run b short n k e h ln = elim (Bool-cases (n.next == nil)) [
  | inl p ↦ rw (p, e) refl
  | inr p ↦
      let (m, live) = ln (ground arith) in
      rw (p, set_prev_run b n.next n.prev m live, live, set_get b.asks.levels k empty_level) refl
]

-- The level of a node after it has gone.
abbrev pub without : Level → OrderNode → Level
without v n = record (tailed (headed v n) n) { qty = sub_u64 v.qty n.qty }

-- The ladder of a node after it has gone: the bit goes with the last order.
abbrev pub ladder_without : Ladder → ℕ → OrderNode → Ladder
ladder_without l k n =
    let l' = put_level l k (without (level l k) n) in
    if is_empty (without (level l k) n) then mark_empty l' k else l'

-- The book after `unlink`.
abbrev pub unlinked : OrderBook → ℕ → OrderNode → Side → ℕ → OrderBook
unlinked b i n s k =
    put_ladder (record b { arena = removed b.arena i n; free = i ∷ b.free }) s
      (ladder_without (ladder b s) k n)

settle_run :
    (b : OrderBook) (s : Side) (n : OrderNode) (k : ℕ)
    → n.side ≡ s
    → k < length (ladder b s).levels
    → settle_level
        (put_level_at
          (put_level_at b s k (headed (level (ladder b s) k) n))
          s
          k
          (tailed (headed (level (ladder b s) k) n) n))
        n
        k
      ≡ put_ladder b s (ladder_without (ladder b s) k n)
unfolding settle_level
settle_run b long n k e h =
    let v = level b.bids k in
    let w = tailed (headed v n) n in
    ground (
      arith,
      set-set b.bids.levels k (headed v n) w,
      set-set b.bids.levels k w (without v n),
      get_or-set b.bids.levels k k w empty_level h,
    )
settle_run b short n k e h =
    let v = level b.asks k in
    let w = tailed (headed v n) n in
    ground (
      arith,
      set-set b.asks.levels k (headed v n) w,
      set-set b.asks.levels k w (without v n),
      get_or-set b.asks.levels k k w empty_level h,
    )

pub unlink_run :
    (b : OrderBook) (i : ℕ) (n : OrderNode) (s : Side) (k : ℕ)
    → n.side ≡ s
    → get_elem? b.arena i ≡ some (some n)
    → index_of (ladder b s) n.tick ≡ some k
    → k < length (ladder b s).levels
    → (n.prev ≢ nil → Live (freed b.arena i) n.prev)
    → (n.next ≢ nil → Live (past_next (freed b.arena i) n) n.next)
    → unlink b i ≡ ok (n, unlinked b i n s k)
unfolding unlink removed
unlink_run b i n long k e live at h lp ln =
    let b₁ = record b { arena = freed b.arena i; free = i ∷ b.free } in
    let b₂ =
      put_level_at (record b₁ { arena = past_next b₁.arena n }) long k
        (headed (level b.bids k) n) in
    let l = link_left_run b₁ long n k e h lp in
    let r =
      link_right_run b₂ long n k e
        (omega (arith, length-set b.bids.levels k (headed (level b.bids k) n))) ln in
    let v = level b.bids k in
    let back = get_or-set b.bids.levels k k (headed v n) empty_level h in
    let done = settle_run (record b₁ { arena = removed b.arena i n }) long n k e h in
    let at₁ : index_of (ladder b₁ n.side) n.tick ≡ some k =
      subst (λ (s : Side). index_of (ladder b₁ s) n.tick ≡ some k) (sym e) at in
    ground (arith, at₁, l, r, back, done)
unlink_run b i n short k e live at h lp ln =
    let b₁ = record b { arena = freed b.arena i; free = i ∷ b.free } in
    let b₂ =
      put_level_at (record b₁ { arena = past_next b₁.arena n }) short k
        (headed (level b.asks k) n) in
    let l = link_left_run b₁ short n k e h lp in
    let r =
      link_right_run b₂ short n k e
        (omega (arith, length-set b.asks.levels k (headed (level b.asks k) n))) ln in
    let v = level b.asks k in
    let back = get_or-set b.asks.levels k k (headed v n) empty_level h in
    let done = settle_run (record b₁ { arena = removed b.arena i n }) short n k e h in
    let at₁ : index_of (ladder b₁ n.side) n.tick ≡ some k =
      subst (λ (s : Side). index_of (ladder b₁ s) n.tick ≡ some k) (sym e) at in
    ground (arith, at₁, l, r, back, done)
