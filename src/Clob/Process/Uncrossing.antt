-- ===== src/Clob/Process/Uncrossing.antt =====
-- The calls of crates/clob/src/lib.rs leave no bid at or above an ask: the sweeps, and an order that
-- rests after one.
use cerdic.Prelude.{
  ℕ, ◌≡◌, refl, sym, subst, inl, inr, true, some, List, [], ◌∷◌, arith, In, Dict, ltb→lt, lt→ltb,
}
use cerdic.Common.{Side, long, short, opposite_side}
use cerdic.Clob.Types.{Order}
use cerdic.Clob.Levels.{Levels, keys, before, first_key, push_level}
use cerdic.Clob.Levels.Laws.{After, Ordered, In-keys-push_level}
use cerdic.Clob.State.{BookLocation, OrderBook, levels}
use cerdic.Clob.Matching.{beyond}
use cerdic.Clob.Writes.{swept_book}
use cerdic.Clob.Invariant.{Uncrossed, joined, joined_at}

-- `Uncrossed`, told by the side of a taker.
abbrev pub Parted : Side → List ℕ → List ℕ → Type 0
Parted t own other = (p q : ℕ) → In p own → In q other → beyond t p q ≡ true

Uncrossed-Parted :
    (b : OrderBook) (t : Side)
    → Uncrossed b
    → Parted t (keys (levels b t)) (keys (levels b (opposite_side t)))
Uncrossed-Parted b long u p q m n = lt→ltb p q (u p q m n)
Uncrossed-Parted b short u p q m n = lt→ltb q p (u q p n m)

Parted-Uncrossed :
    (b : OrderBook) (t : Side)
    → Parted t (keys (levels b t)) (keys (levels b (opposite_side t)))
    → Uncrossed b
Parted-Uncrossed b long h bid ask m n = ltb→lt bid ask (h bid ask m n)
Parted-Uncrossed b short h bid ask m n = ltb→lt bid ask (h ask bid n m)

beyond_after :
    (t : Side) (limit p q : ℕ)
    → before (opposite_side t) p q ≡ true
    → beyond t limit p ≡ true
    → beyond t limit q ≡ true
beyond_after long limit p q h k = ground arith
beyond_after short limit p q h k = ground arith

After-In : (s : Side) (p q : ℕ) (ls : Levels) → After s p ls → In q (keys ls) → before s p q ≡ true
After-In s p q [] a m = absurd m
After-In s p q ((r, os) ∷ ls) a (inl e) = subst (λ (x : ℕ). before s p x ≡ true) (sym e) a.0
After-In s p q ((r, os) ∷ ls) a (inr m) = After-In s p q ls a.1 m

-- Where the best level is beyond the limit, all are.
pub all_beyond :
    (t : Side) (limit : ℕ) (ls : Levels)
    → Ordered (opposite_side t) ls
    → ((p : ℕ) → first_key ls ≡ some p → beyond t limit p ≡ true)
    → (q : ℕ) → In q (keys ls)
    → beyond t limit q ≡ true
all_beyond t limit [] d h q m = absurd m
all_beyond t limit ((p, os) ∷ ls) d h q (inl e) =
    subst (λ (x : ℕ). beyond t limit x ≡ true) (sym e) (h p refl)
all_beyond t limit ((p, os) ∷ ls) d h q (inr m) =
    beyond_after t limit p q (After-In (opposite_side t) p q ls d.1 m) (h p refl)

swept_keys :
    (b : OrderBook) (t : Side) (ls : Levels) (ix : Dict BookLocation)
    → Parted t (keys (levels b t)) (keys ls)
    → Uncrossed (swept_book b (opposite_side t) ls ix)
swept_keys b long ls ix h = Parted-Uncrossed (swept_book b short ls ix) long h
swept_keys b short ls ix h = Parted-Uncrossed (swept_book b long ls ix) short h

-- A sweep leaves only levels that were there.
pub swept_book-Uncrossed :
    (b : OrderBook) (t : Side) (ls : Levels) (ix : Dict BookLocation)
    → Uncrossed b
    → ((p : ℕ) → In p (keys ls) → In p (keys (levels b (opposite_side t))))
    → Uncrossed (swept_book b (opposite_side t) ls ix)
swept_book-Uncrossed b t ls ix u sub =
    swept_keys b t ls ix (λ p q m n. Uncrossed-Parted b t u p q m (sub q n))

joined_keys :
    (b : OrderBook) (o : Order) (t : Side)
    → Parted t (keys (push_level t o.price o (levels b t))) (keys (levels b (opposite_side t)))
    → Uncrossed (joined_at b o t)
joined_keys b o long h = Parted-Uncrossed (joined_at b o long) long h
joined_keys b o short h = Parted-Uncrossed (joined_at b o short) short h

-- An order may rest where the other side is beyond its price.
pub joined-Uncrossed :
    (b : OrderBook) (o : Order)
    → Uncrossed b
    → ((q : ℕ) → In q (keys (levels b (opposite_side o.side))) → beyond o.side o.price q ≡ true)
    → Uncrossed (joined b o)
joined-Uncrossed b o u h = joined_keys b o o.side (λ p q m n.
    elim (In-keys-push_level o.side o.price o (levels b o.side) p m) [
      | inl e ↦ subst (λ (x : ℕ). beyond o.side x q ≡ true) (sym e) (h q n)
      | inr m' ↦ Uncrossed-Parted b o.side u p q m' n
    ])
