-- ===== src/Clob/Invariant.antt =====
-- When a book of crates/clob/src/lib.rs is valid: its maps are in order, and its index agrees with its
-- queues. When it is not crossed: no bid is at or above an ask.
use cerdic.Prelude.{
  ℕ, ◌<◌, ◌≡◌, refl, sym, subst, ap, ◌∙◌, none, some, [], All, arith, push, lookup, lookup-nil,
  insert, In, Dict, ◌==◌, if◌then◌else◌,
}
use cerdic.Common.{Side, long, short}
use cerdic.Clob.Types.{Order}
use cerdic.Clob.Levels.{Levels, keys, ids, or_empty, push_level}
use cerdic.Clob.Levels.Laws.{Ordered, lookup-push_level, lookup-push_away, push_level-Ordered}
use cerdic.Clob.State.{BookLocation, OrderBook, new_book, levels, put_levels, queue_at}
use cerdic.Clob.Index.{Queues, Fits, Agrees, Agrees-edit, Agrees-add, Elsewhere, at}
use cerdic.Clob.Matching.Views.{view, view-Elsewhere, view_here}

pub record IsValid (b : OrderBook) : Type 0 where
  pub agrees : Agrees b.index (queue_at b)
  pub ordered : (s : Side) → Ordered s (levels b s)

abbrev pub Uncrossed : OrderBook → Type 0
Uncrossed b = (bid ask : ℕ) → In bid (keys b.bids) → In ask (keys b.asks) → bid < ask

pub Agrees-cong :
    (ix : Dict BookLocation) (q q' : Queues)
    → ((s : Side) (p : ℕ) → q' s p ≡ q s p)
    → Agrees ix q
    → Agrees ix q'
Agrees-cong ix q q' e g =
    Agrees-edit ix q q' g long 0 (λ s p ne. e s p)
      (subst (All (Fits long 0)) (sym (e long 0)) (g.fitting long 0)) (ap ids (e long 0))

-- A new book is valid, with no order.
no_orders : (s : Side) (p : ℕ) → queue_at new_book s p ≡ []
no_orders long p = ap or_empty (lookup-nil p)
no_orders short p = ap or_empty (lookup-nil p)

pub empty_book-IsValid : IsValid new_book
empty_book-IsValid = record {
  agrees =
      Agrees-cong [] (λ s p. []) (queue_at new_book) no_orders
        (record {
          fitting = λ s p. tt;
          distinct = λ s p. tt;
          indexed = λ s p i m. absurd m;
          queued = λ s p i e. ground (arith, lookup-nil {V = BookLocation} i);
        });
  ordered = both;
}
  where
    both : (s : Side) → Ordered s (levels new_book s)
    both long = tt
    both short = tt

-- The maps after a write to one of them.
pub levels-put_levels : (b : OrderBook) (s : Side) (ls : Levels) → levels (put_levels b s ls) s ≡ ls
levels-put_levels b long ls = refl
levels-put_levels b short ls = refl

pub put_levels-Ordered :
    (b : OrderBook) (s : Side) (ls : Levels)
    → ((x : Side) → Ordered x (levels b x))
    → Ordered s ls
    → (x : Side) → Ordered x (levels (put_levels b s ls) x)
put_levels-Ordered b long ls d h long = h
put_levels-Ordered b long ls d h short = d short
put_levels-Ordered b short ls d h long = d long
put_levels-Ordered b short ls d h short = h

pub index-put_levels :
    (b : OrderBook) (s : Side) (ls : Levels) → (put_levels b s ls).index ≡ b.index
index-put_levels b long ls = refl
index-put_levels b short ls = refl

pub queue_at-index :
    (b : OrderBook) (ix : Dict BookLocation) (s : Side) (p : ℕ)
    → queue_at (record b { index = ix }) s p ≡ queue_at b s p
queue_at-index b ix long p = refl
queue_at-index b ix short p = refl

pub view_same : (b : OrderBook) (s x : Side) (p : ℕ) → view b s (levels b s) x p ≡ queue_at b x p
view_same b long long p = refl
view_same b long short p = refl
view_same b short long p = refl
view_same b short short p = refl

-- An order that joins the back of a queue of the side `t`.
abbrev pub joined_at : OrderBook → Order → Side → OrderBook
joined_at b o t =
    let b' = put_levels b t (push_level t o.price o (levels b t)) in
    record b' { index = insert o.id (at t o.price) b'.index }

abbrev pub joined : OrderBook → Order → OrderBook
joined b o = joined_at b o o.side

pub queue_at-joined :
    (b : OrderBook) (o : Order)
    → IsValid b
    → queue_at (joined b o) o.side o.price ≡ push (queue_at b o.side o.price) o
queue_at-joined b o v =
    queue_at-index (put_levels b o.side (push_level o.side o.price o (levels b o.side)))
      (insert o.id (at o.side o.price)
        (put_levels b o.side (push_level o.side o.price o (levels b o.side))).index)
      o.side o.price
    ∙ view_here b o.side (push_level o.side o.price o (levels b o.side)) o.price
    ∙ ap or_empty
        (lookup-push_level o.side o.price o (levels b o.side) o.price (v.ordered o.side) ∙ same)
  where
    same :
        (if o.price == o.price
          then some (push (or_empty (lookup o.price (levels b o.side))) o)
          else lookup o.price (levels b o.side))
        ≡ some (push (or_empty (lookup o.price (levels b o.side))) o)
    same = ground arith

pub joined-Elsewhere :
    (b : OrderBook) (o : Order)
    → IsValid b
    → Elsewhere (queue_at b) (queue_at (joined b o)) o.side o.price
joined-Elsewhere b o v x p ne =
    queue_at-index (put_levels b o.side (push_level o.side o.price o (levels b o.side)))
      (insert o.id (at o.side o.price)
        (put_levels b o.side (push_level o.side o.price o (levels b o.side))).index)
      x p
    ∙ view-Elsewhere b o.side (levels b o.side) (push_level o.side o.price o (levels b o.side))
        o.price
        (λ p' ne'.
          ap or_empty
            (lookup-push_away o.side o.price o (levels b o.side) p' (v.ordered o.side) ne'))
        x p ne
    ∙ view_same b o.side x p

pub joined-IsValid :
    (b : OrderBook) (o : Order)
    → IsValid b
    → Fits o.side o.price o
    → lookup o.id b.index ≡ none
    → IsValid (joined b o)
joined-IsValid b o v fits fresh =
    let ls = push_level o.side o.price o (levels b o.side) in
    record {
      agrees =
          subst
            (λ (ix : Dict BookLocation).
              Agrees (insert o.id (at o.side o.price) ix) (queue_at (joined b o)))
            (sym (index-put_levels b o.side ls))
            (Agrees-add b.index (queue_at b) (queue_at (joined b o)) v.agrees o.side o.price
              (joined-Elsewhere b o v) o fresh fits (queue_at-joined b o v));
      ordered = λ x.
          subst (Ordered x)
            (levels-index (put_levels b o.side ls)
              (insert o.id (at o.side o.price) (put_levels b o.side ls).index) x)
            (put_levels-Ordered b o.side ls v.ordered
              (push_level-Ordered o.side o.price o (levels b o.side) (v.ordered o.side)) x);
    }
  where
    levels-index :
        (c : OrderBook) (ix : Dict BookLocation) (x : Side)
        → levels c x ≡ levels (record c { index = ix }) x
    levels-index c ix long = refl
    levels-index c ix short = refl

-- `Agrees` reads an index only through its lookups.
pub Agrees-index :
    (ix ix' : Dict BookLocation) (q : Queues)
    → ((i : ℕ) → lookup i ix' ≡ lookup i ix)
    → Agrees ix q
    → Agrees ix' q
Agrees-index ix ix' q e g = record {
  fitting = g.fitting;
  distinct = g.distinct;
  indexed = λ s p i m. e i ∙ g.indexed s p i m;
  queued = λ s p i h. g.queued s p i (sym (e i) ∙ h);
}
