-- ===== src/Clob/Modify/Move.antt =====
-- `move_order` of crates/clob/src/lib.rs: an order goes from its queue to the back of another.
use cerdic.Prelude.{
  ℕ, ◌<◌, ◌≡◌, ◌≢◌, refl, sym, subst, ap, ◌∙◌, true, none, some, arith, Dict, lookup, lookup-insert,
  lookup-erase, insert, erase, push,
}
use cerdic.Prelude.Int.{ℤ, unsigned_abs}
use cerdic.Common.{Side, long, short}
use cerdic.Clob.Types.{Order, i128_end, side_agrees_with_size, ok}
use cerdic.Clob.Levels.{Levels, push_level}
use cerdic.Clob.Levels.Laws.{Ordered}
use cerdic.Clob.State.{BookLocation, OrderBook, levels, put_levels, queue_at}
use cerdic.Clob.Orders.{remove_from_level, move_order}
use cerdic.Clob.Index.{Fits, at}
use cerdic.Clob.Invariant.{
  IsValid, Agrees-index, Agrees-cong, joined_at, joined-IsValid, joined-Elsewhere, queue_at-joined,
}
use cerdic.Clob.Writes.{swept_book}
use cerdic.Clob.Removal.{
  taken_at, levels_after, removes, removed_book, removed_book-IsValid, removed_absent,
}

move_order-found :
    (b : OrderBook) (s : Side) (p i q : ℕ) (n : ℤ) (ls : Levels) (removed : Order)
    → remove_from_level b (at s p) i ≡ some (removed, swept_book b s ls b.index)
    → removed.id ≡ i
    → move_order b (at s p) i q n
      ≡ ok (joined_at (swept_book b s ls b.index) (record removed { price = q; size = n }) s)
unfolding move_order
move_order-found b s p i q n ls removed e same =
    subst
      (λ (j : ℕ).
        move_order b (at s p) i q n
        ≡ ok (
            let b' = swept_book b s ls b.index in
            let b'' =
              put_levels b' s
                (push_level s q (record removed { price = q; size = n }) (levels b' s)) in
            record b'' { index = insert j (at s q) b''.index }))
      (sym same) (rw (move_order, e) refl)

-- Another index with the same lookups.
joined_queue :
    (b : OrderBook) (s : Side) (ls : Levels) (ix ix' : Dict BookLocation) (o : Order) (x : Side)
    (p : ℕ)
    → queue_at (joined_at (swept_book b s ls ix') o s) x p
      ≡ queue_at (joined_at (swept_book b s ls ix) o s) x p
joined_queue b long ls ix ix' o long p = refl
joined_queue b long ls ix ix' o short p = refl
joined_queue b short ls ix ix' o long p = refl
joined_queue b short ls ix ix' o short p = refl

joined_levels :
    (b : OrderBook) (s : Side) (ls : Levels) (ix ix' : Dict BookLocation) (o : Order) (x : Side)
    → levels (joined_at (swept_book b s ls ix) o s) x
      ≡ levels (joined_at (swept_book b s ls ix') o s) x
joined_levels b long ls ix ix' o long = refl
joined_levels b long ls ix ix' o short = refl
joined_levels b short ls ix ix' o long = refl
joined_levels b short ls ix ix' o short = refl

joined_index :
    (b : OrderBook) (s : Side) (ls : Levels) (ix : Dict BookLocation) (o : Order)
    → (joined_at (swept_book b s ls ix) o s).index ≡ insert o.id (at s o.price) ix
joined_index b long ls ix o = refl
joined_index b short ls ix o = refl

reindexed-IsValid :
    (b : OrderBook) (s : Side) (ls : Levels) (ix ix' : Dict BookLocation) (o : Order)
    → ((i : ℕ)
        → lookup i (insert o.id (at s o.price) ix') ≡ lookup i (insert o.id (at s o.price) ix))
    → IsValid (joined_at (swept_book b s ls ix) o s)
    → IsValid (joined_at (swept_book b s ls ix') o s)
reindexed-IsValid b s ls ix ix' o e v = record {
  agrees =
      Agrees-cong _ (queue_at (joined_at (swept_book b s ls ix) o s))
        (queue_at (joined_at (swept_book b s ls ix') o s)) (joined_queue b s ls ix ix' o)
        (Agrees-index (joined_at (swept_book b s ls ix) o s).index _
          (queue_at (joined_at (swept_book b s ls ix) o s))
          (λ i.
            ap (lookup i) (joined_index b s ls ix' o)
            ∙ e i
            ∙ sym (ap (lookup i) (joined_index b s ls ix o)))
          v.agrees);
  ordered = λ x. subst (Ordered x) (joined_levels b s ls ix ix' o x) (v.ordered x);
}

module _ (b : OrderBook) (v : IsValid b) (i : ℕ) (s : Side) (p : ℕ)
    (known : lookup i b.index ≡ some (at s p)) (q : ℕ) (n : ℤ)
    (right : side_agrees_with_size s n ≡ true) (small : unsigned_abs n < i128_end) where
  -- The order that moves, and the book without it.
  abbrev pub moved : Order
  moved = record (taken_at b v i s p known).removed { price = q; size = n }

  abbrev pub moved_book : OrderBook
  moved_book = joined_at (swept_book b s (levels_after b v i s p known) b.index) moved s

  pub moves : move_order b (at s p) i q n ≡ ok moved_book
  moves =
      move_order-found b s p i q n (levels_after b v i s p known) (taken_at b v i s p known).removed
        (removes b v i s p known b.index) (taken_at b v i s p known).has_id

  on_side : moved.side ≡ s
  on_side = (taken_at b v i s p known).keeps.on_side

  moved-Fits : Fits moved.side q moved
  moved-Fits = record {
    on_side = refl;
    at_price = refl;
    signed_right = subst (λ (x : Side). side_agrees_with_size x n ≡ true) (sym on_side) right;
    in_range = small;
  }

  moved_fresh : lookup moved.id (removed_book b v i s p known).index ≡ none
  moved_fresh =
      ap (λ (j : ℕ). lookup j (removed_book b v i s p known).index)
        (taken_at b v i s p known).has_id
      ∙ removed_absent b v i s p known

  pub moved_book-IsValid : IsValid moved_book
  moved_book-IsValid =
      reindexed-IsValid b s (levels_after b v i s p known) (erase i b.index) b.index moved
        (λ j.
          let same = (taken_at b v i s p known).has_id in
          ground (
            arith,
            lookup-insert j moved.id (at s q) b.index,
            lookup-insert j moved.id (at s q) (erase i b.index),
            lookup-erase j i b.index,
          ))
        (subst (λ (x : Side). IsValid (joined_at (removed_book b v i s p known) moved x)) on_side
          (joined-IsValid (removed_book b v i s p known) moved
            (removed_book-IsValid b v i s p known) moved-Fits moved_fresh))

  pub queue_at-moved_book :
      queue_at moved_book s q ≡ push (queue_at (removed_book b v i s p known) s q) moved
  queue_at-moved_book =
      joined_queue b s (levels_after b v i s p known) (erase i b.index) b.index moved s q
      ∙ subst
          (λ (x : Side).
            queue_at (joined_at (removed_book b v i s p known) moved x) x q
            ≡ push (queue_at (removed_book b v i s p known) x q) moved)
          on_side
          (queue_at-joined (removed_book b v i s p known) moved
            (removed_book-IsValid b v i s p known))

  pub moved_book-removed :
      (r : ℕ) → q ≢ r → queue_at moved_book s r ≡ queue_at (removed_book b v i s p known) s r
  moved_book-removed r ne =
      joined_queue b s (levels_after b v i s p known) (erase i b.index) b.index moved s r
      ∙ subst
          (λ (x : Side).
            queue_at (joined_at (removed_book b v i s p known) moved x) s r
            ≡ queue_at (removed_book b v i s p known) s r)
          on_side
          (joined-Elsewhere (removed_book b v i s p known) moved
            (removed_book-IsValid b v i s p known) s r (λ e h. ne h))
