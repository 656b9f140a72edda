-- ===== src/Clob/Process.antt =====
-- `process_order` of crates/clob/src/lib.rs against price-time priority: its fills, what rests, and the
-- book that it leaves.
pub mod Uncrossing
pub mod Refine
use cerdic.Prelude.{
  ℕ, In, ◌<◌, ◌≤◌, ◌≡◌, ◌≢◌, refl, sym, subst, ap, ◌∙◌, inl, inr, true, false, Bool-cases, none,
  List, [], ◌∷◌, arith, push, lookup, ◌==◌, ◌||◌, ltb, lt→ltb, if◌then◌else◌, eq_of_test,
  ne_of_test, ltb→lt, Dict, ◌-◌, min,
}
use cerdic.Common.{Side, long, short, opposite_side}
use cerdic.Clob.Types.{
  Order, quantity, validate, side_agrees_with_size, signed, set_quantity, i128_end, MatchResult,
  Outcome, ok, ◌>>=◌,
}
use cerdic.Clob.Levels.{Queue, Levels, keys, push_level}
use cerdic.Clob.Levels.Laws.{Ordered}
use cerdic.Clob.State.{BookLocation, OrderBook, levels, put_levels, queue_at, contains, is_some}
use cerdic.Clob.Matching.{Sweep, beyond, sweep, match_against}
use cerdic.Clob.Matching.Fill.{signed-Fits}
use cerdic.Clob.Matching.Sweeps.{Swept, sweep-Swept}
use cerdic.Clob.Matching.Views.{view}
use cerdic.Clob.Orders.{insert_resting, process_order}
use cerdic.Clob.Index.{Agrees, Fits}
use cerdic.Clob.Priority.{Resting, hits_of, hits_in, left_in, in_reach}
use cerdic.Clob.Invariant.{
  IsValid, Uncrossed, Agrees-cong, view_same, levels-put_levels, put_levels-Ordered, joined,
  joined-IsValid, queue_at-joined,
}
use cerdic.Clob.Writes.{swept_book, swept_index, swept_own, swept_book-IsValid}
use cerdic.Clob.Process.Uncrossing.{all_beyond, swept_book-Uncrossed, joined-Uncrossed}

-- The resting orders that an order reaches, and what they leave of it.
abbrev pub reachable : OrderBook → Order → List Resting
reachable b o = in_reach o.side o.price (levels b (opposite_side o.side))

abbrev pub left_of : OrderBook → Order → ℕ
left_of b o = left_in (reachable b o) (quantity o)

abbrev pub remainder : OrderBook → Order → Order
remainder b o = record o { size = signed o.side (left_of b o) }

pub left_in-le : (rs : List Resting) (n : ℕ) → left_in rs n ≤ n
left_in-le [] n = omega arith
left_in-le ((p, o) ∷ rs) n = omega (arith, left_in-le rs (n - min (quantity o) n))

pub record Processed (b : OrderBook) (o : Order) (run : Outcome (List MatchResult × OrderBook))
    : Type 0 where
  pub results : List MatchResult
  pub book_after : OrderBook
  pub runs : run ≡ ok (results, book_after)
  pub valid : IsValid book_after
  pub hits : hits_of results ≡ hits_in (reachable b o) (quantity o)
  pub absent : left_of b o ≡ 0 → lookup o.id book_after.index ≡ none
  pub rests :
      left_of b o ≢ 0
      → queue_at book_after o.side o.price ≡ push (queue_at b o.side o.price) (remainder b o)
  pub uncrossed : Uncrossed b → Uncrossed book_after

-- The facts that `validate` gives of an order.
valid_sign : (o : Order) → validate o ≡ none → side_agrees_with_size o.side o.size ≡ true
valid_sign o h = ground arith

module _ (b : OrderBook) (o : Order) (v : IsValid b) (checked : validate o ≡ none)
    (small : quantity o < i128_end) (fresh : lookup o.id b.index ≡ none) where
  abbrev swept :
      Swept b o.side
        (opposite_side o.side)
        o.price
        (levels b (opposite_side o.side))
        (record { remaining = quantity o; index = b.index; results = [] })
        (sweep o.side o.id o.price
          (levels b (opposite_side o.side))
          (record { remaining = quantity o; index = b.index; results = [] }))
  swept =
      sweep-Swept b o.side o.id (opposite_side o.side) o.price (levels b (opposite_side o.side))
        (record { remaining = quantity o; index = b.index; results = [] })
        (v.ordered (opposite_side o.side))
        (Agrees-cong b.index (queue_at b)
          (view b (opposite_side o.side) (levels b (opposite_side o.side)))
          (view_same b (opposite_side o.side)) v.agrees)

  abbrev met : OrderBook
  met = swept_book b (opposite_side o.side) swept.levels_left swept.carried.index

  matched :
      match_against b o.side o.id o.price (quantity o)
      ≡ ok (met, swept.carried.remaining, swept.carried.results)
  unfolding match_against
  matched =
      ap
        (λ (y : Outcome (Levels × Sweep)). y >>= λ (ls, m).
          ok (swept_book b (opposite_side o.side) ls m.index, m.remaining, m.results))
        swept.runs

  met-IsValid : IsValid met
  met-IsValid =
      swept_book-IsValid b (opposite_side o.side) swept.levels_left swept.carried.index v
        swept.ordered swept.agrees

  met_absent : lookup o.id met.index ≡ none
  met_absent =
      ap (lookup o.id) (swept_index b (opposite_side o.side) swept.levels_left swept.carried.index)
      ∙ swept.forgets o.id fresh

  -- The order is taken, so the code matches it.
  abbrev after_match : OrderBook × ℕ × List MatchResult → Outcome (List MatchResult × OrderBook)
  after_match (b', remaining, results) =
      if ltb 0 remaining
      then insert_resting b' o remaining >>= (λ b''. ok (results, b''))
      else ok (results, b')

  taken : process_order b o ≡ (match_against b o.side o.id o.price (quantity o) >>= after_match)
  unfolding process_order
  taken = rw (checked, fresh) refl

  -- Nothing is left of the order.
  spent : left_of b o ≡ 0 → Processed b o (process_order b o)
  spent z =
      let none_left : swept.carried.remaining ≡ 0 = swept.left ∙ z in
      record {
        results = swept.carried.results;
        book_after = met;
        runs = taken ∙ ap (λ y. y >>= after_match) matched ∙ rw none_left refl;
        valid = met-IsValid;
        hits = swept.hits;
        absent = λ e. met_absent;
        rests = λ ne. absurd (ne z);
        uncrossed = λ u.
            swept_book-Uncrossed b o.side swept.levels_left swept.carried.index u swept.keys_in;
      }

  taker_left : Fits o.side o.price o
  taker_left = record {
    on_side = refl;
    at_price = refl;
    signed_right = valid_sign o checked;
    in_range = small;
  }

  left_small : left_of b o < i128_end
  left_small = omega (arith, left_in-le (reachable b o) (quantity o), small)

  inserted : insert_resting met o (left_of b o) ≡ ok (joined met (remainder b o))
  unfolding insert_resting set_quantity
  inserted = rw (lt→ltb (left_of b o) i128_end left_small) refl

  -- The rest of the order joins its queue.
  rest_beyond :
      left_of b o ≢ 0
      → (q : ℕ) → In q (keys (levels met (opposite_side o.side)))
      → beyond o.side o.price q ≡ true
  rest_beyond ne q m = elim swept.settled [
    | inl z ↦ absurd (ne (sym swept.left ∙ z))
    | inr far ↦ all_beyond o.side o.price swept.levels_left swept.ordered far q (
        subst (λ (ls : Levels). In q (keys ls))
          (levels-put_levels (record b { index = swept.carried.index }) (opposite_side o.side)
            swept.levels_left)
          m)
  ]

  resting : left_of b o ≢ 0 → Processed b o (process_order b o)
  resting ne =
      let o' = remainder b o in
      let some_left : ltb 0 (left_of b o) ≡ true = ground arith in
      record {
        results = swept.carried.results;
        book_after = joined met o';
        runs =
            taken
            ∙ ap (λ y. y >>= after_match) matched
            ∙ ap (λ (n : ℕ). after_match (met, n, swept.carried.results)) swept.left
            ∙ rw (some_left, inserted) refl;
        valid =
            joined-IsValid met o' met-IsValid
              (signed-Fits o.side o.price o (left_of b o) taker_left ne left_small) met_absent;
        hits = swept.hits;
        absent = λ e. absurd (ne e);
        rests = λ h.
            queue_at-joined met o' met-IsValid
            ∙ ap (λ os. push os o')
                (swept_own b o.side swept.levels_left swept.carried.index o.price);
        uncrossed = λ u.
            joined-Uncrossed met o'
              (swept_book-Uncrossed b o.side swept.levels_left swept.carried.index u swept.keys_in)
              (rest_beyond ne);
      }

  -- A new order in range is taken without a panic.
  pub process_order-Processed : Processed b o (process_order b o)
  process_order-Processed = elim (Bool-cases (left_of b o == 0)) [
    | inl z ↦ spent (eq_of_test (left_of b o) 0 z)
    | inr z ↦ resting (ne_of_test (left_of b o) 0 z)
  ]
