-- ===== src/Clob/Process/Refine.antt =====
-- What `process_order` of crates/clob/src/lib.rs promises its callers.
use cerdic.Prelude.{
  ℕ, ◌+◌, ◌<◌, ◌≡◌, ◌≢◌, refl, ap, ◌∙◌, inl, inr, true, false, Bool-cases, none, List, [], arith,
  push, lookup, ◌||◌, Option-cases,
}
use cerdic.Clob.Types.{Order, quantity, validate, i128_end, MatchResult, ok}
use cerdic.Clob.State.{OrderBook, queue_at, contains, is_some}
use cerdic.Clob.Orders.{process_order}
use cerdic.Clob.Priority.{hits_of, hits_in, total, total-hits_in}
use cerdic.Clob.Invariant.{IsValid, Uncrossed}
use cerdic.Clob.Process.{reachable, left_of, remainder, process_order-Processed}

-- On a valid book, an order that `validate` accepts, of a size in range and with an id that is not live,
-- is taken without a panic: the fills are those of price-time priority over the orders that its limit
-- reaches, best price first and oldest first within a price; the fills and what is left add up to its
-- size; and the book is valid again.
pub process_order-hits_in :
    (b : OrderBook) (o : Order)
    → IsValid b
    → validate o ≡ none
    → quantity o < i128_end
    → lookup o.id b.index ≡ none
    → (results : List MatchResult) × (b' : OrderBook) × (process_order b o ≡ ok (results, b'))
      × (hits_of results ≡ hits_in (reachable b o) (quantity o))
      × (total (hits_of results) + left_of b o ≡ quantity o)
      × IsValid b'
process_order-hits_in b o v checked small fresh =
    let r = process_order-Processed b o v checked small fresh in
    let kept : total (hits_of r.results) + left_of b o ≡ quantity o =
      ap (λ h. total h + left_of b o) r.hits ∙ total-hits_in (reachable b o) (quantity o) small in
    (r.results, r.book_after, r.runs, r.hits, kept, r.valid)

-- Under the same conditions, an order that is used up does not rest, and what is left of any other
-- stands at the back of the queue of its side and price, behind the orders that stood there.
pub process_order-push :
    (b : OrderBook) (o : Order)
    → IsValid b
    → validate o ≡ none
    → quantity o < i128_end
    → lookup o.id b.index ≡ none
    → (results : List MatchResult) × (b' : OrderBook) × (process_order b o ≡ ok (results, b'))
      × (left_of b o ≡ 0 → lookup o.id b'.index ≡ none)
      × (left_of b o ≢ 0
          → queue_at b' o.side o.price ≡ push (queue_at b o.side o.price) (remainder b o))
process_order-push b o v checked small fresh =
    let r = process_order-Processed b o v checked small fresh in
    (r.results, r.book_after, r.runs, r.absent, r.rests)

refused :
    (b : OrderBook) (o : Order)
    → (is_some (validate o) || contains b o.id) ≡ true
    → process_order b o ≡ ok ([], b)
unfolding process_order
refused b o h = rw h refl

lookup-contains : (b : OrderBook) (i : ℕ) → contains b i ≡ false → lookup i b.index ≡ none
lookup-contains b i h = ground arith

-- On a valid book that is not crossed, every order of a size in range, taken or refused, leaves without a
-- panic a valid book that is not crossed; one that `validate` refuses, or whose id is live, fills nothing
-- and changes nothing.
pub process_order-Uncrossed :
    (b : OrderBook) (o : Order)
    → IsValid b
    → Uncrossed b
    → quantity o < i128_end
    → (results : List MatchResult) × (b' : OrderBook) × (process_order b o ≡ ok (results, b'))
      × IsValid b'
      × Uncrossed b'
      × ((is_some (validate o) || contains b o.id) ≡ true → (results ≡ []) × (b' ≡ b))
process_order-Uncrossed b o v u small = elim (Option-cases (validate o)) [
  | inr (e, h) ↦ ([], b, refused b o (rw h refl), v, u, λ x. (refl, refl))
  | inl checked ↦ elim (Bool-cases (contains b o.id)) [
    | inl live ↦ ([], b, refused b o (rw (checked, live) refl), v, u, λ x. (refl, refl))
    | inr h ↦
        let r = process_order-Processed b o v checked small (lookup-contains b o.id h) in
        (
          r.results,
          r.book_after,
          r.runs,
          r.valid,
          r.uncrossed u,
          λ x. let k : false ≡ true = rw (checked, h) at x in (cc, cc),
        )
  ]
]
