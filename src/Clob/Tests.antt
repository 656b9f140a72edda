-- ===== src/Clob/Tests.antt =====
-- Runs of the public book of crates/clob/src/lib.rs.
use cerdic.Prelude.{
  ◌||◌, true, Option, ◌++◌, ℕ, ◌+◌, ◌<◌, ◌≡◌, ◌≢◌, refl, none, some, List, [], arith, insert,
  lookup, push,
}
use cerdic.Prelude.Int.{pos, negsuc}
use cerdic.Common.{Side, long, short}
use cerdic.Clob.Types.{
  Order, quantity, validate, i128_end, MatchResult, ok, Answer, done, failed, order_not_found,
  ClobError,
}
use cerdic.Clob.Levels.{push_level}
use cerdic.Clob.State.{OrderBook, new_book, queue_at, order, order_ids_at, is_some, contains}
use cerdic.Clob.Orders.{process_order, cancel_order, modify_order, expired_ids, cleanup_expired}
use cerdic.Clob.Index.{Elsewhere, at}
use cerdic.Clob.Priority.{hits_of, hits_in, total}
use cerdic.Clob.Invariant.{IsValid, Uncrossed, empty_book-IsValid, joined, joined-IsValid}
use cerdic.Clob.Process.{reachable, left_of, remainder}
use cerdic.Clob.Process.Refine.{process_order-hits_in, process_order-push, process_order-Uncrossed}
use cerdic.Clob.Removal.{without}
use cerdic.Clob.Removal.Cancel.{
  cancel_order-without, cancel_order-Uncrossed, cancel_order-process_order,
}
use cerdic.Clob.Modify.{resized}
use cerdic.Clob.Modify.Answers.{Answers}
use cerdic.Clob.Modify.Effects.{modify_order-resized, modify_order-push, modify_order-IsValid}
use cerdic.Clob.Cleanup.Ids.{unexpired}
use cerdic.Clob.Cleanup.{cleanup_expired-unexpired}

abbrev ask : Order
ask = record {
  id = 1;
  side = short;
  price = 100;
  size = negsuc 3;
  expiry_block = 9;
  signature = [];
}

-- A bid for more than the ask.
abbrev bid : Order
bid = record { id = 2; side = long; price = 105; size = pos 10; expiry_block = 9; signature = [] }

abbrev book : OrderBook
book = joined new_book ask

book-IsValid : IsValid book
unfolding lookup
book-IsValid =
    joined-IsValid new_book ask empty_book-IsValid
      (record { on_side = refl; at_price = refl; signed_right = refl; in_range = omega arith }) refl

book-Uncrossed : Uncrossed book
unfolding push_level
book-Uncrossed p q m n = absurd m

ask_indexed : lookup 1 book.index ≡ some (at short 100)
unfolding lookup insert
ask_indexed = refl

bid_fresh : lookup 2 book.index ≡ none
unfolding lookup insert
bid_fresh = refl

bid_small : quantity bid < i128_end
bid_small = omega arith

bid_left : left_of book bid ≡ 6
unfolding push_level
bid_left = refl

process_order-hits_in_example :
    (results : List MatchResult) × (b' : OrderBook) × (process_order book bid ≡ ok (results, b'))
    × (hits_of results ≡ hits_in (reachable book bid) (quantity bid))
    × (total (hits_of results) + left_of book bid ≡ quantity bid)
    × IsValid b'
process_order-hits_in_example = process_order-hits_in book bid book-IsValid refl bid_small bid_fresh

process_order-push_example :
    (results : List MatchResult) × (b' : OrderBook) × (process_order book bid ≡ ok (results, b'))
    × (left_of book bid ≡ 0 → lookup 2 b'.index ≡ none)
    × (left_of book bid ≢ 0
        → queue_at b' long 105 ≡ push (queue_at book long 105) (remainder book bid))
process_order-push_example = process_order-push book bid book-IsValid refl bid_small bid_fresh

process_order-Uncrossed_example :
    (results : List MatchResult) × (b' : OrderBook) × (process_order book bid ≡ ok (results, b'))
    × IsValid b'
    × Uncrossed b'
    × ((is_some (validate bid) || contains book bid.id) ≡ true → (results ≡ []) × (b' ≡ book))
process_order-Uncrossed_example =
    process_order-Uncrossed book bid book-IsValid book-Uncrossed bid_small

cancel_order-without_example :
    (removed : Order) × (b' : OrderBook) × (cancel_order book 1 ≡ ok (done removed, b'))
    × (order book 1 ≡ some removed)
    × IsValid b'
    × (lookup 1 b'.index ≡ none)
    × (queue_at b' short 100 ≡ without 1 (queue_at book short 100))
    × Elsewhere (queue_at book) (queue_at b') short 100
cancel_order-without_example = cancel_order-without book 1 short 100 book-IsValid ask_indexed

cancel_order-Uncrossed_example :
    (answer : Answer Order) × (b' : OrderBook) × (cancel_order book 1 ≡ ok (answer, b'))
    × IsValid b'
    × (Uncrossed book → Uncrossed b')
    × (lookup 1 b'.index ≡ none)
    × (lookup 1 book.index ≡ none → (answer ≡ failed (order_not_found 1)) × (b' ≡ book))
cancel_order-Uncrossed_example = cancel_order-Uncrossed book 1 book-IsValid

cancel_order-process_order_example :
    (results : List MatchResult) × (b₁ : OrderBook) × (b₂ : OrderBook) × (process_order book bid
      ≡ ok (results, b₁))
    × (cancel_order b₁ 2 ≡ ok (done (remainder book bid), b₂))
    × (queue_at b₂ long 105 ≡ queue_at book long 105)
cancel_order-process_order_example =
    cancel_order-process_order book bid book-IsValid refl bid_small bid_fresh
      (λ e. omega (arith, bid_left, e))

modify_order-resized_example :
    (b' : OrderBook) × (modify_order book 1 100 (negsuc 8) ≡ ok (none, b'))
    × IsValid b'
    × (queue_at b' short 100 ≡ resized 1 (negsuc 8) (queue_at book short 100))
    × (order_ids_at b' short 100 ≡ order_ids_at book short 100)
    × Elsewhere (queue_at book) (queue_at b') short 100
    × (b'.index ≡ book.index)
modify_order-resized_example =
    modify_order-resized book 1 short 100 (negsuc 8) book-IsValid ask_indexed refl (omega arith)
      (λ e. omega (arith, e))

modify_order-push_example :
    (found : Order) × (b' : OrderBook) × (modify_order book 1 120 (negsuc 8) ≡ ok (none, b'))
    × IsValid b'
    × (order book 1 ≡ some found)
    × (queue_at b' short 100 ≡ without 1 (queue_at book short 100))
    × (queue_at b' short 120
        ≡ push (queue_at book short 120) (record found { price = 120; size = negsuc 8 }))
modify_order-push_example =
    modify_order-push book 1 short 100 120 (negsuc 8) book-IsValid ask_indexed refl (omega arith)
      (λ e. omega (arith, e)) (λ e. omega (arith, e))

modify_order-IsValid_example :
    (error : Option ClobError) × (b' : OrderBook) × (modify_order book 1 120 (negsuc 8)
      ≡ ok (error, b'))
    × IsValid b'
    × (error ≢ none → b' ≡ book)
    × Answers book 1 120 (negsuc 8) error
modify_order-IsValid_example = modify_order-IsValid book 1 120 (negsuc 8) book-IsValid (omega arith)

cleanup_expired-unexpired_example :
    (b' : OrderBook) × (cleanup_expired book 9
      ≡ ok (expired_ids 9 book.asks ++ expired_ids 9 book.bids, b'))
    × IsValid b'
    × (Uncrossed book → Uncrossed b')
    × ((s : Side) (p : ℕ) → queue_at b' s p ≡ unexpired 9 (queue_at book s p))
cleanup_expired-unexpired_example = cleanup_expired-unexpired book 9 book-IsValid
