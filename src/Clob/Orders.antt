-- ===== src/Clob/Orders.antt =====
-- The calls of crates/clob/src/lib.rs that change the book.
use cerdic.Prelude.{
  ℕ, not, ◌||◌, Option, none, some, List, [], ◌∷◌, ◌++◌, insert, erase, lookup, ltb, leb, ◌==◌,
  if◌then◌else◌,
}
use cerdic.Prelude.Int.{ℤ, unsigned_abs}
use cerdic.Clob.Types.{
  Order, quantity, validate, side_agrees_with_size, set_quantity, MatchResult, ClobError,
  order_not_found, zero_size, zero_price, side_size_sign_mismatch, Answer, done, failed, Outcome,
  ok, panicked, ◌>>=◌,
}
use cerdic.Clob.Levels.{Queue, Levels, push_level}
use cerdic.Clob.State.{BookLocation, OrderBook, levels, put_levels, contains, is_some}
use cerdic.Clob.Matching.{match_against}

abbrev pub location_of : Order → BookLocation
location_of o = record { side = o.side; price = o.price }

unfoldable pub insert_resting : OrderBook → Order → ℕ → Outcome OrderBook
insert_resting b o remaining = do
  o' ← set_quantity o remaining
  let b' = put_levels b o'.side (push_level o'.side o'.price o' (levels b o'.side))
  ok (record b' { index = insert o.id (location_of o') b'.index })

unfoldable pub process_order : OrderBook → Order → Outcome (List MatchResult × OrderBook)
process_order b o =
    let go = do
      (b', remaining, results) ← match_against b o.side o.id o.price (quantity o)
      if ltb 0 remaining
          then insert_resting b' o remaining >>= (λ b''. ok (results, b''))
          else ok (results, b')
    in if is_some (validate o) || contains b o.id then ok ([], b) else go

-- `position` and `VecDeque::remove`: the first order with the id, and the others.
unfoldable pub take_order : ℕ → Queue → Option (Order × Queue)
take_order order_id [] = none
take_order order_id (o ∷ os) =
    let rest : Option (Order × Queue) = elim (take_order order_id os) [
      | none ↦ none
      | some (found, others) ↦ some (found, o ∷ others)
    ] in
    if o.id == order_id then some (o, os) else rest

-- What `remove_from_level` leaves at a level: the level goes when it is empty.
abbrev pub put_queue : ℕ → Queue → Levels → Levels
put_queue price [] ls = erase price ls
put_queue price (o ∷ os) ls = insert price (o ∷ os) ls

unfoldable pub remove_from_level : OrderBook → BookLocation → ℕ → Option (Order × OrderBook)
remove_from_level b location order_id = elim (lookup location.price (levels b location.side)) [
  | none ↦ none
  | some level ↦ elim (take_order order_id level) [
    | none ↦ none
    | some (removed, others) ↦ some (
      removed,
      put_levels b location.side (put_queue location.price others (levels b location.side)),
    )
  ]
]

-- `expect`
abbrev pub expect : {A : Type 0} → Option A → Outcome A
expect none = panicked
expect (some a) = ok a

unfoldable pub cancel_order : OrderBook → ℕ → Outcome (Answer Order × OrderBook)
cancel_order b order_id = elim (lookup order_id b.index) [
  | none ↦ ok (failed (order_not_found order_id), b)
  | some location ↦ do
    (removed, b') ←
        expect (remove_from_level (record b { index = erase order_id b.index }) location order_id)
    ok (done removed, b')
]

-- The write `order.size = new_size` through `iter_mut().find(…)`.
unfoldable pub resize_order : ℕ → ℤ → Queue → Option Queue
resize_order order_id new_size [] = none
resize_order order_id new_size (o ∷ os) =
    let rest : Option Queue = elim (resize_order order_id new_size os) [
      | none ↦ none
      | some os' ↦ some (o ∷ os')
    ] in
    if o.id == order_id then some (record o { size = new_size } ∷ os) else rest

-- A size change at the same price: the order keeps its place in the queue.
unfoldable pub edit_in_place : OrderBook → BookLocation → ℕ → ℤ → Outcome OrderBook
edit_in_place b location order_id new_size = do
  level ← expect (lookup location.price (levels b location.side))
  level' ← expect (resize_order order_id new_size level)
  ok (put_levels b location.side (insert location.price level' (levels b location.side)))

-- A price change: the order goes to the back of the level at the new price.
unfoldable pub move_order : OrderBook → BookLocation → ℕ → ℕ → ℤ → Outcome OrderBook
move_order b location order_id new_price new_size = do
  (removed, b') ← expect (remove_from_level b location order_id)
  let moved = record removed { price = new_price; size = new_size }
  let b'' =
      put_levels b' location.side
        (push_level location.side new_price moved (levels b' location.side))
  ok (record b'' { index = insert order_id (record location { price = new_price }) b''.index })

unfoldable pub modify_order : OrderBook → ℕ → ℕ → ℤ → Outcome (Option ClobError × OrderBook)
modify_order b order_id new_price new_size =
    let change : Outcome (Option ClobError × OrderBook) = elim (lookup order_id b.index) [
      | none ↦ ok (some (order_not_found order_id), b)
      | some location ↦
          if not (side_agrees_with_size location.side new_size)
          then ok (some (side_size_sign_mismatch order_id location.side new_size), b)
          else (if location.price == new_price
              then edit_in_place b location order_id new_size
              else move_order b location order_id new_price new_size)
            >>= (λ b'. ok (none, b'))
    ] in
    if unsigned_abs new_size == 0
    then ok (some zero_size, b)
    else if new_price == 0
    then ok (some zero_price, b)
    else change

-- The ids of the expired orders of a side, level by level.
unfoldable pub expired_in : ℕ → Queue → List ℕ
expired_in current_block [] = []
expired_in current_block (o ∷ os) =
    let rest = expired_in current_block os in
    if leb o.expiry_block current_block then o.id ∷ rest else rest

unfoldable pub expired_ids : ℕ → Levels → List ℕ
expired_ids current_block [] = []
expired_ids current_block ((p, os) ∷ ls) =
    expired_in current_block os ++ expired_ids current_block ls

-- The `for` that cancels each of them and drops the answers.
unfoldable pub cancel_all : List ℕ → OrderBook → Outcome OrderBook
cancel_all [] b = ok b
cancel_all (i ∷ is) b = cancel_order b i >>= (λ (answer, b'). cancel_all is b')

unfoldable pub cleanup_expired : OrderBook → ℕ → Outcome (List ℕ × OrderBook)
cleanup_expired b current_block =
    let expired = expired_ids current_block b.asks ++ expired_ids current_block b.bids in
    cancel_all expired b >>= (λ b'. ok (expired, b'))
