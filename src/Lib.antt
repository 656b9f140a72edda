-- ===== src/Lib.antt =====
-- The order matching core of Cerdic, a private perpetual exchange.
--
-- The matcher in crates/cerdic-tee-matcher keeps one limit order book for each market. An order comes
-- to `OrderBook::submit`, which prunes expired orders at the touch for a post-only order, answers a
-- fill-or-kill order by a walk over the opposite side, matches against the best opposite level head
-- by head, and rests what is left. `OrderBook::cancel` takes an order out. Below the book stand, for
-- each side, a dense array of price levels (`Ladder`) with a two-tier bitmap of the occupied ones
-- (`Occupancy`), and for both sides an arena of order nodes that each level links into a list.
--
-- The files:
--   Prelude, Prelude/*   names of the libraries, Boolean tests, lists, slots and integers
--   Common               crates/common/src/types.rs: the side and the collateral tiers
--   Book/Bits            the operations on 64-bit words, with Bits/Laws
--   Book/Occupancy       `Occupancy` of crates/cerdic-tee-matcher/src/book.rs; Laws has its bits under
--                        each operation, Next and Prev its searches
--   Book/Types           the types of book.rs, and how a run ends: `ok`, `panicked`, `out_of_fuel`
--   Book/Ladder          `Ladder` of book.rs; Laws has the level of each tick, Worse the best one
--   Book/State           `OrderBook` of book.rs: its state and its arena
--   Book/Links           `push_back`, `unlink`, the best prices and `cancel`; its children have what
--                        each leaves behind
--   Book/Depth           `depth_at`, `depth` and `snapshot`; Laws has the first on a
--                        valid book, Cancel what a cancel leaves of it
--   Book/Segment, Book/Removal  the linked lists in the arena and the writes that change them
--   Book/Invariant       when a book is valid
--   Book/Available       `available_to_match`
--   Book/Matching        the matching loop of `submit`, with its rounds and its end
--   Book/Touch           the order at the best price of a side, and taking it out
--   Book/Submit          `prune_expired_head` and `submit`
--   Clob/Types, Levels, State  `OrderBook` of crates/clob/src/lib.rs: its orders, maps and state
--   Clob/Matching, Clob/Orders  its sweeps and its calls
--   Clob/Index, Clob/Invariant, Clob/Writes  when it is valid, and what each write keeps
--   Clob/Priority        price-time priority over one list of the resting orders
--   Clob/Process         `process_order`; Refine has what it promises, Uncrossing that no bid reaches an ask
--   Clob/Removal, Clob/Modify, Clob/Cleanup  `cancel_order`, `modify_order` and `cleanup_expired`
--   Risk/Types           the types of crates/risk/src/lib.rs
--   Risk/Isolated        its isolated margin and the two tests against the collateral
--   Risk/Portfolio       its portfolio margin: scenarios, concentration, liquidity, correlation
--   Backstop             crates/risk/src/backstop_maker.rs: its quotes and its last look
--   Backstop/Ledger      `PnlLedger` of the same file
--   Fees                 crates/cerdic-tee-matcher/src/fees.rs
--   MarketData           crates/cerdic-tee-matcher/src/market_data.rs: Laws has the window, Bars the candles
--   MarketHours          crates/cerdic-tee-matcher/src/market_hours.rs
--
-- Ids, ticks, quantities, owners and times are natural numbers. A level's quantity wraps at 2^64 as in
-- a release build, and so does the tick of an index; a fee's product wraps at 2^128. A use of an empty
-- slot, a panic in the source, is the outcome `panicked`. The free slots are a list with the last
-- pushed one first.
--
-- A book is valid (`Book.Invariant.IsValid`) for given queues of slots, one for each side and tick:
-- each level's list is its queue, its quantity is the sum of the queue's modulo 2^64, each live order
-- is in the queue of its side and tick, a bit is set where a level has orders, the free slots are
-- empty, and the cached best prices are the best ticks that have orders.
--
-- Fuel: the matching loop is given two rounds more than the arena has slots, and the pruning one more.
-- A round takes an order out of the arena or leaves nothing of the taker's quantity, so this is
-- enough. The walks of `available_to_match` take one round more than there are slots or levels.
--
-- The public book (crates/clob) is a second book, of signed orders with ids that the clients choose, in
-- sorted maps of queues. Its maps are lists of entries in the order of their keys, and its prices, which
-- it only compares, natural numbers. It is valid (`Clob.Invariant.IsValid`) when the maps are in order
-- without an empty queue, each order fits its queue, and the index is the map from the ids to the
-- queues. The risk monitor and the backstop maker (crates/risk) compute margins and quotes; sums of 256
-- bits that overflow, a panic in the source, are the outcome `panicked`, 128-bit ones saturate, wrap or
-- are refused as the source writes them. A market is a number there, and a hash map a function or a
-- list of entries.
--
-- Not modelled: the backstop state of crates/cerdic-tee-matcher is for later; its settlement encodes
-- calls for a chain library, and the service around the book (HTTP, storage, keys, attestation), the
-- circuits, the contracts and the applications are input and output, other languages or third-party
-- libraries.
pub mod Prelude
pub mod Common
pub mod Book
pub mod Clob
pub mod Risk
pub mod Backstop
pub mod Fees
pub mod MarketData
pub mod MarketHours
