-- ===== src/Clob/Matching.antt =====
-- The sweeps of crates/clob/src/lib.rs: `match_against_asks` and `match_against_bids`, one text for the
-- two, which differ in the map, the test of the limit and the sides of a trade.
pub mod Fill
pub mod Views
pub mod Sweeps
use cerdic.Prelude.{
  ℕ, zero, suc, ◌-◌, Bool, Option, none, some, List, [], ◌∷◌, min, push, Dict, erase, ltb, ◌==◌,
  if◌then◌else◌,
}
use cerdic.Common.{Side, long, short, opposite_side}
use cerdic.Clob.Types.{
  Order, quantity, set_quantity, as_i128, MatchedTrade, MatchResult, Outcome, ok, ◌>>=◌,
}
use cerdic.Clob.Levels.{Queue, Levels}
use cerdic.Clob.State.{BookLocation, OrderBook, levels, put_levels}

-- What the loops carry beside the map: `*remaining`, the index and the results.
pub record Sweep : Type 0 where
  pub remaining : ℕ
  pub index : Dict BookLocation
  pub results : List MatchResult

-- `level_price > limit` for a long taker, `level_price < limit` for a short one.
abbrev pub beyond : Side → ℕ → ℕ → Bool
beyond long limit level_price = ltb limit level_price
beyond short limit level_price = ltb level_price limit

abbrev pub trade_of : Side → ℕ → ℕ → ℕ → ℕ → MatchedTrade
trade_of long taker_id maker_id level_price fill = record {
  long_order_id = taker_id;
  short_order_id = maker_id;
  price = level_price;
  size = as_i128 fill;
  premium = 0;
}
trade_of short taker_id maker_id level_price fill = record {
  long_order_id = maker_id;
  short_order_id = taker_id;
  price = level_price;
  size = as_i128 fill;
  premium = 0;
}

-- The effect of one fill on what the loops carry.
abbrev pub filled : Side → ℕ → ℕ → Order → Sweep → Sweep
filled taker taker_id level_price maker m =
    let fill = min (quantity maker) m.remaining in
    record m {
      remaining = m.remaining - fill;
      results = push m.results (record {
        trade = trade_of taker taker_id maker.id level_price fill;
        maker_order_id = maker.id;
        maker_remaining = as_i128 (quantity maker - fill);
        taker_remaining = as_i128 (m.remaining - fill);
      });
    }

-- The inner `while`, over the queue of a level. A maker that is not used up has used up the taker, so
-- the loop ends there.
unfoldable pub fill_level : Side → ℕ → ℕ → Queue → Sweep → Outcome (Queue × Sweep)
fill_level taker taker_id level_price [] m = ok ([], m)
fill_level taker taker_id level_price (maker ∷ queue) m =
    let maker_remaining = quantity maker - min (quantity maker) m.remaining in
    let m' = filled taker taker_id level_price maker m in
    let rest =
      fill_level taker taker_id level_price queue (record m' { index = erase maker.id m.index }) in
    let partial = set_quantity maker maker_remaining >>= (λ maker'. ok (maker' ∷ queue, m')) in
    if m.remaining == 0
    then ok (maker ∷ queue, m)
    else if maker_remaining == 0
    then rest
    else partial

-- The outer `while`, over the levels from the best one on. A level that is left with orders has used
-- up the taker, so the loop ends there.
unfoldable pub sweep : Side → ℕ → ℕ → Levels → Sweep → Outcome (Levels × Sweep)
sweep taker taker_id limit [] m = ok ([], m)
sweep taker taker_id limit ((level_price, queue) ∷ ls) m =
    let round = fill_level taker taker_id level_price queue m >>= λ (queue', m'). elim queue' [
      | [] ↦ sweep taker taker_id limit ls m'
      | o ∷ os ↦ ok ((level_price, o ∷ os) ∷ ls, m')
    ] in
    if m.remaining == 0
    then ok ((level_price, queue) ∷ ls, m)
    else if beyond taker limit level_price
    then ok ((level_price, queue) ∷ ls, m)
    else round

-- `match_against_asks` and `match_against_bids`: the sweep of the map opposite to the taker.
unfoldable pub match_against :
    OrderBook → Side → ℕ → ℕ → ℕ → Outcome (OrderBook × ℕ × List MatchResult)
match_against b taker taker_id limit remaining = do
  (ls, m) ←
      sweep taker taker_id limit (levels b (opposite_side taker))
        (record { remaining = remaining; index = b.index; results = [] })
  ok (put_levels (record b { index = m.index }) (opposite_side taker) ls, m.remaining, m.results)
