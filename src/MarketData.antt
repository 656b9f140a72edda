-- ===== src/MarketData.antt =====
-- `TradeTape` of crates/cerdic-tee-matcher/src/market_data.rs: a market's recent trades, and the candles
-- and the snapshot that are made of them. 64-bit sums wrap as in a release build.
pub mod Laws
pub mod Bars
mod Tests
use cerdic.Prelude.{
  ℕ, zero, suc, ◌+◌, ◌-◌, ◌*◌, ◌/◌, ◌%◌, ◌^◌, min, max, Bool, Option, none, some, List, [], ◌∷◌,
  map, length, take, push, ltb, leb, ◌==◌, if◌then◌else◌,
}
use cerdic.Prelude.Int.{ℤ, pos, negsuc, sub_ℕ, ◌*ℤ◌}
use cerdic.Backstop.Ledger.{div_to_zero}

-- `WINDOW_SECONDS`, 14 days; comments of the source call the window 7 days, and 24 hours.
abbrev pub window_seconds : ℕ
window_seconds = 1209600

abbrev pub u64_end : ℕ
u64_end = 18446744073709551616

pub record TradeRecord : Type 0 where
  pub timestamp : ℕ
  pub price : ℕ
  pub qty : ℕ

-- The trades, oldest first.
abbrev pub TradeTape : Type 0
TradeTape = List TradeRecord

pub record MarketSnapshot : Type 0 where
  pub last_price : Option ℕ
  pub last_trade_at : Option ℕ
  pub change_24h_bps : Option ℤ
  pub volume_24h : ℕ
  pub high_24h : Option ℕ
  pub low_24h : Option ℕ

pub record Candle : Type 0 where
  pub open_time : ℕ
  pub opened : ℕ
  pub high : ℕ
  pub low : ℕ
  pub close : ℕ
  pub volume : ℕ

-- The `while` of `prune`, with the cutoff.
unfoldable pub prune_before : ℕ → TradeTape → TradeTape
prune_before cutoff [] = []
prune_before cutoff (t ∷ ts) =
    let rest = prune_before cutoff ts in if ltb t.timestamp cutoff then rest else t ∷ ts

unfoldable pub prune : ℕ → TradeTape → TradeTape
prune now tape = prune_before (now - window_seconds) tape

unfoldable pub record_trade : TradeTape → ℕ → ℕ → ℕ → TradeTape
record_trade tape timestamp price qty =
    prune timestamp (push tape (record { timestamp = timestamp; price = price; qty = qty }))

abbrev pub last_of : TradeTape → Option TradeRecord
last_of [] = none
last_of (t ∷ []) = some t
last_of (t ∷ u ∷ ts) = last_of (u ∷ ts)

abbrev pub first_of : TradeTape → Option TradeRecord
first_of [] = none
first_of (t ∷ ts) = some t

-- The `filter` of `snapshot`.
unfoldable pub since : ℕ → TradeTape → TradeTape
since start [] = []
since start (t ∷ ts) = let rest = since start ts in if leb start t.timestamp then t ∷ rest else rest

-- `as i64`
abbrev pub as_i64 : ℤ → ℤ
as_i64 (pos n) =
    let m = n % u64_end in if ltb (m + m) u64_end then pos m else negsuc (u64_end - 1 - m)
as_i64 (negsuc n) =
    let m = n % u64_end in if ltb (m + m) u64_end then negsuc m else pos (u64_end - 1 - m)

unfoldable pub change_bps : Option TradeRecord → Option TradeRecord → Option ℤ
change_bps none last = none
change_bps (some f) none = none
change_bps (some f) (some l) =
    if f.price == 0
    then none
    else if f.timestamp == l.timestamp
    then none
    else some (as_i64 (div_to_zero (sub_ℕ l.price f.price *ℤ pos 10000) f.price))

unfoldable pub highest : TradeTape → Option ℕ
highest [] = none
highest (t ∷ ts) = elim (highest ts) [ none ↦ some t.price | some p ↦ some (max t.price p) ]

unfoldable pub lowest : TradeTape → Option ℕ
lowest [] = none
lowest (t ∷ ts) = elim (lowest ts) [ none ↦ some t.price | some p ↦ some (min t.price p) ]

unfoldable pub volume_of : TradeTape → ℕ → ℕ
volume_of [] volume = volume
volume_of (t ∷ ts) volume = volume_of ts ((volume + t.qty) % u64_end)

abbrev pub day_before : Option TradeRecord → ℕ
day_before none = 0
day_before (some l) = l.timestamp - 86400

unfoldable pub snapshot : TradeTape → MarketSnapshot
snapshot tape =
    let window = since (day_before (last_of tape)) tape in
    record {
      last_price = elim (last_of tape) [ none ↦ none | some t ↦ some t.price ];
      last_trade_at = elim (last_of tape) [ none ↦ none | some t ↦ some t.timestamp ];
      change_24h_bps = change_bps (first_of window) (last_of tape);
      volume_24h = volume_of window 0;
      high_24h = highest window;
      low_24h = lowest window;
    }

abbrev pub new_candle : ℕ → TradeRecord → Candle
new_candle bucket_start trade = record {
  open_time = bucket_start;
  opened = trade.price;
  high = trade.price;
  low = trade.price;
  close = trade.price;
  volume = trade.qty;
}

abbrev pub merged : Candle → TradeRecord → Candle
merged c trade = record c {
  high = max c.high trade.price;
  low = min c.low trade.price;
  close = trade.price;
  volume = (c.volume + trade.qty) % u64_end;
}

abbrev pub bucket_of : ℕ → TradeRecord → ℕ
bucket_of interval_secs trade = trade.timestamp / interval_secs * interval_secs

-- The body of the `for`: the last candle takes the trade, or a new one does.
unfoldable pub add_trade : ℕ → List Candle → TradeRecord → List Candle
add_trade interval_secs [] trade = new_candle (bucket_of interval_secs trade) trade ∷ []
add_trade interval_secs (c ∷ []) trade =
    if c.open_time == bucket_of interval_secs trade
    then merged c trade ∷ []
    else c ∷ new_candle (bucket_of interval_secs trade) trade ∷ []
add_trade interval_secs (c ∷ d ∷ cs) trade = c ∷ add_trade interval_secs (d ∷ cs) trade

unfoldable pub candles_from : ℕ → List Candle → TradeTape → List Candle
candles_from interval_secs cs [] = cs
candles_from interval_secs cs (t ∷ ts) =
    candles_from interval_secs (add_trade interval_secs cs t) ts

-- `candles[start..]`
unfoldable pub skip : ℕ → List Candle → List Candle
skip zero cs = cs
skip (suc n) [] = []
skip (suc n) (c ∷ cs) = skip n cs

unfoldable pub candles : TradeTape → ℕ → ℕ → List Candle
candles tape interval_secs limit =
    let cs = candles_from interval_secs [] tape in
    if interval_secs == 0 then [] else skip (length cs - limit) cs

abbrev pub newest_first : TradeTape → TradeTape
newest_first [] = []
newest_first (t ∷ ts) = push (newest_first ts) t

unfoldable pub recent : TradeTape → ℕ → TradeTape
recent tape limit = take limit (newest_first tape)
