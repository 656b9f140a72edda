-- ===== src/MarketData/Bars.antt =====
-- The candles of crates/cerdic-tee-matcher/src/market_data.rs: each is a bar, their times go up, and no
-- volume is lost.
use native.Mathlib.Nat.{le-div_iff_mul-le, div-mul-le_self, mul-le-mul}
use cerdic.Prelude.{
  ℕ, zero, suc, ◌+◌, ◌-◌, ◌*◌, ◌/◌, ◌≤◌, ◌<◌, ◌≡◌, ◌≢◌, refl, ◌∙◌, inl, inr, false, Bool-cases,
  List, [], ◌∷◌, All, arith, length, ◌==◌, ne_of_test,
}
use cerdic.MarketData.{
  TradeRecord, TradeTape, Candle, u64_end, new_candle, merged, bucket_of, add_trade, candles_from,
  skip, candles,
}
use cerdic.MarketData.Laws.{Sorted}

-- Low and high bound the prices, and the bar starts at a multiple of the interval.
pub record Bar (interval : ℕ) (c : Candle) : Type 0 where
  pub low_opened : c.low ≤ c.opened
  pub opened_high : c.opened ≤ c.high
  pub low_close : c.low ≤ c.close
  pub close_high : c.close ≤ c.high
  pub aligned : (k : ℕ) × (c.open_time ≡ k * interval)

-- The bars' times go up.
abbrev pub Rising : List Candle → Type 0
Rising [] = Unit {0}
Rising (c ∷ cs) = All (λ (d : Candle). c.open_time < d.open_time) cs × Rising cs

add_trade-All :
    (P : Candle → Type 0) (interval : ℕ) (t : TradeRecord) (cs : List Candle)
    → All P cs
    → P (new_candle (bucket_of interval t) t)
    → ((c : Candle) → P c → P (merged c t))
    → All P (add_trade interval cs t)
unfolding add_trade
add_trade-All P interval t [] h n m = (n, tt)
add_trade-All P interval t (c ∷ []) h n m =
    elim (Bool-cases (c.open_time == bucket_of interval t)) [
      | inl e ↦ rw e (m c h.0, tt)
      | inr e ↦ rw e (h.0, (n, tt))
    ]
add_trade-All P interval t (c ∷ d ∷ cs) h n m = (h.0, add_trade-All P interval t (d ∷ cs) h.1 n m)

add_trade-Rising :
    (interval : ℕ) (t : TradeRecord) (cs : List Candle)
    → All (λ (c : Candle). c.open_time ≤ bucket_of interval t) cs
    → Rising cs
    → Rising (add_trade interval cs t)
unfolding add_trade
add_trade-Rising interval t [] h r = (tt, tt)
add_trade-Rising interval t (c ∷ []) h r = elim (Bool-cases (c.open_time == bucket_of interval t)) [
  | inl e ↦ rw e (tt, tt)
  | inr e ↦
      let lt : c.open_time < bucket_of interval t =
        omega (arith, h.0, ne_of_test c.open_time (bucket_of interval t) e) in
      rw e ((lt, tt), (tt, tt))
]
add_trade-Rising interval t (c ∷ d ∷ cs) h r = (
  add_trade-All (λ (x : Candle). c.open_time < x.open_time) interval t (d ∷ cs) r.0
      (omega (arith, r.0.0, h.1.0)) (λ x k. k),
  add_trade-Rising interval t (d ∷ cs) h.1 r.1,
)

merged-Bar :
    (interval : ℕ) (t : TradeRecord) (c : Candle) → Bar interval c → Bar interval (merged c t)
merged-Bar interval t c b = record {
  low_opened = omega (arith, b.low_opened);
  opened_high = omega (arith, b.opened_high);
  low_close = omega arith;
  close_high = omega arith;
  aligned = b.aligned;
}

new_candle-Bar :
    (interval : ℕ) (t : TradeRecord) → Bar interval (new_candle (bucket_of interval t) t)
new_candle-Bar interval t = record {
  low_opened = omega arith;
  opened_high = omega arith;
  low_close = omega arith;
  close_high = omega arith;
  aligned = (t.timestamp / interval, refl);
}

-- The candles so far, which no later trade is before.
record Bars (interval : ℕ) (cs : List Candle) (ts : TradeTape) : Type 0 where
  bars : All (Bar interval) cs
  rising : Rising cs
  before : All (λ (t : TradeRecord). All (λ (c : Candle). c.open_time ≤ bucket_of interval t) cs) ts

bucket_mono :
    (interval : ℕ) (t u : TradeRecord)
    → 0 < interval
    → t.timestamp ≤ u.timestamp
    → bucket_of interval t ≤ bucket_of interval u
bucket_mono interval t u positive h =
    let below : bucket_of interval t ≤ u.timestamp =
      omega (arith, div-mul-le_self t.timestamp interval, h) in
    let quotient : t.timestamp / interval ≤ u.timestamp / interval =
      (le-div_iff_mul-le positive).1 below in
    let same_factor : interval ≤ interval = omega arith in mul-le-mul quotient same_factor

later :
    (interval : ℕ)
    → 0 < interval
    → (cs : List Candle) (t : TradeRecord) (ts : TradeTape)
    → All (λ (u : TradeRecord). t.timestamp ≤ u.timestamp) ts
    → All (λ (u : TradeRecord). All (λ (c : Candle). c.open_time ≤ bucket_of interval u) cs) ts
    → All
        (λ (u : TradeRecord).
          All (λ (c : Candle). c.open_time ≤ bucket_of interval u) (add_trade interval cs t))
        ts
later interval positive cs t [] s h = tt
later interval positive cs t (u ∷ ts) s h = (
  add_trade-All (λ (c : Candle). c.open_time ≤ bucket_of interval u) interval t cs h.0
      (bucket_mono interval t u positive s.0) (λ c k. k),
  later interval positive cs t ts s.1 h.1,
)

candles_from-Bars :
    (interval : ℕ)
    → 0 < interval
    → (ts : TradeTape) (cs : List Candle) → Sorted ts
    → Bars interval cs ts
    → All (Bar interval) (candles_from interval cs ts) × Rising (candles_from interval cs ts)
unfolding candles_from
candles_from-Bars interval positive [] cs s b = (b.bars, b.rising)
candles_from-Bars interval positive (t ∷ ts) cs s b =
    candles_from-Bars interval positive ts (add_trade interval cs t) s.1 (record {
      bars =
          add_trade-All (Bar interval) interval t cs b.bars (new_candle-Bar interval t)
            (merged-Bar interval t);
      rising = add_trade-Rising interval t cs b.before.0 b.rising;
      before = later interval positive cs t ts s.0 b.before.1;
    })

no_candles :
    (interval : ℕ) (ts : TradeTape)
    → All (λ (t : TradeRecord). All (λ (c : Candle). c.open_time ≤ bucket_of interval t) []) ts
no_candles interval [] = tt
no_candles interval (t ∷ ts) = (tt, no_candles interval ts)

skip-All : (P : Candle → Type 0) (n : ℕ) (cs : List Candle) → All P cs → All P (skip n cs)
unfolding skip
skip-All P zero cs h = h
skip-All P (suc n) [] h = tt
skip-All P (suc n) (c ∷ cs) h = skip-All P n cs h.1

skip-Rising : (n : ℕ) (cs : List Candle) → Rising cs → Rising (skip n cs)
unfolding skip
skip-Rising zero cs h = h
skip-Rising (suc n) [] h = tt
skip-Rising (suc n) (c ∷ cs) h = skip-Rising n cs h.1

length-skip : (n : ℕ) (cs : List Candle) → length (skip n cs) ≡ length cs - n
unfolding skip
length-skip zero cs = omega arith
length-skip (suc n) [] = omega arith
length-skip (suc n) (c ∷ cs) = omega (arith, length-skip n cs)

-- The candles of a tape in the order of its timestamps, for an interval that is not 0: each has its opening
-- and closing prices between its low and its high and starts at a multiple of the interval, they start one
-- after the other, and there are at most `limit`.
pub candles-Rising :
    (tape : TradeTape) (interval_secs limit : ℕ)
    → Sorted tape
    → interval_secs ≢ 0
    → All (Bar interval_secs) (candles tape interval_secs limit)
      × Rising (candles tape interval_secs limit)
      × (length (candles tape interval_secs limit) ≤ limit)
unfolding candles
candles-Rising tape interval_secs limit s ne =
    let z : (interval_secs == 0) ≡ false = ground arith in
    let b =
      candles_from-Bars interval_secs (omega (arith, ne)) tape [] s
        (record { bars = tt; rising = tt; before = no_candles interval_secs tape }) in
    let cs = candles_from interval_secs [] tape in
    rw z (
      skip-All (Bar interval_secs) (length cs - limit) cs b.0,
      skip-Rising (length cs - limit) cs b.1,
      omega (arith, length-skip (length cs - limit) cs),
    )

abbrev pub volumes : List Candle → ℕ
volumes [] = 0
volumes (c ∷ cs) = c.volume + volumes cs

abbrev pub quantities : TradeTape → ℕ
quantities [] = 0
quantities (t ∷ ts) = t.qty + quantities ts

volumes-add_trade :
    (interval : ℕ) (t : TradeRecord) (cs : List Candle)
    → volumes cs + t.qty < u64_end
    → volumes (add_trade interval cs t) ≡ volumes cs + t.qty
unfolding add_trade
volumes-add_trade interval t [] h = omega arith
volumes-add_trade interval t (c ∷ []) h = elim (Bool-cases (c.open_time == bucket_of interval t)) [
  | inl e ↦ rw e (omega arith)
  | inr e ↦ rw e (omega arith)
]
volumes-add_trade interval t (c ∷ d ∷ cs) h =
    omega (arith, volumes-add_trade interval t (d ∷ cs) (omega arith))

volumes-candles_from :
    (interval : ℕ) (ts : TradeTape) (cs : List Candle)
    → volumes cs + quantities ts < u64_end
    → volumes (candles_from interval cs ts) ≡ volumes cs + quantities ts
unfolding candles_from
volumes-candles_from interval [] cs h = omega arith
volumes-candles_from interval (t ∷ ts) cs h =
    let step = volumes-add_trade interval t cs (omega arith) in
    omega (
      arith,
      step,
      volumes-candles_from interval ts (add_trade interval cs t) (omega (arith, step)),
    )

-- Where the traded quantities fit 64 bits together and `limit` does not cut, the candles' volumes add up to
-- what was traded.
pub volumes-candles :
    (tape : TradeTape) (interval_secs limit : ℕ)
    → interval_secs ≢ 0
    → quantities tape < u64_end
    → length (candles_from interval_secs [] tape) ≤ limit
    → volumes (candles tape interval_secs limit) ≡ quantities tape
unfolding candles skip
volumes-candles tape interval_secs limit ne h whole =
    let z : (interval_secs == 0) ≡ false = ground arith in
    let uncut : length (candles_from interval_secs [] tape) - limit ≡ 0 = omega arith in
    rw (z, uncut) (volumes-candles_from interval_secs tape [] (omega arith) ∙ omega arith)
