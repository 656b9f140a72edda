-- ===== src/MarketData/Tests.antt =====
-- Runs of the tape of crates/cerdic-tee-matcher/src/market_data.rs.
use cerdic.Prelude.{◌-◌, ◌≤◌, ◌≡◌, refl, [], ◌∷◌, All, arith, length, push}
use cerdic.MarketData.{
  TradeTape, record_trade, since, window_seconds, candles, candles_from, add_trade,
}
use cerdic.MarketData.Laws.{Sorted, record_trade-since}
use cerdic.MarketData.Bars.{Bar, Rising, candles-Rising, volumes, quantities, volumes-candles}

abbrev tape : TradeTape
tape =
    record { timestamp = 1000; price = 50; qty = 2 }
    ∷ record { timestamp = 1030; price = 60; qty = 3 }
    ∷ record { timestamp = 1070; price = 40; qty = 4 }
    ∷ []

tape-Sorted : Sorted tape
tape-Sorted = ((omega arith, (omega arith, tt)), ((omega arith, tt), (tt, tt)))

-- The first trade is older than two weeks.
record_trade-since_example :
    (record_trade tape 1210610 45 5
      ≡ since
          (1210610 - window_seconds)
          (push tape (record { timestamp = 1210610; price = 45; qty = 5 })))
    × Sorted (record_trade tape 1210610 45 5)
record_trade-since_example =
    record_trade-since tape 1210610 45 5 tape-Sorted (omega arith, (omega arith, (omega arith, tt)))

candles-Rising_example :
    All (Bar 60) (candles tape 60 2) × Rising (candles tape 60 2) × (length (candles tape 60 2) ≤ 2)
candles-Rising_example = candles-Rising tape 60 2 tape-Sorted (λ e. omega (arith, e))

two_candles : length (candles_from 60 [] tape) ≡ 2
unfolding candles_from add_trade
two_candles = refl

volumes-candles_example : volumes (candles tape 60 2) ≡ quantities tape
volumes-candles_example =
    volumes-candles tape 60 2 (λ e. omega (arith, e)) (omega arith) (omega (arith, two_candles))
