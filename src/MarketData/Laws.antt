-- ===== src/MarketData/Laws.antt =====
-- What the tape of crates/cerdic-tee-matcher/src/market_data.rs keeps, and what its candles are.
use cerdic.Prelude.{
  ℕ, ◌-◌, ◌≤◌, ◌≡◌, refl, sym, subst, ap, inl, inr, true, false, Bool-cases, [], ◌∷◌, All, All-push,
  arith, push, ltb, leb,
}
use cerdic.MarketData.{
  TradeRecord, TradeTape, window_seconds, prune_before, prune, record_trade, since,
}

-- The timestamps do not go down.
abbrev pub Sorted : TradeTape → Type 0
Sorted [] = Unit {0}
Sorted (t ∷ ts) = All (λ (u : TradeRecord). t.timestamp ≤ u.timestamp) ts × Sorted ts

push-Sorted :
    (ts : TradeTape) (t : TradeRecord)
    → Sorted ts
    → All (λ (u : TradeRecord). u.timestamp ≤ t.timestamp) ts
    → Sorted (push ts t)
push-Sorted [] t s h = (tt, tt)
push-Sorted (u ∷ ts) t s h = (
  All-push (λ (x : TradeRecord). u.timestamp ≤ x.timestamp) ts t s.0 h.0,
  push-Sorted ts t s.1 h.1,
)

since_all :
    (cutoff : ℕ) (ts : TradeTape)
    → All (λ (u : TradeRecord). cutoff ≤ u.timestamp) ts
    → since cutoff ts ≡ ts
unfolding since
since_all cutoff [] h = refl
since_all cutoff (t ∷ ts) h =
    let e : leb cutoff t.timestamp ≡ true = ground arith in
    rw e (ap (◌∷◌ t) (since_all cutoff ts h.1))

All-le :
    (a b : ℕ) (ts : TradeTape)
    → a ≤ b
    → All (λ (u : TradeRecord). b ≤ u.timestamp) ts
    → All (λ (u : TradeRecord). a ≤ u.timestamp) ts
All-le a b [] h k = tt
All-le a b (t ∷ ts) h k = (omega (arith, k.0), All-le a b ts h k.1)

prune_before-since :
    (cutoff : ℕ) (ts : TradeTape) → Sorted ts → prune_before cutoff ts ≡ since cutoff ts
unfolding prune_before since
prune_before-since cutoff [] s = refl
prune_before-since cutoff (t ∷ ts) s = elim (Bool-cases (ltb t.timestamp cutoff)) [
  | inl e ↦
      let out : leb cutoff t.timestamp ≡ false = ground arith in
      rw (e, out) (prune_before-since cutoff ts s.1)
  | inr e ↦
      let in_window : leb cutoff t.timestamp ≡ true = ground arith in
      let le : cutoff ≤ t.timestamp = ground arith in
      rw (e, in_window)
        (ap (◌∷◌ t) (sym (since_all cutoff ts (All-le cutoff t.timestamp ts le s.0))))
]

All-since :
    (P : TradeRecord → Type 0) (cutoff : ℕ) (ts : TradeTape) → All P ts → All P (since cutoff ts)
unfolding since
All-since P cutoff [] h = tt
All-since P cutoff (t ∷ ts) h = elim (Bool-cases (leb cutoff t.timestamp)) [
  | inl e ↦ rw e (h.0, All-since P cutoff ts h.1)
  | inr e ↦ rw e (All-since P cutoff ts h.1)
]

since-Sorted : (cutoff : ℕ) (ts : TradeTape) → Sorted ts → Sorted (since cutoff ts)
unfolding since
since-Sorted cutoff [] s = tt
since-Sorted cutoff (t ∷ ts) s = elim (Bool-cases (leb cutoff t.timestamp)) [
  | inl e ↦ rw e (
    All-since (λ (u : TradeRecord). t.timestamp ≤ u.timestamp) cutoff ts s.0,
    since-Sorted cutoff ts s.1,
  )
  | inr e ↦ rw e (since-Sorted cutoff ts s.1)
]

-- On a tape in the order of its timestamps, a trade that is no older than the others leaves a tape in
-- order, of the trades, old and new, that are not older than the window before it, the
-- 14 days of `WINDOW_SECONDS`.
pub record_trade-since :
    (tape : TradeTape) (timestamp price qty : ℕ)
    → Sorted tape
    → All (λ (u : TradeRecord). u.timestamp ≤ timestamp) tape
    → (record_trade tape timestamp price qty
        ≡ since
            (timestamp - window_seconds)
            (push tape (record { timestamp = timestamp; price = price; qty = qty })))
      × Sorted (record_trade tape timestamp price qty)
unfolding record_trade prune
record_trade-since tape timestamp price qty s h =
    let t : TradeRecord = record { timestamp = timestamp; price = price; qty = qty } in
    let e =
      prune_before-since (timestamp - window_seconds) (push tape t) (push-Sorted tape t s h) in
    (
      e,
      subst Sorted (sym e)
          (since-Sorted (timestamp - window_seconds) (push tape t) (push-Sorted tape t s h)),
    )
