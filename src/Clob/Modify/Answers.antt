-- ===== src/Clob/Modify/Answers.antt =====
-- The answers of `modify_order` of crates/clob/src/lib.rs, as its documentation lists the errors.
use cerdic.Prelude.{ℕ, ◌≡◌, ◌≢◌, refl, true, false, Option, none, some, lookup, ◌==◌}
use cerdic.Prelude.Int.{ℤ, unsigned_abs}
use cerdic.Clob.Types.{
  ok, side_agrees_with_size, ClobError, order_not_found, zero_size, zero_price,
  side_size_sign_mismatch,
}
use cerdic.Clob.State.{BookLocation, OrderBook}
use cerdic.Clob.Orders.{modify_order}

-- The answer to a change of the order `i` to the price `np` and the size `n`.
pub data Answers (b : OrderBook) (i np : ℕ) (n : ℤ) : Option ClobError → Type 0 where
  no_size : unsigned_abs n ≡ 0 → Answers b i np n (some zero_size)
  no_price : unsigned_abs n ≢ 0 → np ≡ 0 → Answers b i np n (some zero_price)
  not_live :
      unsigned_abs n ≢ 0
      → np ≢ 0
      → lookup i b.index ≡ none
      → Answers b i np n (some (order_not_found i))
  wrong_sign :
      (l : BookLocation)
      → unsigned_abs n ≢ 0
      → np ≢ 0
      → lookup i b.index ≡ some l
      → side_agrees_with_size l.side n ≡ false
      → Answers b i np n (some (side_size_sign_mismatch i l.side n))
  no_error :
      (l : BookLocation)
      → unsigned_abs n ≢ 0
      → np ≢ 0
      → lookup i b.index ≡ some l
      → side_agrees_with_size l.side n ≡ true
      → Answers b i np n none

pub refused_size :
    (b : OrderBook) (i np : ℕ) (n : ℤ)
    → (unsigned_abs n == 0) ≡ true
    → modify_order b i np n ≡ ok (some zero_size, b)
unfolding modify_order
refused_size b i np n z = rw (modify_order, z) refl

pub refused_price :
    (b : OrderBook) (i np : ℕ) (n : ℤ)
    → (unsigned_abs n == 0) ≡ false
    → (np == 0) ≡ true
    → modify_order b i np n ≡ ok (some zero_price, b)
unfolding modify_order
refused_price b i np n z zp = rw (modify_order, z, zp) refl

pub refused_id :
    (b : OrderBook) (i np : ℕ) (n : ℤ)
    → (unsigned_abs n == 0) ≡ false
    → (np == 0) ≡ false
    → lookup i b.index ≡ none
    → modify_order b i np n ≡ ok (some (order_not_found i), b)
unfolding modify_order
refused_id b i np n z zp e = rw (modify_order, z, zp, e) refl

pub refused_sign :
    (b : OrderBook) (i np : ℕ) (n : ℤ) (l : BookLocation)
    → (unsigned_abs n == 0) ≡ false
    → (np == 0) ≡ false
    → lookup i b.index ≡ some l
    → side_agrees_with_size l.side n ≡ false
    → modify_order b i np n ≡ ok (some (side_size_sign_mismatch i l.side n), b)
unfolding modify_order
refused_sign b i np n l z zp e a = rw (modify_order, z, zp, e, a) refl
