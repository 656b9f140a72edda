-- ===== src/Book/Bits/Laws.antt =====
-- The bits of a word under the operations of Book/Bits.antt, and what the two counts find.
use cerdic.Prelude.{
  ℕ, zero, suc, ◌+◌, ◌-◌, ◌*◌, ◌/◌, ◌%◌, ◌^◌, ◌≤◌, ◌<◌, ◌≡◌, refl, ap, ◌≢◌, true, false, arith, leb,
  inl, inr, Bool-cases, ◌==◌, if◌then◌else◌,
}
use cerdic.Book.Bits.{
  odd, bit, set_bit, clear_bit, bits_from, bits_to, trailing_zeros, leading_zeros,
}
use native.Mathlib.Nat.{pow-suc}

pub bit-zero : (k : ℕ) → bit 0 k ≡ false
unfolding bit
bit-zero zero = refl
bit-zero (suc k) = bit-zero k

half_of : (w v : ℕ) → (w % 2 + 2 * v) / 2 ≡ v
half_of w v = omega arith

half_of_double : (v : ℕ) → (2 * v) / 2 ≡ v
half_of_double v = omega arith

pub bit-set_bit_self : (w k : ℕ) → bit (set_bit w k) k ≡ true
unfolding bit set_bit
bit-set_bit_self w zero = ground arith
bit-set_bit_self w (suc k) = rw (half_of w (set_bit (w / 2) k)) (bit-set_bit_self (w / 2) k)

pub bit-set_bit_ne : (w k j : ℕ) → k ≢ j → bit (set_bit w k) j ≡ bit w j
unfolding bit set_bit
bit-set_bit_ne w zero zero h = absurd (h refl)
bit-set_bit_ne w zero (suc j) h = elim (Bool-cases (odd w)) [
  | inl e ↦ rw e refl
  | inr e ↦ rw e (ap (λ (v : ℕ). bit v j) (ground arith))
]
bit-set_bit_ne w (suc k) zero h = ground arith
bit-set_bit_ne w (suc k) (suc j) h =
    rw (half_of w (set_bit (w / 2) k)) (bit-set_bit_ne (w / 2) k j (λ e. h (ap suc e)))

pub bit-clear_bit_self : (w k : ℕ) → bit (clear_bit w k) k ≡ false
unfolding bit clear_bit
bit-clear_bit_self w zero = ground arith
bit-clear_bit_self w (suc k) = rw (half_of w (clear_bit (w / 2) k)) (bit-clear_bit_self (w / 2) k)

pub bit-clear_bit_ne : (w k j : ℕ) → k ≢ j → bit (clear_bit w k) j ≡ bit w j
unfolding bit clear_bit
bit-clear_bit_ne w zero zero h = absurd (h refl)
bit-clear_bit_ne w zero (suc j) h = elim (Bool-cases (odd w)) [
  | inl e ↦ rw e (ap (λ (v : ℕ). bit v j) (ground arith))
  | inr e ↦ rw e refl
]
bit-clear_bit_ne w (suc k) zero h = ground arith
bit-clear_bit_ne w (suc k) (suc j) h =
    rw (half_of w (clear_bit (w / 2) k)) (bit-clear_bit_ne (w / 2) k j (λ e. h (ap suc e)))

-- `w & (!0 << k)` keeps the bits from `k` on, `w & (!0 >> (63 - k))` those up to `k`.
pub bit-bits_from : (w k j : ℕ) → bit (bits_from w k) j ≡ (if leb k j then bit w j else false)
unfolding bit bits_from
bit-bits_from w zero zero = refl
bit-bits_from w zero (suc j) = ground arith
bit-bits_from w (suc k) zero = ground arith
bit-bits_from w (suc k) (suc j) =
    rw (half_of_double (bits_from (w / 2) k)) (ground (arith, bit-bits_from (w / 2) k j))

pub bit-bits_to : (w k j : ℕ) → bit (bits_to w k) j ≡ (if leb j k then bit w j else false)
unfolding bit bits_to
bit-bits_to w zero zero = ground arith
bit-bits_to w zero (suc j) = ground (arith, bit-zero j, ap (λ (v : ℕ). bit v j) (small w))
  where
    small : (w : ℕ) → w % 2 / 2 ≡ 0
    small w = omega arith
bit-bits_to w (suc k) zero = ground arith
bit-bits_to w (suc k) (suc j) =
    rw (half_of w (bits_to (w / 2) k)) (ground (arith, bit-bits_to (w / 2) k j))

-- Words stay below 2 ^ n.
pub set_bit_lt : (n w k : ℕ) → k < n → w < 2 ^ n → set_bit w k < 2 ^ n
unfolding set_bit
set_bit_lt zero w k h b = elim h [ ]
set_bit_lt (suc n) w zero h b = ground (arith, pow-suc 2 n)
set_bit_lt (suc n) w (suc k) h b =
    omega (arith, pow-suc 2 n, set_bit_lt n (w / 2) k (omega arith) (omega (arith, pow-suc 2 n)))

pub clear_bit_le : (w k : ℕ) → clear_bit w k ≤ w
unfolding clear_bit
clear_bit_le w zero = ground arith
clear_bit_le w (suc k) = omega (arith, clear_bit_le (w / 2) k)

pub bits_from_le : (w k : ℕ) → bits_from w k ≤ w
unfolding bits_from
bits_from_le w zero = omega arith
bits_from_le w (suc k) = omega (arith, bits_from_le (w / 2) k)

pub bits_to_le : (w k : ℕ) → bits_to w k ≤ w
unfolding bits_to
bits_to_le w zero = omega arith
bits_to_le w (suc k) = omega (arith, bits_to_le (w / 2) k)

-- A word is 0 exactly when it has no bit.
pub ne_zero_of_bit : (w k : ℕ) → bit w k ≡ true → w ≢ 0
ne_zero_of_bit w k b e = let z : bit w k ≡ false = rw e (bit-zero k) in cc

pub bit_of_ne_zero : (n w : ℕ) → w < 2 ^ n → w ≢ 0 → (k : ℕ) × (k < n) × (bit w k ≡ true)
unfolding bit
bit_of_ne_zero zero w b h = absurd (omega arith)
bit_of_ne_zero (suc n) w b h = elim (Bool-cases (odd w)) [
  | inl e ↦ (0, omega arith, e)
  | inr e ↦
      let (k, l, t) = bit_of_ne_zero n (w / 2) (omega (arith, pow-suc 2 n)) (ground arith) in
      (suc k, omega arith, t)
]

-- `trailing_zeros` is the first bit of a word that has one.
pub trailing_zeros_below : (n w k : ℕ) → k < trailing_zeros n w → bit w k ≡ false
unfolding bit trailing_zeros
trailing_zeros_below zero w k h = elim h [ ]
trailing_zeros_below (suc n) w zero h = ground arith
trailing_zeros_below (suc n) w (suc k) h = ground (arith, trailing_zeros_below n (w / 2) k)

pub bit-trailing_zeros : (n w k : ℕ) → bit w k ≡ true → k < n → bit w (trailing_zeros n w) ≡ true
unfolding bit trailing_zeros
bit-trailing_zeros zero w k b h = elim h [ ]
bit-trailing_zeros (suc n) w zero b h = rw b b
bit-trailing_zeros (suc n) w (suc k) b h = elim (Bool-cases (odd w)) [
  | inl e ↦ rw e e
  | inr e ↦ rw e (bit-trailing_zeros n (w / 2) k b (omega arith))
]

-- `63 - leading_zeros` is the last one.
pub leading_zeros_above : (n w k : ℕ) → n ≤ k + leading_zeros n w → k < n → bit w k ≡ false
unfolding leading_zeros
leading_zeros_above zero w k h l = elim l [ ]
leading_zeros_above (suc n) w k h l = elim (Bool-cases (bit w n)) [
  | inl e ↦ absurd (ground arith)
  | inr e ↦ elim (Bool-cases (k == n)) [
    | inl same ↦ let q : k ≡ n = ground arith in rw q e
    | inr other ↦ leading_zeros_above n w k (ground arith) (ground arith)
  ]
]

pub bit-leading_zeros :
    (n w k : ℕ)
    → bit w k ≡ true
    → k < n
    → (leading_zeros n w < n) × (bit w (n - 1 - leading_zeros n w) ≡ true)
unfolding leading_zeros
bit-leading_zeros zero w k b h = elim h [ ]
bit-leading_zeros (suc n) w k b h = elim (Bool-cases (bit w n)) [
  | inl e ↦ rw e (omega arith, let q : suc n - 1 - 0 ≡ n = omega arith in rw q e)
  | inr e ↦ elim (Bool-cases (k == n)) [
    | inl same ↦ let q : k ≡ n = ground arith in let c : bit w n ≡ true = rw q at b in cc
    | inr other ↦
        let (l, t) = bit-leading_zeros n w k b (ground arith) in
        let q : suc n - 1 - suc (leading_zeros n w) ≡ n - 1 - leading_zeros n w = omega arith in
        rw e (omega arith, rw q t)
  ]
]

-- What the two counts find in a `u64` that is not 0.
pub first_bit :
    (w : ℕ)
    → w < 2 ^ 64
    → w ≢ 0
    → (trailing_zeros 64 w < 64)
      × (bit w (trailing_zeros 64 w) ≡ true)
      × ((k : ℕ) → k < trailing_zeros 64 w → bit w k ≡ false)
first_bit w b h =
    let (k, l, t) = bit_of_ne_zero 64 w b h in
    (le_of_bit k l t, bit-trailing_zeros 64 w k t l, trailing_zeros_below 64 w)
  where
    le_of_bit : (k : ℕ) → k < 64 → bit w k ≡ true → trailing_zeros 64 w < 64
    le_of_bit k l t = ground (arith, trailing_zeros_below 64 w k)

pub last_bit :
    (w : ℕ)
    → w < 2 ^ 64
    → w ≢ 0
    → (leading_zeros 64 w < 64)
      × (bit w (63 - leading_zeros 64 w) ≡ true)
      × ((k : ℕ) → 63 - leading_zeros 64 w < k → k < 64 → bit w k ≡ false)
last_bit w b h =
    let (k, l, t) = bit_of_ne_zero 64 w b h in
    let (lt, set) = bit-leading_zeros 64 w k t l in
    (lt, set, λ k above l. leading_zeros_above 64 w k (omega arith) l)
