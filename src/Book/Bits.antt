-- ===== src/Book/Bits.antt =====
-- The operations on `u64` that crates/cerdic-tee-matcher/src/book.rs uses for its occupancy bitmap,
-- by their binary digits: `w & (1 << k) != 0`, `w |= 1 << k`, `w &= !(1 << k)`, `w & (!0 << k)`,
-- `w & (!0 >> (63 - k))`, `trailing_zeros` and `leading_zeros`.
pub mod Laws
use cerdic.Prelude.{ℕ, zero, suc, ◌+◌, ◌-◌, ◌*◌, ◌/◌, ◌%◌, Bool, ◌==◌, if◌then◌else◌}

abbrev pub odd : ℕ → Bool
odd w = w % 2 == 1

unfoldable pub bit : ℕ → ℕ → Bool
bit w zero = odd w
bit w (suc k) = bit (w / 2) k

unfoldable pub set_bit : ℕ → ℕ → ℕ
set_bit w zero = if odd w then w else w + 1
set_bit w (suc k) = w % 2 + 2 * set_bit (w / 2) k

unfoldable pub clear_bit : ℕ → ℕ → ℕ
clear_bit w zero = if odd w then w - 1 else w
clear_bit w (suc k) = w % 2 + 2 * clear_bit (w / 2) k

-- `w & (!0 << k)`
unfoldable pub bits_from : ℕ → ℕ → ℕ
bits_from w zero = w
bits_from w (suc k) = 2 * bits_from (w / 2) k

-- `w & (!0 >> (63 - k))`
unfoldable pub bits_to : ℕ → ℕ → ℕ
bits_to w zero = w % 2
bits_to w (suc k) = w % 2 + 2 * bits_to (w / 2) k

-- Over a word of `n` bits; the word 0 has `n`.
unfoldable pub trailing_zeros : ℕ → ℕ → ℕ
trailing_zeros zero w = 0
trailing_zeros (suc n) w = let rest = suc (trailing_zeros n (w / 2)) in if odd w then 0 else rest

unfoldable pub leading_zeros : ℕ → ℕ → ℕ
leading_zeros zero w = 0
leading_zeros (suc n) w = let rest = suc (leading_zeros n w) in if bit w n then 0 else rest
