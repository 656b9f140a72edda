-- ===== src/Book/Occupancy.antt =====
-- `Occupancy` of crates/cerdic-tee-matcher/src/book.rs: the two-tier bitmap over the levels of a
-- ladder. Indices are `usize`, read as natural numbers. An index out of range, at which the source
-- panics, reads 0 here and writes nothing.
pub mod Laws
pub mod Words
pub mod Next
pub mod Prev
use cerdic.Prelude.{
  ℕ, zero, suc, ◌+◌, ◌-◌, ◌*◌, ◌/◌, ◌%◌, Bool, true, false, ◌&&◌, Option, none, some, List, [],
  length, get_or, set as set_at, resize, ltb, leb, ◌==◌, if◌then◌else◌,
}
use cerdic.Book.Bits.{bit, set_bit, clear_bit, bits_from, bits_to, trailing_zeros, leading_zeros}

pub record Occupancy : Type 0 where
  pub words : List ℕ
  pub summary : List ℕ

abbrev pub empty : Occupancy
empty = record { words = []; summary = [] }

-- `n.div_ceil(64)`
abbrev pub div_ceil : ℕ → ℕ
div_ceil n = (n + 63) / 64

abbrev pub word_at : Occupancy → ℕ → ℕ
word_at o i = get_or o.words i 0

abbrev pub summary_at : Occupancy → ℕ → ℕ
summary_at o i = get_or o.summary i 0

unfoldable pub ensure_len : Occupancy → ℕ → Occupancy
ensure_len o level_count =
    let word_count = div_ceil level_count in
    if ltb (length o.words) word_count
    then record {
      words = resize o.words word_count 0;
      summary = resize o.summary (div_ceil word_count) 0;
    }
    else o

-- The two writes of `set`, after it has made room.
mark : Occupancy → ℕ → Occupancy
mark o idx =
    let word = idx / 64 in
    record {
      words = set_at o.words word (set_bit (word_at o word) (idx % 64));
      summary = set_at o.summary (word / 64) (set_bit (summary_at o (word / 64)) (word % 64));
    }

unfoldable pub set : Occupancy → ℕ → Occupancy
unfolding ensure_len mark
set o idx = mark (ensure_len o (idx + 1)) idx

unfoldable pub clear : Occupancy → ℕ → Occupancy
clear o idx =
    let word = idx / 64 in
    let w = clear_bit (word_at o word) (idx % 64) in
    if leb (length o.words) word then o else record {
      words = set_at o.words word w;
      summary =
          if w == 0
          then set_at o.summary (word / 64) (clear_bit (summary_at o (word / 64)) (word % 64))
          else o.summary;
    }

unfoldable pub is_set : Occupancy → ℕ → Bool
is_set o idx = ltb (idx / 64) (length o.words) && bit (word_at o (idx / 64)) (idx % 64)

-- `for i in i..i + n { if self.is_set(i) { shifted.set(i + shift) } }`
copy_from : Occupancy → ℕ → ℕ → ℕ → Occupancy → Occupancy
copy_from o shift zero i shifted = shifted
copy_from o shift (suc n) i shifted =
    copy_from o shift n (suc i) (if is_set o i then set shifted (i + shift) else shifted)

unfoldable pub shift_up : Occupancy → ℕ → ℕ → Occupancy
unfolding copy_from
shift_up o shift new_level_count =
    copy_from o shift (length o.words * 64) 0 (ensure_len empty new_level_count)

-- The `effective` of `next_set_from`
effective_from : ℕ → ℕ → ℕ
effective_from w mask_from_bit = if leb 64 mask_from_bit then 0 else bits_from w mask_from_bit

-- The `while sw < self.summary.len()` of `next_set_from`, with the rounds that are left.
next_in_summary : Occupancy → ℕ → ℕ → ℕ → Option ℕ
next_in_summary o zero sw mask_from_bit = none
next_in_summary o (suc n) sw mask_from_bit =
    let rest = next_in_summary o n (suc sw) 0 in
    let effective = effective_from (summary_at o sw) mask_from_bit in
    let word = sw * 64 + trailing_zeros 64 effective in
    if effective == 0
    then rest
    else if leb (length o.words) word
    then none
    else some (word * 64 + trailing_zeros 64 (word_at o word))

unfoldable pub next_set_from : Occupancy → ℕ → Option ℕ
unfolding next_in_summary effective_from
next_set_from o idx =
    let start_word = idx / 64 in
    let masked = bits_from (word_at o start_word) (idx % 64) in
    let sw = start_word / 64 in
    if leb (length o.words) start_word
    then none
    else if masked == 0
    then next_in_summary o (length o.summary - sw) sw (start_word % 64 + 1)
    else some (start_word * 64 + trailing_zeros 64 masked)

-- The `loop` of `prev_set_from` at a word `sw`, whose summary word is the second argument: each
-- further round is at the last word of the summary word below.
prev_in_summary : Occupancy → ℕ → ℕ → Option ℕ
prev_in_summary o sw zero =
    let effective = bits_to (summary_at o 0) (sw % 64) in
    let word = 0 * 64 + (63 - leading_zeros 64 effective) in
    if effective == 0 then none else some (word * 64 + (63 - leading_zeros 64 (word_at o word)))
prev_in_summary o sw (suc n) =
    let rest = prev_in_summary o (suc n * 64 - 1) n in
    let effective = bits_to (summary_at o (suc n)) (sw % 64) in
    let word = suc n * 64 + (63 - leading_zeros 64 effective) in
    if effective == 0 then rest else some (word * 64 + (63 - leading_zeros 64 (word_at o word)))

-- `prev_set_from` at an index whose word is in range.
prev_from_word : Occupancy → ℕ → Option ℕ
prev_from_word o idx =
    let start_word = idx / 64 in
    let masked = bits_to (word_at o start_word) (idx % 64) in
    let sw = start_word - 1 in
    if masked == 0
    then if start_word == 0 then none else prev_in_summary o sw (sw / 64)
    else some (start_word * 64 + (63 - leading_zeros 64 masked))

unfoldable pub prev_set_from : Occupancy → ℕ → Option ℕ
unfolding prev_in_summary prev_from_word
prev_set_from o idx =
    if length o.words == 0
    then none
    else if leb (length o.words) (idx / 64)
    then prev_from_word o (length o.words * 64 - 1)
    else prev_from_word o idx
