-- ===== src/Book/Occupancy/Words.antt =====
-- What the summary says of a word, and the two search specifications, for the searches of
-- crates/cerdic-tee-matcher/src/book.rs.
use cerdic.Prelude.{
  ℕ, ◌/◌, ◌%◌, ◌≤◌, ◌<◌, ◌≡◌, ◌≢◌, Bool, true, false, Option, none, some, arith, inl, inr,
  Bool-cases, length, get_or_past, leb,
}
use cerdic.Book.Bits.{bit}
use cerdic.Book.Bits.Laws.{bit-zero}
use cerdic.Book.Occupancy.{Occupancy, word_at, summary_at, is_set}
use cerdic.Book.Occupancy.Laws.{IsValid, is_set_lem}

-- The least index at or after `i` that passes the test.
abbrev pub IsNext : (ℕ → Bool) → ℕ → Option ℕ → Type 0
IsNext p i none = (j : ℕ) → i ≤ j → p j ≡ false
IsNext p i (some k) = (i ≤ k) × (p k ≡ true) × ((j : ℕ) → i ≤ j → j < k → p j ≡ false)

-- The greatest index at or before `i` that passes the test.
abbrev pub IsPrev : (ℕ → Bool) → ℕ → Option ℕ → Type 0
IsPrev p i none = (j : ℕ) → j ≤ i → p j ≡ false
IsPrev p i (some k) = (k ≤ i) × (p k ≡ true) × ((j : ℕ) → k < j → j ≤ i → p j ≡ false)

pub IsNext-extend :
    (p : ℕ → Bool) (a b : ℕ) (r : Option ℕ)
    → a ≤ b
    → ((j : ℕ) → a ≤ j → j < b → p j ≡ false)
    → IsNext p b r
    → IsNext p a r
IsNext-extend p a b none h gap n = λ j l. elim (Bool-cases (leb b j)) [
  | inl e ↦ n j (ground arith)
  | inr e ↦ gap j l (ground arith)
]
IsNext-extend p a b (some k) h gap n = (
  omega (arith, n.0),
  n.1,
  λ j l u. elim (Bool-cases (leb b j)) [
    | inl e ↦ n.2 j (ground arith) u
    | inr e ↦ gap j l (ground arith)
  ],
)

pub IsPrev-extend :
    (p : ℕ → Bool) (a b : ℕ) (r : Option ℕ)
    → b ≤ a
    → ((j : ℕ) → b < j → j ≤ a → p j ≡ false)
    → IsPrev p b r
    → IsPrev p a r
IsPrev-extend p a b none h gap n = λ j l. elim (Bool-cases (leb j b)) [
  | inl e ↦ n j (ground arith)
  | inr e ↦ gap j (ground arith) l
]
IsPrev-extend p a b (some k) h gap n = (
  omega (arith, n.0),
  n.1,
  λ j l u. elim (Bool-cases (leb j b)) [
    | inl e ↦ n.2 j l (ground arith)
    | inr e ↦ gap j (ground arith) u
  ],
)

module _ (o : Occupancy) (v : IsValid o) where
  -- A word whose summary bit is not set has no bit.
  pub unset_of_summary :
      (j : ℕ) → bit (summary_at o (j / 64 / 64)) (j / 64 % 64) ≡ false → is_set o j ≡ false
  unset_of_summary j e = rw (is_set_lem o j) (ground (arith, v.tracks (j / 64), bit-zero (j % 64)))

  -- A word whose summary bit is set is in range, is not 0, and has a first and a last bit.
  pub word_ne_zero : (w : ℕ) → bit (summary_at o (w / 64)) (w % 64) ≡ true → word_at o w ≢ 0
  word_ne_zero w e z = ground (arith, v.tracks w)

  pub in_range : (w : ℕ) → word_at o w ≢ 0 → w < length o.words
  in_range w h = elim (Bool-cases (leb (length o.words) w)) [
    | inl e ↦ absurd (h (get_or_past o.words w 0 (ground arith)))
    | inr e ↦ ground arith
  ]

  pub unset_past : (j : ℕ) → length o.words ≤ j / 64 → is_set o j ≡ false
  unset_past j h = rw (is_set_lem o j, get_or_past o.words (j / 64) 0 h) (bit-zero (j % 64))
