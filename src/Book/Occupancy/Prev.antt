-- ===== src/Book/Occupancy/Prev.antt =====
-- `prev_set_from` of crates/cerdic-tee-matcher/src/book.rs against the last set bit.
use cerdic.Prelude.{
  ℕ, zero, suc, ◌+◌, ◌-◌, ◌*◌, ◌/◌, ◌%◌, ◌^◌, ◌≤◌, ◌<◌, ◌≡◌, ◌≢◌, true, false, some, arith, inl,
  inr, Bool-cases, length, leb, ◌==◌,
}
use cerdic.Book.Bits.{bit, bits_to, leading_zeros}
use cerdic.Book.Bits.Laws.{bit-zero, bit-bits_to, bits_to_le, last_bit}
use cerdic.Book.Occupancy.{
  Occupancy, word_at, summary_at, is_set, prev_in_summary, prev_from_word, prev_set_from,
}
use cerdic.Book.Occupancy.Laws.{IsValid, is_set_lem}
use cerdic.Book.Occupancy.Words

module _ (o : Occupancy) (v : IsValid o) where
  -- The last set bit of a word, when every bit between the word and `i` is clear.
  last_in_word :
      (w i : ℕ)
      → w * 64 + 63 ≤ i
      → word_at o w ≢ 0
      → ((j : ℕ) → w * 64 + 63 < j → j ≤ i → is_set o j ≡ false)
      → Words.IsPrev (is_set o) i (some (w * 64 + (63 - leading_zeros 64 (word_at o w))))
  last_in_word w i h nz gap =
      let (lt, found, above) = last_bit (word_at o w) (v.words_fit w) nz in
      let t = 63 - leading_zeros 64 (word_at o w) in
      let q : (w * 64 + t) / 64 ≡ w = omega arith in
      let r : (w * 64 + t) % 64 ≡ t = omega arith in
      (
        omega arith,
        rw (is_set_lem o (w * 64 + t), q, r) found,
        λ j l u. elim (Bool-cases (leb j (w * 64 + 63))) [
          | inl e ↦
              let q' : j / 64 ≡ w = ground arith in
              rw (is_set_lem o j, q') (above (j % 64) (ground arith) (omega arith))
          | inr e ↦ gap j (ground arith) u
        ],
      )

  -- What the source returns at a summary bit that it has found.
  summary_hit :
      (s t i : ℕ)
      → t < 64
      → bit (summary_at o s) t ≡ true
      → (s * 64 + t) * 64 + 63 ≤ i
      → ((j : ℕ) → (s * 64 + t) * 64 + 63 < j → j ≤ i → is_set o j ≡ false)
      → Words.IsPrev
          (is_set o)
          i
          (some ((s * 64 + t) * 64 + (63 - leading_zeros 64 (word_at o (s * 64 + t)))))
  summary_hit s t i h b l gap =
      let q : (s * 64 + t) / 64 ≡ s = omega arith in
      let r : (s * 64 + t) % 64 ≡ t = omega arith in
      last_in_word (s * 64 + t) i l (Words.word_ne_zero o v (s * 64 + t) (rw (q, r) b)) gap

  -- One round of the loop at word `sw`: the words of its summary word that it sees are all 0, or
  -- the last that is not holds the answer.
  round_zero :
      (sw : ℕ)
      → bits_to (summary_at o (sw / 64)) (sw % 64) ≡ 0
      → (j : ℕ) → sw / 64 * 4096 ≤ j
      → j ≤ sw * 64 + 63
      → is_set o j ≡ false
  round_zero sw e j a b =
      let q : j / 64 / 64 ≡ sw / 64 = omega arith in
      let k = j / 64 % 64 in
      let z : bit (bits_to (summary_at o (sw / 64)) (sw % 64)) k ≡ false = rw e (bit-zero k) in
      Words.unset_of_summary o v j
        (rw q (ground (arith, bit-bits_to (summary_at o (sw / 64)) (sw % 64) k)))

  round_hit :
      (sw : ℕ)
      → bits_to (summary_at o (sw / 64)) (sw % 64) ≢ 0
      → let word =
          sw / 64 * 64 + (63 - leading_zeros 64 (bits_to (summary_at o (sw / 64)) (sw % 64))) in
        Words.IsPrev
          (is_set o)
          (sw * 64 + 63)
          (some (word * 64 + (63 - leading_zeros 64 (word_at o word))))
  round_hit sw nz =
      let s = summary_at o (sw / 64) in
      let fits : bits_to s (sw % 64) < 2 ^ 64 =
        omega (arith, bits_to_le s (sw % 64), v.summary_fits (sw / 64)) in
      let (lt, found, above) = last_bit (bits_to s (sw % 64)) fits nz in
      let t = 63 - leading_zeros 64 (bits_to s (sw % 64)) in
      let b = bit-bits_to s (sw % 64) t in
      summary_hit (sw / 64) t (sw * 64 + 63) (omega arith) (ground arith) (ground arith) λ j l u.
        let q : j / 64 / 64 ≡ sw / 64 = omega arith in
        let k = j / 64 % 64 in
        Words.unset_of_summary o v j (rw q (ground (arith, above k, bit-bits_to s (sw % 64) k)))

  prev_in_summary-IsPrev :
      (n sw : ℕ) → sw / 64 ≡ n → Words.IsPrev (is_set o) (sw * 64 + 63) (prev_in_summary o sw n)
  unfolding prev_in_summary
  prev_in_summary-IsPrev zero sw e = elim (Bool-cases (bits_to (summary_at o 0) (sw % 64) == 0)) [
    | inl z ↦ rw z λ j l. round_zero sw (rw e (ground arith)) j (omega arith) l
    | inr nz ↦ rw nz (rw e at (round_hit sw (rw e (ground arith))))
  ]
  prev_in_summary-IsPrev (suc n) sw e =
      elim (Bool-cases (bits_to (summary_at o (suc n)) (sw % 64) == 0)) [
        | inl z ↦ rw z (
            Words.IsPrev-extend (is_set o) (sw * 64 + 63) ((suc n * 64 - 1) * 64 + 63) _
              (omega arith) (λ j a b. round_zero sw (rw e (ground arith)) j (omega arith) b)
              (prev_in_summary-IsPrev n (suc n * 64 - 1) (omega arith)))
        | inr nz ↦ rw nz (rw e at (round_hit sw (rw e (ground arith))))
      ]

  -- The word at `i`, when no bit of it at or before `i` is set, and when one is.
  rest_zero :
      (i : ℕ)
      → bits_to (word_at o (i / 64)) (i % 64) ≡ 0
      → (j : ℕ) → j ≤ i
      → j / 64 ≡ i / 64
      → is_set o j ≡ false
  rest_zero i e j a q =
      let z : bit (bits_to (word_at o (i / 64)) (i % 64)) (j % 64) ≡ false =
        rw e (bit-zero (j % 64)) in
      rw (is_set_lem o j, q) (ground (arith, bit-bits_to (word_at o (i / 64)) (i % 64) (j % 64)))

  IsPrev-in_word :
      (i : ℕ)
      → bits_to (word_at o (i / 64)) (i % 64) ≢ 0
      → Words.IsPrev
          (is_set o)
          i
          (some (i / 64 * 64 + (63 - leading_zeros 64 (bits_to (word_at o (i / 64)) (i % 64)))))
  IsPrev-in_word i nz =
      let w = word_at o (i / 64) in
      let fits : bits_to w (i % 64) < 2 ^ 64 =
        omega (arith, bits_to_le w (i % 64), v.words_fit (i / 64)) in
      let (lt, found, above) = last_bit (bits_to w (i % 64)) fits nz in
      let t = 63 - leading_zeros 64 (bits_to w (i % 64)) in
      let q : (i / 64 * 64 + t) / 64 ≡ i / 64 = omega arith in
      let r : (i / 64 * 64 + t) % 64 ≡ t = omega arith in
      let b = bit-bits_to w (i % 64) t in
      (
        ground arith,
        rw (is_set_lem o (i / 64 * 64 + t), q, r) (ground arith),
        λ j l u.
            let q' : j / 64 ≡ i / 64 = omega arith in
            rw (is_set_lem o j, q')
              (ground (arith, above (j % 64), bit-bits_to w (i % 64) (j % 64))),
      )

  prev_from_word-IsPrev : (i : ℕ) → Words.IsPrev (is_set o) i (prev_from_word o i)
  unfolding prev_from_word
  prev_from_word-IsPrev i = elim (Bool-cases (bits_to (word_at o (i / 64)) (i % 64) == 0)) [
    | inr nz ↦ rw nz (IsPrev-in_word i (ground arith))
    | inl z ↦ elim (Bool-cases (i / 64 == 0)) [
      | inl first ↦ rw (z, first) λ j l. rest_zero i (ground arith) j l (ground arith)
      | inr later ↦
          rw (z, later)
            (Words.IsPrev-extend (is_set o) i ((i / 64 - 1) * 64 + 63) _ (ground arith)
              (λ j a b. rest_zero i (ground arith) j b (ground arith))
              (prev_in_summary-IsPrev ((i / 64 - 1) / 64) (i / 64 - 1) (omega arith)))
    ]
  ]

  -- On a valid bitmap, `prev_set_from` finds the last set bit at or before its index, and `none` only
  -- if there is none.
  pub prev_set_from-IsPrev : (i : ℕ) → Words.IsPrev (is_set o) i (prev_set_from o i)
  unfolding prev_set_from
  prev_set_from-IsPrev i = elim (Bool-cases (length o.words == 0)) [
    | inl e ↦ rw e λ j l. Words.unset_past o v j (ground arith)
    | inr ne ↦ elim (Bool-cases (leb (length o.words) (i / 64))) [
      | inl past ↦
          rw (ne, past)
            (Words.IsPrev-extend (is_set o) i (length o.words * 64 - 1) _ (ground arith)
              (λ j a b. Words.unset_past o v j (ground arith))
              (prev_from_word-IsPrev (length o.words * 64 - 1)))
      | inr inside ↦ rw (ne, inside) (prev_from_word-IsPrev i)
    ]
  ]
