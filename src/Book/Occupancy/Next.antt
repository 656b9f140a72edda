-- ===== src/Book/Occupancy/Next.antt =====
-- `next_set_from` of crates/cerdic-tee-matcher/src/book.rs against the first set bit.
use cerdic.Prelude.{
  ℕ, zero, suc, ◌+◌, ◌*◌, ◌/◌, ◌%◌, ◌^◌, ◌≤◌, ◌<◌, ◌≡◌, ◌≢◌, true, false, none, some, arith, inl,
  inr, Bool-cases, ◌&&◌, length, get_or_past, leb, ◌==◌, if◌then◌else◌,
}
use cerdic.Book.Bits.{bit, bits_from, trailing_zeros}
use cerdic.Book.Bits.Laws.{bit-zero, bit-bits_from, bits_from_le, first_bit}
use cerdic.Book.Occupancy.{
  Occupancy, word_at, summary_at, is_set, effective_from, next_in_summary, next_set_from,
}
use cerdic.Book.Occupancy.Laws.{IsValid, is_set_lem}
use cerdic.Book.Occupancy.Words

module _ (o : Occupancy) (v : IsValid o) where
  first_in_word :
      (w i : ℕ)
      → i ≤ w * 64
      → word_at o w ≢ 0
      → ((j : ℕ) → i ≤ j → j < w * 64 → is_set o j ≡ false)
      → Words.IsNext (is_set o) i (some (w * 64 + trailing_zeros 64 (word_at o w)))
  first_in_word w i h nz gap =
      let (lt, found, below) = first_bit (word_at o w) (v.words_fit w) nz in
      let t = trailing_zeros 64 (word_at o w) in
      let q : (w * 64 + t) / 64 ≡ w = omega arith in
      let r : (w * 64 + t) % 64 ≡ t = omega arith in
      (
        omega arith,
        rw (is_set_lem o (w * 64 + t), q, r) found,
        λ j l u. elim (Bool-cases (leb (w * 64) j)) [
          | inl e ↦
              let q' : j / 64 ≡ w = ground arith in
              rw (is_set_lem o j, q') (below (j % 64) (ground arith))
          | inr e ↦ gap j l (ground arith)
        ],
      )

  bit-effective_from : (s m k : ℕ) → k < 64 → bit (effective_from s m) k ≡ (leb m k && bit s k)
  unfolding effective_from
  bit-effective_from s m k h = ground (arith, bit-bits_from s m k, bit-zero k)

  effective_from_fits : (s m : ℕ) → s < 2 ^ 64 → effective_from s m < 2 ^ 64
  unfolding effective_from
  effective_from_fits s m h = ground (arith, bits_from_le s m)

  -- What the source returns at a summary bit that it has found.
  summary_hit :
      (sw t i : ℕ)
      → t < 64
      → bit (summary_at o sw) t ≡ true
      → i ≤ (sw * 64 + t) * 64
      → ((j : ℕ) → i ≤ j → j < (sw * 64 + t) * 64 → is_set o j ≡ false)
      → Words.IsNext (is_set o) i (
          if leb (length o.words) (sw * 64 + t)
          then none
          else some ((sw * 64 + t) * 64 + trailing_zeros 64 (word_at o (sw * 64 + t))))
  summary_hit sw t i h b l gap =
      let q : (sw * 64 + t) / 64 ≡ sw = omega arith in
      let r : (sw * 64 + t) % 64 ≡ t = omega arith in
      let nz = Words.word_ne_zero o v (sw * 64 + t) (rw (q, r) b) in
      let range : leb (length o.words) (sw * 64 + t) ≡ false =
        ground (arith, Words.in_range o v (sw * 64 + t) nz) in
      rw range (first_in_word (sw * 64 + t) i l nz gap)

  next_in_summary-IsNext :
      (n sw m : ℕ)
      → length o.summary ≤ sw + n
      → m ≤ 64
      → Words.IsNext (is_set o) ((sw * 64 + m) * 64) (next_in_summary o n sw m)
  unfolding next_in_summary
  next_in_summary-IsNext zero sw m h l = λ j g.
      Words.unset_of_summary o v j
        (rw (get_or_past o.summary (j / 64 / 64) 0 (omega arith)) (bit-zero (j / 64 % 64)))
  next_in_summary-IsNext (suc n) sw m h l =
      elim (Bool-cases (effective_from (summary_at o sw) m == 0)) [
        | inl e ↦ rw e (
            Words.IsNext-extend (is_set o) ((sw * 64 + m) * 64) ((suc sw * 64 + 0) * 64) _
              (omega arith) (λ j a b. none_here (ground arith) j a (omega arith))
              (next_in_summary-IsNext n (suc sw) 0 (omega arith) (omega arith)))
        | inr e ↦
            let (lt, found, below) =
              first_bit (effective_from (summary_at o sw) m)
                (effective_from_fits _ m (v.summary_fits sw)) (ground arith) in
            let t = trailing_zeros 64 (effective_from (summary_at o sw) m) in
            let b = bit-effective_from (summary_at o sw) m t lt in
            rw e (
              summary_hit sw t ((sw * 64 + m) * 64) lt (ground arith) (ground arith)
                (λ j a c. before t below j a c lt))
      ]
    where
      none_here :
          effective_from (summary_at o sw) m ≡ 0
          → (j : ℕ) → (sw * 64 + m) * 64 ≤ j
          → j < (sw * 64 + 64) * 64
          → is_set o j ≡ false
      none_here e j a b =
          let q : j / 64 / 64 ≡ sw = omega arith in
          let k = j / 64 % 64 in
          let z : bit (effective_from (summary_at o sw) m) k ≡ false = rw e (bit-zero k) in
          Words.unset_of_summary o v j
            (rw q (ground (arith, bit-effective_from (summary_at o sw) m k)))

      before :
          (t : ℕ)
          → ((k : ℕ) → k < t → bit (effective_from (summary_at o sw) m) k ≡ false)
          → (j : ℕ) → (sw * 64 + m) * 64 ≤ j
          → j < (sw * 64 + t) * 64
          → t < 64
          → is_set o j ≡ false
      before t below j a b lt =
          let q : j / 64 / 64 ≡ sw = omega arith in
          let k = j / 64 % 64 in
          let z : bit (effective_from (summary_at o sw) m) k ≡ false = below k (omega arith) in
          Words.unset_of_summary o v j
            (rw q (ground (arith, bit-effective_from (summary_at o sw) m k)))

  -- The rest of the word at `i`, when no bit of it at or after `i` is set, and when one is.
  rest_zero :
      (i : ℕ)
      → bits_from (word_at o (i / 64)) (i % 64) ≡ 0
      → (j : ℕ) → i ≤ j
      → j / 64 ≡ i / 64
      → is_set o j ≡ false
  rest_zero i e j a q =
      let z : bit (bits_from (word_at o (i / 64)) (i % 64)) (j % 64) ≡ false =
        rw e (bit-zero (j % 64)) in
      rw (is_set_lem o j, q) (ground (arith, bit-bits_from (word_at o (i / 64)) (i % 64) (j % 64)))

  IsNext-in_word :
      (i : ℕ)
      → bits_from (word_at o (i / 64)) (i % 64) ≢ 0
      → Words.IsNext
          (is_set o)
          i
          (some (i / 64 * 64 + trailing_zeros 64 (bits_from (word_at o (i / 64)) (i % 64))))
  IsNext-in_word i nz =
      let w = word_at o (i / 64) in
      let fits : bits_from w (i % 64) < 2 ^ 64 =
        omega (arith, bits_from_le w (i % 64), v.words_fit (i / 64)) in
      let (lt, found, below) = first_bit (bits_from w (i % 64)) fits nz in
      let t = trailing_zeros 64 (bits_from w (i % 64)) in
      let q : (i / 64 * 64 + t) / 64 ≡ i / 64 = omega arith in
      let r : (i / 64 * 64 + t) % 64 ≡ t = omega arith in
      let b = bit-bits_from w (i % 64) t in
      (
        ground arith,
        rw (is_set_lem o (i / 64 * 64 + t), q, r) (ground arith),
        λ j l u.
            let q' : j / 64 ≡ i / 64 = omega arith in
            rw (is_set_lem o j, q')
              (ground (arith, below (j % 64), bit-bits_from w (i % 64) (j % 64))),
      )

  -- On a valid bitmap, `next_set_from` finds the first set bit at or after its index, and `none` only
  -- if there is none.
  pub next_set_from-IsNext : (i : ℕ) → Words.IsNext (is_set o) i (next_set_from o i)
  unfolding next_set_from
  next_set_from-IsNext i = elim (Bool-cases (leb (length o.words) (i / 64))) [
    | inl e ↦ rw e (λ j l. Words.unset_past o v j (ground arith))
    | inr e ↦ elim (Bool-cases (bits_from (word_at o (i / 64)) (i % 64) == 0)) [
      | inl z ↦
          rw (e, z)
            (Words.IsNext-extend (is_set o) i ((i / 64 / 64 * 64 + (i / 64 % 64 + 1)) * 64) _
              (omega arith) (λ j a b. rest_zero i (ground arith) j a (omega arith))
              (next_in_summary-IsNext _ (i / 64 / 64) (i / 64 % 64 + 1) (omega arith)
                (omega arith)))
      | inr nz ↦ rw (e, nz) (IsNext-in_word i (ground arith))
    ]
  ]
