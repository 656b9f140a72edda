-- ===== src/Book/Occupancy/Laws.antt =====
-- The invariant of the bitmap, and its bits under each operation that changes them.
use cerdic.Prelude.{
  ℕ, zero, suc, ◌+◌, ◌-◌, ◌*◌, ◌/◌, ◌%◌, ◌^◌, ◌≤◌, ◌<◌, ◌≡◌, refl, ap, ◌∙◌, Bool, true, false, not,
  ◌&&◌, arith, inl, inr, Bool-cases, length, ltb, leb, ◌==◌, if◌then◌else◌, get_or-resize,
  get_or-set, get_or_past, length-resize, length-set,
}
use cerdic.Book.Bits.{bit, set_bit, clear_bit}
use cerdic.Book.Bits.Laws.{
  bit-zero, bit-set_bit_self, bit-set_bit_ne, bit-clear_bit_self, bit-clear_bit_ne, set_bit_lt,
  clear_bit_le, ne_zero_of_bit,
}
use cerdic.Book.Occupancy.{
  Occupancy, empty, div_ceil, word_at, summary_at, ensure_len, mark, set, clear, is_set, copy_from,
  shift_up,
}

-- Words are 64 bits wide, there is a summary bit for each word, and it says whether the word is 0.
pub record IsValid (o : Occupancy) : Type 0 where
  pub words_fit : (w : ℕ) → word_at o w < 2 ^ 64
  pub summary_fits : (s : ℕ) → summary_at o s < 2 ^ 64
  pub sized : length o.summary ≡ div_ceil (length o.words)
  pub tracks : (w : ℕ) → bit (summary_at o (w / 64)) (w % 64) ≡ not (word_at o w == 0)

pub empty-IsValid : IsValid empty
empty-IsValid = record {
  words_fit = λ w. omega arith;
  summary_fits = λ w. omega arith;
  sized = refl;
  tracks = λ w. rw (bit-zero (w % 64)) refl;
}

-- The range test of `is_set` changes nothing.
pub is_set_lem : (o : Occupancy) (i : ℕ) → is_set o i ≡ bit (word_at o (i / 64)) (i % 64)
unfolding is_set
is_set_lem o i = elim (Bool-cases (ltb (i / 64) (length o.words))) [
  | inl e ↦ rw e refl
  | inr e ↦ ground (arith, get_or_past o.words (i / 64) 0, bit-zero (i % 64))
]

pub is_set-none : (k : ℕ) → is_set empty k ≡ false
is_set-none k = is_set_lem empty k ∙ bit-zero (k % 64)

ensure_len_words : (o : Occupancy) (n w : ℕ) → word_at (ensure_len o n) w ≡ word_at o w
unfolding ensure_len
ensure_len_words o n w = ground (arith, get_or-resize o.words (div_ceil n) w 0)

ensure_len_summary :
    (o : Occupancy) (n s : ℕ) → IsValid o → summary_at (ensure_len o n) s ≡ summary_at o s
unfolding ensure_len
ensure_len_summary o n s v =
    ground (arith, v.sized, get_or-resize o.summary (div_ceil (div_ceil n)) s 0)

ensure_len_covers : (o : Occupancy) (n : ℕ) → div_ceil n ≤ length (ensure_len o n).words
unfolding ensure_len
ensure_len_covers o n = ground (arith, length-resize o.words (div_ceil n) 0)

ensure_len_sized :
    (o : Occupancy) (n : ℕ)
    → IsValid o
    → length (ensure_len o n).summary ≡ div_ceil (length (ensure_len o n).words)
unfolding ensure_len
ensure_len_sized o n v = ground (
  arith,
  v.sized,
  length-resize o.words (div_ceil n) 0,
  length-resize o.summary (div_ceil (div_ceil n)) 0,
)

pub ensure_len-IsValid : (o : Occupancy) (n : ℕ) → IsValid o → IsValid (ensure_len o n)
ensure_len-IsValid o n v = record {
  words_fit = λ w. rw (ensure_len_words o n w) (v.words_fit w);
  summary_fits = λ s. rw (ensure_len_summary o n s v) (v.summary_fits s);
  sized = ensure_len_sized o n v;
  tracks = λ w. rw (ensure_len_words o n w, ensure_len_summary o n (w / 64) v) (v.tracks w);
}

-- Making room changes no bit.
pub is_set-ensure_len : (o : Occupancy) (n i : ℕ) → is_set (ensure_len o n) i ≡ is_set o i
is_set-ensure_len o n i =
    rw (is_set_lem (ensure_len o n) i, is_set_lem o i, ensure_len_words o n (i / 64)) refl

module _ (o : Occupancy) (i : ℕ) (h : i / 64 < length o.words) (v : IsValid o) where
  in_summary : i / 64 / 64 < length o.summary
  in_summary = rw v.sized (omega arith)

  mark_words :
      (w : ℕ)
      → word_at (mark o i) w
        ≡ (if i / 64 == w then set_bit (word_at o (i / 64)) (i % 64) else word_at o w)
  unfolding mark
  mark_words w = get_or-set o.words (i / 64) w _ 0 h

  mark_summary :
      (s : ℕ)
      → summary_at (mark o i) s ≡ (
          if i / 64 / 64 == s
          then set_bit (summary_at o (i / 64 / 64)) (i / 64 % 64)
          else summary_at o s)
  unfolding mark
  mark_summary s = get_or-set o.summary (i / 64 / 64) s _ 0 in_summary

  mark_tracks :
      (w : ℕ) → bit (summary_at (mark o i) (w / 64)) (w % 64) ≡ not (word_at (mark o i) w == 0)
  mark_tracks w = ground (
    arith,
    mark_words w,
    mark_summary (w / 64),
    v.tracks w,
    bit-set_bit_self (summary_at o (i / 64 / 64)) (i / 64 % 64),
    bit-set_bit_ne (summary_at o (i / 64 / 64)) (i / 64 % 64) (w % 64),
    ne_zero_of_bit (set_bit (word_at o (i / 64)) (i % 64)) (i % 64),
    bit-set_bit_self (word_at o (i / 64)) (i % 64),
  )

  mark_sized : length (mark o i).summary ≡ div_ceil (length (mark o i).words)
  unfolding mark
  mark_sized = omega (
    arith,
    v.sized,
    length-set o.words (i / 64) (set_bit (word_at o (i / 64)) (i % 64)),
    length-set o.summary (i / 64 / 64) (set_bit (summary_at o (i / 64 / 64)) (i / 64 % 64)),
  )

  mark-IsValid : IsValid (mark o i)
  mark-IsValid = record {
    words_fit = λ w. ground (
      arith,
      mark_words w,
      v.words_fit w,
      v.words_fit (i / 64),
      set_bit_lt 64 (word_at o (i / 64)) (i % 64),
    );
    summary_fits = λ s. ground (
      arith,
      mark_summary s,
      v.summary_fits s,
      v.summary_fits (i / 64 / 64),
      set_bit_lt 64 (summary_at o (i / 64 / 64)) (i / 64 % 64),
    );
    sized = mark_sized;
    tracks = mark_tracks;
  }

  is_set-mark : (j : ℕ) → is_set (mark o i) j ≡ (if i == j then true else is_set o j)
  is_set-mark j =
      rw (is_set_lem (mark o i) j, is_set_lem o j)
        (ground (
          arith,
          mark_words (j / 64),
          bit-set_bit_self (word_at o (i / 64)) (i % 64),
          bit-set_bit_ne (word_at o (i / 64)) (i % 64) (j % 64),
        ))

set_in_range : (o : Occupancy) (i : ℕ) → i / 64 < length (ensure_len o (i + 1)).words
set_in_range o i = omega (arith, ensure_len_covers o (i + 1))

-- `set` keeps a valid bitmap valid.
pub set-IsValid : (o : Occupancy) (i : ℕ) → IsValid o → IsValid (set o i)
unfolding set
set-IsValid o i v =
    mark-IsValid (ensure_len o (i + 1)) i (set_in_range o i) (ensure_len-IsValid o (i + 1) v)

-- On a valid bitmap, `set` sets its bit, making room for it, and changes no other.
pub is_set-set :
    (o : Occupancy) (i j : ℕ)
    → IsValid o
    → is_set (set o i) j ≡ (if i == j then true else is_set o j)
unfolding set
is_set-set o i j v =
    is_set-mark (ensure_len o (i + 1)) i (set_in_range o i) (ensure_len-IsValid o (i + 1) v) j
    ∙ ap (λ (b : Bool). if i == j then true else b) (is_set-ensure_len o (i + 1) j)

module _ (o : Occupancy) (i : ℕ) (h : i / 64 < length o.words) (v : IsValid o) where
  clear_words :
      (w : ℕ)
      → word_at (clear o i) w
        ≡ (if i / 64 == w then clear_bit (word_at o (i / 64)) (i % 64) else word_at o w)
  unfolding clear
  clear_words w =
      ground (arith, get_or-set o.words (i / 64) w (clear_bit (word_at o (i / 64)) (i % 64)) 0)

  clear_summary :
      (s : ℕ)
      → summary_at (clear o i) s ≡ (
          if (clear_bit (word_at o (i / 64)) (i % 64) == 0) && (i / 64 / 64 == s)
          then clear_bit (summary_at o (i / 64 / 64)) (i / 64 % 64)
          else summary_at o s)
  unfolding clear
  clear_summary s = ground (
    arith,
    in_summary o i h v,
    get_or-set o.summary (i / 64 / 64) s (clear_bit (summary_at o (i / 64 / 64)) (i / 64 % 64)) 0,
  )

  clear_tracks :
      (w : ℕ) → bit (summary_at (clear o i) (w / 64)) (w % 64) ≡ not (word_at (clear o i) w == 0)
  clear_tracks w = ground (
    arith,
    clear_words w,
    clear_summary (w / 64),
    v.tracks w,
    clear_bit_le (word_at o (i / 64)) (i % 64),
    bit-clear_bit_self (summary_at o (i / 64 / 64)) (i / 64 % 64),
    bit-clear_bit_ne (summary_at o (i / 64 / 64)) (i / 64 % 64) (w % 64),
  )

  clear_sized : length (clear o i).summary ≡ div_ceil (length (clear o i).words)
  unfolding clear
  clear_sized = ground (
    arith,
    v.sized,
    length-set o.words (i / 64) (clear_bit (word_at o (i / 64)) (i % 64)),
    length-set o.summary (i / 64 / 64) (clear_bit (summary_at o (i / 64 / 64)) (i / 64 % 64)),
  )

  clear_in_range-IsValid : IsValid (clear o i)
  clear_in_range-IsValid = record {
    words_fit = λ w. ground (
      arith,
      clear_words w,
      v.words_fit w,
      v.words_fit (i / 64),
      clear_bit_le (word_at o (i / 64)) (i % 64),
    );
    summary_fits = λ s. ground (
      arith,
      clear_summary s,
      v.summary_fits s,
      v.summary_fits (i / 64 / 64),
      clear_bit_le (summary_at o (i / 64 / 64)) (i / 64 % 64),
    );
    sized = clear_sized;
    tracks = clear_tracks;
  }

  is_set-clear_in_range : (j : ℕ) → is_set (clear o i) j ≡ (if i == j then false else is_set o j)
  is_set-clear_in_range j =
      rw (is_set_lem (clear o i) j, is_set_lem o j)
        (ground (
          arith,
          clear_words (j / 64),
          bit-clear_bit_self (word_at o (i / 64)) (i % 64),
          bit-clear_bit_ne (word_at o (i / 64)) (i % 64) (j % 64),
        ))

clear_past : (o : Occupancy) (i : ℕ) → length o.words ≤ i / 64 → clear o i ≡ o
unfolding clear
clear_past o i h = ground arith

is_set_past : (o : Occupancy) (i : ℕ) → length o.words ≤ i / 64 → is_set o i ≡ false
is_set_past o i h = rw (is_set_lem o i, get_or_past o.words (i / 64) 0 h) (bit-zero (i % 64))

-- `clear` keeps a valid bitmap valid: the summary still says which words are 0.
pub clear-IsValid : (o : Occupancy) (i : ℕ) → IsValid o → IsValid (clear o i)
clear-IsValid o i v = elim (Bool-cases (ltb (i / 64) (length o.words))) [
  | inl e ↦ clear_in_range-IsValid o i (ground arith) v
  | inr e ↦ rw (clear_past o i (ground arith)) v
]

-- On a valid bitmap, `clear` clears its bit and changes no other, in range or not.
pub is_set-clear :
    (o : Occupancy) (i j : ℕ)
    → IsValid o
    → is_set (clear o i) j ≡ (if i == j then false else is_set o j)
is_set-clear o i j v = elim (Bool-cases (ltb (i / 64) (length o.words))) [
  | inl e ↦ is_set-clear_in_range o i (ground arith) v j
  | inr e ↦ rw (clear_past o i (ground arith)) (ground (arith, is_set_past o i (ground arith)))
]

module _ (o : Occupancy) (shift : ℕ) where
  copy_from-IsValid : (n i : ℕ) (s : Occupancy) → IsValid s → IsValid (copy_from o shift n i s)
  unfolding copy_from
  copy_from-IsValid zero i s v = v
  copy_from-IsValid (suc n) i s v = elim (Bool-cases (is_set o i)) [
    | inl e ↦ rw e (copy_from-IsValid n (suc i) (set s (i + shift)) (set-IsValid s (i + shift) v))
    | inr e ↦ rw e (copy_from-IsValid n (suc i) s v)
  ]

  -- The copy has the bits of the source that the loop still visits, `shift` places up, and its own.
  is_set-copy_from :
      (n i k : ℕ) (s : Occupancy)
      → IsValid s
      → is_set (copy_from o shift n i s) k ≡ (
          if leb (i + shift) k && ltb k (i + n + shift) && is_set o (k - shift)
          then true
          else is_set s k)
  unfolding copy_from
  is_set-copy_from zero i k s v = ground arith
  is_set-copy_from (suc n) i k s v = elim (Bool-cases (is_set o i)) [
    | inl e ↦ rw e (
        ground (
          arith,
          is_set-copy_from n (suc i) k (set s (i + shift)) (set-IsValid s (i + shift) v),
          is_set-set s (i + shift) k v,
        ))
    | inr e ↦ rw e (ground (arith, is_set-copy_from n (suc i) k s v))
  ]

is_set-empty : (n k : ℕ) → is_set (ensure_len empty n) k ≡ false
is_set-empty n k = is_set-ensure_len empty n k ∙ is_set_lem empty k ∙ bit-zero (k % 64)

pub shift_up-IsValid : (o : Occupancy) (shift n : ℕ) → IsValid (shift_up o shift n)
unfolding shift_up
shift_up-IsValid o shift n =
    copy_from-IsValid o shift (length o.words * 64) 0 (ensure_len empty n)
      (ensure_len-IsValid empty n empty-IsValid)

-- `shift_up` moves every bit up by `shift` and leaves none below.
pub is_set-shift_up :
    (o : Occupancy) (shift n k : ℕ)
    → is_set (shift_up o shift n) k ≡ (leb shift k && is_set o (k - shift))
unfolding shift_up
is_set-shift_up o shift n k = ground (
  arith,
  is_set-copy_from o shift (length o.words * 64) 0 k (ensure_len empty n)
      (ensure_len-IsValid empty n empty-IsValid),
  is_set-empty n k,
  is_set_past o (k - shift),
)
