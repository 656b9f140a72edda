-- ===== src/Clob/Modify/Effects.antt =====
-- What `modify_order` of crates/clob/src/lib.rs promises: the errors, and the two ways to change an order.
use cerdic.Prelude.{
  ℕ, ◌<◌, ◌≡◌, ◌≢◌, refl, sym, ap, ◌∙◌, inl, inr, true, false, Bool-cases, Option, none, some,
  arith, lookup, ◌==◌, if◌then◌else◌, push, Option-cases, eq_of_test, ne_of_test,
}
use cerdic.Prelude.Int.{ℤ, pos, negsuc, unsigned_abs}
use cerdic.Common.{Side, long, short}
use cerdic.Clob.Types.{
  Order, i128_end, side_agrees_with_size, ok, ◌>>=◌, ClobError, order_not_found, zero_size,
  zero_price, side_size_sign_mismatch,
}
use cerdic.Clob.Levels.{ids}
use cerdic.Clob.State.{BookLocation, OrderBook, queue_at, order, order_ids_at}
use cerdic.Clob.Orders.{edit_in_place, move_order, modify_order}
use cerdic.Clob.Index.{Elsewhere, at}
use cerdic.Clob.Invariant.{IsValid, index-put_levels}
use cerdic.Clob.Writes.{swept_queue}
use cerdic.Clob.Removal.{without, taken_at, looks_up, removed_queue, removed_away, levels_after}
use cerdic.Clob.Modify.{
  resized, ids-resized, edited, edited_levels, edited-Elsewhere, edits, queue_at-edited,
  edited-IsValid,
}
use cerdic.Clob.Modify.Move.{
  moved, moved_book, moves, moved_book-IsValid, queue_at-moved_book, moved_book-removed,
}
use cerdic.Clob.Modify.Answers.{
  Answers, no_size, no_price, not_live, wrong_sign, no_error, refused_size, refused_price,
  refused_id, refused_sign,
}

-- A change that passes the checks.
modify_order-taken :
    (b : OrderBook) (i : ℕ) (l : BookLocation) (np : ℕ) (n : ℤ)
    → lookup i b.index ≡ some l
    → (unsigned_abs n == 0) ≡ false
    → (np == 0) ≡ false
    → side_agrees_with_size l.side n ≡ true
    → modify_order b i np n ≡ (
        (if l.price == np then edit_in_place b l i n else move_order b l i np n)
        >>= (λ b'. ok (none, b')))
unfolding modify_order
modify_order-taken b i l np n e z zp a = rw (modify_order, e, z, zp, a) refl

nonzero : (s : Side) (n : ℤ) → side_agrees_with_size s n ≡ true → (unsigned_abs n == 0) ≡ false
nonzero long (pos n) h = ground arith
nonzero long (negsuc n) h = ground arith
nonzero short (pos n) h = ground arith
nonzero short (negsuc n) h = ground arith

module _ (b : OrderBook) (i : ℕ) (s : Side) (p : ℕ) (v : IsValid b)
    (known : lookup i b.index ≡ some (at s p)) (n : ℤ) (right : side_agrees_with_size s n ≡ true)
    (small : unsigned_abs n < i128_end) where
  run_edit : p ≢ 0 → modify_order b i p n ≡ ok (none, edited b v i s p known n right small)
  run_edit nz =
      let zp : (p == 0) ≡ false = ground arith in
      let here : (p == p) ≡ true = ground arith in
      modify_order-taken b i (at s p) p n known (nonzero s n right) zp right
      ∙ rw (here, edits b v i s p known n right small) refl

  run_move :
      (np : ℕ)
      → np ≢ 0
      → p ≢ np
      → modify_order b i np n ≡ ok (none, moved_book b v i s p known np n right small)
  run_move np nz ne =
      let zp : (np == 0) ≡ false = ground arith in
      let away : (p == np) ≡ false = ground arith in
      modify_order-taken b i (at s p) np n known (nonzero s n right) zp right
      ∙ rw (away, moves b v i s p known np n right small) refl

-- On a valid book, `modify_order` of a live order to its own price, which is not 0, and to a size of its
-- side, in range, writes the size and nothing else: the queue keeps its order, and every other queue and
-- the index are as they were.
pub modify_order-resized :
    (b : OrderBook) (i : ℕ) (s : Side) (p : ℕ) (n : ℤ)
    → IsValid b
    → lookup i b.index ≡ some (at s p)
    → side_agrees_with_size s n ≡ true
    → unsigned_abs n < i128_end
    → p ≢ 0
    → (b' : OrderBook) × (modify_order b i p n ≡ ok (none, b'))
      × IsValid b'
      × (queue_at b' s p ≡ resized i n (queue_at b s p))
      × (order_ids_at b' s p ≡ order_ids_at b s p)
      × Elsewhere (queue_at b) (queue_at b') s p
      × (b'.index ≡ b.index)
modify_order-resized b i s p n v known right small nz = (
  edited b v i s p known n right small,
  run_edit b i s p v known n right small nz,
  edited-IsValid b v i s p known n right small,
  queue_at-edited b v i s p known n right small,
  ap ids (queue_at-edited b v i s p known n right small) ∙ ids-resized i n (queue_at b s p),
  edited-Elsewhere b v i s p known n right small,
  index-put_levels b s (edited_levels b v i s p known n right small),
)

-- On a valid book, `modify_order` of a live order to another price, which is not 0, and to a size of its
-- side, in range, takes the order that `order` finds out of its queue, and puts it with the new price and
-- size at the back of the queue of the new price.
pub modify_order-push :
    (b : OrderBook) (i : ℕ) (s : Side) (p q : ℕ) (n : ℤ)
    → IsValid b
    → lookup i b.index ≡ some (at s p)
    → side_agrees_with_size s n ≡ true
    → unsigned_abs n < i128_end
    → q ≢ 0
    → p ≢ q
    → (found : Order) × (b' : OrderBook) × (modify_order b i q n ≡ ok (none, b'))
      × IsValid b'
      × (order b i ≡ some found)
      × (queue_at b' s p ≡ without i (queue_at b s p))
      × (queue_at b' s q ≡ push (queue_at b s q) (record found { price = q; size = n }))
modify_order-push b i s p q n v known right small nz ne = (
  (taken_at b v i s p known).removed,
  moved_book b v i s p known q n right small,
  run_move b i s p v known n right small q nz ne,
  moved_book-IsValid b v i s p known q n right small,
  looks_up b v i s p known,
  moved_book-removed b v i s p known q n right small p (λ e. ne (sym e))
      ∙ swept_queue b s (levels_after b v i s p known) _ s p
      ∙ removed_queue b v i s p known,
  queue_at-moved_book b v i s p known q n right small
      ∙ ap (λ os. push os (moved b v i s p known q n right small))
          (swept_queue b s (levels_after b v i s p known) _ s q
            ∙ removed_away b v i s p known s q (λ e h. ne h)),
)

-- A change that passes the checks leaves a valid book.
changed :
    (b : OrderBook) (i np : ℕ) (n : ℤ) (l : BookLocation)
    → IsValid b
    → lookup i b.index ≡ some l
    → side_agrees_with_size l.side n ≡ true
    → unsigned_abs n < i128_end
    → np ≢ 0
    → (b' : OrderBook) × (modify_order b i np n ≡ ok (none, b')) × IsValid b'
changed b i np n l v e a small nz = elim (Bool-cases (l.price == np)) [
  | inl h ↦
      let same : l.price ≡ np = eq_of_test l.price np h in
      let r = run_edit b i l.side l.price v e n a small (λ z. nz (sym same ∙ z)) in
      (
        edited b v i l.side l.price e n a small,
        ap (λ (k : ℕ). modify_order b i k n) (sym same) ∙ r,
        edited-IsValid b v i l.side l.price e n a small,
      )
  | inr h ↦ (
    moved_book b v i l.side l.price e np n a small,
    run_move b i l.side l.price v e n a small np nz (ne_of_test l.price np h),
    moved_book-IsValid b v i l.side l.price e np n a small,
  )
]

-- On a valid book, `modify_order` to a size in range ends without a panic for every id, price and size. Its
-- answer is the first of these errors that applies, and none where none does: a zero size, a zero price, an
-- id that is not live, a size whose sign is not the order's side's. An error changes nothing, and the book
-- stays valid.
pub modify_order-IsValid :
    (b : OrderBook) (i np : ℕ) (n : ℤ)
    → IsValid b
    → unsigned_abs n < i128_end
    → (error : Option ClobError) × (b' : OrderBook) × (modify_order b i np n ≡ ok (error, b'))
      × IsValid b'
      × (error ≢ none → b' ≡ b)
      × Answers b i np n error
modify_order-IsValid b i np n v small = elim (Bool-cases (unsigned_abs n == 0)) [
  | inl z ↦
      let e = eq_of_test (unsigned_abs n) 0 z in
      (some zero_size, b, refused_size b i np n z, v, λ h. refl, no_size e)
  | inr z ↦
      let sized = ne_of_test (unsigned_abs n) 0 z in
      elim (Bool-cases (np == 0)) [
        | inl zp ↦ (
          some zero_price,
          b,
          refused_price b i np n z zp,
          v,
          λ h. refl,
          no_price sized (eq_of_test np 0 zp),
        )
        | inr zp ↦
            let priced = ne_of_test np 0 zp in
            elim (Option-cases (lookup i b.index)) [
              | inl e ↦ (
                some (order_not_found i),
                b,
                refused_id b i np n z zp e,
                v,
                λ h. refl,
                not_live sized priced e,
              )
              | inr (l, e) ↦ elim (Bool-cases (side_agrees_with_size l.side n)) [
                | inr a ↦ (
                  some (side_size_sign_mismatch i l.side n),
                  b,
                  refused_sign b i np n l z zp e a,
                  v,
                  λ h. refl,
                  wrong_sign l sized priced e a,
                )
                | inl a ↦
                    let r = changed b i np n l v e a small priced in
                    (none, r.0, r.1, r.2, λ k. absurd (k refl), no_error l sized priced e a)
              ]
            ]
      ]
]
