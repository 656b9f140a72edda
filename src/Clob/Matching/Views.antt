-- ===== src/Clob/Matching/Views.antt =====
-- The queues of a book of crates/clob/src/lib.rs when the map of one side is another.
use cerdic.Prelude.{ℕ, ◌≡◌, ◌≢◌, refl, sym, subst, ◌∙◌, inl, inr, lookup}
use cerdic.Common.{Side, long, short, side_cases}
use cerdic.Clob.Levels.{Levels, or_empty}
use cerdic.Clob.State.{OrderBook, put_levels, queue_at}
use cerdic.Clob.Index.{Queues, Elsewhere}

-- The queues of a book, with other levels on one side.
abbrev pub view : OrderBook → Side → Levels → Queues
view b s ls = queue_at (put_levels b s ls)

pub view_here :
    (b : OrderBook) (s : Side) (ls : Levels) (p : ℕ) → view b s ls s p ≡ or_empty (lookup p ls)
view_here b long ls p = refl
view_here b short ls p = refl

pub view_away :
    (b : OrderBook) (s s' : Side) (ls : Levels) (p : ℕ)
    → s ≢ s'
    → view b s ls s' p ≡ queue_at b s' p
view_away b long long ls p h = absurd (h refl)
view_away b long short ls p h = refl
view_away b short long ls p h = refl
view_away b short short ls p h = absurd (h refl)

-- Two maps that differ at one key give queues that differ there.
pub view-Elsewhere :
    (b : OrderBook) (s : Side) (ls ls' : Levels) (p : ℕ)
    → ((p' : ℕ) → p ≢ p' → or_empty (lookup p' ls') ≡ or_empty (lookup p' ls))
    → Elsewhere (view b s ls) (view b s ls') s p
view-Elsewhere b s ls ls' p h s' p' ne = elim (side_cases s s') [
  | inl e ↦
      subst (λ (x : Side). view b s ls' x p' ≡ view b s ls x p') e
        (view_here b s ls' p' ∙ h p' (λ ep. ne e ep) ∙ sym (view_here b s ls p'))
  | inr n ↦ view_away b s s' ls' p' n ∙ sym (view_away b s s' ls p' n)
]
