-- ===== src/PlayHistory/Kept.antt =====
-- What holds of stored sessions as they are changed, added and forgotten.
use labaiacinghiala.Common.{
  ℕ, ◌+◌, ◌≤◌, Bool, true, not, ◌||◌, some, List, [], ◌∷◌, ◌++◌, ◌≡◌, refl, inl, inr, arith, Text,
  find, all, keep, update_rows, count_rows, Bool-cases, require, Returns, Returns->>=, JsNumber,
  trim,
}
use labaiacinghiala.PlayHistory.{PlaybackSession}
use labaiacinghiala.PlayHistory.Reports.{
  Payload, Input, invalid_session, is_session_id, normalize_event, normalize_payload,
  finite_seconds, input_of,
}
use labaiacinghiala.PlayHistory.Counts.{is_play, is_completion}

-- A session that was heard to the end passed the threshold.
unfoldable pub is_consistent : PlaybackSession → Bool
is_consistent s = not s.completed || s.qualified

-- What holds of all rows holds of the row found.
pub found_all :
    (p q : PlaybackSession → Bool) (rows : List PlaybackSession) {s : PlaybackSession}
    → all q rows ≡ true
    → find p rows ≡ some s
    → q s ≡ true
found_all p q [] h f = cc
found_all p q (r ∷ rows) {s} h f = elim (Bool-cases (p r)) [
  | inl is ↦ ground (arith, h, f, is)
  | inr other ↦ found_all p q rows {s = s} (ground (arith, h)) (rw other at f)
]

pub all-update :
    (p q : PlaybackSession → Bool) (change : PlaybackSession → PlaybackSession)
    (rows : List PlaybackSession)
    → all q rows ≡ true
    → ((s : PlaybackSession) → q (change s) ≡ true)
    → all q (update_rows p change rows) ≡ true
all-update p q change [] h k = refl
all-update p q change (r ∷ rows) h k = ground (arith, all-update p q change rows, k r)

pub all-insert :
    (q : PlaybackSession → Bool) (rows : List PlaybackSession) (s : PlaybackSession)
    → all q rows ≡ true
    → q s ≡ true
    → all q (rows ++ s ∷ []) ≡ true
all-insert q [] s h k = rw k refl
all-insert q (r ∷ rows) s h k = ground (arith, all-insert q rows s)

pub all-kept :
    (p q : PlaybackSession → Bool) (rows : List PlaybackSession)
    → all q rows ≡ true
    → all q (keep p rows) ≡ true
all-kept p q [] h = refl
all-kept p q (r ∷ rows) h = ground (arith, all-kept p q rows)

pub count-kept :
    (p q : PlaybackSession → Bool) (rows : List PlaybackSession)
    → count_rows q (keep p rows) ≤ count_rows q rows
count-kept p q [] = omega arith
count-kept p q (r ∷ rows) = ground (arith, count-kept p q rows)

-- With each completed session a qualified one is forgotten.
pub forgotten :
    (keeps : PlaybackSession → Bool) (t : ℕ) (p : Text) (rows : List PlaybackSession)
    → all is_consistent rows ≡ true
    → count_rows (is_play t p) (keep keeps rows) + count_rows (is_completion t p) rows
      ≤ count_rows (is_play t p) rows + count_rows (is_completion t p) (keep keeps rows)
unfolding is_consistent is_play is_completion
forgotten keeps t p [] h = omega arith
forgotten keeps t p (r ∷ rows) h = ground (arith, forgotten keeps t p rows, h)

pub completed-le :
    (t : ℕ) (p : Text) (rows : List PlaybackSession)
    → all is_consistent rows ≡ true
    → count_rows (is_completion t p) rows ≤ count_rows (is_play t p) rows
unfolding is_consistent is_play is_completion
completed-le t p [] h = omega arith
completed-le t p (r ∷ rows) h = ground (arith, completed-le t p rows, h)

pub input-consistent :
    (payload : Payload) (indexed : JsNumber)
    → Returns
        (λ (input : Input). (not input.completed || input.qualified) ≡ true)
        (normalize_payload payload indexed)
unfolding normalize_payload input_of
input-consistent payload indexed =
    Returns->>= _ (require (is_session_id (trim payload.session_id)) invalid_session) _ λ _ _.
      Returns->>= _ (normalize_event payload.event) _ λ event _.
        Returns->>= _ (finite_seconds payload.duration) _ λ requested _.
          Returns->>= _ (finite_seconds payload.position) _ λ position _.
            Returns->>= _ (finite_seconds payload.listened) _ λ listened _. ground arith
