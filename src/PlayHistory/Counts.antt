-- ===== src/PlayHistory/Counts.antt =====
-- The counts of the history against the sessions that are stored.
use labaiacinghiala.Common.{
  ok-inj, ℕ, ◌+◌, ◌≤◌, max, Bool, true, false, not, ◌&&◌, ◌||◌, Option, none, some, List, [], ◌∷◌,
  ◌++◌, ◌≡◌, refl, inl, inr, arith, Text, text_eq, text_eq_iff, find, count_rows, count_rows-append,
  find-holds, find-append_new, find-update_rows, find-update_rows-none, ◌==◌, ==_iff, Bool-cases,
  Option-cases, ok, require, require-eq-ok, >>=-eq-ok, ap, sym, ◌∙◌, subst,
}
use labaiacinghiala.PlayHistory.{
  PlaybackSession, History, ListeningDb, Counted, one_if, has_session_id, is_history_of,
  is_conflict, was_qualified, was_completed, heard, write_session, plays_of, completions_of, played,
  write_history, count_listening, write_listening, store_listening,
}
use labaiacinghiala.PlayHistory.Reports.{Input, session_conflict}
use labaiacinghiala.PlayHistory.Rows.{count_rows-update_only}

-- The stored sessions of a track and a profile that passed the threshold, and those heard to the end.
unfoldable pub is_play : ℕ → Text → PlaybackSession → Bool
is_play track key s = s.track_id == track && text_eq s.profile_key key && s.qualified

unfoldable pub is_completion : ℕ → Text → PlaybackSession → Bool
is_completion track key s = s.track_id == track && text_eq s.profile_key key && s.completed

unfoldable pub plays : ℕ → Text → ListeningDb → ℕ
plays track key db = plays_of (find (is_history_of track key) db.history)

unfoldable pub completions : ℕ → Text → ListeningDb → ℕ
completions track key db = completions_of (find (is_history_of track key) db.history)

-- What the history of a track and a profile gained is what the stored sessions gained.
pub record Balanced (track : ℕ) (key : Text) (before after : ListeningDb) : Type 0 where
  pub plays_lem :
      plays track key after + count_rows (is_play track key) before.sessions
      ≡ plays track key before + count_rows (is_play track key) after.sessions
  pub completions_lem :
      completions track key after + count_rows (is_completion track key) before.sessions
      ≡ completions track key before + count_rows (is_completion track key) after.sessions

-- Whether two keys of a history are the same.
abbrev same_key : ℕ → Text → ℕ → Text → Bool
same_key track key t p = track == t && text_eq key p

no_conflict :
    (s : PlaybackSession) (track : ℕ) (key : Text)
    → is_conflict (some s) track key ≡ false
    → (s.track_id ≡ track) × (s.profile_key ≡ key)
unfolding is_conflict
no_conflict s track key h = (
  (==_iff s.track_id track).0 (ground (arith, h)),
  (text_eq_iff s.profile_key key).0 (ground (arith, h)),
)

module _ (input : Input) (track : ℕ) (key : Text) (now t : ℕ) (p : Text)
    (sessions : List PlaybackSession) where
  write_session-plays :
      (o : Option PlaybackSession)
      → find (has_session_id input.session_id) sessions ≡ o
      → count_rows (has_session_id input.session_id) sessions ≤ 1
      → is_conflict o track key ≡ false
      → count_rows (is_play t p) (write_session o input track key now sessions)
          + one_if (same_key track key t p && was_qualified o)
        ≡ count_rows (is_play t p) sessions
          + one_if (same_key track key t p && (was_qualified o || input.qualified))
  unfolding write_session was_qualified is_play heard
  write_session-plays none found unique free =
      rw (count_rows-append (is_play t p) sessions) (ground arith)
  write_session-plays (some s) found unique free =
      let (same, also) = no_conflict s track key free in
      let change =
        heard (s.qualified || input.qualified) (s.completed || input.completed)
          (max s.listened input.listened) now in
      let moved =
        count_rows-update_only (is_play t p) (has_session_id input.session_id) change sessions s
          found unique in
      let at = ap (λ i. i == t) same in
      let of = ap (λ k. text_eq k p) also in ground (arith, moved, at, of)

  write_session-completions :
      (o : Option PlaybackSession)
      → find (has_session_id input.session_id) sessions ≡ o
      → count_rows (has_session_id input.session_id) sessions ≤ 1
      → is_conflict o track key ≡ false
      → count_rows (is_completion t p) (write_session o input track key now sessions)
          + one_if (same_key track key t p && was_completed o)
        ≡ count_rows (is_completion t p) sessions
          + one_if (same_key track key t p && (was_completed o || input.completed))
  unfolding write_session was_completed is_completion heard
  write_session-completions none found unique free =
      rw (count_rows-append (is_completion t p) sessions) (ground arith)
  write_session-completions (some s) found unique free =
      let (same, also) = no_conflict s track key free in
      let change =
        heard (s.qualified || input.qualified) (s.completed || input.completed)
          (max s.listened input.listened) now in
      let moved =
        count_rows-update_only (is_completion t p) (has_session_id input.session_id) change sessions
          s found unique in
      let at = ap (λ i. i == t) same in
      let of = ap (λ k. text_eq k p) also in ground (arith, moved, at, of)

find-append_other :
    (q : History → Bool) (rows : List History) (a : History)
    → q a ≡ false
    → find q (rows ++ a ∷ []) ≡ find q rows
find-append_other q [] a h = rw h refl
find-append_other q (row ∷ rows) a h = elim (Bool-cases (q row)) [
  | inl is ↦ rw is refl
  | inr other ↦ rw other (find-append_other q rows a h)
]

own :
    (track : ℕ) (key : Text) (row : History)
    → row.track_id ≡ track
    → row.profile_key ≡ key
    → is_history_of track key row ≡ true
unfolding is_history_of
own track key row same also =
    rw ((==_iff row.track_id track).1 same, (text_eq_iff row.profile_key key).1 also) refl

same_columns :
    (t : ℕ) (p : Text) (counted : Counted) (input : Input) (now : ℕ) (row : History)
    → is_history_of t p (played counted input now row) ≡ is_history_of t p row
unfolding is_history_of played
same_columns t p counted input now row = refl

-- A row of one key is not of another.
apart :
    (track : ℕ) (key : Text) (t : ℕ) (p : Text) (row : History)
    → is_history_of t p row ≡ true
    → same_key track key t p ≡ false
    → is_history_of track key row ≡ false
unfolding is_history_of
apart track key t p row h other =
    let here = (==_iff row.track_id t).0 (ground (arith, h)) in
    let mine = (text_eq_iff row.profile_key p).0 (ground (arith, h)) in
    elim (Bool-cases (row.track_id == track && text_eq row.profile_key key)) [
      | inr not_other ↦ not_other
      | inl also ↦
          let same : (track == t) ≡ true =
            (==_iff track t).1
              (sym ((==_iff row.track_id track).0 (ground (arith, also))) ∙ here) in
          let keys : text_eq key p ≡ true =
            (text_eq_iff key p).1
              (sym ((text_eq_iff row.profile_key key).0 (ground (arith, also))) ∙ mine) in
          absurd (ground (arith, same, keys, other))
    ]

module _ (counted : Counted) (input : Input) (track : ℕ) (key : Text) (now : ℕ)
    (history : List History) where
  history-same :
      (o : Option History)
      → find (is_history_of track key) history ≡ o
      → (plays_of
            (find (is_history_of track key) (write_history o counted input track key now history))
          ≡ counted.play_count)
        × (completions_of
              (find (is_history_of track key) (write_history o counted input track key now history))
            ≡ counted.completed_count)
  unfolding write_history played plays_of completions_of
  history-same none found =
      let new =
        find-append_new (is_history_of track key) history _ found (own track key _ refl refl) in
      (ap plays_of new, ap completions_of new)
  history-same (some row) found =
      let is = find-holds (is_history_of track key) history {a = row} found in
      let new =
        find-update_rows (is_history_of track key) (is_history_of track key)
          (played counted input now) (same_columns track key counted input now) history row found in
      (ap plays_of new ∙ rw is refl, ap completions_of new ∙ rw is refl)

  history-other :
      (t : ℕ) (p : Text) (o : Option History)
      → find (is_history_of track key) history ≡ o
      → same_key track key t p ≡ false
      → find (is_history_of t p) (write_history o counted input track key now history)
        ≡ find (is_history_of t p) history
  unfolding write_history is_history_of
  history-other t p none found other = find-append_other (is_history_of t p) history _ other
  history-other t p (some row) found other =
      elim (Option-cases (find (is_history_of t p) history)) [
        | inl gone ↦
            find-update_rows-none (is_history_of t p) (is_history_of track key)
              (played counted input now) (same_columns t p counted input now) history gone
            ∙ sym gone
        | inr (r, kept) ↦
            let away =
              apart track key t p r (find-holds (is_history_of t p) history {a = r} kept) other in
            find-update_rows (is_history_of t p) (is_history_of track key)
              (played counted input now) (same_columns t p counted input now) history r kept
            ∙ rw (away, kept) refl
      ]

module _ (track : ℕ) (key : Text) (input : Input) (now : ℕ) (db : ListeningDb) where
  written-Balanced :
      (session : Option PlaybackSession) (row : Option History) (t : ℕ) (p : Text)
      → find (has_session_id input.session_id) db.sessions ≡ session
      → find (is_history_of track key) db.history ≡ row
      → count_rows (has_session_id input.session_id) db.sessions ≤ 1
      → is_conflict session track key ≡ false
      → Balanced t p db (write_listening track key input now session row db).0
  unfolding write_listening count_listening plays completions
  written-Balanced session row t p found kept unique free =
      let counted = count_listening session row input now in
      let heard_plays =
        write_session-plays input track key now t p db.sessions session found unique free in
      let heard_ends =
        write_session-completions input track key now t p db.sessions session found unique free in
      elim (Bool-cases (same_key track key t p)) [
        | inl same ↦
            let (play, end) = history-same counted input track key now db.history row kept in
            let here : track ≡ t = (==_iff track t).0 (ground (arith, same)) in
            let mine : key ≡ p = (text_eq_iff key p).0 (ground (arith, same)) in
            let moved = λ (rows : List History).
              ap (λ i. find (is_history_of i p) rows) (sym here)
              ∙ ap (λ k. find (is_history_of track k) rows) (sym mine) in
            let before = moved db.history ∙ kept in
            let after = moved (write_history row counted input track key now db.history) in
            record {
              plays_lem = rw (after, before, play) (ground (arith, heard_plays, same));
              completions_lem = rw (after, before, end) (ground (arith, heard_ends, same));
            }
        | inr other ↦
            let kept_row =
              history-other counted input track key now db.history t p row kept other in
            record {
              plays_lem = rw kept_row (ground (arith, heard_plays, other));
              completions_lem = rw kept_row (ground (arith, heard_ends, other));
            }
      ]

-- A report of listening that is stored for a session whose id is unique counts a play, or a
-- completion, for a track and a profile exactly when one session more of theirs is stored as
-- qualified, or as completed.
pub store_listening-Balanced :
    (track : ℕ) (key : Text) (input : Input) (now : ℕ) (db after : ListeningDb) (counted : Counted)
    (t : ℕ) (p : Text)
    → count_rows (has_session_id input.session_id) db.sessions ≤ 1
    → store_listening track key input now db ≡ ok (after, counted)
    → Balanced t p db after
unfolding store_listening
store_listening-Balanced track key input now db after counted t p unique h =
    let session = find (has_session_id input.session_id) db.sessions in
    let (_, passed, written) =
      >>=-eq-ok (require (not (is_conflict session track key)) session_conflict) _ h in
    let free = require-eq-ok (not (is_conflict session track key)) session_conflict passed in
    subst (λ d. Balanced t p db d) (ap (λ (o : ListeningDb × Counted). o.0) (ok-inj written))
      (written-Balanced track key input now db session _ t p refl refl unique
        (ground (arith, free)))
