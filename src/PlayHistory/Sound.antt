-- ===== src/PlayHistory/Sound.antt =====
-- The counts of the history whatever reports come, with the sessions that are forgotten after 45 days.
use labaiacinghiala.Common.{
  ok-inj, ℕ, ◌+◌, ◌≤◌, max, true, not, ◌||◌, Option, none, some, List, [], ◌∷◌, ◌≡◌, refl, inl, inr,
  arith, Text, text_eq, text_eq_iff, find, all, count_rows, count_rows-append, count_rows-find,
  count_rows-update_rows, leb, Bool-cases, Result, ok, err, require, Returns, Returns->>=,
  Returns-ok, Result-cases, >>=-eq-ok, ap, sym, subst, trim,
}
use labaiacinghiala.PlayHistory.{
  MusicTrack, PlaybackSession, ListeningDb, Counted, has_session_id, heard, write_session,
  write_listening, store_listening, is_conflict, session_lifetime, cleanup_old_sessions, plays_of,
  completions_of, is_found, record_found, record_music_listening,
}
use labaiacinghiala.PlayHistory.Reports.{
  Payload, Input, ListeningError, normalize_profile_key, normalize_payload, session_conflict,
}
use labaiacinghiala.PlayHistory.Counts.{
  is_play, is_completion, plays, completions, store_listening-Balanced,
}
use labaiacinghiala.PlayHistory.Kept.{
  all-insert, all-kept, all-update, completed-le, count-kept, forgotten, found_all,
  input-consistent, is_consistent,
}

record IsSound (db : ListeningDb) : Type 0 where
  unique : (id : Text) → count_rows (has_session_id id) db.sessions ≤ 1
  consistent : all is_consistent db.sessions ≡ true
  counted : (t : ℕ) (p : Text) → count_rows (is_play t p) db.sessions ≤ plays t p db
  ended :
      (t : ℕ) (p : Text)
      → completions t p db + count_rows (is_play t p) db.sessions
        ≤ plays t p db + count_rows (is_completion t p) db.sessions

cleanup-IsSound : (now : ℕ) (db : ListeningDb) → IsSound db → IsSound (cleanup_old_sessions now db)
unfolding cleanup_old_sessions plays completions
cleanup-IsSound now db s =
    let keeps = λ (x : PlaybackSession). leb now (x.updated_at + session_lifetime) in
    record {
      unique = λ id. ground (arith, count-kept keeps (has_session_id id) db.sessions, s.unique id);
      consistent = all-kept keeps is_consistent db.sessions s.consistent;
      counted = λ t p. ground (arith, count-kept keeps (is_play t p) db.sessions, s.counted t p);
      ended = λ t p. ground (arith, forgotten keeps t p db.sessions s.consistent, s.ended t p);
    }

module _ (input : Input) (track : ℕ) (key : Text) (now : ℕ) where
  written_unique :
      (o : Option PlaybackSession) (sessions : List PlaybackSession) (id : Text)
      → find (has_session_id input.session_id) sessions ≡ o
      → count_rows (has_session_id id) sessions ≤ 1
      → count_rows (has_session_id id) (write_session o input track key now sessions) ≤ 1
  unfolding write_session has_session_id heard
  written_unique none sessions id found unique =
      rw (count_rows-append (has_session_id id) sessions)
        (elim (Bool-cases (text_eq input.session_id id)) [
          | inl same ↦
              let new : count_rows (has_session_id id) sessions ≡ 0 =
                subst (λ i. count_rows (has_session_id i) sessions ≡ 0)
                  ((text_eq_iff input.session_id id).0 same)
                  (count_rows-find (has_session_id input.session_id) sessions found) in
              ground (arith, new, same)
          | inr other ↦ ground (arith, unique, other)
        ])
  written_unique (some s) sessions id found unique =
      rw
        (count_rows-update_rows (has_session_id id) (has_session_id input.session_id)
          (heard (s.qualified || input.qualified) (s.completed || input.completed)
            (max s.listened input.listened) now)
          (λ a. refl) sessions)
        unique

  written_consistent :
      (o : Option PlaybackSession) (sessions : List PlaybackSession)
      → find (has_session_id input.session_id) sessions ≡ o
      → all is_consistent sessions ≡ true
      → (not input.completed || input.qualified) ≡ true
      → all is_consistent (write_session o input track key now sessions) ≡ true
  unfolding write_session is_consistent heard
  written_consistent none sessions found h fits = all-insert is_consistent sessions _ h fits
  written_consistent (some s) sessions found h fits =
      let is = found_all (has_session_id input.session_id) is_consistent sessions {s = s} h found in
      all-update (has_session_id input.session_id) is_consistent _ sessions h
        (λ x. ground (arith, is, fits))

  store_listening-sessions :
      (db : ListeningDb) {after : ListeningDb} {counted : Counted}
      → store_listening track key input now db ≡ ok (after, counted)
      → after.sessions
        ≡ write_session
            (find (has_session_id input.session_id) db.sessions)
            input
            track
            key
            now
            db.sessions
  unfolding store_listening write_listening
  store_listening-sessions db h =
      let session = find (has_session_id input.session_id) db.sessions in
      let (_, passed, written) =
        >>=-eq-ok (require (not (is_conflict session track key)) session_conflict) _ h in
      ap (λ (d : ListeningDb). d.sessions)
        (sym (ap (λ (o : ListeningDb × Counted). o.0) (ok-inj written)))

  stored-IsSound :
      (db : ListeningDb)
      → IsSound db
      → (not input.completed || input.qualified) ≡ true
      → Returns (λ out. IsSound out.0) (store_listening track key input now db)
  stored-IsSound db s fits = elim (Result-cases (store_listening track key input now db)) [
    | inl (e, failed) ↦ rw failed tt
    | inr ((after, counted), stored) ↦
        let balanced = λ (t : ℕ) (p : Text).
          store_listening-Balanced track key input now db after counted t p
            (s.unique input.session_id) stored in
        let sessions = store_listening-sessions db stored in
        rw stored (record {
          unique = λ id.
              subst (λ rows. count_rows (has_session_id id) rows ≤ 1) (sym sessions)
                (written_unique _ db.sessions id refl (s.unique id));
          consistent =
              subst (λ rows. all is_consistent rows ≡ true) (sym sessions)
                (written_consistent _ db.sessions refl s.consistent fits);
          counted = λ t p. omega (arith, (balanced t p).plays_lem, s.counted t p);
          ended = λ t p.
              omega (arith, (balanced t p).plays_lem, (balanced t p).completions_lem, s.ended t p);
        })
  ]

found-IsSound :
    (profile : Text) (payload : Payload) (now : ℕ) (db : ListeningDb)
    → IsSound db
    → (o : Option MusicTrack)
    → Returns (λ out. IsSound out.0) (record_found profile payload now db o)
unfolding record_found
found-IsSound profile payload now db s none = s
found-IsSound profile payload now db s (some track) =
    Returns->>= _ (normalize_payload payload track.indexed_duration) _ λ input made.
      Returns->>= _ (store_listening track.id (normalize_profile_key profile) input now db) _
        λ stored done. cleanup-IsSound now stored.0 (
          Returns-ok (λ out. IsSound out.0) _
            (stored-IsSound input track.id (normalize_profile_key profile) now db s (
              Returns-ok (λ (i : Input). (not i.completed || i.qualified) ≡ true) _
                (input-consistent payload track.indexed_duration) made))
            done)

record-IsSound :
    (profile track_id : Text) (payload : Payload) (now : ℕ) (db : ListeningDb)
    → IsSound db
    → Returns (λ out. IsSound out.0) (record_music_listening profile track_id payload now db)
unfolding record_music_listening
record-IsSound profile track_id payload now db s =
    found-IsSound profile payload now db s (find (is_found (trim track_id)) db.tracks)

-- A report: the profile, the track's id, the body and the time.
abbrev pub Report : Type 0
Report = Text × Text × Payload × ℕ

-- A report that is refused leaves the tables as they were.
abbrev kept {ℓ} : {A : Type ℓ} → ListeningDb → Result ListeningError (ListeningDb × A) → ListeningDb
kept db (ok out) = out.0
kept db (err e) = db

kept-IsSound {ℓ} :
    {A : Type ℓ} (db : ListeningDb) (m : Result ListeningError (ListeningDb × A))
    → IsSound db
    → Returns (λ out. IsSound out.0) m
    → IsSound (kept db m)
kept-IsSound db (ok out) s h = h
kept-IsSound db (err e) s h = s

unfoldable pub run : List Report → ListeningDb → ListeningDb
run [] db = db
run ((profile, track_id, payload, now) ∷ rest) db =
    run rest (kept db (record_music_listening profile track_id payload now db))

run-IsSound : (reports : List Report) (db : ListeningDb) → IsSound db → IsSound (run reports db)
unfolding run
run-IsSound [] db s = s
run-IsSound ((profile, track_id, payload, now) ∷ rest) db s = run-IsSound rest _ (
    kept-IsSound db (record_music_listening profile track_id payload now db) s
      (record-IsSound profile track_id payload now db s))

-- Before any report.
abbrev pub unheard : List MusicTrack → ListeningDb
unheard tracks = record { tracks = tracks; sessions = []; history = [] }

-- Whatever reports come to a server that has counted nothing, for each track and profile the play
-- count is at least the number of completions and at least the number of their stored sessions that
-- passed the threshold, and no two stored sessions have the same id.
pub run-plays :
    (tracks : List MusicTrack) (reports : List Report) (t : ℕ) (p id : Text)
    → (completions t p (run reports (unheard tracks)) ≤ plays t p (run reports (unheard tracks)))
      × (count_rows (is_play t p) (run reports (unheard tracks)).sessions
          ≤ plays t p (run reports (unheard tracks)))
      × (count_rows (has_session_id id) (run reports (unheard tracks)).sessions ≤ 1)
unfolding plays completions plays_of completions_of
run-plays tracks reports t p id =
    let s = run-IsSound reports (unheard tracks) (record {
      unique = λ i. omega arith;
      consistent = refl;
      counted = λ i k. omega arith;
      ended = λ i k. omega arith;
    }) in
    (
      omega (
        arith,
        s.ended t p,
        completed-le t p (run reports (unheard tracks)).sessions s.consistent,
      ),
      s.counted t p,
      s.unique id,
    )
