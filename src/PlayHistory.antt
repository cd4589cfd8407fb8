-- ===== src/PlayHistory.antt =====
-- src/services/music-listening-service.js: what the server counts of the listening that the page
-- reports. Seconds are counted in thousandths, and times are milliseconds.
pub mod Reports
pub mod Rows
pub mod Counts
pub mod Kept
pub mod Sound
pub mod Credited
mod Tests
use labaiacinghiala.Common.{
  ℕ, ◌+◌, ◌-◌, ◌*◌, min, max, Bool, true, false, not, ◌&&◌, ◌||◌, Option, none, some, List, [], ◌∷◌,
  ◌++◌, Text, codes, text_eq, is_empty, is_uuid, contains, trim, to_lower, get_elem?, find, keep,
  update_rows, ltb, leb, ◌==◌, if◌then◌else◌, Result, ok, err, ◌>>=◌, ◌>>◌, require, JsNumber,
  not_finite, negative, amount, non_negative,
}
use labaiacinghiala.PlayHistory.Reports.{
  Input, ListeningError, Payload, double_threshold, events, finite_seconds, input_of, invalid_event,
  invalid_seconds, invalid_session, is_low_version, is_session_id, max_seconds, normalize_event,
  normalize_payload, normalize_profile_key, session_conflict,
}

pub record MusicTrack : Type 0 where
  pub id : ℕ
  pub track_id : Text
  pub available : Bool
  pub indexed_duration : JsNumber

pub record PlaybackSession : Type 0 where
  pub session_id : Text
  pub track_id : ℕ
  pub profile_key : Text
  pub qualified : Bool
  pub completed : Bool
  pub listened : ℕ
  pub started_at : ℕ
  pub updated_at : ℕ

pub record History : Type 0 where
  pub track_id : ℕ
  pub profile_key : Text
  pub play_count : ℕ
  pub completed_count : ℕ
  pub last_position : ℕ
  pub last_duration : ℕ
  pub last_played_at : Option ℕ
  pub updated_at : ℕ

pub record ListeningDb : Type 0 where
  pub tracks : List MusicTrack
  pub sessions : List PlaybackSession
  pub history : List History

pub has_session_id : Text → PlaybackSession → Bool
has_session_id id session = text_eq session.session_id id

pub is_history_of : ℕ → Text → History → Bool
is_history_of track key row = row.track_id == track && text_eq row.profile_key key

-- What the answer says was counted.
pub record Counted : Type 0 where
  pub qualified : Bool
  pub completed : Bool
  pub counted_play : Bool
  pub counted_completion : Bool
  pub listened : ℕ
  pub play_count : ℕ
  pub completed_count : ℕ
  pub last_played_at : Option ℕ

abbrev pub one_if : Bool → ℕ
one_if b = if b then 1 else 0

-- A session of another track or profile.
pub is_conflict : Option PlaybackSession → ℕ → Text → Bool
is_conflict none track key = false
is_conflict (some s) track key = not (s.track_id == track) || not (text_eq s.profile_key key)

pub was_qualified : Option PlaybackSession → Bool
was_qualified none = false
was_qualified (some s) = s.qualified

pub was_completed : Option PlaybackSession → Bool
was_completed none = false
was_completed (some s) = s.completed

pub listened_before : Option PlaybackSession → ℕ
listened_before none = 0
listened_before (some s) = s.listened

pub heard : Bool → Bool → ℕ → ℕ → PlaybackSession → PlaybackSession
heard qualified completed listened now s = record s {
  qualified = qualified;
  completed = completed;
  listened = listened;
  updated_at = now;
}

pub write_session :
    Option PlaybackSession → Input → ℕ → Text → ℕ → List PlaybackSession → List PlaybackSession
write_session (some s) input track key now sessions =
    update_rows (has_session_id input.session_id)
      (heard (s.qualified || input.qualified) (s.completed || input.completed)
        (max s.listened input.listened) now)
      sessions
write_session none input track key now sessions =
    sessions
    ++ record {
      session_id = input.session_id;
      track_id = track;
      profile_key = key;
      qualified = input.qualified;
      completed = input.completed;
      listened = input.listened;
      started_at = now;
      updated_at = now;
    }
      ∷ []

pub plays_of : Option History → ℕ
plays_of none = 0
plays_of (some row) = row.play_count

pub completions_of : Option History → ℕ
completions_of none = 0
completions_of (some row) = row.completed_count

pub last_played : Option History → Option ℕ
last_played none = none
last_played (some row) = row.last_played_at

pub played : Counted → Input → ℕ → History → History
played counted input now row = record row {
  play_count = counted.play_count;
  completed_count = counted.completed_count;
  last_position = input.position;
  last_duration = input.duration;
  last_played_at = counted.last_played_at;
  updated_at = now;
}

pub write_history : Option History → Counted → Input → ℕ → Text → ℕ → List History → List History
write_history (some row) counted input track key now history =
    update_rows (is_history_of track key) (played counted input now) history
write_history none counted input track key now history =
    history
    ++ record {
      track_id = track;
      profile_key = key;
      play_count = counted.play_count;
      completed_count = counted.completed_count;
      last_position = input.position;
      last_duration = input.duration;
      last_played_at = counted.last_played_at;
      updated_at = now;
    }
      ∷ []

pub count_listening : Option PlaybackSession → Option History → Input → ℕ → Counted
count_listening session row input now =
    let qualified = was_qualified session || input.qualified in
    let completed = was_completed session || input.completed in
    let play = not (was_qualified session) && qualified in
    let completion = not (was_completed session) && completed in
    record {
      qualified = qualified;
      completed = completed;
      counted_play = play;
      counted_completion = completion;
      listened = max (listened_before session) input.listened;
      play_count = plays_of row + one_if play;
      completed_count = completions_of row + one_if completion;
      last_played_at = if qualified then some now else last_played row;
    }

pub write_listening :
    ℕ
    → Text
    → Input
    → ℕ
    → Option PlaybackSession
    → Option History
    → ListeningDb
    → ListeningDb × Counted
write_listening track key input now session row db =
    let counted = count_listening session row input now in
    (
      record db {
        sessions = write_session session input track key now db.sessions;
        history = write_history row counted input track key now db.history;
      },
      counted,
    )

-- The callback of the transaction.
pub store_listening :
    ℕ → Text → Input → ℕ → ListeningDb → Result ListeningError (ListeningDb × Counted)
store_listening track key input now db = do
  let session = find (has_session_id input.session_id) db.sessions
  require (not (is_conflict session track key)) session_conflict
  ok (write_listening track key input now session (find (is_history_of track key) db.history) db)

-- 45 days.
abbrev pub session_lifetime : ℕ
session_lifetime = 45 * 24 * 60 * 60 * 1000

pub cleanup_old_sessions : ℕ → ListeningDb → ListeningDb
cleanup_old_sessions now db = record db {
  sessions = keep (λ (s : PlaybackSession). leb now (s.updated_at + session_lifetime)) db.sessions;
}

pub is_found : Text → MusicTrack → Bool
is_found id track = text_eq track.track_id id && track.available

pub record_found :
    Text
    → Payload
    → ℕ
    → ListeningDb
    → Option MusicTrack
    → Result ListeningError (ListeningDb × Option Counted)
record_found profile payload now db none = ok (db, none)
record_found profile payload now db (some track) = do
  input ← normalize_payload payload track.indexed_duration
  stored ← store_listening track.id (normalize_profile_key profile) input now db
  ok (cleanup_old_sessions now stored.0, some stored.1)

pub record_music_listening :
    Text → Text → Payload → ℕ → ListeningDb → Result ListeningError (ListeningDb × Option Counted)
record_music_listening profile track_id payload now db =
    record_found profile payload now db (find (is_found (trim track_id)) db.tracks)
