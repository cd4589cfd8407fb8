-- ===== src/PlayHistory/Tests.antt =====
-- One track, heard in one session: reports at ten and at forty seconds, and at the end.
use labaiacinghiala.Common.{
  ℕ, ◌≤◌, true, some, List, [], ◌∷◌, Text, codes, arith, ◌≡◌, refl, ok, amount, count_rows,
  contains, drop_space, is_hex, is_space, is_uuid, lower, matches, text_eq, to_lower, trim,
}
use labaiacinghiala.PlayHistory.{
  MusicTrack, ListeningDb, Counted, has_session_id, store_listening, cleanup_old_sessions,
  completions_of, count_listening, heard, is_conflict, is_found, is_history_of, last_played,
  listened_before, played, plays_of, record_found, record_music_listening, was_completed,
  was_qualified, write_history, write_listening, write_session,
}
use labaiacinghiala.PlayHistory.Reports.{
  Payload, Input, normalize_payload, double_threshold, events, finite_seconds, input_of,
  is_low_version, is_session_id, normalize_event, normalize_profile_key,
}
use labaiacinghiala.PlayHistory.Counts.{
  is_play, plays, completions, Balanced, store_listening-Balanced,
}
use labaiacinghiala.PlayHistory.Sound.{Report, run, unheard, run-plays}

abbrev uuid : Text
uuid = codes "01234567-89ab-4def-8123-456789abcdef"

abbrev track : MusicTrack
track = record {
  id = 7;
  track_id = codes "track";
  available = true;
  indexed_duration = amount 180000;
}

abbrev payload : Text → ℕ → Payload
payload event listened = record {
  session_id = uuid;
  event = event;
  duration = amount 0;
  position = amount listened;
  listened = amount listened;
}

abbrev reports : List Report
reports =
    (codes "home", codes "track", payload (codes "checkpoint") 10000, 1000)
    ∷ (codes "home", codes "track", payload (codes "pause") 40000, 2000)
    ∷ (codes "home", codes "track", payload (codes "ended") 170000, 3000)
    ∷ []

abbrev ended_input : Input
ended_input = record {
  session_id = uuid;
  event = codes "ended";
  position = 170000;
  duration = 180000;
  listened = 170000;
  double_threshold = 60000;
  qualified = true;
  completed = true;
}

payload_test :
    normalize_payload (payload (codes "ended") 170000) track.indexed_duration ≡ ok ended_input
unfolding normalize_payload normalize_event events input_of double_threshold finite_seconds
    is_session_id is_low_version is_uuid trim drop_space is_space to_lower lower text_eq contains
    matches is_hex
payload_test = refl

plays_test : plays 7 (codes "home") (run reports (unheard (track ∷ []))) ≡ 1
unfolding run plays completions record_music_listening record_found is_found normalize_payload
    normalize_event events input_of double_threshold finite_seconds is_session_id is_low_version
    is_uuid trim drop_space is_space to_lower lower text_eq contains normalize_profile_key
    store_listening write_listening count_listening write_session write_history heard played
    has_session_id is_history_of is_conflict was_qualified was_completed listened_before plays_of
    completions_of last_played cleanup_old_sessions matches is_hex
plays_test = refl

run-plays_example :
    (completions 7 (codes "home") (run reports (unheard (track ∷ [])))
      ≤ plays 7 (codes "home") (run reports (unheard (track ∷ []))))
    × (count_rows (is_play 7 (codes "home")) (run reports (unheard (track ∷ []))).sessions
        ≤ plays 7 (codes "home") (run reports (unheard (track ∷ []))))
    × (count_rows (has_session_id uuid) (run reports (unheard (track ∷ []))).sessions ≤ 1)
run-plays_example = run-plays (track ∷ []) reports 7 (codes "home") uuid

abbrev heard_once : ListeningDb
heard_once = record {
  tracks = track ∷ [];
  sessions =
      record {
        session_id = uuid;
        track_id = 7;
        profile_key = codes "home";
        qualified = true;
        completed = true;
        listened = 170000;
        started_at = 5;
        updated_at = 5;
      }
      ∷ [];
  history =
      record {
        track_id = 7;
        profile_key = codes "home";
        play_count = 1;
        completed_count = 1;
        last_position = 170000;
        last_duration = 180000;
        last_played_at = some 5;
        updated_at = 5;
      }
      ∷ [];
}

abbrev counted : Counted
counted = record {
  qualified = true;
  completed = true;
  counted_play = true;
  counted_completion = true;
  listened = 170000;
  play_count = 1;
  completed_count = 1;
  last_played_at = some 5;
}

stored :
    store_listening 7 (codes "home") ended_input 5 (unheard (track ∷ [])) ≡ ok (heard_once, counted)
unfolding store_listening write_listening count_listening write_session write_history has_session_id
    is_history_of is_conflict was_qualified was_completed listened_before plays_of completions_of
    last_played
stored = refl

store_listening-Balanced_example : Balanced 7 (codes "home") (unheard (track ∷ [])) heard_once
store_listening-Balanced_example =
    store_listening-Balanced 7 (codes "home") ended_input 5 (unheard (track ∷ [])) heard_once
      counted 7 (codes "home") (omega arith) stored
