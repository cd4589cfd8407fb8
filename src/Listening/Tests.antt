-- ===== src/Listening/Tests.antt =====
-- The theorems on listening at a track of some seconds.
use labaiacinghiala.Common.{
  not_finite, some, none, ok, ◌+◌, ◌*◌, ◌≤◌, true, false, List, [], ◌∷◌, codes, ◌≡◌, refl, arith,
  amount, contains, drop_space, is_hex, is_space, is_uuid, lower, matches, text_eq, to_lower, trim,
}
use labaiacinghiala.Listening.{
  start, payload, create_uuid, Listening, sample, play, pause, seek, wall_time, is_credited,
  maximum_credible, clear, is_current, snapshot,
}
use labaiacinghiala.Listening.Ids.{create_uuid-is_session_id}
use labaiacinghiala.PlayHistory.Reports.{
  is_session_id, Input, normalize_payload, double_threshold, events, finite_seconds, input_of,
  is_low_version, normalize_event,
}
use labaiacinghiala.PlayHistory.Credited.{posted, qualified_takes_time}
use labaiacinghiala.Listening.Credit.{
  Call, samples, plays, pauses, seeks, run, answer, Forward, no_play,
}
use labaiacinghiala.Samples.{uuid}

abbrev opened : Listening
opened = record {
  session_id = codes "s";
  track_id = codes "t";
  listened = 0;
  last_media_time = 0;
  last_wall = 1000;
  playing = false;
}

abbrev calls : List Call
calls =
    plays (amount 0) 1000
    ∷ samples (amount 5000) 6000
    ∷ seeks (amount 90000) 6500
    ∷ pauses (amount 91000) 7500
    ∷ []

-- Five seconds, then a jump that does not count, then one second.
listened : (run opened calls).listened ≡ 6000
unfolding run answer sample play pause seek wall_time is_credited maximum_credible
listened = refl

forward : Forward opened.last_wall calls
unfolding Forward
forward = (omega arith, (omega arith, (omega arith, (omega arith, tt))))

no_start : no_play (seeks (amount 60000) 2000 ∷ samples (amount 90000) 9000 ∷ []) ≡ true
unfolding no_play
no_start = refl

create_uuid-is_session_id_example :
    is_session_id (
      create_uuid (1 ∷ 22 ∷ 333 ∷ 4 ∷ 5 ∷ 6 ∷ 255 ∷ 8 ∷ 255 ∷ 0 ∷ 11 ∷ 12 ∷ 13 ∷ 14 ∷ 15 ∷ 16 ∷ []))
    ≡ true
create_uuid-is_session_id_example =
    create_uuid-is_session_id 1 22 333 4 5 6 255 8 255 0 11 12 13 14 15 16

abbrev fresh : Listening
fresh = record {
  session_id = uuid;
  track_id = codes "track";
  listened = 0;
  last_media_time = 0;
  last_wall = 1000;
  playing = false;
}

-- Two reports of twenty seconds each of a track that plays.
abbrev reports : List Call
reports = plays (amount 0) 1000 ∷ samples (amount 20000) 21000 ∷ samples (amount 40000) 41000 ∷ []

abbrev credited_input : Input
credited_input = record {
  session_id = uuid;
  event = codes "pause";
  position = 40000;
  duration = 180000;
  listened = 40000;
  double_threshold = 60000;
  qualified = true;
  completed = false;
}

reported :
    normalize_payload
      (posted (payload (amount 180000) (codes "pause") (run fresh reports)))
      not_finite
    ≡ ok credited_input
unfolding normalize_payload normalize_event events input_of double_threshold finite_seconds
    is_session_id is_low_version is_uuid trim drop_space is_space to_lower lower text_eq contains
    matches is_hex posted payload run answer play seek sample wall_time is_credited maximum_credible
reported = refl

started : start uuid (codes "track") (amount 0) (some 1000) none ≡ some fresh
unfolding start wall_time trim drop_space is_space
started = refl

qualified_takes_time_example : 2 * 60000 + 7 * 1000 ≤ 7 * (run fresh reports).last_wall + 12000 * 3
unfolding Forward
qualified_takes_time_example =
    qualified_takes_time uuid (codes "track") (codes "pause") (amount 0) (amount 180000) not_finite
      (some 1000) fresh reports credited_input started
      (omega arith, (omega arith, (omega arith, tt))) reported refl

cleared : clear (some fresh) ≡ (none, snapshot (some fresh))
unfolding clear
cleared = refl

shown :
    snapshot (some (run fresh reports))
    ≡ some (record {
      session_id = uuid;
      track_id = codes "track";
      listened = 40000;
      position = 40000;
      playing = true;
    })
unfolding snapshot run answer play seek sample wall_time is_credited maximum_credible
shown = refl

same_track : is_current (codes " track ") (some fresh) ≡ true
unfolding is_current trim drop_space is_space text_eq
same_track = refl
