-- ===== src/PlayHistory/Reports.antt =====
-- src/services/music-listening-service.js: the check of what a page reports. Seconds are counted in
-- thousandths.
use labaiacinghiala.Common.{
  ℕ, ◌*◌, min, Bool, false, ◌&&◌, Option, none, some, List, [], ◌∷◌, Text, codes, text_eq, is_empty,
  is_uuid, contains, trim, to_lower, get_elem?, ltb, leb, if◌then◌else◌, Result, ok, err, ◌>>=◌,
  ◌>>◌, require, JsNumber, not_finite, negative, amount, non_negative,
}

pub data ListeningError : Type 0 where
  invalid_session invalid_event invalid_seconds session_conflict : ListeningError

-- Number(value || 0) of each number that the body gives.
pub record Payload : Type 0 where
  pub session_id : Text
  pub event : Text
  pub duration : JsNumber
  pub position : JsNumber
  pub listened : JsNumber

pub record Input : Type 0 where
  pub session_id : Text
  pub event : Text
  pub position : ℕ
  pub duration : ℕ
  pub listened : ℕ
  pub double_threshold : ℕ
  pub qualified : Bool
  pub completed : Bool

unfoldable pub events : List Text
events = codes "checkpoint" ∷ codes "pause" ∷ codes "change" ∷ codes "ended" ∷ []

abbrev pub max_seconds : ℕ
max_seconds = 7 * 24 * 60 * 60 * 1000

-- SESSION_ID_PATTERN: the id of a UUID whose version is at most 5.
unfoldable pub is_low_version : Option ℕ → Bool
is_low_version none = false
is_low_version (some c) = leb c b'5'

unfoldable pub is_session_id : Text → Bool
is_session_id t = is_uuid t && is_low_version (get_elem? t 14)

unfoldable pub normalize_profile_key : Text → Text
normalize_profile_key value =
    let key = trim (if is_empty value then codes "default" else value) in
    if is_empty key then codes "default" else key

unfoldable pub finite_seconds : JsNumber → Result ListeningError ℕ
finite_seconds not_finite = err invalid_seconds
finite_seconds (negative n) = err invalid_seconds
finite_seconds (amount n) = if ltb max_seconds n then err invalid_seconds else ok n

unfoldable pub normalize_event : Text → Result ListeningError Text
normalize_event value =
    let event = to_lower (trim (if is_empty value then codes "checkpoint" else value)) in
    if contains events event then ok event else err invalid_event

-- Twice the threshold, which is half of a duration under a minute and else 30 seconds.
unfoldable pub double_threshold : ℕ → ℕ
double_threshold duration = if ltb 0 duration && ltb duration 60000 then duration else 60000

unfoldable pub input_of : Text → Text → ℕ → ℕ → ℕ → Input
input_of session_id event duration position listened =
    let qualified = leb (double_threshold duration) (2 * listened) in
    record {
      session_id = session_id;
      event = event;
      position = if ltb 0 duration then min position duration else position;
      duration = duration;
      listened = listened;
      double_threshold = double_threshold duration;
      qualified = qualified;
      completed = text_eq event (codes "ended") && qualified;
    }

unfoldable pub normalize_payload : Payload → JsNumber → Result ListeningError Input
normalize_payload payload indexed_duration = do
  let session_id = trim payload.session_id
  require (is_session_id session_id) invalid_session
  event ← normalize_event payload.event
  requested ← finite_seconds payload.duration
  position ← finite_seconds payload.position
  listened ← finite_seconds payload.listened
  ok (
      input_of session_id event
        (if ltb 0 requested then requested else non_negative indexed_duration) position listened)
