-- ===== src/Listening.antt =====
-- public/js/music-listening-state.js: how much of a track was listened to. Times of the clock and of
-- the medium are whole milliseconds; listened time is counted in the same unit. createListeningState
-- keeps its state in a closure; here it is an `Option`.
pub mod Credit
pub mod Ids
mod Tests
use labaiacinghiala.Common.{
  ℕ, zero, suc, ◌/◌, ◌%◌, ◌++◌, map, take, ◌+◌, ◌-◌, ◌*◌, max, Bool, true, false, ◌&&◌, Option,
  none, some, List, [], ◌∷◌, Text, text_eq, is_empty, trim, leb, ltb, ◌==◌, if◌then◌else◌, JsNumber,
  non_negative,
}
use labaiacinghiala.Ranges.{drop_text}

pub record Listening : Type 0 where
  pub session_id : Text
  pub track_id : Text
  pub listened : ℕ
  pub last_media_time : ℕ
  pub last_wall : ℕ
  pub playing : Bool

-- Number(wallMs) || before: a clock that reads 0 or no number leaves the time before.
pub wall_time : Option ℕ → ℕ → ℕ
wall_time none before = before
wall_time (some now) before = if now == 0 then before else now

-- start, with the id that createSessionId gives; without a track nothing starts.
unfoldable pub start : Text → Text → JsNumber → Option ℕ → Option Listening → Option Listening
start session_id track_id current wall state =
    if is_empty (trim track_id)
    then state
    else some (record {
      session_id = session_id;
      track_id = trim track_id;
      listened = 0;
      last_media_time = non_negative current;
      last_wall = wall_time wall 0;
      playing = false;
    })

-- Four times the greatest time that the medium may have gone on: three seconds, or 1.75 times the
-- time of the clock and one and a half seconds. A clock that was set back counts as no time.
pub maximum_credible : ℕ → ℕ
maximum_credible wall_delta = max (4 * 3000) (7 * wall_delta + 4 * 1500)

pub is_credited : Bool → ℕ → ℕ → Bool
is_credited playing media_delta wall_delta =
    playing && ltb 0 media_delta && leb (4 * media_delta) (maximum_credible wall_delta)

pub sample : JsNumber → Option ℕ → Listening → Listening
sample current wall s =
    let media = non_negative current in
    let now = wall_time wall s.last_wall in
    let credit =
      if is_credited s.playing (media - s.last_media_time) (now - s.last_wall)
      then media - s.last_media_time
      else 0 in
    record s { listened = s.listened + credit; last_media_time = media; last_wall = now }

pub seek : JsNumber → Option ℕ → Listening → Listening
seek current wall s = record s {
  last_media_time = non_negative current;
  last_wall = wall_time wall s.last_wall;
}

pub play : JsNumber → Option ℕ → Listening → Listening
play current wall s = seek current wall (record (sample current wall s) { playing = true })

pub pause : JsNumber → Option ℕ → Listening → Listening
pause current wall s = record (sample current wall s) { playing = false }

-- What snapshot and payload give of the state.
pub record Payload : Type 0 where
  pub session_id : Text
  pub event : Text
  pub position : ℕ
  pub duration : ℕ
  pub listened : ℕ

unfoldable pub payload : JsNumber → Text → Listening → Payload
payload duration event s = record {
  session_id = s.session_id;
  event = event;
  position = s.last_media_time;
  duration = non_negative duration;
  listened = s.listened;
}

pub is_current : Text → Option Listening → Bool
is_current track_id none = false
is_current track_id (some s) = text_eq s.track_id (trim track_id)

-- snapshot, and clear, which gives the last one and drops the state.
pub record Snapshot : Type 0 where
  pub session_id : Text
  pub track_id : Text
  pub listened : ℕ
  pub position : ℕ
  pub playing : Bool

pub snapshot : Option Listening → Option Snapshot
snapshot none = none
snapshot (some s) = some (record {
  session_id = s.session_id;
  track_id = s.track_id;
  listened = s.listened;
  position = s.last_media_time;
  playing = s.playing;
})

pub clear : Option Listening → Option Listening × Option Snapshot
clear state = (none, snapshot state)

-- A digit of toString(16).
pub hex_digit : ℕ → ℕ
hex_digit n = if ltb n 10 then b'0' + n else b'a' + (n - 10)

pub hex_text : List ℕ → Text
hex_text [] = []
hex_text (b ∷ bytes) = hex_digit (b / 16) ∷ hex_digit (b % 16) ∷ hex_text bytes

-- An assignment to bytes[i].
pub map_at : ℕ → (ℕ → ℕ) → List ℕ → List ℕ
map_at i f [] = []
map_at zero f (b ∷ bytes) = f b ∷ bytes
map_at (suc i) f (b ∷ bytes) = b ∷ map_at i f bytes

-- The bytes of a Uint8Array, with the version and the variant of a random UUID.
pub uuid_bytes : List ℕ → List ℕ
uuid_bytes random =
    let bytes = map (λ b. b % 256) random in
    map_at 8 (λ b. b % 64 + 128) (map_at 6 (λ b. b % 16 + 64) bytes)

pub slice : ℕ → ℕ → Text → Text
slice from to t = take (to - from) (drop_text from t)

-- createUuid where the browser has no crypto.randomUUID, from sixteen random numbers.
pub create_uuid : List ℕ → Text
create_uuid random =
    let hex = hex_text (uuid_bytes random) in
    slice 0 8 hex
    ++ b'-' ∷ slice 8 12 hex
    ++ b'-' ∷ slice 12 16 hex
    ++ b'-' ∷ slice 16 20 hex
    ++ b'-' ∷ drop_text 20 hex
