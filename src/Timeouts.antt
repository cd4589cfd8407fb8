-- ===== src/Timeouts.antt =====
-- src/http-timeouts.js: the deadline for the receipt of a request's body. The variables of the listener
-- and what it arms and sends are the record `Pending`; the events of node:http that it listens to are
-- `Event`. An event whose listener was removed has no effect.
pub mod Deadlines
mod Tests
use labaiacinghiala.Common.{
  Bool, true, false, not, ◌&&◌, ◌||◌, Option, none, some, List, [], ◌∷◌, ◌++◌, ℕ, if◌then◌else◌,
}

-- The codes of the response 408.
pub data TimeoutCode : Type 0 where
  upload_idle_timeout request_body_timeout : TimeoutCode

-- What the listener does to the outside, in order.
pub data Effect : Type 0 where
  -- socket.setTimeout(server.timeout), and request.destroy(), at once or after the response.
  restores_socket destroys destroys_after : Effect
  responds : TimeoutCode → Effect

pub record Pending : Type 0 where
  pub uploading : Bool
  pub finished : Bool
  -- The deadline of setTimeout, and the idle timeout of the request.
  pub timer : Bool
  pub idle_timer : Bool
  -- request.complete, response.headersSent and socket.destroyed.
  pub complete : Bool
  pub headers_sent : Bool
  pub destroyed : Bool
  pub effects : List Effect

-- The state after the listener of `request` ran.
pub configure_http_timeouts : Pending
configure_http_timeouts = record {
  uploading = false;
  finished = false;
  timer = true;
  idle_timer = false;
  complete = false;
  headers_sent = false;
  destroyed = false;
  effects = [];
}

pub emit : Effect → Pending → Pending
emit e p = record p { effects = p.effects ++ e ∷ [] }

pub cleanup : Pending → Pending
cleanup p =
    if p.finished
    then p
    else (let closed = record p { finished = true; timer = false; idle_timer = false } in
        if p.uploading && not p.destroyed then emit restores_socket closed else closed)

pub response_finished : Pending → Pending
response_finished p = if p.complete then cleanup p else p

pub timeout_code : Bool → TimeoutCode
timeout_code uploading = if uploading then upload_idle_timeout else request_body_timeout

pub refuse : Pending → Pending
refuse p =
    if p.headers_sent
    then emit destroys p
    else emit (responds (timeout_code p.uploading))
        (emit destroys_after (record p { headers_sent = true }))

pub expire : Pending → Pending
expire p = if p.finished then p else if p.complete then cleanup p else refuse (cleanup p)

-- allowLongUpload, after the checks of the account. Once the receipt is over the request is not in
-- the map.
pub allow_long_upload : Pending → Pending
allow_long_upload p =
    if p.finished || p.uploading
    then p
    else record p { uploading = true; timer = false; idle_timer = true }

pub data Event : Type 0 where
  -- end and close of the request, finish of the response.
  ends closes finishes : Event
  -- The timer and the idle timeout run out, where they are armed.
  times_out idles : Event
  -- A handler calls allowLongUpload, or sends the head of a response; the parser has the body; the
  -- connection breaks.
  allows sends_head receives_all disconnects : Event

pub step : Pending → Event → Pending
step p ends = cleanup p
step p closes = cleanup p
step p finishes = if p.finished then p else response_finished p
step p times_out = if p.timer then expire p else p
step p idles = if p.idle_timer then expire p else p
step p allows = allow_long_upload p
step p sends_head = record p { headers_sent = true }
step p receives_all = record p { complete = true }
step p disconnects = record p { destroyed = true }

pub run : Pending → List Event → Pending
run p [] = p
run p (e ∷ rest) = run (step p e) rest
