-- ===== src/Gate.antt =====
-- src/middleware/device-auth.js: who sends a request. Date.now() is an argument in milliseconds.
pub mod Known
use labaiacinghiala.Common.{
  ℕ, ◌-◌, ◌/◌, Bool, true, false, not, ◌&&◌, ◌||◌, Option, none, some, List, [], ◌∷◌, Text, codes,
  text_eq, is_empty, split, contains, find, update_rows, ltb, if◌then◌else◌, Result, ok, err,
  JsNumber, not_finite,
}
use labaiacinghiala.Store.{Device, Db}
use labaiacinghiala.Access.{first_part}
use labaiacinghiala.Sessions.{is_bindable, Caller, local_browser, paired}
use labaiacinghiala.DeviceAuth.{Crypto, AuthError, Authorization, Cache, put, verify_request}
use labaiacinghiala.DeviceAuth.Media.{MediaAuthorization, verify_media}
use labaiacinghiala.LocalAdmin.{
  Web, HttpRequest, text_of, safe_methods, is_local_admin_browser_request,
}

-- DeviceAuthError, with the errors of the service.
pub data GateError : Type 0 where
  auth_required : GateError
  of_auth : AuthError → GateError

-- The database and the two Maps that the middleware keeps.
pub record Memory : Type 0 where
  pub db : Db
  pub replay_cache : Cache
  pub last_seen_writes : Cache

abbrev pub last_seen_write_interval : ℕ
last_seen_write_interval = 30000

-- The first part of a target, which is never undefined.
unfoldable pub request_target : HttpRequest → Text
request_target req =
    first_part (split b'#' (if not (is_empty req.original_url) then req.original_url else req.url))

unfoldable pub request_path : HttpRequest → Text
request_path req = first_part (split b'?' (request_target req))

-- Number(last_seen_writes.get(id) || 0).
unfoldable pub written_at : Text → Cache → ℕ
written_at id [] = 0
written_at id ((key, time) ∷ rest) = if text_eq key id then time else written_at id rest

unfoldable pub seen_at : ℕ → Device → Device
seen_at now device = record device { last_seen_at = now }

unfoldable pub touch_last_seen : Text → ℕ → Memory → Memory
touch_last_seen id now memory =
    if ltb (now - written_at id memory.last_seen_writes) last_seen_write_interval
    then memory
    else record memory {
      db = record memory.db {
        devices = update_rows (is_bindable id) (seen_at now) memory.db.devices;
      };
      last_seen_writes = put id now memory.last_seen_writes;
    }

abbrev pub Answer : Type 0
Answer = Memory × Result GateError Caller

unfoldable pub attach_device : ℕ → Memory → Result AuthError Device → Answer
attach_device now memory (err e) = (memory, err (of_auth e))
attach_device now memory (ok device) = (touch_last_seen device.id now memory, ok (paired device))

module _ (web : Web) where
  -- Number(undefined) is not finite.
  unfoldable pub number_of : Option Text → JsNumber
  number_of none = not_finite
  number_of (some t) = web.number t

  unfoldable pub media_auth_from_request : HttpRequest → Option MediaAuthorization
  media_auth_from_request req =
      let id = req.query (codes "_baia_device") in
      let expires = req.query (codes "_baia_expires") in
      let signature = req.query (codes "_baia_signature") in
      if is_empty (text_of id) && is_empty (text_of expires) && is_empty (text_of signature)
      then none
      else some (record {
        device_id = text_of id;
        expires = number_of expires;
        signature = text_of signature;
      })

  unfoldable pub header_auth_from_request : HttpRequest → Option Authorization
  header_auth_from_request req =
      let id = req.header (codes "X-Baia-Device-Id") in
      let timestamp = req.header (codes "X-Baia-Timestamp") in
      let nonce = req.header (codes "X-Baia-Nonce") in
      let signature = req.header (codes "X-Baia-Signature") in
      if is_empty (text_of id)
        && is_empty (text_of timestamp)
        && is_empty (text_of nonce)
        && is_empty (text_of signature)
      then none
      else some (record {
        device_id = text_of id;
        timestamp = number_of timestamp;
        nonce = text_of nonce;
        signature = text_of signature;
      })

  unfoldable pub local_caller : HttpRequest → Result GateError Caller
  local_caller req =
      if is_local_admin_browser_request web req then ok local_browser else err auth_required

module _ (web : Web) (crypto : Crypto) where
  unfoldable pub header_auth : HttpRequest → ℕ → Memory → Option Authorization → Answer
  header_auth req now memory none = (memory, local_caller web req)
  header_auth req now memory (some auth) =
      let (cache, verified) =
        verify_request crypto memory.db.devices auth
          (record { method = req.method; target = request_target req; now = now / 1000 })
          memory.replay_cache in
      attach_device now (record memory { replay_cache = cache }) verified

  unfoldable pub media_auth : HttpRequest → ℕ → Memory → Option MediaAuthorization → Answer
  media_auth req now memory none = header_auth req now memory (header_auth_from_request web req)
  media_auth req now memory (some auth) =
      if contains safe_methods req.method
      then attach_device now memory
          (verify_media crypto memory.db.devices auth (request_path req) (now / 1000))
      else header_auth req now memory (header_auth_from_request web req)

  unfoldable pub device_auth : HttpRequest → ℕ → Memory → Answer
  device_auth req now memory = media_auth req now memory (media_auth_from_request web req)
