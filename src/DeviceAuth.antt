-- ===== src/DeviceAuth.antt =====
-- src/services/device-auth-service.js: the proof of a paired device on each request, with its replay
-- cache. Time is in seconds. node:crypto and Buffer are the parameter `Crypto`.
pub mod Replay
pub mod Signed
pub mod Media
mod Tests
use labaiacinghiala.Common.{
  ℕ, ◌+◌, ◌-◌, Bool, true, false, not, ◌&&◌, ◌||◌, Option, none, some, List, [], ◌∷◌, ◌++◌, Text,
  codes, text_eq, is_empty, trim, starts_with, to_upper, join, is_uuid, contains, all, any, length,
  keep, find, ltb, leb, ◌==◌, if◌then◌else◌, Result, ok, err, ◌>>=◌, ◌>>◌, require, JsNumber,
  not_finite, negative, amount, decimal,
}
use labaiacinghiala.Store.{Device, is_null}

pub record Crypto : Type 0 where
  -- Buffer.from(value, 'base64url') and bytes.toString('base64url').
  pub decode : Text → List ℕ
  pub encode : List ℕ → Text
  -- crypto.verify with the Ed25519 key of these bytes; false where it throws.
  pub verify : List ℕ → Text → List ℕ → Bool

pub data AuthError : Type 0 where
  auth_invalid auth_expired auth_replay device_unknown device_revoked : AuthError

pub record Authorization : Type 0 where
  pub device_id : Text
  pub timestamp : JsNumber
  pub nonce : Text
  pub signature : Text

pub record Call : Type 0 where
  pub method : Text
  pub target : Text
  pub now : ℕ

-- The replay cache: a Map from deviceId:nonce to the time of expiry.
abbrev pub Cache : Type 0
Cache = List (Text × ℕ)

abbrev pub clock_skew : ℕ
clock_skew = 90

-- Number.MAX_SAFE_INTEGER.
abbrev pub max_safe_integer : ℕ
max_safe_integer = 9007199254740991

unfoldable pub is_base64 : ℕ → Bool
is_base64 c =
    (leb b'A' c && leb c b'Z')
    || (leb b'a' c && leb c b'z')
    || (leb b'0' c && leb c b'9')
    || c == b'_'
    || c == b'-'

pub is_line_break : ℕ → Bool
is_line_break c = c == 13 || c == 10

pub methods : List Text
methods = codes "GET" ∷ codes "HEAD" ∷ codes "POST" ∷ codes "PUT" ∷ codes "DELETE" ∷ []

pub normalize_method : Text → Result AuthError Text
unfolding methods to_upper trim contains
normalize_method value =
    let method = to_upper (trim value) in
    if contains methods method then ok method else err auth_invalid

pub normalize_target : Text → Result AuthError Text
unfolding is_line_break starts_with
normalize_target target =
    if not (starts_with target (codes "/api/"))
      || ltb 4096 (length target)
      || any is_line_break target
    then err auth_invalid
    else ok target

unfoldable pub active_row : Option Device → Result AuthError Device
active_row none = err device_unknown
active_row (some d) = if is_null d.revoked_at then ok d else err device_revoked

unfoldable pub load_active_device : List Device → Text → Result AuthError Device
unfolding is_uuid text_eq active_row
load_active_device devices id = do
  require (is_uuid id) auth_invalid
  active_row (find (λ (d : Device). text_eq d.id id) devices)

pub request_proof_message : Text → ℕ → Text → Text → Text → Result AuthError Text
unfolding normalize_method normalize_target join decimal
request_proof_message device_id timestamp nonce method target = do
  m ← normalize_method method
  t ← normalize_target target
  ok (join (10 ∷ []) (codes "BAIA-REQ-V1" ∷ device_id ∷ decimal timestamp ∷ nonce ∷ m ∷ t ∷ []))

-- deviceId:nonce.
pub replay_key : Text → Text → Text
replay_key device_id nonce = device_id ++ b':' ∷ nonce

-- Map.prototype.has and set.
abbrev pub has : Text → Cache → Bool
has key [] = false
has key ((k, e) ∷ cache) = text_eq k key || has key cache

abbrev pub put : Text → ℕ → Cache → Cache
put key e [] = (key, e) ∷ []
put key e ((k, f) ∷ cache) = if text_eq k key then (key, e) ∷ cache else (k, f) ∷ put key e cache

unfoldable pub clean_replay_cache : ℕ → Cache → Cache
clean_replay_cache now = keep (λ (entry : Text × ℕ). not (ltb entry.1 now))

module _ (crypto : Crypto) where
  pub decode_base64url : Text → ℕ → Result AuthError (List ℕ)
  unfolding is_base64
  decode_base64url value expected =
      let bytes = crypto.decode value in
      if is_empty value || not (all is_base64 value)
      then err auth_invalid
      else if not (length bytes == expected) || not (text_eq (crypto.encode bytes) value)
      then err auth_invalid
      else ok bytes

  -- The key is decoded inside the try block, so a malformed one makes the proof false.
  pub verify_ed25519 : Text → Text → Text → Result AuthError Bool
  unfolding decode_base64url
  verify_ed25519 public_key message signature = do
    bytes ← decode_base64url signature 64
    elim (decode_base64url public_key 32) [
      | err e ↦ ok false
      | ok key ↦ ok (crypto.verify key message bytes)
    ]

  -- The timestamp, once it is a safe integer close enough to now. A negative one is further than the
  -- clock skew from every time later than a minute and a half after 1970 began.
  pub fresh_timestamp : JsNumber → ℕ → Result AuthError ℕ
  fresh_timestamp not_finite now = err auth_invalid
  fresh_timestamp (negative n) now =
      if ltb max_safe_integer n then err auth_invalid else err auth_expired
  fresh_timestamp (amount t) now =
      if ltb max_safe_integer t
      then err auth_invalid
      else if ltb clock_skew (now - t) || ltb clock_skew (t - now)
      then err auth_expired
      else ok t

  -- The nonce, the device and the signature, for a fresh timestamp.
  unfoldable pub check_signed : List Device → Authorization → Call → ℕ → Result AuthError Device
  unfolding decode_base64url load_active_device request_proof_message verify_ed25519
  check_signed devices auth call timestamp = do
    decode_base64url auth.nonce 16 >>= λ bytes. ok tt
    device ← load_active_device devices auth.device_id
    message ← request_proof_message auth.device_id timestamp auth.nonce call.method call.target
    valid ← verify_ed25519 device.public_key message auth.signature
    require valid auth_invalid
    ok device

  -- What verifyRequestAuthorization checks before it touches the replay cache.
  unfoldable pub check_request : List Device → Authorization → Call → Result AuthError (Device × ℕ)
  unfolding fresh_timestamp check_signed
  check_request devices auth call = do
    timestamp ← fresh_timestamp auth.timestamp call.now
    device ← check_signed devices auth call timestamp
    ok (device, timestamp)

  -- The cache is a Map that the middleware keeps: it is returned with the result.
  unfoldable pub verify_request :
      List Device → Authorization → Call → Cache → Cache × Result AuthError Device
  verify_request devices auth call cache = elim (check_request devices auth call) [
    | err e ↦ (cache, err e)
    | ok (device, timestamp) ↦
        let cleaned = clean_replay_cache call.now cache in
        let key = replay_key auth.device_id auth.nonce in
        if has key cleaned
        then (cleaned, err auth_replay)
        else (put key (timestamp + clock_skew) cleaned, ok device)
  ]
