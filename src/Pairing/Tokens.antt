-- ===== src/Pairing/Tokens.antt =====
-- src/services/pairing-service.js: what a device sends to pair itself. The token of an invite, the
-- proof that the device holds its key, and the name that it gives itself.
use labaiacinghiala.Common.{
  ℕ, Bool, false, not, ◌||◌, Option, none, some, List, [], ◌∷◌, ◌++◌, Text, codes, text_eq,
  is_empty, is_space, trim, split, collapse, join, is_uuid, all, length, take, leb, ◌==◌,
  if◌then◌else◌, Result, ok, err, ◌>>=◌, ◌>>◌, require,
}
use labaiacinghiala.DeviceAuth.{Crypto, is_base64}

-- The code of a PairingError; database_error stands for an error of SQLite.
pub data PairingError : Type 0 where
  invalid_request invite_invalid proof_invalid device_already_paired : PairingError
  invite_not_found invite_not_active device_not_found database_error : PairingError

-- node:crypto and Buffer: base64url and Ed25519, SHA-256 as hexadecimal and as base64url text, and the
-- bytes of hexadecimal text.
pub record PairingCrypto : Type 0 where
  pub base : Crypto
  pub sha256_hex : List ℕ → Text
  pub sha256_base64url : List ℕ → Text
  pub from_hex : Text → List ℕ

-- The payload of a pairing request; a field that is no string is `none`.
pub record Payload : Type 0 where
  pub invite_token : Option Text
  pub installation_id : Option Text
  pub public_key : Option Text
  pub signature : Option Text
  pub device_name : Option Text

pub record Proof : Type 0 where
  pub public_key : Text
  pub fingerprint : Text

-- Characters below U+0020, and U+007F.
abbrev is_control : ℕ → Bool
is_control c = leb c 31 || c == 127

-- String(value || 'Baia device').
abbrev given_name : Option Text → Text
given_name none = codes "Baia device"
given_name (some t) = if is_empty t then codes "Baia device" else t

unfoldable pub normalize_device_name : Option Text → Text
unfolding collapse is_space trim
normalize_device_name value =
    let name =
      take 80 (trim (collapse is_space false (collapse is_control false (given_name value)))) in
    if is_empty name then codes "Baia device" else name

abbrev pub invite_prefix : Text
invite_prefix = codes "baia1"

unfoldable pub is_uuid_value : Option Text → Bool
unfolding is_uuid
is_uuid_value none = false
is_uuid_value (some t) = is_uuid t

-- Of a field that was checked to be a string.
abbrev pub text_of : Option Text → Text
text_of none = []
text_of (some t) = t

unfoldable pub pairing_proof_message : Payload → Text
unfolding join
pairing_proof_message payload = join (10 ∷ []) (
    codes "BAIA-PAIR-V1"
    ∷ text_of payload.invite_token
    ∷ text_of payload.installation_id
    ∷ text_of payload.public_key
    ∷ [])

module _ (crypto : PairingCrypto) where
  unfoldable pub decode_base64url : Option Text → ℕ → Result PairingError (List ℕ)
  unfolding text_eq
  decode_base64url none expected = err invalid_request
  decode_base64url (some value) expected =
      let bytes = crypto.base.decode value in
      if is_empty value || not (all is_base64 value)
      then err invalid_request
      else if not (length bytes == expected) || not (text_eq (crypto.base.encode bytes) value)
      then err invalid_request
      else ok bytes

  -- The secret of an invite, whose errors are those of the invite.
  unfoldable pub as_secret :
      Text → Result PairingError (List ℕ) → Result PairingError (Text × List ℕ)
  as_secret id (ok secret) = ok (id, secret)
  as_secret id (err e) = err invite_invalid

  unfoldable pub parse_parts : List Text → Result PairingError (Text × List ℕ)
  unfolding text_eq
  parse_parts (prefix ∷ id ∷ secret ∷ []) =
      if not (text_eq prefix invite_prefix) || not (is_uuid id)
      then err invite_invalid
      else as_secret id (decode_base64url (some secret) 32)
  parse_parts parts = err invite_invalid

  unfoldable pub parse_invite_token : Option Text → Result PairingError (Text × List ℕ)
  unfolding split trim
  parse_invite_token none = err invite_invalid
  parse_invite_token (some token) = parse_parts (split b'.' (trim token))

  unfoldable pub public_key_fingerprint : List ℕ → Text
  public_key_fingerprint key = codes "SHA256:" ++ crypto.sha256_base64url key

  unfoldable pub verify_device_proof : Payload → Result PairingError Proof
  verify_device_proof payload = do
    require (is_uuid_value payload.installation_id) invalid_request
    key ← decode_base64url payload.public_key 32
    signature ← decode_base64url payload.signature 64
    require (crypto.base.verify key (pairing_proof_message payload) signature) proof_invalid
    ok (record { public_key = crypto.base.encode key; fingerprint = public_key_fingerprint key })

  -- The token of a new invite.
  unfoldable pub invite_token : Text → List ℕ → Text
  unfolding join
  invite_token id secret = join (codes ".") (invite_prefix ∷ id ∷ crypto.base.encode secret ∷ [])
