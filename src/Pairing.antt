-- ===== src/Pairing.antt =====
-- src/services/pairing-service.js: invites, which an administrator creates, and the devices that pair
-- themselves by redeeming one. The tables have the columns of the current schema. Times are in
-- milliseconds. An operation returns the new tables, or the error of the transaction it rolls back.
pub mod Tokens
pub mod Actions
pub mod Lifecycle
pub mod Once
pub mod Access
pub mod Roundtrip
pub mod Status
mod Tests
use labaiacinghiala.Common.{
  ℕ, ◌+◌, ◌*◌, Bool, true, false, not, ◌&&◌, ◌||◌, Option, none, some, List, [], ◌∷◌, ◌++◌, Text,
  text_eq, is_uuid, any, find, update_rows, count_rows, ltb, leb, ◌==◌, if◌then◌else◌, Result, ok,
  err, ◌>>=◌, ◌>>◌, require, JsNumber, not_finite, negative, amount,
}
use labaiacinghiala.Store.{Device, Invite, Db, is_null}
use Tokens.{
  PairingError, invalid_request, invite_invalid, device_already_paired, invite_not_found,
  invite_not_active, device_not_found, database_error, PairingCrypto, Payload, Proof,
  normalize_device_name, parse_invite_token, verify_device_proof, is_uuid_value, invite_token,
  text_of,
}

pub has_invite_id : Text → Invite → Bool
has_invite_id id invite = text_eq invite.id id

pub has_device_id : Text → Device → Bool
has_device_id id device = text_eq device.id id

pub has_public_key : Text → Device → Bool
has_public_key key device = text_eq device.public_key key

-- The WHERE of the UPDATE that claims or revokes an invite.
pub is_claimable : Text → ℕ → Invite → Bool
is_claimable id now invite =
    has_invite_id id invite
    && is_null invite.used_at
    && is_null invite.revoked_at
    && ltb now invite.expires_at

pub set_used : ℕ → Invite → Invite
set_used now invite = record invite { used_at = some now }

pub set_revoked : ℕ → Invite → Invite
set_revoked now invite = record invite { revoked_at = some now }

abbrev pub max_invite_minutes : ℕ
max_invite_minutes = 24 * 60

-- The minutes of an invite. A number that is no integer counts as not finite.
pub invite_minutes : JsNumber → Result PairingError ℕ
invite_minutes not_finite = err invalid_request
invite_minutes (negative n) = err invalid_request
invite_minutes (amount minutes) =
    if ltb minutes 1 || ltb max_invite_minutes minutes then err invalid_request else ok minutes

-- An invite that may be redeemed.
pub is_open : ℕ → Invite → Bool
is_open now invite =
    is_null invite.used_at && is_null invite.revoked_at && ltb now invite.expires_at

-- The row of a device that pairs itself. It is bound to no account.
pub paired_row : Text → Proof → Text → Text → Text → ℕ → Device
paired_row id proof installation name invite now = record {
  id = id;
  public_key = proof.public_key;
  fingerprint = proof.fingerprint;
  installation_id = installation;
  device_name = name;
  paired_at = now;
  last_seen_at = now;
  revoked_at = none;
  pairing_invite_id = some invite;
  active_account_id = none;
  active_account_auth_version = none;
  account_authenticated_at = none;
  account_binding_source = none;
}

-- The UPDATE of a device that was revoked keeps its id and its public key.
pub pair_again : Device → Device → Device
pair_again paired row = record paired { id = row.id; public_key = row.public_key }

-- A constraint on the fingerprint, for a row other than that of `id`.
pub fingerprint_taken : Text → Text → List Device → Bool
fingerprint_taken id fingerprint devices =
    any (λ (d : Device). text_eq d.fingerprint fingerprint && not (has_device_id id d)) devices

-- What redeemPairingInvite does with the devices, given the row that it found by the public key.
pub put_device : Device → List Device → Option Device → Result PairingError (List Device × Text)
put_device paired devices none =
    if any (has_device_id paired.id) devices
      || fingerprint_taken paired.id paired.fingerprint devices
    then err database_error
    else ok (devices ++ paired ∷ [], paired.id)
put_device paired devices (some existing) =
    if is_null existing.revoked_at
    then err device_already_paired
    else if fingerprint_taken existing.id paired.fingerprint devices
    then err database_error
    else ok (update_rows (has_device_id existing.id) (pair_again paired) devices, existing.id)

-- The claim of the invite, after the devices were written.
pub claim_invite : Text → ℕ → Db → List Device × Text → Result PairingError (Db × Text)
claim_invite id now db written =
    if count_rows (is_claimable id now) db.invites == 1
    then ok (
      record db {
        devices = written.0;
        invites = update_rows (is_claimable id now) (set_used now) db.invites;
      },
      written.1,
    )
    else err invite_invalid

pub unbind_revoked : ℕ → Device → Device
unbind_revoked now device = record device {
  revoked_at = some now;
  active_account_id = none;
  active_account_auth_version = none;
  account_authenticated_at = none;
  account_binding_source = none;
}

pub is_active_device : Text → Device → Bool
is_active_device id device = has_device_id id device && is_null device.revoked_at

-- The id and the secret are drawn by node:crypto; the id of a row that stands is refused by SQLite.
pub create_pairing_invite :
    PairingCrypto → JsNumber → Text → List ℕ → ℕ → Db → Result PairingError (Db × Text)
create_pairing_invite crypto ttl id secret now db = do
  minutes ← invite_minutes ttl
  require (not (any (has_invite_id id) db.invites)) database_error
  ok (
    record db {
      invites =
          db.invites
          ++ record {
            id = id;
            token_hash = crypto.sha256_hex secret;
            expires_at = now + minutes * 60000;
            used_at = none;
            revoked_at = none;
            created_at = now;
          }
            ∷ [];
    },
    invite_token crypto id secret,
  )

-- The stored hash is compared byte by byte with that of the secret.
pub check_invite : PairingCrypto → List ℕ → ℕ → Option Invite → Result PairingError (Unit {0})
check_invite crypto secret now none = err invite_invalid
check_invite crypto secret now (some invite) =
    if not (is_open now invite)
    then err invite_invalid
    else if text_eq (crypto.from_hex invite.token_hash) (crypto.from_hex (crypto.sha256_hex secret))
    then ok tt
    else err invite_invalid

pub load_and_validate_invite :
    PairingCrypto → Text → List ℕ → ℕ → Db → Result PairingError (Unit {0})
load_and_validate_invite crypto id secret now db =
    check_invite crypto secret now (find (has_invite_id id) db.invites)

-- The transaction of redeemPairingInvite, for an invite and the row to write.
pub redeem_checked :
    PairingCrypto → Text → List ℕ → ℕ → Device → Db → Result PairingError (Db × Text)
redeem_checked crypto id secret now paired db = do
  load_and_validate_invite crypto id secret now db
  written ← put_device paired db.devices (find (has_public_key paired.public_key) db.devices)
  claim_invite id now db written

-- The new tables and the id of the device; `new_id` is that of a device that was not known.
pub redeem_pairing_invite :
    PairingCrypto → Payload → Text → ℕ → Db → Result PairingError (Db × Text)
redeem_pairing_invite crypto payload new_id now db = do
  invite ← parse_invite_token crypto payload.invite_token
  proof ← verify_device_proof crypto payload
  redeem_checked crypto invite.0 invite.1 now
      (paired_row new_id proof (text_of payload.installation_id)
        (normalize_device_name payload.device_name) invite.0 now)
      db

pub revoke_pairing_invite : Option Text → ℕ → Db → Result PairingError Db
revoke_pairing_invite none now db = err invalid_request
revoke_pairing_invite (some id) now db =
    if not (is_uuid_value (some id))
    then err invalid_request
    else if count_rows (is_claimable id now) db.invites == 1
    then ok (record db { invites = update_rows (is_claimable id now) (set_revoked now) db.invites })
    else if any (has_invite_id id) db.invites
    then err invite_not_active
    else err invite_not_found

pub revoke_paired_device : Option Text → ℕ → Db → Result PairingError Db
revoke_paired_device none now db = err invalid_request
revoke_paired_device (some id) now db =
    if not (is_uuid_value (some id))
    then err invalid_request
    else if count_rows (is_active_device id) db.devices == 1
    then ok
        (record db { devices = update_rows (is_active_device id) (unbind_revoked now) db.devices })
    else err device_not_found

pub data InviteStatus : Type 0 where
  used revoked expired active : InviteStatus

pub pairing_invite_status : Invite → ℕ → InviteStatus
pairing_invite_status invite now =
    if not (is_null invite.used_at)
    then used
    else if not (is_null invite.revoked_at)
    then revoked
    else if leb invite.expires_at now
    then expired
    else active
