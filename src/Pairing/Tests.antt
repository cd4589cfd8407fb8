-- ===== src/Pairing/Tests.antt =====
-- The theorems on pairing at one invite and one device, over a verifier that accepts every proof.
use labaiacinghiala.Common.{
  ◌++◌, ◌==◌, ◌≤◌, if◌then◌else◌, true, none, some, [], ◌∷◌, Text, codes, ◌≡◌, ◌≢◌, refl, arith, ok,
  amount, length, text_eq, count_rows, is_uuid,
}
use labaiacinghiala.Store.{Device, Invite, Db}
use labaiacinghiala.DeviceAuth.{load_active_device, is_base64}
use labaiacinghiala.Pairing.Tokens.{
  pairing_proof_message, PairingCrypto, Payload, Proof, decode_base64url, parse_parts, as_secret,
  parse_invite_token, verify_device_proof, invite_token, is_uuid_value, public_key_fingerprint,
  normalize_device_name,
}
use labaiacinghiala.Pairing.{
  has_invite_id, has_device_id, is_claimable, is_open, invite_minutes, set_used, set_revoked,
  create_pairing_invite, redeem_pairing_invite, redeem_checked, load_and_validate_invite,
  check_invite, claim_invite, put_device, fingerprint_taken, paired_row, revoke_pairing_invite,
  revoke_paired_device, is_active_device, unbind_revoked,
}
use labaiacinghiala.Pairing.Actions.{invites, revokes_device, run}
use labaiacinghiala.Pairing.Once.{redeem_once, revoke_final}
use labaiacinghiala.Pairing.Access.{UniqueDevices, redeem-load_active_device}
use labaiacinghiala.Pairing.Roundtrip.{parse_invite_token-invite_token}
use labaiacinghiala.Samples.{zeros}

-- Texts that stand for runs of zero bytes of the lengths that the server expects.
abbrev accepting : PairingCrypto
accepting = record {
  base = record {
    decode = λ t. if text_eq t (codes "key") then zeros 32 else zeros 64;
    encode = λ b. if length b == 32 then codes "key" else codes "sig";
    verify = λ k m s. true;
  };
  sha256_hex = λ b. codes "00";
  sha256_base64url = λ b. codes "digest";
  from_hex = λ t. 0 ∷ [];
}

abbrev invite_id : Text
invite_id = codes "01234567-89ab-4def-8123-456789abcdef"

abbrev device_id : Text
device_id = codes "11234567-89ab-4def-8123-456789abcdef"

abbrev empty : Db
empty = record { accounts = []; grants = []; devices = []; invites = [] }

abbrev invite : Invite
invite = record {
  id = invite_id;
  token_hash = codes "00";
  expires_at = 900100;
  used_at = none;
  revoked_at = none;
  created_at = 100;
}

abbrev invited : Db
invited = record { accounts = []; grants = []; devices = []; invites = invite ∷ [] }

abbrev payload : Payload
payload = record {
  invite_token = some (codes "baia1.01234567-89ab-4def-8123-456789abcdef.key");
  installation_id = some device_id;
  public_key = some (codes "key");
  signature = some (codes "sig");
  device_name = none;
}

abbrev proof : Proof
proof = record { public_key = codes "key"; fingerprint = codes "SHA256:digest" }

abbrev phone : Device
phone = paired_row device_id proof device_id (codes "Baia device") invite_id 200

abbrev paired : Db
paired = record {
  accounts = [];
  grants = [];
  devices = phone ∷ [];
  invites = set_used 200 invite ∷ [];
}

created :
    create_pairing_invite accepting (amount 15) invite_id (zeros 32) 100 empty
    ≡ ok (invited, codes "baia1.01234567-89ab-4def-8123-456789abcdef.key")
unfolding create_pairing_invite invite_minutes invite_token
created = refl

parsed : parse_invite_token accepting payload.invite_token ≡ ok (invite_id, zeros 32)
unfolding parse_invite_token parse_parts as_secret decode_base64url is_uuid is_base64
parsed = refl

proved : verify_device_proof accepting payload ≡ ok proof
unfolding verify_device_proof decode_base64url is_uuid_value is_uuid is_base64
    public_key_fingerprint
proved = refl

redeemed : redeem_pairing_invite accepting payload device_id 200 invited ≡ ok (paired, device_id)
unfolding redeem_pairing_invite redeem_checked load_and_validate_invite check_invite is_open
    claim_invite put_device fingerprint_taken is_claimable has_invite_id normalize_device_name
    set_used text_eq paired_row
redeemed = rw (parsed, proved, redeem_pairing_invite) refl

redeem_once_example :
    redeem_pairing_invite accepting payload invite_id 300
      (run accepting paired (revokes_device (some device_id) 250 ∷ []))
    ≢ ok (paired, device_id)
redeem_once_example =
    redeem_once accepting payload payload device_id invite_id 200 300 invited paired device_id
      (revokes_device (some device_id) 250 ∷ []) invite_id (zeros 32) (zeros 32) parsed redeemed
      parsed

revoked_invite : Db
revoked_invite = record invited { invites = set_revoked 150 invite ∷ [] }

revoked : revoke_pairing_invite (some invite_id) 150 invited ≡ ok revoked_invite
unfolding revoke_pairing_invite is_uuid_value is_uuid is_claimable has_invite_id text_eq set_revoked
    revoked_invite
revoked = refl

one_invite : count_rows (has_invite_id invite_id) invited.invites ≤ 1
unfolding has_invite_id text_eq
one_invite = omega arith

revoke_final_example :
    redeem_pairing_invite accepting payload device_id 300
      (run accepting revoked_invite (invites (amount 15) device_id (zeros 32) 200 ∷ []))
    ≢ ok (paired, device_id)
revoke_final_example =
    revoke_final accepting payload device_id 150 300 invited revoked_invite
      (invites (amount 15) device_id (zeros 32) 200 ∷ []) invite_id (zeros 32) one_invite revoked
      parsed

no_devices : UniqueDevices []
no_devices = λ id. omega arith

one_device : UniqueDevices (phone ∷ [])
unfolding has_device_id
one_device = λ id. ground arith

redeem-load_active_device_example :
    (row : Device) × (load_active_device paired.devices device_id ≡ ok row)
    × (row.public_key ≡ proof.public_key)
    × (row.active_account_id ≡ none)
unfolding is_uuid
redeem-load_active_device_example =
    redeem-load_active_device accepting payload device_id 200 invited paired proof device_id
      no_devices proved redeemed refl

unpaired : Db
unpaired = record paired { devices = unbind_revoked 400 phone ∷ [] }

device_revoked_now : revoke_paired_device (some device_id) 400 paired ≡ ok unpaired
unfolding revoke_paired_device is_uuid_value is_uuid is_active_device has_device_id text_eq
    unbind_revoked unpaired paired_row
device_revoked_now = refl

parse_invite_token-invite_token_example :
    parse_invite_token accepting (some (invite_token accepting invite_id (zeros 32)))
    ≡ ok (invite_id, zeros 32)
unfolding is_uuid is_base64 text_eq
parse_invite_token-invite_token_example =
    parse_invite_token-invite_token accepting invite_id (zeros 32) refl
      (record { filled = refl; alphabet = refl; decoded = refl; sized = refl })

message :
    pairing_proof_message (record {
      invite_token = none;
      installation_id = some (codes "phone");
      device_name = none;
      public_key = some (codes "key");
      signature = none;
    })
    ≡ codes "BAIA-PAIR-V1" ++ 10 ∷ 10 ∷ codes "phone" ++ 10 ∷ codes "key"
unfolding pairing_proof_message
message = refl
