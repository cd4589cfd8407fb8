-- ===== src/Pairing/Access.antt =====
-- Pairing and request authentication together: whom loadActiveDevice lets in after a redemption and
-- after a revocation.
use labaiacinghiala.Common.{
  ==_iff, ℕ, ◌≤◌, true, false, Option, none, some, List, [], ◌∷◌, ◌++◌, ◌≡◌, refl, inl, inr, arith,
  Text, text_eq_iff, text_eq_refl, is_uuid, any, find, any-find, find-holds, find_unique,
  find-append_new, find-update_rows, find-only, update_rows, count_rows, ◌==◌, Bool-cases, ok, err,
  Returns, Returns->>=, Returns-if, Returns-ok, ap, ◌∙◌,
}
use labaiacinghiala.Store.{Device, Db, is_null}
use labaiacinghiala.DeviceAuth.{device_revoked, active_row, load_active_device}
use labaiacinghiala.Pairing.Tokens.{
  PairingCrypto, Payload, Proof, parse_invite_token, verify_device_proof, is_uuid_value,
  normalize_device_name, text_of,
}
use labaiacinghiala.Pairing.{
  has_device_id, has_public_key, is_active_device, pair_again, paired_row, fingerprint_taken,
  put_device, claim_invite, is_claimable, load_and_validate_invite, redeem_checked,
  redeem_pairing_invite, revoke_paired_device, unbind_revoked,
}

-- The table holds one row of the id: a device with this key, active and bound to no account.
pub record Admitted (key : Text) (devices : List Device) (id : Text) : Type 0 where
  pub row : Device
  pub found : find (has_device_id id) devices ≡ some row
  pub key_lem : row.public_key ≡ key
  pub active_lem : row.revoked_at ≡ none
  pub unbound_lem : row.active_account_id ≡ none

-- The primary key of paired_devices.
abbrev pub UniqueDevices : List Device → Type 0
UniqueDevices devices = (id : Text) → count_rows (has_device_id id) devices ≤ 1

own_id : (d : Device) → has_device_id d.id d ≡ true
unfolding has_device_id
own_id d = text_eq_refl d.id

-- A device as the redemption writes it.
abbrev IsFresh : Device → Type 0
IsFresh d = (d.revoked_at ≡ none) × (d.active_account_id ≡ none)

insert-Admitted :
    (paired : Device) (devices : List Device)
    → IsFresh paired
    → any (has_device_id paired.id) devices ≡ false
    → Admitted paired.public_key (devices ++ paired ∷ []) paired.id
insert-Admitted paired devices fresh new = record {
  row = paired;
  found =
      find-append_new (has_device_id paired.id) devices paired
        (any-find (has_device_id paired.id) devices new) (own_id paired);
  key_lem = refl;
  active_lem = fresh.0;
  unbound_lem = fresh.1;
}

renew-Admitted :
    (paired d : Device) (devices : List Device)
    → IsFresh paired
    → UniqueDevices devices
    → find (has_public_key paired.public_key) devices ≡ some d
    → Admitted paired.public_key (update_rows (has_device_id d.id) (pair_again paired) devices) d.id
unfolding pair_again has_device_id has_public_key
renew-Admitted paired d devices fresh unique found = record {
  row = pair_again paired d;
  found =
      find-update_rows (has_device_id d.id) (has_device_id d.id) (pair_again paired) (λ a. refl)
        devices d
        (find_unique (has_public_key paired.public_key) (has_device_id d.id) devices d found
          (own_id d) (unique d.id))
      ∙ rw (own_id d) refl;
  key_lem =
      (text_eq_iff d.public_key paired.public_key).0
        (find-holds (has_public_key paired.public_key) devices found);
  active_lem = fresh.0;
  unbound_lem = fresh.1;
}

put-Admitted :
    (paired : Device) (devices : List Device) (o : Option Device)
    → IsFresh paired
    → UniqueDevices devices
    → find (has_public_key paired.public_key) devices ≡ o
    → Returns
        (λ (w : List Device × Text). Admitted paired.public_key w.0 w.1)
        (put_device paired devices o)
unfolding put_device
put-Admitted paired devices none fresh unique found =
    elim (Bool-cases (any (has_device_id paired.id) devices)) [
      | inl taken ↦ rw taken tt
      | inr new ↦ rw new (
          Returns-if _ (fingerprint_taken paired.id paired.fingerprint devices) _ _ tt
            (insert-Admitted paired devices fresh new))
    ]
put-Admitted paired devices (some d) fresh unique found =
    Returns-if _ (is_null d.revoked_at) _ _ tt (
      Returns-if _ (fingerprint_taken d.id paired.fingerprint devices) _ _ tt
        (renew-Admitted paired d devices fresh unique found))

claim-Admitted :
    (key id : Text) (now : ℕ) (db : Db) (w : List Device × Text)
    → Admitted key w.0 w.1
    → Returns (λ (out : Db × Text). Admitted key out.0.devices out.1) (claim_invite id now db w)
unfolding claim_invite
claim-Admitted key id now db w a =
    Returns-if _ (count_rows (is_claimable id now) db.invites == 1) _ _ a tt

redeem-Admitted :
    (crypto : PairingCrypto) (payload : Payload) (new_id : Text) (now : ℕ) (db : Db) (proof : Proof)
    → UniqueDevices db.devices
    → verify_device_proof crypto payload ≡ ok proof
    → Returns
        (λ (out : Db × Text). Admitted proof.public_key out.0.devices out.1)
        (redeem_pairing_invite crypto payload new_id now db)
unfolding redeem_pairing_invite redeem_checked paired_row
redeem-Admitted crypto payload new_id now db proof unique verified =
    Returns->>= _ (parse_invite_token crypto payload.invite_token) _ λ invite _. rw verified (
      Returns->>= _ (load_and_validate_invite crypto invite.0 invite.1 now db) _ λ _ _.
        Returns->>= _
          (put_device
            (paired_row new_id proof (text_of payload.installation_id)
              (normalize_device_name payload.device_name) invite.0 now)
            db.devices (find (has_public_key proof.public_key) db.devices))
          _
          λ w put. claim-Admitted proof.public_key invite.0 now db w (
            Returns-ok (λ (v : List Device × Text). Admitted proof.public_key v.0 v.1) _
              (put-Admitted _ db.devices (find (has_public_key proof.public_key) db.devices)
                (refl, refl) unique refl)
              put))

Admitted-load :
    (key : Text) (devices : List Device) (id : Text)
    → is_uuid id ≡ true
    → (a : Admitted key devices id) → load_active_device devices id ≡ ok a.row
unfolding load_active_device active_row has_device_id
Admitted-load key devices id uuid a =
    rw (uuid, a.found, a.active_lem, load_active_device, active_row) refl

-- A device that redeemed an invite is let in under the id that the redemption gave it, which is a
-- UUID: its row has the key whose possession it proved and is bound to no account. The ids of
-- the devices were unique.
pub redeem-load_active_device :
    (crypto : PairingCrypto) (payload : Payload) (new_id : Text) (now : ℕ) (db db2 : Db)
    (proof : Proof) (id : Text)
    → UniqueDevices db.devices
    → verify_device_proof crypto payload ≡ ok proof
    → redeem_pairing_invite crypto payload new_id now db ≡ ok (db2, id)
    → is_uuid id ≡ true
    → (row : Device) × (load_active_device db2.devices id ≡ ok row)
      × (row.public_key ≡ proof.public_key)
      × (row.active_account_id ≡ none)
redeem-load_active_device crypto payload new_id now db db2 proof id unique verified h uuid =
    let a =
      Returns-ok (λ (out : Db × Text). Admitted proof.public_key out.0.devices out.1) _
        (redeem-Admitted crypto payload new_id now db proof unique verified) h in
    (a.row, Admitted-load proof.public_key db2.devices id uuid a, a.key_lem, a.unbound_lem)

Refuses : Text → Db → Type 0
Refuses id db = load_active_device db.devices id ≡ err device_revoked

active-has_device_id :
    (id : Text) (d : Device) → is_active_device id d ≡ true → has_device_id id d ≡ true
unfolding is_active_device
active-has_device_id id d h = ground arith

revoked-Refuses :
    (id : Text) (now : ℕ) (db : Db)
    → UniqueDevices db.devices
    → is_uuid id ≡ true
    → count_rows (is_active_device id) db.devices ≡ 1
    → Refuses id
        (record db { devices = update_rows (is_active_device id) (unbind_revoked now) db.devices })
unfolding Refuses load_active_device active_row has_device_id unbind_revoked
revoked-Refuses id now db unique uuid once =
    let (d, found, is) =
      find-only (is_active_device id) (has_device_id id) (active-has_device_id id) db.devices once
        (unique id) in
    let e =
      find-update_rows (has_device_id id) (is_active_device id) (unbind_revoked now) (λ a. refl)
        db.devices d found in
    rw (uuid, load_active_device, active_row) (ap active_row e ∙ rw is refl)

-- A device that was revoked, in a table whose ids are unique, is refused as revoked.
pub revoke-load_active_device :
    (id : Text) (now : ℕ) (db db2 : Db)
    → UniqueDevices db.devices
    → revoke_paired_device (some id) now db ≡ ok db2
    → load_active_device db2.devices id ≡ err device_revoked
unfolding revoke_paired_device Refuses is_uuid_value
revoke-load_active_device id now db db2 unique =
    Returns-ok (Refuses id) _ (elim (Bool-cases (is_uuid id)) [
      | inl uuid ↦ elim (Bool-cases (count_rows (is_active_device id) db.devices == 1)) [
        | inl once ↦
            rw (uuid, once)
              (revoked-Refuses id now db unique uuid
                ((==_iff (count_rows (is_active_device id) db.devices) 1).0 once))
        | inr other ↦ rw (uuid, other) tt
      ]
      | inr malformed ↦ rw malformed tt
    ])
