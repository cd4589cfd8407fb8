-- ===== src/Store.antt =====
-- The rows of the SQLite tables that the services share: paired_devices and
-- pairing_invites of src/services/pairing-service.js, accounts of src/services/account-service.js.
use labaiacinghiala.Common.{ℕ, Bool, true, false, Option, none, some, List, Text, ◌≡◌, refl}

-- account_binding_source.
pub data Source : Type 0 where
  legacy login admin : Source

pub record Device : Type 0 where
  pub id : Text
  pub public_key : Text
  pub fingerprint : Text
  pub installation_id : Text
  pub device_name : Text
  pub paired_at : ℕ
  pub last_seen_at : ℕ
  pub revoked_at : Option ℕ
  pub pairing_invite_id : Option Text
  pub active_account_id : Option Text
  pub active_account_auth_version : Option ℕ
  pub account_authenticated_at : Option ℕ
  pub account_binding_source : Option Source

pub data Role : Type 0 where
  user administrator : Role

pub data Section : Type 0 where
  films series music books comics manga : Section

pub record Account : Type 0 where
  pub id : Text
  pub account_key : Text
  pub username : Text
  pub username_normalized : Text
  pub deleted_username : Option Text
  pub password_hash : Option Text
  pub role : Role
  pub auth_version : ℕ
  pub must_change_password : Bool
  pub disabled_at : Option ℕ
  pub deleted_at : Option ℕ
  pub created_at : ℕ
  pub updated_at : ℕ

-- A row of account_section_access.
pub record Grant : Type 0 where
  pub account_id : Text
  pub section : Section

-- A row of pairing_invites.
pub record Invite : Type 0 where
  pub id : Text
  pub token_hash : Text
  pub expires_at : ℕ
  pub used_at : Option ℕ
  pub revoked_at : Option ℕ
  pub created_at : ℕ

pub record Db : Type 0 where
  pub accounts : List Account
  pub grants : List Grant
  pub devices : List Device
  pub invites : List Invite

abbrev pub is_null {ℓ} : {A : Type ℓ} → Option A → Bool
is_null none = true
is_null (some a) = false

pub is_null-eq {ℓ} : {A : Type ℓ} (o : Option A) → is_null o ≡ true → o ≡ none
is_null-eq none h = refl
is_null-eq (some a) h = cc
