-- ===== src/Samples.antt =====
-- Data that the tests of several modules share: an account, a device, and the functions of the
-- platform at their simplest.
use labaiacinghiala.Common.{
  ℕ, zero, suc, ◌==◌, true, false, none, some, List, [], ◌∷◌, Text, codes, text_eq, to_lower,
  length, if◌then◌else◌,
}
use labaiacinghiala.Store.{Account, Device, Role}
use labaiacinghiala.Accounts.Rows.{Unicode}
use labaiacinghiala.Sessions.{Passwords}
use labaiacinghiala.DeviceAuth.{Crypto}

abbrev pub ascii : Unicode
ascii = record { nfkc = λ t. t; lower_case = to_lower; username_pattern = λ t. true }

-- A password is its own hash.
abbrev pub plain : Passwords
plain = record { verify = λ p h. text_eq p h; hash = λ p. some p; dummy_hash = codes "dummy" }

abbrev pub zeros : ℕ → List ℕ
zeros n = elim n [ zero ↦ [] | suc (m → ih) ↦ 0 ∷ ih ]

-- Each text stands for a run of zero bytes of the length that the server expects, and every signature
-- is right.
abbrev pub accepting : Crypto
accepting = record {
  decode = λ t.
      if text_eq t (codes "nonce")
      then zeros 16
      else if text_eq t (codes "key")
      then zeros 32
      else zeros 64;
  encode = λ b.
      if length b == 16 then codes "nonce" else if length b == 32 then codes "key" else codes "sig";
  verify = λ k m s. true;
}

abbrev pub uuid : Text
uuid = codes "01234567-89ab-4def-8123-456789abcdef"

abbrev pub account : Text → Role → Account
account id role = record {
  id = id;
  account_key = id;
  username = id;
  username_normalized = id;
  deleted_username = none;
  password_hash = some (codes "secret");
  role = role;
  auth_version = 1;
  must_change_password = false;
  disabled_at = none;
  deleted_at = none;
  created_at = 0;
  updated_at = 0;
}

-- A device that no account is bound to.
abbrev pub device : Text → Device
device id = record {
  id = id;
  public_key = codes "key";
  fingerprint = [];
  installation_id = [];
  device_name = [];
  paired_at = 1;
  last_seen_at = 1;
  revoked_at = none;
  pairing_invite_id = none;
  active_account_id = none;
  active_account_auth_version = none;
  account_authenticated_at = none;
  account_binding_source = none;
}
