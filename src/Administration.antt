-- ===== src/Administration.antt =====
-- src/services/account-admin-service.js: what an administrator does to accounts. `actor` is the id of the
-- administrator's own account. Where a function awaits the hash of a password, other requests may
-- run, so the tables before and after are two arguments.
pub mod Actions
pub mod Unbound
pub mod Actor
mod Tests
use labaiacinghiala.Common.{
  ℕ, Bool, true, false, not, ◌&&◌, ◌||◌, Option, none, some, List, [], ◌∷◌, Text, codes, text_eq,
  is_empty, trim, to_lower, find, update_rows, count_rows, ◌==◌, if◌then◌else◌, Result, ok, err,
  ◌>>=◌, ◌>>◌, require,
}
use labaiacinghiala.Store.{Section, Role, user, administrator, Account, Device, Db, is_null}
use labaiacinghiala.Accounts.Sections.{AccountError, account_sections, effective_sections}
use labaiacinghiala.Accounts.{
  create_account, update_account, set_account_password_hash, soft_delete_account,
}
use labaiacinghiala.Accounts.Rows.{Unicode, NewAccount, Changes, find_account}
use labaiacinghiala.Sessions.{Passwords, unbound}

-- AccountAdminError, with the errors of the other services that pass through.
pub data AdminError : Type 0 where
  boolean_invalid self_operation_forbidden managed_not_found account_changed : AdminError
  managed_password_refused : AdminError
  of_account : AccountError → AdminError

pub lift {ℓ} : {A : Type ℓ} → Result AccountError A → Result AdminError A
lift (ok a) = ok a
lift (err e) = err (of_account e)

-- `none` is undefined, and `some none` is no boolean.
pub normalize_required_boolean : Option (Option Bool) → Bool → Result AdminError Bool
normalize_required_boolean none default = ok default
normalize_required_boolean (some none) default = err boolean_invalid
normalize_required_boolean (some (some b)) default = ok b

pub assert_different_account : Text → Text → Result AdminError (Unit {0})
assert_different_account actor target =
    if not (is_empty actor) && text_eq actor target then err self_operation_forbidden else ok tt

pub existing : Option Account → Result AdminError Account
existing none = err managed_not_found
existing (some a) = ok a

pub is_bound : Text → Device → Bool
is_bound id device = elim device.active_account_id [ none ↦ false | some bound ↦ text_eq bound id ]

-- The rows of a device that activeDeviceCounts counts for an account: one version is NULL of no row.
pub is_active_device : Option Account → Text → Device → Bool
is_active_device none id device = false
is_active_device (some a) id device =
    is_null device.revoked_at
    && is_bound id device
    && (elim device.active_account_auth_version [ none ↦ false | some v ↦ v == a.auth_version ])

pub active_device_count : Db → Text → ℕ
active_device_count db id = count_rows (is_active_device (find_account true db id) id) db.devices

pub record AccountView : Type 0 where
  pub id : Text
  pub username : Text
  pub role : Role
  pub sections : List Section
  pub password_configured : Bool
  pub must_change_password : Bool
  pub disabled : Bool
  pub active_device_count : ℕ
  pub current : Bool
  pub created_at : ℕ
  pub updated_at : ℕ

pub has_password : Option Text → Bool
has_password none = false
has_password (some hash) = not (is_empty hash)

pub account_admin_view : Db → Text → ℕ → Account → AccountView
account_admin_view db actor count a = record {
  id = a.id;
  username = a.username;
  role = a.role;
  sections = effective_sections a.role (account_sections db.grants a.id);
  password_configured = has_password a.password_hash;
  must_change_password = a.must_change_password;
  disabled = not (is_null a.disabled_at);
  active_device_count = count;
  current = text_eq a.id actor;
  created_at = a.created_at;
  updated_at = a.updated_at;
}

pub get_managed_account : Db → Text → Text → Result AdminError AccountView
get_managed_account db id actor = do
  account ← existing (find_account false db id)
  ok (account_admin_view db actor (active_device_count db account.id) account)

-- The tables, and how many rows changed.
pub clear_account_device_bindings : Text → Db → Db × ℕ
clear_account_device_bindings id db = (
  record db { devices = update_rows (is_bound id) unbound db.devices },
  count_rows (is_bound id) db.devices,
)

abbrev pub role_text : Role → Text
role_text user = codes "user"
role_text administrator = codes "admin"

-- A role that is given and is another.
pub changes_role : Option Text → Role → Bool
changes_role none role = false
changes_role (some given) role = not (text_eq (to_lower (trim given)) (role_text role))

pub disables : Option (Option Bool) → Bool
disables none = false
disables (some none) = false
disables (some (some b)) = b

pub check_own_update : Text → Text → Changes → Account → Result AdminError (Unit {0})
check_own_update actor id changes current =
    require
      (not (text_eq actor id)
        || not (changes_role changes.role current.role || disables changes.disabled))
      self_operation_forbidden

pub version_of_account : Option Account → ℕ
version_of_account none = 0
version_of_account (some a) = a.auth_version

-- A change of the version signs the devices out.
pub sign_out_changed : Text → Account → Db → Db
sign_out_changed id current db =
    if version_of_account (find_account false db id) == current.auth_version
    then db
    else (clear_account_device_bindings id db).0

module _ (unicode : Unicode) (passwords : Passwords) where
  pub managed_hash : Text → Result AdminError Text
  managed_hash password = elim (passwords.hash password) [
    | none ↦ err managed_password_refused
    | some hash ↦ ok hash
  ]

  pub create_managed_account :
      NewAccount → Text → Option (Option Bool) → Text → Db → Result AdminError (Db × AccountView)
  create_managed_account new password must_change actor db = do
    require_change ← normalize_required_boolean must_change true
    hash ← managed_hash password
    made ← lift (
        create_account unicode
          (record new { password_hash = hash; must_change_password = require_change }) db)
    ok (made.0, account_admin_view made.0 actor 0 made.1)

  pub update_managed_account : Text → Text → Changes → Db → Result AdminError (Db × AccountView)
  update_managed_account actor id changes db = do
    current ← existing (find_account false db id)
    check_own_update actor id changes current
    updated ← lift (update_account unicode id changes db)
    let after = sign_out_changed id current updated
    view ← get_managed_account after id actor
    ok (after, view)

  -- The account before and after the wait.
  pub check_unchanged : Account → Account → Result AdminError (Unit {0})
  check_unchanged snapshot current =
      require (current.auth_version == snapshot.auth_version) account_changed

  pub reset_managed_password :
      Text → Text → Text → Option (Option Bool) → ℕ → Db → Db → Result AdminError (Db × AccountView)
  reset_managed_password actor id password must_change now before db = do
    assert_different_account actor id
    require_change ← normalize_required_boolean must_change true
    snapshot ← existing (find_account false before id)
    hash ← managed_hash password
    current ← existing (find_account false db id)
    check_unchanged snapshot current
    updated ← lift (set_account_password_hash unicode id hash require_change now db)
    let after = (clear_account_device_bindings id updated).0
    account ← existing (find_account false after id)
    ok (after, account_admin_view after actor 0 account)

  -- The number is of the rows that were signed out.
  pub delete_managed_account : ℕ → Text → Text → ℕ → Db → Result AdminError (Db × ℕ)
  delete_managed_account fuel actor id now db = do
    assert_different_account actor id
    current ← existing (find_account false db id)
    deleted ← lift (soft_delete_account unicode fuel id now db)
    ok (clear_account_device_bindings id deleted)

pub logout_managed_account_devices : Text → Text → Db → Result AdminError (Db × (AccountView × ℕ))
logout_managed_account_devices actor id db = do
  assert_different_account actor id
  account ← existing (find_account false db id)
  let cleared = clear_account_device_bindings id db
  ok (cleared.0, (account_admin_view db actor 0 account, cleared.1))
