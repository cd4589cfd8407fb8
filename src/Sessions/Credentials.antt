-- ===== src/Sessions/Credentials.antt =====
-- src/services/account-auth-service.js: the login with username and password, and the change of one's
-- own password. `before` are the tables when the request starts and `db` those after the wait for
-- the hash.
use labaiacinghiala.Common.{
  ℕ, ◌+◌, Bool, true, false, not, ◌&&◌, ◌||◌, Option, none, some, Text, codes, text_eq, is_empty,
  find, update_rows, count_rows, ◌==◌, if◌then◌else◌, Result, ok, err, ◌>>=◌, ◌>>◌, require,
}
use labaiacinghiala.Store.{legacy, Device, Account, Db, is_null}
use labaiacinghiala.Accounts.Sections.{AccountError}
use labaiacinghiala.Accounts.{normalize_username_lookup}
use labaiacinghiala.Accounts.Rows.{Unicode, find_account, has_account_id}
use labaiacinghiala.Sessions.{
  SessionError, device_required, credentials_invalid, current_password_invalid,
  password_setup_not_allowed, password_refused, account_required, session_expired, Passwords,
  Session, SignedIn, has_id, bind_account_to_device,
}

unfoldable pub has_username : Text → Account → Bool
has_username normalized a = text_eq a.username_normalized normalized

-- findLoginAccount: a name that is refused finds nobody.
unfoldable pub find_normalized : Db → Result AccountError Text → Option Account
find_normalized db (err e) = none
find_normalized db (ok normalized) = find (has_username normalized) db.accounts

unfoldable pub find_login_account : Unicode → Text → Db → Option Account
find_login_account unicode username db =
    find_normalized db (normalize_username_lookup unicode username)

-- An empty hash is no hash.
abbrev pub filled_hash : Option Text → Option Text
filled_hash none = none
filled_hash (some h) = if is_empty h then none else some h

abbrev pub hash_of : Option Account → Option Text
hash_of none = none
hash_of (some a) = filled_hash a.password_hash

abbrev pub or_dummy : Text → Option Text → Text
or_dummy dummy none = dummy
or_dummy dummy (some h) = h

unfoldable pub candidate_hash : Passwords → Option Account → Text
candidate_hash passwords account = or_dummy passwords.dummy_hash (hash_of account)

unfoldable pub same_hash : Option Text → Option Text → Bool
same_hash none other = false
same_hash (some h) none = false
same_hash (some h) (some k) = text_eq h k

-- The account after the wait, against the one whose hash was checked.
unfoldable pub is_usable : Account → Option Account → Bool
is_usable seen none = false
is_usable seen (some current) =
    is_null current.deleted_at
    && is_null current.disabled_at
    && same_hash (hash_of (some current)) seen.password_hash
    && current.auth_version == seen.auth_version

unfoldable pub usable_account : Option Account → Db → Bool → Result SessionError Account
usable_account none db valid = err credentials_invalid
usable_account (some seen) db valid =
    if valid && is_usable seen (find_account true db seen.id)
    then ok seen
    else err credentials_invalid

unfoldable pub authenticate_account_credentials :
    Unicode → Passwords → Text → Text → Text → ℕ → Db → Db → Result SessionError (Db × SignedIn)
authenticate_account_credentials unicode passwords device_id username password now before db = do
  require (not (is_empty device_id)) device_required
  let seen = find_login_account unicode username before
  account ← usable_account seen db (passwords.verify password (candidate_hash passwords seen))
  bind_account_to_device device_id account.id (codes "login") now db

-- Whether the given current password is right, or may be missing.
unfoldable pub check_current :
    Passwords → Session → Text → Option Text → Result SessionError (Unit {0})
check_current passwords session current none =
    if session.local_access || (elim session.binding_source [ legacy ↦ true | other ↦ false ])
    then ok tt
    else err password_setup_not_allowed
check_current passwords session current (some hash) =
    require (passwords.verify current hash) current_password_invalid

unfoldable pub is_bound_to : Account → Device → Bool
is_bound_to account device =
    is_null device.revoked_at
    && (elim device.active_account_id [ none ↦ false | some id ↦ text_eq id account.id ])
    && (elim device.active_account_auth_version [
      | none ↦ 0 == account.auth_version
      | some v ↦ v == account.auth_version
    ])

-- The device's own session, read again in the transaction.
unfoldable pub check_binding : Account → Option Device → Result SessionError (Unit {0})
check_binding account none = err session_expired
check_binding account (some device) = require (is_bound_to account device) session_expired

unfoldable pub check_device : Account → Option Text → Db → Result SessionError (Unit {0})
check_device account none db = ok tt
check_device account (some id) db = check_binding account (find (has_id id) db.devices)

-- The WHERE of the UPDATE.
unfoldable pub is_unchanged : Account → Account → Bool
is_unchanged account a =
    has_account_id account.id a
    && a.auth_version == account.auth_version
    && is_null a.disabled_at
    && is_null a.deleted_at

unfoldable pub set_own_password : Text → ℕ → Account → Account
set_own_password hash now a = record a {
  password_hash = some hash;
  must_change_password = false;
  auth_version = a.auth_version + 1;
  updated_at = now;
}

unfoldable pub write_password : Account → Text → ℕ → Db → Result SessionError Db
write_password account hash now db =
    if count_rows (is_unchanged account) db.accounts == 1
    then ok (record db {
      accounts = update_rows (is_unchanged account) (set_own_password hash now) db.accounts;
    })
    else err session_expired

-- The device that asked stays signed in, with the new version.
unfoldable pub rebind : Option Text → Text → ℕ → Session → Db → Result SessionError (Db × Session)
rebind none account_id now session db = ok (db, session)
rebind (some device_id) account_id now session db = do
  bound ← bind_account_to_device device_id account_id (codes "login") now db
  ok (bound.0, bound.1.1)

unfoldable pub hashed : Option Text → Result SessionError Text
hashed none = err password_refused
hashed (some h) = ok h

-- `device` is none where the request comes from no device.
unfoldable pub change_own_account_password :
    Passwords
    → Account
    → Option Text
    → Session
    → Text
    → Text
    → ℕ
    → Db
    → Result SessionError (Db × Session)
change_own_account_password passwords account device session current new_password now db = do
  require (not (is_empty account.id)) account_required
  check_current passwords session current (hash_of (some account))
  hash ← hashed (passwords.hash new_password)
  check_device account device db
  changed ← write_password account hash now db
  rebind device account.id now session changed
