-- ===== src/Sessions.antt =====
-- src/services/account-auth-service.js: which account a paired device is signed in to. The session of
-- a device is four columns of its row. Where a function awaits the hash of a password, other requests
-- may run, so the tables before and after are two arguments.
pub mod Credentials
pub mod Validity
pub mod Expiry
pub mod Logins
pub mod Callers
mod Tests
use labaiacinghiala.Common.{
  ℕ, ◌+◌, Bool, true, false, not, ◌&&◌, ◌||◌, Option, none, some, List, [], ◌∷◌, Text, codes,
  text_eq, is_empty, trim, to_lower, find, update_rows, count_rows, ltb, leb, ◌==◌, if◌then◌else◌,
  Result, ok, err, ◌>>=◌, ◌>>◌, require,
}
use labaiacinghiala.Store.{Source, legacy, login, admin, Device, Account, Role, Db, is_null}
use labaiacinghiala.Accounts.{normalize_username_lookup}
use labaiacinghiala.Accounts.Rows.{Unicode, find_account, has_account_id, is_active_admin}

pub data SessionError : Type 0 where
  binding_invalid device_required device_unavailable : SessionError
  account_unavailable account_required account_deleted account_disabled session_expired :
      SessionError
  local_admin_unavailable credentials_invalid current_password_invalid : SessionError
  password_setup_not_allowed password_refused : SessionError

-- account-password-service.js: verifyAccountPassword, hashAccountPassword with `none` for a password
-- that it refuses, and the hash that stands in for an account that is not found.
pub record Passwords : Type 0 where
  pub verify : Text → Text → Bool
  pub hash : Text → Option Text
  pub dummy_hash : Text

pub record Session : Type 0 where
  pub binding_source : Source
  pub authenticated_at : Option ℕ
  pub local_access : Bool

abbrev pub SignedIn : Type 0
SignedIn = Account × Session

pub normalize_binding_source : Text → Result SessionError Source
normalize_binding_source value =
    let source = to_lower (trim value) in
    if text_eq source (codes "legacy")
    then ok legacy
    else if text_eq source (codes "login")
    then ok login
    else if text_eq source (codes "admin")
    then ok admin
    else err binding_invalid

unfoldable pub has_id : Text → Device → Bool
has_id id device = text_eq device.id id

unfoldable pub unbound : Device → Device
unbound device = record device {
  active_account_id = none;
  active_account_auth_version = none;
  account_authenticated_at = none;
  account_binding_source = none;
}

-- The tables, and whether a row changed.
pub clear_device_account_binding : Text → Db → Db × Bool
clear_device_account_binding id db = if is_empty id then (db, false) else (
  record db { devices = update_rows (has_id id) unbound db.devices },
  ltb 0 (count_rows (has_id id) db.devices),
)

pub bound_to : Account → Source → ℕ → Device → Device
bound_to account source now device = record device {
  active_account_id = some account.id;
  active_account_auth_version = some account.auth_version;
  account_authenticated_at = some now;
  account_binding_source = some source;
}

unfoldable pub is_bindable : Text → Device → Bool
is_bindable id device = has_id id device && is_null device.revoked_at

-- The account that a session may be opened for.
pub available_account : Option Account → Result SessionError Account
available_account none = err account_unavailable
available_account (some a) =
    if is_null a.deleted_at && is_null a.disabled_at then ok a else err account_unavailable

-- The UPDATE of the device and the account read back.
pub write_binding : Text → Account → Source → ℕ → Db → Result SessionError (Db × SignedIn)
write_binding device_id account source now db =
    if count_rows (is_bindable device_id) db.devices == 1
    then ok (
      record db {
        devices = update_rows (is_bindable device_id) (bound_to account source now) db.devices;
      },
      (
        account,
        record { binding_source = source; authenticated_at = some now; local_access = false },
      ),
    )
    else err device_unavailable

pub bind_account_to_device : Text → Text → Text → ℕ → Db → Result SessionError (Db × SignedIn)
bind_account_to_device device_id account_id source now db = do
  require (not (is_empty device_id)) device_required
  origin ← normalize_binding_source source
  account ←
      available_account (if is_empty account_id then none else find_account true db account_id)
  write_binding device_id account origin now db

-- Number(null) is 0.
abbrev pub version_of : Option ℕ → ℕ
version_of none = 0
version_of (some v) = v

-- `x || null` of a number.
abbrev positive : Option ℕ → Option ℕ
positive none = none
positive (some n) = if n == 0 then none else some n

abbrev source_of : Option Source → Source
source_of none = login
source_of (some s) = s

-- The account that the row names, as long as its session holds.
unfoldable pub check_session : Device → Option Account → Result SessionError Account
check_session device none = err account_deleted
check_session device (some a) =
    if not (is_null a.deleted_at)
    then err account_deleted
    else if not (is_null a.disabled_at)
    then err account_disabled
    else if version_of device.active_account_auth_version == a.auth_version
    then ok a
    else err session_expired

unfoldable pub device_session : Device → Session
device_session device = record {
  binding_source = source_of device.account_binding_source;
  authenticated_at = positive device.account_authenticated_at;
  local_access = false;
}

-- An invalid session is cleared from the row, unless the caller says otherwise.
unfoldable pub close_session :
    Bool → Device → Db → Result SessionError Account → Db × Result SessionError SignedIn
close_session clear device db (ok a) = (db, ok (a, device_session device))
close_session clear device db (err e) =
    ((if clear then (clear_device_account_binding device.id db).0 else db), err e)

unfoldable pub resolve_named : Bool → Device → Option Text → Db → Db × Result SessionError SignedIn
resolve_named clear device none db = (db, err account_required)
resolve_named clear device (some id) db =
    if is_empty id
    then (db, err account_required)
    else close_session clear device db (check_session device (find_account true db id))

unfoldable pub resolve_device_account : Bool → Device → Db → Db × Result SessionError SignedIn
resolve_device_account clear device db = resolve_named clear device device.active_account_id db

-- id ASC of SQLite: the ids are ASCII.
pub text_lt : Text → Text → Bool
text_lt [] [] = false
text_lt [] (d ∷ t) = true
text_lt (c ∷ s) [] = false
text_lt (c ∷ s) (d ∷ t) = ltb c d || (c == d && text_lt s t)

-- created_at ASC, id ASC.
pub is_before : Account → Account → Bool
is_before a b = ltb a.created_at b.created_at || (a.created_at == b.created_at && text_lt a.id b.id)

unfoldable pub earlier : Account → Option Account → Account
earlier a none = a
earlier a (some b) = if is_before b a then b else a

unfoldable pub oldest_admin : List Account → Option Account
oldest_admin [] = none
oldest_admin (a ∷ rest) =
    let others = oldest_admin rest in if is_active_admin a then some (earlier a others) else others

unfoldable pub is_default_account : Account → Bool
is_default_account a = text_eq a.account_key (codes "default")

-- The account with the key `default`, if it is an active administrator, and otherwise the oldest one.
unfoldable pub local_admin : Option Account → List Account → Option Account
local_admin none accounts = oldest_admin accounts
local_admin (some a) accounts = if is_active_admin a then some a else oldest_admin accounts

unfoldable pub as_local : Option Account → Result SessionError SignedIn
as_local none = err local_admin_unavailable
as_local (some a) =
    ok (a, record { binding_source = admin; authenticated_at = none; local_access = true })

unfoldable pub resolve_local_admin_account : Db → Result SessionError SignedIn
resolve_local_admin_account db =
    as_local (local_admin (find is_default_account db.accounts) db.accounts)

-- What the middleware deviceAuth attached to a request.
pub data Caller : Type 0 where
  local_browser : Caller
  paired : Device → Caller
  nobody : Caller

unfoldable pub resolve_caller : Bool → Caller → Db → Db × Result SessionError SignedIn
resolve_caller clear local_browser db = (db, resolve_local_admin_account db)
resolve_caller clear (paired device) db = resolve_device_account clear device db
resolve_caller clear nobody db = (db, err account_required)

-- The errors that leave a request without an account where none is required.
pub is_tolerated : SessionError → Bool
is_tolerated account_required = true
is_tolerated account_deleted = true
is_tolerated account_disabled = true
is_tolerated session_expired = true
is_tolerated e = false

pub data Context : Type 0 where
  signed_in : SignedIn → Context
  anonymous : SessionError → Context

unfoldable pub as_context : Bool → Result SessionError SignedIn → Result SessionError Context
as_context required (ok s) = ok (signed_in s)
as_context required (err e) = if not required && is_tolerated e then ok (anonymous e) else err e

unfoldable pub resolve_request_account :
    Bool → Bool → Caller → Db → Db × Result SessionError Context
resolve_request_account required clear caller db =
    let resolved = resolve_caller clear caller db in (resolved.0, as_context required resolved.1)
