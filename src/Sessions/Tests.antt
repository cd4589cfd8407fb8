-- ===== src/Sessions/Tests.antt =====
-- The theorems on sessions at one administrator and one device.
use labaiacinghiala.Common.{
  err, ◌≤◌, true, false, some, [], ◌∷◌, codes, ◌≡◌, ◌≢◌, refl, arith, ok, text_eq, to_lower, trim,
  find, count_rows, ap,
}
use labaiacinghiala.Store.{login, Account, Device, Db, administrator}
use labaiacinghiala.Accounts.{
  set_account_password_hash, normalize_username_lookup, normalize_username, comparison_key,
}
use labaiacinghiala.Accounts.Rows.{
  find_account, set_password, has_account_id, normalize_password_hash, assert_account_exists,
  or_not_found, update_accounts, is_active_admin, is_admin,
}
use labaiacinghiala.Accounts.Requests.{disable, run}
use labaiacinghiala.Sessions.{
  anonymous, session_expired, Session, has_id, is_bindable, bound_to, bind_account_to_device,
  write_binding, normalize_binding_source, resolve_device_account, available_account, resolve_named,
  close_session, check_session, device_session, as_context, clear_device_account_binding, earlier,
  is_before, is_tolerated, oldest_admin, text_lt, unbound,
}
use labaiacinghiala.Sessions.Credentials.{
  change_own_account_password, is_unchanged, set_own_password, write_password, rebind,
  check_current, check_device, check_binding, is_bound_to, hashed, authenticate_account_credentials,
  usable_account, is_usable, same_hash, candidate_hash, find_login_account, find_normalized,
  has_username,
}
use labaiacinghiala.Sessions.Validity.{
  Valid, resolve_device_account-Valid, bind-resolve_device_account,
}
use labaiacinghiala.Sessions.Expiry.{
  set_account_password_hash_expires, change_own_account_password_expires,
}
use labaiacinghiala.Sessions.Logins.{Earned, authenticate_account_credentials-Earned}
use labaiacinghiala.Samples.{ascii, plain, account, device}

abbrev root_account : Account
root_account = record (account (codes "root") administrator) { username = codes "Root" }

abbrev phone : Device
phone = device (codes "phone")

abbrev household : Db
household = record { accounts = root_account ∷ []; grants = []; devices = phone ∷ []; invites = [] }

abbrev signed_phone : Device
signed_phone = bound_to root_account login 10 phone

abbrev signed : Db
signed = record household { devices = signed_phone ∷ [] }

abbrev session : Session
session = record { binding_source = login; authenticated_at = some 10; local_access = false }

bound :
    bind_account_to_device (codes "phone") (codes "root") (codes "login") 10 household
    ≡ ok (signed, (root_account, session))
unfolding bind_account_to_device write_binding normalize_binding_source is_bindable has_id
    find_account has_account_id bound_to text_eq to_lower trim available_account
bound = refl

one_phone : count_rows (has_id (codes "phone")) household.devices ≤ 1
unfolding has_id text_eq
one_phone = omega arith

resolved : resolve_device_account false signed_phone signed ≡ (signed, ok (root_account, session))
unfolding resolve_device_account resolve_named close_session check_session device_session
    find_account has_account_id bound_to text_eq
resolved = refl

resolve_device_account-Valid_example : Valid signed_phone signed root_account
resolve_device_account-Valid_example =
    resolve_device_account-Valid false signed_phone signed {s = (root_account, session)}
      (ap (λ r. r.1) resolved)

bind-resolve_device_account_example :
    (row : Device) × (find (has_id (codes "phone")) signed.devices ≡ some row)
    × (resolve_device_account true row signed ≡ (signed, ok (root_account, session)))
bind-resolve_device_account_example =
    bind-resolve_device_account true (codes "phone") (codes "root") (codes "login") 10 household
      signed (root_account, session) one_phone (omega arith) bound

found : find_account true signed (codes "root") ≡ some root_account
unfolding find_account has_account_id text_eq
found = refl

reset : Db
reset = record signed { accounts = set_password (codes "new") true 20 root_account ∷ [] }

reset_lem : set_account_password_hash ascii (codes "root") (codes "new") true 20 signed ≡ ok reset
unfolding set_account_password_hash find_account has_account_id set_password normalize_password_hash
    assert_account_exists or_not_found update_accounts reset text_eq
reset_lem = refl

set_account_password_hash_expires_example :
    (resolve_device_account true signed_phone
      (run ascii reset (disable (codes "root") false 30 ∷ []))).1
    ≢ ok (root_account, session)
unfolding bound_to
set_account_password_hash_expires_example =
    set_account_password_hash_expires ascii (codes "root") (codes "new") true 20 signed reset
      root_account (disable (codes "root") false 30 ∷ []) true signed_phone
      {s = (root_account, session)} found refl (omega arith) reset_lem

changed_account : Account
changed_account = set_own_password (codes "new") 20 root_account

changed : Db
changed = record signed {
  accounts = changed_account ∷ [];
  devices = bound_to changed_account login 20 signed_phone ∷ [];
}

abbrev new_session : Session
new_session = record { binding_source = login; authenticated_at = some 20; local_access = false }

changed_lem :
    change_own_account_password plain root_account
      (some (codes "phone"))
      session
      (codes "secret")
      (codes "new")
      20
      signed
    ≡ ok (changed, new_session)
unfolding change_own_account_password check_current check_device check_binding is_bound_to hashed
    write_password is_unchanged set_own_password rebind bind_account_to_device write_binding
    normalize_binding_source is_bindable has_id find_account has_account_id bound_to text_eq changed
    changed_account to_lower trim available_account
changed_lem = refl

one_root : count_rows (has_account_id (codes "root")) signed.accounts ≤ 1
unfolding has_account_id text_eq
one_root = omega arith

-- The row of another session, from before.
change_own_account_password_expires_example :
    (resolve_device_account true signed_phone
      (run ascii changed (disable (codes "root") false 30 ∷ []))).1
    ≢ ok (root_account, session)
unfolding bound_to
change_own_account_password_expires_example =
    change_own_account_password_expires ascii plain root_account (some (codes "phone")) session
      new_session (codes "secret") (codes "new") 20 signed changed
      (disable (codes "root") false 30 ∷ []) true signed_phone {s = (root_account, session)}
      one_root refl (omega arith) changed_lem

logged_in :
    authenticate_account_credentials ascii plain
      (codes "phone")
      (codes "ROOT")
      (codes "secret")
      10
      household
      household
    ≡ ok (signed, (root_account, session))
unfolding authenticate_account_credentials usable_account is_usable same_hash candidate_hash
    find_login_account find_normalized has_username normalize_username_lookup normalize_username
    comparison_key bind_account_to_device write_binding normalize_binding_source is_bindable has_id
    find_account has_account_id bound_to text_eq to_lower trim available_account
logged_in = refl

authenticate_account_credentials-Earned_example :
    Earned ascii plain (codes "ROOT") (codes "secret") household household
authenticate_account_credentials-Earned_example =
    authenticate_account_credentials-Earned ascii plain (codes "phone") (codes "ROOT")
      (codes "secret") 10 household household {out = (signed, (root_account, session))} logged_in

logged_out :
    clear_device_account_binding (codes "phone") (record household { devices = signed_phone ∷ [] })
    ≡ (household, true)
unfolding clear_device_account_binding has_id unbound text_eq bound_to
logged_out = refl

-- The older of two administrators, and of two of the same time the one with the first id.
oldest :
    oldest_admin (
      record root_account { id = codes "b" }
      ∷ record root_account { id = codes "a" }
      ∷ record root_account { id = codes "A"; created_at = 1 }
      ∷ [])
    ≡ some (record root_account { id = codes "a" })
unfolding oldest_admin earlier is_before text_lt is_active_admin is_admin
oldest = refl

tolerated : as_context false (err session_expired) ≡ ok (anonymous session_expired)
unfolding as_context is_tolerated
tolerated = refl
