-- ===== src/Sessions/Expiry.antt =====
-- Sessions end with the password: a device that was bound under an older version of its account is
-- signed in no more.
use labaiacinghiala.Common.{
  some-inj, ==_iff, ℕ, suc, ◌≤◌, Bool, true, not, ◌&&◌, ◌||◌, codes, Option, none, some, List, ◌≡◌,
  ◌≢◌, refl, inl, inr, arith, Text, is_empty, find, count_rows-le, find-only, find-update_rows,
  count_rows, ◌==◌, if◌then◌else◌, Bool-cases, ok, require, Returns, Returns->>=, Returns-if,
  Returns-ok, sym, ap, ◌∙◌,
}
use labaiacinghiala.Store.{Device, Account, Db, is_null}
use labaiacinghiala.Accounts.{set_account_password_hash}
use labaiacinghiala.Accounts.Rows.{Unicode, find_account, has_account_id}
use labaiacinghiala.Accounts.Requests.{Request, run}
use labaiacinghiala.Accounts.Versions.{Grows, run-Grows, set_account_password_hash-Grows}
use labaiacinghiala.Sessions.{
  Passwords, device_required, available_account, normalize_binding_source, write_binding,
  is_bindable, SignedIn, Session, resolve_device_account, version_of, bind_account_to_device,
  account_required,
}
use labaiacinghiala.Sessions.Credentials.{
  is_unchanged, set_own_password, write_password, rebind, check_current, check_device, hashed,
  hash_of, change_own_account_password,
}
use labaiacinghiala.Sessions.Validity.{resolve_device_account-Valid}

-- A row that carries an older version than the account's.
record Stale (id : Text) (v : ℕ) (device : Device) : Type 0 where
  named : device.active_account_id ≡ some id
  version : version_of device.active_account_auth_version ≤ v

Stale-refused :
    (clear : Bool) (id : Text) (v : ℕ) (device : Device) (db : Db) {s : SignedIn}
    → Grows id (suc v) db
    → Stale id v device
    → (resolve_device_account clear device db).1 ≢ ok s
Stale-refused clear id v device db {s} g stale h =
    let valid = resolve_device_account-Valid clear device db {s = s} h in
    let same : valid.id ≡ id = some-inj (sym valid.named ∙ stale.named) in
    let row : s.0 ≡ g.row =
      some-inj (sym valid.stored ∙ ap (find_account true db) same ∙ g.found) in
    let version = ap (λ (a : Account). a.auth_version) row in
    omega (arith, version, valid.version, stale.version, g.version)

-- After setAccountPasswordHash of an account, a device that was bound to it before stays refused,
-- whatever operations on accounts follow.
pub set_account_password_hash_expires :
    (unicode : Unicode) (id value : Text) (must_change : Bool) (now : ℕ) (db db2 : Db) (a : Account)
    (requests : List Request) (clear : Bool) (device : Device) {s : SignedIn}
    → find_account true db id ≡ some a
    → device.active_account_id ≡ some id
    → version_of device.active_account_auth_version ≤ a.auth_version
    → set_account_password_hash unicode id value must_change now db ≡ ok db2
    → (resolve_device_account clear device (run unicode db2 requests)).1 ≢ ok s
set_account_password_hash_expires unicode id value must_change now db db2 a requests clear device
      {s} found named version h =
    Stale-refused clear id a.auth_version device (run unicode db2 requests) {s = s}
      (run-Grows id (suc a.auth_version) unicode db2 requests (
        Returns-ok (Grows id (suc a.auth_version)) _
          (set_account_password_hash-Grows unicode id value must_change now db a found) h))
      (record { named = named; version = version })

-- The binding of a device writes no account.
bind-accounts :
    (device_id account_id source : Text) (now : ℕ) (db : Db)
    → Returns
        (λ (out : Db × SignedIn). out.0.accounts ≡ db.accounts)
        (bind_account_to_device device_id account_id source now db)
unfolding bind_account_to_device write_binding
bind-accounts device_id account_id source now db =
    Returns->>= _ (require (not (is_empty device_id)) device_required) _ λ _ _.
      Returns->>= _ (normalize_binding_source source) _ λ origin _.
        Returns->>= _
          (available_account
            (if is_empty account_id then none else find_account true db account_id))
          _ λ a e. Returns-if _ (count_rows (is_bindable device_id) db.devices == 1) _ _ refl tt

same-Grows :
    (id : Text) (v : ℕ) (db db2 : Db) → db2.accounts ≡ db.accounts → Grows id v db → Grows id v db2
unfolding find_account
same-Grows id v db db2 same g = record {
  row = g.row;
  found =
      ap (find (λ (a : Account). has_account_id id a && (true || is_null a.deleted_at))) same
      ∙ g.found;
  version = g.version;
}

rebind-Grows :
    (device : Option Text) (account_id : Text) (now : ℕ) (session : Session) (id : Text) (v : ℕ)
    (db : Db)
    → Grows id v db
    → Returns (λ (out : Db × Session). Grows id v out.0) (rebind device account_id now session db)
unfolding rebind
rebind-Grows none account_id now session id v db g = g
rebind-Grows (some device_id) account_id now session id v db g =
    Returns->>= _ (bind_account_to_device device_id account_id (codes "login") now db) _ λ bound e.
      same-Grows id v db bound.0
        (Returns-ok (λ (out : Db × SignedIn). out.0.accounts ≡ db.accounts) _
          (bind-accounts device_id account_id (codes "login") now db) e)
        g

abbrev is_row : Text → Account → Bool
is_row id a = has_account_id id a && (true || is_null a.deleted_at)

unchanged-row : (account a : Account) → is_unchanged account a ≡ true → is_row account.id a ≡ true
unfolding is_unchanged
unchanged-row account a h = ground arith

row_id : (id : Text) (a : Account) → is_row id a ≡ true → has_account_id id a ≡ true
row_id id a h = ground arith

unchanged-version :
    (account a : Account) → is_unchanged account a ≡ true → a.auth_version ≡ account.auth_version
unfolding is_unchanged
unchanged-version account a h = ground arith

write_password-Grows :
    (account : Account) (hash : Text) (now : ℕ) (db : Db)
    → count_rows (is_row account.id) db.accounts ≤ 1
    → Returns (Grows account.id (suc account.auth_version)) (write_password account hash now db)
unfolding write_password find_account set_own_password has_account_id
write_password-Grows account hash now db unique =
    elim (Bool-cases (count_rows (is_unchanged account) db.accounts == 1)) [
      | inr other ↦ rw other tt
      | inl once ↦
          let (a, found, is) =
            find-only (is_unchanged account) (is_row account.id) (unchanged-row account) db.accounts
              ((==_iff (count_rows (is_unchanged account) db.accounts) 1).0 once) unique in
          rw once (record {
            row = set_own_password hash now a;
            found =
                find-update_rows (is_row account.id) (is_unchanged account)
                  (set_own_password hash now) (λ b. refl) db.accounts a found
                ∙ rw is refl;
            version = omega (arith, unchanged-version account a is);
          })
    ]

change-Grows :
    (passwords : Passwords) (account : Account) (device : Option Text) (session : Session)
    (current new_password : Text) (now : ℕ) (db : Db)
    → count_rows (is_row account.id) db.accounts ≤ 1
    → Returns
        (λ (out : Db × Session). Grows account.id (suc account.auth_version) out.0)
        (change_own_account_password passwords account device session current new_password now db)
unfolding change_own_account_password
change-Grows passwords account device session current new_password now db unique =
    Returns->>= _ (require (not (is_empty account.id)) account_required) _ λ _ _.
      Returns->>= _ (check_current passwords session current (hash_of (some account))) _ λ _ _.
        Returns->>= _ (hashed (passwords.hash new_password)) _ λ hash _.
          Returns->>= _ (check_device account device db) _ λ _ _.
            Returns->>= _ (write_password account hash now db) _ λ changed e.
              rebind-Grows device account.id now session account.id (suc account.auth_version)
                changed
                (Returns-ok (Grows account.id (suc account.auth_version)) _
                  (write_password-Grows account hash now db unique) e)

-- After a user changed their own password, in a table whose account ids are unique, every row that
-- was bound to the account before stays refused, whatever operations on accounts follow.
pub change_own_account_password_expires :
    (unicode : Unicode) (passwords : Passwords) (account : Account) (own : Option Text)
    (session session2 : Session) (current new_password : Text) (now : ℕ) (db db2 : Db)
    (requests : List Request) (clear : Bool) (device : Device) {s : SignedIn}
    → count_rows (has_account_id account.id) db.accounts ≤ 1
    → device.active_account_id ≡ some account.id
    → version_of device.active_account_auth_version ≤ account.auth_version
    → change_own_account_password passwords account own session current new_password now db
      ≡ ok (db2, session2)
    → (resolve_device_account clear device (run unicode db2 requests)).1 ≢ ok s
change_own_account_password_expires unicode passwords account own session session2 current
      new_password now db db2 requests clear device {s} unique named version h =
    Stale-refused clear account.id account.auth_version device (run unicode db2 requests) {s = s}
      (run-Grows account.id (suc account.auth_version) unicode db2 requests (
        Returns-ok (λ (out : Db × Session). Grows account.id (suc account.auth_version) out.0) _
          (change-Grows passwords account own session current new_password now db (
            omega (
              arith,
              unique,
              count_rows-le (is_row account.id) (has_account_id account.id) (row_id account.id)
                  db.accounts,
            )))
          h))
      (record { named = named; version = version })
