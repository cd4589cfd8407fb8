-- ===== src/Accounts.antt =====
-- src/services/account-service.js: the accounts table and its operations. Errors are thrown inside a
-- transaction that is rolled back, so an operation returns the new tables or the error alone.
-- Unicode normalisation, lower case and the username's regular expression are the parameter
-- `Unicode`.
pub mod Sections
pub mod Rows
pub mod Admins
pub mod Requests
pub mod Versions
pub mod Own
pub mod Archived
mod Tests
use labaiacinghiala.Common.{
  ℕ, zero, suc, ◌+◌, ◌-◌, Bool, true, false, not, ◌&&◌, ◌||◌, Option, none, some, List, [], ◌∷◌,
  ◌++◌, map, Text, codes, text_eq, is_empty, trim, to_lower, contains, all, any, length, keep, find,
  take, decimal, ltb, leb, ◌==◌, if◌then◌else◌, Result, ok, err, ◌>>=◌, ◌>>◌, require,
}
use labaiacinghiala.Store.{Role, user, administrator, Section, Account, Grant, Db, is_null}
use labaiacinghiala.Accounts.Sections.{
  AccountError, username_invalid, username_exists, role_invalid, password_hash_required,
  account_key_invalid, account_key_exists, account_not_found, account_disabled_invalid,
  last_admin_required, database_error, section_keys, section_list_eq, normalize_section_keys,
  account_sections, replace_grants,
}
use labaiacinghiala.Accounts.Rows.{
  Changes, NewAccount, Unicode, active_admins_besides, archived_name, assert_account_exists,
  assert_can_remove_active_admin, authorization_changed, bool_eq, check_new_row, chosen_sections,
  find_account, has_account_id, is_active_admin, is_admin, is_deleted, is_disabled,
  is_key_character, next_disabled, next_role, next_sections, normalize_account_key,
  normalize_password_hash, normalize_role, or_not_found, role_eq, set_deleted, set_disabled,
  set_password, stored_sections, tombstone, update_accounts, username_taken, write_update,
}

module _ (unicode : Unicode) where
  unfoldable pub comparison_key : Text → Text
  comparison_key value = unicode.lower_case (unicode.nfkc value)

  unfoldable pub normalize_username : Text → Result AccountError Text
  unfolding trim text_eq
  normalize_username value =
      let username = unicode.nfkc value in
      if not (text_eq username (trim username))
        || ltb (length username) 3
        || ltb 64 (length username)
        || not (unicode.username_pattern username)
      then err username_invalid
      else ok username

  unfoldable pub normalize_username_lookup : Text → Result AccountError Text
  unfolding trim
  normalize_username_lookup value = do
    username ← normalize_username (unicode.nfkc (trim value))
    ok (comparison_key username)

  pub create_account : NewAccount → Db → Result AccountError (Db × Account)
  create_account new db = do
    username ← normalize_username new.username
    hash ← normalize_password_hash new.password_hash
    role ← normalize_role new.role
    key ← normalize_account_key new.account_key
    let row : Account = record {
      id = new.id;
      account_key = key;
      username = username;
      username_normalized = comparison_key username;
      deleted_username = none;
      password_hash = some hash;
      role = role;
      auth_version = 1;
      must_change_password = new.must_change_password;
      disabled_at = none;
      deleted_at = none;
      created_at = new.now;
      updated_at = new.now;
    }
    check_new_row row db.accounts
    sections ← chosen_sections role new.sections
    ok (
      record db {
        accounts = db.accounts ++ row ∷ [];
        grants = replace_grants new.id sections db.grants;
      },
      row,
    )

  pub next_username : Option Text → Account → Result AccountError Text
  next_username none a = ok a.username
  next_username (some u) a = normalize_username u

  -- What updateAccount writes, once its arguments are checked.
  pub apply_update :
      Account → Text → Role → Bool → List Section → Changes → Db → Result AccountError Db
  apply_update current username role disabled sections changes db =
      let stored = stored_sections role sections in
      let changed =
        authorization_changed current role disabled changes.sections
          (account_sections db.grants current.id) stored in
      if username_taken current.id (comparison_key username) db.accounts
      then err username_exists
      else ok (record db {
        accounts =
            update_accounts current.id
              (write_update username (comparison_key username) role disabled changed changes.now
                current)
              db.accounts;
        grants = replace_grants current.id stored db.grants;
      })

  pub update_account : Text → Changes → Db → Result AccountError Db
  update_account id changes db = do
    current ← assert_account_exists db id
    username ← next_username changes.username current
    role ← next_role changes.role current
    sections ← next_sections changes.sections (account_sections db.grants current.id)
    disabled ← next_disabled changes.disabled current
    if is_admin current.role && not (is_disabled current) && (not (is_admin role) || disabled)
        then assert_can_remove_active_admin db current
        else ok tt
    apply_update current username role disabled sections changes db

  unfoldable pub set_account_password_hash : Text → Text → Bool → ℕ → Db → Result AccountError Db
  set_account_password_hash id value must_change now db = do
    current ← assert_account_exists db id
    hash ← normalize_password_hash value
    ok (record db { accounts = update_accounts id (set_password hash must_change now) db.accounts })

  pub set_account_disabled : Text → Bool → ℕ → Db → Result AccountError Db
  set_account_disabled id disabled now db = do
    current ← assert_account_exists db id
    if disabled && not (is_disabled current)
        then assert_can_remove_active_admin db current
        else ok tt
    if bool_eq disabled (is_disabled current)
        then ok db
        else ok
            (record db { accounts = update_accounts id (set_disabled disabled now) db.accounts })

  -- The loop of availableDeletedUsername from `suffix`, on fuel.
  pub free_tombstone : ℕ → Text → Text → Text → ℕ → List Account → Option Text
  free_tombstone zero id base candidate suffix accounts = none
  free_tombstone (suc fuel) id base candidate suffix accounts =
      let text = b'-' ∷ decimal suffix in
      let rest =
        free_tombstone fuel id base (take (64 - length text) base ++ text) (suffix + 1) accounts in
      if username_taken id (comparison_key candidate) accounts then rest else some candidate

  pub archive : Text → ℕ → Db → Option Text → Result AccountError Db
  archive id now db none = err database_error
  archive id now db (some name) = ok (record db {
    accounts = update_accounts id (set_deleted name (comparison_key name) now) db.accounts;
  })

  -- With `fuel` tries for the name; `database_error` is the end of the fuel.
  pub soft_delete_account : ℕ → Text → ℕ → Db → Result AccountError Db
  soft_delete_account fuel id now db = do
    current ← assert_account_exists db id
    assert_can_remove_active_admin db current
    archive id now db (free_tombstone fuel id (tombstone id) (tombstone id) 2 db.accounts)
