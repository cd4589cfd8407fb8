-- ===== src/Accounts/Rows.antt =====
-- src/services/account-service.js: the checks of a request and the changes of single rows of accounts.
-- Unicode normalisation, lower case and the username's regular expression are the parameter
-- `Unicode`.
use labaiacinghiala.Common.{
  ℕ, ◌+◌, Bool, true, false, not, ◌&&◌, ◌||◌, Option, none, some, List, [], ◌∷◌, ◌++◌, Text, codes,
  text_eq, is_empty, trim, to_lower, all, any, length, find, take, ltb, leb, ◌==◌, if◌then◌else◌,
  Result, ok, err,
}
use labaiacinghiala.Store.{Role, user, administrator, Section, Account, Db, is_null}
use labaiacinghiala.Accounts.Sections.{
  AccountError, username_exists, role_invalid, password_hash_required, account_key_invalid,
  account_key_exists, account_not_found, account_disabled_invalid, last_admin_required,
  database_error, section_keys, section_list_eq, normalize_section_keys,
}

pub record Unicode : Type 0 where
  pub nfkc : Text → Text
  pub lower_case : Text → Text
  -- /^[\p{L}\p{N}][\p{L}\p{N}._-]*$/u.
  pub username_pattern : Text → Bool

unfoldable pub normalize_role : Text → Result AccountError Role
unfolding text_eq trim to_lower
normalize_role value =
    let role = to_lower (trim value) in
    if text_eq role (codes "user")
    then ok user
    else if text_eq role (codes "admin")
    then ok administrator
    else err role_invalid

unfoldable pub normalize_password_hash : Text → Result AccountError Text
unfolding trim
normalize_password_hash value =
    if is_empty (trim value) then err password_hash_required else ok (trim value)

pub is_key_character : ℕ → Bool
is_key_character c =
    (leb b'a' c && leb c b'z')
    || (leb b'A' c && leb c b'Z')
    || (leb b'0' c && leb c b'9')
    || c == b'_'
    || c == b'-'

unfoldable pub normalize_account_key : Text → Result AccountError Text
unfolding trim is_key_character
normalize_account_key value =
    let key = trim value in
    if is_empty key || ltb 64 (length key) || not (all is_key_character key)
    then err account_key_invalid
    else ok key

unfoldable pub has_account_id : Text → Account → Bool
has_account_id id a = text_eq a.id id

-- getAccountById.
unfoldable pub find_account : Bool → Db → Text → Option Account
unfolding has_account_id
find_account include_deleted db id =
    find (λ (a : Account). has_account_id id a && (include_deleted || is_null a.deleted_at))
      db.accounts

unfoldable pub or_not_found : Option Account → Result AccountError Account
or_not_found none = err account_not_found
or_not_found (some a) = ok a

unfoldable pub assert_account_exists : Db → Text → Result AccountError Account
unfolding find_account or_not_found
assert_account_exists db id = or_not_found (find_account false db id)

unfoldable pub is_admin : Role → Bool
is_admin user = false
is_admin administrator = true

unfoldable pub is_active_admin : Account → Bool
unfolding is_admin
is_active_admin a = is_admin a.role && is_null a.disabled_at && is_null a.deleted_at

-- activeAdminCount with `excludingId`.
unfoldable pub active_admins_besides : Text → List Account → ℕ
unfolding has_account_id
active_admins_besides id [] = 0
active_admins_besides id (a ∷ rest) =
    (if is_active_admin a && not (has_account_id id a) then 1 else 0)
    + active_admins_besides id rest

unfoldable pub assert_can_remove_active_admin : Db → Account → Result AccountError (Unit {0})
assert_can_remove_active_admin db a =
    if is_active_admin a && active_admins_besides a.id db.accounts == 0
    then err last_admin_required
    else ok tt

-- UPDATE accounts SET … WHERE id = ?.
unfoldable pub update_accounts : Text → (Account → Account) → List Account → List Account
update_accounts id change [] = []
update_accounts id change (a ∷ rest) =
    (if has_account_id id a then change a else a) ∷ update_accounts id change rest

-- The UNIQUE constraint on username_normalized, for a row other than that of `id`.
unfoldable pub username_taken : Text → Text → List Account → Bool
unfolding has_account_id text_eq
username_taken id normalized accounts =
    any (λ (a : Account). text_eq a.username_normalized normalized && not (has_account_id id a))
      accounts

pub record NewAccount : Type 0 where
  pub id : Text
  pub username : Text
  pub password_hash : Text
  pub role : Text
  pub sections : Option (List Text)
  pub account_key : Text
  pub must_change_password : Bool
  pub now : ℕ

-- A field that is `none` is undefined; `disabled` is `some none` where it is no boolean.
pub record Changes : Type 0 where
  pub username : Option Text
  pub role : Option Text
  pub sections : Option (List Text)
  pub disabled : Option (Option Bool)
  pub now : ℕ

unfoldable pub chosen_sections : Role → Option (List Text) → Result AccountError (List Section)
chosen_sections administrator sections = ok section_keys
chosen_sections user none = ok []
chosen_sections user (some values) = normalize_section_keys values

-- The constraints of the INSERT: the primary key, account_key and username_normalized.
unfoldable pub check_new_row : Account → List Account → Result AccountError (Unit {0})
check_new_row row accounts =
    if any (has_account_id row.id) accounts
    then err database_error
    else if any (λ (a : Account). text_eq a.account_key row.account_key) accounts
    then err account_key_exists
    else if any (λ (a : Account). text_eq a.username_normalized row.username_normalized) accounts
    then err username_exists
    else ok tt

pub is_deleted : Account → Bool
is_deleted a = not (is_null a.deleted_at)

unfoldable pub is_disabled : Account → Bool
is_disabled a = not (is_null a.disabled_at)

pub role_eq : Role → Role → Bool
role_eq user user = true
role_eq user administrator = false
role_eq administrator user = false
role_eq administrator administrator = true

pub bool_eq : Bool → Bool → Bool
bool_eq true b = b
bool_eq false b = not b

unfoldable pub next_disabled : Option (Option Bool) → Account → Result AccountError Bool
unfolding is_disabled
next_disabled none a = ok (is_disabled a)
next_disabled (some none) a = err account_disabled_invalid
next_disabled (some (some b)) a = ok b

unfoldable pub next_role : Option Text → Account → Result AccountError Role
next_role none a = ok a.role
next_role (some r) a = normalize_role r

unfoldable pub next_sections :
    Option (List Text) → List Section → Result AccountError (List Section)
next_sections none current = ok current
next_sections (some values) current = normalize_section_keys values

unfoldable pub stored_sections : Role → List Section → List Section
stored_sections administrator sections = section_keys
stored_sections user sections = sections

-- The row that updateAccount writes.
unfoldable pub write_update : Text → Text → Role → Bool → Bool → ℕ → Account → Account → Account
write_update username normalized role disabled changed now current a = record a {
  username = username;
  username_normalized = normalized;
  role = role;
  disabled_at =
      if disabled
      then (if is_null current.disabled_at then some now else current.disabled_at)
      else none;
  auth_version = a.auth_version + (if changed then 1 else 0);
  updated_at = now;
}

-- Whether the role, the disabled state or the given sections differ from those stored.
unfoldable pub authorization_changed :
    Account → Role → Bool → Option (List Text) → List Section → List Section → Bool
unfolding role_eq bool_eq is_disabled
authorization_changed current role disabled given before stored =
    not (role_eq role current.role)
    || not (bool_eq disabled (is_disabled current))
    || (not (is_null given) && not (section_list_eq before stored))

unfoldable pub set_password : Text → Bool → ℕ → Account → Account
set_password hash must_change now a = record a {
  password_hash = some hash;
  must_change_password = must_change;
  auth_version = a.auth_version + 1;
  updated_at = now;
}

unfoldable pub set_disabled : Bool → ℕ → Account → Account
set_disabled disabled now a = record a {
  disabled_at = if disabled then some now else none;
  auth_version = a.auth_version + 1;
  updated_at = now;
}

-- COALESCE(NULLIF(deleted_username, ''), username).
pub archived_name : Account → Option Text
archived_name a = elim a.deleted_username [
  | none ↦ some a.username
  | some t ↦ if is_empty t then some a.username else some t
]

unfoldable pub set_deleted : Text → Text → ℕ → Account → Account
unfolding archived_name
set_deleted username normalized now a = record a {
  deleted_username = archived_name a;
  username = username;
  username_normalized = normalized;
  deleted_at = some now;
  disabled_at = if is_null a.disabled_at then some now else a.disabled_at;
  auth_version = a.auth_version + 1;
  updated_at = now;
}

unfoldable pub tombstone : Text → Text
unfolding trim
tombstone id = take 64 (codes "__deleted__" ++ trim id)
