-- ===== src/Accounts/Versions.antt =====
-- The version of an account, auth_version, which the sessions of its devices carry: it never falls,
-- and it rises with the password.
use labaiacinghiala.Common.{
  ℕ, suc, ◌≤◌, Bool, true, not, ◌&&◌, ◌||◌, Option, none, some, List, [], ◌∷◌, ◌≡◌, refl, arith,
  Text, text_eq_iff, find, find-append, find-holds, if◌then◌else◌, Result, ok, err, Returns,
  Returns->>=, Returns-if, ap, ◌∙◌,
}
use labaiacinghiala.Store.{Account, Db, Role, is_null}
use labaiacinghiala.Accounts.Sections.{AccountError, account_sections}
use labaiacinghiala.Accounts.Admins.{KeepsId}
use labaiacinghiala.Accounts.{
  apply_update, archive, create_account, update_account, set_account_password_hash,
  set_account_disabled, soft_delete_account, normalize_username, next_username, free_tombstone,
  comparison_key,
}
use labaiacinghiala.Accounts.Rows.{
  Unicode, NewAccount, Changes, has_account_id, find_account, assert_account_exists,
  assert_can_remove_active_admin, update_accounts, write_update, set_password, set_disabled,
  set_deleted, check_new_row, normalize_password_hash, normalize_role, normalize_account_key,
  chosen_sections, next_role, next_sections, next_disabled, is_admin, is_disabled, bool_eq,
  tombstone, username_taken,
}
use labaiacinghiala.Accounts.Requests.{
  Request, create, update, change_password, disable, delete, commit, created, step, run,
}

abbrev is_row : Text → Account → Bool
is_row id a = has_account_id id a && (true || is_null a.deleted_at)

pub find_account-id :
    (id : Text) (db : Db) {a : Account} → find_account true db id ≡ some a → a.id ≡ id
unfolding find_account has_account_id
find_account-id id db {a} h =
    let holds = find-holds (is_row id) db.accounts {a = a} h in ground (arith, text_eq_iff a.id id)

-- An UPDATE of some row that lowers no version.
record Rises (change : Account → Account) : Type 0 where
  keeps : KeepsId change
  rises : (a : Account) → a.auth_version ≤ (change a).auth_version

find-update_accounts :
    (id k : Text) (change : Account → Account)
    → KeepsId change
    → (accounts : List Account) (a : Account) → find (is_row id) accounts ≡ some a
    → find (is_row id) (update_accounts k change accounts)
      ≡ some (if has_account_id k a then change a else a)
unfolding update_accounts has_account_id
find-update_accounts id k change keeps [] a h = cc
find-update_accounts id k change keeps (b ∷ rest) a h =
    ground (arith, keeps b, find-update_accounts id k change keeps rest a)

-- The account stands in the table with a version of at least `v`.
pub record Grows (id : Text) (v : ℕ) (db : Db) : Type 0 where
  pub row : Account
  pub found : find_account true db id ≡ some row
  pub version : v ≤ row.auth_version

update-Grows :
    (id k : Text) (v : ℕ) (change : Account → Account) (db db2 : Db)
    → Rises change
    → db2.accounts ≡ update_accounts k change db.accounts
    → Grows id v db
    → Grows id v db2
unfolding find_account
update-Grows id k v change db db2 r e g = record {
  row = if has_account_id k g.row then change g.row else g.row;
  found =
      ap (find (is_row id)) e ∙ find-update_accounts id k change r.keeps db.accounts g.row g.found;
  version = ground (arith, g.version, r.rises g.row);
}

set_password-Rises :
    (hash : Text) (must_change : Bool) (now : ℕ) → Rises (set_password hash must_change now)
unfolding set_password
set_password-Rises hash must_change now = record { keeps = λ a. refl; rises = λ a. omega arith }

set_disabled-Rises : (disabled : Bool) (now : ℕ) → Rises (set_disabled disabled now)
unfolding set_disabled
set_disabled-Rises disabled now = record { keeps = λ a. refl; rises = λ a. omega arith }

set_deleted-Rises : (name normalized : Text) (now : ℕ) → Rises (set_deleted name normalized now)
unfolding set_deleted
set_deleted-Rises name normalized now = record { keeps = λ a. refl; rises = λ a. omega arith }

write_update-Rises :
    (username normalized : Text) (role : Role) (disabled changed : Bool) (now : ℕ)
    (current : Account)
    → Rises (write_update username normalized role disabled changed now current)
unfolding write_update
write_update-Rises username normalized role disabled changed now current = record {
  keeps = λ a. refl;
  rises = λ a. omega arith;
}

created-Grows :
    (id : Text) (v : ℕ) (m : Result AccountError (Db × Account))
    → Returns (λ made. Grows id v made.0) m
    → Returns (Grows id v) (created m)
unfolding created
created-Grows id v (ok (db, row)) h = h
created-Grows id v (err e) h = tt

module _ (id : Text) (v : ℕ) (unicode : Unicode) (db : Db) (g : Grows id v db) where
  create-Grows : (new : NewAccount) → Returns (Grows id v) (created (create_account unicode new db))
  unfolding create_account created find_account
  create-Grows new = created-Grows id v _ (
      Returns->>= (λ made. Grows id v made.0) (normalize_username unicode new.username) _
        λ username _. Returns->>= _ (normalize_password_hash new.password_hash) _ λ hash _.
          Returns->>= _ (normalize_role new.role) _ λ role _.
            Returns->>= _ (normalize_account_key new.account_key) _ λ key _.
              Returns->>= _ (check_new_row _ db.accounts) _ λ _ fresh.
                Returns->>= _ (chosen_sections role new.sections) _ λ sections _. record {
                  row = g.row;
                  found = find-append (is_row id) db.accounts _ g.found;
                  version = g.version;
                })

  password-Grows :
      (k value : Text) (must_change : Bool) (now : ℕ)
      → Returns (Grows id v) (set_account_password_hash unicode k value must_change now db)
  unfolding set_account_password_hash
  password-Grows k value must_change now =
      Returns->>= (Grows id v) (assert_account_exists db k) _ λ current _.
        Returns->>= (Grows id v) (normalize_password_hash value) _
          λ hash _. update-Grows id k v _ db _ (set_password-Rises hash must_change now) refl g

  disabled-Grows :
      (k : Text) (disabled : Bool) (now : ℕ)
      → Returns (Grows id v) (set_account_disabled unicode k disabled now db)
  unfolding set_account_disabled
  disabled-Grows k disabled now =
      Returns->>= (Grows id v) (assert_account_exists db k) _ λ current _.
        Returns->>= (Grows id v)
          (if disabled && not (is_disabled current)
            then assert_can_remove_active_admin db current
            else ok tt)
          _
          λ _ _.
            Returns-if (Grows id v) (bool_eq disabled (is_disabled current)) _ _ g
              (update-Grows id k v _ db _ (set_disabled-Rises disabled now) refl g)

  archive-Grows :
      (k : Text) (now : ℕ) (o : Option Text) → Returns (Grows id v) (archive unicode k now db o)
  unfolding archive
  archive-Grows k now none = tt
  archive-Grows k now (some name) =
      update-Grows id k v _ db _ (set_deleted-Rises name (comparison_key unicode name) now) refl g

  delete-Grows :
      (fuel : ℕ) (k : Text) (now : ℕ)
      → Returns (Grows id v) (soft_delete_account unicode fuel k now db)
  unfolding soft_delete_account
  delete-Grows fuel k now = Returns->>= (Grows id v) (assert_account_exists db k) _ λ current _.
      Returns->>= (Grows id v) (assert_can_remove_active_admin db current) _ λ _ _.
        archive-Grows k now
          (free_tombstone unicode fuel k (tombstone k) (tombstone k) 2 db.accounts)

  update_account-Grows :
      (k : Text) (changes : Changes) → Returns (Grows id v) (update_account unicode k changes db)
  unfolding update_account apply_update
  update_account-Grows k changes =
      Returns->>= (Grows id v) (assert_account_exists db k) _ λ current _.
        Returns->>= (Grows id v) (next_username unicode changes.username current) _ λ username _.
          Returns->>= (Grows id v) (next_role changes.role current) _ λ role _.
            Returns->>= (Grows id v)
              (next_sections changes.sections (account_sections db.grants current.id)) _
              λ sections _.
                Returns->>= (Grows id v) (next_disabled changes.disabled current) _ λ disabled _.
                  Returns->>= (Grows id v)
                    (if is_admin current.role
                        && not (is_disabled current)
                        && (not (is_admin role) || disabled)
                      then assert_can_remove_active_admin db current
                      else ok tt)
                    _
                    λ _ _.
                      Returns-if (Grows id v)
                        (username_taken current.id (comparison_key unicode username) db.accounts) _
                        _ tt
                        (update-Grows id current.id v _ db _
                          (write_update-Rises username (comparison_key unicode username) role
                            disabled _ changes.now current)
                          refl g)

  commit-Grows : (m : Result AccountError Db) → Returns (Grows id v) m → Grows id v (commit db m)
  unfolding commit
  commit-Grows (ok db2) h = h
  commit-Grows (err e) h = g

  step-Grows : (r : Request) → Grows id v (step unicode db r)
  unfolding step
  step-Grows (create new) = commit-Grows _ (create-Grows new)
  step-Grows (update k changes) = commit-Grows _ (update_account-Grows k changes)
  step-Grows (change_password k value must_change now) =
      commit-Grows _ (password-Grows k value must_change now)
  step-Grows (disable k disabled now) = commit-Grows _ (disabled-Grows k disabled now)
  step-Grows (delete fuel k now) = commit-Grows _ (delete-Grows fuel k now)

-- No sequence of account operations removes an account's row or lowers its version.
pub run-Grows :
    (id : Text) (v : ℕ) (unicode : Unicode) (db : Db) (requests : List Request)
    → Grows id v db
    → Grows id v (run unicode db requests)
unfolding run
run-Grows id v unicode db [] g = g
run-Grows id v unicode db (r ∷ rest) g =
    run-Grows id v unicode (step unicode db r) rest (step-Grows id v unicode db g r)

-- A new password raises the version.
pub set_account_password_hash-Grows :
    (unicode : Unicode) (id value : Text) (must_change : Bool) (now : ℕ) (db : Db) (a : Account)
    → find_account true db id ≡ some a
    → Returns
        (Grows id (suc a.auth_version))
        (set_account_password_hash unicode id value must_change now db)
unfolding set_account_password_hash find_account set_password has_account_id
set_account_password_hash-Grows unicode id value must_change now db a found =
    Returns->>= (Grows id (suc a.auth_version)) (assert_account_exists db id) _ λ current _.
      Returns->>= (Grows id (suc a.auth_version)) (normalize_password_hash value) _ λ hash _.
        record {
          row = set_password hash must_change now a;
          found =
              find-update_accounts id id (set_password hash must_change now) (λ b. refl) db.accounts
                a found
              ∙ rw ((text_eq_iff a.id id).1 (find_account-id id db found)) refl;
          version = omega arith;
        }
