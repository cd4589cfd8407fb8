-- ===== src/Accounts/Requests.antt =====
-- The operations of the accounts one after the other, as the routes call them, and what every
-- table that they lead to satisfies.
use labaiacinghiala.Common.{
  ℕ, Bool, true, false, not, ◌&&◌, ◌||◌, none, some, List, [], ◌∷◌, ◌≡◌, refl, ◌⊎◌, inl, inr, arith,
  Text, any, if◌then◌else◌, Returns, Result, ok, err, Returns, Returns->>=, Returns-if, subst, sym,
}
use labaiacinghiala.Store.{Account, Db, Role, Section}
use labaiacinghiala.Accounts.Sections.{AccountError, account_sections}
use labaiacinghiala.Accounts.{
  apply_update, create_account, update_account, set_account_password_hash, set_account_disabled,
  soft_delete_account, archive, normalize_username, next_username, free_tombstone, comparison_key,
}
use labaiacinghiala.Accounts.Rows.{
  Unicode, NewAccount, Changes, has_account_id, assert_account_exists, is_admin, is_active_admin,
  assert_can_remove_active_admin, write_update, set_password, set_disabled, set_deleted,
  check_new_row, normalize_password_hash, normalize_role, normalize_account_key, chosen_sections,
  next_role, next_sections, next_disabled, is_disabled, bool_eq, tombstone, username_taken,
}
use labaiacinghiala.Accounts.Admins.{
  IsSafe, KeepsId, exists-found, find_live-id, found-IsSafe, append-IsSafe,
}

fresh_id :
    (row : Account) (accounts : List Account) {u : Unit {0}}
    → check_new_row row accounts ≡ ok u
    → any (has_account_id row.id) accounts ≡ false
unfolding check_new_row
fresh_id row accounts h = ground arith

abbrev KeepsSafe : Db → Type 0
KeepsSafe db = IsSafe db.accounts

create_account-IsSafe :
    (unicode : Unicode) (new : NewAccount) (db : Db)
    → IsSafe db.accounts
    → Returns (λ made. IsSafe made.0.accounts) (create_account unicode new db)
unfolding create_account
create_account-IsSafe unicode new db s =
    Returns->>= _ (normalize_username unicode new.username) _ λ username _.
      Returns->>= _ (normalize_password_hash new.password_hash) _ λ hash _.
        Returns->>= _ (normalize_role new.role) _ λ role _.
          Returns->>= _ (normalize_account_key new.account_key) _ λ key _.
            Returns->>= _ (check_new_row _ db.accounts) _ λ _ fresh.
              Returns->>= _ (chosen_sections role new.sections) _
                λ sections _. append-IsSafe _ db.accounts (fresh_id _ db.accounts fresh) s

set_account_password_hash-IsSafe :
    (unicode : Unicode) (id value : Text) (must_change : Bool) (now : ℕ) (db : Db)
    → IsSafe db.accounts
    → Returns KeepsSafe (set_account_password_hash unicode id value must_change now db)
unfolding set_account_password_hash set_password is_active_admin
set_account_password_hash-IsSafe unicode id value must_change now db s =
    Returns->>= KeepsSafe (assert_account_exists db id) _ λ current found.
      Returns->>= KeepsSafe (normalize_password_hash value) _ λ hash _.
        found-IsSafe db id (set_password hash must_change now) (λ a. refl) current found
          (λ active. inl active) s

disable_allowed :
    (db : Db) (current : Account) (disabled : Bool) (now : ℕ) {u : Unit {0}}
    → (if disabled && not (is_disabled current)
        then assert_can_remove_active_admin db current
        else ok tt)
      ≡ ok u
    → is_active_admin current ≡ true
    → (is_active_admin (set_disabled disabled now current) ≡ true)
      ⊎ (assert_can_remove_active_admin db current ≡ ok tt)
unfolding is_active_admin set_disabled is_disabled
disable_allowed db current true now guard active = inr (ground arith)
disable_allowed db current false now guard active = inl (ground arith)

set_account_disabled-IsSafe :
    (unicode : Unicode) (id : Text) (disabled : Bool) (now : ℕ) (db : Db)
    → IsSafe db.accounts
    → Returns KeepsSafe (set_account_disabled unicode id disabled now db)
unfolding set_account_disabled set_disabled
set_account_disabled-IsSafe unicode id disabled now db s =
    Returns->>= KeepsSafe (assert_account_exists db id) _ λ current found.
      Returns->>= KeepsSafe
        (if disabled && not (is_disabled current)
          then assert_can_remove_active_admin db current
          else ok tt)
        _
        λ _ guard. Returns-if KeepsSafe (bool_eq disabled (is_disabled current)) _ _ s (
          found-IsSafe db id (set_disabled disabled now) (λ a. refl) current found
            (disable_allowed db current disabled now guard) s)

soft_delete_account-IsSafe :
    (unicode : Unicode) (fuel : ℕ) (id : Text) (now : ℕ) (db : Db)
    → IsSafe db.accounts
    → Returns KeepsSafe (soft_delete_account unicode fuel id now db)
unfolding soft_delete_account set_deleted archive
soft_delete_account-IsSafe unicode fuel id now db s =
    Returns->>= KeepsSafe (assert_account_exists db id) _ λ current found.
      Returns->>= KeepsSafe (assert_can_remove_active_admin db current) _ λ _ guard.
        elim (free_tombstone unicode fuel id (tombstone id) (tombstone id) 2 db.accounts)
          as (λ free. Returns KeepsSafe (archive unicode id now db free)) [
            | none ↦ tt
            | some name ↦
                found-IsSafe db id (set_deleted name (comparison_key unicode name) now) (λ a. refl)
                  current found (λ active. inr guard) s
          ]

write_update-KeepsId :
    (username normalized : Text) (role : Role) (disabled changed : Bool) (now : ℕ)
    (current : Account)
    → KeepsId (write_update username normalized role disabled changed now current)
unfolding write_update
write_update-KeepsId username normalized role disabled changed now current a = refl

update_allowed :
    (db : Db) (current : Account) (username normalized : Text) (role : Role)
    (disabled changed : Bool) (now : ℕ) {u : Unit {0}}
    → (if is_admin current.role && not (is_disabled current) && (not (is_admin role) || disabled)
        then assert_can_remove_active_admin db current
        else ok tt)
      ≡ ok u
    → is_active_admin current ≡ true
    → (is_active_admin (write_update username normalized role disabled changed now current current)
        ≡ true)
      ⊎ (assert_can_remove_active_admin db current ≡ ok tt)
unfolding is_active_admin write_update is_disabled
update_allowed db current username normalized role disabled changed now guard active = ground arith

apply_update-IsSafe :
    (unicode : Unicode) (id : Text) (current : Account) (username : Text) (role : Role)
    (disabled : Bool) (sections : List Section) (changes : Changes) (db : Db)
    → assert_account_exists db id ≡ ok current
    → (if is_admin current.role && not (is_disabled current) && (not (is_admin role) || disabled)
        then assert_can_remove_active_admin db current
        else ok tt)
      ≡ ok tt
    → IsSafe db.accounts
    → Returns KeepsSafe (apply_update unicode current username role disabled sections changes db)
unfolding apply_update
apply_update-IsSafe unicode id current username role disabled sections changes db found guard s =
    let same = find_live-id id db.accounts current (exists-found db id found) in
    Returns-if KeepsSafe (username_taken current.id (comparison_key unicode username) db.accounts) _
      _ tt
      (found-IsSafe db current.id _
        (write_update-KeepsId username _ role disabled _ changes.now current) current
        (subst (λ j. assert_account_exists db j ≡ ok current) (sym same) found)
        (update_allowed db current username _ role disabled _ changes.now guard) s)

update_account-IsSafe :
    (unicode : Unicode) (id : Text) (changes : Changes) (db : Db)
    → IsSafe db.accounts
    → Returns KeepsSafe (update_account unicode id changes db)
unfolding update_account
update_account-IsSafe unicode id changes db s =
    Returns->>= KeepsSafe (assert_account_exists db id) _ λ current found.
      Returns->>= KeepsSafe (next_username unicode changes.username current) _ λ username _.
        Returns->>= KeepsSafe (next_role changes.role current) _ λ role _.
          Returns->>= KeepsSafe
            (next_sections changes.sections (account_sections db.grants current.id)) _
            λ sections _.
              Returns->>= KeepsSafe (next_disabled changes.disabled current) _ λ disabled _.
                Returns->>= KeepsSafe
                  (if is_admin current.role
                      && not (is_disabled current)
                      && (not (is_admin role) || disabled)
                    then assert_can_remove_active_admin db current
                    else ok tt)
                  _
                  λ _ guard.
                    apply_update-IsSafe unicode id current username role disabled sections changes
                      db found guard s

-- The calls that write the accounts, with their arguments; a deletion starts with its fuel.
pub data Request : Type 0 where
  create : NewAccount → Request
  update : Text → Changes → Request
  change_password : Text → Text → Bool → ℕ → Request
  disable : Text → Bool → ℕ → Request
  delete : ℕ → Text → ℕ → Request

-- The tables after a transaction: those it wrote, or on an error the old ones.
unfoldable pub commit : Db → Result AccountError Db → Db
commit db (ok db2) = db2
commit db (err e) = db

unfoldable pub created : Result AccountError (Db × Account) → Result AccountError Db
created (ok (db, row)) = ok db
created (err e) = err e

unfoldable pub step : Unicode → Db → Request → Db
unfolding commit created
step unicode db (create new) = commit db (created (create_account unicode new db))
step unicode db (update id changes) = commit db (update_account unicode id changes db)
step unicode db (change_password id value must_change now) =
    commit db (set_account_password_hash unicode id value must_change now db)
step unicode db (disable id disabled now) =
    commit db (set_account_disabled unicode id disabled now db)
step unicode db (delete fuel id now) = commit db (soft_delete_account unicode fuel id now db)

unfoldable pub run : Unicode → Db → List Request → Db
run unicode db [] = db
run unicode db (r ∷ rest) = run unicode (step unicode db r) rest

commit-IsSafe :
    (db : Db) (m : Result AccountError Db)
    → IsSafe db.accounts
    → Returns KeepsSafe m
    → IsSafe (commit db m).accounts
unfolding commit
commit-IsSafe db (ok db2) s h = h
commit-IsSafe db (err e) s h = s

created-Returns :
    (m : Result AccountError (Db × Account))
    → Returns (λ made. IsSafe made.0.accounts) m
    → Returns KeepsSafe (created m)
unfolding created
created-Returns (ok (db, row)) h = h
created-Returns (err e) h = tt

step-IsSafe :
    (unicode : Unicode) (db : Db) (r : Request)
    → IsSafe db.accounts
    → IsSafe (step unicode db r).accounts
unfolding step
step-IsSafe unicode db (create new) s =
    commit-IsSafe db _ s (created-Returns _ (create_account-IsSafe unicode new db s))
step-IsSafe unicode db (update id changes) s =
    commit-IsSafe db _ s (update_account-IsSafe unicode id changes db s)
step-IsSafe unicode db (change_password id value must_change now) s =
    commit-IsSafe db _ s (set_account_password_hash-IsSafe unicode id value must_change now db s)
step-IsSafe unicode db (disable id disabled now) s =
    commit-IsSafe db _ s (set_account_disabled-IsSafe unicode id disabled now db s)
step-IsSafe unicode db (delete fuel id now) s =
    commit-IsSafe db _ s (soft_delete_account-IsSafe unicode fuel id now db s)

-- Tables whose ids are unique and which have an active administrator keep both through any
-- sequence of account creations, updates, password changes, disablings and deletions, refused
-- ones included.
pub run-IsSafe :
    (unicode : Unicode) (db : Db) (requests : List Request)
    → IsSafe db.accounts
    → IsSafe (run unicode db requests).accounts
unfolding run
run-IsSafe unicode db [] s = s
run-IsSafe unicode db (r ∷ rest) s =
    run-IsSafe unicode (step unicode db r) rest (step-IsSafe unicode db r s)
