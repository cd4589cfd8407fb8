-- ===== src/Accounts/Own.antt =====
-- One account that is an active administrator, through the operations on accounts.
use labaiacinghiala.Common.{
  some-inj, ℕ, Bool, true, false, not, ◌&&◌, ◌||◌, Option, none, some, List, [], ◌∷◌, ◌≡◌, refl,
  inl, inr, arith, Text, text_eq, text_eq_iff, find, find-append, if◌then◌else◌, find-holds,
  Option-cases, Bool-cases, ok, Returns, Returns->>=, Returns-if, subst, sym, ap, ◌∙◌,
}
use labaiacinghiala.Store.{Account, Db, Role, Section, is_null}
use labaiacinghiala.Accounts.Sections.{account_sections}
use labaiacinghiala.Accounts.Admins.{KeepsId}
use labaiacinghiala.Accounts.{
  apply_update, archive, create_account, update_account, set_account_password_hash,
  soft_delete_account, normalize_username, next_username, comparison_key,
}
use labaiacinghiala.Accounts.Rows.{
  Unicode, NewAccount, Changes, has_account_id, find_account, or_not_found, assert_account_exists,
  assert_can_remove_active_admin, is_active_admin, update_accounts, write_update, set_password,
  set_deleted, check_new_row, normalize_password_hash, normalize_role, normalize_account_key,
  chosen_sections, next_role, next_sections, next_disabled, is_admin, is_disabled, username_taken,
}

-- The account stands in the table and is an active administrator.
pub record ActiveAdmin (id : Text) (db : Db) : Type 0 where
  pub row : Account
  pub found : find_account false db id ≡ some row
  pub active : is_active_admin row ≡ true

abbrev is_live : Text → Account → Bool
is_live id a = has_account_id id a && (false || is_null a.deleted_at)

find-update_other :
    (id k : Text) (change : Account → Account)
    → KeepsId change
    → text_eq id k ≡ false
    → (accounts : List Account)
    → find (is_live id) (update_accounts k change accounts) ≡ find (is_live id) accounts
unfolding update_accounts has_account_id
find-update_other id k change keeps apart [] = refl
find-update_other id k change keeps apart (a ∷ rest) = elim (Bool-cases (text_eq a.id k)) [
  | inr other ↦ ground (arith, other, find-update_other id k change keeps apart rest)
  | inl same ↦
      let e : a.id ≡ k = (text_eq_iff a.id k).0 same in
      let not_id : text_eq a.id id ≡ false =
        ground (arith, apart, e, text_eq_iff a.id id, text_eq_iff id k) in
      ground (arith, same, not_id, keeps a, find-update_other id k change keeps apart rest)
]

find-update_same :
    (id : Text) (change : Account → Account)
    → KeepsId change
    → ((a : Account) → (change a).deleted_at ≡ a.deleted_at)
    → (accounts : List Account) (a : Account) → find (is_live id) accounts ≡ some a
    → find (is_live id) (update_accounts id change accounts) ≡ some (change a)
unfolding update_accounts has_account_id
find-update_same id change keeps lives [] a h = cc
find-update_same id change keeps lives (b ∷ rest) a h =
    ground (arith, keeps b, lives b, find-update_same id change keeps lives rest a)

live_admin :
    (a : Account)
    → is_active_admin a ≡ true
    → (is_admin a.role && true && is_null a.deleted_at) ≡ true
unfolding is_active_admin
live_admin a h = ground (arith, h)

exists_account :
    (db : Db) (k : Text) {a : Account}
    → assert_account_exists db k ≡ ok a
    → (find_account false db k ≡ some a) × (a.id ≡ k)
unfolding assert_account_exists or_not_found find_account has_account_id
exists_account db k {a} h = elim (Option-cases (find (is_live k) db.accounts)) [
  | inl missing ↦ absurd (ground (arith, missing, h))
  | inr (b, found) ↦
      let same : b ≡ a = ground (arith, found, h) in
      let holds = find-holds (is_live k) db.accounts {a = b} found in
      subst (λ x. (find (is_live k) db.accounts ≡ some x) × (x.id ≡ k)) same
        (found, ground (arith, holds, text_eq_iff b.id k))
]

module _ (id : Text) where
  -- An UPDATE of another row, or one of this row that leaves it an active administrator.
  other-ActiveAdmin :
      (k : Text) (change : Account → Account) (db db2 : Db)
      → KeepsId change
      → text_eq id k ≡ false
      → db2.accounts ≡ update_accounts k change db.accounts
      → ActiveAdmin id db
      → ActiveAdmin id db2
  unfolding find_account
  other-ActiveAdmin k change db db2 keeps apart e s = record {
    row = s.row;
    found =
        ap (find (is_live id)) e ∙ find-update_other id k change keeps apart db.accounts ∙ s.found;
    active = s.active;
  }

  own-ActiveAdmin :
      (k : Text) (change : Account → Account) (db db2 : Db)
      → KeepsId change
      → ((a : Account) → (change a).deleted_at ≡ a.deleted_at)
      → k ≡ id
      → (s : ActiveAdmin id db) → is_active_admin (change s.row) ≡ true
      → db2.accounts ≡ update_accounts k change db.accounts
      → ActiveAdmin id db2
  unfolding find_account
  own-ActiveAdmin k change db db2 keeps lives same s active e = record {
    row = change s.row;
    found =
        ap (find (is_live id)) e
        ∙ ap (λ i. find (is_live id) (update_accounts i change db.accounts)) same
        ∙ find-update_same id change keeps lives db.accounts s.row s.found;
    active = active;
  }

  pub create_account-ActiveAdmin :
      (unicode : Unicode) (new : NewAccount) (db : Db)
      → ActiveAdmin id db
      → Returns (λ made. ActiveAdmin id made.0) (create_account unicode new db)
  unfolding create_account find_account
  create_account-ActiveAdmin unicode new db s =
      Returns->>= _ (normalize_username unicode new.username) _ λ username _.
        Returns->>= _ (normalize_password_hash new.password_hash) _ λ hash _.
          Returns->>= _ (normalize_role new.role) _ λ role _.
            Returns->>= _ (normalize_account_key new.account_key) _ λ key _.
              Returns->>= _ (check_new_row _ db.accounts) _ λ _ _.
                Returns->>= _ (chosen_sections role new.sections) _ λ sections _. record {
                  row = s.row;
                  found = find-append (is_live id) db.accounts _ {a = s.row} s.found;
                  active = s.active;
                }

  pub set_account_password_hash-ActiveAdmin :
      (unicode : Unicode) (k value : Text) (must_change : Bool) (now : ℕ) (db : Db)
      → text_eq id k ≡ false
      → ActiveAdmin id db
      → Returns (ActiveAdmin id) (set_account_password_hash unicode k value must_change now db)
  unfolding set_account_password_hash set_password
  set_account_password_hash-ActiveAdmin unicode k value must_change now db apart s =
      Returns->>= _ (assert_account_exists db k) _ λ current _.
        Returns->>= _ (normalize_password_hash value) _ λ hash _.
          other-ActiveAdmin k (set_password hash must_change now) db _ (λ a. refl) apart refl s

  archive-ActiveAdmin :
      (unicode : Unicode) (k : Text) (now : ℕ) (db : Db) (name : Option Text)
      → text_eq id k ≡ false
      → ActiveAdmin id db
      → Returns (ActiveAdmin id) (archive unicode k now db name)
  unfolding archive set_deleted
  archive-ActiveAdmin unicode k now db none apart s = tt
  archive-ActiveAdmin unicode k now db (some name) apart s =
      other-ActiveAdmin k (set_deleted name (comparison_key unicode name) now) db _ (λ a. refl)
        apart refl s

  pub soft_delete_account-ActiveAdmin :
      (unicode : Unicode) (fuel : ℕ) (k : Text) (now : ℕ) (db : Db)
      → text_eq id k ≡ false
      → ActiveAdmin id db
      → Returns (ActiveAdmin id) (soft_delete_account unicode fuel k now db)
  unfolding soft_delete_account
  soft_delete_account-ActiveAdmin unicode fuel k now db apart s =
      Returns->>= _ (assert_account_exists db k) _ λ current _.
        Returns->>= _ (assert_can_remove_active_admin db current) _
          λ _ _. archive-ActiveAdmin unicode k now db _ apart s

  -- The fields of an update that leave the account's own role and state.
  unfoldable pub Harmless : Account → Changes → Type 0
  Harmless row changes =
      ((r : Role) → next_role changes.role row ≡ ok r → r ≡ row.role)
      × ((b : Bool) → next_disabled changes.disabled row ≡ ok b → b ≡ false)

  apply_update-ActiveAdmin :
      (unicode : Unicode) (current : Account) (username : Text) (role : Role) (disabled : Bool)
      (sections : List Section) (changes : Changes) (db : Db)
      → current.id ≡ id
      → find_account false db id ≡ some current
      → is_active_admin current ≡ true
      → role ≡ current.role
      → disabled ≡ false
      → Returns
          (ActiveAdmin id)
          (apply_update unicode current username role disabled sections changes db)
  unfolding apply_update write_update is_active_admin
  apply_update-ActiveAdmin unicode current username role disabled sections changes db same found
        active r d =
      Returns-if (ActiveAdmin id)
        (username_taken current.id (comparison_key unicode username) db.accounts) _ _ tt
        (own-ActiveAdmin current.id _ db _ (λ a. refl) (λ a. refl) same
          (record { row = current; found = found; active = active })
          (rw (r, d) (live_admin current active)) refl)

  apply_other :
      (unicode : Unicode) (current : Account) (username : Text) (role : Role) (disabled : Bool)
      (sections : List Section) (changes : Changes) (db : Db)
      → text_eq id current.id ≡ false
      → ActiveAdmin id db
      → Returns
          (ActiveAdmin id)
          (apply_update unicode current username role disabled sections changes db)
  unfolding apply_update write_update
  apply_other unicode current username role disabled sections changes db apart s =
      Returns-if (ActiveAdmin id)
        (username_taken current.id (comparison_key unicode username) db.accounts) _ _ tt
        (other-ActiveAdmin current.id _ db _ (λ a. refl) apart refl s)

  either_update :
      (unicode : Unicode) (k : Text) (current : Account) (username : Text) (role : Role)
      (disabled : Bool) (sections : List Section) (changes : Changes) (db : Db)
      → (s : ActiveAdmin id db) → (text_eq id k ≡ true → Harmless s.row changes)
      → assert_account_exists db k ≡ ok current
      → next_role changes.role current ≡ ok role
      → next_disabled changes.disabled current ≡ ok disabled
      → Returns
          (ActiveAdmin id)
          (apply_update unicode current username role disabled sections changes db)
  unfolding Harmless
  either_update unicode k current username role disabled sections changes db s harmless exists r d =
      let (found, named) = exists_account db k exists in
      elim (Bool-cases (text_eq id k)) [
        | inr apart ↦
            apply_other unicode current username role disabled sections changes db
              (ap (text_eq id) named ∙ apart) s
        | inl same ↦
            let k_id : id ≡ k = (text_eq_iff id k).0 same in
            let mine = ap (find_account false db) k_id ∙ found in
            let row : s.row ≡ current = some-inj (sym s.found ∙ mine) in
            let (keeps_role, stays) =
              subst
                (λ (x : Account).
                  ((y : Role) → next_role changes.role x ≡ ok y → y ≡ x.role)
                  × ((b : Bool) → next_disabled changes.disabled x ≡ ok b → b ≡ false))
                row (harmless same) in
            apply_update-ActiveAdmin unicode current username role disabled sections changes db
              (named ∙ sym k_id) mine (ap is_active_admin (sym row) ∙ s.active) (keeps_role role r)
              (stays disabled d)
      ]

  -- An update that leaves the account's own role and state, or that is of another account.
  pub update_account-ActiveAdmin :
      (unicode : Unicode) (k : Text) (changes : Changes) (db : Db)
      → (s : ActiveAdmin id db) → (text_eq id k ≡ true → Harmless s.row changes)
      → Returns (ActiveAdmin id) (update_account unicode k changes db)
  unfolding update_account
  update_account-ActiveAdmin unicode k changes db s harmless =
      Returns->>= _ (assert_account_exists db k) _ λ current exists.
        Returns->>= _ (next_username unicode changes.username current) _ λ username _.
          Returns->>= _ (next_role changes.role current) _ λ role r.
            Returns->>= _ (next_sections changes.sections (account_sections db.grants current.id)) _
              λ sections _. Returns->>= _ (next_disabled changes.disabled current) _ λ disabled d.
                Returns->>= _
                  (if is_admin current.role
                      && not (is_disabled current)
                      && (not (is_admin role) || disabled)
                    then assert_can_remove_active_admin db current
                    else ok tt)
                  _
                  λ _ _.
                    either_update unicode k current username role disabled sections changes db s
                      harmless exists r d
