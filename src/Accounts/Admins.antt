-- ===== src/Accounts/Admins.antt =====
-- At least one active administrator remains, and no two rows of accounts have the same id.
use labaiacinghiala.Common.{
  ℕ, ◌+◌, ◌≤◌, ◌<◌, Bool, true, false, ◌&&◌, ◌||◌, Option, none, some, List, [], ◌∷◌, ◌++◌, ◌≡◌,
  refl, ◌⊎◌, inl, inr, arith, Text, text_eq, text_eq_iff, find, any, Bool-cases, Option-cases, ok,
  subst,
}
use labaiacinghiala.Store.{Account, Db, is_null}
use labaiacinghiala.Accounts.Rows.{
  has_account_id, find_account, or_not_found, assert_account_exists, is_active_admin,
  active_admins_besides, assert_can_remove_active_admin, update_accounts,
}

abbrev pub bit : Bool → ℕ
bit true = 1
bit false = 0

-- How many rows have the id, how many of them are active administrators, and how many rows are.
unfoldable pub id_count : Text → List Account → ℕ
id_count id [] = 0
id_count id (a ∷ rest) = bit (has_account_id id a) + id_count id rest

active_at : Text → List Account → ℕ
active_at id [] = 0
active_at id (a ∷ rest) = bit (is_active_admin a && has_account_id id a) + active_at id rest

unfoldable pub active_admins : List Account → ℕ
active_admins [] = 0
active_admins (a ∷ rest) = bit (is_active_admin a) + active_admins rest

active_admins-split :
    (id : Text) (accounts : List Account)
    → active_admins accounts ≡ active_at id accounts + active_admins_besides id accounts
unfolding active_admins active_at active_admins_besides
active_admins-split id [] = refl
active_admins-split id (a ∷ rest) = ground (arith, active_admins-split id rest)

-- A change of the columns of a row other than its id.
abbrev pub KeepsId : (Account → Account) → Type 0
KeepsId change = (a : Account) → (change a).id ≡ a.id

module _ (id : Text) (change : Account → Account) (keeps : KeepsId change) where
  same_id : (a : Account) (j : Text) → has_account_id j (change a) ≡ has_account_id j a
  unfolding has_account_id
  same_id a j = rw (keeps a)

  id_count-update :
      (j : Text) (accounts : List Account)
      → id_count j (update_accounts id change accounts) ≡ id_count j accounts
  unfolding id_count update_accounts
  id_count-update j [] = refl
  id_count-update j (a ∷ rest) = ground (arith, same_id a j, id_count-update j rest)

  besides-update :
      (accounts : List Account)
      → active_admins_besides id (update_accounts id change accounts)
        ≡ active_admins_besides id accounts
  unfolding active_admins_besides update_accounts
  besides-update [] = refl
  besides-update (a ∷ rest) = ground (arith, same_id a id, besides-update rest)

  active_at-none :
      (accounts : List Account)
      → id_count id accounts ≡ 0
      → active_at id (update_accounts id change accounts) ≡ 0
  unfolding active_at update_accounts id_count
  active_at-none [] h = refl
  active_at-none (a ∷ rest) h = ground (arith, same_id a id, active_at-none rest)

active_at-zero :
    (id : Text) (accounts : List Account) → id_count id accounts ≡ 0 → active_at id accounts ≡ 0
unfolding active_at id_count
active_at-zero id [] h = refl
active_at-zero id (a ∷ rest) h = ground (arith, active_at-zero id rest)

-- getAccountById without the deleted rows.
pub find_live : Text → List Account → Option Account
find_live id accounts =
    find (λ (a : Account). has_account_id id a && (false || is_null a.deleted_at)) accounts

find_live-none :
    (id : Text) (accounts : List Account) → id_count id accounts ≡ 0 → find_live id accounts ≡ none
unfolding find_live id_count
find_live-none id [] h = refl
find_live-none id (b ∷ rest) h = ground (arith, find_live-none id rest)

-- With unique ids, the row that is found is the only one that an UPDATE with its id changes.
active_at-found :
    (id : Text) (change : Account → Account)
    → KeepsId change
    → (accounts : List Account) (current : Account) → id_count id accounts ≤ 1
    → find_live id accounts ≡ some current
    → (active_at id accounts ≡ bit (is_active_admin current))
      × (active_at id (update_accounts id change accounts) ≡ bit (is_active_admin (change current)))
unfolding active_at update_accounts find_live id_count
active_at-found id change keeps [] current h e = cc
active_at-found id change keeps (a ∷ rest) current h e = elim (Bool-cases (has_account_id id a)) [
  | inl is ↦ ground (
    arith,
    same_id id change keeps a id,
    active_at-none id change keeps rest,
    active_at-zero id rest,
    find_live-none id rest,
  )
  | inr other ↦
      ground (arith, same_id id change keeps a id, active_at-found id change keeps rest current)
]

-- What every reachable state of the tables satisfies.
pub record IsSafe (accounts : List Account) : Type 0 where
  pub unique : (id : Text) → id_count id accounts ≤ 1
  pub admin : 0 < active_admins accounts

update-IsSafe :
    (id : Text) (change : Account → Account)
    → KeepsId change
    → (accounts : List Account) (current : Account) → find_live id accounts ≡ some current
    → (is_active_admin current ≡ true
        → (is_active_admin (change current) ≡ true) ⊎ (0 < active_admins_besides id accounts))
    → IsSafe accounts
    → IsSafe (update_accounts id change accounts)
update-IsSafe id change keeps accounts current found guard s =
    let (before, after) = active_at-found id change keeps accounts current (s.unique id) found in
    record {
      unique = λ j. omega (arith, id_count-update id change keeps j accounts, s.unique j);
      admin = ground (
        arith,
        before,
        after,
        guard,
        s.admin,
        active_admins-split id accounts,
        active_admins-split id (update_accounts id change accounts),
        besides-update id change keeps accounts,
      );
    }

-- assertCanRemoveActiveAdmin lets an active administrator go only if there is another.
removal_guard :
    (db : Db) (a : Account) {u : Unit {0}}
    → assert_can_remove_active_admin db a ≡ ok u
    → is_active_admin a ≡ true
    → 0 < active_admins_besides a.id db.accounts
unfolding assert_can_remove_active_admin
removal_guard db a h active = ground arith

pub exists-found :
    (db : Db) (id : Text) {a : Account}
    → assert_account_exists db id ≡ ok a
    → find_live id db.accounts ≡ some a
unfolding assert_account_exists find_account find_live or_not_found
exists-found db id h = elim (Option-cases (find_live id db.accounts)) [
  | inl e ↦ ground (arith, e)
  | inr (b, e) ↦ ground (arith, e)
]

pub find_live-id :
    (id : Text) (accounts : List Account) (current : Account)
    → find_live id accounts ≡ some current
    → current.id ≡ id
unfolding find_live has_account_id
find_live-id id [] current e = cc
find_live-id id (a ∷ rest) current e =
    elim (Bool-cases (text_eq a.id id && (false || is_null a.deleted_at))) [
      | inl is ↦ ground (arith, text_eq_iff a.id id)
      | inr other ↦ find_live-id id rest current (ground arith)
    ]

-- A row with a new id that is appended.
append-active :
    (accounts : List Account) (row : Account)
    → active_admins accounts ≤ active_admins (accounts ++ row ∷ [])
unfolding active_admins
append-active [] row = omega arith
append-active (a ∷ rest) row = omega (arith, append-active rest row)

append-count :
    (id : Text) (accounts : List Account) (row : Account)
    → id_count id (accounts ++ row ∷ []) ≡ id_count id accounts + bit (has_account_id id row)
unfolding id_count
append-count id [] row = omega arith
append-count id (a ∷ rest) row = omega (arith, append-count id rest row)

absent-count :
    (id : Text) (accounts : List Account)
    → any (has_account_id id) accounts ≡ false
    → id_count id accounts ≡ 0
unfolding id_count
absent-count id [] h = refl
absent-count id (a ∷ rest) h = ground (arith, absent-count id rest)

append_unique :
    (row : Account) (accounts : List Account) (j : Text)
    → any (has_account_id row.id) accounts ≡ false
    → id_count j accounts ≤ 1
    → id_count j (accounts ++ row ∷ []) ≤ 1
unfolding has_account_id
append_unique row accounts j new h = elim (Bool-cases (text_eq row.id j)) [
  | inl same ↦
      let zero_count = absent-count row.id accounts new in
      subst (λ k. id_count k (accounts ++ row ∷ []) ≤ 1) ((text_eq_iff row.id j).0 same)
        (ground (arith, append-count row.id accounts row, zero_count))
  | inr other ↦ ground (arith, append-count j accounts row)
]

pub append-IsSafe :
    (row : Account) (accounts : List Account)
    → any (has_account_id row.id) accounts ≡ false
    → IsSafe accounts
    → IsSafe (accounts ++ row ∷ [])
append-IsSafe row accounts new s = record {
  unique = λ j. append_unique row accounts j new (s.unique j);
  admin = omega (arith, append-active accounts row, s.admin);
}

-- An UPDATE of the row of `id` that keeps an active administrator, or that the guard allows.
pub found-IsSafe :
    (db : Db) (id : Text) (change : Account → Account)
    → KeepsId change
    → (current : Account) → assert_account_exists db id ≡ ok current
    → (is_active_admin current ≡ true
        → (is_active_admin (change current) ≡ true)
          ⊎ (assert_can_remove_active_admin db current ≡ ok tt))
    → IsSafe db.accounts
    → IsSafe (update_accounts id change db.accounts)
found-IsSafe db id change keeps current found allowed s =
    let live = exists-found db id found in
    update-IsSafe id change keeps db.accounts current live
      (λ active. elim (allowed active) [
        | inl stays ↦ inl stays
        | inr guard ↦ inr (
            subst (λ j. 0 < active_admins_besides j db.accounts)
              (find_live-id id db.accounts current live) (removal_guard db current guard active))
      ])
      s
