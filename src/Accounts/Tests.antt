-- ===== src/Accounts/Tests.antt =====
-- The theorems on accounts, on tables of one administrator.
use labaiacinghiala.Accounts.Sections.{
  account_sections, section_list_eq, replace_grants, normalize_section_keys,
}
use labaiacinghiala.Common.{
  all, lower, Text, ◌≡◌, false, ok, true, none, some, List, [], ◌∷◌, codes, text_eq, to_lower,
  arith, refl, drop_space, is_space, trim,
}
use labaiacinghiala.Store.{music, films, Account, Db, user, administrator}
use labaiacinghiala.Accounts.Archived.{is_plain, soft_delete_account_total}
use labaiacinghiala.Accounts.{
  create_account, apply_update, normalize_username, next_username, comparison_key,
  soft_delete_account, update_account,
}
use labaiacinghiala.Accounts.Rows.{
  chosen_sections, check_new_row, normalize_account_key, normalize_role, normalize_password_hash,
  stored_sections, authorization_changed, write_update, next_disabled, next_sections, next_role,
  username_taken, update_accounts, set_deleted, is_active_admin, has_account_id, find_account,
  assert_account_exists, assert_can_remove_active_admin, is_admin, tombstone,
}
use labaiacinghiala.Accounts.Admins.{IsSafe, id_count, active_admins}
use labaiacinghiala.Accounts.Requests.{
  Request, create, change_password, disable, delete, run, run-IsSafe,
}
use labaiacinghiala.Samples.{ascii, account}

abbrev root_account : Account
root_account = record (account (codes "root") administrator) {
  username = codes "Root";
  must_change_password = true;
}

abbrev one_admin : Db
one_admin = record { accounts = root_account ∷ []; grants = []; devices = []; invites = [] }

one_admin-IsSafe : IsSafe one_admin.accounts
unfolding id_count active_admins is_active_admin has_account_id
one_admin-IsSafe = record { unique = λ id. ground arith; admin = omega arith }

abbrev requests : List Request
requests =
    disable (codes "root") true 5
    ∷ create (record {
      id = codes "second";
      username = codes "Second";
      password_hash = codes "hash2";
      role = codes "admin";
      sections = none;
      account_key = codes "second";
      must_change_password = true;
      now = 6;
    })
    ∷ change_password (codes "root") (codes "hash3") true 7
    ∷ delete 3 (codes "root") 8
    ∷ delete 3 (codes "second") 9
    ∷ []

run-IsSafe_example : IsSafe (run ascii one_admin requests).accounts
run-IsSafe_example = run-IsSafe ascii one_admin requests one_admin-IsSafe

plain_lower : (t : Text) → all is_plain t ≡ true → to_lower t ≡ t
unfolding is_plain to_lower lower
plain_lower [] h = refl
plain_lower (c ∷ t) h =
    let kept : lower c ≡ c = ground (arith, h) in rw (kept, plain_lower t (ground (arith, h))) refl

abbrev guest_account : Text → Account
guest_account id = record root_account { id = id; account_key = id; role = user }

-- Another account has the first name that is tried.
abbrev two_guests : Db
two_guests = record {
  accounts =
      root_account
      ∷ guest_account (codes "guest")
      ∷ record (guest_account (codes "other")) { username_normalized = codes "__deleted__guest" }
      ∷ [];
  grants = [];
  devices = [];
  invites = [];
}

soft_delete_account_total_example :
    (name : Text) × (username_taken (codes "guest") (comparison_key ascii name) two_guests.accounts
      ≡ false)
    × (soft_delete_account ascii 5 (codes "guest") 9 two_guests
        ≡ ok (record two_guests {
          accounts =
              update_accounts
                (codes "guest")
                (set_deleted name (comparison_key ascii name) 9)
                two_guests.accounts;
        }))
unfolding assert_account_exists assert_can_remove_active_admin find_account has_account_id text_eq
    is_active_admin is_admin tombstone trim drop_space is_space is_plain
soft_delete_account_total_example =
    soft_delete_account_total ascii 5 (codes "guest") 9 two_guests (guest_account (codes "guest"))
      (λ t h. refl) plain_lower refl (omega arith) refl refl

-- A user is given two sections, one of them named twice, and a name.
abbrev granted : Db
granted = record {
  accounts =
      root_account
      ∷ record (guest_account (codes "guest")) {
        username = codes "Guest";
        username_normalized = codes "guest";
        auth_version = 2;
        updated_at = 9;
      }
      ∷ [];
  grants =
      record { account_id = codes "guest"; section = films }
      ∷ record { account_id = codes "guest"; section = music }
      ∷ [];
  devices = [];
  invites = [];
}

updated :
    update_account ascii
      (codes "guest")
      (record {
        username = some (codes "Guest");
        role = none;
        sections = some (codes "music" ∷ codes "films" ∷ codes "music" ∷ []);
        disabled = none;
        now = 9;
      })
      (record two_guests { accounts = root_account ∷ guest_account (codes "guest") ∷ [] })
    ≡ ok granted
unfolding update_account assert_account_exists text_eq next_username normalize_username next_role
    next_sections normalize_section_keys next_disabled is_admin apply_update username_taken
    comparison_key update_accounts replace_grants write_update authorization_changed stored_sections
    section_list_eq account_sections
updated = refl

-- A new user without sections.
made :
    create_account ascii
      (record {
        id = codes "guest";
        username = codes "Guest";
        password_hash = codes " secret";
        role = codes "User";
        sections = none;
        account_key = codes "guest ";
        must_change_password = true;
        now = 0;
      })
      one_admin
    ≡ (let row : Account = record (guest_account (codes "guest")) {
      username = codes "Guest";
      username_normalized = codes "guest";
    } in
        ok (record one_admin { accounts = root_account ∷ row ∷ [] }, row))
unfolding create_account normalize_username normalize_password_hash normalize_role
    normalize_account_key check_new_row has_account_id comparison_key chosen_sections replace_grants
made = refl
