-- ===== src/Administration/Tests.antt =====
-- The theorems on administration at an administrator, a user and the user's phone.
use labaiacinghiala.Accounts.Sections.{account_sections, effective_sections}
use labaiacinghiala.Common.{
  true, false, none, some, List, [], ◌∷◌, codes, text_eq, ◌≡◌, refl, ok, err, count_rows,
}
use labaiacinghiala.Store.{Device, Db, user, administrator, login}
use labaiacinghiala.Accounts.Rows.{find_account, has_account_id, is_active_admin, is_admin}
use labaiacinghiala.Accounts.Own.{ActiveAdmin}
use labaiacinghiala.Sessions.{unbound}
use labaiacinghiala.Administration.{
  version_of_account, sign_out_changed, check_unchanged, managed_hash, normalize_required_boolean,
  has_password, boolean_invalid, account_changed, AccountView, assert_different_account, existing,
  is_bound, clear_account_device_bindings, logout_managed_account_devices, active_device_count,
  is_active_device, account_admin_view, get_managed_account, reset_managed_password,
}
use labaiacinghiala.Administration.Actions.{
  Action, updates, deletes, logs_out, perform, run, dismissed,
}
use labaiacinghiala.Administration.Unbound.{perform_unbinds}
use labaiacinghiala.Administration.Actor.{run-ActiveAdmin}
use labaiacinghiala.Samples.{ascii, plain, account, device}

abbrev phone : Device
phone = record (device (codes "phone")) {
  active_account_id = some (codes "guest");
  active_account_auth_version = some 1;
  account_authenticated_at = some 1;
  account_binding_source = some login;
}

abbrev household : Db
household = record {
  accounts = account (codes "root") administrator ∷ account (codes "guest") user ∷ [];
  grants = [];
  devices = phone ∷ [];
  invites = [];
}

abbrev signed_out : Db
signed_out = record household { devices = unbound phone ∷ [] }

one_device : active_device_count household (codes "guest") ≡ 1
unfolding active_device_count is_active_device is_bound find_account has_account_id text_eq
one_device = refl

logged_out : perform ascii plain (codes "root") (logs_out (codes "guest")) household ≡ ok signed_out
unfolding perform logout_managed_account_devices assert_different_account existing
    clear_account_device_bindings is_bound find_account has_account_id text_eq
logged_out = refl

perform_unbinds_example : count_rows (is_bound (codes "guest")) signed_out.devices ≡ 0
unfolding dismissed
perform_unbinds_example =
    perform_unbinds ascii plain (codes "root") (codes "guest") (logs_out (codes "guest")) household
      signed_out refl logged_out

abbrev actions : List Action
actions =
    updates (codes "root") (record {
      username = none;
      role = some (codes "user");
      sections = none;
      disabled = none;
      now = 4;
    })
    ∷ deletes 3 (codes "root") 5
    ∷ deletes 3 (codes "guest") 6
    ∷ []

run-ActiveAdmin_example :
    ActiveAdmin (codes "root") (run ascii plain (codes "root") actions household)
unfolding find_account has_account_id is_active_admin is_admin text_eq
run-ActiveAdmin_example =
    run-ActiveAdmin ascii plain (codes "root") actions household refl
      (record { row = account (codes "root") administrator; found = refl; active = refl })

abbrev guest_view : AccountView
guest_view = record {
  id = codes "guest";
  username = codes "guest";
  role = user;
  sections = [];
  password_configured = true;
  must_change_password = false;
  disabled = false;
  active_device_count = 1;
  current = false;
  created_at = 0;
  updated_at = 0;
}

viewed : get_managed_account household (codes "guest") (codes "root") ≡ ok guest_view
unfolding get_managed_account account_admin_view existing find_account text_eq effective_sections
    has_password active_device_count account_sections is_active_device is_bound
viewed = refl

-- The account was changed while the password was hashed.
overtaken :
    reset_managed_password ascii plain
      (codes "root")
      (codes "guest")
      (codes "new")
      none
      7
      household
      (record household {
        accounts =
            account (codes "root") administrator
            ∷ record (account (codes "guest") user) { auth_version = 2 }
            ∷ [];
      })
    ≡ err account_changed
unfolding reset_managed_password assert_different_account text_eq normalize_required_boolean
    existing find_account managed_hash check_unchanged
overtaken = refl

not_a_boolean :
    reset_managed_password ascii plain
      (codes "root")
      (codes "guest")
      (codes "new")
      (some none)
      7
      household
      household
    ≡ err boolean_invalid
unfolding reset_managed_password assert_different_account text_eq normalize_required_boolean
not_a_boolean = refl

-- The version of the account is not the one that it had.
signs_out :
    sign_out_changed
      (codes "guest")
      (record (account (codes "guest") user) { auth_version = 0 })
      household
    ≡ signed_out
unfolding sign_out_changed version_of_account find_account text_eq clear_account_device_bindings
    unbound is_bound
signs_out = refl
