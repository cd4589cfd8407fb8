-- ===== src/Administration/Unbound.antt =====
-- Devices are signed out when an administrator resets a password, deletes an account or logs its
-- devices out.
use labaiacinghiala.Common.{
  some-inj, ℕ, Bool, true, false, Option, some, List, [], ◌∷◌, ◌≡◌, refl, inl, inr, arith, Text,
  update_rows, count_rows, Bool-cases, ok, Returns, Returns->>=, Returns-ok, subst,
}
use labaiacinghiala.Store.{Device, Db}
use labaiacinghiala.Accounts.{set_account_password_hash, soft_delete_account}
use labaiacinghiala.Accounts.Rows.{Unicode, find_account}
use labaiacinghiala.Sessions.{Passwords, unbound}
use labaiacinghiala.Administration.{
  lift, normalize_required_boolean, assert_different_account, existing, is_bound,
  clear_account_device_bindings, managed_hash, check_unchanged, reset_managed_password,
  delete_managed_account, logout_managed_account_devices,
}
use labaiacinghiala.Administration.Actions.{
  Action, creates, updates, resets, deletes, logs_out, tables, tables-Returns, perform, dismissed,
}

none_bound :
    (id : Text) (devices : List Device)
    → count_rows (is_bound id) (update_rows (is_bound id) unbound devices) ≡ 0
unfolding is_bound unbound
none_bound id [] = refl
none_bound id (d ∷ rest) = elim (Bool-cases (is_bound id d)) [
  | inl bound ↦ rw bound (omega (arith, none_bound id rest))
  | inr other ↦ rw (other, other) (omega (arith, none_bound id rest))
]

-- No row of a device is bound to the account.
abbrev Unbound : Text → Db → Type 0
Unbound id db = count_rows (is_bound id) db.devices ≡ 0

cleared-Unbound : (id : Text) (db : Db) → Unbound id (clear_account_device_bindings id db).0
unfolding clear_account_device_bindings
cleared-Unbound id db = none_bound id db.devices

reset-Unbound :
    (unicode : Unicode) (passwords : Passwords) (actor id password : Text)
    (must_change : Option (Option Bool)) (now : ℕ) (before db : Db)
    → Returns
        (λ out. Unbound id out.0)
        (reset_managed_password unicode passwords actor id password must_change now before db)
unfolding reset_managed_password
reset-Unbound unicode passwords actor id password must_change now before db =
    Returns->>= _ (assert_different_account actor id) _ λ _ _.
      Returns->>= _ (normalize_required_boolean must_change true) _ λ require_change _.
        Returns->>= _ (existing (find_account false before id)) _ λ snapshot _.
          Returns->>= _ (managed_hash unicode passwords password) _ λ hash _.
            Returns->>= _ (existing (find_account false db id)) _ λ current _.
              Returns->>= _ (check_unchanged unicode passwords snapshot current) _ λ _ _.
                Returns->>= _
                  (lift (set_account_password_hash unicode id hash require_change now db)) _
                  λ updated _.
                    Returns->>= _
                      (existing
                        (find_account false (clear_account_device_bindings id updated).0 id))
                      _ λ account _. cleared-Unbound id updated

delete-Unbound :
    (unicode : Unicode) (passwords : Passwords) (fuel : ℕ) (actor id : Text) (now : ℕ) (db : Db)
    → Returns
        (λ out. Unbound id out.0)
        (delete_managed_account unicode passwords fuel actor id now db)
unfolding delete_managed_account
delete-Unbound unicode passwords fuel actor id now db =
    Returns->>= _ (assert_different_account actor id) _ λ _ _.
      Returns->>= _ (existing (find_account false db id)) _ λ current _.
        Returns->>= _ (lift (soft_delete_account unicode fuel id now db)) _
          λ deleted _. cleared-Unbound id deleted

logout-Unbound :
    (actor id : Text) (db : Db)
    → Returns (λ out. Unbound id out.0) (logout_managed_account_devices actor id db)
unfolding logout_managed_account_devices
logout-Unbound actor id db =
    Returns->>= _ (assert_different_account actor id) _ λ _ _.
      Returns->>= _ (existing (find_account false db id)) _ λ account _. cleared-Unbound id db

perform-Unbound :
    (unicode : Unicode) (passwords : Passwords) (actor id : Text) (action : Action) (db : Db)
    → dismissed action ≡ some id
    → Returns (Unbound id) (perform unicode passwords actor action db)
unfolding perform dismissed
perform-Unbound unicode passwords actor id (creates new password must_change) db h = cc
perform-Unbound unicode passwords actor id (updates k changes) db h = cc
perform-Unbound unicode passwords actor id (resets k password must_change now before) db h =
    subst
      (λ i. Returns (Unbound i) (
        tables
          (reset_managed_password unicode passwords actor k password must_change now before db)))
      (some-inj h)
      (tables-Returns (Unbound k) _
        (reset-Unbound unicode passwords actor k password must_change now before db))
perform-Unbound unicode passwords actor id (deletes fuel k now) db h =
    subst
      (λ i.
        Returns (Unbound i) (tables (delete_managed_account unicode passwords fuel actor k now db)))
      (some-inj h)
      (tables-Returns (Unbound k) _ (delete-Unbound unicode passwords fuel actor k now db))
perform-Unbound unicode passwords actor id (logs_out k) db h =
    subst (λ i. Returns (Unbound i) (tables (logout_managed_account_devices actor k db)))
      (some-inj h) (tables-Returns (Unbound k) _ (logout-Unbound actor k db))

-- An operation that dismisses an account's devices and succeeds leaves no device bound to it.
pub perform_unbinds :
    (unicode : Unicode) (passwords : Passwords) (actor id : Text) (action : Action) (db after : Db)
    → dismissed action ≡ some id
    → perform unicode passwords actor action db ≡ ok after
    → count_rows (is_bound id) after.devices ≡ 0
perform_unbinds unicode passwords actor id action db after h e =
    Returns-ok (Unbound id) (perform unicode passwords actor action db)
      (perform-Unbound unicode passwords actor id action db h) e
