-- ===== src/Administration/Actor.antt =====
-- An administrator stays one through everything that they do here.
use labaiacinghiala.Common.{
  ok-inj, ℕ, Bool, true, false, Option, none, some, List, [], ◌∷◌, ◌≡◌, refl, inl, inr, arith, Text,
  codes, text_eq, text_eq_iff, is_empty, trim, to_lower, ◌==◌, Bool-cases, Result, ok, err,
  require-eq-ok, Returns, Returns->>=, Returns-ok, ap, sym, ◌∙◌,
}
use labaiacinghiala.Store.{Db, Account, Role, user, administrator, is_null}
use labaiacinghiala.Accounts.Sections.{AccountError}
use labaiacinghiala.Accounts.{
  create_account, update_account, set_account_password_hash, soft_delete_account,
}
use labaiacinghiala.Accounts.Rows.{
  Unicode, Changes, find_account, next_role, next_disabled, normalize_role, is_disabled,
  is_active_admin,
}
use labaiacinghiala.Accounts.Own.{
  ActiveAdmin, Harmless, create_account-ActiveAdmin, update_account-ActiveAdmin,
  set_account_password_hash-ActiveAdmin, soft_delete_account-ActiveAdmin,
}
use labaiacinghiala.Sessions.{Passwords}
use labaiacinghiala.Administration.{
  AdminError, lift, normalize_required_boolean, assert_different_account, existing,
  clear_account_device_bindings, changes_role, disables, role_text, check_own_update,
  sign_out_changed, get_managed_account, version_of_account, managed_hash, check_unchanged,
  create_managed_account, update_managed_account, reset_managed_password, delete_managed_account,
  logout_managed_account_devices,
}
use labaiacinghiala.Administration.Actions.{
  Action, creates, updates, resets, deletes, logs_out, tables-Returns, perform, kept, run,
}

lift-Returns {ℓ} :
    {A : Type ℓ} (P : A → Type 0) (m : Result AccountError A) → Returns P m → Returns P (lift m)
unfolding lift
lift-Returns P (ok a) h = h
lift-Returns P (err e) h = h

given_role :
    (given : Text) (role result : Role)
    → text_eq (to_lower (trim given)) (role_text role) ≡ true
    → normalize_role given ≡ ok result
    → result ≡ role
unfolding normalize_role text_eq
given_role given user result e n =
    sym (
      ok-inj {E = AccountError}
        (rw ((text_eq_iff (to_lower (trim given)) (codes "user")).0 e) at n))
given_role given administrator result e n = sym (
    ok-inj {E = AccountError} (rw ((text_eq_iff (to_lower (trim given)) (codes "admin")).0 e) at n))

own_role :
    (o : Option Text) (row : Account) (r : Role)
    → changes_role o row.role ≡ false
    → next_role o row ≡ ok r
    → r ≡ row.role
unfolding changes_role next_role
own_role none row r same h = sym (ok-inj {E = AccountError} h)
own_role (some t) row r same h = given_role t row.role r (ground (arith, same)) h

own_disabled :
    (o : Option (Option Bool)) (row : Account) (b : Bool)
    → is_null row.disabled_at ≡ true
    → disables o ≡ false
    → next_disabled o row ≡ ok b
    → b ≡ false
unfolding disables next_disabled is_disabled
own_disabled none row b live h e = sym (ok-inj {E = AccountError} e) ∙ rw live refl
own_disabled (some none) row b live h e = cc
own_disabled (some (some c)) row b live h e = sym (ok-inj {E = AccountError} e) ∙ h

module _ (unicode : Unicode) (passwords : Passwords) (actor : Text)
    (filled : is_empty actor ≡ false) where
  different-apart :
      (id : Text) {u : Unit {0}}
      → assert_different_account actor id ≡ ok u
      → text_eq actor id ≡ false
  unfolding assert_different_account
  different-apart id h = ground (arith, filled, h)

  cleared-ActiveAdmin :
      (id : Text) (db : Db)
      → ActiveAdmin actor db
      → ActiveAdmin actor (clear_account_device_bindings id db).0
  unfolding clear_account_device_bindings find_account
  cleared-ActiveAdmin id db s = record { row = s.row; found = s.found; active = s.active }

  signed_out-ActiveAdmin :
      (id : Text) (current : Account) (db : Db)
      → ActiveAdmin actor db
      → ActiveAdmin actor (sign_out_changed id current db)
  unfolding sign_out_changed
  signed_out-ActiveAdmin id current db s =
      elim (Bool-cases (version_of_account (find_account false db id) == current.auth_version)) [
        | inl same ↦ rw same s
        | inr changed ↦ rw changed (cleared-ActiveAdmin id db s)
      ]

  own-Harmless :
      (id : Text) (changes : Changes) (db : Db) (current : Account) {u : Unit {0}}
      → (s : ActiveAdmin actor db) → existing (find_account false db id) ≡ ok current
      → check_own_update actor id changes current ≡ ok u
      → text_eq actor id ≡ true
      → Harmless actor s.row changes
  unfolding existing check_own_update Harmless is_active_admin
  own-Harmless id changes db current s found own same =
      let mine : find_account false db id ≡ some s.row =
        ap (find_account false db) (sym ((text_eq_iff actor id).0 same)) ∙ s.found in
      let row : s.row ≡ current = ok-inj {E = AdminError} (rw mine at found) in
      let allowed = require-eq-ok _ _ own in
      let role : changes_role changes.role s.row.role ≡ false =
        ground (arith, allowed, same, ap (λ (a : Account). a.role) row) in
      let live : is_null s.row.disabled_at ≡ true = ground (arith, s.active) in
      let stays : disables changes.disabled ≡ false = ground (arith, allowed, same) in
      (
        λ r e. own_role changes.role s.row r role e,
        λ b e. own_disabled changes.disabled s.row b live stays e,
      )

  update-ActiveAdmin :
      (id : Text) (changes : Changes) (db : Db)
      → ActiveAdmin actor db
      → Returns
          (λ out. ActiveAdmin actor out.0)
          (update_managed_account unicode passwords actor id changes db)
  unfolding update_managed_account
  update-ActiveAdmin id changes db s =
      Returns->>= _ (existing (find_account false db id)) _ λ current found.
        Returns->>= _ (check_own_update actor id changes current) _ λ _ own.
          Returns->>= _ (lift (update_account unicode id changes db)) _ λ updated done.
            Returns->>= _ (get_managed_account (sign_out_changed id current updated) id actor) _
              λ view _. signed_out-ActiveAdmin id current updated (
                Returns-ok (ActiveAdmin actor) _
                  (lift-Returns (ActiveAdmin actor) (update_account unicode id changes db) (
                    update_account-ActiveAdmin actor unicode id changes db s
                      (own-Harmless id changes db current s found own)))
                  done)

  reset-ActiveAdmin :
      (id password : Text) (must_change : Option (Option Bool)) (now : ℕ) (before db : Db)
      → ActiveAdmin actor db
      → Returns
          (λ out. ActiveAdmin actor out.0)
          (reset_managed_password unicode passwords actor id password must_change now before db)
  unfolding reset_managed_password
  reset-ActiveAdmin id password must_change now before db s =
      Returns->>= _ (assert_different_account actor id) _ λ _ apart.
        Returns->>= _ (normalize_required_boolean must_change true) _ λ require_change _.
          Returns->>= _ (existing (find_account false before id)) _ λ snapshot _.
            Returns->>= _ (managed_hash unicode passwords password) _ λ hash _.
              Returns->>= _ (existing (find_account false db id)) _ λ current _.
                Returns->>= _ (check_unchanged unicode passwords snapshot current) _ λ _ _.
                  Returns->>= _
                    (lift (set_account_password_hash unicode id hash require_change now db)) _
                    λ updated done.
                      Returns->>= _
                        (existing
                          (find_account false (clear_account_device_bindings id updated).0 id))
                        _
                        λ account _. cleared-ActiveAdmin id updated (
                          Returns-ok (ActiveAdmin actor) _
                            (lift-Returns (ActiveAdmin actor) _ (
                              set_account_password_hash-ActiveAdmin actor unicode id hash
                                require_change now db (different-apart id apart) s))
                            done)

  perform-ActiveAdmin :
      (action : Action) (db : Db)
      → ActiveAdmin actor db
      → Returns (ActiveAdmin actor) (perform unicode passwords actor action db)
  unfolding perform create_managed_account delete_managed_account logout_managed_account_devices
  perform-ActiveAdmin (creates new password must_change) db s =
      tables-Returns (ActiveAdmin actor) _ (
        Returns->>= _ (normalize_required_boolean must_change true) _ λ require_change _.
          Returns->>= _ (managed_hash unicode passwords password) _ λ hash _.
            Returns->>= _
              (lift (
                create_account unicode
                  (record new { password_hash = hash; must_change_password = require_change }) db))
              _
              λ made done.
                Returns-ok (λ (out : Db × Account). ActiveAdmin actor out.0) _
                  (lift-Returns _ _ (create_account-ActiveAdmin actor unicode _ db s)) done)
  perform-ActiveAdmin (updates id changes) db s =
      tables-Returns (ActiveAdmin actor) _ (update-ActiveAdmin id changes db s)
  perform-ActiveAdmin (resets id password must_change now before) db s =
      tables-Returns (ActiveAdmin actor) _
        (reset-ActiveAdmin id password must_change now before db s)
  perform-ActiveAdmin (deletes fuel id now) db s = tables-Returns (ActiveAdmin actor) _ (
      Returns->>= _ (assert_different_account actor id) _ λ _ apart.
        Returns->>= _ (existing (find_account false db id)) _ λ current _.
          Returns->>= _ (lift (soft_delete_account unicode fuel id now db)) _ λ deleted done.
            cleared-ActiveAdmin id deleted (
              Returns-ok (ActiveAdmin actor) _
                (lift-Returns (ActiveAdmin actor) _ (
                  soft_delete_account-ActiveAdmin actor unicode fuel id now db
                    (different-apart id apart) s))
                done))
  perform-ActiveAdmin (logs_out id) db s = tables-Returns (ActiveAdmin actor) _ (
      Returns->>= _ (assert_different_account actor id) _ λ _ _.
        Returns->>= _ (existing (find_account false db id)) _
          λ account _. cleared-ActiveAdmin id db s)

  kept-ActiveAdmin :
      (db : Db) (m : Result AdminError Db)
      → ActiveAdmin actor db
      → Returns (ActiveAdmin actor) m
      → ActiveAdmin actor (kept db m)
  unfolding kept
  kept-ActiveAdmin db (ok after) s h = h
  kept-ActiveAdmin db (err e) s h = s

-- Whatever an active administrator, whose id is not empty, does to accounts, one operation after the
-- other, their own account stays in the table as an active administrator.
pub run-ActiveAdmin :
    (unicode : Unicode) (passwords : Passwords) (actor : Text) (actions : List Action) (db : Db)
    → is_empty actor ≡ false
    → ActiveAdmin actor db
    → ActiveAdmin actor (run unicode passwords actor actions db)
unfolding run
run-ActiveAdmin unicode passwords actor [] db filled s = s
run-ActiveAdmin unicode passwords actor (a ∷ rest) db filled s =
    run-ActiveAdmin unicode passwords actor rest (kept db (perform unicode passwords actor a db))
      filled
      (kept-ActiveAdmin unicode passwords actor filled db (perform unicode passwords actor a db) s
        (perform-ActiveAdmin unicode passwords actor filled a db s))
