-- ===== src/Sessions/Validity.antt =====
-- When a device is signed in: what resolveDeviceAccount lets pass, and that a new session resolves.
use labaiacinghiala.Common.{
  ==_iff, ℕ, ◌≤◌, ◌<◌, Bool, true, false, not, Option, none, some, ◌≡◌, refl, inl, inr, arith, Text,
  is_empty, find, find-only, find-update_rows, count_rows, ◌==◌, if◌then◌else◌, Bool-cases, Result,
  ok, err, require, Returns, Returns->>=, Returns-ok, sym, ap, ◌∙◌, subst,
}
use labaiacinghiala.Store.{Source, Device, Account, Db, is_null, is_null-eq}
use labaiacinghiala.Accounts.Rows.{find_account}
use labaiacinghiala.Accounts.Versions.{find_account-id}
use labaiacinghiala.Sessions.{
  device_required, SessionError, SignedIn, Session, has_id, is_bindable, bound_to,
  available_account, write_binding, normalize_binding_source, bind_account_to_device, check_session,
  device_session, close_session, resolve_named, resolve_device_account, version_of,
}

-- What is true of the account that a device is signed in to.
pub record Valid (device : Device) (db : Db) (a : Account) : Type 0 where
  pub id : Text
  pub named : device.active_account_id ≡ some id
  pub stored : find_account true db id ≡ some a
  pub enabled : a.disabled_at ≡ none
  pub present : a.deleted_at ≡ none
  pub version : version_of device.active_account_auth_version ≡ a.auth_version

check_session-eq-ok :
    (device : Device) (o : Option Account) {a : Account}
    → check_session device o ≡ ok a
    → (o ≡ some a)
      × (a.disabled_at ≡ none)
      × (a.deleted_at ≡ none)
      × (version_of device.active_account_auth_version ≡ a.auth_version)
unfolding check_session
check_session-eq-ok device none h = cc
check_session-eq-ok device (some b) {a} h =
    let present : is_null b.deleted_at ≡ true = ground arith in
    let enabled : is_null b.disabled_at ≡ true = ground arith in
    let version : (version_of device.active_account_auth_version == b.auth_version) ≡ true =
      ground arith in
    let same : b ≡ a = ground (arith, present, enabled, version) in
    subst
      (λ x.
        (some b ≡ some x)
        × (x.disabled_at ≡ none)
        × (x.deleted_at ≡ none)
        × (version_of device.active_account_auth_version ≡ x.auth_version))
      same
      (
        refl,
        is_null-eq b.disabled_at enabled,
        is_null-eq b.deleted_at present,
        (==_iff (version_of device.active_account_auth_version) b.auth_version).0 version,
      )

close-eq-ok :
    (clear : Bool) (device : Device) (db : Db) (m : Result SessionError Account) {s : SignedIn}
    → (close_session clear device db m).1 ≡ ok s
    → m ≡ ok s.0
unfolding close_session
close-eq-ok clear device db (ok a) h = ground (arith, h)
close-eq-ok clear device db (err e) h = cc

named-Valid :
    (clear : Bool) (device : Device) (o : Option Text) (db : Db) {s : SignedIn}
    → device.active_account_id ≡ o
    → (resolve_named clear device o db).1 ≡ ok s
    → Valid device db s.0
unfolding resolve_named
named-Valid clear device none db n h = cc
named-Valid clear device (some id) db {s} n h = elim (Bool-cases (is_empty id)) [
  | inl no_id ↦ absurd (cc (rw no_id at h))
  | inr filled ↦
      let (stored, enabled, present, version) =
        check_session-eq-ok device (find_account true db id) (
          close-eq-ok clear device db (check_session device (find_account true db id)) {s = s}
            (rw filled at h)) in
      record {
        id = id;
        named = n;
        stored = stored;
        enabled = enabled;
        present = present;
        version = version;
      }
]

-- A device that resolves to an account is bound to it by its row; the account stands in the table, is
-- neither deleted nor disabled, and has the version that it had when the device was bound.
pub resolve_device_account-Valid :
    (clear : Bool) (device : Device) (db : Db) {s : SignedIn}
    → (resolve_device_account clear device db).1 ≡ ok s
    → Valid device db s.0
unfolding resolve_device_account
resolve_device_account-Valid clear device db {s} h =
    named-Valid clear device device.active_account_id db {s = s} refl h

-- What a new session leaves in the tables.
record Bound (device_id : Text) (now : ℕ) (db2 : Db) (s : SignedIn) : Type 0 where
  row : Device
  found : find (has_id device_id) db2.devices ≡ some row
  source : Source
  old : Device
  row_lem : row ≡ bound_to s.0 source now old
  session_lem :
      s.1 ≡ record { binding_source = source; authenticated_at = some now; local_access = false }
  stored : find_account true db2 s.0.id ≡ some s.0
  filled : is_empty s.0.id ≡ false
  enabled : s.0.disabled_at ≡ none
  present : s.0.deleted_at ≡ none

bindable-has_id : (id : Text) (d : Device) → is_bindable id d ≡ true → has_id id d ≡ true
unfolding is_bindable
bindable-has_id id d h = ground arith

available-eq-ok :
    (o : Option Account) {a : Account}
    → available_account o ≡ ok a
    → (o ≡ some a) × (a.disabled_at ≡ none) × (a.deleted_at ≡ none)
unfolding available_account
available-eq-ok none h = cc
available-eq-ok (some b) {a} h =
    let present : is_null b.deleted_at ≡ true = ground arith in
    let enabled : is_null b.disabled_at ≡ true = ground arith in
    let same : b ≡ a = ground (arith, present, enabled) in
    subst (λ x. (some b ≡ some x) × (x.disabled_at ≡ none) × (x.deleted_at ≡ none)) same
      (refl, is_null-eq b.disabled_at enabled, is_null-eq b.deleted_at present)

named_account :
    (id : Text) (db : Db) {a : Account}
    → (if is_empty id then none else find_account true db id) ≡ some a
    → (is_empty id ≡ false) × (find_account true db id ≡ some a)
named_account id db h = elim (Bool-cases (is_empty id)) [
  | inl no_id ↦ absurd (cc (rw no_id at h))
  | inr filled ↦ (filled, rw filled at h)
]

write-Bound :
    (device_id : Text) (a : Account) (source : Source) (now : ℕ) (db : Db)
    → count_rows (has_id device_id) db.devices ≤ 1
    → find_account true db a.id ≡ some a
    → is_empty a.id ≡ false
    → a.disabled_at ≡ none
    → a.deleted_at ≡ none
    → Returns
        (λ (out : Db × SignedIn). Bound device_id now out.0 out.1)
        (write_binding device_id a source now db)
unfolding write_binding find_account has_id bound_to
write-Bound device_id a source now db unique stored filled enabled present =
    elim (Bool-cases (count_rows (is_bindable device_id) db.devices == 1)) [
      | inr other ↦ rw other tt
      | inl once ↦
          let (d, found, is) =
            find-only (is_bindable device_id) (has_id device_id) (bindable-has_id device_id)
              db.devices ((==_iff (count_rows (is_bindable device_id) db.devices) 1).0 once)
              unique in
          rw once (record {
            row = bound_to a source now d;
            found =
                find-update_rows (has_id device_id) (is_bindable device_id) (bound_to a source now)
                  (λ b. refl) db.devices d found
                ∙ rw is refl;
            source = source;
            old = d;
            row_lem = refl;
            session_lem = refl;
            stored = stored;
            filled = filled;
            enabled = enabled;
            present = present;
          })
    ]

bind-Bound :
    (device_id account_id source : Text) (now : ℕ) (db : Db)
    → count_rows (has_id device_id) db.devices ≤ 1
    → Returns
        (λ (out : Db × SignedIn). Bound device_id now out.0 out.1)
        (bind_account_to_device device_id account_id source now db)
unfolding bind_account_to_device
bind-Bound device_id account_id source now db unique =
    Returns->>= _ (require (not (is_empty device_id)) device_required) _ λ _ _.
      Returns->>= _ (normalize_binding_source source) _ λ origin _.
        Returns->>= _
          (available_account
            (if is_empty account_id then none else find_account true db account_id))
          _
          λ a e.
            let (o, enabled, present) = available-eq-ok _ e in
            let (filled, found) = named_account account_id db o in
            let same = find_account-id account_id db found in
            write-Bound device_id a origin now db unique
              (subst (λ i. find_account true db i ≡ some a) (sym same) found)
              (ap is_empty same ∙ filled) enabled present

check-ok :
    (device : Device) (a : Account)
    → a.disabled_at ≡ none
    → a.deleted_at ≡ none
    → device.active_account_auth_version ≡ some a.auth_version
    → check_session device (some a) ≡ ok a
unfolding check_session
check-ok device a enabled present version =
    let p = ap is_null present in
    let e = ap is_null enabled in
    let v : (version_of device.active_account_auth_version == a.auth_version) ≡ true =
      (==_iff (version_of device.active_account_auth_version) a.auth_version).1
        (ap version_of version) in
    rw (p, e, v) refl

-- The session of a new binding.
abbrev new_session : Source → ℕ → Session
new_session source now = record {
  binding_source = source;
  authenticated_at = some now;
  local_access = false;
}

bound-resolves :
    (clear : Bool) (a : Account) (source : Source) (now : ℕ) (d : Device) (db : Db)
    → 0 < now
    → find_account true db a.id ≡ some a
    → is_empty a.id ≡ false
    → a.disabled_at ≡ none
    → a.deleted_at ≡ none
    → resolve_device_account clear (bound_to a source now d) db
      ≡ (db, ok (a, new_session source now))
unfolding resolve_device_account resolve_named close_session device_session bound_to
bound-resolves clear a source now d db later stored filled enabled present =
    let timed : (now == 0) ≡ false = ground arith in
    rw
      (
        filled,
        stored,
        check-ok (bound_to a source now d) a enabled present refl,
        close_session,
        timed,
      )
      refl

-- After bindAccountToDevice, in a table whose device ids are unique and at a time after 1970 began,
-- the device's row resolves to the same account and session, and the tables stay as they are.
pub bind-resolve_device_account :
    (clear : Bool) (device_id account_id source : Text) (now : ℕ) (db db2 : Db) (s : SignedIn)
    → count_rows (has_id device_id) db.devices ≤ 1
    → 0 < now
    → bind_account_to_device device_id account_id source now db ≡ ok (db2, s)
    → (row : Device) × (find (has_id device_id) db2.devices ≡ some row)
      × (resolve_device_account clear row db2 ≡ (db2, ok s))
bind-resolve_device_account clear device_id account_id source now db db2 s unique later h =
    let b =
      Returns-ok (λ (out : Db × SignedIn). Bound device_id now out.0 out.1) _
        (bind-Bound device_id account_id source now db unique) h in
    (
      b.row,
      b.found,
      ap (λ (r : Device). resolve_device_account clear r db2) b.row_lem
          ∙ bound-resolves clear s.0 b.source now b.old db2 later b.stored b.filled b.enabled
              b.present
          ∙ ap (λ (t : Session). (db2, ok (s.0, t))) (sym b.session_lem),
    )
