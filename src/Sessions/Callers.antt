-- ===== src/Sessions/Callers.antt =====
-- The account that a request acts for: that of a signed-in device, or an administrator's for the
-- browser of the server's own machine.
use labaiacinghiala.Common.{
  some-inj, Text, is_empty, true, Option, none, some, List, [], ◌∷◌, ◌≡◌, refl, inl, inr,
  Bool-cases, Result-cases, Result, ok, err, Returns, find, subst,
}
use labaiacinghiala.Store.{Account, Db, Device}
use labaiacinghiala.Accounts.Rows.{is_active_admin, find_account}
use labaiacinghiala.Sessions.{
  SignedIn, SessionError, close_session, resolve_named, check_session, Caller, local_browser,
  paired, nobody, earlier, is_before, oldest_admin, is_default_account, local_admin, as_local,
  resolve_local_admin_account, resolve_device_account, resolve_caller,
}
use labaiacinghiala.Sessions.Validity.{Valid, resolve_device_account-Valid}

earlier-active :
    (a : Account) (o : Option Account)
    → is_active_admin a ≡ true
    → ((b : Account) → o ≡ some b → is_active_admin b ≡ true)
    → is_active_admin (earlier a o) ≡ true
unfolding earlier
earlier-active a none h k = h
earlier-active a (some b) h k = elim (Bool-cases (is_before b a)) [
  | inl is ↦ rw is (k b refl)
  | inr other ↦ rw other h
]

oldest-active :
    (rows : List Account) (a : Account) → oldest_admin rows ≡ some a → is_active_admin a ≡ true
unfolding oldest_admin
oldest-active [] a h = cc
oldest-active (b ∷ rest) a h = elim (Bool-cases (is_active_admin b)) [
  | inl active ↦
      subst (λ x. is_active_admin x ≡ true) (some-inj (rw active at h))
        (earlier-active b (oldest_admin rest) active (λ c e. oldest-active rest c e))
  | inr other ↦ oldest-active rest a (rw other at h)
]

local_admin-active :
    (o : Option Account) (rows : List Account) (a : Account)
    → local_admin o rows ≡ some a
    → is_active_admin a ≡ true
unfolding local_admin
local_admin-active none rows a h = oldest-active rows a h
local_admin-active (some b) rows a h = elim (Bool-cases (is_active_admin b)) [
  | inl active ↦ subst (λ x. is_active_admin x ≡ true) (some-inj (rw active at h)) active
  | inr other ↦ oldest-active rows a (rw other at h)
]

-- The account that a caller is signed in to.
pub data Entitled (db : Db) (a : Account) : Caller → Type 0 where
  session : (d : Device) → Valid d db a → Entitled db a (paired d)
  local_session : is_active_admin a ≡ true → Entitled db a local_browser

local-Entitled :
    (db : Db) (o : Option Account)
    → ((a : Account) → o ≡ some a → is_active_admin a ≡ true)
    → Returns (λ (s : SignedIn). Entitled db s.0 local_browser) (as_local o)
unfolding as_local
local-Entitled db none h = tt
local-Entitled db (some a) h = local_session (h a refl)

pub caller-Entitled :
    (caller : Caller) (db : Db)
    → Returns (λ (s : SignedIn). Entitled db s.0 caller) (resolve_caller true caller db).1
unfolding resolve_caller resolve_local_admin_account
caller-Entitled local_browser db =
    local-Entitled db _
      (λ a e. local_admin-active (find is_default_account db.accounts) db.accounts a e)
caller-Entitled (paired d) db = elim (Result-cases (resolve_device_account true d db).1) [
  | inl (e, failed) ↦ rw failed tt
  | inr (s, resolved) ↦
      rw resolved (session d (resolve_device_account-Valid true d db {s = s} resolved))
]
caller-Entitled nobody db = tt

closed-keeps :
    (d : Device) (db : Db) (m : Result SessionError Account) {s : SignedIn}
    → (close_session true d db m).1 ≡ ok s
    → (close_session true d db m).0 ≡ db
unfolding close_session
closed-keeps d db (ok a) h = refl
closed-keeps d db (err e) h = cc

named-keeps :
    (d : Device) (o : Option Text) (db : Db) {s : SignedIn}
    → (resolve_named true d o db).1 ≡ ok s
    → (resolve_named true d o db).0 ≡ db
unfolding resolve_named
named-keeps d none db h = refl
named-keeps d (some id) db {s} h = elim (Bool-cases (is_empty id)) [
  | inl no_id ↦ rw no_id refl
  | inr filled ↦
      rw filled
        (closed-keeps d db (check_session d (find_account true db id)) {s = s} (rw filled at h))
]

-- A session that holds changes no table.
pub resolve_caller-keeps :
    (caller : Caller) (db : Db) {s : SignedIn}
    → (resolve_caller true caller db).1 ≡ ok s
    → (resolve_caller true caller db).0 ≡ db
unfolding resolve_caller resolve_device_account
resolve_caller-keeps local_browser db h = refl
resolve_caller-keeps (paired d) db {s} h = named-keeps d d.active_account_id db {s = s} h
resolve_caller-keeps nobody db h = refl
