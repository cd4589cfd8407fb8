-- ===== src/Server/Admitted.antt =====
-- What is known of a request that reaches its router.
use labaiacinghiala.Common.{
  ok-inj, ℕ, true, false, not, some, List, ◌≡◌, refl, ◌⊎◌, inl, inr, arith, Result-cases, Result,
  ok, err, ◌>>◌, require-eq-ok, >>=-eq-ok, Returns, Returns-ok, Returns-weaken, Bool-cases, none,
  false, sym, ap, subst,
}
use labaiacinghiala.Store.{Account, Db, Section}
use labaiacinghiala.Accounts.Rows.{find_account}
use labaiacinghiala.Accounts.Sections.{account_sections}
use labaiacinghiala.Sessions.{SignedIn, Caller, resolve_caller, as_context, resolve_request_account}
use labaiacinghiala.Sessions.Callers.{
  Entitled, session, local_session, caller-Entitled, resolve_caller-keeps,
}
use labaiacinghiala.Access.{
  AccessError, password_change_required, Request, assert_password_change_completed,
}
use labaiacinghiala.DeviceAuth.{Crypto}
use labaiacinghiala.LocalAdmin.{Web}
use labaiacinghiala.Gate.{GateError, Memory}
use labaiacinghiala.Gate.Known.{Known, device_auth-Known, device_auth-accounts}
use labaiacinghiala.Server.Order.{before_device-eq, before_account-eq}
use labaiacinghiala.Server.{
  pairing, auth, app_info, Visit, Catalogue, is_local, account_of, request_of, mount_access,
  admission, access, account_auth, identified, handle, is_before_device, is_before_account,
  unaccounted, after_device,
}

-- The request that a router behind createAccountAuth gets: who sent it, for which account, and what
-- was checked of it.
pub record Admitted (web : Web) (crypto : Crypto) (catalogue : Catalogue) (visit : Visit) (now : ℕ)
    (db : Db) (req : Request) : Type 0 where
  pub caller : Caller
  pub account : Account
  pub known : Known web crypto db.devices visit.http now caller
  pub entitled : Entitled db account caller
  pub acts_for : req.account ≡ some (account, account_sections db.grants account.id)
  pub local_access_lem : req.local_access ≡ is_local caller
  pub password_kept : account.must_change_password ≡ false
  pub granted : mount_access catalogue visit.mount req ≡ ok tt

admission-eq :
    (req : Request) (m : Result AccessError (Unit {0})) {r : Request}
    → admission req m ≡ ok r
    → (r ≡ req) × (m ≡ ok tt)
unfolding admission
admission-eq req (ok tt) {r} h = (sym (ok-inj h), refl)
admission-eq req (err e) h = cc

-- The same account in tables with the same rows of accounts.
entitled-accounts :
    (db before : Db) (a : Account) (caller : Caller)
    → before.accounts ≡ db.accounts
    → Entitled before a caller
    → Entitled db a caller
unfolding find_account
entitled-accounts db before a _ same (session d v) = session d (record {
  id = v.id;
  named = v.named;
  stored =
      subst (λ rows. find_account true (record db { accounts = rows }) v.id ≡ some a) same v.stored;
  enabled = v.enabled;
  present = v.present;
  version = v.version;
})
entitled-accounts db before a _ same (local_session active) = local_session active

kept_password :
    (req : Request) (a : Account) (sections : List Section)
    → req.account ≡ some (a, sections)
    → assert_password_change_completed req ≡ ok tt
    → a.must_change_password ≡ false
unfolding assert_password_change_completed
kept_password req a sections e h =
    let kept = require-eq-ok (not a.must_change_password) password_change_required (rw e at h) in
    ground (arith, kept)

module _ (web : Web) (crypto : Crypto) (catalogue : Catalogue) (visit : Visit) (now : ℕ)
    (db : Db) where
  -- The checks of the account, for a caller who was identified.
  access-Admitted :
      (caller : Caller) (s : SignedIn) (before : Db)
      → Known web crypto db.devices visit.http now caller
      → before.accounts ≡ db.accounts
      → before.grants ≡ db.grants
      → Entitled before s.0 caller
      → Returns
          (Admitted web crypto catalogue visit now db)
          (access catalogue visit.mount (request_of visit caller before (some s)))
  unfolding access request_of
  access-Admitted caller s before known accounts grants entitled =
      let req = request_of visit caller before (some s) in
      elim (Result-cases (access catalogue visit.mount req)) [
        | inl (e, failed) ↦ rw failed tt
        | inr (r, passed) ↦
            let (same, checks) =
              admission-eq req
                (assert_password_change_completed req >> mount_access catalogue visit.mount req)
                passed in
            let (_, kept, granted) = >>=-eq-ok (assert_password_change_completed req) _ checks in
            rw (passed, same)
              (record {
                caller = caller;
                account = s.0;
                known = known;
                entitled = entitled-accounts db before s.0 caller accounts entitled;
                acts_for = ap (λ g. some (s.0, account_sections g s.0.id)) grants;
                local_access_lem = refl;
                password_kept =
                    kept_password req s.0 (account_sections before.grants s.0.id) refl kept;
                granted = granted;
              })
      ]

  identified-Admitted :
      (memory : Memory) (r : Result GateError Caller)
      → Returns (Known web crypto db.devices visit.http now) r
      → memory.db.accounts ≡ db.accounts
      → memory.db.grants ≡ db.grants
      → Returns (Admitted web crypto catalogue visit now db) (identified catalogue visit memory r).1
  unfolding identified account_auth account_of resolve_request_account as_context
  identified-Admitted memory (err e) known accounts grants = tt
  identified-Admitted memory (ok caller) known accounts grants =
      elim (Result-cases (resolve_caller true caller memory.db).1) [
        | inl (e, failed) ↦ rw failed tt
        | inr (s, resolved) ↦
            rw (resolved, resolve_caller-keeps caller memory.db {s = s} resolved)
              (access-Admitted caller s memory.db known accounts grants (
                Returns-ok (λ (t : SignedIn). Entitled memory.db t.0 caller) _
                  (caller-Entitled caller memory.db) resolved))
      ]

-- What is known of a request that reaches its router, by where the router is mounted.
pub data Reached (web : Web) (crypto : Crypto) (catalogue : Catalogue) (visit : Visit) (now : ℕ)
    (db : Db) (req : Request) : Type 0 where
  by_anyone :
      visit.mount ≡ pairing
      → req.account ≡ none
      → req.local_access ≡ false
      → Reached web crypto catalogue visit now db req
  by_caller :
      (caller : Caller)
      → (visit.mount ≡ auth) ⊎ (visit.mount ≡ app_info)
      → Known web crypto db.devices visit.http now caller
      → req.account ≡ none
      → req.local_access ≡ is_local caller
      → Reached web crypto catalogue visit now db req
  by_account :
      Admitted web crypto catalogue visit now db req → Reached web crypto catalogue visit now db req

module _ (web : Web) (crypto : Crypto) (catalogue : Catalogue) (visit : Visit) (now : ℕ)
    (db : Db) where
  unaccounted-Reached :
      (memory : Memory) (r : Result GateError Caller)
      → is_before_account visit.mount ≡ true
      → Returns (Known web crypto db.devices visit.http now) r
      → Returns (Reached web crypto catalogue visit now db) (unaccounted visit memory r).1
  unfolding unaccounted request_of
  unaccounted-Reached memory (err e) before known = tt
  unaccounted-Reached memory (ok caller) before known =
      by_caller caller (before_account-eq visit.mount before) known refl refl

  after_device-Reached :
      (memory : Memory) (r : Result GateError Caller)
      → Returns (Known web crypto db.devices visit.http now) r
      → memory.db.accounts ≡ db.accounts
      → memory.db.grants ≡ db.grants
      → Returns
          (Reached web crypto catalogue visit now db)
          (after_device catalogue visit memory r).1
  unfolding after_device
  after_device-Reached memory r known accounts grants =
      elim (Bool-cases (is_before_account visit.mount)) [
        | inl before ↦ rw before (unaccounted-Reached memory r before known)
        | inr behind ↦ rw behind (
            Returns-weaken (Admitted web crypto catalogue visit now db)
              (Reached web crypto catalogue visit now db) (identified catalogue visit memory r).1
              (λ req admitted. by_account admitted)
              (identified-Admitted web crypto catalogue visit now db memory r known accounts
                grants))
      ]

-- A request that reaches the router of /api/pairing has no account. One that reaches /api/auth or
-- /api/app-info has none either, and came from a paired device that is not revoked and whose key has
-- signed the request or the media URL, or from the local browser. One that reaches any other router
-- came from such a device or browser; it acts for the account that the device is validly signed in
-- to, or for an active administrator; no change of password is due; and the router's own check of the
-- account passed.
pub handle-Reached :
    (web : Web) (crypto : Crypto) (catalogue : Catalogue) (visit : Visit) (now : ℕ)
    (memory : Memory) {req : Request}
    → (handle web crypto catalogue visit now memory).1 ≡ ok req
    → Reached web crypto catalogue visit now memory.db req
unfolding handle request_of is_local
handle-Reached web crypto catalogue visit now memory =
    let (accounts, grants) = device_auth-accounts crypto web visit.http now memory in
    Returns-ok (Reached web crypto catalogue visit now memory.db)
      (handle web crypto catalogue visit now memory).1
      (elim (Bool-cases (is_before_device visit.mount)) [
        | inl open_to_all ↦
            rw open_to_all (by_anyone (before_device-eq visit.mount open_to_all) refl refl)
        | inr closed ↦ rw closed (
            after_device-Reached web crypto catalogue visit now memory.db _ _
              (device_auth-Known crypto web visit.http now memory) accounts grants)
      ])
