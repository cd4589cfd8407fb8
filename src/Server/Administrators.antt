-- ===== src/Server/Administrators.antt =====
-- Which routers only administrators reach, and which only the browser of the server's own machine.
use labaiacinghiala.Common.{
  ℕ, Bool, true, false, ◌&&◌, some, List, ◌≡◌, refl, inl, inr, arith, ok, require-eq-ok, sym, ap,
  ◌∙◌,
}
use labaiacinghiala.Store.{Account, Db, Section, is_null}
use labaiacinghiala.Accounts.Rows.{is_admin, is_active_admin}
use labaiacinghiala.Accounts.Sections.{account_sections}
use labaiacinghiala.Sessions.{Caller}
use labaiacinghiala.Sessions.Callers.{Entitled, session, local_session}
use labaiacinghiala.Access.{
  admin_required, local_admin_required, Request, is_administrator, assert_admin_access,
  assert_local_admin_browser_access,
}
use labaiacinghiala.DeviceAuth.{Crypto}
use labaiacinghiala.LocalAdmin.{Web}
use labaiacinghiala.LocalAdmin.Local.{Local, is_local_admin_browser_request-Local}
use labaiacinghiala.Gate.{Memory}
use labaiacinghiala.Gate.Known.{Known, by_header, by_media, by_browser}
use labaiacinghiala.Server.{
  Mount, pairing, auth, app_info, movies, series_pages, reading, music_pages, pairing_invites,
  paired_devices, accounts, library, music_metadata, metadata, uploads, Visit, Catalogue, is_local,
  mount_access, handle,
}
use labaiacinghiala.Server.Admitted.{
  Admitted, Reached, by_anyone, by_caller, by_account, handle-Reached,
}

-- The routers of /api/admin/pairing-invites and /api/admin/paired-devices.
unfoldable pub is_pairing : Mount → Bool
is_pairing pairing_invites = true
is_pairing paired_devices = true
is_pairing mount = false

-- The routers under /api/admin, /api/library, /api/metadata and /api/uploads.
unfoldable pub is_administration : Mount → Bool
is_administration pairing = false
is_administration auth = false
is_administration app_info = false
is_administration movies = false
is_administration series_pages = false
is_administration reading = false
is_administration music_pages = false
is_administration mount = true

admin_given :
    (req : Request) {u : Unit {0}} → assert_admin_access req ≡ ok u → is_administrator req ≡ true
unfolding assert_admin_access
admin_given req h = require-eq-ok (is_administrator req) admin_required h

local_given :
    (req : Request) {u : Unit {0}}
    → assert_local_admin_browser_access req ≡ ok u
    → (req.local_access ≡ true) × (is_administrator req ≡ true)
unfolding assert_local_admin_browser_access
local_given req h =
    let both = require-eq-ok (req.local_access && is_administrator req) local_admin_required h in
    (ground (arith, both), ground (arith, both))

mount_access-admin :
    (catalogue : Catalogue) (mount : Mount) (req : Request)
    → is_administration mount ≡ true
    → mount_access catalogue mount req ≡ ok tt
    → is_administrator req ≡ true
unfolding is_administration mount_access
mount_access-admin catalogue pairing req is h = cc
mount_access-admin catalogue auth req is h = cc
mount_access-admin catalogue app_info req is h = cc
mount_access-admin catalogue movies req is h = cc
mount_access-admin catalogue series_pages req is h = cc
mount_access-admin catalogue reading req is h = cc
mount_access-admin catalogue music_pages req is h = cc
mount_access-admin catalogue pairing_invites req is h = (local_given req h).1
mount_access-admin catalogue paired_devices req is h = (local_given req h).1
mount_access-admin catalogue accounts req is h = admin_given req h
mount_access-admin catalogue library req is h = admin_given req h
mount_access-admin catalogue music_metadata req is h = admin_given req h
mount_access-admin catalogue metadata req is h = admin_given req h
mount_access-admin catalogue uploads req is h = admin_given req h

mount_access-local :
    (catalogue : Catalogue) (mount : Mount) (req : Request)
    → is_pairing mount ≡ true
    → mount_access catalogue mount req ≡ ok tt
    → req.local_access ≡ true
unfolding is_pairing mount_access
mount_access-local catalogue pairing req is h = cc
mount_access-local catalogue auth req is h = cc
mount_access-local catalogue app_info req is h = cc
mount_access-local catalogue movies req is h = cc
mount_access-local catalogue series_pages req is h = cc
mount_access-local catalogue reading req is h = cc
mount_access-local catalogue music_pages req is h = cc
mount_access-local catalogue pairing_invites req is h = (local_given req h).0
mount_access-local catalogue paired_devices req is h = (local_given req h).0
mount_access-local catalogue accounts req is h = cc
mount_access-local catalogue library req is h = cc
mount_access-local catalogue music_metadata req is h = cc
mount_access-local catalogue metadata req is h = cc
mount_access-local catalogue uploads req is h = cc

administrator-is_admin :
    (req : Request) (a : Account) (sections : List Section)
    → req.account ≡ some (a, sections)
    → is_administrator req ≡ true
    → is_admin a.role ≡ true
unfolding is_administrator
administrator-is_admin req a sections e h = rw e at h

entitled-active :
    (db : Db) (a : Account) (caller : Caller)
    → Entitled db a caller
    → is_admin a.role ≡ true
    → is_active_admin a ≡ true
unfolding is_active_admin
entitled-active db a _ (session d v) h = rw (h, ap is_null v.enabled, ap is_null v.present) refl
entitled-active db a _ (local_session active) h = active

pairing-administration : (mount : Mount) → is_pairing mount ≡ true → is_administration mount ≡ true
unfolding is_administration is_pairing
pairing-administration pairing_invites h = refl
pairing-administration paired_devices h = refl
pairing-administration pairing h = cc
pairing-administration auth h = cc
pairing-administration app_info h = cc
pairing-administration movies h = cc
pairing-administration series_pages h = cc
pairing-administration reading h = cc
pairing-administration music_pages h = cc
pairing-administration accounts h = cc
pairing-administration library h = cc
pairing-administration music_metadata h = cc
pairing-administration metadata h = cc
pairing-administration uploads h = cc

Reached-Admitted :
    (web : Web) (crypto : Crypto) (catalogue : Catalogue) (visit : Visit) (now : ℕ) (db : Db)
    (req : Request)
    → is_administration visit.mount ≡ true
    → Reached web crypto catalogue visit now db req
    → Admitted web crypto catalogue visit now db req
unfolding is_administration
Reached-Admitted web crypto catalogue visit now db req is (by_anyone at a l) =
    let no : false ≡ true = sym (ap is_administration at) ∙ is in absurd (cc no)
Reached-Admitted web crypto catalogue visit now db req is (by_caller caller (inl at) known a l) =
    let no : false ≡ true = sym (ap is_administration at) ∙ is in absurd (cc no)
Reached-Admitted web crypto catalogue visit now db req is (by_caller caller (inr at) known a l) =
    let no : false ≡ true = sym (ap is_administration at) ∙ is in absurd (cc no)
Reached-Admitted web crypto catalogue visit now db req is (by_account admitted) = admitted

module _ (web : Web) (crypto : Crypto) (catalogue : Catalogue) (visit : Visit) (now : ℕ)
    (memory : Memory) (req : Request)
    (passes : (handle web crypto catalogue visit now memory).1 ≡ ok req) where
  -- A request that reaches a router under /api/admin, /api/library, /api/metadata or /api/uploads acts
  -- for an administrator who is neither deleted nor disabled.
  pub handle_administers :
      is_administration visit.mount ≡ true
      → (a : Account) × (req.account ≡ some (a, account_sections memory.db.grants a.id))
        × (is_active_admin a ≡ true)
  handle_administers is =
      let s =
        Reached-Admitted web crypto catalogue visit now memory.db req is
          (handle-Reached web crypto catalogue visit now memory {req = req} passes) in
      let admin = mount_access-admin catalogue visit.mount req is s.granted in
      (
        s.account,
        s.acts_for,
        entitled-active memory.db s.account s.caller s.entitled (
            administrator-is_admin req s.account (account_sections memory.db.grants s.account.id)
              s.acts_for admin),
      )

  known-Local :
      (caller : Caller)
      → Known web crypto memory.db.devices visit.http now caller
      → is_local caller ≡ true
      → Local web visit.http
  unfolding is_local
  known-Local _ (by_header d auth_given row given signed) h = cc
  known-Local _ (by_media d auth_given row given safe granted) h = cc
  known-Local _ (by_browser is) h = is_local_admin_browser_request-Local web visit.http is

  -- A request that reaches the routers of pairing invites and paired devices came over a loopback
  -- socket from a page that the server's own machine shows, whatever devices are paired.
  pub handle-Local : is_pairing visit.mount ≡ true → Local web visit.http
  handle-Local is =
      let s =
        Reached-Admitted web crypto catalogue visit now memory.db req
          (pairing-administration visit.mount is)
          (handle-Reached web crypto catalogue visit now memory {req = req} passes) in
      known-Local s.caller s.known
        (sym s.local_access_lem ∙ mount_access-local catalogue visit.mount req is s.granted)
