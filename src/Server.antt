-- ===== src/Server.antt =====
-- src/app.js: what a request under /api passes before its router sees it, with the middleware of
-- src/middleware/account-auth.js. Express finds the router of a path: it is a part of the request.
pub mod Order
pub mod Admitted
pub mod Administrators
mod Tests
use labaiacinghiala.Common.{
  ℕ, Bool, true, false, Option, none, some, List, [], ◌∷◌, Text, Result, ok, err, ◌>>=◌, ◌>>◌,
  if◌then◌else◌,
}
use labaiacinghiala.Store.{Db, series, music}
use labaiacinghiala.Accounts.Sections.{account_sections}
use labaiacinghiala.Sessions.{
  SessionError, SignedIn, Caller, local_browser, paired, nobody, Context, signed_in, anonymous,
  resolve_request_account,
}
use labaiacinghiala.Access.{
  AccessError, Request, Item, assert_section_access, assert_password_change_completed,
  assert_admin_access, assert_local_admin_browser_access, movie_access, reading_access,
}
use labaiacinghiala.DeviceAuth.{Crypto}
use labaiacinghiala.LocalAdmin.{Web, HttpRequest}
use labaiacinghiala.Gate.{GateError, Memory, device_auth}

-- The routers, by their paths under /api.
pub data Mount : Type 0 where
  pairing auth app_info : Mount
  movies series_pages reading music_pages : Mount
  pairing_invites paired_devices accounts : Mount
  library music_metadata metadata uploads : Mount

-- A request with its router, and what Express gives of the path below that.
pub record Visit : Type 0 where
  pub http : HttpRequest
  pub mount : Mount
  pub path : Text
  pub url : Text
  pub type_query : Option Text
  pub category_query : Option Text

-- The tables that the checks of single films and reading items look into.
pub record Catalogue : Type 0 where
  pub movies_rows : List Item
  pub reading_rows : List Item

pub data ServerError : Type 0 where
  at_gate : GateError → ServerError
  at_session : SessionError → ServerError
  at_access : AccessError → ServerError

-- req.baiaLocalAccess.
pub is_local : Caller → Bool
is_local local_browser = true
is_local (paired device) = false
is_local nobody = false

-- req.baiaAccount: attachAccountContext.
pub account_of : Context → Option SignedIn
account_of (signed_in s) = some s
account_of (anonymous e) = none

pub request_of : Visit → Caller → Db → Option SignedIn → Request
request_of visit caller db s = record {
  account = elim s [
    | none ↦ none
    | some (account, session) ↦ some (account, account_sections db.grants account.id)
  ];
  local_access = is_local caller;
  path = visit.path;
  url = visit.url;
  type_query = visit.type_query;
  category_query = visit.category_query;
}

-- The check of app.use before each router.
pub mount_access : Catalogue → Mount → Request → Result AccessError (Unit {0})
mount_access catalogue pairing req = ok tt
mount_access catalogue auth req = ok tt
mount_access catalogue app_info req = ok tt
mount_access catalogue movies req = movie_access catalogue.movies_rows req
mount_access catalogue series_pages req = assert_section_access req series
mount_access catalogue reading req = reading_access catalogue.reading_rows req
mount_access catalogue music_pages req = assert_section_access req music
mount_access catalogue pairing_invites req = assert_local_admin_browser_access req
mount_access catalogue paired_devices req = assert_local_admin_browser_access req
mount_access catalogue accounts req = assert_admin_access req
mount_access catalogue library req = assert_admin_access req
mount_access catalogue music_metadata req = assert_admin_access req
mount_access catalogue metadata req = assert_admin_access req
mount_access catalogue uploads req = assert_admin_access req

-- The router that is mounted before createDeviceAuth.
pub is_before_device : Mount → Bool
is_before_device pairing = true
is_before_device mount = false

-- The routers between createDeviceAuth and createAccountAuth.
pub is_before_account : Mount → Bool
is_before_account auth = true
is_before_account app_info = true
is_before_account mount = false

pub admission : Request → Result AccessError (Unit {0}) → Result ServerError Request
admission req (err e) = err (at_access e)
admission req (ok done) = ok req

-- requirePasswordChangeCompleted, and the check of the router.
pub access : Catalogue → Mount → Request → Result ServerError Request
access catalogue mount req =
    admission req (assert_password_change_completed req >> mount_access catalogue mount req)

-- createAccountAuth, and what follows.
pub account_auth :
    Catalogue
    → Visit
    → Caller
    → Memory
    → Result SessionError Context
    → Memory × Result ServerError Request
account_auth catalogue visit caller memory (err e) = (memory, err (at_session e))
account_auth catalogue visit caller memory (ok context) =
    (memory, access catalogue visit.mount (request_of visit caller memory.db (account_of context)))

pub identified :
    Catalogue → Visit → Memory → Result GateError Caller → Memory × Result ServerError Request
identified catalogue visit memory (err e) = (memory, err (at_gate e))
identified catalogue visit memory (ok caller) =
    let (db, resolved) = resolve_request_account true true caller memory.db in
    account_auth catalogue visit caller (record memory { db = db }) resolved

-- A router before createAccountAuth gets no account.
pub unaccounted : Visit → Memory → Result GateError Caller → Memory × Result ServerError Request
unaccounted visit memory (err e) = (memory, err (at_gate e))
unaccounted visit memory (ok caller) = (memory, ok (request_of visit caller memory.db none))

-- What follows createDeviceAuth.
pub after_device :
    Catalogue → Visit → Memory → Result GateError Caller → Memory × Result ServerError Request
after_device catalogue visit memory caller =
    if is_before_account visit.mount
    then unaccounted visit memory caller
    else identified catalogue visit memory caller

module _ (web : Web) (crypto : Crypto) where
  -- The request as the router sees it.
  pub handle : Catalogue → Visit → ℕ → Memory → Memory × Result ServerError Request
  handle catalogue visit now memory =
      let (after, caller) = device_auth web crypto visit.http now memory in
      if is_before_device visit.mount
      then (memory, ok (request_of visit nobody memory.db none))
      else after_device catalogue visit after caller
