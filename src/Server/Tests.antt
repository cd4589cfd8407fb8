-- ===== src/Server/Tests.antt =====
-- A phone that looks at films, and an administrator at the server's own machine.
use labaiacinghiala.Common.{
  true, false, Option, none, some, List, [], ◌∷◌, Text, codes, text_eq, if◌then◌else◌, ◌≡◌, refl,
  ok, not_finite, amount, contains, drop_space, ends_with, is_space, lower, split, starts_with,
  to_lower, to_upper, trim, upper,
}
use labaiacinghiala.Store.{Account, Device, user, administrator, login, films}
use labaiacinghiala.Accounts.Rows.{is_active_admin, find_account, has_account_id, is_admin}
use labaiacinghiala.Accounts.Sections.{account_sections, effective_sections}
use labaiacinghiala.Access.{
  Request, account_section_set, assert_local_admin_browser_access, assert_password_change_completed,
  assert_section_access, first_part, given_path, has_section, is_administrator, is_front,
  movie_access, relative_path, with_slash,
}
use labaiacinghiala.DeviceAuth.{check_request, clean_replay_cache, verify_request}
use labaiacinghiala.LocalAdmin.{
  drop_last, Url, Web, HttpRequest, is_local_admin_browser_request, authority_of, effective_port,
  forwarded_headers, has_credentials, has_forwarding_headers, http_url, is_allowed_local_admin_host,
  is_allowed_local_admin_origin, is_authority_at, is_authority_break, is_cross_site, is_given,
  is_local_at, is_loopback_address, is_origin_at, is_root, local_admin_hosts, normalize_address,
  normalize_hostname, normalize_local_port, parse_authority, parse_http_url, safe_methods,
}
use labaiacinghiala.LocalAdmin.Local.{Local, is_local_admin_browser_request-Local}
use labaiacinghiala.Gate.{
  seen_at, request_path, Memory, device_auth, attach_device, header_auth, header_auth_from_request,
  media_auth, media_auth_from_request, number_of, request_target, touch_last_seen, written_at,
  local_caller,
}
use labaiacinghiala.Server.{
  is_before_account, after_device, is_before_device, Visit, Catalogue, movies, pairing_invites,
  handle, access, account_auth, account_of, admission, identified, is_local, mount_access,
  request_of,
}
use labaiacinghiala.Server.Admitted.{Reached, handle-Reached}
use labaiacinghiala.Server.Administrators.{
  handle_administers, handle-Local, is_administration, is_pairing,
}
use labaiacinghiala.Sessions.{
  has_id, is_bindable, as_context, as_local, check_session, close_session, device_session, earlier,
  is_default_account, local_admin, oldest_admin, resolve_caller, resolve_device_account,
  resolve_local_admin_account, resolve_named, resolve_request_account,
}
use labaiacinghiala.Ranges.{drop_text, is_digit, leading_digits, value_of}
use labaiacinghiala.Samples.{accepting, uuid, account, device}

abbrev home_page : Url
home_page = record {
  protocol = codes "http:";
  username = [];
  password = [];
  hostname = codes "localhost";
  port = codes "3000";
  pathname = codes "/";
  search = [];
  hash = [];
}

-- A platform that reads one URL and one number.
abbrev platform : Web
platform = record {
  parse_url = λ t. if text_eq t (codes "http://localhost:3000") then some home_page else none;
  is_ip_v4 = λ t. text_eq t (codes "127.0.0.1");
  number = λ t. if text_eq t (codes "1000") then amount 1000 else not_finite;
}

abbrev phone : Device
phone = record (device uuid) {
  active_account_id = some (codes "guest");
  active_account_auth_version = some 1;
  account_authenticated_at = some 1;
  account_binding_source = some login;
}

abbrev started : Memory
started = record {
  db = record {
    accounts = account (codes "root") administrator ∷ account (codes "guest") user ∷ [];
    grants = record { account_id = codes "guest"; section = films } ∷ [];
    devices = phone ∷ [];
    invites = [];
  };
  replay_cache = [];
  last_seen_writes = [];
}

abbrev catalogue : Catalogue
catalogue = record { movies_rows = []; reading_rows = [] }

-- The header of a request by its name.
abbrev header_of : List (Text × Text) → Text → Option Text
header_of [] name = none
header_of ((key, value) ∷ rest) name = if text_eq key name then some value else header_of rest name

abbrev http : Text → Text → List (Text × Text) → Text → HttpRequest
http method url headers address = record {
  method = method;
  original_url = url;
  url = url;
  header = header_of headers;
  has_own = λ name. false;
  query = λ name. none;
  remote_address = some address;
  local_port = some 3000;
}

abbrev films_page : Visit
films_page = record {
  http =
      http (codes "GET") (codes "/api/movies/home")
        ((codes "X-Baia-Device-Id", uuid)
          ∷ (codes "X-Baia-Timestamp", codes "1000")
          ∷ (codes "X-Baia-Nonce", codes "nonce")
          ∷ (codes "X-Baia-Signature", codes "sig")
          ∷ [])
        (codes "192.168.1.20");
  mount = movies;
  path = codes "/home";
  url = codes "/home";
  type_query = none;
  category_query = none;
}

abbrev local_http : HttpRequest
local_http =
    http (codes "POST") (codes "/api/admin/pairing-invites")
      ((codes "Host", codes "localhost:3000")
        ∷ (codes "Origin", codes "http://localhost:3000")
        ∷ [])
      (codes "::ffff:127.0.0.1")

abbrev invites_page : Visit
invites_page = record {
  http = local_http;
  mount = pairing_invites;
  path = codes "/";
  url = codes "/";
  type_query = none;
  category_query = none;
}

abbrev films_request : Request
films_request = record {
  account = some (account (codes "guest") user, films ∷ []);
  local_access = false;
  path = codes "/home";
  url = codes "/home";
  type_query = none;
  category_query = none;
}

abbrev invites_request : Request
invites_request = record {
  account = some (account (codes "root") administrator, []);
  local_access = true;
  path = codes "/";
  url = codes "/";
  type_query = none;
  category_query = none;
}

shows_films : (handle platform accepting catalogue films_page 1010000 started).1 ≡ ok films_request
unfolding handle identified account_auth device_auth media_auth media_auth_from_request
    header_auth_from_request header_auth number_of attach_device touch_last_seen written_at
    request_target first_part split access admission mount_access request_of account_of is_local
    resolve_request_account resolve_caller as_context assert_password_change_completed
    verify_request check_request clean_replay_cache resolve_device_account resolve_named
    close_session check_session device_session find_account has_account_id text_eq movie_access
    relative_path given_path with_slash is_front starts_with assert_section_access
    account_section_set has_section account_sections effective_sections is_before_device
    after_device is_before_account
shows_films = refl

is_local_test : is_local_admin_browser_request platform local_http ≡ true
unfolding is_local_admin_browser_request is_loopback_address normalize_address starts_with drop_text
    to_lower lower trim drop_space is_space text_eq split first_part leading_digits is_digit
    value_of has_forwarding_headers forwarded_headers is_given is_allowed_local_admin_host
    parse_authority authority_of is_authority_break has_credentials is_root normalize_hostname
    ends_with effective_port normalize_local_port is_authority_at is_local_at contains
    local_admin_hosts is_cross_site is_allowed_local_admin_origin parse_http_url http_url
    is_origin_at safe_methods to_upper upper
is_local_test = refl

shows_invites :
    (handle platform accepting catalogue invites_page 1010000 started).1 ≡ ok invites_request
unfolding handle identified account_auth device_auth media_auth media_auth_from_request
    header_auth_from_request header_auth number_of attach_device touch_last_seen written_at
    request_target first_part split access admission mount_access request_of account_of is_local
    resolve_request_account resolve_caller as_context assert_password_change_completed local_caller
    resolve_local_admin_account oldest_admin earlier local_admin as_local is_default_account
    is_active_admin is_admin text_eq assert_local_admin_browser_access is_administrator
    account_sections is_before_device after_device is_before_account
shows_invites = rw is_local_test refl

is_local_admin_browser_request-Local_example : Local platform local_http
is_local_admin_browser_request-Local_example =
    is_local_admin_browser_request-Local platform local_http is_local_test

handle-Reached_example :
    Reached platform accepting catalogue films_page 1010000 started.db films_request
handle-Reached_example =
    handle-Reached platform accepting catalogue films_page 1010000 started {req = films_request}
      shows_films

handle_administers_example :
    (a : Account) × (invites_request.account ≡ some (a, account_sections started.db.grants a.id))
    × (is_active_admin a ≡ true)
unfolding is_administration
handle_administers_example =
    handle_administers platform accepting catalogue invites_page 1010000 started invites_request
      shows_invites refl

handle-Local_example : Local platform local_http
unfolding is_pairing
handle-Local_example =
    handle-Local platform accepting catalogue invites_page 1010000 started invites_request
      shows_invites refl

-- An IPv6 host, the path of a media URL, and a device that was not written lately.
bracketed : normalize_hostname (codes " [::1]") ≡ codes "::1"
unfolding normalize_hostname drop_last starts_with to_lower trim ends_with drop_text
bracketed = refl

path_of_request : request_path (http (codes "GET") (codes "/api/a?b#c") [] []) ≡ codes "/api/a"
unfolding request_path first_part split request_target
path_of_request = refl

written :
    (touch_last_seen uuid 40000 started).db.devices ≡ record phone { last_seen_at = 40000 } ∷ []
unfolding touch_last_seen seen_at written_at is_bindable has_id text_eq
written = refl
