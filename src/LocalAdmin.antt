-- ===== src/LocalAdmin.antt =====
-- src/middleware/local-admin-access.js: whether a request comes from a browser on the server's own
-- machine. Express, node:net and the URL class are parameters: `HttpRequest` is what the middleware
-- reads of a request, `Web` what the platform tells of a text.
pub mod Local
use labaiacinghiala.Common.{
  ℕ, ◌++◌, Bool, true, false, not, ◌&&◌, ◌||◌, Option, none, some, List, [], ◌∷◌, Text, codes,
  text_eq, is_empty, is_space, trim, to_lower, to_upper, starts_with, ends_with, contains, any,
  length, split, ltb, leb, ◌==◌, if◌then◌else◌, JsNumber,
}
use labaiacinghiala.Access.{first_part}
use labaiacinghiala.Ranges.{leading_digits, drop_text, value_of}

-- The parts of a URL object.
pub record Url : Type 0 where
  pub protocol : Text
  pub username : Text
  pub password : Text
  pub hostname : Text
  pub port : Text
  pub pathname : Text
  pub search : Text
  pub hash : Text

pub record Web : Type 0 where
  -- new URL(text), `none` where it throws.
  pub parse_url : Text → Option Url
  -- net.isIP(text) === 4.
  pub is_ip_v4 : Text → Bool
  -- Number(text), not finite where it is no safe integer.
  pub number : Text → JsNumber

pub record HttpRequest : Type 0 where
  pub method : Text
  pub original_url : Text
  pub url : Text
  -- req.get(name), and Object.hasOwn(req.headers, name).
  pub header : Text → Option Text
  pub has_own : Text → Bool
  -- A parameter of the query, where it is a text.
  pub query : Text → Option Text
  pub remote_address : Option Text
  pub local_port : Option ℕ

-- String(value || '').
abbrev pub text_of : Option Text → Text
text_of none = []
text_of (some t) = t

unfoldable pub local_admin_hosts : List Text
local_admin_hosts = codes "localhost" ∷ codes "127.0.0.1" ∷ codes "::1" ∷ []

unfoldable pub safe_methods : List Text
safe_methods = codes "GET" ∷ codes "HEAD" ∷ []

unfoldable pub forwarded_headers : List Text
forwarded_headers =
    codes "forwarded"
    ∷ codes "x-forwarded-for"
    ∷ codes "x-forwarded-host"
    ∷ codes "x-forwarded-port"
    ∷ codes "x-forwarded-proto"
    ∷ codes "x-real-ip"
    ∷ []

unfoldable pub normalize_address : Option Text → Text
normalize_address address =
    let value = to_lower (trim (text_of address)) in
    if starts_with value (codes "::ffff:") then drop_text 7 value else value

-- slice(0, -1).
unfoldable pub drop_last : Text → Text
drop_last [] = []
drop_last (c ∷ s) = let rest = drop_last s in if is_empty s then [] else c ∷ rest

unfoldable pub normalize_hostname : Text → Text
normalize_hostname hostname =
    let value = to_lower (trim hostname) in
    if starts_with value (codes "[") && ends_with value (codes "]")
    then drop_last (drop_text 1 value)
    else value

-- [\s/@\\?#].
unfoldable pub is_authority_break : ℕ → Bool
is_authority_break c = is_space c || c == b'/' || c == b'@' || c == 92 || c == b'?' || c == b'#'

unfoldable pub has_credentials : Url → Bool
has_credentials url = not (is_empty url.username) || not (is_empty url.password)

-- The root of a host, without a query or a fragment.
unfoldable pub is_root : Url → Bool
is_root url = text_eq url.pathname (codes "/") && is_empty url.search && is_empty url.hash

-- A port that is not a number is 0, which no local port is.
unfoldable pub effective_port : Url → ℕ
effective_port url = if is_empty url.port then 80 else value_of 0 (leading_digits url.port)

unfoldable pub authority_of : Option Url → Option (Text × ℕ)
authority_of none = none
authority_of (some url) =
    if has_credentials url || not (is_root url)
    then none
    else some (normalize_hostname url.hostname, effective_port url)

unfoldable pub normalize_local_port : Option ℕ → Option ℕ
normalize_local_port none = none
normalize_local_port (some port) = if leb 1 port && leb port 65535 then some port else none

unfoldable pub is_local_at : Text → ℕ → Option ℕ → Bool
is_local_at hostname port none = false
is_local_at hostname port (some expected) = contains local_admin_hosts hostname && port == expected

unfoldable pub is_authority_at : Option (Text × ℕ) → Option ℕ → Bool
is_authority_at none expected = false
is_authority_at (some (hostname, port)) expected = is_local_at hostname port expected

unfoldable pub http_url : Option Url → Option Url
http_url none = none
http_url (some url) =
    if not (text_eq url.protocol (codes "http:")) || has_credentials url then none else some url

unfoldable pub is_origin_at : Option Url → Option ℕ → Bool
is_origin_at none expected = false
is_origin_at (some url) expected =
    is_root url && is_local_at (normalize_hostname url.hostname) (effective_port url) expected

pub is_referer_at : Option Url → Option ℕ → Bool
is_referer_at none expected = false
is_referer_at (some url) expected =
    is_local_at (normalize_hostname url.hostname) (effective_port url) expected

unfoldable pub is_given : Option Text → Bool
is_given none = false
is_given (some t) = true

unfoldable pub has_forwarding_headers : HttpRequest → Bool
has_forwarding_headers req =
    any (λ name. req.has_own name || is_given (req.header name)) forwarded_headers

-- A value of Sec-Fetch-Site other than same-origin.
unfoldable pub is_cross_site : HttpRequest → Bool
is_cross_site req =
    let site = to_lower (trim (text_of (req.header (codes "Sec-Fetch-Site")))) in
    not (is_empty site) && not (text_eq site (codes "same-origin"))

module _ (web : Web) where
  unfoldable pub is_loopback_address : Option Text → Bool
  is_loopback_address address =
      let value = normalize_address address in
      if text_eq value (codes "::1")
      then true
      else if not (web.is_ip_v4 value)
      then false
      else value_of 0 (leading_digits (first_part (split b'.' value))) == 127

  unfoldable pub parse_authority : Option Text → Option (Text × ℕ)
  parse_authority authority =
      let value = trim (text_of authority) in
      if is_empty value || ltb 255 (length value) || any is_authority_break value
      then none
      else authority_of (web.parse_url (codes "http://" ++ value))

  unfoldable pub is_allowed_local_admin_host : Option Text → Option ℕ → Bool
  is_allowed_local_admin_host host local_port =
      is_authority_at (parse_authority host) (normalize_local_port local_port)

  unfoldable pub parse_http_url : Option Text → Option Url
  parse_http_url value = http_url (web.parse_url (text_of value))

  unfoldable pub is_allowed_local_admin_origin : Option Text → Option ℕ → Bool
  is_allowed_local_admin_origin origin local_port =
      is_origin_at (parse_http_url origin) (normalize_local_port local_port)

  pub is_allowed_local_admin_referer : Option Text → Option ℕ → Bool
  is_allowed_local_admin_referer referer local_port =
      is_referer_at (parse_http_url referer) (normalize_local_port local_port)

  unfoldable pub is_local_admin_browser_request : HttpRequest → Bool
  is_local_admin_browser_request req =
      let origin = req.header (codes "Origin") in
      if not (is_loopback_address req.remote_address)
      then false
      else if has_forwarding_headers req
      then false
      else if not (is_allowed_local_admin_host (req.header (codes "Host")) req.local_port)
      then false
      else if is_cross_site req
      then false
      else if not (is_empty (text_of origin))
      then is_allowed_local_admin_origin origin req.local_port
      else if not (contains safe_methods (to_upper req.method))
      then false
      else is_allowed_local_admin_referer (req.header (codes "Referer")) req.local_port
