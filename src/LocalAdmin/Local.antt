-- ===== src/LocalAdmin/Local.antt =====
-- What a request that passes for one of the local browser has shown.
use labaiacinghiala.Common.{
  ==_iff, ℕ, true, false, Option, none, some, ◌≡◌, refl, inl, inr, arith, Text, codes, text_eq,
  is_empty, contains, Bool-cases, sym, ap, subst, to_upper,
}
use labaiacinghiala.LocalAdmin.{
  Url, Web, HttpRequest, text_of, local_admin_hosts, safe_methods, effective_port,
  normalize_hostname, normalize_local_port, is_local_at, is_authority_at, http_url, is_origin_at,
  is_referer_at, has_forwarding_headers, is_loopback_address, parse_authority,
  is_allowed_local_admin_host, parse_http_url, is_allowed_local_admin_origin,
  is_allowed_local_admin_referer, is_local_admin_browser_request,
}

-- A page that the server's own machine serves at a port.
pub record IsLocalPage (url : Url) (port : ℕ) : Type 0 where
  pub scheme : text_eq url.protocol (codes "http:") ≡ true
  pub local_host : contains local_admin_hosts (normalize_hostname url.hostname) ≡ true
  pub same_port : effective_port url ≡ port

-- Where the browser says that a request comes from: Origin, or for a request that changes nothing
-- and has no origin, Referer.
pub data SentFrom (web : Web) (req : HttpRequest) (url : Url) : Type 0 where
  by_origin :
      web.parse_url (text_of (req.header (codes "Origin"))) ≡ some url → SentFrom web req url
  by_referer :
      is_empty (text_of (req.header (codes "Origin"))) ≡ true
      → contains safe_methods (to_upper req.method) ≡ true
      → web.parse_url (text_of (req.header (codes "Referer"))) ≡ some url
      → SentFrom web req url

pub record Local (web : Web) (req : HttpRequest) : Type 0 where
  pub loopback : is_loopback_address web req.remote_address ≡ true
  pub direct : has_forwarding_headers req ≡ false
  pub hostname : Text
  pub port : ℕ
  pub received : req.local_port ≡ some port
  pub addressed : parse_authority web (req.header (codes "Host")) ≡ some (hostname, port)
  pub local_host : contains local_admin_hosts hostname ≡ true
  pub page : Url
  pub sent : SentFrom web req page
  pub IsLocalPage_lem : IsLocalPage page port

local_port-eq :
    (local_port : Option ℕ) {port : ℕ}
    → normalize_local_port local_port ≡ some port
    → local_port ≡ some port
unfolding normalize_local_port
local_port-eq none h = cc
local_port-eq (some p) h = ground (arith, h)

at-eq :
    (hostname : Text) (port : ℕ) (expected : Option ℕ)
    → is_local_at hostname port expected ≡ true
    → (contains local_admin_hosts hostname ≡ true) × (expected ≡ some port)
unfolding is_local_at
at-eq hostname port none h = cc
at-eq hostname port (some p) h =
    (ground (arith, h), ap some (sym ((==_iff port p).0 (ground (arith, h)))))

authority-eq :
    (authority : Option (Text × ℕ)) (expected : Option ℕ)
    → is_authority_at authority expected ≡ true
    → (hostname : Text) × (port : ℕ) × (authority ≡ some (hostname, port))
      × (contains local_admin_hosts hostname ≡ true)
      × (expected ≡ some port)
unfolding is_authority_at
authority-eq none expected h = cc
authority-eq (some (hostname, port)) expected h =
    let (known, same) = at-eq hostname port expected h in (hostname, port, refl, known, same)

http_url-eq :
    (o : Option Url) {url : Url}
    → http_url o ≡ some url
    → (o ≡ some url) × (text_eq url.protocol (codes "http:") ≡ true)
unfolding http_url
http_url-eq none h = cc
http_url-eq (some u) {url} h =
    let scheme : text_eq u.protocol (codes "http:") ≡ true = ground (arith, h) in
    let same : u ≡ url = ground (arith, h) in
    (ap some same, subst (λ (x : Url). text_eq x.protocol (codes "http:") ≡ true) same scheme)

-- The page that a test of an origin or a referer found.
found_page :
    (web : Web) (value : Option Text) (o : Option Url) (expected : Option ℕ) (port : ℕ)
    → expected ≡ some port
    → parse_http_url web value ≡ o
    → is_referer_at o expected ≡ true
    → (url : Url) × (web.parse_url (text_of value) ≡ some url) × IsLocalPage url port
unfolding is_referer_at parse_http_url
found_page web value none expected port e p h = cc
found_page web value (some url) expected port e p h =
    let (parsed, scheme) = http_url-eq (web.parse_url (text_of value)) p in
    let (known, same) = at-eq (normalize_hostname url.hostname) (effective_port url) expected h in
    (url, parsed, record { scheme = scheme; local_host = known; same_port = cc })

origin-referer :
    (o : Option Url) (expected : Option ℕ)
    → is_origin_at o expected ≡ true
    → is_referer_at o expected ≡ true
unfolding is_origin_at is_referer_at
origin-referer none expected h = cc
origin-referer (some url) expected h = ground (arith, h)

-- A request that passes for one of the local browser came over a loopback socket without forwarding
-- headers, its Host header names this machine at the socket's port, and it was sent from a page of
-- this machine at the same port: by its Origin or, without one, by the Referer of a GET or HEAD.
pub is_local_admin_browser_request-Local :
    (web : Web) (req : HttpRequest) → is_local_admin_browser_request web req ≡ true → Local web req
unfolding is_local_admin_browser_request is_allowed_local_admin_host is_allowed_local_admin_origin
    is_allowed_local_admin_referer
is_local_admin_browser_request-Local web req h =
    let loopback : is_loopback_address web req.remote_address ≡ true = ground (arith, h) in
    let direct : has_forwarding_headers req ≡ false = ground (arith, h) in
    let host : is_authority_at (parse_authority web (req.header (codes "Host")))
          (normalize_local_port req.local_port)
        ≡ true =
      ground (arith, h) in
    let (hostname, port, addressed, known, expected) = authority-eq _ _ host in
    let (page, sent, is) : (url : Url) × SentFrom web req url × IsLocalPage url port =
      elim (Bool-cases (is_empty (text_of (req.header (codes "Origin"))))) [
        | inl no_origin ↦
            let safe : contains safe_methods (to_upper req.method) ≡ true =
              ground (arith, h, no_origin) in
            let (url, parsed, is) =
              found_page web (req.header (codes "Referer")) _ (normalize_local_port req.local_port)
                port expected refl (ground (arith, h, no_origin)) in
            (url, by_referer no_origin safe parsed, is)
        | inr origin ↦
            let (url, parsed, is) =
              found_page web (req.header (codes "Origin")) _ (normalize_local_port req.local_port)
                port expected refl
                (origin-referer (parse_http_url web (req.header (codes "Origin")))
                  (normalize_local_port req.local_port) (ground (arith, h, origin))) in
            (url, by_origin parsed, is)
      ] in
    record {
      loopback = loopback;
      direct = direct;
      hostname = hostname;
      port = port;
      received = local_port-eq req.local_port expected;
      addressed = addressed;
      local_host = known;
      page = page;
      sent = sent;
      IsLocalPage_lem = is;
    }
