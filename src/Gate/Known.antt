-- ===== src/Gate/Known.antt =====
-- Whom the middleware lets in: a paired device or the local browser.
use labaiacinghiala.Common.{
  ℕ, ◌-◌, ltb, ◌/◌, true, Option, none, some, List, ◌≡◌, refl, inl, inr, Text, text_eq, is_uuid,
  contains, find, Bool-cases, Result-cases, Result, ok, err, ◌>>=◌, require, >>=-eq-ok, Returns,
  Returns->>=, Returns-ok, sym, subst,
}
use labaiacinghiala.Store.{Device}
use labaiacinghiala.Sessions.{has_id, Caller, local_browser, paired}
use labaiacinghiala.DeviceAuth.{
  Crypto, AuthError, auth_invalid, Authorization, Call, Cache, has, replay_key, clean_replay_cache,
  fresh_timestamp, request_proof_message, load_active_device, normalize_target, decode_base64url,
  verify_ed25519, check_signed, check_request, verify_request,
}
use labaiacinghiala.DeviceAuth.Signed.{
  active_row-eq-ok, load_active_device-eq-ok, RequestSigned, verify_request-RequestSigned,
}
use labaiacinghiala.DeviceAuth.Media.{
  MediaAuthorization, is_authorized_media_path, media_proof_message, live_expiry, verify_media,
  Granted, verify_media-Returns,
}
use labaiacinghiala.LocalAdmin.{Web, HttpRequest, safe_methods, is_local_admin_browser_request}
use labaiacinghiala.Gate.{
  Memory, request_target, request_path, touch_last_seen, written_at, last_seen_write_interval,
  attach_device, media_auth_from_request, header_auth_from_request, local_caller, header_auth,
  media_auth, device_auth,
}

-- A row of the table of devices whose pairing was not revoked.
pub record IsPaired (devices : List Device) (d : Device) : Type 0 where
  pub stored : find (has_id d.id) devices ≡ some d
  pub active : d.revoked_at ≡ none

-- What is known of whoever sends a request: a device whose key has signed the request, its method,
-- its target and a time within the clock skew; a device whose key has signed the media URL; or the
-- browser of the server's own machine.
pub data Known (web : Web) (crypto : Crypto) (devices : List Device) (req : HttpRequest) (now : ℕ)
    : Caller → Type 0 where
  by_header :
      (d : Device) (auth : Authorization)
      → IsPaired devices d
      → header_auth_from_request web req ≡ some auth
      → RequestSigned crypto auth
          (record { method = req.method; target = request_target req; now = now / 1000 })
          d
      → Known web crypto devices req now (paired d)
  by_media :
      (d : Device) (auth : MediaAuthorization)
      → IsPaired devices d
      → media_auth_from_request web req ≡ some auth
      → contains safe_methods req.method ≡ true
      → Granted crypto auth (request_path req) (now / 1000) d
      → Known web crypto devices req now (paired d)
  by_browser :
      is_local_admin_browser_request web req ≡ true → Known web crypto devices req now local_browser

loaded-IsPaired :
    (devices : List Device) (id : Text) → Returns (IsPaired devices) (load_active_device devices id)
unfolding load_active_device has_id
loaded-IsPaired devices id = elim (Result-cases (load_active_device devices id)) [
  | inl (e, failed) ↦ rw failed tt
  | inr (d, loaded) ↦
      let (_, _, row) = >>=-eq-ok (require (is_uuid id) auth_invalid) _ loaded in
      let (found, active) = active_row-eq-ok (find (λ (e : Device). text_eq e.id id) devices) row in
      let (same, _) = load_active_device-eq-ok devices id loaded in
      rw loaded (record {
        stored =
            subst (λ i. find (λ (e : Device). text_eq e.id i) devices ≡ some d) (sym same) found;
        active = active;
      })
]

Returns-both :
    {E : Type 0} {A : Type 0} (P Q R : A → Type 0) (m : Result E A)
    → Returns P m
    → Returns Q m
    → ((a : A) → P a → Q a → R a)
    → Returns R m
Returns-both P Q R (ok a) p q f = f a p q
Returns-both P Q R (err e) p q f = tt

module _ (crypto : Crypto) where
  media-IsPaired :
      (devices : List Device) (auth : MediaAuthorization) (path : Text) (now : ℕ)
      → Returns (IsPaired devices) (verify_media crypto devices auth path now)
  unfolding verify_media
  media-IsPaired devices auth path now = Returns->>= _ (normalize_target path) _ λ normalized _.
      Returns->>= _ (require (is_authorized_media_path normalized) auth_invalid) _ λ _ _.
        Returns->>= _ (live_expiry auth.expires now) _ λ expires _.
          Returns->>= _ (load_active_device devices auth.device_id) _ λ device loaded.
            Returns->>= _ (media_proof_message auth.device_id expires normalized) _ λ message _.
              Returns->>= _ (verify_ed25519 crypto device.public_key message auth.signature) _
                λ valid _. Returns->>= _ (require valid auth_invalid) _ λ _ _.
                  Returns-ok (IsPaired devices) _ (loaded-IsPaired devices auth.device_id) loaded

  signed-IsPaired :
      (devices : List Device) (auth : Authorization) (call : Call) (timestamp : ℕ)
      → Returns (IsPaired devices) (check_signed crypto devices auth call timestamp)
  unfolding check_signed
  signed-IsPaired devices auth call timestamp =
      Returns->>= _ (decode_base64url crypto auth.nonce 16 >>= λ bytes. ok tt) _ λ _ _.
        Returns->>= _ (load_active_device devices auth.device_id) _ λ device loaded.
          Returns->>= _
            (request_proof_message auth.device_id timestamp auth.nonce call.method call.target) _
            λ message _.
              Returns->>= _ (verify_ed25519 crypto device.public_key message auth.signature) _
                λ valid _. Returns->>= _ (require valid auth_invalid) _ λ _ _.
                  Returns-ok (IsPaired devices) _ (loaded-IsPaired devices auth.device_id) loaded

  request-IsPaired :
      (devices : List Device) (auth : Authorization) (call : Call)
      → Returns (λ out. IsPaired devices out.0) (check_request crypto devices auth call)
  unfolding check_request
  request-IsPaired devices auth call =
      Returns->>= _ (fresh_timestamp crypto auth.timestamp call.now) _ λ timestamp _.
        Returns->>= _ (check_signed crypto devices auth call timestamp) _ λ device signed.
          Returns-ok (IsPaired devices) _ (signed-IsPaired devices auth call timestamp) signed

  verify-IsPaired :
      (devices : List Device) (auth : Authorization) (call : Call) (cache : Cache)
      → Returns (IsPaired devices) (verify_request crypto devices auth call cache).1
  unfolding verify_request
  verify-IsPaired devices auth call cache =
      elim (Result-cases (check_request crypto devices auth call)) [
        | inl (e, failed) ↦ rw (failed, Returns) tt
        | inr ((d, timestamp), checked) ↦
            let p =
              Returns-ok (λ out. IsPaired devices out.0) _ (request-IsPaired devices auth call)
                checked in
            elim (Bool-cases
              (has (replay_key auth.device_id auth.nonce) (clean_replay_cache call.now cache))) [
                | inl again ↦ rw (checked, again, Returns) tt
                | inr new ↦ rw (checked, new, Returns) p
              ]
      ]

  module _ (web : Web) (req : HttpRequest) (now : ℕ) where
    attached-Known :
        (devices : List Device) (memory : Memory) (verified : Result AuthError Device)
        → Returns (λ d. Known web crypto devices req now (paired d)) verified
        → Returns (Known web crypto devices req now) (attach_device now memory verified).1
    unfolding attach_device
    attached-Known devices memory (err e) h = tt
    attached-Known devices memory (ok d) h = h

    local-Known :
        (devices : List Device) → Returns (Known web crypto devices req now) (local_caller web req)
    unfolding local_caller
    local-Known devices = elim (Bool-cases (is_local_admin_browser_request web req)) [
      | inl is ↦ rw is (by_browser is)
      | inr other ↦ rw other tt
    ]

    signed-Known :
        (devices : List Device) (auth : Authorization) (cache : Cache)
        → header_auth_from_request web req ≡ some auth
        → Returns
            (λ d. Known web crypto devices req now (paired d))
            (verify_request crypto devices auth
              (record { method = req.method; target = request_target req; now = now / 1000 })
              cache).1
    signed-Known devices auth cache given =
        let call : Call = record {
          method = req.method;
          target = request_target req;
          now = now / 1000;
        } in
        Returns-both (IsPaired devices) (RequestSigned crypto auth call) _ _
          (verify-IsPaired devices auth call cache)
          (verify_request-RequestSigned crypto devices auth call cache)
          (λ d row signed. by_header d auth row given signed)

    header-Known :
        (memory : Memory) (auth : Option Authorization)
        → header_auth_from_request web req ≡ auth
        → Returns
            (Known web crypto memory.db.devices req now)
            (header_auth web crypto req now memory auth).1
    unfolding header_auth
    header-Known memory none given = local-Known memory.db.devices
    header-Known memory (some auth) given =
        attached-Known memory.db.devices _ _
          (signed-Known memory.db.devices auth memory.replay_cache given)

    granted-Known :
        (devices : List Device) (auth : MediaAuthorization)
        → media_auth_from_request web req ≡ some auth
        → contains safe_methods req.method ≡ true
        → Returns
            (λ d. Known web crypto devices req now (paired d))
            (verify_media crypto devices auth (request_path req) (now / 1000))
    granted-Known devices auth given safe =
        Returns-both (IsPaired devices) (Granted crypto auth (request_path req) (now / 1000)) _ _
          (media-IsPaired devices auth (request_path req) (now / 1000))
          (verify_media-Returns crypto devices auth (request_path req) (now / 1000))
          (λ d row granted. by_media d auth row given safe granted)

    media-Known :
        (memory : Memory) (auth : Option MediaAuthorization)
        → media_auth_from_request web req ≡ auth
        → Returns
            (Known web crypto memory.db.devices req now)
            (media_auth web crypto req now memory auth).1
    unfolding media_auth
    media-Known memory none given = header-Known memory (header_auth_from_request web req) refl
    media-Known memory (some auth) given = elim (Bool-cases (contains safe_methods req.method)) [
      | inl safe ↦ rw safe (
          attached-Known memory.db.devices memory _
            (granted-Known memory.db.devices auth given safe))
      | inr other ↦ rw other (header-Known memory (header_auth_from_request web req) refl)
    ]

    pub device_auth-Known :
        (memory : Memory)
        → Returns
            (Known web crypto memory.db.devices req now)
            (device_auth web crypto req now memory).1
    unfolding device_auth
    device_auth-Known memory = media-Known memory (media_auth_from_request web req) refl

    attached-accounts :
        (memory : Memory) (verified : Result AuthError Device)
        → ((attach_device now memory verified).0.db.accounts ≡ memory.db.accounts)
          × ((attach_device now memory verified).0.db.grants ≡ memory.db.grants)
    unfolding attach_device touch_last_seen
    attached-accounts memory (err e) = (refl, refl)
    attached-accounts memory (ok d) =
        elim (Bool-cases
          (ltb (now - written_at d.id memory.last_seen_writes) last_seen_write_interval)) [
            | inl soon ↦ rw soon (refl, refl)
            | inr late ↦ rw late (refl, refl)
          ]

    header-accounts :
        (memory : Memory) (auth : Option Authorization)
        → ((header_auth web crypto req now memory auth).0.db.accounts ≡ memory.db.accounts)
          × ((header_auth web crypto req now memory auth).0.db.grants ≡ memory.db.grants)
    unfolding header_auth
    header-accounts memory none = (refl, refl)
    header-accounts memory (some auth) = attached-accounts _ _

    media-accounts :
        (memory : Memory) (auth : Option MediaAuthorization)
        → ((media_auth web crypto req now memory auth).0.db.accounts ≡ memory.db.accounts)
          × ((media_auth web crypto req now memory auth).0.db.grants ≡ memory.db.grants)
    unfolding media_auth
    media-accounts memory none = header-accounts memory (header_auth_from_request web req)
    media-accounts memory (some auth) = elim (Bool-cases (contains safe_methods req.method)) [
      | inl safe ↦ rw safe (
          attached-accounts memory
            (verify_media crypto memory.db.devices auth (request_path req) (now / 1000)))
      | inr other ↦ rw other (header-accounts memory (header_auth_from_request web req))
    ]

    -- The check leaves the tables of accounts and of their sections alone.
    pub device_auth-accounts :
        (memory : Memory)
        → ((device_auth web crypto req now memory).0.db.accounts ≡ memory.db.accounts)
          × ((device_auth web crypto req now memory).0.db.grants ≡ memory.db.grants)
    unfolding device_auth
    device_auth-accounts memory = media-accounts memory (media_auth_from_request web req)
