-- ===== src/DeviceAuth/Media.antt =====
-- src/services/device-auth-service.js: a media URL that a device has signed, for players that send no
-- header. Such a URL may be used again until it expires.
use labaiacinghiala.Common.{
  split, Returns, >>=-eq-ok, require-eq-ok, ap, ◌∙◌, ℕ, ◌+◌, ◌-◌, ◌*◌, ◌≤◌, Bool, true, false, not,
  ◌&&◌, ◌||◌, List, [], ◌∷◌, ◌≡◌, inl, inr, arith, Text, codes, text_eq, is_empty, map, ascii_lower,
  ok-inj, join, is_uuid, all, any, leb, ltb, if◌then◌else◌, Bool-cases, Result, ok, err, ◌>>=◌,
  ◌>>◌, require, Returns->>=, JsNumber, not_finite, negative, amount, decimal, none, sym,
}
use Prim.Native.String.{String}
use labaiacinghiala.Store.{Device}
use labaiacinghiala.DeviceAuth.{
  Crypto, AuthError, auth_invalid, auth_expired, clock_skew, normalize_target, load_active_device,
  verify_ed25519, max_safe_integer,
}
use labaiacinghiala.DeviceAuth.Signed.{
  HasSigned, normalize_target-eq-ok, load_active_device-eq-ok, verify_ed25519-HasSigned,
}

pub record MediaAuthorization : Type 0 where
  pub device_id : Text
  pub expires : JsNumber
  pub signature : Text

abbrev pub media_max_ttl : ℕ
media_max_ttl = 8 * 60 * 60

-- A regular expression whose parts between slashes are tests.
pub fits : List (Text → Bool) → List Text → Bool
fits [] [] = true
fits [] (p ∷ ps) = false
fits (t ∷ ts) [] = false
fits (t ∷ ts) (p ∷ ps) = t p && fits ts ps

abbrev word : String → Text → Bool
word w part = text_eq part (codes w)

-- A word without regard to case, as under the flag i, which folds ASCII letters only.
abbrev any_case : String → Text → Bool
any_case w part = text_eq (map ascii_lower part) (codes w)

-- [^/]+ and \d+.
abbrev some_text : Text → Bool
some_text part = not (is_empty part)

abbrev digits : Text → Bool
digits part = not (is_empty part) && all (λ c. leb b'0' c && leb c b'9') part

abbrev either : (Text → Bool) → (Text → Bool) → Text → Bool
either s t part = s part || t part

pub media_patterns : List (List (Text → Bool))
media_patterns =
    (is_empty ∷ word "api" ∷ word "movies" ∷ digits ∷ either (word "stream") (word "poster") ∷ [])
    ∷ (is_empty ∷ word "api" ∷ word "series" ∷ some_text ∷ word "poster" ∷ [])
    ∷ (is_empty
        ∷ word "api"
        ∷ word "metadata"
        ∷ word "items"
        ∷ digits
        ∷ word "automatic-poster"
        ∷ [])
    ∷ (is_empty ∷ word "api" ∷ word "reading" ∷ digits ∷ either (word "file") (word "cover") ∷ [])
    ∷ (is_empty ∷ word "api" ∷ word "reading" ∷ digits ∷ word "reader" ∷ word "entry" ∷ digits ∷ [])
    ∷ (is_empty
        ∷ any_case "api"
        ∷ any_case "music"
        ∷ any_case "albums"
        ∷ is_uuid
        ∷ any_case "cover"
        ∷ [])
    ∷ (is_empty
        ∷ any_case "api"
        ∷ any_case "music"
        ∷ any_case "tracks"
        ∷ is_uuid
        ∷ any_case "stream"
        ∷ [])
    ∷ []

unfoldable pub is_authorized_media_path : Text → Bool
unfolding media_patterns fits split text_eq ascii_lower is_uuid
is_authorized_media_path path = any (λ pattern. fits pattern (split b'/' path)) media_patterns

unfoldable pub media_proof_message : Text → ℕ → Text → Result AuthError Text
unfolding normalize_target join decimal
media_proof_message device_id expires path = do
  p ← normalize_target path
  ok (join (10 ∷ []) (codes "BAIA-MEDIA-V1" ∷ device_id ∷ decimal expires ∷ codes "GET" ∷ p ∷ []))

-- The expiry, once it is a safe integer that is not past and not too far ahead.
unfoldable pub live_expiry : JsNumber → ℕ → Result AuthError ℕ
live_expiry not_finite now = err auth_expired
live_expiry (negative n) now = err auth_expired
live_expiry (amount t) now =
    if ltb max_safe_integer t || ltb t now
    then err auth_expired
    else if ltb (media_max_ttl + clock_skew) (t - now)
    then err auth_invalid
    else ok t

module _ (crypto : Crypto) where
  unfoldable pub verify_media :
      List Device → MediaAuthorization → Text → ℕ → Result AuthError Device
  verify_media devices auth path now = do
    normalized ← normalize_target path
    require (is_authorized_media_path normalized) auth_invalid
    expires ← live_expiry auth.expires now
    device ← load_active_device devices auth.device_id
    message ← media_proof_message auth.device_id expires normalized
    valid ← verify_ed25519 crypto device.public_key message auth.signature
    require valid auth_invalid
    ok device

-- What the server knows of a media URL that it serves.
pub record Granted (crypto : Crypto) (auth : MediaAuthorization) (path : Text) (now : ℕ)
    (d : Device) : Type 0 where
  pub media : is_authorized_media_path path ≡ true
  pub expiry : ℕ
  pub signed : auth.expires ≡ amount expiry
  pub live : now ≤ expiry
  pub near : expiry ≤ now + (media_max_ttl + clock_skew)
  pub owner : d.id ≡ auth.device_id
  pub active : d.revoked_at ≡ none
  pub proved :
      HasSigned crypto d.public_key
        (join
          (10 ∷ [])
          (codes "BAIA-MEDIA-V1" ∷ auth.device_id ∷ decimal expiry ∷ codes "GET" ∷ path ∷ []))
        auth.signature

live_expiry-eq-ok :
    (expires : JsNumber) (now : ℕ) {t : ℕ}
    → live_expiry expires now ≡ ok t
    → (expires ≡ amount t) × (now ≤ t) × (t ≤ now + (media_max_ttl + clock_skew))
unfolding live_expiry
live_expiry-eq-ok not_finite now h = cc
live_expiry-eq-ok (negative n) now h = cc
live_expiry-eq-ok (amount s) now h = elim (Bool-cases (ltb max_safe_integer s || ltb s now)) [
  | inl past ↦ absurd (ground arith)
  | inr current ↦ elim (Bool-cases (ltb (media_max_ttl + clock_skew) (s - now))) [
    | inl far ↦ absurd (ground arith)
    | inr close ↦ (cc, ground arith, ground arith)
  ]
]

media_proof_message-eq-ok :
    (id : Text) (expires : ℕ) (path : Text) {m : Text}
    → media_proof_message id expires path ≡ ok m
    → m ≡ join (10 ∷ []) (codes "BAIA-MEDIA-V1" ∷ id ∷ decimal expires ∷ codes "GET" ∷ path ∷ [])
unfolding media_proof_message
media_proof_message-eq-ok id expires path h =
    let (p, target, rest) = >>=-eq-ok (normalize_target path) _ h in
    cc (normalize_target-eq-ok path target, ok-inj rest)

pub verify_media-Returns :
    (crypto : Crypto) (devices : List Device) (auth : MediaAuthorization) (path : Text) (now : ℕ)
    → Returns (Granted crypto auth path now) (verify_media crypto devices auth path now)
unfolding verify_media
verify_media-Returns crypto devices auth path now =
    Returns->>= _ (normalize_target path) _ λ normalized target.
      Returns->>= _ (require (is_authorized_media_path normalized) auth_invalid) _ λ _ media.
        Returns->>= _ (live_expiry auth.expires now) _ λ expires live.
          Returns->>= _ (load_active_device devices auth.device_id) _ λ device loaded.
            Returns->>= _ (media_proof_message auth.device_id expires normalized) _
              λ message spelled.
                Returns->>= _ (verify_ed25519 crypto device.public_key message auth.signature) _
                  λ valid checked. Returns->>= _ (require valid auth_invalid) _ λ _ holds.
                    let (signed, from, to) = live_expiry-eq-ok auth.expires now live in
                    let (owner, active) = load_active_device-eq-ok devices auth.device_id loaded in
                    record {
                      media =
                          ap is_authorized_media_path (sym (normalize_target-eq-ok path target))
                          ∙ require-eq-ok (is_authorized_media_path normalized) auth_invalid media;
                      expiry = expires;
                      signed = signed;
                      live = from;
                      near = to;
                      owner = owner;
                      active = active;
                      proved = cc (
                        verify_ed25519-HasSigned crypto device.public_key message auth.signature
                            checked (require-eq-ok valid auth_invalid holds),
                        media_proof_message-eq-ok auth.device_id expires normalized spelled,
                        normalize_target-eq-ok path target,
                      );
                    }
