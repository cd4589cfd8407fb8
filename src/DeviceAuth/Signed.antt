-- ===== src/DeviceAuth/Signed.antt =====
-- What an accepted proof says: which text the device's key has signed.
use labaiacinghiala.Common.{
  Option, none, some, find, Option-cases, is_uuid, text_eq_iff, ℕ, ◌+◌, ◌≤◌, Bool, true, false,
  List, [], ◌∷◌, ◌≡◌, inl, inr, arith, Text, codes, text_eq, trim, to_upper, join, Bool-cases,
  Result-cases, ok, ◌>>=◌, require, require-eq-ok, >>=-eq-ok, JsNumber, not_finite, negative,
  amount, decimal, ok-inj, sym, ap, ◌∙◌, subst, Returns, Returns->>=, Returns-ok,
}
use labaiacinghiala.Store.{Device}
use labaiacinghiala.DeviceAuth.{
  active_row, verify_request, check_request, replay_key, has, clean_replay_cache, Cache, Crypto,
  auth_invalid, Authorization, Call, clock_skew, normalize_method, normalize_target,
  request_proof_message, decode_base64url, verify_ed25519, fresh_timestamp, load_active_device,
  check_signed,
}

pub normalize_target-eq-ok : (path : Text) {p : Text} → normalize_target path ≡ ok p → p ≡ path
unfolding normalize_target
normalize_target-eq-ok path h = ground arith

normalize_method-eq-ok :
    (value : Text) {m : Text} → normalize_method value ≡ ok m → m ≡ to_upper (trim value)
unfolding normalize_method
normalize_method-eq-ok value h = ground arith

find_id :
    (id : Text) (devices : List Device) {d : Device}
    → find (λ (e : Device). text_eq e.id id) devices ≡ some d
    → d.id ≡ id
find_id id [] {d} h = cc
find_id id (e ∷ rest) {d} h = elim (Bool-cases (text_eq e.id id)) [
  | inl is ↦ ground (arith, text_eq_iff e.id id)
  | inr other ↦ find_id id rest {d = d} (ground arith)
]

pub active_row-eq-ok :
    (row : Option Device) {d : Device}
    → active_row row ≡ ok d
    → (row ≡ some d) × (d.revoked_at ≡ none)
unfolding active_row
active_row-eq-ok none h = cc
active_row-eq-ok (some e) {d} h = elim (Option-cases e.revoked_at) [
  | inl free ↦
      let same : e ≡ d = ground (arith, free) in
      (ap some same, ap (λ (x : Device). x.revoked_at) (sym same) ∙ free)
  | inr (t, revoked) ↦ absurd (ground (arith, revoked))
]

pub load_active_device-eq-ok :
    (devices : List Device) (id : Text) {d : Device}
    → load_active_device devices id ≡ ok d
    → (d.id ≡ id) × (d.revoked_at ≡ none)
unfolding load_active_device
load_active_device-eq-ok devices id h =
    let (_, _, loaded) = >>=-eq-ok (require (is_uuid id) auth_invalid) _ h in
    let (found, active) =
      active_row-eq-ok (find (λ (e : Device). text_eq e.id id) devices) loaded in
    (find_id id devices found, active)

module _ (crypto : Crypto) where
  -- The key of a public key, both in base64url, has signed a text.
  abbrev pub HasSigned : Text → Text → Text → Type 0
  HasSigned public_key message signature =
      crypto.verify (crypto.decode public_key) message (crypto.decode signature) ≡ true

  decode_base64url-eq-ok :
      (value : Text) (n : ℕ) {b : List ℕ}
      → decode_base64url crypto value n ≡ ok b
      → b ≡ crypto.decode value
  unfolding decode_base64url
  decode_base64url-eq-ok value n h = ground arith

  pub verify_ed25519-HasSigned :
      (public_key message signature : Text) {v : Bool}
      → verify_ed25519 crypto public_key message signature ≡ ok v
      → v ≡ true
      → HasSigned public_key message signature
  unfolding verify_ed25519
  verify_ed25519-HasSigned public_key message signature {v = v} h is =
      let (bytes, decoded, rest) = >>=-eq-ok (decode_base64url crypto signature 64) _ h in
      elim (Result-cases (decode_base64url crypto public_key 32)) [
        | inl (e, failed) ↦
            let wrong : false ≡ v = ok-inj (rw failed at rest) in absurd (cc (wrong, is))
        | inr (key, found) ↦
            let from_key = decode_base64url-eq-ok public_key 32 found in
            let from_signature = decode_base64url-eq-ok signature 64 decoded in
            let verified : crypto.verify key message bytes ≡ v = ok-inj (rw found at rest) in
            cc (from_key, from_signature, verified, is)
      ]

  fresh_timestamp-eq-ok :
      (stamp : JsNumber) (now : ℕ) {t : ℕ}
      → fresh_timestamp crypto stamp now ≡ ok t
      → (stamp ≡ amount t) × (now ≤ t + clock_skew) × (t ≤ now + clock_skew)
  unfolding fresh_timestamp
  fresh_timestamp-eq-ok not_finite now h = cc
  fresh_timestamp-eq-ok (negative n) now h = absurd (ground arith)
  fresh_timestamp-eq-ok (amount s) now h = ground arith

  request_proof_message-eq-ok :
      (id : Text) (timestamp : ℕ) (nonce method target : Text) {m : Text}
      → request_proof_message id timestamp nonce method target ≡ ok m
      → m
        ≡ join (10 ∷ []) (
            codes "BAIA-REQ-V1"
            ∷ id
            ∷ decimal timestamp
            ∷ nonce
            ∷ to_upper (trim method)
            ∷ target
            ∷ [])
  unfolding request_proof_message
  request_proof_message-eq-ok id timestamp nonce method target h =
      let (m, named, rest) = >>=-eq-ok (normalize_method method) _ h in
      let (t, aimed, last) = >>=-eq-ok (normalize_target target) _ rest in
      cc (normalize_method-eq-ok method named, normalize_target-eq-ok target aimed, ok-inj last)

  -- A device has signed a request: when, what and where, no earlier and no later than the clock skew.
  pub record RequestSigned (auth : Authorization) (call : Call) (d : Device) : Type 0 where
    pub timestamp : ℕ
    pub stated : auth.timestamp ≡ amount timestamp
    pub recent : call.now ≤ timestamp + clock_skew
    pub early : timestamp ≤ call.now + clock_skew
    pub named : d.id ≡ auth.device_id
    pub active : d.revoked_at ≡ none
    pub signed :
        HasSigned d.public_key
          (join (10 ∷ []) (
            codes "BAIA-REQ-V1"
            ∷ auth.device_id
            ∷ decimal timestamp
            ∷ auth.nonce
            ∷ to_upper (trim call.method)
            ∷ call.target
            ∷ []))
          auth.signature

  check_signed-RequestSigned :
      (devices : List Device) (auth : Authorization) (call : Call) (t : ℕ)
      → auth.timestamp ≡ amount t
      → call.now ≤ t + clock_skew
      → t ≤ call.now + clock_skew
      → Returns (RequestSigned auth call) (check_signed crypto devices auth call t)
  unfolding check_signed
  check_signed-RequestSigned devices auth call t stated recent early =
      Returns->>= _ (decode_base64url crypto auth.nonce 16 >>= λ bytes. ok tt) _ λ _ _.
        Returns->>= _ (load_active_device devices auth.device_id) _ λ d loaded.
          Returns->>= _ (request_proof_message auth.device_id t auth.nonce call.method call.target)
            _
            λ message spelled.
              Returns->>= _ (verify_ed25519 crypto d.public_key message auth.signature) _
                λ valid checked. Returns->>= _ (require valid auth_invalid) _ λ _ holds.
                  let (named, active) = load_active_device-eq-ok devices auth.device_id loaded in
                  record {
                    timestamp = t;
                    stated = stated;
                    recent = recent;
                    early = early;
                    named = named;
                    active = active;
                    signed =
                        subst (λ m. HasSigned d.public_key m auth.signature)
                          (request_proof_message-eq-ok auth.device_id t auth.nonce call.method
                            call.target spelled)
                          (verify_ed25519-HasSigned d.public_key message auth.signature checked
                            (require-eq-ok valid auth_invalid holds));
                  }

  check_request-RequestSigned :
      (devices : List Device) (auth : Authorization) (call : Call)
      → Returns (λ out. RequestSigned auth call out.0) (check_request crypto devices auth call)
  unfolding check_request
  check_request-RequestSigned devices auth call =
      Returns->>= _ (fresh_timestamp crypto auth.timestamp call.now) _ λ t fresh.
        let (stated, recent, early) = fresh_timestamp-eq-ok auth.timestamp call.now fresh in
        Returns->>= _ (check_signed crypto devices auth call t) _ λ d signed.
          Returns-ok (RequestSigned auth call) _
            (check_signed-RequestSigned devices auth call t stated recent early) signed

  pub verify_request-RequestSigned :
      (devices : List Device) (auth : Authorization) (call : Call) (cache : Cache)
      → Returns (RequestSigned auth call) (verify_request crypto devices auth call cache).1
  unfolding verify_request
  verify_request-RequestSigned devices auth call cache =
      elim (Result-cases (check_request crypto devices auth call)) [
        | inl (e, failed) ↦ rw (failed, Returns) tt
        | inr ((d, t), checked) ↦
            let p =
              Returns-ok (λ out. RequestSigned auth call out.0) _
                (check_request-RequestSigned devices auth call) checked in
            elim (Bool-cases
              (has (replay_key auth.device_id auth.nonce) (clean_replay_cache call.now cache))) [
                | inl again ↦ rw (checked, again, Returns) tt
                | inr new ↦ rw (checked, new, Returns) p
              ]
      ]
