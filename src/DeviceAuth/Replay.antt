-- ===== src/DeviceAuth/Replay.antt =====
-- A proof that was accepted is not accepted again.
use labaiacinghiala.Common.{
  ℕ, ◌+◌, ◌≤◌, true, false, Option, none, some, List, [], ◌∷◌, ◌≡◌, ◌≢◌, subst, Result-cases, inl,
  inr, arith, Text, text_eq, text_eq_iff, text_eq_refl, if◌then◌else◌, Bool-cases, ok, >>=-eq-ok,
  JsNumber, not_finite, negative, amount,
}
use labaiacinghiala.Store.{Device}
use labaiacinghiala.DeviceAuth.{
  Crypto, Authorization, Call, Cache, clock_skew, replay_key, has, put, clean_replay_cache,
  fresh_timestamp, check_signed, check_request, verify_request,
}

-- The time of expiry that the cache holds for a key.
get : Text → Cache → Option ℕ
get key [] = none
get key ((k, e) ∷ cache) = if text_eq k key then some e else get key cache

has-get : (key : Text) (cache : Cache) (e : ℕ) → get key cache ≡ some e → has key cache ≡ true
unfolding get
has-get key [] e h = cc
has-get key ((k, f) ∷ cache) e h = ground (arith, has-get key cache e)

get-clean :
    (key : Text) (now : ℕ) (cache : Cache) (e : ℕ)
    → get key cache ≡ some e
    → now ≤ e
    → get key (clean_replay_cache now cache) ≡ some e
unfolding get clean_replay_cache
get-clean key now [] e h before = cc
get-clean key now ((k, f) ∷ cache) e h before = ground (arith, get-clean key now cache e)

get-put_ne :
    (key k : Text) (f : ℕ) (cache : Cache) (e : ℕ)
    → k ≢ key
    → get key cache ≡ some e
    → get key (put k f cache) ≡ some e
unfolding get
get-put_ne key k f [] e ne h = cc
get-put_ne key k f ((j, g) ∷ cache) e ne h =
    ground
      (arith, text_eq_iff j k, text_eq_iff j key, text_eq_iff k key, get-put_ne key k f cache e)

get-put_self : (key : Text) (e : ℕ) (cache : Cache) → get key (put key e cache) ≡ some e
unfolding get
get-put_self key e [] = ground (arith, text_eq_refl key)
get-put_self key e ((j, g) ∷ cache) = ground (arith, text_eq_refl key, get-put_self key e cache)

fresh_timestamp-near :
    (crypto : Crypto) (stamp : JsNumber) (now : ℕ) {t : ℕ}
    → fresh_timestamp crypto stamp now ≡ ok t
    → (stamp ≡ amount t) × (now ≤ t + clock_skew)
unfolding fresh_timestamp
fresh_timestamp-near crypto not_finite now h = cc
fresh_timestamp-near crypto (negative n) now h = absurd (ground arith)
fresh_timestamp-near crypto (amount s) now h = ground arith

module _ (crypto : Crypto) where
  -- A request passes the checks only within the clock skew after its timestamp.
  check_request-near :
      (devices : List Device) (auth : Authorization) (call : Call) {d : Device} {t : ℕ}
      → check_request crypto devices auth call ≡ ok (d, t)
      → (auth.timestamp ≡ amount t) × (call.now ≤ t + clock_skew)
  unfolding check_request
  check_request-near devices auth call h =
      let (t, fresh, rest) = >>=-eq-ok (fresh_timestamp crypto auth.timestamp call.now) _ h in
      let (d, signed, last) = >>=-eq-ok (check_signed crypto devices auth call t) _ rest in
      ground (arith, fresh_timestamp-near crypto auth.timestamp call.now fresh)

  abbrev key_of : Authorization → Text
  key_of auth = replay_key auth.device_id auth.nonce

  -- A later request keeps an entry of the cache that has not expired.
  verify_request-keeps :
      (devices : List Device) (auth : Authorization) (call : Call) (cache : Cache) (key : Text)
      (e : ℕ)
      → get key cache ≡ some e
      → call.now ≤ e
      → get key (verify_request crypto devices auth call cache).0 ≡ some e
  unfolding verify_request
  verify_request-keeps devices auth call cache key e h before =
      elim (Result-cases (check_request crypto devices auth call)) [
        | inl (f, c) ↦ rw (c, verify_request) h
        | inr ((d, t), c) ↦
            let cleaned = clean_replay_cache call.now cache in
            let kept = get-clean key call.now cache e h before in
            elim (Bool-cases (has (key_of auth) cleaned)) [
              | inl old ↦ rw (c, old, verify_request) kept
              | inr new ↦
                  let ne : key_of auth ≢ key = λ same.
                    cc (subst (λ k. has k cleaned ≡ false) same new, has-get key cleaned e kept) in
                  rw (c, new, verify_request)
                    (get-put_ne key (key_of auth) (t + clock_skew) cleaned e ne kept)
            ]
      ]

  -- The requests that the server handles, one after the other.
  pub serve : List (List Device × Authorization × Call) → Cache → Cache
  serve [] cache = cache
  serve ((devices, auth, call) ∷ rest) cache =
      serve rest (verify_request crypto devices auth call cache).0

  -- Every one of them arrives by the time `last`.
  abbrev pub UpTo : ℕ → List (List Device × Authorization × Call) → Type 0
  UpTo last [] = Unit
  UpTo last ((devices, auth, call) ∷ rest) = (call.now ≤ last) × UpTo last rest

  serve-keeps :
      (requests : List (List Device × Authorization × Call)) (cache : Cache) (key : Text)
      (e last : ℕ)
      → UpTo last requests
      → last ≤ e
      → get key cache ≡ some e
      → get key (serve requests cache) ≡ some e
  unfolding serve
  serve-keeps [] cache key e last u h g = g
  serve-keeps ((devices, auth, call) ∷ rest) cache key e last (now, u) h g =
      serve-keeps rest _ key e last u h
        (verify_request-keeps devices auth call cache key e g (omega arith))

  -- What an accepted request leaves in the cache.
  accepted-get :
      (devices : List Device) (auth : Authorization) (call : Call) (cache : Cache) {d : Device}
      → (verify_request crypto devices auth call cache).1 ≡ ok d
      → (t : ℕ) × (auth.timestamp ≡ amount t)
        × (get (key_of auth) (verify_request crypto devices auth call cache).0
            ≡ some (t + clock_skew))
  unfolding verify_request
  accepted-get devices auth call cache h =
      elim (Result-cases (check_request crypto devices auth call)) [
        | inl (f, c) ↦ absurd (cc (rw (c, verify_request) at h))
        | inr ((d, t), c) ↦
            elim (Bool-cases (has (key_of auth) (clean_replay_cache call.now cache))) [
              | inl old ↦ absurd (cc (rw (c, old, verify_request) at h))
              | inr new ↦ (
                t,
                (check_request-near devices auth call c).0,
                rw (c, new, verify_request) (get-put_self (key_of auth) (t + clock_skew) _),
              )
            ]
      ]

  rejected :
      (devices : List Device) (auth : Authorization) (call : Call) (cache : Cache) (t : ℕ)
      {d : Device}
      → auth.timestamp ≡ amount t
      → get (key_of auth) cache ≡ some (t + clock_skew)
      → (verify_request crypto devices auth call cache).1 ≢ ok d
  unfolding verify_request
  rejected devices auth call cache t stamp g h =
      elim (Result-cases (check_request crypto devices auth call)) [
        | inl (f, c) ↦ cc (rw (c, verify_request) at h)
        | inr ((d, s), c) ↦
            let (stamp', near) = check_request-near devices auth call c in
            let same : s ≡ t = cc in
            let kept = get-clean (key_of auth) call.now cache (t + clock_skew) g (omega arith) in
            let old =
              has-get (key_of auth) (clean_replay_cache call.now cache) (t + clock_skew) kept in
            cc (rw (c, old, verify_request) at h)
      ]

  accepted-near :
      (devices : List Device) (auth : Authorization) (call : Call) (cache : Cache) (t : ℕ)
      {d : Device}
      → auth.timestamp ≡ amount t
      → (verify_request crypto devices auth call cache).1 ≡ ok d
      → call.now ≤ t + clock_skew
  unfolding verify_request
  accepted-near devices auth call cache t stamp h =
      elim (Result-cases (check_request crypto devices auth call)) [
        | inl (f, c) ↦ absurd (cc (rw (c, verify_request) at h))
        | inr ((d, s), c) ↦
            let (stamp', near) = check_request-near devices auth call c in
            let same : s ≡ t = cc in omega arith
      ]

  -- A proof that the server has accepted is not accepted again, for any method, target and devices,
  -- whatever requests come between, as long as none of them comes later than the repeated one.
  pub no_replay :
      (devices later_devices : List Device) (auth : Authorization) (call later : Call)
      (cache : Cache) (between : List (List Device × Authorization × Call)) {d e : Device}
      → (verify_request crypto devices auth call cache).1 ≡ ok d
      → UpTo later.now between
      → (verify_request crypto later_devices auth later
          (serve between (verify_request crypto devices auth call cache).0)).1
        ≢ ok e
  no_replay devices later_devices auth call later cache between h u again =
      let (t, stamp, held) = accepted-get devices auth call cache h in
      let after = serve between (verify_request crypto devices auth call cache).0 in
      let near = accepted-near later_devices auth later after t stamp again in
      rejected later_devices auth later after t stamp
        (serve-keeps between _ (key_of auth) (t + clock_skew) later.now u near held) again
