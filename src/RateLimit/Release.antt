-- ===== src/RateLimit/Release.antt =====
-- A device that is blocked is let in again: nothing but the failures recorded for it keeps it out,
-- however the logins go on side by side.
use labaiacinghiala.Common.{
  ℕ, ◌+◌, ◌≤◌, Bool, true, not, ◌||◌, Option, none, some, some-inj, List, [], ◌∷◌, ◌≡◌, refl, inl,
  inr, arith, Text, text_eq, text_eq_iff, map_get, map_set, map_delete, all, keep_values, leb,
  leb_iff, subst, Bool-cases, Option-cases, ok,
}
use labaiacinghiala.RateLimit.{
  Limits, Entry, Entries, is_relevant, clean, check_entry, assert_allowed, current_entry,
  failed_once, record_failure, record_success,
}

-- What the login route does with the limiter. Logins go on side by side, so the calls of one stand
-- in any order among those of others: several may be let in before the failure of one is recorded.
pub data LimiterCall : Type 0 where
  asks : Text → ℕ → LimiterCall
  fails : Text → ℕ → LimiterCall
  succeeds : Text → LimiterCall

pub call : Limits → LimiterCall → Entries → Entries
call limits (asks key now) entries = (assert_allowed limits key now entries).0
call limits (fails key now) entries = record_failure limits key now entries
call limits (succeeds key) entries = record_success key entries

pub calls : Limits → List LimiterCall → Entries → Entries
calls limits [] entries = entries
calls limits (c ∷ rest) entries = calls limits rest (call limits c entries)

-- The failures recorded for a device are not later than that.
unfoldable pub By : Text → ℕ → List LimiterCall → Type 0
By key last [] = Unit
By key last (fails k now ∷ rest) = (text_eq k key ≡ true → now ≤ last) × By key last rest
By key last (asks k now ∷ rest) = By key last rest
By key last (succeeds k ∷ rest) = By key last rest

module _ (limits : Limits) (key : Text) (last : ℕ) where
  -- The key is not blocked for longer than the block after the last failure recorded for it.
  is_released : Text × Entry → Bool
  is_released (k, e) = not (text_eq k key) || leb e.blocked_until (last + limits.block_ms)

  kept_released :
      (p : Entry → Bool) (entries : Entries)
      → all is_released entries ≡ true
      → all is_released (keep_values p entries) ≡ true
  kept_released p [] h = refl
  kept_released p (entry ∷ entries) h = ground (arith, kept_released p entries)

  set_released :
      (k : Text) (e : Entry) (entries : Entries)
      → all is_released entries ≡ true
      → is_released (k, e) ≡ true
      → all is_released (map_set k e entries) ≡ true
  unfolding map_set
  set_released k e [] h r = rw r refl
  set_released k e ((j, d) ∷ entries) h r = ground (arith, set_released k e entries)

  found_released :
      (entries : Entries) {e : Entry}
      → all is_released entries ≡ true
      → map_get key entries ≡ some e
      → e.blocked_until ≤ last + limits.block_ms
  unfolding map_get is_released
  found_released [] h f = cc
  found_released ((k, d) ∷ entries) {e} h f = elim (Bool-cases (text_eq k key)) [
    | inl is ↦
        subst (λ (x : Entry). x.blocked_until ≤ last + limits.block_ms) (some-inj (rw is at f))
          (ground (arith, h, is))
    | inr other ↦ found_released entries {e = e} (ground (arith, h)) (rw other at f)
  ]

  failed_released :
      (now : ℕ) (o : Option Entry)
      → now ≤ last
      → ((e : Entry) → o ≡ some e → e.blocked_until ≤ last + limits.block_ms)
      → (failed_once limits now (current_entry limits now o)).blocked_until ≤ last + limits.block_ms
  unfolding failed_once current_entry
  failed_released now none early h = ground arith
  failed_released now (some e) early h = ground (arith, h e refl)

  deleted_released :
      (k : Text) (entries : Entries)
      → all is_released entries ≡ true
      → all is_released (map_delete k entries) ≡ true
  unfolding map_delete
  deleted_released k [] h = refl
  deleted_released k ((j, d) ∷ entries) h = ground (arith, deleted_released k entries)

  failure_released :
      (k : Text) (now : ℕ) (entries : Entries)
      → (text_eq k key ≡ true → now ≤ last)
      → all is_released entries ≡ true
      → all is_released (record_failure limits k now entries) ≡ true
  unfolding record_failure is_released
  failure_released k now entries early h =
      set_released k _ entries h (elim (Bool-cases (text_eq k key)) [
        | inr other ↦ rw other refl
        | inl is ↦
            let same = (text_eq_iff k key).0 is in
            let bound = failed_released now (map_get k entries) (early is) (λ e f.
              found_released entries {e = e} h (subst (λ i. map_get i entries ≡ some e) same f)) in
            rw is ((leb_iff _ _).1 bound)
      ])

  calls_released :
      (made : List LimiterCall) (entries : Entries)
      → By key last made
      → all is_released entries ≡ true
      → all is_released (calls limits made entries) ≡ true
  unfolding calls call By assert_allowed clean record_success
  calls_released [] entries by h = h
  calls_released (asks k now ∷ rest) entries by h =
      calls_released rest _ by (kept_released (is_relevant limits now) entries h)
  calls_released (fails k now ∷ rest) entries (early, by) h =
      calls_released rest _ by (failure_released k now entries early h)
  calls_released (succeeds k ∷ rest) entries by h =
      calls_released rest _ by (deleted_released k entries h)

-- A device is let in once the block has gone by after the last failure recorded for it, whatever
-- calls of the limiter were made since the server started, by logins of any devices and in any
-- order.
pub calls-assert_allowed :
    (limits : Limits) (key : Text) (made : List LimiterCall) (last now : ℕ)
    → By key last made
    → last + limits.block_ms ≤ now
    → (assert_allowed limits key now (calls limits made [])).1 ≡ ok tt
unfolding assert_allowed check_entry clean
calls-assert_allowed limits key made last now by late =
    let entries = calls limits made [] in
    let cleaned =
      kept_released limits key last (is_relevant limits now) entries
        (calls_released limits key last made [] by refl) in
    elim (Option-cases (map_get key (clean limits now entries))) [
      | inl gone ↦ rw gone refl
      | inr (e, found) ↦
          let free =
            found_released limits key last (clean limits now entries) {e = e} cleaned found in
          let over : leb e.blocked_until now ≡ true =
            (leb_iff e.blocked_until now).1 (omega (arith, free, late)) in
          rw (found, over) refl
    ]
