-- ===== src/Sessions/Logins.antt =====
-- What a login needs.
use labaiacinghiala.Common.{
  ==_iff, ℕ, true, not, Option, none, some, ◌≡◌, refl, inl, inr, arith, Text, text_eq_iff, is_empty,
  Bool-cases, Option-cases, ok, require, >>=-eq-ok, sym, ap, ◌∙◌, subst,
}
use labaiacinghiala.Store.{Account, Db, is_null}
use labaiacinghiala.Accounts.Rows.{Unicode, find_account}
use labaiacinghiala.Sessions.{Passwords, SignedIn, device_required}
use labaiacinghiala.Sessions.Credentials.{
  filled_hash, or_dummy, find_login_account, hash_of, candidate_hash, same_hash, is_usable,
  usable_account, authenticate_account_credentials,
}

-- A login as an account: the name finds it, its hash fits the password, and after the wait it has the
-- same hash and version and is neither deleted nor disabled.
pub record Earned (unicode : Unicode) (passwords : Passwords) (username password : Text)
    (before db : Db) : Type 0 where
  pub seen : Account
  pub current : Account
  pub hash : Text
  pub found : find_login_account unicode username before ≡ some seen
  pub verified : passwords.verify password hash ≡ true
  pub stored : find_account true db seen.id ≡ some current
  pub current_hash : hash_of (some current) ≡ some hash
  pub enabled : is_null current.disabled_at ≡ true
  pub present : is_null current.deleted_at ≡ true
  pub version : current.auth_version ≡ seen.auth_version

same-filled :
    (x y : Option Text)
    → same_hash (filled_hash x) y ≡ true
    → (h : Text) × (filled_hash x ≡ some h) × (filled_hash y ≡ some h)
unfolding same_hash
same-filled none y e = cc
same-filled (some h) none e = ground arith
same-filled (some h) (some k) e = elim (Bool-cases (is_empty h)) [
  | inl no_hash ↦ absurd (cc (rw no_hash at e))
  | inr filled ↦
      let same : h ≡ k = (text_eq_iff h k).0 (rw filled at e) in
      (h, rw filled refl, subst (λ (j : Text). filled_hash (some j) ≡ some h) same (rw filled refl))
]

usable-Earned :
    (unicode : Unicode) (passwords : Passwords) (username password : Text) (before db : Db)
    (seen current : Account)
    → find_login_account unicode username before ≡ some seen
    → find_account true db seen.id ≡ some current
    → passwords.verify password (candidate_hash passwords (some seen)) ≡ true
    → is_usable seen (some current) ≡ true
    → Earned unicode passwords username password before db
unfolding is_usable candidate_hash
usable-Earned unicode passwords username password before db seen current found stored verified
      usable =
    let (h, now_hash, then_hash) =
      same-filled current.password_hash seen.password_hash (ground arith) in
    record {
      seen = seen;
      current = current;
      hash = h;
      found = found;
      verified =
          ap (λ (o : Option Text). passwords.verify password (or_dummy passwords.dummy_hash o))
            (sym then_hash)
          ∙ verified;
      stored = stored;
      current_hash = now_hash;
      enabled = ground arith;
      present = ground arith;
      version = (==_iff current.auth_version seen.auth_version).0 (ground arith);
    }

checked-Earned :
    (unicode : Unicode) (passwords : Passwords) (username password : Text) (before db : Db)
    (o : Option Account) {a : Account}
    → find_login_account unicode username before ≡ o
    → usable_account o db (passwords.verify password (candidate_hash passwords o)) ≡ ok a
    → Earned unicode passwords username password before db
unfolding usable_account is_usable
checked-Earned unicode passwords username password before db none e h = cc
checked-Earned unicode passwords username password before db (some seen) e h =
    elim (Bool-cases (passwords.verify password (candidate_hash passwords (some seen)))) [
      | inr wrong ↦ absurd (cc (rw wrong at h))
      | inl right ↦ elim (Option-cases (find_account true db seen.id)) [
        | inl missing ↦ absurd (cc (rw (right, missing) at h))
        | inr (current, stored) ↦ elim (Bool-cases (is_usable seen (some current))) [
          | inr lost ↦ absurd (cc (rw (right, stored, lost) at h))
          | inl usable ↦
              usable-Earned unicode passwords username password before db seen current e stored
                right usable
        ]
      ]
    ]

-- A login that succeeds has named an account whose hash fits the password, and which after the wait
-- for the hash still has that hash and that version and is neither deleted nor disabled.
pub authenticate_account_credentials-Earned :
    (unicode : Unicode) (passwords : Passwords) (device_id username password : Text) (now : ℕ)
    (before db : Db) {out : Db × SignedIn}
    → authenticate_account_credentials unicode passwords device_id username password now before db
      ≡ ok out
    → Earned unicode passwords username password before db
unfolding authenticate_account_credentials
authenticate_account_credentials-Earned unicode passwords device_id username password now before db
      h =
    let (_, _, h1) = >>=-eq-ok (require (not (is_empty device_id)) device_required) _ h in
    let (a, checked, _) =
      >>=-eq-ok
        (usable_account (find_login_account unicode username before) db (
          passwords.verify password
            (candidate_hash passwords (find_login_account unicode username before))))
        _ h1 in
    checked-Earned unicode passwords username password before db
      (find_login_account unicode username before) {a = a} refl checked
