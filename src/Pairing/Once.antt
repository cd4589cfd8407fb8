-- ===== src/Pairing/Once.antt =====
-- An invite that was used or revoked pairs no device again.
use labaiacinghiala.Common.{
  ℕ, Bool, true, false, not, ◌&&◌, Option, none, some, List, [], ◌∷◌, ◌≡◌, ◌≢◌, refl, inl, inr,
  arith, Text, find, find-holds, find-update_rows, update_rows, count_rows, ◌==◌, Bool-cases, ok,
  >>=-eq-ok, ap, ◌∙◌, Returns, Returns->>=, Returns-if, Returns-ok, any, find-only, ◌≤◌,
}
use labaiacinghiala.Store.{Device, Invite, Db, is_null}
use labaiacinghiala.Pairing.Tokens.{
  PairingCrypto, Payload, parse_invite_token, verify_device_proof, is_uuid_value,
}
use labaiacinghiala.Pairing.{
  has_invite_id, has_public_key, is_claimable, set_used, set_revoked, is_open, check_invite,
  load_and_validate_invite, claim_invite, put_device, redeem_checked, redeem_pairing_invite,
  revoke_pairing_invite,
}
use labaiacinghiala.Pairing.Actions.{Action, clock, step, run}
use labaiacinghiala.Pairing.Lifecycle.{Follows, stays, is_used, is_revoked, step-Lives}

abbrev is_spent : Invite → Bool
is_spent i = not (is_null i.used_at && is_null i.revoked_at)

-- The invite stands and was used or revoked.
pub record Spent (id : Text) (db : Db) : Type 0 where
  pub row : Invite
  pub found : find (has_invite_id id) db.invites ≡ some row
  pub spent : is_spent row ≡ true

Follows-Spent : (now : ℕ) (i j : Invite) → Follows now i j → is_spent i ≡ true → is_spent j ≡ true
unfolding set_used set_revoked
Follows-Spent now i _ stays h = h
Follows-Spent now i _ (is_used u r live) h = refl
Follows-Spent now i _ (is_revoked u r live) h = ground arith

step-Spent :
    (crypto : PairingCrypto) (a : Action) (id : Text) (db : Db)
    → Spent id db
    → Spent id (step crypto db a)
step-Spent crypto a id db s =
    let lives = step-Lives crypto a id s.row db s.found in
    record {
      row = lives.row;
      found = lives.found;
      spent = Follows-Spent (clock a) s.row lives.row lives.follows s.spent;
    }

run-Spent :
    (crypto : PairingCrypto) (actions : List Action) (id : Text) (db : Db)
    → Spent id db
    → Spent id (run crypto db actions)
unfolding run
run-Spent crypto [] id db s = s
run-Spent crypto (a ∷ rest) id db s =
    run-Spent crypto rest id (step crypto db a) (step-Spent crypto a id db s)

-- What is known of an invite whose secret was accepted.
record Accepted (id : Text) (now : ℕ) (db : Db) : Type 0 where
  row : Invite
  found : find (has_invite_id id) db.invites ≡ some row
  open_row : is_open now row ≡ true

check-open :
    (crypto : PairingCrypto) (secret : List ℕ) (now : ℕ) (o : Option Invite) {u : Unit {0}}
    → check_invite crypto secret now o ≡ ok u
    → (i : Invite) × (o ≡ some i) × (is_open now i ≡ true)
unfolding check_invite
check-open crypto secret now none h = cc
check-open crypto secret now (some i) h = (i, refl, ground arith)

load-Accepted :
    (crypto : PairingCrypto) (id : Text) (secret : List ℕ) (now : ℕ) (db : Db) {u : Unit {0}}
    → load_and_validate_invite crypto id secret now db ≡ ok u
    → Accepted id now db
unfolding load_and_validate_invite
load-Accepted crypto id secret now db h =
    let (i, e, o) = check-open crypto secret now (find (has_invite_id id) db.invites) h in
    record { row = i; found = e; open_row = o }

open-claimable :
    (id : Text) (now : ℕ) (i : Invite)
    → has_invite_id id i ≡ true
    → is_open now i ≡ true
    → is_claimable id now i ≡ true
unfolding is_open is_claimable
open-claimable id now i is o = ground arith

claimable-open :
    (id : Text) (now : ℕ) (i : Invite) → is_claimable id now i ≡ true → has_invite_id id i ≡ true
unfolding is_claimable
claimable-open id now i h = ground arith

spent-closed : (now : ℕ) (i : Invite) → is_spent i ≡ true → is_open now i ≡ false
unfolding is_open
spent-closed now i h = ground arith

-- An UPDATE of the claimable row that is found.
change-Spent :
    (id : Text) (now : ℕ) (change : Invite → Invite) (db : Db) (devices : List Device) (i : Invite)
    → ((a : Invite) → has_invite_id id (change a) ≡ has_invite_id id a)
    → find (has_invite_id id) db.invites ≡ some i
    → is_claimable id now i ≡ true
    → is_spent (change i) ≡ true
    → Spent id (record db {
      devices = devices;
      invites = update_rows (is_claimable id now) change db.invites;
    })
change-Spent id now change db devices i same found claims spent = record {
  row = change i;
  found =
      find-update_rows (has_invite_id id) (is_claimable id now) change same db.invites i found
      ∙ rw claims refl;
  spent = spent;
}

claim-Spent :
    (id : Text) (now : ℕ) (db : Db) (w : List Device × Text)
    → Accepted id now db
    → Returns (λ (out : Db × Text). Spent id out.0) (claim_invite id now db w)
unfolding claim_invite has_invite_id set_used
claim-Spent id now db w a =
    Returns-if _ (count_rows (is_claimable id now) db.invites == 1) _ _
      (change-Spent id now (set_used now) db w.0 a.row (λ b. refl) a.found
        (open-claimable id now a.row (find-holds (has_invite_id id) db.invites a.found) a.open_row)
        refl)
      tt

redeem_checked-Spent :
    (crypto : PairingCrypto) (id : Text) (secret : List ℕ) (now : ℕ) (paired : Device) (db : Db)
    → Returns (λ (out : Db × Text). Spent id out.0) (redeem_checked crypto id secret now paired db)
unfolding redeem_checked
redeem_checked-Spent crypto id secret now paired db =
    Returns->>= _ (load_and_validate_invite crypto id secret now db) _ λ _ loaded.
      Returns->>= _
        (put_device paired db.devices (find (has_public_key paired.public_key) db.devices)) _
        λ w _. claim-Spent id now db w (load-Accepted crypto id secret now db loaded)

-- The redemption of an invite spends it.
redeem-Spent :
    (crypto : PairingCrypto) (payload : Payload) (new_id : Text) (now : ℕ) (db : Db) (id : Text)
    (secret : List ℕ)
    → parse_invite_token crypto payload.invite_token ≡ ok (id, secret)
    → Returns
        (λ (out : Db × Text). Spent id out.0)
        (redeem_pairing_invite crypto payload new_id now db)
unfolding redeem_pairing_invite
redeem-Spent crypto payload new_id now db id secret parsed =
    rw (parsed, redeem_pairing_invite)
      (Returns->>= _ (verify_device_proof crypto payload) _
        λ proof _. redeem_checked-Spent crypto id secret now _ db)

revoked_spent : (now : ℕ) (i : Invite) → is_spent (set_revoked now i) ≡ true
unfolding set_revoked
revoked_spent now i = ground arith

-- So does its revocation, where the primary key keeps the id from standing twice.
revoke-Spent :
    (id : Text) (now : ℕ) (db : Db)
    → count_rows (has_invite_id id) db.invites ≤ 1
    → Returns (Spent id) (revoke_pairing_invite (some id) now db)
unfolding revoke_pairing_invite has_invite_id set_revoked
revoke-Spent id now db unique =
    Returns-if _ (not (is_uuid_value (some id))) _ _ tt
      (elim (Bool-cases (count_rows (is_claimable id now) db.invites == 1)) [
        | inl once ↦
            let (i, found, claims) =
              find-only (is_claimable id now) (has_invite_id id) (claimable-open id now) db.invites
                (ground (arith, once)) unique in
            rw once (
              change-Spent id now (set_revoked now) db db.devices i (λ b. refl) found claims
                (revoked_spent now i))
        | inr other ↦ rw other (Returns-if (Spent id) (any (has_invite_id id) db.invites) _ _ tt tt)
      ])

Spent-refused :
    (crypto : PairingCrypto) (id : Text) (secret : List ℕ) (now : ℕ) (db : Db) {u : Unit {0}}
    → Spent id db
    → load_and_validate_invite crypto id secret now db ≢ ok u
Spent-refused crypto id secret now db s h =
    let a = load-Accepted crypto id secret now db h in
    let same : a.row ≡ s.row = cc in
    cc (ap (is_open now) same, a.open_row, spent-closed now s.row s.spent)

-- No redemption of a spent invite succeeds.
Spent-redeem :
    (crypto : PairingCrypto) (payload : Payload) (new_id : Text) (now : ℕ) (db : Db) (id : Text)
    (secret : List ℕ) {out : Db × Text}
    → parse_invite_token crypto payload.invite_token ≡ ok (id, secret)
    → Spent id db
    → redeem_pairing_invite crypto payload new_id now db ≢ ok out
unfolding redeem_pairing_invite redeem_checked
Spent-redeem crypto payload new_id now db id secret parsed s h =
    let (proof, _, checked) = >>=-eq-ok (verify_device_proof crypto payload) _ (rw parsed at h) in
    let (_, loaded, _) = >>=-eq-ok (load_and_validate_invite crypto id secret now db) _ checked in
    Spent-refused crypto id secret now db s loaded

-- An invite that was redeemed cannot be redeemed again, with whatever payload names it, after
-- whatever calls of the service.
pub redeem_once :
    (crypto : PairingCrypto) (payload again : Payload) (new_id again_id : Text) (now later : ℕ)
    (db db2 : Db) (device : Text) (actions : List Action) (id : Text) (secret other : List ℕ)
    {out : Db × Text}
    → parse_invite_token crypto payload.invite_token ≡ ok (id, secret)
    → redeem_pairing_invite crypto payload new_id now db ≡ ok (db2, device)
    → parse_invite_token crypto again.invite_token ≡ ok (id, other)
    → redeem_pairing_invite crypto again again_id later (run crypto db2 actions) ≢ ok out
redeem_once crypto payload again new_id again_id now later db db2 device actions id secret other
      parsed h parsed2 =
    Spent-redeem crypto again again_id later (run crypto db2 actions) id other parsed2 (
      run-Spent crypto actions id db2 (
        Returns-ok (λ (out : Db × Text). Spent id out.0)
          (redeem_pairing_invite crypto payload new_id now db)
          (redeem-Spent crypto payload new_id now db id secret parsed) h))

-- An invite that was revoked, in a table whose ids are unique, cannot be redeemed afterwards.
pub revoke_final :
    (crypto : PairingCrypto) (payload : Payload) (new_id : Text) (now later : ℕ) (db db2 : Db)
    (actions : List Action) (id : Text) (secret : List ℕ) {out : Db × Text}
    → count_rows (has_invite_id id) db.invites ≤ 1
    → revoke_pairing_invite (some id) now db ≡ ok db2
    → parse_invite_token crypto payload.invite_token ≡ ok (id, secret)
    → redeem_pairing_invite crypto payload new_id later (run crypto db2 actions) ≢ ok out
revoke_final crypto payload new_id now later db db2 actions id secret unique h parsed =
    Spent-redeem crypto payload new_id later (run crypto db2 actions) id secret parsed (
      run-Spent crypto actions id db2 (
        Returns-ok (Spent id) (revoke_pairing_invite (some id) now db)
          (revoke-Spent id now db unique) h))
