-- ===== src/Pairing/Lifecycle.antt =====
-- The life of an invite: it is open until it is used or revoked, once and for all, and it is used or
-- revoked only before it expires.
use labaiacinghiala.Common.{
  ℕ, ◌<◌, true, not, Option, none, some, List, ◌≡◌, refl, inl, inr, arith, Text, any, find,
  find-append, find-update_rows, count_rows, ◌==◌, if◌then◌else◌, Bool-cases, require, Returns,
  Returns->>=, Returns-if, JsNumber,
}
use labaiacinghiala.Store.{Device, Invite, Db, is_null-eq}
use labaiacinghiala.Pairing.Tokens.{
  PairingCrypto, Payload, parse_invite_token, verify_device_proof, is_uuid_value,
}
use labaiacinghiala.Pairing.{
  is_active_device, has_invite_id, is_claimable, set_used, set_revoked, invite_minutes,
  create_pairing_invite, load_and_validate_invite, claim_invite, put_device, redeem_checked,
  redeem_pairing_invite, revoke_pairing_invite, revoke_paired_device, has_public_key,
}
use labaiacinghiala.Pairing.Actions.{
  Action, invites, redeems, revokes_invite, revokes_device, clock, step, written-keeps, made-keeps,
}

-- How the row of an invite may change in one call at a time: not at all, or, while it is open and
-- not expired, by its use or its revocation. No other column changes.
pub data Follows (now : ℕ) (i : Invite) : Invite → Type 0 where
  stays : Follows now i i
  is_used :
      i.used_at ≡ none → i.revoked_at ≡ none → now < i.expires_at → Follows now i (set_used now i)
  is_revoked :
      i.used_at ≡ none
      → i.revoked_at ≡ none
      → now < i.expires_at
      → Follows now i (set_revoked now i)

-- The row of the invite stands and has followed `i`.
pub record Lives (id : Text) (now : ℕ) (i : Invite) (db : Db) : Type 0 where
  pub row : Invite
  pub found : find (has_invite_id id) db.invites ≡ some row
  pub follows : Follows now i row

claimable_open :
    (k : Text) (now : ℕ) (i : Invite)
    → is_claimable k now i ≡ true
    → (i.used_at ≡ none) × (i.revoked_at ≡ none) × (now < i.expires_at)
unfolding is_claimable
claimable_open k now i h =
    (is_null-eq i.used_at (ground arith), is_null-eq i.revoked_at (ground arith), ground arith)

module _ (id : Text) (now : ℕ) (i : Invite) where
  used-Follows : (k : Text) → Follows now i (if is_claimable k now i then set_used now i else i)
  used-Follows k = elim (Bool-cases (is_claimable k now i)) [
    | inl claims ↦ let (u, r, live) = claimable_open k now i claims in rw claims (is_used u r live)
    | inr other ↦ rw other stays
  ]

  revoked-Follows :
      (k : Text) → Follows now i (if is_claimable k now i then set_revoked now i else i)
  revoked-Follows k = elim (Bool-cases (is_claimable k now i)) [
    | inl claims ↦
        let (u, r, live) = claimable_open k now i claims in rw claims (is_revoked u r live)
    | inr other ↦ rw other stays
  ]

  module _ (db : Db) (found : find (has_invite_id id) db.invites ≡ some i) where
    same-Lives : Lives id now i db
    same-Lives = record { row = i; found = found; follows = stays }

    claim-Lives :
        (k : Text) (w : List Device × Text)
        → Returns (λ (out : Db × Text). Lives id now i out.0) (claim_invite k now db w)
    unfolding claim_invite has_invite_id set_used
    claim-Lives k w =
        Returns-if _ (count_rows (is_claimable k now) db.invites == 1) _ _
          (record {
            row = if is_claimable k now i then set_used now i else i;
            found =
                find-update_rows (has_invite_id id) (is_claimable k now) (set_used now) (λ a. refl)
                  db.invites i found;
            follows = used-Follows k;
          })
          tt

    redeem-Lives :
        (crypto : PairingCrypto) (payload : Payload) (new_id : Text)
        → Returns
            (λ (out : Db × Text). Lives id now i out.0)
            (redeem_pairing_invite crypto payload new_id now db)
    unfolding redeem_pairing_invite redeem_checked
    redeem-Lives crypto payload new_id =
        Returns->>= _ (parse_invite_token crypto payload.invite_token) _ λ invite _.
          Returns->>= _ (verify_device_proof crypto payload) _ λ proof _.
            Returns->>= _ (load_and_validate_invite crypto invite.0 invite.1 now db) _ λ _ _.
              Returns->>= _ (put_device _ db.devices (find (has_public_key _) db.devices)) _
                λ w _. claim-Lives invite.0 w

    create-Lives :
        (crypto : PairingCrypto) (ttl : JsNumber) (new : Text) (secret : List ℕ)
        → Returns
            (λ (out : Db × Text). Lives id now i out.0)
            (create_pairing_invite crypto ttl new secret now db)
    unfolding create_pairing_invite
    create-Lives crypto ttl new secret = Returns->>= _ (invite_minutes ttl) _ λ minutes _.
        Returns->>= _ (require (not (any (has_invite_id new) db.invites)) _) _ λ _ _. record {
          row = i;
          found = find-append (has_invite_id id) db.invites _ found;
          follows = stays;
        }

    revoke-Lives : (k : Option Text) → Returns (Lives id now i) (revoke_pairing_invite k now db)
    unfolding revoke_pairing_invite has_invite_id set_revoked
    revoke-Lives none = tt
    revoke-Lives (some k) = Returns-if _ (not (is_uuid_value (some k))) _ _ tt (
        Returns-if _ (count_rows (is_claimable k now) db.invites == 1) _ _
          (record {
            row = if is_claimable k now i then set_revoked now i else i;
            found =
                find-update_rows (has_invite_id id) (is_claimable k now) (set_revoked now)
                  (λ a. refl) db.invites i found;
            follows = revoked-Follows k;
          })
          (Returns-if _ (any (has_invite_id k) db.invites) _ _ tt tt))

    revoke_device-Lives :
        (k : Option Text) → Returns (Lives id now i) (revoke_paired_device k now db)
    unfolding revoke_paired_device
    revoke_device-Lives none = tt
    revoke_device-Lives (some k) = Returns-if _ (not (is_uuid_value (some k))) _ _ tt (
        Returns-if (Lives id now i) (count_rows (is_active_device k) db.devices == 1) _ _
          (record { row = i; found = found; follows = stays }) tt)

pub step-Lives :
    (crypto : PairingCrypto) (a : Action) (id : Text) (i : Invite) (db : Db)
    → find (has_invite_id id) db.invites ≡ some i
    → Lives id (clock a) i (step crypto db a)
unfolding step
step-Lives crypto (invites ttl new secret now) id i db found =
    made-keeps (Lives id now i) db _ (same-Lives id now i db found)
      (create-Lives id now i db found crypto ttl new secret)
step-Lives crypto (redeems payload new_id now) id i db found =
    made-keeps (Lives id now i) db _ (same-Lives id now i db found)
      (redeem-Lives id now i db found crypto payload new_id)
step-Lives crypto (revokes_invite k now) id i db found =
    written-keeps (Lives id now i) db _ (same-Lives id now i db found)
      (revoke-Lives id now i db found k)
step-Lives crypto (revokes_device k now) id i db found =
    written-keeps (Lives id now i) db _ (same-Lives id now i db found)
      (revoke_device-Lives id now i db found k)
