-- ===== src/Pairing/Status.antt =====
-- The status of an invite that the pages of an administrator show, against the WHERE of the UPDATEs.
use labaiacinghiala.Common.{ℕ, Bool, true, false, ◌≡◌, ◌↔◌, refl, arith, text_eq_refl, sym, ap, ◌∙◌}
use labaiacinghiala.Store.{Invite}
use labaiacinghiala.Pairing.{
  has_invite_id, is_claimable, InviteStatus, used, revoked, expired, active, pairing_invite_status,
}

is_active : InviteStatus → Bool
is_active used = false
is_active revoked = false
is_active expired = false
is_active active = true

active_only : (s : InviteStatus) → is_active s ≡ true → s ≡ active
unfolding is_active
active_only used h = cc
active_only revoked h = cc
active_only expired h = cc
active_only active h = refl

status_test :
    (i : Invite) (now : ℕ) → is_active (pairing_invite_status i now) ≡ is_claimable i.id now i
unfolding pairing_invite_status is_claimable has_invite_id is_active
status_test i now = ground (arith, text_eq_refl i.id)

-- An invite is shown as active exactly when the UPDATEs that redeem and revoke it still find it.
pub pairing_invite_status-is_claimable :
    (i : Invite) (now : ℕ)
    → (pairing_invite_status i now ≡ active) ↔ (is_claimable i.id now i ≡ true)
unfolding is_active
pairing_invite_status-is_claimable i now = (
  λ h. sym (status_test i now) ∙ ap is_active h,
  λ h. active_only (pairing_invite_status i now) (status_test i now ∙ h),
)
