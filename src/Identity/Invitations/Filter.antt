-- ===== src/Identity/Invitations/Filter.antt =====
-- The filter of the list of invitations beside the status that the list shows.
use gnester_lite.Common.{ℕ, ◌≡◌, Bool, true, false, ◌&&◌, is_some, arith}
use gnester_lite.Identity.Store.{Invitation}
use gnester_lite.Identity.Invitations.{
  InvitationStatus, pending, expired, accepted, revoked, status_of, matches_status,
}

abbrev pub same_status : InvitationStatus → InvitationStatus → Bool
same_status pending pending = true
same_status expired expired = true
same_status accepted accepted = true
same_status revoked revoked = true
same_status _ _ = false

-- For an invitation that was not both accepted and revoked, the filter for a status selects it
-- exactly if that is the status which the list shows for it.
pub matches_status-status_of :
    (now : ℕ) (status : InvitationStatus) (i : Invitation)
    → (is_some i.accepted_at && is_some i.revoked_at) ≡ false
    → matches_status now status i ≡ same_status (status_of now i) status
matches_status-status_of now pending i h = ground arith
matches_status-status_of now expired i h = ground arith
matches_status-status_of now accepted i h = ground arith
matches_status-status_of now revoked i h = ground arith
