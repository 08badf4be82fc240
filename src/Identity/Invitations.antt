-- ===== src/Identity/Invitations.antt =====
-- user-management.service.ts: invitations, from their creation to their acceptance or revocation.
pub mod Filter
pub mod Once
use gnester_lite.Common.{
  ℕ, ◌+◌, ◌*◌, Text, Bool, false, not, ◌&&◌, ◌==◌, leb, ltb, if◌then◌else◌, Option, none, some, ◌∷◌,
  find, any, update_where, Failure, Program, ◌>>=◌, ◌>>◌, return, read, write, require, found,
  transaction, not_found, conflict, duplicate_key, is_some,
}
use gnester_lite.Identity.Store.{Invitation, Store, random_value, text_eq, address_of}
use gnester_lite.Identity.Users.{
  with_email_lock, insert_credentials, is_open, is_open_for, as_existing,
}

pub data InvitationStatus : Type 0 where
  pending expired accepted revoked : InvitationStatus

pub record InvitationRecord : Type 0 where
  pub id : ℕ
  pub email : Text
  pub status : InvitationStatus
  pub sent_at : ℕ
  pub expires_at : ℕ

abbrev pub status_of : ℕ → Invitation → InvitationStatus
status_of now i =
    if is_some i.revoked_at
    then revoked
    else if is_some i.accepted_at
    then accepted
    else if leb i.expires_at now
    then expired
    else pending

abbrev pub public_invitation : ℕ → Invitation → InvitationRecord
public_invitation now i = record {
  id = i.id;
  email = i.email;
  status = status_of now i;
  sent_at = i.updated_at;
  expires_at = i.expires_at;
}

-- The condition of `listInvitations` for a status.
abbrev pub matches_status : ℕ → InvitationStatus → Invitation → Bool
matches_status now pending i = is_open i && ltb now i.expires_at
matches_status now expired i = is_open i && leb i.expires_at now
matches_status now accepted i = is_some i.accepted_at
matches_status now revoked i = is_some i.revoked_at

-- INTERVAL 7 DAY, in milliseconds
abbrev pub invitation_lifetime : ℕ
invitation_lifetime = 7 * 24 * 60 * 60 * 1000

-- Open links of the address that have expired are revoked.
unfoldable pub closing_expired : Text → Store → Store
closing_expired email s = record s {
  invitations =
      update_where (λ i. is_open_for email i && leb i.expires_at s.now)
        (λ i. record i { revoked_at = some s.now; updated_at = s.now }) s.invitations;
}

unfoldable pub inserting_invitation : ℕ → Text → ℕ → ℕ → Store → Store
inserting_invitation id email token_hash admin_id s = record s {
  invitations =
      record {
        id = id;
        email = email;
        token_hash = token_hash;
        invited_by = admin_id;
        expires_at = s.now + invitation_lifetime;
        accepted_at = none;
        revoked_at = none;
        updated_at = s.now;
      }
      ∷ s.invitations;
}

abbrev pub as_pending : Failure → Failure
as_pending duplicate_key = conflict "Invitation already pending"
as_pending e = e

unfoldable pub resending : ℕ → ℕ → Store → Store
resending id token_hash s = record s {
  invitations =
      update_where (λ i. i.id == id)
        (λ i. record i {
          token_hash = token_hash;
          expires_at = s.now + invitation_lifetime;
          updated_at = s.now;
        })
        s.invitations;
}

unfoldable pub revoking : ℕ → Store → Store
revoking id s = record s {
  invitations =
      update_where (λ i. i.id == id) (λ i. record i { revoked_at = some s.now; updated_at = s.now })
        s.invitations;
}

unfoldable pub accepting : ℕ → Store → Store
accepting id s = record s {
  invitations =
      update_where (λ i. i.id == id)
        (λ i. record i { accepted_at = some s.now; updated_at = s.now }) s.invitations;
}

abbrev pub is_available : ℕ → Invitation → Bool
is_available now i = is_open i && ltb now i.expires_at

abbrev pub open_row : Option Invitation → Bool
open_row none = false
open_row (some i) = is_open i

unfoldable pub revoke_invitation : ℕ → Program Store (Unit {0})
revoke_invitation id = transaction do
  row ← read λ s. find (λ i. i.id == id) s.invitations
  require (open_row row) (not_found "Not Found")
  write (revoking id)

-- The row of an invitation that was just written.
unfoldable pub selected_invitation : ℕ → Program Store InvitationRecord
selected_invitation id = do
  row ← read λ s. find (λ i. i.id == id) s.invitations
  i ← found row (not_found "Not Found")
  now ← read λ s. s.now
  return (public_invitation now i)

-- The digest of a token, which stands in the table in its place.
module _ (digest : ℕ → ℕ) where
  unfoldable pub invite : ℕ → Text → ℕ → ℕ → Program Store InvitationRecord
  invite admin_id email token id = do
    known ← read λ s. any (λ u. text_eq email u.email) s.users
    require (not known) (conflict "Account already exists")
    write (closing_expired email)
    waiting ← read λ s. any (is_open_for email) s.invitations
    require (not waiting) (conflict "Invitation already pending")
    write (inserting_invitation id email (digest token) admin_id)
    selected_invitation id

  unfoldable pub create_invitation : ℕ → Text → Program Store (InvitationRecord × ℕ)
  create_invitation admin_id email = do
    token ← random_value
    id ← random_value
    i ← with_email_lock (address_of email) as_pending (invite admin_id (address_of email) token id)
    return (i, token)

  unfoldable pub resend_invitation : ℕ → Program Store (InvitationRecord × ℕ)
  resend_invitation id = do
    token ← random_value
    transaction do
      row ← read λ s. find (λ i. i.id == id) s.invitations
      i ← found row (not_found "Not Found")
      require (is_open i) (conflict "Invitation is closed")
      write (resending id (digest token))
      updated ← selected_invitation id
      return (updated, token)

  unfoldable pub get_invitation : ℕ → Program Store Invitation
  get_invitation token = do
    row ← read λ s. find (λ i. i.token_hash == digest token) s.invitations
    i ← found row (not_found "Invitation is unavailable")
    now ← read λ s. s.now
    require (is_available now i) (not_found "Invitation is unavailable")
    return i

  -- The transaction of `acceptInvitation`.
  unfoldable pub acceptance : ℕ → Text → Text → Program Store (Unit {0})
  acceptance token name password_hash = do
    i ← get_invitation token
    user_id ← insert_credentials name i.email password_hash
    write (accepting i.id)

  unfoldable pub accept_invitation : ℕ → Text → Text → Program Store (Unit {0})
  accept_invitation token name password_hash = do
    i ← get_invitation token
    with_email_lock i.email as_existing (acceptance token name password_hash)
