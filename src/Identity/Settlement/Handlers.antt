-- ===== src/Identity/Settlement/Handlers.antt =====
-- Names, states of accounts, and invitations.
use gnester_lite.Common.{
  ℕ, ◌≡◌, refl, true, not, ◌==◌, List, any, Text, arith, Follows-write, ◌⨾◌, flow,
  Follows-transaction, run-read, run-write, run-require, run-rest, write, trim,
}
use gnester_lite.Identity.Store.{Store, address_of}
use gnester_lite.Identity.Users.{
  UserStatus, update_name, status_change, update_status, ending_sessions, is_open_for,
}
use gnester_lite.Identity.Invitations.{
  inserting_invitation, closing_expired, invite, create_invitation, resend_invitation,
  selected_invitation, get_invitation,
}
use gnester_lite.Identity.Settlement.{
  Settled, has_account, settling, Sound, fewer-Settled, has_account-update_where,
  closing_expired-Settled, resending-Settled, setting_status-Settled, random_value-Sound,
  lock-Sound, inserting-Settled,
}

module _ (e : Text) where
  pub update_name-Sound : (id : ℕ) (name : Text) → Sound e (update_name id name)
  unfolding update_name
  update_name-Sound id name = search flow ⨾ λ _. search flow ⨾ λ _.
      Follows-write (settling e) λ s h.
        fewer-Settled e s _
          (has_account-update_where e (λ u. u.id == id) (λ u. record u { name = trim name }) s.users
            (λ u. refl))
          (omega arith) h

  ending_sessions-Settled :
      (ids : List ℕ) (s : Store) → Settled e s → Settled e (ending_sessions ids s)
  unfolding ending_sessions
  ending_sessions-Settled ids s h = fewer-Settled e s _ refl (omega arith) h

  pub update_status-Sound :
      (admin_id : ℕ) (ids : List ℕ) (status : UserStatus)
      → Sound e (update_status admin_id ids status)
  unfolding update_status status_change
  update_status-Sound admin_id ids status = search flow ⨾ λ _. Follows-transaction (settling e) (
      search flow ⨾ λ _. search flow ⨾ λ _.
      Follows-write (settling e) (setting_status-Settled e _ status) ⨾ λ _.
      search (flow, ended) ⨾ λ _. search flow)
    where
      ended : (ids : List ℕ) → Sound e (write (ending_sessions ids))
      ended ids = Follows-write (settling e) (ending_sessions-Settled ids)

  selected_invitation-Sound : (id : ℕ) → Sound e (selected_invitation id)
  unfolding selected_invitation
  selected_invitation-Sound id = search flow

  module _ (digest : ℕ → ℕ) where
    invite-Sound :
        (admin_id : ℕ) (email : Text) (token id : ℕ)
        → Sound e (invite digest admin_id email token id)
    unfolding invite closing_expired
    invite-Sound admin_id email token id = record {
      run = λ s h.
          run-read (settling e) _ _ s s
            (run-require (settling e) _ _ _ s s (λ h. h)
              λ unknown. run-write (settling e) _ _ s s (
                run-read (settling e) _ _ s (closing_expired email s) (
                  run-require (settling e) _ _ _ s (closing_expired email s)
                    (closing_expired-Settled e email s)
                    λ free. run-write (settling e) _ _ s (closing_expired email s) (
                      run-rest (settling e) s _ (inserted s unknown free)
                        (selected_invitation-Sound id)))))
            h;
    }
      where
        inserted :
            (s : Store)
            → not (has_account email s.users) ≡ true
            → not (any (is_open_for email) (closing_expired email s).invitations) ≡ true
            → Settled e s
            → Settled e
                (inserting_invitation id email (digest token) admin_id (closing_expired email s))
        inserted s unknown free h =
            inserting-Settled e id email (digest token) admin_id (closing_expired email s)
              (ground arith) (ground arith) (closing_expired-Settled e email s h)

    pub create_invitation-Sound :
        (admin_id : ℕ) (email : Text) → Sound e (create_invitation digest admin_id email)
    unfolding create_invitation
    create_invitation-Sound admin_id email = random_value-Sound e ⨾ λ token.
        random_value-Sound e ⨾ λ id.
        lock-Sound e _ _ _ (invite-Sound admin_id (address_of email) token id) ⨾ λ _. search flow

    pub resend_invitation-Sound : (id : ℕ) → Sound e (resend_invitation digest id)
    unfolding resend_invitation
    resend_invitation-Sound id = random_value-Sound e ⨾ λ token. Follows-transaction (settling e) (
        search flow ⨾ λ _. search flow ⨾ λ _. search flow ⨾ λ _.
        Follows-write (settling e) (resending-Settled e id (digest token)) ⨾ λ _.
        selected_invitation-Sound id ⨾ λ _. search flow)

    pub get_invitation-Sound : (token : ℕ) → Sound e (get_invitation digest token)
    unfolding get_invitation
    get_invitation-Sound token = search flow
