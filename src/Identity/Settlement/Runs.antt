-- ===== src/Identity/Settlement/Runs.antt =====
-- Runs of user-management.service.ts: any sequence of its requests, in any order.
use gnester_lite.Common.{ℕ, ◌+◌, refl, List, [], ◌∷◌, Text, arith}
use gnester_lite.Identity.Store.{ForeignLock, Store}
use gnester_lite.Identity.Users.{UserStatus, update_name, update_status, create_user}
use gnester_lite.Identity.Invitations.{
  revoke_invitation, create_invitation, resend_invitation, accept_invitation,
}
use gnester_lite.Identity.Settlement.{Settled, fewer-Settled}
use gnester_lite.Identity.Settlement.Handlers.{
  update_name-Sound, update_status-Sound, create_invitation-Sound, resend_invitation-Sound,
}
use gnester_lite.Identity.Settlement.Accounts.{
  create_user-Sound, revoke_invitation-Sound, accept_invitation-Sound,
}

-- A request of user-management.service.ts, the locks that other connections come to hold, or the
-- passing of time.
pub data Step : Type 0 where
  invites : ℕ → Text → Step
  resends revokes : ℕ → Step
  accepts : ℕ → Text → Text → Step
  creates : Text → Text → Text → Step
  renames : ℕ → Text → Step
  sets_status : ℕ → List ℕ → UserStatus → Step
  waits : ℕ → List ForeignLock → Step

module _ (digest : ℕ → ℕ) where
  unfoldable pub exec : Step → Store → Store
  exec (invites admin_id email) s = (create_invitation digest admin_id email s).1
  exec (resends id) s = (resend_invitation digest id s).1
  exec (revokes id) s = (revoke_invitation id s).1
  exec (accepts token name password_hash) s =
      (accept_invitation digest token name password_hash s).1
  exec (creates name email password_hash) s = (create_user name email password_hash s).1
  exec (renames id name) s = (update_name id name s).1
  exec (sets_status admin_id ids status) s = (update_status admin_id ids status s).1
  exec (waits n locks) s = record s { now = s.now + n; foreign_locks = locks }

  unfoldable pub run : List Step → Store → Store
  run [] s = s
  run (x ∷ xs) s = run xs (exec x s)

  module _ (e : Text) where
    exec-Settled : (x : Step) (s : Store) → Settled e s → Settled e (exec x s)
    unfolding exec
    exec-Settled (invites admin_id email) s h =
        (create_invitation-Sound e digest admin_id email).run s h
    exec-Settled (resends id) s h = (resend_invitation-Sound e digest id).run s h
    exec-Settled (revokes id) s h = (revoke_invitation-Sound e id).run s h
    exec-Settled (accepts token name password_hash) s h =
        (accept_invitation-Sound e digest token name password_hash).run s h
    exec-Settled (creates name email password_hash) s h =
        (create_user-Sound e name email password_hash).run s h
    exec-Settled (renames id name) s h = (update_name-Sound e id name).run s h
    exec-Settled (sets_status admin_id ids status) s h =
        (update_status-Sound e admin_id ids status).run s h
    exec-Settled (waits n locks) s h = fewer-Settled e s _ refl (omega arith) h

    -- In any run of the requests, if at the start an address has at most one open invitation, and none
    -- once it has an account, then so it is at the end.
    pub run-Settled : (xs : List Step) (s : Store) → Settled e s → Settled e (run xs s)
    unfolding run
    run-Settled [] s h = h
    run-Settled (x ∷ xs) s h = run-Settled xs (exec x s) (exec-Settled x s h)
