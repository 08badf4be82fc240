-- ===== src/Identity/Tests.antt =====
-- A store with two accounts, and the theorems of the identity module on it.
use gnester_lite.Common.{
  ℕ, ◌≡◌, refl, true, false, some, List, [], ◌∷◌, err, Program, arith, unauthorized, ◌>>=◌, return,
  read, write, require, when, found, transaction, trim, trim_start, is_space,
}
use gnester_lite.Identity.Store.{
  Invitation, User, Session, Store, rotating, random_value, text_eq, address_of,
}
use gnester_lite.Identity.Users.{
  disabled, update_status, status_change, unique_from, setting_status, ending_sessions,
}
use gnester_lite.Common.{none}
use gnester_lite.Identity.Users.{with_email_lock}
use gnester_lite.Identity.Invitations.{expired, status_of, matches_status}
use gnester_lite.Identity.Invitations.{get_invitation, acceptance, accepting, accept_invitation}
use gnester_lite.Identity.Invitations.Once.{accept_invitation-once}
use gnester_lite.Identity.Users.{acquire_lock, release_lock, insert_credentials}
use gnester_lite.Common.{Text, catch, finally, throw, not_found}
use gnester_lite.Identity.Invitations.Filter.{same_status, matches_status-status_of}
use gnester_lite.Identity.Users.Status.{Switched, update_status-Switched}
use gnester_lite.Identity.Sessions.{
  Auth, RefreshToken, Cookies, SessionUser, refresh, rotation, rotate_row, rotate_session,
  replace_token, rotating_session, refreshed, require_user, sign_in, cookies, session_user,
}
use gnester_lite.Identity.Sessions.Refusal.{disabled-refused, disabled-sign_in}
use gnester_lite.Identity.Sessions.Reuse.{Refreshed, refresh-Refreshed}
use gnester_lite.Identity.Settlement.{Settled}
use gnester_lite.Identity.Settlement.Runs.{Step, invites, accepts, run, run-Settled}

abbrev admin : User
admin = record {
  id = 1;
  name = 65 ∷ [];
  email = 97 ∷ [];
  image = none;
  is_email_verified = true;
  roles = "admin" ∷ [];
  banned = false;
  created_at = 0;
}

abbrev member : User
member = record {
  id = 2;
  name = 66 ∷ [];
  email = 98 ∷ [];
  image = none;
  is_email_verified = true;
  roles = "user" ∷ [];
  banned = false;
  created_at = 0;
}

-- A digest that tells the tokens of one session apart, and takes few sessions.
abbrev code : RefreshToken → ℕ
code t = t.secret

abbrev session : Session
session = record { id = 5; user_id = 2; token = rotating 3; expires_at = 500; remember_me = true }

abbrev office : Store
office = record {
  users = admin ∷ member ∷ [];
  accounts = record { user_id = 2; password = some (80 ∷ []) } ∷ [];
  sessions = session ∷ [];
  invitations = [];
  held_locks = [];
  foreign_locks = [];
  now = 100;
  next_id = 10;
}

abbrev steps : List Step
steps =
    invites 1 (99 ∷ [])
    ∷ invites 1 (99 ∷ [])
    ∷ accepts 10 (67 ∷ []) (81 ∷ [])
    ∷ invites 1 (99 ∷ [])
    ∷ []

run-Settled_example : Settled (99 ∷ []) (run (λ token. token) steps office)
run-Settled_example =
    run-Settled (λ token. token) (99 ∷ []) steps office
      (record { single = omega arith; closed = λ h. omega arith })

abbrev auth : Auth
auth = record {
  digest = code;
  verify_password = text_eq;
  sign = λ c. 1;
  verify = λ jwt. some (record { kind = "application-access"; sub = some 2; sid = some 5 });
}

abbrev token : RefreshToken
token = record { session_id = 5; secret = 3 }

-- The store that a program leaves.
abbrev left : {A : Type 0} → Program Store A → Store → Store
left m s = (m s).1

abbrev handed_out : SessionUser × Cookies
handed_out = (session_user member, cookies auth 2 (record { session_id = 5; secret = 10 }) true)

refresh-Refreshed_example :
    Refreshed auth token handed_out (left (refresh auth (some token)) office)
unfolding refresh random_value rotation rotate_row rotate_session replace_token rotating_session
    refreshed ◌>>=◌ return read write require found transaction
refresh-Refreshed_example =
    refresh-Refreshed auth token office handed_out (left (refresh auth (some token)) office)
      (λ a b e d. d) (omega arith) refl

update_status-Switched_example :
    Switched 1 (2 ∷ 2 ∷ []) disabled office 1 (left (update_status 1 (2 ∷ 2 ∷ []) disabled) office)
unfolding update_status status_change unique_from setting_status ending_sessions ◌>>=◌ return read
    write require when transaction
update_status-Switched_example =
    update_status-Switched 1 (2 ∷ 2 ∷ []) disabled office 1
      (left (update_status 1 (2 ∷ 2 ∷ []) disabled) office) refl

disabled-refused_example :
    require_user auth (some 8) (left (update_status 1 (2 ∷ []) disabled) office)
    ≡ (err (unauthorized "Unauthorized"), left (update_status 1 (2 ∷ []) disabled) office)
unfolding update_status status_change unique_from setting_status ending_sessions ◌>>=◌ return read
    write require when transaction
disabled-refused_example =
    disabled-refused auth 1 (2 ∷ []) office 1 (left (update_status 1 (2 ∷ []) disabled) office)
      (some 8) 2 5 refl refl refl

disabled-sign_in_example :
    sign_in auth (98 ∷ []) (80 ∷ []) true (left (update_status 1 (2 ∷ []) disabled) office)
    ≡ (err (unauthorized "Unauthorized"), left (update_status 1 (2 ∷ []) disabled) office)
unfolding update_status status_change unique_from setting_status ending_sessions address_of trim
    trim_start is_space ◌>>=◌ return read write require when transaction
disabled-sign_in_example =
    disabled-sign_in auth 1 (2 ∷ []) office 1 (left (update_status 1 (2 ∷ []) disabled) office)
      (98 ∷ []) (80 ∷ []) true (record member { banned = true }) refl refl refl

abbrev invitation : Invitation
invitation = record {
  id = 6;
  email = 99 ∷ [];
  token_hash = 4;
  invited_by = 1;
  expires_at = 90;
  accepted_at = none;
  revoked_at = none;
  updated_at = 10;
}

matches_status-status_of_example :
    matches_status 100 expired invitation ≡ same_status (status_of 100 invitation) expired
matches_status-status_of_example = matches_status-status_of 100 expired invitation refl

-- An office that waits for the invited.
abbrev waiting : Store
waiting = record office { invitations = record invitation { expires_at = 900 } ∷ [] }

abbrev accepted_office : Store
accepted_office = left (accept_invitation (λ token. token) 4 (67 ∷ []) (81 ∷ [])) waiting

accept_invitation-once_example :
    (get_invitation (λ token. token) 4 accepted_office
      ≡ (err (not_found "Invitation is unavailable"), accepted_office))
    × ((other_name other_hash : Text)
        → accept_invitation (λ token. token) 4 other_name other_hash accepted_office
          ≡ (err (not_found "Invitation is unavailable"), accepted_office))
unfolding get_invitation acceptance accepting accept_invitation with_email_lock acquire_lock
    release_lock insert_credentials random_value trim trim_start is_space catch finally throw ◌>>=◌
    return read write require found transaction
accept_invitation-once_example =
    accept_invitation-once (λ token. token) 4 (67 ∷ []) (81 ∷ []) waiting tt accepted_office refl
