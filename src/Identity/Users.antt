-- ===== src/Identity/Users.antt =====
-- user-management.service.ts: the administrator's check, names and status of accounts, and the
-- creation of an account under its email's lock.
pub mod Status
use gnester_lite.Common.{
  max, min, max_of, ◌+◌, ℕ, Text, trim, Bool, true, false, not, ◌&&◌, ◌||◌, ◌==◌, leb,
  if◌then◌else◌, Option, none, some, List, [], ◌∷◌, find, any, length, select_where, delete_where,
  update_where, Failure, Program, ◌>>=◌, ◌>>◌, return, throw, read, write, require, found, when,
  transaction, catch, finally, bad_request, not_found, forbidden, conflict, service_unavailable,
  duplicate_key, is_none,
}
use gnester_lite.Identity.Store.{
  User, Invitation, Store, random_value, text_eq, is_admin, address_of,
}

pub data UserStatus : Type 0 where
  active disabled : UserStatus

pub record UserRecord : Type 0 where
  pub id : ℕ
  pub name : Text
  pub email : Text
  pub is_email_verified : Bool
  pub status : UserStatus
  pub created_at : ℕ

abbrev pub public_user : User → UserRecord
public_user u = record {
  id = u.id;
  name = u.name;
  email = u.email;
  is_email_verified = u.is_email_verified;
  status = if u.banned then disabled else active;
  created_at = u.created_at;
}

abbrev pub is_live_admin : User → Bool
is_live_admin u = not u.banned && is_admin u

abbrev pub admin_row : Option User → Bool
admin_row none = false
admin_row (some u) = is_live_admin u

unfoldable pub require_admin_user : ℕ → Program Store ℕ
require_admin_user user_id = do
  row ← read λ s. find (λ u. u.id == user_id) s.users
  require (admin_row row) (forbidden "Forbidden")
  return user_id

unfoldable pub update_name : ℕ → Text → Program Store (Unit {0})
update_name user_id name = do
  known ← read λ s. any (λ u. u.id == user_id) s.users
  require known (not_found "Not Found")
  write λ s. record s {
    users = update_where (λ u. u.id == user_id) (λ u. record u { name = trim name }) s.users;
  }

abbrev pub one_of : List ℕ → ℕ → Bool
one_of ids id = any (λ i. i == id) ids

-- [...new Set(userIds)]: the first occurrence of each
unfoldable pub unique_from : List ℕ → List ℕ → List ℕ
unique_from seen [] = []
unique_from seen (id ∷ ids) =
    let kept = unique_from (id ∷ seen) ids in
    let dropped = unique_from seen ids in if one_of seen id then dropped else id ∷ kept

abbrev pub unique : List ℕ → List ℕ
unique ids = unique_from [] ids

abbrev pub chosen : List ℕ → User → Bool
chosen ids u = one_of ids u.id

abbrev pub is_disabled : UserStatus → Bool
is_disabled disabled = true
is_disabled active = false

-- UPDATE `user` SET `banned`, and DELETE of the sessions of disabled accounts
unfoldable pub setting_status : List ℕ → UserStatus → Store → Store
setting_status ids status s = record s {
  users = update_where (chosen ids) (λ u. record u { banned = is_disabled status }) s.users;
}

unfoldable pub ending_sessions : List ℕ → Store → Store
ending_sessions ids s = record s {
  sessions = delete_where (λ session. one_of ids session.user_id) s.sessions;
}

-- An account that an administrator may not change.
abbrev pub is_protected : ℕ → User → Bool
is_protected admin_id u = u.id == admin_id || is_admin u

abbrev pub may_change : ℕ → List ℕ → Store → Bool
may_change admin_id ids s =
    let users = select_where (chosen ids) s.users in
    length users == length ids && not (any (is_protected admin_id) users)

unfoldable pub status_change : ℕ → List ℕ → UserStatus → Program Store ℕ
status_change admin_id ids status = do
  allowed ← read (may_change admin_id ids)
  require allowed (forbidden "Cannot change administrator accounts")
  write (setting_status ids status)
  when (is_disabled status) (write (ending_sessions ids))
  return (length ids)

unfoldable pub update_status : ℕ → List ℕ → UserStatus → Program Store ℕ
update_status admin_id user_ids status = do
  let ids = unique user_ids
  require (leb 1 (length ids) && leb (length ids) 100) (bad_request "Choose 1–100 users")
  transaction (status_change admin_id ids status)

-- SELECT GET_LOCK(?, 10): it waits while another connection holds the lock, for 10 seconds at most.
abbrev pub freed_at : Text → Store → ℕ
freed_at email s =
    max_of (λ l. l.held_until) (select_where (λ l. text_eq email l.address) s.foreign_locks)

abbrev pub lock_wait_ms : ℕ
lock_wait_ms = 10000

unfoldable pub acquire_lock : Text → Program Store (Unit {0})
acquire_lock email = do
  in_time ← read λ s. leb (freed_at email s) (s.now + lock_wait_ms)
  write λ s. record s { now = max s.now (min (freed_at email s) (s.now + lock_wait_ms)) }
  require in_time (service_unavailable "Account email is busy")
  write λ s. record s { held_locks = email ∷ s.held_locks }

-- SELECT RELEASE_LOCK: it releases the lock of this connection only.
unfoldable pub release_lock : Text → Program Store (Unit {0})
release_lock email = write λ s. record s { held_locks = delete_where (text_eq email) s.held_locks }

unfoldable pub with_email_lock :
    {A : Type 0} → Text → (Failure → Failure) → Program Store A → Program Store A
with_email_lock email translate m =
    finally (catch (acquire_lock email >> transaction m) (λ e. throw (translate e)))
      (release_lock email)

abbrev pub as_existing : Failure → Failure
as_existing duplicate_key = conflict "Account already exists"
as_existing e = e

-- INSERT of the user, under the unique index on its email, and of its credential account.
unfoldable pub insert_credentials : Text → Text → Text → Program Store ℕ
insert_credentials name email password_hash = do
  id ← random_value
  taken ← read λ s. any (λ u. text_eq email u.email) s.users
  require (not taken) duplicate_key
  write λ s. record s {
    users =
        record {
          id = id;
          name = trim name;
          email = email;
          image = none;
          is_email_verified = false;
          roles = "user" ∷ [];
          banned = false;
          created_at = s.now;
        }
        ∷ s.users;
    accounts = record { user_id = id; password = some password_hash } ∷ s.accounts;
  }
  return id

abbrev pub is_open : Invitation → Bool
is_open i = is_none i.accepted_at && is_none i.revoked_at

abbrev pub is_open_for : Text → Invitation → Bool
is_open_for email i = text_eq email i.email && is_open i

-- UPDATE `user_invitation` SET `revokedAt` of every open invitation of the address
unfoldable pub closing_links : Text → Store → Store
closing_links email s = record s {
  invitations =
      update_where (is_open_for email)
        (λ i. record i { revoked_at = some s.now; updated_at = s.now }) s.invitations;
}

unfoldable pub account_creation : Text → Text → Text → Program Store UserRecord
account_creation name email password_hash = do
  id ← insert_credentials name email password_hash
  write (closing_links email)
  row ← read λ s. find (λ u. u.id == id) s.users
  u ← found row (not_found "Not Found")
  return (public_user u)

-- `createUser`, with the hash of the password
unfoldable pub create_user : Text → Text → Text → Program Store UserRecord
create_user name email password_hash =
    with_email_lock (address_of email) as_existing
      (account_creation name (address_of email) password_hash)
