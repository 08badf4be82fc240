-- ===== src/Identity/Sessions.antt =====
-- application-auth.service.ts: signing in and out, the check of each protected request, and the
-- rotation of refresh tokens.
pub mod Refusal
pub mod Reuse
use gnester_lite.Common.{
  ℕ, ◌+◌, ◌*◌, Text, Bool, true, false, not, ◌&&◌, ◌==◌, leb, ltb, if◌then◌else◌, Option, none,
  some, ◌∷◌, find, any, delete_where, update_where, String, Program, ◌>>=◌, ◌>>◌, return, throw,
  read, write, require, found, transaction, unauthorized,
}
use text.Mathlib.Text.{◌==◌ as str_eq}
use gnester_lite.Identity.Store.{
  User, Account, Session, SessionToken, rotating, other, Store, random_value, text_eq, address_of,
}

-- `${sessionId}.${randomBytes(32)}`
pub record RefreshToken : Type 0 where
  pub session_id : ℕ
  pub secret : ℕ

pub record Claims : Type 0 where
  pub kind : String
  pub sub : Option ℕ
  pub sid : Option ℕ

-- What the service takes from the runtime and from the JWT library.
pub record Auth : Type 0 where
  pub digest : RefreshToken → ℕ
  pub verify_password : Text → Text → Bool
  pub sign : Claims → ℕ
  pub verify : ℕ → Option Claims

pub record SessionUser : Type 0 where
  pub id : ℕ
  pub email : Text
  pub name : Text
  pub image : Option Text

pub record Cookies : Type 0 where
  pub access : ℕ
  pub refresh : RefreshToken
  pub refresh_max_age : Option ℕ

-- 7 * 24 and 24 hours, in milliseconds
abbrev pub remembered_session_age : ℕ
remembered_session_age = 7 * 24 * 60 * 60 * 1000

abbrev pub browser_session_age : ℕ
browser_session_age = 24 * 60 * 60 * 1000

abbrev pub session_user : User → SessionUser
session_user u = record { id = u.id; email = u.email; name = u.name; image = u.image }

-- The credential account of an address.
abbrev pub account_row : Store → Text → Option (User × Account)
account_row s email = elim (find (λ u. text_eq email u.email) s.users) [
  | none ↦ none
  | some u ↦ elim (find (λ a. a.user_id == u.id) s.accounts) [ none ↦ none | some a ↦ some (u, a) ]
]

abbrev pub lifetime : Bool → ℕ
lifetime remember_me = if remember_me then remembered_session_age else browser_session_age

abbrev pub access_claims : ℕ → ℕ → Claims
access_claims user_id session_id = record {
  kind = "application-access";
  sub = some user_id;
  sid = some session_id;
}

abbrev pub is_session : ℕ → Session → Bool
is_session id session = session.id == id

unfoldable pub deleting_session : ℕ → Store → Store
deleting_session id s = record s { sessions = delete_where (is_session id) s.sessions }

unfoldable pub inserting_session : ℕ → ℕ → ℕ → Bool → Store → Store
inserting_session id user_id digest remember_me s = record s {
  sessions =
      record {
        id = id;
        user_id = user_id;
        token = rotating digest;
        expires_at = s.now + lifetime remember_me;
        remember_me = remember_me;
      }
      ∷ s.sessions;
}

-- The UPDATE of a rotation: a remembered session is extended.
abbrev pub rotated : ℕ → ℕ → Session → Session
rotated digest now session = record session {
  token = rotating digest;
  expires_at = if session.remember_me then now + remembered_session_age else session.expires_at;
}

unfoldable pub rotating_session : ℕ → ℕ → Store → Store
rotating_session id digest s = record s {
  sessions = update_where (is_session id) (rotated digest s.now) s.sessions;
}

abbrev pub holds_digest : ℕ → SessionToken → Bool
holds_digest digest (rotating d) = d == digest
holds_digest digest (other t) = false

abbrev pub is_rotating : SessionToken → Bool
is_rotating (rotating d) = true
is_rotating (other t) = false

-- The session that `requireUser` joins to its user.
abbrev pub is_live_session : ℕ → ℕ → ℕ → Session → Bool
is_live_session now user_id id session =
    session.id == id
    && session.user_id == user_id
    && is_rotating session.token
    && ltb now session.expires_at

abbrev pub live_user : Store → ℕ → ℕ → Option User
live_user s user_id id =
    if any (is_live_session s.now user_id id) s.sessions
    then find (λ u. u.id == user_id) s.users
    else none

abbrev pub is_unbanned : Option User → Bool
is_unbanned none = false
is_unbanned (some u) = not u.banned

-- What a rotation reports of its session.
pub record Rotation : Type 0 where
  pub user_id : ℕ
  pub is_remembered : Bool

module _ (auth : Auth) where
  abbrev pub cookies : ℕ → RefreshToken → Bool → Cookies
  cookies user_id token remember_me = record {
    access = auth.sign (access_claims user_id token.session_id);
    refresh = token;
    refresh_max_age = if remember_me then some remembered_session_age else none;
  }

  abbrev pub admits_password : Text → Option (User × Account) → Bool
  admits_password password none = false
  admits_password password (some (u, a)) = elim a.password [
    | none ↦ false
    | some hash ↦ not u.banned && auth.verify_password password hash
  ]

  unfoldable pub open_session : Bool → User × Account → Program Store (SessionUser × Cookies)
  open_session remember_me (u, a) = do
    id ← random_value
    secret ← random_value
    let token : RefreshToken = record { session_id = id; secret = secret }
    write (inserting_session id u.id (auth.digest token) remember_me)
    return (session_user u, cookies u.id token remember_me)

  unfoldable pub sign_in : Text → Text → Bool → Program Store (SessionUser × Cookies)
  sign_in email password remember_me = do
    row ← read λ s. account_row s (address_of email)
    require (admits_password password row) (unauthorized "Unauthorized")
    account ← found row (unauthorized "Unauthorized")
    open_session remember_me account

  -- The user and the session of a verified access token.
  abbrev pub access_of : Claims → Option (ℕ × ℕ)
  access_of c = if str_eq c.kind "application-access" then both c.sub c.sid else none
    where
      both : Option ℕ → Option ℕ → Option (ℕ × ℕ)
      both (some user_id) (some id) = some (user_id, id)
      both _ _ = none

  abbrev pub access_ids : Option ℕ → Option (ℕ × ℕ)
  access_ids none = none
  access_ids (some jwt) = elim (auth.verify jwt) [ none ↦ none | some c ↦ access_of c ]

  unfoldable pub require_session : ℕ × ℕ → Program Store SessionUser
  require_session (user_id, id) = do
    row ← read λ s. live_user s user_id id
    require (is_unbanned row) (unauthorized "Unauthorized")
    u ← found row (unauthorized "Unauthorized")
    return (session_user u)

  unfoldable pub require_user : Option ℕ → Program Store SessionUser
  require_user cookie = do
    ids ← found (access_ids cookie) (unauthorized "Unauthorized")
    require_session ids

  unfoldable pub replace_token :
      RefreshToken → RefreshToken → Session → Bool → Program Store (Option Rotation)
  replace_token previous next session true = do
    write (deleting_session previous.session_id)
    return none
  replace_token previous next session false = do
    write (rotating_session previous.session_id (auth.digest next))
    return (some (record { user_id = session.user_id; is_remembered = session.remember_me }))

  -- The current session of a rotation: it is kept where the token is stale, deleted where it has
  -- expired, and given the next token's digest otherwise.
  unfoldable pub rotate_session :
      RefreshToken → RefreshToken → Session → Program Store (Option Rotation)
  rotate_session previous next session = do
    now ← read λ s. s.now
    replace_token previous next session (leb session.expires_at now)

  unfoldable pub rotate_row :
      RefreshToken → RefreshToken → Option Session → Program Store (Option Rotation)
  rotate_row previous next none = return none
  rotate_row previous next (some session) =
      if holds_digest (auth.digest previous) session.token
      then rotate_session previous next session
      else return none

  unfoldable pub rotation : RefreshToken → RefreshToken → Program Store (Option Rotation)
  rotation previous next = transaction do
    row ← read λ s. find (is_session previous.session_id) s.sessions
    rotate_row previous next row

  unfoldable pub refreshed :
      RefreshToken → Rotation → Option User → Program Store (SessionUser × Cookies)
  refreshed next r none =
      write (deleting_session next.session_id) >> throw (unauthorized "Unauthorized")
  refreshed next r (some u) =
      if u.banned
      then write (deleting_session next.session_id) >> throw (unauthorized "Unauthorized")
      else return (session_user u, cookies u.id next r.is_remembered)

  unfoldable pub refresh : Option RefreshToken → Program Store (SessionUser × Cookies)
  refresh cookie = do
    previous ← found cookie (unauthorized "Unauthorized")
    secret ← random_value
    let next : RefreshToken = record { session_id = previous.session_id; secret = secret }
    outcome ← rotation previous next
    r ← found outcome (unauthorized "Unauthorized")
    row ← read λ s. find (λ u. u.id == r.user_id) s.users
    refreshed next r row

  unfoldable pub end_refresh : Option RefreshToken → Program Store (Unit {0})
  end_refresh none = return tt
  end_refresh (some token) = write λ s. record s {
    sessions =
        delete_where
          (λ session.
            session.id == token.session_id && holds_digest (auth.digest token) session.token)
          s.sessions;
  }

  -- The session of an access token: only `sid` is read.
  abbrev pub access_session : Option ℕ → Option ℕ
  access_session none = none
  access_session (some jwt) = elim (auth.verify jwt) [
    | none ↦ none
    | some c ↦ if str_eq c.kind "application-access" then c.sid else none
  ]

  unfoldable pub end_access : Option ℕ → Program Store (Unit {0})
  end_access none = return tt
  end_access (some id) = write (deleting_session id)

  unfoldable pub sign_out : Option RefreshToken → Option ℕ → Program Store (Unit {0})
  sign_out token jwt = do end_refresh token; end_access (access_session jwt)
