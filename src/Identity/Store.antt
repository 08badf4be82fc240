-- ===== src/Identity/Store.antt =====
-- The rows of the account tables (src/modules/identity/*persistence.types.ts), the named locks of the
-- database, and the clock. Identifiers and secrets are numbers; a secret is kept as its digest.
use gnester_lite.Common.{
  ◌||◌, ℕ, suc, Text, Bool, ◌&&◌, leb, ◌+◌, if◌then◌else◌, Option, List, map, String, ok, Program,
  trim, any,
}
pub use gnester_lite.Common.{text_eq}
use text.Mathlib.Text.{◌==◌ as str_eq}

-- `role.split(',')` is the list of the roles.
pub record User : Type 0 where
  pub id : ℕ
  pub name : Text
  pub email : Text
  pub image : Option Text
  pub is_email_verified : Bool
  pub roles : List String
  pub banned : Bool
  pub created_at : ℕ

-- A credential account.
pub record Account : Type 0 where
  pub user_id : ℕ
  pub password : Option Text

-- `rt2:` and the digest of a refresh token, or a token of another form.
pub data SessionToken : Type 0 where
  rotating : ℕ → SessionToken
  other : ℕ → SessionToken

pub record Session : Type 0 where
  pub id : ℕ
  pub user_id : ℕ
  pub token : SessionToken
  pub expires_at : ℕ
  pub remember_me : Bool

pub record Invitation : Type 0 where
  pub id : ℕ
  pub email : Text
  pub token_hash : ℕ
  pub invited_by : ℕ
  pub expires_at : ℕ
  pub accepted_at : Option ℕ
  pub revoked_at : Option ℕ
  pub updated_at : ℕ

-- A named lock that another connection holds, until an instant.
pub record ForeignLock : Type 0 where
  pub address : Text
  pub held_until : ℕ

pub record Store : Type 0 where
  pub users : List User
  pub accounts : List Account
  pub sessions : List Session
  pub invitations : List Invitation
  pub held_locks : List Text
  pub foreign_locks : List ForeignLock
  pub now : ℕ
  pub next_id : ℕ

-- `randomUUID()` and `randomBytes(32)`: a value that was not given out before.
unfoldable pub random_value : Program Store ℕ
random_value s = (ok s.next_id, record s { next_id = suc s.next_id })

abbrev pub is_admin : User → Bool
is_admin u = any (str_eq "admin") u.roles

-- `toLowerCase()` of the letters of ASCII, Latin-1, Greek and Cyrillic. An address has no capital of
-- another script.
abbrev pub is_between : ℕ → ℕ → ℕ → Bool
is_between a b c = leb a c && leb c b

abbrev pub to_lower : ℕ → ℕ
to_lower c =
    if is_between 65 90 c
      || is_between 192 214 c
      || is_between 216 222 c
      || is_between 913 929 c
      || is_between 931 939 c
      || is_between 1040 1071 c
    then c + 32
    else if is_between 1024 1039 c
    then c + 80
    else c

unfoldable pub address_of : Text → Text
address_of email = map to_lower (trim email)
