-- ===== src/Identity/Sessions/Refusal.antt =====
-- What an account that was disabled is refused.
use gnester_lite.Common.{
  ℕ, ◌≡◌, refl, ap, sym, Bool, true, false, ◌==◌, Option, some, List, [], ◌∷◌, find, any,
  update_where, Text, Option-cases, inl, inr, arith, err, unauthorized, Returns, ◌>>=◌, read,
  require, found,
}
use gnester_lite.Identity.Store.{User, Account, Session, Store, text_eq, address_of}
use gnester_lite.Identity.Users.{disabled, one_of, chosen, update_status}
use gnester_lite.Identity.Users.Status.{update_status-Switched}
use gnester_lite.Identity.Sessions.{
  Auth, is_live_session, account_row, admits_password, access_ids, require_session, require_user,
  sign_in,
}

no_live_session :
    (ids : List ℕ) (now user_id id : ℕ) (sessions : List Session)
    → one_of ids user_id ≡ true
    → any (λ session. one_of ids session.user_id) sessions ≡ false
    → any (is_live_session now user_id id) sessions ≡ false
no_live_session ids now user_id id [] h k = refl
no_live_session ids now user_id id (session ∷ sessions) h k =
    ground (arith, no_live_session ids now user_id id sessions h, ap (one_of ids))

-- The account's row is banned.
banned-find :
    (ids : List ℕ) (p : User → Bool) (users : List User) (u : User)
    → find p (update_where (chosen ids) (λ u. record u { banned = true }) users) ≡ some u
    → chosen ids u ≡ true
    → u.banned ≡ true
banned-find ids p [] u h k = ground arith
banned-find ids p (v ∷ users) u h k = ground (arith, h, banned-find ids p users u)

require_session-refused :
    (auth : Auth) (user_id id : ℕ) (t : Store)
    → any (is_live_session t.now user_id id) t.sessions ≡ false
    → require_session auth (user_id, id) t ≡ (err (unauthorized "Unauthorized"), t)
unfolding require_session ◌>>=◌ read require
require_session-refused auth user_id id t h = rw h refl

sign_in-refused :
    (auth : Auth) (email password : Text) (remember_me : Bool) (t : Store)
    → admits_password auth password (account_row t (address_of email)) ≡ false
    → sign_in auth email password remember_me t ≡ (err (unauthorized "Unauthorized"), t)
unfolding sign_in ◌>>=◌ read require
sign_in-refused auth email password remember_me t h = rw h refl

-- After a call that disabled accounts, a request with an access token that names one of them is
-- refused with 401, whichever session the token names.
pub disabled-refused :
    (auth : Auth) (admin_id : ℕ) (ids : List ℕ) (s : Store) (n : ℕ) (t : Store) (cookie : Option ℕ)
    (user_id id : ℕ)
    → Returns (update_status admin_id ids disabled) s n t
    → access_ids auth cookie ≡ some (user_id, id)
    → one_of ids user_id ≡ true
    → require_user auth cookie t ≡ (err (unauthorized "Unauthorized"), t)
unfolding require_user ◌>>=◌ found
disabled-refused auth admin_id ids s n t cookie user_id id h named k = rw named (
    require_session-refused auth user_id id t (
      no_live_session ids t.now user_id id t.sessions k
        ((update_status-Switched admin_id ids disabled s n t h).signed_out refl)))

banned-admits_password :
    (auth : Auth) (password : Text) (u : User) (a : Account)
    → u.banned ≡ true
    → admits_password auth password (some (u, a)) ≡ false
banned-admits_password auth password u a h = ground arith

row-refused :
    (auth : Auth) (email password : Text) (t : Store) (u : User)
    → find (λ u. text_eq email u.email) t.users ≡ some u
    → u.banned ≡ true
    → admits_password auth password (account_row t email) ≡ false
row-refused auth email password t u there h =
    elim (Option-cases (find (λ a. a.user_id == u.id) t.accounts)) [
      | inl missing ↦ rw (admits_password, there, missing) refl
      | inr (a, row) ↦ rw (admits_password, there, row) (banned-admits_password auth password u a h)
    ]

-- After a call that disabled accounts, a sign-in with the address of one of them is refused with 401,
-- whatever the password.
pub disabled-sign_in :
    (auth : Auth) (admin_id : ℕ) (ids : List ℕ) (s : Store) (n : ℕ) (t : Store)
    (email password : Text) (remember_me : Bool) (u : User)
    → Returns (update_status admin_id ids disabled) s n t
    → find (λ u. text_eq (address_of email) u.email) t.users ≡ some u
    → chosen ids u ≡ true
    → sign_in auth email password remember_me t ≡ (err (unauthorized "Unauthorized"), t)
disabled-sign_in auth admin_id ids s n t email password remember_me u h there k =
    sign_in-refused auth email password remember_me t (
      row-refused auth (address_of email) password t u there (
        banned-find ids (λ u. text_eq (address_of email) u.email) s.users u (rw (sym users) there)
          k))
  where
    users : t.users ≡ update_where (chosen ids) (λ u. record u { banned = true }) s.users
    users = (update_status-Switched admin_id ids disabled s n t h).users
