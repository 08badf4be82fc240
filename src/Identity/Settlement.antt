-- ===== src/Identity/Settlement.antt =====
-- The open invitations of an address beside its account: what user-management.service.ts has to keep
-- from one request to the next.
pub mod Handlers
pub mod Accounts
pub mod Runs
use gnester_lite.Common.{
  ℕ, suc, ◌+◌, ◌≤◌, ◌≡◌, refl, ap, Bool, true, false, not, ◌&&◌, ◌||◌, ◌==◌, leb, Option, none,
  some, List, [], ◌∷◌, find, any, count_where, update_where, Text, count_where-update_where-le,
  count_where-eq_zero, find_holds, Bool-cases, Option-cases, inl, inr, arith, Failure, Program,
  Preorder, Follows, Follows-write, ◌⨾◌, flow, Follows-transaction, Follows-catch, Follows-throw,
  Follows-finally, ◌>>=◌, ◌>>◌, read, write, require, found, return, duplicate_key,
}
use gnester_lite.Identity.Store.{User, Invitation, Store, random_value, text_eq, address_of}
use gnester_lite.Identity.Users.{
  UserStatus, require_admin_user, update_name, status_change, update_status, is_disabled,
  setting_status, ending_sessions, chosen, acquire_lock, release_lock, with_email_lock,
  insert_credentials, is_open, is_open_for, closing_links, account_creation, create_user,
}
use gnester_lite.Identity.Invitations.{
  invitation_lifetime, closing_expired, inserting_invitation, resending, revoking, accepting,
  revoke_invitation, invite, create_invitation, resend_invitation, get_invitation, acceptance,
  accept_invitation, open_row, is_available,
}

abbrev pub open_count : Text → Store → ℕ
open_count e s = count_where (is_open_for e) s.invitations

abbrev pub has_account : Text → List User → Bool
has_account e users = any (λ u. text_eq e u.email) users

-- What holds of one address between two requests.
pub record Settled (e : Text) (s : Store) : Type 0 where
  pub single : open_count e s ≤ 1
  pub closed : has_account e s.users ≡ true → open_count e s ≤ 0

abbrev pub settling : Text → Preorder Store
settling e = record {
  rel = λ s t. Settled e s → Settled e t;
  rel_refl = λ s h. h;
  rel_trans = λ s t v h k x. k (h x);
}

pub text_eq-eq : (a b : Text) → text_eq a b ≡ true → a ≡ b
text_eq-eq [] [] h = refl
text_eq-eq [] (b ∷ bs) h = absurd (cc h)
text_eq-eq (a ∷ as') [] h = absurd (cc h)
text_eq-eq (a ∷ as') (b ∷ bs) h = ground (arith, text_eq-eq as' bs)

-- A statement that adds no account and opens no invitation.
pub fewer-Settled :
    (e : Text) (s t : Store)
    → has_account e t.users ≡ has_account e s.users
    → open_count e t ≤ open_count e s
    → Settled e s
    → Settled e t
fewer-Settled e s t same fewer h = record {
  single = omega (arith, h.single);
  closed = λ a. omega (arith, h.closed (cc (a, same)));
}

module _ (e : Text) where
  abbrev pub Sound : {A : Type 0} → Program Store A → Type 0
  Sound m = Follows (settling e) m

  pub has_account-update_where :
      (p : User → Bool) (f : User → User) (users : List User)
      → ((u : User) → (f u).email ≡ u.email)
      → has_account e (update_where p f users) ≡ has_account e users
  has_account-update_where p f [] k = refl
  has_account-update_where p f (u ∷ users) k = elim (Bool-cases (p u)) [
    | inl hit ↦ simp (hit, k u, has_account-update_where p f users k) refl
    | inr miss ↦ simp (miss, has_account-update_where p f users k) refl
  ]

  -- A statement that closes the rows it matches.
  closing-Settled :
      (p : Invitation → Bool) (f : Invitation → Invitation) (s : Store)
      → ((i : Invitation) → is_open_for e (f i) ≡ true → is_open_for e i ≡ true)
      → Settled e s
      → Settled e (record s { invitations = update_where p f s.invitations })
  closing-Settled p f s k =
      fewer-Settled e s _ refl
        (count_where-update_where-le (is_open_for e) p f s.invitations (λ i hit. k i))

  pub closing_links-Settled :
      (email : Text) (s : Store) → Settled e s → Settled e (closing_links email s)
  unfolding closing_links
  closing_links-Settled email s =
      closing-Settled (is_open_for email)
        (λ i. record i { revoked_at = some s.now; updated_at = s.now }) s (λ i h. ground arith)

  pub closing_expired-Settled :
      (email : Text) (s : Store) → Settled e s → Settled e (closing_expired email s)
  unfolding closing_expired
  closing_expired-Settled email s =
      closing-Settled (λ i. is_open_for email i && leb i.expires_at s.now)
        (λ i. record i { revoked_at = some s.now; updated_at = s.now }) s (λ i h. ground arith)

  pub revoking-Settled : (id : ℕ) (s : Store) → Settled e s → Settled e (revoking id s)
  unfolding revoking
  revoking-Settled id s =
      closing-Settled (λ i. i.id == id)
        (λ i. record i { revoked_at = some s.now; updated_at = s.now }) s (λ i h. ground arith)

  pub resending-Settled : (id hash : ℕ) (s : Store) → Settled e s → Settled e (resending id hash s)
  unfolding resending
  resending-Settled id hash s =
      closing-Settled (λ i. i.id == id)
        (λ i. record i {
          token_hash = hash;
          expires_at = s.now + invitation_lifetime;
          updated_at = s.now;
        })
        s (λ i h. h)

  pub setting_status-Settled :
      (ids : List ℕ) (status : UserStatus) (s : Store)
      → Settled e s
      → Settled e (setting_status ids status s)
  unfolding setting_status
  setting_status-Settled ids status s =
      fewer-Settled e s _
        (has_account-update_where (chosen ids) (λ u. record u { banned = is_disabled status })
          s.users (λ u. refl))
        (omega arith)

  pub random_value-Sound : Sound random_value
  unfolding random_value
  random_value-Sound = record { run = λ s h. fewer-Settled e s _ refl (omega arith) h }

  acquire_lock-Sound : (email : Text) → Sound (acquire_lock email)
  unfolding acquire_lock
  acquire_lock-Sound email = search flow ⨾ λ _.
      Follows-write (settling e) (λ s h. fewer-Settled e s _ refl (omega arith) h) ⨾ λ _.
      search flow ⨾ λ _.
      Follows-write (settling e) (λ s h. fewer-Settled e s _ refl (omega arith) h)

  release_lock-Sound : (email : Text) → Sound (release_lock email)
  unfolding release_lock
  release_lock-Sound email =
      Follows-write (settling e) (λ s h. fewer-Settled e s _ refl (omega arith) h)

  pub lock-Sound :
      {A : Type 0} (email : Text) (translate : Failure → Failure) (m : Program Store A)
      → Sound m
      → Sound (with_email_lock email translate m)
  unfolding with_email_lock
  lock-Sound {A} email translate m h =
      Follows-finally (settling e)
        (Follows-catch (settling e)
          (acquire_lock-Sound email ⨾ λ _. Follows-transaction (settling e) h)
          (λ x. Follows-throw (settling e) A _))
        (release_lock-Sound email)

  -- An invitation for an address without an account and without an open invitation.
  pub inserting-Settled :
      (id : ℕ) (email : Text) (hash admin_id : ℕ) (s : Store)
      → has_account email s.users ≡ false
      → any (is_open_for email) s.invitations ≡ false
      → Settled e s
      → Settled e (inserting_invitation id email hash admin_id s)
  unfolding inserting_invitation
  inserting-Settled id email hash admin_id s unknown free h = elim (Bool-cases (text_eq e email)) [
    | inl here ↦
        let same = text_eq-eq e email here in
        let none_open : open_count e s ≡ 0 =
          rw same (count_where-eq_zero (is_open_for email) s.invitations free) in
        record { single = ground (arith, none_open); closed = λ a. absurd (cc (a, unknown, same)) }
    | inr away ↦ record {
      single = ground (arith, h.single);
      closed = λ a. ground (arith, h.closed a);
    }
  ]
