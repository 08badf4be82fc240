-- ===== src/Identity/Settlement/Accounts.antt =====
-- The two ways to an account: its creation by an administrator, and the acceptance of an invitation.
use gnester_lite.Common.{
  none, ℕ, suc, ◌≤◌, ◌≡◌, ◌⊎◌, refl, ap, Bool, true, false, ◌==◌, some, List, [], ◌∷◌, find,
  count_where, update_where, Text, count_where-update_where-le, Bool-cases, Option-cases, inl, inr,
  arith, Failure, err, ok, not_found, run-bind, Follows-write, ◌⨾◌, flow, Follows-transaction,
  run-write, run-rest, ◌>>=◌, read, write, require, found, return, duplicate_key, trim,
}
use gnester_lite.Identity.Store.{User, Invitation, Store, random_value, text_eq, address_of}
use gnester_lite.Identity.Users.{
  public_user, insert_credentials, is_open_for, closing_links, account_creation, create_user,
}
use gnester_lite.Identity.Invitations.{
  accepting, revoke_invitation, is_available, get_invitation, acceptance, accept_invitation,
}
use gnester_lite.Identity.Settlement.{
  Settled, open_count, has_account, settling, Sound, text_eq-eq, fewer-Settled, revoking-Settled,
  lock-Sound,
}
use gnester_lite.Identity.Settlement.Handlers.{get_invitation-Sound}

-- The outcome of the two INSERTs of an account.
abbrev bumped : Store → Store
bumped s = record s { next_id = suc s.next_id }

abbrev with_account : Text → Text → Text → Store → Store
with_account name email password_hash s = record s {
  next_id = suc s.next_id;
  users =
      record {
        id = s.next_id;
        name = trim name;
        email = email;
        image = none;
        is_email_verified = false;
        roles = "user" ∷ [];
        banned = false;
        created_at = s.now;
      }
      ∷ s.users;
  accounts = record { user_id = s.next_id; password = some password_hash } ∷ s.accounts;
}

insert_credentials-known :
    (name email password_hash : Text) (s : Store)
    → has_account email s.users ≡ true
    → insert_credentials name email password_hash s ≡ (err duplicate_key, bumped s)
unfolding insert_credentials random_value ◌>>=◌ read require
insert_credentials-known name email password_hash s h = rw h refl

insert_credentials-new :
    (name email password_hash : Text) (s : Store)
    → has_account email s.users ≡ false
    → insert_credentials name email password_hash s
      ≡ (ok s.next_id, with_account name email password_hash s)
unfolding insert_credentials random_value ◌>>=◌ read require write return
insert_credentials-new name email password_hash s h = rw h refl

module _ (e : Text) where
  -- An account for an address that has no open invitation.
  with_account-Settled :
      (name email password_hash : Text) (s t : Store)
      → t.users ≡ (with_account name email password_hash s).users
      → open_count e t ≤ open_count e s
      → (text_eq e email ≡ true → open_count e t ≤ 0)
      → Settled e s
      → Settled e t
  with_account-Settled name email password_hash s t same fewer none_open h = record {
    single = omega (arith, h.single);
    closed = λ a. elim (Bool-cases (text_eq e email)) [
      | inl here ↦ none_open here
      | inr away ↦ omega (arith, h.closed (known away a))
    ];
  }
    where
      known : text_eq e email ≡ false → has_account e t.users ≡ true → has_account e s.users ≡ true
      known away a = ground (arith, ap (has_account e) same)

  -- The statement that closes the invitation `i` closes one more than the others.
  accepted_fewer :
      (q : Invitation → Bool) (i : Invitation) (rows : List Invitation) (now : ℕ)
      → is_open_for e i ≡ true
      → find q rows ≡ some i
      → suc (
          count_where (is_open_for e) (
            update_where
              (λ j. j.id == i.id)
              (λ j. record j { accepted_at = some now; updated_at = now })
              rows))
        ≤ count_where (is_open_for e) rows
  accepted_fewer q i [] now h found = ground arith
  accepted_fewer q i (j ∷ rows) now h found = elim (Bool-cases (q j)) [
    | inl hit ↦ let same : j ≡ i = ground arith in ground (arith, fewer rows, same)
    | inr miss ↦ ground (arith, accepted_fewer q i rows now h)
  ]
    where
      fewer :
          (rows : List Invitation)
          → count_where (is_open_for e) (
              update_where
                (λ j. j.id == i.id)
                (λ j. record j { accepted_at = some now; updated_at = now })
                rows)
            ≤ count_where (is_open_for e) rows
      fewer rows =
          count_where-update_where-le (is_open_for e) (λ j. j.id == i.id)
            (λ j. record j { accepted_at = some now; updated_at = now }) rows
            (λ j hit k. ground arith)

  closing_links-none :
      (email : Text) (rows : List Invitation) (now : ℕ)
      → count_where (is_open_for email) (
          update_where
            (is_open_for email)
            (λ i. record i { revoked_at = some now; updated_at = now })
            rows)
        ≤ 0
  closing_links-none email [] now = omega arith
  closing_links-none email (i ∷ rows) now = ground (arith, closing_links-none email rows now)

  account_creation-Sound :
      (name email password_hash : Text) → Sound e (account_creation name email password_hash)
  unfolding account_creation closing_links
  account_creation-Sound name email password_hash = record {
    run = λ s h. elim (Bool-cases (has_account email s.users)) [
      | inl known ↦
          run-bind (settling e) _ _ s s _
            (insert_credentials-known name email password_hash s known)
            (λ k. fewer-Settled e s _ refl (omega arith) k) h
      | inr new ↦
          run-bind (settling e) _ _ s s _ (insert_credentials-new name email password_hash s new)
            (run-write (settling e) _ _ s _
              (run-rest (settling e) s _ (linked s) (answered s.next_id)))
            h
    ];
  }
    where
      linked :
          (s : Store)
          → Settled e s
          → Settled e (closing_links email (with_account name email password_hash s))
      linked s h =
          with_account-Settled name email password_hash s
            (closing_links email (with_account name email password_hash s)) refl
            (count_where-update_where-le (is_open_for e) (is_open_for email)
              (λ i. record i { revoked_at = some s.now; updated_at = s.now }) s.invitations
              (λ i hit k. ground arith))
            (λ here. rw (text_eq-eq e email here) (closing_links-none email s.invitations s.now)) h

      answered :
          (id : ℕ)
          → Sound e (do
            row ← read λ s. find (λ (u : User). u.id == id) s.users
            u ← found row (not_found "Not Found")
            return (public_user u))
      answered id = search flow

  pub create_user-Sound :
      (name email password_hash : Text) → Sound e (create_user name email password_hash)
  unfolding create_user
  create_user-Sound name email password_hash =
      lock-Sound e _ _ _ (account_creation-Sound name (address_of email) password_hash)

  pub revoke_invitation-Sound : (id : ℕ) → Sound e (revoke_invitation id)
  unfolding revoke_invitation
  revoke_invitation-Sound id =
      Follows-transaction (settling e)
        (search flow ⨾ λ _. search flow ⨾ λ _. Follows-write (settling e) (revoking-Settled e id))

  module _ (digest : ℕ → ℕ) where
    get_invitation-cases :
        (token : ℕ) (s : Store)
        → ((x : Failure) × (get_invitation digest token s ≡ (err x, s)))
          ⊎ ((i : Invitation) × (get_invitation digest token s ≡ (ok i, s))
              × (find (λ i. i.token_hash == digest token) s.invitations ≡ some i)
              × (is_available s.now i ≡ true))
    unfolding get_invitation ◌>>=◌ read require found return
    get_invitation-cases token s =
        elim (Option-cases (find (λ i. i.token_hash == digest token) s.invitations)) [
          | inl missing ↦ inl (not_found "Invitation is unavailable", rw missing refl)
          | inr (i, there) ↦ elim (Bool-cases (is_available s.now i)) [
            | inl can ↦ inr (i, rw there (rw can refl), there, can)
            | inr cannot ↦ inl (not_found "Invitation is unavailable", rw there (rw cannot refl))
          ]
        ]

    -- The statements of an acceptance, where the address is new.
    accepting-Settled :
        (token : ℕ) (name password_hash : Text) (i : Invitation) (s : Store)
        → find (λ i. i.token_hash == digest token) s.invitations ≡ some i
        → is_available s.now i ≡ true
        → Settled e s
        → Settled e (accepting i.id (with_account name i.email password_hash s))
    unfolding accepting
    accepting-Settled token name password_hash i s there can h =
        with_account-Settled name i.email password_hash s
          (accepting i.id (with_account name i.email password_hash s)) refl
          (count_where-update_where-le (is_open_for e) (λ j. j.id == i.id)
            (λ j. record j { accepted_at = some s.now; updated_at = s.now }) s.invitations
            (λ j hit k. ground arith))
          (λ here. ground (
            arith,
            accepted_fewer (λ i. i.token_hash == digest token) i s.invitations s.now (ground arith)
                there,
            h.single,
          ))
          h

    acceptance-Sound :
        (token : ℕ) (name password_hash : Text)
        → Sound e (acceptance digest token name password_hash)
    unfolding acceptance write
    acceptance-Sound token name password_hash = record {
      run = λ s h. elim (get_invitation-cases token s) [
        | inl (x, failing) ↦ run-bind (settling e) _ _ s s _ failing (λ k. k) h
        | inr (i, there, row, can) ↦ run-bind (settling e) _ _ s s _ there (opened i s row can) h
      ];
    }
      where
        opened :
            (i : Invitation) (s : Store)
            → find (λ i. i.token_hash == digest token) s.invitations ≡ some i
            → is_available s.now i ≡ true
            → Settled e s
            → Settled e
                ((do
                  user_id ← insert_credentials name i.email password_hash
                  write (accepting i.id))
                  s).1
        opened i s row can h = elim (Bool-cases (has_account i.email s.users)) [
          | inl known ↦
              run-bind (settling e) _ _ s s _
                (insert_credentials-known name i.email password_hash s known)
                (λ k. fewer-Settled e s _ refl (omega arith) k) h
          | inr new ↦
              run-bind (settling e) _ _ s s _
                (insert_credentials-new name i.email password_hash s new)
                (accepting-Settled token name password_hash i s row can) h
        ]

    pub accept_invitation-Sound :
        (token : ℕ) (name password_hash : Text)
        → Sound e (accept_invitation digest token name password_hash)
    unfolding accept_invitation
    accept_invitation-Sound token name password_hash = get_invitation-Sound e digest token ⨾ λ i.
        lock-Sound e _ _ _ (acceptance-Sound token name password_hash)
