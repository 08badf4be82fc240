-- ===== src/Identity/Invitations/Once.antt =====
-- An invitation that was accepted, and its token afterwards.
use gnester_lite.Common.{
  ℕ, ◌≡◌, refl, ap, sym, ◌∙◌, Bool, false, ◌==◌, ==-refl, some, find, update_where,
  find-update_where, Text, err, not_found, Preorder, Follows, ◌>>=◌, read, require, found, return,
  Follows-write, ◌⨾◌, flow, Returns, bind-then, found-then, read-bind, require-then, return-then,
  write-Returns, transaction-Returns, catch-Returns, finally-Returns, throw-Returns,
}
use gnester_lite.Identity.Store.{Invitation, Store, random_value}
use gnester_lite.Identity.Users.{
  acquire_lock, as_existing, insert_credentials, with_email_lock, release_lock,
}
use gnester_lite.Identity.Invitations.{
  get_invitation, is_available, accepting, acceptance, accept_invitation,
}

-- Programs that leave the invitations alone.
abbrev keeping : Preorder Store
keeping = record {
  rel = λ s t. t.invitations ≡ s.invitations;
  rel_refl = λ s. refl;
  rel_trans = λ s t u h k. k ∙ h;
}

random_value-Kept : Follows keeping random_value
unfolding random_value
random_value-Kept = record { run = λ s. refl }

insert_credentials-Kept :
    (name email password_hash : Text)
    → Follows keeping (insert_credentials name email password_hash)
unfolding insert_credentials
insert_credentials-Kept name email password_hash = random_value-Kept ⨾ λ _.
    search flow ⨾ λ _. search flow ⨾ λ _. Follows-write keeping (λ s. refl) ⨾ λ _. search flow

module _ (digest : ℕ → ℕ) where
  abbrev of_token : ℕ → Invitation → Bool
  of_token token i = i.token_hash == digest token

  get_invitation-found :
      (token : ℕ) (s : Store) (i : Invitation) (t : Store)
      → Returns (get_invitation digest token) s i t
      → (find (of_token token) s.invitations ≡ some i) × (t ≡ s)
  unfolding get_invitation
  get_invitation-found token s i t h = found-then _ _ _ s i t (read-bind _ _ s i t h) λ j there h₁.
      require-then _ _ _ s i t (read-bind _ _ s i t h₁) λ can h₂.
        return-then _ s i t h₂
          λ same kept. (there ∙ ap (λ (x : Invitation). some x) (sym same), kept)

  acceptance-row :
      (token : ℕ) (name password_hash : Text) (s : Store) (x : Unit {0}) (t : Store)
      → Returns (acceptance digest token name password_hash) s x t
      → (i : Invitation) × (n : ℕ) × (find (of_token token) s.invitations ≡ some i)
        × (t.invitations
            ≡ update_where
                (λ j. j.id == i.id)
                (λ j. record j { accepted_at = some n; updated_at = n })
                s.invitations)
  unfolding acceptance accepting
  acceptance-row token name password_hash s x t h = bind-then _ _ s x t h λ i v got h₁.
      bind-then _ _ v x t h₁ λ user_id w made h₂.
        let (there, same) = get_invitation-found token s i v got in
        let kept = (insert_credentials-Kept name i.email password_hash).run v in
        (
          i,
          w.now,
          there,
          ap (λ (y : Store). y.invitations) (write-Returns _ w x t h₂)
              ∙ ap
                  (update_where (λ j. j.id == i.id)
                    (λ j. record j { accepted_at = some w.now; updated_at = w.now }))
                  (sym (ap (λ (r : _). r.1.invitations) made)
                    ∙ kept
                    ∙ ap (λ (y : Store). y.invitations) same),
        )

  -- A token whose invitation is closed.
  get_invitation-closed :
      (token : ℕ) (s : Store) (i : Invitation)
      → find (of_token token) s.invitations ≡ some i
      → is_available s.now i ≡ false
      → get_invitation digest token s ≡ (err (not_found "Invitation is unavailable"), s)
  unfolding get_invitation ◌>>=◌ read require found return
  get_invitation-closed token s i there closed = rw (there, closed) refl

  accepted_row :
      (token n : ℕ) (i : Invitation) (s t : Store)
      → find (of_token token) s.invitations ≡ some i
      → t.invitations
        ≡ update_where
            (λ j. j.id == i.id)
            (λ j. record j { accepted_at = some n; updated_at = n })
            s.invitations
      → find (of_token token) t.invitations
        ≡ some (record i { accepted_at = some n; updated_at = n })
  accepted_row token n i s t there same = rw same (
      find-update_where (of_token token) (λ j. j.id == i.id)
        (λ j. record j { accepted_at = some n; updated_at = n }) s.invitations (λ j. refl)
      ∙ rw (there, ==-refl i.id) refl)

  acquired-Kept : (email : Text) → Follows keeping (acquire_lock email)
  unfolding acquire_lock
  acquired-Kept email = search flow ⨾ λ _.
      Follows-write keeping (λ s. refl) ⨾ λ _. search flow ⨾ λ _. Follows-write keeping (λ s. refl)

  -- The acceptance inside the lock.
  inside :
      (email name password_hash : Text) (token : ℕ) (s : Store) (x : Unit {0}) (t : Store)
      → Returns
          (with_email_lock email as_existing (acceptance digest token name password_hash))
          s
          x
          t
      → (i : Invitation) × (n : ℕ) × (find (of_token token) t.invitations
          ≡ some (record i { accepted_at = some n; updated_at = n }))
  unfolding with_email_lock release_lock
  inside email name password_hash token s x t h =
      let (v, u, worked, released) = finally-Returns _ _ s x t h in
      let direct = catch-Returns _ _ s x v (λ e w r. throw-Returns _ w x v r) worked in
      bind-then _ _ s x v direct λ y w acquired h₁.
        let (i, n, there, same) =
          acceptance-row token name password_hash w x v (transaction-Returns _ w x v h₁) in
        (
          i,
          n,
          accepted_row token n i w t there
              (ap (λ (z : Store). z.invitations) (write-Returns _ v u t released) ∙ same),
        )

  -- After an acceptance that returned, the token is refused with 404, and so is a second acceptance.
  pub accept_invitation-once :
      (token : ℕ) (name password_hash : Text) (s : Store) (x : Unit {0}) (t : Store)
      → Returns (accept_invitation digest token name password_hash) s x t
      → (get_invitation digest token t ≡ (err (not_found "Invitation is unavailable"), t))
        × ((other_name other_hash : Text)
            → accept_invitation digest token other_name other_hash t
              ≡ (err (not_found "Invitation is unavailable"), t))
  unfolding accept_invitation ◌>>=◌
  accept_invitation-once token name password_hash s x t h =
      bind-then (get_invitation digest token) _ s x t h λ i v got h₁.
        let (j, n, row) = inside i.email name password_hash token v x t h₁ in
        let refused = get_invitation-closed token t _ row refl in
        (refused, λ other_name other_hash. rw refused refl)
