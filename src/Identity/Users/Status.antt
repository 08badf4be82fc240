-- ===== src/Identity/Users/Status.antt =====
-- What a change of the accounts' status does.
use gnester_lite.Common.{
  ℕ, ◌≤◌, ◌≡◌, refl, ap, sym, ◌∙◌, Bool, true, false, not, ◌&&◌, leb, List, [], ◌∷◌, any, length,
  All, select_where, update_where, any-delete_where, Bool-cases, inl, inr, arith, Returns,
  bind-then, read-bind, require-then, return-Returns, write-bind, transaction-Returns,
  write-Returns, write, when, if◌then◌else◌,
}
use gnester_lite.Identity.Store.{User, Store}
use gnester_lite.Identity.Users.{
  UserStatus, active, disabled, is_disabled, one_of, unique_from, unique, chosen, is_protected,
  may_change, setting_status, ending_sessions, status_change, update_status,
}

one_of_ap : (ids : List ℕ) (i j : ℕ) → i ≡ j → one_of ids i ≡ one_of ids j
one_of_ap ids i j e = ap (one_of ids) e

-- The distinct identifiers are those that were given.
one_of-unique_from :
    (seen ids : List ℕ) (i : ℕ)
    → one_of (unique_from seen ids) i ≡ (one_of ids i && not (one_of seen i))
unfolding unique_from
one_of-unique_from seen [] i = refl
one_of-unique_from seen (id ∷ ids) i = elim (Bool-cases (one_of seen id)) [
  | inl again ↦ rw again (ground (arith, again, one_of_ap seen id i, one_of-unique_from seen ids i))
  | inr new ↦
      rw new (ground (arith, new, one_of_ap seen id i, one_of-unique_from (id ∷ seen) ids i))
]

pub one_of-unique : (ids : List ℕ) (i : ℕ) → one_of (unique ids) i ≡ one_of ids i
one_of-unique ids i = ground (arith, one_of-unique_from [] ids i)

-- A change of status: every account that was asked for gets it and no other account changes, none of
-- them is the administrator's own or an administrator's, and a disabled account has no session.
pub record Switched (admin_id : ℕ) (ids : List ℕ) (status : UserStatus) (s : Store) (n : ℕ)
    (t : Store) : Type 0 where
  pub counted : n ≡ length (unique ids)
  pub bounded : n ≤ 100
  pub users :
      t.users ≡ update_where (chosen ids) (λ u. record u { banned = is_disabled status }) s.users
  pub spared : All (λ u. is_protected admin_id u ≡ true → chosen ids u ≡ false) s.users
  pub signed_out :
      is_disabled status ≡ true → any (λ session. one_of ids session.user_id) t.sessions ≡ false

spared-select_where :
    (admin_id : ℕ) (p : User → Bool) (users : List User)
    → any (is_protected admin_id) (select_where p users) ≡ false
    → All (λ u. is_protected admin_id u ≡ true → p u ≡ false) users
spared-select_where admin_id p [] h = tt
spared-select_where admin_id p (u ∷ users) h = elim (Bool-cases (p u)) [
  | inl hit ↦ (λ k. ground arith, spared-select_where admin_id p users (ground arith))
  | inr miss ↦ (λ k. miss, spared-select_where admin_id p users (ground arith))
]

when-Returns :
    (b : Bool) (f : Store → Store) (s : Store) (u : Unit {0}) (t : Store)
    → Returns (when b (write f)) s u t
    → t ≡ (if b then f s else s)
unfolding when
when-Returns true f s u t h = write-Returns f s u t h
when-Returns false f s u t h = sym (ap (λ (r : _). r.1) h)

-- The store after the change.
abbrev switched : List ℕ → UserStatus → Store → Store
switched ids status s =
    let v = setting_status ids status s in if is_disabled status then ending_sessions ids v else v

update_status-Returns :
    (admin_id : ℕ) (ids : List ℕ) (status : UserStatus) (s : Store) (n : ℕ) (t : Store)
    → Returns (update_status admin_id ids status) s n t
    → (leb (length (unique ids)) 100 ≡ true)
      × (may_change admin_id (unique ids) s ≡ true)
      × (n ≡ length (unique ids))
      × (t ≡ switched (unique ids) status s)
unfolding update_status status_change
update_status-Returns admin_id ids status s n t h = require-then _ _ _ s n t h λ few h₁.
    require-then _ _ _ s n t (read-bind _ _ s n t (transaction-Returns _ s n t h₁)) λ allowed h₂.
      bind-then _ _ _ n t (write-bind _ _ s n t h₂) λ u v ended h₃.
        let (counted, same) = return-Returns _ v n t h₃ in
        (
          ground arith,
          allowed,
          counted,
          same ∙ when-Returns (is_disabled status) (ending_sessions (unique ids)) _ u v ended,
        )

update_where_ext :
    {R : Type 0} (p q : R → Bool) (f : R → R) (rs : List R)
    → ((r : R) → p r ≡ q r)
    → update_where p f rs ≡ update_where q f rs
update_where_ext p q f [] k = refl
update_where_ext p q f (r ∷ rs) k = rw (k r) (rw (update_where_ext p q f rs k) refl)

switched-users :
    (ids : List ℕ) (status : UserStatus) (s : Store)
    → (switched (unique ids) status s).users
      ≡ update_where (chosen ids) (λ u. record u { banned = is_disabled status }) s.users
unfolding setting_status ending_sessions
switched-users ids active s =
    update_where_ext (chosen (unique ids)) (chosen ids) _ s.users (λ u. one_of-unique ids u.id)
switched-users ids disabled s =
    update_where_ext (chosen (unique ids)) (chosen ids) _ s.users (λ u. one_of-unique ids u.id)

switched-sessions :
    (ids : List ℕ) (status : UserStatus) (s : Store)
    → is_disabled status ≡ true
    → any (λ session. one_of ids session.user_id) (switched (unique ids) status s).sessions ≡ false
unfolding setting_status ending_sessions
switched-sessions ids active s h = absurd (cc h)
switched-sessions ids disabled s h =
    any-delete_where (λ session. one_of ids session.user_id)
      (λ session. one_of (unique ids) session.user_id) s.sessions
      (λ session k. one_of-unique ids session.user_id ∙ k)

spared_users :
    (admin_id : ℕ) (ids : List ℕ) (users : List User)
    → All (λ u. is_protected admin_id u ≡ true → chosen (unique ids) u ≡ false) users
    → All (λ u. is_protected admin_id u ≡ true → chosen ids u ≡ false) users
spared_users admin_id ids [] h = tt
spared_users admin_id ids (u ∷ users) (h, k) =
    (λ e. sym (one_of-unique ids u.id) ∙ h e, spared_users admin_id ids users k)

-- A change of status that returned reports the number of distinct accounts asked for, at most 100;
-- the accounts asked for have the status and the users' table is as it was otherwise; none of them is
-- the caller or an administrator; and if they are disabled, no session of theirs is left.
pub update_status-Switched :
    (admin_id : ℕ) (ids : List ℕ) (status : UserStatus) (s : Store) (n : ℕ) (t : Store)
    → Returns (update_status admin_id ids status) s n t
    → Switched admin_id ids status s n t
update_status-Switched admin_id ids status s n t h =
    let (few, allowed, counted, same) = update_status-Returns admin_id ids status s n t h in
    record {
      counted = counted;
      bounded = rw counted (ground arith);
      users = rw same (switched-users ids status s);
      spared =
          spared_users admin_id ids s.users
            (spared-select_where admin_id (chosen (unique ids)) s.users (ground arith));
      signed_out = λ e. rw same (switched-sessions ids status s e);
    }
