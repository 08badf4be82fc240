-- ===== src/Identity/Sessions/Reuse.antt =====
-- The rotation of a session's refresh token, and a second use of the token that it replaced.
use gnester_lite.Common.{
  suc, ◌<◌, ◌≡◌, refl, sym, Bool, true, false, ◌==◌, leb, if◌then◌else◌, Option, none, some, find,
  Bool-cases, inl, inr, arith, err, unauthorized, Returns, ==_iff, find_holds, write-bind,
  bind-then, found-then, read-bind, return-then, throw-Returns, transaction-Returns, return, throw,
  write, read, found, transaction, ◌>>=◌, ◌>>◌, find-update_where,
}
use gnester_lite.Identity.Store.{User, Session, Store, random_value, rotating}
use gnester_lite.Identity.Sessions.{
  RefreshToken, Auth, SessionUser, Cookies, Rotation, is_session, holds_digest, rotated,
  rotating_session, cookies, session_user, replace_token, rotate_session, rotate_row, rotation,
  refreshed, refresh, deleting_session,
}

module _ (auth : Auth) where
  -- A rotation that took place.
  record Rotates (previous next : RefreshToken) (s : Store) (r : Rotation) (t : Store)
      : Type 0 where
    pub session : Session
    pub found_it : find (is_session previous.session_id) s.sessions ≡ some session
    pub current : holds_digest (auth.digest previous) session.token ≡ true
    pub unexpired : leb session.expires_at s.now ≡ false
    pub owner : r.user_id ≡ session.user_id
    pub rotates : t ≡ rotating_session previous.session_id (auth.digest next) s

  replace_token-some :
      (previous next : RefreshToken) (session : Session) (b : Bool) (s : Store) (r : Rotation)
      (t : Store)
      → Returns (replace_token auth previous next session b) s (some r) t
      → (b ≡ false)
        × (r.user_id ≡ session.user_id)
        × (t ≡ rotating_session previous.session_id (auth.digest next) s)
  unfolding replace_token
  replace_token-some previous next session true s r t h =
      return-then _ _ (some r) t (write-bind _ _ s (some r) t h) λ same kept. absurd (cc same)
  replace_token-some previous next session false s r t h =
      return-then _ _ (some r) t (write-bind _ _ s (some r) t h) λ same kept. (refl, cc same, kept)

  rotate_session-some :
      (previous next : RefreshToken) (session : Session) (s : Store) (r : Rotation) (t : Store)
      → find (is_session previous.session_id) s.sessions ≡ some session
      → holds_digest (auth.digest previous) session.token ≡ true
      → Returns (rotate_session auth previous next session) s (some r) t
      → Rotates previous next s r t
  unfolding rotate_session
  rotate_session-some previous next session s r t e current h =
      let (unexpired, owner, rotates) =
        replace_token-some previous next session _ s r t (read-bind _ _ s (some r) t h) in
      record {
        session = session;
        found_it = e;
        current = current;
        unexpired = unexpired;
        owner = owner;
        rotates = rotates;
      }

  choice-some :
      (previous next : RefreshToken) (session : Session) (b : Bool) (s : Store) (r : Rotation)
      (t : Store)
      → Returns (if b then rotate_session auth previous next session else return none) s (some r) t
      → (b ≡ true) × Returns (rotate_session auth previous next session) s (some r) t
  choice-some previous next session true s r t h = (refl, h)
  choice-some previous next session false s r t h =
      return-then none s (some r) t h λ same kept. absurd (cc same)

  rotate_row-some :
      (previous next : RefreshToken) (row : Option Session) (s : Store) (r : Rotation) (t : Store)
      → find (is_session previous.session_id) s.sessions ≡ row
      → Returns (rotate_row auth previous next row) s (some r) t
      → Rotates previous next s r t
  unfolding rotate_row
  rotate_row-some previous next none s r t e h =
      return-then none s (some r) t h λ same kept. absurd (cc same)
  rotate_row-some previous next (some session) s r t e h =
      let (current, rest) = choice-some previous next session _ s r t h in
      rotate_session-some previous next session s r t e current rest

  rotation-some :
      (previous next : RefreshToken) (s : Store) (r : Rotation) (t : Store)
      → Returns (rotation auth previous next) s (some r) t
      → Rotates previous next s r t
  unfolding rotation
  rotation-some previous next s r t h =
      rotate_row-some previous next (find (is_session previous.session_id) s.sessions) s r t refl
        (read-bind _ _ s (some r) t (transaction-Returns _ s (some r) t h))

  refreshed-Returns :
      (next : RefreshToken) (r : Rotation) (row : Option User) (s : Store)
      (x : SessionUser × Cookies) (t : Store)
      → Returns (refreshed auth next r row) s x t
      → (u : User) × (row ≡ some u)
        × (u.banned ≡ false)
        × (x ≡ (session_user u, cookies auth u.id next r.is_remembered))
        × (t ≡ s)
  unfolding refreshed
  refreshed-Returns next r none s x t h =
      bind-then _ _ s x t h λ y v a b. absurd (throw-Returns _ v x t b)
  refreshed-Returns next r (some u) s x t h = go u.banned refl h
    where
      go :
          (b : Bool)
          → u.banned ≡ b
          → Returns
              (if b
                then write (deleting_session next.session_id) >> throw (unauthorized "Unauthorized")
                else return (session_user u, cookies auth u.id next r.is_remembered))
              s
              x
              t
          → (w : User) × (some u ≡ some w)
            × (w.banned ≡ false)
            × (x ≡ (session_user w, cookies auth w.id next r.is_remembered))
            × (t ≡ s)
      go true e k = bind-then _ _ s x t k λ y v a b. absurd (throw-Returns _ v x t b)
      go false e k = return-then _ s x t k λ same kept. (u, refl, e, same, kept)

  -- The two states of a refresh: with the secret given out, and with the session rotated.
  abbrev next_token : RefreshToken → Store → RefreshToken
  next_token previous s = record { session_id = previous.session_id; secret = s.next_id }

  abbrev bumped : Store → Store
  bumped s = record s { next_id = suc s.next_id }

  refresh-Returns :
      (previous : RefreshToken) (s : Store) (x : SessionUser × Cookies) (t : Store)
      → Returns (refresh auth (some previous)) s x t
      → (r : Rotation) × (u : User) × Rotates previous (next_token previous s) (bumped s) r t
        × (find (λ u. u.id == r.user_id) t.users ≡ some u)
        × (u.banned ≡ false)
        × (x ≡ (session_user u, cookies auth u.id (next_token previous s) r.is_remembered))
  unfolding refresh random_value ◌>>=◌ found
  refresh-Returns previous s x t h =
      bind-then (rotation auth previous (next_token previous s)) _ (bumped s) x t h
        λ outcome w turned h₁. found-then _ _ _ w x t h₁ λ r there h₂.
          let (u, row, admitted, made, kept) =
            refreshed-Returns (next_token previous s) r _ w x t (read-bind _ _ w x t h₂) in
          (
            r,
            u,
            rw kept (
                rotation-some previous (next_token previous s) (bumped s) r w
                  (rw (sym there) turned)),
            rw kept row,
            admitted,
            made,
          )

  -- The row of the session after a rotation.
  rotated_row :
      (previous next : RefreshToken) (s : Store) (r : Rotation) (t : Store)
      → Rotates previous next s r t
      → (session : Session) × (find (is_session previous.session_id) t.sessions ≡ some session)
        × (session.token ≡ rotating (auth.digest next))
  unfolding rotating_session
  rotated_row previous next s r t h = (
    rotated (auth.digest next) s.now h.session,
    rw h.rotates (
        rw
          (find-update_where (is_session previous.session_id) (is_session previous.session_id)
            (rotated (auth.digest next) s.now) s.sessions (λ session. refl))
          (rw h.found_it (
            rw (find_holds (is_session previous.session_id) s.sessions h.session h.found_it)
              refl))),
    refl,
  )

  -- A token whose digest is not the session's.
  refresh-stale :
      (previous : RefreshToken) (s : Store) (session : Session)
      → find (is_session previous.session_id) s.sessions ≡ some session
      → holds_digest (auth.digest previous) session.token ≡ false
      → refresh auth (some previous) s ≡ (err (unauthorized "Unauthorized"), bumped s)
  unfolding refresh random_value ◌>>=◌ found rotation rotate_row transaction read return
  refresh-stale previous s session there stale = rw there (rw stale refl)

  other_digest :
      (a b : RefreshToken)
      → ((a b : RefreshToken)
          → a.session_id ≡ b.session_id
          → auth.digest a ≡ auth.digest b
          → a.secret ≡ b.secret)
      → a.session_id ≡ b.session_id
      → a.secret < b.secret
      → (auth.digest b == auth.digest a) ≡ false
  other_digest a b injective together h = elim (Bool-cases (auth.digest b == auth.digest a)) [
    | inl same ↦
        let e = injective a b together (sym ((==_iff (auth.digest b) (auth.digest a)).0 same)) in
        absurd (omega (arith, e, h))
    | inr differ ↦ differ
  ]

  -- What a refresh that returned has done: the session holds the digest of the token that it handed
  -- out, the user is not banned, and the token that was sent is refused from then on, which leaves
  -- the session as it is.
  pub record Refreshed (previous : RefreshToken) (x : SessionUser × Cookies) (t : Store)
      : Type 0 where
    pub session : Session
    pub row : find (is_session previous.session_id) t.sessions ≡ some session
    pub current : session.token ≡ rotating (auth.digest x.1.refresh)
    pub same_session : x.1.refresh.session_id ≡ previous.session_id
    pub refused :
        refresh auth (some previous) t
        ≡ (err (unauthorized "Unauthorized"), record t { next_id = suc t.next_id })

  -- If tokens of one session with one digest have one secret, and the secret of the token that is sent
  -- was given out before, then after a refresh that returned the session is there and holds the digest
  -- of the token handed out, which names the same session; and a second refresh with the token that was
  -- sent is refused with 401, and leaves the store as it is but for the fresh secret drawn.
  pub refresh-Refreshed :
      (previous : RefreshToken) (s : Store) (x : SessionUser × Cookies) (t : Store)
      → ((a b : RefreshToken)
          → a.session_id ≡ b.session_id
          → auth.digest a ≡ auth.digest b
          → a.secret ≡ b.secret)
      → previous.secret < s.next_id
      → Returns (refresh auth (some previous)) s x t
      → Refreshed previous x t
  refresh-Refreshed previous s x t injective known h =
      let (r, u, turn, row, admitted, made) = refresh-Returns previous s x t h in
      let (session, there, token) =
        rotated_row previous (next_token previous s) (bumped s) r t turn in
      record {
        session = session;
        row = there;
        current = rw made token;
        same_session = rw made refl;
        refused =
            refresh-stale previous t session there
              (rw token (other_digest previous (next_token previous s) injective refl known));
      }
