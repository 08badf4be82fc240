-- ===== src/Assistant/Configuration/Keys/Revocation.antt =====
-- What the revocation of a key leaves.
use gnester_lite.Common.{
  ℕ, ◌≡◌, refl, ap, sym, ◌∙◌, Bool, true, false, ◌&&◌, ◌==◌, Option, none, some, List, [], ◌∷◌,
  find, any, select_where, update_where, any-update_where, any-delete_where, Bool-cases, inl, inr,
  arith, ok, ◌>>=◌, write, return, found, Returns, bind-then, require-then, return-then,
  return-Returns, read-bind, write-bind, throw-Returns,
}
use gnester_lite.Assistant.Store.{
  Action, Answer, AuditEvent, Controller, Key, KeyModel, ModelChoice, Preference, key_of, success,
  Store, key_revoked, stopped, ErrorCode,
}
use gnester_lite.Assistant.Selection.{
  read_preference, default_of, is_model_available, available_key, available_keys,
}
use gnester_lite.Assistant.Generation.{cancel}
use gnester_lite.Assistant.Configuration.Audit.{
  event, failed_change, is_owned_key, owned_key, owned_row, missing_key,
}
use gnester_lite.Assistant.Configuration.Audit.Reports.{with_audit, change_configuration-Returns}
use gnester_lite.Assistant.Configuration.Preferences.{
  repairing, repairing_choice, repairing_preference, repairing_row, repair_default,
}
use gnester_lite.Assistant.Configuration.Preferences.Repair.{Usable, repairing-Usable}
use gnester_lite.Assistant.Configuration.Keys.{
  is_key, is_active_with, stopping_revoked, removing_key, revocation, cancel_answers, revoke_key,
}

owned_row-Returns :
    (user_id key_id : ℕ) (action : Option Action) (o : Option Key) (s : Store) (k : Key) (t : Store)
    → Returns (owned_row user_id key_id action o) s k t
    → (o ≡ some k) × (t ≡ s)
unfolding owned_row missing_key failed_change
owned_row-Returns user_id key_id none none s k t e = absurd (throw-Returns _ s k t e)
owned_row-Returns user_id key_id (some a) none s k t e =
    bind-then _ _ s k t e λ x v f g. absurd (throw-Returns _ v k t g)
owned_row-Returns user_id key_id action (some b) s k t e =
    return-then b s k t e λ same kept. (ap (λ (x : Key). some x) (sym same), kept)

-- An owned key that was returned is in the table, and the store is as it was.
pub owned_key-Returns :
    (user_id key_id : ℕ) (action : Option Action) (s : Store) (k : Key) (t : Store)
    → Returns (owned_key user_id key_id action) s k t
    → (find (is_owned_key user_id key_id) s.keys ≡ some k) × (t ≡ s)
unfolding owned_key
owned_key-Returns user_id key_id action s k t h =
    owned_row-Returns user_id key_id action (find (is_owned_key user_id key_id) s.keys) s k t
      (read-bind _ _ s k t h)

abbrev with_preferences : Store → List Preference → Store
with_preferences s rows = record s { preferences = rows }

repairing_choice_lem :
    (user_id : ℕ) (p : Preference) (o : Option ModelChoice) (s : Store)
    → repairing_choice user_id p o s
      ≡ with_preferences s (repairing_choice user_id p o s).preferences
unfolding repairing_choice repairing_row
repairing_choice_lem user_id p none s = refl
repairing_choice_lem user_id p (some m) s = elim (Bool-cases (is_model_available s user_id m)) [
  | inl can ↦ rw can refl
  | inr cannot ↦ rw cannot refl
]

repairing_preference_lem :
    (user_id : ℕ) (o : Option Preference) (s : Store)
    → repairing_preference user_id o s
      ≡ with_preferences s (repairing_preference user_id o s).preferences
unfolding repairing_preference
repairing_preference_lem user_id none s = refl
repairing_preference_lem user_id (some p) s = repairing_choice_lem user_id p p.default_model s

-- The repair of the default writes the preferences only.
pub repairing_lem :
    (user_id : ℕ) (s : Store)
    → repairing user_id s ≡ with_preferences s (repairing user_id s).preferences
unfolding repairing
repairing_lem user_id s = repairing_preference_lem user_id (read_preference s user_id) s

-- The transaction's effect and the answers that it returns.
revocation-Returns :
    (user_id key_id : ℕ) (s : Store) (rows : List Answer) (t : Store)
    → Returns (revocation user_id key_id) s rows t
    → (rows ≡ select_where (is_active_with user_id key_id) s.answers)
      × (t ≡ repairing user_id (removing_key user_id key_id (stopping_revoked user_id key_id s)))
unfolding revocation repair_default
revocation-Returns user_id key_id s rows t h =
    require-then _ _ _ s rows t (read-bind _ _ s rows t h) λ held h₁. return-Returns _ _ rows t (
      write-bind _ _ _ rows t
        (write-bind _ _ _ rows t (write-bind _ _ s rows t (read-bind _ _ s rows t h₁))))

-- What the cancellations do to the controllers.
abbrev aborting : List Answer → List Controller → List Controller
aborting [] rows = rows
aborting (a ∷ answers) rows =
    aborting answers
      (update_where (λ c. c.answer_id == a.id) (λ c. record c { is_aborted = true }) rows)

cancel_answers_lem :
    (answers : List Answer) (s : Store)
    → cancel_answers answers s ≡ (ok tt, record s { controllers = aborting answers s.controllers })
unfolding cancel_answers cancel ◌>>=◌ write return
cancel_answers_lem [] s = refl
cancel_answers_lem (a ∷ answers) s = cancel_answers_lem answers _

abbrev pub raised : Controller → Controller
raised c = record c { is_aborted = true }

abbrev pub is_of : List Answer → Controller → Bool
is_of answers c = any (λ a. c.answer_id == a.id) answers

update_where-none : (rows : List Controller) → rows ≡ update_where (is_of []) raised rows
update_where-none [] = refl
update_where-none (c ∷ rows) = ap (λ cs. c ∷ cs) (update_where-none rows)

-- Raising the signals of some answers and then those of others raises those of both.
update_where-raised :
    (a : Answer) (answers : List Answer) (rows : List Controller)
    → update_where (is_of answers) raised (update_where (λ c. c.answer_id == a.id) raised rows)
      ≡ update_where (is_of (a ∷ answers)) raised rows
update_where-raised a answers [] = refl
update_where-raised a answers (c ∷ rows) = elim (Bool-cases (c.answer_id == a.id)) [
  | inl mine ↦ elim (Bool-cases (is_of answers c)) [
    | inl other ↦ rw (mine, other) (ap (λ cs. raised c ∷ cs) (update_where-raised a answers rows))
    | inr alone ↦ rw (mine, alone) (ap (λ cs. raised c ∷ cs) (update_where-raised a answers rows))
  ]
  | inr others ↦ elim (Bool-cases (is_of answers c)) [
    | inl other ↦ rw (others, other) (ap (λ cs. raised c ∷ cs) (update_where-raised a answers rows))
    | inr none_of ↦ rw (others, none_of) (ap (λ cs. c ∷ cs) (update_where-raised a answers rows))
  ]
]

aborting_lem :
    (answers : List Answer) (rows : List Controller)
    → aborting answers rows ≡ update_where (is_of answers) raised rows
aborting_lem [] rows = update_where-none rows
aborting_lem (a ∷ answers) rows = aborting_lem answers _ ∙ update_where-raised a answers rows

-- An answer that a revocation stopped.
abbrev pub revoked_answer : ℕ → Answer → Answer
revoked_answer now a = record a {
  status = stopped;
  error_code = some ErrorCode.key_revoked;
  updated_at = now;
}

-- A revoked key: it and its catalog rows are gone; the answers are those from before, of which exactly
-- the active ones with the key are stopped and keep all else; the controllers are those from before,
-- of which exactly those of the answers stopped are aborted; and the default model is usable.
pub record Revoked (user_id key_id : ℕ) (s t : Store) : Type 0 where
  pub gone : any (is_key user_id key_id) t.keys ≡ false
  pub unlisted : any (λ km. km.key_id == key_id) t.key_models ≡ false
  pub idle : any (is_active_with user_id key_id) t.answers ≡ false
  pub stops :
      t.answers ≡ update_where (is_active_with user_id key_id) (revoked_answer s.now) s.answers
  pub cancelled :
      t.controllers
      ≡ update_where
          (is_of (select_where (is_active_with user_id key_id) s.answers))
          raised
          s.controllers
  pub usable : Usable t user_id (default_of (read_preference t user_id))

held :
    (user_id key_id : ℕ) (km : KeyModel) (keys : List Key) (k : Key)
    → find (is_owned_key user_id key_id) keys ≡ some k
    → (km.key_id == key_id) ≡ true
    → any (λ k. is_key user_id key_id k && k.id == km.key_id) keys ≡ true
held user_id key_id km [] k e h = ground arith
held user_id key_id km (x ∷ keys) k e h = ground (arith, held user_id key_id km keys k)

-- The store after the transaction of the revocation.
abbrev revoked : ℕ → ℕ → Store → Store
revoked user_id key_id s =
    repairing user_id (removing_key user_id key_id (stopping_revoked user_id key_id s))

-- The store after it was recorded and the answers were cancelled.
abbrev ended : ℕ → ℕ → AuditEvent → Store → Store
ended user_id key_id e s =
    let v = with_audit e (revoked user_id key_id s) in
    record v {
      controllers = aborting (select_where (is_active_with user_id key_id) s.answers) v.controllers;
    }

Usable-ended :
    (user_id key_id : ℕ) (e : AuditEvent) (s : Store) (o : Option ModelChoice)
    → Usable (revoked user_id key_id s) user_id o
    → Usable (ended user_id key_id e s) user_id o
unfolding is_model_available available_key available_keys
Usable-ended user_id key_id e s none h = tt
Usable-ended user_id key_id e s (some m) h = h

module _ (user_id key_id : ℕ) (e : AuditEvent) (s : Store) where
  revoked-keys :
      (revoked user_id key_id s).keys
      ≡ (removing_key user_id key_id (stopping_revoked user_id key_id s)).keys
  revoked-keys = ap (λ (x : Store). x.keys) (repairing_lem user_id _)

  revoked-key_models :
      (revoked user_id key_id s).key_models
      ≡ (removing_key user_id key_id (stopping_revoked user_id key_id s)).key_models
  revoked-key_models = ap (λ (x : Store). x.key_models) (repairing_lem user_id _)

  revoked-answers :
      (revoked user_id key_id s).answers
      ≡ (removing_key user_id key_id (stopping_revoked user_id key_id s)).answers
  revoked-answers = ap (λ (x : Store). x.answers) (repairing_lem user_id _)

  revoked-controllers :
      (revoked user_id key_id s).controllers
      ≡ (removing_key user_id key_id (stopping_revoked user_id key_id s)).controllers
  revoked-controllers = ap (λ (x : Store). x.controllers) (repairing_lem user_id _)

  ended-Revoked :
      (k : Key)
      → find (is_owned_key user_id key_id) s.keys ≡ some k
      → Revoked user_id key_id s (ended user_id key_id e s)
  unfolding removing_key stopping_revoked read_preference
  ended-Revoked k found = record {
    gone = rw revoked-keys (any-delete_where _ _ s.keys (λ r h. h));
    unlisted = rw revoked-key_models (
        any-delete_where (λ km. km.key_id == key_id)
          (λ km. any (λ k. is_key user_id key_id k && k.id == km.key_id) s.keys) s.key_models
          (λ km h. held user_id key_id km s.keys k found h));
    idle = rw revoked-answers (
        any-update_where (is_active_with user_id key_id) (is_active_with user_id key_id) _ s.answers
          (λ a h. ground arith) (λ a h. h));
    stops = rw revoked-answers refl;
    cancelled =
        aborting_lem (select_where (is_active_with user_id key_id) s.answers) _
        ∙ ap (update_where (is_of (select_where (is_active_with user_id key_id) s.answers)) raised)
            revoked-controllers;
    usable = Usable-ended user_id key_id e s _ (repairing-Usable user_id _);
  }

cancelled-ended :
    (user_id key_id : ℕ) (e : AuditEvent) (s v w z : Store) (rows : List Answer)
    → v ≡ s
    → w ≡ with_audit e z
    → rows ≡ select_where (is_active_with user_id key_id) v.answers
    → z ≡ revoked user_id key_id v
    → record w { controllers = aborting rows w.controllers } ≡ ended user_id key_id e s
cancelled-ended user_id key_id e s v w z rows same kept listed after_it =
    rw kept (rw listed (rw after_it (rw same refl)))

revoke_key-ended :
    (user_id key_id : ℕ) (s : Store) (x : Unit {0}) (t : Store)
    → Returns (revoke_key user_id key_id) s x t
    → (e : AuditEvent) × (k : Key) × (find (is_owned_key user_id key_id) s.keys ≡ some k)
      × (t ≡ ended user_id key_id e s)
unfolding revoke_key
revoke_key-ended user_id key_id s x t h = bind-then _ _ s x t h λ k v looked h₁.
    bind-then _ _ v x t h₁ λ rows w changed h₂.
      let (found, same) = owned_key-Returns user_id key_id _ s k v looked in
      let (z, done, kept) = change_configuration-Returns _ _ _ _ v rows w changed in
      let (listed, after_it) = revocation-Returns user_id key_id v rows z done in
      (
        event user_id key_revoked (key_of k.provider (some key_id)) success none,
        k,
        found,
        sym (ap (λ (y : _). y.1) h₂)
            ∙ ap (λ (y : _). y.1) (cancel_answers_lem rows w)
            ∙ cancelled-ended user_id key_id _ s v w z rows same kept listed after_it,
      )

-- After a revocation that returned, the account's table has the key no more and no catalog row of it.
-- Exactly the account's queued and generating answers with the key are stopped with the error of a
-- revoked key, keep their content and key, and no other answer is changed. Exactly the controllers
-- of the answers stopped are aborted, and each is still there. The account has no default model or
-- one that it can use.
pub revoke_key-Revoked :
    (user_id key_id : ℕ) (s : Store) (x : Unit {0}) (t : Store)
    → Returns (revoke_key user_id key_id) s x t
    → Revoked user_id key_id s t
revoke_key-Revoked user_id key_id s x t h =
    let (e, k, found, same) = revoke_key-ended user_id key_id s x t h in
    rw same (ended-Revoked user_id key_id e s k found)
