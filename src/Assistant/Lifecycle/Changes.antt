-- ===== src/Assistant/Lifecycle/Changes.antt =====
-- The life cycle of an answer under the changes of an account's configuration.
use gnester_lite.Common.{
  ℕ, ◌≡◌, refl, Bool, Option, none, some, List, [], ◌∷◌, arith, Text, Failure, Result, Program,
  ◌>>=◌, write, ◌⨾◌, Follows-transaction, Follows-catch, Follows-throw, Follows-when, flow,
  Option-cases, inl, inr,
}
use gnester_lite.Assistant.Store.{
  Answer, Key, Preference, Provider, KeyError, Store, ModelChoice, Action, Target, AuditEvent,
}
use gnester_lite.Assistant.Selection.{read_preference}
use gnester_lite.Assistant.Configuration.Audit.{
  record_audit, record_failed_change, failed_change, audited, change_configuration, missing_key,
  owned_row, owned_key,
}
use gnester_lite.Assistant.Configuration.Preferences.{
  require_backups, require_valid_preferences, writing_preferences, save_preferences,
  consent_to_openai, consenting, repairing, repairing_preference, repairing_choice, repairing_row,
  repair_default, switching, stopping_queued, update_model,
}
use gnester_lite.Assistant.Configuration.Catalog.{
  Providers, call, writing_catalog, recovering, refresh_models, retiring, retire_model,
}
use gnester_lite.Assistant.Configuration.Keys.{
  Candidate, existing_key, key_id_of, storing_key, replacing_key, inserting_key,
  ensuring_preference, defaulting, ordering, order_key, updating_key, update_key, removing_pending,
  finish_key_deletion, retracting_key, delete_key, stopping_revoked, removing_key, revocation,
  cancel_answers, revoke_key, failing_key, repair_owner, mark_key_failure, validate_candidate,
  store_candidate, save_key,
}
use gnester_lite.Assistant.Lifecycle.{Safe, Safe-refl, safety}
use gnester_lite.Assistant.Lifecycle.Statements.{
  untouched-Safe, updated-Safe, Kept-of, queued-active,
}
use gnester_lite.Assistant.Lifecycle.Handlers.{Sound, write-Sound, uuid-Sound, cancel-Sound}

module _ (i u : ℕ) where
  -- A write of another table.
  elsewhere-Sound :
      (f : Store → Store)
      → ((s : Store) → ((f s).answers ≡ s.answers) × ((f s).next_id ≡ s.next_id))
      → Sound i u (write f)
  elsewhere-Sound f h =
      write-Sound i u λ s. untouched-Safe i u s (f s) (h s).0 (omega (arith, (h s).1))

  record_audit-Sound : (e : AuditEvent) → Sound i u (record_audit e)
  unfolding record_audit
  record_audit-Sound e = elsewhere-Sound _ (λ s. (refl, refl))

  failed_change-Sound :
      (A : Type 0) (user_id : ℕ) (a : Action) (t : Target) (e : Failure)
      → Sound i u (failed_change {A = A} user_id a t e)
  unfolding failed_change record_failed_change
  failed_change-Sound A user_id a t e = record_audit-Sound _ ⨾ λ _. Follows-throw (safety i u) A e

  change_configuration-Sound :
      {A : Type 0} (user_id : ℕ) (a : Action) (t : Target) {m : Program Store A}
      → Sound i u m
      → Sound i u (change_configuration user_id a t m)
  unfolding change_configuration audited
  change_configuration-Sound {A} user_id a t h =
      Follows-catch (safety i u)
        (Follows-transaction (safety i u) (h ⨾ λ r. record_audit-Sound _ ⨾ λ _. search flow))
        (λ e. failed_change-Sound A user_id a t e)

  owned_row-Sound :
      (user_id key_id : ℕ) (a : Option Action) (row : Option Key)
      → Sound i u (owned_row user_id key_id a row)
  unfolding owned_row missing_key
  owned_row-Sound user_id key_id none none = search flow
  owned_row-Sound user_id key_id (some a) none = failed_change-Sound Key user_id a _ _
  owned_row-Sound user_id key_id a (some k) = search flow

  owned_key-Sound :
      (user_id key_id : ℕ) (a : Option Action) → Sound i u (owned_key user_id key_id a)
  unfolding owned_key
  owned_key-Sound user_id key_id a = search flow ⨾ λ row. owned_row-Sound user_id key_id a row

  repairing_choice-answers :
      (user_id : ℕ) (row : Preference) (m : Option ModelChoice) (s : Store)
      → ((repairing_choice user_id row m s).answers ≡ s.answers)
        × ((repairing_choice user_id row m s).next_id ≡ s.next_id)
  unfolding repairing_choice repairing_row
  repairing_choice-answers user_id row none s = (refl, refl)
  repairing_choice-answers user_id row (some m) s = ground arith

  repairing-answers :
      (user_id : ℕ) (s : Store)
      → ((repairing user_id s).answers ≡ s.answers) × ((repairing user_id s).next_id ≡ s.next_id)
  unfolding repairing repairing_preference
  repairing-answers user_id s = elim (Option-cases (read_preference s user_id)) [
    | inl e ↦ rw (e, repairing_preference) (refl, refl)
    | inr (p, e) ↦
        rw (e, repairing_preference) (repairing_choice-answers user_id p p.default_model s)
  ]

  repair_default-Sound : (user_id : ℕ) → Sound i u (repair_default user_id)
  unfolding repair_default
  repair_default-Sound user_id = elsewhere-Sound _ (repairing-answers user_id)

  require_backups-Sound :
      (user_id : ℕ) (chosen : Option ModelChoice) (seen ms : List ModelChoice)
      → Sound i u (require_backups user_id chosen seen ms)
  unfolding require_backups
  require_backups-Sound user_id chosen seen [] = search flow
  require_backups-Sound user_id chosen seen (m ∷ ms) = search flow ⨾ λ _.
      search flow ⨾ λ b. search flow ⨾ λ _. require_backups-Sound user_id chosen (m ∷ seen) ms

  require_valid_preferences-Sound :
      (user_id : ℕ) (chosen : Option ModelChoice) (backups : List ModelChoice)
      → Sound i u (require_valid_preferences user_id chosen backups)
  unfolding require_valid_preferences
  require_valid_preferences-Sound user_id chosen backups = search flow ⨾ λ _. search flow ⨾ λ b.
      search flow ⨾ λ _.
      require_backups-Sound user_id chosen [] backups ⨾ λ _. search flow ⨾ λ b. search flow

  pub save_preferences-Sound :
      (user_id : ℕ) (chosen : Option ModelChoice) (backups : List ModelChoice)
      → Sound i u (save_preferences user_id chosen backups)
  unfolding save_preferences writing_preferences
  save_preferences-Sound user_id chosen backups = change_configuration-Sound user_id _ _ (
      require_valid_preferences-Sound user_id chosen backups ⨾ λ _.
      elsewhere-Sound _ (λ s. (refl, refl)))

  pub consent_to_openai-Sound : (user_id : ℕ) → Sound i u (consent_to_openai user_id)
  unfolding consent_to_openai consenting
  consent_to_openai-Sound user_id =
      change_configuration-Sound user_id _ _ (elsewhere-Sound _ (λ s. (refl, refl)))

  pub stopping_queued-Safe :
      (user_id : ℕ) (m : ModelChoice) (s : Store) → Safe i u s (stopping_queued user_id m s)
  unfolding stopping_queued
  stopping_queued-Safe user_id m s =
      updated-Safe i u _ _ s (λ a. refl)
        λ a hit.
          Kept-of a _ (refl, refl, refl, refl, refl) (ground (arith, queued-active a.status)) refl

  pub update_model-Sound :
      (user_id : ℕ) (m : ModelChoice) (enabled : Bool) (chosen : Option ModelChoice)
      (backups : List ModelChoice)
      → Sound i u (update_model user_id m enabled chosen backups)
  unfolding update_model writing_preferences switching
  update_model-Sound user_id m enabled chosen backups = change_configuration-Sound user_id _ _ (
      search flow ⨾ λ listed. search flow ⨾ λ _. elsewhere-Sound _ (λ s. (refl, refl)) ⨾ λ _.
      require_valid_preferences-Sound user_id chosen backups ⨾ λ _.
      elsewhere-Sound _ (λ s. (refl, refl)) ⨾ λ _.
      Follows-when (safety i u) _ (write-Sound i u (stopping_queued-Safe user_id m)))

  order_key-Sound :
      (user_id : ℕ) (p : Provider) (key_id : ℕ) (place : Option ℕ)
      → Sound i u (order_key user_id p key_id place)
  unfolding order_key ordering
  order_key-Sound user_id p key_id none = search flow
  order_key-Sound user_id p key_id (some n) = elsewhere-Sound _ (λ s. (refl, refl))

  pub update_key-Sound :
      (user_id key_id : ℕ) (name : Option Text) (enabled : Option Bool) (place : Option ℕ)
      → Sound i u (update_key user_id key_id name enabled place)
  unfolding update_key updating_key
  update_key-Sound user_id key_id name enabled place = owned_key-Sound user_id key_id _ ⨾ λ owned.
      search flow ⨾ λ _. change_configuration-Sound user_id _ _ (
        elsewhere-Sound _ (λ s. (refl, refl)) ⨾ λ _.
        order_key-Sound user_id owned.provider key_id place ⨾ λ _. repair_default-Sound user_id)

  pub finish_key_deletion-Sound : (key_id : ℕ) → Sound i u (finish_key_deletion key_id)
  unfolding finish_key_deletion removing_pending
  finish_key_deletion-Sound key_id =
      search flow ⨾ λ busy. Follows-when (safety i u) _ (elsewhere-Sound _ (λ s. (refl, refl)))

  pub delete_key-Sound : (user_id key_id : ℕ) → Sound i u (delete_key user_id key_id)
  unfolding delete_key retracting_key
  delete_key-Sound user_id key_id = owned_key-Sound user_id key_id _ ⨾ λ key.
      change_configuration-Sound user_id _ _
        (elsewhere-Sound _ (λ s. (refl, refl)) ⨾ λ _. repair_default-Sound user_id)
      ⨾ λ _. finish_key_deletion-Sound key_id

  pub stopping_revoked-Safe :
      (user_id key_id : ℕ) (s : Store) → Safe i u s (stopping_revoked user_id key_id s)
  unfolding stopping_revoked
  stopping_revoked-Safe user_id key_id s =
      updated-Safe i u _ _ s (λ a. refl)
        λ a hit. Kept-of a _ (refl, refl, refl, refl, refl) (ground arith) refl

  revocation-Sound : (user_id key_id : ℕ) → Sound i u (revocation user_id key_id)
  unfolding revocation removing_key
  revocation-Sound user_id key_id = search flow ⨾ λ held. search flow ⨾ λ _.
      search flow ⨾ λ answers. write-Sound i u (stopping_revoked-Safe user_id key_id) ⨾ λ _.
      elsewhere-Sound _ (λ s. (refl, refl)) ⨾ λ _. repair_default-Sound user_id ⨾ λ _. search flow

  cancel_answers-Sound : (rows : List Answer) → Sound i u (cancel_answers rows)
  unfolding cancel_answers
  cancel_answers-Sound [] = search flow
  cancel_answers-Sound (a ∷ rows) = cancel-Sound i u a.id ⨾ λ _. cancel_answers-Sound rows

  pub revoke_key-Sound : (user_id key_id : ℕ) → Sound i u (revoke_key user_id key_id)
  unfolding revoke_key
  revoke_key-Sound user_id key_id = owned_key-Sound user_id key_id _ ⨾ λ owned.
      change_configuration-Sound user_id _ _ (revocation-Sound user_id key_id) ⨾ λ rows.
      cancel_answers-Sound rows

  repair_owner-Sound : (row : Option Key) → Sound i u (repair_owner row)
  unfolding repair_owner
  repair_owner-Sound none = search flow
  repair_owner-Sound (some k) = repair_default-Sound k.user_id

  pub mark_key_failure-Sound :
      (key_id : ℕ) (code : KeyError) → Sound i u (mark_key_failure key_id code)
  unfolding mark_key_failure failing_key
  mark_key_failure-Sound key_id code =
      elsewhere-Sound _ (λ s. (refl, refl)) ⨾ λ _. search flow ⨾ λ row. repair_owner-Sound row

  call-Sound : {A : Type 0} (r : Result A) → Sound i u (call r)
  unfolding call
  call-Sound r = record { run = λ s _. Safe-refl i u s }

  pub retire_model-Sound : (user_id : ℕ) (m : ModelChoice) → Sound i u (retire_model user_id m)
  unfolding retire_model retiring
  retire_model-Sound user_id m =
      elsewhere-Sound _ (λ s. (refl, refl)) ⨾ λ _. repair_default-Sound user_id

  existing_key-Sound : (user_id : ℕ) (id : Option ℕ) → Sound i u (existing_key user_id id)
  unfolding existing_key
  existing_key-Sound user_id none = search flow
  existing_key-Sound user_id (some id) = owned_key-Sound user_id id _ ⨾ λ k. search flow

  storing_key-answers :
      (k : Option Key) (user_id key_id : ℕ) (p : Provider) (name encrypted : Text) (s : Store)
      → ((storing_key k user_id key_id p name encrypted s).answers ≡ s.answers)
        × ((storing_key k user_id key_id p name encrypted s).next_id ≡ s.next_id)
  unfolding storing_key replacing_key inserting_key
  storing_key-answers none user_id key_id p name encrypted s = (refl, refl)
  storing_key-answers (some k) user_id key_id p name encrypted s = (refl, refl)

  module _ (env : Providers) where
    pub refresh_models-Sound : (user_id key_id : ℕ) → Sound i u (refresh_models env user_id key_id)
    unfolding refresh_models writing_catalog recovering
    refresh_models-Sound user_id key_id = owned_key-Sound user_id key_id none ⨾ λ key.
        call-Sound _ ⨾ λ secret. call-Sound _ ⨾ λ catalog.
        Follows-transaction (safety i u) (
          elsewhere-Sound _ (λ s. (refl, refl)) ⨾ λ _.
          Follows-when (safety i u) _ (elsewhere-Sound _ (λ s. (refl, refl))))
        ⨾ λ _. repair_default-Sound user_id

    validate_candidate-Sound :
        (p : Provider) (secret : Text) → Sound i u (validate_candidate env p secret)
    unfolding validate_candidate
    validate_candidate-Sound p secret = call-Sound _ ⨾ λ catalog. search flow ⨾ λ model.
        Follows-catch (safety i u) (call-Sound _) (λ e. Follows-throw (safety i u) _ _) ⨾ λ _.
        search flow

    store_candidate-Sound :
        (user_id : ℕ) (k : Option Key) (key_id : ℕ) (p : Provider) (name encrypted : Text)
        (c : Candidate)
        → Sound i u (store_candidate env user_id k key_id p name encrypted c)
    unfolding store_candidate writing_catalog ensuring_preference defaulting
    store_candidate-Sound user_id k key_id p name encrypted c =
        elsewhere-Sound _ (storing_key-answers k user_id key_id p name encrypted) ⨾ λ _.
        elsewhere-Sound _ (λ s. (refl, refl)) ⨾ λ _. elsewhere-Sound _ (λ s. (refl, refl)) ⨾ λ _.
        elsewhere-Sound _ (λ s. (refl, refl)) ⨾ λ _. repair_default-Sound user_id

    key_id_of-Sound :
        {A : Type 0} (id : Option ℕ) {f : ℕ → Program Store A}
        → ((key_id : ℕ) → Sound i u (f key_id))
        → Sound i u (key_id_of id >>= f)
    unfolding key_id_of
    key_id_of-Sound none k = uuid-Sound i u (λ key_id _. k key_id)
    key_id_of-Sound (some id) k = search flow ⨾ λ key_id. k key_id

    pub save_key-Sound :
        (user_id : ℕ) (p : Provider) (name api_key : Text) (id : Option ℕ)
        → Sound i u (save_key env user_id p name api_key id)
    unfolding save_key
    save_key-Sound user_id p name api_key id = search flow ⨾ λ _.
        existing_key-Sound user_id id ⨾ λ existing. search flow ⨾ λ _.
        Follows-catch (safety i u) (validate_candidate-Sound p _)
          (λ e. failed_change-Sound Candidate user_id _ _ e)
        ⨾ λ c. key_id_of-Sound id (λ key_id.
          change_configuration-Sound user_id _ _
            (store_candidate-Sound user_id existing key_id p _ _ c))
