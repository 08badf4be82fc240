-- ===== src/Assistant/Configuration/Audit/Reports.antt =====
-- The two outcomes of a configuration change.
use gnester_lite.Common.{
  ℕ, ◌≡◌, refl, ap, sym, ◌∙◌, none, some, ◌∷◌, Failure, Result, ok, err, Program, Returns, ◌>>=◌,
  return, throw, write, transaction, catch,
}
use gnester_lite.Assistant.Store.{Action, Target, AuditEvent, success, Store}
use gnester_lite.Assistant.Configuration.Audit.{
  status_of, event, outcome_of, record_audit, record_failed_change, failed_change, audited,
  change_configuration,
}

abbrev pub with_audit : AuditEvent → Store → Store
with_audit e s = record s { audits = e ∷ s.audits }

abbrev pub failed_event : ℕ → Action → Target → Failure → AuditEvent
failed_event user_id action target e =
    event user_id action target (outcome_of (status_of e)) (some (status_of e))

module _ {A : Type 0} (user_id : ℕ) (action : Action) (target : Target) where
  -- The outcome of the change for an outcome of the operation, from a store.
  abbrev pub outcome_from : Store → Result A × Store → Result A × Store
  outcome_from s (ok a, t) = (ok a, with_audit (event user_id action target success none) t)
  outcome_from s (err e, t) = (err e, with_audit (failed_event user_id action target e) s)

  change_configuration-from :
      (m : Program Store A) (s : Store) (r : Result A × Store)
      → m s ≡ r
      → change_configuration user_id action target m s ≡ outcome_from s r
  unfolding change_configuration audited failed_change record_failed_change record_audit ◌>>=◌
      return throw write transaction catch
  change_configuration-from m s (ok a, t) h = rw h refl
  change_configuration-from m s (err e, t) h = rw h refl

  -- A configuration change does what its operation does and records a success if that returns; if it
  -- throws, the change throws the same, the store is as it was before the operation, and a failure is
  -- recorded, as denied for the statuses 403 and 404.
  pub change_configuration_lem :
      (m : Program Store A) (s : Store)
      → change_configuration user_id action target m s ≡ outcome_from s (m s)
  change_configuration_lem m s = change_configuration-from m s (m s) refl

  returned-from :
      (s : Store) (r : Result A × Store) (a : A) (t : Store)
      → outcome_from s r ≡ (ok a, t)
      → (v : Store) × (r ≡ (ok a, v))
        × (t ≡ with_audit (event user_id action target success none) v)
  returned-from s (ok b, v) a t h =
      (v, ap (λ (x : _). (x, v)) (ap (λ (x : _). x.0) h), sym (ap (λ (x : _). x.1) h))
  returned-from s (err e, v) a t h = absurd (cc (ap (λ (x : _). x.0) h))

  -- A change that returned: its operation returned, and its success is recorded.
  pub change_configuration-Returns :
      (m : Program Store A) (s : Store) (a : A) (t : Store)
      → Returns (change_configuration user_id action target m) s a t
      → (v : Store) × Returns m s a v
        × (t ≡ with_audit (event user_id action target success none) v)
  change_configuration-Returns m s a t h =
      returned-from s (m s) a t (sym (change_configuration_lem m s) ∙ h)
