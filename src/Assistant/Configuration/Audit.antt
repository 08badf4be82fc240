-- ===== src/Assistant/Configuration/Audit.antt =====
-- `changeConfiguration` and the audit events: every change is a transaction that records its success
-- in it, or rolls back and records its failure.
pub mod Reports
use gnester_lite.Common.{
  ℕ, Bool, ◌||◌, ◌&&◌, ◌==◌, not, if◌then◌else◌, Option, none, some, ◌∷◌, find, String, Failure,
  bad_request, conflict, not_found, forbidden, unauthorized, service_unavailable, range_error,
  internal, duplicate_key, endless, Program, ◌>>=◌, ◌>>◌, return, throw, read, write, transaction,
  catch,
}
use gnester_lite.Assistant.Store.{
  Provider, Key, Action, model_updated, Target, key_of, key_only, model_of, account, Outcome,
  success, denied, failure, AuditEvent, Store,
}

-- `HttpException.getStatus()`, and 500 for any other error (`endless` is none, and does not occur)
abbrev pub status_of : Failure → ℕ
status_of (bad_request m) = 400
status_of (unauthorized m) = 401
status_of (forbidden m) = 403
status_of (not_found m) = 404
status_of (conflict m) = 409
status_of (service_unavailable m) = 503
status_of (range_error m) = 500
status_of (internal m) = 500
status_of duplicate_key = 500
status_of endless = 500

-- The text before the first colon of `targetId`, where it is a provider's name.
abbrev pub target_provider : Target → Option Provider
target_provider (key_of p k) = some p
target_provider (key_only k) = none
target_provider (model_of m) = some m.provider
target_provider (account u) = none

abbrev pub target_model : Action → Target → Option String
target_model model_updated (model_of m) = some m.model_id
target_model _ t = none

abbrev pub event : ℕ → Action → Target → Outcome → Option ℕ → AuditEvent
event user_id action target outcome status = record {
  user_id = user_id;
  action = action;
  target_id = target;
  provider = target_provider target;
  model_id = target_model action target;
  outcome = outcome;
  error_status = status;
}

unfoldable pub record_audit : AuditEvent → Program Store (Unit {0})
record_audit e = write λ s. record s { audits = e ∷ s.audits }

abbrev pub outcome_of : ℕ → Outcome
outcome_of status = if status == 403 || status == 404 then denied else failure

unfoldable pub record_failed_change : ℕ → Action → Target → Failure → Program Store (Unit {0})
record_failed_change user_id action target e =
    record_audit (event user_id action target (outcome_of (status_of e)) (some (status_of e)))

unfoldable pub failed_change : {A : Type 0} → ℕ → Action → Target → Failure → Program Store A
failed_change user_id action target e = do record_failed_change user_id action target e; throw e

unfoldable pub audited : {A : Type 0} → ℕ → Action → Target → Program Store A → Program Store A
audited user_id action target operation = do
  response ← operation
  record_audit (event user_id action target success none)
  return response

unfoldable pub change_configuration :
    {A : Type 0} → ℕ → Action → Target → Program Store A → Program Store A
change_configuration user_id action target operation =
    catch (transaction (audited user_id action target operation))
      (failed_change user_id action target)

-- WHERE `id` = ? AND `userId` = ? AND `isPendingDeletion` = 0
abbrev pub is_owned_key : ℕ → ℕ → Key → Bool
is_owned_key user_id key_id k = k.id == key_id && k.user_id == user_id && not k.is_pending_deletion

unfoldable pub missing_key : ℕ → ℕ → Option Action → Program Store Key
missing_key user_id key_id none = throw (not_found "Not Found")
missing_key user_id key_id (some action) =
    failed_change user_id action (key_only key_id) (not_found "Not Found")

unfoldable pub owned_row : ℕ → ℕ → Option Action → Option Key → Program Store Key
owned_row user_id key_id action none = missing_key user_id key_id action
owned_row user_id key_id action (some k) = return k

unfoldable pub owned_key : ℕ → ℕ → Option Action → Program Store Key
owned_key user_id key_id action = do
  row ← read λ s. find (is_owned_key user_id key_id) s.keys
  owned_row user_id key_id action row
