-- ===== src/Assistant/Configuration/Preferences.antt =====
-- The default model and its backups: what may be saved, the repair of a default that has become
-- unavailable, and the switch of one model.
pub mod Repair
pub mod Valid
pub mod Saved
use gnester_lite.Common.{
  ℕ, Bool, true, not, ◌&&◌, ◌||◌, ◌==◌, leb, if◌then◌else◌, Option, none, some, option_eq, List, [],
  ◌∷◌, find, any, length, delete_where, update_where, Program, ◌>>=◌, ◌>>◌, return, read, write,
  require, when, bad_request, not_found, is_none,
}
use text.Mathlib.Text.{◌==◌ as str_eq}
use gnester_lite.Assistant.Store.{
  provider_eq, ModelChoice, same_model, stopped, is_queued, model_disabled, Preference,
  ModelPreference, Store, model_updated, preferences_updated, openai_consent, model_of, account,
  Answer,
}
use gnester_lite.Assistant.Selection.{
  openai_consent_version, is_model_available, has_available_models, read_preference,
}
use gnester_lite.Assistant.Configuration.Audit.{change_configuration}

-- The loop over the backups: each is new, is not the default, and is available.
unfoldable pub require_backups :
    ℕ → Option ModelChoice → List ModelChoice → List ModelChoice → Program Store (Unit {0})
require_backups user_id chosen seen [] = return tt
require_backups user_id chosen seen (m ∷ ms) = do
  require (not (any (same_model m) seen || option_eq same_model chosen m))
      (bad_request "Backup models must be distinct")
  available ← read λ s. is_model_available s user_id m
  require available (bad_request "Backup model is unavailable")
  require_backups user_id chosen (m ∷ seen) ms

abbrev pub default_allowed : Store → ℕ → Option ModelChoice → Bool
default_allowed s user_id none = true
default_allowed s user_id (some m) = is_model_available s user_id m

unfoldable pub require_valid_preferences :
    ℕ → Option ModelChoice → List ModelChoice → Program Store (Unit {0})
require_valid_preferences user_id chosen backups = do
  require (leb (length backups) 12) (bad_request "Too many backup models")
  allowed ← read λ s. default_allowed s user_id chosen
  require allowed (bad_request "Default model is unavailable")
  require_backups user_id chosen [] backups
  needed ← read λ s. is_none chosen && has_available_models s user_id
  require (not needed) (bad_request "A default model is required")

abbrev pub empty_preference : ℕ → Preference
empty_preference user_id = record {
  user_id = user_id;
  default_model = none;
  backup_models = [];
  model_notice = none;
  openai_consent_version = none;
}

-- INSERT … ON DUPLICATE KEY UPDATE: the update applies to the row of the user, new or not.
abbrev pub upsert_preference : ℕ → (Preference → Preference) → List Preference → List Preference
upsert_preference user_id f rows =
    if any (λ p. p.user_id == user_id) rows
    then update_where (λ p. p.user_id == user_id) f rows
    else f (empty_preference user_id) ∷ rows

unfoldable pub writing_preferences : ℕ → Option ModelChoice → List ModelChoice → Store → Store
writing_preferences user_id chosen backups s = record s {
  preferences =
      upsert_preference user_id
        (λ p. record p { default_model = chosen; backup_models = backups; model_notice = none })
        s.preferences;
}

unfoldable pub save_preferences :
    ℕ → Option ModelChoice → List ModelChoice → Program Store (Unit {0})
save_preferences user_id chosen backups =
    change_configuration user_id preferences_updated (account user_id) do
      require_valid_preferences user_id chosen backups
      write (writing_preferences user_id chosen backups)

unfoldable pub consenting : ℕ → Store → Store
consenting user_id s = record s {
  preferences =
      upsert_preference user_id
        (λ p. record p { openai_consent_version = some openai_consent_version }) s.preferences;
}

unfoldable pub consent_to_openai : ℕ → Program Store (Unit {0})
consent_to_openai user_id =
    change_configuration user_id openai_consent (account user_id) (write (consenting user_id))

-- for (const model of backup) the first that is available
abbrev pub replacement_of : Store → ℕ → List ModelChoice → Option ModelChoice
replacement_of s user_id backups = find (is_model_available s user_id) backups

abbrev pub without : Option ModelChoice → List ModelChoice → List ModelChoice
without none backups = backups
without (some r) backups = delete_where (λ m. same_model m r) backups

abbrev pub repaired : Store → ModelChoice → Preference → Preference
repaired s previous p =
    let replacement = replacement_of s p.user_id p.backup_models in
    record p {
      default_model = replacement;
      backup_models = without replacement p.backup_models;
      model_notice = some (record { previous = previous; replacement = replacement });
    }

unfoldable pub repairing_row : ℕ → ModelChoice → Preference → Store → Store
repairing_row user_id previous p s = record s {
  preferences =
      update_where (λ q. q.user_id == user_id)
        (λ q.
          let r = repaired s previous p in
          record q {
            default_model = r.default_model;
            backup_models = r.backup_models;
            model_notice = r.model_notice;
          })
        s.preferences;
}

unfoldable pub repairing_choice : ℕ → Preference → Option ModelChoice → Store → Store
repairing_choice user_id p none s = s
repairing_choice user_id p (some m) s =
    if is_model_available s user_id m then s else repairing_row user_id m p s

unfoldable pub repairing_preference : ℕ → Option Preference → Store → Store
repairing_preference user_id none s = s
repairing_preference user_id (some p) s = repairing_choice user_id p p.default_model s

-- `repairDefault`
unfoldable pub repairing : ℕ → Store → Store
repairing user_id s = repairing_preference user_id (read_preference s user_id) s

unfoldable pub repair_default : ℕ → Program Store (Unit {0})
repair_default user_id = write (repairing user_id)

-- The account holds a key, not pending deletion, whose catalog has the model.
abbrev pub in_catalog : Store → ℕ → ModelChoice → Bool
in_catalog s user_id m =
    any
      (λ km.
        str_eq km.model_id m.model_id
        && any
            (λ k.
              k.id == km.key_id
              && k.user_id == user_id
              && provider_eq k.provider m.provider
              && not k.is_pending_deletion)
            s.keys)
      s.key_models

abbrev pub is_preference_for : ℕ → ModelChoice → ModelPreference → Bool
is_preference_for user_id m p = p.user_id == user_id && same_model p.model m

unfoldable pub switching : ℕ → ModelChoice → Bool → Store → Store
switching user_id m enabled s = record s {
  model_preferences =
      if any (is_preference_for user_id m) s.model_preferences
      then update_where (is_preference_for user_id m) (λ p. record p { is_enabled = enabled })
          s.model_preferences
      else record { user_id = user_id; model = m; is_enabled = enabled } ∷ s.model_preferences;
}

-- The queued answers of a model that was switched off.
abbrev pub is_queued_for : ℕ → ModelChoice → Answer → Bool
is_queued_for user_id m a =
    a.user_id == user_id
    && option_eq provider_eq a.provider m.provider
    && str_eq a.model m.model_id
    && is_queued a.status

unfoldable pub stopping_queued : ℕ → ModelChoice → Store → Store
stopping_queued user_id m s = record s {
  answers =
      update_where (is_queued_for user_id m)
        (λ a. record a { status = stopped; error_code = some model_disabled; updated_at = s.now })
        s.answers;
}

unfoldable pub update_model :
    ℕ → ModelChoice → Bool → Option ModelChoice → List ModelChoice → Program Store (Unit {0})
update_model user_id m enabled chosen backups =
    change_configuration user_id model_updated (model_of m) do
      listed ← read λ s. in_catalog s user_id m
      require listed (not_found "Not Found")
      write (switching user_id m enabled)
      require_valid_preferences user_id chosen backups
      write (writing_preferences user_id chosen backups)
      when (not enabled) (write (stopping_queued user_id m))
