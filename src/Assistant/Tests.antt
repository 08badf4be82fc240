-- ===== src/Assistant/Tests.antt =====
-- A store with one account, and the assistant's theorems on it.
mod Worker
use gnester_lite.Common.{
  ◌≡◌, refl, true, false, none, some, List, [], ◌∷◌, Program, Returns, arith, ◌↔◌, ◌>>=◌, return,
  read, write, require, found, transaction, catch, conflict,
}
use gnester_lite.Assistant.Store.{
  deepseek, queued, stopped, ModelChoice, Conversation, Turn, Answer, Key, KeyModel, Preference,
  Store, preferences_updated, account, is_active,
}
use gnester_lite.Assistant.Generation.{start_answer, cancel}
use gnester_lite.Assistant.Generation.Start.{Starts, start_answer-Starts}
use gnester_lite.Assistant.Selection.{
  Selection, next_generation_key, keys_after, choose_model, require_openai_consent, read_preference,
  default_of, available_key, available_keys, is_model_available, has_available_models,
}
use gnester_lite.Assistant.Selection.Fallback.{Next, next_generation_key-Next}
use gnester_lite.Assistant.Selection.Choice.{Chosen, choose_model-Chosen}
use gnester_lite.Assistant.Views.{
  ConversationView, get_conversation, owned_conversation, conversation_view,
}
use gnester_lite.Assistant.Conversations.{stop_answer, stopping}
use gnester_lite.Assistant.Configuration.Audit.{
  change_configuration, audited, record_audit, owned_key, owned_row,
}
use gnester_lite.Assistant.Configuration.Audit.Reports.{outcome_from, change_configuration_lem}
use gnester_lite.Assistant.Configuration.Preferences.{
  require_backups, require_valid_preferences, save_preferences, writing_preferences, repairing,
  repairing_preference, repairing_choice, repairing_row, repair_default,
}
use gnester_lite.Assistant.Configuration.Catalog.{retiring, retire_model}
use gnester_lite.Assistant.Configuration.Catalog.Retirement.{retire_model-unavailable}
use gnester_lite.Assistant.Configuration.Preferences.Repair.{
  Usable, repairing-Usable, repairing_idem,
}
use gnester_lite.Assistant.Configuration.Preferences.Valid.{Savable, require_valid_preferences_iff}
use gnester_lite.Assistant.Configuration.Preferences.Saved.{Saved, save_preferences-Saved}
use gnester_lite.Assistant.Configuration.Keys.{
  revoke_key, revocation, stopping_revoked, removing_key, cancel_answers,
}
use gnester_lite.Assistant.Configuration.Keys.Revocation.{Revoked, revoke_key-Revoked}
use gnester_lite.Assistant.Lifecycle.{Later, OneActive, answer_at}
use gnester_lite.Assistant.Lifecycle.Runs.{
  Step, starts, appends, stops, completes, selects_completed, run, run-Later, run-OneActive,
}
use gnester_lite.Assistant.Lifecycle.Final.{stop_answer-final}

abbrev flash : ModelChoice
flash = record { provider = deepseek; model_id = "deepseek-flash" }

abbrev chat : ModelChoice
chat = record { provider = deepseek; model_id = "deepseek-chat" }

abbrev gone : ModelChoice
gone = record { provider = deepseek; model_id = "deepseek-gone" }

abbrev key : Key
key = record {
  id = 1;
  user_id = 7;
  provider = deepseek;
  name = 65 ∷ [];
  encrypted_key = [];
  is_enabled = true;
  is_pending_deletion = false;
  position = 0;
  last_error_code = none;
  created_at = 10;
}

abbrev listed : KeyModel
listed = record {
  key_id = 1;
  model_id = "deepseek-flash";
  is_text_compatible = true;
  missing_count = 0;
  last_seen_at = 10;
}

abbrev listed_chat : KeyModel
listed_chat = record listed { model_id = "deepseek-chat" }

abbrev conversation : Conversation
conversation = record {
  id = 2;
  user_id = 7;
  title = 65 ∷ [];
  provider = some deepseek;
  model = some "deepseek-flash";
  created_at = 20;
  updated_at = 20;
}

abbrev turn : Turn
turn = record {
  id = 3;
  conversation_id = 2;
  question = 65 ∷ [];
  context_snapshot = [];
  selected_answer_id = none;
  created_at = 20;
}

abbrev answer : Answer
answer = record {
  id = 4;
  turn_id = 3;
  user_id = 7;
  version = 1;
  content = [];
  status = queued;
  model = "deepseek-flash";
  provider = some deepseek;
  key_id = some 1;
  error_code = none;
  created_at = 20;
  updated_at = 20;
}

abbrev preference : Preference
preference = record {
  user_id = 7;
  default_model = some gone;
  backup_models = chat ∷ flash ∷ [];
  model_notice = none;
  openai_consent_version = none;
}

abbrev shop : Store
shop = record {
  conversations = conversation ∷ [];
  turns = turn ∷ [];
  answers = answer ∷ [];
  keys = key ∷ [];
  key_models = listed ∷ listed_chat ∷ [];
  preferences = preference ∷ [];
  model_preferences = [];
  audits = [];
  controllers = [];
  jobs = 4 ∷ [];
  queue_enabled = true;
  queue_available = true;
  now = 100;
  next_id = 10;
}

abbrev steps : List Step
steps =
    starts 4
    ∷ appends 4 (66 ∷ [])
    ∷ completes 4 (66 ∷ 67 ∷ [])
    ∷ selects_completed 4
    ∷ stops 7 4
    ∷ []

run-Later_example : Later (answer_at 4 shop) (answer_at 4 (run steps shop))
run-Later_example = run-Later 4 steps shop (omega arith) (omega arith)

run-OneActive_example : OneActive 7 (run steps shop)
run-OneActive_example = run-OneActive 7 steps shop (omega arith) (omega arith)

start_answer-Starts_example : Starts 4 shop answer turn (start_answer 4 shop)
start_answer-Starts_example =
    start_answer-Starts 4 shop answer turn
      (record { row = refl; single = omega arith; waits = refl }) refl

repairing-Usable_example :
    Usable (repairing 7 shop) 7 (default_of (read_preference (repairing 7 shop) 7))
repairing-Usable_example = repairing-Usable 7 shop

repairing_idem_example : repairing 7 (repairing 7 shop) ≡ repairing 7 shop
repairing_idem_example = repairing_idem 7 shop

change_configuration_lem_example :
    change_configuration 7 preferences_updated (account 7) (require false (conflict "x")) shop
    ≡ outcome_from 7 preferences_updated (account 7) shop (require false (conflict "x") shop)
change_configuration_lem_example =
    change_configuration_lem 7 preferences_updated (account 7) (require false (conflict "x")) shop

require_valid_preferences_iff_example :
    Returns (require_valid_preferences 7 (some flash) (chat ∷ [])) shop tt shop
    ↔ Savable shop 7 (some flash) (chat ∷ [])
require_valid_preferences_iff_example =
    require_valid_preferences_iff 7 (some flash) (chat ∷ []) shop

-- The store that a program leaves.
abbrev left : {A : Type 0} → Program Store A → Store → Store
left m s = (m s).1

save_preferences-Saved_example :
    Saved 7 (some flash) (chat ∷ []) shop (left (save_preferences 7 (some flash) (chat ∷ [])) shop)
unfolding save_preferences require_valid_preferences require_backups writing_preferences
    change_configuration audited record_audit is_model_available available_key available_keys
    has_available_models ◌>>=◌ return read write require transaction catch
save_preferences-Saved_example =
    save_preferences-Saved 7 (some flash) (chat ∷ []) shop tt
      (left (save_preferences 7 (some flash) (chat ∷ [])) shop) refl

abbrev selection : Selection
selection = record { model = flash; key_id = 1 }

choose_model-Chosen_example : Chosen 7 (some flash) none shop selection shop
unfolding choose_model require_openai_consent read_preference available_key available_keys ◌>>=◌
    return read require found
choose_model-Chosen_example = choose_model-Chosen 7 (some flash) none shop selection shop refl

revoke_key-Revoked_example : Revoked 7 1 shop (left (revoke_key 7 1) shop)
unfolding revoke_key owned_key owned_row revocation stopping_revoked removing_key repair_default
    repairing repairing_preference repairing_choice repairing_row read_preference is_model_available
    available_key available_keys cancel_answers cancel change_configuration audited record_audit
    ◌>>=◌ return read write require transaction catch
revoke_key-Revoked_example = revoke_key-Revoked 7 1 shop tt (left (revoke_key 7 1) shop) refl

abbrev view : ConversationView
view = conversation_view (left (stop_answer 7 4) shop) conversation

stop_answer-final_example :
    (answer_at 4 (left (stop_answer 7 4) shop)
      ≡ some (record answer { status = stopped; updated_at = 100 }))
    × (is_active stopped ≡ false)
unfolding stop_answer stopping cancel get_conversation owned_conversation conversation_view run
    ◌>>=◌ return read write found
stop_answer-final_example =
    stop_answer-final 7 4 shop view (left (stop_answer 7 4) shop) []
      (record answer { status = stopped; updated_at = 100 }) (omega arith) (omega arith) refl refl

-- A second key, for the fallback from the first.
abbrev second : Key
second = record key { id = 5; position = 1 }

abbrev pair : Store
pair = record shop {
  keys = second ∷ key ∷ [];
  key_models = record listed { key_id = 5 } ∷ listed ∷ [];
}

next_generation_key-Next_example : Next pair 7 flash 1 second
unfolding next_generation_key available_keys keys_after
next_generation_key-Next_example = next_generation_key-Next pair 7 flash 1 second refl (omega arith)

retire_model-unavailable_example :
    (is_model_available (left (retire_model 7 chat) shop) 7 chat ≡ false)
    × Usable
        (left (retire_model 7 chat) shop)
        7
        (default_of (read_preference (left (retire_model 7 chat) shop) 7))
unfolding retire_model retiring repair_default ◌>>=◌ write
retire_model-unavailable_example =
    retire_model-unavailable 7 chat shop tt (left (retire_model 7 chat) shop) refl
