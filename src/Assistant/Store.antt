-- ===== src/Assistant/Store.antt =====
-- The rows of the assistant's tables (src/modules/assistant/*persistence.types.ts), the in-process
-- state beside them, and the clock. Identifiers are numbers, and texts are lists of code units.
use text.Mathlib.Text.{◌==◌ as str_eq}
use gnester_lite.Common.{ℕ, suc, Text, Bool, true, false, ◌&&◌, Option, List, String, ok, Program}

pub data Provider : Type 0 where
  deepseek openai : Provider

abbrev pub provider_eq : Provider → Provider → Bool
provider_eq deepseek deepseek = true
provider_eq openai openai = true
provider_eq _ _ = false

-- `AssistantAnswerStatus`
pub data Status : Type 0 where
  queued generating completed stopped failed : Status

-- The values of `assistant_key.lastErrorCode`.
pub data KeyError : Type 0 where
  key_invalid quota_exhausted : KeyError

-- The values of `assistant_answer.errorCode`.
pub data ErrorCode : Type 0 where
  model_unavailable interrupted queue_unavailable model_error key_revoked model_disabled : ErrorCode
  credential : KeyError → ErrorCode

pub record ModelChoice : Type 0 where
  pub provider : Provider
  pub model_id : String

-- The identity `${provider}:${modelId}`; no provider's name has a colon in it.
abbrev pub same_model : ModelChoice → ModelChoice → Bool
same_model a b = provider_eq a.provider b.provider && str_eq a.model_id b.model_id

pub data Role : Type 0 where
  user assistant : Role

pub record Message : Type 0 where
  pub role : Role
  pub content : Text

pub record Conversation : Type 0 where
  pub id : ℕ
  pub user_id : ℕ
  pub title : Text
  pub provider : Option Provider
  pub model : Option String
  pub created_at : ℕ
  pub updated_at : ℕ

-- `contextSnapshot` holds the messages as JSON.
pub record Turn : Type 0 where
  pub id : ℕ
  pub conversation_id : ℕ
  pub question : Text
  pub context_snapshot : List Message
  pub selected_answer_id : Option ℕ
  pub created_at : ℕ

pub record Answer : Type 0 where
  pub id : ℕ
  pub turn_id : ℕ
  pub user_id : ℕ
  pub version : ℕ
  pub content : Text
  pub status : Status
  pub model : String
  pub provider : Option Provider
  pub key_id : Option ℕ
  pub error_code : Option ErrorCode
  pub created_at : ℕ
  pub updated_at : ℕ

pub record Key : Type 0 where
  pub id : ℕ
  pub user_id : ℕ
  pub provider : Provider
  pub name : Text
  pub encrypted_key : Text
  pub is_enabled : Bool
  pub is_pending_deletion : Bool
  pub position : ℕ
  pub last_error_code : Option KeyError
  pub created_at : ℕ

pub record KeyModel : Type 0 where
  pub key_id : ℕ
  pub model_id : String
  pub is_text_compatible : Bool
  pub missing_count : ℕ
  pub last_seen_at : ℕ

pub record ModelNotice : Type 0 where
  pub previous : ModelChoice
  pub replacement : Option ModelChoice

-- `defaultProvider` and `defaultModel` are written together, and are one optional choice here;
-- `backupModels` and `modelNotice` hold their values as JSON.
pub record Preference : Type 0 where
  pub user_id : ℕ
  pub default_model : Option ModelChoice
  pub backup_models : List ModelChoice
  pub model_notice : Option ModelNotice
  pub openai_consent_version : Option String

pub record ModelPreference : Type 0 where
  pub user_id : ℕ
  pub model : ModelChoice
  pub is_enabled : Bool

pub data Action : Type 0 where
  key_created key_replaced key_updated key_deleted key_revoked : Action
  model_updated preferences_updated openai_consent : Action

-- `targetId` as the code builds it: a provider and a key, a key, a model, or the user.
pub data Target : Type 0 where
  key_of : Provider → Option ℕ → Target
  key_only : ℕ → Target
  model_of : ModelChoice → Target
  account : ℕ → Target

pub data Outcome : Type 0 where
  success denied failure : Outcome

pub record AuditEvent : Type 0 where
  pub user_id : ℕ
  pub action : Action
  pub target_id : Target
  pub provider : Option Provider
  pub model_id : Option String
  pub outcome : Outcome
  pub error_status : Option ℕ

-- An `AbortController` of `AssistantCancellation`.
pub record Controller : Type 0 where
  pub answer_id : ℕ
  pub is_aborted : Bool

pub record Store : Type 0 where
  pub conversations : List Conversation
  pub turns : List Turn
  pub answers : List Answer
  pub keys : List Key
  pub key_models : List KeyModel
  pub preferences : List Preference
  pub model_preferences : List ModelPreference
  pub audits : List AuditEvent
  pub controllers : List Controller
  pub jobs : List ℕ
  pub queue_enabled : Bool
  pub queue_available : Bool
  pub now : ℕ
  pub next_id : ℕ

-- `randomUUID()`: an identifier that was not given out before.
unfoldable pub random_uuid : Program Store ℕ
random_uuid s = (ok s.next_id, record s { next_id = suc s.next_id })

abbrev pub is_queued : Status → Bool
is_queued queued = true
is_queued _ = false

abbrev pub is_generating_status : Status → Bool
is_generating_status generating = true
is_generating_status _ = false

abbrev pub is_completed : Status → Bool
is_completed completed = true
is_completed _ = false

-- `status` IN ('queued', 'generating')
abbrev pub is_active : Status → Bool
is_active queued = true
is_active generating = true
is_active _ = false
