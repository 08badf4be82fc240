-- ===== src/Assistant/Selection.antt =====
-- assistant-configuration.service.ts, the reads: which keys and models an account may use, and the
-- model and key that a question takes.
pub mod Choice
pub mod Fallback
use text.Mathlib.Text.{◌==◌ as str_eq}
use gnester_lite.Common.{
  ℕ, Bool, true, false, ◌&&◌, ◌||◌, ◌==◌, ltb, leb, if◌then◌else◌, Option, none, some, or_else,
  option_eq, List, [], ◌∷◌, find, any, select_where, order_by, String, Program, ◌>>=◌, ◌>>◌,
  is_some, is_none, found, return, read, require, conflict, service_unavailable,
}
use gnester_lite.Assistant.Store.{
  Provider, deepseek, openai, provider_eq, ModelChoice, Key, Preference, Store,
}
use gnester_lite.Assistant.Generation.{model_enabled, is_usable}

abbrev pub openai_consent_version : String
openai_consent_version = "2026-09-29"

-- A catalog row of the key for the model: compatible with text and seen in the last two catalogs.
abbrev pub lists_model : Store → Key → String → Bool
lists_model s k model_id =
    any
      (λ km.
        km.key_id == k.id
        && str_eq km.model_id model_id
        && km.is_text_compatible
        && ltb km.missing_count 2)
      s.key_models

abbrev pub serves : Store → ℕ → ModelChoice → Bool → Key → Bool
serves s user_id m already_generating k =
    k.user_id == user_id
    && provider_eq k.provider m.provider
    && is_usable k
    && lists_model s k m.model_id
    && (already_generating || model_enabled s user_id m)

-- ORDER BY `position`, `createdAt`
abbrev pub key_order : Key → Key → Bool
key_order a b =
    ltb a.position b.position || (a.position == b.position && leb a.created_at b.created_at)

unfoldable pub available_keys : Store → ℕ → ModelChoice → Bool → List Key
available_keys s user_id m already_generating =
    order_by key_order (select_where (serves s user_id m already_generating) s.keys)

abbrev pub has_no_error : Key → Bool
has_no_error k = is_none k.last_error_code

unfoldable pub available_key : Store → ℕ → ModelChoice → Option Key
available_key s user_id m = find has_no_error (available_keys s user_id m false)

unfoldable pub is_model_available : Store → ℕ → ModelChoice → Bool
is_model_available s user_id m = is_some (available_key s user_id m)

-- `getAvailableModels(…).length` is not 0: some row of the DISTINCT join.
unfoldable pub has_available_models : Store → ℕ → Bool
has_available_models s user_id =
    any
      (λ km.
        km.is_text_compatible
        && ltb km.missing_count 2
        && any
            (λ k.
              k.id == km.key_id
              && k.user_id == user_id
              && is_usable k
              && has_no_error k
              && model_enabled s user_id (record { provider = k.provider; model_id = km.model_id }))
            s.keys)
      s.key_models

unfoldable pub read_preference : Store → ℕ → Option Preference
read_preference s user_id = find (λ p. p.user_id == user_id) s.preferences

abbrev pub default_of : Option Preference → Option ModelChoice
default_of none = none
default_of (some p) = p.default_model

abbrev pub consents : Option Preference → Bool
consents none = false
consents (some p) = option_eq str_eq p.openai_consent_version openai_consent_version

unfoldable pub require_openai_consent : ℕ → Provider → Program Store (Unit {0})
require_openai_consent user_id deepseek = return tt
require_openai_consent user_id openai = do
  consent ← read λ s. consents (read_preference s user_id)
  require consent (conflict "openai_consent_required")

pub record Selection : Type 0 where
  pub model : ModelChoice
  pub key_id : ℕ

unfoldable pub choose_model : ℕ → Option ModelChoice → Option ModelChoice → Program Store Selection
choose_model user_id requested previous = do
  preference ← read λ s. read_preference s user_id
  model ←
      found (or_else requested (or_else previous (default_of preference)))
        (service_unavailable "personal_key_required")
  require_openai_consent user_id model.provider
  available ← read λ s. available_key s user_id model
  key ← found available (service_unavailable "model_unavailable")
  return (record { model = model; key_id = key.id })

abbrev pub is_selected : ℕ → Key → Bool
is_selected key_id k = k.id == key_id && has_no_error k

unfoldable pub require_selected_key : ℕ → ModelChoice → ℕ → Program Store (Unit {0})
require_selected_key user_id model key_id = do
  selected ← read λ s. any (is_selected key_id) (available_keys s user_id model false)
  require selected (conflict "model_unavailable")

-- The key that `generationKey` decrypts.
unfoldable pub generation_key : Store → ℕ → ModelChoice → Option ℕ → Option Key
generation_key s user_id m preferred =
    let keys = available_keys s user_id m true in
    or_else (find (λ k. option_eq ◌==◌ preferred k.id && has_no_error k) keys)
      (find has_no_error keys)

-- keys.slice(keys.findIndex(…) + 1): all the keys where none is found
unfoldable pub keys_after : ℕ → List Key → Option (List Key)
keys_after id [] = none
keys_after id (k ∷ ks) = let rest = keys_after id ks in if k.id == id then some ks else rest

abbrev pub rest_or : List Key → Option (List Key) → List Key
rest_or ks none = ks
rest_or ks (some rest) = rest

-- The key that `nextGenerationKey` decrypts.
unfoldable pub next_generation_key : Store → ℕ → ModelChoice → ℕ → Option Key
next_generation_key s user_id m current =
    let keys = available_keys s user_id m true in
    find has_no_error (rest_or keys (keys_after current keys))
