-- ===== src/Assistant/Configuration/Keys.antt =====
-- The keys of an account: saved after two checks against the provider, renamed, switched and
-- ordered, removed once no answer is generated with them, and revoked at once.
pub mod Revocation
use gnester_lite.Common.{
  ℕ, suc, Text, trim, is_empty, Bool, true, false, not, ◌&&◌, ◌==◌, leb, if◌then◌else◌, or_else,
  is_some, Option, none, some, option_eq, List, [], ◌∷◌, find, any, map, length, select_where,
  delete_where, update_where, order_by, max_of, String, Program, ◌>>=◌, ◌>>◌, return, throw, read,
  write, require, found, when, catch, bad_request, not_found,
}
use text.Mathlib.Text.{◌==◌ as str_eq}
use gnester_lite.Assistant.Store.{
  Provider, deepseek, openai, provider_eq, ModelChoice, KeyError, Key, Answer, Action, key_created,
  key_replaced, key_updated, key_deleted, key_revoked, key_of, stopped, Store, is_active,
  is_generating_status, random_uuid,
}
use gnester_lite.Assistant.Store.{ErrorCode}
use gnester_lite.Assistant.Generation.{cancel}
use gnester_lite.Assistant.Selection.{key_order}
use gnester_lite.Assistant.Configuration.Audit.{change_configuration, failed_change, owned_key}
use gnester_lite.Assistant.Configuration.Preferences.{repair_default, empty_preference}
use gnester_lite.Assistant.Configuration.Catalog.{CatalogModel, Providers, call, writing_catalog}

abbrev pub is_key : ℕ → ℕ → Key → Bool
is_key user_id key_id k = k.id == key_id && k.user_id == user_id

abbrev pub preferred_ids : Provider → List String
preferred_ids deepseek = "deepseek-flash" ∷ "deepseek-chat" ∷ "deepseek-reasoner" ∷ []
preferred_ids openai = "gpt-4o-mini" ∷ "gpt-4.1-mini" ∷ "gpt-5-mini" ∷ []

-- preferredIds.map(find).find(defined)
abbrev pub first_preferred : List String → List CatalogModel → Option CatalogModel
first_preferred [] models = none
first_preferred (id ∷ ids) models =
    or_else (find (λ (m : CatalogModel). str_eq m.id id) models) (first_preferred ids models)

abbrev pub validation_choice : Provider → List CatalogModel → Option CatalogModel
validation_choice p models =
    or_else (first_preferred (preferred_ids p) models) (find (λ m. true) models)

-- What the two official checks of a candidate find.
pub record Candidate : Type 0 where
  pub catalog : List CatalogModel
  pub validation_model : CatalogModel

abbrev pub action_of : Option ℕ → Action
action_of none = key_created
action_of (some id) = key_replaced

unfoldable pub existing_key : ℕ → Option ℕ → Program Store (Option Key)
existing_key user_id none = return none
existing_key user_id (some id) = do k ← owned_key user_id id (some key_replaced); return (some k)

abbrev pub same_provider : Option Key → Provider → Bool
same_provider none p = true
same_provider (some k) p = provider_eq k.provider p

unfoldable pub key_id_of : Option ℕ → Program Store ℕ
key_id_of (some id) = return id
key_id_of none = random_uuid

-- COALESCE(MAX(`position`), -1) + 1
abbrev pub next_position : Store → ℕ → Provider → ℕ
next_position s user_id p =
    max_of (λ k. suc k.position)
      (select_where (λ k. k.user_id == user_id && provider_eq k.provider p) s.keys)

unfoldable pub replacing_key : ℕ → ℕ → Text → Text → Store → Store
replacing_key user_id key_id name encrypted s = record s {
  keys =
      update_where (is_key user_id key_id)
        (λ k. record k {
          name = name;
          encrypted_key = encrypted;
          is_enabled = true;
          last_error_code = none;
        })
        s.keys;
}

unfoldable pub inserting_key : ℕ → ℕ → Provider → Text → Text → Store → Store
inserting_key user_id key_id p name encrypted s = record s {
  keys =
      record {
        id = key_id;
        user_id = user_id;
        provider = p;
        name = name;
        encrypted_key = encrypted;
        is_enabled = true;
        is_pending_deletion = false;
        position = next_position s user_id p;
        last_error_code = none;
        created_at = s.now;
      }
      ∷ s.keys;
}

unfoldable pub storing_key : Option Key → ℕ → ℕ → Provider → Text → Text → Store → Store
storing_key (some k) user_id key_id p name encrypted s =
    replacing_key user_id key_id name encrypted s
storing_key none user_id key_id p name encrypted s = inserting_key user_id key_id p name encrypted s

-- INSERT IGNORE of the account's preferences
unfoldable pub ensuring_preference : ℕ → Store → Store
ensuring_preference user_id s = record s {
  preferences =
      if any (λ p. p.user_id == user_id) s.preferences
      then s.preferences
      else empty_preference user_id ∷ s.preferences;
}

-- SET `defaultProvider`, `defaultModel` WHERE `defaultModel` IS NULL
unfoldable pub defaulting : ℕ → ModelChoice → Store → Store
defaulting user_id m s = record s {
  preferences =
      update_where (λ p. p.user_id == user_id && not (is_some p.default_model))
        (λ p. record p { default_model = some m }) s.preferences;
}

-- `keys.filter(id !== keyId)` with `keyId` put in at the place asked for, or at the end
abbrev pub insert_at : ℕ → ℕ → List ℕ → List ℕ
insert_at key_id place [] = key_id ∷ []
insert_at key_id place (id ∷ ids) = elim place [
  | ℕ.zero ↦ key_id ∷ id ∷ ids
  | ℕ.suc n ↦ id ∷ insert_at key_id n ids
]

-- for (const [position, id] of orderedIds.entries()) UPDATE … SET `position`
unfoldable pub placing : ℕ → List ℕ → List Key → List Key
placing n [] keys = keys
placing n (id ∷ ids) keys =
    placing (suc n) ids (update_where (λ k. k.id == id) (λ k. record k { position = n }) keys)

abbrev pub siblings : Store → ℕ → Provider → List ℕ
siblings s user_id p =
    map (λ (k : Key). k.id)
      (order_by key_order (
        select_where
          (λ k. k.user_id == user_id && provider_eq k.provider p && not k.is_pending_deletion)
          s.keys))

abbrev pub reordered : Store → ℕ → Provider → ℕ → ℕ → List ℕ
reordered s user_id p key_id place =
    insert_at key_id place (delete_where (λ id. id == key_id) (siblings s user_id p))

unfoldable pub ordering : ℕ → Provider → ℕ → ℕ → Store → Store
ordering user_id p key_id place s = record s {
  keys = placing 0 (reordered s user_id p key_id place) s.keys;
}

unfoldable pub order_key : ℕ → Provider → ℕ → Option ℕ → Program Store (Unit {0})
order_key user_id p key_id none = return tt
order_key user_id p key_id (some place) = write (ordering user_id p key_id place)

abbrev pub get_or {ℓ} : {A : Type ℓ} → Option A → A → A
get_or none a = a
get_or (some b) a = b

unfoldable pub updating_key : ℕ → ℕ → Option Text → Option Bool → Store → Store
updating_key user_id key_id name enabled s = record s {
  keys =
      update_where (is_key user_id key_id)
        (λ k. record k { name = get_or name k.name; is_enabled = get_or enabled k.is_enabled })
        s.keys;
}

abbrev pub named : Option Text → Bool
named none = true
named (some n) = not (is_empty (trim n))

abbrev pub trimmed : Option Text → Option Text
trimmed none = none
trimmed (some n) = some (trim n)

unfoldable pub update_key : ℕ → ℕ → Option Text → Option Bool → Option ℕ → Program Store (Unit {0})
update_key user_id key_id name enabled place = do
  owned ← owned_key user_id key_id (some key_updated)
  require (named name) (bad_request "Key name is required")
  change_configuration user_id key_updated (key_of owned.provider (some key_id)) do
    write (updating_key user_id key_id (trimmed name) enabled)
    order_key user_id owned.provider key_id place
    repair_default user_id

-- DELETE of a key, with the foreign key's ON DELETE CASCADE to its catalog rows.
abbrev pub without_rows : (Key → Bool) → Store → Store
without_rows p s = record s {
  keys = delete_where p s.keys;
  key_models = delete_where (λ km. any (λ k. p k && k.id == km.key_id) s.keys) s.key_models;
}

unfoldable pub removing_pending : ℕ → Store → Store
removing_pending key_id s = without_rows (λ k. k.id == key_id && k.is_pending_deletion) s

abbrev pub is_generated_with : ℕ → Answer → Bool
is_generated_with key_id a = option_eq ◌==◌ a.key_id key_id && is_generating_status a.status

unfoldable pub finish_key_deletion : ℕ → Program Store (Unit {0})
finish_key_deletion key_id = do
  busy ← read λ s. any (is_generated_with key_id) s.answers
  when (not busy) (write (removing_pending key_id))

unfoldable pub retracting_key : ℕ → ℕ → Store → Store
retracting_key user_id key_id s = record s {
  keys =
      update_where (is_key user_id key_id)
        (λ k. record k { is_enabled = false; is_pending_deletion = true }) s.keys;
}

unfoldable pub delete_key : ℕ → ℕ → Program Store (Unit {0})
delete_key user_id key_id = do
  key ← owned_key user_id key_id (some key_deleted)
  change_configuration user_id key_deleted (key_of key.provider (some key_id))
      do write (retracting_key user_id key_id); repair_default user_id
  finish_key_deletion key_id

-- The active answers of the account that use the key.
abbrev pub is_active_with : ℕ → ℕ → Answer → Bool
is_active_with user_id key_id a =
    a.user_id == user_id && option_eq ◌==◌ a.key_id key_id && is_active a.status

unfoldable pub stopping_revoked : ℕ → ℕ → Store → Store
stopping_revoked user_id key_id s = record s {
  answers =
      update_where (is_active_with user_id key_id)
        (λ a. record a {
          status = stopped;
          error_code = some ErrorCode.key_revoked;
          updated_at = s.now;
        })
        s.answers;
}

unfoldable pub removing_key : ℕ → ℕ → Store → Store
removing_key user_id key_id s = without_rows (is_key user_id key_id) s

-- The transaction of `revokeKey`, which returns the answers that it stopped.
unfoldable pub revocation : ℕ → ℕ → Program Store (List Answer)
revocation user_id key_id = do
  held ← read λ s. any (is_key user_id key_id) s.keys
  require held (not_found "Not Found")
  answers ← read λ s. select_where (is_active_with user_id key_id) s.answers
  write (stopping_revoked user_id key_id)
  write (removing_key user_id key_id)
  repair_default user_id
  return answers

unfoldable pub cancel_answers : List Answer → Program Store (Unit {0})
cancel_answers [] = return tt
cancel_answers (a ∷ rows) = do cancel a.id; cancel_answers rows

unfoldable pub revoke_key : ℕ → ℕ → Program Store (Unit {0})
revoke_key user_id key_id = do
  owned ← owned_key user_id key_id (some key_revoked)
  stopped_answers ←
      change_configuration user_id key_revoked (key_of owned.provider (some key_id))
        (revocation user_id key_id)
  cancel_answers stopped_answers

unfoldable pub failing_key : ℕ → KeyError → Store → Store
failing_key key_id code s = record s {
  keys = update_where (λ k. k.id == key_id) (λ k. record k { last_error_code = some code }) s.keys;
}

unfoldable pub repair_owner : Option Key → Program Store (Unit {0})
repair_owner none = return tt
repair_owner (some k) = repair_default k.user_id

unfoldable pub mark_key_failure : ℕ → KeyError → Program Store (Unit {0})
mark_key_failure key_id code = do
  write (failing_key key_id code)
  row ← read λ s. find (λ k. k.id == key_id) s.keys
  repair_owner row

module _ (env : Providers) where
  unfoldable pub validate_candidate : Provider → Text → Program Store Candidate
  validate_candidate p secret = do
    catalog ← call (env.read_catalog p secret)
    model ←
        found (validation_choice p (select_where (env.is_text_model p) catalog))
          (bad_request "No compatible text model is available for this Key")
    catch (call (env.verify_text_generation p model.id secret))
        (λ _. throw (bad_request "API Key validation failed"))
    return (record { catalog = catalog; validation_model = model })

  -- The transaction of `saveKey`.
  unfoldable pub store_candidate :
      ℕ → Option Key → ℕ → Provider → Text → Text → Candidate → Program Store (Unit {0})
  store_candidate user_id existing key_id p name encrypted c = do
    write (storing_key existing user_id key_id p name encrypted)
    write (writing_catalog env key_id p c.catalog)
    write (ensuring_preference user_id)
    write (defaulting user_id (record { provider = p; model_id = c.validation_model.id }))
    repair_default user_id

  unfoldable pub save_key : ℕ → Provider → Text → Text → Option ℕ → Program Store (Unit {0})
  save_key user_id p name api_key existing_id = do
    let secret = trim api_key
    require (not (is_empty (trim name)) && not (is_empty secret) && leb (length secret) 512)
        (bad_request "Key name and API Key are required")
    existing ← existing_key user_id existing_id
    require (same_provider existing p) (bad_request "Provider cannot be changed")
    candidate ←
        catch (validate_candidate p secret)
          (failed_change user_id (action_of existing_id) (key_of p existing_id))
    key_id ← key_id_of existing_id
    change_configuration user_id (action_of existing_id) (key_of p (some key_id)) (
        store_candidate user_id existing key_id p (trim name) (env.encrypt secret user_id p key_id)
          candidate)
