-- ===== src/Assistant/Configuration/Catalog.antt =====
-- The catalog rows of a key: what a synchronisation with the provider writes, and the retirement of
-- a model that a request found missing.
pub mod Retirement
use gnester_lite.Common.{
  ℕ, suc, Text, Bool, true, false, ◌&&◌, ◌==◌, if◌then◌else◌, Option, none, some, List, [], ◌∷◌,
  find, any, select_where, update_where, String, Result, ok, err, Program, ◌>>=◌, ◌>>◌, write, when,
  transaction,
}
use text.Mathlib.Text.{◌==◌ as str_eq}
use gnester_lite.Assistant.Store.{
  Provider, provider_eq, ModelChoice, KeyError, quota_exhausted, Key, KeyModel, Store,
}
use gnester_lite.Assistant.Configuration.Audit.{owned_key}
use gnester_lite.Assistant.Configuration.Preferences.{repair_default}

-- A model of the provider's catalog, with the modalities that it may declare.
pub record CatalogModel : Type 0 where
  pub id : String
  pub input_modalities : Option (List String)
  pub output_modalities : Option (List String)

-- What the configuration service asks of the two providers and of the encryption.
pub record Providers : Type 0 where
  pub read_catalog : Provider → Text → Result (List CatalogModel)
  pub is_text_model : Provider → CatalogModel → Bool
  pub verify_text_generation : Provider → String → Text → Result (Unit {0})
  pub encrypt : Text → ℕ → Provider → ℕ → Text
  pub decrypt : Text → ℕ → Provider → ℕ → Result Text

-- The outcome of a call that leaves the store alone.
unfoldable pub call : {A : Type 0} → Result A → Program Store A
call r s = (r, s)

abbrev pub is_row : ℕ → String → KeyModel → Bool
is_row key_id model_id km = km.key_id == key_id && str_eq km.model_id model_id

-- INSERT … ON DUPLICATE KEY UPDATE of one catalog model
abbrev pub upsert_row : ℕ → String → Bool → ℕ → List KeyModel → List KeyModel
upsert_row key_id model_id compatible now rows =
    if any (is_row key_id model_id) rows
    then update_where (is_row key_id model_id)
        (λ km. record km { is_text_compatible = compatible; missing_count = 0; last_seen_at = now })
        rows
    else record {
      key_id = key_id;
      model_id = model_id;
      is_text_compatible = compatible;
      missing_count = 0;
      last_seen_at = now;
    }
      ∷ rows

unfoldable pub miss_row : ℕ → List CatalogModel → List KeyModel → List KeyModel → List KeyModel
miss_row key_id catalog [] rows = rows
miss_row key_id catalog (p ∷ previous) rows = miss_row key_id catalog previous (
    if any (λ (m : CatalogModel). str_eq m.id p.model_id) catalog
    then rows
    else update_where (is_row key_id p.model_id)
        (λ km. record km { missing_count = suc km.missing_count }) rows)

abbrev pub is_exhausted : Option KeyError → Bool
is_exhausted (some quota_exhausted) = true
is_exhausted _ = false

unfoldable pub recovering : ℕ → ℕ → Store → Store
recovering user_id key_id s = record s {
  keys =
      update_where (λ k. k.id == key_id && k.user_id == user_id && is_exhausted k.last_error_code)
        (λ k. record k { last_error_code = none }) s.keys;
}

-- The catalog rows of the account for a model: those of its keys of the provider.
abbrev pub is_catalog_row : Store → ℕ → ModelChoice → KeyModel → Bool
is_catalog_row s user_id m km =
    str_eq km.model_id m.model_id
    && any (λ k. k.id == km.key_id && k.user_id == user_id && provider_eq k.provider m.provider)
        s.keys

unfoldable pub retiring : ℕ → ModelChoice → Store → Store
retiring user_id m s = record s {
  key_models =
      update_where (is_catalog_row s user_id m) (λ km. record km { missing_count = 2 })
        s.key_models;
}

unfoldable pub retire_model : ℕ → ModelChoice → Program Store (Unit {0})
retire_model user_id m = do write (retiring user_id m); repair_default user_id

module _ (env : Providers) where
  unfoldable pub see_rows : ℕ → Provider → ℕ → List CatalogModel → List KeyModel → List KeyModel
  see_rows key_id p now [] rows = rows
  see_rows key_id p now (m ∷ ms) rows =
      see_rows key_id p now ms (upsert_row key_id m.id (env.is_text_model p m) now rows)

  -- `writeCatalog`
  unfoldable pub writing_catalog : ℕ → Provider → List CatalogModel → Store → Store
  writing_catalog key_id p catalog s =
      let seen = see_rows key_id p s.now catalog s.key_models in
      record s {
        key_models = miss_row key_id catalog (select_where (λ km. km.key_id == key_id) seen) seen;
      }

  abbrev pub first_text_model : Provider → List CatalogModel → Option CatalogModel
  first_text_model p catalog = find (env.is_text_model p) catalog

  -- Whether a text call of an exhausted key succeeds again.
  abbrev pub answers_again : Provider → Text → Option CatalogModel → Bool
  answers_again p secret none = false
  answers_again p secret (some m) = elim (env.verify_text_generation p m.id secret) [
    | ok done ↦ true
    | err e ↦ false
  ]

  abbrev pub has_recovered : Key → Text → List CatalogModel → Bool
  has_recovered key secret catalog =
      is_exhausted key.last_error_code
      && answers_again key.provider secret (first_text_model key.provider catalog)

  unfoldable pub refresh_models : ℕ → ℕ → Program Store (Unit {0})
  refresh_models user_id key_id = do
    key ← owned_key user_id key_id none
    secret ← call (env.decrypt key.encrypted_key user_id key.provider key.id)
    catalog ← call (env.read_catalog key.provider secret)
    transaction do
      write (writing_catalog key_id key.provider catalog)
      when (has_recovered key secret catalog) (write (recovering user_id key_id))
    repair_default user_id
