-- ===== src/Assistant/Configuration/Catalog/Retirement.antt =====
-- What the retirement of a model leaves.
use text.Mathlib.Text.{◌==◌ as str_eq}
use gnester_lite.Common.{
  ℕ, ◌≡◌, refl, ap, ◌∙◌, Bool, true, false, ◌&&◌, ◌==◌, List, [], ◌∷◌, find, any, All,
  any-update_where, select_where, order_by, Bool-cases, inl, inr, arith, Returns, write-bind,
  write-Returns, is_some, ltb,
}
use gnester_lite.Assistant.Store.{provider_eq, ModelChoice, Key, Store}
use gnester_lite.Assistant.Selection.{
  has_no_error, lists_model, serves, key_order, available_keys, available_key, is_model_available,
  read_preference, default_of,
}
use gnester_lite.Assistant.Configuration.Preferences.{repairing, repair_default}
use gnester_lite.Assistant.Configuration.Preferences.Repair.{Usable, repairing-Usable}
use gnester_lite.Assistant.Configuration.Keys.Revocation.{repairing_lem}
use gnester_lite.Assistant.Configuration.Catalog.{is_catalog_row, retiring, retire_model}

module _ (user_id : ℕ) (m : ModelChoice) where
  -- A key of the account and the model's provider.
  abbrev holds : Key → Bool
  holds k = k.user_id == user_id && provider_eq k.provider m.provider

  abbrev names : ℕ → Key → Bool
  names id k = k.id == id && k.user_id == user_id && provider_eq k.provider m.provider

  any_more :
      (x : Key) (rows ks : List Key)
      → All (λ k. holds k ≡ true → any (names k.id) rows ≡ true) ks
      → All (λ k. holds k ≡ true → any (names k.id) (x ∷ rows) ≡ true) ks
  any_more x rows [] h = tt
  any_more x rows (k ∷ ks) (h, r) = (λ e. ground (arith, h e), any_more x rows ks r)

  All-names : (ks : List Key) → All (λ k. holds k ≡ true → any (names k.id) ks ≡ true) ks
  All-names [] = tt
  All-names (k ∷ ks) = (λ e. ground (arith, e), any_more k ks ks (All-names ks))

  lists_model-retiring :
      (s : Store) (k : Key)
      → any (names k.id) s.keys ≡ true
      → lists_model (retiring user_id m s) k m.model_id ≡ false
  unfolding retiring
  lists_model-retiring s k h =
      any-update_where
        (λ km.
          km.key_id == k.id
          && str_eq km.model_id m.model_id
          && km.is_text_compatible
          && ltb km.missing_count 2)
        (is_catalog_row s user_id m) (λ km. record km { missing_count = 2 }) s.key_models
        (λ km hit. ground arith)
        (λ km listed. ground (arith, listed, h, ap (λ (n : ℕ). any (names n) s.keys)))

  serves-retiring :
      (s : Store) (k : Key)
      → (holds k ≡ true → any (names k.id) s.keys ≡ true)
      → serves (retiring user_id m s) user_id m false k ≡ false
  serves-retiring s k h = elim (Bool-cases (holds k)) [
    | inl mine ↦ ground (arith, mine, lists_model-retiring s k (h mine))
    | inr other ↦ ground (arith, other)
  ]

  select_where-none :
      (s : Store) (ks : List Key)
      → All (λ k. holds k ≡ true → any (names k.id) s.keys ≡ true) ks
      → select_where (serves (retiring user_id m s) user_id m false) ks ≡ []
  select_where-none s [] h = refl
  select_where-none s (k ∷ ks) (h, r) = rw (serves-retiring s k h) (select_where-none s ks r)

  keys_kept : (s : Store) → (retiring user_id m s).keys ≡ s.keys
  unfolding retiring
  keys_kept s = refl

  unavailable-retiring : (s : Store) → is_model_available (retiring user_id m s) user_id m ≡ false
  unfolding is_model_available available_key available_keys
  unavailable-retiring s =
      ap (λ (ks : List Key). is_some (find has_no_error (order_by key_order ks)))
        (ap (select_where (serves (retiring user_id m s) user_id m false)) (keys_kept s)
          ∙ select_where-none s s.keys (All-names s.keys))

  -- Availability does not read the preferences.
  unavailable-repairing :
      (s : Store)
      → is_model_available (repairing user_id s) user_id m ≡ is_model_available s user_id m
  unfolding is_model_available available_key available_keys
  unavailable-repairing s = rw (repairing_lem user_id s) refl

  -- After the retirement of a model the account has no key that offers it, and no default model or one
  -- that it can use.
  pub retire_model-unavailable :
      (s : Store) (x : Unit {0}) (t : Store)
      → Returns (retire_model user_id m) s x t
      → (is_model_available t user_id m ≡ false)
        × Usable t user_id (default_of (read_preference t user_id))
  unfolding retire_model repair_default
  retire_model-unavailable s x t h =
      let ended = write-Returns _ _ x t (write-bind _ _ s x t h) in
      (
        rw ended (unavailable-repairing (retiring user_id m s) ∙ unavailable-retiring s),
        rw ended (repairing-Usable user_id (retiring user_id m s)),
      )
