-- ===== src/Assistant/Selection/Choice.antt =====
-- What a chosen model and key satisfy.
use gnester_lite.Common.{
  ℕ, ◌≡◌, ap, sym, ◌∙◌, Bool, true, false, Option, none, some, or_else, All, All-find,
  All-select_where, All-order_by, find_holds, arith, Returns, bind-then, read-bind, found-then,
  require-Returns, return-then, return-Returns,
}
use gnester_lite.Assistant.Store.{Provider, deepseek, openai, provider_eq, ModelChoice, Key, Store}
use gnester_lite.Assistant.Generation.{model_enabled, is_usable}
use gnester_lite.Assistant.Selection.{
  Selection, lists_model, serves, key_order, available_keys, available_key, has_no_error,
  read_preference, default_of, consents, require_openai_consent, choose_model,
}

pub available_keys-serves :
    (s : Store) (user_id : ℕ) (m : ModelChoice) (already : Bool)
    → All (λ k. serves s user_id m already k ≡ true) (available_keys s user_id m already)
unfolding available_keys
available_keys-serves s user_id m already =
    All-order_by (λ k. serves s user_id m already k ≡ true) key_order _
      (All-select_where (serves s user_id m already) s.keys)

-- A key of the account and provider that is enabled, is not being deleted, has no recorded failure
-- and lists the model, which the account has not switched off.
pub record Offers (s : Store) (user_id : ℕ) (m : ModelChoice) (k : Key) : Type 0 where
  pub owner : k.user_id ≡ user_id
  pub provider : provider_eq k.provider m.provider ≡ true
  pub usable : is_usable k ≡ true
  pub listed : lists_model s k m.model_id ≡ true
  pub enabled : model_enabled s user_id m ≡ true
  pub healthy : k.last_error_code ≡ none

serves-Offers :
    (s : Store) (user_id : ℕ) (m : ModelChoice) (k : Key)
    → serves s user_id m false k ≡ true
    → has_no_error k ≡ true
    → Offers s user_id m k
serves-Offers s user_id m k h e = record {
  owner = ground arith;
  provider = ground arith;
  usable = ground arith;
  listed = ground arith;
  enabled = ground arith;
  healthy = ground arith;
}

pub available_key-Offers :
    (s : Store) (user_id : ℕ) (m : ModelChoice) (k : Key)
    → available_key s user_id m ≡ some k
    → Offers s user_id m k
unfolding available_key
available_key-Offers s user_id m k e =
    serves-Offers s user_id m k
      (All-find (λ k. serves s user_id m false k ≡ true) has_no_error
        (available_keys s user_id m false) k (available_keys-serves s user_id m false) e)
      (find_holds has_no_error (available_keys s user_id m false) k e)

require_openai_consent-Returns :
    (user_id : ℕ) (p : Provider) (s : Store) (u : Unit {0}) (t : Store)
    → Returns (require_openai_consent user_id p) s u t
    → (t ≡ s) × ((p ≡ openai) → consents (read_preference s user_id) ≡ true)
unfolding require_openai_consent
require_openai_consent-Returns user_id deepseek s u t h = ((return-Returns tt s u t h).1, λ e. cc)
require_openai_consent-Returns user_id openai s u t h =
    let x = require-Returns _ _ s u t (read-bind _ _ s u t h) in (x.1, λ _. x.0)

-- What `chooseModel` returns: the requested model, else the previous one, else the account's
-- default, with a key that offers it; for OpenAI the account has given the current consent. The
-- store is as it was.
pub record Chosen (user_id : ℕ) (requested previous : Option ModelChoice) (s : Store)
    (x : Selection) (t : Store) : Type 0 where
  pub unchanged : t ≡ s
  pub preferred :
      or_else requested (or_else previous (default_of (read_preference s user_id))) ≡ some x.model
  pub key : Key
  pub names : key.id ≡ x.key_id
  pub offers : Offers s user_id x.model key
  pub consented : x.model.provider ≡ openai → consents (read_preference s user_id) ≡ true

-- A choice that returned leaves the store as it was; its model is the one requested, else the previous
-- one, else the account's default; its key is of the account and the model's provider, is enabled, not
-- pending deletion and without a recorded failure, and lists the model, which the account has not
-- switched off; and for OpenAI the account has given the current consent.
pub choose_model-Chosen :
    (user_id : ℕ) (requested previous : Option ModelChoice) (s : Store) (x : Selection) (t : Store)
    → Returns (choose_model user_id requested previous) s x t
    → Chosen user_id requested previous s x t
unfolding choose_model
choose_model-Chosen user_id requested previous s x t h =
    found-then _ _ _ s x t (read-bind _ _ s x t h) λ m preferred h₁.
      bind-then _ _ s x t h₁ λ u v asked h₂.
        found-then _ _ _ v x t (read-bind _ _ v x t h₂) λ k available h₃.
          return-then _ v x t h₃ λ selected same.
            let (kept, consented) = require_openai_consent-Returns user_id m.provider s u v asked in
            record {
              unchanged = same ∙ kept;
              preferred = preferred ∙ ap (λ (y : Selection). some y.model) (sym selected);
              key = k;
              names = ap (λ (y : Selection). y.key_id) (sym selected);
              offers = rw selected (available_key-Offers s user_id m k (rw (sym kept) available));
              consented =
                  λ e. consented (ap (λ (y : Selection). y.model.provider) (sym selected) ∙ e);
            }
