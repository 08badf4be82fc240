-- ===== src/Assistant/Providers/Errors.antt =====
-- What an error of a provider is held against, and what a catalog may hold.
use gnester_lite.Common.{
  ◌≡◌, ◌↔◌, Bool, true, false, ◌&&◌, ◌||◌, not, if◌then◌else◌, Option, none, some, arith,
}
use gnester_lite.Assistant.Store.{Provider, KeyError, key_invalid, quota_exhausted}
use gnester_lite.Assistant.Providers.{
  one_of, ProviderError, provider_error_code, quota_codes, key_codes, is_deepseek, status_is,
  credential_failure,
}

-- The account of the key has run out: a code says so, or DeepSeek answers 402 and no code says that
-- the key is invalid.
abbrev pub says_exhausted : ProviderError → Provider → Bool
says_exhausted e p =
    one_of quota_codes (provider_error_code e.body)
    || (is_deepseek p && status_is e 402 && not (one_of key_codes (provider_error_code e.body)))

-- The provider does not accept the key: a code says so, or the status is 401.
abbrev pub says_invalid : ProviderError → Bool
says_invalid e = one_of key_codes (provider_error_code e.body) || status_is e 401

-- What the two verdicts on a key mean.
pub record Verdicts (e : ProviderError) (p : Provider) : Type 0 where
  pub exhausted :
      (credential_failure (some e) p ≡ some quota_exhausted) ↔ (says_exhausted e p ≡ true)
  pub invalid :
      (credential_failure (some e) p ≡ some key_invalid)
      ↔ ((says_invalid e && not (says_exhausted e p)) ≡ true)
  pub neither :
      (credential_failure (some e) p ≡ none) ↔ ((says_exhausted e p || says_invalid e) ≡ false)

verdict_of : Bool → Bool → Bool → Bool → Option KeyError
verdict_of q k d u =
    if q
    then some quota_exhausted
    else if k
    then some key_invalid
    else if d
    then some quota_exhausted
    else if u
    then some key_invalid
    else none

exhausted_lem :
    (q k d u : Bool) → (verdict_of q k d u ≡ some quota_exhausted) ↔ ((q || (d && not k)) ≡ true)
unfolding verdict_of
exhausted_lem q k d u = ground arith

invalid_lem :
    (q k d u : Bool)
    → (verdict_of q k d u ≡ some key_invalid) ↔ (((k || u) && not (q || (d && not k))) ≡ true)
unfolding verdict_of
invalid_lem q k d u = ground arith

neither_lem :
    (q k d u : Bool) → (verdict_of q k d u ≡ none) ↔ (((q || (d && not k)) || (k || u)) ≡ false)
unfolding verdict_of
neither_lem q k d u = ground arith

-- An error of a request is held against the account of the key exactly where a code says that it has
-- run out, or DeepSeek answers 402 and no code calls the key invalid; against the key exactly where a
-- code calls it invalid or the status is 401, and the account is not blamed; and against neither
-- otherwise.
pub credential_failure-Verdicts : (e : ProviderError) (p : Provider) → Verdicts e p
unfolding credential_failure verdict_of
credential_failure-Verdicts e p =
    let q = one_of quota_codes (provider_error_code e.body) in
    let k = one_of key_codes (provider_error_code e.body) in
    let d = is_deepseek p && status_is e 402 in
    let u = status_is e 401 in
    record {
      exhausted = exhausted_lem q k d u;
      invalid = invalid_lem q k d u;
      neither = neither_lem q k d u;
    }
