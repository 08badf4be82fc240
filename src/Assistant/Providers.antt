-- ===== src/Assistant/Providers.antt =====
-- assistant-provider.service.ts: which models of a catalog take and give text, what an error of a
-- provider says of the key or of the model, and how the replies of the providers are read. The
-- network is a parameter: a reply is a value.
pub mod Errors
pub use gnester_lite.Common.{codes, after_prefix}
use text.Mathlib.Text.{◌==◌ as str_eq}
use gnester_lite.Common.{
  ℕ, ◌+◌, Text, Bool, true, false, not, ◌&&◌, ◌||◌, ◌==◌, leb, if◌then◌else◌, Option, none, some,
  is_some, List, [], ◌∷◌, length, any, String, Result, ok, err, bad_request, service_unavailable,
  internal,
}
use gnester_lite.Assistant.Store.{
  Provider, deepseek, openai, KeyError, key_invalid, quota_exhausted,
}
use gnester_lite.Assistant.Configuration.Catalog.{CatalogModel, Providers}

abbrev pub includes : Text → Text → Bool
includes word [] = is_some (after_prefix word [])
includes word (c ∷ cs) = is_some (after_prefix word (c ∷ cs)) || includes word cs

-- An ASCII letter in lower case: the flag `i` of a pattern.
abbrev pub lower : ℕ → ℕ
lower c = if leb b'A' c && leb c b'Z' then c + 32 else c

abbrev pub lower_case : Text → Text
lower_case [] = []
lower_case (c ∷ cs) = lower c ∷ lower_case cs

abbrev pub one_of : List String → String → Bool
one_of words s = any (str_eq s) words

abbrev pub begins_in : ℕ → ℕ → Option Text → Bool
begins_in low high (some (c ∷ cs)) = leb low c && leb c high
begins_in low high _ = false

-- /^gpt-[4-9]/
abbrev pub is_gpt : Text → Bool
is_gpt id = begins_in b'4' b'9' (after_prefix (codes "gpt-") id)

-- (?:[.-]|$)
abbrev pub ends_series : Text → Bool
ends_series [] = true
ends_series (c ∷ cs) = c == b'.' || c == b'-'

abbrev pub is_series : Option Text → Bool
is_series (some (d ∷ rest)) = leb b'1' d && leb d b'9' && ends_series rest
is_series _ = false

-- /^o[1-9](?:[.-]|$)/
abbrev pub is_o_series : Text → Bool
is_o_series id = is_series (after_prefix (codes "o") id)

abbrev pub text_names : List String
text_names = "deepseek-chat" ∷ "deepseek-reasoner" ∷ "deepseek-flash" ∷ []

abbrev pub special_names : List String
special_names =
    "audio" ∷ "realtime" ∷ "image" ∷ "transcrib" ∷ "tts" ∷ "embedding" ∷ "moderation" ∷ "search"
    ∷ []

abbrev pub is_special : String → Bool
is_special id = any (λ word. includes (codes word) (lower_case (codes id))) special_names

-- Both modalities are declared, and each has text.
abbrev pub deepseek_text : CatalogModel → Option (List String) → Option (List String) → Bool
deepseek_text m (some inputs) (some outputs) = one_of inputs "text" && one_of outputs "text"
deepseek_text m _ _ = one_of text_names m.id

-- `isTextModel`
unfoldable pub is_text_model : Provider → CatalogModel → Bool
is_text_model deepseek m = deepseek_text m m.input_modalities m.output_modalities
is_text_model openai m = (is_gpt (codes m.id) || is_o_series (codes m.id)) && not (is_special m.id)

-- A value of a JSON document where a text is expected: `null` and a missing field, a text, or
-- another value.
pub data Field : Type 0 where
  missing other : Field
  text_value : String → Field

-- An error that a request to a provider threw, as far as it is read: not an object, or an object with
-- the HTTP status and the fields `error.code` and `error.type` of its body, where the body is a text
-- that parses.
pub record ErrorBody : Type 0 where
  pub code : Field
  pub kind : Field

pub record ProviderError : Type 0 where
  pub status_code : Option ℕ
  pub body : Option ErrorBody

abbrev pub coalesce : Field → Field → Field
coalesce missing f = f
coalesce f g = f

abbrev pub text_of : Field → String
text_of (text_value s) = s
text_of _ = ""

unfoldable pub provider_error_code : Option ErrorBody → String
provider_error_code none = ""
provider_error_code (some b) = text_of (coalesce b.code b.kind)

abbrev pub quota_codes : List String
quota_codes = "insufficient_quota" ∷ "billing_hard_limit_reached" ∷ "insufficient_balance" ∷ []

abbrev pub key_codes : List String
key_codes = "invalid_api_key" ∷ "authentication_error" ∷ []

abbrev pub model_codes : List String
model_codes = "model_not_found" ∷ "model_not_exist" ∷ "invalid_model" ∷ []

abbrev pub status_is : ProviderError → ℕ → Bool
status_is e n = elim e.status_code [ none ↦ false | some m ↦ m == n ]

abbrev pub is_deepseek : Provider → Bool
is_deepseek deepseek = true
is_deepseek openai = false

unfoldable pub credential_failure : Option ProviderError → Provider → Option KeyError
credential_failure none p = none
credential_failure (some e) p =
    let error_code = provider_error_code e.body in
    if one_of quota_codes error_code
    then some quota_exhausted
    else if one_of key_codes error_code
    then some key_invalid
    else if is_deepseek p && status_is e 402
    then some quota_exhausted
    else if status_is e 401
    then some key_invalid
    else none

unfoldable pub is_missing_model_failure : Option ProviderError → Bool
is_missing_model_failure none = false
is_missing_model_failure (some e) = one_of model_codes (provider_error_code e.body)

-- A model of a reply, whose identifier may be no text.
pub record ListedModel : Type 0 where
  pub id : Field
  pub input_modalities : Option (List String)
  pub output_modalities : Option (List String)

-- What `fetch` of the catalog comes to: it throws, the status is not 2xx, the body does not parse, or
-- it parses to an object with or without an array `data`, whose entries may be null.
pub data CatalogReply : Type 0 where
  unreachable refused unreadable : CatalogReply
  answered : Option (List (Option ListedModel)) → CatalogReply

-- The length of a text of JavaScript: its UTF-16 units.
abbrev pub units : Text → ℕ
units [] = 0
units (c ∷ cs) = (if leb 65536 c then 2 else 1) + units cs

abbrev pub listed_model : ListedModel → Field → Option CatalogModel
listed_model m (text_value id) =
    if leb (units (codes id)) 100
    then some (record {
      id = id;
      input_modalities = m.input_modalities;
      output_modalities = m.output_modalities;
    })
    else none
listed_model m _ = none

abbrev pub consed {ℓ} : {A : Type ℓ} → Option A → List A → List A
consed none xs = xs
consed (some x) xs = x ∷ xs

abbrev pub consed_to {ℓ} : {A : Type ℓ} → Option A → Option (List A) → Option (List A)
consed_to o none = none
consed_to o (some xs) = some (consed o xs)

-- The filter throws at an entry that is null: `none`.
unfoldable pub listed_models : List (Option ListedModel) → Option (List CatalogModel)
listed_models [] = some []
listed_models (none ∷ ms) = none
listed_models (some m ∷ ms) = consed_to (listed_model m m.id) (listed_models ms)

abbrev pub catalog_of : Option (List CatalogModel) → Result (List CatalogModel)
catalog_of none = err (internal "TypeError")
catalog_of (some models) = ok models

unfoldable pub read_catalog : CatalogReply → Result (List CatalogModel)
read_catalog unreachable = err (service_unavailable "Model catalog is unavailable")
read_catalog refused = err (bad_request "API Key cannot read the official model catalog")
read_catalog unreadable = err (internal "SyntaxError")
read_catalog (answered none) = err (service_unavailable "Invalid model catalog")
read_catalog (answered (some models)) = catalog_of (listed_models models)

pub data BalanceStatus : Type 0 where
  available unsupported unavailable : BalanceStatus

pub record Amount : Type 0 where
  pub currency : String
  pub amount : String

pub record Balance : Type 0 where
  pub status : BalanceStatus
  pub balances : List Amount

-- The reply to the request of a balance: it failed in some way, or has an array of entries or none.
pub data BalanceReply : Type 0 where
  failed : BalanceReply
  infos : Option (List Amount) → BalanceReply

unfoldable pub read_balance : Provider → BalanceReply → Balance
read_balance openai reply = record { status = unsupported; balances = [] }
read_balance deepseek failed = record { status = unavailable; balances = [] }
read_balance deepseek (infos none) = record { status = unavailable; balances = [] }
read_balance deepseek (infos (some [])) = record { status = unavailable; balances = [] }
read_balance deepseek (infos (some (a ∷ entries))) = record {
  status = available;
  balances = a ∷ entries;
}

-- The network and the encryption, as the rest of the program sees them.
pub record Network : Type 0 where
  pub catalog_reply : Provider → Text → CatalogReply
  pub generates_text : Provider → String → Text → Result (Unit {0})
  pub encrypt : Text → ℕ → Provider → ℕ → Text
  pub decrypt : Text → ℕ → Provider → ℕ → Result Text

-- What the configuration service asks of the providers, filled by this service.
abbrev pub providers_of : Network → Providers
providers_of net = record {
  read_catalog = λ p secret. read_catalog (net.catalog_reply p secret);
  is_text_model = is_text_model;
  verify_text_generation = net.generates_text;
  encrypt = net.encrypt;
  decrypt = net.decrypt;
}
