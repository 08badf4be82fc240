-- ===== src/Infra/Tests/Web.antt =====
-- The theorems on the answers to requests and on their language, at concrete inputs.
use gnester_lite.Common.{
  ◌≡◌, refl, arith, All, List, ◌+◌, ◌-◌, ok, Bool, true, false, ◌||◌, ◌==◌, if◌then◌else◌, none,
  some, [], ◌∷◌, ℕ, Text, codes, text_eq, Bool-cases, inl, inr, Option, trim,
}
use gnester_lite.Infra.Http.{
  Library, null, string, object, end, field, Fields, fields, http_exception, thrown, Response,
  envelope, handled, catch, resolve_exception_message, read_http_status, http_status_message_key,
  is_default_http_exception_body, read_validation_errors, is_router_not_found_body,
  default_http_message, localized_http_status_message,
}
use gnester_lite.Infra.Language.{
  absent, zh, Header, single, language_preferences, supported_preferences, part_preference,
  supported_language_preference, language_quality, is_quality_parameter, negotiate,
  resolve_supported_language,
}
use gnester_lite.Infra.Language.Preferred.{
  Preferred, parts_of, resolve_supported_language-Preferred,
}
use gnester_lite.Infra.Encryption.{Crypto, encrypt_string, decrypt_string}
use gnester_lite.Infra.Encryption.Envelope.{decrypt_string-encrypt_string}
use gnester_lite.Infra.Http.Errors.{Settled, catch-Settled, catch-opaque}
use gnester_lite.Infra.Http.Catalog.{resolve_exception_message-localized}

-- A library with three entries in each language, all of one character.
abbrev entry : Text
entry = 20013 ∷ []

abbrev is_entry : Text → Bool
is_entry k =
    text_eq k (codes "http.400")
    || text_eq k (codes "http.500")
    || text_eq k (codes "errors.VALIDATION_FAILED")

abbrev name : ℕ → Option Text
name n = if n == 404 then some (codes "NOT_FOUND") else none

abbrev catalogs : Library
catalogs = record {
  status_name = name;
  translate = λ k language args d. if is_entry k then entry else d;
}

entry_or_default : (k d : Text) → d ≡ entry → (if is_entry k then entry else d) ≡ entry
entry_or_default k d h = elim (Bool-cases (is_entry k)) [
  | inl known ↦ rw known refl
  | inr unknown ↦ rw unknown h
]

-- The body of a route that does not exist, with the path in its message.
abbrev not_found_fields : Fields
not_found_fields =
    field (codes "message") (string (codes "Cannot GET /a"))
      (field (codes "error") (string (codes "Not Found")) end)

resolve_exception_message-localized_example :
    resolve_exception_message catalogs 409 (codes "zh") (fields not_found_fields) ≡ entry
unfolding http_status_message_key
resolve_exception_message-localized_example =
    resolve_exception_message-localized catalogs (codes "zh") (λ t. t ≡ entry)
      (λ k args d. entry_or_default k d) (λ d. refl) (λ d. refl) (λ d. refl) refl 409
      (fields not_found_fields)

abbrev response : Response
response = record {
  headers_sent = false;
  skips_envelope = false;
  varies = false;
  content_language = none;
  replies = [];
  captured = 0;
}

catch-Settled_example :
    Settled response
      (catch catalogs true (http_exception 404 (object not_found_fields)) absent response)
catch-Settled_example =
    catch-Settled catalogs (http_exception 404 (object not_found_fields)) absent response

catch-opaque_example :
    catch catalogs true (thrown (string (codes "secret"))) absent response
    ≡ catch catalogs true (http_exception 302 null) absent response
unfolding read_http_status
catch-opaque_example =
    catch-opaque catalogs (thrown (string (codes "secret"))) (http_exception 302 null) absent
      response refl refl

-- The route that does not exist, in English: the path is not in the message.
not_found_reply :
    catch catalogs true (http_exception 404 (object not_found_fields)) absent response
    ≡ handled (record response {
      headers_sent = true;
      varies = true;
      content_language = some (codes "en");
      replies = envelope 404 (codes "Not Found") none 404 ∷ [];
    })
unfolding catch resolve_supported_language read_http_status resolve_exception_message
    is_default_http_exception_body read_validation_errors is_router_not_found_body
    default_http_message localized_http_status_message http_status_message_key
not_found_reply = refl

abbrev accept_language : Header
accept_language = single (codes "fr, EN-gb; q=0.25,zh-TW ;Q =0.5, *;q=0.9")

resolve_supported_language-Preferred_example :
    Preferred
      (supported_preferences (language_preferences 0 (parts_of accept_language)))
      (resolve_supported_language accept_language)
resolve_supported_language-Preferred_example = resolve_supported_language-Preferred accept_language

-- A range of the language itself goes before the wildcard.
prefers_chinese : resolve_supported_language accept_language ≡ zh
unfolding resolve_supported_language negotiate supported_preferences supported_language_preference
    part_preference language_quality is_quality_parameter trim
prefers_chinese = refl

refuses_english : resolve_supported_language (single (codes "en;q=0, *;q=0.001")) ≡ zh
unfolding resolve_supported_language negotiate supported_preferences supported_language_preference
    part_preference language_quality is_quality_parameter trim
refuses_english = refl

-- An encoding without the colon, and a cipher that keeps the text and tags it with its vector.
abbrev shifted : List ℕ → List ℕ
shifted [] = []
shifted (n ∷ ns) = (n + 59) ∷ shifted ns

abbrev unshifted : List ℕ → List ℕ
unshifted [] = []
unshifted (n ∷ ns) = (n - 59) ∷ unshifted ns

plus_minus : (n : ℕ) → n + 59 - 59 ≡ n
plus_minus n = omega arith

no_colon : (n : ℕ) → (n + 59 == 58) ≡ false
no_colon n = ground arith

unshifted-shifted : (ns : List ℕ) → unshifted (shifted ns) ≡ ns
unshifted-shifted [] = refl
unshifted-shifted (n ∷ ns) = cc (plus_minus n, unshifted-shifted ns)

shifted_plain : (ns : List ℕ) → All (λ c. (c == 58) ≡ false) (shifted ns)
shifted_plain [] = tt
shifted_plain (n ∷ ns) = (no_colon n, shifted_plain ns)

abbrev crypto : Crypto
crypto = record {
  encode = shifted;
  decode = unshifted;
  to_utf8 = λ t. t;
  of_utf8 = λ b. b;
  seal = λ key iv aad b. (b, iv);
  open_sealed = λ key iv tag aad b. some b;
  development_key = [];
  decode_encode = unshifted-shifted;
  encode_plain = shifted_plain;
  open_seal = λ key iv aad b. refl;
}

decrypt_string-encrypt_string_example :
    decrypt_string crypto
      (1 ∷ [])
      (encrypt_string crypto (1 ∷ []) (2 ∷ 3 ∷ []) (codes "sk:1") (some (codes "key")))
      (some (codes "key"))
    ≡ ok (codes "sk:1")
decrypt_string-encrypt_string_example =
    decrypt_string-encrypt_string crypto (1 ∷ []) (2 ∷ 3 ∷ []) (codes "sk:1") (some (codes "key"))
      refl
