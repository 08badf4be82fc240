-- ===== src/Infra/Http/Catalog.antt =====
-- infra/http/api-exception.filter.ts: the language of the message of an exception.
use gnester_lite.Common.{
  ℕ, ◌≡◌, Bool, true, false, ◌||◌, leb, if◌then◌else◌, Option, none, some, Text, trim, is_empty,
  text_eq, codes, Bool-cases, inl, inr,
}
use gnester_lite.Infra.Http.{
  Library, Fields, Body, plain, fields, get, args_of, string_of, starts_with, is_fallback, is_some,
  read_validation_errors, generic_status, default_message, http_status_message_key,
  localized_http_status_message, localized, keyed, literal, field_message, business_message,
  is_default_http_exception_body, is_router_not_found_body, resolve_exception_message,
}

-- Both branches of a test.
either : (P : Text → Type 0) (b : Bool) {t u : Text} → P t → P u → P (if b then t else u)
either P true h k = h
either P false h k = k

module _ (l : Library) (language : Text) (P : Text → Type 0)
    (translated : (k : Text) (args : Option Fields) (d : Text)
      → P d
      → P (l.translate k language args d))
    (bad_request_entry : (d : Text) → P (l.translate (http_status_message_key 400) language none d))
    (internal_entry : (d : Text) → P (l.translate (http_status_message_key 500) language none d))
    (validation_entry : (d : Text)
      → P (l.translate (codes "errors.VALIDATION_FAILED") language none d))
    (foreign : is_fallback language ≡ false) where
  generic_lem :
      (n : ℕ) (d : Text)
      → P (l.translate (http_status_message_key (generic_status n)) language none d)
  generic_lem n d = elim (Bool-cases (leb 500 n)) [
    | inl large ↦ rw large (internal_entry d)
    | inr small ↦ rw small (bad_request_entry d)
  ]

  localized_lem : (n : ℕ) → P (localized l n language)
  unfolding localized_http_status_message
  localized_lem n = rw foreign (
      translated (http_status_message_key n) none _
        (generic_lem n (default_message l (generic_status n))))

  keyed_lem : (n : ℕ) (t : Text) → P (keyed l n language t)
  keyed_lem n t = translated t none _ (localized_lem n)

  literal_lem : (n : ℕ) (t : Text) → P (literal l n language t)
  literal_lem n t = rw foreign (localized_lem n)

  field_message_lem : (n : ℕ) (m : Text) (fs : Fields) → P (field_message l n language m fs)
  field_message_lem n m fs = either P (starts_with (codes "errors.") m) (keyed_lem n m) (
      either P
        (text_eq m (codes "Validation failed")
          || is_some (read_validation_errors (get (codes "errors") fs)))
        (validation_entry m) (literal_lem n m))

  business_message_lem :
      (n : ℕ) (key m : Option Text) (fs : Fields) → P (business_message l n language key m fs)
  business_message_lem n (some key) m fs =
      translated key (args_of (get (codes "messageArgs") fs)) _ (localized_lem n)
  business_message_lem n none (some m) fs = field_message_lem n m fs
  business_message_lem n none none fs = localized_lem n

  -- Let a property of texts hold of what the catalogs have for the statuses 400 and 500 and for a
  -- failed validation in a language other than the fallback, whatever the default value, and let a
  -- translation have it where its default value does. Then the message of every exception has it.
  pub resolve_exception_message-localized :
      (n : ℕ) (b : Body) → P (resolve_exception_message l n language b)
  unfolding resolve_exception_message
  resolve_exception_message-localized n (plain t) =
      either P (is_empty (trim t)) (localized_lem n)
        (either P (starts_with (codes "errors.") t) (keyed_lem n t) (literal_lem n t))
  resolve_exception_message-localized n (fields fs) =
      either P (is_default_http_exception_body l n fs || is_router_not_found_body l n fs)
        (localized_lem n)
        (business_message_lem n (string_of (get (codes "messageKey") fs))
          (string_of (get (codes "message") fs)) fs)
