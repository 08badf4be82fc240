-- ===== src/Infra/Http.antt =====
-- infra/http/api-exception.filter.ts: the response to an exception. The names of the statuses
-- (HttpStatus), the catalogs of nestjs-i18n and the exceptions are outside. A text is the list of its
-- code units; the names of the statuses are ASCII.
pub mod Catalog
pub mod Errors
use Prim.Native.Nat.{◌/◌, ◌%◌}
use gnester_lite.Common.{
  ℕ, zero, suc, ◌+◌, ◌-◌, Bool, true, false, not, ◌&&◌, ◌||◌, ◌==◌, ltb, leb, if◌then◌else◌, Option,
  none, some, List, [], ◌∷◌, ◌++◌, map, Text, trim, is_empty, text_eq, or_else, codes, after_prefix,
}
use gnester_lite.Infra.Language.{Header, tag, resolve_supported_language}

-- A value of type unknown. `other` is a value that is no null, string, array, object or natural number.
mutual
  pub data Value : Type 0 where
    null other : Value
    number : ℕ → Value
    string : Text → Value
    array : Values → Value
    object : Fields → Value

  pub data Values : Type 0 where
    nil : Values
    item : Value → Values → Values

  pub data Fields : Type 0 where
    end : Fields
    field : Text → Value → Fields → Fields

-- A property of an object: `none` is a property that it does not have.
abbrev pub get : Text → Fields → Option Value
get k end = none
get k (field j v fs) = if text_eq j k then some v else get k fs

-- isRecord
abbrev pub record_of : Value → Option Fields
record_of (object fs) = some fs
record_of v = none

abbrev pub string_of : Option Value → Option Text
string_of (some (string t)) = some t
string_of v = none

-- What was thrown: an HttpException with its status and response, or anything else.
pub data Exception : Type 0 where
  http_exception : ℕ → Value → Exception
  thrown : Value → Exception

pub record ErrorDetail : Type 0 where
  pub field_name : Text
  pub reason : Text

-- HttpStatus[statusCode], and the text of a key in a language with arguments and a default value.
pub record Library : Type 0 where
  pub status_name : ℕ → Option Text
  pub translate : Text → Text → Option Fields → Text → Text

abbrev pub is_http_status : ℕ → Bool
is_http_status n = leb 400 n && ltb n 600

abbrev pub status_of : Option Value → Option ℕ
status_of (some (number n)) = if is_http_status n then some n else none
status_of v = none

abbrev pub record_status : Option Fields → Option ℕ
record_status none = none
record_status (some fs) =
    or_else (status_of (get (codes "statusCode") fs)) (status_of (get (codes "status") fs))

unfoldable pub read_http_status : Exception → Option ℕ
read_http_status (http_exception n v) = status_of (some (number n))
read_http_status (thrown v) = record_status (record_of v)

abbrev pub detail_of : Option Text → Option Text → List ErrorDetail
detail_of (some f) (some r) = record { field_name = f; reason = r } ∷ []
detail_of f r = []

abbrev pub validation_error : Option Fields → List ErrorDetail
validation_error none = []
validation_error (some fs) =
    detail_of (string_of (get (codes "field") fs)) (string_of (get (codes "reason") fs))

abbrev pub validation_errors : Values → List ErrorDetail
validation_errors nil = []
validation_errors (item v vs) = validation_error (record_of v) ++ validation_errors vs

abbrev pub non_empty : List ErrorDetail → Option (List ErrorDetail)
non_empty [] = none
non_empty (d ∷ ds) = some (d ∷ ds)

unfoldable pub read_validation_errors : Option Value → Option (List ErrorDetail)
read_validation_errors (some (array vs)) = non_empty (validation_errors vs)
read_validation_errors v = none

abbrev pub capital : ℕ → ℕ
capital c = if leb 97 c && leb c 122 then c - 32 else c

abbrev pub small : ℕ → ℕ
small c = if leb 65 c && leb c 90 then c + 32 else c

-- The words between the underscores, capitalised and joined by spaces; `true` at the start of a word.
abbrev pub title : Bool → Text → Text
title start [] = []
title start (c ∷ cs) =
    if c == 95 then 32 ∷ title true cs else (if start then capital c else small c) ∷ title false cs

abbrev pub titled : Option Text → Option Text
titled none = none
titled (some t) = some (title true t)

unfoldable pub default_http_message : Library → ℕ → Option Text
default_http_message l n = titled (l.status_name n)

-- `===` of a property and a number, and of a property and a string or null
abbrev pub is_number : Option Value → ℕ → Bool
is_number (some (number m)) n = m == n
is_number v n = false

abbrev pub is_text_or_null : Option Value → Option Text → Bool
is_text_or_null (some (string t)) (some u) = text_eq t u
is_text_or_null (some null) none = true
is_text_or_null v o = false

abbrev pub is_absent : Option Value → Bool
is_absent none = true
is_absent (some v) = false

unfoldable pub is_default_http_exception_body : Library → ℕ → Fields → Bool
is_default_http_exception_body l n fs =
    is_number (get (codes "statusCode") fs) n
    && is_text_or_null (get (codes "message") fs) (default_http_message l n)
    && is_absent (get (codes "error") fs)

-- `startsWith`
abbrev pub starts_with : Text → Text → Bool
starts_with [] t = true
starts_with (c ∷ cs) [] = false
starts_with (c ∷ cs) (d ∷ ds) = c == d && starts_with cs ds

-- `[A-Z-]+ \/` from the start of a text; `true` once a character of the class was read
abbrev pub is_method_then_slash : Bool → Text → Bool
is_method_then_slash seen [] = false
is_method_then_slash seen (c ∷ cs) =
    if c == 45 || (leb 65 c && leb c 90)
    then is_method_then_slash true cs
    else seen && starts_with (codes " /") (c ∷ cs)

abbrev pub is_method_part : Option Text → Bool
is_method_part none = false
is_method_part (some t) = is_method_then_slash false t

abbrev pub is_router_message : Option Text → Bool
is_router_message none = false
is_router_message (some t) = is_method_part (after_prefix (codes "Cannot ") t)

unfoldable pub is_router_not_found_body : Library → ℕ → Fields → Bool
is_router_not_found_body l n fs =
    n == 404
    && is_text_or_null (get (codes "error") fs) (default_http_message l n)
    && is_router_message (string_of (get (codes "message") fs))

abbrev pub or_text : Option Text → Text → Text
or_text none t = t
or_text (some u) t = u

-- httpStatusMessageKey: a status has three digits
unfoldable pub http_status_message_key : ℕ → Text
http_status_message_key n =
    codes "http." ++ ((48 + n / 100) ∷ (48 + n / 10 % 10) ∷ (48 + n % 10) ∷ [])

abbrev pub is_fallback : Text → Bool
is_fallback language = text_eq language (codes "en")

abbrev pub generic_status : ℕ → ℕ
generic_status n = if leb 500 n then 500 else 400

abbrev pub default_message : Library → ℕ → Text
default_message l n = or_text (default_http_message l n) (codes "Error")

unfoldable pub localized_http_status_message : Library → ℕ → Text → Text
localized_http_status_message l n language =
    if is_fallback language
    then l.translate (http_status_message_key n) language none (default_message l n)
    else l.translate (http_status_message_key n) language none (
        l.translate (http_status_message_key (generic_status n)) language none
          (default_message l (generic_status n)))

-- The body as the string or the record that it is.
pub data Body : Type 0 where
  plain : Text → Body
  fields : Fields → Body

abbrev pub args_of : Option Value → Option Fields
args_of (some (object fs)) = some fs
args_of v = none

abbrev pub is_some : Option (List ErrorDetail) → Bool
is_some none = false
is_some (some ds) = true

module _ (l : Library) (n : ℕ) (language : Text) where
  abbrev pub localized : Text
  localized = localized_http_status_message l n language

  -- A text under errors. is a key.
  abbrev pub keyed : Text → Text
  keyed t = l.translate t language none localized

  -- A literal is shown in the fallback language only.
  abbrev pub literal : Text → Text
  literal t = if is_fallback language then t else localized

  abbrev pub field_message : Text → Fields → Text
  field_message m fs =
      if starts_with (codes "errors.") m
      then keyed m
      else if text_eq m (codes "Validation failed")
          || is_some (read_validation_errors (get (codes "errors") fs))
      then l.translate (codes "errors.VALIDATION_FAILED") language none m
      else literal m

  abbrev pub business_message : Option Text → Option Text → Fields → Text
  business_message (some key) m fs =
      l.translate key language (args_of (get (codes "messageArgs") fs)) localized
  business_message none (some m) fs = field_message m fs
  business_message none none fs = localized

  unfoldable pub resolve_exception_message : Body → Text
  resolve_exception_message (plain t) =
      if is_empty (trim t)
      then localized
      else if starts_with (codes "errors.") t
      then keyed t
      else literal t
  resolve_exception_message (fields fs) =
      if is_default_http_exception_body l n fs || is_router_not_found_body l n fs
      then localized
      else business_message (string_of (get (codes "messageKey") fs))
          (string_of (get (codes "message") fs)) fs

-- A reply, with its status.
pub data Reply : Type 0 where
  native : Value → ℕ → Reply
  status_and_message : ℕ → Text → ℕ → Reply
  envelope : ℕ → Text → Option (List ErrorDetail) → ℕ → Reply

pub record Response : Type 0 where
  pub headers_sent : Bool
  pub skips_envelope : Bool
  pub varies : Bool
  pub content_language : Option Text
  pub replies : List Reply
  pub captured : ℕ

-- How `catch` ends: the response, or the exception again.
pub data Handling : Type 0 where
  handled : Response → Handling
  rethrown : Exception → Handling

abbrev pub reply : Reply → Response → Response
reply b r = record r { headers_sent = true; replies = b ∷ r.replies }

-- rawBody
abbrev pub raw_body : Option ℕ → Exception → Value
raw_body (some n) (http_exception m v) = v
raw_body n e = null

abbrev pub body_of : Value → Body
body_of (string t) = plain t
body_of (object fs) = fields fs
body_of v = fields end

abbrev pub native_reply : Library → ℕ → Text → Value → Reply
native_reply l n language (string t) = native (string t) n
native_reply l n language (object fs) = native (object fs) n
native_reply l n language v =
    status_and_message n (resolve_exception_message l n language (body_of v)) n

abbrev pub errors_of : Body → Option (List ErrorDetail)
errors_of (plain t) = none
errors_of (fields fs) = read_validation_errors (get (codes "errors") fs)

abbrev pub envelope_reply : Library → ℕ → Text → Value → Reply
envelope_reply l n language v =
    envelope n (resolve_exception_message l n language (body_of v)) (errors_of (body_of v)) n

abbrev pub answered : Library → ℕ → Text → Value → Response → Response
answered l n language v r =
    if r.headers_sent
    then r
    else if r.skips_envelope
    then reply (native_reply l n language v) r
    else reply (envelope_reply l n language v)
        (record r { varies = true; content_language = some language })

abbrev pub capture : Option ℕ → Response → Response
capture none r = record r { captured = suc r.captured }
capture (some n) r = r

abbrev pub status_or_500 : Option ℕ → ℕ
status_or_500 none = 500
status_or_500 (some n) = n

abbrev pub recognized : Library → Option ℕ → Exception → Text → Response → Response
recognized l o e language r = answered l (status_or_500 o) language (raw_body o e) (capture o r)

-- catch, with whether the host is one of HTTP
unfoldable pub catch : Library → Bool → Exception → Header → Response → Handling
catch l false e header r = rethrown e
catch l true e header r =
    handled (recognized l (read_http_status e) e (tag (resolve_supported_language header)) r)
