-- ===== src/Infra/Language.antt =====
-- infra/i18n/i18n.translate.ts: the language negotiated by the header Accept-Language. A text is the
-- list of its code units, which are below 256 in a header, so that a range has only ASCII letters in
-- both cases. A quality is counted in thousandths.
pub mod Preferred
use gnester_lite.Common.{
  split, ℕ, zero, suc, ◌+◌, ◌-◌, ◌*◌, Bool, true, false, not, ◌&&◌, ◌||◌, ◌==◌, ltb, leb,
  if◌then◌else◌, Option, none, some, List, [], ◌∷◌, ◌++◌, map, Text, trim, trim_start, is_empty,
  text_eq, codes, find, select_where, length,
}

abbrev pub first : List Text → Text
first [] = []
first (w ∷ ws) = w

abbrev pub rest_of : List Text → List Text
rest_of [] = []
rest_of (w ∷ ws) = ws

abbrev pub is_digit : ℕ → Bool
is_digit c = leb 48 c && leb c 57

abbrev pub is_letter : ℕ → Bool
is_letter c = leb 97 c && leb c 122

abbrev pub small : ℕ → ℕ
small c = if leb 65 c && leb c 90 then c + 32 else c

abbrev pub place : ℕ → ℕ
place zero = 1
place (suc zero) = 10
place (suc (suc n)) = 100

abbrev pub plus : ℕ → Option ℕ → Option ℕ
plus m none = none
plus m (some n) = some (m + n)

-- `\d{0,n}` and `0{0,n}`, to the end of the text
abbrev pub decimals : ℕ → Text → Option ℕ
decimals n [] = some 0
decimals zero (c ∷ cs) = none
decimals (suc n) (c ∷ cs) =
    let rest = decimals n cs in if is_digit c then plus ((c - 48) * place n) rest else none

abbrev pub zeros : ℕ → Text → Option ℕ
zeros n [] = some 1000
zeros zero (c ∷ cs) = none
zeros (suc n) (c ∷ cs) = let rest = zeros n cs in if c == 48 then rest else none

-- What stands after the 0 and after the 1
abbrev pub after_zero : Text → Option ℕ
after_zero [] = some 0
after_zero (c ∷ cs) = if c == 46 then decimals 3 cs else none

abbrev pub after_one : Text → Option ℕ
after_one [] = some 1000
after_one (c ∷ cs) = if c == 46 then zeros 3 cs else none

abbrev pub quality_of : Text → Option ℕ
quality_of [] = none
quality_of (c ∷ cs) = if c == 48 then after_zero cs else if c == 49 then after_one cs else none

unfoldable pub language_quality : Option Text → Option ℕ
language_quality none = some 1000
language_quality (some v) = quality_of (trim v)

pub record LanguagePreference : Type 0 where
  pub range : Text
  pub quality : ℕ
  pub position : ℕ

abbrev pub every : (ℕ → Bool) → Text → Bool
every p [] = true
every p (c ∷ cs) = p c && every p cs

abbrev pub is_subtag : (ℕ → Bool) → Text → Bool
is_subtag p t = leb 1 (length t) && leb (length t) 8 && every p t

abbrev pub are_subtags : List Text → Bool
are_subtags [] = true
are_subtags (t ∷ ts) = is_subtag (λ c. is_letter c || is_digit c) t && are_subtags ts

abbrev pub wildcard : Text
wildcard = codes "*"

abbrev pub is_language_range : Text → Bool
is_language_range t =
    text_eq t wildcard
    || (is_subtag is_letter (first (split 45 t)) && are_subtags (rest_of (split 45 t)))

-- `/^q\s*=/i`
abbrev pub begins_with_equals : Text → Bool
begins_with_equals [] = false
begins_with_equals (c ∷ cs) = c == 61

unfoldable pub is_quality_parameter : Text → Bool
is_quality_parameter [] = false
is_quality_parameter (c ∷ cs) = small c == 113 && begins_with_equals (trim_start cs)

-- `split('=', 2)[1]`
abbrev pub second : List Text → Option Text
second [] = none
second (w ∷ []) = none
second (w ∷ v ∷ ws) = some v

abbrev pub quality_value : Option Text → Option Text
quality_value none = none
quality_value (some p) = second (split 61 p)

abbrev pub preference : ℕ → Text → Option ℕ → List LanguagePreference
preference position range none = []
preference position range (some q) =
    if is_language_range range
    then record { range = range; quality = q; position = position } ∷ []
    else []

unfoldable pub part_preference : ℕ → List Text → List LanguagePreference
part_preference position parts =
    preference position (map small (first parts))
      (language_quality (quality_value (find is_quality_parameter (rest_of parts))))

abbrev pub language_preferences : ℕ → List Text → List LanguagePreference
language_preferences position [] = []
language_preferences position (part ∷ parts) =
    part_preference position (map trim (split 59 (trim part)))
    ++ language_preferences (suc position) parts

-- Whether a candidate replaces the current value of the reduction: a higher quality, or the same
-- quality at an earlier position.
abbrev pub replaces : ℕ → ℕ → ℕ → ℕ → Bool
replaces q p current_q current_p = ltb current_q q || (q == current_q && ltb p current_p)

module _ {A : Type 0} (quality position : A → ℕ) where
  abbrev pub pick : A → A → A
  pick current candidate =
      if replaces (quality candidate) (position candidate) (quality current) (position current)
      then candidate
      else current

  abbrev pub reduce_from : A → List A → A
  reduce_from current [] = current
  reduce_from current (candidate ∷ rest) = reduce_from (pick current candidate) rest

  abbrev pub reduce : List A → Option A
  reduce [] = none
  reduce (a ∷ rest) = some (reduce_from a rest)

pub data Language : Type 0 where
  en zh : Language

abbrev pub tag : Language → Text
tag en = codes "en"
tag zh = codes "zh"

pub record SupportedPreference : Type 0 where
  pub language : Language
  pub quality : ℕ
  pub position : ℕ

abbrev pub is_direct : Language → LanguagePreference → Bool
is_direct g p = not (text_eq p.range wildcard) && text_eq (first (split 45 p.range)) (tag g)

abbrev pub is_wildcard : LanguagePreference → Bool
is_wildcard p = text_eq p.range wildcard

abbrev pub applicable : List LanguagePreference → List LanguagePreference → List LanguagePreference
applicable [] wild = wild
applicable (p ∷ ps) wild = p ∷ ps

abbrev pub supported : Language → Option LanguagePreference → List SupportedPreference
supported g none = []
supported g (some p) = record { language = g; quality = p.quality; position = p.position } ∷ []

unfoldable pub supported_language_preference :
    Language → List LanguagePreference → List SupportedPreference
supported_language_preference g ps = supported g (
    reduce (λ p. p.quality) (λ p. p.position)
      (applicable (select_where (is_direct g) ps) (select_where is_wildcard ps)))

-- The preferences of the supported languages, in their order, that are not refused by a quality of 0
abbrev pub is_acceptable : SupportedPreference → Bool
is_acceptable p = ltb 0 p.quality

unfoldable pub supported_preferences : List LanguagePreference → List SupportedPreference
supported_preferences ps =
    select_where is_acceptable
      (supported_language_preference en ps ++ supported_language_preference zh ps)

-- The header: absent, one value, or several
pub data Header : Type 0 where
  absent : Header
  single : Text → Header
  several : List Text → Header

abbrev pub header_parts : List Text → List Text
header_parts [] = []
header_parts (h ∷ hs) = split 44 h ++ header_parts hs

abbrev pub language_or_fallback : Option SupportedPreference → Language
language_or_fallback none = en
language_or_fallback (some p) = p.language

unfoldable pub negotiate : List Text → Language
negotiate parts = language_or_fallback (
    reduce (λ p. p.quality) (λ p. p.position)
      (supported_preferences (language_preferences 0 parts)))

unfoldable pub resolve_supported_language : Header → Language
resolve_supported_language absent = en
resolve_supported_language (single t) = if is_empty t then en else negotiate (split 44 t)
resolve_supported_language (several hs) = negotiate (header_parts hs)
