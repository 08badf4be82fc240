-- ===== src/Infra/Language/Preferred.antt =====
-- infra/i18n/i18n.translate.ts: which language the negotiation prefers.
use gnester_lite.Common.{
  split, ℕ, ◌<◌, ◌≤◌, ◌≡◌, refl, arith, ◌⊎◌, inl, inr, Bool, true, false, if◌then◌else◌, List, [],
  ◌∷◌, ◌++◌, All, Bool-cases, trim, trim_start, select_where, Text,
}
use gnester_lite.Infra.Language.{
  replaces, reduce_from, reduce, Language, en, SupportedPreference, is_acceptable,
  language_preferences, supported_language_preference, supported_preferences, part_preference,
  language_quality, Header, absent, single, several, header_parts, language_or_fallback, negotiate,
  resolve_supported_language, zh,
}

abbrev pub In : {A : Type 0} → A → List A → Type 0
In x [] = ⊥
In x (y ∷ ys) = (x ≡ y) ⊎ In x ys

module _ {A : Type 0} (quality position : A → ℕ) where
  -- A lower quality, or the same at a position that is no earlier.
  pub record IsBelow (a x : A) : Type 0 where
    pub below : (quality x < quality a) ⊎ ((quality x ≡ quality a) × (position a ≤ position x))

  -- One of the list that every one of the list is below.
  pub record Best (xs : List A) (a : A) : Type 0 where
    pub member : In a xs
    pub greatest : All (IsBelow a) xs

  sum-IsBelow :
      (a x : A)
      → (quality x < quality a) ⊎ ((quality x ≡ quality a) × (position a ≤ position x))
      → IsBelow a x
  sum-IsBelow a x h = record { below = h }

  not_replaced :
      (a x : A) → replaces (quality x) (position x) (quality a) (position a) ≡ false → IsBelow a x
  not_replaced a x h = sum-IsBelow a x (ground (arith, h))

  replaced :
      (a x : A) → replaces (quality x) (position x) (quality a) (position a) ≡ true → IsBelow x a
  replaced a x h = sum-IsBelow x a (ground (arith, h))

  IsBelow-trans : (a b c : A) → IsBelow b a → IsBelow a c → IsBelow b c
  IsBelow-trans a b c h k = sum-IsBelow b c (ground (arith, h.below, k.below))

  IsBelow-refl : (a : A) → IsBelow a a
  IsBelow-refl a = sum-IsBelow a a (inr (refl, omega arith))

  later : {a b c : A} (xs : List A) → In b (a ∷ xs) → In b (a ∷ c ∷ xs)
  later xs (inl e) = inl e
  later xs (inr h) = inr (inr h)

  reduce_from-Best : (a : A) (xs : List A) → Best (a ∷ xs) (reduce_from quality position a xs)
  reduce_from-Best a [] = record { member = inl refl; greatest = (IsBelow-refl a, tt) }
  reduce_from-Best a (c ∷ xs) =
      elim (Bool-cases (replaces (quality c) (position c) (quality a) (position a))) [
        | inl better ↦
            let h = reduce_from-Best c xs in
            rw better (record {
              member = inr h.member;
              greatest = (IsBelow-trans c _ a h.greatest.0 (replaced a c better), h.greatest);
            })
        | inr worse ↦
            let h = reduce_from-Best a xs in
            rw worse (record {
              member = later xs h.member;
              greatest = (
                h.greatest.0,
                (IsBelow-trans a _ c h.greatest.0 (not_replaced a c worse), h.greatest.1),
              );
            })
      ]

-- The language of the best preference, or English where there is none.
abbrev pub Preferred : List SupportedPreference → Language → Type 0
Preferred [] g = g ≡ en
Preferred (p ∷ ps) g =
    (q : SupportedPreference) × (q.language ≡ g)
    × (0 < q.quality)
    × Best (λ x. x.quality) (λ x. x.position) (p ∷ ps) q

module _ {A : Type 0} (t : A → Bool) (x : A) where
  kept_passes :
      (b : Bool) (y : A) (rest : List A)
      → t y ≡ b
      → (In x rest → t x ≡ true)
      → In x (if b then y ∷ rest else rest)
      → t x ≡ true
  kept_passes true y rest e k (inl h) = rw h e
  kept_passes true y rest e k (inr h) = k h
  kept_passes false y rest e k h = k h

  select_where-passes : (xs : List A) → In x (select_where t xs) → t x ≡ true
  select_where-passes [] h = absurd h
  select_where-passes (y ∷ ys) h =
      kept_passes (t y) y (select_where t ys) refl (select_where-passes ys) h

reduced-Preferred :
    (xs : List SupportedPreference)
    → ((x : SupportedPreference) → In x xs → is_acceptable x ≡ true)
    → Preferred xs (language_or_fallback (reduce (λ p. p.quality) (λ p. p.position) xs))
reduced-Preferred [] h = refl
reduced-Preferred (p ∷ ps) h =
    let best = reduce_from-Best (λ x. x.quality) (λ x. x.position) p ps in
    let accepted = h (reduce_from (λ x. x.quality) (λ x. x.position) p ps) best.member in
    (reduce_from (λ x. x.quality) (λ x. x.position) p ps, refl, ground (arith, accepted), best)

negotiate-Preferred :
    (parts : List Text)
    → Preferred (supported_preferences (language_preferences 0 parts)) (negotiate parts)
unfolding negotiate supported_preferences
negotiate-Preferred parts =
    reduced-Preferred (supported_preferences (language_preferences 0 parts)) (λ x.
      select_where-passes is_acceptable x (
        supported_language_preference en (language_preferences 0 parts)
        ++ supported_language_preference zh (language_preferences 0 parts)))

-- The parts of a header, of which an absent one has none.
abbrev pub parts_of : Header → List Text
parts_of absent = []
parts_of (single t) = split 44 t
parts_of (several hs) = header_parts hs

-- The negotiated language is English where the header accepts no supported language. Else it is the
-- language of an acceptable preference with a quality above 0, and no acceptable preference has a
-- higher quality, or the same quality at an earlier position in the header.
pub resolve_supported_language-Preferred :
    (h : Header)
    → Preferred
        (supported_preferences (language_preferences 0 (parts_of h)))
        (resolve_supported_language h)
unfolding resolve_supported_language supported_preferences supported_language_preference
    part_preference trim trim_start language_quality
resolve_supported_language-Preferred absent = refl
resolve_supported_language-Preferred (single []) = refl
resolve_supported_language-Preferred (single (c ∷ cs)) = negotiate-Preferred (split 44 (c ∷ cs))
resolve_supported_language-Preferred (several hs) = negotiate-Preferred (header_parts hs)
