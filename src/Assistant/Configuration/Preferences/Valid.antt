-- ===== src/Assistant/Configuration/Preferences/Valid.antt =====
-- What preferences that may be saved satisfy.
use gnester_lite.Common.{
  ℕ, ◌≡◌, ◌≤◌, ◌↔◌, ◌>>=◌, require, read, return, refl, sym, ◌∙◌, true, false, not, ◌&&◌, Option,
  none, some, List, [], ◌∷◌, any, option_eq, length, leb, is_none, arith, Returns, bind-then,
  require-then, return-Returns, require-Returns, read-bind,
}
use gnester_lite.Assistant.Store.{ModelChoice, same_model, Store}
use gnester_lite.Assistant.Selection.{is_model_available, has_available_models}
use gnester_lite.Assistant.Configuration.Preferences.{
  require_backups, require_valid_preferences, default_allowed,
}

-- A backup that is available, is not the default and is not one of the models seen.
pub record Fits (s : Store) (user_id : ℕ) (chosen : Option ModelChoice) (seen : List ModelChoice)
    (m : ModelChoice) : Type 0 where
  pub available : is_model_available s user_id m ≡ true
  pub other : option_eq same_model chosen m ≡ false
  pub fresh : any (same_model m) seen ≡ false

-- Each fits after those that stand before it.
abbrev pub Backups : Store → ℕ → Option ModelChoice → List ModelChoice → List ModelChoice → Type 0
Backups s user_id chosen seen [] = Unit {0}
Backups s user_id chosen seen (m ∷ ms) =
    Fits s user_id chosen seen m × Backups s user_id chosen (m ∷ seen) ms

require_backups-Returns :
    (user_id : ℕ) (chosen : Option ModelChoice) (seen ms : List ModelChoice) (s : Store)
    (u : Unit {0}) (t : Store)
    → Returns (require_backups user_id chosen seen ms) s u t
    → Backups s user_id chosen seen ms × (t ≡ s)
unfolding require_backups
require_backups-Returns user_id chosen seen [] s u t h = (tt, (return-Returns tt s u t h).1)
require_backups-Returns user_id chosen seen (m ∷ ms) s u t h = require-then _ _ _ s u t h λ new h₁.
    require-then _ _ _ s u t (read-bind _ _ s u t h₁) λ available h₂.
      let (rest, same) = require_backups-Returns user_id chosen (m ∷ seen) ms s u t h₂ in
      ((record { available = available; other = ground arith; fresh = ground arith }, rest), same)

-- Preferences that may be saved.
pub record Savable (s : Store) (user_id : ℕ) (chosen : Option ModelChoice)
    (backups : List ModelChoice) : Type 0 where
  pub few : length backups ≤ 12
  pub usable : default_allowed s user_id chosen ≡ true
  pub distinct : Backups s user_id chosen [] backups
  pub present : chosen ≡ none → has_available_models s user_id ≡ false

needed-none :
    (user_id : ℕ) (chosen : Option ModelChoice) (v s : Store)
    → v ≡ s
    → not (is_none chosen && has_available_models v user_id) ≡ true
    → chosen ≡ none
    → has_available_models s user_id ≡ false
needed-none user_id none v s e h n = rw (sym e) (ground arith)
needed-none user_id (some m) v s e h n = absurd (cc n)

pub require_valid_preferences-Savable :
    (user_id : ℕ) (chosen : Option ModelChoice) (backups : List ModelChoice) (s : Store)
    (u : Unit {0}) (t : Store)
    → Returns (require_valid_preferences user_id chosen backups) s u t
    → Savable s user_id chosen backups × (t ≡ s)
unfolding require_valid_preferences
require_valid_preferences-Savable user_id chosen backups s u t h =
    require-then _ _ _ s u t h λ few h₁.
      require-then _ _ _ s u t (read-bind _ _ s u t h₁) λ usable h₂.
        bind-then _ _ s u t h₂ λ w v checked h₃.
          let (distinct, kept) = require_backups-Returns user_id chosen [] backups s w v checked in
          let (present, same) = require-Returns _ _ v u t (read-bind _ _ v u t h₃) in
          (
            record {
              few = ground arith;
              usable = usable;
              distinct = distinct;
              present = needed-none user_id chosen v s kept present;
            },
            same ∙ kept,
          )

Backups-require_backups :
    (user_id : ℕ) (chosen : Option ModelChoice) (seen ms : List ModelChoice) (s : Store)
    → Backups s user_id chosen seen ms
    → Returns (require_backups user_id chosen seen ms) s tt s
unfolding require_backups ◌>>=◌ require read return
Backups-require_backups user_id chosen seen [] s h = refl
Backups-require_backups user_id chosen seen (m ∷ ms) s (h, k) =
    rw h.fresh
      (rw h.other (rw h.available (Backups-require_backups user_id chosen (m ∷ seen) ms s k)))

not_needed :
    (user_id : ℕ) (chosen : Option ModelChoice) (s : Store)
    → (chosen ≡ none → has_available_models s user_id ≡ false)
    → (is_none chosen && has_available_models s user_id) ≡ false
not_needed user_id none s h = h refl
not_needed user_id (some m) s h = refl

Savable-require_valid_preferences :
    (user_id : ℕ) (chosen : Option ModelChoice) (backups : List ModelChoice) (s : Store)
    → Savable s user_id chosen backups
    → Returns (require_valid_preferences user_id chosen backups) s tt s
unfolding require_valid_preferences ◌>>=◌ require read
Savable-require_valid_preferences user_id chosen backups s h = rw (few h.few) (
    rw h.usable (
      rw (Backups-require_backups user_id chosen [] backups s h.distinct)
        (rw (not_needed user_id chosen s h.present) refl)))
  where
    few : length backups ≤ 12 → leb (length backups) 12 ≡ true
    few n = ground arith

-- The check of preferences returns, with the store as it was, exactly if there are at most 12 backups,
-- the default is none or available, each backup is available and is neither the default nor one that
-- stands before it, and without a default no model is available.
pub require_valid_preferences_iff :
    (user_id : ℕ) (chosen : Option ModelChoice) (backups : List ModelChoice) (s : Store)
    → Returns (require_valid_preferences user_id chosen backups) s tt s
      ↔ Savable s user_id chosen backups
require_valid_preferences_iff user_id chosen backups s = (
  λ h. (require_valid_preferences-Savable user_id chosen backups s tt s h).0,
  Savable-require_valid_preferences user_id chosen backups s,
)
