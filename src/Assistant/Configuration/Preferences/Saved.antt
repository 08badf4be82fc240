-- ===== src/Assistant/Configuration/Preferences/Saved.antt =====
-- What saved preferences are read back as.
use gnester_lite.Common.{
  ℕ, ◌≡◌, refl, ap, ◌∙◌, Bool, true, false, ◌==◌, ==-refl, Option, none, some, List, [], ◌∷◌, find,
  any, update_where, Bool-cases, inl, inr, arith, Returns, bind-then, write-Returns,
}
use gnester_lite.Assistant.Store.{
  ModelChoice, Preference, AuditEvent, preferences_updated, account, success, Store,
}
use gnester_lite.Assistant.Selection.{read_preference}
use gnester_lite.Assistant.Configuration.Audit.{event}
use gnester_lite.Assistant.Configuration.Audit.Reports.{with_audit, change_configuration-Returns}
use gnester_lite.Assistant.Configuration.Preferences.{
  empty_preference, upsert_preference, writing_preferences, save_preferences,
}
use gnester_lite.Assistant.Configuration.Preferences.Valid.{
  Savable, require_valid_preferences-Savable,
}

abbrev row_of : ℕ → Preference → Bool
row_of user_id p = p.user_id == user_id

-- The row before the upsert, or an empty one.
abbrev row_or : ℕ → Option Preference → Preference
row_or user_id none = empty_preference user_id
row_or user_id (some p) = p

find-eq_none_of :
    (user_id : ℕ) (rows : List Preference)
    → any (row_of user_id) rows ≡ false
    → find (row_of user_id) rows ≡ none
find-eq_none_of user_id [] h = refl
find-eq_none_of user_id (p ∷ rows) h = ground (arith, find-eq_none_of user_id rows)

updated-find :
    (user_id : ℕ) (f : Preference → Preference) (rows : List Preference)
    → ((p : Preference) → (f p).user_id ≡ p.user_id)
    → any (row_of user_id) rows ≡ true
    → find (row_of user_id) (update_where (row_of user_id) f rows)
      ≡ some (f (row_or user_id (find (row_of user_id) rows)))
updated-find user_id f [] ids h = absurd (cc h)
updated-find user_id f (p ∷ rows) ids h = elim (Bool-cases (row_of user_id p)) [
  | inl here ↦ simp (here, ids p) refl
  | inr away ↦ simp away (updated-find user_id f rows ids (ground (arith, away, h)))
]

upsert-find :
    (user_id : ℕ) (f : Preference → Preference) (rows : List Preference)
    → ((p : Preference) → (f p).user_id ≡ p.user_id)
    → find (row_of user_id) (upsert_preference user_id f rows)
      ≡ some (f (row_or user_id (find (row_of user_id) rows)))
upsert-find user_id f rows ids = elim (Bool-cases (any (row_of user_id) rows)) [
  | inl known ↦ rw known (updated-find user_id f rows ids known)
  | inr new ↦ rw (new, named, find-eq_none_of user_id rows new) refl
]
  where
    named : row_of user_id (f (empty_preference user_id)) ≡ true
    named = ap (λ (n : ℕ). n == user_id) (ids (empty_preference user_id)) ∙ ==-refl user_id

-- The preferences were such as may be saved, they are what the account reads afterwards, the notice
-- is cleared, the consent is as it was, and the change is recorded.
pub record Saved (user_id : ℕ) (chosen : Option ModelChoice) (backups : List ModelChoice)
    (s t : Store) : Type 0 where
  pub savable : Savable s user_id chosen backups
  pub row :
      read_preference t user_id
      ≡ some (record (row_or user_id (read_preference s user_id)) {
        default_model = chosen;
        backup_models = backups;
        model_notice = none;
      })
  pub recorded :
      t.audits ≡ event user_id preferences_updated (account user_id) success none ∷ s.audits

writing-row :
    (user_id : ℕ) (chosen : Option ModelChoice) (backups : List ModelChoice) (e : AuditEvent)
    (s : Store)
    → read_preference (with_audit e (writing_preferences user_id chosen backups s)) user_id
      ≡ some (record (row_or user_id (read_preference s user_id)) {
        default_model = chosen;
        backup_models = backups;
        model_notice = none;
      })
unfolding read_preference writing_preferences
writing-row user_id chosen backups e s =
    upsert-find user_id
      (λ p. record p { default_model = chosen; backup_models = backups; model_notice = none })
      s.preferences (λ p. refl)

writing-audits :
    (user_id : ℕ) (chosen : Option ModelChoice) (backups : List ModelChoice) (e : AuditEvent)
    (s : Store)
    → (with_audit e (writing_preferences user_id chosen backups s)).audits ≡ e ∷ s.audits
unfolding writing_preferences
writing-audits user_id chosen backups e s = refl

-- Preferences that were saved were such as may be saved; the account reads them back as they were
-- given, with no notice and with the consent as it was; and one success is added to the audits.
pub save_preferences-Saved :
    (user_id : ℕ) (chosen : Option ModelChoice) (backups : List ModelChoice) (s : Store)
    (u : Unit {0}) (t : Store)
    → Returns (save_preferences user_id chosen backups) s u t
    → Saved user_id chosen backups s t
unfolding save_preferences
save_preferences-Saved user_id chosen backups s u t h =
    let (v, done, kept) = change_configuration-Returns user_id _ _ _ s u t h in
    bind-then _ _ s u v done λ x w checked written.
      let (savable, same) =
        require_valid_preferences-Savable user_id chosen backups s x w checked in
      let ended =
        kept
        ∙ ap (with_audit _) (
            write-Returns _ w u v written ∙ ap (writing_preferences user_id chosen backups) same) in
      record {
        savable = savable;
        row = rw ended (writing-row user_id chosen backups _ s);
        recorded = rw ended (writing-audits user_id chosen backups _ s);
      }
