-- ===== src/Assistant/Configuration/Preferences/Repair.antt =====
-- What the repair of the default model leaves.
use gnester_lite.Common.{
  ℕ, ◌≡◌, refl, true, ◌==◌, Option, none, some, List, find_holds, ==_iff, find-update_where,
  Option-cases, Bool-cases, inl, inr,
}
use gnester_lite.Assistant.Store.{ModelChoice, Preference, Store}
use gnester_lite.Assistant.Selection.{
  is_model_available, available_key, available_keys, read_preference, default_of,
}
use gnester_lite.Assistant.Configuration.Preferences.{
  repairing, repairing_choice, repairing_preference, repairing_row, repaired, replacement_of,
}

-- A choice that the account can use, or none.
abbrev pub Usable : Store → ℕ → Option ModelChoice → Type 0
Usable s user_id none = Unit
Usable s user_id (some m) = is_model_available s user_id m ≡ true

-- Availability does not read the preferences.
is_model_available-repairing_row :
    (s : Store) (user_id : ℕ) (previous : ModelChoice) (p : Preference) (v : ℕ) (m : ModelChoice)
    → is_model_available (repairing_row user_id previous p s) v m ≡ is_model_available s v m
unfolding is_model_available available_key available_keys repairing_row
is_model_available-repairing_row s user_id previous p v m = refl

replacement_of-Usable :
    (s : Store) (user_id : ℕ) (ms : List ModelChoice)
    → Usable s user_id (replacement_of s user_id ms)
replacement_of-Usable s user_id ms = elim (Option-cases (replacement_of s user_id ms)) [
  | inl e ↦ rw e tt
  | inr (m, e) ↦ rw e (find_holds (is_model_available s user_id) ms m e)
]

owner_of :
    (user_id : ℕ) (p : Preference) (s : Store)
    → read_preference s user_id ≡ some p
    → (p.user_id == user_id) ≡ true
unfolding read_preference
owner_of user_id p s e = find_holds (λ q. q.user_id == user_id) s.preferences p e

default_of-read_preference :
    (user_id : ℕ) (previous : ModelChoice) (p : Preference) (s : Store)
    → read_preference s user_id ≡ some p
    → default_of (read_preference (repairing_row user_id previous p s) user_id)
      ≡ replacement_of s p.user_id p.backup_models
unfolding read_preference repairing_row
default_of-read_preference user_id previous p s e =
    rw
      (find-update_where (λ q. q.user_id == user_id) (λ q. q.user_id == user_id)
        (λ q.
          let r = repaired s previous p in
          record q {
            default_model = r.default_model;
            backup_models = r.backup_models;
            model_notice = r.model_notice;
          })
        s.preferences (λ q. refl))
      (rw e (rw (owner_of user_id p s e) refl))

Usable-repairing_row :
    (user_id : ℕ) (previous : ModelChoice) (p : Preference) (s : Store) (o : Option ModelChoice)
    → Usable s user_id o
    → Usable (repairing_row user_id previous p s) user_id o
Usable-repairing_row user_id previous p s none h = tt
Usable-repairing_row user_id previous p s (some m) h =
    rw (is_model_available-repairing_row s user_id previous p user_id m) h

row-Usable :
    (user_id : ℕ) (previous : ModelChoice) (p : Preference) (s : Store)
    → read_preference s user_id ≡ some p
    → let t = repairing_row user_id previous p s in
      Usable t user_id (default_of (read_preference t user_id))
row-Usable user_id previous p s e = rw (default_of-read_preference user_id previous p s e) (
    Usable-repairing_row user_id previous p s _ (
      rw ((==_iff p.user_id user_id).0 (owner_of user_id p s e))
        (replacement_of-Usable s user_id p.backup_models)))

choice-Usable :
    (user_id : ℕ) (p : Preference) (chosen : Option ModelChoice) (s : Store)
    → read_preference s user_id ≡ some p
    → p.default_model ≡ chosen
    → let t = repairing_choice user_id p chosen s in
      Usable t user_id (default_of (read_preference t user_id))
unfolding repairing_choice
choice-Usable user_id p none s e c = rw e (rw c tt)
choice-Usable user_id p (some m) s e c = elim (Bool-cases (is_model_available s user_id m)) [
  | inl can ↦ rw can (rw e (rw c can))
  | inr cannot ↦ rw cannot (row-Usable user_id m p s e)
]

-- After a repair the account has no default model, or one that is available to it.
pub repairing-Usable :
    (user_id : ℕ) (s : Store)
    → Usable
        (repairing user_id s)
        user_id
        (default_of (read_preference (repairing user_id s) user_id))
unfolding repairing repairing_preference
repairing-Usable user_id s = elim (Option-cases (read_preference s user_id)) [
  | inl e ↦ rw e (rw e tt)
  | inr (p, e) ↦ rw e (choice-Usable user_id p p.default_model s e refl)
]

choice-unchanged :
    (user_id : ℕ) (p : Preference) (chosen : Option ModelChoice) (s : Store)
    → Usable s user_id chosen
    → repairing_choice user_id p chosen s ≡ s
unfolding repairing_choice
choice-unchanged user_id p none s h = refl
choice-unchanged user_id p (some m) s h = rw h refl

preference-unchanged :
    (user_id : ℕ) (o : Option Preference) (s : Store)
    → Usable s user_id (default_of o)
    → repairing_preference user_id o s ≡ s
unfolding repairing_preference
preference-unchanged user_id none s h = refl
preference-unchanged user_id (some p) s h = choice-unchanged user_id p p.default_model s h

pub repairing-unchanged :
    (user_id : ℕ) (s : Store)
    → Usable s user_id (default_of (read_preference s user_id))
    → repairing user_id s ≡ s
unfolding repairing
repairing-unchanged user_id s h = preference-unchanged user_id (read_preference s user_id) s h

-- A second repair changes nothing.
pub repairing_idem :
    (user_id : ℕ) (s : Store) → repairing user_id (repairing user_id s) ≡ repairing user_id s
repairing_idem user_id s =
    repairing-unchanged user_id (repairing user_id s) (repairing-Usable user_id s)
