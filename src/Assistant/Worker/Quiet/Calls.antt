-- ===== src/Assistant/Worker/Quiet/Calls.antt =====
-- The calls of the worker while nobody else runs.
use gnester_lite.Common.{
  ◌⊎◌, ℕ, ◌<◌, ◌≡◌, refl, ap, Bool, true, ◌&&◌, ◌==◌, Option, none, some, List, [], ◌∷◌, any, find,
  select_where, count_where, All, All-find, All-order_by, find_holds, option_eq, arith, ==-refl,
  Bool-cases, Option-cases, inl, inr, or_else, Program, ok, ◌>>=◌, return, read, write, transaction,
  Failure, Meets, Meets-bind,
}
use gnester_lite.Assistant.Store.{
  Answer, Key, KeyError, Store, provider_eq, ModelChoice, Preference,
}
use gnester_lite.Assistant.Generation.{
  Generation, generating_answer, reserves, reserving, reserve_key, use_row, use_answer_key,
  is_usable,
}
use gnester_lite.Assistant.Selection.{
  read_preference, is_model_available, serves, available_keys, has_no_error, generation_key,
  next_generation_key, key_order,
}
use gnester_lite.Assistant.Configuration.Preferences.{
  repairing, repairing_preference, repairing_choice, repairing_row, repair_default,
}
use gnester_lite.Assistant.Configuration.Keys.{failing_key, repair_owner, mark_key_failure}
use gnester_lite.Assistant.Selection.Fallback.{left_after, All-left_after}
use gnester_lite.Assistant.Worker.{World, wait, waited, on_store, await}
use gnester_lite.Assistant.Lifecycle.Runs.{Step}
use gnester_lite.Assistant.Worker.Quiet.{
  Live, mine, row_of, any_mono, count_where_mono, count_where-any, count_where-update_where-lt,
}

waited-nil : (others : List (List Step)) (w : World) → others ≡ [] → waited others w ≡ w
waited-nil [] w h = refl
waited-nil (es ∷ rest) w h = absurd (cc h)

-- A wait without others, and a call after it.
pub Meets-wait :
    {P : World → Type 0} {E : Failure → World → Type 0}
    → ((w : World) → P w → w.others ≡ [])
    → Meets P wait (λ _. P) E
unfolding wait write
Meets-wait h = record { run = λ w p. rw (waited-nil w.others w (h w p)) p }

pub Meets-await :
    {A : Type 0} {P : World → Type 0} {E : Failure → World → Type 0} {Q : A → World → Type 0}
    (m : Program Store A)
    → ((w : World) → P w → w.others ≡ [])
    → Meets P (on_store m) Q E
    → Meets P (await m) Q E
unfolding await
Meets-await m h k = Meets-bind (Meets-wait h) (λ _. k)

-- A call whose outcome is known.
pub Meets-known :
    {A : Type 0} {P : World → Type 0} {E : Failure → World → Type 0} {Q : A → World → Type 0}
    (m : Program Store A)
    → ((w : World)
        → P w
        → (a : A) × (t : Store) × (m w.store ≡ (ok a, t)) × Q a (record w { store = t }))
    → Meets P (on_store m) Q E
unfolding on_store
Meets-known m h = record { run = λ w p. let (a, t, e, q) = h w p in rw e q }

pub Meets-written :
    {P : World → Type 0} {E : Failure → World → Type 0} {Q : Unit {0} → World → Type 0}
    (f : Store → Store)
    → ((w : World) → P w → Q tt (record w { store = f w.store }))
    → Meets P (on_store (write f)) Q E
unfolding on_store write
Meets-written f h = record { run = h }

pub Meets-seen :
    {A : Type 0} {P : World → Type 0} {E : Failure → World → Type 0} {Q : A → World → Type 0}
    (f : Store → A)
    → ((w : World) → P w → Q (f w.store) w)
    → Meets P (on_store (read f)) Q E
unfolding on_store read
Meets-seen f h = record { run = h }

-- What holds of a key of the table.
abbrev pub Held : List Key → Key → Type 0
Held ks k = (q : Key → Bool) → q k ≡ true → any q ks ≡ true

All-weaken : (P Q : Key → Type 0) (ks : List Key) → ((k : Key) → P k → Q k) → All P ks → All Q ks
All-weaken P Q [] f h = tt
All-weaken P Q (k ∷ ks) f h = (f k h.0, All-weaken P Q ks f h.1)

All-Held : (ks : List Key) → All (Held ks) ks
All-Held [] = tt
All-Held (k ∷ ks) = (
  λ q e. rw e refl,
  All-weaken (Held ks) (Held (k ∷ ks)) ks (λ x h q e. ground (arith, h q e)) (All-Held ks),
)

All-selected :
    (P : Key → Type 0) (p : Key → Bool) (ks : List Key)
    → All P ks
    → All (λ k. P k × (p k ≡ true)) (select_where p ks)
All-selected P p [] h = tt
All-selected P p (k ∷ ks) h = elim (Bool-cases (p k)) [
  | inl e ↦ rw e ((h.0, e), All-selected P p ks h.1)
  | inr e ↦ rw e (All-selected P p ks h.1)
]

-- The key serves the model of the account, has no recorded failure, and is a row of the table.
pub record Fit (s : Store) (user_id : ℕ) (m : ModelChoice) (k : Key) : Type 0 where
  pub held : Held s.keys k
  pub serving : serves s user_id m true k ≡ true
  pub healthy : has_no_error k ≡ true

available_keys-Held :
    (s : Store) (user_id : ℕ) (m : ModelChoice)
    → All
        (λ k. Held s.keys k × (serves s user_id m true k ≡ true))
        (available_keys s user_id m true)
unfolding available_keys
available_keys-Held s user_id m =
    All-order_by (λ k. Held s.keys k × (serves s user_id m true k ≡ true)) key_order _
      (All-selected (Held s.keys) (serves s user_id m true) s.keys (All-Held s.keys))

-- The keys that the worker goes to.
pub next_generation_key-Fit :
    (s : Store) (user_id : ℕ) (m : ModelChoice) (current : ℕ) (k : Key)
    → next_generation_key s user_id m current ≡ some k
    → Fit s user_id m k
unfolding next_generation_key
next_generation_key-Fit s user_id m current k h =
    let keys = available_keys s user_id m true in
    let both =
      All-find (λ k. Held s.keys k × (serves s user_id m true k ≡ true)) has_no_error
        (left_after current keys) k
        (All-left_after (λ k. Held s.keys k × (serves s user_id m true k ≡ true)) current keys
          (available_keys-Held s user_id m))
        h in
    record {
      held = both.0;
      serving = both.1;
      healthy = find_holds has_no_error (left_after current keys) k h;
    }

or_else-cases :
    {A : Type 0} (o p : Option A) (a : A) → or_else o p ≡ some a → (o ≡ some a) ⊎ (p ≡ some a)
or_else-cases none p a h = inr h
or_else-cases (some b) p a h = inl h

find-Fit :
    (s : Store) (user_id : ℕ) (m : ModelChoice) (q : Key → Bool) (k : Key)
    → find q (available_keys s user_id m true) ≡ some k
    → has_no_error k ≡ true
    → Fit s user_id m k
find-Fit s user_id m q k h healthy =
    let both =
      All-find (λ k. Held s.keys k × (serves s user_id m true k ≡ true)) q
        (available_keys s user_id m true) k (available_keys-Held s user_id m) h in
    record { held = both.0; serving = both.1; healthy = healthy }

pub generation_key-Fit :
    (s : Store) (user_id : ℕ) (m : ModelChoice) (preferred : Option ℕ) (k : Key)
    → generation_key s user_id m preferred ≡ some k
    → Fit s user_id m k
unfolding generation_key
generation_key-Fit s user_id m preferred k h = elim (or_else-cases _ _ k h) [
  | inl e ↦
      find-Fit s user_id m (λ k. option_eq ◌==◌ preferred k.id && has_no_error k) k e
        (ground (
          arith,
          find_holds (λ k. option_eq ◌==◌ preferred k.id && has_no_error k)
              (available_keys s user_id m true) k e,
        ))
  | inr e ↦
      find-Fit s user_id m has_no_error k e
        (find_holds has_no_error (available_keys s user_id m true) k e)
]

-- The reservation of a key that fits.
module _ (id : ℕ) (g : Generation) where
  abbrev pub model_for : ModelChoice
  model_for = record { provider = g.provider; model_id = g.model }

  fitting_reserves :
      (s : Store) (k : Key) (a : Answer)
      → Fit s g.user_id model_for k
      → mine id g a ≡ true
      → reserves s id k.id a ≡ true
  fitting_reserves s k a fit h = rw (here, found) refl
    where
      here : generating_answer id a ≡ true
      here = ground (arith, h)

      found :
          any
            (λ (x : Key).
              x.id == k.id
              && x.user_id == a.user_id
              && is_usable x
              && option_eq provider_eq a.provider x.provider)
            s.keys
          ≡ true
      found = fit.held _ (ground (arith, h, fit.serving, ==-refl k.id))

  reserves_row : (s : Store) (k : ℕ) (a : Answer) → reserves s id k a ≡ true → row_of id a ≡ true
  reserves_row s k a h = ground (arith, h)

  reserves_once :
      (w : World) (k : Key)
      → Live id g w
      → Fit w.store g.user_id model_for k
      → count_where (reserves w.store id k.id) w.store.answers ≡ 1
  reserves_once w k live fit = omega (
    arith,
    live.alone.single,
    count_where_mono (reserves w.store id k.id) (row_of id) w.store.answers
        (reserves_row w.store k.id),
    count_where-any (reserves w.store id k.id) w.store.answers (
        any_mono (mine id g) (reserves w.store id k.id) w.store.answers
          (λ a. fitting_reserves w.store k a fit) live.running),
  )

  row_found :
      (rows : List Answer)
      → any (mine id g) rows ≡ true
      → (a : Answer) × (find (λ b. b.id == id) rows ≡ some a)
  row_found [] h = absurd (cc h)
  row_found (b ∷ rows) h = elim (Bool-cases (b.id == id)) [
    | inl here ↦ (b, rw here refl)
    | inr away ↦ rw away (row_found rows (ground (arith, h, away)))
  ]

  pub use_answer_key-ok :
      (w : World) (k : Key)
      → Live id g w
      → Fit w.store g.user_id model_for k
      → use_answer_key id k.id w.store ≡ (ok true, reserving id k.id w.store)
  unfolding use_answer_key use_row reserve_key transaction ◌>>=◌ read write return
  use_answer_key-ok w k live fit =
      let (a, found) = row_found w.store.answers live.running in
      rw (found, reserves_once w k live fit) refl

-- What the repair of a default leaves alone.
repairing_choice-rest :
    (user_id : ℕ) (p : Preference) (m : Option ModelChoice) (s : Store)
    → repairing_choice user_id p m s
      ≡ record s { preferences = (repairing_choice user_id p m s).preferences }
unfolding repairing_choice repairing_row
repairing_choice-rest user_id p none s = refl
repairing_choice-rest user_id p (some m) s = elim (Bool-cases (is_model_available s user_id m)) [
  | inl e ↦ rw e refl
  | inr e ↦ rw e refl
]

pub repairing-rest :
    (user_id : ℕ) (s : Store)
    → repairing user_id s ≡ record s { preferences = (repairing user_id s).preferences }
unfolding repairing repairing_preference
repairing-rest user_id s = elim (Option-cases (read_preference s user_id)) [
  | inl e ↦ rw e refl
  | inr (p, e) ↦ rw e (repairing_choice-rest user_id p p.default_model s)
]

-- A failure of a key changes the keys and the preferences only.
pub mark_key_failure-ok :
    (key_id : ℕ) (code : KeyError) (s : Store)
    → (rows : _) × (mark_key_failure key_id code s
        ≡ (ok tt, record (failing_key key_id code s) { preferences = rows }))
unfolding mark_key_failure repair_owner repair_default ◌>>=◌ read write return failing_key
mark_key_failure-ok key_id code s =
    elim (Option-cases (find (λ k. k.id == key_id) (failing_key key_id code s).keys)) [
      | inl e ↦ (s.preferences, rw e refl)
      | inr (k, e) ↦
          let t = failing_key key_id code s in
          (
            (repairing k.user_id t).preferences,
            rw e (ap (λ (x : Store). (ok tt, x)) (repairing-rest k.user_id t)),
          )
    ]

-- Fewer keys are without a failure.
pub failing_key-fewer :
    (s : Store) (user_id : ℕ) (m : ModelChoice) (k : Key) (code : KeyError)
    → Fit s user_id m k
    → count_where has_no_error (failing_key k.id code s).keys < count_where has_no_error s.keys
unfolding failing_key
failing_key-fewer s user_id m k code fit =
    count_where-update_where-lt has_no_error (λ x. x.id == k.id) _ s.keys (λ x hit. refl)
      (fit.held (λ x. x.id == k.id && has_no_error x) (rw (==-refl k.id, fit.healthy) refl))
