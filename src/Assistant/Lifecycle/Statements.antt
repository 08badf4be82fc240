-- ===== src/Assistant/Lifecycle/Statements.antt =====
-- The life cycle of an answer under each statement that writes the answers' table.
use gnester_lite.Common.{
  ℕ, ◌≤◌, ◌≡◌, ◌≢◌, refl, Bool, true, false, ◌==◌, none, some, List, [], ◌∷◌, find, any,
  update_where, delete_where, count_where, count_where-update_where-le, count_where-delete_where-le,
  Bool-cases, inl, inr, arith, Text,
}
use gnester_lite.Assistant.Store.{
  Answer, Status, Store, ErrorCode, is_active, is_queued, is_generating_status,
}
use gnester_lite.Assistant.Generation.{
  admission, failing, reserving, appending, completing, interrupting,
}
use gnester_lite.Assistant.Conversations.{clashes, stopping, deleting}
use gnester_lite.Assistant.Lifecycle.{Kept, Later, Later-refl, by_id, answer_at, active_of, Safe}

-- A statement that changes no answer and hands out no identifier again.
pub untouched-Safe :
    (i u : ℕ) (s t : Store) → t.answers ≡ s.answers → s.next_id ≤ t.next_id → Safe i u s t
untouched-Safe i u s t e n = record {
  known = n;
  row = λ h. rw e h;
  later = λ _. rw e (Later-refl _);
  single = λ h. rw e h;
}

Later-update_where :
    (i : ℕ) (p : Answer → Bool) (f : Answer → Answer) (rows : List Answer)
    → ((a : Answer) → (f a).id ≡ a.id)
    → ((a : Answer) → p a ≡ true → Kept a (f a))
    → Later (find (by_id i) rows) (find (by_id i) (update_where p f rows))
Later-update_where i p f [] ids k = tt
Later-update_where i p f (a ∷ rows) ids k = elim (Bool-cases (p a)) [
  | inl hit ↦ elim (Bool-cases (a.id == i)) [
    | inl here ↦ simp (hit, ids a, here) (k a hit)
    | inr away ↦ simp (hit, ids a, away) (Later-update_where i p f rows ids k)
  ]
  | inr miss ↦ elim (Bool-cases (a.id == i)) [
    | inl here ↦ simp (miss, here) (Later-refl (some a))
    | inr away ↦ simp (miss, away) (Later-update_where i p f rows ids k)
  ]
]

active-of_Kept : (u : ℕ) (a b : Answer) → Kept a b → active_of u b ≡ true → active_of u a ≡ true
active-of_Kept u a b k h = elim (Bool-cases (is_active a.status)) [
  | inl busy ↦ ground (arith, k.user)
  | inr idle ↦ ground (arith, k.frozen idle)
]

pub updated-Safe :
    (i u : ℕ) (p : Answer → Bool) (f : Answer → Answer) (s : Store)
    → ((a : Answer) → (f a).id ≡ a.id)
    → ((a : Answer) → p a ≡ true → Kept a (f a))
    → Safe i u s (record s { answers = update_where p f s.answers })
updated-Safe i u p f s ids k = record {
  known = omega arith;
  row = λ h.
      omega
        (arith, count_where-update_where-le (by_id i) p f s.answers (λ a hit. rw (ids a) (λ e. e)));
  later = λ _. Later-update_where i p f s.answers ids k;
  single = λ h. omega (
    arith,
    count_where-update_where-le (active_of u) p f s.answers
        (λ a hit. active-of_Kept u a (f a) (k a hit)),
  );
}

-- An active answer that leaves the queue, or stays outside it.
pub Kept-of :
    (a b : Answer)
    → (b.user_id ≡ a.user_id)
      × (b.turn_id ≡ a.turn_id)
      × (b.version ≡ a.version)
      × (b.model ≡ a.model)
      × (b.provider ≡ a.provider)
    → is_active a.status ≡ true
    → is_queued b.status ≡ false
    → Kept a b
Kept-of a b (user, turn, version, model, provider) busy out = record {
  user = user;
  turn = turn;
  version = version;
  model = model;
  provider = provider;
  frozen = λ e. ground arith;
  admitted = λ e. out;
}

generating-active : (x : Status) → is_generating_status x ≡ true → is_active x ≡ true
generating-active x h = ground arith

generating-out : (x : Status) → is_generating_status x ≡ true → is_queued x ≡ false
generating-out x h = ground arith

pub queued-active : (x : Status) → is_queued x ≡ true → is_active x ≡ true
queued-active x h = ground arith

module _ (i u : ℕ) where
  pub admission-Safe : (id : ℕ) (s : Store) → Safe i u s (admission id s)
  unfolding admission
  admission-Safe id s =
      updated-Safe i u _ _ s (λ a. refl)
        λ a hit.
          Kept-of a _ (refl, refl, refl, refl, refl) (ground (arith, queued-active a.status)) refl

  pub failing-Safe : (id : ℕ) (code : ErrorCode) (s : Store) → Safe i u s (failing id code s)
  unfolding failing
  failing-Safe id code s =
      updated-Safe i u _ _ s (λ a. refl)
        λ a hit. Kept-of a _ (refl, refl, refl, refl, refl) (ground arith) refl

  pub reserving-Safe : (id key_id : ℕ) (s : Store) → Safe i u s (reserving id key_id s)
  unfolding reserving
  reserving-Safe id key_id s =
      updated-Safe i u _ _ s (λ a. refl)
        λ a hit.
          Kept-of a _ (refl, refl, refl, refl, refl) (ground (arith, generating-active a.status))
            (ground (arith, generating-out a.status))

  pub appending-Safe : (id : ℕ) (content : Text) (s : Store) → Safe i u s (appending id content s)
  unfolding appending
  appending-Safe id content s =
      updated-Safe i u _ _ s (λ a. refl)
        λ a hit.
          Kept-of a _ (refl, refl, refl, refl, refl) (ground (arith, generating-active a.status))
            (ground (arith, generating-out a.status))

  pub completing-Safe : (id : ℕ) (content : Text) (s : Store) → Safe i u s (completing id content s)
  unfolding completing
  completing-Safe id content s =
      updated-Safe i u _ _ s (λ a. refl)
        λ a hit.
          Kept-of a _ (refl, refl, refl, refl, refl) (ground (arith, generating-active a.status))
            refl

  pub interrupting-Safe : (s : Store) → Safe i u s (interrupting s)
  unfolding interrupting
  interrupting-Safe s =
      updated-Safe i u _ _ s (λ a. refl)
        λ a hit. Kept-of a _ (refl, refl, refl, refl, refl) (generating-active a.status hit) refl

  pub stopping-Safe : (id : ℕ) (s : Store) → Safe i u s (stopping id s)
  unfolding stopping
  stopping-Safe id s =
      updated-Safe i u _ _ s (λ a. refl)
        λ a hit. Kept-of a _ (refl, refl, refl, refl, refl) (ground arith) refl

  find-eq_none : (rows : List Answer) → count_where (by_id i) rows ≤ 0 → find (by_id i) rows ≡ none
  find-eq_none [] h = refl
  find-eq_none (a ∷ rows) h = ground (arith, find-eq_none rows)

  Later-delete_where :
      (p : Answer → Bool) (rows : List Answer)
      → count_where (by_id i) rows ≤ 1
      → Later (find (by_id i) rows) (find (by_id i) (delete_where p rows))
  Later-delete_where p [] h = tt
  Later-delete_where p (a ∷ rows) h = elim (Bool-cases (p a)) [
    | inl hit ↦ elim (Bool-cases (a.id == i)) [
      | inl here ↦ simp (hit, here, find-eq_none (delete_where p rows) (only here)) tt
      | inr away ↦ simp (hit, away) (Later-delete_where p rows (ground arith))
    ]
    | inr miss ↦ elim (Bool-cases (a.id == i)) [
      | inl here ↦ simp (miss, here) (Later-refl (some a))
      | inr away ↦ simp (miss, away) (Later-delete_where p rows (ground arith))
    ]
  ]
    where
      only : (a.id == i) ≡ true → count_where (by_id i) (delete_where p rows) ≤ 0
      only here = ground (arith, count_where-delete_where-le (by_id i) p rows)

  pub deleting-Safe : (user_id id : ℕ) (s : Store) → Safe i u s (deleting user_id id s)
  unfolding deleting
  deleting-Safe user_id id s = record {
    known = omega arith;
    row = λ h. omega (arith, count_where-delete_where-le (by_id i) _ s.answers);
    later = λ h. Later-delete_where _ s.answers h;
    single = λ h. omega (arith, count_where-delete_where-le (active_of u) _ s.answers);
  }

  none_active :
      (a : Answer) (rows : List Answer)
      → any (clashes a) rows ≡ false
      → active_of u a ≡ true
      → count_where (active_of u) rows ≤ 0
  none_active a [] free h = omega arith
  none_active a (b ∷ rows) free h = ground (arith, none_active a rows)

  -- An insertion that the unique index admits.
  pub inserted-Safe :
      (a : Answer) (s : Store)
      → a.id ≢ i
      → any (clashes a) s.answers ≡ false
      → Safe i u s (record s { answers = a ∷ s.answers })
  inserted-Safe a s other free = record {
    known = omega arith;
    row = λ h. ground arith;
    later = λ _. ground (arith, Later-refl (answer_at i s));
    single = λ h. ground (arith, none_active a s.answers);
  }
