-- ===== src/Assistant/Generation/Start.antt =====
-- What the start of a queued answer does.
use gnester_lite.Common.{
  ℕ, ◌≤◌, ◌≡◌, refl, ap, sym, ◌∙◌, Bool, true, false, ◌&&◌, ◌==◌, if◌then◌else◌, Option, none, some,
  is_some, List, [], ◌∷◌, find, any, update_where, count_where, count_where-update_where-le,
  find_holds, find-update_where, Bool-cases, inl, inr, arith, ok, ◌>>=◌, read, write, return,
  transaction, Result,
}
use gnester_lite.Assistant.Store.{
  Provider, Answer, Turn, Status, Store, failed, generating, ErrorCode, model_unavailable,
  is_queued, is_active, is_generating_status,
}
use gnester_lite.Assistant.Generation.{
  Generation, generation_of, generating_answer, holds_usable_key, answer_model_enabled, answer_turn,
  admission, failing, fail_answer, is_generating, admitted, admit, start_row, start_answer,
}

-- The row of an identifier.
abbrev pub is_answer : ℕ → Answer → Bool
is_answer id a = a.id == id

-- Whether a queued answer may be started: it has a provider, its own key is usable, and its model is
-- not switched off.
abbrev pub startable : Store → Answer → Bool
startable s a = is_some a.provider && holds_usable_key s a && answer_model_enabled s a a.provider

-- What becomes of a queued answer that is started.
abbrev pub started : Store → Answer → Answer
started s a =
    if startable s a
    then record a { status = generating; updated_at = s.now }
    else record a { status = failed; error_code = some model_unavailable; updated_at = s.now }

abbrev pub generation_for : Store → Answer → Turn → Option Generation
generation_for s a t = elim a.provider [
  | none ↦ none
  | some p ↦ if startable s a then some (generation_of a t p) else none
]

any-none :
    (id : ℕ) (q : Answer → Bool) (rows : List Answer)
    → count_where (is_answer id) rows ≤ 0
    → any (λ b. is_answer id b && q b) rows ≡ false
any-none id q [] h = refl
any-none id q (b ∷ rows) h = ground (arith, any-none id q rows)

pub any-find :
    (id : ℕ) (q : Answer → Bool) (rows : List Answer) (a : Answer)
    → find (is_answer id) rows ≡ some a
    → count_where (is_answer id) rows ≤ 1
    → any (λ b. is_answer id b && q b) rows ≡ q a
any-find id q [] a h one = ground arith
any-find id q (b ∷ rows) a h one = elim (Bool-cases (is_answer id b)) [
  | inl here ↦
      let same : b ≡ a = ground (arith, h, here) in
      let rest = any-none id q rows (ground (arith, one, here)) in
      rw here (rw rest (ground (arith, ap q same)))
  | inr away ↦ ground (arith, any-find id q rows a)
]

queued-out : (x : Status) → is_queued x ≡ true → is_generating_status x ≡ false
queued-out x h = ground arith

-- The row after an UPDATE that keeps the identifiers.
updated_row :
    (id : ℕ) (p : Answer → Bool) (f : Answer → Answer) (rows : List Answer) (a : Answer)
    → ((b : Answer) → (f b).id ≡ b.id)
    → find (is_answer id) rows ≡ some a
    → find (is_answer id) (update_where p f rows) ≡ some (if p a then f a else a)
updated_row id p f rows a ids h =
    rw (find-update_where (is_answer id) p f rows (λ b. ap (λ (n : ℕ). n == id) (ids b)))
      (rw h refl)

pub updated_single :
    (id : ℕ) (p : Answer → Bool) (f : Answer → Answer) (rows : List Answer)
    → ((b : Answer) → (f b).id ≡ b.id)
    → count_where (is_answer id) rows ≤ 1
    → count_where (is_answer id) (update_where p f rows) ≤ 1
updated_single id p f rows ids h =
    omega (
      arith,
      h,
      count_where-update_where-le (is_answer id) p f rows (λ b hit k. rw (sym (ids b)) k),
    )

module _ (id : ℕ) (s : Store) (a : Answer) where
  -- The row of the identifier, which is the only one, is queued.
  pub record Waiting : Type 0 where
    pub row : find (is_answer id) s.answers ≡ some a
    pub single : count_where (is_answer id) s.answers ≤ 1
    pub waits : is_queued a.status ≡ true

  waiting-active : Waiting → (is_answer id a && is_active a.status) ≡ true
  waiting-active h =
      let named = find_holds (is_answer id) s.answers a h.row in ground (arith, named, h.waits)

  failing-row :
      (code : ErrorCode)
      → Waiting
      → find (is_answer id) (failing id code s).answers
        ≡ some (record a { status = failed; error_code = some code; updated_at = s.now })
  unfolding failing
  failing-row code h = updated_row id _ _ s.answers a (λ b. refl) h.row ∙ rw (waiting-active h) refl

  startable-some : (p : Provider) → a.provider ≡ some p → is_some a.provider ≡ true
  startable-some p e = rw e refl

  admission-row :
      (p : Provider)
      → a.provider ≡ some p
      → Waiting
      → find (is_answer id) (admission id s).answers
        ≡ some (if startable s a then record a { status = generating; updated_at = s.now } else a)
  unfolding admission
  admission-row p e h =
      let named = find_holds (is_answer id) s.answers a h.row in
      updated_row id _ _ s.answers a (λ b. refl) h.row
      ∙ rw (named, h.waits, startable-some p e) refl

  admission-single : Waiting → count_where (is_answer id) (admission id s).answers ≤ 1
  unfolding admission
  admission-single h = updated_single id _ _ s.answers (λ b. refl) h.single

  admission-generating :
      (p : Provider)
      → a.provider ≡ some p
      → Waiting
      → any (generating_answer id) (admission id s).answers ≡ startable s a
  admission-generating p e h = elim (Bool-cases (startable s a)) [
    | inl can ↦
        any-find id (λ b. is_generating_status b.status) (admission id s).answers
          (record a { status = generating; updated_at = s.now }) (admission-row p e h ∙ rw can refl)
          (admission-single h)
        ∙ sym can
    | inr cannot ↦
        any-find id (λ b. is_generating_status b.status) (admission id s).answers a
          (admission-row p e h ∙ rw cannot refl) (admission-single h)
        ∙ queued-out a.status h.waits
        ∙ sym cannot
  ]

  found_turn :
      (t : Turn)
      → find (λ t. t.id == a.turn_id) s.turns ≡ some t
      → Waiting
      → answer_turn id s ≡ some (a, t)
  found_turn t e h = rw (answer_turn, h.row, e) refl

  -- The state that the call leaves, in each case.
  start_answer-none :
      (t : Turn)
      → find (λ t. t.id == a.turn_id) s.turns ≡ some t
      → Waiting
      → a.provider ≡ none
      → start_answer id s ≡ (ok none, failing id model_unavailable s)
  unfolding start_answer start_row admit fail_answer ◌>>=◌ read write return
  start_answer-none t e h none_given = rw (found_turn t e h, h.waits, none_given) refl

  start_answer-can :
      (t : Turn) (p : Provider)
      → find (λ t. t.id == a.turn_id) s.turns ≡ some t
      → Waiting
      → a.provider ≡ some p
      → startable s a ≡ true
      → start_answer id s ≡ (ok (some (generation_of a t p)), admission id s)
  unfolding start_answer start_row admit admitted is_generating transaction ◌>>=◌ read write return
  start_answer-can t p e h given can =
      rw (found_turn t e h, h.waits, given, admission-generating p given h, can) refl

  start_answer-cannot :
      (t : Turn) (p : Provider)
      → find (λ t. t.id == a.turn_id) s.turns ≡ some t
      → Waiting
      → a.provider ≡ some p
      → startable s a ≡ false
      → start_answer id s ≡ (ok none, failing id model_unavailable (admission id s))
  unfolding start_answer start_row admit admitted is_generating fail_answer transaction ◌>>=◌ read
      write return
  start_answer-cannot t p e h given cannot =
      rw (found_turn t e h, h.waits, given, admission-generating p given h, cannot) refl

admission-now : (id : ℕ) (s : Store) → (admission id s).now ≡ s.now
unfolding admission
admission-now id s = refl

-- The outcome of a start and the row that it leaves.
pub record Starts (id : ℕ) (s : Store) (a : Answer) (t : Turn)
    (r : Result (Option Generation) × Store) : Type 0 where
  pub returned : r.0 ≡ ok (generation_for s a t)
  pub row : find (is_answer id) r.1.answers ≡ some (started s a)

module _ (id : ℕ) (s : Store) (a : Answer) (t : Turn) where
  Starts-none :
      Waiting id s a → a.provider ≡ none → Starts id s a t (ok none, failing id model_unavailable s)
  Starts-none h e = record {
    returned = rw (generation_for, e) refl;
    row = failing-row id s a model_unavailable h ∙ rw e refl;
  }

  Starts-can :
      (p : Provider)
      → Waiting id s a
      → a.provider ≡ some p
      → startable s a ≡ true
      → Starts id s a t (ok (some (generation_of a t p)), admission id s)
  Starts-can p h e can = record {
    returned = given p e can;
    row = admission-row id s a p e h ∙ rw can refl;
  }
    where
      given :
          (p : Provider)
          → a.provider ≡ some p
          → startable s a ≡ true
          → ok (some (generation_of a t p)) ≡ ok (generation_for s a t)
      given p e can = rw (generation_for, e, can) refl

  after_admission :
      (p : Provider)
      → Waiting id s a
      → a.provider ≡ some p
      → startable s a ≡ false
      → Waiting id (admission id s) a
  after_admission p h e cannot = record {
    row = admission-row id s a p e h ∙ rw cannot refl;
    single = admission-single id s a h;
    waits = h.waits;
  }

  Starts-cannot :
      (p : Provider)
      → Waiting id s a
      → a.provider ≡ some p
      → startable s a ≡ false
      → Starts id s a t (ok none, failing id model_unavailable (admission id s))
  Starts-cannot p h e cannot = record {
    returned = rw (generation_for, e, cannot) refl;
    row =
        failing-row id (admission id s) a model_unavailable (after_admission p h e cannot)
        ∙ rw cannot (
            ap
              (λ (n : ℕ).
                some (record a {
                  status = failed;
                  error_code = some model_unavailable;
                  updated_at = n;
                }))
              (admission-now id s));
  }

  Starts-by :
      (o : Option Provider)
      → a.provider ≡ o
      → find (λ t. t.id == a.turn_id) s.turns ≡ some t
      → Waiting id s a
      → Starts id s a t (start_answer id s)
  Starts-by none given turn h = rw (start_answer-none id s a t turn h given) (Starts-none h given)
  Starts-by (some p) given turn h = elim (Bool-cases (startable s a)) [
    | inl can ↦ rw (start_answer-can id s a t p turn h given can) (Starts-can p h given can)
    | inr cannot ↦
        rw (start_answer-cannot id s a t p turn h given cannot) (Starts-cannot p h given cannot)
  ]

  -- The start of a queued answer whose identifier no other row has and whose turn is there: if the
  -- answer has a provider, its own key is usable and its model is not switched off, the call returns
  -- its generation and the row is generating; otherwise the call returns nothing and the row has failed
  -- with model_unavailable.
  pub start_answer-Starts :
      Waiting id s a
      → find (λ t. t.id == a.turn_id) s.turns ≡ some t
      → Starts id s a t (start_answer id s)
  start_answer-Starts h turn = Starts-by a.provider refl turn h
