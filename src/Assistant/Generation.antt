-- ===== src/Assistant/Generation.antt =====
-- assistant-generation.service.ts: the durable transitions of an answer, one SQL statement each,
-- the in-process cancellations, and the hand-over to the queue.
pub mod Start
use gnester_lite.Common.{
  ℕ, Text, Bool, true, false, not, ◌&&◌, ◌==◌, if◌then◌else◌, Option, none, some, option_eq, List,
  [], ◌∷◌, ◌++◌, find, any, update_where, delete_where, count_where, String, Program, ◌>>=◌, ◌>>◌,
  return, read, write, require, transaction, catch, service_unavailable,
}
use gnester_lite.Assistant.Store.{
  Provider, provider_eq, generating, completed, failed, ErrorCode, model_unavailable, interrupted,
  queue_unavailable, ModelChoice, same_model, Message, user, Turn, Answer, Key, Store, is_queued,
  is_generating_status, is_completed, is_active,
}

-- AssistantCancellation
unfoldable pub register : ℕ → Program Store (Unit {0})
register id = write λ s. record s {
  controllers =
      record { answer_id = id; is_aborted = false }
      ∷ delete_where (λ c. c.answer_id == id) s.controllers;
}

unfoldable pub cancel : ℕ → Program Store (Unit {0})
cancel id = write λ s. record s {
  controllers =
      update_where (λ c. c.answer_id == id) (λ c. record c { is_aborted = true }) s.controllers;
}

unfoldable pub release : ℕ → Program Store (Unit {0})
release id =
    write λ s. record s { controllers = delete_where (λ c. c.answer_id == id) s.controllers }

unfoldable pub cancel_all : Program Store (Unit {0})
cancel_all = write λ s. record s {
  controllers = update_where (λ c. true) (λ c. record c { is_aborted = true }) s.controllers;
}

-- COALESCE(p.`isEnabled`, 1) = 1 for the preference of one user and model
abbrev pub model_enabled : Store → ℕ → ModelChoice → Bool
model_enabled s user_id m = not (
    any (λ p. p.user_id == user_id && same_model p.model m && not p.is_enabled) s.model_preferences)

abbrev pub answer_model_enabled : Store → Answer → Option Provider → Bool
answer_model_enabled s a none = true
answer_model_enabled s a (some p) =
    model_enabled s a.user_id (record { provider = p; model_id = a.model })

-- k.`isEnabled` = 1 AND k.`isPendingDeletion` = 0
abbrev pub is_usable : Key → Bool
is_usable k = k.is_enabled && not k.is_pending_deletion

-- The answer's own key is usable.
abbrev pub holds_usable_key : Store → Answer → Bool
holds_usable_key s a =
    any (λ k. option_eq ◌==◌ a.key_id k.id && k.user_id == a.user_id && is_usable k) s.keys

-- The UPDATE of `startAnswer`.
unfoldable pub admission : ℕ → Store → Store
admission id s = record s {
  answers =
      update_where
        (λ a.
          a.id == id
          && is_queued a.status
          && holds_usable_key s a
          && answer_model_enabled s a a.provider)
        (λ a. record a { status = generating; updated_at = s.now }) s.answers;
}

-- The UPDATE of `failAnswer`.
unfoldable pub failing : ℕ → ErrorCode → Store → Store
failing id code s = record s {
  answers =
      update_where (λ a. a.id == id && is_active a.status)
        (λ a. record a { status = failed; error_code = some code; updated_at = s.now }) s.answers;
}

unfoldable pub fail_answer : ℕ → ErrorCode → Program Store (Unit {0})
fail_answer id code = write (failing id code)

abbrev pub generating_answer : ℕ → Answer → Bool
generating_answer id a = a.id == id && is_generating_status a.status

unfoldable pub is_generating : ℕ → Program Store Bool
is_generating id = read λ s. any (generating_answer id) s.answers

pub record Generation : Type 0 where
  pub messages : List Message
  pub user_id : ℕ
  pub provider : Provider
  pub model : String
  pub key_id : Option ℕ

abbrev pub generation_of : Answer → Turn → Provider → Generation
generation_of a t p = record {
  messages = t.context_snapshot ++ record { role = user; content = t.question } ∷ [];
  user_id = a.user_id;
  provider = p;
  model = a.model;
  key_id = a.key_id;
}

-- The answer with its turn: the INNER JOIN of `startAnswer`.
abbrev pub answer_turn : ℕ → Store → Option (Answer × Turn)
answer_turn id s = elim (find (λ a. a.id == id) s.answers) [
  | none ↦ none
  | some a ↦ elim (find (λ t. t.id == a.turn_id) s.turns) [ none ↦ none | some t ↦ some (a, t) ]
]

unfoldable pub admitted : ℕ → Generation → Bool → Program Store (Option Generation)
admitted id g true = return (some g)
admitted id g false = do fail_answer id model_unavailable; return none

unfoldable pub admit : ℕ → Answer → Turn → Option Provider → Program Store (Option Generation)
admit id a t none = do fail_answer id model_unavailable; return none
admit id a t (some p) = do
  transaction (write (admission id))
  running ← is_generating id
  admitted id (generation_of a t p) running

unfoldable pub start_row : ℕ → Option (Answer × Turn) → Program Store (Option Generation)
start_row id none = return none
start_row id (some (a, t)) = if is_queued a.status then admit id a t a.provider else return none

unfoldable pub start_answer : ℕ → Program Store (Option Generation)
start_answer id = do row ← read (answer_turn id); start_row id row

-- The rows that the UPDATE of `useAnswerKey` matches.
abbrev pub reserves : Store → ℕ → ℕ → Answer → Bool
reserves s id key_id a =
    generating_answer id a
    && any
        (λ k.
          k.id == key_id
          && k.user_id == a.user_id
          && is_usable k
          && option_eq provider_eq a.provider k.provider)
        s.keys

unfoldable pub reserving : ℕ → ℕ → Store → Store
reserving id key_id s = record s {
  answers = update_where (reserves s id key_id) (λ a. record a { key_id = some key_id }) s.answers;
}

-- `affectedRows` counts the rows matched.
unfoldable pub reserve_key : ℕ → ℕ → Program Store Bool
reserve_key id key_id = do
  affected ← read λ s. count_where (reserves s id key_id) s.answers
  write (reserving id key_id)
  return (affected == 1)

unfoldable pub use_row : ℕ → ℕ → Option Answer → Program Store Bool
use_row id key_id none = return false
use_row id key_id (some a) = transaction (reserve_key id key_id)

unfoldable pub use_answer_key : ℕ → ℕ → Program Store Bool
use_answer_key id key_id = do
  row ← read λ s. find (λ a. a.id == id) s.answers
  use_row id key_id row

unfoldable pub appending : ℕ → Text → Store → Store
appending id content s = record s {
  answers =
      update_where (generating_answer id) (λ a. record a { content = content; updated_at = s.now })
        s.answers;
}

unfoldable pub append_answer : ℕ → Text → Program Store (Unit {0})
append_answer id content = write (appending id content)

unfoldable pub completing : ℕ → Text → Store → Store
completing id content s = record s {
  answers =
      update_where (generating_answer id)
        (λ a. record a { content = content; status = completed; updated_at = s.now }) s.answers;
}

unfoldable pub selecting_completed : ℕ → Store → Store
selecting_completed id s = record s {
  turns =
      update_where
        (λ t. any (λ a. a.id == id && is_completed a.status && a.turn_id == t.id) s.answers)
        (λ t. record t { selected_answer_id = some id }) s.turns;
}

unfoldable pub complete_answer : ℕ → Text → Program Store (Unit {0})
complete_answer id content = do write (completing id content); write (selecting_completed id)

unfoldable pub interrupting : Store → Store
interrupting s = record s {
  answers =
      update_where (λ a. is_generating_status a.status)
        (λ a. record a { status = failed; error_code = some interrupted; updated_at = s.now })
        s.answers;
}

unfoldable pub fail_interrupted_answers : Program Store (Unit {0})
fail_interrupted_answers = write interrupting

-- `queueService.add`, which throws when the backend does not take the job; a job identifier that
-- is known is not added twice.
unfoldable pub add_job : ℕ → Program Store (Unit {0})
add_job id = do
  available ← read λ s. s.queue_enabled && s.queue_available
  require available (service_unavailable "Queue backend is unavailable")
  write λ s. record s { jobs = if any (λ j. j == id) s.jobs then s.jobs else id ∷ s.jobs }

unfoldable pub enqueue_answer : ℕ → Program Store (Unit {0})
enqueue_answer id = catch (add_job id) (λ _. fail_answer id queue_unavailable)

unfoldable pub require_generation_ready : Program Store (Unit {0})
require_generation_ready = do
  enabled ← read λ s. s.queue_enabled
  require enabled (service_unavailable "Assistant queue is disabled")
