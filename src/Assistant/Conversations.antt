-- ===== src/Assistant/Conversations.antt =====
-- assistant.service.ts, the handlers that write: questions, new versions of an answer, the choice of
-- a version and of a model, stopping, renaming and deleting.
use text.Mathlib.Text.{◌==◌ as str_eq}
use gnester_lite.Common.{
  ℕ, suc, Bool, true, false, not, ◌&&◌, ◌||◌, ◌==◌, ltb, if◌then◌else◌, Option, none, some,
  option_eq, List, [], ◌∷◌, ◌++◌, find, any, select_where, delete_where, update_where, order_by,
  max_of, String, Failure, Program, ◌>>=◌, ◌>>◌, found, return, throw, read, write, require,
  transaction, catch, conflict, not_found, bad_request, duplicate_key, Text, trim, is_empty, take,
}
use gnester_lite.Assistant.Store.{
  Provider, provider_eq, queued, stopped, ModelChoice, Message, user, assistant, Conversation, Turn,
  Answer, Store, is_active, is_completed, random_uuid,
}
use gnester_lite.Assistant.Generation.{cancel, enqueue_answer, require_generation_ready}
use gnester_lite.Assistant.Selection.{Selection, choose_model, require_selected_key}
use gnester_lite.Assistant.Views.{
  ConversationView, turns_of, turn_order, in_conversation, owned_by, owned_conversation,
  get_conversation,
}

-- `conversation.provider && conversation.model ? {…} : null`
abbrev pub model_of : Option Provider → Option String → Option ModelChoice
model_of (some p) (some m) =
    if str_eq m "" then none else some (record { provider = p; model_id = m })
model_of _ _ = none

abbrev pub previous_model : Conversation → Option ModelChoice
previous_model c = model_of c.provider c.model

-- `existing?.provider && existing.provider !== provider`
abbrev pub crosses : Option Provider → Provider → Bool
crosses none p = false
crosses (some q) p = not (provider_eq q p)

abbrev pub provider_of : Option Conversation → Option Provider
provider_of none = none
provider_of (some c) = c.provider

abbrev pub previous_of : Option Conversation → Option ModelChoice
previous_of none = none
previous_of (some c) = previous_model c

unfoldable pub existing_conversation : ℕ → Option ℕ → Program Store (Option Conversation)
existing_conversation user_id none = return none
existing_conversation user_id (some id) = do c ← owned_conversation user_id id; return (some c)

abbrev pub starts_turn : Option Answer → List Message
starts_turn none = []
starts_turn (some a) =
    if is_completed a.status && not (is_empty a.content)
    then record { role = assistant; content = a.content } ∷ []
    else []

-- The LEFT JOIN of a turn and its selected answer.
abbrev pub selected_answer : Store → Turn → Option Answer
selected_answer s t = find (λ a. option_eq ◌==◌ t.selected_answer_id a.id) s.answers

abbrev pub context_of : Store → List Turn → List Message
context_of s [] = []
context_of s (t ∷ ts) =
    record { role = user; content = t.question }
    ∷ (starts_turn (selected_answer s t) ++ context_of s ts)

abbrev pub as_conflict : Failure → Failure
as_conflict duplicate_key = conflict "Another answer is already generating"
as_conflict e = e

-- The unique indexes of `assistant_answer`: one active answer for an account, and one answer for a
-- version of a turn.
abbrev pub clashes : Answer → Answer → Bool
clashes a b =
    (is_active a.status && is_active b.status && a.user_id == b.user_id)
    || (a.turn_id == b.turn_id && a.version == b.version)

unfoldable pub insert_answer : Answer → Program Store (Unit {0})
insert_answer a = do
  taken ← read λ s. any (clashes a) s.answers
  require (not taken) duplicate_key
  write λ s. record s { answers = a ∷ s.answers }

-- A queued answer of the selected model and key.
abbrev pub queued_answer : ℕ → ℕ → ℕ → ℕ → Selection → ℕ → Answer
queued_answer id turn_id user_id version selection now = record {
  id = id;
  turn_id = turn_id;
  user_id = user_id;
  version = version;
  content = [];
  status = queued;
  model = selection.model.model_id;
  provider = some selection.model.provider;
  key_id = some selection.key_id;
  error_code = none;
  created_at = now;
  updated_at = now;
}

unfoldable pub create_conversation : ℕ → Text → Selection → Program Store ℕ
create_conversation user_id question selection = do
  id ← random_uuid
  write λ s. record s {
    conversations =
        record {
          id = id;
          user_id = user_id;
          title = take 80 question;
          provider = some selection.model.provider;
          model = some selection.model.model_id;
          created_at = s.now;
          updated_at = s.now;
        }
        ∷ s.conversations;
  }
  return id

unfoldable pub target_conversation : ℕ → Option ℕ → Text → Selection → Program Store ℕ
target_conversation user_id (some id) question selection = do
  c ← owned_conversation user_id id
  return id
target_conversation user_id none question selection = create_conversation user_id question selection

-- UPDATE `assistant_conversation` SET `provider`, `model`, `updatedAt`
unfoldable pub setting_model : ℕ → ModelChoice → Store → Store
setting_model id m s = record s {
  conversations =
      update_where (λ c. c.id == id)
        (λ c. record c { provider = some m.provider; model = some m.model_id; updated_at = s.now })
        s.conversations;
}

-- The transaction of `sendQuestion`.
unfoldable pub publish : ℕ → ℕ → Option ℕ → Text → Selection → Program Store ℕ
publish user_id answer_id conversation_id question selection = do
  require_selected_key user_id selection.model selection.key_id
  id ← target_conversation user_id conversation_id question selection
  context ← read λ s. context_of s (turns_of s id)
  turn_id ← random_uuid
  write λ s. record s {
    turns =
        record {
          id = turn_id;
          conversation_id = id;
          question = question;
          context_snapshot = context;
          selected_answer_id = none;
          created_at = s.now;
        }
        ∷ s.turns;
  }
  now ← read λ s. s.now
  insert_answer (queued_answer answer_id turn_id user_id 1 selection now)
  write (setting_model id selection.model)
  return id

unfoldable pub publishing : Program Store ℕ → Program Store ℕ
publishing m = catch (transaction m) (λ e. throw (as_conflict e))

unfoldable pub send_question :
    ℕ → Text → Option ℕ → Option ModelChoice → Bool → Program Store ConversationView
send_question user_id question conversation_id requested confirmed = do
  require_generation_ready
  require (not (is_empty (trim question))) (bad_request "Question is required")
  existing ← existing_conversation user_id conversation_id
  selection ← choose_model user_id requested (previous_of existing)
  require (not (crosses (provider_of existing) selection.model.provider) || confirmed)
      (conflict "cross_provider_confirmation_required")
  answer_id ← random_uuid
  id ← publishing (publish user_id answer_id conversation_id (trim question) selection)
  enqueue_answer answer_id
  get_conversation user_id id

-- The turn with its conversation's owner.
abbrev pub owned_turn : ℕ → ℕ → Store → Option Turn
owned_turn user_id turn_id s =
    find (λ t. t.id == turn_id && any (owned_by user_id t.conversation_id) s.conversations) s.turns

abbrev pub later_first : Turn → Turn → Bool
later_first a b = turn_order b a

abbrev pub is_latest : Store → Turn → Bool
is_latest s t =
    option_eq (λ (l : Turn) id. l.id == id)
      (find (λ l. true)
        (order_by later_first (select_where (λ l. l.conversation_id == t.conversation_id) s.turns)))
      t.id

-- COALESCE(MAX(`version`), 0) + 1
abbrev pub next_version : Store → ℕ → ℕ
next_version s turn_id =
    suc (max_of (λ a. a.version) (select_where (λ a. a.turn_id == turn_id) s.answers))

unfoldable pub touching : ℕ → Store → Store
touching id s = record s {
  conversations =
      update_where (λ c. c.id == id) (λ c. record c { updated_at = s.now }) s.conversations;
}

-- The transaction of `regenerate`.
unfoldable pub republish : ℕ → ℕ → ℕ → Program Store ℕ
republish user_id turn_id answer_id = do
  row ← read (owned_turn user_id turn_id)
  turn ← found row (not_found "Not Found")
  c ← owned_conversation user_id turn.conversation_id
  selection ← choose_model user_id none (previous_model c)
  require_selected_key user_id selection.model selection.key_id
  latest ← read λ s. is_latest s turn
  require latest (conflict "Only the latest answer can be regenerated")
  version ← read λ s. next_version s turn_id
  now ← read λ s. s.now
  insert_answer (queued_answer answer_id turn_id user_id version selection now)
  write (touching turn.conversation_id)
  return turn.conversation_id

unfoldable pub regenerate : ℕ → ℕ → Program Store ConversationView
regenerate user_id turn_id = do
  require_generation_ready
  answer_id ← random_uuid
  id ← publishing (republish user_id turn_id answer_id)
  enqueue_answer answer_id
  get_conversation user_id id

-- A turn of the same conversation that stands later.
abbrev pub has_later : Store → Turn → Bool
has_later s t =
    any
      (λ l.
        l.conversation_id == t.conversation_id
        && (ltb t.created_at l.created_at || (l.created_at == t.created_at && ltb t.id l.id)))
      s.turns

abbrev pub is_completed_version : ℕ → ℕ → Answer → Bool
is_completed_version turn_id answer_id a =
    a.id == answer_id && a.turn_id == turn_id && is_completed a.status

unfoldable pub selecting : ℕ → ℕ → Store → Store
selecting turn_id answer_id s = record s {
  turns =
      update_where (λ t. t.id == turn_id) (λ t. record t { selected_answer_id = some answer_id })
        s.turns;
}

unfoldable pub select_answer : ℕ → ℕ → ℕ → Program Store ConversationView
select_answer user_id turn_id answer_id = do
  row ← read (owned_turn user_id turn_id)
  turn ← found row (not_found "Not Found")
  later ← read λ s. has_later s turn
  require (not later) (conflict "Earlier answer versions are read-only")
  available ← read λ s. any (is_completed_version turn_id answer_id) s.answers
  require available (bad_request "Answer version is unavailable")
  write (selecting turn_id answer_id)
  get_conversation user_id turn.conversation_id

unfoldable pub choosing_model : ℕ → ℕ → ModelChoice → Store → Store
choosing_model user_id id m s = record s {
  conversations =
      update_where (owned_by user_id id)
        (λ c. record c { provider = some m.provider; model = some m.model_id; updated_at = s.now })
        s.conversations;
}

unfoldable pub select_model : ℕ → ℕ → ModelChoice → Bool → Program Store ConversationView
select_model user_id id m confirmed = do
  c ← owned_conversation user_id id
  require (not (crosses c.provider m.provider) || confirmed)
      (conflict "cross_provider_confirmation_required")
  selection ← choose_model user_id (some m) none
  write (choosing_model user_id id m)
  get_conversation user_id id

unfoldable pub stopping : ℕ → Store → Store
stopping id s = record s {
  answers =
      update_where (λ a. a.id == id && is_active a.status)
        (λ a. record a { status = stopped; updated_at = s.now }) s.answers;
}

-- The answer of the account with its turn.
abbrev pub owned_answer : ℕ → ℕ → Store → Option Turn
owned_answer user_id id s = elim (find (λ a. a.id == id && a.user_id == user_id) s.answers) [
  | none ↦ none
  | some a ↦ find (λ t. t.id == a.turn_id) s.turns
]

unfoldable pub stop_answer : ℕ → ℕ → Program Store ConversationView
stop_answer user_id id = do
  row ← read (owned_answer user_id id)
  turn ← found row (not_found "Not Found")
  write (stopping id)
  cancel id
  get_conversation user_id turn.conversation_id

unfoldable pub rename_conversation : ℕ → ℕ → Text → Program Store (Unit {0})
rename_conversation user_id id title = do
  c ← owned_conversation user_id id
  write λ s. record s {
    conversations =
        update_where (owned_by user_id id)
          (λ c. record c { title = trim title; updated_at = s.now }) s.conversations;
  }

-- for (const answer of activeAnswers) await this.stopAnswer(userId, answer.id)
unfoldable pub stop_all : ℕ → List Answer → Program Store (Unit {0})
stop_all user_id [] = return tt
stop_all user_id (a ∷ as') = do view ← stop_answer user_id a.id; stop_all user_id as'

-- DELETE of the conversation, with the foreign keys' ON DELETE CASCADE.
unfoldable pub deleting : ℕ → ℕ → Store → Store
deleting user_id id s =
    let gone = any (owned_by user_id id) s.conversations in
    record s {
      conversations = delete_where (owned_by user_id id) s.conversations;
      turns = delete_where (λ t. gone && t.conversation_id == id) s.turns;
      answers = delete_where (λ a. gone && in_conversation s id a) s.answers;
    }

unfoldable pub delete_conversation : ℕ → ℕ → Program Store (Unit {0})
delete_conversation user_id id = do
  c ← owned_conversation user_id id
  active ← read λ s. select_where (λ a. in_conversation s id a && is_active a.status) s.answers
  stop_all user_id active
  write (deleting user_id id)
