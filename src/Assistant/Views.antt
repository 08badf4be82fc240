-- ===== src/Assistant/Views.antt =====
-- assistant.service.ts, the reads: the conversation that an account sees, with its turns and the
-- versions of their answers.
use gnester_lite.Common.{
  ℕ, Text, Bool, ◌&&◌, ◌||◌, ◌==◌, ltb, leb, Option, none, some, List, map, find, any, select_where,
  order_by, String, Program, ◌>>=◌, found, read, not_found,
}
use gnester_lite.Assistant.Store.{
  Provider, Status, ErrorCode, Conversation, Turn, Answer, Store, is_active,
}

pub record ConversationSummary : Type 0 where
  pub id : ℕ
  pub title : Text
  pub created_at : ℕ
  pub updated_at : ℕ
  pub active_answer_id : Option ℕ
  pub provider : Option Provider
  pub model : Option String

pub record AnswerView : Type 0 where
  pub id : ℕ
  pub version : ℕ
  pub content : Text
  pub status : Status
  pub model : String
  pub provider : Option Provider
  pub error_code : Option ErrorCode
  pub created_at : ℕ

pub record TurnView : Type 0 where
  pub id : ℕ
  pub question : Text
  pub selected_answer_id : Option ℕ
  pub created_at : ℕ
  pub answers : List AnswerView

pub record ConversationView : Type 0 where
  pub summary : ConversationSummary
  pub turns : List TurnView

abbrev pub turn_order : Turn → Turn → Bool
turn_order a b = ltb a.created_at b.created_at || (a.created_at == b.created_at && leb a.id b.id)

abbrev pub turns_of : Store → ℕ → List Turn
turns_of s conversation_id =
    order_by turn_order (select_where (λ t. t.conversation_id == conversation_id) s.turns)

-- The INNER JOIN of answers and the turns of one conversation.
abbrev pub in_conversation : Store → ℕ → Answer → Bool
in_conversation s conversation_id a =
    any (λ t. t.id == a.turn_id && t.conversation_id == conversation_id) s.turns

abbrev pub answers_of : Store → ℕ → List Answer
answers_of s conversation_id =
    order_by (λ a b. leb a.version b.version)
      (select_where (in_conversation s conversation_id) s.answers)

abbrev pub answer_view : Answer → AnswerView
answer_view a = record {
  id = a.id;
  version = a.version;
  content = a.content;
  status = a.status;
  model = a.model;
  provider = a.provider;
  error_code = a.error_code;
  created_at = a.created_at;
}

abbrev pub turn_view : List Answer → Turn → TurnView
turn_view answers t = record {
  id = t.id;
  question = t.question;
  selected_answer_id = t.selected_answer_id;
  created_at = t.created_at;
  answers = map answer_view (select_where (λ a. a.turn_id == t.id) answers);
}

abbrev pub active_id : List Answer → Option ℕ
active_id answers = elim (find (λ a. is_active a.status) answers) [
  | none ↦ none
  | some a ↦ some a.id
]

abbrev pub summary_of : Conversation → Option ℕ → ConversationSummary
summary_of c active = record {
  id = c.id;
  title = c.title;
  created_at = c.created_at;
  updated_at = c.updated_at;
  active_answer_id = active;
  provider = c.provider;
  model = c.model;
}

unfoldable pub conversation_view : Store → Conversation → ConversationView
conversation_view s c = record {
  summary = summary_of c (active_id (answers_of s c.id));
  turns = map (turn_view (answers_of s c.id)) (turns_of s c.id);
}

abbrev pub owned_by : ℕ → ℕ → Conversation → Bool
owned_by user_id conversation_id c = c.id == conversation_id && c.user_id == user_id

unfoldable pub owned_conversation : ℕ → ℕ → Program Store Conversation
owned_conversation user_id conversation_id = do
  row ← read λ s. find (owned_by user_id conversation_id) s.conversations
  found row (not_found "Not Found")

unfoldable pub get_conversation : ℕ → ℕ → Program Store ConversationView
get_conversation user_id conversation_id = do
  c ← owned_conversation user_id conversation_id
  read λ s. conversation_view s c

-- The rows of the LEFT JOINs of `listConversations`, folded by conversation as the loop does: the
-- first answer that is active names the summary's.
abbrev pub list_conversations : Store → ℕ → List ConversationSummary
list_conversations s user_id =
    map (λ c. summary_of c (active_id (select_where (in_conversation s c.id) s.answers)))
      (order_by (λ a b. leb b.updated_at a.updated_at)
        (select_where (λ c. c.user_id == user_id) s.conversations))
