-- ===== src/Assistant/Lifecycle/Handlers.antt =====
-- The life cycle of an answer under whole handlers, on every path through them.
use gnester_lite.Common.{
  ℕ, ◌≢◌, refl, Bool, true, false, Option, none, some, List, [], ◌∷◌, any, arith, Text, Program,
  Follows, ◌>>=◌, read, write, require, Follows-write, ◌⨾◌, Follows-transaction, Follows-catch,
  Follows-throw, flow, Bool-cases, inl, inr,
}
use gnester_lite.Assistant.Store.{
  Answer, Turn, Provider, Store, ErrorCode, ModelChoice, deepseek, openai, is_queued, random_uuid,
}
use gnester_lite.Assistant.Generation.{
  register, release, cancel_all, admitted, admit, start_row, reserve_key, use_row, add_job, cancel,
  fail_answer, is_generating, start_answer, use_answer_key, append_answer, complete_answer,
  fail_interrupted_answers, enqueue_answer, require_generation_ready, selecting_completed,
  Generation,
}
use gnester_lite.Assistant.Selection.{
  Selection, choose_model, require_selected_key, require_openai_consent,
}
use gnester_lite.Assistant.Views.{owned_conversation, get_conversation}
use gnester_lite.Assistant.Conversations.{
  clashes, insert_answer, create_conversation, target_conversation, publish, publishing,
  send_question, republish, regenerate, select_answer, select_model, stop_answer, stop_all,
  rename_conversation, delete_conversation, existing_conversation, setting_model, touching,
  selecting, choosing_model,
}
use gnester_lite.Assistant.Lifecycle.{Safe, Safe-refl, Safe-trans, safety}
use gnester_lite.Assistant.Lifecycle.Statements.{
  untouched-Safe, admission-Safe, failing-Safe, reserving-Safe, appending-Safe, completing-Safe,
  interrupting-Safe, stopping-Safe, deleting-Safe, inserted-Safe,
}

module _ (i u : ℕ) where
  -- Every run of the program keeps the answer `i` and the active answers of `u` safe.
  abbrev pub Sound : {A : Type 0} → Program Store A → Type 0
  Sound m = Follows (safety i u) m

  pub write-Sound : {f : Store → Store} → ((s : Store) → Safe i u s (f s)) → Sound (write f)
  write-Sound h = Follows-write (safety i u) (λ s _. h s)

  pub fail_answer-Sound : (id : ℕ) (code : ErrorCode) → Sound (fail_answer id code)
  unfolding fail_answer
  fail_answer-Sound id code = write-Sound (failing-Safe i u id code)

  is_generating-Sound : (id : ℕ) → Sound (is_generating id)
  unfolding is_generating
  is_generating-Sound id = search flow

  admitted-Sound : (id : ℕ) (g : Generation) (b : Bool) → Sound (admitted id g b)
  unfolding admitted
  admitted-Sound id g true = search flow
  admitted-Sound id g false = search (flow, fail_answer-Sound)

  admit-Sound : (id : ℕ) (a : Answer) (t : Turn) (p : Option Provider) → Sound (admit id a t p)
  unfolding admit
  admit-Sound id a t none = search (flow, fail_answer-Sound)
  admit-Sound id a t (some p) =
      Follows-transaction (safety i u) (write-Sound (admission-Safe i u id)) ⨾ λ _.
      is_generating-Sound id ⨾ λ b. admitted-Sound id _ b

  start_row-Sound : (id : ℕ) (row : Option (Answer × Turn)) → Sound (start_row id row)
  unfolding start_row
  start_row-Sound id none = search flow
  start_row-Sound id (some (a, t)) = elim (Bool-cases (is_queued a.status)) [
    | inl e ↦ rw e (admit-Sound id a t a.provider)
    | inr e ↦ rw e (search flow)
  ]

  pub start_answer-Sound : (id : ℕ) → Sound (start_answer id)
  unfolding start_answer
  start_answer-Sound id = search (flow, start_row-Sound)

  reserve_key-Sound : (id key_id : ℕ) → Sound (reserve_key id key_id)
  unfolding reserve_key
  reserve_key-Sound id key_id =
      search flow ⨾ λ n. write-Sound (reserving-Safe i u id key_id) ⨾ λ _. search flow

  use_row-Sound : (id key_id : ℕ) (row : Option Answer) → Sound (use_row id key_id row)
  unfolding use_row
  use_row-Sound id key_id none = search flow
  use_row-Sound id key_id (some a) = search (flow, reserve_key-Sound)

  pub use_answer_key-Sound : (id key_id : ℕ) → Sound (use_answer_key id key_id)
  unfolding use_answer_key
  use_answer_key-Sound id key_id = search (flow, use_row-Sound)

  pub append_answer-Sound : (id : ℕ) (content : Text) → Sound (append_answer id content)
  unfolding append_answer
  append_answer-Sound id content = write-Sound (appending-Safe i u id content)

  pub selecting_completed-Safe : (id : ℕ) (s : Store) → Safe i u s (selecting_completed id s)
  unfolding selecting_completed
  selecting_completed-Safe id s = untouched-Safe i u s _ refl (omega arith)

  pub complete_answer-Sound : (id : ℕ) (content : Text) → Sound (complete_answer id content)
  unfolding complete_answer
  complete_answer-Sound id content = search (
    flow,
    write-Sound (completing-Safe i u id content),
    write-Sound (selecting_completed-Safe id),
  )

  pub fail_interrupted_answers-Sound : Sound fail_interrupted_answers
  unfolding fail_interrupted_answers
  fail_interrupted_answers-Sound = write-Sound (interrupting-Safe i u)

  add_job-Sound : (id : ℕ) → Sound (add_job id)
  unfolding add_job
  add_job-Sound id = search flow ⨾ λ _.
      search flow ⨾ λ _. write-Sound λ s. untouched-Safe i u s _ refl (omega arith)

  pub enqueue_answer-Sound : (id : ℕ) → Sound (enqueue_answer id)
  unfolding enqueue_answer
  enqueue_answer-Sound id = search (flow, add_job-Sound, fail_answer-Sound)

  pub cancel-Sound : (id : ℕ) → Sound (cancel id)
  unfolding cancel
  cancel-Sound id = write-Sound λ s. untouched-Safe i u s _ refl (omega arith)

  pub register-Sound : (id : ℕ) → Sound (register id)
  unfolding register
  register-Sound id = write-Sound λ s. untouched-Safe i u s _ refl (omega arith)

  pub release-Sound : (id : ℕ) → Sound (release id)
  unfolding release
  release-Sound id = write-Sound λ s. untouched-Safe i u s _ refl (omega arith)

  pub cancel_all-Sound : Sound cancel_all
  unfolding cancel_all
  cancel_all-Sound = write-Sound λ s. untouched-Safe i u s _ refl (omega arith)

  require_generation_ready-Sound : Sound require_generation_ready
  unfolding require_generation_ready
  require_generation_ready-Sound = search flow

  require_openai_consent-Sound :
      (user_id : ℕ) (p : Provider) → Sound (require_openai_consent user_id p)
  unfolding require_openai_consent
  require_openai_consent-Sound user_id deepseek = search flow
  require_openai_consent-Sound user_id openai = search flow

  choose_model-Sound :
      (user_id : ℕ) (requested previous : Option ModelChoice)
      → Sound (choose_model user_id requested previous)
  unfolding choose_model
  choose_model-Sound user_id requested previous =
      search (flow, require_openai_consent-Sound) depth 8

  require_selected_key-Sound :
      (user_id : ℕ) (m : ModelChoice) (key_id : ℕ) → Sound (require_selected_key user_id m key_id)
  unfolding require_selected_key
  require_selected_key-Sound user_id m key_id = search flow

  owned_conversation-Sound : (user_id id : ℕ) → Sound (owned_conversation user_id id)
  unfolding owned_conversation
  owned_conversation-Sound user_id id = search flow

  get_conversation-Sound : (user_id id : ℕ) → Sound (get_conversation user_id id)
  unfolding get_conversation
  get_conversation-Sound user_id id = search (flow, owned_conversation-Sound)

  existing_conversation-Sound :
      (user_id : ℕ) (id : Option ℕ) → Sound (existing_conversation user_id id)
  unfolding existing_conversation
  existing_conversation-Sound user_id none = search flow
  existing_conversation-Sound user_id (some id) = search (flow, owned_conversation-Sound)

  -- A handler that draws an identifier gets one that is not `i`, if `i` was drawn before.
  pub uuid-Sound :
      {A : Type 0} {f : ℕ → Program Store A}
      → ((id : ℕ) → id ≢ i → Sound (f id))
      → Sound (random_uuid >>= f)
  unfolding ◌>>=◌ random_uuid
  uuid-Sound k = record {
    run = λ s b.
        Safe-trans i u s _ _ (untouched-Safe i u s _ refl (omega arith))
          ((k s.next_id (λ e. absurd (omega arith))).run _ (omega arith));
  }

  insert_answer-Sound : (a : Answer) → a.id ≢ i → Sound (insert_answer a)
  unfolding insert_answer ◌>>=◌ read require write
  insert_answer-Sound a other = record {
    run = λ s b. elim (Bool-cases (any (clashes a) s.answers)) [
      | inl taken ↦ rw (taken, require) (Safe-refl i u s)
      | inr free ↦ rw (free, require) (inserted-Safe i u a s other free)
    ];
  }

  create_conversation-Sound :
      (user_id : ℕ) (question : Text) (selection : Selection)
      → Sound (create_conversation user_id question selection)
  unfolding create_conversation
  create_conversation-Sound user_id question selection =
      uuid-Sound
        λ id _. (write-Sound λ s. untouched-Safe i u s _ refl (omega arith)) ⨾ λ _. search flow

  target_conversation-Sound :
      (user_id : ℕ) (id : Option ℕ) (question : Text) (selection : Selection)
      → Sound (target_conversation user_id id question selection)
  unfolding target_conversation
  target_conversation-Sound user_id none question selection =
      create_conversation-Sound user_id question selection
  target_conversation-Sound user_id (some id) question selection =
      owned_conversation-Sound user_id id ⨾ λ _. search flow

  setting_model-Safe : (id : ℕ) (m : ModelChoice) (s : Store) → Safe i u s (setting_model id m s)
  unfolding setting_model
  setting_model-Safe id m s = untouched-Safe i u s _ refl (omega arith)

  publish-Sound :
      (user_id answer_id : ℕ) (id : Option ℕ) (question : Text) (selection : Selection)
      → answer_id ≢ i
      → Sound (publish user_id answer_id id question selection)
  unfolding publish
  publish-Sound user_id answer_id id question selection other =
      require_selected_key-Sound user_id selection.model selection.key_id ⨾ λ _.
      target_conversation-Sound user_id id question selection ⨾ λ c. search flow ⨾ λ context.
      uuid-Sound λ turn_id _. (write-Sound λ s. untouched-Safe i u s _ refl (omega arith)) ⨾ λ _.
      search flow ⨾ λ now. insert_answer-Sound _ other ⨾ λ _.
      write-Sound (setting_model-Safe c selection.model) ⨾ λ _. search flow

  publishing-Sound : (m : Program Store ℕ) → Sound m → Sound (publishing m)
  unfolding publishing
  publishing-Sound m h =
      Follows-catch (safety i u) (Follows-transaction (safety i u) h)
        (λ e. Follows-throw (safety i u) ℕ _)

  pub send_question-Sound :
      (user_id : ℕ) (question : Text) (id : Option ℕ) (requested : Option ModelChoice)
      (confirmed : Bool)
      → Sound (send_question user_id question id requested confirmed)
  unfolding send_question
  send_question-Sound user_id question id requested confirmed =
      require_generation_ready-Sound ⨾ λ _. search flow ⨾ λ _.
      existing_conversation-Sound user_id id ⨾ λ existing.
      choose_model-Sound user_id requested _ ⨾ λ selection. search flow ⨾ λ _.
      uuid-Sound λ answer_id other.
        publishing-Sound _ (publish-Sound user_id answer_id id _ selection other) ⨾ λ c.
        enqueue_answer-Sound answer_id ⨾ λ _. get_conversation-Sound user_id c

  touching-Safe : (id : ℕ) (s : Store) → Safe i u s (touching id s)
  unfolding touching
  touching-Safe id s = untouched-Safe i u s _ refl (omega arith)

  republish-Sound :
      (user_id turn_id answer_id : ℕ) → answer_id ≢ i → Sound (republish user_id turn_id answer_id)
  unfolding republish
  republish-Sound user_id turn_id answer_id other = search flow ⨾ λ row. search flow ⨾ λ turn.
      owned_conversation-Sound user_id turn.conversation_id ⨾ λ c.
      choose_model-Sound user_id none _ ⨾ λ selection.
      require_selected_key-Sound user_id selection.model selection.key_id ⨾ λ _.
      search flow ⨾ λ latest. search flow ⨾ λ _. search flow ⨾ λ version. search flow ⨾ λ now.
      insert_answer-Sound _ other ⨾ λ _.
      write-Sound (touching-Safe turn.conversation_id) ⨾ λ _. search flow

  pub regenerate-Sound : (user_id turn_id : ℕ) → Sound (regenerate user_id turn_id)
  unfolding regenerate
  regenerate-Sound user_id turn_id = require_generation_ready-Sound ⨾ λ _.
      uuid-Sound λ answer_id other.
        publishing-Sound _ (republish-Sound user_id turn_id answer_id other) ⨾ λ c.
        enqueue_answer-Sound answer_id ⨾ λ _. get_conversation-Sound user_id c

  selecting-Safe : (turn_id answer_id : ℕ) (s : Store) → Safe i u s (selecting turn_id answer_id s)
  unfolding selecting
  selecting-Safe turn_id answer_id s = untouched-Safe i u s _ refl (omega arith)

  pub select_answer-Sound :
      (user_id turn_id answer_id : ℕ) → Sound (select_answer user_id turn_id answer_id)
  unfolding select_answer
  select_answer-Sound user_id turn_id answer_id = search flow ⨾ λ row. search flow ⨾ λ turn.
      search flow ⨾ λ later. search flow ⨾ λ _. search flow ⨾ λ available. search flow ⨾ λ _.
      write-Sound (selecting-Safe turn_id answer_id) ⨾ λ _.
      get_conversation-Sound user_id turn.conversation_id

  choosing_model-Safe :
      (user_id id : ℕ) (m : ModelChoice) (s : Store) → Safe i u s (choosing_model user_id id m s)
  unfolding choosing_model
  choosing_model-Safe user_id id m s = untouched-Safe i u s _ refl (omega arith)

  pub select_model-Sound :
      (user_id id : ℕ) (m : ModelChoice) (confirmed : Bool)
      → Sound (select_model user_id id m confirmed)
  unfolding select_model
  select_model-Sound user_id id m confirmed = owned_conversation-Sound user_id id ⨾ λ c.
      search flow ⨾ λ _. choose_model-Sound user_id (some m) none ⨾ λ _.
      write-Sound (choosing_model-Safe user_id id m) ⨾ λ _. get_conversation-Sound user_id id

  pub stop_answer-Sound : (user_id id : ℕ) → Sound (stop_answer user_id id)
  unfolding stop_answer
  stop_answer-Sound user_id id = search flow ⨾ λ row. search flow ⨾ λ turn.
      write-Sound (stopping-Safe i u id) ⨾ λ _.
      cancel-Sound id ⨾ λ _. get_conversation-Sound user_id turn.conversation_id

  pub rename_conversation-Sound :
      (user_id id : ℕ) (title : Text) → Sound (rename_conversation user_id id title)
  unfolding rename_conversation
  rename_conversation-Sound user_id id title = owned_conversation-Sound user_id id ⨾ λ _.
      write-Sound λ s. untouched-Safe i u s _ refl (omega arith)

  stop_all-Sound : (user_id : ℕ) (rows : List Answer) → Sound (stop_all user_id rows)
  unfolding stop_all
  stop_all-Sound user_id [] = search flow
  stop_all-Sound user_id (a ∷ rows) =
      stop_answer-Sound user_id a.id ⨾ λ _. stop_all-Sound user_id rows

  pub delete_conversation-Sound : (user_id id : ℕ) → Sound (delete_conversation user_id id)
  unfolding delete_conversation
  delete_conversation-Sound user_id id = owned_conversation-Sound user_id id ⨾ λ _.
      search flow ⨾ λ active.
      stop_all-Sound user_id active ⨾ λ _. write-Sound (deleting-Safe i u user_id id)
