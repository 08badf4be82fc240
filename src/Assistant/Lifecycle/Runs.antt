-- ===== src/Assistant/Lifecycle/Runs.antt =====
-- Runs of the assistant: any sequence of handler calls, worker steps and the clock, from any account
-- and any worker, in any order.
use gnester_lite.Common.{ℕ, ◌+◌, ◌<◌, refl, Bool, Option, List, [], ◌∷◌, arith, Text}
use gnester_lite.Assistant.Store.{Provider, KeyError, Store, ModelChoice, ErrorCode}
use gnester_lite.Assistant.Generation.{
  register, cancel, cancel_all, release, start_answer, use_answer_key, append_answer, completing,
  selecting_completed, fail_answer, fail_interrupted_answers,
}
use gnester_lite.Assistant.Conversations.{
  send_question, regenerate, select_answer, select_model, stop_answer, rename_conversation,
  delete_conversation,
}
use gnester_lite.Assistant.Configuration.Preferences.{
  save_preferences, consent_to_openai, update_model,
}
use gnester_lite.Assistant.Configuration.Catalog.{Providers, refresh_models, retire_model}
use gnester_lite.Assistant.Configuration.Keys.{
  update_key, finish_key_deletion, delete_key, revoke_key, mark_key_failure, save_key,
}
use gnester_lite.Assistant.Lifecycle.{
  Safe, Safe-refl, Safe-trans, Later, OneRow, OneActive, answer_at,
}
use gnester_lite.Assistant.Lifecycle.Statements.{untouched-Safe, completing-Safe}
use gnester_lite.Assistant.Lifecycle.Handlers.{selecting_completed-Safe}
use gnester_lite.Assistant.Lifecycle.Handlers
use gnester_lite.Assistant.Lifecycle.Changes

-- A request of an account, a step of a worker, or the passing of time. The two statements of
-- `completeAnswer` are steps of their own, since other steps may come between them.
pub data Step : Type 0 where
  sends : ℕ → Text → Option ℕ → Option ModelChoice → Bool → Step
  regenerates stops : ℕ → ℕ → Step
  selects_answer : ℕ → ℕ → ℕ → Step
  selects_model : ℕ → ℕ → ModelChoice → Bool → Step
  renames : ℕ → ℕ → Text → Step
  deletes : ℕ → ℕ → Step
  starts : ℕ → Step
  uses_key : ℕ → ℕ → Step
  appends completes : ℕ → Text → Step
  selects_completed : ℕ → Step
  fails : ℕ → ErrorCode → Step
  interrupts cancels_all : Step
  registers cancels releases : ℕ → Step
  saves_key : Providers → ℕ → Provider → Text → Text → Option ℕ → Step
  updates_key : ℕ → ℕ → Option Text → Option Bool → Option ℕ → Step
  deletes_key revokes_key : ℕ → ℕ → Step
  finishes_deletion : ℕ → Step
  saves_preferences : ℕ → Option ModelChoice → List ModelChoice → Step
  updates_model : ℕ → ModelChoice → Bool → Option ModelChoice → List ModelChoice → Step
  consents : ℕ → Step
  marks_failure : ℕ → KeyError → Step
  refreshes : Providers → ℕ → ℕ → Step
  retires : ℕ → ModelChoice → Step
  waits : ℕ → Bool → Bool → Step

-- The state after a step, whatever the call returned.
unfoldable pub exec : Step → Store → Store
exec (sends v q c m b) s = (send_question v q c m b s).1
exec (regenerates v t) s = (regenerate v t s).1
exec (stops v a) s = (stop_answer v a s).1
exec (selects_answer v t a) s = (select_answer v t a s).1
exec (selects_model v c m b) s = (select_model v c m b s).1
exec (renames v c t) s = (rename_conversation v c t s).1
exec (deletes v c) s = (delete_conversation v c s).1
exec (starts a) s = (start_answer a s).1
exec (uses_key a k) s = (use_answer_key a k s).1
exec (appends a t) s = (append_answer a t s).1
exec (fails a e) s = (fail_answer a e s).1
exec (registers a) s = (register a s).1
exec (cancels a) s = (cancel a s).1
exec (releases a) s = (release a s).1
exec cancels_all s = (cancel_all s).1
exec interrupts s = (fail_interrupted_answers s).1
exec (saves_key env v p n k x) s = (save_key env v p n k x s).1
exec (updates_key v k n b p) s = (update_key v k n b p s).1
exec (deletes_key v k) s = (delete_key v k s).1
exec (revokes_key v k) s = (revoke_key v k s).1
exec (finishes_deletion k) s = (finish_key_deletion k s).1
exec (saves_preferences v d b) s = (save_preferences v d b s).1
exec (updates_model v m e d b) s = (update_model v m e d b s).1
exec (consents v) s = (consent_to_openai v s).1
exec (marks_failure k e) s = (mark_key_failure k e s).1
exec (refreshes env v k) s = (refresh_models env v k s).1
exec (retires v m) s = (retire_model v m s).1
exec (completes a t) s = completing a t s
exec (selects_completed a) s = selecting_completed a s
exec (waits n enabled available) s = record s {
  now = s.now + n;
  queue_enabled = enabled;
  queue_available = available;
}

unfoldable pub run : List Step → Store → Store
run [] s = s
run (e ∷ es) s = run es (exec e s)

module _ (i u : ℕ) where
  exec-Safe : (e : Step) (s : Store) → i < s.next_id → Safe i u s (exec e s)
  unfolding exec
  exec-Safe (sends v q c m b) s below = (Handlers.send_question-Sound i u v q c m b).run s below
  exec-Safe (regenerates v t) s below = (Handlers.regenerate-Sound i u v t).run s below
  exec-Safe (stops v a) s below = (Handlers.stop_answer-Sound i u v a).run s below
  exec-Safe (selects_answer v t a) s below = (Handlers.select_answer-Sound i u v t a).run s below
  exec-Safe (selects_model v c m b) s below = (Handlers.select_model-Sound i u v c m b).run s below
  exec-Safe (renames v c t) s below = (Handlers.rename_conversation-Sound i u v c t).run s below
  exec-Safe (deletes v c) s below = (Handlers.delete_conversation-Sound i u v c).run s below
  exec-Safe (starts a) s below = (Handlers.start_answer-Sound i u a).run s below
  exec-Safe (uses_key a k) s below = (Handlers.use_answer_key-Sound i u a k).run s below
  exec-Safe (appends a t) s below = (Handlers.append_answer-Sound i u a t).run s below
  exec-Safe (fails a e) s below = (Handlers.fail_answer-Sound i u a e).run s below
  exec-Safe (registers a) s below = (Handlers.register-Sound i u a).run s below
  exec-Safe (cancels a) s below = (Handlers.cancel-Sound i u a).run s below
  exec-Safe (releases a) s below = (Handlers.release-Sound i u a).run s below
  exec-Safe cancels_all s below = (Handlers.cancel_all-Sound i u).run s below
  exec-Safe interrupts s below = (Handlers.fail_interrupted_answers-Sound i u).run s below
  exec-Safe (saves_key env v p n k x) s below =
      (Changes.save_key-Sound i u env v p n k x).run s below
  exec-Safe (updates_key v k n b p) s below = (Changes.update_key-Sound i u v k n b p).run s below
  exec-Safe (deletes_key v k) s below = (Changes.delete_key-Sound i u v k).run s below
  exec-Safe (revokes_key v k) s below = (Changes.revoke_key-Sound i u v k).run s below
  exec-Safe (finishes_deletion k) s below = (Changes.finish_key_deletion-Sound i u k).run s below
  exec-Safe (saves_preferences v d b) s below =
      (Changes.save_preferences-Sound i u v d b).run s below
  exec-Safe (updates_model v m e d b) s below =
      (Changes.update_model-Sound i u v m e d b).run s below
  exec-Safe (consents v) s below = (Changes.consent_to_openai-Sound i u v).run s below
  exec-Safe (marks_failure k e) s below = (Changes.mark_key_failure-Sound i u k e).run s below
  exec-Safe (refreshes env v k) s below = (Changes.refresh_models-Sound i u env v k).run s below
  exec-Safe (retires v m) s below = (Changes.retire_model-Sound i u v m).run s below
  exec-Safe (completes a t) s b = completing-Safe i u a t s
  exec-Safe (selects_completed a) s b = selecting_completed-Safe i u a s
  exec-Safe (waits n enabled available) s b = untouched-Safe i u s _ refl (omega arith)

  run-Safe : (es : List Step) (s : Store) → i < s.next_id → Safe i u s (run es s)
  unfolding run
  run-Safe [] s b = Safe-refl i u s
  run-Safe (e ∷ es) s b =
      let h = exec-Safe e s b in
      Safe-trans i u s _ _ h (run-Safe es (exec e s) (omega (arith, h.known)))

-- In any run, an answer whose identifier was given out before is afterwards deleted or the same
-- answer at a later time: it keeps its account, turn, version, provider and model, nothing of it
-- changes once it is completed, stopped or failed, and it does not return to the queue. It needs
-- the primary key to hold of it at the start.
pub run-Later :
    (i : ℕ) (es : List Step) (s : Store)
    → i < s.next_id
    → OneRow i s
    → Later (answer_at i s) (answer_at i (run es s))
run-Later i es s b h = (run-Safe i 0 es s b).later h

-- In any run, an account that starts with at most one queued or generating answer has at most one
-- at the end, once some identifier was given out.
pub run-OneActive :
    (u : ℕ) (es : List Step) (s : Store) → 0 < s.next_id → OneActive u s → OneActive u (run es s)
run-OneActive u es s b h = (run-Safe 0 u es s b).single h
