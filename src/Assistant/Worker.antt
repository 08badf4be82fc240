-- ===== src/Assistant/Worker.antt =====
-- assistant.processor.ts: the worker that generates an answer. Each call of a service waits, and the
-- steps of requests and of other workers that run meanwhile are a list that the run is given.
pub mod Trace
pub mod Quiet
use gnester_lite.Common.{
  ℕ, zero, suc, ◌+◌, Text, Bool, true, false, not, ◌&&◌, ◌==◌, leb, is_empty, if◌then◌else◌, Option,
  none, some, List, [], ◌∷◌, ◌++◌, any, Program, ◌>>=◌, ◌>>◌, return, throw, read, write, require,
  when, catch, finished, internal, Failure, bad_request, conflict, not_found, forbidden,
  unauthorized, service_unavailable, range_error, duplicate_key, endless, Result, ok, err,
}
use gnester_lite.Assistant.Store.{
  Provider, ModelChoice, ErrorCode, model_unavailable, model_error, credential, KeyError, Key,
  Store,
}
use gnester_lite.Assistant.Generation.{
  Generation, register, cancel, release, cancel_all, start_answer, use_answer_key, is_generating,
  append_answer, completing, selecting_completed, fail_answer, fail_interrupted_answers,
}
use gnester_lite.Assistant.Selection.{generation_key, next_generation_key}
use gnester_lite.Assistant.Configuration.Catalog.{retire_model}
use gnester_lite.Assistant.Configuration.Keys.{mark_key_failure, finish_key_deletion}
use gnester_lite.Assistant.Providers.{ProviderError, credential_failure, is_missing_model_failure}
use gnester_lite.Assistant.Lifecycle.Runs.{Step, run}

-- The store, what others do at each coming wait, and the local variables `lastCheckpoint` and
-- `attemptedKeyIds` of the call, the latter in the order of insertion.
pub record World : Type 0 where
  pub store : Store
  pub others : List (List Step)
  pub last_checkpoint : ℕ
  pub attempted : List ℕ

-- The others run while the worker waits.
abbrev pub waited : List (List Step) → World → World
waited [] w = w
waited (es ∷ rest) w = record w { store = run es w.store; others = rest }

unfoldable pub wait : Program World (Unit {0})
wait = write λ w. waited w.others w

abbrev pub in_world : {A : Type 0} → World → (Result A × Store) → Result A × World
in_world w r = (r.0, record w { store = r.1 })

-- `await` of a call of a service
unfoldable pub on_store : {A : Type 0} → Program Store A → Program World A
on_store m w = in_world w (m w.store)

unfoldable pub await : {A : Type 0} → Program Store A → Program World A
await m = wait >> on_store m

-- A part of `response.fullStream`.
pub data Part : Type 0 where
  text_delta : Text → Part
  failure : Option ProviderError → Part
  abort other : Part
  -- Nothing more comes, and the stream does not end.
  stall : Part

-- How the reading of a stream ends: to its end, by an error, or by a `return` of the worker.
pub data Streamed : Type 0 where
  ended : Text → Streamed
  broken : Text → Option ProviderError → Streamed
  left : Streamed

-- `controller.signal.aborted`
abbrev pub is_aborted : ℕ → Store → Bool
is_aborted id s = any (λ c. c.answer_id == id && c.is_aborted) s.controllers

unfoldable pub aborted : ℕ → Program World Bool
aborted id = read λ w. is_aborted id w.store

unfoldable pub mark_checkpoint : Program World (Unit {0})
mark_checkpoint = write λ w. record w { last_checkpoint = w.store.now }

-- A checkpoint every 250 ms, after which the answer may be found stopped. It returns false where the
-- worker returns.
unfoldable pub checkpoint : ℕ → Text → Bool → Program World Bool
checkpoint id content false = return true
checkpoint id content true = do
  await (append_answer id content)
  mark_checkpoint
  running ← await (is_generating id)
  when (not running) (on_store (cancel id))
  return running

unfoldable pub proceed : Bool → Program World Streamed → Program World Streamed
proceed false k = return left
proceed true k = k

unfoldable pub stream : ℕ → Text → List Part → Program World Streamed
stream id content [] = do wait; return (ended content)
stream id content (failure e ∷ parts) = do wait; return (broken content e)
stream id content (abort ∷ parts) = do wait; return left
stream id content (stall ∷ parts) = do wait; throw endless
stream id content (other ∷ parts) = do wait; stream id content parts
stream id content (text_delta t ∷ parts) = do
  wait
  due ← read λ w. leb (w.last_checkpoint + 250) w.store.now
  go ← checkpoint id (content ++ t) due
  proceed go (stream id (content ++ t) parts)

abbrev pub add_id : ℕ → List ℕ → List ℕ
add_id n ns = if any (λ m. m == n) ns then ns else ns ++ n ∷ []

-- What is outside: whether the secret of a key decrypts, and the stream of each attempt.
pub record Answers : Type 0 where
  pub decrypts : Key → Bool
  pub parts : ℕ → Key → List Part

-- `decryptString` of a key that was selected, which throws where it fails.
abbrev pub is_readable : Answers → Option Key → Bool
is_readable r none = true
is_readable r (some k) = r.decrypts k

module _ (respond : Answers) (id : ℕ) (g : Generation) where
  abbrev pub model_of : ModelChoice
  model_of = record { provider = g.provider; model_id = g.model }

  -- After a credential failure: the next key, or none where the worker returns.
  unfoldable pub resume : KeyError → Option Key → Program World (Option Key)
  resume code none = do await (fail_answer id (credential code)); return none
  resume code (some k) = return (some k)

  unfoldable pub fall_back : Key → Option KeyError → Text → Program World (Option Key)
  fall_back k none content = throw (internal "provider error")
  fall_back k (some code) content = do
    is_off ← aborted id
    require (is_empty content && not is_off) (internal "provider error")
    await (mark_key_failure k.id code)
    next ← await (read λ s. next_generation_key s g.user_id model_of k.id)
    require (is_readable respond next) (internal "Encrypted payload authentication failed.")
    resume code next

  unfoldable pub retire : Program World (Option Key)
  retire = do
    await (retire_model g.user_id model_of)
    await (fail_answer id model_unavailable)
    return none

  unfoldable pub finish : Text → Bool → Program World (Option Key)
  finish content true = return none
  finish content false = do
    await (write (completing id content))
    await (write (selecting_completed id))
    return none

  -- What follows a stream: the next key to try, or none where the worker returns.
  unfoldable pub settle : Key → Streamed → Program World (Option Key)
  settle k (ended content) = do is_off ← aborted id; finish content is_off
  settle k (broken content e) =
      if is_empty content && is_missing_model_failure e
      then retire
      else fall_back k (credential_failure e g.provider) content
  settle k left = return none

  unfoldable pub request : ℕ → Key → Bool → Program World (Option Key)
  request n k false = return none
  request n k true = do outcome ← stream id [] (respond.parts n k); settle k outcome

  unfoldable pub still_runs : Bool → Program World Bool
  still_runs true = return false
  still_runs false = await (is_generating id)

  -- `useAnswerKey`, the signal and `isGenerating`, each asked only if those before allow it.
  unfoldable pub may_request : Bool → Program World Bool
  may_request false = return false
  may_request true = do is_off ← aborted id; still_runs is_off

  -- One pass of the loop over the keys.
  unfoldable pub attempt : ℕ → Key → Program World (Option Key)
  attempt n k = do
    write λ w. record w { attempted = add_id k.id w.attempted }
    reserved ← await (use_answer_key id k.id)
    may ← may_request reserved
    request n k may

  unfoldable pub again : Option Key → (Key → Program World Bool) → Program World Bool
  again none next = return true
  again (some k) next = next k

  -- The loop over the keys, on fuel: false where the fuel ran out.
  unfoldable pub attempts : ℕ → Key → Program World Bool
  attempts zero k = return false
  attempts (suc fuel) k = do next ← attempt fuel k; again next (attempts fuel)

  unfoldable pub work_with : ℕ → Option Key → Program World Bool
  work_with fuel none = do await (fail_answer id model_unavailable); return true
  work_with fuel (some k) = attempts fuel k

  unfoldable pub work : ℕ → Program World Bool
  work fuel = do
    key ← await (read λ s. generation_key s g.user_id model_of g.key_id)
    require (is_readable respond key) (internal "Encrypted payload authentication failed.")
    work_with fuel key

  unfoldable pub give_up : Program World Bool
  give_up = do
    running ← await (is_generating id)
    when running (await (fail_answer id model_error))
    return true

  unfoldable pub finish_deletions : List ℕ → Program World (Unit {0})
  finish_deletions [] = return tt
  finish_deletions (key_id ∷ rest) = do await (finish_key_deletion key_id); finish_deletions rest

  unfoldable pub clean_up : Program World (Unit {0})
  clean_up = do on_store (release id); keys ← read λ w. w.attempted; finish_deletions keys

  -- The `catch` and the `finally` of `generate`, which an `await` that never settles does not reach.
  unfoldable pub on_failure : Failure → Program World Bool
  on_failure endless = throw endless
  on_failure e = give_up

  abbrev pub clean_after : Result Bool × World → Result Bool × World
  clean_after (err endless, w) = (err endless, w)
  clean_after (err e, w) = finished (err e, w) clean_up
  clean_after (ok b, w) = finished (ok b, w) clean_up

  unfoldable pub work_and_clean_up : ℕ → Program World Bool
  work_and_clean_up fuel w = clean_after (catch (work fuel) on_failure w)

  unfoldable pub generate_from : ℕ → Program World Bool
  generate_from fuel = do wait; on_store (register id); mark_checkpoint; work_and_clean_up fuel

unfoldable pub generate_row : Answers → ℕ → ℕ → Option Generation → Program World Bool
generate_row respond fuel id none = return true
generate_row respond fuel id (some g) = generate_from respond id g fuel

-- `generate`
unfoldable pub generate : Answers → ℕ → ℕ → Program World Bool
generate respond fuel id = do
  write λ w. record w { attempted = [] }
  g ← await (start_answer id)
  generate_row respond fuel id g

-- `onModuleInit` before it creates the worker, and `onModuleDestroy` before it closes it.
unfoldable pub on_module_init : Program Store Bool
on_module_init = do
  enabled ← read λ s. s.queue_enabled
  when enabled fail_interrupted_answers
  return enabled

unfoldable pub on_module_destroy : Program Store (Unit {0})
on_module_destroy = cancel_all
