-- ===== src/Assistant/Worker/Trace.antt =====
-- What the worker does to the store, as a run of single steps among those of others.
use gnester_lite.Common.{
  ℕ, ◌≡◌, refl, sym, ◌∙◌, ap, Text, List, [], ◌∷◌, ◌++◌, Program, read, write, Preorder, Follows,
  Follows-write, ◌⨾◌, flow,
}
use gnester_lite.Assistant.Store.{KeyError, Store}
use gnester_lite.Assistant.Generation.{
  Generation, register, cancel, release, start_answer, use_answer_key, is_generating, append_answer,
  completing, selecting_completed, fail_answer,
}
use gnester_lite.Assistant.Lifecycle.Runs.{
  Step, registers, cancels, releases, starts, uses_key, appends, completes, selects_completed,
  fails, marks_failure, retires, finishes_deletion, exec, run,
}
use gnester_lite.Assistant.Configuration.Catalog.{retire_model}
use gnester_lite.Assistant.Configuration.Keys.{mark_key_failure, finish_key_deletion}
use gnester_lite.Assistant.Worker.{World, wait, waited, on_store, await, aborted, mark_checkpoint}

pub run-++ : (es fs : List Step) (s : Store) → run (es ++ fs) s ≡ run fs (run es s)
unfolding run
run-++ [] fs s = refl
run-++ (e ∷ es) fs s = run-++ es fs (exec e s)

pub run-nil : (s : Store) → s ≡ run [] s
unfolding run
run-nil s = refl

-- The second store is what some run makes of the first.
abbrev pub reaches : Preorder World
reaches = record {
  rel = λ w v. (es : List Step) × (v.store ≡ run es w.store);
  rel_refl = λ w. ([], run-nil w.store);
  rel_trans = λ w v x h k. (h.0 ++ k.0, k.1 ∙ ap (run k.0) h.1 ∙ sym (run-++ h.0 k.0 w.store));
}

abbrev Traced : {A : Type 0} → Program World A → Type 0
Traced m = Follows reaches m

-- A call that is a step.
step-Traced :
    {A : Type 0} (e : Step) (m : Program Store A)
    → ((s : Store) → (m s).1 ≡ exec e s)
    → Traced (on_store m)
unfolding on_store run
step-Traced e m h = record { run = λ w. (e ∷ [], h w.store) }

read-Traced : {A : Type 0} (f : Store → A) → Traced (on_store (read f))
unfolding on_store read run
read-Traced f = record { run = λ w. ([], refl) }

-- A change of the local variables.
local-Traced : (f : World → World) → ((w : World) → (f w).store ≡ w.store) → Traced (write f)
unfolding run
local-Traced f h = Follows-write reaches (λ w. ([], h w))

wait-Traced : Traced wait
unfolding wait run
wait-Traced = Follows-write reaches λ w. go w w.others
  where
    go : (w : World) (others : List (List Step)) → reaches.rel w (waited others w)
    go w [] = reaches.rel_refl w
    go w (es ∷ rest) = (es, refl)

await-Traced : {A : Type 0} (m : Program Store A) → Traced (on_store m) → Traced (await m)
unfolding await
await-Traced m h = wait-Traced ⨾ λ _. h

cancel-Traced : (id : ℕ) → Traced (on_store (cancel id))
unfolding exec
cancel-Traced id = step-Traced (cancels id) _ (λ s. refl)

register-Traced : (id : ℕ) → Traced (on_store (register id))
unfolding exec
register-Traced id = step-Traced (registers id) _ (λ s. refl)

release-Traced : (id : ℕ) → Traced (on_store (release id))
unfolding exec
release-Traced id = step-Traced (releases id) _ (λ s. refl)

start-Traced : (id : ℕ) → Traced (await (start_answer id))
unfolding exec
start-Traced id = await-Traced _ (step-Traced (starts id) _ (λ s. refl))

use_key-Traced : (id key_id : ℕ) → Traced (await (use_answer_key id key_id))
unfolding exec
use_key-Traced id key_id = await-Traced _ (step-Traced (uses_key id key_id) _ (λ s. refl))

append-Traced : (id : ℕ) (content : Text) → Traced (await (append_answer id content))
unfolding exec
append-Traced id content = await-Traced _ (step-Traced (appends id content) _ (λ s. refl))

fail-Traced : (id : ℕ) (code : _) → Traced (await (fail_answer id code))
unfolding exec
fail-Traced id code = await-Traced _ (step-Traced (fails id code) _ (λ s. refl))

mark-Traced : (key_id : ℕ) (code : KeyError) → Traced (await (mark_key_failure key_id code))
unfolding exec
mark-Traced key_id code = await-Traced _ (step-Traced (marks_failure key_id code) _ (λ s. refl))

retire_model-Traced : (user_id : ℕ) (m : _) → Traced (await (retire_model user_id m))
unfolding exec
retire_model-Traced user_id m = await-Traced _ (step-Traced (retires user_id m) _ (λ s. refl))

finish_key-Traced : (key_id : ℕ) → Traced (await (finish_key_deletion key_id))
unfolding exec
finish_key-Traced key_id = await-Traced _ (step-Traced (finishes_deletion key_id) _ (λ s. refl))

completing-Traced : (id : ℕ) (content : Text) → Traced (await (write (completing id content)))
unfolding exec write
completing-Traced id content = await-Traced _ (step-Traced (completes id content) _ (λ s. refl))

selecting-Traced : (id : ℕ) → Traced (await (write (selecting_completed id)))
unfolding exec write
selecting-Traced id = await-Traced _ (step-Traced (selects_completed id) _ (λ s. refl))

running-Traced : (id : ℕ) → Traced (await (is_generating id))
unfolding is_generating
running-Traced id = await-Traced _ (read-Traced _)

found-Traced : {A : Type 0} (f : Store → A) → Traced (await (read f))
found-Traced f = await-Traced _ (read-Traced f)

aborted-Traced : (id : ℕ) → Traced (aborted id)
unfolding aborted
aborted-Traced id = search flow

mark_checkpoint-Traced : Traced mark_checkpoint
unfolding mark_checkpoint
mark_checkpoint-Traced = local-Traced _ (λ w. refl)

ruleset calls = (
  flow, wait-Traced, cancel-Traced, register-Traced, release-Traced, start-Traced, use_key-Traced,
  append-Traced, fail-Traced, mark-Traced, retire_model-Traced, finish_key-Traced,
  completing-Traced, selecting-Traced, running-Traced, found-Traced, aborted-Traced,
  mark_checkpoint-Traced,
)
