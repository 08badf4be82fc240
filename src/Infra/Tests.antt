-- ===== src/Infra/Tests.antt =====
-- The theorems on the shared services, at concrete states.
mod Web
use gnester_lite.Common.{
  ◌≡◌, ◌≢◌, refl, ◌≤◌, arith, Bool, true, false, not, ◌&&◌, ◌||◌, ◌==◌, if◌then◌else◌, none, some,
  List, [], ◌∷◌, ℕ, length, take, ok, count_where, ◌>>=◌, return, read, write, Text, codes, text_eq,
  Bool-cases, inl, inr, Option,
}
use gnester_lite.Infra.Schedule.{Kind, interval, cron, kind_eq, Registry, Scheduler}
use gnester_lite.Infra.Schedule.Runs.{
  Event, adds_interval, adds_cron, ticks, settles, deletes_interval, shuts_down, exec, run,
}
use gnester_lite.Infra.Schedule.Overlap.{is_run, run-single}
use gnester_lite.Infra.Schedule.Shutdown.{Drained, shutdown-Drained}
use gnester_lite.Infra.Shutdown.{
  Options, Process, returns, throws, hangs, resolves, telemetry_closed,
}
use gnester_lite.Infra.Shutdown.Deadlines.{
  Event as Happening, triggers, resumes, run as run_shutdown, Exited, run-Exited,
}
use gnester_lite.Infra.Queue.{
  Calls, returned, acquired, exhausted, acquire_admission_lock, acquire_script,
}
use gnester_lite.Infra.Queue.Errors.{acquire_admission_lock-ends}
use gnester_lite.Infra.Queue.Capacity.{
  Shared, outside, acquiring, counting, publishing, releasing, acquires, counts, publishes,
  releases, done, later, Steps-bounded,
}
use gnester_lite.Infra.Cache.{Redis, Page, get_index_members}
use gnester_lite.Infra.Cache.Scan.{all_members, get_index_members-take}
use gnester_lite.Infra.Cache.Index

-- A registry as the test of its jobs.
abbrev table : Registry (Kind → ℕ → Bool)
table = record {
  exists = λ k n r. r k n;
  names = λ k r. if r k 1 then 1 ∷ [] else [];
  add = λ l m r. λ k n. (kind_eq k l && n == m) || r k n;
  remove = λ l m r. λ k n. not (kind_eq k l && n == m) && r k n;
  is_active = λ n r. r cron n;
  start = λ n r. r;
  stop = λ n r. r;
  stop_rejects = λ n r. n == 3;
  set_time = λ n t r. r;
  exists_add = λ k l n m r. refl;
  exists_remove = λ k l n m r. refl;
  exists_start = λ k n m r. refl;
  exists_stop = λ k n m r. refl;
  exists_set_time = λ k n m t r. refl;
}

abbrev scheduler : Scheduler (Kind → ℕ → Bool)
scheduler = record {
  registry = λ k n. false;
  managed_cron_jobs = [];
  managed_intervals = [];
  managed_timeouts = [];
  running_callbacks = [];
  running_intervals = [];
  is_shutting_down = false;
  enabled = true;
  failures = 0;
}

abbrev events : List Event
events =
    adds_interval 1
    ∷ ticks 1
    ∷ ticks 1
    ∷ deletes_interval 1
    ∷ adds_interval 1
    ∷ ticks 1
    ∷ settles (record { kind = interval; name = 1 }) true
    ∷ ticks 1
    ∷ []

run-single_example : count_where (is_run 1) (run table events scheduler).running_callbacks ≤ 1
run-single_example = run-single table 1 events scheduler refl

abbrev working : Scheduler (Kind → ℕ → Bool)
working = record scheduler {
  registry = λ k n. n == 1 || n == 3;
  managed_cron_jobs = 1 ∷ 3 ∷ [];
  managed_intervals = 1 ∷ [];
}

shutdown-Drained_example :
    Drained table cron 1 working
      (run table (adds_cron 2 true ∷ adds_interval 1 ∷ []) (exec table shuts_down working))
shutdown-Drained_example =
    shutdown-Drained table working (adds_cron 2 true ∷ adds_interval 1 ∷ []) cron 1 (λ r. refl)

abbrev options : Options
options = record {
  get_budgets = throws;
  get_application = returns (some hangs);
  is_accepting_requests = returns true;
  begin_drain = throws;
  stop_accepting_requests = hangs;
  close_telemetry = λ timeout. resolves 5 telemetry_closed;
}

abbrev process : Process
process = record {
  now = 0;
  reports = [];
  started = [];
  is_draining = false;
  exits = [];
  has_shutdown = false;
}

-- A second trigger before the first phase, one between two phases, and one after the exit.
abbrev happening : List Happening
happening = triggers 143 ∷ resumes ∷ triggers 1 ∷ resumes ∷ resumes ∷ triggers 1 ∷ resumes ∷ []

run-Exited_example :
    Exited options 130 process 4
      (run_shutdown options
        (triggers 130 ∷ happening)
        (record { process = process; pending = [] })).process
run-Exited_example = run-Exited options 130 happening process refl

acquire_admission_lock-ends_example :
    (acquire_admission_lock (λ n. (false, 3)) 41 100).0 ≢ exhausted
acquire_admission_lock-ends_example =
    acquire_admission_lock-ends (λ n. (false, 3)) 41 100 (omega arith)

abbrev backend : Calls ℕ
backend = record {
  client = returned tt;
  lock = returned acquired;
  pending = returned 3;
  operation = returned 9;
  release = returned tt;
  in_time = true;
}

-- A producer that publishes two jobs under a capacity of five.
abbrev start_state : Shared
start_state = record { now = 0; lock = none; pending = 3; stage = λ p. outside }

abbrev locked_state : Shared
locked_state = acquiring 7 start_state

abbrev counted_state : Shared
counted_state = counting 7 0 locked_state

abbrev published_state : Shared
published_state = publishing 7 0 2 counted_state

Steps-bounded_example : (releasing 7 published_state).pending ≤ 5
unfolding acquire_script
Steps-bounded_example =
    Steps-bounded 5 start_state (releasing 7 published_state) (omega arith) (λ p. refl)
      (later start_state locked_state (releasing 7 published_state)
        (acquires 7 start_state refl refl)
        (later locked_state counted_state (releasing 7 published_state)
          (counts 7 0 locked_state refl)
          (later counted_state published_state (releasing 7 published_state)
            (publishes 7 0 3 2 counted_state refl refl)
            (later published_state (releasing 7 published_state) (releasing 7 published_state)
              (releases 7 published_state) (done (releasing 7 published_state))))))
      (tt, (tt, (omega arith, (tt, tt))))

abbrev pages : List Page
pages =
    record { page_members = 1 ∷ 2 ∷ []; is_last = false }
    ∷ record { page_members = 3 ∷ 4 ∷ []; is_last = true }
    ∷ []

get_index_members-take_example :
    (get_index_members 3 pages ≡ ok (take 3 (all_members pages)))
    × (length (take 3 (all_members pages)) ≤ 3)
get_index_members-take_example = get_index_members-take 2 pages

abbrev redis : Redis
redis = record { now = 0; items = []; members = [] }

abbrev calls : List Index.Event
calls =
    Index.sets 1 10 60
    ∷ Index.sets 2 20 0
    ∷ Index.elapses 90
    ∷ Index.cleans 1
    ∷ Index.sets 3 30 5
    ∷ []

run-Indexed_example : Index.Indexed (λ m. m) 1 (Index.run (λ m. m) 1 calls redis)
run-Indexed_example =
    Index.run-Indexed (λ m. m) 1 calls redis (λ m n e. e)
      (record { bounded = λ one. omega arith; covered = λ m e. absurd (cc e) })
