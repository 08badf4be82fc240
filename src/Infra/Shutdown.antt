-- ===== src/Infra/Shutdown.antt =====
-- bootstrap/application-shutdown.ts: the phases of a shutdown with their deadlines. Instants are in
-- milliseconds. What the options of the caller do is a parameter: how long an action takes, and
-- whether it throws. The hooks that report are told of each error and time-out; the code discards what
-- they throw.
pub mod Phases
pub mod Deadlines
use gnester_lite.Common.{
  ℕ, ◌+◌, ◌-◌, min, max, ◌≡◌, Bool, true, false, not, ◌&&◌, ◌||◌, ◌==◌, ltb, if◌then◌else◌, Option,
  none, some, List, [], ◌∷◌, ◌++◌,
}

pub record Budgets : Type 0 where
  pub readiness_propagation_delay_ms : ℕ
  pub application_close_timeout_ms : ℕ
  pub telemetry_close_timeout_ms : ℕ

-- DEFAULT_APPLICATION_SHUTDOWN_BUDGETS
abbrev pub default_budgets : Budgets
default_budgets = record {
  readiness_propagation_delay_ms = 5000;
  application_close_timeout_ms = 10000;
  telemetry_close_timeout_ms = 2000;
}

pub data ActionResult : Type 0 where
  completed timed_out : ActionResult

pub data Phase : Type 0 where
  readiness admission application telemetry : Phase

pub data TelemetryResult : Type 0 where
  telemetry_closed not_initialized telemetry_timed_out : TelemetryResult

pub data Signal : Type 0 where
  sigint sigterm : Signal

-- A promise: it resolves or rejects after some time (at once for 0), or never settles.
pub data Action (A : Type 0) : Type 0 where
  resolves : ℕ → A → Action A
  rejects : ℕ → Action A
  hangs : Action A

-- A call that may throw.
pub data Call (A : Type 0) : Type 0 where
  returns : A → Call A
  throws : Call A

pub data Report : Type 0 where
  shutdown_error shutdown_timeout : Phase → Report

pub record Options : Type 0 where
  pub get_budgets : Call (Option Budgets)
  pub get_application : Call (Option (Action (Unit {0})))
  pub is_accepting_requests : Call Bool
  pub begin_drain : Call (Unit {0})
  pub stop_accepting_requests : Action (Unit {0})
  pub close_telemetry : ℕ → Action TelemetryResult

-- The clock, the reports made, newest first, the phases whose action was started, and the exit codes
-- that the process was told.
pub record Process : Type 0 where
  pub now : ℕ
  pub reports : List Report
  pub started : List Phase
  pub is_draining : Bool
  pub exits : List ℕ
  pub has_shutdown : Bool

abbrev pub report : Report → Process → Process
report r p = record p { reports = r ∷ p.reports }

abbrev pub spend : ℕ → Process → Process
spend d p = record p { now = p.now + d }

-- The race of an action against a timer, which was set first: the action wins if it settles at once
-- or before the timer.
abbrev pub wins : ℕ → ℕ → Bool
wins d timeout = d == 0 || ltb d timeout

-- How a race ends: the value of the action, its error, or the time-out.
pub data Ending (A : Type 0) : Type 0 where
  settled : A → Ending A
  failed expired : Ending A

-- `runShutdownActionWithinDeadline`: the ending and the time spent.
unfoldable pub run_within : {A : Type 0} → Action A → ℕ → Ending A × ℕ
run_within (resolves d a) timeout = if wins d timeout then (settled a, d) else (expired, timeout)
run_within (rejects d) timeout = if wins d timeout then (failed, d) else (expired, timeout)
run_within hangs timeout = (expired, timeout)

unfoldable pub phase_ended :
    {A : Type 0} → Phase → Ending A → Process → (ActionResult × Option A) × Process
phase_ended phase (settled a) p = ((completed, some a), p)
phase_ended phase failed p = ((completed, none), report (shutdown_error phase) p)
phase_ended phase expired p = ((timed_out, none), report (shutdown_timeout phase) p)

-- `runPhase`: `deadline - Date.now()`, not below 0.
unfoldable pub run_phase :
    {A : Type 0} → Phase → ℕ → Action A → Process → (ActionResult × Option A) × Process
run_phase phase deadline action p =
    let (ending, elapsed) = run_within action (deadline - p.now) in
    phase_ended phase ending (spend elapsed (record p { started = phase ∷ p.started }))

-- `waitUntil`
unfoldable pub wait_until : ℕ → Process → Process
wait_until deadline p = spend (deadline - p.now) p

unfoldable pub read_budgets : Call (Option Budgets) → Process → Budgets × Process
read_budgets (returns (some b)) p = (b, p)
read_budgets (returns none) p = (default_budgets, p)
read_budgets throws p = (default_budgets, report (shutdown_error application) p)

unfoldable pub read_application :
    Call (Option (Action (Unit {0}))) → Process → Option (Action (Unit {0})) × Process
read_application (returns a) p = (a, p)
read_application throws p = (none, report (shutdown_error application) p)

unfoldable pub read_accepting : Call Bool → Process → Bool × Process
read_accepting (returns b) p = (b, p)
read_accepting throws p = (false, report (shutdown_error readiness) p)

unfoldable pub drain : Call (Unit {0}) → Process → Process
drain (returns u) p = record p { is_draining = true }
drain throws p = report (shutdown_error readiness) p

-- `if (isAcceptingRequests)`: before the first `await`, and from there.
unfoldable pub drain_if : Bool → Call (Unit {0}) → Process → Process
drain_if false begin_drain p = p
drain_if true begin_drain p = drain begin_drain p

unfoldable pub close_admission : Options → Bool → ℕ → ℕ → Process → Process
close_admission o false propagation deadline p = p
close_admission o true propagation deadline p =
    (run_phase admission deadline o.stop_accepting_requests (wait_until propagation p)).1

unfoldable pub close_application : Option (Action (Unit {0})) → ℕ → Process → Process
close_application none deadline p = p
close_application (some close) deadline p = (run_phase application deadline close p).1

unfoldable pub telemetry_ended : ActionResult × Option TelemetryResult → Process → Process
telemetry_ended (completed, some telemetry_timed_out) p = report (shutdown_timeout telemetry) p
telemetry_ended _ p = p

unfoldable pub close_telemetry_phase : Options → ℕ → ℕ → Process → Process
close_telemetry_phase o deadline budget p =
    let phase_deadline = min deadline (p.now + budget) in
    let (outcome, q) =
      run_phase telemetry phase_deadline (o.close_telemetry (phase_deadline - p.now)) p in
    telemetry_ended outcome q

unfoldable pub exit : ℕ → Process → Process
exit code p = record p { exits = code ∷ p.exits }

-- A call of `closeAndExit` that waits: what it read, and the phase that comes next.
pub record Closing : Type 0 where
  pub exit_code : ℕ
  pub budgets : Budgets
  pub app : Option (Action (Unit {0}))
  pub accepting : Bool
  pub started_at : ℕ
  pub next : Phase

-- The deadlines
abbrev pub propagation_of : Closing → ℕ
propagation_of c =
    c.started_at + (if c.accepting then c.budgets.readiness_propagation_delay_ms else 0)

abbrev pub application_deadline_of : Closing → ℕ
application_deadline_of c = propagation_of c + c.budgets.application_close_timeout_ms

abbrev pub telemetry_deadline_of : Closing → ℕ
telemetry_deadline_of c = application_deadline_of c + c.budgets.telemetry_close_timeout_ms

-- `closeAndExit` up to its first `await`
unfoldable pub begin_closing : Options → ℕ → Process → Closing × Process
begin_closing o code p =
    let (budgets, p₁) = read_budgets o.get_budgets p in
    let (app, p₂) = read_application o.get_application p₁ in
    let (accepting, p₃) = read_accepting o.is_accepting_requests p₂ in
    (
      record {
        exit_code = code;
        budgets = budgets;
        app = app;
        accepting = accepting;
        started_at = p.now;
        next = admission;
      },
      drain_if accepting o.begin_drain p₃,
    )

-- Its next phase, and the exit after the last one; `readiness` is part of the start.
unfoldable pub advance : Options → Closing → Phase → Process → List Closing × Process
advance o c readiness p = (record c { next = admission } ∷ [], p)
advance o c admission p = (
  record c { next = application } ∷ [],
  close_admission o c.accepting (propagation_of c) (application_deadline_of c) p,
)
advance o c application p =
    (record c { next = telemetry } ∷ [], close_application c.app (application_deadline_of c) p)
advance o c telemetry p = (
  [],
  exit c.exit_code
      (close_telemetry_phase o (telemetry_deadline_of c) c.budgets.telemetry_close_timeout_ms p),
)

-- The process with the calls of `closeAndExit` that wait.
pub record Machine : Type 0 where
  pub process : Process
  pub pending : List Closing

abbrev pub started_closing : Closing × Process → List Closing → Machine
started_closing (c, p) pending = record {
  process = record p { has_shutdown = true };
  pending = c ∷ pending;
}

-- `shutdownApplication`: `shutdown ??= closeAndExit(…)`, where no option starts a shutdown itself.
unfoldable pub shutdown_application : Options → ℕ → Machine → Machine
shutdown_application o code m =
    if m.process.has_shutdown then m else started_closing (begin_closing o code m.process) m.pending

abbrev pub resumed : List Closing × Process → List Closing → Machine
resumed (cs, p) pending = record { process = p; pending = cs ++ pending }

-- One of the calls that wait goes on with its next phase.
abbrev pub resume_first : Options → List Closing → Machine → Machine
resume_first o [] m = m
resume_first o (c ∷ cs) m = resumed (advance o c c.next m.process) cs

unfoldable pub resume : Options → Machine → Machine
resume o m = resume_first o m.pending m

abbrev pub get_signal_exit_code : Signal → ℕ
get_signal_exit_code sigint = 130
get_signal_exit_code sigterm = 143

unfoldable pub on_signal : Options → Signal → Machine → Machine
on_signal o signal m = shutdown_application o (get_signal_exit_code signal) m
