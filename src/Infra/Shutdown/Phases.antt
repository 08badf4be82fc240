-- ===== src/Infra/Shutdown/Phases.antt =====
-- The time that each phase of a shutdown takes, and that it makes no exit.
use gnester_lite.Common.{
  ℕ, ◌+◌, ◌-◌, ◌≤◌, min, ◌≡◌, refl, ◌∙◌, Bool, true, false, arith, Option, none, some, ◌∷◌,
}
use gnester_lite.Infra.Shutdown.{
  Budgets, Action, resolves, rejects, hangs, Call, returns, throws, Phase, admission, telemetry,
  application, Options, Process, Ending, settled, failed, expired, ActionResult, completed,
  timed_out, TelemetryResult, telemetry_closed, not_initialized, telemetry_timed_out, run_within,
  phase_ended, run_phase, spend, wait_until, read_budgets, read_application, read_accepting, drain,
  close_admission, close_application, telemetry_ended, close_telemetry_phase, drain_if,
}

within-le : {A : Type 0} (a : Action A) (t : ℕ) → (run_within a t).1 ≤ t
unfolding run_within
within-le (resolves d x) t = ground arith
within-le (rejects d) t = ground arith
within-le hangs t = omega arith

-- What the end of a phase leaves of the clock, the exits and the mark.
abbrev pub Same : Process → Process → Type 0
Same p q = (q.now ≡ p.now) × (q.exits ≡ p.exits) × (q.has_shutdown ≡ p.has_shutdown)

phase_ended-Same :
    {A : Type 0} (phase : Phase) (e : Ending A) (p : Process) → Same p (phase_ended phase e p).1
unfolding phase_ended
phase_ended-Same phase (settled a) p = (refl, refl, refl)
phase_ended-Same phase failed p = (refl, refl, refl)
phase_ended-Same phase expired p = (refl, refl, refl)

-- The clock is at most at an instant, and the exits and the mark are as they were.
pub record By (t : ℕ) (p q : Process) : Type 0 where
  pub timely : q.now ≤ t
  pub exits : q.exits ≡ p.exits
  pub mark : q.has_shutdown ≡ p.has_shutdown

run_phase-By :
    {A : Type 0} (phase : Phase) (deadline t : ℕ) (a : Action A) (p : Process)
    → p.now ≤ t
    → deadline ≤ t
    → By t p (run_phase phase deadline a p).1
unfolding run_phase
run_phase-By phase deadline t a p h k =
    let (clock, codes, mark) =
      phase_ended-Same phase (run_within a (deadline - p.now)).0
        (spend (run_within a (deadline - p.now)).1 (record p { started = phase ∷ p.started })) in
    record {
      timely = omega (arith, clock, within-le a (deadline - p.now), h, k);
      exits = codes;
      mark = mark;
    }

By-then : (t u : ℕ) (p q r : Process) → By t p q → By u q r → By u p r
By-then t u p q r h k = record {
  timely = k.timely;
  exits = k.exits ∙ h.exits;
  mark = k.mark ∙ h.mark;
}

drain-Same : (c : Call (Unit {0})) (p : Process) → Same p (drain c p)
unfolding drain
drain-Same (returns u) p = (refl, refl, refl)
drain-Same throws p = (refl, refl, refl)

wait-By : (t : ℕ) (p : Process) → p.now ≤ t → By t p (wait_until t p)
unfolding wait_until
wait-By t p h = record { timely = omega (arith, h); exits = refl; mark = refl }

pub drain_if-Same : (b : Bool) (c : Call (Unit {0})) (p : Process) → Same p (drain_if b c p)
unfolding drain_if
drain_if-Same false c p = (refl, refl, refl)
drain_if-Same true c p = drain-Same c p

pub close_admission-By :
    (o : Options) (accepting : Bool) (propagation deadline : ℕ) (p : Process)
    → p.now ≤ propagation
    → propagation ≤ deadline
    → By deadline p (close_admission o accepting propagation deadline p)
unfolding close_admission
close_admission-By o false propagation deadline p h k = record {
  timely = omega (arith, h, k);
  exits = refl;
  mark = refl;
}
close_admission-By o true propagation deadline p h k =
    let waits = wait-By propagation p h in
    By-then propagation deadline p _ _ waits (
      run_phase-By admission deadline deadline o.stop_accepting_requests _
        (omega (arith, waits.timely, k)) (omega arith))

pub close_application-By :
    (a : Option (Action (Unit {0}))) (deadline : ℕ) (p : Process)
    → p.now ≤ deadline
    → By deadline p (close_application a deadline p)
unfolding close_application
close_application-By none deadline p h = record { timely = h; exits = refl; mark = refl }
close_application-By (some a) deadline p h =
    run_phase-By application deadline deadline a p h (omega arith)

telemetry_ended-Same :
    (r : ActionResult × Option TelemetryResult) (p : Process) → Same p (telemetry_ended r p)
unfolding telemetry_ended
telemetry_ended-Same (completed, none) p = (refl, refl, refl)
telemetry_ended-Same (completed, some telemetry_closed) p = (refl, refl, refl)
telemetry_ended-Same (completed, some not_initialized) p = (refl, refl, refl)
telemetry_ended-Same (completed, some telemetry_timed_out) p = (refl, refl, refl)
telemetry_ended-Same (timed_out, r) p = (refl, refl, refl)

pub close_telemetry-By :
    (o : Options) (deadline budget : ℕ) (p : Process)
    → p.now ≤ deadline
    → By deadline p (close_telemetry_phase o deadline budget p)
unfolding close_telemetry_phase
close_telemetry-By o deadline budget p h =
    let limit = min deadline (p.now + budget) in
    let ran = run_phase telemetry limit (o.close_telemetry (limit - p.now)) p in
    let phase =
      run_phase-By telemetry limit deadline (o.close_telemetry (limit - p.now)) p h (omega arith) in
    let (clock, codes, mark) = telemetry_ended-Same ran.0 ran.1 in
    record {
      timely = omega (arith, clock, phase.timely);
      exits = codes ∙ phase.exits;
      mark = mark ∙ phase.mark;
    }

pub read_budgets-Same : (c : Call (Option Budgets)) (p : Process) → Same p (read_budgets c p).1
unfolding read_budgets
read_budgets-Same (returns (some b)) p = (refl, refl, refl)
read_budgets-Same (returns none) p = (refl, refl, refl)
read_budgets-Same throws p = (refl, refl, refl)

pub read_application-Same :
    (c : Call (Option (Action (Unit {0})))) (p : Process) → Same p (read_application c p).1
unfolding read_application
read_application-Same (returns a) p = (refl, refl, refl)
read_application-Same throws p = (refl, refl, refl)

pub read_accepting-Same : (c : Call Bool) (p : Process) → Same p (read_accepting c p).1
unfolding read_accepting
read_accepting-Same (returns b) p = (refl, refl, refl)
read_accepting-Same throws p = (refl, refl, refl)
