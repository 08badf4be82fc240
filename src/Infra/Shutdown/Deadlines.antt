-- ===== src/Infra/Shutdown/Deadlines.antt =====
-- The end of a shutdown, among further triggers: its one exit, within its time.
use Prim.Native.Nat.{zero, suc}
use gnester_lite.Common.{
  leb, sym, ℕ, ◌+◌, ◌≤◌, ◌≡◌, refl, ap, ◌∙◌, Bool, true, false, arith, if◌then◌else◌, List, [], ◌∷◌,
}
use gnester_lite.Infra.Shutdown.{
  Budgets, Call, returns, throws, admission, telemetry, application, Options, Process, read_budgets,
  read_application, read_accepting, exit, Closing, begin_closing, advance, Machine, started_closing,
  shutdown_application, resume, resume_first, propagation_of, application_deadline_of,
  telemetry_deadline_of,
}
use gnester_lite.Infra.Shutdown.Phases.{
  close_admission-By, close_application-By, close_telemetry-By, read_budgets-Same,
  read_application-Same, read_accepting-Same, drain_if-Same,
}

-- What happens: a trigger with its exit code, or the next phase of a call that waits. A trigger during
-- a phase reads and writes no more than one before the phase, the mark and the calls that wait.
pub data Event : Type 0 where
  triggers : ℕ → Event
  resumes : Event

abbrev pub exec : Options → Event → Machine → Machine
exec o (triggers code) m = shutdown_application o code m
exec o resumes m = resume o m

abbrev pub run : Options → List Event → Machine → Machine
run o [] m = m
run o (e ∷ es) m = run o es (exec o e m)

abbrev pub resumptions : List Event → ℕ
resumptions [] = 0
resumptions (triggers code ∷ es) = resumptions es
resumptions (resumes ∷ es) = suc (resumptions es)

-- The call `c` after some of its phases, of a process that had made the exits `codes`.
abbrev After : Closing → List ℕ → ℕ → Machine → Type 0
After c codes zero m =
    (m.pending ≡ record c { next = admission } ∷ [])
    × (m.process.exits ≡ codes)
    × (m.process.now ≤ c.started_at)
After c codes (suc zero) m =
    (m.pending ≡ record c { next = application } ∷ [])
    × (m.process.exits ≡ codes)
    × (m.process.now ≤ application_deadline_of c)
After c codes (suc (suc zero)) m =
    (m.pending ≡ record c { next = telemetry } ∷ [])
    × (m.process.exits ≡ codes)
    × (m.process.now ≤ application_deadline_of c)
After c codes (suc (suc (suc n))) m =
    (m.pending ≡ [])
    × (m.process.exits ≡ c.exit_code ∷ codes)
    × (m.process.now ≤ telemetry_deadline_of c)

-- The mark stays.
record Held (c : Closing) (codes : List ℕ) (n : ℕ) (m : Machine) : Type 0 where
  stage : After c codes n m
  mark : m.process.has_shutdown ≡ true

if_true : {A : Type 0} (b : Bool) (x y : A) → b ≡ true → (if b then x else y) ≡ x
if_true b x y h = rw h refl

if_false : {A : Type 0} (b : Bool) (x y : A) → b ≡ false → (if b then x else y) ≡ y
if_false b x y h = rw h refl

resume_first-on :
    (o : Options) (m : Machine) (cs : List Closing)
    → m.pending ≡ cs
    → resume o m ≡ resume_first o cs m
unfolding resume
resume_first-on o m cs h = ap (λ ps. resume_first o ps m) h

resume-Held :
    (o : Options) (c : Closing) (codes : List ℕ) (n : ℕ) (m : Machine)
    → Held c codes n m
    → Held c codes (suc n) (resume o m)
unfolding advance exit
resume-Held o c codes zero m h =
    let (waits, told, clock) = h.stage in
    let by =
      close_admission-By o c.accepting (propagation_of c) (application_deadline_of c) m.process
        (omega (arith, clock)) (omega arith) in
    rw (resume_first-on o m _ waits)
      (record { stage = (refl, by.exits ∙ told, by.timely); mark = by.mark ∙ h.mark })
resume-Held o c codes (suc zero) m h =
    let (waits, told, clock) = h.stage in
    let by = close_application-By c.app (application_deadline_of c) m.process clock in
    rw (resume_first-on o m _ waits)
      (record { stage = (refl, by.exits ∙ told, by.timely); mark = by.mark ∙ h.mark })
resume-Held o c codes (suc (suc zero)) m h =
    let (waits, told, clock) = h.stage in
    let by =
      close_telemetry-By o (telemetry_deadline_of c) c.budgets.telemetry_close_timeout_ms m.process
        (omega (arith, clock)) in
    rw (resume_first-on o m _ waits) (record {
      stage = (refl, ap (λ (x : List ℕ). c.exit_code ∷ x) (by.exits ∙ told), by.timely);
      mark = by.mark ∙ h.mark;
    })
resume-Held o c codes (suc (suc (suc n))) m h =
    let (waits, told, clock) = h.stage in
    rw (resume_first-on o m _ waits) (record { stage = h.stage; mark = h.mark })

n_plus_zero : (n : ℕ) → n + 0 ≡ n
n_plus_zero n = omega arith

zero_plus : (n : ℕ) → 0 + n ≡ n
zero_plus n = omega arith

plus_suc : (n m : ℕ) → n + suc m ≡ suc n + m
plus_suc n m = omega arith

run-Held :
    (o : Options) (c : Closing) (codes : List ℕ) (es : List Event) (n : ℕ) (m : Machine)
    → Held c codes n m
    → Held c codes (n + resumptions es) (run o es m)
unfolding shutdown_application
run-Held o c codes [] n m h = rw (n_plus_zero n) h
run-Held o c codes (triggers code ∷ es) n m h =
    run-Held o c codes es n (exec o (triggers code) m)
      (rw (if_true m.process.has_shutdown m _ h.mark) h)
run-Held o c codes (resumes ∷ es) n m h =
    rw (plus_suc n (resumptions es))
      (run-Held o c codes es (suc n) (resume o m) (resume-Held o c codes n m h))

begun-Held :
    (o : Options) (code : ℕ) (p : Process)
    → Held (begin_closing o code p).0 p.exits 0 (started_closing (begin_closing o code p) [])
unfolding begin_closing
begun-Held o code p =
    let p₁ = (read_budgets o.get_budgets p).1 in
    let (app, p₂) = read_application o.get_application p₁ in
    let (accepting, p₃) = read_accepting o.is_accepting_requests p₂ in
    let (clock₁, codes₁, mark₁) = read_budgets-Same o.get_budgets p in
    let (clock₂, codes₂, mark₂) = read_application-Same o.get_application p₁ in
    let (clock₃, codes₃, mark₃) = read_accepting-Same o.is_accepting_requests p₂ in
    let (clock₄, codes₄, mark₄) = drain_if-Same accepting o.begin_drain p₃ in
    record {
      stage =
          (refl, codes₄ ∙ codes₃ ∙ codes₂ ∙ codes₁, omega (arith, clock₁, clock₂, clock₃, clock₄));
      mark = refl;
    }

-- The options as they were read at the start, and the time that they allow.
abbrev pub budgets_of : Options → Process → Budgets
budgets_of o p = (read_budgets o.get_budgets p).0

abbrev pub accepting_of : Options → Process → Bool
accepting_of o p = (read_accepting o.is_accepting_requests p).0

abbrev pub allowed : Budgets → Bool → ℕ
allowed b accepting =
    (if accepting then b.readiness_propagation_delay_ms else 0)
    + b.application_close_timeout_ms
    + b.telemetry_close_timeout_ms

-- Whether the listener accepts is read after the other options, whose reports it does not see.
accepting_lem : (c : Call Bool) (p q : Process) → (read_accepting c p).0 ≡ (read_accepting c q).0
unfolding read_accepting
accepting_lem (returns b) p q = refl
accepting_lem throws p q = refl

-- After some phases of the shutdown: the exit follows the third, and the budgets bound the clock.
pub record Exited (o : Options) (code : ℕ) (p : Process) (phases : ℕ) (q : Process) : Type 0 where
  pub timely : q.now ≤ p.now + allowed (budgets_of o p) (accepting_of o p)
  pub exits : q.exits ≡ (if leb 3 phases then code ∷ p.exits else p.exits)

After-clock :
    (c : Closing) (codes : List ℕ) (n : ℕ) (m : Machine)
    → After c codes n m
    → m.process.now ≤ telemetry_deadline_of c
After-clock c codes zero m (waits, told, clock) = omega (arith, clock)
After-clock c codes (suc zero) m (waits, told, clock) = omega (arith, clock)
After-clock c codes (suc (suc zero)) m (waits, told, clock) = omega (arith, clock)
After-clock c codes (suc (suc (suc n))) m (waits, told, clock) = clock

After-exits :
    (c : Closing) (codes : List ℕ) (n : ℕ) (m : Machine)
    → After c codes n m
    → m.process.exits ≡ (if leb 3 n then c.exit_code ∷ codes else codes)
After-exits c codes zero m (waits, told, clock) = told
After-exits c codes (suc zero) m (waits, told, clock) = told
After-exits c codes (suc (suc zero)) m (waits, told, clock) = told
After-exits c codes (suc (suc (suc n))) m (waits, told, clock) =
    told ∙ sym (if_true (leb 3 (suc (suc (suc n)))) (c.exit_code ∷ codes) codes (ground arith))

begun-deadline :
    (o : Options) (code : ℕ) (p : Process)
    → telemetry_deadline_of (begin_closing o code p).0
      ≡ p.now + allowed (budgets_of o p) (accepting_of o p)
unfolding begin_closing
begun-deadline o code p =
    rw
      (accepting_lem o.is_accepting_requests p
        (read_application o.get_application (read_budgets o.get_budgets p).1).1)
      (omega arith)

begun-exit_code :
    (o : Options) (code : ℕ) (p : Process) → (begin_closing o code p).0.exit_code ≡ code
unfolding begin_closing
begun-exit_code o code p = refl

-- However triggers arrive, before a phase, between two or after the last, the process is told to exit
-- once, with the code of the first trigger, when the third phase has ended, and not before. The clock
-- stays within the budgets: for the propagation, where requests are accepted, for the application and
-- for the telemetry, whatever the hooks and actions do, throw or hang.
pub run-Exited :
    (o : Options) (code : ℕ) (es : List Event) (p : Process)
    → p.has_shutdown ≡ false
    → Exited o code p
        (resumptions es)
        (run o (triggers code ∷ es) (record { process = p; pending = [] })).process
unfolding shutdown_application
run-Exited o code es p h =
    let c = (begin_closing o code p).0 in
    let m = started_closing (begin_closing o code p) [] in
    let held : Held c p.exits (resumptions es)
        (run o es (shutdown_application o code (record { process = p; pending = [] }))) =
      rw⁻¹ (zero_plus (resumptions es)) (
        run-Held o c p.exits es 0 (exec o (triggers code) (record { process = p; pending = [] })) (
          rw (if_false p.has_shutdown (record { process = p; pending = [] }) m h)
            (begun-Held o code p))) in
    record {
      timely = rw⁻¹ (begun-deadline o code p) (After-clock c p.exits (resumptions es) _ held.stage);
      exits =
          After-exits c p.exits (resumptions es) _ held.stage
          ∙ ap (λ (x : ℕ). if leb 3 (resumptions es) then x ∷ p.exits else p.exits)
              (begun-exit_code o code p);
    }
