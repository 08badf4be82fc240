-- ===== src/Infra/Schedule/Overlap.antt =====
-- At most one callback of an interval runs at a time.
use gnester_lite.Common.{
  ℕ, ◌+◌, ◌≤◌, ◌≡◌, refl, ◌∙◌, Bool, true, false, not, ◌&&◌, ◌||◌, ◌==◌, List, [], ◌∷◌, ◌++◌, any,
  count_where, arith, Bool-cases, inl, inr, Program, ◌>>=◌, ◌>>◌, read, write, when, Preorder,
  Follows, Follows-write, Follows-when, Follows-catch, ◌⨾◌, flow,
}
use gnester_lite.Infra.Schedule.{
  Kind, cron, interval, timeout, kind_eq, Registry, Callback, Scheduler, has, add_name, delete_name,
  same_callback, remove_callback, guarded, report_schedule_failure, start_timer_callback,
  tick_interval, fire_timeout, add_cron_job, start_cron_job, stop_cron_job, begin_cron_deletion,
  end_cron_deletion, reschedule_cron_job, add_interval, delete_interval, add_timeout,
  delete_timeout, settling, settle_callback, begin_cron_deletions, end_cron_deletions,
  delete_intervals, delete_timeouts, draining, on_application_shutdown,
}
use gnester_lite.Infra.Schedule.Runs.{
  Event, adds_cron, starts_cron, stops_cron, begins_deletion, ends_deletion, reschedules,
  adds_interval, deletes_interval, adds_timeout, deletes_timeout, ticks, fires, settles, shuts_down,
  exec, run,
}

abbrev pub is_run : ℕ → Callback → Bool
is_run n c = kind_eq c.kind interval && c.name == n

abbrev pub one_if : Bool → ℕ
one_if true = 1
one_if false = 0

-- As many callbacks of the interval run as its mark says, none or one.
abbrev pub Marked : {R : Type 0} → ℕ → Scheduler R → Type 0
Marked n s = count_where (is_run n) s.running_callbacks ≤ one_if (has n s.running_intervals)

any-++ : (p : ℕ → Bool) (ms ns : List ℕ) → any p (ms ++ ns) ≡ (any p ms || any p ns)
any-++ p [] ns = refl
any-++ p (m ∷ ms) ns = ground (arith, any-++ p ms ns)

pub has-add_name : (n m : ℕ) (ns : List ℕ) → has n (add_name m ns) ≡ (m == n || has n ns)
has-add_name n m ns = elim (Bool-cases (has m ns)) [
  | inl old ↦ rw old (known n m ns old)
  | inr new ↦ rw new (any-++ (λ k. k == n) ns (m ∷ []) ∙ ground arith)
]
  where
    known : (n m : ℕ) (ns : List ℕ) → has m ns ≡ true → has n ns ≡ (m == n || has n ns)
    known n m [] h = absurd (cc h)
    known n m (k ∷ ns) h = ground (arith, h, known n m ns)

pub has-delete_name :
    (n m : ℕ) (ns : List ℕ) → has n (delete_name m ns) ≡ (not (m == n) && has n ns)
has-delete_name n m [] = ground arith
has-delete_name n m (k ∷ ns) = ground (arith, has-delete_name n m ns)

count-remove_callback :
    (n : ℕ) (c : Callback) (cs : List Callback)
    → count_where (is_run n) (remove_callback c cs) ≤ count_where (is_run n) cs
count-remove_callback n c [] = omega arith
count-remove_callback n c (d ∷ cs) = ground (arith, count-remove_callback n c cs)

kind_eq-cong : (a b : Kind) → kind_eq a b ≡ true → a ≡ b
kind_eq-cong cron cron h = refl
kind_eq-cong interval interval h = refl
kind_eq-cong timeout timeout h = refl
kind_eq-cong cron interval h = ground arith
kind_eq-cong cron timeout h = ground arith
kind_eq-cong interval cron h = ground arith
kind_eq-cong interval timeout h = ground arith
kind_eq-cong timeout cron h = ground arith
kind_eq-cong timeout interval h = ground arith

same_run : (n : ℕ) (c d : Callback) → same_callback c d ≡ true → is_run n d ≡ is_run n c
same_run n c d h = ground (arith, kind_eq-cong c.kind d.kind, h)

count-removed :
    (n : ℕ) (c : Callback) (cs : List Callback)
    → is_run n c ≡ true
    → any (same_callback c) cs ≡ true
    → count_where (is_run n) (remove_callback c cs) + 1 ≤ count_where (is_run n) cs
count-removed n c [] h k = absurd (cc k)
count-removed n c (d ∷ cs) h k = ground (arith, same_run n c d, count-removed n c cs h, k, h)

module _ {R : Type 0} (n : ℕ) where
  -- A call after which the interval is marked if it was before.
  abbrev marks : Preorder (Scheduler R)
  marks = record {
    rel = λ s t. Marked n s → Marked n t;
    rel_refl = λ s h. h;
    rel_trans = λ s t v h k l. k (h l);
  }

  elsewhere :
      (f : Scheduler R → Scheduler R)
      → ((s : Scheduler R)
          → ((f s).running_callbacks ≡ s.running_callbacks)
            × ((f s).running_intervals ≡ s.running_intervals))
      → Follows marks (write f)
  elsewhere f e = Follows-write marks (λ s h. rw ((e s).0, (e s).1) h)

  guarded-marks :
      (b : Bool) (m : Program (Scheduler R) Bool) → Follows marks m → Follows marks (guarded b m)
  unfolding guarded
  guarded-marks true m h = h
  guarded-marks false m h = search flow

  tick_free :
      (m : ℕ) (s : Scheduler R)
      → has m s.running_intervals ≡ false
      → Marked n s
      → count_where (is_run n) (record { kind = interval; name = m } ∷ s.running_callbacks)
        ≤ one_if (has n (add_name m s.running_intervals))
  tick_free m s free h = rw (has-add_name n m s.running_intervals) (ground (arith, free, h))

  tick_interval-marks : (m : ℕ) → Follows marks (tick_interval {R = R} m)
  unfolding tick_interval start_timer_callback ◌>>=◌ read write when
  tick_interval-marks m = record {
    run = λ s. elim (Bool-cases (has m s.running_intervals)) [
      | inl busy ↦ rw (busy, when) (λ h. h)
      | inr free ↦ rw (free, when) (tick_free m s free)
    ];
  }

  fire_timeout-marks : (m : ℕ) → Follows marks (fire_timeout {R = R} m)
  unfolding fire_timeout start_timer_callback
  fire_timeout-marks m = Follows-write marks (λ s h. h)

  report-marks : Follows marks (report_schedule_failure {R = R})
  unfolding report_schedule_failure
  report-marks = elsewhere _ (λ s. (refl, refl))

  module _ (reg : Registry R) where
    add_cron_job-marks : (m : ℕ) (b : Bool) → Follows marks (add_cron_job reg m b)
    unfolding add_cron_job
    add_cron_job-marks m b = search flow ⨾ λ free. guarded-marks free _ (
        elsewhere _ (λ s. (refl, refl)) ⨾ λ _.
        Follows-when marks b (elsewhere _ (λ s. (refl, refl))) ⨾ λ _. search flow)

    start_cron_job-marks : (m : ℕ) → Follows marks (start_cron_job reg m)
    unfolding start_cron_job
    start_cron_job-marks m = search flow ⨾ λ there.
        guarded-marks there _ (elsewhere _ (λ s. (refl, refl)) ⨾ λ _. search flow)

    stop_cron_job-marks : (m : ℕ) → Follows marks (stop_cron_job reg m)
    unfolding stop_cron_job
    stop_cron_job-marks m = search flow ⨾ λ there.
        guarded-marks there _
          (elsewhere _ (λ s. (refl, refl)) ⨾ λ _. search flow ⨾ λ stopped. search flow)

    reschedule_cron_job-marks : (m t : ℕ) → Follows marks (reschedule_cron_job reg m t)
    unfolding reschedule_cron_job
    reschedule_cron_job-marks m t = search flow ⨾ λ there.
        guarded-marks there _ (elsewhere _ (λ s. (refl, refl)) ⨾ λ _. search flow)

    begin_cron_deletion-marks : (m : ℕ) → Follows marks (begin_cron_deletion reg m)
    unfolding begin_cron_deletion
    begin_cron_deletion-marks m = search flow ⨾ λ there.
        Follows-when marks _ (elsewhere _ (λ s. (refl, refl))) ⨾ λ _.
        guarded-marks there _ (elsewhere _ (λ s. (refl, refl)) ⨾ λ _. search flow)

    end_cron_deletion-marks : (m : ℕ) → Follows marks (end_cron_deletion reg m)
    unfolding end_cron_deletion
    end_cron_deletion-marks m = search flow ⨾ λ stopped. search flow ⨾ λ _.
        search flow ⨾ λ there. search flow ⨾ λ _. elsewhere _ (λ s. (refl, refl)) ⨾ λ _. search flow

    add_interval-marks : (m : ℕ) → Follows marks (add_interval reg m)
    unfolding add_interval
    add_interval-marks m = search flow ⨾ λ free.
        guarded-marks free _ (elsewhere _ (λ s. (refl, refl)) ⨾ λ _. search flow)

    add_timeout-marks : (m : ℕ) → Follows marks (add_timeout reg m)
    unfolding add_timeout
    add_timeout-marks m = search flow ⨾ λ free.
        guarded-marks free _ (elsewhere _ (λ s. (refl, refl)) ⨾ λ _. search flow)

    delete_interval-marks : (m : ℕ) → Follows marks (delete_interval reg m)
    unfolding delete_interval
    delete_interval-marks m = search flow ⨾ λ there.
        Follows-when marks there (elsewhere _ (λ s. (refl, refl))) ⨾ λ _.
        elsewhere _ (λ s. (refl, refl)) ⨾ λ _. search flow

    delete_timeout-marks : (m : ℕ) → Follows marks (delete_timeout reg m)
    unfolding delete_timeout
    delete_timeout-marks m = search flow ⨾ λ there.
        Follows-when marks there (elsewhere _ (λ s. (refl, refl))) ⨾ λ _.
        elsewhere _ (λ s. (refl, refl)) ⨾ λ _. search flow

    begin_cron_deletions-marks : (ms : List ℕ) → Follows marks (begin_cron_deletions reg ms)
    unfolding begin_cron_deletions
    begin_cron_deletions-marks [] = search flow
    begin_cron_deletions-marks (m ∷ ms) =
        begin_cron_deletion-marks m ⨾ λ pending. begin_cron_deletions-marks ms ⨾ λ rest. search flow

    end_cron_deletions-marks : (ms : List ℕ) → Follows marks (end_cron_deletions reg ms)
    unfolding end_cron_deletions
    end_cron_deletions-marks [] = search flow
    end_cron_deletions-marks (m ∷ ms) =
        Follows-catch marks (end_cron_deletion-marks m) (λ e. report-marks ⨾ λ _. search flow)
        ⨾ λ _. end_cron_deletions-marks ms

    delete_intervals-marks : (ms : List ℕ) → Follows marks (delete_intervals reg ms)
    unfolding delete_intervals
    delete_intervals-marks [] = search flow
    delete_intervals-marks (m ∷ ms) = delete_interval-marks m ⨾ λ _. delete_intervals-marks ms

    delete_timeouts-marks : (ms : List ℕ) → Follows marks (delete_timeouts reg ms)
    unfolding delete_timeouts
    delete_timeouts-marks [] = search flow
    delete_timeouts-marks (m ∷ ms) = delete_timeout-marks m ⨾ λ _. delete_timeouts-marks ms

    on_application_shutdown-marks : Follows marks (on_application_shutdown reg)
    unfolding on_application_shutdown draining
    on_application_shutdown-marks = elsewhere _ (λ s. (refl, refl)) ⨾ λ _. search flow ⨾ λ crons.
        begin_cron_deletions-marks crons ⨾ λ pending. search flow ⨾ λ intervals.
        delete_intervals-marks intervals ⨾ λ _. search flow ⨾ λ timeouts.
        delete_timeouts-marks timeouts ⨾ λ _. end_cron_deletions-marks pending

    interval_ended :
        (c : Callback) (cs : List Callback) (ns : List ℕ)
        → c.kind ≡ interval
        → any (same_callback c) cs ≡ true
        → count_where (is_run n) cs ≤ one_if (has n ns)
        → count_where (is_run n) (remove_callback c cs) ≤ one_if (has n (delete_name c.name ns))
    interval_ended c cs ns e there h =
        rw (has-delete_name n c.name ns)
          (ground (arith, e, there, h, count-removed n c cs, count-remove_callback n c cs))

    settling-marks :
        (c : Callback) (k : Kind) (s : Scheduler R)
        → c.kind ≡ k
        → any (same_callback c) s.running_callbacks ≡ true
        → Marked n s
        → count_where (is_run n) (remove_callback c (settling reg k c.name s).running_callbacks)
          ≤ one_if (has n (settling reg k c.name s).running_intervals)
    unfolding settling
    settling-marks c cron s e there h =
        omega (arith, h, count-remove_callback n c s.running_callbacks)
    settling-marks c timeout s e there h =
        omega (arith, h, count-remove_callback n c s.running_callbacks)
    settling-marks c interval s e there h =
        interval_ended c s.running_callbacks s.running_intervals e there h

    settle_callback-marks :
        (c : Callback) (fails : Bool) → Follows marks (settle_callback reg c fails)
    unfolding settle_callback report_schedule_failure ◌>>=◌ read write when
    settle_callback-marks c fails = record {
      run = λ s. elim (Bool-cases (any (same_callback c) s.running_callbacks)) [
        | inr gone ↦ rw (gone, when) (λ h. h)
        | inl there ↦ rw (there, when) (ending c fails s there)
      ];
    }
      where
        ending :
            (c : Callback) (fails : Bool) (s : Scheduler R)
            → any (same_callback c) s.running_callbacks ≡ true
            → Marked n s
            → Marked n
                ((when fails report_schedule_failure
                    >> write λ s.
                      let t = settling reg c.kind c.name s in
                      record t { running_callbacks = remove_callback c t.running_callbacks })
                  s).1
        ending c true s there h =
            settling-marks c c.kind (record s { failures = s.failures + 1 }) refl there h
        ending c false s there h = settling-marks c c.kind s refl there h

    exec-marks : (e : Event) (s : Scheduler R) → Marked n s → Marked n (exec reg e s)
    unfolding exec
    exec-marks (adds_cron m b) s h = (add_cron_job-marks m b).run s h
    exec-marks (starts_cron m) s h = (start_cron_job-marks m).run s h
    exec-marks (stops_cron m) s h = (stop_cron_job-marks m).run s h
    exec-marks (begins_deletion m) s h = (begin_cron_deletion-marks m).run s h
    exec-marks (ends_deletion m) s h = (end_cron_deletion-marks m).run s h
    exec-marks (reschedules m t) s h = (reschedule_cron_job-marks m t).run s h
    exec-marks (adds_interval m) s h = (add_interval-marks m).run s h
    exec-marks (deletes_interval m) s h = (delete_interval-marks m).run s h
    exec-marks (adds_timeout m) s h = (add_timeout-marks m).run s h
    exec-marks (deletes_timeout m) s h = (delete_timeout-marks m).run s h
    exec-marks (ticks m) s h = (tick_interval-marks m).run s h
    exec-marks (fires m) s h = (fire_timeout-marks m).run s h
    exec-marks (settles c b) s h = (settle_callback-marks c b).run s h
    exec-marks shuts_down s h = on_application_shutdown-marks.run s h

    run-marks : (es : List Event) (s : Scheduler R) → Marked n s → Marked n (run reg es s)
    unfolding run
    run-marks [] s h = h
    run-marks (e ∷ es) s h = run-marks es (exec reg e s) (exec-marks e s h)

-- In any run of the scheduler that starts without callbacks, at most one callback of an interval
-- runs at a time, whatever is deleted and added again under its name.
pub run-single :
    {R : Type 0} (reg : Registry R) (n : ℕ) (es : List Event) (s : Scheduler R)
    → s.running_callbacks ≡ []
    → count_where (is_run n) (run reg es s).running_callbacks ≤ 1
run-single reg n es s h = one_if-le _ (run-marks n reg es s (rw h (omega arith)))
  where
    one_if-le : {m : ℕ} (b : Bool) → m ≤ one_if b → m ≤ 1
    one_if-le b k = ground (arith, k)
