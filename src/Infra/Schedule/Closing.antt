-- ===== src/Infra/Schedule/Closing.antt =====
-- Nothing is added once the shutdown began.
use gnester_lite.Common.{
  ℕ, ◌≡◌, refl, ◌∙◌, Bool, true, false, List, [], ◌∷◌, arith, Bool-cases, inl, inr, Program, ◌>>=◌,
  return, read, write, Preorder, Follows, Follows-write, Follows-when, Follows-catch, ◌⨾◌, flow,
}
use gnester_lite.Infra.Schedule.{
  Kind, cron, interval, timeout, Registry, Callback, Scheduler, has, delete_name, remove_callback,
  guarded, report_schedule_failure, start_timer_callback, tick_interval, fire_timeout, add_cron_job,
  start_cron_job, stop_cron_job, begin_cron_deletion, end_cron_deletion, reschedule_cron_job,
  add_interval, delete_interval, add_timeout, delete_timeout, settling, settle_callback,
  begin_cron_deletions, end_cron_deletions, delete_intervals, delete_timeouts, draining,
  on_application_shutdown,
}
use gnester_lite.Infra.Schedule.Runs.{
  Event, adds_cron, starts_cron, stops_cron, begins_deletion, ends_deletion, reschedules,
  adds_interval, deletes_interval, adds_timeout, deletes_timeout, ticks, fires, settles, shuts_down,
  exec, run,
}
use gnester_lite.Infra.Schedule.Overlap.{has-delete_name}

-- The names of a kind that the service manages.
abbrev pub managed : {R : Type 0} → Kind → Scheduler R → List ℕ
managed cron s = s.managed_cron_jobs
managed interval s = s.managed_intervals
managed timeout s = s.managed_timeouts

module _ {R : Type 0} (reg : Registry R) where
  -- The job is neither managed nor in the registry.
  pub record Gone (k : Kind) (n : ℕ) (s : Scheduler R) : Type 0 where
    pub unmanaged : has n (managed k s) ≡ false
    pub missing : reg.exists k n s.registry ≡ false

  -- After the shutdown began: it goes on, no name becomes managed, and no job appears.
  pub record Closed (s t : Scheduler R) : Type 0 where
    pub down : t.is_shutting_down ≡ true
    pub unmanaged : (k : Kind) (n : ℕ) → has n (managed k s) ≡ false → has n (managed k t) ≡ false
    pub missing :
        (k : Kind) (n : ℕ) → reg.exists k n s.registry ≡ false → reg.exists k n t.registry ≡ false

  abbrev pub closing : Preorder (Scheduler R)
  closing = record {
    rel = λ s t. s.is_shutting_down ≡ true → Closed s t;
    rel_refl = λ s h. record { down = h; unmanaged = λ k n e. e; missing = λ k n e. e };
    rel_trans = λ s t v h k d.
        let a = h d in
        let b = k a.down in
        record {
          down = b.down;
          unmanaged = λ l n e. b.unmanaged l n (a.unmanaged l n e);
          missing = λ l n e. b.missing l n (a.missing l n e);
        };
  }

  -- A change of the registry in which no job appears.
  registry-closing :
      (f : Scheduler R → R)
      → ((s : Scheduler R) (k : Kind) (n : ℕ)
          → reg.exists k n s.registry ≡ false
          → reg.exists k n (f s) ≡ false)
      → Follows closing (write λ s. record s { registry = f s })
  registry-closing f h =
      Follows-write closing {f = λ s. record s { registry = f s }}
        λ s d. record { down = d; unmanaged = λ k n e. kept k s n e; missing = h s }
    where
      kept :
          (k : Kind) (s : Scheduler R) (n : ℕ)
          → has n (managed k s) ≡ false
          → has n (managed k (record s { registry = f s })) ≡ false
      kept cron s n e = e
      kept interval s n e = e
      kept timeout s n e = e

  -- A deletion of a managed name, or of none.
  abbrev pub unmanaging : Kind → ℕ → Scheduler R → Scheduler R
  unmanaging cron m s = record s { managed_cron_jobs = delete_name m s.managed_cron_jobs }
  unmanaging interval m s = record s { managed_intervals = delete_name m s.managed_intervals }
  unmanaging timeout m s = record s { managed_timeouts = delete_name m s.managed_timeouts }

  has-deleted : (n m : ℕ) (ns : List ℕ) → has n ns ≡ false → has n (delete_name m ns) ≡ false
  has-deleted n m ns e = rw (has-delete_name n m ns) (ground (arith, e))

  unmanaging_lem :
      (l k : Kind) (n m : ℕ) (s : Scheduler R)
      → has n (managed k s) ≡ false
      → has n (managed k (unmanaging l m s)) ≡ false
  unmanaging_lem cron cron n m s e = has-deleted n m s.managed_cron_jobs e
  unmanaging_lem interval interval n m s e = has-deleted n m s.managed_intervals e
  unmanaging_lem timeout timeout n m s e = has-deleted n m s.managed_timeouts e
  unmanaging_lem cron interval n m s e = e
  unmanaging_lem cron timeout n m s e = e
  unmanaging_lem interval cron n m s e = e
  unmanaging_lem interval timeout n m s e = e
  unmanaging_lem timeout cron n m s e = e
  unmanaging_lem timeout interval n m s e = e

  unmanaging-Closed :
      (l : Kind) (m : ℕ) (s : Scheduler R) → s.is_shutting_down ≡ true → Closed s (unmanaging l m s)
  unmanaging-Closed cron m s d = record {
    down = d;
    unmanaged = λ k n e. unmanaging_lem cron k n m s e;
    missing = λ k n e. e;
  }
  unmanaging-Closed interval m s d = record {
    down = d;
    unmanaged = λ k n e. unmanaging_lem interval k n m s e;
    missing = λ k n e. e;
  }
  unmanaging-Closed timeout m s d = record {
    down = d;
    unmanaged = λ k n e. unmanaging_lem timeout k n m s e;
    missing = λ k n e. e;
  }

  unmanaging-closing : (l : Kind) (m : ℕ) → Follows closing (write (unmanaging l m))
  unmanaging-closing l m = Follows-write closing {f = unmanaging l m} (unmanaging-Closed l m)

  remove_missing :
      (l k : Kind) (n m : ℕ) (r : R)
      → reg.exists k n r ≡ false
      → reg.exists k n (reg.remove l m r) ≡ false
  remove_missing l k n m r e = rw (reg.exists_remove k l n m r) (ground (arith, e))

  start-closing :
      (m : ℕ) → Follows closing (write λ s. record s { registry = reg.start m s.registry })
  start-closing m = registry-closing _ (λ s k n e. reg.exists_start k n m s.registry ∙ e)

  stop-closing :
      (m : ℕ) → Follows closing (write λ s. record s { registry = reg.stop m s.registry })
  stop-closing m = registry-closing _ (λ s k n e. reg.exists_stop k n m s.registry ∙ e)

  set_time-closing :
      (m t : ℕ) → Follows closing (write λ s. record s { registry = reg.set_time m t s.registry })
  set_time-closing m t = registry-closing _ (λ s k n e. reg.exists_set_time k n m t s.registry ∙ e)

  remove-closing :
      (l : Kind) (m : ℕ)
      → Follows closing (write λ s. record s { registry = reg.remove l m s.registry })
  remove-closing l m = registry-closing _ (λ s k n e. remove_missing l k n m s.registry e)

  guarded-closing :
      (b : Bool) (m : Program (Scheduler R) Bool)
      → Follows closing m
      → Follows closing (guarded b m)
  unfolding guarded
  guarded-closing true m h = h
  guarded-closing false m h = search flow

  -- A call that leaves the names and the registry alone.
  elsewhere-Closed :
      (f : Scheduler R → Scheduler R)
      → ((s : Scheduler R) (k : Kind) → managed k (f s) ≡ managed k s)
      → ((s : Scheduler R) → (f s).registry ≡ s.registry)
      → ((s : Scheduler R) → (f s).is_shutting_down ≡ s.is_shutting_down)
      → Follows closing (write f)
  elsewhere-Closed f names jobs flag = Follows-write closing {f = f} λ s d. record {
    down = flag s ∙ d;
    unmanaged = λ k n e. rw (names s k) e;
    missing = λ k n e. rw (jobs s) e;
  }

  same_managed :
      (k : Kind) (s t : Scheduler R)
      → t.managed_cron_jobs ≡ s.managed_cron_jobs
      → t.managed_intervals ≡ s.managed_intervals
      → t.managed_timeouts ≡ s.managed_timeouts
      → managed k t ≡ managed k s
  same_managed cron s t a b c = a
  same_managed interval s t a b c = b
  same_managed timeout s t a b c = c

  report-closing : Follows closing (report_schedule_failure {R = R})
  unfolding report_schedule_failure
  report-closing =
      elsewhere-Closed _ (λ s k. same_managed k s _ refl refl refl) (λ s. refl) (λ s. refl)

  start_timer_callback-closing :
      (k : Kind) (m : ℕ) → Follows closing (start_timer_callback {R = R} k m)
  unfolding start_timer_callback
  start_timer_callback-closing l m =
      elsewhere-Closed _ (λ s k. same_managed k s _ refl refl refl) (λ s. refl) (λ s. refl)

  tick_interval-closing : (m : ℕ) → Follows closing (tick_interval {R = R} m)
  unfolding tick_interval
  tick_interval-closing m = search flow ⨾ λ busy. Follows-when closing _ (
      elsewhere-Closed _ (λ s k. same_managed k s _ refl refl refl) (λ s. refl) (λ s. refl) ⨾ λ _.
      start_timer_callback-closing interval m)

  fire_timeout-closing : (m : ℕ) → Follows closing (fire_timeout {R = R} m)
  unfolding fire_timeout
  fire_timeout-closing m = start_timer_callback-closing timeout m

  -- Nothing is added once the shutdown began.
  unchanged-closing :
      {A : Type 0} (m : Program (Scheduler R) A)
      → ((s : Scheduler R) → s.is_shutting_down ≡ true → (m s).1 ≡ s)
      → Follows closing m
  unchanged-closing m h = record { run = λ s d. rw (h s d) (closing.rel_refl s d) }

  add_cron_job-closing : (m : ℕ) (b : Bool) → Follows closing (add_cron_job reg m b)
  unfolding add_cron_job guarded ◌>>=◌ read return
  add_cron_job-closing m b = unchanged-closing _ (λ s d. rw (d, guarded) refl)

  add_interval-closing : (m : ℕ) → Follows closing (add_interval reg m)
  unfolding add_interval guarded ◌>>=◌ read return
  add_interval-closing m = unchanged-closing _ (λ s d. rw (d, guarded) refl)

  add_timeout-closing : (m : ℕ) → Follows closing (add_timeout reg m)
  unfolding add_timeout guarded ◌>>=◌ read return
  add_timeout-closing m = unchanged-closing _ (λ s d. rw (d, guarded) refl)

  start_cron_job-closing : (m : ℕ) → Follows closing (start_cron_job reg m)
  unfolding start_cron_job
  start_cron_job-closing m =
      search flow ⨾ λ there. guarded-closing there _ (start-closing m ⨾ λ _. search flow)

  stop_cron_job-closing : (m : ℕ) → Follows closing (stop_cron_job reg m)
  unfolding stop_cron_job
  stop_cron_job-closing m = search flow ⨾ λ there.
      guarded-closing there _ (stop-closing m ⨾ λ _. search flow ⨾ λ stopped. search flow)

  reschedule_cron_job-closing : (m t : ℕ) → Follows closing (reschedule_cron_job reg m t)
  unfolding reschedule_cron_job
  reschedule_cron_job-closing m t =
      search flow ⨾ λ there. guarded-closing there _ (set_time-closing m t ⨾ λ _. search flow)

  begin_cron_deletion-closing : (m : ℕ) → Follows closing (begin_cron_deletion reg m)
  unfolding begin_cron_deletion
  begin_cron_deletion-closing m = search flow ⨾ λ there.
      Follows-when closing _ (unmanaging-closing cron m) ⨾ λ _.
      guarded-closing there _ (stop-closing m ⨾ λ _. search flow)

  both-closing :
      (m : ℕ)
      → Follows closing (
          write λ s. record s {
            registry = reg.remove cron m s.registry;
            managed_cron_jobs = delete_name m s.managed_cron_jobs;
          })
  unfolding write
  both-closing m = record {
    run = λ s. closing.rel_trans s (unmanaging cron m s) _ (unmanaging-Closed cron m s) (through s);
  }
    where
      through :
          (s : Scheduler R)
          → closing.rel (unmanaging cron m s) (record s {
            registry = reg.remove cron m s.registry;
            managed_cron_jobs = delete_name m s.managed_cron_jobs;
          })
      through s = (remove-closing cron m).run (unmanaging cron m s)

  end_cron_deletion-closing : (m : ℕ) → Follows closing (end_cron_deletion reg m)
  unfolding end_cron_deletion
  end_cron_deletion-closing m = search flow ⨾ λ stopped.
      search flow ⨾ λ _. search flow ⨾ λ there. search flow ⨾ λ _. both-closing m ⨾ λ _. search flow

  delete_interval-closing : (m : ℕ) → Follows closing (delete_interval reg m)
  unfolding delete_interval
  delete_interval-closing m = search flow ⨾ λ there.
      Follows-when closing there (remove-closing interval m) ⨾ λ _.
      unmanaging-closing interval m ⨾ λ _. search flow

  delete_timeout-closing : (m : ℕ) → Follows closing (delete_timeout reg m)
  unfolding delete_timeout
  delete_timeout-closing m = search flow ⨾ λ there.
      Follows-when closing there (remove-closing timeout m) ⨾ λ _.
      unmanaging-closing timeout m ⨾ λ _. search flow

  pub begin_cron_deletions-closing : (ms : List ℕ) → Follows closing (begin_cron_deletions reg ms)
  unfolding begin_cron_deletions
  begin_cron_deletions-closing [] = search flow
  begin_cron_deletions-closing (m ∷ ms) = begin_cron_deletion-closing m ⨾ λ pending.
      begin_cron_deletions-closing ms ⨾ λ rest. search flow

  pub end_cron_deletions-closing : (ms : List ℕ) → Follows closing (end_cron_deletions reg ms)
  unfolding end_cron_deletions
  end_cron_deletions-closing [] = search flow
  end_cron_deletions-closing (m ∷ ms) =
      Follows-catch closing (end_cron_deletion-closing m) (λ e. report-closing ⨾ λ _. search flow)
      ⨾ λ _. end_cron_deletions-closing ms

  pub delete_intervals-closing : (ms : List ℕ) → Follows closing (delete_intervals reg ms)
  unfolding delete_intervals
  delete_intervals-closing [] = search flow
  delete_intervals-closing (m ∷ ms) = delete_interval-closing m ⨾ λ _. delete_intervals-closing ms

  pub delete_timeouts-closing : (ms : List ℕ) → Follows closing (delete_timeouts reg ms)
  unfolding delete_timeouts
  delete_timeouts-closing [] = search flow
  delete_timeouts-closing (m ∷ ms) = delete_timeout-closing m ⨾ λ _. delete_timeouts-closing ms

  -- The rest of the shutdown, after its mark.
  pub draining-closing : Follows closing (draining reg)
  unfolding draining
  draining-closing = search flow ⨾ λ crons. begin_cron_deletions-closing crons ⨾ λ pending.
      search flow ⨾ λ intervals. delete_intervals-closing intervals ⨾ λ _. search flow ⨾ λ timeouts.
      delete_timeouts-closing timeouts ⨾ λ _. end_cron_deletions-closing pending

  on_application_shutdown-closing : Follows closing (on_application_shutdown reg)
  unfolding on_application_shutdown
  on_application_shutdown-closing =
      Follows-write closing {f = λ s. record s { is_shutting_down = true }} (λ s d. record {
        down = refl;
        unmanaged =
            λ k n e. rw (same_managed k s (record s { is_shutting_down = true }) refl refl refl) e;
        missing = λ k n e. e;
      })
      ⨾ λ _. draining-closing

  settling-Closed :
      (k : Kind) (m : ℕ) (s : Scheduler R)
      → s.is_shutting_down ≡ true
      → Closed s (settling reg k m s)
  unfolding settling write
  settling-Closed cron m s d = closing.rel_refl s d
  settling-Closed interval m s d = record {
    down = d;
    unmanaged = λ k n e.
        rw
          (same_managed k s (record s { running_intervals = delete_name m s.running_intervals })
            refl refl refl)
          e;
    missing = λ k n e. e;
  }
  settling-Closed timeout m s d = elim (Bool-cases (reg.exists timeout m s.registry)) [
    | inl there ↦ rw there (
        closing.rel_trans s (unmanaging timeout m s) _ (unmanaging-Closed timeout m s)
          (λ e. (remove-closing timeout m).run (unmanaging timeout m s) e) d)
    | inr gone ↦ rw gone (unmanaging-Closed timeout m s d)
  ]

  ending-closing :
      (c : Callback)
      → Follows closing (
          write λ s.
            let t = settling reg c.kind c.name s in
            record t { running_callbacks = remove_callback c t.running_callbacks })
  unfolding write
  ending-closing c = record {
    run = λ s.
        closing.rel_trans s (settling reg c.kind c.name s) _ (settling-Closed c.kind c.name s) (λ d.
          record {
            down = d;
            unmanaged = λ k n e.
                rw
                  (same_managed k (settling reg c.kind c.name s)
                    (record (settling reg c.kind c.name s) {
                      running_callbacks =
                          remove_callback c (settling reg c.kind c.name s).running_callbacks;
                    })
                    refl refl refl)
                  e;
            missing = λ k n e. e;
          });
  }

  settle_callback-closing :
      (c : Callback) (fails : Bool) → Follows closing (settle_callback reg c fails)
  unfolding settle_callback
  settle_callback-closing c fails = search flow ⨾ λ started.
      Follows-when closing started
        (Follows-when closing fails report-closing ⨾ λ _. ending-closing c)

  exec-closing : (e : Event) (s : Scheduler R) → closing.rel s (exec reg e s)
  unfolding exec
  exec-closing (adds_cron m b) s = (add_cron_job-closing m b).run s
  exec-closing (starts_cron m) s = (start_cron_job-closing m).run s
  exec-closing (stops_cron m) s = (stop_cron_job-closing m).run s
  exec-closing (begins_deletion m) s = (begin_cron_deletion-closing m).run s
  exec-closing (ends_deletion m) s = (end_cron_deletion-closing m).run s
  exec-closing (reschedules m t) s = (reschedule_cron_job-closing m t).run s
  exec-closing (adds_interval m) s = (add_interval-closing m).run s
  exec-closing (deletes_interval m) s = (delete_interval-closing m).run s
  exec-closing (adds_timeout m) s = (add_timeout-closing m).run s
  exec-closing (deletes_timeout m) s = (delete_timeout-closing m).run s
  exec-closing (ticks m) s = (tick_interval-closing m).run s
  exec-closing (fires m) s = (fire_timeout-closing m).run s
  exec-closing (settles c b) s = (settle_callback-closing c b).run s
  exec-closing shuts_down s = on_application_shutdown-closing.run s

  pub run-closing : (es : List Event) (s : Scheduler R) → closing.rel s (run reg es s)
  unfolding run
  run-closing [] s = closing.rel_refl s
  run-closing (e ∷ es) s =
      closing.rel_trans s (exec reg e s) _ (exec-closing e s) (run-closing es (exec reg e s))
