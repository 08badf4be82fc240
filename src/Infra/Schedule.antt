-- ===== src/Infra/Schedule.antt =====
-- infra/schedule/schedule.service.ts: the dynamic jobs. The registry of the scheduling library is a
-- parameter with the documented effect of its calls on which jobs exist. Names are numbers here: the
-- service compares them only.
pub mod Runs
pub mod Overlap
pub mod Closing
pub mod Drain
pub mod Shutdown
use gnester_lite.Common.{
  ℕ, ◌+◌, ◌≡◌, Bool, true, false, not, ◌&&◌, ◌||◌, ◌==◌, leb, if◌then◌else◌, List, [], ◌∷◌, ◌++◌,
  map, any, delete_where, order_by, Program, ◌>>=◌, ◌>>◌, return, throw, read, write, require, when,
  catch, internal, Failure,
}

pub data Kind : Type 0 where
  cron interval timeout : Kind

abbrev pub kind_eq : Kind → Kind → Bool
kind_eq cron cron = true
kind_eq interval interval = true
kind_eq timeout timeout = true
kind_eq _ _ = false

-- `SchedulerRegistry` of @nestjs/schedule with the cron jobs in it.
pub record Registry (R : Type 0) : Type 0 where
  pub exists : Kind → ℕ → R → Bool
  pub names : Kind → R → List ℕ
  pub add : Kind → ℕ → R → R
  pub remove : Kind → ℕ → R → R
  pub is_active : ℕ → R → Bool
  pub start : ℕ → R → R
  pub stop : ℕ → R → R
  -- Whether the promise of `stop` rejects, when it is awaited.
  pub stop_rejects : ℕ → R → Bool
  pub set_time : ℕ → ℕ → R → R
  pub exists_add :
      (k l : Kind) (n m : ℕ) (r : R)
      → exists k n (add l m r) ≡ ((kind_eq k l && n == m) || exists k n r)
  pub exists_remove :
      (k l : Kind) (n m : ℕ) (r : R)
      → exists k n (remove l m r) ≡ (not (kind_eq k l && n == m) && exists k n r)
  pub exists_start : (k : Kind) (n m : ℕ) (r : R) → exists k n (start m r) ≡ exists k n r
  pub exists_stop : (k : Kind) (n m : ℕ) (r : R) → exists k n (stop m r) ≡ exists k n r
  pub exists_set_time : (k : Kind) (n m t : ℕ) (r : R) → exists k n (set_time m t r) ≡ exists k n r

-- A callback of a timer that has started and not settled, one of `runningTimerCallbacks`.
pub record Callback : Type 0 where
  pub kind : Kind
  pub name : ℕ

pub record Scheduler (R : Type 0) : Type 0 where
  pub registry : R
  pub managed_cron_jobs : List ℕ
  pub managed_intervals : List ℕ
  pub managed_timeouts : List ℕ
  pub running_callbacks : List Callback
  pub running_intervals : List ℕ
  pub is_shutting_down : Bool
  pub enabled : Bool
  pub failures : ℕ

pub record Snapshot : Type 0 where
  pub name : ℕ
  pub kind : Kind
  pub active : Bool
  pub managed : Bool

-- `Set.has`, `add` and `delete`
abbrev pub has : ℕ → List ℕ → Bool
has n ns = any (λ m. m == n) ns

abbrev pub add_name : ℕ → List ℕ → List ℕ
add_name n ns = if has n ns then ns else ns ++ n ∷ []

abbrev pub delete_name : ℕ → List ℕ → List ℕ
delete_name n ns = delete_where (λ m. m == n) ns

abbrev pub same_callback : Callback → Callback → Bool
same_callback a b = kind_eq a.kind b.kind && a.name == b.name

abbrev pub remove_callback : Callback → List Callback → List Callback
remove_callback c [] = []
remove_callback c (d ∷ cs) =
    let rest = remove_callback c cs in if same_callback c d then cs else d ∷ rest

module _ {R : Type 0} where
  unfoldable pub guarded : Bool → Program (Scheduler R) Bool → Program (Scheduler R) Bool
  guarded false m = return false
  guarded true m = m

  -- `reportScheduleFailure`
  unfoldable pub report_schedule_failure : Program (Scheduler R) (Unit {0})
  report_schedule_failure = write λ s. record s { failures = s.failures + 1 }

  -- The tick of an interval, and the firing of a timeout: `startTimerCallback`.
  unfoldable pub start_timer_callback : Kind → ℕ → Program (Scheduler R) (Unit {0})
  start_timer_callback k n =
      write
        λ s. record s { running_callbacks = record { kind = k; name = n } ∷ s.running_callbacks }

  unfoldable pub tick_interval : ℕ → Program (Scheduler R) (Unit {0})
  tick_interval n = do
    busy ← read λ s. has n s.running_intervals
    when (not busy) do
      write λ s. record s { running_intervals = add_name n s.running_intervals }
      start_timer_callback interval n

  unfoldable pub fire_timeout : ℕ → Program (Scheduler R) (Unit {0})
  fire_timeout n = start_timer_callback timeout n

module _ {R : Type 0} (reg : Registry R) where
  abbrev pub may_add : Kind → ℕ → Scheduler R → Bool
  may_add k n s = not s.is_shutting_down && s.enabled && not (reg.exists k n s.registry)

  unfoldable pub add_cron_job : ℕ → Bool → Program (Scheduler R) Bool
  add_cron_job n starts = do
    free ← read (may_add cron n)
    guarded free do
      write λ s. record s {
        registry = reg.add cron n s.registry;
        managed_cron_jobs = add_name n s.managed_cron_jobs;
      }
      when starts (write λ s. record s { registry = reg.start n s.registry })
      return true

  unfoldable pub start_cron_job : ℕ → Program (Scheduler R) Bool
  start_cron_job n = do
    there ← read λ s. not s.is_shutting_down && reg.exists cron n s.registry
    guarded there do write λ s. record s { registry = reg.start n s.registry }; return true

  unfoldable pub stop_cron_job : ℕ → Program (Scheduler R) Bool
  stop_cron_job n = do
    there ← read λ s. reg.exists cron n s.registry
    guarded there do
      write λ s. record s { registry = reg.stop n s.registry }
      stopped ← read λ s. not (reg.stop_rejects n s.registry)
      require stopped (internal "stop")
      return true

  -- `deleteCronJob` up to the `await`, and from there: it throws where the promise of `stop` rejects,
  -- or where the job has gone.
  unfoldable pub begin_cron_deletion : ℕ → Program (Scheduler R) Bool
  begin_cron_deletion n = do
    there ← read λ s. reg.exists cron n s.registry
    when (not there) (write λ s. record s { managed_cron_jobs = delete_name n s.managed_cron_jobs })
    guarded there do write λ s. record s { registry = reg.stop n s.registry }; return true

  unfoldable pub end_cron_deletion : ℕ → Program (Scheduler R) Bool
  end_cron_deletion n = do
    stopped ← read λ s. not (reg.stop_rejects n s.registry)
    require stopped (internal "stop")
    there ← read λ s. reg.exists cron n s.registry
    require there (internal "No Cron Job was found with the given name")
    write λ s. record s {
      registry = reg.remove cron n s.registry;
      managed_cron_jobs = delete_name n s.managed_cron_jobs;
    }
    return true

  unfoldable pub reschedule_cron_job : ℕ → ℕ → Program (Scheduler R) Bool
  reschedule_cron_job n time = do
    there ← read λ s. not s.is_shutting_down && reg.exists cron n s.registry
    guarded there do write λ s. record s { registry = reg.set_time n time s.registry }; return true

  unfoldable pub add_interval : ℕ → Program (Scheduler R) Bool
  add_interval n = do
    free ← read (may_add interval n)
    guarded free do
      write λ s. record s {
        registry = reg.add interval n s.registry;
        managed_intervals = add_name n s.managed_intervals;
      }
      return true

  unfoldable pub delete_interval : ℕ → Program (Scheduler R) Bool
  delete_interval n = do
    there ← read λ s. reg.exists interval n s.registry
    when there (write λ s. record s { registry = reg.remove interval n s.registry })
    write λ s. record s { managed_intervals = delete_name n s.managed_intervals }
    return there

  unfoldable pub add_timeout : ℕ → Program (Scheduler R) Bool
  add_timeout n = do
    free ← read (may_add timeout n)
    guarded free do
      write λ s. record s {
        registry = reg.add timeout n s.registry;
        managed_timeouts = add_name n s.managed_timeouts;
      }
      return true

  unfoldable pub delete_timeout : ℕ → Program (Scheduler R) Bool
  delete_timeout n = do
    there ← read λ s. reg.exists timeout n s.registry
    when there (write λ s. record s { registry = reg.remove timeout n s.registry })
    write λ s. record s { managed_timeouts = delete_name n s.managed_timeouts }
    return there

  unfoldable pub has_interval : ℕ → Program (Scheduler R) Bool
  has_interval n = read λ s. reg.exists interval n s.registry

  unfoldable pub has_timeout : ℕ → Program (Scheduler R) Bool
  has_timeout n = read λ s. reg.exists timeout n s.registry

  abbrev pub timer_snapshot : Kind → List ℕ → ℕ → Snapshot
  timer_snapshot k managed n = record { name = n; kind = k; active = true; managed = has n managed }

  abbrev pub by_name : Snapshot → Snapshot → Bool
  by_name a b = leb a.name b.name

  unfoldable pub list_cron_jobs : Scheduler R → List Snapshot
  list_cron_jobs s = order_by by_name (
      map
        (λ n. record {
          name = n;
          kind = cron;
          active = reg.is_active n s.registry;
          managed = has n s.managed_cron_jobs;
        })
        (reg.names cron s.registry))

  unfoldable pub list_intervals : Scheduler R → List Snapshot
  list_intervals s =
      order_by by_name
        (map (timer_snapshot interval s.managed_intervals) (reg.names interval s.registry))

  unfoldable pub list_timeouts : Scheduler R → List Snapshot
  list_timeouts s =
      order_by by_name
        (map (timer_snapshot timeout s.managed_timeouts) (reg.names timeout s.registry))

  -- `onSettled` of an interval and of a timeout.
  unfoldable pub settling : Kind → ℕ → Scheduler R → Scheduler R
  settling cron n s = s
  settling interval n s = record s { running_intervals = delete_name n s.running_intervals }
  settling timeout n s = record s {
    managed_timeouts = delete_name n s.managed_timeouts;
    registry =
        if reg.exists timeout n s.registry then reg.remove timeout n s.registry else s.registry;
  }

  -- The end of `runTimerCallback`, and of the promise in `runningTimerCallbacks`.
  unfoldable pub settle_callback : Callback → Bool → Program (Scheduler R) (Unit {0})
  settle_callback c fails = do
    started ← read λ s. any (same_callback c) s.running_callbacks
    when started do
      when fails report_schedule_failure
      write λ s.
          let t = settling c.kind c.name s in
          record t { running_callbacks = remove_callback c t.running_callbacks }

  unfoldable pub begin_cron_deletions : List ℕ → Program (Scheduler R) (List ℕ)
  begin_cron_deletions [] = return []
  begin_cron_deletions (n ∷ ns) = do
    pending ← begin_cron_deletion n
    rest ← begin_cron_deletions ns
    return (if pending then n ∷ rest else rest)

  unfoldable pub end_cron_deletions : List ℕ → Program (Scheduler R) (Unit {0})
  end_cron_deletions [] = return tt
  end_cron_deletions (n ∷ ns) = do
    catch (end_cron_deletion n) (λ _. report_schedule_failure >> return false)
    end_cron_deletions ns

  unfoldable pub delete_intervals : List ℕ → Program (Scheduler R) (Unit {0})
  delete_intervals [] = return tt
  delete_intervals (n ∷ ns) = do delete_interval n; delete_intervals ns

  unfoldable pub delete_timeouts : List ℕ → Program (Scheduler R) (Unit {0})
  delete_timeouts [] = return tt
  delete_timeouts (n ∷ ns) = do delete_timeout n; delete_timeouts ns

  -- `onApplicationShutdown` up to the wait for the running callbacks, with and without its mark.
  unfoldable pub draining : Program (Scheduler R) (Unit {0})
  draining = do
    crons ← read λ s. s.managed_cron_jobs
    pending ← begin_cron_deletions crons
    intervals ← read λ s. s.managed_intervals
    delete_intervals intervals
    timeouts ← read λ s. s.managed_timeouts
    delete_timeouts timeouts
    end_cron_deletions pending

  unfoldable pub on_application_shutdown : Program (Scheduler R) (Unit {0})
  on_application_shutdown = do write λ s. record s { is_shutting_down = true }; draining
