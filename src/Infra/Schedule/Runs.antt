-- ===== src/Infra/Schedule/Runs.antt =====
-- Runs of the scheduler: calls of the service and the ticks, firings and ends of callbacks, in any
-- order.
use gnester_lite.Common.{ℕ, Bool, List, [], ◌∷◌}
use gnester_lite.Infra.Schedule.{
  Registry, Callback, Scheduler, tick_interval, fire_timeout, add_cron_job, start_cron_job,
  stop_cron_job, begin_cron_deletion, end_cron_deletion, reschedule_cron_job, add_interval,
  delete_interval, add_timeout, delete_timeout, settle_callback, on_application_shutdown,
}

pub data Event : Type 0 where
  adds_cron : ℕ → Bool → Event
  starts_cron stops_cron begins_deletion ends_deletion : ℕ → Event
  reschedules : ℕ → ℕ → Event
  adds_interval deletes_interval adds_timeout deletes_timeout : ℕ → Event
  ticks fires : ℕ → Event
  settles : Callback → Bool → Event
  shuts_down : Event

module _ {R : Type 0} (reg : Registry R) where
  -- The state after an event, whatever the call returned.
  unfoldable pub exec : Event → Scheduler R → Scheduler R
  exec (adds_cron n b) s = (add_cron_job reg n b s).1
  exec (starts_cron n) s = (start_cron_job reg n s).1
  exec (stops_cron n) s = (stop_cron_job reg n s).1
  exec (begins_deletion n) s = (begin_cron_deletion reg n s).1
  exec (ends_deletion n) s = (end_cron_deletion reg n s).1
  exec (reschedules n t) s = (reschedule_cron_job reg n t s).1
  exec (adds_interval n) s = (add_interval reg n s).1
  exec (deletes_interval n) s = (delete_interval reg n s).1
  exec (adds_timeout n) s = (add_timeout reg n s).1
  exec (deletes_timeout n) s = (delete_timeout reg n s).1
  exec (ticks n) s = (tick_interval n s).1
  exec (fires n) s = (fire_timeout n s).1
  exec (settles c b) s = (settle_callback reg c b s).1
  exec shuts_down s = (on_application_shutdown reg s).1

  unfoldable pub run : List Event → Scheduler R → Scheduler R
  run [] s = s
  run (e ∷ es) s = run es (exec e s)
