-- ===== src/Infra/Queue.antt =====
-- infra/queue/queue.service.ts: the admission of jobs under a capacity. Redis and the queue library
-- are outside: the two commands of the lock have their documented effect on one key, which holds a
-- token up to an instant, and a count of jobs is a number that the library returns.
pub mod Errors
pub mod Capacity
use gnester_lite.Common.{
  ℕ, zero, suc, ◌+◌, ◌≡◌, Bool, true, false, not, ◌&&◌, ◌||◌, ◌==◌, ltb, leb, if◌then◌else◌, Option,
  none, some, List, [], ◌∷◌, Result, ok, err, Failure, service_unavailable, range_error, String,
}

-- QUEUE_OPERATION_TIMEOUT_MS and the constants of the lock.
abbrev pub operation_timeout_ms : ℕ
operation_timeout_ms = 3000

abbrev pub lock_ttl_ms : ℕ
lock_ttl_ms = operation_timeout_ms + 2000

abbrev pub admission_wait_ms : ℕ
admission_wait_ms = 1000

abbrev pub admission_retry_ms : ℕ
admission_retry_ms = 25

pub record Lock : Type 0 where
  pub token : ℕ
  pub expires_at : ℕ

-- The value of the key at an instant: it is absent once it expired.
abbrev pub live : ℕ → Option Lock → Option Lock
live now none = none
live now (some l) = if ltb now l.expires_at then some l else none

-- ACQUIRE_QUEUE_ADMISSION_SCRIPT: SET … PX … NX
abbrev pub set_if_absent : ℕ → ℕ → ℕ → Option Lock → Bool × Option Lock
set_if_absent now token ttl none = (true, some (record { token = token; expires_at = now + ttl }))
set_if_absent now token ttl (some l) = (false, some l)

unfoldable pub acquire_script : ℕ → ℕ → ℕ → Option Lock → Bool × Option Lock
acquire_script now token ttl lock = set_if_absent now token ttl (live now lock)

-- RELEASE_QUEUE_ADMISSION_SCRIPT: DEL if the value is the token
abbrev pub delete_if : ℕ → Option Lock → Option Lock
delete_if token none = none
delete_if token (some l) = if l.token == token then none else some l

unfoldable pub release_script : ℕ → ℕ → Option Lock → Option Lock
release_script now token lock = delete_if token (live now lock)

-- How an operation of the backend ends within `perform`: it returns, throws, or the timer fires first.
pub data Ending (A : Type 0) : Type 0 where
  returned : A → Ending A
  thrown : Failure → Ending A
  expired : Ending A

abbrev pub rethrown : {A : Type 0} → Failure → Result A
rethrown (service_unavailable m) = err (service_unavailable m)
rethrown e = err (service_unavailable "Queue backend is unavailable")

unfoldable pub perform : {A : Type 0} → Bool → Ending A → Result A
perform false ending = err (service_unavailable "Queue processing is disabled")
perform true (returned a) = ok a
perform true (thrown e) = rethrown e
perform true expired = err (
    service_unavailable
      "Queue backend did not confirm the operation within the availability budget; mutation outcome may be unknown")

-- `assertPositiveCapacity`, of numbers that are whole.
unfoldable pub assert_positive_capacity : ℕ → String → Result (Unit {0})
assert_positive_capacity zero message = err (range_error message)
assert_positive_capacity (suc n) message = ok tt

-- `await`: what follows runs where the promise resolves.
abbrev pub then_ending : {A B : Type 0} → Ending A → (A → Ending B) → Ending B
then_ending (returned a) f = f a
then_ending (thrown e) f = thrown e
then_ending expired f = expired

-- The `finally` that releases the lock: how the release ends matters where it does not return.
abbrev pub finally_ending : {A : Type 0} → Ending A → Ending (Unit {0}) → Ending A
finally_ending expired release = expired
finally_ending (returned a) release = then_ending release (λ _. returned a)
finally_ending (thrown e) release = then_ending release (λ _. thrown e)

-- What follows the count: the operation where the capacity is left. The message has the capacity too.
unfoldable pub admit : {A : Type 0} → ℕ → ℕ → Ending A → ℕ → Ending A
admit required maximum operation pending =
    if leb (pending + required) maximum
    then operation
    else thrown (service_unavailable "Queue pending capacity is exhausted")

pub data Acquired : Type 0 where
  acquired busy exhausted : Acquired

-- The loop of `acquireAdmissionLock` on fuel: the reply to each attempt, and the time that it took.
unfoldable pub acquire_until : (ℕ → Bool × ℕ) → ℕ → ℕ → ℕ → Acquired × ℕ
acquire_until reply zero deadline now = (exhausted, now)
acquire_until reply (suc fuel) deadline now =
    let replied = now + (reply fuel).1 in
    let retried = replied + admission_retry_ms in
    let rest = acquire_until reply fuel deadline retried in
    if (reply fuel).0
    then (acquired, replied)
    else if leb deadline replied
    then (busy, replied)
    else if ltb retried deadline
    then rest
    else (busy, retried)

unfoldable pub acquire_admission_lock : (ℕ → Bool × ℕ) → ℕ → ℕ → Acquired × ℕ
acquire_admission_lock reply fuel now = acquire_until reply fuel (now + admission_wait_ms) now

abbrev pub under_lock : {A : Type 0} → Ending A → Acquired → Ending A
under_lock ending acquired = ending
under_lock ending busy = thrown (service_unavailable "Queue admission is busy; retry the request")
under_lock ending exhausted =
    thrown (service_unavailable "Queue admission is busy; retry the request")

unfoldable pub checked : {A : Type 0} → Result (Unit {0}) → Result A → Result A
checked (ok u) r = r
checked (err e) r = err e

-- `releaseAdmissionLock`: what the command throws is logged.
abbrev pub release_admission_lock : Ending (Unit {0}) → Ending (Unit {0})
release_admission_lock (returned u) = returned u
release_admission_lock (thrown e) = returned tt
release_admission_lock expired = expired

-- How the calls of the backend and the operation end, and whether they all do before the timer.
pub record Calls (A : Type 0) : Type 0 where
  pub client : Ending (Unit {0})
  pub lock : Ending Acquired
  pub pending : Ending ℕ
  pub operation : Ending A
  pub release : Ending (Unit {0})
  pub in_time : Bool

abbrev pub locked : {A : Type 0} → ℕ → ℕ → Calls A → Ending A
locked required maximum c =
    finally_ending (then_ending c.pending (admit required maximum c.operation))
      (release_admission_lock c.release)

-- `runWithPendingCapacity`: the checks of its arguments, and the work under the lock.
unfoldable pub run_with_pending_capacity : {A : Type 0} → Bool → ℕ → ℕ → Calls A → Result A
run_with_pending_capacity enabled required maximum c =
    checked (assert_positive_capacity required "required queue slots must be a positive integer") (
      checked (assert_positive_capacity maximum "maximum pending jobs must be a positive integer") (
        if ltb maximum required
        then err (service_unavailable "Requested workflow exceeds the queue pending capacity")
        else perform enabled (
            if c.in_time
            then then_ending c.client
                (λ _. then_ending c.lock (under_lock (locked required maximum c)))
            else expired)))

-- `getCounts`, with what the library does not report as 0.
pub record Counts : Type 0 where
  pub waiting : ℕ
  pub active : ℕ
  pub completed : ℕ
  pub failed : ℕ
  pub delayed : ℕ
  pub prioritized : ℕ
  pub paused : ℕ
  pub waiting_children : ℕ

abbrev pub or_zero : Option ℕ → ℕ
or_zero none = 0
or_zero (some n) = n

unfoldable pub get_counts : (String → Option ℕ) → Counts
get_counts counts = record {
  waiting = or_zero (counts "waiting");
  active = or_zero (counts "active");
  completed = or_zero (counts "completed");
  failed = or_zero (counts "failed");
  delayed = or_zero (counts "delayed");
  prioritized = or_zero (counts "prioritized");
  paused = or_zero (counts "paused");
  waiting_children = or_zero (counts "waiting-children");
}
