-- ===== src/Infra/Queue/Errors.antt =====
-- The errors of the queue service, and the end of the wait for its lock.
use gnester_lite.Common.{
  ℕ, zero, suc, ◌+◌, ◌*◌, ◌≤◌, ◌<◌, ◌≡◌, ◌≢◌, ◌⊎◌, inl, inr, Bool, true, arith, leb, ltb,
  Bool-cases, Result, ok, err, service_unavailable, range_error,
}
use gnester_lite.Infra.Queue.{
  Ending, returned, acquired, exhausted, acquire_until, acquire_admission_lock, Calls,
  release_admission_lock,
}

acquire_until-ends :
    (reply : ℕ → Bool × ℕ) (fuel deadline now : ℕ)
    → now ≤ deadline
    → deadline < now + 25 * fuel
    → (acquire_until reply fuel deadline now).0 ≢ exhausted
unfolding acquire_until
acquire_until-ends reply zero deadline now k h = absurd (omega (arith, h, k))
acquire_until-ends reply (suc fuel) deadline now k h = elim (Bool-cases (reply fuel).0) [
  | inl got ↦ rw got (λ e. cc e)
  | inr missed ↦ elim (Bool-cases (leb deadline (now + (reply fuel).1))) [
    | inl late ↦ rw (missed, late) (λ e. cc e)
    | inr early ↦ elim (Bool-cases (ltb (now + (reply fuel).1 + 25) deadline)) [
      | inl again ↦
          rw (missed, early, again)
            (acquire_until-ends reply fuel deadline (now + (reply fuel).1 + 25)
              (ground (arith, again)) (omega (arith, h)))
      | inr over ↦ rw (missed, early, over) (λ e. cc e)
    ]
  ]
]

-- The wait for the lock ends, however long each attempt takes and whatever it finds: with fuel for 41
-- attempts it does not run out, one for each 25 ms of the second that it may wait and one more.
pub acquire_admission_lock-ends :
    (reply : ℕ → Bool × ℕ) (fuel now : ℕ)
    → 41 ≤ fuel
    → (acquire_admission_lock reply fuel now).0 ≢ exhausted
unfolding acquire_admission_lock
acquire_admission_lock-ends reply fuel now h =
    acquire_until-ends reply fuel (now + 1000) now (omega arith) (omega (arith, h))

-- What `perform` may throw, and what it returns.
Performed : {A : Type 0} → Bool → Ending A → Result A → Type 0
Performed enabled o (ok a) = (enabled ≡ true) × (o ≡ returned a)
Performed enabled o (err (service_unavailable m)) = Unit
Performed enabled o (err e) = ⊥

-- What stands when a run returns `a`.
pub record Admitted {A : Type 0} (enabled : Bool) (required maximum : ℕ) (c : Calls A) (a : A)
    : Type 0 where
  pub is_enabled : enabled ≡ true
  pub is_acquired : c.lock ≡ returned acquired
  pub pending : ℕ
  pub counted : c.pending ≡ returned pending
  pub least : 1 ≤ required
  pub fits : pending + required ≤ maximum
  pub ran : c.operation ≡ returned a
  pub freed : release_admission_lock c.release ≡ returned tt

-- What a run says by its result.
abbrev pub Admission : {A : Type 0} → Bool → ℕ → ℕ → Calls A → Result A → Type 0
Admission enabled required maximum c (ok a) = Admitted enabled required maximum c a
Admission enabled required maximum c (err (range_error m)) = (required ≡ 0) ⊎ (maximum ≡ 0)
Admission enabled required maximum c (err (service_unavailable m)) = (1 ≤ required) × (1 ≤ maximum)
Admission enabled required maximum c (err e) = ⊥
