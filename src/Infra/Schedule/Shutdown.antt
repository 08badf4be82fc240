-- ===== src/Infra/Schedule/Shutdown.antt =====
-- The whole shutdown, and the runs after it.
use gnester_lite.Common.{
  ℕ, ◌+◌, ◌≡◌, refl, ap, sym, ◌∙◌, true, false, not, ◌&&◌, ◌==◌, ==_iff, List, [], ◌∷◌, arith,
  Bool-cases, inl, inr, if◌then◌else◌, Result, ok, ◌>>=◌, return, read, write, require, when, catch,
}
use gnester_lite.Infra.Schedule.{
  Kind, cron, interval, timeout, kind_eq, Registry, Scheduler, has, delete_name, guarded,
  report_schedule_failure, begin_cron_deletion, end_cron_deletion, begin_cron_deletions,
  end_cron_deletions, draining, on_application_shutdown,
}
use gnester_lite.Infra.Schedule.Runs.{Event, shuts_down, exec, run}
use gnester_lite.Infra.Schedule.Overlap.{has-delete_name}
use gnester_lite.Infra.Schedule.Closing.{managed, Closed, draining-closing, run-closing}
use gnester_lite.Infra.Schedule.Drain.{
  deletion, deletions, deletion-has, deletion-exists, deletions-has, deletions-exists,
  delete_intervals-ok, delete_timeouts-ok, deletion-other, deletions-other, deletion-managed_other,
  deletions-managed_other,
}

module _ {R : Type 0} (reg : Registry R) where
  -- The first half of the deletion of a cron job.
  beginning : ℕ → Scheduler R → Scheduler R
  beginning m s =
      if reg.exists cron m s.registry
      then record s { registry = reg.stop m s.registry }
      else record s { managed_cron_jobs = delete_name m s.managed_cron_jobs }

  begin_cron_deletion-ok :
      (m : ℕ) (s : Scheduler R)
      → begin_cron_deletion reg m s ≡ (ok (reg.exists cron m s.registry), beginning m s)
  unfolding begin_cron_deletion beginning guarded ◌>>=◌ read write when return
  begin_cron_deletion-ok m s = elim (Bool-cases (reg.exists cron m s.registry)) [
    | inl there ↦ rw (there, when, guarded) refl
    | inr gone ↦ rw (gone, when, guarded) refl
  ]

  beginnings : List ℕ → Scheduler R → Scheduler R
  beginnings [] s = s
  beginnings (m ∷ ms) s = beginnings ms (beginning m s)

  pending : List ℕ → Scheduler R → List ℕ
  pending [] s = []
  pending (m ∷ ms) s =
      let rest = pending ms (beginning m s) in
      if reg.exists cron m s.registry then m ∷ rest else rest

  begin_cron_deletions-ok :
      (ms : List ℕ) (s : Scheduler R)
      → begin_cron_deletions reg ms s ≡ (ok (pending ms s), beginnings ms s)
  unfolding begin_cron_deletions beginnings pending ◌>>=◌ return
  begin_cron_deletions-ok [] s = refl
  begin_cron_deletions-ok (m ∷ ms) s =
      rw (begin_cron_deletion-ok m s) (rw (begin_cron_deletions-ok ms (beginning m s)) refl)

  beginning-exists :
      (l : Kind) (n m : ℕ) (s : Scheduler R)
      → reg.exists l n (beginning m s).registry ≡ reg.exists l n s.registry
  unfolding beginning
  beginning-exists l n m s = elim (Bool-cases (reg.exists cron m s.registry)) [
    | inl there ↦ rw there (reg.exists_stop l n m s.registry)
    | inr gone ↦ rw gone refl
  ]

  -- The other kind of timers are as they were.
  beginning-timers :
      (m : ℕ) (s : Scheduler R)
      → ((beginning m s).managed_intervals ≡ s.managed_intervals)
        × ((beginning m s).managed_timeouts ≡ s.managed_timeouts)
  unfolding beginning
  beginning-timers m s = elim (Bool-cases (reg.exists cron m s.registry)) [
    | inl there ↦ rw there (refl, refl)
    | inr gone ↦ rw gone (refl, refl)
  ]

  same_job : (n m : ℕ) (r : R) → (m == n) ≡ true → reg.exists cron m r ≡ reg.exists cron n r
  same_job n m r e = ap (λ (k : ℕ). reg.exists cron k r) ((==_iff m n).0 e)

  beginning-has :
      (n m : ℕ) (s : Scheduler R)
      → has n (beginning m s).managed_cron_jobs
        ≡ (not (m == n && not (reg.exists cron n s.registry)) && has n s.managed_cron_jobs)
  unfolding beginning
  beginning-has n m s = elim (Bool-cases (reg.exists cron m s.registry)) [
    | inl there ↦ rw there (ground (arith, same_job n m s.registry, there))
    | inr gone ↦
        rw gone
          (has-delete_name n m s.managed_cron_jobs ∙ ground (arith, same_job n m s.registry, gone))
  ]

  beginnings-exists :
      (l : Kind) (n : ℕ) (ms : List ℕ) (s : Scheduler R)
      → reg.exists l n (beginnings ms s).registry ≡ reg.exists l n s.registry
  unfolding beginnings
  beginnings-exists l n [] s = refl
  beginnings-exists l n (m ∷ ms) s =
      beginnings-exists l n ms (beginning m s) ∙ beginning-exists l n m s

  beginnings-timers :
      (ms : List ℕ) (s : Scheduler R)
      → ((beginnings ms s).managed_intervals ≡ s.managed_intervals)
        × ((beginnings ms s).managed_timeouts ≡ s.managed_timeouts)
  unfolding beginnings
  beginnings-timers [] s = (refl, refl)
  beginnings-timers (m ∷ ms) s =
      let first = beginning-timers m s in
      let rest = beginnings-timers ms (beginning m s) in (rest.0 ∙ first.0, rest.1 ∙ first.1)

  beginnings-has :
      (n : ℕ) (ms : List ℕ) (s : Scheduler R)
      → has n (beginnings ms s).managed_cron_jobs
        ≡ (not (has n ms && not (reg.exists cron n s.registry)) && has n s.managed_cron_jobs)
  unfolding beginnings
  beginnings-has n [] s = refl
  beginnings-has n (m ∷ ms) s =
      beginnings-has n ms (beginning m s)
      ∙ rw (beginning-has n m s, beginning-exists cron n m s) (ground arith)

  pending-has :
      (n : ℕ) (ms : List ℕ) (s : Scheduler R)
      → has n (pending ms s) ≡ (has n ms && reg.exists cron n s.registry)
  unfolding pending
  pending-has n [] s = refl
  pending-has n (m ∷ ms) s = ground (
    arith,
    pending-has n ms (beginning m s),
    beginning-exists cron n m s,
    same_job n m s.registry,
  )

  -- The second half.
  ending : ℕ → Scheduler R → Scheduler R
  ending m s =
      if not (reg.stop_rejects m s.registry) && reg.exists cron m s.registry
      then deletion reg cron m s
      else record s { failures = s.failures + 1 }

  endings : List ℕ → Scheduler R → Scheduler R
  endings [] s = s
  endings (m ∷ ms) s = endings ms (ending m s)

  end_cron_deletions-ok :
      (ms : List ℕ) (s : Scheduler R) → end_cron_deletions reg ms s ≡ (ok tt, endings ms s)
  unfolding end_cron_deletions end_cron_deletion endings ending deletion report_schedule_failure
      ◌>>=◌ read write require return catch
  end_cron_deletions-ok [] s = refl
  end_cron_deletions-ok (m ∷ ms) s = elim (Bool-cases (reg.stop_rejects m s.registry)) [
    | inl rejects ↦ rw (rejects, require) (end_cron_deletions-ok ms _)
    | inr stops ↦ elim (Bool-cases (reg.exists cron m s.registry)) [
      | inl there ↦ rw (stops, there, require) (end_cron_deletions-ok ms _)
      | inr gone ↦ rw (stops, gone, require) (end_cron_deletions-ok ms _)
    ]
  ]

  -- What is left of a job whose own `stop` does not reject.
  Stops : ℕ → Type 0
  Stops n = (r : R) → reg.stop_rejects n r ≡ false

  same-Stops : (n m : ℕ) (r : R) → Stops n → (m == n) ≡ true → reg.stop_rejects m r ≡ false
  unfolding Stops
  same-Stops n m r h e = ap (λ (k : ℕ). reg.stop_rejects k r) ((==_iff m n).0 e) ∙ h r

  ending-exists :
      (n m : ℕ) (s : Scheduler R)
      → Stops n
      → reg.exists cron n (ending m s).registry ≡ (not (m == n) && reg.exists cron n s.registry)
  unfolding ending
  ending-exists n m s h =
      elim (Bool-cases (not (reg.stop_rejects m s.registry) && reg.exists cron m s.registry)) [
        | inl there ↦ rw there (deletion-exists reg cron n m s)
        | inr gone ↦
            rw gone (ground (arith, same_job n m s.registry, same-Stops n m s.registry h, gone))
      ]

  ending-has :
      (n m : ℕ) (s : Scheduler R)
      → Stops n
      → has n (ending m s).managed_cron_jobs
        ≡ (not (m == n && reg.exists cron n s.registry) && has n s.managed_cron_jobs)
  unfolding ending
  ending-has n m s h =
      elim (Bool-cases (not (reg.stop_rejects m s.registry) && reg.exists cron m s.registry)) [
        | inl there ↦
            rw there (deletion-has reg cron n m s ∙ ground (arith, same_job n m s.registry, there))
        | inr gone ↦
            rw gone (ground (arith, same_job n m s.registry, same-Stops n m s.registry h, gone))
      ]

  endings-exists :
      (n : ℕ) (ms : List ℕ) (s : Scheduler R)
      → Stops n
      → reg.exists cron n (endings ms s).registry ≡ (not (has n ms) && reg.exists cron n s.registry)
  unfolding endings
  endings-exists n [] s h = refl
  endings-exists n (m ∷ ms) s h =
      endings-exists n ms (ending m s) h ∙ rw (ending-exists n m s h) (ground arith)

  endings-has :
      (n : ℕ) (ms : List ℕ) (s : Scheduler R)
      → Stops n
      → has n (endings ms s).managed_cron_jobs
        ≡ (not (has n ms && reg.exists cron n s.registry) && has n s.managed_cron_jobs)
  unfolding endings
  endings-has n [] s h = refl
  endings-has n (m ∷ ms) s h =
      endings-has n ms (ending m s) h
      ∙ rw (ending-has n m s h, ending-exists n m s h) (ground arith)

  -- The timers, of which the second half knows nothing.
  ending-other :
      (l : Kind) (n m : ℕ) (s : Scheduler R)
      → kind_eq l cron ≡ false
      → (managed l (ending m s) ≡ managed l s)
        × (reg.exists l n (ending m s).registry ≡ reg.exists l n s.registry)
  unfolding ending
  ending-other cron n m s e = absurd (cc e)
  ending-other interval n m s e =
      elim (Bool-cases (not (reg.stop_rejects m s.registry) && reg.exists cron m s.registry)) [
        | inl there ↦ rw there (
          deletion-managed_other reg cron interval m s e,
          deletion-other reg cron interval n m s e,
        )
        | inr gone ↦ rw gone (refl, refl)
      ]
  ending-other timeout n m s e =
      elim (Bool-cases (not (reg.stop_rejects m s.registry) && reg.exists cron m s.registry)) [
        | inl there ↦
            rw there (
              deletion-managed_other reg cron timeout m s e,
              deletion-other reg cron timeout n m s e,
            )
        | inr gone ↦ rw gone (refl, refl)
      ]

  endings-other :
      (l : Kind) (n : ℕ) (ms : List ℕ) (s : Scheduler R)
      → kind_eq l cron ≡ false
      → (managed l (endings ms s) ≡ managed l s)
        × (reg.exists l n (endings ms s).registry ≡ reg.exists l n s.registry)
  unfolding endings
  endings-other l n [] s e = (refl, refl)
  endings-other l n (m ∷ ms) s e =
      let first = ending-other l n m s e in
      let rest = endings-other l n ms (ending m s) e in (rest.0 ∙ first.0, rest.1 ∙ first.1)

  -- The stages of the shutdown.
  module _ (s : Scheduler R) where
    abbrev begun : Scheduler R
    begun = beginnings s.managed_cron_jobs s

    abbrev intervals_gone : Scheduler R
    intervals_gone = deletions reg interval begun.managed_intervals begun

    abbrev timeouts_gone : Scheduler R
    timeouts_gone = deletions reg timeout intervals_gone.managed_timeouts intervals_gone

    abbrev drained : Scheduler R
    drained = endings (pending s.managed_cron_jobs s) timeouts_gone

    draining-ok : draining reg s ≡ (ok tt, drained)
    unfolding draining ◌>>=◌ read
    draining-ok = rw (begin_cron_deletions-ok s.managed_cron_jobs s) (
        rw (delete_intervals-ok reg begun.managed_intervals begun) (
          rw (delete_timeouts-ok reg intervals_gone.managed_timeouts intervals_gone)
            (end_cron_deletions-ok (pending s.managed_cron_jobs s) timeouts_gone)))

    cron_before :
        (n : ℕ)
        → (reg.exists cron n timeouts_gone.registry ≡ reg.exists cron n s.registry)
          × (timeouts_gone.managed_cron_jobs ≡ begun.managed_cron_jobs)
    cron_before n = (
      deletions-other reg timeout cron n intervals_gone.managed_timeouts intervals_gone refl
          ∙ deletions-other reg interval cron n begun.managed_intervals begun refl
          ∙ beginnings-exists cron n s.managed_cron_jobs s,
      deletions-managed_other reg timeout cron intervals_gone.managed_timeouts intervals_gone refl
          ∙ deletions-managed_other reg interval cron begun.managed_intervals begun refl,
    )

    cron_after :
        (n : ℕ)
        → Stops n
        → (has n drained.managed_cron_jobs ≡ false)
          × (has n s.managed_cron_jobs ≡ true → reg.exists cron n drained.registry ≡ false)
    cron_after n stops =
        let (before, names) = cron_before n in
        let left = beginnings-has n s.managed_cron_jobs s in
        let waits = pending-has n s.managed_cron_jobs s in
        (
          endings-has n (pending s.managed_cron_jobs s) timeouts_gone stops
              ∙ rw (before, names, left, waits) (ground arith),
          λ h.
              endings-exists n (pending s.managed_cron_jobs s) timeouts_gone stops
              ∙ rw (before, waits, h) (ground arith),
        )

    intervals_after :
        (n : ℕ)
        → (has n drained.managed_intervals ≡ false)
          × (has n s.managed_intervals ≡ true → reg.exists interval n drained.registry ≡ false)
    intervals_after n =
        let (names, jobs) =
          endings-other interval n (pending s.managed_cron_jobs s) timeouts_gone refl in
        let kept = (beginnings-timers s.managed_cron_jobs s).0 in
        (
          rw
              (
                names,
                deletions-managed_other reg timeout interval intervals_gone.managed_timeouts
                    intervals_gone refl,
              )
              (deletions-has reg interval n begun.managed_intervals begun ∙ ground arith),
          λ h.
              jobs
              ∙ deletions-other reg timeout interval n intervals_gone.managed_timeouts
                  intervals_gone refl
              ∙ deletions-exists reg interval n begun.managed_intervals begun
              ∙ rw (kept, h) refl,
        )

    timeouts_after :
        (n : ℕ)
        → (has n drained.managed_timeouts ≡ false)
          × (has n s.managed_timeouts ≡ true → reg.exists timeout n drained.registry ≡ false)
    timeouts_after n =
        let (names, jobs) =
          endings-other timeout n (pending s.managed_cron_jobs s) timeouts_gone refl in
        let kept =
          deletions-managed_other reg interval timeout begun.managed_intervals begun refl
          ∙ (beginnings-timers s.managed_cron_jobs s).1 in
        (
          rw names (
              deletions-has reg timeout n intervals_gone.managed_timeouts intervals_gone
              ∙ ground arith),
          λ h.
              jobs
              ∙ deletions-exists reg timeout n intervals_gone.managed_timeouts intervals_gone
              ∙ rw (kept, h) refl,
        )

  -- Of a cron job, that the promise of its `stop` does not reject; of a timer, nothing.
  abbrev pub CanStop : Kind → ℕ → Type 0
  CanStop cron n = (r : R) → reg.stop_rejects n r ≡ false
  CanStop interval n = Unit
  CanStop timeout n = Unit

  -- A name in a state `t` after a shutdown from `s`: it is not managed, and its job is gone if it was.
  pub record Drained (k : Kind) (n : ℕ) (s t : Scheduler R) : Type 0 where
    pub unmanaged : has n (managed k t) ≡ false
    pub missing : (has n (managed k s) && reg.exists k n t.registry) ≡ false

  abbrev marked : Scheduler R → Scheduler R
  marked s = record s { is_shutting_down = true }

  both-Drained :
      (k : Kind) (n : ℕ) (s t : Scheduler R)
      → (has n (managed k t) ≡ false)
        × (has n (managed k s) ≡ true → reg.exists k n t.registry ≡ false)
      → Drained k n s t
  both-Drained k n s t (names, jobs) = record {
    unmanaged = names;
    missing = elim (Bool-cases (has n (managed k s))) [
      | inl was ↦ rw was (jobs was)
      | inr never ↦ rw never refl
    ];
  }

  drained-Drained :
      (k : Kind) (n : ℕ) (s : Scheduler R) → CanStop k n → Drained k n s (drained (marked s))
  unfolding Stops
  drained-Drained cron n s h = both-Drained cron n s _ (cron_after (marked s) n h)
  drained-Drained interval n s h = both-Drained interval n s _ (intervals_after (marked s) n)
  drained-Drained timeout n s h = both-Drained timeout n s _ (timeouts_after (marked s) n)

  after_shutdown : (s : Scheduler R) → exec reg shuts_down s ≡ drained (marked s)
  unfolding exec on_application_shutdown ◌>>=◌ write
  after_shutdown s = ap (λ (r : Result (Unit {0}) × Scheduler R). r.1) (draining-ok (marked s))

  still_down : (s : Scheduler R) → (drained (marked s)).is_shutting_down ≡ true
  still_down s =
      rw (sym (ap (λ (r : Result (Unit {0}) × Scheduler R). r.1) (draining-ok (marked s))))
        (((draining-closing reg).run (marked s)) refl).down

  Drained-later :
      (k : Kind) (n : ℕ) (s t v : Scheduler R) → Drained k n s t → Closed reg t v → Drained k n s v
  Drained-later k n s t v h c = record {
    unmanaged = c.unmanaged k n h.unmanaged;
    missing = elim (Bool-cases (has n (managed k s))) [
      | inl was ↦ rw was (c.missing k n (ground (arith, h.missing, was)))
      | inr never ↦ rw never refl
    ];
  }

-- After a shutdown and any further run of the scheduler, of calls, ticks and callbacks, no interval
-- and no timeout is managed by the service, nor any cron job the promise of whose own `stop` does not
-- reject, whatever those of the other jobs do; and such a job that was managed at the shutdown is not
-- in the registry.
pub shutdown-Drained :
    {R : Type 0} (reg : Registry R) (s : Scheduler R) (es : List Event) (k : Kind) (n : ℕ)
    → CanStop reg k n
    → Drained reg k n s (run reg es (exec reg shuts_down s))
shutdown-Drained reg s es k n h = rw (after_shutdown reg s) (
    Drained-later reg k n s (drained reg (marked reg s)) _ (drained-Drained reg k n s h)
      (run-closing reg es (drained reg (marked reg s)) (still_down reg s)))
