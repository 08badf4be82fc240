-- ===== src/Infra/Schedule/Drain.antt =====
-- What a shutdown leaves of the managed jobs.
use gnester_lite.Common.{
  ℕ, ◌≡◌, refl, sym, ◌∙◌, true, false, not, ◌&&◌, ◌==◌, ==_iff, List, [], ◌∷◌, arith, Bool-cases,
  inl, inr, if◌then◌else◌, ◌>>=◌, return, read, write, ok, when,
}
use gnester_lite.Infra.Schedule.{
  Kind, cron, interval, timeout, kind_eq, Registry, Scheduler, has, delete_name, delete_interval,
  delete_timeout, delete_intervals, delete_timeouts,
}
use gnester_lite.Infra.Schedule.Overlap.{has-delete_name}
use gnester_lite.Infra.Schedule.Closing.{unmanaging, managed}

module _ {R : Type 0} (reg : Registry R) where
  -- What the deletion of a job of any kind does, and what it leaves of a name.
  unfoldable pub deletion : Kind → ℕ → Scheduler R → Scheduler R
  deletion k m s = unmanaging reg k m (record s {
    registry = if reg.exists k m s.registry then reg.remove k m s.registry else s.registry;
  })

  unfoldable pub deletions : Kind → List ℕ → Scheduler R → Scheduler R
  deletions k [] s = s
  deletions k (m ∷ ms) s = deletions k ms (deletion k m s)

  deletion-managed :
      (k : Kind) (m : ℕ) (s : Scheduler R)
      → managed k (deletion k m s) ≡ delete_name m (managed k s)
  unfolding deletion
  deletion-managed cron m s = refl
  deletion-managed interval m s = refl
  deletion-managed timeout m s = refl

  deletion-registry :
      (k : Kind) (m : ℕ) (s : Scheduler R)
      → (deletion k m s).registry
        ≡ (if reg.exists k m s.registry then reg.remove k m s.registry else s.registry)
  unfolding deletion
  deletion-registry cron m s = refl
  deletion-registry interval m s = refl
  deletion-registry timeout m s = refl

  kind_eq_refl : (k : Kind) → kind_eq k k ≡ true
  kind_eq_refl cron = refl
  kind_eq_refl interval = refl
  kind_eq_refl timeout = refl

  removed_exists :
      (k : Kind) (n m : ℕ) (r : R)
      → reg.exists k n (if reg.exists k m r then reg.remove k m r else r)
        ≡ (not (m == n) && reg.exists k n r)
  removed_exists k n m r = elim (Bool-cases (reg.exists k m r)) [
    | inl there ↦ rw there (reg.exists_remove k k n m r ∙ rw (kind_eq_refl k) (ground arith))
    | inr gone ↦ rw gone (absent gone)
  ]
    where
      absent : reg.exists k m r ≡ false → reg.exists k n r ≡ (not (m == n) && reg.exists k n r)
      absent gone = elim (Bool-cases (m == n)) [
        | inl same ↦ rw same (rw (sym ((==_iff m n).0 same)) gone)
        | inr other ↦ rw other refl
      ]

  pub deletion-has :
      (k : Kind) (n m : ℕ) (s : Scheduler R)
      → has n (managed k (deletion k m s)) ≡ (not (m == n) && has n (managed k s))
  deletion-has k n m s = rw (deletion-managed k m s) (has-delete_name n m (managed k s))

  pub deletion-exists :
      (k : Kind) (n m : ℕ) (s : Scheduler R)
      → reg.exists k n (deletion k m s).registry ≡ (not (m == n) && reg.exists k n s.registry)
  deletion-exists k n m s = rw (deletion-registry k m s) (removed_exists k n m s.registry)

  pub deletions-has :
      (k : Kind) (n : ℕ) (ms : List ℕ) (s : Scheduler R)
      → has n (managed k (deletions k ms s)) ≡ (not (has n ms) && has n (managed k s))
  unfolding deletions
  deletions-has k n [] s = refl
  deletions-has k n (m ∷ ms) s =
      deletions-has k n ms (deletion k m s) ∙ rw (deletion-has k n m s) (ground arith)

  pub deletions-exists :
      (k : Kind) (n : ℕ) (ms : List ℕ) (s : Scheduler R)
      → reg.exists k n (deletions k ms s).registry ≡ (not (has n ms) && reg.exists k n s.registry)
  unfolding deletions
  deletions-exists k n [] s = refl
  deletions-exists k n (m ∷ ms) s =
      deletions-exists k n ms (deletion k m s) ∙ rw (deletion-exists k n m s) (ground arith)

  -- The loops over the timers are such deletions.
  delete_interval-ok :
      (m : ℕ) (s : Scheduler R)
      → delete_interval reg m s ≡ (ok (reg.exists interval m s.registry), deletion interval m s)
  unfolding delete_interval deletion ◌>>=◌ read write when return
  delete_interval-ok m s = elim (Bool-cases (reg.exists interval m s.registry)) [
    | inl there ↦ rw (there, when) refl
    | inr gone ↦ rw (gone, when) refl
  ]

  delete_timeout-ok :
      (m : ℕ) (s : Scheduler R)
      → delete_timeout reg m s ≡ (ok (reg.exists timeout m s.registry), deletion timeout m s)
  unfolding delete_timeout deletion ◌>>=◌ read write when return
  delete_timeout-ok m s = elim (Bool-cases (reg.exists timeout m s.registry)) [
    | inl there ↦ rw (there, when) refl
    | inr gone ↦ rw (gone, when) refl
  ]

  pub delete_intervals-ok :
      (ms : List ℕ) (s : Scheduler R) → delete_intervals reg ms s ≡ (ok tt, deletions interval ms s)
  unfolding delete_intervals deletions ◌>>=◌ return
  delete_intervals-ok [] s = refl
  delete_intervals-ok (m ∷ ms) s =
      rw (delete_interval-ok m s) (delete_intervals-ok ms (deletion interval m s))

  pub delete_timeouts-ok :
      (ms : List ℕ) (s : Scheduler R) → delete_timeouts reg ms s ≡ (ok tt, deletions timeout ms s)
  unfolding delete_timeouts deletions ◌>>=◌ return
  delete_timeouts-ok [] s = refl
  delete_timeouts-ok (m ∷ ms) s =
      rw (delete_timeout-ok m s) (delete_timeouts-ok ms (deletion timeout m s))

  -- Jobs of other kinds stay.
  pub deletion-other :
      (k l : Kind) (n m : ℕ) (s : Scheduler R)
      → kind_eq l k ≡ false
      → reg.exists l n (deletion k m s).registry ≡ reg.exists l n s.registry
  deletion-other k l n m s e =
      rw (deletion-registry k m s) (elim (Bool-cases (reg.exists k m s.registry)) [
        | inl there ↦ rw there (reg.exists_remove l k n m s.registry ∙ rw e refl)
        | inr gone ↦ rw gone refl
      ])

  pub deletions-other :
      (k l : Kind) (n : ℕ) (ms : List ℕ) (s : Scheduler R)
      → kind_eq l k ≡ false
      → reg.exists l n (deletions k ms s).registry ≡ reg.exists l n s.registry
  unfolding deletions
  deletions-other k l n [] s e = refl
  deletions-other k l n (m ∷ ms) s e =
      deletions-other k l n ms (deletion k m s) e ∙ deletion-other k l n m s e

  pub deletion-managed_other :
      (k l : Kind) (m : ℕ) (s : Scheduler R)
      → kind_eq l k ≡ false
      → managed l (deletion k m s) ≡ managed l s
  unfolding deletion
  deletion-managed_other cron interval m s e = refl
  deletion-managed_other cron timeout m s e = refl
  deletion-managed_other interval cron m s e = refl
  deletion-managed_other interval timeout m s e = refl
  deletion-managed_other timeout cron m s e = refl
  deletion-managed_other timeout interval m s e = refl
  deletion-managed_other cron cron m s e = absurd (cc e)
  deletion-managed_other interval interval m s e = absurd (cc e)
  deletion-managed_other timeout timeout m s e = absurd (cc e)

  pub deletions-managed_other :
      (k l : Kind) (ms : List ℕ) (s : Scheduler R)
      → kind_eq l k ≡ false
      → managed l (deletions k ms s) ≡ managed l s
  unfolding deletions
  deletions-managed_other k l [] s e = refl
  deletions-managed_other k l (m ∷ ms) s e =
      deletions-managed_other k l ms (deletion k m s) e ∙ deletion-managed_other k l m s e
