-- ===== src/Infra/Queue/Capacity.antt =====
-- Producers that share one queue and its lock, in any interleaving: each acquires the lock, counts the
-- pending jobs, publishes or gives up, and releases the lock.
use gnester_lite.Common.{
  ℕ, ◌+◌, ◌-◌, ◌≤◌, ◌<◌, ◌≡◌, refl, ap, sym, ◌∙◌, true, false, ◌==◌, ==_iff, arith, leb, ltb,
  if◌then◌else◌, Bool-cases, inl, inr, Option, none, some,
}
use gnester_lite.Infra.Queue.{
  Lock, live, acquire_script, set_if_absent, release_script, lock_ttl_ms,
}

-- Where a producer is: before its lock, with the lock since an instant, with the count that it read,
-- and after its operation.
pub data Stage : Type 0 where
  outside : Stage
  locked : ℕ → Stage
  counted : ℕ → ℕ → Stage
  leaving : ℕ → Stage

-- A producer is named by its token, which is its own.
pub record Shared : Type 0 where
  pub now : ℕ
  pub lock : Option Lock
  pub pending : ℕ
  pub stage : ℕ → Stage

abbrev pub set_stage : ℕ → Stage → (ℕ → Stage) → ℕ → Stage
set_stage p x f q = if q == p then x else f q

-- What producers do to the shared state.
abbrev pub acquiring : ℕ → Shared → Shared
acquiring p s = record s {
  lock = (acquire_script s.now p lock_ttl_ms s.lock).1;
  stage = set_stage p (locked s.now) s.stage;
}

abbrev pub counting : ℕ → ℕ → Shared → Shared
counting p t s = record s { stage = set_stage p (counted t s.pending) s.stage }

abbrev pub publishing : ℕ → ℕ → ℕ → Shared → Shared
publishing p t n s = record s { pending = s.pending + n; stage = set_stage p (leaving t) s.stage }

abbrev pub releasing : ℕ → Shared → Shared
releasing p s = record s {
  lock = release_script s.now p s.lock;
  stage = set_stage p outside s.stage;
}

-- The steps under a capacity.
pub data Step (maximum : ℕ) : Shared → Shared → Type 0 where
  elapses : (d : ℕ) (s : Shared) → Step maximum s (record s { now = s.now + d })
  acquires :
      (p : ℕ) (s : Shared)
      → s.stage p ≡ outside
      → (acquire_script s.now p lock_ttl_ms s.lock).0 ≡ true
      → Step maximum s (acquiring p s)
  counts : (p t : ℕ) (s : Shared) → s.stage p ≡ locked t → Step maximum s (counting p t s)
  publishes :
      (p t c n : ℕ) (s : Shared)
      → s.stage p ≡ counted t c
      → leb (c + n) maximum ≡ true
      → Step maximum s (publishing p t n s)
  releases : (p : ℕ) (s : Shared) → Step maximum s (releasing p s)
  consumes : (n : ℕ) (s : Shared) → Step maximum s (record s { pending = s.pending - n })

pub data Steps (maximum : ℕ) : Shared → Shared → Type 0 where
  done : (s : Shared) → Steps maximum s s
  later : (s t u : Shared) → Step maximum s t → Steps maximum t u → Steps maximum s u

-- Each producer publishes before its lock expires, as it does where the operation of the library is
-- confirmed within the time that `perform` allows, which is less than the lock's.
abbrev pub InTime : (maximum : ℕ) (s t : Shared) → Step maximum s t → Type 0
InTime maximum s t (publishes p u c n _ at fits) = s.now < u + lock_ttl_ms
InTime maximum s t _ = Unit {0}

abbrev pub Timely : (maximum : ℕ) (s t : Shared) → Steps maximum s t → Type 0
Timely maximum s t (done _) = Unit {0}
Timely maximum s t (later _ m _ e es) = InTime maximum s m e × Timely maximum m t es

-- Since when a producer holds the lock, where it is inside.
abbrev pub since : Stage → Option ℕ
since outside = none
since (locked t) = some t
since (counted t c) = some t
since (leaving t) = some t

abbrev owned_by : ℕ → ℕ → Option Lock
owned_by p t = some (record { token = p; expires_at = t + lock_ttl_ms })

pub record Valid (maximum : ℕ) (s : Shared) : Type 0 where
  pub bounded : s.pending ≤ maximum
  -- A producer inside, whose lock has not expired, has it.
  pub held :
      (p t : ℕ) → since (s.stage p) ≡ some t → s.now < t + lock_ttl_ms → s.lock ≡ owned_by p t
  -- Nothing was published since a producer counted, while it has the lock.
  pub fresh : (p t c : ℕ) → s.stage p ≡ counted t c → s.now < t + lock_ttl_ms → s.pending ≤ c

leb_le : (a b : ℕ) → leb a b ≡ true → a ≤ b
leb_le a b h = ground (arith, h)

module _ (p : ℕ) (x : Stage) (f : ℕ → Stage) where
  stage_here : (q : ℕ) → (q == p) ≡ true → set_stage p x f q ≡ x
  stage_here q h = rw h refl

  stage_there : (q : ℕ) → (q == p) ≡ false → set_stage p x f q ≡ f q
  stage_there q h = rw h refl

live_owned : (now p t : ℕ) → now < t + lock_ttl_ms → live now (owned_by p t) ≡ owned_by p t
live_owned now p t h = rw (early now p t h) refl
  where
    early : (now p t : ℕ) → now < t + lock_ttl_ms → ltb now (t + lock_ttl_ms) ≡ true
    early now p t h = ground (arith, h)

-- A lock that somebody has is not given to another.
refused :
    (now p q t : ℕ)
    → now < t + lock_ttl_ms
    → (acquire_script now p lock_ttl_ms (owned_by q t)).0 ≡ false
unfolding acquire_script
refused now p q t h = rw (live_owned now q t h) refl

given :
    (now p : ℕ) (lock : Option Lock)
    → (acquire_script now p lock_ttl_ms lock).0 ≡ true
    → (acquire_script now p lock_ttl_ms lock).1 ≡ owned_by p now
unfolding acquire_script
given now p lock h = go (live now lock) h
  where
    go :
        (l : Option Lock)
        → (set_if_absent now p lock_ttl_ms l).0 ≡ true
        → (set_if_absent now p lock_ttl_ms l).1 ≡ owned_by p now
    go none h = refl
    go (some l) h = absurd (cc h)

-- The release of another leaves a lock that has not expired.
kept :
    (now p q t : ℕ)
    → (q == p) ≡ false
    → now < t + lock_ttl_ms
    → release_script now p (owned_by q t) ≡ owned_by q t
unfolding release_script
kept now p q t other h = rw (live_owned now q t h) (rw other refl)

module _ (maximum : ℕ) where
  elapses-Valid :
      (d : ℕ) (s : Shared) → Valid maximum s → Valid maximum (record s { now = s.now + d })
  elapses-Valid d s v = record {
    bounded = v.bounded;
    held = λ p t e h. v.held p t e (omega (arith, h));
    fresh = λ p t c e h. v.fresh p t c e (omega (arith, h));
  }

  consumes-Valid :
      (n : ℕ) (s : Shared) → Valid maximum s → Valid maximum (record s { pending = s.pending - n })
  consumes-Valid n s v = record {
    bounded = omega (arith, v.bounded);
    held = v.held;
    fresh = λ p t c e h. omega (arith, v.fresh p t c e h);
  }

  module _ (p : ℕ) (s : Shared) (v : Valid maximum s) where
    acquires-Valid :
        (acquire_script s.now p lock_ttl_ms s.lock).0 ≡ true → Valid maximum (acquiring p s)
    acquires-Valid got = record {
      bounded = v.bounded;
      held = λ q t e h. elim (Bool-cases (q == p)) [
        | inl here ↦
            given s.now p s.lock got
            ∙ mine q t here (ap since (sym (stage_here p (locked s.now) s.stage q here)) ∙ e)
        | inr there ↦ absurd (
            cc (
              sym got,
              ap (λ (l : Option Lock). (acquire_script s.now p lock_ttl_ms l).0)
                  (v.held q t (ap since (sym (stage_there p (locked s.now) s.stage q there)) ∙ e)
                    h),
              refused s.now p q t h,
            ))
      ];
      fresh = λ q t c e h. elim (Bool-cases (q == p)) [
        | inl here ↦ absurd (cc (sym (stage_here p (locked s.now) s.stage q here), e))
        | inr there ↦ v.fresh q t c (sym (stage_there p (locked s.now) s.stage q there) ∙ e) h
      ];
    }
      where
        mine : (q t : ℕ) → (q == p) ≡ true → some s.now ≡ some t → owned_by p s.now ≡ owned_by q t
        mine q t here e = ground (arith, here, e)

    counts-Valid : (t : ℕ) → s.stage p ≡ locked t → Valid maximum (counting p t s)
    counts-Valid t at = record {
      bounded = v.bounded;
      held = λ q u e h. elim (Bool-cases (q == p)) [
        | inl here ↦
            v.held q u
              (ap since (before q here)
                ∙ ap since (sym (stage_here p (counted t s.pending) s.stage q here))
                ∙ e)
              h
        | inr there ↦
            v.held q u (ap since (sym (stage_there p (counted t s.pending) s.stage q there)) ∙ e) h
      ];
      fresh = λ q u c e h. elim (Bool-cases (q == p)) [
        | inl here ↦ read_now u c (sym (stage_here p (counted t s.pending) s.stage q here) ∙ e)
        | inr there ↦
            v.fresh q u c (sym (stage_there p (counted t s.pending) s.stage q there) ∙ e) h
      ];
    }
      where
        before : (q : ℕ) → (q == p) ≡ true → s.stage q ≡ locked t
        before q here = ap s.stage ((==_iff q p).0 here) ∙ at

        read_now : (u c : ℕ) → counted t s.pending ≡ counted u c → s.pending ≤ c
        read_now u c e = ground (arith, e)

    publishes-Valid :
        (t c n : ℕ)
        → s.stage p ≡ counted t c
        → leb (c + n) maximum ≡ true
        → s.now < t + lock_ttl_ms
        → Valid maximum (publishing p t n s)
    publishes-Valid t c n at fits early = record {
      bounded = room (v.fresh p t c at early);
      held = λ q u e h. elim (Bool-cases (q == p)) [
        | inl here ↦
            v.held q u
              (ap since (ap s.stage ((==_iff q p).0 here) ∙ at)
                ∙ ap since (sym (stage_here p (leaving t) s.stage q here))
                ∙ e)
              h
        | inr there ↦ v.held q u (ap since (sym (stage_there p (leaving t) s.stage q there)) ∙ e) h
      ];
      fresh = λ q u d e h. elim (Bool-cases (q == p)) [
        | inl here ↦ absurd (cc (sym (stage_here p (leaving t) s.stage q here), e))
        | inr there ↦
            let inside = sym (stage_there p (leaving t) s.stage q there) ∙ e in
            absurd (
              alone q u there
                (sym (v.held q u (ap since inside) h) ∙ v.held p t (ap since at) early))
      ];
    }
      where
        room : s.pending ≤ c → s.pending + n ≤ maximum
        room h = omega (arith, h, (leb_le (c + n) maximum fits))

        alone : (q u : ℕ) → (q == p) ≡ false → owned_by q u ≡ owned_by p t → ⊥
        alone q u there e = ground (arith, there, e)

    releases-Valid : Valid maximum (releasing p s)
    releases-Valid = record {
      bounded = v.bounded;
      held = λ q t e h. elim (Bool-cases (q == p)) [
        | inl here ↦ absurd (cc (ap since (sym (stage_here p outside s.stage q here)) ∙ e))
        | inr there ↦
            ap (release_script s.now p)
              (v.held q t (ap since (sym (stage_there p outside s.stage q there)) ∙ e) h)
            ∙ kept s.now p q t there h
      ];
      fresh = λ q t c e h. elim (Bool-cases (q == p)) [
        | inl here ↦ absurd (cc (sym (stage_here p outside s.stage q here), e))
        | inr there ↦ v.fresh q t c (sym (stage_there p outside s.stage q there) ∙ e) h
      ];
    }

  Step-Valid :
      (s t : Shared) (e : Step maximum s t)
      → InTime maximum s t e
      → Valid maximum s
      → Valid maximum t
  Step-Valid s t (elapses d _) early v = elapses-Valid d s v
  Step-Valid s t (acquires p _ at got) early v = acquires-Valid p s v got
  Step-Valid s t (counts p u _ at) early v = counts-Valid p s v u at
  Step-Valid s t (publishes p u c n _ at fits) early v = publishes-Valid p s v u c n at fits early
  Step-Valid s t (releases p _) early v = releases-Valid p s v
  Step-Valid s t (consumes n _) early v = consumes-Valid n s v

  Steps-Valid :
      (s t : Shared) (es : Steps maximum s t)
      → Timely maximum s t es
      → Valid maximum s
      → Valid maximum t
  Steps-Valid s t (done _) early v = v
  Steps-Valid s t (later _ m _ e es) early v =
      Steps-Valid m t es early.1 (Step-Valid s m e early.0 v)

-- However producers and workers interleave, the pending jobs stay within the capacity, if no producer
-- was inside at the start and each publishes before its lock expires.
pub Steps-bounded :
    (maximum : ℕ) (s t : Shared)
    → s.pending ≤ maximum
    → ((p : ℕ) → s.stage p ≡ outside)
    → (es : Steps maximum s t) → Timely maximum s t es
    → t.pending ≤ maximum
Steps-bounded maximum s t h idle es early =
    (Steps-Valid maximum s t es early (record {
      bounded = h;
      held = λ p u e k. absurd (cc (ap since (sym (idle p)) ∙ e));
      fresh = λ p u c e k. absurd (cc (sym (idle p), e));
    })).bounded
