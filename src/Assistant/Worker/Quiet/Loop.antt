-- ===== src/Assistant/Worker/Quiet/Loop.antt =====
-- The loop over the keys, while nobody else runs.
use gnester_lite.Common.{
  ℕ, zero, suc, ◌≤◌, ◌≡◌, refl, ap, Bool, true, false, ◌&&◌, is_empty, Option, none, some, [], any,
  count_where, arith, Text, Bool-cases, inl, inr, Program, ok, ◌>>=◌, ◌>>◌, return, write, when,
  Meets, Meets-return, Meets-throw, Meets-write, Meets-require, Meets-when, Meets-bind, Meets-pre,
  Failure,
}
use gnester_lite.Assistant.Store.{Key, KeyError, Store, credential, model_unavailable, model_error}
use gnester_lite.Assistant.Generation.{
  Generation, generating_answer, is_generating, fail_answer, completing, selecting_completed,
}
use gnester_lite.Assistant.Selection.{has_no_error}
use gnester_lite.Assistant.Configuration.Preferences.{repairing, repair_default}
use gnester_lite.Assistant.Configuration.Catalog.{retiring, retire_model}
use gnester_lite.Assistant.Configuration.Keys.{failing_key, mark_key_failure}
use gnester_lite.Assistant.Providers.{credential_failure, is_missing_model_failure}
use gnester_lite.Assistant.Worker.{
  World, Answers, Streamed, ended, broken, left, await, resume, fall_back, retire, finish, settle,
  request, attempt, again, attempts, work_with, work, give_up,
}
use gnester_lite.Assistant.Worker.Quiet.{
  Alone, Live, Idle, completing-Idle, selecting_completed-Idle, count_where-any,
}
use gnester_lite.Assistant.Worker.Quiet.Calls.{
  Meets-await, Meets-known, Meets-written, Meets-seen, Fit, generation_key-Fit,
  next_generation_key-Fit, model_for, mark_key_failure-ok, failing_key-fewer, repairing-rest,
}
use gnester_lite.Assistant.Worker.Quiet.Ends.{
  AllFlow, Throws, Read, Trying, Alone-quiet, Trying-quiet, Trying-local, Idle-quiet, fail-meets,
  aborted-meets, stream-meets, may_request-meets, reserve-meets,
}

module _ (id : ℕ) (g : Generation) where
  -- The answer is being generated after a key failed, and at most so many keys are without one.
  pub record Failed (n : ℕ) (w : World) : Type 0 where
    pub live : Live id g w
    pub few : count_where has_no_error w.store.keys ≤ n

  -- What an attempt leaves: an answer that ended, or a key to try.
  abbrev pub Next : ℕ → Option Key → World → Type 0
  Next n none w = Idle id w
  Next n (some k) w = Trying id g n k w

  -- The key selected, if any, fits.
  abbrev Known : ℕ → ℕ → Option Key → World → Type 0
  Known n user_id next w =
      Failed n w × ((k : Key) → next ≡ some k → Fit w.store user_id (model_for id g) k)

  Failed-quiet : (n : ℕ) (w : World) → Failed n w → w.others ≡ []
  Failed-quiet n w h = h.live.alone.quiet

  -- A write that leaves the answers and the controllers alone.
  Live-kept :
      (w : World) (s : Store)
      → s.answers ≡ w.store.answers
      → s.controllers ≡ w.store.controllers
      → Live id g w
      → Live id g (record w { store = s })
  Live-kept w s e d h = record {
    alone = record {
      quiet = h.alone.quiet;
      single = rw e h.alone.single;
      unqueued = rw e h.alone.unqueued;
    };
    running = rw e h.running;
    on = rw d h.on;
  }

  module _ (respond : Answers) where
    retire_model-kept :
        (s : Store)
        → (rows : _) × (retire_model g.user_id (model_for id g) s
            ≡ (ok tt, record (retiring g.user_id (model_for id g) s) { preferences = rows }))
    unfolding retire_model repair_default ◌>>=◌ write
    retire_model-kept s =
        let t = retiring g.user_id (model_for id g) s in
        (
          (repairing g.user_id t).preferences,
          ap (λ (x : Store). (ok tt, x)) (repairing-rest g.user_id t),
        )

    retire-meets :
        (n N : ℕ) (k : Key) → Meets (Trying id g N k) (retire respond id g) (Next n) (Throws id)
    unfolding retire retiring
    retire-meets n N k =
        Meets-bind {R = λ _. Live id g}
          (Meets-await _ (Trying-quiet id g N k) (
            Meets-known _ λ w h.
              let (rows, e) = retire_model-kept w.store in
              (tt, _, e, Live-kept w _ refl refl h.live)))
          λ _.
            Meets-bind (fail-meets id g model_unavailable (λ w h. h.alone))
              λ _. Meets-return none (λ w h. h)

    resume-meets :
        (n : ℕ) (code : KeyError) (next : Option Key)
        → Meets
            (λ w.
              Failed n w × ((k : Key) → next ≡ some k → Fit w.store g.user_id (model_for id g) k))
            (resume respond id g code next)
            (Next n)
            (Throws id)
    unfolding resume
    resume-meets n code none =
        Meets-bind (fail-meets id g (credential code) (λ w h. h.0.live.alone))
          λ _. Meets-return none (λ w h. h)
    resume-meets n code (some k) =
        Meets-return (some k) (λ w h. record { live = h.0.live; fit = h.1 k refl; few = h.0.few })

    marked :
        (n : ℕ) (k : Key) (code : KeyError) (w : World) (s : Store)
        → s.answers ≡ w.store.answers
        → s.controllers ≡ w.store.controllers
        → s.keys ≡ (failing_key k.id code w.store).keys
        → Trying id g (suc n) k w
        → Failed n (record w { store = s })
    marked n k code w s e d keys h = record {
      live = Live-kept w s e d h.live;
      few =
          rw keys (
            omega
              (arith, h.few, failing_key-fewer w.store g.user_id (model_for id g) k code h.fit));
    }

    mark-meets :
        (n : ℕ) (k : Key) (code : KeyError)
        → Meets
            (Trying id g (suc n) k)
            (await (mark_key_failure k.id code))
            (λ _. Failed n)
            (Throws id)
    unfolding failing_key
    mark-meets n k code = Meets-await _ (Trying-quiet id g (suc n) k) (
        Meets-known _ λ w h.
          let (rows, e) = mark_key_failure-ok k.id code w.store in
          (tt, _, e, marked n k code w _ refl refl refl h))

    fall_back-meets :
        (n : ℕ) (k : Key) (code : Option KeyError) (content : Text)
        → Meets (Trying id g (suc n) k) (fall_back respond id g k code content) (Next n) (Throws id)
    unfolding fall_back
    fall_back-meets n k none content = Meets-throw _ (λ w h. (refl, h.live.alone))
    fall_back-meets n k (some code) content = Meets-bind (aborted-meets id g (suc n) k) λ is_off.
        Meets-bind {R = λ _. Trying id g (suc n) k}
          (Meets-require _ _ (λ w e h. h.1) (λ w h. (refl, h.1.live.alone)))
          λ _. Meets-bind (mark-meets n k code) λ _.
            Meets-bind
              (Meets-await _ (Failed-quiet n) (
                Meets-seen _ (λ w h.
                  (h, λ x e. next_generation_key-Fit w.store g.user_id (model_for id g) k.id x e))))
              λ next.
                Meets-bind {R = λ _. Known n g.user_id next}
                  (Meets-require _ _ (λ w e h. h) (λ w h. (refl, h.0.live.alone)))
                  λ _. resume-meets n code next

    finish-meets :
        (n N : ℕ) (k : Key) (content : Text) (is_off : Bool)
        → Meets
            (λ w. (is_off ≡ false) × Trying id g N k w)
            (finish respond id g content is_off)
            (Next n)
            (Throws id)
    unfolding finish
    finish-meets n N k content true = record { run = λ w p. absurd (cc p.0) }
    finish-meets n N k content false =
        Meets-bind {R = λ _. Idle id}
          (Meets-await _ (λ w p. Trying-quiet id g N k w p.1)
            (Meets-written (completing id content)
              (λ w p. completing-Idle id g w content p.1.live)))
          λ _.
            Meets-bind {R = λ _. Idle id}
              (Meets-await _ (Idle-quiet id g)
                (Meets-written (selecting_completed id) (selecting_completed-Idle id g)))
              λ _. Meets-return none (λ w h. h)

    settle-meets :
        (n : ℕ) (k : Key) (o : Streamed)
        → Meets
            (λ w. Read o × Trying id g (suc n) k w)
            (settle respond id g k o)
            (Next n)
            (Throws id)
    unfolding settle
    settle-meets n k left = record { run = λ w p. absurd p.0 }
    settle-meets n k (ended content) =
        Meets-pre (λ w p. p.1)
          (Meets-bind (aborted-meets id g (suc n) k)
            λ is_off. finish-meets n (suc n) k content is_off)
    settle-meets n k (broken content e) =
        Meets-pre (λ w p. p.1)
          (elim (Bool-cases (is_empty content && is_missing_model_failure e)) [
            | inl missing ↦ rw missing (retire-meets n (suc n) k)
            | inr present ↦
                rw present (fall_back-meets n k (credential_failure e g.provider) content)
          ])

    request-meets :
        (n : ℕ) (k : Key) (may : Bool)
        → AllFlow (respond.parts n k)
        → Meets
            (λ w. (may ≡ true) × Trying id g (suc n) k w)
            (request respond id g n k may)
            (Next n)
            (Throws id)
    unfolding request
    request-meets n k false flows = record { run = λ w p. absurd (cc p.0) }
    request-meets n k true flows =
        Meets-pre (λ w p. p.1)
          (Meets-bind (stream-meets id g (suc n) k [] (respond.parts n k) flows)
            λ o. settle-meets n k o)

    attempt-meets :
        (n : ℕ) (k : Key)
        → AllFlow (respond.parts n k)
        → Meets (Trying id g (suc n) k) (attempt respond id g n k) (Next n) (Throws id)
    unfolding attempt
    attempt-meets n k flows =
        Meets-bind {R = λ _. Trying id g (suc n) k}
          (Meets-write _ (λ w h. Trying-local id g (suc n) k w _ refl refl h))
          λ _. Meets-bind (reserve-meets id g (suc n) k) λ reserved.
            Meets-bind (may_request-meets id g (suc n) k respond reserved)
              λ may. request-meets n k may flows

    -- What the loop over the keys leaves.
    abbrev pub Ended : Bool → World → Type 0
    Ended b w = (b ≡ true) × Idle id w

    again-meets :
        (n : ℕ) (next : Option Key) (f : Key → Program World Bool)
        → ((k : Key) → Meets (Trying id g n k) (f k) Ended (Throws id))
        → Meets (Next n next) (again respond id g next f) Ended (Throws id)
    unfolding again
    again-meets n none f h = Meets-return true (λ w p. (refl, p))
    again-meets n (some k) f h = h k

    module _ (flows : (n : ℕ) (k : Key) → AllFlow (respond.parts n k)) where
      attempts-meets :
          (n : ℕ) (k : Key) → Meets (Trying id g n k) (attempts respond id g n k) Ended (Throws id)
      unfolding attempts
      attempts-meets zero k = record { run = λ w h. absurd (omega (arith, h.few, one w h)) }
        where
          one : (w : World) → Trying id g zero k w → 1 ≤ count_where has_no_error w.store.keys
          one w h =
              count_where-any has_no_error w.store.keys (h.fit.held has_no_error h.fit.healthy)
      attempts-meets (suc n) k =
          Meets-bind (attempt-meets n k (flows n k))
            λ next. again-meets n next (attempts respond id g n) (attempts-meets n)

      work_with-meets :
          (n : ℕ) (next : Option Key)
          → Meets
              (λ w.
                Failed n w × ((k : Key) → next ≡ some k → Fit w.store g.user_id (model_for id g) k))
              (work_with respond id g n next)
              Ended
              (Throws id)
      unfolding work_with
      work_with-meets n none =
          Meets-bind (fail-meets id g model_unavailable (λ w h. h.0.live.alone))
            λ _. Meets-return true (λ w h. (refl, h))
      work_with-meets n (some k) =
          Meets-pre (λ w h. record { live = h.0.live; fit = h.1 k refl; few = h.0.few })
            (attempts-meets n k)

      pub work-meets : (n : ℕ) → Meets (Failed n) (work respond id g n) Ended (Throws id)
      unfolding work
      work-meets n =
          Meets-bind
            (Meets-await _ (Failed-quiet n) (
              Meets-seen _ (λ w h.
                (h, λ x e. generation_key-Fit w.store g.user_id (model_for id g) g.key_id x e))))
            λ next.
              Meets-bind {R = λ _. Known n g.user_id next}
                (Meets-require _ _ (λ w e h. h) (λ w h. (refl, h.0.live.alone)))
                λ _. work_with-meets n next

    give_up-tail :
        {E : Failure → World → Type 0} (running : Bool)
        → Meets
            (λ w. Alone id w × (any (generating_answer id) w.store.answers ≡ running))
            (when running (await (fail_answer id model_error)) >> return true)
            Ended
            E
    give_up-tail running =
        Meets-bind {R = λ _. Idle id}
          (Meets-when running _ (λ e. fail-meets id g model_error (λ w h. h.0))
            (λ w e h. record { alone = h.0; idle = cc (e, h.1) }))
          λ _. Meets-return true (λ w h. (refl, h))

    pub give_up-meets :
        {E : Failure → World → Type 0} → Meets (Alone id) (give_up respond id g) Ended E
    unfolding give_up is_generating
    give_up-meets =
        Meets-bind (Meets-await _ (Alone-quiet id g) (Meets-seen _ (λ w h. (h, refl))))
          λ running. give_up-tail running
