-- ===== src/Assistant/Worker/Quiet/Final.antt =====
-- A generation from its start to the release of its controller, while nobody else runs.
use gnester_lite.Common.{
  ℕ, ◌≡◌, refl, ap, ◌∙◌, Bool, true, false, not, ◌&&◌, ◌==◌, Option, none, some, List, [], ◌∷◌,
  ==-refl, any, any-delete_where, arith, Result, ok, err, ◌>>=◌, read, write, when, Meets, Outcome,
  Meets-return, Meets-read, Meets-write, Meets-bind, Meets-catch, Meets-pre, finished_meets,
  Failure, catch, endless,
}
use gnester_lite.Assistant.Store.{Answer, Turn, Key, Store, is_active}
use gnester_lite.Assistant.Generation.{Generation, generating_answer, register, release}
use gnester_lite.Assistant.Configuration.Keys.{
  finish_key_deletion, is_generated_with, removing_pending,
}
use gnester_lite.Assistant.Worker.{
  World, Answers, clean_after, on_failure, work, work_and_clean_up, on_store, mark_checkpoint,
  finish_deletions, clean_up, generate_from, generate_row, generate,
}
use gnester_lite.Assistant.Worker.Quiet.{Idle, queued_row}
use gnester_lite.Assistant.Worker.Quiet.Calls.{Meets-wait, Meets-await, Meets-known}
use gnester_lite.Assistant.Worker.Quiet.Ends.{AllFlow, Throws}
use gnester_lite.Assistant.Worker.Quiet.Loop.{Failed, Ended, work-meets, give_up-meets}
use gnester_lite.Assistant.Worker.Quiet.Begin.{
  has_controller, Job, Over, Begun, AfterStart, start-meets, registered_on,
}

module _ (id : ℕ) (g : Generation) (fuel : ℕ) where
  register-kept :
      (w : World)
      → Begun id fuel g w
      → Failed id g fuel (record w { store = (register id w.store).1 })
  unfolding register write
  register-kept w h = record {
    live = record {
      alone = record {
        quiet = h.alone.quiet;
        single = h.alone.single;
        unqueued = h.alone.unqueued;
      };
      running = h.running;
      on = rw (==-refl id) (registered_on id w.store.controllers);
    };
    few = h.fuelled;
  }

  register-meets :
      {E : Failure → World → Type 0}
      → Meets (Begun id fuel g) (on_store (register id)) (λ _. Failed id g fuel) E
  unfolding register write
  register-meets = Meets-known _ (λ w h. (tt, _, refl, register-kept w h))

  release-Over : (w : World) → Idle id w → Over id (record w { store = (release id w.store).1 })
  unfolding release write
  release-Over w h = record {
    idle = record {
      alone = record {
        quiet = h.alone.quiet;
        single = h.alone.single;
        unqueued = h.alone.unqueued;
      };
      idle = h.idle;
    };
    released = any-delete_where _ _ w.store.controllers (λ c e. e);
  }

  release-meets :
      {E : Failure → World → Type 0} (X : Type 0)
      → Meets (λ w. X × Idle id w) (on_store (release id)) (λ _ w. X × Over id w) E
  unfolding release write
  release-meets X = Meets-known _ (λ w h. (tt, _, refl, (h.0, release-Over w h.1)))

  Failed-local :
      (w v : World)
      → v.store ≡ w.store
      → v.others ≡ w.others
      → Failed id g fuel w
      → Failed id g fuel v
  Failed-local w v e d h = record {
    live = record {
      alone = record {
        quiet = d ∙ h.live.alone.quiet;
        single = rw e h.live.alone.single;
        unqueued = rw e h.live.alone.unqueued;
      };
      running = rw e h.live.running;
      on = rw e h.live.on;
    };
    few = rw e h.few;
  }

  Over-kept :
      (w : World) (s : Store)
      → s.answers ≡ w.store.answers
      → s.controllers ≡ w.store.controllers
      → Over id w
      → Over id (record w { store = s })
  Over-kept w s e d h = record {
    idle = record {
      alone = record {
        quiet = h.idle.alone.quiet;
        single = rw e h.idle.alone.single;
        unqueued = rw e h.idle.alone.unqueued;
      };
      idle = rw e h.idle.idle;
    };
    released = rw d h.released;
  }

  finish-tail :
      (key_id : ℕ) (busy : Bool) (s : Store)
      → (t : Store) × (when (not busy) (write (removing_pending key_id)) s ≡ (ok tt, t))
        × (t.answers ≡ s.answers)
        × (t.controllers ≡ s.controllers)
  unfolding when write removing_pending
  finish-tail key_id true s = (s, refl, refl, refl)
  finish-tail key_id false s = (_, refl, refl, refl)

  finish_key_deletion-ok :
      (key_id : ℕ) (s : Store)
      → (t : Store) × (finish_key_deletion key_id s ≡ (ok tt, t))
        × (t.answers ≡ s.answers)
        × (t.controllers ≡ s.controllers)
  unfolding finish_key_deletion ◌>>=◌ read
  finish_key_deletion-ok key_id s = finish-tail key_id (any (is_generated_with key_id) s.answers) s

  module _ (respond : Answers) where
    finish_deletions-meets :
        {E : Failure → World → Type 0} (X : Type 0) (keys : List ℕ)
        → Meets (λ w. X × Over id w) (finish_deletions respond id g keys) (λ _ w. X × Over id w) E
    unfolding finish_deletions
    finish_deletions-meets X [] = Meets-return tt (λ w h. h)
    finish_deletions-meets X (k ∷ keys) =
        Meets-bind
          (Meets-await _ (λ w h. h.1.idle.alone.quiet)
            (Meets-known _ λ w h.
              let (s, e, rows, cs) = finish_key_deletion-ok k w.store in
              (tt, s, e, (h.0, Over-kept w s rows cs h.1))))
          λ _. finish_deletions-meets X keys

    clean_up-meets :
        {E : Failure → World → Type 0} (b : Bool)
        → Meets (Ended id g respond b) (clean_up respond id g) (λ _ w. (b ≡ true) × Over id w) E
    unfolding clean_up
    clean_up-meets b =
        Meets-bind {R = λ _ w. (b ≡ true) × Over id w} (release-meets (b ≡ true)) λ _.
          Meets-bind {R = λ _ w. (b ≡ true) × Over id w} (Meets-read _ (λ w h. h))
            λ keys. finish_deletions-meets (b ≡ true) keys

    on_failure-meets :
        (e : Failure)
        → Meets (Throws id e) (on_failure respond id g e) (Ended id g respond) (λ e w. ⊥)
    unfolding on_failure
    on_failure-meets endless = record { run = λ w h. absurd (cc h.0) }
    on_failure-meets e = Meets-pre (λ w h. h.1) (give_up-meets id g respond)

    impossible : (e : Failure) → Meets (λ w. ⊥) (clean_up respond id g) (λ _ w. ⊥) (λ x w. ⊥)
    impossible e = record { run = λ w h. absurd h }

    cleaned_lem :
        (r : Result Bool × World)
        → Outcome (Ended id g respond) (λ e w. ⊥) r
        → Outcome (λ b w. (b ≡ true) × Over id w) (λ e w. ⊥) (clean_after respond id g r)
    cleaned_lem (ok b, w) h =
        finished_meets (Ended id g respond) (λ x v. (x ≡ true) × Over id v) (clean_up respond id g)
          (ok b, w) h clean_up-meets impossible
    cleaned_lem (err e, w) h = absurd h

    Meets-cleaned :
        (P : World → Type 0)
        → Meets P
            (catch (work respond id g fuel) (on_failure respond id g))
            (Ended id g respond)
            (λ e w. ⊥)
        → Meets P (work_and_clean_up respond id g fuel) (λ b w. (b ≡ true) × Over id w) (λ e w. ⊥)
    unfolding work_and_clean_up
    Meets-cleaned P h = record { run = λ w p. cleaned_lem _ (h.run w p) }

    pub generate_from-meets :
        (flows : (n : ℕ) (k : Key) → AllFlow (respond.parts n k))
        → Meets
            (Begun id fuel g)
            (generate_from respond id g fuel)
            (λ b w. (b ≡ true) × Over id w)
            (λ e w. ⊥)
    unfolding generate_from mark_checkpoint
    generate_from-meets flows = Meets-bind (Meets-wait (λ w h. h.alone.quiet)) λ _.
        Meets-bind register-meets λ _.
          Meets-bind {R = λ _. Failed id g fuel}
            (Meets-write _ (λ w h. Failed-local w _ refl refl h))
            λ _. Meets-cleaned _ (Meets-catch (work-meets id g respond flows fuel) on_failure-meets)

module _ (id : ℕ) (fuel : ℕ) (respond : Answers) where
  generate_row-meets :
      (flows : (n : ℕ) (k : Key) → AllFlow (respond.parts n k)) (o : Option Generation)
      → Meets
          (AfterStart id fuel o)
          (generate_row respond fuel id o)
          (λ b w. (b ≡ true) × Over id w)
          (λ e w. ⊥)
  unfolding generate_row
  generate_row-meets flows none = Meets-return true (λ w h. (refl, h))
  generate_row-meets flows (some g) = generate_from-meets id g fuel respond flows

  generate-meets :
      (flows : (n : ℕ) (k : Key) → AllFlow (respond.parts n k)) (a : Answer) (t : Turn)
      → Meets
          (Job id a t fuel)
          (generate respond fuel id)
          (λ b w. (b ≡ true) × Over id w)
          (λ e w. ⊥)
  unfolding generate
  generate-meets flows a t =
      Meets-bind {R = λ _. Job id a t fuel} (Meets-write _ (λ w j. Job-local w j))
        λ _. Meets-bind (start-meets id a t fuel) λ g. generate_row-meets flows g
    where
      Job-local : (w : World) → Job id a t fuel w → Job id a t fuel (record w { attempted = [] })
      Job-local w j = record {
        quiet = j.quiet;
        known = j.known;
        waiting = j.waiting;
        turn = j.turn;
        fresh = j.fresh;
        fuelled = j.fuelled;
      }

idle_inactive :
    (id : ℕ) (rows : List Answer)
    → any (queued_row id) rows ≡ false
    → any (generating_answer id) rows ≡ false
    → any (λ a. a.id == id && is_active a.status) rows ≡ false
idle_inactive id [] h k = refl
idle_inactive id (a ∷ rows) h k = ground (arith, idle_inactive id rows, h, k)

-- The call returned with its fuel, and left the answer neither queued nor generating, and its
-- controller released.
pub record Finished (id : ℕ) (r : Result Bool × World) : Type 0 where
  pub returned : r.0 ≡ ok true
  pub ended : any (λ a. a.id == id && is_active a.status) r.1.store.answers ≡ false
  pub released : has_controller id r.1.store ≡ false

-- The job of a queued answer ends the answer, if nobody else runs meanwhile and every stream of the
-- provider ends without reporting an abort, whatever it contains or fails with, and whether or not
-- the secret of a key decrypts: with fuel for each key without a recorded failure, the call returns,
-- the answer is neither queued nor generating, and its controller is released. The answer has the
-- only row of an identifier that was given out, its turn exists, and no controller is registered for
-- it before.
pub generate-Finished :
    (respond : Answers) (fuel id : ℕ) (a : Answer) (t : Turn) (w : World)
    → ((n : ℕ) (k : Key) → AllFlow (respond.parts n k))
    → Job id a t fuel w
    → Finished id (generate respond fuel id w)
generate-Finished respond fuel id a t w flows j =
    finished_of (generate respond fuel id w) ((generate-meets id fuel respond flows a t).run w j)
  where
    finished_of :
        (r : Result Bool × World)
        → Outcome (λ b w. (b ≡ true) × Over id w) (λ e w. ⊥) r
        → Finished id r
    finished_of (ok b, v) h = record {
      returned = ap (λ (x : Bool). ok x) h.0;
      ended = idle_inactive id v.store.answers h.1.idle.alone.unqueued h.1.idle.idle;
      released = h.1.released;
    }
    finished_of (err e, v) h = absurd h
