-- ===== src/Assistant/Worker/Quiet/Begin.antt =====
-- The start of a generation, while nobody else runs.
use gnester_lite.Common.{
  ℕ, ◌≤◌, ◌<◌, ◌≡◌, refl, ap, ◌∙◌, Bool, true, false, ◌&&◌, ◌==◌, Option, none, some, List, [],
  option_eq, ==-refl, any, find, delete_where, any-delete_where, count_where, arith, Bool-cases,
  inl, inr, Result, write, Preorder, Follows, Follows-write, ◌⨾◌, flow, Meets, Failure,
}
use gnester_lite.Assistant.Store.{
  Controller, Answer, Turn, Provider, Store, provider_eq, deepseek, openai, is_queued,
  is_generating_status, ErrorCode,
}
use gnester_lite.Assistant.Generation.{
  Generation, is_generating, generation_of, start_answer, start_row, admit, admitted, admission,
  failing, fail_answer,
}
use gnester_lite.Assistant.Generation.Start.{
  Waiting, Starts, start_answer-Starts, started, startable, generation_for, any-find, is_answer,
}
use gnester_lite.Assistant.Selection.{has_no_error}
use gnester_lite.Assistant.Lifecycle.Handlers.{start_answer-Sound}
use gnester_lite.Assistant.Worker.{World, await}
use gnester_lite.Assistant.Worker.Quiet.{Alone, Idle, mine, any_mono}
use gnester_lite.Assistant.Worker.Quiet.Calls.{Meets-await, Meets-known}

-- The keys and the controllers are as they were.
abbrev same_keys : Preorder Store
same_keys = record {
  rel = λ s t. (t.keys ≡ s.keys) × (t.controllers ≡ s.controllers);
  rel_refl = λ s. (refl, refl);
  rel_trans = λ s t v e d. (d.0 ∙ e.0, d.1 ∙ e.1);
}

module _ (id : ℕ) where
  failing-keys : (code : ErrorCode) → Follows same_keys (fail_answer id code)
  unfolding fail_answer failing
  failing-keys code = Follows-write same_keys (λ s. (refl, refl))

  admission-keys : Follows same_keys (write (admission id))
  unfolding admission
  admission-keys = Follows-write same_keys (λ s. (refl, refl))

  admitted-keys : (g : Generation) (b : Bool) → Follows same_keys (admitted id g b)
  unfolding admitted
  admitted-keys g true = search flow
  admitted-keys g false = search (flow, failing-keys)

  admit-keys : (a : Answer) (t : Turn) (p : Option Provider) → Follows same_keys (admit id a t p)
  unfolding admit is_generating
  admit-keys a t none = search (flow, failing-keys)
  admit-keys a t (some p) =
      search (flow, admission-keys) ⨾ λ _. search flow ⨾ λ b. admitted-keys _ b

  start_row-keys : (row : Option (Answer × Turn)) → Follows same_keys (start_row id row)
  unfolding start_row
  start_row-keys none = search flow
  start_row-keys (some (a, t)) = elim (Bool-cases (is_queued a.status)) [
    | inl e ↦ rw e (admit-keys a t a.provider)
    | inr e ↦ rw e (search flow)
  ]

  start_answer-keys : Follows same_keys (start_answer id)
  unfolding start_answer
  start_answer-keys = search (flow, start_row-keys)

abbrev pub has_controller : ℕ → Store → Bool
has_controller id s = any (λ c. c.answer_id == id) s.controllers

-- The job of an answer that waits, with its turn, while nobody else runs.
pub record Job (id : ℕ) (a : Answer) (t : Turn) (fuel : ℕ) (w : World) : Type 0 where
  pub quiet : w.others ≡ []
  pub known : id < w.store.next_id
  pub waiting : Waiting id w.store a
  pub turn : find (λ t. t.id == a.turn_id) w.store.turns ≡ some t
  pub fresh : has_controller id w.store ≡ false
  pub fuelled : count_where has_no_error w.store.keys ≤ fuel

-- The answer ended and no controller of it is registered.
pub record Over (id : ℕ) (w : World) : Type 0 where
  pub idle : Idle id w
  pub released : has_controller id w.store ≡ false

-- What the start leaves: the generation of an answer that is generating, or an answer that failed.
pub record Begun (id fuel : ℕ) (g : Generation) (w : World) : Type 0 where
  pub alone : Alone id w
  pub running : any (mine id g) w.store.answers ≡ true
  pub fuelled : count_where has_no_error w.store.keys ≤ fuel

abbrev pub AfterStart : ℕ → ℕ → Option Generation → World → Type 0
AfterStart id fuel none w = Over id w
AfterStart id fuel (some g) w = Begun id fuel g w

provider_eq_refl : (p : Provider) → provider_eq p p ≡ true
provider_eq_refl deepseek = refl
provider_eq_refl openai = refl

module _ (s : Store) (a : Answer) (t : Turn) where
  generation-none : a.provider ≡ none → generation_for s a t ≡ none
  generation-none e = rw (generation_for, e) refl

  generation-can :
      (p : Provider)
      → a.provider ≡ some p
      → startable s a ≡ true
      → generation_for s a t ≡ some (generation_of a t p)
  generation-can p e can = rw (generation_for, e, can) refl

  generation-cannot :
      (p : Provider) → a.provider ≡ some p → startable s a ≡ false → generation_for s a t ≡ none
  generation-cannot p e cannot = rw (generation_for, e, cannot) refl

-- A controller that was registered is not aborted, and one that was released is gone.
pub registered_on :
    (id : ℕ) (cs : List Controller)
    → any (λ c. c.answer_id == id && c.is_aborted) (delete_where (λ c. c.answer_id == id) cs)
      ≡ false
registered_on id cs = any-delete_where _ _ cs (λ c h. ground (arith, h))

module _ (id : ℕ) (a : Answer) (t : Turn) (fuel : ℕ) where
  module _ (w : World) (j : Job id a t fuel w) where
    abbrev left_store : Store
    left_store = (start_answer id w.store).1

    starts_lem : Starts id w.store a t (start_answer id w.store)
    starts_lem = start_answer-Starts id w.store a t j.waiting j.turn

    single_lem : count_where (is_answer id) left_store.answers ≤ 1
    single_lem = ((start_answer-Sound id 0 id).run w.store j.known).row j.waiting.single

    -- A test of the only row.
    test_lem :
        (q : Answer → Bool)
        → any (λ b. is_answer id b && q b) left_store.answers ≡ q (started w.store a)
    test_lem q = any-find id q left_store.answers (started w.store a) starts_lem.row single_lem

    alone_lem :
        is_queued (started w.store a).status ≡ false → Alone id (record w { store = left_store })
    alone_lem h = record {
      quiet = j.quiet;
      single = single_lem;
      unqueued = test_lem (λ b. is_queued b.status) ∙ h;
    }

    cannot_lem :
        startable w.store a ≡ false → AfterStart id fuel none (record w { store = left_store })
    cannot_lem e = record {
      idle = record {
        alone = alone_lem (rw e refl);
        idle = test_lem (λ b. is_generating_status b.status) ∙ rw e refl;
      };
      released = rw ((start_answer-keys id).run w.store).1 j.fresh;
    }

    mine_of :
        (g : Generation) (q : Answer → Bool)
        → ((b : Answer) → (is_answer id b && q b) ≡ true → mine id g b ≡ true)
        → q (started w.store a) ≡ true
        → any (mine id g) left_store.answers ≡ true
    mine_of g q k h =
        any_mono (λ b. is_answer id b && q b) (mine id g) left_store.answers k (test_lem q ∙ h)

    can_lem :
        (p : Provider)
        → a.provider ≡ some p
        → startable w.store a ≡ true
        → AfterStart id fuel (some (generation_of a t p)) (record w { store = left_store })
    can_lem p e can = record {
      alone = alone_lem (rw can refl);
      running =
          mine_of (generation_of a t p)
            (λ b.
              is_generating_status b.status
              && b.user_id == a.user_id
              && option_eq provider_eq b.provider p)
            (λ b h. ground (arith, h))
            (rw can (rw (==-refl a.user_id, e, provider_eq_refl p) refl));
      fuelled = rw ((start_answer-keys id).run w.store).0 j.fuelled;
    }

    begun_by :
        (o : Option Provider)
        → a.provider ≡ o
        → AfterStart id fuel (generation_for w.store a t) (record w { store = left_store })
    begun_by none e = rw (generation-none w.store a t e) (cannot_lem (rw e refl))
    begun_by (some p) e = elim (Bool-cases (startable w.store a)) [
      | inl can ↦ rw (generation-can w.store a t p e can) (can_lem p e can)
      | inr cannot ↦ rw (generation-cannot w.store a t p e cannot) (cannot_lem cannot)
    ]

  pub start-meets :
      {E : Failure → World → Type 0}
      → Meets (Job id a t fuel) (await (start_answer id)) (AfterStart id fuel) E
  start-meets =
      Meets-await _ (λ w j. j.quiet)
        (Meets-known _ (λ w j. (
          generation_for w.store a t,
          left_store w j,
          ap (λ (x : Result (Option Generation)). (x, left_store w j)) (starts_lem w j).returned,
          begun_by w j a.provider refl,
        )))
