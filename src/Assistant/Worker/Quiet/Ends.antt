-- ===== src/Assistant/Worker/Quiet/Ends.antt =====
-- The worker ends the answer that it generates, while nobody else runs.
use gnester_lite.Common.{
  ℕ, ◌≤◌, ◌≡◌, refl, ◌∙◌, Bool, true, false, not, List, [], ◌∷◌, ◌++◌, any, count_where, arith,
  Text, count_where, Program, ◌>>◌, return, when, Meets, Meets-return, Meets-read, Meets-write,
  Meets-when, Meets-bind, Meets-pre, Failure, endless,
}
use gnester_lite.Assistant.Store.{Key, ErrorCode}
use gnester_lite.Assistant.Generation.{
  Generation, generating_answer, reserving, use_answer_key, is_generating, fail_answer,
  append_answer, failing, appending, cancel,
}
use gnester_lite.Assistant.Selection.{has_no_error}
use gnester_lite.Assistant.Worker.{
  World, on_store, await, Part, text_delta, failure, abort, other, stall, Answers, Streamed, left,
  aborted, mark_checkpoint, checkpoint, proceed, stream, may_request, still_runs,
}
use gnester_lite.Assistant.Worker.Quiet.{
  Alone, Live, Idle, mine, failing-Idle, appending-Live, reserving-Live, any_mono,
}
use gnester_lite.Assistant.Worker.Quiet.Calls.{
  Meets-wait, Meets-await, Meets-known, Meets-written, Meets-seen, Fit, model_for,
  use_answer_key-ok,
}

-- A part that is no abort and no stall, and a stream that was not left.
abbrev pub Flows : Part → Type 0
Flows abort = ⊥
Flows stall = ⊥
Flows _ = Unit {0}

abbrev pub AllFlow : List Part → Type 0
AllFlow [] = Unit {0}
AllFlow (p ∷ ps) = Flows p × AllFlow ps

abbrev pub Read : Streamed → Type 0
Read left = ⊥
Read _ = Unit {0}

-- What the worker may throw: an exception that its `catch` handles.
abbrev pub is_endless : Failure → Bool
is_endless endless = true
is_endless _ = false

abbrev pub Throws : ℕ → Failure → World → Type 0
Throws id e w = (is_endless e ≡ false) × Alone id w

module _ (id : ℕ) (g : Generation) where
  -- The answer is being generated, the key fits, and at most so many keys are without a failure.
  pub record Trying (n : ℕ) (k : Key) (w : World) : Type 0 where
    pub live : Live id g w
    pub fit : Fit w.store g.user_id (model_for id g) k
    pub few : count_where has_no_error w.store.keys ≤ n

  pub Alone-quiet : (w : World) → Alone id w → w.others ≡ []
  Alone-quiet w h = h.quiet

  Live-quiet : (w : World) → Live id g w → w.others ≡ []
  Live-quiet w h = h.alone.quiet

  pub Trying-quiet : (n : ℕ) (k : Key) (w : World) → Trying n k w → w.others ≡ []
  Trying-quiet n k w h = h.live.alone.quiet

  pub Idle-quiet : (w : World) → Idle id w → w.others ≡ []
  Idle-quiet w h = h.alone.quiet

  Live-generating : (w : World) → Live id g w → any (generating_answer id) w.store.answers ≡ true
  Live-generating w h =
      any_mono (mine id g) (generating_answer id) w.store.answers (λ a e. ground (arith, e))
        h.running

  pub fail-meets :
      {P : World → Type 0} {E : Failure → World → Type 0} (code : ErrorCode)
      → ((w : World) → P w → Alone id w)
      → Meets P (await (fail_answer id code)) (λ _. Idle id) E
  unfolding fail_answer
  fail-meets code h =
      Meets-await _ (λ w p. (h w p).quiet)
        (Meets-written (failing id code) (λ w p. failing-Idle id g w code (h w p)))

  module _ (N : ℕ) (k : Key) where
    -- A change of the local variables.
    pub Trying-local :
        (w v : World) → v.store ≡ w.store → v.others ≡ w.others → Trying N k w → Trying N k v
    Trying-local w v e d h = record {
      live = record {
        alone = record {
          quiet = d ∙ h.live.alone.quiet;
          single = rw e h.live.alone.single;
          unqueued = rw e h.live.alone.unqueued;
        };
        running = rw e h.live.running;
        on = rw e h.live.on;
      };
      fit = rw e h.fit;
      few = rw e h.few;
    }

    pub aborted-meets :
        {E : Failure → World → Type 0}
        → Meets (Trying N k) (aborted id) (λ b w. (b ≡ false) × Trying N k w) E
    unfolding aborted
    aborted-meets = Meets-read _ (λ w h. (h.live.on, h))

    running-meets :
        {E : Failure → World → Type 0}
        → Meets (Trying N k) (await (is_generating id)) (λ b w. (b ≡ true) × Trying N k w) E
    unfolding is_generating
    running-meets =
        Meets-await _ (Trying-quiet N k) (Meets-seen _ (λ w h. (Live-generating w h.live, h)))

    append-kept :
        (content : Text) (w : World)
        → Trying N k w
        → Trying N k (record w { store = appending id content w.store })
    unfolding appending
    append-kept content w h = record {
      live = appending-Live id g w content h.live;
      fit = record { held = h.fit.held; serving = h.fit.serving; healthy = h.fit.healthy };
      few = h.few;
    }

    append-meets :
        {E : Failure → World → Type 0} (content : Text)
        → Meets (Trying N k) (await (append_answer id content)) (λ _. Trying N k) E
    unfolding append_answer
    append-meets content =
        Meets-await _ (Trying-quiet N k)
          (Meets-written (appending id content) (append-kept content))

    after_check :
        {E : Failure → World → Type 0} (running : Bool)
        → Meets
            (λ w. (running ≡ true) × Trying N k w)
            (when (not running) (on_store (cancel id)) >> return running)
            (λ b w. (b ≡ true) × Trying N k w)
            E
    unfolding when
    after_check true =
        Meets-bind (Meets-when false (on_store (cancel id)) (λ e. absurd (cc e)) (λ w e h. h))
          (λ _. Meets-return true (λ w h. h))
    after_check false = record { run = λ w h. absurd (cc h.0) }

    checkpoint-meets :
        {E : Failure → World → Type 0} (content : Text) (due : Bool)
        → Meets (Trying N k) (checkpoint id content due) (λ b w. (b ≡ true) × Trying N k w) E
    unfolding checkpoint mark_checkpoint
    checkpoint-meets content false = Meets-return true (λ w h. (refl, h))
    checkpoint-meets content true = Meets-bind (append-meets content) λ _.
        Meets-bind (Meets-write _ (λ w h. Trying-local w _ refl refl h))
          λ _. Meets-bind running-meets λ running. after_check running

    proceed-meets :
        {E : Failure → World → Type 0} (go : Bool) (m : Program World Streamed)
        → Meets (Trying N k) m (λ o w. Read o × Trying N k w) E
        → Meets (λ w. (go ≡ true) × Trying N k w) (proceed go m) (λ o w. Read o × Trying N k w) E
    unfolding proceed
    proceed-meets true m h = Meets-pre (λ w p. p.1) h
    proceed-meets false m h = record { run = λ w p. absurd (cc p.0) }

    pub stream-meets :
        {E : Failure → World → Type 0} (content : Text) (parts : List Part)
        → AllFlow parts
        → Meets (Trying N k) (stream id content parts) (λ o w. Read o × Trying N k w) E
    unfolding stream
    stream-meets content [] flows =
        Meets-bind (Meets-wait (Trying-quiet N k)) λ _. Meets-return _ (λ w h. (tt, h))
    stream-meets content (failure e ∷ parts) flows =
        Meets-bind (Meets-wait (Trying-quiet N k)) λ _. Meets-return _ (λ w h. (tt, h))
    stream-meets content (abort ∷ parts) flows = absurd flows.0
    stream-meets content (stall ∷ parts) flows = absurd flows.0
    stream-meets content (other ∷ parts) flows =
        Meets-bind (Meets-wait (Trying-quiet N k)) λ _. stream-meets content parts flows.1
    stream-meets content (text_delta t ∷ parts) flows =
        Meets-bind (Meets-wait (Trying-quiet N k)) λ _.
          Meets-bind {R = λ _ w. Trying N k w} (Meets-read _ (λ w h. h)) λ due.
            Meets-bind (checkpoint-meets (content ++ t) due)
              λ go. proceed-meets go _ (stream-meets (content ++ t) parts flows.1)

    still_runs-meets :
        {E : Failure → World → Type 0} (respond : Answers) (is_off : Bool)
        → Meets
            (λ w. (is_off ≡ false) × Trying N k w)
            (still_runs respond id g is_off)
            (λ b w. (b ≡ true) × Trying N k w)
            E
    unfolding still_runs
    still_runs-meets respond true = record { run = λ w p. absurd (cc p.0) }
    still_runs-meets respond false = Meets-pre (λ w p. p.1) running-meets

    pub may_request-meets :
        {E : Failure → World → Type 0} (respond : Answers) (reserved : Bool)
        → Meets
            (λ w. (reserved ≡ true) × Trying N k w)
            (may_request respond id g reserved)
            (λ b w. (b ≡ true) × Trying N k w)
            E
    unfolding may_request
    may_request-meets respond false = record { run = λ w p. absurd (cc p.0) }
    may_request-meets respond true =
        Meets-pre (λ w p. p.1) (Meets-bind aborted-meets λ is_off. still_runs-meets respond is_off)

    reserve-kept :
        (w : World) → Trying N k w → Trying N k (record w { store = reserving id k.id w.store })
    unfolding reserving
    reserve-kept w h = record {
      live = reserving-Live id g w k.id h.live;
      fit = record { held = h.fit.held; serving = h.fit.serving; healthy = h.fit.healthy };
      few = h.few;
    }

    pub reserve-meets :
        {E : Failure → World → Type 0}
        → Meets (Trying N k) (await (use_answer_key id k.id)) (λ b w. (b ≡ true) × Trying N k w) E
    reserve-meets = Meets-await _ (Trying-quiet N k) (
        Meets-known _ (λ w h. (
          true,
          reserving id k.id w.store,
          use_answer_key-ok id g w k h.live h.fit,
          (refl, reserve-kept w h),
        )))
