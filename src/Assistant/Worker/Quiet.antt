-- ===== src/Assistant/Worker/Quiet.antt =====
-- The rows of the answer that a worker generates, and what the statements of the worker make of them.
pub mod Calls
pub mod Ends
pub mod Loop
pub mod Begin
pub mod Final
use gnester_lite.Common.{
  ℕ, suc, ◌≤◌, ◌<◌, ◌≡◌, refl, ap, sym, ◌∙◌, Bool, true, false, not, ◌&&◌, ◌==◌, Option, none, some,
  List, [], ◌∷◌, any, find, update_where, delete_where, count_where, count_where-update_where-le,
  any-delete_where, any-update_where, option_eq, arith, Text, ==_iff, ==-refl, Bool-cases, inl, inr,
  if◌then◌else◌,
}
use gnester_lite.Assistant.Store.{
  Answer, Key, Store, Provider, deepseek, openai, provider_eq, is_queued, is_active,
  is_generating_status, Status, Controller, ErrorCode,
}
use gnester_lite.Assistant.Generation.{
  Generation, generating_answer, failing, appending, completing, selecting_completed, reserves,
  reserving, is_usable, register, release,
}
use gnester_lite.Assistant.Generation.Start.{updated_single}
use gnester_lite.Assistant.Worker.{World, is_aborted}

abbrev pub queued_row : ℕ → Answer → Bool
queued_row id a = a.id == id && is_queued a.status

abbrev pub row_of : ℕ → Answer → Bool
row_of id a = a.id == id

-- The row is the one being generated, with the owner and the provider of the generation.
abbrev pub mine : ℕ → Generation → Answer → Bool
mine id g a =
    generating_answer id a && a.user_id == g.user_id && option_eq provider_eq a.provider g.provider

-- Nobody else runs, and the answer's only row, if any, is not queued.
pub record Alone (id : ℕ) (w : World) : Type 0 where
  pub quiet : w.others ≡ []
  pub single : count_where (row_of id) w.store.answers ≤ 1
  pub unqueued : any (queued_row id) w.store.answers ≡ false

-- The answer is being generated and nobody cancelled it.
pub record Live (id : ℕ) (g : Generation) (w : World) : Type 0 where
  pub alone : Alone id w
  pub running : any (mine id g) w.store.answers ≡ true
  pub on : is_aborted id w.store ≡ false

pub record Idle (id : ℕ) (w : World) : Type 0 where
  pub alone : Alone id w
  pub idle : any (generating_answer id) w.store.answers ≡ false

module _ {R : Type 0} where
  -- An UPDATE that makes no row satisfy the test.
  pub any-update_where-none :
      (q p : R → Bool) (f : R → R) (rs : List R)
      → ((r : R) → q (f r) ≡ true → q r ≡ true)
      → any q rs ≡ false
      → any q (update_where p f rs) ≡ false
  any-update_where-none q p f [] k h = refl
  any-update_where-none q p f (r ∷ rs) k h =
      ground (arith, k r, any-update_where-none q p f rs k, h)

  -- An UPDATE that the test does not see.
  pub any-update_where-same :
      (q p : R → Bool) (f : R → R) (rs : List R)
      → ((r : R) → q (f r) ≡ q r)
      → any q (update_where p f rs) ≡ any q rs
  any-update_where-same q p f [] k = refl
  any-update_where-same q p f (r ∷ rs) k = ground (arith, k r, any-update_where-same q p f rs k)

  pub any_mono :
      (p q : R → Bool) (rs : List R)
      → ((r : R) → p r ≡ true → q r ≡ true)
      → any p rs ≡ true
      → any q rs ≡ true
  any_mono p q [] k h = h
  any_mono p q (r ∷ rs) k h = ground (arith, k r, any_mono p q rs k, h)

  pub count_where_mono :
      (p q : R → Bool) (rs : List R)
      → ((r : R) → p r ≡ true → q r ≡ true)
      → count_where p rs ≤ count_where q rs
  count_where_mono p q [] k = omega arith
  count_where_mono p q (r ∷ rs) k = ground (arith, k r, count_where_mono p q rs k)

  pub count_where-any : (p : R → Bool) (rs : List R) → any p rs ≡ true → 1 ≤ count_where p rs
  count_where-any p [] h = ground arith
  count_where-any p (r ∷ rs) h = ground (arith, count_where-any p rs, h)

  -- An UPDATE that makes fewer rows satisfy the test.
  pub count_where-update_where-lt :
      (q p : R → Bool) (f : R → R) (rs : List R)
      → ((r : R) → p r ≡ true → q (f r) ≡ false)
      → any (λ r. p r && q r) rs ≡ true
      → count_where q (update_where p f rs) < count_where q rs
  count_where-update_where-lt q p f [] k h = ground arith
  count_where-update_where-lt q p f (r ∷ rs) k h = ground (
    arith,
    k r,
    count_where-update_where-lt q p f rs k,
    count_where-update_where-le q p f rs (λ x hit got. absurd (ground (arith, k x))),
    h,
  )

provider_eq_iff : (p q : Provider) → provider_eq p q ≡ true → p ≡ q
provider_eq_iff deepseek deepseek h = refl
provider_eq_iff openai openai h = refl
provider_eq_iff deepseek openai h = ground arith
provider_eq_iff openai deepseek h = ground arith

module _ (id : ℕ) (g : Generation) (w : World) where
  -- A write that changes no more of the world than the answers, the turns and the other tables.
  abbrev pub with_store : Store → World
  with_store s = record w { store = s }

  pub failing-Idle :
      (code : ErrorCode) → Alone id w → Idle id (with_store (failing id code w.store))
  unfolding failing
  failing-Idle code h = record {
    alone = record {
      quiet = h.quiet;
      single = updated_single id _ _ w.store.answers (λ b. refl) h.single;
      unqueued =
          any-update_where-none (queued_row id) (λ b. b.id == id && is_active b.status) _
            w.store.answers (λ b k. ground arith) h.unqueued;
    };
    idle =
        any-update_where (generating_answer id) (λ b. b.id == id && is_active b.status) _
          w.store.answers (λ b hit. ground arith) (λ b hit. ground arith);
  }

  pub appending-Live :
      (content : Text) → Live id g w → Live id g (with_store (appending id content w.store))
  unfolding appending
  appending-Live content h = record {
    alone = record {
      quiet = h.alone.quiet;
      single = updated_single id _ _ w.store.answers (λ b. refl) h.alone.single;
      unqueued =
          any-update_where-none (queued_row id) (generating_answer id) _ w.store.answers (λ b k. k)
            h.alone.unqueued;
    };
    running =
        any-update_where-same (mine id g) (generating_answer id) _ w.store.answers (λ b. refl)
        ∙ h.running;
    on = h.on;
  }

  pub completing-Idle :
      (content : Text) → Live id g w → Idle id (with_store (completing id content w.store))
  unfolding completing
  completing-Idle content h = record {
    alone = record {
      quiet = h.alone.quiet;
      single = updated_single id _ _ w.store.answers (λ b. refl) h.alone.single;
      unqueued =
          any-update_where-none (queued_row id) (generating_answer id) _ w.store.answers
            (λ b k. ground arith) h.alone.unqueued;
    };
    idle =
        any-update_where (generating_answer id) (generating_answer id) _ w.store.answers
          (λ b hit. ground arith) (λ b hit. hit);
  }

  pub selecting_completed-Idle : Idle id w → Idle id (with_store (selecting_completed id w.store))
  unfolding selecting_completed
  selecting_completed-Idle h = record {
    alone = record { quiet = h.alone.quiet; single = h.alone.single; unqueued = h.alone.unqueued };
    idle = h.idle;
  }

  pub reserving-Live :
      (key_id : ℕ) → Live id g w → Live id g (with_store (reserving id key_id w.store))
  unfolding reserving
  reserving-Live key_id h = record {
    alone = record {
      quiet = h.alone.quiet;
      single = updated_single id _ _ w.store.answers (λ b. refl) h.alone.single;
      unqueued =
          any-update_where-none (queued_row id) (reserves w.store id key_id) _ w.store.answers
            (λ b k. k) h.alone.unqueued;
    };
    running =
        any-update_where-same (mine id g) (reserves w.store id key_id) _ w.store.answers (λ b. refl)
        ∙ h.running;
    on = h.on;
  }
