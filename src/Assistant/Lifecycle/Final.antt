-- ===== src/Assistant/Lifecycle/Final.antt =====
-- A stopped answer in the runs that follow.
use gnester_lite.Common.{
  ℕ, ◌<◌, ◌≡◌, refl, ap, sym, ◌∙◌, Bool, false, ◌&&◌, ◌==◌, Option, none, some, List, [], ◌∷◌, find,
  any, any-update_where, arith, Returns, found-then, bind-then, read-bind, write-bind, read-Returns,
  found-Returns, write-Returns,
}
use gnester_lite.Assistant.Store.{Answer, Store, is_active}
use gnester_lite.Assistant.Generation.{cancel}
use gnester_lite.Assistant.Views.{ConversationView, get_conversation, owned_conversation}
use gnester_lite.Assistant.Conversations.{stopping, stop_answer}
use gnester_lite.Assistant.Lifecycle.{Later, OneRow, by_id, answer_at, Safe}
use gnester_lite.Assistant.Lifecycle.Handlers.{stop_answer-Sound}
use gnester_lite.Assistant.Lifecycle.Runs.{Step, run, run-Later}

get_conversation-answers :
    (user_id id : ℕ) (s : Store) (x : ConversationView) (t : Store)
    → Returns (get_conversation user_id id) s x t
    → t ≡ s
unfolding get_conversation owned_conversation
get_conversation-answers user_id id s x t h = bind-then _ _ s x t h λ c v owned shown.
    (read-Returns _ v x t shown).1 ∙ (found-Returns _ _ s c v (read-bind _ _ s c v owned)).1

-- No answer of the identifier is queued or generating.
abbrev active_row : ℕ → Answer → Bool
active_row id a = a.id == id && is_active a.status

stop_answer-idle :
    (user_id id : ℕ) (s : Store) (x : ConversationView) (t : Store)
    → Returns (stop_answer user_id id) s x t
    → any (active_row id) t.answers ≡ false
unfolding stop_answer stopping cancel
stop_answer-idle user_id id s x t h =
    found-then _ _ _ s x t (read-bind _ _ s x t h) λ turn owned h₁.
      bind-then _ _ _ x t (write-bind _ _ s x t h₁) λ u v cancelled h₂.
        rw
          (get_conversation-answers user_id turn.conversation_id v x t h₂
            ∙ write-Returns _ _ u v cancelled)
          (any-update_where (active_row id) (active_row id) _ s.answers (λ a hit. ground arith)
            (λ a hit. hit))

idle-find :
    (id : ℕ) (rows : List Answer) (b : Answer)
    → any (active_row id) rows ≡ false
    → find (by_id id) rows ≡ some b
    → is_active b.status ≡ false
idle-find id [] b h e = ground arith
idle-find id (a ∷ rows) b h e = ground (arith, idle-find id rows b, h, e)

Later-frozen :
    (o p : Option Answer) (c : Answer)
    → Later o p
    → ((b : Answer) → o ≡ some b → is_active b.status ≡ false)
    → p ≡ some c
    → (o ≡ some c) × (is_active c.status ≡ false)
Later-frozen o none c h idle e = absurd (cc e)
Later-frozen none (some d) c h idle e = absurd h
Later-frozen (some b) (some d) c h idle e =
    let same = h.frozen (idle b refl) in
    let back : c ≡ b = cc (same, e) in
    (ap (λ (x : Answer). some x) (sym same) ∙ e, rw back (idle b refl))

-- The state of the store that the call leaves.
after_stop :
    (user_id id : ℕ) (s : Store) (x : ConversationView) (t : Store)
    → Returns (stop_answer user_id id) s x t
    → (stop_answer user_id id s).1 ≡ t
after_stop user_id id s x t h = ap (λ (r : _). r.1) h

-- After a call that stopped an answer, whose identifier was given out before and one row has, and
-- after any run, the answer is deleted or the row that the call left, neither queued nor generating.
pub stop_answer-final :
    (user_id id : ℕ) (s : Store) (x : ConversationView) (t : Store) (es : List Step) (c : Answer)
    → id < s.next_id
    → OneRow id s
    → Returns (stop_answer user_id id) s x t
    → answer_at id (run es t) ≡ some c
    → (answer_at id t ≡ some c) × (is_active c.status ≡ false)
stop_answer-final user_id id s x t es c below one h e =
    Later-frozen (answer_at id t) (answer_at id (run es t)) c
      (run-Later id es t (omega (arith, below, safe.known)) (safe.row one))
      (λ b row. idle-find id t.answers b (stop_answer-idle user_id id s x t h) row) e
  where
    safe : Safe id 0 s t
    safe =
        rw (sym (after_stop user_id id s x t h)) ((stop_answer-Sound id 0 user_id id).run s below)
