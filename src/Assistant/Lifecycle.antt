-- ===== src/Assistant/Lifecycle.antt =====
-- How an answer may change: a relation between two states of the store, for the statements of
-- assistant.service.ts, assistant-generation.service.ts and the configuration service.
pub mod Statements
pub mod Handlers
pub mod Changes
pub mod Runs
pub mod Final
use gnester_lite.Common.{
  ℕ, suc, ◌≤◌, ◌<◌, ◌≡◌, refl, ap, Bool, true, false, not, ◌&&◌, ◌==◌, Option, none, some, List, [],
  ◌∷◌, find, any, update_where, delete_where, count_where, count_where-update_where-le,
  count_where-delete_where-le, count_where-eq_zero, Bool-cases, inl, inr, arith, Preorder,
}
use gnester_lite.Assistant.Store.{Answer, Status, Store, is_active, is_queued, is_generating_status}
use gnester_lite.Assistant.Conversations.{clashes}

-- The answer `b` is `a` at a later time: it has the same owner, place and model, it is as it was
-- where `a` was completed, stopped or failed, and it does not go back to the queue.
pub record Kept (a b : Answer) : Type 0 where
  pub user : b.user_id ≡ a.user_id
  pub turn : b.turn_id ≡ a.turn_id
  pub version : b.version ≡ a.version
  pub model : b.model ≡ a.model
  pub provider : b.provider ≡ a.provider
  pub frozen : is_active a.status ≡ false → b ≡ a
  pub admitted : is_generating_status a.status ≡ true → is_queued b.status ≡ false

pub Kept-refl : (a : Answer) → Kept a a
Kept-refl a = record {
  user = refl;
  turn = refl;
  version = refl;
  model = refl;
  provider = refl;
  frozen = λ _. refl;
  admitted = λ h. ground arith;
}

pub Kept-trans : (a b c : Answer) → Kept a b → Kept b c → Kept a c
Kept-trans a b c h k = record {
  user = cc (h.user, k.user);
  turn = cc (h.turn, k.turn);
  version = cc (h.version, k.version);
  model = cc (h.model, k.model);
  provider = cc (h.provider, k.provider);
  frozen = λ e. frozen_step e (h.frozen e);
  admitted = λ e. admitted_step (h.admitted e);
}
  where
    frozen_step : is_active a.status ≡ false → b ≡ a → c ≡ a
    frozen_step e p = ground (arith, k.frozen (ground arith))

    admitted_step : is_queued b.status ≡ false → is_queued c.status ≡ false
    admitted_step e = ground (arith, k.frozen, k.admitted)

-- What became of the answer in one place of the table: none appears, and it may be deleted.
abbrev pub Later : Option Answer → Option Answer → Type 0
Later o none = Unit {0}
Later none (some b) = ⊥
Later (some a) (some b) = Kept a b

pub Later-refl : (o : Option Answer) → Later o o
Later-refl none = tt
Later-refl (some a) = Kept-refl a

pub Later-trans : (o p q : Option Answer) → Later o p → Later p q → Later o q
Later-trans o p none h k = tt
Later-trans o none (some c) h k = absurd k
Later-trans none (some b) (some c) h k = absurd h
Later-trans (some a) (some b) (some c) h k = Kept-trans a b c h k

abbrev pub by_id : ℕ → Answer → Bool
by_id i a = a.id == i

abbrev pub answer_at : ℕ → Store → Option Answer
answer_at i s = find (by_id i) s.answers

abbrev pub active_of : ℕ → Answer → Bool
active_of u a = a.user_id == u && is_active a.status

-- At most one answer of the account is queued or generating.
abbrev pub OneActive : ℕ → Store → Type 0
OneActive u s = count_where (active_of u) s.answers ≤ 1

-- The primary key: at most one row has the identifier.
abbrev pub OneRow : ℕ → Store → Type 0
OneRow i s = count_where (by_id i) s.answers ≤ 1

-- What happens to the answer `i` and to the active answers of the account `u`.
pub record Safe (i u : ℕ) (s t : Store) : Type 0 where
  pub known : s.next_id ≤ t.next_id
  pub row : OneRow i s → OneRow i t
  pub later : OneRow i s → Later (answer_at i s) (answer_at i t)
  pub single : OneActive u s → OneActive u t

pub Safe-refl : (i u : ℕ) (s : Store) → Safe i u s s
Safe-refl i u s = record {
  known = omega arith;
  row = λ h. h;
  later = λ _. Later-refl _;
  single = λ h. h;
}

pub Safe-trans : (i u : ℕ) (s t v : Store) → Safe i u s t → Safe i u t v → Safe i u s v
Safe-trans i u s t v h k = record {
  known = omega (arith, h.known, k.known);
  row = λ r. k.row (h.row r);
  later = λ r. Later-trans _ (answer_at i t) _ (h.later r) (k.later (h.row r));
  single = λ b. k.single (h.single b);
}

-- The relation for an identifier that was given out before the run.
abbrev pub safety : ℕ → ℕ → Preorder Store
safety i u = record {
  rel = λ s t. i < s.next_id → Safe i u s t;
  rel_refl = λ s _. Safe-refl i u s;
  rel_trans = λ s t v h k b. Safe-trans i u s t v (h b) (k (omega (arith, (h b).known)));
}
