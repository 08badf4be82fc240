-- ===== src/Assistant/Selection/Fallback.antt =====
-- The walk of the worker over the keys of a model, from a key that failed to the next.
use gnester_lite.Common.{
  ℕ, ◌≤◌, ◌<◌, ◌≡◌, refl, sym, Bool, true, false, ◌==◌, Option, none, some, List, [], ◌∷◌, find,
  length, count_where, All, All-find, find_holds, Bool-cases, inl, inr, arith, ==-refl,
}
use gnester_lite.Assistant.Store.{ModelChoice, Key, Store}
use gnester_lite.Assistant.Selection.{
  serves, available_keys, has_no_error, keys_after, rest_or, next_generation_key,
}
use gnester_lite.Assistant.Selection.Choice.{available_keys-serves}

abbrev by_id : ℕ → Key → Bool
by_id id k = k.id == id

-- The keys that stand after a key, or all of them where the key is not in the list.
abbrev pub left_after : ℕ → List Key → List Key
left_after id keys = rest_or keys (keys_after id keys)

found_once :
    (keys : List Key) (q : Key → Bool) (k : Key)
    → find q keys ≡ some k
    → 1 ≤ count_where (by_id k.id) keys
found_once [] q k h = ground arith
found_once (x ∷ keys) q k h = ground (arith, found_once keys q k, ==-refl k.id)

after_found :
    (keys : List Key) (q : Key → Bool) (k : Key)
    → find q keys ≡ some k
    → (rest : List Key) × (keys_after k.id keys ≡ some rest) × (length rest < length keys)
unfolding keys_after
after_found [] q k h = absurd (cc h)
after_found (x ∷ keys) q k h = elim (Bool-cases (x.id == k.id)) [
  | inl here ↦ (keys, rw here refl, omega arith)
  | inr away ↦
      let (rest, after_it, fewer) = after_found keys q k (ground (arith, h, away, ==-refl k.id)) in
      (rest, rw away after_it, omega (arith, fewer))
]

after_once :
    (id : ℕ) (keys rest : List Key)
    → keys_after id keys ≡ some rest
    → 1 ≤ count_where (by_id id) keys
unfolding keys_after
after_once id [] rest h = absurd (cc h)
after_once id (x ∷ keys) rest h = elim (Bool-cases (x.id == id)) [
  | inl here ↦ ground (arith, here)
  | inr away ↦ ground (arith, away, after_once id keys rest (ground (arith, h, away)))
]

later_found :
    (id : ℕ) (keys rest : List Key) (q : Key → Bool) (k : Key)
    → keys_after id keys ≡ some rest
    → find q rest ≡ some k
    → count_where (by_id k.id) keys ≤ 1
    → (later : List Key) × (keys_after k.id keys ≡ some later) × (length later < length rest)
unfolding keys_after
later_found id [] rest q k e h one = absurd (cc e)
later_found id (x ∷ keys) rest q k e h one = elim (Bool-cases (x.id == id)) [
  | inl here ↦
      let same : keys ≡ rest = ground (arith, e, here) in
      let (later, after_it, fewer) = after_found keys q k (rw same h) in
      let away : (x.id == k.id) ≡ false =
        ground (arith, one, after_once k.id keys later after_it) in
      (later, rw away after_it, rw (sym same) fewer)
  | inr gone ↦
      let (later, after_it, fewer) =
        later_found id keys rest q k (ground (arith, e, gone)) h (ground (arith, one)) in
      let away : (x.id == k.id) ≡ false =
        ground (arith, one, after_once k.id keys later after_it) in
      (later, rw away after_it, fewer)
]

-- The key is one that serves the model and has no failure, and fewer keys stand after it than stand
-- after the current one.
pub record Next (s : Store) (user_id : ℕ) (m : ModelChoice) (current : ℕ) (k : Key) : Type 0 where
  pub serving : serves s user_id m true k ≡ true
  pub healthy : has_no_error k ≡ true
  pub fewer :
      length (left_after k.id (available_keys s user_id m true))
      < length (left_after current (available_keys s user_id m true))

fewer_left :
    (current : ℕ) (keys : List Key) (o : Option (List Key)) (q : Key → Bool) (k : Key)
    → keys_after current keys ≡ o
    → find q (rest_or keys o) ≡ some k
    → count_where (by_id k.id) keys ≤ 1
    → length (left_after k.id keys) < length (rest_or keys o)
fewer_left current keys none q k e h one =
    let (later, after_it, fewer) = after_found keys q k h in rw (rest_or, after_it) fewer
fewer_left current keys (some rest) q k e h one =
    let (later, after_it, fewer) = later_found current keys rest q k e h one in
    rw (rest_or, after_it) fewer

All-keys_after :
    (P : Key → Type 0) (id : ℕ) (keys rest : List Key)
    → All P keys
    → keys_after id keys ≡ some rest
    → All P rest
unfolding keys_after
All-keys_after P id [] rest h e = absurd (cc e)
All-keys_after P id (x ∷ keys) rest h e = elim (Bool-cases (x.id == id)) [
  | inl here ↦ let same : keys ≡ rest = ground (arith, e, here) in rw (sym same) h.1
  | inr away ↦ All-keys_after P id keys rest h.1 (ground (arith, e, away))
]

pub All-left_after :
    (P : Key → Type 0) (id : ℕ) (keys : List Key) → All P keys → All P (left_after id keys)
All-left_after P id keys h = go (keys_after id keys) refl
  where
    go : (o : Option (List Key)) → keys_after id keys ≡ o → All P (rest_or keys o)
    go none e = h
    go (some rest) e = All-keys_after P id keys rest h e

-- The next key of a generation, if its identifier stands once among the keys that serve the model:
-- it serves the model, it has no recorded failure, and fewer keys are left after it than after the
-- current one.
pub next_generation_key-Next :
    (s : Store) (user_id : ℕ) (m : ModelChoice) (current : ℕ) (k : Key)
    → next_generation_key s user_id m current ≡ some k
    → count_where (by_id k.id) (available_keys s user_id m true) ≤ 1
    → Next s user_id m current k
unfolding next_generation_key
next_generation_key-Next s user_id m current k h one =
    let keys = available_keys s user_id m true in
    record {
      serving =
          All-find (λ k. serves s user_id m true k ≡ true) has_no_error (left_after current keys) k
            (All-left_after (λ k. serves s user_id m true k ≡ true) current keys
              (available_keys-serves s user_id m true))
            h;
      healthy = find_holds has_no_error (left_after current keys) k h;
      fewer = fewer_left current keys (keys_after current keys) has_no_error k refl h one;
    }
