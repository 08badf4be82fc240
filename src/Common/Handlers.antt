-- ===== src/Common/Handlers.antt =====
-- A handler as a program over a state: it returns a value or throws, and leaves a state.
use mathlib.Core.Path.{◌≡◌, refl}
use mathlib.Core.Bool.{Bool, true, false}
use mathlib.Core.Option.{Option, none, some}
use Prim.Native.String.{String}

-- The exceptions of the framework with their messages, a driver error with code ER_DUP_ENTRY, and an
-- `await` that never settles, after which nothing of the call runs.
pub data Failure : Type 0 where
  bad_request conflict not_found forbidden unauthorized service_unavailable : String → Failure
  range_error internal : String → Failure
  duplicate_key endless : Failure

pub data Result (A : Type 0) : Type 0 where
  ok : A → Result A
  err : Failure → Result A

abbrev pub Program : Type 0 → Type 0 → Type 0
Program S A = S → Result A × S

module _ {S : Type 0} where
  abbrev pub after : {A B : Type 0} → Result A × S → (A → Program S B) → Result B × S
  after (ok a, s) f = f a s
  after (err e, s) f = (err e, s)

  infixl 5 ◌>>=◌ ◌>>◌
  unfoldable pub ◌>>=◌ : {A B : Type 0} → Program S A → (A → Program S B) → Program S B
  ◌>>=◌ m f s = after (m s) f

  abbrev pub ◌>>◌ : {A B : Type 0} → Program S A → Program S B → Program S B
  m >> k = m >>= λ _. k

  unfoldable pub return : {A : Type 0} → A → Program S A
  return a s = (ok a, s)

  unfoldable pub throw : {A : Type 0} → Failure → Program S A
  throw e s = (err e, s)

  -- A read, and a statement that writes.
  unfoldable pub read : {A : Type 0} → (S → A) → Program S A
  read f s = (ok (f s), s)

  unfoldable pub write : (S → S) → Program S (Unit {0})
  write f s = (ok tt, f s)

  -- `if (!test) throw e`
  unfoldable pub require : Bool → Failure → Program S (Unit {0})
  require true e s = (ok tt, s)
  require false e s = (err e, s)

  -- `if (test) await m`
  unfoldable pub when : Bool → Program S (Unit {0}) → Program S (Unit {0})
  when true m s = m s
  when false m s = (ok tt, s)

  -- `const row = rows[0]; if (!row) throw e`
  unfoldable pub found : {A : Type 0} → Option A → Failure → Program S A
  found (some a) e s = (ok a, s)
  found none e s = (err e, s)

  abbrev pub rolled_back : {A : Type 0} → S → Result A × S → Result A × S
  rolled_back s (ok a, t) = (ok a, t)
  rolled_back s (err e, t) = (err e, s)

  -- startTransaction, commitTransaction, and rollbackTransaction on an exception
  unfoldable pub transaction : {A : Type 0} → Program S A → Program S A
  transaction m s = rolled_back s (m s)

  abbrev pub handled : {A : Type 0} → Result A × S → (Failure → Program S A) → Result A × S
  handled (ok a, s) h = (ok a, s)
  handled (err e, s) h = h e s

  -- try { m } catch (error) { h(error) }
  unfoldable pub catch : {A : Type 0} → Program S A → (Failure → Program S A) → Program S A
  catch m h s = handled (m s) h

  -- try { m } finally { h }: an exception of `h` replaces the outcome
  abbrev pub finished : {A : Type 0} → Result A × S → Program S (Unit {0}) → Result A × S
  finished (ok a, s) h = after (h s) (λ _ t. (ok a, t))
  finished (err e, s) h = after (h s) (λ _ t. (err e, t))

  unfoldable pub finally : {A : Type 0} → Program S A → Program S (Unit {0}) → Program S A
  finally m h s = finished (m s) h

-- What relates the state before to the state after, whatever the program returns.
pub record Preorder (S : Type 0) : Type 1 where
  pub rel : S → S → Type 0
  pub rel_refl : (s : S) → rel s s
  pub rel_trans : (s t u : S) → rel s t → rel t u → rel s u

module _ {S : Type 0} (o : Preorder S) where
  pub record Follows {A : Type 0} (m : Program S A) : Type 0 where
    pub run : (s : S) → o.rel s (m s).1

  pub Follows-write : {f : S → S} → ((s : S) → o.rel s (f s)) → Follows (write f)
  unfolding write
  Follows-write h = record { run = λ s. h s }

  pub Follows-return : {A : Type 0} (a : A) → Follows (return a)
  unfolding return
  Follows-return a = record { run = λ s. o.rel_refl s }

  pub Follows-throw : (A : Type 0) (e : Failure) → Follows (throw {A = A} e)
  unfolding throw
  Follows-throw A e = record { run = λ s. o.rel_refl s }

  pub Follows-read : {A : Type 0} (f : S → A) → Follows (read f)
  unfolding read
  Follows-read f = record { run = λ s. o.rel_refl s }

  require_rel : (b : Bool) (e : Failure) (s : S) → o.rel s (require b e s).1
  unfolding require
  require_rel true e s = o.rel_refl s
  require_rel false e s = o.rel_refl s

  pub Follows-require : (b : Bool) (e : Failure) → Follows (require b e)
  Follows-require b e = record { run = require_rel b e }

  found_rel : {A : Type 0} (a : Option A) (e : Failure) (s : S) → o.rel s (found a e s).1
  unfolding found
  found_rel none e s = o.rel_refl s
  found_rel (some a) e s = o.rel_refl s

  pub Follows-found : {A : Type 0} (a : Option A) (e : Failure) → Follows (found a e)
  Follows-found a e = record { run = found_rel a e }

  when_rel : (b : Bool) {m : Program S (Unit {0})} → Follows m → (s : S) → o.rel s (when b m s).1
  unfolding when
  when_rel true h s = h.run s
  when_rel false h s = o.rel_refl s

  pub Follows-when : (b : Bool) {m : Program S (Unit {0})} → Follows m → Follows (when b m)
  Follows-when b h = record { run = when_rel b h }

  after_rel :
      {A B : Type 0} (f : A → Program S B) (s : S) (r : Result A × S)
      → ((a : A) → Follows (f a))
      → o.rel s r.1
      → o.rel s (after r f).1
  after_rel f s (ok a, t) k e = o.rel_trans s t _ e ((k a).run t)
  after_rel f s (err e, t) k h = h

  pub Follows-bind :
      {A B : Type 0} {m : Program S A} {f : A → Program S B}
      → Follows m
      → ((a : A) → Follows (f a))
      → Follows (m >>= f)
  unfolding ◌>>=◌
  Follows-bind {m = m} {f = f} h k = record { run = λ s. after_rel f s (m s) k (h.run s) }

  rolled_back_rel :
      {A : Type 0} (s : S) (r : Result A × S) → o.rel s r.1 → o.rel s (rolled_back s r).1
  rolled_back_rel s (ok a, t) h = h
  rolled_back_rel s (err e, t) h = o.rel_refl s

  pub Follows-transaction : {A : Type 0} {m : Program S A} → Follows m → Follows (transaction m)
  unfolding transaction
  Follows-transaction {m = m} h = record { run = λ s. rolled_back_rel s (m s) (h.run s) }

  handled_rel :
      {A : Type 0} (h : Failure → Program S A) (s : S) (r : Result A × S)
      → ((e : Failure) → Follows (h e))
      → o.rel s r.1
      → o.rel s (handled r h).1
  handled_rel h s (ok a, t) l e = e
  handled_rel h s (err e, t) l k = o.rel_trans s t _ k ((l e).run t)

  pub Follows-catch :
      {A : Type 0} {m : Program S A} {h : Failure → Program S A}
      → Follows m
      → ((e : Failure) → Follows (h e))
      → Follows (catch m h)
  unfolding catch
  Follows-catch {m = m} {h = h} k l = record { run = λ s. handled_rel h s (m s) l (k.run s) }

  -- A cleanup after an outcome, which it hands on unless it throws.
  cleaned_rel :
      {A : Type 0} (s : S) (x : Result A) (r : Result (Unit {0}) × S)
      → o.rel s r.1
      → o.rel s (after r (λ _ t. (x, t))).1
  cleaned_rel s x (ok a, t) l = l
  cleaned_rel s x (err e, t) l = l

  pub finished_rel :
      {A : Type 0} (s : S) (r : Result A × S) {h : Program S (Unit {0})}
      → o.rel s r.1
      → Follows h
      → o.rel s (finished r h).1
  finished_rel s (ok a, t) {h = h} l k = cleaned_rel s (ok a) (h t) (o.rel_trans s t _ l (k.run t))
  finished_rel s (err e, t) {h = h} l k =
      cleaned_rel s (err e) (h t) (o.rel_trans s t _ l (k.run t))

  pub Follows-finally :
      {A : Type 0} {m : Program S A} {h : Program S (Unit {0})}
      → Follows m
      → Follows h
      → Follows (finally m h)
  unfolding finally
  Follows-finally {m = m} l k = record { run = λ s. finished_rel s (m s) (l.run s) k }

  -- Runs followed from a start `a`, with what each test found.
  pub run-read :
      {A B : Type 0} (f : S → A) (k : A → Program S B) (a s : S)
      → o.rel a (k (f s) s).1
      → o.rel a ((read f >>= k) s).1
  unfolding ◌>>=◌ read
  run-read f k a s h = h

  pub run-write :
      {B : Type 0} (f : S → S) (k : Unit {0} → Program S B) (a s : S)
      → o.rel a (k tt (f s)).1
      → o.rel a ((write f >>= k) s).1
  unfolding ◌>>=◌ write
  run-write f k a s h = h

  pub run-require :
      {B : Type 0} (b : Bool) (e : Failure) (k : Unit {0} → Program S B) (a s : S)
      → o.rel a s
      → (b ≡ true → o.rel a (k tt s).1)
      → o.rel a ((require b e >>= k) s).1
  unfolding ◌>>=◌ require
  run-require true e k a s h go = go refl
  run-require false e k a s h go = h

  pub run-found :
      {A B : Type 0} (x : Option A) (e : Failure) (k : A → Program S B) (a s : S)
      → o.rel a s
      → ((y : A) → x ≡ some y → o.rel a (k y s).1)
      → o.rel a ((found x e >>= k) s).1
  unfolding ◌>>=◌ found
  run-found none e k a s h go = h
  run-found (some y) e k a s h go = go y refl

  -- A part whose outcome is known.
  pub run-bind :
      {A B : Type 0} (m : Program S A) (f : A → Program S B) (a s : S) (r : Result A × S)
      → m s ≡ r
      → o.rel a (after r f).1
      → o.rel a ((m >>= f) s).1
  unfolding ◌>>=◌
  run-bind m f a s r e h = rw e h

  pub run-rest : {A : Type 0} {m : Program S A} (a s : S) → o.rel a s → Follows m → o.rel a (m s).1
  run-rest a s h k = o.rel_trans a s _ h (k.run s)

-- Sequencing, at whatever preorder.
infixr 5 ◌⨾◌
pub ◌⨾◌ :
    {S A B : Type 0} {o : Preorder S} {m : Program S A} {f : A → Program S B}
    → Follows o m
    → ((a : A) → Follows o (f a))
    → Follows o (m >>= f)
◌⨾◌ {o = o} h k = Follows-bind o h k

pub ruleset flow = (
  Follows-return, Follows-throw, Follows-read, Follows-require, Follows-found, Follows-when,
  Follows-bind, Follows-transaction, Follows-catch, Follows-finally,
)
