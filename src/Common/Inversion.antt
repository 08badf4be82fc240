-- ===== src/Common/Inversion.antt =====
-- What a run that returned a value says of its parts.
use mathlib.Core.Path.{◌≡◌, refl, ap, sym, ◌∙◌}
use mathlib.Core.Bool.{Bool, true, false}
use mathlib.Core.Option.{Option, none, some}
use gnester_lite.Common.Handlers.{
  Failure, Result, ok, err, Program, after, ◌>>=◌, return, throw, read, write, require, found,
  rolled_back, transaction, handled, catch, finished, finally,
}

module _ {S : Type 0} where
  -- The run ends with the value `a` in the state `t`.
  abbrev pub Returns : {A : Type 0} → Program S A → S → A → S → Type 0
  Returns m s a t = m s ≡ (ok a, t)

  after-eq_ok :
      {A B : Type 0} (r : Result A × S) (f : A → Program S B) (b : B) (t : S)
      → after r f ≡ (ok b, t)
      → (a : A) × (v : S) × (r ≡ (ok a, v)) × Returns (f a) v b t
  after-eq_ok (ok a, v) f b t h = (a, v, refl, h)
  after-eq_ok (err e, v) f b t h = absurd (cc (ap (λ (r : _). r.0) h))

  pub bind-Returns :
      {A B : Type 0} (m : Program S A) (f : A → Program S B) (s : S) (b : B) (t : S)
      → Returns (m >>= f) s b t
      → (a : A) × (v : S) × Returns m s a v × Returns (f a) v b t
  unfolding ◌>>=◌
  bind-Returns m f s b t h = after-eq_ok (m s) f b t h

  pub read-bind :
      {A B : Type 0} (f : S → A) (k : A → Program S B) (s : S) (b : B) (t : S)
      → Returns (read f >>= k) s b t
      → Returns (k (f s)) s b t
  unfolding ◌>>=◌ read
  read-bind f k s b t h = h

  pub write-bind :
      {B : Type 0} (f : S → S) (k : Unit {0} → Program S B) (s : S) (b : B) (t : S)
      → Returns (write f >>= k) s b t
      → Returns (k tt) (f s) b t
  unfolding ◌>>=◌ write
  write-bind f k s b t h = h

  pub require-bind :
      {B : Type 0} (c : Bool) (e : Failure) (k : Unit {0} → Program S B) (s : S) (b : B) (t : S)
      → Returns (require c e >>= k) s b t
      → (c ≡ true) × Returns (k tt) s b t
  unfolding ◌>>=◌ require
  require-bind true e k s b t h = (refl, h)
  require-bind false e k s b t h = absurd (cc (ap (λ (r : _). r.0) h))

  pub found-bind :
      {A B : Type 0} (o : Option A) (e : Failure) (k : A → Program S B) (s : S) (b : B) (t : S)
      → Returns (found o e >>= k) s b t
      → (a : A) × (o ≡ some a) × Returns (k a) s b t
  unfolding ◌>>=◌ found
  found-bind none e k s b t h = absurd (cc (ap (λ (r : _). r.0) h))
  found-bind (some a) e k s b t h = (a, refl, h)

  pub return-Returns :
      {A : Type 0} (a : A) (s : S) (b : A) (t : S) → Returns (return a) s b t → (b ≡ a) × (t ≡ s)
  unfolding return
  return-Returns a s b t h = (cc (ap (λ (r : _). r.0) h), sym (ap (λ (r : _). r.1) h))

  pub read-Returns :
      {A : Type 0} (f : S → A) (s : S) (b : A) (t : S)
      → Returns (read f) s b t
      → (b ≡ f s) × (t ≡ s)
  unfolding read
  read-Returns f s b t h = (cc (ap (λ (r : _). r.0) h), sym (ap (λ (r : _). r.1) h))

  pub found-Returns :
      {A : Type 0} (o : Option A) (e : Failure) (s : S) (b : A) (t : S)
      → Returns (found o e) s b t
      → (o ≡ some b) × (t ≡ s)
  unfolding found
  found-Returns none e s b t h = absurd (cc (ap (λ (r : _). r.0) h))
  found-Returns (some a) e s b t h =
      (ap (λ (x : _). some x) (cc (ap (λ (r : _). r.0) h)), sym (ap (λ (r : _). r.1) h))

  pub write-Returns : (f : S → S) (s : S) (u : Unit {0}) (t : S) → Returns (write f) s u t → t ≡ f s
  unfolding write
  write-Returns f s u t h = sym (ap (λ (r : _). r.1) h)

  pub require-Returns :
      (c : Bool) (e : Failure) (s : S) (u : Unit {0}) (t : S)
      → Returns (require c e) s u t
      → (c ≡ true) × (t ≡ s)
  unfolding require
  require-Returns true e s u t h = (refl, sym (ap (λ (r : _). r.1) h))
  require-Returns false e s u t h = absurd (cc (ap (λ (r : _). r.0) h))

  pub throw-Returns : {A : Type 0} (e : Failure) (s : S) (b : A) (t : S) → ¬ Returns (throw e) s b t
  unfolding throw
  throw-Returns e s b t h = absurd (cc (ap (λ (r : _). r.0) h))

  rolled_back-eq_ok :
      {A : Type 0} (s : S) (r : Result A × S) (a : A) (t : S)
      → rolled_back s r ≡ (ok a, t)
      → r ≡ (ok a, t)
  rolled_back-eq_ok s (ok b, v) a t h = h
  rolled_back-eq_ok s (err e, v) a t h = absurd (cc (ap (λ (r : _). r.0) h))

  pub transaction-Returns :
      {A : Type 0} (m : Program S A) (s : S) (a : A) (t : S)
      → Returns (transaction m) s a t
      → Returns m s a t
  unfolding transaction
  transaction-Returns m s a t h = rolled_back-eq_ok s (m s) a t h

  handled-eq_ok :
      {A : Type 0} (r : Result A × S) (h : Failure → Program S A) (a : A) (t : S)
      → ((e : Failure) (v : S) → ¬ Returns (h e) v a t)
      → handled r h ≡ (ok a, t)
      → r ≡ (ok a, t)
  handled-eq_ok (ok b, v) h a t k e = e
  handled-eq_ok (err f, v) h a t k e = absurd (k f v e)

  -- A handler that never returns leaves only the runs in which nothing was caught.
  pub catch-Returns :
      {A : Type 0} (m : Program S A) (h : Failure → Program S A) (s : S) (a : A) (t : S)
      → ((e : Failure) (v : S) → ¬ Returns (h e) v a t)
      → Returns (catch m h) s a t
      → Returns m s a t
  unfolding catch
  catch-Returns m h s a t k e = handled-eq_ok (m s) h a t k e

  -- A value returned after a cleanup was returned before it.
  finished-eq_ok :
      {A : Type 0} (r : Result A × S) (h : Program S (Unit {0})) (a : A) (t : S)
      → finished r h ≡ (ok a, t)
      → (v : S) × (u : Unit {0}) × (r ≡ (ok a, v)) × Returns h v u t
  finished-eq_ok (ok b, v) h a t e =
      let (u, w, before, rest) = after-eq_ok (h v) (λ _ t. (ok b, t)) a t e in
      (
        v,
        u,
        ap (λ (x : _). (x, v)) (ap (λ (r : _). r.0) rest),
        before ∙ ap (λ (x : S). (ok u, x)) (ap (λ (r : _). r.1) rest),
      )
  finished-eq_ok (err f, v) h a t e =
      let (u, w, before, rest) = after-eq_ok (h v) (λ _ t. (err f, t)) a t e in
      absurd (cc (ap (λ (r : _). r.0) rest))

  pub finally-Returns :
      {A : Type 0} (m : Program S A) (h : Program S (Unit {0})) (s : S) (a : A) (t : S)
      → Returns (finally m h) s a t
      → (v : S) × (u : Unit {0}) × Returns m s a v × Returns h v u t
  unfolding finally
  finally-Returns m h s a t e = finished-eq_ok (m s) h a t e

-- The same, with the facts handed to the proof that goes on.
module _ {S B P : Type 0} where
  pub bind-then :
      {A : Type 0} (m : Program S A) (f : A → Program S B) (s : S) (b : B) (t : S)
      → Returns (m >>= f) s b t
      → ((a : A) (v : S) → Returns m s a v → Returns (f a) v b t → P)
      → P
  bind-then m f s b t h k = let x = bind-Returns m f s b t h in k x.0 x.1 x.2 x.3

  pub read-then :
      {A : Type 0} (f : S → A) (k : A → Program S B) (s : S) (b : B) (t : S)
      → Returns (read f >>= k) s b t
      → (Returns (k (f s)) s b t → P)
      → P
  read-then f k s b t h go = go (read-bind f k s b t h)

  pub write-then :
      (f : S → S) (k : Unit {0} → Program S B) (s : S) (b : B) (t : S)
      → Returns (write f >>= k) s b t
      → (Returns (k tt) (f s) b t → P)
      → P
  write-then f k s b t h go = go (write-bind f k s b t h)

  pub require-then :
      (c : Bool) (e : Failure) (k : Unit {0} → Program S B) (s : S) (b : B) (t : S)
      → Returns (require c e >>= k) s b t
      → (c ≡ true → Returns (k tt) s b t → P)
      → P
  require-then c e k s b t h go = let x = require-bind c e k s b t h in go x.0 x.1

  pub found-then :
      {A : Type 0} (o : Option A) (e : Failure) (k : A → Program S B) (s : S) (b : B) (t : S)
      → Returns (found o e >>= k) s b t
      → ((a : A) → o ≡ some a → Returns (k a) s b t → P)
      → P
  found-then o e k s b t h go = let x = found-bind o e k s b t h in go x.0 x.1 x.2

  pub return-then :
      (a : B) (s : S) (b : B) (t : S) → Returns (return a) s b t → (b ≡ a → t ≡ s → P) → P
  return-then a s b t h go = let x = return-Returns a s b t h in go x.0 x.1
