-- ===== src/Common/Triples.antt =====
-- What a program does from the states of a precondition: the values that it returns with the state
-- it leaves then, and the state that it leaves when it throws.
use mathlib.Core.Path.{◌≡◌, refl}
use mathlib.Core.Bool.{Bool, true, false}
use gnester_lite.Common.Handlers.{
  Failure, Result, ok, err, Program, after, ◌>>=◌, return, throw, read, write, require, when, catch,
  handled, finally, finished,
}

module _ {S : Type 0} where
  abbrev pub Outcome :
      {A : Type 0} → (A → S → Type 0) → (Failure → S → Type 0) → Result A × S → Type 0
  Outcome Q E (ok a, s) = Q a s
  Outcome Q E (err e, s) = E e s

  pub record Meets {A : Type 0} (P : S → Type 0) (m : Program S A) (Q : A → S → Type 0)
      (E : Failure → S → Type 0) : Type 0 where
    pub run : (s : S) → P s → Outcome Q E (m s)

  module _ {E : Failure → S → Type 0} where
    pub Meets-return :
        {A : Type 0} {P : S → Type 0} {Q : A → S → Type 0} (a : A)
        → ((s : S) → P s → Q a s)
        → Meets P (return a) Q E
    unfolding return
    Meets-return a h = record { run = h }

    pub Meets-throw :
        {A : Type 0} {P : S → Type 0} {Q : A → S → Type 0} (e : Failure)
        → ((s : S) → P s → E e s)
        → Meets P (throw e) Q E
    unfolding throw
    Meets-throw e h = record { run = h }

    pub Meets-read :
        {A : Type 0} {P : S → Type 0} {Q : A → S → Type 0} (f : S → A)
        → ((s : S) → P s → Q (f s) s)
        → Meets P (read f) Q E
    unfolding read
    Meets-read f h = record { run = h }

    pub Meets-write :
        {P : S → Type 0} {Q : Unit {0} → S → Type 0} (f : S → S)
        → ((s : S) → P s → Q tt (f s))
        → Meets P (write f) Q E
    unfolding write
    Meets-write f h = record { run = h }

    pub Meets-require :
        {P : S → Type 0} {Q : Unit {0} → S → Type 0} (b : Bool) (e : Failure)
        → ((s : S) → b ≡ true → P s → Q tt s)
        → ((s : S) → P s → E e s)
        → Meets P (require b e) Q E
    unfolding require
    Meets-require true e h k = record { run = λ s p. h s refl p }
    Meets-require false e h k = record { run = k }

    pub Meets-when :
        {P : S → Type 0} {Q : Unit {0} → S → Type 0} (b : Bool) (m : Program S (Unit {0}))
        → (b ≡ true → Meets P m Q E)
        → ((s : S) → b ≡ false → P s → Q tt s)
        → Meets P (when b m) Q E
    unfolding when
    Meets-when true m h k = record { run = λ s p. (h refl).run s p }
    Meets-when false m h k = record { run = λ s p. k s refl p }

    after_meets :
        {A B : Type 0} (R : A → S → Type 0) (Q : B → S → Type 0) (f : A → Program S B)
        (r : Result A × S)
        → Outcome R E r
        → ((a : A) → Meets (R a) (f a) Q E)
        → Outcome Q E (after r f)
    after_meets R Q f (ok a, s) h k = (k a).run s h
    after_meets R Q f (err e, s) h k = h

    pub Meets-bind :
        {A B : Type 0} {P : S → Type 0} {R : A → S → Type 0} {Q : B → S → Type 0} {m : Program S A}
        {f : A → Program S B}
        → Meets P m R E
        → ((a : A) → Meets (R a) (f a) Q E)
        → Meets P (m >>= f) Q E
    unfolding ◌>>=◌
    Meets-bind {R = R} {Q = Q} {m = m} {f = f} h k = record {
      run = λ s p. after_meets R Q f (m s) (h.run s p) k;
    }

    pub Meets-pre :
        {A : Type 0} {P R : S → Type 0} {Q : A → S → Type 0} {m : Program S A}
        → ((s : S) → P s → R s)
        → Meets R m Q E
        → Meets P m Q E
    Meets-pre h k = record { run = λ s p. k.run s (h s p) }

  outcome_post :
      {A : Type 0} (E : Failure → S → Type 0) (Q R : A → S → Type 0) (r : Result A × S)
      → ((a : A) (s : S) → Q a s → R a s)
      → Outcome Q E r
      → Outcome R E r
  outcome_post E Q R (ok a, s) h k = h a s k
  outcome_post E Q R (err e, s) h k = k

  pub Meets-post :
      {A : Type 0} {P : S → Type 0} {E : Failure → S → Type 0} {Q R : A → S → Type 0}
      {m : Program S A}
      → ((a : A) (s : S) → Q a s → R a s)
      → Meets P m Q E
      → Meets P m R E
  Meets-post {E = E} {Q = Q} {R = R} {m = m} h k = record {
    run = λ s p. outcome_post E Q R (m s) h (k.run s p);
  }

  module _ (F : Failure → S → Type 0) where
    cleaned_ok :
        {A : Type 0} (R : A → S → Type 0) (a : A) (r : Result (Unit {0}) × S)
        → Outcome (λ _. R a) F r
        → Outcome R F (after r (λ _ t. (ok a, t)))
    cleaned_ok R a (ok u, s) h = h
    cleaned_ok R a (err e, s) h = h

    cleaned_err :
        {A : Type 0} (R : A → S → Type 0) (e : Failure) (r : Result (Unit {0}) × S)
        → Outcome (λ _. F e) F r
        → Outcome R F (after r (λ _ t. (err e, t)))
    cleaned_err R e (ok u, s) h = h
    cleaned_err R e (err d, s) h = h

  module _ {E F : Failure → S → Type 0} where
    handled_meets :
        {A : Type 0} (Q : A → S → Type 0) (h : Failure → Program S A) (r : Result A × S)
        → Outcome Q E r
        → ((e : Failure) → Meets (E e) (h e) Q F)
        → Outcome Q F (handled r h)
    handled_meets Q h (ok a, s) o k = o
    handled_meets Q h (err e, s) o k = (k e).run s o

    pub Meets-catch :
        {A : Type 0} {P : S → Type 0} {Q : A → S → Type 0} {m : Program S A}
        {h : Failure → Program S A}
        → Meets P m Q E
        → ((e : Failure) → Meets (E e) (h e) Q F)
        → Meets P (catch m h) Q F
    unfolding catch
    Meets-catch {Q = Q} {m = m} {h = h} k l = record {
      run = λ s p. handled_meets Q h (m s) (k.run s p) l;
    }

    pub finished_meets :
        {A : Type 0} (Q R : A → S → Type 0) (h : Program S (Unit {0})) (r : Result A × S)
        → Outcome Q E r
        → ((a : A) → Meets (Q a) h (λ _. R a) F)
        → ((e : Failure) → Meets (E e) h (λ _. F e) F)
        → Outcome R F (finished r h)
    finished_meets Q R h (ok a, s) o k l = cleaned_ok F R a (h s) ((k a).run s o)
    finished_meets Q R h (err e, s) o k l = cleaned_err F R e (h s) ((l e).run s o)

    pub Meets-finally :
        {A : Type 0} {P : S → Type 0} {Q R : A → S → Type 0} {m : Program S A}
        {h : Program S (Unit {0})}
        → Meets P m Q E
        → ((a : A) → Meets (Q a) h (λ _. R a) F)
        → ((e : Failure) → Meets (E e) h (λ _. F e) F)
        → Meets P (finally m h) R F
    unfolding finally
    Meets-finally {Q = Q} {R = R} {m = m} {h = h} o k l = record {
      run = λ s p. finished_meets Q R h (m s) (o.run s p) k l;
    }
