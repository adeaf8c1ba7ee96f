-- ===== src/Common/Exec/Kept.antt =====
-- What code keeps of a state however it ends: by a return, an exception, or a failed assertion.
use mathlib.Core.Path.{◌≡◌, refl}
use mathlib.Core.Bool.{Bool, true, false}
use hyperion_server.Common.Tests.{if◌then◌else◌}
use hyperion_server.Common.Exec.{
  Error, Outcome, returned, thrown, aborted, Exec, pure, lift, gets, modify, assert, may_throw,
  try_catch, guarded, resume, leave, handle_with, ◌>>=◌, ◌>>◌,
}

pub record Kept {S A : Type 0} (P : S → Type 0) (m : Exec S A) : Type 0 where
  pub at : (s : S) → P s → P (m s).1

module _ {S : Type 0} {P : S → Type 0} where
  pub Kept-pure : {A : Type 0} (a : A) → Kept P (pure a)
  unfolding pure
  Kept-pure a = record { at = λ s p. p }

  pub Kept-assert : (b : Bool) → Kept P (assert b)
  unfolding assert
  Kept-assert true = record { at = λ s p. p }
  Kept-assert false = record { at = λ s p. p }

  pub Kept-may_throw : (b : Bool) (e : Error) → Kept P (may_throw b e)
  unfolding may_throw
  Kept-may_throw true e = record { at = λ s p. p }
  Kept-may_throw false e = record { at = λ s p. p }

  pub Kept-modify : (f : S → S) → ((s : S) → P s → P (f s)) → Kept P (modify f)
  unfolding modify
  Kept-modify f h = record { at = h }

  pub Kept-if :
      {A : Type 0} (b : Bool) {m n : Exec S A} → Kept P m → Kept P n → Kept P (if b then m else n)
  Kept-if true h k = h
  Kept-if false h k = k

  resume_kept :
      {A B : Type 0} (r : Outcome A) (f : A → Exec S B)
      → ((a : A) → r ≡ returned a → Kept P (f a))
      → (s : S) → P s
      → P (resume r f s).1
  resume_kept (returned a) f k s p = (k a refl).at s p
  resume_kept (thrown e) f k s p = p
  resume_kept aborted f k s p = p

  pub Kept-bind :
      {A B : Type 0} {m : Exec S A} {f : A → Exec S B}
      → Kept P m
      → ((a : A) → Kept P (f a))
      → Kept P (m >>= f)
  unfolding ◌>>=◌
  Kept-bind {m} {f} h k = record {
    at = λ s p. resume_kept (m s).0 f (λ a e. k a) (m s).1 (h.at s p);
  }

  -- The code that follows a known outcome runs where it is a result.
  pub Kept-lift :
      {A B : Type 0} (r : Outcome A) {f : A → Exec S B}
      → ((a : A) → r ≡ returned a → Kept P (f a))
      → Kept P (lift r >>= f)
  unfolding ◌>>=◌
  Kept-lift r {f} k = record { at = λ s p. resume_kept r f k s p }

  pub Kept-gets :
      {A B : Type 0} (g : S → A) {f : A → Exec S B}
      → ((a : A) → Kept P (f a))
      → Kept P (gets g >>= f)
  unfolding ◌>>=◌
  Kept-gets g {f} k = record { at = λ s p. (k (g s)).at s p }

  pub handle_kept :
      {A : Type 0} (r : Outcome A) (h : Error → Exec S A)
      → ((e : Error) → Kept P (h e))
      → (s : S) → P s
      → P (handle_with h r s).1
  handle_kept (returned a) h k s p = p
  handle_kept (thrown e) h k s p = (k e).at s p
  handle_kept aborted h k s p = p

  pub Kept-try :
      {A : Type 0} {m : Exec S A} {h : Error → Exec S A}
      → Kept P m
      → ((e : Error) → Kept P (h e))
      → Kept P (try_catch m h)
  unfolding try_catch
  Kept-try {m} {h} t k = record { at = λ s p. handle_kept (m s).0 h k (m s).1 (t.at s p) }

  pub leave_kept :
      {A : Type 0} (d : Exec S (Unit {0})) (r : Outcome A)
      → Kept P d
      → (s : S) → P s
      → P (leave d r s).1
  leave_kept d (returned a) k s p =
      resume_kept (d s).0 (λ _ t. (returned a, t)) (λ u e. record { at = λ t q. q }) (d s).1
        (k.at s p)
  leave_kept d (thrown x) k s p =
      resume_kept (d s).0 (λ _ t. (thrown x, t)) (λ u e. record { at = λ t q. q }) (d s).1
        (k.at s p)
  leave_kept d aborted k s p = p

  pub Kept-guarded :
      {A : Type 0} {d : Exec S (Unit {0})} {m : Exec S A}
      → Kept P d
      → Kept P m
      → Kept P (guarded d m)
  unfolding guarded
  Kept-guarded {d} {m} k h = record { at = λ s p. leave_kept d (m s).0 k (m s).1 (h.at s p) }

module _ {S : Type 0} {P : S → Type 0} where
  -- The same as `Kept-bind`, where it matters which value the first part returned.
  pub Kept-known :
      {A B : Type 0} {m : Exec S A} {f : A → Exec S B}
      → Kept P m
      → ((s : S) → P s → (a : A) → (m s).0 ≡ returned a → Kept P (f a))
      → Kept P (m >>= f)
  unfolding ◌>>=◌
  Kept-known {m} {f} h k = record { at = λ s p. resume_kept (m s).0 f (k s p) (m s).1 (h.at s p) }

  -- The same as `Kept-gets`, where it matters which value is read.
  pub Kept-read :
      {A B : Type 0} (g : S → A) {f : A → Exec S B}
      → ((s : S) → P s → (a : A) → g s ≡ a → Kept P (f a))
      → Kept P (gets g >>= f)
  unfolding ◌>>=◌
  Kept-read g {f} k = record { at = λ s p. (k s p (g s) refl).at s p }

module _ {S : Type 0} {P : S → Type 0} (P' : S → Type 0) where
  -- The first part may bring the state into a smaller set, which the rest keeps.
  pub Kept-enter :
      {A B : Type 0} (m : Exec S A) {n : Exec S B}
      → ((s : S) → P s → P' (m s).1)
      → ((s : S) → P' s → P s)
      → Kept P' n
      → Kept P (m >> n)
  unfolding ◌>>=◌
  Kept-enter m {n} into back h = record {
    at = λ s p. back _ (resume_kept {P = P'} (m s).0 (λ _. n) (λ a e. h) (m s).1 (into s p));
  }
