-- ===== src/Common/Exec/Triple.antt =====
-- What code does from the states of a set: a rule for each way to build code. A triple says that the
-- code is not aborted, where it returns and where it throws.
use mathlib.Core.Path.{◌≡◌, refl}
use mathlib.Core.Logic.{◌≢◌}
use mathlib.Core.Bool.{Bool, true, false}
use hyperion_server.Common.Tests.{if◌then◌else◌}
use hyperion_server.Common.Exec.{
  Error, Outcome, returned, thrown, aborted, Exec, pure, throw, lift, gets, modify, assert,
  may_throw, try_catch, guarded, resume, leave, handle_with, ◌>>=◌, ◌>>◌,
}

-- `Q` where the code returns, `E` where it throws.
abbrev pub Ends : {S A : Type 0} → (A → S → Type 0) → (S → Type 0) → Outcome A → S → Type 0
Ends Q E (returned a) s = Q a s
Ends Q E (thrown e) s = E s
Ends Q E aborted s = ⊥

pub record Triple {S A : Type 0} (P : S → Type 0) (m : Exec S A) (Q : A → S → Type 0)
    (E : S → Type 0) : Type 0 where
  pub at : (s : S) → P s → Ends Q E (m s).0 (m s).1

-- A triple that keeps one set of states, and whose results do not matter.
abbrev pub Keeps : {S A : Type 0} → (S → Type 0) → Exec S A → Type 0
Keeps P m = Triple P m (λ _ s. P s) P

module _ {S : Type 0} (P E : S → Type 0) where
  assert_ends :
      (b : Bool) (s : S)
      → b ≡ true
      → P s
      → Ends (λ (u : Unit {0}) t. P t) E (assert b s).0 (assert b s).1
  unfolding assert
  assert_ends true s e p = p
  assert_ends false s e p = cc

module _ {S : Type 0} (P : S → Type 0) where
  may_throw_ends :
      (b : Bool) (e : Error) (s : S)
      → P s
      → Ends (λ (u : Unit {0}) t. P t) P (may_throw b e s).0 (may_throw b e s).1
  unfolding may_throw
  may_throw_ends true e s p = p
  may_throw_ends false e s p = p

module _ {S A B : Type 0} (E : S → Type 0) (R : A → S → Type 0) (Q : B → S → Type 0) where
  bind_ends :
      (r : Outcome A) (s : S) (f : A → Exec S B)
      → Ends R E r s
      → ((a : A) → Triple (R a) (f a) Q E)
      → Ends Q E (resume r f s).0 (resume r f s).1
  bind_ends (returned a) s f h k = (k a).at s h
  bind_ends (thrown e) s f h k = h
  bind_ends aborted s f h k = h

module _ {S A : Type 0} (E F : S → Type 0) (Q : A → S → Type 0) where
  try_ends :
      (r : Outcome A) (s : S) (h : Error → Exec S A)
      → Ends Q F r s
      → ((e : Error) → Triple F (h e) Q E)
      → Ends Q E (handle_with h r s).0 (handle_with h r s).1
  try_ends (returned a) s h q k = q
  try_ends (thrown e) s h q k = (k e).at s q
  try_ends aborted s h q k = q

module _ {S A : Type 0} (E F : S → Type 0) (R Q : A → S → Type 0) where
  leave_ends :
      (d : Exec S (Unit {0})) (r : Outcome A) (s : S)
      → Ends R F r s
      → ((a : A) → Triple (R a) d (λ _ t. Q a t) E)
      → Triple F d (λ _ t. E t) E
      → Ends Q E (leave d r s).0 (leave d r s).1
  leave_ends d (returned a) s h k l =
      bind_ends E (λ _ t. Q a t) Q (d s).0 (d s).1 (λ _ t. (returned a, t)) ((k a).at s h)
        (λ _. record { at = λ t q. q })
  leave_ends d (thrown e) s h k l =
      bind_ends E (λ _ t. E t) Q (d s).0 (d s).1 (λ _ t. (thrown e, t)) (l.at s h)
        (λ _. record { at = λ t q. q })
  leave_ends d aborted s h k l = h

module _ {S A : Type 0} (E E' : S → Type 0) (Q Q' : A → S → Type 0) where
  weaken_ends :
      (r : Outcome A) (s : S)
      → ((a : A) (s : S) → Q a s → Q' a s)
      → ((s : S) → E s → E' s)
      → Ends Q E r s
      → Ends Q' E' r s
  weaken_ends (returned a) s q e h = q a s h
  weaken_ends (thrown x) s q e h = e s h
  weaken_ends aborted s q e h = h

module _ {S A : Type 0} {P E : S → Type 0} where
  pub Triple-pure : {Q : A → S → Type 0} (a : A) → ((s : S) → P s → Q a s) → Triple P (pure a) Q E
  unfolding pure
  Triple-pure a h = record { at = h }

  pub Triple-gets : (f : S → A) → Triple P (gets f) (λ a s. P s × (a ≡ f s)) E
  unfolding gets
  Triple-gets f = record { at = λ s p. (p, refl) }

  pub Triple-throw :
      {Q : A → S → Type 0} (e : Error) → ((s : S) → P s → E s) → Triple P (throw e) Q E
  unfolding throw
  Triple-throw e h = record { at = h }

module _ {S A B : Type 0} {P E : S → Type 0} {Q : B → S → Type 0} where
  -- To read from the state changes nothing.
  pub Triple-read :
      {f : S → A} {k : A → Exec S B}
      → ((a : A) → Triple (λ s. P s × (a ≡ f s)) (k a) Q E)
      → Triple P (gets f >>= k) Q E
  unfolding ◌>>=◌
  Triple-read {f} {k} h = record { at = λ s p. (h (f s)).at s (p, refl) }

  -- The same where the value that is read does not matter.
  pub Triple-look :
      (f : S → A) {k : A → Exec S B} → ((a : A) → Triple P (k a) Q E) → Triple P (gets f >>= k) Q E
  unfolding ◌>>=◌
  Triple-look f {k} h = record { at = λ s p. (h (f s)).at s p }

module _ {S : Type 0} {P E : S → Type 0} where
  pub Triple-modify :
      {Q : S → Type 0} (f : S → S) → ((s : S) → P s → Q (f s)) → Triple P (modify f) (λ _ s. Q s) E
  unfolding modify
  Triple-modify f h = record { at = h }

  pub Triple-assert : (b : Bool) → ((s : S) → P s → b ≡ true) → Triple P (assert b) (λ _ s. P s) E
  Triple-assert b h = record { at = λ s p. assert_ends P E b s (h s p) p }

module _ {S : Type 0} (P E : S → Type 0) where
  throws_ends :
      (b : Bool) (e : Error) (s : S)
      → (b ≡ true → E s)
      → P s
      → Ends (λ (u : Unit {0}) t. P t) E (may_throw b e s).0 (may_throw b e s).1
  unfolding may_throw
  throws_ends true e s h p = h refl
  throws_ends false e s h p = p

module _ {S : Type 0} {P E : S → Type 0} where
  -- The states where it throws may rest on the answer.
  pub Triple-throws :
      (b : Bool) (e : Error)
      → ((s : S) → P s → b ≡ true → E s)
      → Triple P (may_throw b e) (λ _ s. P s) E
  Triple-throws b e h = record { at = λ s p. throws_ends P E b e s (h s p) p }

module _ {S : Type 0} {P : S → Type 0} where
  pub Triple-may_throw : (b : Bool) (e : Error) → Triple P (may_throw b e) (λ _ s. P s) P
  Triple-may_throw b e = record { at = may_throw_ends P b e }

module _ {S A B : Type 0} {P E : S → Type 0} {R : A → S → Type 0} {Q : B → S → Type 0} where
  pub Triple-bind :
      {m : Exec S A} {f : A → Exec S B}
      → Triple P m R E
      → ((a : A) → Triple (R a) (f a) Q E)
      → Triple P (m >>= f) Q E
  unfolding ◌>>=◌
  Triple-bind {m} {f} h k = record { at = λ s p. bind_ends E R Q (m s).0 (m s).1 f (h.at s p) k }

module _ {S A B : Type 0} {P E R : S → Type 0} {Q : B → S → Type 0} where
  pub Triple-then :
      {m : Exec S A} {n : Exec S B}
      → Triple P m (λ _ s. R s) E
      → Triple R n Q E
      → Triple P (m >> n) Q E
  unfolding ◌>>=◌
  Triple-then {m} {n} h k = record {
    at = λ s p. bind_ends E (λ _ t. R t) Q (m s).0 (m s).1 (λ _. n) (h.at s p) (λ a. k);
  }

module _ {S A : Type 0} {P E F : S → Type 0} {Q : A → S → Type 0} where
  pub Triple-try :
      {m : Exec S A} {h : Error → Exec S A}
      → Triple P m Q F
      → ((e : Error) → Triple F (h e) Q E)
      → Triple P (try_catch m h) Q E
  unfolding try_catch
  Triple-try {m} {h} t k = record { at = λ s p. try_ends E F Q (m s).0 (m s).1 h (t.at s p) k }

module _ {S A : Type 0} {P E : S → Type 0} {Q : A → S → Type 0} where
  pub Triple-if :
      (b : Bool) {m n : Exec S A}
      → Triple P m Q E
      → Triple P n Q E
      → Triple P (if b then m else n) Q E
  Triple-if true t u = t
  Triple-if false t u = u

module _ {S A : Type 0} {P E F : S → Type 0} {R Q : A → S → Type 0} where
  -- `d` runs both after a return and after an exception.
  pub Triple-guarded :
      {d : Exec S (Unit {0})} {m : Exec S A}
      → Triple P m R F
      → ((a : A) → Triple (R a) d (λ _ t. Q a t) E)
      → Triple F d (λ _ t. E t) E
      → Triple P (guarded d m) Q E
  unfolding guarded
  Triple-guarded {d} {m} h k l = record {
    at = λ s p. leave_ends E F R Q d (m s).0 (m s).1 (h.at s p) k l;
  }

module _ {S A : Type 0} {P P' E E' : S → Type 0} {Q Q' : A → S → Type 0} where
  pub Triple-weaken :
      {m : Exec S A}
      → Triple P m Q E
      → ((s : S) → P' s → P s)
      → ((a : A) (s : S) → Q a s → Q' a s)
      → ((s : S) → E s → E' s)
      → Triple P' m Q' E'
  Triple-weaken {m} t p q e = record {
    at = λ s h. weaken_ends E E' Q Q' (m s).0 (m s).1 q e (t.at s (p s h));
  }

module _ {S A : Type 0} (E : S → Type 0) (Q : A → S → Type 0) (T : Type 0) where
  frame_ends :
      (r : Outcome A) (s : S) → T → Ends Q E r s → Ends (λ a t. Q a t × T) (λ t. E t × T) r s
  frame_ends (returned a) s t h = (h, t)
  frame_ends (thrown x) s t h = (h, t)
  frame_ends aborted s t h = h

module _ {S A : Type 0} {P E : S → Type 0} {Q : A → S → Type 0} where
  -- What does not depend on the state stays true.
  pub Triple-frame :
      (T : Type 0) {m : Exec S A}
      → Triple P m Q E
      → Triple (λ s. P s × T) m (λ a s. Q a s × T) (λ s. E s × T)
  Triple-frame T {m} h = record { at = λ s p. frame_ends E Q T (m s).0 (m s).1 p.1 (h.at s p.0) }

module _ {S A : Type 0} {P : S → Type 0} where
  pub Triple-lift :
      (r : Outcome A) → r ≢ aborted → Triple P (lift r) (λ a s. P s × (r ≡ returned a)) P
  unfolding lift
  Triple-lift (returned a) h = record { at = λ s p. (p, refl) }
  Triple-lift (thrown e) h = record { at = λ s p. p }
  Triple-lift aborted h = absurd (h refl)
