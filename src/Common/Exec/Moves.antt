-- ===== src/Common/Exec/Moves.antt =====
-- Code that takes the states of one set to those of a larger one, however it ends.
use hyperion_server.Common.Exec.{
  Error, Outcome, returned, thrown, aborted, Exec, lift, gets, try_catch, guarded, resume, ◌>>=◌,
}
use hyperion_server.Common.Exec.Kept.{Kept, leave_kept, handle_kept}

pub record Moves {S A : Type 0} (P Q : S → Type 0) (m : Exec S A) : Type 0 where
  pub at : (s : S) → P s → Q (m s).1

module _ {S : Type 0} {P Q : S → Type 0} where
  -- Code that keeps the smaller set.
  pub Moves-Kept : {A : Type 0} {m : Exec S A} → ((s : S) → P s → Q s) → Kept P m → Moves P Q m
  Moves-Kept up h = record { at = λ s p. up _ (h.at s p) }

  pub Moves-try :
      {A : Type 0} {m : Exec S A} {h : Error → Exec S A}
      → Moves P Q m
      → ((e : Error) → Kept Q (h e))
      → Moves P Q (try_catch m h)
  unfolding try_catch
  Moves-try {m} {h} t k = record { at = λ s p. handle_kept (m s).0 h k (m s).1 (t.at s p) }

  pub Moves-guarded :
      {A : Type 0} {d : Exec S (Unit {0})} {m : Exec S A}
      → Kept Q d
      → Moves P Q m
      → Moves P Q (guarded d m)
  unfolding guarded
  Moves-guarded {d} {m} k h = record { at = λ s p. leave_kept d (m s).0 k (m s).1 (h.at s p) }

  pub Moves-gets :
      {A B : Type 0} (g : S → A) {f : A → Exec S B}
      → ((a : A) → Moves P Q (f a))
      → Moves P Q (gets g >>= f)
  unfolding ◌>>=◌
  Moves-gets g {f} k = record { at = λ s p. (k (g s)).at s p }

module _ {S A B : Type 0} {R Q : S → Type 0} (up : (s : S) → R s → Q s) where
  resume_moves :
      (r : Outcome A) (f : A → Exec S B)
      → ((a : A) → Moves R Q (f a))
      → (s : S) → R s
      → Q (resume r f s).1
  resume_moves (returned a) f k s p = (k a).at s p
  resume_moves (thrown e) f k s p = up s p
  resume_moves aborted f k s p = up s p

  pub Moves-lift :
      (r : Outcome A) {f : A → Exec S B} → ((a : A) → Moves R Q (f a)) → Moves R Q (lift r >>= f)
  unfolding ◌>>=◌
  Moves-lift r {f} k = record { at = λ s p. resume_moves r f k s p }

module _ {S A B : Type 0} {P R Q : S → Type 0} (up : (s : S) → R s → Q s) where
  pub Moves-bind :
      {m : Exec S A} {f : A → Exec S B}
      → Moves P R m
      → ((a : A) → Moves R Q (f a))
      → Moves P Q (m >>= f)
  unfolding ◌>>=◌
  Moves-bind {m} {f} h k = record { at = λ s p. resume_moves up (m s).0 f k (m s).1 (h.at s p) }
