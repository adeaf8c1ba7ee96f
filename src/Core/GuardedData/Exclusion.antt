-- ===== src/Core/GuardedData/Exclusion.antt =====
-- What the mutex is for.
use mathlib.Core.Path.{subst}
use hyperion_server.Common.{
  ℕ, ◌≡◌, refl, sym, ap, ◌∙◌, Bool, true, false, none, some, List, [], ◌∷◌, ◌++◌, Option-cases, inl,
  inr, arith,
}
use hyperion_server.Core.GuardedData.{
  Pc, outside, has_read, System, hold_mutex, guarded_access, read_value, write_value, end_access,
  new_system, Step, enter, reads, writes, leaves, Run, here, next,
}

abbrev pub is_inside : {T : Type 0} → Pc T → Bool
is_inside outside = false
is_inside _ = true

module _ {T : Type 0} (lock_of : ℕ → ℕ) (operation : ℕ → T → T) where
  -- An access that is in its scope holds its mutex.
  abbrev pub Owned : System T → Type 0
  Owned s = (i : ℕ) → is_inside (s.pc i) ≡ true → s.owner (lock_of i) ≡ some i

  pub granted :
      (i : ℕ) (s : System T)
      → s.owner (lock_of i) ≡ none
      → guarded_access lock_of i s ≡ some (hold_mutex lock_of i s)
  unfolding guarded_access
  granted i s f = rw (guarded_access, f) refl

  -- A mutex that was taken was free.
  entered :
      (i : ℕ) (s t : System T)
      → guarded_access lock_of i s ≡ some t
      → (s.owner (lock_of i) ≡ none) × (hold_mutex lock_of i s ≡ t)
  unfolding guarded_access
  entered i s t e = elim (Option-cases (s.owner (lock_of i))) [
    | inl f ↦ let held = granted i s f in (f, cc)
    | inr (j, f) ↦ let waits : guarded_access lock_of i s ≡ none = rw (guarded_access, f) refl in cc
  ]

  pub Step-Owned :
      {s t : System T} {log : List ℕ} → Step lock_of operation s log t → Owned s → Owned t
  unfolding read_value write_value end_access
  Step-Owned {s} (enter i {t} p e) h =
      let (f, g) = entered i s t e in subst Owned g (λ j q. ground (arith, p, h i, h j))
  Step-Owned {s} (reads i p e) h = subst Owned e (λ j q. ground (arith, p, h i, h j))
  Step-Owned {s} (writes i v p e l) h = subst Owned e (λ j q. ground (arith, p, h i, h j))
  Step-Owned {s} (leaves i p e) h = subst Owned e (λ j q. ground (arith, p, h i, h j))

  -- What an access has read is the data still.
  abbrev Current : System T → Type 0
  Current s = (i : ℕ) (v : T) → s.pc i ≡ has_read v → s.value ≡ v

  Step-Current :
      {s t : System T} {log : List ℕ}
      → ((i j : ℕ) → lock_of i ≡ lock_of j)
      → Step lock_of operation s log t
      → Owned s
      → Current s
      → Current t
  unfolding read_value write_value end_access
  Step-Current {s} shared (enter i {t} p e) o h =
      let (f, g) = entered i s t e in subst Current g (λ j v q. ground (arith, p, h j v))
  Step-Current {s} shared (reads i p e) o h = subst Current e (λ j v q. ground (arith, p, h j v))
  Step-Current {s} shared (writes i w p e l) o h =
      subst Current e (λ j v q. ground (arith, p, h j v, h i w, o i, o j, shared i j))
  Step-Current {s} shared (leaves i p e) o h =
      subst Current e (λ j v q. ground (arith, p, h i, h j v))

  -- The operations one after the other.
  abbrev pub serial : List ℕ → T → T
  serial [] value = value
  serial (i ∷ log) value = serial log (operation i value)

  serial-append :
      (log more : List ℕ) (value : T) → serial (log ++ more) value ≡ serial more (serial log value)
  serial-append [] more value = refl
  serial-append (i ∷ log) more value = serial-append log more (operation i value)

  Step-serial :
      {s t : System T} {log : List ℕ}
      → Step lock_of operation s log t
      → Current s
      → t.value ≡ serial log s.value
  unfolding read_value write_value end_access
  Step-serial {s} (enter i {t} p e) c = let (f, g) = entered i s t e in sym (ap (λ u. u.value) g)
  Step-serial {s} (reads i p e) c = sym (ap (λ u. u.value) e)
  Step-serial {s} (writes i v p e l) c =
      sym (ap (λ u. u.value) e) ∙ sym (ap (operation i) (c i v p)) ∙ ap (λ l. serial l s.value) l
  Step-serial {s} (leaves i p e) c = sym (ap (λ u. u.value) e)

  Run-Owned : {s t : System T} {log : List ℕ} → Run lock_of operation s log t → Owned s → Owned t
  Run-Owned here h = h
  Run-Owned (next r st) h = Step-Owned st (Run-Owned r h)

  pub Owned-apart :
      (s : System T)
      → Owned s
      → (i j : ℕ) → lock_of i ≡ lock_of j
      → is_inside (s.pc i) ≡ true
      → is_inside (s.pc j) ≡ true
      → i ≡ j
  Owned-apart s owned i j e p q = grind (arith, e, owned i p, owned j q)

  -- In every state that accesses reach in any order from new data, two accesses of one mutex are
  -- never in their scopes at once.
  pub guarded_access-Run :
      {s : System T} {log : List ℕ} (value : T)
      → Run lock_of operation (new_system value) log s
      → (i j : ℕ) → lock_of i ≡ lock_of j
      → is_inside (s.pc i) ≡ true
      → is_inside (s.pc j) ≡ true
      → i ≡ j
  unfolding new_system
  guarded_access-Run {s} value r i j e p q = Owned-apart s (Run-Owned r (λ k l. cc)) i j e p q

  Run-Current :
      {s t : System T} {log : List ℕ}
      → ((i j : ℕ) → lock_of i ≡ lock_of j)
      → Run lock_of operation s log t
      → Owned s
      → Current s
      → Current t
  Run-Current shared here o h = h
  Run-Current shared (next r st) o h =
      Step-Current shared st (Run-Owned r o) (Run-Current shared r o h)

  Run-serial :
      {s t : System T} {log : List ℕ}
      → ((i j : ℕ) → lock_of i ≡ lock_of j)
      → Run lock_of operation s log t
      → Owned s
      → Current s
      → t.value ≡ serial log s.value
  Run-serial shared here o h = refl
  Run-serial {s} shared (next {log} {more} r st) o h =
      Step-serial st (Run-Current shared r o h)
      ∙ ap (serial more) (Run-serial shared r o h)
      ∙ sym (serial-append log more s.value)

  -- Where all accesses use one mutex, the data is what their operations make of it one after the other,
  -- in the order of the writes, whatever the order in which the accesses take turns.
  pub Run-serial-new_system :
      {s : System T} {log : List ℕ} (value : T)
      → ((i j : ℕ) → lock_of i ≡ lock_of j)
      → Run lock_of operation (new_system value) log s
      → s.value ≡ serial log value
  unfolding new_system
  Run-serial-new_system value shared r = Run-serial shared r (λ k l. cc) (λ k v l. cc)
