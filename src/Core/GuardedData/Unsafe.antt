-- ===== src/Core/GuardedData/Unsafe.antt =====
-- What `GetUnsafe` does to data that accesses guard.
use hyperion_server.Common.{ℕ, ◌≡◌, refl, true, List}
use hyperion_server.Core.GuardedData.{
  System, guarded_access, read_value, write_value, set_unsafe, new_system, Step, enter, reads,
  writes,
}
use hyperion_server.Core.GuardedData.Exclusion.{Owned, Step-Owned, Owned-apart, is_inside}

module _ {T : Type 0} (lock_of : ℕ → ℕ) (operation : ℕ → T → T) where
  -- Guarded accesses with writes past the mutex between them.
  pub data MixedRun (s : System T) : System T → Type 0 where
    new : MixedRun s s
    guarded_step :
        {t u : System T} {log : List ℕ}
        → MixedRun s t
        → Step lock_of operation t log u
        → MixedRun s u
    unsafe_step : {t : System T} (value : T) → MixedRun s t → MixedRun s (set_unsafe value t)

  MixedRun-Owned :
      {s t : System T} → MixedRun s t → Owned lock_of operation s → Owned lock_of operation t
  unfolding set_unsafe
  MixedRun-Owned new h = h
  MixedRun-Owned (guarded_step r st) h = Step-Owned lock_of operation st (MixedRun-Owned r h)
  MixedRun-Owned (unsafe_step value r) h = MixedRun-Owned r h

  -- Also with writes past the mutex between them, two accesses of one mutex are never in their scopes
  -- at once.
  pub set_unsafe-MixedRun :
      {s : System T} (value : T)
      → MixedRun (new_system value) s
      → (i j : ℕ) → lock_of i ≡ lock_of j
      → is_inside (s.pc i) ≡ true
      → is_inside (s.pc j) ≡ true
      → i ≡ j
  unfolding new_system
  set_unsafe-MixedRun {s} value r i j e p q =
      Owned-apart lock_of operation s (MixedRun-Owned r (λ k l. cc)) i j e p q

  -- But a write past the mutex may be lost: an access that has read the data before it leaves
  -- nothing of it.
  pub set_unsafe_lost :
      (value lost : T)
      → (s : System T) × MixedRun (new_system value) s × (s.value ≡ operation 0 value)
  unfolding set_unsafe new_system guarded_access read_value write_value
  set_unsafe_lost value lost = (
    _,
    guarded_step
        (unsafe_step lost (guarded_step (guarded_step new (enter 0 refl refl)) (reads 0 refl refl)))
        (writes 0 value refl refl refl),
    refl,
  )
