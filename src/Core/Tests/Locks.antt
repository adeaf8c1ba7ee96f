-- ===== src/Core/Tests/Locks.antt =====
-- Two accesses of a counter, and two timers, run.
use hyperion_server.Common.{ℕ, ◌+◌, ◌≡◌, refl, true, false, none, some, [], ◌∷◌}
use hyperion_server.Common.Int.{ℤ, pos}
use hyperion_server.Common.Text.{codes, same_text}
use hyperion_server.Core.GuardedData.{
  System, hold_mutex, guarded_access, read_value, write_value, end_access, new_system, Run, enter,
  reads, writes, leaves, here, next,
}
use hyperion_server.Core.GuardedData.Exclusion
use hyperion_server.Core.ExecutionTimer.{
  ExecutionTimer, execution_timer, lookup, stop, destroy_timer,
}
use hyperion_server.Core.ExecutionTimer.Stopped

abbrev first : ℕ
first = 0

abbrev one_mutex : ℕ → ℕ
one_mutex i = 7

-- What the access `i` does to the counter.
abbrev add_to : ℕ → ℕ → ℕ
add_to i value = value + 10 + i

abbrev entered_once : System ℕ
entered_once = hold_mutex one_mutex 0 (new_system 5)

held_once : Run one_mutex add_to (new_system 5) [] entered_once
unfolding guarded_access new_system
held_once = next here (enter 0 refl refl)

abbrev counted_once : System ℕ
counted_once = end_access one_mutex 0 (write_value 0 15 (read_value 0 entered_once))

Run-once : Run one_mutex add_to (new_system 5) (0 ∷ []) counted_once
unfolding guarded_access new_system read_value write_value end_access
Run-once =
    next (next (next held_once (reads 0 refl refl)) (writes 0 5 refl refl refl))
      (leaves 0 refl refl)

abbrev counted_twice : System ℕ
counted_twice = write_value 1 26 (read_value 1 (hold_mutex one_mutex 1 counted_once))

Run-twice : Run one_mutex add_to (new_system 5) (0 ∷ 1 ∷ []) counted_twice
unfolding guarded_access new_system read_value write_value end_access
Run-twice =
    next (next (next Run-once (enter 1 refl refl)) (reads 1 refl refl)) (writes 1 15 refl refl refl)

held_inside : Exclusion.is_inside (entered_once.pc 0) ≡ true
unfolding new_system
held_inside = refl

guarded_access-Run_example : first ≡ first
guarded_access-Run_example =
    Exclusion.guarded_access-Run one_mutex add_to 5 held_once 0 0 refl held_inside held_inside

Run-serial-new_system_example :
    counted_twice.value ≡ Exclusion.serial one_mutex add_to (0 ∷ 1 ∷ []) 5
Run-serial-new_system_example =
    Exclusion.Run-serial-new_system one_mutex add_to 5 (λ i j. refl) Run-twice

abbrev timer : ℕ → ExecutionTimer
timer i = execution_timer (i ∷ []) 100

abbrev microseconds : ℤ → ℤ
microseconds time = time

lookup-stop_example :
    lookup (codes "load") (stop microseconds false (execution_timer (codes "load") 100) 130 [])
    ≡ none
unfolding same_text lookup
lookup-stop_example =
    Stopped.lookup-stop microseconds false (execution_timer (codes "load") 100) 130 (codes "load")
      []

destroy_timer-stop_example :
    lookup
      (3 ∷ [])
      (destroy_timer microseconds true (timer 3) 180 (stop microseconds true (timer 3) 130 []))
    ≡ some (pos 80)
destroy_timer-stop_example = Stopped.destroy_timer-stop microseconds true (timer 3) 130 180 []
