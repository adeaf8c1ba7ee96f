-- ===== src/Core/ExecutionTimer.antt =====
-- include/core/execution_timer.h and src/core/execution_timer.cpp: the time spent in a scope. The
-- clock's readings are arguments, in microseconds, and what `double` makes of a difference is
-- `milliseconds`. `measuredTimes` belongs to the class: all timers write to the one map.
pub mod Stopped
use hyperion_server.Common.{
  ℕ, ◌-◌, Bool, true, false, Option, none, some, List, [], ◌∷◌, leb, if◌then◌else◌,
}
use hyperion_server.Common.Int.{ℤ, pos, negsuc}
use hyperion_server.Common.Text.{Text, same_text}

pub record ExecutionTimer : Type 0 where
  pub timer_name : Text
  pub start_time : ℕ

-- `ExecutionTimer(name)`
abbrev pub execution_timer : Text → ℕ → ExecutionTimer
execution_timer name now = record { timer_name = name; start_time = now }

-- `measuredTimesMutex_` is a member that is not static: each timer locks its own.
abbrev pub mutex_of : ℕ → ℕ
mutex_of timer = timer

-- `end - start`
abbrev pub elapsed : ℕ → ℕ → ℤ
elapsed start end' = if leb start end' then pos (end' - start) else negsuc (start - end' - 1)

module _ {T : Type 0} where
  unfoldable pub lookup : Text → List (Text × T) → Option T
  lookup name [] = none
  lookup name ((key, time) ∷ times) =
      let rest = lookup name times in if same_text name key then some time else rest

  -- `measuredTimes[name] = time`: a name that is new needs room, and `none` is `std::bad_alloc`.
  unfoldable pub assign : Bool → Text → T → List (Text × T) → Option (List (Text × T))
  assign room name time [] = if room then some ((name, time) ∷ []) else none
  assign room name time ((key, old) ∷ times) =
      let rest = assign room name time times in
      if same_text name key
      then some ((key, time) ∷ times)
      else elim rest [ none ↦ none | some later ↦ some ((key, old) ∷ later) ]

  -- `Stop`, at `now`.
  unfoldable pub stop : (ℤ → T) → Bool → ExecutionTimer → ℕ → List (Text × T) → List (Text × T)
  stop milliseconds room timer now times =
      elim (assign room timer.timer_name (milliseconds (elapsed timer.start_time now)) times) [
        | none ↦ times
        | some later ↦ later
      ]

  -- `~ExecutionTimer()`
  unfoldable pub destroy_timer :
      (ℤ → T) → Bool → ExecutionTimer → ℕ → List (Text × T) → List (Text × T)
  unfolding stop
  destroy_timer milliseconds room timer now times = stop milliseconds room timer now times
