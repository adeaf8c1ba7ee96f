-- ===== src/Core/ExecutionTimer/Stopped.antt =====
-- What the timers leave in the map.
use hyperion_server.Common.{
  ℕ, ◌≡◌, ◌≢◌, refl, Bool, true, false, Option, none, some, List, [], ◌∷◌, arith, ◌||◌, ◌&&◌,
  if◌then◌else◌,
}
use hyperion_server.Common.Int.{ℤ}
use hyperion_server.Common.Text.{Text, same_text, same_text_iff}
use hyperion_server.Core.ExecutionTimer.{
  ExecutionTimer, elapsed, lookup, assign, stop, destroy_timer, mutex_of,
}
use hyperion_server.Core.GuardedData.Exclusion.{granted}
use hyperion_server.Core.GuardedData.{
  inside, System, hold_mutex, new_system, enter, Run, here, next,
}

abbrev pub is_some : {A : Type 0} → Option A → Bool
is_some none = false
is_some (some a) = true

module _ {T : Type 0} where
  assigned : (room : Bool) (name key : Text) (time : T) (times : List (Text × T)) → Option T
  unfolding assign lookup
  assigned room name key time times = elim (assign room name time times) [
    | none ↦ lookup key times
    | some later ↦ lookup key later
  ]

  -- The map after an assignment, by its entries.
  lookup-assign :
      (room : Bool) (name key : Text) (time : T) (times : List (Text × T))
      → assigned room name key time times ≡ (
          if same_text key name && (room || is_some (lookup name times))
          then some time
          else lookup key times)
  unfolding assign lookup assigned
  lookup-assign true name key time [] = ground arith
  lookup-assign false name key time [] = ground arith
  lookup-assign room name key time ((k, old) ∷ times) =
      let rest = lookup-assign room name key time times in
      ground (arith, rest, same_text_iff name k, same_text_iff key k, same_text_iff key name)

  module _ (milliseconds : ℤ → T) where
    -- `Stop` sets the entry of the timer's name to the time from the timer's start to now, unless the
    -- name is new and there is no room for it, and every other entry stays.
    pub lookup-stop :
        (room : Bool) (timer : ExecutionTimer) (now : ℕ) (key : Text) (times : List (Text × T))
        → lookup key (stop milliseconds room timer now times) ≡ (
            if same_text key timer.timer_name && (room || is_some (lookup timer.timer_name times))
            then some (milliseconds (elapsed timer.start_time now))
            else lookup key times)
    unfolding stop assigned
    lookup-stop room timer now key times =
        let time = milliseconds (elapsed timer.start_time now) in
        ground (arith, lookup-assign room timer.timer_name key time times)

    -- Where a timer was stopped and there was room for its time, its destruction puts the time up
    -- to the destruction in the place of the time up to the stop.
    pub destroy_timer-stop :
        (room : Bool) (timer : ExecutionTimer) (early late : ℕ) (times : List (Text × T))
        → lookup timer.timer_name
            (destroy_timer milliseconds room timer late (stop milliseconds true timer early times))
          ≡ some (milliseconds (elapsed timer.start_time late))
    unfolding destroy_timer
    destroy_timer-stop room timer early late times =
        let name = timer.timer_name in
        ground (
          arith,
          lookup-stop room timer late name (stop milliseconds true timer early times),
          lookup-stop true timer early name times,
          same_text_iff name name,
        )

-- `measuredTimesMutex_` does not exclude: from any map two different timers come to be in their
-- scopes at once, where each may assign to it. `std::lock_guard` locks as a `GuardedAccess` does.
timers_inside :
    {T : Type 0} (operation : ℕ → T → T) (i j : ℕ) (times : T)
    → i ≢ j
    → (s : System T) × Run mutex_of operation (new_system times) [] s
      × (s.pc i ≡ inside)
      × (s.pc j ≡ inside)
unfolding new_system
timers_inside operation i j times n =
    let s = new_system times in
    let t = hold_mutex mutex_of i s in
    (
      hold_mutex mutex_of j t,
      next (next here (enter i refl (granted mutex_of operation i s refl)))
          (enter j (ground arith) (granted mutex_of operation j t (ground arith))),
      ground arith,
      ground arith,
    )
