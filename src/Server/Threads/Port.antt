-- ===== src/Server/Threads/Port.antt =====
-- The program where asio never opens the port.
use mathlib.Core.Path.{subst}
use hyperion_server.Common.{
  ℕ, ◌+◌, ◌≤◌, ◌≡◌, ◌&&◌, refl, sym, Bool, true, false, Option, none, some, List, [], ◌∷◌, ◌++◌,
  length, arith,
}
use hyperion_server.Common.Text.{Text}
use hyperion_server.Common.Exec.{thrown, system_error}
use hyperion_server.Media.Save.{Files, Answers}
use hyperion_server.Net.Acceptor.{Endpoint, endpoint_of, connection_acceptor}
use hyperion_server.Net.Props.{NetProp}
use hyperion_server.Net.Services.{Call}
use hyperion_server.Server.Loops.{stop}
use hyperion_server.Server.Threads.{
  Environment, MainPhase, reading, stopping, joining, over, ServicesPhase, making, starting,
  serving, left, Crash, no_acceptor, Program, new_program, join, main_at, made, services_at, Turn,
  of_main, of_services, turn_of, turn, run_turns,
}
use hyperion_server.Server.Threads.Turns.{
  if_keeps, unless_crashed_keeps, tally, is_main, is_services,
}
use hyperion_server.Server.Threads.Ending.{is_ended, run_turns-IsEnded}

refused :
    (opens : Endpoint → Bool) (d : Endpoint) (net_prop : NetProp)
    → (opens d && opens (endpoint_of net_prop)) ≡ false
    → connection_acceptor opens d net_prop ≡ thrown system_error
unfolding connection_acceptor
refused opens d net_prop e = rw e refl

abbrev is_making : ServicesPhase → Bool
is_making (making n) = true
is_making _ = false

abbrev is_over : MainPhase → Bool
is_over over = true
is_over _ = false

-- Not aborted, or for want of an acceptor.
abbrev is_blameless : Option Crash → Bool
is_blameless none = true
is_blameless (some no_acceptor) = true
is_blameless _ = false

abbrev Stuck : Program → Type 0
Stuck p = (is_making p.services ≡ true) × (is_over p.main ≡ false) × (is_blameless p.crash ≡ true)

join-Stuck : (s : ServicesPhase) (p : Program) → is_making s ≡ true → Stuck p → Stuck (join s p)
join-Stuck (making n) p e h = h
join-Stuck starting p e h = cc
join-Stuck serving p e h = cc
join-Stuck left p e h = cc

main_at-Stuck : (m : MainPhase) (p : Program) → is_over m ≡ false → Stuck p → Stuck (main_at m p)
main_at-Stuck reading p e h =
    if_keeps Stuck p.terminal.services_exit _ _ (λ x. (h.0, refl, h.2)) (λ x. h)
main_at-Stuck stopping p e h = (h.0, refl, h.2)
main_at-Stuck joining p e h = join-Stuck p.services p h.0 h
main_at-Stuck over p e h = h

module _ (server : Environment)
    (shut : (i : ℕ)
      → (server.opens i server.default_endpoint
          && server.opens i (endpoint_of server.acceptor.net_prop))
        ≡ false) where
  services_at-Stuck :
      (answers : Answers) (call : Call) (s : ServicesPhase) (p : Program)
      → is_making s ≡ true
      → Stuck p
      → Stuck (services_at server answers call s p)
  services_at-Stuck answers call (making n) p e h =
      if_keeps Stuck p.terminal.services_exit _ _ (λ x. (h.0, h.1, refl))
        (λ x.
          subst (λ r. Stuck (made n r p))
            (sym
              (refused (server.opens n) server.default_endpoint server.acceptor.net_prop (shut n)))
            (refl, h.1, h.2))
  services_at-Stuck answers call starting p e h = cc
  services_at-Stuck answers call serving p e h = cc
  services_at-Stuck answers call left p e h = cc

  turn_of-Stuck : (t : Turn) (p : Program) → Stuck p → Stuck (turn_of server t p)
  turn_of-Stuck of_main p h = main_at-Stuck p.main p h.1 h
  turn_of-Stuck (of_services answers call) p h = services_at-Stuck answers call p.services p h.0 h

  run_turns-Stuck : (turns : List Turn) (p : Program) → Stuck p → Stuck (run_turns server turns p)
  unfolding run_turns turn
  run_turns-Stuck [] p h = h
  run_turns-Stuck (t ∷ turns) p h =
      run_turns-Stuck turns (turn server t p)
        (unless_crashed_keeps Stuck p.crash _ p (λ a. turn_of-Stuck t p h) h)

  new_program-Stuck : (files : Files) (lines : List Text) → Stuck (new_program files lines)
  unfolding new_program
  new_program-Stuck files lines = (refl, refl, refl)

  blamed :
      (m : MainPhase) (c : Option Crash)
      → is_over m ≡ false
      → is_blameless c ≡ true
      → is_ended m c ≡ true
      → c ≡ some no_acceptor
  blamed m (some no_acceptor) o b e = refl
  blamed m none o b e = ground arith
  blamed m (some crash) o b e = ground arith

  -- Where asio opens the port at no attempt, the user who types "stop" aborts the program: the
  -- assertion that there is an acceptor fails, with turns as in `run_turns-IsEnded`.
  pub run_turns-no_acceptor :
      (files : Files) (before after : List Text) (first second third : List Turn)
      → length before + 3 ≤ tally is_main first
      → 2 ≤ tally is_services second
      → 1 ≤ tally is_main third
      → (run_turns server
          (first ++ (second ++ third))
          (new_program files (before ++ stop ∷ after))).crash
        ≡ some no_acceptor
  run_turns-no_acceptor files before after first second third f g h =
      let p =
        run_turns server (first ++ (second ++ third))
          (new_program files (before ++ stop ∷ after)) in
      let stuck =
        run_turns-Stuck (first ++ (second ++ third)) _
          (new_program-Stuck files (before ++ stop ∷ after)) in
      let ends = run_turns-IsEnded server files before after first second third f g h in
      blamed p.main p.crash stuck.1 stuck.2 ends
