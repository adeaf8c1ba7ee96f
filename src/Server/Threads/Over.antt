-- ===== src/Server/Threads/Over.antt =====
-- What holds when the program has ended normally.
use mathlib.Core.Path.{subst}
use native.Mathlib.Decide.{dec_lt}
use hyperion_server.Common.{◌≡◌, refl, sym, ◌∙◌, none, List, [], ◌∷◌, arith}
use hyperion_server.Common.Text.{Text}
use hyperion_server.Common.Exec.{Outcome, returned, thrown, aborted}
use hyperion_server.Media.Save.{Files}
use hyperion_server.Net.Gc.Sweep.{all_pending}
use hyperion_server.Server.{destroy_connections}
use hyperion_server.Server.Stopping.{destroy_connections-aborted}
use hyperion_server.Server.Threads.{
  Environment, MainPhase, reading, stopping, joining, over, ServicesPhase, making, starting,
  serving, left, Program, new_program, destroyed, join, main_at, services_at, Turn, of_main,
  of_services, turn_of, turn, run_turns,
}
use hyperion_server.Server.Threads.Turns.{if_keeps, unless_crashed_keeps, services_at_on}
use hyperion_server.Server.Threads.Following.{Follows, run_turns-Follows}

record IsClosed (p : Program) : Type 0 where
  alive : p.crash ≡ none
  returned_first : p.services ≡ left
  destroyed_all : destroy_connections p.world.connections ≡ returned tt

abbrev Closes : Program → Type 0
Closes p = p.main ≡ over → IsClosed p

destroyed-Closes :
    (r : Outcome (Unit {0})) (p : Program)
    → destroy_connections p.world.connections ≡ r
    → p.main ≡ joining
    → p.crash ≡ none
    → p.services ≡ left
    → Closes (destroyed r p)
destroyed-Closes (returned u) p e m a s =
    λ _. record { alive = a; returned_first = s; destroyed_all = e }
destroyed-Closes (thrown x) p e m a s = λ q. cc
destroyed-Closes aborted p e m a s = λ q. cc

join-Closes :
    (s : ServicesPhase) (p : Program)
    → p.services ≡ s
    → p.main ≡ joining
    → p.crash ≡ none
    → Closes (join s p)
join-Closes left p s m a = destroyed-Closes (destroy_connections p.world.connections) p refl m a s
join-Closes (making n) p s m a = λ q. cc
join-Closes starting p s m a = λ q. cc
join-Closes serving p s m a = λ q. cc

main_at-Closes :
    (m : MainPhase) (p : Program) → p.main ≡ m → p.crash ≡ none → Closes p → Closes (main_at m p)
main_at-Closes reading p m a h =
    if_keeps Closes p.terminal.services_exit _ _ (λ e q. cc) (λ e q. cc)
main_at-Closes stopping p m a h = λ q. cc
main_at-Closes joining p m a h = join-Closes p.services p refl m a
main_at-Closes over p m a h = h

module _ (server : Environment) where
  turn_of-Closes :
      (t : Turn) (p : Program) → p.crash ≡ none → Closes p → Closes (turn_of server t p)
  turn_of-Closes of_main p a h = main_at-Closes p.main p refl a h
  turn_of-Closes (of_services answers call) p a h = λ q.
      let same : (services_at server answers call p.services p).main ≡ p.main =
        services_at_on (λ m t stopped. m ≡ p.main) server answers call p.services p refl in
      let closed = h (sym same ∙ q) in
      subst (λ s. IsClosed (services_at server answers call s p)) (sym closed.returned_first) closed

  run_turns-Closes :
      (turns : List Turn) (p : Program) → Closes p → Closes (run_turns server turns p)
  unfolding run_turns turn
  run_turns-Closes [] p h = h
  run_turns-Closes (t ∷ turns) p h =
      run_turns-Closes turns (turn server t p)
        (unless_crashed_keeps Closes p.crash _ p (λ a. turn_of-Closes t p a h) h)

  new_program-Closes : (files : Files) (lines : List Text) → Closes (new_program files lines)
  unfolding new_program
  new_program-Closes files lines = λ q. cc

  idle :
      (files : Files) (p : Program)
      → Follows server files p.services p.world
      → IsClosed p
      → all_pending p.world.connections ≡ 0
  idle files p f c =
      let (answers, r) = subst (λ s. Follows server files s p.world) c.returned_first f in
      elim (dec_lt 0 (all_pending p.world.connections)) [
        | yes l ↦
            let aborts = destroy_connections-aborted server.acceptor answers files p.world r l in
            let ends = c.destroyed_all in cc
        | no n ↦ omega (arith, n)
      ]

  -- Whatever turns the two threads take from the start of the program: where it has ended and was
  -- not aborted, the thread of the services had returned, and asio had no operation of any
  -- connection pending.
  pub run_turns_over :
      (files : Files) (lines : List Text) (turns : List Turn)
      → (run_turns server turns (new_program files lines)).main ≡ over
      → ((run_turns server turns (new_program files lines)).services ≡ left)
        × (all_pending (run_turns server turns (new_program files lines)).world.connections ≡ 0)
  run_turns_over files lines turns o =
      let p = run_turns server turns (new_program files lines) in
      let closed =
        run_turns-Closes turns (new_program files lines) (new_program-Closes files lines) o in
      (
        closed.returned_first,
        idle files p (run_turns-Follows server files lines turns closed.alive) closed,
      )
