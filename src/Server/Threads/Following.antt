-- ===== src/Server/Threads/Following.antt =====
-- The two threads against the services alone.
use mathlib.Core.Path.{subst}
use hyperion_server.Common.{ℕ, ◌≡◌, ◌≢◌, ◌||◌, ◌==◌, refl, sym, ap, true, none, some, List, [], ◌∷◌}
use hyperion_server.Common.Text.{Text}
use hyperion_server.Common.Exec.{Outcome, returned, thrown, aborted}
use hyperion_server.Common.Exec.Triple.{Ends}
use hyperion_server.Media.Save.{Files, Answers}
use hyperion_server.Net.Acceptor.{Endpoint}
use hyperion_server.Net.Data.{World}
use hyperion_server.Net.Services.{Call, is_due, run_call, ran, Reach, here, next}
use hyperion_server.Net.Services.Valid.{IsSound, run_call-IsSound}
use hyperion_server.Server.{new_world, run_connection_services, destroy_connections}
use hyperion_server.Server.Startup.{run_connection_services-IsSound}
use hyperion_server.Server.Threads.Turns.{if_keeps, unless_crashed_keeps}
use hyperion_server.Server.Threads.{
  Environment, MainPhase, reading, stopping, joining, over, ServicesPhase, making, starting,
  serving, left, handler_assertion, Program, new_program, destroyed, join, main_at, made, began,
  called, work, services_at, Turn, of_main, of_services, turn_of, turn, run_turns,
}

module _ (server : Environment) (files : Files) where
  -- Where the services stand, and a state that they reach there when they run alone.
  abbrev pub Follows : ServicesPhase → World → Type 0
  Follows (making n) w = w ≡ new_world files
  Follows starting w = w ≡ new_world files
  Follows serving w =
      (answers : Answers) × Reach server.acceptor
        (run_connection_services answers (new_world files)).1 w
  Follows left w =
      (answers : Answers) × Reach server.acceptor
        (run_connection_services answers (new_world files)).1 w

  pub record IsTracked (p : Program) : Type 0 where
    pub follows : p.crash ≡ none → Follows p.services p.world
    pub asserted : p.crash ≢ some handler_assertion

  destroyed-IsTracked :
      (r : Outcome (Unit {0})) (p : Program) → IsTracked p → IsTracked (destroyed r p)
  destroyed-IsTracked (returned u) p t = record { follows = t.follows; asserted = t.asserted }
  destroyed-IsTracked (thrown e) p t = record { follows = λ e. cc; asserted = λ e. cc }
  destroyed-IsTracked aborted p t = record { follows = λ e. cc; asserted = λ e. cc }

  join-IsTracked : (s : ServicesPhase) (p : Program) → IsTracked p → IsTracked (join s p)
  join-IsTracked left p t = destroyed-IsTracked (destroy_connections p.world.connections) p t
  join-IsTracked (making n) p t = t
  join-IsTracked starting p t = t
  join-IsTracked serving p t = t

  main_at-IsTracked : (m : MainPhase) (p : Program) → IsTracked p → IsTracked (main_at m p)
  main_at-IsTracked reading p t =
      if_keeps IsTracked p.terminal.services_exit _ _
        (λ e. record { follows = t.follows; asserted = t.asserted })
        (λ e. record { follows = t.follows; asserted = t.asserted })
  main_at-IsTracked stopping p t = record { follows = t.follows; asserted = t.asserted }
  main_at-IsTracked joining p t = join-IsTracked p.services p t
  main_at-IsTracked over p t = t

  made-IsTracked :
      (n m : ℕ) (r : Outcome Endpoint) (p : Program)
      → p.services ≡ making m
      → p.crash ≡ none
      → IsTracked p
      → IsTracked (made n r p)
  made-IsTracked n m (returned e) p s q t = record {
    follows = λ _. subst (λ s. Follows s p.world) s (t.follows q);
    asserted = t.asserted;
  }
  made-IsTracked n m (thrown e) p s q t = record {
    follows = λ _. subst (λ s. Follows s p.world) s (t.follows q);
    asserted = t.asserted;
  }
  made-IsTracked n m aborted p s q t = record {
    follows = λ _. subst (λ s. Follows s p.world) s (t.follows q);
    asserted = t.asserted;
  }

  began-IsTracked :
      (answers : Answers) (r : Outcome (Unit {0})) (w : World) (p : Program)
      → (run_connection_services answers (new_world files)).1 ≡ w
      → IsTracked p
      → IsTracked (began r w p)
  began-IsTracked answers (returned u) w p e t = record {
    follows = λ _. (answers, subst (Reach server.acceptor _) e here);
    asserted = t.asserted;
  }
  began-IsTracked answers (thrown x) w p e t = record { follows = λ e. cc; asserted = λ e. cc }
  began-IsTracked answers aborted w p e t = record { follows = λ e. cc; asserted = λ e. cc }

  -- A handler that ran, from a state that the services reach.
  called-IsTracked :
      (now : Answers) (call : Call) (r : Outcome (Unit {0})) (w : World) (p : Program)
      → p.services ≡ serving
      → p.crash ≡ none
      → is_due call p.world ≡ true
      → run_call server.acceptor now call p.world ≡ (r, w)
      → IsTracked p
      → IsTracked (called r w p)
  called-IsTracked now call (returned u) w p s q d e t =
      let (answers, r) = subst (λ s. Follows s p.world) s (t.follows q) in
      record {
        follows = λ _. subst (λ s. Follows s w) (sym s) (answers, next r (ran now call d e));
        asserted = t.asserted;
      }
  called-IsTracked now call (thrown x) w p s q d e t = record {
    follows = λ e. cc;
    asserted = λ e. cc;
  }
  called-IsTracked now call aborted w p s q d e t =
      let (answers, r) = subst (λ s. Follows s p.world) s (t.follows q) in
      let sound = run_connection_services-IsSound server.acceptor answers files p.world r in
      absurd (
        subst (λ (o : Outcome (Unit {0}) × World). Ends (λ _. IsSound) (λ w. Unit) o.0 o.1) e
          (run_call-IsSound server.acceptor now call p.world sound d))

  services_at-IsTracked :
      (answers : Answers) (call : Call) (s : ServicesPhase) (p : Program)
      → p.services ≡ s
      → p.crash ≡ none
      → IsTracked p
      → IsTracked (services_at server answers call s p)
  services_at-IsTracked answers call (making n) p s q t =
      if_keeps IsTracked p.terminal.services_exit _ _
        (λ e. record { follows = λ e. cc; asserted = λ e. cc }) (λ e. made-IsTracked n n _ p s q t)
  services_at-IsTracked answers call starting p s q t =
      let same = subst (λ s. Follows s p.world) s (t.follows q) in
      began-IsTracked answers _ _ p (ap (λ w. (run_connection_services answers w).1) (sym same)) t
  services_at-IsTracked answers call serving p s q t =
      if_keeps IsTracked (p.stopped || (work p.world == 0)) _ _
        (λ e. record {
          follows = λ _. subst (λ s. Follows s p.world) s (t.follows q);
          asserted = t.asserted;
        })
        (λ e.
          if_keeps IsTracked (is_due call p.world) _ _
            (λ d. called-IsTracked answers call _ _ p s q d refl t) (λ d. t))
  services_at-IsTracked answers call left p s q t = t

  turn_of-IsTracked :
      (t : Turn) (p : Program) → p.crash ≡ none → IsTracked p → IsTracked (turn_of server t p)
  turn_of-IsTracked of_main p q h = main_at-IsTracked p.main p h
  turn_of-IsTracked (of_services answers call) p q h =
      services_at-IsTracked answers call p.services p refl q h

  turn-IsTracked : (t : Turn) (p : Program) → IsTracked p → IsTracked (turn server t p)
  unfolding turn
  turn-IsTracked t p h =
      unless_crashed_keeps IsTracked p.crash _ p (λ q. turn_of-IsTracked t p q h) h

  run_turns-IsTracked :
      (turns : List Turn) (p : Program) → IsTracked p → IsTracked (run_turns server turns p)
  unfolding run_turns
  run_turns-IsTracked [] p h = h
  run_turns-IsTracked (t ∷ turns) p h =
      run_turns-IsTracked turns (turn server t p) (turn-IsTracked t p h)

  new_program-IsTracked : (lines : List Text) → IsTracked (new_program files lines)
  unfolding new_program
  new_program-IsTracked lines = record { follows = λ e. refl; asserted = λ e. cc }

  -- Whatever turns the two threads take from the start of the program, and whatever the environment
  -- answers: while the program is not aborted, the services are in a state that they reach when they
  -- run alone, one handler after the other.
  pub run_turns-Follows :
      (lines : List Text) (turns : List Turn)
      → (run_turns server turns (new_program files lines)).crash ≡ none
      → Follows
          (run_turns server turns (new_program files lines)).services
          (run_turns server turns (new_program files lines)).world
  run_turns-Follows lines turns =
      (run_turns-IsTracked turns (new_program files lines) (new_program-IsTracked lines)).follows

  -- Whatever turns the two threads take from the start of the program, and whatever the environment
  -- answers, no assertion of a handler fails.
  pub run_turns-ne-handler_assertion :
      (lines : List Text) (turns : List Turn)
      → (run_turns server turns (new_program files lines)).crash ≢ some handler_assertion
  run_turns-ne-handler_assertion lines turns =
      (run_turns-IsTracked turns (new_program files lines) (new_program-IsTracked lines)).asserted
