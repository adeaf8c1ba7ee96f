-- ===== src/Server/Threads/Calm.antt =====
-- The two threads where no write to a client fails and none of the calls that are not caught throws:
-- when the program ends normally.
use mathlib.Core.Path.{subst}
use hyperion_server.Common.{
  ℕ, ◌≡◌, ◌≢◌, ◌||◌, ◌==◌, refl, sym, ap, true, Option, none, some, List, [], ◌∷◌, All, Bool-cases,
  inl, inr,
}
use hyperion_server.Common.Text.{Text}
use hyperion_server.Common.Exec.{Outcome, returned, thrown, aborted, try_catch, ◌>>=◌}
use hyperion_server.Media.Save.{Files, Answers}
use hyperion_server.Net.Acceptor.{Endpoint}
use hyperion_server.Net.Data.{World}
use hyperion_server.Net.Gc.{start, setup_sweep_timer}
use hyperion_server.Net.Services.{
  Call, swept, is_due, run_call, begin_async_accept, do_async_accept,
}
use hyperion_server.Net.Services.Exact.{is_calm, CalmReach, at_start, calmly, CalmReach-Reach}
use hyperion_server.Net.Services.Returning.{IsQuiet, run_call-returned}
use hyperion_server.Server.{new_world, run_connection_services, destroy_connections}
use hyperion_server.Server.Startup.{run_connection_services-IsSound}
use hyperion_server.Server.Threads.{
  Environment, MainPhase, reading, stopping, joining, over, ServicesPhase, making, starting,
  serving, left, Crash, no_acceptor, connection_assertion, Program, new_program, destroyed, join,
  main_at, made, began, called, work, services_at, Turn, of_main, of_services, turn_of, turn,
  run_turns,
}
use hyperion_server.Server.Threads.Turns.{if_keeps, unless_crashed_keeps}

-- A turn in which no write failed and no exception can leave a handler.
abbrev pub Fine : Turn → Type 0
Fine of_main = Unit
Fine (of_services answers call) = IsQuiet answers × (is_calm answers call ≡ true)

-- What aborted the program, if anything did.
abbrev pub Blame : Option Crash → Program → Type 0
Blame none p = Unit
Blame (some no_acceptor) p = Unit
Blame (some connection_assertion) p =
    (p.services ≡ left) × (destroy_connections p.world.connections ≢ returned tt)
Blame (some crash) p = ⊥

start_returned :
    (answers : Answers) (w : World)
    → IsQuiet answers
    → (run_connection_services answers w).0 ≡ returned tt
unfolding run_connection_services begin_async_accept do_async_accept start setup_sweep_timer
    try_catch ◌>>=◌
start_returned answers w quiet = elim (Bool-cases answers.accept_throws) [
  | inl a ↦ rw (a, quiet.expires) refl
  | inr a ↦ rw (a, quiet.expires) refl
]

module _ (server : Environment) (files : Files) where
  abbrev pub CalmFollows : ServicesPhase → World → Type 0
  CalmFollows (making n) w = w ≡ new_world files
  CalmFollows starting w = w ≡ new_world files
  CalmFollows serving w =
      (answers : Answers) × CalmReach server.acceptor
        (run_connection_services answers (new_world files)).1 w
  CalmFollows left w =
      (answers : Answers) × CalmReach server.acceptor
        (run_connection_services answers (new_world files)).1 w

  pub record IsCalm (p : Program) : Type 0 where
    pub follows : CalmFollows p.services p.world
    pub blame : Blame p.crash p

  alive-IsCalm : (p : Program) → p.crash ≡ none → CalmFollows p.services p.world → IsCalm p
  alive-IsCalm p q f = record { follows = f; blame = subst (λ c. Blame c p) (sym q) tt }

  destroyed-IsCalm :
      (r : Outcome (Unit {0})) (p : Program)
      → destroy_connections p.world.connections ≡ r
      → p.services ≡ left
      → p.crash ≡ none
      → IsCalm p
      → IsCalm (destroyed r p)
  destroyed-IsCalm (returned u) p e s q h = alive-IsCalm _ q h.follows
  destroyed-IsCalm (thrown x) p e s q h = record { follows = h.follows; blame = (s, λ z. cc) }
  destroyed-IsCalm aborted p e s q h = record { follows = h.follows; blame = (s, λ z. cc) }

  join-IsCalm :
      (s : ServicesPhase) (p : Program)
      → p.services ≡ s
      → p.crash ≡ none
      → IsCalm p
      → IsCalm (join s p)
  join-IsCalm left p s q h = destroyed-IsCalm (destroy_connections p.world.connections) p refl s q h
  join-IsCalm (making n) p s q h = h
  join-IsCalm starting p s q h = h
  join-IsCalm serving p s q h = h

  main_at-IsCalm : (m : MainPhase) (p : Program) → p.crash ≡ none → IsCalm p → IsCalm (main_at m p)
  main_at-IsCalm reading p q h =
      if_keeps IsCalm p.terminal.services_exit _ _ (λ e. alive-IsCalm _ q h.follows)
        (λ e. alive-IsCalm _ q h.follows)
  main_at-IsCalm stopping p q h = alive-IsCalm _ q h.follows
  main_at-IsCalm joining p q h = join-IsCalm p.services p refl q h
  main_at-IsCalm over p q h = h

  made-IsCalm :
      (n : ℕ) (r : Outcome Endpoint) (p : Program)
      → p.crash ≡ none
      → p.world ≡ new_world files
      → IsCalm (made n r p)
  made-IsCalm n (returned e) p q w = alive-IsCalm _ q w
  made-IsCalm n (thrown x) p q w = alive-IsCalm _ q w
  made-IsCalm n aborted p q w = alive-IsCalm _ q w

  began-IsCalm :
      (answers : Answers) (p : Program)
      → p.crash ≡ none
      → p.world ≡ new_world files
      → IsQuiet answers
      → IsCalm (services_at server answers (swept none) starting p)
  began-IsCalm answers p q w quiet =
      subst (λ r. IsCalm (began r (run_connection_services answers p.world).1 p))
        (sym (start_returned answers p.world quiet))
        (alive-IsCalm _ q (
          answers,
          subst (λ v. CalmReach server.acceptor v (run_connection_services answers p.world).1)
              (ap (λ w. (run_connection_services answers w).1) w) at_start,
        ))

  called-IsCalm :
      (now : Answers) (call : Call) (p : Program)
      → p.services ≡ serving
      → p.crash ≡ none
      → CalmFollows serving p.world
      → IsQuiet now
      → is_calm now call ≡ true
      → is_due call p.world ≡ true
      → IsCalm (
          called
            (run_call server.acceptor now call p.world).0
            (run_call server.acceptor now call p.world).1
            p)
  called-IsCalm now call p s q (answers, reach) quiet calm d =
      let w = (run_call server.acceptor now call p.world).1 in
      let sound =
        run_connection_services-IsSound server.acceptor answers files p.world
          (CalmReach-Reach reach) in
      let returns = run_call-returned server.acceptor now quiet p.world call sound d in
      subst (λ r. IsCalm (called r w p)) (sym returns)
        (alive-IsCalm _ q (
          subst (λ s. CalmFollows s w) (sym s)
            (
              answers,
              calmly now call reach calm d (ap (λ (r : Outcome (Unit {0})). (r, w)) returns),
            )))

  services_at-IsCalm :
      (answers : Answers) (call : Call) (s : ServicesPhase) (p : Program)
      → p.services ≡ s
      → p.crash ≡ none
      → IsQuiet answers
      → is_calm answers call ≡ true
      → IsCalm p
      → IsCalm (services_at server answers call s p)
  services_at-IsCalm answers call (making n) p s q quiet calm h =
      let f = subst (λ s. CalmFollows s p.world) s h.follows in
      if_keeps IsCalm p.terminal.services_exit _ _ (λ e. record { follows = h.follows; blame = tt })
        (λ e. made-IsCalm n _ p q f)
  services_at-IsCalm answers call starting p s q quiet calm h =
      began-IsCalm answers p q (subst (λ s. CalmFollows s p.world) s h.follows) quiet
  services_at-IsCalm answers call serving p s q quiet calm h =
      let f = subst (λ s. CalmFollows s p.world) s h.follows in
      if_keeps IsCalm (p.stopped || (work p.world == 0)) _ _ (λ e. alive-IsCalm _ q f)
        (λ e.
          if_keeps IsCalm (is_due call p.world) _ _
            (λ d. called-IsCalm answers call p s q f quiet calm d) (λ d. h))
  services_at-IsCalm answers call left p s q quiet calm h = h

  turn_of-IsCalm :
      (t : Turn) (p : Program) → Fine t → p.crash ≡ none → IsCalm p → IsCalm (turn_of server t p)
  turn_of-IsCalm of_main p f q h = main_at-IsCalm p.main p q h
  turn_of-IsCalm (of_services answers call) p f q h =
      services_at-IsCalm answers call p.services p refl q f.0 f.1 h

  pub run_turns-IsCalm :
      (turns : List Turn) (p : Program)
      → All Fine turns
      → IsCalm p
      → IsCalm (run_turns server turns p)
  unfolding run_turns turn
  run_turns-IsCalm [] p f h = h
  run_turns-IsCalm (t ∷ turns) p f h =
      run_turns-IsCalm turns (turn server t p) f.1
        (unless_crashed_keeps IsCalm p.crash _ p (λ q. turn_of-IsCalm t p f.0 q h) h)

  pub new_program-IsCalm : (lines : List Text) → IsCalm (new_program files lines)
  unfolding new_program
  new_program-IsCalm lines = record { follows = refl; blame = tt }
