-- ===== src/Server/Threads/Ordered.antt =====
-- In which order the two threads start, stop and destroy what they share.
use mathlib.Core.Path.{subst}
use hyperion_server.Common.{
  ℕ, ◌≡◌, ◌||◌, ◌&&◌, ◌==◌, refl, sym, ap, Bool, true, false, Option, none, some, List, [], ◌∷◌,
  Bool-cases, inl, inr,
}
use hyperion_server.Common.Text.{Text}
use hyperion_server.Common.Exec.{Outcome, returned, thrown, aborted}
use hyperion_server.Media.Save.{Files, Answers}
use hyperion_server.Net.Acceptor.{Endpoint, endpoint_of, connection_acceptor}
use hyperion_server.Net.Props.{NetProp}
use hyperion_server.Net.Data.{World}
use hyperion_server.Net.Services.{Call, is_due}
use hyperion_server.Server.{handle_terminal_commands, run_connection_services, destroy_connections}
use hyperion_server.Server.Threads.{
  Environment, MainPhase, reading, stopping, joining, over, ServicesPhase, making, starting,
  serving, left, Program, new_program, destroyed, join, main_at, made, began, called, work,
  services_at, Turn, of_main, of_services, turn_of, turn, run_turns,
}
use hyperion_server.Server.Threads.Turns.{if_keeps, Alive, turn-Alive}
use hyperion_server.Server.Threads.Following.{Follows, run_turns-Follows}

-- `servicesExit` ends the loop, `io_context` is stopped next, and the data is destroyed when the
-- other thread has returned.
abbrev pub MainOrder : MainPhase → ServicesPhase → Bool → Bool → Type 0
MainOrder reading s exit stopped = stopped ≡ false
MainOrder stopping s exit stopped = (exit ≡ true) × (stopped ≡ false)
MainOrder joining s exit stopped = (exit ≡ true) × (stopped ≡ true)
MainOrder over s exit stopped = (exit ≡ true) × (stopped ≡ true) × (s ≡ left)

-- The services start with an acceptor that listens where the configuration says, and their thread
-- returns when `io_context` is stopped or out of work.
abbrev pub ServicesOrder : NetProp → ServicesPhase → Option Endpoint → Bool → World → Type 0
ServicesOrder net_prop (making n) acceptor stopped w = acceptor ≡ none
ServicesOrder net_prop starting acceptor stopped w = acceptor ≡ some (endpoint_of net_prop)
ServicesOrder net_prop serving acceptor stopped w = acceptor ≡ some (endpoint_of net_prop)
ServicesOrder net_prop left acceptor stopped w =
    (acceptor ≡ some (endpoint_of net_prop)) × ((stopped || (work w == 0)) ≡ true)

abbrev pub IsOrdered : Environment → Program → Type 0
IsOrdered server p =
    MainOrder p.main p.services p.terminal.services_exit p.stopped
    × ServicesOrder server.acceptor.net_prop p.services p.conn_acceptor p.stopped p.world

opened :
    (opens : Endpoint → Bool) (d e : Endpoint) (net_prop : NetProp)
    → connection_acceptor opens d net_prop ≡ returned e
    → e ≡ endpoint_of net_prop
unfolding connection_acceptor
opened opens d e net_prop q = elim (Bool-cases (opens d && opens (endpoint_of net_prop))) [
  | inl o ↦ cc (rw o at q)
  | inr o ↦ cc (rw o at q)
]

stopped_order :
    (net_prop : NetProp) (s : ServicesPhase) (acceptor : Option Endpoint) (stopped : Bool)
    (w : World)
    → ServicesOrder net_prop s acceptor stopped w
    → ServicesOrder net_prop s acceptor true w
stopped_order net_prop (making n) acceptor stopped w h = h
stopped_order net_prop starting acceptor stopped w h = h
stopped_order net_prop serving acceptor stopped w h = h
stopped_order net_prop left acceptor stopped w h = (h.0, refl)

-- Until `~NetData` the terminal does not look at the services.
moved :
    (m : MainPhase) (s s' : ServicesPhase) (exit stopped : Bool)
    → (s ≡ left → s' ≡ left)
    → MainOrder m s exit stopped
    → MainOrder m s' exit stopped
moved reading s s' exit stopped f h = h
moved stopping s s' exit stopped f h = h
moved joining s s' exit stopped f h = h
moved over s s' exit stopped f h = (h.0, h.1, f h.2)

module _ (server : Environment) where
  destroyed-IsOrdered :
      (r : Outcome (Unit {0})) (p : Program)
      → p.services ≡ left
      → MainOrder joining p.services p.terminal.services_exit p.stopped
      → IsOrdered server p
      → Alive (IsOrdered server) (destroyed r p)
  destroyed-IsOrdered (returned u) p s m h = λ q. ((m.0, m.1, s), h.1)
  destroyed-IsOrdered (thrown x) p s m h = λ q. cc
  destroyed-IsOrdered aborted p s m h = λ q. cc

  join-IsOrdered :
      (s : ServicesPhase) (p : Program)
      → p.services ≡ s
      → MainOrder joining p.services p.terminal.services_exit p.stopped
      → IsOrdered server p
      → Alive (IsOrdered server) (join s p)
  join-IsOrdered left p s m h =
      destroyed-IsOrdered (destroy_connections p.world.connections) p s m h
  join-IsOrdered (making n) p s m h = λ q. h
  join-IsOrdered starting p s m h = λ q. h
  join-IsOrdered serving p s m h = λ q. h

  main_at-IsOrdered :
      (m : MainPhase) (p : Program)
      → p.main ≡ m
      → MainOrder m p.services p.terminal.services_exit p.stopped
      → IsOrdered server p
      → Alive (IsOrdered server) (main_at m p)
  main_at-IsOrdered reading p e m h =
      if_keeps (Alive (IsOrdered server)) p.terminal.services_exit _ _ (λ x q. ((x, m), h.1))
        (λ x q. (
          subst
              (λ k.
                MainOrder k p.services (handle_terminal_commands p.terminal).services_exit
                  p.stopped)
              (sym e) m,
          h.1,
        ))
  main_at-IsOrdered stopping p e m h =
      λ q. ((m.0, refl), stopped_order server.acceptor.net_prop p.services _ p.stopped _ h.1)
  main_at-IsOrdered joining p e m h = join-IsOrdered p.services p refl m h
  main_at-IsOrdered over p e m h = λ q. h

  made-IsOrdered :
      (n : ℕ) (r : Outcome Endpoint) (p : Program) (i : ℕ)
      → connection_acceptor (server.opens i) server.default_endpoint server.acceptor.net_prop ≡ r
      → p.services ≡ making n
      → p.conn_acceptor ≡ none
      → IsOrdered server p
      → IsOrdered server (made n r p)
  made-IsOrdered n (returned e) p i q s a h = (
    moved p.main p.services starting _ _ (λ l. cc) h.0,
    ap some (opened (server.opens i) server.default_endpoint e server.acceptor.net_prop q),
  )
  made-IsOrdered n (thrown x) p i q s a h = (moved p.main p.services _ _ _ (λ l. cc) h.0, a)
  made-IsOrdered n aborted p i q s a h = (moved p.main p.services _ _ _ (λ l. cc) h.0, a)

  began-IsOrdered :
      (r : Outcome (Unit {0})) (w : World) (p : Program)
      → p.services ≡ starting
      → p.conn_acceptor ≡ some (endpoint_of server.acceptor.net_prop)
      → IsOrdered server p
      → Alive (IsOrdered server) (began r w p)
  began-IsOrdered (returned u) w p s a h =
      λ q. (moved p.main p.services serving _ _ (λ l. cc) h.0, a)
  began-IsOrdered (thrown x) w p s a h = λ q. cc
  began-IsOrdered aborted w p s a h = λ q. cc

  called-IsOrdered :
      (r : Outcome (Unit {0})) (w : World) (p : Program)
      → p.services ≡ serving
      → p.conn_acceptor ≡ some (endpoint_of server.acceptor.net_prop)
      → IsOrdered server p
      → Alive (IsOrdered server) (called r w p)
  called-IsOrdered (returned u) w p s a h = λ q. (
    h.0,
    subst (λ s. ServicesOrder server.acceptor.net_prop s p.conn_acceptor p.stopped w) (sym s) a,
  )
  called-IsOrdered (thrown x) w p s a h = λ q. cc
  called-IsOrdered aborted w p s a h = λ q. cc

  services_at-IsOrdered :
      (answers : Answers) (call : Call) (s : ServicesPhase) (p : Program)
      → p.services ≡ s
      → ServicesOrder server.acceptor.net_prop s p.conn_acceptor p.stopped p.world
      → IsOrdered server p
      → Alive (IsOrdered server) (services_at server answers call s p)
  services_at-IsOrdered answers call (making n) p s a h =
      if_keeps (Alive (IsOrdered server)) p.terminal.services_exit _ _ (λ x q. cc)
        (λ x q. made-IsOrdered n _ p n refl s a h)
  services_at-IsOrdered answers call starting p s a h =
      began-IsOrdered (run_connection_services answers p.world).0 _ p s a h
  services_at-IsOrdered answers call serving p s a h =
      if_keeps (Alive (IsOrdered server)) (p.stopped || (work p.world == 0)) _ _
        (λ x q. (moved p.main p.services left _ _ (λ l. refl) h.0, (a, x)))
        (λ x.
          if_keeps (Alive (IsOrdered server)) (is_due call p.world) _ _
            (λ d. called-IsOrdered _ _ p s a h) (λ d q. h))
  services_at-IsOrdered answers call left p s a h = λ q. h

  turn_of-IsOrdered :
      (t : Turn) (p : Program) → IsOrdered server p → Alive (IsOrdered server) (turn_of server t p)
  turn_of-IsOrdered of_main p h = main_at-IsOrdered p.main p refl h.0 h
  turn_of-IsOrdered (of_services answers call) p h =
      services_at-IsOrdered answers call p.services p refl h.1 h

  run_turns-kept :
      (turns : List Turn) (p : Program)
      → Alive (IsOrdered server) p
      → Alive (IsOrdered server) (run_turns server turns p)
  unfolding run_turns
  run_turns-kept [] p h = h
  run_turns-kept (t ∷ turns) p h =
      run_turns-kept turns (turn server t p)
        (turn-Alive server (IsOrdered server) (IsOrdered server) t p (turn_of-IsOrdered t p) h)

  new_program-IsOrdered :
      (files : Files) (lines : List Text) → IsOrdered server (new_program files lines)
  unfolding new_program
  new_program-IsOrdered files lines = (refl, refl)

  -- Whatever turns the two threads take from the start of the program, and whatever the environment
  -- answers, while the program is not aborted: the services start only with an acceptor that listens
  -- at the protocol and the port of the configuration, and their state is one that they reach when
  -- they run alone, one handler after the other. Their thread returns only when `io_context` is
  -- stopped or has no work. `io_context` is stopped exactly when the terminal has left its loop, for
  -- `servicesExit`, and gone on; the data is destroyed only after that, when the thread of the
  -- services has returned.
  pub run_turns-IsOrdered :
      (files : Files) (lines : List Text) (turns : List Turn)
      → (run_turns server turns (new_program files lines)).crash ≡ none
      → IsOrdered server (run_turns server turns (new_program files lines))
        × Follows server files
            (run_turns server turns (new_program files lines)).services
            (run_turns server turns (new_program files lines)).world
  run_turns-IsOrdered files lines turns alive = (
    run_turns-kept turns (new_program files lines) (λ q. new_program-IsOrdered files lines) alive,
    run_turns-Follows server files lines turns alive,
  )
