-- ===== src/Server/Threads.antt =====
-- `RunServer` of src/hyperion.cpp: the thread of `main` reads the terminal, stops the services and
-- joins them; the thread of `RunConnectionServices` makes the acceptor and runs the handlers. They
-- take turns in any order. A handler is one turn, since it shares with the terminal neither
-- `servicesExit` nor whether `io_context` is stopped.
pub mod Turns
pub mod Following
pub mod Ordered
pub mod Heading
pub mod Leaving
pub mod Ending
pub mod Over
pub mod Port
pub mod Calm
pub mod Exit
use hyperion_server.Common.{
  ℕ, ◌+◌, Bool, true, false, Option, none, some, List, [], ◌∷◌, ◌||◌, ◌==◌, if◌then◌else◌,
}
use hyperion_server.Common.Text.{Text}
use hyperion_server.Common.Exec.{Outcome, returned, thrown, aborted}
use hyperion_server.Media.Save.{Files, Answers}
use hyperion_server.Net.Acceptor.{Acceptor, Endpoint, connection_acceptor}
use hyperion_server.Net.Data.{World}
use hyperion_server.Net.Gc.Sweep.{all_pending}
use hyperion_server.Net.Services.{Call, is_due, run_call}
use hyperion_server.Server.{
  Terminal, handle_terminal_commands, new_world, run_connection_services, destroy_connections,
}

-- What asio is asked by `MakeConnectionAcceptor`, as in `make_connection_acceptor`.
pub record Environment : Type 0 where
  pub acceptor : Acceptor
  pub default_endpoint : Endpoint
  pub opens : ℕ → Endpoint → Bool

-- Where the thread of `RunServer` stands: in its loop, after it, at `join`, and past `~NetData`.
pub data MainPhase : Type 0 where
  reading stopping joining over : MainPhase

-- Where the thread of `RunConnectionServices` stands: in the loop of `MakeConnectionAcceptor`, at an
-- attempt; past the `assert`; in `io_context.run()`; and returned.
pub data ServicesPhase : Type 0 where
  making : ℕ → ServicesPhase
  starting serving left : ServicesPhase

-- Why the process was aborted: by the `assert` that there is an acceptor, by an exception that left
-- the thread of the services at its start or in a handler, by an `assert` of a handler, or by that
-- of `~Connection`.
pub data Crash : Type 0 where
  no_acceptor start_exception handler_exception handler_assertion connection_assertion : Crash

pub record Program : Type 0 where
  pub terminal : Terminal
  -- `io_context.stop()` was called
  pub stopped : Bool
  pub world : World
  pub main : MainPhase
  pub services : ServicesPhase
  -- what `MakeConnectionAcceptor` returned
  pub conn_acceptor : Option Endpoint
  pub crash : Option Crash

unfoldable pub new_program : Files → List Text → Program
new_program files lines = record {
  terminal = record { lines = lines; services_exit = false; invalid = [] };
  stopped = false;
  world = new_world files;
  main = reading;
  services = making 0;
  conn_acceptor = none;
  crash = none;
}

-- `~NetData`: past it no thread may use the world, which stays as it was destroyed.
abbrev pub destroyed : Outcome (Unit {0}) → Program → Program
destroyed (returned u) p = record p { main = over }
destroyed _ p = record p { crash = some connection_assertion }

abbrev pub join : ServicesPhase → Program → Program
join left p = destroyed (destroy_connections p.world.connections) p
join _ p = p

-- The next turn of `RunServer`; at `join` it waits for the other thread.
abbrev pub main_at : MainPhase → Program → Program
main_at reading p =
    if p.terminal.services_exit
    then record p { main = stopping }
    else record p { terminal = handle_terminal_commands p.terminal }
main_at stopping p = record p { stopped = true; main = joining }
main_at joining p = join p.services p
main_at over p = p

abbrev pub made : ℕ → Outcome Endpoint → Program → Program
made n (returned endpoint) p = record p { services = starting; conn_acceptor = some endpoint }
made n _ p = record p { services = making (n + 1) }

abbrev pub began : Outcome (Unit {0}) → World → Program → Program
began (returned u) w p = record p { world = w; services = serving }
began _ w p = record p { world = w; crash = some start_exception }

abbrev pub called : Outcome (Unit {0}) → World → Program → Program
called (returned u) w p = record p { world = w }
called (thrown e) w p = record p { world = w; crash = some handler_exception }
called aborted w p = record p { world = w; crash = some handler_assertion }

-- The operations that keep `io_context.run()` from returning.
abbrev pub work : World → ℕ
work w = w.accepts + w.gc_waits + all_pending w.connections

-- The next turn of `RunConnectionServices`; `call` is the handler that `io_context` would run next,
-- which it does where its operation is pending.
abbrev pub services_at : Environment → Answers → Call → ServicesPhase → Program → Program
services_at server answers call (making n) p =
    if p.terminal.services_exit
    then record p { crash = some no_acceptor }
    else made n
        (connection_acceptor (server.opens n) server.default_endpoint server.acceptor.net_prop) p
services_at server answers call starting p =
    let r = run_connection_services answers p.world in began r.0 r.1 p
services_at server answers call serving p =
    if p.stopped || (work p.world == 0)
    then record p { services = left }
    else if is_due call p.world
    then called (run_call server.acceptor answers call p.world).0
        (run_call server.acceptor answers call p.world).1 p
    else p
services_at server answers call left p = p

-- Which thread is next, and what the environment does in its turn.
pub data Turn : Type 0 where
  of_main : Turn
  of_services : Answers → Call → Turn

abbrev pub turn_of : Environment → Turn → Program → Program
turn_of server of_main p = main_at p.main p
turn_of server (of_services answers call) p = services_at server answers call p.services p

abbrev pub unless_crashed : Option Crash → Program → Program → Program
unless_crashed none q p = q
unless_crashed (some crash) q p = p

-- Nothing of the program runs after it was aborted.
unfoldable pub turn : Environment → Turn → Program → Program
turn server t p = unless_crashed p.crash (turn_of server t p) p

unfoldable pub run_turns : Environment → List Turn → Program → Program
run_turns server [] p = p
run_turns server (t ∷ turns) p = run_turns server turns (turn server t p)
