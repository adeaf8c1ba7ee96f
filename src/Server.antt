-- ===== src/Server.antt =====
-- src/hyperion.cpp: the command line, the terminal, and the start of the services.
pub mod Loops
pub mod Startup
pub mod Stopping
pub mod Collecting
pub mod Streaming
pub mod Main
pub mod Threads
mod Tests
use hyperion_server.Common.{
  ℕ, zero, suc, ◌+◌, Bool, true, false, Option, none, some, List, [], ◌∷◌, ◌++◌, if◌then◌else◌,
}
use hyperion_server.Common.Text.{Text, codes, same_text, is_empty}
use hyperion_server.Common.Digits.{to_string}
use hyperion_server.Common.Exec.{Outcome, returned, aborted, ◌>>◌}
use hyperion_server.Media.Prop.{MediaConfig}
use hyperion_server.Media.Save.{Files, Answers}
use hyperion_server.Net.Props.{NetProp, v4, v6, default_net_prop}
use hyperion_server.Net.Greeting.{EvalOrder, make_server_greeting}
use hyperion_server.Net.Acceptor.{Acceptor, Endpoint, connection_acceptor}
use hyperion_server.Net.Connection.{Connection, can_destruct}
use hyperion_server.Net.Data.{World, Service}
use hyperion_server.Net.Gc.{start}
use hyperion_server.Net.Services.{begin_async_accept}

-- What TCLAP makes of the command line.
pub record Arguments : Type 0 where
  pub output_path : Text
  pub port : ℕ
  pub ipv4 : Bool

unfoldable pub save_path : Arguments → Text
save_path arguments =
    let path = arguments.output_path in if is_empty path then path else path ++ codes "/"

unfoldable pub net_prop : Arguments → NetProp
net_prop arguments = record default_net_prop {
  port_num = arguments.port;
  net_protocol = if arguments.ipv4 then v4 else v6;
}

-- The configuration of `RunServer`, at the UNIX time `time`.
unfoldable pub media_config : Text → ℕ → MediaConfig
media_config save_path time = record {
  dimensions = [];
  max_fps = 255;
  media_save_path = save_path ++ to_string time;
}

-- The acceptor that `RunConnectionServices` runs.
unfoldable pub make_acceptor : EvalOrder → Arguments → ℕ → Acceptor
unfolding save_path net_prop media_config make_server_greeting
make_acceptor order arguments time = record {
  order = order;
  net_prop = net_prop arguments;
  media_config = media_config (save_path arguments) time;
  server_greeting = make_server_greeting;
}

-- `NetData(…)`, before a service is started.
unfoldable pub new_world : Files → World
new_world files = record { connections = []; next_id = 1; files = files; accepts = 0; gc_waits = 0 }

-- `RunConnectionServices`, until `io_context.run()`.
unfoldable pub run_connection_services : Answers → Service
run_connection_services answers = do begin_async_accept answers; start answers

-- The loop of `MakeConnectionAcceptor`: `opens n` is what asio opens at the attempt `n`, and `exits n`
-- what `servicesExit` holds before it. It returns where the acceptor listens, or nothing; with no
-- fuel left it still runs.
unfoldable pub make_connection_acceptor :
    (ℕ → Endpoint → Bool) → Endpoint → NetProp → (ℕ → Bool) → ℕ → ℕ → Option (Option Endpoint)
unfolding connection_acceptor
make_connection_acceptor opens default_endpoint net_prop exits zero n = none
make_connection_acceptor opens default_endpoint net_prop exits (suc fuel) n =
    let rest = make_connection_acceptor opens default_endpoint net_prop exits fuel (n + 1) in
    if exits n then some none else elim (connection_acceptor (opens n) default_endpoint net_prop) [
      | returned endpoint ↦ some (some endpoint)
      | _ ↦ rest
    ]

-- The terminal: the lines to come, `servicesExit`, and the invalid commands that were logged.
pub record Terminal : Type 0 where
  pub lines : List Text
  pub services_exit : Bool
  pub invalid : List Text

-- `std::getline`: at the end of the input it gives an empty line.
unfoldable pub getline : List Text → Text × List Text
getline [] = ([], [])
getline (line ∷ lines) = (line, lines)

unfoldable pub handle_terminal_commands : Terminal → Terminal
unfolding getline
handle_terminal_commands t =
    let (usr_input, rest) = getline t.lines in
    if same_text usr_input (codes "stop")
    then record t { lines = rest; services_exit = true }
    else record t { lines = rest; invalid = t.invalid ++ usr_input ∷ [] }

-- The loop of `RunServer`; with no fuel left it still runs.
unfoldable pub run_terminal : ℕ → Terminal → Option Terminal
run_terminal zero t = none
run_terminal (suc fuel) t =
    let rest = run_terminal fuel (handle_terminal_commands t) in
    if t.services_exit then some t else rest

-- `~NetData`, once `io_context` has stopped: the connections are destroyed from the front, and
-- `~Connection` asserts `CanDestruct`. What asio has pending is dropped, with no handler called.
unfoldable pub destroy_connections : List Connection → Outcome (Unit {0})
destroy_connections [] = returned tt
destroy_connections (conn ∷ connections) =
    let rest = destroy_connections connections in if can_destruct conn then rest else aborted

-- What ends `main`.
pub data Ended : Type 0 where
  completed arg_exception std_exception : Ended

unfoldable pub exit_code : Ended → ℕ
exit_code completed = 0
exit_code arg_exception = 1
exit_code std_exception = 2
