-- ===== src/Server/Tests/Threads.antt =====
-- The program with its two threads, from its start to its end.
use hyperion_server.Common.{
  ◌≡◌, ◌≢◌, ◌↔◌, true, false, none, some, List, [], ◌∷◌, ◌++◌, refl, arith,
}
use hyperion_server.Common.Text.{Text, codes, same_text}
use hyperion_server.Common.Exec.{try_catch, ◌>>=◌}
use hyperion_server.Net.Acceptor.{connection_acceptor, handle_accept}
use hyperion_server.Net.Data.{add, make_connection}
use hyperion_server.Net.Gc.{start, sweep, sweep_due, setup_sweep_timer}
use hyperion_server.Net.Gc.Sweep.{all_pending}
use hyperion_server.Net.Props.{v4}
use hyperion_server.Net.Services.{
  begin_async_accept, do_async_accept, swept, accepted, run_call, accept_completed, on_local,
  replace_last,
}
use hyperion_server.Net.Connection.{
  async_write, async_wait, inc_ref_count, new_connection, on_conn, set_timer_expires_after,
  can_destruct,
}
use hyperion_server.Server.{
  new_world, run_connection_services, handle_terminal_commands, getline, destroy_connections,
}
use hyperion_server.Server.Threads.{
  Environment, over, left, serving, Program, new_program, Turn, of_main, of_services, turn,
  run_turns, handler_assertion, no_acceptor, connection_assertion,
}
use hyperion_server.Server.Threads.Ending.{IsEnded}
use hyperion_server.Server.Threads.Following.{Follows}
use hyperion_server.Server.Threads.Ending
use hyperion_server.Server.Threads.Following
use hyperion_server.Server.Threads.Ordered
use hyperion_server.Server.Threads.Ordered.{IsOrdered}
use hyperion_server.Server.Threads.Over
use hyperion_server.Server.Threads.Port
use hyperion_server.Server.Threads.Exit
use hyperion_server.Server.Threads.Calm.{Fine}
use hyperion_server.Net.Services.Returning.{IsQuiet}
use hyperion_server.Server.Tests.{acceptor, fine}

abbrev server : Environment
server = record {
  acceptor = acceptor;
  default_endpoint = record { protocol = v4; port = 0 };
  opens = λ i endpoint. true;
}

abbrev services : Turn
services = of_services fine (swept none)

-- The services start, the collector runs, and "help" is typed.
abbrev first : List Turn
first = services ∷ services ∷ of_main ∷ services ∷ of_main ∷ of_main ∷ of_main ∷ []

abbrev second : List Turn
second = services ∷ services ∷ []

abbrev third : List Turn
third = of_main ∷ []

abbrev typed : List Text
typed = codes "help" ∷ codes "stop" ∷ []

abbrev start_of : Program
start_of = new_program [] typed

ends_normally :
    ((run_turns server (first ++ (second ++ third)) start_of).main ≡ over)
    × ((run_turns server (first ++ (second ++ third)) start_of).crash ≡ none)
    × ((run_turns server first start_of).services ≡ serving)
unfolding run_turns turn new_program connection_acceptor new_world run_connection_services
    begin_async_accept do_async_accept start setup_sweep_timer try_catch ◌>>=◌ run_call sweep_due
    sweep all_pending handle_terminal_commands getline same_text destroy_connections
ends_normally = (refl, refl, refl)

-- A client is connected when "stop" is typed.
abbrev client_first : List Turn
client_first =
    services
    ∷ services
    ∷ of_services fine (accepted none)
    ∷ of_main
    ∷ of_main
    ∷ of_main
    ∷ of_main
    ∷ []

ends_aborted :
    (run_turns server (client_first ++ (second ++ third)) start_of).crash
    ≡ some connection_assertion
unfolding run_turns turn new_program connection_acceptor new_world run_connection_services
    begin_async_accept do_async_accept start setup_sweep_timer try_catch ◌>>=◌ run_call sweep_due
    sweep all_pending handle_terminal_commands getline same_text destroy_connections
    accept_completed add make_connection on_local replace_last handle_accept async_write async_wait
    inc_ref_count new_connection on_conn set_timer_expires_after can_destruct
ends_aborted = refl

run_turns-IsOrdered_example :
    IsOrdered server (run_turns server (first ++ (second ++ third)) start_of)
    × Follows server []
        (run_turns server (first ++ (second ++ third)) start_of).services
        (run_turns server (first ++ (second ++ third)) start_of).world
run_turns-IsOrdered_example =
    Ordered.run_turns-IsOrdered server [] typed (first ++ (second ++ third)) ends_normally.1

run_turns-ne-handler_assertion_example :
    (run_turns server client_first start_of).crash ≢ some handler_assertion
run_turns-ne-handler_assertion_example =
    Following.run_turns-ne-handler_assertion server [] typed client_first

run_turns-IsEnded_example : IsEnded (run_turns server (client_first ++ (second ++ third)) start_of)
run_turns-IsEnded_example =
    Ending.run_turns-IsEnded server [] (codes "help" ∷ []) [] client_first second third
      (omega arith) (omega arith) (omega arith)

run_turns_over_example :
    ((run_turns server (first ++ (second ++ third)) start_of).services ≡ left)
    × (all_pending (run_turns server (first ++ (second ++ third)) start_of).world.connections ≡ 0)
run_turns_over_example =
    Over.run_turns_over server [] typed (first ++ (second ++ third)) ends_normally.0

-- The port is taken.
abbrev shut : Environment
shut = record server { opens = λ i endpoint. false }

run_turns-no_acceptor_example :
    (run_turns shut (first ++ (second ++ third)) start_of).crash ≡ some no_acceptor
run_turns-no_acceptor_example =
    Port.run_turns-no_acceptor shut (λ i. refl) [] (codes "help" ∷ []) [] first second third
      (omega arith) (omega arith) (omega arith)

fine-IsQuiet : IsQuiet fine
fine-IsQuiet = record { prepares = refl; expires = refl; connects = refl }

abbrev fine_turn : Fine services
fine_turn = (fine-IsQuiet, refl)

run_turns-over_example :
    ((run_turns server (first ++ (second ++ third)) start_of).main ≡ over)
    ↔ (all_pending (run_turns server (first ++ (second ++ third)) start_of).world.connections ≡ 0)
run_turns-over_example =
    Exit.run_turns-over server [] (codes "help" ∷ []) [] first second third (omega arith)
      (omega arith) (omega arith)
      (
        fine_turn,
        (fine_turn, (tt, (fine_turn, (tt, (tt, (tt, (fine_turn, (fine_turn, (tt, tt))))))))),
      )
      (λ e. cc (ends_normally.1, e))
