-- ===== src/Server/Tests.antt =====
-- The server, from the start of its services.
mod Log
mod Client
mod Threads
use hyperion_server.Common.{ℕ, Bool, ◌||◌, ◌≡◌, true, false, [], ◌∷◌, some, none, refl, ◌==◌, arith}
use hyperion_server.Common.Text.{codes}
use hyperion_server.Common.Exec.{returned, try_catch, ◌>>=◌}
use hyperion_server.Media.Save.{Answers}
use hyperion_server.Net.Acceptor.{Acceptor, Endpoint}
use hyperion_server.Net.Props.{v4, default_net_prop}
use hyperion_server.Net.Greeting.{left_first}
use hyperion_server.Net.Data.{World}
use hyperion_server.Net.Gc.{start, sweep, sweep_due, setup_sweep_timer}
use hyperion_server.Net.Services.{
  begin_async_accept, do_async_accept, swept, run_call, ran, here, next,
}
use hyperion_server.Net.Services.Valid.{IsSound}
use hyperion_server.Server.{
  make_acceptor, new_world, run_connection_services, run_terminal, make_connection_acceptor,
}
use hyperion_server.Server.Loops
use hyperion_server.Server.Startup

abbrev pub acceptor : Acceptor
acceptor =
    make_acceptor left_first (record { output_path = codes "out"; port = 34200; ipv4 = true })
      1700000000

abbrev pub fine : Answers
fine = record {
  mkdir_throws = false;
  create_opens = true;
  append_opens = true;
  shutdown_throws = false;
  close_throws = false;
  prepare_throws = false;
  expires_throws = false;
  remote_throws = false;
  accept_throws = false;
}

abbrev pub started : World
started = record { connections = []; next_id = 1; files = []; accepts = 1; gc_waits = 1 }

pub starts : (run_connection_services fine (new_world [])).1 ≡ started
unfolding run_connection_services new_world begin_async_accept do_async_accept start
    setup_sweep_timer try_catch ◌>>=◌
starts = refl

swept_started : run_call acceptor fine (swept none) started ≡ (returned tt, started)
unfolding run_call sweep_due setup_sweep_timer sweep ◌>>=◌
swept_started = refl

swept-IsSound : IsSound started
swept-IsSound =
    Startup.run_connection_services-IsSound acceptor fine [] started
      (rw starts (next here (ran fine (swept none) refl swept_started)))

stopped_terminal :
    run_terminal 3 (record {
      lines = codes "help" ∷ codes "stop" ∷ codes "more" ∷ [];
      services_exit = false;
      invalid = [];
    })
    ≡ some (record { lines = codes "more" ∷ []; services_exit = true; invalid = codes "help" ∷ [] })
stopped_terminal = Loops.run_terminal-stop (codes "help" ∷ []) (codes "more" ∷ []) [] (ground arith)

run_terminal-ne-some_example :
    run_terminal 9 (record { lines = codes "halt" ∷ []; services_exit = false; invalid = [] })
    ≡ none
run_terminal-ne-some_example = Loops.run_terminal-ne-some 9 (codes "halt" ∷ []) [] (ground arith)

-- The port is taken at the first two attempts.
abbrev opens : ℕ → Endpoint → Bool
opens i endpoint = (i == 2) || (endpoint.port == 0)

make_connection_acceptor-some_example :
    make_connection_acceptor opens
      (record { protocol = v4; port = 0 })
      default_net_prop
      (λ i. false)
      3
      0
    ≡ some (some (record { protocol = v4; port = 34200 }))
make_connection_acceptor-some_example =
    Loops.make_connection_acceptor-some opens (record { protocol = v4; port = 0 }) default_net_prop
      (λ i. false) 0 2 (λ i l. refl) (λ i l m. ground arith) refl
