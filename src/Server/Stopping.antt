-- ===== src/Server/Stopping.antt =====
-- How the server stops.
use hyperion_server.Common.{ℕ, suc, ◌<◌, ◌≡◌, ◌↔◌, refl, List, [], ◌∷◌, arith}
use hyperion_server.Common.Exec.{returned, aborted}
use hyperion_server.Media.Save.{Files, Answers}
use hyperion_server.Net.Connection.{Connection, can_destruct}
use hyperion_server.Net.Gc.{sweep}
use hyperion_server.Net.Gc.Sweep.{all_pending}
use hyperion_server.Net.Acceptor.{Acceptor}
use hyperion_server.Net.Data.{World}
use hyperion_server.Net.Services.{Reach}
use hyperion_server.Net.Services.Rising.{Rising}
use hyperion_server.Server.{new_world, run_connection_services, destroy_connections}
use hyperion_server.Server.Startup.{run_connection_services-IsSound}

-- The connections are destroyed with no failed assertion exactly where a pass of the collector
-- would have removed them all.
pub destroy_connections-sweep :
    (cs : List Connection) → (destroy_connections cs ≡ returned tt) ↔ (sweep cs ≡ [])
unfolding destroy_connections sweep
destroy_connections-sweep [] = (λ e. refl, λ e. refl)
destroy_connections-sweep (c ∷ cs) = ground (arith, destroy_connections-sweep cs)

pending_aborts :
    (low high : ℕ) (cs : List Connection)
    → Rising low high cs
    → 0 < all_pending cs
    → destroy_connections cs ≡ aborted
unfolding destroy_connections all_pending can_destruct
pending_aborts low high [] r p = absurd (omega arith)
pending_aborts low high (c ∷ cs) r p =
    ground (arith, r.0.counted, pending_aborts (suc c.id) high cs r.2)

-- If the server is stopped while asio has an operation of any connection pending, in any state that
-- it reaches from its start by handlers that return, then the assertion of `~Connection` fails.
pub destroy_connections-aborted :
    (acceptor : Acceptor) (answers : Answers) (files : Files) (w : World)
    → Reach acceptor (run_connection_services answers (new_world files)).1 w
    → 0 < all_pending w.connections
    → destroy_connections w.connections ≡ aborted
destroy_connections-aborted acceptor answers files w r p =
    pending_aborts 0 w.next_id w.connections
      (run_connection_services-IsSound acceptor answers files w r).rising p
