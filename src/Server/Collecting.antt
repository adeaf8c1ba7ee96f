-- ===== src/Server/Collecting.antt =====
-- The collector, from the start of the server.
use mathlib.Core.Path.{subst}
use mathlib.Core.List.{Mem}
use hyperion_server.Common.{
  ◌<◌, ◌≤◌, ◌≡◌, ◌↔◌, refl, Option, List, [], ◌∷◌, All, Bool-cases, inl, inr, arith,
}
use hyperion_server.Common.Exec.{returned, ◌>>=◌}
use hyperion_server.Media.Save.{Files, Answers}
use hyperion_server.Net.Props.{ErrorCode}
use hyperion_server.Net.Connection.{Connection, can_destruct}
use hyperion_server.Net.Data.{World}
use hyperion_server.Net.Acceptor.{Acceptor}
use hyperion_server.Net.Gc.{sweep, sweep_due, setup_sweep_timer}
use hyperion_server.Net.Gc.Sweep.{all_pending}
use hyperion_server.Net.Events.Running.{pending}
use hyperion_server.Net.Services.{swept, run_call, Reach}
use hyperion_server.Net.Services.Counting.{Reach-Few, All-pending}
use hyperion_server.Net.Services.Exact.{
  CalmReach, CalmReach-Reach, CalmReach-Counted, CalmReach-sweep, Counted,
}
use hyperion_server.Server.{new_world, run_connection_services, destroy_connections}
use hyperion_server.Server.Startup.{started-IsSound, started_none}

swept-connections :
    (acceptor : Acceptor) (answers : Answers) (error : Option ErrorCode) (w : World)
    → sweep w.connections ≡ (run_call acceptor answers (swept error) w).1.connections
unfolding run_call sweep_due setup_sweep_timer ◌>>=◌
swept-connections acceptor answers error w = elim (Bool-cases answers.expires_throws) [
  | inl e ↦ rw e refl
  | inr e ↦ rw e refl
]

-- From the start of the services on, where no write failed and `prepare` did not throw: a pass of the
-- collector keeps exactly the connections that asio has an operation pending for.
pub run_call-swept :
    (acceptor : Acceptor) (answers now : Answers) (files : Files) (error : Option ErrorCode)
    (w : World) (c : Connection)
    → CalmReach acceptor (run_connection_services answers (new_world files)).1 w
    → Mem c (run_call acceptor now (swept error) w).1.connections
      ↔ (Mem c w.connections × (0 < pending c))
run_call-swept acceptor answers now files error w c r =
    subst (λ cs. Mem c cs ↔ (Mem c w.connections × (0 < pending c)))
      (swept-connections acceptor now error w)
      (CalmReach-sweep (started-IsSound answers files) (rw (started_none answers files) tt) r c)

destroy_connections-Counted :
    (cs : List Connection)
    → All Counted cs
    → (destroy_connections cs ≡ returned tt) ↔ (all_pending cs ≡ 0)
unfolding destroy_connections all_pending can_destruct
destroy_connections-Counted [] h = (λ e. refl, λ e. refl)
destroy_connections-Counted (c ∷ cs) h = ground (arith, h.0, destroy_connections-Counted cs h.1)

-- From the start of the services on, where no write failed and `prepare` did not throw: the
-- connections are destroyed with no failed assertion exactly where asio has no operation of any
-- connection pending.
pub destroy_connections-returned :
    (acceptor : Acceptor) (answers : Answers) (files : Files) (w : World)
    → CalmReach acceptor (run_connection_services answers (new_world files)).1 w
    → (destroy_connections w.connections ≡ returned tt) ↔ (all_pending w.connections ≡ 0)
destroy_connections-returned acceptor answers files w r =
    destroy_connections-Counted w.connections
      (CalmReach-Counted (started-IsSound answers files) (rw (started_none answers files) tt) r)

-- From the start of the services on, in every state that the server reaches by handlers that return,
-- asio has at most three operations of each connection pending.
pub run_connection_services-pending :
    (acceptor : Acceptor) (answers : Answers) (files : Files) (w : World)
    → Reach acceptor (run_connection_services answers (new_world files)).1 w
    → All (λ c. pending c ≤ 3) w.connections
run_connection_services-pending acceptor answers files w r =
    All-pending w.connections
      (Reach-Few r (started-IsSound answers files) (rw (started_none answers files) tt))

All-ref_count :
    (cs : List Connection)
    → All Counted cs
    → All (λ c. pending c ≤ 3) cs
    → All (λ c. c.ref_count ≤ 3) cs
All-ref_count [] h k = tt
All-ref_count (c ∷ cs) h k = (omega (arith, h.0, k.0), All-ref_count cs h.1 k.1)

-- From the start of the services on, where no write failed and `prepare` did not throw: no
-- connection has more than three references, so that the counter does not wrap around.
pub run_connection_services-ref_count :
    (acceptor : Acceptor) (answers : Answers) (files : Files) (w : World)
    → CalmReach acceptor (run_connection_services answers (new_world files)).1 w
    → All (λ c. c.ref_count ≤ 3) w.connections
run_connection_services-ref_count acceptor answers files w r =
    All-ref_count w.connections
      (CalmReach-Counted (started-IsSound answers files) (rw (started_none answers files) tt) r)
      (run_connection_services-pending acceptor answers files w (CalmReach-Reach r))
