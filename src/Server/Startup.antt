-- ===== src/Server/Startup.antt =====
-- The server from its start on.
use hyperion_server.Common.{Bool-cases, inl, inr, arith}
use hyperion_server.Net.Connection.{Connection, active}
use hyperion_server.Net.Greeting.Allowed.{Allowed}
use hyperion_server.Net.Services.Vetted.{Reach-Vetted}
use hyperion_server.Common.{All, [], ◌≡◌, ◌≢◌, ℕ, some, false, get_elem?}
use hyperion_server.Common.Text.{is_empty}
use hyperion_server.Net.Events.{Event}
use hyperion_server.Net.Services.Apart.{Reach-KeepsToOwn, run_call-contents}
use hyperion_server.Common.Exec.{◌>>=◌, try_catch}
use hyperion_server.Media.Save.{Files, Answers, contents}
use hyperion_server.Net.Acceptor.{Acceptor}
use hyperion_server.Net.Data.{World}
use hyperion_server.Net.Gc.{start, setup_sweep_timer}
use hyperion_server.Net.Services.{begin_async_accept, do_async_accept, Reach, completed, run_call}
use hyperion_server.Net.Services.Valid.{IsSound, Reach-IsSound}
use hyperion_server.Server.{new_world, run_connection_services}

pub started-IsSound :
    (answers : Answers) (files : Files)
    → IsSound (run_connection_services answers (new_world files)).1
unfolding run_connection_services new_world begin_async_accept do_async_accept start
    setup_sweep_timer try_catch ◌>>=◌
started-IsSound answers files = elim (Bool-cases answers.accept_throws) [
  | inl a ↦ elim (Bool-cases answers.expires_throws) [
    | inl e ↦ rw (a, e) (record { rising = omega arith })
    | inr e ↦ rw (a, e) (record { rising = omega arith })
  ]
  | inr a ↦ elim (Bool-cases answers.expires_throws) [
    | inl e ↦ rw (a, e) (record { rising = omega arith })
    | inr e ↦ rw (a, e) (record { rising = omega arith })
  ]
]

-- From the start of the services on, every state that the server reaches by handlers that return
-- is sound, whatever clients send and whatever asio and the system answer.
pub run_connection_services-IsSound :
    (acceptor : Acceptor) (answers : Answers) (files : Files) (w : World)
    → Reach acceptor (run_connection_services answers (new_world files)).1 w
    → IsSound w
run_connection_services-IsSound acceptor answers files w r =
    Reach-IsSound r (started-IsSound answers files)

pub started_none :
    (answers : Answers) (files : Files)
    → (run_connection_services answers (new_world files)).1.connections ≡ []
unfolding run_connection_services new_world begin_async_accept do_async_accept start
    setup_sweep_timer try_catch ◌>>=◌
started_none answers files = ground arith

-- From the start of the services on, in every state that the server reaches by handlers that
-- return, each active connection has media properties that the configuration allows: no client gets
-- through whose greeting was not accepted.
pub run_connection_services-Vetted :
    (acceptor : Acceptor) (answers : Answers) (files : Files) (w : World)
    → Reach acceptor (run_connection_services answers (new_world files)).1 w
    → All (λ c. c.status ≡ active → Allowed acceptor.media_config c.media_prop) w.connections
run_connection_services-Vetted acceptor answers files w r =
    Reach-Vetted r (rw (started_none answers files) tt)

-- From the start of the services on, in every state that the server reaches by handlers that
-- return: where an operation of one connection completes, with any result and any answers of the
-- environment, and however its handler ends, the file of every other connection is as it was.
pub run_connection_services-contents :
    (acceptor : Acceptor) (answers now : Answers) (files : Files) (w : World) (i j : ℕ)
    (c d : Connection) (e : Event)
    → Reach acceptor (run_connection_services answers (new_world files)).1 w
    → get_elem? w.connections i ≡ some c
    → get_elem? w.connections j ≡ some d
    → i ≢ j
    → is_empty d.out_file_path ≡ false
    → contents (run_call acceptor now (completed i e) w).1.files d.out_file_path
      ≡ contents w.files d.out_file_path
run_connection_services-contents acceptor answers now files w i j c d e r p q n filled =
    let sound = run_connection_services-IsSound acceptor answers files w r in
    let own = Reach-KeepsToOwn r (rw (started_none answers files) tt) in
    run_call-contents acceptor now w i j c d e sound.rising own p q n filled
