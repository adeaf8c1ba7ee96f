-- ===== src/Server/Streaming.antt =====
-- One client among the others, from the start of the server.
use hyperion_server.Common.{ℕ, ◌≡◌, List, ◌++◌}
use hyperion_server.Common.Text.{Text}
use hyperion_server.Media.Save.{Files, Answers, contents}
use hyperion_server.Net.Data.{World}
use hyperion_server.Net.Acceptor.{Acceptor}
use hyperion_server.Net.Listener.{bytes_of}
use hyperion_server.Net.Services.{Reach}
use hyperion_server.Net.Services.Valid.{Reach-IsSound}
use hyperion_server.Net.Services.Apart.{Reach-KeepsToOwn}
use hyperion_server.Net.Services.Counting.{Reach-Few}
use hyperion_server.Net.Services.Clients.{HasClient, ClientRun}
use hyperion_server.Net.Services.Clients.Growing.{ClientRun-Grown}
use hyperion_server.Server.{new_world, run_connection_services}
use hyperion_server.Server.Startup.{started-IsSound, started_none}

-- From the start of the services on, let handlers that return lead to a state in which an active
-- connection with an open socket receives into its file. However the handlers of this client, of any others, of the
-- acceptor and of the collector then follow each other, as long as they return and each receive of
-- this client completes without an error, opens the file and can prepare the next receive: the
-- connection stays, active, with its socket open and its next receive pending, and its file holds what it held before
-- and then all the bytes that its receives brought, in that order.
pub run_connection_services-ClientRun :
    (acceptor : Acceptor) (answers : Answers) (files : Files) (id : ℕ) (path : Text) (w v : World)
    (bytes : List ℕ)
    → Reach acceptor (run_connection_services answers (new_world files)).1 w
    → HasClient id path w
    → ClientRun acceptor id w bytes v
    → HasClient id path v
      × (bytes_of (contents v.files path) ≡ bytes_of (contents w.files path) ++ bytes)
run_connection_services-ClientRun acceptor answers files id path w v bytes r h run =
    let sound = started-IsSound answers files in
    ClientRun-Grown acceptor id path w (Reach-IsSound r sound)
      (Reach-KeepsToOwn r (rw (started_none answers files) tt))
      (Reach-Few r sound (rw (started_none answers files) tt)) h run
