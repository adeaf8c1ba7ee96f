-- ===== src/Net/Data.antt =====
-- include/net/net_data.h, with what the services share: the connections, the disk, and what asio has
-- pending for the acceptor and for the collector. `servicesExit` stands with the terminal, which
-- alone writes it.
use hyperion_server.Common.{ℕ, ◌+◌, List, [], ◌∷◌, ◌++◌}
use hyperion_server.Common.Exec.{Exec, modify, gets, may_throw, assert, system_error, ◌>>=◌, ◌>>◌}
use hyperion_server.Media.Save.{Files, Answers}
use hyperion_server.Net.Connection.{Connection, new_connection}

pub record World : Type 0 where
  pub connections : List Connection
  -- `nextConnectionId_`
  pub next_id : ℕ
  pub files : Files
  -- `async_accept` operations, and waits of the collector's timer
  pub accepts : ℕ
  pub gc_waits : ℕ

abbrev pub Service : Type 0
Service = Exec World (Unit {0})

-- `Connection(socket)`: the identifier is taken before the socket is asked for its remote end.
unfoldable pub make_connection : Answers → Exec World Connection
unfolding new_connection
make_connection answers = do
  id ← gets (λ w. w.next_id)
  modify (λ w. record w { next_id = w.next_id + 1 })
  assert (new_connection id).socket_open
  may_throw answers.remote_throws system_error
  gets (λ w. new_connection id)

-- `Connections::Add`, which returns the connection at the back.
unfoldable pub add : Answers → Exec World Connection
add answers = do
  conn ← make_connection answers
  modify (λ w. record w { connections = w.connections ++ conn ∷ [] })
  gets (λ w. conn)
