-- ===== src/Net/Services/Clients.antt =====
-- One client among the others: where its connection stands, and what the handlers give it.
pub mod Places
pub mod Own
pub mod Others
pub mod Growing
use hyperion_server.Common.{
  ℕ, ◌<◌, ◌≡◌, Bool, true, false, not, ◌&&◌, Option, none, some, List, [], ◌++◌, ◌==◌, get_elem?,
  if◌then◌else◌,
}
use hyperion_server.Common.Text.{Text}
use hyperion_server.Common.Exec.{returned}
use hyperion_server.Media.Save.{Answers}
use hyperion_server.Net.Connection.{Connection, active}
use hyperion_server.Net.Acceptor.{Acceptor}
use hyperion_server.Net.Data.{World}
use hyperion_server.Net.Events.{Event, received}
use hyperion_server.Net.Services.{Call, completed, is_due, run_call}

-- An active connection of that identifier, with an open socket, receives into the file of that path.
pub record HasClient (id : ℕ) (path : Text) (w : World) : Type 0 where
  pub place : ℕ
  pub conn : Connection
  pub there : get_elem? w.connections place ≡ some conn
  pub own_id : conn.id ≡ id
  pub stores : conn.out_file_path ≡ path
  pub accepted : conn.status ≡ active
  pub connected : conn.socket_open ≡ true
  pub receiving : 0 < conn.receives

-- The bytes that a completed operation brings.
abbrev pub brings : Event → List ℕ
brings (received none bytes) = bytes
brings _ = []

abbrev pub bytes_for : ℕ → List ℕ → Option Connection → List ℕ
bytes_for id bytes none = []
bytes_for id bytes (some c) = if c.id == id then bytes else []

-- The bytes that a handler brings for the client.
abbrev pub gives : ℕ → Call → World → List ℕ
gives id (completed i e) w = bytes_for id (brings e) (get_elem? w.connections i)
gives id _ w = []

-- A receive completes without an error, the file opens, and the next receive can be prepared.
abbrev pub is_served : Answers → Event → Bool
is_served answers (received none bytes) = answers.append_opens && not answers.prepare_throws
is_served answers (received (some error) bytes) = false
is_served answers _ = true

abbrev pub serves_conn : ℕ → Answers → Event → Option Connection → Bool
serves_conn id answers e none = true
serves_conn id answers e (some c) = if c.id == id then is_served answers e else true

-- The receives of the client go well; nothing is said of those of the others.
abbrev pub serves : ℕ → Answers → Call → World → Bool
serves id answers (completed i e) w = serves_conn id answers e (get_elem? w.connections i)
serves id answers _ w = true

-- Handlers of any clients in any order, with the bytes that they brought for this one.
pub data ClientRun (acceptor : Acceptor) (id : ℕ) (w : World) : List ℕ → World → Type 0 where
  started : ClientRun acceptor id w [] w
  continued :
      {v u : World} {bytes more : List ℕ} (answers : Answers) (call : Call)
      → ClientRun acceptor id w bytes v
      → serves id answers call v ≡ true
      → is_due call v ≡ true
      → run_call acceptor answers call v ≡ (returned tt, u)
      → bytes ++ gives id call v ≡ more
      → ClientRun acceptor id w more u
