-- ===== src/Net/Events/Running.antt =====
-- What holds of a connection while a handler runs on it, field by field.
use hyperion_server.Common.{ℕ, ◌+◌, ◌≤◌, ◌<◌, ◌≡◌, ◌≢◌, Bool, false, none}
use hyperion_server.Common.Text.{Text, is_empty}
use hyperion_server.Media.Prop.{MediaProp, get_type}
use hyperion_server.Media.Save.{Answers}
use hyperion_server.Net.Connection.{Connection, ConnectionStatus, rank, file_ext}

-- The operations that asio has pending for a connection.
abbrev pub pending : Connection → ℕ
pending c = c.writes + c.reads + c.receives + c.send_waits + c.receive_waits

-- What a handler knows about the fields that decide which operation may start next.
abbrev pub Knows : Type 1
Knows = ℕ → ConnectionStatus → Text → MediaProp → Type 0

-- The connection is the one of identifier `own`; `k` references are held beside those of the pending operations, and `open` tells of the stream.
pub record Holds (answers : Answers) (own k : ℕ) (open' : Bool) (X : Knows) (c : Connection)
    : Type 0 where
  pub own_id : c.id ≡ own
  pub counted : pending c + k ≤ c.ref_count
  pub exact : answers.prepare_throws ≡ false → c.ref_count ≤ pending c + k
  pub unbuffered : c.buffered ≡ 0
  pub stream : c.out_file_open ≡ open'
  pub one_write : c.writes ≤ 1
  pub writing : 0 < c.writes → rank c.status ≡ 0
  pub reading : 0 < c.reads → c.writes ≡ 0
  pub waiting : 0 < c.receive_waits → 0 < rank c.status
  pub saving : 0 < c.receives → is_empty c.out_file_path ≡ false
  pub known : X c.writes c.status c.out_file_path c.media_prop

-- What a handler knows, where it matters: nothing; that no greeting is on its way; that it has just
-- been sent; that the media type has a file name; that the file has a path.
abbrev pub Any : Knows
Any w s p m = Unit

abbrev pub Quiet : Knows
Quiet w s p m = w ≡ 0

abbrev pub Sent : Knows
Sent w s p m = (w ≡ 0) × (rank s ≡ 0)

abbrev pub Named : Knows
Named w s p m = (w ≡ 0) × (file_ext (get_type m) ≢ none)

abbrev pub Pathed : Knows
Pathed w s p m = is_empty p ≡ false
