-- ===== src/Net/Events/Phases.antt =====
-- What each handler does to the status and the media properties of its connection, and to nothing
-- else that a predicate of the two can see.
use hyperion_server.Common.{ℕ, ◌≤◌, List, leb, Bool-cases, inl, inr, arith}
use hyperion_server.Common.Exec.{◌>>=◌, assert}
use hyperion_server.Common.Exec.Kept.{Kept, Kept-assert, Kept-bind, Kept-gets}
use hyperion_server.Media.Prop.{MediaProp}
use hyperion_server.Media.Save.{Answers}
use hyperion_server.Net.Connection.{
  Connection, ConnectionStatus, Local, rank, on_conn, async_write, async_read, async_receive,
  async_wait, Timeout, send_greeting, receive_greeting, set_status,
}
use hyperion_server.Net.Listener.{do_async_receive, begin_async_receive}
use hyperion_server.Net.Events.{on_connection_accepted}
use hyperion_server.Net.Events.Framed.{
  Frame, Kept-inc_ref_count, Kept-prepare, Kept-get_streambuf, Kept-begin_out_files,
}
use hyperion_server.Media.Prop.{MediaConfig}

-- A predicate of the status and the properties, as one of the handler's state.
abbrev pub Of : (ConnectionStatus → MediaProp → Type 0) → Local → Type 0
Of P l = P l.status l.media_prop

pub seen : (P : ConnectionStatus → MediaProp → Type 0) → Frame (λ c. P c.status c.media_prop)
seen P = record {
  out_path = λ c x p. p;
  out_open = λ c x p. p;
  directory = λ c x p. p;
  socket = λ c x p. p;
  buffer = λ c x p. p;
  expiry = λ c x p. p;
  ended = λ c x p. p;
  references = λ c x p. p;
}

module _ (P : ConnectionStatus → MediaProp → Type 0) where
  pub Kept-on_conn :
      (f : Connection → Connection)
      → ((c : Connection) → P c.status c.media_prop → P (f c).status (f c).media_prop)
      → Kept (Of P) (on_conn f)
  unfolding on_conn
  Kept-on_conn f h = record { at = λ l p. h l.conn p }

  pub Kept-async_write : (msg : List ℕ) → Kept (Of P) (async_write msg)
  unfolding async_write
  Kept-async_write msg = Kept-bind (Kept-inc_ref_count (seen P)) (λ u. Kept-on_conn _ (λ c p. p))

  pub Kept-async_read : (answers : Answers) (n : ℕ) → Kept (Of P) (async_read answers n)
  unfolding async_read
  Kept-async_read answers n =
      Kept-bind (Kept-inc_ref_count (seen P))
        (λ u. Kept-bind (Kept-prepare (seen P) answers n) (λ u. Kept-on_conn _ (λ c p. p)))

  Kept-async_receive : (answers : Answers) (n : ℕ) → Kept (Of P) (async_receive answers n)
  unfolding async_receive
  Kept-async_receive answers n =
      Kept-bind (Kept-inc_ref_count (seen P))
        (λ u. Kept-bind (Kept-prepare (seen P) answers n) (λ u. Kept-on_conn _ (λ c p. p)))

  pub Kept-async_wait : (timeout : Timeout) → Kept (Of P) (async_wait timeout)
  unfolding async_wait
  Kept-async_wait send_greeting =
      Kept-bind (Kept-inc_ref_count (seen P)) (λ u. Kept-on_conn _ (λ c p. p))
  Kept-async_wait receive_greeting =
      Kept-bind (Kept-inc_ref_count (seen P)) (λ u. Kept-on_conn _ (λ c p. p))

  -- The status moves only down the list.
  pub Kept-set_status :
      (status : ConnectionStatus)
      → ((s : ConnectionStatus) (p : MediaProp) → P s p → rank s ≤ rank status → P status p)
      → Kept (Of P) (set_status status)
  unfolding set_status assert on_conn ◌>>=◌
  Kept-set_status status h = record {
    at = λ l p. elim (Bool-cases (leb (rank l.status) (rank status))) [
      | inl e ↦ rw e (h l.status l.media_prop p (ground arith))
      | inr e ↦ rw e p
    ];
  }

  pub Kept-do_async_receive : (answers : Answers) → Kept (Of P) (do_async_receive answers)
  unfolding do_async_receive
  Kept-do_async_receive answers =
      Kept-bind (Kept-get_streambuf (seen P))
        (λ u. Kept-gets _ (λ size. Kept-bind (Kept-assert _) (λ u. Kept-async_receive answers _)))

  pub Kept-on_connection_accepted :
      (config : MediaConfig) (answers : Answers)
      → Kept (Of P) (on_connection_accepted config answers)
  unfolding on_connection_accepted begin_async_receive
  Kept-on_connection_accepted config answers =
      Kept-bind (Kept-begin_out_files (seen P) answers _) (λ u. Kept-do_async_receive answers)
