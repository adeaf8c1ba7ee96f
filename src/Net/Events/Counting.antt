-- ===== src/Net/Events/Counting.antt =====
-- How many operations asio has pending for a connection.
use hyperion_server.Common.{ℕ, ◌+◌, ◌≤◌, ◌≡◌, true, Option, none, some, List, arith}
use hyperion_server.Common.Exec.{◌>>◌}
use hyperion_server.Common.Exec.Kept.{
  Kept, Kept-pure, Kept-assert, Kept-if, Kept-bind, Kept-gets, Kept-try,
}
use hyperion_server.Common.Exec.Moves.{
  Moves, Moves-Kept, Moves-try, Moves-guarded, Moves-gets, Moves-bind, Moves-lift,
}
use hyperion_server.Media.Prop.{MediaConfig}
use hyperion_server.Media.Save.{Answers}
use hyperion_server.Net.Props.{ErrorCode}
use hyperion_server.Net.Connection.{
  Connection, ConnectionStatus, Local, Handler, awaiting_c_greeting, active, on_conn, async_read,
  async_receive, async_wait, dec_ref_count, receive_greeting, set_status, write_completed,
  read_completed, receive_completed, wait_completed,
}
use hyperion_server.Net.Acceptor.{
  Acceptor, announce, callback_sent_greeting, callback_received_greeting,
  callback_send_greeting_timeout, callback_receive_greeting_timeout,
}
use hyperion_server.Net.Listener.{do_async_receive, begin_async_receive, receive_callback}
use hyperion_server.Net.Events.{
  Event, written, read, received, send_waited, receive_waited, handle, taken, is_pending,
  unless_error, on_connection_accepted,
}
use hyperion_server.Net.Events.Framed.{
  Frame, On, Kept-conn, Kept-begin_out_files, Kept-end_connection, Kept-inc_ref_count,
  Kept-dec_ref_count, Kept-get_streambuf, Kept-prepare, Kept-consume, Kept-set_timer_expires_after,
  Kept-save_received,
}
use hyperion_server.Net.Events.Handlers.{deliver}
use hyperion_server.Net.Events.Valid.{IsValid}

-- At most that many operations on the socket, and waits of each kind.
abbrev pub Few : ℕ → ℕ → ℕ → Connection → Type 0
Few m s r c = (c.writes + c.reads + c.receives ≤ m) × (c.send_waits ≤ s) × (c.receive_waits ≤ r)

module _ (s r : ℕ) where
  few : (m : ℕ) → Frame (Few m s r)
  few m = record {
    out_path = λ c x p. p;
    out_open = λ c x p. p;
    directory = λ c x p. p;
    socket = λ c x p. p;
    buffer = λ c x p. p;
    expiry = λ c x p. p;
    ended = λ c x p. p;
    references = λ c x p. p;
  }

  more : (m : ℕ) (l : Local) → On (Few m s r) l → On (Few (m + 1) s r) l
  more m l h = (omega (arith, h.0), h.1, h.2)

  async_read-Moves :
      (m : ℕ) (answers : Answers) (n : ℕ)
      → Moves (On (Few m s r)) (On (Few (m + 1) s r)) (async_read answers n)
  unfolding async_read on_conn
  async_read-Moves m answers n =
      Moves-bind (more m) (Moves-Kept (λ l h. h) (Kept-inc_ref_count (few m))) (λ u.
        Moves-bind (more m) (Moves-Kept (λ l h. h) (Kept-prepare (few m) answers n))
          (λ u. record { at = λ l h. (omega (arith, h.0), h.1, h.2) }))

  async_receive-Moves :
      (m : ℕ) (answers : Answers) (n : ℕ)
      → Moves (On (Few m s r)) (On (Few (m + 1) s r)) (async_receive answers n)
  unfolding async_receive on_conn
  async_receive-Moves m answers n =
      Moves-bind (more m) (Moves-Kept (λ l h. h) (Kept-inc_ref_count (few m))) (λ u.
        Moves-bind (more m) (Moves-Kept (λ l h. h) (Kept-prepare (few m) answers n))
          (λ u. record { at = λ l h. (omega (arith, h.0), h.1, h.2) }))

  set_status-Kept : (m : ℕ) (status : ConnectionStatus) → Kept (On (Few m s r)) (set_status status)
  unfolding set_status
  set_status-Kept m status =
      Kept-gets _ (λ now. Kept-bind (Kept-assert _) (λ u. Kept-conn _ (λ c p. p)))

  do_async_receive-Moves :
      (m : ℕ) (answers : Answers)
      → Moves (On (Few m s r)) (On (Few (m + 1) s r)) (do_async_receive answers)
  unfolding do_async_receive
  do_async_receive-Moves m answers =
      Moves-bind (more m) (Moves-Kept (λ l h. h) (Kept-get_streambuf (few m))) (λ u.
        Moves-gets _ (λ size.
          Moves-bind (more m) (Moves-Kept (λ l h. h) (Kept-assert _))
            (λ u. async_receive-Moves m answers _)))

  announce-Moves :
      (m : ℕ) (answers : Answers) (config : MediaConfig)
      → Moves
          (On (Few m s r))
          (On (Few (m + 1) s r))
          (announce answers (on_connection_accepted config answers))
  unfolding announce on_connection_accepted begin_async_receive
  announce-Moves m answers config =
      Moves-try
        (Moves-bind (more m) (Moves-Kept (λ l h. h) (Kept-get_streambuf (few m))) (λ u.
          Moves-gets _ (λ size. Moves-bind (more m) (Moves-Kept (λ l h. h) (Kept-assert _)) (λ u.
            Moves-bind (more m) (Moves-Kept (λ l h. h) (Kept-begin_out_files (few m) answers _))
              (λ u. do_async_receive-Moves m answers)))))
        (λ e. Kept-end_connection (few (m + 1)) answers)

  received-Moves :
      (m : ℕ) (acceptor : Acceptor) (answers : Answers) (bytes : List ℕ)
      → Moves (On (Few m s r)) (On (Few (m + 1) s r)) (
          callback_received_greeting acceptor answers
            (on_connection_accepted acceptor.media_config answers)
            bytes)
  unfolding callback_received_greeting
  received-Moves m acceptor answers bytes =
      Moves-try
        (Moves-guarded (Kept-consume (few (m + 1)) _) (
          Moves-bind (more m) (Moves-Kept (λ l h. h) (Kept-get_streambuf (few m))) (λ u.
            Moves-lift (more m) _ (λ prop.
              Moves-bind (more m) (Moves-Kept (λ l h. h) (Kept-conn _ (λ c p. p))) (λ u.
                Moves-bind (more m) (Moves-Kept (λ l h. h) (set_status-Kept m active))
                  (λ u. announce-Moves m answers acceptor.media_config))))))
        (λ e. Kept-end_connection (few (m + 1)) answers)

  receive-Moves :
      (m : ℕ) (answers : Answers) (error : Option ErrorCode) (bytes : List ℕ)
      → Moves (On (Few m s r)) (On (Few (m + 1) s r)) (receive_callback answers error bytes)
  unfolding receive_callback
  receive-Moves m answers (some error) bytes =
      Moves-guarded (Kept-consume (few (m + 1)) _)
        (Moves-Kept (more m) (Kept-end_connection (few m) answers))
  receive-Moves m answers none bytes = Moves-guarded (Kept-consume (few (m + 1)) _) (
      Moves-bind (more m) (Moves-Kept (λ l h. h) (Kept-get_streambuf (few m))) (λ u.
        Moves-bind (more m)
          (Moves-Kept (λ l h. h)
            (Kept-try (Kept-save_received (few m) answers bytes) (λ e. Kept-pure _)))
          (λ u. do_async_receive-Moves m answers)))

  wait-Moves : (m : ℕ) → Moves (On (Few m s r)) (On (Few m s (r + 1))) (async_wait receive_greeting)
  unfolding async_wait on_conn
  wait-Moves m =
      Moves-bind (λ l h. (h.0, h.1, omega (arith, h.2)))
        (Moves-Kept (λ l h. h) (Kept-inc_ref_count (few m)))
        (λ u. record { at = λ l h. (h.0, h.1, omega (arith, h.2)) })

module _ (m s r : ℕ) where
  later : (l : Local) → On (Few (m + 1) s r) l → On (Few (m + 1) s (r + 1)) l
  later l h = (h.0, h.1, omega (arith, h.2))

  sent-Moves :
      (acceptor : Acceptor) (answers : Answers)
      → Moves
          (On (Few m s r))
          (On (Few (m + 1) s (r + 1)))
          (callback_sent_greeting acceptor answers)
  unfolding callback_sent_greeting
  sent-Moves acceptor answers =
      Moves-try
        (Moves-bind later (async_read-Moves s r m answers _) (λ u.
          Moves-bind later
            (Moves-Kept (λ l h. h) (Kept-set_timer_expires_after (few s r (m + 1)) answers _))
            (λ u.
              Moves-bind (λ l h. h) (wait-Moves s r (m + 1))
                (λ u.
                  Moves-Kept (λ l h. h) (set_status-Kept s (r + 1) (m + 1) awaiting_c_greeting)))))
        (λ e. Kept-end_connection (few s (r + 1) (m + 1)) answers)

-- What is pending once asio has taken the operation of the event.
abbrev Room : Event → Connection → Type 0
Room (written error) = Few 0 1 0
Room (read error bytes) = Few 0 1 1
Room (received error bytes) = Few 0 1 1
Room (send_waited error) = Few 1 1 1
Room (receive_waited error) = Few 1 1 1

taken-Room :
    (e : Event) (c : Connection)
    → IsValid c
    → is_pending e c ≡ true
    → Few 1 1 1 c
    → Room e (taken e c)
unfolding taken
taken-Room (written error) c v p h = ground (arith, v.writing, v.waiting)
taken-Room (read error bytes) c v p h = ground arith
taken-Room (received error bytes) c v p h = ground arith
taken-Room (send_waited error) c v p h = ground arith
taken-Room (receive_waited error) c v p h = ground arith

unless-Moves :
    {P Q : Local → Type 0} (error : Option ErrorCode) {m : Handler}
    → ((l : Local) → P l → Q l)
    → Moves P Q m
    → Moves P Q (unless_error error m)
unless-Moves none up h = h
unless-Moves (some error) up h = Moves-Kept up (Kept-pure _)

module _ (acceptor : Acceptor) (answers : Answers) where
  completed-Moves :
      {P : Local → Type 0} {m : Handler}
      → Moves P (On (Few 1 1 1)) m
      → Moves P (On (Few 1 1 1)) (m >> dec_ref_count)
  completed-Moves h =
      Moves-bind (λ l h. h) h (λ u. Moves-Kept (λ l h. h) (Kept-dec_ref_count (few 1 1 1)))

  handle-Moves : (e : Event) → Moves (On (Room e)) (On (Few 1 1 1)) (handle acceptor answers e)
  unfolding handle write_completed read_completed receive_completed wait_completed
      callback_send_greeting_timeout callback_receive_greeting_timeout
  handle-Moves (written (some error)) =
      Moves-Kept (λ l h. (omega (arith, h.0), h.1, omega (arith, h.2))) (Kept-pure _)
  handle-Moves (written none) = completed-Moves (sent-Moves 0 1 0 acceptor answers)
  handle-Moves (read error bytes) =
      completed-Moves
        (unless-Moves error (more 1 1 0) (received-Moves 1 1 0 acceptor answers bytes))
  handle-Moves (received error bytes) =
      Moves-bind (more 1 1 0) (Moves-Kept (λ l h. h) (Kept-conn _ (λ c p. p)))
        (λ u. completed-Moves (receive-Moves 1 1 0 answers error bytes))
  handle-Moves (send_waited error) = completed-Moves (
      unless-Moves error (λ l h. h)
        (Moves-Kept (λ l h. h)
          (Kept-gets _
            (λ status. Kept-if _ (Kept-pure _) (Kept-end_connection (few 1 1 1) answers)))))
  handle-Moves (receive_waited error) = completed-Moves (
      unless-Moves error (λ l h. h)
        (Moves-Kept (λ l h. h)
          (Kept-gets _ (λ status.
            Kept-bind (Kept-assert _)
              (λ u. Kept-if _ (Kept-pure _) (Kept-end_connection (few 1 1 1) answers))))))

-- On a valid connection, for an operation that is pending: if asio has at most one operation on the
-- socket and one wait of each kind pending for the connection, then so it has after the handler.
pub deliver-Few :
    (acceptor : Acceptor) (answers : Answers) (e : Event) (l : Local)
    → IsValid l.conn
    → is_pending e l.conn ≡ true
    → Few 1 1 1 l.conn
    → Few 1 1 1 (deliver acceptor answers e l).1.conn
deliver-Few acceptor answers e l v p h =
    (handle-Moves acceptor answers e).at (record l { conn = taken e l.conn })
      (taken-Room e l.conn v p h)
