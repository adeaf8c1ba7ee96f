-- ===== src/Net/Events/Vetted.antt =====
-- What the status and the media properties of a connection tell of each other.
use hyperion_server.Common.{ℕ, ◌≤◌, ◌≡◌, Option, none, some, List, arith}
use hyperion_server.Common.Exec.{◌>>◌}
use hyperion_server.Common.Exec.Kept.{
  Kept, Kept-pure, Kept-assert, Kept-if, Kept-bind, Kept-lift, Kept-gets, Kept-try, Kept-guarded,
  Kept-enter,
}
use hyperion_server.Media.Prop.{MediaConfig, MediaProp}
use hyperion_server.Media.Save.{Answers}
use hyperion_server.Net.Props.{ErrorCode}
use hyperion_server.Net.Greeting.Allowed.{Allowed, parse_client_greeting-Allowed}
use hyperion_server.Net.Connection.{
  Connection, ConnectionStatus, Local, awaiting_c_greeting, active, rank, on_conn, set_status,
  write_completed, read_completed, receive_completed, wait_completed, Handler,
}
use hyperion_server.Net.Acceptor.{
  Acceptor, handle_accept, announce, callback_sent_greeting, callback_received_greeting,
  callback_send_greeting_timeout, callback_receive_greeting_timeout,
}
use hyperion_server.Net.Listener.{receive_callback}
use hyperion_server.Net.Events.{
  Event, written, read, received, send_waited, receive_waited, handle, taken, unless_error,
  on_connection_accepted,
}
use hyperion_server.Net.Events.Framed.{
  Kept-end_connection, Kept-dec_ref_count, Kept-get_streambuf, Kept-consume,
  Kept-set_timer_expires_after, Kept-save_received,
}
use hyperion_server.Net.Events.Phases.{
  seen, Of, Kept-on_conn, Kept-async_write, Kept-async_read, Kept-async_wait, Kept-set_status,
  Kept-do_async_receive, Kept-on_connection_accepted,
}
use hyperion_server.Net.Events.Handlers.{deliver}

-- A predicate that no handler can break: it survives that the status moves on, where it may, and
-- that the properties become others that the configuration allows.
pub record IsStable (config : MediaConfig) (P : ConnectionStatus → MediaProp → Type 0)
    : Type 0 where
  pub awaits :
      (s : ConnectionStatus) (p : MediaProp)
      → P s p
      → rank s ≤ rank awaiting_c_greeting
      → P awaiting_c_greeting p
  pub parses : (s : ConnectionStatus) (p q : MediaProp) → P s p → Allowed config q → P s q
  pub activates : (s : ConnectionStatus) (p : MediaProp) → P s p → Allowed config p → P active p

module _ (acceptor : Acceptor) (answers : Answers) (P : ConnectionStatus → MediaProp → Type 0)
    (stable : IsStable acceptor.media_config P) where
  pub handle_accept-Kept : Kept (Of P) (handle_accept acceptor answers)
  unfolding handle_accept
  handle_accept-Kept =
      Kept-bind (Kept-async_write P _) (λ u.
        Kept-bind (Kept-set_timer_expires_after (seen P) answers _) (λ u. Kept-async_wait P _))

  sent-Kept : Kept (Of P) (callback_sent_greeting acceptor answers)
  unfolding callback_sent_greeting
  sent-Kept =
      Kept-try
        (Kept-bind (Kept-async_read P answers _) (λ u.
          Kept-bind (Kept-set_timer_expires_after (seen P) answers _) (λ u.
            Kept-bind (Kept-async_wait P _)
              (λ u. Kept-set_status P awaiting_c_greeting stable.awaits))))
        (λ e. Kept-end_connection (seen P) answers)

  abbrev announced : Handler
  announced = announce answers (on_connection_accepted acceptor.media_config answers)

  announce-Kept : (Q : ConnectionStatus → MediaProp → Type 0) → Kept (Of Q) announced
  unfolding announce
  announce-Kept Q =
      Kept-try
        (Kept-bind (Kept-get_streambuf (seen Q)) (λ u.
          Kept-gets _
            (λ size. Kept-bind (Kept-assert _) (λ u. Kept-on_connection_accepted Q _ answers))))
        (λ e. Kept-end_connection (seen Q) answers)

  abbrev Both : ConnectionStatus → MediaProp → Type 0
  Both s p = P s p × Allowed acceptor.media_config p

  parsed-Kept :
      (q : MediaProp)
      → Allowed acceptor.media_config q
      → Kept (Of P) (on_conn (λ c. record c { media_prop = q }) >> (set_status active >> announced))
  unfolding on_conn
  parsed-Kept q a =
      Kept-enter (Of Both) _ (λ l p. (stable.parses l.status l.media_prop q p a, a)) (λ l b. b.0)
        (Kept-bind (Kept-set_status Both active (λ s p b m. (stable.activates s p b.0 b.1, b.1)))
          (λ u. announce-Kept Both))

  received-Kept :
      (bytes : List ℕ)
      → Kept (Of P) (
          callback_received_greeting acceptor answers
            (on_connection_accepted acceptor.media_config answers)
            bytes)
  unfolding callback_received_greeting
  received-Kept bytes =
      Kept-try
        (Kept-guarded (Kept-consume (seen P) _) (
          Kept-bind (Kept-get_streambuf (seen P)) (λ u. Kept-lift _ (λ q e.
            parsed-Kept q
              (parse_client_greeting-Allowed acceptor.order acceptor.media_config bytes _ e)))))
        (λ e. Kept-end_connection (seen P) answers)

  receive-Kept :
      (error : Option ErrorCode) (bytes : List ℕ)
      → Kept (Of P) (receive_callback answers error bytes)
  unfolding receive_callback
  receive-Kept (some error) bytes =
      Kept-guarded (Kept-consume (seen P) _) (Kept-end_connection (seen P) answers)
  receive-Kept none bytes = Kept-guarded (Kept-consume (seen P) _) (
      Kept-bind (Kept-get_streambuf (seen P)) (λ u.
        Kept-bind (Kept-try (Kept-save_received (seen P) answers bytes) (λ e. Kept-pure _))
          (λ u. Kept-do_async_receive P answers)))

  unless-Kept :
      (error : Option ErrorCode) {m : Handler} → Kept (Of P) m → Kept (Of P) (unless_error error m)
  unless-Kept none h = h
  unless-Kept (some error) h = Kept-pure _

  pub handle-Kept : (e : Event) → Kept (Of P) (handle acceptor answers e)
  unfolding handle write_completed read_completed receive_completed wait_completed
      callback_send_greeting_timeout callback_receive_greeting_timeout
  handle-Kept (written (some error)) = Kept-pure _
  handle-Kept (written none) = Kept-bind sent-Kept (λ u. Kept-dec_ref_count (seen P))
  handle-Kept (read error bytes) =
      Kept-bind (unless-Kept error (received-Kept bytes)) (λ u. Kept-dec_ref_count (seen P))
  handle-Kept (received error bytes) =
      Kept-bind (Kept-on_conn P _ (λ c p. p))
        (λ u. Kept-bind (receive-Kept error bytes) (λ u. Kept-dec_ref_count (seen P)))
  handle-Kept (send_waited error) =
      Kept-bind
        (unless-Kept error
          (Kept-gets _ (λ status. Kept-if _ (Kept-pure _) (Kept-end_connection (seen P) answers))))
        (λ u. Kept-dec_ref_count (seen P))
  handle-Kept (receive_waited error) =
      Kept-bind
        (unless-Kept error (
          Kept-gets _ (λ status.
            Kept-bind (Kept-assert _)
              (λ u. Kept-if _ (Kept-pure _) (Kept-end_connection (seen P) answers)))))
        (λ u. Kept-dec_ref_count (seen P))

  taken_kept :
      (e : Event) (c : Connection)
      → P c.status c.media_prop
      → P (taken e c).status (taken e c).media_prop
  unfolding taken
  taken_kept (written error) c p = p
  taken_kept (read error bytes) c p = p
  taken_kept (received error bytes) c p = p
  taken_kept (send_waited error) c p = p
  taken_kept (receive_waited error) c p = p

  pub deliver-kept : (e : Event) (l : Local) → Of P l → Of P (deliver acceptor answers e l).1
  deliver-kept e l p =
      (handle-Kept e).at (record l { conn = taken e l.conn }) (taken_kept e l.conn p)

-- Whatever completes on a connection, however its handler ends, and whatever the environment
-- answers, the status of the connection never goes back to an earlier one.
pub rank-le-deliver :
    (acceptor : Acceptor) (answers : Answers) (e : Event) (l : Local)
    → rank l.status ≤ rank (deliver acceptor answers e l).1.status
rank-le-deliver acceptor answers e l =
    deliver-kept acceptor answers (λ s p. rank l.status ≤ rank s)
      (record {
        awaits = λ s p h m. omega arith;
        parses = λ s p q h a. h;
        activates = λ s p h a. below_active s (rank l.status) h;
      })
      e l (omega arith)
  where
    below_active : (s : ConnectionStatus) (r : ℕ) → r ≤ rank s → r ≤ 2
    below_active s r h = ground arith

-- An active connection has media properties that the configuration allows.
abbrev pub Vetted : MediaConfig → ConnectionStatus → MediaProp → Type 0
Vetted config s p = s ≡ active → Allowed config p

pub Vetted-IsStable : (config : MediaConfig) → IsStable config (Vetted config)
Vetted-IsStable config = record {
  awaits = λ s p h m e. cc;
  parses = λ s p q h a e. a;
  activates = λ s p h a e. a;
}
