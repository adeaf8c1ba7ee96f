-- ===== src/Net/Events/Handlers.antt =====
-- Every handler of a connection, from a valid one.
use hyperion_server.Common.{ℕ, suc, ◌≡◌, true, false, Option, none, some, ◌||◌}
use hyperion_server.Common.Exec.{Outcome, pure, ◌>>◌}
use hyperion_server.Common.Exec.Triple.{Ends, Triple, Triple-pure, Triple-then, Triple-weaken}
use hyperion_server.Media.Save.{Answers}
use hyperion_server.Net.Props.{ErrorCode}
use hyperion_server.Net.Connection.{
  Local, on_conn, write_completed, read_completed, receive_completed, wait_completed, dec_ref_count,
  is_eof,
}
use hyperion_server.Net.Acceptor.{Acceptor}
use hyperion_server.Net.Events.{
  Event, written, read, received, send_waited, receive_waited, handle, taken, is_pending,
}
use hyperion_server.Net.Events.Running.{Knows, Holds, Any, Quiet, Pathed}
use hyperion_server.Net.Events.Fields.{Holds-know, Holds-eof}
use hyperion_server.Net.Events.Operations.{On, Triple-on_conn, Unprepared, dec_ref_count-Holds}
use hyperion_server.Net.Events.Callbacks.{
  Greeted, callback_sent_greeting-Holds, callback_received_greeting-Holds,
  callback_send_greeting_timeout-Holds, callback_receive_greeting_timeout-Holds,
  receive_callback-Holds, receive_callback_error-Holds,
}
use hyperion_server.Net.Events.Valid.{IsValid, slack, Before, taken-Holds}

-- A write that fails keeps its reference for ever.
abbrev pub leaks : Event → ℕ
leaks (written (some error)) = 1
leaks _ = 0

abbrev pub after_leak : Event → ℕ → ℕ
after_leak (written (some error)) k = suc k
after_leak _ k = k

-- An exception that leaves the handler: the next receive could not be started.
abbrev pub Escapes : Answers → ℕ → ℕ → Event → Local → Type 0
Escapes answers own k (received none bytes) l = Unprepared answers own (suc k) Pathed false l
Escapes answers own k _ l = ⊥

module _ (answers : Answers) (own k : ℕ) (X : Knows) (E : Local → Type 0) where
  released :
      Triple
        (On (Holds answers own (suc k) false X))
        dec_ref_count
        (λ _. On (Holds answers own k false Any))
        E
  released =
      Triple-weaken (dec_ref_count-Holds answers own k X false E) (λ l h. h)
        (λ u l h. Holds-know false l.conn tt h) (λ l h. h)

  ignored :
      Triple
        (On (Holds answers own (suc k) false X))
        (pure tt >> dec_ref_count)
        (λ _. On (Holds answers own k false Any))
        E
  ignored = Triple-then (Triple-pure tt (λ l h. h)) released

module _ (acceptor : Acceptor) (answers : Answers) (own k : ℕ) where
  eof_noted :
      (error : Option ErrorCode) {E : Local → Type 0}
      → Triple
          (On (Holds answers own (suc k) false Pathed))
          (on_conn (λ c. record c { received_eof = c.received_eof || is_eof error }))
          (λ _. On (Holds answers own (suc k) false Pathed))
          E
  eof_noted error =
      Triple-on_conn (Holds answers own (suc k) false Pathed)
        (Holds answers own (suc k) false Pathed)
        (λ c h. Holds-eof false (c.received_eof || is_eof error) c h)

  handle-Holds :
      (e : Event)
      → Triple
          (On (Holds answers own (suc k) false (Before e)))
          (handle acceptor answers e)
          (λ _. On (Holds answers own (after_leak e k) false Any))
          (Escapes answers own k e)
  unfolding handle write_completed read_completed receive_completed wait_completed
  handle-Holds (written (some error)) = Triple-pure tt (λ l h. Holds-know false l.conn tt h)
  handle-Holds (written none) =
      Triple-then (callback_sent_greeting-Holds answers own (suc k) acceptor _)
        (released answers own k Any _)
  handle-Holds (read (some error) bytes) = ignored answers own k Quiet _
  handle-Holds (read none bytes) =
      Triple-then (callback_received_greeting-Holds answers own k acceptor bytes _)
        (released answers own k Any _)
  handle-Holds (received (some error) bytes) = Triple-then (eof_noted (some error)) (
      Triple-then (receive_callback_error-Holds answers own k error bytes _)
        (released answers own k Any _))
  handle-Holds (received none bytes) =
      Triple-then (eof_noted none)
        (Triple-then (receive_callback-Holds answers own k bytes) (released answers own k Any _))
  handle-Holds (send_waited (some error)) = ignored answers own k Any _
  handle-Holds (send_waited none) =
      Triple-then (callback_send_greeting_timeout-Holds answers own (suc k) Any _)
        (released answers own k Any _)
  handle-Holds (receive_waited (some error)) = ignored answers own k Greeted _
  handle-Holds (receive_waited none) =
      Triple-then (callback_receive_greeting_timeout-Holds answers own (suc k) _)
        (released answers own k Any _)

-- The handler runs on the connection that asio has taken the operation from.
abbrev pub deliver : Acceptor → Answers → Event → Local → Outcome (Unit {0}) × Local
deliver acceptor answers e l = handle acceptor answers e (record l { conn = taken e l.conn })

module _ (acceptor : Acceptor) (answers : Answers) (e : Event) (l : Local) where
  pub delivered :
      IsValid l.conn
      → is_pending e l.conn ≡ true
      → let r = deliver acceptor answers e l in
        Ends
          (λ _. On (Holds answers l.id (after_leak e (slack l.conn)) false Any))
          (Escapes answers l.id (slack l.conn) e)
          r.0
          r.1
  delivered v p =
      (handle-Holds acceptor answers l.id (slack l.conn) e).at _ (taken-Holds answers e l.conn v p)
