-- ===== src/Net/Events.antt =====
-- What asio delivers to a connection, and the handler that answers: the completion of an operation
-- that is pending, with its result. asio calls the handler of each operation once; which pending
-- operation completes next, and how, is not determined.
pub mod Running
pub mod Fields
pub mod Operations
pub mod OutFile
pub mod Callbacks
pub mod Valid
pub mod Handlers
pub mod Safety
pub mod Framed
pub mod Phases
pub mod Counting
pub mod Vetted
pub mod Streaming
pub mod Session
pub mod Sealed
use hyperion_server.Common.{ℕ, ◌-◌, Bool, Option, none, some, List, [], ltb}
use hyperion_server.Common.Exec.{pure, ◌>>◌}
use hyperion_server.Media.Prop.{MediaConfig}
use hyperion_server.Media.Save.{Answers}
use hyperion_server.Net.Props.{ErrorCode}
use hyperion_server.Net.Connection.{
  Connection, Handler, begin_out_files, write_completed, read_completed, receive_completed,
  wait_completed,
}
use hyperion_server.Net.Acceptor.{
  Acceptor, callback_sent_greeting, callback_received_greeting, callback_send_greeting_timeout,
  callback_receive_greeting_timeout,
}
use hyperion_server.Net.Listener.{begin_async_receive, receive_callback}

pub data Event : Type 0 where
  written : Option ErrorCode → Event
  read : Option ErrorCode → List ℕ → Event
  received : Option ErrorCode → List ℕ → Event
  send_waited : Option ErrorCode → Event
  receive_waited : Option ErrorCode → Event

-- The operation of the event is pending.
abbrev pub is_pending : Event → Connection → Bool
is_pending (written error) c = ltb 0 c.writes
is_pending (read error bytes) c = ltb 0 c.reads
is_pending (received error bytes) c = ltb 0 c.receives
is_pending (send_waited error) c = ltb 0 c.send_waits
is_pending (receive_waited error) c = ltb 0 c.receive_waits

-- asio forgets the operation before it calls the handler.
unfoldable pub taken : Event → Connection → Connection
taken (written error) c = record c { writes = c.writes - 1 }
taken (read error bytes) c = record c { reads = c.reads - 1 }
taken (received error bytes) c = record c { receives = c.receives - 1 }
taken (send_waited error) c = record c { send_waits = c.send_waits - 1 }
taken (receive_waited error) c = record c { receive_waits = c.receive_waits - 1 }

-- `onConnectionAccepted`, as `RunConnectionServices` sets it.
unfoldable pub on_connection_accepted : MediaConfig → Answers → Handler
on_connection_accepted config answers = do
  begin_out_files answers config.media_save_path
  begin_async_receive answers

abbrev unless_error : Option ErrorCode → Handler → Handler
unless_error none m = m
unless_error (some error) m = pure tt

unfoldable pub handle : Acceptor → Answers → Event → Handler
handle acceptor answers (written error) =
    write_completed (λ error _. unless_error error (callback_sent_greeting acceptor answers)) error
      []
handle acceptor answers (read error bytes) =
    read_completed
      (λ error bytes. unless_error error (
        callback_received_greeting acceptor answers
          (on_connection_accepted acceptor.media_config answers) bytes))
      error bytes
handle acceptor answers (received error bytes) =
    receive_completed (receive_callback answers) error bytes
handle acceptor answers (send_waited error) =
    wait_completed (λ error. unless_error error (callback_send_greeting_timeout answers)) error
handle acceptor answers (receive_waited error) =
    wait_completed (λ error. unless_error error (callback_receive_greeting_timeout answers)) error
