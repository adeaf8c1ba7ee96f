-- ===== src/Net/Connection/Closing.antt =====
-- How a connection is ended.
use hyperion_server.Common.{◌≡◌, false, not, ◌&&◌, arith}
use hyperion_server.Common.Exec.{returned, try_catch, ◌>>=◌}
use hyperion_server.Media.Save.{Answers}
use hyperion_server.Net.Connection.{
  Local, on_conn, close_out_file, close_socket, shutdown_and_close, end_connection,
}

-- `End` always returns and closes the file; the socket is left open in one case, where it was open,
-- the client has not ended the stream, and `shutdown` throws.
pub end_connection_closed :
    (answers : Answers) (l : Local)
    → ((end_connection answers l).0 ≡ returned tt)
      × ((end_connection answers l).1.out_file_open ≡ false)
      × ((end_connection answers l).1.socket_open
          ≡ l.socket_open && (not l.received_eof && answers.shutdown_throws))
unfolding end_connection shutdown_and_close close_socket close_out_file on_conn try_catch ◌>>=◌
end_connection_closed answers l = ground arith
