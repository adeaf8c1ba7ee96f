-- ===== src/Net/Listener.antt =====
-- src/net/service/connection_listener.cpp.
pub mod Saving
use hyperion_server.Common.{
  ℕ, zero, suc, ◌+◌, Option, none, some, List, [], ◌∷◌, ◌++◌, ◌==◌, get_elem?, length,
  if◌then◌else◌,
}
use hyperion_server.Common.Exec.{
  assert, pure, gets, try_catch, guarded, aborted, returned, ◌>>=◌, ◌>>◌,
}
use hyperion_server.Media.Save.{contents, put_file, Answers}
use hyperion_server.Net.Connection.{
  Local, Handler, Callback, receive_buf_size, get_streambuf, async_receive, consume, end_connection,
  open_out_file, close_out_file,
}

abbrev pub bytes_of : Option (List ℕ) → List ℕ
bytes_of none = []
bytes_of (some bytes) = bytes

-- `out_file << byte`, which does nothing on a stream that is not open. That the disk takes the byte is
-- not looked at by the source either.
unfoldable pub put_byte : ℕ → Local → Local
put_byte byte l =
    if out_file_open
    then record l {
      files = put_file out_file_path (bytes_of (contents files out_file_path) ++ byte ∷ []) files;
    }
    else l
  where
    open l use {files, out_file_open, out_file_path}

unfoldable pub put_byte? : Option ℕ → Handler
put_byte? none l = (aborted, l)
put_byte? (some byte) l = (returned tt, put_byte byte l)

-- The loop over `i`, with the rounds that are left.
unfoldable pub save_bytes : ℕ → ℕ → List ℕ → Handler
save_bytes zero i bytes = pure tt
save_bytes (suc left) i bytes = do put_byte? (get_elem? bytes i); save_bytes left (i + 1) bytes

-- The body of the `try`: the file is closed again, also by an exception.
unfoldable pub save_received : Answers → List ℕ → Handler
save_received answers bytes = do
  open_out_file answers
  guarded close_out_file (save_bytes (length bytes) 0 bytes)

unfoldable pub do_async_receive : Answers → Handler
do_async_receive answers = do
  get_streambuf
  size ← gets (λ l. l.buffered)
  assert (size == 0)
  async_receive answers receive_buf_size

-- The callback that `DoAsyncReceive` passes on.
unfoldable pub receive_callback : Answers → Callback
receive_callback answers (some error) bytes =
    guarded (consume (length bytes)) (end_connection answers)
receive_callback answers none bytes = guarded (consume (length bytes)) do
  get_streambuf
  try_catch (save_received answers bytes) (λ e. pure tt)
  do_async_receive answers

unfoldable pub begin_async_receive : Answers → Handler
begin_async_receive = do_async_receive
