-- ===== src/Net/Connection.antt =====
-- include/net/connection.h and src/net/connection.cpp.
--
-- asio keeps the operations that a connection has started until it calls their handlers; here they
-- are counted by the handler that waits for them. Identifiers and reference counts do not wrap.
pub mod Paths
pub mod Closing
use hyperion_server.Common.{
  ℕ, ◌+◌, ◌-◌, Bool, true, false, not, ◌||◌, Option, none, some, List, [], ◌++◌, ltb, leb, ◌==◌,
  if◌then◌else◌,
}
use hyperion_server.Common.Text.{Text, codes, is_empty}
use hyperion_server.Common.Digits.{to_string}
use hyperion_server.Common.Exec.{
  Exec, modify, may_throw, assert, pure, gets, try_catch, length_error, system_error, aborted,
  returned, ◌>>=◌, ◌>>◌,
}
use hyperion_server.Media.Prop.{
  MediaProp, MediaType, image, video, get_type, default_prop, image_ext, video_ext,
}
use hyperion_server.Media.Save.{Files, contents, put_file, Answers, make_save_file}
use hyperion_server.Net.Props.{ErrorCode, eof}

pub data ConnectionStatus : Type 0 where
  send_s_greeting awaiting_c_greeting active : ConnectionStatus

-- `static_cast<unsigned>` of a status.
abbrev pub rank : ConnectionStatus → ℕ
rank send_s_greeting = 0
rank awaiting_c_greeting = 1
rank active = 2

-- A `Connection` with its base, its socket and timer, and what asio has pending for it.
pub record Connection : Type 0 where
  pub id : ℕ
  pub media_prop : MediaProp
  pub status : ConnectionStatus
  pub out_file_path : Text
  pub out_file_directory : Text
  pub out_file_open : Bool
  pub socket_open : Bool
  -- the bytes given to `async_write`
  pub outgoing : List ℕ
  -- the size of the input sequence of `buf_`, which only a `commit` would raise
  pub buffered : ℕ
  -- the last expiry time of `timer_`
  pub expires_after : ℕ
  pub received_eof : Bool
  pub ref_count : ℕ
  -- pending operations
  pub writes : ℕ
  pub reads : ℕ
  pub receives : ℕ
  pub send_waits : ℕ
  pub receive_waits : ℕ

abbrev pub receive_buf_size : ℕ
receive_buf_size = 32768

-- What a handler works on: its connection and the disk.
pub record Local : Type 0 where
  pub conn : Connection
  pub open conn use *
  pub files : Files

abbrev pub Handler : Type 0
Handler = Exec Local (Unit {0})

unfoldable pub on_conn : (Connection → Connection) → Handler
on_conn f l = (returned tt, record l { conn = f l.conn })

unfoldable pub on_files : Exec Files (Unit {0}) → Handler
on_files m l = let r = m l.files in (r.0, record l { files = r.1 })

-- `ConnectionBase()` and `Connection(socket)`, once the socket has told its remote end.
unfoldable pub new_connection : ℕ → Connection
new_connection id = record {
  id = id;
  media_prop = default_prop;
  status = send_s_greeting;
  out_file_path = [];
  out_file_directory = [];
  out_file_open = false;
  socket_open = true;
  outgoing = [];
  buffered = 0;
  expires_after = 0;
  received_eof = false;
  ref_count = 0;
  writes = 0;
  reads = 0;
  receives = 0;
  send_waits = 0;
  receive_waits = 0;
}

unfoldable pub set_status : ConnectionStatus → Handler
set_status status = do
  now ← gets (λ l. l.status)
  assert (leb (rank now) (rank status))
  on_conn (λ c. record c { status = status })

-- The file name ends in the extension of the media type; there is none for other types.
unfoldable pub file_ext : MediaType → Option Text
file_ext image = some image_ext
file_ext video = some video_ext
file_ext _ = none

unfoldable pub save_name : Text → ℕ → Text → Text
save_name directory id ext =
    (if is_empty directory then [] else codes "/") ++ (to_string id ++ (codes "." ++ ext))

-- `MakeOutFilePath`; `none` is the failed `assert`.
unfoldable pub make_out_file_path : Connection → Option Text
unfolding file_ext save_name
make_out_file_path c = elim (file_ext (get_type c.media_prop)) [
  | none ↦ none
  | some ext ↦ some (c.out_file_directory ++ save_name c.out_file_directory c.id ext)
]

unfoldable pub set_path : Option Text → Handler
set_path none l = (aborted, l)
set_path (some path) l = (returned tt, record l { conn = record l.conn { out_file_path = path } })

unfoldable pub close_out_file : Handler
close_out_file = on_conn (λ c. record c { out_file_open = false })

-- `outFile_ = MakeSaveFile(outFilePath_)`
unfoldable pub create_out_file : Answers → Handler
create_out_file answers = do
  path ← gets (λ l. l.out_file_path)
  on_files (make_save_file answers path)
  on_conn (λ c. record c { out_file_open = true })

unfoldable pub begin_out_files : Answers → Text → Handler
begin_out_files answers file_directory_path = do
  on_conn (λ c. record c { out_file_directory = file_directory_path })
  path ← gets (λ l. make_out_file_path l.conn)
  set_path path
  create_out_file answers
  close_out_file

-- `outFile_.open(outFilePath_, app | binary)`: a missing file is made, another keeps its bytes.
unfoldable pub append_out_file : Local → Local
append_out_file l = record {
  conn = record conn { out_file_open = true };
  files = elim (contents files out_file_path) [
    | none ↦ put_file out_file_path [] files
    | some bytes ↦ files
  ];
}
  where
    open l use {conn, files}
    open l use {out_file_path}

unfoldable pub open_out_file : Answers → Handler
open_out_file answers = do
  path ← gets (λ l. l.out_file_path)
  assert (not (is_empty path))
  is_open ← gets (λ l. l.out_file_open)
  assert (not is_open)
  if answers.append_opens then modify append_out_file else create_out_file answers

abbrev pub finish_out_file : Handler
finish_out_file = close_out_file

unfoldable pub can_destruct : Connection → Bool
can_destruct c = c.ref_count == 0

-- asio closes the descriptor also where `close` reports an error.
unfoldable pub close_socket : Answers → Handler
close_socket answers = do
  on_conn (λ c. record c { socket_open = false })
  may_throw answers.close_throws system_error

unfoldable pub shutdown_and_close : Answers → Handler
shutdown_and_close answers = do
  finish_out_file
  ended ← gets (λ l. l.received_eof)
  if ended then pure tt else may_throw answers.shutdown_throws system_error
  close_socket answers

-- `End`
unfoldable pub end_connection : Answers → Handler
end_connection answers = try_catch (shutdown_and_close answers) (λ e. pure tt)

unfoldable pub inc_ref_count : Handler
inc_ref_count = on_conn (λ c. record c { ref_count = c.ref_count + 1 })

unfoldable pub dec_ref_count : Handler
dec_ref_count = do
  n ← gets (λ l. l.ref_count)
  assert (not (n == 0))
  on_conn (λ c. record c { ref_count = c.ref_count - 1 })

-- The assertion of `GetStreambuf`.
unfoldable pub get_streambuf : Handler
get_streambuf = do n ← gets (λ l. l.ref_count); assert (not (n == 0))

-- `buf_.prepare(n)`
unfoldable pub prepare : Answers → ℕ → Handler
prepare answers n = do
  size ← gets (λ l. l.buffered)
  may_throw (ltb receive_buf_size (size + n) || answers.prepare_throws) length_error

-- `GetStreambuf().consume(n)`
unfoldable pub consume : ℕ → Handler
consume n = do get_streambuf; on_conn (λ c. record c { buffered = c.buffered - n })

unfoldable pub set_timer_expires_after : Answers → ℕ → Handler
set_timer_expires_after answers time = do
  may_throw answers.expires_throws system_error
  on_conn (λ c. record c { expires_after = time })

-- Starting an operation. Its callback is the handler below that completes it.
unfoldable pub async_write : List ℕ → Handler
async_write msg = do
  inc_ref_count
  on_conn (λ c. record c { outgoing = c.outgoing ++ msg; writes = c.writes + 1 })

unfoldable pub async_read : Answers → ℕ → Handler
async_read answers n = do
  inc_ref_count
  prepare answers n
  on_conn (λ c. record c { reads = c.reads + 1 })

unfoldable pub async_receive : Answers → ℕ → Handler
async_receive answers n = do
  inc_ref_count
  prepare answers n
  on_conn (λ c. record c { receives = c.receives + 1 })

-- `AsyncWait`, by the callback that it is given.
pub data Timeout : Type 0 where
  send_greeting receive_greeting : Timeout

unfoldable pub async_wait : Timeout → Handler
async_wait send_greeting = do
  inc_ref_count
  on_conn (λ c. record c { send_waits = c.send_waits + 1 })
async_wait receive_greeting = do
  inc_ref_count
  on_conn (λ c. record c { receive_waits = c.receive_waits + 1 })

-- The handlers that asio is given, around the callback of the caller.
abbrev pub Callback : Type 0
Callback = Option ErrorCode → List ℕ → Handler

unfoldable pub write_completed : Callback → Callback
write_completed callback (some error) bytes = pure tt
write_completed callback none bytes = do callback none bytes; dec_ref_count

unfoldable pub read_completed : Callback → Callback
read_completed callback error bytes = do callback error bytes; dec_ref_count

abbrev pub is_eof : Option ErrorCode → Bool
is_eof (some eof) = true
is_eof _ = false

unfoldable pub receive_completed : Callback → Callback
receive_completed callback error bytes = do
  on_conn (λ c. record c { received_eof = c.received_eof || is_eof error })
  callback error bytes
  dec_ref_count

unfoldable pub wait_completed : (Option ErrorCode → Handler) → Option ErrorCode → Handler
wait_completed callback error = do callback error; dec_ref_count
