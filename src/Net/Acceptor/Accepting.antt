-- ===== src/Net/Acceptor/Accepting.antt =====
-- What an accepted greeting leads to.
use hyperion_server.Common.{
  ℕ, ◌+◌, ◌-◌, ◌≡◌, ◌≢◌, refl, true, false, some, List, [], length, arith, ◌==◌, ◌++◌, leb,
}
use hyperion_server.Common.Text.{Text}
use hyperion_server.Common.Exec.{returned, guarded, try_catch, ◌>>=◌}
use hyperion_server.Media.Prop.{MediaConfig, MediaProp, get_type}
use hyperion_server.Media.Save.{Answers, Files, put_file, make_save_file}
use hyperion_server.Net.Greeting.{parse_client_greeting}
use hyperion_server.Net.Connection.{
  Connection, ConnectionStatus, rank, send_s_greeting, Local, awaiting_c_greeting, active,
  make_out_file_path, save_name, file_ext, on_conn, on_files, get_streambuf, consume, set_status,
  set_path, begin_out_files, create_out_file, close_out_file, async_receive, inc_ref_count, prepare,
}
use hyperion_server.Net.Listener.{do_async_receive, begin_async_receive}
use hyperion_server.Net.Acceptor.{Acceptor, announce, callback_received_greeting}
use hyperion_server.Net.Events.{on_connection_accepted}

-- The environment lets the file be made and the next receive be started.
pub record Ready (answers : Answers) : Type 0 where
  pub creates : answers.create_opens ≡ true
  pub makes_directory : answers.mkdir_throws ≡ false
  pub prepares : answers.prepare_throws ≡ false

made_path :
    (c : Connection) (ext : Text)
    → file_ext (get_type c.media_prop) ≡ some ext
    → make_out_file_path c ≡ some (c.out_file_directory ++ save_name c.out_file_directory c.id ext)
unfolding make_out_file_path
made_path c ext e = rw (e, make_out_file_path) refl

saved_path :
    (answers : Answers) (path : Text) (files : Files)
    → Ready answers
    → make_save_file answers path files ≡ (returned tt, put_file path [] files)
unfolding make_save_file ◌>>=◌
saved_path answers path files ready = ground arith

-- The connection and the disk once the greeting is accepted: there is an empty file, and a receive
-- is pending.
abbrev pub announced : Text → Text → Local → Local
announced directory path l = record {
  conn = record l.conn {
    out_file_directory = directory;
    out_file_path = path;
    out_file_open = false;
    ref_count = l.ref_count + 1;
    receives = l.receives + 1;
  };
  files = put_file path [] l.files;
}

begun :
    (config : MediaConfig) (answers : Answers) (l : Local) (ext : Text)
    → Ready answers
    → l.buffered ≡ 0
    → l.ref_count ≢ 0
    → file_ext (get_type l.media_prop) ≡ some ext
    → on_connection_accepted config answers l ≡ (
      returned tt,
      announced config.media_save_path
          (config.media_save_path ++ save_name config.media_save_path l.id ext)
          l,
    )
unfolding on_connection_accepted on_conn on_files get_streambuf set_path begin_out_files
    create_out_file close_out_file async_receive inc_ref_count prepare do_async_receive
    begin_async_receive ◌>>=◌
begun config answers l ext ready b c named =
    let held : (l.ref_count == 0) ≡ false = ground arith in
    let made =
      made_path (record l.conn { out_file_directory = config.media_save_path }) ext named in
    let path = config.media_save_path ++ save_name config.media_save_path l.id ext in
    rw (made, b) (rw (saved_path answers path l.files ready) (rw (held, ready.prepares) refl))

low_rank : (status : ConnectionStatus) → leb (rank status) 2 ≡ true
low_rank send_s_greeting = refl
low_rank awaiting_c_greeting = refl
low_rank active = refl

-- For a connection that has a reference and an empty buffer, where the parser accepts the bytes as
-- properties of a picture or a film, and the environment lets the file be made and the receive be
-- started: the connection becomes active with these properties, its file is made and is empty, and
-- exactly one more receive is pending.
pub callback_received_greeting-announced :
    (acceptor : Acceptor) (answers : Answers) (bytes : List ℕ) (l : Local) (p : MediaProp)
    (ext : Text)
    → Ready answers
    → l.buffered ≡ 0
    → l.ref_count ≢ 0
    → parse_client_greeting acceptor.order acceptor.media_config bytes (length bytes) ≡ returned p
    → file_ext (get_type p) ≡ some ext
    → let directory = acceptor.media_config.media_save_path in
      callback_received_greeting acceptor answers
        (on_connection_accepted acceptor.media_config answers)
        bytes
        l
      ≡ (
        returned tt,
        announced directory
            (directory ++ save_name directory l.id ext)
            (record l { conn = record l.conn { media_prop = p; status = active } }),
      )
unfolding callback_received_greeting announce on_conn get_streambuf consume set_status guarded
    try_catch ◌>>=◌
callback_received_greeting-announced acceptor answers bytes l p ext ready b c parsed named =
    let held : (l.ref_count == 0) ≡ false = ground arith in
    let held_after : (l.ref_count + 1 == 0) ≡ false = ground arith in
    let empty : (l.buffered == 0) ≡ true = ground arith in
    let consumed : l.buffered - length bytes ≡ l.buffered = omega arith in
    let after =
      begun acceptor.media_config answers
        (record l { conn = record l.conn { media_prop = p; status = active } }) ext ready b c
        named in
    rw (held, parsed)
      (rw (low_rank l.status) (rw (held, empty) (rw after (rw (held_after, consumed) refl))))
