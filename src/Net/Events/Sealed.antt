-- ===== src/Net/Events/Sealed.antt =====
-- Which files the operations of a connection write.
pub mod Apart
use mathlib.Core.Path.{subst}
use hyperion_server.Common.{
  ℕ, zero, suc, ◌+◌, ◌≡◌, ◌≢◌, ◌⊎◌, refl, sym, ap, ◌∙◌, true, false, Option, none, some, List, [],
  length, Bool-cases, Option-cases, inl, inr, arith,
}
use hyperion_server.Common.Text.{Text, is_empty, same_text, same_text_iff}
use hyperion_server.Common.Exec.{modify, ◌>>=◌, ◌>>◌}
use hyperion_server.Common.Exec.Kept.{
  Kept, Kept-pure, Kept-assert, Kept-may_throw, Kept-modify, Kept-if, Kept-bind, Kept-gets,
  Kept-read, Kept-lift, Kept-try, Kept-guarded,
}
use hyperion_server.Media.Prop.{MediaConfig, get_type}
use hyperion_server.Media.Save.{Answers, Files, contents, put_file, make_save_file}
use hyperion_server.Net.Props.{ErrorCode}
use hyperion_server.Net.Connection.{
  Connection, ConnectionStatus, Local, Handler, on_conn, on_files, set_path, close_out_file,
  make_out_file_path, file_ext, create_out_file, begin_out_files, append_out_file, open_out_file,
  close_socket, shutdown_and_close, end_connection, inc_ref_count, dec_ref_count, get_streambuf,
  prepare, consume, set_timer_expires_after, async_write, async_read, async_receive, async_wait,
  Timeout, send_greeting, receive_greeting, set_status, write_completed, read_completed,
  receive_completed, wait_completed,
}
use hyperion_server.Net.Connection.Paths.{make_out_file_path-ne}
use hyperion_server.Net.Acceptor.{
  Acceptor, announce, callback_sent_greeting, callback_received_greeting,
  callback_send_greeting_timeout, callback_receive_greeting_timeout,
}
use hyperion_server.Net.Listener.{
  put_byte, put_byte?, save_bytes, save_received, do_async_receive, begin_async_receive,
  receive_callback,
}
use hyperion_server.Net.Events.{
  Event, written, read, received, send_waited, receive_waited, handle, taken, unless_error,
  on_connection_accepted,
}
use hyperion_server.Net.Events.OutFile.{make_out_file_path-some}
use hyperion_server.Net.Listener.Saving.{opened-HasSaved}
use hyperion_server.Net.Events.Handlers.{deliver}

-- A path that a connection may write to: none yet, or one that is made for its identifier.
abbrev pub Mine : ℕ → Text → Text → Type 0
Mine own directory path =
    (is_empty path ≡ true)
    ⊎ ((c : Connection) × (c.id ≡ own)
        × (c.out_file_directory ≡ directory)
        × (make_out_file_path c ≡ some path))

-- A connection, by its identifier, the directory it stores in, and the files before.
pub record Scope : Type 0 where
  pub own : ℕ
  pub directory : Text
  pub before : Files

module _ (o : Scope) where
  abbrev pub Other : Text → Type 0
  Other path = (q : Text) → Mine o.own o.directory q → same_text q path ≡ false

  abbrev pub Untouched : Files → Type 0
  Untouched files = (path : Text) → Other path → contents files path ≡ contents o.before path

  -- The connection keeps to its o.own files.
  abbrev pub Sealed : Local → Type 0
  Sealed l = (l.id ≡ o.own) × Mine o.own o.directory l.out_file_path × Untouched l.files

  put_file-Untouched :
      (path : Text) (bytes : List ℕ) (files : Files)
      → Mine o.own o.directory path
      → Untouched files
      → Untouched (put_file path bytes files)
  unfolding put_file contents
  put_file-Untouched path bytes files m h p other = rw (other path m) (h p other)

  make_save_file-Untouched :
      (answers : Answers) (path : Text)
      → Mine o.own o.directory path
      → Kept Untouched (make_save_file answers path)
  unfolding make_save_file
  make_save_file-Untouched answers path m = Kept-bind (Kept-may_throw _ _) (λ u.
      Kept-bind (Kept-may_throw _ _)
        (λ u. Kept-modify _ (λ files h. put_file-Untouched path [] files m h)))

  pub Kept-on_conn :
      (f : Connection → Connection)
      → ((l : Local) → Sealed l → Sealed (record l { conn = f l.conn }))
      → Kept Sealed (on_conn f)
  unfolding on_conn
  Kept-on_conn f h = record { at = h }

  Kept-close_out_file : Kept Sealed close_out_file
  unfolding close_out_file
  Kept-close_out_file = Kept-on_conn _ (λ l s. s)

  Kept-create_out_file : (answers : Answers) → Kept Sealed (create_out_file answers)
  unfolding create_out_file on_files
  Kept-create_out_file answers = Kept-read _ (λ l s path e.
      Kept-bind
        (record {
          at = λ k t. (
            t.0,
            t.1,
            (make_save_file-Untouched answers path (subst (Mine o.own o.directory) e s.1)).at
                k.files t.2,
          );
        })
        (λ u. Kept-on_conn _ (λ l s. s)))

  begun :
      (answers : Answers) (path : Option Text)
      → ((p : Text) → path ≡ some p → Mine o.own o.directory p)
      → Kept Sealed (set_path path >> (create_out_file answers >> close_out_file))
  unfolding set_path
  begun answers none m =
      Kept-bind (record { at = λ l s. s })
        (λ u. Kept-bind (Kept-create_out_file answers) (λ u. Kept-close_out_file))
  begun answers (some p) m =
      Kept-bind (record { at = λ l s. (s.0, m p refl, s.2) })
        (λ u. Kept-bind (Kept-create_out_file answers) (λ u. Kept-close_out_file))

  Kept-begin_out_files : (answers : Answers) → Kept Sealed (begin_out_files answers o.directory)
  unfolding begin_out_files on_conn ◌>>=◌
  Kept-begin_out_files answers = record {
    at = λ l s.
        let there : Connection = record l.conn { out_file_directory = o.directory } in
        (begun answers (make_out_file_path there) (λ p e. inr (there, s.0, refl, e))).at
          (record l { conn = there }) s;
  }

  append_out_file-Untouched : (l : Local) → Sealed l → Untouched (append_out_file l).files
  append_out_file-Untouched l s p other =
      let opened = opened-HasSaved l in opened.others p (other l.out_file_path s.1) ∙ s.2 p other

  Kept-append_out_file : Kept Sealed (modify append_out_file)
  unfolding append_out_file
  Kept-append_out_file = Kept-modify _ (λ l s. (s.0, s.1, append_out_file-Untouched l s))

  Kept-put_byte? : (byte : Option ℕ) → Kept Sealed (put_byte? byte)
  unfolding put_byte? put_byte
  Kept-put_byte? none = record { at = λ l s. s }
  Kept-put_byte? (some byte) = record {
    at = λ l s. elim (Bool-cases l.out_file_open) [
      | inl e ↦ rw e (s.0, s.1, put_file-Untouched l.out_file_path _ l.files s.1 s.2)
      | inr e ↦ rw e s
    ];
  }

  pub Kept-set_status : (status : ConnectionStatus) → Kept Sealed (set_status status)
  unfolding set_status
  Kept-set_status status =
      Kept-gets _ (λ now. Kept-bind (Kept-assert _) (λ u. Kept-on_conn _ (λ l s. s)))

  Kept-open_out_file : (answers : Answers) → Kept Sealed (open_out_file answers)
  unfolding open_out_file
  Kept-open_out_file answers = Kept-gets _ (λ path. Kept-bind (Kept-assert _) (λ u.
      Kept-gets _ (λ is_open.
        Kept-bind (Kept-assert _)
          (λ u. Kept-if _ Kept-append_out_file (Kept-create_out_file answers)))))

  Kept-close_socket : (answers : Answers) → Kept Sealed (close_socket answers)
  unfolding close_socket
  Kept-close_socket answers = Kept-bind (Kept-on_conn _ (λ l s. s)) (λ u. Kept-may_throw _ _)

  pub Kept-end_connection : (answers : Answers) → Kept Sealed (end_connection answers)
  unfolding end_connection shutdown_and_close
  Kept-end_connection answers =
      Kept-try
        (Kept-bind Kept-close_out_file (λ u. Kept-gets _ (λ ended.
          Kept-bind (Kept-if _ (Kept-pure _) (Kept-may_throw _ _))
            (λ u. Kept-close_socket answers))))
        (λ e. Kept-pure _)

  Kept-inc_ref_count : Kept Sealed inc_ref_count
  unfolding inc_ref_count
  Kept-inc_ref_count = Kept-on_conn _ (λ l s. s)

  pub Kept-dec_ref_count : Kept Sealed dec_ref_count
  unfolding dec_ref_count
  Kept-dec_ref_count = Kept-gets _ (λ n. Kept-bind (Kept-assert _) (λ u. Kept-on_conn _ (λ l s. s)))

  pub Kept-get_streambuf : Kept Sealed get_streambuf
  unfolding get_streambuf
  Kept-get_streambuf = Kept-gets _ (λ n. Kept-assert _)

  Kept-prepare : (answers : Answers) (n : ℕ) → Kept Sealed (prepare answers n)
  unfolding prepare
  Kept-prepare answers n = Kept-gets _ (λ size. Kept-may_throw _ _)

  pub Kept-consume : (n : ℕ) → Kept Sealed (consume n)
  unfolding consume
  Kept-consume n = Kept-bind Kept-get_streambuf (λ u. Kept-on_conn _ (λ l s. s))

  pub Kept-set_timer_expires_after :
      (answers : Answers) (time : ℕ) → Kept Sealed (set_timer_expires_after answers time)
  unfolding set_timer_expires_after
  Kept-set_timer_expires_after answers time =
      Kept-bind (Kept-may_throw _ _) (λ u. Kept-on_conn _ (λ l s. s))

  pub Kept-async_write : (msg : List ℕ) → Kept Sealed (async_write msg)
  unfolding async_write
  Kept-async_write msg = Kept-bind Kept-inc_ref_count (λ u. Kept-on_conn _ (λ l s. s))

  pub Kept-async_read : (answers : Answers) (n : ℕ) → Kept Sealed (async_read answers n)
  unfolding async_read
  Kept-async_read answers n =
      Kept-bind Kept-inc_ref_count
        (λ u. Kept-bind (Kept-prepare answers n) (λ u. Kept-on_conn _ (λ l s. s)))

  Kept-async_receive : (answers : Answers) (n : ℕ) → Kept Sealed (async_receive answers n)
  unfolding async_receive
  Kept-async_receive answers n =
      Kept-bind Kept-inc_ref_count
        (λ u. Kept-bind (Kept-prepare answers n) (λ u. Kept-on_conn _ (λ l s. s)))

  pub Kept-async_wait : (timeout : Timeout) → Kept Sealed (async_wait timeout)
  unfolding async_wait
  Kept-async_wait send_greeting = Kept-bind Kept-inc_ref_count (λ u. Kept-on_conn _ (λ l s. s))
  Kept-async_wait receive_greeting = Kept-bind Kept-inc_ref_count (λ u. Kept-on_conn _ (λ l s. s))

  Kept-save_bytes : (left i : ℕ) (bytes : List ℕ) → Kept Sealed (save_bytes left i bytes)
  unfolding save_bytes
  Kept-save_bytes zero i bytes = Kept-pure _
  Kept-save_bytes (suc left) i bytes =
      Kept-bind (Kept-put_byte? _) (λ u. Kept-save_bytes left (i + 1) bytes)

  pub Kept-save_received :
      (answers : Answers) (bytes : List ℕ) → Kept Sealed (save_received answers bytes)
  unfolding save_received
  Kept-save_received answers bytes =
      Kept-bind (Kept-open_out_file answers)
        (λ u. Kept-guarded Kept-close_out_file (Kept-save_bytes (length bytes) 0 bytes))

  pub Kept-do_async_receive : (answers : Answers) → Kept Sealed (do_async_receive answers)
  unfolding do_async_receive
  Kept-do_async_receive answers =
      Kept-bind Kept-get_streambuf
        (λ u. Kept-gets _ (λ size. Kept-bind (Kept-assert _) (λ u. Kept-async_receive answers _)))

  pub Kept-on_connection_accepted :
      (config : MediaConfig) (answers : Answers)
      → config.media_save_path ≡ o.directory
      → Kept Sealed (on_connection_accepted config answers)
  unfolding on_connection_accepted begin_async_receive
  Kept-on_connection_accepted config answers d =
      Kept-bind
        (subst (λ p. Kept Sealed (begin_out_files answers p)) (sym d)
          (Kept-begin_out_files answers))
        (λ u. Kept-do_async_receive answers)
