-- ===== src/Net/Events/Framed.antt =====
-- What a handler does to the parts of a connection beside its phase and the operations that asio has
-- pending for it: a predicate that does not look at these parts stays true.
use mathlib.Core.Path.{subst}
use hyperion_server.Common.{ℕ, zero, suc, ◌+◌, sym, Option, none, some, List, length, Bool}
use hyperion_server.Common.Text.{Text}
use hyperion_server.Common.Exec.{Exec, modify}
use hyperion_server.Common.Exec.Kept.{
  Kept, Kept-pure, Kept-assert, Kept-may_throw, Kept-modify, Kept-if, Kept-bind, Kept-gets,
  Kept-try, Kept-guarded,
}
use hyperion_server.Media.Save.{Answers, Files}
use hyperion_server.Net.Connection.{
  Connection, Local, on_conn, on_files, set_path, close_out_file, create_out_file, begin_out_files,
  append_out_file, open_out_file, close_socket, shutdown_and_close, end_connection, inc_ref_count,
  dec_ref_count, get_streambuf, prepare, consume, set_timer_expires_after,
}
use hyperion_server.Net.Listener.{put_byte?, save_bytes, save_received}
use hyperion_server.Net.Events.OutFile.{conn-put_byte}

-- The predicate does not look at these fields.
pub record Frame (P : Connection → Type 0) : Type 0 where
  pub out_path : (c : Connection) (x : Text) → P c → P (record c { out_file_path = x })
  pub out_open : (c : Connection) (x : Bool) → P c → P (record c { out_file_open = x })
  pub directory : (c : Connection) (x : Text) → P c → P (record c { out_file_directory = x })
  pub socket : (c : Connection) (x : Bool) → P c → P (record c { socket_open = x })
  pub buffer : (c : Connection) (x : ℕ) → P c → P (record c { buffered = x })
  pub expiry : (c : Connection) (x : ℕ) → P c → P (record c { expires_after = x })
  pub ended : (c : Connection) (x : Bool) → P c → P (record c { received_eof = x })
  pub references : (c : Connection) (x : ℕ) → P c → P (record c { ref_count = x })

abbrev pub On : (Connection → Type 0) → Local → Type 0
On P l = P l.conn

pub Kept-conn :
    {P : Connection → Type 0} (f : Connection → Connection)
    → ((c : Connection) → P c → P (f c))
    → Kept (On P) (on_conn f)
unfolding on_conn
Kept-conn f h = record { at = λ l p. h l.conn p }

module _ {P : Connection → Type 0} (frame : Frame P) where
  Kept-on_files : (m : Exec Files (Unit {0})) → Kept (On P) (on_files m)
  unfolding on_files
  Kept-on_files m = record { at = λ l p. p }

  Kept-set_path : (path : Option Text) → Kept (On P) (set_path path)
  unfolding set_path
  Kept-set_path none = record { at = λ l p. p }
  Kept-set_path (some path) = record { at = λ l p. frame.out_path l.conn path p }

  Kept-close_out_file : Kept (On P) close_out_file
  unfolding close_out_file
  Kept-close_out_file = Kept-conn _ (λ c p. frame.out_open c _ p)

  Kept-create_out_file : (answers : Answers) → Kept (On P) (create_out_file answers)
  unfolding create_out_file
  Kept-create_out_file answers =
      Kept-gets _
        (λ path. Kept-bind (Kept-on_files _) (λ u. Kept-conn _ (λ c p. frame.out_open c _ p)))

  pub Kept-begin_out_files :
      (answers : Answers) (directory : Text) → Kept (On P) (begin_out_files answers directory)
  unfolding begin_out_files
  Kept-begin_out_files answers directory =
      Kept-bind (Kept-conn _ (λ c p. frame.directory c _ p)) (λ u. Kept-gets _ (λ path.
        Kept-bind (Kept-set_path path)
          (λ u. Kept-bind (Kept-create_out_file answers) (λ u. Kept-close_out_file))))

  Kept-append_out_file : Kept (On P) (modify append_out_file)
  unfolding append_out_file
  Kept-append_out_file = Kept-modify _ (λ l p. frame.out_open l.conn _ p)

  Kept-open_out_file : (answers : Answers) → Kept (On P) (open_out_file answers)
  unfolding open_out_file
  Kept-open_out_file answers = Kept-gets _ (λ path. Kept-bind (Kept-assert _) (λ u.
      Kept-gets _ (λ is_open.
        Kept-bind (Kept-assert _)
          (λ u. Kept-if _ Kept-append_out_file (Kept-create_out_file answers)))))

  Kept-close_socket : (answers : Answers) → Kept (On P) (close_socket answers)
  unfolding close_socket
  Kept-close_socket answers =
      Kept-bind (Kept-conn _ (λ c p. frame.socket c _ p)) (λ u. Kept-may_throw _ _)

  pub Kept-end_connection : (answers : Answers) → Kept (On P) (end_connection answers)
  unfolding end_connection shutdown_and_close
  Kept-end_connection answers =
      Kept-try
        (Kept-bind Kept-close_out_file (λ u. Kept-gets _ (λ ended.
          Kept-bind (Kept-if _ (Kept-pure _) (Kept-may_throw _ _))
            (λ u. Kept-close_socket answers))))
        (λ e. Kept-pure _)

  pub Kept-inc_ref_count : Kept (On P) inc_ref_count
  unfolding inc_ref_count
  Kept-inc_ref_count = Kept-conn _ (λ c p. frame.references c _ p)

  pub Kept-dec_ref_count : Kept (On P) dec_ref_count
  unfolding dec_ref_count
  Kept-dec_ref_count =
      Kept-gets _
        (λ n. Kept-bind (Kept-assert _) (λ u. Kept-conn _ (λ c p. frame.references c _ p)))

  pub Kept-get_streambuf : Kept (On P) get_streambuf
  unfolding get_streambuf
  Kept-get_streambuf = Kept-gets _ (λ n. Kept-assert _)

  pub Kept-prepare : (answers : Answers) (n : ℕ) → Kept (On P) (prepare answers n)
  unfolding prepare
  Kept-prepare answers n = Kept-gets _ (λ size. Kept-may_throw _ _)

  pub Kept-consume : (n : ℕ) → Kept (On P) (consume n)
  unfolding consume
  Kept-consume n = Kept-bind Kept-get_streambuf (λ u. Kept-conn _ (λ c p. frame.buffer c _ p))

  pub Kept-set_timer_expires_after :
      (answers : Answers) (time : ℕ) → Kept (On P) (set_timer_expires_after answers time)
  unfolding set_timer_expires_after
  Kept-set_timer_expires_after answers time =
      Kept-bind (Kept-may_throw _ _) (λ u. Kept-conn _ (λ c p. frame.expiry c _ p))

  Kept-put_byte? : (byte : Option ℕ) → Kept (On P) (put_byte? byte)
  unfolding put_byte?
  Kept-put_byte? none = record { at = λ l p. p }
  Kept-put_byte? (some byte) = record { at = λ l p. subst P (sym (conn-put_byte byte l)) p }

  Kept-save_bytes : (left i : ℕ) (bytes : List ℕ) → Kept (On P) (save_bytes left i bytes)
  unfolding save_bytes
  Kept-save_bytes zero i bytes = Kept-pure _
  Kept-save_bytes (suc left) i bytes =
      Kept-bind (Kept-put_byte? _) (λ u. Kept-save_bytes left (i + 1) bytes)

  pub Kept-save_received :
      (answers : Answers) (bytes : List ℕ) → Kept (On P) (save_received answers bytes)
  unfolding save_received
  Kept-save_received answers bytes =
      Kept-bind (Kept-open_out_file answers)
        (λ u. Kept-guarded Kept-close_out_file (Kept-save_bytes (length bytes) 0 bytes))
