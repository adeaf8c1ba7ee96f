-- ===== src/Net/Events/Sealed/Apart.antt =====
-- The handlers of a connection write to its own files.
use mathlib.Core.Path.{subst}
use hyperion_server.Common.{
  ℕ, ◌≡◌, ◌≢◌, refl, sym, ◌∙◌, false, Option, none, some, List, inl, inr, arith,
}
use hyperion_server.Common.Text.{Text, is_empty, same_text, same_text_iff}
use hyperion_server.Common.Exec.Kept.{
  Kept, Kept-pure, Kept-assert, Kept-if, Kept-bind, Kept-gets, Kept-lift, Kept-try, Kept-guarded,
}
use hyperion_server.Media.Prop.{get_type}
use hyperion_server.Media.Save.{Answers, contents}
use hyperion_server.Net.Props.{ErrorCode}
use hyperion_server.Net.Connection.{
  Connection, Local, Handler, make_out_file_path, file_ext, write_completed, read_completed,
  receive_completed, wait_completed,
}
use hyperion_server.Net.Connection.Paths.{make_out_file_path-ne}
use hyperion_server.Net.Acceptor.{
  Acceptor, handle_accept, announce, callback_sent_greeting, callback_received_greeting,
  callback_send_greeting_timeout, callback_receive_greeting_timeout,
}
use hyperion_server.Net.Listener.{receive_callback}
use hyperion_server.Net.Events.{
  Event, written, read, received, send_waited, receive_waited, handle, taken, unless_error,
  on_connection_accepted,
}
use hyperion_server.Net.Events.OutFile.{make_out_file_path-some}
use hyperion_server.Net.Events.Handlers.{deliver}
use hyperion_server.Net.Events.Sealed.{
  Kept-async_write, Mine, Scope, Sealed, Kept-on_conn, Kept-set_status, Kept-end_connection,
  Kept-dec_ref_count, Kept-get_streambuf, Kept-consume, Kept-set_timer_expires_after,
  Kept-async_read, Kept-async_wait, Kept-save_received, Kept-do_async_receive,
  Kept-on_connection_accepted,
}

module _ (o : Scope) (acceptor : Acceptor) (answers : Answers)
    (same : acceptor.media_config.media_save_path ≡ o.directory) where
  sent-Kept : Kept (Sealed o) (callback_sent_greeting acceptor answers)
  unfolding callback_sent_greeting
  sent-Kept =
      Kept-try
        (Kept-bind (Kept-async_read o answers _) (λ u.
          Kept-bind (Kept-set_timer_expires_after o answers _)
            (λ u. Kept-bind (Kept-async_wait o _) (λ u. Kept-set_status o _))))
        (λ e. Kept-end_connection o answers)

  announce-Kept :
      Kept (Sealed o) (announce answers (on_connection_accepted acceptor.media_config answers))
  unfolding announce
  announce-Kept =
      Kept-try
        (Kept-bind (Kept-get_streambuf o) (λ u.
          Kept-gets _ (λ size.
            Kept-bind (Kept-assert _) (λ u. Kept-on_connection_accepted o _ answers same))))
        (λ e. Kept-end_connection o answers)

  greeting-Kept :
      (bytes : List ℕ)
      → Kept (Sealed o) (
          callback_received_greeting acceptor answers
            (on_connection_accepted acceptor.media_config answers)
            bytes)
  unfolding callback_received_greeting
  greeting-Kept bytes =
      Kept-try
        (Kept-guarded (Kept-consume o _) (
          Kept-bind (Kept-get_streambuf o) (λ u. Kept-lift _ (λ q e.
            Kept-bind (Kept-on_conn o _ (λ l s. s))
              (λ u. Kept-bind (Kept-set_status o _) (λ u. announce-Kept))))))
        (λ e. Kept-end_connection o answers)

  receive-Kept :
      (error : Option ErrorCode) (bytes : List ℕ)
      → Kept (Sealed o) (receive_callback answers error bytes)
  unfolding receive_callback
  receive-Kept (some error) bytes = Kept-guarded (Kept-consume o _) (Kept-end_connection o answers)
  receive-Kept none bytes = Kept-guarded (Kept-consume o _) (
      Kept-bind (Kept-get_streambuf o) (λ u.
        Kept-bind (Kept-try (Kept-save_received o answers bytes) (λ e. Kept-pure _))
          (λ u. Kept-do_async_receive o answers)))

  unless-Kept :
      (error : Option ErrorCode) {m : Handler}
      → Kept (Sealed o) m
      → Kept (Sealed o) (unless_error error m)
  unless-Kept none h = h
  unless-Kept (some error) h = Kept-pure _

  handle-Kept : (e : Event) → Kept (Sealed o) (handle acceptor answers e)
  unfolding handle write_completed read_completed receive_completed wait_completed
      callback_send_greeting_timeout callback_receive_greeting_timeout
  handle-Kept (written (some error)) = Kept-pure _
  handle-Kept (written none) = Kept-bind sent-Kept (λ u. Kept-dec_ref_count o)
  handle-Kept (read error bytes) =
      Kept-bind (unless-Kept error (greeting-Kept bytes)) (λ u. Kept-dec_ref_count o)
  handle-Kept (received error bytes) =
      Kept-bind (Kept-on_conn o _ (λ l s. s))
        (λ u. Kept-bind (receive-Kept error bytes) (λ u. Kept-dec_ref_count o))
  handle-Kept (send_waited error) =
      Kept-bind
        (unless-Kept error
          (Kept-gets _ (λ status. Kept-if _ (Kept-pure _) (Kept-end_connection o answers))))
        (λ u. Kept-dec_ref_count o)
  handle-Kept (receive_waited error) =
      Kept-bind
        (unless-Kept error (
          Kept-gets _ (λ status.
            Kept-bind (Kept-assert _)
              (λ u. Kept-if _ (Kept-pure _) (Kept-end_connection o answers)))))
        (λ u. Kept-dec_ref_count o)

taken_kept :
    (o : Scope) (e : Event) (l : Local) → Sealed o l → Sealed o (record l { conn = taken e l.conn })
unfolding taken
taken_kept o (written error) l s = s
taken_kept o (read error bytes) l s = s
taken_kept o (received error bytes) l s = s
taken_kept o (send_waited error) l s = s
taken_kept o (receive_waited error) l s = s

-- The path of a connection is empty or made for it in the directory of the configuration.
abbrev pub HasOwnPath : Text → Connection → Type 0
HasOwnPath directory c = Mine c.id directory c.out_file_path

own-Kept :
    (directory : Text) (m : Handler) (l : Local)
    → ((o : Scope) → o.directory ≡ directory → Kept (Sealed o) m)
    → HasOwnPath directory l.conn
    → HasOwnPath directory (m l).1.conn
own-Kept directory m l k own =
    let scope : Scope = record { own = l.id; directory = directory; before = l.files } in
    let (id, mine, untouched) = (k scope refl).at l (refl, own, λ p o. refl) in
    subst (λ i. Mine i directory (m l).1.out_file_path) (sym id) mine

-- A new connection is greeted with no file.
pub handle_accept-HasOwnPath :
    (acceptor : Acceptor) (answers : Answers) (directory : Text) (l : Local)
    → HasOwnPath directory l.conn
    → HasOwnPath directory (handle_accept acceptor answers l).1.conn
unfolding handle_accept
handle_accept-HasOwnPath acceptor answers directory l own =
    own-Kept directory (handle_accept acceptor answers) l
      (λ o e.
        Kept-bind (Kept-async_write o _)
          (λ u. Kept-bind (Kept-set_timer_expires_after o answers _) (λ u. Kept-async_wait o _)))
      own

pub deliver-HasOwnPath :
    (acceptor : Acceptor) (answers : Answers) (e : Event) (l : Local)
    → HasOwnPath acceptor.media_config.media_save_path l.conn
    → HasOwnPath acceptor.media_config.media_save_path (deliver acceptor answers e l).1.conn
unfolding taken
deliver-HasOwnPath acceptor answers e l own =
    let directory = acceptor.media_config.media_save_path in
    let scope : Scope = record { own = l.id; directory = directory; before = l.files } in
    let (id, mine, untouched) =
      (handle-Kept scope acceptor answers refl e).at (record l { conn = taken e l.conn })
        (taken_kept scope e l (refl, own, λ p o. refl)) in
    subst (λ i. Mine i directory (deliver acceptor answers e l).1.out_file_path) (sym id) mine

path_filled :
    (d : Connection) (path : Text) → make_out_file_path d ≡ some path → is_empty path ≡ false
unfolding make_out_file_path
path_filled d path made =
    let named : file_ext (get_type d.media_prop) ≢ none =
      λ e. cc (rw (e, make_out_file_path) at made) in
    let (p, e, filled) = make_out_file_path-some d named in
    let same : p ≡ path = cc in subst (λ q. is_empty q ≡ false) same filled

other_path :
    (own : ℕ) (directory : Text) (d : Connection) (path : Text)
    → d.out_file_directory ≡ directory
    → d.id ≢ own
    → make_out_file_path d ≡ some path
    → (q : Text) → Mine own directory q
    → same_text q path ≡ false
other_path own directory d path same differ made q (inl empty) =
    ground (arith, same_text_iff q path, path_filled d path made)
other_path own directory d path same differ made q (inr (c, id, there, e)) =
    let apart : q ≢ path =
      make_out_file_path-ne c d q path (there ∙ sym same) (λ i. differ (sym (sym id ∙ i))) e made in
    ground (arith, same_text_iff q path)

-- Whatever completes on a connection, however its handler ends, and whatever the environment
-- answers: where its path is empty or was made for its identifier in the directory of the
-- configuration, so is its path afterwards, and the file of any other connection in that
-- directory, of another identifier, is as it was.
pub deliver-make_out_file_path :
    (acceptor : Acceptor) (answers : Answers) (e : Event) (l : Local) (d : Connection) (path : Text)
    → HasOwnPath acceptor.media_config.media_save_path l.conn
    → d.out_file_directory ≡ acceptor.media_config.media_save_path
    → d.id ≢ l.id
    → make_out_file_path d ≡ some path
    → HasOwnPath acceptor.media_config.media_save_path (deliver acceptor answers e l).1.conn
      × (contents (deliver acceptor answers e l).1.files path ≡ contents l.files path)
deliver-make_out_file_path acceptor answers e l d path own same differ made =
    let directory = acceptor.media_config.media_save_path in
    let scope : Scope = record { own = l.id; directory = directory; before = l.files } in
    let (_, _, untouched) =
      (handle-Kept scope acceptor answers refl e).at (record l { conn = taken e l.conn })
        (taken_kept scope e l (refl, own, λ p o. refl)) in
    (
      deliver-HasOwnPath acceptor answers e l own,
      untouched path (other_path l.id directory d path same differ made),
    )
