-- ===== src/Net/Events/Callbacks.antt =====
-- The callbacks of the acceptor and of the listener: what each makes of its connection.
use hyperion_server.Common.{
  ℕ, zero, suc, ◌<◌, ◌≡◌, ◌≢◌, true, false, not, none, some, List, [], ◌∷◌, ◌==◌, length, leb,
  arith,
}
use hyperion_server.Common.Exec.{returned}
use hyperion_server.Common.Exec.Triple.{
  Triple, Triple-pure, Triple-look, Triple-read, Triple-assert, Triple-then, Triple-bind,
  Triple-try, Triple-guarded, Triple-lift, Triple-frame, Triple-if, Triple-weaken,
}
use hyperion_server.Media.Prop.{
  MediaProp, MediaConfig, get_type, make_prop, type_of_byte, type_to_byte,
}
use hyperion_server.Media.Save.{Answers}
use hyperion_server.Net.Props.{ErrorCode}
use hyperion_server.Net.Greeting.{EvalOrder, left_first, right_first, parse_client_greeting}
use hyperion_server.Net.Greeting.RoundTrip.{parse_client_greeting-ne-aborted}
use hyperion_server.Net.Connection.{
  ConnectionStatus, Local, rank, file_ext, send_s_greeting, end_connection, consume,
}
use hyperion_server.Net.Acceptor.{
  Acceptor, callback_sent_greeting, callback_received_greeting, announce,
  callback_send_greeting_timeout, callback_receive_greeting_timeout,
}
use hyperion_server.Net.Listener.{begin_async_receive, receive_callback}
use hyperion_server.Net.Events.{on_connection_accepted}
use hyperion_server.Net.Events.Running.{Knows, Holds, Any, Quiet, Sent, Named, Pathed}
use hyperion_server.Net.Events.Fields.{Holds-know, Holds-prop}
use hyperion_server.Net.Events.Operations.{
  On, Triple-on_conn, Unprepared, end_connection-keeps, get_streambuf-keeps, consume-keeps,
  async_read-keeps, set_timer_expires_after-keeps, await_greeting-keeps, set_active-keeps,
}
use hyperion_server.Net.Events.OutFile.{
  begin_out_files-Holds, save_received-keeps, do_async_receive-keeps,
}

named_byte :
    (b : ℕ) → leb 2 b ≡ false → file_ext (type_of_byte (type_to_byte (type_of_byte b))) ≢ none
unfolding file_ext type_of_byte type_to_byte
named_byte zero h = λ e. cc
named_byte (suc zero) h = λ e. cc
named_byte (suc (suc b)) h = ground arith

-- What the parser returns, with either order of evaluation, has a file name.
parse_named :
    (order : EvalOrder) (config : MediaConfig) (ptr : List ℕ) (size : ℕ) (p : MediaProp)
    → parse_client_greeting order config ptr size ≡ returned p
    → file_ext (get_type p) ≢ none
unfolding parse_client_greeting get_type make_prop
parse_named left_first config [] size p e = ground arith
parse_named right_first config [] size p e = ground arith
parse_named left_first config (b ∷ ptr) size p e = ground (arith, named_byte b)
parse_named right_first config (b ∷ ptr) size p e = ground (arith, named_byte b)

module _ (answers : Answers) (own k : ℕ) where
  -- `End` in a handler, whatever is known of the connection.
  ended :
      (X : Knows) (E : Local → Type 0)
      → Triple
          (On (Holds answers own k false X))
          (end_connection answers)
          (λ _. On (Holds answers own k false Any))
          E
  ended X E =
      Triple-weaken (end_connection-keeps answers own k X false E) (λ l h. h)
        (λ u l h. Holds-know false l.conn tt h) (λ l h. h)

  pub callback_sent_greeting-Holds :
      (acceptor : Acceptor) (E : Local → Type 0)
      → Triple
          (On (Holds answers own k false Sent))
          (callback_sent_greeting acceptor answers)
          (λ _. On (Holds answers own k false Any))
          E
  unfolding callback_sent_greeting
  callback_sent_greeting-Holds acceptor E =
      Triple-try
        (Triple-then
          (Triple-weaken
            (async_read-keeps answers own k Sent false 6 (omega arith) (λ w s p m h. h.0))
            (λ l h. h) (λ u l h. h) (λ l h. h.0))
          (Triple-then (set_timer_expires_after-keeps answers own k Sent false _)
            (await_greeting-keeps answers own k _)))
        (λ e. ended Sent E)

module _ (answers : Answers) (own k : ℕ) where
  on_connection_accepted-Holds :
      (config : MediaConfig)
      → Triple
          (On (Holds answers own (suc k) false Named))
          (on_connection_accepted config answers)
          (λ _. On (Holds answers own (suc k) false Any))
          (On (Holds answers own (suc k) false Any))
  unfolding on_connection_accepted begin_async_receive
  on_connection_accepted-Holds config =
      Triple-then (begin_out_files-Holds answers own (suc k) config.media_save_path) (
        Triple-weaken (do_async_receive-keeps answers own k) (λ l h. h)
          (λ u l h. Holds-know false l.conn tt h) (λ l h. Holds-know false l.conn tt h.0))

  announce-Holds :
      (config : MediaConfig) (E : Local → Type 0)
      → Triple
          (On (Holds answers own (suc k) false Named))
          (announce answers (on_connection_accepted config answers))
          (λ _. On (Holds answers own (suc k) false Any))
          E
  unfolding announce
  announce-Holds config E =
      Triple-try
        (Triple-then (get_streambuf-keeps answers own k Named false _) (
          Triple-read λ size. Triple-then (Triple-assert _ (λ l p. empty size l p)) (
            Triple-weaken (on_connection_accepted-Holds config) (λ l p. p.0) (λ u l h. h)
              (λ l h. h))))
        (λ e. ended answers own (suc k) Any E)
    where
      empty :
          (size : ℕ) (l : Local)
          → Holds answers own (suc k) false Named l.conn × (size ≡ l.buffered)
          → (size == 0) ≡ true
      empty size l p = ground (arith, p.0.unbuffered, p.1)

  pub callback_received_greeting-Holds :
      (acceptor : Acceptor) (bytes : List ℕ) (E : Local → Type 0)
      → Triple
          (On (Holds answers own (suc k) false Quiet))
          (callback_received_greeting acceptor answers
            (on_connection_accepted acceptor.media_config answers)
            bytes)
          (λ _. On (Holds answers own (suc k) false Any))
          E
  unfolding callback_received_greeting
  callback_received_greeting-Holds acceptor bytes E =
      Triple-try
        (Triple-guarded {R = λ _. On (Holds answers own (suc k) false Any)}
          (Triple-then (get_streambuf-keeps answers own k Quiet false _) (
            Triple-bind
              (Triple-weaken
                (Triple-lift {P = On (Holds answers own (suc k) false Quiet)} _ (
                  parse_client_greeting-ne-aborted acceptor.order acceptor.media_config bytes
                    (length bytes) (omega arith)))
                (λ l h. h) (λ a l h. h) (λ l h. Holds-know {Y = Any} false l.conn tt h))
              (λ prop.
                Triple-then
                  (Triple-on_conn
                    (λ c.
                      Holds answers own (suc k) false Quiet c
                      × (parse_client_greeting acceptor.order acceptor.media_config bytes
                            (length bytes)
                          ≡ returned prop))
                    (Holds answers own (suc k) false Named)
                    (λ c h.
                      Holds-prop false prop c
                        (
                          h.0.known,
                          parse_named acceptor.order acceptor.media_config bytes (length bytes) prop
                              h.1,
                        )
                        h.0))
                  (Triple-then (set_active-keeps answers own (suc k) _)
                    (announce-Holds acceptor.media_config _)))))
          (λ _. consume-keeps answers own k Any false _ (length bytes))
          (consume-keeps answers own k Any false _ (length bytes)))
        (λ e. ended answers own (suc k) Any E)

-- The status is past the server greeting.
abbrev pub Greeted : Knows
Greeted w s p m = 0 < rank s

module _ (answers : Answers) (own k : ℕ) where
  pub callback_send_greeting_timeout-Holds :
      (X : Knows) (E : Local → Type 0)
      → Triple
          (On (Holds answers own k false X))
          (callback_send_greeting_timeout answers)
          (λ _. On (Holds answers own k false Any))
          E
  unfolding callback_send_greeting_timeout
  callback_send_greeting_timeout-Holds X E = Triple-look _ λ status.
      Triple-if _ (Triple-pure _ (λ l h. Holds-know false l.conn tt h)) (ended answers own k X E)

  pub callback_receive_greeting_timeout-Holds :
      (E : Local → Type 0)
      → Triple
          (On (Holds answers own k false Greeted))
          (callback_receive_greeting_timeout answers)
          (λ _. On (Holds answers own k false Any))
          E
  unfolding callback_receive_greeting_timeout
  callback_receive_greeting_timeout-Holds E = Triple-read λ status.
      Triple-then (Triple-assert _ (λ l p. past status l p)) (
        Triple-weaken
          (Triple-if _ (Triple-pure _ (λ l h. Holds-know false l.conn tt h))
            (ended answers own k Greeted E))
          (λ l p. p.0) (λ u l h. h) (λ l h. h))
    where
      past :
          (status : ConnectionStatus) (l : Local)
          → Holds answers own k false Greeted l.conn × (status ≡ l.status)
          → not (rank status == rank send_s_greeting) ≡ true
      past status l p = let pos : 0 < rank status = rw p.1 p.0.known in ground arith

module _ (answers : Answers) (own k : ℕ) where
  never-consume :
      {E : Local → Type 0} (bytes : List ℕ) → Triple (λ l. ⊥) (consume (length bytes)) (λ _. E) E
  never-consume bytes = record { at = λ l h. absurd h }

  pub receive_callback_error-Holds :
      (error : ErrorCode) (bytes : List ℕ) (E : Local → Type 0)
      → Triple
          (On (Holds answers own (suc k) false Pathed))
          (receive_callback answers (some error) bytes)
          (λ _. On (Holds answers own (suc k) false Any))
          E
  unfolding receive_callback
  receive_callback_error-Holds error bytes E =
      Triple-guarded (ended answers own (suc k) Pathed (λ l. ⊥))
        (λ _. consume-keeps answers own k Any false _ (length bytes)) (never-consume bytes)

  pub receive_callback-Holds :
      (bytes : List ℕ)
      → Triple
          (On (Holds answers own (suc k) false Pathed))
          (receive_callback answers none bytes)
          (λ _. On (Holds answers own (suc k) false Any))
          (Unprepared answers own (suc k) Pathed false)
  unfolding receive_callback
  receive_callback-Holds bytes =
      Triple-guarded
        (Triple-then (get_streambuf-keeps answers own k Pathed false _) (
          Triple-then
            (Triple-try (save_received-keeps answers own (suc k) bytes)
              (λ e. Triple-pure tt (λ l h. h)))
            (do_async_receive-keeps answers own k)))
        (λ _.
          Triple-weaken (consume-keeps answers own k Pathed false _ (length bytes)) (λ l h. h)
            (λ u l h. Holds-know false l.conn tt h) (λ l h. h))
        (Triple-weaken
          (Triple-frame (answers.prepare_throws ≡ true) (
            consume-keeps answers own k Pathed false (On (Holds answers own (suc k) false Pathed))
              (length bytes)))
          (λ l h. h) (λ u l h. h) (λ l h. h))
