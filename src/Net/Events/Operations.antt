-- ===== src/Net/Events/Operations.antt =====
-- What each operation of src/net/connection.cpp makes of a connection that a handler runs on.
use hyperion_server.Common.{
  ℕ, suc, ◌+◌, ◌≤◌, ◌<◌, ◌≡◌, Bool, true, false, not, ltb, ◌||◌, leb, ◌==◌, arith,
}
use hyperion_server.Common.Text.{Text, is_empty}
use hyperion_server.Common.Exec.{◌>>=◌, ◌>>◌}
use hyperion_server.Common.Exec.Triple.{
  Triple, Triple-pure, Triple-look, Triple-read, Triple-assert, Triple-may_throw, Triple-then,
  Triple-try, Triple-throws, Triple-if, Triple-weaken,
}
use hyperion_server.Media.Prop.{MediaProp}
use hyperion_server.Media.Save.{Answers}
use hyperion_server.Net.Connection.{
  Connection, ConnectionStatus, Local, rank, receive_buf_size, on_conn, close_socket,
  shutdown_and_close, end_connection, inc_ref_count, dec_ref_count, get_streambuf, prepare, consume,
  set_timer_expires_after, async_read, async_receive, async_wait, send_greeting, receive_greeting,
  set_status, awaiting_c_greeting, active, close_out_file,
}
use hyperion_server.Net.Events.Running.{Knows, Holds, Any, Sent, Named}
use hyperion_server.Net.Events.Fields.{
  Holds-stream, Holds-socket, Holds-expires, Holds-consume, Holds-inc, Holds-dec, Holds-read,
  Holds-receive, Holds-send_wait, Holds-receive_wait, Holds-leak, Holds-status, Holds-know,
}

-- A predicate of the connection, as one of the handler's state.
abbrev pub On : (Connection → Type 0) → Local → Type 0
On P l = P l.conn

pub Triple-on_conn :
    (P Q : Connection → Type 0) {E : Local → Type 0} {f : Connection → Connection}
    → ((c : Connection) → P c → Q (f c))
    → Triple (On P) (on_conn f) (λ _. On Q) E
unfolding on_conn
Triple-on_conn P Q h = record { at = λ l p. h l.conn p }

-- Where nothing throws, any states can be named for it.
abbrev Never : Local → Type 0
Never l = ⊥

module _ (answers : Answers) (own k : ℕ) (X : Knows) (b : Bool) where
  shutdown_and_close-keeps :
      Triple
        (On (Holds answers own k b X))
        (shutdown_and_close answers)
        (λ _. On (Holds answers own k false X))
        (On (Holds answers own k false X))
  unfolding shutdown_and_close close_out_file close_socket
  shutdown_and_close-keeps =
      Triple-then
        (Triple-on_conn (Holds answers own k b X) (Holds answers own k false X)
          (λ c h. Holds-stream b false c h))
        (Triple-look _ (λ ended.
          Triple-then (Triple-if ended (Triple-pure _ (λ s p. p)) (Triple-may_throw _ _)) (
            Triple-then
              (Triple-on_conn (Holds answers own k false X) (Holds answers own k false X)
                (λ c h. Holds-socket false false c h))
              (Triple-may_throw _ _))))

  pub end_connection-keeps :
      (E : Local → Type 0)
      → Triple
          (On (Holds answers own k b X))
          (end_connection answers)
          (λ _. On (Holds answers own k false X))
          E
  unfolding end_connection
  end_connection-keeps E = Triple-try shutdown_and_close-keeps (λ e. Triple-pure _ (λ s p. p))

module _ (answers : Answers) (own k : ℕ) (X : Knows) (b : Bool) (E : Local → Type 0) where
  pub inc_ref_count-Holds :
      Triple
        (On (Holds answers own k b X))
        inc_ref_count
        (λ _. On (Holds answers own (suc k) b X))
        E
  unfolding inc_ref_count
  inc_ref_count-Holds =
      Triple-on_conn (Holds answers own k b X) (Holds answers own (suc k) b X)
        (λ c h. Holds-inc b c h)

  referenced :
      (c : Connection) (n : ℕ)
      → Holds answers own (suc k) b X c
      → n ≡ c.ref_count
      → not (n == 0) ≡ true
  referenced c n h e = let p : 0 < n = omega (arith, h.counted) in ground arith

  pub get_streambuf-keeps :
      Triple
        (On (Holds answers own (suc k) b X))
        get_streambuf
        (λ _. On (Holds answers own (suc k) b X))
        E
  unfolding get_streambuf
  get_streambuf-keeps = Triple-read (λ n.
      Triple-weaken {E = E} {E' = E} (Triple-assert _ (λ l p. referenced l.conn n p.0 p.1))
        (λ s p. p) (λ a s p. p.0) (λ s p. p))

  pub dec_ref_count-Holds :
      Triple
        (On (Holds answers own (suc k) b X))
        dec_ref_count
        (λ _. On (Holds answers own k b X))
        E
  unfolding dec_ref_count
  dec_ref_count-Holds = Triple-read (λ n.
      Triple-then (Triple-assert _ (λ l p. referenced l.conn n p.0 p.1)) (
        Triple-on_conn (λ c. Holds answers own (suc k) b X c × (n ≡ c.ref_count))
          (Holds answers own k b X) (λ c h. Holds-dec b c h.0)))

  pub consume-keeps :
      (n : ℕ)
      → Triple
          (On (Holds answers own (suc k) b X))
          (consume n)
          (λ _. On (Holds answers own (suc k) b X))
          E
  unfolding consume
  consume-keeps n = Triple-then get_streambuf-keeps (
      Triple-on_conn (Holds answers own (suc k) b X) (Holds answers own (suc k) b X)
        (λ c h. Holds-consume b n c h))

module _ (answers : Answers) (own k : ℕ) (X : Knows) (b : Bool) where
  too_big :
      (c : Connection) (size n : ℕ)
      → n ≤ receive_buf_size
      → Holds answers own (suc k) b X c
      → size ≡ c.buffered
      → (ltb receive_buf_size (size + n) || answers.prepare_throws) ≡ true
      → answers.prepare_throws ≡ true
  too_big c size n le h e t =
      let z : size + n ≤ receive_buf_size = omega (arith, h.unbuffered) in ground arith

  -- The connection after `prepare` has thrown.
  abbrev pub Unprepared : Local → Type 0
  Unprepared l = Holds answers own k b X l.conn × (answers.prepare_throws ≡ true)

  pub prepare-keeps :
      (n : ℕ)
      → n ≤ receive_buf_size
      → Triple
          (On (Holds answers own (suc k) b X))
          (prepare answers n)
          (λ _. On (Holds answers own (suc k) b X))
          Unprepared
  unfolding prepare
  prepare-keeps n le = Triple-read λ size.
      Triple-weaken {E = Unprepared}
        {Q = λ _ l. Holds answers own (suc k) b X l.conn × (size ≡ l.buffered)}
        (Triple-throws _ _ (λ l p t.
          let full = too_big l.conn size n le p.0 p.1 t in (Holds-leak b l.conn full p.0, full)))
        (λ s p. p) (λ a s p. p.0) (λ s p. p)

  -- If `prepare` throws, the reference that was taken for the operation stays.
  pub async_read-keeps :
      (n : ℕ)
      → n ≤ receive_buf_size
      → ((w : ℕ) (s : ConnectionStatus) (p : Text) (m : MediaProp) → X w s p m → w ≡ 0)
      → Triple
          (On (Holds answers own k b X))
          (async_read answers n)
          (λ _. On (Holds answers own k b X))
          Unprepared
  unfolding async_read
  async_read-keeps n le quiet = Triple-then (inc_ref_count-Holds answers own k X b _) (
      Triple-then (prepare-keeps n le) (
        Triple-on_conn (Holds answers own (suc k) b X) (Holds answers own k b X)
          (λ c h. Holds-read b c (quiet _ _ _ _ h.known) h)))

  pub async_receive-keeps :
      (n : ℕ)
      → n ≤ receive_buf_size
      → ((w : ℕ) (s : ConnectionStatus) (p : Text) (m : MediaProp) → X w s p m → is_empty p ≡ false)
      → Triple
          (On (Holds answers own k b X))
          (async_receive answers n)
          (λ _. On (Holds answers own k b X))
          Unprepared
  unfolding async_receive
  async_receive-keeps n le pathed = Triple-then (inc_ref_count-Holds answers own k X b _) (
      Triple-then (prepare-keeps n le) (
        Triple-on_conn (Holds answers own (suc k) b X) (Holds answers own k b X)
          (λ c h. Holds-receive b c (pathed _ _ _ _ h.known) h)))

  pub set_timer_expires_after-keeps :
      (time : ℕ)
      → Triple
          (On (Holds answers own k b X))
          (set_timer_expires_after answers time)
          (λ _. On (Holds answers own k b X))
          (On (Holds answers own k b X))
  unfolding set_timer_expires_after
  set_timer_expires_after-keeps time = Triple-then (Triple-may_throw _ _) (
      Triple-on_conn (Holds answers own k b X) (Holds answers own k b X)
        (λ c h. Holds-expires b time c h))

  pub async_wait_send-keeps :
      (E : Local → Type 0)
      → Triple
          (On (Holds answers own k b X))
          (async_wait send_greeting)
          (λ _. On (Holds answers own k b X))
          E
  unfolding async_wait
  async_wait_send-keeps E = Triple-then (inc_ref_count-Holds answers own k X b E) (
      Triple-on_conn (Holds answers own (suc k) b X) (Holds answers own k b X)
        (λ c h. Holds-send_wait b c h))

module _ (answers : Answers) (own k : ℕ) (E : Local → Type 0) where
  -- The two last steps of `CallbackSentGreeting`; between them the order of the statuses is broken.
  pub await_greeting-keeps :
      Triple
        (On (Holds answers own k false Sent))
        (async_wait receive_greeting >> set_status awaiting_c_greeting)
        (λ _. On (Holds answers own k false Any))
        E
  unfolding async_wait inc_ref_count set_status on_conn ◌>>=◌
  await_greeting-keeps = record {
    at = λ l h.
        let low : leb (rank l.status) 1 ≡ true = ground (arith, h.known.1) in
        let sent =
          Holds-status false awaiting_c_greeting l.conn (omega arith) h.known.0 tt
            (Holds-know {Y = Any} false l.conn tt h) in
        rw low (Holds-receive_wait false _ (omega arith) (Holds-inc false _ sent));
  }

  pub set_active-keeps :
      Triple
        (On (Holds answers own k false Named))
        (set_status active)
        (λ _. On (Holds answers own k false Named))
        E
  unfolding set_status
  set_active-keeps = Triple-read λ now. Triple-then (Triple-assert _ (λ l p. top now)) (
      Triple-on_conn (λ c. Holds answers own k false Named c × (now ≡ c.status))
        (Holds answers own k false Named)
        (λ c h. Holds-status false active c (omega arith) h.0.known.0 h.0.known h.0))
    where
      top : (now : ConnectionStatus) → leb (rank now) 2 ≡ true
      top now = ground arith
