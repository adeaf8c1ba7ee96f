-- ===== src/Net/Events/Streaming.antt =====
-- The bytes of a client from one receive to the next.
use mathlib.Core.Path.{subst}
use mathlib.Core.List.{append_assoc, append-nil}
use hyperion_server.Common.{
  All, ℕ, ◌+◌, ◌-◌, ◌<◌, ◌≡◌, refl, sym, ap, ◌∙◌, true, false, none, some, List, [], ◌∷◌, ◌++◌,
  ◌||◌, ◌==◌, length, arith,
}
use hyperion_server.Common.Text.{is_empty, Text, same_text}
use hyperion_server.Common.Exec.{returned, guarded, try_catch, ◌>>=◌, Outcome, resume}
use hyperion_server.Media.Save.{Answers, Files, contents}
use hyperion_server.Net.Connection.{
  Connection, Local, on_conn, get_streambuf, consume, inc_ref_count, dec_ref_count, prepare,
  async_receive, receive_completed,
}
use hyperion_server.Net.Acceptor.{Acceptor}
use hyperion_server.Net.Listener.{receive_callback, do_async_receive, save_received, bytes_of}
use hyperion_server.Net.Listener.Saving.{save_received-HasSaved}
use hyperion_server.Net.Events.{received, handle, taken, is_pending}
use hyperion_server.Net.Events.Valid.{IsValid}
use hyperion_server.Net.Events.Handlers.{deliver}

-- A receive is pending, and the file it goes to has a path and is closed.
pub record IsStreaming (c : Connection) : Type 0 where
  pub pathed : is_empty c.out_file_path ≡ false
  pub closed : c.out_file_open ≡ false
  pub unbuffered : c.buffered ≡ 0
  pub referenced : 0 < c.ref_count
  pub receiving : 0 < c.receives

pub valid-IsStreaming : (c : Connection) → IsValid c → 0 < c.receives → IsStreaming c
valid-IsStreaming c v armed = record {
  pathed = v.saving armed;
  closed = v.stream;
  unbuffered = v.unbuffered;
  referenced = omega (arith, v.counted, armed);
  receiving = armed;
}

-- Where the connection stands while its file is written.
abbrev receiving_conn : Connection → Connection
receiving_conn c = record c { receives = c.receives - 1; received_eof = c.received_eof || false }

-- The handler from the write on.
abbrev saved : Answers → ℕ → Local → Outcome (Unit {0}) × Local
saved answers n = guarded (consume n) (do_async_receive answers) >>= (λ u. dec_ref_count)

received-saved :
    (acceptor : Acceptor) (answers : Answers) (bytes : List ℕ) (l : Local)
    → 0 < l.ref_count
    → let start : Local = record l { conn = receiving_conn l.conn } in
      (save_received answers bytes start).0 ≡ returned tt
      → deliver acceptor answers (received none bytes) l
        ≡ saved answers (length bytes) (save_received answers bytes start).1
unfolding handle taken receive_completed receive_callback get_streambuf on_conn guarded try_catch
    ◌>>=◌
received-saved acceptor answers bytes l r e =
    let n : (l.ref_count == 0) ≡ false = ground arith in rw (n, e) refl

-- What is left to do takes a reference for the next receive, and gives back the one of this receive.
saved-same :
    (answers : Answers) (n : ℕ) (c : Connection) (files : Files)
    → answers.prepare_throws ≡ false
    → IsStreaming c
    → saved answers n (record { conn = receiving_conn c; files = files })
      ≡ (returned tt, record { conn = c; files = files })
unfolding do_async_receive async_receive prepare get_streambuf inc_ref_count dec_ref_count consume
    on_conn guarded ◌>>=◌
saved-same answers n c files p h =
    let a : (c.ref_count == 0) ≡ false = ground (arith, h.referenced) in
    let b : (c.ref_count + 1 == 0) ≡ false = ground arith in
    let ended : (c.received_eof || false) ≡ c.received_eof = ground arith in
    let counted : (c.ref_count + 1 - 1) ≡ c.ref_count = omega arith in
    let armed : (c.receives - 1 + 1) ≡ c.receives = omega (arith, h.receiving) in
    let empty : (0 - n) ≡ 0 = omega arith in
    rw (a, h.unbuffered, p) (rw (consume, b) (rw (ended, b) (rw (counted, armed, empty) refl)))

-- One receive: the file has the bytes behind those it had, and the connection is the same again.
pub received-once :
    (acceptor : Acceptor) (answers : Answers) (bytes : List ℕ) (l : Local)
    → answers.append_opens ≡ true
    → answers.prepare_throws ≡ false
    → IsStreaming l.conn
    → let r = deliver acceptor answers (received none bytes) l in
      (r.0 ≡ returned tt)
      × (r.1.conn ≡ l.conn)
      × (contents r.1.files l.out_file_path
          ≡ some (bytes_of (contents l.files l.out_file_path) ++ bytes))
      × ((path : Text)
          → same_text l.out_file_path path ≡ false
          → contents r.1.files path ≡ contents l.files path)
received-once acceptor answers bytes l opens ready h =
    let start : Local = record l { conn = receiving_conn l.conn } in
    let (ended, s) = save_received-HasSaved answers bytes start opens h.pathed h.closed in
    let files = (save_received answers bytes start).1.files in
    let run =
      received-saved acceptor answers bytes l h.referenced ended
      ∙ ap (λ c. saved answers (length bytes) (record { conn = c; files = files })) s.kept
      ∙ saved-same answers (length bytes) l.conn files ready h in
    (
      ap (λ r. r.0) run,
      ap (λ r. r.1.conn) run,
      ap (λ r. contents r.1.files l.out_file_path) run ∙ s.appended,
      λ path n. ap (λ r. contents r.1.files path) run ∙ s.others path n,
    )

-- The receives of one connection, one after the other, with the system's answers to each.
abbrev pub deliver_all : Acceptor → List (Answers × List ℕ) → Local → Outcome (Unit {0}) × Local
deliver_all acceptor [] l = (returned tt, l)
deliver_all acceptor ((answers, bytes) ∷ receives) l =
    let r = deliver acceptor answers (received none bytes) l in
    resume r.0 (λ u. deliver_all acceptor receives) r.1

abbrev pub all_bytes : List (Answers × List ℕ) → List ℕ
all_bytes [] = []
all_bytes ((answers, bytes) ∷ receives) = bytes ++ all_bytes receives

-- The file opens, and the next receive can be prepared.
abbrev pub Serves : Answers × List ℕ → Type 0
Serves r = (r.0.append_opens ≡ true) × (r.0.prepare_throws ≡ false)

streamed :
    (acceptor : Acceptor) (receives : List (Answers × List ℕ)) (l : Local)
    → All Serves receives
    → IsStreaming l.conn
    → let r = deliver_all acceptor receives l in
      (r.0 ≡ returned tt)
      × (r.1.conn ≡ l.conn)
      × (bytes_of (contents r.1.files l.out_file_path)
          ≡ bytes_of (contents l.files l.out_file_path) ++ all_bytes receives)
      × ((path : Text)
          → same_text l.out_file_path path ≡ false
          → contents r.1.files path ≡ contents l.files path)
streamed acceptor [] l s h = (refl, refl, sym (append-nil _), λ path n. refl)
streamed acceptor ((answers, bytes) ∷ receives) l s h =
    let (ended, same, appended, others) = received-once acceptor answers bytes l s.0.0 s.0.1 h in
    let l' = (deliver acceptor answers (received none bytes) l).1 in
    let (e, c, b, o) = streamed acceptor receives l' s.1 (subst IsStreaming (sym same) h) in
    let end' = (deliver_all acceptor receives l').1.files in
    let place = ap (λ (k : Connection). k.out_file_path) same in
    let later =
      subst (λ p. bytes_of (contents end' p) ≡ bytes_of (contents l'.files p) ++ all_bytes receives)
        place b in
    rw ended (
      e,
      c ∙ same,
      later
          ∙ ap (λ o. bytes_of o ++ all_bytes receives) appended
          ∙ append_assoc (bytes_of (contents l.files l.out_file_path)) bytes (all_bytes receives),
      λ path n. o path (ap (λ p. same_text p path) place ∙ n) ∙ others path n,
    )

-- To its client a valid connection whose receive is pending is a file that grows: where the file
-- opens and each next receive can be prepared, any number of receives all return, and leave in the
-- connection's file what it held and then all the bytes in the order they came, however they were
-- cut into receives. The connection is as before, its next receive pending, and no other file is
-- touched.
pub deliver_all-append :
    (acceptor : Acceptor) (receives : List (Answers × List ℕ)) (l : Local)
    → All Serves receives
    → IsValid l.conn
    → is_pending (received none []) l.conn ≡ true
    → let r = deliver_all acceptor receives l in
      (r.0 ≡ returned tt)
      × (r.1.conn ≡ l.conn)
      × (bytes_of (contents r.1.files l.out_file_path)
          ≡ bytes_of (contents l.files l.out_file_path) ++ all_bytes receives)
      × ((path : Text)
          → same_text l.out_file_path path ≡ false
          → contents r.1.files path ≡ contents l.files path)
deliver_all-append acceptor receives l s v p =
    streamed acceptor receives l s (valid-IsStreaming l.conn v (ground arith))
