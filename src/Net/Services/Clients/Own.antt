-- ===== src/Net/Services/Clients/Own.antt =====
-- A handler of the client's own connection.
use mathlib.Core.List.{append-nil}
use hyperion_server.Common.{
  ℕ, ◌<◌, ◌≡◌, refl, sym, ap, ◌∙◌, true, false, Option, none, some, List, [], ◌++◌, ◌==◌,
  Bool-cases, inl, inr, arith,
}
use hyperion_server.Common.Exec.{◌>>=◌}
use hyperion_server.Media.Save.{Files, Answers, contents}
use hyperion_server.Net.Props.{ErrorCode}
use hyperion_server.Net.Connection.{
  Connection, Local, active, wait_completed, dec_ref_count, on_conn,
}
use hyperion_server.Net.Acceptor.{
  Acceptor, callback_send_greeting_timeout, callback_receive_greeting_timeout,
}
use hyperion_server.Net.Listener.{bytes_of}
use hyperion_server.Net.Events.{
  Event, written, read, received, send_waited, receive_waited, handle, taken, is_pending,
}
use hyperion_server.Net.Events.Valid.{IsValid}
use hyperion_server.Net.Events.Handlers.{deliver}
use hyperion_server.Net.Events.Counting.{Few}
use hyperion_server.Net.Services.Clients.{brings, is_served}
use hyperion_server.Net.Events.Streaming.{received-once, valid-IsStreaming}

-- The connection is still open and receives into its file, which has those bytes more.
pub record Grows (c : Connection) (files : Files) (bytes : List ℕ) (l : Local) : Type 0 where
  pub own_id : l.id ≡ c.id
  pub stores : l.out_file_path ≡ c.out_file_path
  pub accepted : l.status ≡ active
  pub connected : l.socket_open ≡ true
  pub receiving : 0 < l.receives
  pub file :
      bytes_of (contents l.files c.out_file_path)
      ≡ bytes_of (contents files c.out_file_path) ++ bytes

-- What a wait leaves: the reference that it held is given back.
waited-Grows :
    (c d : Connection) (files : Files)
    → d.id ≡ c.id
    → d.out_file_path ≡ c.out_file_path
    → d.status ≡ active
    → d.socket_open ≡ true
    → 0 < d.receives
    → Grows c files [] (dec_ref_count (record { conn = d; files = files })).1
unfolding dec_ref_count on_conn ◌>>=◌
waited-Grows c d files i p s o r = elim (Bool-cases (d.ref_count == 0)) [
  | inl gone ↦ rw gone (record {
    own_id = i;
    stores = p;
    accepted = s;
    connected = o;
    receiving = r;
    file = sym (append-nil _);
  })
  | inr left ↦ rw left (record {
    own_id = i;
    stores = p;
    accepted = s;
    connected = o;
    receiving = r;
    file = sym (append-nil _);
  })
]

abbrev own : Connection → Files → Local
own c files = record { conn = c; files = files }

module _ (acceptor : Acceptor) (answers : Answers) (c : Connection) (files : Files)
    (active_conn : c.status ≡ active) (open_socket : c.socket_open ≡ true)
    (armed : 0 < c.receives) where
  send_waited-Grows :
      (e : Option ErrorCode)
      → Grows c files [] (deliver acceptor answers (send_waited e) (own c files)).1
  unfolding handle taken wait_completed callback_send_greeting_timeout ◌>>=◌
  send_waited-Grows none = rw active_conn (waited-Grows _ _ files refl refl refl open_socket armed)
  send_waited-Grows (some e) = waited-Grows c _ files refl refl active_conn open_socket armed

  receive_waited-Grows :
      (e : Option ErrorCode)
      → Grows c files [] (deliver acceptor answers (receive_waited e) (own c files)).1
  unfolding handle taken wait_completed callback_receive_greeting_timeout ◌>>=◌
  receive_waited-Grows none =
      rw active_conn (waited-Grows _ _ files refl refl refl open_socket armed)
  receive_waited-Grows (some e) = waited-Grows c _ files refl refl active_conn open_socket armed

  received-Grows :
      (bytes : List ℕ)
      → IsValid c
      → answers.append_opens ≡ true
      → answers.prepare_throws ≡ false
      → Grows c files bytes (deliver acceptor answers (received none bytes) (own c files)).1
  received-Grows bytes v opens ready =
      let (ended, same, appended, others) =
        received-once acceptor answers bytes (own c files) opens ready
          (valid-IsStreaming c v armed) in
      record {
        own_id = ap (λ (d : Connection). d.id) same;
        stores = ap (λ (d : Connection). d.out_file_path) same;
        accepted = ap (λ (d : Connection). d.status) same ∙ active_conn;
        connected = ap (λ (d : Connection). d.socket_open) same ∙ open_socket;
        receiving = rw same armed;
        file = ap bytes_of appended;
      }

  -- Only its receive and its timeouts are pending.
  pub deliver-Grows :
      (e : Event)
      → IsValid c
      → Few 1 1 1 c
      → is_pending e c ≡ true
      → is_served answers e ≡ true
      → Grows c files (brings e) (deliver acceptor answers e (own c files)).1
  deliver-Grows (written error) v few p s = absurd (ground (arith, few.0, armed, p))
  deliver-Grows (read error bytes) v few p s = absurd (ground (arith, few.0, armed, p))
  deliver-Grows (received none bytes) v few p s =
      let both : (answers.append_opens ≡ true) × (answers.prepare_throws ≡ false) =
        ground (arith, s) in
      received-Grows bytes v both.0 both.1
  deliver-Grows (received (some error) bytes) v few p s = cc
  deliver-Grows (send_waited error) v few p s = send_waited-Grows error
  deliver-Grows (receive_waited error) v few p s = receive_waited-Grows error
