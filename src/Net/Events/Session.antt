-- ===== src/Net/Events/Session.antt =====
-- A client from its greeting to its last byte.
use hyperion_server.Common.{
  ℕ, ◌+◌, ◌-◌, ◌^◌, ◌<◌, ◌≡◌, ◌≢◌, refl, ap, ◌∙◌, true, false, none, some, List, [], ◌++◌, length,
  All, ◌⊎◌, inl, inr, arith, ◌==◌,
}
use hyperion_server.Common.Text.{Text, same_text, same_text_iff}
use hyperion_server.Common.Exec.{returned, ◌>>=◌, Outcome}
use hyperion_server.Media.Prop.{
  MediaProp, MediaType, image, video, get_type, make_prop, type_to_byte, type_of_byte,
}
use hyperion_server.Media.Save.{Answers, contents, put_file}
use hyperion_server.Net.Greeting.{parse_client_greeting, left_first}
use hyperion_server.Net.Greeting.Accepts.{Accepts, make_client_greeting}
use hyperion_server.Net.Greeting.RoundTrip.{parse-make_client_greeting}
use hyperion_server.Net.Connection.{
  Connection, Local, active, save_name, file_ext, on_conn, dec_ref_count, read_completed,
}
use hyperion_server.Net.Acceptor.{Acceptor}
use hyperion_server.Net.Acceptor.Accepting.{Ready, announced, callback_received_greeting-announced}
use hyperion_server.Net.Listener.{bytes_of}
use hyperion_server.Net.Events.{read, handle, taken, is_pending}
use hyperion_server.Net.Events.Valid.{IsValid}
use hyperion_server.Net.Events.Handlers.{deliver}
use hyperion_server.Net.Events.Safety.{deliver-IsValid}
use hyperion_server.Net.Events.Streaming.{deliver_all, all_bytes, Serves, deliver_all-append}

-- The file of a client with the given extension.
abbrev pub file_of : Acceptor → Connection → Text → Text
file_of acceptor c ext =
    let directory = acceptor.media_config.media_save_path in
    directory ++ save_name directory c.id ext

-- The connection and the disk once the handler of an accepted greeting has returned.
abbrev joined : Acceptor → MediaProp → Text → Local → Local
joined acceptor p ext l =
    let t =
      announced acceptor.media_config.media_save_path (file_of acceptor l.conn ext) (record l {
        conn = record l.conn { reads = l.reads - 1; media_prop = p; status = active };
      }) in
    record t { conn = record t.conn { ref_count = l.ref_count } }

read-joined :
    (acceptor : Acceptor) (answers : Answers) (bytes : List ℕ) (l : Local) (p : MediaProp)
    → (ext : Text) → Ready answers
    → l.buffered ≡ 0
    → l.ref_count ≢ 0
    → parse_client_greeting acceptor.order acceptor.media_config bytes (length bytes) ≡ returned p
    → file_ext (get_type p) ≡ some ext
    → deliver acceptor answers (read none bytes) l ≡ (returned tt, joined acceptor p ext l)
unfolding handle taken read_completed dec_ref_count on_conn ◌>>=◌
read-joined acceptor answers bytes l p ext ready b c parsed named =
    let start : Local = record l { conn = record l.conn { reads = l.reads - 1 } } in
    let run =
      callback_received_greeting-announced acceptor answers bytes start p ext ready b c parsed
        named in
    let held : (l.ref_count + 1 == 0) ≡ false = ground arith in
    let given : l.ref_count + 1 - 1 ≡ l.ref_count = omega arith in rw run (rw held (rw given refl))

-- What a session leaves: both the greeting and the stream are handled with no exception, the
-- connection is active with the properties of the greeting, and its file holds the bytes.
abbrev pub HasStored : MediaProp → Text → List ℕ → Outcome (Unit {0}) × Local → Type 0
HasStored p path bytes r =
    (r.0 ≡ returned tt)
    × (r.1.status ≡ active)
    × (r.1.media_prop ≡ p)
    × (bytes_of (contents r.1.files path) ≡ bytes)

joined-HasStored :
    (acceptor : Acceptor) (receives : List (Answers × List ℕ)) (l : Local) (p : MediaProp)
    (ext : Text)
    → All Serves receives
    → IsValid (joined acceptor p ext l).conn
    → HasStored p
        (file_of acceptor l.conn ext)
        (all_bytes receives)
        (deliver_all acceptor receives (joined acceptor p ext l))
unfolding contents put_file
joined-HasStored acceptor receives l p ext s v =
    let path = file_of acceptor l.conn ext in
    let (ended, same, stored, others) =
      deliver_all-append acceptor receives (joined acceptor p ext l) s v (ground arith) in
    let fresh : same_text path path ≡ true = (same_text_iff path path).1 refl in
    (
      ended,
      ap (λ (c : Connection). c.status) same,
      ap (λ (c : Connection). c.media_prop) same,
      rw fresh at stored,
    )

byte_type : (t : MediaType) → (t ≡ image) ⊎ (t ≡ video) → type_of_byte (type_to_byte t) ≡ t
unfolding type_of_byte type_to_byte
byte_type t (inl e) = rw e refl
byte_type t (inr e) = rw e refl

prop_ext :
    (t : MediaType) (w h fps : ℕ) (ext : Text)
    → (t ≡ image) ⊎ (t ≡ video)
    → file_ext t ≡ some ext
    → file_ext (get_type (make_prop t w h fps)) ≡ some ext
unfolding get_type make_prop
prop_ext t w h fps ext n e = ap file_ext (byte_type t n) ∙ e

parsed_alone :
    (acceptor : Acceptor) (t : MediaType) (w h fps : ℕ)
    → acceptor.order ≡ left_first
    → Accepts acceptor.media_config t w h fps
    → w < 2 ^ 16
    → h < 2 ^ 16
    → let greeting = make_client_greeting t w h fps in
      parse_client_greeting acceptor.order acceptor.media_config greeting (length greeting)
      ≡ returned (make_prop t w h fps)
unfolding make_client_greeting
parsed_alone acceptor t w h fps o a hw hh =
    let parses =
      parse-make_client_greeting acceptor.media_config t w h fps [] (byte_type t a.named) hw hh in
    rw o (parses.1 a)

-- With the left operand of `|` evaluated first: on a valid connection whose greeting is being
-- read, where a client writes a greeting that the server accepts, with dimensions of 16 bits,
-- where the directory and the file can be made, the file opens at each receive, and each next
-- receive can be prepared, the greeting and the receives are handled with no exception, the
-- connection is active with the properties of the greeting, and the file of its identifier and its
-- type holds all bytes received, in their order, and nothing else.
pub make_client_greeting-HasStored :
    (acceptor : Acceptor) (answers : Answers) (receives : List (Answers × List ℕ)) (l : Local)
    → (t : MediaType) (w h fps : ℕ) (ext : Text) → acceptor.order ≡ left_first
    → IsValid l.conn
    → is_pending (read none (make_client_greeting t w h fps)) l.conn ≡ true
    → Accepts acceptor.media_config t w h fps
    → w < 2 ^ 16
    → h < 2 ^ 16
    → file_ext t ≡ some ext
    → Ready answers
    → All Serves receives
    → let greeted = deliver acceptor answers (read none (make_client_greeting t w h fps)) l in
      (greeted.0 ≡ returned tt)
      × HasStored
          (make_prop t w h fps)
          (file_of acceptor l.conn ext)
          (all_bytes receives)
          (deliver_all acceptor receives greeted.1)
make_client_greeting-HasStored acceptor answers receives l t w h fps ext o v p a hw hh named ready
      s =
    let greeting = make_client_greeting t w h fps in
    let reading : 0 < l.reads = ground arith in
    let run =
      read-joined acceptor answers greeting l (make_prop t w h fps) ext ready v.unbuffered
        (λ e. omega (arith, v.counted)) (parsed_alone acceptor t w h fps o a hw hh)
        (prop_ext t w h fps ext a.named named) in
    let valid = (deliver-IsValid acceptor answers (read none greeting) l v p).1 in
    rw run
      (refl, joined-HasStored acceptor receives l (make_prop t w h fps) ext s (rw run at valid))
