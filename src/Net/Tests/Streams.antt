-- ===== src/Net/Tests/Streams.antt =====
-- A client that sends in three pieces, and the status of a connection.
use hyperion_server.Common.{
  ℕ, ◌≡◌, ◌≤◌, refl, false, none, some, List, [], ◌∷◌, ◌++◌, inl, inr, arith,
}
use mathlib.Core.List.{mem-cons_self}
use hyperion_server.Common.Text.{Text, codes, same_text}
use hyperion_server.Common.Exec.{returned}
use hyperion_server.Media.Save.{Answers, contents}
use hyperion_server.Media.Prop.{image, image_ext, make_prop}
use hyperion_server.Net.Greeting.Accepts.{Accepts, make_client_greeting}
use hyperion_server.Net.Acceptor.Accepting.{Ready}
use hyperion_server.Net.Events.Valid.{IsValid}
use hyperion_server.Net.Events.Session
use hyperion_server.Net.Events.Sealed.Apart
use hyperion_server.Net.Connection.{Connection, rank, awaiting_c_greeting, file_ext}
use hyperion_server.Net.Listener.{bytes_of}
use hyperion_server.Net.Events.{written, read, received}
use hyperion_server.Net.Events.Handlers.{deliver}
use hyperion_server.Net.Events.Streaming
use hyperion_server.Net.Events.Vetted
use hyperion_server.Net.Tests.Stored.{storing, film, film_path, picture_path}
use hyperion_server.Net.Tests.{acceptor, fine, client, sender, sender-IsValid, at, config}

-- An empty receive is between them.
abbrev pieces : List (Answers × List ℕ)
pieces = (fine, 3 ∷ 4 ∷ []) ∷ (fine, []) ∷ (fine, 5 ∷ []) ∷ []

deliver_all-append_example :
    let r = Streaming.deliver_all acceptor pieces storing in
    (r.0 ≡ returned tt)
    × (r.1.conn ≡ storing.conn)
    × (bytes_of (contents r.1.files storing.out_file_path)
        ≡ bytes_of (contents storing.files storing.out_file_path) ++ 3 ∷ 4 ∷ 5 ∷ [])
    × ((path : Text)
        → same_text storing.out_file_path path ≡ false
        → contents r.1.files path ≡ contents storing.files path)
deliver_all-append_example =
    Streaming.deliver_all-append acceptor pieces storing (ground arith) sender-IsValid refl

rank-le-deliver_example :
    rank client.status ≤ rank (deliver acceptor fine (written none) (at client)).1.status
rank-le-deliver_example = Vetted.rank-le-deliver acceptor fine (written none) (at client)

image_png : file_ext image ≡ some image_ext
unfolding file_ext
image_png = refl

-- The greeting of the client is being read.
abbrev waiting : Connection
waiting = record client {
  status = awaiting_c_greeting;
  ref_count = 1;
  writes = 0;
  reads = 1;
  send_waits = 0;
}

waiting-IsValid : IsValid waiting
waiting-IsValid = record {
  counted = omega arith;
  unbuffered = refl;
  stream = refl;
  one_write = omega arith;
  writing = λ p. absurd (omega arith);
  reading = λ p. refl;
  waiting = λ p. absurd (omega arith);
  saving = λ p. absurd (omega arith);
}

image-Accepts : Accepts config image 640 480 0
image-Accepts = record { named = inl refl; sized = inr mem-cons_self; paced = λ e. absurd (cc) }

fine-Ready : Ready fine
fine-Ready = record { creates = refl; makes_directory = refl; prepares = refl }

make_client_greeting-HasStored_example :
    let greeted =
      deliver acceptor fine (read none (make_client_greeting image 640 480 0)) (at waiting) in
    (greeted.0 ≡ returned tt)
    × Session.HasStored
        (make_prop image 640 480 0)
        (Session.file_of acceptor waiting image_ext)
        (3 ∷ 4 ∷ 5 ∷ [])
        (Streaming.deliver_all acceptor pieces greeted.1)
make_client_greeting-HasStored_example =
    Session.make_client_greeting-HasStored acceptor fine pieces (at waiting) image 640 480 0
      image_ext refl waiting-IsValid refl image-Accepts (omega arith) (omega arith) image_png
      fine-Ready (ground arith)

-- The other client sends a film to the same directory.
film_kept :
    Apart.HasOwnPath (codes "out") (deliver acceptor fine (received none (3 ∷ [])) storing).1.conn
    × (contents
          (deliver acceptor fine (received none (3 ∷ [])) storing).1.files
          (codes "out/14.mp4")
        ≡ contents storing.files (codes "out/14.mp4"))
film_kept =
    Apart.deliver-make_out_file_path acceptor fine (received none (3 ∷ [])) storing film
      (codes "out/14.mp4") (inr (sender, refl, refl, picture_path)) refl (λ e. ground arith)
      film_path
