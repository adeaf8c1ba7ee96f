-- ===== src/Net/Tests/Stored.antt =====
-- The files of two clients, and an accepted greeting.
use hyperion_server.Common.{◌≡◌, ◌≢◌, ◌++◌, refl, false, some, [], ◌∷◌, arith}
use hyperion_server.Common.Text.{codes}
use hyperion_server.Common.Exec.{returned}
use hyperion_server.Media.Prop.{get_type}
use hyperion_server.Media.Save.{contents}
use hyperion_server.Net.Connection.{Connection, Local, active}
use hyperion_server.Net.Listener.{save_received}
use hyperion_server.Net.Connection.{make_out_file_path, end_connection}
use hyperion_server.Net.Connection.Paths
use hyperion_server.Net.Connection.Closing
use hyperion_server.Net.Listener.{bytes_of}
use hyperion_server.Net.Listener.Saving
use hyperion_server.Common.Digits.{to_string}
use hyperion_server.Net.Acceptor.{callback_received_greeting}
use hyperion_server.Net.Events.{on_connection_accepted}
use hyperion_server.Net.Acceptor.Accepting
use hyperion_server.Net.Connection.{awaiting_c_greeting, save_name, file_ext}
use hyperion_server.Net.Tests.{config, acceptor, fine, client, sender, at}
use hyperion_server.Net.Tests.Greetings.{image_bytes, parsed_image}

-- Two connections that send a picture and a film to the same directory.
abbrev pub film : Connection
film = record sender {
  id = 14;
  media_prop = record { dimension = record { width = 640; height = 480 }; fps = 30; type_byte = 1 };
}

pub picture_path : make_out_file_path sender ≡ some (codes "out/4.png")
unfolding make_out_file_path to_string get_type
picture_path = refl

pub film_path : make_out_file_path film ≡ some (codes "out/14.mp4")
unfolding make_out_file_path to_string get_type
film_path = refl

other_path : codes "out/4.png" ≢ codes "out/14.mp4"
other_path =
    Paths.make_out_file_path-ne sender film (codes "out/4.png") (codes "out/14.mp4") refl
      (λ e. ground arith) picture_path film_path

-- Two bytes were stored before.
abbrev pub storing : Local
storing = record { conn = sender; files = (codes "out/4.png", 1 ∷ 2 ∷ []) ∷ [] }

saved_bytes :
    ((save_received fine (3 ∷ 4 ∷ []) storing).0 ≡ returned tt)
    × Saving.HasSaved
        (3 ∷ 4 ∷ [])
        (bytes_of (contents storing.files storing.out_file_path))
        storing
        (save_received fine (3 ∷ 4 ∷ []) storing).1
saved_bytes = Saving.save_received-HasSaved fine (3 ∷ 4 ∷ []) storing refl refl refl

end_connection_closed_example :
    ((end_connection fine (at sender)).0 ≡ returned tt)
    × ((end_connection fine (at sender)).1.out_file_open ≡ false)
    × ((end_connection fine (at sender)).1.socket_open ≡ false)
end_connection_closed_example = Closing.end_connection_closed fine (at sender)

-- The greeting of the client is read.
abbrev reading : Connection
reading = record client { status = awaiting_c_greeting; ref_count = 1; writes = 0; send_waits = 0 }

fine-Ready : Accepting.Ready fine
fine-Ready = record { creates = refl; makes_directory = refl; prepares = refl }

picture : file_ext (get_type sender.media_prop) ≡ some (codes "png")
unfolding file_ext get_type
picture = refl

callback_received_greeting-announced_example :
    callback_received_greeting acceptor fine
      (on_connection_accepted config fine)
      image_bytes
      (at reading)
    ≡ (
      returned tt,
      Accepting.announced
          (codes "out")
          (codes "out" ++ save_name (codes "out") 4 (codes "png"))
          (at (record reading { media_prop = sender.media_prop; status = active })),
    )
callback_received_greeting-announced_example =
    Accepting.callback_received_greeting-announced acceptor fine image_bytes (at reading)
      sender.media_prop (codes "png") fine-Ready refl (λ e. ground arith) parsed_image picture
