-- ===== src/Net/Tests.antt =====
-- A server with one client, run through its handlers.
mod Streams
mod Greetings
mod Stored
use mathlib.Core.List.{Mem}
use hyperion_server.Common.{
  ℕ, ◌≡◌, ◌≢◌, ◌≤◌, ◌+◌, ◌↔◌, ◌++◌, refl, true, false, none, some, List, [], ◌∷◌, arith,
}
use hyperion_server.Common.Text.{codes, same_text}
use hyperion_server.Common.Exec.{returned, thrown, aborted, length_error, guarded, try_catch, ◌>>=◌}
use hyperion_server.Common.Exec.Triple.{Ends}
use hyperion_server.Media.Prop.{MediaConfig, video, make_prop, get_type, type_to_byte, type_of_byte}
use hyperion_server.Media.Save.{Answers, contents, put_file}
use hyperion_server.Net.Props.{eof, default_net_prop}
use hyperion_server.Net.Greeting.{left_first, right_first, parse_client_greeting}
use hyperion_server.Net.Greeting.Accepts.{Accepts, make_client_greeting}
use hyperion_server.Net.Greeting.RoundTrip
use hyperion_server.Net.Connection.{
  Connection, Local, can_destruct, on_conn, send_s_greeting, active, async_receive, inc_ref_count,
  dec_ref_count, write_completed, receive_completed, prepare, get_streambuf, consume, open_out_file,
  append_out_file, close_out_file,
}
use hyperion_server.Net.Listener.{
  receive_callback, save_received, save_bytes, put_byte?, put_byte, do_async_receive,
}
use hyperion_server.Net.Connection.{make_out_file_path, end_connection}
use hyperion_server.Net.Connection.Paths
use hyperion_server.Net.Connection.Closing
use hyperion_server.Net.Listener.{bytes_of}
use hyperion_server.Net.Listener.Saving
use hyperion_server.Common.Digits.{to_string}
use hyperion_server.Net.Acceptor.{callback_received_greeting}
use hyperion_server.Net.Events.{on_connection_accepted}
use hyperion_server.Net.Acceptor.Accepting
use hyperion_server.Net.Connection.{awaiting_c_greeting, save_name, file_ext}
use hyperion_server.Net.Acceptor.{Acceptor}
use hyperion_server.Net.Data.{World}
use hyperion_server.Net.Gc.{sweep, sweep_due, setup_sweep_timer}
use hyperion_server.Net.Gc.Sweep
use hyperion_server.Net.Events.{written, received, handle, taken}
use hyperion_server.Net.Events.Valid.{IsValid, slack}
use hyperion_server.Net.Events.Handlers.{deliver, leaks}
use hyperion_server.Net.Events.Safety
use hyperion_server.Net.Services.{
  completed, swept, run_call, ran, here, next, Reach, on_local, set_at,
}
use hyperion_server.Net.Services.Valid.{IsSound}
use hyperion_server.Net.Services.Valid
use hyperion_server.Net.Services.Held.{Held}
use hyperion_server.Net.Services.Leak
use hyperion_server.Net.Services.Returning

abbrev pub config : MediaConfig
config = record {
  dimensions = record { width = 640; height = 480 } ∷ [];
  max_fps = 60;
  media_save_path = codes "out";
}

abbrev pub acceptor : Acceptor
acceptor = record {
  order = left_first;
  net_prop = default_net_prop;
  media_config = config;
  server_greeting = 0xfe ∷ [];
}

-- Nothing fails.
abbrev pub fine : Answers
fine = record {
  mkdir_throws = false;
  create_opens = true;
  append_opens = true;
  shutdown_throws = false;
  close_throws = false;
  prepare_throws = false;
  expires_throws = false;
  remote_throws = false;
  accept_throws = false;
}

abbrev no_memory : Answers
no_memory = record fine { prepare_throws = true }

-- The greeting of the server is being written.
abbrev pub client : Connection
client = record {
  id = 4;
  media_prop = record { dimension = record { width = 0; height = 0 }; fps = 0; type_byte = 255 };
  status = send_s_greeting;
  out_file_path = [];
  out_file_directory = [];
  out_file_open = false;
  socket_open = true;
  outgoing = 0xfe ∷ [];
  buffered = 0;
  expires_after = 5000;
  received_eof = false;
  ref_count = 2;
  writes = 1;
  reads = 0;
  receives = 0;
  send_waits = 1;
  receive_waits = 0;
}

abbrev pub sender : Connection
sender = record {
  id = 4;
  media_prop = record { dimension = record { width = 640; height = 480 }; fps = 0; type_byte = 0 };
  status = active;
  out_file_path = codes "out/4.png";
  out_file_directory = codes "out";
  out_file_open = false;
  socket_open = true;
  outgoing = 0xfe ∷ [];
  buffered = 0;
  expires_after = 5000;
  received_eof = false;
  ref_count = 1;
  writes = 0;
  reads = 0;
  receives = 1;
  send_waits = 0;
  receive_waits = 0;
}

abbrev pub at : Connection → Local
at c = record { conn = c; files = [] }

abbrev world : World
world = record { connections = client ∷ []; next_id = 5; files = []; accepts = 1; gc_waits = 1 }

client-IsValid : IsValid client
client-IsValid = record {
  counted = omega arith;
  unbuffered = refl;
  stream = refl;
  one_write = omega arith;
  writing = λ p. refl;
  reading = λ p. absurd (omega arith);
  waiting = λ p. absurd (omega arith);
  saving = λ p. absurd (omega arith);
}

pub sender-IsValid : IsValid sender
sender-IsValid = record {
  counted = omega arith;
  unbuffered = refl;
  stream = refl;
  one_write = omega arith;
  writing = λ p. absurd (omega arith);
  reading = λ p. absurd (omega arith);
  waiting = λ p. absurd (omega arith);
  saving = λ p. refl;
}

world-IsSound : IsSound world
world-IsSound = record { rising = (client-IsValid, omega arith, omega arith) }

deliver-IsValid_example :
    ((deliver acceptor fine (written none) (at client)).0 ≢ aborted)
    × IsValid (deliver acceptor fine (written none) (at client)).1.conn
deliver-IsValid_example =
    Safety.deliver-IsValid acceptor fine (written none) (at client) client-IsValid refl

-- `prepare` throws when the next receive is started.
sender_thrown :
    (deliver acceptor no_memory (received none (7 ∷ [])) (at sender)).0 ≡ thrown length_error
unfolding handle taken receive_completed receive_callback guarded try_catch on_conn get_streambuf
    consume save_received open_out_file append_out_file close_out_file save_bytes put_byte? put_byte
    contents put_file same_text do_async_receive async_receive inc_ref_count prepare dec_ref_count
    ◌>>=◌
sender_thrown = refl

no_memory_thrown :
    (no_memory.prepare_throws ≡ true)
    × ((bytes : List ℕ) × (received none (7 ∷ []) ≡ received none bytes))
no_memory_thrown =
    Safety.deliver_thrown acceptor no_memory (received none (7 ∷ [])) (at sender) length_error
      sender-IsValid refl sender_thrown

kept_reference :
    slack (deliver acceptor fine (written (some eof)) (at client)).1.conn
    ≡ slack client + leaks (written (some eof))
kept_reference =
    Safety.slack-deliver acceptor fine (written (some eof)) (at client) client-IsValid refl refl

kept_id :
    ((deliver acceptor fine (written none) (at client)).1.id ≡ 4)
    × (slack client + 0 ≤ slack (deliver acceptor fine (written none) (at client)).1.conn)
kept_id = Safety.deliver_kept acceptor fine (written none) (at client) client-IsValid refl

all_pending-sweep_example :
    Sweep.all_pending (sweep (client ∷ sender ∷ [])) ≡ Sweep.all_pending (client ∷ sender ∷ [])
all_pending-sweep_example =
    Sweep.all_pending-sweep (client ∷ sender ∷ []) (client-IsValid, (sender-IsValid, tt))

kept_sender :
    Mem sender (sweep (client ∷ sender ∷ []))
    ↔ (Mem sender (client ∷ sender ∷ []) × (sender.ref_count ≢ 0))
kept_sender = Sweep.mem-sweep sender (client ∷ sender ∷ [])

run_call-IsSound_example :
    Ends
      (λ _. IsSound)
      (λ w. Unit)
      (run_call acceptor fine (completed 0 (written none)) world).0
      (run_call acceptor fine (completed 0 (written none)) world).1
run_call-IsSound_example =
    Valid.run_call-IsSound acceptor fine (completed 0 (written none)) world world-IsSound refl

-- The write to the client fails.
abbrev leaked : World
leaked = record world { connections = record client { writes = 0 } ∷ [] }

failed : run_call acceptor fine (completed 0 (written (some eof))) world ≡ (returned tt, leaked)
unfolding run_call on_local set_at taken handle write_completed ◌>>=◌
failed = refl

swept_leaked : run_call acceptor fine (swept none) leaked ≡ (returned tt, leaked)
unfolding run_call sweep_due setup_sweep_timer sweep can_destruct ◌>>=◌
swept_leaked = refl

collected : Reach acceptor leaked leaked
collected = next here (ran fine (swept none) refl swept_leaked)

leaked-IsSound : IsSound leaked
leaked-IsSound =
    Valid.Reach-IsSound (next here (ran fine (completed 0 (written (some eof))) refl failed))
      world-IsSound

failed_write-Held_example : Held 4 leaked.connections
failed_write-Held_example =
    Leak.failed_write-Held acceptor fine 0 eof client world-IsSound refl refl failed collected

run_call-returned_example :
    (run_call acceptor fine (completed 0 (written none)) world).0 ≡ returned tt
run_call-returned_example =
    Returning.run_call-returned acceptor fine
      (record { prepares = refl; expires = refl; connects = refl }) world
      (completed 0 (written none)) world-IsSound refl
