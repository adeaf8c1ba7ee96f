-- ===== src/Server/Tests/Client.antt =====
-- One client of a server, from its connection to its first picture.
use mathlib.Core.List.{Mem}
use hyperion_server.Common.{
  Option, some, false, get_elem?, ℕ, ◌≡◌, none, List, [], ◌∷◌, refl, All, arith, ◌<◌, ◌≤◌, ◌↔◌,
  ◌++◌,
}
use hyperion_server.Common.Text.{is_empty}
use hyperion_server.Common.Exec.{aborted, returned, try_catch, ◌>>=◌, guarded}
use hyperion_server.Media.Prop.{make_prop, type_to_byte, type_of_byte, get_type}
use hyperion_server.Media.Save.{contents, make_save_file, has_parent, put_file}
use hyperion_server.Net.Greeting.Allowed.{Allowed}
use hyperion_server.Net.Connection.{
  Connection, active, receive_completed, open_out_file, append_out_file, async_write, async_wait,
  inc_ref_count, dec_ref_count, new_connection, on_conn, set_timer_expires_after, write_completed,
  read_completed, async_read, prepare, set_status, consume, get_streambuf, begin_out_files,
  set_path, make_out_file_path, create_out_file, async_receive, on_files, file_ext, save_name,
  close_out_file,
}
use hyperion_server.Net.Listener.{begin_async_receive, do_async_receive}
use hyperion_server.Common.Digits.{to_string}
use hyperion_server.Net.Acceptor.{
  handle_accept, callback_sent_greeting, callback_received_greeting, announce,
}
use hyperion_server.Net.Greeting.{parse_client_greeting}
use hyperion_server.Net.Data.{World, add, make_connection}
use hyperion_server.Net.Listener.{
  bytes_of, receive_callback, save_received, save_bytes, put_byte?, put_byte,
}
use hyperion_server.Net.Events.{received, written, read, handle, taken, on_connection_accepted}
use hyperion_server.Net.Gc.Sweep.{all_pending}
use hyperion_server.Net.Services.{
  do_async_accept, accepted, swept, completed, run_call, ran, next, Reach, accept_completed,
  on_local, set_at, replace_last,
}
use hyperion_server.Net.Services.Clients.{HasClient, ClientRun}
use hyperion_server.Net.Services.Clients
use hyperion_server.Server.Streaming
use hyperion_server.Server.{make_acceptor, destroy_connections}
use hyperion_server.Server.Startup
use hyperion_server.Server.Stopping
use hyperion_server.Server.Collecting
use hyperion_server.Net.Services.Exact.{CalmReach, at_start, calmly, CalmReach-Reach}
use hyperion_server.Net.Events.Running.{pending}
use hyperion_server.Server.Tests.{acceptor, fine, started, starts}

abbrev connected : World
connected = (run_call acceptor fine (accepted none) started).1

connects : CalmReach acceptor started connected
unfolding run_call accept_completed add make_connection on_local replace_last do_async_accept
    try_catch ◌>>=◌ handle_accept async_write async_wait inc_ref_count new_connection on_conn
    set_timer_expires_after
connects = calmly fine (accepted none) at_start refl refl refl

abbrev greeted : World
greeted = (run_call acceptor fine (completed 0 (written none)) connected).1

greets : CalmReach acceptor started greeted
unfolding run_call accept_completed add make_connection on_local replace_last do_async_accept
    try_catch ◌>>=◌ handle_accept async_write async_wait inc_ref_count new_connection on_conn
    set_timer_expires_after handle taken set_at write_completed callback_sent_greeting async_read
    prepare set_status dec_ref_count
greets = calmly fine (completed 0 (written none)) connects refl refl refl

-- A greeting of an image.
abbrev image_bytes : List ℕ
image_bytes = 0 ∷ 2 ∷ 128 ∷ 1 ∷ 224 ∷ 0 ∷ []

abbrev sending : World
sending = (run_call acceptor fine (completed 0 (read none image_bytes)) greeted).1

sends : CalmReach acceptor started sending
unfolding run_call accept_completed add make_connection on_local replace_last do_async_accept
    try_catch ◌>>=◌ handle_accept async_write async_wait inc_ref_count new_connection on_conn
    set_timer_expires_after handle taken set_at write_completed callback_sent_greeting async_read
    prepare set_status dec_ref_count read_completed callback_received_greeting announce guarded
    consume get_streambuf parse_client_greeting make_prop type_to_byte type_of_byte
    on_connection_accepted begin_out_files set_path make_out_file_path create_out_file
    make_save_file has_parent begin_async_receive do_async_receive async_receive on_files get_type
    file_ext save_name to_string put_file make_acceptor close_out_file
sends = calmly fine (completed 0 (read none image_bytes)) greets refl refl refl

pends : 0 < all_pending connected.connections
unfolding run_call accept_completed add make_connection on_local replace_last do_async_accept
    try_catch ◌>>=◌ handle_accept async_write async_wait inc_ref_count new_connection on_conn
    set_timer_expires_after all_pending
pends = omega arith

run_connection_services-Vetted_example :
    All (λ c. c.status ≡ active → Allowed acceptor.media_config c.media_prop) sending.connections
run_connection_services-Vetted_example =
    Startup.run_connection_services-Vetted acceptor fine [] sending
      (rw starts (CalmReach-Reach sends))

destroy_connections-aborted_example : destroy_connections connected.connections ≡ aborted
destroy_connections-aborted_example =
    Stopping.destroy_connections-aborted acceptor fine [] connected
      (rw starts (CalmReach-Reach connects)) pends

-- Another client connects.
abbrev crowded : World
crowded = (run_call acceptor fine (accepted none) sending).1

abbrev or_new : Option Connection → Connection
or_new none = new_connection 0
or_new (some c) = c

abbrev client : ℕ → Connection
client i = or_new (get_elem? crowded.connections i)

crowds :
    Reach acceptor started crowded
    × (get_elem? crowded.connections 1 ≡ some (client 1))
    × (get_elem? crowded.connections 0 ≡ some (client 0))
    × (is_empty (client 0).out_file_path ≡ false)
unfolding run_call accept_completed add make_connection on_local replace_last do_async_accept
    try_catch ◌>>=◌ handle_accept async_write async_wait inc_ref_count new_connection on_conn
    set_timer_expires_after handle taken set_at write_completed callback_sent_greeting async_read
    prepare set_status dec_ref_count read_completed callback_received_greeting announce guarded
    consume get_streambuf parse_client_greeting make_prop type_to_byte type_of_byte
    on_connection_accepted begin_out_files set_path make_out_file_path create_out_file
    make_save_file has_parent begin_async_receive do_async_receive async_receive on_files get_type
    file_ext save_name to_string put_file make_acceptor close_out_file
crowds = (next (CalmReach-Reach sends) (ran fine (accepted none) refl refl), refl, refl, refl)

run_connection_services-contents_example :
    contents
      (run_call acceptor fine (completed 1 (written none)) crowded).1.files
      (client 0).out_file_path
    ≡ contents crowded.files (client 0).out_file_path
run_connection_services-contents_example =
    Startup.run_connection_services-contents acceptor fine fine [] crowded 1 0 (client 1) (client 0)
      (written none) (rw starts crowds.0) crowds.1 crowds.2 (λ e. ground arith) crowds.3

run_call-swept_example :
    Mem (client 0) (run_call acceptor fine (swept none) sending).1.connections
    ↔ (Mem (client 0) sending.connections × (0 < pending (client 0)))
run_call-swept_example =
    Collecting.run_call-swept acceptor fine fine [] none sending (client 0) (rw starts sends)

destroy_connections-returned_example :
    (destroy_connections sending.connections ≡ returned tt) ↔ (all_pending sending.connections ≡ 0)
destroy_connections-returned_example =
    Collecting.destroy_connections-returned acceptor fine [] sending (rw starts sends)

run_connection_services-pending_example : All (λ c. pending c ≤ 3) crowded.connections
run_connection_services-pending_example =
    Collecting.run_connection_services-pending acceptor fine [] crowded (rw starts crowds.0)

few_references : All (λ c. c.ref_count ≤ 3) sending.connections
few_references =
    Collecting.run_connection_services-ref_count acceptor fine [] sending (rw starts sends)

abbrev first : Connection
first = or_new (get_elem? sending.connections 0)

receives_at_first : HasClient first.id first.out_file_path sending
unfolding run_call accept_completed add make_connection on_local replace_last do_async_accept
    try_catch ◌>>=◌ handle_accept async_write async_wait inc_ref_count new_connection on_conn
    set_timer_expires_after handle taken set_at write_completed callback_sent_greeting async_read
    prepare set_status dec_ref_count read_completed callback_received_greeting announce guarded
    consume get_streambuf parse_client_greeting make_prop type_to_byte type_of_byte
    on_connection_accepted begin_out_files set_path make_out_file_path create_out_file
    make_save_file has_parent begin_async_receive do_async_receive async_receive on_files get_type
    file_ext save_name to_string put_file make_acceptor close_out_file
receives_at_first = record {
  place = 0;
  conn = first;
  there = refl;
  own_id = refl;
  stores = refl;
  accepted = refl;
  connected = refl;
  receiving = omega arith;
}

-- Another client connects, and the first one sends three bytes.
abbrev later : World
later = (run_call acceptor fine (completed 0 (received none (7 ∷ 8 ∷ 9 ∷ []))) crowded).1

run_later : ClientRun acceptor first.id sending (7 ∷ 8 ∷ 9 ∷ []) later
unfolding run_call accept_completed add make_connection on_local replace_last do_async_accept
    try_catch ◌>>=◌ handle_accept async_write async_wait inc_ref_count new_connection on_conn
    set_timer_expires_after handle taken set_at write_completed callback_sent_greeting async_read
    prepare set_status dec_ref_count read_completed callback_received_greeting announce guarded
    consume get_streambuf parse_client_greeting make_prop type_to_byte type_of_byte
    on_connection_accepted begin_out_files set_path make_out_file_path create_out_file
    make_save_file has_parent begin_async_receive do_async_receive async_receive on_files get_type
    file_ext save_name to_string put_file make_acceptor close_out_file receive_completed
    receive_callback save_received open_out_file append_out_file save_bytes put_byte? put_byte
run_later =
    Clients.continued fine (completed 0 (received none (7 ∷ 8 ∷ 9 ∷ [])))
      (Clients.continued fine (accepted none) Clients.started refl refl refl refl) refl refl refl
      refl

run_connection_services-ClientRun_example :
    HasClient first.id first.out_file_path later
    × (bytes_of (contents later.files first.out_file_path)
        ≡ bytes_of (contents sending.files first.out_file_path) ++ 7 ∷ 8 ∷ 9 ∷ [])
run_connection_services-ClientRun_example =
    Streaming.run_connection_services-ClientRun acceptor fine [] first.id first.out_file_path
      sending later (7 ∷ 8 ∷ 9 ∷ []) (rw starts (CalmReach-Reach sends)) receives_at_first run_later
