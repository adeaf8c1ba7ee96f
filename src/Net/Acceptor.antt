-- ===== src/Net/Acceptor.antt =====
-- src/net/service/connection_acceptor.cpp: greeting a new client.
pub mod Accepting
use hyperion_server.Common.{ℕ, Bool, ◌&&◌, not, List, length, ◌==◌, if◌then◌else◌}
use hyperion_server.Common.Exec.{
  Outcome, returned, thrown, system_error, assert, pure, lift, gets, try_catch, guarded, ◌>>=◌,
  ◌>>◌,
}
use hyperion_server.Media.Prop.{MediaConfig}
use hyperion_server.Media.Save.{Answers}
use hyperion_server.Net.Props.{NetProp, InternetProtocol}
use hyperion_server.Net.Greeting.{EvalOrder, parse_client_greeting, parse_client_greeting_bytes}
use hyperion_server.Net.Connection.{
  send_s_greeting, awaiting_c_greeting, active, rank, Handler, on_conn, get_streambuf, async_read,
  async_write, async_wait, send_greeting, receive_greeting, consume, set_status,
  set_timer_expires_after, end_connection,
}

-- What the acceptor holds: `*netData_`, the cached greeting, and how the parser was compiled.
pub record Acceptor : Type 0 where
  pub order : EvalOrder
  pub net_prop : NetProp
  pub media_config : MediaConfig
  pub server_greeting : List ℕ

-- Where a server listens.
pub record Endpoint : Type 0 where
  pub protocol : InternetProtocol
  pub port : ℕ

-- `asio::ip::tcp::endpoint(protocol, net_prop.portNum)`
abbrev pub endpoint_of : NetProp → Endpoint
endpoint_of net_prop = record { protocol = net_prop.net_protocol; port = net_prop.port_num }

-- `ConnectionAcceptor(…)`: asio opens an acceptor at the endpoint that it makes by default, and then
-- the one that replaces it; `opens` is what it answers. The result is where the acceptor listens.
-- The assertion on `netData_` is about the address of a reference.
unfoldable pub connection_acceptor : (Endpoint → Bool) → Endpoint → NetProp → Outcome Endpoint
connection_acceptor opens default_endpoint net_prop =
    if opens default_endpoint && opens (endpoint_of net_prop)
    then returned (endpoint_of net_prop)
    else thrown system_error

-- `HandleAccept`, for the connection that `Add` has made.
unfoldable pub handle_accept : Acceptor → Answers → Handler
handle_accept acceptor answers = do
  async_write acceptor.server_greeting
  set_timer_expires_after answers acceptor.net_prop.to_send_server_greeting
  async_wait send_greeting

unfoldable pub callback_sent_greeting : Acceptor → Answers → Handler
callback_sent_greeting acceptor answers =
    try_catch
      (do
        async_read answers parse_client_greeting_bytes
        set_timer_expires_after answers acceptor.net_prop.to_receive_client_greeting
        async_wait receive_greeting
        set_status awaiting_c_greeting)
      (λ e. end_connection answers)

-- Once the greeting is accepted; `accepted` is the function `onConnectionAccepted`.
unfoldable pub announce : Answers → Handler → Handler
announce answers accepted =
    try_catch (do get_streambuf; size ← gets (λ l. l.buffered); assert (size == 0); accepted)
      (λ e. end_connection answers)

unfoldable pub callback_received_greeting : Acceptor → Answers → Handler → List ℕ → Handler
callback_received_greeting acceptor answers accepted bytes =
    try_catch
      (guarded (consume (length bytes)) do
        get_streambuf
        prop ←
            lift (parse_client_greeting acceptor.order acceptor.media_config bytes (length bytes))
        on_conn (λ c. record c { media_prop = prop })
        set_status active
        announce answers accepted)
      (λ e. end_connection answers)

unfoldable pub callback_send_greeting_timeout : Answers → Handler
callback_send_greeting_timeout answers = do
  status ← gets (λ l. l.status)
  if not (rank status == rank send_s_greeting) then pure tt else end_connection answers

unfoldable pub callback_receive_greeting_timeout : Answers → Handler
callback_receive_greeting_timeout answers = do
  status ← gets (λ l. l.status)
  assert (not (rank status == rank send_s_greeting))
  if not (rank status == rank awaiting_c_greeting) then pure tt else end_connection answers
