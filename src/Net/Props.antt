-- ===== src/Net/Props.antt =====
-- include/net/net_prop.h and the error codes of asio that the program tells apart.
use hyperion_server.Common.{ℕ}

pub data InternetProtocol : Type 0 where
  v4 v6 : InternetProtocol

-- Times are in milliseconds.
pub record NetProp : Type 0 where
  pub net_protocol : InternetProtocol
  pub port_num : ℕ
  pub to_send_server_greeting : ℕ
  pub to_receive_client_greeting : ℕ
  pub sleep_acceptor_init_failed : ℕ
  pub sleep_gc_pass : ℕ

abbrev pub default_net_prop : NetProp
default_net_prop = record {
  net_protocol = v4;
  port_num = 34200;
  to_send_server_greeting = 5000;
  to_receive_client_greeting = 5000;
  sleep_acceptor_init_failed = 1000;
  sleep_gc_pass = 20000;
}

-- `asio::error_code`; success is `none` of an `Option ErrorCode`.
pub data ErrorCode : Type 0 where
  eof operation_aborted : ErrorCode
  other_error : ℕ → ErrorCode
