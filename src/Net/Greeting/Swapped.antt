-- ===== src/Net/Greeting/Swapped.antt =====
-- A compiler that evaluates the right operand of `|` in `get_byte() << 8 | get_byte()` first.
use hyperion_server.Common.{ℕ, ◌+◌, ◌*◌, ◌/◌, ◌%◌, ◌^◌, ◌<◌, ◌≡◌, ◌↔◌, ◌++◌, List, length, arith}
use hyperion_server.Common.Exec.{returned}
use hyperion_server.Media.Prop.{MediaType, MediaConfig, make_prop, type_to_byte, type_of_byte}
use hyperion_server.Net.Greeting.{parse_client_greeting, left_first, right_first}
use hyperion_server.Net.Greeting.Accepts.{Accepts, make_client_greeting}
use hyperion_server.Net.Greeting.RoundTrip.{parse_right_first, parse-make_client_greeting}

-- A dimension of 16 bits with its two bytes in the other order.
abbrev pub swapped : ℕ → ℕ
swapped n = n % 2 ^ 8 * 2 ^ 8 + n / 2 ^ 8 % 2 ^ 8

swapped_low : (n : ℕ) → swapped n % 2 ^ 8 ≡ n / 2 ^ 8 % 2 ^ 8
swapped_low n = omega arith

swapped_high : (n : ℕ) → swapped n / 2 ^ 8 % 2 ^ 8 ≡ n % 2 ^ 8
swapped_high n = omega arith

swapped_fits : (n : ℕ) → swapped n < 2 ^ 16
swapped_fits n = omega arith

parse_swapped :
    (config : MediaConfig) (t : MediaType) (w h fps size : ℕ) (rest : List ℕ)
    → parse_client_greeting right_first config (make_client_greeting t w h fps ++ rest) size
      ≡ parse_client_greeting left_first config
          (make_client_greeting t (swapped w) (swapped h) fps ++ rest)
          size
unfolding make_client_greeting
parse_swapped config t w h fps size rest =
    rw (swapped_low w, swapped_low h, swapped_high w, swapped_high h)
      (parse_right_first config (type_to_byte t) _ _ _ _ fps size rest)

-- With the right operand of `|` evaluated first: a greeting as a client writes it, of a type that
-- one byte holds, with anything behind it, is parsed to properties with the two bytes of each
-- dimension exchanged, exactly when the server accepts those properties, whether or not it accepts
-- what the client meant.
pub parse-right_first-make_client_greeting :
    (config : MediaConfig) (t : MediaType) (w h fps : ℕ) (rest : List ℕ)
    → type_of_byte (type_to_byte t) ≡ t
    → (parse_client_greeting right_first config
          (make_client_greeting t w h fps ++ rest)
          (6 + length rest)
        ≡ returned (make_prop t (swapped w) (swapped h) fps))
      ↔ Accepts config t (swapped w) (swapped h) fps
parse-right_first-make_client_greeting config t w h fps rest b =
    rw (parse_swapped config t w h fps (6 + length rest) rest) (
      parse-make_client_greeting config t (swapped w) (swapped h) fps rest b (swapped_fits w)
        (swapped_fits h))
