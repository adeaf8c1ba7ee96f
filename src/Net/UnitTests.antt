-- ===== src/Net/UnitTests.antt =====
-- test/net/communicationTests.cpp: the unit tests of the repository for the greetings, run on the
-- model. Each is the conjunction of what its test expects.
mod OutFiles
use hyperion_server.Common.{
  ℕ, ◌≡◌, refl, Bool, true, false, not, ◌&&◌, List, [], ◌∷◌, length, ◌==◌, get_elem?, some,
}
use hyperion_server.Common.Exec.{Outcome, returned, thrown, aborted, ◌>>=◌}
use hyperion_server.Media.Prop.{
  MediaType, image, video, MediaDimension, same_dimension, MediaProp, MediaConfig, make_prop,
  get_type, type_to_byte, type_of_byte,
}
use hyperion_server.Net.Greeting.{
  left_first, server_msg_prefix, make_server_greeting, parse_client_greeting,
  parse_client_greeting_vec,
}
use hyperion_server.Net.Greeting.Accepts.{make_client_greeting}

abbrev only : List ℕ → ℕ → Bool
only (byte ∷ []) expected = byte == expected
only _ expected = false

abbrev make_server_greeting_test : Bool
make_server_greeting_test =
    (length make_server_greeting == 1) && only make_server_greeting server_msg_prefix

abbrev dimension : ℕ → ℕ → MediaDimension
dimension width height = record { width = width; height = height }

abbrev config_of : List MediaDimension → ℕ → MediaConfig
config_of dimensions max_fps = record {
  dimensions = dimensions;
  max_fps = max_fps;
  media_save_path = [];
}

abbrev is_prop : MediaType → ℕ → ℕ → ℕ → MediaProp → Bool
is_prop type width height fps prop =
    (type_to_byte (get_type prop) == type_to_byte type)
    && same_dimension prop.dimension (dimension width height)
    && (prop.fps == fps)

-- The greeting is parsed, and to those properties.
abbrev parsed_to : MediaType → ℕ → ℕ → ℕ → Outcome MediaProp → Bool
parsed_to type width height fps (returned prop) = is_prop type width height fps prop
parsed_to type width height fps _ = false

abbrev was_thrown : Outcome MediaProp → Bool
was_thrown (thrown e) = true
was_thrown _ = false

abbrev full_hd : MediaConfig
full_hd = config_of (dimension 1920 1080 ∷ []) 60

abbrev parse_client_greeting_test : Bool
parse_client_greeting_test =
    let bytes = make_client_greeting video 1920 1080 60 in
    parsed_to video 1920 1080 60 (parse_client_greeting left_first full_hd bytes (length bytes))

abbrev refuses_type : ℕ → Bool
refuses_type byte = was_thrown (
    parse_client_greeting_vec left_first full_hd
      (make_client_greeting (type_of_byte byte) 1920 1080 60))

abbrev parse_invalid_media_type_test : Bool
parse_invalid_media_type_test =
    refuses_type 3 && refuses_type 10 && refuses_type 30 && refuses_type 255

abbrev parses : MediaConfig → MediaType → ℕ → ℕ → ℕ → Bool
parses config type width height fps =
    parsed_to type width height fps
      (parse_client_greeting_vec left_first config (make_client_greeting type width height fps))

abbrev refuses : MediaConfig → MediaType → ℕ → ℕ → ℕ → Bool
refuses config type width height fps =
    was_thrown
      (parse_client_greeting_vec left_first config (make_client_greeting type width height fps))

abbrev any_size : MediaConfig
any_size = config_of [] 30

abbrev hd_only : MediaConfig
hd_only = config_of (dimension 1920 1080 ∷ []) 30

abbrev two_sizes : MediaConfig
two_sizes = config_of (dimension 1 2 ∷ dimension 3 4 ∷ []) 30

abbrev parse_dimension_test : Bool
parse_dimension_test =
    parses any_size image 0 0 30
    && parses any_size image 20 10 30
    && parses any_size image 4848 2323 30
    && parses any_size image 9990 8880 30
    && refuses hd_only image 1921 1080 30
    && refuses hd_only image 1920 1081 30
    && parses hd_only image 1920 1080 30
    && refuses two_sizes image 2 1 30
    && refuses two_sizes image 4 3 30
    && parses two_sizes image 1 2 30
    && parses two_sizes image 3 4 30

abbrev small : MediaConfig
small = config_of (dimension 100 101 ∷ []) 30

abbrev parse_fps_test : Bool
parse_fps_test =
    parses small image 100 101 0
    && parses small image 100 101 1
    && parses small image 100 101 10
    && parses small image 100 101 30
    && parses small image 100 101 31
    && parses small image 100 101 255
    && refuses small video 100 101 0
    && parses small video 100 101 1
    && parses small video 100 101 10
    && parses small video 100 101 30
    && refuses small video 100 101 31
    && refuses small video 100 101 255

abbrev parse_too_few_bytes_test : Bool
parse_too_few_bytes_test = was_thrown (parse_client_greeting_vec left_first full_hd (1 ∷ []))

-- Bytes past the greeting are not looked at.
abbrev parse_too_many_bytes_test : Bool
parse_too_many_bytes_test = parsed_to image 720 480 30 (
    parse_client_greeting_vec left_first (config_of (dimension 720 480 ∷ []) 60) (
      0x00 ∷ 0x02 ∷ 0xD0 ∷ 0x01 ∷ 0xE0 ∷ 0x1E ∷ 1 ∷ 1 ∷ 1 ∷ 1 ∷ 1 ∷ 1 ∷ 1 ∷ 1 ∷ 1 ∷ 1 ∷ 1 ∷ 1 ∷ []))

greetings_pass :
    (make_server_greeting_test && parse_client_greeting_test && parse_invalid_media_type_test
      && parse_dimension_test && parse_fps_test && parse_too_few_bytes_test
      && parse_too_many_bytes_test)
    ≡ true
unfolding make_server_greeting make_client_greeting parse_client_greeting parse_client_greeting_vec
    type_to_byte type_of_byte get_type make_prop same_dimension ◌>>=◌
greetings_pass = refl
