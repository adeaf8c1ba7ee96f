-- ===== src/Net/Tests/Greetings.antt =====
-- Greetings, parsed.
use hyperion_server.Common.{ℕ, ◌≡◌, ◌≢◌, ◌↔◌, ◌++◌, refl, List, [], ◌∷◌, arith}
use hyperion_server.Common.Exec.{returned, aborted}
use hyperion_server.Media.Prop.{image, video, make_prop, get_type, type_to_byte, type_of_byte}
use hyperion_server.Net.Greeting.{left_first, right_first, parse_client_greeting}
use hyperion_server.Net.Greeting.Accepts.{Accepts, make_client_greeting}
use hyperion_server.Net.Greeting.RoundTrip
use hyperion_server.Net.Greeting.Swapped
use hyperion_server.Net.Tests.{config, sender}

video_byte : type_of_byte (type_to_byte video) ≡ video
unfolding type_of_byte type_to_byte
video_byte = refl

parse-make_client_greeting_example :
    (parse_client_greeting left_first config (make_client_greeting video 640 480 30 ++ 9 ∷ []) 7
      ≡ returned (make_prop video 640 480 30))
    ↔ Accepts config video 640 480 30
parse-make_client_greeting_example =
    RoundTrip.parse-make_client_greeting config video 640 480 30 (9 ∷ []) video_byte (omega arith)
      (omega arith)

-- A greeting of an image.
abbrev pub image_bytes : List ℕ
image_bytes = 0 ∷ 2 ∷ 128 ∷ 1 ∷ 224 ∷ 0 ∷ []

pub parsed_image :
    parse_client_greeting left_first config image_bytes 6 ≡ returned sender.media_prop
unfolding parse_client_greeting make_prop type_to_byte type_of_byte
parsed_image = refl

parse_client_greeting-Accepts_example :
    Accepts config (get_type sender.media_prop) 640 480 0
    × ((rest : List ℕ) × (image_bytes
          ≡ make_client_greeting (get_type sender.media_prop) 640 480 0 ++ rest))
parse_client_greeting-Accepts_example =
    RoundTrip.parse_client_greeting-Accepts config image_bytes 6 (ground arith) parsed_image

parse_client_greeting-ne-aborted_example :
    parse_client_greeting right_first config image_bytes 6 ≢ aborted
parse_client_greeting-ne-aborted_example =
    RoundTrip.parse_client_greeting-ne-aborted right_first config image_bytes 6 (omega arith)

-- 640 is read as 32770, and 480 as 57345.
parse-right_first-make_client_greeting_example :
    (parse_client_greeting right_first config (make_client_greeting image 640 480 0 ++ []) 6
      ≡ returned (make_prop image 32770 57345 0))
    ↔ Accepts config image 32770 57345 0
unfolding type_of_byte type_to_byte
parse-right_first-make_client_greeting_example =
    Swapped.parse-right_first-make_client_greeting config image 640 480 0 [] refl
