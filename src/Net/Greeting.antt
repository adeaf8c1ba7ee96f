-- ===== src/Net/Greeting.antt =====
-- src/net/communication.cpp, include/net/comm_format.h and include/net/communication.h.
pub mod Accepts
pub mod RoundTrip
pub mod Swapped
pub mod Allowed
use hyperion_server.Common.{
  ℕ, ◌+◌, ◌*◌, ◌%◌, ◌^◌, Bool, true, false, not, ◌&&◌, ◌||◌, Option, none, some, List, [], ◌∷◌, ltb,
  leb, ◌==◌, if◌then◌else◌, get_elem?, length,
}
use hyperion_server.Common.Exec.{
  Exec, Outcome, returned, aborted, pure, throw, too_few_bytes, invalid_media_type,
  unsupported_dimension, fps_zero, fps_too_big, ◌>>=◌,
}
use hyperion_server.Media.Prop.{
  MediaType, image, video, MediaDimension, same_dimension, MediaProp, make_prop, MediaConfig,
  type_of_byte,
}

-- `CommFormat::kServerMsgPrefix`.
abbrev pub server_msg_prefix : ℕ
server_msg_prefix = 0xfe

unfoldable pub make_server_greeting : List ℕ
make_server_greeting = server_msg_prefix ∷ []

-- `kParseClientGreetingBytes`, which is also `sizeof(media::MediaProp)`.
abbrev pub parse_client_greeting_bytes : ℕ
parse_client_greeting_bytes = 6

-- The order in which a compiler evaluates the two operands of `|`: C++ leaves it open.
pub data EvalOrder : Type 0 where
  left_first right_first : EvalOrder

-- `ptr[byte_offset++]`; the state is `byte_offset`.
unfoldable pub get_byte : List ℕ → Exec ℕ ℕ
get_byte ptr offset = elim (get_elem? ptr offset) [
  | none ↦ (aborted, offset)
  | some b ↦ (returned b, offset + 1)
]

-- `hi << 8 | lo` as a `uint16_t`; no bit of a shifted `hi` meets one of a byte `lo`.
abbrev pub join_bytes : ℕ → ℕ → ℕ
join_bytes hi lo = (hi * 2 ^ 8 + lo) % 2 ^ 16

unfoldable pub get_byte_2 : EvalOrder → List ℕ → Exec ℕ ℕ
unfolding get_byte ◌>>=◌
get_byte_2 left_first ptr = do hi ← get_byte ptr; lo ← get_byte ptr; pure (join_bytes hi lo)
get_byte_2 right_first ptr = do lo ← get_byte ptr; hi ← get_byte ptr; pure (join_bytes hi lo)

-- `std::find(…) != end()`.
unfoldable pub listed : MediaDimension → List MediaDimension → Bool
unfolding same_dimension
listed d [] = false
listed d (e ∷ es) = let rest = listed d es in same_dimension e d || rest

unfoldable pub is_supported : List MediaDimension → MediaDimension → Bool
unfolding listed
is_supported [] d = true
is_supported (e ∷ es) d = listed d (e ∷ es)

unfoldable pub is_video : MediaType → Bool
is_video video = true
is_video _ = false

-- From the byte for the fps on.
unfoldable pub parse_fps : MediaConfig → List ℕ → MediaType → ℕ → ℕ → Exec ℕ MediaProp
unfolding get_byte is_video ◌>>=◌
parse_fps config ptr media_type width height = do
  fps ← get_byte ptr
  if is_video media_type && (fps == 0)
      then throw fps_zero
      else if is_video media_type && ltb config.max_fps fps
      then throw fps_too_big
      else pure (make_prop media_type width height fps)

-- From the bytes for the dimensions on.
unfoldable pub parse_dimension : EvalOrder → MediaConfig → List ℕ → MediaType → Exec ℕ MediaProp
unfolding get_byte_2 is_supported parse_fps
parse_dimension order config ptr media_type = do
  width ← get_byte_2 order ptr
  height ← get_byte_2 order ptr
  if is_supported config.dimensions (record { width = width; height = height })
      then parse_fps config ptr media_type width height
      else throw unsupported_dimension

unfoldable pub parse_greeting : EvalOrder → MediaConfig → List ℕ → ℕ → Exec ℕ MediaProp
unfolding parse_dimension
parse_greeting order config ptr size =
    if ltb size parse_client_greeting_bytes then throw too_few_bytes else do
      type ← get_byte ptr
      if leb 2 type
          then throw invalid_media_type
          else parse_dimension order config ptr (type_of_byte type)

-- `ParseClientGreeting(config, ptr, size)`: the offset starts at 0 and is lost on return.
unfoldable pub parse_client_greeting : EvalOrder → MediaConfig → List ℕ → ℕ → Outcome MediaProp
unfolding parse_greeting
parse_client_greeting order config ptr size = (parse_greeting order config ptr size 0).0

-- `ParseClientGreeting(config, b_vec)`.
unfoldable pub parse_client_greeting_vec : EvalOrder → MediaConfig → List ℕ → Outcome MediaProp
unfolding parse_client_greeting
parse_client_greeting_vec order config b_vec =
    parse_client_greeting order config b_vec (length b_vec)
