-- ===== src/Media/Prop.antt =====
-- include/media/media_prop.h and media_config.h.
use Prim.Native.Nat.{◌^◌}
use hyperion_server.Common.{ℕ, zero, suc, ◌+◌, ◌%◌, Bool, ◌&&◌, List, ◌==◌}
use hyperion_server.Common.Text.{Text, codes}

-- An `enum class` over `int` also holds the values that have no name.
pub data MediaType : Type 0 where
  image video count_ : MediaType
  unnamed : ℕ → MediaType

-- `static_cast<uint8_t>` of a media type, and back. `unnamed n` stands for `n + 3`.
unfoldable pub type_to_byte : MediaType → ℕ
type_to_byte image = 0
type_to_byte video = 1
type_to_byte count_ = 2
type_to_byte (unnamed n) = (n + 3) % 2 ^ 8

unfoldable pub type_of_byte : ℕ → MediaType
type_of_byte zero = image
type_of_byte (suc zero) = video
type_of_byte (suc (suc zero)) = count_
type_of_byte (suc (suc (suc n))) = unnamed n

-- `MediaTypeExt`.
abbrev pub image_ext : Text
image_ext = codes "png"

abbrev pub video_ext : Text
video_ext = codes "mp4"

pub record MediaDimension : Type 0 where
  pub width : ℕ
  pub height : ℕ

unfoldable pub same_dimension : MediaDimension → MediaDimension → Bool
same_dimension lhs rhs = (lhs.width == rhs.width) && (lhs.height == rhs.height)

pub record MediaProp : Type 0 where
  pub dimension : MediaDimension
  pub open dimension use *
  pub fps : ℕ
  pub type_byte : ℕ

unfoldable pub make_prop : MediaType → ℕ → ℕ → ℕ → MediaProp
make_prop type width height fps = record {
  dimension = record { width = width; height = height };
  fps = fps;
  type_byte = type_to_byte type;
}

-- `MediaProp()`: the type is the largest byte.
unfoldable pub default_prop : MediaProp
default_prop = record { dimension = record { width = 0; height = 0 }; fps = 0; type_byte = 255 }

unfoldable pub get_type : MediaProp → MediaType
unfolding type_of_byte
get_type p = type_of_byte p.type_byte

unfoldable pub set_type : MediaType → MediaProp → MediaProp
set_type t p = record p { type_byte = type_to_byte t }

pub record MediaConfig : Type 0 where
  pub dimensions : List MediaDimension
  pub max_fps : ℕ
  pub media_save_path : Text
