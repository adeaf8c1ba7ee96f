-- ===== src/Net/Greeting/Accepts.antt =====
-- Which greetings the server accepts, read off the documentation of include/net/communication.h
-- and include/media/media_config.h, and how a client writes one.
use mathlib.Core.List.{Mem}
use hyperion_server.Common.{ℕ, ◌/◌, ◌%◌, ◌^◌, ◌≤◌, ◌<◌, ◌≡◌, ◌⊎◌, List, [], ◌∷◌}
use hyperion_server.Media.Prop.{MediaType, image, video, MediaConfig, type_to_byte}

pub record Accepts (config : MediaConfig) (t : MediaType) (w h fps : ℕ) : Type 0 where
  pub named : (t ≡ image) ⊎ (t ≡ video)
  pub sized : (config.dimensions ≡ []) ⊎ Mem (record { width = w; height = h }) config.dimensions
  pub paced : t ≡ video → (0 < fps) × (fps ≤ config.max_fps)

-- `MakeClientGreeting` of test/net/communicationTests.cpp.
unfoldable pub make_client_greeting : MediaType → ℕ → ℕ → ℕ → List ℕ
make_client_greeting t w h fps =
    type_to_byte t ∷ w / 2 ^ 8 % 2 ^ 8 ∷ w % 2 ^ 8 ∷ h / 2 ^ 8 % 2 ^ 8 ∷ h % 2 ^ 8 ∷ fps ∷ []
