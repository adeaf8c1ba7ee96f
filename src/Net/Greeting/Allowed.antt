-- ===== src/Net/Greeting/Allowed.antt =====
-- What the parser lets through, however it was compiled.
use hyperion_server.Common.{ℕ, ◌≤◌, ◌<◌, ◌≡◌, ◌≢◌, sym, ◌∙◌, List, [], ◌∷◌, length, arith}
use hyperion_server.Common.Exec.{returned}
use hyperion_server.Media.Prop.{MediaConfig, MediaProp, get_type, make_prop}
use hyperion_server.Net.Greeting.{
  EvalOrder, left_first, right_first, join_bytes, parse_client_greeting,
}
use hyperion_server.Net.Greeting.Accepts.{Accepts}
use hyperion_server.Net.Greeting.RoundTrip.{
  checked-Accepts, parse_six, get_type_made, parse_short, parse_small, parse_right_first,
}

-- Properties that the configuration accepts.
abbrev pub Allowed : MediaConfig → MediaProp → Type 0
Allowed config p = Accepts config (get_type p) p.width p.height p.fps

short_right :
    (config : MediaConfig) (ptr : List ℕ) (size : ℕ) (p : MediaProp)
    → length ptr < 6
    → parse_client_greeting right_first config ptr size ≢ returned p
unfolding parse_client_greeting
short_right config [] size p h = ground arith
short_right config (b0 ∷ []) size p h = ground arith
short_right config (b0 ∷ b1 ∷ []) size p h = ground arith
short_right config (b0 ∷ b1 ∷ b2 ∷ []) size p h = ground arith
short_right config (b0 ∷ b1 ∷ b2 ∷ b3 ∷ []) size p h = ground arith
short_right config (b0 ∷ b1 ∷ b2 ∷ b3 ∷ b4 ∷ []) size p h = ground arith
short_right config (b0 ∷ b1 ∷ b2 ∷ b3 ∷ b4 ∷ b5 ∷ rest) size p h = absurd (omega arith)

left-Allowed :
    (config : MediaConfig) (b0 b1 b2 b3 b4 b5 : ℕ) (rest : List ℕ) (size : ℕ) {p : MediaProp}
    → parse_client_greeting left_first config (b0 ∷ b1 ∷ b2 ∷ b3 ∷ b4 ∷ b5 ∷ rest) size ≡ returned p
    → Allowed config p
unfolding make_prop
left-Allowed config b0 b1 b2 b3 b4 b5 rest size {p} e =
    let big : 6 ≤ size =
      ground (arith, parse_small left_first config (b0 ∷ b1 ∷ b2 ∷ b3 ∷ b4 ∷ b5 ∷ rest) size) in
    let c =
      checked-Accepts config b0 (join_bytes b1 b2) (join_bytes b3 b4) b5 p
        (sym (parse_six config b0 b1 b2 b3 b4 b5 size rest big) ∙ e) in
    rw (c.1, get_type_made b0 (join_bytes b1 b2) (join_bytes b3 b4) b5 c.0.named) c.0

-- With either order of evaluation, what the parser returns is allowed by the configuration.
pub parse_client_greeting-Allowed :
    (order : EvalOrder) (config : MediaConfig) (ptr : List ℕ) (size : ℕ) {p : MediaProp}
    → parse_client_greeting order config ptr size ≡ returned p
    → Allowed config p
parse_client_greeting-Allowed left_first config (b0 ∷ b1 ∷ b2 ∷ b3 ∷ b4 ∷ b5 ∷ rest) size e =
    left-Allowed config b0 b1 b2 b3 b4 b5 rest size e
parse_client_greeting-Allowed right_first config (b0 ∷ b1 ∷ b2 ∷ b3 ∷ b4 ∷ b5 ∷ rest) size e =
    left-Allowed config b0 b2 b1 b4 b3 b5 rest size
      (sym (parse_right_first config b0 b1 b2 b3 b4 b5 size rest) ∙ e)
parse_client_greeting-Allowed left_first config ptr size e =
    absurd (parse_short config ptr size _ (omega arith) e)
parse_client_greeting-Allowed right_first config ptr size e =
    absurd (short_right config ptr size _ (omega arith) e)
