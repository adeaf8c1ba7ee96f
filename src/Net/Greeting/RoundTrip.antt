-- ===== src/Net/Greeting/RoundTrip.antt =====
-- `ParseClientGreeting` against the greetings that the server accepts.
use mathlib.Core.List.{Mem, mem-cons, not-mem-nil}
use mathlib.Core.Bool.{Bool-set}
use mathlib.Core.Logic.Or
use hyperion_server.Common.{
  ℕ, suc, ◌+◌, ◌≤◌, ◌<◌, ◌^◌, ◌≡◌, refl, sym, ◌∙◌, ◌≢◌, ◌/◌, ◌%◌, zero, ◌↔◌, ◌⊎◌, inl, inr, true,
  List, [], ◌∷◌, ◌++◌, arith, length, Bool-cases, ◌==◌, All, leb, ltb, if◌then◌else◌, ◌&&◌,
}
use hyperion_server.Common.Exec.{
  Outcome, returned, aborted, thrown, too_few_bytes, invalid_media_type, fps_zero, fps_too_big,
  unsupported_dimension,
}
use hyperion_server.Media.Prop.{
  MediaType, image, video, count_, unnamed, MediaDimension, MediaProp, MediaConfig, type_to_byte,
  type_of_byte, same_dimension, make_prop, get_type,
}
use hyperion_server.Net.Greeting.{
  EvalOrder, join_bytes, left_first, right_first, listed, is_supported, is_video,
  parse_client_greeting,
}
use hyperion_server.Net.Greeting.Accepts.{Accepts, make_client_greeting}

same_dimension_iff : (a b : MediaDimension) → (same_dimension a b ≡ true) ↔ (a ≡ b)
unfolding same_dimension
same_dimension_iff a b = ground arith

listed_mem : (d : MediaDimension) (ds : List MediaDimension) → listed d ds ≡ true → Mem d ds
unfolding listed
listed_mem d [] h = cc
listed_mem d (e ∷ es) h = elim (Bool-cases (same_dimension e d)) [
  | inl p ↦ mem-cons.1 (Or.inl (sym ((same_dimension_iff e d).0 p)))
  | inr q ↦ mem-cons.1 (Or.inr (listed_mem d es (ground arith)))
]

mem_listed : (d : MediaDimension) (ds : List MediaDimension) → Mem d ds → listed d ds ≡ true
unfolding listed
mem_listed d [] m = absurd (not-mem-nil m)
mem_listed d (e ∷ es) m =
    Or.elim (Bool-set _ _) (mem-cons.0 m) (λ p. ground (arith, (same_dimension_iff e d).1 (sym p)))
      (λ q. ground (arith, mem_listed d es q))

supported_listed :
    (ds : List MediaDimension) (d : MediaDimension)
    → is_supported ds d ≡ true
    → (ds ≡ []) ⊎ Mem d ds
unfolding is_supported
supported_listed [] d h = inl refl
supported_listed (e ∷ es) d h = inr (listed_mem d (e ∷ es) h)

listed_supported :
    (ds : List MediaDimension) (d : MediaDimension)
    → (ds ≡ []) ⊎ Mem d ds
    → is_supported ds d ≡ true
unfolding is_supported
listed_supported [] d h = refl
listed_supported (e ∷ es) d (inl p) = cc
listed_supported (e ∷ es) d (inr m) = mem_listed d (e ∷ es) m

join_split : (n : ℕ) → n < 2 ^ 16 → join_bytes (n / 2 ^ 8 % 2 ^ 8) (n % 2 ^ 8) ≡ n
join_split n h = omega arith

split_high : (a b : ℕ) → a < 2 ^ 8 → b < 2 ^ 8 → join_bytes a b / 2 ^ 8 % 2 ^ 8 ≡ a
split_high a b ha hb = omega arith

split_low : (a b : ℕ) → a < 2 ^ 8 → b < 2 ^ 8 → join_bytes a b % 2 ^ 8 ≡ b
split_low a b ha hb = omega arith

-- The checks of the parser, made of the fields.
pub checked : MediaConfig → ℕ → ℕ → ℕ → ℕ → Outcome MediaProp
checked config b w h fps =
    if leb 2 b
    then thrown invalid_media_type
    else if is_supported config.dimensions (record { width = w; height = h })
    then (if is_video (type_of_byte b) && (fps == 0)
        then thrown fps_zero
        else if is_video (type_of_byte b) && ltb config.max_fps fps
        then thrown fps_too_big
        else returned (make_prop (type_of_byte b) w h fps))
    else thrown unsupported_dimension

-- What the parser does with six bytes in front of `rest`.
pub parse_six :
    (config : MediaConfig) (b0 b1 b2 b3 b4 b5 size : ℕ) (rest : List ℕ)
    → 6 ≤ size
    → parse_client_greeting left_first config (b0 ∷ b1 ∷ b2 ∷ b3 ∷ b4 ∷ b5 ∷ rest) size
      ≡ checked config b0 (join_bytes b1 b2) (join_bytes b3 b4) b5
unfolding parse_client_greeting checked
parse_six config b0 b1 b2 b3 b4 b5 size rest h = ground arith

parse_written :
    (config : MediaConfig) (t : MediaType) (w h fps : ℕ) (rest : List ℕ)
    → w < 2 ^ 16
    → h < 2 ^ 16
    → parse_client_greeting left_first config
        (make_client_greeting t w h fps ++ rest)
        (6 + length rest)
      ≡ checked config (type_to_byte t) w h fps
unfolding make_client_greeting
parse_written config t w h fps rest hw hh =
    parse_six config _ _ _ _ _ fps _ rest (omega arith) ∙ rw (join_split w hw, join_split h hh)

pub checked-Accepts :
    (config : MediaConfig) (b w h fps : ℕ) (p : MediaProp)
    → checked config b w h fps ≡ returned p
    → Accepts config (type_of_byte b) w h fps × (p ≡ make_prop (type_of_byte b) w h fps)
unfolding checked type_of_byte is_video
checked-Accepts config zero w h fps p e = (
  record { named = inl refl; sized = supported_listed _ _ (ground arith); paced = λ v. cc },
  ground arith,
)
checked-Accepts config (suc zero) w h fps p e = (
  record {
    named = inr refl;
    sized = supported_listed _ _ (ground arith);
    paced = λ v. ground arith;
  },
  ground arith,
)
checked-Accepts config (suc (suc b)) w h fps p e = ground arith

Accepts-checked :
    (config : MediaConfig) (t : MediaType) (w h fps : ℕ)
    → Accepts config t w h fps
    → checked config (type_to_byte t) w h fps ≡ returned (make_prop t w h fps)
unfolding checked type_of_byte type_to_byte is_video
Accepts-checked config image w h fps a =
    ground (arith, listed_supported config.dimensions (record { width = w; height = h }) a.sized)
Accepts-checked config video w h fps a = ground (
  arith,
  listed_supported config.dimensions (record { width = w; height = h }) a.sized,
  a.paced refl,
)
Accepts-checked config count_ w h fps a = ground (arith, a.named)
Accepts-checked config (unnamed n) w h fps a = ground (arith, a.named)

-- With the left operand of `|` evaluated first: a greeting as a client writes it, of a type that
-- one byte holds and of dimensions of 16 bits, with anything behind it, is parsed to what the
-- client meant exactly when the server accepts it.
pub parse-make_client_greeting :
    (config : MediaConfig) (t : MediaType) (w h fps : ℕ) (rest : List ℕ)
    → type_of_byte (type_to_byte t) ≡ t
    → w < 2 ^ 16
    → h < 2 ^ 16
    → (parse_client_greeting left_first config
          (make_client_greeting t w h fps ++ rest)
          (6 + length rest)
        ≡ returned (make_prop t w h fps))
      ↔ Accepts config t w h fps
parse-make_client_greeting config t w h fps rest b hw hh =
    rw (parse_written config t w h fps rest hw hh) (
      λ e. rw b at (checked-Accepts config (type_to_byte t) w h fps _ e).0,
      Accepts-checked config t w h fps,
    )

-- Of a buffer with fewer than six bytes nothing is parsed.
pub parse_short :
    (config : MediaConfig) (ptr : List ℕ) (size : ℕ) (p : MediaProp)
    → length ptr < 6
    → parse_client_greeting left_first config ptr size ≢ returned p
unfolding parse_client_greeting
parse_short config [] size p h = ground arith
parse_short config (b0 ∷ []) size p h = ground arith
parse_short config (b0 ∷ b1 ∷ []) size p h = ground arith
parse_short config (b0 ∷ b1 ∷ b2 ∷ []) size p h = ground arith
parse_short config (b0 ∷ b1 ∷ b2 ∷ b3 ∷ []) size p h = ground arith
parse_short config (b0 ∷ b1 ∷ b2 ∷ b3 ∷ b4 ∷ []) size p h = ground arith
parse_short config (b0 ∷ b1 ∷ b2 ∷ b3 ∷ b4 ∷ b5 ∷ rest) size p h = absurd (omega arith)

pub parse_small :
    (order : EvalOrder) (config : MediaConfig) (ptr : List ℕ) (size : ℕ)
    → size < 6
    → parse_client_greeting order config ptr size ≡ thrown too_few_bytes
unfolding parse_client_greeting
parse_small order config ptr size h = ground arith

named_byte :
    (b : ℕ)
    → (type_of_byte b ≡ image) ⊎ (type_of_byte b ≡ video)
    → (type_to_byte (type_of_byte b) ≡ b)
      × (type_of_byte (type_to_byte (type_of_byte b)) ≡ type_of_byte b)
unfolding type_to_byte type_of_byte
named_byte zero n = (refl, refl)
named_byte (suc zero) n = (refl, refl)
named_byte (suc (suc zero)) n = (refl, refl)
named_byte (suc (suc (suc b))) n = ground arith

pub get_type_made :
    (b w h fps : ℕ)
    → (type_of_byte b ≡ image) ⊎ (type_of_byte b ≡ video)
    → get_type (make_prop (type_of_byte b) w h fps) ≡ type_of_byte b
unfolding get_type make_prop
get_type_made b w h fps n = (named_byte b n).1

six_written :
    (b0 b1 b2 b3 b4 b5 : ℕ) (rest : List ℕ)
    → All (λ b. b < 2 ^ 8) (b0 ∷ b1 ∷ b2 ∷ b3 ∷ b4 ∷ b5 ∷ rest)
    → (type_of_byte b0 ≡ image) ⊎ (type_of_byte b0 ≡ video)
    → b0 ∷ b1 ∷ b2 ∷ b3 ∷ b4 ∷ b5 ∷ rest
      ≡ make_client_greeting (type_of_byte b0) (join_bytes b1 b2) (join_bytes b3 b4) b5 ++ rest
unfolding make_client_greeting
six_written b0 b1 b2 b3 b4 b5 rest bs n = cc (
  (named_byte b0 n).0,
  split_high b1 b2 bs.1.0 bs.1.1.0,
  split_low b1 b2 bs.1.0 bs.1.1.0,
  split_high b3 b4 bs.1.1.1.0 bs.1.1.1.1.0,
  split_low b3 b4 bs.1.1.1.0 bs.1.1.1.1.0,
)

-- With the left operand of `|` evaluated first, whatever bytes arrive: if the parser returns
-- properties, the first six bytes are the greeting of a client that means them, and the server
-- accepts that greeting.
pub parse_client_greeting-Accepts :
    (config : MediaConfig) (ptr : List ℕ) (size : ℕ) {p : MediaProp}
    → All (λ b. b < 2 ^ 8) ptr
    → parse_client_greeting left_first config ptr size ≡ returned p
    → Accepts config (get_type p) p.width p.height p.fps
      × ((rest : List ℕ) × (ptr ≡ make_client_greeting (get_type p) p.width p.height p.fps ++ rest))
unfolding make_prop
parse_client_greeting-Accepts config (b0 ∷ b1 ∷ b2 ∷ b3 ∷ b4 ∷ b5 ∷ rest) size {p} bs e =
    let big : 6 ≤ size =
      ground (arith, parse_small left_first config (b0 ∷ b1 ∷ b2 ∷ b3 ∷ b4 ∷ b5 ∷ rest) size) in
    let c =
      checked-Accepts config b0 (join_bytes b1 b2) (join_bytes b3 b4) b5 p
        (sym (parse_six config b0 b1 b2 b3 b4 b5 size rest big) ∙ e) in
    rw (c.1, get_type_made b0 _ _ b5 c.0.named)
      (c.0, (rest, six_written b0 b1 b2 b3 b4 b5 rest bs c.0.named))
parse_client_greeting-Accepts config ptr size bs e =
    absurd (parse_short config ptr size _ (omega arith) e)

-- With either order of evaluation the parser reads no byte outside its buffer, where the size that
-- it is given is at most that of the buffer.
pub parse_client_greeting-ne-aborted :
    (order : EvalOrder) (config : MediaConfig) (ptr : List ℕ) (size : ℕ)
    → size ≤ length ptr
    → parse_client_greeting order config ptr size ≢ aborted
unfolding parse_client_greeting
parse_client_greeting-ne-aborted order config (b0 ∷ b1 ∷ b2 ∷ b3 ∷ b4 ∷ b5 ∷ rest) size h =
    elim order
      as (λ o. parse_client_greeting o config (b0 ∷ b1 ∷ b2 ∷ b3 ∷ b4 ∷ b5 ∷ rest) size ≢ aborted) [
        | left_first ↦ ground arith
        | right_first ↦ ground arith
      ]
parse_client_greeting-ne-aborted order config ptr size h =
    rw (parse_small order config ptr size (omega arith)) (λ e. cc)

-- A compiler that evaluates the right operand of `|` first swaps the two bytes of each dimension,
-- in every buffer of at least six bytes.
pub parse_right_first :
    (config : MediaConfig) (b0 b1 b2 b3 b4 b5 size : ℕ) (rest : List ℕ)
    → parse_client_greeting right_first config (b0 ∷ b1 ∷ b2 ∷ b3 ∷ b4 ∷ b5 ∷ rest) size
      ≡ parse_client_greeting left_first config (b0 ∷ b2 ∷ b1 ∷ b4 ∷ b3 ∷ b5 ∷ rest) size
unfolding parse_client_greeting
parse_right_first config b0 b1 b2 b3 b4 b5 size rest = ground arith
