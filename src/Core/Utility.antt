-- ===== src/Core/Utility.antt =====
-- src/core/utility.cpp, in the "C" locale.
pub mod Slices
pub mod Trim
use hyperion_server.Common.{
  ℕ, zero, suc, ◌+◌, ◌-◌, Bool, true, false, ◌&&◌, ◌||◌, Option, none, some, List, [], ◌∷◌, ◌++◌,
  ltb, leb, ◌==◌, if◌then◌else◌, get_elem?, length,
}
use hyperion_server.Common.Text.{Text, is_empty}

abbrev or_nul : Option ℕ → ℕ
or_nul none = 0
or_nul (some c) = c

-- `str[i]`; at the size of the string stands its terminator.
abbrev pub char_at : Text → ℕ → ℕ
char_at str i = or_nul (get_elem? str i)

abbrev pub take : ℕ → Text → Text
take zero str = []
take (suc n) [] = []
take (suc n) (c ∷ str) = c ∷ take n str

abbrev pub drop : ℕ → Text → Text
drop zero str = str
drop (suc n) [] = []
drop (suc n) (c ∷ str) = drop n str

abbrev pub map_text : (ℕ → ℕ) → Text → Text
map_text f [] = []
map_text f (c ∷ str) = f c ∷ map_text f str

abbrev pub to_lower : ℕ → ℕ
to_lower c = if leb b'A' c && leb c b'Z' then c + 32 else c

abbrev pub to_upper : ℕ → ℕ
to_upper c = if leb b'a' c && leb c b'z' then c - 32 else c

unfoldable pub str_to_lower : Text → Text
str_to_lower str = map_text to_lower str

unfoldable pub str_to_upper : Text → Text
str_to_upper str = map_text to_upper str

unfoldable pub is_trim_char : List ℕ → ℕ → Bool
is_trim_char [] c = false
is_trim_char (d ∷ chars) c = let rest = is_trim_char chars c in (d == c) || rest

-- The first loop, from `str_start` on; there are at most as many rounds as characters.
unfoldable pub trim_start : (ℕ → Bool) → Text → ℕ → ℕ → ℕ
trim_start is_trim str zero str_start = str_start
trim_start is_trim str (suc fuel) str_start =
    let rest = trim_start is_trim str fuel (str_start + 1) in
    if is_trim (char_at str str_start) && ltb str_start (length str) then rest else str_start

-- The second loop, from `str_end` down.
unfoldable pub trim_end : (ℕ → Bool) → Text → ℕ → ℕ
trim_end is_trim str zero = zero
trim_end is_trim str (suc str_end) =
    let rest = trim_end is_trim str str_end in
    if is_trim (char_at str (suc str_end)) then rest else suc str_end

unfoldable pub trim_trailing : (ℕ → Bool) → Text → Text
unfolding trim_end
trim_trailing is_trim str =
    if is_empty str then str else take (trim_end is_trim str (length str - 1) + 1) str

unfoldable pub str_trim : Text → List ℕ → Text
unfolding is_trim_char trim_start trim_trailing
str_trim str chars =
    trim_trailing (is_trim_char chars)
      (drop (trim_start (is_trim_char chars) str (length str) 0) str)

unfoldable pub str_trim_whitespace : Text → Text
unfolding str_trim
str_trim_whitespace str = str_trim str (b' ' ∷ 0 ∷ [])

-- The loop of `StrMatchLen`; there are at most `target_len` rounds.
unfoldable pub pad_to : ℕ → ℕ → ℕ → Text → Text
pad_to zero target_len padding str = str
pad_to (suc fuel) target_len padding str =
    let rest = pad_to fuel target_len padding (str ++ padding ∷ []) in
    if ltb (length str) target_len then rest else str

unfoldable pub str_match_len : Text → ℕ → ℕ → Text
unfolding pad_to
str_match_len str target_len padding = pad_to target_len target_len padding str
