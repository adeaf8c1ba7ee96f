-- ===== src/Core/Filesystem.antt =====
-- src/core/filesystem.cpp: the executing directory and the paths in it.
pub mod Directory
use hyperion_server.Common.{
  ℕ, zero, suc, Bool, true, false, Option, none, some, ◌++◌, List, [], ◌∷◌, ◌==◌, if◌then◌else◌,
  length,
}
use hyperion_server.Common.Text.{Text, codes}
use hyperion_server.Media.Save.{Files, contents}
use hyperion_server.Core.Utility.{char_at, take, map_text}

abbrev is_slash : Text → ℕ → Bool
is_slash path i = char_at path i == b'/'

-- The loop from `i` down to the last slash; `none` is the index that went below 0.
unfoldable pub last_slash : Text → ℕ → Option ℕ
last_slash path zero = if is_slash path zero then some zero else none
last_slash path (suc i) =
    let rest = last_slash path i in if is_slash path (suc i) then some (suc i) else rest

abbrev pub or_zero : Option ℕ → ℕ
or_zero none = 0
or_zero (some i) = i

-- Where the program is built for Windows, a backslash becomes a slash.
unfoldable pub convert_slashes : Bool → Text → Text
convert_slashes true path = map_text (λ c. if c == b'\\' then b'/' else c) path
convert_slashes false path = path

-- `SetExecutingDirectory`, with the new `executing_directory` as its result.
unfoldable pub set_executing_directory : Bool → Text → Text
unfolding convert_slashes last_slash
set_executing_directory win32 directory =
    let path = convert_slashes win32 directory in
    take (or_zero (last_slash path (length path))) path

-- `ResolvePath`; the first argument is `executing_directory`.
unfoldable pub resolve_path : Text → Text → Text
resolve_path executing_directory path = executing_directory ++ (codes "/" ++ path)

abbrev or_empty : Option (List ℕ) → Text
or_empty none = []
or_empty (some bytes) = bytes

-- `ReadFile`: the stream of a missing file has no bytes.
unfoldable pub read_file : Files → Text → Text
read_file files path = or_empty (contents files path)
