-- ===== src/Core/Filesystem/Directory.antt =====
-- The directory that the program runs in.
use hyperion_server.Common.{
  ℕ, zero, suc, ◌+◌, ◌≡◌, ◌≢◌, refl, ap, false, none, some, ◌++◌, [], ◌∷◌, length, All, ◌==◌, arith,
  length-append,
}
use hyperion_server.Common.Text.{Text, codes}
use hyperion_server.Core.Utility.{char_at, take}
use hyperion_server.Core.Filesystem.{
  last_slash, convert_slashes, set_executing_directory, resolve_path,
}

-- Names without a slash.
abbrev pub NoSlash : Text → Type 0
NoSlash name = All (λ c. c ≢ b'/') name

char_at_name : (name : Text) (i : ℕ) → NoSlash name → (char_at name i == b'/') ≡ false
char_at_name [] i h = refl
char_at_name (c ∷ name) zero h = let n = h.0 in ground arith
char_at_name (c ∷ name) (suc i) h = char_at_name name i h.1

char_at_slash : (dir name : Text) → char_at (dir ++ b'/' ∷ name) (length dir) ≡ b'/'
char_at_slash [] name = refl
char_at_slash (c ∷ dir) name = char_at_slash dir name

char_at_after :
    (dir name : Text) (i : ℕ) → char_at (dir ++ b'/' ∷ name) (suc (length dir + i)) ≡ char_at name i
char_at_after [] name i = ap (char_at name) (omega arith)
char_at_after (c ∷ dir) name i =
    let next : suc (length dir) + i ≡ suc (length dir + i) = omega arith in
    rw next (char_at_after dir name i)

take-append : (dir rest : Text) → take (length dir) (dir ++ rest) ≡ dir
take-append [] rest = refl
take-append (c ∷ dir) rest = ap (λ s. c ∷ s) (take-append dir rest)

no_last_slash : (name : Text) (i : ℕ) → NoSlash name → last_slash name i ≡ none
unfolding last_slash
no_last_slash name zero h = rw (char_at_name name zero h) refl
no_last_slash name (suc i) h = rw (char_at_name name (suc i) h) (no_last_slash name i h)

at_last_slash : (path : Text) (i : ℕ) → char_at path i ≡ b'/' → last_slash path i ≡ some i
unfolding last_slash
at_last_slash path zero e = rw e refl
at_last_slash path (suc i) e = rw e refl

found_last_slash :
    (dir name : Text) (i : ℕ)
    → NoSlash name
    → last_slash (dir ++ b'/' ∷ name) (length dir + i) ≡ some (length dir)
unfolding last_slash
found_last_slash dir name zero h =
    let here : length dir + 0 ≡ length dir = omega arith in
    rw here (at_last_slash (dir ++ b'/' ∷ name) (length dir) (char_at_slash dir name))
found_last_slash dir name (suc i) h =
    let next : length dir + suc i ≡ suc (length dir + i) = omega arith in
    rw next (rw (char_at_after dir name i, char_at_name name i h) (found_last_slash dir name i h))

-- Not built for Windows, and with the path of the program as its argument, the server looks for
-- its files beside the program: a path is resolved in the directory that stands before the last
-- slash.
pub resolve_path-set_executing_directory :
    (dir name path : Text)
    → NoSlash name
    → resolve_path (set_executing_directory false (dir ++ b'/' ∷ name)) path
      ≡ dir ++ (codes "/" ++ path)
unfolding resolve_path set_executing_directory convert_slashes
resolve_path-set_executing_directory dir name path h =
    let size : length (dir ++ b'/' ∷ name) ≡ length dir + suc (length name) =
      length-append dir (b'/' ∷ name) in
    rw size (
      rw (found_last_slash dir name (suc (length name)) h)
        (rw (take-append dir (b'/' ∷ name)) refl))

-- Not built for Windows, and started by a name without a slash, the server resolves every path in
-- the root.
pub resolve_path-NoSlash :
    (name path : Text)
    → NoSlash name
    → resolve_path (set_executing_directory false name) path ≡ codes "/" ++ path
unfolding resolve_path set_executing_directory convert_slashes
resolve_path-NoSlash name path h = rw (no_last_slash name (length name) h) refl
