-- ===== src/Core/Tests.antt =====
-- The functions of core, run.
mod Locks
mod Crash
use hyperion_server.Common.{◌≡◌, ◌++◌, refl, arith, false}
use hyperion_server.Common.Text.{codes}
use hyperion_server.Core.Utility.{is_trim_char, str_trim, str_match_len, str_to_lower, str_to_upper}
use hyperion_server.Core.Utility.Trim
use hyperion_server.Core.Filesystem.{resolve_path, set_executing_directory}
use hyperion_server.Core.Filesystem.Directory
use hyperion_server.Core.Logger.{log_message, log_format}
use hyperion_server.Core.Logger.Bounds

trimmed : str_trim (codes "  a b ") (codes " ") ≡ codes "a b"
unfolding str_trim
trimmed = refl

str_trim-IsTrimOf_example :
    Trim.IsTrimOf
      (is_trim_char (codes " "))
      (codes "  a b ")
      (str_trim (codes "  a b ") (codes " "))
str_trim-IsTrimOf_example = Trim.str_trim-IsTrimOf (codes "  a b ") (codes " ")

padded : str_match_len (codes "ab") 4 b'.' ≡ codes "ab" ++ Trim.replicate 2 b'.'
padded = Trim.str_match_len-replicate (codes "ab") 4 b'.'

upper_lower : str_to_upper (str_to_lower (codes "aB1")) ≡ str_to_upper (codes "aB1")
upper_lower = Trim.str_to_upper-str_to_lower (codes "aB1")

resolved_log :
    resolve_path (set_executing_directory false (codes "/bin/x")) (codes "log.txt")
    ≡ codes "/bin" ++ (codes "/" ++ codes "log.txt")
resolved_log =
    Directory.resolve_path-set_executing_directory (codes "/bin") (codes "x") (codes "log.txt")
      (ground arith)

resolve_path-NoSlash_example :
    resolve_path (set_executing_directory false (codes "x")) (codes "log.txt")
    ≡ codes "/" ++ codes "log.txt"
resolve_path-NoSlash_example =
    Directory.resolve_path-NoSlash (codes "x") (codes "log.txt") (ground arith)
