-- ===== src/Core/Logger/Stream.antt =====
-- src/core/logger.cpp: `log_file`, the stream that the messages go to, and `std::cout`.
pub mod Written
use hyperion_server.Common.{Bool, true, false, Option, none, some, [], ◌++◌, if◌then◌else◌}
use hyperion_server.Common.Text.{Text, codes}
use hyperion_server.Media.Save.{Files, put_file}
use hyperion_server.Core.Filesystem.{resolve_path, read_file}
use hyperion_server.Core.Logger.{Logged}

abbrev pub log_file_name : Text
log_file_name = codes "log.txt"

-- `std::ofstream`: the file that it is open on, and whether no call has failed since it was opened.
pub record Stream : Type 0 where
  pub path : Option Text
  pub is_good : Bool

-- What the process has written, and where; `error_output` is `stderr`.
pub record Output : Type 0 where
  pub files : Files
  pub log_file : Stream
  pub console : Text
  pub error_output : Text

abbrev pub append_file : Text → Text → Files → Files
append_file path text files = put_file path (read_file files path ++ text) files

-- `OpenLogFile`: a stream that is open already fails and keeps its file. The arguments are the
-- executing directory, and whether the system opens the file.
unfoldable pub open_log_file : Text → Bool → Output → Output
open_log_file directory opens out = elim (out.log_file.path) [
  | some path ↦ record out { log_file = record { path = some path; is_good = false } }
  | none ↦
      let path = resolve_path directory log_file_name in
      if opens
      then record out {
        files = put_file path [] out.files;
        log_file = record { path = some path; is_good = true };
      }
      else record out { log_file = record { path = none; is_good = false } }
]

-- `CloseLogFile`
unfoldable pub close_log_file : Output → Output
close_log_file out = elim (out.log_file.path) [
  | none ↦ out
  | some path ↦ record out { log_file = record out.log_file { path = none } }
]

-- `log_file << text`: a stream that has failed, or that is not open, takes nothing.
unfoldable pub write_log_file : Text → Output → Output
write_log_file text out = elim (out.log_file.path) [
  | none ↦ record out { log_file = record out.log_file { is_good = false } }
  | some path ↦
      if out.log_file.is_good then record out { files = append_file path text out.files } else out
]

-- The writes of `LogMessage`, of what it makes of its arguments.
unfoldable pub write_message : Logged → Output → Output
unfolding write_log_file
write_message message out =
    write_log_file message.file (record out { console = out.console ++ message.console })

-- A call of `MakeLogMessage`, of what `make_log_message` gives for it: below the level it is nothing.
abbrev pub write_made : Option Logged → Output → Output
write_made none out = out
write_made (some message) out = write_message message out
