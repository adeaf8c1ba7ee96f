-- ===== src/Core/Logger.antt =====
-- include/core/logger.h, src/core/logger.cpp and include/net/logger.h: which messages are logged,
-- and how much of them. What `printf` makes of the arguments, and the time, are texts.
pub mod Bounds
pub mod Stream
use hyperion_server.Common.{
  ℕ, ◌+◌, ◌-◌, Option, none, some, ◌++◌, List, [], ◌∷◌, leb, if◌then◌else◌,
}
use hyperion_server.Common.Text.{Text, codes}
use hyperion_server.Common.Digits.{to_string}
use hyperion_server.Net.Props.{ErrorCode, operation_aborted}
use hyperion_server.Core.Utility.{take}

abbrev pub max_log_msg_length : ℕ
max_log_msg_length = 1000

pub data LogSeverity : Type 0 where
  debug info warning error critical : LogSeverity

abbrev pub severity_rank : LogSeverity → ℕ
severity_rank debug = 0
severity_rank info = 1
severity_rank warning = 2
severity_rank error = 3
severity_rank critical = 4

-- The default branches of this `switch` and of the next are for values outside the enumeration.
unfoldable pub log_severity_str : LogSeverity → Text
log_severity_str debug = codes "Debug   "
log_severity_str info = codes "Info    "
log_severity_str warning = codes "Warning "
log_severity_str error = codes "ERROR   "
log_severity_str critical = codes "CRITICAL"

-- The escape character and its arguments stand before the name.
abbrev colour : Text → Text
colour code = 27 ∷ code

unfoldable pub log_severity_str_colored : LogSeverity → Text
log_severity_str_colored debug = colour (codes "[1;90mDebug   ")
log_severity_str_colored info = codes "Info    "
log_severity_str_colored warning = colour (codes "[1;33mWarning ")
log_severity_str_colored error = colour (codes "[1;31mERROR   ")
log_severity_str_colored critical = colour (codes "[1;31mCRITICAL")

-- `snprintf(s, n, …)`: the last of the `n` characters is the terminator.
abbrev pub snprintf : ℕ → Text → Text
snprintf n text = take (n - 1) text

-- `sizeof(kLogFmt)`
abbrev pub log_fmt_size : ℕ
log_fmt_size = 21

-- What `kLogFmt` makes of its arguments; `time` is what `%10.3f` makes of the time.
unfoldable pub log_format : Text → Text → Text → ℕ → Text → Text
log_format time severity group line message =
    time
    ++ (codes " "
        ++ (severity
            ++ (codes " ["
                ++ (group ++ (codes ":" ++ (to_string line ++ (codes "] " ++ message)))))))

-- What a call of `LogMessage` writes to the console and to the file.
pub record Logged : Type 0 where
  pub console : Text
  pub file : Text

unfoldable pub log_message : Text → LogSeverity → Text → ℕ → Text → Logged
unfolding log_format log_severity_str log_severity_str_colored
log_message time severity group line message = record {
  console =
      snprintf (max_log_msg_length + log_fmt_size)
        (log_format time (log_severity_str_colored severity) group line message)
      ++ 27 ∷ codes "[0m\n";
  file =
      snprintf (max_log_msg_length + log_fmt_size)
        (log_format time (log_severity_str severity) group line message)
      ++ codes "\n";
}

-- `MakeLogMessage`, of what the format makes of the arguments.
unfoldable pub make_log_message : ℕ → Text → LogSeverity → Text → ℕ → Text → Option Logged
make_log_message level time severity file line text =
    if leb level (severity_rank severity)
    then some (log_message time severity file line (snprintf max_log_msg_length text))
    else none

-- `NET_LOG`: an operation that was aborted is no error.
unfoldable pub net_log_severity : ErrorCode → LogSeverity
net_log_severity operation_aborted = debug
net_log_severity _ = error
