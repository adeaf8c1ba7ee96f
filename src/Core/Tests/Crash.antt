-- ===== src/Core/Tests/Crash.antt =====
-- A crash after two messages, casts, and hashes.
use hyperion_server.Common.{ℕ, ◌+◌, ◌≡◌, ◌⊎◌, refl, true, false, none, some, [], ◌∷◌, ◌++◌, arith}
use hyperion_server.Common.Int.{negsuc}
use hyperion_server.Common.Text.{codes}
use hyperion_server.Common.Exec.{returned, aborted}
use hyperion_server.Core.Filesystem.{resolve_path, read_file}
use hyperion_server.Core.Logger.{Logged}
use hyperion_server.Core.Logger.Stream.{Output, open_log_file, log_file_name}
use hyperion_server.Core.Logger.Stream.Written
use hyperion_server.Core.CrashHandler.{Signals, Trace, posix, signal_line, signal_crash_handler}
use hyperion_server.Core.CrashHandler.Report
use hyperion_server.Core.Convert.{IntType, Fits, half, safe_cast}
use hyperion_server.Core.Convert.Exact
use hyperion_server.Core.Hashers.Collisions

abbrev out : Output
out = record {
  files = [];
  log_file = record { path = none; is_good = true };
  console = [];
  error_output = [];
}

-- The numbers of Linux.
abbrev signals : Signals
signals = record { sigabrt = 6; sigsegv = 11; sigill = 4; sigfpe = 8 }

abbrev trace : Trace
trace = posix (codes "#1 main (coloured)\n") (codes "#1 main\n")

abbrev hello : Logged
hello = record { console = codes "hi\n"; file = codes "hello\n" }

signal_crash_handler-HasPut_example :
    ((signal_crash_handler signals (codes "/bin") true trace 11 out).0 ≡ returned 11)
    × Written.HasPut
        (resolve_path (codes "/bin") log_file_name)
        (Report.report (signal_line signals 11) (codes "#1 main\n"))
        []
        (Report.report (signal_line signals 11) (codes "#1 main (coloured)\n"))
        out
        (signal_crash_handler signals (codes "/bin") true trace 11 out).1
signal_crash_handler-HasPut_example =
    Report.signal_crash_handler-HasPut signals (codes "/bin") trace 11 out

write_all-signal_crash_handler_example :
    read_file
      (signal_crash_handler signals (codes "/bin") true trace 11 (
        Written.write_all
          (some hello ∷ none ∷ some hello ∷ [])
          (open_log_file (codes "/bin") true out))).1.files
      (resolve_path (codes "/bin") log_file_name)
    ≡ codes "hello\nhello\n" ++ Report.report (signal_line signals 11) (codes "#1 main\n")
write_all-signal_crash_handler_example =
    Report.write_all-signal_crash_handler signals (codes "/bin") trace 11
      (some hello ∷ none ∷ some hello ∷ []) out refl

logged_lines :
    (read_file
        (Written.write_all (some hello ∷ none ∷ []) (open_log_file (codes "/bin") true out)).files
        (resolve_path (codes "/bin") log_file_name)
      ≡ codes "hello\n")
    × ((Written.write_all (some hello ∷ none ∷ []) (open_log_file (codes "/bin") true out)).console
        ≡ codes "hi\n")
logged_lines = Written.open_log_file-write_all (codes "/bin") (some hello ∷ none ∷ []) out refl

abbrev int16_type : IntType
int16_type = record { is_signed = true; bits = 15 }

abbrev uint8_type : IntType
uint8_type = record { is_signed = false; bits = 7 }

-- -1 is no `uint8_t`.
safe_cast_lem_example :
    (Fits false (half uint8_type) (negsuc 0)
      × (safe_cast int16_type uint8_type (negsuc 0) ≡ returned (negsuc 0)))
    ⊎ ((¬ Fits false (half uint8_type) (negsuc 0))
        × (safe_cast int16_type uint8_type (negsuc 0) ≡ aborted))
safe_cast_lem_example = Exact.safe_cast_lem int16_type uint8_type (negsuc 0) (omega arith)

-- The hash of the component 2 is 7 in both tuples.
abbrev hashes : ℕ → ℕ
hashes i = i + 5

same_hashes : hashes 2 ≡ hashes 2
same_hashes =
    Collisions.hash_tuple_last 2 hashes hashes (λ i l. refl) (omega arith) (omega arith) refl
