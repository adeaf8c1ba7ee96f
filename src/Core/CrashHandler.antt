-- ===== src/Core/CrashHandler.antt =====
-- src/core/crash_handler.cpp: the report of a crash. The numbers of the signals, the answer
-- of `fopen`, and the text of a stack trace are arguments.
pub mod Report
use hyperion_server.Common.{ℕ, Bool, Option, none, some, List, [], ◌∷◌, ◌++◌, ◌==◌, if◌then◌else◌}
use hyperion_server.Common.Text.{Text, codes}
use hyperion_server.Common.Digits.{to_string}
use hyperion_server.Common.Exec.{Exec, pure, modify, assert, ◌>>=◌, ◌>>◌}
use hyperion_server.Core.Filesystem.{resolve_path}
use hyperion_server.Core.Logger.Stream.{Output, append_file, close_log_file, log_file_name}

-- `SIGABRT`, `SIGSEGV`, `SIGILL` and `SIGFPE`.
pub record Signals : Type 0 where
  pub sigabrt : ℕ
  pub sigsegv : ℕ
  pub sigill : ℕ
  pub sigfpe : ℕ

-- The `switch` of `SignalCrashHandler`; `none` is the null pointer.
unfoldable pub signal_name : Signals → ℕ → Option Text
signal_name signals signum =
    if signum == signals.sigabrt
    then some (codes "SIGABRT")
    else if signum == signals.sigsegv
    then some (codes "SIGSEGV")
    else if signum == signals.sigill
    then some (codes "SIGILL")
    else if signum == signals.sigfpe
    then some (codes "SIGFPE")
    else none

-- What the program is built for, with the stack trace of the crash: what `StackWalker` outputs line
-- by line, or what `Printer` prints with colours and without; another compiler on Windows prints none.
pub data Trace : Type 0 where
  msvc : List Text → Trace
  posix : Text → Text → Trace
  no_trace : Trace

abbrev pub crash_contact_info : Text
crash_contact_info = codes "https://github.com/Team-Hyperion/Hyperion-server"

abbrev pub print_error : Text → Output → Output
print_error text out = record out { error_output = out.error_output ++ text }

-- `CRASH_LOG_MESSAGE`; the first argument is the path that `file` is open on.
unfoldable pub crash_log_message : Text → Text → Output → Output
crash_log_message path text out =
    print_error text (record out { files = append_file path text out.files })

-- `CRASH_OPEN_LOG_FILE`. Where `fopen` gives the null pointer, the first `fprintf` to it is undefined.
unfoldable pub crash_open_log_file : Text → Bool → Exec Output Text
unfolding crash_log_message ◌>>=◌
crash_open_log_file directory opens = do
  modify close_log_file
  let path = resolve_path directory log_file_name
  assert opens
  modify (crash_log_message path (codes "\n\nHyperion server crashed\n"))
  modify
      (crash_log_message path (codes "Below contains debug information related to the crash\n\n"))
  pure path

-- `HyperionStackWalker::OnOutput`, for each line.
unfoldable pub show_callstack : Text → List Text → Output → Output
unfolding crash_log_message
show_callstack path [] out = out
show_callstack path (line ∷ lines) out = show_callstack path lines (crash_log_message path line out)

unfoldable pub print_trace : Text → Trace → Output → Output
unfolding show_callstack
print_trace path (msvc lines) out = show_callstack path lines out
print_trace path (posix coloured plain) out =
    let printed = print_error coloured out in
    record printed { files = append_file path plain printed.files }
print_trace path no_trace out = out

-- `PrintStackTrace`
unfoldable pub print_stack_trace : Text → Trace → Output → Output
unfolding crash_log_message print_trace
print_stack_trace path trace out =
    crash_log_message path
      (codes "\n\nPlease report this with the current log at "
        ++ (crash_contact_info ++ codes "\n"))
      (print_trace path trace (crash_log_message path (codes "\nStacktrace: \n") out))

unfoldable pub signal_line : Signals → ℕ → Text
unfolding signal_name
signal_line signals signum = elim (signal_name signals signum) [
  | none ↦ codes "Signal " ++ (to_string signum ++ codes "\n")
  | some name ↦ codes "Signal " ++ (to_string signum ++ (codes " (" ++ (name ++ codes ")\n")))
]

-- `SignalCrashHandler`; the result is the code that it gives to `exit`.
unfoldable pub signal_crash_handler : Signals → Text → Bool → Trace → ℕ → Exec Output ℕ
unfolding crash_open_log_file signal_line print_stack_trace ◌>>=◌
signal_crash_handler signals directory opens trace signum = do
  path ← crash_open_log_file directory opens
  modify (crash_log_message path (signal_line signals signum))
  modify (print_stack_trace path trace)
  pure signum

-- `TopLevelExceptionHandler`, with the exception's code in hexadecimal.
unfoldable pub top_level_exception_handler : Text → Bool → List Text → Text → Exec Output (Unit {0})
unfolding crash_open_log_file print_stack_trace ◌>>=◌
top_level_exception_handler directory opens lines exception_code = do
  path ← crash_open_log_file directory opens
  modify (crash_log_message path (exception_code ++ codes "\n"))
  modify (print_stack_trace path (msvc lines))

-- What a signal does.
pub data Handler : Type 0 where
  default_action handled : Handler

-- `signal`: what happens on each signal, by its number.
abbrev pub handle_signal : ℕ → (ℕ → Handler) → ℕ → Handler
handle_signal signum handlers n = if n == signum then handled else handlers n

-- `RegisterCrashHandler`
unfoldable pub register_crash_handler : Signals → (ℕ → Handler) → ℕ → Handler
register_crash_handler signals handlers = handle_signal signals.sigfpe (
    handle_signal signals.sigill
      (handle_signal signals.sigsegv (handle_signal signals.sigabrt handlers)))
