-- ===== src/Core/CrashHandler/Report.antt =====
-- What a crash leaves in the log file and on `stderr`.
use hyperion_server.Common.{
  ℕ, ◌≡◌, refl, ap, ◌∙◌, true, Option, none, some, List, [], ◌∷◌, ◌++◌, arith,
}
use hyperion_server.Common.Text.{Text, codes}
use hyperion_server.Common.Exec.{returned, ◌>>=◌}
use hyperion_server.Media.Save.{contents}
use hyperion_server.Core.Filesystem.{resolve_path, read_file}
use hyperion_server.Core.Logger.{Logged}
use hyperion_server.Core.Logger.Stream.{Output, log_file_name, open_log_file, close_log_file}
use hyperion_server.Core.Logger.Stream.Written.{
  closed, HasPut, HasPut-refl, HasPut-trans, append_file-HasPut, write_all, file_lines,
  open_log_file-write_all,
}
use hyperion_server.Core.CrashHandler.{
  Signals, signal_name, Trace, msvc, posix, no_trace, crash_contact_info, crash_log_message,
  crash_open_log_file, show_callstack, print_trace, print_stack_trace, signal_line,
  signal_crash_handler, Handler, handled, register_crash_handler,
}

abbrev pub concat : List Text → Text
concat [] = []
concat (t ∷ ts) = t ++ concat ts

crash_log_message-HasPut :
    (path text : Text) (out : Output)
    → HasPut path text [] text out (crash_log_message path text out)
unfolding crash_log_message
crash_log_message-HasPut path text out =
    let h = append_file-HasPut path text out in
    record { holds = h.holds; shows = h.shows; reports = refl; others = h.others }

-- A trace as it is in the log file, and on `stderr`.
abbrev pub trace_file : Trace → Text
trace_file (msvc lines) = concat lines
trace_file (posix coloured plain) = plain
trace_file no_trace = []

abbrev pub trace_error : Trace → Text
trace_error (msvc lines) = concat lines
trace_error (posix coloured plain) = coloured
trace_error no_trace = []

show_callstack-HasPut :
    (path : Text) (lines : List Text) (out : Output)
    → HasPut path (concat lines) [] (concat lines) out (show_callstack path lines out)
unfolding show_callstack
show_callstack-HasPut path [] out = HasPut-refl path out
show_callstack-HasPut path (line ∷ lines) out =
    HasPut-trans (crash_log_message-HasPut path line out)
      (show_callstack-HasPut path lines (crash_log_message path line out))

print_trace-HasPut :
    (path : Text) (trace : Trace) (out : Output)
    → HasPut path (trace_file trace) [] (trace_error trace) out (print_trace path trace out)
unfolding print_trace
print_trace-HasPut path (msvc lines) out = show_callstack-HasPut path lines out
print_trace-HasPut path (posix coloured plain) out =
    let h = append_file-HasPut path plain out in
    record { holds = h.holds; shows = h.shows; reports = refl; others = h.others }
print_trace-HasPut path no_trace out = HasPut-refl path out

-- Where to report a crash.
abbrev pub contact : Text
contact =
    codes "\n\nPlease report this with the current log at " ++ (crash_contact_info ++ codes "\n")

abbrev pub header : Text
header =
    codes "\n\nHyperion server crashed\n"
    ++ codes "Below contains debug information related to the crash\n\n"

abbrev pub traced : Text → Text → Text
traced text trace = ((text ++ codes "\nStacktrace: \n") ++ trace) ++ contact

-- A report, with the line of the signal or of the exception, and a trace.
abbrev pub report : Text → Text → Text
report line trace = traced (header ++ line) trace

print_stack_trace-HasPut :
    {text errors : Text} {a b : Output} (path : Text) (trace : Trace)
    → HasPut path text [] errors a b
    → HasPut path
        (traced text (trace_file trace))
        []
        (traced errors (trace_error trace))
        a
        (print_stack_trace path trace b)
unfolding print_stack_trace
print_stack_trace-HasPut {b} path trace h =
    let start = HasPut-trans h (crash_log_message-HasPut path (codes "\nStacktrace: \n") b) in
    HasPut-trans (HasPut-trans start (print_trace-HasPut path trace _))
      (crash_log_message-HasPut path contact _)

close_log_file-HasPut : (path : Text) (out : Output) → HasPut path [] [] [] out (close_log_file out)
close_log_file-HasPut path out =
    let (_, files, console, errors) = closed out in
    let h = HasPut-refl path out in
    record {
      holds = ap (λ f. read_file f path) files ∙ h.holds;
      shows = console ∙ h.shows;
      reports = errors ∙ h.reports;
      others = λ p n. ap (λ f. contents f p) files;
    }

-- `CRASH_OPEN_LOG_FILE`, where `fopen` opens, and the line after it.
started-HasPut :
    (directory line : Text) (out : Output)
    → let path = resolve_path directory log_file_name in
      ((crash_open_log_file directory true out).0 ≡ returned path)
      × HasPut path
          (header ++ line)
          []
          (header ++ line)
          out
          (crash_log_message path line (crash_open_log_file directory true out).1)
unfolding crash_open_log_file ◌>>=◌
started-HasPut directory line out =
    let path = resolve_path directory log_file_name in
    let put = crash_log_message-HasPut path in
    (
      refl,
      HasPut-trans
          (HasPut-trans (HasPut-trans (close_log_file-HasPut path out) (put _ _)) (put _ _))
          (put line _),
    )

-- Where `log.txt` opens, a signal that is handled exits with its number, and puts the whole
-- report, with the line of the signal, behind what is in the log file and on `stderr`, each with
-- its own form of the stack trace. The console and all other files stay as they were.
pub signal_crash_handler-HasPut :
    (signals : Signals) (directory : Text) (trace : Trace) (signum : ℕ) (out : Output)
    → let line = signal_line signals signum in
      ((signal_crash_handler signals directory true trace signum out).0 ≡ returned signum)
      × HasPut
          (resolve_path directory log_file_name)
          (report line (trace_file trace))
          []
          (report line (trace_error trace))
          out
          (signal_crash_handler signals directory true trace signum out).1
unfolding signal_crash_handler crash_open_log_file ◌>>=◌
signal_crash_handler-HasPut signals directory trace signum out =
    let path = resolve_path directory log_file_name in
    let (_, h) = started-HasPut directory (signal_line signals signum) out in
    (refl, print_stack_trace-HasPut path trace h)

-- Where the log file was not open and `log.txt` opens for the logger and for the handler, messages
-- and then a crash leave in it the lines of the messages in their order, and then the whole
-- report.
pub write_all-signal_crash_handler :
    (signals : Signals) (directory : Text) (trace : Trace) (signum : ℕ)
    → (messages : List (Option Logged)) (out : Output) → out.log_file.path ≡ none
    → let logged = write_all messages (open_log_file directory true out) in
      read_file
        (signal_crash_handler signals directory true trace signum logged).1.files
        (resolve_path directory log_file_name)
      ≡ file_lines messages ++ report (signal_line signals signum) (trace_file trace)
write_all-signal_crash_handler signals directory trace signum messages out e =
    let logged = write_all messages (open_log_file directory true out) in
    let (_, h) = signal_crash_handler-HasPut signals directory trace signum logged in
    let (written, _) = open_log_file-write_all directory messages out e in
    h.holds ∙ ap (λ t. t ++ report (signal_line signals signum) (trace_file trace)) written

-- After `RegisterCrashHandler` exactly the signals that have a name in a report are handled; what the
-- others do is as it was.
pub register_crash_handler-signal_name :
    (signals : Signals) (handlers : ℕ → Handler) (n : ℕ)
    → register_crash_handler signals handlers n
      ≡ elim (signal_name signals n) [ none ↦ handlers n | some name ↦ handled ]
unfolding register_crash_handler signal_name
register_crash_handler-signal_name signals handlers n = ground arith
