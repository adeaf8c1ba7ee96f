-- ===== src/Server/Main/Log.antt =====
-- The log file of a whole run.
use mathlib.Core.List.{append-nil}
use hyperion_server.Common.{
  ◌≡◌, refl, sym, ap, ◌∙◌, Bool, true, Option, none, some, List, [], ◌∷◌, ◌++◌,
}
use hyperion_server.Common.Text.{Text}
use hyperion_server.Common.Exec.{returned, guarded, ◌>>=◌}
use hyperion_server.Core.Filesystem.{resolve_path, read_file, set_executing_directory}
use hyperion_server.Core.Logger.{Logged}
use hyperion_server.Core.Logger.Stream.{
  Output, open_log_file, write_made, write_message, write_log_file, log_file_name,
}
use hyperion_server.Core.Logger.Stream.Written.{
  write_all, file_lines, console_lines, open_log_file-write_all, closed,
}
use hyperion_server.Server.{Ended, exit_code}
use hyperion_server.Server.Main.{Messages, with_log_file, main}

write_all-append :
    (first last : List (Option Logged)) (out : Output)
    → write_all (first ++ last) out ≡ write_all last (write_all first out)
write_all-append [] last out = refl
write_all-append (m ∷ first) last out = write_all-append first last (write_made m out)

-- A message before the log file is open is only on the console.
unopened :
    (message : Option Logged) (out : Output)
    → out.log_file.path ≡ none
    → ((write_made message out).log_file.path ≡ none)
      × ((write_made message out).console ≡ out.console ++ console_lines (message ∷ []))
unfolding write_message write_log_file
unopened none out e = (e, sym (append-nil _))
unopened (some message) out e = rw (write_log_file, e, append-nil message.console) (e, refl)

-- Where the log file was not open and the system opens it, and its body writes messages to the log
-- and nothing else, `main` returns the exit code of how the body ended and leaves the log file
-- closed, with the lines of the first message, of those of the body and of the last, in this
-- order, and nothing else; the message of `SetExecutingDirectory`, which comes before the file is
-- open, is on the console only.
pub main-write_all :
    (win32 : Bool) (argv0 : Text) (messages : Messages) (logged : List (Option Logged))
    (ended : Ended)
    → (out : Output) → out.log_file.path ≡ none
    → let r = main win32 argv0 true messages (λ o. (ended, write_all logged o)) out in
      let kept = messages.startup ∷ logged ++ messages.last ended ∷ [] in
      (r.0 ≡ returned (exit_code ended))
      × (r.1.log_file.path ≡ none)
      × (read_file r.1.files (resolve_path (set_executing_directory win32 argv0) log_file_name)
          ≡ file_lines kept)
      × (r.1.console
          ≡ (out.console ++ console_lines (messages.directory_set ∷ [])) ++ console_lines kept)
unfolding main with_log_file guarded ◌>>=◌
main-write_all win32 argv0 messages logged ended out e =
    let directory = set_executing_directory win32 argv0 in
    let start = write_made messages.directory_set out in
    let (unopen, shown) = unopened messages.directory_set out e in
    let kept = messages.startup ∷ logged ++ messages.last ended ∷ [] in
    let (written, console) = open_log_file-write_all directory kept start unopen in
    let all =
      write_all-append (messages.startup ∷ logged) (messages.last ended ∷ [])
        (open_log_file directory true start) in
    let (path, files, same, _) = closed (
      write_made (messages.last ended)
        (write_all logged (write_made messages.startup (open_log_file directory true start)))) in
    (
      refl,
      path,
      ap (λ f. read_file f (resolve_path directory log_file_name))
            (files ∙ ap (λ o. o.files) (sym all))
          ∙ written,
      same ∙ ap (λ o. o.console) (sym all) ∙ console ∙ ap (λ t. t ++ console_lines kept) shown,
    )
