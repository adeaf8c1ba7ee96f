-- ===== src/Core/Logger/Stream/Written.antt =====
-- What the log file holds.
use mathlib.Core.List.{append_assoc, append-nil}
use hyperion_server.Common.{
  Option-cases, arith, ◌≡◌, refl, sym, ap, ◌∙◌, true, false, Option, none, some, List, [], ◌∷◌,
  ◌++◌,
}
use hyperion_server.Common.Text.{Text, same_text, same_text_iff}
use hyperion_server.Media.Save.{contents, put_file}
use hyperion_server.Core.Filesystem.{resolve_path, read_file}
use hyperion_server.Core.Logger.{Logged}
use hyperion_server.Core.Logger.Stream.{
  Output, append_file, log_file_name, open_log_file, close_log_file, write_log_file, write_message,
  write_made,
}

same_text_refl : (s : Text) → same_text s s ≡ true
same_text_refl s = let i = same_text_iff s s in i.1 refl

-- An append leaves the new bytes behind the old ones.
pub contents-append_file :
    (path text : Text) (files : _)
    → contents (append_file path text files) path ≡ some (read_file files path ++ text)
unfolding contents put_file
contents-append_file path text files = rw (same_text_refl path) refl

-- The calls of `MakeLogMessage`, one after the other.
abbrev pub write_all : List (Option Logged) → Output → Output
write_all [] out = out
write_all (message ∷ messages) out = write_all messages (write_made message out)

-- The lines of the messages, one after the other.
abbrev pub file_lines : List (Option Logged) → Text
file_lines [] = []
file_lines (none ∷ messages) = file_lines messages
file_lines (some message ∷ messages) = message.file ++ file_lines messages

abbrev pub console_lines : List (Option Logged) → Text
console_lines [] = []
console_lines (none ∷ messages) = console_lines messages
console_lines (some message ∷ messages) = message.console ++ console_lines messages

-- What was put out between two states: to the file of `path`, to the console and to `stderr`. The
-- other files, and the stream, are as they were.
pub record HasPut (path text shown errors : Text) (out out' : Output) : Type 0 where
  pub holds : read_file out'.files path ≡ read_file out.files path ++ text
  pub shows : out'.console ≡ out.console ++ shown
  pub reports : out'.error_output ≡ out.error_output ++ errors
  pub others : (p : Text) → same_text path p ≡ false → contents out'.files p ≡ contents out.files p

pub HasPut-refl : (path : Text) (out : Output) → HasPut path [] [] [] out out
HasPut-refl path out = record {
  holds = sym (append-nil _);
  shows = sym (append-nil _);
  reports = sym (append-nil _);
  others = λ p n. refl;
}

pub HasPut-trans :
    {path text shown errors text' shown' errors' : Text} {a b c : Output}
    → HasPut path text shown errors a b
    → HasPut path text' shown' errors' b c
    → HasPut path (text ++ text') (shown ++ shown') (errors ++ errors') a c
HasPut-trans {text} {shown} {errors} {text'} {shown'} {errors'} h k = record {
  holds = k.holds ∙ ap (λ t. t ++ text') h.holds ∙ append_assoc _ text text';
  shows = k.shows ∙ ap (λ t. t ++ shown') h.shows ∙ append_assoc _ shown shown';
  reports = k.reports ∙ ap (λ t. t ++ errors') h.reports ∙ append_assoc _ errors errors';
  others = λ p n. k.others p n ∙ h.others p n;
}

pub append_file-HasPut :
    (path text : Text) (out : Output)
    → HasPut path text [] [] out (record out { files = append_file path text out.files })
unfolding read_file contents put_file
append_file-HasPut path text out = record {
  holds = rw (same_text_refl path) refl;
  shows = sym (append-nil _);
  reports = sym (append-nil _);
  others = λ p n. rw n refl;
}

-- The log goes to `path`.
pub record IsOpen (path : Text) (out : Output) : Type 0 where
  pub open_on : out.log_file.path ≡ some path
  pub good : out.log_file.is_good ≡ true

write_message-HasPut :
    (path : Text) (message : Logged) (out : Output)
    → IsOpen path out
    → IsOpen path (write_message message out)
      × HasPut path message.file message.console [] out (write_message message out)
unfolding write_message write_log_file read_file contents put_file
write_message-HasPut path message out e =
    rw (e.open_on, e.good)
      (
        record { open_on = e.open_on; good = refl },
        record {
          holds = rw (same_text_refl path) refl;
          shows = refl;
          reports = sym (append-nil _);
          others = λ p n. rw n refl;
        },
      )

pub write_all-HasPut :
    (path : Text) (messages : List (Option Logged)) (out : Output)
    → IsOpen path out
    → IsOpen path (write_all messages out)
      × HasPut path (file_lines messages) (console_lines messages) [] out (write_all messages out)
write_all-HasPut path [] out e = (e, HasPut-refl path out)
write_all-HasPut path (none ∷ messages) out e = write_all-HasPut path messages out e
write_all-HasPut path (some message ∷ messages) out e =
    let (kept, h) = write_message-HasPut path message out e in
    let (kept', k) = write_all-HasPut path messages (write_message message out) kept in
    (kept', HasPut-trans h k)

pub open_log_file-IsOpen :
    (directory : Text) (out : Output)
    → out.log_file.path ≡ none
    → IsOpen (resolve_path directory log_file_name) (open_log_file directory true out)
      × (read_file (open_log_file directory true out).files (resolve_path directory log_file_name)
          ≡ [])
      × ((open_log_file directory true out).console ≡ out.console)
      × ((open_log_file directory true out).error_output ≡ out.error_output)
unfolding open_log_file read_file contents put_file
open_log_file-IsOpen directory out e = rw e (
  record { open_on = refl; good = refl },
  rw (same_text_refl (resolve_path directory log_file_name)) refl,
  refl,
  refl,
)

-- Where the log file was not open and the system opens it, what is logged afterwards, and no more,
-- is in the file `log.txt` of the executing directory, line by line in the order of the calls, and
-- on the console behind what was there.
pub open_log_file-write_all :
    (directory : Text) (messages : List (Option Logged)) (out : Output)
    → out.log_file.path ≡ none
    → (read_file
          (write_all messages (open_log_file directory true out)).files
          (resolve_path directory log_file_name)
        ≡ file_lines messages)
      × ((write_all messages (open_log_file directory true out)).console
          ≡ out.console ++ console_lines messages)
open_log_file-write_all directory messages out e =
    let path = resolve_path directory log_file_name in
    let (opened, empty, shown, _) = open_log_file-IsOpen directory out e in
    let (_, h) = write_all-HasPut path messages (open_log_file directory true out) opened in
    (
      h.holds ∙ ap (λ t. t ++ file_lines messages) empty,
      h.shows ∙ ap (λ t. t ++ console_lines messages) shown,
    )

-- Closing writes nothing.
pub closed :
    (out : Output)
    → ((close_log_file out).log_file.path ≡ none)
      × ((close_log_file out).files ≡ out.files)
      × ((close_log_file out).console ≡ out.console)
      × ((close_log_file out).error_output ≡ out.error_output)
unfolding close_log_file
closed out = ground (arith, Option-cases out.log_file.path)
