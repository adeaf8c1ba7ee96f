-- ===== src/Net/UnitTests/OutFiles.antt =====
-- test/net/connectionTests.cpp and test/media/saveTests.cpp: the unit tests of the repository for the
-- status and the out files, run on the model, on a disk that holds no file. The clean up of the
-- directories is left out.
use hyperion_server.Common.{
  ℕ, ◌≡◌, refl, none, some, Bool, true, false, ◌&&◌, ◌||◌, List, [], ◌∷◌, ◌++◌, length, ◌==◌,
  if◌then◌else◌,
}
use hyperion_server.Common.Text.{Text, codes, same_text}
use hyperion_server.Common.Digits.{to_string}
use hyperion_server.Common.Exec.{
  Outcome, returned, thrown, read_file_error, aborted, modify, ◌>>=◌, ◌>>◌,
}
use hyperion_server.Media.Prop.{video, set_type, type_to_byte, type_of_byte, get_type}
use hyperion_server.Media.Save.{Files, Answers, contents, put_file, make_save_file, has_parent}
use hyperion_server.Net.Connection.{
  awaiting_c_greeting, active, rank, Local, Handler, on_conn, on_files, new_connection, set_status,
  file_ext, save_name, make_out_file_path, set_path, close_out_file, create_out_file,
  begin_out_files, append_out_file, open_out_file, finish_out_file,
}
use hyperion_server.Net.Listener.{put_byte, put_byte?, save_bytes}
use hyperion_server.Net.Tests.{fine}

-- A `ConnectionBase c`.
abbrev base : Local
base = record { conn = new_connection 7; files = [] }

abbrev is_video : Handler
is_video = on_conn (λ c. record c { media_prop = set_type video c.media_prop })

-- `<< text`
abbrev put_text : Text → Handler
put_text text = save_bytes (length text) 0 text

abbrev has_file : Files → Text → Bool
has_file files path = elim (contents files path) [ none ↦ false | some bytes ↦ true ]

-- `ifs >> s`: the bytes up to a space or the end of the line.
abbrev first_word : List ℕ → Text
first_word [] = []
first_word (byte ∷ bytes) =
    let rest = first_word bytes in if (byte == b' ') || (byte == b'\n') then [] else byte ∷ rest

abbrev reads : Files → Text → Text → Bool
reads files path text = elim (contents files path) [
  | none ↦ false
  | some bytes ↦ same_text (first_word bytes) text
]

-- The code returned, and left that.
abbrev leaves {ℓ} : {S : Type ℓ} {A : Type ℓ} → Outcome A × S → (S → Bool) → Bool
leaves (returned a, s) test = test s
leaves (thrown e, s) test = false
leaves (aborted, s) test = false

abbrev set_status_test : Bool
set_status_test =
    leaves (set_status awaiting_c_greeting base) (λ l. rank l.status == rank awaiting_c_greeting)
    && leaves ((set_status awaiting_c_greeting >> set_status active) base)
        (λ l. rank l.status == rank active)

abbrev saved : Text → Text
saved directory = directory ++ (to_string 7 ++ codes ".mp4")

abbrev begin_out_file_make_file_test : Bool
begin_out_file_make_file_test =
    leaves
      ((do
        is_video
        begin_out_files fine (codes "Connection/save/media")
        open_out_file fine
        put_text (codes "h3llo\n"))
        base)
      (λ l. has_file l.files (saved (codes "Connection/save/media/")))

abbrev open_out_file_no_directory_test : Bool
open_out_file_no_directory_test =
    leaves ((is_video >> begin_out_files fine []) base) (λ l. has_file l.files (saved []))

abbrev open_out_file_append_test : Bool
open_out_file_append_test =
    leaves
      ((do
        is_video
        begin_out_files fine []
        open_out_file fine
        put_text (codes "a")
        close_out_file
        open_out_file fine
        put_text (codes "b\n")
        close_out_file)
        base)
      (λ l. reads l.files (saved []) (codes "ab"))

-- `remove_all`, of all files; the directory is gone too, so that the stream does not open to append.
abbrev remove_all : Handler
remove_all = modify (λ l. record l { files = [] })

abbrev no_directory : Answers
no_directory = record fine { append_opens = false }

abbrev open_out_file_make_new_file_test : Bool
open_out_file_make_new_file_test =
    leaves
      ((do
        is_video
        begin_out_files fine (codes "Connection/save/media")
        finish_out_file
        remove_all
        open_out_file no_directory
        put_text (codes "h3llo\n"))
        base)
      (λ l. has_file l.files (saved (codes "Connection/save/media/")))

abbrev save_path : Text
save_path = codes "MediaSave/MakeSaveFile/a/b/c/t.txt"

abbrev make_save_file_test : Bool
make_save_file_test =
    leaves ((make_save_file fine save_path >> modify (put_file save_path (codes "Test\n"))) [])
      (λ files. reads files save_path (codes "Test"))

-- The system opens no file at the path of a directory.
abbrev make_save_file_invalid_path_test : Bool
make_save_file_invalid_path_test =
    elim (make_save_file (record fine { create_opens = false })
      (codes "MediaSave/MakeSaveFile/a/b/c/") []).0 [ thrown read_file_error ↦ true | _ ↦ false ]

out_files_pass :
    (set_status_test ≡ true)
    × (begin_out_file_make_file_test ≡ true)
    × (open_out_file_no_directory_test ≡ true)
    × (open_out_file_append_test ≡ true)
    × (open_out_file_make_new_file_test ≡ true)
    × (make_save_file_test ≡ true)
    × (make_save_file_invalid_path_test ≡ true)
unfolding set_status begin_out_files open_out_file new_connection on_conn set_path
    make_out_file_path get_type set_type type_to_byte type_of_byte create_out_file on_files
    make_save_file has_parent close_out_file save_bytes put_byte? contents put_file put_byte
    append_out_file file_ext save_name to_string same_text modify ◌>>=◌
out_files_pass = (refl, refl, refl, refl, refl, refl, refl)
