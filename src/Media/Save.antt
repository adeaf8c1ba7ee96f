-- ===== src/Media/Save.antt =====
-- src/media/save.cpp, and the files that the server writes.
use hyperion_server.Common.{
  ℕ, Bool, false, ◌||◌, ◌&&◌, not, Option, none, some, List, [], ◌∷◌, ◌==◌, if◌then◌else◌,
}
use hyperion_server.Common.Text.{Text, same_text}
use hyperion_server.Common.Exec.{Exec, modify, may_throw, filesystem_error, read_file_error, ◌>>◌}

-- The files of the disk, by path; a later entry of the same path stands in front.
abbrev pub Files : Type 0
Files = List (Text × List ℕ)

unfoldable pub contents : Files → Text → Option (List ℕ)
contents [] path = none
contents ((p, bytes) ∷ files) path = if same_text p path then some bytes else contents files path

-- The file of that path holds those bytes from now on.
unfoldable pub put_file : Text → List ℕ → Files → Files
put_file path bytes files = (path, bytes) ∷ files

-- What the operating system and asio answer to the calls of one handler.
pub record Answers : Type 0 where
  pub mkdir_throws : Bool
  pub create_opens : Bool
  pub append_opens : Bool
  pub shutdown_throws : Bool
  pub close_throws : Bool
  pub prepare_throws : Bool
  pub expires_throws : Bool
  pub remote_throws : Bool
  pub accept_throws : Bool

-- `!parent_path.empty()`: the path has a slash.
unfoldable pub has_parent : Text → Bool
has_parent [] = false
has_parent (c ∷ path) = let rest = has_parent path in (c == b'/') || rest

-- `MakeSaveFile`: the file is empty once its stream is open.
unfoldable pub make_save_file : Answers → Text → Exec Files (Unit {0})
unfolding has_parent
make_save_file answers save_path = do
  may_throw (has_parent save_path && answers.mkdir_throws) filesystem_error
  may_throw (not answers.create_opens) read_file_error
  modify (put_file save_path [])
