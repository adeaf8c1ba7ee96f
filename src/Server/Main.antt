-- ===== src/Server/Main.antt =====
-- `main` of src/hyperion.cpp, around the server that it runs: the executing directory, the log file
-- and its guard, the first and the last message, and the exit code.
pub mod Log
use hyperion_server.Common.{ℕ, Bool, Option}
use hyperion_server.Common.Text.{Text}
use hyperion_server.Common.Exec.{Exec, pure, lift, modify, gets, returned, guarded, ◌>>=◌, ◌>>◌}
use hyperion_server.Core.Filesystem.{set_executing_directory}
use hyperion_server.Core.Logger.{Logged}
use hyperion_server.Core.Logger.Stream.{Output, open_log_file, close_log_file, write_made}
use hyperion_server.Server.{Ended, exit_code}

-- What the calls of `MakeLogMessage` in `SetExecutingDirectory` and in `main` give.
pub record Messages : Type 0 where
  pub directory_set : Option Logged
  pub startup : Option Logged
  -- "goodbye!", or what the exception says
  pub last : Ended → Option Logged

abbrev pub run : {A : Type 0} → (Output → A × Output) → Exec Output A
run body out = let r = body out in (returned r.0, r.1)

-- From `ResourceGuard log_guard` on. The argument `opens` is whether the system opens the log file,
-- and `body` what is in the `try`.
unfoldable pub with_log_file : Text → Bool → Messages → (Output → Ended × Output) → Exec Output ℕ
unfolding guarded ◌>>=◌
with_log_file directory opens messages body = guarded (modify close_log_file) do
  modify (open_log_file directory opens)
  modify (write_made messages.startup)
  ended ← run body
  modify (write_made (messages.last ended))
  pure (exit_code ended)

-- `main`, from a state in which nothing has run.
unfoldable pub main : Bool → Text → Bool → Messages → (Output → Ended × Output) → Exec Output ℕ
unfolding with_log_file ◌>>=◌
main win32 argv0 opens messages body = do
  modify (write_made messages.directory_set)
  with_log_file (set_executing_directory win32 argv0) opens messages body
