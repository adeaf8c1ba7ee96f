-- ===== src/Server/Tests/Log.antt =====
-- A run of the program that logs one line.
use hyperion_server.Common.{◌≡◌, refl, true, false, none, some, [], ◌∷◌}
use hyperion_server.Common.Text.{codes}
use hyperion_server.Common.Exec.{returned}
use hyperion_server.Core.Filesystem.{resolve_path, set_executing_directory, read_file}
use hyperion_server.Core.Logger.{Logged}
use hyperion_server.Core.Logger.Stream.{Output, log_file_name}
use hyperion_server.Core.Logger.Stream.Written.{write_all}
use hyperion_server.Server.{std_exception, exit_code}
use hyperion_server.Server.Main.{Messages, main}
use hyperion_server.Server.Main.Log

abbrev out : Output
out = record {
  files = [];
  log_file = record { path = none; is_good = true };
  console = [];
  error_output = [];
}

abbrev messages : Messages
messages = record {
  directory_set = some (record { console = codes "set\n"; file = codes "set\n" });
  startup = some (record { console = codes "start\n"; file = codes "start\n" });
  last = λ ended. some (record { console = codes "end\n"; file = codes "end\n" });
}

abbrev line : Logged
line = record { console = codes "line\n"; file = codes "line\n" }

main-write_all_example :
    let r =
      main false
        (codes "/bin/x")
        true
        messages
        (λ o. (std_exception, write_all (some line ∷ none ∷ []) o))
        out in
    (r.0 ≡ returned (exit_code std_exception))
    × (r.1.log_file.path ≡ none)
    × (read_file r.1.files
          (resolve_path (set_executing_directory false (codes "/bin/x")) log_file_name)
        ≡ codes "start\nline\nend\n")
    × (r.1.console ≡ codes "set\nstart\nline\nend\n")
main-write_all_example =
    Log.main-write_all false (codes "/bin/x") messages (some line ∷ none ∷ []) std_exception out
      refl
