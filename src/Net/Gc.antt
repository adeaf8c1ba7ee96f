-- ===== src/Net/Gc.antt =====
-- src/net/service/connection_gc.cpp.
pub mod Sweep
use hyperion_server.Common.{ℕ, ◌+◌, Bool, Option, List, [], ◌∷◌, if◌then◌else◌}
use hyperion_server.Common.Exec.{Exec, modify, may_throw, system_error, ◌>>=◌, ◌>>◌}
use hyperion_server.Media.Save.{Answers}
use hyperion_server.Net.Props.{ErrorCode}
use hyperion_server.Net.Connection.{Connection, can_destruct}
use hyperion_server.Net.Data.{World, Service}

-- The loop of `Sweep`: an entry is erased, or the iterator moves on.
unfoldable pub sweep : List Connection → List Connection
unfolding can_destruct
sweep [] = []
sweep (conn ∷ connections) =
    let rest = sweep connections in if can_destruct conn then rest else conn ∷ rest

unfoldable pub setup_sweep_timer : Answers → Service
setup_sweep_timer answers = do
  may_throw answers.expires_throws system_error
  modify (λ w. record w { gc_waits = w.gc_waits + 1 })

-- The handler of the timer; an error is only logged.
unfoldable pub sweep_due : Answers → Option ErrorCode → Service
sweep_due answers error = do
  modify (λ w. record w { connections = sweep w.connections })
  setup_sweep_timer answers

unfoldable pub start : Answers → Service
start answers = setup_sweep_timer answers
