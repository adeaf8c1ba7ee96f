-- ===== src/Net/Services/Counting.antt =====
-- How many operations asio has pending for a connection, in every state that the services reach.
use hyperion_server.Common.{ℕ, ◌≤◌, List, [], ◌∷◌, All, Bool-cases, inl, inr, arith}
use hyperion_server.Common.Exec.{◌>>=◌}
use hyperion_server.Media.Save.{Files, Answers}
use hyperion_server.Net.Connection.{
  Connection, new_connection, async_write, async_wait, set_timer_expires_after, inc_ref_count,
  on_conn,
}
use hyperion_server.Net.Data.{World}
use hyperion_server.Net.Acceptor.{Acceptor, handle_accept}
use hyperion_server.Net.Events.Running.{pending}
use hyperion_server.Net.Events.Counting.{Few, deliver-Few}
use hyperion_server.Net.Services.{Reach}
use hyperion_server.Net.Services.Valid.{IsSound}
use hyperion_server.Net.Services.Each.{new_local, AllOf}
use hyperion_server.Net.Services.Due.{Reach-AllOf}

handle_accept-Few :
    (acceptor : Acceptor) (answers : Answers) (id : ℕ) (files : Files)
    → Few 1 1 1 (handle_accept acceptor answers (new_local id files)).1.conn
unfolding handle_accept async_write set_timer_expires_after async_wait inc_ref_count on_conn
    new_connection ◌>>=◌
handle_accept-Few acceptor answers id files = elim (Bool-cases answers.expires_throws) [
  | inl e ↦ rw e (omega arith, omega arith, omega arith)
  | inr e ↦ rw e (omega arith, omega arith, omega arith)
]

new_connection-Few : (id : ℕ) → Few 1 1 1 (new_connection id)
unfolding new_connection
new_connection-Few id = (omega arith, omega arith, omega arith)

pub Reach-Few :
    {acceptor : Acceptor} {w w' : World}
    → Reach acceptor w w'
    → IsSound w
    → AllOf (Few 1 1 1) w
    → AllOf (Few 1 1 1) w'
Reach-Few {acceptor} r s h =
    Reach-AllOf acceptor (λ answers call. Unit) (Few 1 1 1)
      (λ answers i e l fine v p few. deliver-Few acceptor answers e l v p few)
      (handle_accept-Few acceptor) new_connection-Few (λ answers call. tt) r s h

pub All-pending : (cs : List Connection) → All (Few 1 1 1) cs → All (λ c. pending c ≤ 3) cs
All-pending [] h = tt
All-pending (c ∷ cs) h = (omega (arith, h.0.0, h.0.1, h.0.2), All-pending cs h.1)
