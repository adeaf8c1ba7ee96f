-- ===== src/Net/Services/Vetted.antt =====
-- Which clients get through: in every state that the services reach.
use hyperion_server.Common.{ℕ}
use hyperion_server.Net.Connection.{Connection, new_connection}
use hyperion_server.Net.Acceptor.{Acceptor}
use hyperion_server.Net.Data.{World}
use hyperion_server.Net.Events.Vetted.{handle_accept-Kept, deliver-kept, Vetted, Vetted-IsStable}
use hyperion_server.Net.Services.{Reach}
use hyperion_server.Net.Services.Each.{AllOf, AllOf-Reach}

abbrev pub IsVetted : Acceptor → Connection → Type 0
IsVetted acceptor c = Vetted acceptor.media_config c.status c.media_prop

new-IsVetted : (acceptor : Acceptor) (id : ℕ) → IsVetted acceptor (new_connection id)
unfolding new_connection
new-IsVetted acceptor id e = cc

pub Reach-Vetted :
    {acceptor : Acceptor} {w w' : World}
    → Reach acceptor w w'
    → AllOf (IsVetted acceptor) w
    → AllOf (IsVetted acceptor) w'
Reach-Vetted {acceptor} r h =
    let stable = Vetted-IsStable acceptor.media_config in
    let P = Vetted acceptor.media_config in
    AllOf-Reach acceptor (IsVetted acceptor)
      (λ answers e l p. deliver-kept acceptor answers P stable e l p)
      (λ answers l p. (handle_accept-Kept acceptor answers P stable).at l p) (new-IsVetted acceptor)
      r h
