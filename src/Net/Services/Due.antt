-- ===== src/Net/Services/Due.antt =====
-- What holds of every connection, where it rests on what the handler may rely on: the connection is
-- valid and its operation is pending.
use mathlib.Core.Path.{subst}
use hyperion_server.Common.{ℕ, ◌≡◌, refl, sym, ap, true, Option, none, some, get_elem?}
use hyperion_server.Common.Exec.{Outcome, ◌>>=◌}
use hyperion_server.Media.Save.{Files, Answers}
use hyperion_server.Net.Connection.{Connection, Local, new_connection}
use hyperion_server.Net.Data.{World}
use hyperion_server.Net.Acceptor.{Acceptor, handle_accept}
use hyperion_server.Net.Events.{Event, is_pending}
use hyperion_server.Net.Events.Valid.{IsValid}
use hyperion_server.Net.Events.Handlers.{deliver}
use hyperion_server.Net.Services.{
  Call, accepted, swept, completed, is_due, on_local, deliver_to, run_call, Step, ran, Reach, here,
  next,
}
use hyperion_server.Net.Services.Valid.{IsSound, Reach-IsSound}
use hyperion_server.Net.Services.Rising.{get_elem?-IsValid}
use hyperion_server.Net.Services.Each.{
  new_local, AllOf, All-set_at, All-get_elem?, accepted-Kept, swept-Kept,
}

-- The argument `Fine` says which answers and which handlers are looked at.
module _ (acceptor : Acceptor) (Fine : Answers → Call → Type 0) (P : Connection → Type 0)
    (keeps : (answers : Answers) (i : ℕ) (e : Event) (l : Local)
      → Fine answers (completed i e)
      → IsValid l.conn
      → is_pending e l.conn ≡ true
      → P l.conn
      → P (deliver acceptor answers e l).1.conn)
    (accepts : (answers : Answers) (id : ℕ) (files : Files)
      → P (handle_accept acceptor answers (new_local id files)).1.conn)
    (new : (id : ℕ) → P (new_connection id)) where
  found-AllOf :
      (answers : Answers) (i : ℕ) (e : Event) (o : Option Connection) (w : World)
      → o ≡ get_elem? w.connections i
      → IsSound w
      → Fine answers (completed i e)
      → is_due (completed i e) w ≡ true
      → AllOf P w
      → AllOf P (deliver_to acceptor answers i e o w).1
  unfolding on_local
  found-AllOf answers i e none w q s f d h = cc (rw (← q) at d)
  found-AllOf answers i e (some conn) w q s f d h =
      let due : is_pending e conn ≡ true = rw (← q) at d in
      let l : Local = record { conn = conn; files = w.files } in
      let valid : IsValid conn =
        get_elem?-IsValid 0 w.next_id i w.connections conn (sym q) s.rising in
      let before : P conn = All-get_elem? P i w.connections conn (sym q) h in
      All-set_at P i _ w.connections (keeps answers i e l f valid due before) h

  pub run_call-AllOf :
      (answers : Answers) (call : Call) (w : World)
      → IsSound w
      → Fine answers call
      → is_due call w ≡ true
      → AllOf P w
      → AllOf P (run_call acceptor answers call w).1
  unfolding run_call ◌>>=◌
  run_call-AllOf answers (accepted error) w s f d h =
      (accepted-Kept acceptor answers P (accepts answers) new error).at w h
  run_call-AllOf answers (swept error) w s f d h =
      (swept-Kept acceptor answers P (accepts answers) new error).at w h
  run_call-AllOf answers (completed i e) w s f d h =
      found-AllOf answers i e (get_elem? w.connections i) w refl s f d h

  Step-AllOf :
      {w w' : World}
      → ((answers : Answers) (call : Call) → Fine answers call)
      → Step acceptor w w'
      → IsSound w
      → AllOf P w
      → AllOf P w'
  Step-AllOf {w} fine (ran answers call d e) s h =
      subst (AllOf P) (ap (λ (o : Outcome (Unit {0}) × World). o.1) e)
        (run_call-AllOf answers call w s (fine answers call) d h)

  pub Reach-AllOf :
      {w w' : World}
      → ((answers : Answers) (call : Call) → Fine answers call)
      → Reach acceptor w w'
      → IsSound w
      → AllOf P w
      → AllOf P w'
  Reach-AllOf fine here s h = h
  Reach-AllOf fine (next r st) s h = Step-AllOf fine st (Reach-IsSound r s) (Reach-AllOf fine r s h)
