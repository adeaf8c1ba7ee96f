-- ===== src/Net/Services.antt =====
-- The services together, as `RunConnectionServices` of src/hyperion.cpp starts them and `io_context`
-- runs them: one thread, one handler at a time.
pub mod Rising
pub mod Valid
pub mod Held
pub mod Leak
pub mod Each
pub mod Due
pub mod Exact
pub mod Counting
pub mod Returning
pub mod Clients
pub mod Vetted
pub mod Apart
use hyperion_server.Common.{
  ℕ, zero, suc, ◌+◌, ◌-◌, ◌≡◌, Bool, true, false, ◌&&◌, Option, none, some, List, [], ◌∷◌, ltb,
  get_elem?, if◌then◌else◌,
}
use hyperion_server.Common.Exec.{
  Exec, Outcome, returned, modify, pure, gets, may_throw, try_catch, system_error, assert, ◌>>=◌,
  ◌>>◌,
}
use hyperion_server.Media.Save.{Answers}
use hyperion_server.Net.Props.{ErrorCode}
use hyperion_server.Net.Connection.{Connection, Local, Handler}
use hyperion_server.Net.Data.{World, Service, add}
use hyperion_server.Net.Acceptor.{Acceptor, handle_accept}
use hyperion_server.Net.Gc.{sweep_due, start}
use hyperion_server.Net.Events.{Event, is_pending, taken, handle}

-- `DoAsyncAccept`: where asio refuses, no more connections are accepted.
unfoldable pub do_async_accept : Answers → Service
do_async_accept answers =
    try_catch
      (do
        may_throw answers.accept_throws system_error
        modify (λ w. record w { accepts = w.accepts + 1 }))
      (λ e. pure tt)

unfoldable pub begin_async_accept : Answers → Service
begin_async_accept answers = do_async_accept answers

-- The connection that stands last is the one just added.
unfoldable pub replace_last : Connection → List Connection → List Connection
replace_last c [] = []
replace_last c (x ∷ []) = c ∷ []
replace_last c (x ∷ y ∷ xs) = x ∷ replace_last c (y ∷ xs)

-- A handler of one connection, run in place.
unfoldable pub on_local :
    (Connection → List Connection → List Connection) → Connection → Handler → Service
on_local put conn m w =
    let r = m (record { conn = conn; files = w.files }) in
    (r.0, record w { connections = put r.1.conn w.connections; files = r.1.files })

-- The handler of `async_accept`: it starts the next accept first.
unfoldable pub accept_completed : Acceptor → Answers → Option ErrorCode → Service
accept_completed acceptor answers (some error) = do_async_accept answers
accept_completed acceptor answers none = do
  do_async_accept answers
  conn ← add answers
  on_local replace_last conn (handle_accept acceptor answers)

unfoldable pub set_at : ℕ → Connection → List Connection → List Connection
set_at i c [] = []
set_at zero c (x ∷ xs) = c ∷ xs
set_at (suc i) c (x ∷ xs) = x ∷ set_at i c xs

-- What `io_context` may run next; a connection is named by its place.
pub data Call : Type 0 where
  accepted : Option ErrorCode → Call
  swept : Option ErrorCode → Call
  completed : ℕ → Event → Call

abbrev pending_at : Event → Option Connection → Bool
pending_at e none = false
pending_at e (some c) = is_pending e c

abbrev pub is_due : Call → World → Bool
is_due (accepted error) w = ltb 0 w.accepts
is_due (swept error) w = ltb 0 w.gc_waits
is_due (completed i e) w = pending_at e (get_elem? w.connections i)

abbrev deliver_to : Acceptor → Answers → ℕ → Event → Option Connection → Service
deliver_to acceptor answers i e none = assert false
deliver_to acceptor answers i e (some c) =
    on_local (set_at i) (taken e c) (handle acceptor answers e)

unfoldable pub run_call : Acceptor → Answers → Call → Service
run_call acceptor answers (accepted error) = do
  modify (λ w. record w { accepts = w.accepts - 1 })
  accept_completed acceptor answers error
run_call acceptor answers (swept error) = do
  modify (λ w. record w { gc_waits = w.gc_waits - 1 })
  sweep_due answers error
run_call acceptor answers (completed i e) = do
  conn ← gets (λ w. get_elem? w.connections i)
  deliver_to acceptor answers i e conn

-- One handler runs to its end.
pub data Step (acceptor : Acceptor) (w w' : World) : Type 0 where
  ran :
      (answers : Answers) (call : Call)
      → is_due call w ≡ true
      → run_call acceptor answers call w ≡ (returned tt, w')
      → Step acceptor w w'

pub data Reach (acceptor : Acceptor) (w : World) : World → Type 0 where
  here : Reach acceptor w w
  next : {v u : World} → Reach acceptor w v → Step acceptor v u → Reach acceptor w u
