-- ===== src/Net/Services/Returning.antt =====
-- Where every handler returns: an exception leaves the thread of the services only by one of three
-- calls that may throw.
use hyperion_server.Common.{
  ℕ, ◌≡◌, ◌≢◌, refl, sym, true, false, Option, none, some, get_elem?, Bool-cases, inl, inr,
}
use hyperion_server.Common.Exec.{Error, Outcome, returned, thrown, aborted, try_catch, ◌>>=◌}
use hyperion_server.Media.Save.{Answers}
use hyperion_server.Net.Connection.{
  Connection, Local, async_write, async_wait, set_timer_expires_after, inc_ref_count, on_conn,
}
use hyperion_server.Net.Data.{World, make_connection, add}
use hyperion_server.Net.Acceptor.{Acceptor, handle_accept}
use hyperion_server.Net.Gc.{sweep_due, setup_sweep_timer}
use hyperion_server.Net.Events.{Event, is_pending}
use hyperion_server.Net.Events.Valid.{IsValid}
use hyperion_server.Net.Events.Safety.{deliver-IsValid, deliver_thrown}
use hyperion_server.Net.Services.{
  do_async_accept, on_local, accept_completed, Call, accepted, swept, completed, is_due, deliver_to,
  run_call,
}
use hyperion_server.Net.Services.Rising.{get_elem?-IsValid}
use hyperion_server.Net.Services.Valid.{IsSound}

-- Of the calls that a handler does not catch, none throws.
pub record IsQuiet (answers : Answers) : Type 0 where
  pub prepares : answers.prepare_throws ≡ false
  pub expires : answers.expires_throws ≡ false
  pub connects : answers.remote_throws ≡ false

returned_or :
    (r : Outcome (Unit {0})) → r ≢ aborted → ((x : Error) → r ≢ thrown x) → r ≡ returned tt
returned_or (returned u) a t = refl
returned_or (thrown x) a t = absurd (t x refl)
returned_or aborted a t = absurd (a refl)

module _ (acceptor : Acceptor) (answers : Answers) (quiet : IsQuiet answers) (w : World) where
  open quiet use {prepares, expires, connects}

  found_returns :
      (i : ℕ) (e : Event) (o : Option Connection)
      → o ≡ get_elem? w.connections i
      → IsSound w
      → is_due (completed i e) w ≡ true
      → (deliver_to acceptor answers i e o w).0 ≡ returned tt
  unfolding on_local
  found_returns i e none q s d = cc (rw (← q) at d)
  found_returns i e (some conn) q s d =
      let due : is_pending e conn ≡ true = rw (← q) at d in
      let l : Local = record { conn = conn; files = w.files } in
      let valid : IsValid conn =
        get_elem?-IsValid 0 w.next_id i w.connections conn (sym q) s.rising in
      returned_or _ (deliver-IsValid acceptor answers e l valid due).0
        (λ x t. let c = deliver_thrown acceptor answers e l x valid due t in cc (c.0, prepares))

  -- On a sound server, a handler that is due returns, unless `prepare`, `expires_after` or
  -- `remote_endpoint` throws.
  pub run_call-returned :
      (call : Call)
      → IsSound w
      → is_due call w ≡ true
      → (run_call acceptor answers call w).0 ≡ returned tt
  unfolding run_call accept_completed do_async_accept add make_connection on_local handle_accept
      async_write async_wait set_timer_expires_after inc_ref_count on_conn sweep_due
      setup_sweep_timer try_catch ◌>>=◌
  run_call-returned (accepted (some error)) s d = elim (Bool-cases answers.accept_throws) [
    | inl a ↦ rw a refl
    | inr a ↦ rw a refl
  ]
  run_call-returned (accepted none) s d = elim (Bool-cases answers.accept_throws) [
    | inl a ↦ rw (a, connects, expires) refl
    | inr a ↦ rw (a, connects, expires) refl
  ]
  run_call-returned (swept error) s d = rw expires refl
  run_call-returned (completed i e) s d = found_returns i e (get_elem? w.connections i) refl s d
