-- ===== src/Net/Services/Valid.antt =====
-- What holds of the server between two handlers, and that every handler keeps it.
use mathlib.Core.Path.{subst}
use hyperion_server.Common.{
  ℕ, ◌≡◌, ◌≢◌, refl, sym, ap, true, Option, none, some, List, [], ◌∷◌, ◌++◌, get_elem?, Bool-cases,
  inl, inr, arith,
}
use hyperion_server.Common.Exec.{Outcome, returned, thrown, aborted, ◌>>=◌}
use hyperion_server.Common.Exec.Triple.{
  Ends, Triple, Triple-pure, Triple-read, Triple-modify, Triple-may_throw, Triple-bind, Triple-then,
  Triple-try, Triple-weaken,
}
use hyperion_server.Media.Save.{Files, Answers}
use hyperion_server.Net.Props.{ErrorCode}
use hyperion_server.Net.Connection.{
  Connection, Local, new_connection, on_conn, async_write, async_wait, set_timer_expires_after,
  inc_ref_count,
}
use hyperion_server.Net.Data.{World, make_connection, add}
use hyperion_server.Net.Acceptor.{Acceptor, handle_accept}
use hyperion_server.Net.Gc.{sweep_due, setup_sweep_timer}
use hyperion_server.Net.Events.{Event, is_pending}
use hyperion_server.Net.Events.Valid.{IsValid}
use hyperion_server.Net.Events.Safety.{deliver-IsValid, deliver_kept}
use hyperion_server.Net.Services.{
  do_async_accept, replace_last, on_local, accept_completed, Call, accepted, swept, completed,
  is_due, deliver_to, run_call, Step, ran, Reach, here, next,
}
use hyperion_server.Net.Services.Rising.{
  Rising, Rising-sweep, Rising-append, Rising-replace_last, Rising-set_at, get_elem?-IsValid,
}

pub record IsSound (w : World) : Type 0 where
  pub rising : Rising 0 w.next_id w.connections

-- A connection that was just accepted is greeted: a write and a timeout are pending for it.
handle_accept_new :
    (acceptor : Acceptor) (answers : Answers) (id : ℕ) (files : Files)
    → let r = handle_accept acceptor answers (record { conn = new_connection id; files = files }) in
      (r.0 ≢ aborted) × IsValid r.1.conn × (r.1.id ≡ id)
unfolding handle_accept async_write set_timer_expires_after async_wait inc_ref_count on_conn
    new_connection ◌>>=◌
handle_accept_new acceptor answers id files = elim (Bool-cases answers.expires_throws) [
  | inl e ↦ rw e (
    λ q. cc,
    record {
      counted = omega arith;
      unbuffered = refl;
      stream = refl;
      one_write = omega arith;
      writing = λ p. refl;
      reading = λ p. absurd (omega arith);
      waiting = λ p. absurd (omega arith);
      saving = λ p. absurd (omega arith);
    },
    refl,
  )
  | inr e ↦ rw e (
    λ q. cc,
    record {
      counted = omega arith;
      unbuffered = refl;
      stream = refl;
      one_write = omega arith;
      writing = λ p. refl;
      reading = λ p. absurd (omega arith);
      waiting = λ p. absurd (omega arith);
      saving = λ p. absurd (omega arith);
    },
    refl,
  )
]

IsSound-Ends :
    (r : Outcome (Unit {0})) (w : World)
    → r ≢ aborted
    → IsSound w
    → Ends (λ _. IsSound) (λ w. Unit) r w
IsSound-Ends (returned u) w n s = s
IsSound-Ends (thrown e) w n s = tt
IsSound-Ends aborted w n s = absurd (n refl)

returned-IsSound :
    (r : Outcome (Unit {0}) × World) (w : World)
    → Ends (λ _. IsSound) (λ w. Unit) r.0 r.1
    → r ≡ (returned tt, w)
    → IsSound w
returned-IsSound (returned u, v) w s e =
    subst IsSound (ap (λ (p : Outcome (Unit {0}) × World). p.1) e) s
returned-IsSound (thrown x, v) w s e = cc (ap (λ (p : Outcome (Unit {0}) × World). p.0) e)
returned-IsSound (aborted, v) w s e = absurd s

-- What `Add` has done where it returns: the new connection stands at the back.
record Added (c : Connection) (w : World) : Type 0 where
  before : List Connection
  at_back : w.connections ≡ before ++ c ∷ []
  rising : Rising 0 w.next_id w.connections
  new : c ≡ new_connection c.id

new_connection-IsValid : (id : ℕ) → IsValid (new_connection id)
unfolding new_connection
new_connection-IsValid id = record {
  counted = omega arith;
  unbuffered = refl;
  stream = refl;
  one_write = omega arith;
  writing = λ p. refl;
  reading = λ p. refl;
  waiting = λ p. absurd (omega arith);
  saving = λ p. absurd (omega arith);
}

id-new_connection : (id : ℕ) → (new_connection id).id ≡ id
unfolding new_connection
id-new_connection id = refl

module _ (answers : Answers) where
  do_async_accept-keeps :
      (E : World → Type 0) → Triple IsSound (do_async_accept answers) (λ _. IsSound) E
  unfolding do_async_accept
  do_async_accept-keeps E =
      Triple-try
        (Triple-then (Triple-may_throw _ _) (Triple-modify _ (λ w h. record { rising = h.rising })))
        (λ e. Triple-pure tt (λ w h. h))

  add-Added : Triple IsSound (add answers) Added (λ w. Unit)
  unfolding add make_connection new_connection ◌>>=◌
  add-Added = record {
    at = λ w h. elim (Bool-cases answers.remote_throws) [
      | inl e ↦ rw e tt
      | inr e ↦ rw e (record {
        before = w.connections;
        at_back = refl;
        rising =
            Rising-append 0 w.next_id w.connections _ h.rising (new_connection-IsValid w.next_id)
              (id-new_connection w.next_id);
        new = refl;
      })
    ];
  }

  on_local-keeps :
      (acceptor : Acceptor) (c : Connection)
      → Triple
          (Added c)
          (on_local replace_last c (handle_accept acceptor answers))
          (λ _. IsSound)
          (λ w. Unit)
  unfolding on_local
  on_local-keeps acceptor c = record {
    at = λ w a.
        let (safe, valid, same) = handle_accept_new acceptor answers c.id w.files in
        subst
          (λ d.
            Ends (λ (_ : Unit {0}). IsSound) (λ w. Unit)
              (handle_accept acceptor answers (record { conn = d; files = w.files })).0
              (record w {
                connections =
                    replace_last
                      (handle_accept acceptor answers (record { conn = d; files = w.files })).1.conn
                      w.connections;
                files =
                    (handle_accept acceptor answers (record { conn = d; files = w.files })).1.files;
              }))
          (sym a.new)
          (IsSound-Ends _ _ safe (record {
            rising =
                subst
                  (λ cs. Rising 0 w.next_id (
                    replace_last
                      (handle_accept acceptor answers
                        (record { conn = new_connection c.id; files = w.files })).1.conn
                      cs))
                  (sym a.at_back)
                  (Rising-replace_last 0 w.next_id a.before c _
                    (subst (Rising 0 w.next_id) a.at_back a.rising) valid same);
          }));
  }

  accept_completed-keeps :
      (acceptor : Acceptor) (error : Option ErrorCode)
      → Triple IsSound (accept_completed acceptor answers error) (λ _. IsSound) (λ w. Unit)
  unfolding accept_completed
  accept_completed-keeps acceptor (some error) = do_async_accept-keeps _
  accept_completed-keeps acceptor none =
      Triple-then (do_async_accept-keeps _) (Triple-bind add-Added (λ c. on_local-keeps acceptor c))

  sweep_due-keeps :
      (error : Option ErrorCode)
      → Triple IsSound (sweep_due answers error) (λ _. IsSound) (λ w. Unit)
  unfolding sweep_due setup_sweep_timer
  sweep_due-keeps error =
      Triple-then {R = IsSound}
        (Triple-modify _
          (λ w h. record { rising = Rising-sweep 0 w.next_id w.connections h.rising }))
        (Triple-then (Triple-weaken (Triple-may_throw _ _) (λ w h. h) (λ u w h. h) (λ w h. tt))
          (Triple-modify _ (λ w h. record { rising = h.rising })))

  -- A handler of a connection, run where the connection stands.
  deliver_to-keeps :
      (acceptor : Acceptor) (i : ℕ) (e : Event) (c : Option Connection)
      → Triple
          (λ w. IsSound w × (is_due (completed i e) w ≡ true) × (c ≡ get_elem? w.connections i))
          (deliver_to acceptor answers i e c)
          (λ _. IsSound)
          (λ w. Unit)
  unfolding on_local
  deliver_to-keeps acceptor i e none = record { at = λ w p. cc (rw (← p.2) at p.1) }
  deliver_to-keeps acceptor i e (some c) = record {
    at = λ w p.
        let due : is_pending e c ≡ true = rw (← p.2) at p.1 in
        let l : Local = record { conn = c; files = w.files } in
        let valid : IsValid c =
          get_elem?-IsValid 0 w.next_id i w.connections c (sym p.2) p.0.rising in
        let (safe, after) = deliver-IsValid acceptor answers e l valid due in
        let (same, kept) = deliver_kept acceptor answers e l valid due in
        IsSound-Ends _ _ safe (record {
          rising = Rising-set_at 0 w.next_id i w.connections c _ (sym p.2) p.0.rising after same;
        });
  }

-- On a sound server, a handler that is due runs with no failed assertion, and leaves the server
-- sound if it returns.
pub run_call-IsSound :
    (acceptor : Acceptor) (answers : Answers) (call : Call) (w : World)
    → IsSound w
    → is_due call w ≡ true
    → Ends
        (λ _. IsSound)
        (λ w. Unit)
        (run_call acceptor answers call w).0
        (run_call acceptor answers call w).1
unfolding run_call
run_call-IsSound acceptor answers (accepted error) w s d =
    (Triple-then {P = IsSound} {E = λ w. Unit} {R = IsSound}
        (Triple-modify _ (λ w h. record { rising = h.rising }))
        (accept_completed-keeps answers acceptor error)).at
      w s
run_call-IsSound acceptor answers (swept error) w s d =
    (Triple-then {P = IsSound} {E = λ w. Unit} {R = IsSound}
        (Triple-modify _ (λ w h. record { rising = h.rising })) (sweep_due-keeps answers error)).at
      w s
run_call-IsSound acceptor answers (completed i e) w s d =
    (Triple-read {P = λ w. IsSound w × (is_due (completed i e) w ≡ true)} {E = λ w. Unit} (λ c.
        Triple-weaken (deliver_to-keeps answers acceptor i e c) (λ w p. (p.0.0, p.0.1, p.1))
          (λ u w h. h) (λ w h. h))).at
      w (s, d)

pub Step-IsSound :
    {acceptor : Acceptor} {w w' : World} → Step acceptor w w' → IsSound w → IsSound w'
Step-IsSound {acceptor} {w} {w'} (ran answers call d r) s =
    returned-IsSound (run_call acceptor answers call w) w'
      (run_call-IsSound acceptor answers call w s d) r

-- From a sound server, every state that the services reach by handlers that return is sound.
pub Reach-IsSound :
    {acceptor : Acceptor} {w w' : World} → Reach acceptor w w' → IsSound w → IsSound w'
Reach-IsSound here s = s
Reach-IsSound (next r st) s = Step-IsSound st (Reach-IsSound r s)
