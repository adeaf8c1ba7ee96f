-- ===== src/Net/Services/Leak.antt =====
-- A reference that is never given back keeps its connection for ever.
use mathlib.Core.Path.{subst}
use hyperion_server.Common.{
  ℕ, ◌≡◌, ◌≢◌, refl, sym, ap, ◌∙◌, inl, inr, true, Option, none, some, List, [], ◌∷◌, ◌++◌,
  get_elem?, Bool-cases, arith,
}
use hyperion_server.Common.Exec.{Outcome, returned, thrown, aborted, ◌>>=◌}
use hyperion_server.Common.Exec.Triple.{
  Ends, Triple, Triple-pure, Triple-read, Triple-modify, Triple-may_throw, Triple-bind, Triple-then,
  Triple-try, Triple-weaken,
}
use hyperion_server.Media.Save.{Answers}
use hyperion_server.Net.Props.{ErrorCode}
use hyperion_server.Net.Connection.{
  Connection, Local, async_write, async_wait, set_timer_expires_after, inc_ref_count, on_conn,
}
use hyperion_server.Net.Data.{World, make_connection, add}
use hyperion_server.Net.Acceptor.{Acceptor, handle_accept}
use hyperion_server.Net.Gc.{sweep_due, setup_sweep_timer}
use hyperion_server.Net.Events.{Event, written, is_pending}
use hyperion_server.Net.Events.Valid.{IsValid}
use hyperion_server.Net.Events.Handlers.{deliver}
use hyperion_server.Net.Events.Safety.{deliver-IsValid, deliver_kept}
use hyperion_server.Net.Services.{
  do_async_accept, replace_last, on_local, accept_completed, set_at, Call, accepted, swept,
  completed, is_due, deliver_to, run_call, Step, ran, Reach, here, next,
}
use hyperion_server.Net.Services.Valid.{IsSound, Step-IsSound, Reach-IsSound}
use hyperion_server.Net.Services.Rising.{get_elem?-IsValid}
use hyperion_server.Net.Services.Held.{Held, Held-sweep, Held-append, Held-set_at, Held-set_new}

abbrev Holding : ℕ → World → Type 0
Holding id w = Held id w.connections

-- What `Add` leaves of the connections that stood there.
record Behind (id : ℕ) (c : Connection) (w : World) : Type 0 where
  before : List Connection
  at_back : w.connections ≡ before ++ c ∷ []
  held : Held id before

keeps_Holding :
    (id : ℕ) (r : Outcome (Unit {0})) (w : World)
    → r ≢ aborted
    → Holding id w
    → Ends (λ _. Holding id) (λ w. Unit) r w
keeps_Holding id (returned u) w n h = h
keeps_Holding id (thrown e) w n h = tt
keeps_Holding id aborted w n h = absurd (n refl)

handle_accept-ne-aborted :
    (acceptor : Acceptor) (answers : Answers) (l : Local)
    → (handle_accept acceptor answers l).0 ≢ aborted
unfolding handle_accept async_write set_timer_expires_after async_wait inc_ref_count on_conn ◌>>=◌
handle_accept-ne-aborted acceptor answers l = elim (Bool-cases answers.expires_throws) [
  | inl e ↦ rw e (λ q. cc)
  | inr e ↦ rw e (λ q. cc)
]

module _ (acceptor : Acceptor) (answers : Answers) (id : ℕ) where
  do_async_accept-Holding :
      (E : World → Type 0) → Triple (Holding id) (do_async_accept answers) (λ _. Holding id) E
  unfolding do_async_accept
  do_async_accept-Holding E =
      Triple-try (Triple-then (Triple-may_throw _ _) (Triple-modify _ (λ w h. h)))
        (λ e. Triple-pure tt (λ w h. h))

  add-Behind : Triple (Holding id) (add answers) (Behind id) (λ w. Unit)
  unfolding add make_connection ◌>>=◌
  add-Behind = record {
    at = λ w h. elim (Bool-cases answers.remote_throws) [
      | inl e ↦ rw e tt
      | inr e ↦ rw e (record { before = w.connections; at_back = refl; held = h })
    ];
  }

  greet-Holding :
      (c : Connection)
      → Triple
          (Behind id c)
          (on_local replace_last c (handle_accept acceptor answers))
          (λ _. Holding id)
          (λ w. Unit)
  unfolding on_local
  greet-Holding c = record {
    at = λ w b.
        keeps_Holding id _ _
          (handle_accept-ne-aborted acceptor answers (record { conn = c; files = w.files }))
          (subst
            (λ cs. Held id (
              replace_last
                (handle_accept acceptor answers (record { conn = c; files = w.files })).1.conn cs))
            (sym b.at_back) (Held-append id b.before _ c b.held));
  }

  accept_completed-Holding :
      (error : Option ErrorCode)
      → Triple (Holding id) (accept_completed acceptor answers error) (λ _. Holding id) (λ w. Unit)
  unfolding accept_completed
  accept_completed-Holding (some error) = do_async_accept-Holding _
  accept_completed-Holding none =
      Triple-then (do_async_accept-Holding _) (Triple-bind add-Behind greet-Holding)

  sweep_due-Holding :
      (error : Option ErrorCode)
      → Triple (Holding id) (sweep_due answers error) (λ _. Holding id) (λ w. Unit)
  unfolding sweep_due setup_sweep_timer
  sweep_due-Holding error =
      Triple-then {R = Holding id} (Triple-modify _ (λ w h. Held-sweep id w.connections h)) (
        Triple-then (Triple-weaken (Triple-may_throw _ _) (λ w h. h) (λ u w h. h) (λ w h. tt))
          (Triple-modify _ (λ w h. h)))

  deliver_to-Holding :
      (i : ℕ) (e : Event) (c : Option Connection)
      → Triple
          (λ w.
            (IsSound w × (is_due (completed i e) w ≡ true) × Holding id w)
            × (c ≡ get_elem? w.connections i))
          (deliver_to acceptor answers i e c)
          (λ _. Holding id)
          (λ w. Unit)
  unfolding on_local
  deliver_to-Holding i e none = record { at = λ w p. cc (rw (← p.1) at p.0.1) }
  deliver_to-Holding i e (some c) = record {
    at = λ w p.
        let due : is_pending e c ≡ true = rw (← p.1) at p.0.1 in
        let l : Local = record { conn = c; files = w.files } in
        let valid : IsValid c =
          get_elem?-IsValid 0 w.next_id i w.connections c (sym p.1) p.0.0.rising in
        let (safe, after) = deliver-IsValid acceptor answers e l valid due in
        let (same, kept) = deliver_kept acceptor answers e l valid due in
        keeps_Holding id _ _ safe
          (Held-set_at id i w.connections c _ (sym p.1) same (omega (arith, kept)) p.0.2);
  }

  run_call-Holding :
      (call : Call) (w : World)
      → IsSound w
      → is_due call w ≡ true
      → Holding id w
      → Ends
          (λ _. Holding id)
          (λ w. Unit)
          (run_call acceptor answers call w).0
          (run_call acceptor answers call w).1
  unfolding run_call
  run_call-Holding (accepted error) w s d h =
      (Triple-then {P = Holding id} {E = λ w. Unit} {R = Holding id} (Triple-modify _ (λ w h. h))
          (accept_completed-Holding error)).at
        w h
  run_call-Holding (swept error) w s d h =
      (Triple-then {P = Holding id} {E = λ w. Unit} {R = Holding id} (Triple-modify _ (λ w h. h))
          (sweep_due-Holding error)).at
        w h
  run_call-Holding (completed i e) w s d h =
      (Triple-read {P = λ w. IsSound w × (is_due (completed i e) w ≡ true) × Holding id w}
          {E = λ w. Unit} (λ c. deliver_to-Holding i e c)).at
        w (s, d, h)

returned-Holding :
    (id : ℕ) (r : Outcome (Unit {0}) × World) (w : World)
    → Ends (λ _. Holding id) (λ w. Unit) r.0 r.1
    → r ≡ (returned tt, w)
    → Holding id w
returned-Holding id (returned u, v) w s e =
    subst (Holding id) (ap (λ (p : Outcome (Unit {0}) × World). p.1) e) s
returned-Holding id (thrown x, v) w s e = cc (ap (λ (p : Outcome (Unit {0}) × World). p.0) e)
returned-Holding id (aborted, v) w s e = absurd s

Step-Holding :
    {acceptor : Acceptor} (id : ℕ) {w w' : World}
    → Step acceptor w w'
    → IsSound w
    → Holding id w
    → Holding id w'
Step-Holding {acceptor} id {w} {w'} (ran answers call d r) s h =
    returned-Holding id (run_call acceptor answers call w) w'
      (run_call-Holding acceptor answers id call w s d h) r

Reach-Holding :
    {acceptor : Acceptor} (id : ℕ) {w w' : World}
    → Reach acceptor w w'
    → IsSound w
    → Holding id w
    → Holding id w'
Reach-Holding id here s h = h
Reach-Holding id (next r st) s h = Step-Holding id st (Reach-IsSound r s) (Reach-Holding id r s h)

module _ (acceptor : Acceptor) (answers : Answers) (i : ℕ) (error : ErrorCode)
    (c : Connection) where
  abbrev Failing : World → Type 0
  Failing w =
      IsSound w
      × (is_due (completed i (written (some error))) w ≡ true)
      × (get_elem? w.connections i ≡ some c)

  failed_write :
      (found : Option Connection)
      → Triple
          (λ w. Failing w × (found ≡ get_elem? w.connections i))
          (deliver_to acceptor answers i (written (some error)) found)
          (λ _. Holding c.id)
          (λ w. Unit)
  unfolding on_local
  failed_write none = record { at = λ w p. cc (p.1, p.0.2) }
  failed_write (some d) = record {
    at = λ w p.
        let due : is_pending (written (some error)) d ≡ true = rw (← p.1) at p.0.1 in
        let l : Local = record { conn = d; files = w.files } in
        let valid : IsValid d =
          get_elem?-IsValid 0 w.next_id i w.connections d (sym p.1) p.0.0.rising in
        let (safe, after) = deliver-IsValid acceptor answers (written (some error)) l valid due in
        let (same, kept) = deliver_kept acceptor answers (written (some error)) l valid due in
        let found : d ≡ c = ground (arith, p.1, p.0.2) in
        keeps_Holding c.id _ _ safe (
          subst
            (λ id.
              Held id
                (set_at i (deliver acceptor answers (written (some error)) l).1.conn w.connections))
            (same ∙ ap (λ (z : Connection). z.id) found)
            (Held-set_new i w.connections d _ (sym p.1) (omega (arith, kept))));
  }

  failed_run :
      (w : World)
      → Failing w
      → Ends
          (λ _. Holding c.id)
          (λ w. Unit)
          (run_call acceptor answers (completed i (written (some error))) w).0
          (run_call acceptor answers (completed i (written (some error))) w).1
  unfolding run_call
  failed_run w p = (Triple-read {P = Failing} {E = λ w. Unit} failed_write).at w p

-- On a sound server: if a write to a connection fails and its handler returns, that connection
-- stays in the list, with a reference that no pending operation holds, in every state that the
-- services reach from there.
pub failed_write-Held :
    (acceptor : Acceptor) (answers : Answers) (i : ℕ) (error : ErrorCode) (c : Connection)
    {w w' v : World}
    → IsSound w
    → get_elem? w.connections i ≡ some c
    → is_due (completed i (written (some error))) w ≡ true
    → run_call acceptor answers (completed i (written (some error))) w ≡ (returned tt, w')
    → Reach acceptor w' v
    → Held c.id v.connections
failed_write-Held acceptor answers i error c {w} {w'} {v} s g d r reach =
    Reach-Holding c.id reach (Step-IsSound (ran answers (completed i (written (some error))) d r) s)
      (returned-Holding c.id _ w' (failed_run acceptor answers i error c w (s, d, g)) r)
