-- ===== src/Net/Services/Exact.antt =====
-- The references, counted exactly: what the services reach where no write fails and no memory runs
-- out.
use mathlib.Core.Path.{subst}
use mathlib.Core.List.{Mem, mem-cons, not-mem-nil}
use mathlib.Core.Logic.Or
use hyperion_server.Common.{
  ℕ, suc, ◌<◌, ◌≡◌, ◌↔◌, refl, sym, ap, Bool, true, false, not, none, some, List, [], ◌∷◌, All,
  Bool-cases, inl, inr, arith,
}
use hyperion_server.Common.Exec.{Outcome, returned, ◌>>=◌}
use hyperion_server.Media.Save.{Answers}
use hyperion_server.Net.Connection.{
  Connection, Local, new_connection, async_write, async_wait, set_timer_expires_after,
  inc_ref_count, on_conn,
}
use hyperion_server.Net.Data.{World}
use hyperion_server.Net.Acceptor.{Acceptor, handle_accept}
use hyperion_server.Net.Gc.{sweep}
use hyperion_server.Net.Gc.Sweep.{mem-sweep}
use hyperion_server.Net.Events.{
  Event, written, read, received, send_waited, receive_waited, is_pending,
}
use hyperion_server.Net.Events.Running.{pending}
use hyperion_server.Net.Events.Valid.{IsValid, slack}
use hyperion_server.Net.Events.Handlers.{deliver, leaks}
use hyperion_server.Net.Events.Safety.{slack-deliver}
use hyperion_server.Net.Services.{Call, completed, is_due, run_call, ran, Reach, here, next}
use hyperion_server.Net.Services.Valid.{IsSound, Reach-IsSound}
use hyperion_server.Net.Services.Rising.{Rising}
use hyperion_server.Net.Services.Due.{run_call-AllOf}
use hyperion_server.Net.Services.Each.{new_local, AllOf}

-- No write failed, and `prepare` does not throw.
abbrev pub is_calm : Answers → Call → Bool
is_calm answers (completed i (written (some error))) = false
is_calm answers _ = not answers.prepare_throws

-- As `Reach`, by such handlers only.
pub data CalmReach (acceptor : Acceptor) (w : World) : World → Type 0 where
  at_start : CalmReach acceptor w w
  calmly :
      {v u : World} (answers : Answers) (call : Call)
      → CalmReach acceptor w v
      → is_calm answers call ≡ true
      → is_due call v ≡ true
      → run_call acceptor answers call v ≡ (returned tt, u)
      → CalmReach acceptor w u

pub CalmReach-Reach :
    {acceptor : Acceptor} {w v : World} → CalmReach acceptor w v → Reach acceptor w v
CalmReach-Reach at_start = here
CalmReach-Reach (calmly answers call r c d e) = next (CalmReach-Reach r) (ran answers call d e)

abbrev Exact : Connection → Type 0
Exact c = slack c ≡ 0

handle_accept-Exact :
    (acceptor : Acceptor) (answers : Answers) (l : Local)
    → Exact l.conn
    → Exact (handle_accept acceptor answers l).1.conn
unfolding handle_accept async_write set_timer_expires_after async_wait inc_ref_count on_conn ◌>>=◌
handle_accept-Exact acceptor answers l h = elim (Bool-cases answers.expires_throws) [
  | inl e ↦ rw e (omega (arith, h))
  | inr e ↦ rw e (omega (arith, h))
]

new_connection-Exact : (id : ℕ) → Exact (new_connection id)
unfolding new_connection
new_connection-Exact id = refl

calm_leaks :
    (answers : Answers) (i : ℕ) (e : Event)
    → is_calm answers (completed i e) ≡ true
    → (answers.prepare_throws ≡ false) × (leaks e ≡ 0)
calm_leaks answers i (written (some error)) c = cc
calm_leaks answers i (written none) c = (ground arith, refl)
calm_leaks answers i (read error bytes) c = (ground arith, refl)
calm_leaks answers i (received error bytes) c = (ground arith, refl)
calm_leaks answers i (send_waited error) c = (ground arith, refl)
calm_leaks answers i (receive_waited error) c = (ground arith, refl)

delivered-Exact :
    (acceptor : Acceptor) (answers : Answers) (i : ℕ) (e : Event) (l : Local)
    → is_calm answers (completed i e) ≡ true
    → IsValid l.conn
    → is_pending e l.conn ≡ true
    → Exact l.conn
    → Exact (deliver acceptor answers e l).1.conn
delivered-Exact acceptor answers i e l c valid due exact =
    let (fine, none_left) = calm_leaks answers i e c in
    let same = slack-deliver acceptor answers e l valid due fine in
    omega (arith, same, exact, none_left)

CalmReach-Exact :
    {acceptor : Acceptor} {w v : World}
    → CalmReach acceptor w v
    → IsSound w
    → AllOf Exact w
    → AllOf Exact v
CalmReach-Exact at_start s h = h
CalmReach-Exact {acceptor} (calmly {v} answers call r c d e) s h =
    subst (AllOf Exact) (ap (λ (o : Outcome (Unit {0}) × World). o.1) e) (
      run_call-AllOf acceptor (λ answers call. is_calm answers call ≡ true) Exact
        (delivered-Exact acceptor)
        (λ answers id files.
          handle_accept-Exact acceptor answers (new_local id files) (new_connection-Exact id))
        new_connection-Exact answers call v (Reach-IsSound (CalmReach-Reach r) s) c d
        (CalmReach-Exact r s h))

abbrev pub Counted : Connection → Type 0
Counted c = c.ref_count ≡ pending c

All-Counted :
    (low high : ℕ) (cs : List Connection) → Rising low high cs → All Exact cs → All Counted cs
All-Counted low high [] r h = tt
All-Counted low high (c ∷ cs) r h =
    (omega (arith, r.0.counted, h.0), All-Counted (suc c.id) high cs r.2 h.1)

Mem-Counted : (c : Connection) (cs : List Connection) → All Counted cs → Mem c cs → Counted c
Mem-Counted c [] h m = absurd (not-mem-nil m)
Mem-Counted c (d ∷ cs) h m =
    Or.elim (hlevel) (mem-cons.0 m) (λ e. subst Counted (sym e) h.0) (λ t. Mem-Counted c cs h.1 t)

module _ {acceptor : Acceptor} {w v : World} (sound : IsSound w) (exact : AllOf Exact w)
    (r : CalmReach acceptor w v) where
  pub CalmReach-Counted : All Counted v.connections
  CalmReach-Counted =
      All-Counted 0 v.next_id v.connections (Reach-IsSound (CalmReach-Reach r) sound).rising
        (CalmReach-Exact r sound exact)

  pub CalmReach-sweep :
      (c : Connection) → Mem c (sweep v.connections) ↔ (Mem c v.connections × (0 < pending c))
  CalmReach-sweep c =
      let kept = mem-sweep c v.connections in
      (
        λ m. (
          (kept.0 m).0,
          omega (arith, (kept.0 m).1, Mem-Counted c v.connections CalmReach-Counted (kept.0 m).0),
        ),
        λ p.
            kept.1
              (p.0, λ z. omega (arith, p.1, z, Mem-Counted c v.connections CalmReach-Counted p.0)),
      )
