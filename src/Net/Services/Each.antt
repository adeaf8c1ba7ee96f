-- ===== src/Net/Services/Each.antt =====
-- What holds of every connection in every state that the services reach.
use mathlib.Core.Path.{subst}
use hyperion_server.Common.{
  ℕ, zero, suc, ◌≡◌, ap, Option, none, some, List, [], ◌∷◌, get_elem?, All, All-append, arith,
  Bool-cases, inl, inr,
}
use hyperion_server.Common.Exec.{Outcome, returned, ◌>>=◌}
use hyperion_server.Common.Exec.Kept.{
  Kept, Kept-pure, Kept-assert, Kept-may_throw, Kept-modify, Kept-bind, Kept-try, Kept-known,
  Kept-read,
}
use hyperion_server.Media.Save.{Files, Answers}
use hyperion_server.Net.Connection.{Connection, Local, new_connection}
use hyperion_server.Net.Acceptor.{Acceptor, handle_accept}
use hyperion_server.Net.Props.{ErrorCode}
use hyperion_server.Net.Data.{World, make_connection, add}
use hyperion_server.Net.Gc.{sweep, sweep_due, setup_sweep_timer}
use hyperion_server.Net.Events.{Event}
use hyperion_server.Net.Events.Handlers.{deliver}
use hyperion_server.Net.Services.{
  do_async_accept, replace_last, on_local, accept_completed, set_at, Call, accepted, swept,
  completed, deliver_to, run_call, Step, ran, Reach, here, next,
}

-- A predicate of every connection.
abbrev pub AllOf : (Connection → Type 0) → World → Type 0
AllOf P w = All P w.connections

-- What `HandleAccept` starts from.
abbrev pub new_local : ℕ → Files → Local
new_local id files = record { conn = new_connection id; files = files }

module _ (P : Connection → Type 0) where
  All-sweep : (cs : List Connection) → All P cs → All P (sweep cs)
  unfolding sweep
  All-sweep [] h = tt
  All-sweep (c ∷ cs) h = ground (arith, All-sweep cs h.1)

  All-replace_last :
      (d : Connection) (cs : List Connection) → P d → All P cs → All P (replace_last d cs)
  unfolding replace_last
  All-replace_last d [] p h = tt
  All-replace_last d (c ∷ []) p h = (p, tt)
  All-replace_last d (c ∷ x ∷ cs) p h = (h.0, All-replace_last d (x ∷ cs) p h.1)

  pub All-set_at :
      (i : ℕ) (d : Connection) (cs : List Connection) → P d → All P cs → All P (set_at i d cs)
  unfolding set_at
  All-set_at i d [] p h = tt
  All-set_at zero d (c ∷ cs) p h = (p, h.1)
  All-set_at (suc i) d (c ∷ cs) p h = (h.0, All-set_at i d cs p h.1)

  pub All-get_elem? :
      (i : ℕ) (cs : List Connection) (c : Connection) → get_elem? cs i ≡ some c → All P cs → P c
  All-get_elem? i [] c e h = cc
  All-get_elem? zero (x ∷ cs) c e h = let same : x ≡ c = cc in subst P same h.0
  All-get_elem? (suc i) (x ∷ cs) c e h = All-get_elem? i cs c e h.1

module _ (acceptor : Acceptor) (answers : Answers) (P : Connection → Type 0)
    (accepts : (id : ℕ) (files : Files)
      → P (handle_accept acceptor answers (new_local id files)).1.conn)
    (new : (id : ℕ) → P (new_connection id)) where
  accept-Kept : Kept (AllOf P) (do_async_accept answers)
  unfolding do_async_accept
  accept-Kept =
      Kept-try (Kept-bind (Kept-may_throw _ _) (λ u. Kept-modify _ (λ w h. h))) (λ e. Kept-pure _)

  add-Kept : Kept (AllOf P) (add answers)
  unfolding add make_connection ◌>>=◌
  add-Kept = record {
    at = λ w h. elim (Bool-cases answers.remote_throws) [
      | inl e ↦ rw e h
      | inr e ↦ rw e (All-append _ w.connections _ h (new w.next_id, tt))
    ];
  }

  add_new :
      (w : World) (c : Connection) → (add answers w).0 ≡ returned c → new_connection w.next_id ≡ c
  unfolding add make_connection ◌>>=◌
  add_new w c e = elim (Bool-cases answers.remote_throws) [
    | inl t ↦ cc (rw t at e)
    | inr t ↦ cc (rw t at e)
  ]

  on_local-Kept :
      (id : ℕ) (c : Connection)
      → new_connection id ≡ c
      → Kept (AllOf P) (on_local replace_last c (handle_accept acceptor answers))
  unfolding on_local
  on_local-Kept id c e = record {
    at = λ w h.
        All-replace_last P _ w.connections
          (subst
            (λ c. P (handle_accept acceptor answers (record { conn = c; files = w.files })).1.conn)
            e (accepts id w.files))
          h;
  }

  -- The acceptor and the collector.
  pub accepted-Kept :
      (error : Option ErrorCode) → Kept (AllOf P) (run_call acceptor answers (accepted error))
  unfolding run_call accept_completed
  accepted-Kept (some error) = Kept-bind (Kept-modify _ (λ w h. h)) (λ u. accept-Kept)
  accepted-Kept none = Kept-bind (Kept-modify _ (λ w h. h)) (λ u.
      Kept-bind accept-Kept
        (λ u. Kept-known add-Kept (λ w h c e. on_local-Kept w.next_id c (add_new w c e))))

  pub swept-Kept :
      (error : Option ErrorCode) → Kept (AllOf P) (run_call acceptor answers (swept error))
  unfolding run_call sweep_due setup_sweep_timer
  swept-Kept error = Kept-bind (Kept-modify _ (λ w h. h)) (λ u.
      Kept-bind (Kept-modify _ (λ w h. All-sweep P w.connections h))
        (λ u. Kept-bind (Kept-may_throw _ _) (λ u. Kept-modify _ (λ w h. h))))

module _ (acceptor : Acceptor) (answers : Answers) (P : Connection → Type 0)
    (keeps : (e : Event) (l : Local) → P l.conn → P (deliver acceptor answers e l).1.conn)
    (accepts : (id : ℕ) (files : Files)
      → P (handle_accept acceptor answers (new_local id files)).1.conn)
    (new : (id : ℕ) → P (new_connection id)) where
  completed-Kept :
      (i : ℕ) (e : Event) (c : Connection)
      → P c
      → Kept (AllOf P) (deliver_to acceptor answers i e (some c))
  unfolding on_local
  completed-Kept i e c p = record {
    at = λ w h. All-set_at P i _ w.connections (keeps e (record { conn = c; files = w.files }) p) h;
  }

  looked-Kept :
      (i : ℕ) (e : Event) (o : Option Connection) (w : World)
      → AllOf P w
      → get_elem? w.connections i ≡ o
      → Kept (AllOf P) (deliver_to acceptor answers i e o)
  looked-Kept i e none w h q = Kept-assert _
  looked-Kept i e (some c) w h q = completed-Kept i e c (All-get_elem? P i w.connections c q h)

  run_call-Kept : (call : Call) → Kept (AllOf P) (run_call acceptor answers call)
  unfolding run_call
  run_call-Kept (accepted error) = accepted-Kept acceptor answers P accepts new error
  run_call-Kept (swept error) = swept-Kept acceptor answers P accepts new error
  run_call-Kept (completed i e) = Kept-read _ (λ w h o q. looked-Kept i e o w h q)

module _ (acceptor : Acceptor) (P : Connection → Type 0)
    (keeps : (answers : Answers) (e : Event) (l : Local)
      → P l.conn
      → P (deliver acceptor answers e l).1.conn)
    (accepts : (answers : Answers) (l : Local)
      → P l.conn
      → P (handle_accept acceptor answers l).1.conn)
    (new : (id : ℕ) → P (new_connection id)) where
  AllOf-Step : {w w' : World} → Step acceptor w w' → AllOf P w → AllOf P w'
  AllOf-Step {w} (ran answers call due e) h =
      subst (AllOf P) (ap (λ (r : Outcome (Unit {0}) × World). r.1) e) (
        (run_call-Kept acceptor answers P (keeps answers)
            (λ id files. accepts answers (new_local id files) (new id)) new call).at
          w h)

  pub AllOf-Reach : {w w' : World} → Reach acceptor w w' → AllOf P w → AllOf P w'
  AllOf-Reach here h = h
  AllOf-Reach (next r st) h = AllOf-Step st (AllOf-Reach r h)
