-- ===== src/Net/Events/Safety.antt =====
-- Every handler of a connection: its assertions, its exceptions and its references.
use hyperion_server.Common.{ℕ, suc, ◌+◌, ◌≤◌, ◌≡◌, ◌≢◌, refl, true, false, none, some, List, arith}
use hyperion_server.Common.Exec.{Error, Outcome, returned, thrown, aborted}
use hyperion_server.Common.Exec.Triple.{Ends}
use hyperion_server.Media.Save.{Answers}
use hyperion_server.Net.Connection.{Local}
use hyperion_server.Net.Acceptor.{Acceptor}
use hyperion_server.Net.Events.{
  Event, written, read, received, send_waited, receive_waited, is_pending,
}
use hyperion_server.Net.Events.Running.{Holds, Any, Pathed}
use hyperion_server.Net.Events.Operations.{On}
use hyperion_server.Net.Events.Valid.{IsValid, slack, Holds-IsValid}
use hyperion_server.Net.Events.Handlers.{leaks, after_leak, Escapes, deliver, delivered}

module _ (answers : Answers) (own k : ℕ) where
  ends_IsValid :
      (e : Event) (r : Outcome (Unit {0})) (l : Local)
      → Ends (λ _. On (Holds answers own (after_leak e k) false Any)) (Escapes answers own k e) r l
      → (r ≢ aborted) × IsValid l.conn
  ends_IsValid e (returned u) l h =
      (λ q. cc, Holds-IsValid answers own (after_leak e k) Any l.conn h)
  ends_IsValid (received none bytes) (thrown x) l h =
      (λ q. cc, Holds-IsValid answers own (suc k) Pathed l.conn h.0)
  ends_IsValid (received (some error) bytes) (thrown x) l h = absurd h
  ends_IsValid (written error) (thrown x) l h = absurd h
  ends_IsValid (read error bytes) (thrown x) l h = absurd h
  ends_IsValid (send_waited error) (thrown x) l h = absurd h
  ends_IsValid (receive_waited error) (thrown x) l h = absurd h
  ends_IsValid e aborted l h = absurd h

  ends_thrown :
      (e : Event) (r : Outcome (Unit {0})) (l : Local) (x : Error)
      → Ends (λ _. On (Holds answers own (after_leak e k) false Any)) (Escapes answers own k e) r l
      → r ≡ thrown x
      → (answers.prepare_throws ≡ true) × ((bytes : List ℕ) × (e ≡ received none bytes))
  ends_thrown e (returned u) l x h q = cc
  ends_thrown (received none bytes) (thrown y) l x h q = (h.1, (bytes, refl))
  ends_thrown (received (some error) bytes) (thrown y) l x h q = absurd h
  ends_thrown (written error) (thrown y) l x h q = absurd h
  ends_thrown (read error bytes) (thrown y) l x h q = absurd h
  ends_thrown (send_waited error) (thrown y) l x h q = absurd h
  ends_thrown (receive_waited error) (thrown y) l x h q = absurd h
  ends_thrown e aborted l x h q = absurd h

  after_leak_lem : (e : Event) → after_leak e k ≡ k + leaks e
  after_leak_lem (written (some error)) = omega arith
  after_leak_lem (written none) = omega arith
  after_leak_lem (read error bytes) = omega arith
  after_leak_lem (received error bytes) = omega arith
  after_leak_lem (send_waited error) = omega arith
  after_leak_lem (receive_waited error) = omega arith

  ends_kept :
      (e : Event) (r : Outcome (Unit {0})) (l : Local)
      → Ends (λ _. On (Holds answers own (after_leak e k) false Any)) (Escapes answers own k e) r l
      → (l.id ≡ own) × (k + leaks e ≤ slack l.conn)
  ends_kept e (returned u) l h = (h.own_id, omega (arith, h.counted, after_leak_lem e))
  ends_kept (received none bytes) (thrown x) l h = (h.0.own_id, omega (arith, h.0.counted))
  ends_kept (received (some error) bytes) (thrown x) l h = absurd h
  ends_kept (written error) (thrown x) l h = absurd h
  ends_kept (read error bytes) (thrown x) l h = absurd h
  ends_kept (send_waited error) (thrown x) l h = absurd h
  ends_kept (receive_waited error) (thrown x) l h = absurd h
  ends_kept e aborted l h = absurd h

  ends_slack :
      (e : Event) (r : Outcome (Unit {0})) (l : Local)
      → answers.prepare_throws ≡ false
      → Ends (λ _. On (Holds answers own (after_leak e k) false Any)) (Escapes answers own k e) r l
      → slack l.conn ≡ k + leaks e
  ends_slack e (returned u) l f h = omega (arith, h.counted, h.exact f, after_leak_lem e)
  ends_slack e (thrown x) l f h = let t = ends_thrown e (thrown x) l x h refl in cc (t.0, f)
  ends_slack e aborted l f h = absurd h

module _ (acceptor : Acceptor) (answers : Answers) (e : Event) (l : Local) where
  -- Whatever pending operation completes on a valid connection, and whatever the environment
  -- answers, no assertion of the handler fails, no byte outside a buffer is read, and the
  -- connection is valid again.
  pub deliver-IsValid :
      IsValid l.conn
      → is_pending e l.conn ≡ true
      → ((deliver acceptor answers e l).0 ≢ aborted) × IsValid (deliver acceptor answers e l).1.conn
  deliver-IsValid v p =
      ends_IsValid answers l.id (slack l.conn) e _ _ (delivered acceptor answers e l v p)

  -- On a valid connection, for an operation that is pending, an exception leaves the handler only
  -- where `prepare` throws after bytes have been received without an error.
  pub deliver_thrown :
      (x : Error)
      → IsValid l.conn
      → is_pending e l.conn ≡ true
      → (deliver acceptor answers e l).0 ≡ thrown x
      → (answers.prepare_throws ≡ true) × ((bytes : List ℕ) × (e ≡ received none bytes))
  deliver_thrown x v p q =
      ends_thrown answers l.id (slack l.conn) e _ _ x (delivered acceptor answers e l v p) q

  -- On a valid connection, for an operation that is pending, and unless `prepare` throws, the
  -- handler gives back exactly the references that it took, but for one: the reference of a write
  -- that failed is kept.
  pub slack-deliver :
      IsValid l.conn
      → is_pending e l.conn ≡ true
      → answers.prepare_throws ≡ false
      → slack (deliver acceptor answers e l).1.conn ≡ slack l.conn + leaks e
  slack-deliver v p f =
      ends_slack answers l.id (slack l.conn) e _ _ f (delivered acceptor answers e l v p)

  -- On a valid connection, for an operation that is pending, the handler does not change the
  -- identifier, gives back no reference that it did not take, and keeps that of a write that
  -- failed.
  pub deliver_kept :
      IsValid l.conn
      → is_pending e l.conn ≡ true
      → ((deliver acceptor answers e l).1.id ≡ l.id)
        × (slack l.conn + leaks e ≤ slack (deliver acceptor answers e l).1.conn)
  deliver_kept v p =
      ends_kept answers l.id (slack l.conn) e _ _ (delivered acceptor answers e l v p)
