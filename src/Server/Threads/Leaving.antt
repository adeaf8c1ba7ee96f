-- ===== src/Server/Threads/Leaving.antt =====
-- The thread of the services, once it is stopped.
use mathlib.Core.Path.{subst}
use hyperion_server.Common.{ℕ, suc, ◌-◌, ◌≤◌, ◌≡◌, ◌||◌, ◌==◌, refl, sym, true, arith}
use hyperion_server.Common.Exec.{Outcome, returned, thrown, aborted}
use hyperion_server.Media.Save.{Answers}
use hyperion_server.Net.Data.{World}
use hyperion_server.Net.Services.{Call}
use hyperion_server.Server.{run_connection_services, destroy_connections}
use hyperion_server.Server.Threads.{
  Environment, MainPhase, reading, stopping, joining, over, ServicesPhase, making, starting,
  serving, left, Program, destroyed, join, main_at, began, work, services_at, Turn, of_main,
  of_services, turn_of,
}
use hyperion_server.Server.Threads.Turns.{if_keeps, Alive, is_services}
use hyperion_server.Server.Threads.Heading.{Heading, turn_of-Headed, headed_stopped}

-- The thread of the services has at most this many turns left.
abbrev pub to_leave : ServicesPhase → ℕ
to_leave left = 0
to_leave serving = 1
to_leave starting = 2
to_leave (making n) = 1

abbrev pub Leaving : ℕ → Program → Type 0
Leaving n p = Heading 0 p.main p.terminal p.stopped × (to_leave p.services ≤ n)

destroyed-services : (r : Outcome (Unit {0})) (p : Program) → (destroyed r p).services ≡ p.services
destroyed-services (returned u) p = refl
destroyed-services (thrown e) p = refl
destroyed-services aborted p = refl

join-services : (s : ServicesPhase) (p : Program) → (join s p).services ≡ p.services
join-services left p = destroyed-services (destroy_connections p.world.connections) p
join-services (making i) p = refl
join-services starting p = refl
join-services serving p = refl

pub main_at-services : (m : MainPhase) (p : Program) → (main_at m p).services ≡ p.services
main_at-services reading p =
    if_keeps (λ (q : Program). q.services ≡ p.services) p.terminal.services_exit _ _ (λ e. refl)
      (λ e. refl)
main_at-services stopping p = refl
main_at-services joining p = join-services p.services p
main_at-services over p = refl

-- Once the server is stopped, each turn of the services brings their thread nearer to its end.
services_at-to_leave :
    (server : Environment) (answers : Answers) (call : Call) (s : ServicesPhase) (p : Program)
    → p.services ≡ s
    → p.terminal.services_exit ≡ true
    → p.stopped ≡ true
    → Alive (λ q. to_leave q.services ≤ to_leave s - 1) (services_at server answers call s p)
services_at-to_leave server answers call (making n) p e x t =
    if_keeps (Alive (λ q. to_leave q.services ≤ 0)) p.terminal.services_exit _ _ (λ e q. cc)
      (λ e. cc)
services_at-to_leave server answers call starting p e x t =
    began_leaves (run_connection_services answers p.world).0
      (run_connection_services answers p.world).1 p
  where
    began_leaves :
        (r : Outcome (Unit {0})) (w : World) (p : Program)
        → Alive (λ q. to_leave q.services ≤ 1) (began r w p)
    began_leaves (returned u) w p = λ _. omega arith
    began_leaves (thrown e) w p = λ q. cc
    began_leaves aborted w p = λ q. cc
services_at-to_leave server answers call serving p e x t =
    if_keeps (Alive (λ q. to_leave q.services ≤ 0)) (p.stopped || (work p.world == 0)) _ _
      (λ e q. omega arith) (λ e. cc)
services_at-to_leave server answers call left p e x t = λ _. ap_le (sym e)
  where
    ap_le : {s : ServicesPhase} → left ≡ s → to_leave s ≤ 0
    ap_le e = subst (λ s. to_leave s ≤ 0) e (omega arith)

module _ (server : Environment) where
  pub turn_of-Leaving :
      (n : ℕ) (t : Turn) (p : Program) → Leaving n p → Alive (Leaving n) (turn_of server t p)
  turn_of-Leaving n of_main p h = λ q. (
    turn_of-Headed server 0 of_main p h.0 q,
    subst (λ s. to_leave s ≤ n) (sym (main_at-services p.main p)) h.1,
  )
  turn_of-Leaving n (of_services answers call) p h =
      let (x, t) = headed_stopped p.main p.terminal p.stopped h.0 in
      λ q. (
        turn_of-Headed server 0 (of_services answers call) p h.0 q,
        omega (arith, h.1, services_at-to_leave server answers call p.services p refl x t q),
      )

  pub turn_of-Leaving_next :
      (n : ℕ) (t : Turn) (p : Program)
      → is_services t ≡ true
      → Leaving (suc n) p
      → Alive (Leaving n) (turn_of server t p)
  turn_of-Leaving_next n of_main p e h = cc
  turn_of-Leaving_next n (of_services answers call) p e h =
      let (x, t) = headed_stopped p.main p.terminal p.stopped h.0 in
      λ q. (
        turn_of-Headed server 0 (of_services answers call) p h.0 q,
        omega (arith, h.1, services_at-to_leave server answers call p.services p refl x t q),
      )

pub to_leave_le : (s : ServicesPhase) → to_leave s ≤ 2
to_leave_le left = omega arith
to_leave_le serving = omega arith
to_leave_le starting = omega arith
to_leave_le (making n) = omega arith

pub has_left : (s : ServicesPhase) → to_leave s ≤ 0 → s ≡ left
has_left left l = refl
has_left serving l = absurd (omega arith)
has_left starting l = absurd (omega arith)
has_left (making n) l = absurd (omega arith)
