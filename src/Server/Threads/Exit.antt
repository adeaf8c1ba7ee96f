-- ===== src/Server/Threads/Exit.antt =====
-- When the program ends normally.
use mathlib.Core.Path.{subst}
use hyperion_server.Common.{
  ◌+◌, ◌≤◌, ◌≡◌, ◌≢◌, ◌↔◌, refl, Option, none, some, List, ◌∷◌, ◌++◌, length, All, true,
}
use hyperion_server.Common.Text.{Text}
use hyperion_server.Media.Save.{Files}
use hyperion_server.Net.Gc.Sweep.{all_pending}
use hyperion_server.Server.Loops.{stop}
use hyperion_server.Server.Collecting.{destroy_connections-returned}
use hyperion_server.Server.Threads.{
  Environment, MainPhase, reading, stopping, joining, over, Crash, no_acceptor,
  connection_assertion, start_exception, handler_exception, handler_assertion, Program, new_program,
  Turn, run_turns,
}
use hyperion_server.Server.Threads.Turns.{tally, is_main, is_services}
use hyperion_server.Server.Threads.Ending.{is_ended, run_turns-IsEnded}
use hyperion_server.Server.Threads.Over.{run_turns_over}
use hyperion_server.Server.Threads.Calm.{
  Fine, Blame, CalmFollows, run_turns-IsCalm, new_program-IsCalm,
}

is_over : (m : MainPhase) → is_ended m none ≡ true → m ≡ over
is_over over e = refl
is_over reading e = cc
is_over stopping e = cc
is_over joining e = cc

module _ (server : Environment) (files : Files) where
  -- Nothing is to blame but an operation that is pending.
  blameless :
      (c : Option Crash) (p : Program)
      → Blame c p
      → CalmFollows server files p.services p.world
      → c ≢ some no_acceptor
      → all_pending p.world.connections ≡ 0
      → is_ended p.main c ≡ true
      → p.main ≡ over
  blameless none p b f n z e = is_over p.main e
  blameless (some no_acceptor) p b f n z e = absurd (n refl)
  blameless (some connection_assertion) p b f n z e =
      let (answers, r) = subst (λ s. CalmFollows server files s p.world) b.0 f in
      absurd (b.1 ((destroy_connections-returned server.acceptor answers files p.world r).1 z))
  blameless (some start_exception) p b f n z e = absurd b
  blameless (some handler_exception) p b f n z e = absurd b
  blameless (some handler_assertion) p b f n z e = absurd b

  -- Once "stop" was typed, with turns as in `run_turns-IsEnded`, where no write failed, none of the
  -- calls that are not caught threw, and the acceptor was made: the program ends normally exactly
  -- where asio has no operation of any connection pending.
  pub run_turns-over :
      (before after : List Text) (first second third : List Turn)
      → length before + 3 ≤ tally is_main first
      → 2 ≤ tally is_services second
      → 1 ≤ tally is_main third
      → All Fine (first ++ (second ++ third))
      → (run_turns server
          (first ++ (second ++ third))
          (new_program files (before ++ stop ∷ after))).crash
        ≢ some no_acceptor
      → ((run_turns server
            (first ++ (second ++ third))
            (new_program files (before ++ stop ∷ after))).main
          ≡ over)
        ↔ (all_pending
              (run_turns server
                (first ++ (second ++ third))
                (new_program files (before ++ stop ∷ after))).world.connections
            ≡ 0)
  run_turns-over before after first second third f g h fine made =
      let turns = first ++ (second ++ third) in
      let lines = before ++ stop ∷ after in
      let p = run_turns server turns (new_program files lines) in
      let calm =
        run_turns-IsCalm server files turns _ fine (new_program-IsCalm server files lines) in
      let ends = run_turns-IsEnded server files before after first second third f g h in
      (
        λ o. (run_turns_over server files lines turns o).1,
        λ z. blameless p.crash p calm.blame calm.follows made z ends,
      )
