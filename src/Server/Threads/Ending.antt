-- ===== src/Server/Threads/Ending.antt =====
-- That the program ends once "stop" was typed.
use mathlib.Core.Path.{subst}
use hyperion_server.Common.{
  ℕ, suc, ◌+◌, ◌-◌, ◌≤◌, ◌≡◌, refl, sym, ◌∙◌, Bool, true, false, Option, none, some, List, ◌∷◌,
  ◌++◌, length, arith,
}
use hyperion_server.Common.Text.{Text}
use hyperion_server.Common.Exec.{Outcome, returned, thrown, aborted}
use hyperion_server.Media.Save.{Files}
use hyperion_server.Server.{Terminal, destroy_connections}
use hyperion_server.Server.Threads.{
  Environment, MainPhase, reading, stopping, joining, over, left, Crash, Program, new_program,
  destroyed, join, main_at, services_at, Turn, of_main, of_services, turn_of, run_turns,
}
use hyperion_server.Server.Loops.{stop}
use hyperion_server.Server.Threads.Turns.{
  Alive, tally, is_main, is_services, run_turns-Alive, run_turns-append,
}
use hyperion_server.Server.Threads.Heading.{
  Heading, Headed, turn_of-Headed, turn_of-Headed_next, until_stop_le,
}
use hyperion_server.Server.Threads.Leaving.{
  Leaving, turn_of-Leaving, turn_of-Leaving_next, to_leave_le, has_left, main_at-services,
}

-- The program ended, or was aborted.
abbrev pub is_ended : MainPhase → Option Crash → Bool
is_ended over c = true
is_ended _ none = false
is_ended _ (some crash) = true

abbrev pub IsEnded : Program → Type 0
IsEnded p = is_ended p.main p.crash ≡ true

abbrev to_end : MainPhase → ℕ
to_end over = 0
to_end joining = 1
to_end _ = 2

abbrev Closing : ℕ → Program → Type 0
Closing n p = (p.services ≡ left) × (to_end p.main ≤ 1) × (to_end p.main ≤ n)

module _ (server : Environment) where
  destroyed_over :
      (r : Outcome (Unit {0})) (p : Program) → Alive (λ q. to_end q.main ≤ 0) (destroyed r p)
  destroyed_over (returned u) p = λ _. omega arith
  destroyed_over (thrown e) p = λ q. cc
  destroyed_over aborted p = λ q. cc

  main_at-to_end :
      (m : MainPhase) (p : Program)
      → to_end m ≤ 1
      → p.main ≡ m
      → p.services ≡ left
      → Alive (λ q. to_end q.main ≤ to_end m - 1) (main_at m p)
  main_at-to_end reading p b e l = absurd (omega arith)
  main_at-to_end stopping p b e l = absurd (omega arith)
  main_at-to_end joining p b e l =
      subst (λ s. Alive (λ q. to_end q.main ≤ 0) (join s p)) (sym l)
        (destroyed_over (destroy_connections p.world.connections) p)
  main_at-to_end over p b e l = λ _. subst (λ m. to_end m ≤ 0) (sym e) (omega arith)

  turn_of-Closing :
      (n : ℕ) (t : Turn) (p : Program) → Closing n p → Alive (Closing n) (turn_of server t p)
  turn_of-Closing n of_main p h = λ q.
      let nearer = main_at-to_end p.main p h.1 refl h.0 q in
      (main_at-services p.main p ∙ h.0, omega (arith, h.1, nearer), omega (arith, h.2, nearer))
  turn_of-Closing n (of_services answers call) p h =
      λ q. subst (λ s. Closing n (services_at server answers call s p)) (sym h.0) h

  turn_of-Closing_next :
      (n : ℕ) (t : Turn) (p : Program)
      → is_main t ≡ true
      → Closing (suc n) p
      → Alive (Closing n) (turn_of server t p)
  turn_of-Closing_next n of_main p e h = λ q.
      let nearer = main_at-to_end p.main p h.1 refl h.0 q in
      (main_at-services p.main p ∙ h.0, omega (arith, h.1, nearer), omega (arith, h.2, nearer))
  turn_of-Closing_next n (of_services answers call) p e h = cc

  to_end_le : (m : MainPhase) (t : Terminal) (stopped : Bool) → Heading 0 m t stopped → to_end m ≤ 1
  to_end_le reading t stopped h = absurd (omega (arith, h.1))
  to_end_le stopping t stopped h = absurd (omega (arith, h.1))
  to_end_le joining t stopped h = omega arith
  to_end_le over t stopped h = omega arith

  closing : (p : Program) → Leaving 0 p → Closing 1 p
  closing p h =
      let near = to_end_le p.main p.terminal p.stopped h.0 in (has_left p.services h.1, near, near)

  ended : (m : MainPhase) (c : Option Crash) → (c ≡ none → to_end m ≤ 0) → is_ended m c ≡ true
  ended over c h = refl
  ended m (some crash) h = refl
  ended joining none h = absurd (omega (arith, h refl))
  ended stopping none h = absurd (omega (arith, h refl))
  ended reading none h = absurd (omega (arith, h refl))

  run_turns-Headed :
      (p : Program) (n : ℕ) (first second third : List Turn)
      → n ≤ tally is_main first
      → 2 ≤ tally is_services second
      → 1 ≤ tally is_main third
      → Headed n p
      → IsEnded (run_turns server (first ++ (second ++ third)) p)
  run_turns-Headed p n first second third f g h headed =
      let joins =
        run_turns-Alive server is_main Headed (turn_of-Headed_next server) (turn_of-Headed server)
          first n p f (λ _. headed) in
      let q = run_turns server first p in
      let leaves =
        run_turns-Alive server is_services Leaving (turn_of-Leaving_next server)
          (turn_of-Leaving server) second 2 q g (λ a. (joins a, to_leave_le q.services)) in
      let r = run_turns server second q in
      let closes =
        run_turns-Alive server is_main Closing turn_of-Closing_next turn_of-Closing third 1 r h
          (λ a. closing r (leaves a)) in
      let z = run_turns server third r in
      rw (run_turns-append server first (second ++ third) p, run_turns-append server second third q)
        (ended z.main z.crash (λ a. (closes a).2))

  -- Once "stop" was typed the program ends, normally or aborted, whatever clients and the
  -- environment do: with one turn of the terminal for each line up to it and two more, then two
  -- turns of the services, then one of the terminal, each with any turns between them.
  pub run_turns-IsEnded :
      (files : Files) (before after : List Text) (first second third : List Turn)
      → length before + 3 ≤ tally is_main first
      → 2 ≤ tally is_services second
      → 1 ≤ tally is_main third
      → IsEnded (
          run_turns server
            (first ++ (second ++ third))
            (new_program files (before ++ stop ∷ after)))
  unfolding new_program
  run_turns-IsEnded files before after first second third f g h =
      let comes = until_stop_le before after in
      run_turns-Headed (new_program files (before ++ stop ∷ after)) (length before + 3) first second
        third f g h (comes.0, omega (arith, comes.1))
