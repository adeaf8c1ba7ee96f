-- ===== src/Server/Threads/Heading.antt =====
-- The thread of the terminal on its way to `io_context.stop()`.
use mathlib.Core.Path.{subst}
use hyperion_server.Common.{
  ℕ, suc, ◌+◌, ◌-◌, ◌≤◌, ◌≡◌, ◌||◌, refl, sym, ap, Bool, true, false, List, [], ◌∷◌, ◌++◌, length,
  Bool-cases, inl, inr, arith, if◌then◌else◌,
}
use hyperion_server.Common.Text.{Text, same_text}
use hyperion_server.Common.Exec.{Outcome, returned, thrown, aborted}
use hyperion_server.Server.{Terminal, handle_terminal_commands, destroy_connections}
use hyperion_server.Server.Threads.{
  Environment, MainPhase, reading, stopping, joining, over, ServicesPhase, making, starting,
  serving, left, Program, destroyed, join, main_at, Turn, of_main, of_services, turn_of,
}
use hyperion_server.Server.Loops.{stop, running}
use hyperion_server.Server.Threads.Turns.{if_keeps, Alive, is_main, services_at_on}

abbrev until_stop : List Text → ℕ
until_stop [] = 0
until_stop (line ∷ lines) =
    let rest = until_stop lines in if same_text line stop then 0 else suc rest

abbrev has_stop : List Text → Bool
has_stop [] = false
has_stop (line ∷ lines) = same_text line stop || has_stop lines

-- The commands until the loop of the terminal ends.
abbrev rounds : Terminal → ℕ
rounds t = if t.services_exit then 0 else suc (until_stop t.lines)

abbrev comes : Terminal → Bool
comes t = t.services_exit || has_stop t.lines

abbrev Nearer : ℕ → Terminal → Type 0
Nearer n t = (comes t ≡ true) × (suc (rounds t) ≤ n)

handled_running :
    (lines invalid : List Text)
    → has_stop lines ≡ true
    → Nearer (suc (until_stop lines)) (handle_terminal_commands (running lines invalid))
unfolding handle_terminal_commands
handled_running [] invalid c = cc
handled_running (line ∷ lines) invalid c = elim (Bool-cases (same_text line stop)) [
  | inl e ↦ rw e (refl, omega arith)
  | inr e ↦ rw e (ground arith, omega arith)
]

handled :
    (t : Terminal)
    → t.services_exit ≡ false
    → comes t ≡ true
    → Nearer (rounds t) (handle_terminal_commands t)
handled t e c =
    let same : running t.lines t.invalid ≡ t =
      ap (λ b. record { lines = t.lines; services_exit = b; invalid = t.invalid }) (sym e) in
    subst (λ t. Nearer (rounds t) (handle_terminal_commands t)) same
      (handled_running t.lines t.invalid (ground (arith, c, e)))

-- `main` has at most `n` turns to the end of `io_context.stop()`.
abbrev pub Heading : ℕ → MainPhase → Terminal → Bool → Type 0
Heading n reading t stopped = (comes t ≡ true) × (rounds t + 2 ≤ n)
Heading n stopping t stopped = (t.services_exit ≡ true) × (1 ≤ n)
Heading n joining t stopped = (t.services_exit ≡ true) × (stopped ≡ true)
Heading n over t stopped = (t.services_exit ≡ true) × (stopped ≡ true)

abbrev pub Headed : ℕ → Program → Type 0
Headed n p = Heading n p.main p.terminal p.stopped

Heading-le :
    (n k : ℕ) (m : MainPhase) (t : Terminal) (stopped : Bool)
    → n ≤ k
    → Heading n m t stopped
    → Heading k m t stopped
Heading-le n k reading t stopped l h = (h.0, omega (arith, h.1))
Heading-le n k stopping t stopped l h = (h.0, omega (arith, h.1))
Heading-le n k joining t stopped l h = h
Heading-le n k over t stopped l h = h

destroyed-Headed :
    (n : ℕ) (r : Outcome (Unit {0})) (p : Program)
    → Heading n joining p.terminal p.stopped
    → Headed n p
    → Headed n (destroyed r p)
destroyed-Headed n (returned u) p h k = h
destroyed-Headed n (thrown e) p h k = k
destroyed-Headed n aborted p h k = k

join-Headed :
    (n : ℕ) (s : ServicesPhase) (p : Program)
    → Heading n joining p.terminal p.stopped
    → Headed n p
    → Headed n (join s p)
join-Headed n left p h k = destroyed-Headed n (destroy_connections p.world.connections) p h k
join-Headed n (making i) p h k = k
join-Headed n starting p h k = k
join-Headed n serving p h k = k

main_at-Headed :
    (n : ℕ) (m : MainPhase) (p : Program)
    → p.main ≡ m
    → Heading n m p.terminal p.stopped
    → Headed (n - 1) (main_at m p)
main_at-Headed n reading p e h =
    if_keeps (Headed (n - 1)) p.terminal.services_exit _ _ (λ x. (x, ground (arith, h.1)))
      (λ x.
        let near = handled p.terminal x h.0 in
        subst (λ m. Heading (n - 1) m (handle_terminal_commands p.terminal) p.stopped) (sym e)
          (near.0, omega (arith, near.1, h.1)))
main_at-Headed n stopping p e h = (h.0, refl)
main_at-Headed n joining p e h =
    join-Headed (n - 1) p.services p h
      (subst (λ m. Heading (n - 1) m p.terminal p.stopped) (sym e) h)
main_at-Headed n over p e h = subst (λ m. Heading (n - 1) m p.terminal p.stopped) (sym e) h

module _ (server : Environment) where
  pub turn_of-Headed :
      (n : ℕ) (t : Turn) (p : Program) → Headed n p → Alive (Headed n) (turn_of server t p)
  turn_of-Headed n of_main p h =
      λ _. Heading-le (n - 1) n _ _ _ (omega arith) (main_at-Headed n p.main p refl h)
  turn_of-Headed n (of_services answers call) p h =
      λ _. services_at_on (Heading n) server answers call p.services p h

  pub turn_of-Headed_next :
      (n : ℕ) (t : Turn) (p : Program)
      → is_main t ≡ true
      → Headed (suc n) p
      → Alive (Headed n) (turn_of server t p)
  turn_of-Headed_next n of_main p e h =
      λ _. Heading-le (suc n - 1) n _ _ _ (omega arith) (main_at-Headed (suc n) p.main p refl h)
  turn_of-Headed_next n (of_services answers call) p e h = cc

pub headed_stopped :
    (m : MainPhase) (t : Terminal) (stopped : Bool)
    → Heading 0 m t stopped
    → (t.services_exit ≡ true) × (stopped ≡ true)
headed_stopped reading t stopped h = absurd (omega (arith, h.1))
headed_stopped stopping t stopped h = absurd (omega (arith, h.1))
headed_stopped joining t stopped h = h
headed_stopped over t stopped h = h

pub until_stop_le :
    (before after : List Text)
    → (has_stop (before ++ stop ∷ after) ≡ true)
      × (until_stop (before ++ stop ∷ after) ≤ length before)
unfolding same_text
until_stop_le [] after = (refl, omega arith)
until_stop_le (line ∷ before) after = ground (arith, until_stop_le before after)
