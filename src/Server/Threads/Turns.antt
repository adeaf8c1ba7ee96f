-- ===== src/Server/Threads/Turns.antt =====
-- What every turn keeps, and what enough turns reach.
use mathlib.Core.Path.{subst}
use hyperion_server.Common.{
  ℕ, zero, suc, ◌≤◌, ◌≡◌, ◌||◌, ◌==◌, refl, Bool, true, false, Option, none, some, List, [], ◌∷◌,
  ◌++◌, Bool-cases, inl, inr, arith, if◌then◌else◌,
}
use hyperion_server.Common.Exec.{Outcome, returned, thrown, aborted}
use hyperion_server.Media.Save.{Answers}
use hyperion_server.Net.Acceptor.{Endpoint}
use hyperion_server.Net.Data.{World}
use hyperion_server.Net.Services.{Call, is_due}
use hyperion_server.Server.{Terminal}
use hyperion_server.Server.Threads.{
  Environment, MainPhase, ServicesPhase, making, starting, serving, left, Crash, Program, made,
  began, called, work, services_at, Turn, of_main, turn_of, unless_crashed, turn, run_turns,
}

module _ {A : Type 0} (P : A → Type 0) where
  pub if_keeps :
      (b : Bool) (x y : A) → (b ≡ true → P x) → (b ≡ false → P y) → P (if b then x else y)
  if_keeps true x y f g = f refl
  if_keeps false x y f g = g refl

pub unless_crashed_keeps :
    (P : Program → Type 0) (c : Option Crash) (q p : Program)
    → (c ≡ none → P q)
    → P p
    → P (unless_crashed c q p)
unless_crashed_keeps P none q p f h = f refl
unless_crashed_keeps P (some crash) q p f h = h

-- Unless the program is aborted.
abbrev pub Alive : (Program → Type 0) → Program → Type 0
Alive P p = p.crash ≡ none → P p

abbrev pub tally : (Turn → Bool) → List Turn → ℕ
tally f [] = 0
tally f (t ∷ turns) = let rest = tally f turns in if f t then suc rest else rest

abbrev pub is_main : Turn → Bool
is_main of_main = true
is_main _ = false

abbrev pub is_services : Turn → Bool
is_services of_main = false
is_services _ = true

module _ (server : Environment) where
  pub turn-Alive :
      (P Q : Program → Type 0) (t : Turn) (p : Program)
      → (P p → Alive Q (turn_of server t p))
      → Alive P p
      → Alive Q (turn server t p)
  unfolding turn
  turn-Alive P Q t p f h = go p.crash refl
    where
      go : (c : Option Crash) → p.crash ≡ c → Alive Q (unless_crashed c (turn_of server t p) p)
      go none e = f (h e)
      go (some crash) e = λ q. cc

  module _ (f : Turn → Bool) (P : ℕ → Program → Type 0)
      (less : (n : ℕ) (t : Turn) (p : Program)
        → f t ≡ true
        → P (suc n) p
        → Alive (P n) (turn_of server t p))
      (same : (n : ℕ) (t : Turn) (p : Program) → P n p → Alive (P n) (turn_of server t p)) where
    pub run_turns-Alive :
        (turns : List Turn) (n : ℕ) (p : Program)
        → n ≤ tally f turns
        → Alive (P n) p
        → Alive (P 0) (run_turns server turns p)
    unfolding run_turns
    run_turns-Alive [] n p l h = let e : n ≡ 0 = omega arith in subst (λ n. Alive (P n) p) e h
    run_turns-Alive (t ∷ turns) zero p l h =
        run_turns-Alive turns zero (turn server t p) (omega arith)
          (turn-Alive (P 0) (P 0) t p (same zero t p) h)
    run_turns-Alive (t ∷ turns) (suc n) p l h = elim (Bool-cases (f t)) [
      | inl e ↦
          run_turns-Alive turns n (turn server t p) (ground (arith, l, e))
            (turn-Alive (P (suc n)) (P n) t p (less n t p e) h)
      | inr e ↦
          run_turns-Alive turns (suc n) (turn server t p) (ground (arith, l, e))
            (turn-Alive (P (suc n)) (P (suc n)) t p (same (suc n) t p) h)
    ]

  pub run_turns-append :
      (turns more : List Turn) (p : Program)
      → run_turns server (turns ++ more) p ≡ run_turns server more (run_turns server turns p)
  unfolding run_turns
  run_turns-append [] more p = refl
  run_turns-append (t ∷ turns) more p = run_turns-append turns more (turn server t p)

-- What the thread of the services leaves alone.
module _ (P : MainPhase → Terminal → Bool → Type 0) where
  abbrev On : Program → Type 0
  On p = P p.main p.terminal p.stopped

  made_on : (n : ℕ) (r : Outcome Endpoint) (p : Program) → On p → On (made n r p)
  made_on n (returned e) p h = h
  made_on n (thrown x) p h = h
  made_on n aborted p h = h

  began_on : (r : Outcome (Unit {0})) (w : World) (p : Program) → On p → On (began r w p)
  began_on (returned u) w p h = h
  began_on (thrown x) w p h = h
  began_on aborted w p h = h

  called_on : (r : Outcome (Unit {0})) (w : World) (p : Program) → On p → On (called r w p)
  called_on (returned u) w p h = h
  called_on (thrown x) w p h = h
  called_on aborted w p h = h

  pub services_at_on :
      (server : Environment) (answers : Answers) (call : Call) (s : ServicesPhase) (p : Program)
      → On p
      → On (services_at server answers call s p)
  services_at_on server answers call (making n) p h =
      if_keeps On p.terminal.services_exit _ _ (λ e. h) (λ e. made_on n _ p h)
  services_at_on server answers call starting p h = began_on _ _ p h
  services_at_on server answers call serving p h =
      if_keeps On (p.stopped || (work p.world == 0)) _ _ (λ e. h)
        (λ e. if_keeps On (is_due call p.world) _ _ (λ d. called_on _ _ p h) (λ d. h))
  services_at_on server answers call left p h = h
