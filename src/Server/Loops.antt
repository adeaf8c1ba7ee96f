-- ===== src/Server/Loops.antt =====
-- The loops that wait: for the terminal to stop the server, and for the acceptor to be made.
use hyperion_server.Common.{
  ℕ, zero, suc, ◌+◌, ◌≤◌, ◌≡◌, ◌≢◌, ◌&&◌, refl, Bool, true, false, none, some, List, [], ◌∷◌, ◌++◌,
  length, All, arith,
}
use hyperion_server.Common.Text.{Text, codes, same_text, same_text_iff}
use hyperion_server.Server.{
  Terminal, handle_terminal_commands, run_terminal, make_connection_acceptor,
}
use mathlib.Core.List.{append_assoc, append-nil}
use hyperion_server.Net.Props.{NetProp}
use hyperion_server.Net.Acceptor.{Endpoint, endpoint_of, connection_acceptor}

abbrev pub stop : Text
stop = codes "stop"

abbrev pub running : List Text → List Text → Terminal
running lines invalid = record { lines = lines; services_exit = false; invalid = invalid }

handle_stop :
    (lines invalid : List Text)
    → handle_terminal_commands (running (stop ∷ lines) invalid)
      ≡ record { lines = lines; services_exit = true; invalid = invalid }
unfolding handle_terminal_commands same_text
handle_stop lines invalid = refl

not_stop : (line : Text) → line ≢ stop → same_text line stop ≡ false
not_stop line n = let i = same_text_iff line stop in ground arith

handle_other :
    (line : Text) (lines invalid : List Text)
    → line ≢ stop
    → handle_terminal_commands (running (line ∷ lines) invalid)
      ≡ running lines (invalid ++ line ∷ [])
unfolding handle_terminal_commands
handle_other line lines invalid n = rw (not_stop line n) refl

handle_end :
    (invalid : List Text)
    → handle_terminal_commands (running [] invalid) ≡ running [] (invalid ++ [] ∷ [])
unfolding handle_terminal_commands same_text
handle_end invalid = refl

-- With one round for each line up to the first "stop" and one more, the loop ends there, with
-- every line before it logged as an invalid command and no line after it read.
pub run_terminal-stop :
    (before after invalid : List Text)
    → All (λ line. line ≢ stop) before
    → run_terminal
        (suc (suc (length before)))
        (record { lines = before ++ stop ∷ after; services_exit = false; invalid = invalid })
      ≡ some (record { lines = after; services_exit = true; invalid = invalid ++ before })
unfolding run_terminal
run_terminal-stop [] after invalid h = rw (handle_stop after invalid) (rw (append-nil invalid) refl)
run_terminal-stop (line ∷ before) after invalid h =
    rw (handle_other line (before ++ stop ∷ after) invalid h.0) (
      rw (← append_assoc invalid (line ∷ []) before)
        (run_terminal-stop before after (invalid ++ line ∷ []) h.1))

-- Where no line to come is "stop", the loop never ends, also after the end of the input.
pub run_terminal-ne-some :
    (fuel : ℕ) (lines invalid : List Text)
    → All (λ line. line ≢ stop) lines
    → run_terminal fuel (record { lines = lines; services_exit = false; invalid = invalid }) ≡ none
unfolding run_terminal
run_terminal-ne-some zero lines invalid h = refl
run_terminal-ne-some (suc fuel) [] invalid h =
    rw (handle_end invalid) (run_terminal-ne-some fuel [] _ tt)
run_terminal-ne-some (suc fuel) (line ∷ lines) invalid h =
    rw (handle_other line lines invalid h.0) (run_terminal-ne-some fuel lines _ h.1)

-- Where the server is not stopped before, the loop that makes the acceptor returns at the first
-- attempt at which asio opens both its default endpoint and the one of the configuration, and the
-- acceptor listens at the protocol and the port of the configuration.
pub make_connection_acceptor-some :
    (opens : ℕ → Endpoint → Bool) (default_endpoint : Endpoint) (net_prop : NetProp)
    → (exits : ℕ → Bool) (n k : ℕ) → ((i : ℕ) → i ≤ n + k → exits i ≡ false)
    → ((i : ℕ)
        → n ≤ i
        → suc i ≤ n + k
        → (opens i default_endpoint && opens i (endpoint_of net_prop)) ≡ false)
    → (opens (n + k) default_endpoint && opens (n + k) (endpoint_of net_prop)) ≡ true
    → make_connection_acceptor opens default_endpoint net_prop exits (suc k) n
      ≡ some (some (endpoint_of net_prop))
unfolding make_connection_acceptor connection_acceptor
make_connection_acceptor-some opens d p exits n zero e f s =
    let here : n + 0 ≡ n = omega arith in rw (e n (omega arith)) (rw (rw here at s) refl)
make_connection_acceptor-some opens d p exits n (suc k) e f s =
    let next : n + suc k ≡ n + 1 + k = omega arith in
    rw (e n (omega arith)) (
      rw (f n (omega arith) (omega arith)) (
        make_connection_acceptor-some opens d p exits (n + 1) k (λ i l. e i (omega arith))
          (λ i l m. f i (omega arith) (omega arith)) (rw next at s)))
