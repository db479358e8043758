-- ===== src/Execution/State/Graph.antt =====
-- The shape of the transition table of internal/execution/state.go.
use vagabond.Base.{ℕ, ◌<◌, ◌≡◌, ◌≢◌, ◌↔◌, true, none, arith}
use vagabond.Execution.State.{State, valid, terminal, transition}

-- How far along its life an execution is.
abbrev pub progress : State → ℕ
progress State.pending = 0
progress State.submitted = 1
progress State.accepted = 2
progress State.running = 3
progress State.lost = 4
progress State.succeeded = 5
progress State.failed = 5
progress State.cancelled = 5
progress (State.other _) = 0

-- Every transition that is accepted moves an execution strictly further along.
pub transition-progress : (s next : State) → transition s next ≡ none → progress s < progress next
unfolding transition
transition-progress s next h = ground arith

terminal-stuck : (s next : State) → terminal s ≡ true → transition s next ≢ none
unfolding terminal transition
terminal-stuck s next h e = ground arith

pub terminal-valid : (s : State) → terminal s ≡ true → valid s ≡ true
unfolding valid terminal
terminal-valid s h = ground arith

open_fails : (s : State) → valid s ≡ true → transition s State.failed ≢ none → terminal s ≡ true
unfolding valid terminal transition
open_fails s v h = ground arith

-- A valid state is terminal exactly when no transition out of it is accepted.
pub terminal_iff :
    (s : State) → valid s ≡ true → (terminal s ≡ true) ↔ ((next : State) → transition s next ≢ none)
terminal_iff s v = (λ h next. terminal-stuck s next h, λ h. open_fails s v (h State.failed))
