-- ===== src/Execution/State.antt =====
-- internal/execution/state.go: the states, the transition table, and the check of a state change.
use vagabond.Base.{
  ℕ, String, str_eq, Bool, true, false, not, Option, none, some, List, [], ◌∷◌, contains,
  if◌then◌else◌,
}
pub mod Graph
pub mod Names

-- `other` is a Go string that names no state.
pub data State : Type 0 where
  pending submitted accepted running succeeded failed cancelled lost : State
  other : String → State

abbrev pub state_eq : State → State → Bool
state_eq State.pending State.pending = true
state_eq State.submitted State.submitted = true
state_eq State.accepted State.accepted = true
state_eq State.running State.running = true
state_eq State.succeeded State.succeeded = true
state_eq State.failed State.failed = true
state_eq State.cancelled State.cancelled = true
state_eq State.lost State.lost = true
state_eq (State.other a) (State.other b) = str_eq a b
state_eq _ _ = false

abbrev pub state_names : List State
state_names =
    State.pending ∷ State.submitted ∷ State.accepted ∷ State.running ∷ State.succeeded
    ∷ State.failed ∷ State.cancelled ∷ State.lost ∷ []

abbrev pub terminal_states : List State
terminal_states = State.succeeded ∷ State.failed ∷ State.cancelled ∷ []

-- A key that the table lacks reads as no list.
abbrev pub legal_transitions : State → List State
legal_transitions State.pending = State.submitted ∷ State.failed ∷ State.cancelled ∷ []
legal_transitions State.submitted =
    State.accepted ∷ State.running ∷ State.succeeded ∷ State.failed ∷ State.cancelled ∷ State.lost
    ∷ []
legal_transitions State.accepted =
    State.running ∷ State.succeeded ∷ State.failed ∷ State.cancelled ∷ State.lost ∷ []
legal_transitions State.running = State.succeeded ∷ State.failed ∷ State.cancelled ∷ State.lost ∷ []
legal_transitions State.lost = State.succeeded ∷ State.failed ∷ State.cancelled ∷ []
legal_transitions _ = []

pub data Error : Type 0 where
  unknown_state : State → Error
  illegal_transition : State → State → Error

unfoldable pub valid : State → Bool
valid s = contains state_eq state_names s

unfoldable pub terminal : State → Bool
terminal s = contains state_eq terminal_states s

unfoldable pub can_transition : State → State → Bool
can_transition s next = contains state_eq (legal_transitions s) next

-- `none` is Go's nil error.
unfoldable pub transition : State → State → Option Error
unfolding valid can_transition
transition s next =
    if not (valid s)
    then some (Error.unknown_state s)
    else if not (valid next)
    then some (Error.unknown_state next)
    else if not (can_transition s next)
    then some (Error.illegal_transition s next)
    else none
