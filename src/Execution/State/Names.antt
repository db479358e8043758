-- ===== src/Execution/State/Names.antt =====
-- internal/execution/state.go: states as they are written and read.
use vagabond.Base.{String, refl, str_eq, eq_iff, not, if◌then◌else◌, ◌≡◌, arith, Result, true, ◌↔◌}
use vagabond.Execution.State.{State, Error, valid}

-- The conversions State(text) and string(s).
unfoldable pub state_of : String → State
state_of text =
    if str_eq text "pending"
    then State.pending
    else if str_eq text "submitted"
    then State.submitted
    else if str_eq text "accepted"
    then State.accepted
    else if str_eq text "running"
    then State.running
    else if str_eq text "succeeded"
    then State.succeeded
    else if str_eq text "failed"
    then State.failed
    else if str_eq text "cancelled"
    then State.cancelled
    else if str_eq text "lost"
    then State.lost
    else State.other text

unfoldable pub state_string : State → String
state_string State.pending = "pending"
state_string State.submitted = "submitted"
state_string State.accepted = "accepted"
state_string State.running = "running"
state_string State.succeeded = "succeeded"
state_string State.failed = "failed"
state_string State.cancelled = "cancelled"
state_string State.lost = "lost"
state_string (State.other text) = text

unfoldable pub parse_state : String → Result Error State
parse_state text =
    let s = state_of text in
    if not (valid s) then Result.err (Error.unknown_state s) else Result.ok s

unfoldable pub marshal_text : State → Result Error String
marshal_text s =
    if not (valid s) then Result.err (Error.unknown_state s) else Result.ok (state_string s)

state_of-state_string : (s : State) → valid s ≡ true → state_of (state_string s) ≡ s
unfolding valid state_of state_string
state_of-state_string State.pending v = refl
state_of-state_string State.submitted v = refl
state_of-state_string State.accepted v = refl
state_of-state_string State.running v = refl
state_of-state_string State.succeeded v = refl
state_of-state_string State.failed v = refl
state_of-state_string State.cancelled v = refl
state_of-state_string State.lost v = refl
state_of-state_string (State.other t) v = cc

state_string-state_of : (text : String) → state_string (state_of text) ≡ text
unfolding state_of state_string
state_string-state_of text = ground (
  arith,
  eq_iff text "pending",
  eq_iff text "submitted",
  eq_iff text "accepted",
  eq_iff text "running",
  eq_iff text "succeeded",
  eq_iff text "failed",
  eq_iff text "cancelled",
  eq_iff text "lost",
)

-- A text is read as a state exactly when it is what that state is written as.
pub parse_state_iff-marshal_text :
    (s : State) (text : String)
    → (parse_state text ≡ Result.ok s) ↔ (marshal_text s ≡ Result.ok text)
unfolding parse_state marshal_text
parse_state_iff-marshal_text s text = (read, written)
  where
    read : parse_state text ≡ Result.ok s → marshal_text s ≡ Result.ok text
    read h = ground (arith, state_string-state_of text)

    written : marshal_text s ≡ Result.ok text → parse_state text ≡ Result.ok s
    written h = ground (arith, state_of-state_string s)
