-- ===== src/Execution/Status.antt =====
-- internal/execution/status.go: the status of an execution, with its timestamps.
use vagabond.Base.{
  ℕ, String, Bool, true, false, not, ◌&&◌, ◌||◌, ◌*◌, Option, none, some, if◌then◌else◌, Time,
  is_zero, time_sub, hour,
}
use vagabond.Base.Int64.{sle}
use vagabond.Execution.State.{State, Error, state_eq, terminal, transition}
pub mod Lifecycle
pub mod Capacity

-- `id` is a UUID's 128 bits read as a number. A time of 0 is Go's zero time.
pub record Status : Type 0 where
  pub id : ℕ
  pub state : State
  pub provider_id : String
  pub started_at : Time
  pub ended_at : Time
  pub updated_at : Time

abbrev pub lost_grace_period : ℕ
lost_grace_period = 24 * hour

advance : Status → State → Time → Status
unfolding terminal
advance s next now =
    let moved = record s { state = next; updated_at = now } in
    let started =
      if state_eq next State.running && is_zero moved.started_at
      then record moved { started_at = now }
      else moved in
    if terminal next then record started { ended_at = now } else started

-- `To`: a refused change leaves the status as it was.
unfoldable pub to : Status → State → Time → Status × Option Error
unfolding advance
to s next now = elim (transition s.state next) [
  | some e ↦ (s, some e)
  | none ↦ (advance s next now, none)
]

unfoldable pub consumed_capacity : Status → Bool
consumed_capacity s = not (is_zero s.started_at) || state_eq s.state State.lost

unfoldable pub lost_expired : Status → Time → Bool
lost_expired s now =
    if not (state_eq s.state State.lost)
    then false
    else sle lost_grace_period (time_sub now s.updated_at)
