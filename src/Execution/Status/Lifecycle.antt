-- ===== src/Execution/Status/Lifecycle.antt =====
-- internal/execution/status.go: what the timestamps say of the state, over any sequence of changes.
use vagabond.Base.{◌<◌, ◌≤◌, true, none, ◌≡◌, ◌≢◌, Time, arith}
use vagabond.Execution.State.{State, valid, terminal, transition}
use vagabond.Execution.State.Graph.{progress}
use vagabond.Execution.Status.{Status, to}

-- A refused change returns the transition's own error and leaves the status as it was; an accepted
-- one moves to the state asked for and stamps the change.
pub to_lem :
    (s : Status) (next : State) (now : Time)
    → ((to s next now).1 ≡ transition s.state next)
      × ((to s next now).1 ≢ none → (to s next now).0 ≡ s)
      × ((to s next now).1 ≡ none
          → ((to s next now).0.state ≡ next) × ((to s next now).0.updated_at ≡ now))
unfolding to
to_lem s next now = ground arith

-- The timestamps agree with the state. (Times are nonzero, as clock readings are.)
pub record IsCoherent (s : Status) : Type 0 where
  pub is_valid : valid s.state ≡ true
  pub ended : 0 < s.ended_at → terminal s.state ≡ true
  pub finished : terminal s.state ≡ true → s.ended_at ≡ s.updated_at
  pub stamped : 0 < s.updated_at
  pub runs : s.state ≡ State.running → 0 < s.started_at
  pub idle : progress s.state < 3 → s.started_at ≡ 0
  pub order : s.started_at ≤ s.updated_at

pub to-IsCoherent :
    (s : Status) (next : State) (now : Time)
    → s.updated_at ≤ now
    → IsCoherent s
    → IsCoherent (to s next now).0
unfolding to transition valid terminal
to-IsCoherent s next now later h = ground arith
