-- ===== src/Execution.antt =====
-- internal/execution: what an execution's record holds and how it moves. `State` is the state
-- machine of state.go, `Status` the timestamps of status.go.
pub mod State
pub mod Status
mod Tests
