-- ===== src/Execution/Tests.antt =====
-- Runs of the state machine at concrete inputs, and the theorems applied to them.
use vagabond.Execution.Status.Lifecycle.{IsCoherent}
use vagabond.Execution.State.{terminal, valid, transition, State}
use vagabond.Base.{List, ◌≡◌, ◌+◌, arith, Time, refl, ◌∷◌, [], ◌≤◌}
use vagabond.Execution.Status.{Status, to}
use vagabond.Execution.State.Graph.{progress}
use vagabond.Execution.Status.Capacity.{run, changes_made, changes_made-le}

abbrev fresh : Status
fresh = record {
  id = 7;
  state = State.pending;
  provider_id = "";
  started_at = 0;
  ended_at = 0;
  updated_at = 100;
}

abbrev job_changes : List (State × Time)
job_changes =
    (State.submitted, 110)
    ∷ (State.pending, 115)
    ∷ (State.running, 120)
    ∷ (State.failed, 130)
    ∷ (State.lost, 140)
    ∷ []

run_changes :
    run fresh job_changes
    ≡ record fresh { state = State.failed; started_at = 120; ended_at = 130; updated_at = 130 }
unfolding run to transition terminal
run_changes = refl

changes_made-le_example : progress fresh.state + changes_made fresh job_changes ≤ 5
changes_made-le_example = changes_made-le fresh job_changes

abbrev ended : Status
ended = record fresh { state = State.failed; ended_at = 130; updated_at = 130 }

fresh-IsCoherent : IsCoherent fresh
unfolding valid terminal
fresh-IsCoherent = ground arith

abbrev missing : Status
missing = record fresh { state = State.lost }
