-- ===== src/Agent/Executor/Tests.antt =====
-- The theorems on the executor at a workload that is submitted, exits and is then cancelled.
use vagabond.Agent.Executor.Calls.{Happens}
use vagabond.Agent.Room.{DistinctIds}
use vagabond.Agent.Fits.{Step}
use vagabond.Execution.Status.{Status}
use vagabond.Agent.Executor.Refining.{observed, Happens-Step}
use vagabond.Agent.Executor.Reporting.{Advances, workload_status-Advances, Life}
use vagabond.Execution.State.{State}
use vagabond.Agent.{WorkloadSize, Agent}
use vagabond.Base.{[], ◌∷◌, some, string_key, ℕ, Time, ◌≡◌, none, refl, Result, ◌⊎◌, true}
use vagabond.Base.Assoc.{lookup, insert}
use vagabond.Agent.Executor.{
  release_workload, Container, Failing, submit_workload, workload_status, cancel_workload,
  load_workload, made, delete_workload, task_state, ContainerdCall, TaskStatus, stop_task,
  workloads, Containers,
}

abbrev answering : Failing ℕ
answering call = none

abbrev spec_a : WorkloadSize
spec_a = record { cpu = 600; memory = 512 }

abbrev with_claim : Agent
with_claim = record {
  capacity = record { cpu = 1000; memory = 1024 };
  reserved = ("a", spec_a) ∷ [];
  held = [];
}

abbrev going : Container
going = made spec_a 5 (some TaskStatus.running)

abbrev over : Container
over = record going { task = some (TaskStatus.stopped 0 9) }

-- Cancelling a workload that has succeeded makes its status cancelled.
late_cancel :
    (workload_status answering 10 (("a", over) ∷ []) "a"
      ≡ Result.ok (record {
        id = 0;
        state = State.succeeded;
        provider_id = "a";
        started_at = 5;
        ended_at = 9;
        updated_at = 10;
      }))
    × (cancel_workload answering (("a", over) ∷ []) "a"
        ≡ (("a", record over { cancelled = true }) ∷ [], none))
unfolding workload_status load_workload cancel_workload lookup task_state insert stop_task
late_cancel = (refl, refl)

-- A release that cannot delete the container leaves a workload that had ended as one that runs.
abbrev undeletable : Failing ℕ
undeletable ContainerdCall.delete_container = some 7
undeletable _ = none

release_revives :
    workloads answering (release_workload undeletable (("a", over) ∷ []) "a").0
    ≡ record { id = "a"; size = spec_a; running = true } ∷ []
unfolding release_workload delete_workload load_workload lookup insert workloads
release_revives = refl

abbrev at_state : State → Time → Time → Status
at_state state ended updated = record {
  id = 0;
  state = state;
  provider_id = "a";
  started_at = 5;
  ended_at = ended;
  updated_at = updated;
}

life : Life ℕ "a" (("a", going) ∷ []) (("a", record over { cancelled = true }) ∷ [])
unfolding cancel_workload load_workload lookup insert stop_task
life =
    Life.next [] (record over { cancelled = true })
      (Life.next [] over Life.here (Happens.exits "a" going TaskStatus.running 0 9 refl refl refl)
        refl)
      (Happens.cancels answering "a") refl

read_back :
    (workload_status answering 6 (("a", going) ∷ []) "a" ≡ Result.ok (at_state State.running 0 6))
    × (workload_status answering 12 (("a", record over { cancelled = true }) ∷ []) "a"
        ≡ Result.ok (at_state State.cancelled 9 12))
unfolding workload_status load_workload lookup task_state
read_back = (refl, refl)

workload_status-Advances_example : Advances State.running State.cancelled
workload_status-Advances_example =
    workload_status-Advances answering answering 6 12 "a" (at_state State.running 0 6)
      (at_state State.cancelled 9 12) read_back.0 life read_back.1

given : lookup string_key "a" with_claim.reserved ≡ some spec_a
unfolding lookup
given = refl

abbrev submitted_a : Containers
submitted_a = (submit_workload 1 answering 5 [] "a" spec_a).0

none_twice : DistinctIds (workloads answering [])
unfolding workloads
none_twice = tt

Happens-Step_example :
    (observed answering with_claim submitted_a ≡ observed answering with_claim [])
    ⊎ Step (observed answering with_claim []) (observed answering with_claim submitted_a)
Happens-Step_example =
    Happens-Step answering with_claim refl refl none_twice
      (Happens.submits 1 answering 5 "a" spec_a given)
