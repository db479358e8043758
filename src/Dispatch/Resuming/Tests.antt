-- ===== src/Dispatch/Resuming/Tests.antt =====
-- The theorem on resumed dispatches at one that was left with a pending and a running execution.
use vagabond.Dispatch.Resuming.Written.{StoredAs}
use vagabond.Base.Assoc.{lookup}
use vagabond.Dispatch.Polling.Waiting.{asked_times, EndsWait}
use vagabond.Dispatch.Resuming.Settled.{resume_from-IsSettled, Resumed, DistinctRecords}
use vagabond.Quota.Meter.{Execution}
use vagabond.Dispatch.Resuming.{resume_from}
use vagabond.Stores.Executions.{Record, Executions, RunResult}
use vagabond.Execution.State.{terminal, valid, State}
use vagabond.Execution.Status.{Status}
use vagabond.Dispatch.Polling.{Poll, Provider, Around, Call}
use vagabond.Base.{
  ℕ, [], List, ◌∷◌, String, ◌≡◌, some, All, Option, false, true, Result, none, if◌then◌else◌, ◌≤◌,
  str_eq, length, ◌+◌, Bool-cases, refl, inl, subst, arith, inr,
}

abbrev over : Status
over = record {
  id = 1;
  state = State.succeeded;
  provider_id = "x";
  started_at = 1000;
  ended_at = 4000;
  updated_at = 4000;
}

abbrev answer : RunResult
answer = record {
  id = 1;
  exit_code = some 0;
  duration = 5;
  billed = none;
  logs = [];
  logs_truncated = false;
}

abbrev up : Provider
up = record {
  takes_members = false;
  leaves_behind = false;
  submit = λ h. Result.ok (record { provider_id = "x"; state = State.accepted; result = none });
  status = λ h. Result.ok over;
  fetch = λ h. Result.ok answer;
  cancel = λ h. none;
  release = λ h. none;
}

abbrev around : ℕ → Around
around id = record {
  recredential = λ h. Result.ok false;
  join = λ e x. e;
  interrupted = λ h. none;
  gave_up = λ h. false;
  wrote = λ h. false;
  clock = λ h n. length h + n + 1;
}

abbrev poll : Poll
poll = record { initial = 1; longest = 8 }

abbrev running : Record
running = record {
  status = record over { state = State.running };
  namespace = "team";
  job = "ci";
  job_version = 0;
  dispatch = 1;
  task = "build";
  provider = "up";
  attempt = 1;
  previous = 0;
  cpu = 1000;
  memory = 512;
  result = none;
  failure = "";
  released = 0;
}

-- Its provider is no longer configured.
abbrev pending : Record
pending = record running {
  status = record over { id = 2; state = State.pending };
  provider = "gone";
}

abbrev store : Executions
store = record { dispatches = []; records = (1, running) ∷ (2, pending) ∷ [] }

abbrev provider_of : String → Option Provider
provider_of name = if str_eq name "up" then some up else none

-- The ledger is the IDs that were settled.
abbrev test_settle : List ℕ → ℕ → String → String → Execution → List ℕ
test_settle l id namespace name actual = id ∷ l

up-EndsWait :
    (name : String) (p : Provider)
    → provider_of name ≡ some p
    → (h : List Call) → 0 ≤ asked_times h
    → EndsWait (p.status h)
unfolding terminal
up-EndsWait name p given h late = elim (Bool-cases (str_eq name "up")) [
  | inl same ↦
      subst (λ (q : Provider). EndsWait (q.status h)) {x = up} {y = p} (ground (arith, same, given))
        refl
  | inr other ↦ absurd (ground (arith, other, given))
]

known : All (λ (r : Record). valid r.status.state ≡ true) (running ∷ pending ∷ [])
unfolding valid
known = (refl, (refl, tt))

as_stored : All (StoredAs store) (running ∷ pending ∷ [])
unfolding lookup
as_stored = ((running, refl, refl), ((pending, refl, refl), tt))

apart : DistinctRecords (running ∷ pending ∷ [])
apart = ((refl, tt), (tt, tt))

resume_from-IsSettled_example :
    Resumed test_settle provider_of around poll 0 up-EndsWait
      (running ∷ pending ∷ [])
      store
      (resume_from test_settle provider_of around poll 1 (running ∷ pending ∷ []) store [])
resume_from-IsSettled_example =
    resume_from-IsSettled test_settle provider_of around poll 0 up-EndsWait (running ∷ pending ∷ [])
      store [] known as_stored apart
