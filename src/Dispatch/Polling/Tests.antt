-- ===== src/Dispatch/Polling/Tests.antt =====
-- The theorems on polling at a provider that is accepted, runs after one poll and succeeds at the
-- next, and that leaves something behind.
use vagabond.Execution.State.{valid, transition, can_transition, terminal, State}
use vagabond.Execution.Status.{Status, to}
use vagabond.Plugin.Failure.{Failure}
use vagabond.Stores.Executions.{RunResult, tracked_to, update, bounded, clone, mark_released}
use vagabond.Dispatch.Polling.Trace.{Traced, execute-Traced}
use vagabond.Dispatch.Polling.Answers.{Answers, execute-Answers}
use vagabond.Dispatch.Polling.Recording.{Recorded, execute-Recorded}
use vagabond.Dispatch.Polling.Waiting.{asked_times, EndsWait, watch-ends}
use vagabond.Dispatch.Polling.{
  execute, Provider, Run, Poll, Around, send, Answered, follow, Call, watch, collect, accept,
  finish, release_run, authorized, submission_valid, interval, interval_from,
}
use vagabond.Base.{
  ◌+◌, [], ◌∷◌, false, Result, Option, List, refl, some, true, none, if◌then◌else◌, length, ◌≤◌,
  ◌≡◌, leb, arith,
}

abbrev answered_status : State → Status
answered_status state = record {
  id = 1;
  state = state;
  provider_id = "x";
  started_at = 1;
  ended_at = 0;
  updated_at = 1;
}

abbrev result : RunResult
result = record {
  id = 1;
  exit_code = some 0;
  duration = 5;
  billed = none;
  logs = [];
  logs_truncated = false;
}

abbrev provider : Provider
provider = record {
  takes_members = false;
  leaves_behind = true;
  submit = λ h. Result.ok (record { provider_id = "x"; state = State.accepted; result = none });
  status = λ h.
      Result.ok
        (answered_status (if leb 1 (asked_times h) then State.succeeded else State.running));
  fetch = λ h. Result.ok result;
  cancel = λ h. none;
  release = λ h. none;
}

abbrev around : Around
around = record {
  recredential = λ h. Result.ok false;
  join = λ e x. e;
  interrupted = λ h. none;
  gave_up = λ h. false;
  wrote = λ h. false;
  clock = λ h n. length h + n + 1;
}

abbrev run : Run
run = record {
  calls = [];
  store = record { dispatches = []; records = [] };
  rec = record {
    status = record (answered_status State.pending) { started_at = 0 };
    namespace = "team";
    job = "ci";
    job_version = 0;
    dispatch = 1;
    task = "build";
    provider = "up";
    attempt = 1;
    previous = 0;
    cpu = 0;
    memory = 0;
    result = none;
    failure = "";
    released = 0;
  };
}

abbrev poll : Poll
poll = record { initial = 2; longest = 15 }

-- The calls, newest first, and the state in which the record is left.
abbrev left_behind : Option (Run × Answered × Option Failure) → Option (List Call × State)
left_behind none = none
left_behind (some (after, a, err)) = some (after.calls, after.rec.status.state)

traced :
    left_behind (execute around provider poll 5 [] run)
    ≡ some (
      Call.released
          ∷ Call.fetched
          ∷ Call.asked
          ∷ Call.slept 4
          ∷ Call.asked
          ∷ Call.slept 2
          ∷ Call.submitted 1 []
          ∷ [],
      State.succeeded,
    )
unfolding execute send follow watch collect accept finish release_run authorized submission_valid
    interval interval_from tracked_to to transition valid can_transition terminal update bounded
    clone mark_released
traced = refl

execute-Answers_example : Answers (execute around provider poll 5 [] run)
execute-Answers_example = execute-Answers around provider poll 5 [] run

execute-Traced_example : Traced around provider (execute around provider poll 5 [] run)
execute-Traced_example = execute-Traced around provider poll 5 [] run refl

execute-Recorded_example : Recorded (execute around provider poll 5 [] run)
execute-Recorded_example = execute-Recorded around provider poll 5 [] run refl

over_by_two : (h : List Call) → 1 ≤ asked_times h → EndsWait (provider.status h)
unfolding terminal
over_by_two h late = ground (arith, late)

watch-ends_example :
    (out : Run × Result Failure State) × (watch around provider poll 2 0 State.accepted run
      ≡ some out)
watch-ends_example = watch-ends around provider poll 1 over_by_two 0 State.accepted run
