-- ===== src/Dispatch/Leftovers/Tests.antt =====
-- The theorems on leftovers at a lost execution, whose provider has it as succeeded.

use vagabond.Execution.Status.{Status}
use vagabond.Dispatch.Leftovers.{release_leftover}
use vagabond.Execution.State.{State}
use vagabond.Stores.Executions.{Record}
use vagabond.Dispatch.Leftovers.Releasing.{RightlyReleased, release_leftover-RightlyReleased}
use vagabond.Dispatch.Polling.{Provider, Run, Around}
use vagabond.Base.{◌+◌, ◌∷◌, false, [], Result, none, true, some, length, refl}

abbrev answered_status : State → Status
answered_status state = record {
  id = 1;
  state = state;
  provider_id = "x";
  started_at = 1000;
  ended_at = 4000;
  updated_at = 1;
}

abbrev provider : Provider
provider = record {
  takes_members = false;
  leaves_behind = true;
  submit = λ h. Result.ok (record { provider_id = "x"; state = State.accepted; result = none });
  status = λ h. Result.ok (answered_status State.succeeded);
  fetch = λ h. Result.ok (record {
    id = 1;
    exit_code = some 0;
    duration = 5;
    billed = none;
    logs = [];
    logs_truncated = false;
  });
  cancel = λ h. none;
  release = λ h. none;
}

abbrev around : Around
around = record {
  recredential = λ h. Result.ok false;
  join = λ e x. e;
  interrupted = λ h. none;
  gave_up = λ h. false;
  wrote = λ h. false;
  clock = λ h n. length h + n + 1;
}

abbrev lost_record : Record
lost_record = record {
  status = answered_status State.lost;
  namespace = "team";
  job = "ci";
  job_version = 0;
  dispatch = 1;
  task = "build";
  provider = "up";
  attempt = 1;
  previous = 0;
  cpu = 1000;
  memory = 512;
  result = none;
  failure = "infrastructure";
  released = 0;
}

abbrev run : Run
run = record {
  calls = [];
  store = record { dispatches = []; records = (1, lost_record) ∷ [] };
  rec = lost_record;
}

release_leftover-RightlyReleased_example :
    RightlyReleased around
      (λ id. Result.ok false)
      provider
      (release_leftover around (λ id. Result.ok false) (some provider) run)
release_leftover-RightlyReleased_example =
    release_leftover-RightlyReleased around (λ id. Result.ok false) provider run refl
