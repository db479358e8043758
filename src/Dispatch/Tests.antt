-- ===== src/Dispatch/Tests.antt =====
-- The dispatch theorems at a concrete task on three providers: one refuses, one fails, one answers.
use vagabond.Plugin.Failure.{Failure, infrastructure_error, reroutable, class_reroutable}
use vagabond.Execution.State.{State}
use vagabond.Quota.Meter.{Meter}
use vagabond.Ledger.Account.{Refusal, ReserveError}
use vagabond.Dispatch.Attempts.Budget.{Attempted, attempt-Attempted, provider_names}
use vagabond.Job.{Retry, Task}
use vagabond.Scheduler.Request.{Request, new_request}
use vagabond.Base.{
  ◌∷◌, [], List, String, ◌≡◌, some, true, none, ℕ, if◌then◌else◌, ◌+◌, false, str_eq, ◌<◌, itoa,
  arith, Result, ltb, refl,
}
use vagabond.Job.Std.{Std, duration_std}
use vagabond.Dispatch.Attempts.{
  Origin, World, attempt, attempt_from, prepare, submit, pause, charge_run, tried_of,
}
use vagabond.Dispatch.Retry.{budget, retry_policy, Policy, backoff_from, usable_duration, backoff}

abbrev pub std : Std
std = record {
  parse_duration = λ s. if str_eq s "10s" then some 10000000000 else none;
  format_duration = λ d. itoa d;
  parse_int = λ s. none;
  format_int = itoa;
  Float = ℕ;
  parse_float = λ s. none;
  float_less = ltb;
  trim_space = λ s. s;
  split_commas = λ s. s ∷ [];
}

abbrev retry : Retry
retry = record {
  attempts = some 3;
  reroute = some true;
  backoff = some (record { initial = some "10s"; longest = none });
}

abbrev pub task : Task
task = record {
  name = "build";
  driver = "container";
  resources = none;
  timeout = none;
  network = none;
  execution = none;
  retry = some retry;
}

abbrev pub request : Request
request = new_request std task none "" ""

abbrev pub origin : Origin
origin = record { namespace = "team"; job = "ci"; job_version = 0; dispatch = 1 }

abbrev refusal_of : String → Refusal
refusal_of provider = record {
  namespace = "";
  provider = provider;
  pool = "runs";
  meter = Meter.executions;
  limit = 1;
  used = 1;
  needed = 1;
}

-- The state counts the IDs minted.
abbrev pub world : World ℕ String
world = record {
  registered = λ s name. true;
  new_id = λ s. (s + 1, Result.ok (s + 1));
  now = λ s. s;
  reserve = λ s id namespace provider e pays. (
    s,
    (if str_eq provider "full" then some (ReserveError.refused (refusal_of provider)) else none),
  );
  create = λ s run. (s, none);
  sleep = λ s wait. (s, none);
  execute = λ s t run nodes. (
    s,
    record {
      state = State.succeeded;
      result = some (record { duration = 1000; billed = none });
      streamed = false;
    },
    (if str_eq run.provider "down"
        then some (Failure.classified (infrastructure_error none))
        else none),
  );
  settle = λ s id namespace provider e. s;
}

abbrev ranking : List (String × List String)
ranking = ("full", []) ∷ ("down", []) ∷ ("up", []) ∷ []

reached :
    provider_names (attempt world std origin request ranking 0).1 ≡ "full" ∷ "down" ∷ "up" ∷ []
unfolding new_request attempt attempt_from prepare submit pause charge_run budget retry_policy
    usable_duration duration_std reroutable class_reroutable infrastructure_error
reached = refl

submitted_twice : tried_of (attempt world std origin request ranking 0).1 ≡ 2
unfolding new_request attempt attempt_from prepare submit pause charge_run budget retry_policy
    usable_duration duration_std reroutable class_reroutable infrastructure_error tried_of
submitted_twice = refl

abbrev waits : Policy
waits = record { attempts = 5; reroute = true; initial = 5000000000; longest = 30000000000 }

-- An initial interval above the longest is waited out in full before the second submission.
backoff-uncapped : backoff (record waits { initial = 60000000000 }) 1 ≡ 60000000000
unfolding backoff backoff_from
backoff-uncapped = refl

three_attempts :
    (r : Retry) (n : ℕ) → task.retry ≡ some r → r.attempts ≡ some n → n < 18446744073709551616
three_attempts r n h k = ground arith

attempt-Attempted_example :
    Attempted
      (budget (retry_policy std task))
      ranking
      (attempt world std origin request ranking 0).1
unfolding new_request budget retry_policy
attempt-Attempted_example = attempt-Attempted world std origin request ranking 0 (omega arith)
