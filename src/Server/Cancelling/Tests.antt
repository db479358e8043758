-- ===== src/Server/Cancelling/Tests.antt =====
-- The theorem on cancelling at a running execution that no dispatch here runs.
use vagabond.Base.Assoc.{lookup, insert}
use vagabond.Execution.Status.{to}
use vagabond.Plugin.Failure.{Failure}
use vagabond.Server.Cancelling.Outcome.{Writes, Answers, cancel_execution-Answers}
use vagabond.Execution.State.{State, transition, valid, can_transition, terminal}
use vagabond.Base.{[], String, ◌∷◌, Option, ℕ, none, ◌≡◌, Result, if◌then◌else◌, str_eq, some, refl}
use vagabond.Stores.Executions.{Executions, Record, tracked_to, get, update, clone}
use vagabond.Server.Cancelling.{cancel_execution, cancel_unwatched}

abbrev run : Record
run = record {
  status = record {
    id = 7;
    state = State.running;
    provider_id = "x";
    started_at = 100;
    ended_at = 0;
    updated_at = 100;
  };
  namespace = "team";
  job = "ci";
  job_version = 0;
  dispatch = 3;
  task = "build";
  provider = "up";
  attempt = 1;
  previous = 0;
  cpu = 1000;
  memory = 512;
  result = none;
  failure = "";
  released = 0;
}

abbrev stored : Executions
stored = record { dispatches = []; records = (7, run) ∷ [] }

abbrev canceller : String → Option (ℕ → Option Failure)
canceller name = if str_eq name "up" then some (λ id. none) else none

-- Another process records that it succeeded, before the cancel is written.
abbrev ended_first : Executions → Executions
ended_first s = (tracked_to s run State.succeeded 150).0

abbrev ended : Record
ended = record run {
  status = record run.status { state = State.succeeded; ended_at = 150; updated_at = 150 };
}

too_late :
    (cancel_execution canceller ended_first 160 stored [] 7).store
    ≡ record { dispatches = []; records = (7, ended) ∷ [] }
unfolding cancel_execution cancel_unwatched get tracked_to to update transition valid can_transition
    terminal clone lookup insert
too_late = refl

cancel_execution-Answers_example :
    let c = cancel_execution canceller ended_first 160 stored [] 7 in
    Writes canceller ended_first 160 stored c.store
    × ((r : Record) → c.answer ≡ Result.ok r → Answers canceller ended_first 160 stored [] c r)
cancel_execution-Answers_example = cancel_execution-Answers canceller ended_first 160 stored [] 7
