-- ===== src/Stores/Tests.antt =====
-- The store theorems at concrete records.
use vagabond.Stores.Jobs.Versions.{Numbered, after, register-get_version}
use vagabond.Stores.Jobs.{
  register, JobKey, Jobs, versions_of, RegisteredJob, get_job, JobVersion, get_version,
}
use vagabond.Stores.Executions.Moves.{tracked_to_lem}
use vagabond.Ledger.Memory.{id_key}
use vagabond.Execution.State.{State, transition}
use vagabond.Execution.Status.{Status, to}
use vagabond.Base.Assoc.{lookup, insert}
use vagabond.Base.{
  ◌∷◌, [], arith, none, ◌≡◌, ◌⊎◌, some, refl, List, ℕ, false, String, if◌then◌else◌, is_empty,
}
use vagabond.Stores.Executions.{
  tracked_to, Executions, Record, DispatchRecord, DispatchState, update, clone, StoreError,
}

abbrev status : Status
status = record {
  id = 7;
  state = State.submitted;
  provider_id = "";
  started_at = 0;
  ended_at = 0;
  updated_at = 100;
}

abbrev run : Record
run = record {
  status = status;
  namespace = "team";
  job = "ci";
  job_version = 0;
  dispatch = 3;
  task = "build";
  provider = "cloud";
  attempt = 1;
  previous = 0;
  cpu = 1000;
  memory = 512;
  result = none;
  failure = "";
  released = 0;
}

abbrev dispatch : DispatchRecord
dispatch = record {
  id = 3;
  namespace = "team";
  job = "ci";
  job_version = 0;
  tasks = 1;
  state = DispatchState.dispatch_running;
  reason = "";
  owner = "first";
  lease_until = 50;
  created = 10;
  ended = 0;
}

abbrev store : Executions
store = record { dispatches = (3, dispatch) ∷ []; records = (7, run) ∷ [] }

-- A second writer that read the same state comes too late.
too_late :
    (update (tracked_to store run State.running 110).0 run State.submitted).1
    ≡ some StoreError.stale
unfolding tracked_to to update transition clone lookup insert
too_late = refl

tracked_to_lem_example :
    let after = (tracked_to store run State.running 110).0 in
    (lookup id_key 7 after.records ≡ lookup id_key 7 store.records)
    ⊎ ((old : Record) × (new : Record) × (lookup id_key 7 store.records ≡ some old)
        × (lookup id_key 7 after.records ≡ some new)
        × (transition old.status.state new.status.state ≡ none)
        × (new.released ≡ old.released))
tracked_to_lem_example = tracked_to_lem store run State.running 110 7

abbrev ci : JobKey
ci = record { namespace = "team"; name = "ci" }

abbrev no_jobs : Jobs
no_jobs = record { jobs = []; versions = [] }

-- A fingerprint that tells these sources apart.
abbrev print_of : List ℕ → String
print_of source = if is_empty source then "empty" else "some"

first_version : (register print_of no_jobs ci (1 ∷ []) 5).1 ≡ 1
unfolding register lookup
first_version = refl

no_jobs-Numbered : Numbered print_of no_jobs ci
unfolding versions_of lookup
no_jobs-Numbered = record {
  in_order = tt;
  at_last = refl;
  begun = λ j there. absurd (ground (arith, there));
}

register-get_version_example :
    (j : RegisteredJob) × (get_job (after print_of no_jobs ci (1 ∷ []) 5) ci ≡ some j)
    × (j.stopped ≡ false)
    × (j.version ≡ (register print_of no_jobs ci (1 ∷ []) 5).1)
    × ((w : JobVersion) × (get_version (after print_of no_jobs ci (1 ∷ []) 5) ci j.version ≡ some w)
        × (w.version ≡ j.version)
        × (print_of w.source ≡ print_of (1 ∷ [])))
unfolding versions_of lookup
register-get_version_example =
    register-get_version print_of no_jobs ci (1 ∷ []) 5 no_jobs-Numbered (omega arith)
