-- ===== src/Dispatch/Runs.antt =====
-- internal/dispatch/dispatcher.go and outcome.go: a run of a job from `Begin` to `Finish`. What a run
-- needs beside its attempts, the registry's inputs, the stored dispatch and its lease, is an
-- interface.
use vagabond.Scheduler.Admission.Checks.{checkers}
use vagabond.Scheduler.Request.{new_request}
use vagabond.Job.Std.{Std}
use vagabond.Job.{Task, Job, Routing}
use vagabond.Scheduler.Floats.{Floats}
use vagabond.Base.{
  List, Bool, String, ◌∷◌, [], none, true, if◌then◌else◌, ℕ, false, not, Result, is_empty, Option,
  length, some, ◌==◌, ◌+◌, ◌++◌, map,
}
use vagabond.Scheduler.Admission.{Input, Rejection, admit}
use vagabond.Execution.State.{State, state_eq, lost}
use vagabond.Stores.Executions.{DispatchRecord, DispatchState}
use vagabond.Scheduler.Ranking.{rank}
use vagabond.Dispatch.Attempts.{World, Origin, Answer, Attempt, Ending, attempt}
pub mod Verdict
mod Tests

-- What a run needs of the world. `lost` is what the lease's renewal has found.
pub record Site (S E : Type 0) : Type 0 where
  pub world : World S E
  pub refresh : S → S
  pub inputs : S → String → List Input
  pub image : Task → Result String String
  pub create_dispatch : S → DispatchRecord → S × Option E
  pub finish_dispatch : S → DispatchRecord → S
  pub hold : S → ℕ → S
  pub release_lease : S → S
  pub lost : S → Bool

-- `TaskOutcome`; State "" and ID 0 are Go's zero values.
pub record TaskOutcome : Type 0 where
  pub task : String
  pub provider : String
  pub id : ℕ
  pub state : State
  pub result : Option Answer
  pub streamed : Bool
  pub attempts : List Attempt
  pub rejections : List Rejection

-- `JobOutcome`
pub record JobOutcome : Type 0 where
  pub job : String
  pub dispatch : ℕ
  pub tasks : List TaskOutcome

-- `TaskOutcome.Succeeded`
unfoldable pub task_succeeded : TaskOutcome → Bool
task_succeeded o = elim o.result [ none ↦ false | some _ ↦ state_eq o.state State.succeeded ]

-- The loop of `JobOutcome.Succeeded`.
unfoldable pub all_succeeded : List TaskOutcome → Bool
all_succeeded [] = true
all_succeeded (o ∷ os) = if not (task_succeeded o) then false else all_succeeded os

-- `JobOutcome.Succeeded`
unfoldable pub job_succeeded : JobOutcome → Bool
job_succeeded o = if is_empty o.tasks then false else all_succeeded o.tasks

-- Why `Run` stops with an error.
pub data RunError (E : Type 0) : Type 0 where
  bad_request : String → RunError E
  none_eligible : RunError E
  unanswered : Ending E → RunError E
  lease_lost : RunError E
  never_begun : RunError E

abbrev pub blank_outcome : Task → List Rejection → TaskOutcome
blank_outcome t rejections = record {
  task = t.name;
  provider = "";
  id = 0;
  state = State.other "";
  result = none;
  streamed = false;
  attempts = [];
  rejections = rejections;
}

-- The outcome that `attempt` fills in.
abbrev pub filled :
    {E : Type 0} → TaskOutcome → List Attempt → Ending E → TaskOutcome × Option (RunError E)
filled o attempts (Ending.answered provider id ended) = (
  record o {
    provider = provider;
    id = id;
    state = ended.state;
    result = ended.result;
    streamed = ended.streamed;
    attempts = attempts;
  },
  none,
)
filled o attempts ending = (record o { attempts = attempts }, some (RunError.unanswered ending))

abbrev pub appended : List TaskOutcome → Option TaskOutcome → List TaskOutcome
appended outcomes result = elim result [ none ↦ outcomes | some o ↦ outcomes ++ (o ∷ []) ]

abbrev pub passed : Option TaskOutcome → Bool
passed result = elim result [ none ↦ false | some o ↦ task_succeeded o ]

-- The state and reason that `Finish` records; an error's text is a parameter.
unfoldable pub verdict_of_run :
    {E : Type 0}
    → (RunError E → String)
    → Option JobOutcome
    → Option (RunError E)
    → DispatchState × String
verdict_of_run message outcome err = elim err [
  | some x ↦ (DispatchState.dispatch_unanswered, message x)
  | none ↦ elim outcome [
    | none ↦ (DispatchState.dispatch_failed, "")
    | some o ↦
        if job_succeeded o
        then (DispatchState.dispatch_succeeded, "")
        else (DispatchState.dispatch_failed, "")
  ]
]

module _ {S E F : Type 0} (site : Site S E) (fl : Floats F) (std : Std) (tiers : String) where
  -- `RunTask`: no outcome is a nil one.
  unfoldable pub run_task :
      S → Origin → Task → Option Routing → S × Option TaskOutcome × Option (RunError E)
  run_task s origin t routing = elim (site.image t) [
    | Result.err x ↦ (s, none, some (RunError.bad_request x))
    | Result.ok image ↦
        let req = new_request std t routing tiers image in
        let s1 = site.refresh s in
        let admission = admit (checkers std) req (site.inputs s1 origin.namespace) in
        let o = blank_outcome t admission.rejections in
        if is_empty admission.candidates
        then (s1, some o, some RunError.none_eligible)
        else let ranking = rank fl std req admission.candidates in
          let (s2, attempts, ending) =
            attempt site.world std origin req
              (map (λ c. (c.candidate.input.provider, c.candidate.nodes)) ranking) s1 in
          let (outcome, err) = filled o attempts ending in (s2, some outcome, err)
  ]

  -- The loop of `Run`, with the outcomes so far.
  unfoldable pub run_from :
      S
      → Origin
      → Option Routing
      → List Task
      → List TaskOutcome
      → S × List TaskOutcome × Option (RunError E)
  run_from s origin routing [] outcomes = (s, outcomes, none)
  run_from s origin routing (t ∷ ts) outcomes =
      if site.lost s
      then (s, outcomes, some RunError.lease_lost)
      else let (s1, result, err) = run_task s origin t routing in
        elim err [
          | some x ↦ (s1, appended outcomes result, some x)
          | none ↦
              if not (passed result)
              then (s1, appended outcomes result, none)
              else run_from s1 origin routing ts (appended outcomes result)
        ]

  -- `Run`
  unfoldable pub run_job : S → Origin → Job → S × Option JobOutcome × Option (RunError E)
  run_job s origin j =
      if origin.dispatch == 0
      then (s, none, some RunError.never_begun)
      else let (s1, outcomes, err) =
          run_from s (record origin { job = j.name }) j.routing j.tasks [] in
        (s1, some (record { job = j.name; dispatch = origin.dispatch; tasks = outcomes }), err)

  -- The dispatch that `Begin` records.
  abbrev pub begun : S → Origin → Job → String → ℕ → DispatchRecord
  begun s origin j owner ttl = record {
    id = origin.dispatch;
    namespace = origin.namespace;
    job = j.name;
    job_version = origin.job_version;
    tasks = length j.tasks;
    state = DispatchState.dispatch_running;
    reason = "";
    owner = owner;
    lease_until = site.world.now s + ttl;
    created = site.world.now s;
    ended = 0;
  }

  -- `Begin`, once the dispatch has its ID.
  abbrev pub record_begun : S → Origin → Job → String → ℕ → S × Origin × Option E
  record_begun s origin j owner ttl =
      let (s1, creating) = site.create_dispatch s (begun s origin j owner ttl) in
      elim creating [
        | some x ↦ (s1, origin, some x)
        | none ↦ (site.hold s1 origin.dispatch, origin, none)
      ]

  -- `Begin`
  unfoldable pub begin_run : S → Origin → Job → String → ℕ → S × Origin × Option E
  begin_run s origin j owner ttl =
      let named = record origin { job = j.name } in
      if not (named.dispatch == 0)
      then record_begun s named j owner ttl
      else let (s1, minting) = site.world.new_id s in
        elim minting [
          | Result.err x ↦ (s1, named, some x)
          | Result.ok id ↦ record_begun s1 (record named { dispatch = id }) j owner ttl
        ]

  -- `end`
  unfoldable pub end_run : S → Origin → DispatchState → String → String → S
  end_run s origin state reason owner =
      let s1 = site.release_lease s in
      if site.lost s1
      then s1
      else site.finish_dispatch s1 (record {
        id = origin.dispatch;
        namespace = origin.namespace;
        job = origin.job;
        job_version = origin.job_version;
        tasks = 0;
        state = state;
        reason = reason;
        owner = owner;
        lease_until = 0;
        created = 0;
        ended = site.world.now s1;
      })

  -- `Finish`
  unfoldable pub finish_run :
      S → Origin → Option JobOutcome → Option (RunError E) → (RunError E → String) → String → S
  finish_run s origin outcome err message owner =
      let (state, reason) = verdict_of_run message outcome err in
      end_run s origin state reason owner
