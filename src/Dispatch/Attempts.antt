-- ===== src/Dispatch/Attempts.antt =====
-- internal/dispatch/dispatcher.go and outcome.go: the attempts at one task. The registry, the ledger,
-- the execution store, the clock and the plugin are an interface over the state of the world.
use vagabond.Job.{Task}
use vagabond.Base.Int64.{slt}
use vagabond.Quota.Meter.{Execution}
use vagabond.Dispatch.Retry.{retry_policy, Policy, backoff, budget}
use vagabond.Scheduler.Request.{Request, execution_of, will_pay}
use vagabond.Plugin.Failure.{Failure, reroutable}
use vagabond.Execution.State.{State}
use vagabond.Ledger.Account.{Refusal, ReserveError}
use vagabond.Job.Std.{Std}
use vagabond.Base.{
  ◌∷◌, List, [], ℕ, String, Bool, Option, if◌then◌else◌, Time, ltb, Result, not, none, ◌==◌, some,
  ◌+◌, ◌++◌, true, false,
}
pub mod Budget

-- `Record` as `prepare` makes it.
pub record Prepared : Type 0 where
  pub id : ℕ
  pub updated_at : Time
  pub namespace : String
  pub job : String
  pub job_version : ℕ
  pub dispatch : ℕ
  pub task : String
  pub provider : String
  pub attempt : ℕ
  pub previous : ℕ
  pub cpu : ℕ
  pub memory : ℕ

-- `Origin`
pub record Origin : Type 0 where
  pub namespace : String
  pub job : String
  pub job_version : ℕ
  pub dispatch : ℕ

-- What `charge` and the outcome read of a result: how long it ran and what was billed.
pub record Answer : Type 0 where
  pub duration : ℕ
  pub billed : Option Execution

-- What executing a submission came to.
pub record Ended : Type 0 where
  pub state : State
  pub result : Option Answer
  pub streamed : Bool

-- The world of type S, whose operations fail with E.
pub record World (S E : Type 0) : Type 0 where
  pub registered : S → String → Bool
  pub new_id : S → S × Result E ℕ
  pub now : S → Time
  pub reserve : S → ℕ → String → String → Execution → Bool → S × Option (ReserveError E)
  pub create : S → Prepared → S × Option E
  pub sleep : S → ℕ → S × Option E
  pub execute : S → Task → Prepared → List String → S × Ended × Option Failure
  pub settle : S → ℕ → String → String → Execution → S

-- What ended an attempt: the ledger's refusal, or the provider's failure.
pub data Fault : Type 0 where
  refused_by : Refusal → Fault
  failed_with : Failure → Fault

-- `Attempt`
pub record Attempt : Type 0 where
  pub provider : String
  pub id : ℕ
  pub err : Option Fault
  pub refused : Bool

-- How `attempt` ends: with an answer, or with one of its errors.
pub data Ending (E : Type 0) : Type 0 where
  answered : String → ℕ → Ended → Ending E
  no_provider : String → Ending E
  not_prepared : E → Ending E
  has_room : String → Ending E
  interrupted : E → Ending E
  not_reroutable : Failure → Ending E
  no_candidates : Option Fault → Ending E
  exhausted : Option Fault → Ending E

-- What `prepare` returns.
pub data Preparation (E : Type 0) : Type 0 where
  ready : Prepared → Preparation E
  turned_down : ℕ → Refusal → Preparation E
  out_of_step : String → Preparation E
  failed : E → Preparation E

module _ {S E : Type 0} (w : World S E) (std : Std) (origin : Origin) (req : Request) where
  -- The record that `prepare` mints for an ID.
  abbrev pub minted : S → ℕ → String → ℕ → ℕ → Prepared
  minted s id name attempt previous = record {
    id = id;
    updated_at = w.now s;
    namespace = origin.namespace;
    job = origin.job;
    job_version = origin.job_version;
    dispatch = origin.dispatch;
    task = req.task.name;
    provider = name;
    attempt = attempt;
    previous = previous;
    cpu = req.execution.cpu;
    memory = req.execution.memory;
  }

  -- `prepare`
  unfoldable pub prepare : S → String → ℕ → ℕ → S × Preparation E
  prepare s name attempt previous =
      let (s1, minting) = w.new_id s in
      elim minting [
        | Result.err x ↦ (s1, Preparation.failed x)
        | Result.ok id ↦
            let (s2, reserving) =
              w.reserve s1 id origin.namespace name req.execution (will_pay req) in
            elim reserving [
              | some (ReserveError.refused r) ↦ (s2, Preparation.turned_down id r)
              | some (ReserveError.has_room p) ↦ (s2, Preparation.out_of_step p)
              | some (ReserveError.store_failed x) ↦ (s2, Preparation.failed x)
              | none ↦
                  let run = minted s1 id name attempt previous in
                  let (s3, creating) = w.create s2 run in
                  (
                    s3,
                    elim creating [ none ↦ Preparation.ready run | some x ↦ Preparation.failed x ],
                  )
            ]
      ]

  -- `pause`
  unfoldable pub pause : S → Policy → ℕ → S × Option E
  pause s p tried = if tried == 0 then (s, none) else w.sleep s (backoff p tried)

  -- `charge`
  unfoldable pub charge_run : S → Prepared → Option Answer → S
  charge_run s run result = elim result [
    | none ↦ s
    | some a ↦ w.settle s run.id run.namespace run.provider (elim a.billed [
      | none ↦ record { cpu = run.cpu; memory = run.memory; duration = a.duration }
      | some actual ↦ actual
    ])
  ]

  -- What follows the loop.
  abbrev pub nowhere_left : ℕ → Option Fault → Ending E
  nowhere_left tried last = if tried == 0 then Ending.no_candidates last else Ending.exhausted last

  -- One submission, after `prepare`: the pause, the run and its charge.
  unfoldable pub submit :
      S → Policy → Prepared → List String → ℕ → S × Result E (Ended × Option Failure)
  submit s p run nodes tried =
      let (s1, pausing) = pause s p tried in
      elim pausing [
        | some x ↦ (s1, Result.err x)
        | none ↦
            let (s2, ended, err) = w.execute s1 req.task run nodes in
            (charge_run s2 run ended.result, Result.ok (ended, err))
      ]

  -- The loop of `attempt`, over the candidates that are left.
  unfoldable pub attempt_from :
      Policy
      → List (String × List String)
      → S
      → ℕ
      → ℕ
      → Option Fault
      → List Attempt
      → S × List Attempt × Ending E
  attempt_from p [] s tried previous last done = (s, done, nowhere_left tried last)
  attempt_from p ((name, nodes) ∷ ranking) s tried previous last done =
      if not (slt tried (budget p))
      then (s, done, nowhere_left tried last)
      else if not (w.registered s name)
      then (s, done, Ending.no_provider name)
      else let (s1, preparation) = prepare s name (tried + 1) previous in
        elim preparation [
          | Preparation.turned_down id r ↦
              attempt_from p ranking s1 tried previous (some (Fault.refused_by r)) (
                done
                ++ (record {
                  provider = name;
                  id = id;
                  err = some (Fault.refused_by r);
                  refused = true;
                }
                    ∷ []))
          | Preparation.out_of_step pool ↦ (s1, done, Ending.has_room pool)
          | Preparation.failed x ↦ (s1, done, Ending.not_prepared x)
          | Preparation.ready run ↦
              let (s2, submitting) = submit s1 p run nodes tried in
              elim submitting [
                | Result.err x ↦ (s2, done, Ending.interrupted x)
                | Result.ok (ended, none) ↦ (
                  s2,
                  done
                      ++ (record { provider = name; id = run.id; err = none; refused = false }
                          ∷ []),
                  Ending.answered name run.id ended,
                )
                | Result.ok (ended, some e) ↦
                    let tried_here =
                      done
                      ++ (record {
                        provider = name;
                        id = run.id;
                        err = some (Fault.failed_with e);
                        refused = false;
                      }
                          ∷ []) in
                    if not (reroutable e)
                    then (s2, tried_here, Ending.not_reroutable e)
                    else attempt_from p ranking s2 (tried + 1) run.id (some (Fault.failed_with e))
                        tried_here
              ]
        ]

  -- `attempt`: the ranked providers, each with the pool nodes that passed.
  unfoldable pub attempt : List (String × List String) → S → S × List Attempt × Ending E
  attempt ranking s = attempt_from (retry_policy std req.task) ranking s 0 0 none []

-- `TaskOutcome.Tried`
unfoldable pub tried_of : List Attempt → ℕ
tried_of [] = 0
tried_of (a ∷ attempts) = let rest = tried_of attempts in if not a.refused then rest + 1 else rest

-- `TaskOutcome.Rerouted`
unfoldable pub rerouted : List Attempt → Bool
rerouted attempts = ltb 1 (tried_of attempts)
