-- ===== src/Server.antt =====
-- internal/jobs/load.go with the handlers of internal/server/dispatch.go, plan.go, jobs.go and
-- http.go that load a job: what a request must pass before its job is run, planned or registered.
-- Reading a job file is the HCL library's part: it is what `declared` and `parse` give.
pub mod Launching
pub mod Cancelling
mod Tests
use vagabond.Jobspec.Meta.{DispatchRefusal, Declaration, check_dispatch, references}
use vagabond.Stores.Jobs.{Jobs, JobVersion, JobKey, get_job, get_version}
use vagabond.Job.{Job, Task}
use vagabond.Base.Assoc.{Map}
use vagabond.Jobspec.{Problem, validate, Config}
use vagabond.Job.Std.{Std}
use vagabond.Base.{
  [], List, String, ◌∷◌, ℕ, Result, Bool, Option, some, none, if◌then◌else◌, str_eq, not, is_empty,
  ◌&&◌,
}

-- What `jobspec.Declared` and `jobspec.Parse` make of a source, with diagnostics D.
pub record JobFiles (D : Type 0) : Type 0 where
  pub declared : List ℕ → Result D Declaration
  pub parse : List ℕ → Map String String → Result D (List Job × (Task → Config))

-- Why a job is not loaded.
pub data LoadError (D : Type 0) : Type 0 where
  unreadable : D → LoadError D
  wrong : List Problem → LoadError D
  refused : DispatchRefusal → LoadError D

-- The errors of `Namespace`.
pub data NamespaceError : Type 0 where
  conflicting : String → String → NamespaceError
  undeclared_namespace : String → NamespaceError

-- What a handler fails with.
pub data HandlerFault (D : Type 0) : Type 0 where
  invalid_job : LoadError D → HandlerFault D
  bad_namespace : NamespaceError → HandlerFault D
  both_named no_job no_such_version : HandlerFault D
  job_stopped : String → HandlerFault D

-- `failure`, for these errors.
unfoldable pub status_of : {D : Type 0} → HandlerFault D → ℕ
status_of (HandlerFault.invalid_job x) = 400
status_of (HandlerFault.bad_namespace x) = 400
status_of HandlerFault.both_named = 400
status_of HandlerFault.no_job = 404
status_of HandlerFault.no_such_version = 404
status_of (HandlerFault.job_stopped name) = 409

-- `DefaultNamespace`
abbrev pub default_namespace : String
default_namespace = "default"

-- The end of `Namespace`.
unfoldable pub declared_only : (String → Bool) → String → Result NamespaceError String
declared_only has namespace =
    let named = if str_eq namespace "" then default_namespace else namespace in
    if not (has named)
    then Result.err (NamespaceError.undeclared_namespace named)
    else Result.ok named

-- `Namespace`: the job's own, else the one requested, else the default.
unfoldable pub namespace_for :
    String → Option String → (String → Bool) → Result NamespaceError String
namespace_for requested own has = elim own [
  | none ↦ declared_only has requested
  | some n ↦
      if not (str_eq requested "") && not (str_eq requested n)
      then Result.err (NamespaceError.conflicting n requested)
      else declared_only has n
]

-- What is launched, planned or registered: the namespace, the version, if any, and the first job.
pub record Launch : Type 0 where
  pub namespace : String
  pub version : ℕ
  pub job : Job

module _ {D : Type 0} (std : Std) (files : JobFiles D) where
  -- `Load`
  unfoldable pub load : List ℕ → Map String String → Result (LoadError D) (List Job)
  load source meta = elim (files.parse source meta) [
    | Result.err d ↦ Result.err (LoadError.unreadable d)
    | Result.ok (parsed, config) ↦ elim (validate std config parsed) [
      | [] ↦ Result.ok parsed
      | p ∷ ps ↦ Result.err (LoadError.wrong (p ∷ ps))
    ]
  ]

  -- `ForRegister`
  unfoldable pub for_register : List ℕ → Result (LoadError D) (List Job)
  for_register source = elim (files.declared source) [
    | Result.err d ↦ Result.err (LoadError.unreadable d)
    | Result.ok decl ↦ load source (references decl)
  ]

  -- `ForDispatch`
  unfoldable pub for_dispatch : List ℕ → Map String String → Result (LoadError D) (List Job)
  for_dispatch source meta = elim (files.declared source) [
    | Result.err d ↦ Result.err (LoadError.unreadable d)
    | Result.ok decl ↦ elim (check_dispatch decl meta) [
      | some refusal ↦ Result.err (LoadError.refused refusal)
      | none ↦ load source meta
    ]
  ]

  -- `&parsed.Spec.Jobs[0]`: none is the panic of an index that is out of range.
  abbrev pub first_job : String → ℕ → List Job → Option Launch
  first_job namespace version [] = none
  first_job namespace version (j ∷ js) =
      some (record { namespace = namespace; version = version; job = j })

  module _ (store : Jobs) (has : String → Bool) (requested : String) where
    -- `Current`
    unfoldable pub current_job : String → String → Result (HandlerFault D) JobVersion
    current_job namespace name =
        let key : JobKey = record { namespace = namespace; name = name } in
        elim (get_job store key) [
          | none ↦ Result.err HandlerFault.no_job
          | some j ↦
              if j.stopped
              then Result.err (HandlerFault.job_stopped name)
              else elim (get_version store key j.version) [
                | none ↦ Result.err HandlerFault.no_such_version
                | some v ↦ Result.ok v
              ]
        ]

    -- A handler ends with an answer or a fault; none is a panic.
    unfoldable pub registered_job :
        String → Map String String → Option (Result (HandlerFault D) Launch)
    registered_job name meta = elim (namespace_for requested none has) [
      | Result.err x ↦ some (Result.err (HandlerFault.bad_namespace x))
      | Result.ok namespace ↦ elim (current_job namespace name) [
        | Result.err x ↦ some (Result.err x)
        | Result.ok v ↦ elim (for_dispatch v.source meta) [
          | Result.err x ↦ some (Result.err (HandlerFault.invalid_job x))
          | Result.ok jobs ↦ elim (first_job namespace v.version jobs) [
            | none ↦ none
            | some l ↦ some (Result.ok l)
          ]
        ]
      ]
    ]

    -- A job that a request carries, loaded already.
    unfoldable pub carried_job :
        Result (LoadError D) (List Job) → Option (Result (HandlerFault D) Launch)
    carried_job loaded = elim loaded [
      | Result.err x ↦ some (Result.err (HandlerFault.invalid_job x))
      | Result.ok jobs ↦ elim (first_job "" 0 jobs) [
        | none ↦ none
        | some l ↦ elim (namespace_for requested l.job.namespace has) [
          | Result.err x ↦ some (Result.err (HandlerFault.bad_namespace x))
          | Result.ok namespace ↦ some (Result.ok (record l { namespace = namespace }))
        ]
      ]
    ]

    -- What `dispatchJob`, `runJob` and `registerJob` do with the job; `planned` gives what is planned.
    unfoldable pub dispatch_job :
        String → Map String String → Option (Result (HandlerFault D) Launch)
    dispatch_job name meta = registered_job name meta

    unfoldable pub run_source : List ℕ → Map String String → Option (Result (HandlerFault D) Launch)
    run_source source meta = carried_job (load source meta)

    unfoldable pub register_source : List ℕ → Option (Result (HandlerFault D) Launch)
    register_source source = carried_job (for_register source)

    unfoldable pub planned :
        String → List ℕ → Map String String → Option (Result (HandlerFault D) Launch)
    planned name source meta =
        if not (is_empty source) && not (str_eq name "")
        then some (Result.err HandlerFault.both_named)
        else if not (str_eq name "")
        then registered_job name meta
        else carried_job (load source meta)
