-- ===== src/Server/Tests.antt =====
-- The theorem on handlers at a registered job that takes no metadata.
use vagabond.Jobspec.{
  validate, validate_jobs, validate_job, validate_job_type, validate_routing, validate_tasks,
  validate_tasks_from, validate_task, validate_driver, validate_config, validate_execution,
  validate_resources, validate_timeout, validate_retry, Config,
}
use vagabond.Stores.Jobs.{get_job, get_version, find_version, versions_of, Jobs, JobKey, register}
use vagabond.Jobspec.Meta.{check_dispatch, Declaration}
use vagabond.Base.Assoc.{lookup, insert}
use vagabond.Server.Launching.{IsCurrent, dispatch_job-IsCurrent}
use vagabond.Base.{
  [], String, ◌∷◌, false, Result, ◌≡◌, Bool, none, str_eq, itoa, some, ◌⊎◌, ℕ, ltb, refl,
}
use vagabond.Job.{Job, Task}
use vagabond.Server.{
  HandlerFault, JobFiles, dispatch_job, registered_job, namespace_for, declared_only,
  NamespaceError, Launch, current_job, for_dispatch, load,
}
use vagabond.Job.Std.{Std}

abbrev std : Std
std = record {
  parse_duration = λ s. none;
  format_duration = λ d. itoa d;
  parse_int = λ s. none;
  format_int = itoa;
  Float = ℕ;
  parse_float = λ s. none;
  float_less = ltb;
  trim_space = λ s. s;
  split_commas = λ s. s ∷ [];
}

abbrev build : Task
build = record {
  name = "build";
  driver = "container";
  resources = none;
  timeout = none;
  network = none;
  execution = none;
  retry = none;
}

abbrev ci : Job
ci = record { name = "ci"; namespace = none; type = none; routing = none; tasks = build ∷ [] }

abbrev declaration : Declaration
declaration = record { job = "ci"; parameterized = false; required = []; optional = [] }

-- A library that reads every source as this job; a diagnostic is a text.
abbrev files : JobFiles String
files = record {
  declared = λ source. Result.ok declaration;
  parse = λ source meta. Result.ok (ci ∷ [], λ t. Config.attributes_of ("image" ∷ []));
}

abbrev key : JobKey
key = record { namespace = "default"; name = "ci" }

abbrev store : Jobs
store = (register (λ source. "print") (record { jobs = []; versions = [] }) key (1 ∷ []) 5).0

abbrev has : String → Bool
has name = str_eq name "default"

launched :
    dispatch_job std files store has "" "ci" []
    ≡ some (Result.ok (record { namespace = "default"; version = 1; job = ci }))
unfolding dispatch_job registered_job namespace_for declared_only current_job get_job get_version
    find_version versions_of register lookup insert for_dispatch check_dispatch load validate
    validate_jobs validate_job validate_job_type validate_routing validate_tasks validate_tasks_from
    validate_task validate_driver validate_config validate_execution validate_resources
    validate_timeout validate_retry
launched = refl

undeclared_is_refused :
    dispatch_job std files store has "other" "ci" []
    ≡ some (Result.err (HandlerFault.bad_namespace (NamespaceError.undeclared_namespace "other")))
unfolding dispatch_job registered_job namespace_for declared_only
undeclared_is_refused = refl

dispatch_job-IsCurrent_example :
    ((x : HandlerFault String) × (dispatch_job std files store has "" "ci" []
        ≡ some (Result.err x)))
    ⊎ ((l : Launch) × (dispatch_job std files store has "" "ci" [] ≡ some (Result.ok l))
        × IsCurrent std files store has "" "ci" [] l)
dispatch_job-IsCurrent_example = dispatch_job-IsCurrent std files store has "" "ci" []
