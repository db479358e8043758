-- ===== src/Jobspec/Tests.antt =====
-- The theorems on job files at a file of one job of two tasks.

use vagabond.Job.Std.{Std, duration_std}
use vagabond.Jobspec.{
  validate, Config, Problem, validate_jobs, validate_job, validate_job_type, validate_routing,
  validate_constraints, validate_attribute, validate_operator, validate_affinities, validate_tasks,
  validate_tasks_from, validate_task, validate_driver, validate_config, validate_execution,
  validate_resources, check_duration, validate_backoff, validate_retry, validate_timeout,
}
use vagabond.Base.{[], ◌∷◌, if◌then◌else◌, ◌≡◌, none, some, refl, true, str_eq, itoa, false, ℕ, ltb}
use vagabond.Job.{Job, Task, Operator, presence}
use vagabond.Scheduler.Admission.{Input}
use vagabond.Plugin.Attributes.{matchable}
use vagabond.Jobspec.Sound.{SoundJob, validate-SoundJob}
use vagabond.Plugin.Capabilities.{capabilities, no_members}

abbrev std : Std
std = record {
  parse_duration = λ s. if str_eq s "1m" then some 60000000000 else none;
  format_duration = λ d. itoa d;
  parse_int = λ s. none;
  format_int = itoa;
  Float = ℕ;
  parse_float = λ s. none;
  float_less = ltb;
  trim_space = λ s. s;
  split_commas = λ s. s ∷ [];
}

abbrev task : Task
task = record {
  name = "build";
  driver = "container";
  resources = some (record { cpu = some 1000; memory = some 512 });
  timeout = some "1m";
  network = none;
  execution = some (record { architecture = some "arm64"; privileged = none });
  retry = some (record {
    attempts = some 2;
    reroute = some true;
    backoff = some (record { initial = some "1m"; longest = some "1m" });
  });
}

abbrev job : Job
job = record {
  name = "ci";
  namespace = none;
  type = some "batch";
  routing = some (record {
    strategy = none;
    providers = [];
    max_cost = none;
    tiers = some "weighted";
    constraints =
        record { attribute = "provider.tier"; operator = Operator.less; value = "5" } ∷ [];
    affinities = [];
  });
  tasks = task ∷ record task { name = "deploy" } ∷ [];
}

abbrev config : Task → Config
config t = Config.attributes_of ("image" ∷ [])

passes : validate std config (job ∷ []) ≡ []
unfolding validate validate_jobs validate_job validate_job_type validate_routing
    validate_constraints validate_attribute matchable validate_operator presence validate_affinities
    validate_tasks validate_tasks_from validate_task validate_driver validate_config
    validate_execution validate_resources duration_std check_duration validate_backoff
    validate_retry validate_timeout
passes = refl

-- A task that comes twice is reported.
twice :
    validate std config (record job { tasks = task ∷ task ∷ [] } ∷ [])
    ≡ Problem.duplicate_task "build" ∷ []
unfolding validate validate_jobs validate_job validate_job_type validate_routing
    validate_constraints validate_attribute matchable validate_operator presence validate_affinities
    validate_tasks validate_tasks_from validate_task validate_driver validate_config
    validate_execution validate_resources duration_std check_duration validate_backoff
    validate_retry validate_timeout
twice = refl

validate-SoundJob_example : (j : Job) × (job ∷ [] ≡ j ∷ []) × SoundJob std j
validate-SoundJob_example = validate-SoundJob std config (job ∷ []) passes

abbrev input : Input
input = record {
  provider = "up";
  capabilities =
      capabilities
        (record {
          drivers = "container" ∷ [];
          architectures = [];
          max_resources = record { cpu = none; memory = none };
          max_duration = 0;
          default_resources = record { cpu = 0; memory = 0 };
          internet_egress = true;
          private_network = false;
          arbitrary_images = true;
          estimated_cost = 0;
          observed_at = 1;
        })
        no_members;
  limits = [];
  usage = [];
  namespace = "team";
  share = [];
  share_usage = [];
  tags = [];
  labels = [];
  tier = 0;
  enabled = true;
  healthy = true;
}
