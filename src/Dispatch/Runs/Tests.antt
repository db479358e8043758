-- ===== src/Dispatch/Runs/Tests.antt =====
-- The theorem on runs at a job of two tasks of which the second cannot be admitted anywhere.
use vagabond.Stores.Executions.{DispatchState}
use vagabond.Scheduler.Floats.{Floats}
use vagabond.Scheduler.Admission.{Input}
use vagabond.Dispatch.Runs.{Site, RunError, run_job, JobOutcome, verdict_of_run}
use vagabond.Job.{Job}
use vagabond.Dispatch.Tests.{std, task, origin, world}
use vagabond.Dispatch.Runs.Verdict.{RanInOrder, AllPassed, run_job-verdict_of_run}
use vagabond.Plugin.Capabilities.{capabilities, no_members, Snapshot}
use vagabond.Base.{
  ◌*◌, ◌/◌, ◌+◌, min, max, ◌∷◌, [], ◌≢◌, arith, ℕ, String, true, none, Result, false, if◌then◌else◌,
  ◌==◌, ◌≡◌, ltb, some, ◌↔◌, is_empty,
}

abbrev counts : Floats ℕ
counts = record {
  of_int = λ n. n * 1000;
  add = λ x y. x + y;
  over = λ x y. if y == 0 then 0 else (x * 1000) / y;
  times = λ x y. (x * y) / 1000;
  less = ltb;
  is_nan = λ x. false;
  smaller = min;
  greater = max;
  rounded = λ x. x / 1000;
}

abbrev runner : Snapshot
runner = record {
  drivers = "container" ∷ [];
  architectures = [];
  max_resources = record { cpu = none; memory = none };
  max_duration = 0;
  default_resources = record { cpu = 0; memory = 0 };
  internet_egress = true;
  private_network = false;
  arbitrary_images = true;
  estimated_cost = 0;
  observed_at = 1;
}

abbrev provider : Input
provider = record {
  provider = "up";
  capabilities = capabilities runner no_members;
  limits = [];
  usage = [];
  namespace = "team";
  share = [];
  share_usage = [];
  tags = [];
  labels = [];
  tier = 0;
  enabled = true;
  healthy = true;
}

abbrev site : Site ℕ String
site = record {
  world = world;
  refresh = λ s. s;
  inputs = λ s namespace. provider ∷ [];
  image = λ t. Result.ok "debian:12";
  create_dispatch = λ s d. (s, none);
  finish_dispatch = λ s d. s;
  hold = λ s id. s;
  release_lease = λ s. s;
  lost = λ s. false;
}

abbrev job : Job
job = record {
  name = "ci";
  namespace = none;
  type = none;
  routing = none;
  tasks = task ∷ record task { name = "deploy"; driver = "worker" } ∷ [];
}

begun_run : origin.dispatch ≢ 0
begun_run h = ground (arith, h)

run_job-verdict_of_run_example :
    let message : RunError String → String = λ e. "stopped" in
    let (s, outcome, err) = run_job site counts std "" 0 origin job in
    (o : JobOutcome) × (outcome ≡ some o)
    × RanInOrder job.tasks o.tasks
    × (((verdict_of_run message outcome err).0 ≡ DispatchState.dispatch_succeeded)
        ↔ ((err ≡ none) × (is_empty job.tasks ≡ false) × AllPassed job.tasks o.tasks))
run_job-verdict_of_run_example =
    run_job-verdict_of_run site counts std "" (λ e. "stopped") 0 origin job begun_run
