-- ===== src/Scheduler/Tests.antt =====
-- The scheduler's theorems at a concrete task, a provider and a pool of two nodes.
use vagabond.Plugin.Capabilities.{capabilities, no_members, member, Members, Capabilities, Snapshot}
use vagabond.Scheduler.Admission.Results.{accepted, refused, admit_lem}
use vagabond.Scheduler.Admission.Eligibility.{Eligible, admit_one-Eligible}
use vagabond.Scheduler.Admission.Checks.{checkers}
use vagabond.Plugin.Attributes.{Attributes}
use vagabond.Scheduler.Request.{Request, new_request}
use vagabond.Job.Std.{Std}
use vagabond.Scheduler.Admission.Pools.{PoolVerdict, admit_provider-PoolVerdict}
use vagabond.Scheduler.Admission.{
  admit, Input, admit_one, admit_provider, candidate_le, rejection_le,
}
use vagabond.Base.{
  String, ◌∷◌, [], if◌then◌else◌, ◌≡◌, some, none, Perm, ◌↔◌, true, Bool, str_eq, false, ◌==◌, itoa,
  refl, ℕ, length, ltb, ◌+◌, Sorted,
}
use vagabond.Job.{Operator, Constraint, Routing, Task}

-- Parsers that know the texts of these tests.
abbrev pub std : Std
std = record {
  parse_duration = λ s. if str_eq s "1m" then some 60000000000 else none;
  format_duration = λ d. if d == 60000000000 then "1m" else itoa d;
  parse_int = λ s. if str_eq s "5" then some 5 else if str_eq s "7" then some 7 else none;
  format_int = itoa;
  Float = ℕ;
  parse_float = λ s. none;
  float_less = ltb;
  trim_space = λ s. s;
  split_commas = λ s. s ∷ [];
}

abbrev task : Task
task = record {
  name = "build";
  driver = "container";
  resources = some (record { cpu = some 1000; memory = some 512 });
  timeout = some "1m";
  network = some (record { internet = some true; private = none });
  execution = some (record { architecture = some "arm64"; privileged = none });
  retry = none;
}

abbrev region : Constraint
region = record { attribute = "provider.meta.region"; operator = Operator.equal; value = "eu" }

abbrev routing : Routing
routing = record {
  strategy = none;
  providers = "pool" ∷ "cloud" ∷ [];
  max_cost = none;
  tiers = none;
  constraints = region ∷ [];
  affinities = [];
}

abbrev pub request : Request
request = new_request std task (some routing) "" "debian:12"

abbrev pub node : String → Snapshot
node arch = record {
  drivers = "container" ∷ [];
  architectures = arch ∷ [];
  max_resources = record { cpu = some 2000; memory = none };
  max_duration = 0;
  default_resources = record { cpu = 0; memory = 0 };
  internet_egress = true;
  private_network = false;
  arbitrary_images = true;
  estimated_cost = 0;
  observed_at = 1;
}

abbrev pub input : String → Capabilities → Bool → Input
input provider c healthy = record {
  provider = provider;
  capabilities = c;
  limits = [];
  usage = [];
  namespace = "team";
  share = [];
  share_usage = [];
  tags = ("region", "eu") ∷ [];
  labels = [];
  tier = 0;
  enabled = true;
  healthy = healthy;
}

abbrev pub cloud : Input
cloud = input "cloud" (capabilities (node "arm64") no_members) true

abbrev pub nodes : Members
nodes =
    member "left" (capabilities (node "amd64") no_members) []
      (member "right" (capabilities (node "arm64") no_members) [] no_members)

abbrev pub pool : Input
pool = input "pool" (capabilities (node "amd64") nodes) true

abbrev published : Attributes
published = ("provider.meta.region", "eu") ∷ ("provider.tier", "5") ∷ []

admit_one-Eligible_example :
    (admit_one request cloud (checkers std) ≡ none) ↔ Eligible std request cloud
admit_one-Eligible_example = admit_one-Eligible std request cloud tt tt

admit_provider-PoolVerdict_example :
    PoolVerdict request pool (checkers std) nodes (admit_provider request pool (checkers std))
admit_provider-PoolVerdict_example =
    admit_provider-PoolVerdict request pool (checkers std) "left"
      (capabilities (node "amd64") no_members) []
      (member "right" (capabilities (node "arm64") no_members) [] no_members) refl

admit_lem_example :
    let result = admit (checkers std) request (pool ∷ cloud ∷ []) in
    Perm (accepted (checkers std) request (pool ∷ cloud ∷ [])) result.candidates
    × Perm (refused (checkers std) request (pool ∷ cloud ∷ [])) result.rejections
    × (length (accepted (checkers std) request (pool ∷ cloud ∷ []))
          + length (refused (checkers std) request (pool ∷ cloud ∷ []))
        ≡ 2)
    × Sorted candidate_le result.candidates
    × Sorted rejection_le result.rejections
admit_lem_example = admit_lem (checkers std) request (pool ∷ cloud ∷ [])
