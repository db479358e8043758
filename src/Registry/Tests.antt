-- ===== src/Registry/Tests.antt =====
-- The theorems on the registry at two providers, of which one does not answer.
use vagabond.Registry.Fresh.{SaidNow, refresh-SaidNow}
use vagabond.Scheduler.Admission.Checks.{checkers}
use vagabond.Plugin.Capabilities.{Capabilities, capabilities, no_members}
use vagabond.Quota.Limits.{PoolUsage}
use vagabond.Scheduler.Admission.{admit}
use vagabond.Base.Assoc.{lookup}
use vagabond.Registry.Priced.{DistinctNames, PricedAlike, inputs-PricedAlike}
use vagabond.Scheduler.Request.{Request, new_request}
use vagabond.Job.{Task}
use vagabond.Registry.{
  refresh, has_namespace, Registry, Entry, refresh_entry, failures, budgets, inputs,
}
use vagabond.Job.Std.{Std}
use vagabond.Base.{
  ℕ, All, [], ◌∷◌, String, Option, refl, if◌then◌else◌, false, none, str_eq, Bool, ◌≡◌, some, true,
  itoa, ltb,
}

abbrev std : Std
std = record {
  parse_duration = λ s. if str_eq s "1m" then some 60000000000 else none;
  format_duration = λ d. itoa d;
  parse_int = λ s. none;
  format_int = itoa;
  Float = ℕ;
  parse_float = λ s. none;
  float_less = ltb;
  trim_space = λ s. s;
  split_commas = λ s. s ∷ [];
}

abbrev snapshot_at : ℕ → Capabilities
snapshot_at time =
    capabilities
      (record {
        drivers = "container" ∷ [];
        architectures = [];
        max_resources = record { cpu = none; memory = none };
        max_duration = 0;
        default_resources = record { cpu = 0; memory = 0 };
        internet_egress = true;
        private_network = false;
        arbitrary_images = true;
        estimated_cost = 0;
        observed_at = time;
      })
      no_members

abbrev first : Entry
first = record {
  name = "aws";
  live = false;
  tags = [];
  limits = [];
  tier = 0;
  enabled = true;
  healthy = true;
  capabilities = snapshot_at 1;
  has_credentials = false;
  takes_credentials = false;
  recredentialed = 0;
}

abbrev second_one : Entry
second_one = record first { name = "gcp" }

abbrev registry : Registry
registry = record { entries = first ∷ second_one ∷ []; namespaces = ("team", []) ∷ [] }

abbrev ask : Entry → Option Capabilities
ask e = if str_eq e.name "aws" then none else some (snapshot_at 9)

abbrev ask_live : Entry → Capabilities × Bool
ask_live e = (snapshot_at 9, true)

abbrev no_usage : String → String → PoolUsage × PoolUsage
no_usage namespace name = ([], [])

-- The one that does not answer keeps what was known of it, and is named.
refresh_one : refresh ask registry ≡ (
  record registry {
    entries =
        record first { healthy = false } ∷ record second_one { capabilities = snapshot_at 9 } ∷ [];
  },
  "aws" ∷ [],
)
unfolding refresh refresh_entry failures
refresh_one = refl

undeclared_namespace : has_namespace registry "other" ≡ false
unfolding has_namespace lookup
undeclared_namespace = refl

distinct : DistinctNames registry.entries
distinct = ((refl, tt), (tt, tt))

abbrev task : Task
task = record {
  name = "build";
  driver = "container";
  resources = none;
  timeout = some "1m";
  network = none;
  execution = none;
  retry = none;
}

abbrev request : Request
request = new_request std task none "" "debian:12"

inputs-PricedAlike_example :
    All (PricedAlike (budgets registry)) (inputs registry "team" no_usage ask_live)
inputs-PricedAlike_example = inputs-PricedAlike registry "team" no_usage ask_live distinct

refresh-SaidNow_example :
    All
      (λ c. SaidNow ask ask_live registry c.input)
      (admit
        (checkers std)
        request
        (inputs (refresh ask registry).0 "team" no_usage ask_live)).candidates
refresh-SaidNow_example = refresh-SaidNow ask ask_live registry std request "team" no_usage distinct
