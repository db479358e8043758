-- ===== src/Scheduler/Request.antt =====
-- internal/scheduler/request.go: one task and the policy of where it may run.
use vagabond.Base.Int64.{slt}
use vagabond.Quota.Meter.{Execution}
use vagabond.Job.{Task, Routing, Affinity, Constraint, strategy_free_first, default_tier_mode}
use vagabond.Job.Std.{Std, duration_std}
use vagabond.Base.{String, Bool, List, [], Option, ℕ, none, if◌then◌else◌, some, false, str_eq}

-- `Request`; an empty server_tiers is unset.
pub record Request : Type 0 where
  pub task : Task
  pub routing : Option Routing
  pub image : String
  pub execution : Execution
  pub server_tiers : String

abbrev pub or_zero : Option ℕ → ℕ
or_zero n = elim n [ none ↦ 0 | some k ↦ k ]

abbrev pub is_yes : Option Bool → Bool
is_yes b = elim b [ none ↦ false | some x ↦ x ]

-- `Request.CPU` and `Request.Memory`
unfoldable pub task_cpu : Task → ℕ
task_cpu t = elim t.resources [ none ↦ 0 | some r ↦ or_zero r.cpu ]

unfoldable pub task_memory : Task → ℕ
task_memory t = elim t.resources [ none ↦ 0 | some r ↦ or_zero r.memory ]

-- `executionOf`: a timeout that does not parse counts as none.
unfoldable pub execution_of : Std → Task → Execution
execution_of std t = record {
  cpu = task_cpu t;
  memory = task_memory t;
  duration = elim t.timeout [ none ↦ 0 | some d ↦ or_zero (duration_std std d) ];
}

-- `NewRequest`: the image is what evaluating the task's config gave.
unfoldable pub new_request : Std → Task → Option Routing → String → String → Request
new_request std t routing tiers image = record {
  task = t;
  routing = routing;
  image = image;
  execution = execution_of std t;
  server_tiers = tiers;
}

-- `Providers`: the allowlist.
unfoldable pub allowed_providers : Request → List String
allowed_providers req = elim req.routing [ none ↦ [] | some r ↦ r.providers ]

unfoldable pub max_cost_of : Request → ℕ
max_cost_of req = elim req.routing [ none ↦ 0 | some r ↦ or_zero r.max_cost ]

unfoldable pub will_pay : Request → Bool
will_pay req = slt 0 (max_cost_of req)

unfoldable pub strategy_of : Request → String
strategy_of req = elim req.routing [
  | none ↦ strategy_free_first
  | some r ↦ elim r.strategy [ none ↦ strategy_free_first | some s ↦ s ]
]

abbrev pub server_mode : Request → String
server_mode req = if str_eq req.server_tiers "" then default_tier_mode else req.server_tiers

unfoldable pub tier_mode : Request → String
tier_mode req = elim req.routing [
  | none ↦ server_mode req
  | some r ↦ elim r.tiers [ none ↦ server_mode req | some mode ↦ mode ]
]

unfoldable pub constraints_of : Request → List Constraint
constraints_of req = elim req.routing [ none ↦ [] | some r ↦ r.constraints ]

unfoldable pub affinities_of : Request → List Affinity
affinities_of req = elim req.routing [ none ↦ [] | some r ↦ r.affinities ]

-- `Architecture`: none if the task requires none.
unfoldable pub required_architecture : Request → Option String
required_architecture req = elim req.task.execution [ none ↦ none | some x ↦ x.architecture ]

unfoldable pub needs_internet : Request → Bool
needs_internet req = elim req.task.network [ none ↦ false | some n ↦ is_yes n.internet ]

unfoldable pub needs_private_network : Request → Bool
needs_private_network req = elim req.task.network [ none ↦ false | some n ↦ is_yes n.private ]
