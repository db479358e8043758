-- ===== src/Job.antt =====
-- internal/job: what a job file says of a task and of where it may run. Go's string types are
-- strings, `nil` is none, and an int is an int64 pattern.
use vagabond.Base.{Option, String, Bool, true, List, ℕ, false}
pub mod Std

-- `Operator`; `other` is a spelling that is not one.
pub data Operator : Type 0 where
  equal not_equal less less_equal greater greater_equal set_contains is_set is_not_set : Operator
  other : String → Operator

-- `Operator.Ordering`
unfoldable pub ordering : Operator → Bool
ordering Operator.less = true
ordering Operator.less_equal = true
ordering Operator.greater = true
ordering Operator.greater_equal = true
ordering _ = false

-- `Operator.Presence`
unfoldable pub presence : Operator → Bool
presence Operator.is_set = true
presence Operator.is_not_set = true
presence _ = false

pub record Constraint : Type 0 where
  pub attribute : String
  pub operator : Operator
  pub value : String

pub record Affinity : Type 0 where
  pub attribute : String
  pub operator : Operator
  pub value : String
  pub weight : Option ℕ

pub record Routing : Type 0 where
  pub strategy : Option String
  pub providers : List String
  pub max_cost : Option ℕ
  pub tiers : Option String
  pub constraints : List Constraint
  pub affinities : List Affinity

pub record Resources : Type 0 where
  pub cpu : Option ℕ
  pub memory : Option ℕ

pub record Network : Type 0 where
  pub internet : Option Bool
  pub private : Option Bool

pub record ExecutionRequirements : Type 0 where
  pub architecture : Option String
  pub privileged : Option Bool

pub record Backoff : Type 0 where
  pub initial : Option String
  pub longest : Option String

pub record Retry : Type 0 where
  pub attempts : Option ℕ
  pub reroute : Option Bool
  pub backoff : Option Backoff

-- `Task`, without what only a provider's plugin reads.
pub record Task : Type 0 where
  pub name : String
  pub driver : String
  pub resources : Option Resources
  pub timeout : Option String
  pub network : Option Network
  pub execution : Option ExecutionRequirements
  pub retry : Option Retry

-- `Job`, without the metadata that its config is evaluated with.
pub record Job : Type 0 where
  pub name : String
  pub namespace : Option String
  pub type : Option String
  pub routing : Option Routing
  pub tasks : List Task

abbrev pub tiers_strict : String
tiers_strict = "strict"

abbrev pub tiers_weighted : String
tiers_weighted = "weighted"

-- `DefaultTierMode`
abbrev pub default_tier_mode : String
default_tier_mode = tiers_strict

abbrev pub strategy_free_first : String
strategy_free_first = "free-first"
