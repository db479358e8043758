-- ===== src/Ledger/Account/Snapshot.antt =====
-- internal/ledger/ledger.go: the usage that plans read, a snapshot of the store.
mod Periods
pub mod Admitted
mod Tests
use vagabond.Quota.Meter.{period_key}
use vagabond.Base.Assoc.{Map}
use vagabond.Quota.Limits.{Limits, PoolUsage}
use vagabond.Ledger.Memory.{Usage}
use vagabond.Ledger.Account.{Budgets, layer_usage, total_namespace, total_of, share_of}
use vagabond.Ledger.Account.Store.{Store}
use vagabond.Base.{
  Time, ◌∷◌, [], List, Option, String, sort, Result, if◌then◌else◌, string_le, some, str_eq, none,
  ◌||◌, contains, ◌++◌,
}

pub record UsageSnapshot : Type 0 where
  pub usage : Usage
  pub refreshed : Time

-- `PoolUsage`: the provider's total and the namespace's share of it.
unfoldable pub pool_usage : Budgets → UsageSnapshot → Time → String → String → PoolUsage × PoolUsage
pool_usage b s now namespace provider = (
  layer_usage s.usage total_namespace provider (total_of b provider) now,
  layer_usage s.usage namespace provider (share_of b namespace provider) now,
)

-- `add` of `periods`: the keys that are not there yet.
unfoldable pub add_periods : Time → Limits → List String → List String
add_periods now [] periods = periods
add_periods now (p ∷ ps) periods =
    let key = period_key p.period now in
    add_periods now ps
      (if str_eq key "" || contains str_eq periods key then periods else periods ++ key ∷ [])

-- The loops of `periods`.
unfoldable pub add_limits : Time → Map String Limits → List String → List String
add_limits now [] periods = periods
add_limits now ((name, limits) ∷ rest) periods =
    add_limits now rest (add_periods now limits periods)

unfoldable pub add_shares : Time → Map String (Map String Limits) → List String → List String
add_shares now [] periods = periods
add_shares now ((name, shares) ∷ rest) periods = add_shares now rest (add_limits now shares periods)

unfoldable pub current_periods : Budgets → Time → List String
current_periods b now = sort string_le (add_shares now b.namespaces (add_limits now b.totals []))

-- `Ledger.Refresh`, with the clock read before and after the store answers.
unfoldable pub refresh_snapshot :
    {S E : Type 0}
    → Store S E
    → Budgets
    → S
    → Time
    → Time
    → UsageSnapshot
    → UsageSnapshot × Option E
refresh_snapshot store b s now later old = elim (store.read_usage s (current_periods b now)) [
  | Result.err x ↦ (old, some x)
  | Result.ok usage ↦ (record { usage = usage; refreshed = later }, none)
]
