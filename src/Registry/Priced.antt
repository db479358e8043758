-- ===== src/Registry/Priced.antt =====
-- internal/registry/registry.go: a plan and the ledger price a provider from the same pools.
use vagabond.Plugin.Capabilities.{Capabilities}
use vagabond.Quota.Limits.{PoolUsage, Limits}
use vagabond.Base.Assoc.{Map, lookup, insert, lookup-insert}
use vagabond.Scheduler.Admission.{Input}
use vagabond.Base.{
  ◌∷◌, [], List, String, All, ◌≡◌, str_eq, false, Bool, string_key, some, arith, map, eq_iff, refl,
}
use vagabond.Ledger.Account.{Budgets, total_of, share_of}
use vagabond.Registry.{Registry, totals_from, Entry, input_of, inputs, budgets, registry_share}

abbrev pub DistinctNames : List Entry → Type 0
DistinctNames [] = Unit
DistinctNames (e ∷ es) = All (λ x. str_eq e.name x.name ≡ false) es × DistinctNames es

-- No later entry of another name touches what is charged to this one.
totals_from-other :
    (name : String) (es : List Entry) (totals : Map String Limits)
    → All (λ x. str_eq name x.name ≡ false) es
    → lookup string_key name (totals_from es totals) ≡ lookup string_key name totals
unfolding totals_from
totals_from-other name [] totals h = refl
totals_from-other name (e ∷ es) totals h = grind (
  arith,
  totals_from-other name es (insert string_key e.name e.limits totals) h.1,
  lookup-insert string_key e.name name e.limits totals,
  eq_iff e.name name,
  eq_iff name e.name,
)

totals_from-All :
    (es : List Entry) (totals : Map String Limits)
    → DistinctNames es
    → All (λ e. lookup string_key e.name (totals_from es totals) ≡ some e.limits) es
unfolding totals_from
totals_from-All [] totals d = tt
totals_from-All (e ∷ es) totals d = (
  grind (
    arith,
    totals_from-other e.name es (insert string_key e.name e.limits totals) d.0,
    lookup-insert string_key e.name e.name e.limits totals,
    eq_iff e.name e.name,
  ),
  totals_from-All es (insert string_key e.name e.limits totals) d.1,
)

-- What a plan reads of a provider's pools, and of the namespace's share of it, is what the ledger
-- charges.
abbrev pub PricedAlike : Budgets → Input → Type 0
PricedAlike b x = (x.limits ≡ total_of b x.provider) × (x.share ≡ share_of b x.namespace x.provider)

module _ (r : Registry) (namespace : String) (usage : String → String → PoolUsage × PoolUsage)
    (ask_live : Entry → Capabilities × Bool) where
  All-inputs :
      (es : List Entry)
      → All (λ e. lookup string_key e.name (totals_from r.entries []) ≡ some e.limits) es
      → All (PricedAlike (budgets r)) (map (input_of r namespace usage ask_live) es)
  unfolding input_of budgets total_of share_of registry_share
  All-inputs [] h = tt
  All-inputs (e ∷ es) h = (ground (arith, h.0), All-inputs es h.1)

  -- Where no two providers have a name in common, each input of a plan has the pools and the
  -- namespace's share that the ledger built over the registry's budgets charges.
  pub inputs-PricedAlike :
      DistinctNames r.entries → All (PricedAlike (budgets r)) (inputs r namespace usage ask_live)
  unfolding inputs
  inputs-PricedAlike d = All-inputs r.entries (totals_from-All r.entries [] d)
