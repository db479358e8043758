-- ===== src/Config/Tests.antt =====
-- The theorem on configurations at a file of one provider with one pool, of which a namespace has a
-- share.
use vagabond.Quota.Meter.{Meter, Period}
use vagabond.Base.{[], ◌∷◌, ℕ, ◌≡◌, All, none, refl, some}
use vagabond.Config.Budgeted.{Compiles, Shares, validate_file-Compiles}
use vagabond.Config.{
  validate_file, validate_providers, validate_provider, validate_credentials, validate_pools,
  validate_pool, validate_namespaces, validate_quotas, sources, tier_number, File, PoolBlock,
}

abbrev monthly_runs : ℕ → PoolBlock
monthly_runs limit = record {
  name = "runs";
  meter = Meter.executions;
  limit = limit;
  period = Period.monthly;
}

abbrev file : File
file = record {
  store = none;
  tiers = some "weighted";
  providers =
      record {
        name = "cloud";
        type = "cloudrun";
        enabled = none;
        tier = some 1;
        credentials = some (record { file = some "key.json"; env = none; exec = [] });
        pools = monthly_runs 100 ∷ [];
      }
      ∷ [];
  namespaces =
      record {
        name = "team";
        quotas = record { provider = "cloud"; pools = monthly_runs 10 ∷ [] } ∷ [];
      }
      ∷ [];
}

passes : validate_file file ≡ []
unfolding validate_file validate_providers validate_provider validate_credentials validate_pools
    validate_pool validate_namespaces validate_quotas sources tier_number
passes = refl

validate_file-Compiles_example :
    All (λ p. Compiles p.pools) file.providers
    × All (λ n. All (Shares ("cloud" ∷ [])) n.quotas) file.namespaces
validate_file-Compiles_example = validate_file-Compiles file passes
