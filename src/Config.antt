-- ===== src/Config.antt =====
-- internal/config/config.go and credentials.go: what is wrong with a configuration file that was
-- decoded, and what is read from it. A diagnostic is kept as what is wrong and where, without its
-- text; the provider's own block is HCL that its plugin decodes.
use vagabond.Base.Int64.{slt, sle}
use vagabond.Job.{default_tier_mode, tiers_strict, tiers_weighted}
use vagabond.Base.{
  ℕ, [], Bool, Option, String, List, ◌∷◌, str_eq, none, ◌++◌, if◌then◌else◌, contains, true, some,
  not, false, is_empty, ltb, map, length,
}
use vagabond.Quota.Limits.{PoolSpec, Pool}
use vagabond.Quota.Meter.{Meter, Period, meter_valid, period_valid}
pub mod Budgeted
mod Tests

-- `PoolBlock`, its meter and period read as those of a budget.
pub record PoolBlock : Type 0 where
  pub name : String
  pub meter : Meter
  pub limit : ℕ
  pub period : Period

-- `CredentialsBlock`
pub record CredentialsBlock : Type 0 where
  pub file : Option String
  pub env : Option String
  pub exec : List String

-- `Provider`, without the blocks that are kept as HCL.
pub record ProviderBlock : Type 0 where
  pub name : String
  pub type : String
  pub enabled : Option Bool
  pub tier : Option ℕ
  pub credentials : Option CredentialsBlock
  pub pools : List PoolBlock

-- `NamespaceQuota` and `Namespace`
pub record NamespaceQuota : Type 0 where
  pub provider : String
  pub pools : List PoolBlock

pub record Namespace : Type 0 where
  pub name : String
  pub quotas : List NamespaceQuota

-- `File`: a store's DSN, the tier mode, the providers and the namespaces.
pub record File : Type 0 where
  pub store : Option String
  pub tiers : Option String
  pub providers : List ProviderBlock
  pub namespaces : List Namespace

-- What a diagnostic says.
pub data Flaw : Type 0 where
  empty_store unknown_tiers : Flaw
  duplicate_provider missing_type invalid_tier missing_source ambiguous_source : String → Flaw
  duplicate_namespace : String → Flaw
  unknown_share duplicate_share : String → String → Flaw
  pool_twice pool_meter pool_period pool_limit : String → Flaw

abbrev pub flaw_if : Bool → Flaw → List Flaw
flaw_if wrong f = if wrong then f ∷ [] else []

-- `SchedulingBlock.TierMode`
abbrev pub tier_mode_of : Option String → String
tier_mode_of tiers = elim tiers [ none ↦ default_tier_mode | some mode ↦ mode ]

-- `IsEnabled` and `TierOf`
unfoldable pub is_enabled : ProviderBlock → Bool
is_enabled p = elim p.enabled [ none ↦ true | some b ↦ b ]

unfoldable pub tier_number : ProviderBlock → ℕ
tier_number p = elim p.tier [ none ↦ 0 | some n ↦ n ]

-- `poolSpecs`
unfoldable pub pool_specs : List PoolBlock → List PoolSpec
pool_specs [] = []
pool_specs (b ∷ bs) =
    record { name = b.name; meter = b.meter; limit = b.limit; period = b.period } ∷ pool_specs bs

-- The switch of `validatePools`.
unfoldable pub validate_pool : List String → PoolBlock → List Flaw
validate_pool seen b =
    if contains str_eq seen b.name
    then Flaw.pool_twice b.name ∷ []
    else if not (meter_valid b.meter)
    then Flaw.pool_meter b.name ∷ []
    else if not (period_valid b.period)
    then Flaw.pool_period b.name ∷ []
    else if sle b.limit 0
    then Flaw.pool_limit b.name ∷ []
    else []

-- The loop of `validatePools`, with the names seen.
unfoldable pub validate_pools : List String → List PoolBlock → List Flaw
validate_pools seen [] = []
validate_pools seen (b ∷ bs) = validate_pool seen b ++ validate_pools (b.name ∷ seen) bs

-- `sources`
unfoldable pub sources : CredentialsBlock → List String
sources c =
    (elim c.file [ none ↦ [] | some _ ↦ "file" ∷ [] ])
    ++ ((elim c.env [ none ↦ [] | some _ ↦ "env" ∷ [] ])
        ++ (if is_empty c.exec then [] else "exec" ∷ []))

-- `CredentialsBlock.validate`
unfoldable pub validate_credentials : String → Option CredentialsBlock → List Flaw
validate_credentials provider credentials = elim credentials [
  | none ↦ []
  | some c ↦
      if is_empty (sources c)
      then Flaw.missing_source provider ∷ []
      else if ltb 1 (length (sources c))
      then Flaw.ambiguous_source provider ∷ []
      else []
]

-- `Provider.validate`
unfoldable pub validate_provider : ProviderBlock → List Flaw
validate_provider p =
    flaw_if (str_eq p.type "") (Flaw.missing_type p.name)
    ++ (flaw_if (slt (tier_number p) 0) (Flaw.invalid_tier p.name)
        ++ (validate_credentials p.name p.credentials ++ validate_pools [] p.pools))

-- The loop of `validate` over the providers, with the names seen.
unfoldable pub validate_providers : List String → List ProviderBlock → List Flaw
validate_providers seen [] = []
validate_providers seen (p ∷ ps) =
    flaw_if (contains str_eq seen p.name) (Flaw.duplicate_provider p.name)
    ++ (validate_provider p ++ validate_providers (p.name ∷ seen) ps)

-- The inner loop of `validateNamespaces`, with the shares seen.
unfoldable pub validate_quotas :
    List String → String → List String → List NamespaceQuota → List Flaw
validate_quotas providers namespace shares [] = []
validate_quotas providers namespace shares (q ∷ qs) =
    (if not (contains str_eq providers q.provider)
      then Flaw.unknown_share namespace q.provider ∷ []
      else if contains str_eq shares q.provider
      then Flaw.duplicate_share namespace q.provider ∷ []
      else [])
    ++ (validate_pools [] q.pools ++ validate_quotas providers namespace (q.provider ∷ shares) qs)

-- The outer loop of `validateNamespaces`.
unfoldable pub validate_namespaces : List String → List String → List Namespace → List Flaw
validate_namespaces providers seen [] = []
validate_namespaces providers seen (n ∷ ns) =
    flaw_if (contains str_eq seen n.name) (Flaw.duplicate_namespace n.name)
    ++ (validate_quotas providers n.name [] n.quotas
        ++ validate_namespaces providers (n.name ∷ seen) ns)

-- `File.validate`
unfoldable pub validate_file : File → List Flaw
validate_file f =
    flaw_if (elim f.store [ none ↦ false | some dsn ↦ str_eq dsn "" ]) Flaw.empty_store
    ++ (flaw_if (not (contains str_eq (tiers_strict ∷ tiers_weighted ∷ []) (tier_mode_of f.tiers)))
          Flaw.unknown_tiers
        ++ (validate_providers [] f.providers
            ++ validate_namespaces (map (λ p. p.name) f.providers) [] f.namespaces))
