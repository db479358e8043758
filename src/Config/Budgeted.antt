-- ===== src/Config/Budgeted.antt =====
-- internal/config/config.go with internal/quota/limits.go: pools in which nothing is wrong, when they
-- are compiled.
use vagabond.Job.{tiers_strict, tiers_weighted}
use vagabond.Quota.Meter.{scale}
use vagabond.Base.Int64.{slt, max_int64, mul64}
use vagabond.Config.{
  validate_pool, validate_pools, pool_specs, PoolBlock, validate_namespaces, NamespaceQuota,
  validate_providers, validate_file, validate_quotas, File, validate_provider, Namespace,
  ProviderBlock, flaw_if, Flaw, tier_number, validate_credentials, tier_mode_of,
}
use vagabond.Base.{
  ◌∷◌, [], Result, List, ◌≡◌, ◌++◌, ℕ, arith, ◌⊎◌, String, inl, Bool-cases, refl, str_eq, inr, ◌/◌,
  empty_both, contains, All, map, true, if◌then◌else◌, none, not, false, some,
}
use vagabond.Quota.Limits.{
  Pool, Limits, LimitsError, base_limit, new_limits, compile, compile_all, PoolSpec,
}

-- What compiling can still find wrong.
abbrev pub Leftover : {A : Type 0} → Result LimitsError A → Type 0
Leftover r =
    (r ≡ Result.err LimitsError.no_name)
    ⊎ ((name : String) × (r ≡ Result.err (LimitsError.too_large name)))

base_limit-Leftover :
    (s : PoolSpec)
    → ((n : ℕ) × (base_limit s ≡ Result.ok n))
      ⊎ (base_limit s ≡ Result.err (LimitsError.too_large s.name))
unfolding base_limit
base_limit-Leftover s = elim (Bool-cases (slt (max_int64 / scale s.meter) s.limit)) [
  | inl large ↦ inr (ground (arith, large))
  | inr fits ↦ inl (mul64 s.limit (scale s.meter), ground (arith, fits))
]

compile-Leftover :
    (seen : List String) (b : PoolBlock)
    → validate_pool seen b ≡ []
    → let s : PoolSpec = record {
      name = b.name;
      meter = b.meter;
      limit = b.limit;
      period = b.period;
    } in
      ((l : Pool) × (compile s seen ≡ Result.ok l) × (l.name ≡ b.name)) ⊎ Leftover (compile s seen)
unfolding validate_pool compile
compile-Leftover seen b h =
    let s : PoolSpec = record {
      name = b.name;
      meter = b.meter;
      limit = b.limit;
      period = b.period;
    } in
    elim (Bool-cases (str_eq b.name "")) [
      | inl empty ↦ inr (inl (ground (arith, empty)))
      | inr named ↦ elim (base_limit-Leftover s) [
        | inr large ↦ inr (inr (b.name, ground (arith, h, named, large)))
        | inl (n, fits) ↦ inl (
          record { name = b.name; meter = b.meter; period = b.period; limit = n },
          ground (arith, h, named, fits),
          refl,
        )
      ]
    ]

compile_all-Leftover :
    (seen : List String) (bs : List PoolBlock) (pools : Limits)
    → validate_pools seen bs ≡ []
    → ((l : Limits) × (compile_all (pool_specs bs) seen pools ≡ Result.ok l))
      ⊎ Leftover (compile_all (pool_specs bs) seen pools)
unfolding validate_pools compile_all pool_specs
compile_all-Leftover seen [] pools h = inl (pools, refl)
compile_all-Leftover seen (b ∷ bs) pools h =
    let (this, others) = empty_both (validate_pool seen b) (validate_pools (b.name ∷ seen) bs) h in
    elim (compile-Leftover seen b this) [
      | inr (inl nameless) ↦ inr (inl (ground (arith, nameless)))
      | inr (inr (name, large)) ↦ inr (inr (name, ground (arith, large)))
      | inl (l, compiled, named) ↦
          elim (compile_all-Leftover (b.name ∷ seen) bs (pools ++ (l ∷ [])) others) [
            | inl (all, done) ↦ inl (all, ground (arith, compiled, named, done))
            | inr (inl nameless) ↦ inr (inl (ground (arith, compiled, named, nameless)))
            | inr (inr (name, large)) ↦ inr (inr (name, ground (arith, compiled, named, large)))
          ]
    ]

-- Pools that compile, unless one has no name or a limit that is too large in base units.
abbrev pub Compiles : List PoolBlock → Type 0
Compiles bs =
    ((l : Limits) × (new_limits (pool_specs bs) ≡ Result.ok l))
    ⊎ Leftover (new_limits (pool_specs bs))

validate_pools-Compiles : (bs : List PoolBlock) → validate_pools [] bs ≡ [] → Compiles bs
unfolding new_limits pool_specs
validate_pools-Compiles [] h = inl ([], refl)
validate_pools-Compiles (b ∷ bs) h = compile_all-Leftover [] (b ∷ bs) [] h

validate_providers-Compiles :
    (seen : List String) (ps : List ProviderBlock)
    → validate_providers seen ps ≡ []
    → All (λ p. Compiles p.pools) ps
unfolding validate_providers validate_provider
validate_providers-Compiles seen [] h = tt
validate_providers-Compiles seen (p ∷ ps) h =
    let (fresh, h1) =
      empty_both (flaw_if (contains str_eq seen p.name) (Flaw.duplicate_provider p.name)) _ h in
    let (own, others) = empty_both (validate_provider p) _ h1 in
    let (type, h2) = empty_both (flaw_if (str_eq p.type "") (Flaw.missing_type p.name)) _ own in
    let (tier, h3) = empty_both (flaw_if (slt (tier_number p) 0) (Flaw.invalid_tier p.name)) _ h2 in
    let (credentials, pools) = empty_both (validate_credentials p.name p.credentials) _ h3 in
    (validate_pools-Compiles p.pools pools, validate_providers-Compiles (p.name ∷ seen) ps others)

-- A share of a provider that is configured.
abbrev pub Shares : List String → NamespaceQuota → Type 0
Shares providers q = (contains str_eq providers q.provider ≡ true) × Compiles q.pools

validate_quotas-Shares :
    (providers : List String) (namespace : String) (shares : List String) (qs : List NamespaceQuota)
    → validate_quotas providers namespace shares qs ≡ []
    → All (Shares providers) qs
unfolding validate_quotas
validate_quotas-Shares providers namespace shares [] h = tt
validate_quotas-Shares providers namespace shares (q ∷ qs) h =
    let (known, h1) =
      empty_both
        (if not (contains str_eq providers q.provider)
          then Flaw.unknown_share namespace q.provider ∷ []
          else if contains str_eq shares q.provider
          then Flaw.duplicate_share namespace q.provider ∷ []
          else [])
        _ h in
    let (pools, others) = empty_both (validate_pools [] q.pools) _ h1 in
    (
      (ground (arith, known), validate_pools-Compiles q.pools pools),
      validate_quotas-Shares providers namespace (q.provider ∷ shares) qs others,
    )

validate_namespaces-Shares :
    (providers seen : List String) (ns : List Namespace)
    → validate_namespaces providers seen ns ≡ []
    → All (λ n. All (Shares providers) n.quotas) ns
unfolding validate_namespaces
validate_namespaces-Shares providers seen [] h = tt
validate_namespaces-Shares providers seen (n ∷ ns) h =
    let (fresh, h1) =
      empty_both (flaw_if (contains str_eq seen n.name) (Flaw.duplicate_namespace n.name)) _ h in
    let (quotas, others) = empty_both (validate_quotas providers n.name [] n.quotas) _ h1 in
    (
      validate_quotas-Shares providers n.name [] n.quotas quotas,
      validate_namespaces-Shares providers (n.name ∷ seen) ns others,
    )

-- In a configuration in which nothing is wrong every namespace's share is of a configured provider,
-- and the pools of every provider and of every share compile, unless one has no name or a limit that
-- is too large in base units: these two are left for `NewLimits` to find.
pub validate_file-Compiles :
    (f : File)
    → validate_file f ≡ []
    → All (λ p. Compiles p.pools) f.providers
      × All (λ n. All (Shares (map (λ p. p.name) f.providers)) n.quotas) f.namespaces
unfolding validate_file
validate_file-Compiles f h =
    let (store, h1) =
      empty_both
        (flaw_if (elim f.store [ none ↦ false | some dsn ↦ str_eq dsn "" ]) Flaw.empty_store) _ h in
    let (tiers, h2) =
      empty_both
        (flaw_if (not (contains str_eq (tiers_strict ∷ tiers_weighted ∷ []) (tier_mode_of f.tiers)))
          Flaw.unknown_tiers)
        _ h1 in
    let (providers, namespaces) = empty_both (validate_providers [] f.providers) _ h2 in
    (
      validate_providers-Compiles [] f.providers providers,
      validate_namespaces-Shares (map (λ p. p.name) f.providers) [] f.namespaces namespaces,
    )
