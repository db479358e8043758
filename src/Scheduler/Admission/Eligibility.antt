-- ===== src/Scheduler/Admission/Eligibility.antt =====
-- internal/scheduler/checks_policy.go, checks_condition.go and checks_mismatch.go: what it takes to
-- be admitted, said without the checkers.
use vagabond.Scheduler.Admission.Verdicts.{checkers_pass_iff}
use vagabond.Scheduler.Matching.Operators.{unmatched_constraint-none}
use vagabond.Quota.Meter.{Execution}
use vagabond.Quota.Limits.{Limits, PoolUsage}
use vagabond.Quota.Limits.Fits.{HasRoom, InRange, exceeded-none}
use vagabond.Scheduler.Matching.{unknown_attribute, match_constraint}
use vagabond.Base.Int64.{sle}
use vagabond.Scheduler.Admission.Checks.{
  attribute_check, enabled_check, driver_check, resources_check, cost_check, allowlist_check,
  healthy_check, network_check, image_check, declared, input_attributes, constraint_check,
  arch_check, duration_check, exhausted, quota_check, checkers,
}
use vagabond.Scheduler.Admission.{Input, admit_one}
use vagabond.Scheduler.Request.{
  Request, allowed_providers, will_pay, max_cost_of, needs_internet, required_architecture,
  needs_private_network, constraints_of, affinities_of,
}
use vagabond.Plugin.Capabilities.{
  Snapshot, supports_arch, supports_driver, within_resources, snapshot, within_duration,
}
use vagabond.Job.Std.{Std, duration_std}
use vagabond.Base.{
  [], List, Option, String, some, contains, str_eq, All, ◌≡◌, none, true, ◌↔◌, ◌⊎◌, arith, eq_iff,
  ℕ, Option-cases, inl, inr, is_empty_iff,
}

-- A list's entry, or any if the list is empty.
abbrev pub Allowed : List String → String → Type 0
Allowed allowed provider = (allowed ≡ []) ⊎ (contains str_eq allowed provider ≡ true)

-- The architecture that is required, if one is.
abbrev pub Offers : Snapshot → Option String → Type 0
Offers c required = (arch : String) → required ≡ some arch → supports_arch c arch ≡ true

-- A timeout that is not there or does not parse asks for nothing.
abbrev pub LastsIn : Std → Snapshot → Option String → Type 0
LastsIn std c timeout =
    (d : String) (t : ℕ)
    → timeout ≡ some d
    → duration_std std d ≡ some t
    → within_duration c t ≡ true

abbrev pub Affordable : Request → Input → Type 0
Affordable req x =
    (will_pay req ≡ true)
    ⊎ (All (HasRoom x.usage req.execution) x.limits
        × All (HasRoom x.share_usage req.execution) x.share)

-- What the task asks of the provider.
pub record Eligible (std : Std) (req : Request) (x : Input) : Type 0 where
  pub allowed : Allowed (allowed_providers req) x.provider
  pub priced : sle (snapshot x.capabilities).estimated_cost (max_cost_of req) ≡ true
  pub enabled : x.enabled ≡ true
  pub healthy : x.healthy ≡ true
  pub driver : supports_driver (snapshot x.capabilities) req.task.driver ≡ true
  pub arch : Offers (snapshot x.capabilities) (required_architecture req)
  pub image : (req.image ≡ "") ⊎ ((snapshot x.capabilities).arbitrary_images ≡ true)
  pub internet : needs_internet req ≡ true → (snapshot x.capabilities).internet_egress ≡ true
  pub private : needs_private_network req ≡ true → (snapshot x.capabilities).private_network ≡ true
  pub resources : within_resources (snapshot x.capabilities) (declared req) ≡ true
  pub duration : LastsIn std (snapshot x.capabilities) req.task.timeout
  pub attributes : unknown_attribute (constraints_of req) (affinities_of req) ≡ ""
  pub constraints :
      All
        (λ c. match_constraint std (input_attributes std x req.execution) c ≡ true)
        (constraints_of req)
  pub affordable : Affordable req x

module _ (std : Std) (req : Request) (x : Input) where
  allowlist_lem : (allowlist_check req x ≡ none) ↔ Allowed (allowed_providers req) x.provider
  unfolding allowlist_check
  allowlist_lem = ground (arith, is_empty_iff (allowed_providers req))

  cost_lem :
      (cost_check req x ≡ none)
      ↔ (sle (snapshot x.capabilities).estimated_cost (max_cost_of req) ≡ true)
  unfolding cost_check
  cost_lem = ground arith

  enabled_lem : (enabled_check req x ≡ none) ↔ (x.enabled ≡ true)
  unfolding enabled_check
  enabled_lem = ground arith

  healthy_lem : (healthy_check req x ≡ none) ↔ (x.healthy ≡ true)
  unfolding healthy_check
  healthy_lem = ground arith

  driver_lem :
      (driver_check req x ≡ none)
      ↔ (supports_driver (snapshot x.capabilities) req.task.driver ≡ true)
  unfolding driver_check supports_driver
  driver_lem = ground arith

  image_lem :
      (image_check req x ≡ none)
      ↔ ((req.image ≡ "") ⊎ ((snapshot x.capabilities).arbitrary_images ≡ true))
  unfolding image_check
  image_lem = ground (arith, eq_iff req.image "")

  network_lem : (network_check req x ≡ none) ↔ (
      (needs_internet req ≡ true → (snapshot x.capabilities).internet_egress ≡ true)
      × (needs_private_network req ≡ true → (snapshot x.capabilities).private_network ≡ true))
  unfolding network_check
  network_lem = ground arith

  -- The checker's two tests are those of `WithinResources`.
  resources_lem :
      (resources_check req x ≡ none)
      ↔ (within_resources (snapshot x.capabilities) (declared req) ≡ true)
  unfolding resources_check within_resources
  resources_lem = ground arith

  pub attribute_lem :
      (attribute_check req x ≡ none)
      ↔ (unknown_attribute (constraints_of req) (affinities_of req) ≡ "")
  unfolding attribute_check
  attribute_lem =
      ground (arith, eq_iff (unknown_attribute (constraints_of req) (affinities_of req)) "")

  arch_lem :
      (arch_check req x ≡ none) ↔ Offers (snapshot x.capabilities) (required_architecture req)
  unfolding arch_check supports_arch
  arch_lem = elim (Option-cases (required_architecture req)) [
    | inl absent ↦ ground arith
    | inr (arch, needed) ↦ (λ h b e. ground arith, λ h. let offered = h arch needed in ground arith)
  ]

  duration_lem :
      (duration_check std req x ≡ none) ↔ LastsIn std (snapshot x.capabilities) req.task.timeout
  unfolding duration_check within_duration
  duration_lem = (
    λ h d t e f. ground arith,
    λ h. elim (Option-cases req.task.timeout) [
      | inl absent ↦ ground arith
      | inr (d, given) ↦ elim (Option-cases (duration_std std d)) [
        | inl unparsed ↦ ground arith
        | inr (t, parsed) ↦ let lasts = h d t given parsed in ground arith
      ]
    ],
  )

  constraint_lem :
      (constraint_check std req x ≡ none)
      ↔ All
          (λ c. match_constraint std (input_attributes std x req.execution) c ≡ true)
          (constraints_of req)
  unfolding constraint_check
  constraint_lem = ground (
    arith,
    is_empty_iff (constraints_of req),
    unmatched_constraint-none std (input_attributes std x req.execution) (constraints_of req),
  )

  exhausted_lem :
      (limits : Limits) (usage : PoolUsage) (e : Execution)
      → All (InRange usage e) limits
      → (exhausted limits usage e ≡ none) ↔ All (HasRoom usage e) limits
  exhausted_lem limits usage e r = ground (arith, exceeded-none limits usage e r)

  quota_lem :
      All (InRange x.usage req.execution) x.limits
      → All (InRange x.share_usage req.execution) x.share
      → (quota_check req x ≡ none) ↔ Affordable req x
  unfolding quota_check
  quota_lem r q = ground (
    arith,
    exhausted_lem x.limits x.usage req.execution r,
    exhausted_lem x.share x.share_usage req.execution q,
  )

-- A provider that is no pool is admitted exactly when it is eligible. (No counter leaves int64.)
pub admit_one-Eligible :
    (std : Std) (req : Request) (x : Input)
    → All (InRange x.usage req.execution) x.limits
    → All (InRange x.share_usage req.execution) x.share
    → (admit_one req x (checkers std) ≡ none) ↔ Eligible std req x
admit_one-Eligible std req x r q =
    let passes = checkers_pass_iff std req x in
    (
      λ h.
          let (a, b, c, d, e, f, g, n, s, t, u, v, w) = passes.0 h in
          record {
            allowed = (allowlist_lem std req x).0 a;
            priced = (cost_lem std req x).0 b;
            enabled = (enabled_lem std req x).0 c;
            healthy = (healthy_lem std req x).0 d;
            driver = (driver_lem std req x).0 e;
            arch = (arch_lem std req x).0 f;
            image = (image_lem std req x).0 g;
            internet = ((network_lem std req x).0 n).0;
            private = ((network_lem std req x).0 n).1;
            resources = (resources_lem std req x).0 s;
            duration = (duration_lem std req x).0 t;
            attributes = (attribute_lem std req x).0 u;
            constraints = (constraint_lem std req x).0 v;
            affordable = (quota_lem std req x r q).0 w;
          },
      λ el. passes.1 (
        (allowlist_lem std req x).1 el.allowed,
        (cost_lem std req x).1 el.priced,
        (enabled_lem std req x).1 el.enabled,
        (healthy_lem std req x).1 el.healthy,
        (driver_lem std req x).1 el.driver,
        (arch_lem std req x).1 el.arch,
        (image_lem std req x).1 el.image,
        (network_lem std req x).1 (el.internet, el.private),
        (resources_lem std req x).1 el.resources,
        (duration_lem std req x).1 el.duration,
        (attribute_lem std req x).1 el.attributes,
        (constraint_lem std req x).1 el.constraints,
        (quota_lem std req x r q).1 el.affordable,
      ),
    )
