-- ===== src/Scheduler/Admission/Checks.antt =====
-- internal/scheduler/checks_policy.go, checks_condition.go and checks_mismatch.go: the admission
-- rules, and the order of admit.go.
use vagabond.Scheduler.Matching.{unknown_attribute, unmatched_constraint}
use vagabond.Plugin.Attributes.{
  Attributes, capability_attributes, attr_free_quota_percent, attr_tier, node_label_prefix,
  meta_prefix,
}
use vagabond.Base.Int64.{sle, smin}
use vagabond.Quota.Meter.{Execution}
use vagabond.Plugin.Capabilities.{Size, snapshot, sized, past}
use vagabond.Base.Assoc.{Map, insert}
use vagabond.Scheduler.Request.{
  Request, required_architecture, allowed_providers, needs_internet, task_cpu, will_pay,
  task_memory, max_cost_of, constraints_of, affinities_of, needs_private_network,
}
use vagabond.Quota.Limits.{Limits, PoolUsage, exceeded, free_percent}
use vagabond.Job.Std.{Std, duration_std}
use vagabond.Base.{
  [], ◌∷◌, String, Option, List, if◌then◌else◌, contains, is_empty, none, ℕ, ◌==◌, str_eq, ◌&&◌,
  some, ◌||◌, string_key, not,
}
use vagabond.Scheduler.Admission.{Reason, Check, Input, Rejection}
use Prim.Native.String.{◌++◌ as concat}

-- `reject`
abbrev pub reject : Reason → Option Rejection
reject reason = some (record { provider = ""; reason = reason; also = [] })

-- `Input.FreePercent`
unfoldable pub input_free_percent : Input → Execution → ℕ
input_free_percent x e =
    smin (free_percent x.limits x.usage e) (free_percent x.share x.share_usage e)

-- The loops of `Input.Attributes` over the tags and the labels.
unfoldable pub publish_under : String → Map String String → Attributes → Attributes
publish_under under [] attrs = attrs
publish_under under ((name, value) ∷ tags) attrs =
    publish_under under tags (insert string_key (concat under name) value attrs)

-- `Input.Attributes`
unfoldable pub input_attributes : Std → Input → Execution → Attributes
input_attributes std x e =
    let attrs = capability_attributes std (snapshot x.capabilities) in
    let free = std.format_int (input_free_percent x e) in
    let priced = insert string_key attr_free_quota_percent free attrs in
    let tiered = insert string_key attr_tier (std.format_int x.tier) priced in
    publish_under node_label_prefix x.labels (publish_under meta_prefix x.tags tiered)

unfoldable pub allowlist_check : Check
allowlist_check req x =
    let allowed = allowed_providers req in
    if is_empty allowed || contains str_eq allowed x.provider
    then none
    else reject Reason.not_allowlisted

unfoldable pub cost_check : Check
cost_check req x =
    if sle (snapshot x.capabilities).estimated_cost (max_cost_of req)
    then none
    else reject Reason.cost_policy

unfoldable pub enabled_check : Check
enabled_check req x = if x.enabled then none else reject Reason.provider_disabled

unfoldable pub healthy_check : Check
healthy_check req x = if x.healthy then none else reject Reason.provider_unhealthy

unfoldable pub driver_check : Check
driver_check req x =
    if contains str_eq (snapshot x.capabilities).drivers req.task.driver
    then none
    else reject Reason.driver_unsupported

unfoldable pub arch_check : Check
arch_check req x = elim (required_architecture req) [
  | none ↦ none
  | some arch ↦
      if contains str_eq (snapshot x.capabilities).architectures arch
      then none
      else reject Reason.arch_unsupported
]

unfoldable pub image_check : Check
image_check req x =
    if str_eq req.image "" || (snapshot x.capabilities).arbitrary_images
    then none
    else reject Reason.image_unsupported

unfoldable pub network_check : Check
network_check req x =
    let c = snapshot x.capabilities in
    if needs_internet req && not c.internet_egress
    then reject Reason.network_unsupported
    else if needs_private_network req && not c.private_network
    then reject Reason.network_unsupported
    else none

abbrev pub declared : Request → Size
declared req = record { cpu = task_cpu req.task; memory = task_memory req.task }

unfoldable pub resources_check : Check
resources_check req x =
    let c = snapshot x.capabilities in
    let r = sized c (declared req) in
    if past c.max_resources.cpu r.cpu
    then reject Reason.resources_exceeded
    else if past c.max_resources.memory r.memory
    then reject Reason.resources_exceeded
    else none

unfoldable pub duration_check : Std → Check
duration_check std req x =
    let most = (snapshot x.capabilities).max_duration in
    if most == 0 then none else elim req.task.timeout [
      | none ↦ none
      | some d ↦ elim (duration_std std d) [
        | none ↦ none
        | some timeout ↦ if sle timeout most then none else reject Reason.duration_exceeded
      ]
    ]

unfoldable pub attribute_check : Check
attribute_check req x =
    if str_eq (unknown_attribute (constraints_of req) (affinities_of req)) ""
    then none
    else reject Reason.attribute_unknown

unfoldable pub constraint_check : Std → Check
constraint_check std req x =
    if is_empty (constraints_of req)
    then none
    else elim (unmatched_constraint std (input_attributes std x req.execution)
        (constraints_of req)) [ none ↦ none | some _ ↦ reject Reason.constraint_unmet ]

-- `exhausted`
abbrev pub exhausted : Limits → PoolUsage → Execution → Option Rejection
exhausted limits usage e = elim (exceeded limits usage e) [
  | none ↦ none
  | some _ ↦ reject Reason.quota_exhausted
]

unfoldable pub quota_check : Check
quota_check req x = if will_pay req then none else elim (exhausted x.limits x.usage req.execution) [
  | some r ↦ some r
  | none ↦ exhausted x.share x.share_usage req.execution
]

-- `checkers`
unfoldable pub checkers : Std → List Check
checkers std =
    allowlist_check
    ∷ cost_check
    ∷ enabled_check
    ∷ healthy_check
    ∷ driver_check
    ∷ arch_check
    ∷ image_check
    ∷ network_check
    ∷ resources_check
    ∷ duration_check std
    ∷ attribute_check
    ∷ constraint_check std
    ∷ quota_check
    ∷ []
