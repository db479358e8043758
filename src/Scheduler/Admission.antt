-- ===== src/Scheduler/Admission.antt =====
-- internal/scheduler/reason.go, admission.go and admit.go: every checker run against every provider,
-- a pool node by node, and the verdicts sorted by provider. A rejection's detail, the text that only
-- a person reads, is left out.
use vagabond.Base.Assoc.{Map}
use vagabond.Quota.Limits.{Limits, PoolUsage}
use vagabond.Scheduler.Request.{Request}
use vagabond.Plugin.Capabilities.{no_members, member, Capabilities, members, Members, snapshot}
use vagabond.Base.{
  ◌∷◌, [], List, ℕ, String, Bool, Option, sort, true, not, false, none, if◌then◌else◌, some, ◌||◌,
  ltb, is_empty, ◌++◌, length, string_le,
}
use mathlib.Core.List.{append-nil, append_assoc}
pub mod Checks
pub mod Verdicts
pub mod Eligibility
pub mod Pools
pub mod Results

-- `Reason`; `other` is a code that admission does not give.
pub data Reason : Type 0 where
  driver_unsupported arch_unsupported resources_exceeded duration_exceeded : Reason
  network_unsupported image_unsupported attribute_unknown constraint_unmet : Reason
  not_allowlisted cost_policy : Reason
  quota_exhausted provider_disabled provider_unhealthy : Reason
  other : String → Reason

-- `Reason.Valid` and `Reason.Transient`
unfoldable pub reason_valid : Reason → Bool
reason_valid (Reason.other _) = false
reason_valid _ = true

unfoldable pub transient : Reason → Bool
transient Reason.quota_exhausted = true
transient Reason.provider_disabled = true
transient Reason.provider_unhealthy = true
transient _ = false

-- `Input`
pub record Input : Type 0 where
  pub provider : String
  pub capabilities : Capabilities
  pub limits : Limits
  pub usage : PoolUsage
  pub namespace : String
  pub share : Limits
  pub share_usage : PoolUsage
  pub tags : Map String String
  pub labels : Map String String
  pub tier : ℕ
  pub enabled : Bool
  pub healthy : Bool

-- `Candidate`
pub record Candidate : Type 0 where
  pub input : Input
  pub estimated_cost : ℕ
  pub nodes : List String

pub record Rejection : Type 0 where
  pub provider : String
  pub reason : Reason
  pub also : List Reason

-- `Result`
pub record Admission : Type 0 where
  pub candidates : List Candidate
  pub rejections : List Rejection

-- `Checker.Check`: none admits.
abbrev pub Check : Type 0
Check = Request → Input → Option Rejection

-- The loop of `admitOne`, with `first` so far.
unfoldable pub admit_one_from : Request → Input → List Check → Option Rejection → Option Rejection
admit_one_from req x [] first = first
admit_one_from req x (check ∷ rules) first = admit_one_from req x rules (elim (check req x) [
  | none ↦ first
  | some r ↦ elim first [
    | none ↦ some (record r { provider = x.provider })
    | some f ↦ some (record f { also = f.also ++ (r.reason ∷ []) })
  ]
])

unfoldable pub admit_one : Request → Input → List Check → Option Rejection
admit_one req x rules = admit_one_from req x rules none

-- A member judged as if it were the whole provider.
abbrev pub as_member : Input → Capabilities → Map String String → Input
as_member x c labels = record x { capabilities = c; labels = labels }

abbrev pub closer : Rejection → Option Rejection → Option Rejection
closer r closest = elim closest [
  | none ↦ some r
  | some c ↦ if ltb (length r.also) (length c.also) then some r else some c
]

-- The loop of `admitProvider`, with `passed` and `closest` so far.
unfoldable pub judge_members :
    Request
    → Input
    → List Check
    → Members
    → List String
    → Option Rejection
    → List String × Option Rejection
judge_members req x rules no_members passed closest = (passed, closest)
judge_members req x rules (member name c labels rest) passed closest =
    elim (admit_one req (as_member x c labels) rules) [
      | none ↦ judge_members req x rules rest (passed ++ (name ∷ [])) closest
      | some r ↦ judge_members req x rules rest passed (closer r closest)
    ]

unfoldable pub admit_provider : Request → Input → List Check → List String × Option Rejection
admit_provider req x rules = elim (members x.capabilities) [
  | no_members ↦ ([], admit_one req x rules)
  | member name c labels rest ↦
      let (passed, closest) = judge_members req x rules (member name c labels rest) [] none in
      if not (is_empty passed) then (passed, none) else ([], closest)
]

-- The loop of `Admit`.
unfoldable pub admit_from : Request → List Check → List Input → Admission → Admission
admit_from req rules [] result = result
admit_from req rules (x ∷ xs) result =
    let (nodes, rejection) = admit_provider req x rules in
    admit_from req rules xs (elim rejection [
      | some r ↦ record result { rejections = result.rejections ++ (r ∷ []) }
      | none ↦ record result {
        candidates =
            result.candidates
            ++ (record {
              input = x;
              estimated_cost = (snapshot x.capabilities).estimated_cost;
              nodes = nodes;
            }
                ∷ []);
      }
    ])

abbrev pub candidate_le : Candidate → Candidate → Bool
candidate_le a b = string_le a.input.provider b.input.provider

abbrev pub rejection_le : Rejection → Rejection → Bool
rejection_le a b = string_le a.provider b.provider

-- `Result.Sort`
unfoldable pub sort_admission : Admission → Admission
sort_admission result = record {
  candidates = sort candidate_le result.candidates;
  rejections = sort rejection_le result.rejections;
}

-- `Admit`, over the rules that `checkers` gives.
unfoldable pub admit : List Check → Request → List Input → Admission
admit rules req inputs =
    sort_admission (admit_from req rules inputs (record { candidates = []; rejections = [] }))

-- `Admitted`
unfoldable pub admitted : Admission → Bool
admitted result = not (is_empty result.candidates)

unfoldable pub any_transient : List Rejection → Bool
any_transient [] = false
any_transient (r ∷ rs) = transient r.reason || any_transient rs

-- `Retryable`
unfoldable pub retryable_later : Admission → Bool
retryable_later result = if admitted result then false else any_transient result.rejections
