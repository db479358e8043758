-- ===== src/Registry.antt =====
-- internal/registry/registry.go: the providers that a deployment can dispatch to, what is last known
-- of each, and what admission and the ledger read of it. A plugin is what it answers: whether its
-- capabilities are read live, and whether it takes a new credential. The locks make each operation
-- one step.
use vagabond.Base.Int64.{slt}
use vagabond.Base.Assoc.{Map, lookup, insert}
use vagabond.Ledger.Account.{Budgets}
use vagabond.Base.{
  [], ◌∷◌, Option, Bool, String, List, none, map, if◌then◌else◌, not, str_eq, some, ℕ, false, ◌&&◌,
  string_key, ◌||◌, true, Time, ◌*◌, second, time_sub,
}
use vagabond.Plugin.Capabilities.{Capabilities}
use vagabond.Quota.Limits.{Limits, PoolUsage}
use vagabond.Scheduler.Admission.{Input}
pub mod Priced
pub mod Fresh
mod Renewing
mod Tests

pub record Entry : Type 0 where
  pub name : String
  pub live : Bool
  pub tags : Map String String
  pub limits : Limits
  pub tier : ℕ
  pub enabled : Bool
  pub healthy : Bool
  pub capabilities : Capabilities
  pub has_credentials : Bool
  pub takes_credentials : Bool
  pub recredentialed : Time

pub record Registry : Type 0 where
  pub entries : List Entry
  pub namespaces : Map String (Map String Limits)

-- What the loops of `Refresh` leave alone.
abbrev pub skipped : Entry → Bool
skipped e = not e.enabled || e.live

-- What `Refresh` makes of one answer; none is an error.
unfoldable pub refresh_entry : Option Capabilities → Entry → Entry
refresh_entry answer e = if skipped e then e else elim answer [
  | none ↦ record e { healthy = false }
  | some caps ↦ record e { capabilities = caps; healthy = true }
]

-- The providers that are named in the error of `Refresh`.
unfoldable pub failures : (Entry → Option Capabilities) → List Entry → List String
failures ask [] = []
failures ask (e ∷ es) =
    let rest = failures ask es in
    if skipped e then rest else elim (ask e) [ none ↦ e.name ∷ rest | some _ ↦ rest ]

unfoldable pub refresh : (Entry → Option Capabilities) → Registry → Registry × List String
refresh ask r =
    (record r { entries = map (λ e. refresh_entry (ask e) e) r.entries }, failures ask r.entries)

-- What a plan reads of a provider's capabilities, and whether it is healthy; live ones are asked
-- now. An error comes with no capabilities.
unfoldable pub current : (Entry → Capabilities × Bool) → Entry → Capabilities × Bool
current ask_live e = if e.live && e.enabled then ask_live e else (e.capabilities, e.healthy)

-- The share of a namespace that the registry holds; a namespace that is not declared has none.
unfoldable pub registry_share : Registry → String → String → Limits
registry_share r namespace provider = elim (lookup string_key namespace r.namespaces) [
  | none ↦ []
  | some shares ↦ elim (lookup string_key provider shares) [ none ↦ [] | some l ↦ l ]
]

-- The loop of `Inputs`, where the usage is a function; the one that reads nothing is `nil`.
unfoldable pub input_of :
    Registry
    → String
    → (String → String → PoolUsage × PoolUsage)
    → (Entry → Capabilities × Bool)
    → Entry
    → Input
input_of r namespace usage ask_live e = record {
  provider = e.name;
  capabilities = (current ask_live e).0;
  limits = e.limits;
  usage = (usage namespace e.name).0;
  namespace = namespace;
  share = registry_share r namespace e.name;
  share_usage = (usage namespace e.name).1;
  tags = e.tags;
  labels = [];
  tier = e.tier;
  enabled = e.enabled;
  healthy = (current ask_live e).1;
}

unfoldable pub inputs :
    Registry
    → String
    → (String → String → PoolUsage × PoolUsage)
    → (Entry → Capabilities × Bool)
    → List Input
inputs r namespace usage ask_live = map (input_of r namespace usage ask_live) r.entries

unfoldable pub has_namespace : Registry → String → Bool
has_namespace r namespace =
    str_eq namespace "default"
    || (elim (lookup string_key namespace r.namespaces) [ none ↦ false | some _ ↦ true ])

-- The loop of `Budgets`.
unfoldable pub totals_from : List Entry → Map String Limits → Map String Limits
totals_from [] totals = totals
totals_from (e ∷ es) totals = totals_from es (insert string_key e.name e.limits totals)

unfoldable pub budgets : Registry → Budgets
budgets r = record { totals = totals_from r.entries []; namespaces = r.namespaces }

unfoldable pub provider_named : List Entry → String → Option Entry
provider_named [] name = none
provider_named (e ∷ es) name = if str_eq e.name name then some e else provider_named es name

abbrev pub names : Registry → List String
names r = map (λ e. e.name) r.entries

-- What `Recredential` reports: false, true, an error of the resolving, one of the handing, true.
pub data Renewal : Type 0 where
  impossible recent unresolved refused renewed : Renewal

-- `recredentialEvery`
abbrev pub recredential_every : ℕ
recredential_every = 60 * second

-- The clock is read before the credential is resolved, and once more when the provider has it.
module _ {Credential : Type 0} (resolve : Entry → Option Credential)
    (hand : Entry → Credential → Bool) (now later : Time) where
  unfoldable pub recredential_entry : Entry → Entry × Renewal
  recredential_entry e =
      if not e.has_credentials || not e.takes_credentials
      then (e, Renewal.impossible)
      else if slt (time_sub now e.recredentialed) recredential_every
      then (e, Renewal.recent)
      else elim (resolve e) [
        | none ↦ (e, Renewal.unresolved)
        | some credential ↦
            if hand e credential
            then (record e { recredentialed = later }, Renewal.renewed)
            else (e, Renewal.refused)
      ]

  -- The last entry of the name is taken; none is found where there is none of it.
  unfoldable pub recredential_last : String → List Entry → Option (List Entry × Renewal)
  recredential_last name [] = none
  recredential_last name (e ∷ es) = elim (recredential_last name es) [
    | some (rest, said) ↦ some (e ∷ rest, said)
    | none ↦
        if str_eq e.name name
        then some ((recredential_entry e).0 ∷ es, (recredential_entry e).1)
        else none
  ]

  unfoldable pub recredential : String → Registry → Registry × Renewal
  recredential name r = elim (recredential_last name r.entries) [
    | none ↦ (r, Renewal.impossible)
    | some (es, said) ↦ (record r { entries = es }, said)
  ]
