-- ===== src/Ledger/Account.antt =====
-- internal/ledger/ledger.go and internal/quota/budgets.go: executions priced against both layers of
-- pools and charged through a store. The store is an interface; memory.go's is one.
use vagabond.Base.Int64.{max_int64}
use vagabond.Quota.Meter.{Execution, Meter, period_key}
use vagabond.Quota.Limits.{PoolUsage, Limits, Pool, deltas, exceeded, usage_of}
use vagabond.Base.Assoc.{Map, lookup, insert}
use vagabond.Ledger.Memory.{Usage, PoolRef, Key, Reservation, pool_ref, Charge, read}
use vagabond.Base.{
  String, Time, [], ◌∷◌, ℕ, Bool, some, Option, none, List, string_key, if◌then◌else◌, str_eq, ◌++◌,
}
pub mod Agreement
pub mod Paying
pub mod Store
pub mod Snapshot

-- `Budgets`: each provider's pools, and each namespace's share of a provider.
pub record Budgets : Type 0 where
  pub totals : Map String Limits
  pub namespaces : Map String (Map String Limits)

-- A provider with no entry has no pools.
unfoldable pub total_of : Budgets → String → Limits
total_of b provider = elim (lookup string_key provider b.totals) [ none ↦ [] | some l ↦ l ]

unfoldable pub share_of : Budgets → String → String → Limits
share_of b namespace provider = elim (lookup string_key namespace b.namespaces) [
  | none ↦ []
  | some shares ↦ elim (lookup string_key provider shares) [ none ↦ [] | some l ↦ l ]
]

-- `Total`: the namespace that a provider's own pools are counted under.
abbrev pub total_namespace : String
total_namespace = ""

-- The loop of `charges`; a job that pays has no ceiling.
unfoldable pub charges_of : String → Limits → PoolUsage → Time → Bool → List Charge
charges_of namespace [] amounts now pays = []
charges_of namespace (p ∷ ps) amounts now pays =
    record {
      namespace = namespace;
      pool = p.name;
      period = period_key p.period now;
      amount = usage_of amounts p.name;
      limit = if pays then max_int64 else p.limit;
    }
    ∷ charges_of namespace ps amounts now pays

unfoldable pub charges : String → Limits → Execution → Time → Bool → List Charge
charges namespace pools e now pays = charges_of namespace pools (deltas pools e) now pays

abbrev pub pool_key : String → String → Time → Pool → Key
pool_key namespace provider now p = record {
  namespace = namespace;
  provider = provider;
  pool = p.name;
  period = period_key p.period now;
}

-- The loop of `usageOf`, over the map built so far.
unfoldable pub usage_of_from : PoolUsage → Usage → String → String → Limits → Time → PoolUsage
usage_of_from out usage namespace provider [] now = out
usage_of_from out usage namespace provider (p ∷ ps) now =
    usage_of_from (insert string_key p.name (read usage (pool_key namespace provider now p)) out)
      usage namespace provider ps now

-- `usageOf`: one layer's pools in their current periods.
unfoldable pub layer_usage : Usage → String → String → Limits → Time → PoolUsage
layer_usage usage namespace provider pools now = usage_of_from [] usage namespace provider pools now

pub record Refusal : Type 0 where
  pub namespace : String
  pub provider : String
  pub pool : String
  pub meter : Meter
  pub limit : ℕ
  pub used : ℕ
  pub needed : ℕ

-- How `Reserve` fails: the store's own error, a refusal, or a refusal that the usage has room for.
pub data ReserveError (E : Type 0) : Type 0 where
  store_failed : E → ReserveError E
  refused : Refusal → ReserveError E
  has_room : String → ReserveError E

unfoldable pub layer_refusal : String → String → Limits → Usage → Execution → Time → Option Refusal
layer_refusal namespace provider pools standing e now =
    let usage = layer_usage standing namespace provider pools now in
    elim (exceeded pools usage e) [
      | none ↦ none
      | some p ↦ some (record {
        namespace = namespace;
        provider = provider;
        pool = p.name;
        meter = p.meter;
        limit = p.limit;
        used = usage_of usage p.name;
        needed = usage_of (deltas pools e) p.name;
      })
    ]

-- The loop over the two layers, the provider's own first.
unfoldable pub refusal :
    {E : Type 0} → Budgets → String → String → Usage → Execution → Time → ReserveError E
refusal b namespace provider standing e now =
    elim (layer_refusal total_namespace provider (total_of b provider) standing e now) [
      | some r ↦ ReserveError.refused r
      | none ↦
          elim (layer_refusal namespace provider (share_of b namespace provider) standing e now) [
            | some r ↦ ReserveError.refused r
            | none ↦ ReserveError.has_room provider
          ]
    ]

unfoldable pub reservation : Budgets → Time → ℕ → String → String → Execution → Bool → Reservation
reservation b now id namespace provider e pays = record {
  id = id;
  provider = provider;
  cpu = e.cpu;
  memory = e.memory;
  created = now;
  charges =
      charges total_namespace (total_of b provider) e now pays
      ++ charges namespace (share_of b namespace provider) e now pays;
}

-- The loop of `deltas` over one layer's map.
unfoldable pub ref_deltas : String → PoolUsage → Map PoolRef ℕ → Map PoolRef ℕ
ref_deltas namespace [] out = out
ref_deltas namespace ((pool, amount) ∷ ds) out =
    ref_deltas namespace ds
      (insert pool_ref (record { namespace = namespace; pool = pool }) amount out)

unfoldable pub both_deltas : Budgets → String → String → Execution → Map PoolRef ℕ
both_deltas b namespace provider e =
    let own = ref_deltas total_namespace (deltas (total_of b provider) e) [] in
    if str_eq namespace total_namespace
    then own
    else ref_deltas namespace (deltas (share_of b namespace provider) e) own
