-- ===== src/Dispatch/Leases.antt =====
-- internal/dispatch/lease.go: the lease that a run holds on its dispatch while other processes write
-- the same store. The goroutine of `hold` is the steps that renew; a step is one call of the store
-- or time passing, and a renewal that the store does not answer is no step.
use vagabond.Base.Assoc.{Map}
use vagabond.Stores.Executions.{
  Executions, DispatchRecord, renew_dispatch, StoreError, create_dispatch, finish_dispatch,
  claim_dispatches, Record,
}
use vagabond.Base.{
  String, ℕ, Bool, ◌+◌, Time, ◌*◌, Option, second, if◌then◌else◌, ◌≢◌, some, true, ◌⊎◌, false, List,
  contains, ◌==◌, ◌≡◌, map,
}
pub mod Kept
pub mod Fenced
mod Tests

-- `LeaseTTL` and `LeaseRenew`
abbrev pub lease_ttl : ℕ
lease_ttl = 60 * second

abbrev pub lease_renew : ℕ
lease_renew = 20 * second

-- The store and the clock that the processes share, and `lost` of the lease.
pub record Shared : Type 0 where
  pub store : Executions
  pub now : Time
  pub lost : Bool

-- One tick of the loop in `hold`, with `renew`; after a stale answer the loop has ended.
unfoldable pub renewal : ℕ → String → ℕ → Shared → Shared
renewal id owner ttl s =
    let (store, failure) = renew_dispatch s.store id owner (s.now + ttl) in
    if s.lost then s else record s {
      store = store;
      lost = elim failure [ some StoreError.stale ↦ true | _ ↦ false ];
    }

-- `lease.taken`
abbrev pub taken : Shared → Bool
taken s = s.lost

abbrev pub elapsed : ℕ → Shared → Shared
elapsed n s = record s { now = s.now + n }

abbrev pub written : Shared → Executions × Option StoreError → Shared
written s out = record s { store = out.0 }

-- What another process, or this one about other dispatches, does to the store.
pub data Other (owner : String) (id : ℕ) : Shared → Shared → Type 0 where
  begins :
      (s : Shared) (d : DispatchRecord) → Other owner id s (written s (create_dispatch s.store d))
  renews :
      (s : Shared) (j : ℕ) (name : String) (until : Time)
      → (name ≢ owner) ⊎ (j ≢ id)
      → Other owner id s (written s (renew_dispatch s.store j name until))
  ends :
      (s : Shared) (d : DispatchRecord)
      → (d.owner ≢ owner) ⊎ (d.id ≢ id)
      → Other owner id s (written s (finish_dispatch s.store d))
  claims :
      (s : Shared) (name : String) (ttl : ℕ) (skip : List ℕ)
      → (name ≢ owner) ⊎ (contains ◌==◌ skip id ≡ true)
      → Other owner id s
          (record s { store = (claim_dispatches s.store name s.now (s.now + ttl) skip).0 })
  records :
      (s : Shared) (rs : Map ℕ Record)
      → Other owner id s (record s { store = record s.store { records = rs } })

-- A history of the shared store, as the holder of the lease and the others write it.
pub data History (owner : String) (id ttl : ℕ) (s : Shared) : Shared → Type 0 where
  here : History owner id ttl s s
  renewing :
      {t : Shared} → History owner id ttl s t → History owner id ttl s (renewal id owner ttl t)
  waiting : {t : Shared} (n : ℕ) → History owner id ttl s t → History owner id ttl s (elapsed n t)
  other : {t u : Shared} → History owner id ttl s t → Other owner id t u → History owner id ttl s u
