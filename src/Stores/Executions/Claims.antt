-- ===== src/Stores/Executions/Claims.antt =====
-- internal/state/memory/executions.go: a lease that lapsed, and who may write a dispatch then.
use vagabond.Ledger.Memory.{id_key}
use vagabond.Base.Assoc.{lookup, Map}
use vagabond.Stores.Executions.{
  claim_dispatches, claim_from, renew_dispatch, finish_dispatch, held_by, claimable, Executions,
  DispatchRecord, leased, StoreError,
}
use vagabond.Base.{
  refl, ◌∷◌, [], String, Time, List, ℕ, ◌≡◌, some, none, if◌then◌else◌, true, ◌≢◌, arith, eq_iff,
  ==_iff,
}

pub lookup-claim_from :
    (owner : String) (now until : Time) (skip : List ℕ) (m : Map ℕ DispatchRecord) (id : ℕ)
    → lookup id_key id (claim_from owner now until skip m).0 ≡ elim (lookup id_key id m) [
      | none ↦ none
      | some d ↦ some (if claimable now skip id d then leased owner until d else d)
    ]
unfolding claim_from lookup
lookup-claim_from owner now until skip [] id = refl
lookup-claim_from owner now until skip ((j, d) ∷ m) id =
    ground (arith, lookup-claim_from owner now until skip m id, ==_iff j id)

-- A claim fences the old owner off: once a dispatch whose lease lapsed is claimed by another process,
-- the old owner's renewal and finish fail and change nothing, while the new owner's renewal is
-- written. (The dispatch is running and not skipped.)
pub claim_dispatches-fences :
    (s : Executions) (d ending : DispatchRecord) (id : ℕ) (owner : String) (now until later : Time)
    (skip : List ℕ)
    → lookup id_key id s.dispatches ≡ some d
    → claimable now skip id d ≡ true
    → d.owner ≢ owner
    → ending.id ≡ id
    → ending.owner ≡ d.owner
    → let claimed = (claim_dispatches s owner now until skip).0 in
      (renew_dispatch claimed id d.owner later ≡ (claimed, some StoreError.stale))
      × (finish_dispatch claimed ending ≡ (claimed, some StoreError.stale))
      × ((renew_dispatch claimed id owner later).1 ≡ none)
unfolding claim_dispatches renew_dispatch finish_dispatch held_by claimable
claim_dispatches-fences s d ending id owner now until later skip stored lapsed other same mine =
    ground (
      arith,
      lookup-claim_from owner now until skip s.dispatches id,
      eq_iff owner d.owner,
      eq_iff owner owner,
    )
