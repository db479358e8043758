-- ===== src/Dispatch/Leases/Kept.antt =====
-- internal/dispatch/lease.go: a lease that is renewed in time.
use vagabond.Stores.Executions.Claims.{lookup-claim_from}
use vagabond.Ledger.Memory.{id_key}
use vagabond.Base.Assoc.{lookup, lookup-insert}
use vagabond.Stores.Executions.{
  renew_dispatch, held_by, DispatchRecord, claim_dispatches, claimable, is_running, create_dispatch,
  finish_dispatch,
}
use vagabond.Dispatch.Leases.{renewal, Shared, elapsed, Other, taken}
use vagabond.Base.{
  String, ℕ, ◌+◌, ◌≡◌, some, ◌≤◌, true, false, arith, ◌∙◌, eq_iff, ==_iff, Option-cases, inl, inr,
}

-- The lease is held: the stored dispatch is running under its owner, and has not lapsed.
pub record Holds (owner : String) (id : ℕ) (s : Shared) : Type 0 where
  pub dispatch : DispatchRecord
  pub stored : lookup id_key id s.store.dispatches ≡ some dispatch
  pub going : is_running dispatch.state ≡ true
  pub owned : dispatch.owner ≡ owner
  pub current : s.now ≤ dispatch.lease_until
  pub kept : taken s ≡ false

-- A history in which time does not pass the end of the stored lease.
pub data Timely (owner : String) (id ttl : ℕ) (s : Shared) : Shared → Type 0 where
  here : Timely owner id ttl s s
  renewing : {t : Shared} → Timely owner id ttl s t → Timely owner id ttl s (renewal id owner ttl t)
  waiting :
      {t : Shared} (n : ℕ)
      → Timely owner id ttl s t
      → ((d : DispatchRecord)
          → lookup id_key id t.store.dispatches ≡ some d
          → t.now + n ≤ d.lease_until)
      → Timely owner id ttl s (elapsed n t)
  other : {t u : Shared} → Timely owner id ttl s t → Other owner id t u → Timely owner id ttl s u

-- A renewal in time is written, and finds nothing taken.
renewal_held :
    (owner : String) (id ttl : ℕ) (s : Shared) (d : DispatchRecord)
    → lookup id_key id s.store.dispatches ≡ some d
    → is_running d.state ≡ true
    → d.owner ≡ owner
    → s.lost ≡ false
    → (lookup id_key id (renewal id owner ttl s).store.dispatches
        ≡ some (record d { lease_until = s.now + ttl }))
      × ((renewal id owner ttl s).lost ≡ false)
      × ((renewal id owner ttl s).now ≡ s.now)
unfolding renewal renew_dispatch held_by
renewal_held owner id ttl s d stored going owned kept = ground (
  arith,
  lookup-insert id_key id id (record d { lease_until = s.now + ttl }) s.store.dispatches,
  eq_iff d.owner owner,
  ==_iff id id,
)

renewal-Holds :
    (owner : String) (id ttl : ℕ) (s : Shared)
    → Holds owner id s
    → Holds owner id (renewal id owner ttl s)
renewal-Holds owner id ttl s h =
    let (stored, kept, same) =
      renewal_held owner id ttl s h.dispatch h.stored h.going h.owned h.kept in
    record {
      dispatch = record h.dispatch { lease_until = s.now + ttl };
      stored = stored;
      going = h.going;
      owned = h.owned;
      current = omega (arith, same);
      kept = kept;
    }

-- The stored dispatch stays as it is while its lease has not lapsed.
Other-stored :
    (owner : String) (id : ℕ) {s t : Shared}
    → Other owner id s t
    → (d : DispatchRecord) → lookup id_key id s.store.dispatches ≡ some d
    → d.owner ≡ owner
    → s.now ≤ d.lease_until
    → (lookup id_key id t.store.dispatches ≡ some d) × (t.now ≡ s.now) × (t.lost ≡ s.lost)
unfolding create_dispatch renew_dispatch finish_dispatch held_by claim_dispatches claimable
Other-stored owner id (Other.begins s new) d h owned k =
    ground (arith, h, lookup-insert id_key new.id id new s.store.dispatches, ==_iff new.id id)
Other-stored owner id (Other.renews s j name until apart) d h owned k =
    elim (Option-cases (lookup id_key j s.store.dispatches)) [
      | inl missing ↦ ground (arith, h, missing)
      | inr (e, found) ↦ ground (
        arith,
        h,
        found,
        apart,
        owned,
        lookup-insert id_key j id (record e { lease_until = until }) s.store.dispatches,
        ==_iff j id,
        eq_iff e.owner name,
      )
    ]
Other-stored owner id (Other.ends s ending apart) d h owned k =
    elim (Option-cases (lookup id_key ending.id s.store.dispatches)) [
      | inl missing ↦ ground (arith, h, missing)
      | inr (e, found) ↦ ground (
        arith,
        h,
        found,
        apart,
        owned,
        lookup-insert id_key ending.id id
            (record e { state = ending.state; reason = ending.reason; ended = ending.ended })
            s.store.dispatches,
        ==_iff ending.id id,
        eq_iff e.owner ending.owner,
      )
    ]
Other-stored owner id (Other.claims s name ttl skip apart) d h owned k =
    ground (arith, h, k, lookup-claim_from name s.now (s.now + ttl) skip s.store.dispatches id)
Other-stored owner id (Other.records s rs) d h owned k = ground (arith, h)

Other-Holds :
    (owner : String) (id : ℕ) {s t : Shared}
    → Other owner id s t
    → Holds owner id s
    → Holds owner id t
Other-Holds owner id o h =
    let (stored, same, kept) = Other-stored owner id o h.dispatch h.stored h.owned h.current in
    record {
      dispatch = h.dispatch;
      stored = stored;
      going = h.going;
      owned = h.owned;
      current = omega (arith, same, h.current);
      kept = kept ∙ h.kept;
    }

-- While time does not pass the end of the stored lease, the owner keeps the dispatch, whatever other
-- processes write: they cannot claim, renew or end it, and no renewal finds it taken.
pub Timely-Holds :
    {owner : String} {id ttl : ℕ} {s t : Shared}
    → Holds owner id s
    → Timely owner id ttl s t
    → Holds owner id t
Timely-Holds h here = h
Timely-Holds {owner} {id} {ttl} h (renewing {t} r) = renewal-Holds owner id ttl t (Timely-Holds h r)
Timely-Holds h (waiting {t} n r in_time) =
    let k = Timely-Holds h r in
    record {
      dispatch = k.dispatch;
      stored = k.stored;
      going = k.going;
      owned = k.owned;
      current = in_time k.dispatch k.stored;
      kept = k.kept;
    }
Timely-Holds {owner} {id} h (other r o) = Other-Holds owner id o (Timely-Holds h r)
