-- ===== src/Dispatch/Leases/Fenced.antt =====
-- internal/dispatch/lease.go: a lease that another process has taken, or whose dispatch has ended.
use vagabond.Ledger.Memory.{id_key}
use vagabond.Base.Assoc.{lookup}
use vagabond.Base.{String, ℕ, ◌≡◌, false, some, ◌⊎◌, ◌≢◌}
use vagabond.Dispatch.Leases.{Shared}
use vagabond.Stores.Executions.{DispatchRecord, is_running, Executions}

-- The dispatch is not this owner's to run.
abbrev pub IsAway : String → DispatchRecord → Type 0
IsAway owner d = (is_running d.state ≡ false) ⊎ (d.owner ≢ owner)

pub record Away (owner : String) (id : ℕ) (s : Shared) : Type 0 where
  pub dispatch : DispatchRecord
  pub stored : lookup id_key id s.store.dispatches ≡ some dispatch
  pub away : IsAway owner dispatch
