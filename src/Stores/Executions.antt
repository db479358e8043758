-- ===== src/Stores/Executions.antt =====
-- internal/state/memory/executions.go, over internal/execution's record.go, result.go and
-- dispatch.go, and the writes of internal/dispatch/track.go. Every operation runs under one mutex.
use vagabond.Ledger.Memory.{id_key}
use vagabond.Quota.Meter.{Execution}
use vagabond.Execution.Status.{Status, to}
use vagabond.Base.Assoc.{Map, lookup, insert}
use vagabond.Execution.State.{State, state_eq}
use vagabond.Base.{
  suc, zero, ℕ, if◌then◌else◌, ◌∷◌, none, String, Option, Bool, [], Time, ltb, Result, some, List,
  true, ◌==◌, sort, ◌&&◌, length, false, is_zero, leb, ◌-◌, before, not, str_eq, contains,
}
use Prim.Native.Nat.{compare}
pub mod Moves
pub mod Claims

-- `Result`: logs are bytes.
pub record RunResult : Type 0 where
  pub id : ℕ
  pub exit_code : Option ℕ
  pub duration : ℕ
  pub billed : Option Execution
  pub logs : List ℕ
  pub logs_truncated : Bool

pub record Record : Type 0 where
  pub status : Status
  pub namespace : String
  pub job : String
  pub job_version : ℕ
  pub dispatch : ℕ
  pub task : String
  pub provider : String
  pub attempt : ℕ
  pub previous : ℕ
  pub cpu : ℕ
  pub memory : ℕ
  pub result : Option RunResult
  pub failure : String
  pub released : Time

-- `DispatchState`
pub data DispatchState : Type 0 where
  dispatch_running dispatch_succeeded dispatch_failed dispatch_unanswered : DispatchState

abbrev pub is_running : DispatchState → Bool
is_running DispatchState.dispatch_running = true
is_running _ = false

-- `Dispatch`
pub record DispatchRecord : Type 0 where
  pub id : ℕ
  pub namespace : String
  pub job : String
  pub job_version : ℕ
  pub tasks : ℕ
  pub state : DispatchState
  pub reason : String
  pub owner : String
  pub lease_until : Time
  pub created : Time
  pub ended : Time

-- `Executions`
pub record Executions : Type 0 where
  pub dispatches : Map ℕ DispatchRecord
  pub records : Map ℕ Record

pub data StoreError : Type 0 where
  already_recorded stale not_found : StoreError

-- `MaxStoredLogs`
abbrev pub max_stored_logs : ℕ
max_stored_logs = 65536

unfoldable pub skip_first : ℕ → List ℕ → List ℕ
skip_first zero bytes = bytes
skip_first (suc n) [] = []
skip_first (suc n) (b ∷ bytes) = skip_first n bytes

-- `Result.Bounded`: the end of the logs.
unfoldable pub bounded : RunResult → RunResult
bounded r =
    if ltb max_stored_logs (length r.logs)
    then record r {
      logs = skip_first (length r.logs - max_stored_logs) r.logs;
      logs_truncated = true;
    }
    else r

-- `clone`
unfoldable pub clone : Record → Record
clone r = record r { result = elim r.result [ none ↦ none | some x ↦ some (bounded x) ] }

unfoldable pub create_dispatch : Executions → DispatchRecord → Executions × Option StoreError
create_dispatch s d = elim (lookup id_key d.id s.dispatches) [
  | some _ ↦ (s, some StoreError.already_recorded)
  | none ↦ (record s { dispatches = insert id_key d.id d s.dispatches }, none)
]

-- `held`: the dispatch when it is running under owner.
unfoldable pub held_by : Executions → ℕ → String → Option DispatchRecord
held_by s id owner = elim (lookup id_key id s.dispatches) [
  | none ↦ none
  | some d ↦ if is_running d.state && str_eq d.owner owner then some d else none
]

unfoldable pub finish_dispatch : Executions → DispatchRecord → Executions × Option StoreError
finish_dispatch s d = elim (held_by s d.id d.owner) [
  | none ↦ (s, some StoreError.stale)
  | some stored ↦ (
    record s {
      dispatches =
          insert id_key d.id (record stored { state = d.state; reason = d.reason; ended = d.ended })
            s.dispatches;
    },
    none,
  )
]

unfoldable pub renew_dispatch : Executions → ℕ → String → Time → Executions × Option StoreError
renew_dispatch s id owner until = elim (held_by s id owner) [
  | none ↦ (s, some StoreError.stale)
  | some stored ↦ (
    record s { dispatches = insert id_key id (record stored { lease_until = until }) s.dispatches },
    none,
  )
]

-- Whether `ClaimDispatches` takes a dispatch over.
unfoldable pub claimable : Time → List ℕ → ℕ → DispatchRecord → Bool
claimable now skip id d =
    is_running d.state && (before d.lease_until now && not (contains ◌==◌ skip id))

abbrev pub leased : String → Time → DispatchRecord → DispatchRecord
leased owner until d = record d { owner = owner; lease_until = until }

-- The loop of `ClaimDispatches`: the map afterwards, and what was claimed.
unfoldable pub claim_from :
    String
    → Time
    → Time
    → List ℕ
    → Map ℕ DispatchRecord
    → Map ℕ DispatchRecord × List DispatchRecord
claim_from owner now until skip [] = ([], [])
claim_from owner now until skip ((id, d) ∷ rest) =
    let (later, claimed) = claim_from owner now until skip rest in
    if claimable now skip id d
    then ((id, leased owner until d) ∷ later, leased owner until d ∷ claimed)
    else ((id, d) ∷ later, claimed)

unfoldable pub claim_dispatches :
    Executions → String → Time → Time → List ℕ → Executions × List DispatchRecord
claim_dispatches s owner now until skip =
    let (dispatches, claimed) = claim_from owner now until skip s.dispatches in
    (record s { dispatches = dispatches }, claimed)

unfoldable pub get_dispatch : Executions → ℕ → Result StoreError DispatchRecord
get_dispatch s id = elim (lookup id_key id s.dispatches) [
  | none ↦ Result.err StoreError.not_found
  | some d ↦ Result.ok d
]

unfoldable pub create : Executions → Record → Executions × Option StoreError
create s r = elim (lookup id_key r.status.id s.records) [
  | some _ ↦ (s, some StoreError.already_recorded)
  | none ↦ (record s { records = insert id_key r.status.id (clone r) s.records }, none)
]

-- `Update`: a release is written on its own, so it stays as stored.
unfoldable pub update : Executions → Record → State → Executions × Option StoreError
update s r from = elim (lookup id_key r.status.id s.records) [
  | none ↦ (s, some StoreError.stale)
  | some stored ↦ if not (state_eq stored.status.state from) then (s, some StoreError.stale) else (
    record s {
      records =
          insert id_key r.status.id (record (clone r) { released = stored.released }) s.records;
    },
    none,
  )
]

-- The loop of `Unreleased`.
unfoldable pub unreleased_from : Time → Map ℕ Record → List Record
unreleased_from cutoff [] = []
unreleased_from cutoff ((id, r) ∷ rest) =
    let later = unreleased_from cutoff rest in
    if is_zero r.released && before r.status.updated_at cutoff then clone r ∷ later else later

unfoldable pub unreleased : Executions → Time → List Record
unreleased s cutoff =
    sort (λ a b. leb a.status.updated_at b.status.updated_at) (unreleased_from cutoff s.records)

unfoldable pub mark_released : Executions → ℕ → Time → Executions × Option StoreError
mark_released s id at = elim (lookup id_key id s.records) [
  | none ↦ (s, some StoreError.not_found)
  | some stored ↦
      (record s { records = insert id_key id (record stored { released = at }) s.records }, none)
]

unfoldable pub get : Executions → ℕ → Result StoreError Record
get s id = elim (lookup id_key id s.records) [
  | none ↦ Result.err StoreError.not_found
  | some r ↦ Result.ok (clone r)
]

-- The records of one dispatch, in the order of their IDs.
unfoldable pub of_dispatch : ℕ → Map ℕ Record → List Record
of_dispatch dispatch [] = []
of_dispatch dispatch ((id, r) ∷ rest) =
    let later = of_dispatch dispatch rest in
    if r.dispatch == dispatch then clone r ∷ later else later

unfoldable pub dispatch_executions : Executions → ℕ → List Record
dispatch_executions s dispatch =
    sort (λ a b. leb a.status.id b.status.id) (of_dispatch dispatch s.records)

-- `tracked.to`: the record of an attempt moved and written.
unfoldable pub tracked_to : Executions → Record → State → Time → Executions × Record
tracked_to s run next now =
    if state_eq run.status.state next
    then (s, run)
    else let (moved, refusal) = to run.status next now in
      let run' = record run { status = moved } in
      elim refusal [ some _ ↦ (s, run) | none ↦ ((update s run' run.status.state).0, run') ]
