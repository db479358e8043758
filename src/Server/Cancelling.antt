-- ===== src/Server/Cancelling.antt =====
-- internal/server/executions.go: cancelling an execution. What other processes write to the store
-- while the provider is asked is a function of the store.
use vagabond.Execution.Status.{to}
use vagabond.Execution.State.{Error, terminal, State}
use vagabond.Plugin.Failure.{Failure}
use vagabond.Stores.Executions.{Executions, StoreError, Record, get, update}
use vagabond.Base.{String, Option, ℕ, Result, Time, List, none, some, if◌then◌else◌, contains, ◌==◌}
pub mod Outcome
mod Tests

-- Why an execution is not cancelled; a refused move is an execution that cannot be cancelled.
pub data CancelFault : Type 0 where
  no_execution : CancelFault
  gone_provider : String → CancelFault
  not_cancelled : Failure → CancelFault
  refused_move : Error → CancelFault
  not_stored : StoreError → CancelFault

-- The store in the end, the dispatch that was told to stop, and the answer.
pub record Cancelled : Type 0 where
  pub store : Executions
  pub stopped : Option ℕ
  pub answer : Result CancelFault Record

-- The provider of a name, as what it answers to `Cancel`.
module _ (canceller : String → Option (ℕ → Option Failure)) (meanwhile : Executions → Executions)
    (now : Time) where
  -- `cancelUnwatched`, which writes to the record: no error is none.
  unfoldable pub cancel_unwatched : Executions → Record → Executions × Result CancelFault Record
  cancel_unwatched store rec = elim (canceller rec.provider) [
    | none ↦ (store, Result.err (CancelFault.gone_provider rec.provider))
    | some cancel ↦ elim (cancel rec.status.id) [
      | some e ↦ (meanwhile store, Result.err (CancelFault.not_cancelled e))
      | none ↦
          let (moved, refusal) = to rec.status State.cancelled now in
          let ended : Record = record rec { status = moved } in
          elim refusal [
            | some x ↦ (meanwhile store, Result.err (CancelFault.refused_move x))
            | none ↦
                let (after, failure) = update (meanwhile store) ended rec.status.state in
                elim failure [
                  | none ↦ (after, Result.ok ended)
                  | some StoreError.stale ↦ (after, Result.ok ended)
                  | some x ↦ (after, Result.err (CancelFault.not_stored x))
                ]
          ]
    ]
  ]

  -- `cancelExecution`, with the dispatches that run in this process.
  unfoldable pub cancel_execution : Executions → List ℕ → ℕ → Cancelled
  cancel_execution store running id = elim (get store id) [
    | Result.err x ↦ record {
      store = store;
      stopped = none;
      answer = Result.err CancelFault.no_execution;
    }
    | Result.ok rec ↦
        if terminal rec.status.state
        then record { store = store; stopped = none; answer = Result.ok rec }
        else if contains ◌==◌ running rec.dispatch
        then record { store = store; stopped = some rec.dispatch; answer = Result.ok rec }
        else let (after, answer) = cancel_unwatched store rec in
          record { store = after; stopped = none; answer = answer }
  ]
