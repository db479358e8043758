-- ===== src/Dispatch/Resuming.antt =====
-- internal/dispatch/resume.go and the loop of release.go: a dispatch whose owner died, taken to its
-- end over the in-memory store, and the executions that are not released. The ledger is a state that
-- `settle` writes; its error is ignored, as in `charge`.
pub mod Written
pub mod Stored
pub mod Ending
pub mod Settled
mod Tests
use vagabond.Dispatch.Leftovers.{release_leftover, ended_as}
use vagabond.Execution.State.{State, terminal, state_eq}
use vagabond.Plugin.Failure.{Failure, internal_error, infrastructure_error}
use vagabond.Dispatch.Polling.{Provider, Around, Poll, Run, fail, move, calling, Call, follow}
use vagabond.Stores.Executions.{
  Record, RunResult, Executions, DispatchRecord, unreleased, DispatchState, dispatch_executions,
  finish_dispatch,
}
use vagabond.Quota.Meter.{Execution}
use vagabond.Base.{
  ◌∷◌, ℕ, [], String, Option, Result, none, List, some, Bool, if◌then◌else◌, Time, ◌*◌, second, suc,
  ◌-◌,
}

module _ {L : Type 0} (settle : L → ℕ → String → String → Execution → L) where
  -- `charge` of dispatcher.go
  unfoldable pub charge_record : L → Record → Option RunResult → L
  charge_record l rec result = elim result [
    | none ↦ l
    | some r ↦ settle l rec.status.id rec.namespace rec.provider (elim r.billed [
      | none ↦ record { cpu = rec.cpu; memory = rec.memory; duration = r.duration }
      | some actual ↦ actual
    ])
  ]

  module _ (provider_of : String → Option Provider) (around : ℕ → Around) (poll : Poll)
      (fuel : ℕ) where
    -- The part of `resume` that follows the status of an execution.
    unfoldable pub followed : L → Provider → Run → State → Option (Executions × L × Record)
    followed l p run state =
        let env = around run.rec.status.id in
        let sent =
          if state_eq run.rec.status.state State.pending
          then move env run State.submitted 0
          else run in
        elim (follow env p poll fuel state sent) [
          | none ↦ none
          | some (ended, answer, err) ↦
              some (ended.store, charge_record l ended.rec answer.result, ended.rec)
        ]

    -- `resume`: the store, the ledger and the record in the end.
    unfoldable pub resume_one : Executions → L → Record → Option (Executions × L × Record)
    resume_one store l rec =
        let env = around rec.status.id in
        let run : Run = record { calls = []; store = store; rec = rec } in
        elim (provider_of rec.provider) [
          | none ↦
              let gone = fail env run (Failure.classified (internal_error none)) in
              some (gone.store, l, gone.rec)
          | some p ↦
              let (told, out) = calling env p run Call.asked p.status in
              elim out [
                | Result.err e ↦
                    let gone = fail env told (Failure.classified (infrastructure_error none)) in
                    some (gone.store, l, gone.rec)
                | Result.ok st ↦ followed l p told st.state
              ]
        ]

    -- The loop of `Resume`.
    unfoldable pub resume_from :
        List Record → Executions → L → Option (Executions × L × List Record)
    resume_from [] store l = some (store, l, [])
    resume_from (rec ∷ recs) store l =
        elim (if terminal rec.status.state then some (store, l, rec) else resume_one store l rec) [
          | none ↦ none
          | some (store', l', rec') ↦ elim (resume_from recs store' l') [
            | none ↦ none
            | some (last, l'', rest) ↦ some (last, l'', rec' ∷ rest)
          ]
        ]

    -- `Resume`, with what the lease's renewal has found; `explain` writes the reason,
    -- a text for people.
    unfoldable pub resume_dispatch :
        (ℕ → List Record → String)
        → Executions
        → L
        → DispatchRecord
        → Bool
        → String
        → Time
        → Option (Executions × L × DispatchState)
    resume_dispatch explain store l claimed lost owner now =
        elim (resume_from (dispatch_executions store claimed.id) store l) [
          | none ↦ none
          | some (after, l', recs) ↦
              let state = ended_as claimed.tasks recs in
              let ending = record claimed {
                tasks = 0;
                state = state;
                reason = explain claimed.tasks recs;
                owner = owner;
                lease_until = 0;
                created = 0;
                ended = now;
              } in
              some (if lost then after else (finish_dispatch after ending).0, l', state)
        ]

-- The loop of `ReleaseLeftovers`: how many were released, and the errors that are joined.
module _ (provider_of : String → Option Provider) (around : ℕ → Around)
    (reserved : ℕ → Result Failure Bool) where
  unfoldable pub release_from : List Record → Executions → Executions × ℕ × List Failure
  release_from [] store = (store, 0, [])
  release_from (rec ∷ recs) store =
      let (run, out) =
        release_leftover (around rec.status.id) reserved (provider_of rec.provider)
          (record { calls = []; store = store; rec = rec }) in
      let (last, count, failures) = release_from recs run.store in
      elim out [
        | Result.err e ↦ (last, count, e ∷ failures)
        | Result.ok done ↦ (last, if done then suc count else count, failures)
      ]

  -- `ReleaseAfter`
  abbrev pub release_after : ℕ
  release_after = 600 * second

  -- `ReleaseLeftovers`
  unfoldable pub release_leftovers : Executions → Time → Executions × ℕ × List Failure
  release_leftovers store now = release_from (unreleased store (now - release_after)) store
