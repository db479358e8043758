-- ===== src/Dispatch/Leftovers.antt =====
-- internal/dispatch/release.go, reap.go and resume.go: what is done about executions that dispatch
-- stopped following, over the calls, the record and the execution store of an attempt. No provider
-- is one that is no longer configured.
pub mod Releasing
use vagabond.Base.Int64.{sle}
use vagabond.Execution.Status.{lost_expired, Status, to}
use vagabond.Execution.State.{State, state_eq, terminal}
use vagabond.Stores.Executions.{
  Record, DispatchState, stale, mark_released, RunResult, bounded, update,
}
use vagabond.Dispatch.Polling.{Run, Around, Provider, calling_only, calling, Call}
use vagabond.Base.{
  ◌∷◌, Option, [], List, ℕ, none, Bool, String, Result, if◌then◌else◌, some, contains, false, not,
  ◌||◌, true, str_eq, is_zero, length, ◌&&◌, time_sub,
}
use vagabond.Ledger.Account.Store.{Verdict}
use vagabond.Plugin.Failure.{Failure, Mark, is_marked}
mod Tests

-- The switch of `resolve`, from the answer of the execution's provider.
unfoldable pub verdict_of_status : Option (Result Failure Status) → Verdict × ℕ
verdict_of_status none = (Verdict.keep, 0)
verdict_of_status (some (Result.err e)) =
    if is_marked Mark.unknown_execution e
    then (Verdict.drop, 0)
    else if is_marked Mark.unsupported e
    then (Verdict.stand, 0)
    else (Verdict.keep, 0)
verdict_of_status (some (Result.ok st)) =
    if not (terminal st.state)
    then (Verdict.keep, 0)
    else if is_zero st.started_at
    then (Verdict.finished, 0)
    else if is_zero st.ended_at
    then (Verdict.stand, 0)
    else (Verdict.finished, time_sub st.ended_at st.started_at)

-- What `releaseLeftover` and `reconcileLost` end with: a Boolean or nothing, and an error.
abbrev pub failing : {A : Type 0} → Run → Failure → Run × Result Failure A
failing run e = (run, Result.err e)

-- An error that no provider gave.
abbrev pub plain_error : Failure
plain_error = Failure.unclassified none

module _ (env : Around) where
  -- `resolve`, for the execution of a reservation
  unfoldable pub resolve : Option Provider → Run → Run × Verdict × ℕ
  resolve provider run = elim provider [
    | none ↦ let (verdict, ran) = verdict_of_status none in (run, verdict, ran)
    | some p ↦
        let (told, out) = calling env p run Call.asked p.status in
        let (verdict, ran) = verdict_of_status (some out) in (told, verdict, ran)
  ]

  -- `resolveLost`: no error is none.
  unfoldable pub resolve_lost : Run → State → Option RunResult → Run × Option Failure
  resolve_lost run state result =
      let (moved, refusal) = to run.rec.status state (env.clock run.calls 1) in
      let resolved = record run.rec {
        status = moved;
        result = elim result [ none ↦ none | some r ↦ some (bounded r) ];
      } in
      elim refusal [
        | some _ ↦ (run, some plain_error)
        | none ↦
            let (store, failure) = update run.store resolved State.lost in
            elim failure [
              | some _ ↦ (record run { store = store }, some plain_error)
              | none ↦ (record run { store = store; rec = resolved }, none)
            ]
      ]

  -- The end of `reconcileLost`, with the error of an earlier call.
  unfoldable pub give_up : Run → Option Failure → Run × Option Failure
  give_up run err =
      if lost_expired run.rec.status (env.clock run.calls 0)
      then resolve_lost run State.failed none
      else (run, err)

  -- `reconcileLost`
  unfoldable pub reconcile_lost : Option Provider → Run → Run × Option Failure
  reconcile_lost provider run = elim provider [
    | none ↦ resolve_lost run State.failed none
    | some p ↦
        let (told, out) = calling env p run Call.asked p.status in
        elim out [
          | Result.err e ↦
              if is_marked Mark.unknown_execution e
              then resolve_lost told State.failed none
              else give_up told (some e)
          | Result.ok st ↦
              if not (terminal st.state)
              then give_up told none
              else let (fetched, answer) = calling env p told Call.fetched p.fetch in
                elim answer [
                  | Result.ok r ↦ resolve_lost fetched st.state (some r)
                  | Result.err e ↦ give_up fetched (some e)
                ]
        ]
  ]

  -- `markReleased`, after which the leftovers are gone.
  abbrev pub mark_gone : Run → Run × Result Failure Bool
  mark_gone run =
      let (store, failure) = mark_released run.store run.rec.status.id (env.clock run.calls 2) in
      let marked = record run { store = store } in
      elim failure [ none ↦ (marked, Result.ok true) | some _ ↦ failing marked plain_error ]

  -- The last call of `releaseLeftover`.
  unfoldable pub free : Provider → Run → Run × Result Failure Bool
  free p run =
      let (told, failure) = calling_only env p run Call.released p.release in
      elim failure [
        | none ↦ mark_gone told
        | some e ↦ if is_marked Mark.unknown_execution e then mark_gone told else failing told e
      ]

  -- The part of `releaseLeftover` that follows the ledger's answer.
  unfoldable pub release_settled : Option Provider → Run → Run × Result Failure Bool
  release_settled provider run = elim provider [
    | none ↦ mark_gone run
    | some p ↦ if not p.leaves_behind then mark_gone run else elim run.rec.result [
      | some _ ↦ free p run
      | none ↦
          let (told, out) = calling env p run Call.asked p.status in
          elim out [
            | Result.err e ↦
                if is_marked Mark.unknown_execution e then mark_gone told else failing told e
            | Result.ok st ↦
                if not (terminal st.state) then (told, Result.ok false) else free p told
          ]
    ]
  ]

  -- The part of `releaseLeftover` for an execution that is not lost, with the ledger's `Reserved`.
  unfoldable pub release_over :
      (ℕ → Result Failure Bool) → Option Provider → Run → Run × Result Failure Bool
  release_over reserved provider run = elim (reserved run.rec.status.id) [
    | Result.err e ↦ failing run e
    | Result.ok holds ↦ if holds then (run, Result.ok false) else release_settled provider run
  ]

  -- `releaseLeftover`
  unfoldable pub release_leftover :
      (ℕ → Result Failure Bool) → Option Provider → Run → Run × Result Failure Bool
  release_leftover reserved provider run =
      if not (state_eq run.rec.status.state State.lost)
      then release_over reserved provider run
      else let (found, failure) = reconcile_lost provider run in
        elim failure [
          | some e ↦ failing found e
          | none ↦
              if state_eq found.rec.status.state State.lost
              then (found, Result.ok false)
              else release_over reserved provider found
        ]

-- The tasks that some record is of.
unfoldable pub tasks_ran : List Record → List String
tasks_ran [] = []
tasks_ran (r ∷ rs) =
    let ran = tasks_ran rs in if contains str_eq ran r.task then ran else r.task ∷ ran

-- The last of the records.
abbrev pub last_record : Record → List Record → Record
last_record r [] = r
last_record r (next ∷ rs) = last_record next rs

-- `answered` of `ended`
abbrev pub is_answered : Record → Bool
is_answered r =
    (state_eq r.status.state State.succeeded || state_eq r.status.state State.failed)
    && ((elim r.result [ none ↦ false | some _ ↦ true ]) && str_eq r.failure "")

-- `ended`, without the reason, a text for people.
unfoldable pub ended_as : ℕ → List Record → DispatchState
ended_as tasks [] = DispatchState.dispatch_unanswered
ended_as tasks (r ∷ rs) =
    let last = last_record r rs in
    let passed = is_answered last && state_eq last.status.state State.succeeded in
    if passed && sle tasks (length (tasks_ran (r ∷ rs)))
    then DispatchState.dispatch_succeeded
    else if passed
    then DispatchState.dispatch_unanswered
    else if is_answered last
    then DispatchState.dispatch_failed
    else DispatchState.dispatch_unanswered
