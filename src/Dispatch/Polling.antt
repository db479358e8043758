-- ===== src/Dispatch/Polling.antt =====
-- internal/dispatch/poll.go, authorize.go and track.go, with internal/plugin/provider.go: one attempt
-- against one provider, from its submission to its result. A provider is what it answers after the
-- calls made so far, so an attempt is a function of them, and the calls are its trace. The live log
-- stream and its reports, which only show the run to a person, are left out.
use vagabond.Base.Int64.{mul64, sle}
use vagabond.Stores.Executions.{Executions, tracked_to, RunResult, Record, bounded, mark_released}
use vagabond.Execution.Status.{Status}
use vagabond.Execution.State.{State, state_eq, valid, terminal}
use vagabond.Plugin.Failure.{Failure, Class, internal_error, infrastructure_error, Mark, is_marked}
use vagabond.Base.{
  List, [], ℕ, Result, String, Bool, ◌∷◌, if◌then◌else◌, none, Option, some, suc, not, false, Time,
  ◌+◌, true, contains, zero,
}
pub mod Answers
pub mod Counts
pub mod Trace
pub mod Waiting
pub mod Recording
mod Tests

-- What an attempt calls, for one execution.
pub data Call : Type 0 where
  submitted : ℕ → List String → Call
  asked fetched cancelled released recredentialed : Call
  slept : ℕ → Call

-- `Submission`
pub record Submission : Type 0 where
  pub provider_id : String
  pub state : State
  pub result : Option RunResult

-- `Provider` with `MemberSubmitter` and `Releaser`: its answer to a call after others, newest first.
pub record Provider : Type 0 where
  pub takes_members : Bool
  pub leaves_behind : Bool
  pub submit : List Call → Result Failure Submission
  pub status : List Call → Result Failure Status
  pub fetch : List Call → Result Failure RunResult
  pub cancel : List Call → Option Failure
  pub release : List Call → Option Failure

-- The rest of the world: the registry's `Recredential`, `errors.Join`, the sleeper's error, whether
-- the caller has given up, whether output was shown, and the readings of the clock since a call.
pub record Around : Type 0 where
  pub recredential : List Call → Result Failure Bool
  pub join : Failure → Failure → Failure
  pub interrupted : List Call → Option Failure
  pub gave_up : List Call → Bool
  pub wrote : List Call → Bool
  pub clock : List Call → ℕ → Time

-- `Poll`
pub record Poll : Type 0 where
  pub initial : ℕ
  pub longest : ℕ

-- The loop of `interval`.
unfoldable pub interval_from : Poll → ℕ → ℕ → ℕ
interval_from p zero wait = wait
interval_from p (suc n) wait =
    let rest = interval_from p n (mul64 wait 2) in
    if sle p.longest (mul64 wait 2) then p.longest else rest

-- `Poll.interval`
unfoldable pub interval : Poll → ℕ → ℕ
interval p n = interval_from p n p.initial

-- `submittableStates`
abbrev pub submittable_states : List State
submittable_states = State.accepted ∷ State.running ∷ State.succeeded ∷ State.failed ∷ []

-- `Submission.Validate`
unfoldable pub submission_valid : Submission → Bool
submission_valid sub =
    if not (valid sub.state)
    then false
    else if not (contains state_eq submittable_states sub.state)
    then false
    else elim sub.result [ some _ ↦ terminal sub.state | none ↦ not (terminal sub.state) ]

-- `Class` as it is recorded.
abbrev pub class_text : Class → String
class_text Class.infrastructure = "infrastructure"
class_text Class.internal = "internal"
class_text (Class.other s) = s

-- What `failed` records of an error.
abbrev pub failure_text : Failure → String
failure_text (Failure.classified e) = class_text e.class
failure_text (Failure.unclassified mark) = class_text Class.internal

-- An attempt under way: its calls so far, newest first, the execution store and `tracked.rec`.
pub record Run : Type 0 where
  pub calls : List Call
  pub store : Executions
  pub rec : Record

-- `answer`; State "" is Go's zero value.
pub record Answered : Type 0 where
  pub state : State
  pub result : Option RunResult
  pub streamed : Bool

abbrev pub no_answer : Bool → Answered
no_answer streamed = record { state = State.other ""; result = none; streamed = streamed }

-- The state that a status call gave, if it gave one.
abbrev pub state_told : State → Result Failure Status → State
state_told shown (Result.ok st) = st.state
state_told shown (Result.err x) = shown

-- A call that returns only an error.
abbrev pub nothing_or_error : Option Failure → Result Failure Bool
nothing_or_error failure = elim failure [ none ↦ Result.ok true | some e ↦ Result.err e ]

module _ (env : Around) where
  -- `authorized`
  unfoldable pub authorized :
      {T : Type 0}
      → Call
      → (List Call → Result Failure T)
      → List Call
      → List Call × Result Failure T
  authorized call answer h = elim (answer h) [
    | Result.ok x ↦ (call ∷ h, Result.ok x)
    | Result.err e ↦
        if not (is_marked Mark.unauthorized e)
        then (call ∷ h, Result.err e)
        else elim (env.recredential (call ∷ h)) [
          | Result.err x ↦ (Call.recredentialed ∷ call ∷ h, Result.err (env.join e x))
          | Result.ok retry ↦
              if not retry
              then (Call.recredentialed ∷ call ∷ h, Result.err e)
              else (call ∷ Call.recredentialed ∷ call ∷ h, answer (Call.recredentialed ∷ call ∷ h))
        ]
  ]

  -- `tracked.to`, at the nth reading of the clock.
  abbrev pub move : Run → State → ℕ → Run
  move run next n =
      let (store, rec) = tracked_to run.store run.rec next (env.clock run.calls n) in
      record run { store = store; rec = rec }

  -- `tracked.finish`
  unfoldable pub finish : Run → State → Option RunResult → ℕ → Run
  finish run state result n =
      move
        (record run {
          rec = record run.rec { result = elim result [ none ↦ none | some r ↦ some (bounded r) ] };
        })
        state n

  -- `tracked.submitted`
  unfoldable pub accept : Run → Submission → Run
  accept run sub =
      let named = record run {
        rec = record run.rec { status = record run.rec.status { provider_id = sub.provider_id } };
      } in
      let sent = move named State.submitted 0 in
      elim sub.result [ some r ↦ finish sent sub.state (some r) 1 | none ↦ move sent sub.state 1 ]

  -- `tracked.failed`
  unfoldable pub fail : Run → Failure → Run
  fail run e =
      let named = record run { rec = record run.rec { failure = failure_text e } } in
      if state_eq run.rec.status.state State.pending
      then move named State.failed 0
      else move named State.lost 0

  module _ (p : Provider) where
    abbrev pub calling :
        {T : Type 0} → Run → Call → (List Call → Result Failure T) → Run × Result Failure T
    calling run call answer =
        let (calls, out) = authorized call answer run.calls in (record run { calls = calls }, out)

    -- `authorizedErr`
    abbrev pub calling_only : Run → Call → (List Call → Option Failure) → Run × Option Failure
    calling_only run call answer =
        let (told, out) = calling run call (λ h. nothing_or_error (answer h)) in
        (told, elim out [ Result.ok _ ↦ none | Result.err e ↦ some e ])

    abbrev pub mark_done : Run → Run
    mark_done run = record run {
      store = (mark_released run.store run.rec.status.id (env.clock run.calls 2)).0;
    }

    -- `release`
    unfoldable pub release_run : Run → Run
    release_run run =
        if not p.leaves_behind
        then mark_done run
        else let (told, failure) = calling_only run Call.released p.release in
          elim failure [
            | none ↦ mark_done told
            | some e ↦ if is_marked Mark.unknown_execution e then mark_done told else told
          ]

    -- `abandon`
    unfoldable pub abandon : Run → Run
    abandon run = (calling_only run Call.cancelled p.cancel).0

    -- The loop of `watch`, from the nth poll on, with the fuel that bounds the polls.
    unfoldable pub watch : Poll → ℕ → ℕ → State → Run → Option (Run × Result Failure State)
    watch poll zero n shown run = none
    watch poll (suc fuel) n shown run =
        let rested = record run { calls = Call.slept (interval poll n) ∷ run.calls } in
        let (told, out) = calling rested Call.asked p.status in
        let state = state_told shown out in
        let next = if state_eq state shown then told else move told state 0 in
        let rest = watch poll fuel (n + 1) state next in
        elim (env.interrupted rested.calls) [
          | some x ↦ some (rested, Result.err x)
          | none ↦ elim out [
            | Result.err x ↦ some (told, Result.err x)
            | Result.ok st ↦ if terminal st.state then some (told, Result.ok st.state) else rest
          ]
        ]

    -- `follow`, once `watch` has ended.
    unfoldable pub collect : Run → Result Failure State → Run × Answered × Option Failure
    collect run watched =
        let streamed = env.wrote run.calls in
        elim watched [
          | Result.err x ↦ (
            if env.gave_up run.calls then move (abandon run) State.cancelled 0 else fail run x,
            no_answer streamed,
            some x,
          )
          | Result.ok state ↦
              let (told, out) = calling run Call.fetched p.fetch in
              elim out [
                | Result.err x ↦ (finish told state none 0, no_answer streamed, some x)
                | Result.ok r ↦ (
                  release_run (finish told state (some r) 0),
                  record { state = state; result = some r; streamed = streamed },
                  if state_eq state State.cancelled
                      then some (Failure.classified (infrastructure_error none))
                      else none,
                )
              ]
        ]

    -- `follow`
    unfoldable pub follow : Poll → ℕ → State → Run → Option (Run × Answered × Option Failure)
    follow poll fuel shown run = elim (watch poll fuel 0 shown run) [
      | none ↦ none
      | some (watched, out) ↦ some (collect watched out)
    ]

    -- `submit`, then what `execute` reads as an error.
    unfoldable pub send : Run → List String → Run × Result Failure Submission
    send run members =
        let named = if p.takes_members then members else [] in
        let (told, out) = calling run (Call.submitted run.rec.status.id named) p.submit in
        (
          told,
          elim out [
            | Result.err x ↦ Result.err x
            | Result.ok sub ↦
                if submission_valid sub
                then Result.ok sub
                else Result.err (Failure.classified (internal_error (some Mark.invalid_submission)))
          ],
        )

    -- `execute`
    unfoldable pub execute : Poll → ℕ → List String → Run → Option (Run × Answered × Option Failure)
    execute poll fuel members run =
        let (told, out) = send run members in
        elim out [
          | Result.err x ↦ some (fail told x, no_answer false, some x)
          | Result.ok sub ↦ elim sub.result [
            | some r ↦ some (
              release_run (accept told sub),
              record { state = sub.state; result = some r; streamed = false },
              none,
            )
            | none ↦ follow poll fuel sub.state (accept told sub)
          ]
        ]
