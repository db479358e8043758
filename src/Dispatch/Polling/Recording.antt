-- ===== src/Dispatch/Polling/Recording.antt =====
-- internal/dispatch/poll.go and track.go: what is recorded of an execution that was answered.
use vagabond.Dispatch.Polling.{
  execute, send, Around, Run, Answered, move, finish, accept, Submission, Provider, release_run,
  collect, calling_only, Call, calling, no_answer, follow, submission_valid, Poll, watch, fail,
}
use vagabond.Dispatch.Polling.Waiting.{IsOver, watch-Kept, Kept}
use vagabond.Execution.Status.Lifecycle.{to_lem}
use vagabond.Stores.Executions.Moves.{state_eq-eq}
use vagabond.Dispatch.Polling.Answers.{terminal-cases, send-submission_valid}
use vagabond.Plugin.Failure.{Failure, is_marked, Mark, infrastructure_error}
use vagabond.Execution.Status.{to}
use vagabond.Stores.Executions.{tracked_to, bounded, Executions, RunResult, Record}
use vagabond.Base.{
  Option, ◌≡◌, ◌⊎◌, some, none, ℕ, false, true, arith, inr, inl, subst, sym, Time, ◌∙◌, Bool-cases,
  Option-cases, Result, Result-cases, if◌then◌else◌, Bool, List, String,
}
use vagabond.Execution.State.{State, transition, valid, can_transition, terminal, Error, state_eq}

-- A state in which an execution waits for its end.
abbrev pub Awaits : State → Type 0
Awaits s = (s ≡ State.submitted) ⊎ ((s ≡ State.accepted) ⊎ ((s ≡ State.running) ⊎ (s ≡ State.lost)))

-- The attempt's own record has the state and the result that it is answered with.
abbrev pub Recorded : Option (Run × Answered × Option Failure) → Type 0
Recorded none = Unit
Recorded (some (run, a, some e)) = Unit
Recorded (some (run, a, none)) =
    (run.rec.status.state ≡ a.state)
    × (run.rec.result ≡ elim a.result [ none ↦ none | some r ↦ some (bounded r) ])

-- The end of a wait is always a legal move.
Awaits-terminal : (s next : State) → Awaits s → terminal next ≡ true → transition s next ≡ none
unfolding transition valid can_transition
Awaits-terminal s next h over = elim (terminal-cases next over) [
  | inl e ↦ rw e (ground (arith, h))
  | inr (inl e) ↦ rw e (ground (arith, h))
  | inr (inr e) ↦ rw e (ground (arith, h))
]

pub Awaits-going :
    (s next : State) → Awaits s → terminal next ≡ false → transition s next ≡ none → Awaits next
unfolding transition valid can_transition terminal
Awaits-going s next h going legal = ground (arith, h, going, legal)

tracked_to-state :
    (store : Executions) (run : Record) (next : State) (now : Time)
    → let after = (tracked_to store run next now).1 in
      (after.result ≡ run.result)
      × (((after.status.state ≡ next)
            × ((run.status.state ≡ next) ⊎ (transition run.status.state next ≡ none)))
          ⊎ ((after.status.state ≡ run.status.state)
              × ((x : Error) × (transition run.status.state next ≡ some x))))
unfolding tracked_to to
tracked_to-state store run next now = elim (Bool-cases (state_eq run.status.state next)) [
  | inl same ↦ ground (arith, same, state_eq-eq run.status.state next same)
  | inr other ↦ elim (Option-cases (transition run.status.state next)) [
    | inl legal ↦ ground (arith, other, legal, to_lem run.status next now)
    | inr (x, refused) ↦
        (ground (arith, other, refused), inr (ground (arith, other, refused), (x, refused)))
  ]
]

valid-terminal :
    (sub : Submission) (r : RunResult)
    → submission_valid sub ≡ true
    → sub.result ≡ some r
    → terminal sub.state ≡ true
unfolding submission_valid
valid-terminal sub r sound done = ground (arith, sound, done)

valid-going :
    (sub : Submission)
    → submission_valid sub ≡ true
    → sub.result ≡ none
    → terminal sub.state ≡ false
unfolding submission_valid
valid-going sub sound queued = ground (arith, sound, queued)

module _ (env : Around) where
  pub move-Awaits :
      (run : Run) (state : State) (n : ℕ)
      → terminal state ≡ false
      → Awaits run.rec.status.state
      → Awaits (move env run state n).rec.status.state
  move-Awaits run state n going h =
      elim (tracked_to-state run.store run.rec state (env.clock run.calls n)).1 [
        | inr (kept, (x, refused)) ↦ subst Awaits (sym kept) h
        | inl (moved, inl same) ↦ subst Awaits (sym (moved ∙ sym same)) h
        | inl (moved, inr legal) ↦
            subst Awaits (sym moved) (Awaits-going run.rec.status.state state h going legal)
      ]

  pub move-terminal :
      (run : Run) (state : State) (n : ℕ)
      → terminal state ≡ true
      → Awaits run.rec.status.state
      → (move env run state n).rec.status.state ≡ state
  move-terminal run state n over h =
      elim (tracked_to-state run.store run.rec state (env.clock run.calls n)).1 [
        | inl (moved, how) ↦ moved
        | inr (kept, (x, refused)) ↦
            ground (arith, refused, Awaits-terminal run.rec.status.state state h over)
      ]

  pub finish-Recorded :
      (run : Run) (state : State) (r : RunResult) (n : ℕ)
      → terminal state ≡ true
      → Awaits run.rec.status.state
      → ((finish env run state (some r) n).rec.status.state ≡ state)
        × ((finish env run state (some r) n).rec.result ≡ some (bounded r))
  unfolding finish
  finish-Recorded run state r n over h =
      let ready : Run = record run { rec = record run.rec { result = some (bounded r) } } in
      (
        move-terminal ready state n over h,
        (tracked_to-state ready.store ready.rec state (env.clock ready.calls n)).0,
      )

  -- A pending attempt is submitted when a provider accepts it.
  abbrev sent : Run → Submission → Run
  sent run sub =
      move env
        (record run {
          rec = record run.rec { status = record run.rec.status { provider_id = sub.provider_id } };
        })
        State.submitted 0

  sent-submitted :
      (run : Run) (sub : Submission)
      → run.rec.status.state ≡ State.pending
      → (sent run sub).rec.status.state ≡ State.submitted
  unfolding tracked_to to transition valid can_transition
  sent-submitted run sub new = ground (arith, new)

  accept-Awaits :
      (run : Run) (sub : Submission)
      → run.rec.status.state ≡ State.pending
      → sub.result ≡ none
      → terminal sub.state ≡ false
      → Awaits (accept env run sub).rec.status.state
  unfolding accept
  accept-Awaits run sub new queued going =
      subst (λ (r : Run). Awaits r.rec.status.state) {x = move env (sent run sub) sub.state 1}
        {y = accept env run sub} (ground (arith, queued))
        (move-Awaits (sent run sub) sub.state 1 going (inl (sent-submitted run sub new)))

  -- The record of a run that ended in a state with a result.
  abbrev EndsAs : State → RunResult → Run → Type 0
  EndsAs state r run = (run.rec.status.state ≡ state) × (run.rec.result ≡ some (bounded r))

  accept-EndsAs :
      (run : Run) (sub : Submission) (r : RunResult)
      → run.rec.status.state ≡ State.pending
      → sub.result ≡ some r
      → terminal sub.state ≡ true
      → EndsAs sub.state r (accept env run sub)
  unfolding accept
  accept-EndsAs run sub r new done over =
      subst (EndsAs sub.state r) {x = finish env (sent run sub) sub.state (some r) 1}
        {y = accept env run sub} (ground (arith, done))
        (finish-Recorded (sent run sub) sub.state r 1 over (inl (sent-submitted run sub new)))

  module _ (p : Provider) where
    pub release_run-rec : (run : Run) → (release_run env p run).rec ≡ run.rec
    unfolding release_run
    release_run-rec run =
        let told = calling_only env p run Call.released p.release in
        elim (Bool-cases p.leaves_behind) [
          | inr nothing ↦ ground (arith, nothing)
          | inl something ↦ elim (Option-cases told.1) [
            | inl fine ↦ ground (arith, something, fine)
            | inr (e, failed) ↦ elim (Bool-cases (is_marked Mark.unknown_execution e)) [
              | inl unknown ↦ ground (arith, something, failed, unknown)
              | inr known ↦ ground (arith, something, failed, known)
            ]
          ]
        ]

    released-EndsAs :
        (run : Run) (state : State) (r : RunResult)
        → EndsAs state r run
        → EndsAs state r (release_run env p run)
    released-EndsAs run state r h = rw (release_run-rec run) h

    recorded :
        (ended : Run) (state : State) (r : RunResult) (streamed : Bool) (err : Option Failure)
        → EndsAs state r (release_run env p ended)
        → Recorded (
            some (
              release_run env p ended,
              record { state = state; result = some r; streamed = streamed },
              err,
            ))
    recorded ended state r streamed none h = h
    recorded ended state r streamed (some e) h = tt

    collect-Recorded :
        (run : Run) (watched : Result Failure State)
        → IsOver watched
        → Awaits run.rec.status.state
        → Recorded (some (collect env p run watched))
    unfolding collect
    collect-Recorded run (Result.err x) over h = tt
    collect-Recorded run (Result.ok state) over h =
        let told = calling env p run Call.fetched p.fetch in
        elim (Result-cases told.1) [
          | inr (x, failed) ↦
              subst Recorded
                {x = some (finish env told.0 state none 0, no_answer (env.wrote run.calls), some x)}
                {y = some (collect env p run (Result.ok state))} (ground (arith, failed)) tt
          | inl (r, fetched) ↦
              let a : Answered = record {
                state = state;
                result = some r;
                streamed = env.wrote run.calls;
              } in
              let err =
                if state_eq state State.cancelled
                then some (Failure.classified (infrastructure_error none))
                else none in
              let ended = finish env told.0 state (some r) 0 in
              subst Recorded {x = some (release_run env p ended, a, err)}
                {y = some (collect env p run (Result.ok state))} (ground (arith, fetched))
                (recorded ended state r (env.wrote run.calls) err
                  (released-EndsAs ended state r (finish-Recorded told.0 state r 0 over h)))
        ]

    follow-Recorded :
        (poll : Poll) (fuel : ℕ) (shown : State) (run : Run)
        → Awaits run.rec.status.state
        → Recorded (follow env p poll fuel shown run)
    unfolding follow
    follow-Recorded poll fuel shown run h =
        let waits : Run → Type 0 = λ r. Awaits r.rec.status.state in
        let kept =
          watch-Kept env p waits (λ r n k. k) (λ r k. k)
            (λ r state going k. move-Awaits r state 0 going k) poll fuel 0 shown run h in
        elim (Option-cases (watch env p poll fuel 0 shown run)) [
          | inl unfinished ↦ subst Recorded {x = none} (ground (arith, unfinished)) tt
          | inr ((watched, out), ended) ↦
              let (awaits, over) = subst (Kept waits) ended kept in
              subst Recorded {x = some (collect env p watched out)} (ground (arith, ended))
                (collect-Recorded watched out over awaits)
        ]

    send-pending :
        (run : Run) (members : List String)
        → run.rec.status.state ≡ State.pending
        → (send env p run members).0.rec.status.state ≡ State.pending
    unfolding send
    send-pending run members new = new

    -- An attempt that is pending when it is executed and is answered without an error has its own record
    -- end in the state of the answer, with the answer's result, its logs bounded.
    pub execute-Recorded :
        (poll : Poll) (fuel : ℕ) (members : List String) (run : Run)
        → run.rec.status.state ≡ State.pending
        → Recorded (execute env p poll fuel members run)
    unfolding execute
    execute-Recorded poll fuel members run new =
        let told = (send env p run members).0 in
        elim (send-submission_valid env p run members) [
          | inl (x, failed) ↦
              subst Recorded {x = some (fail env told x, no_answer false, some x)}
                (ground (arith, failed)) tt
          | inr (sub, sent_on, sound) ↦ elim (Option-cases sub.result) [
            | inr (r, done) ↦
                let a : Answered = record {
                  state = sub.state;
                  result = some r;
                  streamed = false;
                } in
                subst Recorded {x = some (release_run env p (accept env told sub), a, none)}
                  (ground (arith, sent_on, done))
                  (recorded (accept env told sub) sub.state r false none (
                    released-EndsAs (accept env told sub) sub.state r (
                      accept-EndsAs told sub r (send-pending run members new) done
                        (valid-terminal sub r sound done))))
            | inl queued ↦
                subst Recorded {x = follow env p poll fuel sub.state (accept env told sub)}
                  (ground (arith, sent_on, queued))
                  (follow-Recorded poll fuel sub.state (accept env told sub) (
                    accept-Awaits told sub (send-pending run members new) queued
                      (valid-going sub sound queued)))
          ]
        ]
