-- ===== src/Dispatch/Resuming/Ending.antt =====
-- internal/dispatch/resume.go: how an execution that is followed or given up ends.

use vagabond.Base.{
  Result-cases, Bool-cases, inl, inr, ℕ, suc, ◌≤◌, List, subst, none, some, Option, ◌≡◌, true, ◌⊎◌,
  false, Result, refl, arith,
}
use vagabond.Dispatch.Polling.Waiting.{IsOver, asked_times, EndsWait, watch-Kept, watch-ends, Kept}
use vagabond.Plugin.Failure.{Failure}
use vagabond.Dispatch.Polling.Recording.{
  Awaits, move-terminal, finish-Recorded, release_run-rec, move-Awaits,
}
use vagabond.Execution.Status.{to}
use vagabond.Execution.State.{valid, terminal, State, transition, can_transition}
use vagabond.Dispatch.Polling.{
  Around, fail, Provider, collect, abandon, Run, move, calling, Call, finish, follow, Poll,
  Answered,
}
use vagabond.Stores.Executions.{Record, tracked_to}

-- An execution that is over, or that the reaper is left to ask about.
abbrev pub IsSettled : Record → Type 0
IsSettled r = (terminal r.status.state ≡ true) ⊎ (r.status.state ≡ State.lost)

-- An execution that was recorded with a state of the program, and waits for its submission or end.
abbrev pub IsUnfinished : Record → Type 0
IsUnfinished r = (r.status.state ≡ State.pending) ⊎ Awaits r.status.state

pub unfinished :
    (r : Record) → valid r.status.state ≡ true → terminal r.status.state ≡ false → IsUnfinished r
unfolding valid terminal
unfinished r known going = ground (arith, known, going)

IsSettled-at :
    (r : Record) (run : Run) (state : State)
    → terminal state ≡ true
    → run.rec.status.state ≡ state
    → r ≡ run.rec
    → IsSettled r
IsSettled-at r run state over there same = rw same (inl (rw there over))

cancelled-terminal : terminal State.cancelled ≡ true
unfolding terminal
cancelled-terminal = refl

module _ (env : Around) where
  finish-none-state :
      (run : Run) (state : State)
      → terminal state ≡ true
      → Awaits run.rec.status.state
      → (finish env run state none 0).rec.status.state ≡ state
  unfolding finish
  finish-none-state run state over h =
      move-terminal env (record run { rec = record run.rec { result = none } }) state 0 over h

  pub fail-IsSettled :
      (run : Run) (e : Failure) → IsUnfinished run.rec → IsSettled (fail env run e).rec
  unfolding fail tracked_to to transition valid can_transition terminal
  fail-IsSettled run e h = ground (arith, h)

  module _ (p : Provider) where
    abandon-rec : (run : Run) → (abandon env p run).rec ≡ run.rec
    unfolding abandon
    abandon-rec run = refl

    collect-IsSettled :
        (run : Run) (watched : Result Failure State)
        → IsOver watched
        → Awaits run.rec.status.state
        → IsSettled (collect env p run watched).0.rec
    unfolding collect
    collect-IsSettled run (Result.err x) over h = elim (Bool-cases (env.gave_up run.calls)) [
      | inl left ↦
          IsSettled-at (collect env p run (Result.err x)).0.rec
            (move env (abandon env p run) State.cancelled 0) State.cancelled cancelled-terminal
            (move-terminal env (abandon env p run) State.cancelled 0 cancelled-terminal
              (rw (abandon-rec run) h))
            (ground (arith, left))
      | inr stays ↦
          subst IsSettled {x = (fail env run x).rec} {y = (collect env p run (Result.err x)).0.rec}
            (ground (arith, stays)) (fail-IsSettled run x (inr h))
    ]
    collect-IsSettled run (Result.ok state) over h =
        let told = calling env p run Call.fetched p.fetch in
        elim (Result-cases told.1) [
          | inr (x, failed) ↦
              let ended = finish env told.0 state none 0 in
              IsSettled-at (collect env p run (Result.ok state)).0.rec ended state over
                (finish-none-state told.0 state over h) (ground (arith, failed))
          | inl (r, fetched) ↦
              let ended = finish env told.0 state (some r) 0 in
              IsSettled-at (collect env p run (Result.ok state)).0.rec ended state over
                (finish-Recorded env told.0 state r 0 over h).0
                (ground (arith, fetched, release_run-rec env p ended))
        ]

    pub follow-IsSettled :
        (poll : Poll) (k : ℕ)
        → ((h : List Call) → k ≤ asked_times h → EndsWait (p.status h))
        → (shown : State) (run : Run) → Awaits run.rec.status.state
        → (out : Run × Answered × Option Failure) × (follow env p poll (suc k) shown run ≡ some out)
          × IsSettled out.0.rec
    unfolding follow
    follow-IsSettled poll k ends shown run h =
        let waits : Run → Type 0 = λ r. Awaits r.rec.status.state in
        let kept =
          watch-Kept env p waits (λ r n k. k) (λ r k. k)
            (λ r state going k. move-Awaits env r state 0 going k) poll (suc k) 0 shown run h in
        let ((watched, out), ended) = watch-ends env p poll k ends 0 shown run in
        let (awaits, over) = subst (Kept waits) ended kept in
        (
          collect env p watched out,
          ground (arith, ended),
          collect-IsSettled watched out over awaits,
        )
