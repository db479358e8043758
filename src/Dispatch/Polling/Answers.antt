-- ===== src/Dispatch/Polling/Answers.antt =====
-- internal/dispatch/poll.go: what `execute` takes for an answer.
use vagabond.Dispatch.Polling.{
  execute, follow, send, finish, fail, no_answer, release_run, accept, Around, Answered, Provider,
  collect, watch, Run, Poll, submission_valid, Submission, calling, Call,
}
use vagabond.Dispatch.Polling.Waiting.{watch-Kept, IsOver, Kept}
use vagabond.Stores.Executions.{RunResult}
use vagabond.Plugin.Failure.{
  Failure, reroutable, class_reroutable, infrastructure_error, internal_error, Mark,
}
use vagabond.Base.{
  Option, ◌≡◌, true, ◌⊎◌, ℕ, Result, some, arith, none, Option-cases, List, inl, String,
  Result-cases, subst, inr, if◌then◌else◌, [], Bool-cases, false, refl,
}
use vagabond.Execution.State.{terminal, State}

-- An answer is a result with the state of success or failure; an error has neither, but for a
-- provider's cancellation, which comes with its result.
abbrev pub IsAnswer : Answered → Option Failure → Type 0
IsAnswer a none =
    ((a.state ≡ State.succeeded) ⊎ (a.state ≡ State.failed))
    × ((r : RunResult) × (a.result ≡ some r))
IsAnswer a (some e) = (a.result ≡ none) ⊎ ((a.state ≡ State.cancelled) × (reroutable e ≡ true))

pub terminal-cases :
    (s : State)
    → terminal s ≡ true
    → (s ≡ State.succeeded) ⊎ ((s ≡ State.failed) ⊎ (s ≡ State.cancelled))
unfolding terminal
terminal-cases s h = ground arith

abbrev pub Answers : Option (Run × Answered × Option Failure) → Type 0
Answers none = Unit
Answers (some (run, a, err)) = IsAnswer a err

module _ (env : Around) (p : Provider) where
  collect_lem :
      (run : Run) (watched : Result Failure State)
      → IsOver watched
      → Answers (some (collect env p run watched))
  unfolding collect reroutable class_reroutable infrastructure_error
  collect_lem run (Result.err x) h = inl refl
  collect_lem run (Result.ok state) h =
      elim (Result-cases (calling env p run Call.fetched p.fetch).1) [
        | inr (x, failed) ↦
            subst Answers
              {x = some (
                finish env (calling env p run Call.fetched p.fetch).0 state none 0,
                no_answer (env.wrote run.calls),
                some x,
              )}
              {y = some (collect env p run (Result.ok state))} (ground (arith, failed)) (inl refl)
        | inl (r, fetched) ↦
            let done =
              release_run env p
                (finish env (calling env p run Call.fetched p.fetch).0 state (some r) 0) in
            let a : Answered = record {
              state = state;
              result = some r;
              streamed = env.wrote run.calls;
            } in
            elim (terminal-cases state h) [
              | inl good ↦
                  subst Answers {x = some (done, a, none)}
                    {y = some (collect env p run (Result.ok state))} (ground (arith, fetched, good))
                    (inl good, (r, refl))
              | inr (inl bad) ↦
                  subst Answers {x = some (done, a, none)}
                    {y = some (collect env p run (Result.ok state))} (ground (arith, fetched, bad))
                    (inr bad, (r, refl))
              | inr (inr stopped) ↦
                  subst Answers
                    {x = some (done, a, some (Failure.classified (infrastructure_error none)))}
                    {y = some (collect env p run (Result.ok state))}
                    (ground (arith, fetched, stopped)) (inr (stopped, refl))
            ]
      ]

  follow-Answers :
      (poll : Poll) (fuel : ℕ) (shown : State) (run : Run)
      → Answers (follow env p poll fuel shown run)
  unfolding follow
  follow-Answers poll fuel shown run =
      let kept =
        watch-Kept env p (λ r. Unit) (λ r w h. tt) (λ r h. tt) (λ r s t h. tt) poll fuel 0 shown run
          tt in
      elim (Option-cases (watch env p poll fuel 0 shown run)) [
        | inl unfinished ↦ subst Answers {x = none} (ground (arith, unfinished)) tt
        | inr ((watched, out), ended) ↦
            let over = subst (Kept (λ r. Unit)) ended kept in
            subst Answers {x = some (collect env p watched out)} (ground (arith, ended))
              (collect_lem watched out over.1)
      ]

  submission_valid-some :
      (sub : Submission) (r : RunResult)
      → submission_valid sub ≡ true
      → sub.result ≡ some r
      → (sub.state ≡ State.succeeded) ⊎ (sub.state ≡ State.failed)
  unfolding submission_valid terminal
  submission_valid-some sub r h k = ground (arith, h, k)

  -- A submission that `send` passes on is valid.
  pub send-submission_valid :
      (run : Run) (members : List String)
      → ((x : Failure) × ((send env p run members).1 ≡ Result.err x))
        ⊎ ((sub : Submission) × ((send env p run members).1 ≡ Result.ok sub)
            × (submission_valid sub ≡ true))
  unfolding send
  send-submission_valid run members =
      let named = if p.takes_members then members else [] in
      elim (Result-cases (calling env p run (Call.submitted run.rec.status.id named) p.submit).1) [
        | inr (x, failed) ↦ inl (x, ground (arith, failed))
        | inl (sub, sent) ↦ elim (Bool-cases (submission_valid sub)) [
          | inl sound ↦ inr (sub, ground (arith, sent, sound), sound)
          | inr unsound ↦ inl (
            Failure.classified (internal_error (some Mark.invalid_submission)),
            ground (arith, sent, unsound),
          )
        ]
      ]

  -- Whatever the provider answers, `execute` returns without an error only with a result and the state
  -- of success or failure, and with an error only without a result, or with that of an execution
  -- that the provider cancelled, which may be rerouted.
  pub execute-Answers :
      (poll : Poll) (fuel : ℕ) (members : List String) (run : Run)
      → Answers (execute env p poll fuel members run)
  unfolding execute
  execute-Answers poll fuel members run =
      let told = (send env p run members).0 in
      elim (send-submission_valid run members) [
        | inl (x, failed) ↦
            subst Answers {x = some (fail env told x, no_answer false, some x)}
              (ground (arith, failed)) (inl refl)
        | inr (sub, sent, sound) ↦ elim (Option-cases sub.result) [
          | inr (r, done) ↦
              subst Answers
                {x = some (
                  release_run env p (accept env told sub),
                  record { state = sub.state; result = some r; streamed = false },
                  none,
                )}
                (ground (arith, sent, done)) (submission_valid-some sub r sound done, (r, refl))
          | inl queued ↦
              subst Answers {x = follow env p poll fuel sub.state (accept env told sub)}
                (ground (arith, sent, queued))
                (follow-Answers poll fuel sub.state (accept env told sub))
        ]
      ]
