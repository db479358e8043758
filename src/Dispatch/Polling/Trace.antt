-- ===== src/Dispatch/Polling/Trace.antt =====
-- internal/dispatch/poll.go: the calls that an attempt makes.
use vagabond.Dispatch.Polling.Counts.{
  is_release, authorized-count, authorized-again, is_submit, count, is_cancel,
}
use vagabond.Dispatch.Polling.Answers.{send-submission_valid}
use vagabond.Dispatch.Polling.{
  execute, send, Call, authorized, Around, Provider, Poll, Run, calling, watch, accept, release_run,
  collect, fail, Answered, abandon, nothing_or_error, calling_only, finish, Submission, move,
  follow, no_answer,
}
use vagabond.Stores.Executions.{RunResult}
use vagabond.Dispatch.Polling.Waiting.{Kept, watch-Kept}
use vagabond.Execution.State.{State, state_eq}
use vagabond.Plugin.Failure.{Failure, is_marked, Mark, infrastructure_error}
use vagabond.Base.{
  [], ◌∷◌, Bool, List, true, Result, ℕ, false, if◌then◌else◌, ◌≡◌, ◌≤◌, inl, ◌⊎◌, arith,
  Result-cases, inr, refl, Bool-cases, Option, some, none, Option-cases, subst, String, sym, ◌∙◌,
}

module _ (env : Around) where
  module _ (p : Provider) where
    -- The first submission was refused as unauthorized, and after it there was a new credential.
    abbrev pub Renewed : Type 0
    Renewed =
        (c : Call) × (e : Failure) × (is_submit c ≡ true)
        × (p.submit [] ≡ Result.err e)
        × (is_marked Mark.unauthorized e ≡ true)
        × (env.recredential (c ∷ []) ≡ Result.ok true)

    -- One submission, or a second one on a new credential.
    abbrev pub SubmitsOnce : List Call → Type 0
    SubmitsOnce l = (count is_submit l ≤ 1) ⊎ ((count is_submit l ≤ 2) × Renewed)

    SubmitsOnce-same :
        (l m : List Call) → count is_submit m ≡ count is_submit l → SubmitsOnce l → SubmitsOnce m
    SubmitsOnce-same l m same (inl once) = inl (omega (arith, same, once))
    SubmitsOnce-same l m same (inr (twice, renewed)) = inr (omega (arith, same, twice), renewed)

    -- No release and no cancellation, and the submissions of `submit`.
    abbrev Quiet : Run → Type 0
    Quiet run =
        (count is_release run.calls ≡ 0) × (count is_cancel run.calls ≡ 0) × SubmitsOnce run.calls

    submitted-SubmitsOnce :
        (id : ℕ) (named : List String)
        → SubmitsOnce (authorized env (Call.submitted id named) p.submit []).0
    submitted-SubmitsOnce id named =
        let call = Call.submitted id named in
        elim (authorized-again env call p.submit []) [
          | inl (inl once) ↦ inl (rw once (omega arith))
          | inl (inr asked) ↦ inl (rw asked (omega arith))
          | inr (twice, (e, failed, unauthorized, found)) ↦
              inr (rw twice (omega arith), (call, e, refl, failed, unauthorized, found))
        ]

    Quiet-calling :
        {T : Type 0} (run : Run) (call : Call) (answer : List Call → Result Failure T)
        → is_release call ≡ false
        → is_cancel call ≡ false
        → is_submit call ≡ false
        → Quiet run
        → Quiet (calling env p run call answer).0
    Quiet-calling run call answer a b c h = (
      ground (arith, h.0, a, authorized-count env is_release call answer run.calls refl),
      ground (arith, h.1, b, authorized-count env is_cancel call answer run.calls refl),
      SubmitsOnce-same run.calls (authorized env call answer run.calls).0
          ((authorized-count env is_submit call answer run.calls refl).0 c) h.2,
    )

    watch-Quiet :
        (poll : Poll) (fuel n : ℕ) (shown : State) (run : Run)
        → Quiet run
        → Kept Quiet (watch env p poll fuel n shown run)
    watch-Quiet =
        watch-Kept env p Quiet (λ run wait h. h)
          (λ run h. Quiet-calling run Call.asked p.status refl refl refl h) (λ run state going h. h)

    fail-calls : (run : Run) (e : Failure) → (fail env run e).calls ≡ run.calls
    unfolding fail
    fail-calls run e = ground arith

    accept-calls : (run : Run) (sub : Submission) → (accept env run sub).calls ≡ run.calls
    unfolding accept finish
    accept-calls run sub = ground arith

    release_run-count :
        (kind : Call → Bool) (run : Run)
        → kind Call.recredentialed ≡ false
        → kind Call.released ≡ false
        → count kind (release_run env p run).calls ≡ count kind run.calls
    unfolding release_run
    release_run-count kind run other this =
        let told = calling_only env p run Call.released p.release in
        let counted =
          authorized-count env kind Call.released (λ h. nothing_or_error (p.release h)) run.calls
            other in
        elim (Bool-cases p.leaves_behind) [
          | inr nothing ↦ ground (arith, nothing)
          | inl something ↦ elim (Option-cases told.1) [
            | inl fine ↦ ground (arith, something, fine, counted, this)
            | inr (e, failed) ↦ elim (Bool-cases (is_marked Mark.unknown_execution e)) [
              | inl unknown ↦ ground (arith, something, failed, unknown, counted, this)
              | inr known ↦ ground (arith, something, failed, known, counted, this)
            ]
          ]
        ]

    abandon-count :
        (kind : Call → Bool) (run : Run)
        → kind Call.recredentialed ≡ false
        → kind Call.cancelled ≡ false
        → count kind (abandon env p run).calls ≡ count kind run.calls
    unfolding abandon
    abandon-count kind run other this = ground (
      arith,
      this,
      authorized-count env kind Call.cancelled (λ h. nothing_or_error (p.cancel h)) run.calls other,
    )

    -- What the calls say of how the attempt ended.
    abbrev pub Traced : Option (Run × Answered × Option Failure) → Type 0
    Traced none = Unit
    Traced (some (run, a, err)) =
        SubmitsOnce run.calls
        × ((count is_release run.calls ≡ 0) ⊎ ((r : RunResult) × (a.result ≡ some r)))
        × ((count is_cancel run.calls ≡ 0)
            ⊎ ((a.result ≡ none) × ((h : List Call) × (env.gave_up h ≡ true))))

    Traced-Quiet :
        (run : Run) (a : Answered) (err : Option Failure) → Quiet run → Traced (some (run, a, err))
    Traced-Quiet run a err h = (h.2, inl h.0, inl h.1)

    Traced-released :
        (run : Run) (a : Answered) (err : Option Failure) (r : RunResult)
        → a.result ≡ some r
        → Quiet run
        → Traced (some (release_run env p run, a, err))
    Traced-released run a err r k h = (
      SubmitsOnce-same run.calls (release_run env p run).calls
          (release_run-count is_submit run refl refl) h.2,
      inr (r, k),
      inl (release_run-count is_cancel run refl refl ∙ h.1),
    )

    collect-Traced :
        (run : Run) (watched : Result Failure State)
        → Quiet run
        → Traced (some (collect env p run watched))
    unfolding collect finish
    collect-Traced run (Result.err x) h = elim (Bool-cases (env.gave_up run.calls)) [
      | inl left ↦
          let stopped = move env (abandon env p run) State.cancelled 0 in
          subst Traced {x = some (stopped, no_answer (env.wrote run.calls), some x)}
            {y = some (collect env p run (Result.err x))} (ground (arith, left))
            (
              SubmitsOnce-same run.calls (abandon env p run).calls
                  (abandon-count is_submit run refl refl) h.2,
              inl (abandon-count is_release run refl refl ∙ h.0),
              inr (refl, (run.calls, left)),
            )
      | inr waiting ↦
          subst Traced {x = some (fail env run x, no_answer (env.wrote run.calls), some x)}
            {y = some (collect env p run (Result.err x))} (ground (arith, waiting))
            (Traced-Quiet (fail env run x) (no_answer (env.wrote run.calls)) (some x)
              (subst (λ l. Quiet (record run { calls = l })) (sym (fail-calls run x)) h))
    ]
    collect-Traced run (Result.ok state) h =
        let told = calling env p run Call.fetched p.fetch in
        let quiet : Quiet told.0 = Quiet-calling run Call.fetched p.fetch refl refl refl h in
        elim (Result-cases told.1) [
          | inr (x, failed) ↦
              subst Traced
                {x = some (finish env told.0 state none 0, no_answer (env.wrote run.calls), some x)}
                {y = some (collect env p run (Result.ok state))} (ground (arith, failed))
                (Traced-Quiet (finish env told.0 state none 0) (no_answer (env.wrote run.calls))
                  (some x) quiet)
          | inl (r, fetched) ↦
              let a : Answered = record {
                state = state;
                result = some r;
                streamed = env.wrote run.calls;
              } in
              let err =
                if state_eq state State.cancelled
                then some (Failure.classified (infrastructure_error none))
                else none in
              subst Traced
                {x = some (release_run env p (finish env told.0 state (some r) 0), a, err)}
                {y = some (collect env p run (Result.ok state))} (ground (arith, fetched))
                (Traced-released (finish env told.0 state (some r) 0) a err r refl quiet)
        ]

    follow-Traced :
        (poll : Poll) (fuel : ℕ) (shown : State) (run : Run)
        → Quiet run
        → Traced (follow env p poll fuel shown run)
    unfolding follow
    follow-Traced poll fuel shown run h =
        let kept = watch-Quiet poll fuel 0 shown run h in
        elim (Option-cases (watch env p poll fuel 0 shown run)) [
          | inl unfinished ↦ subst Traced {x = none} (ground (arith, unfinished)) tt
          | inr ((watched, out), ended) ↦
              let quiet = subst (Kept Quiet) ended kept in
              subst Traced {x = some (collect env p watched out)} (ground (arith, ended))
                (collect-Traced watched out quiet.0)
        ]

    -- An attempt, from no calls made, submits at most once, or twice where the first submission was
    -- refused as unauthorized and the registry answered that the credential is new. It releases what
    -- the provider holds only with a result, and cancels only without one, when the caller gave up.
    pub execute-Traced :
        (poll : Poll) (fuel : ℕ) (members : List String) (run : Run)
        → run.calls ≡ []
        → Traced (execute env p poll fuel members run)
    unfolding execute send
    execute-Traced poll fuel members run new =
        let told = (send env p run members).0 in
        let named = if p.takes_members then members else [] in
        let call = Call.submitted run.rec.status.id named in
        let quiet : Quiet told = (
          ground (arith, new, authorized-count env is_release call p.submit run.calls refl),
          ground (arith, new, authorized-count env is_cancel call p.submit run.calls refl),
          subst (λ l. SubmitsOnce (authorized env call p.submit l).0) (sym new)
              (submitted-SubmitsOnce run.rec.status.id named),
        ) in
        elim (send-submission_valid env p run members) [
          | inl (x, failed) ↦
              subst Traced {x = some (fail env told x, no_answer false, some x)}
                (ground (arith, failed))
                (Traced-Quiet (fail env told x) (no_answer false) (some x)
                  (subst (λ l. Quiet (record told { calls = l })) (sym (fail-calls told x)) quiet))
          | inr (sub, sent, sound) ↦
              let accepted : Quiet (accept env told sub) =
                subst (λ l. Quiet (record told { calls = l })) (sym (accept-calls told sub))
                  quiet in
              elim (Option-cases sub.result) [
                | inr (r, done) ↦
                    let a : Answered = record {
                      state = sub.state;
                      result = some r;
                      streamed = false;
                    } in
                    subst Traced {x = some (release_run env p (accept env told sub), a, none)}
                      (ground (arith, sent, done))
                      (Traced-released (accept env told sub) a none r refl accepted)
                | inl queued ↦
                    subst Traced {x = follow env p poll fuel sub.state (accept env told sub)}
                      (ground (arith, sent, queued))
                      (follow-Traced poll fuel sub.state (accept env told sub) accepted)
              ]
        ]
