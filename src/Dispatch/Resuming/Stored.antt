-- ===== src/Dispatch/Resuming/Stored.antt =====
-- internal/dispatch/poll.go: what an attempt writes to the store is what its own record says, while
-- nobody else writes to that record.
use vagabond.Dispatch.Resuming.Written.{At, tracked_to-At, renamed-At, mark_released-At}
use vagabond.Dispatch.Polling.Waiting.{watch-Kept, Kept}
use vagabond.Plugin.Failure.{Failure, is_marked, Mark}
use vagabond.Dispatch.Polling.{
  Around, Run, fail, move, Provider, finish, release_run, collect, follow, abandon, failure_text,
  calling_only, Poll, Call, Answered, calling, mark_done, watch,
}
use vagabond.Base.{
  ℕ, ◌≡◌, Bool-cases, arith, inl, some, inr, refl, Option-cases, Option, Result, subst, none,
  Result-cases,
}
use vagabond.Execution.State.{State, state_eq}
use vagabond.Stores.Executions.{Executions, RunResult, bounded}

module _ (s0 : Executions) (id : ℕ) where
  -- A run, by its store and its record.
  abbrev pub IsAt : Run → Type 0
  IsAt run = At s0 id run.store run.rec

  module _ (env : Around) where
    pub move-At : (run : Run) (next : State) (n : ℕ) → IsAt run → IsAt (move env run next n)
    move-At run next n h = tracked_to-At s0 id run.store run.rec next (env.clock run.calls n) h

    pub fail-At : (run : Run) (e : Failure) → IsAt run → IsAt (fail env run e)
    unfolding fail
    fail-At run e h =
        let named = record run { rec = record run.rec { failure = failure_text e } } in
        let given = renamed-At s0 id run.store run.rec named.rec refl refl h in
        elim (Bool-cases (state_eq run.rec.status.state State.pending)) [
          | inl waiting ↦
              subst IsAt {x = move env named State.failed 0} {y = fail env run e}
                (ground (arith, waiting)) (move-At named State.failed 0 given)
          | inr sent ↦
              subst IsAt {x = move env named State.lost 0} {y = fail env run e}
                (ground (arith, sent)) (move-At named State.lost 0 given)
        ]

    finish-At :
        (run : Run) (state : State) (result : Option RunResult) (n : ℕ)
        → IsAt run
        → IsAt (finish env run state result n)
    unfolding finish
    finish-At run state result n h =
        let ended = record run {
          rec = record run.rec { result = elim result [ none ↦ none | some r ↦ some (bounded r) ] };
        } in
        move-At ended state n (renamed-At s0 id run.store run.rec ended.rec refl refl h)

    module _ (p : Provider) where
      release_run-At : (run : Run) → IsAt run → IsAt (release_run env p run)
      unfolding release_run
      release_run-At run h =
          let (told, out) = calling_only env p run Call.released p.release in
          let freed : Run → Run = mark_done env p in
          let marked : (r : Run) → IsAt r → IsAt (freed r) =
            λ r k. mark_released-At s0 id r.store r.rec (env.clock r.calls 2) k in
          elim (Bool-cases p.leaves_behind) [
            | inr nothing ↦
                subst IsAt {x = freed run} {y = release_run env p run} (ground (arith, nothing))
                  (marked run h)
            | inl something ↦ elim (Option-cases out) [
              | inl fine ↦
                  subst IsAt {x = freed told} {y = release_run env p run}
                    (ground (arith, something, fine)) (marked told h)
              | inr (e, failed) ↦ elim (Bool-cases (is_marked Mark.unknown_execution e)) [
                | inl unknown ↦
                    subst IsAt {x = freed told} {y = release_run env p run}
                      (ground (arith, something, failed, unknown)) (marked told h)
                | inr known ↦
                    subst IsAt {x = told} {y = release_run env p run}
                      (ground (arith, something, failed, known)) h
              ]
            ]
          ]

      abandon-At : (run : Run) → IsAt run → IsAt (abandon env p run)
      unfolding abandon
      abandon-At run h = h

      collect-At :
          (run : Run) (watched : Result Failure State)
          → IsAt run
          → IsAt (collect env p run watched).0
      unfolding collect
      collect-At run (Result.err x) h = elim (Bool-cases (env.gave_up run.calls)) [
        | inl left ↦
            subst IsAt {x = move env (abandon env p run) State.cancelled 0}
              {y = (collect env p run (Result.err x)).0} (ground (arith, left))
              (move-At (abandon env p run) State.cancelled 0 (abandon-At run h))
        | inr stays ↦
            subst IsAt {x = fail env run x} {y = (collect env p run (Result.err x)).0}
              (ground (arith, stays)) (fail-At run x h)
      ]
      collect-At run (Result.ok state) h =
          let told = calling env p run Call.fetched p.fetch in
          elim (Result-cases told.1) [
            | inr (x, failed) ↦
                subst IsAt {x = finish env told.0 state none 0}
                  {y = (collect env p run (Result.ok state)).0} (ground (arith, failed))
                  (finish-At told.0 state none 0 h)
            | inl (r, fetched) ↦
                let ended = finish env told.0 state (some r) 0 in
                subst IsAt {x = release_run env p ended}
                  {y = (collect env p run (Result.ok state)).0} (ground (arith, fetched))
                  (release_run-At ended (finish-At told.0 state (some r) 0 h))
          ]

      pub follow-At :
          (poll : Poll) (fuel : ℕ) (shown : State) (run : Run)
          (out : Run × Answered × Option Failure)
          → IsAt run
          → follow env p poll fuel shown run ≡ some out
          → IsAt out.0
      unfolding follow
      follow-At poll fuel shown run out h ended =
          let kept =
            watch-Kept env p IsAt (λ r n k. k) (λ r k. k) (λ r state going k. move-At r state 0 k)
              poll fuel 0 shown run h in
          elim (Option-cases (watch env p poll fuel 0 shown run)) [
            | inl none_yet ↦ absurd (ground (arith, ended, none_yet))
            | inr ((watched, told), over) ↦
                subst (λ (o : Run × Answered × Option Failure). IsAt o.0)
                  {x = collect env p watched told} {y = out} (ground (arith, ended, over))
                  (collect-At watched told (subst (Kept IsAt) over kept).0)
          ]
