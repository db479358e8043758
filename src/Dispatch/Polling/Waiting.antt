-- ===== src/Dispatch/Polling/Waiting.antt =====
-- internal/dispatch/poll.go: the loop of `watch`, what it keeps and how many polls it takes.
use mathlib.Core.Bool.{false≢true}
use vagabond.Execution.Status.{Status}
use vagabond.Execution.State.{State, terminal, state_eq}
use vagabond.Plugin.Failure.{Failure, is_marked, Mark}
use vagabond.Base.{
  ◌∷◌, Result, Option, ℕ, some, ◌≡◌, none, true, false, suc, Option-cases, inr, subst, arith, inl,
  Result-cases, Bool-cases, ◌+◌, zero, List, [], ◌≤◌, ◌<◌, ◌⊎◌, refl, sym, ◌∙◌,
}
use vagabond.Dispatch.Polling.{
  Run, Around, Provider, Poll, Call, interval, calling, move, watch, authorized,
}

-- A state that `watch` returns is terminal.
abbrev pub IsOver : Result Failure State → Type 0
IsOver (Result.ok state) = terminal state ≡ true
IsOver (Result.err x) = Unit

abbrev pub Kept : (Run → Type 0) → Option (Run × Result Failure State) → Type 0
Kept P none = Unit
Kept P (some (run, out)) = P run × IsOver out

module _ (env : Around) (p : Provider) where
  -- The calls of one poll.
  abbrev pub rested : Poll → ℕ → Run → Run
  rested poll n run = record run { calls = Call.slept (interval poll n) ∷ run.calls }

  abbrev pub polled : Poll → ℕ → Run → Run × Result Failure Status
  polled poll n run = calling env p (rested poll n run) Call.asked p.status

  -- What sleeping, asking and recording a state that is not terminal keep, the loop keeps.
  module _ (P : Run → Type 0)
      (sleeps : (run : Run) (wait : ℕ)
        → P run
        → P (record run { calls = Call.slept wait ∷ run.calls }))
      (asks : (run : Run) → P run → P (calling env p run Call.asked p.status).0)
      (moves : (run : Run) (state : State)
        → terminal state ≡ false
        → P run
        → P (move env run state 0)) where
    pub watch-Kept :
        (poll : Poll) (fuel n : ℕ) (shown : State) (run : Run)
        → P run
        → Kept P (watch env p poll fuel n shown run)
    unfolding watch
    watch-Kept poll zero n shown run h = tt
    watch-Kept poll (suc fuel) n shown run h =
        let slept = sleeps run (interval poll n) h in
        let told = asks (rested poll n run) slept in
        elim (Option-cases (env.interrupted (rested poll n run).calls)) [
          | inr (x, stopped) ↦
              subst (Kept P) {x = some (rested poll n run, Result.err x)} (ground (arith, stopped))
                (slept, tt)
          | inl awake ↦ elim (Result-cases (polled poll n run).1) [
            | inr (x, failed) ↦
                subst (Kept P) {x = some ((polled poll n run).0, Result.err x)}
                  (ground (arith, awake, failed)) (told, tt)
            | inl (st, answered) ↦ elim (Bool-cases (terminal st.state)) [
              | inl over ↦
                  subst (Kept P) {x = some ((polled poll n run).0, Result.ok st.state)}
                    (ground (arith, awake, answered, over)) (told, over)
              | inr going ↦ elim (Bool-cases (state_eq st.state shown)) [
                | inl same ↦
                    subst (Kept P)
                      {x = watch env p poll fuel (n + 1) st.state (polled poll n run).0}
                      (ground (arith, awake, answered, going, same))
                      (watch-Kept poll fuel (n + 1) st.state (polled poll n run).0 told)
                | inr changed ↦
                    let moved = move env (polled poll n run).0 st.state 0 in
                    subst (Kept P) {x = watch env p poll fuel (n + 1) st.state moved}
                      (ground (arith, awake, answered, going, changed))
                      (watch-Kept poll fuel (n + 1) st.state moved
                        (moves (polled poll n run).0 st.state going told))
              ]
            ]
          ]
        ]

-- How often the provider was asked for the status.
abbrev pub asked_times : List Call → ℕ
asked_times [] = 0
asked_times (Call.asked ∷ h) = suc (asked_times h)
asked_times (c ∷ h) = asked_times h

-- The answer to a status call ends the wait: it is an error or a terminal state.
abbrev pub EndsWait : Result Failure Status → Type 0
EndsWait (Result.ok st) = terminal st.state ≡ true
EndsWait (Result.err x) = Unit

module _ (env : Around) where
  -- `authorized` makes a call once, or once more after the credential was resolved again.
  pub authorized-cases :
      {T : Type 0} (call : Call) (answer : List Call → Result Failure T) (h : List Call)
      → let after = (authorized env call answer h).0 in
        (after ≡ call ∷ h)
        ⊎ ((after ≡ Call.recredentialed ∷ call ∷ h)
            ⊎ (after ≡ call ∷ Call.recredentialed ∷ call ∷ h))
  unfolding authorized
  authorized-cases call answer h = elim (Result-cases (answer h)) [
    | inl (x, fine) ↦ inl (ground (arith, fine))
    | inr (e, failed) ↦ elim (Bool-cases (is_marked Mark.unauthorized e)) [
      | inr other ↦ inl (ground (arith, failed, other))
      | inl unauthorized ↦ elim (Result-cases (env.recredential (call ∷ h))) [
        | inr (x, lost) ↦ inr (inl (ground (arith, failed, unauthorized, lost)))
        | inl (retry, found) ↦ elim (Bool-cases retry) [
          | inl again ↦ inr (inr (ground (arith, failed, unauthorized, found, again)))
          | inr over ↦ inr (inl (ground (arith, failed, unauthorized, found, over)))
        ]
      ]
    ]
  ]

module _ (env : Around) (p : Provider) where
  authorized-asked_times :
      (h : List Call) → asked_times h < asked_times (authorized env Call.asked p.status h).0
  authorized-asked_times h = elim (authorized-cases env Call.asked p.status h) [
    | inl once ↦ rw once (omega arith)
    | inr (inl refreshed) ↦ rw refreshed (omega arith)
    | inr (inr twice) ↦ rw twice (omega arith)
  ]

  module _ (k : ℕ) (ends : (h : List Call) → k ≤ asked_times h → EndsWait (p.status h)) where
    authorized-EndsWait :
        (h : List Call) → k ≤ asked_times h → EndsWait (authorized env Call.asked p.status h).1
    unfolding authorized
    authorized-EndsWait h late =
        let after : List Call = Call.recredentialed ∷ Call.asked ∷ h in
        elim (Result-cases (p.status h)) [
          | inl (st, fine) ↦
              subst EndsWait {x = Result.ok st} (ground (arith, fine))
                (subst EndsWait fine (ends h late))
          | inr (e, failed) ↦ elim (Bool-cases (is_marked Mark.unauthorized e)) [
            | inr other ↦ subst EndsWait {x = Result.err e} (ground (arith, failed, other)) tt
            | inl unauthorized ↦ elim (Result-cases (env.recredential (Call.asked ∷ h))) [
              | inr (x, lost) ↦
                  subst EndsWait {x = Result.err (env.join e x)}
                    (ground (arith, failed, unauthorized, lost)) tt
              | inl (retry, found) ↦ elim (Bool-cases retry) [
                | inl again ↦
                    subst EndsWait {x = p.status after}
                      (ground (arith, failed, unauthorized, found, again))
                      (ends after (omega (arith, late)))
                | inr over ↦
                    subst EndsWait {x = Result.err e}
                      (ground (arith, failed, unauthorized, found, over)) tt
              ]
            ]
          ]
        ]

    -- What the rest of the loop needs of its fuel.
    abbrev Enough : Option (Run × Result Failure State) → Type 0
    Enough o = (out : Run × Result Failure State) × (o ≡ some out)

    -- A poll ends the loop, or leaves it to the rest with one more call for the status.
    abbrev Goes : Poll → ℕ → ℕ → State → Run → Type 0
    Goes poll fuel n shown run =
        (st : Status) × ((polled env p poll n run).1 ≡ Result.ok st)
        × (terminal st.state ≡ false)
        × ((next : Run) × (next.calls ≡ (polled env p poll n run).0.calls)
            × (watch env p poll (suc fuel) n shown run
                ≡ watch env p poll fuel (n + 1) st.state next))

    watch-Goes :
        (poll : Poll) (fuel n : ℕ) (shown : State) (run : Run)
        → Enough (watch env p poll (suc fuel) n shown run) ⊎ Goes poll fuel n shown run
    unfolding watch
    watch-Goes poll fuel n shown run =
        let told = polled env p poll n run in
        elim (Option-cases (env.interrupted (rested env p poll n run).calls)) [
          | inr (x, stopped) ↦
              inl ((rested env p poll n run, Result.err x), ground (arith, stopped))
          | inl awake ↦ elim (Result-cases told.1) [
            | inr (x, failed) ↦ inl ((told.0, Result.err x), ground (arith, awake, failed))
            | inl (st, answered) ↦ elim (Bool-cases (terminal st.state)) [
              | inl over ↦ inl ((told.0, Result.ok st.state), ground (arith, awake, answered, over))
              | inr going ↦ elim (Bool-cases (state_eq st.state shown)) [
                | inl same ↦ inr (
                  st,
                  answered,
                  going,
                  (told.0, refl, ground (arith, awake, answered, going, same)),
                )
                | inr changed ↦ inr (
                  st,
                  answered,
                  going,
                  (
                    move env told.0 st.state 0,
                    refl,
                    ground (arith, awake, answered, going, changed),
                  ),
                )
              ]
            ]
          ]
        ]

    watch-Enough :
        (poll : Poll) (fuel n : ℕ) (shown : State) (run : Run)
        → k ≤ asked_times run.calls + fuel
        → Enough (watch env p poll (suc fuel) n shown run)
    watch-Enough poll zero n shown run enough = elim (watch-Goes poll zero n shown run) [
      | inl done ↦ done
      | inr (st, answered, going, more) ↦
          let over =
            subst EndsWait answered
              (authorized-EndsWait (rested env p poll n run).calls (omega (arith, enough))) in
          absurd (false≢true (sym going ∙ over))
    ]
    watch-Enough poll (suc fuel) n shown run enough =
        elim (watch-Goes poll (suc fuel) n shown run) [
          | inl done ↦ done
          | inr (st, answered, going, (next, calls, rest)) ↦
              let asks = authorized-asked_times (rested env p poll n run).calls in
              let (out, ends_there) =
                watch-Enough poll fuel (n + 1) st.state next
                  (rw calls (omega (arith, enough, asks))) in
              (out, rest ∙ ends_there)
        ]

  -- A provider that, once it was asked k times, answers with an error or a terminal state is polled no
  -- more than k + 1 times: that much fuel is enough.
  pub watch-ends :
      (poll : Poll) (k : ℕ)
      → ((h : List Call) → k ≤ asked_times h → EndsWait (p.status h))
      → (n : ℕ) (shown : State) (run : Run)
      → (out : Run × Result Failure State) × (watch env p poll (suc k) n shown run ≡ some out)
  watch-ends poll k ends n shown run = watch-Enough k ends poll k n shown run (omega arith)
