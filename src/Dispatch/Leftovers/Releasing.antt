-- ===== src/Dispatch/Leftovers/Releasing.antt =====
-- internal/dispatch/release.go: when the leftovers of an execution are released.
use vagabond.Execution.State.{terminal, state_eq, State}
use vagabond.Execution.Status.{Status, lost_expired, to}
use vagabond.Stores.Executions.{RunResult, mark_released, Record, bounded, update}
use vagabond.Dispatch.Polling.Counts.{count, is_release, authorized-count}
use vagabond.Dispatch.Leftovers.{
  free, release_settled, release_over, mark_gone, failing, release_leftover, reconcile_lost,
  give_up, resolve_lost,
}
use vagabond.Plugin.Failure.{Failure, is_marked, Mark}
use vagabond.Base.{
  ℕ, Result, Bool, List, ◌≡◌, some, ◌⊎◌, true, false, inr, ◌∷◌, Bool-cases, inl, arith, Option,
  Option-cases, Result-cases, subst, none, refl,
}
use vagabond.Dispatch.Polling.{Around, Provider, authorized, Run, Call, calling_only, calling}

module _ (env : Around) (reserved : ℕ → Result Failure Bool) (p : Provider) where
  -- The execution is over: its result is recorded, or the provider says so.
  abbrev pub KnownOver : Run → Type 0
  KnownOver run =
      ((r : RunResult) × (run.rec.result ≡ some r))
      ⊎ ((h : List Call) × (st : Status) × (p.status h ≡ Result.ok st) × (terminal st.state ≡ true))

  -- No release was called for, or it was right to.
  abbrev pub RightlyReleased : Run × Result Failure Bool → Type 0
  RightlyReleased after =
      (count is_release after.0.calls ≡ 0)
      ⊎ ((state_eq after.0.rec.status.state State.lost ≡ false)
          × (reserved after.0.rec.status.id ≡ Result.ok false)
          × KnownOver after.0)

  authorized-status :
      (h : List Call) (st : Status)
      → (authorized env Call.asked p.status h).1 ≡ Result.ok st
      → (h' : List Call) × (p.status h' ≡ Result.ok st)
  unfolding authorized
  authorized-status h st k =
      let after : List Call = Call.recredentialed ∷ Call.asked ∷ h in
      elim (Result-cases (p.status h)) [
        | inl (st', fine) ↦ (h, ground (arith, k, fine))
        | inr (e, failed) ↦ (
          after,
          elim (Bool-cases (is_marked Mark.unauthorized e)) [
            | inr other ↦ ground (arith, k, failed, other)
            | inl unauthorized ↦ elim (Result-cases (env.recredential (Call.asked ∷ h))) [
              | inr (x, lost) ↦ ground (arith, k, failed, unauthorized, lost)
              | inl (retry, found) ↦ elim (Bool-cases retry) [
                | inl again ↦ ground (arith, k, failed, unauthorized, found, again)
                | inr over ↦ ground (arith, k, failed, unauthorized, found, over)
              ]
            ]
          ],
        )
      ]

  mark_gone-keeps :
      (run : Run)
      → ((mark_gone env run).0.calls ≡ run.calls) × ((mark_gone env run).0.rec ≡ run.rec)
  mark_gone-keeps run =
      elim (Option-cases (mark_released run.store run.rec.status.id (env.clock run.calls 2)).1) [
        | inl fine ↦ ground (arith, fine)
        | inr (e, failed) ↦ ground (arith, failed)
      ]

  free-rec : (run : Run) → (free env p run).0.rec ≡ run.rec
  unfolding free
  free-rec run =
      let told = calling_only env p run Call.released p.release in
      elim (Option-cases told.1) [
        | inl fine ↦
            subst (λ (r : Run × Result Failure Bool). r.0.rec ≡ run.rec) {x = mark_gone env told.0}
              {y = free env p run} (ground (arith, fine)) (mark_gone-keeps told.0).1
        | inr (e, failed) ↦ elim (Bool-cases (is_marked Mark.unknown_execution e)) [
          | inl unknown ↦
              subst (λ (r : Run × Result Failure Bool). r.0.rec ≡ run.rec)
                {x = mark_gone env told.0} {y = free env p run} (ground (arith, failed, unknown))
                (mark_gone-keeps told.0).1
          | inr known ↦ ground (arith, failed, known)
        ]
      ]

  Rightly-free :
      (run : Run)
      → state_eq run.rec.status.state State.lost ≡ false
      → reserved run.rec.status.id ≡ Result.ok false
      → KnownOver run
      → RightlyReleased (free env p run)
  Rightly-free run alive settled over = inr (rw (free-rec run) (alive, settled, over))

  Rightly-mark_gone :
      (run : Run) → count is_release run.calls ≡ 0 → RightlyReleased (mark_gone env run)
  Rightly-mark_gone run quiet = inl (rw (mark_gone-keeps run).0 quiet)

  asking_quietly :
      (run : Run)
      → count is_release run.calls ≡ 0
      → count is_release (calling env p run Call.asked p.status).0.calls ≡ 0
  asking_quietly run quiet =
      ground (arith, quiet, authorized-count env is_release Call.asked p.status run.calls refl)

  Rightly-settled :
      (run : Run)
      → count is_release run.calls ≡ 0
      → state_eq run.rec.status.state State.lost ≡ false
      → reserved run.rec.status.id ≡ Result.ok false
      → RightlyReleased (release_settled env (some p) run)
  unfolding release_settled
  Rightly-settled run quiet alive settled =
      let told = calling env p run Call.asked p.status in
      let asked = asking_quietly run quiet in
      elim (Bool-cases p.leaves_behind) [
        | inr nothing ↦
            subst RightlyReleased {x = mark_gone env run} {y = release_settled env (some p) run}
              (ground (arith, nothing)) (Rightly-mark_gone run quiet)
        | inl something ↦ elim (Option-cases run.rec.result) [
          | inr (r, recorded) ↦
              subst RightlyReleased {x = free env p run} {y = release_settled env (some p) run}
                (ground (arith, something, recorded))
                (Rightly-free run alive settled (inl (r, recorded)))
          | inl missing ↦ elim (Result-cases told.1) [
            | inr (e, failed) ↦ elim (Bool-cases (is_marked Mark.unknown_execution e)) [
              | inl unknown ↦
                  subst RightlyReleased {x = mark_gone env told.0}
                    {y = release_settled env (some p) run}
                    (ground (arith, something, missing, failed, unknown))
                    (Rightly-mark_gone told.0 asked)
              | inr known ↦
                  subst RightlyReleased {x = failing told.0 e}
                    {y = release_settled env (some p) run}
                    (ground (arith, something, missing, failed, known)) (inl asked)
            ]
            | inl (st, answered) ↦ elim (Bool-cases (terminal st.state)) [
              | inr going ↦
                  subst RightlyReleased {x = (told.0, Result.ok false)}
                    {y = release_settled env (some p) run}
                    (ground (arith, something, missing, answered, going)) (inl asked)
              | inl over ↦
                  let (h, said) = authorized-status run.calls st answered in
                  subst RightlyReleased {x = free env p told.0}
                    {y = release_settled env (some p) run}
                    (ground (arith, something, missing, answered, over))
                    (Rightly-free told.0 alive settled (inr (h, st, said, over)))
            ]
          ]
        ]
      ]

  Rightly-over :
      (provider : Option Provider) (run : Run)
      → provider ≡ some p
      → count is_release run.calls ≡ 0
      → state_eq run.rec.status.state State.lost ≡ false
      → RightlyReleased (release_over env reserved provider run)
  unfolding release_over
  Rightly-over provider run given quiet alive = elim (Result-cases (reserved run.rec.status.id)) [
    | inr (e, failed) ↦
        subst RightlyReleased {x = failing run e} {y = release_over env reserved provider run}
          (ground (arith, failed)) (inl quiet)
    | inl (holds, answered) ↦ elim (Bool-cases holds) [
      | inl held ↦
          subst RightlyReleased {x = (run, Result.ok false)}
            {y = release_over env reserved provider run} (ground (arith, answered, held))
            (inl quiet)
      | inr settled ↦
          subst RightlyReleased {x = release_settled env (some p) run}
            {y = release_over env reserved provider run} (ground (arith, answered, settled, given))
            (Rightly-settled run quiet alive (ground (arith, answered, settled)))
    ]
  ]

  resolve_lost-calls :
      (run : Run) (state : State) (result : Option RunResult)
      → (resolve_lost env run state result).0.calls ≡ run.calls
  unfolding resolve_lost
  resolve_lost-calls run state result =
      let moving = to run.rec.status state (env.clock run.calls 1) in
      let resolved : Record = record run.rec {
        status = moving.0;
        result = elim result [ none ↦ none | some r ↦ some (bounded r) ];
      } in
      elim (Option-cases moving.1) [
        | inr (x, refused) ↦ ground (arith, refused)
        | inl legal ↦ elim (Option-cases (update run.store resolved State.lost).1) [
          | inr (x, stale) ↦ ground (arith, legal, stale)
          | inl written ↦ ground (arith, legal, written)
        ]
      ]

  give_up-calls : (run : Run) (err : Option Failure) → (give_up env run err).0.calls ≡ run.calls
  unfolding give_up
  give_up-calls run err = elim (Bool-cases (lost_expired run.rec.status (env.clock run.calls 0))) [
    | inl late ↦ ground (arith, late, resolve_lost-calls run State.failed none)
    | inr soon ↦ ground (arith, soon)
  ]

  reconcile_lost_quietly :
      (run : Run)
      → count is_release run.calls ≡ 0
      → count is_release (reconcile_lost env (some p) run).0.calls ≡ 0
  unfolding reconcile_lost
  reconcile_lost_quietly run quiet =
      let told = calling env p run Call.asked p.status in
      let asked = asking_quietly run quiet in
      let fetched = calling env p told.0 Call.fetched p.fetch in
      let quiet_still : count is_release fetched.0.calls ≡ 0 =
        ground
          (arith, asked, authorized-count env is_release Call.fetched p.fetch told.0.calls refl) in
      let Goal : Run × Option Failure → Type 0 = λ r. count is_release r.0.calls ≡ 0 in
      elim (Result-cases told.1) [
        | inr (e, failed) ↦ elim (Bool-cases (is_marked Mark.unknown_execution e)) [
          | inl unknown ↦
              subst Goal {x = resolve_lost env told.0 State.failed none}
                {y = reconcile_lost env (some p) run} (ground (arith, failed, unknown))
                (rw (resolve_lost-calls told.0 State.failed none) asked)
          | inr known ↦
              subst Goal {x = give_up env told.0 (some e)} {y = reconcile_lost env (some p) run}
                (ground (arith, failed, known)) (rw (give_up-calls told.0 (some e)) asked)
        ]
        | inl (st, answered) ↦ elim (Bool-cases (terminal st.state)) [
          | inr going ↦
              subst Goal {x = give_up env told.0 none} {y = reconcile_lost env (some p) run}
                (ground (arith, answered, going)) (rw (give_up-calls told.0 none) asked)
          | inl over ↦ elim (Result-cases fetched.1) [
            | inl (r, found) ↦
                subst Goal {x = resolve_lost env fetched.0 st.state (some r)}
                  {y = reconcile_lost env (some p) run} (ground (arith, answered, over, found))
                  (rw (resolve_lost-calls fetched.0 st.state (some r)) quiet_still)
            | inr (e, failed) ↦
                subst Goal {x = give_up env fetched.0 (some e)}
                  {y = reconcile_lost env (some p) run} (ground (arith, answered, over, failed))
                  (rw (give_up-calls fetched.0 (some e)) quiet_still)
          ]
        ]
      ]

  -- What a configured provider holds for an execution is released only when the execution is not lost,
  -- holds no reservation, and is known to be over: its result is recorded, or the provider reported a
  -- terminal state. (Nothing was released before.)
  pub release_leftover-RightlyReleased :
      (run : Run)
      → count is_release run.calls ≡ 0
      → RightlyReleased (release_leftover env reserved (some p) run)
  unfolding release_leftover
  release_leftover-RightlyReleased run quiet =
      let (found, failure) = reconcile_lost env (some p) run in
      let still = reconcile_lost_quietly run quiet in
      elim (Bool-cases (state_eq run.rec.status.state State.lost)) [
        | inr alive ↦
            subst RightlyReleased {x = release_over env reserved (some p) run}
              {y = release_leftover env reserved (some p) run} (ground (arith, alive))
              (Rightly-over (some p) run refl quiet alive)
        | inl lost ↦ elim (Option-cases failure) [
          | inr (e, failed) ↦
              subst RightlyReleased {x = failing found e}
                {y = release_leftover env reserved (some p) run} (ground (arith, lost, failed))
                (inl still)
          | inl fine ↦ elim (Bool-cases (state_eq found.rec.status.state State.lost)) [
            | inl unresolved ↦
                subst RightlyReleased {x = (found, Result.ok false)}
                  {y = release_leftover env reserved (some p) run}
                  (ground (arith, lost, fine, unresolved)) (inl still)
            | inr resolved ↦
                subst RightlyReleased {x = release_over env reserved (some p) found}
                  {y = release_leftover env reserved (some p) run}
                  (ground (arith, lost, fine, resolved))
                  (Rightly-over (some p) found refl still resolved)
          ]
        ]
      ]
