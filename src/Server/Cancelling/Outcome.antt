-- ===== src/Server/Cancelling/Outcome.antt =====
-- internal/server/executions.go: what a request to cancel an execution comes to.
use vagabond.Execution.Status.Lifecycle.{to_lem}
use vagabond.Stores.Executions.Moves.{update_lem, state_eq-eq}
use vagabond.Execution.State.{terminal, State, transition}
use vagabond.Execution.Status.{to, Status}
use vagabond.Ledger.Memory.{id_key}
use vagabond.Server.Cancelling.{cancel_unwatched, Cancelled, cancel_execution, CancelFault}
use vagabond.Base.Assoc.{lookup}
use vagabond.Stores.Executions.{Executions, clone, Record, update, StoreError, get}
use vagabond.Plugin.Failure.{Failure}
use vagabond.Base.{
  String, Option, ℕ, Time, List, ◌≡◌, ◌⊎◌, some, true, contains, none, ◌==◌, inl, arith, inr,
  Result, Option-cases, refl, Result-cases, subst, sym, Bool-cases,
}

to-id : (st : Status) (next : State) (now : Time) → (to st next now).0.id ≡ st.id
unfolding to
to-id st next now = ground arith

module _ (canceller : String → Option (ℕ → Option Failure)) (meanwhile : Executions → Executions)
    (now : Time) where
  -- What is stored of an execution before and after a write: the same, or moved to cancelled along a
  -- legal transition.
  abbrev pub KeptOrCancelled : Executions → Executions → ℕ → Type 0
  KeptOrCancelled before after id =
      (lookup id_key id after.records ≡ lookup id_key id before.records)
      ⊎ ((old : Record) × (new : Record) × (lookup id_key id before.records ≡ some old)
          × (lookup id_key id after.records ≡ some new)
          × (new.status.state ≡ State.cancelled)
          × (transition old.status.state State.cancelled ≡ none))

  -- An answer without an error: the execution was over, its dispatch was told to stop, or its
  -- provider confirmed that it is cancelled.
  abbrev pub Answers : Executions → List ℕ → Cancelled → Record → Type 0
  Answers store running c r =
      ((terminal r.status.state ≡ true) × (c.store ≡ store))
      ⊎ (((contains ◌==◌ running r.dispatch ≡ true)
            × (c.stopped ≡ some r.dispatch)
            × (c.store ≡ store))
          ⊎ ((r.status.state ≡ State.cancelled)
              × ((cancel : ℕ → Option Failure) × (canceller r.provider ≡ some cancel)
                  × (cancel r.status.id ≡ none))))

  update-KeptOrCancelled :
      (s : Executions) (rec : Record) (id : ℕ)
      → (to rec.status State.cancelled now).1 ≡ none
      → KeptOrCancelled s
          (update s
            (record rec { status = (to rec.status State.cancelled now).0 })
            rec.status.state).0
          id
  unfolding clone
  update-KeptOrCancelled s rec id legal =
      let ended : Record = record rec { status = (to rec.status State.cancelled now).0 } in
      elim (update_lem s ended rec.status.state id) [
        | inl kept ↦ inl kept
        | inr (old, found, current, written) ↦ inr (
          old,
          record (clone ended) { released = old.released },
          found,
          written,
          ground (arith, legal, to_lem rec.status State.cancelled now),
          ground (
            arith,
            legal,
            to_lem rec.status State.cancelled now,
            state_eq-eq old.status.state rec.status.state current,
          ),
        )
      ]

  abbrev ended_of : Record → Record
  ended_of rec = record rec { status = (to rec.status State.cancelled now).0 }

  -- The ways that a request for an execution which no dispatch here runs can end.
  abbrev Ends : Executions → Record → Executions × Result CancelFault Record → Type 0
  Ends store rec out =
      ((x : CancelFault) × ((out ≡ (store, Result.err x))
          ⊎ (out ≡ (meanwhile store, Result.err x))))
      ⊎ ((cancel : ℕ → Option Failure) × (canceller rec.provider ≡ some cancel)
          × (cancel rec.status.id ≡ none)
          × ((to rec.status State.cancelled now).1 ≡ none)
          × (out.0 ≡ (update (meanwhile store) (ended_of rec) rec.status.state).0)
          × ((out.1 ≡ Result.ok (ended_of rec)) ⊎ ((x : CancelFault) × (out.1 ≡ Result.err x))))

  cancel_unwatched-Ends :
      (store : Executions) (rec : Record)
      → Ends store rec (cancel_unwatched canceller meanwhile now store rec)
  unfolding cancel_unwatched
  cancel_unwatched-Ends store rec = elim (Option-cases (canceller rec.provider)) [
    | inl gone ↦ inl (CancelFault.gone_provider rec.provider, inl (ground (arith, gone)))
    | inr (cancel, given) ↦ elim (Option-cases (cancel rec.status.id)) [
      | inr (e, failed) ↦ inl (CancelFault.not_cancelled e, inr (ground (arith, given, failed)))
      | inl confirmed ↦ elim (Option-cases (to rec.status State.cancelled now).1) [
        | inr (x, refused) ↦
            inl (CancelFault.refused_move x, inr (ground (arith, given, confirmed, refused)))
        | inl legal ↦ inr (
          cancel,
          given,
          confirmed,
          legal,
          written given confirmed legal,
          answered cancel given confirmed legal
              (update (meanwhile store) (ended_of rec) rec.status.state).1 refl,
        )
      ]
    ]
  ]
    where
      written :
          {cancel : ℕ → Option Failure}
          → canceller rec.provider ≡ some cancel
          → cancel rec.status.id ≡ none
          → (to rec.status State.cancelled now).1 ≡ none
          → (cancel_unwatched canceller meanwhile now store rec).0
            ≡ (update (meanwhile store) (ended_of rec) rec.status.state).0
      written given confirmed legal = ground (arith, given, confirmed, legal)

      answered :
          (cancel : ℕ → Option Failure)
          → canceller rec.provider ≡ some cancel
          → cancel rec.status.id ≡ none
          → (to rec.status State.cancelled now).1 ≡ none
          → (failure : Option StoreError)
          → (update (meanwhile store) (ended_of rec) rec.status.state).1 ≡ failure
          → ((cancel_unwatched canceller meanwhile now store rec).1 ≡ Result.ok (ended_of rec))
            ⊎ ((x : CancelFault) × ((cancel_unwatched canceller meanwhile now store rec).1
                  ≡ Result.err x))
      answered cancel given confirmed legal none f =
          inl (ground (arith, given, confirmed, legal, f))
      answered cancel given confirmed legal (some StoreError.stale) f =
          inl (ground (arith, given, confirmed, legal, f))
      answered cancel given confirmed legal (some StoreError.not_found) f =
          inr (
            CancelFault.not_stored StoreError.not_found,
            ground (arith, given, confirmed, legal, f),
          )
      answered cancel given confirmed legal (some StoreError.already_recorded) f = inr (
        CancelFault.not_stored StoreError.already_recorded,
        ground (arith, given, confirmed, legal, f),
      )

  -- What is written of any execution.
  abbrev pub Writes : Executions → Executions → Type 0
  Writes store after = (after ≡ store) ⊎ ((j : ℕ) → KeptOrCancelled (meanwhile store) after j)

  -- What is sure of a request's end.
  abbrev Good : Executions → List ℕ → Cancelled → Type 0
  Good store running c =
      Writes store c.store × ((r : Record) → c.answer ≡ Result.ok r → Answers store running c r)

  abbrev unwatched : Executions × Result CancelFault Record → Cancelled
  unwatched out = record { store = out.0; stopped = none; answer = out.1 }

  Ends-Good :
      (store : Executions) (running : List ℕ) (rec : Record)
      (out : Executions × Result CancelFault Record)
      → Ends store rec out
      → Good store running (unwatched out)
  Ends-Good store running rec out (inl (x, inl same)) =
      subst (λ o. Good store running (unwatched o)) {x = (store, Result.err x)} (sym same)
        (inl refl, λ r h. absurd (ground (arith, h)))
  Ends-Good store running rec out (inl (x, inr same)) =
      subst (λ o. Good store running (unwatched o)) {x = (meanwhile store, Result.err x)} (sym same)
        (inr (λ j. inl refl), λ r h. absurd (ground (arith, h)))
  Ends-Good store running rec out (inr (cancel, given, confirmed, legal, after, answer)) = (
    inr (λ j.
        subst (λ o. KeptOrCancelled (meanwhile store) o j) (sym after)
          (update-KeptOrCancelled (meanwhile store) rec j legal)),
    λ r h. elim answer [
      | inr (x, failed) ↦ absurd (ground (arith, h, failed))
      | inl fine ↦
          let same : ended_of rec ≡ r = ground (arith, fine, h) in
          let moved = to_lem rec.status State.cancelled now in
          subst (Answers store running (unwatched out)) same (
            inr (
              inr (
                ground (arith, legal, moved),
                (
                  cancel,
                  given,
                  subst (λ n. cancel n ≡ none) (sym (to-id rec.status State.cancelled now))
                      confirmed,
                ),
              )))
    ],
  )

  -- Whatever other processes write while the provider is asked, a request to cancel an execution
  -- writes no record but along a legal transition to cancelled, so one that was over by then stays as
  -- it is. An answer without an error is of an execution that was over, whose dispatch runs here and
  -- was told to stop, or that its provider cancelled.
  pub cancel_execution-Answers :
      (store : Executions) (running : List ℕ) (id : ℕ)
      → let c = cancel_execution canceller meanwhile now store running id in
        Writes store c.store × ((r : Record) → c.answer ≡ Result.ok r → Answers store running c r)
  unfolding cancel_execution
  cancel_execution-Answers store running id = elim (Result-cases (get store id)) [
    | inr (x, missing) ↦
        subst (Good store running)
          {x = record {
            store = store;
            stopped = none;
            answer = Result.err CancelFault.no_execution;
          }}
          {y = cancel_execution canceller meanwhile now store running id} (ground (arith, missing))
          (inl refl, λ r h. absurd (ground (arith, h)))
    | inl (rec, found) ↦ elim (Bool-cases (terminal rec.status.state)) [
      | inl over ↦
          subst (Good store running)
            {x = record { store = store; stopped = none; answer = Result.ok rec }}
            {y = cancel_execution canceller meanwhile now store running id}
            (ground (arith, found, over)) (inl refl, λ r h. inl (ground (arith, h, over)))
      | inr going ↦ elim (Bool-cases (contains ◌==◌ running rec.dispatch)) [
        | inl here ↦
            subst (Good store running)
              {x = record { store = store; stopped = some rec.dispatch; answer = Result.ok rec }}
              {y = cancel_execution canceller meanwhile now store running id}
              (ground (arith, found, going, here))
              (inl refl, λ r h. inr (inl (ground (arith, h, here))))
        | inr away ↦
            subst (Good store running)
              {x = unwatched (cancel_unwatched canceller meanwhile now store rec)}
              {y = cancel_execution canceller meanwhile now store running id}
              (ground (arith, found, going, away))
              (Ends-Good store running rec (cancel_unwatched canceller meanwhile now store rec)
                (cancel_unwatched-Ends store rec))
      ]
    ]
  ]
