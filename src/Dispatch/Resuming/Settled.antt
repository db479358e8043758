-- ===== src/Dispatch/Resuming/Settled.antt =====
-- internal/dispatch/resume.go: a resumed dispatch leaves no execution unfinished in the store.
use vagabond.Dispatch.Resuming.Written.{At, StoredAs}
use vagabond.Ledger.Memory.{id_key}
use vagabond.Dispatch.Resuming.Stored.{IsAt, move-At, follow-At, fail-At}
use vagabond.Dispatch.Resuming.Ending.{
  IsSettled, IsUnfinished, fail-IsSettled, follow-IsSettled, unfinished,
}
use vagabond.Base.Assoc.{lookup}
use vagabond.Dispatch.Resuming.{resume_one, resume_from, followed, charge_record}
use vagabond.Quota.Meter.{Execution}
use vagabond.Base.{
  Result-cases, Bool-cases, inl, inr, ℕ, suc, ◌≤◌, List, subst, none, some, Option, [], String, ◌∷◌,
  All, if◌then◌else◌, Option-cases, ◌≡◌, true, false, refl, arith, ◌==◌, ◌∙◌, All-map, ==_iff, ap,
  sym,
}
use vagabond.Dispatch.Polling.Waiting.{asked_times, EndsWait}
use vagabond.Plugin.Failure.{Failure, internal_error, infrastructure_error}
use vagabond.Dispatch.Polling.Recording.{Awaits}
use vagabond.Execution.Status.{to}
use vagabond.Execution.State.{valid, terminal, State, transition, can_transition, state_eq}
use vagabond.Dispatch.Polling.{Around, fail, Provider, Run, move, calling, Call, Poll}
use vagabond.Stores.Executions.{Record, tracked_to, Executions}

-- The run that `resume` follows.
abbrev sent_on : Around → Run → Run
sent_on env run =
    if state_eq run.rec.status.state State.pending then move env run State.submitted 0 else run

sent_on-Awaits :
    (env : Around) (run : Run) → IsUnfinished run.rec → Awaits (sent_on env run).rec.status.state
unfolding tracked_to to transition valid can_transition
sent_on-Awaits env run h = ground (arith, h)

sent_on-At :
    (s0 : Executions) (id : ℕ) (env : Around) (run : Run)
    → IsAt s0 id run
    → IsAt s0 id (sent_on env run)
sent_on-At s0 id env run h = elim (Bool-cases (state_eq run.rec.status.state State.pending)) [
  | inl waiting ↦
      subst (IsAt s0 id) {x = move env run State.submitted 0} {y = sent_on env run}
        (ground (arith, waiting)) (move-At s0 id env run State.submitted 0 h)
  | inr sent ↦ subst (IsAt s0 id) {x = run} {y = sent_on env run} (ground (arith, sent)) h
]

-- The stored execution of an ID is over or lost.
abbrev pub EndsStored : Executions → ℕ → Type 0
EndsStored store id = (x : Record) × (lookup id_key id store.records ≡ some x) × IsSettled x

EndsStored-state :
    (store : Executions) (r : Record)
    → StoredAs store r
    → IsSettled r
    → EndsStored store r.status.id
EndsStored-state store r (x, found, same) settled = (x, found, ground (arith, same, settled))

-- No two records have an ID in common.
abbrev pub DistinctRecords : List Record → Type 0
DistinctRecords [] = Unit
DistinctRecords (r ∷ rs) = All (λ q. (q.status.id == r.status.id) ≡ false) rs × DistinctRecords rs

module _ {L : Type 0} (settle : L → ℕ → String → String → Execution → L)
    (provider_of : String → Option Provider) (around : ℕ → Around) (poll : Poll) (k : ℕ)
    (ends : (name : String) (p : Provider)
      → provider_of name ≡ some p
      → (h : List Call) → k ≤ asked_times h
      → EndsWait (p.status h)) where
  -- `resume` returns, with a record that is settled and stored so.
  abbrev Returns : Executions → ℕ → Option (Executions × L × Record) → Type 0
  Returns s0 id o =
      (out : Executions × L × Record) × (o ≡ some out) × IsSettled out.2 × At s0 id out.0 out.2

  followed-Returns :
      (s0 : Executions) (id : ℕ) (l : L) (name : String) (p : Provider) (run : Run) (state : State)
      → provider_of name ≡ some p
      → IsUnfinished run.rec
      → IsAt s0 id run
      → Returns s0 id (followed settle provider_of around poll (suc k) l p run state)
  unfolding followed
  followed-Returns s0 id l name p run state given h stored =
      let env = around run.rec.status.id in
      let ((ended, answer, err), followed_on, settled) =
        follow-IsSettled env p poll k (ends name p given) state (sent_on env run)
          (sent_on-Awaits env run h) in
      (
        (ended.store, charge_record settle l ended.rec answer.result, ended.rec),
        ground (arith, followed_on),
        settled,
        follow-At s0 id env p poll (suc k) state (sent_on env run) (ended, answer, err)
            (sent_on-At s0 id env run stored) followed_on,
      )

  resume_one-Returns :
      (store : Executions) (l : L) (rec : Record)
      → IsUnfinished rec
      → StoredAs store rec
      → Returns store rec.status.id (resume_one settle provider_of around poll (suc k) store l rec)
  unfolding resume_one
  resume_one-Returns store l rec h stored =
      let env = around rec.status.id in
      let run : Run = record { calls = []; store = store; rec = rec } in
      let id = rec.status.id in
      let begun : At store id store rec = record {
        same = refl;
        stored = stored;
        others = λ j apart. refl;
      } in
      elim (Option-cases (provider_of rec.provider)) [
        | inl missing ↦
            let err = Failure.classified (internal_error none) in
            let gone = fail env run err in
            (
              (gone.store, l, gone.rec),
              ground (arith, missing),
              fail-IsSettled env run err h,
              fail-At store id env run err begun,
            )
        | inr (p, given) ↦
            let told = calling env p run Call.asked p.status in
            elim (Result-cases told.1) [
              | inr (e, failed) ↦
                  let err = Failure.classified (infrastructure_error none) in
                  let gone = fail env told.0 err in
                  (
                    (gone.store, l, gone.rec),
                    ground (arith, given, failed),
                    fail-IsSettled env told.0 err h,
                    fail-At store id env told.0 err begun,
                  )
              | inl (st, answered) ↦
                  let (out, ran, settled, kept) =
                    followed-Returns store id l rec.provider p told.0 st.state given h begun in
                  (out, ground (arith, given, answered, ran), settled, kept)
            ]
      ]

  -- How the loop of `Resume` leaves the store, and the records that it gives the verdict on.
  abbrev pub Resumed : List Record → Executions → Option (Executions × L × List Record) → Type 0
  Resumed recs store o =
      (out : Executions × L × List Record) × (o ≡ some out)
      × All IsSettled out.2
      × All (λ r. EndsStored out.0 r.status.id) recs
      × ((j : ℕ)
          → All (λ q. (j == q.status.id) ≡ false) recs
          → lookup id_key j out.0.records ≡ lookup id_key j store.records)

  Resumed-cons :
      (rec : Record) (recs : List Record) (store store' : Executions) (l' : L) (rec' : Record)
      (o : Option (Executions × L × List Record)) (last : Executions) (l'' : L) (rest : List Record)
      → o ≡ some (last, l'', rec' ∷ rest)
      → IsSettled rec'
      → At store rec.status.id store' rec'
      → All (λ q. (q.status.id == rec.status.id) ≡ false) recs
      → All IsSettled rest
      → All (λ r. EndsStored last r.status.id) recs
      → ((j : ℕ)
          → All (λ q. (j == q.status.id) ≡ false) recs
          → lookup id_key j last.records ≡ lookup id_key j store'.records)
      → Resumed (rec ∷ recs) store o
  Resumed-cons rec recs store store' l' rec' o last l'' rest ran this at apart settled stored kept =
      let (x, found, over) = EndsStored-state store' rec' at.stored this in
      let alone : All (λ q. (rec.status.id == q.status.id) ≡ false) recs =
        All-map (λ q. (q.status.id == rec.status.id) ≡ false)
          (λ q. (rec.status.id == q.status.id) ≡ false) recs
          (λ q h.
            ground (arith, h, ==_iff q.status.id rec.status.id, ==_iff rec.status.id q.status.id))
          apart in
      (
        (last, l'', rec' ∷ rest),
        ran,
        (this, settled),
        (
          (
            x,
            kept rec.status.id alone
                ∙ ap (λ i. lookup id_key i store'.records) (sym at.same)
                ∙ found,
            over,
          ),
          stored,
        ),
        λ j away. kept j away.1 ∙ at.others j away.0,
      )

  stored_after :
      (id : ℕ) (recs : List Record) (store store' : Executions) (rec' : Record)
      → At store id store' rec'
      → All (λ q. (q.status.id == id) ≡ false) recs
      → All (StoredAs store) recs
      → All (StoredAs store') recs
  stored_after id [] store store' rec' at apart stored = tt
  stored_after id (q ∷ qs) store store' rec' at apart ((x, found, same), stored) = (
    (x, at.others q.status.id apart.0 ∙ found, same),
    stored_after id qs store store' rec' at apart.1 stored,
  )

  -- Where every configured provider ends its waits and nobody else writes to the executions of a
  -- claimed dispatch, which have distinct IDs and are given as the in-memory store has them, each in
  -- a state of the program: the loop of `Resume` returns; each of them is then stored as over, or as
  -- lost, which is left to the release of leftovers, and so is what the verdict is read from; and no
  -- other execution of the store has changed.
  pub resume_from-IsSettled :
      (recs : List Record) (store : Executions) (l : L)
      → All (λ r. valid r.status.state ≡ true) recs
      → All (StoredAs store) recs
      → DistinctRecords recs
      → Resumed recs store (resume_from settle provider_of around poll (suc k) recs store l)
  unfolding resume_from
  resume_from-IsSettled [] store l known stored apart =
      ((store, l, []), refl, tt, tt, λ j away. refl)
  resume_from-IsSettled (rec ∷ recs) store l known stored apart =
      elim (Bool-cases (terminal rec.status.state)) [
        | inl over ↦
            let same : At store rec.status.id store rec = record {
              same = refl;
              stored = stored.0;
              others = λ j away. refl;
            } in
            let ((last, l', rest), ran, settled, ended, kept) =
              resume_from-IsSettled recs store l known.1 stored.1 apart.1 in
            Resumed-cons rec recs store store l rec
              (resume_from settle provider_of around poll (suc k) (rec ∷ recs) store l) last l' rest
              (ground (arith, over, ran)) (inl over) same apart.0 settled ended kept
        | inr going ↦
            let ((store', l', rec'), one, this, at) =
              resume_one-Returns store l rec (unfinished rec known.0 going) stored.0 in
            let ((last, l'', rest), ran, settled, ended, kept) =
              resume_from-IsSettled recs store' l' known.1
                (stored_after rec.status.id recs store store' rec' at apart.0 stored.1) apart.1 in
            Resumed-cons rec recs store store' l' rec'
              (resume_from settle provider_of around poll (suc k) (rec ∷ recs) store l) last l''
              rest (ground (arith, going, one, ran)) this at apart.0 settled ended kept
      ]
