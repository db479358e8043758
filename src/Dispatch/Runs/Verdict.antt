-- ===== src/Dispatch/Runs/Verdict.antt =====
-- internal/dispatch/dispatcher.go: which tasks a run has run when it ends, and how `Finish` ends it.
use vagabond.Stores.Executions.{DispatchState}
use mathlib.Core.List.{append-nil, append_assoc}
use vagabond.Scheduler.Ranking.{rank}
use vagabond.Scheduler.Admission.Checks.{checkers}
use vagabond.Scheduler.Admission.{admit}
use vagabond.Scheduler.Request.{new_request}
use vagabond.Dispatch.Attempts.{Origin, Attempt, Ending, attempt}
use vagabond.Job.Std.{Std}
use vagabond.Job.{Task, Routing, Job}
use vagabond.Scheduler.Floats.{Floats}
use vagabond.Base.{
  [], List, ◌∷◌, String, Option, map, ◌≡◌, All, none, true, ◌++◌, some, ◌↔◌, arith, false, ◌⊎◌,
  Result-cases, sym, inr, refl, inl, Bool-cases, is_empty, subst, Option-cases, ◌∙◌, ◌≢◌,
}
use vagabond.Dispatch.Runs.{
  Site, TaskOutcome, task_succeeded, run_task, RunError, all_succeeded, run_from, filled,
  blank_outcome, run_job, verdict_of_run, job_succeeded, JobOutcome,
}

-- The outcomes are those of the first tasks, in order; each but the last passed.
abbrev pub AllButLast : List TaskOutcome → Type 0
AllButLast [] = Unit
AllButLast (o ∷ []) = Unit
AllButLast (o ∷ p ∷ os) = (task_succeeded o ≡ true) × AllButLast (p ∷ os)

abbrev pub tasks_named : List TaskOutcome → List String
tasks_named os = map (λ o. o.task) os

abbrev pub RanInOrder : List Task → List TaskOutcome → Type 0
RanInOrder ts os =
    ((rest : List String) × (map (λ t. t.name) ts ≡ tasks_named os ++ rest)) × AllButLast os

-- Every task ran and passed.
abbrev pub AllPassed : List Task → List TaskOutcome → Type 0
AllPassed ts os = (map (λ t. t.name) ts ≡ tasks_named os) × All (λ o. task_succeeded o ≡ true) os

-- What the loop of `Run` has added when it stops. Without an error every task passed or one did not.
abbrev pub Stopped : {E : Type 0} → List Task → List TaskOutcome → Option (RunError E) → Type 0
Stopped ts os err = RanInOrder ts os × (err ≡ none → all_succeeded os ≡ true → AllPassed ts os)

filled-task :
    {E : Type 0} (o : TaskOutcome) (attempts : List Attempt) (ending : Ending E)
    → (filled o attempts ending).0.task ≡ o.task
filled-task o attempts (Ending.answered provider id ended) = refl
filled-task o attempts ending = ground arith

all_succeeded_iff :
    (os : List TaskOutcome) → (all_succeeded os ≡ true) ↔ All (λ o. task_succeeded o ≡ true) os
unfolding all_succeeded
all_succeeded_iff [] = ground arith
all_succeeded_iff (o ∷ os) = ground (arith, all_succeeded_iff os)

AllButLast-cons :
    (o : TaskOutcome) (os : List TaskOutcome)
    → task_succeeded o ≡ true
    → AllButLast os
    → AllButLast (o ∷ os)
AllButLast-cons o [] p h = tt
AllButLast-cons o (q ∷ os) p h = (p, h)

Stopped-none : {E : Type 0} (ts : List Task) (x : RunError E) → Stopped ts [] (some x)
Stopped-none ts x = (((map (λ t. t.name) ts, refl), tt), λ h k. ground (arith, h))

Stopped-failed :
    {E : Type 0} (t : Task) (ts : List Task) (o : TaskOutcome) (x : RunError E)
    → o.task ≡ t.name
    → Stopped (t ∷ ts) (o ∷ []) (some x)
Stopped-failed t ts o x n =
    (((map (λ t. t.name) ts, ground (arith, n)), tt), λ h k. ground (arith, h))

Stopped-not_passed :
    {E : Type 0} (t : Task) (ts : List Task) (o : TaskOutcome)
    → o.task ≡ t.name
    → task_succeeded o ≡ false
    → Stopped {E = E} (t ∷ ts) (o ∷ []) none
unfolding all_succeeded
Stopped-not_passed t ts o n f =
    (((map (λ t. t.name) ts, ground (arith, n)), tt), λ h k. ground (arith, f, k))

Stopped-passed :
    {E : Type 0} (t : Task) (ts : List Task) (o : TaskOutcome) (os : List TaskOutcome)
    (err : Option (RunError E))
    → o.task ≡ t.name
    → task_succeeded o ≡ true
    → Stopped ts os err
    → Stopped (t ∷ ts) (o ∷ os) err
unfolding all_succeeded
Stopped-passed t ts o os err n p (((rest, split), butlast), whole) = (
  ((rest, ground (arith, n, split)), AllButLast-cons o os p butlast),
  λ h k.
      let (names, passed) = whole h (ground (arith, p, k)) in
      (ground (arith, n, names), (p, passed)),
)

named-is_empty :
    (ts : List Task) (os : List TaskOutcome)
    → map (λ t. t.name) ts ≡ tasks_named os
    → is_empty ts ≡ is_empty os
named-is_empty [] [] h = refl
named-is_empty [] (o ∷ os) h = ground (arith, h)
named-is_empty (t ∷ ts) [] h = ground (arith, h)
named-is_empty (t ∷ ts) (o ∷ os) h = refl

verdict_of_run_iff :
    {E : Type 0} (message : RunError E → String) (ts : List Task) (o : JobOutcome)
    (err : Option (RunError E))
    → Stopped ts o.tasks err
    → ((verdict_of_run message (some o) err).0 ≡ DispatchState.dispatch_succeeded)
      ↔ ((err ≡ none) × (is_empty ts ≡ false) × AllPassed ts o.tasks)
unfolding verdict_of_run job_succeeded
verdict_of_run_iff message ts o (some x) h = (λ k. ground (arith, k), λ k. ground (arith, k.0))
verdict_of_run_iff message ts o none h = (
  λ k.
      let passed = h.1 refl (ground (arith, k)) in
      (refl, ground (arith, k, named-is_empty ts o.tasks passed.0), passed),
  λ k. ground (arith, k.1, named-is_empty ts o.tasks k.2.0, (all_succeeded_iff o.tasks).1 k.2.1),
)

module _ {S E F : Type 0} (site : Site S E) (fl : Floats F) (std : Std) (tiers : String) where
  -- The outcome of a task is under its name, and there is one unless there is an error.
  run_task-named :
      (s : S) (origin : Origin) (t : Task) (routing : Option Routing)
      → let (s1, result, err) = run_task site fl std tiers s origin t routing in
        ((o : TaskOutcome) × (result ≡ some o) × (o.task ≡ t.name))
        ⊎ ((x : RunError E) × (result ≡ none) × (err ≡ some x))
  unfolding run_task
  run_task-named s origin t routing = elim (Result-cases (site.image t)) [
    | inr (x, bad) ↦ inr (RunError.bad_request x, ground (arith, bad), ground (arith, bad))
    | inl (image, good) ↦
        let req = new_request std t routing tiers image in
        let s1 = site.refresh s in
        let admission = admit (checkers std) req (site.inputs s1 origin.namespace) in
        let o = blank_outcome t admission.rejections in
        elim (Bool-cases (is_empty admission.candidates)) [
          | inl nobody ↦ inl (o, ground (arith, good, nobody), refl)
          | inr somebody ↦
              let (s2, attempts, ending) =
                attempt site.world std origin req
                  (map (λ c. (c.candidate.input.provider, c.candidate.nodes))
                    (rank fl std req admission.candidates))
                  s1 in
              inl (
                (filled o attempts ending).0,
                ground (arith, good, somebody),
                filled-task o attempts ending,
              )
        ]
  ]

  -- What the loop adds to the outcomes so far.
  abbrev Continues : List Task → List TaskOutcome → List TaskOutcome → Option (RunError E) → Type 0
  Continues ts done all err = (os : List TaskOutcome) × (all ≡ done ++ os) × Stopped ts os err

  run_from_lem :
      (s : S) (origin : Origin) (routing : Option Routing) (ts : List Task)
      (done : List TaskOutcome)
      → let (s', all, err) = run_from site fl std tiers s origin routing ts done in
        Continues ts done all err
  unfolding run_from
  run_from_lem s origin routing [] done =
      ([], sym (append-nil done), ((([], refl), tt), λ h k. (refl, tt)))
  run_from_lem s origin routing (t ∷ ts) done =
      let step = run_task site fl std tiers s origin t routing in
      let Goal : List TaskOutcome × Option (RunError E) → Type 0 =
        λ p. Continues (t ∷ ts) done p.0 p.1 in
      elim (Bool-cases (site.lost s)) [
        | inl taken ↦
            subst Goal {x = (done, some RunError.lease_lost)} (ground (arith, taken))
              ([], sym (append-nil done), Stopped-none (t ∷ ts) RunError.lease_lost)
        | inr ours ↦ elim (run_task-named s origin t routing) [
          | inr (x, nothing, failed) ↦
              subst Goal {x = (done, some x)} (ground (arith, ours, nothing, failed))
                ([], sym (append-nil done), Stopped-none (t ∷ ts) x)
          | inl (o, result, named) ↦ elim (Option-cases step.2) [
            | inr (x, failed) ↦
                subst Goal {x = (done ++ (o ∷ []), some x)} (ground (arith, ours, result, failed))
                  (o ∷ [], refl, Stopped-failed t ts o x named)
            | inl fine ↦ elim (Bool-cases (task_succeeded o)) [
              | inr failed ↦
                  subst Goal {x = (done ++ (o ∷ []), none)}
                    (ground (arith, ours, result, fine, failed))
                    (o ∷ [], refl, Stopped-not_passed t ts o named failed)
              | inl passes ↦
                  let (os, all, stopped) =
                    run_from_lem step.0 origin routing ts (done ++ (o ∷ [])) in
                  let (s', later, err) =
                    run_from site fl std tiers step.0 origin routing ts (done ++ (o ∷ [])) in
                  subst Goal {x = (later, err)} (ground (arith, ours, result, fine, passes)) (
                    o ∷ os,
                    all ∙ append_assoc done (o ∷ []) os,
                    Stopped-passed t ts o os err named passes stopped,
                  )
            ]
          ]
        ]
      ]

  -- A run that has begun always returns an outcome. Its tasks are the first that the job declares, in
  -- order, each but the last of them succeeded, and it finishes as succeeded exactly when it returns
  -- no error, the job declares a task and every task that it declares ran and succeeded.
  pub run_job-verdict_of_run :
      (message : RunError E → String) (s : S) (origin : Origin) (j : Job)
      → origin.dispatch ≢ 0
      → let (s', outcome, err) = run_job site fl std tiers s origin j in
        (o : JobOutcome) × (outcome ≡ some o)
        × RanInOrder j.tasks o.tasks
        × (((verdict_of_run message outcome err).0 ≡ DispatchState.dispatch_succeeded)
            ↔ ((err ≡ none) × (is_empty j.tasks ≡ false) × AllPassed j.tasks o.tasks))
  unfolding run_job
  run_job-verdict_of_run message s origin j begun =
      let named : Origin = record origin { job = j.name } in
      let (s1, outcomes, err) = run_from site fl std tiers s named j.routing j.tasks [] in
      let o : JobOutcome = record { job = j.name; dispatch = origin.dispatch; tasks = outcomes } in
      let (os, all, stopped) = run_from_lem s named j.routing j.tasks [] in
      let stops : Stopped j.tasks outcomes err =
        subst (λ l. Stopped j.tasks l err) (sym all) stopped in
      subst
        (λ (p : Option JobOutcome × Option (RunError E)).
          (o : JobOutcome) × (p.0 ≡ some o)
          × RanInOrder j.tasks o.tasks
          × (((verdict_of_run message p.0 p.1).0 ≡ DispatchState.dispatch_succeeded)
              ↔ ((p.1 ≡ none) × (is_empty j.tasks ≡ false) × AllPassed j.tasks o.tasks)))
        {x = (some o, err)} (ground (arith, begun))
        (o, refl, stops.0, verdict_of_run_iff message j.tasks o err stops)
