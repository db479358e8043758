-- ===== src/Agent/Executor/Refining.antt =====
-- internal/agent/executor/containerd.go: what the executor's calls do to what it holds are the steps
-- of the agent's model.
use vagabond.Agent.Executor.Calls.{
  submit_workload-Begun, cancel_workload-label, release_workload-erase, Happens,
}
use vagabond.Agent.Fits.{Step}
use vagabond.Agent.Room.{DistinctIds}
use vagabond.Base.Assoc.{lookup, insert, erase}
use vagabond.Agent.Executor.{
  Failing, ContainerdCall, workloads, Containers, Container, is_stopped, TaskStatus,
}
use vagabond.Agent.{
  start, Agent, end_workload, String, drop_held, WorkloadSize, holds, HeldWorkload,
}
use vagabond.Base.{
  ◌∷◌, [], ◌≡◌, none, string_key, List, some, ◌⊎◌, arith, true, eq_iff, refl, false, Bool-cases,
  inl, str_eq, inr, ap, subst, ◌∙◌, sym,
}

module _ {E : Type 0} where
  module _ (read : Failing E) (loads : read ContainerdCall.load_task ≡ none)
      (reads : read ContainerdCall.read_task ≡ none) where
    holds-workloads :
        (m : Containers) (id : String)
        → lookup string_key id m ≡ none
        → holds (workloads read m) id ≡ false
    unfolding workloads lookup
    holds-workloads [] id h = refl
    holds-workloads ((j, c) ∷ m) id h = ground (arith, h, holds-workloads m id)

    workloads-erase :
        (m : Containers) (id : String)
        → workloads read (erase string_key id m) ≡ drop_held id (workloads read m)
    unfolding workloads erase drop_held
    workloads-erase [] id = refl
    workloads-erase ((j, c) ∷ m) id = ground (arith, workloads-erase m id)

    -- A container that is no other in what it declares and whether it has ended.
    workloads-insert :
        (m : Containers) (id : String) (c d : Container)
        → lookup string_key id m ≡ some c
        → d.size ≡ c.size
        → is_stopped d.task ≡ is_stopped c.task
        → workloads read (insert string_key id d m) ≡ workloads read m
    unfolding workloads insert lookup
    workloads-insert [] id c d h same over = ground (arith, h)
    workloads-insert ((j, x) ∷ m) id c d h same over =
        ground (arith, h, same, over, loads, reads, eq_iff j id, workloads-insert m id c d)

    end_workload-absent :
        (id : String) (held : List HeldWorkload)
        → holds held id ≡ false
        → end_workload id held ≡ held
    unfolding end_workload
    end_workload-absent id [] h = refl
    end_workload-absent id (x ∷ hs) h = ground (arith, h, end_workload-absent id hs)

    workloads-exit :
        (m : Containers) (id : String) (c d : Container)
        → lookup string_key id m ≡ some c
        → d.size ≡ c.size
        → is_stopped d.task ≡ true
        → DistinctIds (workloads read m)
        → workloads read (insert string_key id d m) ≡ end_workload id (workloads read m)
    unfolding workloads insert lookup end_workload
    workloads-exit [] id c d h same over distinct = ground (arith, h)
    workloads-exit ((j, x) ∷ m) id c d h same over distinct = elim (Bool-cases (str_eq j id)) [
      | inl this ↦ ground (
        arith,
        h,
        same,
        over,
        loads,
        reads,
        this,
        distinct.0,
        end_workload-absent id (workloads read m),
        eq_iff j id,
      )
      | inr apart ↦ ground (
        arith,
        h,
        same,
        over,
        loads,
        reads,
        apart,
        workloads-exit m id c d (ground (arith, h, apart)) same over distinct.1,
      )
    ]

-- The agent with what it observes of the containers.
abbrev pub observed : {E : Type 0} → Failing E → Agent → Containers → Agent
observed read a m = record a { held = workloads read m }

observed-start :
    {E : Type 0} (read : Failing E) (a : Agent) (m : Containers)
    → read ContainerdCall.load_task ≡ none
    → read ContainerdCall.read_task ≡ none
    → (id : String) (spec : WorkloadSize) (c : Container) → lookup string_key id m ≡ none
    → c.size ≡ spec
    → is_stopped c.task ≡ false
    → start (observed read a m) id spec ≡ observed read a ((id, c) ∷ m)
unfolding start workloads
observed-start read a m loads reads id spec c new sized going =
    ground (arith, sized, going, loads, reads, holds-workloads read loads reads m id new)

-- When Held can read every task and no ID is held twice: each call of the executor for a reserved
-- submission, each cancellation, each release that succeeds and each end of a task either leaves what
-- the agent observes of its node, or is one of the steps that its room is kept under.
pub Happens-Step :
    {E : Type 0} (read : Failing E) (a : Agent) {m n : Containers}
    → read ContainerdCall.load_task ≡ none
    → read ContainerdCall.read_task ≡ none
    → DistinctIds (workloads read m)
    → Happens E a.reserved m n
    → (observed read a n ≡ observed read a m) ⊎ Step (observed read a m) (observed read a n)
Happens-Step read a {m} loads reads distinct (Happens.submits already fails now id spec given) =
    elim (submit_workload-Begun already fails now m id spec) [
      | inl same ↦ inl (ap (λ k. observed read a k) same)
      | inr (new, (c, more, sized, going)) ↦ inr (
          subst (λ b. Step (observed read a m) b) {x = start (observed read a m) id spec}
            (observed-start read a m loads reads id spec c new sized going
              ∙ ap (λ k. observed read a k) (sym more))
            (Step.starts (observed read a m) id spec given))
    ]
Happens-Step read a {m} loads reads distinct (Happens.cancels fails id) =
    elim (cancel_workload-label fails m id) [
      | inl same ↦ inl (ap (λ k. observed read a k) same)
      | inr (c, there, labelled) ↦ inl (
          ap (λ k. observed read a k) labelled
          ∙ ap (λ hs. record a { held = hs })
              (workloads-insert read loads reads m id c (record c { cancelled = true }) there refl
                refl))
    ]
Happens-Step read a {m} loads reads distinct (Happens.deletes fails id done) =
    elim (release_workload-erase fails m id done) [
      | inl (same, gone) ↦ inl (ap (λ k. observed read a k) same)
      | inr less ↦ inr (
          subst (λ b. Step (observed read a m) b)
            (ap (λ hs. record a { held = hs }) (sym (workloads-erase read loads reads m id))
              ∙ ap (λ k. observed read a k) (sym less))
            (Step.drops (observed read a m) id))
    ]
Happens-Step read a {m} loads reads distinct (Happens.exits id c t exit at there has going) = inr (
    subst (λ b. Step (observed read a m) b)
      (ap (λ hs. record a { held = hs })
        (sym (
          workloads-exit read loads reads m id c
            (record c { task = some (TaskStatus.stopped exit at) }) there refl refl distinct)))
      (Step.stops (observed read a m) id))
