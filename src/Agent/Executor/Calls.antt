-- ===== src/Agent/Executor/Calls.antt =====
-- internal/agent/executor/containerd.go: what each call of the executor does to the containers.
use vagabond.Agent.{WorkloadSize}
use vagabond.Base.Assoc.{erase, insert, lookup, Map}
use vagabond.Base.{
  [], ◌∷◌, String, ◌≡◌, Time, string_key, Option-cases, ◌⊎◌, none, arith, some, inl, false, eq_iff,
  inr, true, subst, refl, ℕ,
}
use vagabond.Agent.Executor.{
  release_workload, Containers, submit_workload, create_workload, cancel_workload, begin_task,
  Failing, load_workload, delete_workload, Container, is_stopped, ContainerdCall, made, TaskStatus,
}

-- Calls of the executor for the submissions that are in flight, releases that succeed, and the end of
-- a task.
pub data Happens (E : Type 0) (reserved : Map String WorkloadSize) (m : Containers)
    : Containers → Type 0 where
  submits :
      (already : E) (fails : Failing E) (now : Time) (id : String) (spec : WorkloadSize)
      → lookup string_key id reserved ≡ some spec
      → Happens E reserved m (submit_workload already fails now m id spec).0
  cancels : (fails : Failing E) (id : String) → Happens E reserved m (cancel_workload fails m id).0
  deletes :
      (fails : Failing E) (id : String)
      → (release_workload fails m id).1 ≡ none
      → Happens E reserved m (release_workload fails m id).0
  exits :
      (id : String) (c : Container) (t : TaskStatus) (exit : ℕ) (at : Time)
      → lookup string_key id m ≡ some c
      → c.task ≡ some t
      → is_stopped (some t) ≡ false
      → Happens E reserved m
          (insert string_key id (record c { task = some (TaskStatus.stopped exit at) }) m)

erase-insert :
    (id : String) (c : Container) (m : Containers)
    → erase string_key id (insert string_key id c m) ≡ erase string_key id m
unfolding erase insert
erase-insert id c [] = ground (arith, eq_iff id id)
erase-insert id c ((j, d) ∷ m) = ground (arith, eq_iff id id, eq_iff j id, erase-insert id c m)

-- The containers are left, or there is one more, which has not ended.
abbrev pub Begun : Containers → String → WorkloadSize → Containers → Type 0
Begun m id spec n =
    (n ≡ m)
    ⊎ ((lookup string_key id m ≡ none)
        × ((c : Container) × (n ≡ (id, c) ∷ m) × (c.size ≡ spec) × (is_stopped c.task ≡ false)))

module _ {E : Type 0} where
  begin_task-Begun :
      (fails : Failing E) (now : Time) (m : Containers) (id : String) (spec : WorkloadSize)
      → lookup string_key id m ≡ none
      → Begun m id spec (begin_task fails now m id spec).0
  unfolding begin_task
  begin_task-Begun fails now m id spec new =
      elim (Option-cases (fails ContainerdCall.create_task)) [
        | inr (e, failed) ↦ elim (Option-cases (fails ContainerdCall.delete_container)) [
          | inl undone ↦ inl (ground (arith, failed, undone))
          | inr (x, left) ↦ inr (new, (made spec 0 none, ground (arith, failed, left), refl, refl))
        ]
        | inl done ↦ elim (Option-cases (fails ContainerdCall.set_labels)) [
          | inr (e, failed) ↦ inr (
            new,
            (made spec 0 (some TaskStatus.created), ground (arith, done, failed), refl, refl),
          )
          | inl labelled ↦ elim (Option-cases (fails ContainerdCall.start_task)) [
            | inr (e, failed) ↦ inr (
              new,
              (
                made spec now (some TaskStatus.created),
                ground (arith, done, labelled, failed),
                refl,
                refl,
              ),
            )
            | inl started ↦ inr (
              new,
              (
                made spec now (some TaskStatus.running),
                ground (arith, done, labelled, started),
                refl,
                refl,
              ),
            )
          ]
        ]
      ]

  create_workload-Begun :
      (already : E) (fails : Failing E) (now : Time) (m : Containers) (id : String)
      (spec : WorkloadSize)
      → Begun m id spec (create_workload already fails now m id spec).0
  unfolding create_workload
  create_workload-Begun already fails now m id spec =
      elim (Option-cases (fails ContainerdCall.pull)) [
        | inr (e, failed) ↦ inl (ground (arith, failed))
        | inl pulled ↦ elim (Option-cases (lookup string_key id m)) [
          | inr (c, there) ↦ inl (ground (arith, pulled, there))
          | inl new ↦ elim (Option-cases (fails ContainerdCall.create)) [
            | inr (e, failed) ↦ inl (ground (arith, pulled, new, failed))
            | inl made_it ↦
                subst (λ n. Begun m id spec n) {x = (begin_task fails now m id spec).0}
                  (ground (arith, pulled, new, made_it)) (begin_task-Begun fails now m id spec new)
          ]
        ]
      ]

  pub submit_workload-Begun :
      (already : E) (fails : Failing E) (now : Time) (m : Containers) (id : String)
      (spec : WorkloadSize)
      → Begun m id spec (submit_workload already fails now m id spec).0
  unfolding submit_workload
  submit_workload-Begun already fails now m id spec =
      let made_it = create_workload-Begun already fails now m id spec in
      let same = (create_workload already fails now m id spec).0 in
      elim (Option-cases (fails ContainerdCall.load_container)) [
        | inr (e, failed) ↦
            subst (λ n. Begun m id spec n) {x = same} (ground (arith, failed)) made_it
        | inl loads ↦ elim (Option-cases (lookup string_key id m)) [
          | inr (c, there) ↦ inl (ground (arith, loads, there))
          | inl new ↦ subst (λ n. Begun m id spec n) {x = same} (ground (arith, loads, new)) made_it
        ]
      ]

  -- What a release that succeeds leaves.
  pub release_workload-erase :
      (fails : Failing E) (m : Containers) (id : String)
      → (release_workload fails m id).1 ≡ none
      → ((release_workload fails m id).0 ≡ m × (lookup string_key id m ≡ none))
        ⊎ ((release_workload fails m id).0 ≡ erase string_key id m)
  unfolding release_workload load_workload delete_workload
  release_workload-erase fails m id done = elim (Option-cases (lookup string_key id m)) [
    | inl gone ↦ inl (ground (arith, done, gone))
    | inr (c, there) ↦ elim (Option-cases c.task) [
      | inl bare ↦ inr (ground (arith, done, there, bare))
      | inr (t, has) ↦
          inr (ground (arith, done, there, has, erase-insert id (record c { task = none }) m))
    ]
  ]

  pub cancel_workload-label :
      (fails : Failing E) (m : Containers) (id : String)
      → ((cancel_workload fails m id).0 ≡ m)
        ⊎ ((c : Container) × (lookup string_key id m ≡ some c)
            × ((cancel_workload fails m id).0
                ≡ insert string_key id (record c { cancelled = true }) m))
  unfolding cancel_workload load_workload
  cancel_workload-label fails m id = elim (Option-cases (lookup string_key id m)) [
    | inl gone ↦ inl (elim (Option-cases (fails ContainerdCall.load_container)) [
      | inl loads ↦ ground (arith, loads, gone)
      | inr (e, failed) ↦ ground (arith, failed)
    ])
    | inr (c, there) ↦ elim (Option-cases (fails ContainerdCall.load_container)) [
      | inr (e, failed) ↦ inl (ground (arith, failed))
      | inl loads ↦ elim (Option-cases (fails ContainerdCall.load_task)) [
        | inr (e, failed) ↦ inl (ground (arith, loads, there, failed))
        | inl has ↦ elim (Option-cases (fails ContainerdCall.set_labels)) [
          | inr (e, failed) ↦ inl (ground (arith, loads, there, has, failed))
          | inl labelled ↦ inr (c, there, ground (arith, loads, there, has, labelled))
        ]
      ]
    ]
  ]
