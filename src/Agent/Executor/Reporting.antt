-- ===== src/Agent/Executor/Reporting.antt =====
-- internal/agent/executor/containerd.go: what Status reports of a workload, while it is held.
use vagabond.Execution.Status.{Status}
use vagabond.Agent.Executor.Calls.{
  submit_workload-Begun, cancel_workload-label, release_workload-erase, Happens,
}
use vagabond.Agent.{WorkloadSize}
use vagabond.Base.Assoc.{Map, lookup, lookup-erase, insert, lookup-insert}
use vagabond.Execution.State.{State, can_transition, terminal}
use vagabond.Agent.Executor.{
  Container, task_state, Containers, is_stopped, TaskStatus, workload_status, load_workload,
  Failing, ContainerdCall, release_workload, delete_workload,
}
use vagabond.Base.{
  String, inl, ◌≡◌, ◌⊎◌, ◌∙◌, inr, Option, true, sym, false, string_key, some, Bool, ap, arith,
  none, eq_iff, refl, Time, Result, Option-cases, ◌∷◌, Bool-cases, str_eq, ◌≢◌,
}

-- A change of state that the state machine allows, or none, or a late cancellation.
abbrev pub Advances : State → State → Type 0
Advances s t = (s ≡ t) ⊎ (can_transition s t ≡ true) ⊎ ((terminal s ≡ true) × (t ≡ State.cancelled))

-- A container after another of the same workload.
abbrev Later : Container → Container → Type 0
Later c d =
    ((d.task ≡ c.task) ⊎ ((is_stopped c.task ≡ false) × (is_stopped d.task ≡ true)))
    × (c.cancelled ≡ true → d.cancelled ≡ true)

Later-trans : (c d e : Container) → Later c d → Later d e → Later c e
Later-trans c d e h k = (
  elim h.0 [
    | inl same ↦ elim k.0 [
      | inl again ↦ inl (again ∙ same)
      | inr (going, over) ↦ inr (sym (ap is_stopped same) ∙ going, over)
    ]
    | inr (going, over) ↦ elim k.0 [
      | inl same ↦ inr (going, ap is_stopped same ∙ over)
      | inr (still, after) ↦ inr (going, after)
    ]
  ],
  λ given. k.1 (h.1 given),
)

same_task-Advances :
    (t : Option TaskStatus) (before after : Bool)
    → (before ≡ true → after ≡ true)
    → Advances (task_state t before) (task_state t after)
unfolding task_state terminal
same_task-Advances none before after k = inl refl
same_task-Advances (some TaskStatus.created) before after k = inl refl
same_task-Advances (some TaskStatus.running) before after k = inl refl
same_task-Advances (some (TaskStatus.stopped exit at)) true after k = inl (ground (arith, k refl))
same_task-Advances (some (TaskStatus.stopped exit at)) false true k = inr (inr (ground arith, refl))
same_task-Advances (some (TaskStatus.stopped exit at)) false false k = inl refl

ended_task-Advances :
    (t u : Option TaskStatus) (before after : Bool)
    → is_stopped t ≡ false
    → is_stopped u ≡ true
    → can_transition (task_state t before) (task_state u after) ≡ true
unfolding task_state can_transition
ended_task-Advances none (some (TaskStatus.stopped exit at)) before after h k = ground arith
ended_task-Advances (some TaskStatus.created) (some (TaskStatus.stopped exit at)) before after h k =
    ground arith
ended_task-Advances (some TaskStatus.running) (some (TaskStatus.stopped exit at)) before after h k =
    ground arith
ended_task-Advances t none before after h k = ground (arith, k)
ended_task-Advances t (some TaskStatus.created) before after h k = ground (arith, k)
ended_task-Advances t (some TaskStatus.running) before after h k = ground (arith, k)
ended_task-Advances (some (TaskStatus.stopped exit at)) u before after h k = ground (arith, h)

-- From a task that has not ended to any that has, and from one that has to itself.
task_state-Advances :
    (t u : Option TaskStatus) (before after : Bool)
    → (u ≡ t) ⊎ ((is_stopped t ≡ false) × (is_stopped u ≡ true))
    → (before ≡ true → after ≡ true)
    → Advances (task_state t before) (task_state u after)
task_state-Advances t u before after h k = elim h [
  | inl same ↦ rw same (same_task-Advances t before after k)
  | inr (going, over) ↦ inr (inl (ended_task-Advances t u before after going over))
]

-- A workload that is held all the time; releases of others may fail.
pub data Life (E : Type 0) (id : String) (m : Containers) : Containers → Type 0 where
  here : Life E id m m
  next :
      {n k : Containers} (reserved : Map String WorkloadSize) (c : Container)
      → Life E id m n
      → Happens E reserved n k
      → lookup string_key id k ≡ some c
      → Life E id m k
  other_release :
      {n : Containers} (fails : Failing E) (j : String)
      → Life E id m n
      → j ≢ id
      → Life E id m (release_workload fails n j).0

same-Later : (c d : Container) → some c ≡ some d → Later c d
same-Later c d h = (inl (ground (arith, h)), λ given. ground (arith, h, given))

added-lookup :
    (j id : String) (x c : Container) (m : Containers)
    → lookup string_key j m ≡ none
    → lookup string_key id m ≡ some c
    → lookup string_key id ((j, x) ∷ m) ≡ some c
unfolding lookup
added-lookup j id x c m new was = ground (arith, eq_iff j id, new, was)

-- A container is written in the place of one, of the same ID or another.
written-Later :
    (j id : String) (x y c d : Container) (m : Containers)
    → lookup string_key j m ≡ some x
    → Later x y
    → lookup string_key id m ≡ some c
    → lookup string_key id (insert string_key j y m) ≡ some d
    → Later c d
written-Later j id x y c d m there later was is = elim (Bool-cases (str_eq j id)) [
  | inl this ↦
      let from : some x ≡ some c = ground (arith, this, eq_iff j id, there, was) in
      let into : some y ≡ some d = ground (arith, this, lookup-insert string_key j id y m, is) in
      Later-trans c y d (Later-trans c x y (same-Later c x (sym from)) later) (same-Later y d into)
  | inr apart ↦ same-Later c d (ground (arith, apart, lookup-insert string_key j id y m, was, is))
]

Happens-Later :
    {E : Type 0} (reserved : Map String WorkloadSize) {m n : Containers} (id : String)
    (c d : Container)
    → Happens E reserved m n
    → lookup string_key id m ≡ some c
    → lookup string_key id n ≡ some d
    → Later c d
Happens-Later {E} reserved {m} id c d (Happens.submits already fails now j spec given) was is =
    elim (submit_workload-Begun already fails now m j spec) [
      | inl same ↦ same-Later c d (sym was ∙ ap (λ k. lookup string_key id k) (sym same) ∙ is)
      | inr (new, (x, more, sized, going)) ↦
          same-Later c d (
            sym (added-lookup j id x c m new was)
            ∙ ap (λ k. lookup string_key id k) (sym more)
            ∙ is)
    ]
Happens-Later {E} reserved {m} id c d (Happens.cancels fails j) was is =
    elim (cancel_workload-label fails m j) [
      | inl same ↦ same-Later c d (sym was ∙ ap (λ k. lookup string_key id k) (sym same) ∙ is)
      | inr (x, there, labelled) ↦
          written-Later j id x (record x { cancelled = true }) c d m there (inl refl, λ given. refl)
            was (ap (λ k. lookup string_key id k) (sym labelled) ∙ is)
    ]
Happens-Later {E} reserved {m} id c d (Happens.deletes fails j done) was is =
    elim (release_workload-erase fails m j done) [
      | inl (same, gone) ↦
          same-Later c d (sym was ∙ ap (λ k. lookup string_key id k) (sym same) ∙ is)
      | inr less ↦
          same-Later c d
            (ground (arith, eq_iff j id, less, lookup-erase string_key j id m, was, is))
    ]
Happens-Later {E} reserved {m} id c d (Happens.exits j x t exit at there has going) was is =
    written-Later j id x (record x { task = some (TaskStatus.stopped exit at) }) c d m there
      (inr (ap is_stopped has ∙ going, refl), λ given. given) was is

release_workload-other :
    {E : Type 0} (fails : Failing E) (m : Containers) (j id : String)
    → j ≢ id
    → lookup string_key id (release_workload fails m j).0 ≡ lookup string_key id m
unfolding release_workload delete_workload load_workload
release_workload-other fails m j id other = elim (Option-cases (lookup string_key j m)) [
  | inl gone ↦ ground (arith, gone, other, eq_iff j id, lookup-erase string_key j id m)
  | inr (c, there) ↦
      let bare : Container = record c { task = none } in
      ground (
        arith,
        there,
        other,
        eq_iff j id,
        lookup-erase string_key j id m,
        lookup-erase string_key j id (insert string_key j bare m),
        lookup-insert string_key j id bare m,
      )
]

Life-held :
    {E : Type 0} (id : String) (c : Container) {m n : Containers}
    → Life E id m n
    → lookup string_key id m ≡ some c
    → (d : Container) × (lookup string_key id n ≡ some d)
Life-held id c Life.here was = (c, was)
Life-held id c (Life.next reserved x l happens there) was = (x, there)
Life-held id c (Life.other_release {n} fails j l other) was =
    let (d, held) = Life-held id c l was in (d, release_workload-other fails n j id other ∙ held)

Life-Later :
    {E : Type 0} (id : String) (c : Container) {m n : Containers}
    → Life E id m n
    → lookup string_key id m ≡ some c
    → (d : Container) → lookup string_key id n ≡ some d
    → Later c d
Life-Later id c Life.here was d is = same-Later c d (sym was ∙ is)
Life-Later {E} id c {m} (Life.next {n} {k} reserved x l happens there) was d is =
    let (e, held) = Life-held id c l was in
    Later-trans c e d (Life-Later id c l was e held) (Happens-Later reserved id e d happens held is)
Life-Later {E} id c {m} (Life.other_release {n} fails j l other) was d is =
    Life-Later id c l was d (sym (release_workload-other fails n j id other) ∙ is)

status-state :
    {E : Type 0} (fails : Failing E) (now : Time) (m : Containers) (id : String) (st : Status)
    → workload_status fails now m id ≡ Result.ok st
    → (c : Container) × (lookup string_key id m ≡ some c)
      × (st.state ≡ task_state c.task c.cancelled)
unfolding workload_status load_workload
status-state fails now m id st h = elim (Option-cases (fails ContainerdCall.load_container)) [
  | inr (e, failed) ↦ ground (arith, h, failed)
  | inl loads ↦ elim (Option-cases (lookup string_key id m)) [
    | inl gone ↦ ground (arith, h, loads, gone)
    | inr (c, there) ↦ (
      c,
      there,
      elim (Option-cases c.task) [
        | inl bare ↦ ground (arith, h, loads, there, bare)
        | inr (t, has) ↦ ground (arith, h, loads, there, has)
      ],
    )
  ]
]

-- From one report of a workload that Status answers to a later one, while the workload is held: the
-- state is the same, or the state machine allows the change, or it had ended and is now cancelled.
-- (One case is left out: a release of this workload that deletes its task and then fails to delete the
-- container, after which it reads accepted again.)
pub workload_status-Advances :
    {E : Type 0} (f g : Failing E) (t u : Time) {m n : Containers} (id : String)
    (first second : Status)
    → workload_status f t m id ≡ Result.ok first
    → Life E id m n
    → workload_status g u n id ≡ Result.ok second
    → Advances first.state second.state
workload_status-Advances f g t u {m} {n} id first second before l after =
    let (c, was, s) = status-state f t m id first before in
    let (d, is, r) = status-state g u n id second after in
    let later = Life-Later id c l was d is in
    rw (s, r) (task_state-Advances c.task d.task c.cancelled d.cancelled later.0 later.1)
