-- ===== src/Agent/Executor.antt =====
-- internal/agent/executor/containerd.go: workloads as containers of one containerd. What a call of
-- containerd answers is a parameter, its error or none. A label is the value that was written as its
-- text. Each operation is one step, since one submission of an ID is in flight at a time.
use vagabond.Execution.State.{State}
use vagabond.Execution.Status.{Status}
use vagabond.Agent.{WorkloadSize, HeldWorkload}
use vagabond.Base.Assoc.{Map, lookup, erase, insert}
use vagabond.Base.{
  Result, Option, [], ◌∷◌, List, String, Time, ℕ, Bool, some, false, none, true, string_key, not,
  ◌≡◌, if◌then◌else◌, ◌==◌,
}
pub mod Calls
pub mod Refining
pub mod Reporting
mod Tests

-- The calls, and `ErrUnknown` or the error of one.
pub data ContainerdCall : Type 0 where
  load_container load_task pull create create_task delete_container set_labels start_task :
      ContainerdCall
  wait_task kill_task delete_task remove_log read_labels read_task : ContainerdCall

abbrev pub Failing : Type 0 → Type 0
Failing E = ContainerdCall → Option E

pub data WorkloadFault (E : Type 0) : Type 0 where
  unknown_workload : WorkloadFault E
  call_failed : E → WorkloadFault E

-- A task's status; `running` is any but Created and Stopped, which has an exit code and a time.
pub data TaskStatus : Type 0 where
  created running : TaskStatus
  stopped : ℕ → Time → TaskStatus

-- A container's labels, and its task if there is one.
pub record Container : Type 0 where
  pub started : Time
  pub cancelled : Bool
  pub size : WorkloadSize
  pub task : Option TaskStatus

abbrev pub Containers : Type 0
Containers = Map String Container

abbrev pub made : WorkloadSize → Time → Option TaskStatus → Container
made spec started task = record { started = started; cancelled = false; size = spec; task = task }

-- The end of `Submit`, for a container that was created.
unfoldable pub begin_task :
    {E : Type 0} → Failing E → Time → Containers → String → WorkloadSize → Containers × Option E
begin_task fails now m id spec = elim (fails ContainerdCall.create_task) [
  | some e ↦ (
    elim (fails ContainerdCall.delete_container) [ none ↦ m | some _ ↦ (id, made spec 0 none) ∷ m ],
    some e,
  )
  | none ↦ elim (fails ContainerdCall.set_labels) [
    | some e ↦ ((id, made spec 0 (some TaskStatus.created)) ∷ m, some e)
    | none ↦ elim (fails ContainerdCall.start_task) [
      | some e ↦ ((id, made spec now (some TaskStatus.created)) ∷ m, some e)
      | none ↦ ((id, made spec now (some TaskStatus.running)) ∷ m, none)
    ]
  ]
]

module _ {E : Type 0} (already : E) (fails : Failing E) (now : Time) where
  -- `Submit` of an ID that it did not find; `already` is containerd's error for an ID that is taken.
  unfoldable pub create_workload : Containers → String → WorkloadSize → Containers × Option E
  create_workload m id spec = elim (fails ContainerdCall.pull) [
    | some e ↦ (m, some e)
    | none ↦ elim (lookup string_key id m) [
      | some _ ↦ (m, some already)
      | none ↦ elim (fails ContainerdCall.create) [
        | some e ↦ (m, some e)
        | none ↦ begin_task fails now m id spec
      ]
    ]
  ]

  -- `Submit`
  unfoldable pub submit_workload : Containers → String → WorkloadSize → Containers × Option E
  submit_workload m id spec = elim (fails ContainerdCall.load_container) [
    | some _ ↦ create_workload m id spec
    | none ↦ elim (lookup string_key id m) [ some _ ↦ (m, none) | none ↦ create_workload m id spec ]
  ]

-- `load`
unfoldable pub load_workload :
    {E : Type 0} → Failing E → Containers → String → Result (WorkloadFault E) Container
load_workload fails m id = elim (fails ContainerdCall.load_container) [
  | some e ↦ Result.err (WorkloadFault.call_failed e)
  | none ↦ elim (lookup string_key id m) [
    | none ↦ Result.err WorkloadFault.unknown_workload
    | some c ↦ elim (fails ContainerdCall.load_task) [
      | some e ↦ Result.err (WorkloadFault.call_failed e)
      | none ↦ Result.ok c
    ]
  ]
]

-- `stop`: a task that is gone is no error. Its exit is a later step.
unfoldable pub stop_task : {E : Type 0} → Failing E → Option TaskStatus → Option (WorkloadFault E)
stop_task fails none = none
stop_task fails (some t) = elim (fails ContainerdCall.wait_task) [
  | some e ↦ some (WorkloadFault.call_failed e)
  | none ↦ elim (fails ContainerdCall.kill_task) [
    | some e ↦ some (WorkloadFault.call_failed e)
    | none ↦ none
  ]
]

-- `Cancel`
unfoldable pub cancel_workload :
    {E : Type 0} → Failing E → Containers → String → Containers × Option (WorkloadFault E)
cancel_workload fails m id = elim (load_workload fails m id) [
  | Result.err x ↦ (m, some x)
  | Result.ok c ↦ elim (fails ContainerdCall.set_labels) [
    | some e ↦ (m, some (WorkloadFault.call_failed e))
    | none ↦ (insert string_key id (record c { cancelled = true }) m, stop_task fails c.task)
  ]
]

-- The end of `Release`.
unfoldable pub delete_workload :
    {E : Type 0} → Failing E → Containers → String → Containers × Option (WorkloadFault E)
delete_workload fails m id = elim (fails ContainerdCall.delete_container) [
  | some e ↦ (m, some (WorkloadFault.call_failed e))
  | none ↦ (
    erase string_key id m,
    elim (fails ContainerdCall.remove_log) [
      | some e ↦ some (WorkloadFault.call_failed e)
      | none ↦ none
    ],
  )
]

-- `Release`
unfoldable pub release_workload :
    {E : Type 0} → Failing E → Containers → String → Containers × Option (WorkloadFault E)
release_workload fails m id = elim (load_workload fails m id) [
  | Result.err WorkloadFault.unknown_workload ↦ (m, none)
  | Result.err x ↦ (m, some x)
  | Result.ok c ↦ elim c.task [
    | none ↦ delete_workload fails m id
    | some t ↦ elim (fails ContainerdCall.delete_task) [
      | some e ↦ (m, some (WorkloadFault.call_failed e))
      | none ↦ delete_workload fails (insert string_key id (record c { task = none }) m) id
    ]
  ]
]

-- `terminal`
abbrev pub stopped_state : ℕ → Bool → State
stopped_state exit cancelled =
    if cancelled then State.cancelled else if exit == 0 then State.succeeded else State.failed

-- The state in `Status`.
unfoldable pub task_state : Option TaskStatus → Bool → State
task_state none cancelled = State.accepted
task_state (some TaskStatus.created) cancelled = State.accepted
task_state (some TaskStatus.running) cancelled = State.running
task_state (some (TaskStatus.stopped exit at)) cancelled = stopped_state exit cancelled

abbrev pub exit_time : Option TaskStatus → Time
exit_time (some (TaskStatus.stopped exit at)) = at
exit_time _ = 0

-- `Status`, at a reading of the clock.
unfoldable pub workload_status :
    {E : Type 0} → Failing E → Time → Containers → String → Result (WorkloadFault E) Status
workload_status fails now m id = elim (load_workload fails m id) [
  | Result.err x ↦ Result.err x
  | Result.ok c ↦ elim (fails ContainerdCall.read_labels) [
    | some e ↦ Result.err (WorkloadFault.call_failed e)
    | none ↦
        let out : Status = record {
          id = 0;
          state = task_state c.task c.cancelled;
          provider_id = id;
          started_at = c.started;
          ended_at = exit_time c.task;
          updated_at = now;
        } in
        elim c.task [
          | none ↦ Result.ok out
          | some t ↦ elim (fails ContainerdCall.read_task) [
            | some e ↦ Result.err (WorkloadFault.call_failed e)
            | none ↦ Result.ok out
          ]
        ]
  ]
]

abbrev pub is_stopped : Option TaskStatus → Bool
is_stopped (some (TaskStatus.stopped exit at)) = true
is_stopped _ = false

-- `Held`, once the labels are read.
unfoldable pub workloads : {E : Type 0} → Failing E → Containers → List HeldWorkload
workloads fails [] = []
workloads fails ((id, c) ∷ m) =
    record {
      id = id;
      size = c.size;
      running = elim (fails ContainerdCall.load_task) [
        | some _ ↦ true
        | none ↦ elim (fails ContainerdCall.read_task) [
          | some _ ↦ true
          | none ↦ not (is_stopped c.task)
        ]
      ];
    }
    ∷ workloads fails m

-- `Held`
unfoldable pub held_workloads :
    {E : Type 0} → Failing E → Containers → Result (WorkloadFault E) (List HeldWorkload)
held_workloads fails [] = Result.ok []
held_workloads fails (w ∷ m) = elim (fails ContainerdCall.read_labels) [
  | some e ↦ Result.err (WorkloadFault.call_failed e)
  | none ↦ Result.ok (workloads fails (w ∷ m))
]
