-- ===== src/Agent.antt =====
-- internal/agent/executions_endpoint.go: a node's agent takes a workload when it has room for it. The
-- executor is containerd's client; what it holds is a part of the state, and a submission is the
-- steps of its call, since only `tryClaim` runs under the mutex.
pub mod Room
pub mod Fits
pub mod Steps
pub mod Executor
mod Tests
use vagabond.Base.Assoc.{Map, erase, lookup, insert}
use vagabond.Base.Int64.{add64, slt}
use vagabond.Base.{
  ℕ, List, ◌∷◌, [], String, Bool, if◌then◌else◌, Option, true, not, str_eq, none, false, some,
  string_key, ◌||◌, ◌&&◌,
}

-- What a workload declares, in millicores and MiB: `Spec`, and `Held` beside its ID.
pub record WorkloadSize : Type 0 where
  pub cpu : ℕ
  pub memory : ℕ

pub record HeldWorkload : Type 0 where
  pub id : String
  pub size : WorkloadSize
  pub running : Bool

-- `executions`: the capacity, the submissions in flight, and the answer of the executor's `Held`.
pub record Agent : Type 0 where
  pub capacity : WorkloadSize
  pub reserved : Map String WorkloadSize
  pub held : List HeldWorkload

abbrev pub is_reserved : Map String WorkloadSize → String → Bool
is_reserved reserved id = elim (lookup string_key id reserved) [ none ↦ false | some _ ↦ true ]

abbrev pub add_size : WorkloadSize → WorkloadSize → WorkloadSize
add_size a b = record { cpu = add64 a.cpu b.cpu; memory = add64 a.memory b.memory }

-- The first loop of `fits`; none is a workload that is already held.
unfoldable pub held_load :
    String → Map String WorkloadSize → WorkloadSize → List HeldWorkload → Option WorkloadSize
held_load id reserved used [] = some used
held_load id reserved used (h ∷ hs) =
    let rest =
      held_load id reserved
        (if h.running && not (is_reserved reserved h.id) then add_size used h.size else used) hs in
    if str_eq h.id id then none else rest

-- The second loop.
unfoldable pub reserved_load : WorkloadSize → Map String WorkloadSize → WorkloadSize
reserved_load used [] = used
reserved_load used ((id, r) ∷ rs) = reserved_load (add_size used r) rs

-- `fits`, once the executor has answered.
unfoldable pub fits_room : Agent → String → WorkloadSize → Bool
fits_room a id spec = elim (held_load id a.reserved (record { cpu = 0; memory = 0 }) a.held) [
  | none ↦ true
  | some used ↦
      let all = reserved_load used a.reserved in
      not (
        slt a.capacity.cpu (add64 all.cpu spec.cpu)
        || slt a.capacity.memory (add64 all.memory spec.memory))
]

-- What one attempt to reserve room answers.
pub data Claim : Type 0 where
  claimed in_flight no_room : Claim

-- `tryClaim`
unfoldable pub try_claim : Agent → String → WorkloadSize → Agent × Claim
try_claim a id spec =
    if is_reserved a.reserved id
    then (a, Claim.in_flight)
    else if not (fits_room a id spec)
    then (a, Claim.no_room)
    else (record a { reserved = insert string_key id spec a.reserved }, Claim.claimed)

-- What `reserve` returns: the reservation is released.
unfoldable pub release_claim : Agent → String → Agent
release_claim a id = record a { reserved = erase string_key id a.reserved }

abbrev pub holds : List HeldWorkload → String → Bool
holds [] id = false
holds (h ∷ hs) id = str_eq h.id id || holds hs id

-- The executor's `Submit`: a workload already under the ID is left as it is.
unfoldable pub start : Agent → String → WorkloadSize → Agent
start a id spec =
    if holds a.held id
    then a
    else record a { held = record { id = id; size = spec; running = true } ∷ a.held }

-- A workload that ended, and the executor's `Release` of one.
unfoldable pub end_workload : String → List HeldWorkload → List HeldWorkload
end_workload id [] = []
end_workload id (h ∷ hs) =
    (if str_eq h.id id then record h { running = false } else h) ∷ end_workload id hs

unfoldable pub drop_held : String → List HeldWorkload → List HeldWorkload
drop_held id [] = []
drop_held id (h ∷ hs) = let rest = drop_held id hs in if str_eq h.id id then rest else h ∷ rest
