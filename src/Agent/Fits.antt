-- ===== src/Agent/Fits.antt =====
-- internal/agent/executions_endpoint.go: what a node is asked for at once fits its capacity.
use vagabond.Base.Int64.{two63, slt, add64}
use vagabond.Agent.Room.{
  committed, DistinctIds, held_load-sum, reserved_load-sum, reserved_sum-insert, running_sum-again,
  running_sum-insert,
}
use vagabond.Agent.{
  Agent, fits_room, WorkloadSize, holds, try_claim, HeldWorkload, start, release_claim,
  end_workload, drop_held, reserved_load, not, is_reserved,
}
use vagabond.Base.Assoc.{Map, lookup, insert, lookup-insert}
use vagabond.Base.{
  String, List, ◌+◌, ◌≡◌, ◌≤◌, All, false, string_key, ◌<◌, true, some, arith, refl, Bool-cases,
  ◌∷◌, [], ℕ, Bool, inl, ◌||◌, subst, inr, sym, str_eq, eq_iff,
}

abbrev pub InRange : Agent → WorkloadSize → Type 0
InRange a spec =
    (committed (λ s. s.cpu) a + spec.cpu < two63)
    × (committed (λ s. s.memory) a + spec.memory < two63)

-- What is held under an ID that is submitted again runs, and declared the same size.
abbrev pub SameWorkload : String → WorkloadSize → List HeldWorkload → Type 0
SameWorkload id spec held = All (λ h. h.id ≡ id → (h.running ≡ true) × (h.size ≡ spec)) held

-- Calls of the agent and ends of workloads, in any order; a submission is a claim, a start if it
-- is not refused, and its release.
pub data Step : Agent → Agent → Type 0 where
  claims :
      (a : Agent) (id : String) (spec : WorkloadSize)
      → SameWorkload id spec a.held
      → InRange a spec
      → Step a (try_claim a id spec).0
  starts :
      (a : Agent) (id : String) (spec : WorkloadSize)
      → lookup string_key id a.reserved ≡ some spec
      → Step a (start a id spec)
  releases : (a : Agent) (id : String) → Step a (release_claim a id)
  stops : (a : Agent) (id : String) → Step a (record a { held = end_workload id a.held })
  drops : (a : Agent) (id : String) → Step a (record a { held = drop_held id a.held })

pub data Reach (a : Agent) : Agent → Type 0 where
  here : Reach a a
  next : {b c : Agent} → Reach a b → Step b c → Reach a c

-- A workload that is held and in flight is of the size that was claimed.
abbrev pub SizedAs : Map String WorkloadSize → List HeldWorkload → Type 0
SizedAs reserved held =
    All (λ h. (r : WorkloadSize) → lookup string_key h.id reserved ≡ some r → h.size ≡ r) held

pub record Inv (a : Agent) : Type 0 where
  pub cpu_fits : committed (λ s. s.cpu) a ≤ a.capacity.cpu
  pub memory_fits : committed (λ s. s.memory) a ≤ a.capacity.memory
  pub small : (a.capacity.cpu < two63) × (a.capacity.memory < two63)
  pub distinct : DistinctIds a.held
  pub sized : SizedAs a.reserved a.held

abbrev none_used : WorkloadSize
none_used = record { cpu = 0; memory = 0 }

within_one :
    (cap used spec : ℕ)
    → cap < two63
    → used + spec < two63
    → slt cap (add64 used spec) ≡ false
    → used + spec ≤ cap
within_one cap used spec c small h = ground (arith, c, small, h)

both_false : (a b : Bool) → not (a || b) ≡ true → (a ≡ false) × (b ≡ false)
both_false a b h = ground (arith, h)

-- A workload that the node does not hold passes `fits` only if there is room for it.
fits_room-fresh :
    (a : Agent) (id : String) (spec : WorkloadSize)
    → holds a.held id ≡ false
    → InRange a spec
    → (a.capacity.cpu < two63) × (a.capacity.memory < two63)
    → fits_room a id spec ≡ true
    → (committed (λ s. s.cpu) a + spec.cpu ≤ a.capacity.cpu)
      × (committed (λ s. s.memory) a + spec.memory ≤ a.capacity.memory)
unfolding fits_room
fits_room-fresh a id spec new range small fits =
    let (out, ran, cpu) =
      held_load-sum (λ s. s.cpu) (λ x y. refl) id a.reserved none_used a.held new
        (omega (arith, range)) in
    let (out', ran', memory) =
      held_load-sum (λ s. s.memory) (λ x y. refl) id a.reserved none_used a.held new
        (omega (arith, range)) in
    let same : out ≡ out' = ground (arith, ran, ran') in
    let all_cpu =
      reserved_load-sum (λ s. s.cpu) (λ x y. refl) out a.reserved (omega (arith, cpu, range)) in
    let all_memory =
      reserved_load-sum (λ s. s.memory) (λ x y. refl) out' a.reserved
        (omega (arith, memory, range)) in
    let all = reserved_load out a.reserved in
    let test : not (
          slt a.capacity.cpu (add64 all.cpu spec.cpu)
          || slt a.capacity.memory (add64 all.memory spec.memory))
        ≡ true =
      ground (arith, ran, fits) in
    let (cpu_ok, memory_ok) =
      both_false (slt a.capacity.cpu (add64 all.cpu spec.cpu))
        (slt a.capacity.memory (add64 all.memory spec.memory)) test in
    let again : all.memory ≡ (reserved_load out' a.reserved).memory = rw same refl in
    (
      omega (
        arith,
        cpu,
        all_cpu,
        within_one a.capacity.cpu all.cpu spec.cpu small.0 (omega (arith, cpu, all_cpu, range))
            cpu_ok,
      ),
      omega (
        arith,
        memory,
        all_memory,
        again,
        within_one a.capacity.memory all.memory spec.memory small.1
            (omega (arith, memory, all_memory, again, range)) memory_ok,
      ),
    )

-- A reservation of a workload commits no more than there is room for.
claimed_committed :
    (m : WorkloadSize → ℕ) (a : Agent) (id : String) (spec : WorkloadSize) (cap : ℕ)
    → is_reserved a.reserved id ≡ false
    → SameWorkload id spec a.held
    → committed m a ≤ cap
    → (holds a.held id ≡ false → committed m a + m spec ≤ cap)
    → committed m (record a { reserved = insert string_key id spec a.reserved }) ≤ cap
claimed_committed m a id spec cap new same fits room =
    let added = reserved_sum-insert m id spec a.reserved new in
    elim (Bool-cases (holds a.held id)) [
      | inl there ↦
          let once = running_sum-again m id spec a.reserved a.held new same there in
          omega (arith, added, once, fits)
      | inr fresh ↦
          let less = running_sum-insert m id spec a.reserved a.held in
          omega (arith, added, less, room fresh)
    ]

sized_insert :
    (id : String) (spec : WorkloadSize) (reserved : Map String WorkloadSize)
    (held : List HeldWorkload)
    → SameWorkload id spec held
    → SizedAs reserved held
    → SizedAs (insert string_key id spec reserved) held
sized_insert id spec reserved [] same sized = tt
sized_insert id spec reserved (h ∷ hs) same sized = (
  λ r given. elim (Bool-cases (str_eq id h.id)) [
    | inl this ↦
        let e = sym ((eq_iff id h.id).0 this) in
        ground (arith, this, given, same.0 e, lookup-insert string_key id h.id spec reserved)
    | inr apart ↦
        sized.0 r (ground (arith, apart, given, lookup-insert string_key id h.id spec reserved))
  ],
  sized_insert id spec reserved hs same.1 sized.1,
)

-- A claim keeps what the node is asked for within its capacity.
pub try_claim-Inv :
    (a : Agent) (id : String) (spec : WorkloadSize)
    → SameWorkload id spec a.held
    → InRange a spec
    → Inv a
    → Inv (try_claim a id spec).0
unfolding try_claim
try_claim-Inv a id spec same range v = elim (Bool-cases (is_reserved a.reserved id)) [
  | inl busy ↦ subst Inv {x = a} (ground (arith, busy)) v
  | inr new ↦ elim (Bool-cases (fits_room a id spec)) [
    | inr full ↦ subst Inv {x = a} (ground (arith, new, full)) v
    | inl fits ↦
        let room =
          λ (fresh : holds a.held id ≡ false). fits_room-fresh a id spec fresh range v.small fits in
        subst Inv {x = record a { reserved = insert string_key id spec a.reserved }}
          (ground (arith, new, fits))
          (record {
            cpu_fits =
                claimed_committed (λ s. s.cpu) a id spec a.capacity.cpu new same v.cpu_fits
                  (λ fresh. (room fresh).0);
            memory_fits =
                claimed_committed (λ s. s.memory) a id spec a.capacity.memory new same v.memory_fits
                  (λ fresh. (room fresh).1);
            small = v.small;
            distinct = v.distinct;
            sized = sized_insert id spec a.reserved a.held same v.sized;
          })
  ]
]
