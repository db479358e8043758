-- ===== src/Agent/Steps.antt =====
-- internal/agent/executions_endpoint.go: the other steps of the agent, and its histories.
use vagabond.Agent.Room.{
  DistinctIds, running_sum-end_workload, committed, running_sum-drop, running_sum,
  reserved_sum-erase_le, reserved_sum-erase, running_sum-erase,
}
use vagabond.Base.Assoc.{lookup, Map, erase, lookup-erase}
use vagabond.Agent.Fits.{Step, Inv, try_claim-Inv, Reach, SizedAs}
use vagabond.Base.{
  ◌∷◌, String, [], List, ℕ, string_key, arith, ◌≡◌, refl, false, Bool-cases, none, some, All, inl,
  str_eq, ◌≤◌, inr, eq_iff, Option-cases, subst, true, sym,
}
use vagabond.Agent.{
  drop_held, release_claim, Agent, WorkloadSize, end_workload, start, HeldWorkload, holds,
}

sized_erase :
    (id : String) (reserved : Map String WorkloadSize) (held : List HeldWorkload)
    → SizedAs reserved held
    → SizedAs (erase string_key id reserved) held
sized_erase id reserved [] sized = tt
sized_erase id reserved (h ∷ hs) sized = (
  λ r given. sized.0 r (ground (arith, given, lookup-erase string_key id h.id reserved)),
  sized_erase id reserved hs sized.1,
)

-- What is held of a reservation is of its size.
sized_at :
    (id : String) (r : WorkloadSize) (reserved : Map String WorkloadSize) (held : List HeldWorkload)
    → lookup string_key id reserved ≡ some r
    → SizedAs reserved held
    → All (λ h. h.id ≡ id → h.size ≡ r) held
sized_at id r reserved [] given sized = tt
sized_at id r reserved (h ∷ hs) given sized = (
  λ e. sized.0 r (subst (λ j. lookup string_key j reserved ≡ some r) (sym e) given),
  sized_at id r reserved hs given sized.1,
)

-- An ID that is not reserved is reserved no more or less once it is erased.
running_sum-unreserved :
    (m : WorkloadSize → ℕ) (id : String) (reserved : Map String WorkloadSize)
    (held : List HeldWorkload)
    → lookup string_key id reserved ≡ none
    → running_sum m (erase string_key id reserved) held ≡ running_sum m reserved held
running_sum-unreserved m id reserved [] h = refl
running_sum-unreserved m id reserved (x ∷ hs) h = ground (
  arith,
  h,
  lookup-erase string_key id x.id reserved,
  eq_iff id x.id,
  running_sum-unreserved m id reserved hs h,
)

released_committed :
    (m : WorkloadSize → ℕ) (a : Agent) (id : String)
    → DistinctIds a.held
    → SizedAs a.reserved a.held
    → committed m (record a { reserved = erase string_key id a.reserved }) ≤ committed m a
released_committed m a id distinct sized = elim (Option-cases (lookup string_key id a.reserved)) [
  | inl none_there ↦ omega (
    arith,
    running_sum-unreserved m id a.reserved a.held none_there,
    reserved_sum-erase_le m id a.reserved,
  )
  | inr (r, given) ↦ omega (
    arith,
    reserved_sum-erase m id r a.reserved given,
    running_sum-erase m id r a.reserved a.held distinct
        (sized_at id r a.reserved a.held given sized),
  )
]

release_claim-Inv : (a : Agent) (id : String) → Inv a → Inv (release_claim a id)
unfolding release_claim
release_claim-Inv a id v = record {
  cpu_fits = omega (arith, v.cpu_fits, released_committed (λ s. s.cpu) a id v.distinct v.sized);
  memory_fits =
      omega (arith, v.memory_fits, released_committed (λ s. s.memory) a id v.distinct v.sized);
  small = v.small;
  distinct = v.distinct;
  sized = sized_erase id a.reserved a.held v.sized;
}

start-Inv :
    (a : Agent) (id : String) (spec : WorkloadSize)
    → lookup string_key id a.reserved ≡ some spec
    → Inv a
    → Inv (start a id spec)
unfolding start
start-Inv a id spec given v = elim (Bool-cases (holds a.held id)) [
  | inl there ↦ subst Inv {x = a} (ground (arith, there)) v
  | inr new ↦
      let begun : HeldWorkload = record { id = id; size = spec; running = true } in
      subst Inv {x = record a { held = begun ∷ a.held }} (ground (arith, new)) (record {
        cpu_fits = ground (arith, given, v.cpu_fits);
        memory_fits = ground (arith, given, v.memory_fits);
        small = v.small;
        distinct = (new, v.distinct);
        sized = (λ r there. ground (arith, given, there), v.sized);
      })
]

-- Ends and deletions leave what they leave of what is held.
holds-end_workload :
    (id j : String) (held : List HeldWorkload) → holds (end_workload id held) j ≡ holds held j
unfolding end_workload
holds-end_workload id j [] = refl
holds-end_workload id j (h ∷ hs) = ground (arith, holds-end_workload id j hs)

DistinctIds-end_workload :
    (id : String) (held : List HeldWorkload) → DistinctIds held → DistinctIds (end_workload id held)
unfolding end_workload
DistinctIds-end_workload id [] d = tt
DistinctIds-end_workload id (h ∷ hs) d =
    ground (arith, d.0, holds-end_workload id h.id hs, DistinctIds-end_workload id hs d.1)

SizedAs-end_workload :
    (id : String) (reserved : Map String WorkloadSize) (held : List HeldWorkload)
    → SizedAs reserved held
    → SizedAs reserved (end_workload id held)
unfolding end_workload
SizedAs-end_workload id reserved [] sized = tt
SizedAs-end_workload id reserved (h ∷ hs) sized = (
  λ r given. elim (Bool-cases (str_eq h.id id)) [
    | inl this ↦ let e = sized.0 r (ground (arith, this, given)) in ground (arith, this, e)
    | inr apart ↦ let e = sized.0 r (ground (arith, apart, given)) in ground (arith, apart, e)
  ],
  SizedAs-end_workload id reserved hs sized.1,
)

holds-drop :
    (id j : String) (held : List HeldWorkload)
    → holds held j ≡ false
    → holds (drop_held id held) j ≡ false
unfolding drop_held
holds-drop id j [] h = refl
holds-drop id j (x ∷ hs) h = ground (arith, h, holds-drop id j hs)

DistinctIds-drop :
    (id : String) (held : List HeldWorkload) → DistinctIds held → DistinctIds (drop_held id held)
unfolding drop_held
DistinctIds-drop id [] d = tt
DistinctIds-drop id (h ∷ hs) d =
    ground (arith, d.0, holds-drop id h.id hs, DistinctIds-drop id hs d.1)

SizedAs-drop :
    (id : String) (reserved : Map String WorkloadSize) (held : List HeldWorkload)
    → SizedAs reserved held
    → SizedAs reserved (drop_held id held)
unfolding drop_held
SizedAs-drop id reserved [] sized = tt
SizedAs-drop id reserved (h ∷ hs) sized = elim (Bool-cases (str_eq h.id id)) [
  | inl this ↦ rw this (SizedAs-drop id reserved hs sized.1)
  | inr apart ↦ rw apart (sized.0, SizedAs-drop id reserved hs sized.1)
]

Step-Inv : {a b : Agent} → Step a b → Inv a → Inv b
Step-Inv (Step.claims a id spec same range) v = try_claim-Inv a id spec same range v
Step-Inv (Step.starts a id spec given) v = start-Inv a id spec given v
Step-Inv (Step.releases a id) v = release_claim-Inv a id v
Step-Inv (Step.stops a id) v = record {
  cpu_fits = omega (arith, v.cpu_fits, running_sum-end_workload (λ s. s.cpu) id a.reserved a.held);
  memory_fits =
      omega (arith, v.memory_fits, running_sum-end_workload (λ s. s.memory) id a.reserved a.held);
  small = v.small;
  distinct = DistinctIds-end_workload id a.held v.distinct;
  sized = SizedAs-end_workload id a.reserved a.held v.sized;
}
Step-Inv (Step.drops a id) v = record {
  cpu_fits = omega (arith, v.cpu_fits, running_sum-drop (λ s. s.cpu) id a.reserved a.held);
  memory_fits = omega (arith, v.memory_fits, running_sum-drop (λ s. s.memory) id a.reserved a.held);
  small = v.small;
  distinct = DistinctIds-drop id a.held v.distinct;
  sized = SizedAs-drop id a.reserved a.held v.sized;
}

-- On a node that fits its capacity at first, what is reserved by the submissions in flight and what
-- else runs always fit its capacity together, in CPU and in memory, whatever the order in which
-- submissions are claimed, start, end and are deleted. (A workload that is submitted again while it
-- is held is running and declares the same size, and no sum leaves int64.)
pub Reach-Inv : {a b : Agent} → Inv a → Reach a b → Inv b
Reach-Inv v Reach.here = v
Reach-Inv v (Reach.next r st) = Step-Inv st (Reach-Inv v r)
