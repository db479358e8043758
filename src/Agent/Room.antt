-- ===== src/Agent/Room.antt =====
-- internal/agent/executions_endpoint.go: the sums of `fits`, for CPU and for memory alike.
use vagabond.Base.Int64.{add64, two63}
use vagabond.Base.Assoc.{Map, insert, erase, lookup, lookup-insert, lookup-erase}
use vagabond.Base.{
  [], ◌∷◌, ℕ, String, ◌+◌, string_key, List, ◌≡◌, ◌≤◌, false, some, if◌then◌else◌, arith, ◌&&◌, All,
  not, true, Bool-cases, str_eq, inl, eq_iff, inr, subst, refl, ◌<◌,
}
use vagabond.Agent.{
  WorkloadSize, Agent, HeldWorkload, is_reserved, holds, drop_held, end_workload, add_size,
  held_load, reserved_load,
}

-- No two containers have an ID in common.
abbrev pub DistinctIds : List HeldWorkload → Type 0
DistinctIds [] = Unit
DistinctIds (h ∷ hs) = (holds hs h.id ≡ false) × DistinctIds hs

module _ (m : WorkloadSize → ℕ) where
  -- What runs and is not counted as reserved.
  abbrev pub running_sum : Map String WorkloadSize → List HeldWorkload → ℕ
  running_sum reserved [] = 0
  running_sum reserved (h ∷ hs) =
      (if h.running && not (is_reserved reserved h.id) then m h.size else 0)
      + running_sum reserved hs

  abbrev pub reserved_sum : Map String WorkloadSize → ℕ
  reserved_sum [] = 0
  reserved_sum ((id, r) ∷ rs) = m r + reserved_sum rs

  -- What the node is asked for: by the submissions in flight, and by all else that runs.
  abbrev pub committed : Agent → ℕ
  committed a = running_sum a.reserved a.held + reserved_sum a.reserved

  pub reserved_sum-insert :
      (id : String) (spec : WorkloadSize) (reserved : Map String WorkloadSize)
      → is_reserved reserved id ≡ false
      → reserved_sum (insert string_key id spec reserved) ≡ reserved_sum reserved + m spec
  unfolding insert lookup
  reserved_sum-insert id spec [] h = omega arith
  reserved_sum-insert id spec ((j, r) ∷ rs) h = ground (arith, h, reserved_sum-insert id spec rs)

  pub reserved_sum-erase_le :
      (id : String) (reserved : Map String WorkloadSize)
      → reserved_sum (erase string_key id reserved) ≤ reserved_sum reserved
  unfolding erase
  reserved_sum-erase_le id [] = omega arith
  reserved_sum-erase_le id ((j, s) ∷ rs) = ground (arith, reserved_sum-erase_le id rs)

  pub reserved_sum-erase :
      (id : String) (r : WorkloadSize) (reserved : Map String WorkloadSize)
      → lookup string_key id reserved ≡ some r
      → reserved_sum (erase string_key id reserved) + m r ≤ reserved_sum reserved
  unfolding erase lookup
  reserved_sum-erase id r [] h = absurd (ground (arith, h))
  reserved_sum-erase id r ((j, s) ∷ rs) h =
      ground (arith, h, reserved_sum-erase id r rs, reserved_sum-erase_le id rs)

  pub running_sum-insert :
      (id : String) (spec : WorkloadSize) (reserved : Map String WorkloadSize)
      (held : List HeldWorkload)
      → running_sum (insert string_key id spec reserved) held ≤ running_sum reserved held
  running_sum-insert id spec reserved [] = omega arith
  running_sum-insert id spec reserved (h ∷ hs) = ground (
    arith,
    lookup-insert string_key id h.id spec reserved,
    running_sum-insert id spec reserved hs,
  )

  -- A workload that runs and is submitted again is counted once.
  pub running_sum-again :
      (id : String) (spec : WorkloadSize) (reserved : Map String WorkloadSize)
      (held : List HeldWorkload)
      → is_reserved reserved id ≡ false
      → All (λ h. h.id ≡ id → (h.running ≡ true) × (h.size ≡ spec)) held
      → holds held id ≡ true
      → running_sum (insert string_key id spec reserved) held + m spec ≤ running_sum reserved held
  running_sum-again id spec reserved [] new all there = absurd (ground (arith, there))
  running_sum-again id spec reserved (h ∷ hs) new all there = elim (Bool-cases (str_eq h.id id)) [
    | inl same ↦
        let e = (eq_iff h.id id).0 same in
        let (runs, sized) = all.0 e in
        ground (
          arith,
          same,
          e,
          runs,
          sized,
          new,
          lookup-insert string_key id h.id spec reserved,
          eq_iff id h.id,
          running_sum-insert id spec reserved hs,
        )
    | inr apart ↦ ground (
      arith,
      apart,
      there,
      lookup-insert string_key id h.id spec reserved,
      eq_iff id h.id,
      eq_iff h.id id,
      running_sum-again id spec reserved hs new all.1,
    )
  ]

  -- What is no longer reserved is counted by what runs of it.
  pub running_sum-erase_other :
      (id : String) (reserved : Map String WorkloadSize) (held : List HeldWorkload)
      → holds held id ≡ false
      → running_sum (erase string_key id reserved) held ≡ running_sum reserved held
  running_sum-erase_other id reserved [] h = refl
  running_sum-erase_other id reserved (x ∷ hs) h = ground (
    arith,
    h,
    lookup-erase string_key id x.id reserved,
    eq_iff id x.id,
    eq_iff x.id id,
    running_sum-erase_other id reserved hs,
  )

  pub running_sum-erase :
      (id : String) (r : WorkloadSize) (reserved : Map String WorkloadSize)
      (held : List HeldWorkload)
      → DistinctIds held
      → All (λ h. h.id ≡ id → h.size ≡ r) held
      → running_sum (erase string_key id reserved) held ≤ running_sum reserved held + m r
  running_sum-erase id r reserved [] d sized = omega arith
  running_sum-erase id r reserved (h ∷ hs) d sized = elim (Bool-cases (str_eq h.id id)) [
    | inl same ↦
        let e = (eq_iff h.id id).0 same in
        let rest = running_sum-erase_other id reserved hs (subst (λ j. holds hs j ≡ false) e d.0) in
        ground (
          arith,
          same,
          e,
          sized.0 e,
          rest,
          lookup-erase string_key id h.id reserved,
          eq_iff id h.id,
        )
    | inr apart ↦ ground (
      arith,
      apart,
      lookup-erase string_key id h.id reserved,
      eq_iff id h.id,
      eq_iff h.id id,
      running_sum-erase id r reserved hs d.1 sized.1,
    )
  ]

  pub running_sum-end_workload :
      (id : String) (reserved : Map String WorkloadSize) (held : List HeldWorkload)
      → running_sum reserved (end_workload id held) ≤ running_sum reserved held
  unfolding end_workload
  running_sum-end_workload id reserved [] = omega arith
  running_sum-end_workload id reserved (h ∷ hs) =
      ground (arith, running_sum-end_workload id reserved hs)

  pub running_sum-drop :
      (id : String) (reserved : Map String WorkloadSize) (held : List HeldWorkload)
      → running_sum reserved (drop_held id held) ≤ running_sum reserved held
  unfolding drop_held
  running_sum-drop id reserved [] = omega arith
  running_sum-drop id reserved (h ∷ hs) = ground (arith, running_sum-drop id reserved hs)

  -- The loops of `fits` count what is committed, where the sums stay in int64.
  module _ (adds : (a b : WorkloadSize) → m (add_size a b) ≡ add64 (m a) (m b)) where
    pub held_load-sum :
        (id : String) (reserved : Map String WorkloadSize) (used : WorkloadSize)
        (held : List HeldWorkload)
        → holds held id ≡ false
        → m used + running_sum reserved held < two63
        → (out : WorkloadSize) × (held_load id reserved used held ≡ some out)
          × (m out ≡ m used + running_sum reserved held)
    unfolding held_load
    held_load-sum id reserved used [] h small = (used, refl, omega arith)
    held_load-sum id reserved used (x ∷ hs) h small =
        let next =
          if x.running && not (is_reserved reserved x.id) then add_size used x.size else used in
        let counted : m next
            ≡ m used + (if x.running && not (is_reserved reserved x.id) then m x.size else 0) =
          ground (arith, small, adds used x.size) in
        let (out, ran, sum) =
          held_load-sum id reserved next hs (ground (arith, h)) (omega (arith, counted, small)) in
        (out, ground (arith, h, ran), omega (arith, sum, counted))

    pub reserved_load-sum :
        (used : WorkloadSize) (reserved : Map String WorkloadSize)
        → m used + reserved_sum reserved < two63
        → m (reserved_load used reserved) ≡ m used + reserved_sum reserved
    unfolding reserved_load
    reserved_load-sum used [] small = omega arith
    reserved_load-sum used ((id, r) ∷ rs) small =
        let next = adds used r in
        let sum = reserved_load-sum (add_size used r) rs (omega (arith, next, small)) in
        omega (arith, sum, next, small)
