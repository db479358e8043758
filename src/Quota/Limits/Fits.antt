-- ===== src/Quota/Limits/Fits.antt =====
-- internal/quota/limits.go: when an execution fits a provider's pools.
use vagabond.Base.Int64.{two63}
use vagabond.Quota.Meter.{Execution, charge}
use vagabond.Base.{
  ◌∷◌, [], ◌<◌, Option, All, ◌≡◌, some, ◌++◌, ◌⊎◌, ◌+◌, ◌≢◌, ◌≤◌, none, arith, ap, inl, inr, refl,
  ◌↔◌, Option-cases, subst, All-middle,
}
use vagabond.Quota.Limits.{PoolUsage, Limits, exceeded, Pool, usage_of}

-- No sum of a usage and a charge leaves int64.
abbrev pub InRange : PoolUsage → Execution → Pool → Type 0
InRange usage e p = (p.limit < two63) × (usage_of usage p.name + charge p.meter e < two63)

-- A pool has room for e if e does not charge it, or its charge and what was charged before stay
-- within the limit.
abbrev pub HasRoom : PoolUsage → Execution → Pool → Type 0
HasRoom usage e p = (charge p.meter e ≡ 0) ⊎ (usage_of usage p.name + charge p.meter e ≤ p.limit)

-- What `exceeded` says of a list of pools.
abbrev pub Verdict : Limits → PoolUsage → Execution → Option Pool → Type 0
Verdict pools usage e none = All (HasRoom usage e) pools
Verdict pools usage e (some p) =
    (before : Limits) × (after : Limits) × (pools ≡ before ++ p ∷ after)
    × All (HasRoom usage e) before
    × (charge p.meter e ≢ 0)
    × (p.limit < usage_of usage p.name + charge p.meter e)

-- A pool with room in front of the rest.
Verdict-cons :
    (p : Pool) (ps : Limits) (usage : PoolUsage) (e : Execution) (o : Option Pool)
    → HasRoom usage e p
    → Verdict ps usage e o
    → Verdict (p ∷ ps) usage e o
Verdict-cons p ps usage e none h v = (h, v)
Verdict-cons p ps usage e (some q) h (before, after, split, rooms, charged, full) =
    (p ∷ before, after, ap (λ l. p ∷ l) split, (h, rooms), charged, full)

-- The test of one pool, read without wrapping.
exceeded-cons :
    (p : Pool) (ps : Limits) (usage : PoolUsage) (e : Execution)
    → InRange usage e p
    → (HasRoom usage e p × (exceeded (p ∷ ps) usage e ≡ exceeded ps usage e))
      ⊎ ((charge p.meter e ≢ 0)
          × (p.limit < usage_of usage p.name + charge p.meter e)
          × (exceeded (p ∷ ps) usage e ≡ some p))
unfolding exceeded
exceeded-cons p ps usage e r = ground arith

-- `Exceeded` names the first pool without room for the execution, and nil exactly when every pool
-- has room, as long as no counter overflows.
pub exceeded_lem :
    (pools : Limits) (usage : PoolUsage) (e : Execution)
    → All (InRange usage e) pools
    → Verdict pools usage e (exceeded pools usage e)
exceeded_lem [] usage e r = unfold exceeded in tt
exceeded_lem (p ∷ ps) usage e r = elim (exceeded-cons p ps usage e r.0) [
  | inl (room, same) ↦
      rw same (Verdict-cons p ps usage e (exceeded ps usage e) room (exceeded_lem ps usage e r.1))
  | inr (charged, full, found) ↦ rw found ([], ps, refl, tt, charged, full)
]

-- Every pool has room exactly when none is named.
pub exceeded-none :
    (pools : Limits) (usage : PoolUsage) (e : Execution)
    → All (InRange usage e) pools
    → (exceeded pools usage e ≡ none) ↔ All (HasRoom usage e) pools
exceeded-none pools usage e r = elim (Option-cases (exceeded pools usage e)) [
  | inl unfull ↦ (λ h. subst (Verdict pools usage e) unfull verdict, λ h. unfull)
  | inr (p, full) ↦
      let (before, after, split, rooms, charged, over) =
        subst (Verdict pools usage e) full verdict in
      (
        λ h. cc (let j = (rw full at h) in j),
        λ h.
            let room =
              All-middle (HasRoom usage e) before p after (subst (All (HasRoom usage e)) split h) in
            ground (arith, room, charged, over),
      )
]
  where
    verdict : Verdict pools usage e (exceeded pools usage e)
    verdict = exceeded_lem pools usage e r

-- A sum that leaves int64 is let through: it wraps to a negative number, which is below any limit.
pub exceeded_wraps :
    (p : Pool) (usage : PoolUsage) (e : Execution)
    → p.limit < two63
    → usage_of usage p.name < two63
    → charge p.meter e < two63
    → two63 ≤ usage_of usage p.name + charge p.meter e
    → (p.limit < usage_of usage p.name + charge p.meter e) × (exceeded (p ∷ []) usage e ≡ none)
unfolding exceeded
exceeded_wraps p usage e a b c d = ground arith
