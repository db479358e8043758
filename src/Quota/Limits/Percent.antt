-- ===== src/Quota/Limits/Percent.antt =====
-- internal/quota/limits.go: the free percentage that plans rank and match by.
use vagabond.Quota.Meter.{Execution, charge}
use native.Mathlib.Nat.{div-le_self, div-le_of_le-mul, mul-div_cancel}
use vagabond.Base.Int64.{two63, two64, sle, smin}
use vagabond.Base.{
  if◌then◌else◌, ℕ, ◌<◌, ◌*◌, ◌≡◌, ◌≤◌, ◌-◌, ◌/◌, true, arith, [], ◌∷◌, All, ◌⊎◌, ◌==◌,
}
use vagabond.Quota.Limits.{
  pool_free_percent, remaining, Pool, PoolUsage, usage_of, free_percent_from, Limits, free_percent,
}

remaining_exact :
    (p : Pool) (used : ℕ) → p.limit < two63 → used < two63 → remaining p used ≡ p.limit - used
unfolding remaining
remaining_exact p used a c = ground arith

-- Below a hundredth of int64 a pool's percentage is exact: what is left, in hundredths of the limit,
-- rounded down. A pool used past its limit has 0.
pub pool_free_percent_exact :
    (p : Pool) (used : ℕ)
    → 0 < p.limit
    → p.limit * 100 < two63
    → used < two63
    → pool_free_percent p used ≡ (p.limit - used) * 100 / p.limit
unfolding pool_free_percent
pool_free_percent_exact p used a b c =
    ground (arith, remaining_exact p used (omega arith) c, mul-div_cancel 100 a)

-- A limit that `NewLimits` accepts can be so large that the product with 100 leaves int64: with over
-- half of the pool free, the percentage is then 0 or negative.
pub pool_free_percent_overflow :
    (p : Pool) (used : ℕ)
    → p.limit < two63
    → 0 < used
    → used < p.limit
    → two63 ≤ (p.limit - used) * 100
    → (p.limit - used) * 100 < two64
    → sle (pool_free_percent p used) 0 ≡ true
unfolding pool_free_percent
pool_free_percent_overflow p used a b c d e = ground (
  arith,
  remaining_exact p used a (omega arith),
  div-le_self (two64 - (p.limit - used) * 100) p.limit,
)

-- The limits and usages at which a percentage does not overflow.
abbrev pub Measured : PoolUsage → Pool → Type 0
Measured usage p = (0 < p.limit) × (p.limit * 100 < two63) × (usage_of usage p.name < two63)

-- The free percentage of what was charged to a pool.
abbrev pub percent_of : PoolUsage → Pool → ℕ
percent_of usage p = pool_free_percent p (usage_of usage p.name)

percent-le : (p : Pool) (usage : PoolUsage) → Measured usage p → percent_of usage p ≤ 100
percent-le p usage m = omega (
  arith,
  pool_free_percent_exact p (usage_of usage p.name) m.0 m.1 m.2,
  div-le_of_le-mul p.limit {m = (p.limit - usage_of usage p.name) * 100} {n = 100} (omega arith),
)

module _ (usage : PoolUsage) (e : Execution) where
  -- What the loop's result says of the pools that it passed.
  abbrev pub Bounds : ℕ → Limits → Type 0
  Bounds n pools = All (λ p. (charge p.meter e ≡ 0) ⊎ (n ≤ percent_of usage p)) pools

  free_percent_from_lem :
      (start : ℕ) (pools : Limits)
      → start ≤ 100
      → All (Measured usage) pools
      → (free_percent_from start pools usage e ≤ start)
        × Bounds (free_percent_from start pools usage e) pools
  unfolding free_percent_from
  free_percent_from_lem start [] s m = (omega arith, tt)
  free_percent_from_lem start (p ∷ ps) s m = ground (
    arith,
    percent-le p usage m.0,
    free_percent_from_lem (if charge p.meter e == 0 then start else smin start (percent_of usage p))
        ps,
  )

  -- The percentage that admission and ranking read is at most 100 and at most that of each pool
  -- that the execution charges.
  pub free_percent_lem :
      (pools : Limits)
      → All (Measured usage) pools
      → (free_percent pools usage e ≤ 100) × Bounds (free_percent pools usage e) pools
  unfolding free_percent
  free_percent_lem pools m = free_percent_from_lem 100 pools (omega arith) m
