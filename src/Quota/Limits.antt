-- ===== src/Quota/Limits.antt =====
-- internal/quota/limits.go: the pools compiled from an operator's budgets, what an execution charges
-- them, and whether it fits. A limit and a usage are int64 bit patterns.
use vagabond.Base.Int64.{smax, slt, sle, sub64, max_int64, sdiv, add64, smin, mul64}
use vagabond.Quota.Meter.{Execution, Meter, charge, Period, meter_valid, scale, period_valid}
use vagabond.Base.Assoc.{Map, lookup, insert}
use vagabond.Base.{
  ℕ, Bool, String, Result, List, if◌then◌else◌, ◌∷◌, max, [], Option, is_empty, str_eq, string_key,
  ◌++◌, none, true, contains, some, ◌==◌, ◌/◌, not, false,
}
pub mod Compile
pub mod Fits
pub mod Percent
pub mod Deltas

pub record PoolSpec : Type 0 where
  pub name : String
  pub meter : Meter
  pub limit : ℕ
  pub period : Period

pub record Pool : Type 0 where
  pub name : String
  pub meter : Meter
  pub period : Period
  pub limit : ℕ

pub data LimitsError : Type 0 where
  no_name : LimitsError
  declared_twice : String → LimitsError
  unknown_meter : String → Meter → LimitsError
  unknown_period : String → Period → LimitsError
  no_positive_limit : String → LimitsError
  too_large : String → LimitsError

-- `Limits` is its list of pools.
abbrev pub Limits : Type 0
Limits = List Pool

-- `PoolUsage`: what each pool has been charged, by name. A missing name reads as 0.
abbrev pub PoolUsage : Type 0
PoolUsage = Map String ℕ

abbrev pub usage_of : PoolUsage → String → ℕ
usage_of usage name = elim (lookup string_key name usage) [ none ↦ 0 | some n ↦ n ]

unfoldable pub base_limit : PoolSpec → Result LimitsError ℕ
base_limit spec =
    if slt (max_int64 / scale spec.meter) spec.limit
    then Result.err (LimitsError.too_large spec.name)
    else Result.ok (mul64 spec.limit (scale spec.meter))

-- `seen` is the names declared so far.
unfoldable pub compile : PoolSpec → List String → Result LimitsError Pool
compile spec seen =
    if str_eq spec.name ""
    then Result.err LimitsError.no_name
    else if contains str_eq seen spec.name
    then Result.err (LimitsError.declared_twice spec.name)
    else if not (meter_valid spec.meter)
    then Result.err (LimitsError.unknown_meter spec.name spec.meter)
    else if not (period_valid spec.period)
    then Result.err (LimitsError.unknown_period spec.name spec.period)
    else if sle spec.limit 0
    then Result.err (LimitsError.no_positive_limit spec.name)
    else elim (base_limit spec) [
      | Result.err e ↦ Result.err e
      | Result.ok limit ↦
          Result.ok
            (record { name = spec.name; meter = spec.meter; period = spec.period; limit = limit })
    ]

-- The loop of `NewLimits`, over the specs left, the names seen and the pools compiled.
unfoldable pub compile_all : List PoolSpec → List String → List Pool → Result LimitsError Limits
compile_all [] seen pools = Result.ok pools
compile_all (spec ∷ specs) seen pools = elim (compile spec seen) [
  | Result.err e ↦ Result.err e
  | Result.ok pool ↦ compile_all specs (pool.name ∷ seen) (pools ++ pool ∷ [])
]

unfoldable pub new_limits : List PoolSpec → Result LimitsError Limits
new_limits specs = if is_empty specs then Result.ok [] else compile_all specs [] []

abbrev pub unlimited : Limits → Bool
unlimited pools = is_empty pools

-- One round of the loop of `Deltas`, on the map built so far.
unfoldable pub add_delta : PoolUsage → Pool → Execution → PoolUsage
add_delta out p e =
    if slt 0 (charge p.meter e) then insert string_key p.name (charge p.meter e) out else out

unfoldable pub deltas_from : PoolUsage → Limits → Execution → PoolUsage
deltas_from out [] e = out
deltas_from out (p ∷ ps) e = deltas_from (add_delta out p e) ps e

-- What e charges each pool, without those that it does not touch.
unfoldable pub deltas : Limits → Execution → PoolUsage
unfolding deltas_from
deltas pools e = deltas_from [] pools e

unfoldable pub exceeded : Limits → PoolUsage → Execution → Option Pool
exceeded [] usage e = none
exceeded (p ∷ ps) usage e =
    let rest = exceeded ps usage e in
    if charge p.meter e == 0
    then rest
    else if slt p.limit (add64 (usage_of usage p.name) (charge p.meter e))
    then some p
    else rest

abbrev pub within : Limits → PoolUsage → Execution → Bool
within pools usage e = elim (exceeded pools usage e) [ none ↦ true | some _ ↦ false ]

unfoldable pub remaining : Pool → ℕ → ℕ
remaining p used = smax (sub64 p.limit used) 0

unfoldable pub pool_free_percent : Pool → ℕ → ℕ
pool_free_percent p used = if sle used 0 then 100 else sdiv (mul64 (remaining p used) 100) p.limit

-- The loop of `FreePercent`, which starts at 100.
unfoldable pub free_percent_from : ℕ → Limits → PoolUsage → Execution → ℕ
free_percent_from percent [] usage e = percent
free_percent_from percent (p ∷ ps) usage e =
    free_percent_from
      (if charge p.meter e == 0
        then percent
        else smin percent (pool_free_percent p (usage_of usage p.name)))
      ps usage e

unfoldable pub free_percent : Limits → PoolUsage → Execution → ℕ
unfolding free_percent_from
free_percent pools usage e = free_percent_from 100 pools usage e
