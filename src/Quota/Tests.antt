-- ===== src/Quota/Tests.antt =====
-- The quota theorems at concrete budgets.

use vagabond.Quota.Limits.Compile.{Compiled, Fresh, new_limits_iff}
use vagabond.Base.Float64.{ceil_quotient, scale_up, float_of, round_half_even, excess}
use vagabond.Quota.Limits.Fits.{Verdict, exceeded_lem, InRange}
use vagabond.Base.Assoc.{lookup}
use vagabond.Base.Int64.{two63}
use vagabond.Quota.Meter.{millis, Execution, charge, scale, Meter, Period}
use vagabond.Quota.Limits.{
  Pool, PoolUsage, Limits, new_limits, exceeded, compile_all, PoolSpec, compile, base_limit,
  LimitsError,
}
use vagabond.Base.{◌∷◌, All, List, [], ◌≡◌, arith, Result, ◌<◌, ◌↔◌, refl, ◌++◌, some}

abbrev task : Execution
task = record { cpu = 1000; memory = 512; duration = 90000500000 }

abbrev specs : List PoolSpec
specs =
    record { name = "runs"; meter = Meter.executions; limit = 100; period = Period.daily }
    ∷ record { name = "compute"; meter = Meter.gb_seconds; limit = 400000; period = Period.monthly }
    ∷ []

abbrev runs_pool : Pool
runs_pool = record { name = "runs"; meter = Meter.executions; period = Period.daily; limit = 100 }

abbrev compute_pool : Pool
compute_pool = record {
  name = "compute";
  meter = Meter.gb_seconds;
  period = Period.monthly;
  limit = 409600000000;
}

abbrev pools : Limits
pools = runs_pool ∷ compute_pool ∷ []

abbrev usage : PoolUsage
usage = ("runs", 99) ∷ ("compute", 409599999999) ∷ []

compiled : new_limits specs ≡ Result.ok pools
unfolding new_limits compile_all compile base_limit scale
compiled = refl

named_twice : new_limits (specs ++ specs) ≡ Result.err (LimitsError.declared_twice "runs")
unfolding new_limits compile_all compile base_limit scale
named_twice = refl

millis-task : millis task ≡ 90001
unfolding millis ceil_quotient scale_up float_of round_half_even excess
millis-task = refl

-- Past 2^32 milliseconds float64 can lose the last fraction: this one is charged too little.
millis_under_counts : millis (record task { duration = 17179869184000001 }) ≡ 17179869184
unfolding millis ceil_quotient scale_up float_of round_half_even excess
millis_under_counts = refl

charge-task : charge Meter.gb_seconds task ≡ 46080512
unfolding charge millis ceil_quotient scale_up float_of round_half_even excess
charge-task = refl

new_limits_iff_example :
    (new_limits specs ≡ Result.ok pools) ↔ (Compiled specs pools × Fresh [] pools)
new_limits_iff_example = new_limits_iff specs pools (omega arith)

task-InRange : All (InRange usage task) pools
unfolding charge millis ceil_quotient scale_up float_of round_half_even excess lookup
task-InRange = omega arith

exceeded_lem_example : Verdict pools usage task (exceeded pools usage task)
exceeded_lem_example = exceeded_lem pools usage task task-InRange

exceeded-task : exceeded pools usage task ≡ some compute_pool
unfolding exceeded charge millis ceil_quotient scale_up float_of round_half_even excess lookup
exceeded-task = refl

abbrev vast : Execution
vast = record { cpu = 0; memory = 9223372036854775; duration = 1000000000 }

abbrev huge_pool : Pool
huge_pool = record runs_pool { limit = 100000000000000000 }

charges_fit : All (λ p. charge p.meter task < two63) pools
unfolding charge millis ceil_quotient scale_up float_of round_half_even excess
charges_fit = omega arith
