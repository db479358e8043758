-- ===== src/Quota/Meter/Rounding.antt =====
-- internal/quota/meter.go: the whole milliseconds that a duration is charged as.
use vagabond.Base.Float64.{ceil_quotient_exact}
use vagabond.Base.{◌<◌, ◌≤◌, ◌*◌, millisecond, ◌+◌, arith, ◌-◌, ◌/◌}
use vagabond.Quota.Meter.{millis, Execution}

-- A duration of up to 2^32 milliseconds, some 49 days, is charged the least number of whole
-- milliseconds that covers it: it is never under-counted, and over-counted by less than one.
pub millis_covers :
    (e : Execution)
    → 0 < e.duration
    → e.duration ≤ 4294967296 * millisecond
    → (e.duration ≤ millis e * millisecond) × (millis e * millisecond < e.duration + millisecond)
unfolding millis
millis_covers e h w = ground (
  arith,
  ceil_quotient_exact ((e.duration - 1) / 1000000) e.duration (omega arith) (omega arith) w,
)
