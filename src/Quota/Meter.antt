-- ===== src/Quota/Meter.antt =====
-- internal/quota/meter.go: meters, periods, and what an execution costs a meter.
use vagabond.Base.Float64.{ceil_quotient}
use vagabond.Base.Calendar.{format_day, format_month}
use vagabond.Base.Int64.{mul64, smax, sle}
use vagabond.Base.{ℕ, Time, Bool, String, false, ◌*◌, if◌then◌else◌, true, millisecond}
pub mod Rounding

-- `other` is a Go string that names no meter.
pub data Meter : Type 0 where
  executions gb_seconds cpu_seconds seconds : Meter
  other : String → Meter

pub data Period : Type 0 where
  daily monthly : Period
  other : String → Period

abbrev pub meter_valid : Meter → Bool
meter_valid (Meter.other _) = false
meter_valid _ = true

abbrev pub period_valid : Period → Bool
period_valid (Period.other _) = false
period_valid _ = true

abbrev pub mebibytes_per_gibibyte : ℕ
mebibytes_per_gibibyte = 1024

abbrev pub millicores_per_vcpu : ℕ
millicores_per_vcpu = 1000

abbrev pub millis_per_second : ℕ
millis_per_second = 1000

unfoldable pub scale : Meter → ℕ
scale Meter.executions = 1
scale Meter.gb_seconds = mebibytes_per_gibibyte * millis_per_second
scale Meter.cpu_seconds = millicores_per_vcpu * millis_per_second
scale Meter.seconds = millis_per_second
scale (Meter.other _) = 0

-- `Key`: the calendar key that a period's counters are stored under.
unfoldable pub period_key : Period → Time → String
period_key Period.daily t = format_day t
period_key Period.monthly t = format_month t
period_key (Period.other _) t = ""

-- What a task declared: millicores, MiB and a duration, all int64.
pub record Execution : Type 0 where
  pub cpu : ℕ
  pub memory : ℕ
  pub duration : ℕ

-- The float64 quotient of a positive int64 by a millisecond, rounded up, is below 2^63.
unfoldable pub millis : Execution → ℕ
millis e = if sle e.duration 0 then 0 else ceil_quotient e.duration millisecond

unfoldable pub charge : Meter → Execution → ℕ
charge Meter.executions e = 1
charge Meter.gb_seconds e = mul64 (smax e.memory 0) (millis e)
charge Meter.cpu_seconds e = mul64 (smax e.cpu 0) (millis e)
charge Meter.seconds e = millis e
charge (Meter.other _) e = 0
