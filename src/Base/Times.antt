-- ===== src/Base/Times.antt =====
-- time.Time and time.Duration. An instant is the nanoseconds since January 1 of year 1, which is
-- Go's zero time; a duration is an int64 of nanoseconds.
use vagabond.Base.Tests.{◌==◌, ltb, leb, if◌then◌else◌}
use vagabond.Base.Int64.{two63, two64, max_int64}
use Prim.Native.Nat.{ℕ, ◌-◌, min}
use mathlib.Core.Bool.{Bool}

abbrev pub Time : Type 0
Time = ℕ

abbrev pub is_zero : Time → Bool
is_zero t = t == 0

abbrev pub before : Time → Time → Bool
before t u = ltb t u

-- Sub saturates at the ends of int64.
abbrev pub time_sub : Time → Time → ℕ
time_sub t u = if leb u t then min (t - u) max_int64 else two64 - min (u - t) two63

abbrev pub millisecond : ℕ
millisecond = 1000000

abbrev pub second : ℕ
second = 1000000000

abbrev pub hour : ℕ
hour = 3600000000000
