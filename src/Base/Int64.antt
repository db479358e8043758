-- ===== src/Base/Int64.antt =====
-- Go's int64 and int (64 bits) as bit patterns below 2^64. A pattern from 2^63 on stands for a
-- negative number; sums and products wrap, and orders and divisions read the sign.
use Prim.Native.Nat.{ℕ, ◌+◌, ◌-◌, ◌*◌, ◌/◌, ◌%◌, ◌<◌}
use mathlib.Core.Path.{◌≡◌}
use mathlib.Core.Bool.{Bool}
use native.Mathlib.Omega.{arith}
use vagabond.Base.Tests.{ltb, leb, if◌then◌else◌}

abbrev pub two63 : ℕ
two63 = 9223372036854775808

abbrev pub two64 : ℕ
two64 = 18446744073709551616

-- math.MaxInt64
abbrev pub max_int64 : ℕ
max_int64 = 9223372036854775807

-- The number in order: the most negative pattern is 0, zero is 2^63.
abbrev pub bias : ℕ → ℕ
bias a = (a + two63) % two64

abbrev pub add64 : ℕ → ℕ → ℕ
add64 a b = (a + b) % two64

abbrev pub sub64 : ℕ → ℕ → ℕ
sub64 a b = (a + two64 - b) % two64

abbrev pub mul64 : ℕ → ℕ → ℕ
mul64 a b = (a * b) % two64

abbrev pub neg64 : ℕ → ℕ
neg64 a = (two64 - a) % two64

abbrev pub is_neg : ℕ → Bool
is_neg a = leb two63 a

abbrev pub slt : ℕ → ℕ → Bool
slt a b = ltb (bias a) (bias b)

abbrev pub sle : ℕ → ℕ → Bool
sle a b = leb (bias a) (bias b)

abbrev pub smin : ℕ → ℕ → ℕ
smin a b = if slt b a then b else a

abbrev pub smax : ℕ → ℕ → ℕ
smax a b = if slt a b then b else a

-- Division by a positive number, truncated toward zero.
abbrev pub sdiv : ℕ → ℕ → ℕ
sdiv a b = if is_neg a then neg64 (neg64 a / b) else a / b

-- On patterns of numbers from 0 on the order is that of ℕ.
pub slt_nonneg : (a b : ℕ) → a < two63 → b < two63 → slt a b ≡ ltb a b
slt_nonneg a b h k = ground arith
