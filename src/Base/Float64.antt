-- ===== src/Base/Float64.antt =====
-- Go's float64 on counting numbers: a conversion and a quotient round to 53 bits, ties to even.
use vagabond.Base.{lt→ltb, inl, leb→le, inr, ap}
use Prim.Native.Nat.{ℕ, zero, suc, ◌+◌, ◌-◌, ◌*◌, ◌/◌, ◌%◌, ◌^◌, ◌≤◌, ◌<◌}
use mathlib.Core.Path.{◌≡◌}
use native.Mathlib.Nat.{mul-le-mul_right, pow-suc, div-eq_of_lt-le}
use native.Mathlib.Omega.{arith}
use vagabond.Base.Tests.{ltb, leb, ◌==◌, if◌then◌else◌, Bool-cases}

abbrev two52 : ℕ
two52 = 4503599627370496

abbrev two53 : ℕ
two53 = 9007199254740992

-- The whole number nearest to n / d.
unfoldable pub round_half_even : ℕ → ℕ → ℕ
round_half_even n d =
    let q = n / d in
    let r = n % d in
    if ltb (2 * r) d then q else if ltb d (2 * r) then q + 1 else if q % 2 == 0 then q else q + 1

-- How many bits a number has past 53.
unfoldable pub excess : ℕ → ℕ → ℕ
excess zero a = 0
excess (suc f) a = if ltb a two53 then 0 else suc (excess f (a / 2))

-- float64(a) for a below 2^64.
unfoldable pub float_of : ℕ → ℕ
float_of a = let p = 2 ^ excess 11 a in round_half_even a p * p

-- The least power of two that takes a / b to 53 bits; quotients of 2^53 and more are not scaled.
unfoldable pub scale_up : ℕ → ℕ → ℕ → ℕ
scale_up zero a b = 1
scale_up (suc f) a b = if leb (two52 * b) a then 1 else 2 * scale_up f (2 * a) b

-- math.Ceil(float64(a) / float64(b)) for a below 2^64 and b such that the quotient has at most 53
-- bits before the point: 80 doublings take any nonzero a / b to 53 bits if b is below 2^28.
unfoldable pub ceil_quotient : ℕ → ℕ → ℕ
ceil_quotient a b =
    let x = float_of a in let p = scale_up 80 x b in (round_half_even (x * p) b + p - 1) / p

round_half_even_bounds :
    (n d : ℕ)
    → 0 < d
    → (2 * (round_half_even n d * d) ≤ 2 * n + d) × (2 * n ≤ 2 * (round_half_even n d * d) + d)
unfolding round_half_even
round_half_even_bounds n d h = grind arith

pub float_of_small : (a : ℕ) → a < two53 → float_of a ≡ a
unfolding float_of excess
float_of_small a h = rw (lt→ltb a two53 h) (grind (arith, round_half_even_bounds a 1))

scale_up-pos : (f a b : ℕ) → 0 < scale_up f a b
unfolding scale_up
scale_up-pos zero a b = omega arith
scale_up-pos (suc f) a b = ground (arith, scale_up-pos f (2 * a) b)

scale_up-enough : (f a b : ℕ) → two52 * b ≤ a * 2 ^ f → two52 * b ≤ a * scale_up f a b
unfolding scale_up
scale_up-enough zero a b h = omega arith
scale_up-enough (suc f) a b h = elim (Bool-cases (leb (two52 * b) a)) [
  | inl done ↦ rw done (omega (arith, leb→le _ _ done))
  | inr more ↦ rw more (
      omega (
        arith,
        scale_up-enough f (2 * a) b (omega (arith, h, ap (λ (t : ℕ). a * t) (pow-suc 2 f))),
      ))
]

pub ceil_between : (m p q : ℕ) → m * p < q → q ≤ m * p + p → (q + p - 1) / p ≡ m + 1
ceil_between m p q l u = grind (arith, div-eq_of_lt-le)

module _ (m a p : ℕ) (l : m * 1000000 < a) (u : a ≤ m * 1000000 + 1000000)
    (large : 1000000 < p) where
  scaled_above : 1000000 * (m * p) + p ≤ a * p
  scaled_above = omega (arith, mul-le-mul_right {m = m * 1000000 + 1} {n = a} p (omega arith))

  scaled_below : a * p ≤ 1000000 * (m * p) + 1000000 * p
  scaled_below = omega (arith, mul-le-mul_right {m = a} {n = m * 1000000 + 1000000} p u)

  rounded_ceil :
      (q : ℕ)
      → 2 * (q * 1000000) ≤ 2 * (a * p) + 1000000
      → 2 * (a * p) ≤ 2 * (q * 1000000) + 1000000
      → (q + p - 1) / p ≡ m + 1
  rounded_ceil q below above =
      ceil_between m p q (omega (arith, scaled_above)) (omega (arith, scaled_below))

scale_up_large : (a : ℕ) → 0 < a → a ≤ 4294967296 * 1000000 → 1000000 < scale_up 80 a 1000000
scale_up_large a h w = omega (
  arith,
  scale_up-enough 80 a 1000000 (omega arith),
  mul-le-mul_right {m = a} {n = 4294967296 * 1000000} (scale_up 80 a 1000000) w,
)

-- Rounding to float64 does not disturb the ceiling of a millionth of at most 2^32 millions.
pub ceil_quotient_exact :
    (m a : ℕ)
    → m * 1000000 < a
    → a ≤ m * 1000000 + 1000000
    → a ≤ 4294967296 * 1000000
    → ceil_quotient a 1000000 ≡ m + 1
unfolding ceil_quotient
ceil_quotient_exact m a l u w = rw (float_of_small a (omega arith)) (
    let p = scale_up 80 a 1000000 in
    let bounds = round_half_even_bounds (a * p) 1000000 (omega arith) in
    rounded_ceil m a p l u (scale_up_large a (omega arith) w) (round_half_even (a * p) 1000000)
      bounds.0 bounds.1)
