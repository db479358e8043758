-- ===== src/Base/Calendar.antt =====
-- The UTC calendar of package time: the date that an instant falls on.
use vagabond.Base.{◌≡◌, refl}
use Prim.Native.Nat.{ℕ, ◌+◌, ◌-◌, ◌*◌, ◌/◌, ◌%◌, min}
use Prim.Native.String.{String, ◌++◌ as concat}
use mathlib.Core.Bool.{Bool, ◌&&◌, ◌||◌, not}
use mathlib.Core.List.{List, [], ◌∷◌}
use vagabond.Base.Tests.{ltb, ◌==◌, if◌then◌else◌}
use vagabond.Base.Times.{Time}
use vagabond.Base.Text.{pad2, pad4, itoa, decimal}

pub record Date : Type 0 where
  pub year : ℕ
  pub month : ℕ
  pub day : ℕ

unfoldable pub month_lengths : Bool → List ℕ
month_lengths leap =
    31 ∷ (if leap then 29 else 28) ∷ 31 ∷ 30 ∷ 31 ∷ 30 ∷ 31 ∷ 31 ∷ 30 ∷ 31 ∷ 30 ∷ 31 ∷ []

-- The month and day, both from 1, of a day of the year from 0.
unfoldable pub month_day : ℕ → ℕ → List ℕ → ℕ × ℕ
month_day m d [] = (m, d + 1)
month_day m d (n ∷ ns) =
    let later = month_day (m + 1) (d - n) ns in if ltb d n then (m, d + 1) else later

unfoldable pub date_of_days : ℕ → Date
date_of_days d =
    let n400 = d / 146097 in
    let r400 = d % 146097 in
    let n100 = min 3 (r400 / 36524) in
    let r100 = r400 - n100 * 36524 in
    let n4 = r100 / 1461 in
    let r4 = r100 % 1461 in
    let n1 = min 3 (r4 / 365) in
    let leap = n1 == 3 && (not (n4 == 24) || n100 == 3) in
    let (m, day) = month_day 1 (r4 - n1 * 365) (month_lengths leap) in
    record { year = 400 * n400 + 100 * n100 + 4 * n4 + n1 + 1; month = m; day = day }

-- t.UTC(), to the day.
unfoldable pub date : Time → Date
date t = date_of_days (t / 86400000000000)

-- Format "2006-01" and "2006-01-02".
unfoldable pub format_month : Time → String
format_month t = let d = date t in concat (pad4 d.year) (concat "-" (pad2 d.month))

unfoldable pub format_day : Time → String
format_day t = concat (format_month t) (concat "-" (pad2 (date t).day))

leap_day : format_day 63844761600000000000 ≡ "2024-02-29"
unfolding format_day format_month date date_of_days month_day month_lengths pad2 pad4 itoa decimal
leap_day = refl

last_day : format_day (63844761600000000000 + 306 * 86400000000000) ≡ "2024-12-31"
unfolding format_day format_month date date_of_days month_day month_lengths pad2 pad4 itoa decimal
last_day = refl
