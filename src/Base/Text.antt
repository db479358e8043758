-- ===== src/Base/Text.antt =====
-- Texts: the key test of a map with string keys, and the decimal forms that strconv and time write.
use Prim.Native.Nat.{ℕ, zero, suc, ◌/◌, ◌%◌}
use Prim.Native.String.{String, ◌++◌ as concat}
use text.Mathlib.Text.{◌==◌ as str_eq}
use text.Mathlib.TextEquality.{eq_iff}
use vagabond.Base.Tests.{ltb, if◌then◌else◌}
use vagabond.Base.Assoc.{KeyTest}

abbrev pub string_key : KeyTest String
string_key = record { eqb = str_eq; eqb_iff = eq_iff }

abbrev pub digit : ℕ → String
digit zero = "0"
digit (suc zero) = "1"
digit (suc (suc zero)) = "2"
digit (suc (suc (suc zero))) = "3"
digit (suc (suc (suc (suc zero)))) = "4"
digit (suc (suc (suc (suc (suc zero))))) = "5"
digit (suc (suc (suc (suc (suc (suc zero)))))) = "6"
digit (suc (suc (suc (suc (suc (suc (suc zero))))))) = "7"
digit (suc (suc (suc (suc (suc (suc (suc (suc zero)))))))) = "8"
digit _ = "9"

unfoldable pub decimal : ℕ → ℕ → String
decimal zero n = ""
decimal (suc f) n =
    let shorter = decimal f (n / 10) in
    if ltb n 10 then digit n else concat shorter (digit (n % 10))

-- strconv.Itoa of a number from 0 on. No int has more than 20 digits.
unfoldable pub itoa : ℕ → String
itoa n = decimal 20 n

-- A number with leading zeros up to two digits, and up to four.
unfoldable pub pad2 : ℕ → String
pad2 n = if ltb n 10 then concat "0" (itoa n) else itoa n

unfoldable pub pad4 : ℕ → String
pad4 n =
    if ltb n 10
    then concat "000" (itoa n)
    else if ltb n 100
    then concat "00" (itoa n)
    else if ltb n 1000
    then concat "0" (itoa n)
    else itoa n
