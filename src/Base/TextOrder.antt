-- ===== src/Base/TextOrder.antt =====
-- strings.Compare: the order of texts byte by byte.
use Prim.Native.String.{String, [], ◌∷◌, compare}
use Prim.Native.String.compare.{nil-cons, cons-nil, cons-cons}
use mathlib.Core.Path.{◌≡◌, refl}
use mathlib.Core.Logic.{◌⊎◌, inl, inr}
use mathlib.Core.Bool.{Bool, true}
use text.Mathlib.Text.{is_le}
use native.Mathlib.Omega.{arith}

abbrev pub string_le : String → String → Bool
string_le a b = is_le (compare a b)

pub string_le_total : (s t : String) → (string_le s t ≡ true) ⊎ (string_le t s ≡ true)
string_le_total [] [] = inl refl
string_le_total [] (d ∷ t) = inl (ground (arith, nil-cons d t))
string_le_total (c ∷ s) [] = inr (ground (arith, nil-cons c s))
string_le_total (c ∷ s) (d ∷ t) =
    rw (cons-cons c d s t, cons-cons d c t s) (ground (arith, string_le_total s t))

pub string_le_trans :
    (s t u : String) → string_le s t ≡ true → string_le t u ≡ true → string_le s u ≡ true
string_le_trans [] t [] h k = refl
string_le_trans [] t (e ∷ u) h k = ground (arith, nil-cons e u)
string_le_trans (c ∷ s) [] u h k = ground (arith, cons-nil c s, h)
string_le_trans (c ∷ s) (d ∷ t) [] h k = ground (arith, cons-nil d t, k)
string_le_trans (c ∷ s) (d ∷ t) (e ∷ u) h k =
    ground (arith, cons-cons c d s t, cons-cons d e t u, cons-cons c e s u, string_le_trans s t u)
