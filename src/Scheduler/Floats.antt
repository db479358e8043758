-- ===== src/Scheduler/Floats.antt =====
-- The float64 operations that ranking uses, as an interface: IEEE 754 and package math are not read
-- here. Its laws are those of Go's `<`, on numbers; NaN is below none and above none.
use vagabond.Base.{Bool, ◌≡◌, ℕ, true, if◌then◌else◌, arith, false, ◌⊎◌, not}

pub record Floats (F : Type 0) : Type 0 where
  pub of_int : ℕ → F
  pub add : F → F → F
  pub over : F → F → F
  pub times : F → F → F
  pub less : F → F → Bool
  pub is_nan : F → Bool
  pub smaller : F → F → F
  pub greater : F → F → F
  pub rounded : F → ℕ

pub record IsOrdered {F : Type 0} (fl : Floats F) : Type 0 where
  pub less_asym : (x y : F) → fl.less x y ≡ true → fl.less y x ≡ false
  pub less_trans :
      (x y z : F)
      → fl.is_nan y ≡ false
      → fl.less y x ≡ false
      → fl.less z y ≡ false
      → fl.is_nan x ≡ false
      → fl.is_nan z ≡ false
      → fl.less z x ≡ false

module _ {F : Type 0} (fl : Floats F) where
  -- `cmp.Compare` of floats is not positive: NaN is equal to itself and less than any number.
  unfoldable pub float_le : F → F → Bool
  float_le x y = if fl.is_nan x then true else if fl.is_nan y then false else not (fl.less y x)

  -- `clamp`
  unfoldable pub clamp : F → F
  clamp x = fl.greater (fl.of_int 0) (fl.smaller (fl.of_int 1) x)

  module _ (o : IsOrdered fl) where
    pub float_le_total : (x y : F) → (float_le x y ≡ true) ⊎ (float_le y x ≡ true)
    unfolding float_le
    float_le_total x y = ground (arith, o.less_asym x y)

    pub float_le_trans :
        (x y z : F) → float_le x y ≡ true → float_le y z ≡ true → float_le x z ≡ true
    unfolding float_le
    float_le_trans x y z h k = ground (arith, o.less_trans x y z)
