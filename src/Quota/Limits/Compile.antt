-- ===== src/Quota/Limits/Compile.antt =====
-- internal/quota/limits.go: what NewLimits accepts, and what it makes of it.
use mathlib.Core.List.{append-nil, append_assoc}
use native.Mathlib.Nat.{le-div_iff_mul-le}
use vagabond.Base.Int64.{two63, max_int64, two64}
use vagabond.Base.{
  List, ℕ, String, ◌<◌, ◌*◌, ◌≡◌, ◌∷◌, true, contains, ◌≤◌, arith, str_eq, false, ◌/◌, [], ◌↔◌,
  Result, suc, ◌⊎◌, zero, ◌++◌, All, Result-cases, inl, inr, ◌∙◌, subst, ap, sym, refl,
}
use vagabond.Quota.Meter.{scale, Meter, meter_valid, period_valid}
use vagabond.Quota.Limits.{
  PoolSpec, Pool, Limits, compile, base_limit, LimitsError, compile_all, new_limits,
}

-- What a spec compiles to: the same pool, its limit in base units, which fits an int64.
abbrev pub Matches : PoolSpec → Pool → Type 0
Matches s p =
    (p.name ≡ s.name)
    × (p.meter ≡ s.meter)
    × (p.period ≡ s.period)
    × (p.limit ≡ s.limit * scale s.meter)
    × (0 < p.limit)
    × (p.limit < two63)
    × (meter_valid p.meter ≡ true)
    × (period_valid p.period ≡ true)
    × (str_eq p.name "" ≡ false)

abbrev pub Compiled : List PoolSpec → Limits → Type 0
Compiled [] [] = Unit
Compiled (s ∷ ss) (p ∷ ps) = Matches s p × Compiled ss ps
Compiled _ _ = ⊥

-- No two pools share a name, nor has any a name of `seen`.
abbrev pub Fresh : List String → Limits → Type 0
Fresh seen [] = Unit
Fresh seen (p ∷ ps) = (contains str_eq seen p.name ≡ false) × Fresh (p.name ∷ seen) ps

scale_bounds : (m : Meter) → meter_valid m ≡ true → (0 < scale m) × (scale m ≤ 1024000)
unfolding scale
scale_bounds m v = ground arith

-- The guard of `baseLimit` is exact: it refuses a product that would not fit, and no other.
fits_iff : (limit k : ℕ) → 0 < k → (limit ≤ max_int64 / k) ↔ (limit * k < two63)
fits_iff limit k h =
    (λ l. omega (arith, (le-div_iff_mul-le h).0 l), λ l. (le-div_iff_mul-le h).1 (omega arith))

-- A positive int64 limit converts to its product with the scale, or is refused as too large.
base_limit-cases :
    (s : PoolSpec)
    → meter_valid s.meter ≡ true
    → s.limit < two63
    → ((base_limit s ≡ Result.ok (s.limit * scale s.meter)) × (s.limit * scale s.meter < two63))
      ⊎ ((base_limit s ≡ Result.err (LimitsError.too_large s.name))
          × (two63 ≤ s.limit * scale s.meter))
unfolding base_limit
base_limit-cases s v b =
    ground
      (arith, scale_bounds s.meter v, fits_iff s.limit (scale s.meter) (scale_bounds s.meter v).0)

product_bounds : (n k : ℕ) → 0 < k → (n ≤ n * k) × (0 < n → 0 < n * k)
product_bounds n k l = grind arith

product_pos : (n k : ℕ) → 0 < n * k → 0 < n
product_pos zero k l = ground arith
product_pos (suc n) k l = omega arith

compile_sound :
    (s : PoolSpec) (seen : List String) (p : Pool)
    → s.limit < two64
    → compile s seen ≡ Result.ok p
    → Matches s p × (contains str_eq seen p.name ≡ false)
unfolding compile
compile_sound s seen p b h =
    ground (arith, scale_bounds s.meter, base_limit-cases s, product_bounds s.limit (scale s.meter))

compile_complete :
    (s : PoolSpec) (seen : List String) (p : Pool)
    → Matches s p
    → contains str_eq seen p.name ≡ false
    → compile s seen ≡ Result.ok p
unfolding compile
compile_complete s seen p h f = rebuilt
  where
    v : meter_valid s.meter ≡ true
    v = ground arith

    small : s.limit < two63
    small =
        omega (arith, h.3, h.5, product_bounds s.limit (scale s.meter) (scale_bounds s.meter v).0)

    large : 0 < s.limit
    large = product_pos s.limit (scale s.meter) (ground arith)

    rebuilt : compile s seen ≡ Result.ok p
    rebuilt = ground (arith, base_limit-cases s v small, v, small, large)

-- The loop appends the pools of the specs left to those compiled so far.
compile_all_sound :
    (ss : List PoolSpec) (seen : List String) (pools l : Limits)
    → All (λ s. s.limit < two64) ss
    → compile_all ss seen pools ≡ Result.ok l
    → (rest : Limits) × (l ≡ pools ++ rest) × Compiled ss rest × Fresh seen rest
unfolding compile_all
compile_all_sound [] seen pools l b h = ([], rw append-nil (cc), tt, tt)
compile_all_sound (s ∷ ss) seen pools l b h = elim (Result-cases (compile s seen)) [
  | inl (p, e) ↦
      let m = compile_sound s seen p b.0 e in
      let later : (rest : Limits) × (l ≡ (pools ++ p ∷ []) ++ rest)
          × Compiled ss rest
          × Fresh (p.name ∷ seen) rest =
        compile_all_sound ss (p.name ∷ seen) (pools ++ p ∷ []) l b.1 (rw (e, compile_all) at h) in
      (p ∷ later.0, later.1 ∙ append_assoc pools (p ∷ []) later.0, (m.0, later.2), (m.1, later.3))
  | inr (e, r) ↦ cc (let j : Result.err e ≡ Result.ok l = (rw (r, compile_all) at h) in j)
]

compile_all_complete :
    (ss : List PoolSpec) (seen : List String) (pools rest : Limits)
    → Compiled ss rest
    → Fresh seen rest
    → compile_all ss seen pools ≡ Result.ok (pools ++ rest)
unfolding compile_all
compile_all_complete [] seen pools [] c f = rw append-nil
compile_all_complete [] seen pools (p ∷ rest) c f = absurd c
compile_all_complete (s ∷ ss) seen pools [] c f = absurd c
compile_all_complete (s ∷ ss) seen pools (p ∷ rest) c f =
    rw (compile_complete s seen p c.0 f.0, compile_all)
      (compile_all_complete ss (p.name ∷ seen) (pools ++ p ∷ []) rest c.1 f.1
        ∙ ap Result.ok (append_assoc pools (p ∷ []) rest))

-- `NewLimits` succeeds exactly when the specs have distinct nonempty names, known meters and periods
-- and positive limits whose base units fit an int64, and its pools are then the specs' own, in
-- order, each limit scaled without wrapping.
pub new_limits_iff :
    (specs : List PoolSpec) (pools : Limits)
    → All (λ s. s.limit < two64) specs
    → (new_limits specs ≡ Result.ok pools) ↔ (Compiled specs pools × Fresh [] pools)
unfolding new_limits
new_limits_iff [] [] b = (λ h. (tt, tt), λ h. refl)
new_limits_iff [] (p ∷ pools) b = (λ h. cc, λ h. absurd h.0)
new_limits_iff (s ∷ ss) pools b = (sound, λ h. compile_all_complete (s ∷ ss) [] [] pools h.0 h.1)
  where
    sound : compile_all (s ∷ ss) [] [] ≡ Result.ok pools → Compiled (s ∷ ss) pools × Fresh [] pools
    sound h =
        let (rest, e, c, f) = compile_all_sound (s ∷ ss) [] [] pools b h in
        subst (λ q. Compiled (s ∷ ss) q × Fresh [] q) (sym e) (c, f)
