-- ===== src/Quota/Limits/Deltas.antt =====
-- internal/quota/limits.go: the map of charges, pool by pool.
use vagabond.Base.Assoc.{lookup-insert, lookup}
use vagabond.Base.Int64.{two63}
use vagabond.Quota.Limits.Compile.{Fresh}
use vagabond.Quota.Meter.{Execution, charge}
use vagabond.Quota.Limits.{deltas_from, PoolUsage, deltas, Limits, Pool, add_delta, usage_of}
use vagabond.Base.{
  refl, [], List, ◌∷◌, String, contains, str_eq, All, ◌≡◌, true, false, ◌<◌, arith, Bool-cases, ◌∙◌,
  inl, sym, eq_iff, string_key, ap, inr,
}
use mathlib.Core.Bool.{false≢true}

module _ (out : PoolUsage) (p : Pool) (e : Execution) where
  add_delta_self :
      usage_of out p.name ≡ 0
      → charge p.meter e < two63
      → usage_of (add_delta out p e) p.name ≡ charge p.meter e
  unfolding add_delta
  add_delta_self z b =
      ground
        (arith, lookup-insert string_key p.name p.name (charge p.meter e) out, eq_iff p.name p.name)

  add_delta-other :
      (n : String) → str_eq p.name n ≡ false → usage_of (add_delta out p e) n ≡ usage_of out n
  unfolding add_delta
  add_delta-other n d = ground (arith, lookup-insert string_key p.name n (charge p.meter e) out)

pub contains-apart :
    (seen : List String) (a n : String)
    → contains str_eq seen a ≡ false
    → contains str_eq seen n ≡ true
    → str_eq a n ≡ false
contains-apart seen a n f c = elim (Bool-cases (str_eq a n)) [
  | inl same ↦ absurd (false≢true (sym f ∙ ap (contains str_eq seen) ((eq_iff a n).0 same) ∙ c))
  | inr apart ↦ apart
]

-- A name seen before is no pool's, and reads as it did.
deltas_from-other :
    (out : PoolUsage) (pools : Limits) (e : Execution) (seen : List String) (n : String)
    → Fresh seen pools
    → contains str_eq seen n ≡ true
    → usage_of (deltas_from out pools e) n ≡ usage_of out n
unfolding deltas_from
deltas_from-other out [] e seen n f c = refl
deltas_from-other out (p ∷ ps) e seen n f c =
    deltas_from-other (add_delta out p e) ps e (p.name ∷ seen) n f.1 (ground arith)
    ∙ add_delta-other out p e n (contains-apart seen p.name n f.0 c)

unseen :
    (out : PoolUsage) (p : Pool) (e : Execution) (seen : List String)
    → ((n : String) → contains str_eq seen n ≡ false → usage_of out n ≡ 0)
    → (n : String) → contains str_eq (p.name ∷ seen) n ≡ false
    → usage_of (add_delta out p e) n ≡ 0
unseen out p e seen z n c = add_delta-other out p e n (ground arith) ∙ z n (ground arith)

deltas_from_lem :
    (out : PoolUsage) (pools : Limits) (e : Execution) (seen : List String)
    → Fresh seen pools
    → ((n : String) → contains str_eq seen n ≡ false → usage_of out n ≡ 0)
    → All (λ p. charge p.meter e < two63) pools
    → All (λ p. usage_of (deltas_from out pools e) p.name ≡ charge p.meter e) pools
unfolding deltas_from
deltas_from_lem out [] e seen f z b = tt
deltas_from_lem out (p ∷ ps) e seen f z b = (
  deltas_from-other (add_delta out p e) ps e (p.name ∷ seen) p.name f.1
        (ground (arith, eq_iff p.name p.name))
      ∙ add_delta_self out p e (z p.name f.0) b.0,
  deltas_from_lem (add_delta out p e) ps e (p.name ∷ seen) f.1 (unseen out p e seen z) b.1,
)

-- Where the pools have distinct names, the map of charges reads at each pool's name as what the
-- pool's own meter charges, zero included.
pub deltas_lem :
    (pools : Limits) (e : Execution)
    → Fresh [] pools
    → All (λ p. charge p.meter e < two63) pools
    → All (λ p. usage_of (deltas pools e) p.name ≡ charge p.meter e) pools
unfolding deltas lookup
deltas_lem pools e f b = deltas_from_lem [] pools e [] f (λ n c. refl) b
