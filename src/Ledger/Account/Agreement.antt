-- ===== src/Ledger/Account/Agreement.antt =====
-- internal/ledger/ledger.go: the store's check of a reservation, against the quota package's check of
-- the same usage.
use vagabond.Ledger.Account.Store.{Store}
use vagabond.Quota.Limits.Deltas.{contains-apart, deltas_lem}
use vagabond.Base.Assoc.{insert, lookup-insert}
use vagabond.Quota.Limits.Fits.{InRange, Verdict, exceeded_lem, HasRoom}
use vagabond.Base.Int64.{two63}
use vagabond.Quota.Limits.Compile.{Fresh}
use vagabond.Quota.Limits.{Pool, Limits, PoolUsage, usage_of, exceeded, deltas}
use vagabond.Ledger.Account.{
  usage_of_from, layer_usage, pool_key, layer_refusal, Refusal, charges, refusal, charges_of,
  reservation, Budgets, total_of, share_of, total_namespace, ReserveError,
}
use vagabond.Quota.Meter.{Execution, charge}
use vagabond.Base.{
  ◌∷◌, [], String, Time, ℕ, ◌<◌, List, contains, ◌+◌, All, str_eq, ◌≡◌, true, string_key, arith,
  ◌∙◌, eq_iff, All-zip, All-map, none, refl, some, false, Option-cases, ◌++◌, inl, subst, inr,
  All-middle, sym, ◌⊎◌,
}
use vagabond.Ledger.Memory.{Usage, read, fits, Charge}
use mathlib.Core.Bool.{false≢true}

module _ (u : Usage) (namespace provider : String) (now : Time) where
  -- What the store counts for a pool, in its current period.
  abbrev pub counted : Pool → ℕ
  counted p = read u (pool_key namespace provider now p)

  usage_of_from-other :
      (out : PoolUsage) (pools : Limits) (seen : List String) (n : String)
      → Fresh seen pools
      → contains str_eq seen n ≡ true
      → usage_of (usage_of_from out u namespace provider pools now) n ≡ usage_of out n
  unfolding usage_of_from
  usage_of_from-other out [] seen n f c = refl
  usage_of_from-other out (p ∷ ps) seen n f c =
      usage_of_from-other (insert string_key p.name (counted p) out) ps (p.name ∷ seen) n f.1
        (ground arith)
      ∙ ground (
        arith,
        lookup-insert string_key p.name n (counted p) out,
        contains-apart seen p.name n f.0 c,
      )

  usage_of_from_lem :
      (out : PoolUsage) (pools : Limits) (seen : List String)
      → Fresh seen pools
      → All
          (λ p. usage_of (usage_of_from out u namespace provider pools now) p.name ≡ counted p)
          pools
  unfolding usage_of_from
  usage_of_from_lem out [] seen f = tt
  usage_of_from_lem out (p ∷ ps) seen f = (
    usage_of_from-other (insert string_key p.name (counted p) out) ps (p.name ∷ seen) p.name f.1
          (ground (arith, eq_iff p.name p.name))
        ∙ ground
            (arith, lookup-insert string_key p.name p.name (counted p) out, eq_iff p.name p.name),
    usage_of_from_lem (insert string_key p.name (counted p) out) ps (p.name ∷ seen) f.1,
  )

  layer_usage_lem :
      (pools : Limits)
      → Fresh [] pools
      → All (λ p. usage_of (layer_usage u namespace provider pools now) p.name ≡ counted p) pools
  unfolding layer_usage
  layer_usage_lem pools f = usage_of_from_lem [] pools [] f

  -- No counter of the layer leaves int64 when e is charged.
  abbrev pub Countable : Execution → Pool → Type 0
  Countable e p = (p.limit < two63) × (counted p + charge p.meter e < two63)

  -- A refusal that says truly of a pool of the layer what its limit is, what the usage counts for it
  -- in its current period and what e needs of it, which together pass that limit.
  abbrev pub Truly : Execution → Limits → Refusal → Type 0
  Truly e pools x =
      (p : Pool) × (before : Limits) × (after : Limits) × (pools ≡ before ++ p ∷ after)
      × (x ≡ record {
        namespace = namespace;
        provider = provider;
        pool = p.name;
        meter = p.meter;
        limit = p.limit;
        used = counted p;
        needed = charge p.meter e;
      })
      × (p.limit < counted p + charge p.meter e)

  module _ (e : Execution) (pools : Limits) (f : Fresh [] pools) (r : All (Countable e) pools) where
    abbrev read_layer : PoolUsage
    read_layer = layer_usage u namespace provider pools now

    -- What the two maps read at a pool.
    abbrev Reads : Pool → Type 0
    Reads p =
        ((usage_of read_layer p.name ≡ counted p)
          × (usage_of (deltas pools e) p.name ≡ charge p.meter e))
        × Countable e p

    readings : All Reads pools
    readings =
        All-zip _ _ pools
          (All-zip _ _ pools (layer_usage_lem pools f)
            (deltas_lem pools e f (All-map (Countable e) _ pools (λ p c. omega (arith, c.1)) r)))
          r

    verdict : Verdict pools read_layer e (exceeded pools read_layer e)
    verdict =
        exceeded_lem pools read_layer e
          (All-map Reads (InRange read_layer e) pools (λ p c. omega (arith, c.0.0, c.1)) readings)

    -- A layer that refuses does so truly.
    pub layer_refusal-Truly :
        (x : Refusal) → layer_refusal namespace provider pools u e now ≡ some x → Truly e pools x
    unfolding layer_refusal
    layer_refusal-Truly x h = elim (Option-cases (exceeded pools read_layer e)) [
      | inl unfull ↦ cc (let j : none ≡ some x = (rw (unfull, layer_refusal) at h) in j)
      | inr (p, full) ↦
          let (before, after, split, rooms, charged, over) =
            subst (Verdict pools read_layer e) full verdict in
          let reads = All-middle Reads before p after (subst (All Reads) split readings) in
          (
            p,
            before,
            after,
            split,
            ground (arith, reads, h, full),
            ground (arith, reads, over, charged),
          )
    ]

    fits-charges_of :
        (ps : Limits)
        → All (λ p. Reads p × HasRoom read_layer e p) ps
        → fits u provider (charges_of namespace ps (deltas pools e) now false) ≡ true
    unfolding fits charges_of
    fits-charges_of [] h = refl
    fits-charges_of (p ∷ ps) h = ground (arith, h.0, fits-charges_of ps h.1)

    -- A layer that refuses nothing fits the store's check.
    pub layer_fits :
        layer_refusal namespace provider pools u e now ≡ none
        → fits u provider (charges namespace pools e now false) ≡ true
    unfolding layer_refusal charges
    layer_fits h = elim (Option-cases (exceeded pools read_layer e)) [
      | inl unfull ↦ fits-charges_of pools (
          All-zip Reads (HasRoom read_layer e) pools readings
            (subst (Verdict pools read_layer e) unfull verdict))
      | inr (p, full) ↦ cc (let j = (rw (full, layer_refusal) at h) in j)
    ]

pub fits-append :
    (u : Usage) (provider : String) (xs ys : List Charge)
    → fits u provider xs ≡ true
    → fits u provider ys ≡ true
    → fits u provider (xs ++ ys) ≡ true
unfolding fits
fits-append u provider [] ys h k = k
fits-append u provider (x ∷ xs) ys h k = ground (arith, fits-append u provider xs ys)

-- A refusal of the provider's own pools, or of the namespace's share.
abbrev pub TrulyOf : Budgets → Time → String → String → Execution → Usage → Refusal → Type 0
TrulyOf b now namespace provider e u x =
    Truly u total_namespace provider now e (total_of b provider) x
    ⊎ Truly u namespace provider now e (share_of b namespace provider) x

-- A reservation that does not fit the usage it was refused against is answered by a refusal that
-- gives a pool of the provider's total or of the namespace's share, with its limit, what the usage
-- counts for it now and what the task needs, which together pass that limit; never by the report that
-- the usage has room. (Pool names are distinct within a layer, the job does not pay, and no counter
-- leaves int64.)
pub refusal-TrulyOf :
    {E : Type 0} (b : Budgets) (now : Time) (id : ℕ) (namespace provider : String) (e : Execution)
    (u : Usage)
    → Fresh [] (total_of b provider)
    → Fresh [] (share_of b namespace provider)
    → All (Countable u total_namespace provider now e) (total_of b provider)
    → All (Countable u namespace provider now e) (share_of b namespace provider)
    → fits u provider (reservation b now id namespace provider e false).charges ≡ false
    → (x : Refusal) × (refusal {E = E} b namespace provider u e now ≡ ReserveError.refused x)
      × TrulyOf b now namespace provider e u x
unfolding refusal reservation
refusal-TrulyOf b now id namespace provider e u ft fs rt rs unfit =
    elim (Option-cases (layer_refusal total_namespace provider (total_of b provider) u e now)) [
      | inr (x, own) ↦ (
        x,
        ground (arith, own),
        inl (
            layer_refusal-Truly u total_namespace provider now e (total_of b provider) ft rt x own),
      )
      | inl room ↦
          elim (Option-cases
            (layer_refusal namespace provider (share_of b namespace provider) u e now)) [
              | inr (x, shared) ↦ (
                x,
                ground (arith, room, shared),
                inr (
                    layer_refusal-Truly u namespace provider now e (share_of b namespace provider)
                      fs rs x shared),
              )
              | inl space ↦ absurd (
                  false≢true (
                    sym unfit
                    ∙ fits-append u provider _ _
                        (layer_fits u total_namespace provider now e (total_of b provider) ft rt
                          room)
                        (layer_fits u namespace provider now e (share_of b namespace provider) fs rs
                          space)))
            ]
    ]
