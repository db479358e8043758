-- ===== src/Ledger/Account/Snapshot/Admitted.antt =====
-- internal/ledger/ledger.go: what a plan finds room for in a fresh snapshot, the store takes.
use vagabond.Ledger.Account.Agreement.{Countable, fits-append, layer_fits}
use vagabond.Base.{
  All, none, Time, false, [], ◌∷◌, List, String, ◌≡◌, true, arith, string_key, ℕ, refl,
}
use vagabond.Quota.Limits.Compile.{Fresh}
use vagabond.Base.Assoc.{insert, lookup}
use vagabond.Quota.Meter.{Execution}
use vagabond.Ledger.Account.Store.{memory_store, account_reserve}
use vagabond.Quota.Limits.{PoolUsage, Limits, exceeded}
use vagabond.Ledger.Account.Snapshot.Periods.{
  among, Covered, Named, current_periods-total, current_periods-share,
}
use vagabond.Ledger.Account.Snapshot.{UsageSnapshot, pool_usage, refresh_snapshot, current_periods}
use vagabond.Ledger.Account.{
  Budgets, layer_refusal, usage_of_from, layer_usage, pool_key, reservation, total_of, share_of,
  total_namespace, charges,
}
use vagabond.Ledger.Memory.{
  Usage, in_periods, Memory, Key, read_usage, read, reserve, key_eq_iff, standing,
}

in_periods-read :
    (periods : List String) (u : Usage) (k : Key)
    → among periods k.period ≡ true
    → read (in_periods periods u) k ≡ read u k
unfolding in_periods lookup
in_periods-read periods [] k h = refl
in_periods-read periods ((j, n) ∷ u) k h =
    ground (arith, h, key_eq_iff j k, in_periods-read periods u k h)

module _ (u : Usage) (periods : List String) (namespace provider : String) (now : Time) where
  usage_of_from-same :
      (out : PoolUsage) (pools : Limits)
      → Covered now periods pools
      → usage_of_from out (in_periods periods u) namespace provider pools now
        ≡ usage_of_from out u namespace provider pools now
  unfolding usage_of_from
  usage_of_from-same out [] c = refl
  usage_of_from-same out (p ∷ ps) c =
      rw (in_periods-read periods u (pool_key namespace provider now p) c.0) (
        usage_of_from-same
          (insert string_key p.name (read u (pool_key namespace provider now p)) out) ps c.1)

  -- A layer in which the snapshot has room refuses nothing.
  layer_refusal-none :
      (pools : Limits) (e : Execution)
      → Covered now periods pools
      → exceeded pools (layer_usage (in_periods periods u) namespace provider pools now) e ≡ none
      → layer_refusal namespace provider pools u e now ≡ none
  unfolding layer_refusal layer_usage
  layer_refusal-none pools e c room = ground (arith, usage_of_from-same [] pools c, room)

module _ (b : Budgets) (m : Memory) (now later : Time) (old : UsageSnapshot) where
  -- The snapshot that a refresh of the in-memory store leaves.
  abbrev pub fresh_snapshot : UsageSnapshot
  fresh_snapshot = (refresh_snapshot (memory_store {E = String}) b m now later old).0

  -- What a plan finds room for in both layers of a snapshot that was just refreshed, the ledger then
  -- reserves. (Pool names are distinct within a layer, every pool has a calendar period, no counter
  -- leaves int64, and nothing was reserved or settled since.)
  pub pool_usage-reserve :
      (id : ℕ) (namespace provider : String) (e : Execution)
      → Fresh [] (total_of b provider)
      → Fresh [] (share_of b namespace provider)
      → Named now (total_of b provider)
      → Named now (share_of b namespace provider)
      → All (Countable (standing m) total_namespace provider now e) (total_of b provider)
      → All (Countable (standing m) namespace provider now e) (share_of b namespace provider)
      → exceeded (total_of b provider) (pool_usage b fresh_snapshot now namespace provider).0 e
        ≡ none
      → exceeded
          (share_of b namespace provider)
          (pool_usage b fresh_snapshot now namespace provider).1
          e
        ≡ none
      → (account_reserve (memory_store {E = String}) b m now id namespace provider e false).1 ≡ none
  unfolding pool_usage refresh_snapshot read_usage account_reserve reservation reserve
  pool_usage-reserve id namespace provider e ft fs nt ns ct cs room space =
      let periods = current_periods b now in
      let own =
        layer_refusal-none (standing m) periods total_namespace provider now (total_of b provider) e
          (current_periods-total now b provider nt) room in
      let shared =
        layer_refusal-none (standing m) periods namespace provider now
          (share_of b namespace provider) e (current_periods-share now b namespace provider ns)
          space in
      let fit =
        fits-append (standing m) provider
          (charges total_namespace (total_of b provider) e now false)
          (charges namespace (share_of b namespace provider) e now false)
          (layer_fits (standing m) total_namespace provider now e (total_of b provider) ft ct own)
          (layer_fits (standing m) namespace provider now e (share_of b namespace provider) fs cs
            shared) in
      ground (arith, fit)
