-- ===== src/Ledger/Account/Store.antt =====
-- internal/ledger/ledger.go: the `Store` interface, the ledger's calls of it, and memory.go as one.
use vagabond.Quota.Limits.{unlimited}
use vagabond.Quota.Meter.{Execution}
use vagabond.Base.Assoc.{Map}
use vagabond.Ledger.Account.{
  Budgets, total_namespace, ReserveError, both_deltas, reservation, refusal, total_of, share_of,
}
use vagabond.Base.{
  ◌∷◌, [], ℕ, none, Time, String, Result, hour, Bool, Option, ◌≡◌, List, not, if◌then◌else◌, ◌-◌,
  some, false, str_eq, arith, ◌&&◌,
}
use vagabond.Ledger.Memory.{
  reserve as memory_reserve, settle as memory_settle, reserved as memory_reserved,
  reap as memory_reap, read_usage as memory_read_usage, fits, Memory, Reservation, Usage, Held,
  PoolRef,
}

-- A store of state S that fails with E. Its law is what `Reserve` documents: a refusal comes with
-- the usage that it was refused against, in which some charge does not fit.
pub record Store (S E : Type 0) : Type 0 where
  pub reserve : S → Reservation → S × Result E (Bool × Usage)
  pub settle : S → ℕ → Map PoolRef ℕ → S × Option E
  pub reserved : S → ℕ → Result E Bool
  pub read_usage : S → List String → Result E Usage
  pub reap : S → Time → (Held → Option (Map PoolRef ℕ)) → S × ℕ × Option E
  pub refused_unfit :
      (s : S) (r : Reservation) (u : Usage)
      → (reserve s r).1 ≡ Result.ok (false, u)
      → fits u r.provider r.charges ≡ false

abbrev pub reserve_in_memory :
    {E : Type 0} → Memory → Reservation → Memory × Result E (Bool × Usage)
reserve_in_memory m r = let (m', fit, u) = memory_reserve m r in (m', Result.ok (fit, u))

pub reserve-unfit :
    {E : Type 0} (m : Memory) (r : Reservation) (u : Usage)
    → (reserve_in_memory {E = E} m r).1 ≡ Result.ok (false, u)
    → fits u r.provider r.charges ≡ false
unfolding memory_reserve
reserve-unfit m r u h = ground arith

-- memory.go fills the interface, and never fails.
abbrev pub memory_store : {E : Type 0} → Store Memory E
memory_store {E} = record {
  reserve = reserve_in_memory;
  settle = λ m id actual. (memory_settle m id actual, none);
  reserved = λ m id. Result.ok (memory_reserved m id);
  read_usage = λ m periods. Result.ok (memory_read_usage m periods);
  reap = λ m cutoff accept. let (m', n) = memory_reap m cutoff accept in (m', n, none);
  refused_unfit = reserve-unfit;
}

-- `Verdict`: what became of a held execution.
pub data Verdict : Type 0 where
  keep drop finished stand : Verdict

-- `StaleAfter`
abbrev pub stale_after : ℕ
stale_after = hour

-- `Held.namespace`: that of some charge outside the provider's total, else the total.
unfoldable pub namespace_of : Map PoolRef ℕ → String
namespace_of [] = total_namespace
namespace_of ((ref, amount) ∷ rest) =
    let later = namespace_of rest in
    if not (str_eq ref.namespace total_namespace) then ref.namespace else later

-- The callback that `Reap` hands the store.
unfoldable pub reap_answer : Budgets → (Held → Verdict × ℕ) → Held → Option (Map PoolRef ℕ)
reap_answer b resolve h =
    let (verdict, ran) = resolve h in
    elim verdict [
      | Verdict.drop ↦ some []
      | Verdict.stand ↦ some h.amounts
      | Verdict.finished ↦ some (
          both_deltas b (namespace_of h.amounts) h.provider
            (record { cpu = h.cpu; memory = h.memory; duration = ran }))
      | Verdict.keep ↦ none
    ]

module _ {S E : Type 0} (store : Store S E) (b : Budgets) where
  abbrev pub enforced : String → String → Bool
  enforced namespace provider =
      not (unlimited (total_of b provider) && unlimited (share_of b namespace provider))

  -- `Ledger.Reserve`: none is a nil error.
  unfoldable pub account_reserve :
      S → Time → ℕ → String → String → Execution → Bool → S × Option (ReserveError E)
  account_reserve s now id namespace provider e pays =
      if not (enforced namespace provider)
      then (s, none)
      else let (s', answer) = store.reserve s (reservation b now id namespace provider e pays) in
        (
          s',
          elim answer [
            | Result.err x ↦ some (ReserveError.store_failed x)
            | Result.ok (fit, standing) ↦
                if not fit then some (refusal b namespace provider standing e now) else none
          ],
        )

  -- `Ledger.Settle`
  unfoldable pub account_settle : S → ℕ → String → String → Execution → S × Option E
  account_settle s id namespace provider actual =
      if not (enforced namespace provider)
      then (s, none)
      else store.settle s id (both_deltas b namespace provider actual)

  -- `Ledger.Reap`
  unfoldable pub account_reap : S → Time → (Held → Verdict × ℕ) → S × ℕ × Option E
  account_reap s now resolve = store.reap s (now - stale_after) (reap_answer b resolve)
