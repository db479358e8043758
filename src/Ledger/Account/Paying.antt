-- ===== src/Ledger/Account/Paying.antt =====
-- internal/ledger/ledger.go: the charges of a job that pays.
use vagabond.Ledger.Account.Agreement.{fits-append}
use vagabond.Base.Assoc.{insert}
use vagabond.Quota.Meter.{Execution}
use vagabond.Quota.Limits.{Limits, PoolUsage}
use vagabond.Ledger.Account.{
  charges_of, reservation, charges, Budgets, total_namespace, total_of, share_of,
}
use vagabond.Base.{
  [], ◌∷◌, String, Time, ℕ, true, ◌≡◌, arith, refl, if◌then◌else◌, none, Bool-cases, inl, inr,
}
use vagabond.Ledger.Account.Store.{account_reserve, memory_store, enforced}
use vagabond.Ledger.Memory.{fits, reserve, Usage, Memory, id_key, standing}

fits-charges_of_paying :
    (u : Usage) (provider namespace : String) (ps : Limits) (amounts : PoolUsage) (now : Time)
    → fits u provider (charges_of namespace ps amounts now true) ≡ true
unfolding fits charges_of
fits-charges_of_paying u provider namespace [] amounts now = refl
fits-charges_of_paying u provider namespace (p ∷ ps) amounts now =
    ground (arith, fits-charges_of_paying u provider namespace ps amounts now)

paying_fits :
    (b : Budgets) (u : Usage) (now : Time) (id : ℕ) (namespace provider : String) (e : Execution)
    → fits u provider (reservation b now id namespace provider e true).charges ≡ true
unfolding reservation charges
paying_fits b u now id namespace provider e =
    fits-append u provider _ _
      (fits-charges_of_paying u provider total_namespace (total_of b provider) _ now)
      (fits-charges_of_paying u provider namespace (share_of b namespace provider) _ now)

-- With the in-memory store a job that pays is always let through, however much is spent: the
-- reservation is recorded with its charges on both layers, or nothing is enforced and nothing is
-- recorded.
pub account_reserve_paying :
    {E : Type 0} (b : Budgets) (m : Memory) (now : Time) (id : ℕ) (namespace provider : String)
    (e : Execution)
    → let r = reservation b now id namespace provider e true in
      account_reserve (memory_store {E = E}) b m now id namespace provider e true ≡ (
        (if enforced (memory_store {E = E}) b namespace provider
            then record m { held = insert id_key id r m.held }
            else m),
        none,
      )
unfolding account_reserve reserve reservation
account_reserve_paying {E} b m now id namespace provider e =
    let room = paying_fits b (standing m) now id namespace provider e in
    elim (Bool-cases (enforced (memory_store {E = E}) b namespace provider)) [
      | inl on ↦ ground (arith, on, room)
      | inr off ↦ ground (arith, off)
    ]
