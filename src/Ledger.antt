-- ===== src/Ledger.antt =====
-- internal/ledger: the account of what has been charged against each pool. `Memory` is the store of
-- memory.go, `Account` the ledger of ledger.go that prices executions and calls a store.
pub mod Memory
pub mod Account
mod Tests
