-- ===== src/Ledger/Memory/Standing.antt =====
-- internal/ledger/memory.go: what a counter stands at, settled plus reserved, counted without
-- wrapping.
use vagabond.Base.Int64.{two64, add64}
use vagabond.Base.{[], String, ◌∷◌, ℕ, List, ◌<◌, ◌+◌, ◌≡◌, arith, if◌then◌else◌}
use vagabond.Base.Assoc.{Map, lookup-insert}
use vagabond.Ledger.Memory.{
  standing, Memory, add_charges, add_held, add_usage, Usage, Key, Charge, read, Reservation,
  charge_key, key_eq_iff, key_eq, counter,
}

-- What the charges of one reservation put on a counter.
abbrev pub charged : String → List Charge → Key → ℕ
charged provider [] k = 0
charged provider (c ∷ cs) k =
    (if key_eq (charge_key provider c) k then c.amount else 0) + charged provider cs k

-- What all open reservations put on it.
abbrev pub reserved_at : Map ℕ Reservation → Key → ℕ
reserved_at [] k = 0
reserved_at ((id, r) ∷ rs) k = charged r.provider r.charges k + reserved_at rs k

-- Settled plus reserved.
abbrev pub total_at : Memory → Key → ℕ
total_at m k = read m.used k + reserved_at m.held k

pub read-add_usage :
    (u : Usage) (k j : Key) (n : ℕ)
    → read (add_usage u k n) j ≡ (if key_eq k j then add64 (read u k) n else read u j)
unfolding add_usage
read-add_usage u k j n = ground (arith, lookup-insert counter k j (add64 (read u k) n) u)

read-add_charges :
    (provider : String) (cs : List Charge) (u : Usage) (k : Key)
    → read u k + charged provider cs k < two64
    → read (add_charges provider cs u) k ≡ read u k + charged provider cs k
unfolding add_charges
read-add_charges provider [] u k b = omega arith
read-add_charges provider (c ∷ cs) u k b = ground (
  arith,
  read-add_usage u (charge_key provider c) k c.amount,
  key_eq_iff (charge_key provider c) k,
  read-add_charges provider cs (add_usage u (charge_key provider c) c.amount) k,
)

read-add_held :
    (rs : Map ℕ Reservation) (u : Usage) (k : Key)
    → read u k + reserved_at rs k < two64
    → read (add_held rs u) k ≡ read u k + reserved_at rs k
unfolding add_held
read-add_held [] u k b = omega arith
read-add_held ((id, r) ∷ rs) u k b = ground (
  arith,
  read-add_charges r.provider r.charges u k,
  read-add_held rs (add_charges r.provider r.charges u) k,
)

-- While nothing overflows, the standing of a counter is its settled usage plus every open
-- reservation's amounts on it.
pub read-standing :
    (m : Memory) (k : Key) → total_at m k < two64 → read (standing m) k ≡ total_at m k
unfolding standing
read-standing m k b = read-add_held m.held m.used k b
