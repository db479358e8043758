-- ===== src/Ledger/Memory/Settling.antt =====
-- internal/ledger/memory.go: a reservation, and what the run cost, on a counter.
use vagabond.Ledger.Memory.Caps.{two62, WithinCaps}
use vagabond.Base.Int64.{two64}
use vagabond.Ledger.Memory.Standing.{reserved_at, charged, total_at, read-add_usage}
use vagabond.Base.{
  [], ◌∷◌, ℕ, String, ◌≡◌, arith, List, none, some, if◌then◌else◌, refl, ◌+◌, ◌<◌, false, ◌==◌, All,
  ◌≤◌,
}
use vagabond.Ledger.Memory.{
  add_actual, settle, Memory, reserved, PoolRef, Reservation, Key, id_key, Charge, Usage, read,
  key_eq, charge_key, actual_of, charge_ref, key_eq_iff, add_usage,
}
use vagabond.Base.Assoc.{lookup, Map, erase, lookup-erase}

-- No ID is held twice, as in a Go map.
abbrev pub Distinct : Map ℕ Reservation → Type 0
Distinct [] = Unit
Distinct ((id, r) ∷ rs) = (lookup id_key id rs ≡ none) × Distinct rs

-- What settling at `actual` puts on a counter.
abbrev pub settled_at : Map PoolRef ℕ → String → List Charge → Key → ℕ
settled_at actual provider [] k = 0
settled_at actual provider (c ∷ cs) k =
    (if key_eq (charge_key provider c) k then actual_of actual (charge_ref c) else 0)
    + settled_at actual provider cs k

read-add_actual :
    (actual : Map PoolRef ℕ) (provider : String) (cs : List Charge) (u : Usage) (k : Key)
    → read u k + settled_at actual provider cs k < two64
    → read (add_actual actual provider cs u) k ≡ read u k + settled_at actual provider cs k
unfolding add_actual
read-add_actual actual provider [] u k b = omega arith
read-add_actual actual provider (c ∷ cs) u k b =
    let amount = actual_of actual (charge_ref c) in
    let key = charge_key provider c in
    ground (
      arith,
      read-add_usage u key k amount,
      key_eq_iff key k,
      read-add_actual actual provider cs (if amount == 0 then u else add_usage u key amount) k,
    )

reserved_at-erase-none :
    (id : ℕ) (rs : Map ℕ Reservation) (k : Key)
    → lookup id_key id rs ≡ none
    → reserved_at (erase id_key id rs) k ≡ reserved_at rs k
unfolding lookup erase
reserved_at-erase-none id [] k e = refl
reserved_at-erase-none id ((j, q) ∷ rs) k e = ground (arith, reserved_at-erase-none id rs k)

reserved_at-erase :
    (id : ℕ) (rs : Map ℕ Reservation) (r : Reservation) (k : Key)
    → Distinct rs
    → lookup id_key id rs ≡ some r
    → reserved_at (erase id_key id rs) k + charged r.provider r.charges k ≡ reserved_at rs k
unfolding lookup erase
reserved_at-erase id [] r k d e = cc
reserved_at-erase id ((j, q) ∷ rs) r k d e =
    ground (arith, reserved_at-erase-none id rs k, reserved_at-erase id rs r k d.1)

-- Settling a held reservation takes its amounts off every counter and puts the actual costs on: the
-- counter's total moves by the difference, and the ID no longer holds anything. (No ID is held twice,
-- and the counter's settled usage stays below 2^64.)
pub settle_lem :
    (m : Memory) (id : ℕ) (r : Reservation) (actual : Map PoolRef ℕ) (k : Key)
    → Distinct m.held
    → lookup id_key id m.held ≡ some r
    → read m.used k + settled_at actual r.provider r.charges k < two64
    → (total_at (settle m id actual) k + charged r.provider r.charges k
        ≡ total_at m k + settled_at actual r.provider r.charges k)
      × (reserved (settle m id actual) id ≡ false)
unfolding settle reserved
settle_lem m id r actual k d e b = ground (
  arith,
  read-add_actual actual r.provider r.charges m.used k,
  reserved_at-erase id m.held r k d e,
  lookup-erase id_key id id m.held,
)

-- An execution is settled once: a second settle of the same ID, whatever it says was used, and a
-- settle of an ID that holds nothing, change nothing.
pub settle_once :
    (m : Memory) (id : ℕ) (actual again : Map PoolRef ℕ)
    → settle (settle m id actual) id again ≡ settle m id actual
unfolding settle
settle_once m id actual again = ground (arith, lookup-erase id_key id id m.held)

settled-le :
    (actual : Map PoolRef ℕ) (provider : String) (cs : List Charge) (k : Key)
    → All (λ c. actual_of actual (charge_ref c) ≤ c.amount) cs
    → settled_at actual provider cs k ≤ charged provider cs k
settled-le actual provider [] k h = omega arith
settled-le actual provider (c ∷ cs) k h = ground (arith, settled-le actual provider cs k h.1)

-- Settling a held reservation at no more than was reserved keeps every counter within its cap, where
-- they all were. (No ID is held twice, and caps are below 2^62.)
pub settle-WithinCaps :
    (m : Memory) (id : ℕ) (r : Reservation) (actual : Map PoolRef ℕ) (most : Key → ℕ)
    → ((k : Key) → most k < two62)
    → Distinct m.held
    → lookup id_key id m.held ≡ some r
    → All (λ c. actual_of actual (charge_ref c) ≤ c.amount) r.charges
    → WithinCaps most m
    → WithinCaps most (settle m id actual)
settle-WithinCaps m id r actual most b d e h w k =
    let less = settled-le actual r.provider r.charges k h in
    let gone = reserved_at-erase id m.held r k d e in
    let total = settle_lem m id r actual k d e (omega (arith, less, gone, w k, b k)) in
    omega (arith, less, total.0, w k)
