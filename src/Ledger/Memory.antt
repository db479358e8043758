-- ===== src/Ledger/Memory.antt =====
-- internal/ledger/memory.go: settled usage and open reservations in maps, and the types of ledger.go
-- that the store is written in. Every operation runs under one mutex, so it is one function.
use vagabond.Base.Int64.{slt, add64}
use vagabond.Base.Assoc.{Map, KeyTest, lookup, insert, erase}
use vagabond.Base.{
  List, Bool, String, ◌≡◌, ℕ, Time, [], ◌∷◌, if◌then◌else◌, true, Option, str_eq, ◌==◌, ==_iff, ◌↔◌,
  false, not, ◌&&◌, contains, before, arith, eq_iff, none, some, ◌+◌,
}
pub mod Standing
pub mod Caps
pub mod Settling
pub mod Reaping

pub record Key : Type 0 where
  pub namespace : String
  pub provider : String
  pub pool : String
  pub period : String

pub record PoolRef : Type 0 where
  pub namespace : String
  pub pool : String

pub record Charge : Type 0 where
  pub namespace : String
  pub pool : String
  pub period : String
  pub amount : ℕ
  pub limit : ℕ

pub record Reservation : Type 0 where
  pub id : ℕ
  pub provider : String
  pub cpu : ℕ
  pub memory : ℕ
  pub created : Time
  pub charges : List Charge

pub record Held : Type 0 where
  pub id : ℕ
  pub provider : String
  pub cpu : ℕ
  pub memory : ℕ
  pub amounts : Map PoolRef ℕ

abbrev pub key_eq : Key → Key → Bool
key_eq a b =
    str_eq a.namespace b.namespace
    && (str_eq a.provider b.provider && (str_eq a.pool b.pool && str_eq a.period b.period))

pub key_eq_iff : (a b : Key) → (key_eq a b ≡ true) ↔ (a ≡ b)
key_eq_iff a b = ground (
  arith,
  eq_iff a.namespace b.namespace,
  eq_iff a.provider b.provider,
  eq_iff a.pool b.pool,
  eq_iff a.period b.period,
)

abbrev pub counter : KeyTest Key
counter = record { eqb = key_eq; eqb_iff = key_eq_iff }

abbrev pub ref_eq : PoolRef → PoolRef → Bool
ref_eq a b = str_eq a.namespace b.namespace && str_eq a.pool b.pool

pub ref_eq_iff : (a b : PoolRef) → (ref_eq a b ≡ true) ↔ (a ≡ b)
ref_eq_iff a b = ground (arith, eq_iff a.namespace b.namespace, eq_iff a.pool b.pool)

abbrev pub pool_ref : KeyTest PoolRef
pool_ref = record { eqb = ref_eq; eqb_iff = ref_eq_iff }

abbrev pub id_key : KeyTest ℕ
id_key = record { eqb = ◌==◌; eqb_iff = ==_iff }

abbrev pub Usage : Type 0
Usage = Map Key ℕ

-- A counter that the map lacks reads as 0.
abbrev pub read : Usage → Key → ℕ
read u k = elim (lookup counter k u) [ none ↦ 0 | some n ↦ n ]

-- usage[key] += amount
unfoldable pub add_usage : Usage → Key → ℕ → Usage
add_usage u k n = insert counter k (add64 (read u k) n) u

abbrev pub actual_of : Map PoolRef ℕ → PoolRef → ℕ
actual_of actual r = elim (lookup pool_ref r actual) [ none ↦ 0 | some n ↦ n ]

pub record Memory : Type 0 where
  pub used : Usage
  pub held : Map ℕ Reservation

abbrev pub charge_key : String → Charge → Key
charge_key provider c = record {
  namespace = c.namespace;
  provider = provider;
  pool = c.pool;
  period = c.period;
}

abbrev pub charge_ref : Charge → PoolRef
charge_ref c = record { namespace = c.namespace; pool = c.pool }

-- The inner loop of `standing`, over one reservation's charges.
unfoldable pub add_charges : String → List Charge → Usage → Usage
add_charges provider [] u = u
add_charges provider (c ∷ cs) u =
    add_charges provider cs (add_usage u (charge_key provider c) c.amount)

unfoldable pub add_held : Map ℕ Reservation → Usage → Usage
add_held [] u = u
add_held ((id, r) ∷ rs) u = add_held rs (add_charges r.provider r.charges u)

unfoldable pub standing : Memory → Usage
standing m = add_held m.held m.used

-- The loop of `Reserve`: whether every charge fits.
unfoldable pub fits : Usage → String → List Charge → Bool
fits u provider [] = true
fits u provider (c ∷ cs) =
    let rest = fits u provider cs in
    if slt 0 c.amount && slt c.limit (add64 (read u (charge_key provider c)) c.amount)
    then false
    else rest

-- The store, whether the reservation was recorded, and the usage that it was refused against.
unfoldable pub reserve : Memory → Reservation → Memory × Bool × Usage
reserve m r =
    let u = standing m in
    if fits u r.provider r.charges
    then (record m { held = insert id_key r.id r m.held }, true, [])
    else (m, false, u)

-- The loop of `settle`, over the charges of the reservation that is gone.
unfoldable pub add_actual : Map PoolRef ℕ → String → List Charge → Usage → Usage
add_actual actual provider [] u = u
add_actual actual provider (c ∷ cs) u =
    let amount = actual_of actual (charge_ref c) in
    add_actual actual provider cs
      (if amount == 0 then u else add_usage u (charge_key provider c) amount)

unfoldable pub settle : Memory → ℕ → Map PoolRef ℕ → Memory
settle m id actual = elim (lookup id_key id m.held) [
  | none ↦ m
  | some r ↦ record {
    used = add_actual actual r.provider r.charges m.used;
    held = erase id_key id m.held;
  }
]

unfoldable pub reserved : Memory → ℕ → Bool
reserved m id = elim (lookup id_key id m.held) [ none ↦ false | some _ ↦ true ]

-- The counters of the given periods, each as it stands.
unfoldable pub in_periods : List String → Usage → Usage
in_periods periods [] = []
in_periods periods ((k, n) ∷ u) =
    let rest = in_periods periods u in
    if contains str_eq periods k.period then (k, n) ∷ rest else rest

unfoldable pub read_usage : Memory → List String → Usage
read_usage m periods = in_periods periods (standing m)

unfoldable pub amounts_of : List Charge → Map PoolRef ℕ → Map PoolRef ℕ
amounts_of [] out = out
amounts_of (c ∷ cs) out = amounts_of cs (insert pool_ref (charge_ref c) c.amount out)

unfoldable pub held_of : ℕ → Reservation → Held
held_of id r = record {
  id = id;
  provider = r.provider;
  cpu = r.cpu;
  memory = r.memory;
  amounts = amounts_of r.charges [];
}

-- One round of `Reap`: `accept` is the callback, and `none` its refusal.
unfoldable pub reap_one :
    Time → (Held → Option (Map PoolRef ℕ)) → ℕ → Reservation → Memory × ℕ → Memory × ℕ
reap_one cutoff accept id r (m, reaped) =
    if not (before r.created cutoff) then (m, reaped) else elim (accept (held_of id r)) [
      | none ↦ (m, reaped)
      | some actual ↦ (settle m id actual, reaped + 1)
    ]

-- The loop of `Reap`, over the reservations held as it began.
unfoldable pub reap_from :
    Time → (Held → Option (Map PoolRef ℕ)) → Map ℕ Reservation → Memory × ℕ → Memory × ℕ
reap_from cutoff accept [] s = s
reap_from cutoff accept ((id, r) ∷ rs) s =
    reap_from cutoff accept rs (reap_one cutoff accept id r s)

unfoldable pub reap : Memory → Time → (Held → Option (Map PoolRef ℕ)) → Memory × ℕ
reap m cutoff accept = reap_from cutoff accept m.held (m, 0)
