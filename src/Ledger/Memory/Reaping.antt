-- ===== src/Ledger/Memory/Reaping.antt =====
-- internal/ledger/memory.go: which reservations the reaper settles.
use vagabond.Ledger.Memory.Settling.{Distinct}
use vagabond.Base.Assoc.{Map, lookup, lookup-erase}
use vagabond.Base.{
  [], ◌∷◌, Time, Option, ℕ, Bool, if◌then◌else◌, none, before, ◌≡◌, ◌+◌, arith, false, ◌&&◌, ◌==◌,
  refl, some, true, Option-cases, inl, inr,
}
use vagabond.Ledger.Memory.{
  reap, settle, Held, Memory, PoolRef, reap_one, Reservation, reap_from, id_key, held_of,
}

-- The reaper settles a reservation made before the cutoff whose callback accepts it.
abbrev pub reaps : Time → (Held → Option (Map PoolRef ℕ)) → ℕ → Reservation → Bool
reaps cutoff accept id r =
    if before r.created cutoff
    then elim (accept (held_of id r)) [ none ↦ false | some _ ↦ true ]
    else false

abbrev pub reaps_id : Time → (Held → Option (Map PoolRef ℕ)) → ℕ → Map ℕ Reservation → Bool
reaps_id cutoff accept id rs = elim (lookup id_key id rs) [
  | none ↦ false
  | some r ↦ reaps cutoff accept id r
]

abbrev pub reap_count : Time → (Held → Option (Map PoolRef ℕ)) → Map ℕ Reservation → ℕ
reap_count cutoff accept [] = 0
reap_count cutoff accept ((id, r) ∷ rs) =
    (if reaps cutoff accept id r then 1 else 0) + reap_count cutoff accept rs

lookup-settle :
    (m : Memory) (j id : ℕ) (actual : Map PoolRef ℕ)
    → lookup id_key id (settle m j actual).held
      ≡ (if j == id then none else lookup id_key id m.held)
unfolding settle
lookup-settle m j id actual = ground (arith, lookup-erase id_key j id m.held)

module _ (cutoff : Time) (accept : Held → Option (Map PoolRef ℕ)) where
  reap_one_lem :
      (j : ℕ) (r : Reservation) (m : Memory) (n id : ℕ)
      → let (m', n') = reap_one cutoff accept j r (m, n) in
        (lookup id_key id m'.held
          ≡ (if reaps cutoff accept j r && j == id then none else lookup id_key id m.held))
        × (n' ≡ n + (if reaps cutoff accept j r then 1 else 0))
  unfolding reap_one
  reap_one_lem j r m n id = elim (Option-cases (accept (held_of j r))) [
    | inl kept ↦ ground arith
    | inr (actual, settled) ↦ ground (arith, lookup-settle m j id actual)
  ]

  reap_from_lem :
      (rs : Map ℕ Reservation) (m : Memory) (n id : ℕ)
      → Distinct rs
      → let (m', n') = reap_from cutoff accept rs (m, n) in
        (lookup id_key id m'.held
          ≡ (if reaps_id cutoff accept id rs then none else lookup id_key id m.held))
        × (n' ≡ n + reap_count cutoff accept rs)
  unfolding reap_from lookup
  reap_from_lem [] m n id d = (refl, omega arith)
  reap_from_lem ((j, r) ∷ rs) m n id d =
      let (m', n') = reap_one cutoff accept j r (m, n) in
      ground (arith, reap_one_lem j r m n id, reap_from_lem rs m' n' id d.1)

-- After a reap an ID holds nothing exactly if it held nothing before, or held a reservation older
-- than the cutoff that the callback accepted; every other reservation is still held as it was. The
-- number reported is that of the reservations settled.
pub reap_lem :
    (m : Memory) (cutoff : Time) (accept : Held → Option (Map PoolRef ℕ)) (id : ℕ)
    → Distinct m.held
    → (lookup id_key id (reap m cutoff accept).0.held
        ≡ (if reaps_id cutoff accept id m.held then none else lookup id_key id m.held))
      × ((reap m cutoff accept).1 ≡ reap_count cutoff accept m.held)
unfolding reap
reap_lem m cutoff accept id d = ground (arith, reap_from_lem cutoff accept m.held m 0 id d)
