-- ===== src/Ledger/Memory/Caps.antt =====
-- internal/ledger/memory.go: reservations against the caps of their counters.
use vagabond.Base.Assoc.{lookup, insert, Map}
use vagabond.Ledger.Memory.Standing.{total_at, charged, read-standing, reserved_at}
use vagabond.Ledger.Memory.{
  reserve, fits, Key, Memory, Usage, Reservation, Charge, read, charge_key, key_eq, id_key,
  standing, key_eq_iff,
}
use vagabond.Base.{
  [], String, ◌∷◌, ℕ, List, ◌≡◌, ◌≤◌, All, ◌<◌, false, true, ◌+◌, arith, none, refl, Bool-cases,
  inl, subst, inr,
}

-- Half the range of int64, so that a cap and an amount add up within it.
abbrev pub two62 : ℕ
two62 = 4611686018427387904

-- The standing of every counter is within its cap.
abbrev pub WithinCaps : (Key → ℕ) → Memory → Type 0
WithinCaps most m = (k : Key) → total_at m k ≤ most k

-- A charge checked against its counter's cap, in range.
abbrev pub Capped : (Key → ℕ) → String → Charge → Type 0
Capped most provider c = (c.limit ≡ most (charge_key provider c)) × (c.amount < two62)

-- No two charges of a reservation go to one counter.
abbrev pub Apart : String → List Charge → Type 0
Apart provider [] = Unit
Apart provider (c ∷ cs) =
    All (λ d. key_eq (charge_key provider d) (charge_key provider c) ≡ false) cs × Apart provider cs

charged-apart :
    (provider : String) (cs : List Charge) (k : Key)
    → All (λ d. key_eq (charge_key provider d) k ≡ false) cs
    → charged provider cs k ≡ 0
charged-apart provider [] k a = refl
charged-apart provider (c ∷ cs) k a = ground (arith, charged-apart provider cs k a.1)

module _ (u : Usage) (provider : String) (most : Key → ℕ) (w : (k : Key) → read u k ≤ most k)
    (b : (k : Key) → most k < two62) where
  -- The test of one charge, at its own counter.
  fits-cons :
      (c : Charge) (cs : List Charge)
      → Capped most provider c
      → fits u provider (c ∷ cs) ≡ true
      → (read u (charge_key provider c) + c.amount ≤ most (charge_key provider c))
        × (fits u provider cs ≡ true)
  unfolding fits
  fits-cons c cs h f = ground (arith, w (charge_key provider c), b (charge_key provider c))

  -- An accepted list of charges leaves room on every counter for what it charges there.
  fits-room :
      (cs : List Charge)
      → All (Capped most provider) cs
      → Apart provider cs
      → fits u provider cs ≡ true
      → (k : Key) → read u k + charged provider cs k ≤ most k
  fits-room [] h a f k = omega (arith, w k)
  fits-room (c ∷ cs) h a f k =
      let key = charge_key provider c in
      elim (Bool-cases (key_eq key k)) [
        | inl same ↦
            subst (λ j. read u j + charged provider (c ∷ cs) j ≤ most j) ((key_eq_iff key k).0 same)
              (ground (
                arith,
                charged-apart provider cs key a.0,
                fits-cons c cs h.0 f,
                key_eq_iff key key,
              ))
        | inr other ↦
            ground (arith, fits-cons c cs h.0 f, fits-room cs h.1 a.1 (fits-cons c cs h.0 f).1 k)
      ]

reserved_at-insert :
    (id : ℕ) (r : Reservation) (rs : Map ℕ Reservation) (k : Key)
    → lookup id_key id rs ≡ none
    → reserved_at (insert id_key id r rs) k ≡ reserved_at rs k + charged r.provider r.charges k
unfolding lookup insert
reserved_at-insert id r [] k e = omega arith
reserved_at-insert id r ((j, q) ∷ rs) k e = ground (arith, reserved_at-insert id r rs k)

-- Where reserved and settled usage together are within the cap of every counter, they still are once
-- a reservation has been asked for, whether or not it is recorded. (The reservation is of an ID that
-- is not held, its charges go to different counters, each checked against that counter's cap, and
-- caps and amounts are below 2^62.)
pub reserve-WithinCaps :
    (m : Memory) (r : Reservation) (most : Key → ℕ)
    → ((k : Key) → most k < two62)
    → lookup id_key r.id m.held ≡ none
    → All (Capped most r.provider) r.charges
    → Apart r.provider r.charges
    → WithinCaps most m
    → WithinCaps most (reserve m r).0
unfolding reserve
reserve-WithinCaps m r most b new h a w k =
    elim (Bool-cases (fits (standing m) r.provider r.charges)) [
      | inl accepted ↦ rw accepted (
          omega (
            arith,
            same k,
            reserved_at-insert r.id r m.held k new,
            fits-room (standing m) r.provider most (λ j. omega (arith, same j, w j)) b r.charges h a
                accepted k,
          ))
      | inr refused ↦ rw refused (w k)
    ]
  where
    same : (k : Key) → read (standing m) k ≡ total_at m k
    same k = read-standing m k (omega (arith, w k, b k))
