-- ===== src/Dispatch/Polling/Counts.antt =====
-- internal/dispatch/authorize.go: the calls of one kind, and when a call is made again.

use vagabond.Dispatch.Polling.{Call, authorized, Around}
use vagabond.Dispatch.Polling.Waiting.{authorized-cases}
use vagabond.Plugin.Failure.{Failure, is_marked, Mark}
use vagabond.Base.{
  [], ◌∷◌, Bool, List, true, Result, ℕ, false, if◌then◌else◌, suc, ◌≡◌, ◌≤◌, ◌+◌, inl, ◌⊎◌, arith,
  Result-cases, inr, Bool-cases,
}

abbrev pub is_submit : Call → Bool
is_submit (Call.submitted id members) = true
is_submit _ = false

abbrev pub is_release : Call → Bool
is_release Call.released = true
is_release _ = false

abbrev pub is_cancel : Call → Bool
is_cancel Call.cancelled = true
is_cancel _ = false

-- The calls of one kind.
abbrev pub count : (Call → Bool) → List Call → ℕ
count kind [] = 0
count kind (c ∷ h) = let rest = count kind h in if kind c then suc rest else rest

module _ (env : Around) where
  pub authorized-count :
      {T : Type 0} (kind : Call → Bool) (call : Call) (answer : List Call → Result Failure T)
      (h : List Call)
      → kind Call.recredentialed ≡ false
      → let after = (authorized env call answer h).0 in
        (kind call ≡ false → count kind after ≡ count kind h)
        × (count kind after ≤ 2 + count kind h)
  authorized-count kind call answer h other = elim (authorized-cases env call answer h) [
    | inl once ↦ rw once (ground (arith, other))
    | inr (inl refreshed) ↦ rw refreshed (ground (arith, other))
    | inr (inr twice) ↦ rw twice (ground (arith, other))
  ]

  -- A second call is made only where the first was refused as unauthorized and the registry then
  -- answered that the credential is a new one.
  pub authorized-again :
      {T : Type 0} (call : Call) (answer : List Call → Result Failure T) (h : List Call)
      → let after = (authorized env call answer h).0 in
        ((after ≡ call ∷ h) ⊎ (after ≡ Call.recredentialed ∷ call ∷ h))
        ⊎ ((after ≡ call ∷ Call.recredentialed ∷ call ∷ h)
            × ((e : Failure) × (answer h ≡ Result.err e)
                × (is_marked Mark.unauthorized e ≡ true)
                × (env.recredential (call ∷ h) ≡ Result.ok true)))
  unfolding authorized
  authorized-again call answer h = elim (Result-cases (answer h)) [
    | inl (x, fine) ↦ inl (inl (ground (arith, fine)))
    | inr (e, failed) ↦ elim (Bool-cases (is_marked Mark.unauthorized e)) [
      | inr other ↦ inl (inl (ground (arith, failed, other)))
      | inl unauthorized ↦ elim (Result-cases (env.recredential (call ∷ h))) [
        | inr (x, lost) ↦ inl (inr (ground (arith, failed, unauthorized, lost)))
        | inl (true, found) ↦
            inr (ground (arith, failed, unauthorized, found), (e, failed, unauthorized, found))
        | inl (false, found) ↦ inl (inr (ground (arith, failed, unauthorized, found)))
      ]
    ]
  ]
