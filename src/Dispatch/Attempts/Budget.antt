-- ===== src/Dispatch/Attempts/Budget.antt =====
-- internal/dispatch/dispatcher.go: which providers `attempt` tries, and how often.
use vagabond.Base.Int64.{two63, slt}
use vagabond.Dispatch.Retry.{Policy, budget, retry_policy}
use vagabond.Scheduler.Request.{Request}
use vagabond.Job.Std.{Std}
use vagabond.Plugin.Failure.{Failure, reroutable}
use vagabond.Dispatch.Attempts.{
  tried_of, Attempt, Fault, World, Origin, attempt_from, Preparation, prepare, submit, Prepared,
  attempt, Ended,
}
use vagabond.Base.{
  Bool-cases, ℕ, List, [], ◌∷◌, String, ◌≡◌, ◌++◌, map, true, suc, arith, inl, ◌⊎◌, some, ◌≤◌, refl,
  inr, sym, ◌<◌, Option, ◌+◌, subst, zero, Result, none, false,
}
use mathlib.Core.List.{append-nil, append_assoc}

-- An attempt that was followed by another: the ledger refused it, or it failed in a way that may be
-- rerouted.
abbrev pub PassedOn : Attempt → Type 0
PassedOn a =
    (a.refused ≡ true)
    ⊎ ((e : Failure) × (a.err ≡ some (Fault.failed_with e)) × (reroutable e ≡ true))

-- Every attempt but the last.
abbrev pub AllPassedOn : List Attempt → Type 0
AllPassedOn [] = Unit
AllPassedOn (a ∷ []) = Unit
AllPassedOn (a ∷ b ∷ attempts) = PassedOn a × AllPassedOn (b ∷ attempts)

abbrev pub provider_names : List Attempt → List String
provider_names attempts = map (λ a. a.provider) attempts

abbrev pub ranked_names : List (String × List String) → List String
ranked_names ranking = map (λ c. c.0) ranking

-- The attempts go down the ranking from its head, one at most for each candidate; their submissions
-- stay within what is left of the budget; and each but the last was passed on.
abbrev pub Attempted : ℕ → List (String × List String) → List Attempt → Type 0
Attempted left ranking attempts =
    ((rest : List String) × (ranked_names ranking ≡ provider_names attempts ++ rest))
    × (tried_of attempts ≤ left)
    × AllPassedOn attempts

Attempted-none : (left : ℕ) (ranking : List (String × List String)) → Attempted left ranking []
unfolding tried_of
Attempted-none left ranking = ((ranked_names ranking, refl), omega arith, tt)

AllPassedOn-cons :
    (a : Attempt) (attempts : List Attempt)
    → PassedOn a
    → AllPassedOn attempts
    → AllPassedOn (a ∷ attempts)
AllPassedOn-cons a [] p h = tt
AllPassedOn-cons a (b ∷ attempts) p h = (p, h)

Attempted-refused :
    (left : ℕ) (name : String) (nodes : List String) (ranking : List (String × List String))
    (a : Attempt) (attempts : List Attempt)
    → a.provider ≡ name
    → a.refused ≡ true
    → Attempted left ranking attempts
    → Attempted left ((name, nodes) ∷ ranking) (a ∷ attempts)
unfolding tried_of
Attempted-refused left name nodes ranking a attempts n r ((rest, split), within, passed) = (
  (rest, ground (arith, n, split)),
  ground (arith, r, within),
  AllPassedOn-cons a attempts (inl r) passed,
)

Attempted-failed :
    (left : ℕ) (name : String) (nodes : List String) (ranking : List (String × List String))
    (a : Attempt) (e : Failure) (attempts : List Attempt)
    → a.provider ≡ name
    → a.err ≡ some (Fault.failed_with e)
    → reroutable e ≡ true
    → Attempted left ranking attempts
    → Attempted (suc left) ((name, nodes) ∷ ranking) (a ∷ attempts)
unfolding tried_of
Attempted-failed left name nodes ranking a e attempts n r t ((rest, split), within, passed) = (
  (rest, ground (arith, n, split)),
  ground (arith, within),
  AllPassedOn-cons a attempts (inr (e, r, t)) passed,
)

Attempted-last :
    (left : ℕ) (name : String) (nodes : List String) (ranking : List (String × List String))
    (a : Attempt)
    → a.provider ≡ name
    → Attempted (suc left) ((name, nodes) ∷ ranking) (a ∷ [])
unfolding tried_of
Attempted-last left name nodes ranking a n =
    ((ranked_names ranking, ground (arith, n)), ground arith, tt)

-- What the loop adds to the attempts already made.
abbrev pub Continues : ℕ → List (String × List String) → List Attempt → List Attempt → Type 0
Continues left ranking done all =
    (attempts : List Attempt) × (all ≡ done ++ attempts) × Attempted left ranking attempts

stopped :
    (left : ℕ) (ranking : List (String × List String)) (done : List Attempt)
    → Continues left ranking done done
stopped left ranking done = ([], sym (append-nil done), Attempted-none left ranking)

module _ {S E : Type 0} (w : World S E) (std : Std) (origin : Origin) (req : Request) (p : Policy)
    (small : budget p < two63) where
  abbrev loop : List (String × List String) → S → ℕ → ℕ → Option Fault → List Attempt → List Attempt
  loop ranking s tried previous last done =
      (attempt_from w std origin req p ranking s tried previous last done).1

  -- The loop over a ranking keeps to what is left.
  abbrev Keeps : List (String × List String) → Type 0
  Keeps ranking =
      (s : S) (tried previous : ℕ) (last : Option Fault) (done : List Attempt) (left : ℕ)
      → tried + left ≡ budget p
      → Continues left ranking done (loop ranking s tried previous last done)

  -- The loop over one more candidate, which is registered, with submissions left.
  module _ (ranking : List (String × List String)) (keeps : Keeps ranking) (name : String)
      (nodes : List String) (s : S) (tried previous : ℕ) (last : Option Fault) (done : List Attempt)
      (left : ℕ) (b : tried + suc left ≡ budget p) (room : slt tried (budget p) ≡ true)
      (known : w.registered s name ≡ true) where
    abbrev after : List Attempt
    after = loop ((name, nodes) ∷ ranking) s tried previous last done

    abbrev all : List (String × List String)
    all = (name, nodes) ∷ ranking

    abbrev next : S
    next = (prepare w std origin req s name (tried + 1) previous).0

    submitted :
        (run : Prepared) (sub : Result E (Ended × Option Failure))
        → (submit w std origin req next p run nodes tried).1 ≡ sub
        → (prepare w std origin req s name (tried + 1) previous).1 ≡ Preparation.ready run
        → Continues (suc left) all done after
    unfolding attempt_from
    submitted run (Result.err x) u q =
        subst (Continues (suc left) all done) {x = done} (ground (arith, u, q, room, known))
          (stopped (suc left) all done)
    submitted run (Result.ok (ended, none)) u q =
        let a : Attempt = record { provider = name; id = run.id; err = none; refused = false } in
        (a ∷ [], ground (arith, u, q, room, known), Attempted-last left name nodes ranking a refl)
    submitted run (Result.ok (ended, some e)) u q =
        let fault = some (Fault.failed_with e) in
        let a : Attempt = record { provider = name; id = run.id; err = fault; refused = false } in
        let state = (submit w std origin req next p run nodes tried).0 in
        elim (Bool-cases (reroutable e)) [
          | inr ours ↦ (
            a ∷ [],
            ground (arith, u, q, room, known, ours),
            Attempted-last left name nodes ranking a refl,
          )
          | inl theirs ↦
              let (new, same, tries) =
                keeps state (tried + 1) run.id fault (done ++ (a ∷ [])) left (omega (arith, b)) in
              (
                a ∷ new,
                ground (arith, u, q, room, known, theirs, same, append_assoc done (a ∷ []) new),
                Attempted-failed left name nodes ranking a e new refl refl theirs tries,
              )
        ]

    prepared :
        (prep : Preparation E)
        → (prepare w std origin req s name (tried + 1) previous).1 ≡ prep
        → Continues (suc left) all done after
    unfolding attempt_from
    prepared (Preparation.turned_down id r) q =
        let fault = some (Fault.refused_by r) in
        let a : Attempt = record { provider = name; id = id; err = fault; refused = true } in
        let (new, same, tries) = keeps next tried previous fault (done ++ (a ∷ [])) (suc left) b in
        (
          a ∷ new,
          ground (arith, q, room, known, same, append_assoc done (a ∷ []) new),
          Attempted-refused (suc left) name nodes ranking a new refl refl tries,
        )
    prepared (Preparation.out_of_step pool) q =
        subst (Continues (suc left) all done) {x = done} (ground (arith, q, room, known))
          (stopped (suc left) all done)
    prepared (Preparation.failed x) q =
        subst (Continues (suc left) all done) {x = done} (ground (arith, q, room, known))
          (stopped (suc left) all done)
    prepared (Preparation.ready run) q =
        submitted run (submit w std origin req next p run nodes tried).1 refl q

  attempt_from_lem : (ranking : List (String × List String)) → Keeps ranking
  unfolding attempt_from
  attempt_from_lem [] s tried previous last done left b = stopped left [] done
  attempt_from_lem ((name, nodes) ∷ ranking) s tried previous last done zero b =
      subst (Continues zero ((name, nodes) ∷ ranking) done) {x = done} (ground (arith, b, small))
        (stopped zero ((name, nodes) ∷ ranking) done)
  attempt_from_lem ((name, nodes) ∷ ranking) s tried previous last done (suc left) b =
      elim (Bool-cases (w.registered s name)) [
        | inr unknown ↦
            subst (Continues (suc left) ((name, nodes) ∷ ranking) done) {x = done}
              (ground (arith, b, small, unknown))
              (stopped (suc left) ((name, nodes) ∷ ranking) done)
        | inl known ↦
            prepared ranking (attempt_from_lem ranking) name nodes s tried previous last done left b
              (ground (arith, b, small)) known
              (prepare w std origin req s name (tried + 1) previous).1 refl
      ]

-- `attempt` goes down the ranking, trying each candidate at most once and in order; it submits at
-- most as often as the retry policy's budget says, refusals by the ledger not counted; and it tries
-- another candidate only after a refusal or a failure that may be rerouted. (The budget is from 0 on.)
pub attempt-Attempted :
    {S E : Type 0} (w : World S E) (std : Std) (origin : Origin) (req : Request)
    (ranking : List (String × List String)) (s : S)
    → budget (retry_policy std req.task) < two63
    → Attempted (budget (retry_policy std req.task)) ranking (attempt w std origin req ranking s).1
unfolding attempt
attempt-Attempted w std origin req ranking s small =
    let p = retry_policy std req.task in
    let (new, same, tries) =
      attempt_from_lem w std origin req p small ranking s 0 0 none [] (budget p) (omega arith) in
    subst (Attempted (budget p) ranking) (sym same) tries
