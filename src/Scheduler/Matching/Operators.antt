-- ===== src/Scheduler/Matching/Operators.antt =====
-- internal/scheduler/match.go: how the operators go together, and the weights of affinities.
use vagabond.Base.Int64.{two63}
use vagabond.Job.{Affinity, Constraint, Operator}
use vagabond.Plugin.Attributes.{Attributes}
use vagabond.Base.{
  [], ◌∷◌, List, String, ◌<◌, ℕ, Option, Bool-cases, ◌≡◌, All, inl, true, ◌≤◌, not, ◌+◌, some,
  arith, ◌&&◌, inr, ◌++◌, ◌||◌, refl, ap, none, false, str_eq, eq_iff, ◌↔◌,
}
use vagabond.Job.Std.{Std}
use vagabond.Scheduler.Matching.{
  match_attribute, unmatched_constraint, compare_values, affinity_weight, compare_parsed,
  total_affinity_weight, ordered, weight_of, match_constraint, found_in,
}

-- `<` and `>=`, and `>` and `<=`, are opposites on an attribute that the provider publishes, and all
-- four fail on one that it does not; so are `is_set` and `is_not_set`.
pub match_attribute_opposites :
    (std : Std) (attrs : Attributes) (name want : String)
    → let holds = λ (op : Operator). match_attribute std attrs name op want in
      (holds Operator.is_not_set ≡ not (holds Operator.is_set))
      × (holds Operator.less ≡ found_in attrs name && not (holds Operator.greater_equal))
      × (holds Operator.greater ≡ found_in attrs name && not (holds Operator.less_equal))
unfolding match_attribute compare_values compare_parsed ordered
match_attribute_opposites std attrs name want = ground arith

-- `!=` is the opposite of `=`, but for an attribute that the provider does not publish tested
-- against the empty text: it is neither equal nor unequal to that.
pub match_attribute-not_equal :
    (std : Std) (attrs : Attributes) (name want : String)
    → match_attribute std attrs name Operator.not_equal want
      ≡ not (match_attribute std attrs name Operator.equal want)
        && (found_in attrs name || not (str_eq "" want))
unfolding match_attribute
match_attribute-not_equal std attrs name want = ground (arith, eq_iff "" want)

-- What `unmatched_constraint` says of a list of constraints.
abbrev pub Unmatched : Std → Attributes → List Constraint → Option Constraint → Type 0
Unmatched std attrs cs none = All (λ c. match_constraint std attrs c ≡ true) cs
Unmatched std attrs cs (some c) =
    (before : List Constraint) × (after : List Constraint) × (cs ≡ before ++ c ∷ after)
    × All (λ c. match_constraint std attrs c ≡ true) before
    × (match_constraint std attrs c ≡ false)

Unmatched-cons :
    (std : Std) (attrs : Attributes) (c : Constraint) (cs : List Constraint) (o : Option Constraint)
    → match_constraint std attrs c ≡ true
    → Unmatched std attrs cs o
    → Unmatched std attrs (c ∷ cs) o
Unmatched-cons std attrs c cs none h u = (h, u)
Unmatched-cons std attrs c cs (some d) h (before, after, split, hold, unmet) =
    (c ∷ before, after, ap (λ l. c ∷ l) split, (h, hold), unmet)

-- `UnmatchedConstraint` names the first constraint that does not hold, and nil exactly when every
-- constraint holds.
pub unmatched_constraint_lem :
    (std : Std) (attrs : Attributes) (cs : List Constraint)
    → Unmatched std attrs cs (unmatched_constraint std attrs cs)
unfolding unmatched_constraint
unmatched_constraint_lem std attrs [] = tt
unmatched_constraint_lem std attrs (c ∷ cs) = elim (Bool-cases (match_constraint std attrs c)) [
  | inl held ↦ rw held (
      Unmatched-cons std attrs c cs (unmatched_constraint std attrs cs) held
        (unmatched_constraint_lem std attrs cs))
  | inr unmet ↦ rw unmet ([], cs, refl, tt, unmet)
]

pub unmatched_constraint-none :
    (std : Std) (attrs : Attributes) (cs : List Constraint)
    → (unmatched_constraint std attrs cs ≡ none) ↔ All (λ c. match_constraint std attrs c ≡ true) cs
unfolding unmatched_constraint
unmatched_constraint-none std attrs [] = (λ h. tt, λ h. refl)
unmatched_constraint-none std attrs (c ∷ cs) =
    ground (arith, unmatched_constraint-none std attrs cs)

-- The total without wrapping.
abbrev pub plain_total : List Affinity → ℕ
plain_total [] = 0
plain_total (a ∷ rest) = weight_of a + plain_total rest

-- The weight that a provider satisfies of a job's affinities is at most the total, which does not
-- wrap. (Weights from 0 on, with a sum in int64.)
pub affinity_weight-le :
    (std : Std) (attrs : Attributes) (wanted : List Affinity)
    → plain_total wanted < two63
    → (affinity_weight std attrs wanted ≤ total_affinity_weight wanted)
      × (total_affinity_weight wanted ≡ plain_total wanted)
unfolding affinity_weight total_affinity_weight
affinity_weight-le std attrs [] b = (omega arith, refl)
affinity_weight-le std attrs (a ∷ rest) b = ground (arith, affinity_weight-le std attrs rest)
