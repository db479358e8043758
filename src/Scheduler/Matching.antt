-- ===== src/Scheduler/Matching.antt =====
-- internal/scheduler/match.go: attributes tested against a job's constraints and affinities.
use vagabond.Base.Int64.{slt, add64}
use vagabond.Base.Assoc.{lookup}
use vagabond.Plugin.Attributes.{Attributes, matchable}
use vagabond.Job.{Affinity, Operator, Constraint}
use vagabond.Job.Std.{Std}
use vagabond.Base.{
  [], Option, List, Ordering, ◌∷◌, Bool, String, false, if◌then◌else◌, true, ℕ, none, not, some,
  string_key, str_eq, ◌&&◌, ◌||◌,
}
use Prim.Native.String.{compare as compare_strings}
pub mod Operators

-- The sign of a comparison, as `strings.Compare` and `compareOrdered` return it.
pub data Sign : Type 0 where
  negative zero_sign positive : Sign

abbrev pub compare_by : {A : Type 0} → (A → A → Bool) → A → A → Sign
compare_by less a b =
    if less a b then Sign.negative else if less b a then Sign.positive else Sign.zero_sign

abbrev pub sign_of : Ordering → Sign
sign_of Ordering.lt = Sign.negative
sign_of Ordering.eq = Sign.zero_sign
sign_of Ordering.gt = Sign.positive

-- `ordered`
unfoldable pub ordered : Operator → Sign → Bool
ordered Operator.less s = elim s [ Sign.negative ↦ true | _ ↦ false ]
ordered Operator.less_equal s = elim s [ Sign.positive ↦ false | _ ↦ true ]
ordered Operator.greater s = elim s [ Sign.positive ↦ true | _ ↦ false ]
ordered Operator.greater_equal s = elim s [ Sign.negative ↦ false | _ ↦ true ]
ordered _ s = false

-- `compareDurations`, `compareIntegers` and `compareFloats`: none if a side does not parse.
unfoldable pub compare_parsed :
    {A : Type 0} → (String → Option A) → (A → A → Bool) → Operator → String → String → Option Bool
compare_parsed parse less op got want = elim (parse got) [
  | none ↦ none
  | some left ↦ elim (parse want) [
    | none ↦ none
    | some right ↦ some (ordered op (compare_by less left right))
  ]
]

abbrev pub or_else : Option Bool → Bool → Bool
or_else first second = elim first [ none ↦ second | some b ↦ b ]

-- `compare`: durations, then integers, then floats, then text.
unfoldable pub compare_values : Std → Operator → String → String → Bool
compare_values std op got want = or_else (compare_parsed std.parse_duration slt op got want) (
    or_else (compare_parsed std.parse_int slt op got want) (
      or_else (compare_parsed std.parse_float std.float_less op got want)
        (ordered op (sign_of (compare_strings got want)))))

-- The loop of `setContains`.
unfoldable pub any_member : Std → List String → String → Bool
any_member std [] want = false
any_member std (m ∷ ms) want = str_eq (std.trim_space m) want || any_member std ms want

unfoldable pub set_contains_value : Std → String → String → Bool
set_contains_value std set want = any_member std (std.split_commas set) (std.trim_space want)

abbrev pub got_of : Attributes → String → String
got_of attrs name = elim (lookup string_key name attrs) [ none ↦ "" | some v ↦ v ]

abbrev pub found_in : Attributes → String → Bool
found_in attrs name = elim (lookup string_key name attrs) [ none ↦ false | some _ ↦ true ]

-- `match`
unfoldable pub match_attribute : Std → Attributes → String → Operator → String → Bool
match_attribute std attrs name op want =
    let got = got_of attrs name in
    let found = found_in attrs name in
    elim op [
      | Operator.is_set ↦ found
      | Operator.is_not_set ↦ not found
      | Operator.not_equal ↦ not (str_eq got want)
      | Operator.equal ↦ found && str_eq got want
      | Operator.set_contains ↦ found && set_contains_value std got want
      | Operator.less ↦ found && compare_values std Operator.less got want
      | Operator.less_equal ↦ found && compare_values std Operator.less_equal got want
      | Operator.greater ↦ found && compare_values std Operator.greater got want
      | Operator.greater_equal ↦ found && compare_values std Operator.greater_equal got want
      | Operator.other _ ↦ false
    ]

-- `MatchConstraint` and `MatchAffinity`
unfoldable pub match_constraint : Std → Attributes → Constraint → Bool
match_constraint std attrs c = match_attribute std attrs c.attribute c.operator c.value

unfoldable pub match_affinity : Std → Attributes → Affinity → Bool
match_affinity std attrs a = match_attribute std attrs a.attribute a.operator a.value

-- `UnmatchedConstraint`
unfoldable pub unmatched_constraint : Std → Attributes → List Constraint → Option Constraint
unmatched_constraint std attrs [] = none
unmatched_constraint std attrs (c ∷ cs) =
    let rest = unmatched_constraint std attrs cs in
    if not (match_constraint std attrs c) then some c else rest

-- `UnknownAttribute`: its two loops.
unfoldable pub unknown_affinity : List Affinity → String
unknown_affinity [] = ""
unknown_affinity (a ∷ rest) =
    let later = unknown_affinity rest in if not (matchable a.attribute) then a.attribute else later

unfoldable pub unknown_attribute : List Constraint → List Affinity → String
unknown_attribute [] affinities = unknown_affinity affinities
unknown_attribute (c ∷ cs) affinities =
    let later = unknown_attribute cs affinities in
    if not (matchable c.attribute) then c.attribute else later

-- `defaultAffinityWeight` and `affinityWeight`
unfoldable pub weight_of : Affinity → ℕ
weight_of a = elim a.weight [ none ↦ 50 | some w ↦ w ]

-- `AffinityWeight` and `TotalAffinityWeight`, added up from the last.
unfoldable pub affinity_weight : Std → Attributes → List Affinity → ℕ
affinity_weight std attrs [] = 0
affinity_weight std attrs (a ∷ rest) =
    let later = affinity_weight std attrs rest in
    if not (match_affinity std attrs a) then later else add64 (weight_of a) later

unfoldable pub total_affinity_weight : List Affinity → ℕ
total_affinity_weight [] = 0
total_affinity_weight (a ∷ rest) = add64 (weight_of a) (total_affinity_weight rest)
