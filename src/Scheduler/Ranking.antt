-- ===== src/Scheduler/Ranking.antt =====
-- internal/scheduler/rank.go and plan.go: candidates scored and sorted, and the plan of one task.
use vagabond.Scheduler.Matching.{total_affinity_weight, affinity_weight}
use vagabond.Scheduler.Admission.Checks.{input_free_percent, checkers, input_attributes}
use vagabond.Job.{Affinity, tiers_weighted, tiers_strict}
use vagabond.Plugin.Attributes.{Attributes}
use vagabond.Scheduler.Request.{Request, tier_mode, affinities_of}
use vagabond.Quota.Meter.{Execution}
use vagabond.Base.Int64.{smin, smax, sub64, slt}
use vagabond.Job.Std.{Std}
use vagabond.Scheduler.Floats.{Floats, clamp, float_le}
use vagabond.Scheduler.Admission.{Candidate, Rejection, Input, admit, retryable_later}
use vagabond.Base.{
  List, ◌∷◌, String, [], ℕ, min, map, Bool, if◌then◌else◌, Option, ◌==◌, is_empty, sort, ◌++◌,
  str_eq, none, some, length, ◌&&◌, true, false,
}
pub mod Order
pub mod Whole
mod Tests

-- `Score` and `ScoredCandidate`
pub record ScoredCandidate (F : Type 0) : Type 0 where
  pub candidate : Candidate
  pub score : F
  pub scores : List (String × F)

-- `tierSpan`
pub record TierSpan : Type 0 where
  pub low : ℕ
  pub high : ℕ

-- The loop of `tierSpanOf`.
unfoldable pub widen : TierSpan → List Candidate → TierSpan
widen span [] = span
widen span (c ∷ cs) =
    widen (record { low = smin span.low c.input.tier; high = smax span.high c.input.tier }) cs

-- `tierSpanOf`
unfoldable pub tier_span_of : List Candidate → TierSpan
tier_span_of [] = record { low = 0; high = 0 }
tier_span_of (c ∷ cs) = widen (record { low = c.input.tier; high = c.input.tier }) (c ∷ cs)

-- `Strategy` has one base scorer.
abbrev pub scorer_headroom : String
scorer_headroom = "headroom"

abbrev pub scorer_tier : String
scorer_tier = "tier"

abbrev pub scorer_affinity : String
scorer_affinity = "affinity"

abbrev pub tier_of : {F : Type 0} → ScoredCandidate F → ℕ
tier_of s = s.candidate.input.tier

module _ {F : Type 0} where
  -- `Ranking.Selected`
  unfoldable pub selected : List (ScoredCandidate F) → Option (ScoredCandidate F)
  selected [] = none
  selected (s ∷ ranking) = some s

  -- `Ranking.Providers`
  unfoldable pub ranked_providers : List (ScoredCandidate F) → List String
  ranked_providers ranking = map (λ s. s.candidate.input.provider) ranking

module _ {F : Type 0} (fl : Floats F) where
  -- `ScoredCandidate.Percent`
  unfoldable pub percent : ScoredCandidate F → ℕ
  percent s = fl.rounded (fl.times s.score (fl.of_int 100))

  -- The comparison of `Rank` is not positive.
  unfoldable pub rank_le : String → ScoredCandidate F → ScoredCandidate F → Bool
  rank_le mode a b =
      if str_eq mode tiers_strict && slt (tier_of a) (tier_of b)
      then true
      else if str_eq mode tiers_strict && slt (tier_of b) (tier_of a)
      then false
      else float_le fl b.score a.score

module _ {F : Type 0} (fl : Floats F) (std : Std) where
  -- `tierSpan.score`
  unfoldable pub span_score : TierSpan → ℕ → F
  span_score span tier =
      if span.high == span.low
      then fl.of_int 1
      else clamp fl
          (fl.over (fl.of_int (sub64 span.high tier)) (fl.of_int (sub64 span.high span.low)))

  -- `headroomScore`
  unfoldable pub headroom_score : Candidate → Execution → F
  headroom_score c e = clamp fl (fl.over (fl.of_int (input_free_percent c.input e)) (fl.of_int 100))

  -- `AffinityScore`
  unfoldable pub affinity_score : Attributes → List Affinity → F
  affinity_score attrs affinities =
      let total = total_affinity_weight affinities in
      if total == 0
      then fl.of_int 0
      else fl.over (fl.of_int (affinity_weight std attrs affinities)) (fl.of_int total)

  -- The loop of `mean`.
  unfoldable pub sum_from : F → List (String × F) → F
  sum_from sum [] = sum
  sum_from sum ((name, value) ∷ scores) = sum_from (fl.add sum value) scores

  -- `mean`
  unfoldable pub mean : List (String × F) → F
  mean scores =
      if is_empty scores
      then fl.of_int 0
      else fl.over (sum_from (fl.of_int 0) scores) (fl.of_int (length scores))

  -- `score`
  unfoldable pub scores_of : Request → Candidate → String → TierSpan → List (String × F)
  scores_of req c mode span =
      ((scorer_headroom, headroom_score c req.execution) ∷ [])
      ++ ((if str_eq mode tiers_weighted
            then (scorer_tier, span_score span c.input.tier) ∷ []
            else [])
          ++ (if is_empty (affinities_of req)
              then []
              else (
                scorer_affinity,
                affinity_score (input_attributes std c.input req.execution) (affinities_of req),
              )
                ∷ []))

  unfoldable pub score_candidate : Request → String → TierSpan → Candidate → ScoredCandidate F
  score_candidate req mode span c =
      let scores = scores_of req c mode span in
      record { candidate = c; score = mean scores; scores = scores }

  -- The candidates scored, in admission's order.
  abbrev pub scored : Request → List Candidate → List (ScoredCandidate F)
  scored req cs = map (score_candidate req (tier_mode req) (tier_span_of cs)) cs

  -- `Rank`
  unfoldable pub rank : Request → List Candidate → List (ScoredCandidate F)
  rank req cs = sort (rank_le fl (tier_mode req)) (scored req cs)

-- `Plan`
pub record Plan (F : Type 0) : Type 0 where
  pub ranking : List (ScoredCandidate F)
  pub rejections : List Rejection
  pub retryable : Bool
  pub tiers : String

-- `PlanTask`
unfoldable pub plan_task : {F : Type 0} → Floats F → Std → Request → List Input → Plan F
plan_task fl std req inputs =
    let result = admit (checkers std) req inputs in
    record {
      ranking = rank fl std req result.candidates;
      rejections = result.rejections;
      retryable = retryable_later result;
      tiers = tier_mode req;
    }
