-- ===== src/Scheduler/Ranking/Order.antt =====
-- internal/scheduler/rank.go: the order of `Rank`, against the tiers and the scores.
use vagabond.Scheduler.Admission.{Candidate}
use vagabond.Job.{tiers_strict}
use vagabond.Base.Int64.{slt, bias}
use vagabond.Scheduler.Request.{Request, tier_mode}
use vagabond.Job.Std.{Std}
use vagabond.Base.{
  String, ◌≡◌, Bool, arith, ◌&&◌, true, if◌then◌else◌, ◌⊎◌, str_eq, List, ◌||◌, Perm, ◌==◌, Sorted,
  keep, sort_perm, Sorted-map, sort-Sorted, keep-sort,
}
use vagabond.Scheduler.Ranking.{rank_le, ScoredCandidate, tier_of, rank, scored}
use vagabond.Scheduler.Floats.{Floats, IsOrdered, float_le, float_le_trans, float_le_total}

module _ {F : Type 0} (fl : Floats F) where
  -- Of two candidates the one of the lower tier, and of one tier the one that scores no less.
  abbrev pub by_tier : ScoredCandidate F → ScoredCandidate F → Bool
  by_tier a b =
      slt (tier_of a) (tier_of b)
      || ((bias (tier_of a) == bias (tier_of b)) && float_le fl b.score a.score)

  abbrev pub by_score : ScoredCandidate F → ScoredCandidate F → Bool
  by_score a b = float_le fl b.score a.score

  abbrev pub order_of : String → ScoredCandidate F → ScoredCandidate F → Bool
  order_of mode = if str_eq mode tiers_strict then by_tier else by_score

  rank_le-order_of :
      (mode : String) (a b : ScoredCandidate F) → rank_le fl mode a b ≡ order_of mode a b
  unfolding rank_le
  rank_le-order_of mode a b = ground arith

  -- Neither goes before the other.
  abbrev pub tied : String → ScoredCandidate F → ScoredCandidate F → Bool
  tied mode a b = order_of mode a b && order_of mode b a

  module _ (o : IsOrdered fl) where
    rank_le_total :
        (mode : String) (a b : ScoredCandidate F)
        → (rank_le fl mode a b ≡ true) ⊎ (rank_le fl mode b a ≡ true)
    unfolding rank_le
    rank_le_total mode a b = ground (arith, float_le_total fl o b.score a.score)

    rank_le_trans :
        (mode : String) (a b c : ScoredCandidate F)
        → rank_le fl mode a b ≡ true
        → rank_le fl mode b c ≡ true
        → rank_le fl mode a c ≡ true
    unfolding rank_le
    rank_le_trans mode a b c h k = ground (arith, float_le_trans fl o c.score b.score a.score)

    tied-rank_le :
        (mode : String) (x a b : ScoredCandidate F)
        → tied mode x a ≡ true
        → tied mode x b ≡ true
        → rank_le fl mode a b ≡ true
    tied-rank_le mode x a b h k =
        rank_le_trans mode a x b (ground (arith, rank_le-order_of mode a x))
          (ground (arith, rank_le-order_of mode x b))

    module _ (std : Std) (req : Request) (cs : List Candidate) where
      -- The ranking holds the candidates, scored, each once. It is in order of the tiers and within a
      -- tier of the scores if tiers are strict, else of the scores alone, and candidates that are tied
      -- keep admission's order. (The comparison of floats is a strict order.)
      pub rank_lem :
          Perm (scored fl std req cs) (rank fl std req cs)
          × Sorted (order_of (tier_mode req)) (rank fl std req cs)
          × ((x : ScoredCandidate F)
              → keep (tied (tier_mode req) x) (rank fl std req cs)
                ≡ keep (tied (tier_mode req) x) (scored fl std req cs))
      unfolding rank
      rank_lem =
          let le = rank_le fl (tier_mode req) in
          (
            sort_perm le (scored fl std req cs),
            Sorted-map le (order_of (tier_mode req))
                (λ a b h. ground (arith, rank_le-order_of (tier_mode req) a b)) (rank fl std req cs)
                (sort-Sorted le (rank_le_total (tier_mode req)) (rank_le_trans (tier_mode req))
                  (scored fl std req cs)),
            λ x.
                keep-sort le (tied (tier_mode req) x) (tied-rank_le (tier_mode req) x)
                  (scored fl std req cs),
          )
