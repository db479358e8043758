-- ===== src/Scheduler/Ranking/Tests.antt =====
-- The theorems on ranking at a pool and a provider, with scores counted in ℕ.
use vagabond.Scheduler.Request.{tier_mode}
use vagabond.Scheduler.Admission.{Candidate, any_transient}
use vagabond.Scheduler.Ranking.{plan_task, ranked_providers, scored, rank, ScoredCandidate}
use vagabond.Scheduler.Floats.{IsOrdered, Floats}
use vagabond.Scheduler.Tests.{std, request, cloud, pool}
use vagabond.Scheduler.Ranking.Order.{order_of, tied, rank_lem}
use vagabond.Scheduler.Ranking.Whole.{plan_task_lem}
use vagabond.Base.{
  ◌*◌, ◌/◌, ◌+◌, min, max, Perm, ◌∷◌, [], List, arith, ℕ, if◌then◌else◌, ◌++◌, ◌==◌, map, Sorted,
  ltb, ◌≡◌, true, false, keep,
}

abbrev counts : Floats ℕ
counts = record {
  of_int = λ n. n * 1000;
  add = λ x y. x + y;
  over = λ x y. if y == 0 then 0 else (x * 1000) / y;
  times = λ x y. (x * y) / 1000;
  less = ltb;
  is_nan = λ x. false;
  smaller = min;
  greater = max;
  rounded = λ x. x / 1000;
}

counts-IsOrdered : IsOrdered counts
counts-IsOrdered = record {
  less_asym = λ x y h. ground (arith, h);
  less_trans = λ x y z a b c d e. ground (arith, b, c);
}

abbrev candidates : List Candidate
candidates =
    record { input = cloud; estimated_cost = 0; nodes = [] }
    ∷ record { input = record pool { tier = 1 }; estimated_cost = 0; nodes = "right" ∷ [] }
    ∷ []

rank_lem_example :
    Perm (scored counts std request candidates) (rank counts std request candidates)
    × Sorted (order_of counts (tier_mode request)) (rank counts std request candidates)
    × ((x : ScoredCandidate ℕ)
        → keep (tied counts (tier_mode request) x) (rank counts std request candidates)
          ≡ keep (tied counts (tier_mode request) x) (scored counts std request candidates))
rank_lem_example = rank_lem counts counts-IsOrdered std request candidates

plan_task_lem_example :
    let plan = plan_task counts std request (pool ∷ cloud ∷ []) in
    Perm
      ("pool" ∷ "cloud" ∷ [])
      (ranked_providers plan.ranking ++ map (λ r. r.provider) plan.rejections)
    × (plan.retryable ≡ true → (plan.ranking ≡ []) × (any_transient plan.rejections ≡ true))
plan_task_lem_example = plan_task_lem counts std request (pool ∷ cloud ∷ [])
