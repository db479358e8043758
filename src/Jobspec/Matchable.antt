-- ===== src/Jobspec/Matchable.antt =====
-- internal/jobspec/validate.go with internal/scheduler/checks_mismatch.go: a job file in which nothing
-- is wrong, before the attribute checker of admission.
use vagabond.Scheduler.Admission.Eligibility.{attribute_lem}
use vagabond.Scheduler.Admission.{Input}
use vagabond.Job.Std.{Std}
use vagabond.Jobspec.{validate, validate_jobs, Config}
use vagabond.Job.{Constraint, Affinity, Task, Job}
use vagabond.Scheduler.Request.{new_request, constraints_of, affinities_of}
use vagabond.Scheduler.Admission.Checks.{attribute_check}
use vagabond.Scheduler.Matching.{unknown_affinity, unknown_attribute}
use vagabond.Jobspec.Sound.{Matches, Positive, validate_job-SoundJob}
use vagabond.Base.{inl, inr, Option-cases, [], ◌∷◌, List, All, ◌≡◌, arith, refl, String, none}

unknown_affinity-nil :
    (xs : List Affinity)
    → All (λ a. Matches a.attribute a.operator a.value × Positive a.weight) xs
    → unknown_affinity xs ≡ ""
unfolding unknown_affinity
unknown_affinity-nil [] h = refl
unknown_affinity-nil (a ∷ rest) h = ground (arith, h.0.0.0, unknown_affinity-nil rest h.1)

unknown_attribute-nil :
    (cs : List Constraint) (xs : List Affinity)
    → All (λ c. Matches c.attribute c.operator c.value) cs
    → All (λ a. Matches a.attribute a.operator a.value × Positive a.weight) xs
    → unknown_attribute cs xs ≡ ""
unfolding unknown_attribute
unknown_attribute-nil [] xs h k = unknown_affinity-nil xs k
unknown_attribute-nil (c ∷ cs) xs h k = ground (arith, h.0.0, unknown_attribute-nil cs xs h.1 k)

-- No provider rejects a task for an unknown attribute when nothing is wrong in the job's file.
pub validate-attribute_check :
    (std : Std) (config : Task → Config) (j : Job) (t : Task) (tiers image : String) (x : Input)
    → validate std config (j ∷ []) ≡ []
    → attribute_check (new_request std t j.routing tiers image) x ≡ none
unfolding attribute_check new_request constraints_of affinities_of validate validate_jobs
    unknown_attribute unknown_affinity
validate-attribute_check std config j t tiers image x h =
    let sound = validate_job-SoundJob std config j (ground (arith, h)) in
    (attribute_lem std (new_request std t j.routing tiers image) x).1
      (elim (Option-cases j.routing) [
        | inl nowhere ↦ rw nowhere refl
        | inr (r, given) ↦
            let routing = sound.routing r given in
            rw given (unknown_attribute-nil r.constraints r.affinities routing.0 routing.1)
      ])
