-- ===== src/Jobspec/Sound.antt =====
-- internal/jobspec/validate.go: what is sure of a job file in which nothing is wrong.
use vagabond.Plugin.Attributes.{matchable}
use vagabond.Base.Int64.{slt, sle}
use vagabond.Jobspec.{
  Config, Problem, named_in, validate_resources, validate_retry, validate_driver, driver_names,
  validate_timeout, validate_task, report, given_and, validate_backoff, validate_config,
  check_duration, validate_execution, validate_attribute, validate_constraints, validate_job,
  validate_affinities, validate, validate_routing, validate_tasks_from, validate_operator,
  validate_jobs, validate_tasks, strategy_names, operator_valid, validate_job_type, Kind,
  tier_modes,
}
use vagabond.Job.{
  Task, Retry, Backoff, Resources, Routing, Job, Operator, Constraint, Affinity, presence,
}
use vagabond.Job.Std.{Std, duration_std}
use vagabond.Base.{
  ◌∷◌, [], Option, List, String, ℕ, ◌≡◌, some, arith, map, str_eq, refl, true, Option-cases, false,
  inl, ◌≢◌, inr, eq_iff, not, is_empty, All, subst, ◌↔◌, empty_both,
}

-- No two tasks have a name in common.
abbrev pub DistinctNames : List Task → Type 0
DistinctNames [] = Unit
DistinctNames (t ∷ ts) = (named_in (map (λ u. u.name) ts) t.name ≡ false) × DistinctNames ts

-- A time limit that is written is a time.
abbrev pub Lasts : Std → Option String → Type 0
Lasts std timeout =
    (d : String) → timeout ≡ some d → (n : ℕ) × (duration_std std d ≡ some n) × (n ≢ 0)

-- The wait between attempts does not begin past its maximum.
abbrev pub Reaches : Std → Task → Type 0
Reaches std t =
    (r : Retry) (b : Backoff) (i m : String) (initial longest : ℕ)
    → t.retry ≡ some r
    → r.backoff ≡ some b
    → b.initial ≡ some i
    → b.longest ≡ some m
    → duration_std std i ≡ some initial
    → duration_std std m ≡ some longest
    → slt longest initial ≡ false

abbrev pub Positive : Option ℕ → Type 0
Positive o = (n : ℕ) → o ≡ some n → slt 0 n ≡ true

pub record SoundTask (std : Std) (t : Task) : Type 0 where
  pub driver : named_in driver_names t.driver ≡ true
  pub timeout : Lasts std t.timeout
  pub sized : (r : Resources) → t.resources ≡ some r → Positive r.cpu × Positive r.memory
  pub reaches : Reaches std t

Positive-report :
    (o : Option ℕ) (p : Problem) → report (given_and o (λ n. sle n 0)) p ≡ [] → Positive o
Positive-report o p h n given = ground (arith, h, given)

module _ (std : Std) (config : Task → Config) where
  validate_driver-nil : (t : Task) → validate_driver t ≡ [] → named_in driver_names t.driver ≡ true
  unfolding validate_driver
  validate_driver-nil t h = ground (arith, h)

  validate_timeout-nil : (t : Task) → validate_timeout std config t ≡ [] → Lasts std t.timeout
  unfolding validate_timeout
  validate_timeout-nil t h d given = elim (Option-cases (duration_std std d)) [
    | inl unparsed ↦ ground (arith, h, given, unparsed)
    | inr (n, parsed) ↦ (n, parsed, λ zero. ground (arith, h, given, parsed, zero))
  ]

  validate_resources-nil :
      (t : Task)
      → validate_resources t ≡ []
      → (r : Resources) → t.resources ≡ some r
      → Positive r.cpu × Positive r.memory
  unfolding validate_resources
  validate_resources-nil t h r given =
      let (cpu, memory) =
        empty_both (report (given_and r.cpu (λ n. sle n 0)) (Problem.invalid_cpu t.name))
          (report (given_and r.memory (λ n. sle n 0)) (Problem.invalid_memory t.name))
          (ground (arith, h, given)) in
      (
        Positive-report r.cpu (Problem.invalid_cpu t.name) cpu,
        Positive-report r.memory (Problem.invalid_memory t.name) memory,
      )

  validate_retry-nil : (t : Task) → validate_retry std config t ≡ [] → Reaches std t
  unfolding validate_retry validate_backoff check_duration
  validate_retry-nil t h r b i m initial longest retry backoff starts ends first last =
      let (attempts, rest) =
        empty_both (report (given_and r.attempts (λ n. slt n 0)) (Problem.invalid_attempts t.name))
          (validate_backoff std config t r) (ground (arith, h, retry)) in
      ground (arith, rest, backoff, starts, ends, first, last)

  validate_task-SoundTask : (t : Task) → validate_task std config t ≡ [] → SoundTask std t
  unfolding validate_task
  validate_task-SoundTask t h =
      let (name, h1) =
        empty_both (report (str_eq (std.trim_space t.name) "") (Problem.missing_task_name t.name)) _
          h in
      let (driver, h2) = empty_both (validate_driver t) _ h1 in
      let (configured, h3) = empty_both (validate_config std config t) _ h2 in
      let (execution, h4) = empty_both (validate_execution t) _ h3 in
      let (resources, h5) = empty_both (validate_resources t) _ h4 in
      let (timeout, retry) = empty_both (validate_timeout std config t) _ h5 in
      record {
        driver = validate_driver-nil t driver;
        timeout = validate_timeout-nil t timeout;
        sized = validate_resources-nil t resources;
        reaches = validate_retry-nil t retry;
      }

  -- A name that was seen is not that of a later task.
  seen-later :
      (seen : List String) (ts : List Task) (x : String)
      → validate_tasks_from std config seen ts ≡ []
      → named_in seen x ≡ true
      → named_in (map (λ u. u.name) ts) x ≡ false
  unfolding validate_tasks_from
  seen-later seen [] x h k = refl
  seen-later seen (t ∷ ts) x h k =
      let (fresh, rest) =
        empty_both (report (named_in seen t.name) (Problem.duplicate_task t.name)) _ h in
      let (task, others) = empty_both (validate_task std config t) _ rest in
      ground (
        arith,
        k,
        fresh,
        eq_iff t.name x,
        seen-later (t.name ∷ seen) ts x others (ground (arith, k)),
      )

  validate_tasks_from-nil :
      (seen : List String) (ts : List Task)
      → validate_tasks_from std config seen ts ≡ []
      → DistinctNames ts × All (SoundTask std) ts
  unfolding validate_tasks_from
  validate_tasks_from-nil seen [] h = (tt, tt)
  validate_tasks_from-nil seen (t ∷ ts) h =
      let (fresh, rest) =
        empty_both (report (named_in seen t.name) (Problem.duplicate_task t.name)) _ h in
      let (task, others) = empty_both (validate_task std config t) _ rest in
      let (distinct, sound) = validate_tasks_from-nil (t.name ∷ seen) ts others in
      (
        (
          seen-later (t.name ∷ seen) ts t.name others (ground (arith, eq_iff t.name t.name)),
          distinct,
        ),
        (validate_task-SoundTask t task, sound),
      )

-- A constraint or an affinity that can be met.
abbrev pub Matches : String → Operator → String → Type 0
Matches attribute op value =
    (matchable attribute ≡ true)
    × (operator_valid op ≡ true)
    × ((presence op ≡ true) ↔ (value ≡ ""))

abbrev pub SoundRouting : Routing → Type 0
SoundRouting r =
    All (λ c. Matches c.attribute c.operator c.value) r.constraints
    × All (λ a. Matches a.attribute a.operator a.value × Positive a.weight) r.affinities

Matches-nil :
    (kind : Kind) (attribute : String) (op : Operator) (value : String)
    → validate_attribute kind attribute ≡ []
    → validate_operator kind op value ≡ []
    → Matches attribute op value
unfolding validate_attribute validate_operator
Matches-nil kind attribute op value h k =
    (ground (arith, h), ground (arith, k), ground (arith, k, eq_iff value ""))

validate_constraints-nil :
    (cs : List Constraint)
    → validate_constraints cs ≡ []
    → All (λ c. Matches c.attribute c.operator c.value) cs
unfolding validate_constraints
validate_constraints-nil [] h = tt
validate_constraints-nil (c ∷ cs) h =
    let (attribute, h1) = empty_both (validate_attribute Kind.constraint c.attribute) _ h in
    let (op, rest) = empty_both (validate_operator Kind.constraint c.operator c.value) _ h1 in
    (
      Matches-nil Kind.constraint c.attribute c.operator c.value attribute op,
      validate_constraints-nil cs rest,
    )

validate_affinities-nil :
    (xs : List Affinity)
    → validate_affinities xs ≡ []
    → All (λ a. Matches a.attribute a.operator a.value × Positive a.weight) xs
unfolding validate_affinities
validate_affinities-nil [] h = tt
validate_affinities-nil (a ∷ rest) h =
    let (attribute, h1) = empty_both (validate_attribute Kind.affinity a.attribute) _ h in
    let (op, h2) = empty_both (validate_operator Kind.affinity a.operator a.value) _ h1 in
    let (weight, h3) =
      empty_both (report (given_and a.weight (λ w. sle w 0)) Problem.invalid_weight) _ h2 in
    (
      (
        Matches-nil Kind.affinity a.attribute a.operator a.value attribute op,
        Positive-report a.weight Problem.invalid_weight weight,
      ),
      validate_affinities-nil rest h3,
    )

validate_routing-nil :
    (j : Job) → validate_routing j ≡ [] → (r : Routing) → j.routing ≡ some r → SoundRouting r
unfolding validate_routing
validate_routing-nil j h r given =
    let (strategy, h1) =
      empty_both
        (report (given_and r.strategy (λ s. not (named_in strategy_names s)))
          Problem.unknown_strategy)
        _ (subst (λ l. l ≡ []) {y = _} (ground (arith, given)) h) in
    let (tiers, h2) =
      empty_both
        (report (given_and r.tiers (λ s. not (named_in tier_modes s))) Problem.unknown_tiers) _
        h1 in
    let (constraints, affinities) = empty_both (validate_constraints r.constraints) _ h2 in
    (
      validate_constraints-nil r.constraints constraints,
      validate_affinities-nil r.affinities affinities,
    )

-- What the scheduler relies on of a job.
pub record SoundJob (std : Std) (j : Job) : Type 0 where
  pub runs : is_empty j.tasks ≡ false
  pub distinct : DistinctNames j.tasks
  pub tasks : All (SoundTask std) j.tasks
  pub routing : (r : Routing) → j.routing ≡ some r → SoundRouting r

pub validate_job-SoundJob :
    (std : Std) (config : Task → Config) (j : Job) → validate_job std config j ≡ [] → SoundJob std j
unfolding validate_job validate_tasks
validate_job-SoundJob std config j h =
    let (name, h1) =
      empty_both (report (str_eq (std.trim_space j.name) "") Problem.missing_job_name) _ h in
    let (namespace, h2) =
      empty_both
        (report (given_and j.namespace (λ s. str_eq (std.trim_space s) "")) Problem.empty_namespace)
        _ h1 in
    let (kind, h3) = empty_both (validate_job_type j) _ h2 in
    let (routing, tasks) = empty_both (validate_routing j) _ h3 in
    let some_task : is_empty j.tasks ≡ false = ground (arith, tasks) in
    let (distinct, sound) =
      validate_tasks_from-nil std config [] j.tasks (ground (arith, tasks, some_task)) in
    record {
      runs = some_task;
      distinct = distinct;
      tasks = sound;
      routing = validate_routing-nil j routing;
    }

-- A job file in which nothing is wrong declares one job. It has a task, and no two of one name; the
-- drivers are known, the time limits are times above zero, the sizes positive, and no wait begins past
-- its maximum; every constraint and affinity is on an attribute that can be matched, with a known
-- operator, which has a value unless it asks for none, and a weight is positive.
pub validate-SoundJob :
    (std : Std) (config : Task → Config) (jobs : List Job)
    → validate std config jobs ≡ []
    → (j : Job) × (jobs ≡ j ∷ []) × SoundJob std j
unfolding validate validate_jobs
validate-SoundJob std config [] h = ground (arith, h)
validate-SoundJob std config (j ∷ []) h =
    (j, refl, validate_job-SoundJob std config j (ground (arith, h)))
validate-SoundJob std config (j ∷ k ∷ js) h = ground (arith, h)
