-- ===== src/Jobspec.antt =====
-- internal/jobspec/validate.go: what is wrong with a job file, with the closed vocabularies of
-- internal/job. A diagnostic is kept as what is wrong and in which task, without its text. A task's
-- config block is HCL, read by a third-party library, so what that finds in it is a parameter.
use vagabond.Plugin.Attributes.{matchable}
use vagabond.Base.Int64.{slt, sle}
use vagabond.Job.Std.{Std, duration_std}
use vagabond.Base.{
  List, Option, Bool, ◌∷◌, String, [], none, ◌++◌, if◌then◌else◌, ℕ, str_eq, false, not, contains,
  true, is_empty, some, ltb, ◌&&◌, ◌==◌, length,
}
use vagabond.Job.{
  Job, Task, Operator, Constraint, Retry, strategy_free_first, Affinity, tiers_strict,
  tiers_weighted, presence,
}
pub mod Sound
pub mod Matchable
pub mod Meta
mod Tests

-- What the HCL library finds in a config block.
pub data Config : Type 0 where
  no_body unreadable : Config
  attributes_of : List String → Config

pub data Kind : Type 0 where
  constraint affinity : Kind

pub data Field : Type 0 where
  backoff_initial backoff_longest : Field

-- What a diagnostic says.
pub data Problem : Type 0 where
  empty_specification too_many_jobs missing_job_name empty_namespace unknown_type : Problem
  unknown_strategy unknown_tiers invalid_weight no_tasks : Problem
  unknown_attribute_of unknown_operator unexpected_value missing_value : Kind → Problem
  duplicate_task missing_task_name unknown_driver missing_image unreadable_config : String → Problem
  unknown_architecture invalid_cpu invalid_memory invalid_timeout : String → Problem
  invalid_attempts invalid_backoff : String → Problem
  invalid_duration : Field → String → Problem

-- The vocabularies, and `Valid` of each.
abbrev pub type_names : List String
type_names = "batch" ∷ []

abbrev pub strategy_names : List String
strategy_names = strategy_free_first ∷ []

abbrev pub tier_modes : List String
tier_modes = tiers_strict ∷ tiers_weighted ∷ []

abbrev pub driver_container : String
driver_container = "container"

abbrev pub driver_names : List String
driver_names = driver_container ∷ "function" ∷ "worker" ∷ []

abbrev pub arch_names : List String
arch_names = "amd64" ∷ "arm64" ∷ []

abbrev pub named_in : List String → String → Bool
named_in names s = contains str_eq names s

abbrev pub operator_valid : Operator → Bool
operator_valid (Operator.other _) = false
operator_valid _ = true

-- A diagnostic where a test finds something wrong.
abbrev pub report : Bool → Problem → List Problem
report wrong p = if wrong then p ∷ [] else []

abbrev pub given_and : {A : Type 0} → Option A → (A → Bool) → Bool
given_and o test = elim o [ none ↦ false | some a ↦ test a ]

unfoldable pub validate_attribute : Kind → String → List Problem
validate_attribute kind attribute =
    if matchable attribute then [] else Problem.unknown_attribute_of kind ∷ []

unfoldable pub validate_operator : Kind → Operator → String → List Problem
validate_operator kind op value =
    if not (operator_valid op)
    then Problem.unknown_operator kind ∷ []
    else if presence op && not (str_eq value "")
    then Problem.unexpected_value kind ∷ []
    else if not (presence op) && str_eq value ""
    then Problem.missing_value kind ∷ []
    else []

-- The loops of `validateRouting`.
unfoldable pub validate_constraints : List Constraint → List Problem
validate_constraints [] = []
validate_constraints (c ∷ cs) =
    validate_attribute Kind.constraint c.attribute
    ++ (validate_operator Kind.constraint c.operator c.value ++ validate_constraints cs)

unfoldable pub validate_affinities : List Affinity → List Problem
validate_affinities [] = []
validate_affinities (a ∷ rest) =
    validate_attribute Kind.affinity a.attribute
    ++ (validate_operator Kind.affinity a.operator a.value
        ++ (report (given_and a.weight (λ w. sle w 0)) Problem.invalid_weight
            ++ validate_affinities rest))

unfoldable pub validate_routing : Job → List Problem
validate_routing j = elim j.routing [
  | none ↦ []
  | some r ↦
      report (given_and r.strategy (λ s. not (named_in strategy_names s))) Problem.unknown_strategy
      ++ (report (given_and r.tiers (λ s. not (named_in tier_modes s))) Problem.unknown_tiers
          ++ (validate_constraints r.constraints ++ validate_affinities r.affinities))
]

unfoldable pub validate_job_type : Job → List Problem
validate_job_type j =
    report (given_and j.type (λ s. not (named_in type_names s))) Problem.unknown_type

unfoldable pub validate_driver : Task → List Problem
validate_driver t =
    if named_in driver_names t.driver then [] else Problem.unknown_driver t.name ∷ []

unfoldable pub validate_execution : Task → List Problem
validate_execution t = elim t.execution [
  | none ↦ []
  | some x ↦
      report (given_and x.architecture (λ s. not (named_in arch_names s)))
        (Problem.unknown_architecture t.name)
]

unfoldable pub validate_resources : Task → List Problem
validate_resources t = elim t.resources [
  | none ↦ []
  | some r ↦
      report (given_and r.cpu (λ n. sle n 0)) (Problem.invalid_cpu t.name)
      ++ report (given_and r.memory (λ n. sle n 0)) (Problem.invalid_memory t.name)
]

module _ (std : Std) (config : Task → Config) where
  unfoldable pub validate_config : Task → List Problem
  validate_config t = if not (str_eq t.driver driver_container) then [] else elim (config t) [
    | Config.no_body ↦ Problem.missing_image t.name ∷ []
    | Config.unreadable ↦ Problem.unreadable_config t.name ∷ []
    | Config.attributes_of names ↦
        if named_in names "image" then [] else Problem.missing_image t.name ∷ []
  ]

  unfoldable pub validate_timeout : Task → List Problem
  validate_timeout t = elim t.timeout [
    | none ↦ []
    | some d ↦ elim (duration_std std d) [
      | none ↦ Problem.invalid_timeout t.name ∷ []
      | some parsed ↦ report (parsed == 0) (Problem.invalid_timeout t.name)
    ]
  ]

  -- `checkDuration`: what it reports, and the duration if there is a usable one.
  unfoldable pub check_duration : Task → Field → Option String → List Problem × Option ℕ
  check_duration t field value = elim value [
    | none ↦ ([], none)
    | some d ↦ elim (duration_std std d) [
      | none ↦ (Problem.invalid_duration field t.name ∷ [], none)
      | some parsed ↦ ([], some parsed)
    ]
  ]

  -- Both are given, and the longest is below the initial one.
  abbrev pub never_reached : Option ℕ → Option ℕ → Bool
  never_reached initial longest = given_and initial (λ i. given_and longest (λ m. slt m i))

  unfoldable pub validate_backoff : Task → Retry → List Problem
  validate_backoff t r = elim r.backoff [
    | none ↦ []
    | some b ↦
        let (wrong, initial) = check_duration t Field.backoff_initial b.initial in
        let (also, longest) = check_duration t Field.backoff_longest b.longest in
        wrong ++ (also ++ report (never_reached initial longest) (Problem.invalid_backoff t.name))
  ]

  unfoldable pub validate_retry : Task → List Problem
  validate_retry t = elim t.retry [
    | none ↦ []
    | some r ↦
        report (given_and r.attempts (λ n. slt n 0)) (Problem.invalid_attempts t.name)
        ++ validate_backoff t r
  ]

  unfoldable pub validate_task : Task → List Problem
  validate_task t =
      report (str_eq (std.trim_space t.name) "") (Problem.missing_task_name t.name)
      ++ (validate_driver t
          ++ (validate_config t
              ++ (validate_execution t
                  ++ (validate_resources t ++ (validate_timeout t ++ validate_retry t)))))

  -- The loop of `validateTasks`, with the names seen.
  unfoldable pub validate_tasks_from : List String → List Task → List Problem
  validate_tasks_from seen [] = []
  validate_tasks_from seen (t ∷ ts) =
      report (named_in seen t.name) (Problem.duplicate_task t.name)
      ++ (validate_task t ++ validate_tasks_from (t.name ∷ seen) ts)

  unfoldable pub validate_tasks : Job → List Problem
  validate_tasks j =
      if is_empty j.tasks then Problem.no_tasks ∷ [] else validate_tasks_from [] j.tasks

  unfoldable pub validate_job : Job → List Problem
  validate_job j =
      report (str_eq (std.trim_space j.name) "") Problem.missing_job_name
      ++ (report (given_and j.namespace (λ s. str_eq (std.trim_space s) "")) Problem.empty_namespace
          ++ (validate_job_type j ++ (validate_routing j ++ validate_tasks j)))

  -- The loop of `Validate`.
  unfoldable pub validate_jobs : List Job → List Problem
  validate_jobs [] = []
  validate_jobs (j ∷ js) = validate_job j ++ validate_jobs js

  -- `Validate`, of a file that is there.
  unfoldable pub validate : List Job → List Problem
  validate jobs =
      if is_empty jobs
      then Problem.empty_specification ∷ []
      else report (ltb 1 (length jobs)) Problem.too_many_jobs ++ validate_jobs jobs
