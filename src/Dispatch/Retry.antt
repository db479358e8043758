-- ===== src/Dispatch/Retry.antt =====
-- internal/dispatch/retry.go: how often a task is submitted and how long dispatch waits in between.
use vagabond.Scheduler.Request.{is_yes}
use vagabond.Base.Int64.{mul64, sle, slt}
use vagabond.Job.{Task, Retry}
use vagabond.Job.Std.{Std, duration_std}
use vagabond.Base.{
  Option, ℕ, false, Bool, suc, if◌then◌else◌, String, none, ◌≤◌, ◌<◌, ◌*◌, not, arith, ◌≡◌, some,
  zero, min, true, Option-cases, inl, inr,
}

-- `policy`
pub record Policy : Type 0 where
  pub attempts : ℕ
  pub reroute : Bool
  pub initial : ℕ
  pub longest : ℕ

abbrev pub default_policy : Policy
default_policy = record {
  attempts = 1;
  reroute = false;
  initial = 5000000000;
  longest = 30000000000;
}

-- `duration`
unfoldable pub usable_duration : Std → Option String → Option ℕ
usable_duration std d = elim d [
  | none ↦ none
  | some text ↦ elim (duration_std std text) [
    | none ↦ none
    | some parsed ↦ if sle parsed 0 then none else some parsed
  ]
]

abbrev pub or_default : Option ℕ → ℕ → ℕ
or_default o d = elim o [ none ↦ d | some n ↦ n ]

abbrev pub declared_attempts : Option ℕ → ℕ
declared_attempts attempts = elim attempts [ none ↦ 1 | some n ↦ if slt 0 n then n else 1 ]

-- `retryPolicy`
unfoldable pub retry_policy : Std → Task → Policy
retry_policy std task = elim task.retry [
  | none ↦ default_policy
  | some r ↦
      let p = record default_policy {
        attempts = declared_attempts r.attempts;
        reroute = is_yes r.reroute;
      } in
      elim r.backoff [
        | none ↦ p
        | some b ↦ record p {
          initial = or_default (usable_duration std b.initial) p.initial;
          longest = or_default (usable_duration std b.longest) p.longest;
        }
      ]
]

-- `policy.budget`
unfoldable pub budget : Policy → ℕ
budget p = if not p.reroute then 1 else p.attempts

-- The loop of `policy.backoff`, with its rounds left.
unfoldable pub backoff_from : Policy → ℕ → ℕ → ℕ
backoff_from p zero wait = wait
backoff_from p (suc n) wait =
    let doubled = mul64 wait 2 in
    let rest = backoff_from p n doubled in if sle p.longest doubled then p.longest else rest

-- `policy.backoff`, for an attempt from 0 on.
unfoldable pub backoff : Policy → ℕ → ℕ
backoff p zero = 0
backoff p (suc n) = backoff_from p n p.initial

-- A wait doubled n times.
abbrev pub doubled_times : ℕ → ℕ → ℕ
doubled_times zero wait = wait
doubled_times (suc n) wait = doubled_times n (wait * 2)

doubled_times-le : (n wait : ℕ) → wait ≤ doubled_times n wait
doubled_times-le zero wait = omega arith
doubled_times-le (suc n) wait = omega (arith, doubled_times-le n (wait * 2))

backoff_from_lem :
    (p : Policy) (n wait : ℕ)
    → p.longest < 4611686018427387904
    → wait ≤ p.longest
    → backoff_from p n wait ≡ min (doubled_times n wait) p.longest
unfolding backoff_from
backoff_from_lem p zero wait b h = ground arith
backoff_from_lem p (suc n) wait b h =
    ground (arith, backoff_from_lem p n (wait * 2) b, doubled_times-le n (wait * 2))

-- The wait before a submission doubles from the initial interval with each one before it, and is
-- capped at the longest. (The initial interval is no longer than that, which is below 2^62.)
pub backoff_lem :
    (p : Policy) (n : ℕ)
    → p.longest < 4611686018427387904
    → p.initial ≤ p.longest
    → backoff p (suc n) ≡ min (doubled_times n p.initial) p.longest
unfolding backoff
backoff_lem p n b h = backoff_from_lem p n p.initial b h

-- Whatever the retry block says, a task gets at least one submission, and just one unless it asks to
-- be rerouted. (A count that is declared is an int64.)
pub budget-retry_policy :
    (std : Std) (task : Task)
    → ((r : Retry) (n : ℕ) → task.retry ≡ some r → r.attempts ≡ some n → n < 18446744073709551616)
    → let p = retry_policy std task in
      (slt 0 (budget p) ≡ true) × (p.reroute ≡ false → budget p ≡ 1)
unfolding budget retry_policy
budget-retry_policy std task r = elim (Option-cases task.retry) [
  | inl absent ↦ ground arith
  | inr (retry, given) ↦ ground arith
]
