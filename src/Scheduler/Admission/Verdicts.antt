-- ===== src/Scheduler/Admission/Verdicts.antt =====
-- internal/scheduler/admit.go: what one provider is told, against the reasons that its checks give.
use vagabond.Job.Std.{Std}
use vagabond.Scheduler.Admission.{admit_one, admit_one_from, Input, Check, Reason, Rejection}
use vagabond.Scheduler.Request.{Request}
use vagabond.Scheduler.Admission.Checks.{
  checkers, allowlist_check, cost_check, enabled_check, healthy_check, driver_check, arch_check,
  image_check, network_check, resources_check, duration_check, attribute_check, constraint_check,
  quota_check,
}
use vagabond.Base.{
  arith, ◌∷◌, String, [], List, ◌≡◌, All, Option, none, some, Option-cases, ◌++◌, inl, ap, inr, sym,
  ◌∙◌, refl, ◌↔◌,
}
use mathlib.Core.List.{append-nil, append_assoc}

-- The reasons of the rules that reject, in the order of the rules.
abbrev pub reasons_of : Request → Input → List Check → List Reason
reasons_of req x [] = []
reasons_of req x (check ∷ rules) = elim (check req x) [
  | none ↦ reasons_of req x rules
  | some r ↦ r.reason ∷ reasons_of req x rules
]

-- The first reason, with the later ones beside it.
abbrev pub verdict_of : String → List Reason → Option Rejection
verdict_of provider [] = none
verdict_of provider (reason ∷ later) =
    some (record { provider = provider; reason = reason; also = later })

-- A rule's rejection has no further reasons of its own.
abbrev pub Plain : Request → Input → Check → Type 0
Plain req x check = (r : Rejection) → check req x ≡ some r → r.also ≡ []

admit_one_from-some :
    (req : Request) (x : Input) (rules : List Check) (f : Rejection)
    → admit_one_from req x rules (some f)
      ≡ some (record f { also = f.also ++ reasons_of req x rules })
unfolding admit_one_from
admit_one_from-some req x [] f = ap (λ l. some (record f { also = l })) (sym (append-nil f.also))
admit_one_from-some req x (check ∷ rules) f = elim (Option-cases (check req x)) [
  | inl passed ↦ rw passed (admit_one_from-some req x rules f)
  | inr (r, failed) ↦ rw failed (
      admit_one_from-some req x rules (record f { also = f.also ++ (r.reason ∷ []) })
      ∙ ap (λ l. some (record f { also = l })) (append_assoc f.also (r.reason ∷ []) _))
]

pub admit_one_lem :
    (req : Request) (x : Input) (rules : List Check)
    → All (Plain req x) rules
    → admit_one req x rules ≡ verdict_of x.provider (reasons_of req x rules)
unfolding admit_one admit_one_from
admit_one_lem req x [] h = refl
admit_one_lem req x (check ∷ rules) h = elim (Option-cases (check req x)) [
  | inl passed ↦ rw passed (admit_one_lem req x rules h.1)
  | inr (r, failed) ↦ rw failed (
      admit_one_from-some req x rules (record r { provider = x.provider })
      ∙ ap
          (λ l. some (record {
            provider = x.provider;
            reason = r.reason;
            also = l ++ reasons_of req x rules;
          }))
          (h.0 r failed))
]

pub checkers-Plain : (std : Std) (req : Request) (x : Input) → All (Plain req x) (checkers std)
unfolding checkers allowlist_check cost_check enabled_check healthy_check driver_check arch_check
    image_check network_check resources_check duration_check attribute_check constraint_check
    quota_check
checkers-Plain std req x = (
  λ r h. ground arith,
  (
    λ r h. ground arith,
    (
      λ r h. ground arith,
      (
        λ r h. ground arith,
        (
          λ r h. ground arith,
          (
            λ r h. ground arith,
            (
              λ r h. ground arith,
              (
                λ r h. ground arith,
                (
                  λ r h. ground arith,
                  (
                    λ r h. ground arith,
                    (λ r h. ground arith, (λ r h. ground arith, (λ r h. ground arith, tt))),
                  ),
                ),
              ),
            ),
          ),
        ),
      ),
    ),
  ),
)

-- A provider is rejected for the first reason that a checker gives, in the order of the checkers, and
-- every later checker's reason rides along in order; it is admitted exactly when none gives one.
pub admit_one-checkers :
    (std : Std) (req : Request) (x : Input)
    → admit_one req x (checkers std) ≡ verdict_of x.provider (reasons_of req x (checkers std))
admit_one-checkers std req x = admit_one_lem req x (checkers std) (checkers-Plain std req x)

-- A provider passes exactly when every rule does.
admit_one-none :
    (req : Request) (x : Input) (rules : List Check)
    → All (Plain req x) rules
    → (admit_one req x rules ≡ none) ↔ All (λ c. c req x ≡ none) rules
admit_one-none req x rules h = rw (admit_one_lem req x rules h) (passes rules)
  where
    passes :
        (rules : List Check)
        → (verdict_of x.provider (reasons_of req x rules) ≡ none) ↔ All (λ c. c req x ≡ none) rules
    passes [] = (λ h. tt, λ h. refl)
    passes (check ∷ rules) = ground (arith, passes rules)

pub checkers_pass_iff :
    (std : Std) (req : Request) (x : Input)
    → (admit_one req x (checkers std) ≡ none) ↔ (
        (allowlist_check req x ≡ none)
        × (cost_check req x ≡ none)
        × (enabled_check req x ≡ none)
        × (healthy_check req x ≡ none)
        × (driver_check req x ≡ none)
        × (arch_check req x ≡ none)
        × (image_check req x ≡ none)
        × (network_check req x ≡ none)
        × (resources_check req x ≡ none)
        × (duration_check std req x ≡ none)
        × (attribute_check req x ≡ none)
        × (constraint_check std req x ≡ none)
        × (quota_check req x ≡ none))
unfolding checkers
checkers_pass_iff std req x =
    ground (arith, admit_one-none req x (checkers std) (checkers-Plain std req x))
