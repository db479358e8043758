-- ===== src/Scheduler/Admission/Results.antt =====
-- internal/scheduler/admission.go and admit.go: the result over every provider.
use vagabond.Plugin.Capabilities.{snapshot}
use vagabond.Scheduler.Request.{Request}
use vagabond.Scheduler.Admission.{
  Check, Input, admit_from, Rejection, Candidate, Admission, admit_provider, admit, sort_admission,
  candidate_le, rejection_le,
}
use vagabond.Base.{
  ◌∷◌, List, [], ◌≡◌, some, ◌++◌, none, arith, Option-cases, inl, inr, length, ◌+◌, refl, Perm,
  Sorted, sort_perm, sort-Sorted, string_le_total, string_le_trans, All, All-sort, subst, sort,
}
use mathlib.Core.List.{append-nil, append_assoc}

module _ (rules : List Check) (req : Request) where
  abbrev pub admitted_as : Input → Candidate
  admitted_as x = record {
    input = x;
    estimated_cost = (snapshot x.capabilities).estimated_cost;
    nodes = (admit_provider req x rules).0;
  }

  -- The providers that are admitted, and the rejections of the others, in the order of the inputs.
  abbrev pub accepted : List Input → List Candidate
  accepted [] = []
  accepted (x ∷ xs) = elim (admit_provider req x rules).1 [
    | some r ↦ accepted xs
    | none ↦ admitted_as x ∷ accepted xs
  ]

  abbrev pub refused : List Input → List Rejection
  refused [] = []
  refused (x ∷ xs) = elim (admit_provider req x rules).1 [
    | some r ↦ r ∷ refused xs
    | none ↦ refused xs
  ]

  admit_from_lem :
      (xs : List Input) (result : Admission)
      → admit_from req rules xs result ≡ record {
        candidates = result.candidates ++ accepted xs;
        rejections = result.rejections ++ refused xs;
      }
  unfolding admit_from
  admit_from_lem [] result =
      ground (arith, append-nil result.candidates, append-nil result.rejections)
  admit_from_lem (x ∷ xs) result = elim (Option-cases (admit_provider req x rules).1) [
    | inl fit ↦ ground (
      arith,
      admit_from_lem xs (record result { candidates = result.candidates ++ (admitted_as x ∷ []) }),
      append_assoc result.candidates (admitted_as x ∷ []) (accepted xs),
    )
    | inr (r, unfit) ↦ ground (
      arith,
      admit_from_lem xs (record result { rejections = result.rejections ++ (r ∷ []) }),
      append_assoc result.rejections (r ∷ []) (refused xs),
    )
  ]

  one_verdict_each : (xs : List Input) → length (accepted xs) + length (refused xs) ≡ length xs
  one_verdict_each [] = refl
  one_verdict_each (x ∷ xs) = ground (arith, one_verdict_each xs)

  -- Every provider is either a candidate or rejected, never both: the candidates are those whose
  -- admission gave no rejection, the rejections those of the others, and both lists are sorted by the
  -- provider's name.
  pub admit_lem :
      (inputs : List Input)
      → let result = admit rules req inputs in
        Perm (accepted inputs) result.candidates
        × Perm (refused inputs) result.rejections
        × (length (accepted inputs) + length (refused inputs) ≡ length inputs)
        × Sorted candidate_le result.candidates
        × Sorted rejection_le result.rejections
  unfolding admit sort_admission
  admit_lem inputs = rw (admit_from_lem inputs (record { candidates = []; rejections = [] })) (
    sort_perm candidate_le (accepted inputs),
    sort_perm rejection_le (refused inputs),
    one_verdict_each inputs,
    sort-Sorted candidate_le (λ a b. string_le_total a.input.provider b.input.provider)
        (λ a b c. string_le_trans a.input.provider b.input.provider c.input.provider)
        (accepted inputs),
    sort-Sorted rejection_le (λ a b. string_le_total a.provider b.provider)
        (λ a b c. string_le_trans a.provider b.provider c.provider) (refused inputs),
  )

  accepted-All :
      (P : Input → Type 0) (xs : List Input)
      → All (λ x. (admit_provider req x rules).1 ≡ none → P x) xs
      → All (λ c. P c.input) (accepted xs)
  accepted-All P [] h = tt
  accepted-All P (x ∷ xs) h = elim (Option-cases (admit_provider req x rules).1) [
    | inl fit ↦
        subst (All (λ c. P c.input)) {x = admitted_as x ∷ accepted xs} (ground (arith, fit))
          (h.0 fit, accepted-All P xs h.1)
    | inr (r, unfit) ↦
        subst (All (λ c. P c.input)) {x = accepted xs} (ground (arith, unfit))
          (accepted-All P xs h.1)
  ]

  -- What holds of every input whose admission gives no rejection holds of every candidate's.
  pub admit-All :
      (P : Input → Type 0) (inputs : List Input)
      → All (λ x. (admit_provider req x rules).1 ≡ none → P x) inputs
      → All (λ c. P c.input) (admit rules req inputs).candidates
  unfolding admit sort_admission
  admit-All P inputs h =
      subst (All (λ c. P c.input)) {x = sort candidate_le (accepted inputs)}
        (ground (arith, admit_from_lem inputs (record { candidates = []; rejections = [] })))
        (All-sort candidate_le (λ c. P c.input) (accepted inputs) (accepted-All P inputs h))
