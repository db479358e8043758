-- ===== src/Scheduler/Ranking/Whole.antt =====
-- internal/scheduler/plan.go: what becomes of every provider in a plan.
use vagabond.Scheduler.Admission.Checks.{checkers}
use vagabond.Scheduler.Ranking.{
  plan_task, rank, score_candidate, TierSpan, ranked_providers, tier_span_of, rank_le, scored,
}
use vagabond.Job.Std.{Std}
use vagabond.Scheduler.Floats.{Floats}
use vagabond.Scheduler.Admission.Results.{accepted, refused, admitted_as, admit_lem}
use vagabond.Plugin.Capabilities.{Members, Members-cases, members, member, no_members}
use vagabond.Scheduler.Request.{Request, tier_mode}
use vagabond.Scheduler.Admission.{
  admit_one_from, judge_members, admit_provider, Check, Rejection, admit_one, Input, closer,
  as_member, Candidate, any_transient, admit, retryable_later, admitted, Admission,
}
use vagabond.Base.{
  ◌∷◌, [], List, String, Option, some, none, ◌≡◌, Perm, Option-cases, ◌++◌, refl, Bool-cases, map,
  inl, ltb, inr, length, subst, is_empty, sym, Perm-middle, arith, true, ap, sort_perm,
  is_empty_iff,
}
use mathlib.Core.List.Perm as Permutation

-- A rejection is of the provider that it judges.
abbrev pub OfProvider : String → Option Rejection → Type 0
OfProvider provider none = Unit
OfProvider provider (some r) = r.provider ≡ provider

taken_up-OfProvider :
    (provider : String) (first : Option Rejection) (r : Rejection)
    → OfProvider provider first
    → OfProvider provider (elim first [
      | none ↦ some (record r { provider = provider })
      | some f ↦ some (record f { also = f.also ++ (r.reason ∷ []) })
    ])
taken_up-OfProvider provider none r h = refl
taken_up-OfProvider provider (some f) r h = h

closer-OfProvider :
    (provider : String) (r : Rejection) (c : Option Rejection)
    → r.provider ≡ provider
    → OfProvider provider c
    → OfProvider provider (closer r c)
closer-OfProvider provider r none h k = h
closer-OfProvider provider r (some c) h k =
    elim (Bool-cases (ltb (length r.also) (length c.also))) [
      | inl fewer ↦ rw fewer h
      | inr more ↦ rw more k
    ]

admit_one_from-OfProvider :
    (req : Request) (x : Input) (rules : List Check) (first : Option Rejection)
    → OfProvider x.provider first
    → OfProvider x.provider (admit_one_from req x rules first)
unfolding admit_one_from
admit_one_from-OfProvider req x [] first h = h
admit_one_from-OfProvider req x (check ∷ rules) first h = elim (Option-cases (check req x)) [
  | inl fit ↦ rw fit (admit_one_from-OfProvider req x rules first h)
  | inr (r, unfit) ↦
      rw unfit (admit_one_from-OfProvider req x rules _ (taken_up-OfProvider x.provider first r h))
]

judge_members-OfProvider :
    (req : Request) (x : Input) (rules : List Check) (ms : Members) (passed : List String)
    (closest : Option Rejection)
    → OfProvider x.provider closest
    → OfProvider x.provider (judge_members req x rules ms passed closest).1
unfolding judge_members admit_one
judge_members-OfProvider req x rules no_members passed closest h = h
judge_members-OfProvider req x rules (member name c labels rest) passed closest h =
    let own = admit_one_from-OfProvider req (as_member x c labels) rules none tt in
    elim (Option-cases (admit_one_from req (as_member x c labels) rules none)) [
      | inl fit ↦
          subst (OfProvider x.provider)
            {x = (judge_members req x rules rest (passed ++ (name ∷ [])) closest).1}
            (ground (arith, fit))
            (judge_members-OfProvider req x rules rest (passed ++ (name ∷ [])) closest h)
      | inr (r, unfit) ↦
          subst (OfProvider x.provider)
            {x = (judge_members req x rules rest passed (closer r closest)).1}
            (ground (arith, unfit))
            (judge_members-OfProvider req x rules rest passed (closer r closest)
              (closer-OfProvider x.provider r closest (subst (OfProvider x.provider) unfit own) h))
    ]

admit_provider-OfProvider :
    (req : Request) (x : Input) (rules : List Check)
    → OfProvider x.provider (admit_provider req x rules).1
unfolding admit_provider admit_one
admit_provider-OfProvider req x rules = elim (Members-cases (members x.capabilities)) [
  | inl alone ↦
      subst (OfProvider x.provider) {x = admit_one_from req x rules none} (ground (arith, alone))
        (admit_one_from-OfProvider req x rules none tt)
  | inr (name, c, labels, rest, pool) ↦
      let ms : Members = member name c labels rest in
      elim (Bool-cases (is_empty (judge_members req x rules ms [] none).0)) [
        | inl nobody ↦
            subst (OfProvider x.provider) {x = (judge_members req x rules ms [] none).1}
              (ground (arith, pool, nobody)) (judge_members-OfProvider req x rules ms [] none tt)
        | inr somebody ↦
            subst (OfProvider x.provider) {x = none} (ground (arith, pool, somebody)) tt
      ]
]

-- The providers of the candidates, then those of the rejections.
abbrev pub names_of : List Candidate × List Rejection → List String
names_of (cs, rs) = map (λ c. c.input.provider) cs ++ map (λ r. r.provider) rs

admit_names :
    (rules : List Check) (req : Request) (xs : List Input)
    → Perm (map (λ x. x.provider) xs) (names_of (accepted rules req xs, refused rules req xs))
admit_names rules req [] = Permutation.rfl
admit_names rules req (x ∷ xs) =
    let names : List Candidate × List Rejection → Type 0 =
      λ p. Perm (x.provider ∷ map (λ x. x.provider) xs) (names_of p) in
    elim (Option-cases (admit_provider req x rules).1) [
      | inl fit ↦
          subst names {x = (admitted_as rules req x ∷ accepted rules req xs, refused rules req xs)}
            (ground (arith, fit)) (Permutation.cons x.provider (admit_names rules req xs))
      | inr (r, unfit) ↦
          let named = subst (OfProvider x.provider) unfit (admit_provider-OfProvider req x rules) in
          subst names {x = (accepted rules req xs, r ∷ refused rules req xs)}
            (ground (arith, unfit))
            (Permutation.trans (Permutation.cons' (sym named) (admit_names rules req xs)) (
              Perm-middle r.provider (map (λ c. c.input.provider) (accepted rules req xs))
                (map (λ r. r.provider) (refused rules req xs))))
    ]

module _ {F : Type 0} (fl : Floats F) (std : Std) (req : Request) where
  scored_names :
      (mode : String) (span : TierSpan) (cs : List Candidate)
      → map (λ s. s.candidate.input.provider) (map (score_candidate fl std req mode span) cs)
        ≡ map (λ c. c.input.provider) cs
  unfolding score_candidate
  scored_names mode span [] = refl
  scored_names mode span (c ∷ cs) = ap (λ l. c.input.provider ∷ l) (scored_names mode span cs)

  ranked_names :
      (cs : List Candidate)
      → Perm (map (λ c. c.input.provider) cs) (ranked_providers (rank fl std req cs))
  unfolding rank ranked_providers
  ranked_names cs =
      subst (λ l. Perm l (ranked_providers (rank fl std req cs)))
        (scored_names (tier_mode req) (tier_span_of cs) cs)
        (Permutation.map (λ s. s.candidate.input.provider)
          (sort_perm (rank_le fl (tier_mode req)) (scored fl std req cs)))

  retryable-none :
      (result : Admission)
      → retryable_later result ≡ true
      → (rank fl std req result.candidates ≡ []) × (any_transient result.rejections ≡ true)
  unfolding retryable_later admitted rank vagabond.Base.sort
  retryable-none result h =
      let nothing : result.candidates ≡ [] = (is_empty_iff result.candidates).0 (ground arith) in
      (rw nothing refl, ground arith)

  -- The names of a plan's ranking and of its rejections are together those of the inputs, each as
  -- often as it was given: no provider is lost, and none that is given once is both ranked and
  -- rejected. A plan that is retryable ranks nothing and has a transient rejection.
  pub plan_task_lem :
      (inputs : List Input)
      → let plan = plan_task fl std req inputs in
        Perm
          (map (λ x. x.provider) inputs)
          (ranked_providers plan.ranking ++ map (λ r. r.provider) plan.rejections)
        × (plan.retryable ≡ true → (plan.ranking ≡ []) × (any_transient plan.rejections ≡ true))
  unfolding plan_task
  plan_task_lem inputs =
      let result = admit (checkers std) req inputs in
      let (cs, rs, counted, ordered, sorted) = admit_lem (checkers std) req inputs in
      (
        Permutation.trans (admit_names (checkers std) req inputs) (
            Permutation.append
              (Permutation.trans (Permutation.map (λ c. c.input.provider) cs)
                (ranked_names result.candidates))
              (Permutation.map (λ r. r.provider) rs)),
        retryable-none result,
      )
