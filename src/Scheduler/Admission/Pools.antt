-- ===== src/Scheduler/Admission/Pools.antt =====
-- internal/scheduler/admit.go: a pool is judged node by node.
use vagabond.Base.Assoc.{Map}
use mathlib.Core.Bool.{false≢true}
use vagabond.Plugin.Capabilities.{no_members, member, Members, Capabilities, members}
use vagabond.Scheduler.Admission.{
  Input, Rejection, Check, closer, judge_members, admit_one, as_member, admit_provider,
}
use vagabond.Scheduler.Request.{Request}
use vagabond.Base.{
  ◌∷◌, [], List, Option, some, ◌≡◌, String, ◌++◌, subst, All, ◌≢◌, ap, sym, none, length, ◌≤◌,
  Bool-cases, Option-cases, if◌then◌else◌, ltb, inl, not, is_empty, All-append, ◌∙◌, All-map, inr,
  arith, refl, is_empty_iff, ◌⊎◌,
}
use mathlib.Core.List.{append-nil, append_assoc}

-- The loop over the rejections alone.
closest_of : List Rejection → Option Rejection → Option Rejection
closest_of [] closest = closest
closest_of (r ∷ rs) closest = closest_of rs (closer r closest)

-- An entry of the list with the fewest further reasons.
abbrev pub Fewest : List Rejection → Rejection → Type 0
Fewest rs r =
    (before : List Rejection) × (after : List Rejection) × (rs ≡ before ++ r ∷ after)
    × All (λ q. length r.also ≤ length q.also) rs

-- The first of the fewest stays ahead.
closest_of-Fewest :
    (seen rs : List Rejection) (r : Rejection)
    → Fewest seen r
    → (c : Rejection) × (closest_of rs (some r) ≡ some c) × Fewest (seen ++ rs) c
unfolding closest_of
closest_of-Fewest seen [] r f = (r, refl, subst (λ l. Fewest l r) (sym (append-nil seen)) f)
closest_of-Fewest seen (q ∷ rs) r (before, after, split, fewest) =
    elim (Bool-cases (ltb (length q.also) (length r.also))) [
      | inl less ↦
          rw (less, sym (append_assoc seen (q ∷ []) rs))
            (closest_of-Fewest (seen ++ q ∷ []) rs q (
              seen,
              [],
              refl,
              All-append (λ p. length q.also ≤ length p.also) seen (q ∷ [])
                  (All-map (λ p. length r.also ≤ length p.also) (λ p. length q.also ≤ length p.also)
                    seen (λ p h. ground (arith, h, less)) fewest)
                  (ground arith, tt),
            ))
      | inr more ↦
          rw (more, sym (append_assoc seen (q ∷ []) rs))
            (closest_of-Fewest (seen ++ q ∷ []) rs r (
              before,
              after ++ q ∷ [],
              ap (λ l. l ++ q ∷ []) split ∙ append_assoc before (r ∷ after) (q ∷ []),
              All-append (λ p. length r.also ≤ length p.also) seen (q ∷ []) fewest
                  (ground (arith, more), tt),
            ))
    ]

module _ (req : Request) (x : Input) (rules : List Check) where
  -- The nodes that pass every check on their own, in order.
  abbrev pub passing : Members → List String
  passing no_members = []
  passing (member name c labels rest) = elim (admit_one req (as_member x c labels) rules) [
    | none ↦ name ∷ passing rest
    | some _ ↦ passing rest
  ]

  -- The rejections of the others.
  abbrev pub failing : Members → List Rejection
  failing no_members = []
  failing (member name c labels rest) = elim (admit_one req (as_member x c labels) rules) [
    | none ↦ failing rest
    | some r ↦ r ∷ failing rest
  ]

  judge_members_lem :
      (ms : Members) (passed : List String) (closest : Option Rejection)
      → judge_members req x rules ms passed closest
        ≡ (passed ++ passing ms, closest_of (failing ms) closest)
  unfolding judge_members closest_of
  judge_members_lem no_members passed closest = ap (λ l. (l, closest)) (sym (append-nil passed))
  judge_members_lem (member name c labels rest) passed closest =
      elim (Option-cases (admit_one req (as_member x c labels) rules)) [
        | inl fit ↦ ground (
          arith,
          judge_members_lem rest (passed ++ (name ∷ [])) closest,
          append_assoc passed (name ∷ []) (passing rest),
        )
        | inr (r, unfit) ↦ ground (arith, judge_members_lem rest passed (closer r closest))
      ]

  -- What is said of a pool's nodes: those that pass, or if none does the closest rejection.
  abbrev pub PoolVerdict : Members → List String × Option Rejection → Type 0
  PoolVerdict ms (nodes, none) = (nodes ≡ passing ms) × (nodes ≢ [])
  PoolVerdict ms (nodes, some r) = (nodes ≡ []) × (passing ms ≡ []) × Fewest (failing ms) r

  pool_outcome : Members → List String × Option Rejection
  pool_outcome ms =
      if not (is_empty (passing ms)) then (passing ms, none) else ([], closest_of (failing ms) none)

  admit_provider-pool_outcome :
      (name : String) (c : Capabilities) (labels : Map String String) (rest : Members)
      → members x.capabilities ≡ member name c labels rest
      → admit_provider req x rules ≡ pool_outcome (member name c labels rest)
  unfolding admit_provider pool_outcome
  admit_provider-pool_outcome name c labels rest pool =
      ground (arith, pool, judge_members_lem (member name c labels rest) [] none)

  pool_outcome-PoolVerdict :
      (name : String) (c : Capabilities) (labels : Map String String) (rest : Members)
      → PoolVerdict (member name c labels rest) (pool_outcome (member name c labels rest))
  unfolding pool_outcome closest_of
  pool_outcome-PoolVerdict name c labels rest =
      let ms = member name c labels rest in
      elim (Bool-cases (is_empty (passing ms))) [
        | inr somebody ↦
            subst (PoolVerdict ms) {x = (passing ms, none)} (ground (arith, somebody))
              (refl, λ h. ground (arith, somebody, (is_empty_iff (passing ms)).1 h))
        | inl nobody ↦ elim (Option-cases (admit_one req (as_member x c labels) rules)) [
          | inl fit ↦ absurd (false≢true (ground (arith, nobody, fit)))
          | inr (r, unfit) ↦
              let (q, closest, fewest) =
                closest_of-Fewest (r ∷ []) (failing rest) r ([], [], refl, (omega arith, tt)) in
              subst (PoolVerdict ms) {x = ([], some q)} (ground (arith, nobody, unfit, closest)) (
                refl,
                (is_empty_iff (passing ms)).0 nobody,
                subst (λ l. Fewest l q) (ground (arith, unfit)) fewest,
              )
        ]
      ]

  -- A pool is admitted with exactly the nodes that pass every check on their own, in order; when none
  -- does, its rejection is a node's with the fewest further reasons.
  pub admit_provider-PoolVerdict :
      (name : String) (c : Capabilities) (labels : Map String String) (rest : Members)
      → members x.capabilities ≡ member name c labels rest
      → PoolVerdict (member name c labels rest) (admit_provider req x rules)
  admit_provider-PoolVerdict name c labels rest pool =
      subst (PoolVerdict (member name c labels rest))
        (sym (admit_provider-pool_outcome name c labels rest pool))
        (pool_outcome-PoolVerdict name c labels rest)

  passing-member :
      (ms : Members)
      → passing ms ≢ []
      → (c : Capabilities) × (labels : Map String String) × (admit_one req
            (as_member x c labels)
            rules
          ≡ none)
  passing-member no_members some_pass = absurd (some_pass refl)
  passing-member (member name c labels rest) some_pass =
      elim (Option-cases (admit_one req (as_member x c labels) rules)) [
        | inl fit ↦ (c, labels, fit)
        | inr (r, unfit) ↦ passing-member rest (λ h. some_pass (ground (arith, unfit, h)))
      ]

  PoolVerdict-passing :
      (ms : Members) (out : List String × Option Rejection)
      → PoolVerdict ms out
      → out.1 ≡ none
      → passing ms ≢ []
  PoolVerdict-passing ms (nodes, none) (these, somebody) h = λ nobody. somebody (these ∙ nobody)
  PoolVerdict-passing ms (nodes, some r) verdict h = ground (arith, h)

  admit_provider-alone :
      members x.capabilities ≡ no_members → (admit_provider req x rules).1 ≡ admit_one req x rules
  unfolding admit_provider
  admit_provider-alone alone = ground (arith, alone)

  -- A provider that is admitted passes every check itself, or one of its nodes does.
  pub admit_provider-some :
      (admit_provider req x rules).1 ≡ none
      → (admit_one req x rules ≡ none)
        ⊎ ((c : Capabilities) × (labels : Map String String) × (admit_one req
                (as_member x c labels)
                rules
              ≡ none))
  admit_provider-some h = admitted_through (members x.capabilities) refl
    where
      admitted_through :
          (ms : Members)
          → members x.capabilities ≡ ms
          → (admit_one req x rules ≡ none)
            ⊎ ((c : Capabilities) × (labels : Map String String) × (admit_one req
                    (as_member x c labels)
                    rules
                  ≡ none))
      admitted_through no_members alone = inl (sym (admit_provider-alone alone) ∙ h)
      admitted_through (member name c labels rest) pool = inr (
          passing-member (member name c labels rest) (
            PoolVerdict-passing (member name c labels rest) (admit_provider req x rules)
              (admit_provider-PoolVerdict name c labels rest pool) h))
