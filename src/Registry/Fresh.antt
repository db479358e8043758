-- ===== src/Registry/Fresh.antt =====
-- internal/registry/registry.go: no job is placed on what an earlier refresh said.
use vagabond.Scheduler.Admission.Results.{admit-All}
use vagabond.Scheduler.Admission.Pools.{admit_provider-some}
use vagabond.Scheduler.Admission.Verdicts.{checkers_pass_iff}
use vagabond.Quota.Limits.{PoolUsage}
use vagabond.Scheduler.Admission.{Input, admit_one, admit, admit_provider, as_member}
use vagabond.Scheduler.Request.{Request}
use vagabond.Registry.Priced.{DistinctNames}
use vagabond.Plugin.Capabilities.{Capabilities}
use vagabond.Job.Std.{Std}
use vagabond.Base.{
  [], ◌∷◌, List, Option, All, Bool, ◌≡◌, String, some, arith, true, none, eq_iff, ◌⊎◌, All-map, map,
  false, str_eq, All-zip, subst, sym, inl, inr,
}
use vagabond.Registry.{
  Entry, Registry, input_of, inputs, refresh_entry, refresh, current, provider_named,
}
use vagabond.Scheduler.Admission.Checks.{healthy_check, enabled_check, checkers}

provider_named-All :
    (es : List Entry) → DistinctNames es → All (λ e. provider_named es e.name ≡ some e) es
unfolding provider_named
provider_named-All [] d = tt
provider_named-All (e ∷ es) d = (
  ground (arith, eq_iff e.name e.name),
  All-map (λ x. (str_eq e.name x.name ≡ false) × (provider_named es x.name ≡ some x))
      (λ x. provider_named (e ∷ es) x.name ≡ some x) es (λ x h. ground (arith, h))
      (All-zip (λ x. str_eq e.name x.name ≡ false) (λ x. provider_named es x.name ≡ some x) es d.0
        (provider_named-All es d.1)),
)

admitted_is_up :
    (std : Std) (req : Request) (x : Input)
    → admit_one req x (checkers std) ≡ none
    → (x.enabled ≡ true) × (x.healthy ≡ true)
unfolding healthy_check enabled_check
admitted_is_up std req x passed =
    let (_, _, c, d, _, _, _, _, _, _, _, _, _) = (checkers_pass_iff std req x).0 passed in
    ground (arith, c, d)

-- So is a provider that is admitted, by itself or by its nodes.
admitted_provider_is_up :
    (std : Std) (req : Request) (x : Input)
    → (admit_provider req x (checkers std)).1 ≡ none
    → (x.enabled ≡ true) × (x.healthy ≡ true)
admitted_provider_is_up std req x passed = elim (admit_provider-some req x (checkers std) passed) [
  | inl alone ↦ admitted_is_up std req x alone
  | inr (c, labels, node) ↦ admitted_is_up std req (as_member x c labels) node
]

refresh_entry-name :
    (answer : Option Capabilities) (e : Entry) → (refresh_entry answer e).name ≡ e.name
unfolding refresh_entry
refresh_entry-name answer e = ground arith

answered_now :
    (ask_live : Entry → Capabilities × Bool) (answer : Option Capabilities) (e : Entry)
    → (refresh_entry answer e).enabled ≡ true
    → (current ask_live (refresh_entry answer e)).1 ≡ true
    → (e.enabled ≡ true)
      × (((e.live ≡ true)
            × ((ask_live e).0 ≡ (current ask_live (refresh_entry answer e)).0)
            × ((ask_live e).1 ≡ true))
          ⊎ ((e.live ≡ false) × (answer ≡ some (current ask_live (refresh_entry answer e)).0)))
unfolding refresh_entry current
answered_now ask_live answer e on up = ground (arith, on, up)

module _ (ask : Entry → Option Capabilities) (ask_live : Entry → Capabilities × Bool)
    (r : Registry) where
  -- The capabilities of an input are what its provider, which is enabled, says now: read live, or
  -- answered to the refresh.
  abbrev pub SaidNow : Input → Type 0
  SaidNow x =
      (e : Entry) × ((provider_named r.entries x.provider ≡ some e)
        × (e.enabled ≡ true)
        × (((e.live ≡ true) × ((ask_live e).0 ≡ x.capabilities) × ((ask_live e).1 ≡ true))
            ⊎ ((e.live ≡ false) × (ask e ≡ some x.capabilities))))

  module _ (std : Std) (req : Request) (namespace : String)
      (usage : String → String → PoolUsage × PoolUsage) where
    said_now :
        (r' : Registry) (e : Entry)
        → provider_named r.entries e.name ≡ some e
        → (admit_provider req
            (input_of r' namespace usage ask_live (refresh_entry (ask e) e))
            (checkers std)).1
          ≡ none
        → SaidNow (input_of r' namespace usage ask_live (refresh_entry (ask e) e))
    unfolding input_of refresh_entry current
    said_now r' e there passed =
        let (on, up) =
          admitted_provider_is_up std req
            (input_of r' namespace usage ask_live (refresh_entry (ask e) e)) passed in
        let (enabled, fresh) = answered_now ask_live (ask e) e on up in
        (
          e,
          (
            subst (λ name. provider_named r.entries name ≡ some e)
                (sym (refresh_entry-name (ask e) e)) there,
            enabled,
            fresh,
          ),
        )

    All-said :
        (r' : Registry) (es : List Entry)
        → All (λ e. provider_named r.entries e.name ≡ some e) es
        → All
            (λ x. (admit_provider req x (checkers std)).1 ≡ none → SaidNow x)
            (map (input_of r' namespace usage ask_live) (map (λ e. refresh_entry (ask e) e) es))
    All-said r' [] h = tt
    All-said r' (e ∷ es) h = (said_now r' e h.0, All-said r' es h.1)

    -- Of every candidate of a plan's admission after a refresh, where no two providers have a name in
    -- common: its provider is enabled, and the capabilities that it was admitted on, itself or by
    -- its nodes, are what it answered to that refresh, or, of a live one, what it says now without
    -- an error: never what it said before.
    pub refresh-SaidNow :
        DistinctNames r.entries
        → All
            (λ c. SaidNow c.input)
            (admit
              (checkers std)
              req
              (inputs (refresh ask r).0 namespace usage ask_live)).candidates
    unfolding inputs refresh
    refresh-SaidNow d =
        admit-All (checkers std) req SaidNow (inputs (refresh ask r).0 namespace usage ask_live)
          (All-said (refresh ask r).0 r.entries (provider_named-All r.entries d))
