-- ===== src/Ledger/Account/Snapshot/Periods.antt =====
-- internal/ledger/ledger.go: the calendar periods that the ledger reads.
use vagabond.Ledger.Account.{total_of, share_of, Budgets}
use vagabond.Quota.Meter.{period_key}
use vagabond.Base.Assoc.{Map, lookup}
use vagabond.Quota.Limits.{Limits}
use vagabond.Ledger.Account.Snapshot.{add_periods, add_limits, add_shares, current_periods}
use vagabond.Base.{
  [], place, List, sort, Time, ◌∷◌, String, Bool, ◌≡◌, ◌++◌, All, string_le, ◌||◌, true, contains,
  string_key, str_eq, arith, some, refl, false, Bool-cases, eq_iff, inl, inr, subst, All-map, sym,
  ◌∙◌, Option-cases,
}

abbrev pub among : List String → String → Bool
among periods key = contains str_eq periods key

among-append : (xs ys : List String) (k : String) → among (xs ++ ys) k ≡ (among xs k || among ys k)
among-append [] ys k = refl
among-append (x ∷ xs) ys k = ground (arith, among-append xs ys k)

among-place :
    (x : String) (ys : List String) (k : String)
    → among (place string_le x ys) k ≡ (str_eq x k || among ys k)
unfolding place
among-place x [] k = refl
among-place x (y ∷ ys) k = ground (arith, among-place x ys k)

among-sort : (xs : List String) (k : String) → among (sort string_le xs) k ≡ among xs k
unfolding sort
among-sort [] k = refl
among-sort (x ∷ xs) k = ground (arith, among-place x (sort string_le xs) k, among-sort xs k)

module _ (now : Time) where
  add_periods-keeps :
      (pools : Limits) (periods : List String) (k : String)
      → among periods k ≡ true
      → among (add_periods now pools periods) k ≡ true
  unfolding add_periods
  add_periods-keeps [] periods k h = h
  add_periods-keeps (p ∷ ps) periods k h =
      add_periods-keeps ps _ k
        (ground (arith, h, among-append periods (period_key p.period now ∷ []) k))

  -- Each pool's period that is one is added.
  add_periods-adds :
      (pools : Limits) (periods : List String)
      → All (λ p. (str_eq (period_key p.period now) "" ≡ false)) pools
      → All (λ p. among (add_periods now pools periods) (period_key p.period now) ≡ true) pools
  unfolding add_periods
  add_periods-adds [] periods named = tt
  add_periods-adds (p ∷ ps) periods named = (
    add_periods-keeps ps _ (period_key p.period now) (
        ground (
          arith,
          named.0,
          among-append periods (period_key p.period now ∷ []) (period_key p.period now),
          eq_iff (period_key p.period now) (period_key p.period now),
        )),
    add_periods-adds ps _ named.1,
  )

  add_limits-keeps :
      (m : Map String Limits) (periods : List String) (k : String)
      → among periods k ≡ true
      → among (add_limits now m periods) k ≡ true
  unfolding add_limits
  add_limits-keeps [] periods k h = h
  add_limits-keeps ((name, l) ∷ rest) periods k h =
      add_limits-keeps rest (add_periods now l periods) k (add_periods-keeps l periods k h)

  add_shares-keeps :
      (m : Map String (Map String Limits)) (periods : List String) (k : String)
      → among periods k ≡ true
      → among (add_shares now m periods) k ≡ true
  unfolding add_shares
  add_shares-keeps [] periods k h = h
  add_shares-keeps ((name, l) ∷ rest) periods k h =
      add_shares-keeps rest (add_limits now l periods) k (add_limits-keeps l periods k h)

  abbrev pub Covered : List String → Limits → Type 0
  Covered periods pools = All (λ p. among periods (period_key p.period now) ≡ true) pools

  abbrev pub Named : Limits → Type 0
  Named pools = All (λ p. str_eq (period_key p.period now) "" ≡ false) pools

  add_limits-adds :
      (m : Map String Limits) (periods : List String) (name : String) (pools : Limits)
      → lookup string_key name m ≡ some pools
      → Named pools
      → Covered (add_limits now m periods) pools
  unfolding add_limits lookup
  add_limits-adds [] periods name pools h named = absurd (ground (arith, h))
  add_limits-adds ((j, l) ∷ rest) periods name pools h named = elim (Bool-cases (str_eq j name)) [
    | inl this ↦
        let same : l ≡ pools = ground (arith, this, h) in
        subst (Covered (add_limits now rest (add_periods now l periods))) same (
          All-map _ _ l
            (λ p k. add_limits-keeps rest (add_periods now l periods) (period_key p.period now) k)
            (add_periods-adds l periods (subst Named (sym same) named)))
    | inr other ↦
        add_limits-adds rest (add_periods now l periods) name pools (ground (arith, other, h)) named
  ]

  add_shares-adds :
      (m : Map String (Map String Limits)) (periods : List String) (namespace provider : String)
      (shares : Map String Limits) (pools : Limits)
      → lookup string_key namespace m ≡ some shares
      → lookup string_key provider shares ≡ some pools
      → Named pools
      → Covered (add_shares now m periods) pools
  unfolding add_shares lookup
  add_shares-adds [] periods namespace provider shares pools h k named = absurd (ground (arith, h))
  add_shares-adds ((j, l) ∷ rest) periods namespace provider shares pools h k named =
      elim (Bool-cases (str_eq j namespace)) [
        | inl this ↦
            let same : l ≡ shares = ground (arith, this, h) in
            All-map _ _ pools
              (λ p c. add_shares-keeps rest (add_limits now l periods) (period_key p.period now) c)
              (add_limits-adds l periods provider pools
                (subst (λ x. lookup string_key provider x ≡ some pools) (sym same) k) named)
        | inr other ↦
            add_shares-adds rest (add_limits now l periods) namespace provider shares pools
              (ground (arith, other, h)) k named
      ]

  sorted_Covered :
      (periods : List String) (pools : Limits)
      → Covered periods pools
      → Covered (sort string_le periods) pools
  sorted_Covered periods pools c =
      All-map _ _ pools (λ p k. among-sort periods (period_key p.period now) ∙ k) c

  -- The periods that the ledger reads are those of the pools that it prices by.
  pub current_periods-total :
      (b : Budgets) (provider : String)
      → Named (total_of b provider)
      → Covered (current_periods b now) (total_of b provider)
  unfolding current_periods total_of
  current_periods-total b provider named =
      let listed = add_limits now b.totals [] in
      elim (Option-cases (lookup string_key provider b.totals)) [
        | inl missing ↦
            subst (Covered (current_periods b now)) {x = []} (ground (arith, missing)) tt
        | inr (pools, there) ↦
            let same : pools ≡ total_of b provider = ground (arith, there) in
            subst (Covered (current_periods b now)) same (
              sorted_Covered _ pools (
                All-map _ _ pools
                  (λ p c. add_shares-keeps b.namespaces listed (period_key p.period now) c)
                  (add_limits-adds b.totals [] provider pools there
                    (subst Named (sym same) named))))
      ]

  pub current_periods-share :
      (b : Budgets) (namespace provider : String)
      → Named (share_of b namespace provider)
      → Covered (current_periods b now) (share_of b namespace provider)
  unfolding current_periods share_of
  current_periods-share b namespace provider named =
      elim (Option-cases (lookup string_key namespace b.namespaces)) [
        | inl missing ↦
            subst (Covered (current_periods b now)) {x = []} (ground (arith, missing)) tt
        | inr (shares, declared) ↦ elim (Option-cases (lookup string_key provider shares)) [
          | inl missing ↦
              subst (Covered (current_periods b now)) {x = []} (ground (arith, declared, missing))
                tt
          | inr (pools, there) ↦
              let same : pools ≡ share_of b namespace provider = ground (arith, declared, there) in
              subst (Covered (current_periods b now)) same (
                sorted_Covered _ pools (
                  add_shares-adds b.namespaces (add_limits now b.totals []) namespace provider
                    shares pools declared there (subst Named (sym same) named)))
        ]
      ]
