-- ===== src/Pool/Rounds.antt =====
-- internal/providers/pool/pool.go: the rounds of `SubmitTo`, each over the nodes that it finds.
use vagabond.Base.Assoc.{insert}
use vagabond.Pool.Placement.{reserve_room_lem}
use vagabond.Execution.State.{State, terminal}
use vagabond.Plugin.Failure.{Failure, infrastructure_error}
use vagabond.Plugin.Capabilities.{Size}
use vagabond.Pool.Nodes.{Node}
use vagabond.Pool.{
  suits, considers, NodePool, place_on, reserve_room, unreserve, Sending-cases, Round,
}
use vagabond.Base.{
  String, [], List, ◌∷◌, contains, ℕ, str_eq, Time, ◌++◌, if◌then◌else◌, ◌≤◌, ◌≡◌, false, suc, ◌||◌,
  arith, Result, true, ◌<◌, eq_iff, some, length, Option-cases, inl, none, inr, subst, string_key,
  zero, All, Bool-cases, All-middle, ◌+◌,
}

-- The names that were not tried.
abbrev pub untried : List String → List String → ℕ
untried tried [] = 0
untried tried (n ∷ ns) =
    let rest = untried tried ns in if contains str_eq tried n then rest else suc rest

contains-last :
    (tried : List String) (x name : String)
    → contains str_eq (tried ++ (x ∷ [])) name ≡ contains str_eq tried name || str_eq x name
contains-last [] x name = ground arith
contains-last (t ∷ tried) x name = ground (arith, contains-last tried x name)

untried-le :
    (tried : List String) (x : String) (ns : List String)
    → untried (tried ++ (x ∷ [])) ns ≤ untried tried ns
untried-le tried x [] = ground arith
untried-le tried x (n ∷ ns) = ground (arith, contains-last tried x n, untried-le tried x ns)

untried-lt :
    (tried : List String) (x : String) (ns : List String)
    → contains str_eq ns x ≡ true
    → contains str_eq tried x ≡ false
    → untried (tried ++ (x ∷ [])) ns < untried tried ns
untried-lt tried x [] there new = ground (arith, there)
untried-lt tried x (n ∷ ns) there new = elim (Bool-cases (str_eq n x)) [
  | inl this ↦
      ground
        (arith, this, new, contains-last tried x n, eq_iff n x, eq_iff x n, untried-le tried x ns)
  | inr other ↦ ground (
    arith,
    other,
    contains-last tried x n,
    untried-lt tried x ns (ground (arith, there, other)) new,
  )
]

suits-untried :
    (p : NodePool) (now : Time) (r : Size) (members tried : List String) (n : Node)
    → suits p now r members tried n ≡ true
    → contains str_eq tried n.name ≡ false
unfolding suits considers
suits-untried p now r members tried n h = ground (arith, h)

-- Every node of a round has one of the names.
abbrev pub Among : List String → List Node → Type 0
Among names ns = All (λ n. contains str_eq names n.name ≡ true) ns

module _ (rounds : ℕ → Round) (id : String) (r : Size) (members names : List String)
    (among : (n : ℕ) → Among names (rounds n).nodes) where
  place_on_ends :
      (fuel n : ℕ) (p : NodePool) (tried : List String)
      → untried tried names < fuel
      → (out : NodePool × Result Failure (String × State)) × (place_on rounds fuel n p id r members
            tried
          ≡ some out)
  unfolding place_on
  place_on_ends zero n p tried enough = ground (arith, enough)
  place_on_ends (suc fuel) n p tried enough =
      let round = rounds n in
      let q = round.before p in
      let (reserved, found) = reserve_room q round.now id r members tried round.nodes in
      let held = round.meanwhile reserved in
      elim (Option-cases found) [
        | inl nowhere ↦ (
          (reserved, Result.err (Failure.classified (infrastructure_error none))),
          ground (arith, nowhere),
        )
        | inr (node, chosen) ↦
            let (x, before, after, split, named, suited, best, holds) =
              reserve_room_lem q round.now r members tried id round.nodes node chosen in
            let there : contains str_eq names node ≡ true =
              subst (λ y. contains str_eq names y ≡ true) named
                (All-middle (λ y. contains str_eq names y.name ≡ true) before x after
                  (subst (Among names) split (among n))) in
            let new : contains str_eq tried node ≡ false =
              subst (λ y. contains str_eq tried y ≡ false) named
                (suits-untried q round.now r members tried x suited) in
            let (out, later) =
              place_on_ends fuel (n + 1) (unreserve held id) (tried ++ (node ∷ []))
                (omega (arith, enough, untried-lt tried node names there new)) in
            elim (Sending-cases (round.send node)) [
              | inl (state, sent) ↦ (
                (
                  record held { placed = insert string_key id node held.placed },
                  Result.ok (node, if terminal state then State.running else state),
                ),
                ground (arith, chosen, sent),
              )
              | inr (inl full) ↦ (out, ground (arith, chosen, full, later))
              | inr (inr (e, failed)) ↦
                  ((unreserve held id, Result.err e), ground (arith, chosen, failed))
            ]
      ]

  -- Where every node that is in the pool in any round has one of given names, placing a task ends,
  -- whatever other submissions do between and during its rounds: there are no more rounds than
  -- names, and the one that finds no node.
  pub place_on_lem :
      (p : NodePool)
      → (out : NodePool × Result Failure (String × State)) × (place_on rounds
            (suc (length names))
            0
            p
            id
            r
            members
            []
          ≡ some out)
  place_on_lem p = place_on_ends (suc (length names)) 0 p [] (fresh names)
    where
      fresh : (ns : List String) → untried [] ns < suc (length ns)
      fresh [] = ground arith
      fresh (n ∷ ns) = ground (arith, fresh ns)
