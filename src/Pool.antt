-- ===== src/Pool.antt =====
-- internal/providers/pool: a pool of nodes as a provider. Nodes is internal/nodes/conns.go, what is
-- connected; this file is the placement of pool.go and the search of executions.go for the node that
-- holds an execution. The gRPC calls to an agent are a parameter.
use vagabond.Base.Int64.{sub64, slt}
use vagabond.Base.Assoc.{Map, erase, lookup, insert}
use vagabond.Base.{
  String, ℕ, [], ◌∷◌, Time, List, Option, Result, map, if◌then◌else◌, Bool, not, none, ◌&&◌,
  contains, string_key, str_eq, ◌||◌, suc, is_empty, some, time_sub, ◌++◌, zero, ◌≡◌, ◌⊎◌, inl, inr,
  refl, ◌+◌,
}
use vagabond.Plugin.Capabilities.{Size}
use vagabond.Pool.Nodes.{Node, Conn, Conns, in_pool, used_by, get_conn, left_at}
use vagabond.Plugin.Failure.{Failure, Mark, infrastructure_error}
use vagabond.Execution.State.{State, terminal, lost}
pub mod Nodes
pub mod Placement
pub mod Rounds
mod Tests

-- `reservation`
pub record Room : Type 0 where
  pub node : String
  pub cpu : ℕ
  pub memory : ℕ
  pub at : Time

-- `Provider`, less its name and clock. Execution IDs are the texts that agents report.
pub record NodePool : Type 0 where
  pub created : Time
  pub placed : Map String String
  pub reserved : Map String Room

-- `reservationTTL` and `leftGrace`
abbrev pub reservation_ttl : ℕ
reservation_ttl = 120000000000

abbrev pub left_grace : ℕ
left_grace = 300000000000

-- `reported` in `free`
abbrev pub reports : Node → String → Bool
reports n id = contains str_eq (map (λ h. h.execution_id) n.held) id

-- `free` skips a reservation that the node's own numbers have, or that is of another node, or old.
abbrev pub skips : Node → Time → String → Room → Bool
skips n now id r =
    not (str_eq r.node n.name) || (reports n id || slt reservation_ttl (time_sub now r.at))

-- The loop of `free` over the reservations.
unfoldable pub less_reserved : Node → Time → Map String Room → Size → Size
less_reserved n now [] left = left
less_reserved n now ((id, r) ∷ rest) left = less_reserved n now rest (
    if skips n now id r
    then left
    else record { cpu = sub64 left.cpu r.cpu; memory = sub64 left.memory r.memory })

-- `free`
unfoldable pub free_room : NodePool → Time → Node → Size
free_room p now n =
    let used = used_by n in
    less_reserved n now p.reserved
      (record { cpu = sub64 n.cpu used.cpu; memory = sub64 n.memory used.memory })

-- Whether `reserve` considers a node.
unfoldable pub considers : List String → List String → String → Bool
considers members tried name =
    not
      ((not (is_empty members) && not (contains str_eq members name)) || contains str_eq tried name)

-- A node that is considered and has the room.
unfoldable pub suits : NodePool → Time → Size → List String → List String → Node → Bool
suits p now r members tried n =
    let left = free_room p now n in
    considers members tried n.name && not (slt left.cpu r.cpu || slt left.memory r.memory)

-- The loop of `reserve`, with the best node so far and its memory.
unfoldable pub best_from :
    NodePool → Time → Size → List String → List String → List Node → String × ℕ → String × ℕ
best_from p now r members tried [] best = best
best_from p now r members tried (n ∷ ns) best =
    let memory = (free_room p now n).memory in
    best_from p now r members tried ns
      (if suits p now r members tried n && slt best.1 memory then (n.name, memory) else best)

-- -1
abbrev pub minus_one : ℕ
minus_one = 18446744073709551615

-- `reserve`: no node is none.
unfoldable pub reserve_room :
    NodePool
    → Time
    → String
    → Size
    → List String
    → List String
    → List Node
    → NodePool × Option String
reserve_room p now id r members tried ns =
    let (best, memory) = best_from p now r members tried ns ("", minus_one) in
    if str_eq best "" then (p, none) else (
      record p {
        reserved =
            insert string_key id (record { node = best; cpu = r.cpu; memory = r.memory; at = now })
              p.reserved;
      },
      some best,
    )

-- `unreserve`
unfoldable pub unreserve : NodePool → String → NodePool
unreserve p id = record p { reserved = erase string_key id p.reserved }

-- What sending a workload to a node gave: the state it reports, no room there, or another failure.
pub data Sending : Type 0 where
  sent_in : State → Sending
  no_room_there : Sending
  not_sent : Failure → Sending

pub Sending-cases :
    (x : Sending)
    → ((state : State) × (x ≡ Sending.sent_in state))
      ⊎ ((x ≡ Sending.no_room_there) ⊎ ((e : Failure) × (x ≡ Sending.not_sent e)))
Sending-cases (Sending.sent_in state) = inl (state, refl)
Sending-cases Sending.no_room_there = inr (inl refl)
Sending-cases (Sending.not_sent e) = inr (inr (e, refl))

-- What a round finds: the nodes in the pool and the clock, and what other submissions, releases and
-- reports have made of the provider's state by the time it reserves and while it sends.
pub record Round : Type 0 where
  pub nodes : List Node
  pub now : Time
  pub before : NodePool → NodePool
  pub meanwhile : NodePool → NodePool
  pub send : String → Sending

-- The loop of `SubmitTo` from the nth round on, with the fuel that bounds its rounds. The state of a
-- workload that is over already is running, since a submission may not be terminal without a result.
unfoldable pub place_on :
    (ℕ → Round)
    → ℕ
    → ℕ
    → NodePool
    → String
    → Size
    → List String
    → List String
    → Option (NodePool × Result Failure (String × State))
place_on rounds zero n p id r members tried = none
place_on rounds (suc fuel) n p id r members tried =
    let round = rounds n in
    let (reserved, chosen) =
      reserve_room (round.before p) round.now id r members tried round.nodes in
    elim chosen [
      | none ↦ some (reserved, Result.err (Failure.classified (infrastructure_error none)))
      | some node ↦
          let held = round.meanwhile reserved in
          let rest =
            place_on rounds fuel (n + 1) (unreserve held id) id r members (tried ++ (node ∷ [])) in
          elim (round.send node) [
            | Sending.sent_in state ↦ some (
              record held { placed = insert string_key id node held.placed },
              Result.ok (node, if terminal state then State.running else state),
            )
            | Sending.no_room_there ↦ rest
            | Sending.not_sent e ↦ some (unreserve held id, Result.err e)
          ]
    ]

-- The node that reports an execution, in the order of `locate`.
abbrev pub reported_by : List Node → String → Option String
reported_by [] id = none
reported_by (n ∷ ns) id =
    let later = reported_by ns id in if reports n id then some n.name else later

-- `locate`
unfoldable pub locate : NodePool → List Node → String → Option String
locate p ns id = elim (lookup string_key id p.placed) [
  | some node ↦ some node
  | none ↦ reported_by ns id
]

-- Where an execution is: on a connected node, on one that is gone for now, or not to be had.
pub data Whereabouts : Type 0 where
  on_node : Conn → Whereabouts
  gone_for_now : Whereabouts
  not_there : Failure → Whereabouts

-- `holder`
unfoldable pub holder : NodePool → Conns → String → Time → String → Whereabouts
holder p cs pool now id = elim (locate p (in_pool cs pool) id) [
  | none ↦
      if slt (time_sub now p.created) left_grace
      then Whereabouts.gone_for_now
      else Whereabouts.not_there (Failure.unclassified (some Mark.unknown_execution))
  | some node ↦ elim (get_conn cs node) [
    | some c ↦ Whereabouts.on_node c
    | none ↦ elim (left_at cs node) [
      | none ↦ Whereabouts.not_there (Failure.classified (infrastructure_error none))
      | some left ↦
          if slt (time_sub now left) left_grace
          then Whereabouts.gone_for_now
          else Whereabouts.not_there (Failure.classified (infrastructure_error none))
    ]
  ]
]

-- `connected`
unfoldable pub connected : NodePool → Conns → String → Time → String → Result Failure Conn
connected p cs pool now id = elim (holder p cs pool now id) [
  | Whereabouts.on_node c ↦ Result.ok c
  | Whereabouts.gone_for_now ↦ Result.err (Failure.classified (infrastructure_error none))
  | Whereabouts.not_there e ↦ Result.err e
]

-- `Release`, after the agent has released the execution.
unfoldable pub forget : NodePool → String → NodePool
forget p id = record p {
  placed = erase string_key id p.placed;
  reserved = erase string_key id p.reserved;
}
