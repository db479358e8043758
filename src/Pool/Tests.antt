-- ===== src/Pool/Tests.antt =====
-- The theorems on pools at two nodes, one of which is too small and one full.
use vagabond.Execution.State.{State}
use vagabond.Plugin.Failure.{Failure}
use vagabond.Base.Assoc.{lookup}
use vagabond.Plugin.Capabilities.{Size}
use vagabond.Pool.{
  NodePool, reserve_room, best_from, Sending, suits, considers, free_room, place_on, less_reserved,
  Round,
}
use vagabond.Pool.Placement.{Suits, NoneBetter, room, reserve_room_lem}
use vagabond.Pool.Rounds.{place_on_lem, Among}
use vagabond.Pool.Nodes.{used_by, used_from, Node, Conns}
use vagabond.Base.{
  ◌++◌, List, ◌≢◌, [], String, ◌∷◌, ◌≡◌, Result, arith, ℕ, if◌then◌else◌, some, true, string_key,
  str_eq, refl, Bool-cases, leb, inl, ◌+◌, inr,
}

abbrev node : String → ℕ → Node
node name memory = record {
  name = name;
  pool = "home";
  architecture = "arm64";
  labels = [];
  cpu = 4000;
  memory = memory;
  held =
      record { execution_id = "x"; running = true; size = record { cpu = 500; memory = 256 } } ∷ [];
}

abbrev ns : List Node
ns = node "left" 1024 ∷ node "right" 2048 ∷ []

abbrev pool : NodePool
pool = record { created = 1; placed = []; reserved = [] }

abbrev size : Size
size = record { cpu = 1000; memory = 512 }

chosen : (reserve_room pool 5 "y" size [] [] ns).1 ≡ some "right"
unfolding reserve_room best_from suits considers free_room less_reserved used_by used_from
chosen = refl

reserve_room_lem_example :
    (n : Node) × (before : List Node) × (after : List Node) × (ns ≡ before ++ n ∷ after)
    × (n.name ≡ "right")
    × Suits pool 5 size [] [] n
    × NoneBetter pool 5 size [] [] ns (room pool 5 size [] [] n)
    × (lookup string_key "y" (reserve_room pool 5 "y" size [] [] ns).0.reserved
        ≡ some (record { node = "right"; cpu = 1000; memory = 512; at = 5 }))
reserve_room_lem_example = reserve_room_lem pool 5 size [] [] "y" ns "right" chosen

abbrev full_right : String → Sending
full_right name =
    if str_eq name "right" then Sending.no_room_there else Sending.sent_in State.accepted

-- The right node has left by the second round, in which another has joined.
abbrev rounds : ℕ → Round
rounds n = record {
  nodes = if leb n 0 then ns else node "late" 5000 ∷ [];
  now = 5 + n;
  before = λ p. p;
  meanwhile = λ p. p;
  send = full_right;
}

rounds-Among : (n : ℕ) → Among ("left" ∷ "right" ∷ "late" ∷ []) (rounds n).nodes
rounds-Among n = elim (Bool-cases (leb n 0)) [
  | inl first ↦ rw first (refl, (refl, tt))
  | inr later ↦ rw later (refl, tt)
]

place_on_lem_example :
    (out : NodePool × Result Failure (String × State)) × (place_on rounds 4 0 pool "y" size [] []
      ≡ some out)
place_on_lem_example =
    place_on_lem rounds "y" size [] ("left" ∷ "right" ∷ "late" ∷ []) rounds-Among pool

abbrev conns : Conns
conns = record { conns = []; left = [] }

another : ◌≢◌ {A = ℕ} 2 1
another h = omega (arith, h)
