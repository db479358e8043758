-- ===== src/Pool/Nodes.antt =====
-- internal/nodes/conns.go: the nodes that are connected, by name, and when the others left. A session
-- is a number; closing it is what the network library does.
use vagabond.Base.Int64.{add64}
use vagabond.Plugin.Capabilities.{Size}
use vagabond.Base.Assoc.{Map, lookup, erase, insert}
use vagabond.Base.{
  String, List, ℕ, ◌∷◌, Time, [], Bool, sort, Option, if◌then◌else◌, string_le, ◌==◌, str_eq,
  string_key, none, some,
}
pub mod Sessions

-- A workload that a node holds, as its agent reports it.
pub record HeldWork : Type 0 where
  pub execution_id : String
  pub running : Bool
  pub size : Size

-- What a node reports of itself.
pub record Node : Type 0 where
  pub name : String
  pub pool : String
  pub architecture : String
  pub labels : Map String String
  pub cpu : ℕ
  pub memory : ℕ
  pub held : List HeldWork

-- `Conn`, without the client and the address.
pub record Conn : Type 0 where
  pub node : Node
  pub established : Time
  pub session : ℕ

-- The loop of `Used`.
unfoldable pub used_from : List HeldWork → Size → Size
used_from [] used = used
used_from (h ∷ hs) used = used_from hs (
    if h.running
    then record { cpu = add64 used.cpu h.size.cpu; memory = add64 used.memory h.size.memory }
    else used)

-- `Used`, without the count.
unfoldable pub used_by : Node → Size
used_by n = used_from n.held (record { cpu = 0; memory = 0 })

-- `Conns`
pub record Conns : Type 0 where
  pub conns : Map String Conn
  pub left : Map String Time

-- `Report`: the session that it closes, if it closes one.
unfoldable pub report_node : Conns → Node → ℕ → Time → Conns × Option ℕ
report_node cs n session now =
    let left = erase string_key n.name cs.left in
    let fresh : Conn = record { node = n; established = now; session = session } in
    elim (lookup string_key n.name cs.conns) [
      | none ↦ (record { conns = insert string_key n.name fresh cs.conns; left = left }, none)
      | some old ↦
          if old.session == session
          then (
            record {
              conns = insert string_key n.name (record old { node = n }) cs.conns;
              left = left;
            },
            none,
          )
          else (
            record { conns = insert string_key n.name fresh cs.conns; left = left },
            some old.session,
          )
    ]

-- The loop of `Remove`: the nodes that stay, when the others left, and their names.
unfoldable pub remove_from :
    ℕ → Time → Map String Conn → Map String Time → Map String Conn × Map String Time × List String
remove_from session now [] left = ([], left, [])
remove_from session now ((name, c) ∷ rest) left =
    let (stay, gone, names) = remove_from session now rest left in
    if c.session == session
    then (stay, insert string_key name now gone, name ∷ names)
    else ((name, c) ∷ stay, gone, names)

-- `Remove`
unfoldable pub remove_session : Conns → ℕ → Time → Conns × List String
remove_session cs session now =
    let (stay, gone, names) = remove_from session now cs.conns cs.left in
    (record { conns = stay; left = gone }, names)

-- `Get` and `LeftAt`
unfoldable pub get_conn : Conns → String → Option Conn
get_conn cs name = lookup string_key name cs.conns

unfoldable pub left_at : Conns → String → Option Time
left_at cs name = lookup string_key name cs.left

-- The loop of `filter` for `InPool`.
abbrev pub nodes_in : String → Map String Conn → List Node
nodes_in pool [] = []
nodes_in pool ((name, c) ∷ rest) =
    let later = nodes_in pool rest in if str_eq c.node.pool pool then c.node ∷ later else later

-- `InPool`
unfoldable pub in_pool : Conns → String → List Node
in_pool cs pool = sort (λ a b. string_le a.name b.name) (nodes_in pool cs.conns)
