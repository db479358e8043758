-- ===== src/Pool/Nodes/Sessions.antt =====
-- internal/nodes/conns.go: a node that reconnects before its old session closes.
use vagabond.Base.Assoc.{lookup, Map, lookup-insert}
use vagabond.Base.{
  ◌∷◌, [], ℕ, Time, ◌≢◌, ◌≡◌, String, some, string_key, arith, ◌==◌, Option-cases, inl, false,
  Bool-cases, eq_iff, str_eq, inr, refl,
}
use vagabond.Pool.Nodes.{remove_from, remove_session, report_node, get_conn, Conns, Node, Conn}

-- A node of another session stays.
remove_from-lookup :
    (session : ℕ) (now : Time) (m : Map String Conn) (left : Map String Time) (name : String)
    (c : Conn)
    → lookup string_key name m ≡ some c
    → (c.session == session) ≡ false
    → lookup string_key name (remove_from session now m left).0 ≡ some c
unfolding remove_from lookup
remove_from-lookup session now [] left name c h k = h
remove_from-lookup session now ((j, d) ∷ m) left name c h k = elim (Bool-cases (str_eq j name)) [
  | inl this ↦ ground (arith, h, k, this)
  | inr another ↦ elim (Bool-cases (d.session == session)) [
    | inl gone ↦ ground (
      arith,
      h,
      k,
      another,
      gone,
      remove_from-lookup session now m left name c (ground (arith, h, another)) k,
    )
    | inr stays ↦ ground (
      arith,
      h,
      k,
      another,
      stays,
      remove_from-lookup session now m left name c (ground (arith, h, another)) k,
    )
  ]
]

report_node-get_conn :
    (cs : Conns) (n : Node) (session : ℕ) (now : Time)
    → (c : Conn) × (get_conn (report_node cs n session now).0 n.name ≡ some c)
      × (c.node ≡ n)
      × (c.session ≡ session)
unfolding report_node get_conn
report_node-get_conn cs n session now =
    let fresh : Conn = record { node = n; established = now; session = session } in
    elim (Option-cases (lookup string_key n.name cs.conns)) [
      | inl new ↦ (
        fresh,
        ground (
          arith,
          new,
          eq_iff n.name n.name,
          lookup-insert string_key n.name n.name fresh cs.conns,
        ),
        refl,
        refl,
      )
      | inr (old, known) ↦ elim (Bool-cases (old.session == session)) [
        | inl same ↦
            let updated : Conn = record old { node = n } in
            (
              updated,
              ground (
                arith,
                known,
                same,
                eq_iff n.name n.name,
                lookup-insert string_key n.name n.name updated cs.conns,
              ),
              refl,
              ground (arith, same),
            )
        | inr other ↦ (
          fresh,
          ground (
            arith,
            known,
            other,
            eq_iff n.name n.name,
            lookup-insert string_key n.name n.name fresh cs.conns,
          ),
          refl,
          refl,
        )
      ]
    ]

-- A node that has reported on a session stays connected on it, as it reported, when any other session
-- closes: also one that it had before.
pub remove_session-report_node :
    (cs : Conns) (n : Node) (session closed : ℕ) (now later : Time)
    → session ≢ closed
    → (c : Conn) × (get_conn (remove_session (report_node cs n session now).0 closed later).0 n.name
        ≡ some c)
      × (c.node ≡ n)
      × (c.session ≡ session)
unfolding remove_session get_conn
remove_session-report_node cs n session closed now later other =
    let (c, connected, node, on) = report_node-get_conn cs n session now in
    let after = (report_node cs n session now).0 in
    (
      c,
      remove_from-lookup closed later after.conns after.left n.name c connected
          (ground (arith, on, other)),
      node,
      on,
    )
