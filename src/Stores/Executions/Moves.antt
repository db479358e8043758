-- ===== src/Stores/Executions/Moves.antt =====
-- internal/state/memory/executions.go and internal/dispatch/track.go: how stored executions move.
use vagabond.Execution.Status.Lifecycle.{to_lem}
use vagabond.Ledger.Memory.{id_key}
use vagabond.Base.Assoc.{lookup, lookup-insert}
use vagabond.Base.{
  ◌≡◌, true, Time, ℕ, ◌⊎◌, some, none, ap, Option-cases, Bool-cases, inl, eq_iff, arith, inr, refl,
  ◌==◌,
}
use vagabond.Execution.Status.{to}
use vagabond.Stores.Executions.{tracked_to, update, clone, Executions, Record}
use vagabond.Execution.State.{State, state_eq, transition}

pub state_eq-eq : (a b : State) → state_eq a b ≡ true → a ≡ b
state_eq-eq (State.other a) (State.other b) h = ap State.other ((eq_iff a b).0 h)
state_eq-eq a b h = ground arith

pub update_lem :
    (s : Executions) (r : Record) (from : State) (id : ℕ)
    → (lookup id_key id (update s r from).0.records ≡ lookup id_key id s.records)
      ⊎ ((old : Record) × (lookup id_key id s.records ≡ some old)
          × (state_eq old.status.state from ≡ true)
          × (lookup id_key id (update s r from).0.records
              ≡ some (record (clone r) { released = old.released })))
unfolding update
update_lem s r from id = elim (Option-cases (lookup id_key r.status.id s.records)) [
  | inl missing ↦ inl (ground (arith, missing))
  | inr (old, found) ↦ elim (Bool-cases (state_eq old.status.state from)) [
    | inr moved_on ↦ inl (ground (arith, found, moved_on))
    | inl current ↦
        let written = record (clone r) { released = old.released } in
        let reads = lookup-insert id_key r.status.id id written s.records in
        elim (Bool-cases (r.status.id == id)) [
          | inl this ↦ inr (
            old,
            ground (arith, found, this),
            current,
            ground (arith, found, current, this, reads),
          )
          | inr another ↦ inl (ground (arith, found, current, another, reads))
        ]
  ]
]

-- Whoever writes, and however old the record is that it writes from: a stored execution stays as it
-- was or moves along a legal transition, and an ID that was not recorded still is not.
pub tracked_to_lem :
    (s : Executions) (run : Record) (next : State) (now : Time) (id : ℕ)
    → let after = (tracked_to s run next now).0 in
      (lookup id_key id after.records ≡ lookup id_key id s.records)
      ⊎ ((old : Record) × (new : Record) × (lookup id_key id s.records ≡ some old)
          × (lookup id_key id after.records ≡ some new)
          × (transition old.status.state new.status.state ≡ none)
          × (new.released ≡ old.released))
unfolding tracked_to clone
tracked_to_lem s run next now id = elim (Bool-cases (state_eq run.status.state next)) [
  | inl same ↦ inl (ground (arith, same))
  | inr other ↦ elim (Option-cases (to run.status next now).1) [
    | inr (e, refused) ↦ inl (ground (arith, other, refused))
    | inl accepted ↦
        let run' : Record = record run { status = (to run.status next now).0 } in
        elim (update_lem s run' run.status.state id) [
          | inl kept ↦ inl (ground (arith, other, accepted, kept))
          | inr (old, found, current, written) ↦ inr (
            old,
            record (clone run') { released = old.released },
            found,
            ground (arith, other, accepted, written),
            ground (
              arith,
              accepted,
              to_lem run.status next now,
              state_eq-eq old.status.state run.status.state current,
            ),
            refl,
          )
        ]
  ]
]
