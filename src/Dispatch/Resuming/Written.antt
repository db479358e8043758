-- ===== src/Dispatch/Resuming/Written.antt =====
-- internal/dispatch/track.go: a write of an execution's record to the store that nobody else writes.

use vagabond.Ledger.Memory.{id_key}
use vagabond.Base.Assoc.{lookup, lookup-insert}
use vagabond.Base.{
  ℕ, Time, ◌≡◌, ◌==◌, Bool-cases, ◌∙◌, true, arith, inl, sym, eq_iff, false, some, inr, ==_iff,
  refl, Option-cases,
}
use vagabond.Execution.State.{State, state_eq}
use vagabond.Stores.Executions.{Executions, Record, update, mark_released, tracked_to, clone}
use vagabond.Execution.Status.{Status, to}

state_eq_refl : (s : State) → state_eq s s ≡ true
state_eq_refl State.pending = refl
state_eq_refl State.submitted = refl
state_eq_refl State.accepted = refl
state_eq_refl State.running = refl
state_eq_refl State.succeeded = refl
state_eq_refl State.failed = refl
state_eq_refl State.cancelled = refl
state_eq_refl State.lost = refl
state_eq_refl (State.other a) = (eq_iff a a).1 refl

-- A record is stored, in the state that it says.
abbrev pub StoredAs : Executions → Record → Type 0
StoredAs store r =
    (x : Record) × (lookup id_key r.status.id store.records ≡ some x)
    × (x.status.state ≡ r.status.state)

-- The store of an attempt at the execution of an ID: its record is stored, and no other was written.
pub record At (s0 : Executions) (id : ℕ) (store : Executions) (rec : Record) : Type 0 where
  pub same : rec.status.id ≡ id
  pub stored : StoredAs store rec
  pub others :
      (j : ℕ) → (j == id) ≡ false → lookup id_key j store.records ≡ lookup id_key j s0.records

to-id : (s : Status) (next : State) (now : Time) → (to s next now).0.id ≡ s.id
unfolding to
to-id s next now = ground arith

module _ (s0 : Executions) (id : ℕ) where
  pub update-At :
      (store : Executions) (rec rec' : Record)
      → rec'.status.id ≡ rec.status.id
      → At s0 id store rec
      → At s0 id (update store rec' rec.status.state).0 rec'
  unfolding update clone
  update-At store rec rec' kept h =
      let (x, found, current) = h.stored in
      let written : Record = record (clone rec') { released = x.released } in
      let there : lookup id_key rec'.status.id store.records ≡ some x =
        ground (arith, kept, found) in
      let now : state_eq x.status.state rec.status.state ≡ true =
        rw current (state_eq_refl rec.status.state) in
      record {
        same = kept ∙ h.same;
        stored = (
          written,
          ground (
            arith,
            there,
            now,
            lookup-insert id_key rec'.status.id rec'.status.id written store.records,
            ==_iff rec'.status.id rec'.status.id,
          ),
          refl,
        );
        others = λ j apart. ground (
          arith,
          there,
          now,
          apart,
          h.same,
          kept,
          h.others j apart,
          lookup-insert id_key rec'.status.id j written store.records,
          ==_iff rec'.status.id j,
          ==_iff j id,
        );
      }

  pub tracked_to-At :
      (store : Executions) (rec : Record) (next : State) (now : Time)
      → At s0 id store rec
      → At s0 id (tracked_to store rec next now).0 (tracked_to store rec next now).1
  unfolding tracked_to
  tracked_to-At store rec next now h = elim (Bool-cases (state_eq rec.status.state next)) [
    | inl same ↦ rw same h
    | inr other ↦ elim (Option-cases (to rec.status next now).1) [
      | inr (x, refused) ↦ rw (other, refused) h
      | inl legal ↦
          rw (other, legal)
            (update-At store rec (record rec { status = (to rec.status next now).0 })
              (to-id rec.status next now) h)
    ]
  ]

  pub mark_released-At :
      (store : Executions) (rec : Record) (at : Time)
      → At s0 id store rec
      → At s0 id (mark_released store rec.status.id at).0 rec
  unfolding mark_released
  mark_released-At store rec at h =
      let (x, found, current) = h.stored in
      let written : Record = record x { released = at } in
      record {
        same = h.same;
        stored = (
          written,
          ground (
            arith,
            found,
            lookup-insert id_key rec.status.id rec.status.id written store.records,
            ==_iff rec.status.id rec.status.id,
          ),
          current,
        );
        others = λ j apart. ground (
          arith,
          found,
          apart,
          h.same,
          h.others j apart,
          lookup-insert id_key rec.status.id j written store.records,
          ==_iff rec.status.id j,
          ==_iff j id,
        );
      }

  -- What the record says besides its status is not asked.
  pub renamed-At :
      (store : Executions) (rec rec' : Record)
      → rec'.status.id ≡ rec.status.id
      → rec'.status.state ≡ rec.status.state
      → At s0 id store rec
      → At s0 id store rec'
  renamed-At store rec rec' named state h =
      let (x, found, current) = h.stored in
      record {
        same = named ∙ h.same;
        stored = (x, ground (arith, named, found), current ∙ sym state);
        others = h.others;
      }
