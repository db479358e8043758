-- ===== src/Execution/Status/Capacity.antt =====
-- internal/execution/status.go: which executions count as having consumed capacity, over any
-- sequence of changes, and how the grace period of a lost one ends.
use vagabond.Execution.Status.Lifecycle.{IsCoherent, to_lem, to-IsCoherent}
use vagabond.Execution.State.Graph.{progress, transition-progress, terminal_iff, terminal-valid}
use vagabond.Execution.State.{State, terminal}
use vagabond.Execution.Status.{to, consumed_capacity, Status, lost_expired, lost_grace_period}
use vagabond.Base.{
  Time, ◌≡◌, List, ◌<◌, none, ◌≤◌, ℕ, ◌+◌, arith, true, ◌≢◌, [], ◌∷◌, suc, some, refl, false, ◌↔◌,
}

-- The changes asked of one status, each with the time it is asked at.
unfoldable pub run : Status → List (State × Time) → Status
run s [] = s
run s ((next, now) ∷ changes) = run (to s next now).0 changes

-- How many of them are accepted.
unfoldable pub changes_made : Status → List (State × Time) → ℕ
changes_made s [] = 0
changes_made s ((next, now) ∷ changes) =
    let rest = changes_made (to s next now).0 changes in
    elim (to s next now).1 [ none ↦ suc rest | some _ ↦ rest ]

updated-le :
    (s : Status) (next : State) (now since : Time)
    → s.updated_at ≤ since
    → since ≤ now
    → (to s next now).0.updated_at ≤ now
unfolding to
updated-le s next now since h k = ground arith

started_kept :
    (s : Status) (next : State) (now : Time) → 0 < s.started_at → 0 < (to s next now).0.started_at
unfolding to
started_kept s next now h = ground arith

to-terminal :
    (s : Status) (next : State) (now : Time) → terminal s.state ≡ true → (to s next now).0 ≡ s
to-terminal s next now h =
    (to_lem s next now).1
      (rw (to_lem s next now).0 ((terminal_iff s.state (terminal-valid s.state h)).0 h next))

to-progress :
    (s : Status) (next : State) (now : Time)
    → ((to s next now).1 ≡ none → progress s.state < progress (to s next now).0.state)
      × ((to s next now).1 ≢ none → (to s next now).0 ≡ s)
unfolding to
to-progress s next now = ground (arith, transition-progress s.state next)

progress-le : (s : State) → progress s ≤ 5
progress-le State.pending = omega arith
progress-le _ = omega arith

-- However many changes are asked for, the accepted ones number at most what is left of the way to a
-- terminal state, five from a pending one: no execution moves for ever.
pub changes_made-le :
    (s : Status) (changes : List (State × Time)) → progress s.state + changes_made s changes ≤ 5
unfolding changes_made
changes_made-le s [] = omega (arith, progress-le s.state)
changes_made-le s ((next, now) ∷ changes) =
    grind (arith, to-progress s next now, changes_made-le (to s next now).0 changes)

-- A terminal status is never changed again, whatever is asked of it.
pub run-terminal :
    (s : Status) (changes : List (State × Time)) → terminal s.state ≡ true → run s changes ≡ s
unfolding run
run-terminal s [] h = refl
run-terminal s ((next, now) ∷ changes) h = rw (to-terminal s next now h) (run-terminal s changes h)

-- Asked-for times never run backwards from `since`.
abbrev pub Forward : Time → List (State × Time) → Type 0
Forward since [] = Unit
Forward since ((next, now) ∷ changes) = (since ≤ now) × Forward now changes

-- An execution stays coherent under any changes asked for in time order.
pub run-IsCoherent :
    (s : Status) (since : Time) (changes : List (State × Time))
    → s.updated_at ≤ since
    → Forward since changes
    → IsCoherent s
    → IsCoherent (run s changes)
unfolding run
run-IsCoherent s since [] l f h = h
run-IsCoherent s since ((next, now) ∷ changes) l f h =
    run-IsCoherent (to s next now).0 now changes (updated-le s next now since l f.0) f.1
      (to-IsCoherent s next now (omega arith) h)

-- Once an execution has run it is charged for ever, however it ends.
pub run-consumed_capacity :
    (s : Status) (changes : List (State × Time))
    → 0 < s.started_at
    → consumed_capacity (run s changes) ≡ true
unfolding run consumed_capacity
run-consumed_capacity s [] h = ground arith
run-consumed_capacity s ((next, now) ∷ changes) h =
    run-consumed_capacity (to s next now).0 changes (started_kept s next now h)

-- A status has waited out the grace period exactly when it is lost and was last changed 24 hours or
-- more ago.
pub lost_expired_iff :
    (s : Status) (now : Time)
    → (lost_expired s now ≡ true)
      ↔ ((s.state ≡ State.lost) × (s.updated_at + lost_grace_period ≤ now))
unfolding lost_expired
lost_expired_iff s now = ground arith

-- A function that finishes inside its submission is never charged: an unstarted execution moves
-- from submitted to a terminal state without a start, whatever the outcome, and so does a lost one
-- that is closed.
pub unstarted_closes_uncharged :
    (s : Status) (next : State) (now : Time)
    → s.started_at ≡ 0
    → terminal next ≡ true
    → (to s next now).1 ≡ none
    → consumed_capacity (to s next now).0 ≡ false
unfolding to consumed_capacity terminal
unstarted_closes_uncharged s next now h t e = ground arith
