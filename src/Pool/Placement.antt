-- ===== src/Pool/Placement.antt =====
-- internal/providers/pool/pool.go: which node a task is placed on.
use mathlib.Core.Bool.{false≢true}
use vagabond.Base.Assoc.{lookup, lookup-insert}
use vagabond.Base.Int64.{slt, sle}
use vagabond.Pool.Nodes.{Node}
use vagabond.Plugin.Capabilities.{Size}
use vagabond.Pool.{NodePool, best_from, free_room, suits, reserve_room, minus_one, Room}
use vagabond.Base.{
  ◌∷◌, [], Time, List, String, ℕ, All, ◌≡◌, ◌⊎◌, true, false, arith, inl, refl, Bool-cases, ap,
  subst, if◌then◌else◌, ◌++◌, ◌&&◌, some, inr, ◌∙◌, string_key, eq_iff, str_eq, sym,
}

module _ (p : NodePool) (now : Time) (r : Size) (members tried : List String) where
  abbrev pub room : Node → ℕ
  room n = (free_room p now n).memory

  abbrev pub Suits : Node → Type 0
  Suits n = suits p now r members tried n ≡ true

  -- One of the nodes, which suits, with its memory.
  abbrev pub Chosen : List Node → String × ℕ → Type 0
  Chosen ns best =
      (n : Node) × (before : List Node) × (after : List Node) × (ns ≡ before ++ n ∷ after)
      × Suits n
      × (best ≡ (n.name, room n))

  abbrev pub NoneBetter : List Node → ℕ → Type 0
  NoneBetter ns memory = All (λ m. Suits m → sle (room m) memory ≡ true) ns

  sle-slt : (a b : ℕ) → slt a b ≡ false → sle b a ≡ true
  sle-slt a b h = ground (arith, h)

  sle_trans : (a b c : ℕ) → sle a b ≡ true → sle b c ≡ true → sle a c ≡ true
  sle_trans a b c h k = ground (arith, h, k)

  slt-sle : (a b : ℕ) → slt a b ≡ true → sle a b ≡ true
  slt-sle a b h = ground (arith, h)

  abbrev next : Node → String × ℕ → String × ℕ
  next n best =
      if suits p now r members tried n && slt best.1 (room n) then (n.name, room n) else best

  next-cases :
      (n : Node) (best : String × ℕ)
      → ((next n best ≡ (n.name, room n)) × Suits n × (sle best.1 (room n) ≡ true))
        ⊎ ((next n best ≡ best) × (Suits n → sle (room n) best.1 ≡ true))
  next-cases n best = elim (Bool-cases (suits p now r members tried n)) [
    | inr unfit ↦ inr (rw unfit refl, λ s. ground (arith, s, unfit))
    | inl fit ↦ elim (Bool-cases (slt best.1 (room n))) [
      | inl more ↦ inl (rw (fit, more) refl, fit, slt-sle best.1 (room n) more)
      | inr less ↦ inr (rw (fit, less) refl, λ s. sle-slt best.1 (room n) less)
    ]
  ]

  abbrev Found : List Node → String × ℕ → String × ℕ → Type 0
  Found ns best found =
      ((found ≡ best) ⊎ Chosen ns found) × (sle best.1 found.1 ≡ true) × NoneBetter ns found.1

  Chosen-later :
      (n : Node) (ns : List Node) (found : String × ℕ) → Chosen ns found → Chosen (n ∷ ns) found
  Chosen-later n ns found (m, before, after, split, fit, is) =
      (m, n ∷ before, after, ap (λ l. n ∷ l) split, fit, is)

  best_from-Found :
      (ns : List Node) (best : String × ℕ) → Found ns best (best_from p now r members tried ns best)
  unfolding best_from
  best_from-Found [] best = (inl refl, ground arith, tt)
  best_from-Found (n ∷ ns) best =
      let found = best_from p now r members tried ns (next n best) in
      let (from, above, none_better) = best_from-Found ns (next n best) in
      elim (next-cases n best) [
        | inl (is, fit, more) ↦
            let above_here : sle (room n) found.1 ≡ true =
              subst (λ (b : String × ℕ). sle b.1 found.1 ≡ true) is above in
            (
              elim from [
                | inl same ↦ inr (n, [], ns, refl, fit, same ∙ is)
                | inr later ↦ inr (Chosen-later n ns found later)
              ],
              sle_trans best.1 (room n) found.1 more above_here,
              (λ s. above_here, none_better),
            )
        | inr (is, less) ↦
            let above_here : sle best.1 found.1 ≡ true =
              subst (λ (b : String × ℕ). sle b.1 found.1 ≡ true) is above in
            (
              elim from [
                | inl same ↦ inl (same ∙ is)
                | inr later ↦ inr (Chosen-later n ns found later)
              ],
              above_here,
              (λ s. sle_trans (room n) best.1 found.1 (less s) above_here, none_better),
            )
      ]

  reserve_room-some :
      (id : String) (ns : List Node) (node : String)
      → (reserve_room p now id r members tried ns).1 ≡ some node
      → let best = (best_from p now r members tried ns ("", minus_one)).0 in
        (str_eq best "" ≡ false)
        × (best ≡ node)
        × (lookup string_key id (reserve_room p now id r members tried ns).0.reserved
            ≡ some (record { node = node; cpu = r.cpu; memory = r.memory; at = now }))
  unfolding reserve_room
  reserve_room-some id ns node h =
      let best = (best_from p now r members tried ns ("", minus_one)).0 in
      let held : Room = record { node = best; cpu = r.cpu; memory = r.memory; at = now } in
      elim (Bool-cases (str_eq best "")) [
        | inl empty ↦ absurd (false≢true (ground (arith, h, empty)))
        | inr named ↦ (
          named,
          ground (arith, h, named),
          ground (arith, h, named, eq_iff id id, lookup-insert string_key id id held p.reserved),
        )
      ]

  -- A node that is chosen is one of those offered and suits the task, no other that suits has more
  -- memory left, and room is held on it for the task.
  pub reserve_room_lem :
      (id : String) (ns : List Node) (node : String)
      → (reserve_room p now id r members tried ns).1 ≡ some node
      → (n : Node) × (before : List Node) × (after : List Node) × (ns ≡ before ++ n ∷ after)
        × (n.name ≡ node)
        × Suits n
        × NoneBetter ns (room n)
        × (lookup string_key id (reserve_room p now id r members tried ns).0.reserved
            ≡ some (record { node = node; cpu = r.cpu; memory = r.memory; at = now }))
  unfolding reserve_room
  reserve_room_lem id ns node h =
      let (from, above, none_better) = best_from-Found ns ("", minus_one) in
      let (named, is_node, held) = reserve_room-some id ns node h in
      elim from [
        | inl same ↦
            let empty = subst (λ (b : String × ℕ). str_eq b.0 "" ≡ false) same named in
            absurd (false≢true (sym empty ∙ (eq_iff "" "").1 refl))
        | inr (n, before, after, split, fit, is) ↦ (
          n,
          before,
          after,
          split,
          sym (ap (λ (b : String × ℕ). b.0) is) ∙ is_node,
          fit,
          subst (λ (b : String × ℕ). NoneBetter ns b.1) is none_better,
          held,
        )
      ]
