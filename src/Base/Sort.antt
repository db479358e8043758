-- ===== src/Base/Sort.antt =====
-- slices.SortFunc and slices.SortStableFunc over a Boolean test, as insertion sort.
use mathlib.Core.Path.{◌≡◌, refl}
use mathlib.Core.Logic.{◌⊎◌, inl, inr}
use mathlib.Core.Bool.{Bool, true}
use mathlib.Core.List.{List, [], ◌∷◌, ◌++◌, Perm}
use mathlib.Core.List.Perm as Permutation
use native.Mathlib.Omega.{arith}
use vagabond.Base.Lists.{All, All-map}
use vagabond.Base.Tests.{if◌then◌else◌, Bool-cases}

-- The entries that pass a test, in order.
abbrev pub keep {ℓ} : {A : Type ℓ} → (A → Bool) → List A → List A
keep p [] = []
keep p (x ∷ xs) = let rest = keep p xs in if p x then x ∷ rest else rest

module _ {ℓ} {A : Type ℓ} (le : A → A → Bool) where
  unfoldable pub place : A → List A → List A
  place x [] = x ∷ []
  place x (y ∷ ys) = let rest = place x ys in if le x y then x ∷ y ∷ ys else y ∷ rest

  unfoldable pub sort : List A → List A
  sort [] = []
  sort (x ∷ xs) = place x (sort xs)

  -- Each entry comes before all that follow it.
  abbrev pub Sorted : List A → Type ℓ
  Sorted [] = Unit
  Sorted (x ∷ xs) = All (λ y. le x y ≡ true) xs × Sorted xs

  place_perm : (x : A) (ys : List A) → Perm (x ∷ ys) (place x ys)
  unfolding place
  place_perm x [] = Permutation.rfl
  place_perm x (y ∷ ys) = elim (Bool-cases (le x y)) [
    | inl less ↦ rw less Permutation.rfl
    | inr more ↦
        rw more (Permutation.trans (Permutation.swap y x ys) (Permutation.cons y (place_perm x ys)))
  ]

  pub sort_perm : (xs : List A) → Perm xs (sort xs)
  unfolding sort
  sort_perm [] = Permutation.rfl
  sort_perm (x ∷ xs) =
      Permutation.trans (Permutation.cons x (sort_perm xs)) (place_perm x (sort xs))

  module _ {κ} (P : A → Type κ) where
    All-place : (x : A) (ys : List A) → P x → All P ys → All P (place x ys)
    unfolding place
    All-place x [] p h = (p, tt)
    All-place x (y ∷ ys) p h = elim (Bool-cases (le x y)) [
      | inl less ↦ rw less (p, h)
      | inr more ↦ rw more (h.0, All-place x ys p h.1)
    ]

    pub All-sort : (xs : List A) → All P xs → All P (sort xs)
    unfolding sort
    All-sort [] h = tt
    All-sort (x ∷ xs) h = All-place x (sort xs) h.0 (All-sort xs h.1)

  -- Entries that tie with one another are kept in order.
  module _ (p : A → Bool) (tie : (a b : A) → p a ≡ true → p b ≡ true → le a b ≡ true) where
    keep-place : (x : A) (ys : List A) → keep p (place x ys) ≡ keep p (x ∷ ys)
    unfolding place
    keep-place x [] = refl
    keep-place x (y ∷ ys) = ground (arith, tie x y, keep-place x ys)

    pub keep-sort : (xs : List A) → keep p (sort xs) ≡ keep p xs
    unfolding sort
    keep-sort [] = refl
    keep-sort (x ∷ xs) = ground (arith, keep-place x (sort xs), keep-sort xs)

  module _ (total : (a b : A) → (le a b ≡ true) ⊎ (le b a ≡ true))
      (transitive : (a b c : A) → le a b ≡ true → le b c ≡ true → le a c ≡ true) where
    place-Sorted : (x : A) (ys : List A) → Sorted ys → Sorted (place x ys)
    unfolding place
    place-Sorted x [] s = (tt, tt)
    place-Sorted x (y ∷ ys) s = elim (Bool-cases (le x y)) [
      | inl less ↦ rw less (
        (
          less,
          All-map (λ z. le y z ≡ true) (λ z. le x z ≡ true) ys (λ z h. transitive x y z less h) s.0,
        ),
        s,
      )
      | inr more ↦ rw more (
        All-place (λ z. le y z ≡ true) x ys (ground (arith, total x y)) s.0,
        place-Sorted x ys s.1,
      )
    ]

    pub sort-Sorted : (xs : List A) → Sorted (sort xs)
    unfolding sort
    sort-Sorted [] = tt
    sort-Sorted (x ∷ xs) = place-Sorted x (sort xs) (sort-Sorted xs)

pub Sorted-map {ℓ} :
    {A : Type ℓ} (le le' : A → A → Bool)
    → ((a b : A) → le a b ≡ true → le' a b ≡ true)
    → (xs : List A) → Sorted le xs
    → Sorted le' xs
Sorted-map le le' f [] s = tt
Sorted-map le le' f (x ∷ xs) s =
    (All-map (λ y. le x y ≡ true) (λ y. le' x y ≡ true) xs (f x) s.0, Sorted-map le le' f xs s.1)

pub Perm-middle {ℓ} : {A : Type ℓ} (a : A) (xs ys : List A) → Perm (a ∷ xs ++ ys) (xs ++ a ∷ ys)
Perm-middle a [] ys = Permutation.rfl
Perm-middle a (x ∷ xs) ys =
    Permutation.trans (Permutation.swap x a (xs ++ ys)) (Permutation.cons x (Perm-middle a xs ys))
