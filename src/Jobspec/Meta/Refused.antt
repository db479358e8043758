-- ===== src/Jobspec/Meta/Refused.antt =====
-- internal/jobspec/meta.go: what a refusal of a dispatch names.
use vagabond.Jobspec.Meta.Checked.{AllDeclared, unpermitted_iff}
use vagabond.Base.Assoc.{Map, lookup}
use vagabond.Jobspec.Meta.{
  unpermitted, missing_keys, Declaration, check_dispatch, DispatchRefusal, declares,
}
use vagabond.Base.{
  sort, ◌∷◌, [], List, place, String, string_le, All, ◌≢◌, ◌≡◌, string_key, arith, some, false,
  Sorted, sort-Sorted, none, string_le_total, string_le_trans, All-sort, subst, sym, refl,
}

unpermitted-All :
    (d : Declaration) (supplied : Map String String)
    → All (λ key. declares d key ≡ false) (unpermitted d supplied)
unfolding unpermitted
unpermitted-All d [] = tt
unpermitted-All d ((key, value) ∷ supplied) = ground (arith, unpermitted-All d supplied)

missing_keys-All :
    (required : List String) (supplied : Map String String)
    → All (λ key. lookup string_key key supplied ≡ none) (missing_keys required supplied)
unfolding missing_keys
missing_keys-All [] supplied = tt
missing_keys-All (key ∷ required) supplied = ground (arith, missing_keys-All required supplied)

place_some : (key : String) (keys : List String) → place string_le key keys ≢ []
unfolding place
place_some key [] h = ground (arith, h)
place_some key (k ∷ keys) h = ground (arith, h)

sort-nil : (keys : List String) → sort string_le keys ≡ [] → keys ≡ []
unfolding sort
sort-nil [] h = refl
sort-nil (key ∷ keys) h = absurd (place_some key (sort string_le keys) h)

undeclared_keys :
    (d : Declaration) (supplied : Map String String) (keys : List String)
    → check_dispatch d supplied ≡ some (DispatchRefusal.undeclared keys)
    → (keys ≡ sort string_le (unpermitted d supplied)) × (keys ≢ [])
unfolding check_dispatch
undeclared_keys d supplied keys h = ground (arith, h, sort-nil (unpermitted d supplied))

unsupplied_keys :
    (d : Declaration) (supplied : Map String String) (keys : List String)
    → check_dispatch d supplied ≡ some (DispatchRefusal.unsupplied keys)
    → (keys ≡ missing_keys d.required supplied) × (keys ≢ []) × (unpermitted d supplied ≡ [])
unfolding check_dispatch
unsupplied_keys d supplied keys h = ground (arith, h)

-- A dispatch that is refused for undeclared keys is told them in order, each one undeclared and at
-- least one.
pub check_dispatch-undeclared :
    (d : Declaration) (supplied : Map String String) (keys : List String)
    → check_dispatch d supplied ≡ some (DispatchRefusal.undeclared keys)
    → (keys ≢ []) × Sorted string_le keys × All (λ key. declares d key ≡ false) keys
check_dispatch-undeclared d supplied keys h =
    let (same, some_key) = undeclared_keys d supplied keys h in
    (
      some_key,
      subst (Sorted string_le) (sym same)
          (sort-Sorted string_le string_le_total string_le_trans (unpermitted d supplied)),
      subst (All (λ key. declares d key ≡ false)) (sym same) (
          All-sort string_le (λ key. declares d key ≡ false) (unpermitted d supplied)
            (unpermitted-All d supplied)),
    )

-- A dispatch that is refused for unsupplied keys declares each key that it supplies, and what it is
-- told is the keys, at least one, that it does not supply.
pub check_dispatch-unsupplied :
    (d : Declaration) (supplied : Map String String) (keys : List String)
    → check_dispatch d supplied ≡ some (DispatchRefusal.unsupplied keys)
    → (keys ≢ []) × All (λ key. lookup string_key key supplied ≡ none) keys × AllDeclared d supplied
check_dispatch-unsupplied d supplied keys h =
    let (same, some_key, permitted) = unsupplied_keys d supplied keys h in
    (
      some_key,
      subst (All (λ key. lookup string_key key supplied ≡ none)) (sym same)
          (missing_keys-All d.required supplied),
      (unpermitted_iff d supplied).0 permitted,
    )
