-- ===== src/Jobspec/Meta/Checked.antt =====
-- internal/jobspec/meta.go: which metadata a dispatch may supply.
use vagabond.Base.Assoc.{Map, lookup}
use vagabond.Jobspec.Meta.{
  missing_keys, check_dispatch, unpermitted, Declaration, check_required_meta, declares,
}
use vagabond.Base.{
  String, ◌∷◌, List, [], ◌≡◌, All, true, none, false, ◌↔◌, ◌⊎◌, string_key, arith, refl,
  is_empty_iff, ◌≢◌,
}

-- Each key that is required is supplied with some value.
abbrev pub AllSupplied : List String → Map String String → Type 0
AllSupplied required supplied = All (λ key. lookup string_key key supplied ≢ none) required

-- Each key that is supplied is one that the job declares.
abbrev pub AllDeclared : Declaration → Map String String → Type 0
AllDeclared d supplied = All (λ entry. declares d entry.0 ≡ true) supplied

-- What a dispatch of the job may be given.
abbrev pub Dispatchable : Declaration → Map String String → Type 0
Dispatchable d supplied =
    ((d.parameterized ≡ false) × (supplied ≡ []))
    ⊎ ((d.parameterized ≡ true) × AllDeclared d supplied × AllSupplied d.required supplied)

missing_keys_iff :
    (required : List String) (supplied : Map String String)
    → (missing_keys required supplied ≡ []) ↔ AllSupplied required supplied
unfolding missing_keys
missing_keys_iff [] supplied = (λ _. tt, λ _. refl)
missing_keys_iff (key ∷ required) supplied = ground (arith, missing_keys_iff required supplied)

pub unpermitted_iff :
    (d : Declaration) (supplied : Map String String)
    → (unpermitted d supplied ≡ []) ↔ AllDeclared d supplied
unfolding unpermitted
unpermitted_iff d [] = (λ _. tt, λ _. refl)
unpermitted_iff d ((key, value) ∷ supplied) = ground (arith, unpermitted_iff d supplied)

-- A dispatch takes the metadata exactly where the job has no parameterized block and none is
-- supplied, or it has one, each key supplied is declared and each key required is supplied.
pub check_dispatch_iff :
    (d : Declaration) (supplied : Map String String)
    → (check_dispatch d supplied ≡ none) ↔ Dispatchable d supplied
unfolding check_dispatch
check_dispatch_iff d supplied =
    ground (
      arith,
      unpermitted_iff d supplied,
      missing_keys_iff d.required supplied,
      is_empty_iff supplied,
    )

-- Metadata that a parameterized job's dispatch takes is metadata that nothing required is missing
-- from when the job file is evaluated with it.
pub check_dispatch-check_required_meta :
    (d : Declaration) (supplied : Map String String)
    → d.parameterized ≡ true
    → check_dispatch d supplied ≡ none
    → check_required_meta (record { job = d.job; keys = d.required } ∷ []) supplied ≡ []
unfolding check_dispatch check_required_meta
check_dispatch-check_required_meta d supplied p h = ground (arith, p, h)
