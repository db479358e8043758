-- ===== src/Jobspec/Meta.antt =====
-- internal/jobspec/meta.go: the metadata that a job declares, and the checks of what a submission
-- supplies. Reading a declaration out of HCL is a third-party library's part. A diagnostic is kept
-- as the job and the keys it names.
pub mod Checked
pub mod Refused
mod Tests
pub mod Referenced
use Prim.Native.String.{◌++◌ as concat}
use vagabond.Base.Assoc.{Map, insert, lookup}
use vagabond.Base.{
  ◌∷◌, List, String, [], Bool, Option, if◌then◌else◌, ◌+◌, ◌++◌, not, string_key, contains,
  is_empty, none, str_eq, some, ◌||◌, false, sort, true, string_le,
}

pub record Requirement : Type 0 where
  pub job : String
  pub keys : List String

pub record Declaration : Type 0 where
  pub job : String
  pub parameterized : Bool
  pub required : List String
  pub optional : List String

-- The errors of `CheckDispatch`.
pub data DispatchRefusal : Type 0 where
  not_parameterized : DispatchRefusal
  undeclared unsupplied : List String → DispatchRefusal

abbrev pub meta_namespace : String
meta_namespace = "meta"

-- What the references of `References` are written as.
abbrev pub reference : String → String
reference key = concat "${" (concat meta_namespace (concat "." (concat key "}")))

-- A key of either list, as `CheckDispatch` looks for it.
unfoldable pub declares : Declaration → String → Bool
declares d key = contains str_eq d.required key || contains str_eq d.optional key

abbrev pub supplies : Map String String → String → Bool
supplies supplied key = elim (lookup string_key key supplied) [ none ↦ false | some _ ↦ true ]

unfoldable pub missing_keys : List String → Map String String → List String
missing_keys [] supplied = []
missing_keys (key ∷ required) supplied =
    let rest = missing_keys required supplied in if supplies supplied key then rest else key ∷ rest

-- The loop of `References`.
unfoldable pub references_of : List String → Map String String → Map String String
references_of [] refs = refs
references_of (key ∷ keys) refs = references_of keys (insert string_key key (reference key) refs)

unfoldable pub references : Declaration → Map String String
references d = references_of (d.required ++ d.optional) []

-- The loop of `CheckDispatch`.
unfoldable pub unpermitted : Declaration → Map String String → List String
unpermitted d [] = []
unpermitted d ((key, _) ∷ supplied) =
    let rest = unpermitted d supplied in if declares d key then rest else key ∷ rest

unfoldable pub check_dispatch : Declaration → Map String String → Option DispatchRefusal
check_dispatch d supplied =
    if not d.parameterized
    then (if is_empty supplied then none else some DispatchRefusal.not_parameterized)
    else elim (unpermitted d supplied) [
      | key ∷ keys ↦ some (DispatchRefusal.undeclared (sort string_le (key ∷ keys)))
      | [] ↦ elim (missing_keys d.required supplied) [
        | [] ↦ none
        | key ∷ keys ↦ some (DispatchRefusal.unsupplied (key ∷ keys))
      ]
    ]

-- `CheckRequiredMeta`: what it reports is a job and the keys that are missing.
unfoldable pub check_required_meta :
    List Requirement → Map String String → List (String × List String)
check_required_meta [] supplied = []
check_required_meta (req ∷ required) supplied =
    let rest = check_required_meta required supplied in
    elim (missing_keys req.keys supplied) [ [] ↦ rest | key ∷ keys ↦ (req.job, key ∷ keys) ∷ rest ]
