-- ===== src/Jobspec/Meta/Tests.antt =====
-- The theorems on metadata at a job that requires a version and may be given a region.

use vagabond.Jobspec.Meta.Checked.{Dispatchable, check_dispatch_iff}
use vagabond.Base.Assoc.{Map, lookup}
use vagabond.Jobspec.Meta.{
  check_dispatch, Declaration, unpermitted, missing_keys, declares, DispatchRefusal,
}
use vagabond.Base.{◌∷◌, [], true, String, ◌≡◌, none, ◌↔◌, sort, refl, some, place}

abbrev deploy : Declaration
deploy = record {
  job = "deploy";
  parameterized = true;
  required = "version" ∷ [];
  optional = "region" ∷ [];
}

abbrev supplied : Map String String
supplied = ("version", "1.2") ∷ []

deploy_taken : check_dispatch deploy supplied ≡ none
unfolding check_dispatch unpermitted missing_keys declares lookup
deploy_taken = refl

-- The keys that are refused are named in order.
misspelt :
    check_dispatch deploy (("versoin", "1.2") ∷ ("zone", "b") ∷ ("tag", "x") ∷ [])
    ≡ some (DispatchRefusal.undeclared ("tag" ∷ "versoin" ∷ "zone" ∷ []))
unfolding check_dispatch unpermitted missing_keys declares lookup sort place
misspelt = refl

check_dispatch_iff_example : (check_dispatch deploy supplied ≡ none) ↔ Dispatchable deploy supplied
check_dispatch_iff_example = check_dispatch_iff deploy supplied
