-- ===== src/Jobspec/Meta/Referenced.antt =====
-- internal/jobspec/meta.go: the metadata that a job is read with when it is registered.
use vagabond.Base.Assoc.{Map, lookup, insert, lookup-insert}
use vagabond.Jobspec.Meta.{references_of, references, declares, Declaration, reference}
use vagabond.Base.{
  List, [], ◌∷◌, String, contains, str_eq, string_key, ◌≡◌, ◌++◌, ◌||◌, if◌then◌else◌, arith, some,
  refl, none, eq_iff,
}

references_of-lookup :
    (j : String) (keys : List String) (refs : Map String String)
    → lookup string_key j (references_of keys refs)
      ≡ (if contains str_eq keys j then some (reference j) else lookup string_key j refs)
unfolding references_of
references_of-lookup j [] refs = refl
references_of-lookup j (key ∷ keys) refs = ground (
  arith,
  references_of-lookup j keys (insert string_key key (reference key) refs),
  lookup-insert string_key key j (reference key) refs,
  eq_iff key j,
)

contains-append :
    (xs ys : List String) (j : String)
    → contains str_eq (xs ++ ys) j ≡ contains str_eq xs j || contains str_eq ys j
contains-append [] ys j = refl
contains-append (x ∷ xs) ys j = ground (arith, contains-append xs ys j)

-- The references of a declaration give each key that it declares that key's own reference, and no
-- other key anything.
pub references-lookup :
    (d : Declaration) (key : String)
    → lookup string_key key (references d) ≡ (if declares d key then some (reference key) else none)
unfolding references declares lookup
references-lookup d key = ground (
  arith,
  references_of-lookup key (d.required ++ d.optional) [],
  contains-append d.required d.optional key,
)
