-- ===== src/Stores/Jobs.antt =====
-- internal/state/memory/jobs.go: registered jobs and every version of each. The fingerprint of a
-- source, a hash of what the HCL library formats it as, is a parameter.
use vagabond.Base.Int64.{add64}
use vagabond.Base.{
  Time, List, Option, ◌∷◌, [], Bool, String, ℕ, ◌≡◌, none, str_eq, true, ◌↔◌, some, if◌then◌else◌,
  ◌&&◌, false, ◌==◌, arith, not, eq_iff, ◌++◌,
}
use vagabond.Base.Assoc.{Map, KeyTest, lookup, insert}
pub mod Registering
pub mod Versions

-- `jobKey`
pub record JobKey : Type 0 where
  pub namespace : String
  pub name : String

abbrev pub job_key_eq : JobKey → JobKey → Bool
job_key_eq a b = str_eq a.namespace b.namespace && str_eq a.name b.name

pub job_key_eq_iff : (a b : JobKey) → (job_key_eq a b ≡ true) ↔ (a ≡ b)
job_key_eq_iff a b = ground (arith, eq_iff a.namespace b.namespace, eq_iff a.name b.name)

abbrev pub job_key : KeyTest JobKey
job_key = record { eqb = job_key_eq; eqb_iff = job_key_eq_iff }

-- `Job` and `Version`
pub record RegisteredJob : Type 0 where
  pub namespace : String
  pub name : String
  pub version : ℕ
  pub stopped : Bool
  pub updated : Time

pub record JobVersion : Type 0 where
  pub namespace : String
  pub name : String
  pub version : ℕ
  pub source : List ℕ
  pub fingerprint : String
  pub created : Time

-- `Jobs`
pub record Jobs : Type 0 where
  pub jobs : Map JobKey RegisteredJob
  pub versions : Map JobKey (List JobVersion)

unfoldable pub versions_of : Jobs → JobKey → List JobVersion
versions_of s key = elim (lookup job_key key s.versions) [ none ↦ [] | some vs ↦ vs ]

abbrev pub no_version : JobVersion
no_version = record {
  namespace = "";
  name = "";
  version = 0;
  source = [];
  fingerprint = "";
  created = 0;
}

unfoldable pub last_of : List JobVersion → JobVersion
last_of [] = no_version
last_of (v ∷ []) = v
last_of (v ∷ w ∷ vs) = last_of (w ∷ vs)

-- `latest`
unfoldable pub latest : Jobs → JobKey → JobVersion
latest s key = last_of (versions_of s key)

abbrev pub current_version : Option RegisteredJob → ℕ
current_version current = elim current [ none ↦ 0 | some j ↦ j.version ]

-- Whether the current version is live and has the source's fingerprint.
abbrev pub is_current : (List ℕ → String) → Jobs → JobKey → List ℕ → Bool
is_current fingerprint s key source = elim (lookup job_key key s.jobs) [
  | none ↦ false
  | some j ↦ not j.stopped && str_eq (latest s key).fingerprint (fingerprint source)
]

abbrev pub next_job : JobKey → ℕ → Time → RegisteredJob
next_job key version now = record {
  namespace = key.namespace;
  name = key.name;
  version = version;
  stopped = false;
  updated = now;
}

abbrev pub next_version : (List ℕ → String) → JobKey → ℕ → List ℕ → Time → JobVersion
next_version fingerprint key version source now = record {
  namespace = key.namespace;
  name = key.name;
  version = version;
  source = source;
  fingerprint = fingerprint source;
  created = now;
}

-- `Register`: the store, the job's version afterwards, and whether it changed.
unfoldable pub register : (List ℕ → String) → Jobs → JobKey → List ℕ → Time → Jobs × ℕ × Bool
register fingerprint s key source now =
    let current = current_version (lookup job_key key s.jobs) in
    if is_current fingerprint s key source
    then (s, current, false)
    else let version = add64 current 1 in
      (
        record {
          jobs = insert job_key key (next_job key version now) s.jobs;
          versions =
              insert job_key key
                (versions_of s key ++ (next_version fingerprint key version source now ∷ []))
                s.versions;
        },
        version,
        true,
      )

-- `Stop`: none if the job is not there.
unfoldable pub stop : Jobs → JobKey → Time → Option Jobs
stop s key now = elim (lookup job_key key s.jobs) [
  | none ↦ none
  | some j ↦
      some
        (record s { jobs = insert job_key key (record j { stopped = true; updated = now }) s.jobs })
]

-- `Job`
unfoldable pub get_job : Jobs → JobKey → Option RegisteredJob
get_job s key = lookup job_key key s.jobs

-- `Version`
unfoldable pub find_version : ℕ → List JobVersion → Option JobVersion
find_version version [] = none
find_version version (v ∷ vs) =
    let later = find_version version vs in if v.version == version then some v else later

unfoldable pub get_version : Jobs → JobKey → ℕ → Option JobVersion
get_version s key version = find_version version (versions_of s key)
