-- ===== src/Stores/Jobs/Registering.antt =====
-- internal/state/memory/jobs.go: when registering makes a new version.
use vagabond.Base.Assoc.{lookup, lookup-insert}
use vagabond.Base.Int64.{add64}
use vagabond.Base.{
  [], ◌∷◌, List, ℕ, ◌++◌, ◌≡◌, String, refl, Time, false, Bool-cases, inl, arith, inr, eq_iff,
}
use vagabond.Stores.Jobs.{
  last_of, register, latest, JobVersion, versions_of, Jobs, JobKey, current_version, job_key,
  next_job, next_version, is_current, job_key_eq_iff,
}

pub last_of-append : (vs : List JobVersion) (v : JobVersion) → last_of (vs ++ (v ∷ [])) ≡ v
unfolding last_of
last_of-append [] v = refl
last_of-append (w ∷ []) v = refl
last_of-append (w ∷ x ∷ vs) v = last_of-append (x ∷ vs) v

-- Registering a source leaves its job running it as the latest version: registering it again, at any
-- later time, reports the same version and changes nothing.
pub register_twice :
    (fingerprint : List ℕ → String) (s : Jobs) (key : JobKey) (source : List ℕ) (now later : Time)
    → let (after, version, changed) = register fingerprint s key source now in
      register fingerprint after key source later ≡ (after, version, false)
unfolding register latest versions_of
register_twice fingerprint s key source now later =
    let version = add64 (current_version (lookup job_key key s.jobs)) 1 in
    let job = next_job key version now in
    let added = next_version fingerprint key version source now in
    let all = versions_of s key ++ (added ∷ []) in
    elim (Bool-cases (is_current fingerprint s key source)) [
      | inl current ↦ ground (arith, current)
      | inr fresh ↦ ground (
        arith,
        fresh,
        lookup-insert job_key key key job s.jobs,
        lookup-insert job_key key key all s.versions,
        last_of-append (versions_of s key) added,
        eq_iff (fingerprint source) (fingerprint source),
        job_key_eq_iff key key,
      )
    ]
