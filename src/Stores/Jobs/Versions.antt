-- ===== src/Stores/Jobs/Versions.antt =====
-- internal/state/memory/jobs.go: the versions of a job, and the one that a registration leaves current.
use vagabond.Stores.Jobs.Registering.{last_of-append}
use vagabond.Base.Assoc.{lookup, lookup-insert}
use vagabond.Base.Int64.{two63, add64}
use vagabond.Stores.Jobs.{
  find_version, JobVersion, Jobs, last_of, JobKey, versions_of, register, current_version, job_key,
  RegisteredJob, get_job, get_version, next_version, is_current, next_job, job_key_eq_iff, latest,
}
use vagabond.Base.{
  List, [], ◌∷◌, ℕ, String, ◌≡◌, ◌+◌, ◌<◌, Time, length, some, ◌++◌, arith, false, Bool-cases, true,
  inl, inr, subst, length-append, sym, refl, Option-cases, ◌∙◌, eq_iff,
}

module _ (fingerprint : List ℕ → String) where
  -- Versions are numbered in order, each with the fingerprint of its source.
  abbrev pub NumberedFrom : ℕ → List JobVersion → Type 0
  NumberedFrom n [] = Unit
  NumberedFrom n (v ∷ vs) =
      (v.version ≡ n) × (v.fingerprint ≡ fingerprint v.source) × NumberedFrom (n + 1) vs

  -- A job that is there is at its last version, and one that is not has none.
  pub record Numbered (s : Jobs) (key : JobKey) : Type 0 where
    pub in_order : NumberedFrom 1 (versions_of s key)
    pub at_last : current_version (lookup job_key key s.jobs) ≡ length (versions_of s key)
    pub begun : (j : RegisteredJob) → lookup job_key key s.jobs ≡ some j → 0 < j.version

  NumberedFrom-append :
      (n : ℕ) (vs : List JobVersion) (v : JobVersion)
      → NumberedFrom n vs
      → v.version ≡ n + length vs
      → v.fingerprint ≡ fingerprint v.source
      → NumberedFrom n (vs ++ (v ∷ []))
  NumberedFrom-append n [] v h number print = (omega (arith, number), print, tt)
  NumberedFrom-append n (w ∷ vs) v h number print =
      (h.0, h.1, NumberedFrom-append (n + 1) vs v h.2 (omega (arith, number)) print)

  -- The last version is found under its number.
  find_version-last :
      (n : ℕ) (vs : List JobVersion) (number : ℕ)
      → NumberedFrom n vs
      → 0 < length vs
      → number + 1 ≡ n + length vs
      → (find_version number vs ≡ some (last_of vs))
        × ((last_of vs).version ≡ number)
        × ((last_of vs).fingerprint ≡ fingerprint (last_of vs).source)
  unfolding find_version last_of
  find_version-last n [] number h some_there e = absurd (omega (arith, some_there))
  find_version-last n (v ∷ []) number h some_there e = ground (arith, h, e)
  find_version-last n (v ∷ w ∷ vs) number h some_there e =
      let rest = find_version-last (n + 1) (w ∷ vs) number h.2 (omega arith) (omega (arith, e)) in
      let apart : v.version < number = omega (arith, h.0, e) in
      (ground (arith, rest.0, apart), rest.1, rest.2)

  module _ (s : Jobs) (key : JobKey) (source : List ℕ) (now : Time) where
    abbrev pub after : Jobs
    after = (register fingerprint s key source now).0

    abbrev added : JobVersion
    added =
        next_version fingerprint key (add64 (current_version (lookup job_key key s.jobs)) 1) source
          now

    -- What a registration of a source that is not current leaves.
    register_fresh :
        is_current fingerprint s key source ≡ false
        → (versions_of after key ≡ versions_of s key ++ (added ∷ []))
          × (lookup job_key key after.jobs ≡ some (next_job key added.version now))
          × ((register fingerprint s key source now).1 ≡ added.version)
    unfolding register versions_of
    register_fresh fresh = ground (
      arith,
      fresh,
      lookup-insert job_key key key (next_job key added.version now) s.jobs,
      lookup-insert job_key key key (versions_of s key ++ (added ∷ [])) s.versions,
      job_key_eq_iff key key,
    )

    register_same :
        is_current fingerprint s key source ≡ true
        → (after ≡ s)
          × ((register fingerprint s key source now).1
              ≡ current_version (lookup job_key key s.jobs))
    unfolding register
    register_same same = ground (arith, same)

    module _ (v : Numbered s key) (small : length (versions_of s key) < two63) where
      added-version : added.version ≡ length (versions_of s key) + 1
      added-version = omega (arith, v.at_last, small)

      -- A registration keeps the versions numbered in order.
      pub register-Numbered : Numbered after key
      register-Numbered = elim (Bool-cases (is_current fingerprint s key source)) [
        | inl same ↦ subst (λ x. Numbered x key) (sym (register_same same).0) v
        | inr fresh ↦
            let (versions, job, reported) = register_fresh fresh in
            record {
              in_order = subst (NumberedFrom 1) (sym versions) (
                  NumberedFrom-append 1 (versions_of s key) added v.in_order
                    (omega (arith, added-version)) refl);
              at_last =
                  rw (job, versions)
                    (omega
                      (arith, added-version, length-append {0} (versions_of s key) (added ∷ [])));
              begun = λ j there. ground (arith, job, there, added-version);
            }
      ]

      -- A registration leaves its job live at the version that it reports, which is there, and whose
      -- source has the fingerprint of the one registered. (Versions were numbered in order.)
      pub register-get_version :
          (j : RegisteredJob) × (get_job after key ≡ some j)
          × (j.stopped ≡ false)
          × (j.version ≡ (register fingerprint s key source now).1)
          × ((w : JobVersion) × (get_version after key j.version ≡ some w)
              × (w.version ≡ j.version)
              × (fingerprint w.source ≡ fingerprint source))
      unfolding get_job get_version latest
      register-get_version = elim (Bool-cases (is_current fingerprint s key source)) [
        | inl same ↦ elim (Option-cases (lookup job_key key s.jobs)) [
          | inl missing ↦ absurd (ground (arith, same, missing))
          | inr (j, there) ↦
              let (kept, reported) = register_same same in
              let size : j.version ≡ length (versions_of s key) =
                ground (arith, there, v.at_last) in
              let (found, number, print) =
                find_version-last 1 (versions_of s key) j.version v.in_order
                  (omega (arith, size, v.begun j there)) (omega (arith, size)) in
              (
                j,
                ground (arith, kept, there),
                ground (arith, same, there),
                ground (arith, reported, there),
                (
                  last_of (versions_of s key),
                  ground (arith, kept, found),
                  number,
                  sym print
                      ∙ ground (
                        arith,
                        same,
                        there,
                        eq_iff (latest s key).fingerprint (fingerprint source),
                      ),
                ),
              )
        ]
        | inr fresh ↦
            let (versions, job, reported) = register_fresh fresh in
            let all = versions_of s key ++ (added ∷ []) in
            let longer = length-append {0} (versions_of s key) (added ∷ []) in
            let (found, number, print) =
              find_version-last 1 all added.version
                (NumberedFrom-append 1 (versions_of s key) added v.in_order
                  (omega (arith, added-version)) refl)
                (omega (arith, longer)) (omega (arith, longer, added-version)) in
            (
              next_job key added.version now,
              job,
              refl,
              sym reported,
              (
                added,
                ground (arith, versions, found, last_of-append (versions_of s key) added),
                refl,
                refl,
              ),
            )
      ]
