-- ===== src/Server/Launching.antt =====
-- internal/server/dispatch.go, plan.go and jobs.go: what is sure of a job that a handler goes on with.
use vagabond.Jobspec.Meta.Checked.{Dispatchable, check_dispatch_iff}
use vagabond.Jobspec.Meta.{Declaration, check_dispatch}
use vagabond.Stores.Jobs.{Jobs, RegisteredJob, get_job, JobVersion, get_version, JobKey}
use vagabond.Base.{
  inr, inl, none, Option, ◌∙◌, Bool, ap, Result-cases, refl, Option-cases, true, some, false,
  Bool-cases, ◌∷◌, [], List, ℕ, String, Result, ◌≡◌, ◌⊎◌, arith,
}
use vagabond.Jobspec.Sound.{SoundJob, validate-SoundJob}
use vagabond.Jobspec.{Config, Problem, validate}
use vagabond.Job.{Job, Task}
use vagabond.Base.Assoc.{Map}
use vagabond.Server.{
  JobFiles, load, LoadError, for_dispatch, dispatch_job, Launch, current_job, namespace_for,
  declared_only, HandlerFault, registered_job,
}
use vagabond.Job.Std.{Std}

module _ {D : Type 0} (std : Std) (files : JobFiles D) where
  -- A job that was read from a source and in which nothing is wrong.
  abbrev pub ReadSoundly : List ℕ → Map String String → Job → Type 0
  ReadSoundly source meta j =
      ((config : Task → Config) × (files.parse source meta ≡ Result.ok (j ∷ [], config)))
      × SoundJob std j

  -- What loads is one job.
  abbrev Loads : List ℕ → Map String String → Result (LoadError D) (List Job) → Type 0
  Loads source meta out =
      ((x : LoadError D) × (out ≡ Result.err x))
      ⊎ ((j : Job) × (out ≡ Result.ok (j ∷ [])) × ReadSoundly source meta j)

  load-Loads :
      (source : List ℕ) (meta : Map String String) → Loads source meta (load std files source meta)
  unfolding load
  load-Loads source meta = elim (Result-cases (files.parse source meta)) [
    | inr (d, failed) ↦ inl (LoadError.unreadable d, ground (arith, failed))
    | inl ((parsed, config), read) ↦ judged parsed config read (validate std config parsed) refl
  ]
    where
      judged :
          (parsed : List Job) (config : Task → Config)
          → files.parse source meta ≡ Result.ok (parsed, config)
          → (problems : List Problem) → validate std config parsed ≡ problems
          → Loads source meta (load std files source meta)
      judged parsed config read (p ∷ ps) found =
          inl (LoadError.wrong (p ∷ ps), ground (arith, read, found))
      judged parsed config read [] found =
          let (j, one, sound) = validate-SoundJob std config parsed found in
          inr (
            j,
            ground (arith, read, found, one),
            ((config, read ∙ ap (λ js. Result.ok (js, config)) one), sound),
          )

  for_dispatch-Loads :
      (source : List ℕ) (meta : Map String String)
      → ((x : LoadError D) × (for_dispatch std files source meta ≡ Result.err x))
        ⊎ ((decl : Declaration) × (files.declared source ≡ Result.ok decl)
            × Dispatchable decl meta
            × ((j : Job) × (for_dispatch std files source meta ≡ Result.ok (j ∷ []))
                × ReadSoundly source meta j))
  unfolding for_dispatch
  for_dispatch-Loads source meta = elim (Result-cases (files.declared source)) [
    | inr (d, failed) ↦ inl (LoadError.unreadable d, ground (arith, failed))
    | inl (decl, read) ↦ elim (Option-cases (check_dispatch decl meta)) [
      | inr (refusal, refused) ↦ inl (LoadError.refused refusal, ground (arith, read, refused))
      | inl fine ↦ elim (load-Loads source meta) [
        | inl (x, failed) ↦ inl (x, ground (arith, read, fine, failed))
        | inr (j, loaded, sound) ↦ inr (
          decl,
          read,
          (check_dispatch_iff decl meta).0 fine,
          (j, ground (arith, read, fine, loaded), sound),
        )
      ]
    ]
  ]

  module _ (store : Jobs) (has : String → Bool) (requested : String) where
    -- What a handler answers for a registered job: a fault, or the job's current version, in a
    -- namespace that is declared, with the metadata that a dispatch of it may be given.
    pub record IsCurrent (name : String) (meta : Map String String) (l : Launch) : Type 0 where
      pub declared : has l.namespace ≡ true
      pub registered : RegisteredJob
      pub found : get_job store (record { namespace = l.namespace; name = name }) ≡ some registered
      pub live : registered.stopped ≡ false
      pub current : JobVersion
      pub stored :
          get_version store (record { namespace = l.namespace; name = name }) registered.version
          ≡ some current
      pub versioned : l.version ≡ current.version
      pub declaration : Declaration
      pub declaring : files.declared current.source ≡ Result.ok declaration
      pub dispatchable : Dispatchable declaration meta
      pub read_soundly : ReadSoundly current.source meta l.job

    namespace_for-has :
        (own : Option String) (n : String)
        → namespace_for requested own has ≡ Result.ok n
        → has n ≡ true
    unfolding namespace_for declared_only
    namespace_for-has own n h = ground (arith, h)

    current_job-cases :
        (namespace name : String)
        → ((x : HandlerFault D) × (current_job std files store has requested namespace name
              ≡ Result.err x))
          ⊎ ((j : RegisteredJob) × (get_job store (record { namespace = namespace; name = name })
                ≡ some j)
              × (j.stopped ≡ false)
              × ((v : JobVersion) × (get_version store
                      (record { namespace = namespace; name = name })
                      j.version
                    ≡ some v)
                  × (current_job std files store has requested namespace name ≡ Result.ok v)))
    unfolding current_job
    current_job-cases namespace name =
        let key : JobKey = record { namespace = namespace; name = name } in
        elim (Option-cases (get_job store key)) [
          | inl missing ↦ inl (HandlerFault.no_job, ground (arith, missing))
          | inr (j, found) ↦ elim (Bool-cases j.stopped) [
            | inl stopped ↦ inl (HandlerFault.job_stopped name, ground (arith, found, stopped))
            | inr live ↦ elim (Option-cases (get_version store key j.version)) [
              | inl missing ↦
                  inl (HandlerFault.no_such_version, ground (arith, found, live, missing))
              | inr (v, stored) ↦
                  inr (j, found, live, (v, stored, ground (arith, found, live, stored)))
            ]
          ]
        ]

    -- Dispatching a registered job never panics: it fails with a fault, or goes on with the current
    -- version of a job that is not stopped, in a namespace that is declared, with metadata that the
    -- job's declaration permits and a job in whose file nothing is wrong.
    pub dispatch_job-IsCurrent :
        (name : String) (meta : Map String String)
        → ((x : HandlerFault D) × (dispatch_job std files store has requested name meta
              ≡ some (Result.err x)))
          ⊎ ((l : Launch) × (dispatch_job std files store has requested name meta
                ≡ some (Result.ok l))
              × IsCurrent name meta l)
    unfolding dispatch_job registered_job
    dispatch_job-IsCurrent name meta = elim (Result-cases (namespace_for requested none has)) [
      | inr (x, failed) ↦ inl (HandlerFault.bad_namespace x, ground (arith, failed))
      | inl (namespace, named) ↦ elim (current_job-cases namespace name) [
        | inl (x, failed) ↦ inl (x, ground (arith, named, failed))
        | inr (j, found, live, (v, stored, current)) ↦ elim (for_dispatch-Loads v.source meta) [
          | inl (x, failed) ↦
              inl (HandlerFault.invalid_job x, ground (arith, named, current, failed))
          | inr (decl, declaring, permitted, (job, loaded, sound)) ↦ inr (
            record { namespace = namespace; version = v.version; job = job },
            ground (arith, named, current, loaded),
            record {
              declared = namespace_for-has none namespace named;
              registered = j;
              found = found;
              live = live;
              current = v;
              stored = stored;
              versioned = refl;
              declaration = decl;
              declaring = declaring;
              dispatchable = permitted;
              read_soundly = sound;
            },
          )
        ]
      ]
    ]
