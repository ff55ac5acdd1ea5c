-- ===== src/Scheduler/Job/Slots.antt =====
-- What a run does to the pool: it takes one slot at most, and gives it back.
use melange.Prelude.{
  ℕ, ◌≡◌, refl, ◌⊎◌, inl, inr, true, false, Option, none, some, String, ok, arith, Option-cases,
  Result-cases, Bool-cases, ◌==◌, string_eq,
}
use melange.Prelude.Text.{join_path}
use melange.Types
use melange.Types.{PackageJob, BuildSpec}
use melange.Pool.{Pool, Backend, select_and_acquire, release}
use melange.Scheduler.Setup.{Config}
use melange.Scheduler.Job.Defs.{
  pipeline_file, source_file, Host, JobError, creating_temp_dir, writing_config, getting_output_dir,
  creating_log_dir, creating_log_file, selecting_backend, creating_cache_dir, initializing_build,
  building_package, syncing_output, arch_or_runtime, with_summary, Paths, write_files, pipelines_of,
  source_files_of,
}
use melange.Scheduler.Job.Phases.{
  Outcome, Run, build_config_of, build_and_sync, run_build, run_on_backend, run_with_logs,
  run_with_output, run_in_temp, execute_package_job,
}

-- The backend as a package records it.
abbrev pub recorded : Backend → Types.Backend
recorded b = record { addr = b.addr; arch = b.arch; labels = b.labels }

module _ {W Context Configuration Auth : Type 0} (host : Host W Context Configuration Auth)
    (config : Config) (job_id : String) (spec : BuildSpec) where
  build_and_sync-backend :
      (bc : Context) (output : String) (p : PackageJob) (w : W)
      → (build_and_sync host config job_id spec bc output p w).0.job.backend ≡ p.backend
  unfolding build_and_sync with_summary
  build_and_sync-backend bc output p w = ground arith

  -- `buildSuccess` says whether there is no error.
  abbrev Agrees : Run → Type 0
  Agrees run =
      ((run.failure ≡ none) × (run.success ≡ true))
      ⊎ ((e : JobError) × (run.failure ≡ some e) × (run.success ≡ false))

  build_and_sync-Agrees :
      (bc : Context) (output : String) (p : PackageJob) (w : W)
      → Agrees (build_and_sync host config job_id spec bc output p w).0
  unfolding build_and_sync
  build_and_sync-Agrees bc output p w = elim (Option-cases (host.build_package bc w).0) [
    | inr (e, failed) ↦ rw (failed, build_and_sync) (inr (building_package e, refl, refl))
    | inl built ↦
        elim (Option-cases (host.sync_output_dir job_id output (host.build_package bc w).1).0) [
          | inr (e, failed) ↦
              rw (built, failed, build_and_sync) (inr (syncing_output e, refl, refl))
          | inl synced ↦ rw (built, synced, build_and_sync) (inl (refl, refl))
        ]
  ]

  run_build-Agrees :
      (paths : Paths) (b : Backend) (p : PackageJob) (w : W)
      → Agrees (run_build host config job_id spec paths b p w).0
  unfolding run_build
  run_build-Agrees paths b p w =
      elim (Option-cases (host.mkdir_all (join_path paths.temp "cache") w).0) [
        | inr (e, failed) ↦ rw (failed, run_build) (inr (creating_cache_dir e, refl, refl))
        | inl made ↦
            elim (Result-cases
              (host.new_from_config (build_config_of host config job_id spec paths p b)
                (host.mkdir_all (join_path paths.temp "cache") w).1).0) [
                  | inl (e, failed) ↦
                      rw (made, failed, run_build) (inr (initializing_build e, refl, refl))
                  | inr (bc, created) ↦
                      rw (made, created, run_build) (build_and_sync-Agrees bc _ p _)
                ]
      ]

  run_build-backend :
      (paths : Paths) (b : Backend) (p : PackageJob) (w : W)
      → (run_build host config job_id spec paths b p w).0.job.backend ≡ p.backend
  unfolding run_build
  run_build-backend paths b p w =
      elim (Option-cases (host.mkdir_all (join_path paths.temp "cache") w).0) [
        | inr (e, failed) ↦ rw (failed, run_build) refl
        | inl made ↦
            elim (Result-cases
              (host.new_from_config (build_config_of host config job_id spec paths p b)
                (host.mkdir_all (join_path paths.temp "cache") w).1).0) [
                  | inl (e, failed) ↦ rw (made, failed, run_build) refl
                  | inr (bc, created) ↦
                      rw (made, created, run_build) (build_and_sync-backend bc _ p _)
                ]
      ]

  module _ (meanwhile : Pool → Pool) (now later : ℕ) where
    -- The slot is given back: as a success if the run has no error, and else as a failure.
    abbrev pub Releases : Pool → Backend → Outcome W → Type 0
    Releases q b out =
        ((out.failure ≡ none) × (out.pool ≡ release (meanwhile q) b.addr true later))
        ⊎ ((e : JobError) × (out.failure ≡ some e)
            × (out.pool ≡ release (meanwhile q) b.addr false later))

    -- A run ends with an error before it has a backend, or gives back the one that it took.
    abbrev pub Ends : Pool → Option Types.Backend → Outcome W → Type 0
    Ends pool before out =
        ((e : JobError) × (out.failure ≡ some e) × (out.pool ≡ pool) × (out.job.backend ≡ before))
        ⊎ ((b : Backend) × (q : Pool) × (select_and_acquire pool
                (arch_or_runtime host.runtime_arch spec.arch) spec.backend_selector now
              ≡ ok (b, q))
            × Releases q b out
            × (out.job.backend ≡ some (recorded b)))

    run_on_backend-Ends :
        (paths : Paths) (pool : Pool) (p : PackageJob) (w : W)
        → Ends pool p.backend
            (run_on_backend host config job_id spec meanwhile now later paths pool p w)
    unfolding run_on_backend
    run_on_backend-Ends paths pool p w =
        elim (Result-cases (
          select_and_acquire pool (arch_or_runtime host.runtime_arch spec.arch)
            spec.backend_selector now)) [
              | inl (e, none_free) ↦
                  rw (none_free, run_on_backend) (inl (selecting_backend e, refl, refl, refl))
              | inr ((b, q), taken) ↦
                  let p' : PackageJob = record p { backend = some (recorded b) } in
                  let shown = run_build-backend paths b p' w in
                  elim (run_build-Agrees paths b p' w) [
                    | inl (clean, flag) ↦
                        rw (taken, run_on_backend)
                          (inr (b, q, refl, inl (clean, rw flag refl), shown))
                    | inr (e, failed, flag) ↦
                        rw (taken, run_on_backend)
                          (inr (b, q, refl, inr (e, failed, rw flag refl), shown))
                  ]
            ]

    abbrev created_log : Paths → W → Option String × W
    created_log paths w =
        host.create (join_path (join_path paths.output "logs") "build.log")
          (host.mkdir_all (join_path paths.output "logs") w).1

    run_with_logs-Ends :
        (paths : Paths) (pool : Pool) (p : PackageJob) (w : W)
        → Ends pool p.backend
            (run_with_logs host config job_id spec meanwhile now later paths pool p w)
    unfolding run_with_logs
    run_with_logs-Ends paths pool p w =
        elim (Option-cases (host.mkdir_all (join_path paths.output "logs") w).0) [
          | inr (e, failed) ↦
              rw (failed, run_with_logs) (inl (creating_log_dir e, refl, refl, refl))
          | inl made ↦ elim (Option-cases (created_log paths w).0) [
            | inr (e, failed) ↦
                rw (made, failed, run_with_logs) (inl (creating_log_file e, refl, refl, refl))
            | inl created ↦
                rw (made, created, run_with_logs)
                  (run_on_backend-Ends paths pool
                    (record p { log_path = join_path (join_path paths.output "logs") "build.log" })
                    (created_log paths w).1)
          ]
        ]

    run_with_output-Ends :
        (temp : String) (pool : Pool) (p : PackageJob) (w : W)
        → Ends pool p.backend
            (run_with_output host config job_id spec meanwhile now later temp pool p w)
    unfolding run_with_output
    run_with_output-Ends temp pool p w = elim (Result-cases (host.output_dir job_id w).0) [
      | inl (e, failed) ↦
          rw (failed, run_with_output) (inl (getting_output_dir e, refl, refl, refl))
      | inr (output, found) ↦
          let ends =
            run_with_logs-Ends (record { temp = temp; output = output }) pool
              (record p { output_path = output }) (host.output_dir job_id w).1 in
          elim (Bool-cases (output == join_path config.output_dir job_id)) [
            | inl kept ↦ rw (found, kept, run_with_output) ends
            | inr removed ↦ rw (found, removed, run_with_output) ends
          ]
    ]

    abbrev configured : String → PackageJob → W → Option String × W
    configured temp p w = host.write_file (join_path temp "config.yaml") p.config_yaml w

    abbrev piped : String → PackageJob → W → Option JobError × W
    piped temp p w =
        write_files host pipeline_file (join_path temp "pipelines") (pipelines_of p spec)
          (configured temp p w).1

    abbrev sourced : String → PackageJob → W → Option JobError × W
    sourced temp p w =
        write_files host source_file (join_path temp "sources") (source_files_of p spec)
          (piped temp p w).1

    run_in_temp-Ends :
        (temp : String) (pool : Pool) (p : PackageJob) (w : W)
        → Ends pool p.backend
            (run_in_temp host config job_id spec meanwhile now later temp pool p w)
    unfolding run_in_temp
    run_in_temp-Ends temp pool p w = elim (Option-cases (configured temp p w).0) [
      | inr (e, failed) ↦ rw (failed, run_in_temp) (inl (writing_config e, refl, refl, refl))
      | inl a ↦ elim (Option-cases (piped temp p w).0) [
        | inr (e, failed) ↦ rw (a, failed, run_in_temp) (inl (e, refl, refl, refl))
        | inl b ↦ elim (Option-cases (sourced temp p w).0) [
          | inr (e, failed) ↦ rw (a, b, failed, run_in_temp) (inl (e, refl, refl, refl))
          | inl c ↦
              rw (a, b, c, run_in_temp) (run_with_output-Ends temp pool p (sourced temp p w).1)
        ]
      ]
    ]

    -- A run of a package ends in one of two ways. It has an error before it has a backend, and leaves
    -- the pool and the package's backend as they were; or it takes a slot, whose backend the package
    -- records, and at its end gives back that slot to the pool as the others left it, as a success if
    -- it has no error and as a failure if it has one.
    pub execute_package_job-Ends :
        (pool : Pool) (p : PackageJob) (w : W)
        → Ends pool p.backend
            (execute_package_job host config job_id spec meanwhile now later pool p w)
    unfolding execute_package_job
    execute_package_job-Ends pool p w = elim (Result-cases (host.mkdir_temp w).0) [
      | inl (e, failed) ↦
          rw (failed, execute_package_job) (inl (creating_temp_dir e, refl, refl, refl))
      | inr (temp, made) ↦
          rw (made, execute_package_job) (run_in_temp-Ends temp pool p (host.mkdir_temp w).1)
    ]
