-- ===== src/Scheduler/Job/Phases.antt =====
-- The phases of `executePackageJob`, from its last to the whole. A deferred call stands behind the phase
-- that follows it.
use melange.Prelude.{
  ℕ, Bool, true, false, not, Option, none, some, String, ok, err, if◌then◌else◌, ◌==◌, string_eq,
  length, ltb,
}
use melange.Prelude.Text.{join_path}
use melange.Prelude.Maps.{Dict}
use melange.Types.{PackageJob, BuildSpec}
use melange.Pool.{Pool, Backend, select_and_acquire, release}
use melange.Build.{BuildConfig, new_build_config_for_remote}
use melange.Scheduler.Setup.{Config}
use melange.Scheduler.Job.Defs.{
  pipeline_file, source_file, Host, JobError, creating_temp_dir, writing_config, getting_output_dir,
  creating_log_dir, creating_log_file, selecting_backend, creating_cache_dir, initializing_build,
  building_package, syncing_output, arch_or_runtime, merged_env, pipelines_of, source_files_of,
  with_summary, Paths, write_files,
}

-- What a run leaves: its error, the package, the pool and the host's state.
pub record Outcome (W : Type 0) : Type 0 where
  pub failure : Option JobError
  pub job : PackageJob
  pub pool : Pool
  pub world : W

-- What the phases with a backend leave: the error that they return, the variable `buildSuccess`, which
-- only the last of them sets, and the package.
pub record Run : Type 0 where
  pub failure : Option JobError
  pub success : Bool
  pub job : PackageJob

-- A return with an error, before `buildSuccess` is set.
abbrev pub stopped : JobError → PackageJob → Run
stopped e p = record { failure = some e; success = false; job = p }

abbrev pub is_empty : Dict String → Bool
is_empty m = not (ltb 0 (length m))

-- `meanwhile` is what the other jobs and the API do to the pool while this job has its backend; the
-- slot is taken at the time `now` and given back at `later`.
module _ {W Context Configuration Auth : Type 0} (host : Host W Context Configuration Auth)
    (config : Config) (job_id : String) (spec : BuildSpec) where
  unfoldable pub build_config_of : Paths → PackageJob → Backend → BuildConfig Configuration Auth
  unfolding new_build_config_for_remote merged_env pipelines_of source_files_of arch_or_runtime
      join_path
  build_config_of paths p b =
      record (new_build_config_for_remote {Configuration = Configuration} {Auth = Auth} (record {
        config_path = join_path paths.temp "config.yaml";
        pipeline_dir =
            if is_empty (pipelines_of p spec) then "" else join_path paths.temp "pipelines";
        source_dir =
            if is_empty (source_files_of p spec) then "" else join_path paths.temp "sources";
        output_dir = paths.output;
        cache_dir = join_path paths.temp "cache";
        apk_cache_dir = config.apk_cache_dir;
        backend_addr = b.addr;
        debug = spec.debug;
        job_id = job_id;
        cache_registry = config.cache_registry;
        cache_mode = config.cache_mode;
        apko_registry = config.apko_registry;
        apko_registry_insecure = config.apko_registry_insecure;
        apko_service_addr = config.apko_service_addr;
        extra_env = merged_env spec.env config.secret_env;
      })) { arch = host.parse_architecture (arch_or_runtime host.runtime_arch spec.arch) }

  -- The build in its context, and the storage of what it made.
  unfoldable pub build_and_sync : Context → String → PackageJob → W → Run × W
  unfolding with_summary
  build_and_sync bc output p w =
      let (built, w1) = host.build_package bc w in
      elim built [
        | some e ↦ (stopped (building_package e) p, (host.sync_output_dir job_id output w1).1)
        | none ↦
            let p' : PackageJob = elim (host.buildkit_summary bc w1) [
              | none ↦ p
              | some summary ↦ with_summary host.milliseconds summary p
            ] in
            let (synced, w2) = host.sync_output_dir job_id output w1 in
            elim synced [
              | some e ↦ (stopped (syncing_output e) p', w2)
              | none ↦ (record { failure = none; success = true; job = p' }, w2)
            ]
      ]

  -- From the backend on.
  unfoldable pub run_build : Paths → Backend → PackageJob → W → Run × W
  unfolding build_config_of build_and_sync join_path
  run_build paths b p w =
      let (made, w1) = host.mkdir_all (join_path paths.temp "cache") w in
      elim made [
        | some e ↦ (stopped (creating_cache_dir e) p, w1)
        | none ↦
            let (created, w2) = host.new_from_config (build_config_of paths p b) w1 in
            elim created [
              | err e ↦ (stopped (initializing_build e) p, w2)
              | ok bc ↦
                  let (result, w3) = build_and_sync bc paths.output p w2 in
                  (result, host.close bc w3)
            ]
      ]

  module _ (meanwhile : Pool → Pool) (now later : ℕ) where
    -- The slot is acquired, and released with `buildSuccess` as the run leaves it.
    unfoldable pub run_on_backend : Paths → Pool → PackageJob → W → Outcome W
    unfolding select_and_acquire release run_build arch_or_runtime
    run_on_backend paths pool p w =
        elim (select_and_acquire pool (arch_or_runtime host.runtime_arch spec.arch)
          spec.backend_selector now) [
            | err e ↦ record {
              failure = some (selecting_backend e);
              job = p;
              pool = pool;
              world = w;
            }
            | ok (b, q) ↦
                let (run, w') =
                  run_build paths b
                    (record p {
                      backend = some (record { addr = b.addr; arch = b.arch; labels = b.labels });
                    })
                    w in
                record {
                  failure = run.failure;
                  job = run.job;
                  pool = release (meanwhile q) b.addr run.success later;
                  world = w';
                }
          ]

    -- The output directory's logs, then the run.
    unfoldable pub run_with_logs : Paths → Pool → PackageJob → W → Outcome W
    unfolding run_on_backend join_path
    run_with_logs paths pool p w =
        let logs = join_path paths.output "logs" in
        let (made, w1) = host.mkdir_all logs w in
        elim made [
          | some e ↦ record {
            failure = some (creating_log_dir e);
            job = p;
            pool = pool;
            world = w1;
          }
          | none ↦
              let (created, w2) = host.create (join_path logs "build.log") w1 in
              elim created [
                | some e ↦ record {
                  failure = some (creating_log_file e);
                  job = p;
                  pool = pool;
                  world = w2;
                }
                | none ↦
                    run_on_backend paths pool (record p { log_path = join_path logs "build.log" })
                      w2
              ]
        ]

    -- A directory that is not the configured one is removed at the end.
    unfoldable pub run_with_output : String → Pool → PackageJob → W → Outcome W
    unfolding run_with_logs join_path
    run_with_output temp pool p w =
        let (found, w1) = host.output_dir job_id w in
        elim found [
          | err e ↦ record {
            failure = some (getting_output_dir e);
            job = p;
            pool = pool;
            world = w1;
          }
          | ok output ↦
              let out =
                run_with_logs (record { temp = temp; output = output }) pool
                  (record p { output_path = output }) w1 in
              if output == join_path config.output_dir job_id
              then out
              else record out { world = host.remove_all output out.world }
        ]

    -- The files of the package, then the run.
    unfoldable pub run_in_temp : String → Pool → PackageJob → W → Outcome W
    unfolding run_with_output write_files pipelines_of source_files_of join_path
    run_in_temp temp pool p w =
        let (written, w1) = host.write_file (join_path temp "config.yaml") p.config_yaml w in
        elim written [
          | some e ↦ record { failure = some (writing_config e); job = p; pool = pool; world = w1 }
          | none ↦
              let (piped, w2) =
                write_files host pipeline_file (join_path temp "pipelines") (pipelines_of p spec)
                  w1 in
              elim piped [
                | some e ↦ record { failure = some e; job = p; pool = pool; world = w2 }
                | none ↦
                    let (sourced, w3) =
                      write_files host source_file (join_path temp "sources")
                        (source_files_of p spec) w2 in
                    elim sourced [
                      | some e ↦ record { failure = some e; job = p; pool = pool; world = w3 }
                      | none ↦ run_with_output temp pool p w3
                    ]
              ]
        ]

    unfoldable pub execute_package_job : Pool → PackageJob → W → Outcome W
    unfolding run_in_temp
    execute_package_job pool p w =
        let (made, w1) = host.mkdir_temp w in
        elim made [
          | err e ↦ record {
            failure = some (creating_temp_dir e);
            job = p;
            pool = pool;
            world = w1;
          }
          | ok temp ↦
              let out = run_in_temp temp pool p w1 in
              record out { world = host.remove_all temp out.world }
        ]
