-- ===== src/Scheduler/Job/Tests.antt =====
-- Runs and witnesses for `executePackageJob`, with a host that counts its calls.
use melange.Prelude.{
  ℕ, suc, ◌≡◌, refl, ◌⊎◌, false, [], ◌∷◌, Option, none, some, String, ok, contains, string_eq,
  ==_refl, arith,
}
use melange.Prelude.Int.{pos}
use melange.Prelude.Maps.{lookup, or_below}
use melange.Types.{PackageJob, BuildSpec, BuildMode}
use melange.Store.{package_of}
use melange.Pool.{Pool, Backend}
use melange.Pool.Leases.{System, Reach, IsSound, erase, here}
use melange.Pool.Examples.{pool, idle-IsSound}
use melange.Scheduler.Setup.{Config}
use melange.Scheduler.Job.Defs.{Host, building_package, merged_env}
use melange.Scheduler.Job.Phases.{Outcome, execute_package_job}
use melange.Scheduler.Job.Slots.{Ends, execute_package_job-Ends}
use melange.Scheduler.Job.Sharing.{Acquired, Others, execute_package_job-Reach}
use melange.Scheduler.Job.Env.{lookup-merged_env}

-- The host's state is the number of calls; the build of the package fails as `failure` says.
abbrev host : Option String → Host ℕ Unit Unit Unit
host failure = record {
  mkdir_temp = λ n. (ok "/tmp/pkg", suc n);
  mkdir_all = λ path n. (none, suc n);
  write_file = λ path content n. (none, suc n);
  create = λ path n. (none, suc n);
  remove_all = λ path n. suc n;
  dir = λ path. path;
  output_dir = λ id n. (ok "/out/x-lib", suc n);
  sync_output_dir = λ id path n. (none, suc n);
  runtime_arch = "amd64";
  parse_architecture = λ arch. arch;
  new_from_config = λ c n. (ok tt, suc n);
  build_package = λ bc n. (failure, suc n);
  buildkit_summary = λ bc n. none;
  close = λ bc n. suc n;
  milliseconds = λ d. 0;
}

abbrev config : Config
config = record {
  output_dir = "/out";
  poll_interval = pos 1;
  max_parallel = pos 2;
  cache_registry = "";
  cache_mode = "";
  apko_registry = "";
  apko_registry_insecure = false;
  apk_cache_dir = "";
  apk_cache_ttl = pos 0;
  apko_service_addr = "";
  secret_env = ("TOKEN", "secret") ∷ [];
}

abbrev spec : BuildSpec
spec = record {
  configs = [];
  git_source = none;
  pipelines = some (("p.yaml", "runs: make") ∷ []);
  source_files = none;
  arch = "";
  backend_selector = [];
  with_test = false;
  debug = false;
  mode = BuildMode.flat;
  env = ("TOKEN", "client") ∷ ("HOME", "/root") ∷ [];
}

abbrev lib_job : PackageJob
lib_job = package_of none (record { name = "lib"; config_yaml = "package:"; dependencies = [] })

abbrev others : Pool → Pool
others p = p

abbrev run : Option String → Outcome ℕ
run failure = execute_package_job (host failure) config "x-lib" spec others 0 5 pool lib_job 0

-- A build that fails makes the run fail, and the backend count a failure.
fails : (run (some "exit 1")).failure ≡ some (building_package "exit 1")
unfolding execute_package_job package_of
fails = refl

releases :
    lookup "a" (run (some "exit 1")).pool.state
    ≡ some (record {
      active_jobs = pos 0;
      failures = pos 1;
      last_failure = some 5;
      circuit_open = false;
    })
unfolding execute_package_job package_of lookup
releases = refl

execute_package_job-Ends_example :
    Ends (host none) config "x-lib" spec others 0 5 pool lib_job.backend (run none)
execute_package_job-Ends_example =
    execute_package_job-Ends (host none) config "x-lib" spec others 0 5 pool lib_job 0

no_others : Others (host none) config "x-lib" spec others 0 5 pool []
unfolding contains
no_others b q taken = (b.addr ∷ [], here, ground (arith, ==_refl b.addr))

execute_package_job-Reach_example :
    (t : System) × Reach (record { pool = pool; leases = [] }) t
    × (t.pool ≡ (run none).pool)
    × IsSound t
    × ((t.leases ≡ [])
        ⊎ ((b : Backend) × (q : Pool) × (taken : Acquired
              (host none)
              config
              "x-lib"
              spec
              others
              0
              5
              pool
              b
              q)
            × (t.leases ≡ erase b.addr (no_others b q taken).0)))
execute_package_job-Reach_example =
    execute_package_job-Reach (host none) config "x-lib" spec others 0 5 pool [] lib_job 0
      idle-IsSound no_others

lookup-merged_env_example :
    lookup "TOKEN" (merged_env spec.env config.secret_env)
    ≡ or_below (lookup "TOKEN" config.secret_env) (lookup "TOKEN" spec.env)
unfolding lookup
lookup-merged_env_example =
    lookup-merged_env "TOKEN" spec.env config.secret_env (refl, (refl, tt)) (refl, tt)
