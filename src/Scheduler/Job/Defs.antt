-- ===== src/Scheduler/Job/Defs.antt =====
-- The phases of `executePackageJob`. The file system, the storage and the build are a host's, which
-- changes its own state; the logs, the timers and the traces are left out.
use melange.Prelude.{
  ℕ, false, ◌&&◌, [], ◌∷◌, ◌++◌, Option, none, some, String, Result, if◌then◌else◌, ◌==◌, string_eq,
  ltb, nat_beq, map,
}
use melange.Prelude.Text.{join_path}
use melange.Prelude.Int.{ℤ}
use melange.Prelude.Maps.{Dict, lookup, overlay}
use melange.Types.{PackageJob, BuildSpec, PackageBuildMetrics}
use melange.Pool.{PoolError}
use melange.Progress.{Summary}
use melange.Build.{BuildConfig}

-- A call returns an error or nothing, or an error or a value, and the state that it leaves.
-- `dir` is the directory of a path; `milliseconds` is that of a duration.
pub record Host (W Context Configuration Auth : Type 0) : Type 0 where
  pub mkdir_temp : W → Result String String × W
  pub mkdir_all : String → W → Option String × W
  pub write_file : String → String → W → Option String × W
  pub create : String → W → Option String × W
  pub remove_all : String → W → W
  pub dir : String → String
  pub output_dir : String → W → Result String String × W
  pub sync_output_dir : String → String → W → Option String × W
  pub runtime_arch : String
  pub parse_architecture : String → String
  pub new_from_config : BuildConfig Configuration Auth → W → Result String Context × W
  pub build_package : Context → W → Option String × W
  pub buildkit_summary : Context → W → Option Summary
  pub close : Context → W → W
  pub milliseconds : ℤ → ℕ

-- The files that a run writes are pipelines or sources.
pub data FileKind : Type 0 where
  pipeline_file source_file : FileKind

-- What failed, and the error that it is wrapped around.
pub data JobError : Type 0 where
  creating_temp_dir writing_config getting_output_dir creating_log_dir creating_log_file :
      String → JobError
  creating_dir_for writing_file_for : FileKind → String → String → JobError
  selecting_backend : PoolError → JobError
  creating_cache_dir initializing_build building_package syncing_output : String → JobError

-- The architecture of the machine, under the name that packages use.
unfoldable pub arch_or_runtime : String → String → String
arch_or_runtime runtime arch =
    if arch == ""
    then if runtime == "arm64" then "aarch64" else if runtime == "amd64" then "x86_64" else runtime
    else arch

-- `extraEnv`, from the client's environment and the server's secrets.
unfoldable pub merged_env : Dict String → Dict String → Dict String
unfolding overlay
merged_env client secret = overlay (overlay [] client) secret

-- The texts of a map that may be nil.
abbrev pub entries : Option (Dict String) → Dict String
entries none = []
entries (some m) = m

unfoldable pub pipelines_of : PackageJob → BuildSpec → Dict String
pipelines_of p spec = elim p.pipelines [ none ↦ entries spec.pipelines | some m ↦ m ]

unfoldable pub source_files_of : PackageJob → BuildSpec → Dict String
unfolding lookup
source_files_of p spec = elim p.source_files [
  | some m ↦ m
  | none ↦ elim spec.source_files [ none ↦ [] | some by_name ↦ entries (lookup p.name by_name) ]
]

abbrev pub no_metrics : PackageBuildMetrics
no_metrics = record {
  total_duration_ms = 0;
  setup_duration_ms = 0;
  backend_wait_ms = 0;
  init_duration_ms = 0;
  buildkit_duration_ms = 0;
  storage_sync_ms = 0;
  apko_duration_ms = 0;
  apko_apk_download_ms = 0;
  apko_layer_assembly_ms = 0;
  apko_image_push_ms = 0;
  apko_cache_hit = false;
  apko_layer_count = 0;
  buildkit_cache_hit = false;
  buildkit_steps_total = 0;
  buildkit_cached = 0;
  steps = [];
}

abbrev pub or_no_metrics : Option PackageBuildMetrics → PackageBuildMetrics
or_no_metrics none = no_metrics
or_no_metrics (some m) = m

-- The metrics of the package after a build with the given summary.
unfoldable pub with_summary : (ℤ → ℕ) → Summary → PackageJob → PackageJob
with_summary milliseconds summary p =
    let old = or_no_metrics p.metrics in
    record p {
      metrics = some (record old {
        buildkit_steps_total = summary.total;
        buildkit_cached = summary.cached;
        buildkit_cache_hit = ltb 0 summary.cached && nat_beq summary.cached summary.total;
        steps =
            old.steps
            ++ map
                (λ s. record {
                  name = s.name;
                  duration_ms = milliseconds s.duration;
                  cached = s.cached;
                  error = s.error;
                })
                summary.steps;
      });
    }

-- The directories of a job.
pub record Paths : Type 0 where
  pub temp : String
  pub output : String

module _ {W Context Configuration Auth : Type 0} (host : Host W Context Configuration Auth) where
  -- The loop that writes the files of a map below a directory.
  unfoldable pub write_files : FileKind → String → Dict String → W → Option JobError × W
  unfolding join_path
  write_files kind root [] w = (none, w)
  write_files kind root ((path, content) ∷ m) w =
      let full = join_path root path in
      let (made, w1) = host.mkdir_all (host.dir full) w in
      elim made [
        | some e ↦ (some (creating_dir_for kind path e), w1)
        | none ↦
            let (written, w2) = host.write_file full content w1 in
            elim written [
              | some e ↦ (some (writing_file_for kind path e), w2)
              | none ↦ write_files kind root m w2
            ]
      ]
