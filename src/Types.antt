-- ===== src/Types.antt =====
-- pkg/service/types/types.go and pkg/service/errors/errors.go: the data that the service's parts
-- exchange. A nil map is `none`; a missing time is `none`; times are nanoseconds.
use melange.Prelude.{ℕ, ◌≡◌, ◌↔◌, Bool, true, false, List, Option, String, Eq, arith}
use melange.Prelude.Maps.{Dict}

-- pkg/service/dag/dag.go's node, which the store turns into package jobs.
pub record Node : Type 0 where
  pub name : String
  pub config_yaml : String
  pub dependencies : List String

pub record Backend : Type 0 where
  pub addr : String
  pub arch : String
  pub labels : Option (Dict String)

-- The text of a request's mode: it is empty, names a mode, or is any other text.
pub data BuildMode : Type 0 where
  unset flat dag : BuildMode
  other : String → BuildMode

pub data BuildStatus : Type 0 where
  pending running success failed partial : BuildStatus

pub data PackageStatus : Type 0 where
  pending blocked running success failed skipped : PackageStatus

abbrev pub status_beq : PackageStatus → PackageStatus → Bool
status_beq PackageStatus.pending PackageStatus.pending = true
status_beq PackageStatus.blocked PackageStatus.blocked = true
status_beq PackageStatus.running PackageStatus.running = true
status_beq PackageStatus.success PackageStatus.success = true
status_beq PackageStatus.failed PackageStatus.failed = true
status_beq PackageStatus.skipped PackageStatus.skipped = true
status_beq _ _ = false

pub status_beq_iff : (a b : PackageStatus) → (status_beq a b ≡ true) ↔ (a ≡ b)
status_beq_iff a b = ground arith

instance abbrev pub status_eq : Eq PackageStatus
status_eq = record { equal = status_beq; equal_iff = status_beq_iff }

abbrev pub build_status_beq : BuildStatus → BuildStatus → Bool
build_status_beq BuildStatus.pending BuildStatus.pending = true
build_status_beq BuildStatus.running BuildStatus.running = true
build_status_beq BuildStatus.success BuildStatus.success = true
build_status_beq BuildStatus.failed BuildStatus.failed = true
build_status_beq BuildStatus.partial BuildStatus.partial = true
build_status_beq _ _ = false

pub build_status_beq_iff : (a b : BuildStatus) → (build_status_beq a b ≡ true) ↔ (a ≡ b)
build_status_beq_iff a b = ground arith

instance abbrev pub build_status_eq : Eq BuildStatus
build_status_eq = record { equal = build_status_beq; equal_iff = build_status_beq_iff }

pub record StepTiming : Type 0 where
  pub name : String
  pub duration_ms : ℕ
  pub cached : Bool
  pub error : String

pub record PackageBuildMetrics : Type 0 where
  pub total_duration_ms : ℕ
  pub setup_duration_ms : ℕ
  pub backend_wait_ms : ℕ
  pub init_duration_ms : ℕ
  pub buildkit_duration_ms : ℕ
  pub storage_sync_ms : ℕ
  pub apko_duration_ms : ℕ
  pub apko_apk_download_ms : ℕ
  pub apko_layer_assembly_ms : ℕ
  pub apko_image_push_ms : ℕ
  pub apko_cache_hit : Bool
  pub apko_layer_count : ℕ
  pub buildkit_cache_hit : Bool
  pub buildkit_steps_total : ℕ
  pub buildkit_cached : ℕ
  pub steps : List StepTiming

pub record PackageJob : Type 0 where
  pub name : String
  pub status : PackageStatus
  pub config_yaml : String
  pub dependencies : List String
  pub started_at : Option ℕ
  pub finished_at : Option ℕ
  pub error : String
  pub log_path : String
  pub output_path : String
  pub backend : Option Backend
  pub pipelines : Option (Dict String)
  pub source_files : Option (Dict String)
  pub metrics : Option PackageBuildMetrics

pub record GitSource : Type 0 where
  pub repository : String
  pub ref : String
  pub pattern : String
  pub path : String

pub record BuildSpec : Type 0 where
  pub configs : List String
  pub git_source : Option GitSource
  pub pipelines : Option (Dict String)
  pub source_files : Option (Dict (Dict String))
  pub arch : String
  pub backend_selector : Dict String
  pub with_test : Bool
  pub debug : Bool
  pub mode : BuildMode
  pub env : Dict String

pub record CreateBuildRequest : Type 0 where
  pub config_yaml : String
  pub configs : List String
  pub git_source : Option GitSource
  pub pipelines : Option (Dict String)
  pub arch : String
  pub backend_selector : Dict String
  pub with_test : Bool
  pub debug : Bool
  pub source_files : Option (Dict (Dict String))
  pub mode : BuildMode
  pub env : Dict String

pub record Build : Type 0 where
  pub id : String
  pub status : BuildStatus
  pub packages : List PackageJob
  pub spec : BuildSpec
  pub created_at : ℕ
  pub started_at : Option ℕ
  pub finished_at : Option ℕ

pub data Error : Type 0 where
  build_not_found package_not_found : String → Error
  no_available_backend : Error
  backend_not_found backend_already_exists : String → Error
