-- ===== src/Api/Defs.antt =====
-- The server, what its responses hold, and the handlers that only read builds.
use melange.Prelude.{ℕ, Bool, List, String}
use melange.Prelude.Int.{ℤ}
use melange.Types.{Build, PackageStatus, Error}
use melange.Store.{Store}
use melange.Pool.{Pool, PoolError, Backend, BackendStatus}
use melange.Dag.{GraphError}
use melange.Git.{GitError}

pub record Server : Type 0 where
  pub build_store : Store
  pub pool : Pool

-- A duration as the response shows it: nothing for 0, a time in milliseconds or nanoseconds, or that
-- the build still runs.
pub data Shown : Type 0 where
  nothing in_progress : Shown
  millis nanos : ℤ → Shown

pub record PackageMetricsSummary : Type 0 where
  pub name : String
  pub status : PackageStatus
  pub total_duration : Shown
  pub setup_duration : Shown
  pub backend_wait : Shown
  pub init_duration : Shown
  pub buildkit_duration : Shown
  pub storage_sync_duration : Shown
  pub apko_duration : Shown
  pub apko_cache_hit : Bool
  pub apko_layer_count : ℕ

pub record MetricsSummary : Type 0 where
  pub avg_total : Shown
  pub avg_buildkit : Shown
  pub avg_apko : Shown
  pub p50_total : Shown
  pub p95_total : Shown
  pub p99_total : Shown
  pub total_packages : ℕ
  pub completed : ℕ
  pub failed : ℕ

pub record BuildMetricsResponse : Type 0 where
  pub build_id : String
  pub total_duration : Shown
  pub packages : List PackageMetricsSummary
  pub summary : MetricsSummary

-- Why the configurations of a request cannot be read.
pub data ConfigError : Type 0 where
  yaml_error : String → ConfigError
  missing_package_name : ConfigError

-- The texts of the error responses, by their causes.
pub data Problem : Type 0 where
  method_not_allowed id_required addr_required body_too_large : Problem
  source_required no_configs : Problem
  invalid_body : String → Problem
  pool_problem : PoolError → Problem
  store_problem : Error → Problem
  invalid_git_source git_failed : GitError → Problem
  parse_failed : ConfigError → Problem
  graph_failed dependency_failed : GraphError → Problem

pub data Body : Type 0 where
  nothing health : Body
  problem : Problem → Body
  backend_list : List Backend → List String → Body
  one_backend : Backend → Body
  statuses : List BackendStatus → Body
  one_build : Build → Body
  build_list : List Build → Body
  metrics : BuildMetricsResponse → Body
  created : String → List String → Body

pub record Response : Type 0 where
  pub code : ℕ
  pub body : Body

abbrev pub fails : ℕ → Problem → Response
fails code p = record { code = code; body = problem p }

abbrev pub answers : Body → Response
answers body = record { code = 200; body = body }

pub data Method : Type 0 where
  get post delete : Method
  other : String → Method

-- What the decoder of a body gives: a value, or its error, which may be the limit of the size.
pub data Decoded (A : Type 0) : Type 0 where
  decoded : A → Decoded A
  too_large : Decoded A
  malformed : String → Decoded A
