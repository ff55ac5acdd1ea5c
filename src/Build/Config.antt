-- ===== src/Build/Config.antt =====
-- pkg/build/buildconfig.go. The parsed configuration and the credentials are types of the caller's, a
-- nil slice is an empty list, and the zero time is `none`.
use melange.Prelude.{
  ℕ, Bool, true, false, ◌&&◌, not, List, [], ◌∷◌, Option, none, some, String, if◌then◌else◌, ◌==◌,
  string_eq,
}
use melange.Prelude.Text.{◌<>◌}
use melange.Prelude.Maps.{Dict}
use melange.Linter.{default_required_linters, default_warn_linters}

pub record BuildConfig (Configuration Auth : Type 0) : Type 0 where
  pub config_file : String
  pub configuration : Option Configuration
  pub config_file_repository_url : String
  pub config_file_repository_commit : String
  pub config_file_license : String
  pub source_date_epoch : Option ℕ
  pub workspace_dir : String
  pub workspace_ignore : String
  pub pipeline_dirs : List String
  pub source_dir : String
  pub signing_key : String
  pub signing_passphrase : String
  pub namespace : String
  pub generate_index : Bool
  pub empty_workspace : Bool
  pub out_dir : String
  pub arch : String
  pub libc : String
  pub extra_keys : List String
  pub extra_repos : List String
  pub extra_packages : List String
  pub dependency_log : String
  pub create_build_log : Bool
  pub persist_lint_results : Bool
  pub cache_dir : String
  pub apk_cache_dir : String
  pub strip_origin_name : Bool
  pub env_file : String
  pub vars_file : String
  pub buildkit_addr : String
  pub debug : Bool
  pub remove : Bool
  pub cache_registry : String
  pub cache_mode : String
  pub apko_registry : String
  pub apko_registry_insecure : Bool
  pub apko_service_addr : String
  pub lint_require : List String
  pub lint_warn : List String
  pub auth : Dict Auth
  pub ignore_signatures : Bool
  pub enabled_build_options : List String
  pub max_layers : ℕ
  pub export_on_failure : String
  pub export_ref : String
  pub generate_provenance : Bool
  pub extra_env : Dict String

pub data ConfigProblem : Type 0 where
  no_config no_repository_url no_repository_commit : ConfigProblem
  no_signing_key : String → ConfigProblem

pub record RemoteBuildParams : Type 0 where
  pub config_path : String
  pub pipeline_dir : String
  pub source_dir : String
  pub output_dir : String
  pub cache_dir : String
  pub apk_cache_dir : String
  pub backend_addr : String
  pub debug : Bool
  pub job_id : String
  pub cache_registry : String
  pub cache_mode : String
  pub apko_registry : String
  pub apko_registry_insecure : Bool
  pub apko_service_addr : String
  pub extra_env : Dict String

abbrev pub is_none : {A : Type 0} → Option A → Bool
is_none none = true
is_none (some a) = false

module _ {Configuration Auth : Type 0} where
  unfoldable pub new_build_config : BuildConfig Configuration Auth
  new_build_config = record {
    config_file = "";
    configuration = none;
    config_file_repository_url = "";
    config_file_repository_commit = "";
    config_file_license = "";
    source_date_epoch = none;
    workspace_dir = "";
    workspace_ignore = ".melangeignore";
    pipeline_dirs = [];
    source_dir = "";
    signing_key = "";
    signing_passphrase = "";
    namespace = "";
    generate_index = false;
    empty_workspace = false;
    out_dir = ".";
    arch = "";
    libc = "";
    extra_keys = [];
    extra_repos = [];
    extra_packages = [];
    dependency_log = "";
    create_build_log = false;
    persist_lint_results = false;
    cache_dir = "./melange-cache/";
    apk_cache_dir = "";
    strip_origin_name = false;
    env_file = "";
    vars_file = "";
    buildkit_addr = "";
    debug = false;
    remove = true;
    cache_registry = "";
    cache_mode = "";
    apko_registry = "";
    apko_registry_insecure = false;
    apko_service_addr = "";
    lint_require = [];
    lint_warn = [];
    auth = [];
    ignore_signatures = false;
    enabled_build_options = [];
    max_layers = 50;
    export_on_failure = "";
    export_ref = "";
    generate_provenance = false;
    extra_env = [];
  }

  -- `stat` is the error of `os.Stat`, if there is one.
  unfoldable pub validate :
      (String → Option String) → BuildConfig Configuration Auth → Option ConfigProblem
  validate stat c =
      if c.config_file == "" && is_none c.configuration
      then some no_config
      else if c.config_file_repository_url == ""
      then some no_repository_url
      else if c.config_file_repository_commit == ""
      then some no_repository_commit
      else if not (c.signing_key == "")
      then elim (stat c.signing_key) [ none ↦ none | some e ↦ some (no_signing_key e) ]
      else none

  unfoldable pub new_build_config_for_remote : RemoteBuildParams → BuildConfig Configuration Auth
  unfolding new_build_config default_required_linters default_warn_linters
  new_build_config_for_remote params = record new_build_config {
    config_file = params.config_path;
    config_file_repository_url = "https://melange-service/inline";
    config_file_repository_commit = "inline-" <> params.job_id;
    config_file_license = "Apache-2.0";
    pipeline_dirs = if params.pipeline_dir == "" then [] else params.pipeline_dir ∷ [];
    source_dir = if params.source_dir == "" then "" else params.source_dir;
    out_dir = params.output_dir;
    cache_dir = params.cache_dir;
    apk_cache_dir = params.apk_cache_dir;
    buildkit_addr = params.backend_addr;
    debug = params.debug;
    generate_index = true;
    ignore_signatures = true;
    namespace = "wolfi";
    cache_registry = params.cache_registry;
    cache_mode = params.cache_mode;
    apko_registry = params.apko_registry;
    apko_registry_insecure = params.apko_registry_insecure;
    apko_service_addr = params.apko_service_addr;
    extra_repos = "https://packages.wolfi.dev/os" ∷ [];
    extra_keys = "https://packages.wolfi.dev/os/wolfi-signing.rsa.pub" ∷ [];
    lint_require = default_required_linters;
    lint_warn = default_warn_linters;
    extra_env = params.extra_env;
  }
