-- ===== src/Llb/Defs.antt =====
-- The data of pkg/buildkit/llb.go, and the pipelines of pkg/config/config.go.
use melange.Prelude.{ℕ, Bool, false, List, [], Option, String, ◌∷◌}
use melange.Prelude.Int.{ℤ}
use melange.Prelude.Maps.{Dict}

-- The cache is mounted from the directory `/cache` of a new state.
pub data Sharing : Type 0 where
  shared private locked : Sharing

pub record CacheMount : Type 0 where
  pub id : String
  pub target : String
  pub mode : Sharing

-- The options of a run.
pub data RunOption : Type 0 where
  args : List String → RunOption
  dir user : String → RunOption
  add_env : String → String → RunOption
  cache_dir : String → String → Sharing → RunOption
  custom_name : String → RunOption

-- The actions on files: a directory with its permissions and whether its parents are made, and a copy
-- of the contents of a directory, with whether the destination is made.
pub data FileAction (S : Type 0) : Type 0 where
  mkdir : String → ℕ → Bool → FileAction S
  copy : S → String → String → Bool → FileAction S

pub record Llb (S : Type 0) : Type 0 where
  pub empty : S
  pub scratch : S
  pub local : String → S
  pub run : List RunOption → S → S
  pub file : FileAction S → Option String → S → S

pub record Input : Type 0 where
  pub description : String
  pub default : String
  pub required : Bool

-- The fields of a pipeline, less the pipelines inside it.
pub record Step : Type 0 where
  pub condition : String
  pub name : String
  pub uses : String
  pub arguments : Dict String
  pub runs : String
  pub inputs : Dict Input
  pub needs : Option (List String)
  pub label : String
  pub required_steps : Option ℤ
  pub work_dir : String
  pub environment : Dict String

mutual
  pub data Pipeline : Type 0 where
    pipeline : Step → Pipelines → Pipeline

  pub data Pipelines : Type 0 where
    nil : Pipelines
    cons : Pipeline → Pipelines → Pipelines

pub data BuildError : Type 0 where
  evaluating : String → String → BuildError
  nested at_pipeline : ℕ → BuildError → BuildError

-- The state, and the index and the error of the pipeline that failed.
pub record PipelineResult (S : Type 0) : Type 0 where
  pub state : S
  pub failure : Option (ℕ × BuildError)

pub record PipelineBuilder : Type 0 where
  pub debug : Bool
  pub base_env : Dict String
  pub cache_mounts : List CacheMount

abbrev pub default_work_dir : String
default_work_dir = "/home/build"

abbrev pub melange_out_dir : String
melange_out_dir = "melange-out"

abbrev pub default_path : String
default_path = "/usr/local/sbin:/usr/local/bin:/usr/sbin:/usr/bin:/sbin:/bin"

abbrev pub default_cache_dir : String
default_cache_dir = "/var/cache/melange"

abbrev pub build_user_name : String
build_user_name = "root"

unfoldable pub new_pipeline_builder : PipelineBuilder
new_pipeline_builder = record {
  debug = false;
  base_env = ("PATH", default_path) ∷ ("HOME", default_work_dir) ∷ [];
  cache_mounts = [];
}
