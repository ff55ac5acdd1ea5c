-- ===== src/Llb/Tests.antt =====
-- Runs and witnesses for pkg/buildkit/llb.go. The states are the runs that led to them.
use Prim.Native.String.{String}
use melange.Prelude.{
  ◌≡◌, refl, Bool, false, List, [], ◌∷◌, none, some, Result, ok, err, if◌then◌else◌, ◌==◌, ==_iff,
  string_eq, arith,
}
use melange.Prelude.Text.{◌<>◌}
use melange.Prelude.Maps.{Dict, lookup}
use melange.Llb.Defs.{
  Llb, RunOption, args, dir, user, add_env, custom_name, Step, Pipeline, pipeline, nil,
  PipelineBuilder, BuildError, evaluating, at_pipeline, new_pipeline_builder,
}
use melange.Llb.Workspace.{shell}
use melange.Llb.Pipelines.{build_pipelines_with_recovery}
use melange.Llb.Scripts.{env_exports, build_test_pipelines}
use melange.Llb.Recovery.{Recovers, build_pipelines_with_recovery-Recovers}
use melange.Llb.Determinism.{
  SameMap, same_pipeline, same_nil, one_more, none_left, with_env,
  build_pipelines_with_recovery-same,
}
use melange.Llb.Quoting.{bare, read_word, word_of, read_word-env_exports}

abbrev Log : Type 0
Log = List (List RunOption)

abbrev llb : Llb Log
llb = record {
  empty = [];
  scratch = [];
  local = λ name. [];
  run = λ options log. options ∷ log;
  file = λ action name log. log;
}

abbrev evaluate : String → Result String Bool
evaluate text = if text == "broken" then err "no expression" else ok (text == "true")

abbrev step_of : String → String → Dict String → Step
step_of condition runs env = record {
  condition = condition;
  name = runs;
  uses = "";
  arguments = [];
  runs = runs;
  inputs = [];
  needs = none;
  label = "";
  required_steps = none;
  work_dir = "";
  environment = env;
}

abbrev make : Dict String → Pipeline
make env = pipeline (step_of "" "make" env) nil

abbrev broken : Pipeline
broken = pipeline (step_of "broken" "test" []) nil

abbrev skipped : Pipeline
skipped = pipeline (step_of "false" "test" []) nil

-- The second pipeline is skipped, and the third one fails.
recovers :
    build_pipelines_with_recovery llb evaluate new_pipeline_builder []
      (make (("B", "2") ∷ ("A", "1") ∷ []) ∷ skipped ∷ broken ∷ [])
    ≡ record {
      state =
          (shell
              "set -e \n[ -d '/home/build' ] || mkdir -p '/home/build'\ncd '/home/build'\nmake\nexit 0"
            ∷ dir "/home/build"
            ∷ user "root"
            ∷ add_env "A" "1"
            ∷ add_env "B" "2"
            ∷ add_env "HOME" "/home/build"
            ∷ add_env "PATH" "/usr/local/sbin:/usr/local/bin:/usr/sbin:/usr/bin:/sbin:/bin"
            ∷ custom_name "make"
            ∷ [])
          ∷ [];
      failure = some (2, at_pipeline 2 (evaluating "broken" "no expression"));
    }
unfolding build_pipelines_with_recovery new_pipeline_builder
recovers = refl

abbrev script : Result BuildError Log → String
script (ok ((args (_ ∷ _ ∷ text ∷ _) ∷ _) ∷ _)) = text
script _ = ""

abbrev tested : Dict String → Result BuildError Log
tested env = build_test_pipelines llb evaluate (λ n. "0") new_pipeline_builder [] (make env ∷ [])

-- The script of the tests depends on the order in which the environment is visited.
test_order :
    (script (tested (("B", "2") ∷ ("A", "1") ∷ []))
      == script (tested (("A", "1") ∷ ("B", "2") ∷ [])))
    ≡ false
unfolding build_test_pipelines new_pipeline_builder
test_order = refl

build_pipelines_with_recovery-Recovers_example :
    Recovers llb evaluate new_pipeline_builder 0 []
      (make [] ∷ broken ∷ [])
      (build_pipelines_with_recovery llb evaluate new_pipeline_builder [] (make [] ∷ broken ∷ []))
build_pipelines_with_recovery-Recovers_example =
    build_pipelines_with_recovery-Recovers llb evaluate new_pipeline_builder []
      (make [] ∷ broken ∷ [])

a_not_b : ◌==◌ {A = String} "A" "B" ≡ false
a_not_b = refl

two_orders : SameMap (("B", "2") ∷ ("A", "1") ∷ []) (("A", "1") ∷ ("B", "2") ∷ [])
unfolding lookup
two_orders = record {
  left = (refl, (refl, tt));
  right = (refl, (refl, tt));
  same = λ k. ground (
    arith,
    a_not_b,
    ==_iff {A = String} "A" "B",
    ==_iff {A = String} "A" k,
    ==_iff {A = String} "B" k,
  );
}

abbrev builder : PipelineBuilder
builder = record { debug = false; base_env = []; cache_mounts = [] }

build_pipelines_with_recovery-same_example :
    build_pipelines_with_recovery llb evaluate
      (with_env builder (("B", "2") ∷ ("A", "1") ∷ []))
      []
      (make (("B", "2") ∷ ("A", "1") ∷ []) ∷ [])
    ≡ build_pipelines_with_recovery llb evaluate
        (with_env builder (("A", "1") ∷ ("B", "2") ∷ []))
        []
        (make (("A", "1") ∷ ("B", "2") ∷ []) ∷ [])
build_pipelines_with_recovery-same_example =
    build_pipelines_with_recovery-same llb evaluate builder [] two_orders
      (one_more (same_pipeline (step_of "" "make" []) two_orders same_nil) none_left)

read_word-env_exports_example :
    (env_exports (("MOTTO", "it's") ∷ [])
      ≡ ("export " <> ("MOTTO" <> String.◌∷◌ "=" (word_of "it's"))) <> env_exports [])
    × (read_word bare (word_of "it's") ≡ some "it's")
read_word-env_exports_example = read_word-env_exports "MOTTO" "it's" []
