-- ===== src/Llb/Pipelines.antt =====
-- The pipelines as runs, one after the other.
use melange.Prelude.{
  ℕ, suc, Bool, true, false, List, [], ◌∷◌, ◌++◌, none, some, String, Result, ok, err,
  if◌then◌else◌, ◌==◌, string_eq,
}
use melange.Prelude.Text.{◌<>◌, join_path, is_abs}
use melange.Llb.Defs.{
  Llb, RunOption, dir, user, custom_name, Step, Pipeline, pipeline, Pipelines, nil, cons,
  BuildError, evaluating, nested, at_pipeline, PipelineBuilder, PipelineResult, default_work_dir,
  build_user_name,
}
use melange.Llb.Env.{merge_env, sorted_env_opts}
use melange.Llb.Mounts.{cache_mount_options}
use melange.Llb.Workspace.{shell}

unfoldable pub build_script : Bool → String → String → String
build_script debug runs workdir =
    ("set -e" <> ((if debug then "x" else " ") <> "\n[ -d '"))
    <> (workdir
        <> ("' ] || mkdir -p '"
            <> (workdir <> ("'\ncd '" <> (workdir <> ("'\n" <> (runs <> "\nexit 0")))))))

unfoldable pub pipeline_name : Step → String
pipeline_name p =
    if p.name == "" then if p.uses == "" then p.label else "uses: " <> p.uses else p.name

unfoldable pub work_dir_of : Step → String
unfolding join_path is_abs
work_dir_of p =
    if p.work_dir == ""
    then default_work_dir
    else if is_abs p.work_dir
    then p.work_dir
    else join_path default_work_dir p.work_dir

unfoldable pub run_options : PipelineBuilder → Step → List RunOption
unfolding build_script work_dir_of merge_env sorted_env_opts cache_mount_options pipeline_name
run_options b p =
    shell (build_script b.debug p.runs (work_dir_of p))
    ∷ dir (work_dir_of p)
    ∷ user build_user_name
    ∷ (sorted_env_opts (merge_env (b.base_env ∷ p.environment ∷ []))
        ++ (cache_mount_options b.cache_mounts
            ++ (if pipeline_name p == "" then [] else custom_name (pipeline_name p) ∷ [])))

-- Whether a step runs: with no condition it does.
unfoldable pub should_run : (String → Result String Bool) → Step → Result BuildError Bool
should_run evaluate p =
    if p.condition == ""
    then ok true
    else elim (evaluate p.condition) [ err e ↦ err (evaluating p.condition e) | ok b ↦ ok b ]

module _ {S : Type 0} (llb : Llb S) (evaluate : String → Result String Bool) where
  -- The step itself.
  unfoldable pub run_step : PipelineBuilder → S → Step → S
  unfolding run_options
  run_step b base p = if p.runs == "" then base else llb.run (run_options b p) base

  abbrev pub child_builder : PipelineBuilder → Step → PipelineBuilder
  unfolding merge_env
  child_builder b p = record b { base_env = merge_env (b.base_env ∷ p.environment ∷ []) }

  unfoldable mutual
    unfolding should_run run_step merge_env

    pub build_pipeline : PipelineBuilder → S → Pipeline → Result BuildError S
    build_pipeline b base (pipeline p ps) = elim (should_run evaluate p) [
      | err e ↦ err e
      | ok runs ↦ elim runs [
        | false ↦ ok base
        | true ↦ build_nested (child_builder b p) 0 (run_step b base p) ps
      ]
    ]

    -- The pipelines inside a pipeline, from the index `i` on.
    pub build_nested : PipelineBuilder → ℕ → S → Pipelines → Result BuildError S
    build_nested b i state nil = ok state
    build_nested b i state (cons p ps) = elim (build_pipeline b state p) [
      | err e ↦ err (nested i e)
      | ok state' ↦ build_nested b (suc i) state' ps
    ]

  unfoldable pub build_from : PipelineBuilder → ℕ → S → List Pipeline → PipelineResult S
  unfolding build_pipeline
  build_from b i state [] = record { state = state; failure = none }
  build_from b i state (p ∷ ps) = elim (build_pipeline b state p) [
    | err e ↦ record { state = state; failure = some (i, at_pipeline i e) }
    | ok state' ↦ build_from b (suc i) state' ps
  ]

  unfoldable pub build_pipelines_with_recovery :
      PipelineBuilder → S → List Pipeline → PipelineResult S
  unfolding build_from
  build_pipelines_with_recovery b base ps = build_from b 0 base ps

  unfoldable pub build_pipelines : PipelineBuilder → S → List Pipeline → Result BuildError S
  unfolding build_pipelines_with_recovery
  build_pipelines b base ps =
      let result = build_pipelines_with_recovery b base ps in
      elim result.failure [ none ↦ ok result.state | some (i, e) ↦ err e ]
