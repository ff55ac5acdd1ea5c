-- ===== src/Llb/Scripts.antt =====
-- The test pipelines, as one run of one script. An environment is visited in the order of its list,
-- and `decimal` is the text of a number.
use melange.Prelude.{
  ℕ, suc, Bool, true, false, List, [], ◌∷◌, ◌++◌, String, Result, ok, err, if◌then◌else◌, ◌==◌,
  string_eq,
}
use melange.Prelude.Text.{◌<>◌}
use melange.Prelude.Maps.{Dict, overlay}
use melange.Llb.Defs.{
  Llb, RunOption, dir, user, custom_name, Step, Pipeline, pipeline, Pipelines, nil, cons,
  BuildError, nested, at_pipeline, PipelineBuilder, default_work_dir, build_user_name,
}
use melange.Llb.Env.{sorted_env_opts}
use melange.Llb.Mounts.{cache_mount_options}
use melange.Llb.Workspace.{shell}
use melange.Llb.Pipelines.{should_run, work_dir_of, pipeline_name}

-- `strings.ReplaceAll(v, "'", "'\"'\"'")`
unfoldable pub escape_quotes : String → String
escape_quotes String.[] = ""
escape_quotes (String.◌∷◌ c s) =
    let rest = escape_quotes s in
    if String.◌∷◌ c "" == "'" then "'\"'\"'" <> rest else String.◌∷◌ c rest

unfoldable pub env_exports : Dict String → String
unfolding escape_quotes
env_exports [] = ""
env_exports ((k, v) ∷ env) =
    ("export " <> (k <> ("='" <> (escape_quotes v <> "'\n")))) <> env_exports env

unfoldable pub step_name : (ℕ → String) → Step → ℕ → String
unfolding pipeline_name
step_name decimal p index =
    if pipeline_name p == "" then "step " <> decimal index else pipeline_name p

-- The script of a step, from its own text and its nested scripts; an empty one is left out.
unfoldable pub step_script : (ℕ → String) → Bool → Step → ℕ → String → String
unfolding env_exports step_name work_dir_of
step_script decimal debug p index nested_scripts =
    let full =
      env_exports p.environment
      <> ((if p.runs == "" then "" else p.runs <> "\n") <> nested_scripts) in
    let workdir = work_dir_of p in
    if full == ""
    then ""
    else ("\n# Test step: " <> (step_name decimal p index <> "\n(\n  set -e"))
      <> ((if debug then "x" else " ")
          <> ("\n  [ -d '"
              <> (workdir
                  <> ("' ] || mkdir -p '"
                      <> (workdir <> ("'\n  cd '" <> (workdir <> ("'\n" <> (full <> "\n)\n")))))))))

unfoldable pub with_nested :
    (ℕ → String) → PipelineBuilder → Step → ℕ → Result BuildError String → Result BuildError String
unfolding step_script
with_nested decimal b p index (err e) = err e
with_nested decimal b p index (ok scripts) = ok (step_script decimal b.debug p index scripts)

abbrev pub is_nil : Pipelines → Bool
is_nil nil = true
is_nil (cons p ps) = false

abbrev pub line_or_nothing : String → String
line_or_nothing s = if s == "" then "" else s <> "\n"

module _ (evaluate : String → Result String Bool) (decimal : ℕ → String) where
  unfoldable mutual
    unfolding should_run with_nested

    pub build_test_pipeline_script : PipelineBuilder → Pipeline → ℕ → Result BuildError String
    build_test_pipeline_script b (pipeline p ps) index = elim (should_run evaluate p) [
      | err e ↦ err e
      | ok runs ↦
          let scripts = nested_test_scripts b ps 0 in
          if runs
          then if p.runs == ""
            then if is_nil ps then ok "" else with_nested decimal b p index scripts
            else with_nested decimal b p index scripts
          else ok ""
    ]

    -- The nested scripts, each with a line end.
    pub nested_test_scripts : PipelineBuilder → Pipelines → ℕ → Result BuildError String
    nested_test_scripts b nil i = ok ""
    nested_test_scripts b (cons p ps) i = elim (build_test_pipeline_script b p i) [
      | err e ↦ err (nested i e)
      | ok script ↦ elim (nested_test_scripts b ps (suc i)) [
        | err e ↦ err e
        | ok rest ↦ ok (line_or_nothing script <> rest)
      ]
    ]

  -- The scripts that are not empty.
  unfoldable pub collect_scripts :
      PipelineBuilder → List Pipeline → ℕ → Result BuildError (List String)
  unfolding build_test_pipeline_script
  collect_scripts b [] i = ok []
  collect_scripts b (p ∷ ps) i = elim (build_test_pipeline_script b p i) [
    | err e ↦ err (at_pipeline i e)
    | ok script ↦ elim (collect_scripts b ps (suc i)) [
      | err e ↦ err e
      | ok scripts ↦ ok (if script == "" then scripts else script ∷ scripts)
    ]
  ]

unfoldable pub join_scripts : List String → String
join_scripts [] = "exit 0\n"
join_scripts (s ∷ ss) = s <> ("\n" <> join_scripts ss)

unfoldable pub build_combined_test_script : List String → String
unfolding join_scripts
build_combined_test_script scripts = "set -e\n" <> join_scripts scripts

unfoldable pub test_options : PipelineBuilder → List String → List RunOption
unfolding build_combined_test_script overlay sorted_env_opts cache_mount_options
test_options b scripts =
    shell (build_combined_test_script scripts)
    ∷ dir default_work_dir
    ∷ user build_user_name
    ∷ (sorted_env_opts (overlay [] b.base_env)
        ++ (cache_mount_options b.cache_mounts ++ custom_name "run test pipelines" ∷ []))

module _ {S : Type 0} (llb : Llb S) (evaluate : String → Result String Bool)
    (decimal : ℕ → String) where
  unfoldable pub build_test_pipelines : PipelineBuilder → S → List Pipeline → Result BuildError S
  unfolding collect_scripts test_options
  build_test_pipelines b base ps = elim (collect_scripts evaluate decimal b ps 0) [
    | err e ↦ err e
    | ok [] ↦ ok base
    | ok (s ∷ ss) ↦ ok (llb.run (test_options b (s ∷ ss)) base)
  ]
