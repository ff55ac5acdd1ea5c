-- ===== src/Llb/Determinism.antt =====
-- The operations do not depend on the order in which Go visits a map.
use melange.Prelude.{
  ℕ, suc, ◌≡◌, refl, sym, ap, ◌∙◌, inl, inr, Bool, true, false, List, [], ◌∷◌, ◌++◌, none, some,
  String, Result, ok, err, arith, if◌then◌else◌, ◌==◌, string_eq, Result-cases,
}
use melange.Prelude.Sorting.{sort_texts, sort_texts-same}
use melange.Prelude.Maps.{
  Dict, lookup, overlay, or_below, lookup-overlay, overlay-DistinctKeys, DistinctKeys, keys,
  has_key, contains-keys, keys-Distinct,
}
use melange.Llb.Defs.{
  Llb, RunOption, Step, Pipeline, pipeline, Pipelines, nil, cons, BuildError, nested,
  PipelineBuilder,
}
use melange.Llb.Env.{or_empty, add_envs, sorted_env_opts, merge_from, merge_env}
use melange.Llb.Mounts.{cache_mount_options}
use melange.Llb.Workspace.{shell}
use melange.Llb.Pipelines.{
  build_script, work_dir_of, pipeline_name, run_options, should_run, run_step, build_pipeline,
  build_nested, build_from, build_pipelines_with_recovery,
}

-- Two lists of one map: each has every key once, and they have the same values.
pub record SameMap (m l : Dict String) : Type 0 where
  pub left : DistinctKeys m
  pub right : DistinctKeys l
  pub same : (k : String) → lookup k m ≡ lookup k l

add_envs-same :
    (m l : Dict String) (ks : List String)
    → ((k : String) → lookup k m ≡ lookup k l)
    → add_envs m ks ≡ add_envs l ks
unfolding add_envs
add_envs-same m l [] h = refl
add_envs-same m l (k ∷ ks) h =
    ap (λ o. RunOption.add_env k (or_empty o) ∷ add_envs m ks) (h k)
    ∙ ap (λ r. RunOption.add_env k (or_empty (lookup k l)) ∷ r) (add_envs-same m l ks h)

has_key-same :
    (m l : Dict String) (k : String) → lookup k m ≡ lookup k l → has_key m k ≡ has_key l k
has_key-same m l k h = ap (λ o. elim o [ none ↦ false | some _ ↦ true ]) h

sorted_env_opts-same : {m l : Dict String} → SameMap m l → sorted_env_opts m ≡ sorted_env_opts l
unfolding sorted_env_opts
sorted_env_opts-same {m} {l} h =
    ap (add_envs m) (
      sort_texts-same (keys m) (keys l) (keys-Distinct m h.left) (keys-Distinct l h.right)
        (λ a. contains-keys m a ∙ has_key-same m l a (h.same a) ∙ sym (contains-keys l a)))
    ∙ add_envs-same m l (sort_texts (keys l)) h.same

merged-same :
    {m l e f : Dict String}
    → SameMap m l
    → SameMap e f
    → SameMap (merge_env (m ∷ e ∷ [])) (merge_env (l ∷ f ∷ []))
unfolding merge_env merge_from lookup
merged-same {m} {l} {e} {f} h k = record {
  left = overlay-DistinctKeys (overlay [] m) e (overlay-DistinctKeys [] m tt);
  right = overlay-DistinctKeys (overlay [] l) f (overlay-DistinctKeys [] l tt);
  same = λ i.
      lookup-overlay i (overlay [] m) e k.left
      ∙ ap (or_below (lookup i e)) (lookup-overlay i [] m h.left)
      ∙ ap (λ o. or_below o (or_below (lookup i m) none)) (k.same i)
      ∙ ap (λ o. or_below (lookup i f) (or_below o none)) (h.same i)
      ∙ sym (
          lookup-overlay i (overlay [] l) f k.right
          ∙ ap (or_below (lookup i f)) (lookup-overlay i [] l h.right));
}

-- Pipelines that differ only in the orders of their environments.
mutual
  pub data SamePipeline : Pipeline → Pipeline → Type 0 where
    same_pipeline :
        (p : Step) {e f : Dict String} {ps qs : Pipelines}
        → SameMap e f
        → SamePipelines ps qs
        → SamePipeline
            (pipeline (record p { environment = e }) ps)
            (pipeline (record p { environment = f }) qs)

  pub data SamePipelines : Pipelines → Pipelines → Type 0 where
    same_nil : SamePipelines nil nil
    same_cons :
        {p q : Pipeline} {ps qs : Pipelines}
        → SamePipeline p q
        → SamePipelines ps qs
        → SamePipelines (cons p ps) (cons q qs)

pub data SameList : List Pipeline → List Pipeline → Type 0 where
  none_left : SameList [] []
  one_more :
      {p q : Pipeline} {ps qs : List Pipeline}
      → SamePipeline p q
      → SameList ps qs
      → SameList (p ∷ ps) (q ∷ qs)

-- A builder, with the given order of its environment.
abbrev pub with_env : PipelineBuilder → Dict String → PipelineBuilder
with_env b m = record b { base_env = m }

module _ {S : Type 0} (llb : Llb S) (evaluate : String → Result String Bool) where
  run_step-same :
      (b : PipelineBuilder) (base : S) (p : Step) {m l e f : Dict String}
      → SameMap m l
      → SameMap e f
      → run_step llb evaluate (with_env b m) base (record p { environment = e })
        ≡ run_step llb evaluate (with_env b l) base (record p { environment = f })
  unfolding run_step run_options work_dir_of pipeline_name
  run_step-same b base p {m} {l} {e} {f} h k =
      ap
        (λ env.
          if p.runs == ""
          then base
          else llb.run
              (shell (build_script b.debug p.runs (work_dir_of p))
                ∷ RunOption.dir (work_dir_of p)
                ∷ RunOption.user "root"
                ∷ (env
                    ++ (cache_mount_options b.cache_mounts
                        ++ (if pipeline_name p == ""
                            then []
                            else RunOption.custom_name (pipeline_name p) ∷ []))))
              base)
        (sorted_env_opts-same (merged-same h k))

  -- The rest of the nested pipelines, from the result of the first.
  abbrev after_first : PipelineBuilder → ℕ → Pipelines → Result BuildError S → Result BuildError S
  after_first b i ps (err e) = err (nested i e)
  after_first b i ps (ok state) = build_nested llb evaluate b (suc i) state ps

  build_nested-after_first :
      (b : PipelineBuilder) (i : ℕ) (base : S) (p : Pipeline) (ps : Pipelines)
      → build_nested llb evaluate b i base (cons p ps)
        ≡ after_first b i ps (build_pipeline llb evaluate b base p)
  unfolding build_pipeline
  build_nested-after_first b i base p ps =
      elim (Result-cases (build_pipeline llb evaluate b base p)) [
        | inl (e, failed) ↦ ground (arith, failed)
        | inr (state, went) ↦ ground (arith, went)
      ]

  after-same :
      (b : PipelineBuilder) (i : ℕ) (m l : Dict String) (ps qs : Pipelines)
      → ((s : S)
          → build_nested llb evaluate (with_env b m) (suc i) s ps
            ≡ build_nested llb evaluate (with_env b l) (suc i) s qs)
      → (r : Result BuildError S)
      → after_first (with_env b m) i ps r ≡ after_first (with_env b l) i qs r
  after-same b i m l ps qs h (err e) = refl
  after-same b i m l ps qs h (ok state) = h state

  mutual
    unfolding build_pipeline should_run

    build_pipeline-same :
        (b : PipelineBuilder) (base : S) {m l : Dict String} {p q : Pipeline}
        → SameMap m l
        → SamePipeline p q
        → build_pipeline llb evaluate (with_env b m) base p
          ≡ build_pipeline llb evaluate (with_env b l) base q
    build_pipeline-same b base {m} {l} h (same_pipeline p {e} {f} {ps} {qs} k t) =
        ap {A = Result BuildError S}
          (λ x. elim (should_run evaluate p) as (λ r. Result BuildError S) [
            | err e ↦ err e
            | ok runs ↦ elim runs as (λ r. Result BuildError S) [ false ↦ ok base | true ↦ x ]
          ])
          (build_nested-same b 0
              (run_step llb evaluate (with_env b m) base (record p { environment = e }))
              (merged-same h k) t
            ∙ ap (λ s. build_nested llb evaluate (with_env b (merge_env (l ∷ f ∷ []))) 0 s qs)
                (run_step-same b base p h k))

    build_nested-same :
        (b : PipelineBuilder) (i : ℕ) (base : S) {m l : Dict String} {ps qs : Pipelines}
        → SameMap m l
        → SamePipelines ps qs
        → build_nested llb evaluate (with_env b m) i base ps
          ≡ build_nested llb evaluate (with_env b l) i base qs
    build_nested-same b i base h same_nil = refl
    build_nested-same b i base {m} {l} h (same_cons {p} {q} {ps} {qs} s t) =
        build_nested-after_first (with_env b m) i base p ps
        ∙ ap (after_first (with_env b m) i ps) (build_pipeline-same b base h s)
        ∙ after-same b i m l ps qs (λ state. build_nested-same b (suc i) state h t)
            (build_pipeline llb evaluate (with_env b l) base q)
        ∙ sym (build_nested-after_first (with_env b l) i base q qs)

  build_from-same :
      (b : PipelineBuilder) (i : ℕ) (base : S) {m l : Dict String} {ps qs : List Pipeline}
      → SameMap m l
      → SameList ps qs
      → build_from llb evaluate (with_env b m) i base ps
        ≡ build_from llb evaluate (with_env b l) i base qs
  unfolding build_from
  build_from-same b i base h none_left = refl
  build_from-same b i base {m} {l} h (one_more {p} {q} {ps} {qs} s t) =
      let first = build_pipeline-same b base h s in
      elim (Result-cases (build_pipeline llb evaluate (with_env b l) base q)) [
        | inl (e, failed) ↦ rw (first ∙ failed, failed, build_from) refl
        | inr (state, went) ↦
            rw (first ∙ went, went, build_from) (build_from-same b (suc i) state h t)
      ]

  -- Pipelines that differ only in the orders in which their environments are visited, built by builders
  -- that differ only in the order of theirs, give the same result: the same state, and the same failure.
  pub build_pipelines_with_recovery-same :
      (b : PipelineBuilder) (base : S) {m l : Dict String} {ps qs : List Pipeline}
      → SameMap m l
      → SameList ps qs
      → build_pipelines_with_recovery llb evaluate (with_env b m) base ps
        ≡ build_pipelines_with_recovery llb evaluate (with_env b l) base qs
  unfolding build_pipelines_with_recovery
  build_pipelines_with_recovery-same b base h t = build_from-same b 0 base h t
