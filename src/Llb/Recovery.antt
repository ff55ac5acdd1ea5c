-- ===== src/Llb/Recovery.antt =====
-- What `BuildPipelinesWithRecovery` returns when a pipeline fails.
use melange.Prelude.{
  ℕ, suc, ◌+◌, ◌≡◌, refl, ap, ◌∙◌, ◌⊎◌, inl, inr, Bool, List, [], ◌∷◌, ◌++◌, none, some, String,
  Result, ok, err, arith, length, Result-cases,
}
use melange.Llb.Defs.{Llb, Pipeline, BuildError, at_pipeline, PipelineBuilder, PipelineResult}
use melange.Llb.Pipelines.{build_pipeline, build_from, build_pipelines_with_recovery}

module _ {S : Type 0} (llb : Llb S) (evaluate : String → Result String Bool)
    (b : PipelineBuilder) where
  -- Each pipeline succeeds on the state that the one before it leaves.
  pub data Runs : S → List Pipeline → S → Type 0 where
    done : {s : S} → Runs s [] s
    step :
        {s t u : S} {p : Pipeline} {ps : List Pipeline}
        → build_pipeline llb evaluate b s p ≡ ok t
        → Runs t ps u
        → Runs s (p ∷ ps) u

  -- The pipelines all succeed, or the first that fails stands behind those that succeed.
  abbrev pub Recovers : ℕ → S → List Pipeline → PipelineResult S → Type 0
  Recovers i base ps r =
      ((r.failure ≡ none) × Runs base ps r.state)
      ⊎ ((before : List Pipeline) × (p : Pipeline) × (after : List Pipeline) × (e : BuildError)
          × (ps ≡ before ++ p ∷ after)
          × Runs base before r.state
          × (build_pipeline llb evaluate b r.state p ≡ err e)
          × (r.failure ≡ some (i + length before, at_pipeline (i + length before) e)))

  build_from-Recovers :
      (i : ℕ) (base : S) (ps : List Pipeline)
      → Recovers i base ps (build_from llb evaluate b i base ps)
  unfolding build_from
  build_from-Recovers i base [] = inl (refl, done)
  build_from-Recovers i base (p ∷ ps) = elim (Result-cases (build_pipeline llb evaluate b base p)) [
    | inl (e, failed) ↦
        rw (failed, build_from)
          (inr
            ([], p, ps, e, refl, done, failed, ap (λ n. some (n, at_pipeline n e)) (omega arith)))
    | inr (t, went) ↦
        rw (went, build_from)
          (elim (build_from-Recovers (suc i) t ps) [
            | inl (fine, runs) ↦ inl (fine, step went runs)
            | inr (before, q, after, e, split, runs, failed, told) ↦ inr (
              p ∷ before,
              q,
              after,
              e,
              ap (λ l. p ∷ l) split,
              step went runs,
              failed,
              told ∙ ap (λ n. some (n, at_pipeline n e)) (omega arith),
            )
          ])
  ]

  -- Building pipelines either succeeds with the state after all of them, and no failure, or fails at the
  -- first pipeline that fails, with its index and its error, and with the state that the pipelines
  -- before it leave, on which it fails.
  pub build_pipelines_with_recovery-Recovers :
      (base : S) (ps : List Pipeline)
      → Recovers 0 base ps (build_pipelines_with_recovery llb evaluate b base ps)
  unfolding build_pipelines_with_recovery
  build_pipelines_with_recovery-Recovers base ps = build_from-Recovers 0 base ps
