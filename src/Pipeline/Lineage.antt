-- ===== src/Pipeline/Lineage.antt =====
-- The lineage that `PipelineRunner.run` records (voclyp/pipeline/base.py).
use text.Mathlib.TextPositions.{eq_refl}
use voclyp_dev.Prelude.{
  ◌≡◌, refl, ◌∙◌, String, false, some, List, [], ◌∷◌, ◌++◌, map, arith, member, lookup, insert,
  lookup-insert,
}
use voclyp_dev.Pipeline.{Stage, run_pipeline}

module _ {ℓ} {Ctx : Type ℓ} where
  run_pipeline-append :
      (xs ys : List (Stage Ctx)) (c : Ctx) (v : List (String × String))
      → run_pipeline (xs ++ ys) (c, v) ≡ run_pipeline ys (run_pipeline xs (c, v))
  unfolding run_pipeline
  run_pipeline-append [] ys c v = refl
  run_pipeline-append (x ∷ xs) ys c v =
      run_pipeline-append xs ys (x.run c) (insert x.name x.version v)

  -- A stage of another name leaves a recorded version alone.
  lookup-run_pipeline :
      (stages : List (Stage Ctx)) (k : String) (c : Ctx) (v : List (String × String))
      → member k (map Stage.name stages) ≡ false
      → lookup k (run_pipeline stages (c, v)).1 ≡ lookup k v
  unfolding run_pipeline
  lookup-run_pipeline [] k c v h = refl
  lookup-run_pipeline (s ∷ stages) k c v h = ground (
    arith,
    lookup-run_pipeline stages k (s.run c) (insert s.name s.version v),
    lookup-insert s.name k s.version v,
  )

  -- When no later stage has its name, the version recorded for a stage after a run is its own.
  pub recorded_version :
      (before after : List (Stage Ctx)) (s : Stage Ctx) (c : Ctx) (v : List (String × String))
      → member s.name (map Stage.name after) ≡ false
      → lookup s.name (run_pipeline (before ++ s ∷ after) (c, v)).1 ≡ some s.version
  unfolding run_pipeline
  recorded_version [] after s c v h =
      lookup-run_pipeline after s.name (s.run c) (insert s.name s.version v) h
      ∙ (rw lookup-insert (rw (eq_refl s.name)))
  recorded_version (b ∷ before) after s c v h =
      recorded_version before after s (b.run c) (insert b.name b.version v) h
