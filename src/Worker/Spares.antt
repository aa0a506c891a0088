-- ===== src/Worker/Spares.antt =====
-- Stages that leave alone what they were not given (voclyp/worker.py), and the stage that destroys
-- audio (voclyp/pipeline/stages/audio_delete.py).
use voclyp_dev.Prelude.{
  ℕ, String, ◌≡◌, refl, sym, ◌∙◌, inl, inr, Bool, Bool-cases, false, Option, none, some, List, [],
  ◌∷◌, arith, Text, str_eq, eq_iff, lookup, delete, All, subst, member, map,
}
use voclyp_dev.Pipeline.{run_pipeline}
use voclyp_dev.Contracts.Context.{Context}
use voclyp_dev.Worker.{
  World, Work, Files, at_path, delete_file, delete_files, run_stages, stage_of, run_stage,
}

-- `AudioDeletion.run`
unfoldable pub audio_deletion : ℕ → Work
audio_deletion now = record {
  name = "audio_deletion";
  version = "1.1";
  run = λ ctx files.
      (delete_files ctx.audio_paths files, some (record ctx { audio_deleted_at = some now }));
}

-- The context, if there is one, does not name the path.
abbrev pub Without : String → Option Context → Type 0
Without p none = Unit
Without p (some ctx) = member p ctx.audio_paths ≡ false

-- The stage was not given the path: it leaves the file alone, and does not hand the path on.
abbrev pub Spares : String → Work → Type 0
Spares p stage =
    (ctx : Context) (files : Files)
    → member p ctx.audio_paths ≡ false
    → (lookup p (stage.run ctx files).0 ≡ lookup p files) × Without p (stage.run ctx files).1

pub lookup-delete_other :
    (p : String) (q : String × Text → Bool) (files : Files)
    → ((bytes : Text) → q (p, bytes) ≡ false)
    → lookup p (delete q files) ≡ lookup p files
lookup-delete_other p q [] h = refl
lookup-delete_other p q ((k, v) ∷ files) h = elim (Bool-cases (str_eq k p)) [
  | inl same ↦
      let kept : q (k, v) ≡ false =
        subst (λ x. q (x, v) ≡ false) (sym ((eq_iff k p).0 same)) (h v) in
      rw (kept, same) refl
  | inr other ↦ elim (Bool-cases (q (k, v))) [
    | inl gone ↦ rw (gone, other) (lookup-delete_other p q files h)
    | inr kept ↦ rw (kept, other) (lookup-delete_other p q files h)
  ]
]

lookup-delete_files_other :
    (p : String) (paths : List String) (files : Files)
    → member p paths ≡ false
    → lookup p (delete_files paths files) ≡ lookup p files
unfolding delete_files
lookup-delete_files_other p [] files h = refl
lookup-delete_files_other p (k ∷ paths) files h =
    lookup-delete_files_other p paths (delete_file k files) (ground arith)
    ∙ lookup-delete_other p (at_path k) files (λ bytes. ground (arith, eq_iff p k, eq_iff k p))

-- The stage that destroys the audio destroys what it was given only.
pub audio_deletion-Spares : (now : ℕ) (p : String) → Spares p (audio_deletion now)
unfolding audio_deletion
audio_deletion-Spares now p ctx files h = (lookup-delete_files_other p ctx.audio_paths files h, h)

module _ (p : String) (files : Files) where
  -- The file is as it was, and the context does not name it.
  abbrev Spared : Files × Option Context → Type 0
  Spared (left, o) = (lookup p left ≡ lookup p files) × Without p o

  run_stage-Spared :
      (stage : Work) (s : Files × Option Context)
      → Spares p stage
      → Spared s
      → Spared (run_stage stage s)
  unfolding run_stage
  run_stage-Spared stage (left, none) k h = h
  run_stage-Spared stage (left, some ctx) k h =
      let (kept, rest) = k ctx left h.1 in (kept ∙ h.0, rest)

  run_pipeline-Spared :
      (stages : List Work) (s : Files × Option Context) (versions : List (String × String))
      → All (Spares p) stages
      → Spared s
      → Spared (run_pipeline (map stage_of stages) (s, versions)).0
  unfolding run_pipeline
  run_pipeline-Spared [] s versions k h = h
  run_pipeline-Spared (stage ∷ stages) s versions k h =
      run_pipeline-Spared stages (run_stage stage s) _ k.1 (run_stage-Spared stage s k.0 h)

abbrev pub AllSpareIn : String → Option (List Work) → Type 0
AllSpareIn p none = Unit
AllSpareIn p (some stages) = All (Spares p) stages

-- The stages of every industry spare the path, if they have a pipeline.
abbrev pub AllSpare : World → String → Type 0
AllSpare w p = (industry : String) → AllSpareIn p (w.pipeline_for industry)

pub run_stages-kept :
    (p : String) (o : Option (List Work)) (ctx : Context) (files : Files)
    → AllSpareIn p o
    → member p ctx.audio_paths ≡ false
    → lookup p (run_stages o ctx files).0 ≡ lookup p files
unfolding run_stages
run_stages-kept p none ctx files k h = refl
run_stages-kept p (some stages) ctx files k h =
    (run_pipeline-Spared p files stages (files, some ctx) [] k (refl, h)).0
