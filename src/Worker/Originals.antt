-- ===== src/Worker/Originals.antt =====
-- What a retry needs is still there (voclyp/worker.py, `_stage_audio`).
use voclyp_dev.Prelude.{
  ℕ, ◌+◌, String, ◌≡◌, refl, sym, ◌∙◌, inl, inr, Bool, Bool-cases, Option-cases, true, false,
  Option, none, some, List, [], ◌∷◌, Text, str_eq, eq_iff, lookup, insert, lookup-insert, delete,
  subst, member,
}
use voclyp_dev.Queue.{Lease, Status, pending, leased, done, dead, dequeue, fail}
use voclyp_dev.Contracts.Context.{Context}
use voclyp_dev.Worker.{
  World, after_failure, Tick, Site, Outcome, idle, stored, returned, dead_lettered, Files, give_up,
  finish, after_stages, Fault, saving, deleting, closing, metering, using, auditing_audio,
  auditing_insight, dispatching, delivering, completing, finish_unless, done_before, run_job,
  run_stages, take_job, process_one, stage_audio, stage_from, and_staged,
}
use voclyp_dev.Worker.Start.{context_of}
use voclyp_dev.Worker.Spares.{lookup-delete_other, AllSpare, run_stages-kept}

-- Nothing raises once the originals are being deleted.
abbrev pub spares_originals : Option Fault → Bool
spares_originals none = true
spares_originals (some saving) = true
spares_originals (some _) = false

-- The job was not processed.
abbrev pub is_failure : Outcome → Bool
is_failure idle = false
is_failure (stored doc) = false
is_failure returned = true
is_failure dead_lettered = true

module _ (w : World) (p : String) (outside : (c : String) → w.in_work c p ≡ false)
    (inside : (c : String) (i : ℕ) → w.in_work c (w.work_path c i) ≡ true) where
  not_staged : (c : String) (i : ℕ) → str_eq (w.work_path c i) p ≡ false
  not_staged c i = elim (Bool-cases (str_eq (w.work_path c i) p)) [
    | inr other ↦ other
    | inl same ↦ cc (
      outside c,
      subst (λ x. w.in_work c x ≡ true) ((eq_iff (w.work_path c i) p).0 same) (inside c i),
    )
  ]

  -- The staged paths do not include it.
  abbrev Unstaged : Files → Files × Option (List String) → Type 0
  Unstaged files (left, none) = lookup p left ≡ lookup p files
  Unstaged files (left, some paths) = (lookup p left ≡ lookup p files) × (member p paths ≡ false)

  Unstaged-weaken :
      (files files' : Files) (r : Files × Option (List String))
      → lookup p files' ≡ lookup p files
      → Unstaged files' r
      → Unstaged files r
  Unstaged-weaken files files' (left, none) same h = h ∙ same
  Unstaged-weaken files files' (left, some paths) same h = (h.0 ∙ same, h.1)

  and_staged-Unstaged :
      (i : ℕ) (c : String) (files : Files) (r : Files × Option (List String))
      → Unstaged files r
      → Unstaged files (and_staged (w.work_path c i) r)
  unfolding and_staged
  and_staged-Unstaged i c files (left, none) h = h
  and_staged-Unstaged i c files (left, some paths) h = (h.0, rw (not_staged c i, h.1) refl)

  Unstaged-insert :
      (c : String) (i : ℕ) (bytes : Text) (files : Files) (r : Files × Option (List String))
      → Unstaged (insert (w.work_path c i) bytes files) r
      → Unstaged files r
  Unstaged-insert c i bytes files (left, none) h =
      h ∙ (lookup-insert (w.work_path c i) p bytes files ∙ rw (not_staged c i) refl)
  Unstaged-insert c i bytes files (left, some paths) h =
      (h.0 ∙ (lookup-insert (w.work_path c i) p bytes files ∙ rw (not_staged c i) refl), h.1)

  stage_from-Unstaged :
      (i : ℕ) (c : String) (paths : List String) (files : Files)
      → Unstaged files (stage_from w i c paths files)
  unfolding stage_from
  stage_from-Unstaged i c [] files = (refl, refl)
  stage_from-Unstaged i c (path ∷ paths) files = elim (Option-cases (lookup path files)) [
    | inl missing ↦
        let alone : stage_from w i c (path ∷ paths) files ≡ (files, none) =
          rw (stage_from, missing) refl in
        subst (Unstaged files) (sym alone) refl
    | inr (bytes, there) ↦
        let rest = stage_from w (i + 1) c paths (insert (w.work_path c i) bytes files) in
        let more : stage_from w i c (path ∷ paths) files ≡ and_staged (w.work_path c i) rest =
          rw (stage_from, there) refl in
        subst (Unstaged files) (sym more) (
          and_staged-Unstaged i c files rest (
            Unstaged-insert c i bytes files rest
              (stage_from-Unstaged (i + 1) c paths (insert (w.work_path c i) bytes files))))
  ]

  -- What is known of each outcome: a job that failed has left the file alone.
  abbrev Kept : Files → Site × Outcome → Type 0
  Kept files (s, idle) = lookup p s.files ≡ lookup p files
  Kept files (s, stored doc) = Unit
  Kept files (s, returned) = lookup p s.files ≡ lookup p files
  Kept files (s, dead_lettered) = lookup p s.files ≡ lookup p files

  Kept-after_failure :
      (files : Files) (s : Site) (status : Status)
      → lookup p s.files ≡ lookup p files
      → Kept files (s, after_failure status)
  Kept-after_failure files s pending h = h
  Kept-after_failure files s leased h = h
  Kept-after_failure files s done h = h
  Kept-after_failure files s dead h = h

  Kept-failure :
      (files : Files) (s : Site) (o : Outcome)
      → is_failure o ≡ true
      → Kept files (s, o)
      → lookup p s.files ≡ lookup p files
  Kept-failure files s idle f h = h
  Kept-failure files s (stored doc) f h = cc f
  Kept-failure files s returned f h = h
  Kept-failure files s dead_lettered f h = h

  module _ (spare : AllSpare w p) (tick : Tick) (early : spares_originals tick.fault ≡ true) where
    give_up-Kept :
        (l : Lease) (s : Site) (files : Files)
        → lookup p s.files ≡ lookup p files
        → Kept files (give_up w tick l s)
    unfolding give_up
    give_up-Kept l s files h =
        Kept-after_failure files (give_up w tick l s).0 (fail tick.now l.id l.attempts s.queue).1 h

    finish-Kept :
        (fault : Option Fault) (l : Lease) (ctx : Context) (s : Site) (files : Files)
        → spares_originals fault ≡ true
        → lookup p s.files ≡ lookup p files
        → Kept files (finish_unless w fault tick l ctx s)
    unfolding finish_unless done_before
    finish-Kept none l ctx s files e h = tt
    finish-Kept (some saving) l ctx s files e h = give_up-Kept l s files h
    finish-Kept (some (deleting n bytes)) l ctx s files e h = cc e
    finish-Kept (some closing) l ctx s files e h = cc e
    finish-Kept (some metering) l ctx s files e h = cc e
    finish-Kept (some using) l ctx s files e h = cc e
    finish-Kept (some auditing_audio) l ctx s files e h = cc e
    finish-Kept (some auditing_insight) l ctx s files e h = cc e
    finish-Kept (some dispatching) l ctx s files e h = cc e
    finish-Kept (some (delivering n)) l ctx s files e h = cc e
    finish-Kept (some completing) l ctx s files e h = cc e

    after_stages-Kept :
        (l : Lease) (o : Option Context) (s : Site) (files : Files)
        → lookup p s.files ≡ lookup p files
        → Kept files (after_stages w tick l o s)
    unfolding after_stages finish
    after_stages-Kept l none s files h = give_up-Kept l s files h
    after_stages-Kept l (some ctx) s files h = finish-Kept tick.fault l ctx s files early h

    run_job-Kept :
        (l : Lease) (r : Files × Option (List String)) (s : Site) (files : Files)
        → Unstaged files r
        → Kept files (run_job w tick l r s)
    unfolding run_job context_of
    run_job-Kept l (left, none) s files h = give_up-Kept l (record s { files = left }) files h
    run_job-Kept l (left, some paths) s files h =
        let ran =
          run_stages (w.pipeline_for l.payload.industry) (context_of l paths s.directory) left in
        after_stages-Kept l ran.1 (record s { files = ran.0 }) files
          (run_stages-kept p (w.pipeline_for l.payload.industry) (context_of l paths s.directory)
              left (spare l.payload.industry) h.1
            ∙ h.0)

    take_job-Kept : (o : Option Lease) (s : Site) → Kept s.files (take_job w tick o s)
    unfolding take_job stage_audio
    take_job-Kept none s = refl
    take_job-Kept (some l) s =
        let cleared =
          lookup-delete_other p (λ e. w.in_work l.conversation_id e.0) s.files
            (λ b. outside l.conversation_id) in
        run_job-Kept l _ s s.files (
          Unstaged-weaken s.files _ (stage_audio w l.conversation_id l.payload.audio_paths s.files)
            cleared
            (stage_from-Unstaged 0 l.conversation_id l.payload.audio_paths
              (delete (λ e. w.in_work l.conversation_id e.0) s.files)))

  -- When the worker could not process a job, whether it is to be tried again or is dead, because the
  -- audio could not be staged, a stage raised or the insight could not be saved, every audio original
  -- is as it was, where originals are not in a work directory, staged copies are, and no stage touches
  -- a file that its context does not name.
  pub process_one-kept :
      (spare : AllSpare w p) (tick : Tick) (s s' : Site) (o : Outcome)
      → spares_originals tick.fault ≡ true
      → process_one w tick s ≡ (s', o)
      → is_failure o ≡ true
      → lookup p s'.files ≡ lookup p s.files
  unfolding process_one
  process_one-kept spare tick s s' o early h f =
      let (queue, l) = dequeue tick.now s.queue in
      Kept-failure s.files s' o f
        (subst (Kept s.files) h (take_job-Kept spare tick early l (record s { queue = queue })))
