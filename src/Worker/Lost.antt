-- ===== src/Worker/Lost.antt =====
-- A call that raises once the audio is purged (voclyp/worker.py, `process_one`).
use voclyp_dev.Prelude.{
  ℕ, String, ◌≡◌, refl, Bool, true, false, none, some, List, ◌∷◌, lookup, subst, ◌<◌, find, ◌==◌,
  ◌∙◌, ap,
}
use voclyp_dev.Queue.Laws.{fail_status}
use voclyp_dev.Queue.{Job, JobQueue, Lease, Status, pending, leased, done, dead, dequeue, fail}
use voclyp_dev.Contracts.Context.{Context}
use voclyp_dev.Worker.{
  World, Tick, Site, Outcome, Files, after_failure, give_up, finish, after_stages, run_job,
  run_stages, take_job, process_one, stage_audio, stage_from, purge_vault_audio, Fault, saving,
  deleting, closing, metering, using, auditing_audio, auditing_insight, dispatching, delivering,
  completing, finish_unless, done_before, dispatch, dispatch_some,
}
use voclyp_dev.Worker.Start.{context_of}
use voclyp_dev.Worker.Stored.{Gone, lookup-deleted, delete_files-Gone}
use voclyp_dev.Worker.Originals.{is_failure}

-- The audio is purged before the call that raises.
abbrev pub is_late : Fault → Bool
is_late saving = false
is_late (deleting n bytes) = false
is_late _ = true

after_failure-is_failure : (status : Status) → is_failure (after_failure status) ≡ true
after_failure-is_failure pending = refl
after_failure-is_failure leased = refl
after_failure-is_failure done = refl
after_failure-is_failure dead = refl

module _ (w : World) where
  -- What a call that raises too late leaves: the job is handed back, with no original left.
  pub record Lost (now : ℕ) (l : Lease) (q : JobQueue) (r : Site × Outcome) : Type 0 where
    pub failed : is_failure r.1 ≡ true
    pub handed_back : r.0.queue ≡ (fail now l.id l.attempts q).0
    pub again :
        (j : Job)
        → find (λ x. x.id == l.id) q.jobs ≡ some j
        → l.attempts < q.max_attempts
        → find (λ x. x.id == l.id) r.0.queue.jobs
          ≡ some (record j { status = pending; updated_at = now })
    pub originals : Gone l.payload.audio_paths r.0.files
    pub unstaged :
        (c p : String) (paths : List String)
        → l.payload.audio_paths ≡ p ∷ paths
        → (stage_audio w c (p ∷ paths) r.0.files).1 ≡ none

  fail-again :
      (now id attempts : ℕ) (j : Job) (q : JobQueue)
      → find (λ x. x.id == id) q.jobs ≡ some j
      → attempts < q.max_attempts
      → find (λ x. x.id == id) (fail now id attempts q).0.jobs
        ≡ some (record j { status = pending; updated_at = now })
  fail-again now id attempts j q found h =
      let (_, back, stored) = fail_status now id attempts j q found in
      stored ∙ ap (λ status. some (record j { status = status; updated_at = now })) (back.1 h)

  stage_audio-lost :
      (c p : String) (paths : List String) (files : Files)
      → lookup p files ≡ none
      → (stage_audio w c (p ∷ paths) files).1 ≡ none
  unfolding stage_audio
  stage_audio-lost c p paths files h =
      let gone = lookup-deleted (λ e. w.in_work c e.0) p files h in rw (stage_from, gone) refl

  give_up-Lost :
      (tick : Tick) (l : Lease) (s : Site)
      → Gone l.payload.audio_paths s.files
      → Lost tick.now l s.queue (give_up w tick l s)
  unfolding give_up
  give_up-Lost tick l s h = record {
    failed = after_failure-is_failure (fail tick.now l.id l.attempts s.queue).1;
    handed_back = refl;
    again = λ j found h. fail-again tick.now l.id l.attempts j s.queue found h;
    originals = h;
    unstaged =
        λ c p paths e. stage_audio-lost c p paths s.files (subst (λ ps. Gone ps s.files) e h).0;
  }

  finish-Lost :
      (fault : Fault) (tick : Tick) (l : Lease) (ctx : Context) (s : Site)
      → is_late fault ≡ true
      → Lost tick.now l s.queue (finish_unless w (some fault) tick l ctx s)
  unfolding finish_unless done_before dispatch_some dispatch purge_vault_audio
  finish-Lost saving tick l ctx s h = cc h
  finish-Lost (deleting n bytes) tick l ctx s h = cc h
  finish-Lost closing tick l ctx s h =
      give_up-Lost tick l _ (delete_files-Gone l.payload.audio_paths s.files _)
  finish-Lost metering tick l ctx s h =
      give_up-Lost tick l _ (delete_files-Gone l.payload.audio_paths s.files _)
  finish-Lost using tick l ctx s h =
      give_up-Lost tick l _ (delete_files-Gone l.payload.audio_paths s.files _)
  finish-Lost auditing_audio tick l ctx s h =
      give_up-Lost tick l _ (delete_files-Gone l.payload.audio_paths s.files _)
  finish-Lost auditing_insight tick l ctx s h =
      give_up-Lost tick l _ (delete_files-Gone l.payload.audio_paths s.files _)
  finish-Lost dispatching tick l ctx s h =
      give_up-Lost tick l _ (delete_files-Gone l.payload.audio_paths s.files _)
  finish-Lost (delivering n) tick l ctx s h =
      give_up-Lost tick l _ (delete_files-Gone l.payload.audio_paths s.files _)
  finish-Lost completing tick l ctx s h =
      give_up-Lost tick l _ (delete_files-Gone l.payload.audio_paths s.files _)

  -- When a job's pipeline went through and a call behind the deletion of its audio raises, the job is
  -- handed back by `fail`, and its row is pending again where it has attempts left, but none of its
  -- originals is left: where it has any, they cannot be staged again.
  pub process_one-Lost :
      (fault : Fault) (tick : Tick) (s : Site) (queue : JobQueue) (l : Lease) (files left : Files)
      (paths : List String) (ctx : Context)
      → tick.fault ≡ some fault
      → is_late fault ≡ true
      → dequeue tick.now s.queue ≡ (queue, some l)
      → stage_audio w l.conversation_id l.payload.audio_paths s.files ≡ (files, some paths)
      → run_stages (w.pipeline_for l.payload.industry) (context_of l paths s.directory) files
        ≡ (left, some ctx)
      → Lost tick.now l queue (process_one w tick s)
  unfolding process_one take_job run_job after_stages finish
  process_one-Lost fault tick s queue l files left paths ctx broken late taken staged ran =
      rw (taken, staged, ran, broken)
        (finish-Lost fault (record tick { fault = some fault }) l ctx
          (record s { queue = queue; files = left }) late)
