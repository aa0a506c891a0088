-- ===== src/Worker.antt =====
-- voclyp/worker.py: the worker that takes jobs from the queue, runs the pipeline on staged copies of
-- the audio, stores the insight with its event and destroys the audio. What the stages do is an
-- argument: a stage reads and deletes files, and returns the context or raises. The outbox of the
-- insights and that of the webhooks is one table.
mod Tests
mod Start
pub mod Loops
pub mod Stored
pub mod Spares
pub mod Originals
pub mod Lost
use voclyp_dev.Prelude.{
  ℕ, zero, suc, ◌+◌, String, Bool, true, false, not, ◌&&◌, Option, none, some, List, [], ◌∷◌, ◌++◌,
  if◌then◌else◌, ◌==◌, is_some, str_eq, length, map, delete, lookup, insert, Text, find,
}
use voclyp_dev.Pipeline.{Stage, run_pipeline}
use voclyp_dev.Queue.{
  JobQueue, Lease, Payload, Status, pending, leased, done, dead, dequeue, complete, fail,
  pending_count,
}
use voclyp_dev.Contracts.Context.{Context}
use voclyp_dev.Contracts.Insight.{Insight, build_insight}
use voclyp_dev.Insights.{Ledger, save_insight_with_event}
use voclyp_dev.Users.{Directory, Public, Voiceprint, get_user, get_voiceprint}
use voclyp_dev.Worker.Start.{context_of}
use voclyp_dev.Live.{Visits, complete_live_session_for_conversation}
use voclyp_dev.Meters.{Meters, add_metrics, add_usage}
use voclyp_dev.Webhooks.{Store}
use voclyp_dev.Webhooks.Dispatch.{run_once, fan_out, deliver_due, World as Network}

abbrev pub Files : Type 0
Files = List (String × Text)

-- a stage as the worker sees it: the files it leaves, and the context unless it raised
pub record Work : Type 0 where
  pub name : String
  pub version : String
  pub run : Context → Files → Files × Option Context

-- `_pipeline_for`, `none` where it raises; the paths of the work directory; the network
pub record World : Type 0 where
  pub pipeline_for : String → Option (List Work)
  pub work_path : String → ℕ → String
  pub in_work : String → String → Bool
  pub network : Network

-- the call behind the pipeline that raises. A deletion does so after the originals before it were
-- deleted, and may have overwritten its own; the dispatcher does so before it fans out, or after it
-- has made some of the deliveries that are due.
pub data Fault : Type 0 where
  saving : Fault
  deleting : ℕ → Option Text → Fault
  closing metering using auditing_audio auditing_insight dispatching : Fault
  delivering : ℕ → Fault
  completing : Fault

-- what a call takes from the system; `fault` is `none` where nothing behind the pipeline raises
pub record Tick : Type 0 where
  pub now : ℕ
  pub event_id : String
  pub fault : Option Fault

-- the audit entries of the worker, with the values that their texts print
pub data AuditCall : Type 0 where
  audio_deleted : String → String → Option ℕ → AuditCall
  insight_stored : String → String → ℕ → AuditCall
  processing_failed : String → String → Status → AuditCall

pub record Site : Type 0 where
  pub queue : JobQueue
  pub files : Files
  pub directory : Directory
  pub ledger : Ledger
  pub visits : Visits
  pub meters : Meters
  pub hooks : Store
  pub audits : List AuditCall

-- what `process_one` returns: the insight; None with an empty queue or after a failure; or it raises
pub data Outcome : Type 0 where
  idle : Outcome
  stored : Insight → Outcome
  returned : Outcome
  dead_lettered : Outcome

-- `if status == "dead": raise`
abbrev after_failure : Status → Outcome
after_failure pending = returned
after_failure leased = returned
after_failure done = returned
after_failure dead = dead_lettered

abbrev pub at_path : String → String × Text → Bool
at_path path entry = str_eq entry.0 path

-- `vault.delete`
abbrev pub delete_file : String → Files → Files
delete_file path files = delete (at_path path) files

pub delete_files : List String → Files → Files
delete_files [] files = files
delete_files (path ∷ paths) files = delete_files paths (delete_file path files)

-- an original whose deletion raises, and the random bytes that it was overwritten with, if any
overwrite : Option Text → String → Files → Files
overwrite none path files = files
overwrite (some bytes) path files =
    if is_some (lookup path files) then insert path bytes files else files

-- the loop of `_purge_vault_audio`, where the deletion of an original raises
delete_until : ℕ → Option Text → List String → Files → Files
unfolding overwrite
delete_until n bytes [] files = files
delete_until zero bytes (path ∷ paths) files = overwrite bytes path files
delete_until (suc n) bytes (path ∷ paths) files =
    delete_until n bytes paths (delete_file path files)

-- after a stage that raised, no stage runs
run_stage : Work → Files × Option Context → Files × Option Context
run_stage stage (files, none) = (files, none)
run_stage stage (files, some ctx) = stage.run ctx files

abbrev stage_of : Work → Stage (Files × Option Context)
stage_of stage = record { name = stage.name; version = stage.version; run = λ s. run_stage stage s }

-- the context at the end, with the versions that the runner wrote
with_versions : List (String × String) → Option Context → Option Context
with_versions versions none = none
with_versions versions (some ctx) = some (record ctx { stage_versions = versions })

pub run_stages : Option (List Work) → Context → Files → Files × Option Context
unfolding run_stage with_versions
run_stages none ctx files = (files, none)
run_stages (some stages) ctx files =
    let ((left, end), versions) = run_pipeline (map stage_of stages) ((files, some ctx), []) in
    (left, with_versions versions end)

-- `staged.append`
and_staged : String → Files × Option (List String) → Files × Option (List String)
and_staged path (files, none) = (files, none)
and_staged path (files, some paths) = (files, some (path ∷ paths))

module _ (w : World) where
  -- the loop of `_stage_audio`
  stage_from : ℕ → String → List String → Files → Files × Option (List String)
  unfolding and_staged
  stage_from i conversation_id [] files = (files, some [])
  stage_from i conversation_id (path ∷ paths) files = elim (lookup path files) [
    | none ↦ (files, none)
    | some bytes ↦
        let staged = w.work_path conversation_id i in
        and_staged staged (stage_from (i + 1) conversation_id paths (insert staged bytes files))
  ]

  -- `shutil.rmtree(work_root)`
  abbrev clear_work : String → Files → Files
  clear_work conversation_id files = delete (λ e. w.in_work conversation_id e.0) files

  pub stage_audio : String → List String → Files → Files × Option (List String)
  unfolding stage_from
  stage_audio conversation_id paths files =
      stage_from 0 conversation_id paths (clear_work conversation_id files)

  -- `_purge_vault_audio`
  purge_vault_audio : String → List String → Files → Files
  unfolding delete_files
  purge_vault_audio conversation_id paths files =
      clear_work conversation_id (delete_files paths files)

  -- `dispatcher.run_once`, on the common outbox
  dispatch : ℕ → Site → Site
  dispatch now s =
      let before = s.hooks in
      let ledger = s.ledger in
      let after = (run_once w.network now now (record before { outbox = ledger.outbox })).0 in
      record s { hooks = after; ledger = record ledger { outbox = after.outbox } }

  -- the `except` clause
  give_up : Tick → Lease → Site → Site × Outcome
  give_up tick l s =
      let (queue, status) = fail tick.now l.id l.attempts s.queue in
      (
        record s {
          queue = queue;
          audits = s.audits ++ processing_failed l.tenant_id l.conversation_id status ∷ [];
        },
        after_failure status,
      )

  -- `save_insight_with_event`
  saved : Tick → Lease → Context → Site → Site
  saved tick l ctx s = record s {
    ledger =
        save_insight_with_event tick.now tick.event_id "conversation.insights.ready" "ready"
          l.tenant_id l.conversation_id (build_insight tick.now ctx) s.ledger;
  }

  -- the deletion of the audio, once the insight is saved
  purged : Tick → Lease → Context → Site → Site
  unfolding saved purge_vault_audio
  purged tick l ctx s = record (saved tick l ctx s) {
    files = purge_vault_audio l.conversation_id l.payload.audio_paths s.files;
  }

  closed : Tick → Lease → Context → Site → Site
  unfolding purged
  closed tick l ctx s = record (purged tick l ctx s) {
    visits = complete_live_session_for_conversation tick.now l.tenant_id l.conversation_id s.visits;
  }

  metered : Tick → Lease → Context → Site → Site
  unfolding closed
  metered tick l ctx s = record (closed tick l ctx s) {
    meters = add_metrics tick.now l.tenant_id l.conversation_id ctx.stage_timings_ms s.meters;
  }

  used : Tick → Lease → Context → Site → Site
  unfolding metered
  used tick l ctx s =
      let before = metered tick l ctx s in
      record before {
        meters = add_usage tick.now l.tenant_id l.conversation_id ctx.provider_usage before.meters;
      }

  noted : Tick → Lease → Context → List AuditCall → Site → Site
  unfolding used
  noted tick l ctx calls s = record (used tick l ctx s) { audits = s.audits ++ calls }

  abbrev both_calls : Lease → Context → List AuditCall
  both_calls l ctx =
      audio_deleted l.tenant_id l.conversation_id ctx.audio_deleted_at
      ∷ insight_stored l.tenant_id l.conversation_id (length ctx.signals)
      ∷ []

  -- all but `queue.complete`
  sent : Tick → Lease → Context → Site → Site
  unfolding noted dispatch
  sent tick l ctx s = dispatch tick.now (noted tick l ctx (both_calls l ctx) s)

  -- the dispatcher, stopped after the first `n` of the deliveries that are due
  dispatch_some : ℕ → ℕ → Site → Site
  dispatch_some n now s =
      let before = s.hooks in
      let ledger = s.ledger in
      let fanned = (fan_out now now (record before { outbox = ledger.outbox })).0 in
      let after = (deliver_due w.network now now n fanned).0 in
      record s { hooks = after; ledger = record ledger { outbox = after.outbox } }

  -- what is done when a call raises
  done_before : Fault → Tick → Lease → Context → Site → Site
  unfolding sent dispatch_some delete_until
  done_before saving tick l ctx s = s
  done_before (deleting n bytes) tick l ctx s = record (saved tick l ctx s) {
    files = delete_until n bytes l.payload.audio_paths s.files;
  }
  done_before closing tick l ctx s = purged tick l ctx s
  done_before metering tick l ctx s = closed tick l ctx s
  done_before using tick l ctx s = metered tick l ctx s
  done_before auditing_audio tick l ctx s = used tick l ctx s
  done_before auditing_insight tick l ctx s =
      noted tick l ctx (audio_deleted l.tenant_id l.conversation_id ctx.audio_deleted_at ∷ []) s
  done_before dispatching tick l ctx s = noted tick l ctx (both_calls l ctx) s
  done_before (delivering n) tick l ctx s =
      dispatch_some n tick.now (noted tick l ctx (both_calls l ctx) s)
  done_before completing tick l ctx s = sent tick l ctx s

  -- what follows the pipeline
  finish_unless : Option Fault → Tick → Lease → Context → Site → Site × Outcome
  unfolding sent done_before give_up
  finish_unless none tick l ctx s =
      let after = sent tick l ctx s in
      (
        record after { queue = complete tick.now l.id after.queue },
        stored (build_insight tick.now ctx),
      )
  finish_unless (some fault) tick l ctx s = give_up tick l (done_before fault tick l ctx s)

  finish : Tick → Lease → Context → Site → Site × Outcome
  unfolding finish_unless
  finish tick l ctx s = finish_unless tick.fault tick l ctx s

  after_stages : Tick → Lease → Option Context → Site → Site × Outcome
  unfolding finish give_up
  after_stages tick l none s = give_up tick l s
  after_stages tick l (some ctx) s = finish tick l ctx s

  run_job : Tick → Lease → Files × Option (List String) → Site → Site × Outcome
  unfolding after_stages run_stages context_of
  run_job tick l (files, none) s = give_up tick l (record s { files = files })
  run_job tick l (files, some paths) s =
      let (left, end) =
        run_stages (w.pipeline_for l.payload.industry) (context_of l paths s.directory) files in
      after_stages tick l end (record s { files = left })

  take_job : Tick → Option Lease → Site → Site × Outcome
  unfolding run_job stage_audio
  take_job tick none s = (s, idle)
  take_job tick (some l) s =
      run_job tick l (stage_audio l.conversation_id l.payload.audio_paths s.files) s

  -- `process_one`
  pub process_one : Tick → Site → Site × Outcome
  unfolding take_job
  process_one tick s =
      let (queue, l) = dequeue tick.now s.queue in take_job tick l (record s { queue = queue })
