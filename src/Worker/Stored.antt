-- ===== src/Worker/Stored.antt =====
-- A job that ended well (voclyp/worker.py, `process_one`).
use voclyp_dev.Prelude.{
  String, ◌≡◌, refl, ◌∙◌, Bool, Option, none, some, List, [], ◌∷◌, arith, Text, lookup, delete,
  count, count-delete_self, All, subst,
}
use voclyp_dev.Queue.{Lease, Status, pending, leased, done, dead, dequeue}
use voclyp_dev.Contracts.Context.{Context}
use voclyp_dev.Contracts.Insight.{Insight, build_insight}
use voclyp_dev.Insights.{get_insight}
use voclyp_dev.Insights.View.{get_insight-saved, get_insight-outbox}
use voclyp_dev.Worker.{
  World, after_failure, Tick, Site, Outcome, idle, stored, returned, dead_lettered, Files, at_path,
  delete_file, delete_files, give_up, finish, Fault, finish_unless, after_stages, run_job, take_job,
  dispatch, process_one, purge_vault_audio,
}

pub lookup-deleted :
    (q : String × Text → Bool) (p : String) (files : Files)
    → lookup p files ≡ none
    → lookup p (delete q files) ≡ none
lookup-deleted q p [] h = refl
lookup-deleted q p ((k, v) ∷ files) h = ground (arith, lookup-deleted q p files)

lookup-delete_file : (p : String) (files : Files) → lookup p (delete_file p files) ≡ none
lookup-delete_file p [] = refl
lookup-delete_file p ((k, v) ∷ files) = ground (arith, lookup-delete_file p files)

lookup-delete_files :
    (p : String) (paths : List String) (files : Files)
    → lookup p files ≡ none
    → lookup p (delete_files paths files) ≡ none
unfolding delete_files
lookup-delete_files p [] files h = h
lookup-delete_files p (k ∷ paths) files h =
    lookup-delete_files p paths (delete_file k files) (lookup-deleted (at_path k) p files h)

-- The files are gone.
abbrev pub Gone : List String → Files → Type 0
Gone paths files = All (λ p. lookup p files ≡ none) paths

pub delete_files-Gone :
    (paths : List String) (files : Files) (q : String × Text → Bool)
    → Gone paths (delete q (delete_files paths files))
unfolding delete_files
delete_files-Gone [] files q = tt
delete_files-Gone (p ∷ paths) files q = (
  lookup-deleted q p (delete_files paths (delete_file p files))
      (lookup-delete_files p paths (delete_file p files) (lookup-delete_file p files)),
  delete_files-Gone paths (delete_file p files) q,
)

-- The insight of the job is what is read for its conversation, and its audio is gone, both the
-- originals and what stands in its work directory.
pub record Settled (w : World) (l : Lease) (doc : Insight) (s : Site) : Type 0 where
  pub readable : get_insight l.tenant_id l.conversation_id s.ledger ≡ some doc
  pub originals : Gone l.payload.audio_paths s.files
  pub copies : count (λ e. w.in_work l.conversation_id e.0) s.files ≡ 0

-- What is known of each outcome.
abbrev Good : World → Option Lease → Site × Outcome → Type 0
Good w o (s, idle) = Unit
Good w o (s, stored doc) = (l : Lease) × (o ≡ some l) × Settled w l doc s
Good w o (s, returned) = Unit
Good w o (s, dead_lettered) = Unit

Good-after_failure :
    (w : World) (o : Option Lease) (s : Site) (status : Status) → Good w o (s, after_failure status)
Good-after_failure w o s pending = tt
Good-after_failure w o s leased = tt
Good-after_failure w o s done = tt
Good-after_failure w o s dead = tt

module _ (w : World) (tick : Tick) (l : Lease) where
  finish-Settled :
      (ctx : Context) (s : Site)
      → Settled w l (build_insight tick.now ctx) (finish_unless w none tick l ctx s).0
  unfolding finish_unless dispatch purge_vault_audio
  finish-Settled ctx s = record {
    readable =
        get_insight-outbox l.tenant_id l.conversation_id _ _
        ∙ get_insight-saved tick.now tick.event_id "conversation.insights.ready" "ready" l.tenant_id
            l.conversation_id (build_insight tick.now ctx) s.ledger;
    originals = delete_files-Gone l.payload.audio_paths s.files _;
    copies = count-delete_self _ (delete_files l.payload.audio_paths s.files);
  }

  finish-Good :
      (fault : Option Fault) (ctx : Context) (s : Site)
      → Good w (some l) (finish_unless w fault tick l ctx s)
  unfolding finish_unless give_up
  finish-Good none ctx s = (l, refl, finish-Settled ctx s)
  finish-Good (some fault) ctx s = Good-after_failure w (some l) _ _

  after_stages-Good : (o : Option Context) (s : Site) → Good w (some l) (after_stages w tick l o s)
  unfolding after_stages give_up finish
  after_stages-Good none s = Good-after_failure w (some l) _ _
  after_stages-Good (some ctx) s = finish-Good tick.fault ctx s

  run_job-Good :
      (r : Files × Option (List String)) (s : Site) → Good w (some l) (run_job w tick l r s)
  unfolding run_job give_up
  run_job-Good (files, none) s = Good-after_failure w (some l) _ _
  run_job-Good (files, some paths) s = after_stages-Good _ _

take_job-Good :
    (w : World) (tick : Tick) (o : Option Lease) (s : Site) → Good w o (take_job w tick o s)
unfolding take_job
take_job-Good w tick none s = tt
take_job-Good w tick (some l) s = run_job-Good w tick l _ s

-- When a call of the worker returns an insight, it is the insight that is read for the conversation
-- of the job that it took, and no audio of that job is left: neither the originals that the job
-- names nor anything in its work directory.
pub process_one-Settled :
    (w : World) (tick : Tick) (s s' : Site) (doc : Insight)
    → process_one w tick s ≡ (s', stored doc)
    → (l : Lease) × ((dequeue tick.now s.queue).1 ≡ some l) × Settled w l doc s'
unfolding process_one
process_one-Settled w tick s s' doc h =
    subst (Good w (dequeue tick.now s.queue).1) h
      (take_job-Good w tick (dequeue tick.now s.queue).1 _)
